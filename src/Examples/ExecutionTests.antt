-- ===== src/Examples/ExecutionTests.antt =====
-- A task that joins two inputs on the machine in memory, and a script that uses a closed handle.
use incubator_mesatee.Base.{
  Text, utf8, ◌≡◌, refl, List, [], ◌∷◌, ok, err, inl, ◌==◌, ◌>>=◌, starts_with, Option,
}
use incubator_mesatee.Base.Bytes
use incubator_mesatee.Base.Collect
use incubator_mesatee.Base.Collect.{All}
use incubator_mesatee.Base.HashMap
use incubator_mesatee.Base.HashMap.{HashMap}
use incubator_mesatee.Base.Outcome
use incubator_mesatee.Base.Str
use incubator_mesatee.Examples.FunctionTests.{one_file}
use incubator_mesatee.Examples.Machine
use incubator_mesatee.Examples.Machine.{Files, machine, library, plain_aead, no_tag}
use incubator_mesatee.Examples.World.{tag}
use incubator_mesatee.Execution.Context
use incubator_mesatee.Execution.Context.{Call, World, perform, perform_all, new}
use incubator_mesatee.Execution.Files
use incubator_mesatee.Execution.Files.{InterInput, to_staged_file_entry}
use incubator_mesatee.Execution.Handles.{perform-closed}
use incubator_mesatee.Execution.Paths
use incubator_mesatee.Execution.Service
use incubator_mesatee.Execution.Service.{run_task}
use incubator_mesatee.Execution.StagedFile
use incubator_mesatee.Execution.StagedFile.{StagedFileInfo}
use incubator_mesatee.Execution.Uploads.{
  IsProtected, EndsIn, run_task-IsProtected, to_staged_file_entry-EndsIn,
}
use incubator_mesatee.Execution.Worker
use incubator_mesatee.Functions.Join
use incubator_mesatee.Types.Cipher
use incubator_mesatee.Types.Crypto.{raw, teaclave_file_128, aes_gcm_128}
use incubator_mesatee.Types.Runtime.{error}
use incubator_mesatee.Types.Staged.{StagedTask, FunctionOutputFile, FunctionInputFile}
use incubator_mesatee.Types.Task.{TaskOutputs}
use incubator_mesatee.Types.Worker.{builtin, Executor, executor_type_display, executor_display}

abbrev output_at : Text → FunctionOutputFile
output_at url = record {
  url = url;
  crypto_info = teaclave_file_128 (record { key = utf8 "0123456789abcdef" });
}

abbrev input_at : Text → FunctionInputFile
input_at url = record { url = url; cmac = tag; crypto_info = raw }

abbrev join_task : StagedTask
join_task = record {
  task_id = 4;
  function_id = 1;
  executor = Executor.builtin;
  executor_type = builtin;
  function_name = utf8 "builtin-private-join-and-compute";
  function_arguments = record { inner = [] };
  function_payload = [];
  input_data =
      (utf8 "input_data0", input_at (utf8 "/a")) ∷ (utf8 "input_data1", input_at (utf8 "/b")) ∷ [];
  output_data =
      (utf8 "output_data0", output_at (utf8 "/x"))
      ∷ (utf8 "output_data1", output_at (utf8 "/y"))
      ∷ [];
}

abbrev remote_files : Files
remote_files = (utf8 "/a", utf8 "a:1\nb:2") ∷ (utf8 "/b", utf8 "b:5\nc:7") ∷ []

abbrev outputs : TaskOutputs
outputs = record {
  return_value = utf8 "2 users join the task in total.";
  tags_map = (utf8 "output_data0", tag) ∷ (utf8 "output_data1", tag) ∷ [];
}

record Runs : Type 0 where
  joins : (run_task library machine (utf8 "/fusion") join_task remote_files).0 ≡ ok outputs
  -- what the first party finds at its output
  uploads :
      HashMap.get (run_task library machine (utf8 "/fusion") join_task remote_files).1 (utf8 "/x")
      ≡ Option.some (utf8 "b, 7\n")

runs : Runs
unfolding Files.inter_input Files.decrypt_checked Files.stage_input Files.to_staged_file_entry
    Files.inter_output Files.convert_with Files.convert_to_upload_file Files.new
    Files.prepare_staged_inputs Files.prepare_staged_outputs Files.tags_of Files.upload_outputs
    StagedFile.from_iter StagedFile.create_readable_io StagedFile.create_writable_io
    StagedFile.copy_buffers StagedFile.buffers_of StagedFile.convert_file StagedFile.random_key
    StagedFile.create_with_bytes StagedFile.find_file StagedFile.open_input StagedFile.create_output
    Paths.join Paths.file_name Paths.original_name Paths.ensure_dir Paths.make_staged_path
    Paths.make_intermediate_path Worker.execute_builtin Worker.into_vec Worker.c_strings
    Worker.mesapy_answer Worker.execute_mesapy Worker.find_executor Worker.register_runtime
    Worker.register_executor Worker.new_worker Worker.default_worker Worker.get_executor
    Worker.get_runtime Worker.execute Worker.invoke_function Service.reported Service.prepare_task
    Service.run_task Service.on_scheduler Service.on_machine Service.update_task_status
    Service.update_task_result Service.attempt Service.invoke_task Service.round
    Join.get_intersection_sum Join.parse_pair Join.parse_items Join.parse_input Join.print_sums
    Join.get_data Join.join_rounds Join.write_outputs Join.private_join_and_compute Str.is_utf8
    Str.split Str.lines Str.trim Str.decimal Str.parse_u32 Bytes.truncate Bytes.drop Collect.collect
    Collect.All Collect.Zip Cipher.cmac_from_slice Cipher.aead_decrypt Cipher.aead_encrypt
    Cipher.decrypt Cipher.encrypt Machine.append Machine.transfer Outcome.pure Outcome.raise
    Outcome.lift Outcome.ensure HashMap.get HashMap.insert ◌==◌ ◌>>=◌ starts_with
    executor_type_display executor_display
runs = record { joins = refl; uploads = refl }

run_task-IsProtected_example :
    All (λ (x : Text × FunctionOutputFile). IsProtected (x.1).crypto_info) join_task.output_data
run_task-IsProtected_example =
    run_task-IsProtected library machine (utf8 "/fusion") join_task remote_files outputs runs.joins

abbrev sealed_bytes : Text
sealed_bytes = utf8 "secret0123456789abcdef"

abbrev sealed_input : InterInput
sealed_input = record {
  funiq_key = utf8 "data";
  file = record {
    url = utf8 "/s";
    cmac = tag;
    crypto_info = aes_gcm_128 (record { key = utf8 "0123456789abcdef"; iv = utf8 "0123456789ab" });
  };
  download_path = utf8 "/in/s";
  staged_path = utf8 "/staged/s";
}

abbrev sealed_files : Files
sealed_files = (utf8 "/in/s", sealed_bytes) ∷ []

abbrev staged_entry : Text × StagedFileInfo
staged_entry = (
  utf8 "data",
  record {
    path = utf8 "/staged/s";
    crypto_info = record { key = utf8 "random key 16 by" };
    cmac = tag;
  },
)

stages : (to_staged_file_entry plain_aead machine sealed_input sealed_files).0 ≡ ok staged_entry
unfolding Files.to_staged_file_entry Files.stage_input Files.decrypt_checked Cipher.decrypt
    Cipher.aead_decrypt Cipher.cmac_from_slice StagedFile.create_with_bytes StagedFile.random_key
    Bytes.truncate Bytes.drop Outcome.pure Outcome.lift Outcome.ensure HashMap.get HashMap.insert
    ◌==◌ ◌>>=◌
stages = refl

to_staged_file_entry-EndsIn_example :
    (found : Text) × ((machine.read_file (utf8 "/in/s") sealed_files).0 ≡ ok found)
    × EndsIn tag found
to_staged_file_entry-EndsIn_example =
    to_staged_file_entry-EndsIn plain_aead machine sealed_input
      (record { key = utf8 "0123456789abcdef"; iv = utf8 "0123456789ab" }) sealed_files staged_entry
      (inl refl) stages

abbrev before : List (Call one_file)
before = Call.open_input (utf8 "a") ∷ Call.create_output (utf8 "b") ∷ []

abbrev later : List (Call one_file)
later = Call.open_input (utf8 "a") ∷ []

abbrev at_close : World one_file
at_close = perform_all one_file before (new one_file, 0)

abbrev at_end : World one_file
at_end = perform_all one_file later (perform one_file (Call.close_handle 1) at_close).1

closes : (perform one_file (Call.close_handle 1) at_close).0 ≡ ok Context.closed
unfolding Context.find Context.remove_entry Context.add Context.get_mut Context.remove
    Context.into_write_handle Context.is_write_handle Context.next Context.new Context.on_runtime
    Context.get Context.put Context.perform Context.perform_all Outcome.pure Outcome.lift ◌>>=◌
closes = refl

perform-closed_example :
    ((perform one_file (Call.read_handle 1 8) at_end).0
      ≡ err (error (utf8 "Get an invalid handle")))
    × ((perform one_file (Call.write_handle 1 []) at_end).0
        ≡ err (error (utf8 "Get an invalid handle")))
    × ((perform one_file (Call.close_handle 1) at_end).0
        ≡ err (error (utf8 "Remove an invalid handle")))
perform-closed_example = perform-closed one_file before later 1 8 [] 0 closes
