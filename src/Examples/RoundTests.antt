-- ===== src/Examples/RoundTests.antt =====
-- A round of the execution service, and a request through the frontend.
use incubator_mesatee.Base.{Text, utf8, ◌≡◌, refl, err, [], ◌∷◌, ok, some, arith, ◌⊎◌, ◌==◌, ◌>>=◌}
use incubator_mesatee.Base.Bytes
use incubator_mesatee.Base.Collect
use incubator_mesatee.Base.HashMap.{HashMap}
use incubator_mesatee.Base.Str
use incubator_mesatee.Base.Utf8
use incubator_mesatee.Base.HashMap
use incubator_mesatee.Base.HashSet
use incubator_mesatee.Base.Outcome
use incubator_mesatee.Examples.Codec
use incubator_mesatee.Examples.World
use incubator_mesatee.Management.Db
use incubator_mesatee.Management.Files
use incubator_mesatee.Management.Requests
use incubator_mesatee.Management.Tasks
use incubator_mesatee.Scheduler
use incubator_mesatee.Storage.Queue
use incubator_mesatee.Storage.Service
use incubator_mesatee.System.Reach
use incubator_mesatee.Types.Crypto
use incubator_mesatee.Types.Error
use incubator_mesatee.Types.File
use incubator_mesatee.Types.Owners
use incubator_mesatee.Types.Restore
use incubator_mesatee.Types.Staged
use incubator_mesatee.Types.Storage
use incubator_mesatee.Types.Task
use incubator_mesatee.Types.TaskState
use incubator_mesatee.Types.Transition
use incubator_mesatee.Types.Worker
use incubator_mesatee.Execution.Files as ExecFiles
use incubator_mesatee.Execution.Worker as ExecWorker
use incubator_mesatee.Execution.Service as ExecService
use incubator_mesatee.Execution.Paths
use incubator_mesatee.Execution.StagedFile
use incubator_mesatee.Examples.Machine
use incubator_mesatee.Types.Cipher
use incubator_mesatee.Examples.Machine.{Files, machine, library}
use incubator_mesatee.Examples.Runs.{after, queued}
use incubator_mesatee.Examples.SystemTests.{reached_at}
use incubator_mesatee.Examples.World.{client, crates, alice, task_id}
use incubator_mesatee.Examples.World.{memory}
use incubator_mesatee.System.Failing.{with_failure, round-failed}
use incubator_mesatee.Types.Runtime.{error}
use incubator_mesatee.Execution.Service.{run_task}
use incubator_mesatee.Types.Crypto.{raw}
use incubator_mesatee.Types.Worker.{python, mesapy}
use incubator_mesatee.Types.Task.{staged}
use incubator_mesatee.Examples.TaskFormats
use incubator_mesatee.Examples.World.{bob, tag, creation}
use incubator_mesatee.Examples.Runs.{ready_task}
use incubator_mesatee.System.Rounds.{scheduler_client, Ran, round-ok}
use incubator_mesatee.System.Step.{Holds, task_key}
use incubator_mesatee.System.SchedulerSteps.{id_bytes}
use incubator_mesatee.Types.Staged.{StagedTask}
use incubator_mesatee.Types.TaskState.{TaskState, has_creator, all_data_assigned, everyone_approved}
use incubator_mesatee.Types.Task.{TaskOutputs, finished, done}
use incubator_mesatee.Execution.Service.{failure_result}

abbrev remote_files : Machine.Files
remote_files = (utf8 "http://bob/a", utf8 "data") ∷ []

runs_round :
    (ExecService.round library machine
      (scheduler_client crates client)
      (utf8 "/fusion")
      (after queued, remote_files)).0
    ≡ ok tt
unfolding ExecFiles.inter_input ExecFiles.decrypt_checked ExecFiles.stage_input
    ExecFiles.to_staged_file_entry ExecFiles.inter_output ExecFiles.convert_with
    ExecFiles.convert_to_upload_file ExecFiles.new ExecFiles.prepare_staged_inputs
    ExecFiles.prepare_staged_outputs ExecFiles.tags_of ExecFiles.upload_outputs StagedFile.from_iter
    StagedFile.create_readable_io StagedFile.create_writable_io StagedFile.copy_buffers
    StagedFile.buffers_of StagedFile.convert_file StagedFile.random_key StagedFile.create_with_bytes
    StagedFile.find_file StagedFile.open_input StagedFile.create_output Paths.join Paths.file_name
    Paths.original_name Paths.ensure_dir Paths.make_staged_path Paths.make_intermediate_path
    ExecWorker.execute_builtin ExecWorker.into_vec ExecWorker.c_strings ExecWorker.mesapy_answer
    ExecWorker.execute_mesapy ExecWorker.find_executor ExecWorker.register_runtime
    ExecWorker.register_executor ExecWorker.new_worker ExecWorker.default_worker
    ExecWorker.get_executor ExecWorker.get_runtime ExecWorker.execute ExecWorker.invoke_function
    ExecService.reported ExecService.prepare_task ExecService.run_task ExecService.on_scheduler
    ExecService.on_machine ExecService.update_task_status ExecService.update_task_result
    ExecService.attempt ExecService.invoke_task ExecService.round Str.is_utf8 Str.split Str.lines
    Str.trim Str.decimal Str.parse_u32 Bytes.truncate Bytes.drop Collect.collect Collect.All
    Collect.Zip Cipher.cmac_from_slice Cipher.aead_decrypt Cipher.aead_encrypt Cipher.decrypt
    Cipher.encrypt Machine.append Machine.transfer Utf8.starts_with Outcome.pure Outcome.raise
    Outcome.lift Outcome.map_err Outcome.ensure HashSet.contains HashSet.insert HashSet.collect
    HashSet.all_in HashSet.eq HashMap.get HashMap.insert HashMap.modify Error.display
    Error.from_anyhow Crypto.tag_from_bytes Crypto.aes_gcm_128_new Crypto.aes_gcm_256_new
    Crypto.teaclave_file_128_new Crypto.new Crypto.schema Crypto.key_iv Owners.from_list
    Owners.contains Owners.length Owners.insert Owners.union Owners.unions Owners.eq
    Owners.any_contains Storage.to_bytes Storage.match_prefix Storage.external_id
    Storage.storage_key Worker.executor_type_from Worker.executor_type_display Worker.executor_from
    Worker.executor_display File.input_new File.from_output File.output_new File.assign_cmac
    Staged.from_input Staged.from_output_file Staged.input_files Staged.output_files Task.all_owners
    Task.check Task.assign Task.external_ids Task.update_cmac TaskState.everyone_approved
    TaskState.same_keys TaskState.all_data_assigned TaskState.has_participant TaskState.has_creator
    Transition.status_of Transition.gather Transition.create_new Transition.assign_input
    Transition.assign_output Transition.approve_by Transition.stage_for_running
    Transition.update_output_cmac Transition.update_result Restore.assign_to_approve
    Restore.approve_to_stage Restore.restore_assign Restore.restore_approve Restore.restore_stage
    Restore.restore_run Restore.restore_finish Restore.save_create Restore.save_moving
    Restore.save_assign Restore.save_approve Restore.save_stage Restore.save_run Restore.save_finish
    Queue.storage_error Queue.le_bytes Queue.from_le_bytes Queue.next_index Queue.tail_key
    Queue.head_key Queue.element_key Queue.decode_u32 Queue.read_u32 Queue.get_head Queue.get_tail
    Queue.enqueue Queue.dequeue Service.get Service.put Service.delete Service.enqueue
    Service.dequeue Requests.response_error Db.or_else Db.get_request_user_id Db.write_to_db
    Db.read_from_db Db.enqueue_to_db Files.function_of Files.register_input_file
    Files.update_input_file Files.register_output_file Files.update_output_file
    Files.create_fusion_data Files.register_fusion_output Files.register_input_from_output
    Files.get_output_file Files.get_input_file Files.register_function Files.get_function
    Tasks.create_task Tasks.get_task Tasks.assign_inputs Tasks.assign_outputs Tasks.assign_data
    Tasks.approve_task Tasks.invoke_task Scheduler.response_error Scheduler.publish_task
    Scheduler.pull_staged Scheduler.get_from_db Scheduler.put_into_db Scheduler.get_task_state
    Scheduler.pull_task Scheduler.update_task_status Scheduler.update_tags Scheduler.take_outputs
    Scheduler.update_task_result Reach.run Reach.run_all Codec.both_dec Codec.via_dec
    Codec.items_enc Codec.items_dec Codec.from_text World.remove ◌==◌ ◌>>=◌
runs_round = refl

round-ok_example :
    (task : StagedTask) × (s1 : HashMap Text) × (ts : TaskState) × (Scheduler.pull_task crates
        client
        (after queued)
      ≡ (ok task, s1))
    × Holds crates client
        ((ExecService.round library machine
            (scheduler_client crates client)
            (utf8 "/fusion")
            (after queued, remote_files)).1
          ).0
        ts
    × (task_key crates client ts ≡ id_bytes crates client task.task_id)
    × (ts.status ≡ finished)
    × (((e : Text) × (ts.result ≡ failure_result e))
        ⊎ ((o : TaskOutputs) × (ts.result ≡ done o)
            × Ran library machine crates client (utf8 "/fusion") task remote_files s1 o))
round-ok_example =
    round-ok library machine crates client (utf8 "/fusion") (after queued) remote_files
      (reached_at queued) runs_round

-- the task as it is queued
abbrev queued_task : StagedTask
queued_task = record {
  task_id = 4;
  function_id = 1;
  executor = mesapy;
  executor_type = python;
  function_name = utf8 "f";
  function_arguments = creation.function_arguments;
  function_payload = utf8 "def f";
  input_data = (utf8 "a", record { url = utf8 "http://bob/a"; cmac = tag; crypto_info = raw }) ∷ [];
  output_data = (utf8 "o", record { url = utf8 "http://alice/o"; crypto_info = raw }) ∷ [];
}

abbrev pulled_store : HashMap Text
pulled_store = (Scheduler.pull_task crates client (after queued)).1

abbrev unsupported : Text
unsupported = utf8 "OutputFile: unsupported type"

abbrev staged_task : TaskState
staged_task = record ready_task {
  approved_users = record { uids = bob ∷ alice ∷ [] };
  status = staged;
}

abbrev stored_as : TaskState → Text
stored_as ts = TaskFormats.task_state.enc ts []

record Fails : Type 0 where
  pulls : Scheduler.pull_task crates client (after queued) ≡ (ok queued_task, pulled_store)
  fails :
      (run_task library machine (utf8 "/fusion") queued_task remote_files).0
      ≡ err (error unsupported)
  stores :
      client.view pulled_store (task_key crates client staged_task) ≡ some (stored_as staged_task)

fails : Fails
unfolding ExecFiles.inter_input ExecFiles.decrypt_checked ExecFiles.stage_input
    ExecFiles.to_staged_file_entry ExecFiles.inter_output ExecFiles.convert_with
    ExecFiles.convert_to_upload_file ExecFiles.new ExecFiles.prepare_staged_inputs
    ExecFiles.prepare_staged_outputs ExecFiles.tags_of ExecFiles.upload_outputs StagedFile.from_iter
    StagedFile.create_readable_io StagedFile.create_writable_io StagedFile.copy_buffers
    StagedFile.buffers_of StagedFile.convert_file StagedFile.random_key StagedFile.create_with_bytes
    StagedFile.find_file StagedFile.open_input StagedFile.create_output Paths.join Paths.file_name
    Paths.original_name Paths.ensure_dir Paths.make_staged_path Paths.make_intermediate_path
    ExecWorker.execute_builtin ExecWorker.into_vec ExecWorker.c_strings ExecWorker.mesapy_answer
    ExecWorker.execute_mesapy ExecWorker.find_executor ExecWorker.register_runtime
    ExecWorker.register_executor ExecWorker.new_worker ExecWorker.default_worker
    ExecWorker.get_executor ExecWorker.get_runtime ExecWorker.execute ExecWorker.invoke_function
    ExecService.reported ExecService.prepare_task ExecService.run_task ExecService.on_scheduler
    ExecService.on_machine ExecService.update_task_status ExecService.update_task_result
    ExecService.attempt ExecService.invoke_task ExecService.round Str.is_utf8 Str.split Str.lines
    Str.trim Str.decimal Str.parse_u32 Bytes.truncate Bytes.drop Collect.collect Collect.All
    Collect.Zip Cipher.cmac_from_slice Cipher.aead_decrypt Cipher.aead_encrypt Cipher.decrypt
    Cipher.encrypt Machine.append Machine.transfer Utf8.starts_with Outcome.pure Outcome.raise
    Outcome.lift Outcome.map_err Outcome.ensure HashSet.contains HashSet.insert HashSet.collect
    HashSet.all_in HashSet.eq HashMap.get HashMap.insert HashMap.modify Error.display
    Error.from_anyhow Crypto.tag_from_bytes Crypto.aes_gcm_128_new Crypto.aes_gcm_256_new
    Crypto.teaclave_file_128_new Crypto.new Crypto.schema Crypto.key_iv Owners.from_list
    Owners.contains Owners.length Owners.insert Owners.union Owners.unions Owners.eq
    Owners.any_contains Storage.to_bytes Storage.match_prefix Storage.external_id
    Storage.storage_key Worker.executor_type_from Worker.executor_type_display Worker.executor_from
    Worker.executor_display File.input_new File.from_output File.output_new File.assign_cmac
    Staged.from_input Staged.from_output_file Staged.input_files Staged.output_files Task.all_owners
    Task.check Task.assign Task.external_ids Task.update_cmac TaskState.everyone_approved
    TaskState.same_keys TaskState.all_data_assigned TaskState.has_participant TaskState.has_creator
    Transition.status_of Transition.gather Transition.create_new Transition.assign_input
    Transition.assign_output Transition.approve_by Transition.stage_for_running
    Transition.update_output_cmac Transition.update_result Restore.assign_to_approve
    Restore.approve_to_stage Restore.restore_assign Restore.restore_approve Restore.restore_stage
    Restore.restore_run Restore.restore_finish Restore.save_create Restore.save_moving
    Restore.save_assign Restore.save_approve Restore.save_stage Restore.save_run Restore.save_finish
    Queue.storage_error Queue.le_bytes Queue.from_le_bytes Queue.next_index Queue.tail_key
    Queue.head_key Queue.element_key Queue.decode_u32 Queue.read_u32 Queue.get_head Queue.get_tail
    Queue.enqueue Queue.dequeue Service.get Service.put Service.delete Service.enqueue
    Service.dequeue Requests.response_error Db.or_else Db.get_request_user_id Db.write_to_db
    Db.read_from_db Db.enqueue_to_db Files.function_of Files.register_input_file
    Files.update_input_file Files.register_output_file Files.update_output_file
    Files.create_fusion_data Files.register_fusion_output Files.register_input_from_output
    Files.get_output_file Files.get_input_file Files.register_function Files.get_function
    Tasks.create_task Tasks.get_task Tasks.assign_inputs Tasks.assign_outputs Tasks.assign_data
    Tasks.approve_task Tasks.invoke_task Scheduler.response_error Scheduler.publish_task
    Scheduler.pull_staged Scheduler.get_from_db Scheduler.put_into_db Scheduler.get_task_state
    Scheduler.pull_task Scheduler.update_task_status Scheduler.update_tags Scheduler.take_outputs
    Scheduler.update_task_result Reach.run Reach.run_all Codec.both_dec Codec.via_dec
    Codec.items_enc Codec.items_dec Codec.from_text World.remove ◌==◌ ◌>>=◌
fails = record { pulls = refl; fails = refl; stores = refl }

reads : (j v : Text) (s : client.Store) → client.view s j ≡ some v → (client.get j s).0 ≡ ok v
unfolding Service.get
reads j v s h = ground (arith, h)

writes : (j v : Text) (s : client.Store) → (client.put j v s).0 ≡ ok tt
unfolding Service.put
writes j v s = refl

encodes : (ts : TaskState) → (v : Text) × (crates.task_json.to_vec ts ≡ ok v)
encodes ts = (stored_as ts, refl)

round-failed_example :
    ((ExecService.round library machine
        (scheduler_client crates client)
        (utf8 "/fusion")
        (after queued, remote_files)).0
      ≡ ok tt)
    × Holds crates client
        ((ExecService.round library machine
            (scheduler_client crates client)
            (utf8 "/fusion")
            (after queued, remote_files)).1
          ).0
        (with_failure staged_task unsupported)
unfolding Storage.storage_key Storage.external_id Storage.to_bytes
round-failed_example =
    round-failed crates client reads writes encodes library machine (utf8 "/fusion") (after queued)
      pulled_store remote_files queued_task unsupported staged_task fails.pulls
      (record {
        bytes = stored_as staged_task;
        stored = fails.stores;
        decoded = crates.task_json.from_slice-to_vec staged_task refl;
      })
      refl refl fails.fails
