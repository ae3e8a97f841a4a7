-- ===== src/Examples/Runs.antt =====
-- What the requests of `Examples.World` answer, step by step.
use incubator_mesatee.Base.{
  Text, utf8, ◌≡◌, refl, List, [], ◌∷◌, ◌++◌, some, none, ok, true, ◌==◌, ◌>>=◌,
}
use incubator_mesatee.Base.HashMap
use incubator_mesatee.Base.HashMap.{HashMap}
use incubator_mesatee.Base.HashSet
use incubator_mesatee.Base.Outcome
use incubator_mesatee.Base.Utf8
use incubator_mesatee.Examples.Codec
use incubator_mesatee.Examples.World
use incubator_mesatee.Management.Db
use incubator_mesatee.Management.Files
use incubator_mesatee.Management.Requests
use incubator_mesatee.Management.Tasks
use incubator_mesatee.Scheduler
use incubator_mesatee.Storage.Queue
use incubator_mesatee.Storage.Service
use incubator_mesatee.System.Reach
use incubator_mesatee.Types.Crypto
use incubator_mesatee.Types.Error
use incubator_mesatee.Types.File
use incubator_mesatee.Types.Owners
use incubator_mesatee.Types.Restore
use incubator_mesatee.Types.Staged
use incubator_mesatee.Types.Storage
use incubator_mesatee.Types.Task
use incubator_mesatee.Types.TaskState
use incubator_mesatee.Types.Transition
use incubator_mesatee.Types.Worker
use incubator_mesatee.Examples.World.{
  client, crates, registered, creation, assigned, invoked, task_id, alice, bob, tag, from_user,
  id_of, assign_a, result_request, status_request,
}
use incubator_mesatee.Management.Requests.{
  Request, AssignDataRequest, ApproveTaskRequest, InvokeTaskRequest, GetTaskRequest,
  GetTaskResponse, UpdateInputFileRequest, UpdateOutputFileRequest, RegisterFusionOutputRequest,
  RegisterInputFromOutputRequest, GetOutputFileRequest, GetOutputFileResponse, GetInputFileRequest,
  GetInputFileResponse, GetFunctionRequest, GetFunctionResponse,
}
use incubator_mesatee.System.Reach.{Call}
use incubator_mesatee.Types.Crypto.{raw}
use incubator_mesatee.Types.File.{InputFile, OutputFile}
use incubator_mesatee.Types.Task.{data_assigned, finished, not_ready, done}
use incubator_mesatee.Types.TaskState.{TaskState}
use incubator_mesatee.Types.Worker.{python, mesapy}

abbrev pub after : List Call → HashMap Text
after xs = Reach.run_all crates client xs []

abbrev pub with_data : List Call
with_data = registered ++ assigned

abbrev pub all_done : List Call
all_done =
    with_data
    ++ (invoked
        ++ (Reach.pull_task
            ∷ Reach.update_task_status status_request
            ∷ Reach.update_task_result result_request
            ∷ []))

abbrev pub input_a : InputFile
input_a = record {
  url = utf8 "http://bob/a";
  cmac = tag;
  crypto_info = raw;
  owner = record { uids = bob ∷ [] };
  uuid = 2;
}

abbrev pub output_o : OutputFile
output_o = record {
  url = utf8 "http://alice/o";
  cmac = none;
  crypto_info = raw;
  owner = record { uids = alice ∷ [] };
  uuid = 3;
}

abbrev pub ready_task : TaskState
ready_task = record {
  task_id = 4;
  creator = alice;
  function_id = id_of (utf8 "function") 1;
  function_arguments = creation.function_arguments;
  executor = mesapy;
  inputs_ownership = creation.inputs_ownership;
  outputs_ownership = creation.outputs_ownership;
  function_owner = alice;
  participants = record { uids = alice ∷ bob ∷ [] };
  approved_users = record { uids = [] };
  assigned_inputs = (utf8 "a", input_a) ∷ [];
  assigned_outputs = (utf8 "o", output_o) ∷ [];
  result = not_ready;
  status = data_assigned;
}

abbrev pub finished_task : TaskState
finished_task = record ready_task {
  approved_users = record { uids = bob ∷ alice ∷ [] };
  assigned_outputs = (utf8 "o", record output_o { cmac = some tag }) ∷ [];
  result = (result_request.message).task_result;
  status = finished;
}

abbrev pub get_request : Request GetTaskRequest
get_request = from_user bob (record { task_id = task_id })

abbrev pub get_response : GetTaskResponse
get_response = record {
  task_id = task_id;
  creator = alice;
  function_id = ready_task.function_id;
  function_owner = alice;
  function_arguments = ready_task.function_arguments;
  inputs_ownership = ready_task.inputs_ownership;
  outputs_ownership = ready_task.outputs_ownership;
  participants = ready_task.participants;
  approved_users = ready_task.approved_users;
  assigned_inputs = (utf8 "a", id_of (utf8 "input") 2) ∷ [];
  assigned_outputs = (utf8 "o", id_of (utf8 "output") 3) ∷ [];
  result = not_ready;
  status = data_assigned;
}

abbrev pub approval : Text → Request ApproveTaskRequest
approval user = from_user user (record { task_id = task_id })

abbrev pub invocation : Request InvokeTaskRequest
invocation = from_user alice (record { task_id = task_id })

abbrev pub new_input : Request UpdateInputFileRequest
new_input = from_user bob (record { data_id = id_of (utf8 "input") 2; url = utf8 "http://bob/b" })

abbrev pub new_output : Request UpdateOutputFileRequest
new_output =
    from_user alice (record { data_id = id_of (utf8 "output") 3; url = utf8 "http://alice/p" })

abbrev pub reuse_output : Request RegisterInputFromOutputRequest
reuse_output = from_user alice (record { data_id = id_of (utf8 "output") 3 })

abbrev pub ask_output : Request GetOutputFileRequest
ask_output = from_user alice (record { data_id = id_of (utf8 "output") 3 })

abbrev ask_input : Request GetInputFileRequest
ask_input = from_user bob (record { data_id = id_of (utf8 "input") 2 })

abbrev pub ask_function : Request GetFunctionRequest
ask_function = from_user bob (record { function_id = id_of (utf8 "function") 1 })

abbrev pub function_response : GetFunctionResponse
function_response = record {
  name = utf8 "f";
  description = [];
  owner = alice;
  executor_type = python;
  payload = utf8 "def f";
  public = true;
  arguments = utf8 "n" ∷ [];
  inputs = record { name = utf8 "a"; description = [] } ∷ [];
  outputs = record { name = utf8 "o"; description = [] } ∷ [];
}

abbrev pub joint_output : Request RegisterFusionOutputRequest
joint_output = from_user alice (record { owner_list = record { uids = alice ∷ bob ∷ [] } })

abbrev pub drafted : List Call
drafted = registered ++ (Reach.create_task 4 (from_user alice creation) ∷ [])

abbrev pub approved_by_both : List Call
approved_by_both =
    with_data ++ (Reach.approve_task (approval alice) ∷ Reach.approve_task (approval bob) ∷ [])

abbrev pub queued : List Call
queued = with_data ++ invoked

abbrev pub started : List Call
started = queued ++ (Reach.update_task_status status_request ∷ [])

pub record Answers : Type 0 where
  pub reads_ready :
      (Db.read_from_db crates client (Db.tasks crates) task_id (after with_data)).0 ≡ ok ready_task
  pub reads_finished :
      (Db.read_from_db crates client (Db.tasks crates) task_id (
        Reach.run_all crates client
          (invoked
            ++ (Reach.pull_task
                ∷ Reach.update_task_status status_request
                ∷ Reach.update_task_result result_request
                ∷ []))
          (after with_data))).0
      ≡ ok finished_task
  pub gets : (Tasks.get_task crates client get_request (after with_data)).0 ≡ ok get_response
  pub assigns : (Tasks.assign_data crates client (from_user bob assign_a) (after drafted)).0 ≡ ok tt
  pub approves : (Tasks.approve_task crates client (approval bob) (after with_data)).0 ≡ ok tt
  pub invokes : (Tasks.invoke_task crates client invocation (after approved_by_both)).0 ≡ ok tt
  pub starts : (Scheduler.update_task_status crates client status_request (after queued)).0 ≡ ok tt
  pub finishes :
      (Scheduler.update_task_result crates client result_request (after started)).0 ≡ ok tt
  pub updates_input :
      (Files.update_input_file crates client 7 new_input (after registered)).0
      ≡ ok (id_of (utf8 "input") 7)
  pub updates_output :
      (Files.update_output_file crates client 7 new_output (after registered)).0
      ≡ ok (id_of (utf8 "output") 7)
  pub reuses :
      (Files.register_input_from_output crates client reuse_output (after all_done)).0
      ≡ ok (id_of (utf8 "input") 3)
  pub asks_output :
      (Files.get_output_file crates client ask_output (after all_done)).0
      ≡ ok (record { owner = record { uids = alice ∷ [] }; cmac = some tag })
  asks_input :
      (Files.get_input_file crates client ask_input (after registered)).0
      ≡ ok (record { owner = record { uids = bob ∷ [] }; cmac = tag })
  pub creates :
      (Tasks.create_task crates client 4 (from_user alice creation) (after registered)).0
      ≡ ok task_id
  pub fuses :
      (Files.register_fusion_output crates client 8 raw 9 joint_output (after registered)).0
      ≡ ok (id_of (utf8 "output") 9)
  pub asks_function :
      (Files.get_function crates client ask_function (after registered)).0 ≡ ok function_response

pub answers : Answers
unfolding Utf8.starts_with Outcome.pure Outcome.raise Outcome.lift Outcome.map_err Outcome.ensure
    HashSet.contains HashSet.insert HashSet.collect HashSet.all_in HashSet.eq HashMap.get
    HashMap.insert HashMap.modify Error.display Error.from_anyhow Crypto.tag_from_bytes
    Crypto.aes_gcm_128_new Crypto.aes_gcm_256_new Crypto.teaclave_file_128_new Crypto.new
    Crypto.schema Crypto.key_iv Owners.from_list Owners.contains Owners.length Owners.insert
    Owners.union Owners.unions Owners.eq Owners.any_contains Storage.to_bytes Storage.match_prefix
    Storage.external_id Storage.storage_key Worker.executor_type_from Worker.executor_type_display
    Worker.executor_from Worker.executor_display File.input_new File.from_output File.output_new
    File.assign_cmac Staged.from_input Staged.from_output_file Staged.input_files
    Staged.output_files Task.all_owners Task.check Task.assign Task.external_ids Task.update_cmac
    TaskState.everyone_approved TaskState.same_keys TaskState.all_data_assigned
    TaskState.has_participant TaskState.has_creator Transition.status_of Transition.gather
    Transition.create_new Transition.assign_input Transition.assign_output Transition.approve_by
    Transition.stage_for_running Transition.update_output_cmac Transition.update_result
    Restore.assign_to_approve Restore.approve_to_stage Restore.restore_assign
    Restore.restore_approve Restore.restore_stage Restore.restore_run Restore.restore_finish
    Restore.save_create Restore.save_moving Restore.save_assign Restore.save_approve
    Restore.save_stage Restore.save_run Restore.save_finish Queue.storage_error Queue.le_bytes
    Queue.from_le_bytes Queue.next_index Queue.tail_key Queue.head_key Queue.element_key
    Queue.decode_u32 Queue.read_u32 Queue.get_head Queue.get_tail Queue.enqueue Queue.dequeue
    Service.get Service.put Service.delete Service.enqueue Service.dequeue Requests.response_error
    Db.or_else Db.get_request_user_id Db.write_to_db Db.read_from_db Db.enqueue_to_db
    Files.function_of Files.register_input_file Files.update_input_file Files.register_output_file
    Files.update_output_file Files.create_fusion_data Files.register_fusion_output
    Files.register_input_from_output Files.get_output_file Files.get_input_file
    Files.register_function Files.get_function Tasks.create_task Tasks.get_task Tasks.assign_inputs
    Tasks.assign_outputs Tasks.assign_data Tasks.approve_task Tasks.invoke_task
    Scheduler.response_error Scheduler.publish_task Scheduler.pull_staged Scheduler.get_from_db
    Scheduler.put_into_db Scheduler.get_task_state Scheduler.pull_task Scheduler.update_task_status
    Scheduler.update_tags Scheduler.take_outputs Scheduler.update_task_result Reach.run
    Reach.run_all Codec.both_dec Codec.via_dec Codec.items_enc Codec.items_dec Codec.from_text
    World.remove ◌==◌ ◌>>=◌
answers = record {
  reads_ready = refl;
  reads_finished = refl;
  gets = refl;
  assigns = refl;
  approves = refl;
  invokes = refl;
  starts = refl;
  finishes = refl;
  updates_input = refl;
  updates_output = refl;
  reuses = refl;
  asks_output = refl;
  asks_input = refl;
  creates = refl;
  fuses = refl;
  asks_function = refl;
}
