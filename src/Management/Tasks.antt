-- ===== src/Management/Tasks.antt =====
-- The requests on tasks of services/management/enclave/src/service.rs.
use incubator_mesatee.Base.{Action, pure, ◌>>=◌, ◌>>◌, [], ◌∷◌, map_err, lift}
use incubator_mesatee.Base.HashMap.{HashMap}
use incubator_mesatee.Management.Db.{
  Crates, replace_err, or_else, require, get_request_user_id, write_to_db, read_from_db,
  enqueue_to_db, inputs, outputs, functions, tasks, staged,
}
use incubator_mesatee.Management.Requests.{
  Request, CreateTaskRequest, GetTaskRequest, GetTaskResponse, AssignDataRequest,
  ApproveTaskRequest, InvokeTaskRequest, storage_failure, permission_denied, bad_task,
}
use incubator_mesatee.Storage.Client.{StorageClient}
use incubator_mesatee.Types.Error.{ServiceError, from_anyhow}
use incubator_mesatee.Types.Owners.{UserId}
use incubator_mesatee.Types.Restore.{
  restore_assign, restore_approve, restore_stage, save_create, save_assign, save_approve,
  save_stage,
}
use incubator_mesatee.Types.Staged.{queue_key}
use incubator_mesatee.Types.Storage.{Uuid, ExternalId, external_id}
use incubator_mesatee.Types.Task.{external_ids}
use incubator_mesatee.Types.TaskState.{has_participant, has_creator}
use incubator_mesatee.Types.Transition.{
  StateTag, Task, create_new, assign_input, assign_output, approve_by, stage_for_running,
}

module _ (k : Crates) (c : StorageClient) where
  -- `fresh` is the UUID that `Task::<Create>::new` draws
  unfoldable pub create_task :
      Uuid → Request CreateTaskRequest → Action c.Store ServiceError ExternalId
  create_task fresh request = do
    user_id ← get_request_user_id request.metadata
    let r = request.message
    function ← replace_err permission_denied (read_from_db k c (functions k) r.function_id)
    task ← or_else bad_task (
        create_new fresh user_id r.executor r.function_arguments r.inputs_ownership
          r.outputs_ownership function)
    let ts = save_create task
    replace_err storage_failure (write_to_db k c (tasks k) ts)
    pure (external_id (tasks k) ts)

  unfoldable pub get_task : Request GetTaskRequest → Action c.Store ServiceError GetTaskResponse
  get_task request = do
    user_id ← get_request_user_id request.metadata
    ts ← replace_err permission_denied (read_from_db k c (tasks k) (request.message).task_id)
    require (has_participant ts user_id) permission_denied
    pure (record {
      task_id = external_id (tasks k) ts;
      creator = ts.creator;
      function_id = ts.function_id;
      function_owner = ts.function_owner;
      function_arguments = ts.function_arguments;
      inputs_ownership = ts.inputs_ownership;
      outputs_ownership = ts.outputs_ownership;
      participants = ts.participants;
      approved_users = ts.approved_users;
      assigned_inputs = external_ids (inputs k) ts.assigned_inputs;
      assigned_outputs = external_ids (outputs k) ts.assigned_outputs;
      result = ts.result;
      status = ts.status;
    })

  -- the first loop of `assign_data`
  unfoldable pub assign_inputs :
      UserId
      → HashMap ExternalId
      → Task StateTag.assign
      → Action c.Store ServiceError (Task StateTag.assign)
  assign_inputs user_id [] task = pure task
  assign_inputs user_id ((data_name, data_id) ∷ rest) task = do
    file ← replace_err permission_denied (read_from_db k c (inputs k) data_id)
    task' ← or_else permission_denied (assign_input task user_id data_name file)
    assign_inputs user_id rest task'

  -- the second loop of `assign_data`
  unfoldable pub assign_outputs :
      UserId
      → HashMap ExternalId
      → Task StateTag.assign
      → Action c.Store ServiceError (Task StateTag.assign)
  assign_outputs user_id [] task = pure task
  assign_outputs user_id ((data_name, data_id) ∷ rest) task = do
    file ← replace_err permission_denied (read_from_db k c (outputs k) data_id)
    task' ← or_else permission_denied (assign_output task user_id data_name file)
    assign_outputs user_id rest task'

  unfoldable pub assign_data : Request AssignDataRequest → Action c.Store ServiceError (Unit {0})
  assign_data request = do
    user_id ← get_request_user_id request.metadata
    let r = request.message
    ts ← replace_err permission_denied (read_from_db k c (tasks k) r.task_id)
    require (has_participant ts user_id) permission_denied
    task ← or_else permission_denied (restore_assign ts)
    task1 ← assign_inputs user_id r.inputs task
    task2 ← assign_outputs user_id r.outputs task1
    replace_err storage_failure (write_to_db k c (tasks k) (save_assign task2))

  unfoldable pub approve_task : Request ApproveTaskRequest → Action c.Store ServiceError (Unit {0})
  approve_task request = do
    user_id ← get_request_user_id request.metadata
    ts ← replace_err permission_denied (read_from_db k c (tasks k) (request.message).task_id)
    task ← or_else permission_denied (restore_approve ts)
    task' ← or_else permission_denied (approve_by task user_id)
    replace_err storage_failure (write_to_db k c (tasks k) (save_approve task'))

  unfoldable pub invoke_task : Request InvokeTaskRequest → Action c.Store ServiceError (Unit {0})
  invoke_task request = do
    user_id ← get_request_user_id request.metadata
    ts ← replace_err permission_denied (read_from_db k c (tasks k) (request.message).task_id)
    require (has_creator ts user_id) permission_denied
    function ← replace_err permission_denied (read_from_db k c (functions k) ts.function_id)
    task ← or_else permission_denied (restore_stage ts)
    staged_task ← map_err from_anyhow (lift (stage_for_running task user_id function))
    enqueue_to_db k c (staged k) queue_key staged_task
    replace_err storage_failure (write_to_db k c (tasks k) (save_stage task))
