-- ===== src/Scheduler.antt =====
-- The scheduler service (services/scheduler/enclave/src/service.rs and error.rs): it hands staged
-- tasks to executors and takes their results. Its state is the store, which it shares with the
-- management service, and a queue in memory that only `publish_task` uses.
use incubator_mesatee.Base.{
  Text, utf8, Action, ok, pure, ◌>>=◌, ◌>>◌, [], ◌∷◌, ◌++◌, List, map_err, lift, ensure,
}
use incubator_mesatee.Base.HashMap.{HashMap}
use incubator_mesatee.Management.Db.{Crates, outputs, tasks, staged}
use incubator_mesatee.Management.Requests.{Request}
use incubator_mesatee.Storage.Client.{StorageClient}
use incubator_mesatee.Types.Crypto.{FileAuthTag}
use incubator_mesatee.Types.Error.{ServiceError, request_error, display, from_anyhow}
use incubator_mesatee.Types.Restore.{restore_run, restore_finish, save_run, save_finish}
use incubator_mesatee.Types.Staged.{StagedTask, queue_key}
use incubator_mesatee.Types.Storage.{
  Uuid, ExternalId, Storable, to_bytes, match_prefix, storage_key,
}
use incubator_mesatee.Types.Task.{TaskStatus, TaskResult, not_ready, done, failed}
use incubator_mesatee.Types.TaskState.{TaskState}
use incubator_mesatee.Types.Transition.{finish, Task, update_output_cmac, update_result}

pub record UpdateTaskStatusRequest : Type 0 where
  pub task_id : Uuid
  pub task_status : TaskStatus

pub record UpdateTaskResultRequest : Type 0 where
  pub task_id : Uuid
  pub task_result : TaskResult

pub data SchedulerError : Type 0 where
  service_err data_error storage_failure : SchedulerError

-- `From<TeaclaveSchedulerError> for TeaclaveServiceResponseError`
unfoldable pub response_error : SchedulerError → ServiceError
response_error service_err = request_error (utf8 "scheduler service error")
response_error data_error = request_error (utf8 "data error")
response_error storage_failure = request_error (utf8 "storage error")

-- `publish_task`
unfoldable pub publish_task : Request StagedTask → Action (List StagedTask) ServiceError (Unit {0})
publish_task request task_queue = (ok tt, task_queue ++ (request.message ∷ []))

module _ (k : Crates) (c : StorageClient) where
  module _ {A : Type 0} (st : Storable A) where
    unfoldable pub pull_staged : Text → Action c.Store ServiceError A
    pull_staged key = do
      value ← c.dequeue key
      map_err (λ _. response_error data_error) (lift (st.json.from_slice value))

    unfoldable pub get_from_db : ExternalId → Action c.Store Text A
    get_from_db key = do
      ensure (match_prefix st key.prefix) (utf8 "Key prefix doesn't match.")
      value ← map_err display (c.get (to_bytes k.show_uuid key))
      lift (st.json.from_slice value)

    unfoldable pub put_into_db : A → Action c.Store Text (Unit {0})
    put_into_db item = do
      v ← lift (st.json.to_vec item)
      map_err display (c.put (storage_key st k.show_uuid item) v)

  unfoldable pub get_task_state : Uuid → Action c.Store Text TaskState
  get_task_state task_id =
      get_from_db (tasks k) (record { prefix = (tasks k).key_prefix; uuid = task_id })

  -- `pull_task`
  unfoldable pub pull_task : Action c.Store ServiceError StagedTask
  pull_task = pull_staged (staged k) queue_key

  -- the status that the request names is not read
  unfoldable pub update_task_status :
      Request UpdateTaskStatusRequest → Action c.Store ServiceError (Unit {0})
  update_task_status request = do
    ts ← map_err from_anyhow (get_task_state (request.message).task_id)
    task ← map_err from_anyhow (lift (restore_run ts))
    map_err from_anyhow (put_into_db (tasks k) (save_run task))

  -- the loop of `update_task_result`
  unfoldable pub update_tags :
      HashMap FileAuthTag → Task finish → Action c.Store ServiceError (Task finish)
  update_tags [] task = pure task
  update_tags ((key, auth_tag) ∷ rest) task = do
    (outfile, task') ← map_err from_anyhow (lift (update_output_cmac task key auth_tag))
    map_err from_anyhow (put_into_db (outputs k) outfile)
    update_tags rest task'

  -- `if let TaskResult::Ok(outputs) = …`
  unfoldable pub take_outputs : TaskResult → Task finish → Action c.Store ServiceError (Task finish)
  take_outputs not_ready task = pure task
  take_outputs (done outputs) task = update_tags outputs.tags_map task
  take_outputs (failed reason) task = pure task

  unfoldable pub update_task_result :
      Request UpdateTaskResultRequest → Action c.Store ServiceError (Unit {0})
  update_task_result request = do
    let r = request.message
    ts ← map_err from_anyhow (get_task_state r.task_id)
    task ← map_err from_anyhow (lift (restore_finish ts))
    task' ← take_outputs r.task_result task
    map_err from_anyhow (put_into_db (tasks k) (save_finish (update_result task' r.task_result)))
