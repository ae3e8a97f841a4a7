-- ===== src/System/SchedulerAnswers.antt =====
-- What a request of an executor means when it succeeds (services/scheduler/enclave/src/service.rs).
use incubator_mesatee.Base.{◌≡◌, ok}
use incubator_mesatee.Management.Db.{Crates}
use incubator_mesatee.Management.Requests.{Request}
use incubator_mesatee.Scheduler.{
  update_task_status, update_task_result, UpdateTaskStatusRequest, UpdateTaskResultRequest,
}
use incubator_mesatee.Storage.Client.{StorageClient}
use incubator_mesatee.System.SchedulerSteps.{
  id_bytes, update_task_status-Ends, update_task_result-Ends,
}
use incubator_mesatee.System.Step.{IsSound, Holds, task_key}
use incubator_mesatee.Types.Moves.{Moves}
use incubator_mesatee.Types.Task.{staged, running, finished}
use incubator_mesatee.Types.TaskState.{TaskState}

module _ (k : Crates) (c : StorageClient) (s : c.Store) (sound : IsSound k c s) where
  -- If the status of a task is updated, then, whatever status the request names, the task was
  -- `Staged` and is then stored as it was, `Running`.
  pub update_task_status-ok :
      (r : Request UpdateTaskStatusRequest)
      → (update_task_status k c r s).0 ≡ ok tt
      → (ts : TaskState) × Holds k c s ts
        × (task_key k c ts ≡ id_bytes k c (r.message).task_id)
        × (ts.status ≡ staged)
        × Holds k c (update_task_status k c r s).1 (record ts { status = running })
  update_task_status-ok r h = (update_task_status-Ends k c {P = λ _. Unit {0}} s sound r).found tt h

  -- If the result of a task is updated, the task was `Running` and is then stored, `Finished`
  -- and with that result, as a later state of the same task.
  pub update_task_result-ok :
      (r : Request UpdateTaskResultRequest)
      → (update_task_result k c r s).0 ≡ ok tt
      → (ts ts' : TaskState) × Holds k c s ts
        × (task_key k c ts ≡ id_bytes k c (r.message).task_id)
        × (ts.status ≡ running)
        × (ts'.status ≡ finished)
        × (ts'.result ≡ (r.message).task_result)
        × Moves ts ts'
        × Holds k c (update_task_result k c r s).1 ts'
  update_task_result-ok r h = (update_task_result-Ends k c {P = λ _. Unit {0}} s sound r).found tt h
