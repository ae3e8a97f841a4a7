-- ===== src/System/Rounds.antt =====
-- A round of the execution service with the scheduler (services/execution and services/scheduler):
-- what is stored when it ends without an error.
use incubator_mesatee.Base.{
  Text, ◌≡◌, sym, ap, subst, ◌∙◌, ok, err, Result, Result-cases, ◌⊎◌, inl, inr, [], lift, ◌>>=◌,
  map_err, arith,
}
use incubator_mesatee.Execution.Platform.{Platform}
use incubator_mesatee.Execution.Service.{
  SchedulerClient, on_scheduler, on_machine, run_task, update_task_status, update_task_result,
  invoke_task, reported, attempt, round, failure_result,
}
use incubator_mesatee.Execution.Worker.{Library}
use incubator_mesatee.Management.Db.{Crates}
use incubator_mesatee.Management.Requests.{Request}
use incubator_mesatee.Scheduler
use incubator_mesatee.Scheduler.{UpdateTaskStatusRequest, UpdateTaskResultRequest}
use incubator_mesatee.Storage.Client.{StorageClient}
use incubator_mesatee.System.Later.{same_key}
use incubator_mesatee.System.SchedulerAnswers.{update_task_status-ok, update_task_result-ok}
use incubator_mesatee.System.SchedulerSteps.{id_bytes, pull_task-Steps, update_task_status-Steps}
use incubator_mesatee.System.Step.{IsSound, Holds, Steps-IsSound, task_key}
use incubator_mesatee.Types.Error.{display}
use incubator_mesatee.Types.Runtime.{Failure, error, panic}
use incubator_mesatee.Types.Staged.{StagedTask}
use incubator_mesatee.Types.Task.{TaskOutputs, TaskResult, done, running, staged, finished}
use incubator_mesatee.Types.TaskState.{TaskState}

-- The scheduler service, called directly, with no metadata.
abbrev pub scheduler_client : Crates → StorageClient → SchedulerClient
scheduler_client k c = record {
  State = c.Store;
  pull_task = map_err display (Scheduler.pull_task k c);
  update_task_status = λ r.
      map_err display (Scheduler.update_task_status k c (record { metadata = []; message = r }));
  update_task_result = λ r.
      map_err display (Scheduler.update_task_result k c (record { metadata = []; message = r }));
}

module _ (l : Library) (p : Platform) (k : Crates) (c : StorageClient) where
  abbrev pub status_request : StagedTask → Request UpdateTaskStatusRequest
  status_request task = record {
    metadata = [];
    message = record { task_id = task.task_id; task_status = running };
  }

  abbrev pub result_request : StagedTask → TaskResult → Request UpdateTaskResultRequest
  result_request task result = record {
    metadata = [];
    message = record { task_id = task.task_id; task_result = result };
  }

  -- the store after the call that sets the status
  abbrev pub started : StagedTask → c.Store → c.Store
  started task s = (Scheduler.update_task_status k c (status_request task) s).1

  pub invoke_task-store :
      (base : Text) (task : StagedTask) (s : c.Store) (m : p.Machine)
      → ((invoke_task l p (scheduler_client k c) base task (s, m)).1).0 ≡ started task s
  unfolding invoke_task update_task_status on_scheduler on_machine ◌>>=◌ map_err
  invoke_task-store base task s m =
      elim (Result-cases (Scheduler.update_task_status k c (status_request task) s).0) [
        | inl (x, e) ↦ ground (arith, e)
        | inr (x, e) ↦ ground (arith, e)
      ]

  invoke_task-done :
      (base : Text) (task : StagedTask) (s : c.Store) (m : p.Machine) (o : TaskOutputs)
      → (invoke_task l p (scheduler_client k c) base task (s, m)).0 ≡ ok o
      → ((Scheduler.update_task_status k c (status_request task) s).0 ≡ ok tt)
        × ((run_task l p base task m).0 ≡ ok o)
  unfolding invoke_task update_task_status on_scheduler on_machine ◌>>=◌ map_err
  invoke_task-done base task s m o h =
      elim (Result-cases (Scheduler.update_task_status k c (status_request task) s).0) [
        | inl (x, e) ↦ ground (arith, h, e)
        | inr (x, e) ↦ absurd (ground (arith, h, e))
      ]

  reported_done :
      (r : Result Failure TaskOutputs) (o : TaskOutputs) → reported r ≡ ok (done o) → r ≡ ok o
  unfolding reported
  reported_done (ok x) o h = ground (arith, h)
  reported_done (err (error e)) o h = absurd (ground (arith, h))
  reported_done (err panic) o h = absurd (ground (arith, h))

  -- the pieces of a round that ends
  round-parts :
      (base : Text) (s : c.Store) (m : p.Machine)
      → (round l p (scheduler_client k c) base (s, m)).0 ≡ ok tt
      → (task : StagedTask) × (result : TaskResult) × (s1 : c.Store) × (Scheduler.pull_task k c s
          ≡ (ok task, s1))
        × (reported (invoke_task l p (scheduler_client k c) base task (s1, m)).0 ≡ ok result)
        × ((Scheduler.update_task_result k c (result_request task result) (started task s1)).0
            ≡ ok tt)
        × (((round l p (scheduler_client k c) base (s, m)).1).0
            ≡ (Scheduler.update_task_result k c (result_request task result) (started task s1)).1)
  unfolding round attempt update_task_result on_scheduler ◌>>=◌ map_err lift
  round-parts base s m h = elim (Result-cases (Scheduler.pull_task k c s).0) [
    | inr (x, e) ↦ absurd (ground (arith, h, e))
    | inl (task, e) ↦
        let s1 = (Scheduler.pull_task k c s).1 in
        elim (Result-cases
          (reported (invoke_task l p (scheduler_client k c) base task (s1, m)).0)) [
            | inr (x, f) ↦ absurd (ground (arith, h, e, f))
            | inl (result, f) ↦
                let same = invoke_task-store base task s1 m in
                (
                  task,
                  result,
                  s1,
                  ap (λ a. (a, s1)) e,
                  f,
                  ground (arith, h, e, f, same),
                  ground (arith, e, f, same),
                )
          ]
  ]

  told_either :
      (r : Result Failure TaskOutputs) (result : TaskResult)
      → reported r ≡ ok result
      → ((e : Text) × (result ≡ failure_result e)) ⊎ ((o : TaskOutputs) × (result ≡ done o))
  unfolding reported
  told_either (ok o) result h = inr (o, ground (arith, h))
  told_either (err (error e)) result h = inl (e, ground (arith, h))
  told_either (err panic) result h = absurd (ground (arith, h))

  -- the run of the task returned these outputs, and it was `Staged` before
  abbrev pub Ran : Text → StagedTask → p.Machine → c.Store → TaskOutputs → Type 0
  Ran base task m s1 o =
      (old : TaskState) × ((run_task l p base task m).0 ≡ ok o)
      × Holds k c s1 old
      × (task_key k c old ≡ id_bytes k c task.task_id)
      × (old.status ≡ staged)

  -- When a round ends without an error, a task was taken from the queue and is stored as Finished,
  -- under its UUID. Its result is either a failure, or the outputs that its run returned, and then
  -- it was Staged before it ran.
  pub round-ok :
      (base : Text) (s : c.Store) (m : p.Machine)
      → IsSound k c s
      → (round l p (scheduler_client k c) base (s, m)).0 ≡ ok tt
      → (task : StagedTask) × (s1 : c.Store) × (ts : TaskState) × (Scheduler.pull_task k c s
          ≡ (ok task, s1))
        × Holds k c ((round l p (scheduler_client k c) base (s, m)).1).0 ts
        × (task_key k c ts ≡ id_bytes k c task.task_id)
        × (ts.status ≡ finished)
        × (((e : Text) × (ts.result ≡ failure_result e))
            ⊎ ((o : TaskOutputs) × (ts.result ≡ done o) × Ran base task m s1 o))
  round-ok base s m sound h =
      let (task, result, s1, pulled, told, updated, last) = round-parts base s m h in
      let sound1 : IsSound k c s1 =
        subst (IsSound k c) (ap (λ a. a.1) pulled)
          (Steps-IsSound k c (pull_task-Steps k c {P = λ _. Unit {0}} s) sound) in
      let sound2 =
        Steps-IsSound k c
          (update_task_status-Steps k c {P = λ _. Unit {0}} s1 sound1 (status_request task))
          sound1 in
      let (old, ts, held, key, at, ended, same, moved, kept) =
        update_task_result-ok k c (started task s1) sound2 (result_request task result) updated in
      let answer = (invoke_task l p (scheduler_client k c) base task (s1, m)).0 in
      (
        task,
        s1,
        ts,
        pulled,
        subst (λ t. Holds k c t ts) (sym last) kept,
        same_key k c old ts (moved.same).same_id ∙ key,
        ended,
        elim (told_either answer result told) [
          | inl (e, q) ↦ inl (e, same ∙ q)
          | inr (o, q) ↦
              let (began, returned) =
                invoke_task-done base task s1 m o (reported_done answer o (told ∙ ap ok q)) in
              let (before, there, id, status, after) =
                update_task_status-ok k c s1 sound1 (status_request task) began in
              inr (o, same ∙ q, (before, returned, there, id, status))
        ],
      )
