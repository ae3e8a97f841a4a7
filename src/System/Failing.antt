-- ===== src/System/Failing.antt =====
-- While the storage answers, a task whose run fails is ended (services/execution and
-- services/scheduler/enclave/src/service.rs).
use incubator_mesatee.Base.{
  Text, ◌≡◌, refl, ok, pure, lift, ensure, map_err, ◌>>=◌, arith, starts_with, err, sym, ◌∙◌, subst,
  some,
}
use incubator_mesatee.Execution.Platform.{Platform}
use incubator_mesatee.Execution.Service
use incubator_mesatee.Execution.Service.{
  on_scheduler, on_machine, run_task, invoke_task, reported, attempt, round,
}
use incubator_mesatee.Execution.Worker.{Library}
use incubator_mesatee.Management.Db.{Crates}
use incubator_mesatee.Management.Requests.{Request}
use incubator_mesatee.Scheduler.{
  UpdateTaskStatusRequest, UpdateTaskResultRequest, get_from_db, get_task_state, put_into_db,
  take_outputs, pull_task, update_task_status, update_task_result,
}
use incubator_mesatee.Storage.Client.{StorageClient}
use incubator_mesatee.System.Later.{same_key}
use incubator_mesatee.System.Rounds.{
  scheduler_client, status_request, result_request, started, invoke_task-store,
}
use incubator_mesatee.System.SchedulerSteps.{id_bytes}
use incubator_mesatee.System.Step.{Holds, task_key}
use incubator_mesatee.Types.Restore.{
  restore_run, restore_finish, save_run, save_moving, save_finish,
}
use incubator_mesatee.Types.Runtime.{error}
use incubator_mesatee.Types.Staged.{StagedTask}
use incubator_mesatee.Types.Storage.{Uuid, match_prefix}
use incubator_mesatee.Types.Task.{TaskResult, failed, staged, running, finished}
use incubator_mesatee.Types.TaskState.{TaskState}
use incubator_mesatee.Types.Transition.{status_of, update_result}

-- the task with its failure
abbrev pub with_failure : TaskState → Text → TaskState
with_failure ts e = record ts { status = finished; result = failed (record { reason = e }) }

module _ (k : Crates) (c : StorageClient) (s : c.Store) (ts : TaskState) (bytes v : Text) where
  -- a staged task that is read and can be written is set to Running
  accepts_start :
      (r : Request UpdateTaskStatusRequest)
      → (c.get (id_bytes k c (r.message).task_id) s).0 ≡ ok bytes
      → k.task_json.from_slice bytes ≡ ok ts
      → ts.status ≡ staged
      → k.task_json.to_vec (record ts { status = running }) ≡ ok v
      → (c.put (task_key k c (record ts { status = running })) v s).0 ≡ ok tt
      → ((update_task_status k c r s).0 ≡ ok tt)
        × ((update_task_status k c r s).1
            ≡ (c.put (task_key k c (record ts { status = running })) v s).1)
  unfolding update_task_status get_task_state get_from_db put_into_db restore_run save_run
      save_moving status_of match_prefix starts_with lift ensure map_err ◌>>=◌
  accepts_start r g d at w p =
      let q = c.store-get (id_bytes k c (r.message).task_id) s in
      (ground (arith, g, q, d, at, w, p), ground (arith, g, q, d, at, w, p))

  -- a failure of a running task that is read and can be written is accepted, whatever its files
  accepts_failure :
      (r : Request UpdateTaskResultRequest) (e : Text)
      → (r.message).task_result ≡ failed (record { reason = e })
      → (c.get (id_bytes k c (r.message).task_id) s).0 ≡ ok bytes
      → k.task_json.from_slice bytes ≡ ok ts
      → ts.status ≡ running
      → k.task_json.to_vec (with_failure ts e) ≡ ok v
      → (c.put (task_key k c (with_failure ts e)) v s).0 ≡ ok tt
      → ((update_task_result k c r s).0 ≡ ok tt)
        × ((update_task_result k c r s).1 ≡ (c.put (task_key k c (with_failure ts e)) v s).1)
  unfolding update_task_result get_task_state get_from_db put_into_db take_outputs restore_finish
      update_result save_finish save_moving status_of match_prefix starts_with pure lift ensure
      map_err ◌>>=◌
  accepts_failure r e h g d at w p =
      let q = c.store-get (id_bytes k c (r.message).task_id) s in
      (ground (arith, h, g, q, d, at, w, p), ground (arith, h, g, q, d, at, w, p))

-- a storage that gives what it holds and takes what it is given, and JSON for every task
module _ (k : Crates) (c : StorageClient)
    (reads : (j v : Text) (s : c.Store) → c.view s j ≡ some v → (c.get j s).0 ≡ ok v)
    (writes : (j v : Text) (s : c.Store) → (c.put j v s).0 ≡ ok tt)
    (encodes : (ts : TaskState) → (v : Text) × (k.task_json.to_vec ts ≡ ok v)) where
  module _ (s : c.Store) (ts : TaskState) where
    read_at :
        (id : Uuid) (h : Holds k c s ts)
        → task_key k c ts ≡ id_bytes k c id
        → (c.get (id_bytes k c id) s).0 ≡ ok h.bytes
    read_at id h q =
        reads (id_bytes k c id) h.bytes s
          (subst (λ (j : Text). c.view s j ≡ some h.bytes) q h.stored)

    -- a task is held by the store into which it was put
    put-Holds :
        (v : Text) (t : c.Store)
        → k.task_json.to_vec ts ≡ ok v
        → t ≡ (c.put (task_key k c ts) v s).1
        → Holds k c t ts
    put-Holds v t e q =
        subst (λ x. Holds k c x ts) (sym q)
          (record {
            bytes = v;
            stored = c.view-put_self (task_key k c ts) v s (writes (task_key k c ts) v s);
            decoded = k.task_json.from_slice-to_vec ts e;
          })

  update_task_status-accepts :
      (s : c.Store) (ts : TaskState) (r : Request UpdateTaskStatusRequest)
      → Holds k c s ts
      → task_key k c ts ≡ id_bytes k c (r.message).task_id
      → ts.status ≡ staged
      → ((update_task_status k c r s).0 ≡ ok tt)
        × Holds k c (update_task_status k c r s).1 (record ts { status = running })
  update_task_status-accepts s ts r h q at =
      let new = record ts { status = running } in
      let (v, e) = encodes new in
      let (done, last) =
        accepts_start k c s ts h.bytes v r (read_at s ts _ h q) h.decoded at e
          (writes (task_key k c new) v s) in
      (done, put-Holds s new v _ e last)

  update_task_result-accepts_failure :
      (s : c.Store) (ts : TaskState) (r : Request UpdateTaskResultRequest) (e : Text)
      → (r.message).task_result ≡ failed (record { reason = e })
      → Holds k c s ts
      → task_key k c ts ≡ id_bytes k c (r.message).task_id
      → ts.status ≡ running
      → ((update_task_result k c r s).0 ≡ ok tt)
        × Holds k c (update_task_result k c r s).1 (with_failure ts e)
  update_task_result-accepts_failure s ts r e told h q at =
      let (v, w) = encodes (with_failure ts e) in
      let (done, last) =
        accepts_failure k c s ts h.bytes v r e told (read_at s ts _ h q) h.decoded at w
          (writes (task_key k c (with_failure ts e)) v s) in
      (done, put-Holds s (with_failure ts e) v _ w last)

  module _ (l : Library) (p : Platform) (base : Text) (s s1 : c.Store) (m : p.Machine)
      (task : StagedTask) where
    invoke_task-failed :
        (e : Text)
        → (update_task_status k c (status_request l p k c task) s1).0 ≡ ok tt
        → (run_task l p base task m).0 ≡ err (error e)
        → (invoke_task l p (scheduler_client k c) base task (s1, m)).0 ≡ err (error e)
    unfolding invoke_task Service.update_task_status on_scheduler on_machine ◌>>=◌ map_err
    invoke_task-failed e began ran = ground (arith, began, ran)

    -- While the storage gives what it holds and takes what it is given, and every task has a JSON
    -- form: if the task that is taken from the queue is stored as Staged and its run fails with an
    -- error, the round ends well, and the store then holds the task, as it was but Finished and
    -- with this failure as its result.
    pub round-failed :
        (e : Text) (ts : TaskState)
        → pull_task k c s ≡ (ok task, s1)
        → Holds k c s1 ts
        → task_key k c ts ≡ id_bytes k c task.task_id
        → ts.status ≡ staged
        → (run_task l p base task m).0 ≡ err (error e)
        → ((round l p (scheduler_client k c) base (s, m)).0 ≡ ok tt)
          × Holds k c ((round l p (scheduler_client k c) base (s, m)).1).0 (with_failure ts e)
    unfolding round attempt Service.update_task_result on_scheduler ◌>>=◌ map_err lift reported
    round-failed e ts pulled held key at ran =
        let (began, running_now) =
          update_task_status-accepts s1 ts (status_request l p k c task) held key at in
        let result : TaskResult = failed (record { reason = e }) in
        let now = record ts { status = running } in
        let (done, ended) =
          update_task_result-accepts_failure (started l p k c task s1) now
            (result_request l p k c task result) e refl running_now (same_key k c ts now refl ∙ key)
            refl in
        let failed_run = invoke_task-failed e began ran in
        let store = invoke_task-store l p k c base task s1 m in
        let last : (update_task_result k c (result_request l p k c task result)
              (started l p k c task s1)).1
            ≡ ((round l p (scheduler_client k c) base (s, m)).1).0 =
          ground (arith, pulled, failed_run, store) in
        (
          ground (arith, pulled, failed_run, store, done),
          subst (λ t. Holds k c t (with_failure ts e)) last ended,
        )
