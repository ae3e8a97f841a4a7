-- ===== src/System/TaskAnswers.antt =====
-- What a request on a task means when it succeeds (services/management/enclave/src/service.rs).
use incubator_mesatee.Base.{utf8, ◌≡◌, true, ok, sym, subst, ◌∙◌, ap, arith, pure, some}
use incubator_mesatee.Base.HashMap
use incubator_mesatee.Base.HashMap.{HashMap}
use incubator_mesatee.Management.Db.{Crates, tasks, functions}
use incubator_mesatee.Management.Requests.{
  CreateTaskRequest, Request, GetTaskRequest, GetTaskResponse, ApproveTaskRequest,
  InvokeTaskRequest, storage_failure,
}
use incubator_mesatee.Management.Tasks.{create_task, get_task, approve_task, invoke_task}
use incubator_mesatee.Storage.Client.{StorageClient}
use incubator_mesatee.System.StateAnswer.{IsAnswer, answer-IsAnswer}
use incubator_mesatee.System.Answers.{
  Stored, ok_user, ok_read, ok_read_task, ok_require, ok_or_else, ends_Stored, ends_pure-Stored,
}
use incubator_mesatee.System.Step.{IsSound, Holds, task_key}
use incubator_mesatee.Types.Function.{Function, FunctionArguments}
use incubator_mesatee.Types.Participants.{create-IsWellFormed}
use incubator_mesatee.Types.Worker.{Executor}
use incubator_mesatee.Types.Owners
use incubator_mesatee.Types.Owners.{UserId}
use incubator_mesatee.Types.Restore.{save_create, save_approve}
use incubator_mesatee.Types.Storage.{Uuid, ExternalId, to_bytes, external_id}
use incubator_mesatee.Types.Task.{created, TaskFileOwners}
use incubator_mesatee.Types.TaskState.{
  TaskState, has_participant, has_creator, all_data_assigned, everyone_approved,
}
use incubator_mesatee.Types.Transition.{StateTag, approve, Task, create_new, approve_by}
use incubator_mesatee.Types.WellFormed.{IsWellFormed, restore_approve_lem, restore_stage_lem}

-- the task with one more approval
abbrev pub with_approval : TaskState → UserId → TaskState
with_approval ts u = record ts { approved_users = Owners.insert ts.approved_users u }

approve_by_ok :
    (t t' : Task approve) (u : UserId)
    → approve_by t u ≡ ok t'
    → (has_participant t.state u ≡ true) × (t' ≡ record { state = with_approval t.state u })
unfolding approve_by has_participant
approve_by_ok t t' u h = ground arith

create_new_ok :
    (fresh : Uuid) (u : UserId) (x : Executor) (a : FunctionArguments) (i o : TaskFileOwners)
    (f : Function) (t : Task StateTag.create)
    → create_new fresh u x a i o f ≡ ok t
    → ((save_create t).task_id ≡ fresh)
      × ((save_create t).creator ≡ u)
      × ((save_create t).status ≡ created)
      × ((save_create t).approved_users ≡ Owners.empty)
unfolding create_new save_create
create_new_ok fresh u x a i o f t h = ground arith

module _ (k : Crates) (c : StorageClient) (s : c.Store) where
  -- If a task is approved, the user who asks takes part in the task, all its data has been
  -- assigned, and the store then holds the task with that user's approval: `Approved` if
  -- everyone has approved, `DataAssigned` otherwise.
  pub approve_task-ok :
      (r : Request ApproveTaskRequest)
      → IsSound k c s
      → (approve_task k c r s).0 ≡ ok tt
      → (u : UserId) × (ts : TaskState) × (HashMap.get r.metadata (utf8 "id") ≡ some u)
        × (Holds k c s ts)
        × (task_key k c ts ≡ to_bytes k.show_uuid (r.message).task_id)
        × (has_participant ts u ≡ true)
        × (all_data_assigned ts ≡ true)
        × Holds k c (approve_task k c r s).1 (save_approve (record { state = with_approval ts u }))
  unfolding approve_task
  approve_task-ok r sound h =
      let (u, id, (h1, e1)) = ok_user k c s _ _ _ h in
      let (ts, (held, w, key), (h2, e2)) = ok_read_task k c s _ _ _ _ sound h1 in
      let (t, q, (h3, e3)) = ok_or_else k c s _ _ _ _ h2 in
      let (t', q', (h4, e4)) = ok_or_else k c s _ _ _ _ h3 in
      let (same, low, ready) = restore_approve_lem ts t w q in
      let (in_task, is) = approve_by_ok t t' u q' in
      let x =
        ends_Stored k c (tasks k) (save_approve t') storage_failure s _ _ h4 (e4 ∙ e3 ∙ e2 ∙ e1) in
      let saved : save_approve t' ≡ save_approve (record { state = with_approval ts u }) =
        ap save_approve is
        ∙ ap (λ (a : TaskState). save_approve (record { state = with_approval a u })) same in
      (
        u,
        ts,
        id,
        held,
        key,
        ap (λ (a : TaskState). has_participant a u) (sym same) ∙ in_task,
        ready,
        subst (λ a. Holds k c (approve_task k c r s).1 a) saved
            (record { bytes = x.bytes; stored = x.stored; decoded = x.decoded }),
      )

  -- If the state of a task is given out, it goes to a user who takes part in the task; every
  -- field of it is what is stored, the assigned files as their IDs, and nothing is written.
  pub get_task-ok :
      (r : Request GetTaskRequest) (a : GetTaskResponse)
      → IsSound k c s
      → (get_task k c r s).0 ≡ ok a
      → (u : UserId) × (ts : TaskState) × (HashMap.get r.metadata (utf8 "id") ≡ some u)
        × (Holds k c s ts)
        × (task_key k c ts ≡ to_bytes k.show_uuid (r.message).task_id)
        × (has_participant ts u ≡ true)
        × (IsAnswer ts a)
        × ((get_task k c r s).1 ≡ s)
  unfolding get_task pure
  get_task-ok r a sound h =
      let (u, id, (h1, e1)) = ok_user k c s _ _ _ h in
      let (ts, (held, w, key), (h2, e2)) = ok_read_task k c s _ _ _ _ sound h1 in
      let (x, in_task, (h3, e3)) = ok_require k c s _ _ _ _ h2 in
      (u, ts, id, held, key, in_task, answer-IsAnswer k ts a (cc h3), sym (e3 ∙ e2 ∙ e1))

  -- If a task is invoked, the user who asks created it, all its data has been assigned, everyone
  -- who takes part has approved it (or its creator is alone), and the function that it asks for
  -- is stored.
  pub invoke_task-ok :
      (r : Request InvokeTaskRequest)
      → IsSound k c s
      → (invoke_task k c r s).0 ≡ ok tt
      → (u : UserId) × (ts : TaskState) × (HashMap.get r.metadata (utf8 "id") ≡ some u)
        × (Holds k c s ts)
        × (task_key k c ts ≡ to_bytes k.show_uuid (r.message).task_id)
        × (has_creator ts u ≡ true)
        × (all_data_assigned ts ≡ true)
        × (everyone_approved ts ≡ true)
        × (f : Function) × Stored k c s (functions k) (to_bytes k.show_uuid ts.function_id) f
  unfolding invoke_task
  invoke_task-ok r sound h =
      let (u, id, (h1, e1)) = ok_user k c s _ _ _ h in
      let (ts, (held, w, key), (h2, e2)) = ok_read_task k c s _ _ _ _ sound h1 in
      let (x, own, (h3, e3)) = ok_require k c s _ _ _ _ h2 in
      let (f, fs, (h4, e4)) = ok_read k c s _ _ _ _ _ h3 in
      let (t, q, (h5, e5)) = ok_or_else k c s _ _ _ _ h4 in
      let (same, low, ready, all) = restore_stage_lem ts t w q in
      (u, ts, id, held, key, own, ready, all, f, fs)

  -- If a task is created, the function that it asks for was stored, and the store then holds a
  -- well-formed task in the status `Created`, under the answered name, with the UUID that was
  -- drawn, whose creator is the user who asks and which nobody has approved.
  pub create_task-ok :
      (fresh : Uuid) (r : Request CreateTaskRequest) (a : ExternalId)
      → (create_task k c fresh r s).0 ≡ ok a
      → (u : UserId) × (f : Function) × (ts : TaskState) × (HashMap.get r.metadata (utf8 "id")
          ≡ some u)
        × (Stored k c s (functions k) (to_bytes k.show_uuid (r.message).function_id) f)
        × (ts.task_id ≡ fresh)
        × (ts.creator ≡ u)
        × (ts.status ≡ created)
        × (ts.approved_users ≡ Owners.empty)
        × (IsWellFormed ts)
        × (external_id (tasks k) ts ≡ a)
        × Holds k c (create_task k c fresh r s).1 ts
  unfolding create_task
  create_task-ok fresh r a h =
      let (u, id, (h1, e1)) = ok_user k c s _ _ _ h in
      let (f, fs, (h2, e2)) = ok_read k c s _ _ _ _ _ h1 in
      let (t, made, (h3, e3)) = ok_or_else k c s _ _ _ _ h2 in
      let (m1, m2, m3, m4) = create_new_ok fresh u _ _ _ _ f t made in
      let (q, y) = ends_pure-Stored k c (tasks k) (save_create t) _ s _ a _ h3 (e3 ∙ e2 ∙ e1) in
      (
        u,
        f,
        save_create t,
        id,
        fs,
        m1,
        m2,
        m3,
        m4,
        create-IsWellFormed _ _ _ _ _ _ f t made,
        q,
        record { bytes = y.bytes; stored = y.stored; decoded = y.decoded },
      )
