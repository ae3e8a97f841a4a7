-- ===== src/System/ManagementTasks.antt =====
-- The requests on tasks (services/management/enclave/src/service.rs) change the stored tasks
-- by steps only.
use incubator_mesatee.Base.{
  Text, ◌≡◌, [], ◌∷◌, pure, ok, err, sym, subst, ◌>>=◌, Action, Result, arith,
}
use incubator_mesatee.Base.HashMap.{HashMap}
use incubator_mesatee.Base.Reads.{
  Reads, Reads-pure, Reads-lift, Reads-map_err, Reads-bind, ends_bind,
}
use incubator_mesatee.Management.Db.{
  Crates, tasks, staged, inputs, outputs, write_to_db, enqueue_to_db, or_else,
}
use incubator_mesatee.Management.Requests.{
  Request, CreateTaskRequest, GetTaskRequest, AssignDataRequest, ApproveTaskRequest,
  InvokeTaskRequest, data_error, permission_denied,
}
use incubator_mesatee.Management.Tasks.{
  create_task, get_task, assign_inputs, assign_outputs, assign_data, approve_task, invoke_task,
}
use incubator_mesatee.Storage.Client.{StorageClient}
use incubator_mesatee.System.Access.{
  write_moved, write_born, write_last, Holds-enqueue, Steps-bind, ends_user, ends_read,
  ends_read_task, ends_require, ends_or_else, ends_write, Reads-read_from_db, Reads-or_else,
}
use incubator_mesatee.System.Step.{IsSound, Holds, Steps, here, next, enqueued}
use incubator_mesatee.Types.Function.{Function, FunctionArguments}
use incubator_mesatee.Types.Worker.{Executor}
use incubator_mesatee.Types.Error.{ServiceError}
use incubator_mesatee.Types.Moves.{
  Moves, Assigning, assign_input-Assigning, assign_output-Assigning, restore_assign-Assigning,
  save_assign-Moves,
}
use incubator_mesatee.Types.Progress.{save_approve-Moves, save_stage-Moves}
use incubator_mesatee.Types.Owners.{UserId}
use incubator_mesatee.Types.Participants.{create-IsWellFormed}
use incubator_mesatee.Types.Restore.{save_create}
use incubator_mesatee.Types.Staged.{StagedTask, queue_key}
use incubator_mesatee.Types.Storage.{Uuid, ExternalId}
use incubator_mesatee.Types.Task.{created, TaskFileOwners}
use incubator_mesatee.Types.TaskState.{TaskState}
use incubator_mesatee.Types.Transition.{StateTag, Task, create_new, stage_for_running}
use incubator_mesatee.Types.WellFormed.{restore_assign_lem}

save_create-status : (t : Task StateTag.create) → (save_create t).status ≡ created
unfolding save_create
save_create-status t = ground arith

-- a new task has the UUID that was drawn
save_create-id :
    (fresh : Uuid) (u : UserId) (x : Executor) (a : FunctionArguments) (i o : TaskFileOwners)
    (f : Function) (t : Task StateTag.create)
    → create_new fresh u x a i o f ≡ ok t
    → (save_create t).task_id ≡ fresh
unfolding save_create create_new
save_create-id fresh u x a i o f t h = ground arith

module _ (k : Crates) (c : StorageClient) (s : c.Store) where
  module _ (ts : TaskState) (u : UserId) where
    pub Reads-assign_inputs :
        (m : HashMap ExternalId) (t : Task StateTag.assign)
        → Assigning ts t
        → Reads s (assign_inputs k c u m t) (Assigning ts)
    unfolding assign_inputs
    Reads-assign_inputs [] t a = Reads-pure t a
    Reads-assign_inputs ((n, e) ∷ rest) t a =
        Reads-bind _ _ (Reads-map_err _ _ (Reads-read_from_db k c s (inputs k) e)) λ f _.
          Reads-bind _ _ (Reads-or_else permission_denied _)
            λ t' q. Reads-assign_inputs rest t' (assign_input-Assigning ts t t' u n f a q)

    pub Reads-assign_outputs :
        (m : HashMap ExternalId) (t : Task StateTag.assign)
        → Assigning ts t
        → Reads s (assign_outputs k c u m t) (Assigning ts)
    unfolding assign_outputs
    Reads-assign_outputs [] t a = Reads-pure t a
    Reads-assign_outputs ((n, e) ∷ rest) t a =
        Reads-bind _ _ (Reads-map_err _ _ (Reads-read_from_db k c s (outputs k) e)) λ f _.
          Reads-bind _ _ (Reads-or_else permission_denied _)
            λ t' q. Reads-assign_outputs rest t' (assign_output-Assigning ts t t' u n f a q)

module _ (k : Crates) (c : StorageClient) {P : Uuid → Type 0} (s : c.Store) where
  pub create_task-Steps :
      (fresh : Uuid) (r : Request CreateTaskRequest)
      → P fresh
      → Steps k c P s (create_task k c fresh r s).1
  unfolding create_task
  create_task-Steps fresh r drawn = ends_user k c s _ _ λ u _. ends_read k c s _ _ _ _ λ f.
      ends_or_else k c s _ _ _ λ task made. ends_write k c s _ _ _ _ (
        write_born k c s (save_create task) (save_create-status task)
          (create-IsWellFormed _ _ _ _ _ _ _ task made)
          (subst P (sym (save_create-id _ _ _ _ _ _ _ task made)) drawn))

  module _ (h : IsSound k c s) where
    pub get_task-Steps : (r : Request GetTaskRequest) → Steps k c P s (get_task k c r s).1
    unfolding get_task pure
    get_task-Steps r =
        ends_user k c s _ _ λ u _. ends_read k c s _ _ _ _ λ ts. ends_require k c s _ _ _ λ _. here

    -- the last write of a request
    ends_moved :
        (ts ts' : TaskState)
        → Holds k c s ts
        → Moves ts ts'
        → Steps k c P s (write_to_db k c (tasks k) ts' s).1
    ends_moved ts ts' held m = write_moved k c s ts ts' held m

    pub assign_data-Steps : (r : Request AssignDataRequest) → Steps k c P s (assign_data k c r s).1
    unfolding assign_data
    assign_data-Steps r = ends_user k c s _ _ λ u _. ends_read_task k c s _ _ _ h λ ts held w.
        ends_require k c s _ _ _ λ _. ends_or_else k c s _ _ _ λ t q.
          let a = restore_assign-Assigning ts t w q in
          let (_, new) = restore_assign_lem ts t q in
          ends_bind (Steps k c P s) _ _ (Reads-assign_inputs k c s ts u _ t a) here λ t1 a1.
            ends_bind (Steps k c P s) _ _ (Reads-assign_outputs k c s ts u _ t1 a1) here λ t2 a2.
              subst (Steps k c P s) (sym (write_last k c s _ _ s))
                (ends_moved ts _ held (save_assign-Moves ts t2 new a2))

    pub approve_task-Steps :
        (r : Request ApproveTaskRequest) → Steps k c P s (approve_task k c r s).1
    unfolding approve_task
    approve_task-Steps r = ends_user k c s _ _ λ u _. ends_read_task k c s _ _ _ h λ ts held w.
        ends_or_else k c s _ _ _ λ t q. ends_or_else k c s _ _ _ λ t' q'.
          subst (Steps k c P s) (sym (write_last k c s _ _ s))
            (ends_moved ts _ held (save_approve-Moves ts w t t' u q q'))

    enqueue_value :
        (r : Result Text Text) (ts : TaskState)
        → Holds k c s ts
        → Steps k c P s ((or_else data_error r >>= c.enqueue queue_key) s).1
          × Holds k c ((or_else data_error r >>= c.enqueue queue_key) s).1 ts
    unfolding ◌>>=◌ or_else
    enqueue_value (err x) ts held = (here, held)
    enqueue_value (ok v) ts held =
        (next here (enqueued queue_key v), Holds-enqueue k c s queue_key v ts held)

    -- putting a staged task into the queue is a step that leaves the task where it is
    enqueue_staged :
        (b : StagedTask) (ts : TaskState)
        → Holds k c s ts
        → Steps k c P s (enqueue_to_db k c (staged k) queue_key b s).1
          × Holds k c (enqueue_to_db k c (staged k) queue_key b s).1 ts
    unfolding enqueue_to_db
    enqueue_staged b ts held = enqueue_value ((staged k).json.to_vec b) ts held

    enqueue_then_write :
        (b : StagedTask) (ts ts' : TaskState)
        (f : Unit {0} → Action c.Store ServiceError (Unit {0}))
        → ((s2 : c.Store) → (f tt s2).1 ≡ (write_to_db k c (tasks k) ts' s2).1)
        → Holds k c s ts
        → Moves ts ts'
        → Steps k c P s ((enqueue_to_db k c (staged k) queue_key b >>= f) s).1
    enqueue_then_write b ts ts' f last held m =
        let (p, held2) = enqueue_staged b ts held in
        Steps-bind k c s _ f p λ _.
          subst (Steps k c P (enqueue_to_db k c (staged k) queue_key b s).1) (sym (last _))
            (write_moved k c _ ts ts' held2 m)

    pub invoke_task-Steps : (r : Request InvokeTaskRequest) → Steps k c P s (invoke_task k c r s).1
    unfolding invoke_task
    invoke_task-Steps r = ends_user k c s _ _ λ u _. ends_read_task k c s _ _ _ h λ ts held w.
        ends_require k c s _ _ _ λ _. ends_read k c s _ _ _ _ λ fn. ends_or_else k c s _ _ _ λ t q.
          ends_bind (Steps k c P s) _ _ (Reads-map_err _ _ (Reads-lift (stage_for_running t u fn)))
            here
            λ b _.
              enqueue_then_write b ts _ _ (λ s2. write_last k c s _ _ s2) held
                (save_stage-Moves ts w t q)
