-- ===== src/System/Assigned.antt =====
-- What `assign_data` (services/management/enclave/src/service.rs) means when it succeeds.
use incubator_mesatee.System.Added.{
  Reads-also, Added, Added-same, assign_inputs-Added, assign_outputs-Added,
}
use incubator_mesatee.Base.{utf8, ◌≡◌, sym, ap, ◌∙◌, true, if◌then◌else◌, some, ok, arith}
use incubator_mesatee.Base.HashMap
use incubator_mesatee.Base.HashMap.{HashMap, get-insert}
use incubator_mesatee.Base.Reads.{ok_bind}
use incubator_mesatee.Management.Db.{Crates, inputs, outputs, tasks}
use incubator_mesatee.Management.Tasks.{assign_data}
use incubator_mesatee.Management.Requests.{Request, AssignDataRequest, storage_failure}
use incubator_mesatee.Storage.Client.{StorageClient}
use incubator_mesatee.System.Answers.{ok_user, ok_read_task, ok_require, ok_or_else, ends_Stored}
use incubator_mesatee.System.ManagementTasks.{Reads-assign_inputs, Reads-assign_outputs}
use incubator_mesatee.System.Step.{IsSound, Holds, task_key}
use incubator_mesatee.Types.Moves.{Moves, restore_assign-Assigning, save_assign-Moves}
use incubator_mesatee.Types.Owners.{UserId}
use incubator_mesatee.Types.Restore.{save_moving, save_assign}
use incubator_mesatee.Types.Storage.{to_bytes}
use incubator_mesatee.Types.Task.{created, data_assigned}
use incubator_mesatee.Types.TaskState.{TaskState, has_participant, all_data_assigned}
use incubator_mesatee.Types.Transition.{StateTag, Task, status_of}
use incubator_mesatee.Types.WellFormed.{restore_assign_lem}

saved_assign :
    (t : Task StateTag.assign)
    → ((save_assign t).assigned_inputs ≡ t.state.assigned_inputs)
      × ((save_assign t).assigned_outputs ≡ t.state.assigned_outputs)
      × ((save_assign t).status
          ≡ (if all_data_assigned (save_assign t) then data_assigned else created))
unfolding save_assign save_moving status_of all_data_assigned
saved_assign t = ground arith

module _ (k : Crates) (c : StorageClient) (s : c.Store) where
  -- If files are assigned to a task, the user who asks takes part in the task, which still had
  -- the status `Created`. Every file that is named in the request is one that is stored and that
  -- the user is an owner of, and stands in the task under its name, where there was none; the
  -- other files of the task are as they were. The store then holds this later state of the same
  -- task, as `DataAssigned` if all data is assigned, and as `Created` otherwise.
  pub assign_data-ok :
      (r : Request AssignDataRequest)
      → IsSound k c s
      → (assign_data k c r s).0 ≡ ok tt
      → (u : UserId) × (ts ts' : TaskState) × (HashMap.get r.metadata (utf8 "id") ≡ some u)
        × (Holds k c s ts)
        × (task_key k c ts ≡ to_bytes k.show_uuid (r.message).task_id)
        × (has_participant ts u ≡ true)
        × (ts.status ≡ created)
        × (Added k c s u
            (inputs k)
            (λ f. f.owner)
            (r.message).inputs
            ts.assigned_inputs
            ts'.assigned_inputs)
        × (Added k c s u
            (outputs k)
            (λ f. f.owner)
            (r.message).outputs
            ts.assigned_outputs
            ts'.assigned_outputs)
        × (ts'.status ≡ (if all_data_assigned ts' then data_assigned else created))
        × (Moves ts ts')
        × Holds k c (assign_data k c r s).1 ts'
  unfolding assign_data
  assign_data-ok r sound h =
      let (u, id, (h1, e1)) = ok_user k c s _ _ _ h in
      let (ts, (held, w, key), (h2, e2)) = ok_read_task k c s _ _ _ _ sound h1 in
      let (x, in_task, (h3, e3)) = ok_require k c s _ _ _ _ h2 in
      let (t, q, (h4, e4)) = ok_or_else k c s _ _ _ _ h3 in
      let (same, new) = restore_assign_lem ts t q in
      let a = restore_assign-Assigning ts t w q in
      let (t1, (a1, (ins, outs_kept)), (h5, e5)) =
        ok_bind _ _ _
          (Reads-also (Reads-assign_inputs k c s ts u _ t a) (assign_inputs-Added k c s u _ t))
          h4 in
      let (t2, (a2, (outs, ins_kept)), (h6, e6)) =
        ok_bind _ _ _
          (Reads-also (Reads-assign_outputs k c s ts u _ t1 a1) (assign_outputs-Added k c s u _ t1))
          h5 in
      let y =
        ends_Stored k c (tasks k) (save_assign t2) storage_failure s _ _ h6
          (e6 ∙ e5 ∙ e4 ∙ e3 ∙ e2 ∙ e1) in
      let (i2, o2, status) = saved_assign t2 in
      (
        u,
        ts,
        save_assign t2,
        id,
        held,
        key,
        in_task,
        new,
        Added-same k c s u (inputs k) (λ f. f.owner) _
            (ap (λ (x : TaskState). x.assigned_inputs) same) (sym (i2 ∙ ins_kept)) ins,
        Added-same k c s u (outputs k) (λ f. f.owner) _
            (outs_kept ∙ ap (λ (x : TaskState). x.assigned_outputs) same) (sym o2) outs,
        status,
        save_assign-Moves ts t2 new a2,
        record { bytes = y.bytes; stored = y.stored; decoded = y.decoded },
      )
