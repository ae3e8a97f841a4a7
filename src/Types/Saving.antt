-- ===== src/Types/Saving.antt =====
-- Working on a task and saving it keep it well formed (types/src/task_state.rs).
use incubator_mesatee.Base.{
  Text, ◌≡◌, inl, inr, Bool, true, Bool-cases, ok, ◌≤◌, ◌<◌, arith, ==_iff,
}
use incubator_mesatee.Base.HashMap.{get-insert}
use incubator_mesatee.Types.File.{InputFile, OutputFile}
use incubator_mesatee.Types.Owners
use incubator_mesatee.Types.Owners.{UserId, OwnerList}
use incubator_mesatee.Types.Task.{
  TaskStatus, staged, running, finished, not_ready, assign as assign_file,
}
use incubator_mesatee.Types.TaskState.{TaskState, everyone_approved, all_data_assigned}
use incubator_mesatee.Types.Transition.{
  StateTag, approve, stage, Task, assign_input, assign_output, approve_by, status_of,
}
use incubator_mesatee.Types.Restore.{
  save_moving, save_assign, save_approve, save_stage, save_run, save_finish,
}
use incubator_mesatee.Types.WellFormed.{IsConsistent, IsWellFormed, rank, IsConsistent-status}

-- A file that passes its checks keeps the task consistent, and is the only change.
pub assign_input-IsConsistent :
    (t t' : Task StateTag.assign) (u : UserId) (n : Text) (f : InputFile)
    → IsConsistent t.state
    → assign_input t u n f ≡ ok t'
    → IsConsistent t'.state × (t'.state.result ≡ t.state.result)
unfolding assign_input assign_file
assign_input-IsConsistent t t' u n f c h = (
  record {
    creator_in = ground (arith, c.creator_in);
    inputs_in = λ m o v. ground (arith, c.inputs_in m o v);
    outputs_in = λ m o v. ground (arith, c.outputs_in m o v);
    approved_in = λ v. ground (arith, c.approved_in v);
    inputs_match = λ m g.
        ground (arith, c.inputs_match m g, get-insert t.state.assigned_inputs n f m, ==_iff n m);
    outputs_match = λ m g. ground (arith, c.outputs_match m g);
  },
  ground arith,
)

pub assign_output-IsConsistent :
    (t t' : Task StateTag.assign) (u : UserId) (n : Text) (f : OutputFile)
    → IsConsistent t.state
    → assign_output t u n f ≡ ok t'
    → IsConsistent t'.state × (t'.state.result ≡ t.state.result)
unfolding assign_output assign_file
assign_output-IsConsistent t t' u n f c h = (
  record {
    creator_in = ground (arith, c.creator_in);
    inputs_in = λ m o v. ground (arith, c.inputs_in m o v);
    outputs_in = λ m o v. ground (arith, c.outputs_in m o v);
    approved_in = λ v. ground (arith, c.approved_in v);
    inputs_match = λ m g. ground (arith, c.inputs_match m g);
    outputs_match = λ m g.
        ground (arith, c.outputs_match m g, get-insert t.state.assigned_outputs n f m, ==_iff n m);
  },
  ground arith,
)

-- what a status asks of the rest of the task
abbrev Fits : TaskState → TaskStatus → Type 0
Fits ts x =
    (1 ≤ rank x → all_data_assigned ts ≡ true)
    × (2 ≤ rank x → everyone_approved ts ≡ true)
    × (rank x < 5 → ts.result ≡ not_ready)

status-IsWellFormed :
    (ts : TaskState) (x : TaskStatus)
    → IsConsistent ts
    → Fits ts x
    → IsWellFormed (record ts { status = x })
unfolding all_data_assigned everyone_approved
status-IsWellFormed ts x c f = record {
  consistent = IsConsistent-status ts x c;
  data_ready = f.0;
  approvals = f.1;
  pending = f.2;
}

save_moving-IsWellFormed :
    (ready : TaskState → Bool) (cur next : StateTag) (ts : TaskState)
    → IsConsistent ts
    → (ready ts ≡ true → Fits ts (status_of next))
    → Fits ts (status_of cur)
    → IsWellFormed (save_moving ready cur next ts)
unfolding save_moving
save_moving-IsWellFormed ready cur next ts c on off = elim (Bool-cases (ready ts)) [
  | inl e ↦ rw e (status-IsWellFormed ts (status_of next) c (on e))
  | inr e ↦ rw e (status-IsWellFormed ts (status_of cur) c off)
]

module _ (ts : TaskState) (c : IsConsistent ts) where
  pub save_assign-IsWellFormed :
      ts.result ≡ not_ready → IsWellFormed (save_assign (record { state = ts }))
  unfolding save_assign
  save_assign-IsWellFormed r =
      save_moving-IsWellFormed all_data_assigned StateTag.assign approve ts c
        (λ e. (λ _. e, λ h. absurd (omega arith), λ _. r))
        (λ h. absurd (omega arith), λ h. absurd (omega arith), λ _. r)

  module _ (ready : all_data_assigned ts ≡ true) where
    pub save_approve-IsWellFormed :
        ts.result ≡ not_ready → IsWellFormed (save_approve (record { state = ts }))
    unfolding save_approve
    save_approve-IsWellFormed r =
        save_moving-IsWellFormed everyone_approved approve stage ts c
          (λ e. (λ _. ready, λ _. e, λ _. r)) (λ _. ready, λ h. absurd (omega arith), λ _. r)

    module _ (all : everyone_approved ts ≡ true) where
      pub save_stage-IsWellFormed :
          ts.result ≡ not_ready → IsWellFormed (save_stage (record { state = ts }))
      unfolding save_stage
      save_stage-IsWellFormed r = status-IsWellFormed ts staged c (λ _. ready, λ _. all, λ _. r)

      pub save_run-IsWellFormed :
          ts.result ≡ not_ready → IsWellFormed (save_run (record { state = ts }))
      unfolding save_run
      save_run-IsWellFormed r = status-IsWellFormed ts running c (λ _. ready, λ _. all, λ _. r)

      pub save_finish-IsWellFormed : IsWellFormed (save_finish (record { state = ts }))
      unfolding save_finish
      save_finish-IsWellFormed =
          status-IsWellFormed ts finished c (λ _. ready, λ _. all, λ h. absurd (omega arith))

-- An approval by a participant changes the approved users alone, and by that user alone.
pub approve_by-IsConsistent :
    (t t' : Task approve) (u : UserId)
    → IsConsistent t.state
    → approve_by t u ≡ ok t'
    → IsConsistent t'.state
      × (t'.state.result ≡ t.state.result)
      × (all_data_assigned t'.state ≡ all_data_assigned t.state)
unfolding approve_by all_data_assigned
approve_by-IsConsistent t t' u c h = (
  record {
    creator_in = ground (arith, c.creator_in);
    inputs_in = λ m o v. ground (arith, c.inputs_in m o v);
    outputs_in = λ m o v. ground (arith, c.outputs_in m o v);
    approved_in = λ v.
        ground
          (arith, c.approved_in v, Owners.contains-insert t.state.approved_users u v, ==_iff u v);
    inputs_match = λ m g. ground (arith, c.inputs_match m g);
    outputs_match = λ m g. ground (arith, c.outputs_match m g);
  },
  ground arith,
  ground arith,
)
