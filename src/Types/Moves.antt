-- ===== src/Types/Moves.antt =====
-- How the operations of types/src/task_state.rs may change a task on its way.
use incubator_mesatee.Base.{Text, ◌≡◌, refl, sym, subst, ◌∙◌, true, Bool, ok, ◌≤◌, arith}
use incubator_mesatee.Types.File.{InputFile, OutputFile}
use incubator_mesatee.Types.Owners
use incubator_mesatee.Types.Owners.{UserId}
use incubator_mesatee.Types.Restore.{restore_assign, save_moving, save_assign}
use incubator_mesatee.Types.Task.{created, not_ready}
use incubator_mesatee.Types.TaskState.{TaskState, all_data_assigned}
use incubator_mesatee.Types.Transition.{StateTag, approve, Task, assign_input, assign_output}
use incubator_mesatee.Types.WellFormed.{IsConsistent, IsWellFormed, rank, restore_assign_lem}
use incubator_mesatee.Types.Saving.{
  assign_input-IsConsistent, assign_output-IsConsistent, save_assign-IsWellFormed,
}

-- what a task is: fixed when it is created
pub record SameTask (ts ts' : TaskState) : Type 0 where
  pub same_id : ts'.task_id ≡ ts.task_id
  pub same_creator : ts'.creator ≡ ts.creator
  pub same_function : ts'.function_id ≡ ts.function_id
  pub same_participants : ts'.participants ≡ ts.participants
  pub same_inputs_ownership : ts'.inputs_ownership ≡ ts.inputs_ownership
  pub same_outputs_ownership : ts'.outputs_ownership ≡ ts.outputs_ownership

-- How a request may change a task: what it is, the approvals given and, once all data is
-- assigned, the input files all stay; the status never goes back; the result is well formed.
pub record Moves (ts ts' : TaskState) : Type 0 where
  pub same : SameTask ts ts'
  pub approvals_kept :
      (u : UserId)
      → Owners.contains ts.approved_users u ≡ true
      → Owners.contains ts'.approved_users u ≡ true
  pub inputs_kept : 1 ≤ rank ts.status → ts'.assigned_inputs ≡ ts.assigned_inputs
  pub forward : rank ts.status ≤ rank ts'.status
  pub sound : IsWellFormed ts'

-- a task in the course of a request that assigns files to `ts`
pub record Assigning (ts : TaskState) (t : Task StateTag.assign) : Type 0 where
  pub same : SameTask ts t.state
  pub approved_same : t.state.approved_users ≡ ts.approved_users
  pub consistent : IsConsistent t.state
  pub pending : t.state.result ≡ not_ready

pub SameTask-trans : {a b c : TaskState} → SameTask a b → SameTask b c → SameTask a c
SameTask-trans p q = record {
  same_id = q.same_id ∙ p.same_id;
  same_creator = q.same_creator ∙ p.same_creator;
  same_function = q.same_function ∙ p.same_function;
  same_participants = q.same_participants ∙ p.same_participants;
  same_inputs_ownership = q.same_inputs_ownership ∙ p.same_inputs_ownership;
  same_outputs_ownership = q.same_outputs_ownership ∙ p.same_outputs_ownership;
}

same_input :
    (t t' : Task StateTag.assign) (u : UserId) (n : Text) (f : InputFile)
    → assign_input t u n f ≡ ok t'
    → SameTask t.state t'.state × (t'.state.approved_users ≡ t.state.approved_users)
unfolding assign_input
same_input t t' u n f h = ground arith

same_output :
    (t t' : Task StateTag.assign) (u : UserId) (n : Text) (f : OutputFile)
    → assign_output t u n f ≡ ok t'
    → SameTask t.state t'.state × (t'.state.approved_users ≡ t.state.approved_users)
unfolding assign_output
same_output t t' u n f h = ground arith

-- An input that is accepted goes on with the assignment; so does an output.
pub assign_input-Assigning :
    (ts : TaskState) (t t' : Task StateTag.assign) (u : UserId) (n : Text) (f : InputFile)
    → Assigning ts t
    → assign_input t u n f ≡ ok t'
    → Assigning ts t'
assign_input-Assigning ts t t' u n f a h =
    let (c, r) = assign_input-IsConsistent t t' u n f a.consistent h in
    let (q, p) = same_input t t' u n f h in
    record {
      same = SameTask-trans a.same q;
      approved_same = p ∙ a.approved_same;
      consistent = c;
      pending = r ∙ a.pending;
    }

pub assign_output-Assigning :
    (ts : TaskState) (t t' : Task StateTag.assign) (u : UserId) (n : Text) (f : OutputFile)
    → Assigning ts t
    → assign_output t u n f ≡ ok t'
    → Assigning ts t'
assign_output-Assigning ts t t' u n f a h =
    let (c, r) = assign_output-IsConsistent t t' u n f a.consistent h in
    let (q, p) = same_output t t' u n f h in
    record {
      same = SameTask-trans a.same q;
      approved_same = p ∙ a.approved_same;
      consistent = c;
      pending = r ∙ a.pending;
    }

pub restore_assign-Assigning :
    (ts : TaskState) (t : Task StateTag.assign)
    → IsWellFormed ts
    → restore_assign ts ≡ ok t
    → Assigning ts t
restore_assign-Assigning ts t w h =
    let (e, new) = restore_assign_lem ts t h in
    subst (λ (x : TaskState). Assigning ts (record { state = x })) (sym e)
      (record {
        same = record {
          same_id = refl;
          same_creator = refl;
          same_function = refl;
          same_participants = refl;
          same_inputs_ownership = refl;
          same_outputs_ownership = refl;
        };
        approved_same = refl;
        consistent = w.consistent;
        pending = w.pending (ground arith);
      })

pub same_saved :
    (ready : TaskState → Bool) (cur next : StateTag) (ts : TaskState)
    → SameTask ts (save_moving ready cur next ts)
      × ((save_moving ready cur next ts).approved_users ≡ ts.approved_users)
      × ((save_moving ready cur next ts).assigned_inputs ≡ ts.assigned_inputs)
unfolding save_moving
same_saved ready cur next ts = ground arith

-- Saving after an assignment.
pub save_assign-Moves :
    (ts : TaskState) (t : Task StateTag.assign)
    → ts.status ≡ created
    → Assigning ts t
    → Moves ts (save_assign t)
unfolding save_assign
save_assign-Moves ts t new a =
    let (q, p, i) = same_saved all_data_assigned StateTag.assign approve t.state in
    record {
      same = SameTask-trans a.same q;
      approvals_kept = λ u h. ground (arith, a.approved_same, p);
      inputs_kept = λ h. absurd (ground arith);
      forward = ground arith;
      sound = save_assign-IsWellFormed t.state a.consistent a.pending;
    }
