-- ===== src/Types/Finishing.antt =====
-- How a task ends: the tags of its output files and its result (`Task<Finish>` of
-- types/src/task_state.rs).
use incubator_mesatee.Base.{Text, ◌≡◌, refl, sym, subst, ◌∙◌, ap, true, ok, arith}
use incubator_mesatee.Types.Crypto.{FileAuthTag}
use incubator_mesatee.Types.File.{OutputFile}
use incubator_mesatee.Types.Moves.{SameTask, SameTask-trans, Moves}
use incubator_mesatee.Types.Restore.{restore_finish, save_moving, save_finish}
use incubator_mesatee.Types.Tags.{update_output_cmac-rest, update_output_cmac-IsConsistent}
use incubator_mesatee.Types.Task.{running, TaskResult}
use incubator_mesatee.Types.TaskState.{TaskState, all_data_assigned, everyone_approved}
use incubator_mesatee.Types.Transition.{finish, Task, update_output_cmac, update_result}
use incubator_mesatee.Types.WellFormed.{IsConsistent, IsWellFormed, rank, restore_finish_lem}
use incubator_mesatee.Types.Saving.{save_finish-IsWellFormed}

-- a task in the course of the request that ends `ts`
pub record Finishing (ts : TaskState) (t : Task finish) : Type 0 where
  pub same : SameTask ts t.state
  pub approved_same : t.state.approved_users ≡ ts.approved_users
  pub inputs_same : t.state.assigned_inputs ≡ ts.assigned_inputs
  pub consistent : IsConsistent t.state
  pub assigned : all_data_assigned t.state ≡ true
  pub approved_all : everyone_approved t.state ≡ true

SameTask-refl : (ts : TaskState) → SameTask ts ts
SameTask-refl ts = record {
  same_id = refl;
  same_creator = refl;
  same_function = refl;
  same_participants = refl;
  same_inputs_ownership = refl;
  same_outputs_ownership = refl;
}

-- The request starts from a running task.
pub restore_finish-Finishing :
    (ts : TaskState) (t : Task finish) → IsWellFormed ts → restore_finish ts ≡ ok t → Finishing ts t
restore_finish-Finishing ts t w h =
    let (e, at) = restore_finish_lem ts t h in
    let low : rank ts.status ≡ 4 = ground arith in
    subst (λ (x : TaskState). Finishing ts (record { state = x })) (sym e)
      (record {
        same = SameTask-refl ts;
        approved_same = refl;
        inputs_same = refl;
        consistent = w.consistent;
        assigned = w.data_ready (omega arith);
        approved_all = w.approvals (omega arith);
      })

-- Each tag that is accepted keeps it going.
pub update_output_cmac-Finishing :
    (ts : TaskState) (t t' : Task finish) (n : Text) (a : FileAuthTag) (g : OutputFile)
    → Finishing ts t
    → update_output_cmac t n a ≡ ok (g, t')
    → Finishing ts t'
update_output_cmac-Finishing ts t t' n a g f h =
    let e = update_output_cmac-rest t t' n a g h in
    let (c, r, d, p) = update_output_cmac-IsConsistent t t' n a g h f.consistent in
    record {
      same = SameTask-trans f.same (
          rw e (record {
            same_id = refl;
            same_creator = refl;
            same_function = refl;
            same_participants = refl;
            same_inputs_ownership = refl;
            same_outputs_ownership = refl;
          }));
      approved_same = ap (λ (x : TaskState). x.approved_users) e ∙ f.approved_same;
      inputs_same = ap (λ (x : TaskState). x.assigned_inputs) e ∙ f.inputs_same;
      consistent = c;
      assigned = d ∙ f.assigned;
      approved_all = p ∙ f.approved_all;
    }

IsConsistent-result :
    (ts : TaskState) (r : TaskResult) → IsConsistent ts → IsConsistent (record ts { result = r })
IsConsistent-result ts r c = record {
  creator_in = c.creator_in;
  inputs_in = c.inputs_in;
  outputs_in = c.outputs_in;
  approved_in = c.approved_in;
  inputs_match = c.inputs_match;
  outputs_match = c.outputs_match;
}

-- Saving with the result.
pub save_finish-Moves :
    (ts : TaskState) (t : Task finish) (r : TaskResult)
    → ts.status ≡ running
    → Finishing ts t
    → Moves ts (save_finish (update_result t r))
unfolding save_finish save_moving update_result all_data_assigned everyone_approved
save_finish-Moves ts t r at f = record {
  same = SameTask-trans f.same (record {
    same_id = refl;
    same_creator = refl;
    same_function = refl;
    same_participants = refl;
    same_inputs_ownership = refl;
    same_outputs_ownership = refl;
  });
  approvals_kept = λ u h. ground (arith, f.approved_same);
  inputs_kept = λ _. f.inputs_same;
  forward = ground arith;
  sound =
      save_finish-IsWellFormed (record (t.state) { result = r })
        (IsConsistent-result t.state r f.consistent) f.assigned f.approved_all;
}
