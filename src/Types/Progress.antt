-- ===== src/Types/Progress.antt =====
-- How approving, staging and running a task change it (types/src/task_state.rs).
use incubator_mesatee.Base.{◌≡◌, sym, subst, ◌∙◌, ap, true, ok, ◌≤◌, arith}
use incubator_mesatee.Types.Owners
use incubator_mesatee.Types.Owners.{UserId}
use incubator_mesatee.Types.Restore.{
  restore_approve, restore_stage, restore_run, save_approve, save_stage, save_run,
}
use incubator_mesatee.Types.TaskState.{TaskState, all_data_assigned, everyone_approved}
use incubator_mesatee.Types.Transition.{approve, stage, run, finish, Task, approve_by}
use incubator_mesatee.Types.WellFormed.{
  IsConsistent, IsWellFormed, rank, restore_approve_lem, restore_stage_lem, restore_run_lem,
}
use incubator_mesatee.Types.Saving.{
  approve_by-IsConsistent, save_approve-IsWellFormed, save_stage-IsWellFormed,
  save_run-IsWellFormed,
}
use incubator_mesatee.Types.Moves.{SameTask, Moves, SameTask-trans, same_saved}

approve_by_same :
    (t t' : Task approve) (u : UserId)
    → approve_by t u ≡ ok t'
    → SameTask t.state t'.state × (t'.state.assigned_inputs ≡ t.state.assigned_inputs)
unfolding approve_by
approve_by_same t t' u h = ground arith

approve_by_kept :
    (t t' : Task approve) (u v : UserId)
    → approve_by t u ≡ ok t'
    → Owners.contains t.state.approved_users v ≡ true
    → Owners.contains t'.state.approved_users v ≡ true
unfolding approve_by
approve_by_kept t t' u v h m = ground (arith, Owners.contains-insert t.state.approved_users u v)

rank-save_approve : (t : Task approve) → 1 ≤ rank (save_approve t).status
unfolding save_approve
rank-save_approve t = ground arith

module _ (ts : TaskState) (w : IsWellFormed ts) where
  -- Saving after an approval.
  pub save_approve-Moves :
      (t t' : Task approve) (u : UserId)
      → restore_approve ts ≡ ok t
      → approve_by t u ≡ ok t'
      → Moves ts (save_approve t')
  unfolding save_approve
  save_approve-Moves t t' u h h2 =
      let (e, low, ready) = restore_approve_lem ts t w h in
      let (c, r, d) = approve_by-IsConsistent t t' u (subst IsConsistent (sym e) w.consistent) h2 in
      let (q, j) = approve_by_same t t' u h2 in
      let (q2, p, i) = same_saved everyone_approved approve stage t'.state in
      record {
        same = SameTask-trans (subst (λ (x : TaskState). SameTask x t'.state) e q) q2;
        approvals_kept = λ v m. ground (arith, p, e, approve_by_kept t t' u v);
        inputs_kept = λ _. i ∙ j ∙ ap (λ (x : TaskState). x.assigned_inputs) e;
        forward = omega (arith, rank-save_approve t');
        sound =
            save_approve-IsWellFormed t'.state c (d ∙ ap all_data_assigned e ∙ ready)
              (r ∙ ap (λ (x : TaskState). x.result) e ∙ w.pending (omega arith));
      }

  -- Saving when the task has been staged.
  pub save_stage-Moves : (t : Task stage) → restore_stage ts ≡ ok t → Moves ts (save_stage t)
  unfolding save_stage
  save_stage-Moves t h =
      let (e, low, ready, all) = restore_stage_lem ts t w h in
      let (q, p, i) = same_saved (λ _. true) stage run t.state in
      record {
        same = subst (λ (x : TaskState). SameTask x (save_stage t)) e q;
        approvals_kept = λ v m. ground (arith, p, e);
        inputs_kept = λ _. i ∙ ap (λ (x : TaskState). x.assigned_inputs) e;
        forward = omega arith;
        sound =
            save_stage-IsWellFormed t.state (subst IsConsistent (sym e) w.consistent)
              (ap all_data_assigned e ∙ ready) (ap everyone_approved e ∙ all)
              (ap (λ (x : TaskState). x.result) e ∙ w.pending (omega arith));
      }

  -- Saving when an executor has taken the task.
  pub save_run-Moves : (t : Task run) → restore_run ts ≡ ok t → Moves ts (save_run t)
  unfolding save_run
  save_run-Moves t h =
      let (e, at) = restore_run_lem ts t h in
      let low : rank ts.status ≡ 3 = ground arith in
      let (q, p, i) = same_saved (λ _. true) run finish t.state in
      record {
        same = subst (λ (x : TaskState). SameTask x (save_run t)) e q;
        approvals_kept = λ v m. ground (arith, p, e);
        inputs_kept = λ _. i ∙ ap (λ (x : TaskState). x.assigned_inputs) e;
        forward = omega arith;
        sound =
            save_run-IsWellFormed t.state (subst IsConsistent (sym e) w.consistent)
              (ap all_data_assigned e ∙ w.data_ready (omega arith))
              (ap everyone_approved e ∙ w.approvals (omega arith))
              (ap (λ (x : TaskState). x.result) e ∙ w.pending (omega arith));
      }
