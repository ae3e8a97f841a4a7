-- ===== src/Types/Tags.antt =====
-- The tags of output files (`update_cmac` of types/src/task.rs and `update_output_cmac` of
-- types/src/task_state.rs): a tag is written once, and nothing else changes.
use incubator_mesatee.Base.{
  Text, ==_iff, text_cases, inl, inr, subst, ◌≡◌, refl, none, some, ok, arith,
}
use incubator_mesatee.Base.HashMap.{get, keys, modify, get-modify, keys-modify}
use incubator_mesatee.Types.Crypto.{FileAuthTag}
use incubator_mesatee.Types.File.{OutputFile, assign_cmac}
use incubator_mesatee.Types.Task.{TaskFiles, update_cmac}
use incubator_mesatee.Types.TaskState.{all_data_assigned, everyone_approved}
use incubator_mesatee.Types.Transition.{finish, Task, update_output_cmac}
use incubator_mesatee.Types.WellFormed.{IsConsistent}

-- When a tag is accepted, the file was assigned to the task and had none; the file that comes
-- back differs from it in the tag alone, and takes its place.
pub update_cmac_lem :
    (files files' : TaskFiles OutputFile) (n : Text) (a : FileAuthTag) (g : OutputFile)
    → update_cmac files n a ≡ ok (g, files')
    → (f : OutputFile) × (get files n ≡ some f)
      × (f.cmac ≡ none)
      × (g ≡ record f { cmac = some a })
      × (files' ≡ modify files n g)
unfolding update_cmac assign_cmac
update_cmac_lem files files' n a g h = ground arith

module _ (t t' : Task finish) (n : Text) (a : FileAuthTag) (g : OutputFile)
    (updated : update_output_cmac t n a ≡ ok (g, t')) where
  update_output_cmac-parts :
      update_cmac t.state.assigned_outputs n a ≡ ok (g, t'.state.assigned_outputs)
  unfolding update_output_cmac
  update_output_cmac-parts = ground arith

  pub update_output_cmac-rest :
      t'.state ≡ record (t.state) { assigned_outputs = t'.state.assigned_outputs }
  unfolding update_output_cmac
  update_output_cmac-rest = ground arith

  get-update_output_cmac :
      (m : Text) (h : OutputFile)
      → get t'.state.assigned_outputs m ≡ some h
      → (f : OutputFile) × (get t.state.assigned_outputs m ≡ some f) × (h.owner ≡ f.owner)
  get-update_output_cmac m h e =
      let (f, found, free, same, placed) =
        update_cmac_lem t.state.assigned_outputs t'.state.assigned_outputs n a g
          update_output_cmac-parts in
      elim (text_cases n m) [
        | inl q ↦ (
          f,
          subst (λ k. get t.state.assigned_outputs k ≡ some f) q found,
          ground (arith, get-modify t.state.assigned_outputs n g m, ==_iff n m),
        )
        | inr q ↦ (h, ground (arith, get-modify t.state.assigned_outputs n g m), refl)
      ]

  keys_kept : keys t'.state.assigned_outputs ≡ keys t.state.assigned_outputs
  keys_kept =
      let (f, found, free, same, placed) =
        update_cmac_lem t.state.assigned_outputs t'.state.assigned_outputs n a g
          update_output_cmac-parts in
      rw placed (keys-modify t.state.assigned_outputs n g)

  -- Writing a tag keeps the task consistent, its files assigned and its approvals.
  pub update_output_cmac-IsConsistent :
      IsConsistent t.state
      → IsConsistent t'.state
        × (t'.state.result ≡ t.state.result)
        × (all_data_assigned t'.state ≡ all_data_assigned t.state)
        × (everyone_approved t'.state ≡ everyone_approved t.state)
  unfolding all_data_assigned everyone_approved
  update_output_cmac-IsConsistent c = (
    record {
      creator_in = ground (arith, update_output_cmac-rest, c.creator_in);
      inputs_in = λ m o v. ground (arith, update_output_cmac-rest, c.inputs_in m o v);
      outputs_in = λ m o v. ground (arith, update_output_cmac-rest, c.outputs_in m o v);
      approved_in = λ v. ground (arith, update_output_cmac-rest, c.approved_in v);
      inputs_match = λ m h. ground (arith, update_output_cmac-rest, c.inputs_match m h);
      outputs_match = λ m h e.
          let (f, found, same) = get-update_output_cmac m h e in
          ground (arith, update_output_cmac-rest, c.outputs_match m f found);
    },
    ground (arith, update_output_cmac-rest),
    ground (arith, update_output_cmac-rest, keys_kept),
    ground (arith, update_output_cmac-rest),
  )
