-- ===== src/Types/WellFormed.antt =====
-- What holds of every stored task, and that restoring, working on and saving a task keep it.
use incubator_mesatee.Base.{Text, ◌≡◌, true, some, ok, ℕ, ◌≤◌, ◌<◌, arith}
use incubator_mesatee.Base.HashMap.{get}
use incubator_mesatee.Types.File.{InputFile, OutputFile}
use incubator_mesatee.Types.Owners
use incubator_mesatee.Types.Owners.{UserId, OwnerList}
use incubator_mesatee.Types.Task.{
  TaskStatus, created, data_assigned, approved, staged, running, finished, not_ready,
  TaskFileOwners, check,
}
use incubator_mesatee.Types.TaskState.{TaskState, everyone_approved, all_data_assigned}
use incubator_mesatee.Types.Transition.{StateTag, approve, stage, run, finish, Task}
use incubator_mesatee.Types.Restore.{
  assign_to_approve, approve_to_stage, restore_assign, restore_approve, restore_stage, restore_run,
  restore_finish,
}

-- the order in which a task goes through its statuses
abbrev pub rank : TaskStatus → ℕ
rank created = 0
rank data_assigned = 1
rank approved = 2
rank staged = 3
rank running = 4
rank finished = 5

-- every user of an owner list that the task asks for takes part in it
abbrev pub OwnersIn : OwnerList → TaskFileOwners → Type 0
OwnersIn participants m =
    (n : Text) (o : OwnerList) (u : UserId)
    → get m n ≡ some o
    → Owners.contains o u ≡ true
    → Owners.contains participants u ≡ true

pub record IsConsistent (ts : TaskState) : Type 0 where
  pub creator_in : Owners.contains ts.participants ts.creator ≡ true
  pub inputs_in : OwnersIn ts.participants ts.inputs_ownership
  pub outputs_in : OwnersIn ts.participants ts.outputs_ownership
  pub approved_in :
      (u : UserId)
      → Owners.contains ts.approved_users u ≡ true
      → Owners.contains ts.participants u ≡ true
  pub inputs_match :
      (n : Text) (f : InputFile)
      → get ts.assigned_inputs n ≡ some f
      → check ts.inputs_ownership n f.owner ≡ ok tt
  pub outputs_match :
      (n : Text) (f : OutputFile)
      → get ts.assigned_outputs n ≡ some f
      → check ts.outputs_ownership n f.owner ≡ ok tt

pub record IsWellFormed (ts : TaskState) : Type 0 where
  pub consistent : IsConsistent ts
  pub data_ready : 1 ≤ rank ts.status → all_data_assigned ts ≡ true
  pub approvals : 2 ≤ rank ts.status → everyone_approved ts ≡ true
  pub pending : rank ts.status < 5 → ts.result ≡ not_ready

pub IsConsistent-status :
    (ts : TaskState) (x : TaskStatus) → IsConsistent ts → IsConsistent (record ts { status = x })
IsConsistent-status ts x h = record {
  creator_in = h.creator_in;
  inputs_in = h.inputs_in;
  outputs_in = h.outputs_in;
  approved_in = h.approved_in;
  inputs_match = h.inputs_match;
  outputs_match = h.outputs_match;
}

-- Restoring changes nothing of the state, and tells how far the task has come.
pub restore_assign_lem :
    (ts : TaskState) (t : Task StateTag.assign)
    → restore_assign ts ≡ ok t
    → (t.state ≡ ts) × (ts.status ≡ created)
unfolding restore_assign
restore_assign_lem ts t h = ground arith

pub restore_approve_lem :
    (ts : TaskState) (t : Task approve)
    → IsWellFormed ts
    → restore_approve ts ≡ ok t
    → (t.state ≡ ts) × (rank ts.status ≤ 1) × (all_data_assigned ts ≡ true)
unfolding restore_approve restore_assign assign_to_approve
restore_approve_lem ts t w h = ground (arith, w.data_ready)

pub restore_stage_lem :
    (ts : TaskState) (t : Task stage)
    → IsWellFormed ts
    → restore_stage ts ≡ ok t
    → (t.state ≡ ts)
      × (rank ts.status ≤ 2)
      × (all_data_assigned ts ≡ true)
      × (everyone_approved ts ≡ true)
unfolding restore_stage restore_approve restore_assign assign_to_approve approve_to_stage
restore_stage_lem ts t w h = ground (arith, w.data_ready, w.approvals)

pub restore_run_lem :
    (ts : TaskState) (t : Task run) → restore_run ts ≡ ok t → (t.state ≡ ts) × (ts.status ≡ staged)
unfolding restore_run
restore_run_lem ts t h = ground arith

pub restore_finish_lem :
    (ts : TaskState) (t : Task finish)
    → restore_finish ts ≡ ok t
    → (t.state ≡ ts) × (ts.status ≡ running)
unfolding restore_finish
restore_finish_lem ts t h = ground arith
