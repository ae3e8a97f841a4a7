-- ===== src/Types/Restore.antt =====
-- The restoring of a task from a stored state (`TryFrom<TaskState>` in types/src/task_state.rs)
-- and the way back (the macro `impl_transit_and_into_task_state!`), which moves the task on if it
-- is ready.
use incubator_mesatee.Base.{Text, utf8, Bool, true, Result, ok, err, if◌then◌else◌}
use incubator_mesatee.Types.Task.{created, data_assigned, approved, staged, running}
use incubator_mesatee.Types.TaskState.{TaskState, everyone_approved, all_data_assigned}
use incubator_mesatee.Types.Transition.{
  StateTag, create, approve, stage, run, finish, done, Task, status_of,
}

-- `TryTransitionTo<Task<Approve>> for Task<Assign>`
unfoldable pub assign_to_approve : Task StateTag.assign → Result Text (Task approve)
assign_to_approve t =
    if all_data_assigned t.state
    then ok (record { state = t.state })
    else err (utf8 "Not ready: Assign -> Approve")

-- `TryTransitionTo<Task<Stage>> for Task<Approve>`
unfoldable pub approve_to_stage : Task approve → Result Text (Task stage)
approve_to_stage t =
    if everyone_approved t.state
    then ok (record { state = t.state })
    else err (utf8 "Not ready: Apporve -> Stage")

-- `TryFrom<TaskState> for Task<Assign>`
unfoldable pub restore_assign : TaskState → Result Text (Task StateTag.assign)
restore_assign ts = elim ts.status [
  | created ↦ ok (record { state = ts })
  | _ ↦ err (utf8 "Cannot restore to Assign from saved state ")
]

-- `TryFrom<TaskState> for Task<Approve>`
unfoldable pub restore_approve : TaskState → Result Text (Task approve)
restore_approve ts = elim ts.status [
  | created ↦ elim (restore_assign ts) [ err e ↦ err e | ok t ↦ assign_to_approve t ]
  | data_assigned ↦ ok (record { state = ts })
  | _ ↦ err (utf8 "Cannot restore to Approve from saved state")
]

-- the common case of the first two statuses
abbrev restore_unstaged : TaskState → Result Text (Task stage)
restore_unstaged ts = elim (restore_approve ts) [ err e ↦ err e | ok t ↦ approve_to_stage t ]

-- `TryFrom<TaskState> for Task<Stage>`
unfoldable pub restore_stage : TaskState → Result Text (Task stage)
restore_stage ts = elim ts.status [
  | created ↦ restore_unstaged ts
  | data_assigned ↦ restore_unstaged ts
  | approved ↦ ok (record { state = ts })
  | _ ↦ err (utf8 "Cannot restore to Stage from saved state")
]

-- `TryFrom<TaskState> for Task<Run>`
unfoldable pub restore_run : TaskState → Result Text (Task run)
restore_run ts = elim ts.status [
  | staged ↦ ok (record { state = ts })
  | _ ↦ err (utf8 "Cannot restore to Run from saved state")
]

-- `TryFrom<TaskState> for Task<Finish>`
unfoldable pub restore_finish : TaskState → Result Text (Task finish)
restore_finish ts = elim ts.status [
  | running ↦ ok (record { state = ts })
  | _ ↦ err (utf8 "Cannot restore to Finish from saved state")
]

-- `From<Task<Create>> for TaskState`
unfoldable pub save_create : Task create → TaskState
save_create t = record (t.state) { status = created }

-- The macro `impl_transit_and_into_task_state!(cur => next)`. `ready` is
-- `ready_for_transition`, the very test of `try_transition_to`, whose result is unwrapped.
unfoldable pub save_moving : (TaskState → Bool) → StateTag → StateTag → TaskState → TaskState
save_moving ready cur next ts =
    if ready ts then record ts { status = status_of next } else record ts { status = status_of cur }

-- `From<Task<S>> for TaskState` at each use of the macro
unfoldable pub save_assign : Task StateTag.assign → TaskState
unfolding save_moving status_of
save_assign t = save_moving all_data_assigned StateTag.assign approve t.state

unfoldable pub save_approve : Task approve → TaskState
unfolding save_moving status_of
save_approve t = save_moving everyone_approved approve stage t.state

unfoldable pub save_stage : Task stage → TaskState
unfolding save_moving status_of
save_stage t = save_moving (λ _. true) stage run t.state

unfoldable pub save_run : Task run → TaskState
unfolding save_moving status_of
save_run t = save_moving (λ _. true) run finish t.state

unfoldable pub save_finish : Task finish → TaskState
unfolding save_moving status_of
save_finish t = save_moving (λ _. true) finish done t.state
