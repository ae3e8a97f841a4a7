-- ===== src/Examples/SystemTests.antt =====
-- The requests of the services at concrete inputs.
use incubator_mesatee.Base.{utf8, if◌then◌else◌, ◌≡◌, refl, List, [], ◌∷◌, ◌++◌, true, some}
use incubator_mesatee.Base.HashMap
use incubator_mesatee.Examples.Runs.{
  after, with_data, drafted, approved_by_both, queued, started, ready_task, finished_task,
  get_request, get_response, approval, invocation, answers,
}
use incubator_mesatee.Examples.World.{
  client, crates, registered, invoked, task_id, alice, bob, from_user, assign_a, result_request,
  status_request, creation,
}
use incubator_mesatee.Management.Db.{functions, tasks, inputs, outputs}
use incubator_mesatee.Management.Tasks.{create_task, get_task, assign_data, approve_task}
use incubator_mesatee.Scheduler.{update_task_status, update_task_result}
use incubator_mesatee.System.Added.{Added}
use incubator_mesatee.System.Answers.{Stored}
use incubator_mesatee.System.Assigned.{assign_data-ok}
use incubator_mesatee.System.Reach
use incubator_mesatee.System.Reach.{Call, reached-IsSound, read_from_db-IsWellFormed, run_all-Moves}
use incubator_mesatee.System.SchedulerAnswers.{update_task_status-ok, update_task_result-ok}
use incubator_mesatee.System.SchedulerSteps.{id_bytes}
use incubator_mesatee.System.StateAnswer.{IsAnswer}
use incubator_mesatee.System.Step.{IsSound, Holds, task_key}
use incubator_mesatee.System.TaskAnswers.{
  approve_task-ok, get_task-ok, invoke_task-ok, create_task-ok, with_approval,
}
use incubator_mesatee.Types.Function.{Function}
use incubator_mesatee.Types.Moves.{Moves}
use incubator_mesatee.Types.Owners
use incubator_mesatee.Types.Owners.{UserId}
use incubator_mesatee.Types.Restore.{save_approve}
use incubator_mesatee.Types.Storage.{to_bytes, external_id}
use incubator_mesatee.Types.Task.{created, data_assigned, staged, running, finished}
use incubator_mesatee.Types.TaskState.{
  TaskState, has_participant, has_creator, all_data_assigned, everyone_approved,
}
use incubator_mesatee.Types.WellFormed.{IsWellFormed}

pub reached_at : (xs : List Call) → IsSound crates client (after xs)
unfolding HashMap.get
reached_at xs = reached-IsSound crates client [] (λ j. refl) xs

read_from_db-IsWellFormed_example : IsWellFormed ready_task
unfolding HashMap.get
read_from_db-IsWellFormed_example =
    read_from_db-IsWellFormed crates client [] (λ j. refl) with_data task_id ready_task
      answers.reads_ready

run_all-Moves_example : Moves ready_task finished_task
unfolding HashMap.get
run_all-Moves_example =
    run_all-Moves crates client [] (λ j. refl) with_data
      (invoked
        ++ (Reach.pull_task
            ∷ Reach.update_task_status status_request
            ∷ Reach.update_task_result result_request
            ∷ []))
      task_id ready_task finished_task (tt, (tt, (tt, (tt, (tt, (tt, tt)))))) answers.reads_ready
      answers.reads_finished

get_task-ok_example :
    (u : UserId) × (ts : TaskState) × (HashMap.get get_request.metadata (utf8 "id") ≡ some u)
    × (Holds crates client (after with_data) ts)
    × (task_key crates client ts ≡ to_bytes crates.show_uuid (get_request.message).task_id)
    × (has_participant ts u ≡ true)
    × IsAnswer ts get_response
    × ((get_task crates client get_request (after with_data)).1 ≡ (after with_data))
get_task-ok_example =
    get_task-ok crates client (after with_data) get_request get_response (reached_at with_data)
      answers.gets

assign_data-ok_example :
    (u : UserId) × (ts ts' : TaskState) × (HashMap.get (from_user bob assign_a).metadata (utf8 "id")
      ≡ some u)
    × (Holds crates client (after drafted) ts)
    × (task_key crates client ts
        ≡ to_bytes crates.show_uuid ((from_user bob assign_a).message).task_id)
    × (has_participant ts u ≡ true)
    × (ts.status ≡ created)
    × (Added crates client
        (after drafted)
        u
        (inputs crates)
        (λ f. f.owner)
        ((from_user bob assign_a).message).inputs
        ts.assigned_inputs
        ts'.assigned_inputs)
    × (Added crates client
        (after drafted)
        u
        (outputs crates)
        (λ f. f.owner)
        ((from_user bob assign_a).message).outputs
        ts.assigned_outputs
        ts'.assigned_outputs)
    × (ts'.status ≡ (if all_data_assigned ts' then data_assigned else created))
    × (Moves ts ts')
    × Holds crates client (assign_data crates client (from_user bob assign_a) (after drafted)).1 ts'
assign_data-ok_example =
    assign_data-ok crates client (after drafted) (from_user bob assign_a) (reached_at drafted)
      answers.assigns

approve_task-ok_example :
    (u : UserId) × (ts : TaskState) × (HashMap.get (approval bob).metadata (utf8 "id") ≡ some u)
    × (Holds crates client (after with_data) ts)
    × (task_key crates client ts ≡ to_bytes crates.show_uuid ((approval bob).message).task_id)
    × (has_participant ts u ≡ true)
    × (all_data_assigned ts ≡ true)
    × Holds crates client
        (approve_task crates client (approval bob) (after with_data)).1
        (save_approve (record { state = with_approval ts u }))
approve_task-ok_example =
    approve_task-ok crates client (after with_data) (approval bob) (reached_at with_data)
      answers.approves

invoke_task-ok_example :
    (u : UserId) × (ts : TaskState) × (HashMap.get invocation.metadata (utf8 "id") ≡ some u)
    × (Holds crates client (after approved_by_both) ts)
    × (task_key crates client ts ≡ to_bytes crates.show_uuid (invocation.message).task_id)
    × (has_creator ts u ≡ true)
    × (all_data_assigned ts ≡ true)
    × (everyone_approved ts ≡ true)
    × (f : Function) × Stored crates client
        (after approved_by_both)
        (functions crates)
        (to_bytes crates.show_uuid ts.function_id)
        f
invoke_task-ok_example =
    invoke_task-ok crates client (after approved_by_both) invocation (reached_at approved_by_both)
      answers.invokes

update_task_status-ok_example :
    (ts : TaskState) × Holds crates client (after queued) ts
    × (task_key crates client ts ≡ id_bytes crates client (status_request.message).task_id)
    × (ts.status ≡ staged)
    × Holds crates client
        (update_task_status crates client status_request (after queued)).1
        (record ts { status = running })
update_task_status-ok_example =
    update_task_status-ok crates client (after queued) (reached_at queued) status_request
      answers.starts

update_task_result-ok_example :
    (ts ts' : TaskState) × Holds crates client (after started) ts
    × (task_key crates client ts ≡ id_bytes crates client (result_request.message).task_id)
    × (ts.status ≡ running)
    × (ts'.status ≡ finished)
    × (ts'.result ≡ (result_request.message).task_result)
    × Moves ts ts'
    × Holds crates client (update_task_result crates client result_request (after started)).1 ts'
update_task_result-ok_example =
    update_task_result-ok crates client (after started) (reached_at started) result_request
      answers.finishes

create_task-ok_example :
    (u : UserId) × (f : Function) × (ts : TaskState) × (HashMap.get
        (from_user alice creation).metadata
        (utf8 "id")
      ≡ some u)
    × (Stored crates client
        (after registered)
        (functions crates)
        (to_bytes crates.show_uuid ((from_user alice creation).message).function_id)
        f)
    × (ts.task_id ≡ 4)
    × (ts.creator ≡ u)
    × (ts.status ≡ created)
    × (ts.approved_users ≡ Owners.empty)
    × (IsWellFormed ts)
    × (external_id (tasks crates) ts ≡ task_id)
    × Holds crates client
        (create_task crates client 4 (from_user alice creation) (after registered)).1
        ts
create_task-ok_example =
    create_task-ok crates client (after registered) 4 (from_user alice creation) task_id
      answers.creates
