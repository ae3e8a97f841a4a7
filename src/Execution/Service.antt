-- ===== src/Execution/Service.antt =====
-- services/execution/enclave/src/service.rs: one round of the loop of `start`, from a task that is
-- pulled to its result. The state is that of the scheduler with that of the machine.
use incubator_mesatee.Base.{Text, utf8, Action, Result, ok, err, pure, lift, ◌>>=◌, ◌>>◌}
use incubator_mesatee.Execution.Files.{
  TaskFileManager, new, prepare_staged_inputs, prepare_staged_outputs, upload_outputs,
}
use incubator_mesatee.Execution.Platform.{Platform}
use incubator_mesatee.Execution.Worker.{Library, StagedFunction, default_worker, invoke_function}
use incubator_mesatee.Scheduler.{UpdateTaskStatusRequest, UpdateTaskResultRequest}
use incubator_mesatee.Types.Runtime.{Failure, error, panic}
use incubator_mesatee.Types.Staged.{StagedTask}
use incubator_mesatee.Types.Storage.{Uuid}
use incubator_mesatee.Types.Task.{TaskOutputs, TaskResult, TaskStatus, done, failed, running}

-- `TeaclaveSchedulerClient`
pub record SchedulerClient : Type 1 where
  pub State : Type 0
  pub pull_task : Action State Text StagedTask
  pub update_task_status : UpdateTaskStatusRequest → Action State Text (Unit {0})
  pub update_task_result : UpdateTaskResultRequest → Action State Text (Unit {0})

-- `UpdateTaskResultRequest::new` on a result that is an error
abbrev pub failure_result : Text → TaskResult
failure_result e = failed (record { reason = e })

-- the result that is reported; a panic ends the service
unfoldable pub reported : Result Failure TaskOutputs → Result Failure TaskResult
reported (ok outputs) = ok (done outputs)
reported (err (error e)) = ok (failure_result e)
reported (err panic) = err panic

module _ (l : Library) (p : Platform) where
  unfoldable pub prepare_task :
      StagedTask → TaskFileManager → Action p.Machine Failure StagedFunction
  prepare_task task file_mgr = do
    input_files ← prepare_staged_inputs l.aead p file_mgr
    pure (record {
      name = task.function_name;
      arguments = task.function_arguments;
      payload = p.from_utf8_lossy task.function_payload;
      input_files = input_files;
      output_files = prepare_staged_outputs l.aead p file_mgr;
      executor_type = task.executor_type;
      executor = task.executor;
      runtime_name = utf8 "default";
    })

  -- `invoke_task` after the status is updated; `finalize_task` is `upload_outputs`
  unfoldable pub run_task : Text → StagedTask → Action p.Machine Failure TaskOutputs
  run_task fusion_base task = do
    file_mgr ←
        new l.aead p (utf8 "/tmp/teaclave_agent/") fusion_base task.task_id task.input_data
          task.output_data
    invocation ← prepare_task task file_mgr
    summary ← invoke_function l p default_worker invocation
    outputs_tag ← upload_outputs l.aead p file_mgr
    pure (record { return_value = summary; tags_map = outputs_tag })

module _ (p : Platform) (c : SchedulerClient) where
  abbrev pub World : Type 0
  World = c.State × p.Machine

  -- a call of the scheduler, and one of the machine
  unfoldable pub on_scheduler : {A : Type 0} → Action c.State Text A → Action World Failure A
  on_scheduler m (s, machine) =
      let (r, s') = m s in (elim r [ ok a ↦ ok a | err e ↦ err (error e) ], (s', machine))

  unfoldable pub on_machine : {A : Type 0} → Action p.Machine Failure A → Action World Failure A
  on_machine m (s, machine) = let (r, machine') = m machine in (r, (s, machine'))

  unfoldable pub update_task_status : Uuid → TaskStatus → Action World Failure (Unit {0})
  update_task_status task_id task_status =
      on_scheduler (c.update_task_status (record { task_id = task_id; task_status = task_status }))

  unfoldable pub update_task_result : Uuid → TaskResult → Action World Failure (Unit {0})
  update_task_result task_id task_result =
      on_scheduler (c.update_task_result (record { task_id = task_id; task_result = task_result }))

  -- `result` as a value
  unfoldable pub attempt :
      {A : Type 0} → Action World Failure A → Action World Failure (Result Failure A)
  attempt m w = let (r, w') = m w in (ok r, w')

module _ (l : Library) (p : Platform) (c : SchedulerClient) where
  unfoldable pub invoke_task : Text → StagedTask → Action (World p c) Failure TaskOutputs
  invoke_task fusion_base task =
      update_task_status p c task.task_id running >> on_machine p c (run_task l p fusion_base task)

  -- One round of the loop. Its own errors are only logged.
  unfoldable pub round : Text → Action (World p c) Failure (Unit {0})
  round fusion_base = do
    staged_task ← on_scheduler p c c.pull_task
    result ← attempt p c (invoke_task fusion_base staged_task)
    task_result ← lift (reported result)
    update_task_result p c staged_task.task_id task_result
