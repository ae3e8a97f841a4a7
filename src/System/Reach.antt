-- ===== src/System/Reach.antt =====
-- Sequences of requests to the management service (services/management/enclave/src/service.rs)
-- and to the scheduler (services/scheduler/enclave/src/service.rs) over one store. The
-- requests are taken to run one after the other, each to its end.
use incubator_mesatee.Base.{Text, ◌≡◌, none, ok, List, [], ◌∷◌, sym, subst, ◌∙◌}
use incubator_mesatee.Management.Db.{Crates, tasks, read_from_db}
use incubator_mesatee.Management.Files
use incubator_mesatee.Management.Requests.{
  Request, RegisterInputFileRequest, UpdateInputFileRequest, RegisterOutputFileRequest,
  UpdateOutputFileRequest, RegisterFusionOutputRequest, RegisterInputFromOutputRequest,
  GetInputFileRequest, GetOutputFileRequest, RegisterFunctionRequest, GetFunctionRequest,
  CreateTaskRequest, GetTaskRequest, AssignDataRequest, ApproveTaskRequest, InvokeTaskRequest,
}
use incubator_mesatee.Management.Tasks
use incubator_mesatee.Scheduler
use incubator_mesatee.Scheduler.{UpdateTaskStatusRequest, UpdateTaskResultRequest}
use incubator_mesatee.Storage.Client.{StorageClient}
use incubator_mesatee.System.Access.{Reads-read_task}
use incubator_mesatee.System.Later.{Other, Steps-HoldsLater, Holds-same, same_key}
use incubator_mesatee.System.ManagementFiles.{
  register_input_file-Steps, update_input_file-Steps, register_output_file-Steps,
  update_output_file-Steps, register_fusion_output-Steps, register_input_from_output-Steps,
  get_output_file-Steps, get_input_file-Steps, register_function-Steps, get_function-Steps,
}
use incubator_mesatee.System.ManagementTasks.{
  create_task-Steps, get_task-Steps, assign_data-Steps, approve_task-Steps, invoke_task-Steps,
}
use incubator_mesatee.System.SchedulerSteps.{
  pull_task-Steps, update_task_status-Steps, update_task_result-Steps,
}
use incubator_mesatee.System.Step.{IsSound, Steps, here, Steps-trans, Steps-IsSound}
use incubator_mesatee.Types.Crypto.{FileCrypto}
use incubator_mesatee.Types.Moves.{Moves}
use incubator_mesatee.Types.Storage.{Uuid, ExternalId}
use incubator_mesatee.Types.TaskState.{TaskState}
use incubator_mesatee.Types.WellFormed.{IsWellFormed}

-- A request, with the UUIDs and the keys that its handler draws.
pub data Call : Type 0 where
  register_input_file : Uuid → Request RegisterInputFileRequest → Call
  update_input_file : Uuid → Request UpdateInputFileRequest → Call
  register_output_file : Uuid → Request RegisterOutputFileRequest → Call
  update_output_file : Uuid → Request UpdateOutputFileRequest → Call
  register_fusion_output : Uuid → FileCrypto → Uuid → Request RegisterFusionOutputRequest → Call
  register_input_from_output : Request RegisterInputFromOutputRequest → Call
  get_output_file : Request GetOutputFileRequest → Call
  get_input_file : Request GetInputFileRequest → Call
  register_function : Uuid → Request RegisterFunctionRequest → Call
  get_function : Request GetFunctionRequest → Call
  create_task : Uuid → Request CreateTaskRequest → Call
  get_task : Request GetTaskRequest → Call
  assign_data : Request AssignDataRequest → Call
  approve_task : Request ApproveTaskRequest → Call
  invoke_task : Request InvokeTaskRequest → Call
  pull_task : Call
  update_task_status : Request UpdateTaskStatusRequest → Call
  update_task_result : Request UpdateTaskResultRequest → Call

-- a new task has a UUID of which P holds
abbrev pub Draws : (Uuid → Type 0) → Call → Type 0
Draws P (create_task fresh r) = P fresh
Draws P _ = Unit {0}

abbrev pub AllDraw : (Uuid → Type 0) → List Call → Type 0
AllDraw P [] = Unit {0}
AllDraw P (x ∷ xs) = Draws P x × AllDraw P xs

module _ (k : Crates) (c : StorageClient) where
  -- the store after a request
  unfoldable pub run : Call → c.Store → c.Store
  run (register_input_file fresh r) s = (Files.register_input_file k c fresh r s).1
  run (update_input_file fresh r) s = (Files.update_input_file k c fresh r s).1
  run (register_output_file fresh r) s = (Files.register_output_file k c fresh r s).1
  run (update_output_file fresh r) s = (Files.update_output_file k c fresh r s).1
  run (register_fusion_output url crypto fresh r) s =
      (Files.register_fusion_output k c url crypto fresh r s).1
  run (register_input_from_output r) s = (Files.register_input_from_output k c r s).1
  run (get_output_file r) s = (Files.get_output_file k c r s).1
  run (get_input_file r) s = (Files.get_input_file k c r s).1
  run (register_function fresh r) s = (Files.register_function k c fresh r s).1
  run (get_function r) s = (Files.get_function k c r s).1
  run (create_task fresh r) s = (Tasks.create_task k c fresh r s).1
  run (get_task r) s = (Tasks.get_task k c r s).1
  run (assign_data r) s = (Tasks.assign_data k c r s).1
  run (approve_task r) s = (Tasks.approve_task k c r s).1
  run (invoke_task r) s = (Tasks.invoke_task k c r s).1
  run pull_task s = (Scheduler.pull_task k c s).1
  run (update_task_status r) s = (Scheduler.update_task_status k c r s).1
  run (update_task_result r) s = (Scheduler.update_task_result k c r s).1

  unfoldable pub run_all : List Call → c.Store → c.Store
  run_all [] s = s
  run_all (x ∷ xs) s = run_all xs (run x s)

  module _ {P : Uuid → Type 0} where
    run-Steps : (x : Call) (s : c.Store) → IsSound k c s → Draws P x → Steps k c P s (run x s)
    unfolding run
    run-Steps (register_input_file fresh r) s h d = register_input_file-Steps k c s fresh r
    run-Steps (update_input_file fresh r) s h d = update_input_file-Steps k c s fresh r
    run-Steps (register_output_file fresh r) s h d = register_output_file-Steps k c s fresh r
    run-Steps (update_output_file fresh r) s h d = update_output_file-Steps k c s fresh r
    run-Steps (register_fusion_output url crypto fresh r) s h d =
        register_fusion_output-Steps k c s url crypto fresh r
    run-Steps (register_input_from_output r) s h d = register_input_from_output-Steps k c s r
    run-Steps (get_output_file r) s h d = get_output_file-Steps k c s r
    run-Steps (get_input_file r) s h d = get_input_file-Steps k c s r
    run-Steps (register_function fresh r) s h d = register_function-Steps k c s fresh r
    run-Steps (get_function r) s h d = get_function-Steps k c s r
    run-Steps (create_task fresh r) s h d = create_task-Steps k c s fresh r d
    run-Steps (get_task r) s h d = get_task-Steps k c s h r
    run-Steps (assign_data r) s h d = assign_data-Steps k c s h r
    run-Steps (approve_task r) s h d = approve_task-Steps k c s h r
    run-Steps (invoke_task r) s h d = invoke_task-Steps k c s h r
    run-Steps pull_task s h d = pull_task-Steps k c s
    run-Steps (update_task_status r) s h d = update_task_status-Steps k c s h r
    run-Steps (update_task_result r) s h d = update_task_result-Steps k c s h r

    run_all-Steps :
        (xs : List Call) (s : c.Store) → IsSound k c s → AllDraw P xs → Steps k c P s (run_all xs s)
    unfolding run_all
    run_all-Steps [] s h d = here
    run_all-Steps (x ∷ xs) s h d =
        let p = run-Steps x s h d.0 in
        Steps-trans k c p (run_all-Steps xs (run x s) (Steps-IsSound k c p h) d.1)

  Draws-any : (x : Call) → Draws (λ _. Unit {0}) x
  Draws-any (create_task fresh r) = tt
  Draws-any _ = tt

  AllDraw-any : (xs : List Call) → AllDraw (λ _. Unit {0}) xs
  AllDraw-any [] = tt
  AllDraw-any (x ∷ xs) = (Draws-any x, AllDraw-any xs)

  run_all-IsSound : (xs : List Call) (s : c.Store) → IsSound k c s → IsSound k c (run_all xs s)
  run_all-IsSound xs s h =
      Steps-IsSound k c (run_all-Steps {P = λ _. Unit {0}} xs s h (AllDraw-any xs)) h

  module _ (s : c.Store) (empty : (j : Text) → c.view s j ≡ none) where
    empty-IsSound : IsSound k c s
    empty-IsSound = record { at = λ j b ts t found d. absurd (cc (empty j, found)) }

    -- Requests keep the store sound: after any requests on an empty store, whatever is stored
    -- under a task key is a well-formed task under its own key.
    pub reached-IsSound : (xs : List Call) → IsSound k c (run_all xs s)
    reached-IsSound xs = run_all-IsSound xs s empty-IsSound

    -- After any requests on an empty store, every task that is read is well formed: the owners
    -- of the files that it asks for take part in it, only those who take part have approved,
    -- its files have the owners asked for, and its status says truly what has been assigned and
    -- approved.
    pub read_from_db-IsWellFormed :
        (xs : List Call) (e : ExternalId) (ts : TaskState)
        → (read_from_db k c (tasks k) e (run_all xs s)).0 ≡ ok ts
        → IsWellFormed ts
    read_from_db-IsWellFormed xs e ts h =
        ((Reads-read_task k c (run_all xs s) e (reached-IsSound xs)).found ts h).1

    -- After any requests on an empty store, a task that is read keeps, over any further requests
    -- that draw other UUIDs, all that it is; approvals are never lost, the input files of a task
    -- whose data has been assigned never change, and the status never goes back.
    pub run_all-Moves :
        (xs ys : List Call) (e : ExternalId) (ts ts' : TaskState)
        → AllDraw (Other k c ts) ys
        → (read_from_db k c (tasks k) e (run_all xs s)).0 ≡ ok ts
        → (read_from_db k c (tasks k) e (run_all ys (run_all xs s))).0 ≡ ok ts'
        → Moves ts ts'
    run_all-Moves xs ys e ts ts' d h h' =
        let sound = reached-IsSound xs in
        let sound' = run_all-IsSound ys (run_all xs s) sound in
        let (held, w, key) = (Reads-read_task k c (run_all xs s) e sound).found ts h in
        let (held', w', key') =
          (Reads-read_task k c (run_all ys (run_all xs s)) e sound').found ts' h' in
        let l = Steps-HoldsLater k c ts w held (run_all-Steps ys (run_all xs s) sound d) in
        let same : l.later ≡ ts' =
          Holds-same k c (run_all ys (run_all xs s)) l.later ts' l.holds held'
            (same_key k c ts l.later l.moves.same.same_id ∙ key ∙ sym key') in
        subst (Moves ts) same l.moves
