-- ===== src/Types/Transition.antt =====
-- `Task<S>` of types/src/task_state.rs, its states, and the operations of each state.
use incubator_mesatee.Base.{Text, utf8, Result, ok, err, if◌then◌else◌, [], map, not, ◌∷◌}
use incubator_mesatee.Base.HashMap.{keys}
use incubator_mesatee.Types.Crypto.{FileAuthTag}
use incubator_mesatee.Types.File.{InputFile, OutputFile}
use incubator_mesatee.Types.Function.{Function, FunctionArguments}
use incubator_mesatee.Types.Owners
use incubator_mesatee.Types.Owners.{UserId, OwnerList}
use incubator_mesatee.Types.Staged.{StagedTask, input_files, output_files}
use incubator_mesatee.Types.Storage.{Uuid}
use incubator_mesatee.Types.Task.{
  TaskStatus, created, data_assigned, approved, staged, running, finished, TaskResult, not_ready,
  TaskFileOwners, all_owners, check, assign as assign_file, update_cmac,
}
use incubator_mesatee.Types.TaskState.{TaskState, same_keys, has_creator}
use incubator_mesatee.Types.Worker.{Executor}

-- `Create`, `Assign`, `Approve`, `Stage`, `Run`, `Finish`, `Done`
pub data StateTag : Type 0 where
  create assign approve stage run finish done : StateTag

-- `Task<S>`; `extra`, of a type with one value, is the parameter
pub record Task (tag : StateTag) : Type 0 where
  pub state : TaskState

-- `From<S> for TaskStatus`
unfoldable pub status_of : StateTag → TaskStatus
status_of create = created
status_of StateTag.assign = created
status_of approve = data_assigned
status_of stage = approved
status_of run = staged
status_of finish = running
status_of done = finished

-- the users that `Task::<Create>::new` gathers
unfoldable pub gather : UserId → TaskFileOwners → TaskFileOwners → Function → OwnerList
gather requester input_owners output_owners function =
    let owners = Owners.unions (all_owners input_owners ∷ all_owners output_owners ∷ []) in
    let participants = Owners.insert owners requester in
    if not function.public then Owners.insert participants function.owner else participants

-- `Task::<Create>::new`; `fresh` is what `Uuid::new_v4()` returned
unfoldable pub create_new :
    Uuid
    → UserId
    → Executor
    → FunctionArguments
    → TaskFileOwners
    → TaskFileOwners
    → Function
    → Result Text (Task create)
unfolding gather
create_new fresh requester executor arguments input_owners output_owners function =
    if same_keys function.arguments (keys arguments.inner)
    then if same_keys (map (λ f. f.name) function.inputs) (keys input_owners)
      then if same_keys (map (λ f. f.name) function.outputs) (keys output_owners)
        then ok (record {
          state = record {
            task_id = fresh;
            creator = requester;
            function_id = record { prefix = utf8 "function"; uuid = function.id };
            function_arguments = arguments;
            executor = executor;
            inputs_ownership = input_owners;
            outputs_ownership = output_owners;
            function_owner = function.owner;
            participants = gather requester input_owners output_owners function;
            approved_users = Owners.empty;
            assigned_inputs = [];
            assigned_outputs = [];
            result = not_ready;
            status = created;
          };
        })
        else err (utf8 "output keys mismatch")
      else err (utf8 "input keys mismatch")
    else err (utf8 "function_arguments mismatch")

-- `Task::<Assign>::assign_input`
unfoldable pub assign_input :
    Task StateTag.assign → UserId → Text → InputFile → Result Text (Task StateTag.assign)
assign_input t requester fname file =
    if Owners.contains file.owner requester
    then elim (check t.state.inputs_ownership fname file.owner) [
      | err e ↦ err e
      | ok _ ↦ elim (assign_file t.state.assigned_inputs fname file) [
        | err e ↦ err e
        | ok files ↦ ok (record { state = record (t.state) { assigned_inputs = files } })
      ]
    ]
    else err (utf8 "Assign: requester is not in the owner list.")

-- `Task::<Assign>::assign_output`
unfoldable pub assign_output :
    Task StateTag.assign → UserId → Text → OutputFile → Result Text (Task StateTag.assign)
assign_output t requester fname file =
    if Owners.contains file.owner requester
    then elim (check t.state.outputs_ownership fname file.owner) [
      | err e ↦ err e
      | ok _ ↦ elim (assign_file t.state.assigned_outputs fname file) [
        | err e ↦ err e
        | ok files ↦ ok (record { state = record (t.state) { assigned_outputs = files } })
      ]
    ]
    else err (utf8 "Assign: requester is not in the owner list.")

-- `Task::<Approve>::approve`
unfoldable pub approve_by : Task approve → UserId → Result Text (Task approve)
approve_by t requester =
    if Owners.contains t.state.participants requester
    then ok (record {
      state = record (t.state) { approved_users = Owners.insert t.state.approved_users requester };
    })
    else err (utf8 "Unexpected user trying to approve a task")

-- `Task::<Stage>::stage_for_running`
unfoldable pub stage_for_running : Task stage → UserId → Function → Result Text StagedTask
stage_for_running t requester function =
    if has_creator t.state requester
    then ok (record {
      task_id = t.state.task_id;
      function_id = function.id;
      executor = t.state.executor;
      executor_type = function.executor_type;
      function_name = function.name;
      function_arguments = t.state.function_arguments;
      function_payload = function.payload;
      input_data = input_files t.state.assigned_inputs;
      output_data = output_files t.state.assigned_outputs;
    })
    else err (utf8 "Requestor is not the task creater")

-- `Task::<Finish>::update_output_cmac`
unfoldable pub update_output_cmac :
    Task finish → Text → FileAuthTag → Result Text (OutputFile × Task finish)
update_output_cmac t fname auth_tag = elim (update_cmac t.state.assigned_outputs fname auth_tag) [
  | err e ↦ err e
  | ok (file, files) ↦ ok (file, record { state = record (t.state) { assigned_outputs = files } })
]

-- `Task::<Finish>::update_result`
unfoldable pub update_result : Task finish → TaskResult → Task finish
update_result t result = record { state = record (t.state) { result = result } }
