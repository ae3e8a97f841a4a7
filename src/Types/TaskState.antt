-- ===== src/Types/TaskState.antt =====
-- `TaskState` of types/src/task_state.rs and the tests on it.
use incubator_mesatee.Base.{Text, utf8, ◌==◌, Bool, ◌&&◌, ◌||◌, eqb, List}
use incubator_mesatee.Base.HashMap.{keys}
use incubator_mesatee.Base.HashSet
use incubator_mesatee.Types.File.{InputFile, OutputFile}
use incubator_mesatee.Types.Function.{FunctionArguments}
use incubator_mesatee.Types.Owners
use incubator_mesatee.Types.Owners.{UserId, OwnerList}
use incubator_mesatee.Types.Storage.{Uuid, ExternalId, Json, Storable}
use incubator_mesatee.Types.Task.{TaskStatus, TaskResult, TaskFileOwners, TaskFiles}
use incubator_mesatee.Types.Worker.{Executor}

pub record TaskState : Type 0 where
  pub task_id : Uuid
  pub creator : UserId
  pub function_id : ExternalId
  pub function_arguments : FunctionArguments
  pub executor : Executor
  pub inputs_ownership : TaskFileOwners
  pub outputs_ownership : TaskFileOwners
  pub function_owner : UserId
  pub participants : OwnerList
  pub approved_users : OwnerList
  pub assigned_inputs : TaskFiles InputFile
  pub assigned_outputs : TaskFiles OutputFile
  pub result : TaskResult
  pub status : TaskStatus

-- `impl Storable for TaskState`
abbrev pub task_storable : Json TaskState → Storable TaskState
task_storable json = record { key_prefix = utf8 "task"; uuid = λ t. t.task_id; json = json }

unfoldable pub everyone_approved : TaskState → Bool
everyone_approved ts =
    eqb (Owners.length ts.participants) 1 || Owners.eq ts.participants ts.approved_users

-- `let a: HashSet<_> = m.keys().collect(); let b: HashSet<_> = n.keys().collect(); a == b`
unfoldable pub same_keys : List Text → List Text → Bool
same_keys a b = HashSet.eq (HashSet.collect a) (HashSet.collect b)

unfoldable pub all_data_assigned : TaskState → Bool
all_data_assigned ts =
    same_keys (keys ts.inputs_ownership) (keys ts.assigned_inputs)
    && same_keys (keys ts.outputs_ownership) (keys ts.assigned_outputs)

unfoldable pub has_participant : TaskState → UserId → Bool
has_participant ts user_id = Owners.contains ts.participants user_id

unfoldable pub has_creator : TaskState → UserId → Bool
has_creator ts user_id = ts.creator == user_id
