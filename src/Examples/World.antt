-- ===== src/Examples/World.antt =====
-- A database in memory, the crates, and a task that two users run together.
use incubator_mesatee.Base.{
  Text, utf8, ◌==◌, ==_iff, ◌≡◌, List, [], ◌∷◌, ℕ, true, false, none, some, ok, arith,
  if◌then◌else◌, inl,
}
use incubator_mesatee.Base.HashMap
use incubator_mesatee.Base.HashMap.{HashMap, get-insert}
use incubator_mesatee.Examples.Codec.{json}
use incubator_mesatee.Examples.Formats
use incubator_mesatee.Examples.TaskFormats
use incubator_mesatee.Management.Db.{Crates}
use incubator_mesatee.Management.Requests.{Request, CreateTaskRequest, AssignDataRequest}
use incubator_mesatee.Scheduler.{UpdateTaskStatusRequest, UpdateTaskResultRequest}
use incubator_mesatee.Storage.Client.{StorageClient, storage_client}
use incubator_mesatee.Storage.LevelDb.{LevelDb}
use incubator_mesatee.System.Reach.{
  Call, register_function, register_input_file, register_output_file, create_task, assign_data,
  approve_task, invoke_task,
}
use incubator_mesatee.Types.Crypto.{FileAuthTag, raw}
use incubator_mesatee.Types.Storage.{ExternalId}
use incubator_mesatee.Types.Task.{running, done}
use incubator_mesatee.Types.Worker.{python, mesapy}

unfoldable pub remove : HashMap Text → Text → HashMap Text
remove [] k = []
remove ((j, v) ∷ m) k = if j == k then remove m k else (j, v) ∷ remove m k

pub get-remove :
    (m : HashMap Text) (k j : Text)
    → HashMap.get (remove m k) j ≡ (if k == j then none else HashMap.get m j)
unfolding remove HashMap.get
get-remove [] k j = ground arith
get-remove ((i, v) ∷ m) k j = ground (arith, get-remove m k j, ==_iff i k, ==_iff i j, ==_iff k j)

pub memory-put_ne :
    (k v : Text) (d : HashMap Text) (j : Text)
    → (k == j) ≡ false
    → HashMap.get (HashMap.insert d k v) j ≡ HashMap.get d j
memory-put_ne k v d j h = ground (arith, get-insert d k v j)

pub memory-put_self :
    (k v : Text) (d : HashMap Text) → HashMap.get (HashMap.insert d k v) k ≡ some v
memory-put_self k v d = ground (arith, get-insert d k v k, ==_iff k k)

pub memory-delete_ne :
    (k : Text) (d : HashMap Text) (j : Text)
    → (k == j) ≡ false
    → HashMap.get (remove d k) j ≡ HashMap.get d j
memory-delete_ne k d j h = ground (arith, get-remove d k j)

pub memory-delete_self : (k : Text) (d : HashMap Text) → HashMap.get (remove d k) k ≡ none
memory-delete_self k d = ground (arith, get-remove d k k, ==_iff k k)

abbrev pub memory : LevelDb
memory = record {
  Db = HashMap Text;
  get = λ d k. HashMap.get d k;
  put = λ k v d. (true, HashMap.insert d k v);
  delete = λ k d. (true, remove d k);
  get-put_ne = memory-put_ne;
  get-put_self = λ k v d _. memory-put_self k v d;
  get-put_failed = λ k v d h. inl (memory-put_self k v d);
  get-delete_ne = memory-delete_ne;
  get-delete_self = λ k d _. memory-delete_self k d;
}

abbrev pub client : StorageClient
client = storage_client memory

abbrev pub crates : Crates
crates = record {
  show_uuid = λ n. n ∷ [];
  parse_url = λ t. ok t;
  input_json = json Formats.input_file;
  output_json = json Formats.output_file;
  function_json = json TaskFormats.function;
  task_json = json TaskFormats.task_state;
  staged_json = json TaskFormats.staged_task;
}

abbrev pub alice : Text
alice = utf8 "alice"

abbrev pub bob : Text
bob = utf8 "bob"

abbrev pub from_user : {T : Type 0} → Text → T → Request T
from_user user message = record { metadata = (utf8 "id", user) ∷ []; message = message }

abbrev pub id_of : Text → ℕ → ExternalId
id_of prefix n = record { prefix = prefix; uuid = n }

abbrev pub task_id : ExternalId
task_id = id_of (utf8 "task") 4

abbrev pub tag : FileAuthTag
tag = record { tag = utf8 "0123456789abcdef" }

-- Alice registers a function and an output file, and Bob an input file
abbrev pub registered : List Call
registered =
    register_function 1 (
      from_user alice (record {
        name = utf8 "f";
        description = [];
        executor_type = python;
        payload = utf8 "def f";
        public = true;
        arguments = utf8 "n" ∷ [];
        inputs = record { name = utf8 "a"; description = [] } ∷ [];
        outputs = record { name = utf8 "o"; description = [] } ∷ [];
      }))
    ∷ register_input_file 2
        (from_user bob (record { url = utf8 "http://bob/a"; cmac = tag; crypto_info = raw }))
    ∷ register_output_file 3
        (from_user alice (record { url = utf8 "http://alice/o"; crypto_info = raw }))
    ∷ []

abbrev pub creation : CreateTaskRequest
creation = record {
  function_id = id_of (utf8 "function") 1;
  function_arguments = record { inner = (utf8 "n", utf8 "7") ∷ [] };
  executor = mesapy;
  inputs_ownership = (utf8 "a", record { uids = bob ∷ [] }) ∷ [];
  outputs_ownership = (utf8 "o", record { uids = alice ∷ [] }) ∷ [];
}

abbrev pub assign_a : AssignDataRequest
assign_a = record {
  task_id = task_id;
  inputs = (utf8 "a", id_of (utf8 "input") 2) ∷ [];
  outputs = [];
}

abbrev pub assign_o : AssignDataRequest
assign_o = record {
  task_id = task_id;
  inputs = [];
  outputs = (utf8 "o", id_of (utf8 "output") 3) ∷ [];
}

-- the task with its data
abbrev pub assigned : List Call
assigned =
    create_task 4 (from_user alice creation)
    ∷ assign_data (from_user bob assign_a)
    ∷ assign_data (from_user alice assign_o)
    ∷ []

-- both users approve it, and Alice invokes it
abbrev pub invoked : List Call
invoked =
    approve_task (from_user alice (record { task_id = task_id }))
    ∷ approve_task (from_user bob (record { task_id = task_id }))
    ∷ invoke_task (from_user alice (record { task_id = task_id }))
    ∷ []

abbrev pub result_request : Request UpdateTaskResultRequest
result_request = from_user (utf8 "executor") (record {
  task_id = 4;
  task_result = done (record { return_value = utf8 "ok"; tags_map = (utf8 "o", tag) ∷ [] });
})

abbrev pub status_request : Request UpdateTaskStatusRequest
status_request = from_user (utf8 "executor") (record { task_id = 4; task_status = running })
