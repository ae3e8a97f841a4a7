-- ===== src/Management/Db.antt =====
-- How the management service reads, writes and enqueues what it stores (`write_to_db`,
-- `read_from_db`, `enqueue_to_db`, `get_request_user_id` of
-- services/management/enclave/src/service.rs).
use incubator_mesatee.Base.{
  Text, utf8, Action, Result, ok, err, ◌>>=◌, ◌>>◌, map_err, lift, ensure, none, some, Bool,
}
use incubator_mesatee.Base.HashMap
use incubator_mesatee.Base.HashMap.{HashMap}
use incubator_mesatee.Management.Requests.{
  ManagementError, invalid_request, data_error, response_error,
}
use incubator_mesatee.Storage.Client.{StorageClient}
use incubator_mesatee.Types.Error.{ServiceError, display}
use incubator_mesatee.Types.File.{Url, InputFile, OutputFile, input_storable, output_storable}
use incubator_mesatee.Types.Function.{Function, function_storable}
use incubator_mesatee.Types.Owners.{UserId}
use incubator_mesatee.Types.Staged.{StagedTask, staged_storable}
use incubator_mesatee.Types.Storage.{
  Uuid, ExternalId, Json, Storable, to_bytes, match_prefix, storage_key,
}
use incubator_mesatee.Types.TaskState.{TaskState, task_storable}

-- What the services take from the crates `uuid`, `url` and `serde_json`.
pub record Crates : Type 0 where
  pub show_uuid : Uuid → Text
  pub parse_url : Text → Result Text Url
  pub input_json : Json InputFile
  pub output_json : Json OutputFile
  pub function_json : Json Function
  pub task_json : Json TaskState
  pub staged_json : Json StagedTask

-- `.map_err(|_| e)?` on a value or on a call
unfoldable pub or_else : {S E A : Type 0} → ManagementError → Result E A → Action S ServiceError A
or_else e (ok a) s = (ok a, s)
or_else e (err _) s = (err (response_error e), s)

abbrev pub replace_err : {S E A : Type 0} → ManagementError → Action S E A → Action S ServiceError A
replace_err e = map_err (λ _. response_error e)

abbrev pub require : {S : Type 0} → Bool → ManagementError → Action S ServiceError (Unit {0})
require test e = ensure test (response_error e)

unfoldable pub get_request_user_id : {S : Type 0} → HashMap Text → Action S ServiceError UserId
get_request_user_id meta s = elim (HashMap.get meta (utf8 "id")) [
  | none ↦ (err (response_error invalid_request), s)
  | some user_id ↦ (ok user_id, s)
]

module _ (k : Crates) where
  abbrev pub inputs : Storable InputFile
  inputs = input_storable k.input_json

  abbrev pub outputs : Storable OutputFile
  outputs = output_storable k.output_json

  abbrev pub functions : Storable Function
  functions = function_storable k.function_json

  abbrev pub tasks : Storable TaskState
  tasks = task_storable k.task_json

  abbrev pub staged : Storable StagedTask
  staged = staged_storable k.staged_json

module _ (k : Crates) (c : StorageClient) where
  module _ {A : Type 0} (st : Storable A) where
    unfoldable pub write_to_db : A → Action c.Store Text (Unit {0})
    write_to_db item = do
      v ← lift (st.json.to_vec item)
      map_err display (c.put (storage_key st k.show_uuid item) v)

    unfoldable pub read_from_db : ExternalId → Action c.Store Text A
    read_from_db key = do
      ensure (match_prefix st key.prefix) (utf8 "Key prefix doesn't match.")
      value ← map_err display (c.get (to_bytes k.show_uuid key))
      lift (st.json.from_slice value)

    unfoldable pub enqueue_to_db : Text → A → Action c.Store ServiceError (Unit {0})
    enqueue_to_db key item = do
      value ← or_else data_error (st.json.to_vec item)
      c.enqueue key value
