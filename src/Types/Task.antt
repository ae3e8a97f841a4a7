-- ===== src/Types/Task.antt =====
-- types/src/task.rs: the status and the result of a task, the owners that it asks for and the
-- files that it is given.
use incubator_mesatee.Base.{
  Text, utf8, none, some, Result, ok, err, [], ◌∷◌, is_some, if◌then◌else◌,
}
use incubator_mesatee.Base.HashMap
use incubator_mesatee.Base.HashMap.{HashMap}
use incubator_mesatee.Types.Crypto.{FileAuthTag}
use incubator_mesatee.Types.File.{OutputFile, assign_cmac}
use incubator_mesatee.Types.Owners
use incubator_mesatee.Types.Owners.{OwnerList}
use incubator_mesatee.Types.Storage.{ExternalId, Storable, external_id}

pub data TaskStatus : Type 0 where
  created data_assigned approved staged running finished : TaskStatus

pub record TaskOutputs : Type 0 where
  pub return_value : Text
  pub tags_map : HashMap FileAuthTag

pub record TaskFailure : Type 0 where
  pub reason : Text

pub data TaskResult : Type 0 where
  not_ready : TaskResult
  done : TaskOutputs → TaskResult
  failed : TaskFailure → TaskResult

-- `TaskFileOwners`
abbrev pub TaskFileOwners : Type 0
TaskFileOwners = HashMap OwnerList

-- `TaskFileOwners::all_owners`
unfoldable pub all_owners : TaskFileOwners → OwnerList
all_owners m = Owners.unions (HashMap.values m)

-- `TaskFileOwners::check`, its messages without the file name that they end in
unfoldable pub check : TaskFileOwners → Text → OwnerList → Result Text (Unit {0})
check m fkey fowners = elim (HashMap.get m fkey) [
  | none ↦ err (utf8 "Assign: file name not exist in ownership spec.")
  | some owner_list ↦
      if Owners.eq owner_list fowners then ok tt else err (utf8 "Assign: file ownership mismatch.")
]

-- `TaskFiles<T>`
abbrev pub TaskFiles : Type 0 → Type 0
TaskFiles T = HashMap T

-- `TaskFiles::assign`, its message without the file name
unfoldable pub assign : {T : Type 0} → TaskFiles T → Text → T → Result Text (TaskFiles T)
assign files fname file =
    if is_some (HashMap.get files fname)
    then err (utf8 "Assign: file already assigned.")
    else ok (HashMap.insert files fname file)

-- `TaskFiles::external_ids`
unfoldable pub external_ids : {T : Type 0} → Storable T → TaskFiles T → HashMap ExternalId
external_ids st [] = []
external_ids st ((fname, file) ∷ files) = (fname, external_id st file) ∷ external_ids st files

-- `TaskFiles::update_cmac`: the file with the tag, and the files with it in place
unfoldable pub update_cmac :
    TaskFiles OutputFile → Text → FileAuthTag → Result Text (OutputFile × TaskFiles OutputFile)
update_cmac files fname auth_tag = elim (HashMap.get files fname) [
  | none ↦ err (utf8 "Upadate_cmac: file not found.")
  | some file ↦ elim (assign_cmac file auth_tag) [
    | err e ↦ err e
    | ok file' ↦ ok (file', HashMap.modify files fname file')
  ]
]
