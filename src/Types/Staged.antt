-- ===== src/Types/Staged.antt =====
-- types/src/staged_task.rs: what the scheduler hands to an executor.
use incubator_mesatee.Base.{Text, utf8, [], ◌∷◌}
use incubator_mesatee.Base.HashMap.{HashMap}
use incubator_mesatee.Types.Crypto.{FileAuthTag, FileCrypto}
use incubator_mesatee.Types.File.{Url, InputFile, OutputFile}
use incubator_mesatee.Types.Function.{FunctionArguments}
use incubator_mesatee.Types.Storage.{Uuid, Json, Storable}
use incubator_mesatee.Types.Worker.{ExecutorType, Executor}

pub record FunctionInputFile : Type 0 where
  pub url : Url
  pub cmac : FileAuthTag
  pub crypto_info : FileCrypto

pub record FunctionOutputFile : Type 0 where
  pub url : Url
  pub crypto_info : FileCrypto

-- `From<TeaclaveInputFile> for FunctionInputFile`
unfoldable pub from_input : InputFile → FunctionInputFile
from_input file = record { url = file.url; cmac = file.cmac; crypto_info = file.crypto_info }

-- `From<TeaclaveOutputFile> for FunctionOutputFile`
unfoldable pub from_output_file : OutputFile → FunctionOutputFile
from_output_file file = record { url = file.url; crypto_info = file.crypto_info }

-- `TaskFiles<TeaclaveInputFile>` into `FunctionInputFiles`
unfoldable pub input_files : HashMap InputFile → HashMap FunctionInputFile
input_files [] = []
input_files ((k, f) ∷ m) = (k, from_input f) ∷ input_files m

-- `TaskFiles<TeaclaveOutputFile>` into `FunctionOutputFiles`
unfoldable pub output_files : HashMap OutputFile → HashMap FunctionOutputFile
output_files [] = []
output_files ((k, f) ∷ m) = (k, from_output_file f) ∷ output_files m

pub record StagedTask : Type 0 where
  pub task_id : Uuid
  pub function_id : Uuid
  pub executor : Executor
  pub executor_type : ExecutorType
  pub function_name : Text
  pub function_arguments : FunctionArguments
  pub function_payload : Text
  pub input_data : HashMap FunctionInputFile
  pub output_data : HashMap FunctionOutputFile

-- `impl Storable for StagedTask`
abbrev pub staged_storable : Json StagedTask → Storable StagedTask
staged_storable json = record { key_prefix = utf8 "staged-"; uuid = λ t. t.task_id; json = json }

-- `StagedTask::get_queue_key`
abbrev pub queue_key : Text
queue_key = utf8 "staged-task"
