-- ===== src/Management/Requests.antt =====
-- The requests and responses of the management service
-- (services/proto/src/teaclave_frontend_service.rs), `Request` (rpc/src/request.rs), and the
-- errors (services/management/enclave/src/error.rs).
use incubator_mesatee.Base.{Text, utf8, Bool, Option, List}
use incubator_mesatee.Base.HashMap.{HashMap}
use incubator_mesatee.Types.Crypto.{FileAuthTag, FileCrypto}
use incubator_mesatee.Types.Error.{ServiceError, request_error}
use incubator_mesatee.Types.File.{Url}
use incubator_mesatee.Types.Function.{FunctionInput, FunctionOutput, FunctionArguments}
use incubator_mesatee.Types.Owners.{UserId, OwnerList}
use incubator_mesatee.Types.Storage.{ExternalId}
use incubator_mesatee.Types.Task.{TaskStatus, TaskResult, TaskFileOwners}
use incubator_mesatee.Types.Worker.{ExecutorType, Executor}

pub record Request (T : Type 0) : Type 0 where
  pub metadata : HashMap Text
  pub message : T

pub record RegisterInputFileRequest : Type 0 where
  pub url : Url
  pub cmac : FileAuthTag
  pub crypto_info : FileCrypto

pub record UpdateInputFileRequest : Type 0 where
  pub data_id : ExternalId
  pub url : Url

pub record RegisterOutputFileRequest : Type 0 where
  pub url : Url
  pub crypto_info : FileCrypto

pub record UpdateOutputFileRequest : Type 0 where
  pub data_id : ExternalId
  pub url : Url

pub record RegisterFusionOutputRequest : Type 0 where
  pub owner_list : OwnerList

pub record RegisterInputFromOutputRequest : Type 0 where
  pub data_id : ExternalId

pub record GetInputFileRequest : Type 0 where
  pub data_id : ExternalId

pub record GetOutputFileRequest : Type 0 where
  pub data_id : ExternalId

pub record GetInputFileResponse : Type 0 where
  pub owner : OwnerList
  pub cmac : FileAuthTag

pub record GetOutputFileResponse : Type 0 where
  pub owner : OwnerList
  pub cmac : Option FileAuthTag

pub record RegisterFunctionRequest : Type 0 where
  pub name : Text
  pub description : Text
  pub executor_type : ExecutorType
  pub payload : Text
  pub public : Bool
  pub arguments : List Text
  pub inputs : List FunctionInput
  pub outputs : List FunctionOutput

pub record GetFunctionRequest : Type 0 where
  pub function_id : ExternalId

pub record GetFunctionResponse : Type 0 where
  pub name : Text
  pub description : Text
  pub owner : UserId
  pub executor_type : ExecutorType
  pub payload : Text
  pub public : Bool
  pub arguments : List Text
  pub inputs : List FunctionInput
  pub outputs : List FunctionOutput

pub record CreateTaskRequest : Type 0 where
  pub function_id : ExternalId
  pub function_arguments : FunctionArguments
  pub executor : Executor
  pub inputs_ownership : TaskFileOwners
  pub outputs_ownership : TaskFileOwners

pub record GetTaskRequest : Type 0 where
  pub task_id : ExternalId

pub record GetTaskResponse : Type 0 where
  pub task_id : ExternalId
  pub creator : UserId
  pub function_id : ExternalId
  pub function_owner : UserId
  pub function_arguments : FunctionArguments
  pub inputs_ownership : TaskFileOwners
  pub outputs_ownership : TaskFileOwners
  pub participants : OwnerList
  pub approved_users : OwnerList
  pub assigned_inputs : HashMap ExternalId
  pub assigned_outputs : HashMap ExternalId
  pub result : TaskResult
  pub status : TaskStatus

pub record AssignDataRequest : Type 0 where
  pub task_id : ExternalId
  pub inputs : HashMap ExternalId
  pub outputs : HashMap ExternalId

pub record ApproveTaskRequest : Type 0 where
  pub task_id : ExternalId

pub record InvokeTaskRequest : Type 0 where
  pub task_id : ExternalId

pub data ManagementError : Type 0 where
  invalid_request data_error storage_failure permission_denied bad_task : ManagementError

-- `From<TeaclaveManagementServiceError> for TeaclaveServiceResponseError`
unfoldable pub response_error : ManagementError → ServiceError
response_error invalid_request = request_error (utf8 "invalid request")
response_error data_error = request_error (utf8 "data error")
response_error storage_failure = request_error (utf8 "storage error")
response_error permission_denied = request_error (utf8 "permission denied")
response_error bad_task = request_error (utf8 "bad task")
