-- ===== src/Management/Files.antt =====
-- The requests on files and functions of services/management/enclave/src/service.rs. What
-- `Uuid::new_v4()` and `FileCrypto::default()` draw at random is an argument.
use incubator_mesatee.Base.{
  Text, utf8, Action, Result, ok, err, pure, ◌>>=◌, ◌>>◌, ◌&&◌, ◌||◌, ltb, ◌==◌, [], ◌∷◌, ◌++◌,
}
use incubator_mesatee.Management.Db.{
  Crates, replace_err, or_else, require, get_request_user_id, write_to_db, read_from_db, inputs,
  outputs, functions,
}
use incubator_mesatee.Management.Requests.{
  Request, RegisterInputFileRequest, UpdateInputFileRequest, RegisterOutputFileRequest,
  UpdateOutputFileRequest, RegisterFusionOutputRequest, RegisterInputFromOutputRequest,
  GetInputFileRequest, GetOutputFileRequest, GetInputFileResponse, GetOutputFileResponse,
  RegisterFunctionRequest, GetFunctionRequest, GetFunctionResponse, data_error, storage_failure,
  permission_denied,
}
use incubator_mesatee.Storage.Client.{StorageClient}
use incubator_mesatee.Types.Crypto.{FileCrypto}
use incubator_mesatee.Types.Error.{ServiceError}
use incubator_mesatee.Types.File.{OutputFile, input_new, output_new, from_output}
use incubator_mesatee.Types.Function.{Function}
use incubator_mesatee.Types.Owners
use incubator_mesatee.Types.Owners.{UserId, OwnerList}
use incubator_mesatee.Types.Storage.{Uuid, ExternalId, external_id}

-- `Function::from(request).id(uuid).owner(user_id)`
unfoldable pub function_of : Uuid → UserId → RegisterFunctionRequest → Function
function_of fresh user_id r = record {
  id = fresh;
  name = r.name;
  description = r.description;
  public = r.public;
  executor_type = r.executor_type;
  payload = r.payload;
  arguments = r.arguments;
  inputs = r.inputs;
  outputs = r.outputs;
  owner = user_id;
}

module _ (k : Crates) (c : StorageClient) where
  unfoldable pub register_input_file :
      Uuid → Request RegisterInputFileRequest → Action c.Store ServiceError ExternalId
  register_input_file fresh request = do
    user_id ← get_request_user_id request.metadata
    let r = request.message
    let input_file = input_new fresh r.url r.cmac r.crypto_info (Owners.from_list (user_id ∷ []))
    replace_err storage_failure (write_to_db k c (inputs k) input_file)
    pure (external_id (inputs k) input_file)

  unfoldable pub update_input_file :
      Uuid → Request UpdateInputFileRequest → Action c.Store ServiceError ExternalId
  update_input_file fresh request = do
    user_id ← get_request_user_id request.metadata
    let r = request.message
    old ← replace_err permission_denied (read_from_db k c (inputs k) r.data_id)
    require (Owners.eq old.owner (Owners.from_list (user_id ∷ []))) permission_denied
    let input_file = input_new fresh r.url old.cmac old.crypto_info old.owner
    replace_err storage_failure (write_to_db k c (inputs k) input_file)
    pure (external_id (inputs k) input_file)

  unfoldable pub register_output_file :
      Uuid → Request RegisterOutputFileRequest → Action c.Store ServiceError ExternalId
  register_output_file fresh request = do
    user_id ← get_request_user_id request.metadata
    let r = request.message
    let output_file = output_new fresh r.url r.crypto_info (Owners.from_list (user_id ∷ []))
    replace_err storage_failure (write_to_db k c (outputs k) output_file)
    pure (external_id (outputs k) output_file)

  unfoldable pub update_output_file :
      Uuid → Request UpdateOutputFileRequest → Action c.Store ServiceError ExternalId
  update_output_file fresh request = do
    user_id ← get_request_user_id request.metadata
    let r = request.message
    old ← replace_err permission_denied (read_from_db k c (outputs k) r.data_id)
    require (Owners.eq old.owner (Owners.from_list (user_id ∷ []))) permission_denied
    let output_file = output_new fresh r.url old.crypto_info old.owner
    replace_err storage_failure (write_to_db k c (outputs k) output_file)
    pure (external_id (outputs k) output_file)

  -- the two UUIDs and the key of the file are drawn in this order
  unfoldable pub create_fusion_data : Uuid → FileCrypto → Uuid → OwnerList → Result Text OutputFile
  create_fusion_data in_url crypto_info fresh owners =
      elim (k.parse_url
        (utf8 "fusion:///TEACLAVE_FUSION_BASE/" ++ (k.show_uuid in_url ++ utf8 ".fusion"))) [
          | err _ ↦ err (utf8 "invalid url")
          | ok url ↦ ok (output_new fresh url crypto_info owners)
        ]

  unfoldable pub register_fusion_output :
      Uuid
      → FileCrypto
      → Uuid
      → Request RegisterFusionOutputRequest
      → Action c.Store ServiceError ExternalId
  register_fusion_output in_url crypto_info fresh request = do
    user_id ← get_request_user_id request.metadata
    let owner_list = (request.message).owner_list
    require (ltb 1 (Owners.length owner_list) && Owners.contains owner_list user_id)
        permission_denied
    output_file ← or_else data_error (create_fusion_data in_url crypto_info fresh owner_list)
    replace_err storage_failure (write_to_db k c (outputs k) output_file)
    pure (external_id (outputs k) output_file)

  unfoldable pub register_input_from_output :
      Request RegisterInputFromOutputRequest → Action c.Store ServiceError ExternalId
  register_input_from_output request = do
    user_id ← get_request_user_id request.metadata
    output ← replace_err permission_denied (read_from_db k c (outputs k) (request.message).data_id)
    require (Owners.contains output.owner user_id) permission_denied
    input ← or_else permission_denied (from_output output)
    replace_err storage_failure (write_to_db k c (inputs k) input)
    pure (external_id (inputs k) input)

  unfoldable pub get_output_file :
      Request GetOutputFileRequest → Action c.Store ServiceError GetOutputFileResponse
  get_output_file request = do
    user_id ← get_request_user_id request.metadata
    output_file ←
        replace_err permission_denied (read_from_db k c (outputs k) (request.message).data_id)
    require (Owners.contains output_file.owner user_id) permission_denied
    pure (record { owner = output_file.owner; cmac = output_file.cmac })

  unfoldable pub get_input_file :
      Request GetInputFileRequest → Action c.Store ServiceError GetInputFileResponse
  get_input_file request = do
    user_id ← get_request_user_id request.metadata
    input_file ←
        replace_err permission_denied (read_from_db k c (inputs k) (request.message).data_id)
    require (Owners.contains input_file.owner user_id) permission_denied
    pure (record { owner = input_file.owner; cmac = input_file.cmac })

  unfoldable pub register_function :
      Uuid → Request RegisterFunctionRequest → Action c.Store ServiceError ExternalId
  register_function fresh request = do
    user_id ← get_request_user_id request.metadata
    let function = function_of fresh user_id request.message
    replace_err storage_failure (write_to_db k c (functions k) function)
    pure (external_id (functions k) function)

  unfoldable pub get_function :
      Request GetFunctionRequest → Action c.Store ServiceError GetFunctionResponse
  get_function request = do
    user_id ← get_request_user_id request.metadata
    function ←
        replace_err permission_denied (read_from_db k c (functions k) (request.message).function_id)
    require (function.public || function.owner == user_id) permission_denied
    pure (record {
      name = function.name;
      description = function.description;
      owner = function.owner;
      executor_type = function.executor_type;
      payload = function.payload;
      public = function.public;
      arguments = function.arguments;
      inputs = function.inputs;
      outputs = function.outputs;
    })
