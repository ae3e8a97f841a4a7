-- ===== src/Frontend/Requests.antt =====
-- The fifteen requests of `impl TeaclaveFrontend` in services/frontend/enclave/src/service.rs, over
-- the authentication service and the management service. What a request draws at random in the
-- management service is an argument.
use incubator_mesatee.Authentication.Requests.{user_authenticate}
use incubator_mesatee.Authentication.Users
use incubator_mesatee.Base.{Text, ℕ, Action, ok}
use incubator_mesatee.Frontend.Service.{Backend, Frontend, forward}
use incubator_mesatee.Management.Db
use incubator_mesatee.Management.Files
use incubator_mesatee.Management.Requests.{
  ApproveTaskRequest, AssignDataRequest, CreateTaskRequest, GetFunctionRequest, GetFunctionResponse,
  GetInputFileRequest, GetInputFileResponse, GetOutputFileRequest, GetOutputFileResponse,
  GetTaskRequest, GetTaskResponse, InvokeTaskRequest, RegisterFunctionRequest,
  RegisterFusionOutputRequest, RegisterInputFileRequest, RegisterInputFromOutputRequest,
  RegisterOutputFileRequest, Request, UpdateInputFileRequest, UpdateOutputFileRequest,
}
use incubator_mesatee.Management.Tasks
use incubator_mesatee.Storage.Client.{StorageClient}
use incubator_mesatee.Storage.LevelDb.{LevelDb}
use incubator_mesatee.Types.Crypto.{FileCrypto}
use incubator_mesatee.Types.Error.{ServiceError}
use incubator_mesatee.Types.Storage.{Uuid, ExternalId}

module _ (a : Users.Crates) (l : LevelDb) (k : Db.Crates) (c : StorageClient) (now : ℕ)
    (jwt_secret : Text) where
  -- the users' database and the store
  abbrev pub services : Backend
  services = record {
    State = l.Db × c.Store;
    user_authenticate =
        λ credential s. (ok (user_authenticate a l now jwt_secret credential s.0), s);
  }

  -- a call of the management service
  unfoldable pub on_store :
      {A : Type 0} → Action c.Store ServiceError A → Action (l.Db × c.Store) ServiceError A
  on_store m (d, s) = let (r, s') = m s in (r, (d, s'))

  unfoldable pub register_input_file :
      Uuid → Request RegisterInputFileRequest → Action (Frontend services) ServiceError ExternalId
  register_input_file fresh =
      forward services (λ r. on_store (Files.register_input_file k c fresh r))

  unfoldable pub update_input_file :
      Uuid → Request UpdateInputFileRequest → Action (Frontend services) ServiceError ExternalId
  update_input_file fresh = forward services (λ r. on_store (Files.update_input_file k c fresh r))

  unfoldable pub register_output_file :
      Uuid → Request RegisterOutputFileRequest → Action (Frontend services) ServiceError ExternalId
  register_output_file fresh =
      forward services (λ r. on_store (Files.register_output_file k c fresh r))

  unfoldable pub update_output_file :
      Uuid → Request UpdateOutputFileRequest → Action (Frontend services) ServiceError ExternalId
  update_output_file fresh = forward services (λ r. on_store (Files.update_output_file k c fresh r))

  unfoldable pub register_fusion_output :
      Uuid
      → FileCrypto
      → Uuid
      → Request RegisterFusionOutputRequest
      → Action (Frontend services) ServiceError ExternalId
  register_fusion_output in_url crypto_info fresh =
      forward services (λ r. on_store (Files.register_fusion_output k c in_url crypto_info fresh r))

  unfoldable pub register_input_from_output :
      Request RegisterInputFromOutputRequest → Action (Frontend services) ServiceError ExternalId
  register_input_from_output =
      forward services (λ r. on_store (Files.register_input_from_output k c r))

  unfoldable pub get_output_file :
      Request GetOutputFileRequest → Action (Frontend services) ServiceError GetOutputFileResponse
  get_output_file = forward services (λ r. on_store (Files.get_output_file k c r))

  unfoldable pub get_input_file :
      Request GetInputFileRequest → Action (Frontend services) ServiceError GetInputFileResponse
  get_input_file = forward services (λ r. on_store (Files.get_input_file k c r))

  unfoldable pub register_function :
      Uuid → Request RegisterFunctionRequest → Action (Frontend services) ServiceError ExternalId
  register_function fresh = forward services (λ r. on_store (Files.register_function k c fresh r))

  unfoldable pub get_function :
      Request GetFunctionRequest → Action (Frontend services) ServiceError GetFunctionResponse
  get_function = forward services (λ r. on_store (Files.get_function k c r))

  unfoldable pub create_task :
      Uuid → Request CreateTaskRequest → Action (Frontend services) ServiceError ExternalId
  create_task fresh = forward services (λ r. on_store (Tasks.create_task k c fresh r))

  unfoldable pub get_task :
      Request GetTaskRequest → Action (Frontend services) ServiceError GetTaskResponse
  get_task = forward services (λ r. on_store (Tasks.get_task k c r))

  unfoldable pub assign_data :
      Request AssignDataRequest → Action (Frontend services) ServiceError (Unit {0})
  assign_data = forward services (λ r. on_store (Tasks.assign_data k c r))

  unfoldable pub approve_task :
      Request ApproveTaskRequest → Action (Frontend services) ServiceError (Unit {0})
  approve_task = forward services (λ r. on_store (Tasks.approve_task k c r))

  unfoldable pub invoke_task :
      Request InvokeTaskRequest → Action (Frontend services) ServiceError (Unit {0})
  invoke_task = forward services (λ r. on_store (Tasks.invoke_task k c r))
