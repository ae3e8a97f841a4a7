-- ===== src/Frontend/Service.antt =====
-- `authenticate` and the macro `authentication_and_forward_to_management` of
-- services/frontend/enclave/src/service.rs. The lock of a client is never poisoned.
use incubator_mesatee.Authentication.Requests.{UserCredential}
use incubator_mesatee.Base.{
  Text, utf8, Bool, true, false, [], ◌∷◌, none, some, Result, ok, err, Action, pure, raise, lift,
  ◌>>=◌, ◌>>◌,
}
use incubator_mesatee.Base.HashMap.{HashMap, get, insert}
use incubator_mesatee.Management.Requests.{Request}
use incubator_mesatee.Types.Error.{ServiceError, request_error}

pub data FrontendError : Type 0 where
  authentication_error lock_error : FrontendError

-- `From<TeaclaveFrontendError> for TeaclaveServiceResponseError`
unfoldable pub response_error : FrontendError → ServiceError
response_error authentication_error = request_error (utf8 "authentication error")
response_error lock_error = request_error (utf8 "lock error")

-- The two services behind the frontend: what they keep, and the call of the authentication
-- service, which answers whether the credential is accepted.
pub record Backend : Type 1 where
  pub State : Type 0
  pub user_authenticate : UserCredential → Action State ServiceError Bool

-- `extend`, on a map that has each key once
unfoldable pub extend : HashMap Text → HashMap Text → HashMap Text
extend m [] = m
extend m ((k, v) ∷ entries) = insert (extend m entries) k v

-- `ok_or_else(|| anyhow!("Missing credential"))`
unfoldable pub credential_part : HashMap Text → Text → Result Text Text
credential_part metadata key = elim (get metadata key) [
  | none ↦ err (utf8 "Missing credential")
  | some value ↦ ok value
]

module _ (b : Backend) where
  -- the metadata of `management_client`, and the services
  pub record Frontend : Type 0 where
    pub metadata : HashMap Text
    pub services : b.State

  unfoldable pub on_services : {E A : Type 0} → Action b.State E A → Action Frontend E A
  on_services m f = let (r, s) = m f.services in (r, record { metadata = f.metadata; services = s })

  unfoldable pub set_metadata : HashMap Text → Action Frontend ServiceError (Unit {0})
  set_metadata metadata f = (ok tt, record { metadata = metadata; services = f.services })

  unfoldable pub get_metadata : Action Frontend ServiceError (HashMap Text)
  get_metadata f = (ok f.metadata, f)

  -- `authenticate`, whose answer the macro compares with `Ok(true)`
  unfoldable pub authenticate : HashMap Text → Action Frontend ServiceError Bool
  authenticate metadata = elim (credential_part metadata (utf8 "id")) [
    | err e ↦ pure false
    | ok id ↦ elim (credential_part metadata (utf8 "token")) [
      | err e ↦ pure false
      | ok token ↦ λ f.
          let (r, f') = on_services (b.user_authenticate (record { id = id; token = token })) f in
          (elim r [ ok accept ↦ ok accept | err e ↦ ok false ], f')
    ]
  ]

  unfoldable pub require_accept : Bool → Action Frontend ServiceError (Unit {0})
  require_accept true = pure tt
  require_accept false = raise (response_error authentication_error)

  unfoldable pub attempt :
      {A : Type 0}
      → Action Frontend ServiceError A
      → Action Frontend ServiceError (Result ServiceError A)
  attempt m f = let (r, f') = m f in (ok r, f')

  -- `func` is the call of the management service with the metadata of the client.
  unfoldable pub forward :
      {T A : Type 0}
      → (Request T → Action b.State ServiceError A)
      → Request T
      → Action Frontend ServiceError A
  forward func request = do
    accept ← authenticate request.metadata
    require_accept accept
    set_metadata []
    cleared ← get_metadata
    set_metadata (extend cleared request.metadata)
    sent ← get_metadata
    response ← attempt (on_services (func (record { metadata = sent; message = request.message })))
    set_metadata []
    lift response
