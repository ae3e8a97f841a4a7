-- ===== src/Authentication/Requests.antt =====
-- The requests of api_service.rs and internal_service.rs, and the errors of error.rs
-- (services/authentication/enclave/src).
use incubator_mesatee.Base.{
  Text, utf8, Bool, true, false, Result, ok, err, ℕ, ◌+◌, ◌*◌, [], ◌∷◌, if◌then◌else◌, ◌||◌, not,
  is_ok, Option, none, some,
}
use incubator_mesatee.Authentication.Users.{
  Crates, user_exist, new, verify_password, get_token, validate_token, get_user, create_user,
}
use incubator_mesatee.Storage.LevelDb.{LevelDb}
use incubator_mesatee.Types.Error.{ServiceError, request_error}

pub record UserRegisterRequest : Type 0 where
  pub id : Text
  pub password : Text

pub record UserLoginRequest : Type 0 where
  pub id : Text
  pub password : Text

pub record UserCredential : Type 0 where
  pub id : Text
  pub token : Text

pub data ApiError : Type 0 where
  permission_denied invalid_user_id invalid_password service_unavailable : ApiError

-- `From<TeaclaveAuthenticationApiError> for TeaclaveServiceResponseError`
unfoldable pub response_error : ApiError → ServiceError
response_error permission_denied = request_error (utf8 "permission denied")
response_error invalid_user_id = request_error (utf8 "invalid userid")
response_error invalid_password = request_error (utf8 "invalid password")
response_error service_unavailable = request_error (utf8 "service unavailable")

-- `is_empty`
abbrev pub is_empty : Text → Bool
is_empty [] = true
is_empty (c ∷ s) = false

module _ (k : Crates) (l : LevelDb) where
  -- `salt` is what `UserInfo::new` draws
  unfoldable pub user_register :
      Text → UserRegisterRequest → l.Db → Result ServiceError (Unit {0}) × l.Db
  user_register salt request database =
      if is_empty request.id
      then (err (response_error invalid_user_id), database)
      else if is_ok (get_user k l database request.id)
      then (err (response_error invalid_user_id), database)
      else (let (answer, d1) = create_user k l (new k salt request.id request.password) database in
          (
            elim answer [
              | ok _ ↦ ok tt
              | err user_exist ↦ err (response_error invalid_user_id)
              | err _ ↦ err (response_error service_unavailable)
            ],
            d1,
          ))

  -- `now` is the system time in seconds, or `none` when it is before the epoch
  unfoldable pub user_login : Option ℕ → Text → UserLoginRequest → l.Db → Result ServiceError Text
  user_login now jwt_secret request database =
      if is_empty request.id
      then err (response_error invalid_user_id)
      else if is_empty request.password
      then err (response_error invalid_password)
      else elim (get_user k l database request.id) [
        | err _ ↦ err (response_error permission_denied)
        | ok user ↦
            if not (verify_password k user request.password)
            then err (response_error permission_denied)
            else elim now [
              | none ↦ err (response_error service_unavailable)
              | some t ↦ elim (get_token k user (t + 24 * 60) jwt_secret) [
                | ok token ↦ ok token
                | err _ ↦ err (response_error service_unavailable)
              ]
            ]
      ]

  -- whether the credential is accepted
  unfoldable pub user_authenticate : ℕ → Text → UserCredential → l.Db → Bool
  user_authenticate now jwt_secret credential database =
      if is_empty credential.id || is_empty credential.token
      then false
      else elim (get_user k l database credential.id) [
        | err _ ↦ false
        | ok user ↦ validate_token k user jwt_secret credential.token now
      ]
