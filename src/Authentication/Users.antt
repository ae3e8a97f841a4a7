-- ===== src/Authentication/Users.antt =====
-- user_db.rs and user_info.rs of services/authentication/enclave/src. The database thread answers
-- every call: a broken channel is not modelled. The crates `ring` and `jsonwebtoken` are
-- parameters.
use incubator_mesatee.Base.{
  Text, utf8, ◌≡◌, Bool, true, none, some, Result, ok, err, ℕ, ◌≤◌, is_ok, if◌then◌else◌,
}
use incubator_mesatee.Storage.LevelDb.{LevelDb}
use incubator_mesatee.Types.Storage.{Json}

pub record UserInfo : Type 0 where
  pub id : Text
  pub salt : Text
  pub salted_password_hash : Text

pub record Claims : Type 0 where
  pub sub : Text
  pub iss : Text
  pub exp : ℕ

-- `jwt::Validation` with the two fields that the source sets
pub record Validation : Type 0 where
  pub iss : Text
  pub sub : Text

-- What the service takes from `ring::pbkdf2`, `jsonwebtoken` and `serde_json`: a derived hash is
-- verified; a token that is decoded has the issuer and the subject asked for and has not
-- expired; a token that was encoded under a secret and is so is decoded under that secret.
pub record Crates : Type 0 where
  pub derive : Text → Text → Text
  pub verify : Text → Text → Text → Bool
  pub encode : Claims → Text → Result Text Text
  pub decode : Text → Text → Validation → ℕ → Result Text Claims
  pub user_json : Json UserInfo
  pub verify-derive : (salt password : Text) → verify salt password (derive salt password) ≡ true
  pub decode-valid :
      (t secret : Text) (v : Validation) (now : ℕ) (c : Claims)
      → decode t secret v now ≡ ok c
      → (c.iss ≡ v.iss) × (c.sub ≡ v.sub) × (now ≤ c.exp)
  pub decode-encode :
      (c : Claims) (t secret : Text) (v : Validation) (now : ℕ)
      → encode c secret ≡ ok t
      → c.iss ≡ v.iss
      → c.sub ≡ v.sub
      → now ≤ c.exp
      → decode t secret v now ≡ ok c

pub data DbError : Type 0 where
  user_not_exist user_exist connection_error level_db_internal_error : DbError
  invalid_response invalid_request : DbError

abbrev pub issuer_name : Text
issuer_name = utf8 "Teaclave"

module _ (k : Crates) where
  -- `UserInfo::new`; `salt` is what the random generator fills in
  unfoldable pub new : Text → Text → Text → UserInfo
  new salt id password = record {
    id = id;
    salt = salt;
    salted_password_hash = k.derive salt password;
  }

  unfoldable pub verify_password : UserInfo → Text → Bool
  verify_password user password = k.verify user.salt password user.salted_password_hash

  unfoldable pub get_token : UserInfo → ℕ → Text → Result Text Text
  get_token user exp secret =
      k.encode (record { sub = user.id; iss = issuer_name; exp = exp }) secret

  -- `now` is the time at which the crate compares the expiry
  unfoldable pub validate_token : UserInfo → Text → Text → ℕ → Bool
  validate_token user secret token now =
      is_ok (k.decode token secret (record { iss = issuer_name; sub = user.id }) now)

module _ (k : Crates) (l : LevelDb) where
  -- `DbClient::get_user`, with the answer of the database thread
  unfoldable pub get_user : l.Db → Text → Result DbError UserInfo
  get_user database id = elim (l.get database id) [
    | none ↦ err user_not_exist
    | some value ↦ elim (k.user_json.from_slice value) [
      | err e ↦ err invalid_response
      | ok user ↦ ok user
    ]
  ]

  -- `DbClient::create_user`, with the answer of the database thread
  unfoldable pub create_user : UserInfo → l.Db → Result DbError (Unit {0}) × l.Db
  create_user user database = elim (k.user_json.to_vec user) [
    | err e ↦ (err invalid_request, database)
    | ok value ↦ elim (l.get database user.id) [
      | some old ↦ (err user_exist, database)
      | none ↦
          let (stored, d1) = l.put user.id value database in
          (if stored then ok tt else err level_db_internal_error, d1)
    ]
  ]
