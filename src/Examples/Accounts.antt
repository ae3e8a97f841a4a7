-- ===== src/Examples/Accounts.antt =====
-- Stand-ins for the crates of the authentication service, and a user who registers.
use incubator_mesatee.Authentication.Requests.{
  UserRegisterRequest, UserLoginRequest, UserCredential, user_register, user_login,
  user_authenticate, is_empty,
}
use incubator_mesatee.Authentication.Users.{
  UserInfo, Claims, Validation, Crates, new, verify_password, get_token, validate_token, get_user,
  create_user, issuer_name,
}
use incubator_mesatee.Authentication.Login.{
  user_register-get_user, user_register-others, user_authenticate-accept,
  user_register-login-authenticate,
}
use incubator_mesatee.Base.{
  Text, utf8, ◌==◌, ==_iff, ==_refl, ◌≡◌, refl, Bool, true, false, none, some, Result, ok, err, ℕ,
  ◌≤◌, ◌+◌, [], arith, leb, ◌&&◌, if◌then◌else◌, inl,
}
use incubator_mesatee.Base.HashMap
use incubator_mesatee.Base.HashMap.{HashMap}
use incubator_mesatee.Examples.Codec
use incubator_mesatee.Examples.Codec.{Codec, both, via, text, nat, json}
use incubator_mesatee.Examples.World.{memory, alice, bob}

abbrev user_info : Codec UserInfo
user_info =
    via (both text (both text text)) (λ r. (r.id, (r.salt, r.salted_password_hash)))
      (λ p. some (record { id = p.0; salt = p.1.0; salted_password_hash = p.1.1 })) (λ r. refl)

-- a token carries its secret
abbrev signed : Codec (Text × Claims)
signed =
    via (both text (both text (both text nat))) (λ r. (r.0, (r.1.sub, (r.1.iss, r.1.exp))))
      (λ p. some (p.0, record { sub = p.1.0; iss = p.1.1.0; exp = p.1.1.1 })) (λ r. refl)

abbrev valid : Text → Validation → ℕ → Text × Claims → Bool
valid secret v now p = p.0 == secret && (p.1.iss == v.iss && (p.1.sub == v.sub && leb now p.1.exp))

abbrev encode : Claims → Text → Result Text Text
encode c secret = ok (signed.enc (secret, c) [])

unfoldable pub decode : Text → Text → Validation → ℕ → Result Text Claims
decode t secret v now = elim (signed.dec t) [
  | none ↦ err (utf8 "malformed")
  | some (p, rest) ↦ if valid secret v now p then ok p.1 else err (utf8 "invalid")
]

pub decode-valid :
    (t secret : Text) (v : Validation) (now : ℕ) (c : Claims)
    → decode t secret v now ≡ ok c
    → (c.iss ≡ v.iss) × (c.sub ≡ v.sub) × (now ≤ c.exp)
unfolding decode
decode-valid t secret v now c h = ground (arith, h, ==_iff c.iss v.iss, ==_iff c.sub v.sub)

pub decode-encode :
    (c : Claims) (t secret : Text) (v : Validation) (now : ℕ)
    → encode c secret ≡ ok t
    → c.iss ≡ v.iss
    → c.sub ≡ v.sub
    → now ≤ c.exp
    → decode t secret v now ≡ ok c
unfolding decode
decode-encode c t secret v now e i s f = ground (
  arith,
  e,
  signed.dec-enc (secret, c) [],
  ==_iff c.iss v.iss,
  ==_iff c.sub v.sub,
  ==_refl secret,
)

pub verify-derive : (salt password : Text) → (password == password) ≡ true
verify-derive salt password = ==_refl password

abbrev pub accounts : Crates
accounts = record {
  derive = λ salt password. password;
  verify = λ salt password hash. password == hash;
  encode = encode;
  decode = decode;
  user_json = json user_info;
  verify-derive = verify-derive;
  decode-valid = decode-valid;
  decode-encode = decode-encode;
}

abbrev registration : UserRegisterRequest
registration = record { id = alice; password = utf8 "pass" }

abbrev pub secret : Text
secret = utf8 "secret"

abbrev salt : Text
salt = utf8 "salt"

abbrev login : UserLoginRequest
login = record { id = alice; password = utf8 "pass" }

abbrev pub token : Text
token = signed.enc (secret, record { sub = alice; iss = issuer_name; exp = 1540 }) []

abbrev pub with_alice : HashMap Text
with_alice = (user_register accounts memory salt registration []).1

abbrev credential : UserCredential
credential = record { id = alice; token = token }

pub record Steps : Type 0 where
  pub registers : (user_register accounts memory salt registration []).0 ≡ ok tt
  pub signs :
      get_token accounts (new accounts salt alice (utf8 "pass")) (100 + 1440) secret ≡ ok token
  pub logs_in : user_login accounts memory (some 100) secret login with_alice ≡ ok token
  pub accepts : user_authenticate accounts memory 200 secret credential with_alice ≡ true
  pub full : is_empty token ≡ false

pub steps : Steps
unfolding user_register user_login user_authenticate new verify_password get_token validate_token
    get_user create_user decode HashMap.get HashMap.insert Codec.both_dec Codec.via_dec
    Codec.items_enc Codec.items_dec Codec.from_text ◌==◌
steps = record { registers = refl; signs = refl; logs_in = refl; accepts = refl; full = refl }

user_register-get_user_example :
    (is_empty alice ≡ false)
    × (HashMap.get {V = Text} [] alice ≡ none)
    × (get_user accounts memory with_alice alice ≡ ok (new accounts salt alice (utf8 "pass")))
user_register-get_user_example =
    user_register-get_user accounts memory salt registration [] steps.registers

user_register-others_example :
    HashMap.get (user_register accounts memory salt registration with_alice).1 bob
    ≡ HashMap.get with_alice bob
unfolding ◌==◌
user_register-others_example =
    user_register-others accounts memory salt registration with_alice bob (inl refl)

user_authenticate-accept_example :
    (u : UserInfo) × (claims : Claims) × (get_user accounts memory with_alice alice ≡ ok u)
    × (accounts.decode token secret (record { iss = issuer_name; sub = u.id }) 200 ≡ ok claims)
    × (claims.sub ≡ u.id)
    × (claims.iss ≡ issuer_name)
    × (200 ≤ claims.exp)
user_authenticate-accept_example =
    user_authenticate-accept accounts memory 200 secret credential with_alice steps.accepts

user_register-login-authenticate_example :
    (user_login accounts memory (some 100) secret login with_alice ≡ ok token)
    × (user_authenticate accounts memory 200 secret credential with_alice ≡ true)
user_register-login-authenticate_example =
    user_register-login-authenticate accounts memory salt secret registration [] 100 200 token
      steps.registers refl steps.signs steps.full (omega arith)
