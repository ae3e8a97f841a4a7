-- ===== src/Authentication/Login.antt =====
-- Registering, logging in and being authenticated.
use incubator_mesatee.Base.{
  Text, ◌==◌, ◌≡◌, refl, true, false, none, some, ok, ℕ, ◌+◌, ◌≤◌, arith, ◌⊎◌, inl, inr, text_cases,
  ◌∙◌, ap, Result-cases, is_some,
}
use incubator_mesatee.Authentication.Requests.{
  UserRegisterRequest, UserCredential, user_register, user_login, user_authenticate, is_empty,
}
use incubator_mesatee.Authentication.Users.{
  UserInfo, Claims, Validation, Crates, new, verify_password, get_token, validate_token, get_user,
  create_user, issuer_name,
}
use incubator_mesatee.Storage.LevelDb.{LevelDb}

module _ (k : Crates) (l : LevelDb) where
  create_user_ok :
      (u : UserInfo) (d : l.Db)
      → (create_user k l u d).0 ≡ ok tt
      → (l.get d u.id ≡ none) × (get_user k l (create_user k l u d).1 u.id ≡ ok u)
  unfolding create_user get_user
  create_user_ok u d h = elim (Result-cases (k.user_json.to_vec u)) [
    | inl (v, e) ↦ ground (arith, e, h, l.get-put_self u.id v d, k.user_json.from_slice-to_vec u e)
    | inr (x, e) ↦ absurd (ground (arith, e, h))
  ]

  user_register_ok :
      (salt : Text) (r : UserRegisterRequest) (d : l.Db)
      → (user_register k l salt r d).0 ≡ ok tt
      → (is_empty r.id ≡ false)
        × ((create_user k l (new k salt r.id r.password) d).0 ≡ ok tt)
        × ((user_register k l salt r d).1 ≡ (create_user k l (new k salt r.id r.password) d).1)
  unfolding user_register
  user_register_ok salt r d h = ground (arith, h)

  -- A registration that succeeds is for a non-empty name under which nothing was stored, and the
  -- user is then found with the salt and the hash of the password.
  pub user_register-get_user :
      (salt : Text) (r : UserRegisterRequest) (d : l.Db)
      → (user_register k l salt r d).0 ≡ ok tt
      → (is_empty r.id ≡ false)
        × (l.get d r.id ≡ none)
        × (get_user k l (user_register k l salt r d).1 r.id ≡ ok (new k salt r.id r.password))
  unfolding new
  user_register-get_user salt r d h =
      let (named, made, same) = user_register_ok salt r d h in
      let (free, found) = create_user_ok (new k salt r.id r.password) d made in
      (named, free, ap (λ x. get_user k l x r.id) same ∙ found)

  create_user-ne :
      (u : UserInfo) (d : l.Db) (j : Text)
      → (u.id == j) ≡ false
      → l.get (create_user k l u d).1 j ≡ l.get d j
  unfolding create_user
  create_user-ne u d j ne = elim (Result-cases (k.user_json.to_vec u)) [
    | inl (v, e) ↦ ground (arith, e, l.get-put_ne u.id v d j ne)
    | inr (x, e) ↦ ground (arith, e)
  ]

  create_user-taken :
      (u : UserInfo) (d : l.Db) → is_some (l.get d u.id) ≡ true → (create_user k l u d).1 ≡ d
  unfolding create_user
  create_user-taken u d old = ground (arith, old)

  create_user-others :
      (u : UserInfo) (d : l.Db) (j : Text)
      → ((u.id == j) ≡ false) ⊎ (is_some (l.get d j) ≡ true)
      → l.get (create_user k l u d).1 j ≡ l.get d j
  create_user-others u d j (inl ne) = create_user-ne u d j ne
  create_user-others u d j (inr old) = elim (text_cases u.id j) [
    | inr ne ↦ create_user-ne u d j ne
    | inl q ↦
        ap (λ x. l.get x j) (create_user-taken u d (ap (λ (i : Text). is_some (l.get d i)) q ∙ old))
  ]

  -- A registration, whether it succeeds or not, leaves every other user's record, and a record
  -- that is already stored under the name.
  pub user_register-others :
      (salt : Text) (r : UserRegisterRequest) (d : l.Db) (j : Text)
      → ((r.id == j) ≡ false) ⊎ (is_some (l.get d j) ≡ true)
      → l.get (user_register k l salt r d).1 j ≡ l.get d j
  unfolding user_register new
  user_register-others salt r d j o =
      ground (arith, create_user-others (new k salt r.id r.password) d j o)

  accepted :
      (now : ℕ) (secret : Text) (c : UserCredential) (d : l.Db)
      → user_authenticate k l now secret c d ≡ true
      → (u : UserInfo) × (get_user k l d c.id ≡ ok u)
        × (validate_token k u secret c.token now ≡ true)
  unfolding user_authenticate
  accepted now secret c d h = ground (arith, h)

  validate_token-claims :
      (u : UserInfo) (now : ℕ) (secret token : Text)
      → validate_token k u secret token now ≡ true
      → (claims : Claims) × (k.decode token secret (record { iss = issuer_name; sub = u.id }) now
          ≡ ok claims)
        × (claims.iss ≡ issuer_name)
        × (claims.sub ≡ u.id)
        × (now ≤ claims.exp)
  unfolding validate_token
  validate_token-claims u now secret token h =
      let v : Validation = record { iss = issuer_name; sub = u.id } in
      elim (Result-cases (k.decode token secret v now)) [
        | inl (claims, e) ↦
            let (i, b, x) = k.decode-valid token secret v now claims e in (claims, e, i, b, x)
        | inr (x, e) ↦ absurd (ground (arith, h, e))
      ]

  -- A credential is accepted only for a stored user, and only if its token decodes, under the
  -- service's secret, to claims of the service's issuer for that user that have not expired.
  pub user_authenticate-accept :
      (now : ℕ) (secret : Text) (c : UserCredential) (d : l.Db)
      → user_authenticate k l now secret c d ≡ true
      → (u : UserInfo) × (claims : Claims) × (get_user k l d c.id ≡ ok u)
        × (k.decode c.token secret (record { iss = issuer_name; sub = u.id }) now ≡ ok claims)
        × (claims.sub ≡ u.id)
        × (claims.iss ≡ issuer_name)
        × (now ≤ claims.exp)
  user_authenticate-accept now secret c d h =
      let (u, found, valid) = accepted now secret c d h in
      let (claims, decoded, i, s, e) = validate_token-claims u now secret c.token valid in
      (u, claims, found, decoded, s, i, e)

  -- Whoever has registered with a non-empty password can log in with it, if the crate encodes the
  -- token, and gets that token; a token that is not empty is then accepted for 1440 seconds.
  pub user_register-login-authenticate :
      (salt secret : Text) (r : UserRegisterRequest) (d : l.Db) (t now : ℕ) (token : Text)
      → (user_register k l salt r d).0 ≡ ok tt
      → is_empty r.password ≡ false
      → get_token k (new k salt r.id r.password) (t + 1440) secret ≡ ok token
      → is_empty token ≡ false
      → now ≤ t + 1440
      → (user_login k l
            (some t)
            secret
            (record { id = r.id; password = r.password })
            (user_register k l salt r d).1
          ≡ ok token)
        × (user_authenticate k l now secret
              (record { id = r.id; token = token })
              (user_register k l salt r d).1
            ≡ true)
  unfolding user_login user_authenticate verify_password validate_token get_token new
  user_register-login-authenticate salt secret r d t now token made filled enc full fresh =
      let (named, free, found) = user_register-get_user salt r d made in
      (
        ground (arith, found, named, filled, enc, k.verify-derive salt r.password),
        ground (
          arith,
          found,
          named,
          full,
          k.decode-encode (record { sub = r.id; iss = issuer_name; exp = t + 1440 }) token secret
              (record { iss = issuer_name; sub = r.id }) now enc refl refl fresh,
        ),
      )
