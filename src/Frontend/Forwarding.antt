-- ===== src/Frontend/Forwarding.antt =====
-- What the management service is asked, and for whom.
use incubator_mesatee.Base.{
  Text, utf8, ◌≡◌, refl, true, false, [], ◌∷◌, some, Option-cases, ok, err, Result-cases,
  Bool-cases, inl, inr, Action, pure, raise, lift, ◌>>=◌, arith, ap, ◌∙◌,
}
use incubator_mesatee.Base.HashMap.{HashMap, get, get-insert}
use incubator_mesatee.Frontend.Service.{
  Backend, Frontend, response_error, authentication_error, extend, credential_part, on_services,
  set_metadata, get_metadata, authenticate, require_accept, attempt, forward,
}
use incubator_mesatee.Management.Requests.{Request}
use incubator_mesatee.Types.Error.{ServiceError}

get-extend : (m : HashMap Text) (k : Text) → get (extend [] m) k ≡ get m k
unfolding extend get
get-extend [] k = refl
get-extend ((i, v) ∷ m) k = ground (arith, get-extend m k, get-insert (extend [] m) i v k)

-- the request that the management service is sent
abbrev pub sent : {T : Type 0} → Request T → Request T
sent request = record { metadata = extend [] request.metadata; message = request.message }

module _ (b : Backend) {T : Type 0} where
  -- what a request is authenticated by
  pub record Accepted (request : Request T) (s : b.State) : Type 0 where
    pub id : Text
    pub token : Text
    pub named : get request.metadata (utf8 "id") ≡ some id
    pub shown : get request.metadata (utf8 "token") ≡ some token
    pub accepted : (b.user_authenticate (record { id = id; token = token }) s).0 ≡ ok true

  abbrev pub after_check : Request T → Frontend b → Frontend b
  after_check request f = (authenticate b request.metadata f).1

  authenticate-Accepted :
      (request : Request T) (f : Frontend b)
      → (authenticate b request.metadata f).0 ≡ ok true
      → Accepted request f.services
  unfolding authenticate credential_part on_services pure
  authenticate-Accepted request f h = elim (Option-cases (get request.metadata (utf8 "id"))) [
    | inl e ↦ absurd (ground (arith, h, e))
    | inr (id, e) ↦ elim (Option-cases (get request.metadata (utf8 "token"))) [
      | inl g ↦ absurd (ground (arith, h, e, g))
      | inr (token, g) ↦
          let answer = (b.user_authenticate (record { id = id; token = token }) f.services).0 in
          elim (Result-cases answer) [
            | inl (accepts, q) ↦ record {
              id = id;
              token = token;
              named = e;
              shown = g;
              accepted = ground (arith, h, e, g, q);
            }
            | inr (x, q) ↦ absurd (ground (arith, h, e, g, q))
          ]
    ]
  ]

module _ (b : Backend) {T A : Type 0} (func : Request T → Action b.State ServiceError A) where
  forward-parts :
      (request : Request T) (f : Frontend b) (a : A)
      → (forward b func request f).0 ≡ ok a
      → ((authenticate b request.metadata f).0 ≡ ok true)
        × ((func (sent request) (after_check b request f).services).0 ≡ ok a)
        × ((forward b func request f).1 ≡ record {
          metadata = [];
          services = (func (sent request) (after_check b request f).services).1;
        })
  unfolding forward require_accept set_metadata get_metadata attempt on_services ◌>>=◌ pure raise
      lift
  forward-parts request f a h = elim (Result-cases (authenticate b request.metadata f).0) [
    | inr (x, e) ↦ absurd (ground (arith, h, e))
    | inl (accepts, e) ↦ elim (Bool-cases accepts) [
      | inr n ↦ absurd (ground (arith, h, e, n))
      | inl y ↦ ground (arith, h, e, y)
    ]
  ]

  -- A request that succeeds came with the name and the token of a user whom the authentication
  -- service accepted; the management service was asked with that name, and its answer is the
  -- answer. No metadata stays behind for the next request.
  pub forward-ok :
      (request : Request T) (f : Frontend b) (a : A)
      → (forward b func request f).0 ≡ ok a
      → (c : Accepted b request f.services) × (get (sent request).metadata (utf8 "id") ≡ some c.id)
        × ((func (sent request) (after_check b request f).services).0 ≡ ok a)
        × (((forward b func request f).1).services
            ≡ (func (sent request) (after_check b request f).services).1)
        × (((forward b func request f).1).metadata ≡ [])
  forward-ok request f a h =
      let (accepts, answer, last) = forward-parts request f a h in
      let c = authenticate-Accepted b request f accepts in
      (
        c,
        get-extend request.metadata (utf8 "id") ∙ c.named,
        answer,
        ap (λ (x : Frontend b). x.services) last,
        ap (λ (x : Frontend b). x.metadata) last,
      )

  -- A request whose credential is not accepted is refused, and the management service is not
  -- asked.
  forward-refused :
      (request : Request T) (f : Frontend b)
      → (authenticate b request.metadata f).0 ≡ ok false
      → forward b func request f
        ≡ (err (response_error authentication_error), after_check b request f)
  unfolding forward require_accept ◌>>=◌ raise
  forward-refused request f h = ground (arith, h)
