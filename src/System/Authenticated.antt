-- ===== src/System/Authenticated.antt =====
-- Requests that come through the frontend (services/frontend, services/authentication and
-- services/management together).
use incubator_mesatee.Authentication.Login.{user_authenticate-accept}
use incubator_mesatee.Authentication.Requests.{UserCredential, user_authenticate}
use incubator_mesatee.Authentication.Users
use incubator_mesatee.Authentication.Users.{UserInfo, Claims, get_user, issuer_name}
use incubator_mesatee.Base.{
  Text, utf8, ◌≡◌, true, ok, some, ℕ, ◌≤◌, subst, arith, Option-cases, inl, inr, pure, Action,
}
use incubator_mesatee.Base.HashMap.{get}
use incubator_mesatee.Frontend.Forwarding.{sent, forward-ok, after_check}
use incubator_mesatee.Frontend.Requests.{services, on_store, invoke_task}
use incubator_mesatee.Frontend.Service.{Frontend, authenticate, credential_part, on_services}
use incubator_mesatee.Management.Db
use incubator_mesatee.Management.Requests.{Request, InvokeTaskRequest}
use incubator_mesatee.Management.Tasks
use incubator_mesatee.Storage.Client.{StorageClient}
use incubator_mesatee.Storage.LevelDb.{LevelDb}
use incubator_mesatee.System.Step.{IsSound, Holds, task_key}
use incubator_mesatee.System.TaskAnswers.{invoke_task-ok}
use incubator_mesatee.Types.Error.{ServiceError}
use incubator_mesatee.Types.Storage.{to_bytes}
use incubator_mesatee.Types.TaskState.{TaskState, has_creator, all_data_assigned, everyone_approved}

module _ (a : Users.Crates) (l : LevelDb) (k : Db.Crates) (c : StorageClient) (now : ℕ)
    (jwt_secret : Text) where
  -- The check of a credential changes neither database.
  after_check-kept :
      (request : Request InvokeTaskRequest) (f : Frontend (services a l k c now jwt_secret))
      → (after_check (services a l k c now jwt_secret) request f).services ≡ f.services
  unfolding authenticate credential_part on_services pure
  after_check-kept request f = elim (Option-cases (get request.metadata (utf8 "id"))) [
    | inl e ↦ ground (arith, e)
    | inr (id, e) ↦ elim (Option-cases (get request.metadata (utf8 "token"))) [
      | inl g ↦ ground (arith, e, g)
      | inr (token, g) ↦ ground (arith, e, g)
    ]
  ]

  -- If a task is invoked through the frontend, then the name in the request is that of a stored
  -- user, and the token in the request decodes, under the service's secret, to claims of the
  -- service's issuer for that user that have not expired. This user created the task, whose data
  -- is assigned and which every participant has approved, unless its creator is alone.
  pub invoke_task-authenticated :
      (request : Request InvokeTaskRequest) (f : Frontend (services a l k c now jwt_secret))
      → IsSound k c (f.services).1
      → (invoke_task a l k c now jwt_secret request f).0 ≡ ok tt
      → (id token : Text) × (u : UserInfo) × (claims : Claims) × (ts : TaskState) × (get
            request.metadata
            (utf8 "id")
          ≡ some id)
        × (get request.metadata (utf8 "token") ≡ some token)
        × (get_user a l (f.services).0 id ≡ ok u)
        × (a.decode token jwt_secret (record { iss = issuer_name; sub = u.id }) now ≡ ok claims)
        × (claims.sub ≡ u.id)
        × (claims.iss ≡ issuer_name)
        × (now ≤ claims.exp)
        × Holds k c (f.services).1 ts
        × (task_key k c ts ≡ to_bytes k.show_uuid (request.message).task_id)
        × (has_creator ts id ≡ true)
        × (all_data_assigned ts ≡ true)
        × (everyone_approved ts ≡ true)
  unfolding invoke_task on_store
  invoke_task-authenticated request f sound h =
      let b = services a l k c now jwt_secret in
      let func : Request InvokeTaskRequest → Action b.State ServiceError (Unit {0}) =
        λ r. on_store a l k c now jwt_secret (Tasks.invoke_task k c r) in
      let (accept, named, answer, same, meta) = forward-ok b func request f tt h in
      let done : (Tasks.invoke_task k c (sent request) (f.services).1).0 ≡ ok tt =
        subst (λ s. (Tasks.invoke_task k c (sent request) s.1).0 ≡ ok tt)
          (after_check-kept request f) answer in
      let (user, ts, id, held, key, own, ready, all, function, stored) =
        invoke_task-ok k c (f.services).1 (sent request) sound done in
      let who : user ≡ accept.id = ground (arith, id, named) in
      let credential : UserCredential = record { id = accept.id; token = accept.token } in
      let valid : user_authenticate a l now jwt_secret credential (f.services).0 ≡ true =
        ground (arith, accept.accepted) in
      let (u, claims, found, decoded, sub, iss, fresh) =
        user_authenticate-accept a l now jwt_secret credential (f.services).0 valid in
      (
        accept.id,
        accept.token,
        u,
        claims,
        ts,
        accept.named,
        accept.shown,
        found,
        decoded,
        sub,
        iss,
        fresh,
        held,
        key,
        subst (λ x. has_creator ts x ≡ true) who own,
        ready,
        all,
      )
