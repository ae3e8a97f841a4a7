-- ===== src/System/Access.antt =====
-- What the reads and the writes of the services (services/management/enclave/src/service.rs and
-- services/scheduler/enclave/src/service.rs) find and leave.
use incubator_mesatee.Base.{
  Text, utf8, starts_with, ◌≡◌, refl, true, false, some, ok, err, ◌∙◌, ap, arith, [], ◌∷◌, ◌++◌,
  Action, Bool, pure, lift, map_err, ◌>>=◌, inl, inr, Result-cases, Result,
}
use incubator_mesatee.Base.HashMap
use incubator_mesatee.Base.HashMap.{HashMap}
use incubator_mesatee.Base.Reads.{
  Reads, Reads-ensure, Reads-lift, Reads-map_err, Reads-bind, ends_bind,
}
use incubator_mesatee.Management.Db.{
  Crates, tasks, read_from_db, write_to_db, replace_err, or_else, get_request_user_id, require,
}
use incubator_mesatee.Management.Requests.{ManagementError}
use incubator_mesatee.Storage.Client.{StorageClient}
use incubator_mesatee.System.Step.{
  is_task_key, queue_key-ne, task_key-is_task_key, task_key, Holds, IsSound, other_key, born, moved,
  Steps, Steps-trans, here, next,
}
use incubator_mesatee.Types.Error.{ServiceError, display}
use incubator_mesatee.Types.Moves.{Moves}
use incubator_mesatee.Types.Owners.{UserId}
use incubator_mesatee.Types.Storage.{
  Uuid, ExternalId, Storable, storage_key, match_prefix, to_bytes,
}
use incubator_mesatee.Types.Task.{created}
use incubator_mesatee.Types.TaskState.{TaskState}
use incubator_mesatee.Types.WellFormed.{IsWellFormed}

starts_with-longer : (a b p : Text) → starts_with a p ≡ true → starts_with (a ++ b) p ≡ true
unfolding starts_with
starts_with-longer a b [] h = refl
starts_with-longer [] b (x ∷ p) h = ground arith
starts_with-longer (y ∷ a) b (x ∷ p) h = ground (arith, starts_with-longer a b p)

module _ {S : Type 0} {s : S} where
  pub Reads-or_else :
      {E A : Type 0} (e : ManagementError) (r : Result E A) → Reads s (or_else e r) (λ a. r ≡ ok a)
  unfolding or_else
  Reads-or_else e (ok a) = record { kept = refl; found = λ b h. cc h }
  Reads-or_else e (err x) = record { kept = refl; found = λ b h. cc h }

  pub Reads-get_request_user_id :
      (meta : HashMap Text)
      → Reads s (get_request_user_id meta) (λ u. HashMap.get meta (utf8 "id") ≡ some u)
  unfolding get_request_user_id
  Reads-get_request_user_id meta = record { kept = ground arith; found = λ u h. ground arith }

module _ (k : Crates) (c : StorageClient) (s : c.Store) where
  Reads-get : (key : Text) → Reads s (c.get key) (λ v. c.view s key ≡ some v)
  Reads-get key = record { kept = c.store-get key s; found = c.get-view key s }

  -- what a read returns was stored under the key asked for, which has the right prefix
  pub Reads-read_from_db :
      {A : Type 0} (st : Storable A) (e : ExternalId)
      → Reads s (read_from_db k c st e) (λ a.
        (match_prefix st e.prefix ≡ true)
        × ((v : Text) × (c.view s (to_bytes k.show_uuid e) ≡ some v)
            × (st.json.from_slice v ≡ ok a)))
  unfolding read_from_db
  Reads-read_from_db st e = Reads-bind _ _ (Reads-ensure (match_prefix st e.prefix) _) λ _ m.
      Reads-bind _ _ (Reads-map_err display _ (Reads-get (to_bytes k.show_uuid e))) λ v f.
        let r = Reads-lift {s = s} (st.json.from_slice v) in
        record { kept = r.kept; found = λ a h. (m, (v, f, r.found a h)) }

  -- a task that is read is one that the store holds, and it is well formed
  pub Reads-read_task :
      (e : ExternalId)
      → IsSound k c s
      → Reads s
          (read_from_db k c (tasks k) e)
          (λ ts. Holds k c s ts × IsWellFormed ts × (task_key k c ts ≡ to_bytes k.show_uuid e))
  unfolding match_prefix to_bytes
  Reads-read_task e h =
      let r = Reads-read_from_db (tasks k) e in
      record {
        kept = r.kept;
        found = λ ts q.
            let (m, (v, f, d)) = r.found ts q in
            let (w, p) =
              h.at (to_bytes k.show_uuid e) v ts (starts_with-longer e.prefix _ _ m) f d in
            (record { bytes = v; stored = ap (λ (i : Text). c.view s i) p ∙ f; decoded = d }, w, p);
      }

  -- the last call of a request, whose error is replaced
  pub write_last :
      {S E A : Type 0} (e : ManagementError) (act : Action S E A) (s : S)
      → (replace_err e act s).1 ≡ (act s).1
  unfolding map_err
  write_last e act s = ground arith

  -- a task that the store holds is still there after something is put into the task queue
  pub Holds-enqueue :
      (q v : Text) (ts : TaskState) → Holds k c s ts → Holds k c (c.enqueue q v s).1 ts
  Holds-enqueue q v ts h = record {
    bytes = h.bytes;
    stored =
        c.view-enqueue q v s (task_key k c ts)
          (queue_key-ne (task_key k c ts) (task_key-is_task_key k c ts))
        ∙ h.stored;
    decoded = h.decoded;
  }

module _ (k : Crates) (c : StorageClient) {P : Uuid → Type 0} (s : c.Store) where
  pub write_other :
      {A : Type 0} (st : Storable A) (a : A)
      → is_task_key (storage_key st k.show_uuid a) ≡ false
      → Steps k c P s (write_to_db k c st a s).1
  unfolding write_to_db ◌>>=◌ lift map_err
  write_other st a o = elim (Result-cases (st.json.to_vec a)) [
    | inl (v, e) ↦ rw e (next here (other_key _ v o))
    | inr (x, e) ↦ rw e here
  ]

  pub write_moved :
      (ts ts' : TaskState)
      → Holds k c s ts
      → Moves ts ts'
      → Steps k c P s (write_to_db k c (tasks k) ts' s).1
  unfolding write_to_db ◌>>=◌ lift map_err
  write_moved ts ts' held m = elim (Result-cases (k.task_json.to_vec ts')) [
    | inl (v, e) ↦ rw e (next here (moved ts ts' v held m e))
    | inr (x, e) ↦ rw e here
  ]

  pub write_born :
      (ts : TaskState)
      → ts.status ≡ created
      → IsWellFormed ts
      → P ts.task_id
      → Steps k c P s (write_to_db k c (tasks k) ts s).1
  unfolding write_to_db ◌>>=◌ lift map_err
  write_born ts fresh w drawn = elim (Result-cases (k.task_json.to_vec ts)) [
    | inl (v, e) ↦ rw e (next here (born ts v fresh w drawn e))
    | inr (x, e) ↦ rw e here
  ]

  -- a request goes on from the user, a read, a test or a result, or stops and leaves the store
  module _ {B : Type 0} where
    pub ends_user :
        (meta : HashMap Text) (f : UserId → Action c.Store ServiceError B)
        → ((u : UserId) → HashMap.get meta (utf8 "id") ≡ some u → Steps k c P s (f u s).1)
        → Steps k c P s ((get_request_user_id meta >>= f) s).1
    ends_user meta f p = ends_bind (Steps k c P s) _ f (Reads-get_request_user_id meta) here p

    pub ends_read :
        {A : Type 0} (st : Storable A) (e : ExternalId) (x : ManagementError)
        (f : A → Action c.Store ServiceError B)
        → ((a : A) → Steps k c P s (f a s).1)
        → Steps k c P s ((replace_err x (read_from_db k c st e) >>= f) s).1
    ends_read st e x f p =
        ends_bind (Steps k c P s) _ f (Reads-map_err _ _ (Reads-read_from_db k c s st e)) here
          (λ a _. p a)

    pub ends_read_task :
        (e : ExternalId) (x : ManagementError) (f : TaskState → Action c.Store ServiceError B)
        → IsSound k c s
        → ((ts : TaskState) → Holds k c s ts → IsWellFormed ts → Steps k c P s (f ts s).1)
        → Steps k c P s ((replace_err x (read_from_db k c (tasks k) e) >>= f) s).1
    ends_read_task e x f h p =
        ends_bind (Steps k c P s) _ f (Reads-map_err _ _ (Reads-read_task k c s e h)) here
          (λ ts q. p ts q.0 q.1)

    pub ends_require :
        (b : Bool) (x : ManagementError) (f : Unit {0} → Action c.Store ServiceError B)
        → (b ≡ true → Steps k c P s (f tt s).1)
        → Steps k c P s ((require b x >>= f) s).1
    ends_require b x f p = ends_bind (Steps k c P s) _ f (Reads-ensure b _) here (λ _ e. p e)

    pub ends_or_else :
        {E A : Type 0} (x : ManagementError) (r : Result E A)
        (f : A → Action c.Store ServiceError B)
        → ((a : A) → r ≡ ok a → Steps k c P s (f a s).1)
        → Steps k c P s ((or_else x r >>= f) s).1
    ends_or_else x r f p = ends_bind (Steps k c P s) _ f (Reads-or_else x r) here p

    -- a request that ends in one write
    pub ends_write :
        {A : Type 0} (st : Storable A) (a : A) (e : ManagementError) (b : B)
        → Steps k c P s (write_to_db k c st a s).1
        → Steps k c P s ((replace_err e (write_to_db k c st a) >>= λ _. pure b) s).1
    unfolding ◌>>=◌ map_err write_to_db lift pure
    ends_write st a e b p = elim (Result-cases (write_to_db k c st a s).0) [
      | inl (v, q) ↦ rw q p
      | inr (x, q) ↦ rw q p
    ]

  -- steps of a call, then steps of what follows
  pub Steps-bind :
      {E A B : Type 0} (m : Action c.Store E A) (f : A → Action c.Store E B)
      → Steps k c P s (m s).1
      → ((a : A) → Steps k c P (m s).1 (f a (m s).1).1)
      → Steps k c P s ((m >>= f) s).1
  unfolding ◌>>=◌
  Steps-bind m f p q = elim (Result-cases (m s).0) [
    | inl (a, e) ↦ rw (◌>>=◌, e) (Steps-trans k c p (q a))
    | inr (x, e) ↦ rw (◌>>=◌, e) p
  ]
