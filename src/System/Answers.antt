-- ===== src/System/Answers.antt =====
-- What a request that succeeds has found on its way, call by call.
use incubator_mesatee.Base.{
  Text, utf8, ◌≡◌, true, ok, sym, subst, ◌∙◌, arith, Action, Bool, pure, lift, map_err, ◌>>=◌, inl,
  inr, Result-cases, Result, some,
}
use incubator_mesatee.Base.HashMap
use incubator_mesatee.Base.HashMap.{HashMap}
use incubator_mesatee.Base.Reads.{Reads-ensure, Reads-map_err, ok_bind}
use incubator_mesatee.Management.Db.{
  Crates, tasks, read_from_db, write_to_db, replace_err, or_else, get_request_user_id, require,
}
use incubator_mesatee.Management.Requests.{ManagementError}
use incubator_mesatee.Storage.Client.{StorageClient}
use incubator_mesatee.System.Access.{
  Reads-get_request_user_id, Reads-or_else, Reads-read_from_db, Reads-read_task,
}
use incubator_mesatee.System.Step.{IsSound, Holds, task_key}
use incubator_mesatee.Types.Error.{ServiceError}
use incubator_mesatee.Types.Owners.{UserId}
use incubator_mesatee.Types.Storage.{ExternalId, Storable, storage_key, to_bytes, external_id}
use incubator_mesatee.Types.TaskState.{TaskState}
use incubator_mesatee.Types.WellFormed.{IsWellFormed}

module _ (k : Crates) (c : StorageClient) where
  -- an item is stored under its key
  pub record Stored {A : Type 0} (s : c.Store) (st : Storable A) (key : Text) (a : A) : Type 0 where
    pub bytes : Text
    pub stored : c.view s key ≡ some bytes
    pub decoded : st.json.from_slice bytes ≡ ok a

  module _ (s : c.Store) {B : Type 0} (b : B) where
    -- the rest of a request, after a call, gives the request's answer and its store
    abbrev pub Goes : Action c.Store ServiceError B → Action c.Store ServiceError B → Type 0
    Goes rest whole = ((rest s).0 ≡ ok b) × ((rest s).1 ≡ (whole s).1)

    pub ok_user :
        (meta : HashMap Text) (f : UserId → Action c.Store ServiceError B)
        → ((get_request_user_id meta >>= f) s).0 ≡ ok b
        → (u : UserId) × (HashMap.get meta (utf8 "id") ≡ some u)
          × Goes (f u) (get_request_user_id meta >>= f)
    ok_user meta f h = ok_bind _ f b (Reads-get_request_user_id meta) h

    pub ok_read :
        {A : Type 0} (st : Storable A) (e : ExternalId) (x : ManagementError)
        (f : A → Action c.Store ServiceError B)
        → ((replace_err x (read_from_db k c st e) >>= f) s).0 ≡ ok b
        → (a : A) × Stored s st (to_bytes k.show_uuid e) a
          × Goes (f a) (replace_err x (read_from_db k c st e) >>= f)
    ok_read st e x f h =
        let (a, (m, (v, g, d)), rest) =
          ok_bind _ f b (Reads-map_err _ _ (Reads-read_from_db k c s st e)) h in
        (a, record { bytes = v; stored = g; decoded = d }, rest)

    pub ok_read_task :
        (e : ExternalId) (x : ManagementError) (f : TaskState → Action c.Store ServiceError B)
        → IsSound k c s
        → ((replace_err x (read_from_db k c (tasks k) e) >>= f) s).0 ≡ ok b
        → (ts : TaskState) × (Holds k c s ts
            × IsWellFormed ts
            × (task_key k c ts ≡ to_bytes k.show_uuid e))
          × Goes (f ts) (replace_err x (read_from_db k c (tasks k) e) >>= f)
    ok_read_task e x f sound h = ok_bind _ f b (Reads-map_err _ _ (Reads-read_task k c s e sound)) h

    pub ok_require :
        (t : Bool) (x : ManagementError) (f : Unit {0} → Action c.Store ServiceError B)
        → ((require t x >>= f) s).0 ≡ ok b
        → (u : Unit {0}) × (t ≡ true) × Goes (f u) (require t x >>= f)
    ok_require t x f h = ok_bind _ f b (Reads-ensure t _) h

    pub ok_or_else :
        {E A : Type 0} (x : ManagementError) (r : Result E A)
        (f : A → Action c.Store ServiceError B)
        → ((or_else x r >>= f) s).0 ≡ ok b
        → (a : A) × (r ≡ ok a) × Goes (f a) (or_else x r >>= f)
    ok_or_else x r f h = ok_bind _ f b (Reads-or_else x r) h

  module _ {A : Type 0} (st : Storable A) (a : A) (e : ManagementError) (s : c.Store) where
    -- a write that succeeds stores the item under its key
    pub write_Stored :
        (write_to_db k c st a s).0 ≡ ok tt
        → Stored (write_to_db k c st a s).1 st (storage_key st k.show_uuid a) a
    unfolding write_to_db ◌>>=◌ lift map_err
    write_Stored h = elim (Result-cases (st.json.to_vec a)) [
      | inl (v, q) ↦ record {
        bytes = v;
        stored = rw q (c.view-put_self (storage_key st k.show_uuid a) v s (put_ok v q h));
        decoded = st.json.from_slice-to_vec a q;
      }
      | inr (x, q) ↦ absurd (ground (arith, q, h))
    ]
      where
        put_ok :
            (v : Text)
            → st.json.to_vec a ≡ ok v
            → (write_to_db k c st a s).0 ≡ ok tt
            → (c.put (storage_key st k.show_uuid a) v s).0 ≡ ok tt
        put_ok v q h = ground (arith, q, h)

    write_ok :
        (b : Unit {0})
        → (replace_err e (write_to_db k c st a) s).0 ≡ ok b
        → (write_to_db k c st a s).0 ≡ ok tt
    unfolding map_err
    write_ok b h = ground (arith, h)

    -- a request whose last call is this write leaves the item under its key
    pub ends_Stored :
        (t : c.Store) (b : Unit {0})
        → (replace_err e (write_to_db k c st a) s).0 ≡ ok b
        → (replace_err e (write_to_db k c st a) s).1 ≡ t
        → Stored t st (storage_key st k.show_uuid a) a
    unfolding map_err
    ends_Stored t b h q =
        subst (λ x. Stored x st (storage_key st k.show_uuid a) a) q (write_Stored (write_ok b h))

    -- a request that answers `b` after this write does so, and leaves the item under its key
    pub ends_pure-Stored :
        {B : Type 0} (b b' : B) (t : c.Store)
        → ((replace_err e (write_to_db k c st a) >>= λ _. pure b) s).0 ≡ ok b'
        → ((replace_err e (write_to_db k c st a) >>= λ _. pure b) s).1 ≡ t
        → (b ≡ b') × Stored t st (storage_key st k.show_uuid a) a
    unfolding ◌>>=◌ map_err pure
    ends_pure-Stored b b' t h q = elim (Result-cases (write_to_db k c st a s).0) [
      | inl (v, d) ↦ (
        ground (arith, h, d),
        subst (λ x. Stored x st (storage_key st k.show_uuid a) a) (sym (after v d) ∙ q)
            (write_Stored d),
      )
      | inr (x, d) ↦ absurd (ground (arith, h, d))
    ]
      where
        after :
            (v : Unit {0})
            → (write_to_db k c st a s).0 ≡ ok v
            → ((replace_err e (write_to_db k c st a) >>= λ _. pure b) s).1
              ≡ (write_to_db k c st a s).1
        after v d = ground (arith, d)

  pub Stored-at :
      {A : Type 0} (st : Storable A) (a : A) (t : c.Store) (x : ExternalId)
      → external_id st a ≡ x
      → Stored t st (storage_key st k.show_uuid a) a
      → Stored t st (to_bytes k.show_uuid x) a
  unfolding storage_key
  Stored-at st a t x q p = subst (λ i. Stored t st (to_bytes k.show_uuid i) a) q p
