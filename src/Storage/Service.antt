-- ===== src/Storage/Service.antt =====
-- `impl TeaclaveStorage for TeaclaveStorageService` (services/storage/enclave/src/service.rs).
use incubator_mesatee.Base.{
  Text, ℕ, utf8, ◌==◌, starts_with, ==_iff, ◌≡◌, false, ◌++◌, none, some, Action, ok, err,
  if◌then◌else◌, arith, Bool-cases, inl, inr, Bool, ap,
}
use incubator_mesatee.Storage.Keys.{starts_with-append}
use incubator_mesatee.Storage.LevelDb.{LevelDb}
use incubator_mesatee.Storage.Queue
use incubator_mesatee.Storage.Queue.{
  storage_error, level_db, missing, tail_key, head_key, element_key,
}
use incubator_mesatee.Types.Error.{ServiceError}

-- whether a key belongs to the queues
abbrev pub is_queue_key : Text → Bool
is_queue_key j = starts_with j (utf8 "queue-")

module _ (l : LevelDb) where
  unfoldable pub get : Text → Action l.Db ServiceError Text
  get key database = elim (l.get database key) [
    | some value ↦ (ok value, database)
    | none ↦ (err (storage_error missing), database)
  ]

  unfoldable pub put : Text → Text → Action l.Db ServiceError (Unit {0})
  put key value database =
      let (written, d1) = l.put key value database in
      (if written then ok tt else err (storage_error level_db), d1)

  unfoldable pub delete : Text → Action l.Db ServiceError (Unit {0})
  delete key database =
      let (deleted, d1) = l.delete key database in
      (if deleted then ok tt else err (storage_error level_db), d1)

  unfoldable pub enqueue : Text → Text → Action l.Db ServiceError (Unit {0})
  enqueue key value = Queue.enqueue l key value

  unfoldable pub dequeue : Text → Action l.Db ServiceError Text
  dequeue key = Queue.dequeue l key

not_queue_key : (j s : Text) → is_queue_key j ≡ false → ((utf8 "queue-" ++ s) == j) ≡ false
not_queue_key j s h = elim (Bool-cases ((utf8 "queue-" ++ s) == j)) [
  | inr e ↦ e
  | inl e ↦ absurd (
      ground (
        arith,
        ap is_queue_key ((==_iff (utf8 "queue-" ++ s) j).0 e),
        starts_with-append (utf8 "queue-") s,
      ))
]

module _ (l : LevelDb) (key j : Text) (other : is_queue_key j ≡ false) where
  not_tail : (tail_key key == j) ≡ false
  unfolding tail_key
  not_tail = not_queue_key j _ other

  not_head : (head_key key == j) ≡ false
  unfolding head_key
  not_head = not_queue_key j _ other

  not_element : (i : ℕ) → (element_key key i == j) ≡ false
  unfolding element_key
  not_element i = not_queue_key j _ other

  -- An enqueue leaves what is stored under a key outside the queues.
  pub get-enqueue_other : (v : Text) (d : l.Db) → l.get (enqueue l key v d).1 j ≡ l.get d j
  unfolding enqueue Queue.enqueue
  get-enqueue_other v d = grind (arith, not_tail, not_element, l.get-put_ne)

  -- A dequeue leaves what is stored under a key outside the queues.
  pub get-dequeue_other : (d : l.Db) → l.get (dequeue l key d).1 j ≡ l.get d j
  unfolding dequeue Queue.dequeue
  get-dequeue_other d = grind (arith, not_head, not_element, l.get-put_ne, l.get-delete_ne)
