-- ===== src/Storage/Client.antt =====
-- What the other services rely on of their storage client (`TeaclaveStorageClient`, a call of
-- the storage service), and that the storage service gives it. A call may fail, in the
-- transport or in the service.
use incubator_mesatee.Base.{
  Text, ◌==◌, ◌≡◌, false, Option, some, Action, ok, ◌⊎◌, inl, inr, arith, Bool-cases,
}
use incubator_mesatee.Storage.LevelDb.{LevelDb}
use incubator_mesatee.Storage.Service
use incubator_mesatee.Storage.Service.{is_queue_key, get-enqueue_other, get-dequeue_other}
use incubator_mesatee.Types.Error.{ServiceError}

pub record StorageClient : Type 1 where
  pub Store : Type 0
  pub get : Text → Action Store ServiceError Text
  pub put : Text → Text → Action Store ServiceError (Unit {0})
  pub enqueue : Text → Text → Action Store ServiceError (Unit {0})
  pub dequeue : Text → Action Store ServiceError Text
  -- what is stored under a key
  pub view : Store → Text → Option Text
  pub store-get : (k : Text) (s : Store) → (get k s).1 ≡ s
  pub get-view : (k : Text) (s : Store) (v : Text) → (get k s).0 ≡ ok v → view s k ≡ some v
  pub view-put_ne :
      (k v : Text) (s : Store) (j : Text) → (k == j) ≡ false → view (put k v s).1 j ≡ view s j
  pub view-put_self :
      (k v : Text) (s : Store) → (put k v s).0 ≡ ok tt → view (put k v s).1 k ≡ some v
  pub view-put_either :
      (k v : Text) (s : Store) → (view (put k v s).1 k ≡ some v) ⊎ (view (put k v s).1 k ≡ view s k)
  pub view-enqueue :
      (k v : Text) (s : Store) (j : Text)
      → is_queue_key j ≡ false
      → view (enqueue k v s).1 j ≡ view s j
  pub view-dequeue :
      (k : Text) (s : Store) (j : Text) → is_queue_key j ≡ false → view (dequeue k s).1 j ≡ view s j

module _ (l : LevelDb) where
  pub service-get_store : (k : Text) (d : l.Db) → (Service.get l k d).1 ≡ d
  unfolding Service.get
  service-get_store k d = ground arith

  pub service-get_view :
      (k : Text) (d : l.Db) (v : Text) → (Service.get l k d).0 ≡ ok v → l.get d k ≡ some v
  unfolding Service.get
  service-get_view k d v h = ground arith

  pub service-put_ne :
      (k v : Text) (d : l.Db) (j : Text)
      → (k == j) ≡ false
      → l.get (Service.put l k v d).1 j ≡ l.get d j
  unfolding Service.put
  service-put_ne k v d j h = l.get-put_ne k v d j h

  pub service-put_self :
      (k v : Text) (d : l.Db)
      → (Service.put l k v d).0 ≡ ok tt
      → l.get (Service.put l k v d).1 k ≡ some v
  unfolding Service.put
  service-put_self k v d h = ground (arith, l.get-put_self k v d)

  pub service-put_either :
      (k v : Text) (d : l.Db)
      → (l.get (Service.put l k v d).1 k ≡ some v) ⊎ (l.get (Service.put l k v d).1 k ≡ l.get d k)
  unfolding Service.put
  service-put_either k v d = elim (Bool-cases (l.put k v d).0) [
    | inl e ↦ inl (l.get-put_self k v d e)
    | inr e ↦ l.get-put_failed k v d e
  ]

  -- The storage service over a database is such a client.
  abbrev pub storage_client : StorageClient
  storage_client = record {
    Store = l.Db;
    get = Service.get l;
    put = Service.put l;
    enqueue = Service.enqueue l;
    dequeue = Service.dequeue l;
    view = l.get;
    store-get = service-get_store;
    get-view = service-get_view;
    view-put_ne = service-put_ne;
    view-put_self = service-put_self;
    view-put_either = service-put_either;
    view-enqueue = λ k v s j h. get-enqueue_other l k j h v s;
    view-dequeue = λ k s j h. get-dequeue_other l k j h s;
  }
