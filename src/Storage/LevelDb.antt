-- ===== src/Storage/LevelDb.antt =====
-- What the service takes from `rusty_leveldb`: reading, writing and deleting a key. A write or a
-- delete says whether it succeeded; either way it leaves every other key alone.
use incubator_mesatee.Base.{Text, ◌==◌, ◌≡◌, Bool, true, false, Option, none, some, ◌⊎◌}

pub record LevelDb : Type 1 where
  pub Db : Type 0
  pub get : Db → Text → Option Text
  pub put : Text → Text → Db → Bool × Db
  pub delete : Text → Db → Bool × Db
  pub get-put_ne :
      (k v : Text) (d : Db) (j : Text) → (k == j) ≡ false → get (put k v d).1 j ≡ get d j
  pub get-put_self : (k v : Text) (d : Db) → (put k v d).0 ≡ true → get (put k v d).1 k ≡ some v
  pub get-put_failed :
      (k v : Text) (d : Db)
      → (put k v d).0 ≡ false
      → (get (put k v d).1 k ≡ some v) ⊎ (get (put k v d).1 k ≡ get d k)
  pub get-delete_ne :
      (k : Text) (d : Db) (j : Text) → (k == j) ≡ false → get (delete k d).1 j ≡ get d j
  pub get-delete_self : (k : Text) (d : Db) → (delete k d).0 ≡ true → get (delete k d).1 k ≡ none
