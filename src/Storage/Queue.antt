-- ===== src/Storage/Queue.antt =====
-- `DBQueue` of services/storage/enclave/src/service.rs: a queue kept under the keys
-- `queue-<key>-head`, `queue-<key>-tail` and `queue-<key>-<index>`.
use incubator_mesatee.Base.{
  Text, utf8, Option, none, some, [], ◌∷◌, ◌++◌, ℕ, ◌+◌, ◌*◌, ◌/◌, ◌%◌, ◌^◌, Action, ok, err,
  if◌then◌else◌, ltb,
}
use incubator_mesatee.Storage.LevelDb.{LevelDb}
use incubator_mesatee.Types.Error.{ServiceError, request_error}

-- services/storage/enclave/src/error.rs; `none` is `missing`
pub data StorageError : Type 0 where
  connection level_db missing : StorageError

-- its `Display`, which the error of the response carries
unfoldable pub storage_error : StorageError → ServiceError
storage_error connection = request_error (utf8 "connection error")
storage_error level_db = request_error (utf8 "leveldb error")
storage_error missing = request_error (utf8 "none error")

-- `u32::to_le_bytes` and `u32::from_le_bytes`
unfoldable pub le_bytes : ℕ → Text
le_bytes n = (n % 256) ∷ (n / 256 % 256) ∷ (n / 65536 % 256) ∷ (n / 16777216 % 256) ∷ []

unfoldable pub from_le_bytes : ℕ → ℕ → ℕ → ℕ → ℕ
from_le_bytes a b c d = a + b * 256 + c * 65536 + d * 16777216

-- `tail_index += 1` on a u32, wrapping as in a release build
unfoldable pub next_index : ℕ → ℕ
next_index n = (n + 1) % 2 ^ 32

unfoldable pub tail_key : Text → Text
tail_key key = utf8 "queue-" ++ (key ++ utf8 "-tail")

unfoldable pub head_key : Text → Text
head_key key = utf8 "queue-" ++ (key ++ utf8 "-head")

unfoldable pub element_key : Text → ℕ → Text
element_key key index = utf8 "queue-" ++ (key ++ (utf8 "-" ++ le_bytes index))

-- the bytes of `read_u32`, which must be four
unfoldable pub decode_u32 : Text → Option ℕ
decode_u32 (a ∷ b ∷ c ∷ d ∷ []) = some (from_le_bytes a b c d)
decode_u32 _ = none

module _ (l : LevelDb) where
  unfoldable pub read_u32 : l.Db → Text → Option ℕ
  read_u32 database key = elim (l.get database key) [ none ↦ none | some bytes ↦ decode_u32 bytes ]

  unfoldable pub get_head : l.Db → Text → ℕ
  get_head database key = elim (read_u32 database (head_key key)) [ none ↦ 0 | some n ↦ n ]

  unfoldable pub get_tail : l.Db → Text → ℕ
  get_tail database key = elim (read_u32 database (tail_key key)) [ none ↦ 0 | some n ↦ n ]

  -- `DBQueue::enqueue`
  unfoldable pub enqueue : Text → Text → Action l.Db ServiceError (Unit {0})
  enqueue key value database =
      let tail_index = get_tail database key in
      let (written, d1) = l.put (element_key key tail_index) value database in
      let (moved, d2) = l.put (tail_key key) (le_bytes (next_index tail_index)) d1 in
      if written
      then if moved then (ok tt, d2) else (err (storage_error level_db), d2)
      else (err (storage_error level_db), d1)

  -- `DBQueue::dequeue`
  unfoldable pub dequeue : Text → Action l.Db ServiceError Text
  dequeue key database =
      let head_index = get_head database key in
      if ltb head_index (get_tail database key)
      then elim (l.get database (element_key key head_index)) [
        | none ↦ (err (storage_error missing), database)
        | some value ↦
            let (moved, d1) = l.put (head_key key) (le_bytes (next_index head_index)) database in
            if moved
            then (ok value, (l.delete (element_key key head_index) d1).1)
            else (err (storage_error level_db), d1)
      ]
      else (err (storage_error missing), database)
