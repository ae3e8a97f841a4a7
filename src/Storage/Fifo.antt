-- ===== src/Storage/Fifo.antt =====
-- The queue of services/storage/enclave/src/service.rs against a first-in-first-out list, as
-- long as its indices stay below the one whose key is the head's.
use incubator_mesatee.Base.{
  Text, ◌==◌, ◌≡◌, refl, false, List, [], ◌∷◌, ◌++◌, ℕ, suc, ◌<◌, ◌≤◌, ◌+◌, arith, some, ok, err,
  ◌∙◌, inl, inr, ◌⊎◌, length, Bool-cases, Result, if◌then◌else◌, lt→ltb,
}
use incubator_mesatee.Storage.Keys.{
  head_word, element_key-ne, head-ne-tail, element-ne-head, element-ne-tail, ==_flip,
}
use incubator_mesatee.Storage.LevelDb.{LevelDb}
use incubator_mesatee.Storage.Queue.{
  storage_error, level_db, missing, le_bytes, next_index, tail_key, head_key, element_key, enqueue,
  dequeue,
}
use incubator_mesatee.Types.Error.{ServiceError}
use incubator_mesatee.Storage.Slots.{
  IsQueue, Elements-frame, get_head-frame, get_tail-frame, get_head_written, slot_written,
  tail_moved, unmoved,
}

module _ (l : LevelDb) (key : Text) where
  -- what an enqueue may leave: appended if it says so, else appended or not
  abbrev pub Enqueued : ℕ → List Text → Text → Result ServiceError (Unit {0}) × l.Db → Type 0
  Enqueued h xs v (ok _, d') = IsQueue l key d' h (xs ++ v ∷ [])
  Enqueued h xs v (err e, d') =
      (e ≡ storage_error level_db) × (IsQueue l key d' h xs ⊎ IsQueue l key d' h (xs ++ v ∷ []))

  -- While the tail stays below the index whose key is the head's, an enqueue that succeeds appends
  -- its value. One that fails reports a database error and leaves the queue as it was, or with the
  -- value appended.
  pub enqueue-Enqueued :
      (d : l.Db) (h : ℕ) (xs : List Text) (v : Text)
      → h + length xs < head_word
      → IsQueue l key d h xs
      → Enqueued h xs v (enqueue l key v d)
  unfolding enqueue
  enqueue-Enqueued d h xs v room q =
      let at : Text = element_key key (h + length xs) in
      let to : Text = le_bytes (next_index (h + length xs)) in
      let d1 = (l.put at v d).1 in
      let d2 = (l.put (tail_key key) to d1).1 in
      let q1 = slot_written l key d h xs v room q in
      rw q.tail_at (elim (Bool-cases (l.put at v d).0) [
        | inr e ↦ rw e (refl, inl q1)
        | inl e ↦
            let moved =
              tail_moved l key d1 d2 h xs v room q1 (l.get-put_self at v d e)
                (l.get-put_ne (tail_key key) to d1) in
            rw e (elim (Bool-cases (l.put (tail_key key) to d1).0) [
              | inl f ↦ rw f (moved (l.get-put_self (tail_key key) to d1 f))
              | inr f ↦ rw f (
                refl,
                elim (l.get-put_failed (tail_key key) to d1 f) [
                  | inl w ↦ inr (moved w)
                  | inr k ↦
                      inl (unmoved l key d1 d2 h xs room q1 (l.get-put_ne (tail_key key) to d1) k)
                ],
              )
            ])
      ])

  -- Dequeuing from an empty queue reports `none`, and changes nothing.
  pub dequeue_empty :
      (d : l.Db) (h : ℕ) → IsQueue l key d h [] → dequeue l key d ≡ (err (storage_error missing), d)
  unfolding dequeue
  dequeue_empty d h q = ground (arith, q.head_at, q.tail_at)

  head_moved :
      (d d' : l.Db) (h : ℕ) (x : Text) (xs : List Text)
      → h + length (x ∷ xs) ≤ head_word
      → IsQueue l key d h (x ∷ xs)
      → ((j : Text)
          → (head_key key == j) ≡ false
          → (element_key key h == j) ≡ false
          → l.get d' j ≡ l.get d j)
      → l.get d' (head_key key) ≡ some (le_bytes (next_index h))
      → IsQueue l key d' (suc h) xs
  unfolding next_index
  head_moved d d' h x xs room q same moved = record {
    head_at = get_head_written l key d' (next_index h) (omega arith) moved ∙ omega arith;
    tail_at =
        get_tail-frame l key d d' (same _ (head-ne-tail key) (element-ne-tail key h (omega arith)))
        ∙ q.tail_at
        ∙ omega arith;
    elements =
        Elements-frame l key d d' (suc h) xs
          (λ j a b.
            same _ (==_flip _ _ (element-ne-head key j (omega arith)))
              (element_key-ne key h j (omega arith) (omega arith) (omega arith)))
          q.elements.1;
  }

  head_kept :
      (d d' : l.Db) (h : ℕ) (xs : List Text)
      → h + length xs ≤ head_word
      → IsQueue l key d h xs
      → ((j : Text) → (head_key key == j) ≡ false → l.get d' j ≡ l.get d j)
      → l.get d' (head_key key) ≡ l.get d (head_key key)
      → IsQueue l key d' h xs
  head_kept d d' h xs room q same kept = record {
    head_at = get_head-frame l key d d' kept ∙ q.head_at;
    tail_at = get_tail-frame l key d d' (same _ (head-ne-tail key)) ∙ q.tail_at;
    elements =
        Elements-frame l key d d' h xs
          (λ j a b. same _ (==_flip _ _ (element-ne-head key j (omega arith)))) q.elements;
  }

  dequeue_first :
      (d : l.Db) (h : ℕ) (x : Text) (xs : List Text)
      → IsQueue l key d h (x ∷ xs)
      → let (moved, d1) = l.put (head_key key) (le_bytes (next_index h)) d in
        dequeue l key d ≡ (
          if moved
          then (ok x, (l.delete (element_key key h) d1).1)
          else (err (storage_error level_db), d1))
  unfolding dequeue
  dequeue_first d h x xs q =
      rw (
        q.head_at,
        q.tail_at,
        q.elements.0,
        lt→ltb h (h + suc (length xs)) (omega arith),
        q.head_at,
      )

  -- what a dequeue of a queue may leave: the first element and the rest if it succeeds, else
  -- the queue or the rest
  abbrev pub Dequeued : ℕ → Text → List Text → Result ServiceError Text × l.Db → Type 0
  Dequeued h x xs (ok v, d') = (v ≡ x) × IsQueue l key d' (suc h) xs
  Dequeued h x xs (err e, d') =
      (e ≡ storage_error level_db) × (IsQueue l key d' h (x ∷ xs) ⊎ IsQueue l key d' (suc h) xs)

  -- While the tail is at most the index whose key is the head's, a dequeue that succeeds returns
  -- the first value and leaves the rest. One that fails reports a database error and leaves the
  -- queue as it was, or without its first value.
  pub dequeue-Dequeued :
      (d : l.Db) (h : ℕ) (x : Text) (xs : List Text)
      → h + length (x ∷ xs) ≤ head_word
      → IsQueue l key d h (x ∷ xs)
      → Dequeued h x xs (dequeue l key d)
  dequeue-Dequeued d h x xs room q =
      let to : Text = le_bytes (next_index h) in
      let d1 = (l.put (head_key key) to d).1 in
      let d2 = (l.delete (element_key key h) d1).1 in
      let kept = l.get-put_ne (head_key key) to d in
      let slot = element-ne-head key h (omega arith) in
      rw (dequeue_first d h x xs q) (elim (Bool-cases (l.put (head_key key) to d).0) [
        | inl e ↦ rw e (
          refl,
          head_moved d d2 h x xs room q
              (λ j a b. l.get-delete_ne (element_key key h) d1 j b ∙ kept j a)
              (l.get-delete_ne (element_key key h) d1 (head_key key) slot
                ∙ l.get-put_self (head_key key) to d e),
        )
        | inr e ↦ rw e (
          refl,
          elim (l.get-put_failed (head_key key) to d e) [
            | inl w ↦ inr (head_moved d d1 h x xs room q (λ j a b. kept j a) w)
            | inr k ↦ inl (head_kept d d1 h (x ∷ xs) room q kept k)
          ],
        )
      ])
