-- ===== src/Storage/Slots.antt =====
-- How a database holds a queue, and what writes to its slots and pointers leave of it
-- (`DBQueue` of services/storage/enclave/src/service.rs).
use incubator_mesatee.Base.{
  Text, ◌==◌, ◌≡◌, false, List, [], ◌∷◌, ◌++◌, ℕ, suc, length-append, ◌<◌, ◌≤◌, ◌+◌, ◌^◌, arith,
  some, subst, ◌∙◌, length,
}
use incubator_mesatee.Storage.Keys.{
  decode-le_bytes, head_word, element_key-ne, tail-ne-head, element-ne-head, element-ne-tail,
  ==_flip,
}
use incubator_mesatee.Storage.LevelDb.{LevelDb}
use incubator_mesatee.Storage.Queue.{
  le_bytes, next_index, tail_key, head_key, element_key, read_u32, get_head, get_tail,
}

module _ (l : LevelDb) (key : Text) where
  -- the elements from index `i` on
  abbrev pub Elements : l.Db → ℕ → List Text → Type 0
  Elements d i [] = Unit
  Elements d i (x ∷ xs) = (l.get d (element_key key i) ≡ some x) × Elements d (suc i) xs

  -- the database holds the queue `xs`, whose first element is at index `h`
  pub record IsQueue (d : l.Db) (h : ℕ) (xs : List Text) : Type 0 where
    pub head_at : get_head l d key ≡ h
    pub tail_at : get_tail l d key ≡ h + length xs
    pub elements : Elements d h xs

  pub Elements-frame :
      (d d' : l.Db) (i : ℕ) (xs : List Text)
      → ((j : ℕ)
          → i ≤ j
          → j < i + length xs
          → l.get d' (element_key key j) ≡ l.get d (element_key key j))
      → Elements d i xs
      → Elements d' i xs
  Elements-frame d d' i [] same e = tt
  Elements-frame d d' i (x ∷ xs) same e = (
    same i (omega arith) (omega arith) ∙ e.0,
    Elements-frame d d' (suc i) xs (λ j a b. same j (omega arith) (omega arith)) e.1,
  )

  Elements-append :
      (d : l.Db) (i : ℕ) (xs : List Text) (v : Text)
      → Elements d i xs
      → l.get d (element_key key (i + length xs)) ≡ some v
      → Elements d i (xs ++ v ∷ [])
  Elements-append d i [] v e g =
      (subst (λ k. l.get d (element_key key k) ≡ some v) (omega arith) g, tt)
  Elements-append d i (x ∷ xs) v e g = (
    e.0,
    Elements-append d (suc i) xs v e.1
        (subst (λ k. l.get d (element_key key k) ≡ some v) (omega arith) g),
  )

  pub get_head-frame :
      (d d' : l.Db)
      → l.get d' (head_key key) ≡ l.get d (head_key key)
      → get_head l d' key ≡ get_head l d key
  unfolding get_head read_u32
  get_head-frame d d' e = ground (arith, e)

  pub get_tail-frame :
      (d d' : l.Db)
      → l.get d' (tail_key key) ≡ l.get d (tail_key key)
      → get_tail l d' key ≡ get_tail l d key
  unfolding get_tail read_u32
  get_tail-frame d d' e = ground (arith, e)

  pub get_head_written :
      (d : l.Db) (n : ℕ)
      → n < 2 ^ 32
      → l.get d (head_key key) ≡ some (le_bytes n)
      → get_head l d key ≡ n
  unfolding get_head read_u32
  get_head_written d n h e = ground (arith, e, decode-le_bytes n h)

  get_tail_written :
      (d : l.Db) (n : ℕ)
      → n < 2 ^ 32
      → l.get d (tail_key key) ≡ some (le_bytes n)
      → get_tail l d key ≡ n
  unfolding get_tail read_u32
  get_tail_written d n h e = ground (arith, e, decode-le_bytes n h)

  -- what a write to the slot behind the last element leaves of the queue
  pub slot_written :
      (d : l.Db) (h : ℕ) (xs : List Text) (v : Text)
      → h + length xs < head_word
      → IsQueue d h xs
      → IsQueue (l.put (element_key key (h + length xs)) v d).1 h xs
  slot_written d h xs v room q = record {
    head_at =
        get_head-frame d _ (l.get-put_ne _ v d (head_key key) (element-ne-head key _ room))
        ∙ q.head_at;
    tail_at =
        get_tail-frame d _ (l.get-put_ne _ v d (tail_key key) (element-ne-tail key _ room))
        ∙ q.tail_at;
    elements =
        Elements-frame d _ h xs
          (λ j a b.
            l.get-put_ne _ v d (element_key key j)
              (element_key-ne key _ j (omega arith) (omega arith) (omega arith)))
          q.elements;
  }

  -- moving the tail behind an element that is there appends it
  pub tail_moved :
      (d d' : l.Db) (h : ℕ) (xs : List Text) (v : Text)
      → h + length xs < head_word
      → IsQueue d h xs
      → l.get d (element_key key (h + length xs)) ≡ some v
      → ((j : Text) → (tail_key key == j) ≡ false → l.get d' j ≡ l.get d j)
      → l.get d' (tail_key key) ≡ some (le_bytes (next_index (h + length xs)))
      → IsQueue d' h (xs ++ v ∷ [])
  unfolding next_index
  tail_moved d d' h xs v room q at same moved = record {
    head_at = get_head-frame d d' (same (head_key key) (tail-ne-head key)) ∙ q.head_at;
    tail_at =
        get_tail_written d' (next_index (h + length xs)) (omega arith) moved
        ∙ rw length-append (omega arith);
    elements =
        Elements-append d' h xs v
          (Elements-frame d d' h xs
            (λ j a b. same _ (==_flip _ _ (element-ne-tail key j (omega arith)))) q.elements)
          (same _ (==_flip _ _ (element-ne-tail key _ room)) ∙ at);
  }

  pub unmoved :
      (d d' : l.Db) (h : ℕ) (xs : List Text)
      → h + length xs < head_word
      → IsQueue d h xs
      → ((j : Text) → (tail_key key == j) ≡ false → l.get d' j ≡ l.get d j)
      → l.get d' (tail_key key) ≡ l.get d (tail_key key)
      → IsQueue d' h xs
  unmoved d d' h xs room q same kept = record {
    head_at = get_head-frame d d' (same (head_key key) (tail-ne-head key)) ∙ q.head_at;
    tail_at = get_tail-frame d d' kept ∙ q.tail_at;
    elements =
        Elements-frame d d' h xs
          (λ j a b. same _ (==_flip _ _ (element-ne-tail key j (omega arith)))) q.elements;
  }
