-- ===== src/Storage/Keys.antt =====
-- The keys of a queue (services/storage/enclave/src/service.rs): when they differ.
use incubator_mesatee.Base.{
  Text, utf8, ◌==◌, starts_with, ==_iff, ◌≡◌, ◌≢◌, refl, true, false, [], ◌∷◌, ◌++◌, ℕ, ◌<◌, ◌^◌,
  arith, some, ap, sym, ◌∙◌,
}
use incubator_mesatee.Storage.Queue.{
  le_bytes, from_le_bytes, decode_u32, tail_key, head_key, element_key,
}

-- Four bytes hold a u32.
pub decode-le_bytes : (n : ℕ) → n < 2 ^ 32 → decode_u32 (le_bytes n) ≡ some n
unfolding decode_u32 le_bytes from_le_bytes
decode-le_bytes n h = ap some (omega arith)

==_append : (p a b : Text) → ((p ++ a) == (p ++ b)) ≡ (a == b)
unfolding ◌==◌
==_append [] a b = refl
==_append (c ∷ p) a b = ground (arith, ==_append p a b)

pub starts_with-append : (p s : Text) → starts_with (p ++ s) p ≡ true
unfolding starts_with
starts_with-append [] s = refl
starts_with-append (c ∷ p) s = ground (arith, starts_with-append p s)

-- the indices whose four bytes spell `head` and `tail`
abbrev pub head_word : ℕ
head_word = 1684104552

abbrev pub tail_word : ℕ
tail_word = 1818845556

==_of_path : {a b : Text} → a ≡ b → (a == b) ≡ true
==_of_path {a} {b} e = (==_iff a b).1 e

pub ==_flip : (a b : Text) → (a == b) ≡ false → (b == a) ≡ false
==_flip a b h = ground (arith, ==_iff a b, ==_iff b a)

==_false : (a b : Text) → a ≢ b → (a == b) ≡ false
==_false a b h = ground (arith, ==_iff a b)

le_bytes_inj : (i j : ℕ) → i < 2 ^ 32 → j < 2 ^ 32 → le_bytes i ≡ le_bytes j → i ≡ j
le_bytes_inj i j hi hj e = cc (decode-le_bytes i hi, decode-le_bytes j hj, ap decode_u32 e)

-- Element keys differ where their indices do.
pub element_key-ne :
    (key : Text) (i j : ℕ)
    → i < 2 ^ 32
    → j < 2 ^ 32
    → i ≢ j
    → (element_key key i == element_key key j) ≡ false
unfolding element_key
element_key-ne key i j hi hj ne =
    rw (==_append (utf8 "queue-"), ==_append key, ==_append (utf8 "-"))
      (==_false _ _ (λ e. ne (le_bytes_inj i j hi hj e)))

pub head-ne-tail : (key : Text) → (head_key key == tail_key key) ≡ false
unfolding head_key tail_key ◌==◌
head-ne-tail key = rw (==_append (utf8 "queue-"), ==_append key)

pub tail-ne-head : (key : Text) → (tail_key key == head_key key) ≡ false
unfolding head_key tail_key ◌==◌
tail-ne-head key = rw (==_append (utf8 "queue-"), ==_append key)

element_key-eq_head :
    (key : Text) (i : ℕ) → (element_key key i == head_key key) ≡ (le_bytes i == utf8 "head")
unfolding element_key head_key
element_key-eq_head key i =
    ==_append (utf8 "queue-") _ _
    ∙ ==_append key _ _
    ∙ ==_append (utf8 "-") (le_bytes i) (utf8 "head")

element_key-eq_tail :
    (key : Text) (i : ℕ) → (element_key key i == tail_key key) ≡ (le_bytes i == utf8 "tail")
unfolding element_key tail_key
element_key-eq_tail key i =
    ==_append (utf8 "queue-") _ _
    ∙ ==_append key _ _
    ∙ ==_append (utf8 "-") (le_bytes i) (utf8 "tail")

head_spelled : le_bytes head_word ≡ utf8 "head"
unfolding le_bytes
head_spelled = refl

tail_spelled : le_bytes tail_word ≡ utf8 "tail"
unfolding le_bytes
tail_spelled = refl

-- Below the index whose bytes spell `head`, an element key is neither the head nor the tail key.
pub element-ne-head :
    (key : Text) (i : ℕ) → i < head_word → (element_key key i == head_key key) ≡ false
element-ne-head key i h =
    element_key-eq_head key i
    ∙ ==_false _ _ (λ e.
      absurd (
        omega (arith, le_bytes_inj i head_word (omega arith) (omega arith) (e ∙ sym head_spelled))))

pub element-ne-tail :
    (key : Text) (i : ℕ) → i < head_word → (element_key key i == tail_key key) ≡ false
element-ne-tail key i h =
    element_key-eq_tail key i
    ∙ ==_false _ _ (λ e.
      absurd (
        omega (arith, le_bytes_inj i tail_word (omega arith) (omega arith) (e ∙ sym tail_spelled))))

-- For every queue, the key of the element at index 1684104552 is the key of the head, and the
-- key of the element at 1818845556 that of the tail.
pub element_key-collides :
    (key : Text)
    → (element_key key head_word ≡ head_key key) × (element_key key tail_word ≡ tail_key key)
element_key-collides key = (
  (==_iff _ _).0 (element_key-eq_head key head_word ∙ ==_of_path head_spelled),
  (==_iff _ _).0 (element_key-eq_tail key tail_word ∙ ==_of_path tail_spelled),
)
