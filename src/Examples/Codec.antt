-- ===== src/Examples/Codec.antt =====
-- A prefix code for values, in the place of `serde_json`.
use incubator_mesatee.Base.{
  Text, ◌≡◌, refl, arith, List, [], ◌∷◌, ℕ, zero, suc, Option, none, some, length, Result, ok, err,
  utf8,
}
use incubator_mesatee.Types.Storage.{Json}

-- `enc a rest` writes the value before the rest
pub record Codec (A : Type 0) : Type 0 where
  pub enc : A → Text → Text
  pub dec : Text → Option (A × Text)
  pub dec-enc : (a : A) (rest : Text) → dec (enc a rest) ≡ some (a, rest)

abbrev pub nat_dec : Text → Option (ℕ × Text)
nat_dec [] = none
nat_dec (n ∷ t) = some (n, t)

abbrev pub nat : Codec ℕ
nat = record { enc = λ n t. n ∷ t; dec = nat_dec; dec-enc = λ n t. refl }

module _ {A B : Type 0} (a : Codec A) (b : Codec B) where
  unfoldable pub both_dec : Text → Option ((A × B) × Text)
  both_dec t = elim (a.dec t) [
    | none ↦ none
    | some (x, t1) ↦ elim (b.dec t1) [ none ↦ none | some (y, t2) ↦ some ((x, y), t2) ]
  ]

  pub both_dec-enc : (p : A × B) (t : Text) → both_dec (a.enc p.0 (b.enc p.1 t)) ≡ some (p, t)
  unfolding both_dec
  both_dec-enc p t = ground (arith, a.dec-enc p.0 (b.enc p.1 t), b.dec-enc p.1 t)

  abbrev pub both : Codec (A × B)
  both = record { enc = λ p t. a.enc p.0 (b.enc p.1 t); dec = both_dec; dec-enc = both_dec-enc }

module _ {A B : Type 0} (a : Codec A) (to : B → A) (from : A → Option B)
    (from-to : (b : B) → from (to b) ≡ some b) where
  unfoldable pub via_dec : Text → Option (B × Text)
  via_dec t = elim (a.dec t) [
    | none ↦ none
    | some (x, t1) ↦ elim (from x) [ none ↦ none | some y ↦ some (y, t1) ]
  ]

  pub via_dec-enc : (b : B) (t : Text) → via_dec (a.enc (to b) t) ≡ some (b, t)
  unfolding via_dec
  via_dec-enc b t = ground (arith, a.dec-enc (to b) t, from-to b)

  abbrev pub via : Codec B
  via = record { enc = λ b t. a.enc (to b) t; dec = via_dec; dec-enc = via_dec-enc }

module _ {A : Type 0} (a : Codec A) where
  unfoldable pub items_enc : List A → Text → Text
  items_enc [] t = t
  items_enc (x ∷ xs) t = a.enc x (items_enc xs t)

  unfoldable pub items_dec : ℕ → Text → Option (List A × Text)
  items_dec zero t = some ([], t)
  items_dec (suc n) t = elim (a.dec t) [
    | none ↦ none
    | some (x, t1) ↦ elim (items_dec n t1) [ none ↦ none | some (xs, t2) ↦ some (x ∷ xs, t2) ]
  ]

  pub items_dec-enc :
      (xs : List A) (t : Text) → items_dec (length xs) (items_enc xs t) ≡ some (xs, t)
  unfolding items_dec items_enc
  items_dec-enc [] t = refl
  items_dec-enc (x ∷ xs) t = ground (arith, a.dec-enc x (items_enc xs t), items_dec-enc xs t)

  abbrev pub list_dec : Text → Option (List A × Text)
  list_dec [] = none
  list_dec (n ∷ t) = items_dec n t

  abbrev pub list : Codec (List A)
  list = record {
    enc = λ xs t. length xs ∷ items_enc xs t;
    dec = list_dec;
    dec-enc = items_dec-enc;
  }

abbrev pub text : Codec Text
text = list nat

module _ {A : Type 0} (a : Codec A) where
  abbrev pub written : A → Result Text Text
  written x = ok (a.enc x [])

  unfoldable pub from_text : Text → Result Text A
  from_text t = elim (a.dec t) [ none ↦ err (utf8 "malformed") | some (x, rest) ↦ ok x ]

  pub from_text-enc : (x : A) {b : Text} → written x ≡ ok b → from_text b ≡ ok x
  unfolding from_text
  from_text-enc x {b} h = ground (arith, a.dec-enc x [], h)

  abbrev pub json : Json A
  json = record { to_vec = written; from_slice = from_text; from_slice-to_vec = from_text-enc }
