-- ===== src/Base/Bytes.antt =====
-- Slices of byte vectors: `truncate`, and the tail of an index range.
use Prim.Native.Nat.{ℕ, zero, suc, ◌-◌}
use mathlib.Core.Path.{◌≡◌, refl, ap, ◌∙◌}
use mathlib.Core.List.{List, [], ◌∷◌, ◌++◌}
use native.Mathlib.Omega.{arith}
use incubator_mesatee.Base.Tests.{length, length-append}

module _ {ℓ} {A : Type ℓ} where
  -- `truncate`, and the slice `s[0..n]` when there are so many
  unfoldable pub truncate : ℕ → List A → List A
  truncate n [] = []
  truncate zero (c ∷ s) = []
  truncate (suc n) (c ∷ s) = c ∷ truncate n s

  -- the slice `s[n..]`
  unfoldable pub drop : ℕ → List A → List A
  drop n [] = []
  drop zero (c ∷ s) = c ∷ s
  drop (suc n) (c ∷ s) = drop n s

  pub truncate-length : (a b : List A) → truncate (length a) (a ++ b) ≡ a
  unfolding truncate
  truncate-length [] [] = refl
  truncate-length [] (x ∷ b) = refl
  truncate-length (x ∷ a) b = ap (◌∷◌ x) (truncate-length a b)

  pub drop-length : (a b : List A) → drop (length a) (a ++ b) ≡ b
  unfolding drop
  drop-length [] [] = refl
  drop-length [] (x ∷ b) = refl
  drop-length (x ∷ a) b = drop-length a b

  length-less : (a b : List A) (n : ℕ) → length b ≡ n → length (a ++ b) - n ≡ length a
  length-less a b n e = omega (arith, e, length-append a b)

  pub truncate-append :
      (a b : List A) (n : ℕ) → length b ≡ n → truncate (length (a ++ b) - n) (a ++ b) ≡ a
  truncate-append a b n e =
      ap (λ m. truncate m (a ++ b)) (length-less a b n e) ∙ truncate-length a b

  pub drop-append : (a b : List A) (n : ℕ) → length b ≡ n → drop (length (a ++ b) - n) (a ++ b) ≡ b
  drop-append a b n e = ap (λ m. drop m (a ++ b)) (length-less a b n e) ∙ drop-length a b

  pub truncate-all : (a : List A) (n : ℕ) → length a ≡ n → truncate n a ≡ a
  unfolding truncate
  truncate-all [] n h = refl
  truncate-all (x ∷ a) zero h = absurd (omega (arith, h))
  truncate-all (x ∷ a) (suc n) h = ap (◌∷◌ x) (truncate-all a n (omega (arith, h)))
