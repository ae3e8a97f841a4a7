-- ===== src/Base/Utf8.antt =====
-- A Rust `String` or `&str` is its sequence of UTF-8 bytes. A literal of the source, which is
-- ASCII, is written `utf8 "…"`.
use Prim.Native.Nat.{ℕ}
use Prim.Native.Char.{code}
use Prim.Native.String.{String}
use mathlib.Core.Path.{◌≡◌, refl}
use mathlib.Core.Logic.{◌↔◌, ◌⊎◌, inl, inr}
use mathlib.Core.Bool.{Bool, true, false, ◌&&◌}
use mathlib.Core.List.{List, [], ◌∷◌}
use native.Mathlib.Omega.{arith}
use incubator_mesatee.Base.Tests.{eqb}

abbrev pub Text : Type 0
Text = List ℕ

abbrev pub utf8 : String → Text
utf8 String.[] = []
utf8 (String.◌∷◌ c s) = code c ∷ utf8 s

infix 50 ◌==◌
unfoldable pub ◌==◌ : Text → Text → Bool
[] == [] = true
[] == (y ∷ ys) = false
(x ∷ xs) == [] = false
(x ∷ xs) == (y ∷ ys) = eqb x y && xs == ys

-- `str::starts_with`
unfoldable pub starts_with : Text → Text → Bool
starts_with s [] = true
starts_with [] (p ∷ ps) = false
starts_with (c ∷ s) (p ∷ ps) = eqb c p && starts_with s ps

eq_of_== : (a b : Text) → (a == b) ≡ true → a ≡ b
unfolding ◌==◌
eq_of_== [] [] h = refl
eq_of_== [] (y ∷ ys) h = ground arith
eq_of_== (x ∷ xs) [] h = ground arith
eq_of_== (x ∷ xs) (y ∷ ys) h = ground (arith, eq_of_== xs ys)

pub ==_refl : (a : Text) → (a == a) ≡ true
unfolding ◌==◌
==_refl [] = refl
==_refl (x ∷ xs) = ground (arith, ==_refl xs)

==_of_eq : (a b : Text) → a ≡ b → (a == b) ≡ true
==_of_eq a b e = ground (arith, ==_refl a)

-- The Boolean test decides equality.
pub ==_iff : (a b : Text) → ((a == b) ≡ true) ↔ (a ≡ b)
==_iff a b = (eq_of_== a b, ==_of_eq a b)

pub text_cases : (a b : Text) → (a ≡ b) ⊎ ((a == b) ≡ false)
text_cases a b = go (a == b) refl
  where
    go : (t : Bool) → (a == b) ≡ t → (a ≡ b) ⊎ ((a == b) ≡ false)
    go true e = inl (eq_of_== a b e)
    go false e = inr e
