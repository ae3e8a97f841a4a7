-- ===== src/Functions/Intersect/Order.antt =====
-- The order of byte vectors, and lists in the order that `parse_input_data` asks for.
use Prim.Native.Nat.{Ordering}
use incubator_mesatee.Base.{
  Text, ◌==◌, ==_iff, ◌≡◌, refl, sym, ap, ◌∙◌, ◌⊎◌, inl, inr, Bool, true, false, ℕ, suc, List, [],
  ◌∷◌, if◌then◌else◌, arith,
}
use incubator_mesatee.Functions.Intersect.{cmp, misplaced}

abbrev pub flip : Ordering → Ordering
flip Ordering.lt = Ordering.gt
flip Ordering.eq = Ordering.eq
flip Ordering.gt = Ordering.lt

pub Ordering-cases : (o : Ordering) → (o ≡ Ordering.lt) ⊎ ((o ≡ Ordering.eq) ⊎ (o ≡ Ordering.gt))
Ordering-cases Ordering.lt = inl refl
Ordering-cases Ordering.eq = inr (inl refl)
Ordering-cases Ordering.gt = inr (inr refl)

pub cmp-eq : (x y : Text) → cmp x y ≡ Ordering.eq → x ≡ y
unfolding cmp
cmp-eq [] [] h = refl
cmp-eq [] (y ∷ ys) h = absurd (ground (arith, h))
cmp-eq (x ∷ xs) [] h = absurd (ground (arith, h))
cmp-eq (x ∷ xs) (y ∷ ys) h = ground (arith, h, cmp-eq xs ys)

cmp_refl : (x : Text) → cmp x x ≡ Ordering.eq
unfolding cmp
cmp_refl [] = refl
cmp_refl (x ∷ xs) = ground (arith, cmp_refl xs)

pub cmp-flip : (x y : Text) → cmp y x ≡ flip (cmp x y)
unfolding cmp
cmp-flip [] [] = refl
cmp-flip [] (y ∷ ys) = refl
cmp-flip (x ∷ xs) [] = refl
cmp-flip (x ∷ xs) (y ∷ ys) = ground (arith, cmp-flip xs ys)

cmp_trans : (x y z : Text) → cmp x y ≡ Ordering.lt → cmp y z ≡ Ordering.lt → cmp x z ≡ Ordering.lt
unfolding cmp
cmp_trans [] [] z h k = absurd (ground (arith, h))
cmp_trans [] (y ∷ ys) [] h k = absurd (ground (arith, k))
cmp_trans [] (y ∷ ys) (z ∷ zs) h k = refl
cmp_trans (x ∷ xs) [] z h k = absurd (ground (arith, h))
cmp_trans (x ∷ xs) (y ∷ ys) [] h k = absurd (ground (arith, k))
cmp_trans (x ∷ xs) (y ∷ ys) (z ∷ zs) h k = ground (arith, h, k, cmp_trans xs ys zs)

-- the order in the direction of the input
unfoldable pub towards : Bool → Text → Text → Ordering
towards true x y = cmp x y
towards false x y = cmp y x

-- each element may stand after the one before it
unfoldable pub IsOrdered : Bool → List Text → Type 0
IsOrdered ascending [] = Unit
IsOrdered ascending (x ∷ []) = Unit
IsOrdered ascending (x ∷ y ∷ ys) = (misplaced ascending x y ≡ false) × IsOrdered ascending (y ∷ ys)

-- how often a value stands in a list
unfoldable pub occurrences : Text → List Text → ℕ
occurrences v [] = 0
occurrences v (x ∷ xs) = if x == v then suc (occurrences v xs) else occurrences v xs

pub IsOrdered-tail : (b : Bool) (x : Text) (xs : List Text) → IsOrdered b (x ∷ xs) → IsOrdered b xs
unfolding IsOrdered
IsOrdered-tail b x [] h = tt
IsOrdered-tail b x (y ∷ ys) h = h.1

later :
    (b : Bool) (x y z : Text)
    → towards b x y ≡ Ordering.lt
    → misplaced b y z ≡ false
    → towards b x z ≡ Ordering.lt
unfolding towards misplaced
later true x y z h m = elim (Ordering-cases (cmp y z)) [
  | inl e ↦ cmp_trans x y z h e
  | inr (inl e) ↦ ap (cmp x) (sym (cmp-eq y z e)) ∙ h
  | inr (inr e) ↦ absurd (ground (arith, m, cmp-flip y z, e))
]
later false x y z h m = elim (Ordering-cases (cmp z y)) [
  | inl e ↦ cmp_trans z y x e h
  | inr (inl e) ↦ ap (λ (w : Text). cmp w x) (cmp-eq z y e) ∙ h
  | inr (inr e) ↦ absurd (ground (arith, m, e))
]

apart : (b : Bool) (x y : Text) → towards b x y ≡ Ordering.lt → (y == x) ≡ false
unfolding towards
apart true x y h = ground (arith, ==_iff y x, h, cmp_refl x)
apart false x y h = ground (arith, ==_iff y x, h, cmp_refl x)

-- What comes before the first element of an ordered list does not stand in it.
pub occurrences-absent :
    (b : Bool) (x y : Text) (ys : List Text)
    → towards b x y ≡ Ordering.lt
    → IsOrdered b (y ∷ ys)
    → occurrences x (y ∷ ys) ≡ 0
unfolding occurrences IsOrdered
occurrences-absent b x y [] h o = ground (arith, apart b x y h)
occurrences-absent b x y (z ∷ zs) h o =
    ground (arith, apart b x y h, occurrences-absent b x z zs (later b x y z h o.0) o.1)
