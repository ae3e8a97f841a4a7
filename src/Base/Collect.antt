-- ===== src/Base/Collect.antt =====
-- `map` with `collect::<Result<Vec<_>, _>>`, and what a collection that succeeds shows of every
-- element.
use mathlib.Core.Path.{◌≡◌, subst}
use mathlib.Core.Logic.{inl, inr}
use mathlib.Core.List.{List, [], ◌∷◌}
use native.Mathlib.Omega.{arith}
use incubator_mesatee.Base.Outcome.{Action, ok, pure, ◌>>=◌, Result-cases}

-- It stops at the first error.
unfoldable pub collect {ℓ} :
    {A : Type ℓ} {S E B : Type 0} → (A → Action S E B) → List A → Action S E (List B)
collect f [] = pure []
collect f (x ∷ xs) = do y ← f x; ys ← collect f xs; pure (y ∷ ys)

unfoldable pub All {ℓ} : {A : Type ℓ} → (A → Type 0) → List A → Type 0
All P [] = Unit
All P (x ∷ xs) = P x × All P xs

-- a property of the elements that a successful `f` shows, with what it returns
unfoldable pub Zip : {A B : Type 0} → (A → B → Type 0) → List A → List B → Type 0
Zip R [] [] = Unit
Zip R [] (y ∷ ys) = ⊥
Zip R (x ∷ xs) [] = ⊥
Zip R (x ∷ xs) (y ∷ ys) = R x y × Zip R xs ys

-- the first of two steps, and the second, of a call that succeeds
pub bind-parts :
    {S E A B : Type 0} (m : Action S E A) (f : A → Action S E B) (s : S) (b : B)
    → ((m >>= f) s).0 ≡ ok b
    → (a : A) × ((m s).0 ≡ ok a) × ((f a (m s).1).0 ≡ ok b)
unfolding ◌>>=◌
bind-parts m f s b h = elim (Result-cases (m s).0) [
  | inl (a, e) ↦ (a, e, ground (arith, h, e))
  | inr (x, e) ↦ absurd (ground (arith, h, e))
]

pub collect-Zip :
    {S E A B : Type 0} (R : A → B → Type 0) (f : A → Action S E B)
    → ((x : A) (s : S) (y : B) → (f x s).0 ≡ ok y → R x y)
    → (xs : List A) (s : S) (ys : List B) → (collect f xs s).0 ≡ ok ys
    → Zip R xs ys
unfolding collect Zip pure
collect-Zip R f each [] s [] h = tt
collect-Zip R f each [] s (y ∷ ys) h = absurd (ground (arith, h))
collect-Zip R f each (x ∷ xs) s ys h =
    let (y, e, r) = bind-parts (f x) (λ y. collect f xs >>= λ zs. pure (y ∷ zs)) s ys h in
    let (zs, g, q) = bind-parts (collect f xs) (λ zs. pure (y ∷ zs)) (f x s).1 ys r in
    let same : y ∷ zs ≡ ys = ground (arith, q) in
    subst (Zip R (x ∷ xs)) same (each x s y e, collect-Zip R f each xs (f x s).1 zs g)

pub Zip-All :
    {A B : Type 0} (R : A → B → Type 0) (P : A → Type 0) (Q : B → Type 0)
    → ((x : A) (y : B) → R x y → Q y → P x)
    → (xs : List A) (ys : List B) → Zip R xs ys
    → All Q ys
    → All P xs
unfolding Zip All
Zip-All R P Q each [] ys z a = tt
Zip-All R P Q each (x ∷ xs) [] z a = absurd z
Zip-All R P Q each (x ∷ xs) (y ∷ ys) z a = (each x y z.0 a.0, Zip-All R P Q each xs ys z.1 a.1)

pub Zip-first :
    {A B : Type 0} (R : A → B → Type 0) (P : A → Type 0)
    → ((x : A) (y : B) → R x y → P x)
    → (xs : List A) (ys : List B) → Zip R xs ys
    → All P xs
unfolding Zip All
Zip-first R P each [] ys z = tt
Zip-first R P each (x ∷ xs) [] z = absurd z
Zip-first R P each (x ∷ xs) (y ∷ ys) z = (each x y z.0, Zip-first R P each xs ys z.1)
