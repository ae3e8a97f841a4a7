-- ===== src/Base/HashSet.antt =====
-- `std::collections::HashSet<String>` as a list without repetitions: what `contains`, `insert`,
-- `len`, `collect` and `==` do. The order, which Rust leaves open, is the list's.
use mathlib.Core.Path.{◌≡◌, refl}
use mathlib.Core.Bool.{Bool, true, false, ◌&&◌, ◌||◌}
use mathlib.Core.List.{List, [], ◌∷◌}
use native.Mathlib.Omega.{arith}
use incubator_mesatee.Base.Tests.{eqb, if◌then◌else◌, length}
use incubator_mesatee.Base.Utf8.{Text, ◌==◌, ==_iff}

abbrev pub HashSet : Type 0
HashSet = List Text

unfoldable pub contains : HashSet → Text → Bool
contains [] x = false
contains (y ∷ ys) x = y == x || contains ys x

unfoldable pub insert : HashSet → Text → HashSet
insert s x = if contains s x then s else x ∷ s

-- `iter.collect::<HashSet<_>>()`
unfoldable pub collect : List Text → HashSet
collect [] = []
collect (x ∷ xs) = insert (collect xs) x

unfoldable pub all_in : HashSet → HashSet → Bool
all_in [] t = true
all_in (x ∷ s) t = contains t x && all_in s t

-- `impl PartialEq for HashSet`: the same number of elements, each of them in the other
unfoldable pub eq : HashSet → HashSet → Bool
eq s t = eqb (length s) (length t) && all_in s t

pub contains-insert :
    (s : HashSet) (x y : Text) → contains (insert s x) y ≡ (x == y || contains s y)
unfolding contains insert
contains-insert s x y = ground (arith, ==_iff x y)

pub contains-collect : (xs : List Text) (y : Text) → contains (collect xs) y ≡ contains xs y
unfolding contains collect
contains-collect [] y = refl
contains-collect (x ∷ xs) y =
    ground (arith, contains-insert (collect xs) x y, contains-collect xs y)

all_in-contains :
    (s t : HashSet) (x : Text) → all_in s t ≡ true → contains s x ≡ true → contains t x ≡ true
unfolding contains all_in
all_in-contains [] t x h m = ground arith
all_in-contains (y ∷ s) t x h m = ground (arith, ==_iff y x, all_in-contains s t x)

-- Equal sets: what the one contains, so does the other.
pub eq-contains :
    (s t : HashSet) (x : Text) → eq s t ≡ true → contains s x ≡ true → contains t x ≡ true
unfolding eq
eq-contains s t x h m = ground (arith, all_in-contains s t x)

all_in-cons : (s t : HashSet) (x : Text) → all_in s t ≡ true → all_in s (x ∷ t) ≡ true
unfolding contains all_in
all_in-cons [] t x h = refl
all_in-cons (y ∷ s) t x h = ground (arith, all_in-cons s t x)

all_in_refl : (s : HashSet) → all_in s s ≡ true
unfolding contains all_in
all_in_refl [] = refl
all_in_refl (x ∷ s) = ground (arith, ==_iff x x, all_in-cons s s x, all_in_refl s)

pub eq_refl : (s : HashSet) → eq s s ≡ true
unfolding eq
eq_refl s = ground (arith, all_in_refl s)
