-- ===== src/Base/HashMap.antt =====
-- `std::collections::HashMap<String, V>` as an association list with distinct keys: `get`,
-- `insert`, `keys`, `values`. Iteration goes in the order of the list.
use mathlib.Core.Path.{◌≡◌, refl}
use mathlib.Core.Bool.{true}
use mathlib.Core.Option.{Option, none, some}
use mathlib.Core.List.{List, [], ◌∷◌, map}
use native.Mathlib.Omega.{arith}
use incubator_mesatee.Base.Tests.{if◌then◌else◌, is_some}
use incubator_mesatee.Base.Utf8.{Text, ◌==◌, ==_iff}
use incubator_mesatee.Base.HashSet.{contains}

abbrev pub HashMap : Type 0 → Type 0
HashMap V = List (Text × V)

module _ {V : Type 0} where
  unfoldable pub get : HashMap V → Text → Option V
  get [] k = none
  get ((j, v) ∷ m) k = if j == k then some v else get m k

  unfoldable pub insert : HashMap V → Text → V → HashMap V
  insert [] k v = (k, v) ∷ []
  insert ((j, w) ∷ m) k v = if j == k then (j, v) ∷ m else (j, w) ∷ insert m k v

  -- `get_mut` and an assignment through it
  unfoldable pub modify : HashMap V → Text → V → HashMap V
  modify [] k v = []
  modify ((j, w) ∷ m) k v = if j == k then (j, v) ∷ m else (j, w) ∷ modify m k v

  abbrev pub keys : HashMap V → List Text
  keys m = map (λ e. e.0) m

  abbrev pub values : HashMap V → List V
  values m = map (λ e. e.1) m

  pub get-insert :
      (m : HashMap V) (k : Text) (v : V) (j : Text)
      → get (insert m k v) j ≡ (if k == j then some v else get m j)
  unfolding get insert
  get-insert [] k v j = refl
  get-insert ((i, w) ∷ m) k v j =
      ground (arith, ==_iff i k, ==_iff i j, ==_iff k j, get-insert m k v j)

  pub get-modify :
      (m : HashMap V) (k : Text) (v : V) (j : Text)
      → is_some (get m k) ≡ true
      → get (modify m k v) j ≡ (if k == j then some v else get m j)
  unfolding get modify
  get-modify [] k v j h = ground arith
  get-modify ((i, w) ∷ m) k v j h =
      ground (arith, ==_iff i k, ==_iff i j, ==_iff k j, get-modify m k v j)

  pub keys-modify : (m : HashMap V) (k : Text) (v : V) → keys (modify m k v) ≡ keys m
  unfolding modify
  keys-modify [] k v = refl
  keys-modify ((i, w) ∷ m) k v = ground (arith, keys-modify m k v)

  contains-keys : (m : HashMap V) (k : Text) → contains (keys m) k ≡ is_some (get m k)
  unfolding get contains
  contains-keys [] k = refl
  contains-keys ((i, w) ∷ m) k = ground (arith, contains-keys m k)
