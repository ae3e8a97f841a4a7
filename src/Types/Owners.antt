-- ===== src/Types/Owners.antt =====
-- `OwnerList` and `UserID` of types/src/task.rs. A `UserID` is its string.
use incubator_mesatee.Base.{
  Text, ◌==◌, ==_iff, ◌≡◌, refl, Bool, true, false, ◌||◌, List, [], ◌∷◌, ℕ, arith, foldl,
}
use incubator_mesatee.Base
use incubator_mesatee.Base.HashSet
use incubator_mesatee.Base.HashSet.{HashSet}

abbrev pub UserId : Type 0
UserId = Text

pub record OwnerList : Type 0 where
  pub uids : HashSet

-- `OwnerList::default()`
abbrev pub empty : OwnerList
empty = record { uids = [] }

-- `OwnerList::new` and `From<Vec<T>>`
unfoldable pub from_list : List UserId → OwnerList
from_list owners = record { uids = HashSet.collect owners }

unfoldable pub contains : OwnerList → UserId → Bool
contains o uid = HashSet.contains o.uids uid

unfoldable pub length : OwnerList → ℕ
length o = Base.length o.uids

unfoldable pub insert : OwnerList → UserId → OwnerList
insert o uid = record { uids = HashSet.insert o.uids uid }

-- the loop of `union`
abbrev insert_all : HashSet → HashSet → HashSet
insert_all s [] = s
insert_all s (v ∷ vs) = insert_all (HashSet.insert s v) vs

unfoldable pub union : OwnerList → OwnerList → OwnerList
union o p = record { uids = insert_all o.uids p.uids }

unfoldable pub unions : List OwnerList → OwnerList
unions = foldl union empty

-- the derived `==`
unfoldable pub eq : OwnerList → OwnerList → Bool
eq o p = HashSet.eq o.uids p.uids

contains-from_list :
    (us : List UserId) (u : UserId) → contains (from_list us) u ≡ HashSet.contains us u
unfolding contains from_list
contains-from_list us u = HashSet.contains-collect us u

pub contains-insert :
    (o : OwnerList) (u v : UserId) → contains (insert o u) v ≡ (u == v || contains o v)
unfolding contains insert
contains-insert o u v = HashSet.contains-insert o.uids u v

contains-insert_all :
    (s t : HashSet) (v : UserId)
    → HashSet.contains (insert_all s t) v ≡ (HashSet.contains s v || HashSet.contains t v)
unfolding HashSet.contains
contains-insert_all s [] v = ground arith
contains-insert_all s (u ∷ t) v =
    ground (
      arith,
      contains-insert_all (HashSet.insert s u) t v,
      HashSet.contains-insert s u v,
      ==_iff u v,
    )

contains-union :
    (o p : OwnerList) (v : UserId) → contains (union o p) v ≡ (contains o v || contains p v)
unfolding contains union
contains-union o p v = contains-insert_all o.uids p.uids v

-- some list of the sequence contains the user
unfoldable pub any_contains : List OwnerList → UserId → Bool
any_contains [] v = false
any_contains (o ∷ os) v = contains o v || any_contains os v

contains-fold :
    (os : List OwnerList) (o : OwnerList) (v : UserId)
    → contains (foldl union o os) v ≡ (contains o v || any_contains os v)
unfolding any_contains
contains-fold [] o v = ground arith
contains-fold (p ∷ os) o v = ground (arith, contains-fold os (union o p) v, contains-union o p v)

contains-empty : (v : UserId) → contains empty v ≡ false
unfolding contains HashSet.contains
contains-empty v = refl

-- `unions` contains exactly the users of its parts.
pub contains-unions :
    (os : List OwnerList) (v : UserId) → contains (unions os) v ≡ any_contains os v
unfolding unions
contains-unions os v = ground (arith, contains-fold os empty v, contains-empty v)

-- Equal owner lists have the same users, read from the first to the second.
pub eq-contains :
    (o p : OwnerList) (v : UserId) → eq o p ≡ true → contains o v ≡ true → contains p v ≡ true
unfolding eq contains
eq-contains o p v h m = HashSet.eq-contains o.uids p.uids v h m

pub eq_refl : (o : OwnerList) → eq o o ≡ true
unfolding eq
eq_refl o = HashSet.eq_refl o.uids
