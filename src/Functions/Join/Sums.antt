-- ===== src/Functions/Join/Sums.antt =====
-- Which identities the join keeps, and with which sums.
use incubator_mesatee.Base.{
  Text, ==_iff, ◌≡◌, refl, ap, ◌∙◌, ℕ, zero, suc, ◌+◌, ◌%◌, ◌^◌, ◌<◌, List, [], ◌∷◌, Option, none,
  some, ok, Result-cases, Option-cases, inl, inr, arith, length, pure, lift, ◌>>=◌,
}
use incubator_mesatee.Base.HashMap.{HashMap, get, get-insert}
use incubator_mesatee.Functions.Join.{get_intersection_sum, parse_input, get_data, join_rounds}
use incubator_mesatee.Types.Runtime.{Runtime}

-- the sum of two amounts, if both are there
unfoldable pub both : Option ℕ → Option ℕ → Option ℕ
both none b = none
both (some a) none = none
both (some a) (some b) = some ((a + b) % 2 ^ 32)

get_intersection_sum-get :
    (m n : HashMap ℕ) (k : Text) → get (get_intersection_sum m n) k ≡ both (get m k) (get n k)
unfolding get_intersection_sum get both
get_intersection_sum-get [] n k = refl
get_intersection_sum-get ((i, a) ∷ m) n k = elim (Option-cases (get n i)) [
  | inl e ↦ ground (arith, e, ==_iff i k, get_intersection_sum-get m n k)
  | inr (b, e) ↦ ground (
    arith,
    e,
    ==_iff i k,
    get_intersection_sum-get m n k,
    get-insert (get_intersection_sum m n) i ((a + b) % 2 ^ 32) k,
  )
]

-- the amounts of all parties for an identity, if each party has one
unfoldable pub amounts : Text → List (HashMap ℕ) → Option (List ℕ)
amounts k [] = some []
amounts k (m ∷ ms) = elim (get m k) [
  | none ↦ none
  | some a ↦ elim (amounts k ms) [ none ↦ none | some rest ↦ some (a ∷ rest) ]
]

-- added from left to right, with the wrap-around of `u32`
unfoldable pub wrapping_total : ℕ → List ℕ → ℕ
wrapping_total a [] = a
wrapping_total a (b ∷ bs) = wrapping_total ((b + a) % 2 ^ 32) bs

unfoldable pub total : ℕ → List ℕ → ℕ
total a [] = a
total a (b ∷ bs) = total (b + a) bs

total-ge : (a : ℕ) (bs : List ℕ) → (c : ℕ) × (total a bs ≡ a + c)
unfolding total
total-ge a [] = (0, omega arith)
total-ge a (b ∷ bs) = let (c, e) = total-ge (b + a) bs in (b + c, omega (arith, e))

wrapping_total-exact :
    (a : ℕ) (bs : List ℕ) → total a bs < 4_294_967_296 → wrapping_total a bs ≡ total a bs
unfolding total wrapping_total
wrapping_total-exact a [] h = refl
wrapping_total-exact a (b ∷ bs) h =
    let (c, e) = total-ge (b + a) bs in
    let small : (b + a) % 4_294_967_296 ≡ b + a = omega (arith, h, e) in
    ap (λ n. wrapping_total n bs) small ∙ wrapping_total-exact (b + a) bs h

-- the map after the parties `ms` have joined the first
unfoldable pub joined : HashMap ℕ → List (HashMap ℕ) → HashMap ℕ
joined res [] = res
joined res (m ∷ ms) = joined (get_intersection_sum m res) ms

unfoldable pub expected : Option ℕ → Option (List ℕ) → Option ℕ
expected none bs = none
expected (some a) none = none
expected (some a) (some bs) = some (wrapping_total a bs)

joined-get :
    (res : HashMap ℕ) (ms : List (HashMap ℕ)) (k : Text)
    → get (joined res ms) k ≡ expected (get res k) (amounts k ms)
unfolding joined amounts expected both wrapping_total
joined-get res [] k = ground (arith, Option-cases (get res k))
joined-get res (m ∷ ms) k = ground (
  arith,
  joined-get (get_intersection_sum m res) ms k,
  get_intersection_sum-get m res k,
  Option-cases (get res k),
  Option-cases (get m k),
  Option-cases (amounts k ms),
)

module _ (r : Runtime) where
  -- what the users from `i` on are read to have, one after the other
  unfoldable pub Inputs : ℕ → r.State → List (HashMap ℕ) → Type 0
  Inputs i s [] = Unit
  Inputs i s (m ∷ ms) =
      (bytes : Text) × (s1 : r.State) × (get_data r i s ≡ (ok bytes, s1))
      × (parse_input bytes ≡ ok m)
      × Inputs (suc i) s1 ms

  join_rounds-joined :
      (n i : ℕ) (res m : HashMap ℕ) (s : r.State)
      → (join_rounds r n i res s).0 ≡ ok m
      → (ms : List (HashMap ℕ)) × (length ms ≡ n) × Inputs i s ms × (m ≡ joined res ms)
  unfolding join_rounds Inputs joined pure lift ◌>>=◌
  join_rounds-joined zero i res m s h = ([], refl, tt, ground (arith, h))
  join_rounds-joined (suc n) i res m s h = elim (Result-cases (get_data r i s).0) [
    | inr (x, e) ↦ absurd (ground (arith, h, e))
    | inl (bytes, e) ↦ elim (Result-cases (parse_input bytes)) [
      | inr (x, f) ↦ absurd (ground (arith, h, e, f))
      | inl (m1, f) ↦
          let s1 = (get_data r i s).1 in
          let rest : (join_rounds r n (suc i) (get_intersection_sum m1 res) s1).0 ≡ ok m =
            ground (arith, h, e, f) in
          let (ms, l, read, q) =
            join_rounds-joined n (suc i) (get_intersection_sum m1 res) m s1 rest in
          (m1 ∷ ms, ap suc l, (bytes, s1, ap (λ a. (a, s1)) e, f, read), q)
    ]
  ]

  -- When the rounds after the first user end, they have read the maps of the other users, and an
  -- identity has an amount exactly if every user has one for it: their sum, modulo 2 ^ 32 at each
  -- addition.
  pub join_rounds-sums :
      (n : ℕ) (res m : HashMap ℕ) (s : r.State)
      → (join_rounds r n 1 res s).0 ≡ ok m
      → (ms : List (HashMap ℕ)) × (length ms ≡ n)
        × Inputs 1 s ms
        × ((k : Text) → get m k ≡ expected (get res k) (amounts k ms))
  join_rounds-sums n res m s h =
      let (ms, l, read, q) = join_rounds-joined n 1 res m s h in
      (ms, l, read, λ k. ap (λ x. get x k) q ∙ joined-get res ms k)

-- The wrap-around of `u32` does not show as long as the sum is below 2 ^ 32.
expected-exact :
    (a : ℕ) (bs : List ℕ)
    → total a bs < 4_294_967_296
    → expected (some a) (some bs) ≡ some (total a bs)
unfolding expected
expected-exact a bs h = ap some (wrapping_total-exact a bs h)
