-- ===== src/Functions/Intersect/Marks.antt =====
-- What the marks of the intersection mean.
use Prim.Native.Nat.{Ordering, min}
use incubator_mesatee.Base.{
  Text, ◌==◌, ==_iff, ◌≡◌, refl, inl, inr, Bool, true, false, ℕ, suc, List, [], ◌∷◌, if◌then◌else◌,
  arith, ap, ◌∙◌, ◌⊎◌, map, Result, ok,
}
use incubator_mesatee.Functions.Intersect.{cmp, intersection_ordered_vec, parse_input_data}
use incubator_mesatee.Functions.Intersect.Order.{
  Ordering-cases, flip, cmp-eq, cmp-flip, towards, IsOrdered, IsOrdered-tail, occurrences,
  occurrences-absent,
}
use incubator_mesatee.Functions.Intersect.Parse.{parse_input_data-IsOrdered}

-- how many of the marked elements are the value
unfoldable pub marked : Text → List Text → List Bool → ℕ
marked v [] ms = 0
marked v (x ∷ xs) [] = 0
marked v (x ∷ xs) (true ∷ ms) = if x == v then suc (marked v xs ms) else marked v xs ms
marked v (x ∷ xs) (false ∷ ms) = marked v xs ms

marked-unmarked : (v : Text) (xs ys : List Text) → marked v ys (map (λ _. false) xs) ≡ 0
unfolding marked
marked-unmarked v [] [] = refl
marked-unmarked v [] (y ∷ ys) = refl
marked-unmarked v (x ∷ xs) [] = refl
marked-unmarked v (x ∷ xs) (y ∷ ys) = marked-unmarked v xs ys

passes_first :
    (b : Bool) (x y : Text) (xs ys : List Text)
    → towards b x y ≡ Ordering.lt
    → intersection_ordered_vec b (x ∷ xs) (y ∷ ys) ≡ (
      false ∷ (intersection_ordered_vec b xs (y ∷ ys)).0,
      (intersection_ordered_vec b xs (y ∷ ys)).1,
    )
unfolding intersection_ordered_vec towards
passes_first true x y xs ys h = ground (arith, h)
passes_first false x y xs ys h = ground (arith, cmp-flip x y, cmp-flip y x, h)

passes_second :
    (b : Bool) (x y : Text) (xs ys : List Text)
    → towards b y x ≡ Ordering.lt
    → intersection_ordered_vec b (x ∷ xs) (y ∷ ys) ≡ (
      (intersection_ordered_vec b (x ∷ xs) ys).0,
      false ∷ (intersection_ordered_vec b (x ∷ xs) ys).1,
    )
unfolding intersection_ordered_vec towards
passes_second true x y xs ys h = ground (arith, cmp-flip y x, h)
passes_second false x y xs ys h = ground (arith, h)

marks_both :
    (b : Bool) (x y : Text) (xs ys : List Text)
    → cmp x y ≡ Ordering.eq
    → intersection_ordered_vec b (x ∷ xs) (y ∷ ys)
      ≡ (true ∷ (intersection_ordered_vec b xs ys).0, true ∷ (intersection_ordered_vec b xs ys).1)
unfolding intersection_ordered_vec
marks_both b x y xs ys h = ground (arith, h)

towards-cases :
    (b : Bool) (x y : Text)
    → (towards b x y ≡ Ordering.lt) ⊎ ((towards b y x ≡ Ordering.lt) ⊎ (cmp x y ≡ Ordering.eq))
unfolding towards
towards-cases true x y = elim (Ordering-cases (cmp x y)) [
  | inl e ↦ inl e
  | inr (inl e) ↦ inr (inr e)
  | inr (inr e) ↦ inr (inl (cmp-flip x y ∙ ap flip e))
]
towards-cases false x y = elim (Ordering-cases (cmp x y)) [
  | inl e ↦ inr (inl e)
  | inr (inl e) ↦ inr (inr e)
  | inr (inr e) ↦ inl (cmp-flip x y ∙ ap flip e)
]

-- For two lists in the order asked for, each mark of the one goes to an element of the other: of
-- every value, as many are marked in either list as stand in both.
intersection_ordered_vec-marked :
    (b : Bool) (xs ys : List Text) (v : Text)
    → IsOrdered b xs
    → IsOrdered b ys
    → (marked v xs (intersection_ordered_vec b xs ys).0 ≡ min (occurrences v xs) (occurrences v ys))
      × (marked v ys (intersection_ordered_vec b xs ys).1
          ≡ min (occurrences v xs) (occurrences v ys))
unfolding intersection_ordered_vec marked occurrences
intersection_ordered_vec-marked b [] ys v ox oy = ground (arith, marked-unmarked v ys ys)
intersection_ordered_vec-marked b (x ∷ xs) [] v ox oy =
    ground (arith, marked-unmarked v (x ∷ xs) (x ∷ xs))
intersection_ordered_vec-marked b (x ∷ xs) (y ∷ ys) v ox oy =
    let ox' = IsOrdered-tail b x xs ox in
    let oy' = IsOrdered-tail b y ys oy in
    elim (towards-cases b x y) [
      | inl e ↦ ground (
        arith,
        passes_first b x y xs ys e,
        ==_iff x v,
        occurrences-absent b x y ys e oy,
        intersection_ordered_vec-marked b xs (y ∷ ys) v ox' oy,
      )
      | inr (inl e) ↦ ground (
        arith,
        passes_second b x y xs ys e,
        ==_iff y v,
        occurrences-absent b y x xs e ox,
        intersection_ordered_vec-marked b (x ∷ xs) ys v ox oy',
      )
      | inr (inr e) ↦ ground (
        arith,
        marks_both b x y xs ys e,
        cmp-eq x y e,
        intersection_ordered_vec-marked b xs ys v ox' oy',
      )
    ]

-- Two inputs that the function accepts: of every value, as many lines are marked in either output
-- as stand in both inputs.
pub parse_input_data-marked :
    (hex_decode : Text → Result Text Text) (b : Bool) (input1 input2 : Text) (xs ys : List Text)
    (v : Text)
    → parse_input_data hex_decode input1 b ≡ ok xs
    → parse_input_data hex_decode input2 b ≡ ok ys
    → (marked v xs (intersection_ordered_vec b xs ys).0 ≡ min (occurrences v xs) (occurrences v ys))
      × (marked v ys (intersection_ordered_vec b xs ys).1
          ≡ min (occurrences v xs) (occurrences v ys))
parse_input_data-marked hex_decode b input1 input2 xs ys v e f =
    intersection_ordered_vec-marked b xs ys v (parse_input_data-IsOrdered hex_decode b input1 xs e)
      (parse_input_data-IsOrdered hex_decode b input2 ys f)
