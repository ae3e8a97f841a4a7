-- ===== src/Functions/Intersect/Parse.antt =====
-- What `parse_input_data` accepts is in order.
use incubator_mesatee.Base.{
  Text, ◌≡◌, Bool, false, List, [], ◌∷◌, Result, ok, Result-cases, inl, inr, arith, subst,
}
use incubator_mesatee.Base.Str.{lines}
use incubator_mesatee.Functions.Intersect.{
  decode_line, parse_rest, parse_lines, parse_input_data, misplaced,
}
use incubator_mesatee.Functions.Intersect.Order.{IsOrdered}

module _ (hex_decode : Text → Result Text Text) where
  parse_rest-IsOrdered :
      (b : Bool) (last : Text) (ls xs : List Text)
      → parse_rest hex_decode b last ls ≡ ok xs
      → IsOrdered b (last ∷ xs)
  unfolding parse_rest IsOrdered
  parse_rest-IsOrdered b last [] [] h = tt
  parse_rest-IsOrdered b last [] (x ∷ xs) h = absurd (ground (arith, h))
  parse_rest-IsOrdered b last (l ∷ ls) xs h = elim (Result-cases (decode_line hex_decode l)) [
    | inr (x, e) ↦ absurd (ground (arith, h, e))
    | inl (result, e) ↦ elim (Result-cases (parse_rest hex_decode b result ls)) [
      | inr (x, f) ↦ absurd (ground (arith, h, e, f))
      | inl (rest, f) ↦
          let (placed, same) : (misplaced b last result ≡ false) × (result ∷ rest ≡ xs) =
            ground (arith, h, e, f) in
          subst (λ ys. IsOrdered b (last ∷ ys)) same
            (placed, parse_rest-IsOrdered b result ls rest f)
    ]
  ]

  parse_lines-IsOrdered :
      (b : Bool) (ls xs : List Text) → parse_lines hex_decode b ls ≡ ok xs → IsOrdered b xs
  unfolding parse_lines IsOrdered
  parse_lines-IsOrdered b [] [] h = tt
  parse_lines-IsOrdered b [] (x ∷ xs) h = absurd (ground (arith, h))
  parse_lines-IsOrdered b (l ∷ ls) xs h = elim (Result-cases (decode_line hex_decode l)) [
    | inr (x, e) ↦ absurd (ground (arith, h, e))
    | inl (result, e) ↦ elim (Result-cases (parse_rest hex_decode b result ls)) [
      | inr (x, f) ↦ absurd (ground (arith, h, e, f))
      | inl (rest, f) ↦
          let same : result ∷ rest ≡ xs = ground (arith, h, e, f) in
          subst (IsOrdered b) same (parse_rest-IsOrdered b result ls rest f)
    ]
  ]

  -- An input that is accepted is in the order asked for.
  pub parse_input_data-IsOrdered :
      (b : Bool) (input : Text) (xs : List Text)
      → parse_input_data hex_decode input b ≡ ok xs
      → IsOrdered b xs
  unfolding parse_input_data
  parse_input_data-IsOrdered b input xs h = parse_lines-IsOrdered b (lines input) xs h
