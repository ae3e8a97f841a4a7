-- ===== src/Base/Str.antt =====
-- What the program uses of Rust's `str` and `BufRead`: `lines`, `split`, `trim`, `from_utf8`,
-- `format!("{}", n)` and `parse::<u32>`, on UTF-8 bytes.
use Prim.Native.Nat.{ℕ, zero, suc, ◌+◌, ◌-◌, ◌*◌, ◌/◌, ◌%◌, ◌≤◌, ◌<◌}
use mathlib.Core.Path.{◌≡◌, ◌∙◌}
use mathlib.Core.Bool.{Bool, true, false, ◌&&◌, ◌||◌}
use mathlib.Core.Option.{Option, none, some}
use mathlib.Core.List.{List, [], ◌∷◌}
use native.Mathlib.Omega.{arith}
use incubator_mesatee.Base.Tests.{eqb, leb, if◌then◌else◌}
use incubator_mesatee.Base.Utf8.{Text}

abbrev within : ℕ → ℕ → ℕ → Bool
within lo hi c = leb lo c && leb c hi

-- the ranges of the bytes that must follow the first byte of a character
abbrev following : ℕ → Option (List (ℕ × ℕ))
following c =
    let next : ℕ × ℕ = (128, 191) in
    if leb c 127
    then some []
    else if within 194 223 c
    then some (next ∷ [])
    else if eqb c 224
    then some ((160, 191) ∷ next ∷ [])
    else if eqb c 237
    then some ((128, 159) ∷ next ∷ [])
    else if within 225 239 c
    then some (next ∷ next ∷ [])
    else if eqb c 240
    then some ((144, 191) ∷ next ∷ next ∷ [])
    else if within 241 243 c
    then some (next ∷ next ∷ next ∷ [])
    else if eqb c 244
    then some ((128, 143) ∷ next ∷ next ∷ [])
    else none

unfoldable utf8_from : List (ℕ × ℕ) → List ℕ → Bool
utf8_from [] [] = true
utf8_from (r ∷ rs) [] = false
utf8_from [] (c ∷ s) = elim (following c) [ none ↦ false | some rs ↦ utf8_from rs s ]
utf8_from (r ∷ rs) (c ∷ s) = within r.0 r.1 c && utf8_from rs s

-- whether `from_utf8` accepts the bytes
unfoldable pub is_utf8 : List ℕ → Bool
unfolding utf8_from
is_utf8 = utf8_from []

unfoldable pub split : ℕ → Text → List Text
split c [] = [] ∷ []
split c (x ∷ s) = elim (split c s) [
  | [] ↦ []
  | p ∷ ps ↦ if eqb x c then [] ∷ p ∷ ps else (x ∷ p) ∷ ps
]

-- a line that ends in `\r\n` loses both
abbrev strip_cr : Text → Text
strip_cr [] = []
strip_cr (c ∷ []) = if eqb c 13 then [] else c ∷ []
strip_cr (c ∷ d ∷ s) = c ∷ strip_cr (d ∷ s)

-- the text after the last newline is a line only when it is not empty
abbrev to_lines : List Text → List Text
to_lines [] = []
to_lines ([] ∷ []) = []
to_lines ((c ∷ s) ∷ []) = (c ∷ s) ∷ []
to_lines (p ∷ q ∷ ps) = strip_cr p ∷ to_lines (q ∷ ps)

-- `BufRead::lines`, before the check that each line is UTF-8
unfoldable pub lines : List ℕ → List Text
lines s = to_lines (split 10 s)

abbrev is_space : ℕ → Bool
is_space c = within 9 13 c || eqb c 32

-- the second and third byte of a white space character of three bytes
abbrev is_wide_space : ℕ → ℕ → ℕ → Bool
is_wide_space a b c =
    (eqb a 225 && (eqb b 154 && eqb c 128))
    || (eqb a 226
        && ((eqb b 128 && (within 128 138 c || (eqb c 168 || (eqb c 169 || eqb c 175))))
            || (eqb b 129 && eqb c 159)))
    || (eqb a 227 && (eqb b 128 && eqb c 128))

abbrev is_latin_space : ℕ → ℕ → Bool
is_latin_space a b = eqb a 194 && (eqb b 133 || eqb b 160)

unfoldable trim_start : Text → Text
trim_start [] = []
trim_start (a ∷ []) = if is_space a then [] else a ∷ []
trim_start (a ∷ b ∷ []) = elim (is_space a) [
  | true ↦ trim_start (b ∷ [])
  | false ↦ if is_latin_space a b then [] else a ∷ b ∷ []
]
trim_start (a ∷ b ∷ c ∷ s) = elim (is_space a) [
  | true ↦ trim_start (b ∷ c ∷ s)
  | false ↦ elim (is_latin_space a b) [
    | true ↦ trim_start (c ∷ s)
    | false ↦ elim (is_wide_space a b c) [ true ↦ trim_start s | false ↦ a ∷ b ∷ c ∷ s ]
  ]
]

abbrev reverse_onto : Text → Text → Text
reverse_onto [] acc = acc
reverse_onto (c ∷ s) acc = reverse_onto s (c ∷ acc)

-- on reversed bytes
unfoldable trim_end_reversed : Text → Text
trim_end_reversed [] = []
trim_end_reversed (a ∷ []) = if is_space a then [] else a ∷ []
trim_end_reversed (b ∷ a ∷ []) = elim (is_space b) [
  | true ↦ trim_end_reversed (a ∷ [])
  | false ↦ if is_latin_space a b then [] else b ∷ a ∷ []
]
trim_end_reversed (c ∷ b ∷ a ∷ s) = elim (is_space c) [
  | true ↦ trim_end_reversed (b ∷ a ∷ s)
  | false ↦ elim (is_latin_space b c) [
    | true ↦ trim_end_reversed (a ∷ s)
    | false ↦ elim (is_wide_space a b c) [ true ↦ trim_end_reversed s | false ↦ c ∷ b ∷ a ∷ s ]
  ]
]

-- `str::trim`
unfoldable pub trim : Text → Text
unfolding trim_start trim_end_reversed
trim s = reverse_onto (trim_end_reversed (reverse_onto (trim_start s) [])) []

unfoldable digits_onto : ℕ → ℕ → Text → Text
digits_onto zero n acc = acc
digits_onto (suc fuel) n acc = elim (leb n 9) [
  | true ↦ (48 + n) ∷ acc
  | false ↦ digits_onto fuel (n / 10) ((48 + n % 10) ∷ acc)
]

-- `format!("{}", n)`; a number has no more than `n + 1` digits
unfoldable pub decimal : ℕ → Text
unfolding digits_onto
decimal n = digits_onto (suc n) n []

-- the value of the digits after those that are read already
unfoldable parse_digits : ℕ → Text → Option ℕ
parse_digits n [] = some n
parse_digits n (c ∷ s) =
    if within 48 57 c && leb (10 * n + (c - 48)) 4_294_967_295
    then parse_digits (10 * n + (c - 48)) s
    else none

-- `parse::<u32>`, which takes a leading `+`
unfoldable pub parse_u32 : Text → Option ℕ
unfolding parse_digits
parse_u32 [] = none
parse_u32 (c ∷ []) = if eqb c 43 then none else parse_digits 0 (c ∷ [])
parse_u32 (c ∷ d ∷ s) = if eqb c 43 then parse_digits 0 (d ∷ s) else parse_digits 0 (c ∷ d ∷ s)

abbrev starts_digit : Text → Bool
starts_digit [] = false
starts_digit (c ∷ s) = within 48 57 c

digits_onto-starts_digit :
    (fuel n : ℕ) (acc : Text) → n < fuel → starts_digit (digits_onto fuel n acc) ≡ true
unfolding digits_onto
digits_onto-starts_digit zero n acc h = absurd (omega arith)
digits_onto-starts_digit (suc fuel) n acc h =
    ground (arith, digits_onto-starts_digit fuel (n / 10) ((48 + n % 10) ∷ acc))

parse_digits-digits_onto :
    (fuel n : ℕ) (acc : Text)
    → n < fuel
    → n ≤ 4_294_967_295
    → parse_digits 0 (digits_onto fuel n acc) ≡ parse_digits n acc
unfolding digits_onto parse_digits
parse_digits-digits_onto zero n acc h b = absurd (omega arith)
parse_digits-digits_onto (suc fuel) n acc h b =
    ground (arith, parse_digits-digits_onto fuel (n / 10) ((48 + n % 10) ∷ acc))

parse_u32-digit : (s : Text) → starts_digit s ≡ true → parse_u32 s ≡ parse_digits 0 s
unfolding parse_u32
parse_u32-digit [] h = absurd (ground arith)
parse_u32-digit (c ∷ []) h = ground arith
parse_u32-digit (c ∷ d ∷ s) h = ground arith

-- A 32-bit number that is printed is parsed back.
pub parse_u32-decimal : (n : ℕ) → n ≤ 4_294_967_295 → parse_u32 (decimal n) ≡ some n
unfolding decimal parse_digits
parse_u32-decimal n h =
    parse_u32-digit (decimal n) (digits_onto-starts_digit (suc n) n [] (omega arith))
    ∙ parse_digits-digits_onto (suc n) n [] (omega arith) h
