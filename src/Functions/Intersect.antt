-- ===== src/Functions/Intersect.antt =====
-- function/src/ordered_set_intersect.rs: two parties mark which of their sorted hash values the
-- other has. `hex_decode` is the crate `hex`, and `deserialize` reads the arguments from JSON. An
-- input is read as a whole before its first line is looked at.
pub mod Order
pub mod Parse
pub mod Marks
use Prim.Native.Nat.{compare, Ordering}
use incubator_mesatee.Base.{
  Text, utf8, ◌==◌, Bool, true, false, ◌&&◌, ◌||◌, ℕ, ◌+◌, List, [], ◌∷◌, ◌++◌, map, Result, ok,
  err, Action, pure, raise, lift, ◌>>=◌, ◌>>◌, if◌then◌else◌,
}
use incubator_mesatee.Base.Str.{is_utf8, lines, decimal}
use incubator_mesatee.Types.Function.{FunctionArguments}
use incubator_mesatee.Types.Runtime.{Failure, error, Runtime}

-- `Vec<u8>::cmp`
unfoldable pub cmp : Text → Text → Ordering
cmp [] [] = Ordering.eq
cmp [] (y ∷ ys) = Ordering.lt
cmp (x ∷ xs) [] = Ordering.gt
cmp (x ∷ xs) (y ∷ ys) = elim (compare x y) [
  | Ordering.lt ↦ Ordering.lt
  | Ordering.eq ↦ cmp xs ys
  | Ordering.gt ↦ Ordering.gt
]

abbrev is_lt : Ordering → Bool
is_lt Ordering.lt = true
is_lt Ordering.eq = false
is_lt Ordering.gt = false

abbrev is_gt : Ordering → Bool
is_gt Ordering.lt = false
is_gt Ordering.eq = false
is_gt Ordering.gt = true

-- the test before `bail!("Invalid ordering")`
unfoldable pub misplaced : Bool → Text → Text → Bool
misplaced ascending last result =
    if ascending then is_lt (cmp result last) else is_gt (cmp result last)

module _ (hex_decode : Text → Result Text Text) where
  unfoldable pub decode_line : Text → Result Failure Text
  decode_line line =
      if is_utf8 line
      then elim (hex_decode line) [ ok bytes ↦ ok bytes | err e ↦ err (error e) ]
      else err (error (utf8 "stream did not contain valid UTF-8"))

  -- the rounds after the first; `last` is the last element of `samples`
  unfoldable pub parse_rest : Bool → Text → List Text → Result Failure (List Text)
  parse_rest ascending last [] = ok []
  parse_rest ascending last (line ∷ rest) = elim (decode_line line) [
    | err e ↦ err e
    | ok result ↦
        if misplaced ascending last result
        then err (error (utf8 "Invalid ordering"))
        else elim (parse_rest ascending result rest) [
          | err e ↦ err e
          | ok samples ↦ ok (result ∷ samples)
        ]
  ]

  unfoldable pub parse_lines : Bool → List Text → Result Failure (List Text)
  parse_lines ascending [] = ok []
  parse_lines ascending (line ∷ rest) = elim (decode_line line) [
    | err e ↦ err e
    | ok result ↦ elim (parse_rest ascending result rest) [
      | err e ↦ err e
      | ok samples ↦ ok (result ∷ samples)
    ]
  ]

  unfoldable pub parse_input_data : Text → Bool → Result Failure (List Text)
  parse_input_data input ascending = parse_lines ascending (lines input)

abbrev unmarked : List Text → List Bool
unmarked xs = map (λ _. false) xs

abbrev pub Marks : Type 0
Marks = List Bool × List Bool

abbrev mark_both : Marks → Marks
mark_both m = (true ∷ m.0, true ∷ m.1)

abbrev skip_first : Marks → Marks
skip_first m = (false ∷ m.0, m.1)

abbrev skip_second : Marks → Marks
skip_second m = (m.0, false ∷ m.1)

-- The loop, on what `i` and `j` have not passed. The marks before them are final.
unfoldable pub intersection_ordered_vec : Bool → List Text → List Text → Marks
intersection_ordered_vec ascending [] ys = ([], unmarked ys)
intersection_ordered_vec ascending (x ∷ xs) [] = (unmarked (x ∷ xs), [])
intersection_ordered_vec ascending (x ∷ xs) (y ∷ ys) = elim (cmp x y) [
  | Ordering.eq ↦ mark_both (intersection_ordered_vec ascending xs ys)
  | Ordering.lt ↦ elim ascending [
    | true ↦ skip_first (intersection_ordered_vec ascending xs (y ∷ ys))
    | false ↦ skip_second (intersection_ordered_vec ascending (x ∷ xs) ys)
  ]
  | Ordering.gt ↦ elim ascending [
    | true ↦ skip_second (intersection_ordered_vec ascending (x ∷ xs) ys)
    | false ↦ skip_first (intersection_ordered_vec ascending xs (y ∷ ys))
  ]
]

pub record OrderedSetIntersectArguments : Type 0 where
  pub order : Text

-- `common_sets` after the loop over the first result
unfoldable pub common_sets : List Bool → ℕ
common_sets [] = 0
common_sets (true ∷ marks) = 1 + common_sets marks
common_sets (false ∷ marks) = common_sets marks

module _ (r : Runtime) where
  unfoldable pub write_marks : r.Writer → List Bool → Action r.State Failure (Unit {0})
  write_marks output [] = pure tt
  write_marks output (item ∷ items) =
      r.write_all output (if item then utf8 "1" else utf8 "0") >> write_marks output items

  unfoldable pub parse_order : Text → Result Failure Bool
  parse_order order =
      if order == utf8 "ascending"
      then ok true
      else if order == utf8 "desending"
      then ok false
      else err (error (utf8 "Invalid order"))

  unfoldable pub ordered_set_intersect :
      (Text → Result Text Text)
      → (FunctionArguments → Result Failure OrderedSetIntersectArguments)
      → FunctionArguments
      → Action r.State Failure Text
  ordered_set_intersect hex_decode deserialize arguments = do
    input1 ← r.open_input (utf8 "input_data1")
    input2 ← r.open_input (utf8 "input_data2")
    output1 ← r.create_output (utf8 "output_result1")
    output2 ← r.create_output (utf8 "output_result2")
    args ← lift (deserialize arguments)
    ascending ← lift (parse_order args.order)
    data1 ← r.read_to_end input1
    vec1 ← lift (parse_input_data hex_decode data1 ascending)
    data2 ← r.read_to_end input2
    vec2 ← lift (parse_input_data hex_decode data2 ascending)
    let results = intersection_ordered_vec ascending vec1 vec2
    write_marks output1 results.0
    write_marks output2 results.1
    pure (decimal (common_sets results.0) ++ utf8 " common items")
