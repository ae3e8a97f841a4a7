-- ===== src/Functions/Join.antt =====
-- function/src/private_join_and_compute.rs: the parties' amounts are summed for every identity that
-- all of them have. `deserialize` reads the arguments from JSON. The sum of two 32-bit amounts
-- wraps around, as in a release build; a debug build would panic.
pub mod Sums
use incubator_mesatee.Base.{
  Text, utf8, ℕ, zero, suc, ◌+◌, ◌-◌, ◌%◌, ◌^◌, List, [], ◌∷◌, ◌++◌, Option, none, some, Result, ok,
  err, Action, pure, raise, lift, ◌>>=◌, ◌>>◌, if◌then◌else◌, ltb, length,
}
use incubator_mesatee.Base.HashMap.{HashMap, get, insert}
use incubator_mesatee.Base.Str.{is_utf8, split, trim, decimal, parse_u32}
use incubator_mesatee.Types.Function.{FunctionArguments}
use incubator_mesatee.Types.Runtime.{Failure, error, Runtime}

pub record PrivateJoinAndComputeArguments : Type 0 where
  pub num_user : ℕ

unfoldable pub get_intersection_sum : HashMap ℕ → HashMap ℕ → HashMap ℕ
get_intersection_sum [] map2 = []
get_intersection_sum ((identity, amount) ∷ map1) map2 =
    let res_map = get_intersection_sum map1 map2 in
    elim (get map2 identity) [
      | none ↦ res_map
      | some other ↦ insert res_map identity ((amount + other) % 2 ^ 32)
    ]

-- `kv_pair` with its amount, or `none` where the loop goes on to the next line
unfoldable pub parse_pair : List Text → Option (Text × ℕ)
parse_pair [] = none
parse_pair (key ∷ []) = none
parse_pair (key ∷ value ∷ []) = elim (parse_u32 (trim value)) [
  | none ↦ none
  | some amount ↦ some (trim key, amount)
]
parse_pair (key ∷ value ∷ more ∷ rest) = none

unfoldable pub parse_items : List Text → HashMap ℕ → HashMap ℕ
parse_items [] ret = ret
parse_items (data_item ∷ rest) ret =
    let pair = trim data_item in
    if ltb (length pair) 3 then parse_items rest ret else elim (parse_pair (split b':' pair)) [
      | none ↦ parse_items rest ret
      | some (identity, amount) ↦ parse_items rest (insert ret identity amount)
    ]

unfoldable pub parse_input : Text → Result Failure (HashMap ℕ)
parse_input data_bytes =
    if is_utf8 data_bytes
    then ok (parse_items (split 10 data_bytes) [])
    else err (error (utf8 "invalid utf-8 sequence"))

-- the lines of the output
unfoldable pub print_sums : HashMap ℕ → Text
print_sums [] = []
print_sums ((identity, amount) ∷ rest) =
    (identity ++ (utf8 ", " ++ (decimal amount ++ utf8 "\n"))) ++ print_sums rest

module _ (r : Runtime) where
  unfoldable pub get_data : ℕ → Action r.State Failure Text
  get_data user_id = do
    input_io ← r.open_input (utf8 "input_data" ++ decimal user_id)
    r.read_to_end input_io

  -- the rounds from the user `i` on
  unfoldable pub join_rounds : ℕ → ℕ → HashMap ℕ → Action r.State Failure (HashMap ℕ)
  join_rounds zero i res_map = pure res_map
  join_rounds (suc rounds) i res_map = do
    bytes ← get_data i
    input_map ← lift (parse_input bytes)
    join_rounds rounds (suc i) (get_intersection_sum input_map res_map)

  unfoldable pub write_outputs : ℕ → ℕ → Text → Action r.State Failure (Unit {0})
  write_outputs zero i bytes = pure tt
  write_outputs (suc rounds) i bytes = do
    output ← r.create_output (utf8 "output_data" ++ decimal i)
    r.write_all output bytes
    write_outputs rounds (suc i) bytes

  unfoldable pub private_join_and_compute :
      (FunctionArguments → Result Failure PrivateJoinAndComputeArguments)
      → FunctionArguments
      → Action r.State Failure Text
  private_join_and_compute deserialize arguments = do
    args ← lift (deserialize arguments)
    lift (
        if ltb args.num_user 2
        then err (error (utf8 "The demo requires at least two parties!"))
        else ok tt)
    data_0 ← get_data 0
    input_map_0 ← lift (parse_input data_0)
    res_map ← join_rounds (args.num_user - 1) 1 input_map_0
    write_outputs args.num_user 0 (print_sums res_map)
    pure (decimal args.num_user ++ utf8 " users join the task in total.")
