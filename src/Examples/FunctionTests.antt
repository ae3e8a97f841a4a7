-- ===== src/Examples/FunctionTests.antt =====
-- The built-in functions and the AES-GCM keys at concrete inputs.
use incubator_mesatee.Base.{
  Text, utf8, ◌≡◌, refl, true, ℕ, List, [], ◌∷◌, ok, err, Result, length, arith, ◌==◌, ◌>>=◌, pure,
  lift, ◌++◌,
}
use incubator_mesatee.Base.Bytes
use incubator_mesatee.Base.HashMap
use incubator_mesatee.Base.HashMap.{HashMap}
use incubator_mesatee.Base.Str.{is_utf8, lines, split, trim, decimal, parse_u32}
use incubator_mesatee.Examples.Machine.{plain_aead, plain_crates, no_tag}
use incubator_mesatee.Functions.Decrypt.{online_decrypt-short_nonce}
use incubator_mesatee.Functions.Intersect.{
  cmp, misplaced, decode_line, parse_rest, parse_lines, parse_input_data, intersection_ordered_vec,
}
use incubator_mesatee.Functions.Intersect.Marks.{marked, parse_input_data-marked}
use incubator_mesatee.Functions.Intersect.Order.{occurrences}
use incubator_mesatee.Functions.Join.{
  get_data, get_intersection_sum, join_rounds, parse_input, parse_pair, parse_items,
}
use incubator_mesatee.Functions.Join.Sums.{Inputs, amounts, expected, join_rounds-sums}
use incubator_mesatee.Functions.Small.{OnlineDecryptArguments, algorithm_from, online_decrypt}
use incubator_mesatee.Types.Aead.{aes_128_gcm}
use incubator_mesatee.Types.Cipher
use incubator_mesatee.Types.Cipher.{decrypt-encrypt}
use incubator_mesatee.Types.Crypto.{GcmKey}
use incubator_mesatee.Types.Function.{FunctionArguments}
use incubator_mesatee.Types.Runtime.{panic, Runtime}

abbrev first_input : Text
first_input = utf8 "aa\nab\nab\nc\n"

abbrev second_input : Text
second_input = utf8 "a\r\nab\nb\nc"

abbrev first : List Text
first = utf8 "aa" ∷ utf8 "ab" ∷ utf8 "ab" ∷ utf8 "c" ∷ []

abbrev second : List Text
second = utf8 "a" ∷ utf8 "ab" ∷ utf8 "b" ∷ utf8 "c" ∷ []

abbrev same : Text → Result Text Text
same s = ok s

accepts :
    (parse_input_data same first_input true ≡ ok first)
    × (parse_input_data same second_input true ≡ ok second)
unfolding lines split is_utf8 cmp misplaced decode_line parse_rest parse_lines parse_input_data
accepts = (refl, refl)

parse_input_data-marked_example :
    (marked (utf8 "ab") first (intersection_ordered_vec true first second).0 ≡ 1)
    × (marked (utf8 "ab") second (intersection_ordered_vec true first second).1 ≡ 1)
unfolding occurrences ◌==◌
parse_input_data-marked_example =
    parse_input_data-marked same true first_input second_input first second (utf8 "ab") accepts.0
      accepts.1

-- a runtime that finds the input of user 1
abbrev pub one_file : Runtime
one_file = record {
  State = ℕ;
  Reader = Text;
  Writer = Text;
  open_input = λ name s. (ok name, s);
  create_output = λ name s. (ok name, s);
  read_to_end = λ f s. (ok (utf8 "bob: 5\neve: 1\n"), s);
  write_all = λ f bytes s. (ok tt, s);
  read = λ f n s. (ok [], s);
  write = λ f bytes s. (ok (length bytes), s);
}

abbrev amounts_0 : HashMap ℕ
amounts_0 = (utf8 "alice", 1) ∷ (utf8 "bob", 2) ∷ []

abbrev joined_map : HashMap ℕ
joined_map = (utf8 "bob", 7) ∷ []

joins : (join_rounds one_file 1 1 amounts_0 0).0 ≡ ok joined_map
unfolding join_rounds get_data get_intersection_sum parse_input parse_pair parse_items is_utf8 split
    trim decimal parse_u32 HashMap.get HashMap.insert ◌==◌ ◌>>=◌ pure lift
joins = refl

join_rounds-sums_example :
    (ms : List (HashMap ℕ)) × (length ms ≡ 1)
    × Inputs one_file 1 0 ms
    × ((k : Text) → HashMap.get joined_map k ≡ expected (HashMap.get amounts_0 k) (amounts k ms))
join_rounds-sums_example = join_rounds-sums one_file 1 amounts_0 joined_map 0 joins

abbrev decrypt_arguments : OnlineDecryptArguments
decrypt_arguments = record {
  key = utf8 "sixteen byte key";
  nonce = utf8 "short";
  encrypted_data = utf8 "data";
  algorithm = utf8 "aes128gcm";
}

abbrev no_arguments : FunctionArguments
no_arguments = record { inner = [] }

online_decrypt-short_nonce_example :
    online_decrypt plain_aead plain_crates (λ a. ok decrypt_arguments) no_arguments ≡ err panic
unfolding algorithm_from ◌==◌
online_decrypt-short_nonce_example =
    online_decrypt-short_nonce plain_aead plain_crates (λ a. ok decrypt_arguments) no_arguments
      decrypt_arguments (utf8 "sixteen byte key") (utf8 "short") (utf8 "data") aes_128_gcm refl refl
      refl refl refl (omega arith)

abbrev gcm_key : GcmKey
gcm_key = record { key = utf8 "sixteen byte key"; iv = utf8 "twelve bytes" }

abbrev secret : Text
secret = utf8 "secret"

decrypt-encrypt_example :
    (tag : Text) × (c : Text) × (Cipher.decrypt plain_aead aes_128_gcm gcm_key (secret ++ no_tag)
      ≡ ok (tag, secret))
    × (secret ++ no_tag ≡ c ++ no_tag)
    × (length no_tag ≡ 16)
    × (length c ≡ length secret)
unfolding Cipher.encrypt Cipher.aead_encrypt Cipher.cmac_from_slice Bytes.drop
decrypt-encrypt_example =
    decrypt-encrypt plain_aead aes_128_gcm gcm_key secret no_tag (secret ++ no_tag) refl
