-- ===== src/Functions/Small.antt =====
-- function/src/echo.rs, password_check.rs, online_decrypt.rs and rsa_sign.rs. The crates ring and
-- base64 are parameters, and so is the JSON of the arguments. A file is read as a whole before its
-- first line is looked at.
use incubator_mesatee.Base.{
  Text, utf8, ◌==◌, ◌-◌, List, [], ◌∷◌, Option, none, some, Result, ok, err, Action, pure, lift,
  ◌>>=◌, not, if◌then◌else◌, ltb, length, ◌≡◌, ◌++◌,
}
use incubator_mesatee.Base.HashSet.{contains, collect}
use incubator_mesatee.Base.Str.{is_utf8, lines, trim}
use incubator_mesatee.Base.Bytes.{truncate}
use incubator_mesatee.Types.Aead.{Algorithm, aes_128_gcm, aes_256_gcm, Aead}
use incubator_mesatee.Types.Function.{FunctionArguments}
use incubator_mesatee.Types.Runtime.{Failure, error, panic, Runtime}

pub record EchoArguments : Type 0 where
  pub message : Text

unfoldable pub echo :
    (FunctionArguments → Result Failure EchoArguments) → FunctionArguments → Result Failure Text
echo deserialize arguments = elim (deserialize arguments) [
  | ok args ↦ ok args.message
  | err e ↦ err e
]

-- `unwrap` on the first line
unfoldable pub first_line : List Text → Result Failure Text
first_line [] = err panic
first_line (line ∷ rest) = if is_utf8 line then ok (trim line) else err panic

-- `expect` on every line
unfoldable pub all_lines : List Text → Result Failure (List Text)
all_lines [] = ok []
all_lines (line ∷ rest) =
    if is_utf8 line
    then elim (all_lines rest) [ ok trimmed ↦ ok (trim line ∷ trimmed) | err e ↦ err e ]
    else err panic

unfoldable pub password_check : (r : Runtime) → Action r.State Failure Text
password_check r = do
  password_file ← r.open_input (utf8 "password")
  password_bytes ← r.read_to_end password_file
  password ← lift (first_line (lines password_bytes))
  exposed_passwords_file ← r.open_input (utf8 "exposed_passwords")
  exposed_bytes ← r.read_to_end exposed_passwords_file
  exposed_passwords ← lift (all_lines (lines exposed_bytes))
  pure (if contains (collect exposed_passwords) password then utf8 "true" else utf8 "false")

-- What the functions take of base64 and of ring, without `ring::aead`.
pub record Crates : Type 0 where
  pub base64_decode : Text → Option Text
  pub base64_encode : Text → Text
  pub decode-encode : (bytes : Text) → base64_decode (base64_encode bytes) ≡ some bytes
  -- `RsaKeyPair::from_der` and `sign`, on the key file and the message
  pub sign : Text → Text → Option Text

pub record OnlineDecryptArguments : Type 0 where
  pub key : Text
  pub nonce : Text
  pub encrypted_data : Text
  pub algorithm : Text

pub record RsaSignArguments : Type 0 where
  pub data_text : Text

module _ (a : Aead) (k : Crates) where
  -- A key of a wrong length is refused first. An index `nonce_data[0..12]` beyond the end panics.
  unfoldable pub decrypt : Text → Text → Text → Algorithm → Result Failure Text
  decrypt key nonce_data input alg =
      if not (a.new_key alg key)
      then err (error (utf8 "decryption error"))
      else if ltb (length nonce_data) 12
      then err panic
      else elim (a.open_in_place alg key (truncate 12 nonce_data) [] input) [
        | none ↦ err (error (utf8 "decryption error"))
        | some (plain, rest) ↦
            ok (truncate (length (plain ++ rest) - a.tag_len alg) (plain ++ rest))
      ]

  unfoldable pub decode_base64 : Text → Result Failure Text
  decode_base64 s = elim (k.base64_decode s) [
    | none ↦ err (error (utf8 "invalid base64"))
    | some bytes ↦ ok bytes
  ]

  unfoldable pub check_utf8 : Text → Result Failure Text
  check_utf8 bytes = if is_utf8 bytes then ok bytes else err (error (utf8 "base64 decoded error"))

  unfoldable pub decrypt_string_base64 : Text → Text → Text → Algorithm → Result Failure Text
  decrypt_string_base64 key nonce_str encrypted alg = elim (decode_base64 key) [
    | err e ↦ err e
    | ok decoded_key ↦ elim (decode_base64 nonce_str) [
      | err e ↦ err e
      | ok nonce ↦ elim (decode_base64 encrypted) [
        | err e ↦ err e
        | ok input ↦ elim (decrypt decoded_key nonce input alg) [
          | err e ↦ err e
          | ok plain ↦ check_utf8 plain
        ]
      ]
    ]
  ]

  -- the `match` on the name of the algorithm
  unfoldable pub algorithm_from : Text → Result Failure Algorithm
  algorithm_from name =
      if name == utf8 "aes128gcm"
      then ok aes_128_gcm
      else if name == utf8 "aes256gcm"
      then ok aes_256_gcm
      else err (error (utf8 "Invalid algorithm"))

  unfoldable pub online_decrypt :
      (FunctionArguments → Result Failure OnlineDecryptArguments)
      → FunctionArguments
      → Result Failure Text
  online_decrypt deserialize arguments = elim (deserialize arguments) [
    | err e ↦ err e
    | ok args ↦ elim (algorithm_from args.algorithm) [
      | err e ↦ err e
      | ok alg ↦ decrypt_string_base64 args.key args.nonce args.encrypted_data alg
    ]
  ]

  unfoldable pub rsa_sign :
      (r : Runtime)
      → (FunctionArguments → Result Failure RsaSignArguments)
      → FunctionArguments
      → Action r.State Failure Text
  rsa_sign r deserialize arguments = do
    args ← lift (deserialize arguments)
    f ← r.open_input (utf8 "rsa_key")
    key ← r.read_to_end f
    sig ← lift (elim (k.sign key args.data_text) [
      | none ↦ err (error (utf8 "invalid key"))
      | some bytes ↦ ok bytes
    ])
    pure (k.base64_encode sig)
