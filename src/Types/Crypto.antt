-- ===== src/Types/Crypto.antt =====
-- types/src/crypto.rs, and the keys of crypto/src/lib.rs that it wraps. A fixed-size byte array
-- is a list of bytes; that it has its size is `IsSized`, which the constructors check.
use incubator_mesatee.Base.{
  Text, utf8, ◌==◌, ==_iff, ◌≡◌, refl, ℕ, List, [], ◌∷◌, Result, ok, err, if◌then◌else◌, eqb,
  length, arith, ◌++◌, ◌⊎◌,
}

pub record FileAuthTag : Type 0 where
  pub tag : Text

abbrev pub file_auth_tag_length : ℕ
file_auth_tag_length = 16

unfoldable pub tag_from_bytes : Text → Result Text FileAuthTag
tag_from_bytes input =
    if eqb (length input) file_auth_tag_length
    then ok (record { tag = input })
    else err (utf8 "Invalid length")

pub record GcmKey : Type 0 where
  pub key : Text
  pub iv : Text

pub record File128Key : Type 0 where
  pub key : Text

pub data FileCrypto : Type 0 where
  aes_gcm_128 : GcmKey → FileCrypto
  aes_gcm_256 : GcmKey → FileCrypto
  teaclave_file_128 : File128Key → FileCrypto
  raw : FileCrypto

-- `AesGcm128Key::new`, with its messages up to the number that they end in
unfoldable pub aes_gcm_128_new : Text → Text → Result Text GcmKey
aes_gcm_128_new key iv =
    if eqb (length key) 16
    then if eqb (length iv) 12
      then ok (record { key = key; iv = iv })
      else err (utf8 "Invalid iv length for AesGcm128")
    else err (utf8 "Invalid key length for AesGcm128")

unfoldable pub aes_gcm_256_new : Text → Text → Result Text GcmKey
aes_gcm_256_new key iv =
    if eqb (length key) 32
    then if eqb (length iv) 12
      then ok (record { key = key; iv = iv })
      else err (utf8 "Invalid iv length for AesGcm256")
    else err (utf8 "Invalid key length for AesGcm256")

unfoldable pub teaclave_file_128_new : Text → Result Text File128Key
teaclave_file_128_new key =
    if eqb (length key) 16
    then ok (record { key = key })
    else err (utf8 "Invalid key length for teaclave_file_128")

abbrev aes_gcm_128_schema : Text
aes_gcm_128_schema = utf8 "aes-gcm-128"

abbrev aes_gcm_256_schema : Text
aes_gcm_256_schema = utf8 "aes-gcm-256"

abbrev teaclave_file_128_schema : Text
teaclave_file_128_schema = utf8 "teaclave-file-128"

-- `FileCrypto::new`
unfoldable pub new : Text → Text → Text → Result Text FileCrypto
new schema key iv =
    if schema == aes_gcm_128_schema
    then elim (aes_gcm_128_new key iv) [ ok c ↦ ok (aes_gcm_128 c) | err e ↦ err e ]
    else if schema == aes_gcm_256_schema
    then elim (aes_gcm_256_new key iv) [ ok c ↦ ok (aes_gcm_256 c) | err e ↦ err e ]
    else if schema == teaclave_file_128_schema
    then if eqb (length iv) 0
      then elim (teaclave_file_128_new key) [ ok c ↦ ok (teaclave_file_128 c) | err e ↦ err e ]
      else err (utf8 "IV is not empty for teaclave_file_128")
    else if schema == utf8 "raw"
    then ok raw
    else err (utf8 "Invalid crypto schema: " ++ schema)

unfoldable pub schema : FileCrypto → Text
schema (aes_gcm_128 _) = aes_gcm_128_schema
schema (aes_gcm_256 _) = aes_gcm_256_schema
schema (teaclave_file_128 _) = teaclave_file_128_schema
schema raw = utf8 "raw"

unfoldable pub key_iv : FileCrypto → Text × Text
key_iv (aes_gcm_128 c) = (c.key, c.iv)
key_iv (aes_gcm_256 c) = (c.key, c.iv)
key_iv (teaclave_file_128 c) = (c.key, [])
key_iv raw = ([], [])

-- the sizes that the array types of the source fix
abbrev pub IsSized : FileCrypto → Type 0
IsSized (aes_gcm_128 c) = (length c.key ≡ 16) × (length c.iv ≡ 12)
IsSized (aes_gcm_256 c) = (length c.key ≡ 32) × (length c.iv ≡ 12)
IsSized (teaclave_file_128 c) = length c.key ≡ 16
IsSized raw = Unit

-- Rebuilding a crypto info from its schema, key and IV gives it back.
pub new-schema-key_iv :
    (c : FileCrypto) → IsSized c → new (schema c) (key_iv c).0 (key_iv c).1 ≡ ok c
unfolding new schema key_iv ◌==◌ aes_gcm_128_new aes_gcm_256_new teaclave_file_128_new
new-schema-key_iv (aes_gcm_128 c) h = ground arith
new-schema-key_iv (aes_gcm_256 c) h = ground arith
new-schema-key_iv (teaclave_file_128 c) h = ground arith
new-schema-key_iv raw h = refl

length_zero : {A : Type 0} (xs : List A) → length xs ≡ 0 → xs ≡ []
length_zero [] h = refl
length_zero (x ∷ xs) h = absurd (omega arith)

-- Whatever `new` accepts has the sizes of its schema, and carries the key and the IV given
-- (the raw schema drops them).
pub new-IsSized :
    (s key iv : Text) (c : FileCrypto)
    → new s key iv ≡ ok c
    → IsSized c × (schema c ≡ s) × ((c ≡ raw) ⊎ (key_iv c ≡ (key, iv)))
unfolding new schema key_iv aes_gcm_128_new aes_gcm_256_new teaclave_file_128_new
new-IsSized s key iv (aes_gcm_128 c) h = ground (
  arith,
  ==_iff s aes_gcm_128_schema,
  ==_iff s aes_gcm_256_schema,
  ==_iff s teaclave_file_128_schema,
  ==_iff s (utf8 "raw"),
  length_zero iv,
)
new-IsSized s key iv (aes_gcm_256 c) h = ground (
  arith,
  ==_iff s aes_gcm_128_schema,
  ==_iff s aes_gcm_256_schema,
  ==_iff s teaclave_file_128_schema,
  ==_iff s (utf8 "raw"),
  length_zero iv,
)
new-IsSized s key iv (teaclave_file_128 c) h = ground (
  arith,
  ==_iff s aes_gcm_128_schema,
  ==_iff s aes_gcm_256_schema,
  ==_iff s teaclave_file_128_schema,
  ==_iff s (utf8 "raw"),
  length_zero iv,
)
new-IsSized s key iv raw h = ground (
  arith,
  ==_iff s aes_gcm_128_schema,
  ==_iff s aes_gcm_256_schema,
  ==_iff s teaclave_file_128_schema,
  ==_iff s (utf8 "raw"),
  length_zero iv,
)
