-- ===== src/Types/Aead.antt =====
-- What the program takes of `ring::aead`: sealing and opening under AES-GCM. A `some` of
-- `open_in_place` is the plain text, which stands at the start of the buffer, and the rest of it.
use incubator_mesatee.Base.{Text, ℕ, Bool, eqb, Option, some, ◌≡◌, ◌++◌, length}

-- `AES_128_GCM` and `AES_256_GCM`
pub data Algorithm : Type 0 where
  aes_128_gcm aes_256_gcm : Algorithm

pub record Aead : Type 0 where
  pub key_len : Algorithm → ℕ
  pub tag_len : Algorithm → ℕ
  pub tag_len_lem : (alg : Algorithm) → tag_len alg ≡ 16
  -- `UnboundKey::new`: whether the key has the length of the algorithm's keys
  pub new_key : Algorithm → Text → Bool
  pub new_key_lem :
      (alg : Algorithm) (key : Text) → new_key alg key ≡ eqb (length key) (key_len alg)
  -- algorithm, key, nonce, additional data, and what is opened or sealed; `none` also for a key or
  -- a nonce of a wrong length
  pub open_in_place : Algorithm → Text → Text → Text → Text → Option (Text × Text)
  -- `seal_in_place_append_tag`
  pub seal_append_tag : Algorithm → Text → Text → Text → Text → Option Text
  pub open-seal :
      (alg : Algorithm) (key nonce aad plain : Text) {sealed : Text}
      → seal_append_tag alg key nonce aad plain ≡ some sealed
      → (rest : Text) × (open_in_place alg key nonce aad sealed ≡ some (plain, rest))
  pub length-seal :
      (alg : Algorithm) (key nonce aad plain : Text) {sealed : Text}
      → seal_append_tag alg key nonce aad plain ≡ some sealed
      → (c : Text) × (tag : Text) × (sealed ≡ c ++ tag)
        × (length c ≡ length plain)
        × (length tag ≡ tag_len alg)
  pub length-open :
      (alg : Algorithm) (key nonce aad s plain rest : Text)
      → open_in_place alg key nonce aad s ≡ some (plain, rest)
      → length rest ≡ tag_len alg
