-- ===== src/Types/Cipher.antt =====
-- Encrypting and decrypting with the AES-GCM keys of crypto/src/lib.rs. The bytes are the buffer
-- `in_out` before and after the call; `ring` is a parameter.
use incubator_mesatee.Base.{
  Text, utf8, ◌≡◌, sym, ap, ◌∙◌, ℕ, ◌-◌, [], ◌∷◌, ◌++◌, none, some, Option-cases, inl, inr,
  Result-cases, Result, ok, err, if◌then◌else◌, eqb, length, arith,
}
use incubator_mesatee.Base.Bytes.{truncate, drop, truncate-length, drop-append}
use incubator_mesatee.Types.Aead.{Algorithm, aes_128_gcm, aes_256_gcm, Aead}
use incubator_mesatee.Types.Crypto.{GcmKey}
use incubator_mesatee.Types.Runtime.{Failure, error, panic}

-- `[0u8; 8]`
abbrev zeros : Text
zeros = 0 ∷ 0 ∷ 0 ∷ 0 ∷ 0 ∷ 0 ∷ 0 ∷ 0 ∷ []

-- `CMAC_LENGTH`
abbrev pub cmac_length : ℕ
cmac_length = 16

-- `in_out[n - CMAC_LENGTH..]`
abbrev last_bytes : Text → Text
last_bytes s = drop (length s - cmac_length) s

-- `cmac.copy_from_slice(slice)`, which panics on another length
unfoldable pub cmac_from_slice : Text → Result Failure Text
cmac_from_slice slice = if eqb (length slice) cmac_length then ok slice else err panic

module _ (a : Aead) where
  unfoldable pub aead_decrypt : Algorithm → Text → Text → Text → Result Failure (Text × Text)
  aead_decrypt alg in_out key iv = elim (a.open_in_place alg key iv zeros in_out) [
    | none ↦ err (error (utf8 "Aead open_in_place error"))
    | some opened ↦ ok opened
  ]

  unfoldable pub aead_encrypt : Algorithm → Text → Text → Text → Result Failure Text
  aead_encrypt alg in_out key iv = elim (a.seal_append_tag alg key iv zeros in_out) [
    | none ↦ err (error (utf8 "Aead seal_in_place_append_tag error"))
    | some sealed ↦ ok sealed
  ]

  module _ (alg : Algorithm) where
    -- `decrypt`: the tag and the buffer
    unfoldable pub decrypt : GcmKey → Text → Result Failure (Text × Text)
    decrypt k in_out = elim (aead_decrypt alg in_out k.key k.iv) [
      | err e ↦ err e
      | ok (plain, rest) ↦ elim (cmac_from_slice rest) [
        | err e ↦ err e
        | ok cmac ↦ ok (cmac, truncate (length plain) (plain ++ rest))
      ]
    ]

    -- `encrypt`: the tag and the buffer
    unfoldable pub encrypt : GcmKey → Text → Result Failure (Text × Text)
    encrypt k in_out = elim (aead_encrypt alg in_out k.key k.iv) [
      | err e ↦ err e
      | ok sealed ↦ elim (cmac_from_slice (last_bytes sealed)) [
        | err e ↦ err e
        | ok cmac ↦ ok (cmac, sealed)
      ]
    ]

  -- `AesGcm128Key` and `AesGcm256Key` are the two uses.
  abbrev pub aes_gcm_128_decrypt : GcmKey → Text → Result Failure (Text × Text)
  aes_gcm_128_decrypt = decrypt aes_128_gcm

  abbrev pub aes_gcm_256_decrypt : GcmKey → Text → Result Failure (Text × Text)
  aes_gcm_256_decrypt = decrypt aes_256_gcm

  sealed_of :
      (alg : Algorithm) (k : GcmKey) (plain cmac sealed : Text)
      → encrypt alg k plain ≡ ok (cmac, sealed)
      → (a.seal_append_tag alg k.key k.iv zeros plain ≡ some sealed)
        × (cmac_from_slice (last_bytes sealed) ≡ ok cmac)
  unfolding encrypt aead_encrypt
  sealed_of alg k plain cmac sealed h =
      elim (Option-cases (a.seal_append_tag alg k.key k.iv zeros plain)) [
        | inl e ↦ absurd (ground (arith, h, e))
        | inr (s, e) ↦ elim (Result-cases (cmac_from_slice (last_bytes s))) [
          | inr (x, f) ↦ absurd (ground (arith, h, e, f))
          | inl (c, f) ↦
              let (q, w) : (s ≡ sealed) × (c ≡ cmac) = ground (arith, h, e, f) in
              (e ∙ ap some q, ap (λ x. cmac_from_slice (last_bytes x)) (sym q) ∙ f ∙ ap ok w)
        ]
      ]

  -- What was encrypted is decrypted to the same text, and the tag that `encrypt` returns is the
  -- last sixteen bytes of what it wrote.
  pub decrypt-encrypt :
      (alg : Algorithm) (k : GcmKey) (plain cmac sealed : Text)
      → encrypt alg k plain ≡ ok (cmac, sealed)
      → (tag : Text) × (c : Text) × (decrypt alg k sealed ≡ ok (tag, plain))
        × (sealed ≡ c ++ cmac)
        × (length cmac ≡ 16)
        × (length c ≡ length plain)
  unfolding decrypt aead_decrypt cmac_from_slice
  decrypt-encrypt alg k plain cmac sealed h =
      let (s, m) = sealed_of alg k plain cmac sealed h in
      let (rest, o) = a.open-seal alg k.key k.iv zeros plain s in
      let (c, tag, q, lc, lt) = a.length-seal alg k.key k.iv zeros plain s in
      let lr = a.length-open alg k.key k.iv zeros sealed plain rest o ∙ a.tag_len_lem alg in
      let lt' : length tag ≡ 16 = lt ∙ a.tag_len_lem alg in
      let cut : last_bytes sealed ≡ tag = ap last_bytes q ∙ drop-append c tag 16 lt' in
      let same : tag ≡ cmac = ground (arith, m, cut, lt') in
      (
        rest,
        c,
        ground (arith, o, lr, truncate-length plain rest),
        q ∙ ap (◌++◌ c) same,
        ap length (sym same) ∙ lt',
        lc,
      )
