-- ===== src/Functions/Decrypt.antt =====
-- Decrypting what was encrypted, and what a short nonce does (function/src/online_decrypt.rs).
use incubator_mesatee.Base.{
  utf8, eqb, if◌then◌else◌, Text, ◌≡◌, ap, ◌∙◌, true, ◌<◌, [], some, Result, ok, err, length, arith,
}
use incubator_mesatee.Base.Str.{is_utf8}
use incubator_mesatee.Functions.Small.{
  Crates, OnlineDecryptArguments, decrypt, decode_base64, check_utf8, decrypt_string_base64,
  algorithm_from, online_decrypt,
}
use incubator_mesatee.Base.Bytes.{truncate-append, truncate-all}
use incubator_mesatee.Types.Aead.{Algorithm, Aead}
use incubator_mesatee.Types.Function.{FunctionArguments}
use incubator_mesatee.Types.Runtime.{Failure, error, panic}

module _ (a : Aead) (k : Crates)
    (deserialize : FunctionArguments → Result Failure OnlineDecryptArguments) where
  decrypt-seal :
      (key nonce plain sealed : Text) (alg : Algorithm)
      → length key ≡ a.key_len alg
      → length nonce ≡ 12
      → a.seal_append_tag alg key nonce [] plain ≡ some sealed
      → decrypt a k key nonce sealed alg ≡ ok plain
  unfolding decrypt
  decrypt-seal key nonce plain sealed alg long h e =
      let (rest, opened) = a.open-seal alg key nonce [] plain e in
      let l = a.length-open alg key nonce [] sealed plain rest opened in
      ground (
        arith,
        a.new_key_lem alg key,
        long,
        h,
        truncate-all nonce 12 h,
        opened,
        truncate-append plain rest (a.tag_len alg) l,
      )

  -- What was encrypted under a key and a nonce of twelve bytes, and encoded in base64, is decrypted
  -- to the text.
  online_decrypt-seal :
      (arguments : FunctionArguments) (args : OnlineDecryptArguments)
      (key nonce plain sealed : Text) (alg : Algorithm)
      → deserialize arguments ≡ ok args
      → algorithm_from a k args.algorithm ≡ ok alg
      → args.key ≡ k.base64_encode key
      → args.nonce ≡ k.base64_encode nonce
      → args.encrypted_data ≡ k.base64_encode sealed
      → length key ≡ a.key_len alg
      → length nonce ≡ 12
      → a.seal_append_tag alg key nonce [] plain ≡ some sealed
      → is_utf8 plain ≡ true
      → online_decrypt a k deserialize arguments ≡ ok plain
  unfolding online_decrypt decrypt_string_base64 decode_base64 check_utf8
  online_decrypt-seal arguments args key nonce plain sealed alg d al ek en es long l c u =
      let decode : (s : Text) (b : Text) → s ≡ k.base64_encode b → k.base64_decode s ≡ some b =
        λ s b q. ap k.base64_decode q ∙ k.decode-encode b in
      ground (
        arith,
        d,
        al,
        decode args.key key ek,
        decode args.nonce nonce en,
        decode args.encrypted_data sealed es,
        decrypt-seal key nonce plain sealed alg long l c,
        u,
      )

  -- With a nonce of less than twelve bytes and the key, the nonce and the encrypted text in base64,
  -- a key of the algorithm's length makes the function panic, and a key of another length makes it
  -- return an error.
  pub online_decrypt-short_nonce :
      (arguments : FunctionArguments) (args : OnlineDecryptArguments) (key nonce sealed : Text)
      (alg : Algorithm)
      → deserialize arguments ≡ ok args
      → algorithm_from a k args.algorithm ≡ ok alg
      → k.base64_decode args.key ≡ some key
      → k.base64_decode args.nonce ≡ some nonce
      → k.base64_decode args.encrypted_data ≡ some sealed
      → length nonce < 12
      → online_decrypt a k deserialize arguments ≡ (
          if eqb (length key) (a.key_len alg)
          then err panic
          else err (error (utf8 "decryption error")))
  unfolding online_decrypt decrypt_string_base64 decode_base64 decrypt
  online_decrypt-short_nonce arguments args key nonce sealed alg d al ek en es l =
      ground (arith, d, al, ek, en, es, l, a.new_key_lem alg key)
