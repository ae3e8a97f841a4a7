-- ===== src/Rpc/Frames.antt =====
-- What is written is read back.
use incubator_mesatee.Base.{
  Text, utf8, ◌≡◌, refl, sym, ap, ◌∙◌, ℕ, ◌%◌, ◌^◌, ◌≤◌, ◌<◌, [], ◌∷◌, ◌++◌, ok, err, Action,
  map_err, lift, ensure, ◌>>=◌, length, arith, Result-cases, inl, inr,
}
use incubator_mesatee.Base.Bytes.{truncate, truncate-all}
use incubator_mesatee.Rpc.Protocol.{
  other, Transport, to_be_bytes, from_be_bytes, max_frame_len, read_message, write_message,
}
use incubator_mesatee.Types.Storage.{Json}

length-to_be_bytes : (n : ℕ) → length (to_be_bytes n) ≡ 8
unfolding to_be_bytes
length-to_be_bytes n = refl

from_be_bytes-to_be_bytes : (n : ℕ) → n < 2 ^ 64 → from_be_bytes (to_be_bytes n) ≡ n
unfolding to_be_bytes from_be_bytes
from_be_bytes-to_be_bytes n h = omega (arith, h)

map_err_ok :
    {S E F A : Type 0} (f : E → F) (m : Action S E A) (s : S) (a : A)
    → (map_err f m s).0 ≡ ok a
    → (m s).0 ≡ ok a
unfolding map_err
map_err_ok f m s a h = elim (Result-cases (m s).0) [
  | inl (b, e) ↦ ground (arith, h, e)
  | inr (x, e) ↦ absurd (ground (arith, h, e))
]

append_assoc : (a b c : Text) → (a ++ b) ++ c ≡ a ++ (b ++ c)
append_assoc [] b c = refl
append_assoc (x ∷ a) b c = ap (◌∷◌ x) (append_assoc a b c)

append-cancel : (a b c : Text) → a ++ b ≡ a ++ c → b ≡ c
append-cancel [] b c h = h
append-cancel (x ∷ a) b c h = append-cancel a b c (cc h)

module _ (t : Transport) {A : Type 0} (json : Json A) where
  abbrev pub frame : Text → Text
  frame body = to_be_bytes (length body) ++ body

  -- What a write that succeeds leaves on the stream: as much of the header as `write` took, and
  -- the whole message.
  write_message-sent :
      (s : t.Stream) (message : A)
      → (write_message t json message s).0 ≡ ok tt
      → (body : Text) × (n : ℕ) × (json.to_vec message ≡ ok body)
        × ((t.write (to_be_bytes (length body % 2 ^ 64)) s).0 ≡ ok n)
        × (t.outgoing (write_message t json message s).1
            ≡ t.outgoing s ++ (truncate n (to_be_bytes (length body % 2 ^ 64)) ++ body))
  unfolding write_message map_err lift ◌>>=◌
  write_message-sent s message h = elim (Result-cases (json.to_vec message)) [
    | inr (x, e) ↦ absurd (ground (arith, h, e))
    | inl (body, e) ↦
        let header = to_be_bytes (length body % 2 ^ 64) in
        let s1 = (t.write header s).1 in
        elim (Result-cases (t.write header s).0) [
          | inr (x, f) ↦ absurd (ground (arith, h, e, f))
          | inl (n, f) ↦ elim (Result-cases (t.write_all body s1).0) [
            | inr (x, g) ↦ absurd (ground (arith, h, e, f, g))
            | inl (u, g) ↦ (
              body,
              n,
              e,
              f,
              ground (
                arith,
                e,
                f,
                g,
                t.write_lem s header n f,
                t.write_all_lem s1 body,
                t.flush_lem (t.write_all body s1).1,
                append_assoc (t.outgoing s) (truncate n header) body,
              ),
            )
          ]
        ]
  ]

  read_header :
      (r : t.Stream) (body rest : Text)
      → t.incoming r ≡ frame body ++ rest
      → ((t.read_exact 8 r).0 ≡ ok (to_be_bytes (length body)))
        × (t.incoming (t.read_exact 8 r).1 ≡ body ++ rest)
  unfolding to_be_bytes
  read_header r body rest i = t.read_exact_lem r (to_be_bytes (length body)) (body ++ rest) i

  module _ (s r : t.Stream) (message : A) (body sent rest : Text)
      (e : json.to_vec message ≡ ok body) (written : (write_message t json message s).0 ≡ ok tt)
      (whole : (t.write (to_be_bytes (length body % 2 ^ 64)) s).0 ≡ ok 8)
      (out : t.outgoing (write_message t json message s).1 ≡ t.outgoing s ++ sent)
      (i : t.incoming r ≡ sent ++ rest) where
    sent-frame : length body < 2 ^ 64 → sent ≡ frame body
    sent-frame small =
        let (b, n, f, took, o) = write_message-sent s message written in
        let same : b ≡ body = ground (arith, e, f) in
        let kept : length body % 2 ^ 64 ≡ length body = omega (arith, small) in
        let all : n ≡ 8 = ground (arith, took, whole, same) in
        append-cancel (t.outgoing s) sent (frame body) (
          sym out
          ∙ o
          ∙ ap (λ m. t.outgoing s ++ (truncate m (to_be_bytes (length b % 2 ^ 64)) ++ b)) all
          ∙ ap (λ x. t.outgoing s ++ (x ++ b))
              (truncate-all (to_be_bytes (length b % 2 ^ 64)) 8 (length-to_be_bytes _))
          ∙ ap (λ x. t.outgoing s ++ (to_be_bytes (length x % 2 ^ 64) ++ x)) same
          ∙ ap (λ n. t.outgoing s ++ (to_be_bytes n ++ body)) kept)

    incoming-frame : length body < 2 ^ 64 → t.incoming r ≡ frame body ++ rest
    incoming-frame small = i ∙ ap (λ x. x ++ rest) (sent-frame small)

    -- A message that is written, and is at most 32 MiB long, is read back from a stream on which
    -- the written bytes come in, and what follows them stays there, if the call of `write` for the
    -- header took all its eight bytes.
    pub write_message-read_message :
        length body ≤ max_frame_len
        → ((read_message t json r).0 ≡ ok message) × (t.incoming (read_message t json r).1 ≡ rest)
    unfolding read_message map_err lift ensure ◌>>=◌
    write_message-read_message fits =
        let small : length body < 2 ^ 64 = omega (arith, fits) in
        let (got, left) = read_header r body rest (incoming-frame small) in
        let (got1, left1) = t.read_exact_lem (t.read_exact 8 r).1 body rest left in
        let len = from_be_bytes-to_be_bytes (length body) small in
        ground (arith, got, len, fits, got1, left1, json.from_slice-to_vec message e)

    -- A message that is longer is, under the same condition, written all the same, and the reader refuses it, with the
    -- message still on the stream.
    write_message-too_long :
        max_frame_len < length body
        → length body < 2 ^ 64
        → ((read_message t json r).0 ≡ err (other (utf8 "Exceed max frame length")))
          × (t.incoming (read_message t json r).1 ≡ body ++ rest)
    unfolding read_message map_err lift ensure ◌>>=◌
    write_message-too_long long small =
        let (got, left) = read_header r body rest (incoming-frame small) in
        let len = from_be_bytes-to_be_bytes (length body) small in
        ground (arith, got, len, long, left)
