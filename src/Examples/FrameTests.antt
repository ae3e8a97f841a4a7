-- ===== src/Examples/FrameTests.antt =====
-- A message on a stream in memory.
use incubator_mesatee.Base.{
  Text, utf8, ◌≡◌, refl, sym, ap, ℕ, [], ◌++◌, Action, ok, err, length, leb, length-append, arith,
  if◌then◌else◌, map_err, lift, ◌>>=◌, true,
}
use incubator_mesatee.Base.Bytes.{truncate, drop, truncate-length, drop-length, truncate-all}
use incubator_mesatee.Examples.Codec
use incubator_mesatee.Examples.Codec.{json, text}
use incubator_mesatee.Rpc.Frames.{write_message-read_message}
use incubator_mesatee.Rpc.Protocol.{Transport, read_message, write_message, to_be_bytes}

abbrev Pipe : Type 0
Pipe = Text × Text

pipe_read : (bytes rest : Text) → (leb (length bytes) (length (bytes ++ rest)) ≡ true)
pipe_read bytes rest = ground (arith, length-append bytes rest)

abbrev read_pipe : ℕ → Action Pipe Text Text
read_pipe n s =
    if leb n (length s.0)
    then (ok (truncate n s.0), (drop n s.0, s.1))
    else (err (utf8 "end of file"), s)

read_pipe_lem :
    (s : Pipe) (bytes rest : Text)
    → s.0 ≡ bytes ++ rest
    → ((read_pipe (length bytes) s).0 ≡ ok bytes) × (((read_pipe (length bytes) s).1).0 ≡ rest)
read_pipe_lem s bytes rest e =
    ground (arith, e, pipe_read bytes rest, truncate-length bytes rest, drop-length bytes rest)

write_pipe_lem :
    (s : Pipe) (bytes : Text) (n : ℕ) → length bytes ≡ n → s.1 ++ bytes ≡ s.1 ++ truncate n bytes
write_pipe_lem s bytes n e = ap (λ x. s.1 ++ x) (sym (truncate-all bytes n e))

abbrev pipe : Transport
pipe = record {
  Stream = Pipe;
  incoming = λ s. s.0;
  outgoing = λ s. s.1;
  read_exact = read_pipe;
  write = λ bytes s. (ok (length bytes), (s.0, s.1 ++ bytes));
  write_all = λ bytes s. (ok tt, (s.0, s.1 ++ bytes));
  flush = λ s. (ok tt, s);
  read_exact_lem = read_pipe_lem;
  write_lem = λ s bytes n e. write_pipe_lem s bytes n (cc e);
  write_all_lem = λ s bytes e. refl;
  flush_lem = λ s. refl;
}

abbrev hello : Text
hello = utf8 "hello"

abbrev body : Text
body = text.enc hello []

abbrev sent : Text
sent = to_be_bytes (length body) ++ body

write_message-read_message_example :
    ((read_message pipe (json text) (sent ++ utf8 "next", [])).0 ≡ ok hello)
    × (((read_message pipe (json text) (sent ++ utf8 "next", [])).1).0 ≡ utf8 "next")
unfolding write_message map_err lift ◌>>=◌ to_be_bytes Codec.items_enc Codec.both_dec Codec.via_dec
    Codec.items_dec Codec.from_text
write_message-read_message_example =
    write_message-read_message pipe (json text) ([], []) (sent ++ utf8 "next", []) hello body sent
      (utf8 "next") refl refl refl refl refl (omega arith)
