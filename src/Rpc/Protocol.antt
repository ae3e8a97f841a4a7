-- ===== src/Rpc/Protocol.antt =====
-- `JsonProtocol` of rpc/src/protocol.rs: a message is its JSON after eight bytes of length.
use incubator_mesatee.Base.{
  Text, utf8, ◌≡◌, ℕ, ◌+◌, ◌*◌, ◌/◌, ◌%◌, ◌^◌, [], ◌∷◌, ◌++◌, Result, ok, err, Action, lift, ensure,
  map_err, ◌>>=◌, ◌>>◌, length, leb,
}
use incubator_mesatee.Base.Bytes.{truncate}
use incubator_mesatee.Types.Error.{ServiceError, connection_error, internal_error}
use incubator_mesatee.Types.Storage.{Json}

pub data ProtocolError : Type 0 where
  io_error : Text → ProtocolError
  serde_error : Text → ProtocolError
  other : Text → ProtocolError

-- `From<ProtocolError> for TeaclaveServiceResponseError`
unfoldable pub response_error : ProtocolError → ServiceError
response_error (io_error e) = connection_error e
response_error (serde_error e) = internal_error (utf8 "serde")
response_error (other e) = internal_error (utf8 "internal")

-- `JsonProtocolResult`, and the two conversions
pub data JsonProtocolResult (E T : Type 0) : Type 0 where
  json_ok : T → JsonProtocolResult E T
  json_err : E → JsonProtocolResult E T

unfoldable pub from_result : {E T : Type 0} → Result E T → JsonProtocolResult E T
from_result (ok t) = json_ok t
from_result (err e) = json_err e

unfoldable pub into_result : {E T : Type 0} → JsonProtocolResult E T → Result E T
into_result (json_ok t) = ok t
into_result (json_err e) = err e

-- `io::Read` and `io::Write` of a stream. `write` may take fewer bytes than it is given;
-- `read_exact` blocks until there are enough.
pub record Transport : Type 1 where
  pub Stream : Type 0
  -- what is still to be read, and what was written
  pub incoming : Stream → Text
  pub outgoing : Stream → Text
  pub read_exact : ℕ → Action Stream Text Text
  pub write : Text → Action Stream Text ℕ
  pub write_all : Text → Action Stream Text (Unit {0})
  pub flush : Action Stream Text (Unit {0})
  pub read_exact_lem :
      (s : Stream) (bytes rest : Text)
      → incoming s ≡ bytes ++ rest
      → ((read_exact (length bytes) s).0 ≡ ok bytes)
        × (incoming (read_exact (length bytes) s).1 ≡ rest)
  pub write_lem :
      (s : Stream) (bytes : Text) (n : ℕ)
      → (write bytes s).0 ≡ ok n
      → outgoing (write bytes s).1 ≡ outgoing s ++ truncate n bytes
  pub write_all_lem :
      (s : Stream) (bytes : Text)
      → (write_all bytes s).0 ≡ ok tt
      → outgoing (write_all bytes s).1 ≡ outgoing s ++ bytes
  pub flush_lem : (s : Stream) → outgoing (flush s).1 ≡ outgoing s

-- `u64::to_be_bytes` and `u64::from_be_bytes`
unfoldable pub to_be_bytes : ℕ → Text
to_be_bytes n =
    n / 2 ^ 56 % 256
    ∷ n / 2 ^ 48 % 256
    ∷ n / 2 ^ 40 % 256
    ∷ n / 2 ^ 32 % 256
    ∷ n / 2 ^ 24 % 256
    ∷ n / 2 ^ 16 % 256
    ∷ n / 2 ^ 8 % 256
    ∷ n % 256
    ∷ []

unfoldable be_from : ℕ → Text → ℕ
be_from n [] = n
be_from n (b ∷ bytes) = be_from (256 * n + b) bytes

unfoldable pub from_be_bytes : Text → ℕ
unfolding be_from
from_be_bytes bytes = be_from 0 bytes

abbrev pub max_frame_len : ℕ
max_frame_len = 32 * 1_024 * 1_024

module _ (t : Transport) {A : Type 0} (json : Json A) where
  unfoldable pub read_message : Action t.Stream ProtocolError A
  read_message = do
    header ← map_err io_error (t.read_exact 8)
    let buf_len = from_be_bytes header
    ensure (leb buf_len max_frame_len) (other (utf8 "Exceed max frame length"))
    recv_buf ← map_err io_error (t.read_exact buf_len)
    map_err serde_error (lift (json.from_slice recv_buf))

  -- The number of bytes that `write` takes of the header is not looked at.
  unfoldable pub write_message : A → Action t.Stream ProtocolError (Unit {0})
  write_message message = do
    send_buf ← map_err serde_error (lift (json.to_vec message))
    let header = to_be_bytes (length send_buf % 2 ^ 64)
    n ← map_err io_error (t.write header)
    map_err io_error (t.write_all send_buf)
    map_err io_error t.flush
