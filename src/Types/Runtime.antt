-- ===== src/Types/Runtime.antt =====
-- `TeaclaveRuntime` of types/src/worker.rs, which gives a function its input and output files, and
-- the errors of the functions. A panic ends the function as an error does.
use incubator_mesatee.Base.{Text, ℕ, Action}

pub data Failure : Type 0 where
  -- an `anyhow::Error`, with its message
  error : Text → Failure
  panic : Failure

-- `open_input` and `create_output`, and what `Box<dyn io::Read>` and `Box<dyn io::Write>` are
-- asked for. `State` is the file system below.
pub record Runtime : Type 1 where
  pub State : Type 0
  pub Reader : Type 0
  pub Writer : Type 0
  pub open_input : Text → Action State Failure Reader
  pub create_output : Text → Action State Failure Writer
  pub read_to_end : Reader → Action State Failure Text
  pub write_all : Writer → Text → Action State Failure (Unit {0})
  -- `read` into a buffer of so many bytes, and `write`, which returns how many it took
  pub read : Reader → ℕ → Action State Failure Text
  pub write : Writer → Text → Action State Failure ℕ
