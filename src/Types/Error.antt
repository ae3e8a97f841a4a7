-- ===== src/Types/Error.antt =====
-- types/src/error.rs: the error that a service answers with. An `anyhow::Error` is the text that
-- it displays.
use incubator_mesatee.Base.{Text, utf8, ◌++◌}

pub data ServiceError : Type 0 where
  request_error : Text → ServiceError
  connection_error : Text → ServiceError
  internal_error : Text → ServiceError

-- the `Display` that `thiserror` derives
unfoldable pub display : ServiceError → Text
display (request_error e) = utf8 "Request error: " ++ e
display (connection_error e) = utf8 "Connection error: " ++ e
display (internal_error e) = utf8 "Internal error: " ++ e

-- `impl From<anyhow::Error>`
unfoldable pub from_anyhow : Text → ServiceError
from_anyhow e = request_error e
