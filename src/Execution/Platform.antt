-- ===== src/Execution/Platform.antt =====
-- What the execution service takes of the platform: the untrusted file system, protected files, the
-- file agent, random keys and the crates that print a UUID and take a URL apart.
use incubator_mesatee.Base.{Text, ℕ, Bool, true, List, Result, Action, ◌≡◌}
use incubator_mesatee.Base.Str.{is_utf8}
use incubator_mesatee.Types.Crypto.{File128Key}
use incubator_mesatee.Types.File.{Url}
use incubator_mesatee.Types.Runtime.{Failure}
use incubator_mesatee.Types.Storage.{Uuid}

-- types/src/file_agent.rs
pub data HandleFileCommand : Type 0 where
  download upload : HandleFileCommand

pub record HandleFileInfo : Type 0 where
  pub local : Text
  pub remote : Url

pub record FileAgentRequest : Type 0 where
  pub cmd : HandleFileCommand
  pub info : List HandleFileInfo
  pub fusion_base : Text

-- `Machine` is the file system with the random number generator, and `ProtectedFile` an open
-- protected file.
pub record Platform : Type 1 where
  pub Machine : Type 0
  pub ProtectedFile : Type 0
  pub random : Machine → File128Key × Machine
  pub exists : Text → Machine → Bool
  pub create_dir_all : Text → Action Machine Failure (Unit {0})
  pub soft_link : Text → Text → Action Machine Failure (Unit {0})
  -- `File::open` and `read_to_end`
  pub read_file : Text → Action Machine Failure Text
  pub open_ex : Text → Text → Action Machine Failure ProtectedFile
  pub create_ex : Text → Text → Action Machine Failure ProtectedFile
  pub current_meta_gmac : ProtectedFile → Action Machine Failure Text
  pub read_to_end : ProtectedFile → Action Machine Failure Text
  pub read : ProtectedFile → ℕ → Action Machine Failure Text
  -- what `fill_buf` gives in each round, up to the empty buffer
  pub buffers : ProtectedFile → Machine → List (Result Failure Text)
  -- how many bytes are written
  pub write : ProtectedFile → Text → Action Machine Failure ℕ
  pub write_all : ProtectedFile → Text → Action Machine Failure (Unit {0})
  pub flush : ProtectedFile → Action Machine Failure (Unit {0})
  pub handle_file_request : FileAgentRequest → Action Machine Failure (Unit {0})
  pub url_path : Url → Text
  pub show_uuid : Uuid → Text
  pub from_utf8_lossy : Text → Text
  pub from_utf8_lossy_lem : (s : Text) → is_utf8 s ≡ true → from_utf8_lossy s ≡ s
