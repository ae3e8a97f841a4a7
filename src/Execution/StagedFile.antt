-- ===== src/Execution/StagedFile.antt =====
-- types/src/staged_file.rs, with `DefaultRuntime` of runtime/src/default.rs, which gives a function
-- its files.
use incubator_mesatee.Base.{
  Text, utf8, ◌==◌, List, [], ◌∷◌, foldl, none, some, Result, ok, err, Action, pure, lift, ensure,
  ◌>>=◌, ◌>>◌, eqb, length,
}
use incubator_mesatee.Base.HashMap.{HashMap, get, insert}
use incubator_mesatee.Execution.Platform.{Platform}
use incubator_mesatee.Types.Crypto.{FileAuthTag, File128Key}
use incubator_mesatee.Types.Runtime.{Failure, error, Runtime}

pub record StagedFileInfo : Type 0 where
  pub path : Text
  pub crypto_info : File128Key
  pub cmac : FileAuthTag

pub record StagedFiles : Type 0 where
  pub entries : HashMap StagedFileInfo

-- `FromIterator<(String, StagedFileInfo)> for StagedFiles`
unfoldable pub from_iter : List (Text × StagedFileInfo) → StagedFiles
from_iter iter = record { entries = foldl (λ m e. insert m e.0 e.1) [] iter }

module _ (p : Platform) where
  unfoldable pub create_readable_io : StagedFileInfo → Action p.Machine Failure p.ProtectedFile
  create_readable_io info = do
    f ← p.open_ex info.path info.crypto_info.key
    tag ← p.current_meta_gmac f
    ensure (info.cmac.tag == tag) (error (utf8 "Corrupted input file"))
    pure f

  unfoldable pub create_writable_io : StagedFileInfo → Action p.Machine Failure p.ProtectedFile
  create_writable_io info = p.create_ex info.path info.crypto_info.key

  -- the loop of `convert_file`, on the buffers that are left to read
  unfoldable pub copy_buffers :
      p.ProtectedFile → List (Result Failure Text) → Action p.Machine Failure (Unit {0})
  copy_buffers dest_file [] = pure tt
  copy_buffers dest_file (round ∷ rounds) = do
    buffer ← lift round
    wt_len ← p.write dest_file buffer
    ensure (eqb (length buffer) wt_len) (error (utf8 "Cannot fully write to dest file"))
    copy_buffers dest_file rounds

  unfoldable pub buffers_of :
      p.ProtectedFile → Action p.Machine Failure (List (Result Failure Text))
  buffers_of src_file machine = (ok (p.buffers src_file machine), machine)

  unfoldable pub convert_file :
      StagedFileInfo → Text → File128Key → Action p.Machine Failure StagedFileInfo
  convert_file info dst crypto = do
    src_file ← p.open_ex info.path info.crypto_info.key
    dest_file ← p.create_ex dst crypto.key
    rounds ← buffers_of src_file
    copy_buffers dest_file rounds
    p.flush dest_file
    tag ← p.current_meta_gmac dest_file
    pure (record { path = dst; crypto_info = crypto; cmac = record { tag = tag } })

  -- `TeaclaveFile128Key::random`
  unfoldable pub random_key : Action p.Machine Failure File128Key
  random_key machine = let (key, next) = p.random machine in (ok key, next)

  unfoldable pub create_with_bytes : Text → Text → Action p.Machine Failure StagedFileInfo
  create_with_bytes path bytes = do
    crypto ← random_key
    f ← p.create_ex path crypto.key
    p.write_all f bytes
    p.flush f
    tag ← p.current_meta_gmac f
    pure (record { path = path; crypto_info = crypto; cmac = record { tag = tag } })

  -- a lookup with `ok_or_else`
  unfoldable pub find_file : StagedFiles → Text → Text → Result Failure StagedFileInfo
  find_file files identifier message = elim (get files.entries identifier) [
    | none ↦ err (error message)
    | some file_info ↦ ok file_info
  ]

  -- `DefaultRuntime`
  unfoldable pub open_input : StagedFiles → Text → Action p.Machine Failure p.ProtectedFile
  open_input input_files identifier = do
    file_info ← lift (find_file input_files identifier (utf8 "Invalid input file identifier."))
    create_readable_io file_info

  unfoldable pub create_output : StagedFiles → Text → Action p.Machine Failure p.ProtectedFile
  create_output output_files identifier = do
    file_info ← lift (find_file output_files identifier (utf8 "Invalid output file identifier"))
    create_writable_io file_info

  abbrev pub default_runtime : StagedFiles → StagedFiles → Runtime
  default_runtime input_files output_files = record {
    State = p.Machine;
    Reader = p.ProtectedFile;
    Writer = p.ProtectedFile;
    open_input = open_input input_files;
    create_output = create_output output_files;
    read_to_end = p.read_to_end;
    write_all = p.write_all;
    read = p.read;
    write = p.write;
  }
