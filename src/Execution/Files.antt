-- ===== src/Execution/Files.antt =====
-- `TaskFileManager` of services/execution/enclave/src/task_file_manager.rs: the input files are
-- downloaded and staged as protected files, the output files converted and uploaded.
use incubator_mesatee.Base.{
  Text, utf8, ◌==◌, ◌-◌, List, [], ◌∷◌, map, foldl, Action, pure, raise, lift, ensure, ◌>>=◌, ◌>>◌,
  length, ltb,
}
use incubator_mesatee.Base.Bytes.{drop}
use incubator_mesatee.Base.Collect.{collect}
use incubator_mesatee.Base.HashMap.{HashMap, insert}
use incubator_mesatee.Execution.Paths.{join, make_staged_path, make_intermediate_path}
use incubator_mesatee.Execution.Platform.{Platform, download, upload}
use incubator_mesatee.Execution.StagedFile.{
  StagedFileInfo, StagedFiles, from_iter, convert_file, random_key, create_with_bytes,
}
use incubator_mesatee.Types.Aead.{Aead, Algorithm, aes_128_gcm, aes_256_gcm}
use incubator_mesatee.Types.Cipher.{decrypt}
use incubator_mesatee.Types.Crypto.{
  FileAuthTag, GcmKey, FileCrypto, aes_gcm_128, aes_gcm_256, teaclave_file_128, raw,
  file_auth_tag_length,
}
use incubator_mesatee.Types.Runtime.{Failure, error}
use incubator_mesatee.Types.Staged.{FunctionInputFile, FunctionOutputFile}
use incubator_mesatee.Types.Storage.{Uuid}

pub record InterInput : Type 0 where
  pub funiq_key : Text
  pub file : FunctionInputFile
  pub download_path : Text
  pub staged_path : Text

pub record InterOutput : Type 0 where
  pub funiq_key : Text
  pub file : FunctionOutputFile
  pub upload_path : Text
  pub staged_info : StagedFileInfo

pub record TaskFileManager : Type 0 where
  pub inter_inputs : List InterInput
  pub inter_outputs : List InterOutput
  pub fusion_base : Text

-- `FileAuthTag::default()`
abbrev default_tag : FileAuthTag
default_tag = record { tag = 0 ∷ 0 ∷ 0 ∷ 0 ∷ 0 ∷ 0 ∷ 0 ∷ 0 ∷ 0 ∷ 0 ∷ 0 ∷ 0 ∷ 0 ∷ 0 ∷ 0 ∷ 0 ∷ [] }

module _ (a : Aead) (p : Platform) where
  unfoldable pub inter_input : Text → Text × FunctionInputFile → Action p.Machine Failure InterInput
  inter_input inter_base (funiq_key, file) = do
    download_path ← make_intermediate_path p inter_base funiq_key file.url
    staged_path ← make_staged_path p inter_base funiq_key file.url
    pure (record {
      funiq_key = funiq_key;
      file = file;
      download_path = download_path;
      staged_path = staged_path;
    })

  -- the two tests and the decryption that both AES-GCM branches make, with their messages
  unfoldable pub decrypt_checked :
      Algorithm → GcmKey → FileAuthTag → Text → Text → Text → Action p.Machine Failure Text
  decrypt_checked alg crypto cmac bytes invalid_length invalid_tag = do
    let n = length bytes
    ensure (ltb file_auth_tag_length n) (error invalid_length)
    ensure (cmac.tag == drop (n - file_auth_tag_length) bytes) (error invalid_tag)
    opened ← lift (decrypt a alg crypto bytes)
    pure opened.1

  unfoldable pub stage_input : InterInput → FileCrypto → Action p.Machine Failure StagedFileInfo
  stage_input input (teaclave_file_128 crypto) = do
    p.soft_link input.download_path input.staged_path
    pure (record { path = input.download_path; crypto_info = crypto; cmac = input.file.cmac })
  stage_input input (aes_gcm_128 crypto) = do
    bytes ← p.read_file input.download_path
    plain ←
        decrypt_checked aes_128_gcm crypto input.file.cmac bytes
          (utf8 "AesGcm128 File, invalid length") (utf8 "AesGcm128 File, invalid tag")
    create_with_bytes p input.staged_path plain
  stage_input input (aes_gcm_256 crypto) = do
    bytes ← p.read_file input.download_path
    plain ←
        decrypt_checked aes_256_gcm crypto input.file.cmac bytes
          (utf8 "AesGcm256 File, invalid length") (utf8 "AesGcm256 File, invalid tag")
    create_with_bytes p input.staged_path plain
  stage_input input raw = do
    bytes ← p.read_file input.download_path
    create_with_bytes p input.staged_path bytes

  unfoldable pub to_staged_file_entry :
      InterInput → Action p.Machine Failure (Text × StagedFileInfo)
  to_staged_file_entry input = do
    staged_file_info ← stage_input input input.file.crypto_info
    pure (input.funiq_key, staged_file_info)

  unfoldable pub inter_output :
      Text → Text × FunctionOutputFile → Action p.Machine Failure InterOutput
  inter_output inter_base (funiq_key, file) = do
    upload_path ← make_intermediate_path p inter_base funiq_key file.url
    staged_path ← make_staged_path p inter_base funiq_key file.url
    random ← random_key p
    pure (record {
      funiq_key = funiq_key;
      file = file;
      upload_path = upload_path;
      staged_info = record { path = staged_path; crypto_info = random; cmac = default_tag };
    })

  unfoldable pub convert_with : InterOutput → FileCrypto → Action p.Machine Failure StagedFileInfo
  convert_with output (teaclave_file_128 crypto) =
      convert_file p output.staged_info output.upload_path crypto
  convert_with output (aes_gcm_128 crypto) = raise (error (utf8 "OutputFile: unsupported type"))
  convert_with output (aes_gcm_256 crypto) = raise (error (utf8 "OutputFile: unsupported type"))
  convert_with output raw = raise (error (utf8 "OutputFile: unsupported type"))

  unfoldable pub convert_to_upload_file :
      InterOutput → Action p.Machine Failure (Text × FileAuthTag)
  convert_to_upload_file output = do
    outfile ← convert_with output output.file.crypto_info
    pure (output.funiq_key, outfile.cmac)

  -- `TaskFileManager::new`
  unfoldable pub new :
      Text
      → Text
      → Uuid
      → HashMap FunctionInputFile
      → HashMap FunctionOutputFile
      → Action p.Machine Failure TaskFileManager
  new inter_base fusion_base task_id inputs outputs = do
    let cwd = join inter_base (p.show_uuid task_id)
    inter_inputs ← collect (inter_input (join cwd (utf8 "inputs"))) inputs
    inter_outputs ← collect (inter_output (join cwd (utf8 "outputs"))) outputs
    pure (record {
      inter_inputs = inter_inputs;
      inter_outputs = inter_outputs;
      fusion_base = fusion_base;
    })

  unfoldable pub prepare_staged_inputs : TaskFileManager → Action p.Machine Failure StagedFiles
  prepare_staged_inputs m = do
    p.handle_file_request (record {
      cmd = download;
      info =
          map (λ (i : InterInput). record { local = i.download_path; remote = i.file.url })
            m.inter_inputs;
      fusion_base = m.fusion_base;
    })
    entries ← collect to_staged_file_entry m.inter_inputs
    pure (from_iter entries)

  -- `generate_staged_files`
  unfoldable pub prepare_staged_outputs : TaskFileManager → StagedFiles
  prepare_staged_outputs m =
      from_iter (map (λ (o : InterOutput). (o.funiq_key, o.staged_info)) m.inter_outputs)

  -- `collect` into a `HashMap`
  unfoldable pub tags_of : List (Text × FileAuthTag) → HashMap FileAuthTag
  tags_of iter = foldl (λ m e. insert m e.0 e.1) [] iter

  unfoldable pub upload_outputs : TaskFileManager → Action p.Machine Failure (HashMap FileAuthTag)
  upload_outputs m = do
    auth_tags ← collect convert_to_upload_file m.inter_outputs
    p.handle_file_request (record {
      cmd = upload;
      info =
          map (λ (o : InterOutput). record { local = o.upload_path; remote = o.file.url })
            m.inter_outputs;
      fusion_base = m.fusion_base;
    })
    pure (tags_of auth_tags)
