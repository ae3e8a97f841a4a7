-- ===== src/System/ManagementFiles.antt =====
-- The requests on files and functions (services/management/enclave/src/service.rs) never write
-- under a task key.
use incubator_mesatee.Base.{refl, pure, starts_with}
use incubator_mesatee.Management.Db.{Crates, inputs, outputs, functions, write_to_db}
use incubator_mesatee.Management.Files.{
  register_input_file, update_input_file, register_output_file, update_output_file,
  register_fusion_output, register_input_from_output, get_output_file, get_input_file,
  register_function, get_function,
}
use incubator_mesatee.Management.Requests.{
  Request, RegisterInputFileRequest, UpdateInputFileRequest, RegisterOutputFileRequest,
  UpdateOutputFileRequest, RegisterFusionOutputRequest, RegisterInputFromOutputRequest,
  GetInputFileRequest, GetOutputFileRequest, RegisterFunctionRequest, GetFunctionRequest,
}
use incubator_mesatee.Storage.Client.{StorageClient}
use incubator_mesatee.System.Access.{
  write_other, ends_user, ends_read, ends_require, ends_or_else, ends_write,
}
use incubator_mesatee.System.Step.{Steps, here}
use incubator_mesatee.Types.Crypto.{FileCrypto}
use incubator_mesatee.Types.File.{InputFile, OutputFile}
use incubator_mesatee.Types.Function.{Function}
use incubator_mesatee.Types.Storage.{Uuid, storage_key}

module _ (k : Crates) (c : StorageClient) {P : Uuid → Type 0} (s : c.Store) where
  write_input : (f : InputFile) → Steps k c P s (write_to_db k c (inputs k) f s).1
  unfolding storage_key starts_with
  write_input f = write_other k c s (inputs k) f refl

  write_output : (f : OutputFile) → Steps k c P s (write_to_db k c (outputs k) f s).1
  unfolding storage_key starts_with
  write_output f = write_other k c s (outputs k) f refl

  write_function : (f : Function) → Steps k c P s (write_to_db k c (functions k) f s).1
  unfolding storage_key starts_with
  write_function f = write_other k c s (functions k) f refl

  pub register_input_file-Steps :
      (fresh : Uuid) (r : Request RegisterInputFileRequest)
      → Steps k c P s (register_input_file k c fresh r s).1
  unfolding register_input_file
  register_input_file-Steps fresh r =
      ends_user k c s _ _ λ u _. ends_write k c s _ _ _ _ (write_input _)

  pub update_input_file-Steps :
      (fresh : Uuid) (r : Request UpdateInputFileRequest)
      → Steps k c P s (update_input_file k c fresh r s).1
  unfolding update_input_file
  update_input_file-Steps fresh r = ends_user k c s _ _ λ u _.
      ends_read k c s _ _ _ _
        λ old. ends_require k c s _ _ _ λ _. ends_write k c s _ _ _ _ (write_input _)

  pub register_output_file-Steps :
      (fresh : Uuid) (r : Request RegisterOutputFileRequest)
      → Steps k c P s (register_output_file k c fresh r s).1
  unfolding register_output_file
  register_output_file-Steps fresh r =
      ends_user k c s _ _ λ u _. ends_write k c s _ _ _ _ (write_output _)

  pub update_output_file-Steps :
      (fresh : Uuid) (r : Request UpdateOutputFileRequest)
      → Steps k c P s (update_output_file k c fresh r s).1
  unfolding update_output_file
  update_output_file-Steps fresh r = ends_user k c s _ _ λ u _.
      ends_read k c s _ _ _ _
        λ old. ends_require k c s _ _ _ λ _. ends_write k c s _ _ _ _ (write_output _)

  pub register_fusion_output-Steps :
      (in_url : Uuid) (crypto : FileCrypto) (fresh : Uuid) (r : Request RegisterFusionOutputRequest)
      → Steps k c P s (register_fusion_output k c in_url crypto fresh r s).1
  unfolding register_fusion_output
  register_fusion_output-Steps in_url crypto fresh r = ends_user k c s _ _ λ u _.
      ends_require k c s _ _ _
        λ _. ends_or_else k c s _ _ _ λ f _. ends_write k c s _ _ _ _ (write_output _)

  pub register_input_from_output-Steps :
      (r : Request RegisterInputFromOutputRequest)
      → Steps k c P s (register_input_from_output k c r s).1
  unfolding register_input_from_output
  register_input_from_output-Steps r = ends_user k c s _ _ λ u _. ends_read k c s _ _ _ _ λ output.
      ends_require k c s _ _ _
        λ _. ends_or_else k c s _ _ _ λ f _. ends_write k c s _ _ _ _ (write_input _)

  pub get_output_file-Steps :
      (r : Request GetOutputFileRequest) → Steps k c P s (get_output_file k c r s).1
  unfolding get_output_file pure
  get_output_file-Steps r =
      ends_user k c s _ _ λ u _. ends_read k c s _ _ _ _ λ f. ends_require k c s _ _ _ λ _. here

  pub get_input_file-Steps :
      (r : Request GetInputFileRequest) → Steps k c P s (get_input_file k c r s).1
  unfolding get_input_file pure
  get_input_file-Steps r =
      ends_user k c s _ _ λ u _. ends_read k c s _ _ _ _ λ f. ends_require k c s _ _ _ λ _. here

  pub register_function-Steps :
      (fresh : Uuid) (r : Request RegisterFunctionRequest)
      → Steps k c P s (register_function k c fresh r s).1
  unfolding register_function
  register_function-Steps fresh r =
      ends_user k c s _ _ λ u _. ends_write k c s _ _ _ _ (write_function _)

  pub get_function-Steps : (r : Request GetFunctionRequest) → Steps k c P s (get_function k c r s).1
  unfolding get_function pure
  get_function-Steps r =
      ends_user k c s _ _ λ u _. ends_read k c s _ _ _ _ λ f. ends_require k c s _ _ _ λ _. here
