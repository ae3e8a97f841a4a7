-- ===== src/Execution/Uploads.antt =====
-- Which tasks can end with outputs, and which input files a function is given
-- (services/execution/enclave/src/task_file_manager.rs).
use incubator_mesatee.Base.{
  Text, ◌==◌, ==_iff, ◌≡◌, refl, sym, subst, ◌-◌, ◌<◌, ok, ◌⊎◌, inl, inr, pure, raise, ensure,
  arith, length, ltb,
}
use incubator_mesatee.Base.Collect.{collect, All, Zip, Zip-All, Zip-first, collect-Zip, bind-parts}
use incubator_mesatee.Base.HashMap.{HashMap}
use incubator_mesatee.Base.Bytes.{drop}
use incubator_mesatee.Base.Reads.{Reads-ensure}
use incubator_mesatee.Execution.Files.{
  InterInput, InterOutput, TaskFileManager, inter_input, inter_output, convert_with,
  convert_to_upload_file, new, upload_outputs, decrypt_checked, to_staged_file_entry, stage_input,
}
use incubator_mesatee.Execution.Platform.{Platform}
use incubator_mesatee.Execution.Service.{run_task, prepare_task}
use incubator_mesatee.Execution.StagedFile.{StagedFileInfo, random_key}
use incubator_mesatee.Execution.Paths.{make_staged_path, make_intermediate_path}
use incubator_mesatee.Execution.Worker.{Library, default_worker, invoke_function}
use incubator_mesatee.Types.Aead.{Aead, Algorithm, aes_128_gcm, aes_256_gcm}
use incubator_mesatee.Types.Crypto.{
  FileCrypto, File128Key, GcmKey, FileAuthTag, aes_gcm_128, aes_gcm_256, teaclave_file_128, raw,
}
use incubator_mesatee.Types.Runtime.{error}
use incubator_mesatee.Types.Storage.{Uuid}
use incubator_mesatee.Types.Staged.{StagedTask, FunctionOutputFile, FunctionInputFile}
use incubator_mesatee.Types.Task.{TaskOutputs}

-- the one kind of file that can be uploaded
abbrev pub IsProtected : FileCrypto → Type 0
IsProtected c = (key : File128Key) × (c ≡ teaclave_file_128 key)

module _ (a : Aead) (p : Platform) where
  convert_with-IsProtected :
      (o : InterOutput) (crypto : FileCrypto) (s : p.Machine) (q : StagedFileInfo)
      → (convert_with a p o crypto s).0 ≡ ok q
      → IsProtected crypto
  unfolding convert_with raise
  convert_with-IsProtected o (teaclave_file_128 key) s q h = (key, refl)
  convert_with-IsProtected o (aes_gcm_128 key) s q h = absurd (ground (arith, h))
  convert_with-IsProtected o (aes_gcm_256 key) s q h = absurd (ground (arith, h))
  convert_with-IsProtected o raw s q h = absurd (ground (arith, h))

  converted :
      (o : InterOutput) (s : p.Machine) (t : Text × FileAuthTag)
      → (convert_to_upload_file a p o s).0 ≡ ok t
      → IsProtected o.file.crypto_info
  unfolding convert_to_upload_file
  converted o s t h =
      let (q, e, r) = bind-parts (convert_with a p o o.file.crypto_info) _ s t h in
      convert_with-IsProtected o o.file.crypto_info s q e

  upload_outputs-IsProtected :
      (m : TaskFileManager) (s : p.Machine) (tags : HashMap FileAuthTag)
      → (upload_outputs a p m s).0 ≡ ok tags
      → All (λ (o : InterOutput). IsProtected o.file.crypto_info) m.inter_outputs
  unfolding upload_outputs
  upload_outputs-IsProtected m s tags h =
      let (ts, e, r) =
        bind-parts (collect (convert_to_upload_file a p) m.inter_outputs) _ s tags h in
      Zip-first _ _ (λ o t g. g) m.inter_outputs ts
        (collect-Zip (λ (o : InterOutput) (t : Text × FileAuthTag). IsProtected o.file.crypto_info)
          (convert_to_upload_file a p) converted m.inter_outputs s ts e)

  kept_file :
      (base : Text) (x : Text × FunctionOutputFile) (s : p.Machine) (o : InterOutput)
      → (inter_output a p base x s).0 ≡ ok o
      → o.file ≡ x.1
  unfolding inter_output pure
  kept_file base x s o h =
      let (d, e, r) = bind-parts (make_intermediate_path p base x.0 (x.1).url) _ s o h in
      let (g, e1, r1) = bind-parts (make_staged_path p base x.0 (x.1).url) _ _ o r in
      let (k, e2, r2) = bind-parts (random_key p) _ _ o r1 in ground (arith, r2)

  new-files :
      (inter base : Text) (id : Uuid) (is : HashMap FunctionInputFile)
      (os : HashMap FunctionOutputFile) (s : p.Machine) (m : TaskFileManager)
      → (new a p inter base id is os s).0 ≡ ok m
      → Zip (λ (x : Text × FunctionOutputFile) (o : InterOutput). o.file ≡ x.1) os m.inter_outputs
  unfolding new pure
  new-files inter base id is os s m h =
      let (ins, e, r) = bind-parts (collect (inter_input a p _) is) _ s m h in
      let (outs, e1, r1) = bind-parts (collect (inter_output a p _) os) _ _ m r in
      let same : outs ≡ m.inter_outputs = ground (arith, r1) in
      subst (Zip _ os) same (collect-Zip _ _ (kept_file _) os _ outs e1)

module _ (l : Library) (p : Platform) where
  -- A task that ends with outputs has protected files as its output files: one whose output has
  -- another kind of key, AES-GCM or none, runs its function and then fails.
  pub run_task-IsProtected :
      (base : Text) (task : StagedTask) (s : p.Machine) (o : TaskOutputs)
      → (run_task l p base task s).0 ≡ ok o
      → All (λ (x : Text × FunctionOutputFile). IsProtected (x.1).crypto_info) task.output_data
  unfolding run_task
  run_task-IsProtected base task s o h =
      let (m, e, r) =
        bind-parts (new l.aead p _ base task.task_id task.input_data task.output_data) _ s o h in
      let (f, e1, r1) = bind-parts (prepare_task l p task m) _ _ o r in
      let (w, e2, r2) = bind-parts (invoke_function l p default_worker f) _ _ o r1 in
      let (tags, e3, r3) = bind-parts (upload_outputs l.aead p m) _ _ o r2 in
      Zip-All _ _ _ (λ x out q g. subst (λ (f : FunctionOutputFile). IsProtected f.crypto_info) q g)
        task.output_data m.inter_outputs (new-files l.aead p _ base _ _ _ s m e)
        (upload_outputs-IsProtected l.aead p m _ tags e3)

-- the bytes are more than the tag, and end in it
abbrev pub EndsIn : FileAuthTag → Text → Type 0
EndsIn cmac bytes = (16 < length bytes) × (drop (length bytes - 16) bytes ≡ cmac.tag)

module _ (a : Aead) (p : Platform) where
  decrypt_checked-EndsIn :
      (alg : Algorithm) (k : GcmKey) (cmac : FileAuthTag) (bytes e1 e2 : Text) (s : p.Machine)
      (plain : Text)
      → (decrypt_checked a p alg k cmac bytes e1 e2 s).0 ≡ ok plain
      → EndsIn cmac bytes
  unfolding decrypt_checked ensure
  decrypt_checked-EndsIn alg k cmac bytes e1 e2 s plain h =
      let (u, g, r) = bind-parts (ensure (ltb 16 (length bytes)) (error e1)) _ s plain h in
      let (v, g1, r1) =
        bind-parts (ensure (cmac.tag == drop (length bytes - 16) bytes) (error e2)) _ _ plain r in
      let long = (Reads-ensure {s = s} (ltb 16 (length bytes)) (error e1)).found u g in
      let equal =
        (Reads-ensure (cmac.tag == drop (length bytes - 16) bytes) (error e2)).found v g1 in
      (ground (arith, long), sym ((==_iff _ _).0 equal))

  -- An input file under AES-GCM is given to a function only if what was downloaded is longer than
  -- its tag and ends in the tag that the task names.
  pub to_staged_file_entry-EndsIn :
      (input : InterInput) (k : GcmKey) (s : p.Machine) (entry : Text × StagedFileInfo)
      → (input.file.crypto_info ≡ aes_gcm_128 k) ⊎ (input.file.crypto_info ≡ aes_gcm_256 k)
      → (to_staged_file_entry a p input s).0 ≡ ok entry
      → (bytes : Text) × ((p.read_file input.download_path s).0 ≡ ok bytes)
        × EndsIn input.file.cmac bytes
  unfolding to_staged_file_entry stage_input
  to_staged_file_entry-EndsIn input k s entry c h =
      let (info, g, r) = bind-parts (stage_input a p input input.file.crypto_info) _ s entry h in
      elim c [
        | inl e ↦
            let g1 = subst (λ x. (stage_input a p input x s).0 ≡ ok info) e g in
            let (bytes, read, r1) = bind-parts (p.read_file input.download_path) _ s info g1 in
            let (plain, g2, r2) =
              bind-parts (decrypt_checked a p aes_128_gcm k input.file.cmac bytes _ _) _ _ info
                r1 in
            (bytes, read, decrypt_checked-EndsIn aes_128_gcm k input.file.cmac bytes _ _ _ plain g2)
        | inr e ↦
            let g1 = subst (λ x. (stage_input a p input x s).0 ≡ ok info) e g in
            let (bytes, read, r1) = bind-parts (p.read_file input.download_path) _ s info g1 in
            let (plain, g2, r2) =
              bind-parts (decrypt_checked a p aes_256_gcm k input.file.cmac bytes _ _) _ _ info
                r1 in
            (bytes, read, decrypt_checked-EndsIn aes_256_gcm k input.file.cmac bytes _ _ _ plain g2)
      ]
