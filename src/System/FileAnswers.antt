-- ===== src/System/FileAnswers.antt =====
-- What a request on a file or a function means when it succeeds
-- (services/management/enclave/src/service.rs): who may ask, and what is stored.
use incubator_mesatee.Base.{
  refl, none, ◌<◌, utf8, ◌≡◌, true, ok, ◌∙◌, arith, pure, some, ◌==◌, [], ◌∷◌, ◌||◌,
}
use incubator_mesatee.Base.HashMap
use incubator_mesatee.Management.Db.{Crates, inputs, outputs, functions}
use incubator_mesatee.Management.Files.{
  create_fusion_data, register_fusion_output, update_input_file, update_output_file,
  register_input_from_output, get_output_file, get_input_file, get_function,
}
use incubator_mesatee.Management.Requests.{
  RegisterFusionOutputRequest, Request, UpdateInputFileRequest, UpdateOutputFileRequest,
  RegisterInputFromOutputRequest, GetInputFileRequest, GetInputFileResponse, GetOutputFileRequest,
  GetOutputFileResponse, GetFunctionRequest, GetFunctionResponse,
}
use incubator_mesatee.Storage.Client.{StorageClient}
use incubator_mesatee.System.Answers.{
  Stored, ok_user, ok_read, ok_require, ok_or_else, ends_pure-Stored, Stored-at,
}
use incubator_mesatee.Types.Crypto.{FileCrypto}
use incubator_mesatee.Types.File.{InputFile, OutputFile, input_new, output_new, from_output}
use incubator_mesatee.Types.Function.{Function}
use incubator_mesatee.Types.Owners
use incubator_mesatee.Types.Owners.{UserId, OwnerList}
use incubator_mesatee.Types.Storage.{Uuid, ExternalId, to_bytes, external_id}

from_output_ok :
    (o : OutputFile) (i : InputFile)
    → from_output o ≡ ok i
    → (o.cmac ≡ some i.cmac)
      × (i.url ≡ o.url)
      × (i.crypto_info ≡ o.crypto_info)
      × (i.owner ≡ o.owner)
      × (i.uuid ≡ o.uuid)
unfolding from_output
from_output_ok o i h = ground arith

fusion_data :
    (k : Crates) (c : StorageClient) (in_url : Uuid) (crypto : FileCrypto) (fresh : Uuid)
    (o : OwnerList) (f : OutputFile)
    → create_fusion_data k c in_url crypto fresh o ≡ ok f
    → (f.owner ≡ o) × (f.cmac ≡ none) × (f.crypto_info ≡ crypto)
unfolding create_fusion_data output_new
fusion_data k c in_url crypto fresh o f h = ground arith

module _ (k : Crates) (c : StorageClient) (s : c.Store) where
  -- An input file is updated only for a user who is its sole owner. The new file, under a new
  -- UUID, has the URL that is asked for and keeps the tag, the key and the owner.
  pub update_input_file-ok :
      (fresh : Uuid) (r : Request UpdateInputFileRequest) (a : ExternalId)
      → (update_input_file k c fresh r s).0 ≡ ok a
      → (u : UserId) × (old new : InputFile) × (HashMap.get r.metadata (utf8 "id") ≡ some u)
        × (Stored k c s (inputs k) (to_bytes k.show_uuid (r.message).data_id) old)
        × (Owners.eq old.owner (Owners.from_list (u ∷ [])) ≡ true)
        × (new.url ≡ (r.message).url)
        × (new.cmac ≡ old.cmac)
        × (new.crypto_info ≡ old.crypto_info)
        × (new.owner ≡ old.owner)
        × (new.uuid ≡ fresh)
        × (external_id (inputs k) new ≡ a)
        × Stored k c (update_input_file k c fresh r s).1 (inputs k) (to_bytes k.show_uuid a) new
  unfolding update_input_file input_new
  update_input_file-ok fresh r a h =
      let (u, id, (h1, e1)) = ok_user k c s _ _ _ h in
      let (old, held, (h2, e2)) = ok_read k c s _ _ _ _ _ h1 in
      let (x, own, (h3, e3)) = ok_require k c s _ _ _ _ h2 in
      let (q, p) = ends_pure-Stored k c (inputs k) _ _ s _ a _ h3 (e3 ∙ e2 ∙ e1) in
      (
        u,
        old,
        input_new fresh (r.message).url old.cmac old.crypto_info old.owner,
        id,
        held,
        own,
        refl,
        refl,
        refl,
        refl,
        refl,
        q,
        Stored-at k c (inputs k) _ _ a q p,
      )

  -- An output file is updated only for a user who is its sole owner. The new file, under a new
  -- UUID, has the URL that is asked for, no tag, and keeps the key and the owner.
  pub update_output_file-ok :
      (fresh : Uuid) (r : Request UpdateOutputFileRequest) (a : ExternalId)
      → (update_output_file k c fresh r s).0 ≡ ok a
      → (u : UserId) × (old new : OutputFile) × (HashMap.get r.metadata (utf8 "id") ≡ some u)
        × (Stored k c s (outputs k) (to_bytes k.show_uuid (r.message).data_id) old)
        × (Owners.eq old.owner (Owners.from_list (u ∷ [])) ≡ true)
        × (new.url ≡ (r.message).url)
        × (new.cmac ≡ none)
        × (new.crypto_info ≡ old.crypto_info)
        × (new.owner ≡ old.owner)
        × (new.uuid ≡ fresh)
        × (external_id (outputs k) new ≡ a)
        × Stored k c (update_output_file k c fresh r s).1 (outputs k) (to_bytes k.show_uuid a) new
  unfolding update_output_file output_new
  update_output_file-ok fresh r a h =
      let (u, id, (h1, e1)) = ok_user k c s _ _ _ h in
      let (old, held, (h2, e2)) = ok_read k c s _ _ _ _ _ h1 in
      let (x, own, (h3, e3)) = ok_require k c s _ _ _ _ h2 in
      let (q, p) = ends_pure-Stored k c (outputs k) _ _ s _ a _ h3 (e3 ∙ e2 ∙ e1) in
      (
        u,
        old,
        output_new fresh (r.message).url old.crypto_info old.owner,
        id,
        held,
        own,
        refl,
        refl,
        refl,
        refl,
        refl,
        q,
        Stored-at k c (outputs k) _ _ a q p,
      )

  -- A fusion output is registered only for a user among at least two owners. The stored file has
  -- those owners and no tag.
  pub register_fusion_output-ok :
      (in_url : Uuid) (crypto : FileCrypto) (fresh : Uuid) (r : Request RegisterFusionOutputRequest)
      (a : ExternalId)
      → (register_fusion_output k c in_url crypto fresh r s).0 ≡ ok a
      → (u : UserId) × (f : OutputFile) × (HashMap.get r.metadata (utf8 "id") ≡ some u)
        × (1 < Owners.length (r.message).owner_list)
        × (Owners.contains (r.message).owner_list u ≡ true)
        × (f.owner ≡ (r.message).owner_list)
        × (f.cmac ≡ none)
        × (f.crypto_info ≡ crypto)
        × Stored k c
            (register_fusion_output k c in_url crypto fresh r s).1
            (outputs k)
            (to_bytes k.show_uuid a)
            f
  unfolding register_fusion_output
  register_fusion_output-ok in_url crypto fresh r a h =
      let (u, id, (h1, e1)) = ok_user k c s _ _ _ h in
      let (x, many, (h2, e2)) = ok_require k c s _ _ _ _ h1 in
      let (f, made, (h3, e3)) = ok_or_else k c s _ _ _ _ h2 in
      let (m1, m2, m3) = fusion_data k c in_url crypto fresh (r.message).owner_list f made in
      let (q, p) = ends_pure-Stored k c (outputs k) _ _ s _ a _ h3 (e3 ∙ e2 ∙ e1) in
      (
        u,
        f,
        id,
        ground (arith, many),
        ground (arith, many),
        m1,
        m2,
        m3,
        Stored-at k c (outputs k) f _ a q p,
      )

  -- An output file becomes an input file only for one of its owners and only once it has a tag;
  -- the input file has the tag, the URL, the key, the owners and the UUID of the output file.
  pub register_input_from_output-ok :
      (r : Request RegisterInputFromOutputRequest) (a : ExternalId)
      → (register_input_from_output k c r s).0 ≡ ok a
      → (u : UserId) × (o : OutputFile) × (i : InputFile) × (HashMap.get r.metadata (utf8 "id")
          ≡ some u)
        × (Stored k c s (outputs k) (to_bytes k.show_uuid (r.message).data_id) o)
        × (Owners.contains o.owner u ≡ true)
        × (o.cmac ≡ some i.cmac)
        × (i.url ≡ o.url)
        × (i.crypto_info ≡ o.crypto_info)
        × (i.owner ≡ o.owner)
        × (i.uuid ≡ o.uuid)
        × Stored k c (register_input_from_output k c r s).1 (inputs k) (to_bytes k.show_uuid a) i
  unfolding register_input_from_output
  register_input_from_output-ok r a h =
      let (u, id, (h1, e1)) = ok_user k c s _ _ _ h in
      let (o, held, (h2, e2)) = ok_read k c s _ _ _ _ _ h1 in
      let (x, own, (h3, e3)) = ok_require k c s _ _ _ _ h2 in
      let (i, made, (h4, e4)) = ok_or_else k c s _ _ _ _ h3 in
      let (m1, m2, m3, m4, m5) = from_output_ok o i made in
      let (q, p) = ends_pure-Stored k c (inputs k) _ _ s _ a _ h4 (e4 ∙ e3 ∙ e2 ∙ e1) in
      (u, o, i, id, held, own, m1, m2, m3, m4, m5, Stored-at k c (inputs k) i _ a q p)

  -- The owners and the tag of an output file are given only to an owner, as they are stored.
  pub get_output_file-ok :
      (r : Request GetOutputFileRequest) (a : GetOutputFileResponse)
      → (get_output_file k c r s).0 ≡ ok a
      → (u : UserId) × (f : OutputFile) × (HashMap.get r.metadata (utf8 "id") ≡ some u)
        × (Stored k c s (outputs k) (to_bytes k.show_uuid (r.message).data_id) f)
        × (Owners.contains f.owner u ≡ true)
        × (a.owner ≡ f.owner)
        × (a.cmac ≡ f.cmac)
  unfolding get_output_file pure
  get_output_file-ok r a h =
      let (u, id, (h1, e1)) = ok_user k c s _ _ _ h in
      let (f, held, (h2, e2)) = ok_read k c s _ _ _ _ _ h1 in
      let (x, own, (h3, e3)) = ok_require k c s _ _ _ _ h2 in
      (u, f, id, held, own, ground (arith, h3), ground (arith, h3))

  -- The owners and the tag of an input file are given only to an owner, as they are stored.
  get_input_file-ok :
      (r : Request GetInputFileRequest) (a : GetInputFileResponse)
      → (get_input_file k c r s).0 ≡ ok a
      → (u : UserId) × (f : InputFile) × (HashMap.get r.metadata (utf8 "id") ≡ some u)
        × (Stored k c s (inputs k) (to_bytes k.show_uuid (r.message).data_id) f)
        × (Owners.contains f.owner u ≡ true)
        × (a.owner ≡ f.owner)
        × (a.cmac ≡ f.cmac)
  unfolding get_input_file pure
  get_input_file-ok r a h =
      let (u, id, (h1, e1)) = ok_user k c s _ _ _ h in
      let (f, held, (h2, e2)) = ok_read k c s _ _ _ _ _ h1 in
      let (x, own, (h3, e3)) = ok_require k c s _ _ _ _ h2 in
      (u, f, id, held, own, ground (arith, h3), ground (arith, h3))

  -- A function is given out only if it is public or the user who asks owns it.
  pub get_function-ok :
      (r : Request GetFunctionRequest) (a : GetFunctionResponse)
      → (get_function k c r s).0 ≡ ok a
      → (u : UserId) × (f : Function) × (HashMap.get r.metadata (utf8 "id") ≡ some u)
        × (Stored k c s (functions k) (to_bytes k.show_uuid (r.message).function_id) f)
        × ((f.public || f.owner == u) ≡ true)
        × (a.payload ≡ f.payload)
  unfolding get_function pure
  get_function-ok r a h =
      let (u, id, (h1, e1)) = ok_user k c s _ _ _ h in
      let (f, held, (h2, e2)) = ok_read k c s _ _ _ _ _ h1 in
      let (x, own, (h3, e3)) = ok_require k c s _ _ _ _ h2 in
      (u, f, id, held, own, ground (arith, h3))
