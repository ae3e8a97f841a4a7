-- ===== src/Examples/FileTests.antt =====
-- The requests on files and functions at concrete inputs.
use incubator_mesatee.Base.{utf8, ◌≡◌, [], ◌∷◌, true, some, none, ◌==◌, ◌||◌, ◌<◌}
use incubator_mesatee.Base.HashMap
use incubator_mesatee.Examples.Runs.{
  after, all_done, new_input, new_output, reuse_output, ask_output, joint_output, ask_function,
  function_response, answers,
}
use incubator_mesatee.Examples.World.{client, crates, registered, alice, tag, id_of}
use incubator_mesatee.Management.Db.{inputs, outputs, functions}
use incubator_mesatee.Management.Files.{
  update_input_file, update_output_file, register_input_from_output, register_fusion_output,
}
use incubator_mesatee.Management.Requests.{GetOutputFileResponse}
use incubator_mesatee.System.Answers.{Stored}
use incubator_mesatee.System.FileAnswers.{
  update_input_file-ok, update_output_file-ok, register_fusion_output-ok,
  register_input_from_output-ok, get_output_file-ok, get_function-ok,
}
use incubator_mesatee.Types.Crypto.{raw}
use incubator_mesatee.Types.File.{InputFile, OutputFile}
use incubator_mesatee.Types.Function.{Function}
use incubator_mesatee.Types.Owners
use incubator_mesatee.Types.Owners.{UserId}
use incubator_mesatee.Types.Storage.{to_bytes, external_id}

abbrev output_response : GetOutputFileResponse
output_response = record { owner = record { uids = alice ∷ [] }; cmac = some tag }

update_input_file-ok_example :
    (u : UserId) × (old new : InputFile) × (HashMap.get new_input.metadata (utf8 "id") ≡ some u)
    × (Stored crates client
        (after registered)
        (inputs crates)
        (to_bytes crates.show_uuid (new_input.message).data_id)
        old)
    × (Owners.eq old.owner (Owners.from_list (u ∷ [])) ≡ true)
    × (new.url ≡ (new_input.message).url)
    × (new.cmac ≡ old.cmac)
    × (new.crypto_info ≡ old.crypto_info)
    × (new.owner ≡ old.owner)
    × (new.uuid ≡ 7)
    × (external_id (inputs crates) new ≡ id_of (utf8 "input") 7)
    × Stored crates client
        (update_input_file crates client 7 new_input (after registered)).1
        (inputs crates)
        (to_bytes crates.show_uuid (id_of (utf8 "input") 7))
        new
update_input_file-ok_example =
    update_input_file-ok crates client (after registered) 7 new_input (id_of (utf8 "input") 7)
      answers.updates_input

update_output_file-ok_example :
    (u : UserId) × (old new : OutputFile) × (HashMap.get new_output.metadata (utf8 "id") ≡ some u)
    × (Stored crates client
        (after registered)
        (outputs crates)
        (to_bytes crates.show_uuid (new_output.message).data_id)
        old)
    × (Owners.eq old.owner (Owners.from_list (u ∷ [])) ≡ true)
    × (new.url ≡ (new_output.message).url)
    × (new.cmac ≡ none)
    × (new.crypto_info ≡ old.crypto_info)
    × (new.owner ≡ old.owner)
    × (new.uuid ≡ 7)
    × (external_id (outputs crates) new ≡ id_of (utf8 "output") 7)
    × Stored crates client
        (update_output_file crates client 7 new_output (after registered)).1
        (outputs crates)
        (to_bytes crates.show_uuid (id_of (utf8 "output") 7))
        new
update_output_file-ok_example =
    update_output_file-ok crates client (after registered) 7 new_output (id_of (utf8 "output") 7)
      answers.updates_output

register_fusion_output-ok_example :
    (u : UserId) × (f : OutputFile) × (HashMap.get joint_output.metadata (utf8 "id") ≡ some u)
    × (1 < Owners.length (joint_output.message).owner_list)
    × (Owners.contains (joint_output.message).owner_list u ≡ true)
    × (f.owner ≡ (joint_output.message).owner_list)
    × (f.cmac ≡ none)
    × (f.crypto_info ≡ raw)
    × Stored crates client
        (register_fusion_output crates client 8 raw 9 joint_output (after registered)).1
        (outputs crates)
        (to_bytes crates.show_uuid (id_of (utf8 "output") 9))
        f
register_fusion_output-ok_example =
    register_fusion_output-ok crates client (after registered) 8 raw 9 joint_output
      (id_of (utf8 "output") 9) answers.fuses

register_input_from_output-ok_example :
    (u : UserId) × (o : OutputFile) × (i : InputFile) × (HashMap.get reuse_output.metadata
        (utf8 "id")
      ≡ some u)
    × (Stored crates client
        (after all_done)
        (outputs crates)
        (to_bytes crates.show_uuid (reuse_output.message).data_id)
        o)
    × (Owners.contains o.owner u ≡ true)
    × (o.cmac ≡ some i.cmac)
    × (i.url ≡ o.url)
    × (i.crypto_info ≡ o.crypto_info)
    × (i.owner ≡ o.owner)
    × (i.uuid ≡ o.uuid)
    × Stored crates client
        (register_input_from_output crates client reuse_output (after all_done)).1
        (inputs crates)
        (to_bytes crates.show_uuid (id_of (utf8 "input") 3))
        i
register_input_from_output-ok_example =
    register_input_from_output-ok crates client (after all_done) reuse_output
      (id_of (utf8 "input") 3) answers.reuses

get_output_file-ok_example :
    (u : UserId) × (f : OutputFile) × (HashMap.get ask_output.metadata (utf8 "id") ≡ some u)
    × (Stored crates client
        (after all_done)
        (outputs crates)
        (to_bytes crates.show_uuid (ask_output.message).data_id)
        f)
    × (Owners.contains f.owner u ≡ true)
    × (output_response.owner ≡ f.owner)
    × (output_response.cmac ≡ f.cmac)
get_output_file-ok_example =
    get_output_file-ok crates client (after all_done) ask_output output_response answers.asks_output

get_function-ok_example :
    (u : UserId) × (f : Function) × (HashMap.get ask_function.metadata (utf8 "id") ≡ some u)
    × (Stored crates client
        (after registered)
        (functions crates)
        (to_bytes crates.show_uuid (ask_function.message).function_id)
        f)
    × ((f.public || f.owner == u) ≡ true)
    × (function_response.payload ≡ f.payload)
get_function-ok_example =
    get_function-ok crates client (after registered) ask_function function_response
      answers.asks_function
