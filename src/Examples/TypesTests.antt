-- ===== src/Examples/TypesTests.antt =====
-- The data types at concrete inputs.
use incubator_mesatee.Base.{
  utf8, ◌≡◌, refl, [], ◌∷◌, ok, ◌==◌, ◌||◌, ◌&&◌, not, some, none, ◌⊎◌, true,
}
use incubator_mesatee.Base.HashMap
use incubator_mesatee.Base.HashSet
use incubator_mesatee.Examples.Runs.{output_o}
use incubator_mesatee.Examples.World.{alice, bob, tag, creation}
use incubator_mesatee.Types.Crypto.{
  FileCrypto, aes_gcm_128, raw, new, schema, key_iv, IsSized, new-schema-key_iv, new-IsSized,
  aes_gcm_128_new, aes_gcm_256_new, teaclave_file_128_new,
}
use incubator_mesatee.Types.File.{OutputFile, assign_cmac}
use incubator_mesatee.Types.Function.{Function}
use incubator_mesatee.Types.Owners
use incubator_mesatee.Types.Participants.{asked, create_participants}
use incubator_mesatee.Types.Tags.{update_cmac_lem}
use incubator_mesatee.Types.Task.{all_owners, update_cmac, TaskFiles}
use incubator_mesatee.Types.TaskState.{same_keys}
use incubator_mesatee.Types.Transition.{StateTag, create_new, gather, Task}
use incubator_mesatee.Types.Worker.{python}

abbrev secret : FileCrypto
secret = aes_gcm_128 (record { key = utf8 "0123456789abcdef"; iv = utf8 "0123456789ab" })

new-schema-key_iv_example : new (schema secret) (key_iv secret).0 (key_iv secret).1 ≡ ok secret
new-schema-key_iv_example = new-schema-key_iv secret (refl, refl)

new-secret : new (utf8 "aes-gcm-128") (utf8 "0123456789abcdef") (utf8 "0123456789ab") ≡ ok secret
unfolding new aes_gcm_128_new aes_gcm_256_new teaclave_file_128_new ◌==◌
new-secret = refl

new-IsSized_example :
    IsSized secret
    × (schema secret ≡ utf8 "aes-gcm-128")
    × ((secret ≡ raw) ⊎ (key_iv secret ≡ (utf8 "0123456789abcdef", utf8 "0123456789ab")))
new-IsSized_example =
    new-IsSized (utf8 "aes-gcm-128") (utf8 "0123456789abcdef") (utf8 "0123456789ab") secret
      new-secret

abbrev one_file : TaskFiles OutputFile
one_file = (utf8 "o", output_o) ∷ []

abbrev tagged : OutputFile
tagged = record output_o { cmac = some tag }

update_cmac-tagged : update_cmac one_file (utf8 "o") tag ≡ ok (tagged, (utf8 "o", tagged) ∷ [])
unfolding update_cmac HashMap.get HashMap.modify assign_cmac ◌==◌
update_cmac-tagged = refl

update_cmac_lem_example :
    (f : OutputFile) × (HashMap.get one_file (utf8 "o") ≡ some f)
    × (f.cmac ≡ none)
    × (tagged ≡ record f { cmac = some tag })
    × ((utf8 "o", tagged) ∷ [] ≡ HashMap.modify one_file (utf8 "o") tagged)
update_cmac_lem_example =
    update_cmac_lem one_file ((utf8 "o", tagged) ∷ []) (utf8 "o") tag tagged update_cmac-tagged

abbrev public_f : Function
public_f = record {
  id = 1;
  name = utf8 "f";
  description = [];
  public = true;
  executor_type = python;
  payload = [];
  arguments = utf8 "n" ∷ [];
  inputs = record { name = utf8 "a"; description = [] } ∷ [];
  outputs = record { name = utf8 "o"; description = [] } ∷ [];
  owner = alice;
}

abbrev IsCreated : Task StateTag.create → Type 0
IsCreated t =
    create_new 4 alice creation.executor creation.function_arguments creation.inputs_ownership
      creation.outputs_ownership public_f
    ≡ ok t

abbrev created_task : (t : Task StateTag.create) × IsCreated t
unfolding create_new gather same_keys HashSet.eq HashSet.collect HashSet.all_in HashSet.contains
    HashSet.insert all_owners Owners.unions Owners.union Owners.insert ◌==◌
created_task = (_, refl)

create_participants_example : Owners.contains created_task.0.state.participants bob ≡ (
    (alice == bob || (not public_f.public && public_f.owner == bob))
    || (asked creation.inputs_ownership bob || asked creation.outputs_ownership bob))
create_participants_example =
    create_participants 4 alice creation.executor creation.function_arguments
      creation.inputs_ownership creation.outputs_ownership public_f created_task.0 created_task.1
      bob
