-- ===== src/Examples/Formats.antt =====
-- The values that the services store, in the code of `Examples.Codec`.
use incubator_mesatee.Base.{
  Text, ◌≡◌, refl, List, [], ◌∷◌, ℕ, zero, suc, Bool, true, false, Option, none, some,
}
use incubator_mesatee.Base.HashMap.{HashMap}
use incubator_mesatee.Examples.Codec.{Codec, nat, both, via, list, text}
use incubator_mesatee.Types.Crypto.{
  FileAuthTag, FileCrypto, aes_gcm_128, aes_gcm_256, teaclave_file_128, raw,
}
use incubator_mesatee.Types.File.{InputFile, OutputFile}
use incubator_mesatee.Types.Owners.{OwnerList}
use incubator_mesatee.Types.Storage.{ExternalId}
use incubator_mesatee.Types.Task.{
  TaskStatus, created, data_assigned, approved, staged, running, finished,
}
use incubator_mesatee.Types.Worker.{ExecutorType, Executor, python, mesapy}

abbrev pub bool_to : Bool → ℕ
bool_to true = 0
bool_to false = 1

abbrev pub bool_from : ℕ → Option Bool
bool_from zero = some true
bool_from (suc zero) = some false
bool_from _ = none

pub bool_from_to : (x : Bool) → bool_from (bool_to x) ≡ some x
bool_from_to true = refl
bool_from_to false = refl

abbrev pub bool : Codec Bool
bool = via nat bool_to bool_from bool_from_to

abbrev pub status_to : TaskStatus → ℕ
status_to created = 0
status_to data_assigned = 1
status_to approved = 2
status_to staged = 3
status_to running = 4
status_to finished = 5

abbrev pub status_from : ℕ → Option TaskStatus
status_from zero = some created
status_from (suc zero) = some data_assigned
status_from (suc (suc zero)) = some approved
status_from (suc (suc (suc zero))) = some staged
status_from (suc (suc (suc (suc zero)))) = some running
status_from (suc (suc (suc (suc (suc zero))))) = some finished
status_from _ = none

pub status_from_to : (x : TaskStatus) → status_from (status_to x) ≡ some x
status_from_to created = refl
status_from_to data_assigned = refl
status_from_to approved = refl
status_from_to staged = refl
status_from_to running = refl
status_from_to finished = refl

abbrev pub status : Codec TaskStatus
status = via nat status_to status_from status_from_to

abbrev pub executor_type_to : ExecutorType → ℕ
executor_type_to ExecutorType.builtin = 0
executor_type_to python = 1

abbrev pub executor_type_from : ℕ → Option ExecutorType
executor_type_from zero = some ExecutorType.builtin
executor_type_from (suc zero) = some python
executor_type_from _ = none

pub executor_type_from_to : (x : ExecutorType) → executor_type_from (executor_type_to x) ≡ some x
executor_type_from_to ExecutorType.builtin = refl
executor_type_from_to python = refl

abbrev pub executor_type : Codec ExecutorType
executor_type = via nat executor_type_to executor_type_from executor_type_from_to

abbrev pub executor_to : Executor → ℕ
executor_to mesapy = 0
executor_to Executor.builtin = 1

abbrev pub executor_from : ℕ → Option Executor
executor_from zero = some mesapy
executor_from (suc zero) = some Executor.builtin
executor_from _ = none

pub executor_from_to : (x : Executor) → executor_from (executor_to x) ≡ some x
executor_from_to mesapy = refl
executor_from_to Executor.builtin = refl

abbrev pub executor : Codec Executor
executor = via nat executor_to executor_from executor_from_to

module _ {V : Type 0} (v : Codec V) where
  abbrev pub entry : Codec (Text × V)
  entry = both text v

  abbrev pub map : Codec (HashMap V)
  map = list entry

  abbrev pub option_to : Option V → List V
  option_to none = []
  option_to (some x) = x ∷ []

  abbrev pub option_from : List V → Option (Option V)
  option_from [] = some none
  option_from (x ∷ _) = some (some x)

  pub option_from_to : (x : Option V) → option_from (option_to x) ≡ some x
  option_from_to none = refl
  option_from_to (some x) = refl

  abbrev pub option : Codec (Option V)
  option = via (list v) option_to option_from option_from_to

abbrev pub tag : Codec FileAuthTag
tag = via text (λ r. r.tag) (λ p. some (record { tag = p })) (λ r. refl)

abbrev pub owners : Codec OwnerList
owners = via ((list text)) (λ r. r.uids) (λ p. some (record { uids = p })) (λ r. refl)

abbrev pub crypto_to : FileCrypto → ℕ × (Text × Text)
crypto_to (aes_gcm_128 k) = (0, (k.key, k.iv))
crypto_to (aes_gcm_256 k) = (1, (k.key, k.iv))
crypto_to (teaclave_file_128 k) = (2, (k.key, []))
crypto_to raw = (3, ([], []))

abbrev pub crypto_from : ℕ × (Text × Text) → Option FileCrypto
crypto_from (zero, (k, iv)) = some (aes_gcm_128 (record { key = k; iv = iv }))
crypto_from (suc zero, (k, iv)) = some (aes_gcm_256 (record { key = k; iv = iv }))
crypto_from (suc (suc zero), (k, iv)) = some (teaclave_file_128 (record { key = k }))
crypto_from (suc (suc (suc zero)), p) = some raw
crypto_from _ = none

pub crypto_from_to : (x : FileCrypto) → crypto_from (crypto_to x) ≡ some x
crypto_from_to (aes_gcm_128 k) = refl
crypto_from_to (aes_gcm_256 k) = refl
crypto_from_to (teaclave_file_128 k) = refl
crypto_from_to raw = refl

abbrev pub crypto : Codec FileCrypto
crypto = via (both nat (both text text)) crypto_to crypto_from crypto_from_to

abbrev pub external : Codec ExternalId
external =
    via (both text nat) (λ r. (r.prefix, r.uuid)) (λ p. some (record { prefix = p.0; uuid = p.1 }))
      (λ r. refl)

abbrev pub input_file : Codec InputFile
input_file =
    via (both text (both tag (both crypto (both owners nat))))
      (λ r. (r.url, (r.cmac, (r.crypto_info, (r.owner, r.uuid)))))
      (λ p. some (record {
        url = p.0;
        cmac = p.1.0;
        crypto_info = p.1.1.0;
        owner = p.1.1.1.0;
        uuid = p.1.1.1.1;
      }))
      (λ r. refl)

abbrev pub output_file : Codec OutputFile
output_file =
    via (both text (both (option tag) (both crypto (both owners nat))))
      (λ r. (r.url, (r.cmac, (r.crypto_info, (r.owner, r.uuid)))))
      (λ p. some (record {
        url = p.0;
        cmac = p.1.0;
        crypto_info = p.1.1.0;
        owner = p.1.1.1.0;
        uuid = p.1.1.1.1;
      }))
      (λ r. refl)
