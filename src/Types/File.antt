-- ===== src/Types/File.antt =====
-- types/src/file.rs. A `Url` of the crate `url` is its text. `Uuid::new_v4()` is an argument.
use incubator_mesatee.Base.{Text, utf8, Option, none, some, Result, ok, err, is_some, if◌then◌else◌}
use incubator_mesatee.Types.Crypto.{FileAuthTag, FileCrypto}
use incubator_mesatee.Types.Owners.{OwnerList}
use incubator_mesatee.Types.Storage.{Uuid, Json, Storable}

abbrev pub Url : Type 0
Url = Text

pub record InputFile : Type 0 where
  pub url : Url
  pub cmac : FileAuthTag
  pub crypto_info : FileCrypto
  pub owner : OwnerList
  pub uuid : Uuid

pub record OutputFile : Type 0 where
  pub url : Url
  pub cmac : Option FileAuthTag
  pub crypto_info : FileCrypto
  pub owner : OwnerList
  pub uuid : Uuid

-- `TeaclaveInputFile::new`
unfoldable pub input_new : Uuid → Url → FileAuthTag → FileCrypto → OwnerList → InputFile
input_new fresh url cmac crypto_info owner = record {
  url = url;
  cmac = cmac;
  crypto_info = crypto_info;
  owner = owner;
  uuid = fresh;
}

-- `TeaclaveInputFile::from_output`
unfoldable pub from_output : OutputFile → Result Text InputFile
from_output output = elim (output.cmac) [
  | none ↦ err (utf8 "output is not finished")
  | some cmac ↦ ok (record {
    url = output.url;
    cmac = cmac;
    crypto_info = output.crypto_info;
    owner = output.owner;
    uuid = output.uuid;
  })
]

-- `TeaclaveOutputFile::new`
unfoldable pub output_new : Uuid → Url → FileCrypto → OwnerList → OutputFile
output_new fresh url crypto_info owner = record {
  url = url;
  cmac = none;
  crypto_info = crypto_info;
  owner = owner;
  uuid = fresh;
}

-- `TeaclaveOutputFile::assign_cmac`
unfoldable pub assign_cmac : OutputFile → FileAuthTag → Result Text OutputFile
assign_cmac file cmac =
    if is_some file.cmac
    then err (utf8 "Cannot overwrite output file cmac")
    else ok (record file { cmac = some cmac })

-- `impl Storable for TeaclaveInputFile`
abbrev pub input_storable : Json InputFile → Storable InputFile
input_storable json = record { key_prefix = utf8 "input"; uuid = λ f. f.uuid; json = json }

-- `impl Storable for TeaclaveOutputFile`
abbrev pub output_storable : Json OutputFile → Storable OutputFile
output_storable json = record { key_prefix = utf8 "output"; uuid = λ f. f.uuid; json = json }
