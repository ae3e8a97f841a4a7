-- ===== src/Types/Storage.antt =====
-- `ExternalID` (types/src/task.rs) and the trait `Storable` (types/src/storage.rs). The crates
-- `uuid` and `serde_json` are not part of the repository: a `Uuid` is its 128-bit value, and what
-- prints it, or reads and writes JSON, is a parameter.
use incubator_mesatee.Base.{Text, starts_with, ◌≡◌, Bool, ◌∷◌, ◌++◌, ℕ, Result, ok}

abbrev pub Uuid : Type 0
Uuid = ℕ

pub record ExternalId : Type 0 where
  pub prefix : Text
  pub uuid : Uuid

-- What the program takes from `serde_json` for one type: what was written is read back.
pub record Json (A : Type 0) : Type 0 where
  pub to_vec : A → Result Text Text
  pub from_slice : Text → Result Text A
  pub from_slice-to_vec : (a : A) {b : Text} → to_vec a ≡ ok b → from_slice b ≡ ok a

pub record Storable (A : Type 0) : Type 0 where
  pub key_prefix : Text
  pub uuid : A → Uuid
  pub json : Json A

-- `ToString for ExternalID`, and `to_bytes`
unfoldable pub to_bytes : (Uuid → Text) → ExternalId → Text
to_bytes show_uuid e = e.prefix ++ (b'-' ∷ show_uuid e.uuid)

module _ {A : Type 0} (st : Storable A) where
  unfoldable pub match_prefix : Text → Bool
  match_prefix key = starts_with key st.key_prefix

  unfoldable pub external_id : A → ExternalId
  external_id a = record { prefix = st.key_prefix; uuid = st.uuid a }

  -- `key_string` and `key`
  unfoldable pub storage_key : (Uuid → Text) → A → Text
  unfolding external_id to_bytes
  storage_key show_uuid a = to_bytes show_uuid (external_id a)
