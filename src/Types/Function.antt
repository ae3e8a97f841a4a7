-- ===== src/Types/Function.antt =====
-- types/src/function.rs, and `FunctionArguments` of types/src/staged_function.rs, whose JSON
-- values are kept as their text.
use incubator_mesatee.Base.{Text, utf8, Bool, List}
use incubator_mesatee.Base.HashMap.{HashMap}
use incubator_mesatee.Types.Owners.{UserId}
use incubator_mesatee.Types.Storage.{Uuid, Json, Storable}
use incubator_mesatee.Types.Worker.{ExecutorType}

pub record FunctionInput : Type 0 where
  pub name : Text
  pub description : Text

pub record FunctionOutput : Type 0 where
  pub name : Text
  pub description : Text

pub record Function : Type 0 where
  pub id : Uuid
  pub name : Text
  pub description : Text
  pub public : Bool
  pub executor_type : ExecutorType
  pub payload : Text
  pub arguments : List Text
  pub inputs : List FunctionInput
  pub outputs : List FunctionOutput
  pub owner : UserId

-- `impl Storable for Function`
abbrev pub function_storable : Json Function → Storable Function
function_storable json = record { key_prefix = utf8 "function"; uuid = λ f. f.id; json = json }

pub record FunctionArguments : Type 0 where
  pub inner : HashMap Text
