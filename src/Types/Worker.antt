-- ===== src/Types/Worker.antt =====
-- `ExecutorType` and `Executor` of types/src/worker.rs, with the texts that select them.
use incubator_mesatee.Base.{Text, utf8, ◌==◌, ◌++◌, Result, ok, err, if◌then◌else◌}

pub data ExecutorType : Type 0 where
  builtin python : ExecutorType

-- `TryFrom<&str> for ExecutorType`
unfoldable pub executor_type_from : Text → Result Text ExecutorType
executor_type_from selector =
    if selector == utf8 "python"
    then ok python
    else if selector == utf8 "builtin"
    then ok builtin
    else err (utf8 "Invalid executor type: " ++ selector)

-- `Display for ExecutorType`
unfoldable pub executor_type_display : ExecutorType → Text
executor_type_display builtin = utf8 "builtin"
executor_type_display python = utf8 "python"

pub data Executor : Type 0 where
  mesapy builtin : Executor

-- `TryFrom<&str> for Executor`
unfoldable pub executor_from : Text → Result Text Executor
executor_from selector =
    if selector == utf8 "mesapy"
    then ok mesapy
    else if selector == utf8 "builtin"
    then ok Executor.builtin
    else err (utf8 "Unsupported executor: " ++ selector)

-- `Display for Executor`
unfoldable pub executor_display : Executor → Text
executor_display mesapy = utf8 "mesapy"
executor_display Executor.builtin = utf8 "builtin"
