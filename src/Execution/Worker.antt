-- ===== src/Execution/Worker.antt =====
-- worker/src/worker.rs, the executors of executor/src/builtin.rs and mesapy.rs, and what they run
-- (`StagedFunction` of types/src/staged_function.rs). The machine-learning functions, the MesaPy
-- interpreter and the JSON of the arguments are parameters.
use incubator_mesatee.Base.{
  Text, utf8, ◌==◌, Bool, false, ◌&&◌, ◌||◌, ℕ, ◌^◌, ◌-◌, List, [], ◌∷◌, ◌++◌, Option, none, some,
  Result, ok, err, Action, raise, lift, ◌>>=◌, if◌then◌else◌, eqb,
}
use incubator_mesatee.Base.Bytes.{truncate}
use incubator_mesatee.Base.HashMap.{HashMap, get, insert}
use incubator_mesatee.Base.Str.{is_utf8}
use incubator_mesatee.Execution.Platform.{Platform}
use incubator_mesatee.Execution.StagedFile.{StagedFiles, default_runtime}
use incubator_mesatee.Functions.Intersect.{OrderedSetIntersectArguments, ordered_set_intersect}
use incubator_mesatee.Functions.Join.{PrivateJoinAndComputeArguments, private_join_and_compute}
use incubator_mesatee.Functions.Small
use incubator_mesatee.Functions.Small.{
  EchoArguments, OnlineDecryptArguments, RsaSignArguments, echo, password_check, online_decrypt,
  rsa_sign,
}
use incubator_mesatee.Types.Aead.{Aead}
use incubator_mesatee.Types.Function.{FunctionArguments}
use incubator_mesatee.Types.Runtime.{Failure, error, panic, Runtime}
use incubator_mesatee.Types.Worker.{
  ExecutorType, builtin, python, Executor, mesapy, executor_type_display, executor_display,
}

pub record StagedFunction : Type 0 where
  pub name : Text
  pub arguments : FunctionArguments
  pub payload : Text
  pub input_files : StagedFiles
  pub output_files : StagedFiles
  pub executor_type : ExecutorType
  pub executor : Executor
  pub runtime_name : Text

-- a function on a runtime
abbrev pub Run : Type 1
Run = (r : Runtime) → FunctionArguments → Action r.State Failure Text

-- What the executors call and this development does not define.
pub record Library : Type 1 where
  pub aead : Aead
  pub crates : Small.Crates
  pub hex_decode : Text → Result Text Text
  pub echo_arguments : FunctionArguments → Result Failure EchoArguments
  pub decrypt_arguments : FunctionArguments → Result Failure OnlineDecryptArguments
  pub rsa_arguments : FunctionArguments → Result Failure RsaSignArguments
  pub join_arguments : FunctionArguments → Result Failure PrivateJoinAndComputeArguments
  pub intersect_arguments : FunctionArguments → Result Failure OrderedSetIntersectArguments
  pub gbdt_predict : Run
  pub gbdt_train : Run
  pub logistic_regression_predict : Run
  pub logistic_regression_train : Run
  pub principal_components_analysis : Run
  pub face_detection : Run
  -- the text of an argument that is a JSON string, and `to_string` of any other
  pub argument_text : Text → Text
  -- the 64 bits that are returned and the buffer of the length given, on the script and the
  -- arguments; the interpreter reads and writes files by the runtime
  pub mesapy_exec : (r : Runtime) → Text → List Text → ℕ → r.State → (ℕ × Text) × r.State

-- `BuiltinFunctionExecutor::execute`, built with all of its features
unfoldable pub execute_builtin :
    Library → (r : Runtime) → Text → FunctionArguments → Action r.State Failure Text
execute_builtin l r name arguments =
    if name == utf8 "builtin-echo"
    then lift (echo l.echo_arguments arguments)
    else if name == utf8 "builtin-gbdt-predict"
    then l.gbdt_predict r arguments
    else if name == utf8 "builtin-gbdt-train"
    then l.gbdt_train r arguments
    else if name == utf8 "builtin-logistic-regression-train"
    then l.logistic_regression_train r arguments
    else if name == utf8 "builtin-logistic-regression-predict"
    then l.logistic_regression_predict r arguments
    else if name == utf8 "builtin_online_decrypt"
    then lift (online_decrypt l.aead l.crates l.decrypt_arguments arguments)
    else if name == utf8 "builtin-private-join-and-compute"
    then private_join_and_compute r l.join_arguments arguments
    else if name == utf8 "builtin-ordered-set-intersect"
    then ordered_set_intersect r l.hex_decode l.intersect_arguments arguments
    else if name == utf8 "builtin-rsa-sign"
    then rsa_sign l.aead l.crates r l.rsa_arguments arguments
    else if name == utf8 "builtin_principal_components_analysis"
    then l.principal_components_analysis r arguments
    else if name == utf8 "builtin-face-detection"
    then l.face_detection r arguments
    else if name == utf8 "builtin-password-check"
    then password_check r
    else raise (error (utf8 "Function not found."))

-- `FunctionArguments::into_vec`
unfoldable pub into_vec : Library → HashMap Text → List Text
into_vec l [] = []
into_vec l ((k, v) ∷ inner) = k ∷ l.argument_text v ∷ into_vec l inner

abbrev has_nul : Text → Bool
has_nul [] = false
has_nul (c ∷ s) = eqb c 0 || has_nul s

-- `CString::new(arg).unwrap()` on every argument
unfoldable pub c_strings : List Text → Result Failure (List Text)
c_strings [] = ok []
c_strings (arg ∷ args) =
    if has_nul arg
    then err panic
    else elim (c_strings args) [ ok rest ↦ ok (arg ∷ rest) | err e ↦ err e ]

-- `MAXPYBUFLEN`
abbrev max_py_buf_len : ℕ
max_py_buf_len = 20_480

-- the `match` on what `mesapy_exec` returns, a signed integer of 64 bits
unfoldable pub mesapy_answer : ℕ → Text → Result Failure Text
mesapy_answer result py_result =
    if eqb result (2 ^ 64 - 1)
    then ok (utf8 "MESAPY_ERROR_BUFFER_TOO_SHORT")
    else if eqb result (2 ^ 64 - 2)
    then ok (utf8 "MESAPY_EXEC_ERROR")
    else if is_utf8 (truncate result py_result)
    then ok (truncate result py_result)
    else err (error (utf8 "invalid utf-8 sequence"))

-- `MesaPy::execute`. The context of the thread is set before the call and reset after it.
unfoldable pub execute_mesapy :
    Library → (r : Runtime) → FunctionArguments → Text → Action r.State Failure Text
execute_mesapy l r arguments payload = do
  argv ← lift (c_strings (into_vec l arguments.inner))
  (result, py_result) ← λ s.
      (let (answer, s') = l.mesapy_exec r (payload ++ (0 ∷ [])) argv max_py_buf_len s in
        (ok answer, s'))
  lift (mesapy_answer result py_result)

-- the closures that `Worker::default` registers
pub data RuntimeBuilder : Type 0 where
  default_builder : RuntimeBuilder

pub data ExecutorBuilder : Type 0 where
  mesapy_builder builtin_builder : ExecutorBuilder

pub record Worker : Type 0 where
  pub runtimes : HashMap RuntimeBuilder
  pub executors : List ((ExecutorType × Executor) × ExecutorBuilder)

abbrev same_id : ExecutorType × Executor → ExecutorType × Executor → Bool
same_id a b =
    executor_type_display a.0 == executor_type_display b.0
    && executor_display a.1 == executor_display b.1

unfoldable pub find_executor :
    List ((ExecutorType × Executor) × ExecutorBuilder)
    → ExecutorType × Executor
    → Option ExecutorBuilder
find_executor [] identifier = none
find_executor ((key, builder) ∷ rest) identifier =
    if same_id key identifier then some builder else find_executor rest identifier

unfoldable pub register_runtime : Worker → Text → RuntimeBuilder → Worker
register_runtime w name builder = record {
  runtimes = insert w.runtimes name builder;
  executors = w.executors;
}

-- the keys that are registered are all different
unfoldable pub register_executor : Worker → ExecutorType × Executor → ExecutorBuilder → Worker
register_executor w key builder = record {
  runtimes = w.runtimes;
  executors = (key, builder) ∷ w.executors;
}

-- `Worker::new` and `Worker::default`, outside the test mode
unfoldable pub new_worker : Worker
new_worker = record { runtimes = []; executors = [] }

unfoldable pub default_worker : Worker
default_worker =
    let w = register_runtime new_worker (utf8 "default") default_builder in
    let w1 = register_executor w (python, mesapy) mesapy_builder in
    register_executor w1 (builtin, Executor.builtin) builtin_builder

unfoldable pub get_executor : Worker → ExecutorType → Executor → Result Failure ExecutorBuilder
get_executor w exec_type exec_name = elim (find_executor w.executors (exec_type, exec_name)) [
  | none ↦ err (error (utf8 "function not available"))
  | some build_executor ↦ ok build_executor
]

unfoldable pub get_runtime : Worker → Text → Result Failure RuntimeBuilder
get_runtime w name = elim (get w.runtimes name) [
  | none ↦ err (error (utf8 "Runtime " ++ (name ++ utf8 " not available.")))
  | some build_runtime ↦ ok build_runtime
]

module _ (l : Library) (p : Platform) where
  -- `executor.execute`
  unfoldable pub execute :
      ExecutorBuilder
      → StagedFiles
      → StagedFiles
      → Text
      → FunctionArguments
      → Text
      → Action p.Machine Failure Text
  execute mesapy_builder input_files output_files name arguments payload =
      execute_mesapy l (default_runtime p input_files output_files) arguments payload
  execute builtin_builder input_files output_files name arguments payload =
      execute_builtin l (default_runtime p input_files output_files) name arguments

  unfoldable pub invoke_function : Worker → StagedFunction → Action p.Machine Failure Text
  invoke_function w function = do
    executor ← lift (get_executor w function.executor_type function.executor)
    runtime ← lift (get_runtime w function.runtime_name)
    execute executor function.input_files function.output_files function.name function.arguments
        function.payload
