-- ===== src/Examples/TaskFormats.antt =====
-- Functions and tasks in the code of `Examples.Codec`.
use incubator_mesatee.Base.{Text, ◌≡◌, refl, [], ℕ, zero, suc, Option, none, some}
use incubator_mesatee.Base.HashMap.{HashMap}
use incubator_mesatee.Examples.Codec.{Codec, nat, both, via, list, text}
use incubator_mesatee.Types.Crypto.{FileAuthTag}
use incubator_mesatee.Types.Function.{FunctionInput, FunctionOutput, Function, FunctionArguments}
use incubator_mesatee.Types.Staged.{FunctionInputFile, FunctionOutputFile, StagedTask}
use incubator_mesatee.Types.Task.{TaskResult, not_ready, done, failed}
use incubator_mesatee.Types.TaskState.{TaskState}
use incubator_mesatee.Examples.Formats.{
  bool, status, executor_type, executor, map, tag, owners, crypto, external, input_file,
  output_file,
}

abbrev pub function_input : Codec FunctionInput
function_input =
    via (both text text) (λ r. (r.name, r.description))
      (λ p. some (record { name = p.0; description = p.1 })) (λ r. refl)

abbrev pub function_output : Codec FunctionOutput
function_output =
    via (both text text) (λ r. (r.name, r.description))
      (λ p. some (record { name = p.0; description = p.1 })) (λ r. refl)

abbrev pub function : Codec Function
function =
    via
      (both nat (
        both text (
          both text (
            both bool (
              both executor_type (
                both text (
                  both (list text)
                    (both (list function_input) (both (list function_output) text)))))))))
      (λ r. (
        r.id,
        (
          r.name,
          (
            r.description,
            (
              r.public,
              (r.executor_type, (r.payload, (r.arguments, (r.inputs, (r.outputs, r.owner))))),
            ),
          ),
        ),
      ))
      (λ p. some (record {
        id = p.0;
        name = p.1.0;
        description = p.1.1.0;
        public = p.1.1.1.0;
        executor_type = p.1.1.1.1.0;
        payload = p.1.1.1.1.1.0;
        arguments = p.1.1.1.1.1.1.0;
        inputs = p.1.1.1.1.1.1.1.0;
        outputs = p.1.1.1.1.1.1.1.1.0;
        owner = p.1.1.1.1.1.1.1.1.1;
      }))
      (λ r. refl)

abbrev pub arguments : Codec FunctionArguments
arguments = via ((map text)) (λ r. r.inner) (λ p. some (record { inner = p })) (λ r. refl)

abbrev pub result_to : TaskResult → ℕ × (Text × HashMap FileAuthTag)
result_to not_ready = (0, ([], []))
result_to (done o) = (1, (o.return_value, o.tags_map))
result_to (failed f) = (2, (f.reason, []))

abbrev pub result_from : ℕ × (Text × HashMap FileAuthTag) → Option TaskResult
result_from (zero, p) = some not_ready
result_from (suc zero, (v, m)) = some (done (record { return_value = v; tags_map = m }))
result_from (suc (suc zero), (v, m)) = some (failed (record { reason = v }))
result_from _ = none

pub result_from_to : (x : TaskResult) → result_from (result_to x) ≡ some x
result_from_to not_ready = refl
result_from_to (done o) = refl
result_from_to (failed f) = refl

abbrev pub result : Codec TaskResult
result = via (both nat (both text (map tag))) result_to result_from result_from_to

abbrev pub task_state : Codec TaskState
task_state =
    via
      (both nat (
        both text (
          both external (
            both arguments (
              both executor (
                both (map owners) (
                  both (map owners) (
                    both text (
                      both owners (
                        both owners (
                          both (map input_file)
                            (both (map output_file) (both result status)))))))))))))
      (λ r. (
        r.task_id,
        (
          r.creator,
          (
            r.function_id,
            (
              r.function_arguments,
              (
                r.executor,
                (
                  r.inputs_ownership,
                  (
                    r.outputs_ownership,
                    (
                      r.function_owner,
                      (
                        r.participants,
                        (
                          r.approved_users,
                          (r.assigned_inputs, (r.assigned_outputs, (r.result, r.status))),
                        ),
                      ),
                    ),
                  ),
                ),
              ),
            ),
          ),
        ),
      ))
      (λ p. some (record {
        task_id = p.0;
        creator = p.1.0;
        function_id = p.1.1.0;
        function_arguments = p.1.1.1.0;
        executor = p.1.1.1.1.0;
        inputs_ownership = p.1.1.1.1.1.0;
        outputs_ownership = p.1.1.1.1.1.1.0;
        function_owner = p.1.1.1.1.1.1.1.0;
        participants = p.1.1.1.1.1.1.1.1.0;
        approved_users = p.1.1.1.1.1.1.1.1.1.0;
        assigned_inputs = p.1.1.1.1.1.1.1.1.1.1.0;
        assigned_outputs = p.1.1.1.1.1.1.1.1.1.1.1.0;
        result = p.1.1.1.1.1.1.1.1.1.1.1.1.0;
        status = p.1.1.1.1.1.1.1.1.1.1.1.1.1;
      }))
      (λ r. refl)

abbrev pub function_input_file : Codec FunctionInputFile
function_input_file =
    via (both text (both tag crypto)) (λ r. (r.url, (r.cmac, r.crypto_info)))
      (λ p. some (record { url = p.0; cmac = p.1.0; crypto_info = p.1.1 })) (λ r. refl)

abbrev pub function_output_file : Codec FunctionOutputFile
function_output_file =
    via (both text crypto) (λ r. (r.url, r.crypto_info))
      (λ p. some (record { url = p.0; crypto_info = p.1 })) (λ r. refl)

abbrev pub staged_task : Codec StagedTask
staged_task =
    via
      (both nat (
        both nat (
          both executor (
            both executor_type (
              both text (
                both arguments
                  (both text (both (map function_input_file) (map function_output_file)))))))))
      (λ r. (
        r.task_id,
        (
          r.function_id,
          (
            r.executor,
            (
              r.executor_type,
              (
                r.function_name,
                (r.function_arguments, (r.function_payload, (r.input_data, r.output_data))),
              ),
            ),
          ),
        ),
      ))
      (λ p. some (record {
        task_id = p.0;
        function_id = p.1.0;
        executor = p.1.1.0;
        executor_type = p.1.1.1.0;
        function_name = p.1.1.1.1.0;
        function_arguments = p.1.1.1.1.1.0;
        function_payload = p.1.1.1.1.1.1.0;
        input_data = p.1.1.1.1.1.1.1.0;
        output_data = p.1.1.1.1.1.1.1.1;
      }))
      (λ r. refl)
