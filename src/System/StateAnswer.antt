-- ===== src/System/StateAnswer.antt =====
-- What the answer of `get_task` (services/management/enclave/src/service.rs) tells of a task.
use mathlib.Core.Option
use incubator_mesatee.Base.{Text, utf8, ◌≡◌, refl, subst, [], ◌∷◌, arith}
use incubator_mesatee.Base.HashMap
use incubator_mesatee.Base.HashMap.{HashMap}
use incubator_mesatee.Management.Db.{Crates, inputs, outputs, tasks}
use incubator_mesatee.Management.Requests.{GetTaskResponse}
use incubator_mesatee.Types.Storage.{Storable, external_id}
use incubator_mesatee.Types.Task.{external_ids}
use incubator_mesatee.Types.TaskState.{TaskState}

-- The answer tells the state of the task, field by field, and the ID of each assigned file.
pub record IsAnswer (ts : TaskState) (a : GetTaskResponse) : Type 0 where
  pub task_id : a.task_id ≡ record { prefix = utf8 "task"; uuid = ts.task_id }
  pub creator : a.creator ≡ ts.creator
  pub function_id : a.function_id ≡ ts.function_id
  pub function_owner : a.function_owner ≡ ts.function_owner
  pub function_arguments : a.function_arguments ≡ ts.function_arguments
  pub inputs_ownership : a.inputs_ownership ≡ ts.inputs_ownership
  pub outputs_ownership : a.outputs_ownership ≡ ts.outputs_ownership
  pub participants : a.participants ≡ ts.participants
  pub approved_users : a.approved_users ≡ ts.approved_users
  pub assigned_inputs :
      (n : Text)
      → HashMap.get a.assigned_inputs n
        ≡ Option.map
            (λ f. record { prefix = utf8 "input"; uuid = f.uuid })
            (HashMap.get ts.assigned_inputs n)
  pub assigned_outputs :
      (n : Text)
      → HashMap.get a.assigned_outputs n
        ≡ Option.map
            (λ f. record { prefix = utf8 "output"; uuid = f.uuid })
            (HashMap.get ts.assigned_outputs n)
  pub result : a.result ≡ ts.result
  pub status : a.status ≡ ts.status

external_ids-get :
    {A : Type 0} (st : Storable A) (files : HashMap A) (n : Text)
    → HashMap.get (external_ids st files) n ≡ Option.map (external_id st) (HashMap.get files n)
unfolding external_ids HashMap.get
external_ids-get st [] n = refl
external_ids-get st ((j, f) ∷ files) n = ground (arith, external_ids-get st files n)

module _ (k : Crates) where
  abbrev answer : TaskState → GetTaskResponse
  answer ts = record {
    task_id = external_id (tasks k) ts;
    creator = ts.creator;
    function_id = ts.function_id;
    function_owner = ts.function_owner;
    function_arguments = ts.function_arguments;
    inputs_ownership = ts.inputs_ownership;
    outputs_ownership = ts.outputs_ownership;
    participants = ts.participants;
    approved_users = ts.approved_users;
    assigned_inputs = external_ids (inputs k) ts.assigned_inputs;
    assigned_outputs = external_ids (outputs k) ts.assigned_outputs;
    result = ts.result;
    status = ts.status;
  }

  pub answer-IsAnswer : (ts : TaskState) (a : GetTaskResponse) → answer ts ≡ a → IsAnswer ts a
  unfolding external_id
  answer-IsAnswer ts a h = subst (IsAnswer ts) h (record {
    task_id = refl;
    creator = refl;
    function_id = refl;
    function_owner = refl;
    function_arguments = refl;
    inputs_ownership = refl;
    outputs_ownership = refl;
    participants = refl;
    approved_users = refl;
    assigned_inputs = external_ids-get (inputs k) ts.assigned_inputs;
    assigned_outputs = external_ids-get (outputs k) ts.assigned_outputs;
    result = refl;
    status = refl;
  })
