-- ===== src/Types/Participants.antt =====
-- Who takes part in a new task (`Task::<Create>::new` of types/src/task_state.rs).
use incubator_mesatee.Base.{
  Text, ◌==◌, ==_refl, ◌≡◌, Bool, true, ◌||◌, ◌&&◌, not, some, ok, [], ◌∷◌, arith,
}
use incubator_mesatee.Base.HashMap.{get, values}
use incubator_mesatee.Base.HashSet
use incubator_mesatee.Types.Function.{Function, FunctionArguments}
use incubator_mesatee.Types.Owners
use incubator_mesatee.Types.Owners.{UserId, OwnerList, any_contains}
use incubator_mesatee.Types.Storage.{Uuid}
use incubator_mesatee.Types.Task.{TaskFileOwners, all_owners}
use incubator_mesatee.Types.Transition.{create, Task, gather, create_new}
use incubator_mesatee.Types.WellFormed.{IsConsistent, IsWellFormed}
use incubator_mesatee.Types.Worker.{Executor}
use incubator_mesatee.Types.Restore.{save_create}

-- one of the owner lists asked for contains the user
abbrev pub asked : TaskFileOwners → UserId → Bool
asked m u = any_contains (values m) u

contains-all_owners :
    (m : TaskFileOwners) (u : UserId) → Owners.contains (all_owners m) u ≡ asked m u
unfolding all_owners
contains-all_owners m u = Owners.contains-unions (values m) u

asked_of_get :
    (m : TaskFileOwners) (n : Text) (o : OwnerList) (u : UserId)
    → get m n ≡ some o
    → Owners.contains o u ≡ true
    → asked m u ≡ true
unfolding get any_contains
asked_of_get [] n o u e h = ground arith
asked_of_get ((k, p) ∷ m) n o u e h = ground (arith, asked_of_get m n o u)

contains-gather :
    (requester : UserId) (i o : TaskFileOwners) (f : Function) (u : UserId)
    → Owners.contains (gather requester i o f) u
      ≡ ((requester == u || (not f.public && f.owner == u)) || (asked i u || asked o u))
unfolding gather any_contains
contains-gather requester i o f u = ground (
  arith,
  Owners.contains-unions (all_owners i ∷ all_owners o ∷ []) u,
  contains-all_owners i u,
  contains-all_owners o u,
  Owners.contains-insert (Owners.unions (all_owners i ∷ all_owners o ∷ [])) requester u,
  Owners.contains-insert
      (Owners.insert (Owners.unions (all_owners i ∷ all_owners o ∷ [])) requester) f.owner u,
)

module _ (fresh : Uuid) (requester : UserId) (executor : Executor) (arguments : FunctionArguments)
    (i o : TaskFileOwners) (f : Function) (t : Task create)
    (made : create_new fresh requester executor arguments i o f ≡ ok t) where
  -- The participants of a new task are exactly its creator, the owner of the function if that is
  -- private, and the owners asked for any input or output.
  pub create_participants :
      (u : UserId)
      → Owners.contains t.state.participants u
        ≡ ((requester == u || (not f.public && f.owner == u)) || (asked i u || asked o u))
  unfolding create_new
  create_participants u = ground (arith, contains-gather requester i o f u)

  create-IsConsistent : IsConsistent (save_create t)
  unfolding create_new save_create get Owners.contains HashSet.contains
  create-IsConsistent = record {
    creator_in = ground (arith, contains-gather requester i o f requester, ==_refl requester);
    inputs_in =
        λ n p u e h. ground (arith, contains-gather requester i o f u, asked_of_get i n p u);
    outputs_in =
        λ n p u e h. ground (arith, contains-gather requester i o f u, asked_of_get o n p u);
    approved_in = λ u. ground arith;
    inputs_match = λ n g. ground arith;
    outputs_match = λ n g. ground arith;
  }

  -- A new task is well formed.
  pub create-IsWellFormed : IsWellFormed (save_create t)
  unfolding create_new save_create
  create-IsWellFormed = record {
    consistent = create-IsConsistent;
    data_ready = ground arith;
    approvals = ground arith;
    pending = ground arith;
  }
