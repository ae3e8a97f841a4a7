-- ===== src/System/Added.antt =====
-- What the two loops of `assign_data` (services/management/enclave/src/service.rs) put into a task.
use incubator_mesatee.Base.{
  Text, ==_iff, ◌≡◌, refl, ◌∙◌, true, none, some, ok, [], ◌∷◌, arith, pure, Action, text_cases, inl,
  inr, Option-cases, subst,
}
use incubator_mesatee.Base.HashMap
use incubator_mesatee.Base.HashMap.{HashMap, get-insert}
use incubator_mesatee.Base.Reads.{Reads}
use incubator_mesatee.Management.Db.{Crates, inputs, outputs}
use incubator_mesatee.Management.Tasks.{assign_inputs, assign_outputs}
use incubator_mesatee.Storage.Client.{StorageClient}
use incubator_mesatee.System.Answers.{Stored, ok_read, ok_or_else}
use incubator_mesatee.Types.File.{InputFile, OutputFile}
use incubator_mesatee.Types.Owners
use incubator_mesatee.Types.Owners.{UserId, OwnerList}
use incubator_mesatee.Types.Storage.{ExternalId, Storable, to_bytes}
use incubator_mesatee.Types.Task.{assign as assign_file}
use incubator_mesatee.Types.Transition.{StateTag, Task, assign_input, assign_output}

-- a read that also has what follows from its answer
pub Reads-also :
    {S E A : Type 0} {s : S} {m : Action S E A} {Q R : A → Type 0}
    → Reads s m Q
    → ((a : A) → (m s).0 ≡ ok a → R a)
    → Reads s m (λ a. Q a × R a)
Reads-also r g = record { kept = r.kept; found = λ a h. (r.found a h, g a h) }

accepted_input :
    (t t' : Task StateTag.assign) (u : UserId) (n : Text) (f : InputFile)
    → assign_input t u n f ≡ ok t'
    → (Owners.contains f.owner u ≡ true)
      × (HashMap.get t.state.assigned_inputs n ≡ none)
      × (t'.state.assigned_inputs ≡ HashMap.insert t.state.assigned_inputs n f)
      × (t'.state.assigned_outputs ≡ t.state.assigned_outputs)
unfolding assign_input assign_file
accepted_input t t' u n f h = ground (arith, h)

accepted_output :
    (t t' : Task StateTag.assign) (u : UserId) (n : Text) (f : OutputFile)
    → assign_output t u n f ≡ ok t'
    → (Owners.contains f.owner u ≡ true)
      × (HashMap.get t.state.assigned_outputs n ≡ none)
      × (t'.state.assigned_outputs ≡ HashMap.insert t.state.assigned_outputs n f)
      × (t'.state.assigned_inputs ≡ t.state.assigned_inputs)
unfolding assign_output assign_file
accepted_output t t' u n f h = ground (arith, h)

module _ (k : Crates) (c : StorageClient) (s : c.Store) (u : UserId) where
  -- Under each name asked for, where there was no file, is now the file that the store holds under
  -- the ID asked for, and `u` is one of its owners. Under every other name is what was there.
  pub record Added {A : Type 0} (st : Storable A) (owner : A → OwnerList) (m : HashMap ExternalId)
      (old new : HashMap A) : Type 0 where
    pub asked :
        (n : Text) (e : ExternalId)
        → HashMap.get m n ≡ some e
        → (f : A) × Stored k c s st (to_bytes k.show_uuid e) f
          × (Owners.contains (owner f) u ≡ true)
          × (HashMap.get old n ≡ none)
          × (HashMap.get new n ≡ some f)
    pub others : (n : Text) → HashMap.get m n ≡ none → HashMap.get new n ≡ HashMap.get old n

  module _ {A : Type 0} (st : Storable A) (owner : A → OwnerList) where
    Added-none : (old : HashMap A) → Added st owner [] old old
    unfolding HashMap.get
    Added-none old = record { asked = λ n e h. absurd (ground (arith, h)); others = λ n h. refl }

    -- what is put under a name is not replaced by what follows
    put_first :
        (n : Text) (m : HashMap ExternalId) (f : A) (old new : HashMap A)
        → Added st owner m (HashMap.insert old n f) new
        → HashMap.get new n ≡ some f
    put_first n m f old new rest =
        let put : HashMap.get (HashMap.insert old n f) n ≡ some f =
          ground (arith, get-insert old n f n, ==_iff n n) in
        elim (Option-cases (HashMap.get m n)) [
          | inl g ↦ rest.others n g ∙ put
          | inr (x, g) ↦
              let (a, there, mine, gone, again) = rest.asked n x g in
              absurd (ground (arith, gone, put))
        ]

    Added-more :
        (n : Text) (e : ExternalId) (m : HashMap ExternalId) (f : A) (old new : HashMap A)
        → Stored k c s st (to_bytes k.show_uuid e) f
        → Owners.contains (owner f) u ≡ true
        → HashMap.get old n ≡ none
        → Added st owner m (HashMap.insert old n f) new
        → Added st owner ((n, e) ∷ m) old new
    unfolding HashMap.get
    Added-more n e m f old new held own free rest =
        let at = get-insert old n f in
        record {
          asked = λ j d h. elim (text_cases n j) [
            | inl q ↦
                let same : e ≡ d = ground (arith, h, q, ==_iff n j) in
                (
                  f,
                  subst (λ x. Stored k c s st (to_bytes k.show_uuid x) f) same held,
                  own,
                  subst (λ x. HashMap.get old x ≡ none) q free,
                  subst (λ x. HashMap.get new x ≡ some f) q (put_first n m f old new rest),
                )
            | inr ne ↦
                let (a, there, mine, gone, put) = rest.asked j d (ground (arith, h, ne)) in
                (a, there, mine, ground (arith, at j, gone, ne), put)
          ];
          others = λ j h. elim (text_cases n j) [
            | inl q ↦ absurd (ground (arith, h, q, ==_iff n j))
            | inr ne ↦ rest.others j (ground (arith, h, ne)) ∙ ground (arith, at j, ne)
          ];
        }

    pub Added-same :
        (m : HashMap ExternalId) {old old' new new' : HashMap A}
        → old ≡ old'
        → new ≡ new'
        → Added st owner m old new
        → Added st owner m old' new'
    Added-same m {old = old} {new' = new'} p q a =
        subst (λ x. Added st owner m x new') p (subst (λ x. Added st owner m old x) q a)

  pub assign_inputs-Added :
      (m : HashMap ExternalId) (t t' : Task StateTag.assign)
      → (assign_inputs k c u m t s).0 ≡ ok t'
      → Added (inputs k) (λ f. f.owner) m t.state.assigned_inputs t'.state.assigned_inputs
        × (t'.state.assigned_outputs ≡ t.state.assigned_outputs)
  unfolding assign_inputs pure
  assign_inputs-Added [] t t' h =
      let same : t ≡ t' = ground (arith, h) in
      subst
        (λ x.
          Added (inputs k) (λ f. f.owner) [] t.state.assigned_inputs x.state.assigned_inputs
          × (x.state.assigned_outputs ≡ t.state.assigned_outputs))
        same (Added-none (inputs k) (λ f. f.owner) _, refl)
  assign_inputs-Added ((n, e) ∷ m) t t' h =
      let (f, held, (h1, e1)) = ok_read k c s _ _ _ _ _ h in
      let (t1, q, (h2, e2)) = ok_or_else k c s _ _ _ _ h1 in
      let (own, free, added, kept) = accepted_input t t1 u n f q in
      let (rest, outs) = assign_inputs-Added m t1 t' h2 in
      (
        Added-more (inputs k) (λ f. f.owner) n e m f _ _ held own free
            (subst (λ x. Added (inputs k) (λ f. f.owner) m x t'.state.assigned_inputs) added rest),
        outs ∙ kept,
      )

  pub assign_outputs-Added :
      (m : HashMap ExternalId) (t t' : Task StateTag.assign)
      → (assign_outputs k c u m t s).0 ≡ ok t'
      → Added (outputs k) (λ f. f.owner) m t.state.assigned_outputs t'.state.assigned_outputs
        × (t'.state.assigned_inputs ≡ t.state.assigned_inputs)
  unfolding assign_outputs pure
  assign_outputs-Added [] t t' h =
      let same : t ≡ t' = ground (arith, h) in
      subst
        (λ x.
          Added (outputs k) (λ f. f.owner) [] t.state.assigned_outputs x.state.assigned_outputs
          × (x.state.assigned_inputs ≡ t.state.assigned_inputs))
        same (Added-none (outputs k) (λ f. f.owner) _, refl)
  assign_outputs-Added ((n, e) ∷ m) t t' h =
      let (f, held, (h1, e1)) = ok_read k c s _ _ _ _ _ h in
      let (t1, q, (h2, e2)) = ok_or_else k c s _ _ _ _ h1 in
      let (own, free, added, kept) = accepted_output t t1 u n f q in
      let (rest, ins) = assign_outputs-Added m t1 t' h2 in
      (
        Added-more (outputs k) (λ f. f.owner) n e m f _ _ held own free
            (subst (λ x. Added (outputs k) (λ f. f.owner) m x t'.state.assigned_outputs) added
              rest),
        ins ∙ kept,
      )
