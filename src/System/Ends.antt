-- ===== src/System/Ends.antt =====
-- What a call does to the stored tasks and what it finds, when it also writes on its way.
use incubator_mesatee.Base.{
  Text, ◌≡◌, ok, sym, subst, pure, ◌>>=◌, map_err, Action, Result-cases, inl, inr,
}
use incubator_mesatee.Base.Reads.{Reads, Reads-map_err}
use incubator_mesatee.Management.Db.{Crates}
use incubator_mesatee.Storage.Client.{StorageClient}
use incubator_mesatee.System.Step.{Steps, Steps-trans, here}
use incubator_mesatee.Types.Error.{ServiceError, from_anyhow}
use incubator_mesatee.Types.Storage.{Uuid}

module _ (k : Crates) (c : StorageClient) where
  module _ (P : Uuid → Type 0) (s : c.Store) where
    -- A call changes the stored tasks by steps, and if it succeeds, its result and the store
    -- that it leaves satisfy Q.
    pub record Ends {A : Type 0} (m : Action c.Store ServiceError A) (Q : A → c.Store → Type 0)
        : Type 0 where
      pub steps : Steps k c P s (m s).1
      pub found : (a : A) → (m s).0 ≡ ok a → Q a (m s).1

  module _ {P : Uuid → Type 0} where
    pub Ends-bind :
        {A B : Type 0} {Q : A → c.Store → Type 0} {R : B → c.Store → Type 0} (s : c.Store)
        (m : Action c.Store ServiceError A) (f : A → Action c.Store ServiceError B)
        → Ends P s m Q
        → ((a : A) (t : c.Store) → Q a t → Ends P t (f a) R)
        → Ends P s (m >>= f) R
    unfolding ◌>>=◌
    Ends-bind s m f e rest = elim (Result-cases (m s).0) [
      | inl (a, q) ↦
          let r = rest a (m s).1 (e.found a q) in
          record {
            steps = rw (◌>>=◌, q) (Steps-trans k c e.steps r.steps);
            found = rw (◌>>=◌, q) r.found;
          }
      | inr (x, q) ↦ record { steps = rw (◌>>=◌, q) e.steps; found = rw (◌>>=◌, q) (λ b h. cc h) }
    ]

    pub Ends-pure :
        {A : Type 0} {Q : A → c.Store → Type 0} (s : c.Store) (a : A) → Q a s → Ends P s (pure a) Q
    unfolding pure
    Ends-pure {Q} s a q = record {
      steps = here;
      found = λ b h. let e : a ≡ b = cc h in subst (λ x. Q x s) e q;
    }

    pub Ends-Reads :
        {A : Type 0} {Q : A → Type 0} (s : c.Store) (m : Action c.Store ServiceError A)
        → Reads s m Q
        → Ends P s m (λ a t. Q a × (t ≡ s))
    Ends-Reads s m r = record {
      steps = subst (Steps k c P s) (sym r.kept) here;
      found = λ a h. (r.found a h, r.kept);
    }

    -- a call that goes on after a read
    pub Ends-read :
        {A B : Type 0} {Q : A → Type 0} {R : B → c.Store → Type 0} (s : c.Store)
        (m : Action c.Store Text A) (f : A → Action c.Store ServiceError B)
        → Reads s m Q
        → ((a : A) → Q a → Ends P s (f a) R)
        → Ends P s (map_err from_anyhow m >>= f) R
    Ends-read {R = R} s m f r rest =
        Ends-bind s _ f (Ends-Reads s _ (Reads-map_err from_anyhow m r))
          λ a t q. subst (λ x. Ends P x (f a) R) (sym q.1) (rest a q.0)
