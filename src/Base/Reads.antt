-- ===== src/Base/Reads.antt =====
-- Reasoning about an action from a fixed state. A request first reads, which leaves the store
-- alone, and ends in a few writes.
use mathlib.Core.Path.{◌≡◌, refl, sym, ap, subst, ◌∙◌}
use mathlib.Core.Bool.{Bool, true, false}
use mathlib.Core.Logic.{inl, inr}
use native.Mathlib.Omega.{arith}
use incubator_mesatee.Base.Outcome.{
  Result, ok, err, Action, pure, lift, ◌>>=◌, map_err, ensure, Result-cases,
}

-- `m` keeps the state `s`, and what it returns there satisfies `Q`
pub record Reads {S E A : Type 0} (s : S) (m : Action S E A) (Q : A → Type 0) : Type 0 where
  pub kept : (m s).1 ≡ s
  pub found : (a : A) → (m s).0 ≡ ok a → Q a

module _ {S E : Type 0} {s : S} where
  pub Reads-pure : {A : Type 0} (a : A) {Q : A → Type 0} → Q a → Reads {E = E} s (pure a) Q
  unfolding pure
  Reads-pure a {Q} q = record { kept = refl; found = λ b e. subst Q (ground arith) q }

  pub Reads-ensure : (b : Bool) (e : E) → Reads s (ensure b e) (λ _. b ≡ true)
  unfolding ensure
  Reads-ensure true e = record { kept = refl; found = λ _ _. refl }
  Reads-ensure false e = record { kept = refl; found = λ a h. cc }

  pub Reads-lift : {A : Type 0} (r : Result E A) → Reads s (lift r) (λ a. r ≡ ok a)
  unfolding lift
  Reads-lift r = record { kept = refl; found = λ a h. h }

  pub Reads-map_err :
      {F A : Type 0} (f : E → F) (m : Action S E A) {Q : A → Type 0}
      → Reads s m Q
      → Reads s (map_err f m) Q
  unfolding map_err
  Reads-map_err f m r = record { kept = r.kept; found = λ a h. r.found a (ground arith) }

  bind_ok :
      {A B : Type 0} (m : Action S E A) (f : A → Action S E B) (a : A)
      → (m s).1 ≡ s
      → (m s).0 ≡ ok a
      → (m >>= f) s ≡ f a s
  unfolding ◌>>=◌
  bind_ok m f a k e = rw (◌>>=◌, e, k)

  bind_err :
      {A B : Type 0} (m : Action S E A) (f : A → Action S E B) (x : E)
      → (m s).1 ≡ s
      → (m s).0 ≡ err x
      → (m >>= f) s ≡ (err x, s)
  unfolding ◌>>=◌
  bind_err m f x k e = rw (◌>>=◌, e, k)

  pub Reads-bind :
      {A B : Type 0} {Q : A → Type 0} {R : B → Type 0} (m : Action S E A) (f : A → Action S E B)
      → Reads s m Q
      → ((a : A) → Q a → Reads s (f a) R)
      → Reads s (m >>= f) R
  Reads-bind m f r next = elim (Result-cases (m s).0) [
    | inl (a, e) ↦
        let n = next a (r.found a e) in
        let q = bind_ok m f a r.kept e in
        record {
          kept = ap (λ p. p.1) q ∙ n.kept;
          found = λ b h. n.found b (sym (ap (λ p. p.0) q) ∙ h);
        }
    | inr (x, e) ↦
        let q = bind_err m f x r.kept e in record { kept = ap (λ p. p.1) q; found = λ b h. cc q }
  ]

  -- after a read, what holds of the state holds at the end if the rest makes it so
  pub ends_bind :
      {A B : Type 0} {Q : A → Type 0} (T : S → Type 0) (m : Action S E A) (f : A → Action S E B)
      → Reads s m Q
      → T s
      → ((a : A) → Q a → T (f a s).1)
      → T ((m >>= f) s).1
  ends_bind T m f r start next = elim (Result-cases (m s).0) [
    | inl (a, e) ↦ subst T (sym (ap (λ p. p.1) (bind_ok m f a r.kept e))) (next a (r.found a e))
    | inr (x, e) ↦ subst T (sym (ap (λ p. p.1) (bind_err m f x r.kept e))) start
  ]

  -- a call that succeeds after a read goes on from what it found
  pub ok_bind :
      {A B : Type 0} {Q : A → Type 0} (m : Action S E A) (f : A → Action S E B) (b : B)
      → Reads s m Q
      → ((m >>= f) s).0 ≡ ok b
      → (a : A) × Q a × (((f a s).0 ≡ ok b) × ((f a s).1 ≡ ((m >>= f) s).1))
  ok_bind m f b r h = elim (Result-cases (m s).0) [
    | inl (a, e) ↦
        let q = bind_ok m f a r.kept e in
        (a, r.found a e, (sym (ap (λ p. p.0) q) ∙ h, sym (ap (λ p. p.1) q)))
    | inr (x, e) ↦ let q = bind_err m f x r.kept e in absurd (cc (q, h))
  ]
