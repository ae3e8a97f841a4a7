-- ===== src/Execution/Registry.antt =====
-- Lookups in a `HandleRegistry` (executor/src/context.rs), and registries whose handles lie in a
-- range.
use incubator_mesatee.Base.{
  ◌≡◌, refl, true, ℕ, ◌≤◌, ◌<◌, [], ◌∷◌, none, Bool-cases, inl, inr, arith, eqb, is_some,
}
use incubator_mesatee.Execution.Context.{HandleRegistry, find, remove_entry}

module _ {T : Type 0} where
  pub find-remove_self : (m : HandleRegistry T) (h : ℕ) → find (remove_entry m h) h ≡ none
  unfolding find remove_entry
  find-remove_self [] h = refl
  find-remove_self ((k, v) ∷ m) h = ground (arith, find-remove_self m h)

  pub find-remove_none :
      (m : HandleRegistry T) (h j : ℕ) → find m j ≡ none → find (remove_entry m h) j ≡ none
  unfolding find remove_entry
  find-remove_none [] h j e = refl
  find-remove_none ((k, v) ∷ m) h j e = ground (arith, e, find-remove_none m h j)

  -- every handle is at least `low` and below `high`
  unfoldable pub Within : ℕ → ℕ → HandleRegistry T → Type 0
  Within low high [] = Unit
  Within low high ((k, v) ∷ m) = (low ≤ k) × (k < high) × Within low high m

  pub Within-find :
      (low high : ℕ) (m : HandleRegistry T) (j : ℕ) → Within low high m → high ≤ j → find m j ≡ none
  unfolding Within find
  Within-find low high [] j w h = refl
  Within-find low high ((k, v) ∷ m) j w h = ground (arith, w.0, w.1, Within-find low high m j w.2 h)

  pub Within-find_low :
      (low high : ℕ) (m : HandleRegistry T) (j : ℕ) → Within low high m → j < low → find m j ≡ none
  unfolding Within find
  Within-find_low low high [] j w h = refl
  Within-find_low low high ((k, v) ∷ m) j w h =
      ground (arith, w.0, w.1, Within-find_low low high m j w.2 h)

  pub Within-wider :
      (low high more : ℕ) (m : HandleRegistry T)
      → Within low high m
      → high ≤ more
      → Within low more m
  unfolding Within
  Within-wider low high more [] w h = tt
  Within-wider low high more ((k, v) ∷ m) w h =
      (w.0, omega (arith, w.1, h), Within-wider low high more m w.2 h)

  pub Within-remove :
      (low high : ℕ) (m : HandleRegistry T) (h : ℕ)
      → Within low high m
      → Within low high (remove_entry m h)
  unfolding Within remove_entry
  Within-remove low high [] h w = tt
  Within-remove low high ((k, v) ∷ m) h w = elim (Bool-cases (eqb k h)) [
    | inl e ↦ rw e (Within-remove low high m h w.2)
    | inr e ↦ rw e (w.0, w.1, Within-remove low high m h w.2)
  ]

  pub Within-known :
      (low high : ℕ) (m : HandleRegistry T) (h : ℕ)
      → Within low high m
      → is_some (find m h) ≡ true
      → (low ≤ h) × (h < high)
  unfolding Within find
  Within-known low high [] h w e = absurd (ground (arith, e))
  Within-known low high ((k, v) ∷ m) h w e = elim (Bool-cases (eqb k h)) [
    | inl q ↦ (ground (arith, w.0, q), ground (arith, w.1, q))
    | inr q ↦ Within-known low high m h w.2 (ground (arith, e, q))
  ]
