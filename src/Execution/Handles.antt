-- ===== src/Execution/Handles.antt =====
-- Handles are never used again (executor/src/context.rs).
use incubator_mesatee.Base.{
  Text, utf8, ◌≡◌, subst, false, ℕ, ◌+◌, ◌≤◌, ◌<◌, List, [], ◌∷◌, none, ok, err, Bool-cases, ◌⊎◌,
  inl, inr, pure, lift, ◌>>=◌, arith, eqb, is_some,
}
use incubator_mesatee.Execution.Context.{
  find, remove_entry, get_mut, remove, is_write_handle, Context, new, Call, read_handle,
  write_handle, close_handle, closed, World, on_runtime, get, put, perform, perform_all,
}
use incubator_mesatee.Types.Runtime.{error, Runtime}
use incubator_mesatee.Execution.Changes.{
  Change, same, skipped, opened, created, closed_read, closed_write, perform-Change, IsContext,
  perform_all-IsContext, new-IsContext,
}
use incubator_mesatee.Execution.Registry.{
  find-remove_self, find-remove_none, Within-find, Within-find_low, Within-known,
}

module _ (r : Runtime) where
  -- no file is open under the handle, and it was given out before
  pub record Gone (h : ℕ) (c : Context r) : Type 0 where
    pub given : h < c.seq ⊎ ((1_073_741_824 ≤ h) × (h < 1_073_741_824 + c.seq))
    no_read : find c.read_handles h ≡ none
    no_write : find c.write_handles h ≡ none

  given_more :
      (h n : ℕ)
      → (h < n) ⊎ ((1_073_741_824 ≤ h) × (h < 1_073_741_824 + n))
      → (h < 1 + n) ⊎ ((1_073_741_824 ≤ h) × (h < 1_073_741_824 + (1 + n)))
  given_more h n (inl l) = inl (omega (arith, l))
  given_more h n (inr g) = inr (g.0, omega (arith, g.1))

  not_new :
      (h n : ℕ)
      → (h < n) ⊎ ((1_073_741_824 ≤ h) × (h < 1_073_741_824 + n))
      → n < 1_024
      → (eqb n h ≡ false) × (eqb (1_073_741_824 + n) h ≡ false)
  not_new h n (inl l) b = (ground (arith, l, b), ground (arith, l, b))
  not_new h n (inr g) b = (ground (arith, g.0, g.1, b), ground (arith, g.0, g.1, b))

  Change-Gone : (h : ℕ) (c d : Context r) → Change r c d → Gone h c → Gone h d
  unfolding find
  Change-Gone h c _ same g = g
  Change-Gone h c _ (skipped l) g = record {
    given = given_more h c.seq g.given;
    no_read = g.no_read;
    no_write = g.no_write;
  }
  Change-Gone h c _ (opened file l) g =
      let (a, b) = not_new h c.seq g.given l in
      record {
        given = given_more h c.seq g.given;
        no_read = ground (arith, a, g.no_read);
        no_write = g.no_write;
      }
  Change-Gone h c _ (created file l) g =
      let (a, b) = not_new h c.seq g.given l in
      record {
        given = given_more h c.seq g.given;
        no_read = g.no_read;
        no_write = ground (arith, b, g.no_write);
      }
  Change-Gone h c _ (closed_read j) g = record {
    given = g.given;
    no_read = find-remove_none c.read_handles j h g.no_read;
    no_write = g.no_write;
  }
  Change-Gone h c _ (closed_write j) g = record {
    given = g.given;
    no_read = g.no_read;
    no_write = find-remove_none c.write_handles j h g.no_write;
  }

  perform_all-Gone :
      (h : ℕ) (calls : List (Call r)) (w : World r) → Gone h w.0 → Gone h (perform_all r calls w).0
  unfolding perform_all
  perform_all-Gone h [] w g = g
  perform_all-Gone h (call ∷ calls) w g =
      perform_all-Gone h calls (perform r call w).1
        (Change-Gone h w.0 _ (perform-Change r call w.0 w.1) g)

  close-Gone :
      (h : ℕ) (c : Context r) (s : r.State)
      → IsContext r c
      → (perform r (close_handle h) (c, s)).0 ≡ ok closed
      → Gone h ((perform r (close_handle h) (c, s)).1).0
  unfolding perform get put lift pure ◌>>=◌ remove
  close-Gone h c s i e = elim (Bool-cases (is_write_handle h)) [
    | inl b ↦ elim (Bool-cases (is_some (find c.write_handles h))) [
      | inr q ↦ absurd (ground (arith, e, b, q))
      | inl q ↦
          let (low, high) = Within-known _ _ c.write_handles h i.writes q in
          let d : Context r = record c { write_handles = remove_entry c.write_handles h } in
          subst (Gone h) {x = d} (ground (arith, b, q)) (record {
            given = inr (omega (arith, low), high);
            no_read = Within-find 1 c.seq c.read_handles h i.reads (omega (arith, low, i.bound));
            no_write = find-remove_self c.write_handles h;
          })
    ]
    | inr b ↦ elim (Bool-cases (is_some (find c.read_handles h))) [
      | inr q ↦ absurd (ground (arith, e, b, q))
      | inl q ↦
          let (low, high) = Within-known _ _ c.read_handles h i.reads q in
          let d : Context r = record c { read_handles = remove_entry c.read_handles h } in
          subst (Gone h) {x = d} (ground (arith, b, q)) (record {
            given = inl high;
            no_read = find-remove_self c.read_handles h;
            no_write =
                Within-find_low _ _ c.write_handles h i.writes (omega (arith, high, i.bound));
          })
    ]
  ]

  Gone-refused :
      (h len : ℕ) (buf : Text) (w : World r)
      → Gone h w.0
      → ((perform r (read_handle h len) w).0 ≡ err (error (utf8 "Get an invalid handle")))
        × ((perform r (write_handle h buf) w).0 ≡ err (error (utf8 "Get an invalid handle")))
        × ((perform r (close_handle h) w).0 ≡ err (error (utf8 "Remove an invalid handle")))
  unfolding perform on_runtime get put lift pure ◌>>=◌ remove get_mut
  Gone-refused h len buf w g =
      (ground (arith, g.no_read), ground (arith, g.no_write), ground (arith, g.no_read, g.no_write))

  -- Once a script has closed a handle, every later use of it is refused, whatever the script opens
  -- and closes in between: a handle is never given out again.
  pub perform-closed :
      (before after : List (Call r)) (h len : ℕ) (buf : Text) (s : r.State)
      → (perform r (close_handle h) (perform_all r before (new r, s))).0 ≡ ok closed
      → (let w =
            perform_all r after (perform r (close_handle h) (perform_all r before (new r, s))).1 in
          ((perform r (read_handle h len) w).0 ≡ err (error (utf8 "Get an invalid handle")))
          × ((perform r (write_handle h buf) w).0 ≡ err (error (utf8 "Get an invalid handle")))
          × ((perform r (close_handle h) w).0 ≡ err (error (utf8 "Remove an invalid handle"))))
  perform-closed before after h len buf s e =
      let w = perform_all r before (new r, s) in
      let i = perform_all-IsContext r before (new r, s) (new-IsContext r) in
      Gone-refused h len buf _
        (perform_all-Gone h after (perform r (close_handle h) w).1 (close-Gone h w.0 w.1 i e))
