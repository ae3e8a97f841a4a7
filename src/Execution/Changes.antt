-- ===== src/Execution/Changes.antt =====
-- What a call of a script does to its context (executor/src/context.rs), and which handles are open.
use incubator_mesatee.Base.{
  subst, ℕ, ◌+◌, ◌≤◌, ◌<◌, List, [], ◌∷◌, Option-cases, Result-cases, Bool-cases, inl, inr, pure,
  lift, ◌>>=◌, arith, ltb, is_some,
}
use incubator_mesatee.Execution.Context.{
  find, remove_entry, add, get_mut, remove, into_write_handle, is_write_handle, next, Context, new,
  Call, open_input, create_output, read_handle, write_handle, close_handle, World, on_runtime, get,
  put, perform, perform_all,
}
use incubator_mesatee.Types.Runtime.{Runtime}
use incubator_mesatee.Execution.Registry.{Within, Within-wider, Within-remove}

module _ (r : Runtime) where
  -- what one call may do to the context
  pub data Change (c : Context r) : Context r → Type 0 where
    same : Change c c
    skipped : c.seq < 1_024 → Change c (record c { seq = 1 + c.seq })
    opened :
        (file : r.Reader)
        → c.seq < 1_024
        → Change c (record c { seq = 1 + c.seq; read_handles = (c.seq, file) ∷ c.read_handles })
    created :
        (file : r.Writer)
        → c.seq < 1_024
        → Change c (record c {
          seq = 1 + c.seq;
          write_handles = (1_073_741_824 + c.seq, file) ∷ c.write_handles;
        })
    closed_read : (h : ℕ) → Change c (record c { read_handles = remove_entry c.read_handles h })
    closed_write : (h : ℕ) → Change c (record c { write_handles = remove_entry c.write_handles h })

  pub perform-Change :
      (call : Call r) (c : Context r) (s : r.State) → Change c ((perform r call (c, s)).1).0
  unfolding perform on_runtime get put lift pure ◌>>=◌ next add into_write_handle remove get_mut
  perform-Change (open_input fid) c s = elim (Result-cases (r.open_input fid s).0) [
    | inr (x, e) ↦ subst (Change c) (ground (arith, e)) same
    | inl (file, e) ↦ elim (Bool-cases (ltb c.seq 1_024)) [
      | inr n ↦ subst (Change c) (ground (arith, e, n)) same
      | inl y ↦ elim (Bool-cases (is_some (find c.read_handles c.seq))) [
        | inl u ↦ subst (Change c) (ground (arith, e, y, u)) (skipped (ground (arith, y)))
        | inr u ↦ subst (Change c) (ground (arith, e, y, u)) (opened file (ground (arith, y)))
      ]
    ]
  ]
  perform-Change (create_output fid) c s = elim (Result-cases (r.create_output fid s).0) [
    | inr (x, e) ↦ subst (Change c) (ground (arith, e)) same
    | inl (file, e) ↦ elim (Bool-cases (ltb c.seq 1_024)) [
      | inr n ↦ subst (Change c) (ground (arith, e, n)) same
      | inl y ↦ elim (Bool-cases (is_some (find c.write_handles (1_073_741_824 + c.seq)))) [
        | inl u ↦ subst (Change c) (ground (arith, e, y, u)) (skipped (ground (arith, y)))
        | inr u ↦ subst (Change c) (ground (arith, e, y, u)) (created file (ground (arith, y)))
      ]
    ]
  ]
  perform-Change (read_handle h len) c s = elim (Option-cases (find c.read_handles h)) [
    | inl e ↦ subst (Change c) (ground (arith, e)) same
    | inr (file, e) ↦ elim (Result-cases (r.read file len s).0) [
      | inl (x, g) ↦ subst (Change c) (ground (arith, e, g)) same
      | inr (x, g) ↦ subst (Change c) (ground (arith, e, g)) same
    ]
  ]
  perform-Change (write_handle h buf) c s = elim (Option-cases (find c.write_handles h)) [
    | inl e ↦ subst (Change c) (ground (arith, e)) same
    | inr (file, e) ↦ elim (Result-cases (r.write file buf s).0) [
      | inl (x, g) ↦ subst (Change c) (ground (arith, e, g)) same
      | inr (x, g) ↦ subst (Change c) (ground (arith, e, g)) same
    ]
  ]
  perform-Change (close_handle h) c s = elim (Bool-cases (is_write_handle h)) [
    | inl b ↦ elim (Bool-cases (is_some (find c.write_handles h))) [
      | inl e ↦ subst (Change c) (ground (arith, b, e)) (closed_write h)
      | inr e ↦ subst (Change c) (ground (arith, b, e)) same
    ]
    | inr b ↦ elim (Bool-cases (is_some (find c.read_handles h))) [
      | inl e ↦ subst (Change c) (ground (arith, b, e)) (closed_read h)
      | inr e ↦ subst (Change c) (ground (arith, b, e)) same
    ]
  ]

  -- the handles that are open, and those that may still be given out
  pub record IsContext (c : Context r) : Type 0 where
    pub started : 1 ≤ c.seq
    pub bound : c.seq ≤ 1_024
    pub reads : Within 1 c.seq c.read_handles
    pub writes : Within 1_073_741_825 (1_073_741_824 + c.seq) c.write_handles

  Change-IsContext : (c d : Context r) → Change c d → IsContext c → IsContext d
  unfolding Within
  Change-IsContext c _ same i = i
  Change-IsContext c _ (skipped l) i = record {
    started = omega arith;
    bound = omega (arith, l);
    reads = Within-wider 1 c.seq (1 + c.seq) c.read_handles i.reads (omega arith);
    writes = Within-wider _ _ _ c.write_handles i.writes (omega arith);
  }
  Change-IsContext c _ (opened file l) i = record {
    started = omega arith;
    bound = omega (arith, l);
    reads = (
      i.started,
      omega arith,
      Within-wider 1 c.seq (1 + c.seq) c.read_handles i.reads (omega arith),
    );
    writes = Within-wider _ _ _ c.write_handles i.writes (omega arith);
  }
  Change-IsContext c _ (created file l) i = record {
    started = omega arith;
    bound = omega (arith, l);
    reads = Within-wider 1 c.seq (1 + c.seq) c.read_handles i.reads (omega arith);
    writes = (
      omega (arith, i.started),
      omega arith,
      Within-wider _ _ _ c.write_handles i.writes (omega arith),
    );
  }
  Change-IsContext c _ (closed_read h) i = record {
    started = i.started;
    bound = i.bound;
    reads = Within-remove _ _ c.read_handles h i.reads;
    writes = i.writes;
  }
  Change-IsContext c _ (closed_write h) i = record {
    started = i.started;
    bound = i.bound;
    reads = i.reads;
    writes = Within-remove _ _ c.write_handles h i.writes;
  }

  pub perform_all-IsContext :
      (calls : List (Call r)) (w : World r) → IsContext w.0 → IsContext (perform_all r calls w).0
  unfolding perform_all
  perform_all-IsContext [] w i = i
  perform_all-IsContext (call ∷ calls) w i =
      perform_all-IsContext calls (perform r call w).1
        (Change-IsContext w.0 _ (perform-Change call w.0 w.1) i)

  pub new-IsContext : IsContext (new r)
  unfolding new Within
  new-IsContext = record { started = omega arith; bound = omega arith; reads = tt; writes = tt }
