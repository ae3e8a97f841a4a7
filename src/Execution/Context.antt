-- ===== src/Execution/Context.antt =====
-- executor/src/context.rs: the files that a MesaPy script has open. A handle is the 32 bits of an
-- `i32`; bit 30 tells the handles of outputs from those of inputs.
use incubator_mesatee.Base.{
  Text, utf8, Bool, true, false, ℕ, ◌+◌, ◌/◌, ◌%◌, List, [], ◌∷◌, Option, none, some, Result, ok,
  err, Action, pure, lift, ◌>>=◌, ◌>>◌, if◌then◌else◌, eqb, ltb, is_some,
}
use incubator_mesatee.Types.Runtime.{Failure, error, Runtime}

-- `HandleRegistry<T>`
abbrev pub HandleRegistry : Type 0 → Type 0
HandleRegistry T = List (ℕ × T)

module _ {T : Type 0} where
  unfoldable pub find : HandleRegistry T → ℕ → Option T
  find [] handle = none
  find ((k, obj) ∷ entries) handle = if eqb k handle then some obj else find entries handle

  unfoldable pub remove_entry : HandleRegistry T → ℕ → HandleRegistry T
  remove_entry [] handle = []
  remove_entry ((k, obj) ∷ entries) handle =
      if eqb k handle then remove_entry entries handle else (k, obj) ∷ remove_entry entries handle

  -- `HandleRegistry::add`
  unfoldable pub add : HandleRegistry T → ℕ → T → Result Failure (HandleRegistry T)
  add entries handle obj =
      if is_some (find entries handle)
      then err (error (utf8 "Reuse a existed handle"))
      else ok ((handle, obj) ∷ entries)

  -- `HandleRegistry::get_mut`
  unfoldable pub get_mut : HandleRegistry T → ℕ → Result Failure T
  get_mut entries handle = elim (find entries handle) [
    | none ↦ err (error (utf8 "Get an invalid handle"))
    | some obj ↦ ok obj
  ]

  -- `HandleRegistry::remove`
  unfoldable pub remove : HandleRegistry T → ℕ → Result Failure (HandleRegistry T)
  remove entries handle =
      if is_some (find entries handle)
      then ok (remove_entry entries handle)
      else err (error (utf8 "Remove an invalid handle"))

-- `into_write_handle`, whose assertion holds for every number that the sequence gives
unfoldable pub into_write_handle : ℕ → ℕ
into_write_handle n = 1_073_741_824 + n

unfoldable pub is_write_handle : ℕ → Bool
is_write_handle handle = eqb (handle / 1_073_741_824 % 2) 1

-- `Sequence::next`, on the start of the range that is left; its end is 1024
unfoldable pub next : ℕ → Result Failure ℕ
next start = if ltb start 1_024 then ok start else err (error (utf8 "Reached max sequence"))

module _ (r : Runtime) where
  pub record Context : Type 0 where
    pub seq : ℕ
    pub read_handles : HandleRegistry r.Reader
    pub write_handles : HandleRegistry r.Writer

  -- `Context::new`
  unfoldable pub new : Context
  new = record { seq = 1; read_handles = []; write_handles = [] }

  -- A call of the C interface, and what it gives back.
  pub data Call : Type 0 where
    open_input create_output : Text → Call
    read_handle : ℕ → ℕ → Call
    write_handle : ℕ → Text → Call
    close_handle : ℕ → Call

  pub data Answer : Type 0 where
    handle size : ℕ → Answer
    bytes : Text → Answer
    closed : Answer

  abbrev pub World : Type 0
  World = Context × r.State

  unfoldable pub on_runtime : {A : Type 0} → Action r.State Failure A → Action World Failure A
  on_runtime m (c, s) = let (a, s') = m s in (a, (c, s'))

  unfoldable pub get : Action World Failure Context
  get (c, s) = (ok c, (c, s))

  unfoldable pub put : Context → Action World Failure (Unit {0})
  put c (old, s) = (ok tt, (c, s))

  unfoldable pub perform : Call → Action World Failure Answer
  perform (open_input fid) = do
    file ← on_runtime (r.open_input fid)
    c ← get
    n ← lift (next c.seq)
    put (record c { seq = 1 + n })
    entries ← lift (add c.read_handles n file)
    put (record c { seq = 1 + n; read_handles = entries })
    pure (handle n)
  perform (create_output fid) = do
    file ← on_runtime (r.create_output fid)
    c ← get
    n ← lift (next c.seq)
    put (record c { seq = 1 + n })
    entries ← lift (add c.write_handles (into_write_handle n) file)
    put (record c { seq = 1 + n; write_handles = entries })
    pure (handle (into_write_handle n))
  perform (read_handle h len) = do
    c ← get
    file ← lift (get_mut c.read_handles h)
    got ← on_runtime (r.read file len)
    pure (bytes got)
  perform (write_handle h buf) = do
    c ← get
    file ← lift (get_mut c.write_handles h)
    n ← on_runtime (r.write file buf)
    pure (size n)
  perform (close_handle h) = do
    c ← get
    elim (is_write_handle h) [
      | true ↦ do
        entries ← lift (remove c.write_handles h)
        put (record c { write_handles = entries })
        pure closed
      | false ↦ do
        entries ← lift (remove c.read_handles h)
        put (record c { read_handles = entries })
        pure closed
    ]

  -- a script makes one call after the other, whatever they give back
  unfoldable pub perform_all : List Call → World → World
  perform_all [] w = w
  perform_all (call ∷ calls) w = perform_all calls (perform call w).1

  -- `set_thread_context` and `reset_thread_context`, on the context of the thread
  unfoldable pub set_thread_context : Context → Action (Option Context) Failure (Unit {0})
  set_thread_context context ctx =
      if is_some ctx
      then (err (error (utf8 "Context already initialized")), ctx)
      else (ok tt, some context)

  unfoldable pub reset_thread_context : Action (Option Context) Failure (Unit {0})
  reset_thread_context ctx =
      if is_some ctx then (ok tt, none) else (err (error (utf8 "Context not initialized")), ctx)
