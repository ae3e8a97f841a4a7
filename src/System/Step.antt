-- ===== src/System/Step.antt =====
-- The steps that a request may take on the store, as far as tasks are concerned, and what holds
-- of every stored task.
use incubator_mesatee.Base.{
  Text, utf8, ◌==◌, starts_with, ==_iff, ◌≡◌, Bool, true, false, some, ok, arith, inl, inr, sym,
  subst, ◌∙◌, refl, text_cases, ap, [], ◌∷◌,
}
use incubator_mesatee.Management.Db.{Crates, tasks}
use incubator_mesatee.Storage.Client.{StorageClient}
use incubator_mesatee.Storage.Service.{is_queue_key}
use incubator_mesatee.Types.Moves.{Moves}
use incubator_mesatee.Types.Storage.{Uuid, storage_key, external_id, to_bytes}
use incubator_mesatee.Types.Task.{created}
use incubator_mesatee.Types.TaskState.{TaskState}
use incubator_mesatee.Types.WellFormed.{IsWellFormed}

-- the keys under which tasks are kept
abbrev pub is_task_key : Text → Bool
is_task_key j = starts_with j (utf8 "task")

-- a task key is no queue key
pub queue_key-ne : (j : Text) → is_task_key j ≡ true → is_queue_key j ≡ false
unfolding starts_with
queue_key-ne [] h = ground arith
queue_key-ne (x ∷ j) h = ground arith

pub other_ne : (i j : Text) → is_task_key i ≡ true → is_task_key j ≡ false → (j == i) ≡ false
other_ne i j t o = ground (arith, ==_iff j i)

module _ (k : Crates) (c : StorageClient) where
  abbrev pub task_key : TaskState → Text
  task_key ts = storage_key (tasks k) k.show_uuid ts

  -- the store holds the task
  pub record Holds (s : c.Store) (ts : TaskState) : Type 0 where
    pub bytes : Text
    pub stored : c.view s (task_key ts) ≡ some bytes
    pub decoded : k.task_json.from_slice bytes ≡ ok ts

  -- Whatever is stored under a task key is a well-formed task, under its own key.
  pub record IsSound (s : c.Store) : Type 0 where
    pub at :
        (j b : Text) (ts : TaskState)
        → is_task_key j ≡ true
        → c.view s j ≡ some b
        → k.task_json.from_slice b ≡ ok ts
        → IsWellFormed ts × (task_key ts ≡ j)

  -- One write. `P` holds of every UUID that is drawn for a new task.
  pub data Step (P : Uuid → Type 0) (s : c.Store) : c.Store → Type 0 where
    other_key : (j v : Text) → is_task_key j ≡ false → Step P s (c.put j v s).1
    enqueued : (q v : Text) → Step P s (c.enqueue q v s).1
    dequeued : (q : Text) → Step P s (c.dequeue q s).1
    born :
        (ts : TaskState) (v : Text)
        → ts.status ≡ created
        → IsWellFormed ts
        → P ts.task_id
        → k.task_json.to_vec ts ≡ ok v
        → Step P s (c.put (task_key ts) v s).1
    moved :
        (ts ts' : TaskState) (v : Text)
        → Holds s ts
        → Moves ts ts'
        → k.task_json.to_vec ts' ≡ ok v
        → Step P s (c.put (task_key ts') v s).1

  pub data Steps (P : Uuid → Type 0) (s : c.Store) : c.Store → Type 0 where
    here : Steps P s s
    next : {t u : c.Store} → Steps P s t → Step P t u → Steps P s u

  pub Steps-trans : {P : Uuid → Type 0} {s t u : c.Store} → Steps P s t → Steps P t u → Steps P s u
  Steps-trans p here = p
  Steps-trans p (next q st) = next (Steps-trans p q) st

  pub task_key-is_task_key : (ts : TaskState) → is_task_key (task_key ts) ≡ true
  unfolding storage_key external_id to_bytes starts_with
  task_key-is_task_key ts = refl

  module _ (ts : TaskState) (v : Text) (s : c.Store) (w : IsWellFormed ts)
      (e : k.task_json.to_vec ts ≡ ok v) (h : IsSound s) where
    put_task_self :
        (b : Text) (ts2 : TaskState)
        → c.view (c.put (task_key ts) v s).1 (task_key ts) ≡ some b
        → k.task_json.from_slice b ≡ ok ts2
        → IsWellFormed ts2 × (task_key ts2 ≡ task_key ts)
    put_task_self b ts2 found d = elim (c.view-put_either (task_key ts) v s) [
      | inl new ↦
          let same : ts ≡ ts2 = ground (arith, k.task_json.from_slice-to_vec ts e, found, new, d) in
          (subst IsWellFormed same w, ap task_key (sym same))
      | inr old ↦ h.at (task_key ts) b ts2 (task_key-is_task_key ts) (sym old ∙ found) d
    ]

    put_task-IsSound : IsSound (c.put (task_key ts) v s).1
    put_task-IsSound = record {
      at = λ j b ts2 t found d. elim (text_cases (task_key ts) j) [
        | inr ne ↦ h.at j b ts2 t (sym (c.view-put_ne (task_key ts) v s j ne) ∙ found) d
        | inl q ↦
            let (w2, k2) =
              put_task_self b ts2
                (ap (λ (i : Text). c.view (c.put (task_key ts) v s).1 i) q ∙ found) d in
            (w2, k2 ∙ q)
      ];
    }

  -- Every step keeps every stored task well formed.
  Step-IsSound : {P : Uuid → Type 0} {s t : c.Store} → Step P s t → IsSound s → IsSound t
  Step-IsSound {s = s} (other_key j v o) h = record {
    at = λ i b ts t found d.
        h.at i b ts t (sym (c.view-put_ne j v s i (other_ne i j t o)) ∙ found) d;
  }
  Step-IsSound {s = s} (enqueued q v) h = record {
    at = λ j b ts t found d.
        h.at j b ts t (sym (c.view-enqueue q v s j (queue_key-ne j t)) ∙ found) d;
  }
  Step-IsSound {s = s} (dequeued q) h = record {
    at =
        λ j b ts t found d. h.at j b ts t (sym (c.view-dequeue q s j (queue_key-ne j t)) ∙ found) d;
  }
  Step-IsSound {s = s} (born ts v fresh w drawn e) h = put_task-IsSound ts v s w e h
  Step-IsSound {s = s} (moved ts ts' v held m e) h = put_task-IsSound ts' v s m.sound e h

  pub Steps-IsSound : {P : Uuid → Type 0} {s t : c.Store} → Steps P s t → IsSound s → IsSound t
  Steps-IsSound here h = h
  Steps-IsSound (next p st) h = Step-IsSound st (Steps-IsSound p h)
