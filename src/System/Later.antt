-- ===== src/System/Later.antt =====
-- What becomes of a stored task over any steps on the store.
use incubator_mesatee.Base.{
  Text, ◌==◌, ◌≡◌, refl, sym, subst, ◌∙◌, ap, false, ok, arith, inl, inr, text_cases,
}
use incubator_mesatee.Management.Db.{Crates}
use incubator_mesatee.Storage.Client.{StorageClient}
use incubator_mesatee.System.Step.{
  Holds, Step, Steps, here, next, other_key, enqueued, dequeued, born, moved, task_key,
  task_key-is_task_key, queue_key-ne, other_ne,
}
use incubator_mesatee.Types.Moves.{Moves, SameTask-trans}
use incubator_mesatee.Types.Storage.{Uuid, storage_key, external_id, to_bytes}
use incubator_mesatee.Types.TaskState.{TaskState}
use incubator_mesatee.Types.WellFormed.{IsWellFormed}

Moves-refl : (ts : TaskState) → IsWellFormed ts → Moves ts ts
Moves-refl ts w = record {
  same = record {
    same_id = refl;
    same_creator = refl;
    same_function = refl;
    same_participants = refl;
    same_inputs_ownership = refl;
    same_outputs_ownership = refl;
  };
  approvals_kept = λ u h. h;
  inputs_kept = λ _. refl;
  forward = omega arith;
  sound = w;
}

Moves-trans : {a b c : TaskState} → Moves a b → Moves b c → Moves a c
Moves-trans p q = record {
  same = SameTask-trans p.same q.same;
  approvals_kept = λ u h. q.approvals_kept u (p.approvals_kept u h);
  inputs_kept = λ h. q.inputs_kept (omega (arith, p.forward)) ∙ p.inputs_kept h;
  forward = omega (arith, p.forward, q.forward);
  sound = q.sound;
}

module _ (k : Crates) (c : StorageClient) where
  -- the UUID is not shown as that of the task
  abbrev pub Other : TaskState → Uuid → Type 0
  Other ts id = (k.show_uuid id == k.show_uuid ts.task_id) ≡ false

  -- the store holds the task, in a later state
  pub record HoldsLater (s : c.Store) (ts : TaskState) : Type 0 where
    pub later : TaskState
    pub holds : Holds k c s later
    pub moves : Moves ts later

  pub same_key :
      (ts ts' : TaskState) → ts'.task_id ≡ ts.task_id → task_key k c ts' ≡ task_key k c ts
  unfolding storage_key external_id to_bytes
  same_key ts ts' e = rw e refl

  Other-task_key :
      (ts ts' : TaskState) → Other ts ts'.task_id → (task_key k c ts' == task_key k c ts) ≡ false
  unfolding storage_key external_id to_bytes ◌==◌
  Other-task_key ts ts' h = h

  pub Holds-same :
      (s : c.Store) (a b : TaskState)
      → Holds k c s a
      → Holds k c s b
      → task_key k c a ≡ task_key k c b
      → a ≡ b
  Holds-same s a b p q e =
      ground (arith, p.stored, p.decoded, q.stored, q.decoded, ap (λ (i : Text). c.view s i) e)

  Holds-elsewhere :
      (s : c.Store) (ts : TaskState) (j v : Text)
      → (j == task_key k c ts) ≡ false
      → Holds k c s ts
      → Holds k c (c.put j v s).1 ts
  Holds-elsewhere s ts j v o h = record {
    bytes = h.bytes;
    stored = c.view-put_ne j v s (task_key k c ts) o ∙ h.stored;
    decoded = h.decoded;
  }

  Holds-here : (s : c.Store) (ts : TaskState) → IsWellFormed ts → Holds k c s ts → HoldsLater s ts
  Holds-here s ts w h = record { later = ts; holds = h; moves = Moves-refl ts w }

  -- a task that the store holds is overwritten by a later state of itself
  Holds-moved :
      (s : c.Store) (ts ts' : TaskState) (v : Text)
      → IsWellFormed ts
      → Holds k c s ts
      → Moves ts ts'
      → k.task_json.to_vec ts' ≡ ok v
      → HoldsLater (c.put (task_key k c ts') v s).1 ts
  Holds-moved s ts ts' v w h m e =
      let q = same_key ts ts' m.same.same_id in
      elim (c.view-put_either (task_key k c ts') v s) [
        | inl new ↦ record {
          later = ts';
          holds = record { bytes = v; stored = new; decoded = k.task_json.from_slice-to_vec ts' e };
          moves = m;
        }
        | inr old ↦ Holds-here _ ts w (record {
          bytes = h.bytes;
          stored =
              ap (λ (i : Text). c.view (c.put (task_key k c ts') v s).1 i) (sym q)
              ∙ old
              ∙ ap (λ (i : Text). c.view s i) q
              ∙ h.stored;
          decoded = h.decoded;
        })
      ]

  Step-HoldsLater :
      (s t : c.Store) (ts : TaskState)
      → IsWellFormed ts
      → Holds k c s ts
      → Step k c (Other ts) s t
      → HoldsLater t ts
  Step-HoldsLater s t ts w h (other_key j v o) =
      Holds-here _ ts w
        (Holds-elsewhere s ts j v (other_ne (task_key k c ts) j (task_key-is_task_key k c ts) o) h)
  Step-HoldsLater s t ts w h (enqueued q v) = Holds-here _ ts w (record {
    bytes = h.bytes;
    stored =
        c.view-enqueue q v s (task_key k c ts)
          (queue_key-ne (task_key k c ts) (task_key-is_task_key k c ts))
        ∙ h.stored;
    decoded = h.decoded;
  })
  Step-HoldsLater s t ts w h (dequeued q) = Holds-here _ ts w (record {
    bytes = h.bytes;
    stored =
        c.view-dequeue q s (task_key k c ts)
          (queue_key-ne (task_key k c ts) (task_key-is_task_key k c ts))
        ∙ h.stored;
    decoded = h.decoded;
  })
  Step-HoldsLater s t ts w h (born ts' v fresh w' drawn e) =
      Holds-here _ ts w (Holds-elsewhere s ts _ v (Other-task_key ts ts' drawn) h)
  Step-HoldsLater s t ts w h (moved a b v held m e) =
      elim (text_cases (task_key k c b) (task_key k c ts)) [
        | inr ne ↦ Holds-here _ ts w (Holds-elsewhere s ts _ v ne h)
        | inl q ↦
            let same : a ≡ ts = Holds-same s a ts held h (sym (same_key a b m.same.same_id) ∙ q) in
            Holds-moved s ts b v w h (subst (λ x. Moves x b) same m) e
      ]

  Step-Other :
      (ts ts' : TaskState) {s t : c.Store}
      → ts'.task_id ≡ ts.task_id
      → Step k c (Other ts) s t
      → Step k c (Other ts') s t
  Step-Other ts ts' {s} {t} e st =
      subst (λ (i : Uuid). Step k c (λ u. (k.show_uuid u == k.show_uuid i) ≡ false) s t) (sym e) st

  -- Over any steps that draw other UUIDs, a stored task is replaced by later states of itself.
  pub Steps-HoldsLater :
      (ts : TaskState) {s t : c.Store}
      → IsWellFormed ts
      → Holds k c s ts
      → Steps k c (Other ts) s t
      → HoldsLater t ts
  Steps-HoldsLater ts w h here = Holds-here _ ts w h
  Steps-HoldsLater ts w h (next p st) =
      let l = Steps-HoldsLater ts w h p in
      let same_id = l.moves.same.same_id in
      let n =
        Step-HoldsLater _ _ l.later l.moves.sound l.holds (Step-Other ts l.later same_id st) in
      record { later = n.later; holds = n.holds; moves = Moves-trans l.moves n.moves }
