-- ===== src/System/SchedulerSteps.antt =====
-- The requests of executors (services/scheduler/enclave/src/service.rs) change the stored tasks
-- by steps only.
use incubator_mesatee.Base.{
  Text, ◌≡◌, refl, false, [], ◌∷◌, ok, sym, ◌∙◌, ◌>>=◌, map_err, lift, Result-cases, inl, inr, ap,
  subst, arith, starts_with,
}
use incubator_mesatee.Base.HashMap.{HashMap}
use incubator_mesatee.Base.Reads.{Reads, Reads-lift, Reads-map_err}
use incubator_mesatee.Management.Db.{Crates, tasks, outputs, read_from_db, write_to_db}
use incubator_mesatee.Management.Requests.{Request, storage_failure}
use incubator_mesatee.Scheduler.{
  pull_staged, get_from_db, put_into_db, get_task_state, pull_task, update_task_status, update_tags,
  take_outputs, update_task_result, UpdateTaskStatusRequest, UpdateTaskResultRequest,
}
use incubator_mesatee.Storage.Client.{StorageClient}
use incubator_mesatee.System.Access.{Reads-read_task, write_other, write_moved, Steps-bind}
use incubator_mesatee.System.Answers.{write_Stored}
use incubator_mesatee.System.Ends.{Ends, Ends-bind, Ends-pure, Ends-Reads, Ends-read}
use incubator_mesatee.System.Step.{
  IsSound, Holds, Steps, here, next, dequeued, task_key, task_key-is_task_key, is_task_key,
  other_ne,
}
use incubator_mesatee.Types.Crypto.{FileAuthTag}
use incubator_mesatee.Types.Error.{from_anyhow}
use incubator_mesatee.Types.File.{OutputFile}
use incubator_mesatee.Types.Finishing.{
  Finishing, restore_finish-Finishing, update_output_cmac-Finishing, save_finish-Moves,
}
use incubator_mesatee.Types.Moves.{Moves}
use incubator_mesatee.Types.Progress.{save_run-Moves}
use incubator_mesatee.Types.Staged.{queue_key}
use incubator_mesatee.Types.Restore.{save_run, save_moving, save_finish}
use incubator_mesatee.Types.Storage.{Uuid, Storable, storage_key, to_bytes}
use incubator_mesatee.Types.Task.{TaskResult, not_ready, done, failed, staged, running, finished}
use incubator_mesatee.Types.TaskState.{TaskState}
use incubator_mesatee.Types.Transition.{finish, Task, update_output_cmac, update_result}
use incubator_mesatee.Types.WellFormed.{IsWellFormed, restore_run_lem, restore_finish_lem}

saved_result :
    (t : Task finish) (r : TaskResult)
    → ((save_finish (update_result t r)).status ≡ finished)
      × ((save_finish (update_result t r)).result ≡ r)
unfolding save_finish save_moving update_result
saved_result t r = (refl, refl)

module _ (k : Crates) (c : StorageClient) where
  -- the key under which the task with this UUID is kept
  abbrev pub id_bytes : Uuid → Text
  id_bytes id = to_bytes k.show_uuid (record { prefix = (tasks k).key_prefix; uuid = id })

  put_ok :
      {A : Type 0} (st : Storable A) (a : A) (s : c.Store) (b : Unit {0})
      → (map_err from_anyhow (put_into_db k c st a) s).0 ≡ ok b
      → (write_to_db k c st a s).0 ≡ ok tt
  unfolding map_err put_into_db write_to_db
  put_ok st a s b h = ground (arith, h)

  running_same :
      (a b : TaskState) (t : c.Store)
      → a ≡ b
      → Holds k c t (record a { status = running })
      → Holds k c t (record b { status = running })
  running_same a b t e h =
      subst (λ (x : TaskState). Holds k c t (record x { status = running })) e h

  put_last :
      {A : Type 0} (st : Storable A) (a : A) (s : c.Store)
      → (map_err from_anyhow (put_into_db k c st a) s).1 ≡ (write_to_db k c st a s).1
  unfolding map_err put_into_db write_to_db
  put_last st a s = refl

  put_Holds :
      (ts : TaskState) (s : c.Store) (b : Unit {0})
      → (map_err from_anyhow (put_into_db k c (tasks k) ts) s).0 ≡ ok b
      → Holds k c (map_err from_anyhow (put_into_db k c (tasks k) ts) s).1 ts
  put_Holds ts s b h =
      let x = write_Stored k c (tasks k) ts storage_failure s (put_ok (tasks k) ts s b h) in
      subst (λ t. Holds k c t ts) (sym (put_last (tasks k) ts s))
        (record { bytes = x.bytes; stored = x.stored; decoded = x.decoded })

  -- reading a task through the scheduler is reading it through the management service
  get_from_db_same :
      (id : Uuid) (s : c.Store)
      → get_task_state k c id s
        ≡ read_from_db k c (tasks k) (record { prefix = (tasks k).key_prefix; uuid = id }) s
  unfolding get_task_state get_from_db read_from_db
  get_from_db_same id s = refl

  module _ (s : c.Store) (h : IsSound k c s) where
    Reads-get_task_state :
        (id : Uuid)
        → Reads s
            (get_task_state k c id)
            (λ ts. Holds k c s ts × IsWellFormed ts × (task_key k c ts ≡ id_bytes id))
    Reads-get_task_state id =
        let r = Reads-read_task k c s (record { prefix = (tasks k).key_prefix; uuid = id }) h in
        record {
          kept = ap (λ p. p.1) (get_from_db_same id s) ∙ r.kept;
          found = λ ts q. r.found ts (sym (ap (λ p. p.0) (get_from_db_same id s)) ∙ q);
        }

  Holds-other :
      (s : c.Store) (ts : TaskState) (j v : Text)
      → is_task_key j ≡ false
      → Holds k c s ts
      → Holds k c (c.put j v s).1 ts
  Holds-other s ts j v o h = record {
    bytes = h.bytes;
    stored =
        c.view-put_ne j v s (task_key k c ts)
          (other_ne (task_key k c ts) j (task_key-is_task_key k c ts) o)
        ∙ h.stored;
    decoded = h.decoded;
  }

  write_output_Holds :
      (s : c.Store) (f : OutputFile) (ts : TaskState)
      → Holds k c s ts
      → Holds k c (write_to_db k c (outputs k) f s).1 ts
  unfolding write_to_db ◌>>=◌ lift map_err storage_key starts_with
  write_output_Holds s f ts h = elim (Result-cases ((outputs k).json.to_vec f)) [
    | inl (v, e) ↦ rw e (Holds-other s ts (storage_key (outputs k) k.show_uuid f) v refl h)
    | inr (x, e) ↦ rw e h
  ]

  module _ {P : Uuid → Type 0} where
    Ends-output :
        (s : c.Store) (f : OutputFile) (ts : TaskState)
        → Holds k c s ts
        → Ends k c P s (map_err from_anyhow (put_into_db k c (outputs k) f)) (λ _ t. Holds k c t ts)
    unfolding storage_key starts_with
    Ends-output s f ts h = record {
      steps =
          subst (Steps k c P s) (sym (put_last (outputs k) f s))
            (write_other k c s (outputs k) f refl);
      found = λ _ _.
          subst (λ t. Holds k c t ts) (sym (put_last (outputs k) f s))
            (write_output_Holds s f ts h);
    }

    -- the loop over the tags stores output files, and keeps the task where it is
    Ends-update_tags :
        (m : HashMap FileAuthTag) (s : c.Store) (ts : TaskState) (t : Task finish)
        → Holds k c s ts
        → Finishing ts t
        → Ends k c P s (update_tags k c m t) (λ t' s'. Finishing ts t' × Holds k c s' ts)
    unfolding update_tags
    Ends-update_tags [] s ts t h f = Ends-pure k c s t (f, h)
    Ends-update_tags ((n, a) ∷ m) s ts t h f =
        Ends-bind k c s _ _
          (Ends-Reads k c s _ (Reads-map_err from_anyhow _ (Reads-lift (update_output_cmac t n a))))
          λ p s1 q.
            let h1 = subst (λ x. Holds k c x ts) (sym q.1) h in
            Ends-bind k c s1 _ _ (Ends-output s1 p.0 ts h1) λ _ s2 h2.
              Ends-update_tags m s2 ts p.1 h2 (update_output_cmac-Finishing ts t p.1 n a p.0 f q.0)

    Ends-take_outputs :
        (r : TaskResult) (s : c.Store) (ts : TaskState) (t : Task finish)
        → Holds k c s ts
        → Finishing ts t
        → Ends k c P s (take_outputs k c r t) (λ t' s'. Finishing ts t' × Holds k c s' ts)
    unfolding take_outputs
    Ends-take_outputs not_ready s ts t h f = Ends-pure k c s t (f, h)
    Ends-take_outputs (done o) s ts t h f = Ends-update_tags o.tags_map s ts t h f
    Ends-take_outputs (failed e) s ts t h f = Ends-pure k c s t (f, h)

    Ends-put_task :
        (s : c.Store) (ts ts' : TaskState)
        → Holds k c s ts
        → Moves ts ts'
        → Ends k c P s
            (map_err from_anyhow (put_into_db k c (tasks k) ts'))
            (λ _ t. Holds k c t ts')
    Ends-put_task s ts ts' h m = record {
      steps = subst (Steps k c P s) (sym (put_last (tasks k) ts' s)) (write_moved k c s ts ts' h m);
      found = λ b q. put_Holds ts' s b q;
    }

    module _ (s : c.Store) where
      pub pull_task-Steps : Steps k c P s (pull_task k c s).1
      unfolding pull_task pull_staged map_err lift
      pull_task-Steps = Steps-bind k c s _ _ (next here (dequeued queue_key)) (λ v. here)

      module _ (h : IsSound k c s) where
        pub update_task_status-Ends :
            (r : Request UpdateTaskStatusRequest)
            → Ends k c P s (update_task_status k c r) (λ _ t.
              (ts : TaskState) × Holds k c s ts
              × (task_key k c ts ≡ id_bytes (r.message).task_id)
              × (ts.status ≡ staged)
              × Holds k c t (record ts { status = running }))
        unfolding update_task_status save_run save_moving
        update_task_status-Ends r = Ends-read k c s _ _ (Reads-get_task_state s h _) λ ts held.
            Ends-read k c s _ _ (Reads-lift _) λ t q.
              let (same, at) = restore_run_lem ts t q in
              let e = Ends-put_task s ts (save_run t) held.0 (save_run-Moves ts held.1 t q) in
              record {
                steps = e.steps;
                found =
                    λ b d. (ts, held.0, held.2, at, running_same t.state ts _ same (e.found b d));
              }

        pub update_task_result-Ends :
            (r : Request UpdateTaskResultRequest)
            → Ends k c P s (update_task_result k c r) (λ _ t.
              (ts ts' : TaskState) × Holds k c s ts
              × (task_key k c ts ≡ id_bytes (r.message).task_id)
              × (ts.status ≡ running)
              × (ts'.status ≡ finished)
              × (ts'.result ≡ (r.message).task_result)
              × Moves ts ts'
              × Holds k c t ts')
        unfolding update_task_result
        update_task_result-Ends r = Ends-read k c s _ _ (Reads-get_task_state s h _) λ ts held.
            Ends-read k c s _ _ (Reads-lift _) λ t q.
              let (_, at) = restore_finish_lem ts t q in
              Ends-bind k c s _ _
                (Ends-take_outputs _ s ts t held.0 (restore_finish-Finishing ts t held.1 q))
                λ t' s' d.
                  let m = save_finish-Moves ts t' (r.message).task_result at d.0 in
                  let e = Ends-put_task s' ts _ d.1 m in
                  record {
                    steps = e.steps;
                    found = λ b g.
                        let (p1, p2) = saved_result t' (r.message).task_result in
                        (
                          ts,
                          save_finish (update_result t' (r.message).task_result),
                          held.0,
                          held.2,
                          at,
                          p1,
                          p2,
                          m,
                          e.found b g,
                        );
                  }

        pub update_task_status-Steps :
            (r : Request UpdateTaskStatusRequest) → Steps k c P s (update_task_status k c r s).1
        update_task_status-Steps r = (update_task_status-Ends r).steps

        pub update_task_result-Steps :
            (r : Request UpdateTaskResultRequest) → Steps k c P s (update_task_result k c r s).1
        update_task_result-Steps r = (update_task_result-Ends r).steps
