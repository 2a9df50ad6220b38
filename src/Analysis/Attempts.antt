-- ===== src/Analysis/Attempts.antt =====
-- runtime/src/argus/workers/vlm_analyzer.py, the retries of one message: Celery runs the task again
-- when a run of it raised, with one more retry. How many runs that can be follows from the task itself.
use argus_services.Prelude.{
  ℕ, zero, suc, ◌+◌, ◌≤◌, ◌≡◌, refl, ap, true, false, Option, none, some, [], ◌∷◌, ◌++◌, arith,
  Bool-cases, inl, inr, ◌⊎◌, leb,
}
use argus_services.Exec.{Exn, Result, ok, raised}
use argus_services.Domain.Models.{Evidence}
use argus_services.World.Redis.{KeyStore}
use argus_services.Analysis.{
  StreamMessage, AnalysisServices, StreamState, is_stored, analyzed, store_evidence, maybe_xack,
  queue_aggregation, store_analyzed, analyze_message, settle_task, analyze_ingest_message,
}
use argus_services.Analysis.Messages.{Stored, analyze_message_stores}

takes_last :
    (services : ℕ → AnalysisServices) {r : ℕ}
    → (services 3).takes_ack ≡ true
    → r ≡ 3
    → (services r).takes_ack ≡ true
takes_last services takes n = rw n takes

takes_at :
    (services : ℕ → AnalysisServices) (r : ℕ)
    → (services 3).takes_ack ≡ true
    → r ≤ 3
    → leb 3 r ≡ true
    → (services r).takes_ack ≡ true
takes_at services r takes most h = takes_last services takes (ground (arith, h, most))

-- `services r` is what the run with `r` retries behind it is given from outside.
module _ {K : KeyStore} (services : ℕ → AnalysisServices) (m : StreamMessage) where
  abbrev pub task_run : ℕ → StreamState K → Result (Option ℕ) × StreamState K
  task_run r w = analyze_ingest_message (services r) r m w

  -- The runs of one delivery that starts at `start`: the state that the run `r` finds.
  pub data Attempts (start : StreamState K) : ℕ → StreamState K → Type 0 where
    first_run : Attempts start 0 start
    next_run :
        {r : ℕ} {w : StreamState K} {e : Exn}
        → Attempts start r w
        → (task_run r w).0 ≡ raised e
        → Attempts start (r + 1) (task_run r w).1

  abbrev FinishedBy : Result (Option ℕ) × StreamState K → ℕ → StreamState K → Type 0
  FinishedBy t r w = (x : Evidence) × (t.0 ≡ ok (some x.id)) × Stored (services r) m x w t.1

  abbrev BuriedBy : Result (Option ℕ) × StreamState K → StreamState K → Type 0
  BuriedBy t w =
      (t.0 ≡ ok none) × (t.1.acked ≡ w.acked ++ m.message_id ∷ []) × (t.1.dead ≡ w.dead ++ m ∷ [])

  abbrev pub DoneBy : Result (Option ℕ) × StreamState K → ℕ → StreamState K → Type 0
  DoneBy t r w = FinishedBy t r w ⊎ BuriedBy t w

  abbrev pub Done : ℕ → StreamState K → Type 0
  Done r w = DoneBy (task_run r w) r w

  abbrev pub Ends : StreamState K → Type 0
  Ends start = (r : ℕ) × (w : StreamState K) × Attempts start r w × (r ≤ 3) × Done r w

  -- A run that raises has acknowledged nothing.
  store_analyzed-raised :
      (S : AnalysisServices) (a : Result Evidence) (w : StreamState K) {e : Exn}
      → (store_analyzed S m a w).0 ≡ raised e
      → ((store_analyzed S m a w).1.acked ≡ w.acked) × ((store_analyzed S m a w).1.dead ≡ w.dead)
  unfolding store_analyzed store_evidence maybe_xack queue_aggregation
  store_analyzed-raised S (raised x) w h = (refl, refl)
  store_analyzed-raised S (ok x) w h =
      elim (Bool-cases (is_stored x.tenant_id x.ingestion_id w.world.db)) [
        | inl twice ↦ rw twice (refl, refl)
        | inr fresh ↦ elim (Bool-cases m.has_stream_id) [
          | inl stream ↦ elim (Bool-cases S.takes_ack) [
            | inl taken ↦ (let no = rw (fresh, stream, taken) at h in cc)
            | inr lost ↦ rw (fresh, stream, lost) (refl, refl)
          ]
          | inr other ↦ (let no = rw (fresh, other) at h in cc)
        ]
      ]

  settle_task-cases :
      (r : ℕ) (a : Result ℕ) (w v : StreamState K)
      → (leb 3 r ≡ true → (services r).takes_ack ≡ true)
      → ((e : Exn) → a ≡ raised e → (v.acked ≡ w.acked) × (v.dead ≡ w.dead))
      → ((id : ℕ) → a ≡ ok id → (x : Evidence) × (id ≡ x.id) × Stored (services r) m x w v)
      → (DoneBy (settle_task (services r) r m a v) r w)
        ⊎ ((e : Exn) × ((settle_task (services r) r m a v).0 ≡ raised e) × (leb 3 r ≡ false))
  unfolding settle_task
  settle_task-cases r (ok id) w v takes same stored =
      let (x, i, h) = stored id refl in inl (inl (x, ap (λ n. ok (some n)) i, h))
  settle_task-cases r (raised e) w v takes same stored = elim (Bool-cases (leb 3 r)) [
    | inl last ↦
        let (acked, dead) = same e refl in
        rw (last, takes last)
          (inl (inr (refl, ap (λ l. l ++ m.message_id ∷ []) acked, ap (λ l. l ++ m ∷ []) dead)))
    | inr early ↦ rw early (inr (e, refl, refl))
  ]

  -- A run is done with the message, or it raises with fewer than three retries behind it.
  run-cases :
      (r : ℕ) (w : StreamState K)
      → (leb 3 r ≡ true → (services r).takes_ack ≡ true)
      → Done r w ⊎ ((e : Exn) × ((task_run r w).0 ≡ raised e) × (leb 3 r ≡ false))
  unfolding analyze_ingest_message analyze_message
  run-cases r w takes =
      settle_task-cases r (analyze_message (services r) m w).0 w
        (analyze_message (services r) m w).1 takes raises stores
    where
      raises :
          (e : Exn)
          → (analyze_message (services r) m w).0 ≡ raised e
          → ((analyze_message (services r) m w).1.acked ≡ w.acked)
            × ((analyze_message (services r) m w).1.dead ≡ w.dead)
      raises e h = store_analyzed-raised (services r) (analyzed (services r) m.event w.world.db) w h

      stores :
          (id : ℕ)
          → (analyze_message (services r) m w).0 ≡ ok id
          → (x : Evidence) × (id ≡ x.id)
            × Stored (services r) m x w (analyze_message (services r) m w).1
      stores id h = let (x, _, i, _, s) = analyze_message_stores (services r) m w id h in (x, i, s)

  finds_an_end :
      (left r : ℕ) (start w : StreamState K)
      → left + r ≡ 3
      → (services 3).takes_ack ≡ true
      → Attempts start r w
      → Ends start
  finds_an_end zero r start w n takes runs =
      elim (run-cases r w (λ _. takes_last services takes (omega arith))) [
        | inl done ↦ (r, w, runs, omega arith, done)
        | inr (e, fails, early) ↦ absurd (ground (arith, early))
      ]
  finds_an_end (suc left) r start w n takes runs =
      elim (run-cases r w (λ h. absurd (ground (arith, h)))) [
        | inl done ↦ (r, w, runs, omega arith, done)
        | inr (e, fails, early) ↦
            finds_an_end left (r + 1) start (task_run r w).1 (omega arith) takes
              (next_run runs fails)
      ]

  -- When Redis takes the acknowledgement of the run with three retries behind it, there is a run, at most the
  -- fourth, that returns: it has stored the evidence of the message, queued its aggregation and acknowledged
  -- it if its id is one of a stream, or it has acknowledged the message and put it among the dead ones.
  pub attempts_end : (start : StreamState K) → (services 3).takes_ack ≡ true → Ends start
  attempts_end start takes = finds_an_end 3 0 start start (omega arith) takes first_run

  -- When Redis takes the acknowledgement of the run with three retries behind it, there is no fifth run,
  -- whatever the services do.
  pub attempts_at_most_four :
      (start w : StreamState K) (r : ℕ) → (services 3).takes_ack ≡ true → Attempts start r w → r ≤ 3
  attempts_at_most_four start w r takes first_run = omega arith
  attempts_at_most_four start w r takes (next_run {r = r'} {w = w'} {e} before fails) =
      elim (run-cases r' w'
        (takes_at services r' takes (attempts_at_most_four start w' r' takes before))) [
          | inl (inl (x, returns, _)) ↦ (let no = rw returns at fails in cc)
          | inl (inr (returns, _, _)) ↦ (let no = rw returns at fails in cc)
          | inr (_, _, early) ↦ ground (arith, early)
        ]
