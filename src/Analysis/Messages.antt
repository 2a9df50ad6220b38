-- ===== src/Analysis/Messages.antt =====
-- What a message leaves behind, and what a second delivery of it does.
use argus_services.Prelude.{
  ℕ, true, false, ◌≡◌, refl, [], ◌∷◌, ◌++◌, arith, if◌then◌else◌, Bool-cases, inl, inr, leb,
}
use argus_services.Exec.{Exn, Result, ok, raised, integrity_error}
use argus_services.Exec.Fallible.{>>=-eq-ok}
use argus_services.Domain.Models.{Evidence}
use argus_services.World.{Db, aggregate_evidence}
use argus_services.World.Redis.{KeyStore}
use argus_services.Ingestion.{IngestEvent}
use argus_services.Analysis.{
  region_of, read_mode, session_for, compute_severity_score, StreamMessage, AnalysisServices,
  StreamState, is_stored, analyzed, store_evidence, maybe_xack, queue_aggregation, store_analyzed,
  analyze_message, settle_task, analyze_ingest_message,
}

analyzed-keys :
    (S : AnalysisServices) (e : IngestEvent) (db : Db) {x : Evidence}
    → analyzed S e db ≡ ok x
    → (x.tenant_id ≡ e.tenant_id) × (x.ingestion_id ≡ e.ingestion_id)
unfolding analyzed
analyzed-keys S e db h =
    let (r, _, h1) = >>=-eq-ok (region_of e.region_id) _ h in
    let (m, _, h2) = >>=-eq-ok (read_mode e (session_for e) db) _ h1 in
    let (f, _, h3) = >>=-eq-ok (S.analyze m.lens m.rules m.feedback e.frame_uris) _ h2 in
    let (n, _, h4) = >>=-eq-ok (compute_severity_score S.values f m.rules) _ h3 in
    (ground (arith, h4), ground (arith, h4))

module _ {K : KeyStore} (S : AnalysisServices) (m : StreamMessage) where
  -- The message is done: one new row, its aggregation queued, and the message acknowledged if its id is
  -- one of a stream.
  abbrev pub Stored : Evidence → StreamState K → StreamState K → Type 0
  Stored x w v =
      (v.world.db ≡ record w.world.db { evidences = w.world.db.evidences ++ x ∷ [] })
      × (v.world.tasks ≡ w.world.tasks ++ aggregate_evidence x.id ∷ [])
      × (v.acked ≡ (if m.has_stream_id then w.acked ++ m.message_id ∷ [] else w.acked))

  store_analyzed-Stored :
      (a : Result Evidence) (w : StreamState K) {id : ℕ}
      → (store_analyzed S m a w).0 ≡ ok id
      → (x : Evidence) × (a ≡ ok x)
        × (id ≡ x.id)
        × (is_stored x.tenant_id x.ingestion_id w.world.db ≡ false)
        × Stored x w (store_analyzed S m a w).1
  unfolding store_analyzed store_evidence maybe_xack queue_aggregation
  store_analyzed-Stored (raised e) w h = cc
  store_analyzed-Stored (ok x) w h =
      elim (Bool-cases (is_stored x.tenant_id x.ingestion_id w.world.db)) [
        | inl twice ↦ (let no = rw twice at h in cc)
        | inr fresh ↦ elim (Bool-cases m.has_stream_id) [
          | inl stream ↦ elim (Bool-cases S.takes_ack) [
            | inl taken ↦
                (let k = rw (fresh, stream, taken) at h in
                  (
                    x,
                    refl,
                    ground (arith, k),
                    fresh,
                    rw fresh (rw stream (rw taken (refl, refl, refl))),
                  ))
            | inr lost ↦ (let no = rw (fresh, stream, lost) at h in cc)
          ]
          | inr other ↦
              let k = rw (fresh, other) at h in
              (x, refl, ground (arith, k), fresh, rw fresh (rw other (refl, refl, refl)))
        ]
      ]

  -- A run that returns found the message new, stored the row that the analysis gives, queued its
  -- aggregation, and acknowledged the message if its id is one of a stream.
  pub analyze_message_stores :
      (w : StreamState K) (id : ℕ)
      → (analyze_message S m w).0 ≡ ok id
      → (x : Evidence) × (analyzed S m.event w.world.db ≡ ok x)
        × (id ≡ x.id)
        × (is_stored x.tenant_id x.ingestion_id w.world.db ≡ false)
        × Stored x w (analyze_message S m w).1
  unfolding analyze_message
  analyze_message_stores w id h = store_analyzed-Stored (analyzed S m.event w.world.db) w h

  stored_twice :
      (a : Result Evidence) (w : StreamState K)
      → ((x : Evidence) → a ≡ ok x → is_stored x.tenant_id x.ingestion_id w.world.db ≡ true)
      → (e : Exn) × (store_analyzed S m a w ≡ (raised e, w))
  unfolding store_analyzed store_evidence
  stored_twice (raised e) w h = (e, refl)
  stored_twice (ok x) w h = (integrity_error "uq_evidences_tenant_ingestion", rw (h x refl) refl)

  -- Once the evidence of the ingestion is stored, whoever queued its aggregation or failed to, every run
  -- for the message raises and leaves everything as it was; at the last retry the message is put among
  -- the dead ones, and still no aggregation is queued.
  pub analyze_ingest_message_again :
      (retries : ℕ) (w : StreamState K)
      → is_stored m.event.tenant_id m.event.ingestion_id w.world.db ≡ true
      → ((analyze_ingest_message S retries m w).1.world ≡ w.world)
        × ((analyze_ingest_message S retries m w).1.dead
            ≡ (if leb 3 retries then w.dead ++ m ∷ [] else w.dead))
  unfolding analyze_ingest_message analyze_message settle_task
  analyze_ingest_message_again retries w h =
      let (e, twice) =
        stored_twice (analyzed S m.event w.world.db) w
          (λ x found. let (t, i) = analyzed-keys S m.event w.world.db found in rw t (rw i h)) in
      rw twice (elim (Bool-cases (leb 3 retries)) [
        | inl last ↦ rw last (elim (Bool-cases S.takes_ack) [
          | inl taken ↦ rw taken (refl, refl)
          | inr lost ↦ rw lost (refl, refl)
        ])
        | inr early ↦ rw early (refl, refl)
      ])
