-- ===== src/Analysis.antt =====
-- runtime/src/argus/workers/vlm_analyzer.py and services/lens_builder.py: one message of the ingest
-- stream becomes one piece of evidence. A message is taken as parsed (`_parse_stream_fields` and the
-- texts of its ids are left out), and a prompt as what it is built from. The model that analyses the
-- frames, floats, and the comparison of unlike values are parameters.
pub mod Scores
pub mod Severity
pub mod Messages
pub mod Attempts
pub mod Batches
pub mod Prompts
pub mod Wired
mod Tests
unfoldable pub use Scores.*
use argus_services.Prelude.{
  ℕ, ℤ, pos, ◌+ℤ◌, leb_ℤ, leb, String, Bool, true, false, ◌&&◌, ◌||◌, ◌==◌, str_eq, Option, none,
  some, List, [], ◌∷◌, ◌++◌, find?, select, order_desc, take, is_some, if◌then◌else◌,
}
use argus_services.Exec
use argus_services.Exec.{Exec, Result, ok, raised, value_error, integrity_error, service_error}
use argus_services.Exec.Fallible.{◌>>=◌, ◌>>◌}
use argus_services.Domain.Enums.{tenant_admin, FeedbackDisposition, false_positive}
use argus_services.Domain.Json.{
  Json, null, bool, int, float, str, Fields, get_field, Text, uuid_text, plain,
}
use argus_services.Domain.Models.{Evidence, Lens, Rule, Feedback, Decision}
use argus_services.World.{World, Db, aggregate_evidence}
use argus_services.World.Redis.{KeyStore}
use argus_services.World.Session.{Context, allows, no_context, set_session_context}
use argus_services.Auth.{truthy, get_or_default}
use argus_services.Ingestion.{IngestEvent}

-- The newest lens of the mode.
unfoldable pub latest_lens : List Lens → Option Lens
latest_lens [] = none
latest_lens (x ∷ xs) = elim (latest_lens xs) [
  | none ↦ some x
  | some y ↦ if leb_ℤ y.version x.version then some x else some y
]

unfoldable pub find_lens : Context → ℕ → ℕ → Db → Option Lens
find_lens c tenant_id mode db = latest_lens (
    select
      (λ (x : Lens).
        allows c x.tenant_id && (x.context_mode_id == mode && x.tenant_id == tenant_id))
      db.lenses)

unfoldable pub find_rules : Context → ℕ → ℕ → Db → List Rule
find_rules c tenant_id mode db =
    select
      (λ (x : Rule).
        allows c x.tenant_id && (x.context_mode_id == mode && x.tenant_id == tenant_id))
      db.rules

abbrev pub is_false_positive : FeedbackDisposition → Bool
is_false_positive false_positive = true
is_false_positive _ = false

-- `retrieve_rag_feedback` without an embedding, which is how it is called.
unfoldable pub retrieve_rag_feedback : Context → ℕ → ℕ → Db → List Feedback
retrieve_rag_feedback c tenant_id camera_id db = take 5 (
    order_desc (λ (x : Feedback). x.created_at)
      (select
        (λ (x : Feedback).
          allows c x.tenant_id
          && (x.tenant_id == tenant_id
              && is_false_positive x.disposition
              && is_some (
                  find?
                    (λ (d : Decision).
                      allows c d.tenant_id && (d.id == x.decision_id && d.camera_id == camera_id))
                    db.decisions)))
        db.feedback))

-- A message of the stream; `has_stream_id` is the test of `_maybe_xack` on its id.
pub record StreamMessage : Type 0 where
  pub message_id : String
  pub has_stream_id : Bool
  pub event : IngestEvent

-- What one run is given from outside.
pub record AnalysisServices : Type 0 where
  pub values : PyValues
  pub analyze : Lens → List Rule → List Feedback → List String → Result Fields
  pub takes_ack : Bool
  pub evidence_id : ℕ

pub record StreamState (K : KeyStore) : Type 0 where
  pub world : World K
  pub acked : List String
  pub dead : List StreamMessage

abbrev pub region_of : Text → Result (Option ℕ)
region_of (uuid_text r) = ok (some r)
region_of (plain s) = if str_eq s "" then ok none else raised (value_error "badly formed UUID")

abbrev first_uri : List String → String
first_uri [] = ""
first_uri (u ∷ us) = u

abbrev pub evidence_of : ℕ → IngestEvent → Option ℕ → Fields → ℤ → Evidence
evidence_of id e region_id r score = record {
  id = id;
  tenant_id = e.tenant_id;
  camera_id = e.camera_id;
  region_id = region_id;
  context_mode_id = e.context_mode_id;
  captured_at = e.captured_at;
  vlm_result = r;
  severity_score = score;
  frame_storage_uri = first_uri e.frame_uris;
  ingestion_id = e.ingestion_id;
}

-- The unique constraint on tenant and ingestion.
abbrev pub is_stored : ℕ → ℕ → Db → Bool
is_stored tenant_id ingestion_id db = is_some (
    find? (λ (x : Evidence). x.tenant_id == tenant_id && x.ingestion_id == ingestion_id)
      db.evidences)

pub record Mode : Type 0 where
  pub lens : Lens
  pub rules : List Rule
  pub feedback : List Feedback

-- What the first session reads.
unfoldable pub read_mode : IngestEvent → Context → Db → Result Mode
read_mode e c db = elim (find_lens c e.tenant_id e.context_mode_id db) [
  | none ↦ raised (value_error "No lens configured for context mode")
  | some lens ↦ ok (record {
    lens = lens;
    rules = find_rules c e.tenant_id e.context_mode_id db;
    feedback = retrieve_rag_feedback c e.tenant_id e.camera_id db;
  })
]

abbrev pub session_for : IngestEvent → Context
session_for e = set_session_context no_context (some e.tenant_id) (some tenant_admin)

-- All that is computed before the second session: the new row.
unfoldable pub analyzed : AnalysisServices → IngestEvent → Db → Result Evidence
analyzed S e db = do
  region_id ← region_of e.region_id
  mode ← read_mode e (session_for e) db
  r ← S.analyze mode.lens mode.rules mode.feedback e.frame_uris
  score ← compute_severity_score S.values r mode.rules
  ok (evidence_of S.evidence_id e region_id r score)

module _ {K : KeyStore} where
  abbrev on_world : (World K → World K) → StreamState K → StreamState K
  on_world f w = record w { world = f w.world }

  -- The second session, which holds one insert.
  unfoldable pub store_evidence : Evidence → Exec (StreamState K) (Unit {0})
  store_evidence x w =
      if is_stored x.tenant_id x.ingestion_id w.world.db
      then (raised (integrity_error "uq_evidences_tenant_ingestion"), w)
      else (
        ok tt,
        on_world (λ v. record v { db = record v.db { evidences = v.db.evidences ++ x ∷ [] } }) w,
      )

  unfoldable pub maybe_xack : AnalysisServices → StreamMessage → Exec (StreamState K) (Unit {0})
  maybe_xack S m w =
      if m.has_stream_id
      then (if S.takes_ack
          then (ok tt, record w { acked = w.acked ++ m.message_id ∷ [] })
          else (raised (service_error "xack"), w))
      else (ok tt, w)

  unfoldable pub queue_aggregation : Evidence → Exec (StreamState K) ℕ
  queue_aggregation x w =
      (ok x.id, on_world (λ v. record v { tasks = v.tasks ++ aggregate_evidence x.id ∷ [] }) w)

  unfoldable pub store_analyzed :
      AnalysisServices → StreamMessage → Result Evidence → Exec (StreamState K) ℕ
  store_analyzed S m (raised e) w = (raised e, w)
  store_analyzed S m (ok x) w =
      (Exec.◌>>◌ (store_evidence x) (Exec.◌>>◌ (maybe_xack S m) (queue_aggregation x))) w

  -- `_analyze_message`
  unfoldable pub analyze_message : AnalysisServices → StreamMessage → Exec (StreamState K) ℕ
  analyze_message S m w = store_analyzed S m (analyzed S m.event w.world.db) w

  unfoldable pub settle_task :
      AnalysisServices → ℕ → StreamMessage → Result ℕ → Exec (StreamState K) (Option ℕ)
  settle_task S retries m (ok id) w = (ok (some id), w)
  settle_task S retries m (raised e) w =
      if leb 3 retries
      then (if S.takes_ack
          then (ok none, record w { acked = w.acked ++ m.message_id ∷ []; dead = w.dead ++ m ∷ [] })
          else (raised (service_error "xack"), record w { dead = w.dead ++ m ∷ [] }))
      else (raised e, w)

  -- The task, at its first run or at a retry.
  unfoldable pub analyze_ingest_message :
      AnalysisServices → ℕ → StreamMessage → Exec (StreamState K) (Option ℕ)
  analyze_ingest_message S retries m w =
      settle_task S retries m (analyze_message S m w).0 (analyze_message S m w).1
