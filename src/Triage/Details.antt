-- ===== src/Triage/Details.antt =====
-- runtime/src/argus/api/triage/decisions.py and the models of domain/schemas/triage.py: one decision with
-- its evidence, and the URL under which a watcher plays a piece of evidence. Signing a URL is the storage's,
-- so it is a parameter here.
use text.Mathlib.Text.{starts_with}
use argus_services.Prelude.{
  ℕ, ℤ, String, Bool, ◌&&◌, ◌==◌, Option, none, some, List, [], ◌∷◌, find?, select, is_some,
  if◌then◌else◌,
}
use argus_services.Exec.{Exec, Result, ok, raised, http_exception}
use argus_services.Exec.Fallible.{◌>>=◌}
use argus_services.Domain.Enums.{DecisionState, root_admin, tenant_admin, watcher}
use argus_services.Domain.Json.{Fields}
use argus_services.Domain.Models.{Decision, DecisionEvidence, Evidence}
use argus_services.World.{World, Db}
use argus_services.World.Redis.{KeyStore}
use argus_services.World.Session.{Context, allows}
use argus_services.Auth.{AuthContext}
use argus_services.Access.{tenant_route}
use argus_services.Aggregation.Decisions.{get_decision}
use argus_services.Storage.{playback_key}

pub record EvidenceDetail : Type 0 where
  pub id : ℕ
  pub captured_at : ℕ
  pub severity_score : ℤ
  pub vlm_result : Fields
  pub playback_url : Option String

-- The route also passes an `updated_at`, which the model has no field for and drops.
pub record DecisionDetail : Type 0 where
  pub id : ℕ
  pub camera_id : ℕ
  pub region_id : Option ℕ
  pub state : DecisionState
  pub cumulative_severity : ℤ
  pub evidence_count : ℕ
  pub window_start : ℕ
  pub window_end : ℕ
  pub evidences : List EvidenceDetail

abbrev pub detail_of_evidence : Evidence → Option String → EvidenceDetail
detail_of_evidence e url = record {
  id = e.id;
  captured_at = e.captured_at;
  severity_score = e.severity_score;
  vlm_result = e.vlm_result;
  playback_url = url;
}

abbrev pub detail_of_decision : Decision → List EvidenceDetail → DecisionDetail
detail_of_decision d evidences = record {
  id = d.id;
  camera_id = d.camera_id;
  region_id = d.region_id;
  state = d.state;
  cumulative_severity = d.cumulative_severity;
  evidence_count = d.evidence_count;
  window_start = d.window_start;
  window_end = d.window_end;
  evidences = evidences;
}

-- The rows of `decision_evidences` and of `evidences` pass their policies.
abbrev pub is_visible_link : Context → ℕ → ℕ → Db → Bool
is_visible_link c decision_id evidence_id db = is_some (
    find?
      (λ (l : DecisionEvidence).
        allows c l.tenant_id && (l.decision_id == decision_id && l.evidence_id == evidence_id))
      db.links)

abbrev pub is_shown : Context → ℕ → Db → Evidence → Bool
is_shown c decision_id db e = allows c e.tenant_id && is_visible_link c decision_id e.id db

-- `decision.evidences`
abbrev pub evidences_of : Context → ℕ → Db → List Evidence
evidences_of c decision_id db = select (is_shown c decision_id db) db.evidences

-- `sign key` is `generate_presigned_get_url(key)`.
module _ (sign : String → Result String) where
  unfoldable pub playback_of : Evidence → Result (Option String)
  playback_of e =
      let signed = (do url ← sign (playback_key e.frame_storage_uri); ok (some url)) in
      if starts_with e.frame_storage_uri "s3://" then signed else ok none

  unfoldable pub evidence_details : List Evidence → Result (List EvidenceDetail)
  evidence_details [] = ok []
  evidence_details (e ∷ es) = do
    url ← playback_of e
    rest ← evidence_details es
    ok (detail_of_evidence e url ∷ rest)

  -- The route `get_decision`.
  unfoldable pub get_decision_detail : ℕ → Context → Db → Result DecisionDetail
  get_decision_detail decision_id c db = elim (get_decision c decision_id db) [
    | none ↦ raised (http_exception 404 "Decision not found")
    | some d ↦ do
      details ← evidence_details (evidences_of c d.id db)
      ok (detail_of_decision d details)
  ]

  unfoldable pub get_evidence_playback : ℕ → ℕ → Context → Db → Result String
  get_evidence_playback decision_id evidence_id c db =
      elim (find? (λ (e : Evidence). is_shown c decision_id db e && e.id == evidence_id)
        db.evidences) [
          | none ↦ raised (http_exception 404 "Evidence not found")
          | some e ↦ sign (playback_key e.frame_storage_uri)
        ]

  module _ {K : KeyStore} where
    unfoldable pub get_decision_route : ℕ → ℕ → AuthContext → Exec (World K) DecisionDetail
    get_decision_route tenant_id decision_id auth =
        tenant_route (watcher ∷ tenant_admin ∷ root_admin ∷ []) tenant_id auth
          (λ c _ w. (get_decision_detail decision_id c w.db, w))

    unfoldable pub get_playback_route : ℕ → ℕ → ℕ → AuthContext → Exec (World K) String
    get_playback_route tenant_id decision_id evidence_id auth =
        tenant_route (watcher ∷ tenant_admin ∷ root_admin ∷ []) tenant_id auth
          (λ c _ w. (get_evidence_playback decision_id evidence_id c w.db, w))
