-- ===== src/Triage/Tests.antt =====
-- A resolution and an aggregation run on concrete rows, and the theorems of triage applied there.
use Prim.Native.String
use argus_services.Prelude.{
  All, String, ℕ, zero, suc, List, length, ◌⊎◌, ◌≡◌, false, refl, pos, ◌+ℤ◌, arith, none, some, [],
  ◌∷◌,
}
use argus_services.Exec.{Result, ok, raised, service_error}
use argus_services.Domain.Json.{uuid_text}
use argus_services.Domain.Enums.{normal, watcher, resolved_false_positive, false_positive}
use argus_services.Domain.Models.{Decision}
use argus_services.World.{World, Db}
use argus_services.World.Redis.{assoc_store, get_assoc, without, decision_open}
use argus_services.World.Session.{Context, allows, set_session_context, no_context}
use argus_services.Events.{publish_ws_event, publish_event}
use argus_services.Auth.{AuthContext}
use argus_services.Fixtures.{tenant, evidence_at, two_evidences, to_log, draws}
use argus_services.Aggregation.Decisions.{
  compute_state, get_tenant, get_decision, save_decision, is_linked, new_decision, write_transition,
}
use argus_services.Aggregation.{
  link_evidence, merge_into, merge_or_create_decision, load_open, find_open, load_tenant,
  aggregate_evidence, notify_on_warning, emit_state_change, apply_state_transitions,
}
use argus_services.Storage.{after_slash, split_last}
use argus_services.Triage.Details.{
  DecisionDetail, detail_of_decision, detail_of_evidence, playback_of, evidence_details,
  get_decision_detail,
}
use argus_services.Triage.Embedding.{
  EmbeddingServices, generate_embedding, AreBytes, IsScaled, generate_embedding_made,
}
use argus_services.Triage.Playback.{Shown, get_decision_detail_shows}
use argus_services.Triage.Resolution.{Resolution, with_verdict, resolve_decision_effects}
use argus_services.Triage.Settled.{Attempt, attempt_all}
use argus_services.Triage.Versions.{status_of, resolve_once, resolve_after_evidence}
use argus_services.Triage.Reopening.{aggregate_evidence_reopens}
use argus_services.Triage.{
  ResolveDecisionRequest, ResolveDecisionResponse, ResolveDraws, check_resolvable, resolve_checked,
  resolve_decision, write_resolution, disposition_to_state, resolved_decision, has_feedback,
  is_resolved,
}

abbrev open_decision : Decision
open_decision = new_decision 1 100 (evidence_at 1 1000000000 3) tenant

abbrev stored : Decision → World assoc_store
stored d = record {
  db = record two_evidences { decisions = d ∷ [] };
  redis = (decision_open 7 3 none, uuid_text 100, 60) ∷ [];
  ws_events = [];
  app_events = [];
  tasks = [];
  sent = [];
}

abbrev request : ResolveDecisionRequest
request = record { disposition = false_positive; reasoning = "a cat"; updated_at = 1 }

abbrev fresh : ResolveDraws
fresh = record { clock = 5; now = 6; feedback_id = 300; audit_id = 301 }

abbrev jo : AuthContext
jo = record { sub = "jo"; tenant_id = some 7; role = watcher; token = "t"; camera_id = none }

abbrev session : Context
session = set_session_context no_context (some 7) (some watcher)

abbrev answer : ResolveDecisionResponse
answer = record {
  decision_id = 100;
  state = resolved_false_positive;
  resolved_at = 5;
  resolved_by = "jo";
}

abbrev verdict : Decision
verdict = resolved_decision fresh open_decision request "jo"

opens : Unit {0}
unfolding resolve_decision resolve_checked check_resolvable write_resolution disposition_to_state
    publish_ws_event publish_event get_decision save_decision allows set_session_context is_linked
    link_evidence merge_into merge_or_create_decision load_open find_open load_tenant get_tenant
    aggregate_evidence notify_on_warning emit_state_change apply_state_transitions compute_state
    write_transition ◌+ℤ◌ get_assoc without
opens = tt

abbrev after_resolution : World assoc_store
after_resolution = (resolve_decision fresh 7 100 request session jo (stored open_decision)).1

resolve_decision_effects_example :
    (d : Decision) × (get_decision session 100 (stored open_decision).db ≡ some d)
    × (d.tenant_id ≡ 7)
    × (d.updated_at ≡ 1)
    × (is_resolved d.state ≡ false)
    × (has_feedback d.id (stored open_decision).db ≡ false)
    × (get_decision session 100 after_resolution.db ≡ some (with_verdict fresh request "jo" d))
    × Resolution fresh 7 request "jo" d (stored open_decision) answer after_resolution
unfolding opens
resolve_decision_effects_example =
    resolve_decision_effects fresh 7 request 100 session jo (stored open_decision) answer refl

-- Another decision is tried in between, which is not there.
abbrev between : List Attempt
between =
    record { draws = fresh; decision_id = 101; body = request; session = session; auth = jo }
    ∷ record { draws = fresh; decision_id = 100; body = request; session = session; auth = jo }
    ∷ []

resolve_once_example :
    status_of
      (resolve_decision fresh 7 100 request session jo (attempt_all 7 between after_resolution)).0
    ≡ some 409
unfolding opens
resolve_once_example =
    resolve_once fresh fresh 7 100 request request session session jo jo between
      (stored open_decision) answer refl refl

abbrev after_linking : World assoc_store
after_linking =
    (aggregate_evidence to_log (draws 2) session (evidence_at 2 1010000000 2)
      (stored open_decision)).1

abbrev with_second : Decision
with_second = record open_decision {
  evidence_count = 1;
  cumulative_severity = pos 2;
  last_evidence_at = some 1010000000;
  updated_at = 2;
}

-- By then the task of the run has been taken.
abbrev tasks_taken : World assoc_store
tasks_taken = record after_linking { tasks = [] }

resolve_after_evidence_example :
    status_of (resolve_decision fresh 7 100 request session jo tasks_taken).0 ≡ some 409
unfolding opens
resolve_after_evidence_example =
    resolve_after_evidence to_log fresh (draws 2) 7 request session session jo open_decision
      with_second (evidence_at 2 1010000000 2) tenant (stored open_decision) tasks_taken refl refl
      refl refl (omega arith) refl refl refl refl (λ e. cc)

-- The decision that was resolved as a false positive is open again.
abbrev reopened : Decision
reopened = record verdict {
  state = normal;
  evidence_count = 1;
  cumulative_severity = pos 2;
  last_evidence_at = some 1010000000;
  updated_at = 2;
}

aggregate_evidence_reopens_example :
    ((100 ≡ verdict.id)
      × (get_decision session 100
            (aggregate_evidence to_log
              (draws 2)
              session
              (evidence_at 2 1010000000 2)
              (stored verdict)).1.db
          ≡ some reopened))
    × (is_resolved normal ≡ false)
unfolding opens
aggregate_evidence_reopens_example =
    aggregate_evidence_reopens to_log (draws 2) session (evidence_at 2 1010000000 2) tenant verdict
      reopened (stored verdict) refl refl refl (omega arith) refl

-- The decision with one linked piece of evidence, and a second piece that is not linked.
abbrev with_evidence : Db
with_evidence = record two_evidences {
  decisions = open_decision ∷ [];
  links = record { tenant_id = 7; decision_id = 100; evidence_id = 1 } ∷ [];
}

abbrev sign : String → Result String
sign key = ok (String.◌++◌ "https://storage/" key)

abbrev detail : DecisionDetail
detail =
    detail_of_decision open_decision
      (detail_of_evidence (evidence_at 1 1000000000 3) (some "https://storage/7/3/1/0.bin") ∷ [])

get_decision_detail_shows_example :
    (d : Decision) × (get_decision session 100 with_evidence ≡ some d)
    × (detail ≡ detail_of_decision d detail.evidences)
    × All (Shown sign session d.id with_evidence) detail.evidences
unfolding opens get_decision_detail evidence_details playback_of after_slash split_last
get_decision_detail_shows_example =
    get_decision_detail_shows sign session 100 with_evidence detail (refl, (refl, tt)) refl

abbrev zeros : ℕ → List ℕ
zeros zero = []
zeros (suc n) = 0 ∷ zeros n

zeros-AreBytes : (n : ℕ) → AreBytes (zeros n)
zeros-AreBytes zero = tt
zeros-AreBytes (suc n) = (omega arith, zeros-AreBytes n)

-- OpenAI does not answer.
abbrev embedding : EmbeddingServices ℕ
embedding = record {
  openai_api_key = "key";
  embed = λ text. raised (service_error "embeddings");
  digest_of = λ text. zeros 32;
  scaled = λ b. b;
}

generate_embedding_made_example :
    (v : List ℕ) × (generate_embedding embedding "a cat" ≡ ok v)
    × ((raised (service_error "embeddings") ≡ ok v)
        ⊎ ((length v ≡ 1536) × All (IsScaled embedding) v))
generate_embedding_made_example = generate_embedding_made embedding "a cat" refl (zeros-AreBytes 32)
