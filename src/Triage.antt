-- ===== src/Triage.antt =====
-- runtime/src/argus/api/triage/decisions.py and the models of domain/schemas/triage.py: a watcher
-- lists the decisions of a tenant and resolves one. The rows of feedback are without their embedding,
-- which stands in Embedding. The test `reasoning.strip()` is a parameter.
pub mod Resolution
pub mod Settled
pub mod Versions
pub mod Reopening
pub mod Details
pub mod Playback
pub mod Embedding
mod Tests
use argus_services.Prelude.{
  ℕ, String, Bool, true, false, not, ◌&&◌, ◌||◌, ◌==◌, Option, none, some, [], ◌∷◌, ◌++◌, List,
  str_eq, find?, select, order_desc, is_some, if◌then◌else◌,
}
use argus_services.Exec.{
  Exec, Exn, Result, ok, raised, http_exception, value_error, integrity_error, pure, raise, modify,
  ◌>>=◌, ◌>>◌,
}
use argus_services.Domain.Enums.{
  UserRole, root_admin, tenant_admin, watcher, DecisionState, normal, weird, warning,
  resolved_true_positive, resolved_false_positive, resolved_false_negative, FeedbackDisposition,
  true_positive, false_positive, false_negative, disposition_value, state_of_value, state_eq,
}
use argus_services.Domain.Models.{Decision, Feedback, AuditRecord, resolved}
use argus_services.World.{World, Db, Event}
use argus_services.World
use argus_services.World.Redis.{KeyStore}
use argus_services.World.Session.{Context, allows}
use argus_services.Events.{publish_ws_event}
use argus_services.Auth.{AuthContext}
use argus_services.Access.{tenant_route}
use argus_services.Aggregation.Decisions.{get_decision, save_decision}

pub record ResolveDecisionRequest : Type 0 where
  pub disposition : FeedbackDisposition
  pub reasoning : String
  pub updated_at : ℕ

pub record ResolveDecisionResponse : Type 0 where
  pub decision_id : ℕ
  pub state : DecisionState
  pub resolved_at : ℕ
  pub resolved_by : String

-- `require_reasoning_for_fp_fn`; `is_blank` is `not reasoning.strip()`. A `ValueError` becomes a 422.
unfoldable pub validate_request :
    (String → Bool) → ResolveDecisionRequest → Result ResolveDecisionRequest
validate_request is_blank r = elim r.disposition [
  | true_positive ↦ ok r
  | _ ↦
      if is_blank r.reasoning
      then raised (value_error "reasoning required for false_positive/false_negative")
      else ok r
]

unfoldable pub disposition_to_state : FeedbackDisposition → DecisionState
disposition_to_state true_positive = resolved_true_positive
disposition_to_state false_positive = resolved_false_positive
disposition_to_state false_negative = resolved_false_negative

abbrev pub is_resolved : DecisionState → Bool
is_resolved resolved_true_positive = true
is_resolved resolved_false_positive = true
is_resolved resolved_false_negative = true
is_resolved _ = false

-- `datetime.now`, the `now()` of the transaction, and the ids of the new rows.
pub record ResolveDraws : Type 0 where
  pub clock : ℕ
  pub now : ℕ
  pub feedback_id : ℕ
  pub audit_id : ℕ

abbrev pub or_value : String → FeedbackDisposition → String
or_value reasoning d = if str_eq reasoning "" then disposition_value d else reasoning

abbrev pub feedback_of : ResolveDraws → ℕ → Decision → ResolveDecisionRequest → String → Feedback
feedback_of s tenant_id d body sub = record {
  id = s.feedback_id;
  tenant_id = tenant_id;
  decision_id = d.id;
  disposition = body.disposition;
  reasoning = or_value body.reasoning body.disposition;
  submitted_by = sub;
  created_at = s.now;
}

abbrev pub resolution_record :
    ResolveDraws → Decision → ResolveDecisionRequest → String → AuditRecord
resolution_record s d body sub = record {
  id = s.audit_id;
  tenant_id = d.tenant_id;
  decision_id = d.id;
  event_type = "resolved";
  payload = resolved body.disposition body.reasoning;
  actor = some sub;
}

abbrev pub resolved_decision : ResolveDraws → Decision → ResolveDecisionRequest → String → Decision
resolved_decision s d body sub = record d {
  state = disposition_to_state body.disposition;
  resolved_at = some s.clock;
  resolved_by = some sub;
  updated_at = s.now;
}

unfoldable pub write_resolution :
    ResolveDraws → ℕ → Decision → ResolveDecisionRequest → String → Db → Db
write_resolution s tenant_id d body sub db =
    save_decision (resolved_decision s d body sub) (record db {
      feedback = db.feedback ++ feedback_of s tenant_id d body sub ∷ [];
      audit = db.audit ++ resolution_record s d body sub ∷ [];
    })

-- `feedback.decision_id` is unique.
abbrev pub has_feedback : ℕ → Db → Bool
has_feedback decision_id db =
    is_some (find? (λ (f : Feedback). f.decision_id == decision_id) db.feedback)

-- The checks of `resolve_decision`, in the order of the code.
unfoldable pub check_resolvable : ℕ → ResolveDecisionRequest → Option Decision → Result Decision
check_resolvable tenant_id body none = raised (http_exception 404 "Decision not found")
check_resolvable tenant_id body (some d) =
    if not (d.tenant_id == tenant_id)
    then raised (http_exception 404 "Decision not found")
    else if not (d.updated_at == body.updated_at)
    then raised (http_exception 409 "Decision was updated by another watcher")
    else if is_resolved d.state
    then raised (http_exception 409 "Decision already resolved")
    else ok d

module _ {K : KeyStore} where
  -- The writes, the event and the response.
  unfoldable pub resolve_checked :
      ResolveDraws
      → ℕ
      → ResolveDecisionRequest
      → String
      → Result Decision
      → Exec (World K) ResolveDecisionResponse
  resolve_checked s tenant_id body sub (raised e) w = (raised e, w)
  resolve_checked s tenant_id body sub (ok d) w =
      if has_feedback d.id w.db then (raised (integrity_error "feedback_decision_id_key"), w) else (
        ok (record {
          decision_id = d.id;
          state = disposition_to_state body.disposition;
          resolved_at = s.clock;
          resolved_by = sub;
        }),
        (publish_ws_event
            (record {
              tenant_id = tenant_id;
              event_type = "decision.resolved";
              payload = World.resolved d.id (disposition_to_state body.disposition) sub s.clock;
            })
            (record w { db = write_resolution s tenant_id d body sub w.db })).1,
      )

  unfoldable pub resolve_decision :
      ResolveDraws
      → ℕ
      → ℕ
      → ResolveDecisionRequest
      → Context
      → AuthContext
      → Exec (World K) ResolveDecisionResponse
  resolve_decision s tenant_id decision_id body c auth w =
      resolve_checked s tenant_id body auth.sub
        (check_resolvable tenant_id body (get_decision c decision_id w.db)) w

  -- The route: its roles, its tenant and its transaction.
  unfoldable pub resolve_route :
      ResolveDraws
      → ℕ
      → ℕ
      → ResolveDecisionRequest
      → AuthContext
      → Exec (World K) ResolveDecisionResponse
  resolve_route s tenant_id decision_id body auth =
      tenant_route (watcher ∷ tenant_admin ∷ []) tenant_id auth
        (resolve_decision s tenant_id decision_id body)

-- The WHERE clause of `list_decisions`; an unknown state is the `ValueError` of `DecisionState(state)`.
unfoldable pub state_filter : Option String → Result (DecisionState → Bool)
state_filter none = ok (λ _. true)
state_filter (some state) =
    if str_eq state ""
    then ok (λ _. true)
    else if str_eq state "resolved"
    then ok is_resolved
    else elim (state_of_value state) [
      | none ↦ raised (value_error "not a valid DecisionState")
      | some s ↦ ok (λ x. state_eq x s)
    ]

-- The visible rows that pass the filter, the last updated first.
unfoldable pub list_decisions : Option String → Context → Db → Result (List Decision)
list_decisions state c db = elim (state_filter state) [
  | raised e ↦ raised e
  | ok p ↦ ok (
      order_desc (λ (d : Decision). d.updated_at)
        (select (λ (d : Decision). allows c d.tenant_id && p d.state) db.decisions))
]
