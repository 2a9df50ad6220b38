-- ===== src/Aggregation/Decisions.antt =====
-- The decisions of runtime/src/argus/services/aggregation.py: reading them under the policies of a
-- session, the totals that a piece of evidence adds to, the state that the totals give.
use argus_services.Prelude.{
  ℕ, pos, ◌+◌, ◌*◌, ◌+ℤ◌, leb_ℤ, ◌==◌, ◌&&◌, Bool, Option, none, some, [], ◌∷◌, ◌++◌, find?, update,
  is_some, if◌then◌else◌,
}
use argus_services.Domain.Enums.{DecisionState, normal, weird, warning}
use argus_services.Domain.Models.{
  Tenant, Evidence, Decision, DecisionEvidence, AuditRecord, state_change,
}
use argus_services.World.{Db, Event, state_changed, state_changed_brief}
use argus_services.World.Session.{Context, allows}

-- `timedelta(seconds=n)` in microseconds.
abbrev pub seconds : ℕ → ℕ
seconds n = n * 1000000

unfoldable pub compute_state : Decision → Tenant → DecisionState
compute_state d t =
    if leb_ℤ t.warning_threshold d.cumulative_severity
    then warning
    else if leb_ℤ t.weird_threshold (pos d.evidence_count)
    then weird
    else normal

-- `session.get(...)` under the policies of the session.
unfoldable pub get_evidence : Context → ℕ → Db → Option Evidence
get_evidence c id db = find? (λ e. allows c e.tenant_id && (e.id == id)) db.evidences

unfoldable pub get_tenant : Context → ℕ → Db → Option Tenant
get_tenant c id db = find? (λ t. allows c t.id && (t.id == id)) db.tenants

unfoldable pub get_decision : Context → ℕ → Db → Option Decision
get_decision c id db = find? (λ d. allows c d.tenant_id && (d.id == id)) db.decisions

-- The flush of a changed decision: an UPDATE by primary key.
unfoldable pub save_decision : Decision → Db → Db
save_decision d db = record db {
  decisions = update (λ (x : Decision). x.id == d.id) (λ _. d) db.decisions;
}

abbrev pub new_decision : ℕ → ℕ → Evidence → Tenant → Decision
new_decision now new_id e t = record {
  id = new_id;
  tenant_id = e.tenant_id;
  camera_id = e.camera_id;
  region_id = e.region_id;
  state = normal;
  cumulative_severity = pos 0;
  evidence_count = 0;
  window_start = e.captured_at;
  window_end = e.captured_at + seconds t.aggregation_window_secs;
  first_evidence_at = some e.captured_at;
  last_evidence_at = some e.captured_at;
  resolved_at = none;
  resolved_by = none;
  updated_at = now;
}

-- What one run draws from outside: the transaction's `now()` and the `uuid4()` of its new rows.
pub record Draws : Type 0 where
  pub now : ℕ
  pub decision_id : ℕ
  pub audit_id : ℕ

unfoldable pub is_linked : Context → Decision → Evidence → Db → Bool
is_linked c d e db =
    is_some (
      find? (λ l. allows c l.tenant_id && (l.decision_id == d.id && l.evidence_id == e.id))
        db.links)

abbrev pub link_of : Decision → Evidence → DecisionEvidence
link_of d e = record { tenant_id = e.tenant_id; decision_id = d.id; evidence_id = e.id }

-- `decision.evidence_count += 1` and the assignments after it, with the column that the UPDATE sets.
abbrev pub add_evidence : ℕ → Decision → Evidence → Decision
add_evidence now d e = record d {
  evidence_count = d.evidence_count + 1;
  cumulative_severity = d.cumulative_severity +ℤ e.severity_score;
  last_evidence_at = some e.captured_at;
  first_evidence_at = elim d.first_evidence_at [ none ↦ some e.captured_at | some t ↦ some t ];
  updated_at = now;
}

abbrev pub change_record : Draws → Decision → DecisionState → AuditRecord
change_record s d new = record {
  id = s.audit_id;
  tenant_id = d.tenant_id;
  decision_id = d.id;
  event_type = "state_change";
  payload = state_change d.state new d.evidence_count d.cumulative_severity;
  actor = some "worker-aggregator";
}

-- The new state and the audit record of the change (audit.py).
unfoldable pub write_transition : Draws → Decision → DecisionState → Db → Db
write_transition s d new db =
    save_decision (record d { state = new; updated_at = s.now })
      (record db { audit = db.audit ++ change_record s d new ∷ [] })

-- The two payloads of `_emit_state_change`.
abbrev pub change_event : Decision → DecisionState → DecisionState → Event
change_event d old new = record {
  tenant_id = d.tenant_id;
  event_type = "decision.state_changed";
  payload =
      state_changed d.id d.camera_id d.region_id old new d.cumulative_severity d.evidence_count;
}

abbrev pub brief_event : Decision → DecisionState → DecisionState → Event
brief_event d old new = record {
  tenant_id = d.tenant_id;
  event_type = "decision.state_changed";
  payload = state_changed_brief d.id new old;
}
