-- ===== src/Audit.antt =====
-- runtime/src/argus/services/audit.py with those who write its records: what the trail of a decision
-- says of its state, apart from the decision's own row.
pub mod Aggregating
pub mod Resolving
pub mod Operations
mod Tests
use argus_services.Prelude.{
  ℕ, Bool, true, false, ◌==◌, ◌≡◌, refl, Option, none, some, List, [], ◌∷◌, ◌++◌, All, count,
  if◌then◌else◌, arith,
}
use argus_services.Domain.Enums.{DecisionState, normal, state_eq}
use argus_services.Domain.Models.{Decision, AuditRecord, AuditPayload, state_change, resolved}
use argus_services.World.{Db}
use argus_services.Triage.{disposition_to_state, is_resolved}

-- The state that a record leads to: a change says which state it is a change of, and only an unresolved
-- decision is resolved.
unfoldable pub follow : AuditPayload → DecisionState → Option DecisionState
follow (state_change old new n severity) s = if state_eq old s then some new else none
follow (resolved disposition reasoning) s =
    if is_resolved s then none else some (disposition_to_state disposition)

abbrev pub after : AuditPayload → Option DecisionState → Option DecisionState
after p none = none
after p (some s) = follow p s

-- The records of a decision, followed in their order.
unfoldable pub replay : ℕ → List AuditRecord → Option DecisionState → Option DecisionState
replay id [] s = s
replay id (r ∷ rest) s = replay id rest (if r.decision_id == id then after r.payload s else s)

-- The trail of a decision starts at NORMAL and ends in the state of its row.
abbrev pub IsTrailed : List AuditRecord → Decision → Type 0
IsTrailed audit d = replay d.id audit (some normal) ≡ some d.state

abbrev pub HasTrails : Db → Type 0
HasTrails db = All (IsTrailed db.audit) db.decisions

abbrev pub records_of : ℕ → List AuditRecord → ℕ
records_of id = count (λ r. r.decision_id == id)

pub replay-append :
    (id : ℕ) (rs : List AuditRecord) (r : AuditRecord) (s : Option DecisionState)
    → replay id (rs ++ r ∷ []) s
      ≡ (if r.decision_id == id then after r.payload (replay id rs s) else replay id rs s)
unfolding replay
replay-append id [] r s = refl
replay-append id (x ∷ rs) r s = replay-append id rs r _

pub replay_none_of :
    (id : ℕ) (rs : List AuditRecord) (s : Option DecisionState)
    → records_of id rs ≡ 0
    → replay id rs s ≡ s
unfolding replay
replay_none_of id [] s h = refl
replay_none_of id (x ∷ rs) s h = ground (arith, h, replay_none_of id rs s)
