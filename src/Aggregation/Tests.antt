-- ===== src/Aggregation/Tests.antt =====
-- Aggregation run on concrete rows, and the theorems about it applied there.
use argus_services.Prelude.{ℕ, ◌+ℤ◌, ◌≡◌, refl, arith, [], ◌∷◌, map}
use argus_services.Exec.{Result, ok}
use argus_services.Domain.Enums.{warning}
use argus_services.Domain.Models.{Decision}
use argus_services.World.{World, notify_warning}
use argus_services.World.Redis.{assoc_store, get_assoc, without}
use argus_services.World.Session.{allows, set_session_context, tenant_session, transaction}
use argus_services.Events.{publish_ws_event, publish_event}
use argus_services.Fixtures.{tenant, evidence_at, start, to_log, draws}
use argus_services.Aggregation.Decisions.{
  compute_state, get_evidence, get_tenant, get_decision, save_decision, is_linked, write_transition,
  new_decision, add_evidence,
}
use argus_services.Aggregation.Totals.{HasTotals}
use argus_services.Aggregation.Accounting.{aggregate-HasTotals}
use argus_services.Aggregation.Windows.{Collected, merge_or_create_decision-Collected}
use argus_services.Aggregation.Repeats.{aggregate_again, session_of}
use argus_services.Aggregation.{
  link_evidence, create_decision, load_open, find_open, close_key, open_key, start_decision,
  merge_into, merge_or_create_decision, notify_on_warning, emit_state_change,
  apply_state_transitions, load_evidence, load_tenant, aggregate_evidence, aggregate_block,
  aggregate,
}

-- One run; its line opens all that a test computes through.
run : ℕ → ℕ → World assoc_store → Result Decision × World assoc_store
unfolding aggregate aggregate_block aggregate_evidence load_tenant load_evidence
    apply_state_transitions emit_state_change notify_on_warning merge_or_create_decision merge_into
    start_decision open_key close_key find_open load_open create_decision link_evidence
    write_transition is_linked save_decision get_decision get_tenant get_evidence compute_state
    publish_event publish_ws_event transaction tenant_session set_session_context allows without
    get_assoc ◌+ℤ◌
run now id w = aggregate to_log (draws now) id w

abbrev opened : Decision
opened =
    add_evidence 1 (new_decision 1 101 (evidence_at 1 1000000000 3) tenant)
      (evidence_at 1 1000000000 3)

abbrev after_one : World assoc_store
after_one = (aggregate to_log (draws 1) 1 start).1

abbrev after_two : World assoc_store
after_two = (aggregate to_log (draws 2) 2 after_one).1

-- The first piece of evidence opens a decision, the second raises it to WARNING.
two_states : map (λ (d : Decision). d.state) after_two.db.decisions ≡ warning ∷ []
unfolding run
two_states = refl

two_tasks : after_two.tasks ≡ notify_warning 101 ∷ []
unfolding run
two_tasks = refl

aggregate-HasTotals_example : HasTotals after_two.db
unfolding run
aggregate-HasTotals_example =
    aggregate-HasTotals to_log (draws 2) 2 after_one
      (aggregate-HasTotals to_log (draws 1) 1 start tt refl) refl

merge_or_create_decision-Collected_example :
    Collected
      (session_of (evidence_at 1 1000000000 3))
      (evidence_at 1 1000000000 3)
      opened
      (merge_or_create_decision
        (session_of (evidence_at 1 1000000000 3))
        (draws 1)
        (evidence_at 1 1000000000 3)
        tenant
        start).1
unfolding run
merge_or_create_decision-Collected_example =
    merge_or_create_decision-Collected (session_of (evidence_at 1 1000000000 3)) (draws 1)
      (evidence_at 1 1000000000 3) tenant start opened refl refl

aggregate_again_example : aggregate to_log (draws 5) 1 after_one ≡ (ok opened, after_one)
unfolding run
aggregate_again_example =
    aggregate_again to_log (draws 5) 1 after_one (evidence_at 1 1000000000 3) tenant opened refl
      refl refl (refl, omega arith, refl) refl
