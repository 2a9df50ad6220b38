-- ===== src/Aggregation/Transitions.antt =====
-- The state of a decision follows its totals, and every change of state is announced once.
use argus_services.Prelude.{
  ℕ, pos, ◌≤◌, ◌≤ℤ◌, ◌≡◌, ◌↔◌, refl, List, [], ◌∷◌, ◌++◌, ap, subst, sym, arith, if◌then◌else◌,
}
use argus_services.Exec.Triple.{Post, Post-always, Triple, Triple-bind}
use argus_services.Domain.Enums.{DecisionState, state_eq, normal, warning, weird}
use argus_services.Domain.Models.{Decision, Tenant}
use argus_services.World.{World, Event, Task, notify_warning}
use argus_services.World.Redis.{KeyStore}
use argus_services.Events.{
  EventSettings, Keeps, publish_ws_event, publish_event, publish_event-Keeps,
}
use argus_services.Aggregation.Decisions.{
  Draws, change_event, brief_event, compute_state, write_transition,
}
use argus_services.Aggregation.{notify_on_warning, emit_state_change}

-- How urgent a computed state is.
abbrev pub urgency : DecisionState → ℕ
urgency warning = 2
urgency weird = 1
urgency _ = 0

-- The thresholds decide: WARNING exactly from the warning threshold of severity on, otherwise WEIRD
-- exactly from the weird threshold of pieces of evidence on, and NORMAL exactly below both.
compute_state_thresholds :
    (d : Decision) (t : Tenant)
    → ((compute_state d t ≡ warning) ↔ (t.warning_threshold ≤ℤ d.cumulative_severity))
      × ((compute_state d t ≡ weird) ↔ (
          ¬ (t.warning_threshold ≤ℤ d.cumulative_severity)
          × (t.weird_threshold ≤ℤ pos d.evidence_count)))
      × ((compute_state d t ≡ normal) ↔ (
          ¬ (t.warning_threshold ≤ℤ d.cumulative_severity)
          × (¬ (t.weird_threshold ≤ℤ pos d.evidence_count))))
unfolding compute_state
compute_state_thresholds d t = ground arith

-- More evidence and no less severity never lower the urgency.
compute_state_mono :
    (d d' : Decision) (t : Tenant)
    → d.cumulative_severity ≤ℤ d'.cumulative_severity
    → d.evidence_count ≤ d'.evidence_count
    → urgency (compute_state d t) ≤ urgency (compute_state d' t)
unfolding compute_state
compute_state_mono d d' t h k = ground arith

-- The task queue after a decision has come into a state.
abbrev pub with_notice : DecisionState → ℕ → List Task → List Task
with_notice warning id tasks = tasks ++ notify_warning id ∷ []
with_notice _ id tasks = tasks

module _ {K : KeyStore} where
  abbrev pub Announced : Decision → DecisionState → DecisionState → World K → World K → Type 0
  Announced d old new w v =
      (v.db ≡ w.db)
      × (v.tasks ≡ with_notice new d.id w.tasks)
      × (v.ws_events ≡ w.ws_events ++ change_event d old new ∷ [])

  notify_tasks :
      (new : DecisionState) (id : ℕ) (v : World K)
      → (notify_on_warning new id v).1 ≡ record v { tasks = with_notice new id v.tasks }
  unfolding notify_on_warning
  notify_tasks warning id v = refl
  notify_tasks _ id v = refl

  notify-Announced :
      (d : Decision) (old new : DecisionState) (w : World K)
      → Triple
          (Keeps (publish_ws_event (change_event d old new) w).1)
          (notify_on_warning new d.id)
          (λ _. Announced d old new w)
  unfolding publish_ws_event
  notify-Announced d old new w = record {
    run = λ v h.
        Post-always (Announced d old new w) _ _
          (rw notify_tasks (h.0, ap (with_notice new d.id) h.3, h.2));
  }

  publish_ws-Triple :
      (e : Event) (w : World K)
      → Triple (λ v. v ≡ w) (publish_ws_event e) (λ _ v. v ≡ (publish_ws_event e w).1)
  unfolding publish_ws_event
  publish_ws-Triple e w = record { run = λ v same. ap (λ u. (publish_ws_event e u).1) same }

  publish-Triple :
      (S : EventSettings) (e : Event) (w : World K)
      → Triple (λ v. v ≡ w) (publish_event S e) (λ _. Keeps w)
  publish-Triple S e w = record {
    run = λ v same.
        subst (λ u. Post (λ _. Keeps w) (publish_event S e u).0 (publish_event S e u).1) (sym same)
          (publish_event-Keeps S e w);
  }

  pub emit_effects :
      (S : EventSettings) (d : Decision) (old new : DecisionState) (w : World K)
      → Post
          (λ _. Announced d old new w)
          (emit_state_change S d old new w).0
          (emit_state_change S d old new w).1
  unfolding emit_state_change
  emit_effects S d old new w =
      (Triple-bind (λ _ v. v ≡ (publish_ws_event (change_event d old new) w).1) _ _
          (publish_ws-Triple (change_event d old new) w)
          (λ _.
            Triple-bind (λ _. Keeps (publish_ws_event (change_event d old new) w).1) _ _
              (publish-Triple S (brief_event d old new) _) (λ _. notify-Announced d old new w))).run
        w refl

  -- The outcome of a transition that returns `d'`: the state that the totals give and, if that is a
  -- new one, the saved row, one audit record, one event in the tenant's room, and a notification when it
  -- is WARNING. If the state is the old one, none of these.
  abbrev pub Transition : Draws → Decision → Tenant → World K → Decision → World K → Type 0
  Transition s d t w d' w' =
      let new = compute_state d t in
      let same = state_eq new d.state in
      (d'.state ≡ new)
      × (w'.db ≡ (if same then w.db else write_transition s d new w.db))
      × (w'.tasks ≡ (if same then w.tasks else with_notice new d.id w.tasks))
      × (w'.ws_events
          ≡ (if same then w.ws_events else w.ws_events ++ change_event d d.state new ∷ []))
