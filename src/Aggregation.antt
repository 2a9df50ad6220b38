-- ===== src/Aggregation.antt =====
-- runtime/src/argus/services/aggregation.py: evidence is collected in decisions, one open decision
-- for a camera and region at a time, and the decision's state follows its totals. The UUIDs of new
-- rows and the time of the transaction are arguments.
pub mod Decisions
pub mod Saving
pub mod Totals
pub mod Preserving
pub mod Accounting
pub mod Transitions
pub mod Windows
pub mod Repeats
mod Tests
use argus_services.Prelude.{ℕ, ◌+◌, leb, String, Option, none, some, [], ◌∷◌, ◌++◌, if◌then◌else◌}
use argus_services.Exec.{Exec, ok, raised, value_error, pure, raise, modify, ◌>>=◌, ◌>>◌}
use argus_services.Domain.Enums.{root_admin, tenant_admin, DecisionState, warning, state_eq}
use argus_services.Domain.Json.{Text, uuid_text, truthy, parse_uuid}
use argus_services.Domain.Models.{Tenant, Evidence, Decision}
use argus_services.World.{World, Db, notify_warning}
use argus_services.World.Redis.{KeyStore, decision_open}
use argus_services.World.Session.{Context, set_session_context, tenant_session}
use argus_services.Events.{EventSettings, publish_ws_event, publish_event}
use Decisions.{
  Draws, compute_state, get_evidence, get_tenant, get_decision, save_decision, new_decision,
  is_linked, change_event, brief_event, link_of, add_evidence, write_transition,
}

module _ {K : KeyStore} where
  abbrev pub on_db : (Db → Db) → Exec (World K) Unit
  on_db f = modify (λ w. record w { db = f w.db })

  unfoldable pub link_evidence : Context → Draws → Decision → Evidence → Exec (World K) Decision
  link_evidence c s d e w = if is_linked c d e w.db then (ok d, w) else (
    ok (add_evidence s.now d e),
    record w {
      db =
          save_decision (add_evidence s.now d e)
            (record w.db { links = w.db.links ++ link_of d e ∷ [] });
    },
  )

  unfoldable pub create_decision : Draws → Evidence → Tenant → Exec (World K) Decision
  create_decision s e t w = (
    ok (new_decision s.now s.decision_id e t),
    record w {
      db = record w.db { decisions = w.db.decisions ++ new_decision s.now s.decision_id e t ∷ [] };
    },
  )

  -- The `session.get` of the decision that the key's value names.
  unfoldable pub load_open : Context → Option Text → Exec (World K) (Option Decision)
  load_open c none w = (ok none, w)
  load_open c (some raw) w =
      if truthy raw
      then elim (parse_uuid raw) [
        | none ↦ (raised (value_error "badly formed hexadecimal UUID string"), w)
        | some id ↦ (ok (get_decision c id w.db), w)
      ]
      else (ok none, w)

  unfoldable pub find_open : Context → Evidence → Exec (World K) (Option Decision)
  find_open c e w =
      load_open c (KeyStore.get_key K (decision_open e.tenant_id e.camera_id e.region_id) w.redis) w

  close_key : Evidence → Exec (World K) Unit
  close_key e w = (
    ok tt,
    record w {
      redis = KeyStore.delete_key K (decision_open e.tenant_id e.camera_id e.region_id) w.redis;
    },
  )

  open_key : Evidence → Tenant → Decision → Exec (World K) Unit
  open_key e t d w = (
    ok tt,
    record w {
      redis =
          KeyStore.set_key K (decision_open e.tenant_id e.camera_id e.region_id) (uuid_text d.id)
            (t.aggregation_window_secs + 300) w.redis;
    },
  )

  unfoldable pub start_decision : Context → Draws → Evidence → Tenant → Exec (World K) Decision
  unfolding create_decision open_key
  start_decision c s e t = do d ← create_decision s e t; open_key e t d; link_evidence c s d e

  unfoldable pub merge_into :
      Context → Draws → Evidence → Tenant → Option Decision → Exec (World K) Decision
  unfolding close_key
  merge_into c s e t none = start_decision c s e t
  merge_into c s e t (some d) =
      if leb e.captured_at d.window_end
      then link_evidence c s d e
      else (do close_key e; start_decision c s e t)

  unfoldable pub merge_or_create_decision :
      Context → Draws → Evidence → Tenant → Exec (World K) Decision
  merge_or_create_decision c s e t = do found ← find_open c e; merge_into c s e t found

  unfoldable pub notify_on_warning : DecisionState → ℕ → Exec (World K) Unit
  notify_on_warning warning id w = (ok tt, record w { tasks = w.tasks ++ notify_warning id ∷ [] })
  notify_on_warning _ id w = (ok tt, w)

  unfoldable pub emit_state_change :
      EventSettings → Decision → DecisionState → DecisionState → Exec (World K) Unit
  unfolding notify_on_warning
  emit_state_change S d old new = do
    publish_ws_event (change_event d old new)
    publish_event S (brief_event d old new)
    notify_on_warning new d.id

  unfoldable pub apply_state_transitions :
      EventSettings → Draws → Decision → Tenant → Exec (World K) Decision
  apply_state_transitions S s d t w =
      let new = compute_state d t in
      let changed = (do
        on_db (write_transition s d new)
        emit_state_change S (record d { state = new; updated_at = s.now }) d.state new
        pure (record d { state = new; updated_at = s.now })) in
      if state_eq new d.state then (ok d, w) else changed w

  abbrev pub or_not_found : {A : Type 0} → String → Option A → Exec (World K) A
  or_not_found msg none = raise (value_error msg)
  or_not_found msg (some a) = pure a

  -- A read, and the `ValueError` when there is no such row.
  unfoldable pub load_evidence : Context → ℕ → Exec (World K) Evidence
  load_evidence c id w = or_not_found "Evidence not found" (get_evidence c id w.db) w

  unfoldable pub load_tenant : Context → ℕ → Exec (World K) Tenant
  load_tenant c id w = or_not_found "Tenant not found" (get_tenant c id w.db) w

  -- The block of `aggregate` once the evidence is read: as an admin of its tenant.
  unfoldable pub aggregate_evidence :
      EventSettings → Draws → Context → Evidence → Exec (World K) Decision
  aggregate_evidence S s c e = do
    t ← load_tenant c e.tenant_id
    d ← merge_or_create_decision c s e t
    apply_state_transitions S s d t

  unfoldable pub aggregate_block : EventSettings → Draws → ℕ → Context → Exec (World K) Decision
  aggregate_block S s evidence_id c = do
    e ← load_evidence c evidence_id
    aggregate_evidence S s (set_session_context c (some e.tenant_id) (some tenant_admin)) e

  unfoldable pub aggregate : EventSettings → Draws → ℕ → Exec (World K) Decision
  aggregate S s evidence_id =
      tenant_session none (some root_admin) (aggregate_block S s evidence_id)
