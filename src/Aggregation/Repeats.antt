-- ===== src/Aggregation/Repeats.antt =====
-- What happens when an aggregation is run again, and when it fails.
use argus_services.Prelude.{ℕ, ◌≤◌, ◌≡◌, true, none, some, ap, subst, ◌∙◌, sym, arith, leb}
use argus_services.Exec.{Exn, Result, ok, raised}
use argus_services.Exec.Triple.{bind_returns}
use argus_services.Domain.Enums.{root_admin, tenant_admin, state_eq_refl, state_eq}
use argus_services.Domain.Json.{uuid_text}
use argus_services.Domain.Models.{Decision, Evidence, Tenant}
use argus_services.World.{World}
use argus_services.World.Redis.{KeyStore}
use argus_services.World.Session.{
  Context, settle, no_context, set_session_context, tenant_session, tenant_session_rolled_back,
}
use argus_services.Events.{EventSettings}
use argus_services.Aggregation.Decisions.{
  Draws, compute_state, get_evidence, get_tenant, get_decision, is_linked,
}
use argus_services.Aggregation.{
  link_evidence, load_open, find_open, merge_into, merge_or_create_decision, load_evidence,
  load_tenant, aggregate_evidence, aggregate_block, aggregate, apply_state_transitions,
}
use argus_services.Aggregation.Windows.{Collected, key_of, named}

abbrev pub root_session : Context
root_session = set_session_context no_context none (some root_admin)

abbrev pub session_of : Evidence → Context
session_of e = set_session_context root_session (some e.tenant_id) (some tenant_admin)

module _ {K : KeyStore} where
  pub find_again :
      (c : Context) (e : Evidence) (d : Decision) (w : World K)
      → named (key_of e) w ≡ some (uuid_text d.id)
      → get_decision c d.id w.db ≡ some d
      → find_open c e w ≡ (ok (some d), w)
  unfolding find_open load_open
  find_again c e d w h k = rw (h, load_open) (rw k)

  merge_again :
      (c : Context) (s : Draws) (e : Evidence) (t : Tenant) (d : Decision) (w : World K)
      → e.captured_at ≤ d.window_end
      → is_linked c d e w.db ≡ true
      → merge_into c s e t (some d) w ≡ (ok d, w)
  unfolding merge_into link_evidence
  merge_again c s e t d w h k =
      let in_window : leb e.captured_at d.window_end ≡ true = ground arith in rw (in_window, k)

  transitions_again :
      (S : EventSettings) (s : Draws) (d : Decision) (t : Tenant) (w : World K)
      → d.state ≡ compute_state d t
      → apply_state_transitions S s d t w ≡ (ok d, w)
  unfolding apply_state_transitions
  transitions_again S s d t w h =
      let same : state_eq (compute_state d t) d.state ≡ true =
        subst (λ st. state_eq (compute_state d t) st ≡ true) (sym h)
          (state_eq_refl (compute_state d t)) in
      rw same

  -- An aggregation that raises has left every table as it was.
  aggregate_rolled_back :
      (S : EventSettings) (s : Draws) (id : ℕ) (w : World K) {x : Exn}
      → (aggregate S s id w).0 ≡ raised x
      → (aggregate S s id w).1.db ≡ w.db
  unfolding aggregate
  aggregate_rolled_back S s id w h =
      tenant_session_rolled_back none (some root_admin) (aggregate_block S s id) w h

  merge_or_create_again :
      (c : Context) (s : Draws) (e : Evidence) (t : Tenant) (d : Decision) (w : World K)
      → get_decision c d.id w.db ≡ some d
      → Collected c e d w
      → merge_or_create_decision c s e t w ≡ (ok d, w)
  unfolding merge_or_create_decision
  merge_or_create_again c s e t d w hd h =
      bind_returns (find_open c e) (merge_into c s e t) (find_again c e d w h.2 hd)
      ∙ merge_again c s e t d w h.1 h.0

  evidence_again :
      (S : EventSettings) (s : Draws) (c : Context) (e : Evidence) (t : Tenant) (d : Decision)
      (w : World K)
      → get_tenant c e.tenant_id w.db ≡ some t
      → get_decision c d.id w.db ≡ some d
      → Collected c e d w
      → d.state ≡ compute_state d t
      → aggregate_evidence S s c e w ≡ (ok d, w)
  unfolding aggregate_evidence load_tenant
  evidence_again S s c e t d w ht hd h hs = rw ht (
      bind_returns (merge_or_create_decision c s e t) (λ d. apply_state_transitions S s d t)
        (merge_or_create_again c s e t d w hd h)
      ∙ transitions_again S s d t w hs)

  -- Celery may deliver a task twice. If the evidence is already collected in the open decision and that
  -- is in the state that its totals give, the run returns the decision and changes nothing: no count is
  -- raised twice, and nothing is announced again.
  pub aggregate_again :
      (S : EventSettings) (s : Draws) (id : ℕ) (w : World K) (e : Evidence) (t : Tenant)
      (d : Decision)
      → get_evidence root_session id w.db ≡ some e
      → get_tenant (session_of e) e.tenant_id w.db ≡ some t
      → get_decision (session_of e) d.id w.db ≡ some d
      → Collected (session_of e) e d w
      → d.state ≡ compute_state d t
      → aggregate S s id w ≡ (ok d, w)
  unfolding aggregate aggregate_block load_evidence tenant_session
  aggregate_again S s id w e t d he ht hd h hs =
      ap (λ (r : Result Decision × World K). settle w.db r.0 r.1)
        (bind_returns (load_evidence root_session id) _ (rw he)
          ∙ evidence_again S s (session_of e) e t d w ht hd h hs)
