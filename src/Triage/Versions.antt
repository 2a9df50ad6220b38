-- ===== src/Triage/Versions.antt =====
-- Two watchers, a watcher and the aggregator: what a resolution protects from, and what it does not.
use argus_services.Prelude.{
  ℕ, String, true, false, ◌≡◌, ◌≢◌, ◌≤◌, refl, arith, Option, none, some, List, ◌∙◌, subst, sym,
}
use argus_services.Exec.{Exn, Result, ok, raised, http_exception}
use argus_services.Domain.Json.{uuid_text}
use argus_services.Domain.Models.{Decision, Evidence, Tenant}
use argus_services.World.{World}
use argus_services.World.Redis.{KeyStore}
use argus_services.World.Session.{Context, allows}
use argus_services.Auth.{AuthContext}
use argus_services.Aggregation.Decisions.{Draws, get_decision, get_tenant, is_linked}
use argus_services.Events.{EventSettings}
use argus_services.Aggregation.Windows.{key_of, named}
use argus_services.Aggregation.{aggregate_evidence}
use argus_services.Triage.{
  ResolveDecisionRequest, ResolveDecisionResponse, ResolveDraws, check_resolvable, resolve_checked,
  resolve_decision, is_resolved,
}
use argus_services.Triage.Settled.{
  Attempt, IsSettled, row_read, attempt_all, attempt_all-IsSettled, first-IsSettled,
}
use argus_services.Triage.Reopening.{aggregate_evidence-IsStored}

abbrev exn_status : Exn → Option ℕ
exn_status (http_exception code message) = some code
exn_status e = none

-- The status of an HTTP error.
abbrev pub status_of : {A : Type 0} → Result A → Option ℕ
status_of (ok a) = none
status_of (raised e) = exn_status e

resolved_conflicts :
    (tenant_id : ℕ) (body : ResolveDecisionRequest) (d : Decision)
    → d.tenant_id ≡ tenant_id
    → is_resolved d.state ≡ true
    → status_of (check_resolvable tenant_id body (some d)) ≡ some 409
unfolding check_resolvable
resolved_conflicts tenant_id body d h k = ground arith

stale_conflicts :
    (tenant_id : ℕ) (body : ResolveDecisionRequest) (d : Decision)
    → d.tenant_id ≡ tenant_id
    → d.updated_at ≢ body.updated_at
    → status_of (check_resolvable tenant_id body (some d)) ≡ some 409
unfolding check_resolvable
stale_conflicts tenant_id body d h k = ground arith

module _ {K : KeyStore} where
  checked_status :
      (s : ResolveDraws) (tenant_id : ℕ) (body : ResolveDecisionRequest) (sub : String)
      (checked : Result Decision) (w : World K)
      → status_of checked ≡ some 409
      → status_of (resolve_checked s tenant_id body sub checked w).0 ≡ some 409
  unfolding resolve_checked
  checked_status s tenant_id body sub (raised e) w h = h
  checked_status s tenant_id body sub (ok d) w h = cc

  read_refused :
      (s' : ResolveDraws) (tenant_id id : ℕ) (body' : ResolveDecisionRequest) (c' : Context)
      (auth' : AuthContext) (v : World K)
      → allows c' tenant_id ≡ true
      → IsSettled tenant_id id v.db
      → status_of (resolve_decision s' tenant_id id body' c' auth' v).0 ≡ some 409
  unfolding resolve_decision get_decision
  read_refused s' tenant_id id body' c' auth' v visible h =
      let (d, found, of_tenant, resolved) =
        row_read tenant_id id c' v.db.decisions visible h.0 h.1 in
      checked_status s' tenant_id body' auth'.sub _ _ (
        subst (λ o. status_of (check_resolvable tenant_id body' o) ≡ some 409) (sym found)
          (resolved_conflicts tenant_id body' d of_tenant resolved))

  -- Once a decision is resolved, and whatever resolutions of whichever decisions of the tenant come
  -- next, by whomever, with the aggregator not running in between: a further resolution of it in a
  -- session that may see the tenant is refused with status 409, whatever its version and disposition.
  pub resolve_once :
      (s s' : ResolveDraws) (tenant_id id : ℕ) (body body' : ResolveDecisionRequest)
      (c c' : Context) (auth auth' : AuthContext) (between : List Attempt) (w : World K)
      (r : ResolveDecisionResponse)
      → (resolve_decision s tenant_id id body c auth w).0 ≡ ok r
      → allows c' tenant_id ≡ true
      → status_of
          (resolve_decision s' tenant_id id body' c' auth'
            (attempt_all tenant_id between (resolve_decision s tenant_id id body c auth w).1)).0
        ≡ some 409
  resolve_once s s' tenant_id id body body' c c' auth auth' between w r h visible =
      read_refused s' tenant_id id body' c' auth' _ visible (
        attempt_all-IsSettled between tenant_id id _
          (first-IsSettled s tenant_id id body c auth w r h))

  -- The aggregator runs on new evidence for the open decision of its camera and region, in its window,
  -- and returns. In each later state in which a session that saw the decision reads its row as that run
  -- left it, a resolution in its tenant with another version than the time of the run is refused with
  -- status 409: the version that a watcher saw before is of no use.
  pub resolve_after_evidence :
      (S : EventSettings) (s : ResolveDraws) (t : Draws) (tenant_id : ℕ)
      (body : ResolveDecisionRequest) (c c' : Context) (auth : AuthContext) (d d' : Decision)
      (e : Evidence) (n : Tenant) (w v : World K)
      → get_tenant c' e.tenant_id w.db ≡ some n
      → get_decision c d.id w.db ≡ some d
      → get_decision c' d.id w.db ≡ some d
      → named (key_of e) w ≡ some (uuid_text d.id)
      → e.captured_at ≤ d.window_end
      → d.tenant_id ≡ tenant_id
      → is_linked c' d e w.db ≡ false
      → (aggregate_evidence S t c' e w).0 ≡ ok d'
      → get_decision c d.id v.db ≡ get_decision c d.id (aggregate_evidence S t c' e w).1.db
      → t.now ≢ body.updated_at
      → status_of (resolve_decision s tenant_id d.id body c auth v).0 ≡ some 409
  unfolding resolve_decision
  resolve_after_evidence S s t tenant_id body c c' auth d d' e n w v ht hc hc' hk he of_tenant new
        ran row later =
      let (stored, dated) =
        aggregate_evidence-IsStored Dated Dated S t c c' e n d d' w ht hc hc' hk he
          (λ old. absurd (differs old)) (refl, of_tenant) (λ x p _. p) (λ x p. (refl, p.1)) ran in
      checked_status s tenant_id body auth.sub _ _ (
        subst (λ o. status_of (check_resolvable tenant_id body o) ≡ some 409) (sym (row ∙ stored.1))
          (stale_conflicts tenant_id body d' dated.1 (λ h. later (sym dated.0 ∙ h))))
    where
      Dated : Decision → Type 0
      Dated x = (x.updated_at ≡ t.now) × (x.tenant_id ≡ tenant_id)

      differs : is_linked c' d e w.db ≡ true → ⊥
      differs old = cc
