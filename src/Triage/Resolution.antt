-- ===== src/Triage/Resolution.antt =====
-- What a resolution does, when it is refused, and what becomes of it.
use argus_services.Prelude.{
  ℕ, String, false, ◌≡◌, ◌↔◌, refl, ap, ◌∙◌, arith, Option, none, some, Bool-cases, inl, inr, [],
  ◌∷◌, ◌++◌,
}
use argus_services.Exec.{Result, ok, raised}
use argus_services.Domain.Enums.{
  DecisionState, resolved_true_positive, resolved_false_positive, resolved_false_negative,
  FeedbackDisposition, true_positive, false_positive, false_negative,
}
use argus_services.Domain.Models.{Decision, resolved}
use argus_services.World.{World, Db}
use argus_services.World
use argus_services.World.Redis.{KeyStore}
use argus_services.World.Session.{Context}
use argus_services.Auth.{AuthContext}
use argus_services.Events.{publish_ws_event}
use argus_services.Aggregation.Decisions.{get_decision, save_decision}
use argus_services.Aggregation.Saving.{get-save_decision, get_decision-passes}
use argus_services.Triage.{
  ResolveDecisionRequest, ResolveDecisionResponse, ResolveDraws, check_resolvable, resolve_checked,
  resolve_decision, write_resolution, is_resolved, disposition_to_state, has_feedback,
  resolved_decision, or_value,
}

-- A decision may be resolved exactly if the request found it, in the tenant of the path, at the version
-- that the watcher saw, and not yet resolved.
pub check_resolvable_exactly :
    (tenant_id : ℕ) (body : ResolveDecisionRequest) (found : Option Decision) (d : Decision)
    → (check_resolvable tenant_id body found ≡ ok d) ↔ (
        (found ≡ some d)
        × (d.tenant_id ≡ tenant_id)
        × (d.updated_at ≡ body.updated_at)
        × (is_resolved d.state ≡ false))
unfolding check_resolvable
check_resolvable_exactly tenant_id body none d = ground arith
check_resolvable_exactly tenant_id body (some x) d = ground arith

-- The verdict as the state that it is stored under.
abbrev pub verdict_state : FeedbackDisposition → DecisionState
verdict_state true_positive = resolved_true_positive
verdict_state false_positive = resolved_false_positive
verdict_state false_negative = resolved_false_negative

pub disposition_to_state_verdict :
    (d : FeedbackDisposition) → disposition_to_state d ≡ verdict_state d
unfolding disposition_to_state
disposition_to_state_verdict true_positive = refl
disposition_to_state_verdict false_positive = refl
disposition_to_state_verdict false_negative = refl

returned : {x r : ResolveDecisionResponse} → ok x ≡ ok r → r ≡ x
returned h = cc

-- What a successful resolution of `d` answers and leaves behind, field by field.
abbrev pub Resolution :
    {K : KeyStore}
    → ResolveDraws
    → ℕ
    → ResolveDecisionRequest
    → String
    → Decision
    → World K
    → ResolveDecisionResponse
    → World K
    → Type 0
Resolution s tenant_id body sub d w r w' =
    let verdict = verdict_state body.disposition in
    (r ≡ record { decision_id = d.id; state = verdict; resolved_at = s.clock; resolved_by = sub })
    × (w'.db.feedback
        ≡ w.db.feedback
          ++ record {
            id = s.feedback_id;
            tenant_id = tenant_id;
            decision_id = d.id;
            disposition = body.disposition;
            reasoning = or_value body.reasoning body.disposition;
            submitted_by = sub;
            created_at = s.now;
          }
            ∷ [])
    × (w'.db.audit
        ≡ w.db.audit
          ++ record {
            id = s.audit_id;
            tenant_id = d.tenant_id;
            decision_id = d.id;
            event_type = "resolved";
            payload = resolved body.disposition body.reasoning;
            actor = some sub;
          }
            ∷ [])
    × (w'.db.links ≡ w.db.links)
    × (w'.ws_events
        ≡ w.ws_events
          ++ record {
            tenant_id = tenant_id;
            event_type = "decision.resolved";
            payload = World.resolved d.id verdict sub s.clock;
          }
            ∷ [])
    × (w'.redis ≡ w.redis)
    × (w'.tasks ≡ w.tasks)

-- The row of `d` after its resolution.
abbrev pub with_verdict : ResolveDraws → ResolveDecisionRequest → String → Decision → Decision
with_verdict s body sub d = record d {
  state = verdict_state body.disposition;
  resolved_at = some s.clock;
  resolved_by = some sub;
  updated_at = s.now;
}

-- The resolved decision is read back.
get-write_resolution :
    (c : Context) (id : ℕ) (s : ResolveDraws) (tenant_id : ℕ) (body : ResolveDecisionRequest)
    (sub : String) (db : Db) {d : Decision}
    → get_decision c id db ≡ some d
    → get_decision c id (write_resolution s tenant_id d body sub db)
      ≡ some (with_verdict s body sub d)
unfolding write_resolution
get-write_resolution c id s tenant_id body sub db {d} found =
    let (visible, same) = get_decision-passes c id db found in
    get-save_decision c id (resolved_decision s d body sub) visible same db _ refl found
    ∙ ap (λ x. some (record (with_verdict s body sub d) { state = x }))
        (disposition_to_state_verdict body.disposition)

module _ {K : KeyStore} (s : ResolveDraws) (tenant_id : ℕ) (body : ResolveDecisionRequest) where
  pub resolve_checked_effects :
      (sub : String) (checked : Result Decision) (w : World K) {r : ResolveDecisionResponse}
      → (resolve_checked s tenant_id body sub checked w).0 ≡ ok r
      → (d : Decision) × (checked ≡ ok d)
        × (has_feedback d.id w.db ≡ false)
        × ((resolve_checked s tenant_id body sub checked w).1.db
            ≡ write_resolution s tenant_id d body sub w.db)
        × Resolution s tenant_id body sub d w r (resolve_checked s tenant_id body sub checked w).1
  unfolding resolve_checked publish_ws_event write_resolution save_decision
  resolve_checked_effects sub (raised e) w h = cc
  resolve_checked_effects sub (ok d) w h = elim (Bool-cases (has_feedback d.id w.db)) [
    | inl twice ↦ (let refused = rw twice at h in cc)
    | inr first ↦
        let answer = rw first at h in
        let verdict = disposition_to_state_verdict body.disposition in
        (
          d,
          refl,
          first,
          rw first refl,
          (
            returned answer
                ∙ ap
                    (λ x. record {
                      decision_id = d.id;
                      state = x;
                      resolved_at = s.clock;
                      resolved_by = sub;
                    })
                    verdict,
            rw first refl,
            rw first refl,
            rw first refl,
            rw (first, verdict) refl,
            rw first refl,
            rw first refl,
          ),
        )
  ]

  -- A resolution that returns found the decision of the id open, in the tenant, at the version of the
  -- request and without feedback. It answers with the verdict, the resolving subject and the clock; the
  -- row of the decision then has these and the new version, one feedback and one audit record with the
  -- verdict are added, the tenant's room is told, and the links, Redis and the task queue are untouched.
  pub resolve_decision_effects :
      (id : ℕ) (c : Context) (auth : AuthContext) (w : World K) (r : ResolveDecisionResponse)
      → (resolve_decision s tenant_id id body c auth w).0 ≡ ok r
      → (d : Decision) × (get_decision c id w.db ≡ some d)
        × (d.tenant_id ≡ tenant_id)
        × (d.updated_at ≡ body.updated_at)
        × (is_resolved d.state ≡ false)
        × (has_feedback d.id w.db ≡ false)
        × (get_decision c id (resolve_decision s tenant_id id body c auth w).1.db
            ≡ some (with_verdict s body auth.sub d))
        × Resolution s tenant_id body auth.sub d w r
            (resolve_decision s tenant_id id body c auth w).1
  unfolding resolve_decision
  resolve_decision_effects id c auth w r h =
      let (d, checked, first, written, done) = resolve_checked_effects auth.sub _ w h in
      let (found, of_tenant, version, still_open) =
        (check_resolvable_exactly tenant_id body _ d).0 checked in
      (
        d,
        found,
        of_tenant,
        version,
        still_open,
        first,
        ap (get_decision c id) written
            ∙ get-write_resolution c id s tenant_id body auth.sub w.db found,
        done,
      )
