-- ===== src/Audit/Resolving.antt =====
-- The audit record that runtime/src/argus/api/triage/decisions.py writes on a resolution, and the trails.
use argus_services.Prelude.{
  ℕ, String, false, ◌≡◌, refl, some, All-update, All-find?, Bool-cases, inl, inr, [], ◌∷◌, ◌++◌,
}
use argus_services.Exec.{Result, ok, raised}
use argus_services.Exec.Triple.{Post}
use argus_services.Domain.Enums.{watcher, tenant_admin}
use argus_services.Domain.Models.{Decision}
use argus_services.World.{World, Db}
use argus_services.World.Redis.{KeyStore}
use argus_services.World.Session.{Context}
use argus_services.Auth.{AuthContext}
use argus_services.Access.Transactions.{tenant_route-keeps}
use argus_services.Events.{publish_ws_event}
use argus_services.Aggregation.Decisions.{get_decision, save_decision}
use argus_services.Triage.{
  ResolveDecisionRequest, ResolveDraws, check_resolvable, resolve_checked, resolve_decision,
  resolve_route, write_resolution, resolution_record, is_resolved, disposition_to_state,
  has_feedback,
}
use argus_services.Triage.Resolution.{check_resolvable_exactly}
use argus_services.Audit.{follow, IsTrailed, HasTrails}
use argus_services.Audit.Aggregating.{own_trail, other_trail}

module _ (s : ResolveDraws) (tenant_id : ℕ) (body : ResolveDecisionRequest) where
  resolution_follows :
      (d : Decision) (sub : String)
      → is_resolved d.state ≡ false
      → follow (resolution_record s d body sub).payload d.state
        ≡ some (disposition_to_state body.disposition)
  unfolding follow
  resolution_follows d sub open_still = rw open_still refl

  resolution-HasTrails :
      (d : Decision) (sub : String) (db : Db)
      → HasTrails db
      → IsTrailed db.audit d
      → is_resolved d.state ≡ false
      → HasTrails (write_resolution s tenant_id d body sub db)
  unfolding write_resolution save_decision
  resolution-HasTrails d sub db h current open_still =
      All-update (IsTrailed db.audit) (IsTrailed (db.audit ++ resolution_record s d body sub ∷ []))
        _ _ db.decisions
        (λ x _ _.
          own_trail db.audit (resolution_record s d body sub) d refl current
            (resolution_follows d sub open_still))
        (λ x k other. other_trail db.audit (resolution_record s d body sub) x other k) h

  module _ {K : KeyStore} where
    checked-HasTrails :
        (sub : String) (checked : Result Decision) (w : World K)
        → HasTrails w.db
        → ((d : Decision) → checked ≡ ok d → IsTrailed w.db.audit d × (is_resolved d.state ≡ false))
        → Post
            (λ _ (v : World K). HasTrails v.db)
            (resolve_checked s tenant_id body sub checked w).0
            (resolve_checked s tenant_id body sub checked w).1
    unfolding resolve_checked publish_ws_event
    checked-HasTrails sub (raised e) w h known = tt
    checked-HasTrails sub (ok d) w h known = elim (Bool-cases (has_feedback d.id w.db)) [
      | inl twice ↦ rw twice tt
      | inr first ↦
          let (current, open_still) = known d refl in
          rw first (resolution-HasTrails d sub w.db h current open_still)
    ]

    resolve_decision-HasTrails :
        (id : ℕ) (c : Context) (auth : AuthContext) (w : World K)
        → HasTrails w.db
        → Post
            (λ _ (v : World K). HasTrails v.db)
            (resolve_decision s tenant_id id body c auth w).0
            (resolve_decision s tenant_id id body c auth w).1
    unfolding resolve_decision get_decision
    resolve_decision-HasTrails id c auth w h =
        checked-HasTrails auth.sub (check_resolvable tenant_id body (get_decision c id w.db)) w h
          (λ d e.
            let (read, _, _, open_still) =
              (check_resolvable_exactly tenant_id body (get_decision c id w.db) d).0 e in
            (All-find? (IsTrailed w.db.audit) _ w.db.decisions h read, open_still))

    -- A request to resolve a decision, granted or refused, keeps the trails right.
    pub resolve_route-HasTrails :
        (id : ℕ) (auth : AuthContext) (w : World K)
        → HasTrails w.db
        → HasTrails (resolve_route s tenant_id id body auth w).1.db
    unfolding resolve_route
    resolve_route-HasTrails id auth w h =
        tenant_route-keeps HasTrails (watcher ∷ tenant_admin ∷ []) tenant_id auth
          (resolve_decision s tenant_id id body) w (λ c a. resolve_decision-HasTrails id c a w h) h
