-- ===== src/Audit/Operations.antt =====
-- The two things that change the state of a decision, in any order: runs of the aggregator and requests
-- to resolve.
use argus_services.Prelude.{ℕ, ◌≡◌, List, [], ◌∷◌}
use argus_services.World.{World}
use argus_services.World.Redis.{KeyStore}
use argus_services.Auth.{AuthContext}
use argus_services.Events.{EventSettings}
use argus_services.Aggregation.Decisions.{Draws}
use argus_services.Aggregation.{aggregate}
use argus_services.Triage.{ResolveDecisionRequest, ResolveDraws, resolve_route}
use argus_services.Audit.{HasTrails, records_of}
use argus_services.Audit.Aggregating.{aggregate-HasTrails}
use argus_services.Audit.Resolving.{resolve_route-HasTrails}

pub data Operation : Type 0 where
  -- the draws, and the id of the evidence
  collect : Draws → ℕ → Operation
  resolve :
      ResolveDraws → (tenant_id decision_id : ℕ) → ResolveDecisionRequest → AuthContext → Operation

module _ (S : EventSettings) {K : KeyStore} where
  abbrev pub perform : Operation → World K → World K
  perform (collect s id) w = (aggregate S s id w).1
  perform (resolve s tenant_id id body auth) w = (resolve_route s tenant_id id body auth w).1

  abbrev pub perform_all : List Operation → World K → World K
  perform_all [] w = w
  perform_all (o ∷ rest) w = perform_all rest (perform o w)

  -- No id that a run draws for a new decision is one that a record has already.
  abbrev pub DrawsFresh : Operation → World K → Type 0
  DrawsFresh (collect s id) w = records_of s.decision_id w.db.audit ≡ 0
  DrawsFresh (resolve s tenant_id id body auth) w = Unit

  abbrev pub DrawFresh : List Operation → World K → Type 0
  DrawFresh [] w = Unit
  DrawFresh (o ∷ rest) w = DrawsFresh o w × DrawFresh rest (perform o w)

  perform-HasTrails :
      (o : Operation) (w : World K) → HasTrails w.db → DrawsFresh o w → HasTrails (perform o w).db
  perform-HasTrails (collect s id) w h fresh = aggregate-HasTrails S s id w h fresh
  perform-HasTrails (resolve s tenant_id id body auth) w h fresh =
      resolve_route-HasTrails s tenant_id body id auth w h

  -- After any runs of the aggregator and requests to resolve, in any order and with any outcomes, the
  -- records of each decision, followed from NORMAL on, lead to the state of its row, if that was so before
  -- and the ids drawn for new decisions are not in the records yet.
  pub perform_all-HasTrails :
      (operations : List Operation) (w : World K)
      → HasTrails w.db
      → DrawFresh operations w
      → HasTrails (perform_all operations w).db
  perform_all-HasTrails [] w h fresh = h
  perform_all-HasTrails (o ∷ rest) w h fresh =
      perform_all-HasTrails rest (perform o w) (perform-HasTrails o w h fresh.0) fresh.1
