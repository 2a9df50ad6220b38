-- ===== src/Audit/Tests.antt =====
-- Evidence that makes a decision a warning, and its resolution.
use argus_services.Prelude.{none, some, refl, List, [], ◌∷◌}
use argus_services.Domain.Enums.{watcher, true_positive}
use argus_services.World.{World}
use argus_services.World.Redis.{assoc_store}
use argus_services.Auth.{AuthContext}
use argus_services.Fixtures.{two_evidences, evidence_at, start, to_log, draws}
use argus_services.Audit.{HasTrails}
use argus_services.Audit.Operations.{
  Operation, collect, resolve, perform_all, perform_all-HasTrails,
}

abbrev before : World assoc_store
before = record start { db = record two_evidences { evidences = evidence_at 1 1000000000 9 ∷ [] } }

abbrev jo : AuthContext
jo = record { sub = "jo"; tenant_id = some 7; role = watcher; token = "t"; camera_id = none }

abbrev operations : List Operation
operations =
    collect (draws 1) 1
    ∷ resolve (record { clock = 3; now = 2; feedback_id = 300; audit_id = 301 }) 7 101
        (record { disposition = true_positive; reasoning = "seen"; updated_at = 1 }) jo
    ∷ []

perform_all-HasTrails_example : HasTrails (perform_all to_log operations before).db
perform_all-HasTrails_example = perform_all-HasTrails to_log operations before tt (refl, (tt, tt))
