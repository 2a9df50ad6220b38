-- ===== src/Seed/Tests.antt =====
-- An empty database is seeded, then seeded again.
use argus_services.Prelude.{◌≡◌, refl}
use argus_services.Exec.{ok}
use argus_services.World.{World, empty_db}
use argus_services.World.Redis.{assoc_store}
use argus_services.Fixtures.{start}
use argus_services.Seed.{SeedDraws, demo_tenant, ensure, ensure_all}
use argus_services.Seed.Steps.{seed, seed_tables, get_or_create_tenant, create_demo, ids_of}
use argus_services.Seed.Again.{seed-again}

abbrev first : SeedDraws
first = record { now = 5; assignment_id = 100; mapping_id = 101 }

abbrev second : SeedDraws
second = record { now = 9; assignment_id = 200; mapping_id = 201 }

abbrev before : World assoc_store
before = record start { db = empty_db }

runs : (seed first before).0 ≡ ok (ids_of (demo_tenant 5))
unfolding seed seed_tables get_or_create_tenant create_demo ensure_all ensure
runs = refl

seed-again_example :
    ((seed second (seed first before).1).0 ≡ ok (ids_of (demo_tenant 5)))
    × ((seed second (seed first before).1).1.db ≡ (seed first before).1.db)
seed-again_example = seed-again first second before runs
