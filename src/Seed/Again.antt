-- ===== src/Seed/Again.antt =====
-- runtime/scripts/seed.py, run a second time.
use argus_services.Prelude.{
  String, Bool, true, ◌==◌, str_eq, ◌≡◌, refl, ap, subst, ◌∙◌, Option, none, some, List, [], ◌∷◌,
  ◌++◌, find?, is_some, Bool-cases, inl, inr, arith,
}
use argus_services.Exec.{Result, ok, raised}
use argus_services.Exec.Fallible.{>>=-eq-ok}
use argus_services.Domain.Models.{Tenant}
use argus_services.World.{World, Db}
use argus_services.World.Redis.{KeyStore}
use argus_services.Domain.Json.{Text}
use argus_services.Seed.Id
use argus_services.Seed.Growth.{ensure_all-Grows, ensure_all-idle}
use argus_services.Seed.StepLaws.{steps-IsStep}
use argus_services.Seed.{demo_tenant, SeedDraws, ensure_all}
use argus_services.Seed.Steps.{
  steps, find_demo, create_demo, get_or_create_tenant, seed_tables, commit, seed,
}

find?-append_found :
    {A : Type 0} (p : A → Bool) (xs : List A) (x : A)
    → find? p xs ≡ none
    → p x ≡ true
    → find? p (xs ++ x ∷ []) ≡ some x
find?-append_found p [] x missing passes = rw passes
find?-append_found p (y ∷ xs) x missing passes =
    ground (arith, missing, passes, find?-append_found p xs x)

-- The tenant that the seed found or made is found again.
get_or_create_tenant-found :
    (s : SeedDraws) (o : Option Tenant) (db : Db) {r : Tenant × Db}
    → find_demo db ≡ o
    → get_or_create_tenant s o db ≡ ok r
    → find_demo r.1 ≡ some r.0
unfolding get_or_create_tenant create_demo
get_or_create_tenant-found s (some t) db {r} found h =
    let eq : (t, db) ≡ r = ground (arith, h) in subst (λ x. find_demo x.1 ≡ some x.0) eq found
get_or_create_tenant-found s none db {r} missing h =
    elim (Bool-cases (is_some (find? (λ (t : Tenant). t.id == Id.tenant) db.tenants))) [
      | inl twice ↦ ground (arith, rw twice at h)
      | inr once ↦
          (let eq : (
            demo_tenant s.now,
            record db { tenants = db.tenants ++ demo_tenant s.now ∷ [] },
          )
                ≡ r =
              ground (arith, rw once at h) in
            subst (λ x. find_demo x.1 ≡ some x.0) eq
              (find?-append_found _ db.tenants (demo_tenant s.now) missing refl))
    ]

seed_tables-again :
    (s later : SeedDraws) (db : Db) {r : Tenant × Db}
    → seed_tables s db ≡ ok r
    → seed_tables later r.1 ≡ ok r
unfolding seed_tables get_or_create_tenant
seed_tables-again s later db {r} h =
    let (made, got, rest) = >>=-eq-ok (get_or_create_tenant s (find_demo db) db) _ h in
    let (seeded, run, last) = >>=-eq-ok (ensure_all (steps s made.0.id) made.1) _ rest in
    let (grows, there) =
      ensure_all-Grows (steps s made.0.id) made.1 seeded (steps-IsStep s made.0.id) run in
    let found : find_demo seeded ≡ some made.0 =
      ap (find? (λ (t : Tenant). str_eq t.slug "demo-retail")) grows.tenants
      ∙ get_or_create_tenant-found s (find_demo db) db refl got in
    let eq : (made.0, seeded) ≡ r = ground (arith, last) in
    subst (λ x. seed_tables later x.1 ≡ ok x) eq
      (rw (found, ensure_all-idle (steps later made.0.id) seeded there) refl)

-- A seed that follows one that returned prints the same ids and leaves the tables as they are,
-- whatever it draws and whatever the tables held at the first.
pub seed-again :
    {K : KeyStore} (s later : SeedDraws) (w : World K) {ids : List (String × Text)}
    → (seed s w).0 ≡ ok ids
    → ((seed later (seed s w).1).0 ≡ ok ids) × ((seed later (seed s w).1).1.db ≡ (seed s w).1.db)
unfolding seed
seed-again s later w {ids} h = go (seed_tables s w.db) refl h
  where
    go :
        (result : Result (Tenant × Db))
        → seed_tables s w.db ≡ result
        → (commit result w).0 ≡ ok ids
        → ((commit (seed_tables later (commit result w).1.db) (commit result w).1).0 ≡ ok ids)
          × ((commit (seed_tables later (commit result w).1.db) (commit result w).1).1.db
              ≡ (commit result w).1.db)
    go (raised e) run h = cc
    go (ok r) run h = rw (seed_tables-again s later w.db run) (h, refl)
