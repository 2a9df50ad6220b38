-- ===== src/Migrations/Tests.antt =====
-- The first two revisions, run on an empty database and taken back.
use argus_services.Prelude.{◌≡◌, refl, String, List, [], ◌∷◌, All}
use argus_services.Exec.{Result, ok, raised}
use argus_services.Migrations.{
  Catalog, has, has_all, has_table, is_needed, remove, add_index, exec, run,
}
use argus_services.Migrations.Revisions.{
  tenant_scoped_tables, enums, core_tenancy, upgrade, downgrade,
}
use argus_services.Migrations.Undo.{downgrade-upgrade}
use argus_services.Migrations.RowSecurity.{unprotected, Security, upgrade_rls}
use argus_services.Migrations.Protection.{Isolates, IsolatesTenants, upgrade_rls-Isolates}

abbrev returned : Result Catalog → Catalog
returned (ok c) = c
returned (raised _) = []

abbrev with_enums : Catalog
with_enums = returned (run (upgrade enums) [])

abbrev with_tenants : Catalog
with_tenants = returned (run (upgrade core_tenancy) with_enums)

downgrade-upgrade_example : run (downgrade core_tenancy) with_tenants ≡ ok with_enums
unfolding run exec has has_all has_table is_needed remove add_index upgrade
downgrade-upgrade_example =
    downgrade-upgrade core_tenancy with_enums with_tenants
      ((refl, refl, (refl, refl, (refl, refl, (refl, refl, (refl, refl, (refl, refl, tt))))))) refl

bare : (ns : List String) → All (λ n. unprotected ≡ unprotected) ns
bare [] = tt
bare (n ∷ ns) = (refl, bare ns)

upgrade_rls-Isolates_example :
    (after : Security) × (upgrade_rls (λ n. unprotected) ≡ ok after)
    × All (λ n. Isolates (after n)) tenant_scoped_tables
    × IsolatesTenants (after "tenants")
upgrade_rls-Isolates_example =
    upgrade_rls-Isolates (λ n. unprotected) (bare ("tenants" ∷ tenant_scoped_tables))
