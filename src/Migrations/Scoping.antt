-- ===== src/Migrations/Scoping.antt =====
-- Which tables of runtime/alembic/versions belong to a tenant, and which of them 007_rls.py protects.
use argus_services.Prelude.{
  ◌≡◌, refl, String, Bool, true, false, ◌&&◌, ◌||◌, str_eq, Option, none, some, List, [], ◌∷◌,
}
use argus_services.Migrations.{table, Op, create, create_index, Column, ForeignKey, Index, is_in}
use argus_services.Migrations.Revisions.{
  Revision, enums, core_tenancy, surveillance_config, context_rules, operational, upgrade,
  tenant_scoped_tables,
}

-- A column `tenant_id` that refers to a tenant and goes with it.
abbrev to_tenants : Option ForeignKey → Bool
to_tenants none = false
to_tenants (some k) = str_eq k.target "tenants" && str_eq k.ondelete "CASCADE"

abbrev has_tenant_column : List Column → Bool
has_tenant_column [] = false
has_tenant_column (c ∷ cs) =
    (str_eq c.name "tenant_id" && to_tenants c.foreign_key) || has_tenant_column cs

-- The indexes of a table by `tenant_id` alone, further on in the script.
abbrev is_tenant_index : Index → Bool
is_tenant_index i = is_only i.columns
  where
    is_only : List String → Bool
    is_only (c ∷ []) = str_eq c "tenant_id"
    is_only _ = false

abbrev is_indexed : String → List Op → Bool
is_indexed n [] = false
is_indexed n (create_index t i ∷ ops) = (str_eq t n && is_tenant_index i) || is_indexed n ops
is_indexed n (_ ∷ ops) = is_indexed n ops

-- A created table is `tenants`, or it is a tenant's, is indexed by its tenant, and is among the protected ones.
abbrev is_scoped : Op → List Op → Bool
is_scoped (create (table n columns _ _)) ops =
    str_eq n "tenants"
    || (has_tenant_column columns && is_indexed n ops && is_in n tenant_scoped_tables)
is_scoped _ ops = true

abbrev are_scoped : List Op → Bool
are_scoped [] = true
are_scoped (o ∷ ops) = is_scoped o ops && are_scoped ops

-- Every table that a revision creates, but for that of the tenants, has a `tenant_id` that refers to its tenant
-- and goes with it, has an index on it, and is among the tables that the row policies protect.
upgrade-are_scoped : (r : Revision) → are_scoped (upgrade r) ≡ true
unfolding upgrade
upgrade-are_scoped enums = refl
upgrade-are_scoped core_tenancy = refl
upgrade-are_scoped surveillance_config = refl
upgrade-are_scoped context_rules = refl
upgrade-are_scoped operational = refl
