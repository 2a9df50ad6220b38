-- ===== src/Migrations/RowSecurity.antt =====
-- runtime/alembic/versions/007_rls.py: row security on the tables of the tenants, and what its policies let
-- pass. Of PostgreSQL: a policy's name is its own on its table; policies are joined by OR; a policy for ALL is
-- one for each command; where a policy has no WITH CHECK its USING stands for it; row security is forced on
-- the owner too. Roles that bypass it are left out.
use argus_services.Prelude.{
  ℕ, String, Bool, true, false, ◌&&◌, ◌||◌, str_eq, eq_opt, Option, none, some, List, [], ◌∷◌, ◌++◌,
  select, find?, is_some, not, if◌then◌else◌,
}
use argus_services.Exec.{Result, ok, raised, service_error}
use argus_services.Exec.Fallible.{◌>>=◌}
use argus_services.World.Session.{Context, is_root}
use argus_services.Migrations.Revisions.{tenant_scoped_tables}

pub data Command : Type 0 where
  for_all for_select for_insert for_update for_delete : Command

-- `tenant_id = NULLIF(current_setting('app.current_tenant_id', true), '')::uuid`, the same of the `id` of a
-- tenant, and `current_setting('app.current_role', true) = 'root_admin'`.
pub data Condition : Type 0 where
  of_current_tenant is_current_tenant is_root_admin : Condition

pub record Policy : Type 0 where
  pub name : String
  pub command : Command
  pub using_part : Option Condition
  pub with_check : Option Condition

pub record TableSecurity : Type 0 where
  pub enabled : Bool
  pub forced : Bool
  pub policies : List Policy

abbrev pub unprotected : TableSecurity
unprotected = record { enabled = false; forced = false; policies = [] }

-- `CREATE POLICY`
unfoldable pub create_policy : Policy → TableSecurity → Result TableSecurity
create_policy p s =
    if is_some (find? (λ (q : Policy). str_eq q.name p.name) s.policies)
    then raised (service_error "policy already exists")
    else ok (record s { policies = s.policies ++ p ∷ [] })

abbrev pub policy : String → Command → Option Condition → Option Condition → Policy
policy name command using_part with_check = record {
  name = name;
  command = command;
  using_part = using_part;
  with_check = with_check;
}

abbrev enabled_forced : TableSecurity → TableSecurity
enabled_forced s = record s { enabled = true; forced = true }

unfoldable pub enable_tenant_rls : TableSecurity → Result TableSecurity
enable_tenant_rls s = do
  s1 ←
      create_policy (policy "tenant_isolation_select" for_select (some of_current_tenant) none)
        (enabled_forced s)
  s2 ← create_policy (policy "tenant_isolation_insert" for_insert none (some of_current_tenant)) s1
  s3 ←
      create_policy
        (policy "tenant_isolation_update" for_update (some of_current_tenant)
          (some of_current_tenant))
        s2
  s4 ← create_policy (policy "tenant_isolation_delete" for_delete (some of_current_tenant) none) s3
  create_policy (policy "root_admin_all" for_all (some is_root_admin) (some is_root_admin)) s4

-- The table `tenants`, by its `id`.
unfoldable pub enable_tenants_rls : TableSecurity → Result TableSecurity
enable_tenants_rls s = do
  s1 ←
      create_policy (policy "tenant_isolation_select" for_select (some is_current_tenant) none)
        (enabled_forced s)
  s2 ←
      create_policy
        (policy "tenant_isolation_update" for_update (some is_current_tenant)
          (some is_current_tenant))
        s1
  create_policy (policy "root_admin_all" for_all (some is_root_admin) (some is_root_admin)) s2

-- `DROP POLICY IF EXISTS`
unfoldable pub drop_policy : String → TableSecurity → TableSecurity
drop_policy name s = record s {
  policies = select (λ (q : Policy). not (str_eq q.name name)) s.policies;
}

unfoldable pub disable_tenant_rls : TableSecurity → TableSecurity
disable_tenant_rls s =
    record (drop_policy "tenant_isolation_select" (
      drop_policy "tenant_isolation_insert" (
        drop_policy "tenant_isolation_update"
          (drop_policy "tenant_isolation_delete" (drop_policy "root_admin_all" s))))) {
            enabled = false;
            forced = false;
          }

-- The security of the tables, by their names.
abbrev pub Security : Type 0
Security = String → TableSecurity

abbrev pub set_table : String → TableSecurity → Security → Security
set_table n s all m = if str_eq m n then s else all m

unfoldable pub enable_each : List String → Security → Result Security
enable_each [] all = ok all
enable_each (n ∷ ns) all = do s ← enable_tenant_rls (all n); enable_each ns (set_table n s all)

unfoldable pub upgrade_rls : Security → Result Security
upgrade_rls all = do
  s ← enable_tenants_rls (all "tenants")
  enable_each tenant_scoped_tables (set_table "tenants" s all)

-- `app.current_tenant_id` and `app.current_role` against a row of a tenant.
abbrev pub holds : Context → ℕ → Condition → Bool
holds c tenant_id of_current_tenant = eq_opt (some tenant_id) c.current_tenant_id
holds c tenant_id is_current_tenant = eq_opt (some tenant_id) c.current_tenant_id
holds c tenant_id is_root_admin = is_root c.current_role

abbrev pub is_for : Command → Policy → Bool
is_for command p = covers p.command command
  where
    covers : Command → Command → Bool
    covers for_all _ = true
    covers for_select for_select = true
    covers for_insert for_insert = true
    covers for_update for_update = true
    covers for_delete for_delete = true
    covers _ _ = false

abbrev pub holds_opt : Context → ℕ → Option Condition → Bool
holds_opt c tenant_id none = false
holds_opt c tenant_id (some q) = holds c tenant_id q

abbrev or_using : Policy → Option Condition
or_using p = elim p.with_check [ none ↦ p.using_part | some q ↦ some q ]

abbrev any_policy : (Policy → Bool) → List Policy → Bool
any_policy f [] = false
any_policy f (p ∷ ps) = f p || any_policy f ps

-- A row that is there, and one that is written.
abbrev pub reaches : Command → TableSecurity → Context → ℕ → Bool
reaches command s c tenant_id =
    if s.enabled
    then any_policy (λ p. is_for command p && holds_opt c tenant_id p.using_part) s.policies
    else true

abbrev pub may_write : Command → TableSecurity → Context → ℕ → Bool
may_write command s c tenant_id =
    if s.enabled
    then any_policy (λ p. is_for command p && holds_opt c tenant_id (or_using p)) s.policies
    else true
