-- ===== src/Admin/Tenants.antt =====
-- runtime/src/argus/api/admin/tenants.py and markets.py. How the database compares names is a
-- parameter, the rank of a name.
use argus_services.Prelude.{
  ℕ, pos, String, Bool, not, ◌&&◌, ◌==◌, eq_opt, str_eq, none, some, List, [], ◌∷◌, ◌++◌, find?,
  select, order_asc, is_some, if◌then◌else◌,
}
use argus_services.Exec.{Exec, ok, raised, integrity_error}
use argus_services.Domain.Enums.{root_admin, tenant_admin}
use argus_services.Domain.Json.{end}
use argus_services.Domain.Models.{Tenant, TenantUser, Market}
use argus_services.World.{World, Db}
use argus_services.World.Redis.{KeyStore}
use argus_services.World.Session.{Context, allows}
use argus_services.Auth.{AuthContext}
use argus_services.Access.{root_route, tenant_route}

pub record CreateTenantRequest : Type 0 where
  pub name : String
  pub slug : String
  pub aggregation_window_secs : ℕ

pub record AssignTenantAdminRequest : Type 0 where
  pub email : String
  pub idp_subject : String

pub record CreateMarketRequest : Type 0 where
  pub name : String
  pub timezone : String

abbrev pub new_tenant : ℕ → ℕ → CreateTenantRequest → Tenant
new_tenant id now body = record {
  id = id;
  name = body.name;
  slug = body.slug;
  aggregation_window_secs = body.aggregation_window_secs;
  weird_threshold = pos 2;
  warning_threshold = pos 5;
  settings = end;
  updated_at = now;
}

abbrev pub new_admin : ℕ → ℕ → AssignTenantAdminRequest → TenantUser
new_admin id tenant_id body = record {
  id = id;
  tenant_id = some tenant_id;
  idp_subject = body.idp_subject;
  email = body.email;
  role = tenant_admin;
}

abbrev pub new_market : ℕ → ℕ → CreateMarketRequest → Market
new_market id tenant_id body = record {
  id = id;
  tenant_id = tenant_id;
  name = body.name;
  timezone = body.timezone;
  deleted_at = none;
}

-- The constraints: unique slugs, one user for a subject and tenant, and a tenant for each user.
abbrev pub has_slug : String → Db → Bool
has_slug slug db = is_some (find? (λ (t : Tenant). str_eq t.slug slug) db.tenants)

abbrev pub has_user : String → ℕ → Db → Bool
has_user subject tenant_id db = is_some (
    find? (λ (u : TenantUser). str_eq u.idp_subject subject && eq_opt u.tenant_id (some tenant_id))
      db.users)

abbrev pub has_tenant : ℕ → Db → Bool
has_tenant id db = is_some (find? (λ (t : Tenant). t.id == id) db.tenants)

module _ {K : KeyStore} where
  unfoldable pub create_tenant : ℕ → ℕ → CreateTenantRequest → Exec (World K) Tenant
  create_tenant id now body w =
      if has_slug body.slug w.db then (raised (integrity_error "tenants_slug_key"), w) else (
        ok (new_tenant id now body),
        record w { db = record w.db { tenants = w.db.tenants ++ new_tenant id now body ∷ [] } },
      )

  unfoldable pub assign_tenant_admin : ℕ → ℕ → AssignTenantAdminRequest → Exec (World K) TenantUser
  assign_tenant_admin id tenant_id body w =
      if not (has_tenant tenant_id w.db)
      then (raised (integrity_error "tenant_users_tenant_id_fkey"), w)
      else if has_user body.idp_subject tenant_id w.db
      then (raised (integrity_error "uq_tenant_users_subject_tenant"), w)
      else (
        ok (new_admin id tenant_id body),
        record w { db = record w.db { users = w.db.users ++ new_admin id tenant_id body ∷ [] } },
      )

  unfoldable pub create_market : ℕ → ℕ → CreateMarketRequest → Exec (World K) Market
  create_market id tenant_id body w = (
    ok (new_market id tenant_id body),
    record w { db = record w.db { markets = w.db.markets ++ new_market id tenant_id body ∷ [] } },
  )

  unfoldable pub create_tenant_route :
      ℕ → ℕ → CreateTenantRequest → AuthContext → Exec (World K) Tenant
  create_tenant_route id now body auth = root_route auth (λ _. create_tenant id now body)

  unfoldable pub assign_tenant_admin_route :
      ℕ → ℕ → AssignTenantAdminRequest → AuthContext → Exec (World K) TenantUser
  assign_tenant_admin_route id tenant_id body auth =
      root_route auth (λ _. assign_tenant_admin id tenant_id body)

  unfoldable pub create_market_route :
      ℕ → ℕ → CreateMarketRequest → AuthContext → Exec (World K) Market
  create_market_route id tenant_id body auth =
      tenant_route (tenant_admin ∷ root_admin ∷ []) tenant_id auth
        (λ _ _. create_market id tenant_id body)

unfoldable pub list_tenants : (String → ℕ) → Context → Db → List Tenant
list_tenants rank c db =
    order_asc (λ (t : Tenant). rank t.name) (select (λ (t : Tenant). allows c t.id) db.tenants)

unfoldable pub list_markets : (String → ℕ) → Context → Db → List Market
list_markets rank c db =
    order_asc (λ (m : Market). rank m.name)
      (select (λ (m : Market). allows c m.tenant_id && not (is_some m.deleted_at)) db.markets)
