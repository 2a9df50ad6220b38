-- ===== src/Seed/Steps.antt =====
-- The steps of the seed in their order. Root reads every row, so a look-up is by the key alone; a
-- row that breaks a unique constraint is refused.
use argus_services.Prelude.{
  ℕ, String, Bool, ◌&&◌, ◌==◌, eq_opt, str_eq, Option, none, some, List, [], ◌∷◌, ◌++◌, find?,
  is_some, if◌then◌else◌,
}
use argus_services.Exec.{Exec, Result, ok, raised, integrity_error}
use argus_services.Exec.Fallible.{◌>>=◌}
use argus_services.Domain.Enums.{root_admin, tenant_admin, watcher, role_eq}
use argus_services.Domain.Json.{Text, uuid_text, plain}
use argus_services.Domain.Models.{
  Tenant, TenantUser, Market, Camera, RegionOfInterest, ContextMode, ContextModeCameraAssignment,
  Lens, Rule, NotificationConfig,
}
use argus_services.World.{World, Db}
use argus_services.World.Redis.{KeyStore, active_mode}
use argus_services.Seed.Id
use argus_services.Seed.{
  SeedDraws, Ensured, ensure_all, demo_tenant, demo_market, demo_camera, demo_region, demo_mode,
  demo_assignment, demo_lens, demo_rule, demo_mapping, demo_user, demo_config,
}

abbrev pub ensure_market : ℕ → Ensured
ensure_market tenant_id = record {
  is_there = λ db. is_some (find? (λ (x : Market). x.id == Id.market) db.markets);
  add = λ db. ok (record db { markets = db.markets ++ demo_market tenant_id ∷ [] });
}

abbrev pub ensure_camera : ℕ → Ensured
ensure_camera tenant_id = record {
  is_there = λ db. is_some (find? (λ (x : Camera). x.id == Id.camera) db.cameras);
  add = λ db.
      if is_some (
        find? (λ (x : Camera). x.tenant_id == tenant_id && str_eq x.edge_device_id "edge-demo-001")
          db.cameras)
      then raised (integrity_error "uq_cameras_tenant_edge_device")
      else ok (record db { cameras = db.cameras ++ demo_camera tenant_id ∷ [] });
}

abbrev pub ensure_region : ℕ → Ensured
ensure_region tenant_id = record {
  is_there = λ db. is_some (find? (λ (x : RegionOfInterest). x.id == Id.region) db.regions);
  add = λ db. ok (record db { regions = db.regions ++ demo_region tenant_id ∷ [] });
}

abbrev pub ensure_mode : ℕ → Ensured
ensure_mode tenant_id = record {
  is_there = λ db. is_some (find? (λ (x : ContextMode). x.id == Id.mode) db.context_modes);
  add = λ db. ok (record db { context_modes = db.context_modes ++ demo_mode tenant_id ∷ [] });
}

abbrev pub ensure_assignment : SeedDraws → ℕ → Ensured
ensure_assignment s tenant_id = record {
  is_there = λ db.
      is_some
        (find? (λ (x : ContextModeCameraAssignment). x.camera_id == Id.camera) db.assignments);
  add = λ db. ok (record db { assignments = db.assignments ++ demo_assignment s tenant_id ∷ [] });
}

abbrev pub ensure_lens : ℕ → Ensured
ensure_lens tenant_id = record {
  is_there = λ db. is_some (find? (λ (x : Lens). x.id == Id.lens) db.lenses);
  add = λ db. ok (record db { lenses = db.lenses ++ demo_lens tenant_id ∷ [] });
}

-- The rule comes with its mapping to the region.
abbrev pub ensure_rule : SeedDraws → ℕ → Ensured
ensure_rule s tenant_id = record {
  is_there = λ db. is_some (find? (λ (x : Rule). x.id == Id.rule) db.rules);
  add = λ db. ok (record db {
    rules = db.rules ++ demo_rule tenant_id ∷ [];
    rule_regions = db.rule_regions ++ demo_mapping s tenant_id ∷ [];
  });
}

-- A user, looked for by a test of its own.
abbrev pub ensure_user : (TenantUser → Bool) → TenantUser → Ensured
ensure_user is_it user = record {
  is_there = λ db. is_some (find? is_it db.users);
  add = λ db.
      if is_some (find? (λ (x : TenantUser). x.id == user.id) db.users)
      then raised (integrity_error "tenant_users_pkey")
      else ok (record db { users = db.users ++ user ∷ [] });
}

abbrev pub is_root_admin : TenantUser → Bool
is_root_admin u = str_eq u.idp_subject "auth0|seed-root-admin" && role_eq u.role root_admin

abbrev pub is_user : String → ℕ → TenantUser → Bool
is_user subject tenant_id u = str_eq u.idp_subject subject && eq_opt u.tenant_id (some tenant_id)

abbrev pub ensure_root_admin : Ensured
ensure_root_admin =
    ensure_user is_root_admin
      (demo_user Id.root_admin none "auth0|seed-root-admin" "root@argus.local" root_admin)

abbrev pub ensure_tenant_admin : ℕ → Ensured
ensure_tenant_admin tenant_id = ensure_user (is_user "auth0|seed-tenant-admin" tenant_id) (
    demo_user Id.tenant_admin (some tenant_id) "auth0|seed-tenant-admin" "admin@demo-retail.local"
      tenant_admin)

abbrev pub ensure_watcher : ℕ → Ensured
ensure_watcher tenant_id =
    ensure_user (is_user "auth0|seed-watcher" tenant_id) (
      demo_user Id.watcher (some tenant_id) "auth0|seed-watcher" "watcher@demo-retail.local"
        watcher)

abbrev pub ensure_config : ℕ → Ensured
ensure_config tenant_id = record {
  is_there = λ db. is_some (find? (λ (x : NotificationConfig). x.id == Id.notif) db.configs);
  add = λ db. ok (record db { configs = db.configs ++ demo_config tenant_id ∷ [] });
}

abbrev pub steps : SeedDraws → ℕ → List Ensured
steps s t =
    ensure_market t
    ∷ ensure_camera t
    ∷ ensure_region t
    ∷ ensure_mode t
    ∷ ensure_assignment s t
    ∷ ensure_lens t
    ∷ ensure_rule s t
    ∷ ensure_root_admin
    ∷ ensure_tenant_admin t
    ∷ ensure_watcher t
    ∷ ensure_config t
    ∷ []

abbrev pub find_demo : Db → Option Tenant
find_demo db = find? (λ (t : Tenant). str_eq t.slug "demo-retail") db.tenants

-- `_get_or_create_tenant` where there is no such tenant.
unfoldable pub create_demo : SeedDraws → Db → Result (Tenant × Db)
create_demo s db =
    if is_some (find? (λ (t : Tenant). t.id == Id.tenant) db.tenants)
    then raised (integrity_error "tenants_pkey")
    else ok (demo_tenant s.now, record db { tenants = db.tenants ++ demo_tenant s.now ∷ [] })

unfoldable pub get_or_create_tenant : SeedDraws → Option Tenant → Db → Result (Tenant × Db)
get_or_create_tenant s (some t) db = ok (t, db)
get_or_create_tenant s none db = create_demo s db

unfoldable pub seed_tables : SeedDraws → Db → Result (Tenant × Db)
seed_tables s db = get_or_create_tenant s (find_demo db) db >>= λ r.
    ensure_all (steps s r.0.id) r.1 >>= λ seeded. ok (r.0, seeded)

-- What the script prints.
abbrev pub ids_of : Tenant → List (String × Text)
ids_of t =
    ("tenant_id", uuid_text t.id)
    ∷ ("market_id", uuid_text Id.market)
    ∷ ("camera_id", uuid_text Id.camera)
    ∷ ("context_mode_id", uuid_text Id.mode)
    ∷ ("lens_id", uuid_text Id.lens)
    ∷ ("root_admin_subject", plain "auth0|seed-root-admin")
    ∷ []

module _ {K : KeyStore} where
  abbrev pub commit : Result (Tenant × Db) → Exec (World K) (List (String × Text))
  commit (raised e) w = (raised e, w)
  commit (ok r) w = (
    ok (ids_of r.0),
    record w {
      db = r.1;
      redis = KeyStore.set_key K (active_mode Id.camera) (uuid_text Id.mode) 86400 w.redis;
    },
  )

  unfoldable pub seed : SeedDraws → Exec (World K) (List (String × Text))
  seed s w = commit (seed_tables s w.db) w
