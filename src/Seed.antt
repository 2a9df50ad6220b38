-- ===== src/Seed.antt =====
-- runtime/scripts/seed.py: the rows of a development database, each added where it is missing, in one
-- transaction of root, and the active mode of the demo camera. The two ids that the database draws are
-- arguments.
pub mod Id
pub mod Steps
pub mod Growth
pub mod StepLaws
pub mod Again
mod Tests
use argus_services.Prelude.{
  ℕ, pos, String, Bool, true, false, ◌&&◌, ◌||◌, ◌==◌, eq_opt, str_eq, Option, none, some, List, [],
  ◌∷◌, ◌++◌, find?, is_some, if◌then◌else◌,
}
use argus_services.Exec.{Result, ok, raised, integrity_error}
use argus_services.Exec.Fallible.{◌>>=◌}
use argus_services.Domain.Enums.{UserRole, root_admin, tenant_admin, watcher, role_eq, sms}
use argus_services.Domain.Json.{
  Json, null, bool, int, float, str, arr, obj, nil, cons, Fields, end, field, uuid_text,
}
use argus_services.Domain.Models.{
  Tenant, TenantUser, Market, Camera, RegionOfInterest, ContextMode, ContextModeCameraAssignment,
  Lens, Rule, RuleRegionMapping, NotificationConfig,
}
use argus_services.World.{World, Db}
use argus_services.World.Redis.{KeyStore, active_mode}
use argus_services.Seed.Id

-- The ids that are drawn, and the time of the transaction.
pub record SeedDraws : Type 0 where
  pub now : ℕ
  pub assignment_id : ℕ
  pub mapping_id : ℕ

abbrev pub demo_tenant : ℕ → Tenant
demo_tenant now = record {
  id = Id.tenant;
  name = "Demo Retail";
  slug = "demo-retail";
  aggregation_window_secs = 300;
  weird_threshold = pos 2;
  warning_threshold = pos 5;
  settings = end;
  updated_at = now;
}

abbrev pub demo_market : ℕ → Market
demo_market tenant_id = record {
  id = Id.market;
  tenant_id = tenant_id;
  name = "Downtown Store";
  timezone = "America/New_York";
  deleted_at = none;
}

abbrev pub demo_camera : ℕ → Camera
demo_camera tenant_id = record {
  id = Id.camera;
  tenant_id = tenant_id;
  market_id = Id.market;
  name = "Entrance Cam";
  edge_device_id = "edge-demo-001";
  is_active = true;
  deleted_at = none;
}

-- A corner; 0.1 and 0.9 as patterns of 64 bits.
abbrev corner : ℕ → ℕ → Json
corner x y = obj (field "x" (float x) (field "y" (float y) end))

abbrev pub demo_region : ℕ → RegionOfInterest
demo_region tenant_id =
    let low : ℕ = 0x3FB999999999999A in
    let high : ℕ = 0x3FECCCCCCCCCCCCD in
    record {
      id = Id.region;
      tenant_id = tenant_id;
      camera_id = Id.camera;
      name = "Checkout Zone";
      polygon = arr (cons (corner low low) (cons (corner high low) (cons (corner high high) nil)));
    }

abbrev pub demo_mode : ℕ → ContextMode
demo_mode tenant_id = record {
  id = Id.mode;
  tenant_id = tenant_id;
  name = "Business Hours";
  description = some "Default surveillance context for store hours";
  is_active = true;
}

abbrev pub demo_assignment : SeedDraws → ℕ → ContextModeCameraAssignment
demo_assignment s tenant_id = record {
  id = s.assignment_id;
  tenant_id = tenant_id;
  context_mode_id = Id.mode;
  camera_id = Id.camera;
}

abbrev type_of : String → Json
type_of t = obj (field "type" (str t) end)

abbrev pub demo_lens : ℕ → Lens
demo_lens tenant_id = record {
  id = Id.lens;
  tenant_id = tenant_id;
  context_mode_id = Id.mode;
  name = "Shelf Monitoring";
  system_prompt =
      "Analyze the scene for suspicious activity near shelves. NEVER identify individuals or infer biometric attributes.";
  output_schema = field "type" (str "object") (
      field "properties"
        (obj (field "suspicious" (type_of "boolean") (field "description" (type_of "string") end)))
        (field "required" (arr (cons (str "suspicious") (cons (str "description") nil))) end));
  version = pos 1;
}

abbrev pub demo_rule : ℕ → Rule
demo_rule tenant_id = record {
  id = Id.rule;
  tenant_id = tenant_id;
  context_mode_id = Id.mode;
  name = "Shelf Tamper";
  condition =
      field "field" (str "suspicious") (field "op" (str "eq") (field "value" (bool true) end));
  severity_weight = pos 3;
}

abbrev pub demo_mapping : SeedDraws → ℕ → RuleRegionMapping
demo_mapping s tenant_id = record {
  id = s.mapping_id;
  tenant_id = tenant_id;
  rule_id = Id.rule;
  region_id = Id.region;
}

abbrev pub demo_user : ℕ → Option ℕ → String → String → UserRole → TenantUser
demo_user id tenant_id subject email role = record {
  id = id;
  tenant_id = tenant_id;
  idp_subject = subject;
  email = email;
  role = role;
}

abbrev pub demo_config : ℕ → NotificationConfig
demo_config tenant_id = record {
  id = Id.notif;
  tenant_id = tenant_id;
  channel = sms;
  recipient = "+15551234567";
  is_active = true;
}

-- A row that is looked for, and how it is added.
pub record Ensured : Type 0 where
  pub is_there : Db → Bool
  pub add : Db → Result Db

unfoldable pub ensure : Ensured → Db → Result Db
ensure e db = if e.is_there db then ok db else e.add db

unfoldable pub ensure_all : List Ensured → Db → Result Db
ensure_all [] db = ok db
ensure_all (e ∷ rest) db = ensure e db >>= ensure_all rest
