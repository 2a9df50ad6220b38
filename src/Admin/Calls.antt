-- ===== src/Admin/Calls.antt =====
-- The calls by which the admins of tenants set them up, as requests that are served one after the other.
use argus_services.Prelude.{ℕ, List, [], ◌∷◌}
use argus_services.Exec.{Exec, pure, ◌>>◌}
use argus_services.Domain.Enums.{root_admin, tenant_admin}
use argus_services.World.{World}
use argus_services.World.Redis.{KeyStore}
use argus_services.World.Session.{Context}
use argus_services.Auth.{AuthContext}
use argus_services.Access.{tenant_route}
use argus_services.Cameras.{CreateCameraRequest, CreateRegionRequest, create_camera, create_region}
use argus_services.Admin.Tenants.{CreateMarketRequest, create_market}
use argus_services.Admin.Modes.{
  CreateContextModeRequest, CreateScheduleRequest, CreateLensRequest, create_context_mode,
  create_schedule, create_lens,
}
use argus_services.Admin.Rules.{CreateRuleRequest, RuleDraws, create_rule}
use argus_services.Admin.Notifications.{CreateNotificationConfigRequest, create_notification_config}

-- A POST route with its path and its body; the first number is the new row's id.
pub data Call : Type 0 where
  add_market : ℕ → CreateMarketRequest → Call
  add_camera : (id market_id : ℕ) → CreateCameraRequest → Call
  add_region : (id camera_id : ℕ) → CreateRegionRequest → Call
  add_mode : ℕ → CreateContextModeRequest → Call
  add_schedule : (id mode_id : ℕ) → CreateScheduleRequest → Call
  add_lens : (id mode_id : ℕ) → CreateLensRequest → Call
  add_rule : RuleDraws → CreateRuleRequest → Call
  add_config : ℕ → CreateNotificationConfigRequest → Call

pub record Request : Type 0 where
  pub tenant_id : ℕ
  pub auth : AuthContext
  pub call : Call

module _ {K : KeyStore} where
  unfoldable pub handle : Call → ℕ → Context → Exec (World K) (Unit {0})
  handle (add_market id body) tenant_id c = create_market id tenant_id body >> pure tt
  handle (add_camera id market_id body) tenant_id c =
      create_camera id tenant_id market_id body c >> pure tt
  handle (add_region id camera_id body) tenant_id c =
      create_region id tenant_id camera_id body c >> pure tt
  handle (add_mode id body) tenant_id c = create_context_mode id tenant_id body >> pure tt
  handle (add_schedule id mode_id body) tenant_id c =
      create_schedule id tenant_id mode_id body c >> pure tt
  handle (add_lens id mode_id body) tenant_id c = create_lens id tenant_id mode_id body c >> pure tt
  handle (add_rule s body) tenant_id c = create_rule s tenant_id body c >> pure tt
  handle (add_config id body) tenant_id c = create_notification_config id tenant_id body >> pure tt

  unfoldable pub serve_one : Request → Exec (World K) (Unit {0})
  serve_one r =
      tenant_route (tenant_admin ∷ root_admin ∷ []) r.tenant_id r.auth
        (λ c _. handle r.call r.tenant_id c)

  -- What the services keep after the requests, answered or refused.
  unfoldable pub serve : List Request → World K → World K
  serve [] w = w
  serve (r ∷ rest) w = serve rest (serve_one r w).1
