-- ===== src/Cameras.antt =====
-- runtime/src/argus/api/admin/cameras.py: an admin of a tenant adds cameras to markets and regions to
-- cameras.
pub mod Ownership
use argus_services.Prelude.{
  ℕ, String, Bool, true, false, not, ◌&&◌, ◌==◌, str_eq, Option, none, some, List, [], ◌∷◌, ◌++◌,
  find?, select, is_some, if◌then◌else◌,
}
use argus_services.Exec.{Exec, Result, ok, raised, http_exception, integrity_error}
use argus_services.Domain.Enums.{root_admin, tenant_admin}
use argus_services.Domain.Json.{Json}
use argus_services.Domain.Models.{Market, Camera, RegionOfInterest}
use argus_services.World.{World, Db}
use argus_services.World.Redis.{KeyStore}
use argus_services.World.Session.{Context, allows}
use argus_services.Auth.{AuthContext}
use argus_services.Access.{tenant_route}

pub record CreateCameraRequest : Type 0 where
  pub name : String
  pub edge_device_id : String

pub record CreateRegionRequest : Type 0 where
  pub name : String
  pub polygon : Json

unfoldable pub get_market : Context → ℕ → Db → Option Market
get_market c id db = find? (λ (m : Market). allows c m.tenant_id && m.id == id) db.markets

unfoldable pub get_camera : Context → ℕ → Db → Option Camera
get_camera c id db = find? (λ (x : Camera). allows c x.tenant_id && x.id == id) db.cameras

abbrev pub new_camera : ℕ → ℕ → ℕ → CreateCameraRequest → Camera
new_camera id tenant_id market_id body = record {
  id = id;
  tenant_id = tenant_id;
  market_id = market_id;
  name = body.name;
  edge_device_id = body.edge_device_id;
  is_active = true;
  deleted_at = none;
}

abbrev pub new_region : ℕ → ℕ → ℕ → CreateRegionRequest → RegionOfInterest
new_region id tenant_id camera_id body = record {
  id = id;
  tenant_id = tenant_id;
  camera_id = camera_id;
  name = body.name;
  polygon = body.polygon;
}

-- The `market is None or market.tenant_id != tenant_id` of the routes.
abbrev pub market_is_of : ℕ → Option Market → Bool
market_is_of tenant_id none = false
market_is_of tenant_id (some m) = m.tenant_id == tenant_id

abbrev pub camera_is_of : ℕ → Option Camera → Bool
camera_is_of tenant_id none = false
camera_is_of tenant_id (some x) = x.tenant_id == tenant_id

-- The unique constraint on tenant and device.
abbrev pub has_device : ℕ → String → Db → Bool
has_device tenant_id device db =
    is_some (
      find? (λ (x : Camera). x.tenant_id == tenant_id && str_eq x.edge_device_id device) db.cameras)

module _ {K : KeyStore} where
  -- `id` is the new row's.
  unfoldable pub create_camera : ℕ → ℕ → ℕ → CreateCameraRequest → Context → Exec (World K) Camera
  create_camera id tenant_id market_id body c w =
      if market_is_of tenant_id (get_market c market_id w.db)
      then (if has_device tenant_id body.edge_device_id w.db
          then (raised (integrity_error "uq_cameras_tenant_edge_device"), w)
          else (
            ok (new_camera id tenant_id market_id body),
            record w {
              db = record w.db {
                cameras = w.db.cameras ++ new_camera id tenant_id market_id body ∷ [];
              };
            },
          ))
      else (raised (http_exception 404 "Market not found"), w)

  unfoldable pub create_region :
      ℕ → ℕ → ℕ → CreateRegionRequest → Context → Exec (World K) RegionOfInterest
  create_region id tenant_id camera_id body c w =
      if camera_is_of tenant_id (get_camera c camera_id w.db)
      then (
        ok (new_region id tenant_id camera_id body),
        record w {
          db = record w.db {
            regions = w.db.regions ++ new_region id tenant_id camera_id body ∷ [];
          };
        },
      )
      else (raised (http_exception 404 "Camera not found"), w)

  unfoldable pub create_camera_route :
      ℕ → ℕ → ℕ → CreateCameraRequest → AuthContext → Exec (World K) Camera
  create_camera_route id tenant_id market_id body auth =
      tenant_route (tenant_admin ∷ root_admin ∷ []) tenant_id auth
        (λ c _. create_camera id tenant_id market_id body c)

-- `list_cameras`: those that were not deleted.
unfoldable pub list_cameras : Context → Db → List Camera
list_cameras c db =
    select (λ (x : Camera). allows c x.tenant_id && not (is_some x.deleted_at)) db.cameras
