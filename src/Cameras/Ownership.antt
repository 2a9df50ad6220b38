-- ===== src/Cameras/Ownership.antt =====
-- The markets of cameras and the cameras of regions, along runtime/src/argus/api/admin/cameras.py.
use argus_services.Prelude.{
  ℕ, true, ◌&&◌, ◌==◌, ◌≡◌, List, [], ◌∷◌, ◌++◌, find?, find?-more, is_some, All, All-append,
  All-mono, Bool-cases, inl, inr, arith,
}
use argus_services.Domain.Models.{Market, Camera, RegionOfInterest}
use argus_services.World.{World, Db}
use argus_services.World.Redis.{KeyStore}
use argus_services.World.Session.{Context, allows}
use argus_services.Cameras.{
  CreateCameraRequest, CreateRegionRequest, has_device, create_camera, create_region, get_market,
  get_camera, market_is_of, camera_is_of, new_camera,
}

abbrev pub HasMarket : List Market → Camera → Type 0
HasMarket markets x =
    is_some (find? (λ (m : Market). m.tenant_id == x.tenant_id && m.id == x.market_id) markets)
    ≡ true

abbrev pub HasCamera : List Camera → RegionOfInterest → Type 0
HasCamera cameras r =
    is_some (find? (λ (x : Camera). x.tenant_id == r.tenant_id && x.id == r.camera_id) cameras)
    ≡ true

abbrev pub IsOwned : Db → Type 0
IsOwned db = All (HasMarket db.markets) db.cameras × All (HasCamera db.cameras) db.regions

-- A row that a narrower test of the session found is found by the keys alone.
find_market :
    (c : Context) (tenant_id id : ℕ) (markets : List Market)
    → market_is_of tenant_id (find? (λ (m : Market). allows c m.tenant_id && m.id == id) markets)
      ≡ true
    → is_some (find? (λ (m : Market). m.tenant_id == tenant_id && m.id == id) markets) ≡ true
find_market c tenant_id id [] h = cc
find_market c tenant_id id (m ∷ ms) h = ground (arith, h, find_market c tenant_id id ms)

find_camera :
    (c : Context) (tenant_id id : ℕ) (cameras : List Camera)
    → camera_is_of tenant_id (find? (λ (x : Camera). allows c x.tenant_id && x.id == id) cameras)
      ≡ true
    → is_some (find? (λ (x : Camera). x.tenant_id == tenant_id && x.id == id) cameras) ≡ true
find_camera c tenant_id id [] h = cc
find_camera c tenant_id id (x ∷ xs) h = ground (arith, h, find_camera c tenant_id id xs)

module _ {K : KeyStore} where
  -- A new camera, or its refusal, keeps every camera in a market and every region on a camera of the same
  -- tenant.
  pub create_camera-IsOwned :
      (id tenant_id market_id : ℕ) (body : CreateCameraRequest) (c : Context) (w : World K)
      → IsOwned w.db
      → IsOwned (create_camera id tenant_id market_id body c w).1.db
  unfolding create_camera get_market
  create_camera-IsOwned id tenant_id market_id body c w (cams, regs) =
      elim (Bool-cases (market_is_of tenant_id (get_market c market_id w.db))) [
        | inl found ↦ rw found (elim (Bool-cases (has_device tenant_id body.edge_device_id w.db)) [
          | inl twice ↦ rw twice (cams, regs)
          | inr once ↦ rw once (
            All-append (HasMarket w.db.markets) w.db.cameras _ cams
                (find_market c tenant_id market_id w.db.markets found, tt),
            All-mono {P = HasCamera w.db.cameras}
                {Q = HasCamera (w.db.cameras ++ new_camera id tenant_id market_id body ∷ [])}
                (λ r h. find?-more _ w.db.cameras _ h) w.db.regions regs,
          )
        ])
        | inr no_market ↦ rw no_market (cams, regs)
      ]

  -- A new region, or its refusal, does so too.
  pub create_region-IsOwned :
      (id tenant_id camera_id : ℕ) (body : CreateRegionRequest) (c : Context) (w : World K)
      → IsOwned w.db
      → IsOwned (create_region id tenant_id camera_id body c w).1.db
  unfolding create_region get_camera
  create_region-IsOwned id tenant_id camera_id body c w (cams, regs) =
      elim (Bool-cases (camera_is_of tenant_id (get_camera c camera_id w.db))) [
        | inl found ↦ rw found (
          cams,
          All-append (HasCamera w.db.cameras) w.db.regions _ regs
              (find_camera c tenant_id camera_id w.db.cameras found, tt),
        )
        | inr no_camera ↦ rw no_camera (cams, regs)
      ]
