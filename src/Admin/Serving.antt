-- ===== src/Admin/Serving.antt =====
-- The routes of runtime/src/argus/api/admin, for requests that are served one after the other.
use argus_services.Prelude.{ℕ, List, [], ◌∷◌, find?-more, All-mono, Bool-cases, inl, inr}
use argus_services.Exec.{Result, pure, continue}
use argus_services.Exec.Triple.{Post, Post-always, continue-Post}
use argus_services.Domain.Enums.{root_admin, tenant_admin}
use argus_services.World.{World}
use argus_services.World.Redis.{KeyStore}
use argus_services.World.Session.{Context}
use argus_services.Access.Transactions.{tenant_route-keeps}
use argus_services.Cameras.{
  CreateCameraRequest, CreateRegionRequest, create_camera, create_region, get_market, get_camera,
  market_is_of, camera_is_of, has_device,
}
use argus_services.Cameras.Ownership.{create_camera-IsOwned, create_region-IsOwned}
use argus_services.Admin.Tenants.{create_market}
use argus_services.Admin.Modes.{create_context_mode}
use argus_services.Admin.Notifications.{create_notification_config}
use argus_services.Admin.Calls.{
  Call, add_market, add_camera, add_region, add_mode, add_schedule, add_lens, add_rule, add_config,
  Request, handle, serve_one, serve,
}
use argus_services.Admin.Ownership.{
  HangsTogether, IsSetUp, more_modes, more_regions, create_schedule-IsSetUp, create_lens-IsSetUp,
  create_rule-IsSetUp,
}

module _ {K : KeyStore} where
  create_camera-HangsTogether :
      (id tenant_id market_id : ℕ) (body : CreateCameraRequest) (c : Context) (w : World K)
      → HangsTogether w.db
      → HangsTogether (create_camera id tenant_id market_id body c w).1.db
  unfolding create_camera
  create_camera-HangsTogether id tenant_id market_id body c w h =
      elim (Bool-cases (market_is_of tenant_id (get_market c market_id w.db))) [
        | inl found ↦ rw found (elim (Bool-cases (has_device tenant_id body.edge_device_id w.db)) [
          | inl twice ↦ rw twice h
          | inr once ↦ rw once (record {
            schedules = h.schedules;
            lenses = h.lenses;
            rules = h.rules;
            mappings = h.mappings;
          })
        ])
        | inr missing ↦ rw missing h
      ]

  create_region-HangsTogether :
      (id tenant_id camera_id : ℕ) (body : CreateRegionRequest) (c : Context) (w : World K)
      → HangsTogether w.db
      → HangsTogether (create_region id tenant_id camera_id body c w).1.db
  unfolding create_region
  create_region-HangsTogether id tenant_id camera_id body c w h =
      elim (Bool-cases (camera_is_of tenant_id (get_camera c camera_id w.db))) [
        | inl found ↦ rw found (more_regions w.db _ h)
        | inr missing ↦ rw missing h
      ]

  -- A handler with a result, and then none.
  dropped :
      {A : Type 0} (r : Result A) (w : World K)
      → Post (λ _ (v : World K). IsSetUp v.db) r w
      → Post
          (λ _ (v : World K). IsSetUp v.db)
          (continue r (λ _. pure tt) w).0
          (continue r (λ _. pure tt) w).1
  dropped r w h =
      continue-Post (λ _ (v : World K). IsSetUp v.db) _ (λ _. pure tt) r w
        (λ _. record { run = λ v k. k }) h

  handle-IsSetUp :
      (call : Call) (tenant_id : ℕ) (c : Context) (w : World K)
      → IsSetUp w.db
      → Post
          (λ _ (v : World K). IsSetUp v.db)
          (handle call tenant_id c w).0
          (handle call tenant_id c w).1
  unfolding handle create_market create_context_mode create_notification_config
  handle-IsSetUp (add_market id body) t c w (o, h) = (
    (All-mono (λ x k. find?-more _ w.db.markets _ k) w.db.cameras o.0, o.1),
    record { schedules = h.schedules; lenses = h.lenses; rules = h.rules; mappings = h.mappings },
  )
  handle-IsSetUp (add_camera id m body) t c w (o, h) = dropped _ _ (
      Post-always (λ (v : World K). IsSetUp v.db) _ _
        (create_camera-IsOwned id t m body c w o, create_camera-HangsTogether id t m body c w h))
  handle-IsSetUp (add_region id x body) t c w (o, h) = dropped _ _ (
      Post-always (λ (v : World K). IsSetUp v.db) _ _
        (create_region-IsOwned id t x body c w o, create_region-HangsTogether id t x body c w h))
  handle-IsSetUp (add_mode id body) t c w (o, h) = (o, more_modes w.db _ h)
  handle-IsSetUp (add_schedule id m body) t c w h =
      dropped _ _ (create_schedule-IsSetUp id t m body c w h)
  handle-IsSetUp (add_lens id m body) t c w h = dropped _ _ (create_lens-IsSetUp id t m body c w h)
  handle-IsSetUp (add_rule s body) t c w h = dropped _ _ (create_rule-IsSetUp s t body c w h)
  handle-IsSetUp (add_config id body) t c w (o, h) = (
    o,
    record { schedules = h.schedules; lenses = h.lenses; rules = h.rules; mappings = h.mappings },
  )

  serve_one-IsSetUp : (r : Request) (w : World K) → IsSetUp w.db → IsSetUp (serve_one r w).1.db
  unfolding serve_one
  serve_one-IsSetUp r w h =
      tenant_route-keeps IsSetUp (tenant_admin ∷ root_admin ∷ []) r.tenant_id r.auth
        (λ c _. handle r.call r.tenant_id c) w (λ c _. handle-IsSetUp r.call r.tenant_id c w h) h

  -- After any requests of admins, granted or refused, with whatever ids in them, every camera is in a
  -- market, every region on a camera, every schedule, lens and rule in a mode, and every mapping between
  -- a rule and a region, of the row's own tenant, if that was so before.
  pub serve-IsSetUp :
      (requests : List Request) (w : World K) → IsSetUp w.db → IsSetUp (serve requests w).db
  unfolding serve
  serve-IsSetUp [] w h = h
  serve-IsSetUp (r ∷ rest) w h = serve-IsSetUp rest (serve_one r w).1 (serve_one-IsSetUp r w h)
