-- ===== src/Admin/Notifications.antt =====
-- runtime/src/argus/api/admin/notifications.py: the recipients of warnings, and what was delivered.
use argus_services.Prelude.{ℕ, String, true, ◌&&◌, ◌==◌, List, [], ◌∷◌, ◌++◌, select, if◌then◌else◌}
use argus_services.Exec.{Exec, Result, ok, raised, http_exception}
use argus_services.Domain.Enums.{NotificationChannel}
use argus_services.Domain.Models.{Decision, NotificationConfig, NotificationDelivery}
use argus_services.World.{World, Db}
use argus_services.World.Redis.{KeyStore}
use argus_services.World.Session.{Context, allows}
use argus_services.Aggregation.Decisions.{get_decision}
use argus_services.Admin.{is_of}

pub record CreateNotificationConfigRequest : Type 0 where
  pub channel : NotificationChannel
  pub recipient : String

abbrev pub new_config : ℕ → ℕ → CreateNotificationConfigRequest → NotificationConfig
new_config id tenant_id body = record {
  id = id;
  tenant_id = tenant_id;
  channel = body.channel;
  recipient = body.recipient;
  is_active = true;
}

module _ {K : KeyStore} where
  unfoldable pub create_notification_config :
      ℕ → ℕ → CreateNotificationConfigRequest → Exec (World K) NotificationConfig
  create_notification_config id tenant_id body w = (
    ok (new_config id tenant_id body),
    record w { db = record w.db { configs = w.db.configs ++ new_config id tenant_id body ∷ [] } },
  )

unfoldable pub list_notification_configs : Context → Db → List NotificationConfig
list_notification_configs c db =
    select (λ (x : NotificationConfig). allows c x.tenant_id) db.configs

unfoldable pub list_decision_deliveries : ℕ → ℕ → Context → Db → Result (List NotificationDelivery)
list_decision_deliveries tenant_id decision_id c db =
    if is_of (λ (x : Decision). x.tenant_id) tenant_id (get_decision c decision_id db)
    then ok (
        select (λ (x : NotificationDelivery). allows c x.tenant_id && x.decision_id == decision_id)
          db.deliveries)
    else raised (http_exception 404 "Decision not found")
