-- ===== src/Notifier.antt =====
-- runtime/src/argus/workers/notifier.py: the messages about a decision that came into WARNING. What the
-- provider answers to a message is a parameter (integrations/twilio_client.py calls it). The row of a
-- delivery is flushed as PENDING before the send; nobody reads it before the commit, so it is written
-- here once, as what it becomes.
pub mod Deliveries
mod Tests
use argus_services.Prelude.{
  ℕ, String, Bool, true, ◌&&◌, ◌==◌, Option, none, some, List, [], ◌∷◌, ◌++◌, select, if◌then◌else◌,
}
use argus_services.Exec.{Exec, Result, ok, raised, value_error, service_error, pure, ◌>>=◌, ◌>>◌}
use argus_services.Domain.Enums.{NotificationStatus, sent, failed, root_admin}
use argus_services.Domain.Models.{Decision, NotificationConfig, NotificationDelivery}
use argus_services.World.{World, Db, Message}
use argus_services.World.Redis.{KeyStore}
use argus_services.World.Session.{Context, allows, tenant_session}
use argus_services.Aggregation.Decisions.{get_decision}

pub data SendResult : Type 0 where
  sid : String → SendResult
  error : String → SendResult

-- The time of the transaction, the ids of the new rows, by config, and the answers of the provider.
pub record NotifierDraws : Type 0 where
  pub now : ℕ
  pub delivery_id : ℕ → ℕ
  pub send : Message → SendResult

abbrev pub message_for : Decision → NotificationConfig → Message
message_for d c = record {
  channel = c.channel;
  to = c.recipient;
  decision_id = d.id;
  camera_id = d.camera_id;
}

abbrev pub delivery_of :
    NotifierDraws
    → Decision
    → NotificationConfig
    → NotificationStatus
    → Option String
    → Option String
    → NotificationDelivery
delivery_of s d c status provider_message_id error_detail = record {
  id = s.delivery_id c.id;
  tenant_id = d.tenant_id;
  decision_id = d.id;
  config_id = c.id;
  channel = c.channel;
  status = status;
  provider_message_id = provider_message_id;
  error_detail = error_detail;
  updated_at = s.now;
}

unfoldable pub active_configs : Context → Decision → Db → List NotificationConfig
active_configs c d db =
    select
      (λ (x : NotificationConfig).
        allows c x.tenant_id && (x.tenant_id == d.tenant_id && x.is_active))
      db.configs

module _ {K : KeyStore} where
  abbrev add_delivery : NotificationDelivery → World K → World K
  add_delivery x w = record w { db = record w.db { deliveries = w.db.deliveries ++ x ∷ [] } }

  unfoldable pub record_answer :
      NotifierDraws → Decision → NotificationConfig → SendResult → Exec (World K) (Unit {0})
  record_answer s d c (sid id) w = (
    ok tt,
    record (add_delivery (delivery_of s d c sent (some id) none) w) {
      sent = w.sent ++ message_for d c ∷ [];
    },
  )
  record_answer s d c (error text) w =
      (raised (service_error text), add_delivery (delivery_of s d c failed none (some text)) w)

  unfoldable pub deliver : NotifierDraws → Decision → NotificationConfig → Exec (World K) (Unit {0})
  deliver s d c = record_answer s d c (s.send (message_for d c))

  unfoldable pub deliver_all :
      NotifierDraws → Decision → List NotificationConfig → Exec (World K) (Unit {0})
  deliver_all s d [] = pure tt
  deliver_all s d (c ∷ rest) = deliver s d c >> deliver_all s d rest

  unfoldable pub notify_found : NotifierDraws → Context → Option Decision → Exec (World K) ℕ
  notify_found s c none w = (raised (value_error "Decision not found"), w)
  notify_found s c (some d) w = (deliver_all s d (active_configs c d w.db) >> pure d.id) w

  unfoldable pub notify_block : NotifierDraws → ℕ → Context → Exec (World K) ℕ
  notify_block s id c w = notify_found s c (get_decision c id w.db) w

  unfoldable pub notify_warning : NotifierDraws → ℕ → Exec (World K) ℕ
  notify_warning s id = tenant_session none (some root_admin) (notify_block s id)
