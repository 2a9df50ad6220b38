-- ===== src/Notifier/Tests.antt =====
-- One warning, one recipient.
use argus_services.Prelude.{◌+◌, true, [], ◌∷◌, ◌≢◌, All}
use argus_services.Domain.Enums.{sms, failed}
use argus_services.Domain.Models.{Decision, NotificationConfig, NotificationDelivery}
use argus_services.World.{World}
use argus_services.World.Redis.{assoc_store}
use argus_services.Fixtures.{tenant, evidence_at, start}
use argus_services.Aggregation.Decisions.{new_decision}
use argus_services.Notifier.{NotifierDraws, sid, notify_warning}
use argus_services.Notifier.Deliveries.{notify_warning_never_failed}

abbrev config : NotificationConfig
config = record { id = 60; tenant_id = 7; channel = sms; recipient = "+1555"; is_active = true }

abbrev warned : Decision
warned = new_decision 1 100 (evidence_at 1 1000000000 3) tenant

abbrev stored : World assoc_store
stored = record start { db = record start.db { decisions = warned ∷ []; configs = config ∷ [] } }

abbrev answers : NotifierDraws
answers = record { now = 5; delivery_id = λ c. 500 + c; send = λ m. sid "SM1" }

notify_warning_never_failed_example :
    All
      (λ (x : NotificationDelivery). x.status ≢ failed)
      (notify_warning answers 100 stored).1.db.deliveries
notify_warning_never_failed_example = notify_warning_never_failed answers 100 stored tt
