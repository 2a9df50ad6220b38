-- ===== src/Events.antt =====
-- runtime/src/argus/services/ws_events.py and runtime/src/argus/integrations/events.py: an event is
-- published to the tenant's WebSocket room, or to the transport that the settings choose. Whether the
-- cloud service takes an event is a parameter. Envelope timestamps are left out.
use argus_services.Prelude.{
  String, Bool, Bool-cases, inl, inr, ◌≡◌, refl, [], ◌∷◌, ◌++◌, str_eq, if◌then◌else◌,
}
use argus_services.Exec.{Exec, ok, raised, runtime_error, service_error}
use argus_services.Exec.Triple.{Post}
use argus_services.World.{World, Event}
use argus_services.World.Redis.{KeyStore}

pub data Transport : Type 0 where
  log sns eventbridge : Transport

pub record EventSettings : Type 0 where
  pub event_transport : Transport
  pub sns_topic_arn : String
  pub aws_accepts : Event → Bool

module _ {K : KeyStore} where
  unfoldable pub publish_ws_event : Event → Exec (World K) Unit
  publish_ws_event e w = (ok tt, record w { ws_events = w.ws_events ++ e ∷ [] })

  send_app_event : Event → World K → World K
  send_app_event e w = record w { app_events = w.app_events ++ e ∷ [] }

  unfoldable pub publish_aws : EventSettings → Transport → Event → Exec (World K) Unit
  unfolding send_app_event
  publish_aws S log e w = (ok tt, w)
  publish_aws S sns e w =
      if str_eq S.sns_topic_arn ""
      then (raised (runtime_error "SNS_TOPIC_ARN is required when EVENT_TRANSPORT=sns"), w)
      else if S.aws_accepts e
      then (ok tt, send_app_event e w)
      else (raised (service_error "sns"), w)
  publish_aws S eventbridge e w =
      if S.aws_accepts e then (ok tt, send_app_event e w) else (raised (service_error "events"), w)

  -- With the transport `log` the event goes to the log, which is its destination.
  publish_by : EventSettings → Transport → Event → Exec (World K) Unit
  unfolding publish_aws send_app_event
  publish_by S log e w = (ok tt, send_app_event e w)
  publish_by S sns e w = publish_aws S sns e w
  publish_by S eventbridge e w = publish_aws S eventbridge e w

  unfoldable pub publish_event : EventSettings → Event → Exec (World K) Unit
  unfolding publish_by
  publish_event S e w = publish_by S S.event_transport e w

  -- What publishing to the transport leaves alone.
  abbrev pub Keeps : World K → World K → Type 0
  Keeps w v =
      (v.db ≡ w.db) × (v.redis ≡ w.redis) × (v.ws_events ≡ w.ws_events) × (v.tasks ≡ w.tasks)

  publish_by-Keeps :
      (S : EventSettings) (t : Transport) (e : Event) (w : World K)
      → Post (λ _. Keeps w) (publish_by S t e w).0 (publish_by S t e w).1
  unfolding publish_by
  publish_by-Keeps S log e w = (refl, refl, refl, refl)
  publish_by-Keeps S sns e w = elim (Bool-cases (str_eq S.sns_topic_arn "")) [
    | inl missing ↦ rw missing tt
    | inr set ↦ elim (Bool-cases (S.aws_accepts e)) [
      | inl taken ↦ rw (set, taken) (refl, refl, refl, refl)
      | inr refused ↦ rw (set, refused) tt
    ]
  ]
  publish_by-Keeps S eventbridge e w = elim (Bool-cases (S.aws_accepts e)) [
    | inl taken ↦ rw taken (refl, refl, refl, refl)
    | inr refused ↦ rw refused tt
  ]

  pub publish_event-Keeps :
      (S : EventSettings) (e : Event) (w : World K)
      → Post (λ _. Keeps w) (publish_event S e w).0 (publish_event S e w).1
  unfolding publish_event
  publish_event-Keeps S e w = publish_by-Keeps S S.event_transport e w
