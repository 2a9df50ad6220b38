-- ===== src/World.antt =====
-- What the services share: the tables, Redis, the events that were published and the Celery tasks that
-- were queued.
pub mod Redis
pub mod Session
use argus_services.Prelude.{
  ℕ, ℤ, String, Option, List, [], ◌∷◌, ◌++◌, Bool, true, ◌==◌, find?, update,
}
use argus_services.Exec.{Exec, modify}
use argus_services.Domain.Enums.{DecisionState, NotificationChannel}
use argus_services.Domain.Models.{
  Tenant, TenantUser, RuleRegionMapping, Market, Camera, RegionOfInterest, ContextMode,
  ContextModeSchedule, ContextModeCameraAssignment, Lens, Rule, Evidence, Decision,
  DecisionEvidence, Feedback, AuditRecord, NotificationConfig, NotificationDelivery,
}
use Redis.{KeyStore}

-- The rows of each table, oldest first.
pub record Db : Type 0 where
  pub tenants : List Tenant
  pub users : List TenantUser
  pub markets : List Market
  pub cameras : List Camera
  pub regions : List RegionOfInterest
  pub context_modes : List ContextMode
  pub schedules : List ContextModeSchedule
  pub assignments : List ContextModeCameraAssignment
  pub lenses : List Lens
  pub rules : List Rule
  pub rule_regions : List RuleRegionMapping
  pub evidences : List Evidence
  pub decisions : List Decision
  pub links : List DecisionEvidence
  pub feedback : List Feedback
  pub audit : List AuditRecord
  pub configs : List NotificationConfig
  pub deliveries : List NotificationDelivery

abbrev pub empty_db : Db
empty_db = record {
  tenants = [];
  users = [];
  markets = [];
  cameras = [];
  regions = [];
  context_modes = [];
  schedules = [];
  assignments = [];
  lenses = [];
  rules = [];
  rule_regions = [];
  evidences = [];
  decisions = [];
  links = [];
  feedback = [];
  audit = [];
  configs = [];
  deliveries = [];
}

-- The payloads of the published events, without the copies of their fields as texts.
pub data EventPayload : Type 0 where
  state_changed :
      (decision_id camera_id : ℕ) (region_id : Option ℕ) (previous current : DecisionState)
      (severity : ℤ) (count : ℕ)
      → EventPayload
  state_changed_brief : (decision_id : ℕ) (current previous : DecisionState) → EventPayload
  resolved :
      (decision_id : ℕ) (state : DecisionState) (resolved_by : String) (resolved_at : ℕ)
      → EventPayload

pub record Event : Type 0 where
  pub tenant_id : ℕ
  pub event_type : String
  pub payload : EventPayload

pub data Task : Type 0 where
  notify_warning aggregate_evidence : ℕ → Task

-- A text message that a provider took: of which decision and camera, and to whom.
pub record Message : Type 0 where
  pub channel : NotificationChannel
  pub to : String
  pub decision_id : ℕ
  pub camera_id : ℕ

pub record World (K : KeyStore) : Type 0 where
  pub db : Db
  pub redis : KeyStore.State K
  pub ws_events : List Event
  pub app_events : List Event
  pub tasks : List Task
  pub sent : List Message
