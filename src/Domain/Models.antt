-- ===== src/Domain/Models.antt =====
-- runtime/src/argus/domain/models/__init__.py: the rows of the tables. A UUID is a number, a
-- `datetime` counts microseconds since the epoch, and a `time` microseconds since midnight.
-- Relationships are the foreign keys; `received_at` and `linked_at`, which nothing reads, and the
-- `created_at` of the rows that are never ordered by it, are left out.
use argus_services.Prelude.{ℕ, ℤ, String, Bool, Option}
use argus_services.Domain.Enums.{
  UserRole, DecisionState, FeedbackDisposition, NotificationChannel, NotificationStatus,
  ScheduleDay,
}
use argus_services.Domain.Json.{Json, Fields}

pub record Tenant : Type 0 where
  pub id : ℕ
  pub name : String
  pub slug : String
  pub aggregation_window_secs : ℕ
  pub weird_threshold : ℤ
  pub warning_threshold : ℤ
  pub settings : Fields
  pub updated_at : ℕ

pub record TenantUser : Type 0 where
  pub id : ℕ
  pub tenant_id : Option ℕ
  pub idp_subject : String
  pub email : String
  pub role : UserRole

pub record Market : Type 0 where
  pub id : ℕ
  pub tenant_id : ℕ
  pub name : String
  pub timezone : String
  pub deleted_at : Option ℕ

pub record Camera : Type 0 where
  pub id : ℕ
  pub tenant_id : ℕ
  pub market_id : ℕ
  pub name : String
  pub edge_device_id : String
  pub is_active : Bool
  pub deleted_at : Option ℕ

pub record RegionOfInterest : Type 0 where
  pub id : ℕ
  pub tenant_id : ℕ
  pub camera_id : ℕ
  pub name : String
  pub polygon : Json

pub record ContextMode : Type 0 where
  pub id : ℕ
  pub tenant_id : ℕ
  pub name : String
  pub description : Option String
  pub is_active : Bool

pub record ContextModeSchedule : Type 0 where
  pub id : ℕ
  pub tenant_id : ℕ
  pub context_mode_id : ℕ
  pub day_of_week : ScheduleDay
  pub start_time : ℕ
  pub end_time : ℕ
  pub market_id : Option ℕ

pub record ContextModeCameraAssignment : Type 0 where
  pub id : ℕ
  pub tenant_id : ℕ
  pub context_mode_id : ℕ
  pub camera_id : ℕ

pub record Lens : Type 0 where
  pub id : ℕ
  pub tenant_id : ℕ
  pub context_mode_id : ℕ
  pub name : String
  pub system_prompt : String
  pub output_schema : Fields
  pub version : ℤ

pub record Rule : Type 0 where
  pub id : ℕ
  pub tenant_id : ℕ
  pub context_mode_id : ℕ
  pub name : String
  pub condition : Fields
  pub severity_weight : ℤ

pub record RuleRegionMapping : Type 0 where
  pub id : ℕ
  pub tenant_id : ℕ
  pub rule_id : ℕ
  pub region_id : ℕ

pub record Evidence : Type 0 where
  pub id : ℕ
  pub tenant_id : ℕ
  pub camera_id : ℕ
  pub region_id : Option ℕ
  pub context_mode_id : ℕ
  pub captured_at : ℕ
  pub vlm_result : Fields
  pub severity_score : ℤ
  pub frame_storage_uri : String
  pub ingestion_id : ℕ

pub record Decision : Type 0 where
  pub id : ℕ
  pub tenant_id : ℕ
  pub camera_id : ℕ
  pub region_id : Option ℕ
  pub state : DecisionState
  pub cumulative_severity : ℤ
  pub evidence_count : ℕ
  pub window_start : ℕ
  pub window_end : ℕ
  pub first_evidence_at : Option ℕ
  pub last_evidence_at : Option ℕ
  pub resolved_at : Option ℕ
  pub resolved_by : Option String
  pub updated_at : ℕ

pub record DecisionEvidence : Type 0 where
  pub tenant_id : ℕ
  pub decision_id : ℕ
  pub evidence_id : ℕ

-- The embedding vector is left out: nothing that is modelled reads it.
pub record Feedback : Type 0 where
  pub id : ℕ
  pub tenant_id : ℕ
  pub decision_id : ℕ
  pub disposition : FeedbackDisposition
  pub reasoning : String
  pub submitted_by : String
  pub created_at : ℕ

-- The payloads that the code writes: of a state change and of a resolution.
pub data AuditPayload : Type 0 where
  state_change : DecisionState → DecisionState → ℕ → ℤ → AuditPayload
  resolved : FeedbackDisposition → String → AuditPayload

pub record AuditRecord : Type 0 where
  pub id : ℕ
  pub tenant_id : ℕ
  pub decision_id : ℕ
  pub event_type : String
  pub payload : AuditPayload
  pub actor : Option String

pub record NotificationConfig : Type 0 where
  pub id : ℕ
  pub tenant_id : ℕ
  pub channel : NotificationChannel
  pub recipient : String
  pub is_active : Bool

pub record NotificationDelivery : Type 0 where
  pub id : ℕ
  pub tenant_id : ℕ
  pub decision_id : ℕ
  pub config_id : ℕ
  pub channel : NotificationChannel
  pub status : NotificationStatus
  pub provider_message_id : Option String
  pub error_detail : Option String
  pub updated_at : ℕ
