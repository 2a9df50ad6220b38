-- ===== src/Migrations/Revisions.antt =====
-- runtime/alembic/versions/001_enums.py, the revisions of the tables as one type, and the list of the
-- tables that 007_rls.py puts under the policies of a tenant.
use argus_services.Prelude.{String, Option, none, some, List, [], ◌∷◌}
use argus_services.Migrations.{enum_type, Op, create, drop_type_if_exists}
use argus_services.Migrations.Tenancy.{
  upgrade_core_tenancy, downgrade_core_tenancy, upgrade_surveillance_config,
  downgrade_surveillance_config,
}
use argus_services.Migrations.ContextRules.{upgrade_context_rules, downgrade_context_rules}
use argus_services.Migrations.Operational.{upgrade_operational, downgrade_operational}

abbrev pub upgrade_enums : List Op
upgrade_enums =
    create (enum_type "user_role" ("root_admin" ∷ "tenant_admin" ∷ "watcher" ∷ []))
    ∷ create (
        enum_type "decision_state" (
          "normal" ∷ "weird" ∷ "warning" ∷ "resolved_true_positive" ∷ "resolved_false_positive"
          ∷ "resolved_false_negative" ∷ []))
    ∷ create (
        enum_type "feedback_disposition"
          ("true_positive" ∷ "false_positive" ∷ "false_negative" ∷ []))
    ∷ create (enum_type "notification_channel" ("sms" ∷ "whatsapp" ∷ []))
    ∷ create (enum_type "notification_status" ("pending" ∷ "sent" ∷ "delivered" ∷ "failed" ∷ []))
    ∷ create (enum_type "schedule_day" ("mon" ∷ "tue" ∷ "wed" ∷ "thu" ∷ "fri" ∷ "sat" ∷ "sun" ∷ []))
    ∷ []

abbrev pub downgrade_enums : List Op
downgrade_enums =
    drop_type_if_exists "schedule_day"
    ∷ drop_type_if_exists "notification_status"
    ∷ drop_type_if_exists "notification_channel"
    ∷ drop_type_if_exists "feedback_disposition"
    ∷ drop_type_if_exists "decision_state"
    ∷ drop_type_if_exists "user_role"
    ∷ []

pub data Revision : Type 0 where
  enums core_tenancy surveillance_config context_rules operational : Revision

unfoldable pub upgrade : Revision → List Op
upgrade enums = upgrade_enums
upgrade core_tenancy = upgrade_core_tenancy
upgrade surveillance_config = upgrade_surveillance_config
upgrade context_rules = upgrade_context_rules
upgrade operational = upgrade_operational

unfoldable pub downgrade : Revision → List Op
downgrade enums = downgrade_enums
downgrade core_tenancy = downgrade_core_tenancy
downgrade surveillance_config = downgrade_surveillance_config
downgrade context_rules = downgrade_context_rules
downgrade operational = downgrade_operational

-- `down_revision`
abbrev pub down_revision : Revision → Option Revision
down_revision enums = none
down_revision core_tenancy = some enums
down_revision surveillance_config = some core_tenancy
down_revision context_rules = some surveillance_config
down_revision operational = some context_rules

-- `TENANT_SCOPED_TABLES`
abbrev pub tenant_scoped_tables : List String
tenant_scoped_tables =
    "tenant_users" ∷ "markets" ∷ "cameras" ∷ "regions_of_interest" ∷ "context_modes"
    ∷ "context_mode_schedules" ∷ "context_mode_camera_assignments" ∷ "lenses" ∷ "rules"
    ∷ "rule_region_mappings" ∷ "evidences" ∷ "decisions" ∷ "decision_evidences" ∷ "feedback"
    ∷ "audit_records" ∷ "notification_configs" ∷ "notification_deliveries" ∷ []
