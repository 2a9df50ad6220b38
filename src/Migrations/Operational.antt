-- ===== src/Migrations/Operational.antt =====
-- runtime/alembic/versions/005_operational.py: evidence, decisions and what follows from them.
use argus_services.Prelude.{true, false, some, List, [], ◌∷◌}
use argus_services.Migrations.{
  uuid, text, boolean, integer, jsonb, timestamptz, string, enum, Object, table, Op, create,
  create_index, drop_table, column, id_column, defaulted, now_column, reference, tenant_column,
  index_on,
}

abbrev pub evidences_table : Object
evidences_table =
    table "evidences"
      (id_column
        ∷ tenant_column
        ∷ reference "camera_id" "cameras" "CASCADE" false
        ∷ reference "region_id" "regions_of_interest" "SET NULL" true
        ∷ reference "context_mode_id" "context_modes" "RESTRICT" false
        ∷ column "captured_at" timestamptz false
        ∷ now_column "received_at"
        ∷ column "vlm_result" jsonb false
        ∷ column "severity_score" integer false
        ∷ column "frame_storage_uri" text false
        ∷ column "ingestion_id" uuid false
        ∷ [])
      (record {
        name = "uq_evidences_tenant_ingestion";
        columns = "tenant_id" ∷ "ingestion_id" ∷ [];
      }
        ∷ [])
      []

abbrev pub decisions_table : Object
decisions_table =
    table "decisions"
      (id_column
        ∷ tenant_column
        ∷ reference "camera_id" "cameras" "CASCADE" false
        ∷ reference "region_id" "regions_of_interest" "SET NULL" true
        ∷ defaulted "state" (enum "decision_state") "normal"
        ∷ defaulted "cumulative_severity" integer "0"
        ∷ defaulted "evidence_count" integer "0"
        ∷ column "window_start" timestamptz false
        ∷ column "window_end" timestamptz false
        ∷ column "first_evidence_at" timestamptz true
        ∷ column "last_evidence_at" timestamptz true
        ∷ column "resolved_at" timestamptz true
        ∷ column "resolved_by" (string 255) true
        ∷ now_column "created_at"
        ∷ now_column "updated_at"
        ∷ [])
      [] []

abbrev pub decision_evidences_table : Object
decision_evidences_table =
    table "decision_evidences"
      (record (reference "decision_id" "decisions" "CASCADE" false) { primary_key = true }
        ∷ record (reference "evidence_id" "evidences" "CASCADE" false) { primary_key = true }
        ∷ tenant_column
        ∷ now_column "linked_at"
        ∷ [])
      [] []

abbrev pub feedback_table : Object
feedback_table =
    table "feedback"
      (id_column
        ∷ tenant_column
        ∷ record (reference "decision_id" "decisions" "CASCADE" false) { unique = true }
        ∷ column "disposition" (enum "feedback_disposition") false
        ∷ column "reasoning" text false
        ∷ column "submitted_by" (string 255) false
        ∷ now_column "created_at"
        ∷ [])
      [] []

abbrev pub audit_records_table : Object
audit_records_table =
    table "audit_records"
      (id_column
        ∷ tenant_column
        ∷ reference "decision_id" "decisions" "CASCADE" false
        ∷ column "event_type" (string 63) false
        ∷ column "payload" jsonb false
        ∷ column "actor" (string 255) true
        ∷ now_column "created_at"
        ∷ [])
      [] []

abbrev pub notification_configs_table : Object
notification_configs_table =
    table "notification_configs"
      (id_column
        ∷ tenant_column
        ∷ column "channel" (enum "notification_channel") false
        ∷ column "recipient" (string 63) false
        ∷ defaulted "is_active" boolean "true"
        ∷ now_column "created_at"
        ∷ [])
      [] []

abbrev pub notification_deliveries_table : Object
notification_deliveries_table =
    table "notification_deliveries"
      (id_column
        ∷ tenant_column
        ∷ reference "decision_id" "decisions" "CASCADE" false
        ∷ reference "config_id" "notification_configs" "CASCADE" false
        ∷ column "channel" (enum "notification_channel") false
        ∷ defaulted "status" (enum "notification_status") "pending"
        ∷ column "provider_message_id" (string 255) true
        ∷ column "error_detail" text true
        ∷ now_column "created_at"
        ∷ now_column "updated_at"
        ∷ [])
      [] []

abbrev pub upgrade_operational : List Op
upgrade_operational =
    create evidences_table
    ∷ create_index "evidences" (index_on "ix_evidences_tenant_id" ("tenant_id" ∷ []))
    ∷ create_index "evidences" (
        index_on "ix_evidences_tenant_camera_captured"
          ("tenant_id" ∷ "camera_id" ∷ "captured_at" ∷ []))
    ∷ create decisions_table
    ∷ create_index "decisions" (index_on "ix_decisions_tenant_id" ("tenant_id" ∷ []))
    ∷ create_index "decisions"
        (record (index_on "ix_decisions_tenant_active_state" ("tenant_id" ∷ "state" ∷ [])) {
          postgresql_where = some "state IN ('weird', 'warning')";
        })
    ∷ create decision_evidences_table
    ∷ create_index "decision_evidences"
        (index_on "ix_decision_evidences_tenant_id" ("tenant_id" ∷ []))
    ∷ create feedback_table
    ∷ create_index "feedback" (index_on "ix_feedback_tenant_id" ("tenant_id" ∷ []))
    ∷ create audit_records_table
    ∷ create_index "audit_records" (index_on "ix_audit_records_tenant_id" ("tenant_id" ∷ []))
    ∷ create notification_configs_table
    ∷ create_index "notification_configs"
        (index_on "ix_notification_configs_tenant_id" ("tenant_id" ∷ []))
    ∷ create notification_deliveries_table
    ∷ create_index "notification_deliveries"
        (index_on "ix_notification_deliveries_tenant_id" ("tenant_id" ∷ []))
    ∷ []

abbrev pub downgrade_operational : List Op
downgrade_operational =
    drop_table "notification_deliveries"
    ∷ drop_table "notification_configs"
    ∷ drop_table "audit_records"
    ∷ drop_table "feedback"
    ∷ drop_table "decision_evidences"
    ∷ drop_table "decisions"
    ∷ drop_table "evidences"
    ∷ []
