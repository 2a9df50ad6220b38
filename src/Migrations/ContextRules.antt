-- ===== src/Migrations/ContextRules.antt =====
-- runtime/alembic/versions/004_context_rules.py: context modes, their schedules, lenses and rules.
use argus_services.Prelude.{true, false, List, [], ◌∷◌}
use argus_services.Migrations.{
  text, boolean, integer, jsonb, time, string, enum, Object, table, Op, create, create_index,
  drop_table, column, id_column, defaulted, now_column, reference, tenant_column, index_on,
}

abbrev pub context_modes_table : Object
context_modes_table =
    table "context_modes"
      (id_column
        ∷ tenant_column
        ∷ column "name" (string 255) false
        ∷ column "description" text true
        ∷ defaulted "is_active" boolean "false"
        ∷ now_column "created_at"
        ∷ [])
      [] []

abbrev pub context_mode_schedules_table : Object
context_mode_schedules_table =
    table "context_mode_schedules"
      (id_column
        ∷ tenant_column
        ∷ reference "context_mode_id" "context_modes" "CASCADE" false
        ∷ column "day_of_week" (enum "schedule_day") false
        ∷ column "start_time" time false
        ∷ column "end_time" time false
        ∷ reference "market_id" "markets" "CASCADE" true
        ∷ [])
      [] []

abbrev pub context_mode_camera_assignments_table : Object
context_mode_camera_assignments_table =
    table "context_mode_camera_assignments"
      (id_column
        ∷ tenant_column
        ∷ reference "context_mode_id" "context_modes" "CASCADE" false
        ∷ reference "camera_id" "cameras" "CASCADE" false
        ∷ [])
      (record { name = "uq_context_mode_camera_assignments_camera"; columns = "camera_id" ∷ [] }
        ∷ [])
      []

abbrev pub lenses_table : Object
lenses_table =
    table "lenses"
      (id_column
        ∷ tenant_column
        ∷ reference "context_mode_id" "context_modes" "CASCADE" false
        ∷ column "name" (string 255) false
        ∷ column "system_prompt" text false
        ∷ column "output_schema" jsonb false
        ∷ defaulted "version" integer "1"
        ∷ now_column "created_at"
        ∷ [])
      [] []

abbrev pub rules_table : Object
rules_table =
    table "rules"
      (id_column
        ∷ tenant_column
        ∷ reference "context_mode_id" "context_modes" "CASCADE" false
        ∷ column "name" (string 255) false
        ∷ column "condition" jsonb false
        ∷ defaulted "severity_weight" integer "1"
        ∷ now_column "created_at"
        ∷ [])
      [] []

abbrev pub rule_region_mappings_table : Object
rule_region_mappings_table =
    table "rule_region_mappings"
      (id_column
        ∷ tenant_column
        ∷ reference "rule_id" "rules" "CASCADE" false
        ∷ reference "region_id" "regions_of_interest" "CASCADE" false
        ∷ [])
      (record {
        name = "uq_rule_region_mappings_rule_region";
        columns = "rule_id" ∷ "region_id" ∷ [];
      }
        ∷ [])
      []

abbrev pub upgrade_context_rules : List Op
upgrade_context_rules =
    create context_modes_table
    ∷ create_index "context_modes" (index_on "ix_context_modes_tenant_id" ("tenant_id" ∷ []))
    ∷ create context_mode_schedules_table
    ∷ create_index "context_mode_schedules"
        (index_on "ix_context_mode_schedules_tenant_id" ("tenant_id" ∷ []))
    ∷ create context_mode_camera_assignments_table
    ∷ create_index "context_mode_camera_assignments"
        (index_on "ix_context_mode_camera_assignments_tenant_id" ("tenant_id" ∷ []))
    ∷ create lenses_table
    ∷ create_index "lenses" (index_on "ix_lenses_tenant_id" ("tenant_id" ∷ []))
    ∷ create rules_table
    ∷ create_index "rules" (index_on "ix_rules_tenant_id" ("tenant_id" ∷ []))
    ∷ create rule_region_mappings_table
    ∷ create_index "rule_region_mappings"
        (index_on "ix_rule_region_mappings_tenant_id" ("tenant_id" ∷ []))
    ∷ []

abbrev pub downgrade_context_rules : List Op
downgrade_context_rules =
    drop_table "rule_region_mappings"
    ∷ drop_table "rules"
    ∷ drop_table "lenses"
    ∷ drop_table "context_mode_camera_assignments"
    ∷ drop_table "context_mode_schedules"
    ∷ drop_table "context_modes"
    ∷ []
