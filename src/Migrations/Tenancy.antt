-- ===== src/Migrations/Tenancy.antt =====
-- runtime/alembic/versions/002_core_tenancy.py and 003_surveillance_config.py: tenants, their users, and what is watched.
use argus_services.Prelude.{true, false, List, [], ◌∷◌}
use argus_services.Migrations.{
  boolean, integer, jsonb, timestamptz, string, enum, Object, table, Op, create, create_index,
  drop_table, column, id_column, defaulted, now_column, reference, tenant_column, index_on,
}

abbrev pub tenants_table : Object
tenants_table =
    table "tenants"
      (id_column
        ∷ column "name" (string 255) false
        ∷ record (column "slug" (string 63) false) { unique = true }
        ∷ defaulted "aggregation_window_secs" integer "300"
        ∷ defaulted "weird_threshold" integer "2"
        ∷ defaulted "warning_threshold" integer "5"
        ∷ defaulted "settings" jsonb "{}"
        ∷ now_column "created_at"
        ∷ now_column "updated_at"
        ∷ [])
      [] []

abbrev pub tenant_users_table : Object
tenant_users_table =
    table "tenant_users"
      (id_column
        ∷ reference "tenant_id" "tenants" "CASCADE" true
        ∷ column "idp_subject" (string 255) false
        ∷ column "email" (string 255) false
        ∷ column "role" (enum "user_role") false
        ∷ now_column "created_at"
        ∷ [])
      (record {
        name = "uq_tenant_users_subject_tenant";
        columns = "idp_subject" ∷ "tenant_id" ∷ [];
      }
        ∷ [])
      []

abbrev pub upgrade_core_tenancy : List Op
upgrade_core_tenancy =
    create tenants_table
    ∷ create tenant_users_table
    ∷ create_index "tenant_users" (index_on "ix_tenant_users_tenant_id" ("tenant_id" ∷ []))
    ∷ []

abbrev pub downgrade_core_tenancy : List Op
downgrade_core_tenancy = drop_table "tenant_users" ∷ drop_table "tenants" ∷ []

abbrev pub markets_table : Object
markets_table =
    table "markets"
      (id_column
        ∷ tenant_column
        ∷ column "name" (string 255) false
        ∷ defaulted "timezone" (string 63) "UTC"
        ∷ now_column "created_at"
        ∷ column "deleted_at" timestamptz true
        ∷ [])
      [] []

abbrev pub cameras_table : Object
cameras_table =
    table "cameras"
      (id_column
        ∷ tenant_column
        ∷ reference "market_id" "markets" "CASCADE" false
        ∷ column "name" (string 255) false
        ∷ column "edge_device_id" (string 255) false
        ∷ defaulted "is_active" boolean "true"
        ∷ now_column "created_at"
        ∷ column "deleted_at" timestamptz true
        ∷ [])
      (record {
        name = "uq_cameras_tenant_edge_device";
        columns = "tenant_id" ∷ "edge_device_id" ∷ [];
      }
        ∷ [])
      []

abbrev pub regions_of_interest_table : Object
regions_of_interest_table =
    table "regions_of_interest"
      (id_column
        ∷ tenant_column
        ∷ reference "camera_id" "cameras" "CASCADE" false
        ∷ column "name" (string 255) false
        ∷ column "polygon" jsonb false
        ∷ now_column "created_at"
        ∷ [])
      [] []

abbrev pub upgrade_surveillance_config : List Op
upgrade_surveillance_config =
    create markets_table
    ∷ create_index "markets" (index_on "ix_markets_tenant_id" ("tenant_id" ∷ []))
    ∷ create cameras_table
    ∷ create_index "cameras" (index_on "ix_cameras_tenant_id" ("tenant_id" ∷ []))
    ∷ create regions_of_interest_table
    ∷ create_index "regions_of_interest"
        (index_on "ix_regions_of_interest_tenant_id" ("tenant_id" ∷ []))
    ∷ []

abbrev pub downgrade_surveillance_config : List Op
downgrade_surveillance_config =
    drop_table "regions_of_interest" ∷ drop_table "cameras" ∷ drop_table "markets" ∷ []
