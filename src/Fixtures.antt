-- ===== src/Fixtures.antt =====
-- Rows that the witnesses and tests run on: tenant 7 with camera 3, and two pieces of evidence that
-- were captured ten seconds apart.
use argus_services.Prelude.{ℕ, ◌+◌, pos, none, [], ◌∷◌, true}
use argus_services.Domain.Json.{end}
use argus_services.Domain.Models.{Tenant, Evidence}
use argus_services.World.{World, Db, empty_db}
use argus_services.World.Redis.{assoc_store}
use argus_services.Events.{EventSettings, log}
use argus_services.Aggregation.Decisions.{Draws}

abbrev pub tenant : Tenant
tenant = record {
  id = 7;
  name = "Store";
  slug = "store";
  aggregation_window_secs = 300;
  weird_threshold = pos 2;
  warning_threshold = pos 5;
  settings = end;
  updated_at = 0;
}

abbrev pub evidence_at : ℕ → ℕ → ℕ → Evidence
evidence_at id captured_at score = record {
  id = id;
  tenant_id = 7;
  camera_id = 3;
  region_id = none;
  context_mode_id = 40;
  captured_at = captured_at;
  vlm_result = end;
  severity_score = pos score;
  frame_storage_uri = "s3://argus-frames/7/3/1/0.bin";
  ingestion_id = id;
}

abbrev pub two_evidences : Db
two_evidences = record empty_db {
  tenants = tenant ∷ [];
  evidences = evidence_at 1 1000000000 3 ∷ evidence_at 2 1010000000 2 ∷ [];
}

abbrev pub start : World assoc_store
start = record {
  db = two_evidences;
  redis = [];
  ws_events = [];
  app_events = [];
  tasks = [];
  sent = [];
}

abbrev pub to_log : EventSettings
to_log = record { event_transport = log; sns_topic_arn = ""; aws_accepts = λ e. true }

abbrev pub draws : ℕ → Draws
draws n = record { now = n; decision_id = 100 + n; audit_id = 200 + n }
