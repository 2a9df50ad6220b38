-- ===== src/Analysis/Tests.antt =====
-- One message of a camera is analysed, and comes again.
use argus_services.Prelude.{
  take, drop, none, some, false, str_eq, ℕ, arith, map, append-nil, List, leb, ◌≤◌, ℤ, pos, ◌+ℤ◌,
  ◌≡◌, refl, true, [], ◌∷◌,
}
use argus_services.Exec.{ok, raised, service_error}
use argus_services.Domain.Json.{Fields, end, field, str, bool, plain, get_field}
use argus_services.Domain.Models.{Evidence, Lens, Rule}
use argus_services.World.Redis.{assoc_store}
use argus_services.World.Session.{allows, set_session_context}
use argus_services.Auth.{truthy}
use argus_services.Fixtures.{start}
use argus_services.Ingestion.{IngestEvent}
use argus_services.Analysis.{
  PyValues, AnalysisServices, StreamMessage, StreamState, matches_condition, rules_score, with_hint,
  compute_severity_score, latest_lens, find_lens, find_rules, retrieve_rag_feedback, read_mode,
  Mode, session_for, analyzed, is_stored, store_evidence, maybe_xack, queue_aggregation,
  store_analyzed, analyze_message, settle_task, analyze_ingest_message,
}
use argus_services.Analysis.Attempts.{
  task_run, Attempts, first_run, next_run, Ends, attempts_end, attempts_at_most_four,
}
use argus_services.Analysis.Batches.{
  Entry, ConsumerGroup, task_for, Reading, process_batches, process_batches_deliver,
}
use argus_services.Analysis.Prompts.{PromptTexts}
use argus_services.Providers.{analyze_by, get_vlm_client, analyze_with, mock_analyze, mock_answer}
use argus_services.Stream.{set_field}
use argus_services.Analysis.Wired.{AnalysisProcess, services_of, analyze_message_mocked}
use argus_services.Analysis.Messages.{Stored, analyze_message_stores, analyze_ingest_message_again}

abbrev values : PyValues
values = record {
  equal = λ a b. true;
  at_least = λ a b. ok true;
  to_int = λ v. ok (pos 1);
  scaled = λ bits. ok (pos 2);
}

abbrev rule : ℕ → ℤ → Rule
rule id weight = record {
  id = id;
  tenant_id = 7;
  context_mode_id = 40;
  name = "rule";
  condition =
      field "field" (str "suspicious") (field "op" (str "eq") (field "value" (bool true) end));
  severity_weight = weight;
}

abbrev answer : Fields
answer = field "is_suspicious" (bool true) end

abbrev event : IngestEvent
event = record {
  ingestion_id = 11;
  tenant_id = 7;
  camera_id = 3;
  captured_at = 1000;
  context_mode_id = 40;
  region_id = plain "";
  edge_trigger_metadata = end;
  frame_uris = "s3://frames/0.bin" ∷ [];
}

abbrev message : StreamMessage
message = record { message_id = "1-0"; has_stream_id = true; event = event }

abbrev lens : Lens
lens = record {
  id = 70;
  tenant_id = 7;
  context_mode_id = 40;
  name = "lens";
  system_prompt = "look";
  output_schema = end;
  version = pos 1;
}

abbrev services : AnalysisServices
services = record {
  values = values;
  analyze = λ l rules feedback uris. ok answer;
  takes_ack = true;
  evidence_id = 90;
}

abbrev before : StreamState assoc_store
before = record {
  world = record start { db = record start.db { lenses = lens ∷ []; rules = rule 1 (pos 3) ∷ [] } };
  acked = [];
  dead = [];
}

analyze_message_stores_example :
    (x : Evidence) × (analyzed services event before.world.db ≡ ok x)
    × (90 ≡ x.id)
    × (is_stored x.tenant_id x.ingestion_id before.world.db ≡ false)
    × Stored services message x before (analyze_message services message before).1
unfolding analyze_message store_analyzed store_evidence maybe_xack queue_aggregation analyzed
    read_mode find_lens find_rules latest_lens retrieve_rag_feedback compute_severity_score
    rules_score matches_condition with_hint truthy get_field ◌+ℤ◌ allows set_session_context
analyze_message_stores_example = analyze_message_stores services message before 90 refl

abbrev again : StreamMessage
again = record {
  message_id = "2-0";
  has_stream_id = true;
  event = record event { ingestion_id = 1 };
}

analyze_ingest_message_again_example :
    ((analyze_ingest_message services 3 again before).1.world ≡ before.world)
    × ((analyze_ingest_message services 3 again before).1.dead ≡ again ∷ [])
analyze_ingest_message_again_example = analyze_ingest_message_again services again 3 before refl

-- Redis loses the acknowledgement of the first three runs.
abbrev flaky : ℕ → AnalysisServices
flaky r = record services { takes_ack = leb 3 r }

attempts_end_example : Ends flaky message before
attempts_end_example = attempts_end flaky message before refl

second : Attempts flaky message before 1 (task_run flaky message 0 before).1
unfolding analyze_ingest_message settle_task analyze_message store_analyzed store_evidence
    maybe_xack queue_aggregation analyzed read_mode find_lens find_rules latest_lens
    retrieve_rag_feedback compute_severity_score rules_score matches_condition with_hint truthy
    get_field ◌+ℤ◌ allows set_session_context
second = next_run {e = service_error "xack"} first_run refl

attempts_at_most_four_example : 1 ≤ 3
attempts_at_most_four_example =
    attempts_at_most_four flaky message before (task_run flaky message 0 before).1 1 refl second

-- A group that keeps the entries that wait in a list.
abbrev group : ConsumerGroup
group = record {
  State = List Entry;
  undelivered = λ s. s;
  xreadgroup = λ n s. (("ingest:sequences", take n s) ∷ [], drop n s);
  delivers = λ n s. append-nil (take n s);
  leaves = λ n s. refl;
}

abbrev entries : List Entry
entries =
    record { message_id = "1-0"; fields = end } ∷ record { message_id = "2-0"; fields = end } ∷ []

abbrev waiting : Reading group
waiting = record { group = entries; queue = [] }

process_batches_deliver_example : (process_batches group 1 waiting).queue ≡ map task_for entries
process_batches_deliver_example = process_batches_deliver group 1 waiting (omega arith)

abbrev texts : PromptTexts
texts = record { strip = λ s. s; json_dumps_safe = λ c. "{}"; text_of_int = λ n. "3" }

abbrev mock_process : AnalysisProcess
mock_process = record {
  settings = record {
    openai_api_key = "";
    auth0_use_mock = true;
    notification_mode = "log";
    twilio_account_sid = "";
    twilio_auth_token = "";
    dev_notify_fail = false;
  };
  vlm = record {
    dumps = λ v. "{}";
    loads = λ s. none;
    complete = λ r. raised (service_error "chat");
    lower = λ s. s;
    is_within = λ part s. str_eq part "weird";
  };
  prompts = texts;
  values = values;
  text_of_value = λ v. "";
}

abbrev mocked : AnalysisServices
mocked = services_of mock_process event true 90

analyze_message_mocked_example :
    (x : Evidence) × (mode : Mode) × (read_mode event (session_for event) before.world.db ≡ ok mode)
    × (get_field "is_suspicious" x.vlm_result ≡ some (bool true))
    × Stored mocked message x before (analyze_message mocked message before).1
unfolding analyze_message store_analyzed store_evidence maybe_xack queue_aggregation analyzed
    read_mode find_lens find_rules latest_lens retrieve_rag_feedback compute_severity_score
    rules_score matches_condition with_hint truthy get_field ◌+ℤ◌ allows set_session_context
    analyze_by get_vlm_client analyze_with mock_analyze mock_answer set_field
analyze_message_mocked_example =
    analyze_message_mocked mock_process message true 90 before 90 refl refl
