-- ===== src/Ingestion/Tests.antt =====
-- One camera sends a sequence of one frame, twice.
use argus_services.Prelude.{◌≡◌, refl, true, none, some, [], ◌∷◌}
use argus_services.Exec.{Result, ok}
use argus_services.Domain.Json.{uuid_text}
use argus_services.World.Redis.{assoc_store, active_mode, get_assoc, without, set_key_nx}
use argus_services.Auth.{EdgeAuthContext}
use argus_services.Ingestion.{
  IngestSequenceRequest, IngestAcceptedResponse, IngestServices, EdgeState, queued, validate_claims,
  validate_active_mode, accept_sequence, claim_key, process, finish, frame_uris, decode_all,
  upload_all, stored, enqueue_ingest_event, enqueue_uris, upload_and_enqueue, after_claims,
}
use argus_services.Ingestion.Idempotency.{accept_sequence_again, duplicate_of}

abbrev services : IngestServices
services = record {
  b64decode = λ s. some (1 ∷ []);
  takes_object = λ k. true;
  uri_of = λ k. "s3://frames/0.bin";
  takes_event = λ e. true;
}

abbrev request : IngestSequenceRequest
request = record {
  ingestion_id = 11;
  tenant_id = 7;
  camera_id = 3;
  captured_at = 1000;
  context_mode_id = 40;
  region_id = none;
  edge_trigger_metadata = none;
  frames = record { index = 0; content = "AQ==" } ∷ [];
}

abbrev camera : EdgeAuthContext
camera = record { sub = "cam"; tenant_id = 7; camera_id = 3; token = "t" }

abbrev before : EdgeState assoc_store
before = record { redis = (active_mode 3, uuid_text 40, 60) ∷ []; objects = []; stream = [] }

send : EdgeState assoc_store → Result IngestAcceptedResponse × EdgeState assoc_store
unfolding accept_sequence after_claims claim_key process finish frame_uris decode_all upload_all
    stored enqueue_ingest_event enqueue_uris upload_and_enqueue validate_claims validate_active_mode
    set_key_nx get_assoc without
send w = accept_sequence services camera request 5 w

one_event : (send before).1.stream ≡ (send (send before).1).1.stream
unfolding send
one_event = refl

-- The key is still held when the event has been taken from the queue.
abbrev later : EdgeState assoc_store
later = record (accept_sequence services camera request 5 before).1 { stream = [] }

accept_sequence_again_example :
    accept_sequence services camera request 6 later ≡ (ok (duplicate_of request 6), later)
unfolding send
accept_sequence_again_example =
    accept_sequence_again services camera camera request request 5 6 before later
      (record { ingestion_id = 11; status = queued; queued_at = 5 }) refl refl refl refl refl
