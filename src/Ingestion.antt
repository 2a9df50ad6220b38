-- ===== src/Ingestion.antt =====
-- runtime/src/argus/services/ingestion.py, services/stream.py and api/ingest/sequences.py: a sequence
-- of frames from an edge device is checked, its frames are stored, and one event is put on the ingest
-- stream. The base64 decoder, the object storage and the stream are outside: what they answer are
-- parameters. The uploads run at the same time; of several that fail, the first frame's stands.
pub mod Outcome
pub mod Idempotency
mod Tests
use argus_services.Prelude.{
  ℕ, String, Bool, true, false, not, ◌&&◌, ◌==◌, Option, none, some, List, [], ◌∷◌, ◌++◌,
  if◌then◌else◌,
}
use argus_services.Exec.{Exec, Exn, Result, ok, raised, http_exception, value_error, service_error}
use argus_services.Exec.Fallible.{◌>>=◌, ◌>>◌}
use argus_services.Domain.Json.{Text, uuid_text, plain, truthy, parse_uuid, Fields, end}
use argus_services.World.Redis.{KeyStore, Key, active_mode, ingest_idem, set_key_nx}
use argus_services.Auth.{EdgeAuthContext}

-- Without the frame's own `captured_at`, which no code reads.
pub record FramePayload : Type 0 where
  pub index : ℕ
  pub content : String

pub record IngestSequenceRequest : Type 0 where
  pub ingestion_id : ℕ
  pub tenant_id : ℕ
  pub camera_id : ℕ
  pub captured_at : ℕ
  pub context_mode_id : ℕ
  pub region_id : Option ℕ
  pub edge_trigger_metadata : Option Fields
  pub frames : List FramePayload

pub data IngestStatus : Type 0 where
  queued duplicate : IngestStatus

pub record IngestAcceptedResponse : Type 0 where
  pub ingestion_id : ℕ
  pub status : IngestStatus
  pub queued_at : ℕ

-- `{tenant_id}/{camera_id}/{ingestion_id}/{index}.bin`
pub record ObjectKey : Type 0 where
  pub tenant_id : ℕ
  pub camera_id : ℕ
  pub ingestion_id : ℕ
  pub index : ℕ

-- The fields of the stream's event, before they are written as texts.
pub record IngestEvent : Type 0 where
  pub ingestion_id : ℕ
  pub tenant_id : ℕ
  pub camera_id : ℕ
  pub captured_at : ℕ
  pub context_mode_id : ℕ
  pub region_id : Text
  pub edge_trigger_metadata : Fields
  pub frame_uris : List String

-- What the code is given from outside: `b64decode(content, validate=True)`, whether the storage takes an
-- object, the URI of an object in the bucket, and whether the stream takes an event.
pub record IngestServices : Type 0 where
  pub b64decode : String → Option (List ℕ)
  pub takes_object : ObjectKey → Bool
  pub uri_of : ObjectKey → String
  pub takes_event : IngestEvent → Bool

-- The state that ingestion works on.
pub record EdgeState (K : KeyStore) : Type 0 where
  pub redis : KeyStore.State K
  pub objects : List (ObjectKey × List ℕ)
  pub stream : List IngestEvent

unfoldable pub validate_claims : EdgeAuthContext → IngestSequenceRequest → Result (Unit {0})
validate_claims auth r =
    if not (r.tenant_id == auth.tenant_id && r.camera_id == auth.camera_id)
    then raised (http_exception 422 "tenant_id/camera_id mismatch with token claims")
    else ok tt

-- `_validate_active_mode` on the value that the key of the camera has.
unfoldable pub validate_active_mode : IngestSequenceRequest → Option Text → Result (Unit {0})
validate_active_mode r none = raised (http_exception 400 "Camera has no active context mode")
validate_active_mode r (some mode) =
    if truthy mode
    then elim (parse_uuid mode) [
      | none ↦ raised (value_error "badly formed hexadecimal UUID string")
      | some m ↦
          if m == r.context_mode_id
          then ok tt
          else raised (http_exception 400 "context_mode_id does not match active mode for camera")
    ]
    else raised (http_exception 400 "Camera has no active context mode")

abbrev pub key_for : IngestSequenceRequest → FramePayload → ObjectKey
key_for r f = record {
  tenant_id = r.tenant_id;
  camera_id = r.camera_id;
  ingestion_id = r.ingestion_id;
  index = f.index;
}

abbrev or_empty : Option Fields → Fields
or_empty none = end
or_empty (some fs) = fs

abbrev region_text : Option ℕ → Text
region_text none = plain ""
region_text (some r) = uuid_text r

abbrev pub event_of : IngestSequenceRequest → List String → IngestEvent
event_of r uris = record {
  ingestion_id = r.ingestion_id;
  tenant_id = r.tenant_id;
  camera_id = r.camera_id;
  captured_at = r.captured_at;
  context_mode_id = r.context_mode_id;
  region_id = region_text r.region_id;
  edge_trigger_metadata = or_empty r.edge_trigger_metadata;
  frame_uris = uris;
}

module _ (S : IngestServices) where
  -- The frames that the storage takes, whatever becomes of the others.
  unfoldable pub stored : IngestSequenceRequest → List FramePayload → List (ObjectKey × List ℕ)
  stored r [] = []
  stored r (f ∷ fs) =
      let rest = stored r fs in
      elim (S.b64decode f.content) [
        | none ↦ rest
        | some data_of ↦
            if S.takes_object (key_for r f) then (key_for r f, data_of) ∷ rest else rest
      ]

  -- A frame fails before its upload starts, so this error comes first.
  unfoldable pub decode_all : List FramePayload → Result (Unit {0})
  decode_all [] = ok tt
  decode_all (f ∷ fs) = elim (S.b64decode f.content) [
    | none ↦ raised (http_exception 400 "Invalid base64 frame content")
    | some _ ↦ decode_all fs
  ]

  unfoldable pub upload_all : IngestSequenceRequest → List FramePayload → Result (List String)
  upload_all r [] = ok []
  upload_all r (f ∷ fs) =
      if S.takes_object (key_for r f)
      then (do uris ← upload_all r fs; ok (S.uri_of (key_for r f) ∷ uris))
      else raised (service_error "put_object")

  -- `_upload_frames`: the result of `gather`.
  unfoldable pub frame_uris : IngestSequenceRequest → Result (List String)
  frame_uris r = do decode_all r.frames; upload_all r r.frames

  module _ {K : KeyStore} where
    unfoldable pub enqueue_ingest_event : IngestEvent → Exec (EdgeState K) (Unit {0})
    enqueue_ingest_event e w =
        if S.takes_event e
        then (ok tt, record w { stream = w.stream ++ e ∷ [] })
        else (raised (service_error "xadd"), w)

    enqueue_uris : IngestSequenceRequest → Result (List String) → Exec (EdgeState K) (Unit {0})
    enqueue_uris r (raised e) w = (raised e, w)
    enqueue_uris r (ok uris) w = enqueue_ingest_event (event_of r uris) w

    upload_and_enqueue : IngestSequenceRequest → Result (Unit {0}) → Exec (EdgeState K) (Unit {0})
    unfolding enqueue_uris
    upload_and_enqueue r (raised e) w = (raised e, w)
    upload_and_enqueue r (ok _) w =
        enqueue_uris r (frame_uris r) (record w { objects = w.objects ++ stored r r.frames })

    -- The body of the `try`.
    unfoldable pub process : IngestSequenceRequest → Exec (EdgeState K) (Unit {0})
    unfolding upload_and_enqueue
    process r w =
        upload_and_enqueue r
          (validate_active_mode r (KeyStore.get_key K (active_mode r.camera_id) w.redis)) w

    -- The `except`, and the response of a sequence that was queued.
    unfoldable pub finish :
        IngestSequenceRequest → ℕ → Result (Unit {0}) → Exec (EdgeState K) IngestAcceptedResponse
    finish r now (ok _) w =
        (ok (record { ingestion_id = r.ingestion_id; status = queued; queued_at = now }), w)
    finish r now (raised e) w = (
      raised e,
      record w { redis = KeyStore.delete_key K (ingest_idem r.tenant_id r.ingestion_id) w.redis },
    )

    unfoldable pub claim_key :
        IngestSequenceRequest
        → ℕ
        → Bool × KeyStore.State K
        → Exec (EdgeState K) IngestAcceptedResponse
    claim_key r now (false, redis) w = (
      ok (record { ingestion_id = r.ingestion_id; status = duplicate; queued_at = now }),
      record w { redis = redis },
    )
    claim_key r now (true, redis) w =
        (λ (x : Result (Unit {0}) × EdgeState K). finish r now x.0 x.1)
          (process r (record w { redis = redis }))

    after_claims :
        IngestSequenceRequest → ℕ → Result (Unit {0}) → Exec (EdgeState K) IngestAcceptedResponse
    after_claims r now (raised e) w = (raised e, w)
    after_claims r now (ok _) w =
        claim_key r now
          (set_key_nx K (ingest_idem r.tenant_id r.ingestion_id) (plain "1") 86400 w.redis) w

    unfoldable pub accept_sequence :
        EdgeAuthContext → IngestSequenceRequest → ℕ → Exec (EdgeState K) IngestAcceptedResponse
    unfolding after_claims
    accept_sequence auth r now w = after_claims r now (validate_claims auth r) w

-- The status of the route's response.
unfoldable pub response_status : IngestStatus → ℕ
response_status queued = 202
response_status duplicate = 409
