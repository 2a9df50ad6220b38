-- ===== src/Stream/Tests.antt =====
-- An event of tenant 7, camera 3 and region 4, with one frame.
use argus_services.Prelude.{
  ℕ, String, ◌≡◌, ◌==◌, refl, Option, none, some, [], ◌∷◌, str_eq, if◌then◌else◌,
}
use argus_services.Exec.{ok}
use argus_services.Exec.Fallible.{◌>>=◌}
use argus_services.Domain.Json.{uuid_text, Json, arr, obj, end}
use argus_services.Ingestion.{IngestEvent}
use argus_services.Stream.{
  Codec, items, event_fields, xadd_payload, parse_stream_fields, read_event,
}
use argus_services.Stream.Crossing.{Crosses, read_of, event_crosses}

abbrev event : IngestEvent
event = record {
  ingestion_id = 9;
  tenant_id = 7;
  camera_id = 3;
  captured_at = 5;
  context_mode_id = 40;
  region_id = uuid_text 4;
  edge_trigger_metadata = end;
  frame_uris = "s3://argus-frames/0.bin" ∷ [];
}

abbrev dumps : Json → String
dumps (arr xs) = "[]"
dumps v = "{}"

abbrev id_text : ℕ → String
id_text u =
    if u == 7
    then "seven"
    else if u == 3
    then "three"
    else if u == 4
    then "four"
    else if u == 40
    then "forty"
    else "nine"

abbrev uuid_of : String → Option ℕ
uuid_of s =
    if str_eq s "seven"
    then some 7
    else if str_eq s "three"
    then some 3
    else if str_eq s "four"
    then some 4
    else if str_eq s "forty"
    then some 40
    else if str_eq s "nine"
    then some 9
    else none

abbrev codec : Codec
codec = record {
  dumps = dumps;
  loads = λ s. if str_eq s "[]" then some (arr (items event.frame_uris)) else some (obj end);
  str_of = λ v. "";
  id_text = id_text;
  uuid_of = uuid_of;
  isoformat = λ t. "now";
  fromisoformat = λ s. some 5;
}

crosses : Crosses codec event
crosses = record {
  loads-metadata = refl;
  metadata_filled = refl;
  loads-uris = refl;
  uris_filled = refl;
  ids = (refl, (refl, (refl, (refl, tt))));
  region = (refl, refl);
  instant = refl;
}

event_crosses_example :
    (parse_stream_fields codec (xadd_payload codec (event_fields codec event)) >>= read_event codec)
    ≡ ok (read_of event (some 4))
event_crosses_example = event_crosses codec event crosses
