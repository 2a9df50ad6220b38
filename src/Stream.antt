-- ===== src/Stream.antt =====
-- How an event crosses the Redis stream: its fields in runtime/src/argus/services/ingestion.py, their texts
-- in `xadd` of runtime/src/argus/services/redis.py, and the reading of them in
-- runtime/src/argus/workers/vlm_analyzer.py. The library functions of Python are parameters.
pub mod Crossing
pub mod DeadLetters
mod Tests
use argus_services.Prelude.{
  ℕ, String, Bool, true, false, Option, none, some, List, [], ◌∷◌, str_eq, if◌then◌else◌,
}
use argus_services.Exec.{Result, ok, raised, value_error, type_error, attribute_error, key_error}
use argus_services.Exec.Fallible.{◌>>=◌}
use argus_services.Domain.Json.{
  Text, uuid_text, plain, Json, null, str, arr, obj, Items, nil, cons, Fields, end, field,
  get_field,
}
use argus_services.Auth.{truthy}
use argus_services.Ingestion.{IngestEvent}

-- `json.dumps`, `json.loads`, `str` of a value, `str` and `UUID` of an id, and the texts of instants.
pub record Codec : Type 0 where
  pub dumps : Json → String
  pub loads : String → Option Json
  pub str_of : Json → String
  pub id_text : ℕ → String
  pub uuid_of : String → Option ℕ
  pub isoformat : ℕ → String
  pub fromisoformat : String → Option ℕ

-- What the analysis reads of a message.
pub record ReadEvent : Type 0 where
  pub tenant_id : ℕ
  pub camera_id : ℕ
  pub context_mode_id : ℕ
  pub ingestion_id : ℕ
  pub region_id : Option ℕ
  pub captured_at : ℕ
  pub frame_uris : Json

abbrev pub items : List String → Items
items [] = nil
items (u ∷ us) = cons (str u) (items us)

-- `d[name] = value`
unfoldable pub set_field : String → Json → Fields → Fields
set_field k v end = field k v end
set_field k v (field j w rest) =
    let after = field j w (set_field k v rest) in if str_eq j k then field j v rest else after

-- `d[name]`
unfoldable pub item : String → Fields → Result Json
item k fs = elim (get_field k fs) [ none ↦ raised (key_error k) | some v ↦ ok v ]

-- `parsed.get(name)` as a condition.
abbrev pub is_filled : Option Json → Bool
is_filled none = false
is_filled (some v) = truthy v

module _ (C : Codec) where
  abbrev pub text_of : Text → String
  text_of (uuid_text u) = C.id_text u
  text_of (plain s) = s

  abbrev pub event_fields : IngestEvent → Fields
  event_fields e = field "ingestion_id" (str (C.id_text e.ingestion_id)) (
      field "tenant_id" (str (C.id_text e.tenant_id)) (
        field "camera_id" (str (C.id_text e.camera_id)) (
          field "captured_at" (str (C.isoformat e.captured_at)) (
            field "context_mode_id" (str (C.id_text e.context_mode_id)) (
              field "region_id" (str (text_of e.region_id)) (
                field "edge_trigger_metadata" (obj e.edge_trigger_metadata)
                  (field "frame_uris" (arr (items e.frame_uris)) end)))))))

  abbrev pub xadd_text : Json → String
  xadd_text (arr xs) = C.dumps (arr xs)
  xadd_text (obj fs) = C.dumps (obj fs)
  xadd_text (str s) = s
  xadd_text v = C.str_of v

  unfoldable pub xadd_payload : Fields → Fields
  xadd_payload end = end
  xadd_payload (field k v rest) = field k (str (xadd_text v)) (xadd_payload rest)

  abbrev loaded : String → Fields → Option Json → Result Fields
  loaded key fs none = raised (value_error "not JSON")
  loaded key fs (some v) = ok (set_field key v fs)

  -- One turn of the loop over the two keys.
  unfoldable pub load_value : String → Json → Fields → Option Json → Result Fields
  load_value key default fs none = ok (set_field key default fs)
  load_value key default fs (some null) = ok (set_field key default fs)
  load_value key default fs (some (str s)) =
      if str_eq s "" then ok (set_field key default fs) else loaded key fs (C.loads s)
  load_value key default fs (some v) = ok fs

  abbrev pub load_key : String → Json → Fields → Result Fields
  load_key key default fs = load_value key default fs (get_field key fs)

  unfoldable pub with_region : Fields → Fields
  with_region fs =
      if is_filled (get_field "region_id" fs) then fs else set_field "region_id" (str "") fs

  unfoldable pub parse_stream_fields : Fields → Result Fields
  parse_stream_fields fs = do
    with_uris ← load_key "frame_uris" (arr nil) fs
    parsed ← load_key "edge_trigger_metadata" (obj end) with_uris
    ok (with_region parsed)

  -- `UUID(value)` and `datetime.fromisoformat(value)`
  unfoldable pub read_id : Json → Result ℕ
  read_id (str s) = elim (C.uuid_of s) [
    | none ↦ raised (value_error "badly formed UUID")
    | some u ↦ ok u
  ]
  read_id v = raised (attribute_error "replace")

  unfoldable pub read_time : Json → Result ℕ
  read_time (str s) = elim (C.fromisoformat s) [
    | none ↦ raised (value_error "Invalid isoformat string")
    | some t ↦ ok t
  ]
  read_time v = raised (type_error "fromisoformat: argument must be str")

  abbrev id_at : String → Fields → Result ℕ
  id_at k fs = do v ← item k fs; read_id v

  unfoldable pub region_at : Fields → Result (Option ℕ)
  region_at fs =
      let region = (do u ← id_at "region_id" fs; ok (some u)) in
      if is_filled (get_field "region_id" fs) then region else ok none

  unfoldable pub read_event : Fields → Result ReadEvent
  read_event fs = do
    tenant_id ← id_at "tenant_id" fs
    camera_id ← id_at "camera_id" fs
    context_mode_id ← id_at "context_mode_id" fs
    ingestion_id ← id_at "ingestion_id" fs
    region_id ← region_at fs
    at ← item "captured_at" fs
    captured_at ← read_time at
    frame_uris ← item "frame_uris" fs
    ok (record {
      tenant_id = tenant_id;
      camera_id = camera_id;
      context_mode_id = context_mode_id;
      ingestion_id = ingestion_id;
      region_id = region_id;
      captured_at = captured_at;
      frame_uris = frame_uris;
    })
