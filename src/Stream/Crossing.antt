-- ===== src/Stream/Crossing.antt =====
-- An event from runtime/src/argus/services/ingestion.py to runtime/src/argus/workers/vlm_analyzer.py.
use argus_services.Prelude.{
  ℕ, String, false, ◌≡◌, refl, sym, ap, eq_iff, Option, none, some, [], ◌∷◌, str_eq, All,
  Bool-cases, inl, inr,
}
use argus_services.Exec.{ok}
use argus_services.Exec.Fallible.{◌>>=◌}
use argus_services.Domain.Json.{Text, uuid_text, plain, str, arr, obj, get_field}
use argus_services.Auth.{truthy}
use argus_services.Ingestion.{IngestEvent}
use argus_services.Analysis.{region_of}
use argus_services.Stream.{
  Codec, ReadEvent, items, set_field, item, text_of, event_fields, xadd_payload, load_value,
  with_region, parse_stream_fields, read_id, read_time, region_at, read_event,
}

-- The text of a region is read as the model's text is: as its id, or as none.
abbrev pub RegionReads : Codec → Text → Type 0
RegionReads C (uuid_text u) = (C.uuid_of (C.id_text u) ≡ some u) × (str_eq (C.id_text u) "" ≡ false)
RegionReads C (plain s) = C.uuid_of s ≡ none

-- The library functions on the parts of an event: what is written is read back.
pub record Crosses (C : Codec) (e : IngestEvent) : Type 0 where
  pub loads-metadata :
      C.loads (C.dumps (obj e.edge_trigger_metadata)) ≡ some (obj e.edge_trigger_metadata)
  pub metadata_filled : str_eq (C.dumps (obj e.edge_trigger_metadata)) "" ≡ false
  pub loads-uris : C.loads (C.dumps (arr (items e.frame_uris))) ≡ some (arr (items e.frame_uris))
  pub uris_filled : str_eq (C.dumps (arr (items e.frame_uris))) "" ≡ false
  pub ids :
      All
        (λ (u : ℕ). C.uuid_of (C.id_text u) ≡ some u)
        (e.tenant_id ∷ e.camera_id ∷ e.context_mode_id ∷ e.ingestion_id ∷ [])
  pub region : RegionReads C e.region_id
  pub instant : C.fromisoformat (C.isoformat e.captured_at) ≡ some e.captured_at

abbrev pub read_of : IngestEvent → Option ℕ → ReadEvent
read_of e region_id = record {
  tenant_id = e.tenant_id;
  camera_id = e.camera_id;
  context_mode_id = e.context_mode_id;
  ingestion_id = e.ingestion_id;
  region_id = region_id;
  captured_at = e.captured_at;
  frame_uris = arr (items e.frame_uris);
}

read_id-text : (C : Codec) (s : String) (u : ℕ) → C.uuid_of s ≡ some u → read_id C (str s) ≡ ok u
unfolding read_id
read_id-text C s u h = rw (h, read_id) refl

read_time-text :
    (C : Codec) (s : String) (u : ℕ) → C.fromisoformat s ≡ some u → read_time C (str s) ≡ ok u
unfolding read_time
read_time-text C s u h = rw (h, read_time) refl

module _ (C : Codec) (e : IngestEvent) (crosses : Crosses C e) where
  -- The two JSON texts are loaded; the rest stays.
  parse_stream_fields-xadd :
      parse_stream_fields C (xadd_payload C (event_fields C e))
      ≡ ok (with_region C (event_fields C e))
  unfolding parse_stream_fields xadd_payload load_value get_field set_field
  parse_stream_fields-xadd =
      rw crosses.uris_filled
        (rw crosses.loads-uris (rw crosses.metadata_filled (rw crosses.loads-metadata refl)))

  abbrev event_with : Text → IngestEvent
  event_with t = record e { region_id = t }

  region_at_reads :
      (t : Text) → RegionReads C t → region_at C (event_fields C (event_with t)) ≡ region_of t
  unfolding region_at item get_field read_id truthy
  region_at_reads (uuid_text u) h = rw h.1 (rw (h.0, read_id) refl)
  region_at_reads (plain s) h = elim (Bool-cases (str_eq s "")) [
    | inl empty ↦ rw empty refl
    | inr filled ↦ rw filled (rw (h, read_id) refl)
  ]

  with_region-event :
      (t : Text) → with_region C (event_fields C (event_with t)) ≡ event_fields C (event_with t)
  unfolding with_region set_field get_field truthy
  with_region-event t = elim (Bool-cases (str_eq (text_of C t) "")) [
    | inl empty ↦
        rw empty (
          ap (λ s. event_fields C (event_with (plain s))) (sym ((eq_iff (text_of C t) "").0 empty)))
    | inr filled ↦ rw filled refl
  ]

  read_event-fields :
      read_event C (event_fields C e)
      ≡ (region_at C (event_fields C e) >>= λ region_id. ok (read_of e region_id))
  unfolding read_event item get_field
  read_event-fields =
      let (t, (c, (m, (i, _)))) = crosses.ids in
      rw (read_id-text C _ _ t, read_id-text C _ _ c, read_id-text C _ _ m, read_id-text C _ _ i)
        (rw (read_time-text C _ _ crosses.instant) refl)

  -- An event that is put on the stream, with texts that the library functions read back, is read by the
  -- analysis with the same ids, instant and frames, and with the region that its text names; it is refused
  -- exactly where that text is no id.
  pub event_crosses :
      (parse_stream_fields C (xadd_payload C (event_fields C e)) >>= read_event C)
      ≡ (region_of e.region_id >>= λ region_id. ok (read_of e region_id))
  event_crosses =
      rw
        (
          parse_stream_fields-xadd,
          with_region-event e.region_id,
          read_event-fields,
          region_at_reads e.region_id crosses.region,
        )
        refl
