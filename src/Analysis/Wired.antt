-- ===== src/Analysis/Wired.antt =====
-- runtime/src/argus/workers/vlm_analyzer.py with the prompt of services/lens_builder.py and the clients of
-- integrations/openai_vlm.py put together: what one run sends to the model and stores of its answer.
use Prim.Native.String.{◌++◌}
use argus_services.Prelude.{
  ◌≡◌, sym, ap, ◌∙◌, String, Bool, true, not, ◌||◌, str_eq, Option, none, some, List, ℕ,
  if◌then◌else◌, arith,
}
use argus_services.Exec.{ok}
use argus_services.Exec.Fallible.{>>=-eq-ok}
use argus_services.Domain.Json.{Json, bool, Fields, get_field}
use argus_services.Domain.Models.{Evidence, Lens, Rule, Feedback}
use argus_services.World.{Db}
use argus_services.World.Redis.{KeyStore}
use argus_services.Auth.{truthy}
use argus_services.Ingestion.{IngestEvent}
use argus_services.Providers.{ProviderSettings, VlmServices, analyze_by, join_uris}
use argus_services.Providers.Choice.{mocked_analysis}
use argus_services.Analysis.{
  PyValues, AnalysisServices, Mode, StreamMessage, StreamState, region_of, read_mode, session_for,
  compute_severity_score, analyzed, analyze_message,
}
use argus_services.Analysis.Prompts.{PromptTexts, build_prompt}
use argus_services.Analysis.Messages.{Stored, analyze_message_stores}

-- What a process is given from outside; `text_of_value` is the text of a value in an f-string.
pub record AnalysisProcess : Type 0 where
  pub settings : ProviderSettings
  pub vlm : VlmServices
  pub prompts : PromptTexts
  pub values : PyValues
  pub text_of_value : Json → String

abbrev scenario_text : (Json → String) → Option Json → String
scenario_text text_of_value none = ""
scenario_text text_of_value (some v) = if truthy v then text_of_value v else ""

-- `metadata.get("scenario", "")`, as the text that it adds; no text if it is false.
abbrev pub scenario_of : (Json → String) → Fields → String
scenario_of text_of_value metadata = scenario_text text_of_value (get_field "scenario" metadata)

unfoldable pub with_scenario : ProviderSettings → String → String → String
with_scenario S scenario prompt =
    if S.auth0_use_mock
    then (if str_eq scenario "" then prompt else prompt ++ ("\nDevelopment scenario: " ++ scenario))
    else prompt

abbrev pub prompt_for : AnalysisProcess → IngestEvent → Lens → List Rule → List Feedback → String
prompt_for P e lens rules feedback =
    with_scenario P.settings (scenario_of P.text_of_value e.edge_trigger_metadata)
      (build_prompt P.prompts lens rules feedback)

-- The services of one run, in a process that has made no client yet.
abbrev pub services_of : AnalysisProcess → IngestEvent → Bool → ℕ → AnalysisServices
services_of P e takes_ack evidence_id = record {
  values = P.values;
  analyze = λ lens rules feedback uris.
      analyze_by P.settings P.vlm none (prompt_for P e lens rules feedback) uris lens.output_schema;
  takes_ack = takes_ack;
  evidence_id = evidence_id;
}

analyzed-answer :
    (S : AnalysisServices) (e : IngestEvent) (db : Db) {x : Evidence}
    → analyzed S e db ≡ ok x
    → (mode : Mode) × (read_mode e (session_for e) db ≡ ok mode)
      × (S.analyze mode.lens mode.rules mode.feedback e.frame_uris ≡ ok x.vlm_result)
unfolding analyzed
analyzed-answer S e db {x} h =
    let (r, _, h1) = >>=-eq-ok (region_of e.region_id) _ h in
    let (mode, found, h2) = >>=-eq-ok (read_mode e (session_for e) db) _ h1 in
    let (f, answered, h3) =
      >>=-eq-ok (S.analyze mode.lens mode.rules mode.feedback e.frame_uris) _ h2 in
    let (n, _, h4) = >>=-eq-ok (compute_severity_score S.values f mode.rules) _ h3 in
    let same : f ≡ x.vlm_result = ground (arith, h4) in (mode, found, answered ∙ ap ok same)

ok_inj : {a b : Fields} → ok a ≡ ok b → a ≡ b
ok_inj h = ground (arith, h)

-- The text that the mock looks at.
abbrev pub signal_of : VlmServices → String → List String → String
signal_of V prompt uris = V.lower (V.lower (join_uris uris) ++ (" " ++ prompt))

module _ {K : KeyStore} (P : AnalysisProcess) (m : StreamMessage) (takes_ack : Bool)
    (evidence_id : ℕ) where
  -- With mock sessions or without a key of OpenAI, in a process that has made no client yet: a run that returns
  -- has stored one new row and queued its aggregation, and the row calls the frames suspicious exactly when
  -- the word "normal" is neither in their URIs nor in the prompt that was built for the message.
  pub analyze_message_mocked :
      (w : StreamState K) (id : ℕ)
      → (P.settings.auth0_use_mock || str_eq P.settings.openai_api_key "") ≡ true
      → (analyze_message (services_of P m.event takes_ack evidence_id) m w).0 ≡ ok id
      → (x : Evidence) × (mode : Mode) × (read_mode m.event (session_for m.event) w.world.db
          ≡ ok mode)
        × (get_field "is_suspicious" x.vlm_result
            ≡ some (
                bool (
                  not (
                    P.vlm.is_within "normal" (
                      signal_of P.vlm
                        (prompt_for P m.event mode.lens mode.rules mode.feedback)
                        m.event.frame_uris)))))
        × Stored
            (services_of P m.event takes_ack evidence_id)
            m
            x
            w
            (analyze_message (services_of P m.event takes_ack evidence_id) m w).1
  analyze_message_mocked w id mocked h =
      let S = services_of P m.event takes_ack evidence_id in
      let (x, made, _, _, stored) = analyze_message_stores S m w id h in
      let (mode, found, answered) = analyzed-answer S m.event w.world.db made in
      let (answer, is_answer, suspicious) =
        mocked_analysis P.settings P.vlm (prompt_for P m.event mode.lens mode.rules mode.feedback)
          m.event.frame_uris mode.lens.output_schema mocked in
      let same : answer ≡ x.vlm_result = ok_inj (sym is_answer ∙ answered) in
      (x, mode, found, ap (get_field "is_suspicious") (sym same) ∙ suspicious, stored)
