-- ===== src/Providers/Choice.antt =====
-- What the chosen clients do: runtime/src/argus/integrations/openai_vlm.py and twilio_client.py.
use Prim.Native.String.{◌++◌}
use text.Mathlib.Text.{starts_with}
use text.Mathlib.TextPositions.{starts_with-append}
use argus_services.Prelude.{
  ◌≡◌, refl, String, true, not, ◌||◌, str_eq, none, some, List, Bool-cases, inl, inr,
}
use argus_services.Exec.{ok}
use argus_services.Domain.Json.{Fields, bool, get_field}
use argus_services.Stream.{set_field}
use argus_services.Providers.{
  ProviderSettings, VlmServices, join_uris, default_response, mock_answer, mock_analyze,
  get_vlm_client, analyze_with, analyze_by, whatsapp_to,
}

mock_answer-is_suspicious :
    (V : VlmServices) (signal : String)
    → get_field "is_suspicious" (mock_answer V signal default_response)
      ≡ some (bool (not (V.is_within "normal" signal)))
unfolding mock_answer set_field get_field
mock_answer-is_suspicious V signal = elim (Bool-cases (V.is_within "normal" signal)) [
  | inl normal ↦ rw normal refl
  | inr odd ↦ elim (Bool-cases (V.is_within "weird" signal)) [
    | inl weird ↦ rw (odd, weird) refl
    | inr plain_text ↦
        elim (Bool-cases (V.is_within "warning" signal || V.is_within "high" signal)) [
          | inl warned ↦ rw (odd, plain_text, warned) refl
          | inr quiet ↦ rw (odd, plain_text, quiet) refl
        ]
  ]
]

-- With mock sessions or without a key of OpenAI, the first analysis of a process never raises: it calls its
-- frames suspicious exactly when the word "normal" is neither in their URIs nor in the prompt.
pub mocked_analysis :
    (S : ProviderSettings) (V : VlmServices) (prompt : String) (uris : List String)
    (schema : Fields)
    → (S.auth0_use_mock || str_eq S.openai_api_key "") ≡ true
    → (answer : Fields) × (analyze_by S V none prompt uris schema ≡ ok answer)
      × (get_field "is_suspicious" answer
          ≡ some (
              bool (
                not
                  (V.is_within "normal" (V.lower (V.lower (join_uris uris) ++ (" " ++ prompt)))))))
unfolding analyze_by get_vlm_client analyze_with mock_analyze
mocked_analysis S V prompt uris schema mocked =
    rw (mocked, analyze_by)
      (
        mock_answer V (V.lower (V.lower (join_uris uris) ++ (" " ++ prompt))) default_response,
        refl,
        mock_answer-is_suspicious V (V.lower (V.lower (join_uris uris) ++ (" " ++ prompt))),
      )

-- A number is given the prefix of WhatsApp once.
whatsapp_to_idem : (to : String) → whatsapp_to (whatsapp_to to) ≡ whatsapp_to to
whatsapp_to_idem to = elim (Bool-cases (starts_with to "whatsapp:")) [
  | inl has_it ↦ rw (has_it, has_it) refl
  | inr lacks_it ↦ rw (lacks_it, starts_with-append "whatsapp:" to) refl
]
