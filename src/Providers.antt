-- ===== src/Providers.antt =====
-- The clients of outside services: runtime/src/argus/integrations/openai_vlm.py and twilio_client.py, and
-- which of them runtime/src/argus/workers/vlm_analyzer.py takes. What OpenAI and Twilio answer, and the
-- functions of Python on texts and JSON, are parameters.
pub mod Choice
use Prim.Native.String.{◌++◌}
use text.Mathlib.Text.{starts_with}
use argus_services.Prelude.{
  ℕ, ℤ, pos, String, Bool, true, false, not, ◌&&◌, ◌||◌, str_eq, Option, none, some, List, [], ◌∷◌,
  if◌then◌else◌,
}
use argus_services.Prelude as P
use argus_services.Stream.{set_field}
use argus_services.Exec.{Exec, Result, ok, raised, runtime_error, value_error}
use argus_services.Exec.Fallible.{◌>>=◌}
use argus_services.Domain.Json.{Json, str, bool, int, float, Fields, end, field, obj}

pub record ProviderSettings : Type 0 where
  pub openai_api_key : String
  pub auth0_use_mock : Bool
  pub notification_mode : String
  pub twilio_account_sid : String
  pub twilio_auth_token : String
  pub dev_notify_fail : Bool

-- The texts of a chat request: the system's and the user's, then one URL for each frame.
pub record ChatRequest : Type 0 where
  pub system_prompt : String
  pub user_text : String
  pub image_urls : List String

pub record VlmServices : Type 0 where
  pub dumps : Fields → String
  -- OpenAI is asked for a JSON object.
  pub loads : String → Option Fields
  -- `client.chat.completions.create(...)`, then `choices[0].message.content`
  pub complete : ChatRequest → Result (Option String)
  pub lower : String → String
  -- `part in text`
  pub is_within : String → String → Bool

abbrev or_empty_object : Option String → String
or_empty_object none = "{}"
or_empty_object (some s) = if str_eq s "" then "{}" else s

-- `OpenAIVLMClient.analyze`
unfoldable pub openai_analyze :
    ProviderSettings → VlmServices → String → List String → Fields → Result Fields
openai_analyze S V system_prompt frame_uris output_schema =
    if str_eq S.openai_api_key ""
    then raised (runtime_error "OPENAI_API_KEY is not configured")
    else (do
      content ← V.complete (record {
        system_prompt = system_prompt;
        user_text =
            "Analyze the frame sequence and respond with JSON only. "
            ++ ("Schema: " ++ V.dumps output_schema);
        image_urls = frame_uris;
      })
      elim (V.loads (or_empty_object content)) [
        | none ↦ raised (value_error "not JSON")
        | some fs ↦ ok fs
      ])

pub record VlmCall : Type 0 where
  pub system_prompt : String
  pub frame_uris : List String
  pub output_schema : Fields

pub record MockVlmClient : Type 0 where
  pub response : Fields
  pub calls : List VlmCall

-- `" ".join(uris)`
abbrev pub join_uris : List String → String
join_uris [] = ""
join_uris (u ∷ []) = u
join_uris (u ∷ (v ∷ us)) = u ++ (" " ++ join_uris (v ∷ us))

-- The response of a mock client that is given none; 0.91 by its bits.
abbrev pub default_response : Fields
default_response = field "is_suspicious" (bool true) (
    field "confidence_score" (float 4606371770867090719) (
      field "reasoning" (str "Suspicious loitering detected near restricted shelf area.")
        (field "severity_hint" (int (pos 3)) end)))

-- `{**self.response, "is_suspicious": ..., "severity_hint": ...}`
abbrev pub answer_with : Bool → ℕ → Fields → Fields
answer_with is_suspicious hint response =
    set_field "severity_hint" (int (pos hint))
      (set_field "is_suspicious" (bool is_suspicious) response)

-- The answer by the first word that the signal has.
unfoldable pub mock_answer : VlmServices → String → Fields → Fields
mock_answer V signal response =
    if V.is_within "normal" signal
    then answer_with false 0 response
    else if V.is_within "weird" signal
    then answer_with true 1 response
    else if V.is_within "warning" signal || V.is_within "high" signal
    then answer_with true 4 response
    else response

unfoldable pub mock_analyze :
    VlmServices → String → List String → Fields → Exec MockVlmClient Fields
mock_analyze V system_prompt frame_uris output_schema m = (
  ok (
      mock_answer V (V.lower (V.lower (join_uris frame_uris) ++ (" " ++ system_prompt)))
        m.response),
  record m {
    calls = P.◌++◌ m.calls (
        record {
          system_prompt = system_prompt;
          frame_uris = frame_uris;
          output_schema = output_schema;
        }
        ∷ []);
  },
)

pub data VlmClient : Type 0 where
  mock_client : MockVlmClient → VlmClient
  openai_client : VlmClient

abbrev new_client : ProviderSettings → VlmClient
new_client S =
    if S.auth0_use_mock || str_eq S.openai_api_key ""
    then mock_client (record { response = default_response; calls = [] })
    else openai_client

-- `_vlm_client` is the state: made at the first use, and kept.
unfoldable pub get_vlm_client : ProviderSettings → Exec (Option VlmClient) VlmClient
get_vlm_client S none = (ok (new_client S), some (new_client S))
get_vlm_client S (some client) = (ok client, some client)

unfoldable pub set_vlm_client : VlmClient → Exec (Option VlmClient) (Unit {0})
set_vlm_client client s = (ok tt, some client)

-- `client.analyze(...)`, which changes the client if it is a mock.
unfoldable pub analyze_with :
    ProviderSettings
    → VlmServices
    → VlmClient
    → String
    → List String
    → Fields
    → Result Fields × VlmClient
analyze_with S V (mock_client m) prompt uris schema =
    ((mock_analyze V prompt uris schema m).0, mock_client (mock_analyze V prompt uris schema m).1)
analyze_with S V openai_client prompt uris schema =
    (openai_analyze S V prompt uris schema, openai_client)

-- `get_vlm_client().analyze(...)`, as `_analyze_message` calls it.
unfoldable pub analyze_by :
    ProviderSettings
    → VlmServices
    → Option VlmClient
    → String
    → List String
    → Fields
    → Result Fields
analyze_by S V cached prompt uris schema = elim (get_vlm_client S cached).0 [
  | raised e ↦ raised e
  | ok client ↦ (analyze_with S V client prompt uris schema).0
]

pub data Notifier : Type 0 where
  twilio_notifier mock_notifier : Notifier

unfoldable pub get_notifier : ProviderSettings → Notifier
get_notifier S =
    if str_eq S.notification_mode "twilio"
      && (not (str_eq S.twilio_account_sid "") && not (str_eq S.twilio_auth_token ""))
    then twilio_notifier
    else mock_notifier

-- A message for `client.messages.create`.
pub record TwilioMessage : Type 0 where
  pub to : String
  pub from_number : String
  pub body : String
  pub media_url : Option String

abbrev pub whatsapp_to : String → String
whatsapp_to to = if not (starts_with to "whatsapp:") then "whatsapp:" ++ to else to

abbrev media_of : Option String → Option String
media_of none = none
media_of (some u) = if str_eq u "" then none else some u

module _ (S : ProviderSettings) (create : TwilioMessage → Result String) (draw : String) where
  -- `draw` is the sid that the mock makes of `uuid4`; the numbers to send from are arguments.
  unfoldable pub send_sms : Notifier → String → String → String → Result String
  send_sms twilio_notifier from_number to body =
      create (record { to = to; from_number = from_number; body = body; media_url = none })
  send_sms mock_notifier from_number to body =
      if S.dev_notify_fail
      then raised (runtime_error "simulated development notification failure")
      else ok draw

  unfoldable pub send_whatsapp : Notifier → String → String → String → Option String → Result String
  send_whatsapp twilio_notifier from_number to body media_url = create (record {
    to = whatsapp_to to;
    from_number = from_number;
    body = body;
    media_url = media_of media_url;
  })
  send_whatsapp mock_notifier from_number to body media_url =
      if S.dev_notify_fail
      then raised (runtime_error "simulated development notification failure")
      else ok draw
