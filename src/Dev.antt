-- ===== src/Dev.antt =====
-- runtime/src/argus/api/dev.py and the makers of tokens in runtime/src/argus/integrations/auth0.py:
-- sessions of four personas for a local test. `jwt.encode` and the clock are parameters.
pub mod Reading
pub mod Personas
mod Tests
use argus_services.Prelude.{
  ℕ, pos, String, Bool, true, false, not, ◌+◌, Option, none, some, str_eq, if◌then◌else◌,
}
use argus_services.Exec.{Result, ok, raised, http_exception}
use argus_services.Domain.Json.{Json, int, str, Fields, end, field}

pub record TokenSettings : Type 0 where
  pub auth0_issuer : String
  pub auth0_api_audience : String
  -- `jwt.encode(payload, settings.dev_jwt_secret, algorithm="HS256")`
  pub encode : Fields → String
  -- `int(time.time())`
  pub now : ℕ

pub record DevSession : Type 0 where
  pub persona : String
  pub role : String
  pub tenant_id : Option String
  pub token : String

abbrev pub demo_tenant_id : String
demo_tenant_id = "11111111-1111-4111-8111-111111111111"

abbrev pub demo_camera_id : String
demo_camera_id = "33333333-3333-4333-8333-333333333333"

-- `if camera_id: payload["camera_id"] = camera_id`
unfoldable pub camera_claim : Option String → Fields
camera_claim none = end
camera_claim (some c) = if str_eq c "" then end else field "camera_id" (str c) end

module _ (S : TokenSettings) where
  -- The claims that both kinds of token have, before `rest`.
  abbrev pub standard_claims : String → ℕ → String → Fields → Fields
  standard_claims sub expires_in tenant_id rest = field "sub" (str sub) (
      field "iss" (str S.auth0_issuer) (
        field "aud" (str S.auth0_api_audience) (
          field "iat" (int (pos S.now)) (
            field "exp" (int (pos (S.now + expires_in)))
              (field "tenant_id" (str tenant_id) rest)))))

  unfoldable pub create_mock_token : String → String → String → ℕ → Option String → String
  create_mock_token sub tenant_id role expires_in camera_id =
      S.encode (
        standard_claims sub expires_in tenant_id (field "role" (str role) (camera_claim camera_id)))

  unfoldable pub create_mock_m2m_token : String → String → String → ℕ → String
  create_mock_m2m_token sub tenant_id camera_id expires_in = S.encode (
      standard_claims sub expires_in tenant_id
        (field "camera_id" (str camera_id) (field "gty" (str "client-credentials") end)))

  abbrev pub root_admin_session : DevSession
  root_admin_session = record {
    persona = "root";
    role = "root_admin";
    tenant_id = none;
    token = create_mock_token "auth0|seed-root-admin" "" "root_admin" 3600 none;
  }

  abbrev pub persona_session : String → String → String → DevSession
  persona_session persona sub role = record {
    persona = persona;
    role = role;
    tenant_id = some demo_tenant_id;
    token = create_mock_token sub demo_tenant_id role 3600 none;
  }

  abbrev pub edge_session : DevSession
  edge_session = record {
    persona = "edge";
    role = "edge";
    tenant_id = some demo_tenant_id;
    token = create_mock_m2m_token "edge-device-demo-001@clients" demo_tenant_id demo_camera_id 3600;
  }

  -- The first argument is `settings.auth0_use_mock`.
  unfoldable pub create_dev_session : Bool → String → Result DevSession
  create_dev_session use_mock persona =
      if not use_mock
      then raised (http_exception 404 "Development auth is disabled")
      else if str_eq persona "root"
      then ok root_admin_session
      else if str_eq persona "admin"
      then ok (persona_session "admin" "auth0|seed-tenant-admin" "tenant_admin")
      else if str_eq persona "watcher"
      then ok (persona_session "watcher" "auth0|seed-watcher" "watcher")
      else if str_eq persona "edge"
      then ok edge_session
      else raised (http_exception 404 "Unknown development persona")
