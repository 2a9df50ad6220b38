-- ===== src/Auth/Tests.antt =====
-- Tokens read and tenants entered on concrete requests, with the theorems applied there.
use argus_services.Prelude.{◌≡◌, refl, true, false, some}
use argus_services.Exec.{ok}
use argus_services.Domain.Enums.{watcher, role_value, role_of_value}
use argus_services.Domain.Json.{Fields, str, end, field, get_field}
use argus_services.Auth.{
  payload, AuthSettings, AuthContext, EdgeAuthContext, Claims, truthy, uuid, claim,
  extract_standard_claims, validate_jwt, parse_role, parse_tenant_id, auth_context_from_token,
  is_client_credentials, get_edge_auth_context,
}
use argus_services.Auth.Tokens.{
  NamesTenant, auth_context_from_token_claims, get_edge_auth_context_claims,
}

-- A watcher of tenant 7, as a user and as a machine with camera 3.
abbrev claims_of : Fields
claims_of = field "tenant_id" (str "seven") (
    field "role" (str "watcher")
      (field "camera_id" (str "seven") (field "gty" (str "client-credentials") end)))

abbrev settings : AuthSettings
settings = record {
  auth0_use_mock = false;
  qualified = λ name. name;
  decode = λ token. payload "jo" claims_of;
  uuid_of = λ s. some 7;
}

abbrev jo : AuthContext
jo = record { sub = "jo"; tenant_id = some 7; role = watcher; token = "t"; camera_id = some 7 }

abbrev camera : EdgeAuthContext
camera = record { sub = "jo"; tenant_id = 7; camera_id = 7; token = "t" }

auth_context_from_token_claims_example :
    (c : Claims) × (validate_jwt settings "t" ≡ ok c)
    × ("jo" ≡ c.sub)
    × (c.role ≡ str "watcher")
    × NamesTenant settings c.tenant_id watcher (some 7)
unfolding auth_context_from_token get_field validate_jwt extract_standard_claims claim parse_role
    parse_tenant_id uuid truthy role_of_value role_value
auth_context_from_token_claims_example = auth_context_from_token_claims settings "t" jo refl

get_edge_auth_context_claims_example :
    (c : Claims) × (true ≡ true)
    × (validate_jwt settings "t" ≡ ok c)
    × (is_client_credentials c.gty ≡ true)
    × (uuid settings c.tenant_id ≡ ok 7)
    × (uuid settings c.camera_id ≡ ok 7)
unfolding get_edge_auth_context get_field validate_jwt extract_standard_claims claim uuid truthy
    is_client_credentials
get_edge_auth_context_claims_example =
    get_edge_auth_context_claims settings (record { is_bearer = true; credentials = "t" }) camera
      refl
