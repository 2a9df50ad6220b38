-- ===== src/Gateway/Handshake/Tests.antt =====
-- A watcher of tenant 7 opens a socket.
use argus_services.Prelude.{String, ◌≡◌, refl, ◌⊎◌, false, none, some}
use argus_services.Exec.{ok}
use argus_services.Domain.Enums.{watcher, tenant_admin, role_of_value}
use argus_services.Domain.Json.{str, end, field, get_field}
use argus_services.Auth.{
  payload, AuthSettings, AuthContext, truthy, uuid, claim, extract_standard_claims, validate_jwt,
  parse_role, parse_tenant_id, auth_context_from_token,
}
use argus_services.Gateway.Handshake.{
  first_token, is_triage_role, on_invalid_token, with_tenant, admit_role, admit, handshake_with,
  handshake, handshake_claims,
}

abbrev settings : AuthSettings
settings = record {
  auth0_use_mock = false;
  qualified = λ name. name;
  decode =
      λ token. payload "jo" (field "tenant_id" (str "seven") (field "role" (str "watcher") end));
  uuid_of = λ s. some 7;
}

abbrev jo : AuthContext
jo = record { sub = "jo"; tenant_id = some 7; role = watcher; token = "t"; camera_id = none }

handshake_claims_example :
    (k : String) × (first_token none (some "t") ≡ some k)
    × (auth_context_from_token settings k ≡ ok jo)
    × (jo.tenant_id ≡ some 7)
    × ((jo.role ≡ watcher) ⊎ (jo.role ≡ tenant_admin))
unfolding handshake handshake_with admit admit_role with_tenant on_invalid_token is_triage_role
    first_token auth_context_from_token validate_jwt extract_standard_claims claim parse_role
    parse_tenant_id uuid truthy role_of_value get_field
handshake_claims_example = handshake_claims settings none (some "t") jo 7 refl
