-- ===== src/Dev/Tests.antt =====
-- The watcher and the camera of the demo, with a token that is the subject's name.
use argus_services.Prelude.{String, ◌≡◌, refl, none, some, str_eq, arith, true, if◌then◌else◌}
use argus_services.Exec.{ok}
use argus_services.Domain.Json.{Json, str, get_field}
use argus_services.Seed.Id
use argus_services.Auth.{AuthSettings, Decoded, payload, invalid}
use argus_services.Dev.{TokenSettings, demo_tenant_id, create_dev_session, persona_session}
use argus_services.Dev.Reading.{Reads, IsRead, user_claims, edge_claims}
use argus_services.Dev.Personas.{create_dev_session-IsRead}

abbrev string_of : Json → String
string_of (str s) = s
string_of v = ""

abbrev tokens : TokenSettings
tokens = record {
  auth0_issuer = "i";
  auth0_api_audience = "a";
  encode = λ claims. elim (get_field "sub" claims) [ none ↦ "" | some v ↦ string_of v ];
  now = 100;
}

abbrev decode : String → Decoded
decode token =
    if str_eq token "auth0|seed-root-admin"
    then payload token (user_claims tokens token "" "root_admin")
    else if str_eq token "auth0|seed-tenant-admin"
    then payload token (user_claims tokens token demo_tenant_id "tenant_admin")
    else if str_eq token "auth0|seed-watcher"
    then payload token (user_claims tokens token demo_tenant_id "watcher")
    else if str_eq token "edge-device-demo-001@clients"
    then payload token (edge_claims tokens)
    else invalid

abbrev settings : AuthSettings
settings = record {
  auth0_use_mock = true;
  qualified = λ name. "https://argus.local/camera_id";
  decode = decode;
  uuid_of = λ s. if str_eq s demo_tenant_id then some Id.tenant else some Id.camera;
}

reads : Reads tokens settings 200
unfolding get_field
reads = record {
  decodes = (
    λ sub iat exp h _ _ _ _ _ _. cc,
    (
      λ sub iat exp h _ _ _ _ _ _. cc,
      (λ sub iat exp h _ _ _ _ _ _. cc, (λ sub iat exp h _ _ _ _ _ _. cc, tt)),
    ),
  );
  uuid_of-tenant = refl;
  uuid_of-camera = refl;
  qualified_camera_id = (refl, (refl, (refl, (refl, (refl, (refl, (refl, tt)))))));
}

watcher_session :
    create_dev_session tokens true "watcher"
    ≡ ok (persona_session tokens "watcher" "auth0|seed-watcher" "watcher")
unfolding create_dev_session
watcher_session = refl

create_dev_session-IsRead_example :
    IsRead settings (persona_session tokens "watcher" "auth0|seed-watcher" "watcher")
create_dev_session-IsRead_example =
    create_dev_session-IsRead tokens settings 200 reads "watcher"
      (persona_session tokens "watcher" "auth0|seed-watcher" "watcher") watcher_session refl
      (omega arith) (omega arith)
