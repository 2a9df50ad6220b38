-- ===== src/Dev/Reading.antt =====
-- The claims of the sessions of runtime/src/argus/api/dev.py, and what reads them back.
use argus_services.Prelude.{
  ℕ, pos, String, false, ◌<◌, ◌≤◌, ◌≡◌, refl, Option, none, some, List, [], ◌∷◌, All, str_eq,
}
use argus_services.Exec.{ok}
use argus_services.Domain.Enums.{UserRole, role_value}
use argus_services.Domain.Json.{Json, int, str, Fields, end, field, get_field}
use argus_services.Seed.Id
use argus_services.Auth.{payload, AuthSettings, AuthContext, auth_context_from_token}
use argus_services.Dev.{
  TokenSettings, DevSession, demo_tenant_id, demo_camera_id, standard_claims, camera_claim,
}

abbrev pub plain_names : List String
plain_names = "sub" ∷ "iss" ∷ "aud" ∷ "iat" ∷ "exp" ∷ "tenant_id" ∷ "role" ∷ []

abbrev pub user_claims : TokenSettings → String → String → String → Fields
user_claims T sub tenant_id role =
    standard_claims T sub 3600 tenant_id (field "role" (str role) (camera_claim none))

abbrev pub edge_claims : TokenSettings → Fields
edge_claims T =
    standard_claims T "edge-device-demo-001@clients" 3600 demo_tenant_id
      (field "camera_id" (str demo_camera_id) (field "gty" (str "client-credentials") end))

-- The claims of the four sessions.
abbrev pub made_claims : TokenSettings → List Fields
made_claims T =
    user_claims T "auth0|seed-root-admin" "" "root_admin"
    ∷ user_claims T "auth0|seed-tenant-admin" demo_tenant_id "tenant_admin"
    ∷ user_claims T "auth0|seed-watcher" demo_tenant_id "watcher"
    ∷ edge_claims T
    ∷ []

-- What PyJWT does for a reader at a time: a token of the expected issuer and audience, made by then and
-- not expired, is decoded to the claims that were encoded.
abbrev pub Decodes : TokenSettings → AuthSettings → ℕ → Fields → Type 0
Decodes T S at claims =
    (sub : String) (iat exp : ℕ)
    → get_field "sub" claims ≡ some (str sub)
    → get_field "iss" claims ≡ some (str T.auth0_issuer)
    → get_field "aud" claims ≡ some (str T.auth0_api_audience)
    → get_field "iat" claims ≡ some (int (pos iat))
    → get_field "exp" claims ≡ some (int (pos exp))
    → iat ≤ at
    → at < exp
    → S.decode (T.encode claims) ≡ payload sub claims

-- The services outside: PyJWT for the claims of the sessions, and `uuid`, which reads the ids of the demo
-- as the numbers that they stand for.
pub record Reads (T : TokenSettings) (S : AuthSettings) (at : ℕ) : Type 0 where
  pub decodes : All (Decodes T S at) (made_claims T)
  pub uuid_of-tenant : S.uuid_of demo_tenant_id ≡ some Id.tenant
  pub uuid_of-camera : S.uuid_of demo_camera_id ≡ some Id.camera
  -- The name of a claim in the namespace is none of the plain names.
  pub qualified_camera_id :
      All (λ (name : String). str_eq name (S.qualified "camera_id") ≡ false) plain_names

abbrev pub claimed_id : (String → Option ℕ) → Option String → Option ℕ
claimed_id uuid_of none = none
claimed_id uuid_of (some s) = uuid_of s

abbrev pub context_of : String → Option ℕ → UserRole → String → AuthContext
context_of sub tenant_id role token = record {
  sub = sub;
  tenant_id = tenant_id;
  role = role;
  token = token;
  camera_id = none;
}

get_field-other :
    (k j : String) (v : Json) (rest : Fields)
    → str_eq j k ≡ false
    → get_field k (field j v rest) ≡ get_field k rest
unfolding get_field
get_field-other k j v rest other = rw other refl

get_field-end : (k : String) → get_field k end ≡ none
unfolding get_field
get_field-end k = refl

-- A name that a user's token does not have.
pub no_claim :
    (T : TokenSettings) (k sub tenant_id role : String)
    → All (λ (name : String). str_eq name k ≡ false) plain_names
    → get_field k (user_claims T sub tenant_id role) ≡ none
unfolding camera_claim
no_claim T k sub tenant_id role (a, (b, (c, (d, (e, (f, (g, _))))))) =
    rw (get_field-other k "sub" _ _ a, get_field-other k "iss" _ _ b, get_field-other k "aud" _ _ c)
      (rw (get_field-other k "iat" _ _ d, get_field-other k "exp" _ _ e)
        (rw (get_field-other k "tenant_id" _ _ f, get_field-other k "role" _ _ g)
          (get_field-end k)))

-- What a session's token is read as.
abbrev pub IsRead : AuthSettings → DevSession → Type 0
IsRead S s =
    (auth : AuthContext) × (auth_context_from_token S s.token ≡ ok auth)
    × (role_value auth.role ≡ s.role)
    × (auth.tenant_id ≡ claimed_id S.uuid_of s.tenant_id)
