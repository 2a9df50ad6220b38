-- ===== src/Auth.antt =====
-- runtime/src/argus/core/auth.py and runtime/src/argus/integrations/auth0.py: from a bearer token to
-- the context of a request. `jwt.decode` and `UUID(text)` are parameters; of an HTTP error the status
-- and the message are kept, without the values that a message quotes.
pub mod Tokens
mod Tests
use argus_services.Prelude.{
  ℕ, pos, negsuc, String, Bool, true, false, not, ◌&&◌, ◌||◌, Option, none, some, str_eq, ◌==◌,
  if◌then◌else◌, zero, suc,
}
use argus_services.Exec.{
  Exn, Result, ok, raised, http_exception, value_error, attribute_error, expired_signature,
  invalid_token, jwk_client_error,
}
use argus_services.Exec.Fallible.{◌>>=◌, ◌>>◌, require}
use argus_services.Domain.Enums.{UserRole, root_admin, role_of_value}
use argus_services.Domain.Json.{
  Json, null, bool, int, float, str, arr, obj, nil, cons, Fields, end, field, get_field,
}

pub data Decoded : Type 0 where
  -- `sub`, which the options require and the library holds to be a text, and all claims
  payload : String → Fields → Decoded
  expired invalid no_signing_key : Decoded

-- What the code is given from outside.
pub record AuthSettings : Type 0 where
  pub auth0_use_mock : Bool
  -- `{namespace}/{name}`, the namespace without its last slashes
  pub qualified : String → String
  pub decode : String → Decoded
  pub uuid_of : String → Option ℕ

pub record Claims : Type 0 where
  pub sub : String
  pub tenant_id : Json
  pub role : Json
  pub camera_id : Json
  pub gty : Json

pub record EdgeAuthContext : Type 0 where
  pub sub : String
  pub tenant_id : ℕ
  pub camera_id : ℕ
  pub token : String

pub record AuthContext : Type 0 where
  pub sub : String
  pub tenant_id : Option ℕ
  pub role : UserRole
  pub token : String
  pub camera_id : Option ℕ

-- `HTTPAuthorizationCredentials`, with the test `scheme.lower() == "bearer"`.
pub record Credentials : Type 0 where
  pub is_bearer : Bool
  pub credentials : String

-- `dict.get(name, default)`
abbrev pub get_or_default : String → Json → Fields → Json
get_or_default k d fs = elim (get_field k fs) [ none ↦ d | some v ↦ v ]

-- Python's truth of a JSON value; a float is false if it is 0.0 or -0.0.
unfoldable pub truthy : Json → Bool
truthy null = false
truthy (bool b) = b
truthy (int (pos zero)) = false
truthy (int (pos (suc n))) = true
truthy (int (negsuc n)) = true
truthy (float bits) = not (bits == 0 || bits == 9223372036854775808)
truthy (str s) = not (str_eq s "")
truthy (arr nil) = false
truthy (arr (cons x xs)) = true
truthy (obj end) = false
truthy (obj (field k v fs)) = true

-- `except ValueError`
abbrev pub on_value_error {ℓ} : {A : Type ℓ} → Exn → Result A → Result A
on_value_error e (raised (value_error m)) = raised e
on_value_error e (raised x) = raised x
on_value_error e (ok a) = ok a

-- `except ExpiredSignatureError` and then `except InvalidTokenError`
abbrev pub on_token_error {ℓ} : {A : Type ℓ} → Result A → Result A
on_token_error (raised expired_signature) = raised (http_exception 401 "Token expired")
on_token_error (raised invalid_token) = raised (http_exception 401 "Invalid token")
on_token_error (raised x) = raised x
on_token_error (ok a) = ok a

unfoldable pub parse_role : Json → Result UserRole
parse_role null = raised (http_exception 401 "Missing role claim")
parse_role (str s) = elim (role_of_value s) [
  | none ↦ raised (http_exception 401 "Invalid role claim")
  | some r ↦ ok r
]
parse_role _ = raised (http_exception 401 "Invalid role claim")

-- `Optional[UUID]` from a claim that may be missing.
abbrev optional_uuid : (Json → Result ℕ) → Json → Result (Option ℕ)
optional_uuid uuid v = if truthy v then (do u ← uuid v; ok (some u)) else ok none

unfoldable pub is_client_credentials : Json → Bool
is_client_credentials (str s) = str_eq s "client-credentials"
is_client_credentials _ = false

missing_token : Exn
missing_token = http_exception 401 "Missing bearer token"

module _ (S : AuthSettings) where
  -- `_claim`: the plain name, and the namespaced one where that is missing.
  unfoldable pub claim : Fields → String → Json
  claim p name = elim (get_field name p) [
    | none ↦ get_or_default (S.qualified name) null p
    | some v ↦ v
  ]

  unfoldable pub extract_standard_claims : String → Fields → Claims
  extract_standard_claims sub p = record {
    sub = sub;
    tenant_id = claim p "tenant_id";
    role = claim p "role";
    camera_id = claim p "camera_id";
    gty = get_or_default "gty" null p;
  }

  -- `validate_jwt` with its two ways to the key.
  unfoldable pub validate_jwt : String → Result Claims
  validate_jwt token = elim (S.decode token) [
    | payload sub p ↦ ok (extract_standard_claims sub p)
    | expired ↦ raised expired_signature
    | invalid ↦ raised invalid_token
    | no_signing_key ↦ raised jwk_client_error
  ]

  -- `UUID(value)`: other values than texts have no `replace`.
  unfoldable pub uuid : Json → Result ℕ
  uuid (str s) = elim (S.uuid_of s) [
    | none ↦ raised (value_error "badly formed UUID")
    | some u ↦ ok u
  ]
  uuid _ = raised (attribute_error "replace")

  unfoldable pub parse_tenant_id : Json → UserRole → Result (Option ℕ)
  unfolding truthy uuid
  parse_tenant_id v root_admin = optional_uuid uuid v
  parse_tenant_id v _ =
      let parsed =
        on_value_error (http_exception 401 "Invalid tenant_id claim")
          (do u ← uuid v; ok (some u)) in
      if truthy v then parsed else raised (http_exception 401 "Missing tenant_id claim")

  unfoldable pub auth_context_from_token : String → Result AuthContext
  unfolding truthy uuid
  auth_context_from_token token = do
    claims ← on_token_error (validate_jwt token)
    role ← parse_role claims.role
    tenant_id ← parse_tenant_id claims.tenant_id role
    camera_id ←
        on_value_error (http_exception 401 "Invalid camera_id claim")
          (optional_uuid uuid claims.camera_id)
    ok (record {
      sub = claims.sub;
      tenant_id = tenant_id;
      role = role;
      token = token;
      camera_id = camera_id;
    })

  -- The two UUIDs of a machine token, under one `except ValueError`.
  edge_ids : Claims → Result (ℕ × ℕ)
  unfolding uuid
  edge_ids claims =
      on_value_error (http_exception 401 "Invalid tenant_id or camera_id claim")
        (do t ← uuid claims.tenant_id; c ← uuid claims.camera_id; ok (t, c))

  edge_context : String → Result EdgeAuthContext
  unfolding truthy edge_ids is_client_credentials
  edge_context token = do
    claims ← on_token_error (validate_jwt token)
    require (is_client_credentials claims.gty)
        (http_exception 401 "M2M client credentials token required")
    require (truthy claims.tenant_id && truthy claims.camera_id)
        (http_exception 401 "Missing tenant_id or camera_id claim")
    ids ← edge_ids claims
    ok (record { sub = claims.sub; tenant_id = ids.0; camera_id = ids.1; token = token })

  unfoldable pub get_edge_auth_context : Option Credentials → Result EdgeAuthContext
  unfolding edge_context missing_token
  get_edge_auth_context none = raised missing_token
  get_edge_auth_context (some c) =
      if c.is_bearer then edge_context c.credentials else raised missing_token

  -- The cookie `argus_dev_token`, which counts in mock mode only.
  abbrev cookie_token : Option String → Option String
  cookie_token cookie = if S.auth0_use_mock then cookie else none

  abbrev request_token : Option Credentials → Option String → Option String
  request_token none cookie = cookie_token cookie
  request_token (some c) cookie = if c.is_bearer then some c.credentials else cookie_token cookie

  from_token : Option String → Result AuthContext
  from_token none = raised missing_token
  from_token (some token) =
      if str_eq token "" then raised missing_token else auth_context_from_token token

  unfoldable pub get_auth_context : Option Credentials → Option String → Result AuthContext
  unfolding from_token missing_token
  get_auth_context credentials cookie = from_token (request_token credentials cookie)
