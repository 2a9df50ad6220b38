-- ===== src/Auth/Tokens.antt =====
-- What a token must say for a request to get a context.
use argus_services.Prelude.{
  ℕ, ◌≡◌, ◌∙◌, ◌&&◌, refl, ap, arith, Bool, true, false, Option, none, some, Bool-cases, inl, inr,
  str_eq, eq_iff, String, if◌then◌else◌,
}
use argus_services.Exec.{Exn, Result, ok, raised, http_exception, value_error, expired_signature}
use argus_services.Exec.Fallible.{◌>>=◌, require, >>=-eq-ok}
use argus_services.Domain.Enums.{
  UserRole, root_admin, tenant_admin, watcher, role_value, role_of_value,
}
use argus_services.Domain.Json.{Json, null, bool, int, float, str, arr, obj}
use argus_services.Auth.{
  AuthSettings, AuthContext, Claims, auth_context_from_token, validate_jwt, parse_role,
  parse_tenant_id, edge_context, truthy, uuid, on_token_error, on_value_error, optional_uuid,
  Credentials, get_edge_auth_context, edge_ids, is_client_credentials, EdgeAuthContext,
}

-- A handler that only replaces exceptions lets through what was returned.
on_value_error-ok :
    {A : Type 0} (e : Exn) (r : Result A) {a : A} → on_value_error e r ≡ ok a → r ≡ ok a
on_value_error-ok e (ok a) h = h
on_value_error-ok e (raised (value_error m)) h = cc
on_value_error-ok e (raised x) h = cc

on_token_error-ok : {A : Type 0} (r : Result A) {a : A} → on_token_error r ≡ ok a → r ≡ ok a
on_token_error-ok (ok a) h = h
on_token_error-ok (raised expired_signature) h = cc
on_token_error-ok (raised x) h = cc

value_of : {r r' : UserRole} → some r ≡ some r' → role_value r ≡ role_value r'
value_of h = cc

role_of_value_sound : (s : String) {r : UserRole} → role_of_value s ≡ some r → s ≡ role_value r
unfolding role_of_value role_value
role_of_value_sound s h = elim (Bool-cases (str_eq s "root_admin")) [
  | inl e ↦ (eq_iff s "root_admin").0 e ∙ value_of (rw e at h)
  | inr n ↦ elim (Bool-cases (str_eq s "tenant_admin")) [
    | inl e ↦ (eq_iff s "tenant_admin").0 e ∙ value_of (rw e at (rw n at h))
    | inr n' ↦ elim (Bool-cases (str_eq s "watcher")) [
      | inl e ↦ (eq_iff s "watcher").0 e ∙ value_of (rw e at (rw n' at (rw n at h)))
      | inr n'' ↦ (let unknown = rw n'' at (rw n' at (rw n at h)) in cc)
    ]
  ]
]

text_role :
    (o : Option UserRole) {r : UserRole}
    → elim o [ none ↦ raised (http_exception 401 "Invalid role claim") | some x ↦ ok x ] ≡ ok r
    → o ≡ some r
text_role none h = cc
text_role (some x) h = cc

parse_role_names : (v : Json) {r : UserRole} → parse_role v ≡ ok r → v ≡ str (role_value r)
unfolding parse_role
parse_role_names (str s) h = ap str (role_of_value_sound s (text_role (role_of_value s) h))
parse_role_names null h = cc
parse_role_names (bool b) h = cc
parse_role_names (int n) h = cc
parse_role_names (float b) h = cc
parse_role_names (arr x) h = cc
parse_role_names (obj x) h = cc

module _ (S : AuthSettings) where
  -- The tenant of a context against the claim: a text that reads as its id, or for root a claim that is
  -- empty or missing.
  abbrev pub NamesTenant : Json → UserRole → Option ℕ → Type 0
  NamesTenant v r none = (r ≡ root_admin) × (truthy v ≡ false)
  NamesTenant v r (some t) = (s : String) × (v ≡ str s) × (S.uuid_of s ≡ some t)

  uuid_names :
      (v : Json) {u : ℕ} → uuid S v ≡ ok u → (s : String) × (v ≡ str s) × (S.uuid_of s ≡ some u)
  unfolding uuid
  uuid_names (str s) h = (s, refl, ground (arith, h))
  uuid_names null h = cc
  uuid_names (bool b) h = cc
  uuid_names (int n) h = cc
  uuid_names (float b) h = cc
  uuid_names (arr x) h = cc
  uuid_names (obj x) h = cc

  some_names :
      (v : Json) (r : UserRole) {t : Option ℕ}
      → (uuid S v >>= λ u. ok (some u)) ≡ ok t
      → NamesTenant v r t
  some_names v r {t = none} h = (let (u, _, k) = >>=-eq-ok (uuid S v) (λ u. ok (some u)) h in cc)
  some_names v r {t = some i} h =
      let (u, hu, k) = >>=-eq-ok (uuid S v) (λ u. ok (some u)) h in
      uuid_names v (ground (arith, hu, k))

  root_names :
      (v : Json) {t : Option ℕ}
      → (if truthy v then (uuid S v >>= λ u. ok (some u)) else ok none) ≡ ok t
      → NamesTenant v root_admin t
  root_names v {t = none} h = elim (Bool-cases (truthy v)) [
    | inl t ↦ some_names v root_admin (rw t at h)
    | inr f ↦ (refl, f)
  ]
  root_names v {t = some i} h = elim (Bool-cases (truthy v)) [
    | inl t ↦ some_names v root_admin (rw t at h)
    | inr f ↦ (let no_tenant = rw f at h in cc)
  ]

  tenant_names :
      (v : Json) (e : Exn) (r : UserRole) {t : Option ℕ}
      → (if truthy v
          then on_value_error e (uuid S v >>= λ u. ok (some u))
          else raised (http_exception 401 "Missing tenant_id claim"))
        ≡ ok t
      → NamesTenant v r t
  tenant_names v e r h = elim (Bool-cases (truthy v)) [
    | inl t ↦ some_names v r (on_value_error-ok e _ (rw t at h))
    | inr f ↦ (let no_claim = rw f at h in cc)
  ]

  parse_tenant_id_names :
      (v : Json) (r : UserRole) {t : Option ℕ} → parse_tenant_id S v r ≡ ok t → NamesTenant v r t
  unfolding parse_tenant_id
  parse_tenant_id_names v root_admin h = root_names v h
  parse_tenant_id_names v tenant_admin h = tenant_names v _ tenant_admin h
  parse_tenant_id_names v watcher h = tenant_names v _ watcher h

  -- The subject of a context is the one of the verified claims, with the parsed role and tenant.
  pub auth_context_parts :
      (token : String) (auth : AuthContext)
      → auth_context_from_token S token ≡ ok auth
      → (c : Claims) × (validate_jwt S token ≡ ok c)
        × (parse_role c.role ≡ ok auth.role)
        × (parse_tenant_id S c.tenant_id auth.role ≡ ok auth.tenant_id)
        × (auth.sub ≡ c.sub)
  unfolding auth_context_from_token
  auth_context_parts token auth h =
      let (c, hc, h1) = >>=-eq-ok (on_token_error (validate_jwt S token)) _ h in
      let (r, hr, h2) = >>=-eq-ok (parse_role c.role) _ h1 in
      let (t, ht, h3) = >>=-eq-ok (parse_tenant_id S c.tenant_id r) _ h2 in
      let (cam, _, h4) =
        >>=-eq-ok
          (on_value_error (http_exception 401 "Invalid camera_id claim")
            (optional_uuid (uuid S) c.camera_id))
          _ h3 in
      let hr' : parse_role c.role ≡ ok auth.role = ground (arith, hr, h4) in
      let ht' : parse_tenant_id S c.tenant_id auth.role ≡ ok auth.tenant_id = cc (ht, h4) in
      let hs : auth.sub ≡ c.sub = cc h4 in (c, on_token_error-ok _ hc, hr', ht', hs)

  -- A context that a token gives has the subject of the verified claims and the role whose text is
  -- their role claim. If it has a tenant, the tenant claim is a text that reads as the id of that tenant;
  -- only root may have none, and then the claim is empty or missing.
  pub auth_context_from_token_claims :
      (token : String) (auth : AuthContext)
      → auth_context_from_token S token ≡ ok auth
      → (c : Claims) × (validate_jwt S token ≡ ok c)
        × (auth.sub ≡ c.sub)
        × (c.role ≡ str (role_value auth.role))
        × NamesTenant c.tenant_id auth.role auth.tenant_id
  auth_context_from_token_claims token auth h =
      let (c, hc, hr, ht, hs) = auth_context_parts token auth h in
      (c, hc, hs, parse_role_names c.role hr, parse_tenant_id_names c.tenant_id auth.role ht)

  edge_ids-ok :
      (c : Claims) {t cam : ℕ}
      → edge_ids S c ≡ ok (t, cam)
      → (uuid S c.tenant_id ≡ ok t) × (uuid S c.camera_id ≡ ok cam)
  unfolding edge_ids
  edge_ids-ok c h =
      let (u, hu, h1) = >>=-eq-ok (uuid S c.tenant_id) _ (on_value_error-ok _ _ h) in
      let (v, hv, h2) = >>=-eq-ok (uuid S c.camera_id) _ h1 in
      (ground (arith, hu, h2), ground (arith, hv, h2))

  require-ok : (b : Bool) (e : Exn) {u : Unit {0}} → require b e ≡ ok u → b ≡ true
  require-ok true e h = refl
  require-ok false e h = cc

  edge_context_claims :
      (token : String) (auth : EdgeAuthContext)
      → edge_context S token ≡ ok auth
      → (c : Claims) × (validate_jwt S token ≡ ok c)
        × (is_client_credentials c.gty ≡ true)
        × (uuid S c.tenant_id ≡ ok auth.tenant_id)
        × (uuid S c.camera_id ≡ ok auth.camera_id)
  unfolding edge_context
  edge_context_claims token auth h =
      let (c, hc, h1) = >>=-eq-ok (on_token_error (validate_jwt S token)) _ h in
      let (_, hg, h2) = >>=-eq-ok (require (is_client_credentials c.gty) _) _ h1 in
      let (_, _, h3) = >>=-eq-ok (require (truthy c.tenant_id && truthy c.camera_id) _) _ h2 in
      let (ids, hi, h4) = >>=-eq-ok (edge_ids S c) _ h3 in
      let (ht, hcam) = edge_ids-ok c hi in
      (c, on_token_error-ok _ hc, require-ok _ _ hg, cc (ht, h4), cc (hcam, h4))

  -- An edge context comes from a bearer token of the client-credentials kind, and its tenant and
  -- camera are the ones that the verified claims name.
  pub get_edge_auth_context_claims :
      (credentials : Credentials) (auth : EdgeAuthContext)
      → get_edge_auth_context S (some credentials) ≡ ok auth
      → (c : Claims) × (credentials.is_bearer ≡ true)
        × (validate_jwt S credentials.credentials ≡ ok c)
        × (is_client_credentials c.gty ≡ true)
        × (uuid S c.tenant_id ≡ ok auth.tenant_id)
        × (uuid S c.camera_id ≡ ok auth.camera_id)
  unfolding get_edge_auth_context
  get_edge_auth_context_claims credentials auth h = elim (Bool-cases credentials.is_bearer) [
    | inl bearer ↦
        let found = edge_context_claims credentials.credentials auth (rw bearer at h) in
        (found.0, bearer, found.1, found.2, found.3, found.4)
    | inr other ↦ (let refused = rw other at h in cc)
  ]

  -- A bearer token whose claims pass the checks gives their edge context.
  pub get_edge_auth_context_returns :
      (token : String) (c : Claims) (t cam : ℕ)
      → validate_jwt S token ≡ ok c
      → is_client_credentials c.gty ≡ true
      → (truthy c.tenant_id && truthy c.camera_id) ≡ true
      → uuid S c.tenant_id ≡ ok t
      → uuid S c.camera_id ≡ ok cam
      → get_edge_auth_context S (some (record { is_bearer = true; credentials = token }))
        ≡ ok (record { sub = c.sub; tenant_id = t; camera_id = cam; token = token })
  unfolding get_edge_auth_context edge_context edge_ids
  get_edge_auth_context_returns token c t cam hc hg hp ht hcam =
      rw hc (rw hg (rw hp (rw ht (rw hcam refl))))
