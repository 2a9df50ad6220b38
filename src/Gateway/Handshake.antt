-- ===== src/Gateway/Handshake.antt =====
-- runtime/src/argus/ws/handlers.py: who gets a socket.
mod Tests
use argus_services.Prelude.{
  ℕ, String, Bool, true, false, ◌||◌, str_eq, ◌≡◌, refl, ap, subst, ◌∙◌, eq_iff, Option-cases, ◌⊎◌,
  inl, inr, Option, none, some, if◌then◌else◌, Bool-cases, arith,
}
use argus_services.Exec.{Exn, Result, ok, raised, type_error, expired_signature, invalid_token}
use argus_services.Exec.Fallible.{◌>>=◌, >>=-eq-ok}
use argus_services.Domain.Enums.{UserRole, watcher, tenant_admin, role_of_value}
use argus_services.Domain.Json.{Json, str, arr, obj}
use argus_services.Auth.{
  AuthSettings, AuthContext, Claims, validate_jwt, parse_role, auth_context_from_token,
}
use argus_services.Auth.Tokens.{auth_context_parts}

pub data Handshake : Type 0 where
  -- `websocket.close(code, reason)`
  closed : ℕ → String → Handshake
  admitted : AuthContext → ℕ → Handshake

-- `token or websocket.cookies.get("argus_dev_token")`
unfoldable pub first_token : Option String → Option String → Option String
first_token none cookie = cookie
first_token (some t) cookie = if str_eq t "" then cookie else some t

-- `role in {...}`; a list or a dict has no hash.
unfoldable pub is_triage_role : Json → Result Bool
is_triage_role (str s) = ok (str_eq s "watcher" || str_eq s "tenant_admin")
is_triage_role (arr xs) = raised (type_error "unhashable type")
is_triage_role (obj fs) = raised (type_error "unhashable type")
is_triage_role _ = ok false

-- `except jwt.InvalidTokenError`, of which an expired signature is one.
unfoldable pub on_invalid_token : Result Handshake → Result Handshake
on_invalid_token (raised expired_signature) = ok (closed 4001 "Invalid token")
on_invalid_token (raised invalid_token) = ok (closed 4001 "Invalid token")
on_invalid_token (raised e) = raised e
on_invalid_token (ok h) = ok h

unfoldable pub with_tenant : AuthContext → Handshake
with_tenant auth = elim auth.tenant_id [
  | none ↦ closed 4003 "Missing tenant_id"
  | some t ↦ admitted auth t
]

module _ (S : AuthSettings) where
  unfoldable pub admit_role : String → Bool → Result Handshake
  admit_role token false = ok (closed 4003 "Insufficient role")
  admit_role token true = do auth ← auth_context_from_token S token; ok (with_tenant auth)

  unfoldable pub admit : String → Result Handshake
  admit token = do
    claims ← validate_jwt S token
    known ← is_triage_role claims.role
    admit_role token known

  unfoldable pub handshake_with : Option String → Result Handshake
  handshake_with none = ok (closed 4001 "Missing token")
  handshake_with (some token) =
      if str_eq token "" then ok (closed 4001 "Missing token") else on_invalid_token (admit token)

  unfoldable pub handshake : Option String → Option String → Result Handshake
  handshake token cookie = handshake_with (first_token token cookie)

  on_invalid_token-admitted :
      (r : Result Handshake) {auth : AuthContext} {t : ℕ}
      → on_invalid_token r ≡ ok (admitted auth t)
      → r ≡ ok (admitted auth t)
  unfolding on_invalid_token
  on_invalid_token-admitted (ok h) e = e
  on_invalid_token-admitted (raised expired_signature) e = cc
  on_invalid_token-admitted (raised invalid_token) e = cc
  on_invalid_token-admitted (raised x) e = cc

  with_tenant-admitted :
      (a auth : AuthContext) (t : ℕ)
      → with_tenant a ≡ admitted auth t
      → (a ≡ auth) × (a.tenant_id ≡ some t)
  unfolding with_tenant
  with_tenant-admitted a auth t h = elim (Option-cases a.tenant_id) [
    | inl missing ↦ (let no = rw missing at h in cc)
    | inr (u, e) ↦ let k = rw e at h in (ground (arith, k), e ∙ ap some (ground (arith, k)))
  ]

  triage_role :
      (v : Json) (r : UserRole)
      → is_triage_role v ≡ ok true
      → parse_role v ≡ ok r
      → (r ≡ watcher) ⊎ (r ≡ tenant_admin)
  unfolding is_triage_role parse_role role_of_value
  triage_role (str s) r h k = elim (Bool-cases (str_eq s "watcher")) [
    | inl same ↦
        let e : ok watcher ≡ ok r =
          subst (λ x. parse_role (str x) ≡ ok r) ((eq_iff s "watcher").0 same) k in
        inl (ground (arith, e))
    | inr other ↦ elim (Bool-cases (str_eq s "tenant_admin")) [
      | inl same ↦
          let e : ok tenant_admin ≡ ok r =
            subst (λ x. parse_role (str x) ≡ ok r) ((eq_iff s "tenant_admin").0 same) k in
          inr (ground (arith, e))
      | inr none_of_them ↦ (let no = rw (other, none_of_them) at h in cc)
    ]
  ]
  triage_role v r h k = cc

  admit-claims :
      (token : String) (auth : AuthContext) (t : ℕ)
      → admit token ≡ ok (admitted auth t)
      → (auth_context_from_token S token ≡ ok auth)
        × (auth.tenant_id ≡ some t)
        × ((auth.role ≡ watcher) ⊎ (auth.role ≡ tenant_admin))
  unfolding admit admit_role
  admit-claims token auth t h =
      let (c, hc, h1) = >>=-eq-ok (validate_jwt S token) _ h in
      let (known, hk, h2) = >>=-eq-ok (is_triage_role c.role) _ h1 in
      admitted_known c known hc hk h2
    where
      admitted_known :
          (c : Claims) (known : Bool)
          → validate_jwt S token ≡ ok c
          → is_triage_role c.role ≡ ok known
          → admit_role token known ≡ ok (admitted auth t)
          → (auth_context_from_token S token ≡ ok auth)
            × (auth.tenant_id ≡ some t)
            × ((auth.role ≡ watcher) ⊎ (auth.role ≡ tenant_admin))
      admitted_known c false hc hk h = cc
      admitted_known c true hc hk h =
          let (a, ha, h1) = >>=-eq-ok (auth_context_from_token S token) _ h in
          let (same, of_tenant) = with_tenant-admitted a auth t (ground (arith, h1)) in
          let ha' : auth_context_from_token S token ≡ ok auth = cc in
          let (c', hc', hr, _, _) = auth_context_parts S token auth ha' in
          let role : parse_role c.role ≡ ok auth.role = cc in
          (
            ha',
            subst (λ x. x.tenant_id ≡ some t) same of_tenant,
            triage_role c.role auth.role hk role,
          )

  handshake_with-claims :
      (token : Option String) (auth : AuthContext) (t : ℕ)
      → handshake_with token ≡ ok (admitted auth t)
      → (k : String) × (token ≡ some k)
        × (auth_context_from_token S k ≡ ok auth)
        × (auth.tenant_id ≡ some t)
        × ((auth.role ≡ watcher) ⊎ (auth.role ≡ tenant_admin))
  unfolding handshake_with
  handshake_with-claims none auth t h = cc
  handshake_with-claims (some token) auth t h = elim (Bool-cases (str_eq token "")) [
    | inl empty ↦ (let no = rw empty at h in cc)
    | inr filled ↦
        let found = admit-claims token auth t (on_invalid_token-admitted _ (rw filled at h)) in
        (token, refl, found.0, found.1, found.2)
  ]

  -- A socket is let in for a tenant only with a token, from the query or the cookie, whose context is of
  -- that tenant and of a watcher or an admin of a tenant; root is not let in.
  pub handshake_claims :
      (token cookie : Option String) (auth : AuthContext) (t : ℕ)
      → handshake token cookie ≡ ok (admitted auth t)
      → (k : String) × (first_token token cookie ≡ some k)
        × (auth_context_from_token S k ≡ ok auth)
        × (auth.tenant_id ≡ some t)
        × ((auth.role ≡ watcher) ⊎ (auth.role ≡ tenant_admin))
  unfolding handshake
  handshake_claims token cookie auth t h = handshake_with-claims (first_token token cookie) auth t h
