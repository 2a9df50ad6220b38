-- ===== src/Access/Outcome.antt =====
-- runtime/src/argus/api/deps.py: what a request to a tenant's route comes to.
use argus_services.Prelude.{
  ℕ, true, false, ◌≡◌, ◌∙◌, refl, sym, ap, ==_refl, arith, Option, none, some, List, [], ◌∷◌, ◌⊎◌,
  inl, inr, Bool-cases, String, eq_opt, if◌then◌else◌,
}
use argus_services.Exec.{Exec, Exn, Result, ok, raised, http_exception}
use argus_services.Exec.Fallible.{◌>>=◌}
use argus_services.Domain.Enums.{UserRole, root_admin, tenant_admin, watcher, role_eq}
use argus_services.World.{World}
use argus_services.World.Redis.{KeyStore}
use argus_services.World.Session.{Context, no_context, set_session_context, settle, transaction}
use argus_services.Auth.{AuthContext}
use argus_services.Access.{
  has_role, require_role, require_tenant_access, set_tenant_context, tenant_context, tenant_route,
}

-- The role is in the list.
abbrev pub IsOneOf : List UserRole → UserRole → Type 0
IsOneOf [] r = ⊥
IsOneOf (x ∷ xs) r = (r ≡ x) ⊎ IsOneOf xs r

-- A caller with one of the roles, who is root or of the tenant.
abbrev pub IsGranted : List UserRole → ℕ → AuthContext → Type 0
IsGranted roles tenant_id auth =
    IsOneOf roles auth.role × ((auth.role ≡ root_admin) ⊎ (auth.tenant_id ≡ some tenant_id))

-- The variables of a granted request: always those of the tenant in the path, never root's.
abbrev pub granted_session : ℕ → AuthContext → Context
granted_session tenant_id auth =
    set_session_context no_context (some tenant_id)
      (some (if role_eq auth.role root_admin then tenant_admin else auth.role))

role_eq_sound : (r s : UserRole) → role_eq r s ≡ true → r ≡ s
role_eq_sound r s h = ground arith

role_eq_refl : (r : UserRole) → role_eq r r ≡ true
role_eq_refl root_admin = refl
role_eq_refl tenant_admin = refl
role_eq_refl watcher = refl

eq_opt_sound : (a b : Option ℕ) → eq_opt a b ≡ true → a ≡ b
eq_opt_sound none none h = refl
eq_opt_sound (some a) (some b) h = ground arith
eq_opt_sound none (some b) h = cc
eq_opt_sound (some a) none h = cc

has_role_sound : (roles : List UserRole) (r : UserRole) → has_role r roles ≡ true → IsOneOf roles r
unfolding has_role
has_role_sound [] r h = cc
has_role_sound (x ∷ xs) r h = elim (Bool-cases (role_eq r x)) [
  | inl same ↦ inl (role_eq_sound r x same)
  | inr other ↦ inr (has_role_sound xs r (rw other at h))
]

has_role_complete :
    (roles : List UserRole) (r : UserRole) → IsOneOf roles r → has_role r roles ≡ true
unfolding has_role
has_role_complete [] r h = absurd h
has_role_complete (x ∷ xs) r (inl same) = rw (sym same) (rw (role_eq_refl r) refl)
has_role_complete (x ∷ xs) r (inr later) = elim (Bool-cases (role_eq r x)) [
  | inl same ↦ rw same refl
  | inr other ↦ rw other (has_role_complete xs r later)
]

-- The dependencies of a route: refused with 403, or granted with the session of the tenant.
abbrev Access : List UserRole → ℕ → AuthContext → Type 0
Access roles tenant_id auth =
    let access = require_tenant_access tenant_id auth >>= require_role roles in
    ((¬ IsGranted roles tenant_id auth) × (m : String) × (access ≡ raised (http_exception 403 m)))
    ⊎ (IsGranted roles tenant_id auth
        × (access ≡ ok auth)
        × (tenant_context tenant_id auth ≡ granted_session tenant_id auth))

role_access :
    (roles : List UserRole) (tenant_id : ℕ) (auth : AuthContext)
    → require_tenant_access tenant_id auth ≡ ok auth
    → ((auth.role ≡ root_admin) ⊎ (auth.tenant_id ≡ some tenant_id))
    → tenant_context tenant_id auth ≡ granted_session tenant_id auth
    → Access roles tenant_id auth
unfolding require_role
role_access roles tenant_id auth enters of_tenant session =
    elim (Bool-cases (has_role auth.role roles)) [
      | inl has ↦
          inr ((has_role_sound roles auth.role has, of_tenant), rw (enters, has) refl, session)
      | inr lacks ↦ inl (
        λ g. (let has = has_role_complete roles auth.role g.0 in cc),
        "Insufficient permissions",
        rw (enters, lacks) refl,
      )
    ]

access : (roles : List UserRole) (tenant_id : ℕ) (auth : AuthContext) → Access roles tenant_id auth
unfolding require_tenant_access tenant_context set_tenant_context
access roles tenant_id auth = elim (Bool-cases (role_eq auth.role root_admin)) [
  | inl root ↦
      role_access roles tenant_id auth (rw root refl) (inl (role_eq_sound _ _ root)) (rw root refl)
  | inr plain ↦ elim (Bool-cases (eq_opt auth.tenant_id (some tenant_id))) [
    | inl same ↦
        let of_tenant = eq_opt_sound auth.tenant_id (some tenant_id) same in
        role_access roles tenant_id auth (rw (plain, same) refl) (inr of_tenant)
          (rw plain (ap (λ t. set_session_context no_context t (some auth.role)) of_tenant))
    | inr other ↦ inl (no_access plain other, "Tenant access denied", rw (plain, other) refl)
  ]
]
  where
    no_access :
        role_eq auth.role root_admin ≡ false
        → eq_opt auth.tenant_id (some tenant_id) ≡ false
        → ¬ IsGranted roles tenant_id auth
    no_access plain other (_, inl root) = (let same = ap (λ r. role_eq r root_admin) root in cc)
    no_access plain other (_, inr of_tenant) =
        (let same : eq_opt auth.tenant_id (some tenant_id) ≡ true =
            ap (λ t. eq_opt t (some tenant_id)) of_tenant ∙ ==_refl tenant_id in
          cc)

module _ {K : KeyStore} {A : Type 0} where
  -- A body in its transaction: committed, or rolled back.
  abbrev pub Settled : Result A × World K → World K → Result A × World K → Type 0
  Settled run w r =
      ((x : A) × (run.0 ≡ ok x) × (r ≡ run))
      ⊎ ((e : Exn) × (run.0 ≡ raised e) × (r ≡ (raised e, record run.1 { db = w.db })))

  settle-Settled : (x : Result A) (v w : World K) → Settled (x, v) w (settle w.db x v)
  settle-Settled (ok a) v w = inl (a, refl, refl)
  settle-Settled (raised e) v w = inr (e, refl, refl)

  -- A request to a tenant's route: a caller without one of the route's roles, or who is neither root
  -- nor of the tenant, is answered 403 and nothing changes. For every other caller the body runs in the
  -- session of the tenant; what it did stands if it returns, and if it raises the tables are as before.
  pub tenant_route_outcome :
      (roles : List UserRole) (tenant_id : ℕ) (auth : AuthContext)
      (body : Context → AuthContext → Exec (World K) A) (w : World K)
      → ((¬ IsGranted roles tenant_id auth)
          × (m : String) × (tenant_route roles tenant_id auth body w
              ≡ (raised (http_exception 403 m), w)))
        ⊎ (IsGranted roles tenant_id auth
            × Settled
                (body (granted_session tenant_id auth) auth w)
                w
                (tenant_route roles tenant_id auth body w))
  unfolding tenant_route transaction
  tenant_route_outcome roles tenant_id auth body w = elim (access roles tenant_id auth) [
    | inl refused ↦ inl (refused.0, refused.1, rw refused.2 refl)
    | inr granted ↦ inr (
      granted.0,
      rw (granted.1, granted.2)
          (settle-Settled (body (granted_session tenant_id auth) auth w).0
            (body (granted_session tenant_id auth) auth w).1 w),
    )
  ]
