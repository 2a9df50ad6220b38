-- ===== src/Access.antt =====
-- runtime/src/argus/api/deps.py (and the same `require_role` of core/auth.py): who may call a route,
-- and the session variables that the route's transaction runs under.
pub mod Isolation
pub mod Transactions
pub mod Outcome
mod Tests
use argus_services.Prelude.{
  ℕ, Bool, true, false, ◌||◌, Option, none, some, List, [], ◌∷◌, eq_opt, if◌then◌else◌,
}
use argus_services.Exec.{Exec, Result, ok, raised, http_exception}
use argus_services.Exec.Fallible.{◌>>=◌, ◌>>◌, require}
use argus_services.Domain.Enums.{UserRole, root_admin, tenant_admin, role_eq}
use argus_services.World.{World}
use argus_services.World.Redis.{KeyStore}
use argus_services.World.Session.{Context, no_context, set_session_context, transaction}
use argus_services.Auth.{AuthContext}

pub has_role : UserRole → List UserRole → Bool
has_role r [] = false
has_role r (x ∷ xs) = role_eq r x || has_role r xs

unfoldable pub require_role : List UserRole → AuthContext → Result AuthContext
unfolding has_role
require_role roles auth =
    if has_role auth.role roles
    then ok auth
    else raised (http_exception 403 "Insufficient permissions")

unfoldable pub require_tenant_access : ℕ → AuthContext → Result AuthContext
require_tenant_access tenant_id auth =
    if role_eq auth.role root_admin
    then ok auth
    else if eq_opt auth.tenant_id (some tenant_id)
    then ok auth
    else raised (http_exception 403 "Tenant access denied")

unfoldable pub set_tenant_context : Context → AuthContext → Context
set_tenant_context c auth = set_session_context c auth.tenant_id (some auth.role)

-- The variables that `get_tenant_db` sets: root acts as an admin of the tenant in the path.
unfoldable pub tenant_context : ℕ → AuthContext → Context
unfolding set_tenant_context
tenant_context tenant_id auth =
    if role_eq auth.role root_admin
    then set_session_context no_context (some tenant_id) (some tenant_admin)
    else set_tenant_context no_context auth

abbrev pub root_context : Context
root_context = set_session_context no_context none (some root_admin)

module _ {K : KeyStore} {A : Type 0} where
  abbrev pub with_access : Result AuthContext → (AuthContext → Exec (World K) A) → Exec (World K) A
  with_access (ok auth) route w = route auth w
  with_access (raised e) route w = (raised e, w)

  -- A route under `/tenants/{tenant_id}`: its dependencies, and its body in their session.
  unfoldable pub tenant_route :
      List UserRole
      → ℕ
      → AuthContext
      → (Context → AuthContext → Exec (World K) A)
      → Exec (World K) A
  tenant_route roles tenant_id auth body =
      with_access (do granted ← require_tenant_access tenant_id auth; require_role roles granted)
        λ a. transaction (body (tenant_context tenant_id a) a)

  -- A route under `/admin`.
  unfoldable pub root_route : AuthContext → (Context → Exec (World K) A) → Exec (World K) A
  root_route auth body =
      with_access (require_role (root_admin ∷ []) auth) λ a. transaction (body root_context)
