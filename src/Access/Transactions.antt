-- ===== src/Access/Transactions.antt =====
-- runtime/src/argus/api/deps.py: a request to a tenant's routes as one transaction.
use argus_services.Prelude.{ℕ, List}
use argus_services.Exec.{Exec, Result, ok, raised}
use argus_services.Exec.Fallible.{◌>>=◌}
use argus_services.Exec.Triple.{Post}
use argus_services.Domain.Enums.{UserRole}
use argus_services.World.{World, Db}
use argus_services.World.Redis.{KeyStore}
use argus_services.World.Session.{Context, settle-keeps, transaction}
use argus_services.Auth.{AuthContext}
use argus_services.Access.{
  require_role, require_tenant_access, tenant_context, with_access, tenant_route,
}

module _ {K : KeyStore} {A : Type 0} where
  with_access-keeps :
      (P : World K → Type 0) (access : Result AuthContext) (route : AuthContext → Exec (World K) A)
      (w : World K)
      → ((a : AuthContext) → P (route a w).1)
      → P w
      → P (with_access access route w).1
  with_access-keeps P (ok a) route w h p = h a
  with_access-keeps P (raised e) route w h p = p

  -- What the body establishes when it returns, and the tables had before, they have after the request.
  pub tenant_route-keeps :
      (P : Db → Type 0) (roles : List UserRole) (tenant_id : ℕ) (auth : AuthContext)
      (body : Context → AuthContext → Exec (World K) A) (w : World K)
      → ((c : Context) (a : AuthContext)
          → Post (λ _ (v : World K). P v.db) (body c a w).0 (body c a w).1)
      → P w.db
      → P (tenant_route roles tenant_id auth body w).1.db
  unfolding tenant_route transaction
  tenant_route-keeps P roles tenant_id auth body w h p =
      with_access-keeps (λ v. P v.db) (require_tenant_access tenant_id auth >>= require_role roles)
        (λ a. transaction (body (tenant_context tenant_id a) a)) w
        (λ a. settle-keeps P w.db _ _ p (h (tenant_context tenant_id a) a)) p
