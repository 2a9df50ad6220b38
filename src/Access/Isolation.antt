-- ===== src/Access/Isolation.antt =====
-- A request to a tenant's routes reads the rows of that tenant and no others.
use argus_services.Prelude.{ℕ, ◌==◌, ◌≡◌, arith}
use argus_services.Exec.{ok}
use argus_services.World.Session.{allows, set_session_context}
use argus_services.Auth.{AuthContext}
use argus_services.Access.{require_tenant_access, tenant_context}

-- Once access to a tenant is granted, the session of the request may read a row exactly if it is of that
-- tenant: for an admin or a watcher of the tenant, and for root, who acts as an admin there.
pub tenant_context_isolates :
    (tenant_id row : ℕ) (auth a : AuthContext)
    → require_tenant_access tenant_id auth ≡ ok a
    → allows (tenant_context tenant_id a) row ≡ (row == tenant_id)
unfolding require_tenant_access tenant_context set_session_context allows
tenant_context_isolates tenant_id row auth a h = ground arith
