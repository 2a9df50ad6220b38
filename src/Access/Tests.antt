-- ===== src/Access/Tests.antt =====
-- A watcher enters tenant 7.
use argus_services.Prelude.{◌≡◌, refl, false, none, some}
use argus_services.Domain.Enums.{watcher}
use argus_services.World.Session.{allows, set_session_context}
use argus_services.Auth.{AuthContext}
use argus_services.Access.{require_tenant_access, set_tenant_context, tenant_context}
use argus_services.Access.Isolation.{tenant_context_isolates}

abbrev jo : AuthContext
jo = record { sub = "jo"; tenant_id = some 7; role = watcher; token = "t"; camera_id = none }

tenant_context_isolates_example : allows (tenant_context 7 jo) 8 ≡ false
unfolding require_tenant_access tenant_context set_tenant_context set_session_context allows
tenant_context_isolates_example = tenant_context_isolates 7 8 jo jo refl
