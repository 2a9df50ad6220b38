-- ===== src/Admin.antt =====
-- runtime/src/argus/api/admin: the routes by which an admin sets a tenant up (Cameras has those of
-- cameras.py). Ids of new rows and the time of the transaction are arguments.
pub mod Tenants
pub mod Modes
pub mod Rules
pub mod Notifications
pub mod Calls
pub mod Ownership
pub mod Serving
mod Tests
use argus_services.Prelude.{ℕ, Bool, true, false, ◌==◌, leb, Option, none, some, List, [], ◌∷◌}

-- `row is not None and row.tenant_id == tenant_id`
abbrev pub is_of : {A : Type 0} → (A → ℕ) → ℕ → Option A → Bool
is_of tenant_of tenant_id none = false
is_of tenant_of tenant_id (some x) = tenant_of x == tenant_id
