-- ===== src/World/Session.antt =====
-- runtime/src/argus/services/database.py: the session variables and the transaction around a block
-- of code; runtime/alembic/versions/007_rls.py: the rows that a session may read. The database
-- answers every call; a block runs with no other transaction in between.
use argus_services.Prelude.{ℕ, ◌≡◌, refl, Bool, true, false, ◌||◌, Option, none, some, eq_opt}
use argus_services.Exec.{Exec, Exn, Result, ok, raised}
use argus_services.Exec.Triple.{Post}
use argus_services.Domain.Enums.{UserRole, root_admin, tenant_admin, watcher}
use argus_services.World.{World, Db}
use argus_services.World.Redis.{KeyStore}

-- `app.current_tenant_id` and `app.current_role`, unset at the start of a transaction.
pub record Context : Type 0 where
  pub current_tenant_id : Option ℕ
  pub current_role : Option UserRole

abbrev pub no_context : Context
no_context = record { current_tenant_id = none; current_role = none }

-- An argument that is `None` leaves the variable as it is.
unfoldable pub set_session_context : Context → Option ℕ → Option UserRole → Context
set_session_context c none none = c
set_session_context c (some t) none = record c { current_tenant_id = some t }
set_session_context c none (some r) = record c { current_role = some r }
set_session_context c (some t) (some r) = record {
  current_tenant_id = some t;
  current_role = some r;
}

abbrev pub is_root : Option UserRole → Bool
is_root (some root_admin) = true
is_root (some tenant_admin) = false
is_root (some watcher) = false
is_root none = false

-- The policies `tenant_isolation_select` and `root_admin_all`: a row passes if it is of the current
-- tenant, or if the role is root.
unfoldable pub allows : Context → ℕ → Bool
allows c tenant_id = is_root c.current_role || eq_opt (some tenant_id) c.current_tenant_id

module _ {K : KeyStore} {A : Type 0} where
  -- A raise rolls the tables back, and nothing else.
  abbrev pub settle : Db → Result A → World K → Result A × World K
  settle before (ok a) w = (ok a, w)
  settle before (raised e) w = (raised e, record w { db = before })

  -- `get_db`, and the block of `tenant_session`: commit on return, roll back on a raise.
  unfoldable pub transaction : Exec (World K) A → Exec (World K) A
  transaction block w = settle w.db (block w).0 (block w).1

  unfoldable pub tenant_session :
      Option ℕ → Option UserRole → (Context → Exec (World K) A) → Exec (World K) A
  unfolding transaction
  tenant_session tenant_id role block =
      transaction (block (set_session_context no_context tenant_id role))

  pub settle-keeps :
      (P : Db → Type 0) (before : Db) (r : Result A) (w : World K)
      → P before
      → Post (λ _ v. P v.db) r w
      → P (settle before r w).1.db
  settle-keeps P before (ok a) w p h = h
  settle-keeps P before (raised e) w p h = p

  -- A property of the tables that a block establishes when it returns holds after the session, also
  -- when the block raises.
  pub tenant_session-keeps :
      (P : Db → Type 0) (tenant_id : Option ℕ) (role : Option UserRole)
      (block : Context → Exec (World K) A) (w : World K)
      → (let r = block (set_session_context no_context tenant_id role) w in
          Post (λ _ (v : World K). P v.db) r.0 r.1)
      → P w.db
      → P (tenant_session tenant_id role block w).1.db
  unfolding tenant_session
  tenant_session-keeps P tenant_id role block w h p = settle-keeps P w.db _ _ p h

  pub settle_rolled_back :
      (before : Db) (r : Result A) (w : World K) {e : Exn}
      → (settle before r w).0 ≡ raised e
      → (settle before r w).1.db ≡ before
  settle_rolled_back before (ok a) w h = cc
  settle_rolled_back before (raised e') w h = refl

  -- A session that ends in an exception leaves every table as it was.
  pub tenant_session_rolled_back :
      (tenant_id : Option ℕ) (role : Option UserRole) (block : Context → Exec (World K) A)
      (w : World K) {e : Exn}
      → (tenant_session tenant_id role block w).0 ≡ raised e
      → (tenant_session tenant_id role block w).1.db ≡ w.db
  unfolding tenant_session
  tenant_session_rolled_back tenant_id role block w h = settle_rolled_back w.db _ _ h

  settle-Post :
      (Q : A → World K → Type 0) (before : Db) (r : Result A) (w : World K)
      → Post Q r w
      → Post Q (settle before r w).0 (settle before r w).1
  settle-Post Q before (ok a) w h = h
  settle-Post Q before (raised e) w h = tt

  -- What a block establishes when it returns holds after the session.
  pub tenant_session-Post :
      (Q : A → World K → Type 0) (tenant_id : Option ℕ) (role : Option UserRole)
      (block : Context → Exec (World K) A) (w : World K)
      → (let r = block (set_session_context no_context tenant_id role) w in Post Q r.0 r.1)
      → Post Q (tenant_session tenant_id role block w).0 (tenant_session tenant_id role block w).1
  unfolding tenant_session
  tenant_session-Post Q tenant_id role block w h = settle-Post Q w.db _ _ h
