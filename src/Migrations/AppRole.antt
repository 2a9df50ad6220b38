-- ===== src/Migrations/AppRole.antt =====
-- runtime/alembic/versions/008_app_role.py: the role that the services connect as, and what it is granted. Of
-- PostgreSQL: a role that still has a privilege is not dropped. No revision makes a sequence (all keys are
-- UUIDs), so the grant on all sequences grants nothing and is left out.
use argus_services.Prelude.{
  ◌≡◌, refl, String, Bool, true, false, not, List, [], ◌∷◌, ◌++◌, select, find?, is_some, ap, ◌∙◌,
  find?-append_last, find?-more, Bool-cases, inl, inr, if◌then◌else◌,
}
use argus_services.Exec.{Exn, Result, ok, raised, service_error}
use argus_services.Migrations.Revisions.{tenant_scoped_tables}

pub data Grant : Type 0 where
  connect_on_database usage_on_schema : Grant
  -- SELECT, INSERT, UPDATE and DELETE
  rights_on_table : String → Grant

-- The role, if it is there, and its privileges.
pub record AppRole : Type 0 where
  pub is_there : Bool
  pub grants : List Grant

-- `TABLES`
abbrev pub granted_tables : List String
granted_tables =
    "tenants" ∷ "tenant_users" ∷ "markets" ∷ "cameras" ∷ "regions_of_interest" ∷ "context_modes"
    ∷ "context_mode_schedules" ∷ "context_mode_camera_assignments" ∷ "lenses" ∷ "rules"
    ∷ "rule_region_mappings" ∷ "evidences" ∷ "decisions" ∷ "decision_evidences" ∷ "feedback"
    ∷ "audit_records" ∷ "notification_configs" ∷ "notification_deliveries" ∷ []

abbrev pub grant : Grant → AppRole → AppRole
grant g r = record r { grants = r.grants ++ g ∷ [] }

unfoldable pub grant_tables : List String → AppRole → AppRole
grant_tables [] r = r
grant_tables (t ∷ ts) r = grant_tables ts (grant (rights_on_table t) r)

-- The role is made if it is not there.
unfoldable pub upgrade_role : AppRole → AppRole
upgrade_role r =
    grant_tables granted_tables
      (grant usage_on_schema (grant connect_on_database (record r { is_there = true })))

abbrev is_on_table : Grant → Bool
is_on_table (rights_on_table _) = true
is_on_table _ = false

abbrev is_on_schema : Grant → Bool
is_on_schema usage_on_schema = true
is_on_schema _ = false

abbrev pub revoke : (Grant → Bool) → AppRole → AppRole
revoke p r = record r { grants = select (λ g. not (p g)) r.grants }

-- `DROP ROLE IF EXISTS`
unfoldable pub drop_role : AppRole → Result AppRole
drop_role r =
    if r.is_there
    then elim r.grants [
      | [] ↦ ok (record { is_there = false; grants = [] })
      | g ∷ gs ↦ raised (service_error "role cannot be dropped because some objects depend on it")
    ]
    else ok r

unfoldable pub downgrade_role : AppRole → Result AppRole
downgrade_role r = drop_role (revoke is_on_schema (revoke is_on_table r))

-- The granted tables are that of the tenants and the protected ones.
granted_tables-protected : granted_tables ≡ "tenants" ∷ tenant_scoped_tables
granted_tables-protected = refl

abbrev is_connect : Grant → Bool
is_connect connect_on_database = true
is_connect _ = false

abbrev may_connect : List Grant → Bool
may_connect gs = is_some (find? is_connect gs)

grant_tables-keeps :
    (ts : List String) (r : AppRole)
    → (r.is_there ≡ true) × (may_connect r.grants ≡ true)
    → ((grant_tables ts r).is_there ≡ true) × (may_connect (grant_tables ts r).grants ≡ true)
unfolding grant_tables
grant_tables-keeps [] r h = h
grant_tables-keeps (t ∷ ts) r h =
    grant_tables-keeps ts (grant (rights_on_table t) r)
      (h.0, find?-more is_connect r.grants (rights_on_table t ∷ []) h.1)

revoke-keeps :
    (p : Grant → Bool) (gs : List Grant)
    → p connect_on_database ≡ false
    → may_connect gs ≡ true
    → may_connect (select (λ g. not (p g)) gs) ≡ true
revoke-keeps p [] other h = cc
revoke-keeps p (connect_on_database ∷ gs) other h = rw other refl
revoke-keeps p (usage_on_schema ∷ gs) other h = elim (Bool-cases (p usage_on_schema)) [
  | inl gone ↦ rw gone (revoke-keeps p gs other h)
  | inr stays ↦ rw stays (revoke-keeps p gs other h)
]
revoke-keeps p (rights_on_table t ∷ gs) other h = elim (Bool-cases (p (rights_on_table t))) [
  | inl gone ↦ rw gone (revoke-keeps p gs other h)
  | inr stays ↦ rw stays (revoke-keeps p gs other h)
]

-- A role that may connect is not dropped.
drop_role-refused :
    (grants : List Grant)
    → may_connect grants ≡ true
    → (e : Exn) × (drop_role (record { is_there = true; grants = grants }) ≡ raised e)
unfolding drop_role
drop_role-refused [] connects = cc
drop_role-refused (g ∷ gs) connects =
    (service_error "role cannot be dropped because some objects depend on it", refl)

-- The upgrade lets the role connect to the database, and the downgrade does not take that back: whatever the role
-- had before, the downgrade that follows the upgrade fails.
downgrade-upgrade_role_fails :
    (r : AppRole) → (e : Exn) × (downgrade_role (upgrade_role r) ≡ raised e)
unfolding downgrade_role upgrade_role
downgrade-upgrade_role_fails r =
    let start : List Grant = r.grants ++ connect_on_database ∷ [] in
    let granted : AppRole = record { is_there = true; grants = start ++ usage_on_schema ∷ [] } in
    let (there, connects) = grant_tables-keeps granted_tables granted (
      refl,
      find?-more is_connect start (usage_on_schema ∷ [])
          (find?-append_last is_connect r.grants connect_on_database refl),
    ) in
    let left = (grant_tables granted_tables granted).grants in
    let (e, refused) =
      drop_role-refused
        (select (λ g. not (is_on_schema g)) (select (λ g. not (is_on_table g)) left))
        (revoke-keeps is_on_schema (select (λ g. not (is_on_table g)) left) refl
          (revoke-keeps is_on_table left refl connects)) in
    (
      e,
      ap
            (λ b. drop_role (record {
              is_there = b;
              grants = select (λ g. not (is_on_schema g)) (select (λ g. not (is_on_table g)) left);
            }))
            there
          ∙ refused,
    )
