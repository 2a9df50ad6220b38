-- ===== src/Migrations/Protection.antt =====
-- The row policies of runtime/alembic/versions/007_rls.py against the test that the sessions of the model use.
use argus_services.Prelude.{
  ℕ, ◌≡◌, refl, subst, sym, ◌∙◌, String, Bool, true, false, not, ◌&&◌, ◌||◌, str_eq, eq_iff, eq_opt,
  none, some, List, [], ◌∷◌, All, All-mono, Bool-cases, inl, inr, arith,
}
use argus_services.Exec.{ok}
use argus_services.World.Session.{Context, is_root, allows}
use argus_services.Migrations.{is_in}
use argus_services.Migrations.Revisions.{tenant_scoped_tables}
use argus_services.Migrations.RowSecurity.{
  for_all, for_select, for_insert, for_update, for_delete, of_current_tenant, is_current_tenant,
  is_root_admin, TableSecurity, unprotected, policy, create_policy, enable_tenant_rls,
  enable_tenants_rls, drop_policy, disable_tenant_rls, Security, set_table, enable_each,
  upgrade_rls, reaches, may_write,
}

abbrev protected : TableSecurity
protected = record {
  enabled = true;
  forced = true;
  policies =
      policy "tenant_isolation_select" for_select (some of_current_tenant) none
      ∷ policy "tenant_isolation_insert" for_insert none (some of_current_tenant)
      ∷ policy "tenant_isolation_update" for_update (some of_current_tenant)
          (some of_current_tenant)
      ∷ policy "tenant_isolation_delete" for_delete (some of_current_tenant) none
      ∷ policy "root_admin_all" for_all (some is_root_admin) (some is_root_admin)
      ∷ [];
}

abbrev protected_tenants : TableSecurity
protected_tenants = record {
  enabled = true;
  forced = true;
  policies =
      policy "tenant_isolation_select" for_select (some is_current_tenant) none
      ∷ policy "tenant_isolation_update" for_update (some is_current_tenant)
          (some is_current_tenant)
      ∷ policy "root_admin_all" for_all (some is_root_admin) (some is_root_admin)
      ∷ [];
}

enable_tenant_rls-unprotected : enable_tenant_rls unprotected ≡ ok protected
unfolding enable_tenant_rls create_policy
enable_tenant_rls-unprotected = refl

enable_tenants_rls-unprotected : enable_tenants_rls unprotected ≡ ok protected_tenants
unfolding enable_tenants_rls create_policy
enable_tenants_rls-unprotected = refl

-- The downgrade of a table takes its policies away again.
disable_tenant_rls-protected : disable_tenant_rls protected ≡ unprotected
unfolding disable_tenant_rls drop_policy
disable_tenant_rls-protected = refl

abbrev is_distinct : List String → Bool
is_distinct [] = true
is_distinct (n ∷ ns) = not (is_in n ns) && is_distinct ns

others :
    (n : String) (ns : List String) (s : TableSecurity) (all : Security)
    → is_in n ns ≡ false
    → All (λ m. all m ≡ unprotected) ns
    → All (λ m. set_table n s all m ≡ unprotected) ns
others n [] s all absent h = tt
others n (m ∷ ms) s all absent h = elim (Bool-cases (str_eq m n)) [
  | inl same ↦ (let no = rw same at absent in cc)
  | inr other ↦ rw other (h.0, others n ms s all (rw other at absent) h.1)
]

record Enabled (ns : List String) (all after : Security) : Type 0 where
  returns : enable_each ns all ≡ ok after
  protects : All (λ n. after n ≡ protected) ns
  leaves : (m : String) → is_in m ns ≡ false → after m ≡ all m

-- A name that is not in the list is not its first one.
not_same : (n m : String) (ns : List String) → is_in m (n ∷ ns) ≡ false → str_eq m n ≡ false
not_same n m ns out = ground (arith, out, eq_iff m n, eq_iff n m)

enable_each-Enabled :
    (ns : List String) (all : Security)
    → is_distinct ns ≡ true
    → All (λ n. all n ≡ unprotected) ns
    → (after : Security) × Enabled ns all after
unfolding enable_each
enable_each-Enabled [] all distinct h =
    (all, record { returns = refl; protects = tt; leaves = λ m _. refl })
enable_each-Enabled (n ∷ ns) all distinct h =
    let absent : is_in n ns ≡ false = ground (arith, distinct) in
    let (after, e) =
      enable_each-Enabled ns (set_table n protected all) (ground (arith, distinct))
        (others n ns protected all absent h.1) in
    (
      after,
      record {
        returns = rw h.0 (rw enable_tenant_rls-unprotected e.returns);
        protects = (e.leaves n absent ∙ rw ((eq_iff n n).1 refl) refl, e.protects);
        leaves = λ m out. e.leaves m (ground (arith, out)) ∙ rw (not_same n m ns out) refl;
      },
    )

-- The conditions of the policies as one test each.
or_false : (a b : Bool) → (a || (b || false)) ≡ (b || a)
or_false true true = refl
or_false true false = refl
or_false false true = refl
or_false false false = refl

or_last : (a : Bool) → (a || false) ≡ a
or_last true = refl
or_last false = refl

-- A session reaches, adds and changes the rows of a tenant exactly if they pass the model's test.
abbrev pub Isolates : TableSecurity → Type 0
Isolates s =
    (c : Context) (tenant_id : ℕ)
    → (reaches for_select s c tenant_id ≡ allows c tenant_id)
      × (reaches for_update s c tenant_id ≡ allows c tenant_id)
      × (reaches for_delete s c tenant_id ≡ allows c tenant_id)
      × (may_write for_insert s c tenant_id ≡ allows c tenant_id)
      × (may_write for_update s c tenant_id ≡ allows c tenant_id)

-- A tenant's own row: only root adds or deletes tenants.
abbrev pub IsolatesTenants : TableSecurity → Type 0
IsolatesTenants s =
    (c : Context) (tenant_id : ℕ)
    → (reaches for_select s c tenant_id ≡ allows c tenant_id)
      × (reaches for_update s c tenant_id ≡ allows c tenant_id)
      × (may_write for_update s c tenant_id ≡ allows c tenant_id)
      × (may_write for_insert s c tenant_id ≡ is_root c.current_role)
      × (reaches for_delete s c tenant_id ≡ is_root c.current_role)

protected-Isolates : Isolates protected
unfolding allows
protected-Isolates c t =
    let e = or_false (eq_opt (some t) c.current_tenant_id) (is_root c.current_role) in
    (e, e, e, e, e)

protected_tenants-IsolatesTenants : IsolatesTenants protected_tenants
unfolding allows
protected_tenants-IsolatesTenants c t =
    let e = or_false (eq_opt (some t) c.current_tenant_id) (is_root c.current_role) in
    let r = or_last (is_root c.current_role) in (e, e, e, r, r)

all_isolate :
    (ns : List String) (after : Security)
    → All (λ n. after n ≡ protected) ns
    → All (λ n. Isolates (after n)) ns
all_isolate ns after h =
    All-mono (λ n is. subst Isolates {x = protected} {y = after n} (sym is) protected-Isolates) ns h

-- On tables without row security the upgrade succeeds; then a session reaches, adds and changes the rows of the
-- tables of the tenants exactly if they pass the test that the model's sessions make, and the row of a tenant
-- likewise, except that only root adds and deletes tenants.
pub upgrade_rls-Isolates :
    (all : Security)
    → All (λ n. all n ≡ unprotected) ("tenants" ∷ tenant_scoped_tables)
    → (after : Security) × (upgrade_rls all ≡ ok after)
      × All (λ n. Isolates (after n)) tenant_scoped_tables
      × IsolatesTenants (after "tenants")
unfolding upgrade_rls
upgrade_rls-Isolates all h =
    let (after, e) =
      enable_each-Enabled tenant_scoped_tables (set_table "tenants" protected_tenants all) refl
        (others "tenants" tenant_scoped_tables protected_tenants all refl h.1) in
    (
      after,
      rw h.0 (rw enable_tenants_rls-unprotected e.returns),
      all_isolate tenant_scoped_tables after e.protects,
      subst IsolatesTenants (sym (e.leaves "tenants" refl)) protected_tenants-IsolatesTenants,
    )
