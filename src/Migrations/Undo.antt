-- ===== src/Migrations/Undo.antt =====
-- What the scripts of runtime/alembic/versions build is taken down again by their `downgrade`.
use argus_services.Prelude.{
  ◌≡◌, refl, sym, ap, subst, ◌∙◌, String, Bool, true, false, ◌&&◌, str_eq, List, [], ◌∷◌,
  Bool-cases, inl, inr, arith, Option, none, some,
}
use argus_services.Exec.{ok}
use argus_services.Exec.Fallible.{◌>>=◌, >>=-eq-ok}
use argus_services.Migrations.{
  Object, Op, create, create_index, drop_type_if_exists, drop_table, Index, Catalog, name_of,
  has_table, with_index, add_index, exec, run, enum_type, table,
}
use argus_services.Migrations.Catalogs.{
  IsWellFormed, create-returns, drop_op, drop-created, drop_op-with_index,
}
use argus_services.Migrations.Revisions.{
  Revision, enums, core_tenancy, surveillance_config, context_rules, operational, upgrade,
  downgrade,
}

-- The objects that a script creates are dropped in reverse order, before what was to be undone already.
unfoldable undo_of : List Op → List Op → List Op
undo_of [] acc = acc
undo_of (create o ∷ ops) acc = undo_of ops (drop_op o ∷ acc)
undo_of (_ ∷ ops) acc = undo_of ops acc

-- A script that creates objects, with indexes on the last table that it created.
unfoldable only_builds : Option String → List Op → Bool
only_builds last [] = true
only_builds last (create o ∷ ops) = only_builds (some (name_of o)) ops
only_builds (some n) (create_index t i ∷ ops) = str_eq n t && only_builds (some n) ops
only_builds _ _ = false

name_of-with_index : (i : Index) (o : Object) → name_of (with_index i o) ≡ name_of o
name_of-with_index i (enum_type n values) = refl
name_of-with_index i (table n columns uniques indexes) = refl

create_index-head :
    (o : Object) (t : String) (i : Index) (c : Catalog) {after : Catalog}
    → str_eq (name_of o) t ≡ true
    → exec (create_index t i) (o ∷ c) ≡ ok after
    → after ≡ with_index i o ∷ c
unfolding exec add_index
create_index-head o t i c {after} own h = elim (Bool-cases (has_table t (o ∷ c))) [
  | inl there ↦
      let made = rw (there, own) at h in
      let same : with_index i o ∷ c ≡ after = ground (arith, made) in sym same
  | inr missing ↦ (let no = rw missing at h in cc)
]

with_index-IsWellFormed :
    (i : Index) (o : Object) (c : Catalog)
    → IsWellFormed (o ∷ c)
    → IsWellFormed (with_index i o ∷ c)
with_index-IsWellFormed i (enum_type n values) c well = well
with_index-IsWellFormed i (table n columns uniques indexes) c well = well

-- The rest of a script, after the object `o` was created on `c`, when `acc` takes `c` back to `c₀`.
run-undone :
    (ops acc : List Op) (o : Object) (c c' c₀ : Catalog)
    → only_builds (some (name_of o)) ops ≡ true
    → IsWellFormed (o ∷ c)
    → run acc c ≡ ok c₀
    → run ops (o ∷ c) ≡ ok c'
    → run (undo_of ops (drop_op o ∷ acc)) c' ≡ ok c₀
unfolding run undo_of only_builds
run-undone [] acc o c c' c₀ builds well unwinds h =
    let same : o ∷ c ≡ c' = ground (arith, h) in
    subst (λ x. (exec (drop_op o) x >>= run acc) ≡ ok c₀) same
      (ap (λ r. r >>= run acc) (drop-created o c well.2 well.1) ∙ unwinds)
run-undone (create p ∷ ops) acc o c c' c₀ builds well unwinds h =
    let (mid, made, rest) = >>=-eq-ok (exec (create p) (o ∷ c)) _ h in
    let (same, free, met) = create-returns p (o ∷ c) made in
    run-undone ops (drop_op o ∷ acc) p (o ∷ c) c' c₀ builds (met, free, well)
      (ap (λ r. r >>= run acc) (drop-created o c well.2 well.1) ∙ unwinds)
      (ap (run ops) (sym same) ∙ rest)
run-undone (create_index t i ∷ ops) acc o c c' c₀ builds well unwinds h =
    let (mid, made, rest) = >>=-eq-ok (exec (create_index t i) (o ∷ c)) _ h in
    let same = create_index-head o t i c (ground (arith, builds)) made in
    subst (λ d. run (undo_of ops (d ∷ acc)) c' ≡ ok c₀) (drop_op-with_index i o)
      (run-undone ops acc (with_index i o) c c' c₀
        (ap (λ n. only_builds (some n) ops) (name_of-with_index i o) ∙ ground (arith, builds))
        (with_index-IsWellFormed i o c well) unwinds (ap (run ops) (sym same) ∙ rest))
run-undone (drop_type_if_exists n ∷ ops) acc o c c' c₀ builds well unwinds h = cc
run-undone (drop_table n ∷ ops) acc o c c' c₀ builds well unwinds h = cc

script-undone :
    (ops : List Op) (c c' : Catalog)
    → only_builds none ops ≡ true
    → IsWellFormed c
    → run ops c ≡ ok c'
    → run (undo_of ops []) c' ≡ ok c
unfolding run undo_of only_builds
script-undone [] c c' builds well h = sym h
script-undone (create o ∷ ops) c c' builds well h =
    let (mid, made, rest) = >>=-eq-ok (exec (create o) c) _ h in
    let (same, free, met) = create-returns o c made in
    run-undone ops [] o c c' c builds (met, free, well) refl (ap (run ops) (sym same) ∙ rest)
script-undone (create_index t i ∷ ops) c c' builds well h = cc
script-undone (drop_type_if_exists n ∷ ops) c c' builds well h = cc
script-undone (drop_table n ∷ ops) c c' builds well h = cc

upgrade-only_builds : (r : Revision) → only_builds none (upgrade r) ≡ true
unfolding only_builds upgrade
upgrade-only_builds enums = refl
upgrade-only_builds core_tenancy = refl
upgrade-only_builds surveillance_config = refl
upgrade-only_builds context_rules = refl
upgrade-only_builds operational = refl

downgrade-undo_of : (r : Revision) → downgrade r ≡ undo_of (upgrade r) []
unfolding undo_of upgrade downgrade
downgrade-undo_of enums = refl
downgrade-undo_of core_tenancy = refl
downgrade-undo_of surveillance_config = refl
downgrade-undo_of context_rules = refl
downgrade-undo_of operational = refl

-- On any catalog in which every object has what it needs and a name of its own: when the upgrade of one of the
-- first five revisions succeeds, its downgrade succeeds too and gives back the catalog before it.
pub downgrade-upgrade :
    (r : Revision) (before after : Catalog)
    → IsWellFormed before
    → run (upgrade r) before ≡ ok after
    → run (downgrade r) after ≡ ok before
downgrade-upgrade r before after well h =
    ap (λ ops. run ops after) (downgrade-undo_of r)
    ∙ script-undone (upgrade r) before after (upgrade-only_builds r) well h
