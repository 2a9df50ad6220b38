-- ===== src/Migrations/Catalogs.antt =====
-- A catalog in which every object has what it needs, along the operations of runtime/alembic/versions.
use argus_services.Prelude.{
  ◌≡◌, refl, String, true, false, str_eq, eq_iff, List, [], ◌∷◌, Bool-cases, inl, inr, arith,
}
use argus_services.Exec.{ok}
use argus_services.Migrations.{
  Object, Op, create, drop_type_if_exists, drop_table, Index, Catalog, name_of, needs, has, has_all,
  is_in, is_needed, has_table, remove, with_index, exec, enum_type, table,
}

-- The object needs only what the catalog before it has, and has a name of its own.
abbrev pub IsWellFormed : Catalog → Type 0
IsWellFormed [] = Unit
IsWellFormed (o ∷ c) = (has_all (needs o) c ≡ true) × (has (name_of o) c ≡ false) × IsWellFormed c

is_in-has :
    (n : String) (ns : List String) (c : Catalog)
    → has_all ns c ≡ true
    → is_in n ns ≡ true
    → has n c ≡ true
unfolding has_all
is_in-has n [] c h found = cc
is_in-has n (m ∷ ms) c h found = elim (Bool-cases (str_eq m n)) [
  | inl same ↦ ground (arith, h, (eq_iff m n).0 same)
  | inr other ↦ is_in-has n ms c (ground (arith, h)) (ground (arith, found, other))
]

-- Nothing needs a name that no object has.
pub is_needed-absent :
    (n : String) (c : Catalog) → IsWellFormed c → has n c ≡ false → is_needed n c ≡ false
unfolding is_needed has
is_needed-absent n [] well absent = refl
is_needed-absent n (o ∷ c) well absent =
    let (needs_met, _, rest) = well in
    elim (Bool-cases (is_in n (needs o))) [
      | inl needed ↦
          (let there = is_in-has n (needs o) c needs_met needed in ground (arith, there, absent))
      | inr free ↦ rw free (is_needed-absent n c rest (ground (arith, absent)))
    ]

-- A creation that succeeds keeps the catalog well-formed.
pub create-returns :
    (o : Object) (c : Catalog) {after : Catalog}
    → exec (create o) c ≡ ok after
    → (after ≡ o ∷ c) × (has (name_of o) c ≡ false) × (has_all (needs o) c ≡ true)
unfolding exec
create-returns o c h = elim (Bool-cases (has (name_of o) c)) [
  | inl taken ↦ (let no = rw taken at h in cc)
  | inr free ↦ elim (Bool-cases (has_all (needs o) c)) [
    | inl met ↦ (let made = rw (free, met) at h in (ground (arith, made), free, met))
    | inr missing ↦ (let no = rw (free, missing) at h in cc)
  ]
]

abbrev pub drop_op : Object → Op
drop_op (enum_type n _) = drop_type_if_exists n
drop_op (table n _ _ _) = drop_table n

same_name : (n : String) → str_eq n n ≡ true
same_name n = (eq_iff n n).1 refl

-- The last object that was created can be dropped, which gives the catalog before it.
pub drop-created :
    (o : Object) (c : Catalog)
    → IsWellFormed c
    → has (name_of o) c ≡ false
    → exec (drop_op o) (o ∷ c) ≡ ok c
unfolding exec has has_table remove
drop-created (enum_type n values) c well free =
    rw (same_name n) (rw (is_needed-absent n c well free) refl)
drop-created (table n columns uniques indexes) c well free =
    rw (same_name n) (rw (is_needed-absent n c well free) refl)

pub drop_op-with_index : (i : Index) (o : Object) → drop_op (with_index i o) ≡ drop_op o
drop_op-with_index i (enum_type n values) = refl
drop_op-with_index i (table n columns uniques indexes) = refl
