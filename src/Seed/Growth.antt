-- ===== src/Seed/Growth.antt =====
-- The steps of runtime/scripts/seed.py in general: what they keep and what they find.
use argus_services.Prelude.{
  Bool, true, ◌≡◌, refl, subst, ◌∙◌, List, [], ◌∷◌, ◌++◌, find?, is_some, find?-more, All,
  Bool-cases, inl, inr, arith,
}
use argus_services.Exec.{ok}
use argus_services.Exec.Fallible.{>>=-eq-ok}
use argus_services.World.{Db}
use argus_services.Seed.{Ensured, ensure, ensure_all}

-- What is found in one list of rows is found in the other.
abbrev pub Keeps : {A : Type 0} → List A → List A → Type 0
Keeps {A} xs ys = (p : A → Bool) → is_some (find? p xs) ≡ true → is_some (find? p ys) ≡ true

-- Every row that the seed looks for is still found, and the tenants are the same.
pub record Grows (a b : Db) : Type 0 where
  pub tenants : b.tenants ≡ a.tenants
  pub markets : Keeps a.markets b.markets
  pub cameras : Keeps a.cameras b.cameras
  pub regions : Keeps a.regions b.regions
  pub modes : Keeps a.context_modes b.context_modes
  pub assignments : Keeps a.assignments b.assignments
  pub lenses : Keeps a.lenses b.lenses
  pub rules : Keeps a.rules b.rules
  pub users : Keeps a.users b.users
  pub configs : Keeps a.configs b.configs

pub same : {A : Type 0} (xs : List A) → Keeps xs xs
same xs p h = h

pub more : {A : Type 0} (xs ys : List A) → Keeps xs (xs ++ ys)
more xs ys p h = find?-more p xs ys h

unchanged : (a : Db) → Grows a a
unchanged a = record {
  tenants = refl;
  markets = same a.markets;
  cameras = same a.cameras;
  regions = same a.regions;
  modes = same a.context_modes;
  assignments = same a.assignments;
  lenses = same a.lenses;
  rules = same a.rules;
  users = same a.users;
  configs = same a.configs;
}

Grows-trans : {a b c : Db} → Grows a b → Grows b c → Grows a c
Grows-trans f g = record {
  tenants = g.tenants ∙ f.tenants;
  markets = λ p h. g.markets p (f.markets p h);
  cameras = λ p h. g.cameras p (f.cameras p h);
  regions = λ p h. g.regions p (f.regions p h);
  modes = λ p h. g.modes p (f.modes p h);
  assignments = λ p h. g.assignments p (f.assignments p h);
  lenses = λ p h. g.lenses p (f.lenses p h);
  rules = λ p h. g.rules p (f.rules p h);
  users = λ p h. g.users p (f.users p h);
  configs = λ p h. g.configs p (f.configs p h);
}

-- A step that looks for what it adds, keeps what is there, and goes on finding it.
pub record IsStep (e : Ensured) : Type 0 where
  pub adds : {a b : Db} → e.add a ≡ ok b → Grows a b × (e.is_there b ≡ true)
  pub stays : {a b : Db} → Grows a b → e.is_there a ≡ true → e.is_there b ≡ true

ensure-Grows :
    (e : Ensured) (a b : Db) → IsStep e → ensure e a ≡ ok b → Grows a b × (e.is_there b ≡ true)
unfolding ensure
ensure-Grows e a b step h = elim (Bool-cases (e.is_there a)) [
  | inl there ↦
      let eq : a ≡ b = ground (arith, rw there at h) in
      (subst (Grows a) eq (unchanged a), subst (λ x. e.is_there x ≡ true) eq there)
  | inr missing ↦ step.adds (rw missing at h)
]

pub ensure_all-Grows :
    (es : List Ensured) (a b : Db)
    → All IsStep es
    → ensure_all es a ≡ ok b
    → Grows a b × All (λ e. e.is_there b ≡ true) es
unfolding ensure_all
ensure_all-Grows [] a b all h =
    let eq : a ≡ b = ground (arith, h) in (subst (Grows a) eq (unchanged a), tt)
ensure_all-Grows (e ∷ es) a b all h =
    let (c, first, rest) = >>=-eq-ok (ensure e a) (ensure_all es) h in
    let (ac, there) = ensure-Grows e a c all.0 first in
    let (cb, there_all) = ensure_all-Grows es c b all.1 rest in
    (Grows-trans ac cb, (all.0.stays cb there, there_all))

pub ensure_all-idle :
    (es : List Ensured) (b : Db) → All (λ e. e.is_there b ≡ true) es → ensure_all es b ≡ ok b
unfolding ensure_all ensure
ensure_all-idle [] b all = refl
ensure_all-idle (e ∷ es) b all = rw all.0 (ensure_all-idle es b all.1)
