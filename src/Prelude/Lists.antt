-- ===== src/Prelude/Lists.antt =====
-- Lists measured by native numbers, searched and counted by Boolean tests.
use Prim.Native.Nat.{ℕ, suc, ◌+◌}
use mathlib.Core.Path.{◌≡◌, refl, ap, ap₂, subst}
use mathlib.Core.Bool.{Bool, true, false}
use mathlib.Core.Logic.{inl, inr}
use mathlib.Core.List.{List, [], ◌∷◌, ◌++◌, map}
use mathlib.Core.Option.{Option, none, some}
use native.Mathlib.Omega.{arith}
use argus_services.Prelude.Tests.{if◌then◌else◌, Bool-cases, is_some, leb}

module _ {ℓ} {A : Type ℓ} where
  abbrev pub length : List A → ℕ
  length [] = 0
  length (x ∷ xs) = suc (length xs)

  -- The first element that passes the test.
  abbrev pub find? : (A → Bool) → List A → Option A
  find? p [] = none
  find? p (x ∷ xs) = if p x then some x else find? p xs

  -- The elements that pass the test, in order: `SELECT ... WHERE p`.
  abbrev pub select : (A → Bool) → List A → List A
  select p [] = []
  select p (x ∷ xs) = let rest = select p xs in if p x then x ∷ rest else rest

  -- `UPDATE ... SET f WHERE p`.
  abbrev pub update : (A → Bool) → (A → A) → List A → List A
  update p f [] = []
  update p f (x ∷ xs) = (if p x then f x else x) ∷ update p f xs

  abbrev pub count : (A → Bool) → List A → ℕ
  count p [] = 0
  count p (x ∷ xs) = if p x then suc (count p xs) else count p xs

  abbrev pub All {κ} : (A → Type κ) → List A → Type κ
  All P [] = Unit
  All P (x ∷ xs) = P x × All P xs

  pub length-append : (xs ys : List A) → length (xs ++ ys) ≡ length xs + length ys
  length-append [] ys = omega arith
  length-append (x ∷ xs) ys = omega (arith, length-append xs ys)

  pub count-append : (p : A → Bool) (xs ys : List A) → count p (xs ++ ys) ≡ count p xs + count p ys
  count-append p [] ys = omega arith
  count-append p (x ∷ xs) ys = ground (arith, count-append p xs ys)

  pub All-append {κ} : (P : A → Type κ) (xs ys : List A) → All P xs → All P ys → All P (xs ++ ys)
  All-append P [] ys hx hy = hy
  All-append P (x ∷ xs) ys hx hy = (hx.0, All-append P xs ys hx.1 hy)

  -- A row that an UPDATE hits, and one that it leaves.
  pub All-update {κ} :
      (P Q : A → Type κ) (p : A → Bool) (f : A → A) (xs : List A)
      → ((x : A) → P x → p x ≡ true → Q (f x))
      → ((x : A) → P x → p x ≡ false → Q x)
      → All P xs
      → All Q (update p f xs)
  All-update P Q p f [] hit miss h = tt
  All-update P Q p f (x ∷ xs) hit miss h = elim (Bool-cases (p x)) [
    | inl e ↦ rw e (hit x h.0 e, All-update P Q p f xs hit miss h.1)
    | inr e ↦ rw e (miss x h.0 e, All-update P Q p f xs hit miss h.1)
  ]

  pub find?-passes : (p : A → Bool) (xs : List A) {x : A} → find? p xs ≡ some x → p x ≡ true
  find?-passes p [] h = cc
  find?-passes p (y ∷ xs) h = elim (Bool-cases (p y)) [
    | inl e ↦ ground (arith, e)
    | inr e ↦ find?-passes p xs (ground (arith, e))
  ]

  pub All-find? {κ} :
      (P : A → Type κ) (p : A → Bool) (xs : List A) {x : A} → All P xs → find? p xs ≡ some x → P x
  All-find? P p [] h e = cc
  All-find? P p (y ∷ xs) {x} h e = elim (Bool-cases (p y)) [
    | inl t ↦ (let same : y ≡ x = ground (arith, t, e) in subst P same h.0)
    | inr t ↦ All-find? P p xs h.1 (rw t at e)
  ]

  pub All-mono {κ μ} :
      {P : A → Type κ} {Q : A → Type μ}
      → ((x : A) → P x → Q x)
      → (xs : List A) → All P xs
      → All Q xs
  All-mono h [] p = tt
  All-mono h (x ∷ xs) p = (h x p.0, All-mono h xs p.1)

  pub find?-append_last :
      (p : A → Bool) (xs : List A) (x : A) → p x ≡ true → is_some (find? p (xs ++ x ∷ [])) ≡ true
  find?-append_last p [] x h = rw h
  find?-append_last p (y ∷ xs) x h = ground (arith, find?-append_last p xs x h)

  pub find?-more :
      (p : A → Bool) (xs ys : List A)
      → is_some (find? p xs) ≡ true
      → is_some (find? p (xs ++ ys)) ≡ true
  find?-more p [] ys h = cc
  find?-more p (x ∷ xs) ys h = ground (arith, h, find?-more p xs ys)

  -- `ORDER BY key DESC`.
  abbrev pub insert_desc : (A → ℕ) → A → List A → List A
  insert_desc key x [] = x ∷ []
  insert_desc key x (y ∷ ys) =
      let later = y ∷ insert_desc key x ys in if leb (key y) (key x) then x ∷ y ∷ ys else later

  abbrev pub order_desc : (A → ℕ) → List A → List A
  order_desc key [] = []
  order_desc key (x ∷ xs) = insert_desc key x (order_desc key xs)

  abbrev pub insert_asc : (A → ℕ) → A → List A → List A
  insert_asc key x [] = x ∷ []
  insert_asc key x (y ∷ ys) =
      let later = y ∷ insert_asc key x ys in if leb (key x) (key y) then x ∷ y ∷ ys else later

  abbrev pub order_asc : (A → ℕ) → List A → List A
  order_asc key [] = []
  order_asc key (x ∷ xs) = insert_asc key x (order_asc key xs)

  pub select-append :
      (p : A → Bool) (xs ys : List A) → select p (xs ++ ys) ≡ select p xs ++ select p ys
  select-append p [] ys = refl
  select-append p (x ∷ xs) ys = elim (Bool-cases (p x)) [
    | inl yes_it_is ↦ rw yes_it_is (ap (λ r. x ∷ r) (select-append p xs ys))
    | inr no_it_is ↦ rw no_it_is (select-append p xs ys)
  ]

  -- What holds of the elements holds of the selected ones, and the selected ones pass the test.
  pub All-select {κ} :
      (P : A → Type κ) (p : A → Bool) (xs : List A) → All P xs → All P (select p xs)
  All-select P p [] h = tt
  All-select P p (x ∷ xs) h = elim (Bool-cases (p x)) [
    | inl kept ↦ rw kept (h.0, All-select P p xs h.1)
    | inr left ↦ rw left (All-select P p xs h.1)
  ]

  pub select-passes : (p : A → Bool) (xs : List A) → All (λ x. p x ≡ true) (select p xs)
  select-passes p [] = tt
  select-passes p (x ∷ xs) = elim (Bool-cases (p x)) [
    | inl kept ↦ rw kept (kept, select-passes p xs)
    | inr left ↦ rw left (select-passes p xs)
  ]

  pub select-none : (p : A → Bool) (xs : List A) → All (λ x. p x ≡ false) xs → select p xs ≡ []
  select-none p [] h = refl
  select-none p (x ∷ xs) h = rw h.0 (select-none p xs h.1)

-- Two functions that agree on a list agree on what is selected from it.
pub map-select {ℓ κ} :
    {A : Type ℓ} {B : Type κ} (f g : A → B) (p : A → Bool) (xs : List A)
    → All (λ x. f x ≡ g x) xs
    → map f (select p xs) ≡ map g (select p xs)
map-select f g p [] h = refl
map-select f g p (x ∷ xs) h = elim (Bool-cases (p x)) [
  | inl kept ↦ rw kept (ap₂ (λ a b. a ∷ b) h.0 (map-select f g p xs h.1))
  | inr left ↦ rw left (map-select f g p xs h.1)
]

pub map-append {ℓ κ} :
    {A : Type ℓ} {B : Type κ} (f : A → B) (xs ys : List A) → map f (xs ++ ys) ≡ map f xs ++ map f ys
map-append f [] ys = refl
map-append f (x ∷ xs) ys = ap (λ r. f x ∷ r) (map-append f xs ys)

pub length-map {ℓ κ} :
    {A : Type ℓ} {B : Type κ} (f : A → B) (xs : List A) → length (map f xs) ≡ length xs
length-map f [] = refl
length-map f (x ∷ xs) = ap suc (length-map f xs)

-- What holds of the images.
pub All-map {ℓ κ μ} :
    {A : Type ℓ} {B : Type κ} (f : A → B) (P : B → Type μ) (xs : List A)
    → All P (map f xs)
    → All (λ x. P (f x)) xs
All-map f P [] h = tt
All-map f P (x ∷ xs) h = (h.0, All-map f P xs h.1)

-- A test that no element passes.
pub count-never {ℓ} :
    {A : Type ℓ} (p : A → Bool) (xs : List A) → ((x : A) → p x ≡ false) → count p xs ≡ 0
count-never p [] h = refl
count-never p (x ∷ xs) h = rw (h x) (count-never p xs h)

pub count-none {ℓ} :
    {A : Type ℓ} (p : A → Bool) (xs : List A) → All (λ x. p x ≡ false) xs → count p xs ≡ 0
count-none p [] h = refl
count-none p (x ∷ xs) h = rw h.0 (count-none p xs h.1)

-- A test that every element passes.
pub count-always {ℓ} :
    {A : Type ℓ} (p : A → Bool) (xs : List A) → ((x : A) → p x ≡ true) → count p xs ≡ length xs
count-always p [] h = refl
count-always p (x ∷ xs) h = rw (h x) (ap suc (count-always p xs h))
