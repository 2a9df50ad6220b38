-- ===== src/Exec/Fallible.antt =====
-- Code that may raise and touches no state.
use argus_services.Prelude.{◌≡◌, refl, Bool, true, false}
use argus_services.Exec.{Exn, Result, ok, raised}

module _ {ℓ κ} {A : Type ℓ} {B : Type κ} where
  infixl 10 ◌>>=◌
  abbrev pub ◌>>=◌ : Result A → (A → Result B) → Result B
  raised e >>= next = raised e
  ok a >>= next = next a

  -- A chain that returns has a first step that returned.
  pub >>=-eq-ok :
      (first : Result A) (next : A → Result B) {b : B}
      → (first >>= next) ≡ ok b
      → (a : A) × (first ≡ ok a) × (next a ≡ ok b)
  >>=-eq-ok (raised e) next returned = cc
  >>=-eq-ok (ok a) next returned = (a, refl, returned)

infixl 10 ◌>>◌
abbrev pub ◌>>◌ {ℓ} : {B : Type ℓ} → Result (Unit {0}) → Result B → Result B
check >> rest = check >>= λ _. rest

-- `if not test: raise e`
abbrev pub require : Bool → Exn → Result (Unit {0})
require false e = raised e
require true e = ok tt
