-- ===== src/Exec/Triple.antt =====
-- Rules for what an action establishes when it returns: a precondition on the state before, a
-- postcondition on the value and the state after. Nothing is said of a run that raises; the session
-- around it takes its writes back.
use argus_services.Prelude.{◌≡◌, ap, subst, arith}
use argus_services.Exec.{Exec, Result, ok, raised, continue, ◌>>=◌}

abbrev pub Post {ℓ} : {S A : Type ℓ} → (A → S → Type ℓ) → Result A → S → Type ℓ
Post Q (ok a) s = Q a s
Post Q (raised e) s = Unit

pub Post-ok {ℓ} :
    {S A : Type ℓ} (Q : A → S → Type ℓ) (r : Result A) (s : S) {a : A}
    → Post Q r s
    → r ≡ ok a
    → Q a s
Post-ok Q (ok b) s h e = subst (λ x. Q x s) (ground (arith, e)) h
Post-ok Q (raised x) s h e = cc

pub Post-mono {ℓ} :
    {S A : Type ℓ} {P Q : A → S → Type ℓ} (r : Result A) (s : S)
    → ((a : A) (u : S) → P a u → Q a u)
    → Post P r s
    → Post Q r s
Post-mono (ok a) s weaker h = weaker a s h
Post-mono (raised e) s weaker h = tt

pub Post-always {ℓ} :
    {S A : Type ℓ} (Q : S → Type ℓ) (r : Result A) (s : S) → Q s → Post (λ _. Q) r s
Post-always Q (ok a) s h = h
Post-always Q (raised e) s h = tt

pub record Triple {ℓ} {S A : Type ℓ} (P : S → Type ℓ) (m : Exec S A) (Q : A → S → Type ℓ)
    : Type ℓ where
  pub run : (s : S) → P s → Post Q (m s).0 (m s).1

module _ {ℓ} {S A B : Type ℓ} where
  pub continue-Post :
      (Q : A → S → Type ℓ) (R : B → S → Type ℓ) (f : A → Exec S B) (r : Result A) (s : S)
      → ((a : A) → Triple (Q a) (f a) R)
      → Post Q r s
      → Post R (continue r f s).0 (continue r f s).1
  continue-Post Q R f (ok a) s k h = (k a).run s h
  continue-Post Q R f (raised e) s k h = tt

  pub Triple-bind :
      {P : S → Type ℓ} (Q : A → S → Type ℓ) {R : B → S → Type ℓ} (m : Exec S A) (f : A → Exec S B)
      → Triple P m Q
      → ((a : A) → Triple (Q a) (f a) R)
      → Triple P (m >>= f) R
  Triple-bind Q {R} m f h k = record {
    run = λ s p. continue-Post Q R f (m s).0 (m s).1 k (h.run s p);
  }

  -- A step that is known to return is taken.
  pub bind_returns :
      (m : Exec S A) (f : A → Exec S B) {s s' : S} {a : A} → m s ≡ (ok a, s') → (m >>= f) s ≡ f a s'
  bind_returns m f h = ap (λ (r : Result A × S). continue r.0 f r.1) h
