-- ===== src/Analysis/Severity.antt =====
-- The severity score does not depend on how the database orders the rules.
use argus_services.Prelude.{
  ℤ, pos, ◌+ℤ◌, int_laws, ◌≡◌, refl, subst, Bool, true, false, List, ◌∷◌, if◌then◌else◌,
}
use mathlib.Core.List.{Permᴰ}
use argus_services.Exec.{ok}
use argus_services.Exec.Fallible.{>>=-eq-ok}
use argus_services.Domain.Json.{Fields}
use argus_services.Domain.Models.{Rule}
use argus_services.Analysis.{
  PyValues, matches_condition, rules_score, compute_severity_score, with_hint,
}

-- Two rules that change places.
rules_score-swap :
    (S : PyValues) (r : Fields) (a : ℤ) (x y : Rule) (rules : List Rule) {n : ℤ}
    → rules_score S r a (x ∷ y ∷ rules) ≡ ok n
    → rules_score S r a (y ∷ x ∷ rules) ≡ ok n
unfolding rules_score
rules_score-swap S r a x y rules {n} h =
    let (hit_x, found_x, h1) = >>=-eq-ok (matches_condition S x.condition r) _ h in
    let (hit_y, found_y, h2) = >>=-eq-ok (matches_condition S y.condition r) _ h1 in
    rw found_y (rw found_x (subst (λ k. rules_score S r k rules ≡ ok n) (exchanged hit_x hit_y) h2))
  where
    exchanged :
        (p q : Bool)
        → (if q
            then (if p then a +ℤ x.severity_weight else a) +ℤ y.severity_weight
            else (if p then a +ℤ x.severity_weight else a))
          ≡ (if p
              then (if q then a +ℤ y.severity_weight else a) +ℤ x.severity_weight
              else (if q then a +ℤ y.severity_weight else a))
    exchanged true true = omega int_laws
    exchanged true false = refl
    exchanged false true = refl
    exchanged false false = refl

rules_score-Perm :
    (S : PyValues) (r : Fields) (n : ℤ) {xs ys : List Rule}
    → Permᴰ xs ys
    → (a : ℤ) → rules_score S r a xs ≡ ok n
    → rules_score S r a ys ≡ ok n
unfolding rules_score
rules_score-Perm S r n Permᴰ.nil a h = h
rules_score-Perm S r n (Permᴰ.cons {a = x} {l₂ = l₂} e p) a h =
    let (hit, found, rest) = >>=-eq-ok (matches_condition S x.condition r) _ h in
    subst (λ z. rules_score S r a (z ∷ l₂) ≡ ok n) e (rw found (rules_score-Perm S r n p _ rest))
rules_score-Perm S r n (Permᴰ.swap {a = x} {b = y} {b' = y'} {l = l} e f) a h =
    subst (λ z. rules_score S r a (z ∷ y' ∷ l) ≡ ok n) f
      (subst (λ z. rules_score S r a (y ∷ z ∷ l) ≡ ok n) e (rules_score-swap S r a x y l h))
rules_score-Perm S r n (Permᴰ.trans p q) a h =
    rules_score-Perm S r n q a (rules_score-Perm S r n p a h)

-- The rules are read without an order. If one order of them gives a score, every other order gives the
-- same.
compute_severity_score-Perm :
    (S : PyValues) (r : Fields) (xs ys : List Rule) (n : ℤ)
    → Permᴰ xs ys
    → compute_severity_score S r xs ≡ ok n
    → compute_severity_score S r ys ≡ ok n
unfolding compute_severity_score
compute_severity_score-Perm S r xs ys n p h =
    let (k, rules, rest) = >>=-eq-ok (rules_score S r (pos 0) xs) (with_hint S r) h in
    rw (rules_score-Perm S r k p (pos 0) rules) rest
