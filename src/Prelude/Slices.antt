-- ===== src/Prelude/Slices.antt =====
-- The first elements of a list, and the others.
use Prim.Native.Nat.{ℕ, zero, suc, ◌+◌, ◌≤◌}
use mathlib.Core.Path.{◌≡◌, refl, sym, ap, ◌∙◌}
use mathlib.Core.List.{List, [], ◌∷◌, ◌++◌}
use native.Mathlib.Omega.{arith}
use argus_services.Prelude.Lists.{length}

module _ {ℓ} {A : Type ℓ} where
  abbrev pub take : ℕ → List A → List A
  take zero xs = []
  take (suc n) [] = []
  take (suc n) (x ∷ xs) = x ∷ take n xs

  abbrev pub drop : ℕ → List A → List A
  drop zero xs = xs
  drop (suc n) [] = []
  drop (suc n) (x ∷ xs) = drop n xs

  pub length-take : (n : ℕ) (xs : List A) → length (take n xs) ≤ n
  length-take zero xs = omega arith
  length-take (suc n) [] = omega arith
  length-take (suc n) (x ∷ xs) = omega (arith, length-take n xs)

  take-nil : (n : ℕ) → take n [] ≡ []
  take-nil zero = refl
  take-nil (suc n) = refl

  pub take-add : (n k : ℕ) (xs : List A) → take n xs ++ take k (drop n xs) ≡ take (n + k) xs
  take-add zero k xs = ap (λ i. take i xs) (omega arith)
  take-add (suc n) k [] = take-nil k ∙ sym (take-nil (suc n + k))
  take-add (suc n) k (x ∷ xs) =
      ap (λ r. x ∷ r) (take-add n k xs)
      ∙ ap (λ i. take i (x ∷ xs)) (let i : suc (n + k) ≡ suc n + k = omega arith in i)

  pub take-enough : (n : ℕ) (xs : List A) → length xs ≤ n → take n xs ≡ xs
  take-enough zero [] h = refl
  take-enough zero (x ∷ xs) h = absurd (omega arith)
  take-enough (suc n) [] h = refl
  take-enough (suc n) (x ∷ xs) h = ap (λ r. x ∷ r) (take-enough n xs (omega arith))
