-- ===== src/Prelude/Lists.antt =====
-- Lists measured by native numbers, Boolean quantifiers over a list, and predicates by recursion.
use Prim.Native.Nat.{ℕ, zero, suc, ◌+◌, ◌≤◌, min}
use mathlib.Core.Path.{◌≡◌, refl, ap}
use mathlib.Core.Logic.{◌↔◌, ◌⊎◌}
use mathlib.Core.Bool.{Bool, true, false, ◌&&◌, ◌||◌}
use mathlib.Core.List.{List, [], ◌∷◌, ◌++◌}
use native.Mathlib.Omega.{arith}

module _ {ℓ} {A : Type ℓ} where
  abbrev pub length : List A → ℕ
  length [] = 0
  length (x ∷ xs) = suc (length xs)

  abbrev pub take : ℕ → List A → List A
  take zero xs = []
  take (suc n) [] = []
  take (suc n) (x ∷ xs) = x ∷ take n xs

  abbrev pub drop : ℕ → List A → List A
  drop zero xs = xs
  drop (suc n) [] = []
  drop (suc n) (x ∷ xs) = drop n xs

  abbrev pub replicate : ℕ → A → List A
  replicate zero x = []
  replicate (suc n) x = x ∷ replicate n x

  pub length-replicate : (n : ℕ) (x : A) → length (replicate n x) ≡ n
  length-replicate zero x = refl
  length-replicate (suc n) x = omega (arith, length-replicate n x)

  pub take-append : (xs ys : List A) → take (length xs) (xs ++ ys) ≡ xs
  take-append [] ys = refl
  take-append (x ∷ xs) ys = ap (◌∷◌ x) (take-append xs ys)

  pub drop-append : (xs ys : List A) → drop (length xs) (xs ++ ys) ≡ ys
  drop-append [] ys = refl
  drop-append (x ∷ xs) ys = drop-append xs ys

  pub length-take : (n : ℕ) (xs : List A) → length (take n xs) ≡ min n (length xs)
  length-take zero xs = omega arith
  length-take (suc n) [] = omega arith
  length-take (suc n) (x ∷ xs) = omega (arith, length-take n xs)

  pub length-append : (xs ys : List A) → length (xs ++ ys) ≡ length xs + length ys
  length-append [] ys = omega arith
  length-append (x ∷ xs) ys = omega (arith, length-append xs ys)

  -- `slices.ContainsFunc`, and a loop that breaks at the first hit.
  abbrev pub any : (A → Bool) → List A → Bool
  any p [] = false
  any p (x ∷ xs) = p x || any p xs

  -- A loop that breaks at the first miss.
  abbrev pub all : (A → Bool) → List A → Bool
  all p [] = true
  all p (x ∷ xs) = p x && all p xs

  abbrev pub is_empty : List A → Bool
  is_empty [] = true
  is_empty (x ∷ xs) = false

  abbrev pub keep : (A → Bool) → List A → List A
  keep p [] = []
  keep p (x ∷ xs) = let rest = keep p xs in elim (p x) [ true ↦ x ∷ rest | false ↦ rest ]

  abbrev pub All {κ} : (A → Type κ) → List A → Type κ
  All P [] = Unit
  All P (x ∷ xs) = P x × All P xs

  -- A position of the list at which `P` holds.
  abbrev pub Has : (A → Type 0) → List A → Type 0
  Has P [] = ⊥
  Has P (x ∷ xs) = P x ⊎ Has P xs

module _ {ℓ} {A : Type ℓ} (p : A → Bool) where
  pub any_iff : (xs : List A) → (any p xs ≡ true) ↔ Has (λ x. p x ≡ true) xs
  any_iff [] = ((λ h. cc), (λ h. absurd h))
  any_iff (x ∷ xs) = ((λ h. ground (arith, (any_iff xs).0)), (λ h. ground (arith, (any_iff xs).1)))

  pub all_iff : (xs : List A) → (all p xs ≡ true) ↔ All (λ x. p x ≡ true) xs
  all_iff [] = ((λ h. tt), (λ h. refl))
  all_iff (x ∷ xs) = ((λ h. ground (arith, (all_iff xs).0)), (λ h. ground (arith, (all_iff xs).1)))

  pub length-keep-le : (xs : List A) → length (keep p xs) ≤ length xs
  length-keep-le [] = omega arith
  length-keep-le (x ∷ xs) = ground (arith, length-keep-le xs)

  -- What `keep` returns passes the test.
  pub keep-All : (xs : List A) → All (λ x. p x ≡ true) (keep p xs)
  keep-All [] = tt
  keep-All (x ∷ xs) =
      elim (p x)
          as (λ b.
            p x ≡ b → All (λ x. p x ≡ true) (elim b [ true ↦ x ∷ keep p xs | false ↦ keep p xs ])) [
              | true ↦ λ h. (h, keep-All xs)
              | false ↦ λ h. keep-All xs
            ]
        refl

module _ {ℓ} {A : Type ℓ} (p : A → Bool) (P : A → Type 0)
    (reads : (x : A) → (p x ≡ true) ↔ P x) where
  pub any_reads : (xs : List A) → (any p xs ≡ true) ↔ Has P xs
  any_reads [] = ((λ h. cc), (λ h. absurd h))
  any_reads (x ∷ xs) = (
    (λ h. ground (arith, reads x, (any_reads xs).0)),
    (λ h. ground (arith, reads x, (any_reads xs).1)),
  )

  pub all_reads : (xs : List A) → (all p xs ≡ true) ↔ All P xs
  all_reads [] = ((λ h. tt), (λ h. refl))
  all_reads (x ∷ xs) = (
    (λ h. ground (arith, reads x, (all_reads xs).0)),
    (λ h. ground (arith, reads x, (all_reads xs).1)),
  )
