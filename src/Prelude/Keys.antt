-- ===== src/Prelude/Keys.antt =====
-- Byte strings as keys: the test whether two are one.
use Prim.Native.Nat.{ℕ}
use mathlib.Core.Path.{◌≡◌, refl, ap₂}
use mathlib.Core.Bool.{Bool, true, false, ◌&&◌}
use mathlib.Core.List.{List, [], ◌∷◌}
use native.Mathlib.Omega.{arith}
use opcda_access_adapter.Prelude.Tests.{◌==◌}

-- The comparison of two Go strings.
abbrev pub same : List ℕ → List ℕ → Bool
same [] [] = true
same [] (y ∷ ys) = false
same (x ∷ xs) [] = false
same (x ∷ xs) (y ∷ ys) = (x == y) && same xs ys

pub same_refl : (xs : List ℕ) → same xs xs ≡ true
same_refl [] = refl
same_refl (x ∷ xs) = ground (arith, same_refl xs)

pub same→≡ : (xs ys : List ℕ) → same xs ys ≡ true → xs ≡ ys
same→≡ [] [] h = refl
same→≡ [] (y ∷ ys) h = cc
same→≡ (x ∷ xs) [] h = cc
same→≡ (x ∷ xs) (y ∷ ys) h =
    let heads : x ≡ y = ground arith in
    let tails : same xs ys ≡ true = ground arith in ap₂ (λ a b. a ∷ b) heads (same→≡ xs ys tails)

pub same_comm : (xs ys : List ℕ) → same xs ys ≡ same ys xs
same_comm [] [] = refl
same_comm [] (y ∷ ys) = refl
same_comm (x ∷ xs) [] = refl
same_comm (x ∷ xs) (y ∷ ys) = ground (arith, same_comm xs ys)
