-- ===== src/Prelude/Members.antt =====
-- Lists of natural numbers as finite sets: membership as a Boolean test, removal, and lists that hold
-- no number twice.
use Prim.Native.Nat.{ℕ, ◌≤◌, ◌<◌}
use mathlib.Core.Path.{◌≡◌, refl, sym, ap, ◌∙◌}
use mathlib.Core.Logic.{◌≢◌, inl, inr}
use mathlib.Core.Bool.{Bool, true, false, ◌||◌}
use mathlib.Core.List.{List, [], ◌∷◌, ◌++◌}
use native.Mathlib.Omega.{arith}
use opcda_access_adapter.Prelude.Tests.{◌==◌, if◌then◌else◌, Bool-cases}
use opcda_access_adapter.Prelude.Lists.{length}

abbrev pub member : ℕ → List ℕ → Bool
member n [] = false
member n (x ∷ xs) = (n == x) || member n xs

-- The list without a number.
abbrev pub without : ℕ → List ℕ → List ℕ
without n [] = []
without n (x ∷ xs) = if n == x then without n xs else x ∷ without n xs

length-without_le : (n : ℕ) (xs : List ℕ) → length (without n xs) ≤ length xs
length-without_le n [] = omega arith
length-without_le n (x ∷ xs) = ground (arith, length-without_le n xs)

pub length-without_lt :
    (n : ℕ) (xs : List ℕ) → member n xs ≡ true → length (without n xs) < length xs
length-without_lt n [] h = cc
length-without_lt n (x ∷ xs) h = elim (Bool-cases (n == x)) [
  | inl e ↦ rw e (omega (arith, length-without_le n xs))
  | inr e ↦
      rw e (
        let there : member n xs ≡ true = ground arith in
        omega (arith, length-without_lt n xs there))
]

pub member-without :
    (n m : ℕ) (xs : List ℕ) → m ≢ n → member m xs ≡ true → member m (without n xs) ≡ true
member-without n m [] d h = h
member-without n m (x ∷ xs) d h = elim (Bool-cases (n == x)) [
  | inl e ↦ let there : member m xs ≡ true = ground arith in rw e (member-without n m xs d there)
  | inr e ↦ rw e (elim (Bool-cases (m == x)) [
    | inl f ↦ rw f refl
    | inr f ↦
        let there : member m xs ≡ true = ground arith in rw (f, member-without n m xs d there) refl
  ])
]

abbrev pub Distinct : List ℕ → Type 0
Distinct [] = Unit
Distinct (x ∷ xs) = (member x xs ≡ false) × Distinct xs

pub member-append : (n : ℕ) (xs ys : List ℕ) → member n (xs ++ ys) ≡ (member n xs || member n ys)
member-append n [] ys = refl
member-append n (x ∷ xs) ys = elim (Bool-cases (n == x)) [
  | inl e ↦ rw e refl
  | inr e ↦ rw e (member-append n xs ys)
]

-- Different numbers that are all in a list are at most as many as the list is long.
pub Distinct-fits :
    (xs ys : List ℕ)
    → Distinct xs
    → ((n : ℕ) → member n xs ≡ true → member n ys ≡ true)
    → length xs ≤ length ys
Distinct-fits [] ys d h = omega arith
Distinct-fits (x ∷ xs) ys d h =
    let shorter : length (without x ys) < length ys = length-without_lt x ys (h x (ground arith)) in
    let rest : length xs ≤ length (without x ys) =
      Distinct-fits xs (without x ys) d.1
        (λ n m. member-without x n ys (differs n m) (h n (ground arith))) in
    omega arith
  where
    differs : (n : ℕ) → member n xs ≡ true → n ≢ x
    differs n m e =
        let there : member x xs ≡ true = ap (λ k. member k xs) (sym e) ∙ m in cc (there, d.0)
