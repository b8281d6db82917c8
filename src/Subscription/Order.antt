-- ===== src/Subscription/Order.antt =====
-- Lists of sequence numbers: what survives the loss of the oldest of them, or of one of them, as the
-- retransmission queue of internal/opcua/subscription.go loses them.
use opcda_access_adapter.Prelude.{
  ℕ, zero, suc, ◌≤◌, ◌<◌, ◌≡◌, refl, false, inl, inr, List, [], ◌∷◌, ◌++◌, All, ◌==◌, length, drop,
  member, Distinct, arith, Bool-cases,
}
use opcda_access_adapter.Subscription.Queue.{remove_first}

module _ {ℓ κ} {A : Type ℓ} where
  pub All-append : (P : A → Type κ) (xs ys : List A) → All P xs → All P ys → All P (xs ++ ys)
  All-append P [] ys h k = k
  All-append P (x ∷ xs) ys h k = (h.0, All-append P xs ys h.1 k)

  pub All-drop : (P : A → Type κ) (n : ℕ) (xs : List A) → All P xs → All P (drop n xs)
  All-drop P zero xs h = h
  All-drop P (suc n) [] h = tt
  All-drop P (suc n) (x ∷ xs) h = All-drop P n xs h.1

pub All_le-weaken : (a b : ℕ) (xs : List ℕ) → a ≤ b → All (λ n. n ≤ a) xs → All (λ n. n ≤ b) xs
All_le-weaken a b [] h all = tt
All_le-weaken a b (x ∷ xs) h all = (omega (arith, all.0), All_le-weaken a b xs h all.1)

pub issued-absent :
    (n top : ℕ) (order : List ℕ) → top < n → All (λ m. m ≤ top) order → member n order ≡ false
issued-absent n top [] h all = refl
issued-absent n top (m ∷ order) h all =
    let other : (n == m) ≡ false = ground (arith, all.0) in
    rw other (issued-absent n top order h all.1)

pub member-remove_first :
    (k n : ℕ) (xs : List ℕ) → member k xs ≡ false → member k (remove_first n xs) ≡ false
member-remove_first k n [] h = h
member-remove_first k n (x ∷ xs) h = ground (arith, member-remove_first k n xs)

pub Distinct-remove_first : (n : ℕ) (xs : List ℕ) → Distinct xs → Distinct (remove_first n xs)
Distinct-remove_first n [] h = h
Distinct-remove_first n (x ∷ xs) h = elim (Bool-cases (n == x)) [
  | inl e ↦ rw e h.1
  | inr e ↦ rw e (member-remove_first x n xs h.0, Distinct-remove_first n xs h.1)
]

pub All-remove_first : (P : ℕ → Type 0) (n : ℕ) (xs : List ℕ) → All P xs → All P (remove_first n xs)
All-remove_first P n [] h = h
All-remove_first P n (x ∷ xs) h = elim (Bool-cases (n == x)) [
  | inl e ↦ rw e h.1
  | inr e ↦ rw e (h.0, All-remove_first P n xs h.1)
]

pub length-remove_first_le : (n : ℕ) (xs : List ℕ) → length (remove_first n xs) ≤ length xs
length-remove_first_le n [] = omega arith
length-remove_first_le n (x ∷ xs) = ground (arith, length-remove_first_le n xs)
