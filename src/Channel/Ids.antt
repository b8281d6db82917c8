-- ===== src/Channel/Ids.antt =====
-- The search for a free identifier in internal/opcua/channel.go, allocateChannelID: a loop that
-- counts on until a number is neither 0 nor taken. The fuel is two more than the identifiers that
-- are taken, and `search_total` shows that it is enough.
use opcda_access_adapter.Prelude.{
  ℕ, zero, suc, ◌+◌, ◌%◌, ◌^◌, ◌≤◌, ◌<◌, ◌≡◌, ◌≢◌, sym, ap, ◌∙◌, true, false, ◌||◌, inl, inr,
  Option, none, some, List, ◌∷◌, ◌==◌, length, member, without, length-without_lt, member-without,
  if◌then◌else◌, arith, Bool-cases, Option-cases,
}

unfoldable pub search : ℕ → ℕ → List ℕ → Option ℕ
search zero n ids = none
search (suc fuel) n ids =
    let candidate = (n + 1) % 2 ^ 32 in
    let rest = search fuel candidate ids in
    if (candidate == 0) || member candidate ids then rest else some candidate

-- Numbers that follow each other modulo 2 ^ 32 and are all in a list are at most as many as the
-- list is long.
window_fits :
    (k start : ℕ) (xs : List ℕ)
    → k ≤ 2 ^ 32
    → ((i : ℕ) → i < k → member ((start + i) % 2 ^ 32) xs ≡ true)
    → k ≤ length xs
window_fits zero start xs h all = omega arith
window_fits (suc k) start xs h all =
    let n : ℕ = (start + k) % 2 ^ 32 in
    let shorter : length (without n xs) < length xs =
      length-without_lt n xs (all k (omega arith)) in
    let rest : k ≤ length (without n xs) =
      window_fits k start (without n xs) (omega arith)
        (λ i hi. member-without n ((start + i) % 2 ^ 32) xs (omega arith) (all i (omega arith))) in
    omega arith

-- A search that finds nothing has gone through numbers that are all 0 or taken.
search-none :
    (fuel n : ℕ) (ids : List ℕ)
    → search fuel n ids ≡ none
    → (i : ℕ) → i < fuel
    → member ((n + 1 + i) % 2 ^ 32) (0 ∷ ids) ≡ true
unfolding search
search-none zero n ids h i hi = absurd (omega arith)
search-none (suc fuel) n ids h zero hi =
    let e : (n + 1 + 0) % 2 ^ 32 ≡ (n + 1) % 2 ^ 32 = omega arith in
    ap (λ k. member k (0 ∷ ids)) e ∙ ground arith
search-none (suc fuel) n ids h (suc i) hi =
    let e : (n + 1 + suc i) % 2 ^ 32 ≡ ((n + 1) % 2 ^ 32 + 1 + i) % 2 ^ 32 = omega arith in
    let later : search fuel ((n + 1) % 2 ^ 32) ids ≡ none = ground arith in
    ap (λ k. member k (0 ∷ ids)) e ∙ search-none fuel ((n + 1) % 2 ^ 32) ids later i (omega arith)

-- The search ends: with at most 2 ^ 32 - 2 identifiers taken, it finds a free one within two more
-- steps than there are identifiers.
pub search_total :
    (n : ℕ) (ids : List ℕ)
    → length ids + 2 ≤ 2 ^ 32
    → (m : ℕ) × (search (length ids + 2) n ids ≡ some m)
search_total n ids h = elim (Option-cases (search (length ids + 2) n ids)) [
  | inl e ↦ absurd (
      omega (
        arith,
        window_fits (length ids + 2) (n + 1) (0 ∷ ids) h (search-none (length ids + 2) n ids e),
      ))
  | inr found ↦ found
]

-- What it finds is an identifier that is not 0, fits a UInt32, and is not taken.
pub search_free :
    (fuel n : ℕ) (ids : List ℕ) (m : ℕ)
    → search fuel n ids ≡ some m
    → (m ≢ 0) × (m < 2 ^ 32) × (member m ids ≡ false)
unfolding search
search_free zero n ids m h = cc
search_free (suc fuel) n ids m h =
    elim (Bool-cases (((n + 1) % 2 ^ 32 == 0) || member ((n + 1) % 2 ^ 32) ids)) [
      | inl e ↦ search_free fuel ((n + 1) % 2 ^ 32) ids m (ground arith)
      | inr e ↦
          let found : (n + 1) % 2 ^ 32 ≡ m = ground arith in
          (ground arith, omega arith, ap (λ k. member k ids) (sym found) ∙ ground arith)
    ]
