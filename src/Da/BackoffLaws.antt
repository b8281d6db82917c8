-- ===== src/Da/BackoffLaws.antt =====
-- The delay before a reconnection of internal/opcda/reconnect.go: the closed form of its base, and its
-- bounds.
use opcda_access_adapter.Prelude.{
  ℕ, zero, suc, ◌+◌, ◌-◌, ◌*◌, ◌/◌, ◌^◌, ◌≤◌, ◌<◌, ◌≡◌, sym, ap, ◌∙◌, inl, inr, ltb, leb, arith,
  Bool-cases,
}
use opcda_access_adapter.Da.Backoff.{double_base, capped, permille_of, jittered, reconnect_delay}

two_pow_suc : (n : ℕ) → 2 ^ suc n ≡ 2 * 2 ^ n
two_pow_suc n = omega arith

two_pow_pos : (n : ℕ) → 1 ≤ 2 ^ n
two_pow_pos zero = omega arith
two_pow_pos (suc n) = omega (arith, two_pow_pos n, two_pow_suc n)

scaled_suc : (b n : ℕ) → b * 2 ^ suc n ≡ b * 2 * 2 ^ n
scaled_suc b n = ap (λ t. b * t) (two_pow_suc n) ∙ omega arith

le_scaled : (b n : ℕ) → b ≤ b * 2 ^ n
le_scaled b zero = omega arith
le_scaled b (suc n) = omega (arith, scaled_suc b n, le_scaled (b * 2) n)

double_base_closed :
    (n maximum b : ℕ) → capped maximum (double_base n maximum b) ≡ capped maximum (b * 2 ^ n)
unfolding double_base
double_base_closed zero maximum b = ap (capped maximum) (let e : b ≡ b * 2 ^ 0 = omega arith in e)
double_base_closed (suc n) maximum b = elim (Bool-cases (ltb b maximum)) [
  | inr top ↦ rw top (ground (arith, le_scaled b (suc n)))
  | inl low ↦ elim (Bool-cases (ltb (maximum / 2) b)) [
    | inl high ↦
        rw (low, high)
          (double_base_closed n maximum maximum
            ∙ ground (arith, le_scaled maximum n, scaled_suc b n, le_scaled (b * 2) n))
    | inr half ↦
        rw (low, half)
          (double_base_closed n maximum (b * 2) ∙ ap (capped maximum) (sym (scaled_suc b n)))
  ]
]

-- What is written for the base of the delay: the initial delay doubled with each attempt, up to the
-- maximum.
abbrev pub backoff : ℕ → ℕ → ℕ → ℕ
backoff attempt initial maximum = capped maximum (initial * 2 ^ attempt)

mul_bounds : (q p : ℕ) → 800 ≤ p → p ≤ 1200 → (q * 800 ≤ q * p) × (q * p ≤ q * 1200)
mul_bounds zero p a b = (omega arith, omega arith)
mul_bounds (suc q) p a b = let (x, y) = mul_bounds q p a b in (omega (arith, x), omega (arith, y))

mul_low : (q p : ℕ) → p ≤ 1000 → q * p ≤ q * 1000
mul_low zero p a = omega arith
mul_low (suc q) p a = omega (arith, mul_low q p a)

mul_high : (q p : ℕ) → p ≤ 1200 → q * (p - 1000) ≤ q * 200
mul_high zero p a = omega arith
mul_high (suc q) p a = omega (arith, mul_high q p a)

jittered_bounds :
    (initial maximum p base : ℕ)
    → 0 < initial
    → initial ≤ base
    → base ≤ maximum
    → 800 ≤ p
    → p ≤ 1200
    → let r = jittered initial maximum p base in
      (0 < r) × (r ≤ maximum) × (base / 1000 * 800 ≤ r) × (r ≤ base + base / 1000 * 200)
unfolding jittered
jittered_bounds initial maximum p base pos_initial low top a b =
    let q : ℕ = base / 1000 in
    let (x, y) = mul_bounds q p a b in
    elim (Bool-cases (leb p 1000)) [
      | inl small ↦
          let z = mul_low q p (ground arith) in
          rw small
            (ground (arith, x, z), ground (arith, x, z), ground (arith, x, z), ground (arith, x, z))
      | inr large ↦
          let z = mul_high q p b in
          rw large
            (ground (arith, x, z), ground (arith, x, z), ground (arith, x, z), ground (arith, x, z))
    ]

-- For an initial delay above 0 and up to the maximum, the delay before an attempt is above 0 and at
-- most the maximum, and it lies between 80 and 120 percent, counted in whole thousandths, of the
-- initial delay doubled with each attempt before, up to the maximum: no delay is shorter than 80
-- percent of that, however large the attempt is.
pub reconnect_delay_bounds :
    (attempt initial maximum jitter : ℕ)
    → 0 < initial
    → initial ≤ maximum
    → let r = reconnect_delay attempt initial maximum jitter in
      let base = backoff attempt initial maximum in
      (0 < r) × (r ≤ maximum) × (base / 1000 * 800 ≤ r) × (r ≤ base + base / 1000 * 200)
unfolding reconnect_delay
reconnect_delay_bounds attempt initial maximum jitter h k =
    rw (double_base_closed attempt maximum initial) (
      jittered_bounds initial maximum (permille_of jitter) (backoff attempt initial maximum) h
        (ground (arith, le_scaled initial attempt)) (ground arith) (omega arith) (omega arith))
