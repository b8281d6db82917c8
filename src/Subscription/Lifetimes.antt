-- ===== src/Subscription/Lifetimes.antt =====
-- How long a subscription of internal/opcua/subscription.go lives without a sign of its client.
use opcda_access_adapter.Prelude.{
  ℕ, ◌+◌, ◌*◌, ◌%◌, ◌^◌, ◌≤◌, ◌<◌, ◌≡◌, refl, ◌↔◌, ◌⊎◌, inl, inr, true, false, leb, ltb, arith,
  Bool-cases,
}
use opcda_access_adapter.Channel.Token.{millisecond}
use opcda_access_adapter.Subscription.Limits.{revise_lifetime_count}
use opcda_access_adapter.Subscription.State.{UaSubscription, lifetime_bits, expired}

lifetime_in_range : (p : ℕ) → p < 2 ^ 63 → p % 2 ^ 64 ≡ p
lifetime_in_range p h = omega arith

module _ {X : Type 0} where
  -- A subscription whose lifetime in nanoseconds fits an int64 has expired exactly when that time has
  -- passed since its client last kept it alive.
  pub expired_exactly :
      (s : UaSubscription X) (now : ℕ)
      → s.lifetime_count * (s.publishing_interval * millisecond) < 2 ^ 63
      → (expired s now ≡ true)
        ↔ (s.last_kept_alive + s.lifetime_count * (s.publishing_interval * millisecond) ≤ now)
  unfolding expired
  expired_exactly s now h =
      let p : ℕ = s.lifetime_count * (s.publishing_interval * millisecond) in
      let same : lifetime_bits s ≡ p = lifetime_in_range p h in
      let positive : leb (2 ^ 63) p ≡ false = ground arith in
      rw (same, positive) (ground arith, ground arith)

  -- A subscription whose lifetime in nanoseconds wraps to a negative int64 has expired from the start:
  -- at the very time at which its client kept it alive, and ever after.
  pub expired_overflow :
      (s : UaSubscription X) (now : ℕ)
      → 2 ^ 63 ≤ lifetime_bits s
      → s.last_kept_alive ≤ now
      → expired s now ≡ true
  unfolding expired
  expired_overflow s now h k = ground arith

-- The revised lifetime count is at least three times the keep-alive count, where that product fits a
-- UInt32, and it is the requested one or that product.
pub revise_lifetime_count_bounds :
    (requested keep_alive : ℕ)
    → keep_alive * 3 < 2 ^ 32
    → (keep_alive * 3 ≤ revise_lifetime_count requested keep_alive)
      × ((revise_lifetime_count requested keep_alive ≡ requested)
          ⊎ (revise_lifetime_count requested keep_alive ≡ keep_alive * 3))
unfolding revise_lifetime_count
revise_lifetime_count_bounds requested keep_alive h =
    let same : (keep_alive * 3) % 2 ^ 32 ≡ keep_alive * 3 = omega arith in
    rw same (elim (Bool-cases (ltb requested (keep_alive * 3))) [
      | inl e ↦ rw e (omega arith, inr refl)
      | inr e ↦ rw e (ground arith, inl refl)
    ])
