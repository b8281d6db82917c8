-- ===== src/Subscription/Built.antt =====
-- The two kinds of a cycle of buildMessage of internal/opcua/subscription.go, and the cycles that panic.
use opcda_access_adapter.Prelude.{
  ℕ, ◌≤◌, ◌<◌, ◌≡◌, refl, sym, ap, ◌∙◌, ◌⊎◌, ◌↔◌, true, false, not, ◌||◌, inl, inr, Option, none,
  some, ltb, leb, ◌==◌, length, if◌then◌else◌, arith, Bool-cases,
}
use opcda_access_adapter.Subscription.Limits.{SubscriptionLimits}
use opcda_access_adapter.Subscription.State.{NotificationMessage, UaSubscription}
use opcda_access_adapter.Subscription.Queue.{
  IntSize, int32, int64, negative_from, most_notifications, idle_cycle, data_cycle, checked_cycle,
  build_message,
}

module _ {X : Type 0} where
  -- A subscription with nothing to send, or that is not to send.
  abbrev pub IsQuiet : UaSubscription X → Type 0
  IsQuiet s = (not s.publishing_enabled || (length s.pending == 0)) ≡ true

  pub build_message-quiet :
      (size : IntSize) (l : SubscriptionLimits) (s : UaSubscription X) (now : ℕ)
      → IsQuiet s
      → build_message size l s now ≡ some (idle_cycle s now)
  unfolding build_message
  build_message-quiet size l s now quiet =
      ap
        (λ b.
          if b
          then some (idle_cycle s now)
          else checked_cycle l s now (most_notifications size l s))
        quiet

  -- A cycle that returns is an idle one, or sends up to some number of notifications.
  pub build_message-cases :
      (size : IntSize) (l : SubscriptionLimits) (s : UaSubscription X) (now : ℕ)
      (b : Option (NotificationMessage X) × UaSubscription X)
      → build_message size l s now ≡ some b
      → (idle_cycle s now ≡ b) ⊎ ((maximum : ℕ) × (data_cycle l s now maximum ≡ b))
  unfolding build_message
  build_message-cases size l s now b h =
      elim (Bool-cases (not s.publishing_enabled || (length s.pending == 0))) [
        | inl e ↦
            let same : some (idle_cycle s now) ≡ some b =
              sym (
                ap
                  (λ t.
                    if t
                    then some (idle_cycle s now)
                    else checked_cycle l s now (most_notifications size l s))
                  e)
              ∙ h in
            inl (ground arith)
        | inr e ↦ inr (
            go (most_notifications size l s) (
              sym (
                ap
                  (λ t.
                    if t
                    then some (idle_cycle s now)
                    else checked_cycle l s now (most_notifications size l s))
                  e)
              ∙ h))
      ]
    where
      go :
          (x : Option ℕ)
          → checked_cycle l s now x ≡ some b
          → (maximum : ℕ) × (data_cycle l s now maximum ≡ b)
      go none e = cc e
      go (some maximum) e = (maximum, ground arith)

  negative-exactly :
      (size : IntSize) (l : SubscriptionLimits) (s : UaSubscription X)
      → (most_notifications size l s ≡ none) ↔ (negative_from size ≤ s.max_notifications)
  unfolding most_notifications
  negative-exactly size l s = go (negative_from size) (some_from size)
    where
      some_from : (size : IntSize) → 0 < negative_from size
      some_from int32 = omega arith
      some_from int64 = omega arith

      go :
          (n : ℕ)
          → 0 < n
          → ((if not (ltb 0 s.max_notifications)
                then some l.max_notifications_per_publish
                else if leb n s.max_notifications
                then none
                else if ltb s.max_notifications l.max_notifications_per_publish
                then some s.max_notifications
                else some l.max_notifications_per_publish)
              ≡ none)
            ↔ (n ≤ s.max_notifications)
      go n h = ground arith

  -- A cycle panics exactly where the subscription has something to send and the client's maximum of
  -- notifications is a negative int: never where an int has 64 bits, since the maximum is a UInt32,
  -- and from 2 ^ 31 on where it has 32.
  build_message_panics :
      (size : IntSize) (l : SubscriptionLimits) (s : UaSubscription X) (now : ℕ)
      → (build_message size l s now ≡ none) ↔ (
          ((not s.publishing_enabled || (length s.pending == 0)) ≡ false)
          × (negative_from size ≤ s.max_notifications))
  unfolding build_message
  build_message_panics size l s now =
      elim (Bool-cases (not s.publishing_enabled || (length s.pending == 0))) [
        | inl e ↦ rw e (λ p. cc (p), λ q. cc (q.0))
        | inr e ↦
            let (negative, panics) = negative-exactly size l s in
            rw e (
              λ p. (refl, negative (stopped (most_notifications size l s) p)),
              λ q. ap (checked_cycle l s now) (panics q.1),
            )
      ]
    where
      stopped : (x : Option ℕ) → checked_cycle l s now x ≡ none → x ≡ none
      stopped none p = refl
      stopped (some maximum) p = cc (p)
