-- ===== src/Subscription/Cycles.antt =====
-- What one publishing cycle of internal/opcua/subscription.go sends, what Republish finds of it
-- afterwards, and when a keep-alive comes.
use opcda_access_adapter.Prelude.{
  ℕ, zero, suc, ◌+◌, ◌%◌, ◌^◌, ◌≤◌, ◌<◌, ◌≡◌, ◌≢◌, refl, sym, ap, subst, ◌∙◌, true, false, ◌&&◌,
  inl, inr, Option, none, some, List, ltb, ◌==◌, arith, Bool-cases, if◌then◌else◌, lt→ltb,
  le→ltb_false,
}
use opcda_access_adapter.Prelude.Dict.{
  Dict, lookup, lookup-insert_self, lookup-erase_self, lookup-erase_ne,
}
use opcda_access_adapter.Errors.{ok, err, codec, status_bad_message_not_available}
use opcda_access_adapter.Subscription.Limits.{SubscriptionLimits}
use opcda_access_adapter.Subscription.State.{NotificationMessage, UaSubscription}
use opcda_access_adapter.Subscription.Built.{IsQuiet, build_message-quiet, build_message-cases}
use opcda_access_adapter.Subscription.Queue.{
  IntSize, data_cycle, drop_oldest, enqueue, queue_for_retransmission, next_number, ticked,
  idle_cycle, keep_alive_message, data_message, without_notifications, build_message,
  acknowledge_found, acknowledge_message, republish_message, message_or_error,
}

module _ {X : Type 0} where
  enqueue-lookup :
      (m : NotificationMessage X) (s : UaSubscription X)
      (kept : List ℕ × Dict (NotificationMessage X))
      → lookup m.sequence_number (enqueue m s kept).retransmit ≡ some m
  enqueue-lookup m s (order, d) = lookup-insert_self m.sequence_number m d

  idle_cycle-has_data :
      (s t : UaSubscription X) (now : ℕ) (m : NotificationMessage X)
      → idle_cycle s now ≡ (some m, t)
      → m.has_data ≡ false
  idle_cycle-has_data s t now m h =
      elim (Bool-cases (s.message_sent && ltb (ticked s).keep_alive_ticks s.keep_alive_count)) [
        | inl e ↦ cc (rw e at h)
        | inr e ↦
            let sent : some (keep_alive_message s now) ≡ some m = ap (λ x. x.0) (rw e at h) in
            let alike : keep_alive_message s now ≡ m = cc sent in ap (λ x. x.has_data) (sym alike)
      ]

  data_cycle-lookup :
      (l : SubscriptionLimits) (s : UaSubscription X) (now maximum : ℕ)
      → lookup (next_number s) (data_cycle l s now maximum).1.retransmit
        ≡ some (data_message maximum s now)
  unfolding queue_for_retransmission
  data_cycle-lookup l s now maximum =
      enqueue-lookup (data_message maximum s now) (without_notifications maximum s)
        (drop_oldest l.max_retransmission_queue s.retransmit_order s.retransmit)

  -- A message with data that a cycle sends can be republished, unchanged, right after it.
  pub build_message-republish :
      (size : IntSize) (l : SubscriptionLimits) (s t : UaSubscription X) (now : ℕ)
      (m : NotificationMessage X)
      → build_message size l s now ≡ some (some m, t)
      → m.has_data ≡ true
      → republish_message m.sequence_number t ≡ ok m
  unfolding republish_message
  build_message-republish size l s t now m h d =
      elim (build_message-cases size l s now (some m, t) h) [
        | inl e ↦ cc (d, idle_cycle-has_data s t now m e)
        | inr (maximum, e) ↦
            let sent : data_message maximum s now ≡ m = cc (ap (λ x. x.0) e) in
            let found : lookup (next_number s) t.retransmit ≡ some (data_message maximum s now) =
              ap (λ x. lookup (next_number s) x.1.retransmit) (sym e)
              ∙ data_cycle-lookup l s now maximum in
            ap message_or_error
              (subst (λ x. lookup x.sequence_number t.retransmit ≡ some x) sent found)
      ]

  -- After an acknowledgement, whatever it answers, the message that it names cannot be republished,
  -- and any other one can exactly as before.
  pub acknowledge_message-republish :
      (s : UaSubscription X) (n other : ℕ)
      → other ≢ n
      → (republish_message n (acknowledge_message n s).1
          ≡ err (codec status_bad_message_not_available))
        × (republish_message other (acknowledge_message n s).1 ≡ republish_message other s)
  unfolding acknowledge_message republish_message
  acknowledge_message-republish s n other h = go (lookup n s.retransmit) refl
    where
      go :
          (x : Option (NotificationMessage X))
          → lookup n s.retransmit ≡ x
          → (republish_message n (acknowledge_found n s x).1
              ≡ err (codec status_bad_message_not_available))
            × (republish_message other (acknowledge_found n s x).1 ≡ republish_message other s)
      go none e = (ap message_or_error e, refl)
      go (some m) e = (
        ap message_or_error (lookup-erase_self n s.retransmit),
        ap message_or_error (lookup-erase_ne other n s.retransmit h),
      )

  -- The subscription behind a cycle, which a cycle that panics has not changed, and its message.
  abbrev behind :
      UaSubscription X
      → Option (Option (NotificationMessage X) × UaSubscription X)
      → UaSubscription X
  behind s none = s
  behind s (some b) = b.1

  abbrev pub message_of :
      Option (Option (NotificationMessage X) × UaSubscription X)
      → Option (Option (NotificationMessage X))
  message_of none = none
  message_of (some b) = some b.0

  -- The subscription before the cycle with a number, where cycles follow each other at given times
  -- and nothing else happens.
  abbrev pub after :
      IntSize → SubscriptionLimits → (ℕ → ℕ) → ℕ → UaSubscription X → UaSubscription X
  after size l times zero s = s
  after size l times (suc i) s =
      let before = after size l times i s in behind before (build_message size l before (times i))

  quiet_cycle :
      (s : UaSubscription X) (ticks now : ℕ)
      → s.message_sent ≡ true
      → s.keep_alive_count < 2 ^ 32
      → ticks + 1 < s.keep_alive_count
      → idle_cycle (record s { keep_alive_ticks = ticks }) now
        ≡ (none, record s { keep_alive_ticks = ticks + 1 })
  quiet_cycle s ticks now sent fits early =
      let no_wrap : (ticks + 1) % 2 ^ 32 ≡ ticks + 1 = omega arith in
      rw (sent, no_wrap, lt→ltb (ticks + 1) s.keep_alive_count early) refl

  after-quiet :
      (size : IntSize) (l : SubscriptionLimits) (s : UaSubscription X) (times : ℕ → ℕ) (i : ℕ)
      → IsQuiet s
      → s.message_sent ≡ true
      → s.keep_alive_count < 2 ^ 32
      → s.keep_alive_ticks + i < s.keep_alive_count
      → after size l times i s ≡ record s { keep_alive_ticks = s.keep_alive_ticks + i }
  after-quiet size l s times zero quiet sent fits early =
      ap (λ n. record s { keep_alive_ticks = n }) (omega arith)
  after-quiet size l s times (suc i) quiet sent fits early =
      let now : UaSubscription X = record s { keep_alive_ticks = s.keep_alive_ticks + i } in
      let next : s.keep_alive_ticks + i + 1 ≡ s.keep_alive_ticks + suc i = omega arith in
      ap (λ t. behind t (build_message size l t (times i)))
        (after-quiet size l s times i quiet sent fits (omega arith))
      ∙ ap (behind now) (build_message-quiet size l now (times i) quiet)
      ∙ ap (λ x. x.1) (quiet_cycle s (s.keep_alive_ticks + i) (times i) sent fits (omega arith))
      ∙ ap (λ n. record s { keep_alive_ticks = n }) next

  -- A subscription with nothing to send, or that is not to send, that has sent its first message and
  -- whose keep-alive count is a UInt32, which its ticks have not reached, sends a keep-alive in the
  -- cycle in which the count is reached, with the number that the next message will have, and
  -- sends nothing in any cycle before; none of these cycles panics. The count may be reached in the
  -- very first cycle.
  pub keep_alive_due :
      (size : IntSize) (l : SubscriptionLimits) (s : UaSubscription X) (times : ℕ → ℕ) (i last : ℕ)
      → IsQuiet s
      → s.message_sent ≡ true
      → s.keep_alive_count < 2 ^ 32
      → s.keep_alive_ticks + last + 1 ≡ s.keep_alive_count
      → i ≤ last
      → message_of (build_message size l (after size l times i s) (times i))
        ≡ some (if i == last then some (keep_alive_message s (times i)) else none)
  keep_alive_due size l s times i last quiet sent fits due before =
      let now : UaSubscription X = record s { keep_alive_ticks = s.keep_alive_ticks + i } in
      ap (λ t. message_of (build_message size l t (times i)))
        (after-quiet size l s times i quiet sent fits (omega arith))
      ∙ ap message_of (build_message-quiet size l now (times i) quiet)
      ∙ elim (Bool-cases (i == last)) [
        | inl e ↦
            let no_wrap : (s.keep_alive_ticks + i + 1) % 2 ^ 32 ≡ s.keep_alive_ticks + i + 1 =
              omega arith in
            let full : ltb (s.keep_alive_ticks + i + 1) s.keep_alive_count ≡ false =
              le→ltb_false (s.keep_alive_ticks + i + 1) s.keep_alive_count (ground arith) in
            rw (e, sent, no_wrap, full) refl
        | inr e ↦
            let early : s.keep_alive_ticks + i + 1 < s.keep_alive_count = ground arith in
            rw e (
              ap (λ x. some x.0) (quiet_cycle s (s.keep_alive_ticks + i) (times i) sent fits early))
      ]
