-- ===== src/Subscription/Sent.antt =====
-- What one cycle of internal/opcua/subscription.go sends, as the notifications and the numbers of its
-- message.
use opcda_access_adapter.Prelude.{
  ℕ, suc, ◌+◌, ◌^◌, ◌≤◌, ◌<◌, ◌≡◌, refl, sym, ap, subst, ◌∙◌, ◌&&◌, inl, inr, Option, none, some,
  List, [], ◌∷◌, ◌++◌, ltb, length, take, append-nil, arith, Bool-cases, take-append-drop,
}
use opcda_access_adapter.Prelude.Dict.{Dict, lookup}
use opcda_access_adapter.Subscription.Limits.{SubscriptionLimits}
use opcda_access_adapter.Subscription.State.{NotificationMessage, UaSubscription}
use opcda_access_adapter.Subscription.Queue.{
  IntSize, data_cycle, drop_oldest, enqueue, queue_for_retransmission, next_number, ticked,
  idle_cycle, data_message, without_notifications, build_message, acknowledge_found,
  acknowledge_message,
}
use opcda_access_adapter.Subscription.Built.{build_message-cases}
use opcda_access_adapter.Subscription.Life.{sent_by, contents, data_numbers, first_numbers}

module _ {X : Type 0} where
  pub enqueue-same :
      (m : NotificationMessage X) (s : UaSubscription X)
      (kept : List ℕ × Dict (NotificationMessage X))
      → ((enqueue m s kept).pending ≡ s.pending)
        × ((enqueue m s kept).sequence_number ≡ s.sequence_number)
  enqueue-same m s (order, d) = (refl, refl)

  pub acknowledge_message-same :
      (s : UaSubscription X) (n : ℕ)
      → ((acknowledge_message n s).1.pending ≡ s.pending)
        × ((acknowledge_message n s).1.sequence_number ≡ s.sequence_number)
  unfolding acknowledge_message
  acknowledge_message-same s n = go (lookup n s.retransmit)
    where
      go :
          (x : Option (NotificationMessage X))
          → ((acknowledge_found n s x).1.pending ≡ s.pending)
            × ((acknowledge_found n s x).1.sequence_number ≡ s.sequence_number)
      go none = (refl, refl)
      go (some m) = (refl, refl)

  idle_cycle-contents :
      (s : UaSubscription X) (now : ℕ)
      → contents (sent_by (idle_cycle s now).0) ++ (idle_cycle s now).1.pending ≡ s.pending
  idle_cycle-contents s now =
      elim (Bool-cases (s.message_sent && ltb (ticked s).keep_alive_ticks s.keep_alive_count)) [
        | inl e ↦ rw e refl
        | inr e ↦ rw e refl
      ]

  data_cycle-contents :
      (l : SubscriptionLimits) (s : UaSubscription X) (now maximum : ℕ)
      → contents (sent_by (data_cycle l s now maximum).0) ++ (data_cycle l s now maximum).1.pending
        ≡ s.pending
  unfolding queue_for_retransmission
  data_cycle-contents l s now maximum =
      ap (λ c. c ++ (data_cycle l s now maximum).1.pending) (append-nil (take maximum s.pending))
      ∙ ap (λ p. take maximum s.pending ++ p)
          (enqueue-same (data_message maximum s now) (without_notifications maximum s)
            (drop_oldest l.max_retransmission_queue s.retransmit_order s.retransmit)).0
      ∙ take-append-drop maximum s.pending

  -- What a cycle sends is what it takes from the front of what is pending.
  pub build_message-contents :
      (size : IntSize) (l : SubscriptionLimits) (s : UaSubscription X) (now : ℕ)
      (b : Option (NotificationMessage X) × UaSubscription X)
      → build_message size l s now ≡ some b
      → contents (sent_by b.0) ++ b.1.pending ≡ s.pending
  build_message-contents size l s now b built = elim (build_message-cases size l s now b built) [
    | inl e ↦
        subst (λ x. contents (sent_by x.0) ++ x.1.pending ≡ s.pending) e (idle_cycle-contents s now)
    | inr (maximum, e) ↦
        subst (λ x. contents (sent_by x.0) ++ x.1.pending ≡ s.pending) e
          (data_cycle-contents l s now maximum)
  ]

  -- The numbers and the last number behind a cycle.
  abbrev Numbered : UaSubscription X → Option (NotificationMessage X) × UaSubscription X → Type 0
  Numbered s b =
      (first_numbers s.sequence_number ++ data_numbers (sent_by b.0)
        ≡ first_numbers b.1.sequence_number)
      × (b.1.sequence_number ≤ s.sequence_number + length (sent_by b.0))

  idle_cycle-Numbered : (s : UaSubscription X) (now : ℕ) → Numbered s (idle_cycle s now)
  idle_cycle-Numbered s now =
      elim (Bool-cases (s.message_sent && ltb (ticked s).keep_alive_ticks s.keep_alive_count)) [
        | inl e ↦ rw e (append-nil (first_numbers s.sequence_number), omega arith)
        | inr e ↦ rw e (append-nil (first_numbers s.sequence_number), omega arith)
      ]

  data_cycle-Numbered :
      (l : SubscriptionLimits) (s : UaSubscription X) (now maximum : ℕ)
      → s.sequence_number + 1 < 2 ^ 32
      → Numbered s (data_cycle l s now maximum)
  unfolding queue_for_retransmission
  data_cycle-Numbered l s now maximum room =
      let kept : (data_cycle l s now maximum).1.sequence_number ≡ next_number s =
        (enqueue-same (data_message maximum s now) (without_notifications maximum s)
          (drop_oldest l.max_retransmission_queue s.retransmit_order s.retransmit)).1 in
      let next : next_number s ≡ suc s.sequence_number = omega arith in
      (
        ap (λ n. first_numbers s.sequence_number ++ (n ∷ [])) next
            ∙ ap first_numbers (sym (kept ∙ next)),
        omega (arith, kept, next),
      )

  pub build_message-numbers :
      (size : IntSize) (l : SubscriptionLimits) (s : UaSubscription X) (now : ℕ)
      (b : Option (NotificationMessage X) × UaSubscription X)
      → build_message size l s now ≡ some b
      → s.sequence_number + 1 < 2 ^ 32
      → Numbered s b
  build_message-numbers size l s now b built room =
      elim (build_message-cases size l s now b built) [
        | inl e ↦ subst (Numbered s) e (idle_cycle-Numbered s now)
        | inr (maximum, e) ↦ subst (Numbered s) e (data_cycle-Numbered l s now maximum room)
      ]
