-- ===== src/Subscription/Queued.antt =====
-- The invariant of the retransmission queue of internal/opcua/subscription.go.
use opcda_access_adapter.Prelude.{
  ℕ, ◌+◌, ◌-◌, ◌%◌, ◌^◌, ◌≤◌, ◌<◌, ◌≡◌, refl, sym, ap, subst, ◌∙◌, ◌&&◌, ltb, false, inl, inr,
  Option, none, some, [], ◌∷◌, ◌++◌, All, ◌==◌, length, drop, member, Distinct, arith, Bool-cases,
  length-append, length-drop,
}
use opcda_access_adapter.Prelude.Dict.{
  Dict, keys, lookup, erase, keys-append, keys-drop, member-drop, Distinct-drop, Distinct-snoc,
  keys-erase_absent,
}
use opcda_access_adapter.Subscription.Limits.{SubscriptionLimits}
use opcda_access_adapter.Subscription.State.{NotificationMessage, UaSubscription}
use opcda_access_adapter.Subscription.Queue.{
  IntSize, remove_first, queue_for_retransmission, idle_cycle, data_message, without_notifications,
  build_message, acknowledge_found, acknowledge_message,
}
use opcda_access_adapter.Subscription.Built.{build_message-cases}
use opcda_access_adapter.Subscription.QueueLaws.{queue_for_retransmission_newest}
use opcda_access_adapter.Subscription.Order.{
  All-append, All-drop, All_le-weaken, issued-absent, Distinct-remove_first, All-remove_first,
  length-remove_first_le,
}

module _ {X : Type 0} where
  -- The numbers in the map are those in the order, in that order, all of them different, none above
  -- the last number that was used, and as many as the limit allows at most; and every message is
  -- held under its own number.
  pub record IsQueued (l : SubscriptionLimits) (s : UaSubscription X) : Type 0 where
    pub aligned : keys s.retransmit ≡ s.retransmit_order
    pub distinct : Distinct s.retransmit_order
    pub issued : All (λ n. n ≤ s.sequence_number) s.retransmit_order
    pub bounded : length s.retransmit_order ≤ l.max_retransmission_queue
    pub named : All (λ e. e.1.sequence_number ≡ e.0) s.retransmit

  -- A message joins the queue of a subscription whose number it has.
  queue-IsQueued :
      (l : SubscriptionLimits) (t : UaSubscription X) (m : NotificationMessage X)
      → 0 < l.max_retransmission_queue
      → keys t.retransmit ≡ t.retransmit_order
      → Distinct t.retransmit_order
      → (last : ℕ) → All (λ n. n ≤ last) t.retransmit_order
      → All (λ e. e.1.sequence_number ≡ e.0) t.retransmit
      → t.sequence_number ≡ last + 1
      → m.sequence_number ≡ t.sequence_number
      → IsQueued l (queue_for_retransmission l t m)
  queue-IsQueued l t m h aligned distinct last issued named next numbered =
      let n : ℕ = length t.retransmit_order + 1 - l.max_retransmission_queue in
      let fresh : member m.sequence_number t.retransmit_order ≡ false =
        issued-absent m.sequence_number last t.retransmit_order (omega arith) issued in
      let kept : keys (drop n t.retransmit) ≡ drop n t.retransmit_order =
        keys-drop n t.retransmit ∙ ap (λ ks. drop n ks) aligned in
      subst (λ u. IsQueued l u)
        (sym (queue_for_retransmission_newest l t m h aligned distinct fresh))
        (record {
          aligned =
              keys-append (drop n t.retransmit) ((m.sequence_number, m) ∷ [])
              ∙ ap (λ ks. ks ++ (m.sequence_number ∷ [])) kept;
          distinct =
              Distinct-snoc (drop n t.retransmit_order) m.sequence_number
                (Distinct-drop n t.retransmit_order distinct)
                (member-drop m.sequence_number n t.retransmit_order fresh);
          issued =
              All-append (λ k. k ≤ t.sequence_number) (drop n t.retransmit_order)
                (m.sequence_number ∷ [])
                (All-drop (λ k. k ≤ t.sequence_number) n t.retransmit_order
                  (All_le-weaken last t.sequence_number t.retransmit_order (omega arith) issued))
                (omega arith, tt);
          bounded = omega (
            arith,
            h,
            length-append (drop n t.retransmit_order) (m.sequence_number ∷ []),
            length-drop n t.retransmit_order,
          );
          named =
              All-append (λ e. e.1.sequence_number ≡ e.0) (drop n t.retransmit)
                ((m.sequence_number, m) ∷ [])
                (All-drop (λ e. e.1.sequence_number ≡ e.0) n t.retransmit named) (refl, tt);
        })

  idle_cycle-IsQueued :
      (l : SubscriptionLimits) (s : UaSubscription X) (now : ℕ)
      → IsQueued l s
      → IsQueued l (idle_cycle s now).1
  idle_cycle-IsQueued l s now q =
      elim (Bool-cases
        (s.message_sent && ltb ((s.keep_alive_ticks + 1) % 2 ^ 32) s.keep_alive_count)) [
          | inl e ↦ rw e (record {
            aligned = q.aligned;
            distinct = q.distinct;
            issued = q.issued;
            bounded = q.bounded;
            named = q.named;
          })
          | inr e ↦ rw e (record {
            aligned = q.aligned;
            distinct = q.distinct;
            issued = q.issued;
            bounded = q.bounded;
            named = q.named;
          })
        ]

  -- A cycle keeps the queue as it must be, as long as the numbers do not wrap.
  pub build_message-IsQueued :
      (size : IntSize) (l : SubscriptionLimits) (s : UaSubscription X) (now : ℕ)
      (b : Option (NotificationMessage X) × UaSubscription X)
      → build_message size l s now ≡ some b
      → 0 < l.max_retransmission_queue
      → s.sequence_number + 1 < 2 ^ 32
      → IsQueued l s
      → IsQueued l b.1
  build_message-IsQueued size l s now b built h room q =
      elim (build_message-cases size l s now b built) [
        | inl e ↦ subst (λ x. IsQueued l x.1) e (idle_cycle-IsQueued l s now q)
        | inr (maximum, e) ↦
            subst (λ x. IsQueued l x.1) e
              (queue-IsQueued l (without_notifications maximum s) (data_message maximum s now) h
                q.aligned q.distinct s.sequence_number q.issued q.named (omega arith) refl)
      ]

keys-erase :
    {X : Type 0} (n : ℕ) (d : Dict (NotificationMessage X))
    → Distinct (keys d)
    → keys (erase n d) ≡ remove_first n (keys d)
keys-erase n [] h = refl
keys-erase n ((k, m) ∷ d) h = elim (Bool-cases (n == k)) [
  | inl e ↦
      let same : n ≡ k = ground arith in
      rw e (ap keys (keys-erase_absent n d (ap (λ j. member j (keys d)) same ∙ h.0)))
  | inr e ↦ rw e (ap (λ r. k ∷ r) (keys-erase n d h.1))
]

module _ {X : Type 0} where
  All-erase :
      (P : ℕ × NotificationMessage X → Type 0) (n : ℕ) (d : Dict (NotificationMessage X))
      → All P d
      → All P (erase n d)
  All-erase P n [] h = h
  All-erase P n ((k, m) ∷ d) h = elim (Bool-cases (n == k)) [
    | inl e ↦ rw e (All-erase P n d h.1)
    | inr e ↦ rw e (h.0, All-erase P n d h.1)
  ]

  -- So does an acknowledgement.
  pub acknowledge_message-IsQueued :
      (l : SubscriptionLimits) (s : UaSubscription X) (n : ℕ)
      → IsQueued l s
      → IsQueued l (acknowledge_message n s).1
  unfolding acknowledge_message
  acknowledge_message-IsQueued l s n q = go (lookup n s.retransmit)
    where
      go : (x : Option (NotificationMessage X)) → IsQueued l (acknowledge_found n s x).1
      go none = q
      go (some m) = record {
        aligned =
            keys-erase n s.retransmit (subst Distinct (sym q.aligned) q.distinct)
            ∙ ap (remove_first n) q.aligned;
        distinct = Distinct-remove_first n s.retransmit_order q.distinct;
        issued = All-remove_first (λ k. k ≤ s.sequence_number) n s.retransmit_order q.issued;
        bounded = omega (arith, length-remove_first_le n s.retransmit_order, q.bounded);
        named = All-erase (λ e. e.1.sequence_number ≡ e.0) n s.retransmit q.named;
      }
