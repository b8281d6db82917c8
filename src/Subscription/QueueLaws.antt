-- ===== src/Subscription/QueueLaws.antt =====
-- The retransmission queue of a subscription of internal/opcua/subscription.go: its map and its order
-- are two views of one bounded queue, which holds the newest messages that were not acknowledged.
use opcda_access_adapter.Prelude.{
  ℕ, suc, ◌+◌, ◌-◌, ◌<◌, ◌≡◌, refl, sym, ap, ◌∙◌, true, false, inl, inr, List, [], ◌∷◌, ◌++◌, leb,
  ◌==◌, length, drop, member, Distinct, arith, Bool-cases,
}
use opcda_access_adapter.Prelude.Dict.{
  Dict, keys, erase, insert_new, keys-drop, member-drop, keys-erase_absent,
}
use opcda_access_adapter.Subscription.Limits.{SubscriptionLimits}
use opcda_access_adapter.Subscription.State.{NotificationMessage, UaSubscription}
use opcda_access_adapter.Subscription.Queue.{drop_oldest, enqueue, queue_for_retransmission}

module _ {X : Type 0} where
  -- The loop drops as many messages as are too many for one more, from the front of both.
  drop_oldest_lem :
      (limit : ℕ) (order : List ℕ) (d : Dict (NotificationMessage X))
      → 0 < limit
      → Distinct order
      → keys d ≡ order
      → drop_oldest limit order d
        ≡ (drop (length order + 1 - limit) order, drop (length order + 1 - limit) d)
  unfolding drop_oldest
  drop_oldest_lem limit [] [] h distinct aligned =
      let none_dropped : 0 + 1 - limit ≡ 0 = omega arith in
      ap
        (λ n. (
          drop n (let e : List ℕ = [] in e),
          drop n (let e : Dict (NotificationMessage X) = [] in e),
        ))
        (sym none_dropped)
  drop_oldest_lem limit [] ((k, m) ∷ d) h distinct aligned = cc aligned
  drop_oldest_lem limit (o ∷ order) [] h distinct aligned = cc aligned
  drop_oldest_lem limit (o ∷ order) ((k, m) ∷ d) h distinct aligned =
      let first : k ≡ o = cc aligned in
      let rest : keys d ≡ order = cc aligned in
      let absent : member o (keys d) ≡ false = ap (λ ks. member o ks) rest ∙ distinct.0 in
      let erased : erase o ((k, m) ∷ d) ≡ d = erase_first o k m d first absent in
      elim (Bool-cases (leb limit (length (o ∷ order)))) [
        | inl e ↦
            let one_more : length (o ∷ order) + 1 - limit ≡ suc (length order + 1 - limit) =
              ground arith in
            rw (e, erased, one_more) (drop_oldest_lem limit order d h distinct.1 rest)
        | inr e ↦
            let none_dropped : length (o ∷ order) + 1 - limit ≡ 0 = ground arith in
            rw (e, none_dropped) refl
      ]
    where
      erase_first :
          (o k : ℕ) (m : NotificationMessage X) (d : Dict (NotificationMessage X))
          → k ≡ o
          → member o (keys d) ≡ false
          → erase o ((k, m) ∷ d) ≡ d
      erase_first o k m d e absent =
          let here : (o == k) ≡ true = ground arith in rw here (keys-erase_absent o d absent)

  -- A message with a new number joins the queue at its end, and the oldest ones leave it for as long
  -- as there are too many.
  pub queue_for_retransmission_newest :
      (l : SubscriptionLimits) (s : UaSubscription X) (m : NotificationMessage X)
      → 0 < l.max_retransmission_queue
      → keys s.retransmit ≡ s.retransmit_order
      → Distinct s.retransmit_order
      → member m.sequence_number s.retransmit_order ≡ false
      → let surplus : ℕ = length s.retransmit_order + 1 - l.max_retransmission_queue in
        queue_for_retransmission l s m ≡ record s {
          retransmit = drop surplus s.retransmit ++ ((m.sequence_number, m) ∷ []);
          retransmit_order = drop surplus s.retransmit_order ++ (m.sequence_number ∷ []);
        }
  unfolding queue_for_retransmission
  queue_for_retransmission_newest l s m h aligned distinct fresh =
      let n : ℕ = length s.retransmit_order + 1 - l.max_retransmission_queue in
      let absent : member m.sequence_number (keys (drop n s.retransmit)) ≡ false =
        ap (λ ks. member m.sequence_number ks)
          (keys-drop n s.retransmit ∙ ap (λ ks. drop n ks) aligned)
        ∙ member-drop m.sequence_number n s.retransmit_order fresh in
      ap (enqueue m s) (
        drop_oldest_lem l.max_retransmission_queue s.retransmit_order s.retransmit h distinct
          aligned)
      ∙ ap
          (λ d. record s {
            retransmit = d;
            retransmit_order = drop n s.retransmit_order ++ (m.sequence_number ∷ []);
          })
          (insert_new m.sequence_number m (drop n s.retransmit) absent)
