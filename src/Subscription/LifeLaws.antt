-- ===== src/Subscription/LifeLaws.antt =====
-- What holds over the life of a subscription of internal/opcua/subscription.go: nothing that was
-- collected is lost, the messages are numbered without a gap, and the retransmission queue stays as
-- it must be.
use opcda_access_adapter.Prelude.{
  ℕ, ◌+◌, ◌^◌, ◌≤◌, ◌<◌, ◌≡◌, sym, ap, subst, ◌∙◌, Option, List, ◌++◌, length, arith, length-append,
}
use opcda_access_adapter.Subscription.Limits.{SubscriptionLimits}
use opcda_access_adapter.Subscription.State.{
  DataValue, MonitoredItemNotification, NotificationMessage, UaSubscription,
}
use opcda_access_adapter.Subscription.Queue.{IntSize, acknowledge_message}
use opcda_access_adapter.Subscription.Items.{collect}
use opcda_access_adapter.Subscription.Arrivals.{arrivals}
use opcda_access_adapter.Subscription.Grown.{grow}
use opcda_access_adapter.Subscription.Growth.{collect-IsGrown}
use opcda_access_adapter.Subscription.Queued.{
  IsQueued, build_message-IsQueued, acknowledge_message-IsQueued,
}
use opcda_access_adapter.Subscription.Life.{
  sent_by, data_numbers, data_numbers-append, first_numbers, Life, begun, cycled, collected,
  acknowledged, switched,
}
use opcda_access_adapter.Subscription.Sent.{acknowledge_message-same, build_message-numbers}

module _ {X : Type 0} where
  module _ {S : Type 0} (item_of : S → List ℕ) (data_value : S → ℕ → ℕ → DataValue X)
      (generation_of : List ℕ → ℕ) (size : IntSize) (l : SubscriptionLimits)
      (start : UaSubscription X) where
    collect-sequence_number :
        (s : UaSubscription X) (now : ℕ) (found : Option (Option (List S)))
        → (collect item_of data_value generation_of now found s).sequence_number ≡ s.sequence_number
    collect-sequence_number s now found =
        ap (λ x. x.sequence_number)
          (collect-IsGrown item_of data_value generation_of now found s).grown

    numbered :
        (sent : List (NotificationMessage X)) (arrived : List (MonitoredItemNotification X))
        (s : UaSubscription X)
        → start.sequence_number ≡ 0
        → length sent + 1 < 2 ^ 32
        → Life item_of data_value generation_of size l start sent arrived s
        → (data_numbers sent ≡ first_numbers s.sequence_number) × (s.sequence_number ≤ length sent)
    numbered _ _ _ zeroed room begun = (ap first_numbers (sym zeroed), omega arith)
    numbered _ _ _ zeroed room (cycled sent arrived s now b before built) =
        let more : List (NotificationMessage X) = sent_by b.0 in
        let longer : length (sent ++ more) ≡ length sent + length more = length-append sent more in
        let (same, fits) = numbered sent arrived s zeroed (omega arith) before in
        let (next, grows) = build_message-numbers size l s now b built (omega arith) in
        (
          data_numbers-append sent more ∙ ap (λ ns. ns ++ data_numbers more) same ∙ next,
          omega arith,
        )
    numbered _ _ _ zeroed room (collected sent arrived s now found before) =
        let (same, fits) = numbered sent arrived s zeroed room before in
        let kept : (collect item_of data_value generation_of now found s).sequence_number
            ≡ s.sequence_number =
          collect-sequence_number s now found in
        (same ∙ ap first_numbers (sym kept), omega arith)
    numbered _ _ _ zeroed room (acknowledged sent arrived s number before) =
        let (same, fits) = numbered sent arrived s zeroed room before in
        let kept : (acknowledge_message number s).1.sequence_number ≡ s.sequence_number =
          (acknowledge_message-same s number).1 in
        (same ∙ ap first_numbers (sym kept), omega arith)
    numbered _ _ _ zeroed room (switched sent arrived s enabled before) =
        numbered sent arrived s zeroed room before

    -- The messages with data that a subscription sends, from the number 0 on and fewer than the
    -- numbers of a UInt32, are numbered 1, 2 and so on without a gap, keep-alives between them or
    -- not, and the subscription's number is the last of them.
    pub Life-numbers :
        (sent : List (NotificationMessage X)) (arrived : List (MonitoredItemNotification X))
        (s : UaSubscription X)
        → start.sequence_number ≡ 0
        → length sent + 1 < 2 ^ 32
        → Life item_of data_value generation_of size l start sent arrived s
        → data_numbers sent ≡ first_numbers s.sequence_number
    Life-numbers sent arrived s zeroed room life = (numbered sent arrived s zeroed room life).0

    -- Whatever happens in the life of a subscription with an empty queue and the number 0, that
    -- sends fewer messages than there are numbers of a UInt32, its retransmission queue keeps to the
    -- limit, its map and its order hold the same numbers, all different and none above the last
    -- one, and each message is held under its own number.
    pub Life-IsQueued :
        (sent : List (NotificationMessage X)) (arrived : List (MonitoredItemNotification X))
        (s : UaSubscription X)
        → 0 < l.max_retransmission_queue
        → start.sequence_number ≡ 0
        → IsQueued l start
        → length sent + 1 < 2 ^ 32
        → Life item_of data_value generation_of size l start sent arrived s
        → IsQueued l s
    Life-IsQueued _ _ _ h zeroed q room begun = q
    Life-IsQueued _ _ _ h zeroed q room (cycled sent arrived s now b before built) =
        let more : List (NotificationMessage X) = sent_by b.0 in
        let longer : length (sent ++ more) ≡ length sent + length more = length-append sent more in
        let (same, fits) = numbered sent arrived s zeroed (omega arith) before in
        build_message-IsQueued size l s now b built h (omega arith)
          (Life-IsQueued sent arrived s h zeroed q (omega arith) before)
    Life-IsQueued _ _ _ h zeroed q room (collected sent arrived s now found before) =
        subst (λ t. IsQueued l t)
          (sym (collect-IsGrown item_of data_value generation_of now found s).grown)
          (carried (Life-IsQueued sent arrived s h zeroed q room before))
      where
        carried :
            IsQueued l s
            → IsQueued l (
                grow
                  (collect-IsGrown item_of data_value generation_of now found s).items
                  (collect-IsGrown item_of data_value generation_of now found s).order
                  (arrivals item_of data_value generation_of now found s)
                  s)
        carried p = record {
          aligned = p.aligned;
          distinct = p.distinct;
          issued = p.issued;
          bounded = p.bounded;
          named = p.named;
        }
    Life-IsQueued _ _ _ h zeroed q room (acknowledged sent arrived s number before) =
        acknowledge_message-IsQueued l s number
          (Life-IsQueued sent arrived s h zeroed q room before)
    Life-IsQueued _ _ _ h zeroed q room (switched sent arrived s enabled before) =
        let p : IsQueued l s = Life-IsQueued sent arrived s h zeroed q room before in
        record {
          aligned = p.aligned;
          distinct = p.distinct;
          issued = p.issued;
          bounded = p.bounded;
          named = p.named;
        }
