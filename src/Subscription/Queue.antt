-- ===== src/Subscription/Queue.antt =====
-- internal/opcua/subscription.go: buildMessage, queueForRetransmission, and what Publish and
-- Republish do with the retransmission queue of one subscription.
use opcda_access_adapter.Prelude.{
  ℕ, ◌+◌, ◌%◌, ◌^◌, true, false, not, ◌&&◌, ◌||◌, Option, none, some, List, [], ◌∷◌, ◌++◌, ltb, leb,
  ◌==◌, length, take, drop, if◌then◌else◌,
}
use opcda_access_adapter.Prelude.Dict.{Dict, lookup, insert, erase}
use opcda_access_adapter.Errors.{
  Result, ok, err, codec, status_bad_sequence_number_unknown, status_bad_message_not_available,
}
use opcda_access_adapter.Subscription.Limits.{SubscriptionLimits}
use opcda_access_adapter.Subscription.State.{NotificationMessage, UaSubscription}

-- The size of an int in the build: 32 bits for 386, 64 for amd64.
pub data IntSize : Type 0 where
  int32 int64 : IntSize

-- The number from which on the int of an unsigned integer is negative.
abbrev pub negative_from : IntSize → ℕ
negative_from int32 = 2 ^ 31
negative_from int64 = 2 ^ 63

-- The list without the first element that is a number.
abbrev pub remove_first : ℕ → List ℕ → List ℕ
remove_first n [] = []
remove_first n (x ∷ xs) = if n == x then xs else x ∷ remove_first n xs

module _ {X : Type 0} where
  -- The loop that drops the oldest messages; the limit is not 0.
  unfoldable pub drop_oldest :
      ℕ → List ℕ → Dict (NotificationMessage X) → List ℕ × Dict (NotificationMessage X)
  drop_oldest limit [] d = ([], d)
  drop_oldest limit (oldest ∷ order) d =
      let dropped = drop_oldest limit order (erase oldest d) in
      if leb limit (length (oldest ∷ order)) then dropped else (oldest ∷ order, d)

  abbrev pub enqueue :
      NotificationMessage X
      → UaSubscription X
      → List ℕ × Dict (NotificationMessage X)
      → UaSubscription X
  enqueue m s (order, d) = record s {
    retransmit = insert m.sequence_number m d;
    retransmit_order = order ++ (m.sequence_number ∷ []);
  }

  unfoldable pub queue_for_retransmission :
      SubscriptionLimits → UaSubscription X → NotificationMessage X → UaSubscription X
  unfolding drop_oldest
  queue_for_retransmission l s m =
      enqueue m s (drop_oldest l.max_retransmission_queue s.retransmit_order s.retransmit)

  -- How many notifications one message may carry. `none` is a negative number, which
  -- int(subscription.maxNotifications) is from a number on that the build decides.
  unfoldable pub most_notifications : IntSize → SubscriptionLimits → UaSubscription X → Option ℕ
  most_notifications size l s =
      if not (ltb 0 s.max_notifications)
      then some l.max_notifications_per_publish
      else if leb (negative_from size) s.max_notifications
      then none
      else if ltb s.max_notifications l.max_notifications_per_publish
      then some s.max_notifications
      else some l.max_notifications_per_publish

  abbrev pub next_number : UaSubscription X → ℕ
  next_number s = (s.sequence_number + 1) % 2 ^ 32

  abbrev pub keep_alive_message : UaSubscription X → ℕ → NotificationMessage X
  keep_alive_message s now = record {
    sequence_number = next_number s;
    publish_time = now;
    notifications = [];
    has_data = false;
  }

  -- `keepAliveTicks++`
  abbrev pub ticked : UaSubscription X → UaSubscription X
  ticked s = record s { keep_alive_ticks = (s.keep_alive_ticks + 1) % 2 ^ 32 }

  abbrev pub idle_cycle : UaSubscription X → ℕ → Option (NotificationMessage X) × UaSubscription X
  idle_cycle s now =
      if s.message_sent && ltb (ticked s).keep_alive_ticks s.keep_alive_count
      then (none, ticked s)
      else (some (keep_alive_message s now), record s { keep_alive_ticks = 0; message_sent = true })

  abbrev pub data_message : ℕ → UaSubscription X → ℕ → NotificationMessage X
  data_message maximum s now = record {
    sequence_number = next_number s;
    publish_time = now;
    notifications = take maximum s.pending;
    has_data = true;
  }

  abbrev pub without_notifications : ℕ → UaSubscription X → UaSubscription X
  without_notifications maximum s = record s {
    pending = drop maximum s.pending;
    keep_alive_ticks = 0;
    message_sent = true;
    sequence_number = next_number s;
  }

  abbrev pub data_cycle :
      SubscriptionLimits
      → UaSubscription X
      → ℕ
      → ℕ
      → Option (NotificationMessage X) × UaSubscription X
  data_cycle l s now maximum = (
    some (data_message maximum s now),
    queue_for_retransmission l (without_notifications maximum s) (data_message maximum s now),
  )

  -- `none` is the panic of the slice `pending[:count]` with a negative count.
  abbrev pub checked_cycle :
      SubscriptionLimits
      → UaSubscription X
      → ℕ
      → Option ℕ
      → Option (Option (NotificationMessage X) × UaSubscription X)
  checked_cycle l s now none = none
  checked_cycle l s now (some maximum) = some (data_cycle l s now maximum)

  unfoldable pub build_message :
      IntSize
      → SubscriptionLimits
      → UaSubscription X
      → ℕ
      → Option (Option (NotificationMessage X) × UaSubscription X)
  unfolding queue_for_retransmission most_notifications
  build_message size l s now =
      if not s.publishing_enabled || (length s.pending == 0)
      then some (idle_cycle s now)
      else checked_cycle l s now (most_notifications size l s)

  -- One acknowledgement, for the subscription that it names: its status code, and the subscription.
  abbrev pub acknowledge_found :
      ℕ → UaSubscription X → Option (NotificationMessage X) → ℕ × UaSubscription X
  acknowledge_found n s none = (status_bad_sequence_number_unknown, s)
  acknowledge_found n s (some m) = (
    0,
    record s {
      retransmit = erase n s.retransmit;
      retransmit_order = remove_first n s.retransmit_order;
    },
  )

  unfoldable pub acknowledge_message : ℕ → UaSubscription X → ℕ × UaSubscription X
  acknowledge_message n s = acknowledge_found n s (lookup n s.retransmit)

  abbrev pub message_or_error : Option (NotificationMessage X) → Result (NotificationMessage X)
  message_or_error none = err (codec status_bad_message_not_available)
  message_or_error (some m) = ok m

  -- What Republish answers for the subscription that it names.
  unfoldable pub republish_message : ℕ → UaSubscription X → Result (NotificationMessage X)
  republish_message n s = message_or_error (lookup n s.retransmit)
