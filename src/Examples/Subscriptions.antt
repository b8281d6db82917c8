-- ===== src/Examples/Subscriptions.antt =====
-- internal/opcua/subscription.go: the theorems at concrete subscriptions.
use opcda_access_adapter.Prelude.{
  ℕ, ◌+◌, ◌-◌, ◌*◌, ◌^◌, ◌%◌, ◌≤◌, ◌<◌, ◌≡◌, refl, ◌↔◌, ◌⊎◌, true, false, Option, none, some, List,
  [], ◌∷◌, ◌++◌, All, length, drop, arith,
}
use opcda_access_adapter.Prelude.Dict.{lookup}
use opcda_access_adapter.Prelude.Keys.{same}
use opcda_access_adapter.Errors.{err, codec, status_bad_message_not_available}
use opcda_access_adapter.Channel.Token.{millisecond}
use opcda_access_adapter.Subscription.Limits.{SubscriptionLimits}
use opcda_access_adapter.Subscription.State.{
  DataValue, MonitoredItemNotification, NotificationMessage, MonitoredItem, UaSubscription, expired,
}
use opcda_access_adapter.Subscription.Queue.{
  int32, most_notifications, data_cycle, queue_for_retransmission, keep_alive_message,
  build_message, acknowledge_message, republish_message,
}
use opcda_access_adapter.Subscription.Items.{collect, hold_unreadable, flush_held, flush_each}
use opcda_access_adapter.Subscription.Service.{SubscriptionService}
use opcda_access_adapter.Subscription.Publishing.{next_publishable}
use opcda_access_adapter.Subscription.QueueLaws.{queue_for_retransmission_newest}
use opcda_access_adapter.Subscription.Queued.{IsQueued}
use opcda_access_adapter.Subscription.Cycles.{
  acknowledge_message-republish, after, message_of, keep_alive_due,
}
use opcda_access_adapter.Subscription.Life.{
  sent_by, data_numbers, first_numbers, Life, begun, cycled, collected, acknowledged,
}
use opcda_access_adapter.Subscription.LifeLaws.{Life-numbers, Life-IsQueued}
use opcda_access_adapter.Subscription.Owners.{delete_call, call, call-other}
use opcda_access_adapter.Subscription.Serving.{IsOutranked, next_publishable_highest}
use opcda_access_adapter.Subscription.Lifetimes.{expired_exactly, expired_overflow}
use opcda_access_adapter.Subscription.Deadband.{
  DataChangeFilter, judge_filter, trigger_status, trigger_status_value, deadband_none,
  deadband_percent, hundred_bits, sign_bit, infinity_bits, judge_filter_accepts,
}
use opcda_access_adapter.Subscription.Arrivals.{arrivals}

abbrev limits : SubscriptionLimits
limits = record {
  max_subscriptions = 8;
  max_monitored_items = 100;
  min_publishing_interval = 100_000_000;
  max_publishing_interval = 60_000_000_000;
  min_keep_alive_count = 1;
  max_keep_alive_count = 100;
  max_notifications_per_publish = 500;
  max_retransmission_queue = 2;
  request_timeout = 30_000_000_000;
  max_nodes = 1000;
}

abbrev value_of : ℕ → DataValue ℕ
value_of n = record {
  value = some n;
  status = 0;
  source_timestamp = none;
  source_picoseconds = 0;
  server_timestamp = none;
  server_picoseconds = 0;
}

-- One item of the source, under its identifier there, that reports each value.
abbrev item_name : List ℕ
item_name = 65 ∷ []

abbrev item : MonitoredItem ℕ
item = record {
  id = 1;
  client_handle = 40;
  item_id = item_name;
  mode = 2;
  timestamps = 3;
  not_readable = false;
  sampling_interval = 0;
  held = none;
  last_reported = none;
  semantic_generation = 0;
}

abbrev mine : List ℕ
mine = 1 ∷ []

abbrev other : List ℕ
other = 2 ∷ []

abbrev fresh : UaSubscription ℕ
fresh = record {
  id = 5;
  session_token = mine;
  publishing_enabled = true;
  publishing_interval = 1000;
  keep_alive_count = 10;
  lifetime_count = 30;
  max_notifications = 0;
  priority = 0;
  items = (1, item) ∷ [];
  held_order = [];
  sequence_number = 0;
  pending = [];
  retransmit = [];
  retransmit_order = [];
  keep_alive_ticks = 0;
  message_sent = false;
  last_kept_alive = 0;
}

abbrev name_of : ℕ → List ℕ
name_of n = item_name

abbrev mapped : ℕ → ℕ → ℕ → DataValue ℕ
mapped n timestamps now = value_of n

abbrev no_changes : List ℕ → ℕ
no_changes i = 0

abbrev told : MonitoredItemNotification ℕ
told = record { client_handle = 40; value = value_of 7 }

-- The source drains the value 7.
abbrev drained : UaSubscription ℕ
drained = collect name_of mapped no_changes 100 (some (some (7 ∷ []))) fresh

abbrev arrived : List (MonitoredItemNotification ℕ)
arrived = [] ++ arrivals name_of mapped no_changes 100 (some (some (7 ∷ []))) fresh

arrived-told : arrived ≡ told ∷ []
unfolding hold_unreadable
arrived-told = refl

-- It is collected, sent, and acknowledged.
abbrev cycle : Option (NotificationMessage ℕ) × UaSubscription ℕ
cycle = data_cycle limits drained 200 500

cycle_built : build_message int32 limits drained 200 ≡ some cycle
unfolding build_message most_notifications collect hold_unreadable flush_held flush_each
cycle_built = refl

abbrev sent : List (NotificationMessage ℕ)
sent = [] ++ sent_by cycle.0

abbrev settled : UaSubscription ℕ
settled = (acknowledge_message 1 cycle.1).1

settled_life : Life name_of mapped no_changes int32 limits fresh sent arrived settled
settled_life = acknowledged sent arrived cycle.1 1 (
    cycled [] arrived drained 200 cycle (collected [] [] fresh 100 (some (some (7 ∷ []))) begun)
      cycle_built)

few_sent : length sent + 1 < 2 ^ 32
unfolding collect hold_unreadable flush_held flush_each
few_sent = omega arith

Life-numbers_example : data_numbers sent ≡ first_numbers settled.sequence_number
Life-numbers_example =
    Life-numbers name_of mapped no_changes int32 limits fresh sent arrived settled refl few_sent
      settled_life

fresh_queue : IsQueued limits fresh
fresh_queue = record {
  aligned = refl;
  distinct = tt;
  issued = tt;
  bounded = omega arith;
  named = tt;
}

Life-IsQueued_example : IsQueued limits settled
Life-IsQueued_example =
    Life-IsQueued name_of mapped no_changes int32 limits fresh sent arrived settled (omega arith)
      refl fresh_queue few_sent settled_life

-- A queue that is full.
abbrev message : ℕ → NotificationMessage ℕ
message n = record {
  sequence_number = n;
  publish_time = 0;
  notifications = told ∷ [];
  has_data = true;
}

abbrev full : UaSubscription ℕ
full = record fresh {
  sequence_number = 2;
  retransmit = (1, message 1) ∷ (2, message 2) ∷ [];
  retransmit_order = 1 ∷ 2 ∷ [];
}

queue_for_retransmission_newest_example :
    queue_for_retransmission limits full (message 3) ≡ record full {
      retransmit =
          drop (length full.retransmit_order + 1 - 2) full.retransmit ++ ((3, message 3) ∷ []);
      retransmit_order =
          drop (length full.retransmit_order + 1 - 2) full.retransmit_order ++ (3 ∷ []);
    }
queue_for_retransmission_newest_example =
    queue_for_retransmission_newest limits full (message 3) (omega arith) refl (refl, (refl, tt))
      refl

acknowledge_message-republish_example :
    (republish_message 1 (acknowledge_message 1 full).1
      ≡ err (codec status_bad_message_not_available))
    × (republish_message 2 (acknowledge_message 1 full).1 ≡ republish_message 2 full)
acknowledge_message-republish_example = acknowledge_message-republish full 1 2 (omega arith)

-- A subscription that has been quiet for nine cycles, one less than its count.
abbrev quiet : UaSubscription ℕ
quiet = record fresh { keep_alive_ticks = 9; message_sent = true }

abbrev at_second : ℕ → ℕ
at_second i = i * 1_000_000_000

keep_alive_due_example :
    message_of (build_message int32 limits (after int32 limits at_second 0 quiet) (at_second 0))
    ≡ some (some (keep_alive_message quiet (at_second 0)))
keep_alive_due_example =
    keep_alive_due int32 limits quiet at_second 0 0 refl refl (omega arith) refl (omega arith)

abbrev service : SubscriptionService ℕ
service = record {
  limits = limits;
  subscriptions =
      (5, fresh)
      ∷ (6, record fresh { id = 6; session_token = other; priority = 9 })
      ∷ (7, record fresh { id = 7; priority = 3; pending = told ∷ [] })
      ∷ [];
  next_id = 7;
}

call-other_example :
    lookup 5 (call service other 100 (delete_call (5 ∷ 6 ∷ []))).subscriptions ≡ some fresh
call-other_example = call-other service other 100 5 fresh (delete_call (5 ∷ 6 ∷ [])) refl refl

abbrev highest : UaSubscription ℕ
highest = record fresh { id = 7; priority = 3; pending = told ∷ [] }

highest_chosen : next_publishable service mine ≡ some highest
unfolding next_publishable
highest_chosen = refl

next_publishable_highest_example :
    (same highest.session_token mine ≡ true)
    × All (λ e. IsOutranked mine highest.priority e.1) service.subscriptions
next_publishable_highest_example = next_publishable_highest service mine highest highest_chosen

expired_exactly_example : (expired fresh 30_000_000_000 ≡ true) ↔ (
    fresh.last_kept_alive + fresh.lifetime_count * (fresh.publishing_interval * millisecond)
    ≤ 30_000_000_000)
expired_exactly_example = expired_exactly fresh 30_000_000_000 (omega arith)

-- The largest lifetime count at an interval of a minute.
abbrev longest : UaSubscription ℕ
longest = record fresh { publishing_interval = 60_000; lifetime_count = 4_294_967_295 }

expired_overflow_example : expired longest 1 ≡ true
expired_overflow_example = expired_overflow longest 1 (omega arith) (omega arith)

-- A deadband that is no number, with the trigger for status and value.
abbrev no_number : DataChangeFilter
no_number = record { trigger = 1; deadband_type = 2; deadband_value = 0x7ff8_0000_0000_0000 }

judge_filter_accepts_example : ((judge_filter no_number).1 ≡ 0) ↔ (
    ((no_number.trigger ≡ trigger_status) ⊎ (no_number.trigger ≡ trigger_status_value))
    × ((no_number.deadband_type ≡ deadband_none)
        ⊎ ((no_number.deadband_type ≡ deadband_percent)
            × ((no_number.deadband_value ≤ hundred_bits)
                ⊎ ((no_number.deadband_value ≡ sign_bit)
                    ⊎ (infinity_bits < no_number.deadband_value % sign_bit))))))
judge_filter_accepts_example = judge_filter_accepts no_number (omega arith)

-- Two items for the same item of the source, and one value of it.
abbrev twice : UaSubscription ℕ
twice = record fresh { items = (1, item) ∷ (2, record item { id = 2; client_handle = 41 }) ∷ [] }
