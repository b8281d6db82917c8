-- ===== src/Subscription/State.antt =====
-- internal/opcua/subscription.go: a monitored item, a subscription, and the message that it sends. A
-- time is a count of nanoseconds, an interval of a request one of milliseconds. Go's zero time is
-- `none`. The DA group, its deadband and the node of an item are not modelled.
use opcda_access_adapter.Prelude.{ℕ, ◌+◌, ◌*◌, ◌%◌, ◌^◌, Bool, Option, List, leb, if◌then◌else◌}
use opcda_access_adapter.Prelude.Dict.{Dict}
use opcda_access_adapter.Channel.Token.{millisecond}

-- variant.go: `none` is the null Variant, and any other one is of the type X.
pub record DataValue (X : Type 0) : Type 0 where
  pub value : Option X
  pub status : ℕ
  pub source_timestamp : Option ℕ
  pub source_picoseconds : ℕ
  pub server_timestamp : Option ℕ
  pub server_picoseconds : ℕ

pub record MonitoredItemNotification (X : Type 0) : Type 0 where
  pub client_handle : ℕ
  pub value : DataValue X

pub record NotificationMessage (X : Type 0) : Type 0 where
  pub sequence_number : ℕ
  pub publish_time : ℕ
  pub notifications : List (MonitoredItemNotification X)
  pub has_data : Bool

pub record MonitoredItem (X : Type 0) : Type 0 where
  pub id : ℕ
  pub client_handle : ℕ
  pub item_id : List ℕ
  pub mode : ℕ
  pub timestamps : ℕ
  pub not_readable : Bool
  pub sampling_interval : ℕ
  pub held : Option (DataValue X)
  pub last_reported : Option ℕ
  pub semantic_generation : ℕ

-- The maps by client handle, which nothing reads here, and the counter of item identifiers are not
-- fields.
pub record UaSubscription (X : Type 0) : Type 0 where
  pub id : ℕ
  pub session_token : List ℕ
  pub publishing_enabled : Bool
  pub publishing_interval : ℕ
  pub keep_alive_count : ℕ
  pub lifetime_count : ℕ
  pub max_notifications : ℕ
  pub priority : ℕ
  pub items : Dict (MonitoredItem X)
  pub held_order : List ℕ
  pub sequence_number : ℕ
  pub pending : List (MonitoredItemNotification X)
  pub retransmit : Dict (NotificationMessage X)
  pub retransmit_order : List ℕ
  pub keep_alive_ticks : ℕ
  pub message_sent : Bool
  pub last_kept_alive : ℕ

module _ {X : Type 0} where
  -- The lifetime in nanoseconds as the bit pattern of an int64, since the product wraps.
  abbrev pub lifetime_bits : UaSubscription X → ℕ
  lifetime_bits s = (s.lifetime_count * (s.publishing_interval * millisecond)) % 2 ^ 64

  -- `now.Sub(lastKeptAlive) >= lifetimeCount * interval`, the right side of which may be negative.
  unfoldable pub expired : UaSubscription X → ℕ → Bool
  expired s now =
      leb (s.last_kept_alive + lifetime_bits s)
        (if leb (2 ^ 63) (lifetime_bits s) then now + 2 ^ 64 else now)
