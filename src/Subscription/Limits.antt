-- ===== src/Subscription/Limits.antt =====
-- internal/opcua/subscription.go: SubscriptionLimits and the revision of a client's requests. A
-- duration is a count of nanoseconds, and a limit that is not positive is 0. A requested interval is
-- the int64 that Go makes of the float64, as for a session's timeout.
use opcda_access_adapter.Prelude.{ℕ, ◌*◌, ◌/◌, ◌%◌, ◌^◌, ◌||◌, ltb, leb, ◌==◌, if◌then◌else◌}
use opcda_access_adapter.Prelude.Int.{ℤ, pos, negsuc}
use opcda_access_adapter.Errors.{Result, ok, err, plain}
use opcda_access_adapter.Channel.Token.{millisecond}

pub record SubscriptionLimits : Type 0 where
  pub max_subscriptions : ℕ
  pub max_monitored_items : ℕ
  pub min_publishing_interval : ℕ
  pub max_publishing_interval : ℕ
  pub min_keep_alive_count : ℕ
  pub max_keep_alive_count : ℕ
  pub max_notifications_per_publish : ℕ
  pub max_retransmission_queue : ℕ
  pub request_timeout : ℕ
  pub max_nodes : ℕ

unfoldable pub validate_limits : SubscriptionLimits → Result (Unit {0})
validate_limits l =
    if leb l.max_subscriptions 0
      || leb l.max_monitored_items 0
      || leb l.min_publishing_interval 0
      || leb l.max_publishing_interval 0
      || (l.min_keep_alive_count == 0)
      || (l.max_keep_alive_count == 0)
      || leb l.max_notifications_per_publish 0
      || leb l.request_timeout 0
      || ltb l.max_retransmission_queue 2
      || leb l.max_nodes 0
    then err plain
    else if ltb l.max_publishing_interval l.min_publishing_interval
    then err plain
    else if ltb l.max_keep_alive_count l.min_keep_alive_count
    then err plain
    else ok tt

-- `if interval > MaxPublishingInterval`
abbrev pub at_most_maximum : SubscriptionLimits → ℕ → ℕ
at_most_maximum l d = if ltb l.max_publishing_interval d then l.max_publishing_interval else d

-- `if interval < MinPublishingInterval`, for the bit pattern of an int64.
abbrev pub at_least_minimum : SubscriptionLimits → ℕ → ℕ
at_least_minimum l w =
    if leb (2 ^ 63) w || ltb w l.min_publishing_interval then l.min_publishing_interval else w

unfoldable pub revise_publishing_interval : SubscriptionLimits → ℤ → ℕ
revise_publishing_interval l (negsuc n) = at_most_maximum l l.min_publishing_interval / millisecond
revise_publishing_interval l (pos n) =
    at_most_maximum l (at_least_minimum l ((n * millisecond) % 2 ^ 64)) / millisecond

unfoldable pub revise_keep_alive_count : SubscriptionLimits → ℕ → ℕ
revise_keep_alive_count l requested =
    if (requested == 0) || ltb requested l.min_keep_alive_count
    then l.min_keep_alive_count
    else if ltb l.max_keep_alive_count requested
    then l.max_keep_alive_count
    else requested

unfoldable pub revise_lifetime_count : ℕ → ℕ → ℕ
revise_lifetime_count requested keep_alive =
    if ltb requested ((keep_alive * 3) % 2 ^ 32) then (keep_alive * 3) % 2 ^ 32 else requested
