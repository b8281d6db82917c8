-- ===== src/Subscription/Service.antt =====
-- internal/opcua/subscription.go: the SubscriptionService: its subscriptions by their identifiers,
-- and the service calls on them. Each call holds the lock, and is one step. Releasing the DA group
-- of a subscription that is deleted is not modelled.
use opcda_access_adapter.Prelude.{
  ℕ, ◌+◌, Bool, false, not, Option, none, some, List, [], ◌∷◌, leb, length, if◌then◌else◌,
}
use opcda_access_adapter.Prelude.Int.{ℤ}
use opcda_access_adapter.Prelude.Dict.{Dict, keys, lookup, insert, erase}
use opcda_access_adapter.Prelude.Keys.{same}
use opcda_access_adapter.Errors.{
  Error, Result, ok, err, codec, ◌>>◌, status_bad_nothing_to_do, status_bad_subscription_id_invalid,
  status_bad_monitored_item_id_invalid, status_bad_too_many_subscriptions,
}
use opcda_access_adapter.Channel.Ids.{search}
use opcda_access_adapter.Subscription.Limits.{
  SubscriptionLimits, validate_limits, revise_publishing_interval, revise_keep_alive_count,
  revise_lifetime_count,
}
use opcda_access_adapter.Subscription.State.{MonitoredItem, UaSubscription}

pub record SubscriptionService (X : Type 0) : Type 0 where
  pub limits : SubscriptionLimits
  pub subscriptions : Dict (UaSubscription X)
  pub next_id : ℕ

-- The fields of a CreateSubscriptionRequest behind its header.
pub record CreateSubscription : Type 0 where
  pub requested_publishing_interval : ℤ
  pub requested_lifetime_count : ℕ
  pub requested_max_keep_alive_count : ℕ
  pub max_notifications_per_publish : ℕ
  pub publishing_enabled : Bool
  pub priority : ℕ

pub record CreateSubscriptionResponse : Type 0 where
  pub subscription_id : ℕ
  pub revised_publishing_interval : ℕ
  pub revised_lifetime_count : ℕ
  pub revised_max_keep_alive_count : ℕ

abbrev pub unknown_subscription : Error
unknown_subscription = codec status_bad_subscription_id_invalid

abbrev pub status_of_delete : {X : Type 0} → Option (MonitoredItem X) → ℕ
status_of_delete none = status_bad_monitored_item_id_invalid
status_of_delete (some item) = 0

module _ {X : Type 0} where
  unfoldable pub new_subscription_service : SubscriptionLimits → ℕ → Result (SubscriptionService X)
  new_subscription_service l seed =
      validate_limits l >> ok (record { limits = l; subscriptions = []; next_id = seed })

  -- allocateID, with `none` where the loop would not end.
  unfoldable pub allocate_id : SubscriptionService X → Option ℕ
  unfolding search
  allocate_id v = search (length (keys v.subscriptions) + 2) v.next_id (keys v.subscriptions)

  abbrev pub created : SubscriptionLimits → ℕ → List ℕ → CreateSubscription → ℕ → UaSubscription X
  created l id token q now = record {
    id = id;
    session_token = token;
    publishing_enabled = q.publishing_enabled;
    publishing_interval = revise_publishing_interval l q.requested_publishing_interval;
    keep_alive_count = revise_keep_alive_count l q.requested_max_keep_alive_count;
    lifetime_count =
        revise_lifetime_count q.requested_lifetime_count
          (revise_keep_alive_count l q.requested_max_keep_alive_count);
    max_notifications = q.max_notifications_per_publish;
    priority = q.priority;
    items = [];
    held_order = [];
    sequence_number = 0;
    pending = [];
    retransmit = [];
    retransmit_order = [];
    keep_alive_ticks = 0;
    message_sent = false;
    last_kept_alive = now;
  }

  abbrev pub response_of : UaSubscription X → CreateSubscriptionResponse
  response_of s = record {
    subscription_id = s.id;
    revised_publishing_interval = s.publishing_interval;
    revised_lifetime_count = s.lifetime_count;
    revised_max_keep_alive_count = s.keep_alive_count;
  }

  abbrev pub create_with :
      SubscriptionService X
      → List ℕ
      → CreateSubscription
      → ℕ
      → Option ℕ
      → Option (Result CreateSubscriptionResponse × SubscriptionService X)
  create_with v token q now none = none
  create_with v token q now (some id) =
      let s = created v.limits id token q now in
      some
        (ok (response_of s), record v { subscriptions = insert id s v.subscriptions; next_id = id })

  unfoldable pub create_subscription :
      SubscriptionService X
      → List ℕ
      → CreateSubscription
      → ℕ
      → Option (Result CreateSubscriptionResponse × SubscriptionService X)
  unfolding allocate_id
  create_subscription v token q now =
      if leb v.limits.max_subscriptions (length v.subscriptions)
      then some (err (codec status_bad_too_many_subscriptions), v)
      else create_with v token q now (allocate_id v)

  abbrev pub require_owned : List ℕ → ℕ → Option (UaSubscription X) → Result (UaSubscription X)
  require_owned token now none = err unknown_subscription
  require_owned token now (some s) =
      if not (same s.session_token token)
      then err unknown_subscription
      else ok (record s { last_kept_alive = now })

  -- The subscription that a lookup answers, which is stored by whoever asked for it.
  unfoldable pub lookup_subscription :
      SubscriptionService X → List ℕ → ℕ → ℕ → Result (UaSubscription X)
  lookup_subscription v token id now = require_owned token now (lookup id v.subscriptions)

  abbrev pub store : SubscriptionService X → ℕ → UaSubscription X → SubscriptionService X
  store v id s = record v { subscriptions = insert id s v.subscriptions }

  -- The loops over the identifiers of a request: a status code for each, and the service.
  module _
      (operation : SubscriptionService X → ℕ → UaSubscription X → ℕ × SubscriptionService X) where
    abbrev pub perform :
        SubscriptionService X → ℕ → Result (UaSubscription X) → ℕ × SubscriptionService X
    perform v id (err e) = (status_bad_subscription_id_invalid, v)
    perform v id (ok s) = operation v id s

    abbrev pub perform_each :
        List ℕ → ℕ → List ℕ → SubscriptionService X → List ℕ × SubscriptionService X
    perform_each token now [] v = ([], v)
    perform_each token now (id ∷ ids) v =
        let first = perform v id (lookup_subscription v token id now) in
        let rest = perform_each token now ids first.1 in (first.0 ∷ rest.0, rest.1)

    abbrev pub perform_some :
        SubscriptionService X → List ℕ → List ℕ → ℕ → Result (List ℕ) × SubscriptionService X
    perform_some v token [] now = (err (codec status_bad_nothing_to_do), v)
    perform_some v token (id ∷ ids) now =
        let done = perform_each token now (id ∷ ids) v in (ok done.0, done.1)

  abbrev pub delete_one : SubscriptionService X → ℕ → UaSubscription X → ℕ × SubscriptionService X
  delete_one v id s = (0, record v { subscriptions = erase id v.subscriptions })

  unfoldable pub delete_subscriptions :
      SubscriptionService X → List ℕ → List ℕ → ℕ → Result (List ℕ) × SubscriptionService X
  unfolding lookup_subscription
  delete_subscriptions v token ids now = perform_some delete_one v token ids now

  abbrev pub set_one :
      Bool → SubscriptionService X → ℕ → UaSubscription X → ℕ × SubscriptionService X
  set_one enabled v id s = (0, store v id (record s { publishing_enabled = enabled }))

  unfoldable pub set_publishing_mode :
      SubscriptionService X → List ℕ → Bool → List ℕ → ℕ → Result (List ℕ) × SubscriptionService X
  unfolding lookup_subscription
  set_publishing_mode v token enabled ids now = perform_some (set_one enabled) v token ids now

  -- The loop of DeleteMonitoredItems: the status codes, and the items that are left. The map by
  -- client handle is not modelled, and neither is the DA group, which is rebuilt afterwards.
  abbrev pub delete_items : List ℕ → Dict (MonitoredItem X) → List ℕ × Dict (MonitoredItem X)
  delete_items [] items = ([], items)
  delete_items (id ∷ ids) items =
      let rest = delete_items ids (erase id items) in
      (status_of_delete (lookup id items) ∷ rest.0, rest.1)

  abbrev pub delete_items_found :
      SubscriptionService X
      → ℕ
      → List ℕ
      → Result (UaSubscription X)
      → Result (List ℕ) × SubscriptionService X
  delete_items_found v id ids (err e) = (err e, v)
  delete_items_found v id ids (ok s) = (
    ok (delete_items ids s.items).0,
    store v id (record s { items = (delete_items ids s.items).1 }),
  )

  unfoldable pub delete_monitored_items :
      SubscriptionService X → List ℕ → ℕ → List ℕ → ℕ → Result (List ℕ) × SubscriptionService X
  unfolding lookup_subscription
  delete_monitored_items v token id [] now = (err (codec status_bad_nothing_to_do), v)
  delete_monitored_items v token id (item ∷ items) now =
      delete_items_found v id (item ∷ items) (lookup_subscription v token id now)
