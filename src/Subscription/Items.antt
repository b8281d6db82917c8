-- ===== src/Subscription/Items.antt =====
-- internal/opcua/subscription.go: what becomes of the values that the DA group of a subscription
-- drains: collect, flushHeld, holdUnreadable and reportInvalidation. The source's own words for a
-- drained value and its mapping to a DataValue, which is code of readwrite.go, are parameters.
use opcda_access_adapter.Prelude.{
  ℕ, ◌+◌, ◌*◌, ◌%◌, ◌^◌, Bool, true, false, not, ◌||◌, Option, none, some, List, [], ◌∷◌, ◌++◌, ltb,
  leb, ◌==◌, bit_or, if◌then◌else◌,
}
use opcda_access_adapter.Prelude.Dict.{Dict, lookup, insert}
use opcda_access_adapter.Prelude.Keys.{same}
use opcda_access_adapter.Errors.{status_bad_not_readable, status_bad_not_connected}
use opcda_access_adapter.Channel.Token.{millisecond}
use opcda_access_adapter.Subscription.State.{
  DataValue, MonitoredItemNotification, MonitoredItem, UaSubscription,
}

abbrev pub monitoring_mode_reporting : ℕ
monitoring_mode_reporting = 2

abbrev pub timestamps_server : ℕ
timestamps_server = 1

abbrev pub timestamps_both : ℕ
timestamps_both = 2

abbrev pub is_some {ℓ} : {A : Type ℓ} → Option A → Bool
is_some none = false
is_some (some a) = true

-- `now.Sub(item.lastReported) < time.Duration(samplingInterval)*time.Millisecond`, where the interval
-- is the word of the int64 that time.Duration makes of the float64, and the product wraps: from 2 ^ 63
-- on it stands for the negative number that is 2 ^ 64 less.
abbrev pub too_soon : ℕ → ℕ → Option ℕ → Bool
too_soon now interval none = false
too_soon now interval (some reported) =
    let product = (interval * millisecond) % 2 ^ 64 in
    if leb (2 ^ 63) product
    then ltb (now + 2 ^ 64) (reported + product)
    else ltb now (reported + product)

module _ {X : Type 0} where
  -- DataValue{Value: NullVariant(), Status: status}
  abbrev pub null_value : ℕ → Option ℕ → DataValue X
  null_value status server = record {
    value = none;
    status = status;
    source_timestamp = none;
    source_picoseconds = 0;
    server_timestamp = server;
    server_picoseconds = 0;
  }

  -- statuscode.go: StatusCode.WithSemanticsChanged, of a value's status.
  abbrev pub with_semantics_changed : DataValue X → DataValue X
  with_semantics_changed v = record v { status = bit_or v.status 0x4000 }

  abbrev pub reported : ℕ → MonitoredItem X → MonitoredItem X
  reported now item = record item { held = none; last_reported = some now }

  abbrev pub notification : MonitoredItem X → DataValue X → MonitoredItemNotification X
  notification item v = record { client_handle = item.client_handle; value = v }

  -- The body of flushHeld's loop behind the lookup of the item and of its held value.
  abbrev pub flush_value :
      ℕ → ℕ → MonitoredItem X → UaSubscription X → Option (DataValue X) → List ℕ × UaSubscription X
  flush_value now id item s none = ([], s)
  flush_value now id item s (some v) =
      if too_soon now item.sampling_interval item.last_reported then (id ∷ [], s) else (
        [],
        record s {
          pending = s.pending ++ (notification item v ∷ []);
          items = insert id (reported now item) s.items;
        },
      )

  abbrev pub flush_item :
      ℕ → ℕ → UaSubscription X → Option (MonitoredItem X) → List ℕ × UaSubscription X
  flush_item now id s none = ([], s)
  flush_item now id s (some item) = flush_value now id item s item.held

  -- The loop: the identifiers that keep their place, and the subscription.
  unfoldable pub flush_each : ℕ → List ℕ → UaSubscription X → List ℕ × UaSubscription X
  flush_each now [] s = ([], s)
  flush_each now (id ∷ ids) s =
      let first = flush_item now id s (lookup id s.items) in
      let rest = flush_each now ids first.1 in (first.0 ++ rest.0, rest.1)

  unfoldable pub flush_held : ℕ → UaSubscription X → UaSubscription X
  unfolding flush_each
  flush_held now s =
      if not s.publishing_enabled
      then s
      else let flushed = flush_each now s.held_order s in
        record flushed.1 { held_order = flushed.0 }

  -- The tests of holdUnreadable's loop.
  abbrev pub stays_unheld : MonitoredItem X → Bool
  stays_unheld item =
      not item.not_readable
      || is_some item.last_reported
      || is_some item.held
      || not (item.mode == monitoring_mode_reporting)

  -- The loops over the map of items go through it in the order of its list.
  abbrev pub hold_each : Dict (MonitoredItem X) → List ℕ × Dict (MonitoredItem X)
  hold_each [] = ([], [])
  hold_each ((k, item) ∷ items) =
      let rest = hold_each items in
      if stays_unheld item then (rest.0, (k, item) ∷ rest.1) else (
        item.id ∷ rest.0,
        (k, record item { held = some (null_value status_bad_not_readable none) }) ∷ rest.1,
      )

  unfoldable pub hold_unreadable : UaSubscription X → UaSubscription X
  hold_unreadable s = record s {
    held_order = s.held_order ++ (hold_each s.items).0;
    items = (hold_each s.items).1;
  }

  abbrev pub server_time : ℕ → MonitoredItem X → Option ℕ
  server_time now item =
      if (item.timestamps == timestamps_server) || (item.timestamps == timestamps_both)
      then some now
      else none

  abbrev pub invalidations : ℕ → Dict (MonitoredItem X) → List (MonitoredItemNotification X)
  invalidations now [] = []
  invalidations now ((k, item) ∷ items) =
      if not (item.mode == monitoring_mode_reporting)
      then invalidations now items
      else notification item (null_value status_bad_not_connected (server_time now item))
        ∷ invalidations now items

  abbrev pub none_held : Dict (MonitoredItem X) → Dict (MonitoredItem X)
  none_held [] = []
  none_held ((k, item) ∷ items) = (k, record item { held = none }) ∷ none_held items

  unfoldable pub report_invalidation : ℕ → UaSubscription X → UaSubscription X
  report_invalidation now s = record s {
    held_order = [];
    pending = s.pending ++ invalidations now s.items;
    items = none_held s.items;
  }

  abbrev pub item_for_da_item_id : List ℕ → Dict (MonitoredItem X) → Option (MonitoredItem X)
  item_for_da_item_id i [] = none
  item_for_da_item_id i ((k, item) ∷ items) =
      if same item.item_id i then some item else item_for_da_item_id i items

  module _ {S : Type 0} (item_of : S → List ℕ) (data_value : S → ℕ → ℕ → DataValue X)
      (generation_of : List ℕ → ℕ) where
    abbrev pub marked : DataValue X → ℕ → ℕ → DataValue X
    marked v generation seen = if generation == seen then v else with_semantics_changed v

    -- The value that an item holds from then on.
    abbrev pub held_value : ℕ → MonitoredItem X → S → DataValue X
    held_value now item v =
        marked (data_value v item.timestamps now) (generation_of item.item_id)
          item.semantic_generation

    abbrev pub hold_value : ℕ → UaSubscription X → MonitoredItem X → S → UaSubscription X
    hold_value now s item v = record s {
      held_order = if is_some item.held then s.held_order else s.held_order ++ (item.id ∷ []);
      items =
          insert item.id
            (record item {
              held = some (held_value now item v);
              semantic_generation = generation_of item.item_id;
            })
            s.items;
    }

    abbrev pub collect_value :
        ℕ → UaSubscription X → S → Option (MonitoredItem X) → UaSubscription X
    collect_value now s v none = s
    collect_value now s v (some item) =
        if not (item.mode == monitoring_mode_reporting) then s else hold_value now s item v

    abbrev pub collect_each : ℕ → List S → UaSubscription X → UaSubscription X
    collect_each now [] s = s
    collect_each now (v ∷ vs) s =
        collect_each now vs (collect_value now s v (item_for_da_item_id (item_of v) s.items))

    -- What collect finds behind the subscription: no DA group, one that was invalidated, which is
    -- then released, or the values that one drains.
    unfoldable pub collect : ℕ → Option (Option (List S)) → UaSubscription X → UaSubscription X
    unfolding hold_unreadable flush_held report_invalidation
    collect now none s = flush_held now (hold_unreadable s)
    collect now (some none) s = report_invalidation now (hold_unreadable s)
    collect now (some (some drained)) s =
        flush_held now (collect_each now drained (hold_unreadable s))
