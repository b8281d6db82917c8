-- ===== src/Subscription/Arrivals.antt =====
-- Which notifications one collect of internal/opcua/subscription.go adds to those that wait to be sent,
-- told by the items alone and not by what waits already.
use opcda_access_adapter.Prelude.{ℕ, Option, none, some, List, [], ◌∷◌, ◌++◌, ◌==◌, if◌then◌else◌}
use opcda_access_adapter.Prelude.Dict.{Dict, lookup, erase}
use opcda_access_adapter.Errors.{status_bad_not_connected}
use opcda_access_adapter.Subscription.State.{
  DataValue, MonitoredItemNotification, MonitoredItem, UaSubscription,
}
use opcda_access_adapter.Subscription.Items.{
  monitoring_mode_reporting, too_soon, notification, null_value, server_time, hold_unreadable,
  collect_each,
}

module _ {X : Type 0} where
  abbrev pub due_value :
      ℕ → MonitoredItem X → Option (DataValue X) → List (MonitoredItemNotification X)
  due_value now item none = []
  due_value now item (some v) =
      if too_soon now item.sampling_interval item.last_reported
      then []
      else notification item v ∷ []

  -- The value that an item holds, where its sampling interval has come round.
  abbrev pub due_item : ℕ → Option (MonitoredItem X) → List (MonitoredItemNotification X)
  due_item now none = []
  due_item now (some item) = due_value now item item.held

  -- The values that are due, in an order of items. An item that comes twice counts once.
  abbrev pub due : ℕ → List ℕ → Dict (MonitoredItem X) → List (MonitoredItemNotification X)
  due now [] items = []
  due now (id ∷ ids) items = due_item now (lookup id items) ++ due now ids (erase id items)

  abbrev pub due_held : ℕ → UaSubscription X → List (MonitoredItemNotification X)
  due_held now s = if s.publishing_enabled then due now s.held_order s.items else []

  -- What an item says when the source is gone.
  abbrev farewell : ℕ → MonitoredItem X → List (MonitoredItemNotification X)
  farewell now item =
      if item.mode == monitoring_mode_reporting
      then notification item (null_value status_bad_not_connected (server_time now item)) ∷ []
      else []

  abbrev pub farewells : ℕ → Dict (MonitoredItem X) → List (MonitoredItemNotification X)
  farewells now [] = []
  farewells now ((k, item) ∷ items) = farewell now item ++ farewells now items

  module _ {S : Type 0} (item_of : S → List ℕ) (data_value : S → ℕ → ℕ → DataValue X)
      (generation_of : List ℕ → ℕ) where
    -- Where the group is gone, what each reporting item says of it; else the values that are due
    -- once the values that were drained are with their items.
    abbrev pub arrivals :
        ℕ → Option (Option (List S)) → UaSubscription X → List (MonitoredItemNotification X)
    arrivals now none s = due_held now (hold_unreadable s)
    arrivals now (some none) s = farewells now s.items
    arrivals now (some (some drained)) s =
        due_held now (collect_each item_of data_value generation_of now drained (hold_unreadable s))
