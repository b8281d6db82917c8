-- ===== src/Subscription/Given.antt =====
-- Which item one drained value is given to by collect of internal/opcua/subscription.go, and what the
-- item then holds.
use opcda_access_adapter.Prelude.{
  ℕ, ◌≡◌, ◌≢◌, ◌⊎◌, true, false, some, List, [], ◌∷◌, ◌++◌, All, Distinct, if◌then◌else◌,
}
use opcda_access_adapter.Prelude.Dict.{Dict, keys, lookup}
use opcda_access_adapter.Prelude.Keys.{same}
use opcda_access_adapter.Subscription.State.{DataValue, MonitoredItem, UaSubscription}
use opcda_access_adapter.Subscription.Items.{monitoring_mode_reporting, is_some, marked}

module _ {X : Type 0} where
  -- Each item is in the map under its own identifier.
  abbrev AreKeyed : Dict (MonitoredItem X) → Type 0
  AreKeyed items = Distinct (keys items) × All (λ e. e.1.id ≡ e.0) items

  module _ {S : Type 0} (item_of : S → List ℕ) (data_value : S → ℕ → ℕ → DataValue X)
      (generation_of : List ℕ → ℕ) where
    -- The item with the value in place of any that it held: the value is marked where the semantics
    -- of the item have changed since its last value.
    abbrev holding : ℕ → S → MonitoredItem X → MonitoredItem X
    holding now v item = record item {
      held = some (
          marked item_of data_value generation_of (data_value v item.timestamps now)
            (generation_of item.item_id) item.semantic_generation);
      semantic_generation = generation_of item.item_id;
    }

    -- What one drained value does to a subscription: nothing where no item has its name, or the one
    -- that has it does not report; else that item holds the value, it is entered into the order of
    -- those that hold one unless it held one already, and the item `other` is as before.
    abbrev pub IsGiven : ℕ → S → ℕ → UaSubscription X → UaSubscription X → Type 0
    IsGiven now v other s t =
        (All (λ e. same e.1.item_id (item_of v) ≡ false) s.items × (t ≡ s))
        ⊎ ((item : MonitoredItem X) × (lookup item.id s.items ≡ some item)
            × (same item.item_id (item_of v) ≡ true)
            × (((item.mode ≢ monitoring_mode_reporting) × (t ≡ s))
                ⊎ ((item.mode ≡ monitoring_mode_reporting)
                    × (lookup item.id t.items ≡ some (holding now v item))
                    × (t.held_order ≡ (
                        if is_some item.held then s.held_order else s.held_order ++ (item.id ∷ [])))
                    × (t.pending ≡ s.pending)
                    × ((other ≡ item.id) ⊎ (lookup other t.items ≡ lookup other s.items)))))
