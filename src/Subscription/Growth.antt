-- ===== src/Subscription/Growth.antt =====
-- What collect of internal/opcua/subscription.go does to the notifications that wait to be sent: it adds
-- some behind them.
use opcda_access_adapter.Prelude.{
  ℕ, ◌≡◌, refl, ap, not, inl, inr, Option, none, some, List, [], ◌∷◌, ◌++◌, ◌==◌, Bool-cases,
}
use opcda_access_adapter.Prelude.Dict.{Dict}
use opcda_access_adapter.Errors.{status_bad_not_connected}
use opcda_access_adapter.Subscription.State.{DataValue, MonitoredItem, UaSubscription}
use opcda_access_adapter.Subscription.Grown.{
  IsGrown, same-IsGrown, items-IsGrown, joined-IsGrown, flush_held-IsGrown,
}
use opcda_access_adapter.Subscription.Arrivals.{due_held, farewells, arrivals}
use opcda_access_adapter.Subscription.Items.{
  null_value, server_time, stays_unheld, monitoring_mode_reporting, notification, flush_held,
  hold_each, hold_unreadable, invalidations, none_held, report_invalidation, item_for_da_item_id,
  hold_value, collect_value, collect_each, collect,
}

module _ {X : Type 0} where
  hold_unreadable-IsGrown : (s : UaSubscription X) → IsGrown s [] (hold_unreadable s)
  unfolding hold_unreadable
  hold_unreadable-IsGrown s =
      items-IsGrown s (s.held_order ++ (hold_each s.items).0) (hold_each s.items).1

  -- What the items say when the source is gone does not depend on what they hold.
  invalidations-hold_each :
      (now : ℕ) (items : Dict (MonitoredItem X))
      → invalidations now (hold_each items).1 ≡ farewells now items
  invalidations-hold_each now [] = refl
  invalidations-hold_each now ((k, item) ∷ items) = elim (Bool-cases (stays_unheld item)) [
    | inl e ↦ rw e (elim (Bool-cases (item.mode == monitoring_mode_reporting)) [
      | inl m ↦ rw m (
          ap
            (λ ns.
              notification item (null_value status_bad_not_connected (server_time now item)) ∷ ns)
            (invalidations-hold_each now items))
      | inr m ↦ rw m (invalidations-hold_each now items)
    ])
    | inr e ↦ rw e (elim (Bool-cases (item.mode == monitoring_mode_reporting)) [
      | inl m ↦ rw m (
          ap
            (λ ns.
              notification item (null_value status_bad_not_connected (server_time now item)) ∷ ns)
            (invalidations-hold_each now items))
      | inr m ↦ rw m (invalidations-hold_each now items)
    ])
  ]

  report_invalidation-IsGrown :
      (now : ℕ) (s : UaSubscription X)
      → IsGrown s (farewells now s.items) (report_invalidation now (hold_unreadable s))
  unfolding report_invalidation hold_unreadable
  report_invalidation-IsGrown now s = record {
    items = none_held (hold_each s.items).1;
    order = [];
    grown =
        ap
          (λ ns. record s {
            held_order = [];
            items = none_held (hold_each s.items).1;
            pending = s.pending ++ ns;
          })
          (invalidations-hold_each now s.items);
  }

  module _ {S : Type 0} (item_of : S → List ℕ) (data_value : S → ℕ → ℕ → DataValue X)
      (generation_of : List ℕ → ℕ) where
    collect_value-IsGrown :
        (now : ℕ) (s : UaSubscription X) (v : S) (x : Option (MonitoredItem X))
        → IsGrown s [] (collect_value item_of data_value generation_of now s v x)
    collect_value-IsGrown now s v none = same-IsGrown s
    collect_value-IsGrown now s v (some item) =
        elim (Bool-cases (not (item.mode == monitoring_mode_reporting))) [
          | inl e ↦ rw e (same-IsGrown s)
          | inr e ↦ rw e (
              items-IsGrown s (hold_value item_of data_value generation_of now s item v).held_order
                (hold_value item_of data_value generation_of now s item v).items)
        ]

    collect_each-IsGrown :
        (now : ℕ) (vs : List S) (s : UaSubscription X)
        → IsGrown s [] (collect_each item_of data_value generation_of now vs s)
    collect_each-IsGrown now [] s = same-IsGrown s
    collect_each-IsGrown now (v ∷ vs) s =
        let x : Option (MonitoredItem X) = item_for_da_item_id (item_of v) s.items in
        let next : UaSubscription X = collect_value item_of data_value generation_of now s v x in
        joined-IsGrown s next (collect_each item_of data_value generation_of now vs next) [] []
          (collect_value-IsGrown now s v x) (collect_each-IsGrown now vs next)

    -- Whatever collect finds, it adds its arrivals behind the notifications that are pending.
    pub collect-IsGrown :
        (now : ℕ) (found : Option (Option (List S))) (s : UaSubscription X)
        → IsGrown s
            (arrivals item_of data_value generation_of now found s)
            (collect item_of data_value generation_of now found s)
    unfolding collect
    collect-IsGrown now none s =
        joined-IsGrown s (hold_unreadable s) _ [] (due_held now (hold_unreadable s))
          (hold_unreadable-IsGrown s) (flush_held-IsGrown now (hold_unreadable s))
    collect-IsGrown now (some none) s = report_invalidation-IsGrown now s
    collect-IsGrown now (some (some drained)) s =
        let held : UaSubscription X =
          collect_each item_of data_value generation_of now drained (hold_unreadable s) in
        joined-IsGrown s held (flush_held now held) [] (due_held now held)
          (joined-IsGrown s (hold_unreadable s) held [] [] (hold_unreadable-IsGrown s)
            (collect_each-IsGrown now drained (hold_unreadable s)))
          (flush_held-IsGrown now held)
