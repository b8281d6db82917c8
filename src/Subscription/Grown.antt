-- ===== src/Subscription/Grown.antt =====
-- What flushHeld of internal/opcua/subscription.go does to the notifications that wait to be sent: it adds
-- the held values that are due behind them.
use opcda_access_adapter.Prelude.{
  ℕ, ◌≡◌, ◌≢◌, refl, sym, ap, subst, arith, ◌∙◌, Bool, true, false, if◌then◌else◌, not, inl, inr,
  Option, none, some, List, [], ◌∷◌, ◌++◌, ◌==◌, append-nil, append_assoc, Bool-cases,
}
use opcda_access_adapter.Prelude.Dict.{
  Dict, lookup, insert, erase, lookup-insert_self, lookup-insert_ne, lookup-erase_self,
  lookup-erase_ne,
}
use opcda_access_adapter.Subscription.State.{
  DataValue, MonitoredItemNotification, MonitoredItem, UaSubscription,
}
use opcda_access_adapter.Subscription.Arrivals.{due_value, due_item, due, due_held}
use opcda_access_adapter.Subscription.Items.{
  too_soon, reported, flush_value, flush_item, flush_each, flush_held,
}

module _ {X : Type 0} where
  abbrev pub grow :
      Dict (MonitoredItem X)
      → List ℕ
      → List (MonitoredItemNotification X)
      → UaSubscription X
      → UaSubscription X
  grow items order arrived s = record s {
    items = items;
    held_order = order;
    pending = s.pending ++ arrived;
  }

  -- A change of a subscription that adds these notifications to what is pending, and else changes
  -- its items and the order of those that hold a value only.
  pub record IsGrown (s : UaSubscription X) (arrived : List (MonitoredItemNotification X))
      (t : UaSubscription X) : Type 0 where
    pub items : Dict (MonitoredItem X)
    pub order : List ℕ
    pub grown : t ≡ grow items order arrived s

  pub items-IsGrown :
      (s : UaSubscription X) (order : List ℕ) (items : Dict (MonitoredItem X))
      → IsGrown s [] (record s { held_order = order; items = items })
  items-IsGrown s order items = record {
    items = items;
    order = order;
    grown =
        ap (λ p. record s { held_order = order; items = items; pending = p })
          (sym (append-nil s.pending));
  }

  pub same-IsGrown : (s : UaSubscription X) → IsGrown s [] s
  same-IsGrown s = items-IsGrown s s.held_order s.items

  pub joined-IsGrown :
      (s t u : UaSubscription X) (front back : List (MonitoredItemNotification X))
      → IsGrown s front t
      → IsGrown t back u
      → IsGrown s (front ++ back) u
  joined-IsGrown s t u front back g h = record {
    items = h.items;
    order = h.order;
    grown =
        h.grown
        ∙ ap (grow h.items h.order back) g.grown
        ∙ ap (λ p. record s { items = h.items; held_order = h.order; pending = p })
            (append_assoc s.pending front back);
  }

  flush_value-IsGrown :
      (now id : ℕ) (item : MonitoredItem X) (s : UaSubscription X) (v : Option (DataValue X))
      → IsGrown s (due_value now item v) (flush_value now id item s v).1
  flush_value-IsGrown now id item s none = same-IsGrown s
  flush_value-IsGrown now id item s (some v) =
      elim (Bool-cases (too_soon now item.sampling_interval item.last_reported)) [
        | inl e ↦ rw e (same-IsGrown s)
        | inr e ↦ rw e (record {
          items = insert id (reported now item) s.items;
          order = s.held_order;
          grown = refl;
        })
      ]

  flush_item-IsGrown :
      (now id : ℕ) (s : UaSubscription X) (x : Option (MonitoredItem X))
      → IsGrown s (due_item now x) (flush_item now id s x).1
  flush_item-IsGrown now id s none = same-IsGrown s
  flush_item-IsGrown now id s (some item) = flush_value-IsGrown now id item s item.held

  -- An item that the loop has seen is not due any more, and no other item has changed.
  flush_value-spent :
      (now id : ℕ) (item : MonitoredItem X) (s : UaSubscription X) (v : Option (DataValue X))
      → lookup id s.items ≡ some item
      → item.held ≡ v
      → due_item now (lookup id (flush_value now id item s v).1.items) ≡ []
  flush_value-spent now id item s none e h = ap (due_item now) e ∙ ap (due_value now item) h
  flush_value-spent now id item s (some v) e h =
      elim (Bool-cases (too_soon now item.sampling_interval item.last_reported)) [
        | inl soon ↦
            let idle : due_value now item (some v) ≡ [] = rw soon refl in
            rw soon (ap (due_item now) e ∙ ap (due_value now item) h ∙ idle)
        | inr late ↦ rw late (ap (due_item now) (lookup-insert_self id (reported now item) s.items))
      ]

  flush_item-spent :
      (now id : ℕ) (s : UaSubscription X) (x : Option (MonitoredItem X))
      → lookup id s.items ≡ x
      → due_item now (lookup id (flush_item now id s x).1.items) ≡ []
  flush_item-spent now id s none e = ap (due_item now) e
  flush_item-spent now id s (some item) e = flush_value-spent now id item s item.held e refl

  flush_value-other :
      (now id other : ℕ) (item : MonitoredItem X) (s : UaSubscription X) (v : Option (DataValue X))
      → other ≢ id
      → lookup other (flush_value now id item s v).1.items ≡ lookup other s.items
  flush_value-other now id other item s none h = refl
  flush_value-other now id other item s (some v) h =
      elim (Bool-cases (too_soon now item.sampling_interval item.last_reported)) [
        | inl e ↦ rw e refl
        | inr e ↦ rw e (lookup-insert_ne other id (reported now item) s.items h)
      ]

  flush_item-other :
      (now id other : ℕ) (s : UaSubscription X) (x : Option (MonitoredItem X))
      → other ≢ id
      → lookup other (flush_item now id s x).1.items ≡ lookup other s.items
  flush_item-other now id other s none h = refl
  flush_item-other now id other s (some item) h = flush_value-other now id other item s item.held h

  -- Two maps in which the same values are due.
  abbrev SameDue : ℕ → Dict (MonitoredItem X) → Dict (MonitoredItem X) → Type 0
  SameDue now d e = (id : ℕ) → due_item now (lookup id d) ≡ due_item now (lookup id e)

  flush_item-SameDue :
      (now id : ℕ) (s : UaSubscription X) (left : Dict (MonitoredItem X))
      → SameDue now s.items left
      → SameDue now (flush_item now id s (lookup id s.items)).1.items (erase id left)
  flush_item-SameDue now id s left alike other = elim (Bool-cases (other == id)) [
    | inl e ↦
        let same : id ≡ other = ground arith in
        subst
          (λ k.
            due_item now (lookup k (flush_item now id s (lookup id s.items)).1.items)
            ≡ due_item now (lookup k (erase id left)))
          same
          (flush_item-spent now id s (lookup id s.items) refl
            ∙ sym (ap (due_item now) (lookup-erase_self id left)))
    | inr e ↦
        let apart : other ≢ id = ground arith in
        ap (due_item now) (flush_item-other now id other s (lookup id s.items) apart)
        ∙ alike other
        ∙ sym (ap (due_item now) (lookup-erase_ne other id left apart))
  ]

  flush_each-IsGrown :
      (now : ℕ) (ids : List ℕ) (s : UaSubscription X) (left : Dict (MonitoredItem X))
      → SameDue now s.items left
      → IsGrown s (due now ids left) (flush_each now ids s).1
  unfolding flush_each
  flush_each-IsGrown now [] s left alike = same-IsGrown s
  flush_each-IsGrown now (id ∷ ids) s left alike =
      let next : UaSubscription X = (flush_item now id s (lookup id s.items)).1 in
      joined-IsGrown s next (flush_each now ids next).1 (due_item now (lookup id left))
        (due now ids (erase id left))
        (subst (λ front. IsGrown s front next) (alike id)
          (flush_item-IsGrown now id s (lookup id s.items)))
        (flush_each-IsGrown now ids next (erase id left) (flush_item-SameDue now id s left alike))

  pub flush_held-IsGrown :
      (now : ℕ) (s : UaSubscription X) → IsGrown s (due_held now s) (flush_held now s)
  unfolding flush_held
  flush_held-IsGrown now s = go s.publishing_enabled
    where
      flushed : List ℕ × UaSubscription X
      flushed = flush_each now s.held_order s

      g : IsGrown s (due now s.held_order s.items) flushed.1
      g = flush_each-IsGrown now s.held_order s s.items (λ id. refl)

      ordered : UaSubscription X → UaSubscription X
      ordered t = record t { held_order = flushed.0 }

      go :
          (b : Bool)
          → IsGrown s
              (if b then due now s.held_order s.items else [])
              (if not b then s else ordered flushed.1)
      go false = same-IsGrown s
      go true = record { items = g.items; order = flushed.0; grown = ap ordered g.grown }
