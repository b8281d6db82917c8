-- ===== src/Subscription/Life.antt =====
-- The life of one subscription of internal/opcua/subscription.go: publishing cycles, values that are
-- collected, acknowledgements and switches of its publishing mode, in any order and at any times.
use opcda_access_adapter.Prelude.{
  ℕ, zero, suc, ◌≡◌, refl, sym, ap, ◌∙◌, Bool, inl, inr, Option, none, some, List, [], ◌∷◌, ◌++◌,
  append_assoc, if◌then◌else◌, Bool-cases,
}
use opcda_access_adapter.Subscription.Limits.{SubscriptionLimits}
use opcda_access_adapter.Subscription.State.{
  DataValue, MonitoredItemNotification, NotificationMessage, UaSubscription,
}
use opcda_access_adapter.Subscription.Queue.{IntSize, build_message, acknowledge_message}
use opcda_access_adapter.Subscription.Items.{collect}
use opcda_access_adapter.Subscription.Arrivals.{arrivals}

-- The numbers 1 to n.
abbrev pub first_numbers : ℕ → List ℕ
first_numbers zero = []
first_numbers (suc n) = first_numbers n ++ (suc n ∷ [])

module _ {X : Type 0} where
  abbrev pub sent_by : Option (NotificationMessage X) → List (NotificationMessage X)
  sent_by none = []
  sent_by (some m) = m ∷ []

  -- The notifications of messages, in their order.
  abbrev pub contents : List (NotificationMessage X) → List (MonitoredItemNotification X)
  contents [] = []
  contents (m ∷ ms) = m.notifications ++ contents ms

  -- The numbers of the messages that are not keep-alives.
  abbrev pub data_numbers : List (NotificationMessage X) → List ℕ
  data_numbers [] = []
  data_numbers (m ∷ ms) =
      if m.has_data then m.sequence_number ∷ data_numbers ms else data_numbers ms

  pub contents-append :
      (ms ns : List (NotificationMessage X)) → contents (ms ++ ns) ≡ contents ms ++ contents ns
  contents-append [] ns = refl
  contents-append (m ∷ ms) ns =
      ap (λ c. m.notifications ++ c) (contents-append ms ns)
      ∙ sym (append_assoc m.notifications (contents ms) (contents ns))

  pub data_numbers-append :
      (ms ns : List (NotificationMessage X))
      → data_numbers (ms ++ ns) ≡ data_numbers ms ++ data_numbers ns
  data_numbers-append [] ns = refl
  data_numbers-append (m ∷ ms) ns = elim (Bool-cases m.has_data) [
    | inl e ↦ rw e (ap (λ c. m.sequence_number ∷ c) (data_numbers-append ms ns))
    | inr e ↦ rw e (data_numbers-append ms ns)
  ]

  -- `Life l start sent arrived s`: from the subscription `start`, the messages `sent` were sent and
  -- the notifications `arrived` arrived, by what each collect finds, up to the subscription `s`. A
  -- cycle that panics ends the process, and so the life. The words of the source are of the type S.
  module _ {S : Type 0} (item_of : S → List ℕ) (data_value : S → ℕ → ℕ → DataValue X)
      (generation_of : List ℕ → ℕ) (size : IntSize) (l : SubscriptionLimits)
      (start : UaSubscription X) where
    pub data Life
        : List (NotificationMessage X)
          → List (MonitoredItemNotification X)
          → UaSubscription X
          → Type 0 where
      begun : Life [] [] start
      cycled :
          (sent : List (NotificationMessage X)) (arrived : List (MonitoredItemNotification X))
          (s : UaSubscription X) (now : ℕ) (b : Option (NotificationMessage X) × UaSubscription X)
          → Life sent arrived s
          → build_message size l s now ≡ some b
          → Life (sent ++ sent_by b.0) arrived b.1
      collected :
          (sent : List (NotificationMessage X)) (arrived : List (MonitoredItemNotification X))
          (s : UaSubscription X) (now : ℕ) (found : Option (Option (List S)))
          → Life sent arrived s
          → Life sent
              (arrived ++ arrivals item_of data_value generation_of now found s)
              (collect item_of data_value generation_of now found s)
      acknowledged :
          (sent : List (NotificationMessage X)) (arrived : List (MonitoredItemNotification X))
          (s : UaSubscription X) (number : ℕ)
          → Life sent arrived s
          → Life sent arrived (acknowledge_message number s).1
      switched :
          (sent : List (NotificationMessage X)) (arrived : List (MonitoredItemNotification X))
          (s : UaSubscription X) (enabled : Bool)
          → Life sent arrived s
          → Life sent arrived (record s { publishing_enabled = enabled })
