-- ===== src/Da/Pending.antt =====
-- internal/opcda/subscribe.go: pendingUpdates, the coalescing set of one subscription. A handle is a
-- UInt32, a value is of any type V, and so is the error that invalidates the set. The lock makes
-- every call one step.
use opcda_access_adapter.Prelude.{
  ℕ, Bool, true, false, Option, none, some, List, [], ◌∷◌, ◌++◌, ◌==◌, length, if◌then◌else◌,
}
use opcda_access_adapter.Prelude.Dict.{Dict, lookup, insert}

-- `notified` is the channel of capacity 1, and `closed` is the done channel as well, which is closed
-- right behind the flag.
pub record PendingUpdates {ℓ κ} (V : Type ℓ) (E : Type κ) : Type (ℓ ⊔ κ) where
  pub order : List ℕ
  pub latest : Dict V
  pub notified : Bool
  pub failure : Option E
  pub closed : Bool

module _ {ℓ} {V : Type ℓ} where
  -- `if _, exists := latest[handle]; !exists { order = append(order, handle) }`
  abbrev pub see : ℕ → Option V → List ℕ → List ℕ
  see handle none order = order ++ (handle ∷ [])
  see handle (some v) order = order

  -- `latest[handle]`, the zero value where there is none.
  abbrev pub value_or : V → Option V → V
  value_or z none = z
  value_or z (some v) = v

  abbrev pub values_of : V → List ℕ → Dict V → List V
  values_of z [] d = []
  values_of z (handle ∷ order) d = value_or z (lookup handle d) ∷ values_of z order d

module _ {ℓ κ} {V : Type ℓ} {E : Type κ} where
  unfoldable pub new_pending_updates : PendingUpdates V E
  new_pending_updates = record {
    order = [];
    latest = [];
    notified = false;
    failure = none;
    closed = false;
  }

  unfoldable pub merge_entry : ℕ → V → PendingUpdates V E → PendingUpdates V E
  merge_entry handle value p = record p {
    order = see handle (lookup handle p.latest) p.order;
    latest = insert handle value p.latest;
  }

  -- The loop over the batch. The two slices, which are of one length, are one list of pairs.
  unfoldable pub merge_entries : List (ℕ × V) → PendingUpdates V E → PendingUpdates V E
  unfolding merge_entry
  merge_entries [] p = p
  merge_entries ((handle, value) ∷ batch) p = merge_entries batch (merge_entry handle value p)

  -- The send on the channel, which is dropped where the channel is full.
  abbrev pub notify : PendingUpdates V E → PendingUpdates V E
  notify p = if length p.latest == 0 then p else record p { notified = true }

  unfoldable pub merge : List (ℕ × V) → PendingUpdates V E → PendingUpdates V E
  unfolding merge_entries
  merge [] p = p
  merge ((handle, value) ∷ batch) p =
      if p.closed then p else notify (merge_entries ((handle, value) ∷ batch) p)

  -- The batch, where the empty one is Go's nil.
  unfoldable pub drain : V → PendingUpdates V E → List V × PendingUpdates V E
  drain z p =
      if length p.order == 0
      then ([], p)
      else (values_of z p.order p.latest, record p { order = []; latest = [] })

  unfoldable pub invalidate : E → PendingUpdates V E → PendingUpdates V E
  invalidate e p =
      if p.closed then p else record p { closed = true; failure = some e; order = []; latest = [] }

  abbrev pub size : PendingUpdates V E → ℕ
  size p = length p.order
