-- ===== src/Examples/Da.antt =====
-- internal/opcda: the theorems at concrete values.
use opcda_access_adapter.Prelude.{
  ℕ, ◌+◌, ◌*◌, ◌/◌, ◌≤◌, ◌<◌, ◌≡◌, ◌≢◌, refl, ◌↔◌, false, none, List, [], ◌∷◌, length, arith,
}
use opcda_access_adapter.Prelude.Int.{pos}
use opcda_access_adapter.Da.Pending.{PendingUpdates, drain}
use opcda_access_adapter.Da.Coalesce.{firsts, handles, newest_values, concat}
use opcda_access_adapter.Da.PendingLaws.{IsEmpty, merge_all, drain-merge_all}
use opcda_access_adapter.Da.Backoff.{reconnect_delay}
use opcda_access_adapter.Da.BackoffLaws.{backoff, reconnect_delay_bounds}
use opcda_access_adapter.Da.Arrays.{DaDimension, passed, matches_its_shape}
use opcda_access_adapter.Da.ArrayLaws.{AllLong, volume, matches_its_shape_exactly}

abbrev empty : PendingUpdates ℕ ℕ
empty = record { order = []; latest = []; notified = false; failure = none; closed = false }

-- Two callbacks of the source; the handle 4 changes in both.
abbrev batches : List (List (ℕ × ℕ))
batches = ((4, 10) ∷ (3, 20) ∷ []) ∷ ((4, 30) ∷ []) ∷ []

empty_is : IsEmpty empty
empty_is = record { no_order = refl; no_latest = refl; open_set = refl }

drain-merge_all_example :
    ((drain 0 (merge_all batches empty)).0
      ≡ newest_values 0 (concat batches) (firsts [] (handles (concat batches))))
    × IsEmpty (drain 0 (merge_all batches empty)).1
drain-merge_all_example = drain-merge_all 0 empty batches empty_is

abbrev second : ℕ
second = 1_000_000_000

abbrev delay : ℕ
delay = reconnect_delay 3 second (60 * second) 17

reconnect_delay_bounds_example :
    (0 < delay)
    × (delay ≤ 60 * second)
    × (backoff 3 second (60 * second) / 1000 * 800 ≤ delay)
    × (delay ≤ backoff 3 second (60 * second) + backoff 3 second (60 * second) / 1000 * 200)
reconnect_delay_bounds_example =
    reconnect_delay_bounds 3 second (60 * second) 17 (omega arith) (omega arith)

-- Two rows of three elements.
abbrev rows : List DaDimension
rows = record { lower_bound = pos 0; length = 2 } ∷ record { lower_bound = pos 1; length = 3 } ∷ []

abbrev six : List ℕ
six = 1 ∷ 2 ∷ 3 ∷ 4 ∷ 5 ∷ 6 ∷ []

matches_its_shape_exactly_example :
    (matches_its_shape rows six ≡ passed tt)
    ↔ ((rows ≢ []) × AllLong rows × (volume rows ≡ length six))
matches_its_shape_exactly_example =
    matches_its_shape_exactly rows six (omega arith) (omega arith, (omega arith, tt))
