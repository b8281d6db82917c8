-- ===== src/DateTime/Laws.antt =====
-- The saturation, the range and the round trips of internal/opcua/datetime.go.
use opcda_access_adapter.Prelude.{ℕ, ◌*◌, ◌/◌, ◌^◌, ◌<◌, ◌≡◌, refl, not, if◌then◌else◌, arith}
use opcda_access_adapter.Prelude.Int.{ℤ, pos, negsuc, pos_part, neg_part, ◌+ℤ◌, ◌-ℤ◌, scale, word}
use opcda_access_adapter.Prelude.Bytes.{le}
use opcda_access_adapter.Binary.Limits.{BinaryLimits}
use opcda_access_adapter.Binary.Emits.{Emits}
use opcda_access_adapter.Binary.Reads.{Reads, Reads-map, Reads-eq}
use opcda_access_adapter.Binary.Scalars.{Reads-int64}
use opcda_access_adapter.Binary.Writes.{Emits-int64}
use opcda_access_adapter.DateTime.{
  Instant, lower_bound, upper_bound, before, after, encode_date_time, decode_date_time,
  write_date_time, read_date_time,
}

-- The instant that a time comes back as: the bounds outside the range, and whole ticks inside.
abbrev pub saturate : Instant → Instant
saturate t =
    if not (after t lower_bound)
    then lower_bound
    else if not (before t upper_bound)
    then upper_bound
    else record t { nanosecond = t.nanosecond / 100 * 100 }

abbrev at : ℤ → ℕ → Instant
at z k = record { seconds = z; nanosecond = k }

decode-encode_at :
    (z : ℤ) (k : ℕ) → k < 10 ^ 9 → decode_date_time (encode_date_time (at z k)) ≡ saturate (at z k)
unfolding encode_date_time decode_date_time ◌+ℤ◌ ◌-ℤ◌ scale
decode-encode_at (pos s) k h = ground arith
decode-encode_at (negsuc s) k h = ground arith

-- Decoding what was encoded gives the instant back in whole ticks of 100 ns, and the nearer bound
-- for an instant at or outside the bounds.
pub decode-encode :
    (t : Instant) → t.nanosecond < 10 ^ 9 → decode_date_time (encode_date_time t) ≡ saturate t
decode-encode t h = decode-encode_at t.seconds t.nanosecond h

encode_range_at :
    (z : ℤ) (k : ℕ)
    → k < 10 ^ 9
    → (neg_part (encode_date_time (at z k)) ≡ 0) × (pos_part (encode_date_time (at z k)) < 2 ^ 63)
unfolding encode_date_time ◌+ℤ◌ scale
encode_range_at (pos s) k h = ground arith
encode_range_at (negsuc s) k h = ground arith

-- An encoded instant is never negative and fits an int64: the product does not overflow.
pub encode_range :
    (t : Instant)
    → t.nanosecond < 10 ^ 9
    → (neg_part (encode_date_time t) ≡ 0) × (pos_part (encode_date_time t) < 2 ^ 63)
encode_range t h = encode_range_at t.seconds t.nanosecond h

-- Encoding what was decoded gives the ticks back, for every count of ticks from 1601 up to the
-- last second of 9999.
pub encode-decode :
    (n : ℕ) → n < 2_650_467_743_990_000_000 → encode_date_time (decode_date_time (pos n)) ≡ pos n
unfolding encode_date_time decode_date_time ◌+ℤ◌ ◌-ℤ◌ scale
encode-decode n h = ground arith

module _ {l : BinaryLimits} where
  pub Emits-date_time :
      (t : Instant) → Emits l (write_date_time t) (le 8 (word 64 (encode_date_time t))) (Unit {0})
  unfolding write_date_time
  Emits-date_time t = Emits-int64 (encode_date_time t)

  pub Reads-date_time :
      (t : Instant)
      → t.nanosecond < 10 ^ 9
      → Reads l read_date_time (le 8 (word 64 (encode_date_time t))) (saturate t)
  unfolding read_date_time
  Reads-date_time t h = Reads-eq refl (decode-encode t h) (
      Reads-map decode_date_time
        (Reads-int64 (encode_date_time t) (omega (arith, encode_range t h))))
