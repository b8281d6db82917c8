-- ===== src/DateTime.antt =====
-- internal/opcua/datetime.go: the DateTime of OPC 10000-6 5.2.2.5. A time.Time is its Unix seconds
-- and the nanoseconds within the second; an int64 is an integer.
pub mod Laws
use opcda_access_adapter.Prelude.{
  ℕ, ◌+◌, ◌-◌, ◌*◌, ◌/◌, ◌%◌, ◌^◌, ◌<◌, Bool, true, false, ◌&&◌, ◌||◌, not, ltb, leb, ◌==◌,
  if◌then◌else◌,
}
use opcda_access_adapter.Prelude.Int.{ℤ, pos, negsuc, ◌+ℤ◌, ◌-ℤ◌, scale, ltb_ℤ, leb_ℤ}
use opcda_access_adapter.Binary.Encoder.{Encoder, write_int64}
use opcda_access_adapter.Binary.Decoder.{Reader, ◌>>=◌, give, read_int64}

abbrev pub ticks_per_second : ℕ
ticks_per_second = 10_000_000

abbrev pub epoch_offset_seconds : ℕ
epoch_offset_seconds = 11_644_473_600

abbrev pub date_time_min : ℤ
date_time_min = pos 0

abbrev pub date_time_max : ℤ
date_time_max = pos (2 ^ 63 - 1)

pub record Instant : Type 0 where
  pub seconds : ℤ
  pub nanosecond : ℕ

-- 1601-01-01T00:00:00Z
abbrev pub lower_bound : Instant
lower_bound = record { seconds = negsuc 11_644_473_599; nanosecond = 0 }

-- 9999-12-31T23:59:59Z
abbrev pub upper_bound : Instant
upper_bound = record { seconds = pos 253_402_300_799; nanosecond = 0 }

abbrev pub before : Instant → Instant → Bool
before a b =
    ltb_ℤ a.seconds b.seconds || (leb_ℤ a.seconds b.seconds && ltb a.nanosecond b.nanosecond)

abbrev pub after : Instant → Instant → Bool
after a b = before b a

unfoldable pub encode_date_time : Instant → ℤ
encode_date_time value =
    if not (after value lower_bound)
    then date_time_min
    else if not (before value upper_bound)
    then date_time_max
    else scale ticks_per_second (value.seconds +ℤ pos epoch_offset_seconds)
      +ℤ pos (value.nanosecond / 100)

-- time.Unix on positive ticks, and the bound above.
unfoldable pub decode_positive : ℕ → Instant
decode_positive ticks =
    let decoded : Instant = record {
      seconds = pos (ticks / ticks_per_second) -ℤ pos epoch_offset_seconds;
      nanosecond = ticks % ticks_per_second * 100;
    } in
    if after decoded upper_bound then upper_bound else decoded

unfoldable pub decode_date_time : ℤ → Instant
unfolding decode_positive
decode_date_time (negsuc n) = lower_bound
decode_date_time (pos n) =
    if leb n 0 then lower_bound else if n == 2 ^ 63 - 1 then upper_bound else decode_positive n

unfoldable pub write_date_time : Instant → Encoder → Encoder
write_date_time value = write_int64 (encode_date_time value)

unfoldable pub read_date_time : Reader Instant
read_date_time = do raw ← read_int64; give (decode_date_time raw)
