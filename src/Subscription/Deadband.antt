-- ===== src/Subscription/Deadband.antt =====
-- internal/opcua/deadband.go: the filter of a monitored item. A float64 is its bit pattern, and its
-- comparisons are those of IEEE 754 on patterns: a NaN is neither below nor above anything. The
-- conversion of the accepted value to a float32 is not modelled: the float64 stands for it.
use opcda_access_adapter.Prelude.{
  ℕ, ◌%◌, ◌^◌, ◌≤◌, ◌<◌, ◌≡◌, ◌↔◌, ◌⊎◌, Bool, not, ◌||◌, ◌&&◌, ltb, leb, ◌==◌, if◌then◌else◌, arith,
}
use opcda_access_adapter.Errors.{Result, ok, err}
use opcda_access_adapter.Binary.Limits.{BinaryLimits}
use opcda_access_adapter.Binary.Decoder.{
  Decoder, Reader, Reading, got, failed, ◌>>=◌, give, new_decoder, read_uint32, read_double,
}
use opcda_access_adapter.NodeId.{is_null, is_numeric}
use opcda_access_adapter.Structures.{ExtensionObject}

abbrev pub filter_encoding_default_binary : ℕ
filter_encoding_default_binary = 724

abbrev pub trigger_status : ℕ
trigger_status = 0

abbrev pub trigger_status_value : ℕ
trigger_status_value = 1

abbrev pub deadband_none : ℕ
deadband_none = 0

abbrev pub deadband_percent : ℕ
deadband_percent = 2

abbrev pub status_bad_filter_unsupported : ℕ
status_bad_filter_unsupported = 0x8044_0000

abbrev pub status_bad_deadband_filter_invalid : ℕ
status_bad_deadband_filter_invalid = 0x808e_0000

pub record DataChangeFilter : Type 0 where
  pub trigger : ℕ
  pub deadband_type : ℕ
  pub deadband_value : ℕ

unfoldable pub read_data_change_filter : Reader DataChangeFilter
read_data_change_filter = do
  trigger ← read_uint32
  deadband_type ← read_uint32
  deadband_value ← read_double
  give
      (record { trigger = trigger; deadband_type = deadband_type; deadband_value = deadband_value })

-- The pattern of infinity; what is above it, without the sign, is a NaN.
abbrev pub infinity_bits : ℕ
infinity_bits = 0x7ff0_0000_0000_0000

abbrev pub hundred_bits : ℕ
hundred_bits = 0x4059_0000_0000_0000

abbrev pub sign_bit : ℕ
sign_bit = 0x8000_0000_0000_0000

-- `value < 0`
abbrev pub below_zero : ℕ → Bool
below_zero w = ltb sign_bit w && leb w (0xfff0_0000_0000_0000)

-- `value > 100`
abbrev pub above_hundred : ℕ → Bool
above_hundred w = ltb hundred_bits w && leb w infinity_bits

-- The two switches: the deadband, and the status.
unfoldable pub judge_filter : DataChangeFilter → ℕ × ℕ
judge_filter f =
    if not ((f.trigger == trigger_status) || (f.trigger == trigger_status_value))
    then (0, status_bad_filter_unsupported)
    else if f.deadband_type == deadband_none
    then (0, 0)
    else if f.deadband_type == deadband_percent
    then if below_zero f.deadband_value || above_hundred f.deadband_value
      then (0, status_bad_deadband_filter_invalid)
      else (f.deadband_value, 0)
    else (0, status_bad_filter_unsupported)

abbrev pub judge_reading : Reading DataChangeFilter → ℕ × ℕ
judge_reading (failed e d) = (0, status_bad_filter_unsupported)
judge_reading (got f d) = judge_filter f

abbrev pub judge_body : Result Decoder → ℕ × ℕ
judge_body (err e) = (0, status_bad_filter_unsupported)
judge_body (ok d) = judge_reading (read_data_change_filter d)

unfoldable pub deadband_for_filter : ExtensionObject → BinaryLimits → ℕ × ℕ
unfolding read_data_change_filter judge_filter
deadband_for_filter filter l =
    if is_null filter.type_id
    then (0, 0)
    else if not (filter.type_id.namespace == 0)
        || not (is_numeric filter.type_id.type)
        || not (filter.type_id.numeric_id == filter_encoding_default_binary)
    then (0, status_bad_filter_unsupported)
    else judge_body (new_decoder filter.body l)

-- A filter is accepted exactly if it is triggered by the status, or by status and value, and it asks for no
-- deadband, or for one in percent that is at least 0 and at most 100, or is a negative zero, or is
-- no number at all; for a pattern of 64 bits.
pub judge_filter_accepts :
    (f : DataChangeFilter)
    → f.deadband_value < 2 ^ 64
    → ((judge_filter f).1 ≡ 0) ↔ (
        ((f.trigger ≡ trigger_status) ⊎ (f.trigger ≡ trigger_status_value))
        × ((f.deadband_type ≡ deadband_none)
            ⊎ ((f.deadband_type ≡ deadband_percent)
                × ((f.deadband_value ≤ hundred_bits)
                    ⊎ ((f.deadband_value ≡ sign_bit)
                        ⊎ (infinity_bits < f.deadband_value % sign_bit))))))
unfolding judge_filter
judge_filter_accepts f h = (grind arith, grind arith)
