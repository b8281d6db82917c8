-- ===== src/Binary/Limits.antt =====
-- internal/opcua/binary.go: BinaryLimits. The fields are Go ints that a configuration sets; a
-- negative one is refused by the same test as a zero one, and is not represented.
use opcda_access_adapter.Prelude.{
  ℕ, ◌-◌, ◌*◌, ◌^◌, ◌≤◌, ◌<◌, ◌≡◌, ◌||◌, Option, none, some, arith, ltb, leb, if◌then◌else◌,
}
use opcda_access_adapter.Errors.{Error, plain}

abbrev pub minimum_nesting_depth : ℕ
minimum_nesting_depth = 100

abbrev pub max_int32 : ℕ
max_int32 = 2 ^ 31 - 1

pub record BinaryLimits : Type 0 where
  pub max_message_bytes : ℕ
  pub max_string_bytes : ℕ
  pub max_byte_string_bytes : ℕ
  pub max_array_length : ℕ
  pub max_nesting_depth : ℕ

unfoldable pub default_binary_limits : BinaryLimits
default_binary_limits = record {
  max_message_bytes = 2 * 2 ^ 20;
  max_string_bytes = 64 * 2 ^ 10;
  max_byte_string_bytes = 256 * 2 ^ 10;
  max_array_length = 4096;
  max_nesting_depth = minimum_nesting_depth;
}

-- `none` is Go's nil error.
unfoldable pub validate : BinaryLimits → Option Error
validate l =
    if leb l.max_message_bytes 0
      || leb l.max_string_bytes 0
      || leb l.max_byte_string_bytes 0
      || leb l.max_array_length 0
      || leb l.max_nesting_depth 0
    then some plain
    else if ltb l.max_nesting_depth minimum_nesting_depth
    then some plain
    else if ltb max_int32 l.max_message_bytes
        || ltb max_int32 l.max_string_bytes
        || ltb max_int32 l.max_byte_string_bytes
        || ltb max_int32 l.max_array_length
    then some plain
    else if ltb l.max_message_bytes l.max_string_bytes
        || ltb l.max_message_bytes l.max_byte_string_bytes
    then some plain
    else none

-- What the limits of a running codec satisfy.
pub record IsValid (l : BinaryLimits) : Type 0 where
  pub message_pos : 0 < l.max_message_bytes
  pub string_pos : 0 < l.max_string_bytes
  pub byte_string_pos : 0 < l.max_byte_string_bytes
  pub array_pos : 0 < l.max_array_length
  pub depth_floor : minimum_nesting_depth ≤ l.max_nesting_depth
  pub message_fits : l.max_message_bytes < 2 ^ 31
  pub array_fits : l.max_array_length < 2 ^ 31
  pub string_within : l.max_string_bytes ≤ l.max_message_bytes
  pub byte_string_within : l.max_byte_string_bytes ≤ l.max_message_bytes

pub validate-IsValid : (l : BinaryLimits) → validate l ≡ none → IsValid l
unfolding validate
validate-IsValid l h = ground arith

pub IsValid-validate : (l : BinaryLimits) → IsValid l → validate l ≡ none
unfolding validate
IsValid-validate l v = ground arith

pub default-IsValid : IsValid default_binary_limits
unfolding default_binary_limits
default-IsValid = omega arith
