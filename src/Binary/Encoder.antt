-- ===== src/Binary/Encoder.antt =====
-- internal/opcua/binary.go: Encoder. A method is a function from encoders to encoders, and `>>`
-- runs one after the other, as consecutive statements do. A Go string and a byte slice are lists of
-- bytes, an unsigned word is a number, and a float is its IEEE bit pattern.
use opcda_access_adapter.Prelude.{
  ℕ, ◌+◌, ◌-◌, ◌/◌, ◌%◌, ◌^◌, Bool, true, false, ◌&&◌, not, Option, none, some, List, [], ◌∷◌, ◌++◌,
  ltb, leb, ◌==◌, if◌then◌else◌, length,
}
use opcda_access_adapter.Prelude.Int.{ℤ, pos, negsuc, signed, word, ltb_ℤ, pos_part}
use opcda_access_adapter.Prelude.Bytes.{le}
use opcda_access_adapter.Errors.{Error, Result, ok, err, limits_error, encoding_error}
use opcda_access_adapter.Binary.Limits.{BinaryLimits, validate}

pub record Encoder : Type 0 where
  pub buffer : List ℕ
  pub limits : BinaryLimits
  pub depth : ℕ
  pub failure : Option Error

unfoldable pub new_encoder : BinaryLimits → Result Encoder
new_encoder l = elim (validate l) [
  | some e ↦ err e
  | none ↦ ok (record { buffer = []; limits = l; depth = 0; failure = none })
]

unfoldable pub bytes : Encoder → Result (List ℕ)
bytes e = elim e.failure [ some x ↦ err x | none ↦ ok e.buffer ]

unfoldable pub fail : Error → Encoder → Encoder
fail x e = elim e.failure [ some y ↦ e | none ↦ record e { failure = some x } ]

unfoldable pub write : List ℕ → Encoder → Encoder
unfolding fail
write chunk e = elim e.failure [
  | some y ↦ e
  | none ↦
      if ltb e.limits.max_message_bytes (length e.buffer + length chunk)
      then fail limits_error e
      else record e { buffer = e.buffer ++ chunk }
]

infixl 5 ◌>>◌
abbrev pub ◌>>◌ : (Encoder → Encoder) → (Encoder → Encoder) → Encoder → Encoder
◌>>◌ v w e = w (v e)

abbrev pub skip : Encoder → Encoder
skip e = e

unfoldable pub write_boolean : Bool → Encoder → Encoder
write_boolean true = write (1 ∷ [])
write_boolean false = write (0 ∷ [])

-- An int8 is given by its signed value; byte(value) is its two's complement.
unfoldable pub write_sbyte : ℤ → Encoder → Encoder
write_sbyte value = write (word 8 value ∷ [])

unfoldable pub write_byte_value : ℕ → Encoder → Encoder
write_byte_value value = write (value ∷ [])

unfoldable pub write_uint16 : ℕ → Encoder → Encoder
write_uint16 value = write (le 2 value)

unfoldable pub write_int16 : ℤ → Encoder → Encoder
write_int16 value = write_uint16 (word 16 value)

unfoldable pub write_uint32 : ℕ → Encoder → Encoder
write_uint32 value = write (le 4 value)

unfoldable pub write_int32 : ℤ → Encoder → Encoder
write_int32 value = write_uint32 (word 32 value)

unfoldable pub write_uint64 : ℕ → Encoder → Encoder
write_uint64 value = write (le 8 value)

unfoldable pub write_int64 : ℤ → Encoder → Encoder
write_int64 value = write_uint64 (word 64 value)

-- math.IsNaN on a bit pattern: all exponent bits set, and a mantissa that is not zero.
abbrev pub is_nan32 : ℕ → Bool
is_nan32 x = (x / 2 ^ 23 % 2 ^ 8 == 255) && not (x % 2 ^ 23 == 0)

abbrev pub is_nan64 : ℕ → Bool
is_nan64 x = (x / 2 ^ 52 % 2 ^ 11 == 2047) && not (x % 2 ^ 52 == 0)

abbrev pub quiet_nan32 : ℕ
quiet_nan32 = 0xffc0_0000

abbrev pub quiet_nan64 : ℕ
quiet_nan64 = 0xfff8_0000_0000_0000

unfoldable pub write_float : ℕ → Encoder → Encoder
write_float value = if is_nan32 value then write_uint32 quiet_nan32 else write_uint32 value

unfoldable pub write_double : ℕ → Encoder → Encoder
write_double value = if is_nan64 value then write_uint64 quiet_nan64 else write_uint64 value

unfoldable pub write_status_code : ℕ → Encoder → Encoder
write_status_code code = write_uint32 code

-- int32(n) for a Go int n that is not negative.
unfoldable pub narrow32 : ℕ → ℤ
narrow32 n = signed 32 (n % 2 ^ 32)

abbrev pub null_length : ℤ
null_length = negsuc 0

unfoldable pub write_string : List ℕ → Encoder → Encoder
write_string value e =
    if ltb e.limits.max_string_bytes (length value)
    then fail limits_error e
    else (write_int32 (narrow32 (length value)) >> write value) e

unfoldable pub write_null_string : Encoder → Encoder
write_null_string = write_int32 null_length

unfoldable pub write_optional_string : List ℕ → Encoder → Encoder
write_optional_string [] = write_null_string
write_optional_string (b ∷ bs) = write_string (b ∷ bs)

unfoldable pub write_byte_string : List ℕ → Encoder → Encoder
write_byte_string value e =
    if ltb e.limits.max_byte_string_bytes (length value)
    then fail limits_error e
    else (write_int32 (narrow32 (length value)) >> write value) e

unfoldable pub write_null_byte_string : Encoder → Encoder
write_null_byte_string = write_int32 null_length

pub record Guid : Type 0 where
  pub data1 : ℕ
  pub data2 : ℕ
  pub data3 : ℕ
  pub data4 : List ℕ

unfoldable pub write_guid : Guid → Encoder → Encoder
write_guid value = do
  write_uint32 value.data1
  write_uint16 value.data2
  write_uint16 value.data3
  write value.data4

unfoldable pub write_array_length : ℤ → Encoder → Encoder
write_array_length count e =
    if ltb_ℤ count (pos 0)
    then fail encoding_error e
    else if ltb e.limits.max_array_length (pos_part count)
    then fail limits_error e
    else write_int32 (narrow32 (pos_part count)) e

unfoldable pub write_null_array : Encoder → Encoder
write_null_array = write_int32 null_length

unfoldable pub enter : Encoder → Encoder
enter e = elim e.failure [
  | some y ↦ e
  | none ↦
      if leb e.limits.max_nesting_depth e.depth
      then fail limits_error e
      else record e { depth = e.depth + 1 }
]

unfoldable pub leave : Encoder → Encoder
leave e = if ltb 0 e.depth then record e { depth = e.depth - 1 } else e
