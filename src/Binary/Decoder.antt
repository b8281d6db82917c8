-- ===== src/Binary/Decoder.antt =====
-- internal/opcua/binary.go: Decoder. A method takes the decoder and answers a `Reading`: the value
-- or the error, and the decoder as the call leaves it, on an error too. `>>=` is the early return
-- of `if err != nil`. A null String or ByteString is `none`, Go's ("", true, nil).
use opcda_access_adapter.Prelude.{
  ℕ, suc, ◌+◌, ◌-◌, ◌*◌, Bool, true, false, not, Option, none, some, List, [], ◌∷◌, ltb, leb, ◌==◌,
  if◌then◌else◌, length, take, drop, zero, ◌&&◌,
}
use opcda_access_adapter.Prelude.Int.{ℤ, pos, negsuc, signed}
use opcda_access_adapter.Prelude.Bytes.{un_le}
use opcda_access_adapter.Errors.{Error, Result, ok, err, decoding_error, limits_error}
use opcda_access_adapter.Binary.Limits.{BinaryLimits, validate}
use opcda_access_adapter.Binary.Encoder.{Guid}

pub record Decoder : Type 0 where
  pub buffer : List ℕ
  pub offset : ℕ
  pub limits : BinaryLimits
  pub depth : ℕ

pub data Reading {ℓ} (A : Type ℓ) : Type ℓ where
  got : A → Decoder → Reading A
  failed : Error → Decoder → Reading A

abbrev pub Reader {ℓ} : Type ℓ → Type ℓ
Reader A = Decoder → Reading A

abbrev pub and_then {ℓ κ} : {A : Type ℓ} {B : Type κ} → Reading A → (A → Reader B) → Reading B
and_then (got a d) f = f a d
and_then (failed e d) f = failed e d

infixl 5 ◌>>=◌
abbrev pub ◌>>=◌ {ℓ κ} : {A : Type ℓ} {B : Type κ} → Reader A → (A → Reader B) → Reader B
◌>>=◌ m f d = and_then (m d) f

abbrev pub give {ℓ} : {A : Type ℓ} → A → Reader A
give a d = got a d

abbrev pub give_up {ℓ} : {A : Type ℓ} → Error → Reader A
give_up e d = failed e d

-- `if test { return error }`
abbrev pub unless : Bool → Error → Reader (Unit {0})
unless true e d = failed e d
unless false e d = got tt d

unfoldable pub new_decoder : List ℕ → BinaryLimits → Result Decoder
new_decoder input l = elim (validate l) [
  | some e ↦ err e
  | none ↦
      if ltb l.max_message_bytes (length input)
      then err limits_error
      else ok (record { buffer = input; offset = 0; limits = l; depth = 0 })
]

unfoldable pub remaining : Decoder → ℕ
remaining d = length d.buffer - d.offset

unfoldable pub done : Decoder → Bool
unfolding remaining
done d = remaining d == 0

-- `count < 0` cannot hold of a number; the slice is buffer[start:start+count].
unfoldable pub take_bytes : ℕ → Reader (List ℕ)
unfolding remaining
take_bytes count d =
    if ltb (remaining d) count
    then failed decoding_error d
    else got (take count (drop d.offset d.buffer)) (record d { offset = d.offset + count })

-- raw[0]
abbrev pub first : List ℕ → ℕ
first [] = 0
first (b ∷ bs) = b

unfoldable pub read_boolean : Reader Bool
read_boolean = do raw ← take_bytes 1; give (not (first raw == 0))

unfoldable pub read_sbyte : Reader ℤ
read_sbyte = do raw ← take_bytes 1; give (signed 8 (first raw))

unfoldable pub read_byte_value : Reader ℕ
read_byte_value = do raw ← take_bytes 1; give (first raw)

unfoldable pub read_uint16 : Reader ℕ
read_uint16 = do raw ← take_bytes 2; give (un_le raw)

unfoldable pub read_int16 : Reader ℤ
read_int16 = do value ← read_uint16; give (signed 16 value)

unfoldable pub read_uint32 : Reader ℕ
read_uint32 = do raw ← take_bytes 4; give (un_le raw)

unfoldable pub read_int32 : Reader ℤ
read_int32 = do value ← read_uint32; give (signed 32 value)

unfoldable pub read_uint64 : Reader ℕ
read_uint64 = do raw ← take_bytes 8; give (un_le raw)

unfoldable pub read_int64 : Reader ℤ
read_int64 = do value ← read_uint64; give (signed 64 value)

-- A float is its bit pattern.
unfoldable pub read_float : Reader ℕ
read_float = do value ← read_uint32; give value

unfoldable pub read_double : Reader ℕ
read_double = do value ← read_uint64; give value

unfoldable pub read_status_code : Reader ℕ
read_status_code = do value ← read_uint32; give value

-- What the decoded Int32 of a length prefix means: `none` for null, else a checked length.
unfoldable pub check_length : ℕ → ℤ → Reader (Option ℕ)
check_length bound (negsuc zero) d = got none d
check_length bound (negsuc (suc n)) d = failed decoding_error d
check_length bound (pos n) d = if ltb bound n then failed limits_error d else got (some n) d

unfoldable pub read_length : ℕ → Reader (Option ℕ)
unfolding check_length
read_length bound = do raw ← read_int32; check_length bound raw

-- The bytes of a value whose length prefix has been read.
unfoldable pub read_body : Option ℕ → Reader (Option (List ℕ))
read_body none = give none
read_body (some n) = do raw ← take_bytes n; give (some raw)

unfoldable pub read_string : Reader (Option (List ℕ))
unfolding read_body
read_string d = (do prefix ← read_length d.limits.max_string_bytes; read_body prefix) d

unfoldable pub read_byte_string : Reader (Option (List ℕ))
unfolding read_body
read_byte_string d = (do prefix ← read_length d.limits.max_byte_string_bytes; read_body prefix) d

unfoldable pub read_guid : Reader Guid
read_guid = do
  a ← read_uint32
  b ← read_uint16
  c ← read_uint16
  raw ← take_bytes 8
  give (record { data1 = a; data2 = b; data3 = c; data4 = raw })

-- The count against the bytes that are left, for elements of at least `element_bytes` bytes.
unfoldable pub check_elements : ℕ → Option ℕ → Reader (Option ℕ)
unfolding remaining
check_elements element_bytes none d = got none d
check_elements element_bytes (some n) d =
    if ltb 0 element_bytes && ltb (remaining d) (n * element_bytes)
    then failed decoding_error d
    else got (some n) d

unfoldable pub read_array_length : ℕ → Reader (Option ℕ)
unfolding check_elements
read_array_length element_bytes d =
    (do prefix ← read_length d.limits.max_array_length; check_elements element_bytes prefix) d

unfoldable pub enter : Reader (Unit {0})
enter d =
    if leb d.limits.max_nesting_depth d.depth
    then failed limits_error d
    else got tt (record d { depth = d.depth + 1 })

unfoldable pub leave : Decoder → Decoder
leave d = if ltb 0 d.depth then record d { depth = d.depth - 1 } else d
