-- ===== src/Binary/Safety.antt =====
-- Every method of the decoder of internal/opcua/binary.go is steady: no input makes it read outside
-- the buffer. And no value that a length prefix announces is longer than its bound.
use opcda_access_adapter.Prelude.{ℕ, zero, suc, Option, none, some, arith}
use opcda_access_adapter.Prelude.Int.{ℤ, pos, negsuc}
use opcda_access_adapter.Binary.Decoder.{
  ◌>>=◌, read_byte_value, read_uint16, read_uint32, read_int32, read_uint64, read_int64, read_float,
  read_double, read_status_code, read_guid, read_boolean, read_sbyte, read_int16, read_length,
  check_length, read_body, read_string, read_byte_string, read_array_length, check_elements,
}
use opcda_access_adapter.Binary.Steady.{Steady, Steady-take, Steady-bind, Steady-give, Steady-look}

pub Steady-byte : Steady read_byte_value
unfolding read_byte_value
Steady-byte = Steady-bind (Steady-take 1) (λ _. Steady-give _)

pub Steady-boolean : Steady read_boolean
unfolding read_boolean
Steady-boolean = Steady-bind (Steady-take 1) (λ _. Steady-give _)

pub Steady-sbyte : Steady read_sbyte
unfolding read_sbyte
Steady-sbyte = Steady-bind (Steady-take 1) (λ _. Steady-give _)

pub Steady-uint16 : Steady read_uint16
unfolding read_uint16
Steady-uint16 = Steady-bind (Steady-take 2) (λ _. Steady-give _)

pub Steady-int16 : Steady read_int16
unfolding read_int16
Steady-int16 = Steady-bind Steady-uint16 (λ _. Steady-give _)

pub Steady-uint32 : Steady read_uint32
unfolding read_uint32
Steady-uint32 = Steady-bind (Steady-take 4) (λ _. Steady-give _)

pub Steady-int32 : Steady read_int32
unfolding read_int32
Steady-int32 = Steady-bind Steady-uint32 (λ _. Steady-give _)

pub Steady-uint64 : Steady read_uint64
unfolding read_uint64
Steady-uint64 = Steady-bind (Steady-take 8) (λ _. Steady-give _)

pub Steady-int64 : Steady read_int64
unfolding read_int64
Steady-int64 = Steady-bind Steady-uint64 (λ _. Steady-give _)

pub Steady-float : Steady read_float
unfolding read_float
Steady-float = Steady-bind Steady-uint32 (λ _. Steady-give _)

pub Steady-double : Steady read_double
unfolding read_double
Steady-double = Steady-bind Steady-uint64 (λ _. Steady-give _)

pub Steady-status_code : Steady read_status_code
unfolding read_status_code
Steady-status_code = Steady-bind Steady-uint32 (λ _. Steady-give _)

pub Steady-guid : Steady read_guid
unfolding read_guid
Steady-guid = Steady-bind Steady-uint32 λ _.
    Steady-bind Steady-uint16
      λ _. Steady-bind Steady-uint16 λ _. Steady-bind (Steady-take 8) λ _. Steady-give _

Steady-check_length : (bound : ℕ) (z : ℤ) → Steady (check_length bound z)
unfolding check_length
Steady-check_length bound (negsuc zero) = record { stays = λ d h. ground arith }
Steady-check_length bound (negsuc (suc n)) = record { stays = λ d h. ground arith }
Steady-check_length bound (pos n) = record { stays = λ d h. ground arith }

pub Steady-length : (bound : ℕ) → Steady (read_length bound)
unfolding read_length
Steady-length bound = Steady-bind Steady-int32 (Steady-check_length bound)

Steady-body : (o : Option ℕ) → Steady (read_body o)
unfolding read_body
Steady-body none = Steady-give none
Steady-body (some n) = Steady-bind (Steady-take n) (λ _. Steady-give _)

pub Steady-string : Steady read_string
unfolding read_string
Steady-string =
    Steady-look (λ d. d.limits.max_string_bytes) (λ k. do prefix ← read_length k; read_body prefix)
      (λ k. Steady-bind (Steady-length k) Steady-body)

pub Steady-byte_string : Steady read_byte_string
unfolding read_byte_string
Steady-byte_string =
    Steady-look (λ d. d.limits.max_byte_string_bytes)
      (λ k. do prefix ← read_length k; read_body prefix)
      (λ k. Steady-bind (Steady-length k) Steady-body)

Steady-elements : (k : ℕ) (o : Option ℕ) → Steady (check_elements k o)
unfolding check_elements
Steady-elements k none = record { stays = λ d h. ground arith }
Steady-elements k (some n) = record { stays = λ d h. ground arith }

pub Steady-array_length : (k : ℕ) → Steady (read_array_length k)
unfolding read_array_length
Steady-array_length k =
    Steady-look (λ d. d.limits.max_array_length)
      (λ bound. do prefix ← read_length bound; check_elements k prefix)
      (λ bound. Steady-bind (Steady-length bound) (Steady-elements k))
