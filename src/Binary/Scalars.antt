-- ===== src/Binary/Scalars.antt =====
-- What the scalar methods of the decoder of internal/opcua/binary.go read back from the bytes that
-- the methods of the encoder append.
use opcda_access_adapter.Prelude.{ℕ, ◌^◌, ◌<◌, ◌≡◌, refl, [], ◌∷◌, length}
use opcda_access_adapter.Prelude.Int.{
  ℤ, word, signed, IsInt32, IsInt64, word-lt_32, word-lt_64, signed-word_32, signed-word_64,
}
use opcda_access_adapter.Prelude.Bytes.{le, length-le, un_le, un_le-le}
use opcda_access_adapter.Binary.Limits.{BinaryLimits}
use opcda_access_adapter.Binary.Encoder.{Guid}
use opcda_access_adapter.Binary.Decoder.{
  first, give, ◌>>=◌, take_bytes, read_byte_value, read_uint16, read_uint32, read_int32,
  read_uint64, read_int64, read_float, read_double, read_status_code, read_guid,
}
use opcda_access_adapter.Binary.Reads.{Reads, Reads-take, Reads-map, Reads-eq, Reads-bind}
use opcda_access_adapter.Binary.Writes.{guid_wire}

-- The ranges of the fields of a Guid.
abbrev pub IsGuid : Guid → Type 0
IsGuid g = (g.data1 < 2 ^ 32) × (g.data2 < 2 ^ 16) × (g.data3 < 2 ^ 16) × (length g.data4 ≡ 8)

module _ {l : BinaryLimits} where
  pub Reads-byte : (n : ℕ) → Reads l read_byte_value (n ∷ []) n
  unfolding read_byte_value
  Reads-byte n = Reads-map first (Reads-take (n ∷ []) 1 refl)

  Reads-le : (k n : ℕ) → n < 256 ^ k → Reads l (do raw ← take_bytes k; give (un_le raw)) (le k n) n
  Reads-le k n h =
      Reads-eq refl (un_le-le k n h) (Reads-map un_le (Reads-take (le k n) k (length-le k n)))

  pub Reads-uint16 : (n : ℕ) → n < 2 ^ 16 → Reads l read_uint16 (le 2 n) n
  unfolding read_uint16
  Reads-uint16 n h = Reads-le 2 n h

  pub Reads-uint32 : (n : ℕ) → n < 2 ^ 32 → Reads l read_uint32 (le 4 n) n
  unfolding read_uint32
  Reads-uint32 n h = Reads-le 4 n h

  pub Reads-uint64 : (n : ℕ) → n < 2 ^ 64 → Reads l read_uint64 (le 8 n) n
  unfolding read_uint64
  Reads-uint64 n h = Reads-le 8 n h

  pub Reads-int32 : (z : ℤ) → IsInt32 z → Reads l read_int32 (le 4 (word 32 z)) z
  unfolding read_int32
  Reads-int32 z h =
      Reads-eq refl (signed-word_32 z h)
        (Reads-map (signed 32) (Reads-uint32 (word 32 z) (word-lt_32 z)))

  pub Reads-int64 : (z : ℤ) → IsInt64 z → Reads l read_int64 (le 8 (word 64 z)) z
  unfolding read_int64
  Reads-int64 z h =
      Reads-eq refl (signed-word_64 z h)
        (Reads-map (signed 64) (Reads-uint64 (word 64 z) (word-lt_64 z)))

  pub Reads-double : (n : ℕ) → n < 2 ^ 64 → Reads l read_double (le 8 n) n
  unfolding read_double
  Reads-double n h = Reads-map (λ x. x) (Reads-uint64 n h)

  pub Reads-float : (n : ℕ) → n < 2 ^ 32 → Reads l read_float (le 4 n) n
  unfolding read_float
  Reads-float n h = Reads-map (λ x. x) (Reads-uint32 n h)

  pub Reads-status_code : (n : ℕ) → n < 2 ^ 32 → Reads l read_status_code (le 4 n) n
  unfolding read_status_code
  Reads-status_code n h = Reads-map (λ x. x) (Reads-uint32 n h)

  pub Reads-guid : (g : Guid) → IsGuid g → Reads l read_guid (guid_wire g) g
  unfolding read_guid
  Reads-guid g (ha, hb, hc, hd) = Reads-bind _ (Reads-uint32 g.data1 ha) (
      Reads-bind _ (Reads-uint16 g.data2 hb)
        (Reads-bind _ (Reads-uint16 g.data3 hc) (Reads-map _ (Reads-take g.data4 8 hd))))
