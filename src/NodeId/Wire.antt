-- ===== src/NodeId/Wire.antt =====
-- The bytes that WriteNodeID of internal/opcua/nodeid.go appends: the encodings of OPC 10000-6
-- clause 5.2.2.9, Tables 16 to 18.
use opcda_access_adapter.Prelude.{
  ℕ, ◌%◌, ◌^◌, ◌≤◌, ◌&&◌, List, [], ◌∷◌, ◌++◌, leb, ◌==◌, bit_or, arith, if◌then◌else◌, length,
  Bool-cases, inl, inr,
}
use opcda_access_adapter.Prelude.Bytes.{le}
use opcda_access_adapter.Errors.{encoding_error}
use opcda_access_adapter.Binary.Limits.{BinaryLimits, IsValid}
use opcda_access_adapter.Binary.Encoder.{fail}
use opcda_access_adapter.Binary.Emits.{Emits}
use opcda_access_adapter.Binary.Writes.{
  Emits-after, Emits-byte, Emits-uint16, Emits-uint32, Emits-string, Emits-byte_string, Emits-guid,
  string_wire, guid_wire,
}
use opcda_access_adapter.NodeId.{
  NodeId, NodeIdType, numeric, string, guid, opaque, undefined, write_numeric, write_identifier,
  write_node_id_with_flags, write_node_id,
}

-- The two-byte, the four-byte and the full form of a numeric identifier; the short ones carry no flag.
unfoldable pub numeric_wire : NodeId → ℕ → List ℕ
numeric_wire n flags =
    if (flags == 0) && (n.namespace == 0) && leb n.numeric_id 0xff
    then (0x00 ∷ []) ++ (n.numeric_id % 2 ^ 8) ∷ []
    else if (flags == 0) && leb n.namespace 0xff && leb n.numeric_id 0xffff
    then (0x01 ∷ []) ++ (((n.namespace % 2 ^ 8) ∷ []) ++ le 2 (n.numeric_id % 2 ^ 16))
    else (bit_or 0x02 flags ∷ []) ++ (le 2 n.namespace ++ le 4 n.numeric_id)

unfoldable pub identifier_wire : NodeIdType → NodeId → ℕ → List ℕ
unfolding numeric_wire
identifier_wire numeric n flags = numeric_wire n flags
identifier_wire string n flags =
    (bit_or 0x03 flags ∷ []) ++ (le 2 n.namespace ++ string_wire n.string_id)
identifier_wire guid n flags = (bit_or 0x04 flags ∷ []) ++ (le 2 n.namespace ++ guid_wire n.guid_id)
identifier_wire opaque n flags =
    (bit_or 0x05 flags ∷ []) ++ (le 2 n.namespace ++ string_wire n.opaque_id)
identifier_wire (undefined t) n flags = []

-- An identifier that the encoder accepts under the limits.
abbrev pub IdentifierFits : BinaryLimits → NodeIdType → NodeId → Type 0
IdentifierFits l numeric n = Unit {0}
IdentifierFits l string n = length n.string_id ≤ l.max_string_bytes
IdentifierFits l guid n = Unit {0}
IdentifierFits l opaque n = length n.opaque_id ≤ l.max_byte_string_bytes
IdentifierFits l (undefined t) n = ⊥

module _ {l : BinaryLimits} where
  Emits-numeric :
      (n : NodeId) (flags : ℕ) → Emits l (write_numeric n flags) (numeric_wire n flags) (Unit {0})
  unfolding write_numeric numeric_wire
  Emits-numeric n flags =
      elim (Bool-cases ((flags == 0) && (n.namespace == 0) && leb n.numeric_id 0xff)) [
        | inl h ↦ rw h (Emits-after (Emits-byte 0x00) (Emits-byte (n.numeric_id % 2 ^ 8)))
        | inr h ↦
            rw h
              (elim (Bool-cases ((flags == 0) && leb n.namespace 0xff && leb n.numeric_id 0xffff)) [
                | inl k ↦ rw k (
                    Emits-after (Emits-byte 0x01) (
                      Emits-after (Emits-byte (n.namespace % 2 ^ 8))
                        (Emits-uint16 (n.numeric_id % 2 ^ 16))))
                | inr k ↦ rw k (
                    Emits-after (Emits-byte (bit_or 0x02 flags))
                      (Emits-after (Emits-uint16 n.namespace) (Emits-uint32 n.numeric_id)))
              ])
      ]

  Emits-undefined : Emits l (fail encoding_error) [] ⊥
  unfolding fail
  Emits-undefined = record {
    sticky = λ e x h. ground arith;
    emits = λ e hl hf c fits. absurd c;
    only_if = λ e hl hf hb. rw (hf, fail) (λ h. cc);
  }

  Emits-identifier :
      (v : IsValid l) (t : NodeIdType) (n : NodeId) (flags : ℕ)
      → Emits l (write_identifier t n flags) (identifier_wire t n flags) (IdentifierFits l t n)
  unfolding write_identifier identifier_wire
  Emits-identifier v numeric n flags = Emits-numeric n flags
  Emits-identifier v string n flags =
      Emits-after (Emits-byte (bit_or 0x03 flags))
        (Emits-after (Emits-uint16 n.namespace) (Emits-string v n.string_id))
  Emits-identifier v guid n flags =
      Emits-after (Emits-byte (bit_or 0x04 flags))
        (Emits-after (Emits-uint16 n.namespace) (Emits-guid n.guid_id))
  Emits-identifier v opaque n flags =
      Emits-after (Emits-byte (bit_or 0x05 flags))
        (Emits-after (Emits-uint16 n.namespace) (Emits-byte_string v n.opaque_id))
  Emits-identifier v (undefined t) n flags = Emits-undefined

  pub Emits-node_flags :
      (v : IsValid l) (n : NodeId) (flags : ℕ)
      → Emits l
          (write_node_id_with_flags n flags)
          (identifier_wire n.type n flags)
          (IdentifierFits l n.type n)
  unfolding write_node_id_with_flags
  Emits-node_flags v n flags = Emits-identifier v n.type n flags

  pub Emits-node :
      (v : IsValid l) (n : NodeId)
      → Emits l (write_node_id n) (identifier_wire n.type n 0) (IdentifierFits l n.type n)
  unfolding write_node_id
  Emits-node v n = Emits-node_flags v n 0
