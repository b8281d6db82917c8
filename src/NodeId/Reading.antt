-- ===== src/NodeId/Reading.antt =====
-- What ReadNodeID and ReadExpandedNodeID of internal/opcua/nodeid.go read back.
use opcda_access_adapter.Prelude.{
  ℕ, ◌%◌, ◌^◌, ◌≤◌, ◌<◌, ◌≡◌, refl, Bool, true, false, ◌&&◌, List, [], ◌∷◌, ◌++◌, leb, ◌==◌, bit_or,
  bit_and, arith, length, Bool-cases, inl, inr, append-nil,
}
use opcda_access_adapter.Prelude.Bytes.{le}
use opcda_access_adapter.Binary.Limits.{BinaryLimits, IsValid}
use opcda_access_adapter.Binary.Reads.{Reads, Reads-bind, Reads-map, Reads-eq, Reads-give}
use opcda_access_adapter.Binary.Scalars.{IsGuid, Reads-byte, Reads-uint16, Reads-uint32, Reads-guid}
use opcda_access_adapter.Binary.Texts.{Reads-string, Reads-byte_string, or_empty}
use opcda_access_adapter.Binary.Writes.{string_wire, guid_wire}
use opcda_access_adapter.NodeId.{
  NodeId, NodeIdType, numeric, string, guid, opaque, undefined, numeric_node_id, string_node_id,
  guid_node_id, opaque_node_id, read_identifier, read_node_id_with_flags, read_node_id,
  refuse_flags, expanded_flags, node_id_encoding_mask, node_id_flags_mask,
}
use opcda_access_adapter.NodeId.Wire.{identifier_wire, numeric_wire, IdentifierFits}

-- The ranges of the fields of a NodeID.
pub record IsNodeId (n : NodeId) : Type 0 where
  pub namespace_fits : n.namespace < 2 ^ 16
  pub numeric_fits : n.numeric_id < 2 ^ 32
  pub guid_fits : IsGuid n.guid_id

-- The node with the fields that its type does not select at their zero values.
unfoldable pub canonical_as : NodeIdType → NodeId → NodeId
canonical_as numeric n = numeric_node_id n.namespace n.numeric_id
canonical_as string n = string_node_id n.namespace n.string_id
canonical_as guid n = guid_node_id n.namespace n.guid_id
canonical_as opaque n = opaque_node_id n.namespace n.opaque_id
canonical_as (undefined t) n = n

unfoldable pub canonical : NodeId → NodeId
unfolding canonical_as
canonical n = canonical_as n.type n

-- The two masks take a flagged encoding byte apart.
abbrev Splits : ℕ → ℕ → ℕ → Type 0
Splits byte format flags =
    (bit_and byte node_id_encoding_mask ≡ format) × (bit_and byte node_id_flags_mask ≡ flags)

Splits-two : (a b : Bool) → Splits (bit_or 0x02 (expanded_flags a b)) 0x02 (expanded_flags a b)
Splits-two true true = (refl, refl)
Splits-two true false = (refl, refl)
Splits-two false true = (refl, refl)
Splits-two false false = (refl, refl)

Splits-three : (a b : Bool) → Splits (bit_or 0x03 (expanded_flags a b)) 0x03 (expanded_flags a b)
Splits-three true true = (refl, refl)
Splits-three true false = (refl, refl)
Splits-three false true = (refl, refl)
Splits-three false false = (refl, refl)

Splits-four : (a b : Bool) → Splits (bit_or 0x04 (expanded_flags a b)) 0x04 (expanded_flags a b)
Splits-four true true = (refl, refl)
Splits-four true false = (refl, refl)
Splits-four false true = (refl, refl)
Splits-four false false = (refl, refl)

Splits-five : (a b : Bool) → Splits (bit_or 0x05 (expanded_flags a b)) 0x05 (expanded_flags a b)
Splits-five true true = (refl, refl)
Splits-five true false = (refl, refl)
Splits-five false true = (refl, refl)
Splits-five false false = (refl, refl)

module _ {l : BinaryLimits} where
  Reads-tagged :
      {byte format flags : ℕ} {ys : List ℕ} {v : NodeId × ℕ}
      → Splits byte format flags
      → Reads l (read_identifier format flags) ys v
      → Reads l read_node_id_with_flags ((byte ∷ []) ++ ys) v
  unfolding read_node_id_with_flags
  Reads-tagged {byte = byte} (f, g) m =
      Reads-bind
        (λ e. read_identifier (bit_and e node_id_encoding_mask) (bit_and e node_id_flags_mask))
        (Reads-byte byte) (rw (f, g) m)

  Reads-full :
      (n : NodeId) (flags : ℕ)
      → IsNodeId n
      → Reads l
          (read_identifier 0x02 flags)
          (le 2 n.namespace ++ le 4 n.numeric_id)
          (numeric_node_id n.namespace n.numeric_id, flags)
  unfolding read_identifier
  Reads-full n flags h =
      Reads-bind _ (Reads-uint16 n.namespace h.namespace_fits)
        (Reads-map _ (Reads-uint32 n.numeric_id h.numeric_fits))

  Reads-text :
      (v : IsValid l) (n : NodeId) (flags : ℕ)
      → IsNodeId n
      → length n.string_id ≤ l.max_string_bytes
      → Reads l
          (read_identifier 0x03 flags)
          (le 2 n.namespace ++ string_wire n.string_id)
          (string_node_id n.namespace n.string_id, flags)
  unfolding read_identifier
  Reads-text v n flags h c = Reads-bind _ (Reads-uint16 n.namespace h.namespace_fits) (
      Reads-map (λ id. (string_node_id n.namespace (or_empty id), flags))
        (Reads-string v n.string_id c))

  Reads-guid_form :
      (n : NodeId) (flags : ℕ)
      → IsNodeId n
      → Reads l
          (read_identifier 0x04 flags)
          (le 2 n.namespace ++ guid_wire n.guid_id)
          (guid_node_id n.namespace n.guid_id, flags)
  unfolding read_identifier
  Reads-guid_form n flags h =
      Reads-bind _ (Reads-uint16 n.namespace h.namespace_fits)
        (Reads-map _ (Reads-guid n.guid_id h.guid_fits))

  Reads-opaque :
      (v : IsValid l) (n : NodeId) (flags : ℕ)
      → IsNodeId n
      → length n.opaque_id ≤ l.max_byte_string_bytes
      → Reads l
          (read_identifier 0x05 flags)
          (le 2 n.namespace ++ string_wire n.opaque_id)
          (opaque_node_id n.namespace n.opaque_id, flags)
  unfolding read_identifier
  Reads-opaque v n flags h c = Reads-bind _ (Reads-uint16 n.namespace h.namespace_fits) (
      Reads-map (λ id. (opaque_node_id n.namespace (or_empty id), flags))
        (Reads-byte_string v n.opaque_id c))

  Reads-two_byte :
      (n : NodeId)
      → n.namespace ≡ 0
      → n.numeric_id ≤ 0xff
      → Reads l
          (read_identifier 0x00 0)
          ((n.numeric_id % 2 ^ 8) ∷ [])
          (numeric_node_id n.namespace n.numeric_id, 0)
  unfolding read_identifier
  Reads-two_byte n e h =
      Reads-eq refl (let same : n.numeric_id % 2 ^ 8 ≡ n.numeric_id = omega arith in rw (same, e))
        (Reads-map (λ id. (numeric_node_id 0 id, 0)) (Reads-byte (n.numeric_id % 2 ^ 8)))

  Reads-four_byte :
      (n : NodeId)
      → n.namespace ≤ 0xff
      → n.numeric_id ≤ 0xffff
      → Reads l
          (read_identifier 0x01 0)
          (((n.namespace % 2 ^ 8) ∷ []) ++ le 2 (n.numeric_id % 2 ^ 16))
          (numeric_node_id n.namespace n.numeric_id, 0)
  unfolding read_identifier
  Reads-four_byte n g h =
      let same : n.numeric_id % 2 ^ 16 ≡ n.numeric_id = omega arith in
      let same' : n.namespace % 2 ^ 8 ≡ n.namespace = omega arith in
      rw (same, same')
        (Reads-bind _ (Reads-byte n.namespace) (
          Reads-map (λ id. (numeric_node_id n.namespace id, 0))
            (Reads-uint16 n.numeric_id (omega arith))))

  Reads-numeric :
      (n : NodeId) (a b : Bool)
      → IsNodeId n
      → Reads l read_node_id_with_flags
          (numeric_wire n (expanded_flags a b))
          (numeric_node_id n.namespace n.numeric_id, expanded_flags a b)
  unfolding numeric_wire
  Reads-numeric n true true h = Reads-tagged (Splits-two true true) (Reads-full n _ h)
  Reads-numeric n true false h = Reads-tagged (Splits-two true false) (Reads-full n _ h)
  Reads-numeric n false true h = Reads-tagged (Splits-two false true) (Reads-full n _ h)
  Reads-numeric n false false h = elim (Bool-cases ((n.namespace == 0) && leb n.numeric_id 0xff)) [
    | inl p ↦
        rw p (Reads-tagged (refl, refl) (Reads-two_byte n (ground (arith, p)) (ground (arith, p))))
    | inr p ↦ rw p (elim (Bool-cases (leb n.namespace 0xff && leb n.numeric_id 0xffff)) [
      | inl q ↦
          rw q
            (Reads-tagged (refl, refl) (Reads-four_byte n (ground (arith, q)) (ground (arith, q))))
      | inr q ↦ rw q (Reads-tagged (Splits-two false false) (Reads-full n 0 h))
    ])
  ]

  Reads-by_type :
      (v : IsValid l) (t : NodeIdType) (n : NodeId) (a b : Bool)
      → IsNodeId n
      → IdentifierFits l t n
      → Reads l read_node_id_with_flags
          (identifier_wire t n (expanded_flags a b))
          (canonical_as t n, expanded_flags a b)
  unfolding identifier_wire canonical_as
  Reads-by_type v numeric n a b h c = Reads-numeric n a b h
  Reads-by_type v string n a b h c = Reads-tagged (Splits-three a b) (Reads-text v n _ h c)
  Reads-by_type v guid n a b h c = Reads-tagged (Splits-four a b) (Reads-guid_form n _ h)
  Reads-by_type v opaque n a b h c = Reads-tagged (Splits-five a b) (Reads-opaque v n _ h c)
  Reads-by_type v (undefined t) n a b h c = absurd c

  pub Reads-node_flags :
      (v : IsValid l) (n : NodeId) (a b : Bool)
      → IsNodeId n
      → IdentifierFits l n.type n
      → Reads l read_node_id_with_flags
          (identifier_wire n.type n (expanded_flags a b))
          (canonical n, expanded_flags a b)
  unfolding canonical
  Reads-node_flags v n a b h c = Reads-by_type v n.type n a b h c

  pub Reads-node :
      (v : IsValid l) (n : NodeId)
      → IsNodeId n
      → IdentifierFits l n.type n
      → Reads l read_node_id (identifier_wire n.type n 0) (canonical n)
  unfolding read_node_id
  Reads-node v n h c =
      Reads-eq (append-nil _) refl
        (Reads-bind refuse_flags (Reads-node_flags v n false false h c) (Reads-give (canonical n)))
