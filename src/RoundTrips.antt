-- ===== src/RoundTrips.antt =====
-- The round trips of the structures of internal/opcua/nodeid.go through the encoder and the decoder
-- of internal/opcua/binary.go: what is written is what is read, whatever follows it.
use opcda_access_adapter.Prelude.{
  ℕ, ◌≤◌, ◌<◌, ◌^◌, ◌≡◌, sym, ap, subst, ◌∙◌, ◌↔◌, List, ◌++◌, length,
}
use opcda_access_adapter.Errors.{ok}
use opcda_access_adapter.Binary.Limits.{BinaryLimits, IsValid}
use opcda_access_adapter.Binary.Encoder.{Encoder}
use opcda_access_adapter.Binary.Decoder.{Reader}
use opcda_access_adapter.Binary.Emits.{Emits, encode, encode-emits, encode-only_if}
use opcda_access_adapter.Binary.Reads.{Reads, decode, decode-Reads}
use opcda_access_adapter.NodeId.{
  NodeId, write_node_id, read_node_id, ExpandedNodeId, write_expanded_node_id,
  read_expanded_node_id,
}
use opcda_access_adapter.NodeId.Wire.{identifier_wire, IdentifierFits, Emits-node}
use opcda_access_adapter.NodeId.Reading.{IsNodeId, canonical, Reads-node}
use opcda_access_adapter.NodeId.Expanded.{
  IsExpandedNodeId, canonical_expanded, Emits-expanded, Reads-expanded,
}
use opcda_access_adapter.DateTime.{Instant, write_date_time, read_date_time}
use opcda_access_adapter.DateTime.Laws.{saturate, Emits-date_time, Reads-date_time}
use opcda_access_adapter.Structures.{
  QualifiedName, write_qualified_name, read_qualified_name, LocalizedText, write_localized_text,
  read_localized_text, ExtensionObject, write_extension_object, read_extension_object,
  DiagnosticInfo, write_diagnostic_info, read_diagnostic_info, max_diagnostic_recursion,
}
use opcda_access_adapter.Structures.Names.{
  Emits-qualified_name, Reads-qualified_name, Emits-localized_text, Reads-localized_text,
  extension_wire, ExtensionFits, canonical_extension, Emits-extension_object,
  Reads-extension_object,
}
use opcda_access_adapter.Structures.Diagnostics.{
  diagnostic_wire, depth_of, IsDiagnostic, InfosFit, Emits-diagnostic_info, Reads-diagnostic_info,
}

module _ {l : BinaryLimits} {w : Encoder → Encoder} {bs : List ℕ} {C : Type 0} where
  encode-exactly :
      (out : List ℕ)
      → IsValid l
      → Emits l w bs C
      → (encode l w ≡ ok out) ↔ (C × (out ≡ bs) × (length bs ≤ l.max_message_bytes))
  encode-exactly out v m =
      (λ h. encode-only_if v m h, λ h. encode-emits v m h.0 h.2 ∙ ap ok (sym h.1))

  pub decode-encoded {ℓ} :
      {A : Type ℓ} {m : Reader A} {a : A} (out tail : List ℕ)
      → IsValid l
      → Emits l w bs C
      → (C → Reads l m bs a)
      → encode l w ≡ ok out
      → length (out ++ tail) ≤ l.max_message_bytes
      → decode l m (out ++ tail) ≡ ok (a, tail)
  decode-encoded {m = m} {a = a} out tail v p q h fits =
      let (c, same, _) = encode-only_if v p h in
      let short : length (bs ++ tail) ≤ l.max_message_bytes =
        subst (λ o. length (o ++ tail) ≤ l.max_message_bytes) same fits in
      ap (λ o. decode l m (o ++ tail)) same ∙ decode-Reads tail v (q c) short

-- Under valid limits a NodeId is encoded exactly where its type is defined, its string or opaque
-- identifier is within the limit, and the bytes fit the message; the bytes are then the two-byte
-- form, the four-byte form or the full form of its type.
pub node_id_encodes :
    (l : BinaryLimits) (n : NodeId) (out : List ℕ)
    → IsValid l
    → (encode l (write_node_id n) ≡ ok out) ↔ (
        IdentifierFits l n.type n
        × (out ≡ identifier_wire n.type n 0)
        × (length (identifier_wire n.type n 0) ≤ l.max_message_bytes))
node_id_encodes l n out v = encode-exactly out v (Emits-node v n)

-- Under valid limits a NodeId whose fields fit their types and that was encoded is decoded again,
-- from any message within the limits that starts with its bytes: all that follows is left over,
-- and the value is the same up to the fields that its type does not select.
pub node_id_round_trip :
    (l : BinaryLimits) (n : NodeId) (out tail : List ℕ)
    → IsValid l
    → IsNodeId n
    → encode l (write_node_id n) ≡ ok out
    → length (out ++ tail) ≤ l.max_message_bytes
    → decode l read_node_id (out ++ tail) ≡ ok (canonical n, tail)
node_id_round_trip l n out tail v h e fits =
    decode-encoded out tail v (Emits-node v n) (Reads-node v n h) e fits

-- Under valid limits an ExpandedNodeId whose fields fit their types and that was encoded is
-- decoded again from any message within the limits that starts with its bytes: with its flags, its
-- URI and its server index, and with the namespace index 0 where a URI takes its place.
pub expanded_node_id_round_trip :
    (l : BinaryLimits) (x : ExpandedNodeId) (out tail : List ℕ)
    → IsValid l
    → IsExpandedNodeId x
    → encode l (write_expanded_node_id x) ≡ ok out
    → length (out ++ tail) ≤ l.max_message_bytes
    → decode l read_expanded_node_id (out ++ tail) ≡ ok (canonical_expanded x, tail)
expanded_node_id_round_trip l x out tail v h e fits =
    decode-encoded out tail v (Emits-expanded v x) (Reads-expanded v x h) e fits

-- A QualifiedName that was encoded is decoded to itself.
pub qualified_name_round_trip :
    (l : BinaryLimits) (q : QualifiedName) (out tail : List ℕ)
    → IsValid l
    → q.namespace < 2 ^ 16
    → encode l (write_qualified_name q) ≡ ok out
    → length (out ++ tail) ≤ l.max_message_bytes
    → decode l read_qualified_name (out ++ tail) ≡ ok (q, tail)
qualified_name_round_trip l q out tail v h e fits =
    decode-encoded out tail v (Emits-qualified_name v q) (Reads-qualified_name v q h) e fits

-- Under valid limits a LocalizedText that was encoded is decoded to itself, whichever of its two
-- parts are empty, from any message within the limits that starts with its bytes.
pub localized_text_round_trip :
    (l : BinaryLimits) (t : LocalizedText) (out tail : List ℕ)
    → IsValid l
    → encode l (write_localized_text t) ≡ ok out
    → length (out ++ tail) ≤ l.max_message_bytes
    → decode l read_localized_text (out ++ tail) ≡ ok (t, tail)
localized_text_round_trip l t out tail v e fits =
    decode-encoded out tail v (Emits-localized_text v t) (Reads-localized_text v t) e fits

-- Under valid limits an ExtensionObject is encoded exactly where its type identifier is, its
-- encoding byte is one of the three that are defined, its body, if it has one, is within the limit
-- of byte strings, and the bytes fit the message.
pub extension_object_encodes :
    (l : BinaryLimits) (x : ExtensionObject) (out : List ℕ)
    → IsValid l
    → (encode l (write_extension_object x) ≡ ok out) ↔ (
        ExtensionFits l x
        × (out ≡ extension_wire x)
        × (length (extension_wire x) ≤ l.max_message_bytes))
extension_object_encodes l x out v = encode-exactly out v (Emits-extension_object v x)

-- Under valid limits an ExtensionObject whose type identifier has fields that fit their types and
-- that was encoded is decoded again, from any message within the limits that starts with its
-- bytes, with its body as the bytes it was, or empty where the encoding byte says that there is
-- none.
pub extension_object_round_trip :
    (l : BinaryLimits) (x : ExtensionObject) (out tail : List ℕ)
    → IsValid l
    → IsNodeId x.type_id
    → encode l (write_extension_object x) ≡ ok out
    → length (out ++ tail) ≤ l.max_message_bytes
    → decode l read_extension_object (out ++ tail) ≡ ok (canonical_extension x, tail)
extension_object_round_trip l x out tail v h e fits =
    decode-encoded out tail v (Emits-extension_object v x) (Reads-extension_object v x h) e fits

-- Under valid limits a DiagnosticInfo is encoded exactly where its additional infos are within the
-- limit of strings, at most ten infos hang below the outermost one, and the bytes fit the message:
-- one that nests deeper is refused, never cut.
pub diagnostic_info_encodes :
    (l : BinaryLimits) (x : DiagnosticInfo) (out : List ℕ)
    → IsValid l
    → (encode l (write_diagnostic_info x) ≡ ok out) ↔ (
        (InfosFit l x × (depth_of x ≤ max_diagnostic_recursion))
        × (out ≡ diagnostic_wire x)
        × (length (diagnostic_wire x) ≤ l.max_message_bytes))
diagnostic_info_encodes l x out v = encode-exactly out v (Emits-diagnostic_info v x)

-- Under valid limits a DiagnosticInfo whose indices fit an Int32, whose additional infos are
-- within the limit of strings and whose status codes fit a UInt32 and that was encoded is decoded
-- to itself, each present field in its place, from any message within the limits that starts with
-- its bytes.
pub diagnostic_info_round_trip :
    (l : BinaryLimits) (x : DiagnosticInfo) (out tail : List ℕ)
    → IsValid l
    → IsDiagnostic l x
    → encode l (write_diagnostic_info x) ≡ ok out
    → length (out ++ tail) ≤ l.max_message_bytes
    → decode l read_diagnostic_info (out ++ tail) ≡ ok (x, tail)
diagnostic_info_round_trip l x out tail v h e fits =
    decode-encoded out tail v (Emits-diagnostic_info v x) (λ c. Reads-diagnostic_info v x h c.1) e
      fits

-- Under valid limits an instant with nanoseconds below a second that was encoded is decoded, from
-- any message within the limits that starts with its bytes, to the instant itself, cut to 100
-- nanoseconds, or to the bound that it is at or beyond.
pub date_time_round_trip :
    (l : BinaryLimits) (t : Instant) (out tail : List ℕ)
    → IsValid l
    → t.nanosecond < 10 ^ 9
    → encode l (write_date_time t) ≡ ok out
    → length (out ++ tail) ≤ l.max_message_bytes
    → decode l read_date_time (out ++ tail) ≡ ok (saturate t, tail)
date_time_round_trip l t out tail v h e fits =
    decode-encoded out tail v (Emits-date_time t) (λ _. Reads-date_time t h) e fits
