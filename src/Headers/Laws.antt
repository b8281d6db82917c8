-- ===== src/Headers/Laws.antt =====
-- RequestHeader of internal/opcua/nodeid.go: its bytes and its round trip.
use opcda_access_adapter.Prelude.{ℕ, ◌≤◌, ◌<◌, ◌^◌, ◌≡◌, List, ◌++◌, length}
use opcda_access_adapter.Prelude.Int.{word}
use opcda_access_adapter.Prelude.Bytes.{le}
use opcda_access_adapter.Errors.{ok}
use opcda_access_adapter.Binary.Limits.{BinaryLimits, IsValid}
use opcda_access_adapter.Binary.Emits.{Emits, Emits-then, encode}
use opcda_access_adapter.Binary.Reads.{Reads, Reads-bind, Reads-map, decode}
use opcda_access_adapter.Binary.Scalars.{Reads-uint32}
use opcda_access_adapter.Binary.Writes.{string_wire, Emits-after, Emits-uint32, Emits-string}
use opcda_access_adapter.NodeId.Wire.{identifier_wire, IdentifierFits, Emits-node}
use opcda_access_adapter.NodeId.Reading.{IsNodeId, canonical, Reads-node}
use opcda_access_adapter.DateTime.{encode_date_time}
use opcda_access_adapter.DateTime.Laws.{saturate, Emits-date_time, Reads-date_time}
use opcda_access_adapter.Structures.Names.{
  Reads-text, extension_wire, ExtensionFits, canonical_extension, Emits-extension_object,
  Reads-extension_object,
}
use opcda_access_adapter.RoundTrips.{decode-encoded}
use opcda_access_adapter.Headers.{RequestHeader, write_request_header, read_request_header}

abbrev pub request_wire : RequestHeader → List ℕ
request_wire h =
    identifier_wire h.authentication_token.type h.authentication_token 0
    ++ (le 8 (word 64 (encode_date_time h.timestamp))
        ++ (le 4 h.request_handle
            ++ (le 4 h.return_diagnostics
                ++ (string_wire h.audit_entry_id
                    ++ (le 4 h.timeout_hint ++ extension_wire h.additional_header)))))

-- What the encoder bounds of a request header.
abbrev pub RequestFits : BinaryLimits → RequestHeader → Type 0
RequestFits l h =
    IdentifierFits l h.authentication_token.type h.authentication_token
    × ((length h.audit_entry_id ≤ l.max_string_bytes) × ExtensionFits l h.additional_header)

-- The fields fit the types that Go gives them.
pub record IsRequest (h : RequestHeader) : Type 0 where
  pub token_fits : IsNodeId h.authentication_token
  pub time_fits : h.timestamp.nanosecond < 10 ^ 9
  pub handle_fits : h.request_handle < 2 ^ 32
  pub diagnostics_fit : h.return_diagnostics < 2 ^ 32
  pub timeout_fits : h.timeout_hint < 2 ^ 32
  pub additional_fits : IsNodeId h.additional_header.type_id

-- The header that is read back.
abbrev pub canonical_request : RequestHeader → RequestHeader
canonical_request h = record h {
  authentication_token = canonical h.authentication_token;
  timestamp = saturate h.timestamp;
  additional_header = canonical_extension h.additional_header;
}

module _ {l : BinaryLimits} (v : IsValid l) where
  pub Emits-request_header :
      (h : RequestHeader) → Emits l (write_request_header h) (request_wire h) (RequestFits l h)
  unfolding write_request_header
  Emits-request_header h = Emits-then (Emits-node v h.authentication_token) (
      Emits-after (Emits-date_time h.timestamp) (
        Emits-after (Emits-uint32 h.request_handle) (
          Emits-after (Emits-uint32 h.return_diagnostics) (
            Emits-then (Emits-string v h.audit_entry_id) (
              Emits-after (Emits-uint32 h.timeout_hint)
                (Emits-extension_object v h.additional_header))))))

  pub Reads-request_header :
      (h : RequestHeader)
      → IsRequest h
      → RequestFits l h
      → Reads l read_request_header (request_wire h) (canonical_request h)
  unfolding read_request_header
  Reads-request_header h p c = Reads-bind _ (Reads-node v h.authentication_token p.token_fits c.0) (
      Reads-bind _ (Reads-date_time h.timestamp p.time_fits) (
        Reads-bind _ (Reads-uint32 h.request_handle p.handle_fits) (
          Reads-bind _ (Reads-uint32 h.return_diagnostics p.diagnostics_fit) (
            Reads-bind _ (Reads-text v h.audit_entry_id c.1.0) (
              Reads-bind _ (Reads-uint32 h.timeout_hint p.timeout_fits) (
                Reads-map _
                  (Reads-extension_object v h.additional_header p.additional_fits c.1.1)))))))

-- Under valid limits a RequestHeader whose fields fit their types and that was encoded is decoded
-- again, from any message within the limits that starts with its bytes: every field as it was, up to
-- what the encodings of its token, its time and its additional header do not carry.
pub request_header_round_trip :
    (l : BinaryLimits) (h : RequestHeader) (out tail : List ℕ)
    → IsValid l
    → IsRequest h
    → encode l (write_request_header h) ≡ ok out
    → length (out ++ tail) ≤ l.max_message_bytes
    → decode l read_request_header (out ++ tail) ≡ ok (canonical_request h, tail)
request_header_round_trip l h out tail v p e fits =
    decode-encoded out tail v (Emits-request_header v h) (Reads-request_header v h p) e fits
