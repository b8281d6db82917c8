-- ===== src/Headers/ResponseLaws.antt =====
-- ResponseHeader of internal/opcua/nodeid.go: its bytes and its round trip.
use opcda_access_adapter.Prelude.{ℕ, ◌≤◌, ◌<◌, ◌^◌, ◌≡◌, List, ◌++◌, length}
use opcda_access_adapter.Prelude.Int.{word}
use opcda_access_adapter.Prelude.Bytes.{le}
use opcda_access_adapter.Errors.{ok}
use opcda_access_adapter.Binary.Limits.{BinaryLimits, IsValid}
use opcda_access_adapter.Binary.Emits.{Emits, Emits-then, encode}
use opcda_access_adapter.Binary.Reads.{Reads, Reads-bind, Reads-map, decode}
use opcda_access_adapter.Binary.Scalars.{Reads-uint32, Reads-status_code}
use opcda_access_adapter.Binary.Writes.{Emits-after, Emits-uint32, Emits-status_code}
use opcda_access_adapter.NodeId.Reading.{IsNodeId}
use opcda_access_adapter.DateTime.{encode_date_time}
use opcda_access_adapter.DateTime.Laws.{saturate, Emits-date_time, Reads-date_time}
use opcda_access_adapter.Structures.{max_diagnostic_recursion}
use opcda_access_adapter.Structures.Names.{
  extension_wire, ExtensionFits, canonical_extension, Emits-extension_object,
  Reads-extension_object,
}
use opcda_access_adapter.Structures.Diagnostics.{
  diagnostic_wire, depth_of, IsDiagnostic, InfosFit, Emits-diagnostic_info, Reads-diagnostic_info,
}
use opcda_access_adapter.RoundTrips.{decode-encoded}
use opcda_access_adapter.Headers.{ResponseHeader, write_response_header, read_response_header}
use opcda_access_adapter.Headers.Table.{
  table_wire, TableFits, Emits-string_table, Reads-string_table,
}

abbrev pub response_wire : ResponseHeader → List ℕ
response_wire h =
    le 8 (word 64 (encode_date_time h.timestamp))
    ++ (le 4 h.request_handle
        ++ (le 4 h.service_result
            ++ (diagnostic_wire h.service_diagnostics
                ++ (table_wire h.string_table ++ extension_wire h.additional_header))))

-- What the encoder bounds of a response header.
abbrev pub ResponseFits : BinaryLimits → ResponseHeader → Type 0
ResponseFits l h =
    (InfosFit l h.service_diagnostics × (depth_of h.service_diagnostics ≤ max_diagnostic_recursion))
    × (TableFits l h.string_table × ExtensionFits l h.additional_header)

-- The fields fit the types that Go gives them.
pub record IsResponse (l : BinaryLimits) (h : ResponseHeader) : Type 0 where
  pub time_fits : h.timestamp.nanosecond < 10 ^ 9
  pub handle_fits : h.request_handle < 2 ^ 32
  pub result_fits : h.service_result < 2 ^ 32
  pub diagnostics_fit : IsDiagnostic l h.service_diagnostics
  pub additional_fits : IsNodeId h.additional_header.type_id

-- The header that is read back.
abbrev pub canonical_response : ResponseHeader → ResponseHeader
canonical_response h = record h {
  timestamp = saturate h.timestamp;
  additional_header = canonical_extension h.additional_header;
}

module _ {l : BinaryLimits} (v : IsValid l) where
  pub Emits-response_header :
      (h : ResponseHeader) → Emits l (write_response_header h) (response_wire h) (ResponseFits l h)
  unfolding write_response_header
  Emits-response_header h = Emits-after (Emits-date_time h.timestamp) (
      Emits-after (Emits-uint32 h.request_handle) (
        Emits-after (Emits-status_code h.service_result) (
          Emits-then (Emits-diagnostic_info v h.service_diagnostics) (
            Emits-then (Emits-string_table v h.string_table)
              (Emits-extension_object v h.additional_header)))))

  Reads-response_header :
      (h : ResponseHeader)
      → IsResponse l h
      → ResponseFits l h
      → Reads l read_response_header (response_wire h) (canonical_response h)
  unfolding read_response_header
  Reads-response_header h p c = Reads-bind _ (Reads-date_time h.timestamp p.time_fits) (
      Reads-bind _ (Reads-uint32 h.request_handle p.handle_fits) (
        Reads-bind _ (Reads-status_code h.service_result p.result_fits) (
          Reads-bind _ (Reads-diagnostic_info v h.service_diagnostics p.diagnostics_fit c.0.1) (
            Reads-bind _ (Reads-string_table v h.string_table c.1.0) (
              Reads-map _
                (Reads-extension_object v h.additional_header p.additional_fits c.1.1))))))

-- Under valid limits a ResponseHeader whose fields fit their types and that was encoded is decoded
-- again, from any message within the limits that starts with its bytes: every field as it was, a
-- string table that is null or holds any strings included, up to what the encodings of its time and
-- its additional header do not carry.
pub response_header_round_trip :
    (l : BinaryLimits) (h : ResponseHeader) (out tail : List ℕ)
    → IsValid l
    → IsResponse l h
    → encode l (write_response_header h) ≡ ok out
    → length (out ++ tail) ≤ l.max_message_bytes
    → decode l read_response_header (out ++ tail) ≡ ok (canonical_response h, tail)
response_header_round_trip l h out tail v p e fits =
    decode-encoded out tail v (Emits-response_header v h) (Reads-response_header v h p) e fits
