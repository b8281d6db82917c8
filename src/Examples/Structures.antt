-- ===== src/Examples/Structures.antt =====
-- The theorems on the structures of internal/opcua/nodeid.go and internal/opcua/datetime.go at
-- concrete inputs.
use opcda_access_adapter.Prelude.{ℕ, ◌≡◌, refl, true, none, some, List, [], ◌∷◌, ◌++◌, arith}
use opcda_access_adapter.Prelude.Int.{pos, negsuc, word}
use opcda_access_adapter.Prelude.Bytes.{le}
use opcda_access_adapter.Errors.{ok}
use opcda_access_adapter.Binary.Limits.{BinaryLimits, default_binary_limits, default-IsValid}
use opcda_access_adapter.Binary.Emits.{encode}
use opcda_access_adapter.Binary.Reads.{decode}
use opcda_access_adapter.NodeId.{
  NodeId, string_node_id, write_node_id, read_node_id, ExpandedNodeId, write_expanded_node_id,
  read_expanded_node_id,
}
use opcda_access_adapter.NodeId.Wire.{identifier_wire}
use opcda_access_adapter.NodeId.Reading.{IsNodeId, canonical}
use opcda_access_adapter.NodeId.Expanded.{canonical_expanded, expanded_wire, Emits-expanded}
use opcda_access_adapter.DateTime.{Instant, write_date_time, read_date_time, encode_date_time}
use opcda_access_adapter.DateTime.Laws.{saturate, Emits-date_time}
use opcda_access_adapter.Structures.{
  LocalizedText, write_localized_text, ExtensionObject, write_extension_object, DiagnosticFields,
  DiagnosticInfo, flat, nested, write_diagnostic_info, read_diagnostic_info,
}
use opcda_access_adapter.Structures.Names.{
  extension_wire, localized_text_wire, Emits-localized_text, body_wire,
}
use opcda_access_adapter.Structures.Diagnostics.{diagnostic_wire, depth_of, IsFields}
use opcda_access_adapter.Binary.Emits.{encode-emits}
use opcda_access_adapter.Headers.{
  RequestHeader, write_request_header, ResponseHeader, write_response_header, read_response_header,
}
use opcda_access_adapter.Headers.ResponseLaws.{
  response_wire, canonical_response, Emits-response_header, response_header_round_trip,
}
use opcda_access_adapter.Headers.Laws.{request_wire, Emits-request_header}
use opcda_access_adapter.RoundTrips.{
  node_id_encodes, node_id_round_trip, expanded_node_id_round_trip, extension_object_encodes,
  diagnostic_info_encodes, diagnostic_info_round_trip, date_time_round_trip,
}

abbrev limits : BinaryLimits
limits = default_binary_limits

abbrev item : NodeId
item = string_node_id 2 (0x50 ∷ 0x31 ∷ [])

abbrev item_wire : List ℕ
item_wire = 0x03 ∷ 0x02 ∷ 0x00 ∷ 0x02 ∷ 0x00 ∷ 0x00 ∷ 0x00 ∷ 0x50 ∷ 0x31 ∷ []

abbrev more : List ℕ
more = 0xff ∷ []

item-IsNodeId : IsNodeId item
unfolding string_node_id
item-IsNodeId = record {
  namespace_fits = omega arith;
  numeric_fits = omega arith;
  guid_fits = (omega arith, omega arith, omega arith, refl);
}

item_encoded : encode limits (write_node_id item) ≡ ok item_wire
unfolding default_binary_limits identifier_wire string_node_id le
item_encoded =
    (node_id_encodes limits item item_wire default-IsValid).1 (omega arith, refl, omega arith)

node_id_round_trip_example :
    decode limits read_node_id (item_wire ++ more) ≡ ok (canonical item, more)
unfolding default_binary_limits
node_id_round_trip_example =
    node_id_round_trip limits item item_wire more default-IsValid item-IsNodeId item_encoded
      (omega arith)

abbrev remote_item : ExpandedNodeId
remote_item = record {
  node_id = item;
  namespace_uri = 0x75 ∷ 0x72 ∷ 0x6e ∷ [];
  has_namespace_uri = true;
  server_index = 3;
  has_server_index = true;
}

remote_encoded : encode limits (write_expanded_node_id remote_item) ≡ ok (expanded_wire remote_item)
unfolding default_binary_limits expanded_wire identifier_wire string_node_id le
remote_encoded =
    encode-emits default-IsValid (Emits-expanded default-IsValid remote_item)
      (omega arith, omega arith) (omega arith)

expanded_node_id_round_trip_example :
    decode limits read_expanded_node_id (expanded_wire remote_item ++ more)
    ≡ ok (canonical_expanded remote_item, more)
unfolding default_binary_limits expanded_wire identifier_wire string_node_id le
expanded_node_id_round_trip_example =
    expanded_node_id_round_trip limits remote_item (expanded_wire remote_item) more default-IsValid
      (record {
        node_fits = record {
          namespace_fits = omega arith;
          numeric_fits = omega arith;
          guid_fits = (omega arith, omega arith, omega arith, refl);
        };
        index_fits = omega arith;
      })
      remote_encoded (omega arith)

abbrev english : LocalizedText
english = record { locale = 0x65 ∷ 0x6e ∷ []; text = 0x6f ∷ 0x6b ∷ [] }

english_encoded : encode limits (write_localized_text english) ≡ ok (localized_text_wire english)
unfolding default_binary_limits le
english_encoded =
    encode-emits default-IsValid (Emits-localized_text default-IsValid english)
      (omega arith, omega arith) (omega arith)

abbrev object : ExtensionObject
object = record { type_id = item; encoding = 0x01; body = 0x2a ∷ [] }

object_encoded : encode limits (write_extension_object object) ≡ ok (extension_wire object)
unfolding default_binary_limits body_wire identifier_wire string_node_id le
object_encoded =
    (extension_object_encodes limits object (extension_wire object) default-IsValid).1
      ((omega arith, omega arith), refl, omega arith)

abbrev no_fields : DiagnosticFields
no_fields = record {
  symbolic_id = none;
  namespace_uri = none;
  locale = some (pos 4);
  localized_text = some (negsuc 0);
  additional_info = none;
  inner_status_code = some 0x8000_0000;
}

abbrev diagnostics : DiagnosticInfo
diagnostics = nested no_fields (flat no_fields)

diagnostics_encoded :
    encode limits (write_diagnostic_info diagnostics) ≡ ok (diagnostic_wire diagnostics)
unfolding default_binary_limits diagnostic_wire depth_of le
diagnostics_encoded =
    (diagnostic_info_encodes limits diagnostics (diagnostic_wire diagnostics) default-IsValid).1
      (((tt, tt), omega arith), refl, omega arith)

no_fields-IsFields : IsFields limits no_fields
no_fields-IsFields = record {
  symbolic_fits = tt;
  uri_fits = tt;
  locale_fits = omega arith;
  text_fits = omega arith;
  info_fits = tt;
  status_fits = omega arith;
}

diagnostic_info_round_trip_example :
    decode limits read_diagnostic_info (diagnostic_wire diagnostics ++ more)
    ≡ ok (diagnostics, more)
unfolding default_binary_limits diagnostic_wire le
diagnostic_info_round_trip_example =
    diagnostic_info_round_trip limits diagnostics (diagnostic_wire diagnostics) more default-IsValid
      (no_fields-IsFields, no_fields-IsFields) diagnostics_encoded (omega arith)

abbrev noon : Instant
noon = record { seconds = pos 1700000000; nanosecond = 123456789 }

noon_encoded : encode limits (write_date_time noon) ≡ ok (le 8 (word 64 (encode_date_time noon)))
unfolding default_binary_limits le
noon_encoded = encode-emits default-IsValid (Emits-date_time noon) tt (omega arith)

date_time_round_trip_example :
    decode limits read_date_time (le 8 (word 64 (encode_date_time noon)) ++ more)
    ≡ ok (saturate noon, more)
unfolding default_binary_limits le
date_time_round_trip_example =
    date_time_round_trip limits noon (le 8 (word 64 (encode_date_time noon))) more default-IsValid
      (omega arith) noon_encoded (omega arith)

abbrev request : RequestHeader
request = record {
  authentication_token = item;
  timestamp = noon;
  request_handle = 12;
  return_diagnostics = 0;
  audit_entry_id = [];
  timeout_hint = 5000;
  additional_header = object;
}

request_encoded : encode limits (write_request_header request) ≡ ok (request_wire request)
unfolding default_binary_limits body_wire identifier_wire string_node_id le
request_encoded =
    encode-emits default-IsValid (Emits-request_header default-IsValid request)
      (omega arith, (omega arith, (omega arith, omega arith))) (omega arith)

abbrev response : ResponseHeader
response = record {
  timestamp = noon;
  request_handle = 12;
  service_result = 0x8000_0000;
  service_diagnostics = diagnostics;
  string_table = some ((0x61 ∷ []) ∷ [] ∷ []);
  additional_header = object;
}

response_encoded : encode limits (write_response_header response) ≡ ok (response_wire response)
unfolding default_binary_limits body_wire identifier_wire string_node_id diagnostic_wire depth_of le
response_encoded =
    encode-emits default-IsValid (Emits-response_header default-IsValid response)
      (
        ((tt, tt), omega arith),
        ((omega arith, (omega arith, (omega arith, tt))), (omega arith, omega arith)),
      )
      (omega arith)

response_header_round_trip_example :
    decode limits read_response_header (response_wire response ++ more)
    ≡ ok (canonical_response response, more)
unfolding default_binary_limits body_wire identifier_wire string_node_id diagnostic_wire le
response_header_round_trip_example =
    response_header_round_trip limits response (response_wire response) more default-IsValid
      (record {
        time_fits = omega arith;
        handle_fits = omega arith;
        result_fits = omega arith;
        diagnostics_fit = (no_fields-IsFields, no_fields-IsFields);
        additional_fits = item-IsNodeId;
      })
      response_encoded (omega arith)
