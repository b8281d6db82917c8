-- ===== src/Headers.antt =====
-- internal/opcua/nodeid.go: RequestHeader and ResponseHeader. A string table is an Option, for Go's
-- nil slice.
pub mod Laws
pub mod Table
pub mod ResponseLaws
use opcda_access_adapter.Prelude.{ℕ, zero, suc, Option, none, some, List, [], ◌∷◌, length}
use opcda_access_adapter.Prelude.Int.{pos}
use opcda_access_adapter.Binary.Encoder.{
  Encoder, ◌>>◌, skip, write_uint32, write_status_code, write_string, write_array_length,
  write_null_array,
}
use opcda_access_adapter.Binary.Decoder.{
  Reader, ◌>>=◌, give, read_uint32, read_status_code, read_array_length,
}
use opcda_access_adapter.DateTime.{Instant, write_date_time, read_date_time}
use opcda_access_adapter.NodeId.{NodeId, write_node_id, read_node_id}
use opcda_access_adapter.Structures.{
  ExtensionObject, write_extension_object, read_extension_object, DiagnosticInfo,
  write_diagnostic_info, read_diagnostic_info, read_text,
}

pub record RequestHeader : Type 0 where
  pub authentication_token : NodeId
  pub timestamp : Instant
  pub request_handle : ℕ
  pub return_diagnostics : ℕ
  pub audit_entry_id : List ℕ
  pub timeout_hint : ℕ
  pub additional_header : ExtensionObject

pub record ResponseHeader : Type 0 where
  pub timestamp : Instant
  pub request_handle : ℕ
  pub service_result : ℕ
  pub service_diagnostics : DiagnosticInfo
  pub string_table : Option (List (List ℕ))
  pub additional_header : ExtensionObject

unfoldable pub write_request_header : RequestHeader → Encoder → Encoder
write_request_header header = do
  write_node_id header.authentication_token
  write_date_time header.timestamp
  write_uint32 header.request_handle
  write_uint32 header.return_diagnostics
  write_string header.audit_entry_id
  write_uint32 header.timeout_hint
  write_extension_object header.additional_header

unfoldable pub read_request_header : Reader RequestHeader
read_request_header = do
  token ← read_node_id
  timestamp ← read_date_time
  handle ← read_uint32
  diagnostics ← read_uint32
  audit ← read_text
  timeout ← read_uint32
  additional ← read_extension_object
  give (record {
    authentication_token = token;
    timestamp = timestamp;
    request_handle = handle;
    return_diagnostics = diagnostics;
    audit_entry_id = audit;
    timeout_hint = timeout;
    additional_header = additional;
  })

-- The loop over the entries of the string table.
unfoldable pub write_entries : List (List ℕ) → Encoder → Encoder
write_entries [] = skip
write_entries (entry ∷ entries) = do write_string entry; write_entries entries

unfoldable pub write_string_table : Option (List (List ℕ)) → Encoder → Encoder
unfolding write_entries
write_string_table none = write_null_array
write_string_table (some entries) = do
  write_array_length (pos (length entries))
  write_entries entries

unfoldable pub write_response_header : ResponseHeader → Encoder → Encoder
unfolding write_string_table
write_response_header header = do
  write_date_time header.timestamp
  write_uint32 header.request_handle
  write_status_code header.service_result
  write_diagnostic_info header.service_diagnostics
  write_string_table header.string_table
  write_extension_object header.additional_header

unfoldable pub read_entries : ℕ → Reader (List (List ℕ))
read_entries zero = give []
read_entries (suc n) = do entry ← read_text; entries ← read_entries n; give (entry ∷ entries)

-- The table by the length that ReadArrayLength answers, with `none` for a null array.
unfoldable pub read_table_of : Option ℕ → Reader (Option (List (List ℕ)))
unfolding read_entries
read_table_of none = give none
read_table_of (some n) = do entries ← read_entries n; give (some entries)

-- A String is at least its length prefix of four bytes.
unfoldable pub read_string_table : Reader (Option (List (List ℕ)))
unfolding read_table_of
read_string_table = do n ← read_array_length 4; read_table_of n

unfoldable pub read_response_header : Reader ResponseHeader
unfolding read_string_table
read_response_header = do
  timestamp ← read_date_time
  handle ← read_uint32
  result ← read_status_code
  diagnostics ← read_diagnostic_info
  table ← read_string_table
  additional ← read_extension_object
  give (record {
    timestamp = timestamp;
    request_handle = handle;
    service_result = result;
    service_diagnostics = diagnostics;
    string_table = table;
    additional_header = additional;
  })
