-- ===== src/Uacp/Hello.antt =====
-- internal/opcua/uacp.go: the Hello, Acknowledge and Error bodies (OPC 10000-6 Tables 74 to 76) and
-- the negotiation of the Acknowledge.
use opcda_access_adapter.Prelude.{
  ℕ, zero, suc, Bool, ◌||◌, not, List, [], ltb, leb, ◌==◌, length, take, get_or, bit_and,
  if◌then◌else◌,
}
use opcda_access_adapter.Errors.{
  Error, Result, ok, err, codec, refuse_if, status_bad_tcp_internal_error,
  status_bad_tcp_message_too_large, status_bad_tcp_message_type_invalid,
  status_bad_tcp_endpoint_url_invalid, status_bad_protocol_version_unsupport,
}
use opcda_access_adapter.Errors
use opcda_access_adapter.Binary.Limits.{BinaryLimits}
use opcda_access_adapter.Binary.Encoder.{Encoder, ◌>>◌, write_uint32, write_string}
use opcda_access_adapter.Binary.Emits.{encode}
use opcda_access_adapter.Binary.Decoder.{Reader, ◌>>=◌, give, read_uint32, read_string}
use opcda_access_adapter.Binary.Texts.{or_empty}
use opcda_access_adapter.Binary.Body.{decode_body, require_done}

abbrev pub protocol_version : ℕ
protocol_version = 0

abbrev pub minimum_buffer_size : ℕ
minimum_buffer_size = 8192

abbrev pub max_endpoint_url_bytes : ℕ
max_endpoint_url_bytes = 4096

abbrev pub max_error_reason_bytes : ℕ
max_error_reason_bytes = 4096

pub record Hello : Type 0 where
  pub version : ℕ
  pub receive_buffer_size : ℕ
  pub send_buffer_size : ℕ
  pub max_message_size : ℕ
  pub max_chunk_count : ℕ
  pub endpoint_url : List ℕ

pub record Acknowledge : Type 0 where
  pub version : ℕ
  pub receive_buffer_size : ℕ
  pub send_buffer_size : ℕ
  pub max_message_size : ℕ
  pub max_chunk_count : ℕ

pub record ProtocolError : Type 0 where
  pub error : ℕ
  pub reason : List ℕ

unfoldable pub read_hello_fields : Reader Hello
read_hello_fields = do
  version ← read_uint32
  receive ← read_uint32
  send ← read_uint32
  message ← read_uint32
  chunks ← read_uint32
  url ← read_string
  _ ← require_done (codec status_bad_tcp_message_type_invalid)
  give (record {
    version = version;
    receive_buffer_size = receive;
    send_buffer_size = send;
    max_message_size = message;
    max_chunk_count = chunks;
    endpoint_url = or_empty url;
  })

-- The validation of DecodeHello, in its order.
unfoldable pub check_hello : Hello → Result Hello
check_hello h =
    if ltb protocol_version h.version
    then err (codec status_bad_protocol_version_unsupport)
    else if ltb h.receive_buffer_size minimum_buffer_size
        || ltb h.send_buffer_size minimum_buffer_size
    then err (codec status_bad_tcp_message_too_large)
    else if leb max_endpoint_url_bytes (length h.endpoint_url)
    then err (codec status_bad_tcp_endpoint_url_invalid)
    else ok h

unfoldable pub decode_hello : List ℕ → BinaryLimits → Result Hello
unfolding decode_body read_hello_fields check_hello
decode_hello body l = Errors.◌>>=◌ (decode_body read_hello_fields body l) check_hello

unfoldable pub write_hello : Hello → Encoder → Encoder
write_hello h = do
  write_uint32 h.version
  write_uint32 h.receive_buffer_size
  write_uint32 h.send_buffer_size
  write_uint32 h.max_message_size
  write_uint32 h.max_chunk_count
  write_string h.endpoint_url

unfoldable pub encode_hello : Hello → BinaryLimits → Result (List ℕ)
unfolding write_hello
encode_hello h l =
    if leb max_endpoint_url_bytes (length h.endpoint_url)
    then err (codec status_bad_tcp_endpoint_url_invalid)
    else encode l (write_hello h)

unfoldable pub write_acknowledge : Acknowledge → Encoder → Encoder
write_acknowledge a = do
  write_uint32 a.version
  write_uint32 a.receive_buffer_size
  write_uint32 a.send_buffer_size
  write_uint32 a.max_message_size
  write_uint32 a.max_chunk_count

unfoldable pub encode_acknowledge : Acknowledge → BinaryLimits → Result (List ℕ)
unfolding write_acknowledge
encode_acknowledge a l = encode l (write_acknowledge a)

unfoldable pub read_acknowledge_fields : Reader Acknowledge
read_acknowledge_fields = do
  version ← read_uint32
  receive ← read_uint32
  send ← read_uint32
  message ← read_uint32
  chunks ← read_uint32
  _ ← require_done (codec status_bad_tcp_message_type_invalid)
  give (record {
    version = version;
    receive_buffer_size = receive;
    send_buffer_size = send;
    max_message_size = message;
    max_chunk_count = chunks;
  })

unfoldable pub decode_acknowledge : List ℕ → BinaryLimits → Result Acknowledge
unfolding decode_body read_acknowledge_fields
decode_acknowledge body l = decode_body read_acknowledge_fields body l

-- b&0xC0 != 0x80: not a continuation byte of UTF-8.
unfoldable pub utf8_boundary : ℕ → Bool
utf8_boundary b = not (bit_and b 0xc0 == 0x80)

-- The loop of truncateUTF8, from `cut` down; value[cut] is in range where it is called.
unfoldable pub cut_back : List ℕ → ℕ → ℕ
cut_back value zero = zero
cut_back value (suc cut) =
    let lower = cut_back value cut in
    if utf8_boundary (get_or value (suc cut) 0) then suc cut else lower

unfoldable pub truncate_utf8 : List ℕ → ℕ → List ℕ
unfolding cut_back
truncate_utf8 value limit =
    if leb (length value) limit then value else take (cut_back value limit) value

unfoldable pub encode_protocol_error : ProtocolError → BinaryLimits → Result (List ℕ)
encode_protocol_error p l =
    let reason =
      if ltb max_error_reason_bytes (length p.reason)
      then truncate_utf8 p.reason max_error_reason_bytes
      else p.reason in
    encode l (do write_uint32 p.error; write_string reason)

unfoldable pub read_protocol_error : Reader ProtocolError
read_protocol_error = do
  code ← read_uint32
  reason ← read_string
  give (record {
    error = code;
    reason = if ltb max_error_reason_bytes (length (or_empty reason)) then [] else or_empty reason;
  })

unfoldable pub decode_protocol_error : List ℕ → BinaryLimits → Result ProtocolError
unfolding decode_body read_protocol_error
decode_protocol_error body l = decode_body read_protocol_error body l

unfoldable pub min_uint32 : ℕ → ℕ → ℕ
min_uint32 a b = if ltb a b then a else b

unfoldable pub negotiate_acknowledge : Hello → ℕ → ℕ → ℕ → ℕ → Result Acknowledge
unfolding min_uint32
negotiate_acknowledge h server_receive server_send server_max_message server_max_chunks =
    if ltb server_receive minimum_buffer_size || ltb server_send minimum_buffer_size
    then err (codec status_bad_tcp_internal_error)
    else (let ack : Acknowledge = record {
      version = protocol_version;
      receive_buffer_size = min_uint32 server_receive h.send_buffer_size;
      send_buffer_size = min_uint32 server_send h.receive_buffer_size;
      max_message_size = server_max_message;
      max_chunk_count = server_max_chunks;
    } in
        if ltb ack.receive_buffer_size minimum_buffer_size
          || ltb ack.send_buffer_size minimum_buffer_size
        then err (codec status_bad_tcp_message_too_large)
        else ok ack)
