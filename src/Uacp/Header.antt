-- ===== src/Uacp/Header.antt =====
-- internal/opcua/uacp.go: MessageType, the chunk codes and MessageHeader (OPC 10000-6 Table 73).
use opcda_access_adapter.Prelude.{
  ℕ, ◌+◌, ◌-◌, Bool, ◌&&◌, ◌||◌, not, List, [], ◌∷◌, ◌++◌, ltb, leb, ◌==◌, length, take, drop,
  get_or, if◌then◌else◌,
}
use opcda_access_adapter.Prelude.Int.{ℤ, pos, negsuc}
use opcda_access_adapter.Prelude.Bytes.{le, un_le}
use opcda_access_adapter.Errors.{
  Result, ok, err, codec, refuse_if, ◌>>◌, status_bad_tcp_internal_error,
  status_bad_tcp_message_too_large, status_bad_tcp_message_type_invalid,
}

-- Three ASCII bytes.
pub record MessageType : Type 0 where
  pub first : ℕ
  pub second : ℕ
  pub third : ℕ

abbrev pub hello_type : MessageType
hello_type = record { first = b'H'; second = b'E'; third = b'L' }

abbrev pub acknowledge_type : MessageType
acknowledge_type = record { first = b'A'; second = b'C'; third = b'K' }

abbrev pub error_type : MessageType
error_type = record { first = b'E'; second = b'R'; third = b'R' }

abbrev pub reverse_hello_type : MessageType
reverse_hello_type = record { first = b'R'; second = b'H'; third = b'E' }

abbrev pub secure_type : MessageType
secure_type = record { first = b'M'; second = b'S'; third = b'G' }

abbrev pub open_channel_type : MessageType
open_channel_type = record { first = b'O'; second = b'P'; third = b'N' }

abbrev pub close_channel_type : MessageType
close_channel_type = record { first = b'C'; second = b'L'; third = b'O' }

-- Equality of two arrays of three bytes.
abbrev pub same_type : MessageType → MessageType → Bool
same_type s t = (s.first == t.first) && (s.second == t.second) && (s.third == t.third)

unfoldable pub is_connection_protocol : MessageType → Bool
is_connection_protocol t =
    same_type t hello_type
    || same_type t acknowledge_type
    || same_type t error_type
    || same_type t reverse_hello_type

unfoldable pub is_secure_channel : MessageType → Bool
is_secure_channel t =
    same_type t secure_type || same_type t open_channel_type || same_type t close_channel_type

abbrev pub chunk_intermediate : ℕ
chunk_intermediate = b'C'

abbrev pub chunk_final : ℕ
chunk_final = b'F'

abbrev pub chunk_abort : ℕ
chunk_abort = b'A'

abbrev pub header_size : ℕ
header_size = 8

pub record MessageHeader : Type 0 where
  pub type : MessageType
  pub chunk : ℕ
  pub size : ℕ

unfoldable pub body_size_of : MessageHeader → ℤ
body_size_of h =
    if leb header_size h.size then pos (h.size - header_size) else negsuc (header_size - h.size - 1)

abbrev pub type_bytes : MessageType → ℕ → List ℕ
type_bytes t chunk = t.first ∷ t.second ∷ t.third ∷ chunk ∷ []

-- `receive` is the size of the receive buffer.
unfoldable pub encode_message_header : MessageType → ℕ → ℤ → ℕ → Result (List ℕ)
encode_message_header t chunk (negsuc n) receive = err (codec status_bad_tcp_internal_error)
encode_message_header t chunk (pos body) receive =
    if ltb receive (body + header_size)
    then err (codec status_bad_tcp_message_too_large)
    else ok (type_bytes t chunk ++ le 4 (body + header_size))

abbrev pub header_of : List ℕ → MessageHeader
header_of input = record {
  type = record { first = get_or input 0 0; second = get_or input 1 0; third = get_or input 2 0 };
  chunk = get_or input 3 0;
  size = un_le (take 4 (drop 4 input));
}

-- The checks of DecodeMessageHeader on a header that was read, in their order.
unfoldable pub check_header : MessageHeader → ℕ → Result MessageHeader
check_header h receive = do
  refuse_if (not (is_connection_protocol h.type) && not (is_secure_channel h.type))
      (codec status_bad_tcp_message_type_invalid)
  refuse_if (ltb h.size header_size) (codec status_bad_tcp_message_type_invalid)
  refuse_if (ltb receive h.size) (codec status_bad_tcp_message_too_large)
  refuse_if (is_connection_protocol h.type && not (h.chunk == chunk_final))
      (codec status_bad_tcp_message_type_invalid)
  refuse_if
      (is_secure_channel h.type
        && not (h.chunk == chunk_final)
        && not (h.chunk == chunk_intermediate)
        && not (h.chunk == chunk_abort))
      (codec status_bad_tcp_message_type_invalid)
  ok h

unfoldable pub decode_message_header : List ℕ → ℕ → Result MessageHeader
unfolding check_header
decode_message_header input receive =
    if ltb (length input) header_size
    then err (codec status_bad_tcp_internal_error)
    else check_header (header_of input) receive
