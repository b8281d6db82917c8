-- ===== src/Uasc/Header.antt =====
-- internal/opcua/uasc.go: the message, security and sequence headers (OPC 10000-6 Tables 57 to 60).
use opcda_access_adapter.Prelude.{
  ℕ, zero, suc, ◌+◌, ◌-◌, Bool, false, ◌||◌, ◌&&◌, not, List, [], ◌++◌, ltb, ◌==◌, length, take,
  drop, if◌then◌else◌,
}
use opcda_access_adapter.Prelude.Int.{ℤ, pos, negsuc}
use opcda_access_adapter.Prelude.Bytes.{le, un_le}
use opcda_access_adapter.Errors.{
  Error, Result, ok, err, codec, refuse_if, status_bad_tcp_internal_error,
  status_bad_tcp_message_too_large, status_bad_tcp_message_type_invalid,
  status_bad_security_checks_failed, status_bad_security_mode_rejected,
}
use opcda_access_adapter.Errors
use opcda_access_adapter.Binary.Limits.{BinaryLimits}
use opcda_access_adapter.Binary.Encoder.{
  Encoder, ◌>>◌, write, write_uint32, write_int32, narrow32, null_length,
}
use opcda_access_adapter.Binary.Emits.{encode}
use opcda_access_adapter.Binary.Decoder.{
  Reader, got, failed, ◌>>=◌, give, unless, remaining, take_bytes, read_int32, read_uint32,
}
use opcda_access_adapter.Binary.Body.{decode_body}
use opcda_access_adapter.Uacp.Header.{
  MessageType, MessageHeader, is_secure_channel, same_type, secure_type, chunk_final,
  chunk_intermediate, chunk_abort, type_bytes, decode_message_header,
}

abbrev pub secure_header_size : ℕ
secure_header_size = 12

abbrev pub sequence_header_size : ℕ
sequence_header_size = 8

abbrev pub max_policy_uri_bytes : ℕ
max_policy_uri_bytes = 255

abbrev pub thumbprint_bytes : ℕ
thumbprint_bytes = 20

pub record SecureConversationHeader : Type 0 where
  pub type : MessageType
  pub chunk : ℕ
  pub size : ℕ
  pub secure_channel_id : ℕ

abbrev pub is_defined_chunk : ℕ → Bool
is_defined_chunk c = (c == chunk_final) || (c == chunk_intermediate) || (c == chunk_abort)

-- A body size that is not negative, and one that is; the header's own size field is not read.
unfoldable pub encode_secure_header : SecureConversationHeader → ℤ → ℕ → Result (List ℕ)
encode_secure_header h body send =
    if not (is_secure_channel h.type)
    then err (codec status_bad_tcp_message_type_invalid)
    else if not (is_defined_chunk h.chunk)
    then err (codec status_bad_tcp_message_type_invalid)
    else if not (same_type h.type secure_type) && not (h.chunk == chunk_final)
    then err (codec status_bad_tcp_message_type_invalid)
    else elim body [
      | negsuc n ↦ err (codec status_bad_tcp_internal_error)
      | pos n ↦
          if ltb send (n + secure_header_size)
          then err (codec status_bad_tcp_message_too_large)
          else ok (
              type_bytes h.type h.chunk
              ++ (le 4 (n + secure_header_size) ++ le 4 h.secure_channel_id))
    ]

-- The checks of DecodeSecureConversationHeader behind the first eight bytes.
unfoldable pub check_secure_header : List ℕ → MessageHeader → Result SecureConversationHeader
check_secure_header input base =
    if not (is_secure_channel base.type)
    then err (codec status_bad_tcp_message_type_invalid)
    else if ltb base.size secure_header_size
    then err (codec status_bad_tcp_message_type_invalid)
    else if ltb (length input) secure_header_size
    then err (codec status_bad_tcp_internal_error)
    else ok (record {
      type = base.type;
      chunk = base.chunk;
      size = base.size;
      secure_channel_id = un_le (take 4 (drop 8 input));
    })

unfoldable pub decode_secure_header : List ℕ → ℕ → Result SecureConversationHeader
unfolding check_secure_header
decode_secure_header input receive =
    Errors.◌>>=◌ (decode_message_header input receive) (check_secure_header input)

pub record AsymmetricSecurityHeader : Type 0 where
  pub security_policy_uri : List ℕ
  pub sender_certificate : List ℕ
  pub receiver_thumbprint : List ℕ

pub record SequenceHeader : Type 0 where
  pub sequence_number : ℕ
  pub request_id : ℕ

-- securityHeaderLength, behind the Int32: 0 and -1 both mean that the field is not specified.
unfoldable pub check_field_length : ℕ → ℤ → Reader ℕ
unfolding remaining
check_field_length bound (negsuc zero) d = got 0 d
check_field_length bound (negsuc (suc n)) d = failed (codec status_bad_security_checks_failed) d
check_field_length bound (pos n) d =
    if n == 0
    then got 0 d
    else if ltb bound n
    then failed (codec status_bad_security_checks_failed) d
    else if ltb (remaining d) n
    then failed (codec status_bad_security_checks_failed) d
    else got n d

unfoldable pub security_header_length : ℕ → Reader ℕ
unfolding check_field_length
security_header_length bound = do raw ← read_int32; check_field_length bound raw

-- A field of the given length, which is left empty where the length is 0.
unfoldable pub read_field : ℕ → Reader (List ℕ)
read_field n = if ltb 0 n then take_bytes n else give []

-- One field: its length, the check on a length that is not 0, and the bytes.
unfoldable pub read_security_field : ℕ → (ℕ → Bool) → Reader (List ℕ)
unfolding security_header_length read_field
read_security_field bound wrong = do
  n ← security_header_length bound
  _ ← unless (ltb 0 n && wrong n) (codec status_bad_security_checks_failed)
  read_field n

abbrev pub any_length : ℕ → Bool
any_length n = false

abbrev pub no_thumbprint : ℕ → Bool
no_thumbprint n = not (n == thumbprint_bytes)

unfoldable pub read_asymmetric_header : ℕ → Reader AsymmetricSecurityHeader
unfolding read_security_field
read_asymmetric_header max_certificate = do
  uri ← read_security_field max_policy_uri_bytes any_length
  certificate ← read_security_field max_certificate any_length
  thumbprint ← read_security_field thumbprint_bytes no_thumbprint
  give (record {
    security_policy_uri = uri;
    sender_certificate = certificate;
    receiver_thumbprint = thumbprint;
  })

-- The header and the number of bytes that it took, len(body) - decoder.Remaining().
unfoldable pub with_consumed {ℓ} : {A : Type ℓ} → Reader A → Reader (A × ℕ)
unfolding remaining
with_consumed m = do value ← m; (λ d. got (value, length d.buffer - remaining d) d)

unfoldable pub decode_asymmetric_header :
    List ℕ → ℕ → BinaryLimits → Result (AsymmetricSecurityHeader × ℕ)
unfolding read_asymmetric_header with_consumed decode_body
decode_asymmetric_header body max_certificate l =
    decode_body (with_consumed (read_asymmetric_header max_certificate)) body l

unfoldable pub write_field : List ℕ → Encoder → Encoder
write_field value =
    if length value == 0
    then write_int32 null_length
    else (do write_int32 (narrow32 (length value)); write value)

unfoldable pub write_asymmetric_header : AsymmetricSecurityHeader → Encoder → Encoder
unfolding write_field
write_asymmetric_header h = do
  write_field h.security_policy_uri
  write_field h.sender_certificate
  write_field h.receiver_thumbprint

unfoldable pub encode_asymmetric_header :
    AsymmetricSecurityHeader → ℕ → BinaryLimits → Result (List ℕ)
unfolding write_asymmetric_header
encode_asymmetric_header h max_certificate l =
    if ltb max_policy_uri_bytes (length h.security_policy_uri)
    then err (codec status_bad_security_checks_failed)
    else if ltb max_certificate (length h.sender_certificate)
    then err (codec status_bad_security_checks_failed)
    else if not (length h.receiver_thumbprint == 0)
        && not (length h.receiver_thumbprint == thumbprint_bytes)
    then err (codec status_bad_security_checks_failed)
    else encode l (write_asymmetric_header h)

-- The subtractions on Go ints may go below 0, where the answer is 0.
unfoldable pub max_sender_certificate_size : ℕ → ℕ → ℕ → ℕ → ℕ
max_sender_certificate_size chunk_size uri_bytes padding_bytes signature_bytes =
    let overhead = secure_header_size + 4 + 4 + 4 + thumbprint_bytes + sequence_header_size + 1 in
    let taken =
      overhead
      + uri_bytes
      + padding_bytes
      + signature_bytes
      + (if ltb 0 padding_bytes then 1 else 0) in
    chunk_size - taken

unfoldable pub write_sequence_header : SequenceHeader → Encoder → Encoder
write_sequence_header h = do write_uint32 h.sequence_number; write_uint32 h.request_id

unfoldable pub encode_sequence_header : SequenceHeader → BinaryLimits → Result (List ℕ)
unfolding write_sequence_header
encode_sequence_header h l = encode l (write_sequence_header h)

unfoldable pub read_sequence_header : Reader SequenceHeader
read_sequence_header = do
  number ← read_uint32
  request ← read_uint32
  give (record { sequence_number = number; request_id = request })

unfoldable pub decode_sequence_header : List ℕ → BinaryLimits → Result SequenceHeader
unfolding read_sequence_header decode_body
decode_sequence_header body l = decode_body read_sequence_header body l
