-- ===== src/Examples/Transport.antt =====
-- The theorems on internal/opcua/uacp.go and on the headers of internal/opcua/uasc.go at concrete
-- inputs.
use opcda_access_adapter.Prelude.{ℕ, ◌≡◌, refl, inl, List, [], ◌∷◌, ◌++◌, length, arith}
use opcda_access_adapter.Prelude.Bytes.{le}
use opcda_access_adapter.Errors.{ok, err, codec, status_bad_tcp_message_type_invalid}
use opcda_access_adapter.Binary.Limits.{BinaryLimits, default_binary_limits, default-IsValid}
use opcda_access_adapter.Uacp.Header.{secure_type, chunk_intermediate}
use opcda_access_adapter.Uacp.Hello.{
  Hello, Acknowledge, ProtocolError, encode_hello, decode_hello, negotiate_acknowledge,
  encode_protocol_error, decode_protocol_error, min_uint32,
}
use opcda_access_adapter.Uacp.HelloLaws.{IsHello, hello_wire, hello_round_trip}
use opcda_access_adapter.Uacp.ReasonLaws.{sent_reason, error_wire, protocol_error_round_trip}
use opcda_access_adapter.Uacp.Chunks.{
  ChunkAccumulator, new_chunk_accumulator, new-IsBounded, append, append_all, concat, Allows,
  append_all-concat,
}
use opcda_access_adapter.Uasc.Header.{
  SecureConversationHeader, AsymmetricSecurityHeader, encode_asymmetric_header,
  decode_asymmetric_header, SequenceHeader,
}
use opcda_access_adapter.Uasc.SecurityHeaderLaws.{asymmetric_wire, asymmetric_header_round_trip}

abbrev limits : BinaryLimits
limits = default_binary_limits

abbrev more : List ℕ
more = 0xff ∷ []

abbrev client : Hello
client = record {
  version = 0;
  receive_buffer_size = 65536;
  send_buffer_size = 16384;
  max_message_size = 0;
  max_chunk_count = 0;
  endpoint_url = 0x6f ∷ 0x70 ∷ 0x63 ∷ [];
}

client-IsHello : IsHello client
client-IsHello = record {
  version_served = refl;
  receive_floor = omega arith;
  send_floor = omega arith;
  url_short = omega arith;
  receive_fits = omega arith;
  send_fits = omega arith;
  message_fits = omega arith;
  chunks_fit = omega arith;
}

hello_round_trip_example :
    (encode_hello client limits ≡ ok (hello_wire client))
    × (decode_hello (hello_wire client) limits ≡ ok client)
    × (decode_hello (hello_wire client ++ more) limits
        ≡ err (codec status_bad_tcp_message_type_invalid))
unfolding default_binary_limits le
hello_round_trip_example =
    hello_round_trip limits client 0xff [] default-IsValid client-IsHello (omega arith)
      (omega arith)

client_decoded : decode_hello (hello_wire client) limits ≡ ok client
unfolding default_binary_limits le
client_decoded =
    (hello_round_trip limits client 0xff [] default-IsValid client-IsHello (omega arith)
      (omega arith)).1

abbrev agreed : Acknowledge
agreed = record {
  version = 0;
  receive_buffer_size = 16384;
  send_buffer_size = 65536;
  max_message_size = 1048576;
  max_chunk_count = 64;
}

negotiated : negotiate_acknowledge client 65536 65536 1048576 64 ≡ ok agreed
unfolding negotiate_acknowledge min_uint32
negotiated = refl

-- A letter and a rune of two bytes, which a limit of 2 cuts through.
abbrev accented : List ℕ
accented = 0x65 ∷ 0xc3 ∷ 0xa9 ∷ []

abbrev refusal : ProtocolError
refusal = record { error = 0x8080_0000; reason = accented }

protocol_error_round_trip_example :
    (encode_protocol_error refusal limits ≡ ok (error_wire refusal))
    × (decode_protocol_error (error_wire refusal) limits
        ≡ ok (record { error = 0x8080_0000; reason = sent_reason accented }))
unfolding default_binary_limits
protocol_error_round_trip_example =
    protocol_error_round_trip limits refusal default-IsValid (omega arith) (omega arith)
      (omega arith)

abbrev pieces : List (List ℕ)
pieces = (1 ∷ 2 ∷ []) ∷ (3 ∷ []) ∷ []

abbrev collected : ChunkAccumulator
collected = record {
  max_chunks = 4;
  max_message = 100;
  too_large = 0x8080_0000;
  chunks = 2;
  body = 1 ∷ 2 ∷ 3 ∷ [];
}

all_appended : append_all (new_chunk_accumulator 4 100 0x8080_0000) pieces ≡ ok collected
unfolding append_all append new_chunk_accumulator
all_appended = refl

append_all-concat_example :
    (collected.body ≡ (new_chunk_accumulator 4 100 0x8080_0000).body ++ concat pieces)
    × Allows
        (new_chunk_accumulator 4 100 0x8080_0000).max_message
        (length ((new_chunk_accumulator 4 100 0x8080_0000).body ++ concat pieces))
    × Allows (new_chunk_accumulator 4 100 0x8080_0000).max_chunks collected.chunks
append_all-concat_example =
    append_all-concat (new_chunk_accumulator 4 100 0x8080_0000) collected pieces
      (new-IsBounded 4 100 0x8080_0000) all_appended

abbrev framed_message : SecureConversationHeader
framed_message = record {
  type = secure_type;
  chunk = chunk_intermediate;
  size = 8192;
  secure_channel_id = 7;
}

abbrev policy_none : AsymmetricSecurityHeader
policy_none = record {
  security_policy_uri = 0x4e ∷ 0x6f ∷ 0x6e ∷ 0x65 ∷ [];
  sender_certificate = [];
  receiver_thumbprint = [];
}

asymmetric_header_round_trip_example :
    (encode_asymmetric_header policy_none 1024 limits ≡ ok (asymmetric_wire policy_none))
    × (decode_asymmetric_header (asymmetric_wire policy_none ++ more) 1024 limits
        ≡ ok (policy_none, length (asymmetric_wire policy_none)))
unfolding default_binary_limits le
asymmetric_header_round_trip_example =
    asymmetric_header_round_trip limits policy_none 1024 more default-IsValid
      (record {
        uri_short = omega arith;
        certificate_short = omega arith;
        thumbprint_exact = inl refl;
      })
      (omega arith) (omega arith)

abbrev sequence : SequenceHeader
sequence = record { sequence_number = 51; request_id = 3 }
