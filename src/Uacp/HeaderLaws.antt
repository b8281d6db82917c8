-- ===== src/Uacp/HeaderLaws.antt =====
-- The message header of internal/opcua/uacp.go: which headers are accepted, and the round trip.
use opcda_access_adapter.Prelude.{
  ℕ, ◌+◌, ◌^◌, ◌≤◌, ◌<◌, ◌≡◌, sym, ap, ◌∙◌, true, false, ◌⊎◌, inl, inr, List, ◌++◌, ltb, length,
  take, arith, length-append, le→ltb_false, ltb_false→le, take-append_self, Bool-cases,
}
use opcda_access_adapter.Prelude.Int.{pos}
use opcda_access_adapter.Prelude.Bytes.{le, un_le, un_le-le, length-le}
use opcda_access_adapter.Errors.{ok}
use opcda_access_adapter.Uacp.Header.{
  MessageType, MessageHeader, is_connection_protocol, is_secure_channel, chunk_final,
  chunk_intermediate, chunk_abort, header_size, encode_message_header, decode_message_header,
  check_header, header_of, type_bytes,
}

-- The headers of OPC 10000-6 Tables 57 and 73: a connection protocol message in one final chunk, or
-- a chunk of a secure channel message, no shorter than its header and no longer than the buffer.
pub record IsAccepted (h : MessageHeader) (receive : ℕ) : Type 0 where
  pub known :
      ((is_connection_protocol h.type ≡ true) × (h.chunk ≡ chunk_final))
      ⊎ ((is_secure_channel h.type ≡ true)
          × ((h.chunk ≡ chunk_final) ⊎ (h.chunk ≡ chunk_intermediate) ⊎ (h.chunk ≡ chunk_abort)))
  pub covers_header : header_size ≤ h.size
  pub fits_buffer : h.size ≤ receive

-- No message type belongs to both layers.
pub not_both : (t : MessageType) → is_connection_protocol t ≡ true → is_secure_channel t ≡ false
unfolding is_connection_protocol is_secure_channel
not_both t h = ground arith

check_header_sound :
    (h g : MessageHeader) (receive : ℕ)
    → check_header h receive ≡ ok g
    → (g ≡ h) × IsAccepted h receive
unfolding check_header
check_header_sound h g receive e = ground arith

pub check_header_complete :
    (h : MessageHeader) (receive : ℕ) → IsAccepted h receive → check_header h receive ≡ ok h
unfolding check_header
check_header_complete h receive a = ground (arith, not_both h.type)

pub header_of-append :
    (t : MessageType) (chunk size : ℕ) (rest : List ℕ)
    → size < 2 ^ 32
    → header_of (type_bytes t chunk ++ (le 4 size ++ rest))
      ≡ record { type = t; chunk = chunk; size = size }
header_of-append t chunk size rest h =
    ap (λ n. record { type = t; chunk = chunk; size = n })
      (ap un_le (
          ap (λ k. take k (le 4 size ++ rest)) (sym (length-le 4 size))
          ∙ take-append_self (le 4 size) rest)
        ∙ un_le-le 4 size h)

-- A decoded header is the one that the first eight bytes spell, and an accepted one.
pub decode_header_sound :
    (input : List ℕ) (receive : ℕ) {h : MessageHeader}
    → decode_message_header input receive ≡ ok h
    → (header_size ≤ length input) × (h ≡ header_of input) × IsAccepted h receive
unfolding decode_message_header
decode_header_sound input receive {h = h} e = elim (Bool-cases (ltb (length input) header_size)) [
  | inl short ↦ cc (rw short at e)
  | inr long ↦
      let inner : check_header (header_of input) receive ≡ ok h = rw long at e in
      let (same, a) = check_header_sound (header_of input) h receive inner in
      (ltb_false→le _ _ long, same, rw (← same) at a)
]

pub decode_long :
    (input : List ℕ) (receive : ℕ)
    → header_size ≤ length input
    → decode_message_header input receive ≡ check_header (header_of input) receive
unfolding decode_message_header
decode_long input receive h = rw (le→ltb_false _ _ h)

-- For a buffer size that fits a UInt32, the header of every message that a receiver accepts is
-- encoded, and decodes to itself whatever follows it.
pub decode-encode_header :
    (t : MessageType) (chunk body receive : ℕ) (rest : List ℕ)
    → receive < 2 ^ 32
    → IsAccepted (record { type = t; chunk = chunk; size = body + header_size }) receive
    → (encode_message_header t chunk (pos body) receive
        ≡ ok (type_bytes t chunk ++ le 4 (body + header_size)))
      × (decode_message_header ((type_bytes t chunk ++ le 4 (body + header_size)) ++ rest) receive
          ≡ ok (record { type = t; chunk = chunk; size = body + header_size }))
unfolding encode_message_header
decode-encode_header t chunk body receive rest h a = (
  rw (le→ltb_false _ _ a.fits_buffer),
  decode_long _ receive (
        omega
          (arith, length-append (le 4 (body + header_size)) rest, length-le 4 (body + header_size)))
      ∙ ap (λ g. check_header g receive)
          (header_of-append t chunk (body + header_size) rest (omega (arith, a.fits_buffer)))
      ∙ check_header_complete _ receive a,
)
