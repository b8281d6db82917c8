-- ===== src/Uasc/HeaderLaws.antt =====
-- The headers of internal/opcua/uasc.go: the round trips, and the size of a sender certificate.
use opcda_access_adapter.Prelude.{
  ℕ, ◌+◌, ◌-◌, ◌^◌, ◌≤◌, ◌<◌, ◌≡◌, sym, ap, ◌∙◌, true, ◌⊎◌, inr, List, ◌++◌, ltb, length, take,
  drop, if◌then◌else◌, arith, length-append, le→ltb_false, append_assoc, take-append_self,
  drop-append_self,
}
use opcda_access_adapter.Prelude.Int.{pos}
use opcda_access_adapter.Prelude.Bytes.{le, un_le, un_le-le, length-le}
use opcda_access_adapter.Errors.{ok, ◌>>=◌}
use opcda_access_adapter.Uacp.Header.{
  is_secure_channel, same_type, secure_type, chunk_final, type_bytes, decode_message_header,
  check_header,
}
use opcda_access_adapter.Uacp.HeaderLaws.{
  IsAccepted, decode_long, header_of-append, check_header_complete,
}
use opcda_access_adapter.Uasc.Header.{
  SecureConversationHeader, secure_header_size, is_defined_chunk, encode_secure_header,
  decode_secure_header, check_secure_header, thumbprint_bytes, sequence_header_size,
  max_sender_certificate_size,
}

abbrev pub secure_wire : SecureConversationHeader → List ℕ
secure_wire h = type_bytes h.type h.chunk ++ (le 4 h.size ++ le 4 h.secure_channel_id)

-- A header that a sender may write: a secure conversation type, a defined chunk code, and a code
-- other than the final one only for MSG.
pub record IsSendable (h : SecureConversationHeader) (send : ℕ) : Type 0 where
  pub secure : is_secure_channel h.type ≡ true
  pub defined : is_defined_chunk h.chunk ≡ true
  pub final : (same_type h.type secure_type ≡ true) ⊎ (h.chunk ≡ chunk_final)
  pub covers_header : secure_header_size ≤ h.size
  pub fits_buffer : h.size ≤ send
  pub channel_fits : h.secure_channel_id < 2 ^ 32

encode_sendable :
    (h : SecureConversationHeader) (send : ℕ)
    → IsSendable h send
    → encode_secure_header h (pos (h.size - secure_header_size)) send ≡ ok (secure_wire h)
unfolding encode_secure_header
encode_sendable h send v =
    let e : h.size - secure_header_size + secure_header_size ≡ h.size =
      omega (arith, v.covers_header) in
    rw e (ground (arith, v.secure, v.defined, v.final, v.fits_buffer))

accepted :
    (h : SecureConversationHeader) (send : ℕ)
    → IsSendable h send
    → IsAccepted (record { type = h.type; chunk = h.chunk; size = h.size }) send
accepted h send v = record {
  known = inr (v.secure, ground (arith, v.defined));
  covers_header = omega (arith, v.covers_header);
  fits_buffer = v.fits_buffer;
}

-- The input that such a header starts, with its two numbers apart.
abbrev framed : SecureConversationHeader → List ℕ → List ℕ
framed h rest = type_bytes h.type h.chunk ++ (le 4 h.size ++ (le 4 h.secure_channel_id ++ rest))

framed-eq : (h : SecureConversationHeader) (rest : List ℕ) → secure_wire h ++ rest ≡ framed h rest
framed-eq h rest =
    ap (λ r. type_bytes h.type h.chunk ++ r)
      (append_assoc (le 4 h.size) (le 4 h.secure_channel_id) rest)

length-framed :
    (h : SecureConversationHeader) (rest : List ℕ) → length (framed h rest) ≡ 12 + length rest
length-framed h rest = omega (
  arith,
  length-append (le 4 h.size) (le 4 h.secure_channel_id ++ rest),
  length-append (le 4 h.secure_channel_id) rest,
  length-le 4 h.size,
  length-le 4 h.secure_channel_id,
)

channel_id_bytes :
    (h : SecureConversationHeader) (rest : List ℕ)
    → h.secure_channel_id < 2 ^ 32
    → un_le (take 4 (drop 8 (framed h rest))) ≡ h.secure_channel_id
channel_id_bytes h rest fits =
    let after : List ℕ = le 4 h.secure_channel_id ++ rest in
    let behind : drop 4 (le 4 h.size ++ after) ≡ after =
      ap (λ k. drop k (le 4 h.size ++ after)) (sym (length-le 4 h.size))
      ∙ drop-append_self (le 4 h.size) after in
    ap (λ r. un_le (take 4 r)) behind
    ∙ ap un_le (
        ap (λ k. take k after) (sym (length-le 4 h.secure_channel_id))
        ∙ take-append_self (le 4 h.secure_channel_id) rest)
    ∙ un_le-le 4 h.secure_channel_id fits

decode_framed :
    (h : SecureConversationHeader) (send : ℕ) (rest : List ℕ)
    → send < 2 ^ 32
    → IsSendable h send
    → decode_message_header (framed h rest) send
      ≡ ok (record { type = h.type; chunk = h.chunk; size = h.size })
decode_framed h send rest hs v =
    decode_long _ send (omega (arith, length-framed h rest))
    ∙ ap (λ g. check_header g send)
        (header_of-append h.type h.chunk h.size (le 4 h.secure_channel_id ++ rest)
          (omega (arith, v.fits_buffer)))
    ∙ check_header_complete _ send (accepted h send v)

check_secure_complete :
    (h : SecureConversationHeader) (send : ℕ) (input : List ℕ)
    → IsSendable h send
    → secure_header_size ≤ length input
    → un_le (take 4 (drop 8 input)) ≡ h.secure_channel_id
    → check_secure_header input (record { type = h.type; chunk = h.chunk; size = h.size }) ≡ ok h
unfolding check_secure_header
check_secure_complete h send input v long id =
    rw (v.secure, le→ltb_false _ _ v.covers_header, le→ltb_false _ _ long, id)

-- For a buffer size that fits a UInt32, every secure conversation header that may be sent (a
-- defined chunk code, a final one unless the type is MSG, a size from the header's own to the
-- buffer's, a channel that fits a UInt32) is encoded, and decodes to itself whatever follows it.
pub secure_header_round_trip :
    (h : SecureConversationHeader) (send : ℕ) (rest : List ℕ)
    → send < 2 ^ 32
    → IsSendable h send
    → (encode_secure_header h (pos (h.size - secure_header_size)) send ≡ ok (secure_wire h))
      × (decode_secure_header (secure_wire h ++ rest) send ≡ ok h)
unfolding decode_secure_header
secure_header_round_trip h send rest hs v = (
  encode_sendable h send v,
  ap (λ i. decode_secure_header i send) (framed-eq h rest)
      ∙ ap (λ r. r >>= check_secure_header (framed h rest)) (decode_framed h send rest hs v)
      ∙ check_secure_complete h send (framed h rest) v (omega (arith, length-framed h rest))
          (channel_id_bytes h rest v.channel_fits),
)

-- A certificate of the computed size leaves room for everything else in an OPN chunk, with at least
-- one byte of body, unless nothing is left for a certificate.
pub certificate_fits_chunk :
    (chunk uri padding signature : ℕ)
    → 0 < max_sender_certificate_size chunk uri padding signature
    → secure_header_size
        + (4 + uri)
        + (4 + max_sender_certificate_size chunk uri padding signature)
        + (4 + thumbprint_bytes)
        + sequence_header_size
        + 1
        + padding
        + (if ltb 0 padding then 1 else 0)
        + signature
      ≡ chunk
unfolding max_sender_certificate_size
certificate_fits_chunk chunk uri padding signature h = ground arith
