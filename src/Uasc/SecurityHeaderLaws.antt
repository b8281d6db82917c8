-- ===== src/Uasc/SecurityHeaderLaws.antt =====
-- The security and the sequence headers of internal/opcua/uasc.go: the round trips.
use opcda_access_adapter.Prelude.{
  ℕ, ◌+◌, ◌-◌, ◌%◌, ◌^◌, ◌≤◌, ◌<◌, ◌≡◌, refl, sym, ap, ◌∙◌, Bool, true, false, ◌&&◌, not, ◌⊎◌, List,
  [], ◌∷◌, ◌++◌, ltb, ◌==◌, length, drop, arith, length-append, le→ltb_false, append-nil,
  append_assoc, length-drop, drop-append_self, drop-drop,
}
use opcda_access_adapter.Prelude.Int.{pos, negsuc, word}
use opcda_access_adapter.Prelude.Bytes.{le, length-le}
use opcda_access_adapter.Errors.{ok, codec, status_bad_security_checks_failed}
use opcda_access_adapter.Binary.Limits.{BinaryLimits, IsValid, IsValid-validate}
use opcda_access_adapter.Binary.Encoder.{null_length}
use opcda_access_adapter.Binary.Decoder.{
  Decoder, got, Reader, ◌>>=◌, and_then, unless, remaining, read_int32, new_decoder,
}
use opcda_access_adapter.Binary.Emits.{Emits, encode-emits}
use opcda_access_adapter.Binary.Reads.{
  Reads, Reads-bind, Reads-map, Reads-eq, Reads-give, Reads-take, pending, advance,
}
use opcda_access_adapter.Binary.Body.{decode_body, decode_body-Reads, answer}
use opcda_access_adapter.Binary.Scalars.{Reads-uint32, Reads-int32}
use opcda_access_adapter.Binary.Writes.{
  string_wire, null_wire, Emits-after, Emits-uint32, Emits-int32, Emits-prefixed,
}
use opcda_access_adapter.Uasc.Header.{
  AsymmetricSecurityHeader, SequenceHeader, max_policy_uri_bytes, thumbprint_bytes,
  check_field_length, security_header_length, read_field, read_security_field, any_length,
  no_thumbprint, read_asymmetric_header, with_consumed, decode_asymmetric_header, write_field,
  write_asymmetric_header, encode_asymmetric_header, write_sequence_header, encode_sequence_header,
  read_sequence_header, decode_sequence_header,
}

-- A field of Table 58: -1 for one that is empty, else its length and its bytes.
abbrev pub field_wire : List ℕ → List ℕ
field_wire [] = null_wire
field_wire (b ∷ bs) = string_wire (b ∷ bs)

abbrev pub asymmetric_wire : AsymmetricSecurityHeader → List ℕ
asymmetric_wire h =
    field_wire h.security_policy_uri
    ++ (field_wire h.sender_certificate ++ field_wire h.receiver_thumbprint)

pub record IsAsymmetric (h : AsymmetricSecurityHeader) (max_certificate : ℕ) : Type 0 where
  pub uri_short : length h.security_policy_uri ≤ max_policy_uri_bytes
  pub certificate_short : length h.sender_certificate ≤ max_certificate
  pub thumbprint_exact :
      (length h.receiver_thumbprint ≡ 0) ⊎ (length h.receiver_thumbprint ≡ thumbprint_bytes)

check_field_fits :
    (bound n : ℕ) (d : Decoder)
    → n ≤ bound
    → n ≤ remaining d
    → check_field_length bound (pos n) d ≡ got n d
unfolding check_field_length
check_field_fits bound n d h r = ground arith

remaining-pending : (d : Decoder) → remaining d ≡ length (pending d)
unfolding remaining
remaining-pending d = omega (arith, length-drop d.offset d.buffer)

-- What follows the length of a field.
abbrev behind_length : (ℕ → Bool) → ℕ → Reader (List ℕ)
behind_length wrong n = do
  _ ← unless (ltb 0 n && wrong n) (codec status_bad_security_checks_failed)
  read_field n

behind_length_right :
    (wrong : ℕ → Bool) (n : ℕ) (d : Decoder)
    → ltb 0 n && wrong n ≡ false
    → behind_length wrong n d ≡ read_field n d
behind_length_right wrong n d h = rw h

behind_word :
    (n : ℕ) (d : Decoder) (tail : List ℕ)
    → pending d ≡ le 4 n ++ tail
    → pending (advance 4 d) ≡ tail
behind_word n d tail hp =
    drop-drop d.offset 4 d.buffer
    ∙ ap (drop 4) hp
    ∙ ap (λ k. drop k (le 4 n ++ tail)) (sym (length-le 4 n))
    ∙ drop-append_self (le 4 n) tail

module _ {l : BinaryLimits} where
  Emits-field : (s : List ℕ) → length s < 2 ^ 31 → Emits l (write_field s) (field_wire s) (Unit {0})
  unfolding write_field word
  Emits-field [] h = Emits-int32 null_length
  Emits-field (b ∷ bs) h =
      let some_bytes : length (b ∷ bs) == 0 ≡ false = ground arith in
      rw some_bytes (Emits-prefixed (b ∷ bs) h)

  Reads-field_bytes : (s : List ℕ) → Reads l (read_field (length s)) s s
  unfolding read_field
  Reads-field_bytes [] = Reads-give []
  Reads-field_bytes (b ∷ bs) =
      let some_bytes : ltb 0 (length (b ∷ bs)) ≡ true = ground arith in
      rw some_bytes (Reads-take (b ∷ bs) (length (b ∷ bs)) refl)

  -- The length of a field is accepted where that many bytes follow.
  field_length :
      (bound n : ℕ) (d : Decoder) (tail : List ℕ)
      → n ≤ bound
      → n < 2 ^ 31
      → n ≤ length tail
      → d.limits ≡ l
      → pending d ≡ le 4 n ++ tail
      → security_header_length bound d ≡ got n (advance 4 d)
  unfolding security_header_length word
  field_length bound n d tail hb hn room hl hp =
      let prefix : pending d ≡ le 4 (word 32 (pos n)) ++ tail =
        hp ∙ ap (λ k. le 4 k ++ tail) (let e : n ≡ n % 2 ^ 32 = omega arith in e) in
      let step : read_int32 d ≡ got (pos n) (advance 4 d) =
        (Reads-int32 (pos n) (omega arith)).runs d tail hl prefix
        ∙ ap (λ k. got (pos n) (advance k d)) (length-le 4 (word 32 (pos n))) in
      ap (λ r. and_then r (check_field_length bound)) step
      ∙ check_field_fits bound n (advance 4 d) hb
          (omega (arith, remaining-pending (advance 4 d), ap length (behind_word n d tail hp)))

  Reads-null_length : (bound : ℕ) → Reads l (security_header_length bound) null_wire 0
  unfolding security_header_length check_field_length word
  Reads-null_length bound = Reads-eq (append-nil _) refl (
      Reads-bind (check_field_length bound) (Reads-int32 (negsuc 0) (omega arith))
        (record { runs = λ d tail hl hp. (Reads-give 0).runs d tail hl hp }))

  Reads-field :
      (bound : ℕ) (wrong : ℕ → Bool) (s : List ℕ)
      → length s ≤ bound
      → length s < 2 ^ 31
      → ltb 0 (length s) && wrong (length s) ≡ false
      → Reads l (read_security_field bound wrong) (field_wire s) s
  unfolding read_security_field
  Reads-field bound wrong [] hb hn hw =
      Reads-eq (append-nil _) refl (Reads-bind _ (Reads-null_length bound) (Reads-field_bytes []))
  Reads-field bound wrong (b ∷ bs) hb hn hw = record {
    runs = λ d tail hl hp.
        let s : List ℕ = b ∷ bs in
        let there : pending d ≡ le 4 (length s) ++ (s ++ tail) =
          hp ∙ append_assoc (le 4 (length s)) s tail in
        let room : length s ≤ length (s ++ tail) = omega (arith, length-append s tail) in
        ap (λ r. and_then r (behind_length wrong))
          (field_length bound (length s) d (s ++ tail) hb hn room hl there)
        ∙ behind_length_right wrong (length s) (advance 4 d) hw
        ∙ (Reads-field_bytes s).runs (advance 4 d) tail hl
            (behind_word (length s) d (s ++ tail) there)
        ∙ ap (λ k. got s (record d { offset = k }))
            (omega (arith, length-append (le 4 (length s)) s, length-le 4 (length s)));
  }

  Emits-asymmetric :
      (h : AsymmetricSecurityHeader) (max_certificate : ℕ)
      → IsAsymmetric h max_certificate
      → max_certificate < 2 ^ 31
      → Emits l (write_asymmetric_header h) (asymmetric_wire h) (Unit {0})
  unfolding write_asymmetric_header
  Emits-asymmetric h m v hm =
      Emits-after (Emits-field h.security_policy_uri (omega (arith, v.uri_short))) (
        Emits-after (Emits-field h.sender_certificate (omega (arith, v.certificate_short)))
          (Emits-field h.receiver_thumbprint (omega (arith, v.thumbprint_exact))))

  Reads-asymmetric :
      (h : AsymmetricSecurityHeader) (max_certificate : ℕ)
      → IsAsymmetric h max_certificate
      → max_certificate < 2 ^ 31
      → Reads l (read_asymmetric_header max_certificate) (asymmetric_wire h) h
  unfolding read_asymmetric_header
  Reads-asymmetric h m v hm =
      Reads-bind _
        (Reads-field _ any_length h.security_policy_uri v.uri_short (omega (arith, v.uri_short))
          (ground arith))
        (Reads-bind _
          (Reads-field m any_length h.sender_certificate v.certificate_short
            (omega (arith, v.certificate_short)) (ground arith))
          (Reads-map _ (
            Reads-field _ no_thumbprint h.receiver_thumbprint (omega (arith, v.thumbprint_exact))
              (omega (arith, v.thumbprint_exact)) (ground (arith, v.thumbprint_exact)))))

consumed :
    {l : BinaryLimits} {A : Type 0} {m : Reader A} {bs : List ℕ} {a : A} (rest : List ℕ)
    → IsValid l
    → Reads l m bs a
    → length (bs ++ rest) ≤ l.max_message_bytes
    → decode_body (with_consumed m) (bs ++ rest) l ≡ ok (a, length bs)
unfolding decode_body new_decoder with_consumed remaining
consumed {l = l} {bs = bs} {a = a} rest v m fits =
    let size : length (bs ++ rest) ≡ length bs + length rest = length-append bs rest in
    rw (IsValid-validate l v, new_decoder, le→ltb_false _ _ fits)
      (ap (λ r. answer (and_then r count)) (m.runs _ rest refl refl)
        ∙ ap (λ k. ok (a, k)) (omega (arith, size)))
  where
    count : {A : Type 0} → A → Reader (A × ℕ)
    count x d = got (x, length d.buffer - (length d.buffer - d.offset)) d

-- Under valid limits and a certificate bound that fits an Int32, a security header within the
-- bounds of Table 58 is encoded, decodes to itself from any body within the limits that starts
-- with its bytes, and the count of bytes that is answered is the length of what was written.
pub asymmetric_header_round_trip :
    (l : BinaryLimits) (h : AsymmetricSecurityHeader) (max_certificate : ℕ) (rest : List ℕ)
    → IsValid l
    → IsAsymmetric h max_certificate
    → max_certificate < 2 ^ 31
    → length (asymmetric_wire h ++ rest) ≤ l.max_message_bytes
    → (encode_asymmetric_header h max_certificate l ≡ ok (asymmetric_wire h))
      × (decode_asymmetric_header (asymmetric_wire h ++ rest) max_certificate l
          ≡ ok (h, length (asymmetric_wire h)))
unfolding encode_asymmetric_header decode_asymmetric_header
asymmetric_header_round_trip l h m rest v p hm fits =
    let uri : ltb max_policy_uri_bytes (length h.security_policy_uri) ≡ false =
      le→ltb_false _ _ p.uri_short in
    let certificate : ltb m (length h.sender_certificate) ≡ false =
      le→ltb_false _ _ p.certificate_short in
    let thumbprint : not (length h.receiver_thumbprint == 0)
          && not (length h.receiver_thumbprint == thumbprint_bytes)
        ≡ false =
      ground (arith, p.thumbprint_exact) in
    (
      rw (uri, certificate, thumbprint)
          (encode-emits v (Emits-asymmetric h m p hm) tt
            (omega (arith, length-append (asymmetric_wire h) rest))),
      consumed rest v (Reads-asymmetric h m p hm) fits,
    )

-- Under valid limits a sequence header whose two numbers fit a UInt32 is encoded as eight bytes
-- and decodes to itself, from any body within the limits that starts with them.
pub sequence_header_round_trip :
    (l : BinaryLimits) (h : SequenceHeader) (rest : List ℕ)
    → IsValid l
    → h.sequence_number < 2 ^ 32
    → h.request_id < 2 ^ 32
    → 8 + length rest ≤ l.max_message_bytes
    → (encode_sequence_header h l ≡ ok (le 4 h.sequence_number ++ le 4 h.request_id))
      × (decode_sequence_header ((le 4 h.sequence_number ++ le 4 h.request_id) ++ rest) l ≡ ok h)
unfolding encode_sequence_header decode_sequence_header write_sequence_header read_sequence_header
sequence_header_round_trip l h rest v hn hr fits =
    let size : length (le 4 h.sequence_number ++ le 4 h.request_id) ≡ 8 = omega (
      arith,
      length-append (le 4 h.sequence_number) (le 4 h.request_id),
      length-le 4 h.sequence_number,
      length-le 4 h.request_id,
    ) in
    (
      encode-emits v (Emits-after (Emits-uint32 h.sequence_number) (Emits-uint32 h.request_id)) tt
          (omega (arith, size)),
      decode_body-Reads rest v
          (Reads-bind _ (Reads-uint32 h.sequence_number hn)
            (Reads-map _ (Reads-uint32 h.request_id hr)))
          (omega (arith, size, length-append (le 4 h.sequence_number ++ le 4 h.request_id) rest)),
    )
