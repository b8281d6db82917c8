-- ===== src/Uacp/ReasonLaws.antt =====
-- The error message of internal/opcua/uacp.go: how an over-long reason is cut, and the round trip.
use opcda_access_adapter.Prelude.{
  ℕ, zero, suc, ◌+◌, ◌^◌, ◌≤◌, ◌<◌, ◌≡◌, refl, sym, ap, ◌∙◌, true, false, ◌⊎◌, inl, inr, List, [],
  ◌++◌, ltb, leb, length, drop, get_or, if◌then◌else◌, arith, length-append, le→ltb_false,
  ltb_false→le, Bool-cases, append-nil, length-take_le, take-append-drop, ltb→lt,
}
use opcda_access_adapter.Prelude.Bytes.{le, length-le}
use opcda_access_adapter.Errors.{ok}
use opcda_access_adapter.Binary.Limits.{BinaryLimits, IsValid}
use opcda_access_adapter.Binary.Emits.{encode-emits}
use opcda_access_adapter.Binary.Reads.{Reads, Reads-bind, Reads-map, Reads-eq}
use opcda_access_adapter.Binary.Body.{decode_body, decode_body-Reads}
use opcda_access_adapter.Binary.Scalars.{Reads-uint32}
use opcda_access_adapter.Binary.Texts.{Reads-string, or_empty}
use opcda_access_adapter.Binary.Writes.{string_wire, Emits-after, Emits-uint32, Emits-string}
use opcda_access_adapter.Uacp.Hello.{
  ProtocolError, max_error_reason_bytes, utf8_boundary, cut_back, truncate_utf8,
  encode_protocol_error, read_protocol_error, decode_protocol_error,
}

cut_back-le : (value : List ℕ) (cut : ℕ) → cut_back value cut ≤ cut
unfolding cut_back
cut_back-le value zero = omega arith
cut_back-le value (suc cut) = ground (arith, cut_back-le value cut)

cut_back_boundary :
    (value : List ℕ) (cut : ℕ)
    → (cut_back value cut ≡ 0) ⊎ (utf8_boundary (get_or value (cut_back value cut) 0) ≡ true)
unfolding cut_back
cut_back_boundary value zero = inl refl
cut_back_boundary value (suc cut) = elim (Bool-cases (utf8_boundary (get_or value (suc cut) 0))) [
  | inl here ↦ rw here (inr here)
  | inr lower ↦ rw lower (cut_back_boundary value cut)
]

-- No byte between the cut and the limit starts a rune: the cut is the last boundary.
cut_back_last :
    (value : List ℕ) (cut i : ℕ)
    → cut_back value cut < i
    → i ≤ cut
    → utf8_boundary (get_or value i 0) ≡ false
unfolding cut_back
cut_back_last value zero i h k = absurd (omega arith)
cut_back_last value (suc cut) i h k = elim (Bool-cases (utf8_boundary (get_or value (suc cut) 0))) [
  | inl here ↦ absurd (let e : suc cut < i = rw here at h in omega arith)
  | inr lower ↦ elim (Bool-cases (ltb i (suc cut))) [
    | inl below ↦ cut_back_last value cut i (rw lower at h) (omega (arith, ltb→lt _ _ below))
    | inr top ↦ let e : i ≡ suc cut = omega (arith, ltb_false→le _ _ top) in rw e lower
  ]
]

-- A text over the limit is cut to a prefix of at most `limit` bytes. The cut falls where a rune
-- starts, or at 0, and no rune starts behind the cut up to the limit.
pub truncate_utf8_cut :
    (value : List ℕ) (limit i : ℕ)
    → limit < length value
    → (truncate_utf8 value limit ++ drop (cut_back value limit) value ≡ value)
      × (length (truncate_utf8 value limit) ≡ cut_back value limit)
      × (cut_back value limit ≤ limit)
      × ((cut_back value limit ≡ 0)
          ⊎ (utf8_boundary (get_or value (cut_back value limit) 0) ≡ true))
      × ((i ≤ cut_back value limit) ⊎ (limit < i) ⊎ (utf8_boundary (get_or value i 0) ≡ false))
unfolding truncate_utf8
truncate_utf8_cut value limit i h =
    let long : leb (length value) limit ≡ false = ground arith in
    let low : cut_back value limit ≤ limit = cut_back-le value limit in
    rw long (
      take-append-drop (cut_back value limit) value,
      length-take_le (cut_back value limit) value (omega (arith, low)),
      low,
      cut_back_boundary value limit,
      ground (arith, cut_back_last value limit i),
    )

-- The reason that is sent: cut at its bound where it is over it.
abbrev pub sent_reason : List ℕ → List ℕ
sent_reason reason =
    if ltb max_error_reason_bytes (length reason)
    then truncate_utf8 reason max_error_reason_bytes
    else reason

sent_reason_short : (reason : List ℕ) → length (sent_reason reason) ≤ max_error_reason_bytes
sent_reason_short reason = elim (Bool-cases (ltb max_error_reason_bytes (length reason))) [
  | inl over ↦ rw over (
      let (_, size, low, _, _) =
        truncate_utf8_cut reason max_error_reason_bytes 0 (ltb→lt _ _ over) in
      omega (arith, size, low))
  | inr under ↦ rw under (ltb_false→le _ _ under)
]

abbrev pub error_wire : ProtocolError → List ℕ
error_wire p = le 4 p.error ++ string_wire (sent_reason p.reason)

kept :
    (p : ProtocolError)
    → length (sent_reason p.reason) ≤ max_error_reason_bytes
    → ◌≡◌ {A = ProtocolError}
        (record {
          error = p.error;
          reason =
              if ltb max_error_reason_bytes (length (sent_reason p.reason))
              then []
              else sent_reason p.reason;
        })
        (record { error = p.error; reason = sent_reason p.reason })
kept p h = rw (le→ltb_false max_error_reason_bytes (length (sent_reason p.reason)) h)

Reads-protocol_error :
    (l : BinaryLimits) (p : ProtocolError)
    → IsValid l
    → p.error < 2 ^ 32
    → max_error_reason_bytes ≤ l.max_string_bytes
    → Reads l read_protocol_error
        (error_wire p)
        (record { error = p.error; reason = sent_reason p.reason })
unfolding read_protocol_error
Reads-protocol_error l p v he hs = Reads-bind _ (Reads-uint32 p.error he) (
    Reads-eq refl (kept p (sent_reason_short p.reason)) (
      Reads-map
        (λ r. record {
          error = p.error;
          reason = if ltb max_error_reason_bytes (length (or_empty r)) then [] else or_empty r;
        })
        (Reads-string v (sent_reason p.reason) (omega (arith, sent_reason_short p.reason)))))

error_wire_size : (p : ProtocolError) → length (error_wire p) ≤ max_error_reason_bytes + 8
error_wire_size p = omega (
  arith,
  sent_reason_short p.reason,
  length-append (le 4 p.error) (string_wire (sent_reason p.reason)),
  length-append (le 4 (length (sent_reason p.reason))) (sent_reason p.reason),
  length-le 4 p.error,
  length-le 4 (length (sent_reason p.reason)),
)

-- An error message always arrives: under valid limits that admit a string of 4096 bytes and the
-- eight bytes before it, an Error whose code fits a UInt32 is encoded whatever the length of its
-- reason, and decodes to the code and the reason that was sent, cut where it was too long.
pub protocol_error_round_trip :
    (l : BinaryLimits) (p : ProtocolError)
    → IsValid l
    → p.error < 2 ^ 32
    → max_error_reason_bytes ≤ l.max_string_bytes
    → max_error_reason_bytes + 8 ≤ l.max_message_bytes
    → (encode_protocol_error p l ≡ ok (error_wire p))
      × (decode_protocol_error (error_wire p) l
          ≡ ok (record { error = p.error; reason = sent_reason p.reason }))
unfolding encode_protocol_error decode_protocol_error
protocol_error_round_trip l p v he hs hm = (
  encode-emits v (Emits-after (Emits-uint32 p.error) (Emits-string v (sent_reason p.reason)))
      (omega (arith, sent_reason_short p.reason)) (omega (arith, error_wire_size p)),
  ap (λ b. decode_body read_protocol_error b l) (sym (append-nil (error_wire p)))
      ∙ decode_body-Reads [] v (Reads-protocol_error l p v he hs)
          (omega (arith, error_wire_size p, ap length (append-nil (error_wire p)))),
)
