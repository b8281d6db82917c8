-- ===== src/Uacp/HelloLaws.antt =====
-- The bodies of internal/opcua/uacp.go: what a decoded Hello satisfies, the round trips, what is
-- done with bytes that are left over, and what is negotiated.
use opcda_access_adapter.Prelude.{
  ℕ, ◌^◌, ◌≤◌, ◌<◌, ◌≡◌, refl, false, List, [], ◌∷◌, ◌++◌, leb, length, arith, length-append,
  append-nil,
}
use opcda_access_adapter.Prelude.Bytes.{le}
use opcda_access_adapter.Errors.{
  ok, err, codec, status_bad_tcp_message_type_invalid, >>=-eq-ok, ◌>>=◌,
}
use opcda_access_adapter.Binary.Limits.{BinaryLimits, IsValid}
use opcda_access_adapter.Binary.Emits.{Emits, encode-emits}
use opcda_access_adapter.Binary.Body.{
  Ends, Ends-bind, Ends-done, Ends-last, decode_body, decode_body-Ends, by_tail,
}
use opcda_access_adapter.Binary.Scalars.{Reads-uint32}
use opcda_access_adapter.Binary.Texts.{Reads-string}
use opcda_access_adapter.Binary.Writes.{string_wire, Emits-after, Emits-uint32, Emits-string}
use opcda_access_adapter.Uacp.Hello.{
  Hello, Acknowledge, protocol_version, minimum_buffer_size, max_endpoint_url_bytes,
  read_hello_fields, check_hello, decode_hello, write_hello, encode_hello, min_uint32,
  negotiate_acknowledge,
}

abbrev pub hello_wire : Hello → List ℕ
hello_wire h =
    le 4 h.version
    ++ (le 4 h.receive_buffer_size
        ++ (le 4 h.send_buffer_size
            ++ (le 4 h.max_message_size ++ (le 4 h.max_chunk_count ++ string_wire h.endpoint_url))))

-- A Hello that the server accepts, with its fields in the range of a uint32.
pub record IsHello (h : Hello) : Type 0 where
  pub version_served : h.version ≡ protocol_version
  pub receive_floor : minimum_buffer_size ≤ h.receive_buffer_size
  pub send_floor : minimum_buffer_size ≤ h.send_buffer_size
  pub url_short : length h.endpoint_url < max_endpoint_url_bytes
  pub receive_fits : h.receive_buffer_size < 2 ^ 32
  pub send_fits : h.send_buffer_size < 2 ^ 32
  pub message_fits : h.max_message_size < 2 ^ 32
  pub chunks_fit : h.max_chunk_count < 2 ^ 32

check_hello_sound :
    (h g : Hello)
    → check_hello h ≡ ok g
    → (g.version ≡ protocol_version)
      × (minimum_buffer_size ≤ g.receive_buffer_size)
      × (minimum_buffer_size ≤ g.send_buffer_size)
      × (length g.endpoint_url < max_endpoint_url_bytes)
unfolding check_hello
check_hello_sound h g e = ground arith

check_hello_complete : (h : Hello) → IsHello h → check_hello h ≡ ok h
unfolding check_hello
check_hello_complete h v = ground arith

-- Whatever the body holds, a Hello that is accepted speaks version 0, has both buffers at the floor
-- or above, and an endpoint URL under its bound.
pub decode_hello_sound :
    (body : List ℕ) (l : BinaryLimits) {h : Hello}
    → decode_hello body l ≡ ok h
    → (h.version ≡ protocol_version)
      × (minimum_buffer_size ≤ h.receive_buffer_size)
      × (minimum_buffer_size ≤ h.send_buffer_size)
      × (length h.endpoint_url < max_endpoint_url_bytes)
unfolding decode_hello
decode_hello_sound body l {h = h} e =
    let (g, _, checked) = >>=-eq-ok (decode_body read_hello_fields body l) check_hello e in
    check_hello_sound g h checked

module _ {l : BinaryLimits} (v : IsValid l) where
  Emits-hello :
      (h : Hello)
      → Emits l (write_hello h) (hello_wire h) (length h.endpoint_url ≤ l.max_string_bytes)
  unfolding write_hello
  Emits-hello h = Emits-after (Emits-uint32 h.version) (
      Emits-after (Emits-uint32 h.receive_buffer_size) (
        Emits-after (Emits-uint32 h.send_buffer_size) (
          Emits-after (Emits-uint32 h.max_message_size)
            (Emits-after (Emits-uint32 h.max_chunk_count) (Emits-string v h.endpoint_url)))))

  Ends-hello :
      (h : Hello)
      → IsHello h
      → length h.endpoint_url ≤ l.max_string_bytes
      → Ends l read_hello_fields (hello_wire h) h (codec status_bad_tcp_message_type_invalid)
  unfolding read_hello_fields
  Ends-hello h p c = Ends-bind _ (Reads-uint32 h.version (omega arith)) (
      Ends-bind _ (Reads-uint32 h.receive_buffer_size p.receive_fits) (
        Ends-bind _ (Reads-uint32 h.send_buffer_size p.send_fits) (
          Ends-bind _ (Reads-uint32 h.max_message_size p.message_fits) (
            Ends-bind _ (Reads-uint32 h.max_chunk_count p.chunks_fit)
              (Ends-last _ (Reads-string v h.endpoint_url c) (Ends-done h _))))))

  encode_hello_emits :
      (h : Hello)
      → IsHello h
      → length h.endpoint_url ≤ l.max_string_bytes
      → length (hello_wire h) ≤ l.max_message_bytes
      → encode_hello h l ≡ ok (hello_wire h)
  unfolding encode_hello
  encode_hello_emits h p c fits =
      let short : leb max_endpoint_url_bytes (length h.endpoint_url) ≡ false =
        ground (arith, p.url_short) in
      rw short (encode-emits v (Emits-hello h) c fits)

  decode_hello_bytes :
      (h : Hello) (tail : List ℕ)
      → IsHello h
      → length h.endpoint_url ≤ l.max_string_bytes
      → length (hello_wire h ++ tail) ≤ l.max_message_bytes
      → decode_hello (hello_wire h ++ tail) l
        ≡ by_tail tail (ok h) (err (codec status_bad_tcp_message_type_invalid))
  unfolding decode_hello
  decode_hello_bytes h tail p c fits =
      rw (decode_body-Ends tail v (Ends-hello h p c) fits) (checked tail)
    where
      checked :
          (tail : List ℕ)
          → (by_tail tail (ok h) (err (codec status_bad_tcp_message_type_invalid)) >>= check_hello)
            ≡ by_tail tail (ok h) (err (codec status_bad_tcp_message_type_invalid))
      checked [] = check_hello_complete h p
      checked (x ∷ xs) = refl

-- Under valid limits that its URL and the message keep to, a Hello of the served version, with
-- both buffers at the floor, a URL below its bound and fields that fit a UInt32 is encoded,
-- decodes to itself, and is refused where any byte follows it.
pub hello_round_trip :
    (l : BinaryLimits) (h : Hello) (x : ℕ) (more : List ℕ)
    → IsValid l
    → IsHello h
    → length h.endpoint_url ≤ l.max_string_bytes
    → length (hello_wire h ++ (x ∷ more)) ≤ l.max_message_bytes
    → (encode_hello h l ≡ ok (hello_wire h))
      × (decode_hello (hello_wire h) l ≡ ok h)
      × (decode_hello (hello_wire h ++ (x ∷ more)) l
          ≡ err (codec status_bad_tcp_message_type_invalid))
hello_round_trip l h x more v p c fits =
    let room : length (hello_wire h) ≤ l.max_message_bytes =
      omega (arith, length-append (hello_wire h) (x ∷ more)) in
    let alone : length (hello_wire h ++ []) ≤ l.max_message_bytes =
      rw (append-nil (hello_wire h)) room in
    (
      encode_hello_emits v h p c room,
      rw (append-nil (hello_wire h)) at (decode_hello_bytes v h [] p c alone),
      decode_hello_bytes v h (x ∷ more) p c fits,
    )

-- Where the negotiation succeeds, the buffers are at the floor or above and no larger than what
-- the other side sends or receives, nor than the server's; the message and chunk bounds are the
-- server's own.
pub negotiate_bounds :
    (h : Hello) (receive send message chunks : ℕ) {a : Acknowledge}
    → negotiate_acknowledge h receive send message chunks ≡ ok a
    → (a.version ≡ protocol_version)
      × (minimum_buffer_size ≤ a.receive_buffer_size)
      × (a.receive_buffer_size ≤ receive)
      × (a.receive_buffer_size ≤ h.send_buffer_size)
      × (minimum_buffer_size ≤ a.send_buffer_size)
      × (a.send_buffer_size ≤ send)
      × (a.send_buffer_size ≤ h.receive_buffer_size)
      × (a.max_message_size ≡ message)
      × (a.max_chunk_count ≡ chunks)
unfolding negotiate_acknowledge
negotiate_bounds h receive send message chunks e = ground arith

-- After DecodeHello accepted a Hello, the negotiation succeeds for every server whose two buffers
-- are at the floor or above.
pub negotiate_after_hello :
    (body : List ℕ) (l : BinaryLimits) {h : Hello} (receive send message chunks : ℕ)
    → decode_hello body l ≡ ok h
    → minimum_buffer_size ≤ receive
    → minimum_buffer_size ≤ send
    → (a : Acknowledge) × (negotiate_acknowledge h receive send message chunks ≡ ok a)
unfolding negotiate_acknowledge min_uint32
negotiate_after_hello body l {h = h} receive send message chunks e hr hs =
    let (_, floor_r, floor_s, _) = decode_hello_sound body l e in
    (
      record {
        version = protocol_version;
        receive_buffer_size = min_uint32 receive h.send_buffer_size;
        send_buffer_size = min_uint32 send h.receive_buffer_size;
        max_message_size = message;
        max_chunk_count = chunks;
      },
      ground (arith, floor_r, floor_s),
    )
