-- ===== src/Binary/Texts.antt =====
-- What the methods of the decoder of internal/opcua/binary.go read back where a length prefix says
-- how much follows: strings, byte strings and array counts, with their null forms.
use opcda_access_adapter.Prelude.{
  ℕ, ◌%◌, ◌^◌, ◌≤◌, ◌<◌, ◌≡◌, refl, ap, ◌∙◌, List, [], arith, length, Option, none, some,
  append-nil, le→ltb_false,
}
use opcda_access_adapter.Prelude.Int.{pos, negsuc, word}
use opcda_access_adapter.Prelude.Bytes.{le}
use opcda_access_adapter.Binary.Limits.{BinaryLimits, IsValid}
use opcda_access_adapter.Binary.Decoder.{
  ◌>>=◌, read_length, check_length, read_body, read_string, read_byte_string,
}
use opcda_access_adapter.Binary.Reads.{
  Reads, Reads-take, Reads-map, Reads-eq, Reads-bind, Reads-give, Reads-limits,
}
use opcda_access_adapter.Binary.Scalars.{Reads-int32}
use opcda_access_adapter.Binary.Writes.{string_wire, null_wire}

-- What a decoder makes of a null or empty String or ByteString where it keeps no difference.
abbrev pub or_empty : Option (List ℕ) → List ℕ
or_empty none = []
or_empty (some s) = s

module _ {l : BinaryLimits} where
  Reads-check_some : (bound n : ℕ) → n ≤ bound → Reads l (check_length bound (pos n)) [] (some n)
  unfolding check_length
  Reads-check_some bound n h = record {
    runs = λ d tail hl hp. rw (le→ltb_false _ _ h) ((Reads-give (some n)).runs d tail hl hp);
  }

  Reads-check_null : (bound : ℕ) → Reads l (check_length bound (negsuc 0)) [] none
  unfolding check_length
  Reads-check_null bound = record { runs = λ d tail hl hp. (Reads-give none).runs d tail hl hp }

  pub Reads-length :
      (bound n : ℕ) → n ≤ bound → n < 2 ^ 31 → Reads l (read_length bound) (le 4 n) (some n)
  unfolding read_length word
  Reads-length bound n h fits =
      Reads-eq (append-nil _ ∙ ap (le 4) (let e : n % 2 ^ 32 ≡ n = omega arith in e)) refl (
        Reads-bind (check_length bound) (Reads-int32 (pos n) (omega arith))
          (Reads-check_some bound n h))

  pub Reads-null : (bound : ℕ) → Reads l (read_length bound) null_wire none
  unfolding read_length word
  Reads-null bound = Reads-eq (append-nil _) refl (
      Reads-bind (check_length bound) (Reads-int32 (negsuc 0) (omega arith))
        (Reads-check_null bound))

  Reads-body : (s : List ℕ) → Reads l (read_body (some (length s))) s (some s)
  unfolding read_body
  Reads-body s = Reads-map some (Reads-take s (length s) refl)

  Reads-no_body : Reads l (read_body none) [] none
  unfolding read_body
  Reads-no_body = Reads-give none

  Reads-prefixed :
      (bound : ℕ) (s : List ℕ)
      → length s ≤ bound
      → length s < 2 ^ 31
      → Reads l (do prefix ← read_length bound; read_body prefix) (string_wire s) (some s)
  Reads-prefixed bound s h fits =
      Reads-bind read_body (Reads-length bound (length s) h fits) (Reads-body s)

  Reads-prefixed_null :
      (bound : ℕ) → Reads l (do prefix ← read_length bound; read_body prefix) null_wire none
  Reads-prefixed_null bound =
      Reads-eq (append-nil _) refl (Reads-bind read_body (Reads-null bound) Reads-no_body)

  pub Reads-string :
      (v : IsValid l) (s : List ℕ)
      → length s ≤ l.max_string_bytes
      → Reads l read_string (string_wire s) (some s)
  unfolding read_string
  Reads-string v s h =
      Reads-limits (λ k. do prefix ← read_length k.max_string_bytes; read_body prefix)
        (Reads-prefixed _ s h (omega arith))

  pub Reads-null_string : Reads l read_string null_wire none
  unfolding read_string
  Reads-null_string =
      Reads-limits (λ k. do prefix ← read_length k.max_string_bytes; read_body prefix)
        (Reads-prefixed_null _)

  pub Reads-byte_string :
      (v : IsValid l) (s : List ℕ)
      → length s ≤ l.max_byte_string_bytes
      → Reads l read_byte_string (string_wire s) (some s)
  unfolding read_byte_string
  Reads-byte_string v s h =
      Reads-limits (λ k. do prefix ← read_length k.max_byte_string_bytes; read_body prefix)
        (Reads-prefixed _ s h (omega arith))

  pub Reads-null_byte_string : Reads l read_byte_string null_wire none
  unfolding read_byte_string
  Reads-null_byte_string =
      Reads-limits (λ k. do prefix ← read_length k.max_byte_string_bytes; read_body prefix)
        (Reads-prefixed_null _)
