-- ===== src/Structures/Diagnostics.antt =====
-- The wire form and the round trip of DiagnosticInfo of internal/opcua/nodeid.go, OPC 10000-6
-- 5.2.2.12: a chain of at most eleven infos, each with a mask of what is present.
use opcda_access_adapter.Prelude.{
  ℕ, zero, suc, ◌+◌, ◌^◌, ◌≤◌, ◌<◌, ◌≡◌, refl, sym, ap, Bool, true, false, inl, inr, List, [], ◌∷◌,
  ◌++◌, ◌&&◌, arith, not, length, none, some, append-nil, Option, Bool-cases, ltb, ltb→lt,
  ltb_false→le,
}
use opcda_access_adapter.Prelude.Int.{ℤ, IsInt32, word}
use opcda_access_adapter.Prelude.Bytes.{le}
use opcda_access_adapter.Errors.{limits_error}
use opcda_access_adapter.Binary.Limits.{BinaryLimits, IsValid}
use opcda_access_adapter.Binary.Encoder.{fail, write_string, write_int32, write_status_code}
use opcda_access_adapter.Binary.Decoder.{read_int32, read_status_code}
use opcda_access_adapter.Binary.Emits.{Emits, Emits-then, Emits-skip, Emits-iff}
use opcda_access_adapter.Binary.Reads.{Reads, Reads-bind, Reads-map, Reads-eq, Reads-give}
use opcda_access_adapter.Binary.Scalars.{Reads-byte, Reads-int32, Reads-status_code}
use opcda_access_adapter.Binary.Writes.{
  string_wire, Emits-after, Emits-string, Emits-byte, Emits-int32, Emits-status_code,
}
use opcda_access_adapter.Binary.Optional.{
  is_some, has_bit, write_optional, optional_wire, Optionally, Emits-optional, Reads-if, all_bools,
  all_bools_sound,
}
use opcda_access_adapter.Structures.{
  DiagnosticFields, DiagnosticInfo, flat, nested, write_diagnostic_fields, write_diagnostic_info_at,
  write_diagnostic_info, read_diagnostic_fields, read_diagnostic_levels, read_diagnostic_info,
  diagnostic_mask, mask_of, read_text, max_diagnostic_recursion,
}
use opcda_access_adapter.Structures.Names.{Reads-text}

abbrev pub index_wire : ℤ → List ℕ
index_wire z = le 4 (word 32 z)

abbrev pub fields_wire : DiagnosticFields → List ℕ
fields_wire f =
    optional_wire index_wire f.symbolic_id
    ++ (optional_wire index_wire f.namespace_uri
        ++ (optional_wire index_wire f.locale
            ++ (optional_wire index_wire f.localized_text
                ++ (optional_wire string_wire f.additional_info
                    ++ optional_wire (le 4) f.inner_status_code))))

unfoldable pub diagnostic_wire : DiagnosticInfo → List ℕ
diagnostic_wire (flat f) = (mask_of f false ∷ []) ++ fields_wire f
diagnostic_wire (nested f inner) = ((mask_of f true ∷ []) ++ fields_wire f) ++ diagnostic_wire inner

-- How many infos hang below the outermost one.
unfoldable pub depth_of : DiagnosticInfo → ℕ
depth_of (flat f) = 0
depth_of (nested f inner) = suc (depth_of inner)

-- The values of the fields: int32 indices, bounded text and uint32 status codes.
pub record IsFields (l : BinaryLimits) (f : DiagnosticFields) : Type 0 where
  pub symbolic_fits : Optionally IsInt32 f.symbolic_id
  pub uri_fits : Optionally IsInt32 f.namespace_uri
  pub locale_fits : Optionally IsInt32 f.locale
  pub text_fits : Optionally IsInt32 f.localized_text
  pub info_fits : Optionally (λ s. length s ≤ l.max_string_bytes) f.additional_info
  pub status_fits : Optionally (λ n. n < 2 ^ 32) f.inner_status_code

abbrev pub IsDiagnostic : BinaryLimits → DiagnosticInfo → Type 0
IsDiagnostic l (flat f) = IsFields l f
IsDiagnostic l (nested f inner) = IsFields l f × IsDiagnostic l inner

-- The additional infos of the chain, which the encoder bounds.
abbrev pub InfosFit : BinaryLimits → DiagnosticInfo → Type 0
InfosFit l (flat f) = Optionally (λ s. length s ≤ l.max_string_bytes) f.additional_info
InfosFit l (nested f inner) =
    Optionally (λ s. length s ≤ l.max_string_bytes) f.additional_info × InfosFit l inner

-- Each bit of the mask tells the presence of its own field.
abbrev same : Bool → Bool → Bool
same true y = y
same false y = not y

abbrev bits_right : Bool → Bool → Bool → Bool → Bool → Bool → Bool → Bool
bits_right a b c d e f g =
    let m = diagnostic_mask a b c d e f g in
    same (has_bit m 0x01) a
    && same (has_bit m 0x02) b
    && same (has_bit m 0x04) c
    && same (has_bit m 0x08) d
    && same (has_bit m 0x10) e
    && same (has_bit m 0x20) f
    && same (has_bit m 0x40) g

mask_bits : (a b c d e f g : Bool) → bits_right a b c d e f g ≡ true
mask_bits a b c d e f g =
    all_bools_sound (λ x. bits_right a b c d e f x) g
      (all_bools_sound (λ x. all_bools (λ g'. bits_right a b c d e x g')) f
        (all_bools_sound (λ x. all_bools (λ f'. all_bools (λ g'. bits_right a b c d x f' g'))) e
          (four a b c d)))
  where
    four :
        (a b c d : Bool)
        → all_bools (λ x. all_bools (λ f'. all_bools (λ g'. bits_right a b c d x f' g'))) ≡ true
    four true true true true = refl
    four true true true false = refl
    four true true false true = refl
    four true true false false = refl
    four true false true true = refl
    four true false true false = refl
    four true false false true = refl
    four true false false false = refl
    four false true true true = refl
    four false true true false = refl
    four false true false true = refl
    four false true false false = refl
    four false false true true = refl
    four false false true false = refl
    four false false false true = refl
    four false false false false = refl

and_true : (x y : Bool) → (x && y) ≡ true → (x ≡ true) × (y ≡ true)
and_true x y h = ground arith

same_eq : (x y : Bool) → same x y ≡ true → x ≡ y
same_eq true y h = sym h
same_eq false y h = ground arith

record Bits (m : ℕ) (a b c d e f g : Bool) : Type 0 where
  symbolic : has_bit m 0x01 ≡ a
  uri : has_bit m 0x02 ≡ b
  text : has_bit m 0x04 ≡ c
  locale : has_bit m 0x08 ≡ d
  info : has_bit m 0x10 ≡ e
  status : has_bit m 0x20 ≡ f
  inner : has_bit m 0x40 ≡ g

Bits-of : (a b c d e f g : Bool) → Bits (diagnostic_mask a b c d e f g) a b c d e f g
Bits-of a b c d e f g =
    let (r6, h7) = and_true _ _ (mask_bits a b c d e f g) in
    let (r5, h6) = and_true _ _ r6 in
    let (r4, h5) = and_true _ _ r5 in
    let (r3, h4) = and_true _ _ r4 in
    let (r2, h3) = and_true _ _ r3 in
    let (h1, h2) = and_true _ _ r2 in
    record {
      symbolic = same_eq _ _ h1;
      uri = same_eq _ _ h2;
      text = same_eq _ _ h3;
      locale = same_eq _ _ h4;
      info = same_eq _ _ h5;
      status = same_eq _ _ h6;
      inner = same_eq _ _ h7;
    }

module _ {l : BinaryLimits} (v : IsValid l) where
  Emits-index :
      (o : Option ℤ)
      → Emits l (write_optional write_int32 o) (optional_wire index_wire o) (Unit {0})
  Emits-index none = Emits-skip
  Emits-index (some z) = Emits-int32 z

  Emits-code :
      (o : Option ℕ)
      → Emits l (write_optional write_status_code o) (optional_wire (le 4) o) (Unit {0})
  Emits-code none = Emits-skip
  Emits-code (some n) = Emits-status_code n

  Emits-fields :
      (f : DiagnosticFields) (inner : Bool)
      → Emits l
          (write_diagnostic_fields f inner)
          ((mask_of f inner ∷ []) ++ fields_wire f)
          (Optionally (λ s. length s ≤ l.max_string_bytes) f.additional_info)
  unfolding write_diagnostic_fields
  Emits-fields f inner =
      Emits-iff (λ c. (c, tt)) (λ c. c.0)
        (Emits-after (Emits-byte (mask_of f inner)) (
          Emits-after (Emits-index f.symbolic_id) (
            Emits-after (Emits-index f.namespace_uri) (
              Emits-after (Emits-index f.locale) (
                Emits-after (Emits-index f.localized_text) (
                  Emits-then
                    (Emits-optional write_string string_wire _ (Emits-string v) f.additional_info)
                    (Emits-code f.inner_status_code)))))))

  Reads-fields :
      (f : DiagnosticFields) (inner : Bool)
      → IsFields l f
      → Reads l (read_diagnostic_fields (mask_of f inner)) (fields_wire f) f
  unfolding read_diagnostic_fields
  Reads-fields f inner h =
      let bits =
        Bits-of (is_some f.symbolic_id) (is_some f.namespace_uri) (is_some f.localized_text)
          (is_some f.locale) (is_some f.additional_info) (is_some f.inner_status_code) inner in
      rw (bits.symbolic, bits.uri, bits.locale, bits.text, bits.info, bits.status)
        (Reads-bind _ (Reads-if read_int32 index_wire IsInt32 Reads-int32 _ h.symbolic_fits) (
          Reads-bind _ (Reads-if read_int32 index_wire IsInt32 Reads-int32 _ h.uri_fits) (
            Reads-bind _ (Reads-if read_int32 index_wire IsInt32 Reads-int32 _ h.locale_fits) (
              Reads-bind _ (Reads-if read_int32 index_wire IsInt32 Reads-int32 _ h.text_fits) (
                Reads-bind _ (Reads-if read_text string_wire _ (Reads-text v) _ h.info_fits) (
                  Reads-map _
                    (Reads-if read_status_code (le 4) _ Reads-status_code _ h.status_fits)))))))

  inner_bit : (f : DiagnosticFields) (inner : Bool) → has_bit (mask_of f inner) 0x40 ≡ inner
  inner_bit f inner =
      (Bits-of (is_some f.symbolic_id) (is_some f.namespace_uri) (is_some f.localized_text)
        (is_some f.locale) (is_some f.additional_info) (is_some f.inner_status_code) inner).inner

  Reads-levels :
      (levels : ℕ) (x : DiagnosticInfo)
      → IsDiagnostic l x
      → depth_of x < levels
      → Reads l (read_diagnostic_levels levels) (diagnostic_wire x) x
  unfolding read_diagnostic_levels diagnostic_wire depth_of
  Reads-levels zero x h d = absurd (omega arith)
  Reads-levels (suc levels) (flat f) h d =
      Reads-eq (ap (λ r. mask_of f false ∷ r) (append-nil (fields_wire f))) refl (
        Reads-bind _ (Reads-byte (mask_of f false))
          (Reads-bind _ (Reads-fields f false h) (rw (inner_bit f false) (Reads-give (flat f)))))
  Reads-levels (suc levels) (nested f inner) h d = Reads-bind _ (Reads-byte (mask_of f true)) (
      Reads-bind _ (Reads-fields f true h.0) (
        rw (inner_bit f true) (Reads-map (nested f) (Reads-levels levels inner h.1 (omega arith)))))

  pub Reads-diagnostic_info :
      (x : DiagnosticInfo)
      → IsDiagnostic l x
      → depth_of x ≤ max_diagnostic_recursion
      → Reads l read_diagnostic_info (diagnostic_wire x) x
  unfolding read_diagnostic_info
  Reads-diagnostic_info x h d = Reads-levels (max_diagnostic_recursion + 1) x h (omega arith)

  -- A chain that would be written below the ceiling is refused, whatever it holds.
  Emits-refused : (C : Type 0) {bs : List ℕ} → ¬ C → Emits l (fail limits_error) bs C
  unfolding fail
  Emits-refused C no_fit = record {
    sticky = λ e x h. ground arith;
    emits = λ e hl hf c fits. absurd (no_fit c);
    only_if = λ e hl hf hb. rw (hf, fail) (λ h. cc);
  }

  abbrev Fits : DiagnosticInfo → ℕ → Type 0
  Fits x depth = InfosFit l x × (depth + depth_of x ≤ max_diagnostic_recursion)

  Emits-at :
      (x : DiagnosticInfo) (depth : ℕ)
      → Emits l (write_diagnostic_info_at x depth) (diagnostic_wire x) (Fits x depth)
  unfolding write_diagnostic_info_at diagnostic_wire depth_of
  Emits-at (flat f) depth = elim (Bool-cases (ltb max_diagnostic_recursion depth)) [
    | inl over ↦ rw over (Emits-refused _ (λ c. omega (arith, ltb→lt _ _ over)))
    | inr under ↦ rw under (
        Emits-iff (λ c. c.0) (λ c. (c, omega (arith, ltb_false→le _ _ under)))
          (Emits-fields f false))
  ]
  Emits-at (nested f inner) depth = elim (Bool-cases (ltb max_diagnostic_recursion depth)) [
    | inl over ↦ rw over (Emits-refused _ (λ c. omega (arith, c.1, ltb→lt _ _ over)))
    | inr under ↦ rw under (
        Emits-iff (λ c. (c.0.0, (c.0.1, omega (arith, c.1))))
          (λ c. ((c.0, c.1.0), omega (arith, c.1.1)))
          (Emits-then (Emits-fields f true) (Emits-at inner (depth + 1))))
  ]

  pub Emits-diagnostic_info :
      (x : DiagnosticInfo)
      → Emits l
          (write_diagnostic_info x)
          (diagnostic_wire x)
          (InfosFit l x × (depth_of x ≤ max_diagnostic_recursion))
  unfolding write_diagnostic_info
  Emits-diagnostic_info x =
      Emits-iff (λ c. (c.0, omega (arith, c.1))) (λ c. (c.0, omega (arith, c.1))) (Emits-at x 0)
