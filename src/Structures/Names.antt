-- ===== src/Structures/Names.antt =====
-- The wire forms and the round trips of QualifiedName, LocalizedText and ExtensionObject of
-- internal/opcua/nodeid.go, OPC 10000-6 5.2.2.13 to 5.2.2.15.
use opcda_access_adapter.Prelude.{
  ℕ, ◌^◌, ◌≤◌, ◌<◌, ◌≡◌, refl, sym, ap, Bool, true, false, inl, inr, List, [], ◌∷◌, ◌++◌, ◌==◌,
  ◌||◌, arith, if◌then◌else◌, length, none, some, append-nil, Bool-cases,
}
use opcda_access_adapter.Prelude.Bytes.{le}
use opcda_access_adapter.Errors.{encoding_error}
use opcda_access_adapter.Binary.Limits.{BinaryLimits, IsValid}
use opcda_access_adapter.Binary.Encoder.{fail, write_string}
use opcda_access_adapter.Binary.Decoder.{read_byte_value, ◌>>=◌}
use opcda_access_adapter.Binary.Emits.{Emits, Emits-then, Emits-skip, Emits-iff}
use opcda_access_adapter.Binary.Reads.{Reads, Reads-bind, Reads-map, Reads-eq, Reads-give}
use opcda_access_adapter.Binary.Scalars.{Reads-uint16, Reads-byte}
use opcda_access_adapter.Binary.Texts.{Reads-string, Reads-byte_string, or_empty}
use opcda_access_adapter.Binary.Writes.{
  string_wire, Emits-after, Emits-string, Emits-byte_string, Emits-uint16, Emits-byte,
}
use opcda_access_adapter.Binary.Optional.{
  is_some, has_bit, non_empty, write_optional, read_if, optional_wire,
}
use opcda_access_adapter.NodeId.{NodeId}
use opcda_access_adapter.NodeId.Wire.{identifier_wire, IdentifierFits, Emits-node}
use opcda_access_adapter.NodeId.Reading.{IsNodeId, canonical, Reads-node}
use opcda_access_adapter.Structures.{
  QualifiedName, write_qualified_name, read_qualified_name, LocalizedText, write_localized_text,
  read_localized_text, read_text, text_mask, has_locale, has_text, ExtensionObject,
  write_extension_object, write_extension_body, read_extension_object, read_extension_body,
}

abbrev pub qualified_name_wire : QualifiedName → List ℕ
qualified_name_wire q = le 2 q.namespace ++ string_wire q.name

-- A string that is left out where it is empty.
abbrev pub text_wire : List ℕ → List ℕ
text_wire s = optional_wire string_wire (non_empty s)

abbrev pub localized_text_wire : LocalizedText → List ℕ
localized_text_wire t =
    (text_mask (is_some (non_empty t.locale)) (is_some (non_empty t.text)) ∷ [])
    ++ (text_wire t.locale ++ text_wire t.text)

abbrev pub TextFits : BinaryLimits → LocalizedText → Type 0
TextFits l t = (length t.locale ≤ l.max_string_bytes) × (length t.text ≤ l.max_string_bytes)

or_empty-non_empty : (s : List ℕ) → or_empty (non_empty s) ≡ s
or_empty-non_empty [] = refl
or_empty-non_empty (b ∷ bs) = refl

locale_bit : (a b : Bool) → has_bit (text_mask a b) has_locale ≡ a
locale_bit true true = refl
locale_bit true false = refl
locale_bit false true = refl
locale_bit false false = refl

text_bit : (a b : Bool) → has_bit (text_mask a b) has_text ≡ b
text_bit true true = refl
text_bit true false = refl
text_bit false true = refl
text_bit false false = refl

module _ {l : BinaryLimits} (v : IsValid l) where
  pub Emits-qualified_name :
      (q : QualifiedName)
      → Emits l
          (write_qualified_name q)
          (qualified_name_wire q)
          (length q.name ≤ l.max_string_bytes)
  unfolding write_qualified_name
  Emits-qualified_name q = Emits-after (Emits-uint16 q.namespace) (Emits-string v q.name)

  pub Reads-qualified_name :
      (q : QualifiedName)
      → q.namespace < 2 ^ 16
      → length q.name ≤ l.max_string_bytes
      → Reads l read_qualified_name (qualified_name_wire q) q
  unfolding read_qualified_name
  Reads-qualified_name q h c = Reads-bind _ (Reads-uint16 q.namespace h) (
      Reads-map (λ s. record { namespace = q.namespace; name = or_empty s })
        (Reads-string v q.name c))

  pub Reads-text :
      (s : List ℕ) → length s ≤ l.max_string_bytes → Reads l read_text (string_wire s) s
  Reads-text s c = Reads-map or_empty (Reads-string v s c)

  Emits-non_empty :
      (s : List ℕ)
      → Emits l
          (write_optional write_string (non_empty s))
          (text_wire s)
          (length s ≤ l.max_string_bytes)
  Emits-non_empty [] = Emits-iff (λ _. tt) (λ _. omega arith) Emits-skip
  Emits-non_empty (b ∷ bs) = Emits-string v (b ∷ bs)

  Reads-non_empty :
      (s : List ℕ)
      → length s ≤ l.max_string_bytes
      → Reads l (read_if (is_some (non_empty s)) read_text) (text_wire s) (non_empty s)
  Reads-non_empty [] c = Reads-give none
  Reads-non_empty (b ∷ bs) c = Reads-map some (Reads-text (b ∷ bs) c)

  pub Emits-localized_text :
      (t : LocalizedText) → Emits l (write_localized_text t) (localized_text_wire t) (TextFits l t)
  unfolding write_localized_text
  Emits-localized_text t =
      Emits-after (Emits-byte _) (Emits-then (Emits-non_empty t.locale) (Emits-non_empty t.text))

  pub Reads-localized_text :
      (t : LocalizedText) → TextFits l t → Reads l read_localized_text (localized_text_wire t) t
  unfolding read_localized_text
  Reads-localized_text t c =
      let a = is_some (non_empty t.locale) in
      let b = is_some (non_empty t.text) in
      Reads-bind _ (Reads-byte (text_mask a b)) (
        rw (locale_bit a b, text_bit a b)
          (Reads-eq refl
            (λ i. record {
              locale = or_empty-non_empty t.locale i;
              text = or_empty-non_empty t.text i;
            })
            (Reads-bind _ (Reads-non_empty t.locale c.0) (
              Reads-map (λ s. record { locale = or_empty (non_empty t.locale); text = or_empty s })
                (Reads-non_empty t.text c.1)))))

-- The body of an ExtensionObject behind its TypeId, by the encoding byte.
unfoldable pub body_wire : ℕ → List ℕ → List ℕ
body_wire encoding body =
    if encoding == 0x00
    then 0x00 ∷ []
    else if (encoding == 0x01) || (encoding == 0x02)
    then (encoding ∷ []) ++ string_wire body
    else []

-- A body that can be written: none, or one of a defined encoding and within its bound.
abbrev pub BodyFits : BinaryLimits → ℕ → List ℕ → Type 0
BodyFits l encoding body =
    if encoding == 0x00
    then Unit {0}
    else if (encoding == 0x01) || (encoding == 0x02)
    then length body ≤ l.max_byte_string_bytes
    else ⊥

abbrev pub extension_wire : ExtensionObject → List ℕ
extension_wire x = identifier_wire x.type_id.type x.type_id 0 ++ body_wire x.encoding x.body

abbrev pub ExtensionFits : BinaryLimits → ExtensionObject → Type 0
ExtensionFits l x = IdentifierFits l x.type_id.type x.type_id × BodyFits l x.encoding x.body

-- What is read back: a body that was not written is empty.
unfoldable pub canonical_extension : ExtensionObject → ExtensionObject
canonical_extension x = record {
  type_id = canonical x.type_id;
  encoding = x.encoding;
  body = if x.encoding == 0x00 then [] else x.body;
}

module _ {l : BinaryLimits} (v : IsValid l) where
  Emits-undefined : Emits l (fail encoding_error) [] ⊥
  unfolding fail
  Emits-undefined = record {
    sticky = λ e x h. ground arith;
    emits = λ e hl hf c fits. absurd c;
    only_if = λ e hl hf hb. rw (hf, fail) (λ h. cc);
  }

  Emits-extension_body :
      (encoding : ℕ) (body : List ℕ)
      → Emits l
          (write_extension_body encoding body)
          (body_wire encoding body)
          (BodyFits l encoding body)
  unfolding write_extension_body body_wire
  Emits-extension_body encoding body = elim (Bool-cases (encoding == 0x00)) [
    | inl p ↦ rw p (Emits-byte 0x00)
    | inr p ↦ rw p (elim (Bool-cases ((encoding == 0x01) || (encoding == 0x02))) [
      | inl q ↦ rw q (Emits-after (Emits-byte encoding) (Emits-byte_string v body))
      | inr q ↦ rw q Emits-undefined
    ])
  ]

  pub Emits-extension_object :
      (x : ExtensionObject)
      → Emits l (write_extension_object x) (extension_wire x) (ExtensionFits l x)
  unfolding write_extension_object
  Emits-extension_object x =
      Emits-then (Emits-node v x.type_id) (Emits-extension_body x.encoding x.body)

  Reads-extension_body :
      (id : NodeId) (encoding : ℕ) (body : List ℕ)
      → BodyFits l encoding body
      → Reads l
          (do e ← read_byte_value; read_extension_body id e)
          (body_wire encoding body)
          (record {
            type_id = id;
            encoding = encoding;
            body = if encoding == 0x00 then [] else body;
          })
  unfolding read_extension_body body_wire
  Reads-extension_body id encoding body = elim (Bool-cases (encoding == 0x00)) [
    | inl p ↦ rw p (λ c.
        let e : encoding ≡ 0 = ground (arith, p) in
        Reads-eq (append-nil _) (ap (λ k. record { type_id = id; encoding = k; body = [] }) (sym e))
          (Reads-bind (read_extension_body id) (Reads-byte 0x00) (Reads-give _)))
    | inr p ↦ rw p (elim (Bool-cases ((encoding == 0x01) || (encoding == 0x02))) [
      | inl q ↦ rw q (λ c.
          Reads-bind (read_extension_body id) (Reads-byte encoding)
            (rw (p, q, read_extension_body) (Reads-map _ (Reads-byte_string v body c))))
      | inr q ↦ rw q (λ c. absurd c)
    ])
  ]

  pub Reads-extension_object :
      (x : ExtensionObject)
      → IsNodeId x.type_id
      → ExtensionFits l x
      → Reads l read_extension_object (extension_wire x) (canonical_extension x)
  unfolding read_extension_object canonical_extension
  Reads-extension_object x h c =
      Reads-bind (λ id. do encoding ← read_byte_value; read_extension_body id encoding)
        (Reads-node v x.type_id h c.0)
        (Reads-extension_body (canonical x.type_id) x.encoding x.body c.1)
