-- ===== src/Structures.antt =====
-- internal/opcua/nodeid.go: QualifiedName, LocalizedText, ExtensionObject and
-- DiagnosticInfo. A value with its Has flag is an Option.
pub mod Names
pub mod Diagnostics
use opcda_access_adapter.Prelude.{
  ◌||◌, ℕ, zero, suc, ◌+◌, Bool, true, false, not, Option, none, some, List, [], ◌∷◌, ◌==◌, ltb,
  bit_or, if◌then◌else◌,
}
use opcda_access_adapter.Prelude.Int.{ℤ}
use opcda_access_adapter.Errors.{decoding_error, encoding_error, limits_error}
use opcda_access_adapter.Binary.Encoder.{
  Encoder, ◌>>◌, fail, write_byte_value, write_uint16, write_int32, write_status_code, write_string,
  write_byte_string,
}
use opcda_access_adapter.Binary.Decoder.{
  Reader, ◌>>=◌, give, give_up, read_byte_value, read_uint16, read_int32, read_status_code,
  read_string, read_byte_string,
}
use opcda_access_adapter.Binary.Optional.{
  is_some, has_bit, flag_if, non_empty, write_optional, read_if,
}
use opcda_access_adapter.Binary.Texts.{or_empty}
use opcda_access_adapter.NodeId.{NodeId, numeric_node_id, write_node_id, read_node_id}

pub record QualifiedName : Type 0 where
  pub namespace : ℕ
  pub name : List ℕ

unfoldable pub write_qualified_name : QualifiedName → Encoder → Encoder
write_qualified_name value = do write_uint16 value.namespace; write_string value.name

unfoldable pub read_qualified_name : Reader QualifiedName
read_qualified_name = do
  ns ← read_uint16
  name ← read_string
  give (record { namespace = ns; name = or_empty name })

abbrev pub has_locale : ℕ
has_locale = 0x01

abbrev pub has_text : ℕ
has_text = 0x02

pub record LocalizedText : Type 0 where
  pub locale : List ℕ
  pub text : List ℕ

abbrev pub text_mask : Bool → Bool → ℕ
text_mask a b = bit_or (flag_if a has_locale) (flag_if b has_text)

unfoldable pub write_localized_text : LocalizedText → Encoder → Encoder
write_localized_text value = do
  write_byte_value (text_mask (is_some (non_empty value.locale)) (is_some (non_empty value.text)))
  write_optional write_string (non_empty value.locale)
  write_optional write_string (non_empty value.text)

-- A string that is present or null, as the code keeps it in a field.
abbrev pub read_text : Reader (List ℕ)
read_text = do s ← read_string; give (or_empty s)

unfoldable pub read_localized_text : Reader LocalizedText
read_localized_text = do
  mask ← read_byte_value
  locale ← read_if (has_bit mask has_locale) read_text
  text ← read_if (has_bit mask has_text) read_text
  give (record { locale = or_empty locale; text = or_empty text })

-- The encoding byte of an ExtensionObject, and its body.
pub record ExtensionObject : Type 0 where
  pub type_id : NodeId
  pub encoding : ℕ
  pub body : List ℕ

unfoldable pub null_extension_object : ExtensionObject
unfolding numeric_node_id
null_extension_object = record { type_id = numeric_node_id 0 0; encoding = 0x00; body = [] }

-- The switch on the encoding in WriteExtensionObject.
unfoldable pub write_extension_body : ℕ → List ℕ → Encoder → Encoder
write_extension_body encoding body =
    if encoding == 0x00
    then write_byte_value 0x00
    else if (encoding == 0x01) || (encoding == 0x02)
    then (do write_byte_value encoding; write_byte_string body)
    else fail encoding_error

unfoldable pub write_extension_object : ExtensionObject → Encoder → Encoder
unfolding write_extension_body
write_extension_object value = do
  write_node_id value.type_id
  write_extension_body value.encoding value.body

unfoldable pub read_extension_body : NodeId → ℕ → Reader ExtensionObject
read_extension_body id encoding =
    if encoding == 0x00
    then give (record { type_id = id; encoding = encoding; body = [] })
    else if (encoding == 0x01) || (encoding == 0x02)
    then (do
      body ← read_byte_string
      give (record { type_id = id; encoding = encoding; body = or_empty body }))
    else give_up decoding_error

unfoldable pub read_extension_object : Reader ExtensionObject
unfolding read_extension_body
read_extension_object = do
  id ← read_node_id
  encoding ← read_byte_value
  read_extension_body id encoding

abbrev pub max_diagnostic_recursion : ℕ
max_diagnostic_recursion = 10

pub record DiagnosticFields : Type 0 where
  pub symbolic_id : Option ℤ
  pub namespace_uri : Option ℤ
  pub locale : Option ℤ
  pub localized_text : Option ℤ
  pub additional_info : Option (List ℕ)
  pub inner_status_code : Option ℕ

-- `nested` holds what InnerDiagnosticInfo points to; `flat` has a nil pointer there.
pub data DiagnosticInfo : Type 0 where
  flat : DiagnosticFields → DiagnosticInfo
  nested : DiagnosticFields → DiagnosticInfo → DiagnosticInfo

abbrev pub diagnostic_mask : Bool → Bool → Bool → Bool → Bool → Bool → Bool → ℕ
diagnostic_mask symbolic uri text locale info status inner = bit_or (flag_if symbolic 0x01) (
    bit_or (flag_if uri 0x02) (
      bit_or (flag_if text 0x04) (
        bit_or (flag_if locale 0x08)
          (bit_or (flag_if info 0x10) (bit_or (flag_if status 0x20) (flag_if inner 0x40))))))

abbrev pub mask_of : DiagnosticFields → Bool → ℕ
mask_of f inner =
    diagnostic_mask (is_some f.symbolic_id) (is_some f.namespace_uri) (is_some f.localized_text)
      (is_some f.locale) (is_some f.additional_info) (is_some f.inner_status_code) inner

-- The fields in stream order: the locale comes before the text.
unfoldable pub write_diagnostic_fields : DiagnosticFields → Bool → Encoder → Encoder
write_diagnostic_fields f inner = do
  write_byte_value (mask_of f inner)
  write_optional write_int32 f.symbolic_id
  write_optional write_int32 f.namespace_uri
  write_optional write_int32 f.locale
  write_optional write_int32 f.localized_text
  write_optional write_string f.additional_info
  write_optional write_status_code f.inner_status_code

unfoldable pub write_diagnostic_info_at : DiagnosticInfo → ℕ → Encoder → Encoder
unfolding write_diagnostic_fields
write_diagnostic_info_at (flat f) depth =
    if ltb max_diagnostic_recursion depth
    then fail limits_error
    else write_diagnostic_fields f false
write_diagnostic_info_at (nested f inner) depth =
    let rest = write_diagnostic_info_at inner (depth + 1) in
    if ltb max_diagnostic_recursion depth
    then fail limits_error
    else (do write_diagnostic_fields f true; rest)

unfoldable pub write_diagnostic_info : DiagnosticInfo → Encoder → Encoder
unfolding write_diagnostic_info_at
write_diagnostic_info value = write_diagnostic_info_at value 0

unfoldable pub read_diagnostic_fields : ℕ → Reader DiagnosticFields
read_diagnostic_fields mask = do
  symbolic ← read_if (has_bit mask 0x01) read_int32
  uri ← read_if (has_bit mask 0x02) read_int32
  locale ← read_if (has_bit mask 0x08) read_int32
  text ← read_if (has_bit mask 0x04) read_int32
  info ← read_if (has_bit mask 0x10) read_text
  status ← read_if (has_bit mask 0x20) read_status_code
  give (record {
    symbolic_id = symbolic;
    namespace_uri = uri;
    locale = locale;
    localized_text = text;
    additional_info = info;
    inner_status_code = status;
  })

-- `levels` counts the calls that may still be made: at depth d it is 11 - d, and the call whose
-- depth is over the ceiling of 10 is refused.
unfoldable pub read_diagnostic_levels : ℕ → Reader DiagnosticInfo
unfolding read_diagnostic_fields
read_diagnostic_levels zero = give_up limits_error
read_diagnostic_levels (suc levels) = do
  mask ← read_byte_value
  fields ← read_diagnostic_fields mask
  (let inner = read_diagnostic_levels levels in
      if has_bit mask 0x40
      then (do value ← inner; give (nested fields value))
      else give (flat fields))

unfoldable pub read_diagnostic_info : Reader DiagnosticInfo
unfolding read_diagnostic_levels
read_diagnostic_info = read_diagnostic_levels (max_diagnostic_recursion + 1)
