-- ===== src/NodeId.antt =====
-- internal/opcua/nodeid.go: NodeID and ExpandedNodeID with their encodings. The string and the
-- opaque identifier are lists of bytes; Go's nil slice and the empty slice are one list.

pub mod Wire
pub mod Reading
pub mod Expanded
use opcda_access_adapter.Prelude.{
  ℕ, Bool, true, false, ◌&&◌, not, List, [], ◌∷◌, leb, ◌==◌, ◌%◌, bit_and, bit_or, if◌then◌else◌,
  ◌^◌,
}
use opcda_access_adapter.Errors.{decoding_error, encoding_error}
use opcda_access_adapter.Binary.Encoder.{
  Encoder, ◌>>◌, fail, write_byte_value, write_uint16, write_uint32, write_string,
  write_byte_string, write_guid, Guid, skip,
}
use opcda_access_adapter.Binary.Decoder.{
  Reader, ◌>>=◌, give, give_up, unless, read_byte_value, read_uint16, read_uint32, read_string,
  read_byte_string, read_guid,
}
use opcda_access_adapter.Binary.Texts.{or_empty}

-- `undefined` stands for the other values of the uint8.
pub data NodeIdType : Type 0 where
  numeric string guid opaque : NodeIdType
  undefined : ℕ → NodeIdType

abbrev pub node_id_encoding_mask : ℕ
node_id_encoding_mask = 0x3f

-- The bits that `&^ nodeIDEncodingMask` leaves of a byte.
abbrev pub node_id_flags_mask : ℕ
node_id_flags_mask = 0xc0

abbrev pub node_id_flag_namespace_uri : ℕ
node_id_flag_namespace_uri = 0x80

abbrev pub node_id_flag_server_index : ℕ
node_id_flag_server_index = 0x40

pub record NodeId : Type 0 where
  pub namespace : ℕ
  pub type : NodeIdType
  pub numeric_id : ℕ
  pub string_id : List ℕ
  pub guid_id : Guid
  pub opaque_id : List ℕ

-- Go's zero value.
abbrev pub zero_guid : Guid
zero_guid = record { data1 = 0; data2 = 0; data3 = 0; data4 = 0 ∷ 0 ∷ 0 ∷ 0 ∷ 0 ∷ 0 ∷ 0 ∷ 0 ∷ [] }

unfoldable pub numeric_node_id : ℕ → ℕ → NodeId
numeric_node_id ns id = record {
  namespace = ns;
  type = numeric;
  numeric_id = id;
  string_id = [];
  guid_id = zero_guid;
  opaque_id = [];
}

unfoldable pub string_node_id : ℕ → List ℕ → NodeId
string_node_id ns id = record {
  namespace = ns;
  type = string;
  numeric_id = 0;
  string_id = id;
  guid_id = zero_guid;
  opaque_id = [];
}

abbrev pub guid_node_id : ℕ → Guid → NodeId
guid_node_id ns id = record {
  namespace = ns;
  type = guid;
  numeric_id = 0;
  string_id = [];
  guid_id = id;
  opaque_id = [];
}

abbrev pub opaque_node_id : ℕ → List ℕ → NodeId
opaque_node_id ns id = record {
  namespace = ns;
  type = opaque;
  numeric_id = 0;
  string_id = [];
  guid_id = zero_guid;
  opaque_id = id;
}

abbrev pub is_numeric : NodeIdType → Bool
is_numeric numeric = true
is_numeric _ = false

unfoldable pub is_null : NodeId → Bool
is_null n = (n.namespace == 0) && is_numeric n.type && (n.numeric_id == 0)

bytes_equal : List ℕ → List ℕ → Bool
bytes_equal [] [] = true
bytes_equal [] (b ∷ bs) = false
bytes_equal (a ∷ as') [] = false
bytes_equal (a ∷ as') (b ∷ bs) = (a == b) && bytes_equal as' bs

guid_equal : Guid → Guid → Bool
unfolding bytes_equal
guid_equal g h =
    (g.data1 == h.data1)
    && (g.data2 == h.data2)
    && (g.data3 == h.data3)
    && bytes_equal g.data4 h.data4

-- The switch of Equal, where both types agree; the default compares the numbers.
same_identifier : NodeIdType → NodeIdType → NodeId → NodeId → Bool
unfolding bytes_equal guid_equal
same_identifier numeric numeric n m = n.numeric_id == m.numeric_id
same_identifier string string n m = bytes_equal n.string_id m.string_id
same_identifier guid guid n m = guid_equal n.guid_id m.guid_id
same_identifier opaque opaque n m = bytes_equal n.opaque_id m.opaque_id
same_identifier (undefined s) (undefined t) n m = (s == t) && (n.numeric_id == m.numeric_id)
same_identifier _ _ n m = false

unfoldable pub equal : NodeId → NodeId → Bool
unfolding same_identifier
equal n m = (n.namespace == m.namespace) && same_identifier n.type m.type n m

-- The cases of writeNodeIDWithFlags by the type of the identifier.
unfoldable pub write_numeric : NodeId → ℕ → Encoder → Encoder
write_numeric n flags =
    if (flags == 0) && (n.namespace == 0) && leb n.numeric_id 0xff
    then (do write_byte_value 0x00; write_byte_value (n.numeric_id % 2 ^ 8))
    else if (flags == 0) && leb n.namespace 0xff && leb n.numeric_id 0xffff
    then (do
      write_byte_value 0x01
      write_byte_value (n.namespace % 2 ^ 8)
      write_uint16 (n.numeric_id % 2 ^ 16))
    else (do
      write_byte_value (bit_or 0x02 flags)
      write_uint16 n.namespace
      write_uint32 n.numeric_id)

unfoldable pub write_identifier : NodeIdType → NodeId → ℕ → Encoder → Encoder
unfolding write_numeric
write_identifier numeric n flags = write_numeric n flags
write_identifier string n flags = do
  write_byte_value (bit_or 0x03 flags)
  write_uint16 n.namespace
  write_string n.string_id
write_identifier guid n flags = do
  write_byte_value (bit_or 0x04 flags)
  write_uint16 n.namespace
  write_guid n.guid_id
write_identifier opaque n flags = do
  write_byte_value (bit_or 0x05 flags)
  write_uint16 n.namespace
  write_byte_string n.opaque_id
write_identifier (undefined t) n flags = fail encoding_error

unfoldable pub write_node_id_with_flags : NodeId → ℕ → Encoder → Encoder
unfolding write_identifier
write_node_id_with_flags n flags = write_identifier n.type n flags

unfoldable pub write_node_id : NodeId → Encoder → Encoder
unfolding write_node_id_with_flags
write_node_id n = write_node_id_with_flags n 0

-- The cases of readNodeIDWithFlags by the low six bits of the encoding byte.
unfoldable pub read_identifier : ℕ → ℕ → Reader (NodeId × ℕ)
unfolding numeric_node_id string_node_id
read_identifier format flags =
    if format == 0x00
    then (do id ← read_byte_value; give (numeric_node_id 0 id, flags))
    else if format == 0x01
    then (do ns ← read_byte_value; id ← read_uint16; give (numeric_node_id ns id, flags))
    else if format == 0x02
    then (do ns ← read_uint16; id ← read_uint32; give (numeric_node_id ns id, flags))
    else if format == 0x03
    then (do ns ← read_uint16; id ← read_string; give (string_node_id ns (or_empty id), flags))
    else if format == 0x04
    then (do ns ← read_uint16; id ← read_guid; give (guid_node_id ns id, flags))
    else if format == 0x05
    then (do ns ← read_uint16; id ← read_byte_string; give (opaque_node_id ns (or_empty id), flags))
    else give_up decoding_error

unfoldable pub read_node_id_with_flags : Reader (NodeId × ℕ)
unfolding read_identifier
read_node_id_with_flags = do
  encoding ← read_byte_value
  read_identifier (bit_and encoding node_id_encoding_mask) (bit_and encoding node_id_flags_mask)

abbrev pub refuse_flags : NodeId × ℕ → Reader NodeId
refuse_flags (value, flags) = do _ ← unless (not (flags == 0)) decoding_error; give value

unfoldable pub read_node_id : Reader NodeId
unfolding read_node_id_with_flags
read_node_id = do answer ← read_node_id_with_flags; refuse_flags answer

pub record ExpandedNodeId : Type 0 where
  pub node_id : NodeId
  pub namespace_uri : List ℕ
  pub has_namespace_uri : Bool
  pub server_index : ℕ
  pub has_server_index : Bool

-- The flag bits that WriteExpandedNodeID collects.
abbrev pub expanded_flags : Bool → Bool → ℕ
expanded_flags uri server =
    bit_or (if uri then node_id_flag_namespace_uri else 0)
      (if server then node_id_flag_server_index else 0)

abbrev pub clear_namespace : Bool → NodeId → NodeId
clear_namespace true n = record n { namespace = 0 }
clear_namespace false n = n

unfoldable pub write_expanded_node_id : ExpandedNodeId → Encoder → Encoder
write_expanded_node_id value = do
  write_node_id_with_flags (clear_namespace value.has_namespace_uri value.node_id)
      (expanded_flags value.has_namespace_uri value.has_server_index)
  (if value.has_namespace_uri then write_string value.namespace_uri else skip)
  (if value.has_server_index then write_uint32 value.server_index else skip)

-- The optional parts that follow the node, by the flags it was read with.
unfoldable pub read_namespace_uri : Bool → Reader (Bool × List ℕ)
read_namespace_uri true = do uri ← read_string; give (true, or_empty uri)
read_namespace_uri false = give (false, [])

unfoldable pub read_server_index : Bool → Reader (Bool × ℕ)
read_server_index true = do index ← read_uint32; give (true, index)
read_server_index false = give (false, 0)

unfoldable pub read_expanded_parts : NodeId × ℕ → Reader ExpandedNodeId
unfolding read_namespace_uri read_server_index
read_expanded_parts (node, flags) = do
  uri ← read_namespace_uri (not (bit_and flags node_id_flag_namespace_uri == 0))
  server ← read_server_index (not (bit_and flags node_id_flag_server_index == 0))
  give (record {
    node_id = node;
    namespace_uri = uri.1;
    has_namespace_uri = uri.0;
    server_index = server.1;
    has_server_index = server.0;
  })

unfoldable pub read_expanded_node_id : Reader ExpandedNodeId
unfolding read_expanded_parts
read_expanded_node_id = do answer ← read_node_id_with_flags; read_expanded_parts answer
