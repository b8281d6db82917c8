-- ===== src/NodeId/Expanded.antt =====
-- WriteExpandedNodeID and ReadExpandedNodeID of internal/opcua/nodeid.go, OPC 10000-6 5.2.2.10.
use opcda_access_adapter.Prelude.{
  ℕ, ◌^◌, ◌≤◌, ◌<◌, ◌≡◌, refl, Bool, true, false, not, List, [], ◌++◌, ◌==◌, bit_and, if◌then◌else◌,
  length,
}
use opcda_access_adapter.Prelude.Bytes.{le}
use opcda_access_adapter.Binary.Limits.{BinaryLimits, IsValid}
use opcda_access_adapter.Binary.Encoder.{write_string, write_uint32, skip}
use opcda_access_adapter.Binary.Emits.{Emits, Emits-then, Emits-skip, Emits-iff}
use opcda_access_adapter.Binary.Reads.{Reads, Reads-bind, Reads-map, Reads-give}
use opcda_access_adapter.Binary.Scalars.{Reads-uint32}
use opcda_access_adapter.Binary.Texts.{Reads-string, or_empty}
use opcda_access_adapter.Binary.Writes.{string_wire, Emits-string, Emits-uint32}
use opcda_access_adapter.NodeId.{
  NodeId, ExpandedNodeId, expanded_flags, clear_namespace, write_expanded_node_id,
  read_expanded_node_id, read_expanded_parts, read_namespace_uri, read_server_index,
  node_id_flag_namespace_uri, node_id_flag_server_index,
}
use opcda_access_adapter.NodeId.Wire.{identifier_wire, IdentifierFits, Emits-node_flags}
use opcda_access_adapter.NodeId.Reading.{IsNodeId, canonical, Reads-node_flags}

-- The node that is written: its namespace index is 0 where the URI is given.
abbrev pub sent_node : ExpandedNodeId → NodeId
sent_node x = clear_namespace x.has_namespace_uri x.node_id

unfoldable pub expanded_wire : ExpandedNodeId → List ℕ
expanded_wire x =
    identifier_wire (sent_node x).type (sent_node x)
      (expanded_flags x.has_namespace_uri x.has_server_index)
    ++ ((if x.has_namespace_uri then string_wire x.namespace_uri else [])
        ++ (if x.has_server_index then le 4 x.server_index else []))

-- The URI is bounded only where it is written.
abbrev pub UriFits : BinaryLimits → Bool → List ℕ → Type 0
UriFits l true uri = length uri ≤ l.max_string_bytes
UriFits l false uri = Unit {0}

abbrev pub ExpandedFits : BinaryLimits → ExpandedNodeId → Type 0
ExpandedFits l x =
    IdentifierFits l (sent_node x).type (sent_node x)
    × UriFits l x.has_namespace_uri x.namespace_uri

-- The value that is read back: absent parts at their zero values.
unfoldable pub canonical_expanded : ExpandedNodeId → ExpandedNodeId
canonical_expanded x = record {
  node_id = canonical (sent_node x);
  namespace_uri = if x.has_namespace_uri then x.namespace_uri else [];
  has_namespace_uri = x.has_namespace_uri;
  server_index = if x.has_server_index then x.server_index else 0;
  has_server_index = x.has_server_index;
}

pub record IsExpandedNodeId (x : ExpandedNodeId) : Type 0 where
  pub node_fits : IsNodeId (sent_node x)
  pub index_fits : x.server_index < 2 ^ 32

uri_flag : (a b : Bool) → not (bit_and (expanded_flags a b) node_id_flag_namespace_uri == 0) ≡ a
uri_flag true true = refl
uri_flag true false = refl
uri_flag false true = refl
uri_flag false false = refl

server_flag : (a b : Bool) → not (bit_and (expanded_flags a b) node_id_flag_server_index == 0) ≡ b
server_flag true true = refl
server_flag true false = refl
server_flag false true = refl
server_flag false false = refl

module _ {l : BinaryLimits} (v : IsValid l) where
  Emits-uri :
      (a : Bool) (uri : List ℕ)
      → Emits l
          (if a then write_string uri else skip)
          (if a then string_wire uri else [])
          (UriFits l a uri)
  Emits-uri true uri = Emits-string v uri
  Emits-uri false uri = Emits-skip

  Emits-server :
      (b : Bool) (index : ℕ)
      → Emits l (if b then write_uint32 index else skip) (if b then le 4 index else []) (Unit {0})
  Emits-server true index = Emits-uint32 index
  Emits-server false index = Emits-skip

  pub Emits-expanded :
      (x : ExpandedNodeId) → Emits l (write_expanded_node_id x) (expanded_wire x) (ExpandedFits l x)
  unfolding write_expanded_node_id expanded_wire
  Emits-expanded x =
      Emits-iff (λ c. (c.0, (c.1, tt))) (λ c. (c.0, c.1.0))
        (Emits-then (Emits-node_flags v (sent_node x) _) (
          Emits-then (Emits-uri x.has_namespace_uri x.namespace_uri)
            (Emits-server x.has_server_index x.server_index)))

  Reads-uri :
      (a : Bool) (uri : List ℕ)
      → UriFits l a uri
      → Reads l
          (read_namespace_uri a)
          (if a then string_wire uri else [])
          (a, if a then uri else [])
  unfolding read_namespace_uri
  Reads-uri true uri c = Reads-map (λ u. (true, or_empty u)) (Reads-string v uri c)
  Reads-uri false uri c = Reads-give (false, [])

  Reads-server :
      (b : Bool) (index : ℕ)
      → index < 2 ^ 32
      → Reads l (read_server_index b) (if b then le 4 index else []) (b, if b then index else 0)
  unfolding read_server_index
  Reads-server true index h = Reads-map (λ i. (true, i)) (Reads-uint32 index h)
  Reads-server false index h = Reads-give (false, 0)

  pub Reads-expanded :
      (x : ExpandedNodeId)
      → IsExpandedNodeId x
      → ExpandedFits l x
      → Reads l read_expanded_node_id (expanded_wire x) (canonical_expanded x)
  unfolding read_expanded_node_id read_expanded_parts expanded_wire canonical_expanded
  Reads-expanded x h c =
      Reads-bind read_expanded_parts
        (Reads-node_flags v (sent_node x) x.has_namespace_uri x.has_server_index h.node_fits c.0)
        (rw (uri_flag x.has_namespace_uri x.has_server_index) (
          rw (server_flag x.has_namespace_uri x.has_server_index) (
            Reads-bind _ (Reads-uri x.has_namespace_uri x.namespace_uri c.1)
              (Reads-map _ (Reads-server x.has_server_index x.server_index h.index_fits)))))
