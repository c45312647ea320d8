-- ===== src/Cdc.antt =====
-- storage/cdc_protocol.rs: the rows, mutations, frames and errors of the CDC protocol.
pub mod Encode
pub mod Reader
pub mod Decode
pub mod Cursor
pub mod Inverts
pub mod RoundTrip
pub mod InBounds
pub mod Strict
mod Tests
use Prim.Native.String.{String}
use pg_eddy.Common.{ℕ, ◌*◌, List, [], ◌∷◌}
use pg_eddy.Common.Int.{ℤ}
use pg_eddy.Json.{Fields}

abbrev pub protocol_magic : List ℕ
protocol_magic = b'P' ∷ b'E' ∷ b'D' ∷ b'Y' ∷ []

abbrev pub protocol_major : ℕ
protocol_major = 1

abbrev pub header_len : ℕ
header_len = 12

abbrev pub placeholder_event_lsn : ℕ
placeholder_event_lsn = 0

abbrev pub max_field_bytes : ℕ
max_field_bytes = 1024 * 1024

abbrev pub max_frame_payload_bytes : ℕ
max_frame_payload_bytes = 16 * 1024 * 1024

abbrev pub max_labels : ℕ
max_labels = 4096

abbrev pub kind_begin : ℕ
kind_begin = 0x01

abbrev pub kind_commit : ℕ
kind_commit = 0x02

abbrev pub kind_node_insert : ℕ
kind_node_insert = 0x10

abbrev pub kind_node_update : ℕ
kind_node_update = 0x11

abbrev pub kind_node_delete : ℕ
kind_node_delete = 0x12

abbrev pub kind_edge_insert : ℕ
kind_edge_insert = 0x20

abbrev pub kind_edge_update : ℕ
kind_edge_update = 0x21

abbrev pub kind_edge_delete : ℕ
kind_edge_delete = 0x22

abbrev pub kind_graph_reset : ℕ
kind_graph_reset = 0x30

-- `N` is the type of JSON numbers.
pub record NodeRow (N : Type 0) : Type 0 where
  pub node_id : ℤ
  pub labels : List (List ℕ)
  pub properties : Fields N

pub record EdgeRow (N : Type 0) : Type 0 where
  pub rel_id : ℤ
  pub rel_type : List ℕ
  pub source_node_id : ℤ
  pub target_node_id : ℤ
  pub properties : Fields N

pub data Mutation (N : Type 0) : Type 0 where
  node_insert : NodeRow N → Mutation N
  node_update : NodeRow N → NodeRow N → Mutation N
  node_delete : NodeRow N → Mutation N
  edge_insert : EdgeRow N → Mutation N
  edge_update : EdgeRow N → EdgeRow N → Mutation N
  edge_delete : EdgeRow N → Mutation N
  graph_reset : Mutation N

pub data Frame (N : Type 0) : Type 0 where
  begin_frame : (xid : ℕ) → Frame N
  commit_frame : (xid commit_lsn end_lsn : ℕ) → Frame N
  mutation_frame : (event_lsn : ℕ) → Mutation N → Frame N

pub data ProtocolError : Type 0 where
  header_truncated : ProtocolError
  invalid_magic : ProtocolError
  unsupported_major : ℕ → ProtocolError
  unsupported_flags : ℕ → ProtocolError
  unknown_kind : ℕ → ProtocolError
  payload_length_mismatch : (declared actual : ℕ) → ProtocolError
  payload_truncated : (offset needed remaining : ℕ) → ProtocolError
  trailing_payload : ℕ → ProtocolError
  field_too_large : (field_name : String) (length maximum : ℕ) → ProtocolError
  invalid_utf8 : String → ProtocolError
  invalid_json : List ℕ → ProtocolError
  properties_not_object : ProtocolError
  invalid_logical_message_envelope : ProtocolError
