-- ===== src/Cdc/Encode.antt =====
-- storage/cdc_protocol.rs: `encode_frame`, `encode_logical_message` and what they call.
-- A `&mut Vec<u8>` is passed in and returned.
use Prim.Native.String.{String}
use Prim.Native.Nat.{min}
use pg_eddy.Common.{ℕ, ◌-◌, ◌%◌, ◌^◌, List, [], ◌∷◌, ◌++◌, ◌||◌, ltb, if◌then◌else◌, length}
use pg_eddy.Common.{Result, ok, err, ◌>>=◌, ◌>>◌, fail_if}
use pg_eddy.Common.Bytes.{be_bytes}
use pg_eddy.Common.Int.{ℤ, to_bits}
use pg_eddy.Json.{Json, Fields, SerdeJson}
use pg_eddy.Cdc.{
  NodeRow, EdgeRow, Mutation, node_insert, node_update, node_delete, edge_insert, edge_update,
  edge_delete, graph_reset, Frame, begin_frame, commit_frame, mutation_frame, ProtocolError,
  field_too_large, invalid_json, protocol_magic, protocol_major, placeholder_event_lsn,
  max_field_bytes, max_frame_payload_bytes, max_labels, kind_begin, kind_commit, kind_node_insert,
  kind_node_update, kind_node_delete, kind_edge_insert, kind_edge_update, kind_edge_delete,
  kind_graph_reset,
}

unfoldable pub write_u16 : List ℕ → ℕ → List ℕ
write_u16 payload value = payload ++ be_bytes 2 value

unfoldable pub write_u32 : List ℕ → ℕ → List ℕ
write_u32 payload value = payload ++ be_bytes 4 value

unfoldable pub write_u64 : List ℕ → ℕ → List ℕ
write_u64 payload value = payload ++ be_bytes 8 value

unfoldable pub write_i64 : List ℕ → ℤ → List ℕ
write_i64 payload value = payload ++ be_bytes 8 (to_bits (2 ^ 63) value)

-- `u32::try_from(length)`, with the error that the code maps it to.
unfoldable pub u32_try_from : String → ℕ → Result ProtocolError ℕ
u32_try_from name len =
    if ltb len (2 ^ 32) then ok len else err (field_too_large name len (2 ^ 32 - 1))

unfoldable pub write_bytes : List ℕ → String → List ℕ → Result ProtocolError (List ℕ)
unfolding write_u32 u32_try_from
write_bytes payload name value = do
  fail_if (ltb max_field_bytes (length value)) (field_too_large name (length value) max_field_bytes)
  len ← u32_try_from name (length value)
  ok (write_u32 payload len ++ value)

unfoldable pub write_string : List ℕ → String → List ℕ → Result ProtocolError (List ℕ)
unfolding write_bytes
write_string payload name value = write_bytes payload name value

-- `.map_err(|error| ProtocolError::InvalidJson(error.to_string()))`
abbrev pub json_error {ℓ} : {A : Type ℓ} → Result (List ℕ) A → Result ProtocolError A
json_error (ok a) = ok a
json_error (err message) = err (invalid_json message)

unfoldable pub write_labels : List ℕ → List (List ℕ) → Result ProtocolError (List ℕ)
unfolding write_string
write_labels payload [] = ok payload
write_labels payload (label ∷ labels) = do
  payload' ← write_string payload "label" label
  write_labels payload' labels

unfoldable pub mutation_kind : {N : Type 0} → Mutation N → ℕ
mutation_kind (node_insert new) = kind_node_insert
mutation_kind (node_update old new) = kind_node_update
mutation_kind (node_delete old) = kind_node_delete
mutation_kind (edge_insert new) = kind_edge_insert
mutation_kind (edge_update old new) = kind_edge_update
mutation_kind (edge_delete old) = kind_edge_delete
mutation_kind graph_reset = kind_graph_reset

-- The header and the payload, as the end of `encode_frame` puts them together.
unfoldable pub frame_bytes : (kind payload_len : ℕ) → List ℕ → List ℕ
frame_bytes kind payload_len payload =
    protocol_magic
    ++ (be_bytes 2 protocol_major ++ (kind ∷ 0 ∷ (be_bytes 4 payload_len ++ payload)))

module _ {N : Type 0} (serde : SerdeJson N) where
  unfoldable pub write_properties : List ℕ → Fields N → Result ProtocolError (List ℕ)
  unfolding write_bytes
  write_properties payload properties = do
    json ← json_error (serde.to_vec (Json.object properties))
    write_bytes payload "properties" json

  unfoldable pub encode_node : List ℕ → NodeRow N → Result ProtocolError (List ℕ)
  unfolding write_i64 write_u16 write_labels write_properties
  encode_node payload row = do
    let count = length row.labels
    fail_if (ltb max_labels count || ltb (2 ^ 16 - 1) count)
        (field_too_large "label count" count (min max_labels (2 ^ 16 - 1)))
    let payload = write_i64 payload row.node_id
    let payload = write_u16 payload (count % 2 ^ 16)
    payload ← write_labels payload row.labels
    write_properties payload row.properties

  unfoldable pub encode_edge : List ℕ → EdgeRow N → Result ProtocolError (List ℕ)
  unfolding write_i64 write_string write_properties
  encode_edge payload row = do
    let payload = write_i64 payload row.rel_id
    payload ← write_string payload "relationship type" row.rel_type
    let payload = write_i64 payload row.source_node_id
    let payload = write_i64 payload row.target_node_id
    write_properties payload row.properties

  unfoldable pub encode_mutation_payload : List ℕ → Mutation N → Result ProtocolError (List ℕ)
  unfolding encode_node encode_edge
  encode_mutation_payload payload (node_insert new) = encode_node payload new
  encode_mutation_payload payload (node_update old new) = do
    payload ← encode_node payload old
    encode_node payload new
  encode_mutation_payload payload (node_delete old) = encode_node payload old
  encode_mutation_payload payload (edge_insert new) = encode_edge payload new
  encode_mutation_payload payload (edge_update old new) = do
    payload ← encode_edge payload old
    encode_edge payload new
  encode_mutation_payload payload (edge_delete old) = encode_edge payload old
  encode_mutation_payload payload graph_reset = ok payload

  -- The payload and the kind byte that the first `match` of `encode_frame` computes.
  unfoldable pub frame_payload : Frame N → Result ProtocolError (List ℕ × ℕ)
  unfolding write_u32 write_u64 encode_mutation_payload mutation_kind
  frame_payload (begin_frame xid) = ok (write_u32 [] xid, kind_begin)
  frame_payload (commit_frame xid commit_lsn end_lsn) =
      ok (write_u64 (write_u64 (write_u32 [] xid) commit_lsn) end_lsn, kind_commit)
  frame_payload (mutation_frame event_lsn mutation) = do
    payload ← encode_mutation_payload (write_u64 [] event_lsn) mutation
    ok (payload, mutation_kind mutation)

  unfoldable pub encode_frame : Frame N → Result ProtocolError (List ℕ)
  unfolding frame_payload u32_try_from frame_bytes
  encode_frame frame = do
    (payload, kind) ← frame_payload frame
    fail_if (ltb max_frame_payload_bytes (length payload))
        (field_too_large "frame payload" (length payload) max_frame_payload_bytes)
    payload_len ← u32_try_from "frame payload" (length payload)
    ok (frame_bytes kind payload_len payload)

  unfoldable pub encode_logical_message : Mutation N → Result ProtocolError (List ℕ)
  unfolding encode_frame
  encode_logical_message mutation = encode_frame (mutation_frame placeholder_event_lsn mutation)
