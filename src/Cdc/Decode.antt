-- ===== src/Cdc/Decode.antt =====
-- storage/cdc_protocol.rs: `decode_frame` and `decode_logical_message`.
use pg_eddy.Common.{
  Bool, ℕ, ◌-◌, List, ltb, ◌==◌, ◌||◌, not, if◌then◌else◌, length, get_or, take, drop,
}
use pg_eddy.Common.{Result, ok, err, and_then}
use pg_eddy.Common.Bytes.{eq_bytes, from_be}
use pg_eddy.Json.{SerdeJson}
use pg_eddy.Cdc.{
  Mutation, node_insert, node_update, node_delete, edge_insert, edge_update, edge_delete,
  graph_reset, Frame, begin_frame, commit_frame, mutation_frame, ProtocolError, header_truncated,
  invalid_magic, unsupported_major, unsupported_flags, unknown_kind, payload_length_mismatch,
  field_too_large, invalid_logical_message_envelope, header_len, protocol_magic, protocol_major,
  placeholder_event_lsn, max_frame_payload_bytes, kind_begin, kind_commit, kind_node_insert,
  kind_node_update, kind_node_delete, kind_edge_insert, kind_edge_update, kind_edge_delete,
  kind_graph_reset,
}
use pg_eddy.Cdc.Reader.{Read, ◌>>=◌, pure, new, read_u32, read_u64, read_node, read_edge, finish}

-- The kinds of one arm of that `match`.
abbrev pub is_mutation_kind : ℕ → Bool
is_mutation_kind kind =
    (kind == kind_node_insert)
    || (kind == kind_node_update)
    || (kind == kind_node_delete)
    || (kind == kind_edge_insert)
    || (kind == kind_edge_update)
    || (kind == kind_edge_delete)
    || (kind == kind_graph_reset)

module _ {N : Type 0} (serde : SerdeJson N) where
  unfoldable pub decode_mutation_payload : ℕ → Read (Mutation N)
  decode_mutation_payload kind =
      if kind == kind_node_insert
      then (do new ← read_node serde; pure (node_insert new))
      else if kind == kind_node_update
      then (do old ← read_node serde; new ← read_node serde; pure (node_update old new))
      else if kind == kind_node_delete
      then (do old ← read_node serde; pure (node_delete old))
      else if kind == kind_edge_insert
      then (do new ← read_edge serde; pure (edge_insert new))
      else if kind == kind_edge_update
      then (do old ← read_edge serde; new ← read_edge serde; pure (edge_update old new))
      else if kind == kind_edge_delete
      then (do old ← read_edge serde; pure (edge_delete old))
      else if kind == kind_graph_reset
      then pure graph_reset
      else λ _. err (unknown_kind kind)

  -- The `match kind` of `decode_frame`.
  unfoldable pub decode_kind : ℕ → Read (Frame N)
  decode_kind kind =
      if kind == kind_begin
      then (do xid ← read_u32; pure (begin_frame xid))
      else if kind == kind_commit
      then (do
        xid ← read_u32
        commit_lsn ← read_u64
        end_lsn ← read_u64
        pure (commit_frame xid commit_lsn end_lsn))
      else if is_mutation_kind kind
      then (do
        event_lsn ← read_u64
        mutation ← decode_mutation_payload kind
        pure (mutation_frame event_lsn mutation))
      else λ _. err (unknown_kind kind)

  -- `let frame = match kind {...}; reader.finish()?; Ok(frame)`
  unfoldable pub decode_payload : ℕ → List ℕ → Result ProtocolError (Frame N)
  decode_payload kind payload =
      and_then (decode_kind kind (new payload)) λ (frame, r). and_then (finish r) λ _. ok frame

  -- Every index is below 12, which the first test grants; `get_or`'s default is never taken.
  unfoldable pub decode_frame : List ℕ → Result ProtocolError (Frame N)
  decode_frame encoded =
      let major = from_be (take 2 (drop 4 encoded)) in
      let kind = get_or encoded 6 0 in
      let flags = get_or encoded 7 0 in
      let declared = from_be (take 4 (drop 8 encoded)) in
      let actual = length encoded - header_len in
      if ltb (length encoded) header_len
      then err header_truncated
      else if not (eq_bytes (take 4 encoded) protocol_magic)
      then err invalid_magic
      else if not (major == protocol_major)
      then err (unsupported_major major)
      else if not (flags == 0)
      then err (unsupported_flags flags)
      else if not (declared == actual)
      then err (payload_length_mismatch declared actual)
      else if ltb max_frame_payload_bytes actual
      then err (field_too_large "frame payload" actual max_frame_payload_bytes)
      else decode_payload kind (drop header_len encoded)

  -- The `match` of `decode_logical_message`.
  unfoldable pub envelope : Frame N → Result ProtocolError (Mutation N)
  envelope (mutation_frame event_lsn mutation) =
      if event_lsn == placeholder_event_lsn
      then ok mutation
      else err invalid_logical_message_envelope
  envelope _ = err invalid_logical_message_envelope

  unfoldable pub decode_logical_message : List ℕ → Result ProtocolError (Mutation N)
  decode_logical_message encoded = and_then (decode_frame encoded) envelope
