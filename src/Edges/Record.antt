-- ===== src/Edges/Record.antt =====
-- storage/edge_store.rs: `decode_edge_record` reads back the data part of `build_edge_item_bytes`.
use pg_eddy.Common.{
  ℕ, ◌+◌, ◌-◌, ◌%◌, ◌^◌, ◌≤◌, ◌<◌, ◌≡◌, refl, false, some, List, ◌++◌, arith, ltb, le→ltb, length,
  length-append,
}
use pg_eddy.Common.Bytes.{le_bytes, from_le, from_le-le_bytes}
use pg_eddy.Common.Int.{IsI32, IsI64, to_bits, to_bits-lt, from_bits-to_bits}
use pg_eddy.Common.Position.{At-slice}
use pg_eddy.Page.{zeros, edge_fixed_data_size, prop_inline_max}
use pg_eddy.Edges.{EdgeRecord, build_edge_data, decode_edge_record}
use pg_eddy.Edges.Cells.{length-zeros, cells, Slices, put-cells, cells-Slices}

-- The integers have the widths that the record's fields have, and the properties fit inline.
pub record IsEdgeRecord (r : EdgeRecord) : Type 0 where
  pub edge_id : IsI64 r.edge_id
  pub rel_type_id : IsI32 r.rel_type_id
  pub source_node_id : IsI64 r.source_node_id
  pub target_node_id : IsI64 r.target_node_id
  pub next_out_page : r.next_out_page < 2 ^ 32
  pub next_out_slot : r.next_out_slot < 2 ^ 16
  pub next_in_page : r.next_in_page < 2 ^ 32
  pub next_in_slot : r.next_in_slot < 2 ^ 16
  pub prop_bytes : length r.prop_bytes ≤ prop_inline_max

-- The data part that `build_edge_item_bytes` makes of a record's fields.
abbrev pub edge_data : EdgeRecord → List ℕ
edge_data r =
    build_edge_data r.edge_id r.rel_type_id r.source_node_id r.target_node_id r.next_out_page
      r.next_out_slot r.next_in_page r.next_in_slot r.prop_bytes

module _ (r : EdgeRecord) (h : IsEdgeRecord r) where
  edge_data-cells :
      edge_data r
      ≡ cells
          (to_bits (2 ^ 63) r.edge_id)
          (to_bits (2 ^ 31) r.rel_type_id)
          (to_bits (2 ^ 63) r.source_node_id)
          (to_bits (2 ^ 63) r.target_node_id)
          r.next_out_page
          r.next_out_slot
          r.next_in_page
          r.next_in_slot
          (length r.prop_bytes)
          (r.prop_bytes ++ zeros (prop_inline_max - length r.prop_bytes))
  unfolding build_edge_data
  edge_data-cells =
      let small : ltb prop_inline_max (length r.prop_bytes) ≡ false = le→ltb _ _ h.prop_bytes in
      let same : length r.prop_bytes % 2 ^ 16 ≡ length r.prop_bytes = omega (arith, h.prop_bytes) in
      rw (small, same)
        (put-cells (to_bits (2 ^ 63) r.edge_id) (to_bits (2 ^ 31) r.rel_type_id)
          (to_bits (2 ^ 63) r.source_node_id) (to_bits (2 ^ 63) r.target_node_id) r.next_out_page
          r.next_out_slot r.next_in_page r.next_in_slot (length r.prop_bytes) r.prop_bytes
          prop_inline_max h.prop_bytes)

  pub edge_data-Slices :
      Slices
        (to_bits (2 ^ 63) r.edge_id)
        (to_bits (2 ^ 31) r.rel_type_id)
        (to_bits (2 ^ 63) r.source_node_id)
        (to_bits (2 ^ 63) r.target_node_id)
        r.next_out_page
        r.next_out_slot
        r.next_in_page
        r.next_in_slot
        (length r.prop_bytes)
        (edge_data r)
        (r.prop_bytes ++ zeros (prop_inline_max - length r.prop_bytes))
  edge_data-Slices =
      cells-Slices (to_bits (2 ^ 63) r.edge_id) (to_bits (2 ^ 31) r.rel_type_id)
        (to_bits (2 ^ 63) r.source_node_id) (to_bits (2 ^ 63) r.target_node_id) r.next_out_page
        r.next_out_slot r.next_in_page r.next_in_slot (length r.prop_bytes) r.prop_bytes
        prop_inline_max h.prop_bytes (edge_data r) _ edge_data-cells

  -- The data part of an edge item has always the same length, whatever its properties are.
  pub length-edge_data : length (edge_data r) ≡ edge_fixed_data_size + prop_inline_max
  length-edge_data =
      let (_, _, _, _, _, _, _, _, _, at) = edge_data-Slices in
      omega (
        arith,
        at.size,
        h.prop_bytes,
        length-append r.prop_bytes (zeros (prop_inline_max - length r.prop_bytes)),
        length-zeros (prop_inline_max - length r.prop_bytes),
      )

  -- An edge's data part, as `build_edge_item_bytes` writes it, is decoded to the edge's fields, with
  -- the block and the offset where it lies. The reserved space behind the properties is not read.
  pub decode_edge_record-build_edge_data :
      decode_edge_record (edge_data r) (length (edge_data r)) r.block_num r.offset_num ≡ some r
  unfolding decode_edge_record
  decode_edge_record-build_edge_data =
      let (id, rel, src, tgt, opg, osl, ipg, isl, plen, at) = edge_data-Slices in
      let n : from_le (le_bytes 2 (length r.prop_bytes)) ≡ length r.prop_bytes =
        from_le-le_bytes 2 _ (omega (arith, h.prop_bytes)) in
      let room : ltb (edge_fixed_data_size + prop_inline_max)
            (edge_fixed_data_size + length r.prop_bytes)
          ≡ false =
        le→ltb _ _ (omega (arith, h.prop_bytes)) in
      rw (
        id,
        rel,
        src,
        tgt,
        opg,
        osl,
        ipg,
        isl,
        plen,
        n,
        length-edge_data,
        room,
        At-slice r.prop_bytes _ (length r.prop_bytes) at refl,
        from_le-le_bytes 8 _ (to_bits-lt (2 ^ 63) r.edge_id h.edge_id),
        from_bits-to_bits (2 ^ 63) r.edge_id h.edge_id,
        from_le-le_bytes 4 _ (to_bits-lt (2 ^ 31) r.rel_type_id h.rel_type_id),
        from_bits-to_bits (2 ^ 31) r.rel_type_id h.rel_type_id,
        from_le-le_bytes 8 _ (to_bits-lt (2 ^ 63) r.source_node_id h.source_node_id),
        from_bits-to_bits (2 ^ 63) r.source_node_id h.source_node_id,
        from_le-le_bytes 8 _ (to_bits-lt (2 ^ 63) r.target_node_id h.target_node_id),
        from_bits-to_bits (2 ^ 63) r.target_node_id h.target_node_id,
        from_le-le_bytes 4 _ h.next_out_page,
        from_le-le_bytes 2 _ h.next_out_slot,
        from_le-le_bytes 4 _ h.next_in_page,
        from_le-le_bytes 2 _ h.next_in_slot,
      )
