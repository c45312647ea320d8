-- ===== src/Edges/Update.antt =====
-- storage/edge_store.rs: `delete_edge` and `update_edge_props`, which change an item in its place.
use pg_eddy.Common.{
  ℕ, ◌-◌, ◌%◌, ◌^◌, Bool, true, false, ◌&&◌, Option, none, some, List, [], ◌∷◌, ◌++◌, ltb,
  if◌then◌else◌, length, Result, ok, ◌>>◌, fail_if,
}
use pg_eddy.Common.Bytes.{le_bytes, from_le}
use pg_eddy.Common.Int.{ℤ, eq_ℤ, from_bits}
use pg_eddy.Page.{slice, zeros, put, prop_inline_max, edge_fixed_data_size}
use pg_eddy.Edges.{Slot, Page, Postgres}
use pg_eddy.Edges.Scan.{is_normal, item_data, holds_edge, offsets, blocks, read_edge_at_offset}
use pg_eddy.Edges.Store.{
  StoreError, props_too_large, exceeds_reserved, Store, edge_deleted, set_slot, set_page,
}

module _ (pg : Postgres) where
  -- The first slot on a page with the edge, not deleted; `xmin` is not looked at.
  unfoldable pub is_victim : Slot → ℤ → Bool
  is_victim s edge_id =
      is_normal s.lp_flags
      && holds_edge pg s
      && eq_ℤ (from_bits (2 ^ 63) (from_le (slice (item_data pg s) 0 8))) edge_id
      && s.header.xmax_invalid

  unfoldable pub find_victim : Page → ℤ → List ℕ → Option ℕ
  unfolding is_victim
  find_victim page edge_id [] = none
  find_victim page edge_id (off ∷ offs) =
      let rest = find_victim page edge_id offs in
      if is_victim (page.slot off) edge_id then some off else rest

  abbrev pub mark_deleted : Slot → Slot
  mark_deleted s = record s {
    header = record (s.header) { xmax = pg.current_xid; xmax_invalid = false };
  }

  unfoldable pub delete_from : ℤ → List ℕ → Store → Store × Bool
  unfolding find_victim
  delete_from edge_id [] st = (st, false)
  delete_from edge_id (blkno ∷ blks) st =
      let page = st.edges.page blkno in
      let rest = delete_from edge_id blks st in
      elim (find_victim page edge_id (offsets page)) [
        | none ↦ rest
        | some off ↦ (
          record st {
            edges = set_page blkno (set_slot off (mark_deleted (page.slot off)) page) st.edges;
            log = st.log ++ (edge_deleted blkno off pg.current_xid ∷ []);
          },
          true,
        )
      ]

  unfoldable pub delete_edge : ℤ → Store → Store × Bool
  unfolding delete_from
  delete_edge edge_id st = delete_from edge_id (blocks st.edges) st

  unfoldable pub find_edge_slot : Page → (blkno : ℕ) → ℤ → List ℕ → Option ℕ
  find_edge_slot page blkno edge_id [] = none
  find_edge_slot page blkno edge_id (off ∷ offs) =
      let rest = find_edge_slot page blkno edge_id offs in
      elim (read_edge_at_offset pg page blkno off) [
        | none ↦ rest
        | some rec ↦ if eq_ℤ rec.edge_id edge_id then some off else rest
      ]

  -- The writes of `update_edge_props` into the item.
  unfoldable pub write_props : List ℕ → (available : ℕ) → List ℕ → List ℕ
  write_props prop_bytes available memory =
      put 46 prop_bytes
        (put 46 (zeros available) (put 40 (le_bytes 2 (length prop_bytes % 2 ^ 16)) memory))

  unfoldable pub update_from : ℤ → List ℕ → List ℕ → Store → Result StoreError (Store × Bool)
  unfolding find_edge_slot write_props
  update_from edge_id prop_bytes [] st = ok (st, false)
  update_from edge_id prop_bytes (blkno ∷ blks) st =
      let page = st.edges.page blkno in
      let rest = update_from edge_id prop_bytes blks st in
      elim (find_edge_slot page blkno edge_id (offsets page)) [
        | none ↦ rest
        | some off ↦
            let s = page.slot off in
            let available = s.lp_len - pg.hdr_size - edge_fixed_data_size in
            let updated = record s { memory = write_props prop_bytes available s.memory } in
            fail_if (ltb available (length prop_bytes))
              (exceeds_reserved (length prop_bytes) available)
            >> ok (record st { edges = set_page blkno (set_slot off updated page) st.edges }, true)
      ]

  unfoldable pub update_edge_props : ℤ → List ℕ → Store → Result StoreError (Store × Bool)
  unfolding update_from
  update_edge_props edge_id prop_bytes st = do
    fail_if (ltb prop_inline_max (length prop_bytes)) (props_too_large (length prop_bytes))
    update_from edge_id prop_bytes (blocks st.edges) st
