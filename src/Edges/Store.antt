-- ===== src/Edges/Store.antt =====
-- storage/edge_store.rs: the state of the edge store, `insert_edge` and the search for a page.
-- The log is the order of the node page locks and of the WAL records.
use pg_eddy.Common.{
  ℕ, ◌+◌, ◌-◌, ◌*◌, ◌/◌, ◌%◌, ◌^◌, Bool, true, false, ◌&&◌, Option, none, some, List, [], ◌∷◌, ◌++◌,
  ltb, leb, ◌==◌, if◌then◌else◌, length, Result, ok, err, ◌>>◌, fail_if,
}
use pg_eddy.Common.Int.{ℤ}
use pg_eddy.Page.{
  put, adj_header_bytes, prop_inline_max, NodeAdjHeader, out_head_pg, out_head_sl, in_head_pg,
  in_head_sl, out_degree, in_degree, set_out_head_pg, set_out_head_sl, set_in_head_pg,
  set_in_head_sl, set_out_degree, set_in_degree,
}
use pg_eddy.Edges.{TupleHeader, Item, Slot, Page, EdgeRelation, Postgres, build_edge_data}
use pg_eddy.Edges.Follow.{read_adj_header}

pub data StoreError : Type 0 where
  props_too_large : ℕ → StoreError
  source_not_found : ℤ → StoreError
  target_not_found : ℤ → StoreError
  page_full : ℕ → StoreError
  exceeds_reserved : (len available : ℕ) → StoreError

pub data LogEntry : Type 0 where
  lock_node_page : ℕ → LogEntry
  edge_inserted : (blk off : ℕ) → Item → LogEntry
  adj_updated : (blk idx : ℕ) → NodeAdjHeader → LogEntry
  edge_deleted : (blk off xmax : ℕ) → LogEntry

-- The special areas of the node pages, by block, and the edge relation.
pub record Store : Type 0 where
  pub special : ℕ → List ℕ
  pub edges : EdgeRelation
  pub log : List LogEntry

abbrev pub set_slot : ℕ → Slot → Page → Page
set_slot off s page = record page { slot = λ o. if o == off then s else page.slot o }

abbrev pub set_page : ℕ → Page → EdgeRelation → EdgeRelation
set_page blk page rel = record rel { page = λ b. if b == blk then page else rel.page b }

abbrev pub set_special : ℕ → List ℕ → (ℕ → List ℕ) → ℕ → List ℕ
set_special blk bytes special b = if b == blk then bytes else special b

-- `write_adj_header`
unfoldable pub write_adj_header : List ℕ → (idx : ℕ) → NodeAdjHeader → List ℕ
write_adj_header special idx hdr = put (idx * adj_header_bytes) hdr special

unfoldable pub page_free_space : Page → ℕ
page_free_space page = page.pd_upper - page.pd_lower

module _ (pg : Postgres) where
  -- The relation with the page to insert into, and the block of that page.
  unfoldable pub find_or_extend_edge_page : EdgeRelation → (item_size : ℕ) → EdgeRelation × ℕ
  unfolding page_free_space
  find_or_extend_edge_page rel item_size =
      let last = rel.nblocks - 1 in
      let aligned = (item_size + 7) / 8 * 8 in
      let extended = set_page rel.nblocks pg.page_init (record rel { nblocks = rel.nblocks + 1 }) in
      if ltb 0 rel.nblocks && leb (aligned + pg.item_id_size) (page_free_space (rel.page last))
      then (rel, last)
      else (extended, rel.nblocks)

  -- The header that `build_edge_item_bytes` fills in.
  abbrev pub new_header : TupleHeader
  new_header = record {
    xmin = pg.current_xid;
    xmax = 0;
    cmin = pg.current_cid;
    xmin_committed = false;
    xmin_invalid = false;
    xmax_invalid = true;
    ctid = none;
  }

  -- The node pages in the order in which they are locked.
  unfoldable pub lock_order : (src_blk tgt_blk : ℕ) → List LogEntry
  lock_order src_blk tgt_blk =
      if src_blk == tgt_blk
      then lock_node_page src_blk ∷ []
      else if ltb src_blk tgt_blk
      then lock_node_page src_blk ∷ lock_node_page tgt_blk ∷ []
      else lock_node_page tgt_blk ∷ lock_node_page src_blk ∷ []

  -- The new headers: for a self-loop the target's starts from the source's.
  unfoldable pub source_header : NodeAdjHeader → (blk off : ℕ) → NodeAdjHeader
  source_header src_adj blk off =
      set_out_degree ((out_degree src_adj + 1) % 2 ^ 32)
        (set_out_head_sl off (set_out_head_pg blk src_adj))

  unfoldable pub target_header : NodeAdjHeader → (in_deg blk off : ℕ) → NodeAdjHeader
  target_header start in_deg blk off =
      set_in_degree ((in_deg + 1) % 2 ^ 32) (set_in_head_sl off (set_in_head_pg blk start))

  -- `insert_edge` behind the reading of the two headers.
  unfoldable pub link_at :
      (edge_id rel_type_id src_node_id tgt_node_id : ℤ)
      → List ℕ
      → (src_blk src_adj_idx tgt_blk tgt_adj_idx : ℕ) (self_loop : Bool)
        (src_adj tgt_adj : NodeAdjHeader)
      → Store
      → Result StoreError Store
  unfolding build_edge_data write_adj_header find_or_extend_edge_page lock_order source_header
      target_header
  link_at edge_id rel_type_id src_node_id tgt_node_id prop_bytes src_blk src_adj_idx tgt_blk
        tgt_adj_idx self_loop src_adj tgt_adj st =
      let bytes =
        build_edge_data edge_id rel_type_id src_node_id tgt_node_id (out_head_pg src_adj)
          (out_head_sl src_adj) (in_head_pg tgt_adj) (in_head_sl tgt_adj) prop_bytes in
      let item : Item = record { header = new_header; bytes = bytes } in
      let found = find_or_extend_edge_page st.edges (pg.hdr_size + length bytes) in
      let edge_blk = found.1 in
      elim (pg.page_add_item (found.0.page edge_blk) item) [
        | none ↦ err (page_full edge_blk)
        | some (page, edge_off) ↦
            let added = page.slot edge_off in
            let linked = record added {
              header = record (added.header) { ctid = some (edge_blk, edge_off) };
            } in
            let edges = set_page edge_blk (set_slot edge_off linked page) found.0 in
            let new_src_adj = source_header src_adj edge_blk edge_off in
            let new_tgt_adj =
              target_header (if self_loop then new_src_adj else tgt_adj) (in_degree tgt_adj)
                edge_blk edge_off in
            let special =
              set_special src_blk (write_adj_header (st.special src_blk) src_adj_idx new_src_adj)
                st.special in
            let special =
              set_special tgt_blk (write_adj_header (special tgt_blk) tgt_adj_idx new_tgt_adj)
                special in
            let final_src_adj = if self_loop then new_tgt_adj else new_src_adj in
            let tgt_log =
              if self_loop then [] else adj_updated tgt_blk tgt_adj_idx new_tgt_adj ∷ [] in
            ok (record {
              special = special;
              edges = edges;
              log =
                  st.log
                  ++ (lock_order src_blk tgt_blk
                      ++ (edge_inserted edge_blk edge_off item
                          ∷ adj_updated src_blk src_adj_idx final_src_adj
                          ∷ tgt_log));
            })
      ]

  -- `insert_edge` behind the search for the two nodes.
  unfoldable pub link_edge :
      (edge_id rel_type_id src_node_id tgt_node_id : ℤ)
      → List ℕ
      → (src_blk src_adj_idx tgt_blk tgt_adj_idx : ℕ) → Store
      → Result StoreError Store
  unfolding read_adj_header link_at
  link_edge edge_id rel_type_id src_node_id tgt_node_id prop_bytes src_blk src_adj_idx tgt_blk
        tgt_adj_idx st =
      let self_loop = (src_blk == tgt_blk) && (src_adj_idx == tgt_adj_idx) in
      let src_adj = read_adj_header (st.special src_blk) src_adj_idx in
      let tgt_adj =
        if self_loop then src_adj else read_adj_header (st.special tgt_blk) tgt_adj_idx in
      link_at edge_id rel_type_id src_node_id tgt_node_id prop_bytes src_blk src_adj_idx tgt_blk
        tgt_adj_idx self_loop src_adj tgt_adj st

  unfoldable pub insert_edge :
      (find_node_location : ℤ → Option (ℕ × ℕ × ℕ))
      (edge_id rel_type_id src_node_id tgt_node_id : ℤ)
      → List ℕ
      → Store
      → Result StoreError Store
  unfolding link_edge
  insert_edge find_node_location edge_id rel_type_id src_node_id tgt_node_id prop_bytes st = do
    fail_if (ltb prop_inline_max (length prop_bytes)) (props_too_large (length prop_bytes))
    elim (find_node_location src_node_id) [
      | none ↦ err (source_not_found src_node_id)
      | some (src_blk, src_off, src_adj_idx) ↦ elim (find_node_location tgt_node_id) [
        | none ↦ err (target_not_found tgt_node_id)
        | some (tgt_blk, tgt_off, tgt_adj_idx) ↦
            link_edge edge_id rel_type_id src_node_id tgt_node_id prop_bytes src_blk src_adj_idx
              tgt_blk tgt_adj_idx st
      ]
    ]
