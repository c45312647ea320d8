-- ===== src/Wal/Redo.antt =====
-- storage/wal.rs: the redo of a record does to the page what the operation did.
use pg_eddy.Common.{
  ℕ, suc, ◌+◌, ◌*◌, ◌%◌, ◌^◌, ◌<◌, ◌≡◌, refl, sym, ==_self, false, Option, List, [], ◌∷◌, ◌++◌,
  arith, ltb, le→ltb, if◌then◌else◌, All, length, length-append, ok, append-nil,
}
use pg_eddy.Common.Bytes.{le_bytes, from_le, length-le_bytes, from_le-le_bytes}
use pg_eddy.Common.Position.{At, At-start, At-move, At-slice}
use pg_eddy.Page.{slice, adj_header_bytes, NodeAdjHeader}
use pg_eddy.Edges.{lp_normal, lp_dead, Item, Page}
use pg_eddy.Edges.Scan.{is_normal}
use pg_eddy.Edges.Store.{set_slot, write_adj_header}
use pg_eddy.Nodes.{NodePage, NodeRelation, NodePostgres}
use pg_eddy.Nodes.Store.{mark_node_deleted}
use pg_eddy.Vacuum.{mark_dead}
use pg_eddy.Wal.{
  log_node_delete, log_edge_delete, log_vacuum_page, log_adj_update, delete_data, offset_bytes,
  blk_needs_redo, redo_if, set_xmax, redo_dead, redo_node_delete, redo_edge_delete,
  redo_vacuum_page, redo_adj_update, rmgr_redo,
}

module _ (off xmax : ℕ) (small : off < 2 ^ 16) (wide : xmax < 2 ^ 32) where
  length-delete_data : length (delete_data off xmax) ≡ 8
  length-delete_data = omega (
    arith,
    length-append (le_bytes 2 off) (le_bytes 2 0 ++ le_bytes 4 xmax),
    length-append (le_bytes 2 0) (le_bytes 4 xmax),
    length-le_bytes 2 off,
    length-le_bytes 2 0,
    length-le_bytes 4 xmax,
  )

  delete_data_slices :
      (from_le (slice (delete_data off xmax) 0 2) ≡ off)
      × (from_le (slice (delete_data off xmax) 4 4) ≡ xmax)
  delete_data_slices =
      let a0 = At-start (delete_data off xmax) in
      let a2 = At-move (le_bytes 2 off) 2 a0 (omega (arith, length-le_bytes 2 off)) in
      let a4 : At (delete_data off xmax) 4 (le_bytes 4 xmax ++ []) =
        rw (append-nil (le_bytes 4 xmax))
          (At-move (le_bytes 2 0) 4 a2 (omega (arith, length-le_bytes 2 0))) in
      (
        rw (At-slice (le_bytes 2 off) _ 2 a0 (sym (length-le_bytes 2 off)))
            (from_le-le_bytes 2 off small),
        rw (At-slice (le_bytes 4 xmax) _ 4 a4 (sym (length-le_bytes 4 xmax)))
            (from_le-le_bytes 4 xmax wide),
      )

  module _ (pg : NodePostgres) (page_put_item : Page → Item → ℕ → Option Page) where
    -- The records of a node's and of an edge's deletion are decoded to what was logged.
    rmgr_redo-log_delete :
        (page : NodePage)
        → (rmgr_redo pg page_put_item (log_node_delete off xmax) blk_needs_redo page
            ≡ ok (set_xmax pg page_put_item off xmax page))
          × (rmgr_redo pg page_put_item (log_edge_delete off xmax) blk_needs_redo page
              ≡ ok (set_xmax pg page_put_item off xmax page))
    unfolding rmgr_redo log_node_delete log_edge_delete redo_node_delete redo_edge_delete redo_if
    rmgr_redo-log_delete page =
        let (o, x) = delete_data_slices in
        let long : ltb (length (delete_data off xmax)) 8 ≡ false = rw length-delete_data in
        (rw (long, o, x), rw (long, o, x))

module _ (pg : NodePostgres) (page_put_item : Page → Item → ℕ → Option Page) where
  -- Redoing the record that `delete_node_by_id` writes for an item in use, on the page before the
  -- deletion, gives the page that the deletion left, where the offset fits 16 bits and the xid 32.
  pub redo-mark_node_deleted :
      (rel : NodeRelation) (blk off : ℕ)
      → off < 2 ^ 16
      → pg.base.current_xid < 2 ^ 32
      → ((rel.page blk).items.slot off).lp_flags ≡ lp_normal
      → rmgr_redo pg page_put_item
          (log_node_delete off pg.base.current_xid)
          blk_needs_redo
          (rel.page blk)
        ≡ ok ((mark_node_deleted pg rel blk off).page blk)
  unfolding mark_node_deleted set_xmax
  redo-mark_node_deleted rel blk off small wide normal =
      let (node, _) =
        rmgr_redo-log_delete off pg.base.current_xid small wide pg page_put_item (rel.page blk) in
      rw (node, ==_self blk, normal)

  redo_dead-mark_dead :
      (main_data : List ℕ) (i : ℕ) (offs : List ℕ) (page : Page)
      → All (λ o. o < 2 ^ 16) offs
      → At main_data (2 + i * 2) (offset_bytes offs)
      → redo_dead pg page_put_item main_data i (length offs) page ≡ mark_dead offs page
  unfolding redo_dead mark_dead offset_bytes
  redo_dead-mark_dead main_data i [] page all at = refl
  redo_dead-mark_dead main_data i (off ∷ offs) page (h, hs) at =
      let read : from_le (slice main_data (2 + i * 2) 2) ≡ off =
        rw (At-slice (le_bytes 2 off) _ 2 at (sym (length-le_bytes 2 off)))
          (from_le-le_bytes 2 off h) in
      let s = page.slot off in
      rw (read, redo_dead)
        (redo_dead-mark_dead main_data (suc i) offs
          (if is_normal s.lp_flags
            then set_slot off (record s { lp_flags = lp_dead }) page
            else page)
          hs (At-move (le_bytes 2 off) (2 + suc i * 2) at (omega (arith, length-le_bytes 2 off))))

  length-offset_bytes : (offs : List ℕ) → length (offset_bytes offs) ≡ length offs * 2
  unfolding offset_bytes
  length-offset_bytes [] = refl
  length-offset_bytes (off ∷ offs) = omega (
    arith,
    length-append (le_bytes 2 off) (offset_bytes offs),
    length-le_bytes 2 off,
    length-offset_bytes offs,
  )

  -- Redoing the record of a page's vacuum marks the same items dead, for any offsets of 16 bits and
  -- any number of them that the record's 16 bit count can hold.
  pub redo-mark_dead :
      (offs : List ℕ) (page : NodePage)
      → length offs < 2 ^ 16
      → All (λ o. o < 2 ^ 16) offs
      → rmgr_redo pg page_put_item (log_vacuum_page offs) blk_needs_redo page
        ≡ ok (record page { items = mark_dead offs page.items })
  unfolding rmgr_redo log_vacuum_page redo_vacuum_page redo_if
  redo-mark_dead offs page few all =
      let n = length offs in
      let whole = le_bytes 2 n ++ offset_bytes offs in
      let wrap : n % 2 ^ 16 ≡ n = omega (arith, few) in
      let a0 = At-start whole in
      let count : from_le (slice whole 0 2) ≡ n =
        rw (At-slice (le_bytes 2 n) _ 2 a0 (sym (length-le_bytes 2 n)))
          (from_le-le_bytes 2 n few) in
      let size : length whole ≡ 2 + n * 2 = omega (
        arith,
        length-append (le_bytes 2 n) (offset_bytes offs),
        length-le_bytes 2 n,
        length-offset_bytes offs,
      ) in
      let long : ltb (2 + n * 2) 2 ≡ false = le→ltb _ _ (omega arith) in
      let fits : ltb (2 + n * 2) (2 + n * 2) ≡ false = ground arith in
      let a2 = At-move (le_bytes 2 n) (2 + 0 * 2) a0 (omega (arith, length-le_bytes 2 n)) in
      rw (wrap, count, size, long, fits, redo_dead-mark_dead whole 0 offs page.items all a2)

  -- Redoing the record of a header's update writes the header where the operation wrote it.
  pub redo-write_adj_header :
      (idx : ℕ) (hdr : NodeAdjHeader) (page : NodePage)
      → idx < 2 ^ 16
      → length hdr ≡ adj_header_bytes
      → rmgr_redo pg page_put_item (log_adj_update idx hdr) blk_needs_redo page
        ≡ ok (record page { special = write_adj_header page.special idx hdr })
  unfolding rmgr_redo log_adj_update redo_adj_update redo_if write_adj_header
  redo-write_adj_header idx hdr page small whole =
      let bytes = le_bytes 2 idx ++ hdr in
      let a0 = At-start bytes in
      let first : from_le (slice bytes 0 2) ≡ idx =
        rw (At-slice (le_bytes 2 idx) _ 2 a0 (sym (length-le_bytes 2 idx)))
          (from_le-le_bytes 2 idx small) in
      let a2 : At bytes 2 (hdr ++ []) =
        rw (append-nil hdr)
          (At-move (le_bytes 2 idx) 2 a0 (omega (arith, length-le_bytes 2 idx))) in
      let second : slice bytes 2 adj_header_bytes ≡ hdr =
        At-slice hdr [] adj_header_bytes a2 (sym whole) in
      let size : length bytes ≡ 26 =
        omega (arith, length-append (le_bytes 2 idx) hdr, length-le_bytes 2 idx, whole) in
      rw (first, second, size)
