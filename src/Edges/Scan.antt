-- ===== src/Edges/Scan.antt =====
-- storage/edge_store.rs: reading edges: `read_edge_at_offset` and the scans over all pages.
use pg_eddy.Common.{
  ℕ, zero, suc, ◌+◌, ◌-◌, Bool, true, false, not, ◌&&◌, ◌||◌, Option, none, some, List, [], ◌∷◌,
  ◌++◌, ltb, ◌==◌, if◌then◌else◌, take,
}
use pg_eddy.Common.Int.{ℤ, eq_ℤ}
use pg_eddy.Page.{edge_fixed_data_size}
use pg_eddy.Edges.{
  EdgeRecord, LineFlags, lp_normal, lp_dead, TupleHeader, Slot, Page, EdgeRelation, Postgres,
  decode_edge_record,
}

abbrev pub is_normal : LineFlags → Bool
is_normal lp_normal = true
is_normal _ = false

abbrev pub is_dead : LineFlags → Bool
is_dead lp_dead = true
is_dead _ = false

-- The numbers of a range in their order.
unfoldable pub upto : (first count : ℕ) → List ℕ
upto first zero = []
upto first (suc count) = first ∷ upto (suc first) count

-- `FirstOffsetNumber..=max_off` and `0..nblocks`
abbrev pub offsets : Page → List ℕ
offsets page = upto 1 page.max_off

abbrev pub blocks : EdgeRelation → List ℕ
blocks rel = upto 0 rel.nblocks

module _ (pg : Postgres) where
  -- `&raw[hdr_size..]` of the item.
  abbrev pub item_data : Slot → List ℕ
  item_data s = take (s.lp_len - pg.hdr_size) s.memory

  -- The item is long enough for the fixed part of an edge.
  abbrev pub holds_edge : Slot → Bool
  holds_edge s = not (ltb s.lp_len (pg.hdr_size + edge_fixed_data_size))

  unfoldable pub xmin_visible : TupleHeader → Bool
  xmin_visible h =
      not (h.xmin == 0)
      && (if h.xmin_committed
          then true
          else if h.xmin_invalid
          then false
          else (pg.is_current_xid h.xmin || pg.did_commit h.xmin))

  unfoldable pub read_edge_at_offset : Page → (blkno off : ℕ) → Option EdgeRecord
  unfolding xmin_visible
  read_edge_at_offset page blkno off =
      let s = page.slot off in
      if not (is_normal s.lp_flags)
      then none
      else if not (holds_edge s)
      then none
      else if not (xmin_visible s.header)
      then none
      else if not s.header.xmax_invalid
      then none
      else decode_edge_record (item_data s) (s.lp_len - pg.hdr_size) blkno off

  -- The edges of one page, in the order of their offsets.
  unfoldable pub page_edges : Page → (blkno : ℕ) → List ℕ → List EdgeRecord
  page_edges page blkno [] = []
  page_edges page blkno (off ∷ offs) =
      let rest = page_edges page blkno offs in
      elim (read_edge_at_offset page blkno off) [ none ↦ rest | some rec ↦ rec ∷ rest ]

  unfoldable pub scan_blocks : EdgeRelation → List ℕ → List EdgeRecord
  unfolding page_edges
  scan_blocks rel [] = []
  scan_blocks rel (blkno ∷ blks) =
      let page = rel.page blkno in page_edges page blkno (offsets page) ++ scan_blocks rel blks

  unfoldable pub scan_all_edges : EdgeRelation → List EdgeRecord
  unfolding scan_blocks
  scan_all_edges rel = scan_blocks rel (blocks rel)

  unfoldable pub count_page : Page → (blkno : ℕ) → List ℕ → ℕ → ℕ
  count_page page blkno [] count = count
  count_page page blkno (off ∷ offs) count =
      count_page page blkno offs
        (elim (read_edge_at_offset page blkno off) [ none ↦ count | some rec ↦ count + 1 ])

  unfoldable pub count_blocks : EdgeRelation → List ℕ → ℕ → ℕ
  unfolding count_page
  count_blocks rel [] count = count
  count_blocks rel (blkno ∷ blks) count =
      let page = rel.page blkno in
      count_blocks rel blks (count_page page blkno (offsets page) count)

  unfoldable pub count_edges : EdgeRelation → ℕ
  unfolding count_blocks
  count_edges rel = count_blocks rel (blocks rel) 0

  unfoldable pub find_on_page : Page → (blkno : ℕ) → ℤ → List ℕ → Option EdgeRecord
  find_on_page page blkno edge_id [] = none
  find_on_page page blkno edge_id (off ∷ offs) =
      let rest = find_on_page page blkno edge_id offs in
      elim (read_edge_at_offset page blkno off) [
        | none ↦ rest
        | some rec ↦ if eq_ℤ rec.edge_id edge_id then some rec else rest
      ]

  unfoldable pub find_blocks : EdgeRelation → ℤ → List ℕ → Option EdgeRecord
  unfolding find_on_page
  find_blocks rel edge_id [] = none
  find_blocks rel edge_id (blkno ∷ blks) =
      let page = rel.page blkno in
      let rest = find_blocks rel edge_id blks in
      elim (find_on_page page blkno edge_id (offsets page)) [ none ↦ rest | some rec ↦ some rec ]

  unfoldable pub find_edge_by_id : EdgeRelation → ℤ → Option EdgeRecord
  unfolding find_blocks
  find_edge_by_id rel edge_id = find_blocks rel edge_id (blocks rel)
