-- ===== src/Nodes/Scan.antt =====
-- storage/node_store.rs: reading nodes: `read_node_at_offset`, overflow blocks, `NodeScanState`,
-- `find_node_by_id`, `scan_all_node_locations`, `count_nodes`.
use pg_eddy.Common.{
  ℕ, zero, suc, ◌+◌, ◌-◌, Bool, true, false, not, ◌&&◌, Option, none, some, List, [], ◌∷◌, ◌++◌,
  ltb, leb, ◌==◌, if◌then◌else◌, take,
}
use pg_eddy.Common.Int.{ℤ, eq_ℤ}
use pg_eddy.Edges.{TupleHeader}
use pg_eddy.Edges.Scan.{is_normal, item_data, upto, offsets}
use pg_eddy.Nodes.{
  NodeRecord, NodePage, NodeRelation, NodePostgres, Snapshot, node_fixed_data_size, blcksz,
  pd_node_special_offset, decode_node,
}

unfoldable pub is_overflow_page : NodePage → Bool
is_overflow_page page =
    (page.pd_special == blcksz) && not (page.pd_special == pd_node_special_offset)

-- `XidInMVCCSnapshot` says no, or there is no snapshot.
abbrev pub before_snapshot : Snapshot → ℕ → Bool
before_snapshot none xmin = true
before_snapshot (some in_progress) xmin = not (in_progress xmin)

unfoldable pub read_overflow_block : NodeRelation → ℕ → List ℕ
read_overflow_block rel blkno =
    let page = rel.page blkno in
    if leb 1 page.items.max_off then take (page.items.slot 1).lp_len (page.raw 1) else []

-- What each reader does with a record whose properties lie in an overflow block.
unfoldable pub resolve : NodeRelation → NodeRecord → NodeRecord
unfolding read_overflow_block
resolve rel r = elim r.prop_bytes [
  | [] ↦
      if not (r.overflow_blkno == 0)
      then record r { prop_bytes = read_overflow_block rel r.overflow_blkno }
      else r
  | b ∷ bs ↦ r
]

-- `NodeScanState`, less the relation and the snapshot.
pub record ScanState : Type 0 where
  pub current_blk : ℕ
  pub current_off : ℕ
  pub scan_nblocks : ℕ

module _ (pg : NodePostgres) (snapshot : Snapshot) where
  unfoldable pub xmin_visible : TupleHeader → Bool
  xmin_visible h =
      if h.xmin_committed
      then before_snapshot snapshot h.xmin
      else if h.xmin_invalid
      then false
      else if h.xmin == 0
      then false
      else if pg.base.is_current_xid h.xmin
      then true
      else if pg.base.did_commit h.xmin
      then before_snapshot snapshot h.xmin
      else false

  unfoldable pub read_node_at_offset : NodePage → (off : ℕ) → Option NodeRecord
  unfolding xmin_visible
  read_node_at_offset page off =
      let s = page.items.slot off in
      if not (is_normal s.lp_flags)
      then none
      else if not (xmin_visible s.header)
      then none
      else if not s.header.xmax_invalid
      then none
      else if ltb s.lp_len (pg.base.hdr_size + node_fixed_data_size)
      then none
      else decode_node (item_data pg.base s) (s.lp_len - pg.base.hdr_size)

  -- The inner loop of `next`, over `n` offsets from `off` on; with the offset that it leaves.
  unfoldable pub next_on_page : NodePage → (off n : ℕ) → Option (NodeRecord × ℕ)
  next_on_page page off zero = none
  next_on_page page off (suc n) =
      let rest = next_on_page page (suc off) n in
      elim (read_node_at_offset page off) [ none ↦ rest | some r ↦ some (r, suc off) ]

  abbrev pub next_block : ScanState → ScanState
  next_block st = record st { current_blk = st.current_blk + 1; current_off = 1 }

  -- The outer loop of `next`, over the `left` blocks from the current one on.
  unfoldable pub next_loop : NodeRelation → (left : ℕ) → ScanState → Option NodeRecord × ScanState
  unfolding next_on_page is_overflow_page resolve
  next_loop rel zero st = (none, st)
  next_loop rel (suc left) st =
      let page = rel.page st.current_blk in
      let rest = next_loop rel left (next_block st) in
      if is_overflow_page page
      then rest
      else elim (next_on_page page st.current_off (page.items.max_off + 1 - st.current_off)) [
        | none ↦ rest
        | some (r, off) ↦ (some (resolve rel r), record st { current_off = off })
      ]

  unfoldable pub begin : NodeRelation → ScanState
  begin rel = record { current_blk = 0; current_off = 1; scan_nblocks = rel.nblocks }

  unfoldable pub next : NodeRelation → ScanState → Option NodeRecord × ScanState
  unfolding next_loop
  next rel st = next_loop rel (st.scan_nblocks - st.current_blk) st

  -- The first node with the id on one page.
  unfoldable pub find_on_page : NodePage → ℤ → List ℕ → Option NodeRecord
  find_on_page page node_id [] = none
  find_on_page page node_id (off ∷ offs) =
      let rest = find_on_page page node_id offs in
      elim (read_node_at_offset page off) [
        | none ↦ rest
        | some r ↦ if eq_ℤ r.node_id node_id then some r else rest
      ]

  -- The sequential scan of `find_node_by_id`.
  unfoldable pub find_blocks : NodeRelation → ℤ → List ℕ → Option NodeRecord
  unfolding find_on_page is_overflow_page resolve
  find_blocks rel node_id [] = none
  find_blocks rel node_id (blkno ∷ blks) =
      let page = rel.page blkno in
      let rest = find_blocks rel node_id blks in
      if is_overflow_page page
      then rest
      else elim (find_on_page page node_id (offsets page.items)) [
        | none ↦ rest
        | some r ↦ some (resolve rel r)
      ]

  -- The fast path of `find_node_by_id`.
  unfoldable pub find_cached : NodeRelation → ℤ → Option (ℕ × ℕ) → Option NodeRecord
  unfolding resolve
  find_cached rel node_id none = none
  find_cached rel node_id (some (blkno, off)) = elim (read_node_at_offset (rel.page blkno) off) [
    | none ↦ none
    | some r ↦ if eq_ℤ r.node_id node_id then some (resolve rel r) else none
  ]

  unfoldable pub find_node_by_id :
      (lookup_cached_location : ℤ → Option (ℕ × ℕ)) → NodeRelation → ℤ → Option NodeRecord
  unfolding find_cached find_blocks
  find_node_by_id lookup_cached_location rel node_id =
      elim (find_cached rel node_id (lookup_cached_location node_id)) [
        | some r ↦ some r
        | none ↦ find_blocks rel node_id (upto 0 rel.nblocks)
      ]

  unfoldable pub page_locations : NodePage → (blkno : ℕ) → List ℕ → List (ℤ × ℕ × ℕ)
  page_locations page blkno [] = []
  page_locations page blkno (off ∷ offs) =
      let rest = page_locations page blkno offs in
      elim (read_node_at_offset page off) [ none ↦ rest | some r ↦ (r.node_id, blkno, off) ∷ rest ]

  unfoldable pub location_blocks : NodeRelation → List ℕ → List (ℤ × ℕ × ℕ)
  unfolding page_locations is_overflow_page
  location_blocks rel [] = []
  location_blocks rel (blkno ∷ blks) =
      let page = rel.page blkno in
      let here =
        if is_overflow_page page then [] else page_locations page blkno (offsets page.items) in
      here ++ location_blocks rel blks

  unfoldable pub scan_all_node_locations : NodeRelation → List (ℤ × ℕ × ℕ)
  unfolding location_blocks
  scan_all_node_locations rel = location_blocks rel (upto 0 rel.nblocks)

  unfoldable pub count_page : NodePage → List ℕ → ℕ → ℕ
  count_page page [] count = count
  count_page page (off ∷ offs) count =
      count_page page offs
        (elim (read_node_at_offset page off) [ none ↦ count | some r ↦ count + 1 ])

  unfoldable pub count_blocks : NodeRelation → List ℕ → ℕ → ℕ
  unfolding count_page is_overflow_page
  count_blocks rel [] count = count
  count_blocks rel (blkno ∷ blks) count =
      let page = rel.page blkno in
      count_blocks rel blks
        (if is_overflow_page page then count else count_page page (offsets page.items) count)

  unfoldable pub count_nodes : NodeRelation → ℕ
  unfolding count_blocks
  count_nodes rel = count_blocks rel (upto 0 rel.nblocks) 0
