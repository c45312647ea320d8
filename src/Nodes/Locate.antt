-- ===== src/Nodes/Locate.antt =====
-- storage/node_store.rs: `find_node_location`, which neither looks at `xmin` nor at the snapshot.
use pg_eddy.Common.{
  ℕ, ◌+◌, ◌^◌, Bool, not, ◌&&◌, Option, none, some, List, [], ◌∷◌, ltb, if◌then◌else◌,
}
use pg_eddy.Common.Bytes.{from_le}
use pg_eddy.Common.Int.{ℤ, eq_ℤ, from_bits}
use pg_eddy.Page.{slice}
use pg_eddy.Edges.{Slot}
use pg_eddy.Edges.Scan.{is_normal, item_data, upto, offsets}
use pg_eddy.Nodes.{NodePage, NodeRelation, NodePostgres, node_fixed_data_size}
use pg_eddy.Nodes.Scan.{is_overflow_page}

module _ (pg : NodePostgres) where
  -- The tests that both paths make of an item.
  unfoldable pub is_live_node : Slot → ℤ → Bool
  is_live_node s node_id =
      is_normal s.lp_flags
      && (not (ltb s.lp_len (pg.base.hdr_size + node_fixed_data_size))
          && (eq_ℤ (from_bits (2 ^ 63) (from_le (slice (item_data pg.base s) 0 8))) node_id
              && s.header.xmax_invalid))

  unfoldable pub stored_adj_slot : Slot → ℕ
  stored_adj_slot s = from_le (slice (item_data pg.base s) 8 2)

  unfoldable pub locate_on_page : NodePage → (blkno : ℕ) → ℤ → List ℕ → Option (ℕ × ℕ × ℕ)
  unfolding is_live_node stored_adj_slot
  locate_on_page page blkno node_id [] = none
  locate_on_page page blkno node_id (off ∷ offs) =
      let rest = locate_on_page page blkno node_id offs in
      let s = page.items.slot off in
      if is_live_node s node_id then some (blkno, off, stored_adj_slot s) else rest

  unfoldable pub locate_blocks : NodeRelation → ℤ → List ℕ → Option (ℕ × ℕ × ℕ)
  unfolding locate_on_page is_overflow_page
  locate_blocks rel node_id [] = none
  locate_blocks rel node_id (blkno ∷ blks) =
      let page = rel.page blkno in
      let rest = locate_blocks rel node_id blks in
      if is_overflow_page page
      then rest
      else elim (locate_on_page page blkno node_id (offsets page.items)) [
        | none ↦ rest
        | some found ↦ some found
      ]

  -- The fast path.
  unfoldable pub locate_cached : NodeRelation → ℤ → Option (ℕ × ℕ) → Option (ℕ × ℕ × ℕ)
  unfolding is_live_node stored_adj_slot
  locate_cached rel node_id none = none
  locate_cached rel node_id (some (blkno, off)) =
      let s = (rel.page blkno).items.slot off in
      if is_live_node s node_id then some (blkno, off, stored_adj_slot s) else none

  unfoldable pub find_node_location :
      (lookup_cached_location : ℤ → Option (ℕ × ℕ)) → NodeRelation → ℤ → Option (ℕ × ℕ × ℕ)
  unfolding locate_cached locate_blocks
  find_node_location lookup_cached_location rel node_id =
      elim (locate_cached rel node_id (lookup_cached_location node_id)) [
        | some found ↦ some found
        | none ↦ locate_blocks rel node_id (upto 0 rel.nblocks)
      ]
