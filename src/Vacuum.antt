-- ===== src/Vacuum.antt =====
-- storage/vacuum.rs: `vacuum_relation`. What runs between the two locks of a page is nothing here.
pub mod Kept
pub mod Cleared
mod Tests
use pg_eddy.Common.{
  ℕ, ◌+◌, ◌-◌, Bool, true, false, not, ◌&&◌, List, [], ◌∷◌, ◌++◌, ltb, ◌==◌, if◌then◌else◌,
}
use pg_eddy.Edges.{LineFlags, lp_dead, Slot, Page}
use pg_eddy.Edges.Scan.{is_normal, upto, offsets}
use pg_eddy.Edges.Store.{set_slot}
use pg_eddy.Nodes.{NodePage, NodePostgres, node_fixed_data_size, blcksz}
use pg_eddy.Nodes.Scan.{is_overflow_page}
use pg_eddy.Nodes.Locate.{stored_adj_slot}
use pg_eddy.Nodes.Store.{NodeStore, page_vacuumed, set_node_page, compact_node_page}

-- `VacuumStats`
pub record VacuumStats : Type 0 where
  pub dead_nodes : ℕ
  pub live_nodes : ℕ
  pub dead_edges : ℕ
  pub live_edges : ℕ

abbrev pub no_stats : VacuumStats
no_stats = record { dead_nodes = 0; live_nodes = 0; dead_edges = 0; live_edges = 0 }

-- What the loop over a page's items collects.
pub record PageScan : Type 0 where
  pub dead_offsets : List ℕ
  pub dead_adj_slots : List ℕ
  pub page_live : ℕ
  pub page_dead : ℕ

-- What the loop does with an item.
pub data Verdict : Type 0 where
  skipped : Verdict
  live : Verdict
  dead : Verdict

abbrev pub is_node_page : NodePage → Bool
is_node_page page = not (page.pd_special == blcksz)

-- Each slot is tested again before it is marked.
unfoldable pub mark_dead : List ℕ → Page → Page
mark_dead [] page = page
mark_dead (off ∷ offs) page =
    let s = page.slot off in
    let next =
      if is_normal s.lp_flags then set_slot off (record s { lp_flags = lp_dead }) page else page in
    mark_dead offs next

-- `precedes` is `TransactionIdPrecedes`, `oldest_xmin` what `GetOldestNonRemovableTransactionId` gave.
module _ (pg : NodePostgres) (precedes : ℕ → ℕ → Bool) (oldest_xmin : ℕ) where
  unfoldable pub verdict : Slot → Verdict
  verdict s =
      if not (is_normal s.lp_flags)
      then skipped
      else if ltb s.lp_len (pg.base.hdr_size + 1)
      then skipped
      else if s.header.xmax_invalid
      then live
      else if not (s.header.xmax == 0)
          && (precedes s.header.xmax oldest_xmin && pg.base.did_commit s.header.xmax)
      then dead
      else live

  abbrev pub has_adj_slot : NodePage → Slot → Bool
  has_adj_slot page s =
      is_node_page page && not (ltb s.lp_len (pg.base.hdr_size + node_fixed_data_size))

  -- The loop over the offsets of a page.
  unfoldable pub scan_items : NodePage → List ℕ → PageScan
  unfolding verdict stored_adj_slot
  scan_items page [] = record {
    dead_offsets = [];
    dead_adj_slots = [];
    page_live = 0;
    page_dead = 0;
  }
  scan_items page (off ∷ offs) =
      let s = page.items.slot off in
      let rest = scan_items page offs in
      let slots : List ℕ =
        if has_adj_slot page s
        then stored_adj_slot pg s ∷ rest.dead_adj_slots
        else rest.dead_adj_slots in
      elim (verdict s) [
        | skipped ↦ rest
        | live ↦ record rest { page_live = rest.page_live + 1 }
        | dead ↦ record rest {
          dead_offsets = off ∷ rest.dead_offsets;
          dead_adj_slots = slots;
          page_dead = rest.page_dead + 1;
        }
      ]

  abbrev pub add_stats : NodePage → PageScan → VacuumStats → VacuumStats
  add_stats page found stats =
      if is_node_page page
      then record stats {
        live_nodes = stats.live_nodes + found.page_live;
        dead_nodes = stats.dead_nodes + found.page_dead;
      }
      else record stats {
        live_edges = stats.live_edges + found.page_live;
        dead_edges = stats.dead_edges + found.page_dead;
      }

  -- The second half of the body of the loop over the blocks, for the dead items that were found.
  unfoldable pub reclaim : (blk : ℕ) → PageScan → NodeStore → NodeStore
  unfolding mark_dead compact_node_page
  reclaim blk found st =
      let page = st.rel.page blk in
      let marked = record st {
        rel =
            set_node_page blk (record page { items = mark_dead found.dead_offsets page.items })
              st.rel;
      } in
      elim found.dead_offsets [
        | [] ↦ st
        | off ∷ offs ↦
            if is_node_page page
            then compact_node_page pg blk found.dead_adj_slots marked
            else record marked { log = st.log ++ (page_vacuumed blk found.dead_offsets ∷ []) }
      ]

  -- The loop over the blocks.
  unfoldable pub vacuum_blocks : List ℕ → NodeStore → VacuumStats → NodeStore × VacuumStats
  unfolding scan_items reclaim is_overflow_page
  vacuum_blocks [] st stats = (st, stats)
  vacuum_blocks (blk ∷ blks) st stats =
      let page = st.rel.page blk in
      let found = scan_items page (offsets page.items) in
      let skip = is_overflow_page page in
      vacuum_blocks blks (if skip then st else reclaim blk found st)
        (if skip then stats else add_stats page found stats)

  unfoldable pub vacuum_relation : NodeStore → NodeStore × VacuumStats
  unfolding vacuum_blocks
  vacuum_relation st = vacuum_blocks (upto 0 st.rel.nblocks) st no_stats
