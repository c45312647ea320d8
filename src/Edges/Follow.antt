-- ===== src/Edges/Follow.antt =====
-- storage/edge_store.rs: `follow_chain` and `adjacency_follow`.
use pg_eddy.Common.{
  ℕ, zero, suc, ◌-◌, ◌*◌, Bool, true, false, not, ◌&&◌, ◌||◌, Option, none, some, List, [], ◌∷◌,
  ◌++◌, leb, ◌==◌, if◌then◌else◌, Result, ok, err, ◌>>◌, and_then, fail_if,
}
use pg_eddy.Common.Bytes.{from_le}
use pg_eddy.Common.Int.{ℤ, eq_ℤ}
use pg_eddy.Page.{
  slice, adj_header_bytes, NodeAdjHeader, out_head_pg, out_head_sl, in_head_pg, in_head_sl,
}
use pg_eddy.Edges.{EdgeRecord, Slot, EdgeRelation, Postgres, decode_edge_record}
use pg_eddy.Edges.Scan.{is_normal, is_dead, item_data, holds_edge}

pub data Direction : Type 0 where
  out_edges : Direction
  in_edges : Direction
  both : Direction

-- What a traversal raises: PostgreSQL refuses a block behind the end of the relation. `out_of_fuel`
-- is the model's own.
pub data WalkError : Type 0 where
  no_block : ℕ → WalkError
  out_of_fuel : WalkError

-- The variables of the loop in `follow_chain`.
pub record Walk : Type 0 where
  pub head_pg : ℕ
  pub head_sl : ℕ
  pub out : List EdgeRecord

module _ (pg : Postgres) where
  -- The slot is live or dead, and long enough; else the chain is broken.
  abbrev pub followable : Slot → Bool
  followable s = (is_normal s.lp_flags || is_dead s.lp_flags) && holds_edge pg s

  -- `(next_pg, next_sl)`
  abbrev pub next_of : (is_out_chain : Bool) → Slot → ℕ × ℕ
  next_of is_out_chain s =
      let bytes = item_data pg s in
      if is_out_chain
      then (from_le (slice bytes 28 4), from_le (slice bytes 32 2))
      else (from_le (slice bytes 34 4), from_le (slice bytes 38 2))

  abbrev pub passes : Option ℤ → EdgeRecord → Bool
  passes none rec = true
  passes (some t) rec = eq_ℤ t rec.rel_type_id

  -- What a slot adds to the results.
  unfoldable pub yielded : Option ℤ → Slot → (blkno off : ℕ) → List EdgeRecord
  yielded rel_type_filter s blkno off =
      if s.header.xmax_invalid && is_normal s.lp_flags
      then elim (decode_edge_record (item_data pg s) (s.lp_len - pg.hdr_size) blkno off) [
        | none ↦ []
        | some rec ↦ if passes rel_type_filter rec then rec ∷ [] else []
      ]
      else []

  module _ (rel : EdgeRelation) (is_out_chain : Bool) (rel_type_filter : Option ℤ) where
    -- The body of the inner loop, on the pinned page.
    unfoldable pub visit : (current_pg : ℕ) → Walk → Walk
    unfolding yielded
    visit current_pg w =
        let s = (rel.page current_pg).slot w.head_sl in
        let next = next_of is_out_chain s in
        if followable s
        then record {
          head_pg = next.0;
          head_sl = next.1;
          out = w.out ++ yielded rel_type_filter s current_pg w.head_sl;
        }
        else record w { head_sl = 0 }

    -- The inner loop, which keeps the page pinned.
    unfoldable pub on_page : ℕ → (current_pg : ℕ) → Walk → Result WalkError Walk
    unfolding visit
    on_page zero current_pg w = err out_of_fuel
    on_page (suc fuel) current_pg w =
        let w' = visit current_pg w in
        let more = on_page fuel current_pg w' in
        if w.head_sl == 0
        then ok w
        else if (w'.head_sl == 0) || not (w'.head_pg == current_pg)
        then ok w'
        else more

    -- The outer loop, one pinned page at a time.
    unfoldable pub follow_chain : ℕ → Walk → Result WalkError (List EdgeRecord)
    unfolding on_page
    follow_chain zero w = err out_of_fuel
    follow_chain (suc fuel) w =
        let page =
          fail_if (leb rel.nblocks w.head_pg) (no_block w.head_pg)
          >> and_then (on_page fuel w.head_pg w) λ w'. follow_chain fuel w' in
        if w.head_sl == 0 then ok w.out else page

-- `read_adj_header`, on the special area of a node page.
unfoldable pub read_adj_header : (special : List ℕ) → (idx : ℕ) → NodeAdjHeader
read_adj_header special idx = slice special (idx * adj_header_bytes) adj_header_bytes

abbrev has_id : ℤ → List EdgeRecord → Bool
has_id id [] = false
has_id id (r ∷ rs) = eq_ℤ id r.edge_id || has_id id rs

-- `results.retain(|e| seen.insert(e.edge_id))`
unfoldable pub retain_unseen : List EdgeRecord → List EdgeRecord → List EdgeRecord
retain_unseen seen [] = []
retain_unseen seen (r ∷ rs) =
    let rest = retain_unseen (r ∷ seen) rs in
    if has_id r.edge_id seen then retain_unseen seen rs else r ∷ rest

abbrev pub goes_out : Direction → Bool
goes_out in_edges = false
goes_out _ = true

abbrev pub goes_in : Direction → Bool
goes_in out_edges = false
goes_in _ = true

abbrev pub dedup : Direction → List EdgeRecord → List EdgeRecord
dedup both results = retain_unseen [] results
dedup _ results = results

module _ (pg : Postgres) (find_node_location : ℤ → Option (ℕ × ℕ × ℕ)) where
  -- `special` gives the special area of each block of the node relation.
  unfoldable pub adjacency_follow :
      (fuel : ℕ)
      → (special : ℕ → List ℕ) → EdgeRelation
      → (node_id : ℤ) → Direction
      → Option ℤ
      → Result WalkError (List EdgeRecord)
  unfolding follow_chain read_adj_header retain_unseen
  adjacency_follow fuel special rel node_id direction rel_type_filter =
      elim (find_node_location node_id) [
        | none ↦ ok []
        | some (node_blk, node_off, adj_idx) ↦
            let adj = read_adj_header (special node_blk) adj_idx in
            let out_walk = λ (out : List EdgeRecord).
              if goes_out direction
              then follow_chain pg rel true rel_type_filter fuel
                  (record { head_pg = out_head_pg adj; head_sl = out_head_sl adj; out = out })
              else ok out in
            let in_walk = λ (out : List EdgeRecord).
              if goes_in direction
              then follow_chain pg rel false rel_type_filter fuel
                  (record { head_pg = in_head_pg adj; head_sl = in_head_sl adj; out = out })
              else ok out in
            and_then (out_walk [])
              λ out. and_then (in_walk out) λ results. ok (dedup direction results)
      ]
