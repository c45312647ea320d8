-- ===== src/Nodes/Insert.antt =====
-- storage/node_store.rs: after `insert_node` the node can be read where it says it is.
use pg_eddy.Common.{
  ℕ, ◌-◌, ◌%◌, ◌^◌, ◌<◌, ◌≡◌, sym, ap, ◌∙◌, Option, some, List, [], ◌++◌, ◌∷◌, arith, length, take,
  Option-cases, inl, inr, ok,
}
use pg_eddy.Common.Bytes.{le_bytes, length-le_bytes}
use pg_eddy.Common.Int.{ℤ, to_bits}
use pg_eddy.Edges.{Page}
use pg_eddy.Edges.Added.{Added, AddsItems}
use pg_eddy.Nodes.{NodeRecord, NodePage, NodeRelation, NodePostgres}
use pg_eddy.Nodes.Record.{IsNodeRecord, node_data, behind_adj, node_data-front, length-node_data}
use pg_eddy.Nodes.Placed.{Holds, take-put_adj}
use pg_eddy.Nodes.Store.{
  NodeLog, node_inserted, NodeStore, node_item, add_node_item, fix_adj_slot, place_node,
}
use pg_eddy.Nodes.Inserted.{PlacedNode, linked, add_node_item-lem, placed-PlacedNode}

module _ (pg : NodePostgres) where
  -- What `PageAddItemExtended` promises of plain bytes on an empty page: they are item 1.
  pub record AddedRaw (page : NodePage) (bytes : List ℕ) (page' : NodePage) : Type 0 where
    pub max_off : page'.items.max_off ≡ 1
    pub len : (page'.items.slot 1).lp_len ≡ length bytes
    pub bytes_there : take (length bytes) (page'.raw 1) ≡ bytes
    pub pd_special : page'.pd_special ≡ page.pd_special

  abbrev pub AddsRaw : Type 0
  AddsRaw =
      (page : NodePage) (bytes : List ℕ) (page' : NodePage) (off : ℕ)
      → page.items.max_off ≡ 0
      → pg.page_add_raw page bytes ≡ some (page', off)
      → AddedRaw page bytes page'

  module _ (node_id : ℤ) (label_ids : List ℤ) (props : List ℕ) (ovf off : ℕ) where
    -- The record that is placed at `off`.
    abbrev pub record_at : NodeRecord
    record_at = record {
      node_id = node_id;
      adj_slot_idx = off - 1;
      overflow_blkno = ovf;
      label_ids = label_ids;
      prop_bytes = props;
    }

    abbrev pub placeholder : NodeRecord
    placeholder = record record_at { adj_slot_idx = 0 }

    module _ (adds : AddsItems pg.base) (h : IsNodeRecord placeholder) (rel : NodeRelation)
        (blk : ℕ) where
      pub record_at-IsNodeRecord : off < 2 ^ 16 → IsNodeRecord record_at
      record_at-IsNodeRecord small = record {
        node_id = h.node_id;
        adj_slot_idx = omega arith;
        overflow_blkno = h.overflow_blkno;
        label_ids = h.label_ids;
        label_count = h.label_count;
        prop_bytes = h.prop_bytes;
        moved_out = h.moved_out;
      }

      -- The item of the placeholder becomes the item of the record.
      fixed-Holds :
          (items : Page)
          → Added pg.base
              (rel.page blk).items
              (node_item pg node_id 0 label_ids props ovf)
              items
              off
          → Holds pg (linked pg blk off (fix_adj_slot pg off (items.slot off))) record_at
      unfolding fix_adj_slot
      fixed-Holds items added =
          let start = placeholder in
          let whole = record_at-IsNodeRecord added.small in
          let w = to_bits (2 ^ 63) node_id in
          let tail = behind_adj label_ids props ovf in
          let wrap : (off - 1) % 2 ^ 16 ≡ off - 1 = omega (arith, added.small) in
          let same : length (node_data record_at) ≡ length (node_data start) =
            omega (arith, length-node_data record_at whole, length-node_data start h) in
          record {
            flags = added.flags;
            len = omega (arith, added.len, same);
            bytes =
                rw (same, wrap, node_data-front record_at whole)
                  (take-put_adj (le_bytes 8 w) tail (items.slot off).memory (le_bytes 2 0)
                    (le_bytes 2 (off - 1)) (length (node_data start)) (length-le_bytes 8 w)
                    (length-le_bytes 2 0) (length-le_bytes 2 (off - 1))
                    (ap length (node_data-front start h)) (added.bytes ∙ node_data-front start h));
            xmin = ap (λ t. t.xmin) added.header;
            not_committed = ap (λ t. t.xmin_committed) added.header;
            not_invalid = ap (λ t. t.xmin_invalid) added.header;
            not_deleted = ap (λ t. t.xmax_invalid) added.header;
          }

      pub place_node-PlacedNode :
          (overflow : Option ℕ) (log : List NodeLog) (st' : NodeStore) (blk' : ℕ)
          → place_node pg node_id label_ids props overflow ovf blk rel log ≡ ok (st', blk', off)
          → (blk' ≡ blk)
            × PlacedNode pg rel st'.rel blk off record_at
            × (st'.log
                ≡ log
                  ++ (node_inserted blk off (node_item pg node_id 0 label_ids props ovf) overflow
                      ∷ []))
      unfolding place_node
      place_node-PlacedNode overflow log st' blk' e =
          let item = node_item pg node_id 0 label_ids props ovf in
          elim (Option-cases (add_node_item pg rel blk item (fix_adj_slot pg))) [
            | inl full ↦ absurd (cc (rw (full, place_node) at e))
            | inr ((rel', o), added) ↦
                let same_off : o ≡ off = cc (rw (added, place_node) at e) in
                let same_blk : blk ≡ blk' = cc (rw (added, place_node) at e) in
                let same_st : record {
                  rel = rel';
                  log = log ++ (node_inserted blk o item overflow ∷ []);
                }
                    ≡ st' =
                  cc (rw (added, place_node) at e) in
                let same_rel : rel' ≡ st'.rel = ap (λ t. t.rel) same_st in
                let (items, there, shape) =
                  add_node_item-lem pg rel rel' blk off item (fix_adj_slot pg)
                    (rw (← same_off) added) in
                let on_page = adds (rel.page blk).items item items off there in
                (
                  sym same_blk,
                  rw (← same_rel, ← shape)
                      (placed-PlacedNode pg rel blk off item (fix_adj_slot pg) items record_at
                        on_page (fixed-Holds items on_page)),
                  sym (rw same_off at (ap (λ t. t.log) same_st)),
                )
          ]
