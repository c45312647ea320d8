-- ===== src/Nodes/Store.antt =====
-- storage/node_store.rs: `insert_node`, `delete_node_by_id`, `update_node` and `compact_node_page`,
-- with the page that they work on. The log holds what the `log_node_*` functions are given.
use pg_eddy.Common.{
  ℕ, zero, suc, ◌+◌, ◌-◌, ◌*◌, ◌/◌, ◌%◌, ◌^◌, Bool, true, false, Option, none, some, List, [], ◌∷◌,
  ◌++◌, ltb, leb, ◌==◌, if◌then◌else◌, length, Result, ok, err, ◌>>◌, fail_if,
}
use pg_eddy.Common.Bytes.{le_bytes}
use pg_eddy.Common.Int.{ℤ}
use pg_eddy.Page.{put, zeros, adj_header_bytes, prop_inline_max}
use pg_eddy.Edges.{Item, Slot}
use pg_eddy.Edges.Store.{set_slot, page_free_space, new_header}
use pg_eddy.Edges.Update.{mark_deleted}
use pg_eddy.Nodes.{
  NodePage, NodeRelation, NodePostgres, max_labels_per_node, pd_node_special_size, build_node_data,
}
use pg_eddy.Nodes.Scan.{is_overflow_page}
use pg_eddy.Nodes.Locate.{find_node_location}

pub data NodeError : Type 0 where
  too_many_labels : ℕ → NodeError
  props_exceed_inline : ℕ → NodeError
  overflow_add_failed : NodeError
  node_add_failed : ℕ → NodeError

pub data NodeLog : Type 0 where
  node_inserted : (blk off : ℕ) → Item → (overflow : Option ℕ) → NodeLog
  node_deleted : (blk off xmax : ℕ) → NodeLog
  node_compacted : ℕ → NodeLog
  page_vacuumed : (blk : ℕ) → List ℕ → NodeLog

pub record NodeStore : Type 0 where
  pub rel : NodeRelation
  pub log : List NodeLog

abbrev pub set_node_page : ℕ → NodePage → NodeRelation → NodeRelation
set_node_page blk page rel = record rel { page = λ b. if b == blk then page else rel.page b }

abbrev pub extended : NodePage → NodeRelation → NodeRelation
extended page rel = set_node_page rel.nblocks page (record rel { nblocks = rel.nblocks + 1 })

module _ (pg : NodePostgres) where
  unfoldable pub init_node_page : NodePage
  init_node_page = record (pg.page_init pd_node_special_size) {
    special = zeros pd_node_special_size;
  }

  -- The item has room on the page, aligned and with its line pointer.
  unfoldable pub fits : NodePage → (item_size : ℕ) → Bool
  unfolding page_free_space
  fits page item_size =
      leb ((item_size + 7) / 8 * 8 + pg.base.item_id_size) (page_free_space page.items)

  -- The search of `find_or_extend_page` backwards over the first `n` blocks: it ends at the last one
  -- that is no overflow block.
  unfoldable pub page_with_room : NodeRelation → (item_size n : ℕ) → Option ℕ
  unfolding fits is_overflow_page
  page_with_room rel item_size zero = none
  page_with_room rel item_size (suc blk) =
      let page = rel.page blk in
      let before = page_with_room rel item_size blk in
      if is_overflow_page page then before else if fits page item_size then some blk else none

  unfoldable pub find_or_extend_page : NodeRelation → (item_size : ℕ) → NodeRelation × ℕ
  unfolding page_with_room init_node_page
  find_or_extend_page rel item_size = elim (page_with_room rel item_size rel.nblocks) [
    | some blk ↦ (rel, blk)
    | none ↦ (extended init_node_page rel, rel.nblocks)
  ]

  -- A new block without a special area.
  unfoldable pub write_overflow_block : NodeRelation → NodeRelation × ℕ
  write_overflow_block rel = (extended (pg.page_init 0) rel, rel.nblocks)

  abbrev pub node_item : (node_id : ℤ) (adj : ℕ) → List ℤ → List ℕ → (overflow_blkno : ℕ) → Item
  node_item node_id adj label_ids prop_bytes overflow_blkno = record {
    header = new_header pg.base;
    bytes = build_node_data node_id adj label_ids prop_bytes overflow_blkno;
  }

  -- `PageAddItemExtended` of a node item, and the self-pointer in the item that it added.
  unfoldable pub add_node_item :
      NodeRelation → (blk : ℕ) → Item → (fix : ℕ → Slot → Slot) → Option (NodeRelation × ℕ)
  add_node_item rel blk item fix =
      let page = rel.page blk in
      elim (pg.base.page_add_item page.items item) [
        | none ↦ none
        | some (items, off) ↦
            let added = fix off (items.slot off) in
            let linked = record added {
              header = record (added.header) { ctid = some (blk, off) };
            } in
            some (set_node_page blk (record page { items = set_slot off linked items }) rel, off)
      ]

  -- The in-page fix of `adj_slot_idx` to the index of the slot.
  unfoldable pub fix_adj_slot : ℕ → Slot → Slot
  unfolding put
  fix_adj_slot off s = record s { memory = put 8 (le_bytes 2 ((off - 1) % 2 ^ 16)) s.memory }

  -- `insert_node` behind the search for the page, with the overflow block, if there is one.
  unfoldable pub place_node :
      (node_id : ℤ)
      → List ℤ
      → (inline_props : List ℕ) (overflow : Option ℕ) (overflow_blkno blk : ℕ) → NodeRelation
      → List NodeLog
      → Result NodeError (NodeStore × ℕ × ℕ)
  unfolding add_node_item fix_adj_slot
  place_node node_id label_ids inline_props overflow overflow_blkno blk rel log =
      let item = node_item node_id 0 label_ids inline_props overflow_blkno in
      elim (add_node_item rel blk item fix_adj_slot) [
        | none ↦ err (node_add_failed blk)
        | some (rel', off) ↦ ok (
          record { rel = rel'; log = log ++ (node_inserted blk off item overflow ∷ []) },
          blk,
          off,
        )
      ]

  -- The bytes of the properties go to the overflow block before the node is placed.
  unfoldable pub place_outside :
      (node_id : ℤ)
      → List ℤ
      → (prop_bytes : List ℕ) (blk : ℕ) → NodeRelation
      → List NodeLog
      → Result NodeError (NodeStore × ℕ × ℕ)
  unfolding place_node write_overflow_block
  place_outside node_id label_ids prop_bytes blk rel log =
      let new = write_overflow_block rel in
      elim (pg.page_add_raw (new.0.page new.1) prop_bytes) [
        | none ↦ err overflow_add_failed
        | some (ovf_page, ovf_off) ↦
            place_node node_id label_ids [] (some new.1) new.1 blk
              (set_node_page new.1 ovf_page new.0) log
      ]

  unfoldable pub insert_node :
      (node_id : ℤ)
      → List ℤ
      → (prop_bytes : List ℕ) → NodeStore
      → Result NodeError (NodeStore × ℕ × ℕ)
  unfolding find_or_extend_page place_node place_outside
  insert_node node_id label_ids prop_bytes st =
      let needs_overflow = ltb prop_inline_max (length prop_bytes) in
      let inline_props : List ℕ = if needs_overflow then [] else prop_bytes in
      let estimate =
        pg.base.hdr_size + length (build_node_data node_id 0 label_ids inline_props 0) in
      let found = find_or_extend_page st.rel estimate in
      fail_if (ltb max_labels_per_node (length label_ids)) (too_many_labels (length label_ids))
      >> (if needs_overflow
          then place_outside node_id label_ids prop_bytes found.1 found.0 st.log
          else place_node node_id label_ids prop_bytes none 0 found.1 found.0 st.log)

  -- Setting `xmax` of the item in its place.
  unfoldable pub mark_node_deleted : NodeRelation → (blk off : ℕ) → NodeRelation
  mark_node_deleted rel blk off =
      let page = rel.page blk in
      set_node_page blk
        (record page {
          items = set_slot off (mark_deleted pg.base (page.items.slot off)) page.items;
        })
        rel

  unfoldable pub delete_node_by_id :
      (lookup_cached_location : ℤ → Option (ℕ × ℕ)) → ℤ → NodeStore → NodeStore × Bool
  unfolding mark_node_deleted find_node_location
  delete_node_by_id lookup_cached_location node_id st =
      elim (find_node_location pg lookup_cached_location st.rel node_id) [
        | none ↦ (st, false)
        | some (blk, off, adj) ↦ (
          record {
            rel = mark_node_deleted st.rel blk off;
            log = st.log ++ (node_deleted blk off pg.base.current_xid ∷ []);
          },
          true,
        )
      ]

  -- The second half of `update_node`: the new version goes to block `blk`.
  unfoldable pub place_version :
      Item → (blk : ℕ) → NodeRelation → List NodeLog → Result NodeError (NodeStore × Bool)
  unfolding add_node_item
  place_version item blk rel log = elim (add_node_item rel blk item (λ off s. s)) [
    | none ↦ err (node_add_failed blk)
    | some (rel', off) ↦
        ok (record { rel = rel'; log = log ++ (node_inserted blk off item none ∷ []) }, true)
  ]

  -- `update_node` at the node's location: the new version lies on the same page where it has room,
  -- and otherwise on the page that `find_or_extend_page` gives once the old one is deleted.
  unfoldable pub replace_node :
      Item → (size blk old_off : ℕ) → NodeStore → Result NodeError (NodeStore × Bool)
  unfolding fits find_or_extend_page place_version mark_node_deleted
  replace_node item size blk old_off st =
      let rel = mark_node_deleted st.rel blk old_off in
      let log = st.log ++ (node_deleted blk old_off pg.base.current_xid ∷ []) in
      let found = find_or_extend_page rel size in
      if fits (st.rel.page blk) size
      then place_version item blk rel log
      else place_version item found.1 found.0 log

  unfoldable pub update_node :
      (lookup_cached_location : ℤ → Option (ℕ × ℕ))
      → ℤ
      → List ℤ
      → List ℕ
      → NodeStore
      → Result NodeError (NodeStore × Bool)
  unfolding replace_node find_node_location
  update_node lookup_cached_location node_id new_label_ids new_prop_bytes st = do
    fail_if (ltb max_labels_per_node (length new_label_ids))
        (too_many_labels (length new_label_ids))
    fail_if (ltb prop_inline_max (length new_prop_bytes))
        (props_exceed_inline (length new_prop_bytes))
    elim (find_node_location pg lookup_cached_location st.rel node_id) [
      | none ↦ ok (st, false)
      | some (blk, old_off, adj) ↦
          let item = node_item node_id adj new_label_ids new_prop_bytes 0 in
          replace_node item (pg.base.hdr_size + length item.bytes) blk old_off st
    ]

  -- The headers of the dead items are zeroed, one by one.
  unfoldable pub clear_adj_slots : List ℕ → (special : List ℕ) → List ℕ
  unfolding put zeros
  clear_adj_slots [] special = special
  clear_adj_slots (slot ∷ slots) special =
      clear_adj_slots slots (put (slot * adj_header_bytes) (zeros adj_header_bytes) special)

  unfoldable pub compact_node_page : (blk : ℕ) (dead_adj_slots : List ℕ) → NodeStore → NodeStore
  unfolding clear_adj_slots
  compact_node_page blk dead_adj_slots st =
      let page = st.rel.page blk in
      record {
        rel =
            set_node_page blk
              (record page {
                items = pg.repair_fragmentation page.items;
                special = clear_adj_slots dead_adj_slots page.special;
              })
              st.rel;
        log = st.log ++ (node_compacted blk ∷ []);
      }
