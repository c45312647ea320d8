-- ===== src/Wal/Slots.antt =====
-- storage/node_store.rs and storage/wal.rs: the adjacency index of a node whose insert is redone.
use pg_eddy.Common.{
  ℕ, ◌+◌, ◌^◌, ◌<◌, ◌≡◌, sym, ap, Bool, true, false, Option, none, some, List, [], ◌∷◌, ◌++◌, ◌-◌,
  ◌≤◌, All, arith, ◌==◌, if◌then◌else◌, Option-cases, inl, inr, length, length-append, ok, take,
}
use pg_eddy.Common.Bytes.{le_bytes, from_le, length-le_bytes, from_le-le_bytes}
use pg_eddy.Common.Position.{At-start, At-slice}
use pg_eddy.Common.Int.{ℤ, IsI64, IsI32}
use pg_eddy.Page.{slice}
use pg_eddy.Edges.{lp_normal, Item, Page}
use pg_eddy.Nodes.{NodePage, NodePostgres}
use pg_eddy.Nodes.Record.{IsNodeRecord}
use pg_eddy.Nodes.Locate.{stored_adj_slot}
use pg_eddy.Edges.Added.{AddsItems}
use pg_eddy.Nodes.Inserted.{InitsPages}
use pg_eddy.Nodes.Readable.{insert_node-Inserted, Inserted-IsNodeRecord}
use pg_eddy.Nodes.Store.{NodeStore, insert_node, node_inserted, node_item, init_node_page}
use pg_eddy.Nodes.Placed.{Holds, Holds-is_live_node}
use pg_eddy.Nodes.Insert.{AddsRaw, record_at, placeholder}
use pg_eddy.Wal.{
  WalRecord, insert_data, log_node_insert, blk_needs_redo, redo_if, put_item, redo_node_insert,
  rmgr_redo,
}

module _ (pg : NodePostgres) (page_put_item : Page → Item → ℕ → Option Page) where
  -- What `PageAddItemExtended` promises when it is told the line pointer.
  pub record PutAt (item : Item) (page' : Page) (off : ℕ) : Type 0 where
    pub flags : (page'.slot off).lp_flags ≡ lp_normal
    pub len : (page'.slot off).lp_len ≡ pg.base.hdr_size + length item.bytes
    pub bytes : take (length item.bytes) (page'.slot off).memory ≡ item.bytes
    pub header : (page'.slot off).header ≡ item.header

  abbrev pub PutsItems : Type 0
  PutsItems =
      (page : Page) (item : Item) (off : ℕ) (page' : Page)
      → page_put_item page item off ≡ some page'
      → PutAt item page' off

  insert_data-slice : (off : ℕ) → off < 2 ^ 16 → from_le (slice (insert_data off) 0 2) ≡ off
  insert_data-slice off small =
      rw (At-slice (le_bytes 2 off) _ 2 (At-start (insert_data off)) (sym (length-le_bytes 2 off)))
        (from_le-le_bytes 2 off small)

  length-insert_data : (off : ℕ) → length (insert_data off) ≡ 4
  length-insert_data off = omega (
    arith,
    length-append (le_bytes 2 off) (le_bytes 2 0),
    length-le_bytes 2 off,
    length-le_bytes 2 0,
  )

  redo-base :
      (off : ℕ) (item : Item) (has_overflow : Bool) (page page' : NodePage)
      → off < 2 ^ 16
      → rmgr_redo pg page_put_item (log_node_insert off item has_overflow) blk_needs_redo page
        ≡ ok page'
      → (before : Page) × (items : Page) × (page_put_item before item off ≡ some items)
        × (items ≡ page'.items)
  unfolding rmgr_redo log_node_insert redo_node_insert redo_if put_item
  redo-base off item has_overflow page page' small e =
      let base = if page.items.pd_upper == 0 then init_node_page pg else page in
      let start : put_item pg page_put_item (init_node_page pg)
            (log_node_insert off item has_overflow) page
          ≡ ok page' =
        by_kind has_overflow e in
      elim (Option-cases (page_put_item base.items item off)) [
        | inl full ↦ absurd (cc (rw (insert_data-slice off small, full, put_item) at start))
        | inr (items, done) ↦
            let q : record base { items = items } ≡ page' =
              cc (rw (insert_data-slice off small, done, put_item) at start) in
            (base.items, items, done, ap (λ (p : NodePage). p.items) q)
      ]
    where
      by_kind :
          (b : Bool)
          → rmgr_redo pg page_put_item (log_node_insert off item b) blk_needs_redo page ≡ ok page'
          → put_item pg page_put_item (init_node_page pg) (log_node_insert off item b) page
            ≡ ok page'
      by_kind true e = rw (length-insert_data off) at e
      by_kind false e = rw (length-insert_data off) at e

  -- The record that is written for a log entry of `insert_node`.
  abbrev pub record_of : (off : ℕ) → Item → Option ℕ → WalRecord
  record_of off item overflow =
      log_node_insert off item (elim overflow [ none ↦ false | some b ↦ true ])

  placeholder-redone :
      PutsItems
      → (node_id : ℤ) (label_ids : List ℤ) (props : List ℕ) (ovf off : ℕ) (has_overflow : Bool)
        (page page' : NodePage)
      → IsNodeRecord (placeholder pg node_id label_ids props ovf off)
      → off < 2 ^ 16
      → rmgr_redo pg page_put_item
          (log_node_insert off (node_item pg node_id 0 label_ids props ovf) has_overflow)
          blk_needs_redo
          page
        ≡ ok page'
      → stored_adj_slot pg (page'.items.slot off) ≡ 0
  placeholder-redone puts node_id label_ids props ovf off has_overflow page page' fits small e =
      let item = node_item pg node_id 0 label_ids props ovf in
      let (before, items, done, same) = redo-base off item has_overflow page page' small e in
      let there = puts before item off items done in
      let holds : Holds pg (items.slot off) (placeholder pg node_id label_ids props ovf off) =
        record {
          flags = there.flags;
          len = there.len;
          bytes = there.bytes;
          xmin = ap (λ t. t.xmin) there.header;
          not_committed = ap (λ t. t.xmin_committed) there.header;
          not_invalid = ap (λ t. t.xmin_invalid) there.header;
          not_deleted = ap (λ t. t.xmax_invalid) there.header;
        } in
      let (_, slot) =
        Holds-is_live_node pg (items.slot off) (placeholder pg node_id label_ids props ovf off) fits
          holds in
      rw (← same) slot

  module _ (inits : InitsPages pg) (adds : AddsItems pg.base) (adds_raw : AddsRaw pg)
      (puts : PutsItems) where
    -- A successful `insert_node` puts the index `off - 1` of the node's header into the item on the
    -- page, but the record that it logs leads recovery to another one: wherever the redo of the record
    -- succeeds without a full page image, the item at the same line pointer has index 0. The id fits
    -- 64 bits, the labels 32, block numbers have room for two more blocks, and PostgreSQL makes pages
    -- and adds items as it promises.
    pub redo-insert_node :
        (node_id : ℤ) (label_ids : List ℤ) (prop_bytes : List ℕ) (st st' : NodeStore) (blk off : ℕ)
        → IsI64 node_id
        → All IsI32 label_ids
        → st.rel.nblocks + 2 ≤ 2 ^ 32
        → insert_node pg node_id label_ids prop_bytes st ≡ ok (st', blk, off)
        → (item : Item) × (overflow : Option ℕ) × (st'.log
            ≡ st.log ++ (node_inserted blk off item overflow ∷ []))
          × (stored_adj_slot pg ((st'.rel.page blk).items.slot off) ≡ off - 1)
          × ((page page' : NodePage)
              → rmgr_redo pg page_put_item (record_of off item overflow) blk_needs_redo page
                ≡ ok page'
              → stored_adj_slot pg (page'.items.slot off) ≡ 0)
    redo-insert_node node_id label_ids prop_bytes st st' blk off wide labels room e =
        let after =
          insert_node-Inserted pg inits adds adds_raw node_id label_ids prop_bytes st st' blk off
            wide labels room e in
        let r = record_at pg node_id label_ids after.props after.ovf off in
        let whole =
          Inserted-IsNodeRecord pg inits adds adds_raw node_id label_ids prop_bytes st st' blk off
            after in
        let (live, slot) =
          Holds-is_live_node pg ((st'.rel.page blk).items.slot off) r whole after.holds in
        (
          node_item pg node_id 0 label_ids after.props after.ovf,
          after.overflow,
          after.logged,
          slot,
          λ page page'.
              placeholder-redone puts node_id label_ids after.props after.ovf off
                (elim after.overflow [ none ↦ false | some b ↦ true ]) page page' after.fits
                after.small,
        )
