-- ===== src/Wal.antt =====
-- storage/wal.rs: the records that the `log_*` functions make, and the redo of them. Main data is the
-- bytes of its struct on a little-endian machine. An item in a record's block data is kept as such.
pub mod Redo
pub mod Replay
pub mod Slots
mod Tests
use pg_eddy.Common.{
  ℕ, zero, suc, ◌+◌, ◌*◌, ◌/◌, ◌%◌, ◌^◌, Bool, true, false, not, ◌||◌, Option, none, some, List, [],
  ◌∷◌, ◌++◌, ltb, ◌==◌, if◌then◌else◌, length, drop, Result, ok, err, ◌>>◌, fail_if,
}
use pg_eddy.Common.Bytes.{le_bytes, from_le}
use pg_eddy.Page.{slice, put, adj_header_bytes, NodeAdjHeader}
use pg_eddy.Edges.{LineFlags, lp_dead, Item, Slot, Page}
use pg_eddy.Edges.Scan.{is_normal}
use pg_eddy.Edges.Store.{set_slot}
use pg_eddy.Nodes.{NodePage, NodePostgres}
use pg_eddy.Nodes.Store.{init_node_page}

abbrev pub xlog_node_insert : ℕ
xlog_node_insert = 0x00

abbrev pub xlog_node_insert_ovf : ℕ
xlog_node_insert_ovf = 0x10

abbrev pub xlog_node_delete : ℕ
xlog_node_delete = 0x20

abbrev pub xlog_node_compact : ℕ
xlog_node_compact = 0x30

abbrev pub xlog_edge_insert : ℕ
xlog_edge_insert = 0x40

abbrev pub xlog_edge_delete : ℕ
xlog_edge_delete = 0x50

abbrev pub xlog_adj_update : ℕ
xlog_adj_update = 0x60

abbrev pub xlog_vacuum_page : ℕ
xlog_vacuum_page = 0x70

-- A record with what is registered for block 0: an item or other bytes.
pub record WalRecord : Type 0 where
  pub xl_info : ℕ
  pub main_data : List ℕ
  pub block_item : Option Item
  pub block_bytes : List ℕ

-- `XLogNodeInsert` and `XLogEdgeInsert`; `XLogNodeDelete` and `XLogEdgeDelete`.
abbrev pub insert_data : ℕ → List ℕ
insert_data off = le_bytes 2 off ++ le_bytes 2 0

abbrev pub delete_data : (off xmax : ℕ) → List ℕ
delete_data off xmax = le_bytes 2 off ++ (le_bytes 2 0 ++ le_bytes 4 xmax)

unfoldable pub offset_bytes : List ℕ → List ℕ
offset_bytes [] = []
offset_bytes (off ∷ offs) = le_bytes 2 off ++ offset_bytes offs

unfoldable pub log_node_insert : (off : ℕ) → Item → (has_overflow : Bool) → WalRecord
log_node_insert off item has_overflow = record {
  xl_info = if has_overflow then xlog_node_insert_ovf else xlog_node_insert;
  main_data = insert_data off;
  block_item = some item;
  block_bytes = [];
}

unfoldable pub log_node_compact : WalRecord
log_node_compact = record {
  xl_info = xlog_node_compact;
  main_data = [];
  block_item = none;
  block_bytes = [];
}

unfoldable pub log_node_delete : (off xmax : ℕ) → WalRecord
log_node_delete off xmax = record {
  xl_info = xlog_node_delete;
  main_data = delete_data off xmax;
  block_item = none;
  block_bytes = [];
}

unfoldable pub log_vacuum_page : List ℕ → WalRecord
unfolding offset_bytes
log_vacuum_page dead_offsets = record {
  xl_info = xlog_vacuum_page;
  main_data = le_bytes 2 (length dead_offsets % 2 ^ 16) ++ offset_bytes dead_offsets;
  block_item = none;
  block_bytes = [];
}

unfoldable pub log_edge_insert : (off : ℕ) → Item → WalRecord
log_edge_insert off item = record {
  xl_info = xlog_edge_insert;
  main_data = insert_data off;
  block_item = some item;
  block_bytes = [];
}

unfoldable pub log_edge_delete : (off xmax : ℕ) → WalRecord
log_edge_delete off xmax = record {
  xl_info = xlog_edge_delete;
  main_data = delete_data off xmax;
  block_item = none;
  block_bytes = [];
}

unfoldable pub log_adj_update : (adj_slot_idx : ℕ) → NodeAdjHeader → WalRecord
log_adj_update adj_slot_idx new_adj = record {
  xl_info = xlog_adj_update;
  main_data = [];
  block_item = none;
  block_bytes = le_bytes 2 adj_slot_idx ++ new_adj;
}

-- What `XLogReadBufferForRedo` says of a block; where the record has an image of the page, the page
-- is already that image.
pub data RedoAction : Type 0 where
  blk_needs_redo : RedoAction
  blk_done : RedoAction
  blk_restored : RedoAction
  blk_not_found : RedoAction

pub data RedoError : Type 0 where
  main_data_short : ℕ → RedoError
  block_data_short : ℕ → RedoError
  add_item_failed : ℕ → RedoError
  unknown_record : ℕ → RedoError

-- A page is changed only where the block needs the redo.
unfoldable pub redo_if :
    RedoAction → NodePage → Result RedoError NodePage → Result RedoError NodePage
redo_if blk_needs_redo page done = done
redo_if blk_done page done = ok page
redo_if blk_restored page done = ok page
redo_if blk_not_found page done = ok page

-- `page_put_item` is `PageAddItemExtended` with an offset and `PAI_OVERWRITE`.
module _ (pg : NodePostgres) (page_put_item : Page → Item → ℕ → Option Page) where
  -- The insert of an item where the record says, on a page that is initialised first if it is not.
  unfoldable pub put_item : (fresh : NodePage) → WalRecord → NodePage → Result RedoError NodePage
  put_item fresh rec page =
      let off = from_le (slice rec.main_data 0 2) in
      let base = if page.items.pd_upper == 0 then fresh else page in
      elim rec.block_item [
        | none ↦ err (add_item_failed off)
        | some item ↦ elim (page_put_item base.items item off) [
          | none ↦ err (add_item_failed off)
          | some items ↦ ok (record base { items = items })
        ]
      ]

  unfoldable pub redo_node_insert : WalRecord → RedoAction → NodePage → Result RedoError NodePage
  unfolding redo_if put_item init_node_page
  redo_node_insert rec action page = do
    fail_if (ltb (length rec.main_data) 4) (main_data_short (length rec.main_data))
    redo_if action page (put_item (init_node_page pg) rec page)

  unfoldable pub redo_edge_insert : WalRecord → RedoAction → NodePage → Result RedoError NodePage
  unfolding redo_if put_item
  redo_edge_insert rec action page = do
    fail_if (ltb (length rec.main_data) 4) (main_data_short (length rec.main_data))
    redo_if action page (put_item (pg.page_init 0) rec page)

  -- The image is the redo.
  unfoldable pub redo_node_compact : WalRecord → RedoAction → NodePage → Result RedoError NodePage
  redo_node_compact rec action page = ok page

  -- Setting `xmax` of an item in use.
  unfoldable pub set_xmax : (off xmax : ℕ) → NodePage → NodePage
  set_xmax off xmax page =
      let s = page.items.slot off in
      if is_normal s.lp_flags
      then record page {
        items =
            set_slot off
              (record s { header = record (s.header) { xmax = xmax; xmax_invalid = false } })
              page.items;
      }
      else page

  unfoldable pub redo_node_delete : WalRecord → RedoAction → NodePage → Result RedoError NodePage
  unfolding redo_if set_xmax
  redo_node_delete rec action page = do
    fail_if (ltb (length rec.main_data) 8) (main_data_short (length rec.main_data))
    redo_if action page
        (ok (set_xmax (from_le (slice rec.main_data 0 2)) (from_le (slice rec.main_data 4 4)) page))

  unfoldable pub redo_edge_delete : WalRecord → RedoAction → NodePage → Result RedoError NodePage
  unfolding redo_if set_xmax
  redo_edge_delete rec action page = do
    fail_if (ltb (length rec.main_data) 8) (main_data_short (length rec.main_data))
    redo_if action page
        (ok (set_xmax (from_le (slice rec.main_data 0 2)) (from_le (slice rec.main_data 4 4)) page))

  -- The loop over the offsets, from the `i`-th on.
  unfoldable pub redo_dead : List ℕ → (i n : ℕ) → Page → Page
  redo_dead main_data i zero page = page
  redo_dead main_data i (suc n) page =
      let off = from_le (slice main_data (2 + i * 2) 2) in
      let s = page.slot off in
      let next =
        if is_normal s.lp_flags
        then set_slot off (record s { lp_flags = lp_dead }) page
        else page in
      redo_dead main_data (suc i) n next

  unfoldable pub redo_vacuum_page : WalRecord → RedoAction → NodePage → Result RedoError NodePage
  unfolding redo_if redo_dead
  redo_vacuum_page rec action page = do
    let n_dead = from_le (slice rec.main_data 0 2)
    fail_if (ltb (length rec.main_data) 2) (main_data_short (length rec.main_data))
    fail_if (ltb (length rec.main_data) (2 + n_dead * 2)) (main_data_short (length rec.main_data))
    redo_if action page (ok (record page { items = redo_dead rec.main_data 0 n_dead page.items }))

  unfoldable pub redo_adj_update : WalRecord → RedoAction → NodePage → Result RedoError NodePage
  unfolding redo_if put
  redo_adj_update rec action page = do
    let adj_slot_idx = from_le (slice rec.block_bytes 0 2)
    let new_adj = slice rec.block_bytes 2 adj_header_bytes
    fail_if (ltb (length rec.block_bytes) (2 + adj_header_bytes))
        (block_data_short (length rec.block_bytes))
    redo_if action page
        (ok (record page { special = put (adj_slot_idx * adj_header_bytes) new_adj page.special }))

  -- The dispatch on the high nibble of the record's info byte.
  unfoldable pub rmgr_redo : WalRecord → RedoAction → NodePage → Result RedoError NodePage
  unfolding redo_node_insert redo_node_compact redo_node_delete redo_edge_insert redo_edge_delete
      redo_adj_update redo_vacuum_page
  rmgr_redo rec action page =
      let info = rec.xl_info / 16 * 16 in
      if (info == xlog_node_insert) || (info == xlog_node_insert_ovf)
      then redo_node_insert rec action page
      else if info == xlog_node_compact
      then redo_node_compact rec action page
      else if info == xlog_node_delete
      then redo_node_delete rec action page
      else if info == xlog_edge_insert
      then redo_edge_insert rec action page
      else if info == xlog_edge_delete
      then redo_edge_delete rec action page
      else if info == xlog_adj_update
      then redo_adj_update rec action page
      else if info == xlog_vacuum_page
      then redo_vacuum_page rec action page
      else err (unknown_record info)
