-- ===== src/Edges.antt =====
-- storage/edge_store.rs: the edge relation, and the edge records in its pages.
pub mod Cells
pub mod Record
pub mod Scan
pub mod Follow
pub mod Chain
pub mod Agree
pub mod Store
pub mod Update
pub mod Delete
pub mod Headers
pub mod Added
pub mod Insert
pub mod Linked
pub mod Sample
mod Tests
mod InsertTests
use pg_eddy.Common.{
  ℕ, ◌+◌, ◌-◌, ◌%◌, ◌^◌, Bool, not, Option, none, some, List, ◌++◌, ltb, if◌then◌else◌, length,
  take, drop,
}
use pg_eddy.Common.Bytes.{le_bytes, from_le}
use pg_eddy.Common.Int.{ℤ, to_bits, from_bits}
use pg_eddy.Page.{slice, zeros, put, edge_fixed_data_size, prop_inline_max}

-- `EdgeRecord`
pub record EdgeRecord : Type 0 where
  pub edge_id : ℤ
  pub rel_type_id : ℤ
  pub source_node_id : ℤ
  pub target_node_id : ℤ
  pub prop_bytes : List ℕ
  pub block_num : ℕ
  pub offset_num : ℕ
  pub next_out_page : ℕ
  pub next_out_slot : ℕ
  pub next_in_page : ℕ
  pub next_in_slot : ℕ

-- `lp_flags` of an item pointer.
pub data LineFlags : Type 0 where
  lp_unused : LineFlags
  lp_normal : LineFlags
  lp_redirect : LineFlags
  lp_dead : LineFlags

-- What the code reads and writes of a `HeapTupleHeaderData`; an infomask bit is a Boolean.
pub record TupleHeader : Type 0 where
  pub xmin : ℕ
  pub xmax : ℕ
  pub cmin : ℕ
  pub xmin_committed : Bool
  pub xmin_invalid : Bool
  pub xmax_invalid : Bool
  pub ctid : Option (ℕ × ℕ)

-- An item as it is handed to PostgreSQL: the header and the bytes behind it.
pub record Item : Type 0 where
  pub header : TupleHeader
  pub bytes : List ℕ

-- A line pointer and what it points to: `memory` is what lies behind the header, the item's bytes
-- and more.
pub record Slot : Type 0 where
  pub lp_flags : LineFlags
  pub lp_len : ℕ
  pub header : TupleHeader
  pub memory : List ℕ

-- A page, with whatever lies where a line pointer of the given number would.
pub record Page : Type 0 where
  pub max_off : ℕ
  pub slot : ℕ → Slot
  pub pd_lower : ℕ
  pub pd_upper : ℕ

pub record EdgeRelation : Type 0 where
  pub nblocks : ℕ
  pub page : ℕ → Page

-- PostgreSQL as the edge store uses it: the transaction, the commit log, and the page functions.
pub record Postgres : Type 0 where
  pub hdr_size : ℕ
  pub current_xid : ℕ
  pub current_cid : ℕ
  pub is_current_xid : ℕ → Bool
  pub did_commit : ℕ → Bool
  pub item_id_size : ℕ
  pub page_init : Page
  pub page_add_item : Page → Item → Option (Page × ℕ)

-- The data part of `build_edge_item_bytes`: the buffer starts as zeros.
unfoldable pub build_edge_data :
    (edge_id rel_type_id source_node_id target_node_id : ℤ)
    (next_out_pg next_out_sl next_in_pg next_in_sl : ℕ)
    → List ℕ
    → List ℕ
unfolding put
build_edge_data edge_id rel_type_id source_node_id target_node_id next_out_pg next_out_sl next_in_pg
      next_in_sl prop_bytes =
    let n = length prop_bytes in
    let prop_reserved = if ltb prop_inline_max n then n else prop_inline_max in
    let d = zeros (edge_fixed_data_size + prop_reserved) in
    let d = put 0 (le_bytes 8 (to_bits (2 ^ 63) edge_id)) d in
    let d = put 8 (le_bytes 4 (to_bits (2 ^ 31) rel_type_id)) d in
    let d = put 12 (le_bytes 8 (to_bits (2 ^ 63) source_node_id)) d in
    let d = put 20 (le_bytes 8 (to_bits (2 ^ 63) target_node_id)) d in
    let d = put 28 (le_bytes 4 next_out_pg) d in
    let d = put 32 (le_bytes 2 next_out_sl) d in
    let d = put 34 (le_bytes 4 next_in_pg) d in
    let d = put 38 (le_bytes 2 next_in_sl) d in
    let d = put 40 (le_bytes 2 (n % 2 ^ 16)) d in
    let d = put 42 (le_bytes 4 0) d in put 46 prop_bytes d

unfoldable pub decode_edge_record : List ℕ → (data_len blkno off : ℕ) → Option EdgeRecord
decode_edge_record bytes data_len blkno off =
    let prop_len = from_le (slice bytes 40 2) in
    if ltb data_len edge_fixed_data_size
    then none
    else if ltb data_len (edge_fixed_data_size + prop_len)
    then none
    else some (record {
      edge_id = from_bits (2 ^ 63) (from_le (slice bytes 0 8));
      rel_type_id = from_bits (2 ^ 31) (from_le (slice bytes 8 4));
      source_node_id = from_bits (2 ^ 63) (from_le (slice bytes 12 8));
      target_node_id = from_bits (2 ^ 63) (from_le (slice bytes 20 8));
      prop_bytes = slice bytes 46 prop_len;
      block_num = blkno;
      offset_num = off;
      next_out_page = from_le (slice bytes 28 4);
      next_out_slot = from_le (slice bytes 32 2);
      next_in_page = from_le (slice bytes 34 4);
      next_in_slot = from_le (slice bytes 38 2);
    })
