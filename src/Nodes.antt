-- ===== src/Nodes.antt =====
-- storage/node_store.rs: the node relation, and the node records in its pages.
pub mod Record
pub mod Scan
pub mod Locate
pub mod Store
pub mod Placed
pub mod Inserted
pub mod Insert
pub mod Readable
pub mod Located
pub mod Deleted
pub mod Counted
pub mod Sample
mod Tests
use pg_eddy.Common.{
  ℕ, zero, suc, ◌+◌, ◌-◌, ◌*◌, ◌%◌, ◌^◌, Bool, not, Option, none, some, List, [], ◌∷◌, ◌++◌, ltb,
  ◌==◌, if◌then◌else◌, length, take, drop, get_or,
}
use pg_eddy.Common.Bytes.{le_bytes, from_le}
use pg_eddy.Common.Int.{ℤ, to_bits, from_bits}
use pg_eddy.Page.{slice, zeros, put}
use pg_eddy.Edges.{Page, Postgres}

abbrev pub node_fixed_data_size : ℕ
node_fixed_data_size = 18

abbrev pub max_labels_per_node : ℕ
max_labels_per_node = 32

abbrev pub pd_node_special_size : ℕ
pd_node_special_size = 2400

abbrev pub pd_node_special_offset : ℕ
pd_node_special_offset = 5792

-- `BLCKSZ`
abbrev pub blcksz : ℕ
blcksz = 8192

-- `NodeRecord`
pub record NodeRecord : Type 0 where
  pub node_id : ℤ
  pub adj_slot_idx : ℕ
  pub overflow_blkno : ℕ
  pub label_ids : List ℤ
  pub prop_bytes : List ℕ

-- A page of the node relation: a node page, whose `items` have a tuple header and the bytes behind it,
-- or an overflow block, whose item has no header, so that its bytes are in `raw` and only its line
-- pointer is in `items`. A node's item is not in `raw`.
pub record NodePage : Type 0 where
  pub items : Page
  pub raw : ℕ → List ℕ
  pub pd_special : ℕ
  pub special : List ℕ

pub record NodeRelation : Type 0 where
  pub nblocks : ℕ
  pub page : ℕ → NodePage

-- PostgreSQL as the node store uses it: what the edge store uses too, `PageInit` with the size of
-- the special area, `PageAddItemExtended` of plain bytes, and `PageRepairFragmentation`.
pub record NodePostgres : Type 0 where
  pub base : Postgres
  pub page_init : ℕ → NodePage
  pub page_add_raw : NodePage → List ℕ → Option (NodePage × ℕ)
  pub repair_fragmentation : Page → Page

-- A snapshot is `XidInMVCCSnapshot` of it; `none` is the null pointer.
abbrev pub Snapshot : Type 0
Snapshot = Option (ℕ → Bool)

-- The loop that writes the label ids, from label `i` on.
unfoldable pub put_labels : ℕ → List ℤ → List ℕ → List ℕ
unfolding put
put_labels i [] d = d
put_labels i (lid ∷ lids) d =
    put_labels (suc i) lids (put (18 + i * 4) (le_bytes 4 (to_bits (2 ^ 31) lid)) d)

-- The data part of `build_node_item_bytes_ovf`.
unfoldable pub build_node_data :
    (node_id : ℤ) (adj_slot_idx : ℕ) → List ℤ → List ℕ → (overflow_blkno : ℕ) → List ℕ
unfolding put put_labels
build_node_data node_id adj_slot_idx label_ids prop_bytes overflow_blkno =
    let d = zeros (node_fixed_data_size + length label_ids * 4 + length prop_bytes) in
    let nprop : ℕ = if overflow_blkno == 0 then length prop_bytes % 2 ^ 16 else 0 in
    let d = put 0 (le_bytes 8 (to_bits (2 ^ 63) node_id)) d in
    let d = put 8 (le_bytes 2 adj_slot_idx) d in
    let d = put 10 (length label_ids % 256 ∷ []) d in
    let d = put 11 (le_bytes 2 nprop) d in
    let d = put 13 (le_bytes 4 overflow_blkno) d in
    let d = put_labels 0 label_ids d in
    if overflow_blkno == 0 then put (18 + length label_ids * 4) prop_bytes d else d

-- The loop that reads `n` label ids, from label `i` on.
unfoldable pub read_labels : List ℕ → (i n : ℕ) → List ℤ
read_labels d i zero = []
read_labels d i (suc n) =
    from_bits (2 ^ 31) (from_le (slice d (18 + i * 4) 4)) ∷ read_labels d (suc i) n

-- The decoding at the end of `read_node_at_offset`.
unfoldable pub decode_node : List ℕ → (data_len : ℕ) → Option NodeRecord
unfolding read_labels
decode_node d data_len =
    let label_count = get_or d 10 0 in
    let prop_len = from_le (slice d 11 2) in
    let labels_end = 18 + label_count * 4 in
    if ltb data_len node_fixed_data_size
    then none
    else if ltb data_len (labels_end + prop_len)
    then none
    else some (record {
      node_id = from_bits (2 ^ 63) (from_le (slice d 0 8));
      adj_slot_idx = from_le (slice d 8 2);
      overflow_blkno = from_le (slice d 13 4);
      label_ids = read_labels d 0 label_count;
      prop_bytes = if ltb 0 prop_len then slice d labels_end prop_len else [];
    })
