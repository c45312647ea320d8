-- ===== src/Vacuum/Tests.antt =====
-- storage/vacuum.rs: runs on test_nodes relations.
use pg_eddy.Common.{ℕ, ◌≡◌, refl, false, none, some, List, [], ◌∷◌, arith, ltb, ◌==◌, if◌then◌else◌}
use pg_eddy.Common.Bytes.{le_bytes, from_le}
use pg_eddy.Common.Int.{to_bits, from_bits, pos}
use pg_eddy.Page.{zeros, adj_header_bytes}
use pg_eddy.Edges.{Slot, Page}
use pg_eddy.Edges.Sample.{test_pg, unused, slot_of}
use pg_eddy.Edges.Follow.{read_adj_header}
use pg_eddy.Edges.Scan.{upto}
use pg_eddy.Nodes.{NodeRecord, build_node_data, decode_node}
use pg_eddy.Nodes.Scan.{read_node_at_offset}
use pg_eddy.Nodes.Sample.{test_nodes}
use pg_eddy.Nodes.Store.{NodeStore, node_item}
use pg_eddy.Vacuum.{verdict, scan_items, reclaim, vacuum_relation}
use pg_eddy.Vacuum.Kept.{RepairsPages, vacuum_relation-read}
use pg_eddy.Vacuum.Cleared.{reclaim-shared}

test_nodes-RepairsPages : RepairsPages test_nodes
test_nodes-RepairsPages page o normal = record {
  flags = refl;
  len = refl;
  header = refl;
  bytes = refl;
}

abbrev version : Slot
version = slot_of (node_item test_nodes (pos 7) 0 [] (5 ∷ []) 0)

-- Transaction 3, which has committed, has replaced the first version by the second.
abbrev replaced : Slot
replaced = record version { header = record (version.header) { xmax = 3; xmax_invalid = false } }

abbrev items : Page
items = record (test_pg.page_init) {
  max_off = 2;
  slot = λ o. if o == 1 then replaced else if o == 2 then version else unused;
}

-- The node's first edge is at slot 1 of block 0.
abbrev special_area : List ℕ
special_area = 0 ∷ 0 ∷ 0 ∷ 0 ∷ 1 ∷ 0 ∷ zeros 18

abbrev store : NodeStore
store = record {
  rel = record {
    nblocks = 1;
    page = λ b. record { items = items; raw = λ o. []; pd_special = 5792; special = special_area };
  };
  log = [];
}

abbrev node : NodeRecord
node = record {
  node_id = pos 7;
  adj_slot_idx = 0;
  overflow_blkno = 0;
  label_ids = [];
  prop_bytes = 5 ∷ [];
}

reads : read_node_at_offset test_nodes none (store.rel.page 0) 2 ≡ some node
unfolding read_node_at_offset build_node_data le_bytes zeros to_bits from_bits from_le decode_node
reads = refl

vacuum_relation-read_example :
    read_node_at_offset test_nodes none ((vacuum_relation test_nodes ltb 5 store).0.rel.page 0) 2
    ≡ some node
vacuum_relation-read_example =
    vacuum_relation-read test_nodes ltb 5 test_nodes-RepairsPages none store 0 2 node reads

reclaim-shared_example :
    let found = scan_items test_nodes ltb 5 (store.rel.page 0) (1 ∷ 2 ∷ []) in
    let st' = reclaim test_nodes ltb 5 0 found store in
    (read_node_at_offset test_nodes none (st'.rel.page 0) 2 ≡ some node)
    × (read_adj_header (st'.rel.page 0).special 0 ≡ zeros adj_header_bytes)
unfolding upto verdict scan_items build_node_data le_bytes zeros to_bits from_le
reclaim-shared_example =
    reclaim-shared test_nodes ltb 5 test_nodes-RepairsPages none 0 store 1 2 node refl (omega arith)
      (omega arith) (omega arith) (omega arith) refl refl refl reads
