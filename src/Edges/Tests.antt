-- ===== src/Edges/Tests.antt =====
-- storage/edge_store.rs: a page with two edges from node 10 to node 20.
use pg_eddy.Common.{
  ℕ, ◌+◌, ◌≡◌, refl, true, false, none, some, List, [], ◌∷◌, ◌++◌, ◌==◌, if◌then◌else◌, ok, arith,
  length,
}
use pg_eddy.Common.Bytes.{from_le}
use pg_eddy.Common.Int.{pos}
use pg_eddy.Edges.{
  EdgeRecord, lp_normal, lp_unused, TupleHeader, Slot, Page, EdgeRelation, Postgres,
  decode_edge_record,
}
use pg_eddy.Edges.Record.{edge_data, decode_edge_record-build_edge_data}
use pg_eddy.Edges.Follow.{follow_chain}
use pg_eddy.Edges.Scan.{count_edges, scan_all_edges, find_edge_by_id}
use pg_eddy.Edges.Agree.{first_with, scans_agree}
use pg_eddy.Edges.Chain.{Chain, chain_end, chain_link, records, follow_chain-Chain}
use pg_eddy.Edges.Store.{Store}
use pg_eddy.Edges.Update.{delete_edge}
use pg_eddy.Edges.Delete.{delete_edge-Chain}

abbrev test_header : TupleHeader
test_header = record {
  xmin = 3;
  xmax = 0;
  cmin = 0;
  xmin_committed = true;
  xmin_invalid = false;
  xmax_invalid = true;
  ctid = none;
}

abbrev slot_of : List ℕ → Slot
slot_of bytes = record {
  lp_flags = lp_normal;
  lp_len = 24 + length bytes;
  header = test_header;
  memory = bytes;
}

abbrev unused : Slot
unused = record { lp_flags = lp_unused; lp_len = 0; header = test_header; memory = [] }

-- Edge 1, and edge 2 in front of it in both chains.
abbrev first_edge : List ℕ
first_edge =
    1 ∷ 0 ∷ 0 ∷ 0 ∷ 0 ∷ 0 ∷ 0 ∷ 0 ∷ 5 ∷ 0 ∷ 0 ∷ 0 ∷ 10 ∷ 0 ∷ 0 ∷ 0 ∷ 0 ∷ 0 ∷ 0 ∷ 0 ∷ 20 ∷ 0 ∷ 0 ∷ 0
    ∷ 0 ∷ 0 ∷ 0 ∷ 0 ∷ 0 ∷ 0 ∷ 0 ∷ 0 ∷ 0 ∷ 0 ∷ 0 ∷ 0 ∷ 0 ∷ 0 ∷ 0 ∷ 0 ∷ 0 ∷ 0 ∷ 0 ∷ 0 ∷ 0 ∷ 0 ∷ []

abbrev second_edge : List ℕ
second_edge =
    2 ∷ 0 ∷ 0 ∷ 0 ∷ 0 ∷ 0 ∷ 0 ∷ 0 ∷ 5 ∷ 0 ∷ 0 ∷ 0 ∷ 10 ∷ 0 ∷ 0 ∷ 0 ∷ 0 ∷ 0 ∷ 0 ∷ 0 ∷ 20 ∷ 0 ∷ 0 ∷ 0
    ∷ 0 ∷ 0 ∷ 0 ∷ 0 ∷ 0 ∷ 0 ∷ 0 ∷ 0 ∷ 1 ∷ 0 ∷ 0 ∷ 0 ∷ 0 ∷ 0 ∷ 1 ∷ 0 ∷ 0 ∷ 0 ∷ 0 ∷ 0 ∷ 0 ∷ 0 ∷ []

abbrev test_page : Page
test_page = record {
  max_off = 2;
  slot = λ o. if o == 1 then slot_of first_edge else if o == 2 then slot_of second_edge else unused;
  pd_lower = 32;
  pd_upper = 8048;
}

abbrev test_edges : EdgeRelation
test_edges = record { nblocks = 1; page = λ b. test_page }

abbrev test_pg : Postgres
test_pg = record {
  hdr_size = 24;
  current_xid = 9;
  current_cid = 0;
  is_current_xid = λ x. x == 9;
  did_commit = λ x. x == 3;
  item_id_size = 4;
  page_init = record { max_off = 0; slot = λ o. unused; pd_lower = 24; pd_upper = 8192 };
  page_add_item = λ page item. none;
}

abbrev test_places : List (ℕ × ℕ)
test_places = (0, 2) ∷ (0, 1) ∷ []

-- The out-chain of node 10.
test_places-Chain : Chain test_pg test_edges true 0 2 test_places
unfolding from_le
test_places-Chain =
    chain_link (λ e. omega (arith, e)) (omega arith) (omega arith) refl
      (chain_link (λ e. omega (arith, e)) (omega arith) (omega arith) refl chain_end)

follow_chain-Chain_example :
    follow_chain test_pg test_edges true
      (some (pos 5))
      3
      (record { head_pg = 0; head_sl = 2; out = [] })
    ≡ ok ([] ++ records test_pg test_edges true (some (pos 5)) test_places)
follow_chain-Chain_example =
    follow_chain-Chain test_pg test_edges true (some (pos 5)) 3 0 2 [] test_places (omega arith)
      test_places-Chain

abbrev test_store : Store
test_store = record { special = λ b. []; edges = test_edges; log = [] }

delete_edge-Chain_example :
    Chain test_pg (delete_edge test_pg (pos 2) test_store).0.edges true 0 2 test_places
delete_edge-Chain_example =
    delete_edge-Chain test_pg (pos 2) test_store true 0 2 test_places test_places-Chain

abbrev test_record : EdgeRecord
test_record = record {
  edge_id = pos 2;
  rel_type_id = pos 5;
  source_node_id = pos 10;
  target_node_id = pos 20;
  prop_bytes = 1 ∷ 0 ∷ 0 ∷ 0 ∷ 14 ∷ [];
  block_num = 0;
  offset_num = 2;
  next_out_page = 0;
  next_out_slot = 1;
  next_in_page = 0;
  next_in_slot = 1;
}

decode_edge_record-build_edge_data_example :
    decode_edge_record (edge_data test_record) (length (edge_data test_record)) 0 2
    ≡ some test_record
decode_edge_record-build_edge_data_example =
    decode_edge_record-build_edge_data test_record (record {
      edge_id = omega arith;
      rel_type_id = omega arith;
      source_node_id = omega arith;
      target_node_id = omega arith;
      next_out_page = omega arith;
      next_out_slot = omega arith;
      next_in_page = omega arith;
      next_in_slot = omega arith;
      prop_bytes = omega arith;
    })

scans_agree_example :
    (count_edges test_pg test_edges ≡ length (scan_all_edges test_pg test_edges))
    × (find_edge_by_id test_pg test_edges (pos 1)
        ≡ first_with (pos 1) (scan_all_edges test_pg test_edges))
scans_agree_example = scans_agree test_pg test_edges (pos 1)
