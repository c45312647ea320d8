-- ===== src/Edges/InsertTests.antt =====
-- storage/edge_store.rs: `insert_edge` into an empty relation, between two nodes of one page.
use pg_eddy.Common.{
  ℕ, ◌^◌, ◌<◌, ◌≡◌, refl, none, some, Option, [], ◌==◌, if◌then◌else◌, ok, err, arith,
}
use pg_eddy.Common.Int.{ℤ, pos}
use pg_eddy.Common.Bytes.{from_le}
use pg_eddy.Page.{NodeAdjHeader, zeros, out_head_pg, out_head_sl, in_head_pg, in_head_sl}
use pg_eddy.Edges.Follow.{read_adj_header}
use pg_eddy.Edges.Store.{Store, insert_edge}
use pg_eddy.Edges.Linked.{Linked, insert_edge-Linked}
use pg_eddy.Edges.Sample.{test_pg, test_pg-AddsItems}

abbrev test_store : Store
test_store = record {
  special = λ b. zeros 48;
  edges = record { nblocks = 0; page = λ b. test_pg.page_init };
  log = [];
}

-- Nodes 10 and 20 have the first two headers of block 0.
abbrev locations : ℤ → Option (ℕ × ℕ × ℕ)
locations (pos n) = if n == 10 then some (0, 1, 0) else if n == 20 then some (0, 2, 1) else none
locations n = none

abbrev inserted : Store
inserted = elim (insert_edge test_pg locations (pos 1) (pos 5) (pos 10) (pos 20) [] test_store) [
  | ok st ↦ st
  | err e ↦ test_store
]

insert_runs :
    insert_edge test_pg locations (pos 1) (pos 5) (pos 10) (pos 20) [] test_store ≡ ok inserted
unfolding insert_edge
insert_runs = refl

abbrev src_header : NodeAdjHeader
src_header = read_adj_header (test_store.special 0) 0

abbrev tgt_header : NodeAdjHeader
tgt_header = read_adj_header (test_store.special 0) 1

out_heads : (out_head_pg src_header < 2 ^ 32) × (out_head_sl src_header < 2 ^ 16)
unfolding zeros read_adj_header out_head_pg out_head_sl from_le
out_heads = (omega arith, omega arith)

in_heads : (in_head_pg tgt_header < 2 ^ 32) × (in_head_sl tgt_header < 2 ^ 16)
unfolding zeros read_adj_header in_head_pg in_head_sl from_le
in_heads = (omega arith, omega arith)

insert_edge-Linked_example : Linked test_pg test_store inserted 0 0 0 1
unfolding zeros
insert_edge-Linked_example =
    insert_edge-Linked test_pg test_pg-AddsItems (pos 1) (pos 5) (pos 10) (pos 20) [] 0 0 0 1
      test_store (omega arith) (omega arith) (omega arith)
      (record {
        edge_id = omega arith;
        rel_type_id = omega arith;
        source_node_id = omega arith;
        target_node_id = omega arith;
        next_out_page = out_heads.0;
        next_out_slot = out_heads.1;
        next_in_page = in_heads.0;
        next_in_slot = in_heads.1;
        prop_bytes = omega arith;
      })
      locations 1 2 inserted refl refl insert_runs
