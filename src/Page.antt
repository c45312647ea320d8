-- ===== src/Page.antt =====
-- storage/page.rs: the adjacency header of a node and the layout of an edge record.
pub mod Header
mod Tests
use pg_eddy.Common.{ℕ, zero, suc, ◌+◌, List, [], ◌∷◌, ◌++◌, length, take, drop}
use pg_eddy.Common.Bytes.{le_bytes, from_le}

abbrev pub adj_header_bytes : ℕ
adj_header_bytes = 24

abbrev pub prop_inline_max : ℕ
prop_inline_max = 512

abbrev pub edge_fixed_data_size : ℕ
edge_fixed_data_size = 46

-- `buf[a..a + n]`
abbrev pub slice : List ℕ → (a n : ℕ) → List ℕ
slice buf a n = take n (drop a buf)

-- `vec![0u8; n]`
unfoldable pub zeros : ℕ → List ℕ
zeros zero = []
zeros (suc n) = 0 ∷ zeros n

-- `buf[off..off + bs.len()].copy_from_slice(bs)`
unfoldable pub put : ℕ → List ℕ → List ℕ → List ℕ
put off bs buf = take off buf ++ (bs ++ drop (off + length bs) buf)

-- `NodeAdjHeader`: its 24 bytes.
abbrev pub NodeAdjHeader : Type 0
NodeAdjHeader = List ℕ

unfoldable pub out_head_pg : NodeAdjHeader → ℕ
out_head_pg h = from_le (slice h 0 4)

unfoldable pub out_head_sl : NodeAdjHeader → ℕ
out_head_sl h = from_le (slice h 4 2)

unfoldable pub in_head_pg : NodeAdjHeader → ℕ
in_head_pg h = from_le (slice h 6 4)

unfoldable pub in_head_sl : NodeAdjHeader → ℕ
in_head_sl h = from_le (slice h 10 2)

unfoldable pub out_degree : NodeAdjHeader → ℕ
out_degree h = from_le (slice h 12 4)

unfoldable pub in_degree : NodeAdjHeader → ℕ
in_degree h = from_le (slice h 16 4)

unfoldable pub graph_partition_id : NodeAdjHeader → ℕ
graph_partition_id h = from_le (slice h 20 4)

unfoldable pub set_out_head_pg : ℕ → NodeAdjHeader → NodeAdjHeader
set_out_head_pg v h = put 0 (le_bytes 4 v) h

unfoldable pub set_out_head_sl : ℕ → NodeAdjHeader → NodeAdjHeader
set_out_head_sl v h = put 4 (le_bytes 2 v) h

unfoldable pub set_in_head_pg : ℕ → NodeAdjHeader → NodeAdjHeader
set_in_head_pg v h = put 6 (le_bytes 4 v) h

unfoldable pub set_in_head_sl : ℕ → NodeAdjHeader → NodeAdjHeader
set_in_head_sl v h = put 10 (le_bytes 2 v) h

unfoldable pub set_out_degree : ℕ → NodeAdjHeader → NodeAdjHeader
set_out_degree v h = put 12 (le_bytes 4 v) h

unfoldable pub set_in_degree : ℕ → NodeAdjHeader → NodeAdjHeader
set_in_degree v h = put 16 (le_bytes 4 v) h

unfoldable pub set_graph_partition_id : ℕ → NodeAdjHeader → NodeAdjHeader
set_graph_partition_id v h = put 20 (le_bytes 4 v) h
