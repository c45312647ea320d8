-- ===== src/Page/Tests.antt =====
-- storage/page.rs: the setters on the header of an empty node.
use pg_eddy.Common.{◌≡◌, refl, arith}
use pg_eddy.Page.{
  NodeAdjHeader, zeros, set_out_head_pg, set_out_head_sl, set_in_head_pg, set_in_head_sl,
  set_out_degree, set_in_degree, set_graph_partition_id,
}
use pg_eddy.Page.Header.{fields, setters_lem}

abbrev empty_header : NodeAdjHeader
empty_header = zeros 24

setters_lem_example :
    (fields (set_out_head_pg 70000 empty_header) ≡ record (fields empty_header) { out_pg = 70000 })
    × (fields (set_out_head_sl 3 empty_header) ≡ record (fields empty_header) { out_sl = 3 })
    × (fields (set_in_head_pg 70000 empty_header) ≡ record (fields empty_header) { in_pg = 70000 })
    × (fields (set_in_head_sl 3 empty_header) ≡ record (fields empty_header) { in_sl = 3 })
    × (fields (set_out_degree 70000 empty_header)
        ≡ record (fields empty_header) { out_deg = 70000 })
    × (fields (set_in_degree 70000 empty_header) ≡ record (fields empty_header) { in_deg = 70000 })
    × (fields (set_graph_partition_id 70000 empty_header)
        ≡ record (fields empty_header) { partition = 70000 })
unfolding zeros
setters_lem_example = setters_lem empty_header 70000 3 refl (omega arith) (omega arith)
