-- ===== src/Nodes/Sample.antt =====
-- storage/node_store.rs: a small PostgreSQL for the node store.
use pg_eddy.Common.{ℕ, ◌+◌, ◌-◌, ◌≡◌, refl, some, List, [], length, ◌==◌, if◌then◌else◌}
use pg_eddy.Edges.Store.{set_slot}
use pg_eddy.Edges.Sample.{test_pg, unused, take_whole}
use pg_eddy.Nodes.{NodePage, NodePostgres}
use pg_eddy.Nodes.Inserted.{InitsPages}
use pg_eddy.Nodes.Insert.{AddsRaw}

abbrev pub add_raw : NodePage → List ℕ → NodePage
add_raw page bytes =
    let off = page.items.max_off + 1 in
    record page {
      items = record (set_slot off (record unused { lp_len = length bytes }) (page.items)) {
        max_off = off;
      };
      raw = λ o. if o == off then bytes else page.raw o;
    }

abbrev pub test_nodes : NodePostgres
test_nodes = record {
  base = test_pg;
  page_init = λ special_size. record {
    items = test_pg.page_init;
    raw = λ o. [];
    pd_special = 8192 - special_size;
    special = [];
  };
  page_add_raw = λ page bytes. some (add_raw page bytes, page.items.max_off + 1);
  repair_fragmentation = λ page. page;
}

pub test_nodes-InitsPages : InitsPages test_nodes
test_nodes-InitsPages = record { node_special = refl; empty = refl; no_special = refl }

pub test_nodes-AddsRaw : AddsRaw test_nodes
test_nodes-AddsRaw page bytes page' off empty e =
    let same : add_raw page bytes ≡ page' = cc in
    rw (← same, empty)
      (record { max_off = refl; len = refl; bytes_there = take_whole bytes; pd_special = refl })
