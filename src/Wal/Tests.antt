-- ===== src/Wal/Tests.antt =====
-- storage/wal.rs: redo on small pages.
use pg_eddy.Common.{ℕ, ◌≡◌, refl, true, Option, some, List, [], ◌∷◌, ◌++◌, arith, ok, err, ==_self}
use pg_eddy.Common.Bytes.{le_bytes}
use pg_eddy.Common.Int.{pos}
use pg_eddy.Page.{zeros}
use pg_eddy.Edges.{Page, Item}
use pg_eddy.Edges.Sample.{test_pg, test_pg-AddsItems, slot_of, take_whole}
use pg_eddy.Edges.Store.{Store, LogEntry, set_slot, link_at}
use pg_eddy.Nodes.{NodePage, NodeRelation, build_node_data}
use pg_eddy.Nodes.Sample.{test_nodes, test_nodes-InitsPages, test_nodes-AddsRaw}
use pg_eddy.Nodes.Store.{NodeStore, insert_node, node_inserted, node_item, mark_node_deleted}
use pg_eddy.Nodes.Locate.{stored_adj_slot}
use pg_eddy.Vacuum.{mark_dead}
use pg_eddy.Wal.{log_node_delete, log_vacuum_page, blk_needs_redo, rmgr_redo}
use pg_eddy.Wal.Redo.{redo-mark_node_deleted, redo-mark_dead}
use pg_eddy.Wal.Replay.{Rebuilds, link_at-Rebuilds}
use pg_eddy.Wal.Slots.{PutsItems, record_of, redo-insert_node}

abbrev put_at : Page → Item → ℕ → Option Page
put_at page item off = some (set_slot off (slot_of item) page)

put_at-PutsItems : PutsItems test_nodes put_at
put_at-PutsItems page item off page' e =
    let same : set_slot off (slot_of item) page ≡ page' = cc in
    let self = ==_self off in
    rw (← same) (record {
      flags = rw self;
      len = rw self;
      bytes = rw self (take_whole item.bytes);
      header = rw self;
    })

abbrev node_page : NodePage
node_page = record {
  items = record (test_pg.page_init) {
    max_off = 3;
    slot = λ o. slot_of (node_item test_nodes (pos o) 0 [] [] 0);
  };
  raw = λ o. [];
  pd_special = 5792;
  special = zeros 48;
}

abbrev node_rel : NodeRelation
node_rel = record { nblocks = 1; page = λ b. node_page }

redo-mark_node_deleted_example :
    rmgr_redo test_nodes put_at (log_node_delete 2 9) blk_needs_redo node_page
    ≡ ok ((mark_node_deleted test_nodes node_rel 0 2).page 0)
redo-mark_node_deleted_example =
    redo-mark_node_deleted test_nodes put_at node_rel 0 2 (omega arith) (omega arith) refl

redo-mark_dead_example :
    rmgr_redo test_nodes put_at (log_vacuum_page (1 ∷ 3 ∷ [])) blk_needs_redo node_page
    ≡ ok (record node_page { items = mark_dead (1 ∷ 3 ∷ []) (node_page.items) })
redo-mark_dead_example =
    redo-mark_dead test_nodes put_at (1 ∷ 3 ∷ []) node_page (omega arith) (omega arith)

abbrev no_nodes : NodeStore
no_nodes = record { rel = record { nblocks = 0; page = λ b. test_nodes.page_init 0 }; log = [] }

-- The second of two nodes.
abbrev insert_after : NodeStore → NodeStore × ℕ × ℕ
insert_after st = elim (insert_node test_nodes (pos 7) (pos 4 ∷ []) [] st) [
  | ok r ↦ r
  | err e ↦ (no_nodes, 0, 0)
]

abbrev one_node : NodeStore
one_node = (insert_after no_nodes).0

abbrev two_nodes : NodeStore
two_nodes = (insert_after one_node).0

insert_runs : insert_node test_nodes (pos 7) (pos 4 ∷ []) [] one_node ≡ ok (two_nodes, 0, 2)
unfolding insert_node zeros build_node_data le_bytes
insert_runs = refl

one_block : one_node.rel.nblocks ≡ 1
unfolding insert_node zeros
one_block = refl

redo-insert_node_example :
    (item : Item) × (overflow : Option ℕ) × (two_nodes.log
      ≡ one_node.log ++ (node_inserted 0 2 item overflow ∷ []))
    × (stored_adj_slot test_nodes ((two_nodes.rel.page 0).items.slot 2) ≡ 1)
    × ((page page' : NodePage)
        → rmgr_redo test_nodes put_at
            (record_of test_nodes put_at 2 item overflow)
            blk_needs_redo
            page
          ≡ ok page'
        → stored_adj_slot test_nodes (page'.items.slot 2) ≡ 0)
redo-insert_node_example =
    redo-insert_node test_nodes put_at test_nodes-InitsPages test_pg-AddsItems test_nodes-AddsRaw
      put_at-PutsItems (pos 7) (pos 4 ∷ []) [] one_node two_nodes 0 2 (omega arith) (omega arith)
      (omega (arith, one_block)) insert_runs

abbrev loop_store : Store
loop_store = record {
  special = λ b. zeros 48;
  edges = record { nblocks = 0; page = λ b. test_pg.page_init };
  log = [];
}

-- A self-loop of the second node of block 0.
abbrev looped : Store
looped =
    elim (link_at test_pg (pos 1) (pos 5) (pos 10) (pos 10) [] 0 1 0 1 true (zeros 24) (zeros 24)
      loop_store) [ ok st ↦ st | err e ↦ loop_store ]

loop_runs :
    link_at test_pg
      (pos 1)
      (pos 5)
      (pos 10)
      (pos 10)
      []
      0
      1
      0
      1
      true
      (zeros 24)
      (zeros 24)
      loop_store
    ≡ ok looped
unfolding link_at
loop_runs = refl

link_at-Rebuilds_example :
    (entries : List LogEntry) × (looped.log ≡ [] ++ entries)
    × Rebuilds test_nodes put_at entries (λ b. node_page) looped.special
unfolding zeros
link_at-Rebuilds_example =
    link_at-Rebuilds test_nodes put_at test_pg-AddsItems (pos 1) (pos 5) (pos 10) (pos 10) [] 0 1 0
      1 true (zeros 24) (zeros 24) loop_store looped (λ b. node_page) (λ e. (refl, refl)) refl refl
      (omega arith) (omega arith) (omega arith) (omega arith) (λ b. refl) loop_runs
