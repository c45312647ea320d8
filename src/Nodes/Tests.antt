-- ===== src/Nodes/Tests.antt =====
-- storage/node_store.rs: runs on small relations.
use pg_eddy.Common.{
  ℕ, ◌≡◌, ◌≢◌, refl, sym, ◌∙◌, true, false, Option, none, some, List, [], ◌∷◌, arith, ◌==◌,
  Bool-cases, inl, inr, ◌⊎◌, if◌then◌else◌, ok, err, length, take,
}
use pg_eddy.Common.Bytes.{le_bytes, from_le}
use pg_eddy.Common.Int.{to_bits, from_bits, ℤ, pos, negsuc}
use pg_eddy.Page.{zeros}
use pg_eddy.Edges.{Slot, Page}
use pg_eddy.Edges.Sample.{test_pg, test_pg-AddsItems, unused, slot_of}
use pg_eddy.Edges.Update.{mark_deleted}
use pg_eddy.Nodes.{NodeRecord, NodeRelation, decode_node, build_node_data}
use pg_eddy.Nodes.Record.{node_data, decode_node-build_node_data}
use pg_eddy.Nodes.Scan.{
  read_node_at_offset, resolve, scan_all_node_locations, count_nodes, is_overflow_page, begin,
}
use pg_eddy.Nodes.Locate.{is_live_node, find_node_location}
use pg_eddy.Nodes.Located.{LiveAt, LiveNode, find_node_location-LiveNode, find_node_location-cache}
use pg_eddy.Nodes.Insert.{record_at}
use pg_eddy.Nodes.Readable.{
  Inserted, insert_node-Inserted, read-insert_node, find_node_location-insert_node,
}
use pg_eddy.Nodes.Deleted.{delete_node_by_id-gone}
use pg_eddy.Nodes.Sample.{test_nodes, test_nodes-InitsPages, test_nodes-AddsRaw}
use pg_eddy.Nodes.Counted.{count_nodes-locations, drain, block_nodes, drain-begin}
use pg_eddy.Nodes.Store.{NodeStore, insert_node, node_item, delete_node_by_id}

abbrev sample : NodeRecord
sample = record {
  node_id = negsuc 6;
  adj_slot_idx = 3;
  overflow_blkno = 0;
  label_ids = pos 4 ∷ negsuc 0 ∷ [];
  prop_bytes = 1 ∷ 2 ∷ 3 ∷ [];
}

decode_node-build_node_data_example :
    decode_node (node_data sample) (length (node_data sample)) ≡ some sample
decode_node-build_node_data_example = decode_node-build_node_data sample (record {
  node_id = omega arith;
  adj_slot_idx = omega arith;
  overflow_blkno = omega arith;
  label_ids = omega arith;
  label_count = omega arith;
  prop_bytes = omega arith;
  moved_out = λ e. cc;
})

abbrev empty_store : NodeStore
empty_store = record {
  rel = record { nblocks = 0; page = λ b. test_nodes.page_init 2400 };
  log = [];
}

abbrev long_props : List ℕ
long_props = zeros 600

abbrev outcome : NodeStore × ℕ × ℕ
outcome = elim (insert_node test_nodes (pos 7) (pos 4 ∷ []) long_props empty_store) [
  | ok out ↦ out
  | err e ↦ (empty_store, 0, 0)
]

insert_runs :
    insert_node test_nodes (pos 7) (pos 4 ∷ []) long_props empty_store ≡ ok (outcome.0, 0, 1)
unfolding insert_node zeros
insert_runs = refl

insert_node-Inserted_example :
    Inserted test_nodes
      (pos 7)
      (pos 4 ∷ [])
      long_props
      empty_store.rel
      outcome.0.rel
      empty_store.log
      outcome.0.log
      0
      1
insert_node-Inserted_example =
    insert_node-Inserted test_nodes test_nodes-InitsPages test_pg-AddsItems test_nodes-AddsRaw
      (pos 7) (pos 4 ∷ []) long_props empty_store outcome.0 0 1 (omega arith) (omega arith)
      (omega arith) insert_runs

read-insert_node_example :
    (r : NodeRecord) × (read_node_at_offset test_nodes none (outcome.0.rel.page 0) 1 ≡ some r)
    × (resolve outcome.0.rel r
        ≡ record_at test_nodes (pos 7) (pos 4 ∷ []) long_props r.overflow_blkno 1)
read-insert_node_example =
    read-insert_node test_nodes test_nodes-InitsPages test_pg-AddsItems test_nodes-AddsRaw (pos 7)
      (pos 4 ∷ []) long_props empty_store outcome.0 0 1 (omega arith) (omega arith) (omega arith)
      insert_runs none refl refl

find_node_location-insert_node_example :
    find_node_location test_nodes (λ id. some (0, 1)) outcome.0.rel (pos 7) ≡ some (0, 1, 0)
find_node_location-insert_node_example =
    find_node_location-insert_node test_nodes test_nodes-InitsPages test_pg-AddsItems
      test_nodes-AddsRaw (pos 7) (pos 4 ∷ []) long_props empty_store outcome.0 0 1 (omega arith)
      (omega arith) (omega arith) insert_runs (λ id. some (0, 1)) refl

-- A relation of one page with node 7 at offset 1.
abbrev lone_slot : Slot
lone_slot = slot_of (node_item test_nodes (pos 7) 0 [] (1 ∷ 2 ∷ []) 0)

abbrev lone_page : Page
lone_page = record (test_pg.page_init) {
  max_off = 1;
  slot = λ o. if o == 1 then lone_slot else unused;
}

abbrev lone_rel : NodeRelation
lone_rel = record {
  nblocks = 1;
  page = λ b. record (test_nodes.page_init 2400) {
    items = if b == 0 then lone_page else test_pg.page_init;
  };
}

lone_is_unique : (b o : ℕ) → LiveAt test_nodes lone_rel (pos 7) b o → (b ≡ 0) × (o ≡ 1)
unfolding is_live_node
lone_is_unique b o live = elim (Bool-cases (b == 0)) [
  | inr other ↦ absurd (cc (rw other at live))
  | inl here ↦ elim (Bool-cases (o == 1)) [
    | inr differ ↦ absurd (cc (rw (here, differ) at live))
    | inl there ↦ (ground arith, ground arith)
  ]
]

lone_unique :
    (b o b' o' : ℕ)
    → LiveAt test_nodes lone_rel (pos 7) b o
    → LiveAt test_nodes lone_rel (pos 7) b' o'
    → (b ≡ b') × (o ≡ o')
lone_unique b o b' o' live live' =
    let (e, f) = lone_is_unique b o live in
    let (e', f') = lone_is_unique b' o' live' in (e ∙ sym e', f ∙ sym f')

abbrev lone_cache : ℤ → Option (ℕ × ℕ)
lone_cache id = some (0, 1)

lone_found : find_node_location test_nodes lone_cache lone_rel (pos 7) ≡ some (0, 1, 0)
unfolding find_node_location build_node_data le_bytes zeros from_bits from_le to_bits
lone_found = refl

find_node_location-LiveNode_example : LiveNode test_nodes lone_slot (pos 7) 0
find_node_location-LiveNode_example =
    find_node_location-LiveNode test_nodes lone_rel (pos 7) lone_cache 0 1 0 lone_found

find_node_location-cache_example :
    find_node_location test_nodes lone_cache lone_rel (pos 7)
    ≡ find_node_location test_nodes (λ id. none) lone_rel (pos 7)
unfolding is_overflow_page
find_node_location-cache_example =
    find_node_location-cache test_nodes lone_rel (pos 7) lone_unique lone_cache (λ b o e.
      let b_eq : 0 ≡ b = cc in
      let o_eq : 1 ≡ o = cc in
      rw (← b_eq, ← o_eq)
        (record {
          inside = omega arith;
          plain = refl;
          numbered = omega arith;
          on_page = omega arith;
        }))

abbrev lone_store : NodeStore
lone_store = record { rel = lone_rel; log = [] }

delete_node_by_id-gone_example :
    let (st', done) = delete_node_by_id test_nodes lone_cache (pos 7) lone_store in
    ((done ≡ false)
      × (st' ≡ lone_store)
      × (find_node_location test_nodes lone_cache lone_rel (pos 7) ≡ none))
    ⊎ ((blk : ℕ) × (off : ℕ) × (adj : ℕ) × (done ≡ true)
        × (find_node_location test_nodes lone_cache lone_rel (pos 7) ≡ some (blk, off, adj))
        × LiveAt test_nodes lone_rel (pos 7) blk off
        × ((st'.rel.page blk).items.slot off
            ≡ mark_deleted test_pg ((lone_rel.page blk).items.slot off))
        × ((cache : ℤ → Option (ℕ × ℕ))
            → find_node_location test_nodes cache st'.rel (pos 7) ≡ none)
        × ((b o : ℕ)
            → (b ≡ blk → o ≢ off)
            → (st'.rel.page b).items.slot o ≡ (lone_rel.page b).items.slot o))
delete_node_by_id-gone_example =
    delete_node_by_id-gone test_nodes (pos 7) lone_store lone_cache lone_unique

count_nodes-locations_example :
    count_nodes test_nodes none lone_rel ≡ length (scan_all_node_locations test_nodes none lone_rel)
count_nodes-locations_example = count_nodes-locations test_nodes none lone_rel

drain-begin_example :
    drain test_nodes none 3 lone_rel (begin test_nodes none lone_rel)
    ≡ take 3 (block_nodes test_nodes none lone_rel 0 1)
drain-begin_example = drain-begin test_nodes none 3 lone_rel
