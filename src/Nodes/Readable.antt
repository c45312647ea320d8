-- ===== src/Nodes/Readable.antt =====
-- storage/node_store.rs: what `insert_node` promises on both of its ways.
use pg_eddy.Common.{
  ℕ, ◌+◌, ◌-◌, ◌^◌, ◌≤◌, ◌<◌, ◌≡◌, ◌≢◌, refl, ap, ◌∙◌, true, false, Option, none, some, List, [],
  ◌∷◌, ◌++◌, ◌⊎◌, arith, ltb, leb, ltb→le, ◌==◌, ==_self, Bool-cases, length, Option-cases, inl,
  inr, ok, All,
}
use pg_eddy.Common.Int.{ℤ, IsI64, IsI32}
use pg_eddy.Page.{prop_inline_max}
use pg_eddy.Edges.Added.{AddsItems}
use pg_eddy.Nodes.{
  NodeRecord, NodePage, NodeRelation, NodePostgres, Snapshot, max_labels_per_node, build_node_data,
}
use pg_eddy.Nodes.Record.{IsNodeRecord}
use pg_eddy.Nodes.Scan.{is_overflow_page, read_overflow_block, resolve, read_node_at_offset}
use pg_eddy.Nodes.Locate.{find_node_location, locate_cached}
use pg_eddy.Nodes.Placed.{Holds, Holds-read, Holds-is_live_node}
use pg_eddy.Nodes.Store.{
  NodeLog, node_inserted, NodeStore, node_item, set_node_page, find_or_extend_page,
  write_overflow_block, place_node, place_outside, insert_node,
}
use pg_eddy.Nodes.Inserted.{
  InitsPages, Continues, PlacedNode, find_or_extend_page-Continues, find_or_extend_page-grown,
  set_node_page-same, Continues-trans, set-extended-Continues,
}
use pg_eddy.Nodes.Insert.{
  AddedRaw, AddsRaw, record_at, placeholder, record_at-IsNodeRecord, place_node-PlacedNode,
}

resolve_inline :
    (rel : NodeRelation) (id : ℤ) (lids : List ℤ) (props : List ℕ) (adj : ℕ)
    → let r : NodeRecord = record {
      node_id = id;
      adj_slot_idx = adj;
      overflow_blkno = 0;
      label_ids = lids;
      prop_bytes = props;
    } in
      resolve rel r ≡ r
unfolding resolve
resolve_inline rel id lids [] adj = refl
resolve_inline rel id lids (b ∷ bs) adj = refl

module _ (pg : NodePostgres) (node_id : ℤ) (label_ids : List ℤ) (prop_bytes : List ℕ) where
  -- Where the properties lie: in the item, or in a new block that is an overflow block from now on.
  abbrev pub Kept :
      (rel rel' : NodeRelation) (blk : ℕ) (props : List ℕ) (ovf : ℕ) → Option ℕ → Type 0
  Kept rel rel' blk props ovf overflow =
      ((overflow ≡ none) × (ovf ≡ 0) × (props ≡ prop_bytes))
      ⊎ ((overflow ≡ some ovf)
          × (props ≡ [])
          × (rel.nblocks ≤ ovf)
          × (ovf < rel'.nblocks)
          × (ovf ≢ blk)
          × (is_overflow_page (rel'.page ovf) ≡ true))

  -- The relation `rel` has become `rel'`, in which the node lies at `off` of block `blk`, and the log
  -- `log` has become `log'`: what is stored there, what it stands for once the overflow block is read,
  -- and what is logged of it. Everything else that was there is as it was.
  pub record Inserted (rel rel' : NodeRelation) (log log' : List NodeLog) (blk off : ℕ)
      : Type 0 where
    pub inside : blk < rel'.nblocks
    pub on_page : off ≤ (rel'.page blk).items.max_off
    pub numbered : off ≢ 0
    pub small : off < 2 ^ 16
    pub plain : is_overflow_page (rel'.page blk) ≡ false
    pub props : List ℕ
    pub ovf : ℕ
    pub overflow : Option ℕ
    pub kept : Kept rel rel' blk props ovf overflow
    pub fits : IsNodeRecord (placeholder pg node_id label_ids props ovf off)
    pub holds :
        Holds pg ((rel'.page blk).items.slot off) (record_at pg node_id label_ids props ovf off)
    pub reads :
        resolve rel' (record_at pg node_id label_ids props ovf off)
        ≡ record_at pg node_id label_ids prop_bytes ovf off
    pub logged :
        log'
        ≡ log ++ (node_inserted blk off (node_item pg node_id 0 label_ids props ovf) overflow ∷ [])
    pub size : rel.nblocks ≤ rel'.nblocks
    pub others :
        (b o : ℕ)
        → b < rel.nblocks
        → (b ≡ blk → o ≢ off)
        → (rel'.page b).items.slot o ≡ (rel.page b).items.slot o
    pub pages : (b : ℕ) → b < rel.nblocks → b ≢ blk → rel'.page b ≡ rel.page b
    pub specials :
        (b : ℕ)
        → b < rel.nblocks
        → ((rel'.page b).special ≡ (rel.page b).special)
          × ((rel'.page b).pd_special ≡ (rel.page b).pd_special)
          × ((rel.page b).items.max_off ≤ (rel'.page b).items.max_off)

  module _ (inits : InitsPages pg) (adds : AddsItems pg.base) (adds_raw : AddsRaw pg)
      (wide : IsI64 node_id) (labels : All IsI32 label_ids)
      (few : length label_ids ≤ max_labels_per_node) where
    -- From the placing on: `mid` is the relation before, in which the overflow block is written.
    Inserted-PlacedNode :
        (rel mid rel' : NodeRelation) (log log' : List NodeLog) (blk off ovf : ℕ) (props : List ℕ)
        (overflow : Option ℕ)
        → Continues rel mid
        → blk < mid.nblocks
        → is_overflow_page (mid.page blk) ≡ false
        → PlacedNode pg mid rel' blk off (record_at pg node_id label_ids props ovf off)
        → IsNodeRecord (placeholder pg node_id label_ids props ovf off)
        → Kept rel rel' blk props ovf overflow
        → log'
          ≡ log
            ++ (node_inserted blk off (node_item pg node_id 0 label_ids props ovf) overflow ∷ [])
        → resolve rel' (record_at pg node_id label_ids props ovf off)
          ≡ record_at pg node_id label_ids prop_bytes ovf off
        → Inserted rel rel' log log' blk off
    unfolding is_overflow_page
    Inserted-PlacedNode rel mid rel' log log' blk off ovf props overflow goes lt plain node fits
          kept logged reads =
        record {
          inside = omega (arith, node.nblocks);
          on_page = node.inside;
          numbered = node.numbered;
          small = node.small;
          plain = rw (node.pd_special) plain;
          props = props;
          ovf = ovf;
          overflow = overflow;
          kept = kept;
          fits = fits;
          holds = node.holds;
          reads = reads;
          logged = logged;
          pages = λ b lb e. node.pages b e ∙ goes.old b lb;
          size = omega (arith, goes.size, node.nblocks);
          others = λ b o lb ne. elim (Bool-cases (b == blk)) [
            | inl here ↦
                let e : b ≡ blk = ground arith in
                rw e (
                  node.others o (ne e)
                  ∙ ap (λ (p : NodePage). p.items.slot o) (rw e at (goes.old b lb)))
            | inr other ↦ let e : b ≢ blk = ground arith in rw (node.pages b e, goes.old b lb)
          ];
          specials = λ b lb. elim (Bool-cases (b == blk)) [
            | inl here ↦
                let e : b ≡ blk = ground arith in
                let old = rw e at (goes.old b lb) in
                rw (e, ← old) (node.special, node.pd_special, node.grown)
            | inr other ↦
                let e : b ≢ blk = ground arith in
                rw (node.pages b e, goes.old b lb) (refl, refl, omega arith)
          ];
        }

    read_overflow_block-AddedRaw :
        (rel : NodeRelation) (blk : ℕ) (page page' : NodePage)
        → rel.page blk ≡ page'
        → AddedRaw pg page prop_bytes page'
        → read_overflow_block rel blk ≡ prop_bytes
    unfolding read_overflow_block
    read_overflow_block-AddedRaw rel blk page page' there raw =
        let one : leb 1 1 ≡ true = refl in rw (there, raw.max_off, raw.len) raw.bytes_there

    node_fits :
        (props : List ℕ) (ovf : ℕ)
        → length props ≤ prop_inline_max
        → ovf < 2 ^ 32
        → ((ovf == 0) ≡ false → props ≡ [])
        → IsNodeRecord (placeholder pg node_id label_ids props ovf 0)
    node_fits props ovf small low moved = record {
      node_id = wide;
      adj_slot_idx = omega arith;
      overflow_blkno = low;
      label_ids = labels;
      label_count = few;
      prop_bytes = small;
      moved_out = moved;
    }

    module _ (rel : NodeRelation) (log : List NodeLog) (st' : NodeStore) (size blk off : ℕ) where
      inline_Inserted :
          length prop_bytes ≤ prop_inline_max
          → let found = find_or_extend_page pg rel size in
            place_node pg node_id label_ids prop_bytes none 0 found.1 found.0 log
              ≡ ok (st', blk, off)
            → Inserted rel st'.rel log st'.log blk off
      inline_Inserted small e =
          let found = find_or_extend_page pg rel size in
          let (lt, goes, plain, _) = find_or_extend_page-Continues pg inits rel size in
          let fits = node_fits prop_bytes 0 small (omega arith) (λ ne. cc) in
          let (same, node, logged) =
            place_node-PlacedNode pg node_id label_ids prop_bytes 0 off adds fits found.0 found.1
              none log st' blk e in
          rw same (
            Inserted-PlacedNode rel found.0 st'.rel log st'.log found.1 off 0 prop_bytes none goes
              lt plain node fits (inl (refl, refl, refl)) logged
              (resolve_inline st'.rel node_id label_ids prop_bytes (off - 1)))

      outside_Inserted :
          rel.nblocks + 2 ≤ 2 ^ 32
          → let found = find_or_extend_page pg rel size in
            place_outside pg node_id label_ids prop_bytes found.1 found.0 log ≡ ok (st', blk, off)
            → Inserted rel st'.rel log st'.log blk off
      unfolding place_outside write_overflow_block resolve read_overflow_block is_overflow_page
      outside_Inserted room e =
          let found = find_or_extend_page pg rel size in
          let (lt, goes, plain, _) = find_or_extend_page-Continues pg inits rel size in
          let new = write_overflow_block pg found.0 in
          let ovf = found.0.nblocks in
          elim (Option-cases (pg.page_add_raw (new.0.page ovf) prop_bytes)) [
            | inl full ↦ absurd (cc (rw (full, place_outside) at e))
            | inr ((ovf_page, ovf_off), added) ↦
                let mid = set_node_page ovf ovf_page new.0 in
                let placed : place_node pg node_id label_ids [] (some ovf) ovf found.1 mid log
                    ≡ ok (st', blk, off) =
                  rw (added, place_outside) at e in
                let fits =
                  node_fits [] ovf (omega arith)
                    (omega (arith, find_or_extend_page-grown pg rel size)) (λ ne. refl) in
                let (same, node, logged) =
                  place_node-PlacedNode pg node_id label_ids [] ovf off adds fits mid found.1
                    (some ovf) log st' blk placed in
                let behind = set-extended-Continues ovf_page (pg.page_init 0) found.0 in
                let raw =
                  adds_raw (pg.page_init 0) prop_bytes ovf_page ovf_off inits.empty
                    (rw (==_self ovf) at added) in
                let there : st'.rel.page ovf ≡ ovf_page =
                  node.pages ovf (λ q. omega (arith, lt, q))
                  ∙ set_node_page-same ovf ovf_page new.0 in
                let named : (ovf == 0) ≡ false = some_block found.1 ovf lt in
                rw same (
                  Inserted-PlacedNode rel mid st'.rel log st'.log found.1 off ovf [] (some ovf)
                    (Continues-trans rel found.0 mid goes behind) (omega (arith, lt))
                    (rw (behind.old found.1 lt) plain) node fits
                    (inr (
                      refl,
                      refl,
                      goes.size,
                      omega (arith, node.nblocks),
                      (λ q. omega (arith, lt, q)),
                      rw (there, raw.pd_special, inits.no_special),
                    ))
                    logged
                    (rw (
                      named,
                      read_overflow_block-AddedRaw st'.rel ovf (pg.page_init 0) ovf_page there raw,
                    )))
          ]
        where
          some_block : (b n : ℕ) → b < n → (n == 0) ≡ false
          some_block b n lt = ground arith

module _ (pg : NodePostgres) (inits : InitsPages pg) (adds : AddsItems pg.base)
    (adds_raw : AddsRaw pg) where
  -- After a successful `insert_node`, the node is stored where it says, on a page that is no overflow
  -- block, and its insertion is logged with the item as it was before the index of its header was put
  -- in. Properties that are not in the item lie in a block that is an overflow block and lies behind
  -- the old ones, so no older node has it. All old blocks but the node's, overflow blocks among them,
  -- are as they were, and so are all other items and the special area of the node's. The id fits 64
  -- bits, the labels 32, block numbers have room for two more blocks, and PostgreSQL makes pages and
  -- adds items as it promises.
  pub insert_node-Inserted :
      (node_id : ℤ) (label_ids : List ℤ) (prop_bytes : List ℕ) (st st' : NodeStore) (blk off : ℕ)
      → IsI64 node_id
      → All IsI32 label_ids
      → st.rel.nblocks + 2 ≤ 2 ^ 32
      → insert_node pg node_id label_ids prop_bytes st ≡ ok (st', blk, off)
      → Inserted pg node_id label_ids prop_bytes st.rel st'.rel st.log st'.log blk off
  unfolding insert_node
  insert_node-Inserted node_id label_ids prop_bytes st st' blk off wide labels room e =
      elim (Bool-cases (ltb max_labels_per_node (length label_ids))) [
        | inl many ↦ absurd (cc (rw (many, insert_node) at e))
        | inr few ↦
            let limit = ltb→le _ _ few in
            elim (Bool-cases (ltb prop_inline_max (length prop_bytes))) [
              | inl long ↦
                  let size = pg.base.hdr_size + length (build_node_data node_id 0 label_ids [] 0) in
                  outside_Inserted pg node_id label_ids prop_bytes inits adds adds_raw wide labels
                    limit st.rel st.log st' size blk off room (rw (few, long, insert_node) at e)
              | inr short ↦
                  let size =
                    pg.base.hdr_size + length (build_node_data node_id 0 label_ids prop_bytes 0) in
                  inline_Inserted pg node_id label_ids prop_bytes inits adds adds_raw wide labels
                    limit st.rel st.log st' size blk off (ltb→le _ _ short)
                    (rw (few, short, insert_node) at e)
            ]
      ]

  pub Inserted-IsNodeRecord :
      (node_id : ℤ) (label_ids : List ℤ) (prop_bytes : List ℕ) (st st' : NodeStore) (blk off : ℕ)
      (after : Inserted pg node_id label_ids prop_bytes st.rel st'.rel st.log st'.log blk off)
      → IsNodeRecord (record_at pg node_id label_ids after.props after.ovf off)
  Inserted-IsNodeRecord node_id label_ids prop_bytes st st' blk off after =
      record_at-IsNodeRecord pg node_id label_ids after.props after.ovf off adds after.fits st'.rel
        blk after.small

  module _ (node_id : ℤ) (label_ids : List ℤ) (prop_bytes : List ℕ) (st st' : NodeStore)
      (blk off : ℕ) (wide : IsI64 node_id) (labels : All IsI32 label_ids)
      (room : st.rel.nblocks + 2 ≤ 2 ^ 32)
      (e : insert_node pg node_id label_ids prop_bytes st ≡ ok (st', blk, off)) where
    -- What a successful `insert_node` has written is read back under every snapshot by the
    -- transaction that wrote it, whose xid is valid: the id, all labels, and the properties of any
    -- length, inline or out of the overflow block. The id fits 64 bits, the labels 32, block
    -- numbers have room for two more blocks, and PostgreSQL makes pages and adds items as it
    -- promises.
    pub read-insert_node :
        (snapshot : Snapshot)
        → (pg.base.current_xid == 0) ≡ false
        → pg.base.is_current_xid pg.base.current_xid ≡ true
        → (r : NodeRecord) × (read_node_at_offset pg snapshot (st'.rel.page blk) off ≡ some r)
          × (resolve st'.rel r ≡ record_at pg node_id label_ids prop_bytes r.overflow_blkno off)
    read-insert_node snapshot valid own =
        let after =
          insert_node-Inserted node_id label_ids prop_bytes st st' blk off wide labels room e in
        let r = record_at pg node_id label_ids after.props after.ovf off in
        (
          r,
          Holds-read pg _ r
              (Inserted-IsNodeRecord node_id label_ids prop_bytes st st' blk off after) after.holds
              snapshot (st'.rel.page blk) off refl valid own,
          after.reads,
        )

    -- With its location in the cache, a node that `insert_node` has stored is located there, with
    -- the adjacency header of the same number on the same page. The id fits 64 bits, the labels 32,
    -- block numbers have room for two more blocks, and PostgreSQL makes pages and adds items as it
    -- promises.
    pub find_node_location-insert_node :
        (lookup_cached_location : ℤ → Option (ℕ × ℕ))
        → lookup_cached_location node_id ≡ some (blk, off)
        → find_node_location pg lookup_cached_location st'.rel node_id ≡ some (blk, off, off - 1)
    unfolding find_node_location locate_cached
    find_node_location-insert_node lookup_cached_location cached =
        let after =
          insert_node-Inserted node_id label_ids prop_bytes st st' blk off wide labels room e in
        let r = record_at pg node_id label_ids after.props after.ovf off in
        let (live, slot) =
          Holds-is_live_node pg _ r
            (Inserted-IsNodeRecord node_id label_ids prop_bytes st st' blk off after) after.holds in
        rw (cached, find_node_location, live, locate_cached, slot)
