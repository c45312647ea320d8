-- ===== src/Nodes/Inserted.antt =====
-- storage/node_store.rs: the page that `find_or_extend_page` gives, and a node item placed in it.
use pg_eddy.Common.{
  ℕ, zero, suc, ◌+◌, ◌^◌, ◌≤◌, ◌<◌, ◌≡◌, ◌≢◌, refl, ◌∙◌, true, false, some, arith, ◌==◌, ==_self,
  Bool-cases, Option-cases, inl, inr, ◌⊎◌,
}
use pg_eddy.Edges.{lp_unused, Item, Slot, Page}
use pg_eddy.Edges.Store.{set_slot}
use pg_eddy.Edges.Added.{Added}
use pg_eddy.Nodes.{
  NodeRecord, NodePage, NodeRelation, NodePostgres, pd_node_special_size, pd_node_special_offset,
  blcksz,
}
use pg_eddy.Nodes.Scan.{is_overflow_page}
use pg_eddy.Nodes.Placed.{Holds}
use pg_eddy.Nodes.Store.{
  set_node_page, extended, init_node_page, fits, page_with_room, find_or_extend_page, add_node_item,
}

-- What `PageInit` promises: an empty page whose special area begins where it should.
pub record InitsPages (pg : NodePostgres) : Type 0 where
  pub node_special : (pg.page_init pd_node_special_size).pd_special ≡ pd_node_special_offset
  pub empty : (pg.page_init 0).items.max_off ≡ 0
  pub no_special : (pg.page_init 0).pd_special ≡ blcksz

-- A relation that goes on from another one: the old blocks are as they were.
pub record Continues (rel rel' : NodeRelation) : Type 0 where
  pub size : rel.nblocks ≤ rel'.nblocks
  pub old : (b : ℕ) → b < rel.nblocks → rel'.page b ≡ rel.page b

pub set_node_page-same :
    (blk : ℕ) (page : NodePage) (rel : NodeRelation) → (set_node_page blk page rel).page blk ≡ page
set_node_page-same blk page rel = rw (==_self blk)

pub set_node_page-other :
    (blk b : ℕ) (page : NodePage) (rel : NodeRelation)
    → b ≢ blk
    → (set_node_page blk page rel).page b ≡ rel.page b
set_node_page-other blk b page rel ne = let e : (b == blk) ≡ false = ground arith in rw e

pub extended-Continues : (page : NodePage) (rel : NodeRelation) → Continues rel (extended page rel)
extended-Continues page rel = record {
  size = omega arith;
  old = λ b lt. let e : (b == rel.nblocks) ≡ false = ground arith in rw e;
}

pub Continues-trans : (a b c : NodeRelation) → Continues a b → Continues b c → Continues a c
Continues-trans a b c h k = record {
  size = omega (arith, h.size, k.size);
  old = λ i lt. k.old i (omega (arith, h.size)) ∙ h.old i lt;
}

-- Writing the block by which the relation has been extended.
pub set-extended-Continues :
    (page new : NodePage) (rel : NodeRelation)
    → Continues rel (set_node_page rel.nblocks page (extended new rel))
set-extended-Continues page new rel = record {
  size = omega arith;
  old = λ b lt. let e : (b == rel.nblocks) ≡ false = ground arith in rw e;
}

module _ (pg : NodePostgres) where
  page_with_room-lem :
      (rel : NodeRelation) (size n blk : ℕ)
      → page_with_room pg rel size n ≡ some blk
      → (blk < n) × (is_overflow_page (rel.page blk) ≡ false) × (fits pg (rel.page blk) size ≡ true)
  unfolding page_with_room
  page_with_room-lem rel size zero blk e = cc
  page_with_room-lem rel size (suc n) blk e = elim (Bool-cases (is_overflow_page (rel.page n))) [
    | inl skip ↦
        let (lt, plain, room) = page_with_room-lem rel size n blk (rw skip at e) in
        (omega arith, plain, room)
    | inr plain ↦ elim (Bool-cases (fits pg (rel.page n) size)) [
      | inl room ↦
          let q : n ≡ blk = cc (rw (plain, room) at e) in rw (← q) (omega arith, plain, room)
      | inr full ↦ absurd (cc (rw (plain, full) at e))
    ]
  ]

  module _ (inits : InitsPages pg) where
    new_page-plain : is_overflow_page (init_node_page pg) ≡ false
    unfolding is_overflow_page init_node_page
    new_page-plain = rw inits.node_special

    -- The page to insert into lies in the relation, is no overflow block, and is an old page with
    -- room for the item or a new one behind the old ones, which are left as they were.
    pub find_or_extend_page-Continues :
        (rel : NodeRelation) (size : ℕ)
        → let found = find_or_extend_page pg rel size in
          (found.1 < found.0.nblocks)
          × Continues rel found.0
          × (is_overflow_page (found.0.page found.1) ≡ false)
          × ((fits pg (rel.page found.1) size ≡ true) ⊎ (found.1 ≡ rel.nblocks))
    unfolding find_or_extend_page
    find_or_extend_page-Continues rel size =
        elim (Option-cases (page_with_room pg rel size rel.nblocks)) [
          | inl full ↦
              rw (full, find_or_extend_page)
                (
                  omega arith,
                  extended-Continues (init_node_page pg) rel,
                  rw (==_self rel.nblocks) new_page-plain,
                  inr refl,
                )
          | inr (blk, e) ↦
              let (lt, plain, room) = page_with_room-lem rel size rel.nblocks blk e in
              rw (e, find_or_extend_page)
                (lt, record { size = omega arith; old = λ b l. refl }, plain, inl room)
        ]

  pub find_or_extend_page-grown :
      (rel : NodeRelation) (size : ℕ)
      → (find_or_extend_page pg rel size).0.nblocks ≤ rel.nblocks + 1
  unfolding find_or_extend_page
  find_or_extend_page-grown rel size =
      elim (Option-cases (page_with_room pg rel size rel.nblocks)) [
        | inl full ↦ rw (full, find_or_extend_page) (omega arith)
        | inr (blk, e) ↦ rw (e, find_or_extend_page) (omega arith)
      ]

  -- A node in block `blk` at `off`, where nothing was; the rest is as it was.
  pub record PlacedNode (rel rel' : NodeRelation) (blk off : ℕ) (r : NodeRecord) : Type 0 where
    pub nblocks : rel'.nblocks ≡ rel.nblocks
    pub holds : Holds pg ((rel'.page blk).items.slot off) r
    pub numbered : off ≢ 0
    pub small : off < 2 ^ 16
    pub inside : off ≤ (rel'.page blk).items.max_off
    pub grown : (rel.page blk).items.max_off ≤ (rel'.page blk).items.max_off
    pub fresh :
        ((rel.page blk).items.max_off < off)
        ⊎ (((rel.page blk).items.slot off).lp_flags ≡ lp_unused)
    pub others : (o : ℕ) → o ≢ off → (rel'.page blk).items.slot o ≡ (rel.page blk).items.slot o
    pub special : (rel'.page blk).special ≡ (rel.page blk).special
    pub pd_special : (rel'.page blk).pd_special ≡ (rel.page blk).pd_special
    pub pages : (b : ℕ) → b ≢ blk → rel'.page b ≡ rel.page b

  abbrev pub linked : (blk off : ℕ) → Slot → Slot
  linked blk off s = record s { header = record (s.header) { ctid = some (blk, off) } }

  abbrev pub placed : NodeRelation → (blk off : ℕ) → Page → (ℕ → Slot → Slot) → NodeRelation
  placed rel blk off items fix =
      set_node_page blk
        (record (rel.page blk) {
          items = set_slot off (linked blk off (fix off (items.slot off))) items;
        })
        rel

  pub add_node_item-lem :
      (rel rel' : NodeRelation) (blk off : ℕ) (item : Item) (fix : ℕ → Slot → Slot)
      → add_node_item pg rel blk item fix ≡ some (rel', off)
      → (items : Page) × (pg.base.page_add_item (rel.page blk).items item ≡ some (items, off))
        × (placed rel blk off items fix ≡ rel')
  unfolding add_node_item
  add_node_item-lem rel rel' blk off item fix e =
      elim (Option-cases (pg.base.page_add_item (rel.page blk).items item)) [
        | inl full ↦ absurd (cc (rw (full, add_node_item) at e))
        | inr ((items, o), added) ↦
            let q : o ≡ off = cc (rw (added, add_node_item) at e) in
            let q' : placed rel blk o items fix ≡ rel' = cc (rw (added, add_node_item) at e) in
            (items, rw (← q) added, rw (← q) q')
      ]

  pub placed-PlacedNode :
      (rel : NodeRelation) (blk off : ℕ) (item : Item) (fix : ℕ → Slot → Slot) (items : Page)
      (r : NodeRecord)
      → Added pg.base (rel.page blk).items item items off
      → Holds pg (linked blk off (fix off (items.slot off))) r
      → PlacedNode rel (placed rel blk off items fix) blk off r
  placed-PlacedNode rel blk off item fix items r added holds =
      let here = ==_self blk in
      let there = ==_self off in
      record {
        nblocks = refl;
        holds = rw (here, there) holds;
        numbered = added.numbered;
        small = added.small;
        inside = rw here added.inside;
        grown = rw here added.grown;
        fresh = added.fresh;
        others =
            λ o ne. let e : (o == off) ≡ false = ground arith in rw (here, e) (added.others o ne);
        special = rw here;
        pd_special = rw here;
        pages = λ b ne. set_node_page-other blk b _ rel ne;
      }
