-- ===== src/Edges/Added.antt =====
-- storage/edge_store.rs: adding an item to an edge page disturbs no chain.
use pg_eddy.Common.{
  ℕ, ◌+◌, ◌-◌, ◌*◌, ◌/◌, ◌^◌, ◌≤◌, ◌<◌, ◌≡◌, ◌≢◌, sym, ap, ◌∙◌, inl, inr, ◌⊎◌, Bool, true, false,
  some, ◌&&◌, Bool-cases, arith, ltb, leb, length, take, ◌==◌,
}
use pg_eddy.Edges.{lp_unused, lp_normal, Item, Slot, Page, EdgeRelation, Postgres}
use pg_eddy.Edges.Follow.{followable}
use pg_eddy.Edges.Store.{set_page, page_free_space, find_or_extend_edge_page}
use pg_eddy.Edges.Delete.{Keeps, Keeps-refl, changed, changed-cases}

module _ (pg : Postgres) where
  -- What `PageAddItemExtended` promises when it chooses the line pointer itself: an unused one or a
  -- new one, which then points to the item; the others stay.
  pub record Added (page : Page) (item : Item) (page' : Page) (off : ℕ) : Type 0 where
    pub numbered : off ≢ 0
    pub small : off < 2 ^ 16
    pub fresh : (page.max_off < off) ⊎ ((page.slot off).lp_flags ≡ lp_unused)
    pub flags : (page'.slot off).lp_flags ≡ lp_normal
    pub len : (page'.slot off).lp_len ≡ pg.hdr_size + length item.bytes
    pub bytes : take (length item.bytes) (page'.slot off).memory ≡ item.bytes
    pub header : (page'.slot off).header ≡ item.header
    pub others : (o : ℕ) → o ≢ off → page'.slot o ≡ page.slot o
    pub grown : page.max_off ≤ page'.max_off
    pub inside : off ≤ page'.max_off

  abbrev pub AddsItems : Type 0
  AddsItems =
      (page : Page) (item : Item) (page' : Page) (off : ℕ)
      → pg.page_add_item page item ≡ some (page', off)
      → Added page item page' off

  pub Keeps-trans : (a b c : EdgeRelation) → Keeps pg a b → Keeps pg b c → Keeps pg a c
  Keeps-trans a b c h k = record {
    size = omega (arith, h.size, k.size);
    live = λ p o lt le live.
        let (le', live') = h.live p o lt le live in k.live p o (omega (arith, h.size)) le' live';
    next = λ is_out p o lt le live.
        let (le', live') = h.live p o lt le live in
        k.next is_out p o (omega (arith, h.size)) le' live' ∙ h.next is_out p o lt le live;
  }

  Keeps-extended :
      (rel : EdgeRelation)
      → Keeps pg rel (set_page rel.nblocks pg.page_init (record rel { nblocks = rel.nblocks + 1 }))
  Keeps-extended rel = record {
    size = omega arith;
    live =
        λ p o lt le live. let old : (p == rel.nblocks) ≡ false = ground arith in rw old (le, live);
    next = λ is_out p o lt le live. let old : (p == rel.nblocks) ≡ false = ground arith in rw old;
  }

  -- The page to insert into is a page of a relation that keeps the old one.
  pub find_or_extend_edge_page-Keeps :
      (rel : EdgeRelation) (size : ℕ)
      → let found = find_or_extend_edge_page pg rel size in
        Keeps pg rel found.0 × (found.1 < found.0.nblocks) × (found.1 ≤ rel.nblocks)
  unfolding find_or_extend_edge_page page_free_space
  find_or_extend_edge_page-Keeps rel size =
      let last = rel.nblocks - 1 in
      elim (Bool-cases (
        ltb 0 rel.nblocks
        && leb ((size + 7) / 8 * 8 + pg.item_id_size) (page_free_space (rel.page last)))) [
          | inl room ↦
              let some_page : 0 < rel.nblocks = nonempty rel.nblocks _ room in
              rw room (Keeps-refl pg rel, omega arith, omega arith)
          | inr none_left ↦ rw none_left (Keeps-extended rel, omega arith, omega arith)
        ]
    where
      nonempty : (n : ℕ) (b : Bool) → (ltb 0 n && b) ≡ true → 0 < n
      nonempty n b h = ground arith

  module _ (rel : EdgeRelation) (blk off : ℕ) (item : Item) (page' : Page) (s : Slot)
      (added : Added (rel.page blk) item page' off) where
    max_off-changed :
        (p : ℕ) → (rel.page p).max_off ≤ ((changed blk off s page' rel).page p).max_off
    max_off-changed p = elim (Bool-cases (p == blk)) [
      | inl here ↦ let e : p ≡ blk = ground arith in rw (here, e) added.grown
      | inr other ↦ rw other (omega arith)
    ]

    -- A slot that a chain can run through is not the new one.
    unchanged :
        (p o : ℕ)
        → o ≤ (rel.page p).max_off
        → followable pg ((rel.page p).slot o) ≡ true
        → ((changed blk off s page' rel).page p).slot o ≡ (rel.page p).slot o
    unchanged p o le live = elim (changed-cases blk off s page' rel p o) [
      | inl (e, e', q) ↦ absurd (not_new (rw (e, e') at le) (rw (e, e') at live))
      | inr (inl (e, ne, q)) ↦ q ∙ added.others o ne ∙ ap (λ b. (rel.page b).slot o) (sym e)
      | inr (inr (ne, q)) ↦ q
    ]
      where
        not_new : off ≤ (rel.page blk).max_off → followable pg ((rel.page blk).slot off) ≡ true → ⊥
        not_new le live = elim added.fresh [
          | inl beyond ↦ omega (arith, beyond)
          | inr unused ↦ cc (rw unused at live)
        ]

    pub Keeps-changed : Keeps pg rel (changed blk off s page' rel)
    Keeps-changed = record {
      size = omega arith;
      live = λ p o lt le live.
          let same = unchanged p o le live in (omega (arith, le, max_off-changed p), rw same live);
      next = λ is_out p o lt le live. rw (unchanged p o le live);
    }
