-- ===== src/Vacuum/Kept.antt =====
-- storage/vacuum.rs: what can be read before a vacuum can be read after it.
use pg_eddy.Common.{
  ℕ, ◌+◌, ◌≡◌, ◌≢◌, refl, ap, ◌∙◌, ==_self, Bool, true, false, not, Option, none, some, List, [],
  ◌∷◌, arith, ltb, ◌==◌, if◌then◌else◌, Bool-cases, inl, inr, ◌⊎◌, All,
}
use pg_eddy.Edges.{LineFlags, lp_normal, lp_unused, lp_redirect, lp_dead, Slot, Page}
use pg_eddy.Edges.Scan.{is_normal, item_data, upto, offsets}
use pg_eddy.Edges.Store.{set_slot}
use pg_eddy.Nodes.{NodeRecord, NodePage, NodePostgres, NodeRelation, Snapshot}
use pg_eddy.Nodes.Scan.{is_overflow_page, xmin_visible, read_node_at_offset}
use pg_eddy.Nodes.Store.{NodeStore, set_node_page, compact_node_page}
use pg_eddy.Vacuum.{
  Verdict, skipped, live, dead, PageScan, VacuumStats, no_stats, is_node_page, mark_dead, verdict,
  scan_items, reclaim, add_stats, vacuum_blocks, vacuum_relation,
}

pub Verdict-cases : (v : Verdict) → (v ≡ skipped) ⊎ (v ≡ live) ⊎ (v ≡ dead)
Verdict-cases skipped = inl refl
Verdict-cases live = inr (inl refl)
Verdict-cases dead = inr (inr refl)

by_tests :
    (r : NodeRecord) (flags : LineFlags) (valid visible : Bool) (found : Option NodeRecord)
    → (if not (is_normal flags)
        then none
        else if not visible
        then none
        else if not valid
        then none
        else found)
      ≡ some r
    → (flags ≡ lp_normal) × (valid ≡ true)
by_tests r lp_unused valid visible found e = cc
by_tests r lp_redirect valid visible found e = cc
by_tests r lp_dead valid visible found e = cc
by_tests r lp_normal true visible found e = (refl, refl)
by_tests r lp_normal false true found e = cc
by_tests r lp_normal false false found e = cc

mark_dead-other :
    (Q : ℕ → Type 0) (offs : List ℕ) (page : Page) (o : ℕ)
    → All Q offs
    → (Q o → ⊥)
    → (mark_dead offs page).slot o ≡ page.slot o
unfolding mark_dead
mark_dead-other Q [] page o all out = refl
mark_dead-other Q (off ∷ offs) page o (q, all) out =
    elim (Bool-cases (is_normal (page.slot off).lp_flags)) [
      | inl normal ↦
          let e : (o == off) ≡ false = elim (Bool-cases (o == off)) [
            | inr differ ↦ differ
            | inl same ↦ let eq : off ≡ o = ground arith in absurd (out (rw eq at q))
          ] in
          rw (normal, mark_dead)
            (mark_dead-other Q offs
                (set_slot off (record (page.slot off) { lp_flags = lp_dead }) page) o all out
              ∙ rw e)
      | inr other ↦ rw (other, mark_dead) (mark_dead-other Q offs page o all out)
    ]

module _ (pg : NodePostgres) where
  -- Two slots that hold the same item, as far as it can be read.
  pub record SameItem (s t : Slot) : Type 0 where
    pub flags : t.lp_flags ≡ s.lp_flags
    pub len : t.lp_len ≡ s.lp_len
    pub header : t.header ≡ s.header
    pub bytes : item_data pg.base t ≡ item_data pg.base s

  SameItem-refl : (s : Slot) → SameItem s s
  SameItem-refl s = record { flags = refl; len = refl; header = refl; bytes = refl }

  -- What `PageRepairFragmentation` promises: it moves items that are in use, and does not change them.
  abbrev pub RepairsPages : Type 0
  RepairsPages =
      (page : Page) (o : ℕ)
      → (page.slot o).lp_flags ≡ lp_normal
      → SameItem (page.slot o) ((pg.repair_fragmentation page).slot o)

  SameItem-read :
      (snapshot : Snapshot) (page page' : NodePage) (o : ℕ)
      → SameItem (page.items.slot o) (page'.items.slot o)
      → read_node_at_offset pg snapshot page' o ≡ read_node_at_offset pg snapshot page o
  unfolding read_node_at_offset
  SameItem-read snapshot page page' o same = rw (same.flags, same.header, same.bytes, same.len)

  read_node_at_offset-in_use :
      (snapshot : Snapshot) (page : NodePage) (o : ℕ) (r : NodeRecord)
      → read_node_at_offset pg snapshot page o ≡ some r
      → ((page.items.slot o).lp_flags ≡ lp_normal)
        × ((page.items.slot o).header.xmax_invalid ≡ true)
  unfolding read_node_at_offset
  read_node_at_offset-in_use snapshot page o r e =
      let s = page.items.slot o in
      by_tests r s.lp_flags s.header.xmax_invalid (xmin_visible pg snapshot s.header) _ e

  module _ (precedes : ℕ → ℕ → Bool) (oldest : ℕ) where
    scan_items-All :
        (page : NodePage) (offs : List ℕ)
        → All
            (λ off. verdict pg precedes oldest (page.items.slot off) ≡ dead)
            (scan_items pg precedes oldest page offs).dead_offsets
    unfolding scan_items
    scan_items-All page [] = tt
    scan_items-All page (off ∷ offs) =
        elim (Verdict-cases (verdict pg precedes oldest (page.items.slot off))) [
          | inl skip ↦ rw (skip, scan_items) (scan_items-All page offs)
          | inr (inl alive) ↦ rw (alive, scan_items) (scan_items-All page offs)
          | inr (inr gone) ↦ rw (gone, scan_items) (gone, scan_items-All page offs)
        ]

    verdict-valid :
        (s : Slot) → s.header.xmax_invalid ≡ true → verdict pg precedes oldest s ≡ dead → ⊥
    unfolding verdict
    verdict-valid s valid e = elim (Bool-cases (is_normal s.lp_flags)) [
      | inr other ↦ cc (rw other at e)
      | inl normal ↦ elim (Bool-cases (ltb s.lp_len (pg.base.hdr_size + 1))) [
        | inl short ↦ cc (rw (normal, short) at e)
        | inr long ↦ cc (rw (normal, long, valid) at e)
      ]
    ]

    -- The two ways of `reclaim`, for what was found dead.
    abbrev marked : (blk off : ℕ) → List ℕ → NodeStore → NodeStore
    marked blk off offs st = record st {
      rel =
          set_node_page blk
            (record (st.rel.page blk) { items = mark_dead (off ∷ offs) (st.rel.page blk).items })
            st.rel;
    }

    reclaim-cases :
        (blk off : ℕ) (offs slots : List ℕ) (n m : ℕ) (st : NodeStore)
        → let found : PageScan = record {
          dead_offsets = off ∷ offs;
          dead_adj_slots = slots;
          page_live = n;
          page_dead = m;
        } in
          let st' = reclaim pg precedes oldest blk found st in
          ((is_node_page (st.rel.page blk) ≡ true)
            × (st' ≡ compact_node_page pg blk slots (marked blk off offs st)))
          ⊎ ((is_node_page (st.rel.page blk) ≡ false) × (st'.rel ≡ (marked blk off offs st).rel))
    unfolding reclaim
    reclaim-cases blk off offs slots n m st = elim (Bool-cases (is_node_page (st.rel.page blk))) [
      | inl node ↦ inl (node, rw node)
      | inr edge ↦ inr (edge, rw edge)
    ]

    reclaim-other :
        (blk : ℕ) (offs slots : List ℕ) (n m : ℕ) (st : NodeStore) (b : ℕ)
        → b ≢ blk
        → let found : PageScan = record {
          dead_offsets = offs;
          dead_adj_slots = slots;
          page_live = n;
          page_dead = m;
        } in
          (reclaim pg precedes oldest blk found st).rel.page b ≡ st.rel.page b
    unfolding compact_node_page reclaim
    reclaim-other blk [] slots n m st b ne = refl
    reclaim-other blk (off ∷ offs) slots n m st b ne =
        let e : (b == blk) ≡ false = ground arith in
        elim (reclaim-cases blk off offs slots n m st) [
          | inl (node, q) ↦ rw (q, e)
          | inr (edge, q) ↦ rw (q, e)
        ]

    -- What a block is like behind `reclaim`, and that the other blocks are as they were.
    abbrev Reclaimed : (blk o : ℕ) → NodeRelation → NodeRelation → Type 0
    Reclaimed blk o rel rel' =
        SameItem ((rel.page blk).items.slot o) ((rel'.page blk).items.slot o)
        × ((rel'.page blk).pd_special ≡ (rel.page blk).pd_special)
        × (rel'.nblocks ≡ rel.nblocks)
        × ((b : ℕ) → b ≢ blk → rel'.page b ≡ rel.page b)

    module _ (repairs : RepairsPages) (blk o : ℕ) (st : NodeStore)
        (normal : ((st.rel.page blk).items.slot o).lp_flags ≡ lp_normal)
        (valid : ((st.rel.page blk).items.slot o).header.xmax_invalid ≡ true) where
      mark_dead-kept :
          (offs : List ℕ)
          → All (λ off. verdict pg precedes oldest ((st.rel.page blk).items.slot off) ≡ dead) offs
          → (mark_dead offs (st.rel.page blk).items).slot o ≡ (st.rel.page blk).items.slot o
      mark_dead-kept offs all =
          mark_dead-other
            (λ off. verdict pg precedes oldest ((st.rel.page blk).items.slot off) ≡ dead) offs
            (st.rel.page blk).items o all (verdict-valid ((st.rel.page blk).items.slot o) valid)

      Reclaimed-reclaim :
          (offs slots : List ℕ) (n m : ℕ)
          → All (λ off. verdict pg precedes oldest ((st.rel.page blk).items.slot off) ≡ dead) offs
          → let found : PageScan = record {
            dead_offsets = offs;
            dead_adj_slots = slots;
            page_live = n;
            page_dead = m;
          } in
            Reclaimed blk o st.rel (reclaim pg precedes oldest blk found st).rel
      unfolding compact_node_page reclaim
      Reclaimed-reclaim [] slots n m all = (SameItem-refl _, refl, refl, λ b ne. refl)
      Reclaimed-reclaim (off ∷ offs) slots n m all =
          let kept = mark_dead-kept (off ∷ offs) all in
          let self = ==_self blk in
          elim (reclaim-cases blk off offs slots n m st) [
            | inl (node, q) ↦
                let items = mark_dead (off ∷ offs) (st.rel.page blk).items in
                let moved = repairs items o (ap (λ t. t.lp_flags) kept ∙ normal) in
                rw (q, self)
                  (
                    rw kept at moved,
                    refl,
                    refl,
                    λ b ne. let e : (b == blk) ≡ false = ground arith in rw e,
                  )
            | inr (edge, q) ↦
                rw (q, self)
                  (
                    rw kept (SameItem-refl _),
                    refl,
                    refl,
                    λ b ne. let e : (b == blk) ≡ false = ground arith in rw e,
                  )
          ]

    module _ (repairs : RepairsPages) (snapshot : Snapshot) where
      pub reclaim-read :
          (blk : ℕ) (offs : List ℕ) (st : NodeStore) (b o : ℕ) (r : NodeRecord)
          → read_node_at_offset pg snapshot (st.rel.page b) o ≡ some r
          → let st' =
              reclaim pg precedes oldest blk
                (scan_items pg precedes oldest (st.rel.page blk) offs)
                st in
            read_node_at_offset pg snapshot (st'.rel.page b) o ≡ some r
      reclaim-read blk offs st b o r e =
          let found = scan_items pg precedes oldest (st.rel.page blk) offs in
          let all = scan_items-All (st.rel.page blk) offs in
          let (normal, valid) = read_node_at_offset-in_use snapshot (st.rel.page b) o r e in
          elim (Bool-cases (b == blk)) [
            | inl here ↦
                let eq : b ≡ blk = ground arith in
                let (same, _, _, _) =
                  Reclaimed-reclaim repairs blk o st (rw eq at normal) (rw eq at valid)
                    found.dead_offsets found.dead_adj_slots found.page_live found.page_dead all in
                rw eq (SameItem-read snapshot (st.rel.page blk) _ o same ∙ (rw eq at e))
            | inr other ↦
                let ne : b ≢ blk = ground arith in
                rw
                  (reclaim-other blk found.dead_offsets found.dead_adj_slots found.page_live
                    found.page_dead st b ne)
                  e
          ]

      vacuum_blocks-read :
          (blks : List ℕ) (st : NodeStore) (stats : VacuumStats) (b o : ℕ) (r : NodeRecord)
          → read_node_at_offset pg snapshot (st.rel.page b) o ≡ some r
          → read_node_at_offset pg snapshot
              ((vacuum_blocks pg precedes oldest blks st stats).0.rel.page b)
              o
            ≡ some r
      unfolding vacuum_blocks
      vacuum_blocks-read [] st stats b o r e = e
      vacuum_blocks-read (blk ∷ blks) st stats b o r e =
          elim (Bool-cases (is_overflow_page (st.rel.page blk))) [
            | inl skip ↦ rw (skip, vacuum_blocks) (vacuum_blocks-read blks st stats b o r e)
            | inr plain ↦
                let page = st.rel.page blk in
                let found = scan_items pg precedes oldest page (offsets page.items) in
                rw (plain, vacuum_blocks)
                  (vacuum_blocks-read blks (reclaim pg precedes oldest blk found st)
                    (add_stats pg precedes oldest page found stats) b o r
                    (reclaim-read blk (offsets page.items) st b o r e))
          ]

      -- A vacuum takes no node away: what a reader sees of any item before `vacuum_relation`, under any
      -- snapshot and whatever the transaction horizon is, it sees in the same place after it, if
      -- PostgreSQL's repair of a page leaves the items in use as they are.
      pub vacuum_relation-read :
          (st : NodeStore) (b o : ℕ) (r : NodeRecord)
          → read_node_at_offset pg snapshot (st.rel.page b) o ≡ some r
          → read_node_at_offset pg snapshot ((vacuum_relation pg precedes oldest st).0.rel.page b) o
            ≡ some r
      unfolding vacuum_relation
      vacuum_relation-read st b o r e =
          vacuum_blocks-read (upto 0 st.rel.nblocks) st no_stats b o r e
