-- ===== src/Vacuum/Cleared.antt =====
-- storage/vacuum.rs: which adjacency headers a vacuum clears.
use pg_eddy.Common.{
  ℕ, ◌+◌, ◌≤◌, ◌<◌, ◌≡◌, ◌≢◌, refl, ==_self, Bool, true, false, ◌||◌, some, List, [], ◌∷◌, arith,
  ◌==◌, if◌then◌else◌, Bool-cases, inl, inr, All, length, zero, suc,
}
use pg_eddy.Page.{zeros, adj_header_bytes}
use pg_eddy.Edges.Follow.{read_adj_header}
use pg_eddy.Edges.Store.{write_adj_header}
use pg_eddy.Edges.Headers.{
  HasSlot, length-write_adj_header, read-write_adj_header, read-write_adj_header_other,
}
use pg_eddy.Edges.Cells.{length-zeros}
use pg_eddy.Edges.Scan.{upto, offsets}
use pg_eddy.Nodes.{NodeRecord, NodePage, NodePostgres, Snapshot}
use pg_eddy.Nodes.Scan.{read_node_at_offset}
use pg_eddy.Nodes.Locate.{stored_adj_slot}
use pg_eddy.Nodes.Store.{NodeStore, clear_adj_slots, compact_node_page}
use pg_eddy.Vacuum.{dead, PageScan, is_node_page, has_adj_slot, verdict, scan_items, reclaim}
use pg_eddy.Vacuum.Kept.{Verdict-cases, RepairsPages, reclaim-read}

abbrev pub elem : ℕ → List ℕ → Bool
elem x [] = false
elem x (y ∷ ys) = (x == y) || elem x ys

All-HasSlot :
    (special special' : List ℕ)
    → length special' ≡ length special
    → (slots : List ℕ) → All (HasSlot special) slots
    → All (HasSlot special') slots
All-HasSlot special special' e [] all = tt
All-HasSlot special special' e (x ∷ xs) (h, hs) = (rw e h, All-HasSlot special special' e xs hs)

clear_adj_slots-read :
    (pg : NodePostgres) (slots : List ℕ) (special : List ℕ) (idx : ℕ)
    → All (HasSlot special) slots
    → HasSlot special idx
    → read_adj_header (clear_adj_slots pg slots special) idx
      ≡ (if elem idx slots then zeros adj_header_bytes else read_adj_header special idx)
unfolding clear_adj_slots write_adj_header
clear_adj_slots-read pg [] special idx all fits = refl
clear_adj_slots-read pg (slot ∷ slots) special idx (here, all) fits =
    let blank = zeros adj_header_bytes in
    let whole : length blank ≡ adj_header_bytes = length-zeros adj_header_bytes in
    let special' = write_adj_header special slot blank in
    let same : length special' ≡ length special =
      length-write_adj_header special slot blank here whole in
    let rest =
      clear_adj_slots-read pg slots special' idx (All-HasSlot special special' same slots all)
        (rw same fits) in
    elim (Bool-cases (idx == slot)) [
      | inl hit ↦
          let e : idx ≡ slot = ground arith in
          rw (hit, rest, e, read-write_adj_header special slot blank here whole)
            (either (elem slot slots) blank)
      | inr miss ↦
          let ne : idx ≢ slot = ground arith in
          rw (miss, rest, read-write_adj_header_other special slot blank here whole idx ne)
    ]
  where
    either : (b : Bool) (xs : List ℕ) → (if b then xs else xs) ≡ xs
    either true xs = refl
    either false xs = refl

or_true : (b : Bool) → (b || true) ≡ true
or_true true = refl
or_true false = refl

module _ (pg : NodePostgres) (precedes : ℕ → ℕ → Bool) (oldest : ℕ) where
  -- The items that the loop finds dead, of those with an adjacency slot.
  scan_items-elem :
      (page : NodePage) (first n o : ℕ)
      → first ≤ o
      → o < first + n
      → verdict pg precedes oldest (page.items.slot o) ≡ dead
      → has_adj_slot pg precedes oldest page (page.items.slot o) ≡ true
      → let found = scan_items pg precedes oldest page (upto first n) in
        (elem (stored_adj_slot pg (page.items.slot o)) found.dead_adj_slots ≡ true)
        × (found.dead_offsets ≢ [])
  unfolding scan_items upto
  scan_items-elem page first zero o le lt gone slot = absurd (omega arith)
  scan_items-elem page first (suc n) o le lt gone slot = elim (Bool-cases (first == o)) [
    | inl same ↦
        let e : first ≡ o = ground arith in
        let gone' : verdict pg precedes oldest (page.items.slot first) ≡ dead = rw e gone in
        let slot' : has_adj_slot pg precedes oldest page (page.items.slot first) ≡ true =
          rw e slot in
        rw (← e) (
          rw (gone', slot', scan_items)
            (rw (==_self (stored_adj_slot pg (page.items.slot first))), λ q. cc))
    | inr other ↦
        let next : suc first ≤ o = ground arith in
        let (found, some_dead) =
          scan_items-elem page (suc first) n o next (omega arith) gone slot in
        elim (Verdict-cases (verdict pg precedes oldest (page.items.slot first))) [
          | inl skip ↦ rw (skip, scan_items) (found, some_dead)
          | inr (inl alive) ↦ rw (alive, scan_items) (found, some_dead)
          | inr (inr dead_too) ↦
              rw (dead_too, scan_items)
                (elim (Bool-cases (has_adj_slot pg precedes oldest page (page.items.slot first))) [
                  | inl has ↦
                      rw (has, found)
                        (
                          or_true (
                              stored_adj_slot pg (page.items.slot o)
                              == stored_adj_slot pg (page.items.slot first)),
                          λ q. cc,
                        )
                  | inr hasnt ↦ rw hasnt (found, λ q. cc)
                ])
        ]
  ]

  -- The header of every index, behind the vacuum of a node page: zeros where a dead item stores the
  -- index, and otherwise what it was. No matter which live item stores the index too.
  reclaim-headers :
      (blk : ℕ) (st : NodeStore) (idx : ℕ)
      → let page = st.rel.page blk in
        let found = scan_items pg precedes oldest page (offsets page.items) in
        is_node_page page ≡ true
        → All (HasSlot page.special) found.dead_adj_slots
        → HasSlot page.special idx
        → found.dead_offsets ≢ []
        → read_adj_header ((reclaim pg precedes oldest blk found st).rel.page blk).special idx ≡ (
            if elem idx found.dead_adj_slots
            then zeros adj_header_bytes
            else read_adj_header page.special idx)
  unfolding reclaim compact_node_page
  reclaim-headers blk st idx node all fits some_dead =
      let page = st.rel.page blk in
      let found = scan_items pg precedes oldest page (offsets page.items) in
      by_offsets found.dead_offsets found.dead_adj_slots found.page_live found.page_dead all
        some_dead
    where
      by_offsets :
          (offs slots : List ℕ) (n m : ℕ)
          → All (HasSlot (st.rel.page blk).special) slots
          → offs ≢ []
          → let found : PageScan = record {
            dead_offsets = offs;
            dead_adj_slots = slots;
            page_live = n;
            page_dead = m;
          } in
            read_adj_header ((reclaim pg precedes oldest blk found st).rel.page blk).special idx ≡ (
              if elem idx slots
              then zeros adj_header_bytes
              else read_adj_header (st.rel.page blk).special idx)
      by_offsets [] slots n m all ne = absurd (ne refl)
      by_offsets (off ∷ offs) slots n m all ne =
          rw (node, ==_self blk)
            (clear_adj_slots-read pg slots (st.rel.page blk).special idx all fits)

  -- Two versions of a node on a node page share the index of their header, as `update_node` leaves
  -- them. Once the old version is dead to all, the vacuum of the page keeps the new version
  -- readable, and zeroes its header: the node has lost all its edges. The indices lie inside the
  -- special area, and PostgreSQL's repair of a page keeps what it promises.
  pub reclaim-shared :
      RepairsPages pg
      → (snapshot : Snapshot) (blk : ℕ) (st : NodeStore) (old new : ℕ) (r : NodeRecord)
      → let page = st.rel.page blk in
        let found = scan_items pg precedes oldest page (offsets page.items) in
        let st' = reclaim pg precedes oldest blk found st in
        is_node_page page ≡ true
        → All (HasSlot page.special) found.dead_adj_slots
        → HasSlot page.special r.adj_slot_idx
        → 1 ≤ old
        → old ≤ page.items.max_off
        → verdict pg precedes oldest (page.items.slot old) ≡ dead
        → has_adj_slot pg precedes oldest page (page.items.slot old) ≡ true
        → stored_adj_slot pg (page.items.slot old) ≡ r.adj_slot_idx
        → read_node_at_offset pg snapshot page new ≡ some r
        → (read_node_at_offset pg snapshot (st'.rel.page blk) new ≡ some r)
          × (read_adj_header (st'.rel.page blk).special r.adj_slot_idx ≡ zeros adj_header_bytes)
  reclaim-shared repairs snapshot blk st old new r node all fits one le gone slot shared reads =
      let page = st.rel.page blk in
      let found = scan_items pg precedes oldest page (offsets page.items) in
      let (there, some_dead) =
        scan_items-elem page 1 page.items.max_off old one (omega arith) gone slot in
      let hit : elem r.adj_slot_idx found.dead_adj_slots ≡ true = rw (← shared) there in
      (
        reclaim-read pg precedes oldest repairs snapshot blk (offsets page.items) st blk new r
            reads,
        rw (reclaim-headers blk st r.adj_slot_idx node all fits some_dead, hit),
      )
