-- ===== src/Edges/Sample.antt =====
-- storage/edge_store.rs: a small PostgreSQL in which an item takes a new line pointer.
use pg_eddy.Common.{
  ℕ, ◌+◌, ◌^◌, ◌<◌, ◌≡◌, refl, ap, inl, inr, true, false, none, some, List, [], ◌∷◌, ◌==◌, ==_self,
  Bool-cases, if◌then◌else◌, arith, ltb, ltb→lt, length, take,
}
use pg_eddy.Edges.{lp_normal, lp_unused, TupleHeader, Item, Slot, Page, Postgres}
use pg_eddy.Edges.Store.{set_slot}
use pg_eddy.Edges.Added.{Added, AddsItems}

abbrev pub test_header : TupleHeader
test_header = record {
  xmin = 3;
  xmax = 0;
  cmin = 0;
  xmin_committed = true;
  xmin_invalid = false;
  xmax_invalid = true;
  ctid = none;
}

abbrev pub unused : Slot
unused = record { lp_flags = lp_unused; lp_len = 0; header = test_header; memory = [] }

-- A new line pointer for each item.
abbrev pub slot_of : Item → Slot
slot_of item = record {
  lp_flags = lp_normal;
  lp_len = 24 + length item.bytes;
  header = item.header;
  memory = item.bytes;
}

abbrev pub page_with : Page → Item → Page
page_with page item = record (set_slot (page.max_off + 1) (slot_of item) page) {
  max_off = page.max_off + 1;
}

abbrev pub test_pg : Postgres
test_pg = record {
  hdr_size = 24;
  current_xid = 9;
  current_cid = 0;
  is_current_xid = λ x. x == 9;
  did_commit = λ x. x == 3;
  item_id_size = 4;
  page_init = record { max_off = 0; slot = λ o. unused; pd_lower = 24; pd_upper = 8192 };
  page_add_item = λ page item.
      if ltb (page.max_off + 1) (2 ^ 16)
      then some (page_with page item, page.max_off + 1)
      else none;
}

pub take_whole : (xs : List ℕ) → take (length xs) xs ≡ xs
take_whole [] = refl
take_whole (x ∷ xs) = ap (λ t. x ∷ t) (take_whole xs)

pub page_with-Added :
    (page : Page) (item : Item)
    → page.max_off + 1 < 2 ^ 16
    → Added test_pg page item (page_with page item) (page.max_off + 1)
page_with-Added page item small =
    let new = page.max_off + 1 in
    let self : (new == new) ≡ true = ==_self new in
    record {
      numbered = λ e. omega (arith, e);
      small = small;
      fresh = inl (omega arith);
      flags = rw self;
      len = rw self;
      bytes = rw self (take_whole item.bytes);
      header = rw self;
      others = λ o ne. let differ : (o == new) ≡ false = ground arith in rw differ;
      grown = omega arith;
      inside = omega arith;
    }

pub test_pg-AddsItems : AddsItems test_pg
test_pg-AddsItems page item page' off e = elim (Bool-cases (ltb (page.max_off + 1) (2 ^ 16))) [
  | inr full ↦ absurd (cc (rw full at e))
  | inl room ↦
      let same_page : page_with page item ≡ page' = cc (rw room at e) in
      let same_off : page.max_off + 1 ≡ off = cc (rw room at e) in
      rw (← same_page, ← same_off) (page_with-Added page item (ltb→lt _ _ room))
]
