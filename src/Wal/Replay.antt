-- ===== src/Wal/Replay.antt =====
-- storage/edge_store.rs and storage/wal.rs: replaying what `insert_edge` has logged of the headers.
use pg_eddy.Common.{
  ℕ, ◌+◌, ◌*◌, ◌%◌, ◌^◌, ◌≤◌, ◌<◌, ◌≡◌, refl, sym, ap, ◌∙◌, ==_self, Bool, true, Option, List, [],
  ◌∷◌, ◌++◌, arith, ltb, ◌==◌, if◌then◌else◌, Bool-cases, Option-cases, inl, inr, length,
  length-take, Result, ok, ◌>>=◌, take, drop, take_front, drop_front,
}
use pg_eddy.Common.Int.{ℤ}
use pg_eddy.Common.Position.{drop_add}
use pg_eddy.Page.{put, adj_header_bytes, NodeAdjHeader, in_degree}
use pg_eddy.Edges.{Item, Page}
use pg_eddy.Edges.Headers.{HasSlot, source_header-fields, target_header-fields}
use pg_eddy.Edges.Store.{
  Store, StoreError, LogEntry, lock_node_page, edge_inserted, adj_updated, edge_deleted,
  set_special, write_adj_header, lock_order, source_header, target_header, find_or_extend_edge_page,
  new_header, link_at,
}
use pg_eddy.Edges.{build_edge_data}
use pg_eddy.Page.{out_head_pg, out_head_sl, in_head_pg, in_head_sl}
use pg_eddy.Edges.Added.{AddsItems, find_or_extend_edge_page-Keeps}
use pg_eddy.Nodes.{NodePage, NodePostgres}
use pg_eddy.Wal.{RedoError, blk_needs_redo, log_adj_update, rmgr_redo}
use pg_eddy.Wal.Redo.{redo-write_adj_header}

-- Writing twice to one place.
put_twice :
    (off : ℕ) (xs ys buf : List ℕ)
    → length xs ≡ length ys
    → off + length ys ≤ length buf
    → put off ys (put off xs buf) ≡ put off ys buf
unfolding put
put_twice off xs ys buf e fits =
    let front = take off buf in
    let n : length front ≡ off = length-take off buf (omega arith) in
    let behind = drop (off + length xs) buf in
    let rest : drop (off + length ys) (front ++ (xs ++ behind)) ≡ behind =
      drop_add off (length ys) (off + length ys) (front ++ (xs ++ behind)) refl
      ∙ ap (drop (length ys)) (drop_front off front (xs ++ behind) n)
      ∙ drop_front (length ys) xs behind e in
    rw (take_front off front (xs ++ behind) n, rest, e)

ok-injective : {a b : Store} → Path (Result StoreError Store) (ok a) (ok b) → a ≡ b
ok-injective e = cc

abbrev pub set_at : ℕ → NodePage → (ℕ → NodePage) → ℕ → NodePage
set_at blk page pages b = if b == blk then page else pages b

module _ (pg : NodePostgres) (page_put_item : Page → Item → ℕ → Option Page) where
  -- The redo of a log on the pages of the node relation, each of which needs it. The entries of the
  -- edge relation and the locks are nothing here.
  pub replay : List LogEntry → (ℕ → NodePage) → Result RedoError (ℕ → NodePage)
  replay [] pages = ok pages
  replay (lock_node_page blk ∷ entries) pages = replay entries pages
  replay (edge_inserted blk off item ∷ entries) pages = replay entries pages
  replay (edge_deleted blk off xmax ∷ entries) pages = replay entries pages
  replay (adj_updated blk idx hdr ∷ entries) pages =
      rmgr_redo pg page_put_item (log_adj_update (idx % 2 ^ 16) hdr) blk_needs_redo (pages blk)
      >>= λ page. replay entries (set_at blk page pages)

  -- The special areas of the pages.
  abbrev pub HasSpecials : (ℕ → NodePage) → (ℕ → List ℕ) → Type 0
  HasSpecials pages special = (b : ℕ) → (pages b).special ≡ special b

  replay-adj_updated :
      (blk idx : ℕ) (hdr : NodeAdjHeader) (entries : List LogEntry) (pages : ℕ → NodePage)
      → idx < 2 ^ 16
      → length hdr ≡ adj_header_bytes
      → replay (adj_updated blk idx hdr ∷ entries) pages
        ≡ replay entries (
            set_at blk
              (record (pages blk) { special = write_adj_header (pages blk).special idx hdr })
              pages)
  unfolding replay
  replay-adj_updated blk idx hdr entries pages small whole =
      let wrap : idx % 2 ^ 16 ≡ idx = omega (arith, small) in
      rw (wrap, redo-write_adj_header pg page_put_item idx hdr (pages blk) small whole)

  written-HasSpecials :
      (blk idx : ℕ) (hdr : NodeAdjHeader) (pages : ℕ → NodePage) (special : ℕ → List ℕ)
      → HasSpecials pages special
      → HasSpecials
          (set_at blk
            (record (pages blk) { special = write_adj_header (pages blk).special idx hdr })
            pages)
          (set_special blk (write_adj_header (special blk) idx hdr) special)
  written-HasSpecials blk idx hdr pages special h b = elim (Bool-cases (b == blk)) [
    | inl here ↦ rw (here, h blk)
    | inr other ↦ rw other (h b)
  ]

  replay-lock_order :
      (a b : ℕ) (entries : List LogEntry) (pages : ℕ → NodePage)
      → replay (lock_order pg.base a b ++ entries) pages ≡ replay entries pages
  unfolding replay lock_order
  replay-lock_order a b entries pages = elim (Bool-cases (a == b)) [
    | inl same ↦ rw same
    | inr differ ↦ elim (Bool-cases (ltb a b)) [
      | inl lt ↦ rw (differ, lt)
      | inr ge ↦ rw (differ, ge)
    ]
  ]

  -- What the replay of some entries gives: pages with the special areas of the store.
  abbrev pub Rebuilds : List LogEntry → (ℕ → NodePage) → (ℕ → List ℕ) → Type 0
  Rebuilds entries pages special =
      (pages' : ℕ → NodePage) × (replay entries pages ≡ ok pages') × HasSpecials pages' special

  module _ (pages : ℕ → NodePage) (special : ℕ → List ℕ) (same : HasSpecials pages special) where
    Rebuilds-two :
        (s si t ti : ℕ) (h1 h2 : NodeAdjHeader)
        → si < 2 ^ 16
        → ti < 2 ^ 16
        → length h1 ≡ adj_header_bytes
        → length h2 ≡ adj_header_bytes
        → let mid = set_special s (write_adj_header (special s) si h1) special in
          Rebuilds
            (adj_updated s si h1 ∷ adj_updated t ti h2 ∷ [])
            pages
            (set_special t (write_adj_header (mid t) ti h2) mid)
    unfolding replay
    Rebuilds-two s si t ti h1 h2 small small' whole whole' =
        let first =
          set_at s (record (pages s) { special = write_adj_header (pages s).special si h1 })
            pages in
        let second =
          set_at t (record (first t) { special = write_adj_header (first t).special ti h2 })
            first in
        let mid = set_special s (write_adj_header (special s) si h1) special in
        (
          second,
          replay-adj_updated s si h1 (adj_updated t ti h2 ∷ []) pages small whole
              ∙ replay-adj_updated t ti h2 [] first small' whole',
          written-HasSpecials t ti h2 first mid (written-HasSpecials s si h1 pages special same),
        )

    -- The header of a self-loop is written twice and logged once.
    Rebuilds-loop :
        (s si : ℕ) (h1 h2 : NodeAdjHeader)
        → si < 2 ^ 16
        → length h1 ≡ adj_header_bytes
        → length h2 ≡ adj_header_bytes
        → HasSlot (special s) si
        → let mid = set_special s (write_adj_header (special s) si h1) special in
          Rebuilds
            (adj_updated s si h2 ∷ [])
            pages
            (set_special s (write_adj_header (mid s) si h2) mid)
    unfolding replay write_adj_header
    Rebuilds-loop s si h1 h2 small whole whole' fits =
        let first =
          set_at s (record (pages s) { special = write_adj_header (pages s).special si h2 })
            pages in
        let once = written-HasSpecials s si h2 pages special same in
        let twice =
          put_twice (si * adj_header_bytes) h1 h2 (special s) (whole ∙ sym whole')
            (omega (arith, fits, whole')) in
        (
          first,
          replay-adj_updated s si h2 [] pages small whole',
          λ b. elim (Bool-cases (b == s)) [
            | inl here ↦ let w = once b in rw (here, ==_self s, twice) (rw here at w)
            | inr other ↦ let w = once b in rw other (rw other at w)
          ],
        )

  -- Where crash recovery replays what a successful `insert_edge` has logged, on node pages that hold
  -- the special areas of before, each header is as `insert_edge` left it, also for a self-loop, whose
  -- header is written twice and logged once. The record of the new edge is not part of it.
  pub link_at-Rebuilds :
      (adds : AddsItems pg.base) (edge_id rel_type_id src_id tgt_id : ℤ) (props : List ℕ)
      (s si t ti : ℕ) (self_loop : Bool) (src_adj tgt_adj : NodeAdjHeader) (st st' : Store)
      (pages : ℕ → NodePage)
      → (self_loop ≡ true → (s ≡ t) × (si ≡ ti))
      → length src_adj ≡ adj_header_bytes
      → length tgt_adj ≡ adj_header_bytes
      → HasSlot (st.special s) si
      → si < 2 ^ 16
      → ti < 2 ^ 16
      → st.edges.nblocks < 2 ^ 32
      → HasSpecials pages st.special
      → link_at pg.base edge_id rel_type_id src_id tgt_id props s si t ti self_loop src_adj tgt_adj
          st
        ≡ ok st'
      → (entries : List LogEntry) × (st'.log ≡ st.log ++ entries)
        × Rebuilds entries pages st'.special
  unfolding link_at replay
  link_at-Rebuilds adds edge_id rel_type_id src_id tgt_id props s si t ti self_loop src_adj tgt_adj
        st st' pages loops whole whole' fits small small' room same e =
      let bytes =
        build_edge_data edge_id rel_type_id src_id tgt_id (out_head_pg src_adj)
          (out_head_sl src_adj) (in_head_pg tgt_adj) (in_head_sl tgt_adj) props in
      let item : Item = record { header = new_header pg.base; bytes = bytes } in
      let size = pg.base.hdr_size + length bytes in
      let found = find_or_extend_edge_page pg.base st.edges size in
      let (_, _, low) = find_or_extend_edge_page-Keeps pg.base st.edges size in
      elim (Option-cases (pg.base.page_add_item (found.0.page found.1) item)) [
        | inl full ↦ absurd (cc (rw (full, link_at) at e))
        | inr ((page', off), done) ↦
            let added = adds (found.0.page found.1) item page' off done in
            let small_blk : found.1 < 2 ^ 32 = omega (arith, low, room) in
            let (w1, _) =
              source_header-fields pg.base src_adj whole found.1 off small_blk added.small in
            let q = ok-injective (rw (done, link_at) at e) in
            let h1 = source_header pg.base src_adj found.1 off in
            let inserted = edge_inserted found.1 off item in
            elim (Bool-cases self_loop) [
              | inr apart ↦
                  let h2 = target_header pg.base tgt_adj (in_degree tgt_adj) found.1 off in
                  let (w2, _) =
                    target_header-fields pg.base tgt_adj whole' found.1 off small_blk added.small
                      (in_degree tgt_adj) in
                  let (pages', run, good) =
                    Rebuilds-two pages st.special same s si t ti h1 h2 small small' w1 w2 in
                  rw (← q, apart)
                    (
                      lock_order pg.base s t
                          ++ (inserted ∷ adj_updated s si h1 ∷ adj_updated t ti h2 ∷ []),
                      refl,
                      (
                        pages',
                        replay-lock_order s t
                              (inserted ∷ adj_updated s si h1 ∷ adj_updated t ti h2 ∷ []) pages
                            ∙ run,
                        good,
                      ),
                    )
              | inl loop ↦
                  let (es, ei) = loops loop in
                  let h2 = target_header pg.base h1 (in_degree tgt_adj) found.1 off in
                  let (w2, _) =
                    target_header-fields pg.base h1 w1 found.1 off small_blk added.small
                      (in_degree tgt_adj) in
                  let (pages', run, good) =
                    Rebuilds-loop pages st.special same s si h1 h2 small w1 w2 fits in
                  rw (← q, loop, ← es, ← ei)
                    (
                      lock_order pg.base s s ++ (inserted ∷ adj_updated s si h2 ∷ []),
                      refl,
                      (
                        pages',
                        replay-lock_order s s (inserted ∷ adj_updated s si h2 ∷ []) pages ∙ run,
                        good,
                      ),
                    )
            ]
      ]
