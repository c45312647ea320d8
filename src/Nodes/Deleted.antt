-- ===== src/Nodes/Deleted.antt =====
-- storage/node_store.rs: after `delete_node_by_id` the node is gone, and only that node.
use pg_eddy.Common.{
  ℕ, ◌+◌, ◌^◌, ◌≡◌, ◌≢◌, refl, Bool, true, false, not, ◌&&◌, Option, none, some, arith, ◌==◌,
  ==_self, Bool-cases, Option-cases, inl, inr, ◌⊎◌, ltb,
}
use pg_eddy.Common.Bytes.{from_le}
use pg_eddy.Common.Int.{ℤ, eq_ℤ, from_bits}
use pg_eddy.Page.{slice}
use pg_eddy.Edges.{Slot}
use pg_eddy.Edges.Scan.{is_normal, item_data}
use pg_eddy.Edges.Update.{mark_deleted}
use pg_eddy.Nodes.{NodeRelation, NodePostgres, node_fixed_data_size}
use pg_eddy.Nodes.Locate.{is_live_node, find_node_location}
use pg_eddy.Nodes.Located.{LiveAt, located-alive}
use pg_eddy.Nodes.Store.{NodeStore, mark_node_deleted, delete_node_by_id}

and_false : (a b c : Bool) → (a && (b && (c && false))) ≡ false
and_false a b c = ground arith

module _ (pg : NodePostgres) where
  mark_deleted-dead :
      (s : Slot) (node_id : ℤ) → is_live_node pg (mark_deleted pg.base s) node_id ≡ false
  unfolding is_live_node
  mark_deleted-dead s node_id =
      and_false (is_normal s.lp_flags)
        (not (ltb s.lp_len (pg.base.hdr_size + node_fixed_data_size)))
        (eq_ℤ (from_bits (2 ^ 63) (from_le (slice (item_data pg.base s) 0 8))) node_id)

  pub mark_node_deleted-cases :
      (rel : NodeRelation) (blk off b o : ℕ)
      → let old = (rel.page b).items.slot o in
        let new = ((mark_node_deleted pg rel blk off).page b).items.slot o in
        ((b ≡ blk) × (o ≡ off) × (new ≡ mark_deleted pg.base old))
        ⊎ (((b ≡ blk → o ≢ off)) × (new ≡ old))
  unfolding mark_node_deleted
  mark_node_deleted-cases rel blk off b o = elim (Bool-cases (b == blk)) [
    | inr other ↦ inr ((λ q. absurd (cc (rw (q, ==_self blk) at other))), rw other)
    | inl here ↦
        let e : b ≡ blk = ground arith in
        elim (Bool-cases (o == off)) [
          | inl there ↦ let e' : o ≡ off = ground arith in inl (e, e', rw (here, there, e, e'))
          | inr differ ↦ inr ((λ _. λ q. cc (rw (q, ==_self off) at differ)), rw (here, differ, e))
        ]
  ]

  module _ (rel : NodeRelation) (node_id : ℤ)
      (unique : (b o b' o' : ℕ)
        → LiveAt pg rel node_id b o
        → LiveAt pg rel node_id b' o'
        → (b ≡ b') × (o ≡ o'))
      (blk off : ℕ) (live : LiveAt pg rel node_id blk off) where
    marked-dead :
        (b o : ℕ)
        → is_live_node pg (((mark_node_deleted pg rel blk off).page b).items.slot o) node_id ≡ false
    marked-dead b o = elim (mark_node_deleted-cases rel blk off b o) [
      | inl (e, e', q) ↦ rw q (mark_deleted-dead ((rel.page b).items.slot o) node_id)
      | inr (away, q) ↦
          rw q (elim (Bool-cases (is_live_node pg ((rel.page b).items.slot o) node_id)) [
            | inr dead ↦ dead
            | inl alive ↦ let (e, e') = unique b o blk off alive live in absurd (away e e')
          ])
    ]

    pub marked-gone :
        (lookup_cached_location : ℤ → Option (ℕ × ℕ))
        → find_node_location pg lookup_cached_location (mark_node_deleted pg rel blk off) node_id
          ≡ none
    marked-gone lookup_cached_location =
        let rel' = mark_node_deleted pg rel blk off in
        elim (Option-cases (find_node_location pg lookup_cached_location rel' node_id)) [
          | inl gone ↦ gone
          | inr ((b, o, adj), found) ↦
              let (alive, _) = located-alive pg rel' node_id lookup_cached_location b o adj found in
              absurd (cc (marked-dead b o))
        ]

  -- Where at most one item is a live node with the id, `delete_node_by_id` says that it deleted the
  -- node exactly when `find_node_location` located it. If it did not, the store is as it was. If it
  -- did, the item at the location is marked deleted, the node is located no more, whatever a cache
  -- still holds, and all other items are as they were.
  pub delete_node_by_id-gone :
      (node_id : ℤ) (st : NodeStore) (lookup_cached_location : ℤ → Option (ℕ × ℕ))
      → ((b o b' o' : ℕ)
          → LiveAt pg st.rel node_id b o
          → LiveAt pg st.rel node_id b' o'
          → (b ≡ b') × (o ≡ o'))
      → let (st', done) = delete_node_by_id pg lookup_cached_location node_id st in
        ((done ≡ false)
          × (st' ≡ st)
          × (find_node_location pg lookup_cached_location st.rel node_id ≡ none))
        ⊎ ((blk : ℕ) × (off : ℕ) × (adj : ℕ) × (done ≡ true)
            × (find_node_location pg lookup_cached_location st.rel node_id ≡ some (blk, off, adj))
            × LiveAt pg st.rel node_id blk off
            × ((st'.rel.page blk).items.slot off
                ≡ mark_deleted pg.base ((st.rel.page blk).items.slot off))
            × ((cache : ℤ → Option (ℕ × ℕ)) → find_node_location pg cache st'.rel node_id ≡ none)
            × ((b o : ℕ)
                → (b ≡ blk → o ≢ off)
                → (st'.rel.page b).items.slot o ≡ (st.rel.page b).items.slot o))
  unfolding delete_node_by_id
  delete_node_by_id-gone node_id st lookup_cached_location unique =
      elim (Option-cases (find_node_location pg lookup_cached_location st.rel node_id)) [
        | inl missing ↦ rw (missing, delete_node_by_id) (inl (refl, refl, refl))
        | inr ((blk, off, adj), found) ↦
            let (live, _) =
              located-alive pg st.rel node_id lookup_cached_location blk off adj found in
            rw (found, delete_node_by_id)
              (inr (
                blk,
                off,
                adj,
                refl,
                refl,
                live,
                marked_there blk off (mark_node_deleted-cases st.rel blk off blk off),
                marked-gone st.rel node_id unique blk off live,
                λ b o ne. elim (mark_node_deleted-cases st.rel blk off b o) [
                  | inl (e, e', q) ↦ absurd (ne e e')
                  | inr (away, q) ↦ q
                ],
              ))
      ]
    where
      marked_there :
          (blk off : ℕ)
          → (let old = (st.rel.page blk).items.slot off in
              let new = ((mark_node_deleted pg st.rel blk off).page blk).items.slot off in
              ((blk ≡ blk) × (off ≡ off) × (new ≡ mark_deleted pg.base old))
              ⊎ ((blk ≡ blk → off ≢ off) × (new ≡ old)))
          → ((mark_node_deleted pg st.rel blk off).page blk).items.slot off
            ≡ mark_deleted pg.base ((st.rel.page blk).items.slot off)
      marked_there blk off (inl (e, e', q)) = q
      marked_there blk off (inr (away, q)) = absurd (away refl refl)
