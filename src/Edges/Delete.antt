-- ===== src/Edges/Delete.antt =====
-- storage/edge_store.rs: `delete_edge` marks one edge and leaves the chains as they are.
use pg_eddy.Common.{
  ℕ, ◌≤◌, ◌<◌, ◌≡◌, ◌≢◌, refl, sym, ap, ◌⊎◌, inl, inr, Bool, true, List, [], ◌∷◌, arith, ◌==◌,
  Bool-cases, Option-cases,
}
use pg_eddy.Common.Int.{ℤ}
use pg_eddy.Edges.{EdgeRelation, Postgres, Slot, Page}
use pg_eddy.Edges.Scan.{offsets, blocks}
use pg_eddy.Edges.Follow.{followable, next_of}
use pg_eddy.Edges.Chain.{Chain, chain_end, chain_link}
use pg_eddy.Edges.Store.{Store, set_slot, set_page}
use pg_eddy.Edges.Update.{find_victim, mark_deleted, delete_from, delete_edge}

-- Where a slot of a relation comes from, one of whose slots has been set.
module _ (blk off : ℕ) (s : Slot) (page : Page) (rel : EdgeRelation) where
  abbrev pub changed : EdgeRelation
  changed = set_page blk (set_slot off s page) rel

  pub changed-cases :
      (p o : ℕ)
      → ((p ≡ blk) × (o ≡ off) × ((changed.page p).slot o ≡ s))
        ⊎ ((p ≡ blk) × (o ≢ off) × ((changed.page p).slot o ≡ page.slot o))
        ⊎ ((p ≢ blk) × ((changed.page p).slot o ≡ (rel.page p).slot o))
  changed-cases p o = elim (Bool-cases (p == blk)) [
    | inr other ↦ inr (inr (ground arith, rw other))
    | inl here ↦ elim (Bool-cases (o == off)) [
      | inl same ↦ inl (ground arith, ground arith, rw (here, same))
      | inr differ ↦ inr (inl (ground arith, ground arith, rw (here, differ)))
    ]
  ]

module _ (pg : Postgres) where
  -- What is in a slot of `rel`, if a chain can run through it, is as good in `rel'`.
  pub record Keeps (rel rel' : EdgeRelation) : Type 0 where
    pub size : rel.nblocks ≤ rel'.nblocks
    pub live :
        (p o : ℕ)
        → p < rel.nblocks
        → o ≤ (rel.page p).max_off
        → followable pg ((rel.page p).slot o) ≡ true
        → (o ≤ (rel'.page p).max_off) × (followable pg ((rel'.page p).slot o) ≡ true)
    pub next :
        (is_out : Bool) (p o : ℕ)
        → p < rel.nblocks
        → o ≤ (rel.page p).max_off
        → followable pg ((rel.page p).slot o) ≡ true
        → next_of pg is_out ((rel'.page p).slot o) ≡ next_of pg is_out ((rel.page p).slot o)

  pub Chain-Keeps :
      (rel rel' : EdgeRelation) (is_out : Bool) (p sl : ℕ) (places : List (ℕ × ℕ))
      → Keeps rel rel'
      → Chain pg rel is_out p sl places
      → Chain pg rel' is_out p sl places
  Chain-Keeps rel rel' is_out p sl _ k chain_end = chain_end
  Chain-Keeps rel rel' is_out p sl _ k (chain_link {places = places} ne lt inside live rest) =
      let same = k.next is_out p sl lt inside live in
      let (inside', live') = k.live p sl lt inside live in
      chain_link ne (omega (arith, k.size)) inside' live' (
        rw same (
          Chain-Keeps rel rel' is_out (next_of pg is_out ((rel.page p).slot sl)).0
            (next_of pg is_out ((rel.page p).slot sl)).1 places k rest))

  pub Keeps-refl : (rel : EdgeRelation) → Keeps rel rel
  Keeps-refl rel = record {
    size = omega arith;
    live = λ p o lt le h. (le, h);
    next = λ is_out p o lt le h. refl;
  }

  -- Another header in one slot.
  mark_deleted-cases :
      (rel : EdgeRelation) (blk off p o : ℕ)
      → let rel' = changed blk off (mark_deleted pg ((rel.page blk).slot off)) (rel.page blk) rel in
        ((rel'.page p).slot o ≡ mark_deleted pg ((rel.page p).slot o))
        ⊎ ((rel'.page p).slot o ≡ (rel.page p).slot o)
  mark_deleted-cases rel blk off p o =
      elim (changed-cases blk off (mark_deleted pg ((rel.page blk).slot off)) (rel.page blk) rel p
        o) [
          | inl (e, e', q) ↦ inl (rw (e, e') (rw (e, e') at q))
          | inr (inl (e, ne, q)) ↦ inr (rw e (rw e at q))
          | inr (inr (ne, q)) ↦ inr q
        ]

  max_off-mark_deleted :
      (rel : EdgeRelation) (blk off p : ℕ)
      → ((changed blk off (mark_deleted pg ((rel.page blk).slot off)) (rel.page blk) rel).page
          p).max_off
        ≡ (rel.page p).max_off
  max_off-mark_deleted rel blk off p = elim (Bool-cases (p == blk)) [
    | inl here ↦ let e : p ≡ blk = ground arith in rw here (ap (λ b. (rel.page b).max_off) (sym e))
    | inr other ↦ rw other
  ]

  Keeps-mark_deleted :
      (rel : EdgeRelation) (blk off : ℕ)
      → Keeps rel (changed blk off (mark_deleted pg ((rel.page blk).slot off)) (rel.page blk) rel)
  Keeps-mark_deleted rel blk off = record {
    size = omega arith;
    live = λ p o lt le h. (
      rw (max_off-mark_deleted rel blk off p) le,
      elim (mark_deleted-cases rel blk off p o) [ inl e ↦ rw e h | inr e ↦ rw e h ],
    );
    next = λ is_out p o lt le h. elim (mark_deleted-cases rel blk off p o) [
      | inl e ↦ rw e
      | inr e ↦ rw e
    ];
  }

  Keeps-delete_from :
      (edge_id : ℤ) (blks : List ℕ) (st : Store)
      → Keeps st.edges (delete_from pg edge_id blks st).0.edges
  unfolding delete_from
  Keeps-delete_from edge_id [] st = Keeps-refl st.edges
  Keeps-delete_from edge_id (blkno ∷ blks) st =
      let page = st.edges.page blkno in
      elim (Option-cases (find_victim pg page edge_id (offsets page))) [
        | inl none_here ↦ rw (none_here, delete_from) (Keeps-delete_from edge_id blks st)
        | inr (off, found) ↦ rw (found, delete_from) (Keeps-mark_deleted st.edges blkno off)
      ]

  -- Deleting an edge leaves every adjacency chain as it was, in both directions: a traversal still
  -- runs through the deleted edge's place, to the same places behind it.
  pub delete_edge-Chain :
      (edge_id : ℤ) (st : Store) (is_out : Bool) (p sl : ℕ) (places : List (ℕ × ℕ))
      → Chain pg st.edges is_out p sl places
      → Chain pg (delete_edge pg edge_id st).0.edges is_out p sl places
  unfolding delete_edge
  delete_edge-Chain edge_id st is_out p sl places chain =
      Chain-Keeps st.edges _ is_out p sl places (Keeps-delete_from edge_id (blocks st.edges) st)
        chain
