-- ===== src/Edges/Agree.antt =====
-- storage/edge_store.rs: the three scans over all pages see the same edges.
use pg_eddy.Common.{
  ℕ, ◌+◌, ◌≡◌, refl, sym, ap, ◌∙◌, inl, inr, Option, none, some, Option-cases, List, [], ◌∷◌, ◌++◌,
  arith, length, length-append, if◌then◌else◌, Bool-cases,
}
use pg_eddy.Common.Int.{ℤ, eq_ℤ}
use pg_eddy.Edges.{EdgeRecord, Page, EdgeRelation, Postgres}
use pg_eddy.Edges.Scan.{
  offsets, blocks, read_edge_at_offset, page_edges, scan_blocks, scan_all_edges, count_page,
  count_blocks, count_edges, find_on_page, find_blocks, find_edge_by_id,
}

-- The first edge of a list with an id.
unfoldable pub first_with : ℤ → List EdgeRecord → Option EdgeRecord
first_with edge_id [] = none
first_with edge_id (r ∷ rs) = if eq_ℤ r.edge_id edge_id then some r else first_with edge_id rs

abbrev or_else : Option EdgeRecord → Option EdgeRecord → Option EdgeRecord
or_else none later = later
or_else (some r) later = some r

first_with-append :
    (edge_id : ℤ) (rs more : List EdgeRecord)
    → first_with edge_id (rs ++ more) ≡ or_else (first_with edge_id rs) (first_with edge_id more)
unfolding first_with
first_with-append edge_id [] more = refl
first_with-append edge_id (r ∷ rs) more = elim (Bool-cases (eq_ℤ r.edge_id edge_id)) [
  | inl hit ↦ rw hit
  | inr miss ↦ rw miss (first_with-append edge_id rs more)
]

module _ (pg : Postgres) where
  count_page-page_edges :
      (page : Page) (blkno : ℕ) (offs : List ℕ) (count : ℕ)
      → count_page pg page blkno offs count ≡ count + length (page_edges pg page blkno offs)
  unfolding count_page page_edges
  count_page-page_edges page blkno [] count = omega arith
  count_page-page_edges page blkno (off ∷ offs) count =
      elim (Option-cases (read_edge_at_offset pg page blkno off)) [
        | inl hidden ↦
            rw (hidden, count_page, page_edges) (count_page-page_edges page blkno offs count)
        | inr (r, seen) ↦
            rw (seen, count_page, page_edges)
              (omega (arith, count_page-page_edges page blkno offs (count + 1)))
      ]

  count_blocks-scan_blocks :
      (rel : EdgeRelation) (blks : List ℕ) (count : ℕ)
      → count_blocks pg rel blks count ≡ count + length (scan_blocks pg rel blks)
  unfolding count_blocks scan_blocks
  count_blocks-scan_blocks rel [] count = omega arith
  count_blocks-scan_blocks rel (blkno ∷ blks) count =
      let page = rel.page blkno in
      let here = page_edges pg page blkno (offsets page) in
      omega (
        arith,
        count_blocks-scan_blocks rel blks (count_page pg page blkno (offsets page) count),
        count_page-page_edges page blkno (offsets page) count,
        length-append here (scan_blocks pg rel blks),
      )

  find_on_page-page_edges :
      (page : Page) (blkno : ℕ) (edge_id : ℤ) (offs : List ℕ)
      → find_on_page pg page blkno edge_id offs ≡ first_with edge_id (page_edges pg page blkno offs)
  unfolding find_on_page page_edges first_with
  find_on_page-page_edges page blkno edge_id [] = refl
  find_on_page-page_edges page blkno edge_id (off ∷ offs) =
      elim (Option-cases (read_edge_at_offset pg page blkno off)) [
        | inl hidden ↦
            rw (hidden, find_on_page, page_edges) (find_on_page-page_edges page blkno edge_id offs)
        | inr (r, seen) ↦
            rw (seen, find_on_page, page_edges)
              (ap (λ t. if eq_ℤ r.edge_id edge_id then some r else t)
                (find_on_page-page_edges page blkno edge_id offs))
      ]

  find_blocks-scan_blocks :
      (rel : EdgeRelation) (edge_id : ℤ) (blks : List ℕ)
      → find_blocks pg rel edge_id blks ≡ first_with edge_id (scan_blocks pg rel blks)
  unfolding find_blocks scan_blocks first_with
  find_blocks-scan_blocks rel edge_id [] = refl
  find_blocks-scan_blocks rel edge_id (blkno ∷ blks) =
      let page = rel.page blkno in
      let here = page_edges pg page blkno (offsets page) in
      let on_page = find_on_page-page_edges page blkno edge_id (offsets page) in
      let split = first_with-append edge_id here (scan_blocks pg rel blks) in
      elim (Option-cases (find_on_page pg page blkno edge_id (offsets page))) [
        | inl missing ↦
            rw (missing, find_blocks)
              (find_blocks-scan_blocks rel edge_id blks
                ∙ sym (
                    split
                    ∙ ap (λ t. or_else t (first_with edge_id (scan_blocks pg rel blks)))
                        (sym on_page ∙ missing)))
        | inr (r, found) ↦
            rw (found, find_blocks)
              (sym (
                split
                ∙ ap (λ t. or_else t (first_with edge_id (scan_blocks pg rel blks)))
                    (sym on_page ∙ found)))
      ]

  -- `count_edges` counts the edges that `scan_all_edges` returns, and `find_edge_by_id` finds the
  -- first of them with the id, or nothing if there is none.
  pub scans_agree :
      (rel : EdgeRelation) (edge_id : ℤ)
      → (count_edges pg rel ≡ length (scan_all_edges pg rel))
        × (find_edge_by_id pg rel edge_id ≡ first_with edge_id (scan_all_edges pg rel))
  unfolding count_edges scan_all_edges find_edge_by_id
  scans_agree rel edge_id = (
    omega (arith, count_blocks-scan_blocks rel (blocks rel) 0),
    find_blocks-scan_blocks rel edge_id (blocks rel),
  )
