-- ===== src/Nodes/Counted.antt =====
-- storage/node_store.rs: the scans over the node relation agree with one another.
use pg_eddy.Common.{
  ℕ, zero, suc, ◌+◌, ◌-◌, ◌≤◌, ◌<◌, ◌≡◌, refl, ap, ◌∙◌, Option, none, some, List, [], ◌∷◌, ◌++◌,
  arith, Bool-cases, Option-cases, inl, inr, if◌then◌else◌, length, length-append, take,
}
use pg_eddy.Edges.Scan.{upto, offsets}
use pg_eddy.Nodes.{NodeRecord, NodePage, NodeRelation, NodePostgres, Snapshot}
use pg_eddy.Nodes.Scan.{
  is_overflow_page, resolve, read_node_at_offset, page_locations, location_blocks,
  scan_all_node_locations, count_page, count_blocks, count_nodes, ScanState, next_on_page,
  next_loop, begin, next, next_block,
}

module _ (pg : NodePostgres) (snapshot : Snapshot) where
  count_page-locations :
      (page : NodePage) (blk : ℕ) (offs : List ℕ) (n : ℕ)
      → count_page pg snapshot page offs n ≡ n + length (page_locations pg snapshot page blk offs)
  unfolding count_page page_locations
  count_page-locations page blk [] n = omega arith
  count_page-locations page blk (off ∷ offs) n =
      elim (Option-cases (read_node_at_offset pg snapshot page off)) [
        | inl nothing ↦ rw (nothing, page_locations) (count_page-locations page blk offs n)
        | inr (r, found) ↦
            rw (found, page_locations) (omega (arith, count_page-locations page blk offs (n + 1)))
      ]

  count_blocks-locations :
      (rel : NodeRelation) (blks : List ℕ) (n : ℕ)
      → count_blocks pg snapshot rel blks n ≡ n + length (location_blocks pg snapshot rel blks)
  unfolding count_blocks location_blocks
  count_blocks-locations rel [] n = omega arith
  count_blocks-locations rel (blk ∷ blks) n = elim (Bool-cases (is_overflow_page (rel.page blk))) [
    | inl skip ↦ rw skip (count_blocks-locations rel blks n)
    | inr plain ↦
        let here = page_locations pg snapshot (rel.page blk) blk (offsets (rel.page blk).items) in
        rw plain (
          omega (
            arith,
            count_blocks-locations rel blks
                (count_page pg snapshot (rel.page blk) (offsets (rel.page blk).items) n),
            count_page-locations (rel.page blk) blk (offsets (rel.page blk).items) n,
            length-append here (location_blocks pg snapshot rel blks),
          ))
  ]

  -- `count_nodes` counts what `scan_all_node_locations` lists.
  pub count_nodes-locations :
      (rel : NodeRelation)
      → count_nodes pg snapshot rel ≡ length (scan_all_node_locations pg snapshot rel)
  unfolding count_nodes scan_all_node_locations
  count_nodes-locations rel = omega (arith, count_blocks-locations rel (upto 0 rel.nblocks) 0)

  -- The records of one page from an offset on, and of `n` blocks from a block on: what a scan is to
  -- yield, with the properties in place.
  pub page_nodes : NodeRelation → NodePage → (off n : ℕ) → List NodeRecord
  page_nodes rel page off zero = []
  page_nodes rel page off (suc n) =
      let rest = page_nodes rel page (suc off) n in
      elim (read_node_at_offset pg snapshot page off) [
        | none ↦ rest
        | some r ↦ resolve rel r ∷ rest
      ]

  pub block_nodes : NodeRelation → (blk n : ℕ) → List NodeRecord
  unfolding page_nodes
  block_nodes rel blk zero = []
  block_nodes rel blk (suc n) =
      let page = rel.page blk in
      let here : List NodeRecord =
        if is_overflow_page page then [] else page_nodes rel page 1 page.items.max_off in
      here ++ block_nodes rel (blk + 1) n

  -- What is left for a scan, with `left` blocks from the current one on.
  left_over : NodeRelation → (left : ℕ) → ScanState → List NodeRecord
  unfolding page_nodes
  left_over rel zero st = []
  left_over rel (suc left) st =
      let page = rel.page st.current_blk in
      let here : List NodeRecord =
        if is_overflow_page page
        then []
        else page_nodes rel page st.current_off (page.items.max_off + 1 - st.current_off) in
      here ++ left_over rel left (next_block pg snapshot st)

  -- Calling `next` until it gives no more, at most `n` times.
  pub drain : ℕ → NodeRelation → ScanState → List NodeRecord
  drain zero rel st = []
  drain (suc n) rel st = elim (next pg snapshot rel st).0 [
    | none ↦ []
    | some r ↦ r ∷ drain n rel (next pg snapshot rel st).1
  ]

  next_on_page-none :
      (rel : NodeRelation) (page : NodePage) (off n : ℕ)
      → next_on_page pg snapshot page off n ≡ none
      → page_nodes rel page off n ≡ []
  unfolding next_on_page page_nodes
  next_on_page-none rel page off zero e = refl
  next_on_page-none rel page off (suc n) e =
      elim (Option-cases (read_node_at_offset pg snapshot page off)) [
        | inl nothing ↦
            rw (nothing, page_nodes)
              (next_on_page-none rel page (suc off) n (rw (nothing, next_on_page) at e))
        | inr (r, found) ↦ absurd (cc (rw (found, next_on_page) at e))
      ]

  next_on_page-some :
      (rel : NodeRelation) (page : NodePage) (off n : ℕ) (r : NodeRecord) (off' : ℕ)
      → next_on_page pg snapshot page off n ≡ some (r, off')
      → (off < off')
        × (off' ≤ off + n)
        × ((m : ℕ)
            → m ≡ off + n - off'
            → page_nodes rel page off n ≡ resolve rel r ∷ page_nodes rel page off' m)
  unfolding next_on_page page_nodes
  next_on_page-some rel page off zero r off' e = cc
  next_on_page-some rel page off (suc n) r off' e =
      elim (Option-cases (read_node_at_offset pg snapshot page off)) [
        | inl nothing ↦
            let (lt, le, rest) =
              next_on_page-some rel page (suc off) n r off' (rw (nothing, next_on_page) at e) in
            (omega arith, omega arith, λ m q. rw (nothing, page_nodes) (rest m (omega arith)))
        | inr (x, found) ↦
            let same : x ≡ r = cc (rw (found, next_on_page) at e) in
            let same_off : suc off ≡ off' = cc (rw (found, next_on_page) at e) in
            rw (← same_off, ← same)
              (
                omega arith,
                omega arith,
                λ m q.
                    let k : n ≡ m = omega arith in
                    rw (found, page_nodes)
                      (ap (λ t. resolve rel x ∷ page_nodes rel page (suc off) t) k),
              )
      ]

  -- One call of `next`: it gives the first of what is left, and leaves the others.
  abbrev Steps : NodeRelation → List NodeRecord → Option NodeRecord × ScanState → Type 0
  Steps rel xs (none, st) = xs ≡ []
  Steps rel xs (some r, st) = xs ≡ r ∷ left_over rel (st.scan_nblocks - st.current_blk) st

  next_loop-Steps :
      (rel : NodeRelation) (left : ℕ) (st : ScanState)
      → left ≡ st.scan_nblocks - st.current_blk
      → Steps rel (left_over rel left st) (next_loop pg snapshot rel left st)
  unfolding next_loop left_over
  next_loop-Steps rel zero st e = refl
  next_loop-Steps rel (suc left) st e =
      let page = rel.page st.current_blk in
      let off = st.current_off in
      let n = page.items.max_off + 1 - off in
      elim (Bool-cases (is_overflow_page page)) [
        | inl skip ↦ rw skip (next_loop-Steps rel left (next_block pg snapshot st) (omega arith))
        | inr plain ↦ elim (Option-cases (next_on_page pg snapshot page off n)) [
          | inl nothing ↦
              rw (plain, nothing, next_on_page-none rel page off n nothing, next_loop)
                (next_loop-Steps rel left (next_block pg snapshot st) (omega arith))
          | inr ((r, off'), found) ↦
              let (lt, le, here) = next_on_page-some rel page off n r off' found in
              let q = here (page.items.max_off + 1 - off') (omega arith) in
              rw (plain, found, next_loop, ← e) (rw (plain, q))
        ]
      ]

  Steps-none :
      (rel : NodeRelation) (xs : List NodeRecord) (got : Option NodeRecord × ScanState)
      → Steps rel xs got
      → got.0 ≡ none
      → xs ≡ []
  Steps-none rel xs (none, st) h e = h
  Steps-none rel xs (some r, st) h e = cc

  Steps-some :
      (rel : NodeRelation) (xs : List NodeRecord) (got : Option NodeRecord × ScanState)
      (r : NodeRecord)
      → Steps rel xs got
      → got.0 ≡ some r
      → xs ≡ r ∷ left_over rel (got.1.scan_nblocks - got.1.current_blk) got.1
  Steps-some rel xs (none, st) r h e = cc
  Steps-some rel xs (some x, st) r h e =
      let q : x ≡ r = cc in h ∙ ap (λ t. t ∷ left_over rel (st.scan_nblocks - st.current_blk) st) q

  drain-left_over :
      (n : ℕ) (rel : NodeRelation) (st : ScanState)
      → drain n rel st ≡ take n (left_over rel (st.scan_nblocks - st.current_blk) st)
  unfolding drain next
  drain-left_over zero rel st = refl
  drain-left_over (suc n) rel st =
      let left = st.scan_nblocks - st.current_blk in
      let step = next_loop-Steps rel left st refl in
      elim (Option-cases (next_loop pg snapshot rel left st).0) [
        | inl done ↦ rw (done, drain, Steps-none rel (left_over rel left st) _ step done)
        | inr (r, more) ↦
            rw (more, drain, Steps-some rel (left_over rel left st) _ r step more)
              (ap (λ t. r ∷ t) (drain-left_over n rel (next_loop pg snapshot rel left st).1))
      ]

  left_over-blocks :
      (rel : NodeRelation) (left : ℕ) (st : ScanState)
      → st.current_off ≡ 1
      → left_over rel left st ≡ block_nodes rel st.current_blk left
  unfolding left_over block_nodes
  left_over-blocks rel zero st e = refl
  left_over-blocks rel (suc left) st e =
      let all : (rel.page st.current_blk).items.max_off + 1 - 1
          ≡ (rel.page st.current_blk).items.max_off =
        omega arith in
      rw (e, all, left_over-blocks rel left (next_block pg snapshot st) refl)

  -- A scan by `NodeScanState` yields the visible nodes of all blocks that are no overflow blocks, in
  -- the order of their places, each once and with its properties in place, and then no more: the
  -- first `n` calls of `next` give the first `n` of them.
  pub drain-begin :
      (n : ℕ) (rel : NodeRelation)
      → drain n rel (begin pg snapshot rel) ≡ take n (block_nodes rel 0 rel.nblocks)
  unfolding begin
  drain-begin n rel =
      let st : ScanState = record {
        current_blk = 0;
        current_off = 1;
        scan_nblocks = rel.nblocks;
      } in
      let e : rel.nblocks - 0 ≡ rel.nblocks = omega arith in
      drain-left_over n rel st
      ∙ ap (λ k. take n (left_over rel k st)) e
      ∙ ap (take n) (left_over-blocks rel rel.nblocks st refl)
