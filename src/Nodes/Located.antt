-- ===== src/Nodes/Located.antt =====
-- storage/node_store.rs: what `find_node_location` gives, and what is left after a delete.
use pg_eddy.Common.Bytes.{from_le}
use pg_eddy.Page.{slice}
use pg_eddy.Edges.{LineFlags, lp_normal, lp_unused, lp_redirect, lp_dead, Slot}
use pg_eddy.Common.{
  Bool, not, ◌&&◌, ltb, ◌^◌, ℕ, zero, suc, ◌+◌, ◌≤◌, ◌<◌, ◌≡◌, ◌≢◌, refl, sym, ap, ◌∙◌, true, false,
  Option, none, some, List, [], ◌∷◌, arith, ◌==◌, Bool-cases, Option-cases, inl, inr,
}
use pg_eddy.Common.Int.{ℤ, eq_ℤ, from_bits, eq_ℤ→eq}
use pg_eddy.Edges.Scan.{is_normal, item_data, upto, offsets}
use pg_eddy.Nodes.{NodeRelation, NodePostgres, node_fixed_data_size}
use pg_eddy.Nodes.Scan.{is_overflow_page}
use pg_eddy.Nodes.Locate.{
  is_live_node, stored_adj_slot, locate_on_page, locate_blocks, locate_cached, find_node_location,
}

four :
    (a b c d : Bool)
    → (a && (b && (c && d))) ≡ true
    → (a ≡ true) × (b ≡ true) × (c ≡ true) × (d ≡ true)
four a b c d e = ground arith

normal_flags : (f : LineFlags) → is_normal f ≡ true → f ≡ lp_normal
normal_flags lp_normal e = refl
normal_flags lp_unused e = cc
normal_flags lp_redirect e = cc
normal_flags lp_dead e = cc

module _ (pg : NodePostgres) where
  -- An item that is a live node: what its line pointer, its header and its bytes hold.
  pub record LiveNode (s : Slot) (node_id : ℤ) (adj : ℕ) : Type 0 where
    pub normal : s.lp_flags ≡ lp_normal
    pub long : pg.base.hdr_size + node_fixed_data_size ≤ s.lp_len
    pub id : from_bits (2 ^ 63) (from_le (slice (item_data pg.base s) 0 8)) ≡ node_id
    pub valid : s.header.xmax_invalid ≡ true
    pub adj_slot_idx : adj ≡ from_le (slice (item_data pg.base s) 8 2)

  alive-LiveNode :
      (s : Slot) (node_id : ℤ) (adj : ℕ)
      → is_live_node pg s node_id ≡ true
      → adj ≡ stored_adj_slot pg s
      → LiveNode s node_id adj
  unfolding is_live_node stored_adj_slot
  alive-LiveNode s node_id adj alive stored =
      let id = from_bits (2 ^ 63) (from_le (slice (item_data pg.base s) 0 8)) in
      let (normal, long, same, valid) =
        four (is_normal s.lp_flags) (not (ltb s.lp_len (pg.base.hdr_size + node_fixed_data_size)))
          (eq_ℤ id node_id) s.header.xmax_invalid alive in
      record {
        normal = normal_flags s.lp_flags normal;
        long = grind arith;
        id = eq_ℤ→eq id node_id same;
        valid = valid;
        adj_slot_idx = stored;
      }

  -- The item at a place is a live node with the id.
  abbrev pub LiveAt : NodeRelation → ℤ → (blk off : ℕ) → Type 0
  LiveAt rel node_id blk off = is_live_node pg ((rel.page blk).items.slot off) node_id ≡ true

  -- A place that the sequential scan visits.
  pub record Visited (rel : NodeRelation) (blk off : ℕ) : Type 0 where
    pub inside : blk < rel.nblocks
    pub plain : is_overflow_page (rel.page blk) ≡ false
    pub numbered : 1 ≤ off
    pub on_page : off ≤ (rel.page blk).items.max_off

  abbrev Sound : NodeRelation → ℤ → ℕ × ℕ × ℕ → Type 0
  Sound rel node_id (blk, off, adj) =
      LiveAt rel node_id blk off × (adj ≡ stored_adj_slot pg ((rel.page blk).items.slot off))

  module _ (rel : NodeRelation) (node_id : ℤ) where
    locate_on_page-Sound :
        (blk : ℕ) (offs : List ℕ) (found : ℕ × ℕ × ℕ)
        → locate_on_page pg (rel.page blk) blk node_id offs ≡ some found
        → Sound rel node_id found
    unfolding locate_on_page
    locate_on_page-Sound blk [] found e = cc
    locate_on_page-Sound blk (off ∷ offs) found e =
        elim (Bool-cases (is_live_node pg ((rel.page blk).items.slot off) node_id)) [
          | inl live ↦
              let q : (blk, off, stored_adj_slot pg ((rel.page blk).items.slot off)) ≡ found =
                cc (rw live at e) in
              rw (← q) (live, refl)
          | inr dead ↦ locate_on_page-Sound blk offs found (rw dead at e)
        ]

    locate_blocks-Sound :
        (blks : List ℕ) (found : ℕ × ℕ × ℕ)
        → locate_blocks pg rel node_id blks ≡ some found
        → Sound rel node_id found
    unfolding locate_blocks
    locate_blocks-Sound [] found e = cc
    locate_blocks-Sound (blk ∷ blks) found e = elim (Bool-cases (is_overflow_page (rel.page blk))) [
      | inl skip ↦ locate_blocks-Sound blks found (rw skip at e)
      | inr plain ↦
          elim (Option-cases
            (locate_on_page pg (rel.page blk) blk node_id (offsets (rel.page blk).items))) [
              | inl none_here ↦
                  locate_blocks-Sound blks found (rw (plain, none_here, locate_blocks) at e)
              | inr (x, here) ↦
                  let q : x ≡ found = cc (rw (plain, here, locate_blocks) at e) in
                  rw (← q) (locate_on_page-Sound blk (offsets (rel.page blk).items) x here)
            ]
    ]

    locate_cached-Sound :
        (cached : Option (ℕ × ℕ)) (found : ℕ × ℕ × ℕ)
        → locate_cached pg rel node_id cached ≡ some found
        → Sound rel node_id found
    unfolding locate_cached
    locate_cached-Sound none found e = cc
    locate_cached-Sound (some (blk, off)) found e =
        elim (Bool-cases (is_live_node pg ((rel.page blk).items.slot off) node_id)) [
          | inl live ↦
              let q : (blk, off, stored_adj_slot pg ((rel.page blk).items.slot off)) ≡ found =
                cc (rw live at e) in
              rw (← q) (live, refl)
          | inr dead ↦ absurd (cc (rw dead at e))
        ]

    cached_place :
        (cached : Option (ℕ × ℕ)) (x : ℕ × ℕ × ℕ)
        → locate_cached pg rel node_id cached ≡ some x
        → (b : ℕ) × (o : ℕ) × (cached ≡ some (b, o)) × LiveAt rel node_id b o
    unfolding locate_cached
    cached_place none x e = cc
    cached_place (some (b, o)) x e =
        elim (Bool-cases (is_live_node pg ((rel.page b).items.slot o) node_id)) [
          | inl live ↦ (b, o, refl, live)
          | inr dead ↦ absurd (cc (rw dead at e))
        ]

    -- What is located passes the tests, and comes with the index that is stored there.
    pub located-alive :
        (lookup_cached_location : ℤ → Option (ℕ × ℕ)) (blk off adj : ℕ)
        → find_node_location pg lookup_cached_location rel node_id ≡ some (blk, off, adj)
        → LiveAt rel node_id blk off × (adj ≡ stored_adj_slot pg ((rel.page blk).items.slot off))
    unfolding find_node_location
    located-alive lookup_cached_location blk off adj e =
        elim (Option-cases (locate_cached pg rel node_id (lookup_cached_location node_id))) [
          | inl miss ↦
              locate_blocks-Sound (upto 0 rel.nblocks) (blk, off, adj)
                (rw (miss, find_node_location) at e)
          | inr (x, hit) ↦
              let q : x ≡ (blk, off, adj) = cc (rw (hit, find_node_location) at e) in
              locate_cached-Sound (lookup_cached_location node_id) (blk, off, adj) (rw q at hit)
        ]

    -- Whatever the cache holds, stale entries included, a location that `find_node_location` gives
    -- holds an item that is in use, long enough, not deleted, and begins with the node's id; and the
    -- index that it gives is the one in the two bytes behind the id.
    pub find_node_location-LiveNode :
        (lookup_cached_location : ℤ → Option (ℕ × ℕ)) (blk off adj : ℕ)
        → find_node_location pg lookup_cached_location rel node_id ≡ some (blk, off, adj)
        → LiveNode ((rel.page blk).items.slot off) node_id adj
    find_node_location-LiveNode lookup_cached_location blk off adj e =
        let (alive, stored) = located-alive lookup_cached_location blk off adj e in
        alive-LiveNode ((rel.page blk).items.slot off) node_id adj alive stored

    locate_on_page-finds :
        (blk first n off : ℕ)
        → first ≤ off
        → off < first + n
        → LiveAt rel node_id blk off
        → (found : ℕ × ℕ × ℕ) × (locate_on_page pg (rel.page blk) blk node_id (upto first n)
            ≡ some found)
    unfolding locate_on_page upto
    locate_on_page-finds blk first zero off le lt live = absurd (omega arith)
    locate_on_page-finds blk first (suc n) off le lt live =
        elim (Bool-cases (is_live_node pg ((rel.page blk).items.slot first) node_id)) [
          | inl here ↦ ((blk, first, stored_adj_slot pg ((rel.page blk).items.slot first)), rw here)
          | inr dead ↦
              let differ : first ≢ off =
                λ q. cc (ap (λ o. is_live_node pg ((rel.page blk).items.slot o) node_id) q) in
              let further : suc first ≤ off = beyond first off le differ in
              rw dead (locate_on_page-finds blk (suc first) n off further (omega arith) live)
        ]
      where
        beyond : (a b : ℕ) → a ≤ b → a ≢ b → suc a ≤ b
        beyond a b le ne = ground arith

    locate_blocks-finds :
        (first n blk off : ℕ)
        → first ≤ blk
        → blk < first + n
        → is_overflow_page (rel.page blk) ≡ false
        → 1 ≤ off
        → off ≤ (rel.page blk).items.max_off
        → LiveAt rel node_id blk off
        → (found : ℕ × ℕ × ℕ) × (locate_blocks pg rel node_id (upto first n) ≡ some found)
    unfolding locate_blocks upto
    locate_blocks-finds first zero blk off le lt plain one on_page live = absurd (omega arith)
    locate_blocks-finds first (suc n) blk off le lt plain one on_page live =
        elim (Bool-cases (first == blk)) [
          | inl same ↦
              let q : first ≡ blk = ground arith in
              let plain' : is_overflow_page (rel.page first) ≡ false = rw q plain in
              let on_page' : off ≤ (rel.page first).items.max_off = rw q on_page in
              let live' : LiveAt rel node_id first off = rw q live in
              let (found, here) =
                locate_on_page-finds first 1 (rel.page first).items.max_off off one (omega arith)
                  live' in
              (found, rw (plain', here, locate_blocks))
          | inr other ↦
              let further : suc first ≤ blk = ground arith in
              let (found, rest) =
                locate_blocks-finds (suc first) n blk off further (omega arith) plain one on_page
                  live in
              elim (Bool-cases (is_overflow_page (rel.page first))) [
                | inl skip ↦ (found, rw skip rest)
                | inr here ↦
                    elim (Option-cases (
                      locate_on_page pg (rel.page first) first node_id
                        (offsets (rel.page first).items))) [
                          | inl none_here ↦ (found, rw (here, none_here, locate_blocks) rest)
                          | inr (x, some_here) ↦ (x, rw (here, some_here, locate_blocks))
                        ]
              ]
        ]

    module _
        (unique : (b o b' o' : ℕ)
          → LiveAt rel node_id b o
          → LiveAt rel node_id b' o'
          → (b ≡ b') × (o ≡ o')) where
      same_location : (x y : ℕ × ℕ × ℕ) → Sound rel node_id x → Sound rel node_id y → x ≡ y
      same_location (b, o, a) (b', o', a') (live, adj) (live', adj') =
          let (e, e') = unique b o b' o' live live' in
          let q : a ≡ a' =
            adj
            ∙ ap (λ t. stored_adj_slot pg ((rel.page t).items.slot o)) e
            ∙ ap (λ t. stored_adj_slot pg ((rel.page b').items.slot t)) e'
            ∙ sym adj' in
          cc

      -- Where at most one item is a live node with the id, the cache makes no difference: a lookup
      -- gives what the sequential scan gives, provided that a cached place is one that the scan visits.
      pub find_node_location-cache :
          (lookup_cached_location : ℤ → Option (ℕ × ℕ))
          → ((blk off : ℕ) → lookup_cached_location node_id ≡ some (blk, off) → Visited rel blk off)
          → find_node_location pg lookup_cached_location rel node_id
            ≡ find_node_location pg (λ id. none) rel node_id
      unfolding find_node_location
      find_node_location-cache lookup_cached_location visited =
          elim (Option-cases (locate_cached pg rel node_id (lookup_cached_location node_id))) [
            | inl miss ↦ rw (miss, find_node_location)
            | inr (x, hit) ↦
                let (b, o, at_place, live) = cached_place (lookup_cached_location node_id) x hit in
                let v = visited b o at_place in
                let (y, found) =
                  locate_blocks-finds 0 rel.nblocks b o (omega arith) (omega (arith, v.inside))
                    v.plain v.numbered v.on_page live in
                let q =
                  same_location x y (locate_cached-Sound (lookup_cached_location node_id) x hit)
                    (locate_blocks-Sound (upto 0 rel.nblocks) y found) in
                rw (hit, find_node_location, found, q)
          ]
