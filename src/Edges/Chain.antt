-- ===== src/Edges/Chain.antt =====
-- storage/edge_store.rs: what the coalesced traversal of `follow_chain` returns.
use pg_eddy.Common.{
  ℕ, zero, suc, ◌≤◌, ◌<◌, ◌≡◌, ◌≢◌, refl, sym, ap, ◌∙◌, inl, inr, Bool, true, false, not, ◌||◌,
  Option, List, [], ◌∷◌, ◌++◌, append-nil, append_assoc, arith, leb, ◌==◌, Bool-cases, length, ok,
}
use pg_eddy.Common.Int.{ℤ}
use pg_eddy.Edges.{EdgeRecord, EdgeRelation, Postgres}
use pg_eddy.Edges.Follow.{followable, next_of, yielded, Walk, visit, on_page, follow_chain}

-- Where the inner loop goes on.
same_page :
    (next_pg next_sl p : ℕ)
    → ((next_sl == 0) || not (next_pg == p)) ≡ false
    → (next_pg ≡ p) × (next_sl ≢ 0)
same_page next_pg next_sl p go = (ground arith, ground arith)

pub ==-zero : (n : ℕ) → n ≢ 0 → (n == 0) ≡ false
==-zero n ne = ground arith

module _ (pg : Postgres) (rel : EdgeRelation) (is_out_chain : Bool) where
  -- The places that a chain runs through from a head pointer to its end: each is a line pointer of a
  -- page of the relation.
  pub data Chain : (head_pg head_sl : ℕ) → List (ℕ × ℕ) → Type 0 where
    chain_end : {p : ℕ} → Chain p 0 []
    chain_link :
        {p sl : ℕ} {places : List (ℕ × ℕ)}
        → sl ≢ 0
        → p < rel.nblocks
        → sl ≤ (rel.page p).max_off
        → followable pg ((rel.page p).slot sl) ≡ true
        → Chain
            (next_of pg is_out_chain ((rel.page p).slot sl)).0
            (next_of pg is_out_chain ((rel.page p).slot sl)).1
            places
        → Chain p sl ((p, sl) ∷ places)

  module _ (rel_type_filter : Option ℤ) where
    -- The records that the places yield, in their order.
    unfoldable pub records : List (ℕ × ℕ) → List EdgeRecord
    records [] = []
    records ((p, sl) ∷ places) =
        yielded pg rel_type_filter ((rel.page p).slot sl) p sl ++ records places

    -- A walk from which the rest of a chain remains.
    record Rest (places : List (ℕ × ℕ)) (all : List EdgeRecord) (w : Walk) : Type 0 where
      remaining : List (ℕ × ℕ)
      shorter : length remaining < length places
      chain : Chain w.head_pg w.head_sl remaining
      result : w.out ++ records remaining ≡ all

    on_page-Rest :
        (fuel current p sl : ℕ) (out : List EdgeRecord) (places : List (ℕ × ℕ))
        → current ≡ p
        → sl ≢ 0
        → length places ≤ fuel
        → Chain p sl places
        → (w : Walk) × (on_page pg rel is_out_chain rel_type_filter fuel current
              (record { head_pg = p; head_sl = sl; out = out })
            ≡ ok w)
          × Rest places (out ++ records places) w
    unfolding on_page visit records
    on_page-Rest fuel current p sl out _ here some_sl bound chain_end = absurd (some_sl refl)
    on_page-Rest zero current p sl out _ here some_sl bound
          (chain_link {places = places} ne lt inside live rest) =
        absurd (omega arith)
    on_page-Rest (suc fuel) current p sl out _ here some_sl bound
          (chain_link {places = places} ne lt inside live rest) =
        let s = (rel.page p).slot sl in
        let next = next_of pg is_out_chain s in
        let more = yielded pg rel_type_filter s p sl in
        let started : (sl == 0) ≡ false = ==-zero sl ne in
        elim (Bool-cases ((next.1 == 0) || not (next.0 == p))) [
          | inl stop ↦ (
            record { head_pg = next.0; head_sl = next.1; out = out ++ more },
            rw (here, live, started, stop),
            record {
              remaining = places;
              shorter = omega arith;
              chain = rest;
              result = append_assoc out more (records places);
            },
          )
          | inr go ↦
              let (same, further) = same_page next.0 next.1 p go in
              let (w, e, r) =
                on_page-Rest fuel p next.0 next.1 (out ++ more) places (sym same) further
                  (omega arith) rest in
              (
                w,
                rw (here, live, started, go) e,
                record {
                  remaining = r.remaining;
                  shorter = omega (arith, r.shorter);
                  chain = r.chain;
                  result = r.result ∙ append_assoc out more (records places);
                },
              )
        ]

    -- With more fuel than the chain has places, the traversal returns what it had, and behind it what
    -- each place of the chain yields, in the chain's order. That a page stays pinned while the chain
    -- stays on it makes no difference.
    pub follow_chain-Chain :
        (fuel p sl : ℕ) (out : List EdgeRecord) (places : List (ℕ × ℕ))
        → length places < fuel
        → Chain p sl places
        → follow_chain pg rel is_out_chain rel_type_filter fuel
            (record { head_pg = p; head_sl = sl; out = out })
          ≡ ok (out ++ records places)
    unfolding follow_chain records
    follow_chain-Chain zero p sl out places bound chain = absurd (omega arith)
    follow_chain-Chain (suc fuel) p sl out _ bound chain_end = ap ok (sym (append-nil out))
    follow_chain-Chain (suc fuel) p sl out _ bound
          (chain_link {places = places} ne lt inside live rest) =
        let started : (sl == 0) ≡ false = ==-zero sl ne in
        let on_disk : leb rel.nblocks p ≡ false = ground arith in
        let (w, e, r) =
          on_page-Rest fuel p p sl out ((p, sl) ∷ places) refl ne (omega arith)
            (chain_link ne lt inside live rest) in
        rw (started, on_disk, e)
          (follow_chain-Chain fuel w.head_pg w.head_sl w.out r.remaining (omega (arith, r.shorter))
              r.chain
            ∙ ap ok r.result)
