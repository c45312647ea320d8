-- ===== src/Edges/Cells.antt =====
-- storage/edge_store.rs: the writes of `build_edge_item_bytes` as one row of cells.
use pg_eddy.Common.{
  ℕ, zero, suc, ◌+◌, ◌-◌, ◌≤◌, ◌≡◌, refl, sym, ap, ◌∙◌, List, [], ◌++◌, arith, append_assoc, length,
  length-append, drop, take_append, drop_append,
}
use pg_eddy.Common.Bytes.{le_bytes, length-le_bytes}
use pg_eddy.Common.Position.{At, At-start, At-move, At-slice, drop_add}
use pg_eddy.Page.{slice, zeros, put}

pub length-zeros : (n : ℕ) → length (zeros n) ≡ n
unfolding zeros
length-zeros zero = refl
length-zeros (suc n) = ap suc (length-zeros n)

drop-zeros : (k n : ℕ) → drop k (zeros n) ≡ zeros (n - k)
unfolding zeros
drop-zeros zero n = let e : n ≡ n - 0 = omega arith in ap zeros e
drop-zeros (suc k) zero = let e : 0 ≡ 0 - suc k = omega arith in ap zeros e
drop-zeros (suc k) (suc n) =
    let e : n - k ≡ suc n - suc k = omega arith in drop-zeros k n ∙ ap zeros e

drop-append_more : (front xs : List ℕ) (k : ℕ) → drop (length front + k) (front ++ xs) ≡ drop k xs
drop-append_more front xs k =
    drop_add (length front) k (length front + k) (front ++ xs) refl
    ∙ ap (drop k) (drop_append front xs)

-- Writing at the end of what has been written so far.
pub put_next :
    (off : ℕ) (front bs : List ℕ) (n m : ℕ)
    → off ≡ length front
    → n ≡ length bs + m
    → put off bs (front ++ zeros n) ≡ (front ++ bs) ++ zeros m
unfolding put
put_next off front bs n m e e' =
    rw
      (
        e,
        take_append front (zeros n),
        drop-append_more front (zeros n) (length bs),
        drop-zeros (length bs) n,
        e',
      )
      (let m_eq : length bs + m - length bs ≡ m = omega arith in
        ap (λ t. front ++ (bs ++ zeros t)) m_eq ∙ sym (append_assoc front bs (zeros m)))

-- The fixed part of a record as it lies in the page.
abbrev pub cells : (id rel src tgt : ℕ) (opg osl ipg isl plen : ℕ) → List ℕ → List ℕ
cells id rel src tgt opg osl ipg isl plen rest =
    le_bytes 8 id
    ++ (le_bytes 4 rel
        ++ (le_bytes 8 src
            ++ (le_bytes 8 tgt
                ++ (le_bytes 4 opg
                    ++ (le_bytes 2 osl
                        ++ (le_bytes 4 ipg
                            ++ (le_bytes 2 isl ++ (le_bytes 2 plen ++ (le_bytes 4 0 ++ rest)))))))))

-- The slices that `decode_edge_record` takes of such bytes.
abbrev pub Slices : (id rel src tgt : ℕ) (opg osl ipg isl plen : ℕ) (bytes rest : List ℕ) → Type 0
Slices id rel src tgt opg osl ipg isl plen bytes rest =
    (slice bytes 0 8 ≡ le_bytes 8 id)
    × (slice bytes 8 4 ≡ le_bytes 4 rel)
    × (slice bytes 12 8 ≡ le_bytes 8 src)
    × (slice bytes 20 8 ≡ le_bytes 8 tgt)
    × (slice bytes 28 4 ≡ le_bytes 4 opg)
    × (slice bytes 32 2 ≡ le_bytes 2 osl)
    × (slice bytes 34 4 ≡ le_bytes 4 ipg)
    × (slice bytes 38 2 ≡ le_bytes 2 isl)
    × (slice bytes 40 2 ≡ le_bytes 2 plen)
    × At bytes 46 rest

module _ (id rel src tgt opg osl ipg isl plen : ℕ) (props : List ℕ) (reserved : ℕ)
    (room : length props ≤ reserved) where
  -- The writes in order, each behind the one before it.
  pub put-cells :
      put 46 props (
        put 42 (le_bytes 4 0) (
          put 40 (le_bytes 2 plen) (
            put 38 (le_bytes 2 isl) (
              put 34 (le_bytes 4 ipg) (
                put 32 (le_bytes 2 osl) (
                  put 28 (le_bytes 4 opg) (
                    put 20 (le_bytes 8 tgt) (
                      put 12 (le_bytes 8 src) (
                        put 8
                          (le_bytes 4 rel)
                          (put 0 (le_bytes 8 id) (zeros (46 + reserved))))))))))))
      ≡ cells id rel src tgt opg osl ipg isl plen (props ++ zeros (reserved - length props))
  put-cells =
      let f1 = [] ++ le_bytes 8 id in
      let l1 : length f1 ≡ 8 =
        omega (arith, length-append ([]) (le_bytes 8 id), length-le_bytes 8 id) in
      let p1 =
        put_next 0 ([]) (le_bytes 8 id) (46 + reserved) (38 + reserved) refl
          (omega (arith, length-le_bytes 8 id)) in
      let f2 = f1 ++ le_bytes 4 rel in
      let l2 : length f2 ≡ 12 =
        omega (arith, length-append (f1) (le_bytes 4 rel), length-le_bytes 4 rel, l1) in
      let p2 =
        put_next 8 (f1) (le_bytes 4 rel) (38 + reserved) (34 + reserved) (sym l1)
          (omega (arith, length-le_bytes 4 rel)) in
      let f3 = f2 ++ le_bytes 8 src in
      let l3 : length f3 ≡ 20 =
        omega (arith, length-append (f2) (le_bytes 8 src), length-le_bytes 8 src, l2) in
      let p3 =
        put_next 12 (f2) (le_bytes 8 src) (34 + reserved) (26 + reserved) (sym l2)
          (omega (arith, length-le_bytes 8 src)) in
      let f4 = f3 ++ le_bytes 8 tgt in
      let l4 : length f4 ≡ 28 =
        omega (arith, length-append (f3) (le_bytes 8 tgt), length-le_bytes 8 tgt, l3) in
      let p4 =
        put_next 20 (f3) (le_bytes 8 tgt) (26 + reserved) (18 + reserved) (sym l3)
          (omega (arith, length-le_bytes 8 tgt)) in
      let f5 = f4 ++ le_bytes 4 opg in
      let l5 : length f5 ≡ 32 =
        omega (arith, length-append (f4) (le_bytes 4 opg), length-le_bytes 4 opg, l4) in
      let p5 =
        put_next 28 (f4) (le_bytes 4 opg) (18 + reserved) (14 + reserved) (sym l4)
          (omega (arith, length-le_bytes 4 opg)) in
      let f6 = f5 ++ le_bytes 2 osl in
      let l6 : length f6 ≡ 34 =
        omega (arith, length-append (f5) (le_bytes 2 osl), length-le_bytes 2 osl, l5) in
      let p6 =
        put_next 32 (f5) (le_bytes 2 osl) (14 + reserved) (12 + reserved) (sym l5)
          (omega (arith, length-le_bytes 2 osl)) in
      let f7 = f6 ++ le_bytes 4 ipg in
      let l7 : length f7 ≡ 38 =
        omega (arith, length-append (f6) (le_bytes 4 ipg), length-le_bytes 4 ipg, l6) in
      let p7 =
        put_next 34 (f6) (le_bytes 4 ipg) (12 + reserved) (8 + reserved) (sym l6)
          (omega (arith, length-le_bytes 4 ipg)) in
      let f8 = f7 ++ le_bytes 2 isl in
      let l8 : length f8 ≡ 40 =
        omega (arith, length-append (f7) (le_bytes 2 isl), length-le_bytes 2 isl, l7) in
      let p8 =
        put_next 38 (f7) (le_bytes 2 isl) (8 + reserved) (6 + reserved) (sym l7)
          (omega (arith, length-le_bytes 2 isl)) in
      let f9 = f8 ++ le_bytes 2 plen in
      let l9 : length f9 ≡ 42 =
        omega (arith, length-append (f8) (le_bytes 2 plen), length-le_bytes 2 plen, l8) in
      let p9 =
        put_next 40 (f8) (le_bytes 2 plen) (6 + reserved) (4 + reserved) (sym l8)
          (omega (arith, length-le_bytes 2 plen)) in
      let f10 = f9 ++ le_bytes 4 0 in
      let l10 : length f10 ≡ 46 =
        omega (arith, length-append (f9) (le_bytes 4 0), length-le_bytes 4 0, l9) in
      let p10 =
        put_next 42 (f9) (le_bytes 4 0) (4 + reserved) reserved (sym l9)
          (omega (arith, length-le_bytes 4 0)) in
      rw
        (
          p1,
          p2,
          p3,
          p4,
          p5,
          p6,
          p7,
          p8,
          p9,
          p10,
          put_next 46 f10 props reserved (reserved - length props) (sym l10) (omega arith),
        )
        (simp append_assoc)

  module _ (bytes rest : List ℕ)
      (whole : bytes ≡ cells id rel src tgt opg osl ipg isl plen rest) where
    pub cells-Slices : Slices id rel src tgt opg osl ipg isl plen bytes rest
    cells-Slices =
        let a0 : At bytes 0 (cells id rel src tgt opg osl ipg isl plen rest) =
          rw whole (At-start (cells id rel src tgt opg osl ipg isl plen rest)) in
        let a8 = At-move (le_bytes 8 id) 8 a0 (omega (arith, length-le_bytes 8 id)) in
        let a12 = At-move (le_bytes 4 rel) 12 a8 (omega (arith, length-le_bytes 4 rel)) in
        let a20 = At-move (le_bytes 8 src) 20 a12 (omega (arith, length-le_bytes 8 src)) in
        let a28 = At-move (le_bytes 8 tgt) 28 a20 (omega (arith, length-le_bytes 8 tgt)) in
        let a32 = At-move (le_bytes 4 opg) 32 a28 (omega (arith, length-le_bytes 4 opg)) in
        let a34 = At-move (le_bytes 2 osl) 34 a32 (omega (arith, length-le_bytes 2 osl)) in
        let a38 = At-move (le_bytes 4 ipg) 38 a34 (omega (arith, length-le_bytes 4 ipg)) in
        let a40 = At-move (le_bytes 2 isl) 40 a38 (omega (arith, length-le_bytes 2 isl)) in
        let a42 = At-move (le_bytes 2 plen) 42 a40 (omega (arith, length-le_bytes 2 plen)) in
        let a46 = At-move (le_bytes 4 0) 46 a42 (omega (arith, length-le_bytes 4 0)) in
        (
          At-slice (le_bytes 8 id) _ 8 a0 (sym (length-le_bytes 8 id)),
          At-slice (le_bytes 4 rel) _ 4 a8 (sym (length-le_bytes 4 rel)),
          At-slice (le_bytes 8 src) _ 8 a12 (sym (length-le_bytes 8 src)),
          At-slice (le_bytes 8 tgt) _ 8 a20 (sym (length-le_bytes 8 tgt)),
          At-slice (le_bytes 4 opg) _ 4 a28 (sym (length-le_bytes 4 opg)),
          At-slice (le_bytes 2 osl) _ 2 a32 (sym (length-le_bytes 2 osl)),
          At-slice (le_bytes 4 ipg) _ 4 a34 (sym (length-le_bytes 4 ipg)),
          At-slice (le_bytes 2 isl) _ 2 a38 (sym (length-le_bytes 2 isl)),
          At-slice (le_bytes 2 plen) _ 2 a40 (sym (length-le_bytes 2 plen)),
          a46,
        )
