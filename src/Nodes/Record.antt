-- ===== src/Nodes/Record.antt =====
-- storage/node_store.rs: `read_node_at_offset` decodes what `build_node_item_bytes_ovf` writes.
use pg_eddy.Common.{
  ℕ, suc, ◌+◌, ◌*◌, ◌%◌, ◌^◌, ◌≤◌, ◌<◌, ◌≡◌, refl, sym, ap, ◌∙◌, true, false, some, List, [], ◌∷◌,
  ◌++◌, arith, ltb, le→ltb, length, length-append, All, append-nil, append_assoc, ◌==◌,
  if◌then◌else◌, Bool-cases, inl, inr,
}
use pg_eddy.Common.Bytes.{le_bytes, from_le, from_le-le_bytes, length-le_bytes}
use pg_eddy.Common.Int.{ℤ, IsI32, IsI64, to_bits, to_bits-lt, from_bits-to_bits}
use pg_eddy.Common.Position.{At, At-start, At-move, At-slice, At-get}
use pg_eddy.Page.{zeros, put, prop_inline_max}
use pg_eddy.Edges.Cells.{put_next}
use pg_eddy.Nodes.{
  NodeRecord, max_labels_per_node, put_labels, build_node_data, read_labels, decode_node,
}

label_bytes : List ℤ → List ℕ
label_bytes [] = []
label_bytes (lid ∷ lids) = le_bytes 4 (to_bits (2 ^ 31) lid) ++ label_bytes lids

length-label_bytes : (lids : List ℤ) → length (label_bytes lids) ≡ length lids * 4
unfolding label_bytes
length-label_bytes [] = refl
length-label_bytes (lid ∷ lids) = omega (
  arith,
  length-append (le_bytes 4 (to_bits (2 ^ 31) lid)) (label_bytes lids),
  length-le_bytes 4 (to_bits (2 ^ 31) lid),
  length-label_bytes lids,
)

put_labels_lem :
    (i : ℕ) (lids : List ℤ) (front : List ℕ) (m : ℕ)
    → length front ≡ 18 + i * 4
    → put_labels i lids (front ++ zeros (length lids * 4 + m))
      ≡ front ++ (label_bytes lids ++ zeros m)
unfolding put_labels label_bytes
put_labels_lem i [] front m e = let k : 0 * 4 + m ≡ m = omega arith in ap (λ t. front ++ zeros t) k
put_labels_lem i (lid ∷ lids) front m e =
    let bs = le_bytes 4 (to_bits (2 ^ 31) lid) in
    let here =
      put_next (18 + i * 4) front bs (suc (length lids) * 4 + m) (length lids * 4 + m) (sym e)
        (omega (arith, length-le_bytes 4 (to_bits (2 ^ 31) lid))) in
    let rest =
      put_labels_lem (suc i) lids (front ++ bs) m
        (omega (arith, length-append front bs, length-le_bytes 4 (to_bits (2 ^ 31) lid), e)) in
    rw here (
      rest
      ∙ append_assoc front bs (label_bytes lids ++ zeros m)
      ∙ ap (λ t. front ++ t) (sym (append_assoc bs (label_bytes lids) (zeros m))))

read_labels_lem :
    (d : List ℕ) (i : ℕ) (lids : List ℤ) (rest : List ℕ)
    → All IsI32 lids
    → At d (18 + i * 4) (label_bytes lids ++ rest)
    → read_labels d i (length lids) ≡ lids
unfolding read_labels label_bytes
read_labels_lem d i [] rest h at = refl
read_labels_lem d i (lid ∷ lids) rest (h, hs) at =
    let bs = le_bytes 4 (to_bits (2 ^ 31) lid) in
    let at' : At d (18 + i * 4) (bs ++ (label_bytes lids ++ rest)) =
      rw (← append_assoc bs (label_bytes lids) rest) at in
    let n = length-le_bytes 4 (to_bits (2 ^ 31) lid) in
    let next = At-move bs (18 + suc i * 4) at' (omega (arith, n)) in
    rw
      (
        At-slice bs _ 4 at' (sym n),
        from_le-le_bytes 4 _ (to_bits-lt (2 ^ 31) lid h),
        from_bits-to_bits (2 ^ 31) lid h,
      )
      (ap (λ t. lid ∷ t) (read_labels_lem d (suc i) lids rest hs next))

-- The record as it lies in the page.
abbrev cells : (id adj count plen ovf : ℕ) → List ℕ → List ℕ
cells id adj count plen ovf rest =
    le_bytes 8 id
    ++ (le_bytes 2 adj
        ++ ((count ∷ []) ++ (le_bytes 2 plen ++ (le_bytes 4 ovf ++ ((0 ∷ []) ++ rest)))))

-- The writes before the labels, each behind the one before it.
put-cells :
    (id adj count plen ovf m : ℕ) (lids : List ℤ)
    → put_labels 0 lids (
        put 13 (le_bytes 4 ovf) (
          put 11 (le_bytes 2 plen) (
            put 10
              (count ∷ [])
              (put 8 (le_bytes 2 adj) (put 0 (le_bytes 8 id) (zeros (18 + length lids * 4 + m)))))))
      ≡ cells id adj count plen ovf (label_bytes lids ++ zeros m)
unfolding zeros
put-cells id adj count plen ovf m lids =
    let k = length lids * 4 + m in
    let f1 = [] ++ le_bytes 8 id in
    let l1 : length f1 ≡ 8 = length-le_bytes 8 id in
    let z : 18 + length lids * 4 + m ≡ 18 + k = omega arith in
    let p1 = put_next 0 [] (le_bytes 8 id) (18 + k) (10 + k) refl (omega (arith, l1)) in
    let f2 = f1 ++ le_bytes 2 adj in
    let l2 : length f2 ≡ 10 =
      omega (arith, length-append f1 (le_bytes 2 adj), length-le_bytes 2 adj, l1) in
    let p2 =
      put_next 8 f1 (le_bytes 2 adj) (10 + k) (8 + k) (sym l1)
        (omega (arith, length-le_bytes 2 adj)) in
    let f3 = f2 ++ (count ∷ []) in
    let l3 : length f3 ≡ 11 = omega (arith, length-append f2 (count ∷ []), l2) in
    let p3 = put_next 10 f2 (count ∷ []) (8 + k) (7 + k) (sym l2) (omega arith) in
    let f4 = f3 ++ le_bytes 2 plen in
    let l4 : length f4 ≡ 13 =
      omega (arith, length-append f3 (le_bytes 2 plen), length-le_bytes 2 plen, l3) in
    let p4 =
      put_next 11 f3 (le_bytes 2 plen) (7 + k) (5 + k) (sym l3)
        (omega (arith, length-le_bytes 2 plen)) in
    let f5 = f4 ++ le_bytes 4 ovf in
    let l5 : length f5 ≡ 17 =
      omega (arith, length-append f4 (le_bytes 4 ovf), length-le_bytes 4 ovf, l4) in
    let p5 =
      put_next 13 f4 (le_bytes 4 ovf) (5 + k) (suc k) (sym l4)
        (omega (arith, length-le_bytes 4 ovf)) in
    let f6 = f5 ++ (0 ∷ []) in
    let l6 : length f6 ≡ 18 + 0 * 4 = omega (arith, length-append f5 (0 ∷ []), l5) in
    let pad : f5 ++ zeros (suc k) ≡ f6 ++ zeros k = sym (append_assoc f5 (0 ∷ []) (zeros k)) in
    rw (z, p1, p2, p3, p4, p5, pad, put_labels_lem 0 lids f6 m l6) (simp append_assoc)

if_nonempty : (xs : List ℕ) → (if ltb 0 (length xs) then xs else []) ≡ xs
if_nonempty [] = refl
if_nonempty (x ∷ xs) = let e : ltb 0 (suc (length xs)) ≡ true = ground arith in rw e

-- The widths of the record's fields, and the limits that `insert_node` sets. A record with an
-- overflow block has no inline properties.
pub record IsNodeRecord (r : NodeRecord) : Type 0 where
  pub node_id : IsI64 r.node_id
  pub adj_slot_idx : r.adj_slot_idx < 2 ^ 16
  pub overflow_blkno : r.overflow_blkno < 2 ^ 32
  pub label_ids : All IsI32 r.label_ids
  pub label_count : length r.label_ids ≤ max_labels_per_node
  pub prop_bytes : length r.prop_bytes ≤ prop_inline_max
  pub moved_out : (r.overflow_blkno == 0) ≡ false → r.prop_bytes ≡ []

abbrev pub node_data : NodeRecord → List ℕ
node_data r = build_node_data r.node_id r.adj_slot_idx r.label_ids r.prop_bytes r.overflow_blkno

pub behind_adj : List ℤ → List ℕ → (overflow_blkno : ℕ) → List ℕ
unfolding label_bytes
behind_adj lids props ovf =
    (length lids ∷ [])
    ++ (le_bytes 2 (length props) ++ (le_bytes 4 ovf ++ ((0 ∷ []) ++ (label_bytes lids ++ props))))

length-cells :
    (id adj count plen ovf : ℕ) (rest : List ℕ)
    → length (cells id adj count plen ovf rest) ≡ 18 + length rest
length-cells id adj count plen ovf rest =
    let t5 = (0 ∷ []) ++ rest in
    let t4 = le_bytes 4 ovf ++ t5 in
    let t3 = le_bytes 2 plen ++ t4 in
    let t2 = (count ∷ []) ++ t3 in
    let t1 = le_bytes 2 adj ++ t2 in
    omega (
      arith,
      length-append (le_bytes 8 id) t1,
      length-le_bytes 8 id,
      length-append (le_bytes 2 adj) t2,
      length-le_bytes 2 adj,
      length-append (le_bytes 2 plen) t4,
      length-le_bytes 2 plen,
      length-append (le_bytes 4 ovf) t5,
      length-le_bytes 4 ovf,
    )

cells-append :
    (id adj count plen ovf : ℕ) (xs ys : List ℕ)
    → cells id adj count plen ovf (xs ++ ys) ≡ cells id adj count plen ovf xs ++ ys
cells-append id adj count plen ovf xs ys = simp append_assoc

build_node_data_inline :
    (id : ℤ) (adj : ℕ) (lids : List ℤ) (props : List ℕ)
    → length lids ≤ max_labels_per_node
    → length props ≤ prop_inline_max
    → build_node_data id adj lids props 0
      ≡ cells (to_bits (2 ^ 63) id) adj (length lids) (length props) 0 (label_bytes lids ++ props)
unfolding build_node_data zeros
build_node_data_inline id adj lids props few small =
    let w = to_bits (2 ^ 63) id in
    let n = length lids in
    let p = length props in
    let count : n % 256 ≡ n = omega (arith, few) in
    let same : p % 2 ^ 16 ≡ p = omega (arith, small) in
    let front = cells w adj n p 0 (label_bytes lids) in
    let size : 18 + n * 4 ≡ length front =
      omega (arith, length-cells w adj n p 0 (label_bytes lids), length-label_bytes lids) in
    rw (
      count,
      same,
      put-cells w adj n p 0 p lids,
      cells-append w adj n p 0 (label_bytes lids) (zeros p),
      put_next (18 + n * 4) front props p 0 size (omega arith),
      append-nil (front ++ props),
      cells-append w adj n p 0 (label_bytes lids) props,
    )

build_node_data_outside :
    (id : ℤ) (adj ovf : ℕ) (lids : List ℤ)
    → length lids ≤ max_labels_per_node
    → (ovf == 0) ≡ false
    → build_node_data id adj lids [] ovf
      ≡ cells (to_bits (2 ^ 63) id) adj (length lids) 0 ovf (label_bytes lids ++ [])
unfolding build_node_data zeros
build_node_data_outside id adj ovf lids few outside =
    let count : length lids % 256 ≡ length lids = omega (arith, few) in
    rw (count, outside, put-cells (to_bits (2 ^ 63) id) adj (length lids) 0 ovf 0 lids)

module _ (r : NodeRecord) (h : IsNodeRecord r) where
  node_data-cells :
      node_data r
      ≡ cells
          (to_bits (2 ^ 63) r.node_id)
          r.adj_slot_idx
          (length r.label_ids)
          (length r.prop_bytes)
          r.overflow_blkno
          (label_bytes r.label_ids ++ r.prop_bytes)
  node_data-cells = both r.adj_slot_idx r.overflow_blkno r.prop_bytes h.prop_bytes h.moved_out
    where
      both :
          (adj ovf : ℕ) (props : List ℕ)
          → length props ≤ prop_inline_max
          → ((ovf == 0) ≡ false → props ≡ [])
          → build_node_data r.node_id adj r.label_ids props ovf
            ≡ cells
                (to_bits (2 ^ 63) r.node_id)
                adj
                (length r.label_ids)
                (length props)
                ovf
                (label_bytes r.label_ids ++ props)
      both adj ovf props small moved = elim (Bool-cases (ovf == 0)) [
        | inl inline ↦
            let e : ovf ≡ 0 = ground arith in
            rw e (build_node_data_inline r.node_id adj r.label_ids props h.label_count small)
        | inr outside ↦
            rw (moved outside)
              (build_node_data_outside r.node_id adj ovf r.label_ids h.label_count outside)
      ]

  -- What the data part holds before and behind `adj_slot_idx`.
  pub node_data-front :
      node_data r
      ≡ le_bytes 8 (to_bits (2 ^ 63) r.node_id)
        ++ (le_bytes 2 r.adj_slot_idx ++ behind_adj r.label_ids r.prop_bytes r.overflow_blkno)
  unfolding behind_adj
  node_data-front = node_data-cells

  pub length-node_data : length (node_data r) ≡ 18 + length r.label_ids * 4 + length r.prop_bytes
  length-node_data = omega (
    arith,
    ap length node_data-cells,
    length-cells (to_bits (2 ^ 63) r.node_id) r.adj_slot_idx (length r.label_ids)
        (length r.prop_bytes) r.overflow_blkno (label_bytes r.label_ids ++ r.prop_bytes),
    length-append (label_bytes r.label_ids) r.prop_bytes,
    length-label_bytes r.label_ids,
  )

  -- A node's data part, as `build_node_item_bytes_ovf` writes it, is decoded to the node's fields,
  -- if these fit their widths, with as many labels as a node may have and with its properties
  -- inline or moved out to an overflow block.
  pub decode_node-build_node_data : decode_node (node_data r) (length (node_data r)) ≡ some r
  unfolding decode_node
  decode_node-build_node_data =
      let w = to_bits (2 ^ 63) r.node_id in
      let n = length r.label_ids in
      let p = length r.prop_bytes in
      let rest = label_bytes r.label_ids ++ r.prop_bytes in
      let a0 : At (node_data r) 0 (cells w r.adj_slot_idx n p r.overflow_blkno rest) =
        rw node_data-cells (At-start _) in
      let a8 = At-move (le_bytes 8 w) 8 a0 (omega (arith, length-le_bytes 8 w)) in
      let a10 =
        At-move (le_bytes 2 r.adj_slot_idx) 10 a8
          (omega (arith, length-le_bytes 2 r.adj_slot_idx)) in
      let a11 = At-move (n ∷ []) 11 a10 (omega arith) in
      let a13 = At-move (le_bytes 2 p) 13 a11 (omega (arith, length-le_bytes 2 p)) in
      let a17 =
        At-move (le_bytes 4 r.overflow_blkno) 17 a13
          (omega (arith, length-le_bytes 4 r.overflow_blkno)) in
      let a18 = At-move (0 ∷ []) 18 a17 (omega arith) in
      let ae : At (node_data r) (18 + n * 4) (r.prop_bytes ++ []) = rw (append-nil r.prop_bytes) (
        At-move (label_bytes r.label_ids) (18 + n * 4) a18
          (omega (arith, length-label_bytes r.label_ids))) in
      let plen : from_le (le_bytes 2 p) ≡ p = from_le-le_bytes 2 p (omega (arith, h.prop_bytes)) in
      let fits : ltb (18 + n * 4 + p) (18 + n * 4 + p) ≡ false = ground arith in
      let long : ltb (18 + n * 4 + p) 18 ≡ false = le→ltb _ _ (omega arith) in
      rw (
        At-slice (le_bytes 8 w) _ 8 a0 (sym (length-le_bytes 8 w)),
        At-slice (le_bytes 2 r.adj_slot_idx) _ 2 a8 (sym (length-le_bytes 2 r.adj_slot_idx)),
        At-get a10,
        At-slice (le_bytes 2 p) _ 2 a11 (sym (length-le_bytes 2 p)),
        At-slice (le_bytes 4 r.overflow_blkno) _ 4 a13 (sym (length-le_bytes 4 r.overflow_blkno)),
        plen,
        length-node_data,
        long,
        fits,
        At-slice r.prop_bytes _ p ae refl,
        read_labels_lem (node_data r) 0 r.label_ids r.prop_bytes h.label_ids a18,
        from_le-le_bytes 8 _ (to_bits-lt (2 ^ 63) r.node_id h.node_id),
        from_bits-to_bits (2 ^ 63) r.node_id h.node_id,
        from_le-le_bytes 2 _ h.adj_slot_idx,
        from_le-le_bytes 4 _ h.overflow_blkno,
        if_nonempty r.prop_bytes,
      )
