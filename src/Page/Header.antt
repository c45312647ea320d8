-- ===== src/Page/Header.antt =====
-- storage/page.rs: the setters of `NodeAdjHeader` write one field each.
use pg_eddy.Common.{
  ℕ, ◌+◌, ◌-◌, ◌^◌, ◌≤◌, ◌<◌, ◌≡◌, refl, sym, ap, ◌∙◌, ◌⊎◌, inl, inr, List, ◌++◌, arith, length,
  length-append, length-take, length-drop, take, drop, take-append-drop, take-append_le,
  drop-append_le,
}
use pg_eddy.Common.Bytes.{le_bytes, length-le_bytes, from_le, from_le-le_bytes}
use pg_eddy.Common.Position.{At, At-start, At-move, At-slice, drop_add}
use pg_eddy.Page.{
  slice, put, NodeAdjHeader, adj_header_bytes, out_head_pg, out_head_sl, in_head_pg, in_head_sl,
  out_degree, in_degree, graph_partition_id, set_out_head_pg, set_out_head_sl, set_in_head_pg,
  set_in_head_sl, set_out_degree, set_in_degree, set_graph_partition_id,
}

module _ (off : ℕ) (bs buf : List ℕ) (fits : off + length bs ≤ length buf) where
  pub length-put : length (put off bs buf) ≡ length buf
  unfolding put
  length-put = omega (
    arith,
    length-append (take off buf) (bs ++ drop (off + length bs) buf),
    length-append bs (drop (off + length bs) buf),
    length-take off buf,
    length-drop (off + length bs) buf,
  )

  put-At : At (put off bs buf) off (bs ++ drop (off + length bs) buf)
  unfolding put
  put-At =
      At-move (take off buf) off (At-start (take off buf ++ (bs ++ drop (off + length bs) buf)))
        (omega (arith, length-take off buf))

  -- Reading what was written, in front of it, and behind it.
  pub slice-put : (n : ℕ) → n ≡ length bs → slice (put off bs buf) off n ≡ bs
  slice-put n e = At-slice bs (drop (off + length bs) buf) n put-At e

  pub slice-put_before : (a n : ℕ) → a + n ≤ off → slice (put off bs buf) a n ≡ slice buf a n
  unfolding put
  slice-put_before a n before =
      let front = take off buf in
      let near : (back : List ℕ) → slice (front ++ back) a n ≡ slice front a n = λ back.
        ap (take n) (drop-append_le a front back (omega (arith, length-take off buf)))
        ∙ take-append_le n (drop a front) back
            (omega (arith, length-take off buf, length-drop a front)) in
      near (bs ++ drop (off + length bs) buf)
      ∙ sym (near (drop off buf))
      ∙ ap (λ t. slice t a n) (take-append-drop off buf)

  pub slice-put_behind :
      (a n : ℕ) → off + length bs ≤ a → slice (put off bs buf) a n ≡ slice buf a n
  slice-put_behind a n behind =
      let e = off + length bs in
      let same : drop e (put off bs buf) ≡ drop e buf = (At-move bs e put-At refl).from_here in
      ap (take n) (
        drop_add e (a - e) a (put off bs buf) (omega arith)
        ∙ ap (drop (a - e)) same
        ∙ sym (drop_add e (a - e) a buf (omega arith)))

-- The fields of a header as numbers.
pub record Fields : Type 0 where
  pub out_pg : ℕ
  pub out_sl : ℕ
  pub in_pg : ℕ
  pub in_sl : ℕ
  pub out_deg : ℕ
  pub in_deg : ℕ
  pub partition : ℕ

unfoldable pub fields : NodeAdjHeader → Fields
fields h = record {
  out_pg = out_head_pg h;
  out_sl = out_head_sl h;
  in_pg = in_head_pg h;
  in_sl = in_head_sl h;
  out_deg = out_degree h;
  in_deg = in_degree h;
  partition = graph_partition_id h;
}

module _ (k v off : ℕ) (h : NodeAdjHeader) (fits : off + k ≤ length h) where
  word_fits : off + length (le_bytes k v) ≤ length h
  word_fits = omega (arith, length-le_bytes k v)

  word_same : v < 256 ^ k → from_le (slice (put off (le_bytes k v) h) off k) ≡ v
  word_same small =
      ap from_le (slice-put off (le_bytes k v) h word_fits k (sym (length-le_bytes k v)))
      ∙ from_le-le_bytes k v small

  word_other :
      (a n : ℕ)
      → (a + n ≤ off) ⊎ (off + k ≤ a)
      → from_le (slice (put off (le_bytes k v) h) a n) ≡ from_le (slice h a n)
  word_other a n (inl before) =
      ap from_le (slice-put_before off (le_bytes k v) h word_fits a n before)
  word_other a n (inr behind) =
      ap from_le
        (slice-put_behind off (le_bytes k v) h word_fits a n (omega (arith, length-le_bytes k v)))

module _ (h : NodeAdjHeader) (whole : length h ≡ adj_header_bytes) (v : ℕ) where
  pub set_out_head_pg_lem :
      v < 2 ^ 32 → fields (set_out_head_pg v h) ≡ record (fields h) { out_pg = v }
  unfolding fields set_out_head_pg out_head_pg out_head_sl in_head_pg in_head_sl out_degree
      in_degree graph_partition_id
  set_out_head_pg_lem small =
      let fits : 0 + 4 ≤ length h = omega arith in
      let other = word_other 4 v 0 h fits in
      rw (
        word_same 4 v 0 h fits small,
        other 4 2 (inr (omega arith)),
        other 6 4 (inr (omega arith)),
        other 10 2 (inr (omega arith)),
        other 12 4 (inr (omega arith)),
        other 16 4 (inr (omega arith)),
        other 20 4 (inr (omega arith)),
      )

  pub set_out_head_sl_lem :
      v < 2 ^ 16 → fields (set_out_head_sl v h) ≡ record (fields h) { out_sl = v }
  unfolding fields set_out_head_sl out_head_pg out_head_sl in_head_pg in_head_sl out_degree
      in_degree graph_partition_id
  set_out_head_sl_lem small =
      let fits : 4 + 2 ≤ length h = omega arith in
      let other = word_other 2 v 4 h fits in
      rw (
        word_same 2 v 4 h fits small,
        other 0 4 (inl (omega arith)),
        other 6 4 (inr (omega arith)),
        other 10 2 (inr (omega arith)),
        other 12 4 (inr (omega arith)),
        other 16 4 (inr (omega arith)),
        other 20 4 (inr (omega arith)),
      )

  pub set_in_head_pg_lem :
      v < 2 ^ 32 → fields (set_in_head_pg v h) ≡ record (fields h) { in_pg = v }
  unfolding fields set_in_head_pg out_head_pg out_head_sl in_head_pg in_head_sl out_degree in_degree
      graph_partition_id
  set_in_head_pg_lem small =
      let fits : 6 + 4 ≤ length h = omega arith in
      let other = word_other 4 v 6 h fits in
      rw (
        word_same 4 v 6 h fits small,
        other 0 4 (inl (omega arith)),
        other 4 2 (inl (omega arith)),
        other 10 2 (inr (omega arith)),
        other 12 4 (inr (omega arith)),
        other 16 4 (inr (omega arith)),
        other 20 4 (inr (omega arith)),
      )

  pub set_in_head_sl_lem :
      v < 2 ^ 16 → fields (set_in_head_sl v h) ≡ record (fields h) { in_sl = v }
  unfolding fields set_in_head_sl out_head_pg out_head_sl in_head_pg in_head_sl out_degree in_degree
      graph_partition_id
  set_in_head_sl_lem small =
      let fits : 10 + 2 ≤ length h = omega arith in
      let other = word_other 2 v 10 h fits in
      rw (
        word_same 2 v 10 h fits small,
        other 0 4 (inl (omega arith)),
        other 4 2 (inl (omega arith)),
        other 6 4 (inl (omega arith)),
        other 12 4 (inr (omega arith)),
        other 16 4 (inr (omega arith)),
        other 20 4 (inr (omega arith)),
      )

  pub set_out_degree_lem :
      v < 2 ^ 32 → fields (set_out_degree v h) ≡ record (fields h) { out_deg = v }
  unfolding fields set_out_degree out_head_pg out_head_sl in_head_pg in_head_sl out_degree in_degree
      graph_partition_id
  set_out_degree_lem small =
      let fits : 12 + 4 ≤ length h = omega arith in
      let other = word_other 4 v 12 h fits in
      rw (
        word_same 4 v 12 h fits small,
        other 0 4 (inl (omega arith)),
        other 4 2 (inl (omega arith)),
        other 6 4 (inl (omega arith)),
        other 10 2 (inl (omega arith)),
        other 16 4 (inr (omega arith)),
        other 20 4 (inr (omega arith)),
      )

  pub set_in_degree_lem : v < 2 ^ 32 → fields (set_in_degree v h) ≡ record (fields h) { in_deg = v }
  unfolding fields set_in_degree out_head_pg out_head_sl in_head_pg in_head_sl out_degree in_degree
      graph_partition_id
  set_in_degree_lem small =
      let fits : 16 + 4 ≤ length h = omega arith in
      let other = word_other 4 v 16 h fits in
      rw (
        word_same 4 v 16 h fits small,
        other 0 4 (inl (omega arith)),
        other 4 2 (inl (omega arith)),
        other 6 4 (inl (omega arith)),
        other 10 2 (inl (omega arith)),
        other 12 4 (inl (omega arith)),
        other 20 4 (inr (omega arith)),
      )

  set_graph_partition_id_lem :
      v < 2 ^ 32 → fields (set_graph_partition_id v h) ≡ record (fields h) { partition = v }
  unfolding fields set_graph_partition_id out_head_pg out_head_sl in_head_pg in_head_sl out_degree
      in_degree graph_partition_id
  set_graph_partition_id_lem small =
      let fits : 20 + 4 ≤ length h = omega arith in
      let other = word_other 4 v 20 h fits in
      rw (
        word_same 4 v 20 h fits small,
        other 0 4 (inl (omega arith)),
        other 4 2 (inl (omega arith)),
        other 6 4 (inl (omega arith)),
        other 10 2 (inl (omega arith)),
        other 12 4 (inl (omega arith)),
        other 16 4 (inl (omega arith)),
      )

-- Each setter of a 24 byte header changes the field that it is named for, to the value that it is
-- given, and no other field, where that value fits the four bytes of a page, a degree or the
-- partition (`v`), or the two bytes of a slot (`w`).
pub setters_lem :
    (h : NodeAdjHeader) (v w : ℕ)
    → length h ≡ adj_header_bytes
    → v < 2 ^ 32
    → w < 2 ^ 16
    → (fields (set_out_head_pg v h) ≡ record (fields h) { out_pg = v })
      × (fields (set_out_head_sl w h) ≡ record (fields h) { out_sl = w })
      × (fields (set_in_head_pg v h) ≡ record (fields h) { in_pg = v })
      × (fields (set_in_head_sl w h) ≡ record (fields h) { in_sl = w })
      × (fields (set_out_degree v h) ≡ record (fields h) { out_deg = v })
      × (fields (set_in_degree v h) ≡ record (fields h) { in_deg = v })
      × (fields (set_graph_partition_id v h) ≡ record (fields h) { partition = v })
setters_lem h v w whole small_v small_w = (
  set_out_head_pg_lem h whole v small_v,
  set_out_head_sl_lem h whole w small_w,
  set_in_head_pg_lem h whole v small_v,
  set_in_head_sl_lem h whole w small_w,
  set_out_degree_lem h whole v small_v,
  set_in_degree_lem h whole v small_v,
  set_graph_partition_id_lem h whole v small_v,
)
