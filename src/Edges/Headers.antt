-- ===== src/Edges/Headers.antt =====
-- storage/edge_store.rs: the adjacency headers that `insert_edge` writes, and where they lie.
use pg_eddy.Common.{
  ℕ, ◌+◌, ◌*◌, ◌%◌, ◌^◌, ◌≤◌, ◌<◌, ◌≡◌, ◌≢◌, sym, ap, ◌∙◌, inl, inr, ◌⊎◌, Bool-cases, List, arith,
  length, length-take, length-drop, ◌==◌, ==_self,
}
use pg_eddy.Common.Bytes.{le_bytes, length-le_bytes}
use pg_eddy.Page.{
  NodeAdjHeader, adj_header_bytes, put, set_out_head_pg, set_out_head_sl, set_in_head_pg,
  set_in_head_sl, set_out_degree, set_in_degree, out_degree,
}
use pg_eddy.Page.Header.{
  Fields, fields, length-put, slice-put, slice-put_before, slice-put_behind, set_out_head_pg_lem,
  set_out_head_sl_lem, set_in_head_pg_lem, set_in_head_sl_lem, set_out_degree_lem,
  set_in_degree_lem,
}
use pg_eddy.Edges.{Postgres}
use pg_eddy.Edges.Follow.{read_adj_header}
use pg_eddy.Edges.Store.{write_adj_header, source_header, target_header, set_special}

length-word :
    (k v off : ℕ) (h : NodeAdjHeader)
    → length h ≡ adj_header_bytes
    → off + k ≤ adj_header_bytes
    → length (put off (le_bytes k v) h) ≡ adj_header_bytes
length-word k v off h whole fits =
    length-put off (le_bytes k v) h (omega (arith, length-le_bytes k v)) ∙ whole

module _ (pg : Postgres) (h : NodeAdjHeader) (whole : length h ≡ adj_header_bytes) (blk off : ℕ)
    (small_blk : blk < 2 ^ 32) (small_off : off < 2 ^ 16) where
  pub source_header-fields :
      (length (source_header pg h blk off) ≡ adj_header_bytes)
      × (fields (source_header pg h blk off)
          ≡ record (fields h) { out_pg = blk; out_sl = off; out_deg = (out_degree h + 1) % 2 ^ 32 })
  unfolding source_header set_out_head_pg set_out_head_sl set_out_degree
  source_header-fields =
      let a = set_out_head_pg blk h in
      let la : length a ≡ adj_header_bytes = length-word 4 blk 0 h whole (omega arith) in
      let b = set_out_head_sl off a in
      let lb : length b ≡ adj_header_bytes = length-word 2 off 4 a la (omega arith) in
      let d = (out_degree h + 1) % 2 ^ 32 in
      (
        length-word 4 d 12 b lb (omega arith),
        set_out_degree_lem b lb d (omega arith)
            ∙ ap (λ (f : Fields). record f { out_deg = d })
                (set_out_head_sl_lem a la off small_off
                  ∙ ap (λ (f : Fields). record f { out_sl = off })
                      (set_out_head_pg_lem h whole blk small_blk)),
      )

  pub target_header-fields :
      (in_deg : ℕ)
      → (length (target_header pg h in_deg blk off) ≡ adj_header_bytes)
        × (fields (target_header pg h in_deg blk off)
            ≡ record (fields h) { in_pg = blk; in_sl = off; in_deg = (in_deg + 1) % 2 ^ 32 })
  unfolding target_header set_in_head_pg set_in_head_sl set_in_degree
  target_header-fields in_deg =
      let a = set_in_head_pg blk h in
      let la : length a ≡ adj_header_bytes = length-word 4 blk 6 h whole (omega arith) in
      let b = set_in_head_sl off a in
      let lb : length b ≡ adj_header_bytes = length-word 2 off 10 a la (omega arith) in
      let d = (in_deg + 1) % 2 ^ 32 in
      (
        length-word 4 d 16 b lb (omega arith),
        set_in_degree_lem b lb d (omega arith)
            ∙ ap (λ (f : Fields). record f { in_deg = d })
                (set_in_head_sl_lem a la off small_off
                  ∙ ap (λ (f : Fields). record f { in_sl = off })
                      (set_in_head_pg_lem h whole blk small_blk)),
      )

-- The header of a slot lies inside the special area.
abbrev pub HasSlot : List ℕ → ℕ → Type 0
HasSlot special idx = idx * adj_header_bytes + adj_header_bytes ≤ length special

pub length-read_adj_header :
    (special : List ℕ) (idx : ℕ)
    → HasSlot special idx
    → length (read_adj_header special idx) ≡ adj_header_bytes
unfolding read_adj_header
length-read_adj_header special idx fits =
    length-take adj_header_bytes _ (omega (arith, length-drop (idx * adj_header_bytes) special))

module _ (special : List ℕ) (idx : ℕ) (hdr : NodeAdjHeader) (fits : HasSlot special idx)
    (whole : length hdr ≡ adj_header_bytes) where
  pub length-write_adj_header : length (write_adj_header special idx hdr) ≡ length special
  unfolding write_adj_header
  length-write_adj_header = length-put (idx * adj_header_bytes) hdr special (omega arith)

  pub read-write_adj_header : read_adj_header (write_adj_header special idx hdr) idx ≡ hdr
  unfolding write_adj_header read_adj_header
  read-write_adj_header =
      slice-put (idx * adj_header_bytes) hdr special (omega arith) adj_header_bytes (sym whole)

  pub read-write_adj_header_other :
      (other : ℕ)
      → other ≢ idx
      → read_adj_header (write_adj_header special idx hdr) other ≡ read_adj_header special other
  unfolding write_adj_header read_adj_header
  read-write_adj_header_other other ne = elim (side other idx ne) [
    | inl below ↦
        slice-put_before (idx * adj_header_bytes) hdr special (omega arith)
          (other * adj_header_bytes) adj_header_bytes (omega arith)
    | inr above ↦
        slice-put_behind (idx * adj_header_bytes) hdr special (omega arith)
          (other * adj_header_bytes) adj_header_bytes (omega arith)
  ]
    where
      side : (a b : ℕ) → a ≢ b → (a + 1 ≤ b) ⊎ (b + 1 ≤ a)
      side a b ne = ground arith

pub set_special_same :
    (blk : ℕ) (bytes : List ℕ) (special : ℕ → List ℕ) → set_special blk bytes special blk ≡ bytes
set_special_same blk bytes special = rw (==_self blk)

pub set_special_other :
    (blk b : ℕ) (bytes : List ℕ) (special : ℕ → List ℕ)
    → b ≢ blk
    → set_special blk bytes special b ≡ special b
set_special_other blk b bytes special ne = elim (Bool-cases (b == blk)) [
  | inl same ↦ absurd (ne (ground arith))
  | inr differ ↦ rw differ
]
