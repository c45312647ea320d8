-- ===== src/Edges/Insert.antt =====
-- storage/edge_store.rs: `insert_edge` puts the new edge in front of both chains.
use pg_eddy.Common.{
  ℕ, ◌+◌, ◌-◌, ◌≤◌, ◌<◌, ◌≡◌, ◌≢◌, sym, ap, ◌∙◌, inl, inr, Bool, true, false, some, ◌&&◌,
  Bool-cases, List, ◌∷◌, arith, ltb, le→ltb, length, take, ◌==◌, ==_self,
}
use pg_eddy.Common.Bytes.{from_le-le_bytes}
use pg_eddy.Page.{NodeAdjHeader, adj_header_bytes, edge_fixed_data_size}
use pg_eddy.Edges.{EdgeRecord, Item, Slot, Page, EdgeRelation, Postgres, lp_normal}
use pg_eddy.Edges.Record.{IsEdgeRecord, edge_data, edge_data-Slices, length-edge_data}
use pg_eddy.Edges.Scan.{item_data}
use pg_eddy.Edges.Follow.{followable, next_of, read_adj_header}
use pg_eddy.Edges.Chain.{Chain, chain_link}
use pg_eddy.Edges.Store.{write_adj_header, set_special, new_header}
use pg_eddy.Edges.Delete.{changed, Chain-Keeps}
use pg_eddy.Edges.Headers.{
  HasSlot, length-write_adj_header, read-write_adj_header, read-write_adj_header_other,
  set_special_same, set_special_other,
}
use pg_eddy.Edges.Added.{Added, Keeps-changed}

module _ (pg : Postgres) (r : EdgeRecord) (h : IsEdgeRecord r) where
  abbrev pub new_item : Item
  new_item = record { header = new_header pg; bytes = edge_data r }

  -- What a chain finds in a slot that holds the new item.
  module _ (s : Slot) (flags : s.lp_flags ≡ lp_normal)
      (len : s.lp_len ≡ pg.hdr_size + length (edge_data r))
      (bytes : take (length (edge_data r)) s.memory ≡ edge_data r) where
    item_data-new : item_data pg s ≡ edge_data r
    item_data-new =
        let n : pg.hdr_size + length (edge_data r) - pg.hdr_size ≡ length (edge_data r) =
          omega arith in
        rw (len, n) bytes

    followable-new : followable pg s ≡ true
    followable-new =
        let long : ltb (pg.hdr_size + length (edge_data r)) (pg.hdr_size + edge_fixed_data_size)
            ≡ false =
          le→ltb _ _ (omega (arith, length-edge_data r h)) in
        rw (flags, len, long)

    pub next_of-new_out : next_of pg true s ≡ (r.next_out_page, r.next_out_slot)
    next_of-new_out =
        let (_, _, _, _, opg, osl, _, _, _, _) = edge_data-Slices r h in
        rw (
          item_data-new,
          opg,
          osl,
          from_le-le_bytes 4 _ h.next_out_page,
          from_le-le_bytes 2 _ h.next_out_slot,
        )

    pub next_of-new_in : next_of pg false s ≡ (r.next_in_page, r.next_in_slot)
    next_of-new_in =
        let (_, _, _, _, _, _, ipg, isl, _, _) = edge_data-Slices r h in
        rw (
          item_data-new,
          ipg,
          isl,
          from_le-le_bytes 4 _ h.next_in_page,
          from_le-le_bytes 2 _ h.next_in_slot,
        )

  -- The relation after the item has been added to one of its pages and got its `t_ctid`.
  module _ (rel : EdgeRelation) (blk off : ℕ) (page' : Page) (on_disk : blk < rel.nblocks)
      (added : Added pg (rel.page blk) new_item page' off) where
    abbrev pub linked : Slot
    linked =
        let s = page'.slot off in record s { header = record (s.header) { ctid = some (blk, off) } }

    abbrev pub after : EdgeRelation
    after = changed blk off linked page' rel

    slot_after : (after.page blk).slot off ≡ linked
    slot_after = rw (==_self blk, ==_self off)

    max_off_after : off ≤ (after.page blk).max_off
    max_off_after = rw (==_self blk) added.inside

    -- A chain through the old relation, with the new edge in front of it.
    pub in_front :
        (is_out : Bool) (p sl : ℕ) (places : List (ℕ × ℕ))
        → next_of pg is_out linked ≡ (p, sl)
        → Chain pg rel is_out p sl places
        → Chain pg after is_out blk off ((blk, off) ∷ places)
    in_front is_out p sl places next chain =
        chain_link added.numbered on_disk max_off_after
          (rw slot_after (followable-new linked added.flags added.len added.bytes))
          (rw (slot_after, next)
            (Chain-Keeps pg rel after is_out p sl places
              (Keeps-changed pg rel blk off new_item page' linked added) chain))

-- The two writes of headers: what is read back at the two places.
module _ (special : ℕ → List ℕ) (src_blk si tgt_blk ti : ℕ) (src_new tgt_new : NodeAdjHeader) where
  abbrev pub first : ℕ → List ℕ
  first = set_special src_blk (write_adj_header (special src_blk) si src_new) special

  abbrev pub both : ℕ → List ℕ
  both = set_special tgt_blk (write_adj_header (first tgt_blk) ti tgt_new) first

  module _ (src_fits : HasSlot (special src_blk) si) (tgt_fits : HasSlot (special tgt_blk) ti)
      (src_whole : length src_new ≡ adj_header_bytes)
      (tgt_whole : length tgt_new ≡ adj_header_bytes) where
    first_fits : HasSlot (first tgt_blk) ti
    first_fits = elim (Bool-cases (tgt_blk == src_blk)) [
      | inl same ↦
          let e : tgt_blk ≡ src_blk = ground arith in
          let n = length-write_adj_header (special src_blk) si src_new src_fits src_whole in
          rw same (omega (arith, n, tgt_fits, ap (λ b. length (special b)) e))
      | inr differ ↦ rw differ tgt_fits
    ]

    pub read_target : read_adj_header (both tgt_blk) ti ≡ tgt_new
    read_target =
        ap (λ t. read_adj_header t ti)
          (set_special_same tgt_blk (write_adj_header (first tgt_blk) ti tgt_new) first)
        ∙ read-write_adj_header (first tgt_blk) ti tgt_new first_fits tgt_whole

    read_first : read_adj_header (first src_blk) si ≡ src_new
    read_first =
        ap (λ t. read_adj_header t si)
          (set_special_same src_blk (write_adj_header (special src_blk) si src_new) special)
        ∙ read-write_adj_header (special src_blk) si src_new src_fits src_whole

    pub read_source :
        ((src_blk == tgt_blk) && (si == ti)) ≡ false → read_adj_header (both src_blk) si ≡ src_new
    read_source apart = elim (Bool-cases (src_blk == tgt_blk)) [
      | inr differ ↦
          let ne : src_blk ≢ tgt_blk = ground arith in
          ap (λ t. read_adj_header t si)
            (set_special_other tgt_blk src_blk (write_adj_header (first tgt_blk) ti tgt_new) first
              ne)
          ∙ read_first
      | inl same ↦
          let e : src_blk ≡ tgt_blk = ground arith in
          let ne : si ≢ ti = ground arith in
          ap (λ b. read_adj_header (both b) si) e
          ∙ ap (λ t. read_adj_header t si)
              (set_special_same tgt_blk (write_adj_header (first tgt_blk) ti tgt_new) first)
          ∙ read-write_adj_header_other (first tgt_blk) ti tgt_new first_fits tgt_whole si ne
          ∙ ap (λ b. read_adj_header (first b) si) (sym e)
          ∙ read_first
    ]
