-- ===== src/Edges/Linked.antt =====
-- storage/edge_store.rs: what `insert_edge` makes of the chains of its two nodes.
use pg_eddy.Common.{
  ℕ, ◌+◌, ◌^◌, ◌<◌, ◌≡◌, ap, ◌∙◌, inl, inr, Bool, true, false, some, Option, Option-cases, ◌&&◌,
  Bool-cases, List, ◌∷◌, arith, ltb, length, ◌==◌, if◌then◌else◌, Result, ok, fail_if, >>=-eq-ok,
}
use pg_eddy.Common.Int.{ℤ}
use pg_eddy.Page.{
  NodeAdjHeader, adj_header_bytes, prop_inline_max, out_head_pg, out_head_sl, in_head_pg,
  in_head_sl, in_degree,
}
use pg_eddy.Page.Header.{Fields, fields}
use pg_eddy.Edges.{EdgeRecord, Postgres}
use pg_eddy.Edges.Record.{IsEdgeRecord, edge_data}
use pg_eddy.Edges.Follow.{read_adj_header}
use pg_eddy.Edges.Chain.{Chain}
use pg_eddy.Edges.Store.{
  Store, StoreError, props_too_large, find_or_extend_edge_page, source_header, target_header,
  link_at, link_edge, insert_edge,
}
use pg_eddy.Edges.Delete.{Chain-Keeps}
use pg_eddy.Edges.Headers.{
  HasSlot, source_header-fields, target_header-fields, length-read_adj_header,
}
use pg_eddy.Edges.Added.{AddsItems, find_or_extend_edge_page-Keeps}
use pg_eddy.Edges.Insert.{
  new_item, linked, next_of-new_out, next_of-new_in, in_front, both, read_source, read_target,
}

ok-injective : {a b : Store} → Path (Result StoreError Store) (ok a) (ok b) → a ≡ b
ok-injective e = cc

and_eq : (a b c d : ℕ) → ((a == b) && (c == d)) ≡ true → (a ≡ b) × (c ≡ d)
and_eq a b c d h = (ground arith, ground arith)

-- The header of a node.
abbrev pub header_of : Store → (blk idx : ℕ) → NodeAdjHeader
header_of st blk idx = read_adj_header (st.special blk) idx

module _ (pg : Postgres) where
  -- A new place stands in front of the source's outgoing and of the target's incoming chain.
  pub record Linked (st st' : Store) (src_blk si tgt_blk ti : ℕ) : Type 0 where
    pub place : ℕ × ℕ
    pub out_chain :
        (places : List (ℕ × ℕ))
        → Chain pg st.edges true
            (out_head_pg (header_of st src_blk si))
            (out_head_sl (header_of st src_blk si))
            places
        → Chain pg st'.edges true
            (out_head_pg (header_of st' src_blk si))
            (out_head_sl (header_of st' src_blk si))
            (place ∷ places)
    pub in_chain :
        (places : List (ℕ × ℕ))
        → Chain pg st.edges false
            (in_head_pg (header_of st tgt_blk ti))
            (in_head_sl (header_of st tgt_blk ti))
            places
        → Chain pg st'.edges false
            (in_head_pg (header_of st' tgt_blk ti))
            (in_head_sl (header_of st' tgt_blk ti))
            (place ∷ places)

  -- The record of the new edge.
  abbrev pub new_record :
      (edge_id rel_type_id src_id tgt_id : ℤ) → List ℕ → (src tgt : NodeAdjHeader) → EdgeRecord
  new_record edge_id rel_type_id src_id tgt_id props src tgt = record {
    edge_id = edge_id;
    rel_type_id = rel_type_id;
    source_node_id = src_id;
    target_node_id = tgt_id;
    prop_bytes = props;
    block_num = 0;
    offset_num = 0;
    next_out_page = out_head_pg src;
    next_out_slot = out_head_sl src;
    next_in_page = in_head_pg tgt;
    next_in_slot = in_head_sl tgt;
  }

  -- The headers that are written, and what is read of them.
  module _ (st : Store) (src_blk si tgt_blk ti blk off : ℕ) (small_blk : blk < 2 ^ 32)
      (small_off : off < 2 ^ 16) (src_fits : HasSlot (st.special src_blk) si)
      (tgt_fits : HasSlot (st.special tgt_blk) ti) where
    abbrev src_new : NodeAdjHeader
    src_new = source_header pg (header_of st src_blk si) blk off

    abbrev tgt_new : Bool → NodeAdjHeader
    tgt_new self_loop =
        target_header pg (if self_loop then src_new else header_of st tgt_blk ti)
          (in_degree (header_of st tgt_blk ti)) blk off

    abbrev written : ℕ → List ℕ
    written =
        both st.special src_blk si tgt_blk ti src_new (tgt_new ((src_blk == tgt_blk) && (si == ti)))

    src_whole : length (header_of st src_blk si) ≡ adj_header_bytes
    src_whole = length-read_adj_header (st.special src_blk) si src_fits

    new_whole : length src_new ≡ adj_header_bytes
    new_whole =
        (source_header-fields pg (header_of st src_blk si) src_whole blk off small_blk small_off).0

    start_whole :
        (b : Bool) → length (if b then src_new else header_of st tgt_blk ti) ≡ adj_header_bytes
    start_whole true = new_whole
    start_whole false = length-read_adj_header (st.special tgt_blk) ti tgt_fits

    src_heads : (out_head_pg src_new ≡ blk) × (out_head_sl src_new ≡ off)
    unfolding fields
    src_heads =
        let f =
          (source_header-fields pg (header_of st src_blk si) src_whole blk off small_blk
            small_off).1 in
        (ap (λ (x : Fields). x.out_pg) f, ap (λ (x : Fields). x.out_sl) f)

    tgt_fields :
        (b : Bool)
        → let start = if b then src_new else header_of st tgt_blk ti in
          (length (tgt_new b) ≡ adj_header_bytes)
          × (in_head_pg (tgt_new b) ≡ blk)
          × (in_head_sl (tgt_new b) ≡ off)
          × (out_head_pg (tgt_new b) ≡ out_head_pg start)
          × (out_head_sl (tgt_new b) ≡ out_head_sl start)
    unfolding fields
    tgt_fields b =
        let (n, f) =
          target_header-fields pg (if b then src_new else header_of st tgt_blk ti) (start_whole b)
            blk off small_blk small_off (in_degree (header_of st tgt_blk ti)) in
        (
          n,
          ap (λ (x : Fields). x.in_pg) f,
          ap (λ (x : Fields). x.in_sl) f,
          ap (λ (x : Fields). x.out_pg) f,
          ap (λ (x : Fields). x.out_sl) f,
        )

    read_tgt : read_adj_header (written tgt_blk) ti ≡ tgt_new ((src_blk == tgt_blk) && (si == ti))
    read_tgt =
        let b = (src_blk == tgt_blk) && (si == ti) in
        read_target st.special src_blk si tgt_blk ti src_new (tgt_new b) src_fits tgt_fits new_whole
          (tgt_fields b).0

    src_heads_written :
        (out_head_pg (read_adj_header (written src_blk) si) ≡ blk)
        × (out_head_sl (read_adj_header (written src_blk) si) ≡ off)
    src_heads_written =
        let b = (src_blk == tgt_blk) && (si == ti) in
        elim (Bool-cases b) [
          | inr apart ↦
              let e =
                read_source st.special src_blk si tgt_blk ti src_new (tgt_new b) src_fits tgt_fits
                  new_whole (tgt_fields b).0 apart in
              (ap out_head_pg e ∙ src_heads.0, ap out_head_sl e ∙ src_heads.1)
          | inl loop ↦
              let (same_blk, same_idx) = and_eq src_blk tgt_blk si ti loop in
              let e : read_adj_header (written src_blk) si ≡ tgt_new b =
                ap (λ k. read_adj_header (written k) si) same_blk
                ∙ ap (read_adj_header (written tgt_blk)) same_idx
                ∙ read_tgt in
              let start : (if b then src_new else header_of st tgt_blk ti) ≡ src_new = rw loop in
              let (_, _, _, opg, osl) = tgt_fields b in
              (
                ap out_head_pg e ∙ opg ∙ ap out_head_pg start ∙ src_heads.0,
                ap out_head_sl e ∙ osl ∙ ap out_head_sl start ∙ src_heads.1,
              )
        ]

    tgt_heads_written :
        (in_head_pg (read_adj_header (written tgt_blk) ti) ≡ blk)
        × (in_head_sl (read_adj_header (written tgt_blk) ti) ≡ off)
    tgt_heads_written =
        let (_, ipg, isl, _, _) = tgt_fields ((src_blk == tgt_blk) && (si == ti)) in
        (ap in_head_pg read_tgt ∙ ipg, ap in_head_sl read_tgt ∙ isl)

  module _ (adds : AddsItems pg) (edge_id rel_type_id src_id tgt_id : ℤ) (props : List ℕ)
      (src_blk si tgt_blk ti : ℕ) (st : Store) (src_fits : HasSlot (st.special src_blk) si)
      (tgt_fits : HasSlot (st.special tgt_blk) ti) (room : st.edges.nblocks < 2 ^ 32)
      (fits : IsEdgeRecord (
        new_record edge_id rel_type_id src_id tgt_id props
          (header_of st src_blk si)
          (header_of st tgt_blk ti))) where
    abbrev r : EdgeRecord
    r =
        new_record edge_id rel_type_id src_id tgt_id props (header_of st src_blk si)
          (header_of st tgt_blk ti)

    link_at-Linked :
        {st' : Store}
        → link_at pg edge_id rel_type_id src_id tgt_id props src_blk si tgt_blk ti
            ((src_blk == tgt_blk) && (si == ti))
            (header_of st src_blk si)
            (header_of st tgt_blk ti)
            st
          ≡ ok st'
        → Linked st st' src_blk si tgt_blk ti
    unfolding link_at
    link_at-Linked {st'} e =
        let found = find_or_extend_edge_page pg st.edges (pg.hdr_size + length (edge_data r)) in
        let (keeps, on_disk, low) =
          find_or_extend_edge_page-Keeps pg st.edges (pg.hdr_size + length (edge_data r)) in
        elim (Option-cases (pg.page_add_item (found.0.page found.1) (new_item pg r fits))) [
          | inl full ↦ absurd (cc (rw (full, link_at) at e))
          | inr ((page', off), done) ↦
              let added = adds (found.0.page found.1) (new_item pg r fits) page' off done in
              let q = ok-injective (rw (done, link_at) at e) in
              let small : found.1 < 2 ^ 32 = omega (arith, low, room) in
              let (opg, osl) =
                src_heads_written st src_blk si tgt_blk ti found.1 off small added.small src_fits
                  tgt_fits in
              let (ipg, isl) =
                tgt_heads_written st src_blk si tgt_blk ti found.1 off small added.small src_fits
                  tgt_fits in
              let slot = linked pg r fits found.0 found.1 off page' on_disk added in
              rw (← q) (record {
                place = (found.1, off);
                out_chain = λ places chain.
                    rw (opg, osl)
                      (in_front pg r fits found.0 found.1 off page' on_disk added true
                        (out_head_pg (header_of st src_blk si))
                        (out_head_sl (header_of st src_blk si)) places
                        (next_of-new_out pg r fits slot added.flags added.len added.bytes)
                        (Chain-Keeps pg st.edges found.0 true
                          (out_head_pg (header_of st src_blk si))
                          (out_head_sl (header_of st src_blk si)) places keeps chain));
                in_chain = λ places chain.
                    rw (ipg, isl)
                      (in_front pg r fits found.0 found.1 off page' on_disk added false
                        (in_head_pg (header_of st tgt_blk ti))
                        (in_head_sl (header_of st tgt_blk ti)) places
                        (next_of-new_in pg r fits slot added.flags added.len added.bytes)
                        (Chain-Keeps pg st.edges found.0 false
                          (in_head_pg (header_of st tgt_blk ti))
                          (in_head_sl (header_of st tgt_blk ti)) places keeps chain));
              })
        ]

    -- For a self-loop the code takes the source's header, which is the target's.
    same_header :
        (if (src_blk == tgt_blk) && (si == ti)
          then header_of st src_blk si
          else header_of st tgt_blk ti)
        ≡ header_of st tgt_blk ti
    same_header = elim (Bool-cases ((src_blk == tgt_blk) && (si == ti))) [
      | inl loop ↦
          let (same_blk, same_idx) = and_eq src_blk tgt_blk si ti loop in
          rw loop (ap (λ b. header_of st b si) same_blk ∙ ap (header_of st tgt_blk) same_idx)
      | inr apart ↦ rw apart
    ]

    -- After a successful `insert_edge` one new place stands in front of the outgoing chain of the
    -- source and in front of the incoming chain of the target, and both chains go on behind it as
    -- they were, also for a self-loop and for nodes that share a page. Both nodes are found, their
    -- headers lie inside the special areas, the record's fields fit their widths, block numbers fit
    -- 32 bits, and PostgreSQL adds an item as it promises.
    pub insert_edge-Linked :
        (find_node_location : ℤ → Option (ℕ × ℕ × ℕ)) (src_off tgt_off : ℕ) (st' : Store)
        → find_node_location src_id ≡ some (src_blk, src_off, si)
        → find_node_location tgt_id ≡ some (tgt_blk, tgt_off, ti)
        → insert_edge pg find_node_location edge_id rel_type_id src_id tgt_id props st ≡ ok st'
        → Linked st st' src_blk si tgt_blk ti
    unfolding insert_edge link_edge
    insert_edge-Linked find_node_location src_off tgt_off st' src_found tgt_found e =
        let (_, _, e₁) =
          >>=-eq-ok (fail_if (ltb prop_inline_max (length props)) (props_too_large (length props)))
            _ e in
        link_at-Linked (rw same_header at (rw (src_found, tgt_found) at e₁))
