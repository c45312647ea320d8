-- ===== src/Nodes/Placed.antt =====
-- storage/node_store.rs: what a node item is like once it lies in a page.
use pg_eddy.Common.{
  take_front, drop_front, ℕ, ◌+◌, ◌-◌, ◌^◌, ◌≡◌, sym, ap, ◌∙◌, true, false, some, List, ◌++◌, arith,
  ltb, ◌==◌, le→ltb, length, length-append, take, drop, take-append-drop, append_assoc,
}
use pg_eddy.Common.Bytes.{le_bytes, length-le_bytes, from_le-le_bytes}
use pg_eddy.Common.Int.{to_bits, to_bits-lt, from_bits-to_bits, eq_ℤ_self}
use pg_eddy.Common.Position.{At, At-start, At-move, At-slice, drop_add}
use pg_eddy.Page.{put}
use pg_eddy.Edges.{lp_normal, Slot}
use pg_eddy.Edges.Scan.{item_data}
use pg_eddy.Nodes.{NodeRecord, NodePage, NodePostgres, Snapshot}
use pg_eddy.Nodes.Record.{
  IsNodeRecord, node_data, behind_adj, node_data-front, length-node_data,
  decode_node-build_node_data,
}
use pg_eddy.Nodes.Scan.{xmin_visible, read_node_at_offset}
use pg_eddy.Nodes.Locate.{is_live_node, stored_adj_slot}

put_between :
    (id old new rest : List ℕ)
    → length id ≡ 8
    → length old ≡ 2
    → length new ≡ 2
    → put 8 new (id ++ (old ++ rest)) ≡ id ++ (new ++ rest)
unfolding put
put_between id old new rest size size_old size_new =
    let behind : drop (8 + length new) (id ++ (old ++ rest)) ≡ rest =
      drop_add 8 2 (8 + length new) (id ++ (old ++ rest)) (omega (arith, size_new))
      ∙ ap (drop 2) (drop_front 8 id (old ++ rest) size)
      ∙ drop_front 2 old rest size_old in
    rw (take_front 8 id (old ++ rest) size, behind)

-- Overwriting the two bytes behind the id in an item, of which only the front is known.
pub take-put_adj :
    (id tail memory : List ℕ) (old new : List ℕ) (n : ℕ)
    → length id ≡ 8
    → length old ≡ 2
    → length new ≡ 2
    → n ≡ length (id ++ (old ++ tail))
    → take n memory ≡ id ++ (old ++ tail)
    → take n (put 8 new memory) ≡ id ++ (new ++ tail)
take-put_adj id tail memory old new n size size_old size_new n_eq front =
    let rest = drop n memory in
    let whole : memory ≡ id ++ (old ++ (tail ++ rest)) =
      sym (take-append-drop n memory)
      ∙ ap (λ t. t ++ rest) front
      ∙ append_assoc id (old ++ tail) rest
      ∙ ap (λ t. id ++ t) (append_assoc old tail rest) in
    let n_new : n ≡ length (id ++ (new ++ tail)) = omega (
      arith,
      n_eq,
      length-append id (old ++ tail),
      length-append id (new ++ tail),
      length-append old tail,
      length-append new tail,
      size_old,
      size_new,
    ) in
    let regroup : id ++ (new ++ (tail ++ rest)) ≡ (id ++ (new ++ tail)) ++ rest =
      simp append_assoc in
    ap (λ t. take n (put 8 new t)) whole
    ∙ ap (take n) (put_between id old new (tail ++ rest) size size_old size_new ∙ regroup)
    ∙ take_front n (id ++ (new ++ tail)) rest (sym n_new)

module _ (pg : NodePostgres) where
  -- A slot that holds a node of the running transaction, not deleted.
  pub record Holds (s : Slot) (r : NodeRecord) : Type 0 where
    pub flags : s.lp_flags ≡ lp_normal
    pub len : s.lp_len ≡ pg.base.hdr_size + length (node_data r)
    pub bytes : take (length (node_data r)) s.memory ≡ node_data r
    pub xmin : s.header.xmin ≡ pg.base.current_xid
    pub not_committed : s.header.xmin_committed ≡ false
    pub not_invalid : s.header.xmin_invalid ≡ false
    pub not_deleted : s.header.xmax_invalid ≡ true

  module _ (s : Slot) (r : NodeRecord) (h : IsNodeRecord r) (holds : Holds s r) where
    data_len : s.lp_len - pg.base.hdr_size ≡ length (node_data r)
    data_len = omega (arith, holds.len)

    pub Holds-item_data : item_data pg.base s ≡ node_data r
    Holds-item_data = rw data_len holds.bytes

    long : ltb s.lp_len (pg.base.hdr_size + 18) ≡ false
    long = le→ltb _ _ (omega (arith, holds.len, length-node_data r h))

    pub Holds-read :
        (snapshot : Snapshot) (page : NodePage) (off : ℕ)
        → page.items.slot off ≡ s
        → (pg.base.current_xid == 0) ≡ false
        → pg.base.is_current_xid pg.base.current_xid ≡ true
        → read_node_at_offset pg snapshot page off ≡ some r
    unfolding read_node_at_offset xmin_visible
    Holds-read snapshot page off here valid own =
        rw
          (
            here, holds.flags, holds.not_committed, holds.not_invalid, holds.xmin, valid, own,
            holds.not_deleted, long, data_len, holds.bytes,
          )
          (decode_node-build_node_data r h)

    pub Holds-is_live_node :
        (is_live_node pg s r.node_id ≡ true) × (stored_adj_slot pg s ≡ r.adj_slot_idx)
    unfolding is_live_node stored_adj_slot
    Holds-is_live_node =
        let id = le_bytes 8 (to_bits (2 ^ 63) r.node_id) in
        let adj = le_bytes 2 r.adj_slot_idx in
        let tail = behind_adj r.label_ids r.prop_bytes r.overflow_blkno in
        let a0 : At (item_data pg.base s) 0 (id ++ (adj ++ tail)) =
          rw (Holds-item_data, node_data-front r h) (At-start (id ++ (adj ++ tail))) in
        let a8 = At-move id 8 a0 (omega (arith, length-le_bytes 8 (to_bits (2 ^ 63) r.node_id))) in
        let first = At-slice id _ 8 a0 (sym (length-le_bytes 8 (to_bits (2 ^ 63) r.node_id))) in
        let second = At-slice adj _ 2 a8 (sym (length-le_bytes 2 r.adj_slot_idx)) in
        (
          rw (
            holds.flags,
            long,
            first,
            from_le-le_bytes 8 _ (to_bits-lt (2 ^ 63) r.node_id h.node_id),
            from_bits-to_bits (2 ^ 63) r.node_id h.node_id,
            eq_ℤ_self r.node_id,
            holds.not_deleted,
          ),
          rw (second, from_le-le_bytes 2 _ h.adj_slot_idx),
        )
