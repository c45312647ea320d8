-- ===== src/Cdc/InBounds.antt =====
-- storage/cdc_protocol.rs: no method of `Reader` moves the offset behind the end of the payload, so
-- the subtraction in `finish` never underflows.
use Prim.Native.String.{String}
use pg_eddy.Common.{
  ℕ, zero, suc, ◌+◌, ◌-◌, ◌≤◌, ◌≡◌, refl, ◌∙◌, true, false, List, arith, ltb, ltb→le, inl, inr,
  Bool, [], take, drop, ap, ◌==◌, Bool-cases, length, if◌then◌else◌, Result, ok, err, >>=-eq-ok,
}
use pg_eddy.Common.Utf8.{is_utf8}
use pg_eddy.Json.{Json, SerdeJson}
use pg_eddy.Cdc.{
  NodeRow, EdgeRow, Mutation, node_insert, node_update, node_delete, edge_insert, edge_update,
  edge_delete, graph_reset, Frame, begin_frame, commit_frame, mutation_frame, ProtocolError,
  unknown_kind, kind_begin, kind_commit, kind_node_insert, kind_node_update, kind_node_delete,
  kind_edge_insert, kind_edge_update, kind_edge_delete, kind_graph_reset,
}
use pg_eddy.Cdc.Reader.{
  Reader, Read, ◌>>=◌, pure, fail_if, new, take_bytes, read_u16, read_u32, read_u64, read_i64,
  read_bytes, read_string, as_object, lift, read_labels, read_properties, read_node, read_edge,
}
use pg_eddy.Cdc.Decode.{decode_mutation_payload, is_mutation_kind, decode_kind}

-- `r'` is `r` moved forward within the payload.
record Moved (r r' : Reader) : Type 0 where
  same : r'.payload ≡ r.payload
  forward : r.offset ≤ r'.offset
  inside : r'.offset ≤ length r'.payload

abbrev Safe {ℓ} : {A : Type ℓ} → Read A → Type ℓ
Safe {A} m = (r : Reader) (p : A × Reader) → r.offset ≤ length r.payload → m r ≡ ok p → Moved r p.1

module _ {ℓ} {A : Type ℓ} where
  Safe-pure : (a : A) → Safe (pure a)
  Safe-pure a r p h e =
      let q : (a, r) ≡ p = cc in
      rw (← q) (record { same = refl; forward = omega arith; inside = h })

  Safe-bind {κ} :
      {B : Type κ} (m : Read A) (f : A → Read B) → Safe m → ((a : A) → Safe (f a)) → Safe (m >>= f)
  Safe-bind m f h k r p inside e =
      let (q, e₁, e₂) = >>=-eq-ok (m r) _ e in
      let one = h r q inside e₁ in
      let two = k q.0 q.1 p one.inside e₂ in
      record { same = two.same ∙ one.same; forward = omega arith; inside = two.inside }

  Safe-err : (e : ProtocolError) → Safe {A = A} (λ _. err e)
  Safe-err e r p h k = absurd (cc k)

  Safe-if : (b : Bool) (m n : Read A) → Safe m → Safe n → Safe (if b then m else n)
  Safe-if true m n h k = h
  Safe-if false m n h k = k

Safe-take_bytes : (n : ℕ) → Safe (take_bytes n)
unfolding take_bytes
Safe-take_bytes n r p h e = elim (Bool-cases (ltb (length r.payload - r.offset) n)) [
  | inl short ↦ absurd (cc (rw short at e))
  | inr enough ↦
      let q : (take n (drop r.offset r.payload), record r { offset = r.offset + n }) ≡ p =
        cc (rw enough at e) in
      let room = ltb→le _ _ enough in
      rw (← q) (record { same = refl; forward = omega arith; inside = omega arith })
]

-- A method that takes bytes and turns them into a value.
Safe-map {ℓ κ} :
    {A : Type ℓ} {B : Type κ} (m : Read A) (f : A → B) → Safe m → Safe (m >>= λ a. pure (f a))
Safe-map m f h = Safe-bind m (λ a. pure (f a)) h (λ a. Safe-pure (f a))

Safe-fail_if : (b : Bool) (e : ProtocolError) → Safe (fail_if b e)
Safe-fail_if true e = Safe-err e
Safe-fail_if false e = Safe-pure tt

Safe-read_u16 : Safe read_u16
unfolding read_u16
Safe-read_u16 = Safe-map (take_bytes 2) _ (Safe-take_bytes 2)

Safe-read_u32 : Safe read_u32
unfolding read_u32
Safe-read_u32 = Safe-map (take_bytes 4) _ (Safe-take_bytes 4)

Safe-read_u64 : Safe read_u64
unfolding read_u64
Safe-read_u64 = Safe-map (take_bytes 8) _ (Safe-take_bytes 8)

Safe-read_i64 : Safe read_i64
unfolding read_i64
Safe-read_i64 = Safe-map (take_bytes 8) _ (Safe-take_bytes 8)

Safe-read_bytes : (name : String) → Safe (read_bytes name)
unfolding read_bytes
Safe-read_bytes name =
    Safe-bind read_u32 _ Safe-read_u32
      λ len. Safe-bind (fail_if _ _) _ (Safe-fail_if _ _) (λ _. Safe-take_bytes len)

Safe-read_string : (name : String) → Safe (read_string name)
unfolding read_string
Safe-read_string name =
    Safe-bind (read_bytes name) _ (Safe-read_bytes name)
      λ bytes. Safe-if (is_utf8 bytes) (pure bytes) _ (Safe-pure bytes) (Safe-err _)

Safe-read_labels : (n : ℕ) → Safe (read_labels n)
unfolding read_labels
Safe-read_labels zero = Safe-pure []
Safe-read_labels (suc n) =
    Safe-bind (read_string "label") _ (Safe-read_string "label")
      λ label. Safe-map (read_labels n) _ (Safe-read_labels n)

Safe-lift {ℓ} : {A : Type ℓ} (r : Result ProtocolError A) → Safe (lift r)
Safe-lift (ok a) = Safe-pure a
Safe-lift (err e) = Safe-err e

Safe-as_object : {N : Type 0} (v : Json N) → Safe (as_object v)
unfolding as_object
Safe-as_object (Json.object fields) = Safe-pure fields
Safe-as_object _ = Safe-err _

module _ {N : Type 0} (serde : SerdeJson N) where
  Safe-read_properties : Safe (read_properties serde)
  unfolding read_properties
  Safe-read_properties =
      Safe-bind (read_bytes "properties") _ (Safe-read_bytes "properties")
        λ bytes. Safe-bind (lift _) _ (Safe-lift _) (λ value. Safe-as_object value)

  Safe-read_node : Safe (read_node serde)
  unfolding read_node
  Safe-read_node = Safe-bind read_i64 _ Safe-read_i64 λ node_id.
      Safe-bind read_u16 _ Safe-read_u16 λ count. Safe-bind (fail_if _ _) _ (Safe-fail_if _ _) λ _.
        Safe-bind (read_labels count) _ (Safe-read_labels count)
          λ labels. Safe-map (read_properties serde) _ Safe-read_properties

  Safe-read_edge : Safe (read_edge serde)
  unfolding read_edge
  Safe-read_edge = Safe-bind read_i64 _ Safe-read_i64 λ rel_id.
      Safe-bind (read_string "relationship type") _ (Safe-read_string "relationship type")
        λ rel_type. Safe-bind read_i64 _ Safe-read_i64 λ source.
          Safe-bind read_i64 _ Safe-read_i64
            λ target. Safe-map (read_properties serde) _ Safe-read_properties

  Safe-decode_mutation_payload : (kind : ℕ) → Safe (decode_mutation_payload serde kind)
  unfolding decode_mutation_payload
  Safe-decode_mutation_payload kind = Safe-if (kind == kind_node_insert) _ _ (node node_insert) (
      Safe-if (kind == kind_node_update) _ _ two_nodes (
        Safe-if (kind == kind_node_delete) _ _ (node node_delete) (
          Safe-if (kind == kind_edge_insert) _ _ (edge edge_insert) (
            Safe-if (kind == kind_edge_update) _ _ two_edges (
              Safe-if (kind == kind_edge_delete) _ _ (edge edge_delete) (
                Safe-if (kind == kind_graph_reset) _ _ (Safe-pure graph_reset)
                  (Safe-err (unknown_kind kind))))))))
    where
      node : (f : NodeRow N → Mutation N) → Safe (read_node serde >>= λ x. pure (f x))
      node f = Safe-map (read_node serde) f Safe-read_node

      edge : (f : EdgeRow N → Mutation N) → Safe (read_edge serde >>= λ x. pure (f x))
      edge f = Safe-map (read_edge serde) f Safe-read_edge

      two_nodes : Safe (read_node serde >>= λ x. read_node serde >>= λ y. pure (node_update x y))
      two_nodes =
          Safe-bind (read_node serde) _ Safe-read_node
            (λ x. Safe-map (read_node serde) (node_update x) Safe-read_node)

      two_edges : Safe (read_edge serde >>= λ x. read_edge serde >>= λ y. pure (edge_update x y))
      two_edges =
          Safe-bind (read_edge serde) _ Safe-read_edge
            (λ x. Safe-map (read_edge serde) (edge_update x) Safe-read_edge)

  Safe-decode_kind : (kind : ℕ) → Safe (decode_kind serde kind)
  unfolding decode_kind
  Safe-decode_kind kind =
      Safe-if (kind == kind_begin) _ _ (Safe-map read_u32 begin_frame Safe-read_u32) (
        Safe-if (kind == kind_commit) _ _
          (Safe-bind read_u32 _ Safe-read_u32 λ xid.
            Safe-bind read_u64 _ Safe-read_u64
              λ commit_lsn. Safe-map read_u64 (commit_frame xid commit_lsn) Safe-read_u64)
          (Safe-if (is_mutation_kind kind) _ _
            (Safe-bind read_u64 _ Safe-read_u64 λ lsn.
              Safe-map (decode_mutation_payload serde kind) (mutation_frame lsn)
                (Safe-decode_mutation_payload kind))
            (Safe-err (unknown_kind kind))))

  -- Whatever bytes the payload holds, a successful read of it leaves the payload as it is and the
  -- offset at most at its end, so `payload.len() - offset` in `finish` is exact.
  pub decode_kind_inside :
      (kind : ℕ) (payload : List ℕ) (f : Frame N) (r : Reader)
      → decode_kind serde kind (new payload) ≡ ok (f, r)
      → (r.payload ≡ payload) × (r.offset ≤ length payload)
  unfolding new
  decode_kind_inside kind payload f r e =
      let moved = Safe-decode_kind kind (new payload) (f, r) (omega arith) e in
      (moved.same, omega (arith, ap length moved.same))
