-- ===== src/Cdc/Inverts.antt =====
-- storage/cdc_protocol.rs: the methods of `Reader` invert the `write_*` and `encode_*` functions.
use Prim.Native.String.{String}
use pg_eddy.Common.{
  ℕ, ◌-◌, ◌%◌, ◌^◌, ◌≤◌, ◌<◌, ◌≡◌, sym, ap, ◌∙◌, List, [], ◌∷◌, ◌++◌, append_assoc, append-nil,
  arith, ltb, ltb→le, le→ltb, true, false, ◌||◌, inl, inr, Bool-cases, Bool, length, All, Result,
  ok, and_then, >>=-eq-ok, Result-cases,
}
use pg_eddy.Common.Bytes.{be_bytes}
use pg_eddy.Common.Int.{IsI64}
use pg_eddy.Common.Utf8.{IsUtf8}
use pg_eddy.Json.{Json, Fields, SerdeJson}
use pg_eddy.Cdc.{
  NodeRow, EdgeRow, Mutation, node_insert, node_update, node_delete, edge_insert, edge_update,
  edge_delete, graph_reset, Frame, begin_frame, commit_frame, mutation_frame, ProtocolError,
  max_field_bytes, max_labels,
}
use pg_eddy.Cdc.Encode.{
  write_u16, write_i64, write_bytes, write_string, write_labels, write_properties, encode_node,
  encode_edge,
}
use pg_eddy.Cdc.Reader.{
  Read, ◌>>=◌, ◌>>◌, pure, fail_if, read_u16, read_i64, read_bytes, read_string, read_labels,
  read_properties, read_node, read_edge,
}
use pg_eddy.Cdc.Cursor.{
  Reads, Reads-pure, Reads-bind, Reads-map, Reads-read_u16, Reads-read_i64, Reads-read_bytes,
  Reads-read_string,
}

-- A writer that appends to the payload, as the `encode_*` functions do.
abbrev pub Write : Type 0
Write = List ℕ → Result ProtocolError (List ℕ)

-- Whatever `w` appends, where it succeeds, `m` reads back as `a`.
abbrev pub Inverts {ℓ} : {A : Type ℓ} → Write → Read A → A → Type ℓ
Inverts w m a =
    (payload out : List ℕ)
    → w payload ≡ ok out
    → (bs : List ℕ) × (out ≡ payload ++ bs) × Reads m a bs

module _ {ℓ} {A : Type ℓ} where
  pub Inverts-bind {κ} :
      {B : Type κ} (w v : Write) (m : Read A) (f : A → Read B) {a : A} {b : B}
      → Inverts w m a
      → Inverts v (f a) b
      → Inverts (λ p. and_then (w p) v) (m >>= f) b
  Inverts-bind w v m f h k payload out e =
      let (mid, e₁, e₂) = >>=-eq-ok (w payload) v e in
      let (bs, p, r) = h payload mid e₁ in
      let (cs, q, s) = k mid out e₂ in
      (bs ++ cs, q ∙ ap (λ t. t ++ cs) p ∙ append_assoc payload bs cs, Reads-bind m f bs cs r s)

  pub Inverts-map {κ} :
      {B : Type κ} (w : Write) (m : Read A) (f : A → B) {a : A}
      → Inverts w m a
      → Inverts w (m >>= λ x. pure (f x)) (f a)
  Inverts-map w m f h payload out e =
      let (bs, p, r) = h payload out e in (bs, p, Reads-map m f bs r)

  -- A step that cannot fail and appends the bytes `bs`.
  pub Inverts-append :
      (m : Read A) {a : A} (bs : List ℕ) → Reads m a bs → Inverts (λ p. ok (p ++ bs)) m a
  Inverts-append m bs r payload out e = (bs, cc, r)

  Inverts-fail_if :
      (w : Write) (m : Read A) {a : A} (b : Bool) (e : ProtocolError)
      → b ≡ false
      → Inverts w m a
      → Inverts w (fail_if b e >> m) a
  Inverts-fail_if w m b e passed h payload out k =
      let (bs, p, r) = h payload out k in (bs, p, λ front back. rw passed (r front back))

abbrev pub prefixed : List ℕ → List ℕ
prefixed bs = be_bytes 4 (length bs) ++ bs

pub write_bytes_ok :
    (payload : List ℕ) (name : String) (bs out : List ℕ)
    → write_bytes payload name bs ≡ ok out
    → (length bs ≤ max_field_bytes) × (out ≡ payload ++ prefixed bs)
unfolding write_bytes
write_bytes_ok payload name bs out e = elim (Bool-cases (ltb max_field_bytes (length bs))) [
  | inl big ↦ absurd (cc (rw big at e))
  | inr small ↦
      let fits : ltb (length bs) (2 ^ 32) ≡ true = ground arith in
      (ltb→le _ _ small, sym (cc (rw (small, fits) at e)) ∙ append_assoc payload _ bs)
]

Inverts-write_bytes :
    (name : String) (bs : List ℕ) → Inverts (λ p. write_bytes p name bs) (read_bytes name) bs
Inverts-write_bytes name bs payload out e =
    let (fits, p) = write_bytes_ok payload name bs out e in
    (prefixed bs, p, Reads-read_bytes name bs fits)

Inverts-write_string :
    (name : String) (bs : List ℕ)
    → IsUtf8 bs
    → Inverts (λ p. write_string p name bs) (read_string name) bs
unfolding write_string
Inverts-write_string name bs valid payload out e =
    let (fits, p) = write_bytes_ok payload name bs out e in
    (prefixed bs, p, Reads-read_string name bs fits valid)

pub Inverts-write_labels :
    (labels : List (List ℕ))
    → All IsUtf8 labels
    → Inverts (λ p. write_labels p labels) (read_labels (length labels)) labels
unfolding write_labels read_labels
Inverts-write_labels [] h = λ payload out e. ([], cc (append-nil payload), Reads-pure [])
Inverts-write_labels (label ∷ labels) (h, hs) =
    Inverts-bind (λ p. write_string p "label" label) (λ p. write_labels p labels)
      (read_string "label") _ (Inverts-write_string "label" label h)
      (Inverts-map (λ p. write_labels p labels) (read_labels (length labels)) (λ ls. label ∷ ls)
        (Inverts-write_labels labels hs))

-- What the protocol relies on in serde_json, for one object: the text written for it is read as it.
abbrev pub Faithful : {N : Type 0} → SerdeJson N → Fields N → Type 0
Faithful serde fields =
    (bs : List ℕ)
    → serde.to_vec (Json.object fields) ≡ ok bs
    → serde.from_slice bs ≡ ok (Json.object fields)

pub record IsNodeRow {N : Type 0} (serde : SerdeJson N) (row : NodeRow N) : Type 0 where
  pub node_id : IsI64 row.node_id
  pub labels : All IsUtf8 row.labels
  pub properties : Faithful serde row.properties

pub record IsEdgeRow {N : Type 0} (serde : SerdeJson N) (row : EdgeRow N) : Type 0 where
  pub rel_id : IsI64 row.rel_id
  pub rel_type : IsUtf8 row.rel_type
  pub source_node_id : IsI64 row.source_node_id
  pub target_node_id : IsI64 row.target_node_id
  pub properties : Faithful serde row.properties

module _ {N : Type 0} (serde : SerdeJson N) where
  abbrev pub IsMutation : Mutation N → Type 0
  IsMutation (node_insert new) = IsNodeRow serde new
  IsMutation (node_update old new) = IsNodeRow serde old × IsNodeRow serde new
  IsMutation (node_delete old) = IsNodeRow serde old
  IsMutation (edge_insert new) = IsEdgeRow serde new
  IsMutation (edge_update old new) = IsEdgeRow serde old × IsEdgeRow serde new
  IsMutation (edge_delete old) = IsEdgeRow serde old
  IsMutation graph_reset = Unit {0}

  -- The integers have the widths that the fields of `Frame` have.
  abbrev pub IsFrame : Frame N → Type 0
  IsFrame (begin_frame xid) = xid < 2 ^ 32
  IsFrame (commit_frame xid commit_lsn end_lsn) =
      (xid < 2 ^ 32) × (commit_lsn < 2 ^ 64) × (end_lsn < 2 ^ 64)
  IsFrame (mutation_frame event_lsn mutation) = (event_lsn < 2 ^ 64) × IsMutation mutation

  Inverts-write_properties :
      (fields : Fields N)
      → Faithful serde fields
      → Inverts (λ p. write_properties serde p fields) (read_properties serde) fields
  unfolding write_properties read_properties
  Inverts-write_properties fields faithful payload out e =
      elim (Result-cases (serde.to_vec (Json.object fields))) [
        | inl (bs, written) ↦
            let (sub, p, r) = Inverts-write_bytes "properties" bs payload out (rw written at e) in
            (sub, p, λ front back. rw (r front back, faithful bs written))
        | inr (m, failed) ↦ absurd (cc (rw failed at e))
      ]

  -- `encode_node` behind its test of the label count.
  node_body : (row : NodeRow N) → Write
  node_body row payload =
      let count = length row.labels in
      and_then (write_labels (write_u16 (write_i64 payload row.node_id) count) row.labels)
        λ p. write_properties serde p row.properties

  Inverts-node_body :
      (row : NodeRow N)
      → IsNodeRow serde row
      → length row.labels ≤ max_labels
      → Inverts (node_body row) (read_node serde) row
  unfolding node_body read_node write_u16 write_i64
  Inverts-node_body row h few =
      let count = length row.labels in
      Inverts-bind (λ p. ok (write_i64 p row.node_id)) _ read_i64 _
        (Inverts-append read_i64 _ (Reads-read_i64 row.node_id h.node_id))
        (Inverts-bind (λ p. ok (write_u16 p count)) _ read_u16 _
          (Inverts-append read_u16 _ (Reads-read_u16 count (omega arith)))
          (Inverts-fail_if _ _ (ltb max_labels count) _ (le→ltb _ _ few) (
            Inverts-bind (λ p. write_labels p row.labels) _ (read_labels count) _
              (Inverts-write_labels row.labels h.labels)
              (Inverts-map (λ p. write_properties serde p row.properties) (read_properties serde) _
                (Inverts-write_properties row.properties h.properties)))))

  pub Inverts-encode_node :
      (row : NodeRow N)
      → IsNodeRow serde row
      → Inverts (λ p. encode_node serde p row) (read_node serde) row
  unfolding encode_node
  Inverts-encode_node row h payload out e =
      let count = length row.labels in
      elim (Bool-cases (ltb max_labels count || ltb (2 ^ 16 - 1) count)) [
        | inl big ↦ absurd (cc (rw big at e))
        | inr small ↦
            let few : count ≤ max_labels = ground arith in
            let same : count % 2 ^ 16 ≡ count = omega arith in
            Inverts-node_body row h few payload out (unfold node_body in (rw (small, same) at e))
      ]

  pub Inverts-encode_edge :
      (row : EdgeRow N)
      → IsEdgeRow serde row
      → Inverts (λ p. encode_edge serde p row) (read_edge serde) row
  unfolding encode_edge read_edge write_i64
  Inverts-encode_edge row h =
      Inverts-bind (λ p. ok (write_i64 p row.rel_id)) _ read_i64 _
        (Inverts-append read_i64 _ (Reads-read_i64 row.rel_id h.rel_id))
        (Inverts-bind (λ p. write_string p "relationship type" row.rel_type) _
          (read_string "relationship type") _
          (Inverts-write_string "relationship type" row.rel_type h.rel_type)
          (Inverts-bind (λ p. ok (write_i64 p row.source_node_id)) _ read_i64 _
            (Inverts-append read_i64 _ (Reads-read_i64 row.source_node_id h.source_node_id))
            (Inverts-bind (λ p. ok (write_i64 p row.target_node_id)) _ read_i64 _
              (Inverts-append read_i64 _ (Reads-read_i64 row.target_node_id h.target_node_id))
              (Inverts-map (λ p. write_properties serde p row.properties) (read_properties serde) _
                (Inverts-write_properties row.properties h.properties)))))
