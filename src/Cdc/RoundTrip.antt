-- ===== src/Cdc/RoundTrip.antt =====
-- storage/cdc_protocol.rs: `decode_frame` reads back what `encode_frame` wrote.
use pg_eddy.Common.{
  ℕ, ◌+◌, ◌-◌, ◌^◌, ◌≤◌, ◌<◌, ◌≡◌, refl, List, [], ◌++◌, append_assoc, append-nil, arith, ltb,
  ltb→le, le→ltb, true, false, inl, inr, Bool-cases, length, ok, >>=-eq-ok,
}
use pg_eddy.Common.Bytes.{be_bytes, le_bytes, from_be, from_be-be_bytes}
use pg_eddy.Json.{SerdeJson}
use pg_eddy.Cdc.{
  Mutation, node_insert, node_update, node_delete, edge_insert, edge_update, edge_delete,
  graph_reset, Frame, begin_frame, commit_frame, mutation_frame, kind_begin, kind_commit,
  max_frame_payload_bytes, protocol_major,
}
use pg_eddy.Cdc.Encode.{
  write_u32, write_u64, mutation_kind, encode_node, encode_edge, encode_mutation_payload,
  frame_payload, u32_try_from, frame_bytes, encode_frame, encode_logical_message,
}
use pg_eddy.Cdc.Reader.{◌>>=◌, pure, new, finish, read_u32, read_u64, read_node, read_edge}
use pg_eddy.Cdc.Decode.{
  decode_mutation_payload, decode_kind, decode_payload, decode_frame, envelope,
  decode_logical_message,
}
use pg_eddy.Cdc.Cursor.{
  cursor, Reads, Reads-pure, Reads-bind, Reads-map, Reads-read_u32, Reads-read_u64,
}
use pg_eddy.Cdc.Inverts.{
  Inverts, Inverts-bind, Inverts-map, IsMutation, IsFrame, Inverts-encode_node, Inverts-encode_edge,
}

module _ {N : Type 0} (serde : SerdeJson N) where
  Inverts-encode_mutation :
      (m : Mutation N)
      → IsMutation serde m
      → Inverts
          (λ p. encode_mutation_payload serde p m)
          (decode_mutation_payload serde (mutation_kind m))
          m
  unfolding encode_mutation_payload decode_mutation_payload mutation_kind
  Inverts-encode_mutation (node_insert new) h =
      Inverts-map (λ p. encode_node serde p new) (read_node serde) _
        (Inverts-encode_node serde new h)
  Inverts-encode_mutation (node_update old new) (h, k) =
      Inverts-bind (λ p. encode_node serde p old) _ (read_node serde) _
        (Inverts-encode_node serde old h)
        (Inverts-map (λ p. encode_node serde p new) (read_node serde) _
          (Inverts-encode_node serde new k))
  Inverts-encode_mutation (node_delete old) h =
      Inverts-map (λ p. encode_node serde p old) (read_node serde) _
        (Inverts-encode_node serde old h)
  Inverts-encode_mutation (edge_insert new) h =
      Inverts-map (λ p. encode_edge serde p new) (read_edge serde) _
        (Inverts-encode_edge serde new h)
  Inverts-encode_mutation (edge_update old new) (h, k) =
      Inverts-bind (λ p. encode_edge serde p old) _ (read_edge serde) _
        (Inverts-encode_edge serde old h)
        (Inverts-map (λ p. encode_edge serde p new) (read_edge serde) _
          (Inverts-encode_edge serde new k))
  Inverts-encode_mutation (edge_delete old) h =
      Inverts-map (λ p. encode_edge serde p old) (read_edge serde) _
        (Inverts-encode_edge serde old h)
  Inverts-encode_mutation graph_reset h =
      λ payload out e. ([], cc (append-nil payload), Reads-pure graph_reset)

  -- The kind byte of a mutation is none of the other kinds.
  decode_kind-mutation :
      (m : Mutation N)
      → decode_kind serde (mutation_kind m) ≡ (
          read_u64 >>= λ lsn.
          decode_mutation_payload serde (mutation_kind m) >>= λ x. pure (mutation_frame lsn x))
  unfolding decode_kind mutation_kind
  decode_kind-mutation (node_insert new) = refl
  decode_kind-mutation (node_update old new) = refl
  decode_kind-mutation (node_delete old) = refl
  decode_kind-mutation (edge_insert new) = refl
  decode_kind-mutation (edge_update old new) = refl
  decode_kind-mutation (edge_delete old) = refl
  decode_kind-mutation graph_reset = refl

  Reads-mutation :
      (lsn : ℕ) (m : Mutation N) (bs : List ℕ)
      → lsn < 2 ^ 64
      → Reads (decode_mutation_payload serde (mutation_kind m)) m bs
      → Reads (decode_kind serde (mutation_kind m)) (mutation_frame lsn m) (be_bytes 8 lsn ++ bs)
  Reads-mutation lsn m bs h r = rw (decode_kind-mutation m) (
      Reads-bind read_u64 _ (be_bytes 8 lsn) bs (Reads-read_u64 lsn h)
        (Reads-map (decode_mutation_payload serde (mutation_kind m)) (mutation_frame lsn) bs r))

  -- The payload that `encode_frame` builds is read back as the frame, under the kind it is sent with.
  Reads-frame_payload :
      (f : Frame N) (p : List ℕ × ℕ)
      → IsFrame serde f
      → frame_payload serde f ≡ ok p
      → Reads (decode_kind serde p.1) f p.0
  unfolding frame_payload write_u32 write_u64 decode_kind
  Reads-frame_payload (begin_frame xid) p h e =
      let q : (write_u32 [] xid, kind_begin) ≡ p = cc in
      rw (← q) (Reads-map read_u32 begin_frame _ (Reads-read_u32 xid h))
  Reads-frame_payload (commit_frame xid commit_lsn end_lsn) p (hx, hc, he) e =
      let q : (write_u64 (write_u64 (write_u32 [] xid) commit_lsn) end_lsn, kind_commit) ≡ p = cc in
      rw (← q, append_assoc (be_bytes 4 xid) (be_bytes 8 commit_lsn) (be_bytes 8 end_lsn))
        (Reads-bind read_u32 _ (be_bytes 4 xid) _ (Reads-read_u32 xid hx) (
          Reads-bind read_u64 _ (be_bytes 8 commit_lsn) _ (Reads-read_u64 commit_lsn hc)
            (Reads-map read_u64 _ (be_bytes 8 end_lsn) (Reads-read_u64 end_lsn he))))
  Reads-frame_payload (mutation_frame lsn m) p (hl, hm) e =
      let (out, e₁, e₂) = >>=-eq-ok (encode_mutation_payload serde (write_u64 [] lsn) m) _ e in
      let (bs, split, r) = Inverts-encode_mutation m hm (write_u64 [] lsn) out e₁ in
      let q : (write_u64 [] lsn ++ bs, mutation_kind m) ≡ p = cc in
      rw (← q) (Reads-mutation lsn m bs hl r)

  -- The twelve header bytes are as `decode_frame` expects them: what is left is the payload.
  decode_frame-header :
      (kind : ℕ) (payload : List ℕ)
      → length payload ≤ max_frame_payload_bytes
      → decode_frame serde (frame_bytes kind (length payload) payload)
        ≡ decode_payload serde kind payload
  unfolding decode_frame frame_bytes be_bytes le_bytes
  decode_frame-header kind payload h =
      let n = length payload in
      let declared : from_be (be_bytes 4 n) ≡ n = from_be-be_bytes 4 n (omega arith) in
      let long : ltb (12 + n) 12 ≡ false = ground arith in
      let small : ltb max_frame_payload_bytes n ≡ false = le→ltb _ _ h in
      let rest : 12 + n - 12 ≡ n = omega arith in
      let major : from_be (be_bytes 2 protocol_major) ≡ protocol_major =
        from_be-be_bytes 2 1 (omega arith) in
      ground (arith, declared, long, small, rest, major)

  -- Reading a whole payload: nothing is left behind it.
  decode_payload-Reads :
      (kind : ℕ) (payload : List ℕ) (f : Frame N)
      → Reads (decode_kind serde kind) f payload
      → decode_payload serde kind payload ≡ ok f
  unfolding decode_payload new cursor finish
  decode_payload-Reads kind payload f r =
      let whole = rw (append-nil payload) at (r [] []) in
      let trailing : length payload - length payload ≡ 0 = omega arith in rw (whole, trailing)

  -- What a successful `encode_frame` returns.
  pub encode_frame_ok :
      (f : Frame N) (bs : List ℕ)
      → encode_frame serde f ≡ ok bs
      → (p : List ℕ × ℕ) × (frame_payload serde f ≡ ok p)
        × (length p.0 ≤ max_frame_payload_bytes)
        × (bs ≡ frame_bytes p.1 (length p.0) p.0)
  unfolding encode_frame u32_try_from
  encode_frame_ok f bs e =
      let (p, e₁, e₂) = >>=-eq-ok (frame_payload serde f) _ e in
      let n = length p.0 in
      elim (Bool-cases (ltb max_frame_payload_bytes n)) [
        | inl big ↦ absurd (cc (rw big at e₂))
        | inr small ↦
            let fits : ltb n (2 ^ 32) ≡ true = ground arith in
            (p, e₁, ltb→le _ _ small, cc (rw (small, fits) at e₂))
      ]

  -- Every frame whose integers fit their fields, whose strings are UTF-8 and whose properties
  -- serde_json reads back as it wrote them is decoded to itself from its own encoding.
  pub decode_frame-encode_frame :
      (f : Frame N) (bs : List ℕ)
      → IsFrame serde f
      → encode_frame serde f ≡ ok bs
      → decode_frame serde bs ≡ ok f
  decode_frame-encode_frame f bs h e =
      let (p, e₁, small, q) = encode_frame_ok f bs e in
      rw (q, decode_frame-header p.1 p.0 small)
        (decode_payload-Reads p.1 p.0 f (Reads-frame_payload f p h e₁))

  -- A logical message is decoded to the mutation that it was encoded from, if the mutation's
  -- integers fit their fields, its strings are UTF-8 and serde_json reads its properties back as it
  -- wrote them.
  pub decode_logical_message-encode :
      (m : Mutation N) (bs : List ℕ)
      → IsMutation serde m
      → encode_logical_message serde m ≡ ok bs
      → decode_logical_message serde bs ≡ ok m
  unfolding encode_logical_message decode_logical_message envelope
  decode_logical_message-encode m bs h e =
      rw (decode_frame-encode_frame (mutation_frame 0 m) bs (omega arith, h) e)
