-- ===== src/Cdc/Strict.antt =====
-- storage/cdc_protocol.rs: which byte strings `decode_frame` accepts.
use pg_eddy.Common.{
  ℕ, ◌-◌, ◌≤◌, ◌≡◌, List, ◌∷◌, ◌++◌, arith, ltb, ltb→le, le→ltb, ◌==◌, ==_self, true, false, ◌↔◌,
  inl, inr, Bool-cases, length, length-append, length-drop, take-append_le, drop-append_le,
  get_or-append_lt, ◌≢◌, sym, if◌then◌else◌, take, drop, get_or, ok, err,
}
use pg_eddy.Common.Bytes.{eq_bytes, eq_bytes_self, eq_bytes→eq, from_be}
use pg_eddy.Json.{SerdeJson}
use pg_eddy.Cdc.{
  Frame, header_len, protocol_magic, protocol_major, max_frame_payload_bytes, header_truncated,
  payload_length_mismatch,
}
use pg_eddy.Cdc.Decode.{decode_payload, decode_frame}

-- The length that the header declares.
unfoldable pub declared : List ℕ → ℕ
declared encoded = from_be (take 4 (drop 8 encoded))

-- The header of a version 1 frame for the payload that follows it.
pub record IsHeader (encoded : List ℕ) : Type 0 where
  pub long : header_len ≤ length encoded
  pub magic : take 4 encoded ≡ protocol_magic
  pub major : from_be (take 2 (drop 4 encoded)) ≡ protocol_major
  pub flags : get_or encoded 7 0 ≡ 0
  pub exact : declared encoded ≡ length encoded - header_len
  pub small : length encoded - header_len ≤ max_frame_payload_bytes

module _ {N : Type 0} (serde : SerdeJson N) where
  decode_frame_accepts :
      (encoded : List ℕ)
      → IsHeader encoded
      → decode_frame serde encoded
        ≡ decode_payload serde (get_or encoded 6 0) (drop header_len encoded)
  unfolding decode_frame declared
  decode_frame_accepts encoded h =
      let long : ltb (length encoded) header_len ≡ false = le→ltb _ _ h.long in
      let magic : eq_bytes (take 4 encoded) protocol_magic ≡ true =
        rw (h.magic) (eq_bytes_self protocol_magic) in
      let small : ltb max_frame_payload_bytes (length encoded - header_len) ≡ false =
        le→ltb _ _ h.small in
      rw (long, magic, h.major, h.flags, h.exact, (==_self (length encoded - header_len)), small)

  decode_frame-IsHeader :
      (encoded : List ℕ) (f : Frame N) → decode_frame serde encoded ≡ ok f → IsHeader encoded
  unfolding decode_frame declared
  decode_frame-IsHeader encoded f e = ground (arith, eq_bytes→eq (take 4 encoded) protocol_magic)

  -- `decode_frame` accepts a byte string as the frame `f` exactly when its first twelve bytes are a
  -- version 1 header that declares the length of the rest, that length is at most 16 MiB, and the
  -- rest is a payload for `f` under the kind in byte 6.
  pub decode_frame_iff :
      (encoded : List ℕ) (f : Frame N)
      → (decode_frame serde encoded ≡ ok f) ↔ (
          IsHeader encoded
          × (decode_payload serde (get_or encoded 6 0) (drop header_len encoded) ≡ ok f))
  decode_frame_iff encoded f = (
    λ e. let h = decode_frame-IsHeader encoded f e in (h, rw (decode_frame_accepts encoded h) at e),
    λ (h, e). rw (decode_frame_accepts encoded h) e,
  )

  -- The header of `b` stands in front of `a`, and `a` has another length.
  mismatch :
      (a b : List ℕ)
      → IsHeader b
      → header_len ≤ length a
      → length a ≢ length b
      → take 4 a ≡ take 4 b
      → take 2 (drop 4 a) ≡ take 2 (drop 4 b)
      → get_or a 7 0 ≡ get_or b 7 0
      → declared a ≡ declared b
      → decode_frame serde a
        ≡ err (payload_length_mismatch (length b - header_len) (length a - header_len))
  unfolding decode_frame declared
  mismatch a b h long ne e₄ e₂ e₇ e₈ =
      let short : ltb (length a) header_len ≡ false = le→ltb _ _ long in
      let long_b = h.long in
      let differ : ((length b - header_len) == (length a - header_len)) ≡ false = ground arith in
      rw (short, e₄, h.magic, e₂, h.major, e₇, h.flags, e₈, h.exact, differ)

  mismatch-append :
      (front back : List ℕ) (long : header_len ≤ length front)
      → declared (front ++ back) ≡ declared front
  unfolding declared
  mismatch-append front back long = rw (
    drop-append_le 8 front back (omega arith),
    take-append_le 4 (drop 8 front) back (omega (arith, length-drop 8 front)),
  )

  -- Cutting an accepted frame anywhere, by one byte or more, makes `decode_frame` fail: with
  -- `HeaderTruncated` inside the header, and else with the declared and the actual length.
  pub decode_frame_truncated :
      (front back : List ℕ) (x : ℕ) (f : Frame N)
      → decode_frame serde (front ++ (x ∷ back)) ≡ ok f
      → decode_frame serde front ≡ (
          if ltb (length front) header_len
          then err header_truncated
          else err (
              payload_length_mismatch
                (length (front ++ (x ∷ back)) - header_len)
                (length front - header_len)))
  decode_frame_truncated front back x f e = elim (Bool-cases (ltb (length front) header_len)) [
    | inl short ↦ unfold decode_frame in rw short
    | inr long ↦
        let enough = ltb→le _ _ long in
        let rest = x ∷ back in
        rw long (
          mismatch front (front ++ rest) (decode_frame-IsHeader _ f e) enough
            (omega (arith, length-append front rest))
            (sym (take-append_le 4 front rest (omega arith)))
            (rw (
              drop-append_le 4 front rest (omega arith),
              take-append_le 2 (drop 4 front) rest (omega (arith, length-drop 4 front)),
            ))
            (sym (get_or-append_lt front rest 7 0 (omega arith)))
            (sym (mismatch-append front rest enough)))
  ]

  -- Bytes behind an accepted frame make `decode_frame` fail with the two lengths.
  pub decode_frame_trailing :
      (encoded more : List ℕ) (x : ℕ) (f : Frame N)
      → decode_frame serde encoded ≡ ok f
      → decode_frame serde (encoded ++ (x ∷ more))
        ≡ err (
            payload_length_mismatch
              (length encoded - header_len)
              (length (encoded ++ (x ∷ more)) - header_len))
  decode_frame_trailing encoded more x f e =
      let h = decode_frame-IsHeader encoded f e in
      let enough = h.long in
      let rest = x ∷ more in
      mismatch (encoded ++ rest) encoded h (omega (arith, length-append encoded rest))
        (omega (arith, length-append encoded rest)) (take-append_le 4 encoded rest (omega arith))
        (rw (
          drop-append_le 4 encoded rest (omega arith),
          take-append_le 2 (drop 4 encoded) rest (omega (arith, length-drop 4 encoded)),
        ))
        (get_or-append_lt encoded rest 7 0 (omega arith)) (mismatch-append encoded rest enough)
