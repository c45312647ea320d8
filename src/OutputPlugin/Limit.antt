-- ===== src/OutputPlugin/Limit.antt =====
-- storage/wal_decode.rs: the test of the chunk's size in `write_frame`.
use pg_eddy.Common.{
  ◌^◌, ◌≡◌, ◌<◌, Bool, inl, inr, arith, lt→ltb, List, [], ◌∷◌, ◌++◌, ok, ◌>>=◌, Result-cases,
  length, length-append,
}
use pg_eddy.Common.Bytes.{be_bytes, length-be_bytes}
use pg_eddy.Json.{SerdeJson}
use pg_eddy.Cdc.{Frame, protocol_major}
use pg_eddy.Cdc.Encode.{encode_frame, frame_bytes}
use pg_eddy.Cdc.RoundTrip.{encode_frame_ok}
use pg_eddy.OutputPlugin.{Output, map_err, encode_failed, write_frame}

module _ {N : Type 0} (serde : SerdeJson N) where
  frame_short : (f : Frame N) (bs : List _) → encode_frame serde f ≡ ok bs → length bs < 2 ^ 31
  unfolding frame_bytes be_bytes
  frame_short f bs e =
      let (p, e₁, small, q) = encode_frame_ok serde f bs e in
      let n = length p.0 in
      rw q (
        omega (
          arith,
          length-append (be_bytes 4 n) p.0,
          length-be_bytes 4 n,
          length-be_bytes 2 protocol_major,
        ))

  -- The limit of `Size` is never exceeded: `write_frame` fails only where `encode_frame` does, and
  -- else appends one chunk with the encoded frame.
  pub write_frame-encode_frame :
      (f : Frame N) (last_write : Bool) (out : Output)
      → write_frame serde f last_write out ≡ (
          map_err encode_failed (encode_frame serde f) >>= λ bs.
          ok (out ++ ((bs, last_write) ∷ [])))
  unfolding write_frame
  write_frame-encode_frame f last_write out = elim (Result-cases (encode_frame serde f)) [
    | inr (x, bad) ↦ rw bad
    | inl (bs, good) ↦ rw (good, lt→ltb _ _ (frame_short f bs good))
  ]
