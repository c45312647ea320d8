-- ===== src/Cdc/Tests.antt =====
-- storage/cdc_protocol.rs: the codec on single frames.
use pg_eddy.Common.{
  ℕ, ◌≡◌, ◌↔◌, ◌≤◌, refl, List, [], ◌∷◌, ◌++◌, ok, err, arith, length, get_or, drop,
}
use pg_eddy.Common.Bytes.{be_bytes, from_be}
use pg_eddy.Common.Utf8.{is_utf8}
use pg_eddy.Common.Int.{ℤ, pos, to_bits}
use pg_eddy.Json.{Fields}
use pg_eddy.Json.Examples.{test_serde, braces}
use pg_eddy.Cdc.{
  NodeRow, Mutation, node_insert, begin_frame, mutation_frame, kind_begin, header_len,
  payload_length_mismatch,
}
use pg_eddy.Cdc.Encode.{encode_frame, encode_logical_message}
use pg_eddy.Cdc.Reader.{Reader, new, read_u32, finish}
use pg_eddy.Cdc.Decode.{decode_kind, decode_payload, decode_frame, decode_logical_message}
use pg_eddy.Cdc.Inverts.{Faithful, IsNodeRow}
use pg_eddy.Cdc.RoundTrip.{decode_frame-encode_frame, decode_logical_message-encode}
use pg_eddy.Cdc.InBounds.{decode_kind_inside}
use pg_eddy.Cdc.Strict.{IsHeader, decode_frame_iff, decode_frame_truncated, decode_frame_trailing}

abbrev test_row : NodeRow ℤ
test_row = record { node_id = pos 7; labels = (b'A' ∷ []) ∷ []; properties = Fields.end }

abbrev test_insert : Mutation ℤ
test_insert = node_insert test_row

empty-Faithful : Faithful test_serde Fields.end
empty-Faithful bs e = let q : braces ≡ bs = cc in rw (← q)

test_row-IsNodeRow : IsNodeRow test_serde test_row
unfolding is_utf8
test_row-IsNodeRow = record {
  node_id = omega arith;
  labels = (refl, tt);
  properties = empty-Faithful;
}

abbrev mutation_bytes : List ℕ
mutation_bytes =
    80 ∷ 69 ∷ 68 ∷ 89 ∷ 0 ∷ 1 ∷ 16 ∷ 0 ∷ 0 ∷ 0 ∷ 0 ∷ 29 ∷ 0 ∷ 0 ∷ 0 ∷ 0 ∷ 0 ∷ 0 ∷ 0 ∷ 42 ∷ 0 ∷ 0 ∷ 0
    ∷ 0 ∷ 0 ∷ 0 ∷ 0 ∷ 7 ∷ 0 ∷ 1 ∷ 0 ∷ 0 ∷ 0 ∷ 1 ∷ 65 ∷ 0 ∷ 0 ∷ 0 ∷ 2 ∷ 123 ∷ 125 ∷ []

mutation_encoded : encode_frame test_serde (mutation_frame 42 test_insert) ≡ ok mutation_bytes
unfolding encode_frame be_bytes to_bits
mutation_encoded = refl

decode_frame-encode_frame_example :
    decode_frame test_serde mutation_bytes ≡ ok (mutation_frame 42 test_insert)
decode_frame-encode_frame_example =
    decode_frame-encode_frame test_serde (mutation_frame 42 test_insert) mutation_bytes
      (omega arith, test_row-IsNodeRow) mutation_encoded

abbrev message_bytes : List ℕ
message_bytes =
    80 ∷ 69 ∷ 68 ∷ 89 ∷ 0 ∷ 1 ∷ 16 ∷ 0 ∷ 0 ∷ 0 ∷ 0 ∷ 29 ∷ 0 ∷ 0 ∷ 0 ∷ 0 ∷ 0 ∷ 0 ∷ 0 ∷ 0 ∷ 0 ∷ 0 ∷ 0
    ∷ 0 ∷ 0 ∷ 0 ∷ 0 ∷ 7 ∷ 0 ∷ 1 ∷ 0 ∷ 0 ∷ 0 ∷ 1 ∷ 65 ∷ 0 ∷ 0 ∷ 0 ∷ 2 ∷ 123 ∷ 125 ∷ []

message_encoded : encode_logical_message test_serde test_insert ≡ ok message_bytes
unfolding encode_logical_message be_bytes to_bits
message_encoded = refl

decode_logical_message-encode_example :
    decode_logical_message test_serde message_bytes ≡ ok test_insert
decode_logical_message-encode_example =
    decode_logical_message-encode test_serde test_insert message_bytes test_row-IsNodeRow
      message_encoded

-- BEGIN of transaction 5, without its last byte.
abbrev begin_front : List ℕ
begin_front = 80 ∷ 69 ∷ 68 ∷ 89 ∷ 0 ∷ 1 ∷ 1 ∷ 0 ∷ 0 ∷ 0 ∷ 0 ∷ 4 ∷ 0 ∷ 0 ∷ 0 ∷ []

abbrev begin_bytes : List ℕ
begin_bytes = begin_front ++ (5 ∷ [])

begin_decoded : decode_frame test_serde begin_bytes ≡ ok (begin_frame 5)
unfolding decode_frame from_be decode_payload decode_kind read_u32 new finish
begin_decoded = refl

decode_frame_iff_example : (decode_frame test_serde begin_bytes ≡ ok (begin_frame 5)) ↔ (
    IsHeader begin_bytes
    × (decode_payload test_serde (get_or begin_bytes 6 0) (drop header_len begin_bytes)
        ≡ ok (begin_frame 5)))
decode_frame_iff_example = decode_frame_iff test_serde begin_bytes (begin_frame 5)

decode_frame_truncated_example :
    decode_frame test_serde begin_front ≡ err (payload_length_mismatch 4 3)
decode_frame_truncated_example =
    decode_frame_truncated test_serde begin_front [] 5 (begin_frame 5) begin_decoded

decode_frame_trailing_example :
    decode_frame test_serde (begin_bytes ++ (9 ∷ [])) ≡ err (payload_length_mismatch 4 5)
decode_frame_trailing_example =
    decode_frame_trailing test_serde begin_bytes [] 9 (begin_frame 5) begin_decoded

abbrev begin_payload : List ℕ
begin_payload = 0 ∷ 0 ∷ 0 ∷ 5 ∷ []

abbrev begin_end : Reader
begin_end = record { payload = begin_payload; offset = 4 }

begin_read : decode_kind test_serde kind_begin (new begin_payload) ≡ ok (begin_frame 5, begin_end)
unfolding decode_kind new read_u32 from_be
begin_read = refl

decode_kind_inside_example : (begin_payload ≡ begin_payload) × (4 ≤ length begin_payload)
decode_kind_inside_example =
    decode_kind_inside test_serde kind_begin begin_payload (begin_frame 5) begin_end begin_read
