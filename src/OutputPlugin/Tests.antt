-- ===== src/OutputPlugin/Tests.antt =====
-- storage/wal_decode.rs: a transaction with a message of another producer and one of pg_eddy.
use pg_eddy.Common.{ℕ, ◌≡◌, refl, true, false, some, List, [], ◌∷◌, ◌++◌, ok, and_then}
use pg_eddy.Common.Bytes.{be_bytes, from_be}
use pg_eddy.Common.Int.{ℤ}
use pg_eddy.Json.Examples.{test_serde}
use pg_eddy.Cdc.{graph_reset, Frame, mutation_frame}
use pg_eddy.Cdc.Encode.{encode_frame}
use pg_eddy.Cdc.Reader.{new, finish, read_u64}
use pg_eddy.Cdc.Decode.{
  decode_logical_message, decode_frame, decode_payload, decode_kind, decode_mutation_payload,
  envelope,
}
use pg_eddy.OutputPlugin.{
  Message, Session, other_private, marker, logical_message_prefix, map_err, encode_failed, ignored,
  payload_of, write_frame, transaction,
}
use pg_eddy.OutputPlugin.Stream.{Delivered, transaction-Delivered}
use pg_eddy.OutputPlugin.Limit.{write_frame-encode_frame}

abbrev reset_bytes : List ℕ
reset_bytes =
    80 ∷ 69 ∷ 68 ∷ 89 ∷ 0 ∷ 1 ∷ 48 ∷ 0 ∷ 0 ∷ 0 ∷ 0 ∷ 8 ∷ 0 ∷ 0 ∷ 0 ∷ 0 ∷ 0 ∷ 0 ∷ 0 ∷ 0 ∷ []

abbrev foreign_message : Message
foreign_message = record {
  message_lsn = 90;
  transactional = true;
  prefix_bytes = some (b'x' ∷ []);
  message_size = 0;
  message_data = some [];
}

abbrev reset_message : Message
reset_message = record {
  message_lsn = 100;
  transactional = true;
  prefix_bytes = some logical_message_prefix;
  message_size = 20;
  message_data = some reset_bytes;
}

abbrev before : Session
before = record {
  txn = record { xid = 5; end_lsn = 120; private_data = other_private 1 };
  out = [];
}

abbrev after : Session
after = record {
  txn = record { xid = 5; end_lsn = 120; private_data = marker };
  out =
      (80 ∷ 69 ∷ 68 ∷ 89 ∷ 0 ∷ 1 ∷ 1 ∷ 0 ∷ 0 ∷ 0 ∷ 0 ∷ 4 ∷ 0 ∷ 0 ∷ 0 ∷ 5 ∷ [], false)
      ∷ (
        80 ∷ 69 ∷ 68 ∷ 89 ∷ 0 ∷ 1 ∷ 48 ∷ 0 ∷ 0 ∷ 0 ∷ 0 ∷ 8 ∷ 0 ∷ 0 ∷ 0 ∷ 0 ∷ 0 ∷ 0 ∷ 0 ∷ 100 ∷ [],
        false,
      )
      ∷ (
        80 ∷ 69 ∷ 68 ∷ 89 ∷ 0 ∷ 1 ∷ 2 ∷ 0 ∷ 0 ∷ 0 ∷ 0 ∷ 20 ∷ 0 ∷ 0 ∷ 0 ∷ 5 ∷ 0 ∷ 0 ∷ 0 ∷ 0 ∷ 0 ∷ 0
            ∷ 0 ∷ 110 ∷ 0 ∷ 0 ∷ 0 ∷ 0 ∷ 0 ∷ 0 ∷ 0 ∷ 120 ∷ [],
        true,
      )
      ∷ [];
}

ran : transaction test_serde (foreign_message ∷ reset_message ∷ []) 110 before ≡ ok after
unfolding transaction ignored payload_of be_bytes from_be encode_frame decode_logical_message
    decode_frame decode_payload decode_kind decode_mutation_payload new finish read_u64 envelope
    write_frame
ran = refl

transaction-Delivered_example :
    Delivered test_serde (foreign_message ∷ reset_message ∷ []) 110 before after
transaction-Delivered_example =
    transaction-Delivered test_serde (foreign_message ∷ reset_message ∷ []) 110 before after ran

abbrev reset_frame : Frame ℤ
reset_frame = mutation_frame 100 graph_reset

write_frame-encode_frame_example :
    write_frame test_serde reset_frame false []
    ≡ and_then
        (map_err encode_failed (encode_frame test_serde reset_frame))
        λ bs. ok ([] ++ ((bs, false) ∷ []))
write_frame-encode_frame_example = write_frame-encode_frame test_serde reset_frame false []
