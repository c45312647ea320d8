-- ===== src/OutputPlugin.antt =====
-- storage/wal_decode.rs: the callbacks of the logical decoding output plugin. A callback gets the
-- transaction and the plugin's output so far, and returns both or the error that it raises.
pub mod Stream
pub mod Limit
mod Tests
use pg_eddy.Common.{
  ℕ, ◌^◌, Bool, true, false, not, ◌&&◌, ◌||◌, Option, none, some, List, [], ◌∷◌, ◌++◌, ltb, ◌==◌,
  if◌then◌else◌, length, take, Result, ok, err, ◌>>=◌, ◌>>◌, fail_if, and_then,
}
use pg_eddy.Common.Bytes.{eq_bytes}
use pg_eddy.Json.{SerdeJson}
use pg_eddy.Cdc.{Mutation, Frame, begin_frame, commit_frame, mutation_frame, ProtocolError}
use pg_eddy.Cdc.Encode.{encode_frame}
use pg_eddy.Cdc.Decode.{decode_logical_message}

-- b"pg_eddy/v1"
abbrev pub logical_message_prefix : List ℕ
logical_message_prefix = b'p' ∷ b'g' ∷ b'_' ∷ b'e' ∷ b'd' ∷ b'd' ∷ b'y' ∷ b'/' ∷ b'v' ∷ b'1' ∷ []

-- `output_plugin_private`: NULL, the address of TXN_HAS_PG_EDDY_MESSAGES, or another address.
pub data Private : Type 0 where
  null_private : Private
  marker : Private
  other_private : ℕ → Private

-- The fields of `ReorderBufferTXN` that the callbacks read and write.
pub record Transaction : Type 0 where
  pub xid : ℕ
  pub end_lsn : ℕ
  pub private_data : Private

-- One `OutputPluginWrite`: the bytes and `last_write`.
abbrev pub Output : Type 0
Output = List (List ℕ × Bool)

pub record Session : Type 0 where
  pub txn : Transaction
  pub out : Output

-- What `message` is called with. The data, where it is not NULL, holds `message_size` bytes or more.
pub record Message : Type 0 where
  pub message_lsn : ℕ
  pub transactional : Bool
  pub prefix_bytes : Option (List ℕ)
  pub message_size : ℕ
  pub message_data : Option (List ℕ)

pub data PluginError : Type 0 where
  null_transaction : PluginError
  null_state : PluginError
  null_payload : PluginError
  decode_failed : ProtocolError → PluginError
  encode_failed : ProtocolError → PluginError
  exceeds_limit : PluginError

abbrev pub map_err {ℓ κ ι} :
    {E : Type ℓ} {F : Type κ} {A : Type ι} → (E → F) → Result E A → Result F A
map_err f (ok a) = ok a
map_err f (err e) = err (f e)

abbrev pub is_null : Private → Bool
is_null null_private = true
is_null _ = false

abbrev pub is_marker : Private → Bool
is_marker marker = true
is_marker _ = false

-- The two tests that make `message` return at once.
unfoldable pub ignored : Message → Bool
ignored m =
    not m.transactional
    || elim m.prefix_bytes [ none ↦ true | some p ↦ not (eq_bytes p logical_message_prefix) ]

-- The slice that `message` decodes.
unfoldable pub payload_of : Message → List ℕ
payload_of m =
    if m.message_size == 0
    then []
    else elim m.message_data [ none ↦ [] | some bytes ↦ take m.message_size bytes ]

abbrev pub data_is_null : Message → Bool
data_is_null m = elim m.message_data [ none ↦ true | some bytes ↦ false ]

-- `begin` with a transaction that may be NULL.
unfoldable pub begin_callback : (null_txn : Bool) → Session → Result PluginError Session
begin_callback null_txn s = do
  fail_if null_txn null_transaction
  ok (record s { txn = record (s.txn) { private_data = null_private } })

-- `change`: ordinary heap changes are ignored.
unfoldable pub change_callback : Session → Result PluginError Session
change_callback s = ok s

module _ {N : Type 0} (serde : SerdeJson N) where
  unfoldable pub write_frame : Frame N → Bool → Output → Result PluginError Output
  write_frame frame last_write out = do
    encoded ← map_err encode_failed (encode_frame serde frame)
    fail_if (not (ltb (length encoded) (2 ^ 31))) exceeds_limit
    ok (out ++ ((encoded, last_write) ∷ []))

  -- BEGIN goes out before the first message, and marks the transaction.
  unfoldable pub write_begin : Session → Result PluginError Session
  unfolding write_frame
  write_begin s =
      let first =
        and_then (write_frame (begin_frame s.txn.xid) false s.out)
          λ out. ok (record { txn = record (s.txn) { private_data = marker }; out = out }) in
      if is_null s.txn.private_data then first else ok s

  -- `context` or `transaction` may be NULL.
  unfoldable pub message_callback :
      (null_args : Bool) → Message → Session → Result PluginError Session
  unfolding write_begin
  message_callback null_args m s = if ignored m then ok s else do
    fail_if null_args null_state
    fail_if (ltb 0 m.message_size && data_is_null m) null_payload
    mutation ← map_err decode_failed (decode_logical_message serde (payload_of m))
    s ← write_begin s
    out ← write_frame (mutation_frame m.message_lsn mutation) false s.out
    ok (record s { out = out })

  unfoldable pub commit_callback :
      (null_args : Bool) → (commit_lsn : ℕ) → Session → Result PluginError Session
  unfolding write_frame
  commit_callback null_args commit_lsn s = do
    fail_if null_args null_state
    let frame = commit_frame s.txn.xid commit_lsn s.txn.end_lsn
    let last = and_then (write_frame frame true s.out) λ out. ok (record s { out = out })
    if is_marker s.txn.private_data then last else ok s

  -- PostgreSQL calls `begin`, `message` for each message in order, and `commit`.
  unfoldable pub messages : List Message → Session → Result PluginError Session
  unfolding message_callback
  messages [] s = ok s
  messages (m ∷ ms) s = do s ← message_callback false m s; messages ms s

  unfoldable pub transaction :
      List Message → (commit_lsn : ℕ) → Session → Result PluginError Session
  unfolding begin_callback messages commit_callback
  transaction ms commit_lsn s = do
    s ← begin_callback false s
    s ← messages ms s
    commit_callback false commit_lsn s
