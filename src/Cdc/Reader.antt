-- ===== src/Cdc/Reader.antt =====
-- storage/cdc_protocol.rs: `Reader`, a cursor over a payload. A method takes the reader and returns
-- its value with the new reader, or the error.
use Prim.Native.String.{String}
use pg_eddy.Common.{
  Bool, ℕ, zero, suc, ◌+◌, ◌-◌, ◌^◌, List, [], ◌∷◌, ltb, ◌==◌, if◌then◌else◌, length, take, drop,
}
use pg_eddy.Common.{Result, ok, err, and_then}
use pg_eddy.Common.Bytes.{from_be}
use pg_eddy.Common.Int.{ℤ, from_bits}
use pg_eddy.Common.Utf8.{is_utf8}
use pg_eddy.Json.{Json, Fields, SerdeJson}
use pg_eddy.Cdc.{
  NodeRow, EdgeRow, ProtocolError, payload_truncated, trailing_payload, field_too_large,
  invalid_utf8, properties_not_object, max_field_bytes, max_labels,
}
use pg_eddy.Cdc.Encode.{json_error}

pub record Reader : Type 0 where
  pub payload : List ℕ
  pub offset : ℕ

abbrev pub Read {ℓ} : Type ℓ → Type ℓ
Read A = Reader → Result ProtocolError (A × Reader)

infixl 5 ◌>>=◌ ◌>>◌
abbrev pub ◌>>=◌ {ℓ κ} : {A : Type ℓ} {B : Type κ} → Read A → (A → Read B) → Read B
m >>= f = λ r. and_then (m r) λ (a, r'). f a r'

abbrev pub ◌>>◌ {ℓ} : {B : Type ℓ} → Read (Unit {0}) → Read B → Read B
m >> k = m >>= λ _. k

abbrev pub pure {ℓ} : {A : Type ℓ} → A → Read A
pure a r = ok (a, r)

abbrev pub fail_if : Bool → ProtocolError → Read (Unit {0})
fail_if b e r = if b then err e else ok (tt, r)

unfoldable pub new : List ℕ → Reader
new payload = record { payload = payload; offset = 0 }

-- `saturating_sub` is the subtraction of the native numbers.
unfoldable pub take_bytes : ℕ → Read (List ℕ)
take_bytes needed r =
    let remaining = length r.payload - r.offset in
    if ltb remaining needed
    then err (payload_truncated r.offset needed remaining)
    else ok (take needed (drop r.offset r.payload), record r { offset = r.offset + needed })

unfoldable pub read_u16 : Read ℕ
unfolding take_bytes
read_u16 = do bytes ← take_bytes 2; pure (from_be bytes)

unfoldable pub read_u32 : Read ℕ
unfolding take_bytes
read_u32 = do bytes ← take_bytes 4; pure (from_be bytes)

unfoldable pub read_u64 : Read ℕ
unfolding take_bytes
read_u64 = do bytes ← take_bytes 8; pure (from_be bytes)

unfoldable pub read_i64 : Read ℤ
unfolding take_bytes
read_i64 = do bytes ← take_bytes 8; pure (from_bits (2 ^ 63) (from_be bytes))

unfoldable pub read_bytes : String → Read (List ℕ)
unfolding read_u32
read_bytes name = do
  len ← read_u32
  fail_if (ltb max_field_bytes len) (field_too_large name len max_field_bytes)
  take_bytes len

unfoldable pub read_string : String → Read (List ℕ)
unfolding read_bytes
read_string name = do
  bytes ← read_bytes name
  if is_utf8 bytes then pure bytes else λ _. err (invalid_utf8 name)

-- `value.as_object().cloned().ok_or(...)`
unfoldable pub as_object : {N : Type 0} → Json N → Read (Fields N)
as_object (Json.object fields) = pure fields
as_object _ = λ _. err properties_not_object

abbrev pub lift {ℓ} : {A : Type ℓ} → Result ProtocolError A → Read A
lift (ok a) = pure a
lift (err e) = λ _. err e

-- `for _ in 0..label_count { labels.push(self.string("label")?) }`
unfoldable pub read_labels : ℕ → Read (List (List ℕ))
unfolding read_string
read_labels zero = pure []
read_labels (suc count) = do
  label ← read_string "label"
  labels ← read_labels count
  pure (label ∷ labels)

module _ {N : Type 0} (serde : SerdeJson N) where
  unfoldable pub read_properties : Read (Fields N)
  unfolding read_bytes as_object
  read_properties = do
    bytes ← read_bytes "properties"
    value ← lift (json_error (serde.from_slice bytes))
    as_object value

  unfoldable pub read_node : Read (NodeRow N)
  unfolding read_i64 read_u16 read_labels read_properties
  read_node = do
    node_id ← read_i64
    label_count ← read_u16
    fail_if (ltb max_labels label_count) (field_too_large "label count" label_count max_labels)
    labels ← read_labels label_count
    properties ← read_properties
    pure (record { node_id = node_id; labels = labels; properties = properties })

  unfoldable pub read_edge : Read (EdgeRow N)
  unfolding read_i64 read_string read_properties
  read_edge = do
    rel_id ← read_i64
    rel_type ← read_string "relationship type"
    source_node_id ← read_i64
    target_node_id ← read_i64
    properties ← read_properties
    pure (record {
      rel_id = rel_id;
      rel_type = rel_type;
      source_node_id = source_node_id;
      target_node_id = target_node_id;
      properties = properties;
    })

-- `payload.len() - offset` would underflow behind the end: see `Cdc.InBounds`.
unfoldable pub finish : Reader → Result ProtocolError (Unit {0})
finish r =
    let trailing = length r.payload - r.offset in
    if trailing == 0 then ok tt else err (trailing_payload trailing)
