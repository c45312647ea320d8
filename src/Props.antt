-- ===== src/Props.antt =====
-- storage/prop_store.rs: the binary encoding of property values.
pub mod Decode
pub mod Scan
pub mod Exact
pub mod Arms
pub mod RoundTrip
pub mod Total
pub mod Aborts
mod Tests
pub mod Skip
pub mod SkipExact
pub mod Entities
use pg_eddy.Common.{
  ℕ, suc, ◌%◌, ◌^◌, Bool, Option, none, some, List, [], ◌∷◌, ◌++◌, leb, if◌then◌else◌, length,
  Result, ok, ◌>>=◌,
}
use pg_eddy.Common.Bytes.{le_bytes}
use pg_eddy.Common.Int.{ℤ, to_bits}
use pg_eddy.Json
use pg_eddy.Json.{Json, Items, Fields, JsonLib, length_items, length_fields}

abbrev pub tag_integer : ℕ
tag_integer = 0x01

abbrev pub tag_float : ℕ
tag_float = 0x02

abbrev pub tag_bool : ℕ
tag_bool = 0x03

abbrev pub tag_str_short : ℕ
tag_str_short = 0x04

abbrev pub tag_str_long : ℕ
tag_str_long = 0x05

abbrev pub tag_date : ℕ
tag_date = 0x06

abbrev pub tag_localdatetime : ℕ
tag_localdatetime = 0x07

abbrev pub tag_duration : ℕ
tag_duration = 0x09

abbrev pub tag_list : ℕ
tag_list = 0x0c

abbrev pub tag_map : ℕ
tag_map = 0x0d

abbrev pub tag_null : ℕ
tag_null = 0x0e

-- `buf.push(b)`
abbrev pub push : List ℕ → ℕ → List ℕ
push buf b = buf ++ (b ∷ [])

-- `encode_map_key`; the `Json::String` arm of `encode_value` is the same code.
unfoldable pub encode_map_key : List ℕ → List ℕ → List ℕ
encode_map_key buf bytes =
    let len = length bytes in
    let prefix =
      if leb len 255
      then push (push buf tag_str_short) (len % 256)
      else push buf tag_str_long ++ le_bytes 4 (len % 2 ^ 32) in
    prefix ++ bytes

unfoldable pub encode_bool : Bool → ℕ
encode_bool b = if b then 1 else 0

module _ {N : Type 0} (lib : JsonLib N) where
  unfoldable pub encode_number : List ℕ → N → List ℕ
  encode_number buf n = elim (lib.as_i64 n) [
    | some i ↦ push buf tag_integer ++ le_bytes 8 (to_bits (2 ^ 63) i)
    | none ↦ elim (lib.as_f64 n) [
      | some f ↦ push buf tag_float ++ le_bytes 8 f
      | none ↦ push buf tag_null
    ]
  ]

  unfoldable mutual
    unfolding encode_map_key encode_number encode_bool length_items length_fields

    pub encode_value : List ℕ → Json N → List ℕ
    encode_value buf Json.null = push buf tag_null
    encode_value buf (Json.bool b) = push (push buf tag_bool) (encode_bool b)
    encode_value buf (Json.number n) = encode_number buf n
    encode_value buf (Json.string s) = encode_map_key buf s
    encode_value buf (Json.array arr) =
        encode_items (push buf tag_list ++ le_bytes 4 (length_items arr % 2 ^ 32)) arr
    encode_value buf (Json.object obj) =
        encode_fields (push buf tag_map ++ le_bytes 4 (length_fields obj % 2 ^ 32)) obj

    pub encode_items : List ℕ → Items N → List ℕ
    encode_items buf Items.nil = buf
    encode_items buf (Items.cons v vs) = encode_items (encode_value buf v) vs

    pub encode_fields : List ℕ → Fields N → List ℕ
    encode_fields buf Fields.end = buf
    encode_fields buf (Fields.field k v fs) =
        encode_fields (encode_value (encode_map_key buf k) v) fs

  -- The loop of `encode`. `S` is what the closure `key_id_for` keeps between its calls.
  unfoldable pub encode_entries {ℓ κ} :
      {S : Type ℓ} {E : Type κ} (key_id_for : List ℕ → S → Result E (ℤ × S))
      → List ℕ
      → S
      → Fields N
      → Result E (List ℕ × S)
  unfolding encode_value
  encode_entries key_id_for buf s Fields.end = ok (buf, s)
  encode_entries key_id_for buf s (Fields.field key value fs) = do
    (kid, s) ← key_id_for key s
    encode_entries key_id_for (encode_value (buf ++ le_bytes 4 (to_bits (2 ^ 31) kid)) value) s fs

  unfoldable pub encode {ℓ κ} :
      {S : Type ℓ} {E : Type κ} (key_id_for : List ℕ → S → Result E (ℤ × S))
      → S
      → Fields N
      → Result E (List ℕ × S)
  unfolding encode_entries
  encode key_id_for s props = encode_entries key_id_for [] s props
