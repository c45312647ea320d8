-- ===== src/Json.antt =====
-- JSON values as `serde_json::Value` exposes them. Numbers are the library's own type, a parameter.
-- An object is the list of its entries in iteration order.
pub mod Examples
use pg_eddy.Common.{ℕ, suc, Bool, Option, List, Result}
use pg_eddy.Common.Int.{ℤ}

mutual
  pub data Json (N : Type 0) : Type 0 where
    null : Json N
    bool : Bool → Json N
    number : N → Json N
    string : List ℕ → Json N
    array : Items N → Json N
    object : Fields N → Json N

  pub data Items (N : Type 0) : Type 0 where
    nil : Items N
    cons : Json N → Items N → Items N

  pub data Fields (N : Type 0) : Type 0 where
    end : Fields N
    field : List ℕ → Json N → Fields N → Fields N

-- `serde_json::to_vec` and `serde_json::from_slice`, whose error is a message.
pub record SerdeJson (N : Type 0) : Type 0 where
  pub to_vec : Json N → Result (List ℕ) (List ℕ)
  pub from_slice : List ℕ → Result (List ℕ) (Json N)

-- What the property codec calls of serde_json: `Number::{as_i64, as_f64, from, from_f64}` and
-- `Map::insert`. A float is its 64 bits.
pub record JsonLib (N : Type 0) : Type 0 where
  pub as_i64 : N → Option ℤ
  pub as_f64 : N → Option ℕ
  pub from_i64 : ℤ → N
  pub from_f64 : ℕ → Option N
  pub insert : List ℕ → Json N → Fields N → Fields N
  pub can_reserve : ℕ → Bool

module _ {N : Type 0} where
  -- `arr.len()` and `obj.len()`.
  unfoldable pub length_items : Items N → ℕ
  length_items nil = 0
  length_items (cons v vs) = suc (length_items vs)

  unfoldable pub length_fields : Fields N → ℕ
  length_fields end = 0
  length_fields (field k v fs) = suc (length_fields fs)

  -- The map that the entries `fs`, inserted in their order, make of `acc`.
  unfoldable pub insert_all : JsonLib N → Fields N → Fields N → Fields N
  insert_all lib acc end = acc
  insert_all lib acc (field k v fs) = insert_all lib (lib.insert k v acc) fs
