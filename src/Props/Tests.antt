-- ===== src/Props/Tests.antt =====
-- storage/prop_store.rs: the codec on one entity.
use pg_eddy.Common.{
  ℕ, ◌+◌, ◌≤◌, ◌≡◌, refl, Bool, true, some, ltb, List, [], ◌∷◌, ◌++◌, inl, Result, ok, arith,
  length,
}
use pg_eddy.Common.Bytes.{le_bytes, eq_bytes}
use pg_eddy.Common.Utf8.{is_utf8}
use pg_eddy.Common.Int.{ℤ, pos, negsuc, to_bits, eq_ℤ}
use pg_eddy.Json.{Json, Items, Fields, JsonLib, length_items, insert_all}
use pg_eddy.Json.Examples.{test_lib}
use pg_eddy.Props.{encode_value, encode}
use pg_eddy.Props.Decode.{decode_value}
use pg_eddy.Props.Scan.{skip_value, decode, decode_selected}
use pg_eddy.Props.Exact.{IsExact, HasExact, IsReserved, HasReserved}
use pg_eddy.Props.Total.{decode_value_returns, decode_returns}
use pg_eddy.Props.Skip.{decode_selected_returns}
use pg_eddy.Props.SkipExact.{skip_value-encode_value}
use pg_eddy.Props.Entities.{select, Registered, decode-encode, decode_selected-encode}

-- [true, "A"]
abbrev test_items : Items ℤ
test_items = Items.cons (Json.bool true) (Items.cons (Json.string (b'A' ∷ [])) Items.nil)

abbrev test_array : Json ℤ
test_array = Json.array test_items

array-IsExact : IsExact test_lib test_array
unfolding IsExact length_items is_utf8
array-IsExact = (omega arith, (tt, ((refl, omega arith), tt)))

abbrev array_bytes : List ℕ
array_bytes = 12 ∷ 2 ∷ 0 ∷ 0 ∷ 0 ∷ 3 ∷ 1 ∷ 4 ∷ 1 ∷ 65 ∷ []

array_encoded : encode_value test_lib [] test_array ≡ array_bytes
unfolding encode_value le_bytes
array_encoded = refl

skip_value-encode_value_example :
    skip_value 20 ((7 ∷ []) ++ (encode_value test_lib [] test_array ++ (9 ∷ []))) 1
    ≡ some (length (encode_value test_lib [] test_array))
skip_value-encode_value_example =
    skip_value-encode_value test_lib test_array 20 (7 ∷ []) (9 ∷ []) array-IsExact
      (rw array_encoded (omega arith))

-- A list that claims three items and is cut.
abbrev cut : List ℕ
cut = 12 ∷ 3 ∷ 0 ∷ 0 ∷ 0 ∷ 4 ∷ 200 ∷ 65 ∷ []

abbrev key_name : ℤ → List ℕ
key_name (pos n) = n ∷ []
key_name (negsuc n) = []

decode_value_returns_example :
    (r : Json ℤ × ℕ) × (decode_value test_lib 2 cut 0 ≡ some r) × (0 + r.1 ≤ length cut)
decode_value_returns_example =
    decode_value_returns test_lib cut (λ q h. refl) 2 0 (omega arith) (omega arith)

decode_returns_example : (props : Fields ℤ) × (decode test_lib key_name cut ≡ some props)
decode_returns_example = decode_returns test_lib key_name cut (λ q h. refl)

abbrev wants_a : ℤ → Bool
wants_a kid = eq_ℤ kid (pos 97)

decode_selected_returns_example :
    (props : Fields ℤ) × (decode_selected test_lib key_name wants_a cut ≡ some props)
decode_selected_returns_example =
    decode_selected_returns test_lib key_name wants_a cut (λ q h. refl)

-- { a: [true, "A"], b: -3 }, with the keys' bytes as their ids.
abbrev test_props : Fields ℤ
test_props =
    Fields.field (b'a' ∷ []) test_array
      (Fields.field (b'b' ∷ []) (Json.number (negsuc 2)) Fields.end)

abbrev key_id : List ℕ → ℕ → Result ℕ (ℤ × ℕ)
key_id (k ∷ []) s = ok (pos k, s + 1)
key_id _ s = ok (pos 0, s)

abbrev keep_a : List ℕ → Bool
keep_a k = eq_bytes k (b'a' ∷ [])

props-HasExact : HasExact test_lib test_props
unfolding HasExact IsExact length_items is_utf8
props-HasExact = (
  (refl, omega arith),
  (omega arith, (tt, ((refl, omega arith), tt))),
  ((refl, omega arith), inl (negsuc 2, refl, omega arith, refl), tt),
)

props-HasReserved : HasReserved test_lib test_props
unfolding HasReserved IsReserved
props-HasReserved = ((refl, (tt, (tt, tt))), (tt, tt))

test_props-Registered : Registered test_lib key_name wants_a keep_a key_id test_props
unfolding Registered
test_props-Registered = (
  λ s kid s' e. let q : pos b'a' ≡ kid = cc in rw (← q) (omega arith, refl, refl),
  (λ s kid s' e. let q : pos b'b' ≡ kid = cc in rw (← q) (omega arith, refl, refl), tt),
)

abbrev props_bytes : List ℕ
props_bytes =
    97 ∷ 0 ∷ 0 ∷ 0 ∷ 12 ∷ 2 ∷ 0 ∷ 0 ∷ 0 ∷ 3 ∷ 1 ∷ 4 ∷ 1 ∷ 65 ∷ 98 ∷ 0 ∷ 0 ∷ 0 ∷ 1 ∷ 253 ∷ 255 ∷ 255
    ∷ 255 ∷ 255 ∷ 255 ∷ 255 ∷ 255 ∷ []

props_encoded : encode test_lib key_id 0 test_props ≡ ok (props_bytes, 2)
unfolding encode le_bytes to_bits
props_encoded = refl

props_whole : insert_all test_lib Fields.end test_props ≡ test_props
unfolding insert_all
props_whole = refl

decode-encode_example : decode test_lib key_name props_bytes ≡ some test_props
decode-encode_example =
    decode-encode test_lib key_name wants_a keep_a key_id 0 test_props (props_bytes, 2)
      test_props-Registered props-HasExact props-HasReserved props_whole props_encoded

decode_selected-encode_example :
    decode_selected test_lib key_name wants_a props_bytes
    ≡ some (insert_all test_lib Fields.end (select keep_a test_props))
decode_selected-encode_example =
    decode_selected-encode test_lib key_name wants_a keep_a key_id 0 test_props (props_bytes, 2)
      test_props-Registered props-HasExact props-HasReserved props_encoded

-- With memory for less than a million items.
abbrev small_lib : JsonLib ℤ
small_lib = record test_lib { can_reserve = λ n. ltb n 1000000 }
