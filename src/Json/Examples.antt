-- ===== src/Json/Examples.antt =====
-- A JSON library for the tests: its numbers are integers, and its only text is that of an empty object.
use pg_eddy.Common.{true, ℕ, none, some, List, [], ◌∷◌, if◌then◌else◌, ok, err}
use pg_eddy.Common.Bytes.{eq_bytes}
use pg_eddy.Common.Int.{ℤ}
use pg_eddy.Json.{Json, Fields, SerdeJson, JsonLib}

abbrev pub braces : List ℕ
braces = b'{' ∷ b'}' ∷ []

abbrev pub test_serde : SerdeJson ℤ
test_serde = record {
  to_vec =
      λ v. elim v [ Json.object fs ↦ elim fs [ Fields.end ↦ ok braces | _ ↦ err [] ] | _ ↦ err [] ];
  from_slice = λ bs. if eq_bytes bs braces then ok (Json.object Fields.end) else err [];
}

-- `Map::insert`: a new entry goes to the end, an old one is replaced where it is.
abbrev pub insert_field : List ℕ → Json ℤ → Fields ℤ → Fields ℤ
insert_field k v Fields.end = Fields.field k v Fields.end
insert_field k v (Fields.field k' v' fs) =
    if eq_bytes k k' then Fields.field k' v fs else Fields.field k' v' (insert_field k v fs)

abbrev pub test_lib : JsonLib ℤ
test_lib = record {
  as_i64 = λ n. some n;
  as_f64 = λ n. none;
  from_i64 = λ i. i;
  from_f64 = λ f. none;
  insert = insert_field;
  can_reserve = λ n. true;
}
