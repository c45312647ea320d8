-- ===== src/Props/Exact.antt =====
-- storage/prop_store.rs: the bytes of a value, and the values that the encoding keeps.
use pg_eddy.Common.{
  ℕ, ◌%◌, ◌^◌, ◌<◌, ◌≡◌, refl, sym, ap, ◌∙◌, ◌⊎◌, inl, inr, true, none, some, List, [], ◌++◌,
  append-nil, append_assoc, leb, Bool-cases, Option-cases, length,
}
use pg_eddy.Common.Bytes.{le_bytes}
use pg_eddy.Common.Int.{ℤ, IsI64}
use pg_eddy.Common.Utf8.{IsUtf8}
use pg_eddy.Json.{Json, Items, Fields, JsonLib, length_items, length_fields, insert_all}
use pg_eddy.Props.{
  push, tag_list, tag_map, encode_map_key, encode_number, encode_value, encode_items, encode_fields,
}

-- An encoder only appends: the bytes that it adds do not depend on the buffer.
pub encode_map_key-append : (buf k : List ℕ) → encode_map_key buf k ≡ buf ++ encode_map_key [] k
unfolding encode_map_key
encode_map_key-append buf k = elim (Bool-cases (leb (length k) 255)) [
  | inl short ↦ rw short (simp append_assoc)
  | inr long ↦ rw long (simp append_assoc)
]

module _ {N : Type 0} (lib : JsonLib N) where
  pub encode_number-append :
      (buf : List ℕ) (n : N) → encode_number lib buf n ≡ buf ++ encode_number lib [] n
  unfolding encode_number
  encode_number-append buf n = elim (Option-cases (lib.as_i64 n)) [
    | inr (i, e) ↦ rw (e, encode_number) (simp append_assoc)
    | inl e ↦ elim (Option-cases (lib.as_f64 n)) [
      | inr (f, e') ↦ rw (e, e', encode_number) (simp append_assoc)
      | inl e' ↦ rw (e, e', encode_number)
    ]
  ]

  mutual
    unfolding encode_value

    pub value_append :
        (buf : List ℕ) (v : Json N) → encode_value lib buf v ≡ buf ++ encode_value lib [] v
    value_append buf Json.null = refl
    value_append buf (Json.bool b) = simp append_assoc
    value_append buf (Json.number n) = encode_number-append buf n
    value_append buf (Json.string s) = encode_map_key-append buf s
    value_append buf (Json.array arr) =
        let count = le_bytes 4 (length_items arr % 2 ^ 32) in
        items_append (push buf tag_list ++ count) arr
        ∙ simp append_assoc
            (ap (λ t. buf ++ t) (sym (items_append (push [] tag_list ++ count) arr)))
    value_append buf (Json.object obj) =
        let count = le_bytes 4 (length_fields obj % 2 ^ 32) in
        fields_append (push buf tag_map ++ count) obj
        ∙ simp append_assoc
            (ap (λ t. buf ++ t) (sym (fields_append (push [] tag_map ++ count) obj)))

    pub items_append :
        (buf : List ℕ) (vs : Items N) → encode_items lib buf vs ≡ buf ++ encode_items lib [] vs
    items_append buf Items.nil = sym (append-nil buf)
    items_append buf (Items.cons v vs) =
        items_append (encode_value lib buf v) vs
        ∙ ap (λ t. t ++ encode_items lib [] vs) (value_append buf v)
        ∙ append_assoc buf (encode_value lib [] v) (encode_items lib [] vs)
        ∙ ap (λ t. buf ++ t) (sym (items_append (encode_value lib [] v) vs))

    pub fields_append :
        (buf : List ℕ) (fs : Fields N) → encode_fields lib buf fs ≡ buf ++ encode_fields lib [] fs
    fields_append buf Fields.end = sym (append-nil buf)
    fields_append buf (Fields.field k v fs) =
        let key = encode_map_key [] k in
        let front = encode_value lib key v in
        fields_append (encode_value lib (encode_map_key buf k) v) fs
        ∙ ap (λ t. t ++ encode_fields lib [] fs)
            (value_append (encode_map_key buf k) v
              ∙ ap (λ t. t ++ encode_value lib [] v) (encode_map_key-append buf k)
              ∙ append_assoc buf key (encode_value lib [] v)
              ∙ ap (λ t. buf ++ t) (sym (value_append key v)))
        ∙ append_assoc buf front (encode_fields lib [] fs)
        ∙ ap (λ t. buf ++ t) (sym (fields_append front fs))

-- Text that a cell holds: UTF-8 with a length that fits the long form.
abbrev pub IsText : List ℕ → Type 0
IsText s = IsUtf8 s × (length s < 2 ^ 32)

module _ {N : Type 0} (lib : JsonLib N) where
  -- A number that serde_json gives back from the `i64`, or else from the `f64`, that it reports.
  abbrev pub IsNumber : N → Type 0
  IsNumber n =
      ((i : ℤ) × (lib.as_i64 n ≡ some i) × IsI64 i × (lib.from_i64 i ≡ n))
      ⊎ ((f : ℕ) × (lib.as_i64 n ≡ none)
          × (lib.as_f64 n ≡ some f)
          × (f < 2 ^ 64)
          × (lib.from_f64 f ≡ some n))

  -- The values that the encoding keeps. A map is what its entries, inserted in order, make of an
  -- empty one.
  unfoldable mutual
    pub IsExact : Json N → Type 0
    IsExact Json.null = Unit {0}
    IsExact (Json.bool b) = Unit {0}
    IsExact (Json.number n) = IsNumber n
    IsExact (Json.string s) = IsText s
    IsExact (Json.array arr) = (length_items arr < 2 ^ 32) × AreExact arr
    IsExact (Json.object obj) =
        (length_fields obj < 2 ^ 32) × (insert_all lib Fields.end obj ≡ obj) × HasExact obj

    pub AreExact : Items N → Type 0
    AreExact Items.nil = Unit {0}
    AreExact (Items.cons v vs) = IsExact v × AreExact vs

    pub HasExact : Fields N → Type 0
    HasExact Fields.end = Unit {0}
    HasExact (Fields.field k v fs) = IsText k × IsExact v × HasExact fs

  -- The values whose lists, nested ones included, the decoder can reserve memory for.
  unfoldable mutual
    pub IsReserved : Json N → Type 0
    IsReserved (Json.array arr) = (lib.can_reserve (length_items arr) ≡ true) × AreReserved arr
    IsReserved (Json.object obj) = HasReserved obj
    IsReserved Json.null = Unit {0}
    IsReserved (Json.bool b) = Unit {0}
    IsReserved (Json.number n) = Unit {0}
    IsReserved (Json.string s) = Unit {0}

    pub AreReserved : Items N → Type 0
    AreReserved Items.nil = Unit {0}
    AreReserved (Items.cons v vs) = IsReserved v × AreReserved vs

    pub HasReserved : Fields N → Type 0
    HasReserved Fields.end = Unit {0}
    HasReserved (Fields.field k v fs) = IsReserved v × HasReserved fs
