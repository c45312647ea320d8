-- ===== src/Props/RoundTrip.antt =====
-- storage/prop_store.rs: `decode_value` reads back what `encode_value` wrote.
use pg_eddy.Common.{
  ℕ, zero, suc, ◌+◌, ◌%◌, ◌^◌, ◌<◌, ◌≡◌, true, refl, ap, inl, inr, Bool, true, false, some, List,
  [], ◌∷◌, ◌++◌, append_assoc, arith, leb, Bool-cases, Option-cases, length, length-append, ◌==◌,
  get_or,
}
use pg_eddy.Common.Bytes.{le_bytes, length-le_bytes}
use pg_eddy.Common.Position.{At, At-move, At-get}
use pg_eddy.Json.{Json, Items, Fields, JsonLib, length_items, length_fields, insert_all}
use pg_eddy.Props.{
  push, encode_map_key, encode_number, encode_value, encode_items, encode_fields, tag_list, tag_map,
}
use pg_eddy.Props.Decode.{u32_at, decode_items, decode_fields, decode_tag, decode_value}
use pg_eddy.Props.Exact.{
  value_append, items_append, fields_append, IsText, IsNumber, IsExact, AreExact, HasExact,
  IsReserved, AreReserved, HasReserved,
}
use pg_eddy.Props.Arms.{rest-At, u32_at-le_bytes, decode_text, decode_number, decode_boolean}

pub encode_map_key_pos : (k : List ℕ) → 0 < length (encode_map_key [] k)
unfolding encode_map_key
encode_map_key_pos k = elim (Bool-cases (leb (length k) 255)) [
  | inl short ↦ rw short (omega arith)
  | inr long ↦ rw long (omega arith)
]

module _ {N : Type 0} (lib : JsonLib N) where
  encode_number_pos : (n : N) → 0 < length (encode_number lib [] n)
  unfolding encode_number
  encode_number_pos n = elim (Option-cases (lib.as_i64 n)) [
    | inr (i, e) ↦ rw (e, encode_number) (omega arith)
    | inl e ↦ elim (Option-cases (lib.as_f64 n)) [
      | inr (f, e') ↦ rw (e, e', encode_number) (omega arith)
      | inl e' ↦ rw (e, e', encode_number) (omega arith)
    ]
  ]

  -- Every value takes a byte at least.
  pub encode_value_pos : (v : Json N) → 0 < length (encode_value lib [] v)
  unfolding encode_value
  encode_value_pos Json.null = omega arith
  encode_value_pos (Json.bool b) = omega arith
  encode_value_pos (Json.number n) = encode_number_pos n
  encode_value_pos (Json.string s) = encode_map_key_pos s
  encode_value_pos (Json.array arr) =
      let head = push [] tag_list ++ le_bytes 4 (length_items arr % 2 ^ 32) in
      omega
        (arith, ap length (items_append lib head arr), length-append head (encode_items lib [] arr))
  encode_value_pos (Json.object obj) =
      let head = push [] tag_map ++ le_bytes 4 (length_fields obj % 2 ^ 32) in
      omega (
        arith,
        ap length (fields_append lib head obj),
        length-append head (encode_fields lib [] obj),
      )

  -- A string cell anywhere, as a value or as a key.
  pub decode_string :
      (fuel : ℕ) {bytes : List ℕ} {p : ℕ} (s rest : List ℕ)
      → IsText s
      → length bytes < fuel + p
      → At bytes p (encode_map_key [] s ++ rest)
      → decode_value lib fuel bytes p ≡ some (Json.string s, length (encode_map_key [] s))
  unfolding decode_value
  decode_string zero s rest text bound h = absurd (omega (arith, h.size))
  decode_string (suc fuel) {bytes} {p} s rest text bound h =
      let inside : leb (length bytes) p ≡ false =
        ground (arith, h.size, length-append (encode_map_key [] s) rest, encode_map_key_pos s) in
      rw inside (decode_text lib (decode_value lib fuel bytes) s rest text h)

  pub count-At :
      {bytes : List ℕ} {p : ℕ} (tag n : ℕ) (body rest : List ℕ)
      → n < 2 ^ 32
      → At bytes p ((push [] tag ++ le_bytes 4 (n % 2 ^ 32) ++ body) ++ rest)
      → (get_or bytes p 0 ≡ tag)
        × (u32_at bytes (p + 1) ≡ n)
        × (leb (p + 1 + 4) (length bytes) ≡ true)
        × At bytes (p + 1 + 4) (body ++ rest)
  count-At {p} tag n body rest small h =
      let le = le_bytes 4 n in
      let same : n % 2 ^ 32 ≡ n = omega arith in
      let at : At _ p (tag ∷ (le ++ (body ++ rest))) = rw (same, append_assoc le body rest) at h in
      let at₁ = rest-At lib at in
      let (word, room) = u32_at-le_bytes n (body ++ rest) small at₁ in
      (At-get at, word, room, At-move le (p + 1 + 4) at₁ (omega (arith, length-le_bytes 4 n)))

  -- Wherever its bytes lie, and with fuel for the bytes from there on, the value is decoded.
  abbrev ValueAt : Json N → Type 0
  ValueAt v =
      (fuel : ℕ) (bytes : List ℕ) (p : ℕ) (rest : List ℕ)
      → length bytes < fuel + p
      → At bytes p (encode_value lib [] v ++ rest)
      → decode_value lib fuel bytes p ≡ some (v, length (encode_value lib [] v))

  abbrev ItemsAt : Items N → Type 0
  ItemsAt vs =
      (fuel : ℕ) (bytes : List ℕ) (q : ℕ) (rest : List ℕ)
      → length bytes < fuel + q
      → At bytes q (encode_items lib [] vs ++ rest)
      → decode_items lib (decode_value lib fuel bytes) (length_items vs) q
        ≡ some (vs, q + length (encode_items lib [] vs))

  abbrev FieldsAt : Fields N → Type 0
  FieldsAt fs =
      (fuel : ℕ) (bytes : List ℕ) (q : ℕ) (acc : Fields N) (rest : List ℕ)
      → length bytes < fuel + q
      → At bytes q (encode_fields lib [] fs ++ rest)
      → decode_fields lib (decode_value lib fuel bytes) (length_fields fs) q acc
        ≡ some (insert_all lib acc fs, q + length (encode_fields lib [] fs))

  -- It is enough to look at the arm of the tag.
  by_tag :
      (v : Json N)
      → ((fuel : ℕ) (bytes : List ℕ) (p : ℕ) (rest : List ℕ)
          → length bytes < suc fuel + p
          → At bytes p (encode_value lib [] v ++ rest)
          → decode_tag lib (decode_value lib fuel bytes) bytes (get_or bytes p 0) p
            ≡ some (v, length (encode_value lib [] v)))
      → ValueAt v
  unfolding decode_value
  by_tag v arm zero bytes p rest bound h = absurd (omega (arith, h.size))
  by_tag v arm (suc fuel) bytes p rest bound h =
      let inside : leb (length bytes) p ≡ false =
        ground (arith, h.size, length-append (encode_value lib [] v) rest, encode_value_pos v) in
      rw inside (arm fuel bytes p rest bound h)

  null_at : ValueAt Json.null
  unfolding encode_value
  null_at = by_tag Json.null λ fuel bytes p rest bound h. unfold decode_tag in rw (At-get h)

  bool_at : (b : Bool) → ValueAt (Json.bool b)
  unfolding encode_value
  bool_at b = by_tag (Json.bool b) λ fuel bytes p rest bound h.
      rw (At-get h) (decode_boolean lib (decode_value lib fuel bytes) b rest h)

  number_at : (n : N) → IsNumber lib n → ValueAt (Json.number n)
  unfolding encode_value
  number_at n ok_n =
      by_tag (Json.number n)
        λ fuel bytes p rest bound h. decode_number lib (decode_value lib fuel bytes) n rest ok_n h

  string_at : (s : List ℕ) → IsText s → ValueAt (Json.string s)
  unfolding encode_value
  string_at s text fuel bytes p rest bound h = decode_string fuel s rest text bound h

  array_at :
      (arr : Items N)
      → length_items arr < 2 ^ 32
      → lib.can_reserve (length_items arr) ≡ true
      → ItemsAt arr
      → ValueAt (Json.array arr)
  unfolding encode_value decode_tag
  array_at arr few reserved items = by_tag (Json.array arr) λ fuel bytes p rest bound h.
      let n = length_items arr in
      let body = encode_items lib [] arr in
      let head = push [] tag_list ++ le_bytes 4 (n % 2 ^ 32) in
      let (tag, word, room, at) =
        count-At tag_list n body rest few (rw (items_append lib head arr) at h) in
      rw
        (
          tag,
          room,
          word,
          reserved,
          items fuel bytes (p + 1 + 4) rest (omega arith) at,
          items_append lib head arr,
        )
        (ap (λ k. some (Json.array arr, k))
          (omega
            (arith, length-append (le_bytes 4 (n % 2 ^ 32)) body, length-le_bytes 4 (n % 2 ^ 32))))

  object_at :
      (obj : Fields N)
      → length_fields obj < 2 ^ 32
      → insert_all lib Fields.end obj ≡ obj
      → FieldsAt obj
      → ValueAt (Json.object obj)
  unfolding encode_value decode_tag
  object_at obj few whole fields = by_tag (Json.object obj) λ fuel bytes p rest bound h.
      let n = length_fields obj in
      let body = encode_fields lib [] obj in
      let head = push [] tag_map ++ le_bytes 4 (n % 2 ^ 32) in
      let (tag, word, room, at) =
        count-At tag_map n body rest few (rw (fields_append lib head obj) at h) in
      rw
        (
          tag,
          room,
          word,
          fields fuel bytes (p + 1 + 4) Fields.end rest (omega arith) at,
          whole,
          fields_append lib head obj,
        )
        (ap (λ k. some (Json.object obj, k))
          (omega
            (arith, length-append (le_bytes 4 (n % 2 ^ 32)) body, length-le_bytes 4 (n % 2 ^ 32))))

  nil_at : ItemsAt Items.nil
  unfolding decode_items length_items encode_value
  nil_at fuel bytes q rest bound h = ap (λ k. some (Items.nil, k)) (omega arith)

  cons_at : (v : Json N) (vs : Items N) → ValueAt v → ItemsAt vs → ItemsAt (Items.cons v vs)
  unfolding decode_items length_items encode_items
  cons_at v vs value items fuel bytes q rest bound h =
      let bv = encode_value lib [] v in
      let bvs = encode_items lib [] vs in
      let at : At bytes q (bv ++ (bvs ++ rest)) =
        rw (items_append lib bv vs, append_assoc bv bvs rest) at h in
      let pos : (length bv == 0) ≡ false = ground (arith, encode_value_pos v) in
      rw
        (
          value fuel bytes q (bvs ++ rest) bound at,
          pos,
          items fuel bytes (q + length bv) rest (omega arith) (At-move bv (q + length bv) at refl),
          items_append lib bv vs,
        )
        (ap (λ k. some (Items.cons v vs, k)) (omega (arith, length-append bv bvs)))

  end_at : FieldsAt Fields.end
  unfolding decode_fields length_fields encode_value insert_all
  end_at fuel bytes q acc rest bound h = ap (λ k. some (acc, k)) (omega arith)

  field_at :
      (k : List ℕ) (v : Json N) (fs : Fields N)
      → IsText k
      → ValueAt v
      → FieldsAt fs
      → FieldsAt (Fields.field k v fs)
  unfolding decode_fields length_fields encode_fields insert_all
  field_at k v fs text value fields fuel bytes q acc rest bound h =
      let bk = encode_map_key [] k in
      let bv = encode_value lib [] v in
      let bfs = encode_fields lib [] fs in
      let front = encode_value lib bk v in
      let at : At bytes q (bk ++ (bv ++ (bfs ++ rest))) =
        rw
          (
            fields_append lib front fs,
            value_append lib bk v,
            append_assoc (bk ++ bv) bfs rest,
            append_assoc bk bv (bfs ++ rest),
          )
          at h in
      let at₁ = At-move bk (q + length bk) at refl in
      let at₂ = At-move bv (q + length bk + length bv) at₁ refl in
      let pos_k : (length bk == 0) ≡ false = ground (arith, encode_map_key_pos k) in
      let pos_v : (length bv == 0) ≡ false = ground (arith, encode_value_pos v) in
      rw
        (
          decode_string fuel k _ text bound at,
          value fuel bytes (q + length bk) (bfs ++ rest) (omega arith) at₁,
          pos_k,
          pos_v,
          fields fuel bytes (q + length bk + length bv) (lib.insert k v acc) rest (omega arith) at₂,
          fields_append lib front fs,
          value_append lib bk v,
        )
        (ap (λ n. some (insert_all lib (lib.insert k v acc) fs, n))
          (omega (arith, length-append (bk ++ bv) bfs, length-append bk bv)))

  mutual
    unfolding IsExact IsReserved

    pub value_at : (v : Json N) → IsExact lib v → IsReserved lib v → ValueAt v
    value_at Json.null ex re = null_at
    value_at (Json.bool b) ex re = bool_at b
    value_at (Json.number n) ex re = number_at n ex
    value_at (Json.string s) ex re = string_at s ex
    value_at (Json.array arr) (few, ex) (reserved, re) =
        array_at arr few reserved (items_at arr ex re)
    value_at (Json.object obj) (few, whole, ex) re = object_at obj few whole (fields_at obj ex re)

    items_at : (vs : Items N) → AreExact lib vs → AreReserved lib vs → ItemsAt vs
    items_at Items.nil ex re = nil_at
    items_at (Items.cons v vs) (e, ex) (r, re) = cons_at v vs (value_at v e r) (items_at vs ex re)

    fields_at : (fs : Fields N) → HasExact lib fs → HasReserved lib fs → FieldsAt fs
    fields_at Fields.end ex re = end_at
    fields_at (Fields.field k v fs) (text, e, ex) (r, re) =
        field_at k v fs text (value_at v e r) (fields_at fs ex re)
