-- ===== src/Props/SkipExact.antt =====
-- storage/prop_store.rs: `skip_value` steps over exactly what `encode_value` wrote.
use pg_eddy.Common.{
  ℕ, zero, suc, ◌+◌, ◌%◌, ◌^◌, ◌<◌, ◌≡◌, refl, ap, inl, inr, Bool, false, some, List, [], ◌∷◌, ◌++◌,
  append_assoc, arith, leb, leb→le, Bool-cases, length, length-append, ◌==◌, get_or,
}
use pg_eddy.Common.Bytes.{le_bytes, length-le_bytes}
use pg_eddy.Common.Int.{to_bits}
use pg_eddy.Common.Position.{At, At-start, At-move, At-get, At-inside}
use pg_eddy.Json.{Json, Items, Fields, JsonLib, length_items, length_fields}
use pg_eddy.Props.{
  push, encode_map_key, encode_number, encode_value, encode_items, encode_fields, tag_str_short,
  tag_str_long, tag_list, tag_map, tag_integer, tag_float,
}
use pg_eddy.Props.Scan.{skip_items, skip_entries, skip_tag, skip_value}
use pg_eddy.Props.Exact.{
  value_append, items_append, fields_append, IsText, IsNumber, IsExact, AreExact, HasExact,
}
use pg_eddy.Props.Arms.{rest-At, u32_at-le_bytes}
use pg_eddy.Props.RoundTrip.{encode_map_key_pos, encode_value_pos, count-At}

module _ {N : Type 0} (lib : JsonLib N) where
  skip_text :
      (fuel : ℕ) (bytes : List ℕ) (p : ℕ) (s rest : List ℕ)
      → IsText s
      → At bytes p (encode_map_key [] s ++ rest)
      → skip_tag (skip_value fuel bytes) bytes (get_or bytes p 0) p
        ≡ some (length (encode_map_key [] s))
  unfolding encode_map_key skip_tag
  skip_text fuel bytes p s rest (valid, fits) h = elim (Bool-cases (leb (length s) 255)) [
    | inl short ↦
        let at : At bytes p (tag_str_short ∷ length s % 256 ∷ (s ++ rest)) = rw short at h in
        let len : length s % 256 ≡ length s = omega (arith, leb→le _ _ short) in
        let at₁ = rest-At lib at in
        rw (short, At-get at, (At-inside at₁).0, At-get at₁, len) (ap some (omega arith))
    | inr long ↦
        let le = le_bytes 4 (length s) in
        let len : length s % 2 ^ 32 ≡ length s = omega arith in
        let at : At bytes p (tag_str_long ∷ (le ++ (s ++ rest))) =
          rw (long, len, append_assoc le s rest) at h in
        let at₁ = rest-At lib at in
        let (word, room₁) = u32_at-le_bytes (length s) (s ++ rest) fits at₁ in
        rw (long, At-get at, room₁, word, len)
          (ap some (omega (arith, length-append le s, length-le_bytes 4 (length s))))
  ]

  skip_number :
      (fuel : ℕ) (bytes : List ℕ) (p : ℕ) (n : N) (rest : List ℕ)
      → IsNumber lib n
      → At bytes p (encode_number lib [] n ++ rest)
      → skip_tag (skip_value fuel bytes) bytes (get_or bytes p 0) p
        ≡ some (length (encode_number lib [] n))
  unfolding encode_number skip_tag
  skip_number fuel bytes p n rest (inl (i, e, small, back)) h =
      let w = to_bits (2 ^ 63) i in
      let at : At bytes p (tag_integer ∷ (le_bytes 8 w ++ rest)) = rw (e, encode_number) at h in
      rw (At-get at, e, encode_number) (ap some (omega (arith, length-le_bytes 8 w)))
  skip_number fuel bytes p n rest (inr (f, e, e', small, back)) h =
      let at : At bytes p (tag_float ∷ (le_bytes 8 f ++ rest)) = rw (e, e', encode_number) at h in
      rw (At-get at, e, e', encode_number) (ap some (omega (arith, length-le_bytes 8 f)))

  abbrev SkipAt : Json N → Type 0
  SkipAt v =
      (fuel : ℕ) (bytes : List ℕ) (p : ℕ) (rest : List ℕ)
      → length bytes < fuel + p
      → At bytes p (encode_value lib [] v ++ rest)
      → skip_value fuel bytes p ≡ some (length (encode_value lib [] v))

  abbrev SkipItemsAt : Items N → Type 0
  SkipItemsAt vs =
      (fuel : ℕ) (bytes : List ℕ) (q : ℕ) (rest : List ℕ)
      → length bytes < fuel + q
      → At bytes q (encode_items lib [] vs ++ rest)
      → skip_items (skip_value fuel bytes) (length_items vs) q
        ≡ some (q + length (encode_items lib [] vs))

  abbrev SkipFieldsAt : Fields N → Type 0
  SkipFieldsAt fs =
      (fuel : ℕ) (bytes : List ℕ) (q : ℕ) (rest : List ℕ)
      → length bytes < fuel + q
      → At bytes q (encode_fields lib [] fs ++ rest)
      → skip_entries (skip_value fuel bytes) (length_fields fs) q
        ≡ some (q + length (encode_fields lib [] fs))

  skip_string :
      (fuel : ℕ) (bytes : List ℕ) (p : ℕ) (s rest : List ℕ)
      → IsText s
      → length bytes < fuel + p
      → At bytes p (encode_map_key [] s ++ rest)
      → skip_value fuel bytes p ≡ some (length (encode_map_key [] s))
  unfolding skip_value
  skip_string zero bytes p s rest text bound h = absurd (omega (arith, h.size))
  skip_string (suc fuel) bytes p s rest text bound h =
      let inside : leb (length bytes) p ≡ false =
        ground (arith, h.size, length-append (encode_map_key [] s) rest, encode_map_key_pos s) in
      rw inside (skip_text fuel bytes p s rest text h)

  by_tag :
      (v : Json N)
      → ((fuel : ℕ) (bytes : List ℕ) (p : ℕ) (rest : List ℕ)
          → length bytes < suc fuel + p
          → At bytes p (encode_value lib [] v ++ rest)
          → skip_tag (skip_value fuel bytes) bytes (get_or bytes p 0) p
            ≡ some (length (encode_value lib [] v)))
      → SkipAt v
  unfolding skip_value
  by_tag v arm zero bytes p rest bound h = absurd (omega (arith, h.size))
  by_tag v arm (suc fuel) bytes p rest bound h =
      let inside : leb (length bytes) p ≡ false =
        ground
          (arith, h.size, length-append (encode_value lib [] v) rest, encode_value_pos lib v) in
      rw inside (arm fuel bytes p rest bound h)

  null_skip : SkipAt Json.null
  unfolding encode_value
  null_skip = by_tag Json.null λ fuel bytes p rest bound h. unfold skip_tag in rw (At-get h)

  bool_skip : (b : Bool) → SkipAt (Json.bool b)
  unfolding encode_value
  bool_skip b = by_tag (Json.bool b) λ fuel bytes p rest bound h. unfold skip_tag in rw (At-get h)

  array_skip :
      (arr : Items N) → length_items arr < 2 ^ 32 → SkipItemsAt arr → SkipAt (Json.array arr)
  unfolding encode_value skip_tag
  array_skip arr few items = by_tag (Json.array arr) λ fuel bytes p rest bound h.
      let n = length_items arr in
      let body = encode_items lib [] arr in
      let head = push [] tag_list ++ le_bytes 4 (n % 2 ^ 32) in
      let (tag, word, room, at) =
        count-At lib tag_list n body rest few (rw (items_append lib head arr) at h) in
      rw
        (
          tag,
          room,
          word,
          items fuel bytes (p + 1 + 4) rest (omega arith) at,
          items_append lib head arr,
        )
        (ap some (
          omega
            (arith, length-append (le_bytes 4 (n % 2 ^ 32)) body, length-le_bytes 4 (n % 2 ^ 32))))

  object_skip :
      (obj : Fields N) → length_fields obj < 2 ^ 32 → SkipFieldsAt obj → SkipAt (Json.object obj)
  unfolding encode_value skip_tag
  object_skip obj few fields = by_tag (Json.object obj) λ fuel bytes p rest bound h.
      let n = length_fields obj in
      let body = encode_fields lib [] obj in
      let head = push [] tag_map ++ le_bytes 4 (n % 2 ^ 32) in
      let (tag, word, room, at) =
        count-At lib tag_map n body rest few (rw (fields_append lib head obj) at h) in
      rw
        (
          tag,
          room,
          word,
          fields fuel bytes (p + 1 + 4) rest (omega arith) at,
          fields_append lib head obj,
        )
        (ap some (
          omega
            (arith, length-append (le_bytes 4 (n % 2 ^ 32)) body, length-le_bytes 4 (n % 2 ^ 32))))

  cons_skip :
      (v : Json N) (vs : Items N) → SkipAt v → SkipItemsAt vs → SkipItemsAt (Items.cons v vs)
  unfolding skip_items length_items encode_items
  cons_skip v vs value items fuel bytes q rest bound h =
      let bv = encode_value lib [] v in
      let bvs = encode_items lib [] vs in
      let at : At bytes q (bv ++ (bvs ++ rest)) =
        rw (items_append lib bv vs, append_assoc bv bvs rest) at h in
      let pos : (length bv == 0) ≡ false = ground (arith, encode_value_pos lib v) in
      rw
        (
          value fuel bytes q (bvs ++ rest) bound at,
          pos,
          items fuel bytes (q + length bv) rest (omega arith) (At-move bv (q + length bv) at refl),
          items_append lib bv vs,
        )
        (ap some (omega (arith, length-append bv bvs)))

  field_skip :
      (k : List ℕ) (v : Json N) (fs : Fields N)
      → IsText k
      → SkipAt v
      → SkipFieldsAt fs
      → SkipFieldsAt (Fields.field k v fs)
  unfolding skip_entries length_fields encode_fields
  field_skip k v fs text value fields fuel bytes q rest bound h =
      let bk = encode_map_key [] k in
      let bv = encode_value lib [] v in
      let bfs = encode_fields lib [] fs in
      let front = encode_value lib bk v in
      let at : At bytes q (bk ++ (bv ++ (bfs ++ rest))) =
        rw
          (
            fields_append lib front fs,
            value_append lib bk v,
            append_assoc (bk ++ bv) bfs rest,
            append_assoc bk bv (bfs ++ rest),
          )
          at h in
      let at₁ = At-move bk (q + length bk) at refl in
      let at₂ = At-move bv (q + length bk + length bv) at₁ refl in
      let pos_k : (length bk == 0) ≡ false = ground (arith, encode_map_key_pos k) in
      let pos_v : (length bv == 0) ≡ false = ground (arith, encode_value_pos lib v) in
      rw
        (
          skip_string fuel bytes q k _ text bound at,
          value fuel bytes (q + length bk) (bfs ++ rest) (omega arith) at₁,
          pos_k,
          pos_v,
          fields fuel bytes (q + length bk + length bv) rest (omega arith) at₂,
          fields_append lib front fs,
          value_append lib bk v,
        )
        (ap some (omega (arith, length-append (bk ++ bv) bfs, length-append bk bv)))

  mutual
    unfolding IsExact encode_value skip_items skip_entries length_items length_fields

    pub skip_at : (v : Json N) → IsExact lib v → SkipAt v
    skip_at Json.null ex = null_skip
    skip_at (Json.bool b) ex = bool_skip b
    skip_at (Json.number n) ex =
        by_tag (Json.number n) λ fuel bytes p rest bound h. skip_number fuel bytes p n rest ex h
    skip_at (Json.string s) ex =
        λ fuel bytes p rest bound h. skip_string fuel bytes p s rest ex bound h
    skip_at (Json.array arr) (few, ex) = array_skip arr few (skip_items_at arr ex)
    skip_at (Json.object obj) (few, whole, ex) = object_skip obj few (skip_fields_at obj ex)

    skip_items_at : (vs : Items N) → AreExact lib vs → SkipItemsAt vs
    skip_items_at Items.nil ex = λ fuel bytes q rest bound h. ap some (omega arith)
    skip_items_at (Items.cons v vs) (e, ex) = cons_skip v vs (skip_at v e) (skip_items_at vs ex)

    skip_fields_at : (fs : Fields N) → HasExact lib fs → SkipFieldsAt fs
    skip_fields_at Fields.end ex = λ fuel bytes q rest bound h. ap some (omega arith)
    skip_fields_at (Fields.field k v fs) (text, e, ex) =
        field_skip k v fs text (skip_at v e) (skip_fields_at fs ex)

  -- A value that the encoding keeps is stepped over by exactly the number of bytes that
  -- `encode_value` writes for it, wherever these lie in a slice and whatever follows them, with fuel
  -- for the bytes from there on.
  pub skip_value-encode_value :
      (v : Json N) (fuel : ℕ) (front rest : List ℕ)
      → IsExact lib v
      → length (encode_value lib [] v ++ rest) < fuel
      → skip_value fuel (front ++ (encode_value lib [] v ++ rest)) (length front)
        ≡ some (length (encode_value lib [] v))
  skip_value-encode_value v fuel front rest ex bound =
      let back = encode_value lib [] v ++ rest in
      skip_at v ex fuel (front ++ back) (length front) rest
        (omega (arith, length-append front back))
        (At-move front (length front) (At-start (front ++ back)) (omega arith))
