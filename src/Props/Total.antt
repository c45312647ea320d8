-- ===== src/Props/Total.antt =====
-- storage/prop_store.rs: the decoder on arbitrary bytes.
use pg_eddy.Common.{
  ℕ, zero, suc, ◌+◌, ◌-◌, ◌*◌, ◌≤◌, ◌<◌, ◌≡◌, refl, inl, inr, Bool, true, false, Option, some, List,
  arith, leb, leb→le, Bool-cases, length, get_or, if◌then◌else◌, ◌==◌, ◌||◌,
}
use pg_eddy.Common.Int.{ℤ}
use pg_eddy.Json.{Json, Items, Fields, JsonLib}
use pg_eddy.Props.{
  tag_integer, tag_float, tag_bool, tag_str_short, tag_str_long, tag_date, tag_localdatetime,
  tag_duration, tag_list, tag_map, tag_null,
}
use pg_eddy.Props.Decode.{
  u32_at, i32_at, malformed, key_of, decode_bool, decode_integer, decode_float, decode_str_short,
  decode_str_long, decode_date, decode_localdatetime, decode_duration, decode_items, decode_fields,
  decode_list, decode_map, decode_tag, decode_value,
}
use pg_eddy.Props.Scan.{enough, decode_loop, decode}

-- The decoder gets the memory for as many items as any four bytes of the slice could claim.
abbrev pub Grants : {N : Type 0} → JsonLib N → List ℕ → Type 0
Grants lib bytes = (q : ℕ) → q + 4 ≤ length bytes → lib.can_reserve (u32_at bytes q) ≡ true

module _ {N : Type 0} (lib : JsonLib N) (bytes : List ℕ) (grants : Grants lib bytes) where
  -- A result, with what it consumes from `p` on inside the slice.
  abbrev Inside : (p : ℕ) → Option (Json N × ℕ) → Type 0
  Inside p m = (r : Json N × ℕ) × (m ≡ some r) × (p + r.1 ≤ length bytes)

  Inside-if :
      (p : ℕ) (b : Bool) (m n : Option (Json N × ℕ))
      → Inside p m
      → Inside p n
      → Inside p (if b then m else n)
  Inside-if p true m n h k = h
  Inside-if p false m n h k = k

  Inside-some : (p : ℕ) (r : Json N × ℕ) → p + r.1 ≤ length bytes → Inside p (some r)
  Inside-some p r h = (r, refl, h)

  -- `dec` returns, inside the slice, at every position from `low` on.
  abbrev Returns : (ℕ → Option (Json N × ℕ)) → (low : ℕ) → Type 0
  Returns dec low = (q : ℕ) → low ≤ q → q ≤ length bytes → Inside q (dec q)

  module _ (dec : ℕ → Option (Json N × ℕ)) (low : ℕ) (total : Returns dec low) where
    items_return :
        (count q : ℕ)
        → low ≤ q
        → q ≤ length bytes
        → (r : Items N × ℕ) × (decode_items lib dec count q ≡ some r)
          × (q ≤ r.1)
          × (r.1 ≤ length bytes)
    unfolding decode_items
    items_return zero q h k = ((Items.nil, q), refl, omega arith, k)
    items_return (suc count) q h k =
        let ((v, c), e, fits) = total q h k in
        let ((vs, last), e', above, below) = items_return count (q + c) (omega arith) fits in
        elim (Bool-cases (c == 0)) [
          | inl stop ↦ ((Items.cons v Items.nil, q + c), rw (e, e', stop), omega arith, fits)
          | inr go ↦ ((Items.cons v vs, last), rw (e, e', go), omega arith, below)
        ]

    fields_return :
        (count q : ℕ) (obj : Fields N)
        → low ≤ q
        → q ≤ length bytes
        → (r : Fields N × ℕ) × (decode_fields lib dec count q obj ≡ some r)
          × (q ≤ r.1)
          × (r.1 ≤ length bytes)
    unfolding decode_fields
    fields_return zero q obj h k = ((obj, q), refl, omega arith, k)
    fields_return (suc count) q obj h k =
        let ((key, kc), e, fits) = total q h k in
        let ((v, vc), e', fits') = total (q + kc) (omega arith) fits in
        let grown = lib.insert (key_of lib key) v obj in
        let ((all, last), e'', above, below) =
          fields_return count (q + kc + vc) grown (omega arith) fits' in
        elim (Bool-cases ((kc == 0) || (vc == 0))) [
          | inl stop ↦ ((grown, q + kc + vc), rw (e, e', e'', stop), omega arith, fits')
          | inr go ↦ ((all, last), rw (e, e', e'', go), omega arith, below)
        ]

  decode_list-Returns :
      (dec : ℕ → Option (Json N × ℕ)) (p : ℕ)
      → p < length bytes
      → (p + 5 ≤ length bytes → Returns dec (p + 5))
      → Inside p (decode_list lib dec bytes p)
  unfolding decode_list
  decode_list-Returns dec p h total = elim (Bool-cases (leb (p + 1 + 4) (length bytes))) [
    | inl room ↦
        let far : p + 5 ≤ length bytes = ground arith in
        let ((vs, last), e, above, below) =
          items_return dec (p + 5) (total far) (u32_at bytes (p + 1)) (p + 1 + 4) (omega arith)
            (omega arith) in
        ((Json.array vs, last - p), rw (room, grants (p + 1) (omega arith), e), omega arith)
    | inr short ↦ (malformed lib, rw short, omega arith)
  ]

  decode_map-Returns :
      (dec : ℕ → Option (Json N × ℕ)) (p : ℕ)
      → p < length bytes
      → (p + 5 ≤ length bytes → Returns dec (p + 5))
      → Inside p (decode_map lib dec bytes p)
  unfolding decode_map
  decode_map-Returns dec p h total = elim (Bool-cases (leb (p + 1 + 4) (length bytes))) [
    | inl room ↦
        let far : p + 5 ≤ length bytes = ground arith in
        let ((obj, last), e, above, below) =
          fields_return dec (p + 5) (total far) (u32_at bytes (p + 1)) (p + 1 + 4) Fields.end
            (omega arith) (omega arith) in
        ((Json.object obj, last - p), rw (room, e), omega arith)
    | inr short ↦ (malformed lib, rw short, omega arith)
  ]

  -- The arms without nested values.
  module _ (p : ℕ) (h : p < length bytes) where
    bool_inside : p + (decode_bool lib bytes (p + 1)).1 ≤ length bytes
    unfolding decode_bool
    bool_inside = ground arith

    integer_inside : p + (decode_integer lib bytes (p + 1)).1 ≤ length bytes
    unfolding decode_integer
    integer_inside = ground arith

    float_inside : p + (decode_float lib bytes (p + 1)).1 ≤ length bytes
    unfolding decode_float
    float_inside = ground arith

    str_short_inside : p + (decode_str_short lib bytes (p + 1)).1 ≤ length bytes
    unfolding decode_str_short
    str_short_inside = ground arith

    str_long_inside : p + (decode_str_long lib bytes (p + 1)).1 ≤ length bytes
    unfolding decode_str_long
    str_long_inside = ground arith

    date_inside : p + (decode_date lib bytes (p + 1)).1 ≤ length bytes
    unfolding decode_date
    date_inside = ground arith

    localdatetime_inside : p + (decode_localdatetime lib bytes (p + 1)).1 ≤ length bytes
    unfolding decode_localdatetime
    localdatetime_inside = ground arith

    duration_inside : p + (decode_duration lib bytes (p + 1)).1 ≤ length bytes
    unfolding decode_duration
    duration_inside = ground arith

  decode_tag-Returns :
      (dec : ℕ → Option (Json N × ℕ)) (tag p : ℕ)
      → p < length bytes
      → (p + 5 ≤ length bytes → Returns dec (p + 5))
      → Inside p (decode_tag lib dec bytes tag p)
  unfolding decode_tag
  decode_tag-Returns dec tag p h total =
      let one = Inside-some p (malformed lib) (omega arith) in
      Inside-if p (tag == tag_null) _ _ (Inside-some p (Json.null, 1) (omega arith)) (
        Inside-if p (tag == tag_bool) _ _ (Inside-some p _ (bool_inside p h)) (
          Inside-if p (tag == tag_integer) _ _ (Inside-some p _ (integer_inside p h)) (
            Inside-if p (tag == tag_float) _ _ (Inside-some p _ (float_inside p h)) (
              Inside-if p (tag == tag_str_short) _ _ (Inside-some p _ (str_short_inside p h)) (
                Inside-if p (tag == tag_str_long) _ _ (Inside-some p _ (str_long_inside p h)) (
                  Inside-if p (tag == tag_list) _ _ (decode_list-Returns dec p h total) (
                    Inside-if p (tag == tag_map) _ _ (decode_map-Returns dec p h total) (
                      Inside-if p (tag == tag_date) _ _ (Inside-some p _ (date_inside p h)) (
                        Inside-if p (tag == tag_localdatetime) _ _
                          (Inside-some p _ (localdatetime_inside p h))
                          (Inside-if p (tag == tag_duration) _ _
                            (Inside-some p _ (duration_inside p h)) one))))))))))

  -- On any bytes, from any position in them, `decode_value` returns a value and does not read past
  -- the end of the slice: what it consumes lies inside it. It needs calls nested no deeper than one
  -- for each five bytes that are left, and one more; and memory for as many items as a list claims to
  -- have: that the allocator grants it for whatever count stands in the bytes is a hypothesis.
  pub decode_value_returns :
      (fuel p : ℕ)
      → p ≤ length bytes
      → length bytes < 5 * fuel + p
      → (r : Json N × ℕ) × (decode_value lib fuel bytes p ≡ some r) × (p + r.1 ≤ length bytes)
  unfolding decode_value
  decode_value_returns zero p h bound = absurd (omega arith)
  decode_value_returns (suc fuel) p h bound = elim (Bool-cases (leb (length bytes) p)) [
    | inl done ↦ rw done (Inside-some p (Json.null, 0) (omega arith))
    | inr more ↦ rw more (
        decode_tag-Returns (decode_value lib fuel bytes) (get_or bytes p 0) p (ground arith)
          (λ far q low k. decode_value_returns fuel q k (omega arith)))
  ]

module _ {N : Type 0} (lib : JsonLib N) (key_name_for : ℤ → List ℕ) (bytes : List ℕ)
    (grants : Grants lib bytes) where
  decode_loop_returns :
      (fuel p : ℕ) (map : Fields N)
      → 0 < fuel
      → length bytes < fuel + p
      → (props : Fields N) × (decode_loop lib key_name_for fuel bytes p map ≡ some props)
  unfolding decode_loop
  decode_loop_returns zero p map h bound = absurd (omega arith)
  decode_loop_returns (suc fuel) p map h bound = elim (Bool-cases (leb (p + 5) (length bytes))) [
    | inr done ↦ (map, rw done)
    | inl more ↦
        let room : p + 5 ≤ length bytes = leb→le _ _ more in
        let ((v, c), e, fits) =
          decode_value_returns lib bytes grants (enough bytes) (p + 4) (omega arith)
            (omega arith) in
        let grown = lib.insert (key_name_for (i32_at bytes p)) v map in
        let (props, e') = decode_loop_returns fuel (p + 4 + c) grown (omega arith) (omega arith) in
        (props, rw (more, e, e'))
  ]

  -- `decode` returns properties for every byte string, whatever it holds, with calls nested no deeper
  -- than it has bytes and one more. That the allocator grants the memory for whatever count stands in
  -- the bytes is a hypothesis.
  pub decode_returns : (props : Fields N) × (decode lib key_name_for bytes ≡ some props)
  unfolding decode
  decode_returns = decode_loop_returns (enough bytes) 0 Fields.end (omega arith) (omega arith)
