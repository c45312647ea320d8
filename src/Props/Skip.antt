-- ===== src/Props/Skip.antt =====
-- storage/prop_store.rs: `skip_value` and `decode_selected` on arbitrary bytes.
use pg_eddy.Common.{
  ℕ, zero, suc, ◌+◌, ◌-◌, ◌≤◌, ◌<◌, ◌≡◌, refl, inl, inr, Bool, true, false, Option, some, List,
  arith, leb, ltb, leb→le, Bool-cases, length, get_or, if◌then◌else◌, ◌==◌, ◌||◌, ◌&&◌, option_then,
}
use pg_eddy.Common.Int.{ℤ}
use pg_eddy.Json.{Fields, JsonLib}
use pg_eddy.Props.{
  tag_integer, tag_float, tag_bool, tag_str_short, tag_str_long, tag_date, tag_localdatetime,
  tag_duration, tag_list, tag_map, tag_null,
}
use pg_eddy.Props.Decode.{u32_at, i32_at}
use pg_eddy.Props.Scan.{
  enough, skip_items, skip_entries, skip_tag, skip_value, decode_selected_loop, decode_selected,
}
use pg_eddy.Props.Total.{Grants, decode_value_returns}

abbrev Some : Option ℕ → Type 0
Some m = (n : ℕ) × (m ≡ some n)

Some-if : (b : Bool) (m n : Option ℕ) → Some m → Some n → Some (if b then m else n)
Some-if true m n h k = h
Some-if false m n h k = k

-- A branch that is only taken where its guard holds.
Some-guard :
    (b guard : Bool) (m n : Option ℕ)
    → (guard ≡ true → Some m)
    → Some n
    → Some (if b && guard then m else n)
Some-guard true true m n h k = h refl
Some-guard true false m n h k = k
Some-guard false guard m n h k = k

abbrev Skips : (ℕ → Option ℕ) → (low : ℕ) → Type 0
Skips skip low = (q : ℕ) → low ≤ q → Some (skip q)

module _ (skip : ℕ → Option ℕ) (low : ℕ) (total : Skips skip low) where
  items_skip : (count q : ℕ) → low ≤ q → Some (skip_items skip count q)
  unfolding skip_items
  items_skip zero q h = (q, refl)
  items_skip (suc count) q h =
      let (s, e) = total q h in
      let (last, e') = items_skip count (q + s) (omega arith) in
      rw (e, e') (Some-if (s == 0) (some q) (some last) (q, refl) (last, refl))

  entries_skip : (count q : ℕ) → low ≤ q → Some (skip_entries skip count q)
  unfolding skip_entries
  entries_skip zero q h = (q, refl)
  entries_skip (suc count) q h =
      let (ks, e) = total q h in
      let (vs, e') = total (q + ks) (omega arith) in
      let (last, e'') = entries_skip count (q + ks + vs) (omega arith) in
      rw (e, e', e'')
        (Some-if (ks == 0) (some q) (if vs == 0 then some (q + ks) else some last) (q, refl)
          (Some-if (vs == 0) (some (q + ks)) (some last) (q + ks, refl) (last, refl)))

module _ (bytes : List ℕ) where
  skip_tag-Skips :
      (skip : ℕ → Option ℕ) (tag p : ℕ)
      → (leb (p + 1 + 4) (length bytes) ≡ true → Skips skip (p + 5))
      → Some (skip_tag skip bytes tag p)
  unfolding skip_tag
  skip_tag-Skips skip tag p total =
      let four = leb (p + 1 + 4) (length bytes) in
      let count = u32_at bytes (p + 1) in
      let list = option_then (skip_items skip count (p + 1 + 4)) λ inner. some (inner - p) in
      let entries = option_then (skip_entries skip count (p + 1 + 4)) λ inner. some (inner - p) in
      let list_skips : four ≡ true → Some list = λ room.
        let (n, e) = items_skip skip (p + 5) (total room) count (p + 1 + 4) (omega arith) in
        (n - p, rw e) in
      let entries_skips : four ≡ true → Some entries = λ room.
        let (n, e) = entries_skip skip (p + 5) (total room) count (p + 1 + 4) (omega arith) in
        (n - p, rw e) in
      Some-if (tag == tag_null) _ _ (1, refl)
        (Some-if (tag == tag_bool) _ _ (2, refl)
          (Some-if ((tag == tag_integer) || (tag == tag_float) || (tag == tag_localdatetime)) _ _
            (9, refl)
            (Some-if (tag == tag_date) _ _ (5, refl)
              (Some-if (tag == tag_duration) _ _ (17, refl)
                (Some-if ((tag == tag_str_short) && ltb (p + 1) (length bytes)) _ _
                  (2 + get_or bytes (p + 1) 0, refl)
                  (Some-if ((tag == tag_str_long) && four) _ _ (5 + count, refl)
                    (Some-guard (tag == tag_list) four list _ list_skips
                      (Some-guard (tag == tag_map) four entries _ entries_skips (1, refl)))))))))

  -- `skip_value` returns on any bytes, at any position, with fuel for the bytes left.
  skip_value_returns :
      (fuel p : ℕ)
      → 0 < fuel
      → length bytes < fuel + p
      → (n : ℕ) × (skip_value fuel bytes p ≡ some n)
  unfolding skip_value
  skip_value_returns zero p h bound = absurd (omega arith)
  skip_value_returns (suc fuel) p h bound =
      Some-if (leb (length bytes) p) (some 0)
        (skip_tag (skip_value fuel bytes) bytes (get_or bytes p 0) p) (0, refl)
        (skip_tag-Skips (skip_value fuel bytes) (get_or bytes p 0) p (λ room q low.
          let far : p + 5 ≤ length bytes = ground arith in
          skip_value_returns fuel q (omega arith) (omega arith)))

module _ {N : Type 0} (lib : JsonLib N) (key_name_for : ℤ → List ℕ) (wanted : ℤ → Bool)
    (bytes : List ℕ) (grants : Grants lib bytes) where
  decode_selected_loop_returns :
      (fuel p : ℕ) (map : Fields N)
      → 0 < fuel
      → length bytes < fuel + p
      → (props : Fields N) × (decode_selected_loop lib key_name_for wanted fuel bytes p map
          ≡ some props)
  unfolding decode_selected_loop
  decode_selected_loop_returns zero p map h bound = absurd (omega arith)
  decode_selected_loop_returns (suc fuel) p map h bound =
      elim (Bool-cases (leb (p + 5) (length bytes))) [
        | inr done ↦ (map, rw done)
        | inl more ↦
            let room : p + 5 ≤ length bytes = leb→le _ _ more in
            elim (Bool-cases (wanted (i32_at bytes p))) [
              | inl hit ↦
                  let ((v, c), e, fits) =
                    decode_value_returns lib bytes grants (enough bytes) (p + 4) (omega arith)
                      (omega arith) in
                  let grown = lib.insert (key_name_for (i32_at bytes p)) v map in
                  let (props, e') =
                    decode_selected_loop_returns fuel (p + 4 + c) grown (omega arith)
                      (omega arith) in
                  (props, rw (more, hit, e, e'))
              | inr miss ↦
                  let (n, e) =
                    skip_value_returns bytes (enough bytes) (p + 4) (omega arith) (omega arith) in
                  let (props, e') =
                    decode_selected_loop_returns fuel (p + 4 + n) map (omega arith) (omega arith) in
                  (props, rw (more, miss, e, e'))
            ]
      ]

  -- `decode_selected` returns properties for every byte string and every set of wanted keys, with
  -- calls nested no deeper than it has bytes and one more. That the allocator grants the memory for
  -- whatever count stands in the bytes is a hypothesis.
  pub decode_selected_returns :
      (props : Fields N) × (decode_selected lib key_name_for wanted bytes ≡ some props)
  unfolding decode_selected
  decode_selected_returns =
      decode_selected_loop_returns (enough bytes) 0 Fields.end (omega arith) (omega arith)
