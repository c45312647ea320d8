-- ===== src/Props/Scan.antt =====
-- storage/prop_store.rs: `skip_value`, and the loops of `decode` and `decode_selected` over the
-- properties of an entity.
use pg_eddy.Common.{
  ℕ, zero, suc, ◌+◌, ◌-◌, Bool, ◌&&◌, ◌||◌, Option, none, some, List, leb, ltb, ◌==◌, if◌then◌else◌,
  length, get_or, option_then,
}
use pg_eddy.Common.Int.{ℤ}
use pg_eddy.Json.{Fields, JsonLib}
use pg_eddy.Props.{
  tag_integer, tag_float, tag_bool, tag_str_short, tag_str_long, tag_date, tag_localdatetime,
  tag_duration, tag_list, tag_map, tag_null,
}
use pg_eddy.Props.Decode.{◌>>=◌, u32_at, i32_at, decode_value}

-- `for _ in 0..count { let s = skip_value(..); if s == 0 { break; } inner += s; }`
unfoldable pub skip_items : (ℕ → Option ℕ) → (count inner : ℕ) → Option ℕ
skip_items skip zero inner = some inner
skip_items skip (suc count) inner = do
  s ← skip inner
  let more = skip_items skip count (inner + s)
  if s == 0 then some inner else more

unfoldable pub skip_entries : (ℕ → Option ℕ) → (count inner : ℕ) → Option ℕ
skip_entries skip zero inner = some inner
skip_entries skip (suc count) inner = do
  ks ← skip inner
  let value = option_then (skip (inner + ks)) λ vs.
      let more = skip_entries skip count (inner + ks + vs) in
      if vs == 0 then some (inner + ks) else more
  if ks == 0 then some inner else value

-- The `match tag`: an arm whose guard fails falls through to the last one.
unfoldable pub skip_tag : (ℕ → Option ℕ) → List ℕ → (tag p : ℕ) → Option ℕ
unfolding skip_items skip_entries
skip_tag skip bytes tag p =
    let rest = p + 1 in
    let count = u32_at bytes rest in
    let four = leb (rest + 4) (length bytes) in
    let list = option_then (skip_items skip count (rest + 4)) λ inner. some (inner - p) in
    let entries = option_then (skip_entries skip count (rest + 4)) λ inner. some (inner - p) in
    if tag == tag_null
    then some 1
    else if tag == tag_bool
    then some 2
    else if (tag == tag_integer) || (tag == tag_float) || (tag == tag_localdatetime)
    then some 9
    else if tag == tag_date
    then some 5
    else if tag == tag_duration
    then some 17
    else if (tag == tag_str_short) && ltb rest (length bytes)
    then some (2 + get_or bytes rest 0)
    else if (tag == tag_str_long) && four
    then some (5 + u32_at bytes rest)
    else if (tag == tag_list) && four
    then list
    else if (tag == tag_map) && four
    then entries
    else some 1

unfoldable pub skip_value : ℕ → List ℕ → ℕ → Option ℕ
unfolding skip_tag
skip_value zero bytes p = none
skip_value (suc fuel) bytes p =
    if leb (length bytes) p
    then some 0
    else skip_tag (skip_value fuel bytes) bytes (get_or bytes p 0) p

-- The fuel that `decode` gives to each of its loops.
abbrev pub enough : List ℕ → ℕ
enough bytes = suc (length bytes)

module _ {N : Type 0} (lib : JsonLib N) (key_name_for : ℤ → List ℕ) where
  unfoldable pub decode_loop : ℕ → List ℕ → ℕ → Fields N → Option (Fields N)
  decode_loop zero bytes p map = none
  decode_loop (suc fuel) bytes p map =
      let rest = option_then (decode_value lib (enough bytes) bytes (p + 4)) λ (value, consumed).
        decode_loop fuel bytes (p + 4 + consumed)
          (lib.insert (key_name_for (i32_at bytes p)) value map) in
      if leb (p + 5) (length bytes) then rest else some map

  unfoldable pub decode : List ℕ → Option (Fields N)
  unfolding decode_loop
  decode bytes = decode_loop (enough bytes) bytes 0 Fields.end

  -- `wanted` is `wanted_keys.contains`.
  unfoldable pub decode_selected_loop :
      (wanted : ℤ → Bool) → ℕ → List ℕ → ℕ → Fields N → Option (Fields N)
  decode_selected_loop wanted zero bytes p map = none
  decode_selected_loop wanted (suc fuel) bytes p map =
      let kid = i32_at bytes p in
      let read = option_then (decode_value lib (enough bytes) bytes (p + 4)) λ (value, consumed).
        decode_selected_loop wanted fuel bytes (p + 4 + consumed)
          (lib.insert (key_name_for kid) value map) in
      let skip =
        option_then (skip_value (enough bytes) bytes (p + 4))
          λ skipped. decode_selected_loop wanted fuel bytes (p + 4 + skipped) map in
      if leb (p + 5) (length bytes) then (if wanted kid then read else skip) else some map

  unfoldable pub decode_selected : (wanted : ℤ → Bool) → List ℕ → Option (Fields N)
  unfolding decode_selected_loop
  decode_selected wanted bytes = decode_selected_loop wanted (enough bytes) bytes 0 Fields.end
