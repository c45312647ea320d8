-- ===== src/Props/Decode.antt =====
-- storage/prop_store.rs: `decode`, `decode_selected`, `decode_value` and `skip_value`. Positions are
-- indices into the whole byte slice. A loop or a nested value takes fuel, which for a value is how
-- deep the calls may be nested; `none` means that no value comes back: the fuel ran out, or the program
-- aborted since `Vec::with_capacity` got no memory. `lib.can_reserve` tells for which counts it gets it.
use pg_eddy.Common.{
  ℕ, zero, suc, ◌+◌, ◌-◌, ◌^◌, not, ◌||◌, Option, none, some, List, [], ◌∷◌, leb, ltb, ◌==◌,
  if◌then◌else◌, length, get_or, take, drop, option_then,
}
use pg_eddy.Common.Bytes.{from_le}
use pg_eddy.Common.Int.{ℤ, pos, from_bits}
use pg_eddy.Common.Utf8.{from_utf8_lossy}
use pg_eddy.Json.{Json, Items, Fields, JsonLib}
use pg_eddy.Props.{
  tag_integer, tag_float, tag_bool, tag_str_short, tag_str_long, tag_date, tag_localdatetime,
  tag_duration, tag_list, tag_map, tag_null,
}

infixl 5 ◌>>=◌
abbrev pub ◌>>=◌ {ℓ κ} : {A : Type ℓ} {B : Type κ} → Option A → (A → Option B) → Option B
m >>= f = option_then m f

-- `data[a..a + n]`, behind a test that it lies inside.
abbrev pub slice : List ℕ → (a n : ℕ) → List ℕ
slice bytes a n = take n (drop a bytes)

-- `u32::from_le_bytes(data[a..a + 4])`, and the signed readings.
abbrev pub u32_at : List ℕ → ℕ → ℕ
u32_at bytes a = from_le (slice bytes a 4)

abbrev pub i32_at : List ℕ → ℕ → ℤ
i32_at bytes a = from_bits (2 ^ 31) (u32_at bytes a)

abbrev pub i64_at : List ℕ → ℕ → ℤ
i64_at bytes a = from_bits (2 ^ 63) (from_le (slice bytes a 8))

abbrev months_key : List ℕ
months_key = b'm' ∷ b'o' ∷ b'n' ∷ b't' ∷ b'h' ∷ b's' ∷ []

abbrev days_key : List ℕ
days_key = b'd' ∷ b'a' ∷ b'y' ∷ b's' ∷ []

abbrev nanoseconds_key : List ℕ
nanoseconds_key = b'n' ∷ b'a' ∷ b'n' ∷ b'o' ∷ b's' ∷ b'e' ∷ b'c' ∷ b'o' ∷ b'n' ∷ b'd' ∷ b's' ∷ []

abbrev question_mark : List ℕ
question_mark = b'?' ∷ []

module _ {N : Type 0} (lib : JsonLib N) where
  abbrev pub malformed : Json N × ℕ
  malformed = (Json.null, 1)

  unfoldable pub decode_bool : List ℕ → ℕ → Json N × ℕ
  decode_bool bytes rest =
      if ltb rest (length bytes) then (Json.bool (not (get_or bytes rest 0 == 0)), 2) else malformed

  unfoldable pub decode_integer : List ℕ → ℕ → Json N × ℕ
  decode_integer bytes rest =
      if leb (rest + 8) (length bytes)
      then (Json.number (lib.from_i64 (i64_at bytes rest)), 9)
      else malformed

  unfoldable pub decode_float : List ℕ → ℕ → Json N × ℕ
  decode_float bytes rest =
      if leb (rest + 8) (length bytes)
      then (
        Json.number (elim (lib.from_f64 (from_le (slice bytes rest 8))) [
          | some n ↦ n
          | none ↦ lib.from_i64 (pos 0)
        ]),
        9,
      )
      else malformed

  unfoldable pub decode_str_short : List ℕ → ℕ → Json N × ℕ
  decode_str_short bytes rest =
      let len = get_or bytes rest 0 in
      let start = rest + 1 in
      if ltb rest (length bytes)
      then (if leb (start + len) (length bytes)
          then (Json.string (from_utf8_lossy (slice bytes start len)), 2 + len)
          else malformed)
      else malformed

  unfoldable pub decode_str_long : List ℕ → ℕ → Json N × ℕ
  decode_str_long bytes rest =
      let len = u32_at bytes rest in
      let start = rest + 4 in
      if leb (rest + 4) (length bytes)
      then (if leb (start + len) (length bytes)
          then (Json.string (from_utf8_lossy (slice bytes start len)), 5 + len)
          else malformed)
      else malformed

  unfoldable pub decode_date : List ℕ → ℕ → Json N × ℕ
  decode_date bytes rest =
      if leb (rest + 4) (length bytes)
      then (Json.number (lib.from_i64 (i32_at bytes rest)), 5)
      else malformed

  unfoldable pub decode_localdatetime : List ℕ → ℕ → Json N × ℕ
  decode_localdatetime bytes rest =
      if leb (rest + 8) (length bytes)
      then (Json.number (lib.from_i64 (i64_at bytes rest)), 9)
      else malformed

  abbrev duration_fields : (months days nanos : ℤ) → Fields N
  duration_fields months days nanos =
      let number = λ (v : ℤ). Json.number (lib.from_i64 v) in
      lib.insert nanoseconds_key (number nanos)
        (lib.insert days_key (number days) (lib.insert months_key (number months) Fields.end))

  unfoldable pub decode_duration : List ℕ → ℕ → Json N × ℕ
  decode_duration bytes rest =
      if leb (rest + 16) (length bytes)
      then (
        Json.object (
            duration_fields (i32_at bytes rest) (i32_at bytes (rest + 4))
              (i64_at bytes (rest + 8))),
        17,
      )
      else malformed

  -- `for _ in 0..count { ...; if c == 0 { break } }`: the items read and the position behind them.
  unfoldable pub decode_items :
      (ℕ → Option (Json N × ℕ)) → (count inner_pos : ℕ) → Option (Items N × ℕ)
  decode_items dec zero inner_pos = some (Items.nil, inner_pos)
  decode_items dec (suc count) inner_pos = do
    (v, c) ← dec inner_pos
    let more =
        option_then (decode_items dec count (inner_pos + c))
          λ (vs, end_pos). some (Items.cons v vs, end_pos)
    if c == 0 then some (Items.cons v Items.nil, inner_pos + c) else more

  abbrev pub key_of : Json N → List ℕ
  key_of (Json.string s) = s
  key_of _ = question_mark

  -- The loop over the entries of a nested map, with the map built so far.
  unfoldable pub decode_fields :
      (ℕ → Option (Json N × ℕ)) → (count inner_pos : ℕ) → Fields N → Option (Fields N × ℕ)
  decode_fields dec zero inner_pos obj = some (obj, inner_pos)
  decode_fields dec (suc count) inner_pos obj = do
    (key_val, kc) ← dec inner_pos
    (v, vc) ← dec (inner_pos + kc)
    let obj = lib.insert (key_of key_val) v obj
    let more = decode_fields dec count (inner_pos + kc + vc) obj
    if (kc == 0) || (vc == 0) then some (obj, inner_pos + kc + vc) else more

  unfoldable pub decode_list : (ℕ → Option (Json N × ℕ)) → List ℕ → ℕ → Option (Json N × ℕ)
  unfolding decode_items
  decode_list dec bytes p =
      let rest = p + 1 in
      let count = u32_at bytes rest in
      let filled =
        option_then (decode_items dec count (rest + 4))
          λ (arr, inner_pos). some (Json.array arr, inner_pos - p) in
      let whole : Option (Json N × ℕ) = if lib.can_reserve count then filled else none in
      if leb (rest + 4) (length bytes) then whole else some malformed

  unfoldable pub decode_map : (ℕ → Option (Json N × ℕ)) → List ℕ → ℕ → Option (Json N × ℕ)
  unfolding decode_fields
  decode_map dec bytes p =
      let rest = p + 1 in
      let whole =
        option_then (decode_fields dec (u32_at bytes rest) (rest + 4) Fields.end)
          λ (obj, inner_pos). some (Json.object obj, inner_pos - p) in
      if leb (rest + 4) (length bytes) then whole else some malformed

  -- The `match tag`; `dec` is the call of `decode_value` on nested values.
  unfoldable pub decode_tag : (ℕ → Option (Json N × ℕ)) → List ℕ → (tag p : ℕ) → Option (Json N × ℕ)
  unfolding decode_bool decode_integer decode_float decode_str_short decode_str_long decode_date
      decode_localdatetime decode_duration decode_list decode_map
  decode_tag dec bytes tag p =
      let rest = p + 1 in
      if tag == tag_null
      then some (Json.null, 1)
      else if tag == tag_bool
      then some (decode_bool bytes rest)
      else if tag == tag_integer
      then some (decode_integer bytes rest)
      else if tag == tag_float
      then some (decode_float bytes rest)
      else if tag == tag_str_short
      then some (decode_str_short bytes rest)
      else if tag == tag_str_long
      then some (decode_str_long bytes rest)
      else if tag == tag_list
      then decode_list dec bytes p
      else if tag == tag_map
      then decode_map dec bytes p
      else if tag == tag_date
      then some (decode_date bytes rest)
      else if tag == tag_localdatetime
      then some (decode_localdatetime bytes rest)
      else if tag == tag_duration
      then some (decode_duration bytes rest)
      else some malformed

  unfoldable pub decode_value : ℕ → List ℕ → ℕ → Option (Json N × ℕ)
  unfolding decode_tag
  decode_value zero bytes p = none
  decode_value (suc fuel) bytes p =
      if leb (length bytes) p
      then some (Json.null, 0)
      else decode_tag (decode_value fuel bytes) bytes (get_or bytes p 0) p
