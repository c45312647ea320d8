-- ===== src/Props/Arms.antt =====
-- storage/prop_store.rs: the arms of `decode_value` on the cells that `encode_value` writes.
use pg_eddy.Common.{
  ℕ, suc, ◌+◌, ◌%◌, ◌^◌, ◌<◌, ◌≡◌, refl, sym, ap, inl, inr, Bool, true, false, some, Option, List,
  [], ◌∷◌, ◌++◌, append_assoc, arith, leb, leb→le, Bool-cases, length, length-append, get_or,
}
use pg_eddy.Common.Bytes.{le_bytes, length-le_bytes, from_le-le_bytes}
use pg_eddy.Common.Int.{to_bits, to_bits-lt, from_bits-to_bits}
use pg_eddy.Common.Utf8.{from_utf8_lossy_self}
use pg_eddy.Common.Position.{At, At-move, At-get, At-slice, At-fits, At-inside}
use pg_eddy.Json.{Json, JsonLib}
use pg_eddy.Props.{
  encode_map_key, encode_bool, encode_number, tag_integer, tag_float, tag_bool, tag_str_short,
  tag_str_long,
}
use pg_eddy.Props.Decode.{u32_at, decode_tag, decode_value}
use pg_eddy.Props.Exact.{IsText, IsNumber}

module _ {N : Type 0} (lib : JsonLib N) {bytes : List ℕ} {p : ℕ} where
  -- A nonempty value: `decode_value` goes to the arm of its tag.
  pub At-tag :
      (fuel tag : ℕ) {rest : List ℕ}
      → At bytes p (tag ∷ rest)
      → decode_value lib (suc fuel) bytes p
        ≡ decode_tag lib (decode_value lib fuel bytes) bytes tag p
  unfolding decode_value
  At-tag fuel tag h = rw ((At-inside h).1, At-get h)

  pub rest-At : {tag : ℕ} {rest : List ℕ} → At bytes p (tag ∷ rest) → At bytes (p + 1) rest
  rest-At {tag} h = At-move (tag ∷ []) (p + 1) h (omega arith)

-- A four byte number at a position.
pub u32_at-le_bytes :
    {bytes : List ℕ} {p : ℕ} (v : ℕ) (rest : List ℕ)
    → v < 2 ^ 32
    → At bytes p (le_bytes 4 v ++ rest)
    → (u32_at bytes p ≡ v) × (leb (p + 4) (length bytes) ≡ true)
u32_at-le_bytes {bytes} {p} v rest h a = (
  rw (At-slice (le_bytes 4 v) rest 4 a (sym (length-le_bytes 4 v)))
      (from_le-le_bytes 4 v (omega arith)),
  At-fits (le_bytes 4 v) rest (p + 4) a (omega (arith, length-le_bytes 4 v)),
)

module _ {N : Type 0} (lib : JsonLib N) {bytes : List ℕ} {p : ℕ} where
  pub decode_text :
      (dec : ℕ → Option (Json N × ℕ)) (s rest : List ℕ)
      → IsText s
      → At bytes p (encode_map_key [] s ++ rest)
      → decode_tag lib dec bytes (get_or bytes p 0) p
        ≡ some (Json.string s, length (encode_map_key [] s))
  unfolding encode_map_key decode_tag
  decode_text dec s rest (valid, fits) h = elim (Bool-cases (leb (length s) 255)) [
    | inl short ↦
        let at : At bytes p (tag_str_short ∷ length s % 256 ∷ (s ++ rest)) = rw short at h in
        let len : length s % 256 ≡ length s = omega (arith, leb→le _ _ short) in
        let at₁ = rest-At lib at in
        let at₂ : At bytes (p + 1 + 1) (s ++ rest) = rest-At lib at₁ in
        let room = At-fits s rest (p + 1 + 1 + length s) at₂ refl in
        rw
          (
            short,
            At-get at,
            (At-inside at₁).0,
            At-get at₁,
            len,
            room,
            At-slice s rest (length s) at₂ refl,
            from_utf8_lossy_self s valid,
          )
          (ap (λ n. some (Json.string s, n)) (omega arith))
    | inr long ↦
        let le = le_bytes 4 (length s) in
        let len : length s % 2 ^ 32 ≡ length s = omega arith in
        let at : At bytes p (tag_str_long ∷ (le ++ (s ++ rest))) =
          rw (long, len, append_assoc le s rest) at h in
        let at₁ = rest-At lib at in
        let (word, room₁) = u32_at-le_bytes (length s) (s ++ rest) fits at₁ in
        let at₂ : At bytes (p + 1 + 4) (s ++ rest) =
          At-move le (p + 1 + 4) at₁ (omega (arith, length-le_bytes 4 (length s))) in
        let room₂ = At-fits s rest (p + 1 + 4 + length s) at₂ refl in
        rw
          (
            long,
            At-get at,
            room₁,
            word,
            room₂,
            At-slice s rest (length s) at₂ refl,
            from_utf8_lossy_self s valid,
            len,
          )
          (ap (λ n. some (Json.string s, n))
            (omega (arith, length-append le s, length-le_bytes 4 (length s))))
  ]

  pub decode_number :
      (dec : ℕ → Option (Json N × ℕ)) (n : N) (rest : List ℕ)
      → IsNumber lib n
      → At bytes p (encode_number lib [] n ++ rest)
      → decode_tag lib dec bytes (get_or bytes p 0) p
        ≡ some (Json.number n, length (encode_number lib [] n))
  unfolding encode_number decode_tag
  decode_number dec n rest (inl (i, e, small, back)) h =
      let w = to_bits (2 ^ 63) i in
      let le = le_bytes 8 w in
      let at : At bytes p (tag_integer ∷ (le ++ rest)) = rw (e, encode_number) at h in
      let at₁ = rest-At lib at in
      let room = At-fits le rest (p + 1 + 8) at₁ (omega (arith, length-le_bytes 8 w)) in
      rw
        (
          At-get at,
          room,
          At-slice le rest 8 at₁ (sym (length-le_bytes 8 w)),
          from_le-le_bytes 8 w (to_bits-lt (2 ^ 63) i small),
          from_bits-to_bits (2 ^ 63) i small,
          back,
          e,
          encode_number,
        )
        (ap (λ k. some (Json.number n, k)) (omega (arith, length-le_bytes 8 w)))
  decode_number dec n rest (inr (f, e, e', small, back)) h =
      let le = le_bytes 8 f in
      let at : At bytes p (tag_float ∷ (le ++ rest)) = rw (e, e', encode_number) at h in
      let at₁ = rest-At lib at in
      let room = At-fits le rest (p + 1 + 8) at₁ (omega (arith, length-le_bytes 8 f)) in
      rw
        (
          At-get at,
          room,
          At-slice le rest 8 at₁ (sym (length-le_bytes 8 f)),
          from_le-le_bytes 8 f small,
          back,
          e,
          e',
          encode_number,
        )
        (ap (λ k. some (Json.number n, k)) (omega (arith, length-le_bytes 8 f)))

  pub decode_boolean :
      (dec : ℕ → Option (Json N × ℕ)) (b : Bool) (rest : List ℕ)
      → At bytes p (tag_bool ∷ encode_bool b ∷ rest)
      → decode_tag lib dec bytes tag_bool p ≡ some (Json.bool b, 2)
  unfolding encode_bool decode_tag
  decode_boolean dec true rest h = rw ((At-inside (rest-At lib h)).0, At-get (rest-At lib h))
  decode_boolean dec false rest h = rw ((At-inside (rest-At lib h)).0, At-get (rest-At lib h))
