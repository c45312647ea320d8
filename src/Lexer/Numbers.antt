-- ===== src/Lexer/Numbers.antt =====
-- cypher/lexer.rs: numbers.
use pg_eddy.Common.{
  ℕ, zero, suc, ◌+◌, ◌^◌, Bool, true, false, not, ◌&&◌, ◌||◌, Option, none, some, List, [], ◌∷◌,
  ◌++◌, ltb, ◌==◌, if◌then◌else◌, length, take, drop, Result, ok, err, ◌>>=◌,
}
use pg_eddy.Common.Bytes.{eq_bytes}
use pg_eddy.Lexer.{
  Token, int_lit, int_lit_big, float_lit, Failure, message, out_of_fuel, Message, hex_incomplete,
  octal_incomplete, integer_overflow, float_invalid, float_overflow, Floats,
}
use pg_eddy.Lexer.Chars.{
  codes, and_also, next_is, is_digit, is_octal, is_hexdigit, count_while, from_str_radix,
}

-- The value of hexadecimal or octal digits as a token: 2 ^ 63 is for `i64::MIN`.
unfoldable pub radix_token : Option ℕ → Result Failure Token
radix_token none = err (message integer_overflow)
radix_token (some v) =
    if ltb (2 ^ 63) v
    then err (message integer_overflow)
    else if v == 2 ^ 63
    then ok int_lit_big
    else ok (int_lit v)

-- A literal with a prefix of two bytes: the token, and its length.
unfoldable pub prefixed :
    (is_one : ℕ → Bool) (radix : ℕ) → Message → List ℕ → Result Failure (Token × ℕ)
unfolding radix_token from_str_radix count_while
prefixed is_one radix incomplete bytes =
    let behind = drop 2 bytes in
    let size = count_while is_one behind in
    if size == 0
    then err (message incomplete)
    else radix_token (from_str_radix radix (2 ^ 64) (take size behind)) >>= λ t. ok (t, 2 + size)

-- The loop over a decimal number: its text, whether it is a float, and its length.
pub record Decimal : Type 0 where
  pub num_str : List ℕ
  pub has_dot : Bool
  pub has_e : Bool
  pub size : ℕ

-- The sign behind an exponent's letter.
abbrev pub sign : List ℕ → List ℕ
sign [] = []
sign (c ∷ cs) = if (c == 43) || (c == 45) then c ∷ [] else []

-- One round: how the number goes on, if it does.
unfoldable pub digit_step : List ℕ → Decimal → Result Failure (Option Decimal)
unfolding next_is
digit_step [] d = ok none
digit_step (b ∷ rest) d =
    let plus = sign rest in
    if is_digit b
    then ok (some (record d { num_str = d.num_str ++ (b ∷ []); size = d.size + 1 }))
    else if (b == 46) && (not d.has_dot && not d.has_e)
    then (next_is (λ c. c == 46) rest >>= λ range. ok (
        if range
        then none
        else some
            (record d { num_str = d.num_str ++ (46 ∷ []); has_dot = true; size = d.size + 1 })))
    else if ((b == 101) || (b == 69)) && not d.has_e
    then ok (
        some (record {
          num_str = d.num_str ++ (101 ∷ plus);
          has_dot = true;
          has_e = true;
          size = d.size + 1 + length plus;
        }))
    else ok none

unfoldable pub decimal_loop : (fuel : ℕ) → List ℕ → Decimal → Result Failure Decimal
unfolding digit_step
decimal_loop zero bytes d = err out_of_fuel
decimal_loop (suc fuel) bytes d = digit_step (drop d.size bytes) d >>= λ more. elim more [
  | none ↦ ok d
  | some d' ↦ decimal_loop fuel bytes d'
]

module _ (floats : Floats) where
  -- The token of a decimal number.
  unfoldable pub decimal_token : Decimal → Result Failure Token
  unfolding from_str_radix
  decimal_token d =
      if d.has_dot
      then elim (floats.parse_f64 d.num_str) [
        | none ↦ err (message float_invalid)
        | some v ↦ if floats.is_infinite v then err (message float_overflow) else ok (float_lit v)
      ]
      else elim (from_str_radix 10 (2 ^ 63) d.num_str) [
        | some v ↦ ok (int_lit v)
        | none ↦
            if eq_bytes d.num_str (codes "9223372036854775808")
            then ok int_lit_big
            else err (message integer_overflow)
      ]

  -- The hexadecimal, octal or decimal number at the front of the bytes.
  unfoldable pub number_of : (hex octal : Bool) → List ℕ → Result Failure (Token × ℕ)
  unfolding prefixed decimal_loop decimal_token
  number_of hex octal bytes =
      let start : Decimal = record { num_str = []; has_dot = false; has_e = false; size = 0 } in
      if hex
      then prefixed is_hexdigit 16 hex_incomplete bytes
      else if octal
      then prefixed is_octal 8 octal_incomplete bytes
      else decimal_loop (suc (length bytes)) bytes start >>= λ d.
          decimal_token d >>= λ t. ok (t, d.size)

  unfoldable pub number_token : ℕ → List ℕ → Result Failure (Token × ℕ)
  unfolding number_of next_is
  number_token b rest = do
    hex ← and_also (b == 48) (next_is (λ c. (c == 120) || (c == 88)) rest)
    octal ← and_also (b == 48) (next_is (λ c. (c == 111) || (c == 79)) rest)
    number_of hex octal (b ∷ rest)
