-- ===== src/Lexer/Strings.antt =====
-- cypher/lexer.rs: string literals and identifiers in backticks. A loop is given the bytes from its
-- position on, the text so far and the number of bytes behind the opening quote, and gives the text
-- and the number of bytes with the closing quote.
use pg_eddy.Common.{
  ℕ, zero, suc, ◌+◌, ◌^◌, Bool, true, false, not, ◌&&◌, Option, none, some, List, [], ◌∷◌, ◌++◌,
  ltb, ◌==◌, if◌then◌else◌, length, take, drop, Result, ok, err, ◌>>=◌,
}
use pg_eddy.Lexer.{
  Failure, message, panic, out_of_fuel, unicode_short, unicode_not_hex, unicode_codepoint,
}
use pg_eddy.Lexer.Chars.{from_str_radix, bytes_to, is_char, encode_utf8, is_boundary, len_utf8}

-- The escapes of one character; a single quote is escaped only in a single-quoted literal.
abbrev pub simple_escape : (single : Bool) → ℕ → Option ℕ
simple_escape single c =
    if c == 110
    then some 10
    else if c == 116
    then some 9
    else if c == 114
    then some 13
    else if c == 92
    then some 92
    else if single && (c == 39)
    then some 39
    else if c == 34
    then some 34
    else if c == 47
    then some 47
    else if c == 98
    then some 8
    else if c == 102
    then some 12
    else none

-- What `\\u` stands for, given the bytes behind it.
unfoldable pub unicode_escape : List ℕ → Result Failure (List ℕ)
unfolding from_str_radix encode_utf8 bytes_to
unicode_escape rest =
    if ltb (length rest) 4
    then err (message unicode_short)
    else bytes_to 4 rest >>= λ hex. elim (from_str_radix 16 (2 ^ 32) hex) [
      | none ↦ err (message unicode_not_hex)
      | some cp ↦ if is_char cp then ok (encode_utf8 cp) else err (message unicode_codepoint)
    ]

-- What an escape stands for and its length, given the byte behind the backslash and those behind it.
unfoldable pub escape : (single : Bool) → ℕ → List ℕ → Result Failure (List ℕ × ℕ)
unfolding unicode_escape encode_utf8
escape single c rest = elim (simple_escape single c) [
  | some e ↦ ok (e ∷ [], 2)
  | none ↦ if c == 117 then (unicode_escape rest >>= λ s. ok (s, 6)) else ok (92 ∷ encode_utf8 c, 2)
]

-- One round of the loops that is neither a quote nor the end: an escape, or a whole character. A
-- backslash at the end of the input stands for itself.
unfoldable pub piece : (single : Bool) → ℕ → List ℕ → Result Failure (List ℕ × ℕ)
unfolding escape
piece single b rest =
    let plain : Result Failure (List ℕ × ℕ) =
      if is_boundary b then ok (take (len_utf8 b) (b ∷ rest), len_utf8 b) else err panic in
    elim rest [ [] ↦ plain | c ∷ cs ↦ if b == 92 then escape single c cs else plain ]

-- The loop of a single-quoted literal. The end of the input ends the literal too.
unfoldable pub single_quoted : (fuel : ℕ) → List ℕ → List ℕ → ℕ → Result Failure (List ℕ × ℕ)
unfolding piece
single_quoted fuel [] s n = ok (s, n)
single_quoted zero (b ∷ rest) s n = err out_of_fuel
single_quoted (suc fuel) (b ∷ rest) s n =
    let doubled = single_quoted fuel (drop 1 rest) (s ++ (39 ∷ [])) (n + 2) in
    let further = piece true b rest >>= λ got.
    single_quoted fuel (drop got.1 (b ∷ rest)) (s ++ got.0) (n + got.1) in
    if not (b == 39)
    then further
    else elim rest [ [] ↦ ok (s, n + 1) | c ∷ cs ↦ if c == 39 then doubled else ok (s, n + 1) ]

-- The loop of a double-quoted literal.
unfoldable pub double_quoted : (fuel : ℕ) → List ℕ → List ℕ → ℕ → Result Failure (List ℕ × ℕ)
unfolding piece
double_quoted fuel [] s n = ok (s, n)
double_quoted zero (b ∷ rest) s n = err out_of_fuel
double_quoted (suc fuel) (b ∷ rest) s n =
    let further = piece false b rest >>= λ got.
    double_quoted fuel (drop got.1 (b ∷ rest)) (s ++ got.0) (n + got.1) in
    if b == 34 then ok (s, n + 1) else further

-- The loop of an identifier in backticks.
unfoldable pub backticked : (fuel : ℕ) → List ℕ → List ℕ → ℕ → Result Failure (List ℕ × ℕ)
backticked fuel [] s n = ok (s, n)
backticked zero (b ∷ rest) s n = err out_of_fuel
backticked (suc fuel) (b ∷ rest) s n =
    let k = len_utf8 b in
    let further = backticked fuel (drop k (b ∷ rest)) (s ++ take k (b ∷ rest)) (n + k) in
    if b == 96 then ok (s, n + 1) else if is_boundary b then further else err panic
