-- ===== src/Lexer/Panics.antt =====
-- cypher/lexer.rs: an escape of a character that is not ASCII.
use pg_eddy.Common.{ℕ, ◌≤◌, ◌≡◌, refl, true, false, none, List, [], ◌∷◌, ◌==◌, arith, ok, err}
use pg_eddy.Lexer.{panic, Floats}
use pg_eddy.Lexer.Chars.{encode_utf8, is_boundary}
use pg_eddy.Lexer.Strings.{simple_escape, escape, piece, single_quoted}
use pg_eddy.Lexer.Step.{lex_step}

simple_escape-not-ascii : (c : ℕ) → 128 ≤ c → simple_escape true c ≡ none
simple_escape-not-ascii c h = ground arith

escape-not-ascii :
    (c : ℕ) (rest : List ℕ) → 128 ≤ c → escape true c rest ≡ ok (92 ∷ encode_utf8 c, 2)
unfolding escape
escape-not-ascii c rest h =
    let other : c == 117 ≡ false = grind arith in
    rw (simple_escape-not-ascii c h, other, escape) refl

-- The loop panics inside a character.
piece-inside : (d : ℕ) (rest : List ℕ) → is_boundary d ≡ false → piece true d rest ≡ err panic
unfolding piece
piece-inside d [] h = rw h refl
piece-inside d (c ∷ cs) h = let other : d == 92 ≡ false = grind arith in rw (other, h) refl

-- A backslash at the front of a single-quoted literal takes only the first byte of a character that
-- is not ASCII: the round of the lexer that begins at such a literal panics.
pub lex_step-panics :
    (floats : Floats) (c d : ℕ) (rest : List ℕ)
    → 192 ≤ c
    → 128 ≤ d
    → d ≤ 191
    → lex_step floats 39 (92 ∷ c ∷ d ∷ rest) ≡ err panic
unfolding lex_step single_quoted piece
lex_step-panics floats c d rest lead low high =
    let inside : is_boundary d ≡ false = grind arith in
    let no_quote : d == 39 ≡ false = grind arith in
    rw (escape-not-ascii c (d ∷ rest) (omega arith), no_quote, piece-inside d rest inside) refl
