-- ===== src/Lexer/Tests.antt =====
-- cypher/lexer.rs: runs of `lex`, and instances of the theorems on it.
use pg_eddy.Common.{
  ◌<◌, ◌≡◌, ◌≢◌, refl, false, some, List, [], ◌∷◌, arith, map, length, Result, ok, err,
}
use pg_eddy.Lexer.{
  Token, kw_optional_match, kw_return, ident, string_lit, int_lit, int_lit_big, parameter, l_paren,
  r_paren, colon, dot_dot, star, eof, SpannedToken, message, Message, panic, out_of_fuel,
  unterminated_comment, integer_overflow, LexError, Floats,
}
use pg_eddy.Lexer.Chars.{codes}
use pg_eddy.Lexer.Step.{lex_step}
use pg_eddy.Lexer.Scan.{lex}
use pg_eddy.Lexer.Spans.{Spans, Ascii, lex-Spans, lex-ends, lex-Ascii}
use pg_eddy.Lexer.Panics.{lex_step-panics}

-- Floats that are the digits before the point, none of them infinite.
abbrev floats : Floats
floats = record { parse_f64 = λ text. some (length text); is_infinite = λ v. false }

abbrev tokens_of : Result LexError (List SpannedToken) → List Token
tokens_of (ok ts) = map (λ t. t.token) ts
tokens_of (err e) = []

test_pattern : tokens_of (lex floats (codes "optional  Match (n:Person) // all")) ≡ (
    kw_optional_match
    ∷ l_paren
    ∷ ident (codes "n")
    ∷ colon
    ∷ ident (codes "Person")
    ∷ r_paren
    ∷ eof
    ∷ [])
unfolding lex
test_pattern = refl

test_literals : tokens_of (lex floats (codes "*1..0x10 'it''s' $p 9223372036854775808")) ≡ (
    star
    ∷ int_lit 1
    ∷ dot_dot
    ∷ int_lit 16
    ∷ string_lit (codes "it's")
    ∷ parameter (codes "p")
    ∷ int_lit_big
    ∷ eof
    ∷ [])
unfolding lex
test_literals = refl

-- A leading zero makes the same number an overflow.
test_leading_zero :
    lex floats (codes "09223372036854775808")
    ≡ err (record { failure = message integer_overflow; offset = 0 })
unfolding lex
test_leading_zero = refl

-- A literal without its closing quote is taken, a comment without its end is not.
test_unterminated :
    tokens_of (lex floats (codes "RETURN 'a")) ≡ (kw_return ∷ string_lit (codes "a") ∷ eof ∷ [])
unfolding lex
test_unterminated = refl

test_query :
    lex floats (codes "RETURN n")
    ≡ ok (
        record { token = kw_return; offset = 0 }
        ∷ record { token = ident (codes "n"); offset = 7 }
        ∷ record { token = eof; offset = 8 }
        ∷ [])
unfolding lex
test_query = refl

lex-Spans_example : Spans 0 8 (
    record { token = kw_return; offset = 0 }
    ∷ record { token = ident (codes "n"); offset = 7 }
    ∷ record { token = eof; offset = 8 }
    ∷ [])
lex-Spans_example =
    lex-Spans floats (codes "RETURN n")
      (record { token = kw_return; offset = 0 }
        ∷ record { token = ident (codes "n"); offset = 7 }
        ∷ record { token = eof; offset = 8 }
        ∷ [])
      test_query

test_open :
    lex floats (codes "1 /* x")
    ≡ err (record { failure = message unterminated_comment; offset = 2 })
unfolding lex
test_open = refl

lex-ends_example : (message unterminated_comment ≢ out_of_fuel) × (2 < 6)
lex-ends_example =
    lex-ends floats (codes "1 /* x") (record { failure = message unterminated_comment; offset = 2 })
      test_open

open_is_Ascii : Ascii (codes "1 /* x")
unfolding Ascii
open_is_Ascii =
    (omega arith, (omega arith, (omega arith, (omega arith, (omega arith, (omega arith, tt))))))

lex-Ascii_example : (m : Message) × (message unterminated_comment ≡ message m)
lex-Ascii_example =
    lex-Ascii floats (codes "1 /* x")
      (record { failure = message unterminated_comment; offset = 2 }) open_is_Ascii test_open

-- `'\é'`
lex_step-panics_example : lex_step floats 39 (92 ∷ 195 ∷ 169 ∷ 39 ∷ []) ≡ err panic
lex_step-panics_example =
    lex_step-panics floats 195 169 (39 ∷ []) (omega arith) (omega arith) (omega arith)
