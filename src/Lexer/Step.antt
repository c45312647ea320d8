-- ===== src/Lexer/Step.antt =====
-- cypher/lexer.rs: one round of the loop of `lex`: what stands at the front of the bytes that are left,
-- no token for whitespace and comments, and how many bytes it takes. The test `pos < len` of a loop
-- is the match on the bytes that are left.
use pg_eddy.Common.{
  ℕ, suc, ◌+◌, Bool, not, ◌||◌, Option, none, some, List, [], ◌∷◌, ◌==◌, if◌then◌else◌, length,
  take, drop, Result, ok, err, ◌>>=◌, ltb,
}
use pg_eddy.Lexer.{
  Token, ident, string_lit, parameter, l_paren, r_paren, l_bracket, r_bracket, l_brace, r_brace,
  colon, comma, dot, pipe, dot_dot, dash, l_arrow, r_arrow, eq, neq, le, ge, regex_match, plus,
  plus_eq, star, slash, percent, caret, Failure, message, unterminated_comment, unexpected, Floats,
}
use pg_eddy.Lexer.Chars.{
  index, and_also, next_is, is_whitespace, is_digit, is_alphabetic, is_word, count_while,
}
use pg_eddy.Lexer.Strings.{single_quoted, double_quoted, backticked}
use pg_eddy.Lexer.Numbers.{number_token}
use pg_eddy.Lexer.Keywords.{word_token}

abbrev pub not_newline : ℕ → Bool
not_newline b = not (b == 10)

-- How many bytes stand before the end of a block comment.
unfoldable pub find_close : List ℕ → Result Failure (Option ℕ)
unfolding index
find_close [] = ok none
find_close (a ∷ rest) =
    let more = find_close rest >>= λ k.
    ok (elim k as (λ _. Option ℕ) [ none ↦ none | some n ↦ some (suc n) ]) in
    let here = and_also (a == 42) (index rest 0 >>= λ c. ok (c == 47)) in
    if ltb 0 (length rest)
    then (here >>= λ closed. if closed then ok (some 0) else more)
    else ok none

unfoldable pub operator : ℕ → List ℕ → Result Failure (Token × ℕ)
unfolding next_is
operator b rest =
    if b == 40
    then ok (l_paren, 1)
    else if b == 41
    then ok (r_paren, 1)
    else if b == 91
    then ok (l_bracket, 1)
    else if b == 93
    then ok (r_bracket, 1)
    else if b == 123
    then ok (l_brace, 1)
    else if b == 125
    then ok (r_brace, 1)
    else if b == 58
    then ok (colon, 1)
    else if b == 44
    then ok (comma, 1)
    else if b == 124
    then ok (pipe, 1)
    else if b == 43
    then (next_is (λ c. c == 61) rest >>= λ two. ok (if two then (plus_eq, 2) else (plus, 1)))
    else if b == 42
    then ok (star, 1)
    else if b == 37
    then ok (percent, 1)
    else if b == 94
    then ok (caret, 1)
    else if b == 45
    then ok (dash, 1)
    else if b == 47
    then ok (slash, 1)
    else if b == 46
    then (next_is (λ c. c == 46) rest >>= λ two. ok (if two then (dot_dot, 2) else (dot, 1)))
    else if b == 61
    then (next_is (λ c. c == 126) rest >>= λ two. ok (if two then (regex_match, 2) else (eq, 1)))
    else if b == 60
    then (next_is (λ c. c == 62) rest >>= λ unequal. next_is (λ c. c == 61) rest >>= λ less.
        ok (if unequal then (neq, 2) else if less then (le, 2) else (l_arrow, 1)))
    else if b == 62
    then (next_is (λ c. c == 61) rest >>= λ two. ok (if two then (ge, 2) else (r_arrow, 1)))
    else err (message (unexpected b))

abbrev pub Lexed : Type 0
Lexed = Result Failure (Option Token × ℕ)

-- A token, of so many bytes.
abbrev pub emit : Result Failure (Token × ℕ) → Lexed
emit got = got >>= λ (t, n). ok (some t, n)

-- A literal in quotes, behind its opening quote.
abbrev pub emit_text : (List ℕ → Token) → Result Failure (List ℕ × ℕ) → Lexed
emit_text make got = got >>= λ (s, n). ok (some (make s), 1 + n)

abbrev pub block_comment : List ℕ → Lexed
block_comment rest = find_close (drop 1 rest) >>= λ close. elim close [
  | none ↦ err (message unterminated_comment)
  | some k ↦ ok (none, 4 + k)
]

module _ (floats : Floats) where
  -- What begins with a byte, of which it is known whether a comment of either kind or, behind a
  -- point, a digit begins here.
  unfoldable pub lex_at : (comment block point : Bool) → ℕ → List ℕ → Lexed
  unfolding count_while find_close single_quoted double_quoted backticked number_token word_token
      operator
  lex_at comment block point b rest =
      let bytes = b ∷ rest in
      if is_whitespace b
      then ok (none, 1)
      else if comment
      then ok (none, count_while not_newline bytes)
      else if block
      then block_comment rest
      else if b == 39
      then emit_text string_lit (single_quoted (length rest) rest [] 0)
      else if b == 34
      then emit_text string_lit (double_quoted (length rest) rest [] 0)
      else if b == 96
      then emit_text ident (backticked (length rest) rest [] 0)
      else if is_digit b || point
      then emit (number_token floats b rest)
      else if b == 36
      then ok
          (some (parameter (take (count_while is_word rest) rest)), 1 + count_while is_word rest)
      else if is_alphabetic b || (b == 95)
      then ok (some (word_token bytes).0, (word_token bytes).1)
      else emit (operator b rest)

  unfoldable pub lex_step : ℕ → List ℕ → Lexed
  unfolding lex_at next_is
  lex_step b rest = do
    comment ← and_also (b == 47) (next_is (λ c. c == 47) rest)
    block ← and_also (b == 47) (next_is (λ c. c == 42) rest)
    point ← and_also (b == 46) (next_is is_digit rest)
    lex_at comment block point b rest
