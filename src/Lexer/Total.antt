-- ===== src/Lexer/Total.antt =====
-- cypher/lexer.rs: the lexer comes to an end, and how far each of its rounds goes.
use pg_eddy.Common.{
  ℕ, ◌+◌, ◌≤◌, ◌≡◌, true, ◌&&◌, ◌||◌, Option, none, some, List, [], ◌∷◌, ◌==◌, arith, Bool-cases,
  inl, inr, length, take, drop, Result, ok, err, Bool,
}
use pg_eddy.Lexer.{
  Token, kw_optional_match, kw_order_by, ident, string_lit, parameter, Failure, Floats, message,
  unterminated_comment,
}
use pg_eddy.Common.Bytes.{eq_bytes}
use pg_eddy.Lexer.Chars.{
  codes, is_whitespace, is_digit, is_alphabetic, is_word, to_upper, count_while,
}
use pg_eddy.Lexer.Strings.{single_quoted, double_quoted, backticked}
use pg_eddy.Lexer.Numbers.{number_token}
use pg_eddy.Lexer.Keywords.{keywords, find_keyword, second_word, word_token}
use pg_eddy.Lexer.Step.{
  not_newline, Lexed, operator, emit, emit_text, block_comment, lex_at, lex_step,
}
use pg_eddy.Lexer.Guards.{peek, next_is-peek, and_also-ok, find_close_returns}
use pg_eddy.Lexer.Consumed.{
  Plain, Progress, Fueled, single_quoted-Fueled, double_quoted-Fueled, backticked-Fueled,
}
use pg_eddy.Lexer.Numeric.{count_while-front, ok-Progress, number_token-Progress}

-- With what is allowed of a panic.
module _ (P : Type 0) where
  emit-Progress : (got : Result Failure (Token × ℕ)) → Progress P got → Progress P (emit got)
  unfolding Progress
  emit-Progress (ok (t, n)) h = h
  emit-Progress (err f) h = h

  emit_text-Progress :
      (make : List ℕ → Token) (got : Result Failure (List ℕ × ℕ))
      → Fueled P got
      → Progress P (emit_text make got)
  unfolding Progress
  emit_text-Progress make (ok (t, n)) h = omega arith
  emit_text-Progress make (err f) h = h

  block_comment-Progress : (rest : List ℕ) → Progress P (block_comment rest)
  unfolding Progress
  block_comment-Progress rest =
      let (close, e) = find_close_returns (drop 1 rest) in rw e (commented close)
    where
      commented :
          (close : Option ℕ)
          → Progress P (elim close as (λ _. Lexed) [
            | none ↦ err (message unterminated_comment)
            | some k ↦ ok (none, 4 + k)
          ])
      commented none = tt
      commented (some k) = omega arith

  operator-Progress : (b : ℕ) (rest : List ℕ) → Progress P (operator b rest)
  unfolding operator Progress
  operator-Progress b rest =
      rw
        (
          next_is-peek (λ c. c == 61) rest,
          next_is-peek (λ c. c == 46) rest,
          next_is-peek (λ c. c == 126) rest,
          next_is-peek (λ c. c == 62) rest,
        )
        (ground arith)

  two :
      (r : Option ℕ) (t u : Token) (n : ℕ)
      → 1 ≤ n
      → 1 ≤ (elim r as (λ _. Token × ℕ) [ none ↦ (u, n) | some k ↦ (t, n + k) ]).1
  two none t u n h = h
  two (some k) t u n h = omega arith

  known :
      (r : Option Token) (u : Token) (n : ℕ)
      → 1 ≤ n
      → 1 ≤ (elim r as (λ _. Token × ℕ) [ none ↦ (u, n) | some t ↦ (t, n) ]).1
  known none u n h = h
  known (some t) u n h = h

  word_token-Progress :
      (b : ℕ) (rest : List ℕ) → is_alphabetic b || (b == 95) ≡ true → 1 ≤ (word_token (b ∷ rest)).1
  unfolding word_token
  word_token-Progress b rest h =
      let word : is_word b ≡ true = grind arith in
      let n = count_while-front is_word b rest word in
      let size = count_while is_word (b ∷ rest) in
      let first = take size (b ∷ rest) in
      let big = to_upper first in
      elim (Bool-cases (eq_bytes big (codes "OPTIONAL"))) [
        | inl optional ↦ rw optional (
            two (second_word (codes "MATCH") (drop size (b ∷ rest))) kw_optional_match (ident first)
              size n)
        | inr not_optional ↦ elim (Bool-cases (eq_bytes big (codes "ORDER"))) [
          | inl order ↦
              rw (not_optional, order)
                (two (second_word (codes "BY") (drop size (b ∷ rest))) kw_order_by (ident first)
                  size n)
          | inr one ↦
              rw (not_optional, one) (known (find_keyword big keywords) (ident first) size n)
        ]
      ]

  lex_at-Progress :
      (floats : Floats) (comment block : Bool) (b : ℕ) (rest : List ℕ)
      → Plain P rest
      → (comment ≡ true → not_newline b ≡ true)
      → Progress P (lex_at floats comment block ((b == 46) && peek is_digit rest) b rest)
  unfolding lex_at
  lex_at-Progress floats comment block b rest plain slash = elim (Bool-cases (is_whitespace b)) [
    | inl white ↦ rw white (ok-Progress P none 1 (omega arith))
    | inr no_white ↦ rw no_white (elim (Bool-cases comment) [
      | inl here ↦ rw here (
          ok-Progress P none (count_while not_newline (b ∷ rest))
            (count_while-front not_newline b rest (slash here)))
      | inr no_comment ↦ rw no_comment (elim (Bool-cases block) [
        | inl begins ↦ rw begins (block_comment-Progress rest)
        | inr no_block ↦ rw no_block (elim (Bool-cases (b == 39)) [
          | inl single ↦ rw single (
              emit_text-Progress string_lit (single_quoted (length rest) rest [] 0)
                (single_quoted-Fueled P (length rest) rest [] 0 (omega arith) plain))
          | inr no_single ↦ rw no_single (elim (Bool-cases (b == 34)) [
            | inl double ↦ rw double (
                emit_text-Progress string_lit (double_quoted (length rest) rest [] 0)
                  (double_quoted-Fueled P (length rest) rest [] 0 (omega arith) plain))
            | inr no_double ↦ rw no_double (elim (Bool-cases (b == 96)) [
              | inl tick ↦ rw tick (
                  emit_text-Progress ident (backticked (length rest) rest [] 0)
                    (backticked-Fueled P (length rest) rest [] 0 (omega arith) plain))
              | inr no_tick ↦
                  rw no_tick (elim (Bool-cases (is_digit b || ((b == 46) && peek is_digit rest))) [
                    | inl number ↦ rw number (
                        emit-Progress (number_token floats b rest)
                          (number_token-Progress P floats b rest number))
                    | inr no_number ↦ rw no_number (elim (Bool-cases (b == 36)) [
                      | inl dollar ↦ rw dollar (
                          ok-Progress P (some (parameter (take (count_while is_word rest) rest)))
                            (1 + count_while is_word rest) (omega arith))
                      | inr no_dollar ↦
                          rw no_dollar (elim (Bool-cases (is_alphabetic b || (b == 95))) [
                            | inl word ↦ rw word (
                                ok-Progress P (some (word_token (b ∷ rest)).0)
                                  (word_token (b ∷ rest)).1 (word_token-Progress b rest word))
                            | inr no_word ↦
                                rw no_word
                                  (emit-Progress (operator b rest) (operator-Progress b rest))
                          ])
                    ])
                  ])
            ])
          ])
        ])
      ])
    ])
  ]

  -- Each round of the lexer takes a byte at least.
  pub lex_step-Progress :
      (floats : Floats) (b : ℕ) (rest : List ℕ) → Plain P rest → Progress P (lex_step floats b rest)
  unfolding lex_step
  lex_step-Progress floats b rest plain =
      let line = peek (λ c. c == 47) rest in
      let star = peek (λ c. c == 42) rest in
      rw
        (
          next_is-peek (λ c. c == 47) rest,
          next_is-peek (λ c. c == 42) rest,
          next_is-peek is_digit rest,
          and_also-ok (b == 47) line,
          and_also-ok (b == 47) star,
          and_also-ok (b == 46) (peek is_digit rest),
        )
        (lex_at-Progress floats ((b == 47) && line) ((b == 47) && star) b rest plain
          (λ h. slash line h))
    where
      slash : (line : Bool) → (b == 47) && line ≡ true → not_newline b ≡ true
      slash line h = grind arith
