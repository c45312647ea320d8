-- ===== src/Lexer/Scan.antt =====
-- cypher/lexer.rs: the loop of `lex`.
use pg_eddy.Common.{
  ℕ, zero, suc, ◌+◌, Option, none, some, List, [], ◌∷◌, ◌++◌, length, drop, Result, ok, err,
}
use pg_eddy.Lexer.{Token, eof, SpannedToken, out_of_fuel, LexError, Floats}
use pg_eddy.Lexer.Step.{lex_step}

-- The token that a round has pushed.
abbrev pub spanned : Option Token → ℕ → List SpannedToken
spanned none pos = []
spanned (some t) pos = record { token = t; offset = pos } ∷ []

module _ (floats : Floats) where
  -- From a position on, with the bytes that are left there.
  unfoldable pub lex_loop :
      (fuel pos : ℕ) → List ℕ → List SpannedToken → Result LexError (List SpannedToken)
  unfolding lex_step
  lex_loop fuel pos [] tokens = ok (tokens ++ (record { token = eof; offset = pos } ∷ []))
  lex_loop zero pos (b ∷ rest) tokens = err (record { failure = out_of_fuel; offset = pos })
  lex_loop (suc fuel) pos (b ∷ rest) tokens = elim (lex_step floats b rest) [
    | err f ↦ err (record { failure = f; offset = pos })
    | ok (t, n) ↦ lex_loop fuel (pos + n) (drop n (b ∷ rest)) (tokens ++ spanned t pos)
  ]

  unfoldable pub lex : List ℕ → Result LexError (List SpannedToken)
  unfolding lex_loop
  lex input = lex_loop (length input) 0 input []
