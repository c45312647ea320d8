-- ===== src/Lexer/Spans.antt =====
-- cypher/lexer.rs: where the tokens of `lex` stand in the query.
use pg_eddy.Common.{
  ℕ, zero, suc, ◌+◌, ◌-◌, ◌≤◌, ◌<◌, ◌≡◌, ◌≢◌, refl, sym, ◌∙◌, Option, none, some, List, [], ◌∷◌,
  ◌++◌, append_assoc, arith, Result-cases, inl, inr, length, length-drop, drop, Result, ok, err,
}
use mathlib.Core.Path.{subst}
use pg_eddy.Lexer.{
  Token, eof, SpannedToken, Failure, message, panic, out_of_fuel, Message, LexError, Floats,
}
use pg_eddy.Lexer.Step.{lex_step}
use pg_eddy.Lexer.Scan.{spanned, lex_loop, lex}
use pg_eddy.Lexer.Consumed.{Allowed, Plain, Progress, Plain-drop}
use pg_eddy.Lexer.Total.{lex_step-Progress}

-- Tokens in the order of their offsets, no two at one offset: each but the last stands at a byte of
-- the text, and the last is the end of the input, behind the text.
unfoldable pub Spans : (lo total : ℕ) → List SpannedToken → Type 0
Spans lo total [] = ⊥
Spans lo total (t ∷ []) = (t.token ≡ eof) × (lo ≤ t.offset) × (total ≤ t.offset)
Spans lo total (t ∷ u ∷ us) =
    (lo ≤ t.offset) × (t.offset < total) × Spans (suc t.offset) total (u ∷ us)

Spans-lower :
    (lo lo' total : ℕ) (ts : List SpannedToken) → lo ≤ lo' → Spans lo' total ts → Spans lo total ts
unfolding Spans
Spans-lower lo lo' total [] h s = s
Spans-lower lo lo' total (t ∷ []) h (is_eof, from, behind) = (is_eof, omega arith, behind)
Spans-lower lo lo' total (t ∷ u ∷ us) h (from, inside, more) = (omega arith, inside, more)

Spans-front :
    (lo total pos : ℕ) (t : Option Token) (ts : List SpannedToken)
    → lo ≤ pos
    → pos < total
    → Spans (suc pos) total ts
    → Spans lo total (spanned t pos ++ ts)
unfolding Spans
Spans-front lo total pos none ts h inside s = Spans-lower lo (suc pos) total ts (omega arith) s
Spans-front lo total pos (some t) [] h inside s = absurd s
Spans-front lo total pos (some t) (u ∷ us) h inside s = (h, inside, s)

-- With what is allowed of a panic.
module _ (P : Type 0) where
  -- What the loop gives, from a position on and with tokens before it.
  abbrev pub Lexes :
      (pos total : ℕ) → List SpannedToken → Result LexError (List SpannedToken) → Type 0
  Lexes pos total before (ok ts) =
      (more : List SpannedToken) × (ts ≡ before ++ more) × Spans pos total more
  Lexes pos total before (err e) = Allowed P e.failure × (e.offset < total)

  Lexes-front :
      (pos n total : ℕ) (t : Option Token) (before : List SpannedToken)
      (r : Result LexError (List SpannedToken))
      → pos < total
      → 1 ≤ n
      → Lexes (pos + n) total (before ++ spanned t pos) r
      → Lexes pos total before r
  Lexes-front pos n total t before (ok ts) inside h (more, e, s) = (
    spanned t pos ++ more,
    e ∙ append_assoc before (spanned t pos) more,
    Spans-front pos total pos t more (omega arith) inside
        (Spans-lower (suc pos) (pos + n) total more (omega arith) s),
  )
  Lexes-front pos n total t before (err e) inside h k = k

  Progress-ok {ℓ} :
      {A : Type ℓ} (r : Result Failure (A × ℕ)) {a : A} {n : ℕ}
      → r ≡ ok (a, n)
      → Progress P r
      → 1 ≤ n
  unfolding Progress
  Progress-ok r e h = subst (λ x. Progress P x) e h

  Progress-err {ℓ} :
      {A : Type ℓ} (r : Result Failure (A × ℕ)) {f : Failure}
      → r ≡ err f
      → Progress P r
      → Allowed P f
  unfolding Progress
  Progress-err r e h = subst (λ x. Progress P x) e h

  module _ (floats : Floats) where
    pub lex_loop-Lexes :
        (fuel pos total : ℕ) (rest : List ℕ) (before : List SpannedToken)
        → length rest ≤ fuel
        → Plain P rest
        → length rest ≡ total - pos
        → Lexes pos total before (lex_loop floats fuel pos rest before)
    unfolding lex_loop Spans Plain
    lex_loop-Lexes fuel pos total [] before enough plain at =
        (record { token = eof; offset = pos } ∷ [], refl, (refl, omega arith, omega arith))
    lex_loop-Lexes zero pos total (b ∷ rest) before enough plain at = absurd (omega arith)
    lex_loop-Lexes (suc fuel) pos total (b ∷ rest) before enough plain at =
        let progress = lex_step-Progress P floats b rest plain.1 in
        elim (Result-cases (lex_step floats b rest)) [
          | inl ((t, n), done) ↦
              let some_byte = Progress-ok (lex_step floats b rest) done progress in
              let left = length-drop n (b ∷ rest) in
              rw (done, lex_loop)
                (Lexes-front pos n total t before
                  (lex_loop floats fuel (pos + n) (drop n (b ∷ rest)) (before ++ spanned t pos))
                  (omega arith) some_byte
                  (lex_loop-Lexes fuel (pos + n) total (drop n (b ∷ rest)) (before ++ spanned t pos)
                    (omega arith) (Plain-drop P n (b ∷ rest) plain) (omega arith)))
          | inr (f, failed) ↦
              rw (failed, lex_loop)
                (Progress-err (lex_step floats b rest) failed progress, omega arith)
        ]

    lex-Lexes : (input : List ℕ) → Plain P input → Lexes 0 (length input) [] (lex floats input)
    unfolding lex
    lex-Lexes input plain =
        lex_loop-Lexes (length input) 0 (length input) input [] (omega arith) plain (omega arith)

anything : (bs : List ℕ) → Plain Unit bs
unfolding Plain
anything [] = tt
anything (b ∷ bs) = (λ high. tt, anything bs)

-- A list of ASCII bytes.
unfoldable pub Ascii : List ℕ → Type 0
Ascii [] = Unit {0}
Ascii (b ∷ bs) = (b < 128) × Ascii bs

Ascii-Plain : (bs : List ℕ) → Ascii bs → Plain ⊥ bs
unfolding Plain Ascii
Ascii-Plain [] h = tt
Ascii-Plain (b ∷ bs) (low, more) = (λ high. omega arith, Ascii-Plain bs more)

not_out_of_fuel : (f : Failure) → Allowed Unit f → f ≢ out_of_fuel
not_out_of_fuel (message m) h = λ e. cc
not_out_of_fuel panic h = λ e. cc
not_out_of_fuel out_of_fuel h = λ e. h

told_message : (f : Failure) → Allowed ⊥ f → (m : Message) × (f ≡ message m)
told_message (message m) h = (m, refl)
told_message panic h = absurd h
told_message out_of_fuel h = absurd h

-- The tokens that `lex` gives for a query are in the order of their offsets, no two at one offset;
-- each but the last stands at a byte of the query, and the last is the end of the input.
pub lex-Spans :
    (floats : Floats) (input : List ℕ) (tokens : List SpannedToken)
    → lex floats input ≡ ok tokens
    → Spans 0 (length input) tokens
lex-Spans floats input tokens e =
    let (more, same, spans) =
      subst (λ r. Lexes Unit 0 (length input) [] r) e
        (lex-Lexes Unit floats input (anything input)) in
    subst (λ ts. Spans 0 (length input) ts) (sym same) spans

-- The lexer ends on every query: it never lacks fuel. An error that it gives stands at a byte of the query.
pub lex-ends :
    (floats : Floats) (input : List ℕ) (e : LexError)
    → lex floats input ≡ err e
    → (e.failure ≢ out_of_fuel) × (e.offset < length input)
lex-ends floats input e failed =
    let (told, inside) =
      subst (λ r. Lexes Unit 0 (length input) [] r) failed
        (lex-Lexes Unit floats input (anything input)) in
    (not_out_of_fuel e.failure told, inside)

-- On a query of ASCII bytes alone, the lexer does not panic: it indexes no byte behind the end, and
-- no slice is out of range or inside a character. An error that it gives is a message.
pub lex-Ascii :
    (floats : Floats) (input : List ℕ) (e : LexError)
    → Ascii input
    → lex floats input ≡ err e
    → (m : Message) × (e.failure ≡ message m)
lex-Ascii floats input e ascii failed =
    told_message e.failure
      (subst (λ r. Lexes ⊥ 0 (length input) [] r) failed
        (lex-Lexes ⊥ floats input (Ascii-Plain input ascii))).0
