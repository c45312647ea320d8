-- ===== src/Lexer/Guards.antt =====
-- cypher/lexer.rs: what stands behind `pos + 1 < len` looks at a byte that is there.
use pg_eddy.Common.{
  ℕ, suc, ◌+◌, ◌≡◌, refl, Bool, true, false, not, ◌&&◌, ◌||◌, Option, none, some, List, [], ◌∷◌,
  ◌++◌, ltb, ◌==◌, if◌then◌else◌, arith, Bool-cases, inl, inr, length, ok,
}
use pg_eddy.Lexer.Chars.{is_digit, index, and_also, next_is}
use pg_eddy.Lexer.Numbers.{Decimal, sign, digit_step}
use pg_eddy.Lexer.Step.{find_close}

-- The test of the next byte, which fails at the end.
unfoldable pub peek : (ℕ → Bool) → List ℕ → Bool
peek test [] = false
peek test (c ∷ cs) = test c

pub next_is-peek : (test : ℕ → Bool) (rest : List ℕ) → next_is test rest ≡ ok (peek test rest)
unfolding next_is index peek
next_is-peek test [] = refl
next_is-peek test (c ∷ cs) = let there : ltb 0 (suc (length cs)) ≡ true = ground arith in rw there

pub and_also-ok : (b x : Bool) → and_also b (ok x) ≡ ok (b && x)
and_also-ok true x = refl
and_also-ok false x = refl

-- A digit is no point.
pub peek_digit : (rest : List ℕ) → peek is_digit rest ≡ true → peek (λ c. c == 46) rest ≡ false
unfolding peek
peek_digit [] h = refl
peek_digit (c ∷ cs) h = grind arith

-- One round over a number, with the next byte's test as a Boolean.
unfoldable pub digit_next : List ℕ → Decimal → Option Decimal
digit_next [] d = none
digit_next (b ∷ rest) d =
    let plus = sign rest in
    if is_digit b
    then some (record d { num_str = d.num_str ++ (b ∷ []); size = d.size + 1 })
    else if (b == 46) && (not d.has_dot && not d.has_e)
    then (if peek (λ c. c == 46) rest
        then none
        else some
            (record d { num_str = d.num_str ++ (46 ∷ []); has_dot = true; size = d.size + 1 }))
    else if ((b == 101) || (b == 69)) && not d.has_e
    then some (record {
      num_str = d.num_str ++ (101 ∷ plus);
      has_dot = true;
      has_e = true;
      size = d.size + 1 + length plus;
    })
    else none

pub digit_step-ok : (left : List ℕ) (d : Decimal) → digit_step left d ≡ ok (digit_next left d)
unfolding digit_step digit_next
digit_step-ok [] d = refl
digit_step-ok (b ∷ rest) d = rw (next_is-peek (λ c. c == 46) rest) (elim (Bool-cases (is_digit b)) [
  | inl digit ↦ rw digit
  | inr other ↦ elim (Bool-cases ((b == 46) && (not d.has_dot && not d.has_e))) [
    | inl point ↦ rw (other, point)
    | inr no_point ↦ elim (Bool-cases (((b == 101) || (b == 69)) && not d.has_e)) [
      | inl exponent ↦ rw (other, no_point, exponent)
      | inr last ↦ rw (other, no_point, last)
    ]
  ]
])

pub find_close_returns : (bytes : List ℕ) → (k : Option ℕ) × (find_close bytes ≡ ok k)
unfolding find_close index
find_close_returns [] = (none, refl)
find_close_returns (a ∷ []) = (none, refl)
find_close_returns (a ∷ c ∷ cs) =
    let there : ltb 0 (suc (length cs)) ≡ true = ground arith in
    let (k, e) = find_close_returns (c ∷ cs) in
    let next : Option ℕ = elim k [ none ↦ none | some n ↦ some (suc n) ] in
    elim (Bool-cases (a == 42)) [
      | inr other ↦ (next, rw (there, other, e) refl)
      | inl star ↦ elim (Bool-cases (c == 47)) [
        | inl slash ↦ (some 0, rw (there, star, slash) refl)
        | inr more ↦ (next, rw (there, star, more, e) refl)
      ]
    ]
