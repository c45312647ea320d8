-- ===== src/Lexer/Consumed.antt =====
-- cypher/lexer.rs: each round of the lexer's loops takes a byte at least, and none lacks fuel.
use pg_eddy.Common.{
  ℕ, zero, suc, ◌+◌, ◌^◌, ◌≤◌, ◌≡◌, Bool, true, false, List, [], ◌∷◌, ◌++◌, ltb, ◌==◌,
  if◌then◌else◌, arith, Bool-cases, Option-cases, inl, inr, length, length-drop, take, drop, Result,
  ok, err, ◌>>=◌, none, some, Option,
}
use pg_eddy.Lexer.{Failure, message, panic, out_of_fuel, unicode_not_hex, unicode_codepoint}
use pg_eddy.Lexer.Chars.{from_str_radix, is_char, is_boundary, len_utf8, encode_utf8}
use pg_eddy.Lexer.Strings.{
  simple_escape, unicode_escape, escape, piece, single_quoted, double_quoted, backticked,
}

-- The failures that a theorem allows: each message, and a panic where `P` holds.
abbrev pub Allowed : (P : Type 0) → Failure → Type 0
Allowed P (message m) = Unit {0}
Allowed P panic = P
Allowed P out_of_fuel = ⊥

-- Bytes with none behind ASCII, unless `P` holds.
unfoldable pub Plain : (P : Type 0) → List ℕ → Type 0
Plain P [] = Unit {0}
Plain P (b ∷ bs) = (128 ≤ b → P) × Plain P bs

-- A result that tells how many bytes it took: one at least, and it fails only as it is allowed to.
unfoldable pub Progress {ℓ} : {A : Type ℓ} → (P : Type 0) → Result Failure (A × ℕ) → Type 0
Progress P (ok (a, n)) = 1 ≤ n
Progress P (err f) = Allowed P f

-- The same, without a demand on the number.
abbrev pub Fueled {ℓ} : {A : Type ℓ} → (P : Type 0) → Result Failure A → Type 0
Fueled P (ok a) = Unit {0}
Fueled P (err f) = Allowed P f

pub Plain-drop : (P : Type 0) (n : ℕ) (bs : List ℕ) → Plain P bs → Plain P (drop n bs)
unfolding Plain
Plain-drop P zero bs h = h
Plain-drop P (suc n) [] h = h
Plain-drop P (suc n) (b ∷ bs) h = Plain-drop P n bs h.1

len_utf8_pos : (b : ℕ) → 1 ≤ len_utf8 b
len_utf8_pos b = ground arith

module _ (P : Type 0) where
  unicode_escape-Fueled : (rest : List ℕ) → Fueled P (unicode_escape rest)
  unfolding unicode_escape
  unicode_escape-Fueled rest = elim (Bool-cases (ltb (length rest) 4)) [
    | inl short ↦ rw short tt
    | inr long ↦ rw long (told (from_str_radix 16 (2 ^ 32) (take 4 rest)))
  ]
    where
      told :
          (code : Option ℕ)
          → Fueled P (elim code as (λ _. Result Failure (List ℕ)) [
            | none ↦ err (message unicode_not_hex)
            | some cp ↦ if is_char cp then ok (encode_utf8 cp) else err (message unicode_codepoint)
          ])
      told none = tt
      told (some cp) = elim (Bool-cases (is_char cp)) [
        | inl char ↦ rw char tt
        | inr no_char ↦ rw no_char tt
      ]

  escape-Progress : (single : Bool) (c : ℕ) (rest : List ℕ) → Progress P (escape single c rest)
  unfolding escape Progress
  escape-Progress single c rest = elim (Option-cases (simple_escape single c)) [
    | inr (e, simple) ↦ rw (simple, escape) (omega arith)
    | inl none_simple ↦ elim (Bool-cases (c == 117)) [
      | inr other ↦ rw (none_simple, other, escape) (omega arith)
      | inl unicode ↦
          rw (none_simple, unicode, escape) (six (unicode_escape rest) (unicode_escape-Fueled rest))
    ]
  ]
    where
      six : (r : Result Failure (List ℕ)) → Fueled P r → Progress P (r >>= λ s. ok (s, 6))
      six (ok s) h = omega arith
      six (err f) h = h

  allowed : (b : ℕ) → (128 ≤ b → P) → is_boundary b ≡ false → P
  allowed b h inside = let high : 128 ≤ b = grind arith in h high

  pub piece-Progress :
      (single : Bool) (b : ℕ) (rest : List ℕ) → (128 ≤ b → P) → Progress P (piece single b rest)
  unfolding piece Progress
  piece-Progress single b [] plain = elim (Bool-cases (is_boundary b)) [
    | inl whole ↦ rw whole (len_utf8_pos b)
    | inr inside ↦ rw inside (allowed b plain inside)
  ]
  piece-Progress single b (c ∷ cs) plain = elim (Bool-cases (b == 92)) [
    | inl backslash ↦ rw backslash (escape-Progress single c cs)
    | inr other ↦ elim (Bool-cases (is_boundary b)) [
      | inl whole ↦ rw (other, whole) (len_utf8_pos b)
      | inr inside ↦ rw (other, inside) (allowed b plain inside)
    ]
  ]

  -- A loop goes on behind a piece.
  after-Fueled :
      (got : Result Failure (List ℕ × ℕ)) (next : List ℕ × ℕ → Result Failure (List ℕ × ℕ))
      → Progress P got
      → ((s : List ℕ) (n : ℕ) → 1 ≤ n → Fueled P (next (s, n)))
      → Fueled P (got >>= next)
  unfolding Progress
  after-Fueled (ok (s, n)) next h k = k s n h
  after-Fueled (err f) next h k = h

  shorter :
      (fuel n b : ℕ) (rest : List ℕ)
      → length rest ≤ fuel
      → 1 ≤ n
      → length (drop n (b ∷ rest)) ≤ fuel
  shorter fuel n b rest enough pos = let at = length-drop n (b ∷ rest) in omega arith

  pub single_quoted-Fueled :
      (fuel : ℕ) (rest s : List ℕ) (n : ℕ)
      → length rest ≤ fuel
      → Plain P rest
      → Fueled P (single_quoted fuel rest s n)
  unfolding single_quoted Plain
  single_quoted-Fueled fuel [] s n enough plain = tt
  single_quoted-Fueled zero (b ∷ rest) s n enough plain = absurd (omega arith)
  single_quoted-Fueled (suc fuel) (b ∷ rest) s n enough plain = elim (Bool-cases (b == 39)) [
    | inl quote ↦ rw quote (
        behind rest (omega arith) plain.1
          (λ cs h p. single_quoted-Fueled fuel cs (s ++ (39 ∷ [])) (n + 2) h p))
    | inr other ↦ rw other (
        after-Fueled (piece true b rest) _ (piece-Progress true b rest plain.0) (λ t k pos.
          single_quoted-Fueled fuel (drop k (b ∷ rest)) (s ++ t) (n + k)
            (shorter fuel k b rest (omega arith) pos) (Plain-drop P k (b ∷ rest) plain)))
  ]
    where
      behind :
          (left : List ℕ)
          → length left ≤ fuel
          → Plain P left
          → ((cs : List ℕ)
              → length cs ≤ fuel
              → Plain P cs
              → Fueled P (single_quoted fuel cs (s ++ (39 ∷ [])) (n + 2)))
          → Fueled P (elim left as (λ _. Result Failure (List ℕ × ℕ)) [
            | [] ↦ ok (s, n + 1)
            | c ∷ cs ↦
                if c == 39
                then single_quoted fuel (drop 1 left) (s ++ (39 ∷ [])) (n + 2)
                else ok (s, n + 1)
          ])
      behind [] h p again = tt
      behind (c ∷ cs) h p again = elim (Bool-cases (c == 39)) [
        | inl doubled ↦ rw doubled (again cs (omega arith) p.1)
        | inr closed ↦ rw closed tt
      ]

  pub double_quoted-Fueled :
      (fuel : ℕ) (rest s : List ℕ) (n : ℕ)
      → length rest ≤ fuel
      → Plain P rest
      → Fueled P (double_quoted fuel rest s n)
  unfolding double_quoted Plain
  double_quoted-Fueled fuel [] s n enough plain = tt
  double_quoted-Fueled zero (b ∷ rest) s n enough plain = absurd (omega arith)
  double_quoted-Fueled (suc fuel) (b ∷ rest) s n enough plain = elim (Bool-cases (b == 34)) [
    | inl quote ↦ rw quote tt
    | inr other ↦ rw other (
        after-Fueled (piece false b rest) _ (piece-Progress false b rest plain.0) (λ t k pos.
          double_quoted-Fueled fuel (drop k (b ∷ rest)) (s ++ t) (n + k)
            (shorter fuel k b rest (omega arith) pos) (Plain-drop P k (b ∷ rest) plain)))
  ]

  pub backticked-Fueled :
      (fuel : ℕ) (rest s : List ℕ) (n : ℕ)
      → length rest ≤ fuel
      → Plain P rest
      → Fueled P (backticked fuel rest s n)
  unfolding backticked Plain
  backticked-Fueled fuel [] s n enough plain = tt
  backticked-Fueled zero (b ∷ rest) s n enough plain = absurd (omega arith)
  backticked-Fueled (suc fuel) (b ∷ rest) s n enough plain = elim (Bool-cases (b == 96)) [
    | inl quote ↦ rw quote tt
    | inr other ↦ elim (Bool-cases (is_boundary b)) [
      | inr inside ↦ rw (other, inside) (allowed b plain.0 inside)
      | inl whole ↦
          let k = len_utf8 b in
          rw (other, whole)
            (backticked-Fueled fuel (drop k (b ∷ rest)) (s ++ take k (b ∷ rest)) (n + k)
              (shorter fuel k b rest (omega arith) (len_utf8_pos b))
              (Plain-drop P k (b ∷ rest) plain))
    ]
  ]
