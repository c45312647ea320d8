-- ===== src/Lexer/Numeric.antt =====
-- cypher/lexer.rs: a number takes a byte at least, and its loop has fuel enough.
use pg_eddy.Common.{
  ℕ, zero, suc, ◌+◌, ◌^◌, ◌≤◌, ◌<◌, ◌≡◌, refl, Bool, true, false, ◌&&◌, ◌||◌, Option, none, some,
  List, [], ◌∷◌, ltb, ◌==◌, arith, Bool-cases, Option-cases, inl, inr, length, length-drop, take,
  drop, Result, ok, err, ◌>>=◌,
}
use pg_eddy.Lexer.{Token, Failure, Message, hex_incomplete, octal_incomplete, Floats}
use pg_eddy.Common.Bytes.{eq_bytes}
use pg_eddy.Lexer.Chars.{codes, is_digit, is_octal, is_hexdigit, count_while, from_str_radix}
use pg_eddy.Lexer.Numbers.{
  radix_token, prefixed, Decimal, decimal_loop, decimal_token, number_of, number_token, sign,
}
use pg_eddy.Lexer.Guards.{peek, next_is-peek, and_also-ok, peek_digit, digit_next, digit_step-ok}
use pg_eddy.Lexer.Consumed.{Allowed, Progress, Fueled}

pub count_while-front :
    (test : ℕ → Bool) (b : ℕ) (rest : List ℕ) → test b ≡ true → 1 ≤ count_while test (b ∷ rest)
unfolding count_while
count_while-front test b rest h = rw h (omega arith)

-- With what is allowed of a panic.
module _ (P : Type 0) where
  pub ok-Progress {ℓ} : {A : Type ℓ} (a : A) (n : ℕ) → 1 ≤ n → Progress P (ok (a, n))
  unfolding Progress
  ok-Progress a n h = h

  radix_token-Fueled : (v : Option ℕ) → Fueled P (radix_token v)
  unfolding radix_token
  radix_token-Fueled none = tt
  radix_token-Fueled (some v) = elim (Bool-cases (ltb (2 ^ 63) v)) [
    | inl big ↦ rw big tt
    | inr small ↦ elim (Bool-cases (v == 2 ^ 63)) [
      | inl least ↦ rw (small, least) tt
      | inr less ↦ rw (small, less) tt
    ]
  ]

  prefixed-Progress :
      (is_one : ℕ → Bool) (radix : ℕ) (incomplete : Message) (bytes : List ℕ)
      → Progress P (prefixed is_one radix incomplete bytes)
  unfolding prefixed Progress
  prefixed-Progress is_one radix incomplete bytes =
      let size = count_while is_one (drop 2 bytes) in
      elim (Bool-cases (size == 0)) [
        | inl no_digit ↦ rw no_digit tt
        | inr digits ↦ rw digits (
            counted (radix_token (from_str_radix radix (2 ^ 64) (take size (drop 2 bytes))))
              (radix_token-Fueled (from_str_radix radix (2 ^ 64) (take size (drop 2 bytes)))))
      ]
    where
      counted :
          (r : Result Failure Token)
          → Fueled P r
          → Progress P (r >>= λ t. ok (t, 2 + count_while is_one (drop 2 bytes)))
      counted (ok t) h = omega arith
      counted (err f) h = h

  sign_short : (rest : List ℕ) → length (sign rest) ≤ length rest
  sign_short [] = omega arith
  sign_short (c ∷ cs) = elim (Bool-cases ((c == 43) || (c == 45))) [
    | inl signed ↦ rw signed (omega arith)
    | inr plain ↦ rw plain (omega arith)
  ]

  -- Each round of the loop over a number makes it longer, and no longer than the bytes.
  step-size :
      (left : List ℕ) (d d' : Decimal)
      → digit_next left d ≡ some d'
      → (d.size < d'.size) × (d'.size ≤ d.size + length left)
  unfolding digit_next
  step-size [] d d' e = absurd cc
  step-size (b ∷ rest) d d' e = let short = sign_short rest in ground arith

  -- What a loop over a number comes to, from a number of some size.
  abbrev pub Longer : ℕ → Result Failure Decimal → Type 0
  Longer size (ok d) = size ≤ d.size
  Longer size (err f) = Allowed P f

  longer : (r : Result Failure Decimal) {m n : ℕ} → m ≤ n → Longer n r → Longer m r
  longer (ok d') h k = omega arith
  longer (err f) h k = k

  decimal_loop-Longer :
      (fuel : ℕ) (bytes : List ℕ) (d : Decimal)
      → length bytes < fuel + d.size
      → d.size ≤ length bytes
      → Longer d.size (decimal_loop fuel bytes d)
  unfolding decimal_loop
  decimal_loop-Longer zero bytes d h within = absurd (omega arith)
  decimal_loop-Longer (suc fuel) bytes d h within =
      elim (Option-cases (digit_next (drop d.size bytes) d)) [
        | inl stop ↦ rw (digit_step-ok (drop d.size bytes) d, stop, decimal_loop) (omega arith)
        | inr (d', go) ↦
            let sizes = step-size (drop d.size bytes) d d' go in
            let left = length-drop d.size bytes in
            rw (digit_step-ok (drop d.size bytes) d, go, decimal_loop)
              (longer (decimal_loop fuel bytes d') (omega arith)
                (decimal_loop-Longer fuel bytes d' (omega arith) (omega arith)))
      ]

  first_step :
      (b : ℕ) (rest : List ℕ) (d : Decimal)
      → d.has_dot ≡ false
      → d.has_e ≡ false
      → is_digit b || ((b == 46) && peek is_digit rest) ≡ true
      → (d' : Decimal) × (digit_next (b ∷ rest) d ≡ some d')
  unfolding digit_next
  first_step b rest d dot e h = elim (Bool-cases (is_digit b)) [
    | inl digit ↦ rw digit (_, refl)
    | inr point ↦
        let is_dot : b == 46 ≡ true = grind arith in
        let digit : peek is_digit rest ≡ true = grind arith in
        let single = peek_digit rest digit in rw (point, is_dot, dot, e, single) (_, refl)
  ]

  -- A number takes a byte at least.
  decimal_loop-front :
      (b : ℕ) (rest : List ℕ)
      → is_digit b || ((b == 46) && peek is_digit rest) ≡ true
      → Longer 1 (
          decimal_loop
            (suc (length (b ∷ rest)))
            (b ∷ rest)
            (record { num_str = []; has_dot = false; has_e = false; size = 0 }))
  unfolding decimal_loop
  decimal_loop-front b rest h =
      let start : Decimal = record { num_str = []; has_dot = false; has_e = false; size = 0 } in
      let (d, go) = first_step b rest start refl refl h in
      let sizes = step-size (b ∷ rest) start d go in
      rw (digit_step-ok (b ∷ rest) start, go, decimal_loop)
        (longer (decimal_loop (length (b ∷ rest)) (b ∷ rest) d) (omega arith)
          (decimal_loop-Longer (length (b ∷ rest)) (b ∷ rest) d (omega arith) (omega arith)))

  module _ (floats : Floats) where
    decimal_token-Fueled : (d : Decimal) → Fueled P (decimal_token floats d)
    unfolding decimal_token
    decimal_token-Fueled d = elim (Bool-cases d.has_dot) [
      | inl float ↦ elim (Option-cases (floats.parse_f64 d.num_str)) [
        | inl bad ↦ rw (float, bad) tt
        | inr (v, good) ↦ elim (Bool-cases (floats.is_infinite v)) [
          | inl big ↦ rw (float, good, big) tt
          | inr finite ↦ rw (float, good, finite) tt
        ]
      ]
      | inr int ↦ elim (Option-cases (from_str_radix 10 (2 ^ 63) d.num_str)) [
        | inr (v, good) ↦ rw (int, good) tt
        | inl big ↦ elim (Bool-cases (eq_bytes d.num_str (codes "9223372036854775808"))) [
          | inl least ↦ rw (int, big, least) tt
          | inr bigger ↦ rw (int, big, bigger) tt
        ]
      ]
    ]

    counted :
        (r : Result Failure Token) (n : ℕ) → 1 ≤ n → Fueled P r → Progress P (r >>= λ t. ok (t, n))
    unfolding Progress
    counted (ok t) n h k = h
    counted (err f) n h k = k

    token :
        (r : Result Failure Decimal)
        → Longer 1 r
        → Progress P (r >>= λ d. decimal_token floats d >>= λ t. ok (t, d.size))
    unfolding Progress
    token (ok d) h = counted (decimal_token floats d) d.size h (decimal_token-Fueled d)
    token (err f) h = h

    number_of-Progress :
        (hex octal : Bool) (b : ℕ) (rest : List ℕ)
        → is_digit b || ((b == 46) && peek is_digit rest) ≡ true
        → Progress P (number_of floats hex octal (b ∷ rest))
    unfolding number_of
    number_of-Progress true octal b rest h =
        prefixed-Progress is_hexdigit 16 hex_incomplete (b ∷ rest)
    number_of-Progress false true b rest h =
        prefixed-Progress is_octal 8 octal_incomplete (b ∷ rest)
    number_of-Progress false false b rest h =
        token
          (decimal_loop (suc (length (b ∷ rest))) (b ∷ rest)
            (record { num_str = []; has_dot = false; has_e = false; size = 0 }))
          (decimal_loop-front b rest h)

    pub number_token-Progress :
        (b : ℕ) (rest : List ℕ)
        → is_digit b || ((b == 46) && peek is_digit rest) ≡ true
        → Progress P (number_token floats b rest)
    unfolding number_token
    number_token-Progress b rest h =
        let hex = λ (c : ℕ). (c == 120) || (c == 88) in
        let octal = λ (c : ℕ). (c == 111) || (c == 79) in
        rw
          (
            next_is-peek hex rest,
            next_is-peek octal rest,
            and_also-ok (b == 48) (peek hex rest),
            and_also-ok (b == 48) (peek octal rest),
          )
          (number_of-Progress ((b == 48) && peek hex rest) ((b == 48) && peek octal rest) b rest h)
