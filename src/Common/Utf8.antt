-- ===== src/Common/Utf8.antt =====
-- Rust strings: byte lists that are UTF-8, with `str::from_utf8` and `String::from_utf8_lossy`.
use Prim.Native.Nat.{ℕ, zero, suc, ◌+◌}
use mathlib.Core.Path.{◌≡◌, refl, ap, ◌∙◌}
use mathlib.Core.Logic.{inl, inr, ◌⊎◌}
use mathlib.Core.Bool.{Bool, true, false, ◌&&◌}
use mathlib.Core.List.{List, [], ◌∷◌, ◌++◌}
use pg_eddy.Common.Tests.{ltb, leb, ◌==◌, if◌then◌else◌}
use pg_eddy.Common.Lists.{length, take, drop, take-append-drop}

-- What stands at the front: a character of so many bytes, or so many bytes that start none.
pub data Chunk : Type 0 where
  good : ℕ → Chunk
  bad : ℕ → Chunk

abbrev within : ℕ → ℕ → ℕ → Bool
within lo hi c = leb lo c && leb c hi

-- `k` bytes are read, and `n` continuation bytes must follow.
continuation : (n k : ℕ) → List ℕ → Chunk
continuation zero k bs = good k
continuation (suc n) k [] = bad k
continuation (suc n) k (c ∷ cs) =
    let rest = continuation n (k + 1) cs in if within 0x80 0xbf c then rest else bad k

-- The second byte excludes overlong forms, surrogates and values above 0x10ffff.
abbrev second_byte : ℕ → ℕ → Bool
second_byte b c =
    if b == 0xe0
    then within 0xa0 0xbf c
    else if b == 0xed
    then within 0x80 0x9f c
    else if b == 0xf0
    then within 0x90 0xbf c
    else if b == 0xf4
    then within 0x80 0x8f c
    else within 0x80 0xbf c

longer : (b n : ℕ) → List ℕ → Chunk
unfolding continuation
longer b n [] = bad 1
longer b n (c ∷ cs) = if second_byte b c then continuation n 2 cs else bad 1

unfoldable pub next_chunk : ℕ → List ℕ → Chunk
unfolding longer
next_chunk b bs =
    if ltb b 0x80
    then good 1
    else if within 0xc2 0xdf b
    then longer b 0 bs
    else if within 0xe0 0xef b
    then longer b 1 bs
    else if within 0xf0 0xf4 b
    then longer b 2 bs
    else bad 1

is_utf8_loop : ℕ → List ℕ → Bool
unfolding next_chunk
is_utf8_loop fuel [] = true
is_utf8_loop zero (b ∷ bs) = false
is_utf8_loop (suc fuel) (b ∷ bs) = elim (next_chunk b bs) [
  | good n ↦ is_utf8_loop fuel (drop n (b ∷ bs))
  | bad n ↦ false
]

-- `str::from_utf8` accepts exactly these. A round takes a byte at least.
unfoldable pub is_utf8 : List ℕ → Bool
unfolding is_utf8_loop
is_utf8 bs = is_utf8_loop (length bs) bs

lossy_loop : ℕ → List ℕ → List ℕ
unfolding next_chunk
lossy_loop fuel [] = []
lossy_loop zero (b ∷ bs) = []
lossy_loop (suc fuel) (b ∷ bs) = elim (next_chunk b bs) [
  | good n ↦ take n (b ∷ bs) ++ lossy_loop fuel (drop n (b ∷ bs))
  | bad n ↦ (0xef ∷ 0xbf ∷ 0xbd ∷ []) ++ lossy_loop fuel (drop n (b ∷ bs))
]

-- `String::from_utf8_lossy`: each bad chunk becomes U+FFFD.
unfoldable pub from_utf8_lossy : List ℕ → List ℕ
unfolding lossy_loop
from_utf8_lossy bs = lossy_loop (length bs) bs

abbrev pub IsUtf8 : List ℕ → Type 0
IsUtf8 bs = is_utf8 bs ≡ true

Chunk-cases : (c : Chunk) → ((n : ℕ) × (c ≡ good n)) ⊎ ((n : ℕ) × (c ≡ bad n))
Chunk-cases (good n) = inl (n, refl)
Chunk-cases (bad n) = inr (n, refl)

lossy_loop_self : (fuel : ℕ) (bs : List ℕ) → is_utf8_loop fuel bs ≡ true → lossy_loop fuel bs ≡ bs
unfolding is_utf8_loop lossy_loop
lossy_loop_self fuel [] h = refl
lossy_loop_self zero (b ∷ bs) h = cc
lossy_loop_self (suc fuel) (b ∷ bs) h = elim (Chunk-cases (next_chunk b bs)) [
  | inl (n, e) ↦
      rw (e, lossy_loop)
        (ap (λ t. take n (b ∷ bs) ++ t)
            (lossy_loop_self fuel (drop n (b ∷ bs)) (rw (e, is_utf8_loop) at h))
          ∙ take-append-drop n (b ∷ bs))
  | inr (n, e) ↦ absurd (stop n e)
]
  where
    stop : (n : ℕ) → next_chunk b bs ≡ bad n → ⊥
    stop n e = cc (let g : false ≡ true = rw (e, is_utf8_loop) at h in g)

-- On valid UTF-8 nothing is replaced.
pub from_utf8_lossy_self : (bs : List ℕ) → IsUtf8 bs → from_utf8_lossy bs ≡ bs
unfolding is_utf8 from_utf8_lossy
from_utf8_lossy_self bs h = lossy_loop_self (length bs) bs h

lossy_example :
    from_utf8_lossy (0x41 ∷ 0xe2 ∷ 0x82 ∷ 0x42 ∷ []) ≡ 0x41 ∷ 0xef ∷ 0xbf ∷ 0xbd ∷ 0x42 ∷ []
unfolding from_utf8_lossy
lossy_example = refl

lambda_IsUtf8 : IsUtf8 (0xce ∷ 0xbb ∷ [])
unfolding is_utf8
lambda_IsUtf8 = refl
