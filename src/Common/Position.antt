-- ===== src/Common/Position.antt =====
-- Positions in a byte slice: what lies from an index on.
use Prim.Native.Nat.{ℕ, zero, suc, ◌+◌, ◌<◌}
use mathlib.Core.Path.{◌≡◌, refl, sym, ap, ◌∙◌}
use mathlib.Core.Bool.{true, false}
use mathlib.Core.List.{List, [], ◌∷◌, ◌++◌}
use native.Mathlib.Omega.{arith}
use pg_eddy.Common.Tests.{ltb, leb, lt→ltb, le→leb}
use pg_eddy.Common.Lists.{length, length-append, take, drop, take_append, drop_append, get_or}

-- From index `p` on, `bytes` are `rest`, and `p` is no index behind the end.
pub record At (bytes : List ℕ) (p : ℕ) (rest : List ℕ) : Type 0 where
  pub from_here : drop p bytes ≡ rest
  pub size : length bytes ≡ p + length rest

drop_nil : (n : ℕ) → drop {A = ℕ} n [] ≡ []
drop_nil zero = refl
drop_nil (suc n) = refl

pub drop_add : (a b c : ℕ) (xs : List ℕ) → c ≡ a + b → drop c xs ≡ drop b (drop a xs)
drop_add zero b c xs e = ap (λ n. drop n xs) (omega arith)
drop_add (suc a) b zero xs e = absurd (omega arith)
drop_add (suc a) b (suc c) [] e = sym (drop_nil b)
drop_add (suc a) b (suc c) (x ∷ xs) e = drop_add a b c xs (omega arith)

get_or-drop : (p : ℕ) (xs : List ℕ) (d : ℕ) → get_or xs p d ≡ get_or (drop p xs) 0 d
get_or-drop zero xs d = refl
get_or-drop (suc p) [] d = refl
get_or-drop (suc p) (x ∷ xs) d = get_or-drop p xs d

pub At-start : (bytes : List ℕ) → At bytes 0 bytes
At-start bytes = record { from_here = refl; size = omega arith }

module _ {bytes : List ℕ} {p : ℕ} where
  pub At-move :
      (bs : List ℕ) {rest : List ℕ} (q : ℕ)
      → At bytes p (bs ++ rest)
      → q ≡ p + length bs
      → At bytes q rest
  At-move bs {rest} q h e = record {
    from_here =
        drop_add p (length bs) q bytes e ∙ ap (drop (length bs)) h.from_here ∙ drop_append bs rest;
    size = omega (arith, h.size, length-append bs rest);
  }

  pub At-get : {b : ℕ} {rest : List ℕ} → At bytes p (b ∷ rest) → get_or bytes p 0 ≡ b
  At-get h = get_or-drop p bytes 0 ∙ ap (λ t. get_or t 0 0) h.from_here

  pub At-slice :
      (bs rest : List ℕ) (n : ℕ)
      → At bytes p (bs ++ rest)
      → n ≡ length bs
      → take n (drop p bytes) ≡ bs
  At-slice bs rest n h e = rw (h.from_here, e) (take_append bs rest)

  -- The bounds tests of the code pass where the bytes are there.
  pub At-fits :
      (bs rest : List ℕ) (q : ℕ)
      → At bytes p (bs ++ rest)
      → q ≡ p + length bs
      → leb q (length bytes) ≡ true
  At-fits bs rest q h e = le→leb _ _ (omega (arith, h.size, length-append bs rest))

  pub At-inside :
      {b : ℕ} {rest : List ℕ}
      → At bytes p (b ∷ rest)
      → (ltb p (length bytes) ≡ true) × (leb (length bytes) p ≡ false)
  At-inside {b} {rest} h =
      let s : p < length bytes = omega (arith, h.size) in (lt→ltb _ _ s, ground arith)
