-- ===== src/Common/Outcome.antt =====
-- Rust's `Result` with its `?` operator as `do` blocks.
use mathlib.Core.Path.{◌≡◌, refl}
use mathlib.Core.Bool.{Bool, true, false}
use mathlib.Core.Option.{Option, none, some}
use mathlib.Core.Logic.{◌⊎◌, inl, inr}

pub data Result {ℓ κ} (E : Type ℓ) (A : Type κ) : Type (ℓ ⊔ κ) where
  ok : A → Result E A
  err : E → Result E A

abbrev pub and_then {ℓ κ ι} :
    {E : Type ℓ} {A : Type κ} {B : Type ι} → Result E A → (A → Result E B) → Result E B
and_then (err problem) next = err problem
and_then (ok x) next = next x

infixl 5 ◌>>=◌ ◌>>◌
abbrev pub ◌>>=◌ {ℓ κ ι} :
    {E : Type ℓ} {A : Type κ} {B : Type ι} → Result E A → (A → Result E B) → Result E B
r >>= next = and_then r next

abbrev pub ◌>>◌ {ℓ ι} : {E : Type ℓ} {B : Type ι} → Result E (Unit {0}) → Result E B → Result E B
r >> next = r >>= λ done. next

-- An early `return Err(e)` where the test holds.
abbrev pub fail_if {ℓ} : {E : Type ℓ} → Bool → E → Result E (Unit {0})
fail_if true e = err e
fail_if false e = ok tt

-- A chain of options, for loops on fuel.
abbrev pub option_then {ℓ κ} : {A : Type ℓ} {B : Type κ} → Option A → (A → Option B) → Option B
option_then none f = none
option_then (some a) f = f a

pub option_then-eq-some {ℓ κ} :
    {A : Type ℓ} {C : Type κ} (found : Option A) (next : A → Option C) {c : C}
    (e : option_then found next ≡ some c)
    → (x : A) × (found ≡ some x) × (next x ≡ some c)
option_then-eq-some (some x) next e = (x, refl, e)
option_then-eq-some none next e = cc

module _ {ℓ κ} {E : Type ℓ} {A : Type κ} where
  pub Result-cases : (r : Result E A) → ((a : A) × (r ≡ ok a)) ⊎ ((e : E) × (r ≡ err e))
  Result-cases (ok a) = inl (a, refl)
  Result-cases (err e) = inr (e, refl)

  pub >>=-eq-ok {ι} :
      {C : Type ι} (r : Result E A) (next : A → Result E C) {c : C} (e : (r >>= next) ≡ ok c)
      → (x : A) × (r ≡ ok x) × (next x ≡ ok c)
  >>=-eq-ok (err problem) next e = cc
  >>=-eq-ok (ok x) next e = (x, refl, e)
