-- ===== src/Cdc/Cursor.antt =====
-- storage/cdc_protocol.rs: what the methods of `Reader` read back from bytes that lie at the cursor.
use Prim.Native.String.{String}
use pg_eddy.Common.{
  ℕ, ◌-◌, ◌^◌, ◌≤◌, ◌<◌, ◌≡◌, List, [], ◌++◌, append_assoc, append-nil, false, arith, ltb, le→ltb,
  length, length-append, take_append, drop_append, ok,
}
use pg_eddy.Common.Bytes.{be_bytes, length-be_bytes, from_be-be_bytes}
use pg_eddy.Common.Int.{ℤ, IsI64, to_bits, to_bits-lt, from_bits-to_bits}
use pg_eddy.Common.Utf8.{IsUtf8}
use pg_eddy.Cdc.{max_field_bytes}
use pg_eddy.Cdc.Reader.{
  Reader, Read, ◌>>=◌, pure, take_bytes, read_u16, read_u32, read_u64, read_i64, read_bytes,
  read_string,
}

-- A reader that has passed `front` and has `back` before it.
unfoldable pub cursor : List ℕ → List ℕ → Reader
cursor front back = record { payload = front ++ back; offset = length front }

-- Wherever `bs` lies at the cursor, `m` reads `a` from it and stops behind it.
abbrev pub Reads {ℓ} : {A : Type ℓ} → Read A → A → List ℕ → Type ℓ
Reads m a bs =
    (front back : List ℕ) → m (cursor front (bs ++ back)) ≡ ok (a, cursor (front ++ bs) back)

module _ {ℓ} {A : Type ℓ} where
  pub Reads-pure : (a : A) → Reads (pure a) a []
  Reads-pure a front back = rw (append-nil front)

  pub Reads-bind {κ} :
      {B : Type κ} (m : Read A) (f : A → Read B) {a : A} {b : B} (bs cs : List ℕ)
      → Reads m a bs
      → Reads (f a) b cs
      → Reads (m >>= f) b (bs ++ cs)
  Reads-bind m f bs cs h k front back =
      rw (append_assoc bs cs back, h front (cs ++ back), ← append_assoc front bs cs)
        (k (front ++ bs) back)

  -- The last step of a `do` block.
  pub Reads-map {κ} :
      {B : Type κ} (m : Read A) (f : A → B) {a : A} (bs : List ℕ)
      → Reads m a bs
      → Reads (m >>= λ x. pure (f x)) (f a) bs
  Reads-map m f bs h front back = rw (h front back)

Reads-take_bytes : (bs : List ℕ) → Reads (take_bytes (length bs)) bs bs
unfolding take_bytes cursor
Reads-take_bytes bs front back =
    let enough : ltb (length (front ++ (bs ++ back)) - length front) (length bs) ≡ false =
      le→ltb _ _ (omega (arith, length-append front (bs ++ back), length-append bs back)) in
    rw (
      enough,
      drop_append front (bs ++ back),
      take_append bs back,
      append_assoc front bs back,
      length-append front bs,
    )

-- The same where the length is known only through an equation.
pub Reads-take : (n : ℕ) (bs : List ℕ) → length bs ≡ n → Reads (take_bytes n) bs bs
Reads-take n bs e = rw (← e) (Reads-take_bytes bs)

pub Reads-read_u16 : (v : ℕ) → v < 2 ^ 16 → Reads read_u16 v (be_bytes 2 v)
unfolding read_u16
Reads-read_u16 v h front back =
    rw (Reads-take 2 (be_bytes 2 v) (length-be_bytes 2 v) front back, from_be-be_bytes 2 v h)

pub Reads-read_u32 : (v : ℕ) → v < 2 ^ 32 → Reads read_u32 v (be_bytes 4 v)
unfolding read_u32
Reads-read_u32 v h front back =
    rw (Reads-take 4 (be_bytes 4 v) (length-be_bytes 4 v) front back, from_be-be_bytes 4 v h)

pub Reads-read_u64 : (v : ℕ) → v < 2 ^ 64 → Reads read_u64 v (be_bytes 8 v)
unfolding read_u64
Reads-read_u64 v h front back =
    rw (Reads-take 8 (be_bytes 8 v) (length-be_bytes 8 v) front back, from_be-be_bytes 8 v h)

pub Reads-read_i64 : (v : ℤ) → IsI64 v → Reads read_i64 v (be_bytes 8 (to_bits (2 ^ 63) v))
unfolding read_i64
Reads-read_i64 v h front back =
    let w = to_bits (2 ^ 63) v in
    rw (
      Reads-take 8 (be_bytes 8 w) (length-be_bytes 8 w) front back,
      from_be-be_bytes 8 w (to_bits-lt (2 ^ 63) v h),
      from_bits-to_bits (2 ^ 63) v h,
    )

pub Reads-read_bytes :
    (name : String) (bs : List ℕ)
    → length bs ≤ max_field_bytes
    → Reads (read_bytes name) bs (be_bytes 4 (length bs) ++ bs)
unfolding read_bytes
Reads-read_bytes name bs h =
    Reads-bind read_u32 _ (be_bytes 4 (length bs)) bs (Reads-read_u32 (length bs) (omega arith))
      λ front back. rw (le→ltb max_field_bytes (length bs) h) (Reads-take_bytes bs front back)

pub Reads-read_string :
    (name : String) (bs : List ℕ)
    → length bs ≤ max_field_bytes
    → IsUtf8 bs
    → Reads (read_string name) bs (be_bytes 4 (length bs) ++ bs)
unfolding read_string
Reads-read_string name bs h valid front back = rw (Reads-read_bytes name bs h front back, valid)
