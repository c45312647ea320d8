-- ===== src/Lexer/Chars.antt =====
-- cypher/lexer.rs: the tests on bytes, and the standard library's functions that the lexer calls.
use pg_eddy.Common.{
  take, ℕ, suc, ◌+◌, ◌-◌, ◌*◌, ◌/◌, ◌%◌, Bool, not, ◌&&◌, ◌||◌, Option, none, some, List, [], ◌∷◌,
  ltb, leb, ◌==◌, if◌then◌else◌, map, Result, ok, err, ◌>>=◌, zero, true, false, length,
}
use pg_eddy.Lexer.{Failure, panic}
use Prim.Native.Char.{code}
use Prim.Native.String.{String}

-- The bytes of an ASCII text.
abbrev pub codes : String → List ℕ
codes String.[] = []
codes (String.◌∷◌ c s) = code c ∷ codes s

abbrev pub within : (lo hi c : ℕ) → Bool
within lo hi c = leb lo c && leb c hi

abbrev pub is_whitespace : ℕ → Bool
is_whitespace c = (c == 32) || (c == 9) || (c == 10) || (c == 12) || (c == 13)

abbrev pub is_digit : ℕ → Bool
is_digit c = within 48 57 c

abbrev pub is_octal : ℕ → Bool
is_octal c = within 48 55 c

abbrev pub is_alphabetic : ℕ → Bool
is_alphabetic c = within 65 90 c || within 97 122 c

-- `is_ascii_alphanumeric() || b == b'_'`
abbrev pub is_word : ℕ → Bool
is_word c = is_alphabetic c || is_digit c || (c == 95)

abbrev pub is_hexdigit : ℕ → Bool
is_hexdigit c = is_digit c || within 65 70 c || within 97 102 c

abbrev pub upper : ℕ → ℕ
upper c = if within 97 122 c then c - 32 else c

-- `to_ascii_uppercase`
abbrev pub to_upper : List ℕ → List ℕ
to_upper w = map upper w

-- `while pos < len && test(bytes[pos]) { pos += 1; }`: how far it goes.
unfoldable pub count_while : (ℕ → Bool) → List ℕ → ℕ
count_while test [] = 0
count_while test (b ∷ bs) = let more = suc (count_while test bs) in if test b then more else 0

-- The value of a digit, 36 where it is none.
abbrev pub digit_value : ℕ → ℕ
digit_value c =
    if is_digit c
    then c - 48
    else if within 65 90 c
    then c - 55
    else if within 97 122 c
    then c - 87
    else 36

-- The digits of a number, most significant first: each below the radix, the value below the bound.
unfoldable pub radix_digits : (radix bound acc : ℕ) → List ℕ → Option ℕ
radix_digits radix bound acc [] = some acc
radix_digits radix bound acc (c ∷ cs) =
    let next = acc * radix + digit_value c in
    let rest = radix_digits radix bound next cs in
    if not (ltb (digit_value c) radix) then none else if not (ltb next bound) then none else rest

-- `from_str_radix`: one digit at least, behind an optional plus sign.
unfoldable pub from_str_radix : (radix bound : ℕ) → List ℕ → Option ℕ
unfolding radix_digits
from_str_radix radix bound [] = none
from_str_radix radix bound (c ∷ cs) = elim cs [
  | [] ↦ radix_digits radix bound 0 (c ∷ [])
  | d ∷ ds ↦
      if c == 43
      then radix_digits radix bound 0 (d ∷ ds)
      else radix_digits radix bound 0 (c ∷ d ∷ ds)
]

-- `char::from_u32`
abbrev pub is_char : ℕ → Bool
is_char cp = ltb cp 0xd800 || (ltb 0xdfff cp && ltb cp 0x110000)

-- `String::push`: the UTF-8 bytes of a character.
unfoldable pub encode_utf8 : ℕ → List ℕ
encode_utf8 cp =
    if ltb cp 0x80
    then cp ∷ []
    else if ltb cp 0x800
    then (0xc0 + cp / 64) ∷ (0x80 + cp % 64) ∷ []
    else if ltb cp 0x10000
    then (0xe0 + cp / 4096) ∷ (0x80 + cp / 64 % 64) ∷ (0x80 + cp % 64) ∷ []
    else (0xf0 + cp / 262144)
      ∷ (0x80 + cp / 4096 % 64)
      ∷ (0x80 + cp / 64 % 64)
      ∷ (0x80 + cp % 64)
      ∷ []

-- `input[pos..]` panics where a character goes on.
abbrev pub is_boundary : ℕ → Bool
is_boundary b = not (within 0x80 0xbf b)

-- `len_utf8` of the character that begins with a byte.
abbrev pub len_utf8 : ℕ → ℕ
len_utf8 b = if ltb b 0x80 then 1 else if ltb b 0xe0 then 2 else if ltb b 0xf0 then 3 else 4

-- `bytes[pos + i]`, given the bytes from `pos` on: it panics behind the end.
unfoldable pub index : List ℕ → ℕ → Result Failure ℕ
index [] i = err panic
index (b ∷ bs) zero = ok b
index (b ∷ bs) (suc i) = index bs i

-- `&bytes[pos..pos + n]`, which panics where it goes on behind the end.
unfoldable pub bytes_to : ℕ → List ℕ → Result Failure (List ℕ)
bytes_to n bytes = if ltb (length bytes) n then err panic else ok (take n bytes)

-- `&&`, of which the second part is looked at only if the first one holds.
abbrev pub and_also : Bool → Result Failure Bool → Result Failure Bool
and_also true m = m
and_also false m = ok false

-- `pos + 1 < len && test(bytes[pos + 1])`, given the bytes behind `pos`.
unfoldable pub next_is : (ℕ → Bool) → List ℕ → Result Failure Bool
unfolding index
next_is test rest = and_also (ltb 0 (length rest)) (index rest 0 >>= λ c. ok (test c))
