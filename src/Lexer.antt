-- ===== src/Lexer.antt =====
-- cypher/lexer.rs: the tokens of a Cypher query, and the errors of the lexer.
pub mod Chars
pub mod Strings
pub mod Numbers
pub mod Keywords
pub mod Step
pub mod Guards
pub mod Scan
pub mod Consumed
pub mod Numeric
pub mod Total
pub mod Spans
pub mod Panics
mod Tests
use pg_eddy.Common.{ℕ, Bool, List, Option}

-- `Token`; a float is its 64 bits. Text is its UTF-8 bytes.
pub data Token : Type 0 where
  kw_match : Token
  kw_optional_match : Token
  kw_where : Token
  kw_return : Token
  kw_as : Token
  kw_distinct : Token
  kw_order_by : Token
  kw_limit : Token
  kw_skip : Token
  kw_and : Token
  kw_or : Token
  kw_xor : Token
  kw_not : Token
  kw_in : Token
  kw_is : Token
  kw_null : Token
  kw_true : Token
  kw_false : Token
  kw_create : Token
  kw_delete : Token
  kw_detach : Token
  kw_set : Token
  kw_merge : Token
  kw_remove : Token
  kw_foreach : Token
  kw_on : Token
  kw_call : Token
  kw_yield : Token
  kw_with : Token
  kw_unwind : Token
  kw_case : Token
  kw_when : Token
  kw_then : Token
  kw_else : Token
  kw_end : Token
  kw_show : Token
  kw_index : Token
  kw_indexes : Token
  kw_drop : Token
  kw_constraint : Token
  kw_assert : Token
  kw_unique : Token
  kw_constraints : Token
  ident : List ℕ → Token
  string_lit : List ℕ → Token
  int_lit : ℕ → Token
  int_lit_big : Token
  float_lit : ℕ → Token
  parameter : List ℕ → Token
  l_paren : Token
  r_paren : Token
  l_bracket : Token
  r_bracket : Token
  l_brace : Token
  r_brace : Token
  colon : Token
  comma : Token
  dot : Token
  pipe : Token
  dot_dot : Token
  dash : Token
  l_arrow : Token
  r_arrow : Token
  eq : Token
  neq : Token
  lt : Token
  gt : Token
  le : Token
  ge : Token
  regex_match : Token
  plus : Token
  plus_eq : Token
  star : Token
  slash : Token
  percent : Token
  caret : Token
  eof : Token

-- `SpannedToken`
pub record SpannedToken : Type 0 where
  pub token : Token
  pub offset : ℕ

-- The messages of `LexError`.
pub data Message : Type 0 where
  unterminated_comment : Message
  unicode_short : Message
  unicode_not_hex : Message
  unicode_codepoint : Message
  hex_incomplete : Message
  octal_incomplete : Message
  integer_overflow : Message
  float_invalid : Message
  float_overflow : Message
  unexpected : ℕ → Message

-- How the lexing of one token fails: with an error, by a panic at a slice that does not begin at a
-- character, or, in the model alone, for want of fuel.
pub data Failure : Type 0 where
  message : Message → Failure
  panic : Failure
  out_of_fuel : Failure

-- `LexError`, with the same two other ways to fail.
pub record LexError : Type 0 where
  pub failure : Failure
  pub offset : ℕ

-- The standard library's reading of a float, as bits, and its test for infinity.
pub record Floats : Type 0 where
  pub parse_f64 : List ℕ → Option ℕ
  pub is_infinite : ℕ → Bool
