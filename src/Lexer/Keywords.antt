-- ===== src/Lexer/Keywords.antt =====
-- cypher/lexer.rs: identifiers and keywords.
use pg_eddy.Common.{ℕ, ◌+◌, Option, none, some, List, [], ◌∷◌, if◌then◌else◌, take, drop}
use pg_eddy.Common.Bytes.{eq_bytes}
use pg_eddy.Lexer.{
  Token, ident, kw_optional_match, kw_order_by, kw_match, kw_where, kw_return, kw_as, kw_distinct,
  kw_limit, kw_skip, kw_and, kw_or, kw_xor, kw_not, kw_in, kw_is, kw_null, kw_true, kw_false,
  kw_create, kw_delete, kw_detach, kw_set, kw_merge, kw_remove, kw_foreach, kw_on, kw_call,
  kw_yield, kw_with, kw_unwind, kw_case, kw_when, kw_then, kw_else, kw_end, kw_show, kw_index,
  kw_indexes, kw_drop, kw_constraint, kw_assert, kw_unique, kw_constraints,
}
use pg_eddy.Lexer.Chars.{codes, is_whitespace, is_alphabetic, is_word, to_upper, count_while}

-- The keywords of one word.
abbrev pub keywords : List (List ℕ × Token)
keywords =
    (codes "MATCH", kw_match)
    ∷ (codes "WHERE", kw_where)
    ∷ (codes "RETURN", kw_return)
    ∷ (codes "AS", kw_as)
    ∷ (codes "DISTINCT", kw_distinct)
    ∷ (codes "LIMIT", kw_limit)
    ∷ (codes "SKIP", kw_skip)
    ∷ (codes "AND", kw_and)
    ∷ (codes "OR", kw_or)
    ∷ (codes "XOR", kw_xor)
    ∷ (codes "NOT", kw_not)
    ∷ (codes "IN", kw_in)
    ∷ (codes "IS", kw_is)
    ∷ (codes "NULL", kw_null)
    ∷ (codes "TRUE", kw_true)
    ∷ (codes "FALSE", kw_false)
    ∷ (codes "CREATE", kw_create)
    ∷ (codes "DELETE", kw_delete)
    ∷ (codes "DETACH", kw_detach)
    ∷ (codes "SET", kw_set)
    ∷ (codes "MERGE", kw_merge)
    ∷ (codes "REMOVE", kw_remove)
    ∷ (codes "FOREACH", kw_foreach)
    ∷ (codes "ON", kw_on)
    ∷ (codes "CALL", kw_call)
    ∷ (codes "YIELD", kw_yield)
    ∷ (codes "WITH", kw_with)
    ∷ (codes "UNWIND", kw_unwind)
    ∷ (codes "CASE", kw_case)
    ∷ (codes "WHEN", kw_when)
    ∷ (codes "THEN", kw_then)
    ∷ (codes "ELSE", kw_else)
    ∷ (codes "END", kw_end)
    ∷ (codes "SHOW", kw_show)
    ∷ (codes "INDEX", kw_index)
    ∷ (codes "INDEXES", kw_indexes)
    ∷ (codes "DROP", kw_drop)
    ∷ (codes "CONSTRAINT", kw_constraint)
    ∷ (codes "ASSERT", kw_assert)
    ∷ (codes "UNIQUE", kw_unique)
    ∷ (codes "CONSTRAINTS", kw_constraints)
    ∷ []

unfoldable pub find_keyword : List ℕ → List (List ℕ × Token) → Option Token
find_keyword w [] = none
find_keyword w ((k, t) ∷ rest) =
    let next = find_keyword w rest in if eq_bytes w k then some t else next

-- A keyword of two words: how many bytes behind the first one belong to it.
unfoldable pub second_word : List ℕ → List ℕ → Option ℕ
unfolding count_while
second_word expected rest =
    let gap = count_while is_whitespace rest in
    let behind = drop gap rest in
    let size = count_while is_alphabetic behind in
    if eq_bytes (to_upper (take size behind)) expected then some (gap + size) else none

-- The token of the word at the front, and its length.
unfoldable pub word_token : List ℕ → Token × ℕ
unfolding count_while find_keyword second_word
word_token bytes =
    let n = count_while is_word bytes in
    let word = take n bytes in
    let rest = drop n bytes in
    let big = to_upper word in
    if eq_bytes big (codes "OPTIONAL")
    then elim (second_word (codes "MATCH") rest) [
      | none ↦ (ident word, n)
      | some k ↦ (kw_optional_match, n + k)
    ]
    else if eq_bytes big (codes "ORDER")
    then elim (second_word (codes "BY") rest) [
      | none ↦ (ident word, n)
      | some k ↦ (kw_order_by, n + k)
    ]
    else elim (find_keyword big keywords) [ none ↦ (ident word, n) | some t ↦ (t, n) ]
