-- ===== src/Parse/Parser.antt =====
-- The token stream of the parser and its recovery loops (lib/Parse/Parser.cpp,
-- lib/Parse/Parser.h, and the token tests of lib/Parse/ParseStmt.cpp).
pub mod Recovery
use b1c3995fdcf53d46308da.Base.{
  ℕ, ◌+◌, ◌-◌, Bool, true, false, not, ◌&&◌, ◌||◌, ◌==◌, if◌then◌else◌, Option, none, some, [], ◌∷◌,
  Bytes, length, take, drop, Step, again, done, iterate, ◌>>=◌,
}
use b1c3995fdcf53d46308da.Parse.Token.{
  Tok, StringRef, Token, code, is, is_not, is_any_operator, is_any_l_square, unknown, eof,
  identifier, kw_extension, kw_func, kw_import, kw_oneof, kw_protocol, kw_struct, kw_typealias,
  kw_var, kw_class, kw_constructor, kw_destructor, kw_static, kw_subscript, r_brace, semi, l_brace,
  kw_return, kw_if, kw_while, kw_do, kw_for, kw_break, kw_continue,
}
use b1c3995fdcf53d46308da.Parse.Lexer.State.{Lexer, load, diagnose, parse_message}
use b1c3995fdcf53d46308da.Parse.Lexer.Main.{lex, peek_next_token, get_token_kind}

-- What the parser's token functions work on: the lexer `L` and the current token `Tok`.
pub record Parser : Type 0 where
  pub lexer : Lexer
  pub tok : Token

-- `peekToken`
abbrev pub peek_token : Parser → Token
peek_token p = peek_next_token p.lexer

-- `consumeToken`: the location of the current token, and the parser at the next one. At the end
-- of the file the assertion fails.
unfoldable pub consume_token : Parser → Option (Bytes × Parser)
consume_token p =
    if is p.tok eof
    then none
    else (lex p.lexer >>= λ t. some (p.tok.text.start, record { lexer = t.1; tok = t.0 }))

-- `consumeToken(K)`
unfoldable pub consume_token_kind : Tok → Parser → Option (Bytes × Parser)
unfolding consume_token
consume_token_kind k p = if is p.tok k then consume_token p else none

-- `consumeIf`
unfoldable pub consume_if : Tok → Parser → Option (Bool × Parser)
unfolding consume_token_kind
consume_if k p =
    if is_not p.tok k then some (false, p) else (consume_token_kind k p >>= λ t. some (true, t.1))

-- `startsWithLess` and `startsWithGreater`, at their character.
unfoldable pub starts_with : ℕ → Token → Option Bool
starts_with c t =
    if is_any_operator t then (load t.text.start >>= λ d. some (d == c)) else some false

-- `consumeStartingLess` and `consumeStartingGreater`, at their character: a longer operator loses
-- its first character, and what is left is classified anew.
unfoldable pub consume_starting : ℕ → Parser → Option (Bytes × Parser)
unfolding starts_with consume_token get_token_kind
consume_starting c p = do
  starts ← starts_with c p.tok
  let remaining : StringRef = record { start = drop 1 p.tok.text.start; size = p.tok.text.size - 1 }
  if not starts
      then none
      else if p.tok.text.size == 1
      then consume_token p
      else (get_token_kind p.lexer remaining.start >>= λ t. some (
        p.tok.text.start,
        record {
          lexer = record p.lexer { log = t.1 };
          tok = record { kind = t.0; text = remaining };
        },
      ))

-- `while (!stop) consumeToken();`. Each token takes a byte of the buffer at least, but for the
-- current one and the one that the lexer holds.
unfoldable pub skip_round : (Parser → Bool) → Parser → Option (Step Parser Parser)
skip_round stop p = if stop p then some (done p) else (consume_token p >>= λ t. some (again t.1))

unfoldable pub skip_to : (Parser → Bool) → Parser → Option Parser
unfolding iterate skip_round
skip_to stop p = iterate (length p.lexer.cur_ptr + 3) (skip_round stop) p

-- `skipUntil`; `unknown` for both kinds means not to skip.
unfoldable pub skip_until : Tok → Tok → Parser → Option Parser
unfolding skip_to
skip_until t1 t2 p =
    if code t1 == code unknown && code t2 == code unknown
    then some p
    else skip_to (λ p. is p.tok eof || is p.tok t1 || is p.tok t2) p

-- `skipUntilAnyOperator`
unfoldable pub skip_until_any_operator : Parser → Option Parser
unfolding skip_to
skip_until_any_operator = skip_to (λ p. is p.tok eof || is_any_operator p.tok)

-- `isStartOfStmtOtherThanAssignment`
unfoldable pub is_start_of_stmt_other_than_assignment : Token → Bool
is_start_of_stmt_other_than_assignment t =
    is t semi
    || is t l_brace
    || is t kw_return
    || is t kw_if
    || is t kw_while
    || is t kw_do
    || is t kw_for
    || is t kw_break
    || is t kw_continue

-- `isFuncExpr`
unfoldable pub is_func_expr : Token → Token → Bool
is_func_expr t1 t2 =
    is t1 kw_func && is_not t2 identifier && not (is_any_operator t2) && not (is_any_l_square t2)

-- The text of a token is "<".
abbrev is_less : Token → Bool
is_less t = t.text.size == 1 && (elim (load t.text.start) [ some c ↦ c == b'<' | none ↦ false ])

-- `isStartOfDecl`
unfoldable pub is_start_of_decl : Token → Token → Bool
unfolding is_func_expr
is_start_of_decl t t2 =
    if is t kw_func
    then not (is_func_expr t t2)
    else if is t kw_static
    then is t2 kw_func
    else if is t kw_extension
        || is t kw_var
        || is t kw_typealias
        || is t kw_oneof
        || is t kw_struct
        || is t kw_class
        || is t kw_import
        || is t kw_subscript
        || is t kw_constructor
        || is t kw_destructor
    then true
    else is t kw_protocol && not (is_any_operator t2 && is_less t2)

-- `skipUntilDeclRBrace`
unfoldable pub skip_until_decl_r_brace : Parser → Option Parser
unfolding skip_to
skip_until_decl_r_brace = skip_to (λ p. is p.tok eof || is_start_of_decl p.tok (peek_token p))

-- `skipUntilDeclStmtRBrace`
unfoldable pub skip_until_decl_stmt_r_brace : Parser → Option Parser
unfolding skip_to
skip_until_decl_stmt_r_brace = skip_to (λ p.
    is p.tok eof
    || is_start_of_stmt_other_than_assignment p.tok
    || is_start_of_decl p.tok (peek_token p))

-- `diagnose`
abbrev pub report : Bytes → ℕ → Parser → Parser
report loc id p = record p {
  lexer = record p.lexer { log = diagnose p.lexer.log loc (parse_message id) };
}

-- `parseIdentifier`: the name, if the current token is an identifier.
unfoldable pub parse_identifier : ℕ → Parser → Option (Option StringRef × Parser)
unfolding consume_token_kind
parse_identifier id p =
    if is p.tok identifier
    then (consume_token_kind identifier p >>= λ t. some (some p.tok.text, t.1))
    else some (none, report p.tok.text.start id p)

-- `parseAnyIdentifier`
unfoldable pub parse_any_identifier : ℕ → Parser → Option (Option StringRef × Parser)
unfolding consume_token
parse_any_identifier id p =
    if is p.tok identifier || is_any_operator p.tok
    then (consume_token p >>= λ t. some (some p.tok.text, t.1))
    else some (none, report p.tok.text.start id p)

-- The end of the recovery of `parseToken`: the missing token is consumed where it was found.
unfoldable pub consume_found : Tok → Tok → Parser → Option Parser
unfolding consume_token
consume_found k skip_to_tok p =
    if code k == code skip_to_tok && is p.tok skip_to_tok
    then (consume_token p >>= λ t. some t.1)
    else some p

-- `parseToken`: the location of the token, or nothing after the recovery from an error.
unfoldable pub parse_token : Tok → ℕ → Tok → Parser → Option (Option Bytes × Parser)
unfolding consume_token_kind skip_until consume_found
parse_token k id skip_to_tok p =
    if is p.tok k then (consume_token_kind k p >>= λ t. some (some t.0, t.1)) else (do
      q ← skip_until skip_to_tok unknown (report p.tok.text.start id p)
      q' ← consume_found k skip_to_tok q
      some (none, q'))

-- `parseMatchingToken`: an error is followed by a note at the other location.
unfoldable pub parse_matching_token :
    Tok → ℕ → Bytes → ℕ → Tok → Parser → Option (Option Bytes × Parser)
unfolding parse_token
parse_matching_token k error_id other_loc note_id skip_to_tok p = do
  (found, q) ← parse_token k error_id skip_to_tok p
  some (found, elim found [ some loc ↦ q | none ↦ report other_loc note_id q ])
