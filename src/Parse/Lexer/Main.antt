-- ===== src/Parse/Lexer/Main.antt =====
-- lexImpl, the constructor, lex, peekNextToken, getTokenKind and getLocForEndOfToken
-- (lib/Parse/Lexer.cpp, include/swift/Parse/Lexer.h).
use b1c3995fdcf53d46308da.Base.{
  asserting, ℕ, ◌+◌, ◌||◌, ◌==◌, within, if◌then◌else◌, Option, none, some, [], ◌∷◌, Bytes, length,
  Step, again, done, iterate, ◌>>=◌,
}
use b1c3995fdcf53d46308da.Parse.Chars.{is_digit}
use b1c3995fdcf53d46308da.Parse.Token.{
  Tok, Token, is_not, unknown, eof, l_paren_space, l_paren, r_paren, l_brace, r_brace,
  l_square_space, l_square, r_square, period, comma, colon, semi, ellipsis,
}
use b1c3995fdcf53d46308da.Parse.Lexer.State.{
  in_range, Log, diagnose, Lexer, same_ptr, form_token, is_preceded_by_space, lex_nul_character,
  lex_invalid_character,
}
use b1c3995fdcf53d46308da.Parse.Lexer.Comments.{skip_slash_slash_comment, skip_slash_star_comment}
use b1c3995fdcf53d46308da.Parse.Lexer.Identifiers.{lex_identifier, lex_dollar_ident}
use b1c3995fdcf53d46308da.Parse.Lexer.Operators.{form_operator_token, lex_operator_identifier}
use b1c3995fdcf53d46308da.Parse.Lexer.Numbers.{lex_number}
use b1c3995fdcf53d46308da.Parse.Lexer.Characters.{lex_character_literal}
use b1c3995fdcf53d46308da.Parse.Lexer.Strings.{lex_string_literal}

-- The cases of the `switch` of `lexImpl`.
pub data Start : Type 0 where
  other whitespace nul open_paren close_paren open_square dot slash : Start
  punctuation : Tok → Start
  operator letter dollar digit quote double_quote : Start

-- The case of a first byte.
unfoldable pub start_of : ℕ → Start
start_of c =
    if c == b' ' || c == b'\t' || c == b'\n' || c == b'\r'
    then whitespace
    else if c == 0
    then nul
    else if within b'a' b'z' c || within b'A' b'Z' c || c == b'_'
    then letter
    else if within b'0' b'9' c
    then digit
    else if c == b'('
    then open_paren
    else if c == b')'
    then close_paren
    else if c == b'{'
    then punctuation l_brace
    else if c == b'}'
    then punctuation r_brace
    else if c == b'['
    then open_square
    else if c == b']'
    then punctuation r_square
    else if c == b'.'
    then dot
    else if c == b','
    then punctuation comma
    else if c == b';'
    then punctuation semi
    else if c == b':'
    then punctuation colon
    else if c == b'/'
    then slash
    else if c == b'='
        || c == b'-'
        || c == b'+'
        || c == b'*'
        || c == b'%'
        || c == b'<'
        || c == b'>'
        || c == b'!'
        || c == b'&'
        || c == b'|'
        || c == b'^'
        || c == b'~'
    then operator
    else if c == b'$'
    then dollar
    else if c == b'\''
    then quote
    else if c == b'"'
    then double_quote
    else other

abbrev finish : Option Lexer → Option (Step Lexer Lexer)
finish m = m >>= λ l. some (done l)

abbrev restart : Option Lexer → Option (Step Lexer Lexer)
restart m = m >>= λ l. some (again l)

-- `case '.'`, on the pointer behind the point.
unfoldable pub lex_dot : Bytes → Lexer → Bytes → Option Lexer
unfolding lex_number form_operator_token is_digit
lex_dot tok_start l [] = none
lex_dot tok_start l (c ∷ []) =
    if is_digit c
    then lex_number tok_start l
    else if c == b'.'
    then none
    else some (form_token period tok_start l)
lex_dot tok_start l (c ∷ d ∷ r) =
    if is_digit c
    then lex_number tok_start l
    else if c == b'.'
    then (if d == b'.'
        then some (form_token ellipsis tok_start (record l { cur_ptr = r }))
        else form_operator_token tok_start (record l { cur_ptr = d ∷ r }))
    else some (form_token period tok_start l)

-- `case '/'`, on the pointer behind the slash: a comment, or an operator.
unfoldable pub lex_slash : Bytes → Lexer → Bytes → Option (Step Lexer Lexer)
unfolding skip_slash_slash_comment skip_slash_star_comment lex_operator_identifier
lex_slash tok_start l [] = none
lex_slash tok_start l (c ∷ r) =
    if c == b'/'
    then restart (skip_slash_slash_comment tok_start l)
    else if c == b'*'
    then restart (skip_slash_star_comment tok_start l)
    else finish (lex_operator_identifier tok_start l)

-- The `switch`, on the first byte's case; `CurPtr` stands behind that byte.
unfoldable pub dispatch : Start → Bytes → Lexer → Option (Step Lexer Lexer)
unfolding is_preceded_by_space lex_dot lex_slash lex_operator_identifier lex_identifier
    lex_dollar_ident lex_number lex_character_literal lex_string_literal
dispatch other tok_start l = some (
    done (
      form_token unknown tok_start
        (record l { log = diagnose l.log tok_start lex_invalid_character })))
dispatch whitespace tok_start l = some (again l)
dispatch nul tok_start l =
    if same_ptr tok_start l.buffer_end
    then some (done (form_token eof tok_start l))
    else some (again (record l { log = diagnose l.log tok_start lex_nul_character }))
dispatch open_paren tok_start l = do
  spaced ← is_preceded_by_space tok_start l
  some (done (form_token (if spaced then l_paren_space else l_paren) tok_start l))
dispatch close_paren tok_start l =
    some (done (form_token (if same_ptr tok_start l.buffer_end then eof else r_paren) tok_start l))
dispatch open_square tok_start l = do
  spaced ← is_preceded_by_space tok_start l
  some (done (form_token (if spaced then l_square_space else l_square) tok_start l))
dispatch dot tok_start l = finish (lex_dot tok_start l l.cur_ptr)
dispatch slash tok_start l = lex_slash tok_start l l.cur_ptr
dispatch (punctuation k) tok_start l = some (done (form_token k tok_start l))
dispatch operator tok_start l = finish (lex_operator_identifier tok_start l)
dispatch letter tok_start l = finish (lex_identifier tok_start l)
dispatch dollar tok_start l = finish (lex_dollar_ident tok_start l)
dispatch digit tok_start l = finish (lex_number tok_start l)
dispatch quote tok_start l = finish (lex_character_literal tok_start l)
dispatch double_quote tok_start l = finish (lex_string_literal tok_start l)

-- From the label `Restart` to a token or to the next `goto Restart`.
unfoldable pub lex_round : Lexer → Bytes → Option (Step Lexer Lexer)
unfolding start_of dispatch
lex_round l [] = none
lex_round l (c ∷ r) = dispatch (start_of c) (c ∷ r) (record l { cur_ptr = r })

-- `lexImpl`
unfoldable pub lex_impl : Lexer → Option Lexer
unfolding iterate lex_round
lex_impl l =
    asserting (in_range l.buffer_start l.buffer_end l.cur_ptr)
      (iterate (length l.cur_ptr + 1) (λ l. lex_round l l.cur_ptr) l)

abbrev pub no_token : Token
no_token = record { kind = unknown; text = record { start = []; size = 0 } }

-- The constructor: a lexer at `cur_ptr`, primed with its first token.
unfoldable pub new_lexer : Bytes → Bytes → Bytes → Log → Option Lexer
unfolding lex_impl
new_lexer buffer_start buffer_end cur_ptr log =
    asserting (in_range buffer_start buffer_end cur_ptr) (
      lex_impl (record {
        buffer_start = buffer_start;
        buffer_end = buffer_end;
        cur_ptr = cur_ptr;
        next_token = no_token;
        log = log;
      }))

-- `lex`: the next token, and the lexer after it.
unfoldable pub lex : Lexer → Option (Token × Lexer)
unfolding lex_impl
lex l =
    if is_not l.next_token eof
    then (lex_impl l >>= λ l'. some (l.next_token, l'))
    else some (l.next_token, l)

-- `peekNextToken`
abbrev pub peek_next_token : Lexer → Token
peek_next_token l = l.next_token

-- `getTokenKind` of the text that begins at a pointer into the buffer; its lexer reports to the
-- same engine.
unfoldable pub get_token_kind : Lexer → Bytes → Option (Tok × Log)
unfolding new_lexer lex
get_token_kind l text = asserting (in_range l.buffer_start l.buffer_end text) (do
  inner ← new_lexer l.buffer_start l.buffer_end text l.log
  (result, inner') ← lex inner
  some (result.kind, inner'.log))

-- `getLocForEndOfToken` of a location in a buffer, as a distance behind the location.
unfoldable pub end_of_token_offset : Bytes → Bytes → Bytes → Option ℕ
unfolding new_lexer
end_of_token_offset buffer_start buffer_end loc = do
  l ← new_lexer buffer_start buffer_end loc none
  some (peek_next_token l).text.size
