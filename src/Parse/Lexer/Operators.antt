-- ===== src/Parse/Lexer/Operators.antt =====
-- Operators: isLeftBound, isRightBound, formOperatorToken and lexOperatorIdentifier
-- (lib/Parse/Lexer.cpp).
use b1c3995fdcf53d46308da.Base.{
  ℕ, Bool, true, false, not, ◌&&◌, ◌||◌, ◌==◌, if◌then◌else◌, Option, none, some, [], ◌∷◌, Bytes,
  ◌>>=◌,
}
use b1c3995fdcf53d46308da.Parse.Chars.{is_operator_char}
use b1c3995fdcf53d46308da.Parse.Token.{
  Tok, contents, between, oper_binary, oper_prefix, oper_postfix, equal, arrow,
}
use b1c3995fdcf53d46308da.Parse.Lexer.State.{Lexer, load, same_ptr, dec_ptr, skip_while, form_token}

-- Whitespace and the separators, which bind on neither side.
abbrev pub is_gap : ℕ → Bool
is_gap c = c == b' ' || c == b'\r' || c == b'\n' || c == b'\t' || c == b',' || c == b';'

-- `isLeftBound`
unfoldable pub is_left_bound : Bytes → Bytes → Option Bool
unfolding dec_ptr
is_left_bound tok_begin buffer_begin = if same_ptr tok_begin buffer_begin then some false else (do
  c ← load (dec_ptr buffer_begin tok_begin)
  some (not (is_gap c || c == b'(' || c == b'[' || c == b'{')))

-- `isRightBound`
unfoldable pub is_right_bound : Bytes → Option Bool
is_right_bound tok_end = do
  c ← load tok_end
  some (not (is_gap c || c == b')' || c == b']' || c == b'}' || c == 0))

-- Binary if both sides are bound or neither is, else postfix if left-bound, else prefix.
unfoldable pub operator_kind : Bool → Bool → Tok
operator_kind true true = oper_binary
operator_kind false false = oper_binary
operator_kind true false = oper_postfix
operator_kind false true = oper_prefix

-- `formOperatorToken`
unfoldable pub form_operator_token : Bytes → Lexer → Option Lexer
unfolding is_left_bound is_right_bound operator_kind
form_operator_token tok_start l = do
  left_bound ← is_left_bound tok_start l.buffer_start
  right_bound ← is_right_bound l.cur_ptr
  some (form_token (operator_kind left_bound right_bound) tok_start l)

-- The reserved words among the operators, `=` and `->`; any other operator is formed by its sides.
unfoldable pub reserved_operator : Bytes → Option Tok
reserved_operator (a ∷ []) = if a == b'=' then some equal else none
reserved_operator (a ∷ b ∷ []) = if a == b'-' && b == b'>' then some arrow else none
reserved_operator _ = none

-- The end of `lexOperatorIdentifier`, by the reserved word that the text is, if any.
unfoldable pub form_operator : Option Tok → Bytes → Lexer → Option Lexer
unfolding form_operator_token
form_operator (some k) tok_start l = some (form_token k tok_start l)
form_operator none tok_start l = form_operator_token tok_start l

-- `lexOperatorIdentifier`
unfoldable pub lex_operator_identifier : Bytes → Lexer → Option Lexer
unfolding skip_while is_operator_char reserved_operator form_operator
lex_operator_identifier tok_start l = do
  p ← skip_while (λ c. is_operator_char c && not (c == b'.')) l.cur_ptr
  form_operator (reserved_operator (contents (between tok_start p))) tok_start
      (record l { cur_ptr = p })
