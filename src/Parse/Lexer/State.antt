-- ===== src/Parse/Lexer/State.antt =====
-- The state of the lexer, pointers into its buffer, diagnostics, and formToken.
use b1c3995fdcf53d46308da.Base.{
  false, leb, ◌&&◌, ℕ, ◌-◌, Bool, true, ◌||◌, ◌==◌, ltb, if◌then◌else◌, Option, none, some, List,
  [], ◌∷◌, ◌++◌, Bytes, length, drop, ◌>>=◌,
}
use b1c3995fdcf53d46308da.Parse.Chars.{is_space}
use b1c3995fdcf53d46308da.Parse.Token.{Tok, between, Token}
use b1c3995fdcf53d46308da.Parse.Utf8.{validate_utf8_character_and_advance, invalid}

-- The diagnostics that the lexer emits, and those that the parser adds to the same engine.
pub data DiagId : Type 0 where
  lex_nul_character lex_invalid_utf8_character lex_unterminated_block_comment : DiagId
  lex_comment_start lex_invalid_character_literal lex_unterminated_string : DiagId
  lex_unexpected_quote_string_interpolation lex_invalid_string_escape : DiagId
  lex_invalid_string_x_escape lex_invalid_string_u_escape lex_invalid_string_U_escape : DiagId
  lex_invalid_unicode_code_point lex_invalid_hex_escape lex_invalid_character : DiagId
  lex_expected_sign_in_fp lex_expected_digit_in_fp_exponent : DiagId
  lex_expected_digit_in_int_literal : DiagId
  -- A message of the parser, by its number.
  parse_message : ℕ → DiagId

pub record Diagnostic : Type 0 where
  pub loc : Bytes
  pub id : DiagId

-- `Diags`: no engine, or an engine with what it was given so far.
abbrev pub Log : Type 0
Log = Option (List Diagnostic)

-- `Lexer::diagnose`
unfoldable pub diagnose : Log → Bytes → DiagId → Log
diagnose none loc id = none
diagnose (some ds) loc id = some (ds ++ record { loc = loc; id = id } ∷ [])

-- A pointer is the bytes from it to the end of the readable memory.
pub record Lexer : Type 0 where
  pub buffer_start : Bytes
  pub buffer_end : Bytes
  pub cur_ptr : Bytes
  pub next_token : Token
  pub log : Log

-- `*Ptr`
abbrev pub load : Bytes → Option ℕ
load [] = none
load (c ∷ r) = some c

-- A test of `*Ptr`, as assertions make it.
abbrev pub first_is : (ℕ → Bool) → Bytes → Bool
first_is p [] = false
first_is p (c ∷ r) = p c

-- `Ptr == Other`, of pointers into the same memory.
abbrev pub same_ptr : Bytes → Bytes → Bool
same_ptr p q = length p == length q

-- `Ptr - 1` in the memory that begins at `start`; in front of it there is nothing to read.
unfoldable pub dec_ptr : Bytes → Bytes → Bytes
dec_ptr start p =
    if ltb (length p) (length start) then drop (length start - length p - 1) start else []

-- `Ptr >= BufferStart && Ptr <= BufferEnd`
abbrev pub in_range : Bytes → Bytes → Bytes → Bool
in_range buffer_start buffer_end p =
    leb (length p) (length buffer_start) && leb (length buffer_end) (length p)

-- `while (p(*Ptr)) ++Ptr;`
unfoldable pub skip_while : (ℕ → Bool) → Bytes → Option Bytes
skip_while p [] = none
skip_while p (c ∷ r) = if p c then skip_while p r else some (c ∷ r)

-- `Lexer::formToken`
abbrev pub form_token : Tok → Bytes → Lexer → Lexer
form_token k tok_start l = record l {
  next_token = record { kind = k; text = between tok_start l.cur_ptr };
}

-- `Lexer::isPrecededBySpace`, called when `CurPtr` stands behind the first byte of the token.
unfoldable pub is_preceded_by_space : Bytes → Lexer → Option Bool
unfolding is_space dec_ptr
is_preceded_by_space tok_start l = if same_ptr tok_start l.buffer_start then some true else (do
  last_char ← load (dec_ptr l.buffer_start tok_start)
  some (is_space last_char || last_char == 0))

-- The validation of a "high" character that the comments and the strings share: the new pointer,
-- and a diagnostic if it is no UTF-8.
unfoldable pub validate_high : Bytes → Log → Option (Bytes × Log)
validate_high char_start log = do
  (v, p) ← validate_utf8_character_and_advance char_start
  some (p, if v == invalid then diagnose log char_start DiagId.lex_invalid_utf8_character else log)
