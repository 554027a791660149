-- ===== src/Parse/Lexer/Characters.antt =====
-- lexCharacter, lexCharacterLiteral and getEncodedCharacterLiteral (lib/Parse/Lexer.cpp).
use b1c3995fdcf53d46308da.Base.{
  asserting, ℕ, zero, suc, ◌+◌, ◌-◌, ◌*◌, Bool, true, false, not, ◌||◌, ◌==◌, ltb, leb,
  if◌then◌else◌, Option, none, some, [], ◌∷◌, Bytes, length, drop, ◌>>=◌,
}
use b1c3995fdcf53d46308da.Parse.Chars.{is_digit, is_xdigit}
use b1c3995fdcf53d46308da.Parse.Token.{Token, unknown, character_literal}
use b1c3995fdcf53d46308da.Parse.Utf8.{invalid, encode_to_utf8, validate_utf8_character_and_advance}
use b1c3995fdcf53d46308da.Parse.Lexer.State.{
  first_is, Log, diagnose, DiagId, Lexer, dec_ptr, form_token, lex_nul_character,
  lex_invalid_utf8_character, lex_invalid_string_escape, lex_invalid_string_x_escape,
  lex_invalid_string_u_escape, lex_invalid_string_U_escape, lex_invalid_hex_escape,
  lex_invalid_unicode_code_point, lex_invalid_character_literal,
}

-- What `lexCharacter` returns: the character or `~0U`, `CurPtr` and the diagnostics.
abbrev pub CharResult : Type 0
CharResult = ℕ × Bytes × Log

-- `if (EmitDiagnostics) diagnose(...)`
abbrev pub diagnose_if : Bool → Log → Bytes → DiagId → Log
diagnose_if emit log loc id = if emit then diagnose log loc id else log

-- `isxdigit` of each of the next `n` bytes, read one after the other while they fit.
unfoldable pub all_xdigits : ℕ → Bytes → Option Bool
unfolding is_xdigit
all_xdigits zero p = some true
all_xdigits (suc n) [] = none
all_xdigits (suc n) (c ∷ r) = let rest = all_xdigits n r in if is_xdigit c then rest else some false

-- The value of a hexadecimal digit.
unfoldable pub hex_digit : ℕ → ℕ
unfolding is_digit
hex_digit c = if is_digit c then c - b'0' else if leb b'a' c then c - b'a' + 10 else c - b'A' + 10

-- `StringRef(CurPtr + 1, n).getAsInteger(16, CharValue)`, on digits.
unfoldable pub hex_value : ℕ → ℕ → Bytes → ℕ
unfolding hex_digit
hex_value zero acc p = acc
hex_value (suc n) acc [] = acc
hex_value (suc n) acc (c ∷ r) = hex_value n (acc * 16 + hex_digit c) r

-- The check of the value of an escape, behind it.
unfoldable pub check_escape : Bool → Bytes → ℕ → Bytes → Log → Option CharResult
unfolding encode_to_utf8
check_escape emit char_start v p log = if ltb v 0x80 then some (v, p, log) else (do
  (erroneous, temp) ← encode_to_utf8 v []
  some (
      if erroneous
      then (0, p, diagnose_if emit log char_start lex_invalid_unicode_code_point)
      else (v, p, log)))

-- `\u` and `\U`: `n` digits, with `cur` at the letter.
unfoldable pub unicode_escape : ℕ → DiagId → Bool → Bytes → Bytes → Bytes → Log → Option CharResult
unfolding all_xdigits hex_value check_escape
unicode_escape n id emit char_start cur digits log = do
  fits ← all_xdigits n digits
  if not fits
      then some (0, cur, diagnose_if emit log cur id)
      else check_escape emit char_start (hex_value n 0 digits) (drop n digits) log

-- `\x`: two digits; a value of 0x80 or more is diagnosed in any case.
unfoldable pub hex_escape : Bool → Bytes → Bytes → Bytes → Log → Option CharResult
unfolding all_xdigits hex_value check_escape
hex_escape emit char_start cur digits log = do
  fits ← all_xdigits 2 digits
  let v = hex_value 2 0 digits
  if not fits
      then some (0, cur, diagnose_if emit log cur lex_invalid_string_x_escape)
      else check_escape emit char_start v (drop 2 digits)
          (if leb 0x80 v then diagnose log cur lex_invalid_hex_escape else log)

-- The characters for which an escape of one letter stands.
unfoldable pub simple_escape : ℕ → Option ℕ
simple_escape c =
    if c == b't'
    then some 9
    else if c == b'n'
    then some 10
    else if c == b'r'
    then some 13
    else if c == b'"' || c == b'\'' || c == b'\\'
    then some c
    else none

-- An escape, by the letter `c` behind the backslash and the simple escape that it is, if any.
unfoldable pub escape_by : Option ℕ → Bool → Bytes → ℕ → Bytes → Log → Option CharResult
unfolding hex_escape unicode_escape
escape_by (some v) emit char_start c r log = some (v, r, log)
escape_by none emit char_start c r log =
    if c == b'x'
    then hex_escape emit char_start (c ∷ r) r log
    else if c == b'u'
    then unicode_escape 4 lex_invalid_string_u_escape emit char_start (c ∷ r) r log
    else if c == b'U'
    then unicode_escape 8 lex_invalid_string_U_escape emit char_start (c ∷ r) r log
    else some (0, c ∷ r, diagnose log (c ∷ r) lex_invalid_string_escape)

-- The second half of `lexCharacter`, behind the backslash.
unfoldable pub lex_escape : Bool → Bytes → Bytes → Log → Option CharResult
unfolding simple_escape escape_by
lex_escape emit char_start [] log = none
lex_escape emit char_start (c ∷ r) log = escape_by (simple_escape c) emit char_start c r log

-- A character that is no quote, no line end, no nul and no backslash.
unfoldable pub normal_character : Bool → Bytes → ℕ → Bytes → Log → Option CharResult
normal_character emit char_start c r log = if ltb c 0x80 then some (c, r, log) else (do
  (v, p) ← validate_utf8_character_and_advance char_start
  some (
      if v == invalid
      then (0, p, diagnose_if emit log char_start lex_invalid_utf8_character)
      else (v, p, log)))

-- `lexCharacter`. Behind the increment, `CurPtr - 2` is one byte in front of the character.
unfoldable pub lex_character : Lexer → Bool → Bool → Bytes → Log → Option CharResult
unfolding lex_escape normal_character
lex_character l stop_at_double_quote emit [] log = none
lex_character l stop_at_double_quote emit (c ∷ r) log =
    if c == b'"'
    then some (if stop_at_double_quote then (invalid, c ∷ r, log) else (c, r, log))
    else if c == b'\''
    then some (if stop_at_double_quote then (c, r, log) else (invalid, c ∷ r, log))
    else if c == 0
    then some (
        if length r + 2 == length l.buffer_end
        then (invalid, c ∷ r, log)
        else (0, r, diagnose_if emit log (dec_ptr l.buffer_start (c ∷ r)) lex_nul_character))
    else if c == b'\n' || c == b'\r'
    then some (invalid, c ∷ r, log)
    else if c == b'\\'
    then lex_escape emit (c ∷ r) r log
    else normal_character emit (c ∷ r) c r log

-- The end of `lexCharacterLiteral`, on the character read and the pointer behind it.
unfoldable pub close_character_literal : Bytes → Lexer → CharResult → Option Lexer
close_character_literal tok_start l (v, [], log) = none
close_character_literal tok_start l (v, q ∷ r, log) = some (
    if v == invalid || not (q == b'\'')
    then form_token unknown tok_start
        (record l { cur_ptr = q ∷ r; log = diagnose log tok_start lex_invalid_character_literal })
    else form_token character_literal tok_start (record l { cur_ptr = r; log = log }))

-- `lexCharacterLiteral`; `tok_start` is `CurPtr - 1`.
unfoldable pub lex_character_literal : Bytes → Lexer → Option Lexer
unfolding lex_character close_character_literal
lex_character_literal tok_start l =
    asserting (first_is (λ c. c == b'\'') tok_start)
      (lex_character l false true l.cur_ptr l.log >>= close_character_literal tok_start l)

-- `getEncodedCharacterLiteral`: the character behind the opening quote of the token, read with
-- no diagnostics but those that `lexCharacter` emits in any case.
unfoldable pub get_encoded_character_literal : Lexer → Token → Option (ℕ × Log)
unfolding lex_character
get_encoded_character_literal l t = do
  (v, p, log) ← lex_character l false false (drop 1 t.text.start) l.log
  some (v, log)
