-- ===== src/Parse/Lexer/Strings.antt =====
-- skipToEndOfInterpolatedExpression and lexStringLiteral (lib/Parse/Lexer.cpp).
use b1c3995fdcf53d46308da.Base.{
  asserting, ℕ, ◌+◌, ◌-◌, ◌%◌, ◌^◌, Bool, true, false, not, ◌&&◌, ◌||◌, ◌==◌, if◌then◌else◌, Option,
  none, some, [], ◌∷◌, Bytes, length, Step, again, done, iterate, ◌>>=◌,
}
use b1c3995fdcf53d46308da.Parse.Token.{unknown, string_literal}
use b1c3995fdcf53d46308da.Parse.Utf8.{invalid}
use b1c3995fdcf53d46308da.Parse.Lexer.State.{
  first_is, Log, diagnose, Lexer, same_ptr, form_token, lex_unexpected_quote_string_interpolation,
  lex_unterminated_string,
}
use b1c3995fdcf53d46308da.Parse.Lexer.Characters.{CharResult, lex_character}

-- The variables of `skipToEndOfInterpolatedExpression`: `CurPtr`, `ParenCount`, diagnostics.
pub record Parens : Type 0 where
  pub cur : Bytes
  pub count : ℕ
  pub log : Log

-- One round of its loop. The result is the pointer that it returns.
unfoldable pub interpolation_round : Bytes → Parens → Bytes → Option (Step Parens (Bytes × Log))
interpolation_round buffer_end s [] = none
interpolation_round buffer_end s (c ∷ r) =
    if c == b'\n' || c == b'\r'
    then some (done (c ∷ r, s.log))
    else if c == b'"'
    then some (done (c ∷ r, diagnose s.log (c ∷ r) lex_unexpected_quote_string_interpolation))
    else if c == 0
    then (if same_ptr (c ∷ r) buffer_end
        then some (done (c ∷ r, diagnose s.log (c ∷ r) lex_unterminated_string))
        else some (again (record s { cur = r })))
    else if c == b'('
    then some (again (record s { cur = r; count = (s.count + 1) % 2 ^ 32 }))
    else if c == b')'
    then (let count = (s.count + 2 ^ 32 - 1) % 2 ^ 32 in
        if count == 0
        then some (done (c ∷ r, s.log))
        else some (again (record s { cur = r; count = count })))
    else some (again (record s { cur = r }))

-- `skipToEndOfInterpolatedExpression`
unfoldable pub skip_to_end_of_interpolated_expression : Bytes → Bytes → Log → Option (Bytes × Log)
unfolding iterate interpolation_round
skip_to_end_of_interpolated_expression buffer_end cur log =
    iterate (length cur + 1) (λ s. interpolation_round buffer_end s s.cur)
      (record { cur = cur; count = 1; log = log })

-- The variables of `lexStringLiteral`: `CurPtr`, `wasErroneous`, diagnostics.
pub record Literal : Type 0 where
  pub cur : Bytes
  pub was_erroneous : Bool
  pub log : Log

-- `*CurPtr == '\\' && *(CurPtr + 1) == '('`
unfoldable pub at_interpolation : Bytes → Option Bool
at_interpolation [] = none
at_interpolation (c ∷ []) = if c == b'\\' then none else some false
at_interpolation (c ∷ d ∷ r) = some (c == b'\\' && d == b'(')

-- What follows the scan of an interpolated expression that began at `body`: go on behind the
-- closing parenthesis, or, where the scan failed, at the expression itself.
unfoldable pub after_interpolation : Literal → Bytes → Bytes × Log → Option (Step Literal Lexer)
after_interpolation s body ([], log) = none
after_interpolation s body (e ∷ r, log) = some (
    again (
      if e == b')'
      then record s { cur = r; log = log }
      else record s { cur = body; was_erroneous = true; log = log }))

-- The `switch` on the byte that stopped `lexCharacter`. Any other byte fails the assertion.
unfoldable pub close_string : Bytes → Lexer → Literal → Bytes → Option (Step Literal Lexer)
close_string tok_start l s [] = none
close_string tok_start l s (c ∷ r) =
    if c == b'"'
    then some (
        done (
          form_token (if s.was_erroneous then unknown else string_literal) tok_start
            (record l { cur_ptr = r; log = s.log })))
    else if c == 0 || c == b'\n' || c == b'\r'
    then some (
        done (
          form_token unknown tok_start
            (record l { cur_ptr = c ∷ r; log = diagnose s.log tok_start lex_unterminated_string })))
    else none

-- What follows `lexCharacter`.
unfoldable pub after_character : Bytes → Lexer → Literal → CharResult → Option (Step Literal Lexer)
unfolding close_string
after_character tok_start l s (v, p, log) =
    if not (v == invalid)
    then some (again (record s { cur = p; log = log }))
    else close_string tok_start l (record s { cur = p; log = log }) p

-- `CurPtr += 2` and the scan of the interpolated expression.
unfoldable pub interpolation : Lexer → Literal → Bytes → Option (Step Literal Lexer)
unfolding skip_to_end_of_interpolated_expression after_interpolation
interpolation l s (c ∷ d ∷ body) =
    skip_to_end_of_interpolated_expression l.buffer_end body s.log >>= after_interpolation s body
interpolation l s _ = none

-- One round of the loop of `lexStringLiteral`.
unfoldable pub string_round : Bytes → Lexer → Literal → Option (Step Literal Lexer)
unfolding at_interpolation interpolation after_character
string_round tok_start l s = do
  interpolated ← at_interpolation s.cur
  if interpolated
      then interpolation l s s.cur
      else (lex_character l true true s.cur s.log >>= after_character tok_start l s)

-- `lexStringLiteral`; `tok_start` is `CurPtr - 1`.
unfoldable pub lex_string_literal : Bytes → Lexer → Option Lexer
unfolding iterate string_round
lex_string_literal tok_start l = asserting (first_is (λ c. c == b'"') tok_start) (
    iterate (length l.cur_ptr + 1) (string_round tok_start l)
      (record { cur = l.cur_ptr; was_erroneous = false; log = l.log }))
