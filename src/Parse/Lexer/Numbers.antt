-- ===== src/Parse/Lexer/Numbers.antt =====
-- isValidExponent and lexNumber (lib/Parse/Lexer.cpp).
use b1c3995fdcf53d46308da.Base.{
  asserting, ℕ, ◌-◌, Bool, false, not, ◌&&◌, ◌||◌, ◌==◌, within, if◌then◌else◌, Option, none, some,
  [], ◌∷◌, Bytes, length, ◌>>=◌,
}
use b1c3995fdcf53d46308da.Parse.Chars.{is_digit, is_xdigit}
use b1c3995fdcf53d46308da.Parse.Token.{unknown, integer_literal, floating_literal}
use b1c3995fdcf53d46308da.Parse.Lexer.State.{
  first_is, DiagId, diagnose, Lexer, load, skip_while, form_token,
  lex_expected_digit_in_int_literal, lex_expected_sign_in_fp, lex_expected_digit_in_fp_exponent,
}

-- `*P` is 'e' or 'E'.
abbrev pub is_exponent_mark : ℕ → Bool
is_exponent_mark c = c == b'e' || c == b'E'

abbrev pub is_sign : ℕ → Bool
is_sign c = c == b'+' || c == b'-'

-- `isValidExponent`: "[eE][+-][0-9]", each byte read only if the ones before it fit.
unfoldable pub is_valid_exponent : Bytes → Option Bool
unfolding is_digit
is_valid_exponent [] = none
is_valid_exponent (c ∷ []) = if not (is_exponent_mark c) then some false else none
is_valid_exponent (c ∷ s ∷ []) =
    if not (is_exponent_mark c) then some false else if not (is_sign s) then some false else none
is_valid_exponent (c ∷ s ∷ d ∷ r) =
    if not (is_exponent_mark c)
    then some false
    else if not (is_sign s)
    then some false
    else some (is_digit d)

-- The digits of a number with a radix, from behind its prefix of two bytes.
unfoldable pub lex_radix : (ℕ → Bool) → Bytes → Bytes → Lexer → Option Lexer
unfolding skip_while
lex_radix is_radix_digit digits tok_start l = do
  p ← skip_while is_radix_digit digits
  let l' = record l { cur_ptr = p }
  some (
      if length tok_start - length p == 2
      then form_token unknown tok_start
          (record l' { log = diagnose l'.log p lex_expected_digit_in_int_literal })
      else form_token integer_literal tok_start l')

-- A token that ends here, with a diagnostic.
abbrev pub bad_number : DiagId → Bytes → Bytes → Lexer → Lexer
bad_number id tok_start p l =
    form_token unknown tok_start (record l { cur_ptr = p; log = diagnose l.log p id })

-- The digits of the exponent, from behind its sign.
unfoldable pub lex_exponent_digits : Bytes → Bytes → Lexer → Option Lexer
unfolding skip_while is_digit
lex_exponent_digits p tok_start l = do
  d ← load p
  if not (is_digit d)
      then some (bad_number lex_expected_digit_in_fp_exponent tok_start p l)
      else (do
        q ← skip_while is_digit p
        some (form_token floating_literal tok_start (record l { cur_ptr = q })))

-- The exponent, from behind its 'e'.
unfoldable pub lex_exponent : Bytes → Bytes → Lexer → Option Lexer
unfolding lex_exponent_digits
lex_exponent [] tok_start l = none
lex_exponent (s ∷ p) tok_start l =
    if not (is_sign s)
    then some (bad_number lex_expected_sign_in_fp tok_start (s ∷ p) l)
    else lex_exponent_digits p tok_start l

-- The end of `lexNumber`, behind the fraction: an exponent, or the end of the token.
unfoldable pub after_fraction : Bytes → Bytes → Lexer → Option Lexer
unfolding lex_exponent
after_fraction [] tok_start l = none
after_fraction (c ∷ r) tok_start l =
    if is_exponent_mark c
    then lex_exponent r tok_start l
    else some (form_token floating_literal tok_start (record l { cur_ptr = c ∷ r }))

-- The decimal point, if there is one, and the digits behind it.
unfoldable pub lex_fraction : Bytes → Bytes → Lexer → Option Lexer
unfolding skip_while is_digit after_fraction
lex_fraction [] tok_start l = none
lex_fraction (c ∷ r) tok_start l =
    if c == b'.'
    then (skip_while is_digit r >>= λ p. after_fraction p tok_start l)
    else after_fraction (c ∷ r) tok_start l

-- `!isdigit(CurPtr[1]) && !isValidExponent(CurPtr+1)`, at a point.
unfoldable pub point_ends_integer : Bytes → Option Bool
unfolding is_digit is_valid_exponent
point_ends_integer r = do
  d ← load r
  if is_digit d then some false else (is_valid_exponent r >>= λ e. some (not e))

-- What follows the leading digits, at `c ∷ r`: the end of an integer, or a fraction.
unfoldable pub after_digits : Bytes → Bytes → Lexer → Option Lexer
unfolding lex_fraction point_ends_integer
after_digits [] tok_start l = none
after_digits (c ∷ r) tok_start l =
    let integer = some (form_token integer_literal tok_start (record l { cur_ptr = c ∷ r })) in
    if not (c == b'.') && not (is_exponent_mark c)
    then integer
    else if c == b'.'
    then (point_ends_integer r >>= λ ends.
        if ends then integer else lex_fraction (c ∷ r) tok_start l)
    else lex_fraction (c ∷ r) tok_start l

-- A number in decimal, from its first byte.
unfoldable pub lex_decimal : Bytes → Lexer → Option Lexer
unfolding skip_while is_digit after_digits lex_fraction
lex_decimal tok_start l = do
  c ← load tok_start
  if is_digit c
      then (skip_while is_digit tok_start >>= λ p. after_digits p tok_start l)
      else lex_fraction tok_start tok_start l

-- What follows the assertion of `lexNumber`.
unfoldable pub lex_number_text : Bytes → Lexer → Option Lexer
unfolding is_xdigit lex_radix lex_decimal
lex_number_text [] l = none
lex_number_text (c ∷ []) l = if c == b'0' then none else lex_decimal (c ∷ []) l
lex_number_text (c ∷ x ∷ r) l =
    if c == b'0' && x == b'x'
    then lex_radix is_xdigit r (c ∷ x ∷ r) l
    else if c == b'0' && x == b'o'
    then lex_radix (within b'0' b'7') r (c ∷ x ∷ r) l
    else if c == b'0' && x == b'b'
    then lex_radix (λ d. d == b'0' || d == b'1') r (c ∷ x ∷ r) l
    else lex_decimal (c ∷ x ∷ r) l

-- `lexNumber`; `tok_start` is `CurPtr - 1`.
unfoldable pub lex_number : Bytes → Lexer → Option Lexer
unfolding lex_number_text is_digit
lex_number tok_start l =
    asserting (first_is (λ c. is_digit c || c == b'.') tok_start) (lex_number_text tok_start l)
