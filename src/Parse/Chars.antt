-- ===== src/Parse/Chars.antt =====
-- The character classes that Lexer.cpp takes from <cctype>, in the "C" locale, and
-- Identifier::isOperatorChar (include/swift/AST/Identifier.h). A `char` is its byte.
use b1c3995fdcf53d46308da.Base.{ℕ, Bool, ◌||◌, ◌==◌, within}

unfoldable pub is_digit : ℕ → Bool
is_digit c = within b'0' b'9' c

unfoldable pub is_alpha : ℕ → Bool
is_alpha c = within b'a' b'z' c || within b'A' b'Z' c

unfoldable pub is_alnum : ℕ → Bool
unfolding is_alpha is_digit
is_alnum c = is_alpha c || is_digit c

unfoldable pub is_xdigit : ℕ → Bool
unfolding is_digit
is_xdigit c = is_digit c || within b'a' b'f' c || within b'A' b'F' c

unfoldable pub is_space : ℕ → Bool
is_space c = c == b' ' || within 9 13 c

-- One of "/=-+*%<>!&|^~."
unfoldable pub is_operator_char : ℕ → Bool
is_operator_char c =
    c == b'/'
    || c == b'='
    || c == b'-'
    || c == b'+'
    || c == b'*'
    || c == b'%'
    || c == b'<'
    || c == b'>'
    || c == b'!'
    || c == b'&'
    || c == b'|'
    || c == b'^'
    || c == b'~'
    || c == b'.'

-- `isValidStartOfIdentifier`
unfoldable pub is_valid_start_of_identifier : ℕ → Bool
unfolding is_alpha
is_valid_start_of_identifier c = is_alpha c || c == b'_'

-- `isValidContinuationOfIdentifier`
unfoldable pub is_valid_continuation_of_identifier : ℕ → Bool
unfolding is_alnum
is_valid_continuation_of_identifier c = is_alnum c || c == b'_' || c == b'$'
