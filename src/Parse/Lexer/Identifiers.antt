-- ===== src/Parse/Lexer/Identifiers.antt =====
-- Identifiers, keywords and dollar identifiers (lib/Parse/Lexer.cpp).
use Prim.Native.Char
use Prim.Native.String.{String}
use b1c3995fdcf53d46308da.Base.{
  asserting, Bool, true, false, ◌&&◌, ◌||◌, ◌==◌, if◌then◌else◌, Option, some, List, [], ◌∷◌, Bytes,
  ◌>>=◌,
}
use b1c3995fdcf53d46308da.Parse.Chars.{
  is_alnum, is_valid_start_of_identifier, is_valid_continuation_of_identifier,
}
use b1c3995fdcf53d46308da.Parse.Token.{
  Tok, contents, between, identifier, dollarident, kw_class, kw_constructor, kw_destructor,
  kw_extension, kw_func, kw_import, kw_oneof, kw_metatype, kw_protocol, kw_requires, kw_struct,
  kw_typealias, kw_var, kw_static, kw_subscript, kw_if, kw_in, kw_do, kw_else, kw_for, kw_while,
  kw_return, kw_break, kw_continue, kw_new,
}
use b1c3995fdcf53d46308da.Parse.Lexer.State.{first_is, Lexer, skip_while, form_token}

-- The bytes of an ASCII text.
abbrev pub codes : String → Bytes
codes String.[] = []
codes (String.◌∷◌ c s) = Char.code c ∷ codes s

-- Every character of a string is a continuation of an identifier.
unfoldable pub all_continue : Bytes → Bool
unfolding is_valid_continuation_of_identifier
all_continue [] = true
all_continue (c ∷ r) = is_valid_continuation_of_identifier c && all_continue r

-- `Lexer::isIdentifier`
unfoldable pub is_identifier : Bytes → Bool
unfolding is_valid_start_of_identifier all_continue
is_identifier [] = false
is_identifier (c ∷ r) = is_valid_start_of_identifier c && all_continue r

-- Equality of two strings.
unfoldable pub equal_bytes : Bytes → Bytes → Bool
equal_bytes [] [] = true
equal_bytes (x ∷ xs) (y ∷ ys) = x == y && equal_bytes xs ys
equal_bytes _ _ = false

-- The cases of the `StringSwitch`, in order.
abbrev pub keywords : List (Bytes × Tok)
keywords =
    (codes "class", kw_class)
    ∷ (codes "constructor", kw_constructor)
    ∷ (codes "destructor", kw_destructor)
    ∷ (codes "extension", kw_extension)
    ∷ (codes "func", kw_func)
    ∷ (codes "import", kw_import)
    ∷ (codes "metatype", kw_metatype)
    ∷ (codes "oneof", kw_oneof)
    ∷ (codes "protocol", kw_protocol)
    ∷ (codes "requires", kw_requires)
    ∷ (codes "struct", kw_struct)
    ∷ (codes "typealias", kw_typealias)
    ∷ (codes "var", kw_var)
    ∷ (codes "static", kw_static)
    ∷ (codes "subscript", kw_subscript)
    ∷ (codes "if", kw_if)
    ∷ (codes "in", kw_in)
    ∷ (codes "else", kw_else)
    ∷ (codes "for", kw_for)
    ∷ (codes "do", kw_do)
    ∷ (codes "while", kw_while)
    ∷ (codes "return", kw_return)
    ∷ (codes "break", kw_break)
    ∷ (codes "continue", kw_continue)
    ∷ (codes "new", kw_new)
    ∷ []

-- The first case whose string is equal, or the default.
unfoldable pub string_switch : List (Bytes × Tok) → Tok → Bytes → Tok
unfolding equal_bytes
string_switch [] default s = default
string_switch ((key, k) ∷ cases) default s =
    if equal_bytes key s then k else string_switch cases default s

-- `lexIdentifier`; `tok_start` is `CurPtr - 1`.
unfoldable pub lex_identifier : Bytes → Lexer → Option Lexer
unfolding skip_while is_valid_continuation_of_identifier string_switch
lex_identifier tok_start l = asserting (first_is is_valid_start_of_identifier tok_start) (do
  p ← skip_while is_valid_continuation_of_identifier l.cur_ptr
  some (
      form_token (string_switch keywords identifier (contents (between tok_start p))) tok_start
        (record l { cur_ptr = p })))

-- `lexDollarIdent`
unfoldable pub lex_dollar_ident : Bytes → Lexer → Option Lexer
unfolding skip_while is_alnum
lex_dollar_ident tok_start l = asserting (first_is (λ c. c == b'$') tok_start) (do
  p ← skip_while (λ c. is_alnum c || c == b'_' || c == b'$') l.cur_ptr
  some (form_token dollarident tok_start (record l { cur_ptr = p })))
