-- ===== src/Parse/Token.antt =====
-- include/swift/Parse/Token.h: token kinds, tokens and their predicates. A `StringRef` is the
-- pointer to its first byte and its length.
use b1c3995fdcf53d46308da.Base.{ℕ, ◌-◌, Bool, not, ◌||◌, ◌==◌, Bytes, length, take}

-- `tok`
pub data Tok : Type 0 where
  unknown eof identifier oper_binary oper_postfix oper_prefix dollarident : Tok
  integer_literal floating_literal string_literal character_literal : Tok
  kw_class kw_constructor kw_destructor kw_extension kw_func kw_import kw_oneof kw_metatype : Tok
  kw_protocol kw_requires kw_struct kw_typealias kw_var kw_static kw_subscript : Tok
  kw_if kw_in kw_do kw_else kw_for kw_while kw_return kw_break kw_continue : Tok
  kw_new : Tok
  l_paren_space l_paren r_paren l_brace r_brace l_square_space l_square r_square : Tok
  period comma colon semi equal ellipsis arrow : Tok

pub record StringRef : Type 0 where
  pub start : Bytes
  pub size : ℕ

-- The characters of a `StringRef`.
abbrev pub contents : StringRef → Bytes
contents s = take s.size s.start

-- `StringRef(Begin, End - Begin)`
abbrev pub between : Bytes → Bytes → StringRef
between start stop = record { start = start; size = length start - length stop }

pub record Token : Type 0 where
  pub kind : Tok
  pub text : StringRef

-- `Token::is`, as the enumeration's equality.
abbrev pub code : Tok → ℕ
code unknown = 0
code eof = 1
code identifier = 2
code oper_binary = 3
code oper_postfix = 4
code oper_prefix = 5
code dollarident = 6
code integer_literal = 7
code floating_literal = 8
code string_literal = 9
code character_literal = 10
code kw_class = 11
code kw_constructor = 12
code kw_destructor = 13
code kw_extension = 14
code kw_func = 15
code kw_import = 16
code kw_oneof = 17
code kw_metatype = 18
code kw_protocol = 19
code kw_requires = 20
code kw_struct = 21
code kw_typealias = 22
code kw_var = 23
code kw_static = 24
code kw_subscript = 25
code kw_if = 26
code kw_in = 27
code kw_do = 28
code kw_else = 29
code kw_for = 30
code kw_while = 31
code kw_return = 32
code kw_break = 33
code kw_continue = 34
code kw_new = 35
code l_paren_space = 36
code l_paren = 37
code r_paren = 38
code l_brace = 39
code r_brace = 40
code l_square_space = 41
code l_square = 42
code r_square = 43
code period = 44
code comma = 45
code colon = 46
code semi = 47
code equal = 48
code ellipsis = 49
code arrow = 50

-- `Token::is`
abbrev pub is : Token → Tok → Bool
is t k = code t.kind == code k

-- `Token::isNot`
abbrev pub is_not : Token → Tok → Bool
is_not t k = not (is t k)

-- `Token::isAnyOperator`
abbrev pub is_any_operator : Token → Bool
is_any_operator t = is t oper_binary || is t oper_postfix || is t oper_prefix

-- `Token::isAnyLParen`
abbrev pub is_any_l_paren : Token → Bool
is_any_l_paren t = is t l_paren || is t l_paren_space

-- `Token::isAnyLSquare`
abbrev pub is_any_l_square : Token → Bool
is_any_l_square t = is t l_square || is t l_square_space
