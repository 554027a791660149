-- ===== src/Parse/Tests.antt =====
-- Runs of the lexer on small inputs, and the instances of its theorems.
use b1c3995fdcf53d46308da.Base.{
  ◌+◌, ◌≡◌, ◌≢◌, ◌<◌, inl, inr, refl, true, false, ◌||◌, some, [], ◌∷◌, ◌++◌, Bytes, ◌/◌, here,
  there, Returns, arith,
}
use b1c3995fdcf53d46308da.Parse.Token.{Tok, Token, between, is, eof, r_brace, identifier}
use b1c3995fdcf53d46308da.Parse.Utf8.{encode_to_utf8, validate_utf8_character_and_advance, invalid}
use b1c3995fdcf53d46308da.Parse.Utf8.RoundTrip.{validate-encode_to_utf8, tail_byte}
use b1c3995fdcf53d46308da.Parse.Utf8.Decode.{validate_overlong, validate_above_range}
use b1c3995fdcf53d46308da.Parse.Lexer.State.{Lexer}
use b1c3995fdcf53d46308da.Parse.Lexer.Comments.{skip_slash_star_comment}
use b1c3995fdcf53d46308da.Parse.Lexer.Strings.{lex_string_literal}
use b1c3995fdcf53d46308da.Parse.Lexer.Encoded.{literal, get_encoded_string_literal}
use b1c3995fdcf53d46308da.Parse.Lexer.Main.{lex_impl, no_token}
use b1c3995fdcf53d46308da.Parse.Lexer.Bounds.Main.{IsReady, Lexed, lex_impl-Lexed}
use b1c3995fdcf53d46308da.Parse.Lexer.Nesting.{IsText, skip_slash_star_comment-matching}
use b1c3995fdcf53d46308da.Parse.Lexer.Escapes.{escaped, get_encoded_string_literal-escaped}
use b1c3995fdcf53d46308da.Parse.Lexer.Overrun.{AllPlain, IsPlain, lex_string_literal_overruns}
use b1c3995fdcf53d46308da.Parse.Parser.{
  Parser, skip_until_decl_r_brace, is_start_of_decl, peek_token,
}
use b1c3995fdcf53d46308da.Parse.Parser.Recovery.{IsFed, skip_until_decl_r_brace-stops}

-- A lexer at the start of a text, in front of its first token, and the memory of the text.
abbrev memory : Bytes → Bytes
memory text = text ++ 0 ∷ []

abbrev at_start : Bytes → Lexer
at_start text = record {
  buffer_start = memory text;
  buffer_end = 0 ∷ [];
  cur_ptr = memory text;
  next_token = no_token;
  log = some [];
}

-- x=y
abbrev assignment : Bytes
assignment = b'x' ∷ b'=' ∷ b'y' ∷ b'\n' ∷ []

abbrev parser : Parser
parser = record {
  lexer = at_start assignment;
  tok = record { kind = identifier; text = record { start = []; size = 0 } };
}

assignment-IsReady : IsReady [] (at_start assignment)
assignment-IsReady = record {
  ends = refl;
  last_line = there (there (there here));
  inside = there (there (there (there here)));
  in_buffer = here;
}

lex_impl-Lexed_example : Returns (lex_impl (at_start assignment)) (Lexed [] (at_start assignment))
lex_impl-Lexed_example = lex_impl-Lexed [] (at_start assignment) assignment-IsReady

skip_until_decl_r_brace-stops_example : Returns (skip_until_decl_r_brace parser) (λ q.
    IsFed [] q
    × ((is q.tok eof || is_start_of_decl q.tok (peek_token q)) ≡ true)
    × (is q.tok r_brace ≡ false))
skip_until_decl_r_brace-stops_example =
    skip_until_decl_r_brace-stops [] parser (inr assignment-IsReady)

validate-encode_to_utf8_example : Returns (encode_to_utf8 0x20AC []) (λ o.
    (o.0 ≡ false)
    × (validate_utf8_character_and_advance (o.1 ++ b'x' ∷ []) ≡ some (0x20AC, b'x' ∷ [])))
validate-encode_to_utf8_example =
    validate-encode_to_utf8 0x20AC (b'x' ∷ []) (omega arith, omega arith, inl (omega arith))

validate_overlong_example :
    (validate_utf8_character_and_advance ((0xC0 + 1) ∷ tail_byte 0x41 ∷ []) ≡ some (0x41, []))
    × (0x41 ≢ invalid)
    × (0xC0 + 1 < 0xC2)
validate_overlong_example = validate_overlong 0x41 [] (omega arith)

validate_above_range_example :
    (validate_utf8_character_and_advance (
        (0xF0 + 5)
        ∷ tail_byte (0x140000 / 4096)
        ∷ tail_byte (0x140000 / 64)
        ∷ tail_byte 0x140000
        ∷ [])
      ≡ some (0x140000, []))
    × (0x140000 ≢ invalid)
validate_above_range_example = validate_above_range 0x140000 [] (omega arith) (omega arith)

-- The token of the literal "a\"\n".
abbrev quoted_token : Token
quoted_token = record {
  kind = Tok.string_literal;
  text = between (b'"' ∷ escaped (b'a' ∷ b'"' ∷ 10 ∷ []) (b'"' ∷ 0 ∷ [])) (0 ∷ []);
}

get_encoded_string_literal-escaped_example :
    get_encoded_string_literal (at_start []) quoted_token
    ≡ some (literal (b'a' ∷ b'"' ∷ 10 ∷ []) ∷ [], some [])
get_encoded_string_literal-escaped_example =
    get_encoded_string_literal-escaped (at_start []) quoted_token (b'a' ∷ b'"' ∷ 10 ∷ []) (0 ∷ [])
      refl

-- *a/*b*/*/c
abbrev comment_text : Bytes
comment_text = b'*' ∷ b'a' ∷ b'/' ∷ b'*' ∷ b'b' ∷ b'*' ∷ b'/' ∷ b'*' ∷ b'/' ∷ b'c' ∷ []

abbrev inner_text : Bytes
inner_text = b'a' ∷ b'/' ∷ b'*' ∷ b'b' ∷ b'*' ∷ b'/' ∷ []

inner_text-IsText : IsText inner_text
inner_text-IsText = IsText.char b'a' (omega arith) (omega arith) (omega arith) (omega arith) (
    IsText.comment {b = b'b' ∷ []} {r = []}
      (IsText.char b'b' (omega arith) (omega arith) (omega arith) (omega arith) IsText.empty)
      IsText.empty)

skip_slash_star_comment-matching_example :
    skip_slash_star_comment (b'/' ∷ memory comment_text) (at_start comment_text)
    ≡ some (record (at_start comment_text) { cur_ptr = b'c' ∷ 0 ∷ [] })
skip_slash_star_comment-matching_example =
    skip_slash_star_comment-matching (at_start comment_text) (b'/' ∷ memory comment_text) inner_text
      (b'c' ∷ 0 ∷ []) inner_text-IsText (omega arith) refl refl

a-IsPlain : IsPlain b'a'
a-IsPlain = record {
  ascii = omega arith;
  ne_nul = omega arith;
  ne_quote = omega arith;
  ne_backslash = omega arith;
  ne_line_feed = omega arith;
  ne_return = omega arith;
}

b-IsPlain : IsPlain b'b'
b-IsPlain = record {
  ascii = omega arith;
  ne_nul = omega arith;
  ne_quote = omega arith;
  ne_backslash = omega arith;
  ne_line_feed = omega arith;
  ne_return = omega arith;
}

ab-AllPlain : AllPlain (b'a' ∷ b'b' ∷ [])
ab-AllPlain = (a-IsPlain, (b-IsPlain, tt))

-- "ab without a closing quote, and a quote behind the terminator.
abbrev cut_off : Lexer
cut_off = record {
  buffer_start = b'"' ∷ b'a' ∷ b'b' ∷ 0 ∷ b'"' ∷ [];
  buffer_end = 0 ∷ b'"' ∷ [];
  cur_ptr = b'a' ∷ b'b' ∷ 0 ∷ b'"' ∷ [];
  next_token = no_token;
  log = some [];
}

lex_string_literal_overruns_example :
    Returns (lex_string_literal (b'"' ∷ cut_off.cur_ptr) cut_off) (λ l'.
      (l'.cur_ptr ≡ [])
      × (l'.next_token.kind ≡ Tok.string_literal)
      × (l'.next_token.text ≡ between (b'"' ∷ cut_off.cur_ptr) []))
lex_string_literal_overruns_example =
    lex_string_literal_overruns cut_off (b'a' ∷ b'b' ∷ []) [] refl refl ab-AllPlain
