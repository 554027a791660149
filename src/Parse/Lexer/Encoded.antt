-- ===== src/Parse/Lexer/Encoded.antt =====
-- getEncodedStringLiteral (lib/Parse/Lexer.cpp): the segments of a string literal token.
use b1c3995fdcf53d46308da.Base.{
  ℕ, ◌+◌, ◌-◌, ◌==◌, ltb, if◌then◌else◌, Option, none, some, List, [], ◌∷◌, ◌++◌, Bytes, length,
  drop, Step, again, done, iterate, ◌>>=◌,
}
use b1c3995fdcf53d46308da.Parse.Token.{StringRef, contents, between, Token}
use b1c3995fdcf53d46308da.Parse.Utf8.{encode_to_utf8}
use b1c3995fdcf53d46308da.Parse.Lexer.State.{Log, Lexer, same_ptr}
use b1c3995fdcf53d46308da.Parse.Lexer.Characters.{simple_escape, all_xdigits, hex_value}
use b1c3995fdcf53d46308da.Parse.Lexer.Strings.{skip_to_end_of_interpolated_expression}

-- `StringSegment`: the bytes of a literal piece, or the source text of an expression.
pub data StringSegment : Type 0 where
  literal : Bytes → StringSegment
  expr : StringRef → StringSegment

-- The variables of the loop: `BytesPtr`, where `Bytes` begins, `TempString` and `Segments`.
pub record Encoding : Type 0 where
  pub bytes_ptr : Bytes
  pub bytes_begin : Bytes
  pub temp : Bytes
  pub segments : List StringSegment
  pub log : Log

abbrev pub EncodingStep : Type 0
EncodingStep = Step Encoding Encoding

-- The flush of `TempString` in front of an expression.
unfoldable pub flush : Encoding → Encoding
flush s = elim s.temp [
  | [] ↦ s
  | _ ∷ _ ↦ record s { segments = s.segments ++ literal s.temp ∷ []; temp = [] }
]

-- The end of an interpolated expression that begins at `start`: it must be a parenthesis.
unfoldable pub add_expression : Encoding → Bytes → Bytes × Log → Option EncodingStep
add_expression s start ([], log) = none
add_expression s start (c ∷ r, log) =
    if c == b')'
    then some (
        again (record s {
          segments = s.segments ++ expr (between start (c ∷ r)) ∷ [];
          bytes_begin = r;
          bytes_ptr = r;
          log = log;
        }))
    else none

-- The value of an escape is put behind `TempString`; an error of the encoder is not looked at.
unfoldable pub push_value : ℕ → Encoding → Option Encoding
push_value v s =
    if ltb v 0x80
    then some (record s { temp = s.temp ++ v ∷ [] })
    else (encode_to_utf8 v s.temp >>= λ o. some (record s { temp = o.1 }))

-- An escape of `n` hexadecimal digits; where they are no digits it is ignored.
unfoldable pub push_hex : ℕ → Encoding → Bytes → Option EncodingStep
unfolding push_value
push_hex n s p = do
  fits ← all_xdigits n p
  s' ←
      (if fits
        then push_value (hex_value n 0 p) (record s { bytes_ptr = drop n p })
        else some (record s { bytes_ptr = p }))
  some (again s')

-- An escape whose letter is `d`, in front of `q`.
unfoldable pub encode_escape : Lexer → Encoding → Option ℕ → ℕ → Bytes → Option EncodingStep
unfolding flush add_expression push_hex
encode_escape l s (some v) d q = some (again (record s { temp = s.temp ++ v ∷ []; bytes_ptr = q }))
encode_escape l s none d q =
    if d == b'('
    then (skip_to_end_of_interpolated_expression l.buffer_end q s.log
        >>= add_expression (flush s) q)
    else if d == b'x'
    then push_hex 2 s q
    else if d == b'u'
    then push_hex 4 s q
    else if d == b'U'
    then push_hex 8 s q
    else some (again (record s { bytes_ptr = q }))

-- One byte that is no end of the literal.
unfoldable pub encode_byte : Lexer → Encoding → Bytes → Option EncodingStep
unfolding encode_escape
encode_byte l s [] = none
encode_byte l s (c ∷ []) =
    if c == b'\\' then none else some (again (record s { temp = s.temp ++ c ∷ []; bytes_ptr = [] }))
encode_byte l s (c ∷ d ∷ q) =
    if c == b'\\'
    then encode_escape l s (simple_escape d) d q
    else some (again (record s { temp = s.temp ++ c ∷ []; bytes_ptr = d ∷ q }))

-- One round of the loop; `stop` is `Bytes.end()`, at the closing quote.
unfoldable pub encode_round : Lexer → Bytes → Encoding → Option EncodingStep
unfolding encode_byte
encode_round l stop s =
    if same_ptr s.bytes_ptr stop then some (done s) else encode_byte l s s.bytes_ptr

-- The last segment: the bytes themselves if nothing was replaced, else what was collected.
unfoldable pub last_segment : Bytes → Encoding → List StringSegment
last_segment stop s =
    let copied = s.segments ++ literal s.temp ∷ [] in
    elim s.segments [
      | [] ↦
          if length s.temp == (between s.bytes_begin stop).size
          then literal (contents (between s.bytes_begin stop)) ∷ []
          else copied
      | _ ∷ _ ↦ elim s.temp [ [] ↦ s.segments | _ ∷ _ ↦ copied ]
    ]

-- `getEncodedStringLiteral`
unfoldable pub get_encoded_string_literal : Lexer → Token → Option (List StringSegment × Log)
unfolding iterate encode_round last_segment
get_encoded_string_literal l t = do
  let begin_ = drop 1 t.text.start
  let stop = drop (t.text.size - 1) t.text.start
  s ←
      iterate (length begin_ + 1) (encode_round l stop)
        (record { bytes_ptr = begin_; bytes_begin = begin_; temp = []; segments = []; log = l.log })
  some (last_segment stop s, s.log)
