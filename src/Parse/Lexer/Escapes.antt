-- ===== src/Parse/Lexer/Escapes.antt =====
-- A literal that escapes what needs it stands for the bytes that were escaped
-- (getEncodedStringLiteral of lib/Parse/Lexer.cpp).
use b1c3995fdcf53d46308da.Base.{
  ℕ, zero, suc, ◌+◌, ◌-◌, ◌≤◌, ◌<◌, ◌≡◌, refl, ap, ◌∙◌, true, ◌==◌, ◌||◌, if◌then◌else◌, Option,
  some, List, [], ◌∷◌, ◌++◌, Bytes, length, take, drop, arith, again, done, iterate, Bool-cases,
  inl, inr, IsSuffix, here, there, IsSuffix-drop, IsSuffix-trans,
}
use mathlib.Core.List.{append_assoc, append-nil}
use b1c3995fdcf53d46308da.Parse.Token.{Token, contents, between}
use b1c3995fdcf53d46308da.Parse.Lexer.State.{Lexer, Log}
use b1c3995fdcf53d46308da.Parse.Lexer.Characters.{simple_escape}
use b1c3995fdcf53d46308da.Parse.Lexer.Encoded.{
  StringSegment, literal, Encoding, encode_round, last_segment, get_encoded_string_literal,
}

-- One byte, escaped if it is a quote, a backslash, a line end or a tabulator.
abbrev pub escaped_byte : ℕ → Bytes → Bytes
escaped_byte c r =
    if c == 9
    then b'\\' ∷ b't' ∷ r
    else if c == 10
    then b'\\' ∷ b'n' ∷ r
    else if c == 13
    then b'\\' ∷ b'r' ∷ r
    else if c == b'"' || c == b'\\'
    then b'\\' ∷ c ∷ r
    else c ∷ r

abbrev pub escaped : Bytes → Bytes → Bytes
escaped [] r = r
escaped (c ∷ s) r = escaped_byte c (escaped s r)

length-escaped : (s r : Bytes) → length s + length r ≤ length (escaped s r)
length-escaped [] r = omega arith
length-escaped (c ∷ s) r = ground (arith, length-escaped s r)

-- Escaping adds no byte exactly if it changes none.
escaped_same : (s r : Bytes) → length (escaped s r) ≡ length s + length r → escaped s r ≡ s ++ r
escaped_same [] r e = refl
escaped_same (c ∷ s) r e = ground (arith, escaped_same s r, length-escaped s r)

module _ (l : Lexer) (rest : Bytes) where
  abbrev stop : Bytes
  stop = b'"' ∷ rest

  abbrev loop : ℕ → Encoding → Option Encoding
  loop fuel = iterate fuel (encode_round l (b'"' ∷ rest))

  -- An escaped byte is one round, and gives the byte back.
  byte_round :
      (s : Encoding) (c : ℕ) (r : Bytes)
      → s.bytes_ptr ≡ escaped_byte c r
      → length (b'"' ∷ rest) ≤ length r
      → encode_round l (b'"' ∷ rest) s
        ≡ some (again (record s { bytes_ptr = r; temp = s.temp ++ c ∷ [] }))
  unfolding encode_round simple_escape
  byte_round s c [] at h = absurd (omega arith)
  byte_round s c (d ∷ r) at h = rw (at, encode_round) (ground arith)

  escaped_run :
      (fuel : ℕ) (s : Encoding) (b : Bytes)
      → s.bytes_ptr ≡ escaped b (b'"' ∷ rest)
      → length b < fuel
      → loop fuel s ≡ some (record s { bytes_ptr = b'"' ∷ rest; temp = s.temp ++ b })
  unfolding iterate
  escaped_run zero s b at h = absurd (omega arith)
  escaped_run (suc fuel) s [] at h =
      let stops : encode_round l (b'"' ∷ rest) s ≡ some (done s) =
        unfold encode_round in ground (arith, at) in
      rw (stops, append-nil, ← at) refl
  escaped_run (suc fuel) s (c ∷ b) at h =
      rw
        (byte_round s c (escaped b (b'"' ∷ rest)) at
          (omega (arith, length-escaped b (b'"' ∷ rest))))
        (escaped_run fuel
            (record s { bytes_ptr = escaped b (b'"' ∷ rest); temp = s.temp ++ c ∷ [] }) b refl
            (omega arith)
          ∙ rw append_assoc)

escaped_byte-IsSuffix : (c : ℕ) (r : Bytes) → IsSuffix r (escaped_byte c r)
escaped_byte-IsSuffix c r =
    ground (arith, two b'\\' b't', two b'\\' b'n', two b'\\' b'r', two b'\\' c, one)
  where
    two : (x y : ℕ) → IsSuffix r (x ∷ y ∷ r)
    two x y = there (there here)

    one : IsSuffix r (c ∷ r)
    one = there here

take-length : (b s : Bytes) → take (length b) (b ++ s) ≡ b
take-length [] s = refl
take-length (c ∷ b) s = ap (◌∷◌ c) (take-length b s)

escaped-IsSuffix : (b r : Bytes) → IsSuffix r (escaped b r)
escaped-IsSuffix [] r = here
escaped-IsSuffix (c ∷ b) r =
    IsSuffix-trans (escaped-IsSuffix b r) (escaped_byte-IsSuffix c (escaped b r))

-- What is collected is the text itself where its length is that of the literal's text.
last_segment-escaped :
    (b rest : Bytes) (log : Log)
    → last_segment (b'"' ∷ rest) (record {
      bytes_ptr = b'"' ∷ rest;
      bytes_begin = escaped b (b'"' ∷ rest);
      temp = b;
      segments = [];
      log = log;
    })
      ≡ literal b ∷ []
unfolding last_segment
last_segment-escaped b rest log =
    elim (Bool-cases (length b == length (escaped b (b'"' ∷ rest)) - length (b'"' ∷ rest))) [
      | inl same ↦ rw same (ap (λ (x : Bytes). literal x ∷ []) (copied same))
      | inr other ↦ rw other refl
    ]
  where
    copied :
        (length b == length (escaped b (b'"' ∷ rest)) - length (b'"' ∷ rest)) ≡ true
        → contents (between (escaped b (b'"' ∷ rest)) (b'"' ∷ rest)) ≡ b
    copied same =
        let size : length (escaped b (b'"' ∷ rest)) - length (b'"' ∷ rest) ≡ length b =
          ground arith in
        let text : escaped b (b'"' ∷ rest) ≡ b ++ b'"' ∷ rest =
          escaped_same b (b'"' ∷ rest) (omega (arith, length-escaped b (b'"' ∷ rest))) in
        rw size (rw text (take-length b (b'"' ∷ rest)))

-- The token of a string literal whose text is `b`, escaped, has one segment, which is `b`
-- itself, for all bytes `b`; nothing is reported.
pub get_encoded_string_literal-escaped :
    (l : Lexer) (t : Token) (b rest : Bytes)
    → t.text ≡ between (b'"' ∷ escaped b (b'"' ∷ rest)) rest
    → get_encoded_string_literal l t ≡ some (literal b ∷ [], l.log)
unfolding get_encoded_string_literal
get_encoded_string_literal-escaped l t b rest at =
    rw (at, closing, run)
      (ap (λ (x : List StringSegment). some (x, l.log)) (last_segment-escaped b rest l.log))
  where
    open_quote : Bytes
    open_quote = b'"' ∷ escaped b (b'"' ∷ rest)

    closing : drop (length open_quote - length rest - 1) open_quote ≡ b'"' ∷ rest
    closing =
        let e : length open_quote - length rest - 1 ≡ length open_quote - length (b'"' ∷ rest) =
          omega arith in
        rw e (IsSuffix-drop (there (escaped-IsSuffix b (b'"' ∷ rest))))

    run :
        loop l rest (length (escaped b (b'"' ∷ rest)) + 1) (record {
          bytes_ptr = escaped b (b'"' ∷ rest);
          bytes_begin = escaped b (b'"' ∷ rest);
          temp = [];
          segments = [];
          log = l.log;
        })
        ≡ some (record {
          bytes_ptr = b'"' ∷ rest;
          bytes_begin = escaped b (b'"' ∷ rest);
          temp = b;
          segments = [];
          log = l.log;
        })
    run = escaped_run l rest _ _ b refl (omega (arith, length-escaped b (b'"' ∷ rest)))
