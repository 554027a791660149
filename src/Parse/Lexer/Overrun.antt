-- ===== src/Parse/Lexer/Overrun.antt =====
-- A string literal that the end of the buffer cuts off (lexCharacter and lexStringLiteral of
-- lib/Parse/Lexer.cpp).
use b1c3995fdcf53d46308da.Base.{
  length-append, done, Returns, ◌≤◌, ℕ, zero, suc, ◌+◌, ◌<◌, ◌≡◌, ◌≢◌, refl, ap, true, false, some,
  [], ◌∷◌, ◌++◌, Bytes, length, arith, again, iterate,
}
use b1c3995fdcf53d46308da.Parse.Token.{string_literal, between}
use b1c3995fdcf53d46308da.Parse.Lexer.State.{
  form_token, Lexer, Log, diagnose, dec_ptr, lex_nul_character,
}
use b1c3995fdcf53d46308da.Parse.Lexer.Characters.{lex_character}
use b1c3995fdcf53d46308da.Parse.Lexer.Strings.{
  at_interpolation, Literal, string_round, lex_string_literal,
}

-- An ASCII character that a string literal takes as it is.
pub record IsPlain (c : ℕ) : Type 0 where
  pub ascii : c < 0x80
  pub ne_nul : c ≢ 0
  pub ne_quote : c ≢ b'"'
  pub ne_backslash : c ≢ b'\\'
  pub ne_line_feed : c ≢ b'\n'
  pub ne_return : c ≢ b'\r'

abbrev pub AllPlain : Bytes → Type 0
AllPlain [] = Unit {0}
AllPlain (c ∷ r) = IsPlain c × AllPlain r

module _ (tok_start : Bytes) (l : Lexer) (rest : Bytes)
    (ends : l.buffer_end ≡ 0 ∷ b'"' ∷ rest) where
  lex_plain :
      (c : ℕ) (r : Bytes) (log : Log)
      → IsPlain c
      → lex_character l true true (c ∷ r) log ≡ some (c, r, log)
  unfolding lex_character
  lex_plain c r log p = ground arith

  lex_terminator :
      (log : Log)
      → (log' : Log) × (lex_character l true true (0 ∷ b'"' ∷ rest) log
          ≡ some (0, b'"' ∷ rest, log'))
  unfolding lex_character
  lex_terminator log = (
    diagnose log (dec_ptr l.buffer_start (0 ∷ b'"' ∷ rest)) lex_nul_character,
    ground (arith, ap length ends),
  )

  -- A plain character is one round.
  plain_round :
      (s : Literal) (c d : ℕ) (r : Bytes)
      → s.cur ≡ c ∷ d ∷ r
      → IsPlain c
      → string_round tok_start l s ≡ some (again (record s { cur = d ∷ r }))
  unfolding string_round
  plain_round s c d r at p =
      rw (at, string_round) (ground (arith, lex_plain c (d ∷ r) s.log p, p.ne_backslash, p.ascii))

  -- So is the terminator: the test for the end of the buffer looks one byte too early.
  terminator_round :
      (s : Literal)
      → s.cur ≡ 0 ∷ b'"' ∷ rest
      → (log : Log) × (string_round tok_start l s
          ≡ some (again (record s { cur = b'"' ∷ rest; log = log })))
  unfolding string_round
  terminator_round s at =
      let (log, e) = lex_terminator s.log in (log, rw (at, string_round) (rw e refl))

  no_interpolation : (r : Bytes) → at_interpolation (b'"' ∷ r) ≡ some false
  unfolding at_interpolation
  no_interpolation [] = refl
  no_interpolation (c ∷ r) = refl

  -- A string token whose text goes on behind the buffer.
  abbrev pub EndsBehind : Lexer → Type 0
  EndsBehind l' =
      (l'.cur_ptr ≡ rest)
      × (l'.next_token.kind ≡ string_literal)
      × (l'.next_token.text ≡ between tok_start rest)

  quote_round :
      (s : Literal)
      → s.cur ≡ b'"' ∷ rest
      → s.was_erroneous ≡ false
      → (l' : Lexer) × (string_round tok_start l s ≡ some (done l')) × EndsBehind l'
  unfolding string_round lex_character
  quote_round s at fine = (
    form_token string_literal tok_start (record l { cur_ptr = rest; log = s.log }),
    rw (at, string_round) (rw (no_interpolation rest) (rw fine refl)),
    (refl, refl, refl),
  )

  plain_overruns :
      (fuel : ℕ) (body : Bytes) (s : Literal)
      → s.cur ≡ body ++ 0 ∷ b'"' ∷ rest
      → s.was_erroneous ≡ false
      → AllPlain body
      → length s.cur ≤ fuel
      → Returns (iterate fuel (string_round tok_start l) s) EndsBehind
  unfolding iterate
  plain_overruns zero body s at fine p enough =
      absurd (omega (arith, ap length at, length-append body (0 ∷ b'"' ∷ rest)))
  plain_overruns (suc zero) [] s at fine p enough = absurd (omega (arith, ap length at))
  plain_overruns (suc (suc fuel)) [] s at fine p enough =
      let (log, e) = terminator_round s at in
      let (l', e', behind) = quote_round (record s { cur = b'"' ∷ rest; log = log }) refl fine in
      rw e (rw e' behind)
  plain_overruns (suc fuel) (c ∷ []) s at fine p enough =
      rw (plain_round s c 0 (b'"' ∷ rest) at p.0) (
        plain_overruns fuel [] (record s { cur = 0 ∷ b'"' ∷ rest }) refl fine tt
          (omega (arith, ap length at)))
  plain_overruns (suc fuel) (c ∷ d ∷ r) s at fine p enough =
      rw (plain_round s c d (r ++ 0 ∷ b'"' ∷ rest) at p.0) (
        plain_overruns fuel (d ∷ r) (record s { cur = d ∷ (r ++ 0 ∷ b'"' ∷ rest) }) refl fine p.1
          (omega (arith, ap length at)))

-- A string literal of plain characters that runs into the end of the buffer is not stopped by
-- the terminator. If the byte behind the terminator is a quote, outside the buffer, then
-- `lexStringLiteral` reads it: the result is a string token whose text takes in the terminator and
-- that quote, and the lexer stands behind them, outside its buffer.
pub lex_string_literal_overruns :
    (l : Lexer) (body rest : Bytes)
    → l.buffer_end ≡ 0 ∷ b'"' ∷ rest
    → l.cur_ptr ≡ body ++ 0 ∷ b'"' ∷ rest
    → AllPlain body
    → Returns (lex_string_literal (b'"' ∷ l.cur_ptr) l) (λ l'.
      (l'.cur_ptr ≡ rest)
      × (l'.next_token.kind ≡ string_literal)
      × (l'.next_token.text ≡ between (b'"' ∷ l.cur_ptr) rest))
unfolding lex_string_literal
lex_string_literal_overruns l body rest ends at p =
    plain_overruns (b'"' ∷ l.cur_ptr) l rest ends (length l.cur_ptr + 1) body
      (record { cur = l.cur_ptr; was_erroneous = false; log = l.log }) at refl p (omega arith)
