-- ===== src/Parse/Lexer/Bounds/Literals.antt =====
-- Character and string literals end at the latest at a line break, inside the buffer.
use b1c3995fdcf53d46308da.Base.{
  ℕ, ◌+◌, ◌≡◌, inl, inr, refl, Bool, true, false, not, ◌||◌, ◌==◌, if◌then◌else◌, some, ◌>>=◌, [],
  ◌∷◌, Bytes, length, arith, Returns, Returns->>=, Bool-cases, IsSuffix, here, there,
  IsSuffix-length, IsSuffix-trans, Step, StepOk, iterate-Returns,
}
use b1c3995fdcf53d46308da.Parse.Token.{unknown, character_literal}
use b1c3995fdcf53d46308da.Parse.Utf8.{invalid}
use b1c3995fdcf53d46308da.Parse.Lexer.State.{
  first_is, Log, diagnose, Lexer, lex_unterminated_string,
}
use b1c3995fdcf53d46308da.Parse.Lexer.Characters.{
  CharResult, lex_character, close_character_literal, lex_character_literal,
}
use b1c3995fdcf53d46308da.Parse.Lexer.Strings.{
  Parens, interpolation_round, skip_to_end_of_interpolated_expression, Literal, at_interpolation,
  after_interpolation, close_string, after_character, interpolation, string_round,
  lex_string_literal,
}
use b1c3995fdcf53d46308da.Parse.Lexer.Bounds.Pointers.{
  Reached, Reached-trans, Reached-here, Reached-next, Reached-ne_nil, inside_ne_nil, Formed,
}
use b1c3995fdcf53d46308da.Parse.Lexer.Bounds.Words.{formed}
use b1c3995fdcf53d46308da.Parse.Lexer.Bounds.Characters.{StopsAt, CharOk, lex_character-CharOk}

module _ (beyond : Bytes) where
  -- The end of the last line: a line break, and the terminator.
  abbrev pub last_line : Bytes
  last_line = b'\n' ∷ 0 ∷ beyond

  before_end : {p q : Bytes} → Reached (b'\n' ∷ 0 ∷ beyond) p q → Reached (0 ∷ beyond) p q
  before_end a = record { inside = IsSuffix-trans (there here) a.inside; forward = a.forward }

  module _ (tok_start : Bytes) (l : Lexer) (e : l.buffer_end ≡ 0 ∷ beyond) where
    close_character_literal-Formed :
        (t : CharResult)
        → CharOk (b'\n' ∷ 0 ∷ beyond) l.cur_ptr false t
        → Returns (close_character_literal tok_start l t) (Formed tok_start l)
    unfolding close_character_literal
    close_character_literal-Formed (v, [], log) ok =
        absurd (Reached-ne_nil b'\n' (0 ∷ beyond) ok.reached)
    close_character_literal-Formed (v, q ∷ r, log) ok =
        elim (Bool-cases (v == invalid || not (q == b'\''))) [
          | inl bad ↦ rw bad (formed beyond tok_start l e unknown (q ∷ r) _ (before_end ok.reached))
          | inr good ↦ rw good (
              formed beyond tok_start l e character_literal r log
                (before_end (Reached-next b'\n' (0 ∷ beyond) q r ok.reached (λ z. ground arith))))
        ]

    pub lex_character_literal-Formed :
        first_is (λ c. c == b'\'') tok_start ≡ true
        → IsSuffix (b'\n' ∷ 0 ∷ beyond) l.cur_ptr
        → Returns (lex_character_literal tok_start l) (Formed tok_start l)
    unfolding lex_character_literal
    lex_character_literal-Formed first h = rw first (
        Returns->>= (CharOk (b'\n' ∷ 0 ∷ beyond) l.cur_ptr false) (Formed tok_start l)
          (lex_character l false true l.cur_ptr l.log) _
          (lex_character-CharOk (0 ∷ beyond) true false l l.cur_ptr l.log h)
          close_character_literal-Formed)

  interpolation_round-Ok :
      (buffer_end from : Bytes) (s : Parens) (p : Bytes)
      → Reached (b'\n' ∷ 0 ∷ beyond) from p
      → Returns (interpolation_round buffer_end s p) (
          StepOk
            (λ (s : Parens). Reached (b'\n' ∷ 0 ∷ beyond) from s.cur)
            (λ (t : Bytes × Log). Reached (b'\n' ∷ 0 ∷ beyond) from t.0)
            (λ s. length s.cur)
            (length p))
  unfolding interpolation_round
  interpolation_round-Ok buffer_end from s [] a = absurd (Reached-ne_nil b'\n' (0 ∷ beyond) a)
  interpolation_round-Ok buffer_end from s (c ∷ r) a =
      ground (arith, Reached-next b'\n' (0 ∷ beyond) c r a)

  -- The scan of an interpolated expression ends inside the line.
  interpolated-Reached :
      (buffer_end p : Bytes) (log : Log)
      → IsSuffix (b'\n' ∷ 0 ∷ beyond) p
      → Returns
          (skip_to_end_of_interpolated_expression buffer_end p log)
          (λ t. Reached (b'\n' ∷ 0 ∷ beyond) p t.0)
  unfolding skip_to_end_of_interpolated_expression
  interpolated-Reached buffer_end p log h =
      iterate-Returns (λ (s : Parens). Reached (b'\n' ∷ 0 ∷ beyond) p s.cur) _ (λ s. length s.cur)
        (λ s. interpolation_round buffer_end s s.cur)
        (λ s a. interpolation_round-Ok buffer_end p s s.cur a) (length p + 1)
        (record { cur = p; count = 1; log = log }) (omega arith) (Reached-here h)

  module _ (tok_start : Bytes) (l : Lexer) (e : l.buffer_end ≡ 0 ∷ beyond) where
    abbrev RoundOk : ℕ → Step Literal Lexer → Type 0
    RoundOk =
        StepOk (λ (s : Literal). Reached (b'\n' ∷ 0 ∷ beyond) l.cur_ptr s.cur) (Formed tok_start l)
          (λ s. length s.cur)

    close_string-Ok :
        (s : Literal) (p : Bytes) (n : ℕ)
        → Reached (b'\n' ∷ 0 ∷ beyond) l.cur_ptr p
        → StopsAt p
        → Returns (close_string tok_start l s p) (RoundOk n)
    unfolding close_string
    close_string-Ok s [] n a at = absurd at
    close_string-Ok s (c ∷ r) n a at = elim (Bool-cases (c == b'"')) [
      | inl q ↦ rw q (
          formed beyond tok_start l e _ r s.log
            (before_end (Reached-next b'\n' (0 ∷ beyond) c r a (λ z. ground arith))))
      | inr q' ↦ ground (
        arith,
        formed beyond tok_start l e unknown (c ∷ r)
            (diagnose s.log tok_start lex_unterminated_string) (before_end a),
      )
    ]

    after_character-Ok :
        (s : Literal) (t : CharResult)
        → Reached (b'\n' ∷ 0 ∷ beyond) l.cur_ptr s.cur
        → CharOk (b'\n' ∷ 0 ∷ beyond) s.cur true t
        → Returns (after_character tok_start l s t) (RoundOk (length s.cur))
    unfolding after_character
    after_character-Ok s (v, p, log) a ok = elim (Bool-cases (v == invalid)) [
      | inl end_ ↦ rw end_ (
          close_string-Ok (record s { cur = p; log = log }) p (length s.cur)
            (Reached-trans a ok.reached) (ok.stopped refl (ground arith)))
      | inr more ↦ rw more (Reached-trans a ok.reached, ok.progress (ground arith))
    ]

    after_interpolation-Ok :
        (s : Literal) (c d : ℕ) (body : Bytes) (t : Bytes × Log)
        → Reached (b'\n' ∷ 0 ∷ beyond) l.cur_ptr body
        → Reached (b'\n' ∷ 0 ∷ beyond) body t.0
        → Returns (after_interpolation s body t) (RoundOk (length (c ∷ d ∷ body)))
    unfolding after_interpolation
    after_interpolation-Ok s c d body ([], log) a b = absurd (Reached-ne_nil b'\n' (0 ∷ beyond) b)
    after_interpolation-Ok s c d body (x ∷ r, log) a b = elim (Bool-cases (x == b')')) [
      | inl q ↦ rw q (
        Reached-trans a (Reached-next b'\n' (0 ∷ beyond) x r b (λ z. ground arith)),
        omega (arith, IsSuffix-length b.forward),
      )
      | inr q' ↦ rw q' (a, omega arith)
    ]

    interpolation-Ok :
        (s : Literal) (p : Bytes)
        → Reached (b'\n' ∷ 0 ∷ beyond) l.cur_ptr p
        → at_interpolation p ≡ some true
        → Returns (interpolation l s p) (RoundOk (length p))
    unfolding at_interpolation interpolation
    interpolation-Ok s [] a at = absurd (Reached-ne_nil b'\n' (0 ∷ beyond) a)
    interpolation-Ok s (c ∷ []) a at = absurd (ground arith)
    interpolation-Ok s (c ∷ d ∷ body) a at =
        let a₁ = Reached-next b'\n' (0 ∷ beyond) c (d ∷ body) a (λ z. ground arith) in
        let a₂ = Reached-next b'\n' (0 ∷ beyond) d body a₁ (λ z. ground arith) in
        Returns->>= (λ t. Reached (b'\n' ∷ 0 ∷ beyond) body t.0) (RoundOk (length (c ∷ d ∷ body)))
          (skip_to_end_of_interpolated_expression l.buffer_end body s.log) _
          (interpolated-Reached l.buffer_end body s.log a₂.inside)
          (λ t b. after_interpolation-Ok s c d body t a₂ b)

    at_interpolation-Returns :
        (p : Bytes)
        → IsSuffix (b'\n' ∷ 0 ∷ beyond) p
        → Returns (at_interpolation p) (λ b. at_interpolation p ≡ some b)
    unfolding at_interpolation
    at_interpolation-Returns [] h = absurd (inside_ne_nil b'\n' (0 ∷ beyond) h)
    at_interpolation-Returns (c ∷ []) h = absurd (omega (arith, IsSuffix-length h))
    at_interpolation-Returns (c ∷ d ∷ r) h = refl

    string_round-Ok :
        (s : Literal)
        → Reached (b'\n' ∷ 0 ∷ beyond) l.cur_ptr s.cur
        → Returns (string_round tok_start l s) (RoundOk (length s.cur))
    unfolding string_round
    string_round-Ok s a =
        Returns->>= (λ b. at_interpolation s.cur ≡ some b) (RoundOk (length s.cur))
          (at_interpolation s.cur) _ (at_interpolation-Returns s.cur a.inside) go
      where
        go :
            (b : Bool)
            → at_interpolation s.cur ≡ some b
            → Returns
                (if b
                  then interpolation l s s.cur
                  else (lex_character l true true s.cur s.log >>= after_character tok_start l s))
                (RoundOk (length s.cur))
        go true at = interpolation-Ok s s.cur a at
        go false at =
            Returns->>= (CharOk (b'\n' ∷ 0 ∷ beyond) s.cur true) (RoundOk (length s.cur))
              (lex_character l true true s.cur s.log) (after_character tok_start l s)
              (lex_character-CharOk (0 ∷ beyond) true true l s.cur s.log a.inside)
              (λ t. after_character-Ok s t a)

    pub lex_string_literal-Formed :
        first_is (λ c. c == b'"') tok_start ≡ true
        → IsSuffix (b'\n' ∷ 0 ∷ beyond) l.cur_ptr
        → Returns (lex_string_literal tok_start l) (Formed tok_start l)
    unfolding lex_string_literal
    lex_string_literal-Formed first h = rw first (
        iterate-Returns _ (Formed tok_start l) (λ s. length s.cur) (string_round tok_start l)
          string_round-Ok (length l.cur_ptr + 1)
          (record { cur = l.cur_ptr; was_erroneous = false; log = l.log }) (omega arith)
          (Reached-here h))
