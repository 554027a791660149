-- ===== src/Parse/Lexer/Bounds/Words.antt =====
-- Identifiers, operators and numbers are formed without leaving the buffer.
use b1c3995fdcf53d46308da.Base.{
  true, ◌==◌, ◌≡◌, inl, inr, refl, Option, none, some, [], ◌∷◌, Bytes, arith, Returns, Returns->>=,
  Returns-weaken, Bool-cases, IsSuffix, IsSuffix-length,
}
use b1c3995fdcf53d46308da.Parse.Chars.{
  is_valid_start_of_identifier, is_valid_continuation_of_identifier,
}
use b1c3995fdcf53d46308da.Parse.Token.{Tok}
use b1c3995fdcf53d46308da.Parse.Lexer.State.{
  first_is, Log, Lexer, load, same_ptr, dec_ptr, skip_while, form_token,
}
use b1c3995fdcf53d46308da.Parse.Lexer.Identifiers.{lex_identifier, lex_dollar_ident}
use b1c3995fdcf53d46308da.Parse.Lexer.Operators.{
  is_left_bound, is_right_bound, form_operator_token, form_operator, lex_operator_identifier,
}
use b1c3995fdcf53d46308da.Parse.Lexer.Bounds.Pointers.{
  Reached, Reached-here, Reached-ne_nil, skip_while-Reached, load-dec_ptr, Moved, Formed,
  Formed-trans,
}

-- A token formed at a pointer that was reached.
abbrev FormsAt : Bytes → Bytes → Lexer → Option Lexer → Type 0
FormsAt s tok_start l m = Returns m (Formed tok_start l)

module _ (beyond : Bytes) (tok_start : Bytes) (l : Lexer) (e : l.buffer_end ≡ 0 ∷ beyond) where
  pub formed :
      (k : Tok) (p : Bytes) (log : Log)
      → Reached (0 ∷ beyond) l.cur_ptr p
      → Formed tok_start l (form_token k tok_start (record l { cur_ptr = p; log = log }))
  formed k p log a = record {
    moved = record { same_start = refl; same_end = refl; reached = rw e a };
    text = refl;
  }

  pub lex_identifier-Formed :
      first_is is_valid_start_of_identifier tok_start ≡ true
      → IsSuffix (0 ∷ beyond) l.cur_ptr
      → Returns (lex_identifier tok_start l) (Formed tok_start l)
  unfolding lex_identifier
  lex_identifier-Formed first h = rw first (
      Returns->>= (Reached (0 ∷ beyond) l.cur_ptr) (Formed tok_start l) (skip_while _ l.cur_ptr) _
        (skip_while-Reached 0 beyond _ l.cur_ptr
          (unfold is_valid_continuation_of_identifier in refl) h)
        (λ p a. formed _ p l.log a))

  pub lex_dollar_ident-Formed :
      first_is (λ c. c == b'$') tok_start ≡ true
      → IsSuffix (0 ∷ beyond) l.cur_ptr
      → Returns (lex_dollar_ident tok_start l) (Formed tok_start l)
  unfolding lex_dollar_ident
  lex_dollar_ident-Formed first h = rw first (
      Returns->>= (Reached (0 ∷ beyond) l.cur_ptr) (Formed tok_start l) (skip_while _ l.cur_ptr) _
        (skip_while-Reached 0 beyond _ l.cur_ptr refl h) (λ p a. formed _ p l.log a))

  -- The token lies in the buffer, in front of the sentinel.
  is_left_bound-Returns :
      IsSuffix tok_start l.buffer_start
      → Returns (is_left_bound tok_start l.buffer_start) (λ _. Unit {0})
  unfolding is_left_bound
  is_left_bound-Returns h = elim (Bool-cases (same_ptr tok_start l.buffer_start)) [
    | inl a ↦ rw a tt
    | inr b ↦ rw b (
        Returns->>= (λ _. Unit {0}) (λ _. Unit {0}) (load (dec_ptr l.buffer_start tok_start)) _
          (load-dec_ptr l.buffer_start tok_start (ground (arith, IsSuffix-length h))) (λ _ _. tt))
  ]

  is_right_bound-Returns :
      IsSuffix (0 ∷ beyond) l.cur_ptr → Returns (is_right_bound l.cur_ptr) (λ _. Unit {0})
  unfolding is_right_bound
  is_right_bound-Returns h = go l.cur_ptr h
    where
      go : (p : Bytes) → IsSuffix (0 ∷ beyond) p → Returns (is_right_bound p) (λ _. Unit {0})
      go [] h = absurd (Reached-ne_nil 0 beyond (Reached-here h))
      go (c ∷ r) h = tt

  pub form_operator_token-Formed :
      IsSuffix tok_start l.buffer_start
      → IsSuffix (0 ∷ beyond) l.cur_ptr
      → Returns (form_operator_token tok_start l) (Formed tok_start l)
  unfolding form_operator_token
  form_operator_token-Formed inside h =
      Returns->>= (λ _. Unit {0}) (Formed tok_start l) (is_left_bound tok_start l.buffer_start) _
        (is_left_bound-Returns inside)
        λ left _.
          Returns->>= (λ _. Unit {0}) (Formed tok_start l) (is_right_bound l.cur_ptr) _
            (is_right_bound-Returns h) λ right _. formed _ l.cur_ptr l.log (Reached-here h)

  form_operator-Formed :
      (k : Option Tok)
      → IsSuffix tok_start l.buffer_start
      → IsSuffix (0 ∷ beyond) l.cur_ptr
      → Returns (form_operator k tok_start l) (Formed tok_start l)
  unfolding form_operator
  form_operator-Formed (some k) inside h = formed k l.cur_ptr l.log (Reached-here h)
  form_operator-Formed none inside h = form_operator_token-Formed inside h

module _ (beyond : Bytes) (tok_start : Bytes) (l : Lexer) (e : l.buffer_end ≡ 0 ∷ beyond) where
  Moved-to : (p : Bytes) → Reached (0 ∷ beyond) l.cur_ptr p → Moved l (record l { cur_ptr = p })
  Moved-to p a = record { same_start = refl; same_end = refl; reached = rw e a }

  pub lex_operator_identifier-Formed :
      IsSuffix tok_start l.buffer_start
      → IsSuffix (0 ∷ beyond) l.cur_ptr
      → Returns (lex_operator_identifier tok_start l) (Formed tok_start l)
  unfolding lex_operator_identifier
  lex_operator_identifier-Formed inside h =
      Returns->>= (Reached (0 ∷ beyond) l.cur_ptr) (Formed tok_start l) (skip_while _ l.cur_ptr) _
        (skip_while-Reached 0 beyond _ l.cur_ptr refl h)
        λ p a.
          Returns-weaken (Formed tok_start (record l { cur_ptr = p })) (Formed tok_start l) _
            (form_operator-Formed beyond tok_start (record l { cur_ptr = p }) e _ inside a.inside)
            (λ l' f. Formed-trans (Moved-to p a) f)
