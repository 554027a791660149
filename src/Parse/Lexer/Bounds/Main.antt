-- ===== src/Parse/Lexer/Bounds/Main.antt =====
-- `lexImpl` returns a token of the buffer, for every buffer that ends with a line break.
use b1c3995fdcf53d46308da.Base.{
  ℕ, suc, ◌+◌, ◌<◌, ◌≡◌, ◌≢◌, ◌⊎◌, inl, inr, refl, ap, sym, ◌∙◌, subst, true, ◌==◌, if◌then◌else◌,
  Option, some, ◌>>=◌, [], ◌∷◌, Bytes, length, arith, Returns, Returns->>=, Returns-weaken,
  Bool-cases, IsSuffix, there, IsSuffix-length, IsSuffix-trans, IsSuffix-of_length, IsSuffix-eq,
  cons-eq_tail, Step, again, done, StepOk, iterate-Returns,
}
use b1c3995fdcf53d46308da.Parse.Chars.{is_alpha, is_valid_start_of_identifier, is_digit}
use b1c3995fdcf53d46308da.Parse.Token.{
  Tok, between, eof, l_paren, l_paren_space, l_square, l_square_space, unknown, period, ellipsis,
}
use b1c3995fdcf53d46308da.Parse.Lexer.State.{
  in_range, Log, Lexer, load, same_ptr, dec_ptr, form_token, is_preceded_by_space,
}
use b1c3995fdcf53d46308da.Parse.Lexer.Main.{
  Start, start_of, other, whitespace, nul, open_paren, close_paren, open_square, dot, slash,
  punctuation, operator, letter, dollar, digit, quote, double_quote, lex_dot, lex_slash, dispatch,
  lex_round, lex_impl,
}
use b1c3995fdcf53d46308da.Parse.Lexer.Comments.{behind_slash}
use b1c3995fdcf53d46308da.Parse.Lexer.Numbers.{lex_number}
use b1c3995fdcf53d46308da.Parse.Lexer.Operators.{form_operator_token}
use b1c3995fdcf53d46308da.Parse.Lexer.Bounds.Pointers.{
  Reached, Reached-here, Reached-next, Reached-ne_nil, inside_tail, inside_ne_nil,
  inside_tail_of_length, Moved, Formed, Formed-trans, load-dec_ptr,
}
use b1c3995fdcf53d46308da.Parse.Lexer.Bounds.Words.{
  formed, lex_identifier-Formed, lex_dollar_ident-Formed, form_operator_token-Formed,
  lex_operator_identifier-Formed,
}
use b1c3995fdcf53d46308da.Parse.Lexer.Bounds.Numbers.{lex_number-Formed}
use b1c3995fdcf53d46308da.Parse.Lexer.Bounds.Comments.{
  skip_slash_slash_comment-Moved, skip_slash_star_comment-Moved,
}
use b1c3995fdcf53d46308da.Parse.Lexer.Bounds.Literals.{
  lex_character_literal-Formed, lex_string_literal-Formed,
}

-- The lexer stands inside a buffer whose last line ends with a line break.
pub record IsReady (beyond : Bytes) (l : Lexer) : Type 0 where
  pub ends : l.buffer_end ≡ 0 ∷ beyond
  pub last_line : IsSuffix (b'\n' ∷ 0 ∷ beyond) l.buffer_start
  pub inside : IsSuffix (0 ∷ beyond) l.cur_ptr
  pub in_buffer : IsSuffix l.cur_ptr l.buffer_start

-- What `lexImpl` does: the next token is the text between a place at or behind the old pointer
-- and the new pointer. The new pointer is still in the buffer, in front of the terminator, and
-- has gone forward; or the token is `eof`, at the terminator.
pub record Lexed (beyond : Bytes) (l l' : Lexer) : Type 0 where
  pub tok_start : Bytes
  pub same_start : l'.buffer_start ≡ l.buffer_start
  pub same_end : l'.buffer_end ≡ l.buffer_end
  pub skipped : IsSuffix tok_start l.cur_ptr
  pub text : l'.next_token.text ≡ between tok_start l'.cur_ptr
  pub inside :
      ((l'.next_token.kind ≡ eof) × (tok_start ≡ 0 ∷ beyond) × (l'.cur_ptr ≡ beyond))
      ⊎ (IsSuffix (0 ∷ beyond) l'.cur_ptr
          × IsSuffix l'.cur_ptr tok_start
          × (length l'.cur_ptr < length tok_start))

digit_first : (c : ℕ) → start_of c ≡ digit → is_digit c ≡ true
unfolding start_of is_digit
digit_first c e = ground arith

nul_first : (c : ℕ) → start_of c ≡ nul → c ≡ 0
unfolding start_of
nul_first c e = ground arith

dot_first : (c : ℕ) → start_of c ≡ dot → c ≡ b'.'
unfolding start_of
dot_first c e = ground arith

-- The assertions on the first byte of a token.
letter_first : (c : ℕ) → start_of c ≡ letter → is_valid_start_of_identifier c ≡ true
unfolding start_of is_valid_start_of_identifier is_alpha
letter_first c e = ground arith

dollar_first : (c : ℕ) → start_of c ≡ dollar → (c == b'$') ≡ true
unfolding start_of
dollar_first c e = ground arith

quote_first : (c : ℕ) → start_of c ≡ quote → (c == b'\'') ≡ true
unfolding start_of
quote_first c e = ground arith

double_quote_first : (c : ℕ) → start_of c ≡ double_quote → (c == b'"') ≡ true
unfolding start_of
double_quote_first c e = ground arith

slash_first : (c : ℕ) → start_of c ≡ slash → c ≡ b'/'
unfolding start_of
slash_first c e = ground arith

-- A byte whose case is not `nul` is not the terminator, and one that is no whitespace either is
-- no line break.
first_ne_zero : (c : ℕ) (k : Start) → start_of c ≡ k → k ≢ nul → c ≢ 0
first_ne_zero c k e ne z = ne (unfold start_of in ground arith)

first_ne_line : (c : ℕ) (k : Start) → start_of c ≡ k → k ≢ whitespace → c ≢ b'\n'
first_ne_line c k e ne z = ne (unfold start_of in ground arith)

module _ (beyond : Bytes) (from : Lexer) where
  abbrev RoundOk : ℕ → Step Lexer Lexer → Type 0
  RoundOk =
      StepOk (λ (m : Lexer). IsReady beyond m × Moved from m) (Lexed beyond from)
        (λ m. length m.cur_ptr)

  -- `l` stands behind the first byte `c` of a token, at `r`.
  module _ (l : Lexer) (c : ℕ) (r : Bytes) (at : l.cur_ptr ≡ r) (ends : l.buffer_end ≡ 0 ∷ beyond)
      (last_line : IsSuffix (b'\n' ∷ 0 ∷ beyond) l.buffer_start)
      (inside : IsSuffix (0 ∷ beyond) (c ∷ r)) (in_buffer : IsSuffix (c ∷ r) l.buffer_start)
      (start_eq : l.buffer_start ≡ from.buffer_start) (end_eq : l.buffer_end ≡ from.buffer_end)
      (skipped : IsSuffix (c ∷ r) from.cur_ptr) where
    -- A token formed behind the first byte.
    lexed : (l' : Lexer) → Formed (c ∷ r) l l' → Lexed beyond from l'
    lexed l' f =
        let a : Reached (0 ∷ beyond) r l'.cur_ptr =
          subst (λ s. Reached (0 ∷ beyond) s l'.cur_ptr) at
            (subst (λ s. Reached s l.cur_ptr l'.cur_ptr) ends f.moved.reached) in
        record {
          tok_start = c ∷ r;
          same_start = f.moved.same_start ∙ start_eq;
          same_end = f.moved.same_end ∙ end_eq;
          skipped = skipped;
          text = f.text;
          inside = inr (a.inside, there a.forward, omega (arith, IsSuffix-length a.forward));
        }

    finished :
        (m : Option Lexer)
        → Returns m (Formed (c ∷ r) l)
        → Returns (m >>= λ l'. some (done l')) (RoundOk (suc (length r)))
    finished m h = Returns->>= (Formed (c ∷ r) l) (RoundOk (suc (length r))) m _ h lexed

    -- A restart behind whitespace or a comment.
    restarts : (l' : Lexer) → Moved l l' → RoundOk (suc (length r)) (again l')
    restarts l' f =
        let a : Reached (0 ∷ beyond) r l'.cur_ptr =
          subst (λ s. Reached (0 ∷ beyond) s l'.cur_ptr) at
            (subst (λ s. Reached s l.cur_ptr l'.cur_ptr) ends f.reached) in
        (
          (
            record {
              ends = f.same_end ∙ ends;
              last_line = rw f.same_start last_line;
              inside = a.inside;
              in_buffer = rw f.same_start (IsSuffix-trans (there a.forward) in_buffer);
            },
            record {
              same_start = f.same_start ∙ start_eq;
              same_end = f.same_end ∙ end_eq;
              reached = record {
                inside = rw (← end_eq, ends) a.inside;
                forward = IsSuffix-trans (there a.forward) skipped;
              };
            },
          ),
          omega (arith, IsSuffix-length a.forward),
        )

    restarted :
        (m : Option Lexer)
        → Returns m (Moved l)
        → Returns (m >>= λ l'. some (again l')) (RoundOk (suc (length r)))
    restarted m h = Returns->>= (Moved l) (RoundOk (suc (length r))) m _ h restarts

    behind : c ≢ 0 → IsSuffix (0 ∷ beyond) l.cur_ptr
    behind ne = rw at (inside_tail 0 beyond c r inside ne)

    behind_in_line : c ≢ 0 → c ≢ b'\n' → IsSuffix (b'\n' ∷ 0 ∷ beyond) l.cur_ptr
    behind_in_line ne ne' = rw at (
        inside_tail b'\n' (0 ∷ beyond) c r
          (IsSuffix-of_length last_line in_buffer
            (omega (arith, IsSuffix-length (inside_tail 0 beyond c r inside ne))))
          ne')

    stays : (log : Log) → IsSuffix (0 ∷ beyond) l.cur_ptr → Moved l (record l { log = log })
    stays log h = record { same_start = refl; same_end = refl; reached = rw ends (Reached-here h) }

    -- A token of one byte.
    one_byte :
        (k : Tok) (log : Log)
        → c ≢ 0
        → Lexed beyond from (form_token k (c ∷ r) (record l { log = log }))
    one_byte k log ne =
        lexed _ (formed beyond (c ∷ r) l ends k l.cur_ptr log (Reached-here (behind ne)))

    preceded : Returns (is_preceded_by_space (c ∷ r) l) (λ _. Unit {0})
    unfolding is_preceded_by_space
    preceded = elim (Bool-cases (same_ptr (c ∷ r) l.buffer_start)) [
      | inl first ↦ rw first tt
      | inr later ↦ rw later (
          Returns->>= (λ _. Unit {0}) (λ _. Unit {0}) (load (dec_ptr l.buffer_start (c ∷ r))) _
            (load-dec_ptr l.buffer_start (c ∷ r) (ground (arith, IsSuffix-length in_buffer)))
            (λ _ _. tt))
    ]

    bracket :
        (k k' : Tok)
        → c ≢ 0
        → Returns
            (is_preceded_by_space (c ∷ r) l >>= λ spaced.
              some (done (form_token (if spaced then k else k') (c ∷ r) l)))
            (RoundOk (suc (length r)))
    bracket k k' ne =
        Returns->>= (λ _. Unit {0}) (RoundOk (suc (length r))) (is_preceded_by_space (c ∷ r) l) _
          preceded (λ spaced _. one_byte (if spaced then k else k') l.log ne)

    -- At a nul byte: the end of the buffer, or a byte to skip.
    nul-Ok : c ≡ 0 → Returns (dispatch nul (c ∷ r) l) (RoundOk (suc (length r)))
    unfolding dispatch
    nul-Ok zero_ = elim (Bool-cases (same_ptr (c ∷ r) l.buffer_end)) [
      | inl last ↦
          let e : 0 ∷ beyond ≡ c ∷ r = IsSuffix-eq inside (ground (arith, ap length ends)) in
          rw last (record {
            tok_start = c ∷ r;
            same_start = start_eq;
            same_end = end_eq;
            skipped = skipped;
            text = refl;
            inside = inl (refl, sym e, at ∙ cons-eq_tail (sym e));
          })
      | inr middle ↦ rw middle (
          restarts _ (
            stays _ (
              rw at
                (inside_tail_of_length 0 beyond c r inside (λ e. ground (arith, ap length ends))))))
    ]

    Moved-to : (p : Bytes) → Reached (0 ∷ beyond) l.cur_ptr p → Moved l (record l { cur_ptr = p })
    Moved-to p a = record { same_start = refl; same_end = refl; reached = rw ends a }

    number-Ok :
        (is_digit c ≡ true) ⊎ (c ≡ b'.') → c ≢ 0 → Returns (lex_number (c ∷ r) l) (Formed (c ∷ r) l)
    number-Ok first ne =
        lex_number-Formed beyond l ends c r first
          (subst (Reached (0 ∷ beyond) l.cur_ptr) at (Reached-here (behind ne)))

    -- `..` and `...`, at the second point.
    two_points-Ok :
        (d : ℕ) (q : Bytes)
        → Reached (0 ∷ beyond) l.cur_ptr (d ∷ q)
        → Returns
            (if d == b'.'
              then some (form_token ellipsis (c ∷ r) (record l { cur_ptr = q }))
              else form_operator_token (c ∷ r) (record l { cur_ptr = d ∷ q }))
            (Formed (c ∷ r) l)
    two_points-Ok d q a = elim (Bool-cases (d == b'.')) [
      | inl third ↦ rw third (
          formed beyond (c ∷ r) l ends ellipsis q l.log
            (Reached-next 0 beyond d q a (λ z. ground arith)))
      | inr two ↦ rw two (
          Returns-weaken (Formed (c ∷ r) (record l { cur_ptr = d ∷ q })) (Formed (c ∷ r) l) _
            (form_operator_token-Formed beyond (c ∷ r) (record l { cur_ptr = d ∷ q }) ends in_buffer
              a.inside)
            (λ l' f. Formed-trans (Moved-to (d ∷ q) a) f))
    ]

    at_r : (p : Bytes) → p ≡ r → c ≢ 0 → Reached (0 ∷ beyond) l.cur_ptr p
    at_r p e ne = subst (Reached (0 ∷ beyond) l.cur_ptr) (at ∙ sym e) (Reached-here (behind ne))

    dot-Ok : (p : Bytes) → p ≡ r → c ≡ b'.' → Returns (lex_dot (c ∷ r) l p) (Formed (c ∷ r) l)
    unfolding lex_dot
    dot-Ok [] e first =
        absurd (inside_ne_nil 0 beyond (rw e (inside_tail 0 beyond c r inside (omega arith))))
    dot-Ok (d ∷ []) e first = ground (
      arith,
      number-Ok (inr first) (omega arith),
      one_point,
      Reached-next 0 beyond d [] (at_r (d ∷ []) e (omega arith)),
      Reached-ne_nil 0 beyond {from = l.cur_ptr},
    )
      where
        one_point : Formed (c ∷ r) l (form_token period (c ∷ r) l)
        one_point =
            formed beyond (c ∷ r) l ends period l.cur_ptr l.log
              (Reached-here (behind (omega arith)))
    dot-Ok (d ∷ x ∷ q) e first = elim (Bool-cases (is_digit d)) [
      | inl number ↦ rw number (number-Ok (inr first) (omega arith))
      | inr n ↦ rw n (elim (Bool-cases (d == b'.')) [
        | inl two ↦ rw two (
            two_points-Ok x q (
              Reached-next 0 beyond d (x ∷ q) (at_r (d ∷ x ∷ q) e (omega arith))
                (λ z. ground arith)))
        | inr one ↦ rw one (
            formed beyond (c ∷ r) l ends period l.cur_ptr l.log
              (Reached-here (behind (omega arith))))
      ])
    ]

    two_bytes :
        (d : ℕ) (q : Bytes)
        → d ∷ q ≡ r
        → c ≡ b'/'
        → (k : ℕ) → (d == k) ≡ true
        → behind_slash k (c ∷ r) l.cur_ptr ≡ true
    two_bytes d q e first k second =
        let slashes : (c == b'/') ≡ true = ground arith in rw slashes (rw at (rw (← e) second))

    slash-Ok :
        (p : Bytes)
        → p ≡ r
        → c ≢ 0
        → c ≡ b'/'
        → Returns (lex_slash (c ∷ r) l p) (RoundOk (suc (length r)))
    unfolding lex_slash
    slash-Ok [] e ne first = absurd (Reached-ne_nil 0 beyond (at_r [] e ne))
    slash-Ok (d ∷ q) e ne first = elim (Bool-cases (d == b'/')) [
      | inl line ↦ rw line (
          restarted _ (
            skip_slash_slash_comment-Moved beyond (c ∷ r) l (two_bytes d q e first b'/' line) ends
              (behind ne)))
      | inr n ↦ rw n (elim (Bool-cases (d == b'*')) [
        | inl block ↦ rw block (
            restarted _ (
              skip_slash_star_comment-Moved beyond l (c ∷ r) d q (two_bytes d q e first b'*' block)
                (at ∙ sym e) ends
                (Reached-next 0 beyond d q (at_r (d ∷ q) e ne) (λ z. ground arith)).inside
                (omega (arith, ap length e, IsSuffix-length in_buffer))))
        | inr op ↦ rw op (
            finished _ (lex_operator_identifier-Formed beyond (c ∷ r) l ends in_buffer (behind ne)))
      ])
    ]

    -- A case that is neither `nul` nor one that reads the bytes behind in a way of its own.
    dispatch-Ok :
        (k : Start) → start_of c ≡ k → Returns (dispatch k (c ∷ r) l) (RoundOk (suc (length r)))
    unfolding dispatch
    dispatch-Ok other e = one_byte unknown _ (first_ne_zero c other e (λ x. cc))
    dispatch-Ok whitespace e =
        restarts l (stays l.log (behind (first_ne_zero c whitespace e (λ x. cc))))
    dispatch-Ok nul e = nul-Ok (nul_first c e)
    dispatch-Ok open_paren e =
        bracket l_paren_space l_paren (first_ne_zero c open_paren e (λ x. cc))
    dispatch-Ok close_paren e = one_byte _ l.log (first_ne_zero c close_paren e (λ x. cc))
    dispatch-Ok open_square e =
        bracket l_square_space l_square (first_ne_zero c open_square e (λ x. cc))
    dispatch-Ok dot e = finished _ (dot-Ok l.cur_ptr at (dot_first c e))
    dispatch-Ok slash e =
        slash-Ok l.cur_ptr at (first_ne_zero c slash e (λ x. cc)) (slash_first c e)
    dispatch-Ok (punctuation k) e = one_byte k l.log (first_ne_zero c (punctuation k) e (λ x. cc))
    dispatch-Ok operator e = finished _ (
        lex_operator_identifier-Formed beyond (c ∷ r) l ends in_buffer
          (behind (first_ne_zero c operator e (λ x. cc))))
    dispatch-Ok letter e = finished _ (
        lex_identifier-Formed beyond (c ∷ r) l ends (letter_first c e)
          (behind (first_ne_zero c letter e (λ x. cc))))
    dispatch-Ok dollar e = finished _ (
        lex_dollar_ident-Formed beyond (c ∷ r) l ends (dollar_first c e)
          (behind (first_ne_zero c dollar e (λ x. cc))))
    dispatch-Ok digit e =
        finished _ (number-Ok (inl (digit_first c e)) (first_ne_zero c digit e (λ x. cc)))
    dispatch-Ok quote e = finished _ (
        lex_character_literal-Formed beyond (c ∷ r) l ends (quote_first c e)
          (behind_in_line (first_ne_zero c quote e (λ x. cc)) (first_ne_line c quote e (λ x. cc))))
    dispatch-Ok double_quote e = finished _ (
        lex_string_literal-Formed beyond (c ∷ r) l ends (double_quote_first c e) (
          behind_in_line (first_ne_zero c double_quote e (λ x. cc))
            (first_ne_line c double_quote e (λ x. cc))))

  round-Ok :
      (m : Lexer) (p : Bytes)
      → m.cur_ptr ≡ p
      → IsReady beyond m × Moved from m
      → Returns (lex_round m p) (RoundOk (length p))
  unfolding lex_round
  round-Ok m [] at (ready, moved) = absurd (inside_ne_nil 0 beyond (rw (← at) ready.inside))
  round-Ok m (c ∷ r) at (ready, moved) =
      dispatch-Ok (record m { cur_ptr = r }) c r refl ready.ends ready.last_line
        (rw (← at) ready.inside) (rw (← at) ready.in_buffer) moved.same_start moved.same_end
        (rw (← at) moved.reached.forward) (start_of c) refl

-- For every buffer whose last line ends with a line break, whatever bytes it holds, and every
-- pointer into it, `lexImpl` returns: it reads nothing behind the terminator, its loops end, and
-- no assertion fails. The token that it forms is a piece of the text at or behind the old
-- pointer and is not empty, and the lexer stands behind it; or the token is `eof`, at the
-- terminator.
pub lex_impl-Lexed :
    (beyond : Bytes) (l : Lexer) → IsReady beyond l → Returns (lex_impl l) (Lexed beyond l)
unfolding lex_impl
lex_impl-Lexed beyond l ready = rw inside (
    iterate-Returns (λ m. IsReady beyond m × Moved l m) (Lexed beyond l) (λ m. length m.cur_ptr)
      (λ m. lex_round m m.cur_ptr) (λ m h. round-Ok beyond l m m.cur_ptr refl h)
      (length l.cur_ptr + 1) l (omega arith) (ready, unmoved))
  where
    inside : in_range l.buffer_start l.buffer_end l.cur_ptr ≡ true
    inside =
        ground (
          arith,
          IsSuffix-length ready.in_buffer,
          IsSuffix-length ready.inside,
          ap length ready.ends,
        )

    unmoved : Moved l l
    unmoved = record {
      same_start = refl;
      same_end = refl;
      reached = rw ready.ends (Reached-here ready.inside);
    }
