-- ===== src/Parse/Lexer/Bounds/Comments.antt =====
-- Comments are skipped without leaving the buffer, whatever they hold.
use b1c3995fdcf53d46308da.Base.{
  ◌≤◌, true, ℕ, ◌+◌, ◌<◌, ◌≡◌, refl, ap, some, ◌>>=◌, [], ◌∷◌, Bytes, length, arith, Returns,
  Returns->>=, IsSuffix, IsSuffix-length, Step, again, StepOk, iterate, iterate-Returns,
}
use b1c3995fdcf53d46308da.Parse.Lexer.State.{Log, Lexer, load, dec_ptr, validate_high}
use b1c3995fdcf53d46308da.Parse.Lexer.Comments.{
  behind_slash, slash_slash_round, skip_slash_slash_comment, Nesting, after_star, after_slash,
  unterminated, slash_star_round, advance, skip_slash_star_comment,
}
use b1c3995fdcf53d46308da.Parse.Lexer.Bounds.Pointers.{
  Reached, Reached-trans, Reached-here, Reached-cons, Reached-next, Reached-next_of_length,
  Reached-ne_nil, inside_tail, validate_high-Reached, load-dec_ptr, Moved,
}

module _ (beyond : Bytes) where
  -- The invariant of both loops, at the variables `s` with their pointer.
  abbrev Inside : {S : Type 0} → (S → Bytes) → Bytes → S → Type 0
  Inside cur from s = Reached (0 ∷ beyond) from (cur s)

  abbrev RoundOk : {S : Type 0} → (S → Bytes) → Bytes → Bytes → Step S (Bytes × Log) → Type 0
  RoundOk cur from p =
      StepOk (Inside cur from) (λ t. Reached (0 ∷ beyond) from t.0) (λ s. length (cur s)) (length p)

  -- A round that goes on behind a validated character.
  high_round :
      {S : Type 0} (cur : S → Bytes) (next : Bytes × Log → S) (from : Bytes) (c : ℕ) (r : Bytes)
      (log : Log)
      → ((t : Bytes × Log) → cur (next t) ≡ t.0)
      → Reached (0 ∷ beyond) from (c ∷ r)
      → 0x80 ≤ c
      → Returns
          (validate_high (c ∷ r) log >>= λ t. some (again (next t)))
          (RoundOk cur from (c ∷ r))
  high_round cur next from c r log same h high =
      Returns->>= (λ t. Reached (0 ∷ beyond) r t.0) _ (validate_high (c ∷ r) log) _
        (validate_high-Reached 0 beyond c r log (omega arith) high
          (inside_tail 0 beyond c r h.inside (λ z. omega arith)))
        (λ t a.
          rw (same t) (Reached-trans h (Reached-cons a), omega (arith, IsSuffix-length a.forward)))

  slash_slash_round-RoundOk :
      (from p : Bytes) (log : Log)
      → Reached (0 ∷ beyond) from p
      → Returns (slash_slash_round (0 ∷ beyond) (p, log)) (RoundOk (λ s. s.0) from p)
  unfolding slash_slash_round
  slash_slash_round-RoundOk from [] log h = absurd (Reached-ne_nil 0 beyond h)
  slash_slash_round-RoundOk from (c ∷ r) log h = ground (
    arith,
    Reached-next 0 beyond c r h,
    Reached-next_of_length 0 beyond c r h,
    high_round (λ s. s.0) (λ t. t) from c r log (λ t. refl) h,
  )

  pub skip_slash_slash_comment-Moved :
      (start_ptr : Bytes) (l : Lexer)
      → behind_slash b'/' start_ptr l.cur_ptr ≡ true
      → l.buffer_end ≡ 0 ∷ beyond
      → IsSuffix (0 ∷ beyond) l.cur_ptr
      → Returns (skip_slash_slash_comment start_ptr l) (Moved l)
  unfolding skip_slash_slash_comment
  skip_slash_slash_comment-Moved start_ptr l slashes e h = rw slashes (
      Returns->>= (λ t. Reached (0 ∷ beyond) l.cur_ptr t.0) (Moved l)
        (iterate (length l.cur_ptr + 1) (slash_slash_round l.buffer_end) (l.cur_ptr, l.log)) _
        (rw e (
          iterate-Returns (Inside (λ s. s.0) l.cur_ptr) _ (λ s. length s.0)
            (slash_slash_round (0 ∷ beyond)) (λ s h. slash_slash_round-RoundOk l.cur_ptr s.0 s.1 h)
            (length l.cur_ptr + 1) (l.cur_ptr, l.log) (omega arith) (Reached-here h)))
        (λ t a. record { same_start = refl; same_end = refl; reached = rw e a }))

  after_star-RoundOk :
      (from : Bytes) (s : Nesting) (p : Bytes)
      → Reached (0 ∷ beyond) from p
      → Returns (after_star s p) (RoundOk (λ s. s.cur) from (b'*' ∷ p))
  unfolding after_star
  after_star-RoundOk from s [] h = absurd (Reached-ne_nil 0 beyond h)
  after_star-RoundOk from s (c ∷ r) h = ground (arith, Reached-next 0 beyond c r h)

  after_slash-RoundOk :
      (from : Bytes) (s : Nesting) (p : Bytes)
      → Reached (0 ∷ beyond) from p
      → Returns (after_slash s p) (RoundOk (λ s. s.cur) from (b'/' ∷ p))
  unfolding after_slash
  after_slash-RoundOk from s [] h = absurd (Reached-ne_nil 0 beyond h)
  after_slash-RoundOk from s (c ∷ r) h = ground (arith, Reached-next 0 beyond c r h)

  module _ (l : Lexer) (start_ptr : Bytes) where
    unterminated-RoundOk :
        (from : Bytes) (s : Nesting) (p : Bytes)
        → Reached (0 ∷ beyond) from s.cur
        → length s.cur < length l.buffer_start
        → Returns (unterminated l start_ptr s) (RoundOk (λ s. s.cur) from p)
    unfolding unterminated
    unterminated-RoundOk from s p h lt =
        Returns->>= (λ _. Unit {0}) _ (load (dec_ptr l.buffer_start s.cur)) _
          (load-dec_ptr l.buffer_start s.cur lt) (λ before _. h)

    slash_star_round-RoundOk :
        (from : Bytes) (s : Nesting) (p : Bytes)
        → l.buffer_end ≡ 0 ∷ beyond
        → s.cur ≡ p
        → length from < length l.buffer_start
        → Reached (0 ∷ beyond) from p
        → Returns (slash_star_round l start_ptr s p) (RoundOk (λ s. s.cur) from p)
    unfolding slash_star_round
    slash_star_round-RoundOk from s [] e at lt h = absurd (Reached-ne_nil 0 beyond h)
    slash_star_round-RoundOk from s (c ∷ r) e at lt h = ground (
      arith,
      Reached-next 0 beyond c r h,
      Reached-next_of_length 0 beyond c r h,
      after_star-RoundOk from s r,
      after_slash-RoundOk from s r,
      ap length e,
      ended,
      high_round (λ s. s.cur) (λ t. record s { cur = t.0; log = t.1 }) from c r s.log (λ t. refl) h,
    )
      where
        ended : Returns (unterminated l start_ptr s) (RoundOk (λ s. s.cur) from (c ∷ r))
        ended =
            unterminated-RoundOk from s (c ∷ r) (rw at h)
              (omega (arith, ap length at, IsSuffix-length h.forward))

    nesting_loop :
        (from : Bytes)
        → l.buffer_end ≡ 0 ∷ beyond
        → length from < length l.buffer_start
        → IsSuffix (0 ∷ beyond) from
        → Returns
            (iterate
              (length from + 1)
              (λ s. slash_star_round l start_ptr s s.cur)
              (record { cur = from; depth = 1; log = l.log }))
            (λ t. Reached (0 ∷ beyond) from t.0)
    nesting_loop from e lt h =
        iterate-Returns (Inside (λ s. s.cur) from) _ (λ s. length s.cur)
          (λ s. slash_star_round l start_ptr s s.cur)
          (λ s h'. slash_star_round-RoundOk from s s.cur e refl lt h') (length from + 1)
          (record { cur = from; depth = 1; log = l.log }) (omega arith) (Reached-here h)

    pub skip_slash_star_comment-Moved :
        (c : ℕ) (body : Bytes)
        → behind_slash b'*' start_ptr l.cur_ptr ≡ true
        → l.cur_ptr ≡ c ∷ body
        → l.buffer_end ≡ 0 ∷ beyond
        → IsSuffix (0 ∷ beyond) body
        → length body < length l.buffer_start
        → Returns (skip_slash_star_comment start_ptr l) (Moved l)
    unfolding skip_slash_star_comment
    skip_slash_star_comment-Moved c body slashes at e h lt = rw slashes (
        Returns->>= (λ b. b ≡ body) (Moved l) (advance l.cur_ptr) _ (rw (at, advance) refl)
          λ b eb. rw eb (
            Returns->>= (λ t. Reached (0 ∷ beyond) body t.0) (Moved l) _ _
              (nesting_loop body e lt h)
              (λ t a. record {
                same_start = refl;
                same_end = refl;
                reached = rw (e, at) (Reached-cons a);
              })))
