-- ===== src/Parse/Lexer/Bounds/Numbers.antt =====
-- Numbers are formed without leaving the buffer.
use b1c3995fdcf53d46308da.Base.{
  ℕ, ◌≡◌, ◌≢◌, ◌⊎◌, inl, inr, refl, ap, Bool, true, false, ◌||◌, ◌==◌, within, Option, ◌>>=◌, [],
  ◌∷◌, Bytes, arith, Returns, Returns->>=, Bool-cases, ==_iff, IsSuffix,
}
use b1c3995fdcf53d46308da.Parse.Chars.{is_digit, is_xdigit}
use b1c3995fdcf53d46308da.Parse.Token.{integer_literal}
use b1c3995fdcf53d46308da.Parse.Lexer.State.{Lexer, skip_while}
use b1c3995fdcf53d46308da.Parse.Lexer.Numbers.{
  lex_number_text, is_valid_exponent, lex_radix, lex_exponent_digits, lex_exponent, after_fraction,
  lex_fraction, point_ends_integer, after_digits, lex_decimal, lex_number, is_exponent_mark,
  is_sign,
}
use b1c3995fdcf53d46308da.Parse.Lexer.Bounds.Pointers.{
  Reached, Reached-trans, Reached-next, Reached-ne_nil, inside_tail, skip_while-Reached,
  inside_ne_nil, Formed,
}
use b1c3995fdcf53d46308da.Parse.Lexer.Bounds.Words.{formed}

is_digit_zero : is_digit 0 ≡ false
unfolding is_digit
is_digit_zero = refl

nonzero : (c : ℕ) → is_digit c ≡ true → c ≢ 0
nonzero c d z = let f : is_digit c ≡ is_digit 0 = ap is_digit z in cc (is_digit_zero)

module _ (beyond : Bytes) (tok_start : Bytes) (l : Lexer) (e : l.buffer_end ≡ 0 ∷ beyond) where
  abbrev At : Bytes → Type 0
  At p = Reached (0 ∷ beyond) l.cur_ptr p

  -- Behind a scan, a token is formed.
  scan-Formed :
      (test : ℕ → Bool) (p : Bytes) (k : Bytes → Option Lexer)
      → test 0 ≡ false
      → Reached (0 ∷ beyond) l.cur_ptr p
      → ((q : Bytes) → Reached (0 ∷ beyond) l.cur_ptr q → Returns (k q) (Formed tok_start l))
      → Returns (skip_while test p >>= k) (Formed tok_start l)
  scan-Formed test p k stop a next =
      Returns->>= (Reached (0 ∷ beyond) p) (Formed tok_start l) (skip_while test p) k
        (skip_while-Reached 0 beyond test p stop a.inside) (λ q b. next q (Reached-trans a b))

  lex_radix-Formed :
      (test : ℕ → Bool) (p : Bytes)
      → test 0 ≡ false
      → Reached (0 ∷ beyond) l.cur_ptr p
      → Returns (lex_radix test p tok_start l) (Formed tok_start l)
  unfolding lex_radix
  lex_radix-Formed test p stop a =
      scan-Formed test p _ stop a λ q b. ground (arith, formed beyond tok_start l e)

  lex_exponent_digits-Formed :
      (p : Bytes)
      → Reached (0 ∷ beyond) l.cur_ptr p
      → Returns (lex_exponent_digits p tok_start l) (Formed tok_start l)
  unfolding lex_exponent_digits
  lex_exponent_digits-Formed [] a = absurd (Reached-ne_nil 0 beyond a)
  lex_exponent_digits-Formed (c ∷ r) a = elim (Bool-cases (is_digit c)) [
    | inl d ↦ rw d (
        scan-Formed is_digit r _ is_digit_zero (Reached-next 0 beyond c r a (nonzero c d))
          (λ q b. formed beyond tok_start l e _ q l.log b))
    | inr n ↦ rw n (formed beyond tok_start l e _ (c ∷ r) _ a)
  ]

  lex_exponent-Formed :
      (p : Bytes)
      → Reached (0 ∷ beyond) l.cur_ptr p
      → Returns (lex_exponent p tok_start l) (Formed tok_start l)
  unfolding lex_exponent
  lex_exponent-Formed [] a = absurd (Reached-ne_nil 0 beyond a)
  lex_exponent-Formed (c ∷ r) a = elim (Bool-cases (is_sign c)) [
    | inl d ↦ rw d (lex_exponent_digits-Formed r (Reached-next 0 beyond c r a (λ e. ground arith)))
    | inr n ↦ rw n (formed beyond tok_start l e _ (c ∷ r) _ a)
  ]

  after_fraction-Formed :
      (p : Bytes)
      → Reached (0 ∷ beyond) l.cur_ptr p
      → Returns (after_fraction p tok_start l) (Formed tok_start l)
  unfolding after_fraction
  after_fraction-Formed [] a = absurd (Reached-ne_nil 0 beyond a)
  after_fraction-Formed (c ∷ r) a = elim (Bool-cases (is_exponent_mark c)) [
    | inl d ↦ rw d (lex_exponent-Formed r (Reached-next 0 beyond c r a (λ e. ground arith)))
    | inr n ↦ rw n (formed beyond tok_start l e _ (c ∷ r) _ a)
  ]

  -- Behind a point.
  point-Formed :
      (r : Bytes)
      → Reached (0 ∷ beyond) l.cur_ptr r
      → Returns (skip_while is_digit r >>= λ p. after_fraction p tok_start l) (Formed tok_start l)
  point-Formed r a = scan-Formed is_digit r _ is_digit_zero a after_fraction-Formed

  lex_fraction-Formed :
      (p : Bytes)
      → Reached (0 ∷ beyond) l.cur_ptr p
      → Returns (lex_fraction p tok_start l) (Formed tok_start l)
  unfolding lex_fraction
  lex_fraction-Formed [] a = absurd (Reached-ne_nil 0 beyond a)
  lex_fraction-Formed (c ∷ r) a = elim (Bool-cases (c == b'.')) [
    | inl d ↦ rw d (point-Formed r (Reached-next 0 beyond c r a (λ e. ground arith)))
    | inr n ↦ rw n (after_fraction-Formed (c ∷ r) a)
  ]

  is_valid_exponent-Returns :
      (p : Bytes) → IsSuffix (0 ∷ beyond) p → Returns (is_valid_exponent p) (λ _. Unit {0})
  unfolding is_valid_exponent
  is_valid_exponent-Returns [] h = absurd (inside_ne_nil 0 beyond h)
  is_valid_exponent-Returns (c ∷ []) h =
      ground (arith, inside_tail 0 beyond c [] h, inside_ne_nil 0 beyond)
  is_valid_exponent-Returns (c ∷ s ∷ []) h =
      ground (
        arith,
        inside_tail 0 beyond c (s ∷ []) h,
        inside_tail 0 beyond s [],
        inside_ne_nil 0 beyond,
      )
  is_valid_exponent-Returns (c ∷ s ∷ d ∷ r) h = ground arith

  point_ends_integer-Returns :
      (p : Bytes) → IsSuffix (0 ∷ beyond) p → Returns (point_ends_integer p) (λ _. Unit {0})
  unfolding point_ends_integer
  point_ends_integer-Returns [] h = absurd (inside_ne_nil 0 beyond h)
  point_ends_integer-Returns (c ∷ r) h = elim (Bool-cases (is_digit c)) [
    | inl d ↦ rw d tt
    | inr n ↦ rw n (
        Returns->>= (λ _. Unit {0}) (λ _. Unit {0}) (is_valid_exponent (c ∷ r)) _
          (is_valid_exponent-Returns (c ∷ r) h) (λ _ _. tt))
  ]

  -- What follows the leading digits.
  after_point-Formed :
      (c : ℕ) (r : Bytes)
      → c ≡ b'.'
      → Reached (0 ∷ beyond) l.cur_ptr (c ∷ r)
      → Returns (after_digits (c ∷ r) tok_start l) (Formed tok_start l)
  unfolding after_digits
  after_point-Formed c r dot a = rw dot (
      Returns->>= (λ _. Unit {0}) (Formed tok_start l) (point_ends_integer r) _
        (point_ends_integer-Returns r (Reached-next 0 beyond c r a (omega arith)).inside)
        (λ ends _.
          ground
            (arith, formed beyond tok_start l e _ (c ∷ r) l.log a, lex_fraction-Formed (c ∷ r) a)))

  after_digits-Formed :
      (p : Bytes)
      → Reached (0 ∷ beyond) l.cur_ptr p
      → Returns (after_digits p tok_start l) (Formed tok_start l)
  unfolding after_digits
  after_digits-Formed [] a = absurd (Reached-ne_nil 0 beyond a)
  after_digits-Formed (c ∷ r) a = elim (Bool-cases (c == b'.')) [
    | inl dot ↦ after_point-Formed c r ((==_iff c b'.').0 dot) a
    | inr other ↦ ground (
      arith,
      formed beyond tok_start l e integer_literal (c ∷ r) l.log a,
      lex_fraction-Formed (c ∷ r) a,
    )
  ]

module _ (beyond : Bytes) (l : Lexer) (e : l.buffer_end ≡ 0 ∷ beyond) where
  -- From the first byte of the token, a digit or a point.
  lex_decimal-Formed :
      (c : ℕ) (p : Bytes)
      → (is_digit c ≡ true) ⊎ (c ≡ b'.')
      → Reached (0 ∷ beyond) l.cur_ptr p
      → Returns (lex_decimal (c ∷ p) l) (Formed (c ∷ p) l)
  unfolding lex_decimal
  lex_decimal-Formed c p (inl d) a = rw d (
      scan-Formed beyond (c ∷ p) l e is_digit p _ is_digit_zero a
        (after_digits-Formed beyond (c ∷ p) l e))
  lex_decimal-Formed c p (inr dot) a =
      rw dot (unfold is_digit in point-Formed beyond (b'.' ∷ p) l e p a)

  lex_number_text-Formed :
      (c : ℕ) (p : Bytes)
      → (is_digit c ≡ true) ⊎ (c ≡ b'.')
      → Reached (0 ∷ beyond) l.cur_ptr p
      → Returns (lex_number_text (c ∷ p) l) (Formed (c ∷ p) l)
  unfolding lex_number_text
  lex_number_text-Formed c [] first a = absurd (Reached-ne_nil 0 beyond a)
  lex_number_text-Formed c (x ∷ r) first a = ground (
    arith,
    radix is_xdigit (unfold is_xdigit in refl),
    radix (within b'0' b'7') refl,
    radix (λ d. d == b'0' || d == b'1') refl,
    lex_decimal-Formed c (x ∷ r) first a,
  )
    where
      radix :
          (test : ℕ → Bool)
          → test 0 ≡ false
          → x ≢ 0
          → Returns (lex_radix test r (c ∷ x ∷ r) l) (Formed (c ∷ x ∷ r) l)
      radix test stop ne =
          lex_radix-Formed beyond (c ∷ x ∷ r) l e test r stop (Reached-next 0 beyond x r a ne)

  pub lex_number-Formed :
      (c : ℕ) (p : Bytes)
      → (is_digit c ≡ true) ⊎ (c ≡ b'.')
      → Reached (0 ∷ beyond) l.cur_ptr p
      → Returns (lex_number (c ∷ p) l) (Formed (c ∷ p) l)
  unfolding lex_number
  lex_number-Formed c p first a =
      let starts : (is_digit c || c == b'.') ≡ true = ground arith in
      rw starts (lex_number_text-Formed c p first a)
