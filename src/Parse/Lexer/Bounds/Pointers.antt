-- ===== src/Parse/Lexer/Bounds/Pointers.antt =====
-- Pointers in front of a sentinel byte: what the shared scanning functions of the lexer do to them.
use b1c3995fdcf53d46308da.Base.{
  leb, ◌≤◌, true, ℕ, zero, suc, ◌-◌, ◌<◌, ◌≡◌, ◌≢◌, sym, ap, ◌∙◌, subst, inl, inr, Bool, false,
  ◌||◌, ◌==◌, leb, ltb, some, [], ◌∷◌, Bytes, length, arith, Bool-cases, Returns, Returns->>=,
  Returns-weaken, IsSuffix, here, there, IsSuffix-cons, IsSuffix-length, IsSuffix-trans,
  length-drop,
}
use b1c3995fdcf53d46308da.Parse.Utf8.{
  clo8, skip_to_start, continuation, accumulate, validate_utf8_character_and_advance,
  is_start_of_utf8_character, invalid,
}
use b1c3995fdcf53d46308da.Parse.Token.{between}
use b1c3995fdcf53d46308da.Parse.Lexer.State.{Log, Lexer, load, dec_ptr, skip_while, validate_high}

-- `q` is reached from `p` by going forward, no further than the sentinel `z ∷ rest`.
pub record Reached (sentinel p q : Bytes) : Type 0 where
  pub inside : IsSuffix sentinel q
  pub forward : IsSuffix q p

pub Reached-trans : {s p q r : Bytes} → Reached s p q → Reached s q r → Reached s p r
Reached-trans a b = record { inside = b.inside; forward = IsSuffix-trans b.forward a.forward }

pub Reached-here : {s p : Bytes} → IsSuffix s p → Reached s p p
Reached-here h = record { inside = h; forward = here }

pub Reached-cons : {s r q : Bytes} {c : ℕ} → Reached s r q → Reached s (c ∷ r) q
Reached-cons a = record { inside = a.inside; forward = there a.forward }

head-eq : {a b : ℕ} {r s : Bytes} → a ∷ r ≡ b ∷ s → a ≡ b
head-eq e = cc

-- A byte other than the sentinel is not the last one.
pub inside_tail :
    (z : ℕ) (rest : Bytes) (c : ℕ) (r : Bytes)
    → IsSuffix (z ∷ rest) (c ∷ r)
    → c ≢ z
    → IsSuffix (z ∷ rest) r
inside_tail z rest c r h ne = elim (IsSuffix-cons c r h) [
  | inl e ↦ absurd (ne (omega (arith, head-eq e)))
  | inr k ↦ k
]

-- Nor is a byte that stands elsewhere.
pub inside_tail_of_length :
    (z : ℕ) (rest : Bytes) (c : ℕ) (r : Bytes)
    → IsSuffix (z ∷ rest) (c ∷ r)
    → length (c ∷ r) ≢ length (z ∷ rest)
    → IsSuffix (z ∷ rest) r
inside_tail_of_length z rest c r h ne = elim (IsSuffix-cons c r h) [
  | inl e ↦ absurd (ne (ap length (sym e)))
  | inr k ↦ k
]

-- A pointer in front of a sentinel can be read.
pub inside_ne_nil : (z : ℕ) (rest : Bytes) → ¬ IsSuffix (z ∷ rest) []
inside_ne_nil z rest h = omega (arith, IsSuffix-length h)

module _ (z : ℕ) (rest : Bytes) where
  -- A scan over a class of bytes stops at the sentinel, if that is not in the class.
  pub skip_while-Reached :
      (test : ℕ → Bool) (p : Bytes)
      → test z ≡ false
      → IsSuffix (z ∷ rest) p
      → Returns (skip_while test p) (Reached (z ∷ rest) p)
  unfolding skip_while
  skip_while-Reached test [] stop h = absurd (inside_ne_nil z rest h)
  skip_while-Reached test (c ∷ r) stop h = elim (Bool-cases (test c)) [
    | inl hit ↦
        let h' = inside_tail z rest c r h (λ e. cc) in
        rw hit (
          Returns-weaken (Reached (z ∷ rest) r) (Reached (z ∷ rest) (c ∷ r)) (skip_while test r)
            (skip_while-Reached test r stop h') (λ q a. Reached-cons a))
    | inr miss ↦ rw miss (Reached-here h)
  ]

  skip_to_start-Reached :
      (p : Bytes)
      → z < 0x80
      → IsSuffix (z ∷ rest) p
      → Returns (skip_to_start p) (Reached (z ∷ rest) p)
  unfolding skip_to_start
  skip_to_start-Reached [] low h = absurd (inside_ne_nil z rest h)
  skip_to_start-Reached (c ∷ r) low h = elim (Bool-cases (is_start_of_utf8_character c)) [
    | inl hit ↦ rw hit (Reached-here h)
    | inr miss ↦
        let h' =
          inside_tail z rest c r h (λ e. unfold is_start_of_utf8_character in ground arith) in
        rw miss (
          Returns-weaken (Reached (z ∷ rest) r) (Reached (z ∷ rest) (c ∷ r)) (skip_to_start r)
            (skip_to_start-Reached r low h') (λ q a. Reached-cons a))
  ]

  continuation-Reached :
      (k n v : ℕ) (p : Bytes)
      → z < 0x80
      → IsSuffix (z ∷ rest) p
      → Returns (continuation k n v p) (λ t. Reached (z ∷ rest) p t.1)
  unfolding continuation
  continuation-Reached zero n v p low h = Reached-here h
  continuation-Reached (suc k) n v [] low h = absurd (inside_ne_nil z rest h)
  continuation-Reached (suc k) n v (c ∷ r) low h = elim (Bool-cases (ltb c 0x80 || leb 0xC0 c)) [
    | inl ends ↦ rw ends (Reached-here h)
    | inr more ↦
        let h' = inside_tail z rest c r h (λ e. ground arith) in
        rw more (
          Returns-weaken (λ t. Reached (z ∷ rest) r t.1) (λ t. Reached (z ∷ rest) (c ∷ r) t.1)
            (continuation k n (accumulate v c) r)
            (continuation-Reached k n (accumulate v c) r low h') (λ t a. Reached-cons a))
  ]

  -- The validator goes past the first byte, and not past the sentinel.
  pub validate-Reached :
      (c : ℕ) (r : Bytes)
      → z < 0x80
      → 0x80 ≤ c
      → IsSuffix (z ∷ rest) r
      → Returns (validate_utf8_character_and_advance (c ∷ r)) (λ t. Reached (z ∷ rest) r t.1)
  unfolding validate_utf8_character_and_advance
  validate-Reached c r low high h =
      let start : leb 0x80 c ≡ true = ground arith in
      rw start (elim (Bool-cases (clo8 c == 1 || ltb 4 (clo8 c))) [
        | inl bad ↦ rw bad (
            Returns->>= (Reached (z ∷ rest) r) (λ t. Reached (z ∷ rest) r t.1) (skip_to_start r)
              (λ p. some (invalid, p)) (skip_to_start-Reached r low h) (λ q a. a))
        | inr good ↦ rw good (continuation-Reached (clo8 c - 1) (clo8 c) _ r low h)
      ])

  pub validate_high-Reached :
      (c : ℕ) (r : Bytes) (log : Log)
      → z < 0x80
      → 0x80 ≤ c
      → IsSuffix (z ∷ rest) r
      → Returns (validate_high (c ∷ r) log) (λ t. Reached (z ∷ rest) r t.0)
  unfolding validate_high
  validate_high-Reached c r log low high h =
      Returns->>= (λ t. Reached (z ∷ rest) r t.1) (λ t. Reached (z ∷ rest) r t.0)
        (validate_utf8_character_and_advance (c ∷ r)) _ (validate-Reached c r low high h) (λ t a. a)

-- There is a byte to read in front of a pointer that is not the start of the memory.
pub load-dec_ptr :
    (start p : Bytes) → length p < length start → Returns (load (dec_ptr start p)) (λ _. Unit {0})
unfolding dec_ptr
load-dec_ptr start p lt = go _ (ground (arith, length-drop (length start - length p - 1) start))
  where
    go : (q : Bytes) → 0 < length q → Returns (load q) (λ _. Unit {0})
    go [] pos = omega arith
    go (c ∷ r) pos = tt

-- One byte forward, over a byte that is not the sentinel.
pub Reached-next :
    (z : ℕ) (rest : Bytes) {from : Bytes} (c : ℕ) (r : Bytes)
    → Reached (z ∷ rest) from (c ∷ r)
    → c ≢ z
    → Reached (z ∷ rest) from r
Reached-next z rest c r h ne =
    Reached-trans h (Reached-cons (Reached-here (inside_tail z rest c r h.inside ne)))

-- One byte forward, from elsewhere than the sentinel.
pub Reached-next_of_length :
    (z : ℕ) (rest : Bytes) {from : Bytes} (c : ℕ) (r : Bytes)
    → Reached (z ∷ rest) from (c ∷ r)
    → length (c ∷ r) ≢ length (z ∷ rest)
    → Reached (z ∷ rest) from r
Reached-next_of_length z rest c r h ne =
    Reached-trans h (Reached-cons (Reached-here (inside_tail_of_length z rest c r h.inside ne)))

-- A pointer reached from in front of the sentinel's memory can be read.
pub Reached-ne_nil : (z : ℕ) (rest : Bytes) {from : Bytes} → ¬ Reached (z ∷ rest) from []
Reached-ne_nil z rest h = inside_ne_nil z rest h.inside

-- The lexer works on the same buffer, and its pointer has gone forward inside it.
pub record Moved (l l' : Lexer) : Type 0 where
  pub same_start : l'.buffer_start ≡ l.buffer_start
  pub same_end : l'.buffer_end ≡ l.buffer_end
  pub reached : Reached l.buffer_end l.cur_ptr l'.cur_ptr

-- Besides, the next token is the text from `tok_start` to the pointer.
pub record Formed (tok_start : Bytes) (l l' : Lexer) : Type 0 where
  pub moved : Moved l l'
  pub text : l'.next_token.text ≡ between tok_start l'.cur_ptr

pub Moved-trans : {l m n : Lexer} → Moved l m → Moved m n → Moved l n
Moved-trans {l} {m} {n} a b = record {
  same_start = b.same_start ∙ a.same_start;
  same_end = b.same_end ∙ a.same_end;
  reached =
      Reached-trans a.reached (subst (λ s. Reached s m.cur_ptr n.cur_ptr) a.same_end b.reached);
}

pub Formed-trans : {t : Bytes} {l m n : Lexer} → Moved l m → Formed t m n → Formed t l n
Formed-trans a b = record { moved = Moved-trans a b.moved; text = b.text }
