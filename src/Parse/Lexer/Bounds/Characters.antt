-- ===== src/Parse/Lexer/Bounds/Characters.antt =====
-- Reading a character never goes past a line break, and always makes progress or stops.
use b1c3995fdcf53d46308da.Base.{
  ℕ, zero, suc, ◌+◌, ◌<◌, ◌≡◌, ◌≢◌, ◌⊎◌, inl, inr, refl, Bool, true, false, not, ◌||◌, ◌==◌, leb,
  ltb, if◌then◌else◌, Option, none, some, [], ◌∷◌, Bytes, length, drop, arith, Returns, Returns->>=,
  Returns-weaken, Bool-cases, IsSuffix, IsSuffix-length,
}
use b1c3995fdcf53d46308da.Parse.Chars.{is_xdigit}
use b1c3995fdcf53d46308da.Parse.Utf8.{
  bit_width, num_bits, invalid, encode_bytes, encode_to_utf8, validate_utf8_character_and_advance,
}
use b1c3995fdcf53d46308da.Parse.Lexer.State.{
  DiagId, Log, diagnose, Lexer, lex_invalid_string_u_escape, lex_invalid_string_U_escape,
  lex_invalid_string_escape, lex_invalid_string_x_escape, lex_invalid_hex_escape, lex_nul_character,
  dec_ptr,
}
use b1c3995fdcf53d46308da.Parse.Lexer.Characters.{
  CharResult, diagnose_if, all_xdigits, hex_value, check_escape, unicode_escape, hex_escape,
  simple_escape, escape_by, lex_escape, normal_character, lex_character,
}
use b1c3995fdcf53d46308da.Parse.Lexer.Bounds.Pointers.{
  Reached, Reached-here, Reached-cons, inside_tail, inside_ne_nil, validate-Reached,
}

-- The bytes at which a string stops.
abbrev pub StopsAt : Bytes → Type 0
StopsAt [] = ⊥
StopsAt (c ∷ r) = (c ≡ b'"') ⊎ (c ≡ 0) ⊎ (c ≡ b'\n') ⊎ (c ≡ b'\r')

-- The reading of one character at `cur`, in front of the sentinel.
pub record CharOk (sentinel cur : Bytes) (stop_at_double_quote : Bool) (t : CharResult)
    : Type 0 where
  pub reached : Reached sentinel cur t.1
  pub progress : t.0 ≢ invalid → length t.1 < length cur
  pub stopped : stop_at_double_quote ≡ true → t.0 ≡ invalid → StopsAt t.1

module _ (rest : Bytes) where
  abbrev line : Bytes
  line = b'\n' ∷ rest

  all_xdigits-Reached :
      (n : ℕ) (p : Bytes)
      → IsSuffix (b'\n' ∷ rest) p
      → Returns (all_xdigits n p) (λ fits. fits ≡ true → Reached (b'\n' ∷ rest) p (drop n p))
  unfolding all_xdigits
  all_xdigits-Reached zero p h = λ _. Reached-here h
  all_xdigits-Reached (suc n) [] h = absurd (inside_ne_nil b'\n' rest h)
  all_xdigits-Reached (suc n) (c ∷ r) h = elim (Bool-cases (is_xdigit c)) [
    | inl hit ↦ rw hit (
        Returns-weaken (λ fits. fits ≡ true → Reached (b'\n' ∷ rest) r (drop n r)) _
          (all_xdigits n r)
          (all_xdigits-Reached n r
            (inside_tail b'\n' rest c r h (λ e. unfold is_xdigit in ground arith)))
          (λ fits a yes_. Reached-cons (a yes_)))
    | inr miss ↦ rw miss (λ yes_. cc)
  ]

  -- An escape that is no single letter: its value is never the mark of the end.
  check_escape-CharOk :
      (emit stop : Bool) (char_start cur : Bytes) (v : ℕ) (p : Bytes) (log : Log)
      → Reached (b'\n' ∷ rest) cur p
      → length p < length cur
      → Returns (check_escape emit char_start v p log) (CharOk (b'\n' ∷ rest) cur stop)
  unfolding check_escape encode_to_utf8
  check_escape-CharOk emit stop char_start cur v p log a lt = elim (Bool-cases (ltb v 0x80)) [
    | inl low ↦ rw low (ground arith)
    | inr wide ↦
        let asserted : leb 0x80 v ≡ true = ground arith in
        rw (wide, asserted) (ground (arith, erroneous))
  ]
    where
      erroneous : v ≡ invalid → (encode_bytes v []).0 ≡ true
      erroneous e = rw e (unfold encode_bytes num_bits bit_width in refl)

  module _ (emit stop : Bool) where
    abbrev Ok : Bytes → CharResult → Type 0
    Ok cur = CharOk (b'\n' ∷ rest) cur stop

    -- `b` is the backslash, and `c ∷ r` what stands behind it.
    module _ (b c : ℕ) (r : Bytes) (inside : IsSuffix (b'\n' ∷ rest) (c ∷ r)) where
      unescaped : (log : Log) → Ok (b ∷ c ∷ r) (0, c ∷ r, log)
      unescaped log = record {
        reached = Reached-cons (Reached-here inside);
        progress = λ _. omega arith;
        stopped = λ _ e. absurd (omega arith);
      }

      escaped :
          (n v : ℕ) (log : Log)
          → Reached (b'\n' ∷ rest) r (drop n r)
          → Returns (check_escape emit (b ∷ c ∷ r) v (drop n r) log) (Ok (b ∷ c ∷ r))
      escaped n v log a =
          check_escape-CharOk emit stop (b ∷ c ∷ r) (b ∷ c ∷ r) v (drop n r) log
            (Reached-cons (Reached-cons a)) (omega (arith, IsSuffix-length a.forward))

      hex_result :
          (n v : ℕ) (log log' : Log) (fits : Bool)
          → (fits ≡ true → Reached (b'\n' ∷ rest) r (drop n r))
          → Returns
              (if not fits
                then some (0, c ∷ r, log)
                else check_escape emit (b ∷ c ∷ r) v (drop n r) log')
              (Ok (b ∷ c ∷ r))
      hex_result n v log log' true a = escaped n v log' (a refl)
      hex_result n v log log' false a = unescaped log

      unicode_escape-CharOk :
          (n : ℕ) (id : DiagId) (log : Log)
          → c ≢ b'\n'
          → Returns (unicode_escape n id emit (b ∷ c ∷ r) (c ∷ r) r log) (Ok (b ∷ c ∷ r))
      unfolding unicode_escape
      unicode_escape-CharOk n id log ne =
          Returns->>= (λ fits. fits ≡ true → Reached (b'\n' ∷ rest) r (drop n r)) (Ok (b ∷ c ∷ r))
            (all_xdigits n r) _ (all_xdigits-Reached n r (inside_tail b'\n' rest c r inside ne))
            (λ fits. hex_result n (hex_value n 0 r) (diagnose_if emit log (c ∷ r) id) log fits)

      hex_escape-CharOk :
          (log : Log)
          → c ≢ b'\n'
          → Returns (hex_escape emit (b ∷ c ∷ r) (c ∷ r) r log) (Ok (b ∷ c ∷ r))
      unfolding hex_escape
      hex_escape-CharOk log ne =
          Returns->>= (λ fits. fits ≡ true → Reached (b'\n' ∷ rest) r (drop 2 r)) (Ok (b ∷ c ∷ r))
            (all_xdigits 2 r) _ (all_xdigits-Reached 2 r (inside_tail b'\n' rest c r inside ne))
            (λ fits.
              hex_result 2 (hex_value 2 0 r)
                (diagnose_if emit log (c ∷ r) lex_invalid_string_x_escape)
                (if leb 0x80 (hex_value 2 0 r)
                  then diagnose log (c ∷ r) lex_invalid_hex_escape
                  else log)
                fits)

      -- A letter that stands for itself or for a control character is one byte.
      simple_letter :
          (o : Option ℕ) (v : ℕ) → simple_escape c ≡ o → o ≡ some v → (c ≢ b'\n') × (v ≢ invalid)
      unfolding simple_escape
      simple_letter o v e e' = ground arith

      escape_by-CharOk :
          (o : Option ℕ) (log : Log)
          → simple_escape c ≡ o
          → Returns (escape_by o emit (b ∷ c ∷ r) c r log) (Ok (b ∷ c ∷ r))
      unfolding escape_by
      escape_by-CharOk (some v) log e =
          let (ne, other) = simple_letter (some v) v e refl in
          record {
            reached =
                Reached-cons (Reached-cons (Reached-here (inside_tail b'\n' rest c r inside ne)));
            progress = λ _. omega arith;
            stopped = λ _ e'. absurd (other e');
          }
      escape_by-CharOk none log e = ground (
        arith,
        hex_escape-CharOk log,
        unicode_escape-CharOk 4 lex_invalid_string_u_escape log,
        unicode_escape-CharOk 8 lex_invalid_string_U_escape log,
        unescaped (diagnose log (c ∷ r) lex_invalid_string_escape),
      )

    lex_escape-CharOk :
        (b : ℕ) (p : Bytes) (log : Log)
        → IsSuffix (b'\n' ∷ rest) p
        → Returns (lex_escape emit (b ∷ p) p log) (Ok (b ∷ p))
    unfolding lex_escape
    lex_escape-CharOk b [] log h = absurd (inside_ne_nil b'\n' rest h)
    lex_escape-CharOk b (c ∷ r) log h = escape_by-CharOk b c r h (simple_escape c) log refl

    normal_character-CharOk :
        (c : ℕ) (r : Bytes) (log : Log)
        → IsSuffix (b'\n' ∷ rest) r
        → Returns (normal_character emit (c ∷ r) c r log) (Ok (c ∷ r))
    unfolding normal_character
    normal_character-CharOk c r log h = elim (Bool-cases (ltb c 0x80)) [
      | inl low ↦ rw low (record {
        reached = Reached-cons (Reached-here h);
        progress = λ _. omega arith;
        stopped = λ _ e. absurd (ground arith);
      })
      | inr high ↦ rw high (
          Returns->>= (λ t. Reached (b'\n' ∷ rest) r t.1) (Ok (c ∷ r))
            (validate_utf8_character_and_advance (c ∷ r)) _
            (validate-Reached b'\n' rest c r (omega arith) (ground arith) h)
            λ t a. ground (arith, Reached-cons {c = c} a, IsSuffix-length a.forward))
    ]

    -- The reading of a character makes progress, or stops at a byte that ends the string.
    pub lex_character-CharOk :
        (l : Lexer) (p : Bytes) (log : Log)
        → IsSuffix (b'\n' ∷ rest) p
        → Returns (lex_character l stop emit p log) (Ok p)
    unfolding lex_character
    lex_character-CharOk l [] log h = absurd (inside_ne_nil b'\n' rest h)
    lex_character-CharOk l (c ∷ r) log h = elim (Bool-cases (c == b'"')) [
      | inl q ↦ rw q (
          either stop (invalid, c ∷ r, log) (c, r, log) (λ _. stays log (λ _. inl (ground arith)))
            (λ _. moves c log (ground arith) (ground arith)))
      | inr q' ↦ rw q' (elim (Bool-cases (c == b'\'')) [
        | inl a ↦ rw a (
            either stop (c, r, log) (invalid, c ∷ r, log)
              (λ _. moves c log (ground arith) (ground arith)) (λ off. stays log (λ on. cc)))
        | inr a' ↦ rw a' (elim (Bool-cases (c == 0)) [
          | inl n ↦ rw n (
              either (length r + 2 == length l.buffer_end) (invalid, c ∷ r, log)
                (0, r, diagnose_if emit log (dec_ptr l.buffer_start (c ∷ r)) lex_nul_character)
                (λ _. stays log (λ _. inr (inl (ground arith))))
                (λ _.
                  moves 0 (diagnose_if emit log (dec_ptr l.buffer_start (c ∷ r)) lex_nul_character)
                    (omega arith) (ground arith)))
          | inr n' ↦ rw n' (elim (Bool-cases (c == b'\n' || c == b'\r')) [
            | inl e ↦ rw e (stays log (λ _. ground arith))
            | inr e' ↦ rw e' (elim (Bool-cases (c == b'\\')) [
              | inl s ↦ rw s (lex_escape-CharOk c r log (behind (λ z. ground arith)))
              | inr s' ↦ rw s' (normal_character-CharOk c r log (behind (λ z. ground arith)))
            ])
          ])
        ])
      ])
    ]
      where
        behind : c ≢ b'\n' → IsSuffix (b'\n' ∷ rest) r
        behind = inside_tail b'\n' rest c r h

        stays : (log : Log) → (stop ≡ true → StopsAt (c ∷ r)) → Ok (c ∷ r) (invalid, c ∷ r, log)
        stays log at = record {
          reached = Reached-here h;
          progress = λ ne. absurd (ne refl);
          stopped = λ on _. at on;
        }

        moves : (v : ℕ) (log : Log) → v ≢ invalid → c ≢ b'\n' → Ok (c ∷ r) (v, r, log)
        moves v log value ne = record {
          reached = Reached-cons (Reached-here (behind ne));
          progress = λ _. omega arith;
          stopped = λ _ e. absurd (value e);
        }

        -- A quote, which stops one of the two kinds of literals.
        either :
            (b : Bool) (t u : CharResult)
            → (b ≡ true → Ok (c ∷ r) t)
            → (b ≡ false → Ok (c ∷ r) u)
            → Ok (c ∷ r) (if b then t else u)
        either true t u x y = x refl
        either false t u x y = y refl
