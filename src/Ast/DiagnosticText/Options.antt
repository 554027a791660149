-- ===== src/Ast/DiagnosticText/Options.antt =====
-- The options of selections and the digits of indexes in diagnostic texts
-- (lib/AST/DiagnosticEngine.cpp).
use b1c3995fdcf53d46308da.Base.{
  ℕ, zero, suc, ◌+◌, ◌-◌, ◌*◌, ◌<◌, ◌≡◌, ◌≢◌, refl, ap, true, false, some, List, [], ◌∷◌, ◌++◌, ◌⊎◌,
  inl, Bytes, get_elem?, arith,
}
use b1c3995fdcf53d46308da.Parse.Chars.{is_alpha, is_digit}
use b1c3995fdcf53d46308da.Ast.DiagnosticText.{
  DiagnosticArgument, string_arg, integer_arg, unsigned_arg, identifier_arg, type_arg, skip_from,
  skip_at, onward, found, cons_first, skip_to_delimiter, select_option, select_modifier,
  span_letters, span_digits, decimal_value, get_as_unsigned, modifier_arguments, signed_decimal,
  quoted,
}

-- The text of an option: no braces, bars, percent signs or zeros.
abbrev pub IsOption : Bytes → Type 0
IsOption [] = Unit {0}
IsOption (c ∷ r) = (c ≢ b'{') × (c ≢ b'}') × (c ≢ b'|') × (c ≢ b'%') × (c ≢ 0) × IsOption r

abbrev pub AllOptions : List Bytes → Type 0
AllOptions [] = Unit {0}
AllOptions (o ∷ options) = IsOption o × AllOptions options

-- The options with bars between them, in front of `r`.
abbrev pub join_options : List Bytes → Bytes → Bytes
join_options [] r = r
join_options (o ∷ []) r = o ++ r
join_options (o ∷ p ∷ options) r = o ++ b'|' ∷ join_options (p ∷ options) r

-- The text does not go on with a digit.
abbrev pub EndsIndex : Bytes → Type 0
EndsIndex [] = Unit {0}
EndsIndex (c ∷ r) = is_digit c ≡ false

-- The number that selects an option.
abbrev pub Selects : DiagnosticArgument → ℕ → Type 0
Selects (integer_arg false n) m = n ≡ m
Selects (unsigned_arg n) m = n ≡ m
Selects _ m = ⊥

module _ (decimal : ℕ → Bytes) where
  -- How an argument is written.
  abbrev pub shown : DiagnosticArgument → Bytes
  shown (string_arg s) = s
  shown (integer_arg negative n) = signed_decimal decimal negative n
  shown (unsigned_arg n) = decimal n
  shown (identifier_arg s) = quoted decimal s
  shown (type_arg s) = quoted decimal s

  -- The texts that this is about, and what they are formatted to: characters, doubled percent
  -- signs, arguments, and selections among plain options, with indexes of one digit.
  pub data Formats (args : List DiagnosticArgument) : Bytes → Bytes → Type 0 where
    empty : Formats args [] []
    char : {r s : Bytes} (c : ℕ) → c ≢ b'%' → Formats args r s → Formats args (c ∷ r) (c ∷ s)
    percent : {r s : Bytes} → Formats args r s → Formats args (b'%' ∷ b'%' ∷ r) (b'%' ∷ s)
    argument :
        {r s : Bytes} (i : ℕ) (a : DiagnosticArgument)
        → i < 10
        → get_elem? args i ≡ some a
        → EndsIndex r
        → Formats args r s
        → Formats args (b'%' ∷ (b'0' + i) ∷ r) (shown a ++ s)
    selection :
        {r s : Bytes} (i n : ℕ) (a : DiagnosticArgument) (o : Bytes) (options : List Bytes)
        → i < 10
        → get_elem? args i ≡ some a
        → Selects a n
        → AllOptions options
        → get_elem? options n ≡ some o
        → EndsIndex r
        → Formats args r s
        → Formats args
            (b'%' ∷ (select_modifier ++ b'{' ∷ join_options options (b'}' ∷ (b'0' + i) ∷ r)))
            (o ++ s)

-- An option is cut off in front of its delimiter.
skip-option :
    (delim : ℕ) (o rest : Bytes)
    → (delim ≡ b'|') ⊎ (delim ≡ b'}')
    → IsOption o
    → skip_from delim 0 0 (o ++ delim ∷ rest) ≡ some (o, rest)
unfolding skip_from
skip-option delim [] rest h ok = let e : skip_at delim 0 0 delim ≡ found = ground arith in rw e refl
skip-option delim (c ∷ o) rest h (a, b, d, e, f, ok) =
    let on : skip_at delim 0 0 c ≡ onward = ground arith in
    rw on (rw (skip-option delim o rest h ok) refl)

skip-option_end : (o : Bytes) → IsOption o → skip_from b'|' 0 0 (o ++ []) ≡ some (o, [])
unfolding skip_from
skip-option_end [] ok = refl
skip-option_end (c ∷ o) (a, b, d, e, f, ok) =
    let on : skip_at b'|' 0 0 c ≡ onward = ground arith in rw on (rw (skip-option_end o ok) refl)

-- The options' text up to the closing brace.
skip-through :
    (o x p rest : Bytes)
    → IsOption o
    → skip_from b'}' 0 0 x ≡ some (p, rest)
    → skip_from b'}' 0 0 (o ++ x) ≡ some (o ++ p, rest)
unfolding skip_from
skip-through [] x p rest ok h = h
skip-through (c ∷ o) x p rest (a, b, d, e, f, ok) h =
    let on : skip_at b'}' 0 0 c ≡ onward = ground arith in
    rw on (rw (skip-through o x p rest ok h) refl)

pub skip-join_options :
    (options : List Bytes) (rest : Bytes)
    → AllOptions options
    → skip_to_delimiter b'}' (join_options options (b'}' ∷ rest))
      ≡ some (join_options options [], rest)
unfolding skip_to_delimiter
skip-join_options [] rest ok = refl
skip-join_options (o ∷ []) rest ok = skip-through o (b'}' ∷ rest) [] rest ok.0 refl
skip-join_options (o ∷ p ∷ options) rest ok =
    skip-through o (b'|' ∷ join_options (p ∷ options) (b'}' ∷ rest))
      (b'|' ∷ join_options (p ∷ options) []) rest ok.0
      (ap (cons_first b'|') (skip-join_options (p ∷ options) rest ok.1))

-- The loop over the options finds the one with the number.
pub select-join_options :
    (n : ℕ) (options : List Bytes) (o : Bytes)
    → AllOptions options
    → get_elem? options n ≡ some o
    → select_option n (join_options options []) ≡ some o
unfolding select_option skip_to_delimiter
select-join_options zero [] o ok e = absurd (cc)
select-join_options (suc n) [] o ok e = absurd (cc)
select-join_options zero (p ∷ []) o ok e =
    let same : p ≡ o = cc in rw (skip-option_end p ok.0) (ap some same)
select-join_options (suc zero) (p ∷ []) o ok e = absurd (cc)
select-join_options (suc (suc n)) (p ∷ []) o ok e = absurd (cc)
select-join_options zero (p ∷ q ∷ options) o ok e =
    let same : p ≡ o = cc in
    rw (skip-option b'|' p (join_options (q ∷ options) []) (inl refl) ok.0) (ap some same)
select-join_options (suc n) (p ∷ q ∷ options) o ok e =
    rw (skip-option b'|' p (join_options (q ∷ options) []) (inl refl) ok.0)
      (select-join_options n (q ∷ options) o ok.1 e)

pub span_letters-digit :
    (i : ℕ) (r : Bytes) → i < 10 → span_letters ((b'0' + i) ∷ r) ≡ some ([], (b'0' + i) ∷ r)
unfolding span_letters is_alpha
span_letters-digit i r h = ground arith

digit-is_digit : (i : ℕ) → i < 10 → is_digit (b'0' + i) ≡ true
unfolding is_digit
digit-is_digit i h = ground arith

pub span_digits-digit :
    (i : ℕ) (r : Bytes) → i < 10 → EndsIndex r → span_digits ((b'0' + i) ∷ r) ≡ ((b'0' + i) ∷ [], r)
unfolding span_digits
span_digits-digit i [] h ends = rw (digit-is_digit i h, span_digits) refl
span_digits-digit i (c ∷ r) h ends =
    rw (digit-is_digit i h, span_digits) (rw (ends, span_digits) refl)

pub get_as_unsigned-digit : (i : ℕ) → i < 10 → get_as_unsigned ((b'0' + i) ∷ []) ≡ some i
unfolding get_as_unsigned decimal_value
get_as_unsigned-digit i h =
    let e : 0 * 10 + (b'0' + i - b'0') ≡ i = omega arith in rw e (ground arith)

pub modifier_arguments-digit :
    (i : ℕ) (r : Bytes) → i < 10 → modifier_arguments ((b'0' + i) ∷ r) ≡ some ([], (b'0' + i) ∷ r)
unfolding modifier_arguments
modifier_arguments-digit i r h = ground arith
