-- ===== src/Runtime/Printing/Digits.antt =====
-- What the digits of a number are (print_int and print_uint of runtime/Stubs.cpp).
use b1c3995fdcf53d46308da.Base.{
  ◌⊎◌, ℕ, zero, suc, ◌+◌, ◌-◌, ◌*◌, ◌/◌, ◌%◌, ◌^◌, ◌≤◌, ◌<◌, ◌==◌, ◌≡◌, ◌≢◌, refl, ◌∙◌, subst, Bool,
  true, false, if◌then◌else◌, none, [], ◌∷◌, Bytes, length, arith, inl, inr, Bool-cases, Returns,
  Returns->>=,
}
use b1c3995fdcf53d46308da.Runtime.Printing.{
  reverse_onto, digit_char, digits, all_digits, valid_radix, magnitude, print_uint, print_int,
}

-- The number that a text of digits stands for, `read` giving the digit of a character.
abbrev pub number : (ℕ → ℕ) → ℕ → ℕ → Bytes → ℕ
number read radix n [] = n
number read radix n (c ∷ cs) = number read radix (n * radix + read c) cs

-- The number of digits in the order in which they are found, the last one first.
abbrev value : (ℕ → ℕ) → ℕ → Bytes → ℕ
value read radix [] = 0
value read radix (c ∷ cs) = value read radix cs * radix + read c

number-reverse_onto :
    (read : ℕ → ℕ) (radix : ℕ) (ds done : Bytes)
    → number read radix 0 (reverse_onto ds done) ≡ number read radix (value read radix ds) done
number-reverse_onto read radix [] done = refl
number-reverse_onto read radix (d ∷ ds) done = number-reverse_onto read radix ds (d ∷ done)

length-reverse_onto : (ds done : Bytes) → length (reverse_onto ds done) ≡ length ds + length done
length-reverse_onto [] done = omega arith
length-reverse_onto (d ∷ ds) done = omega (arith, length-reverse_onto ds (d ∷ done))

quotient_lt : (n y radix : ℕ) → 2 ≤ radix → y < 2 * n → y / radix < n
quotient_lt n y radix h lt = grind arith

quotient_remainder : (y radix : ℕ) → 0 < radix → y / radix * radix + y % radix ≡ y
quotient_remainder y radix h = grind arith

remainder_lt : (y radix : ℕ) → 0 < radix → y % radix < radix
remainder_lt y radix h = grind arith

pow_suc : (n : ℕ) → 2 ^ suc n ≡ 2 * 2 ^ n
pow_suc n = grind arith

-- The text with a sign in front.
abbrev signed : Bool → Bytes → Bytes
signed true s = b'-' ∷ s
signed false s = s

-- The digits that the magnitude of a number needs at most, in any radix.
abbrev room : ℕ → ℕ
room x = if x == 2 ^ 127 then 128 else 127

module _ (hexdigit read : ℕ → ℕ) (radix : ℕ) (two : 2 ≤ radix)
    (reads : (d : ℕ) → d < radix → read (digit_char hexdigit radix d) ≡ d)
    (reads_zero : read b'0' ≡ 0) where
  -- Digits that stand for `y`, at most `n`.
  abbrev AreDigits : ℕ → ℕ → Bytes → Type 0
  AreDigits n y ds = (value read radix ds ≡ y) × (length ds ≤ n)

  next_digit :
      (n y : ℕ) (ds : Bytes)
      → AreDigits n (y / radix) ds
      → AreDigits (suc n) y (digit_char hexdigit radix (y % radix) ∷ ds)
  next_digit n y ds (is, le) = (
    rw is (
        rw (reads (y % radix) (remainder_lt y radix (omega arith)))
          (quotient_remainder y radix (omega arith))),
    omega arith,
  )

  digits-AreDigits :
      (fuel n y : ℕ) → n ≤ fuel → y < 2 ^ n → Returns (digits hexdigit fuel radix y) (AreDigits n y)
  unfolding digits
  digits-AreDigits zero n y enough small =
      let none_left : n ≡ 0 = omega arith in
      let none_of : y < 1 = subst (λ n. y < 2 ^ n) none_left small in
      let is_zero : (y == 0) ≡ true = ground arith in
      let zero_is : 0 ≡ y = omega arith in rw is_zero (zero_is, omega arith)
  digits-AreDigits (suc fuel) zero y enough small =
      let is_zero : (y == 0) ≡ true = ground arith in
      let zero_is : 0 ≡ y = omega arith in rw (is_zero, digits) (zero_is, omega arith)
  digits-AreDigits (suc fuel) (suc n) y enough small = elim (Bool-cases (y == 0)) [
    | inl is_zero ↦
        let zero_is : 0 ≡ y = ground arith in rw (is_zero, digits) (zero_is, omega arith)
    | inr more ↦
        let not_zero : (radix == 0) ≡ false = ground arith in
        rw (more, digits)
          (rw not_zero (
            Returns->>= (AreDigits n (y / radix)) (AreDigits (suc n) y)
              (digits hexdigit fuel radix (y / radix)) _
              (digits-AreDigits fuel n (y / radix) (omega arith)
                (quotient_lt (2 ^ n) y radix two (subst (λ m. y < m) (pow_suc n) small)))
              (λ ds ok. next_digit n y ds ok)))
  ]

  -- The digits of any number, `0` included, at most `n`.
  all_digits-AreDigits :
      (n y : ℕ)
      → 0 < n
      → n ≤ 128
      → y < 2 ^ n
      → Returns (all_digits hexdigit radix y) (AreDigits n y)
  unfolding all_digits
  all_digits-AreDigits n y some_room enough small = elim (Bool-cases (y == 0)) [
    | inl is_zero ↦
        let zero_is : 0 ≡ y = ground arith in
        rw is_zero (rw reads_zero (grind (arith, zero_is)), omega arith)
    | inr more ↦ rw more (digits-AreDigits 128 n y enough small)
  ]

  is_radix : radix ≤ 36 → valid_radix radix ≡ true
  is_radix le = ground arith

  -- `print_uint` returns for radixes from 2 to 36: its text reads as the number again, and has
  -- 128 characters at most.
  pub print_uint-number :
      (y : ℕ)
      → radix ≤ 36
      → y < 2 ^ 128
      → Returns (print_uint hexdigit y radix) (λ t. (number read radix 0 t ≡ y) × (length t ≤ 128))
  unfolding print_uint
  print_uint-number y le small = rw (is_radix le) (
      Returns->>= (AreDigits 128 y) _ (all_digits hexdigit radix y) _
        (all_digits-AreDigits 128 y (omega arith) (omega arith) small)
        (λ ds ok. (
          number-reverse_onto read radix ds [] ∙ ok.0,
          omega (arith, length-reverse_onto ds [], ok.1),
        )))

  -- A text that shows a number in 128 bits with its sign: the digits of a number below 2^127, or
  -- a minus sign and the digits of what a number from 2^127 on lacks to 2^128.
  abbrev pub Shows : ℕ → Bytes → Type 0
  Shows x t =
      ((x < 2 ^ 127) × (number read radix 0 t ≡ x))
      ⊎ ((s : Bytes) × (2 ^ 127 ≤ x) × (t ≡ b'-' ∷ s) × (number read radix 0 s ≡ 2 ^ 128 - x))

digits-one : (hexdigit : ℕ → ℕ) (fuel y : ℕ) → y ≢ 0 → digits hexdigit fuel 1 y ≡ none
unfolding digits
digits-one hexdigit zero y more = let not_zero : (y == 0) ≡ false = ground arith in rw not_zero refl
digits-one hexdigit (suc fuel) y more =
    let not_zero : (y == 0) ≡ false = ground arith in
    let same : y / 1 ≡ y = omega arith in
    rw (not_zero, digits) (rw same (rw (digits-one hexdigit fuel y more) refl))

all_digits-one : (hexdigit : ℕ → ℕ) (y : ℕ) → y ≢ 0 → all_digits hexdigit 1 y ≡ none
unfolding all_digits
all_digits-one hexdigit y more =
    let not_zero : (y == 0) ≡ false = ground arith in rw not_zero (digits-one hexdigit 128 y more)

-- The assertion of `print_uint` and `print_int` lets radix 1 through. The loop then does not end
-- for a 128-bit number but 0: however many rounds it is given, it is not done, and neither function
-- returns.
pub digits_radix_one :
    (hexdigit : ℕ → ℕ) (fuel x : ℕ)
    → x ≢ 0
    → x < 2 ^ 128
    → (valid_radix 1 ≡ true)
      × (digits hexdigit fuel 1 x ≡ none)
      × (print_uint hexdigit x 1 ≡ none)
      × (print_int hexdigit x 1 ≡ none)
unfolding print_uint print_int
digits_radix_one hexdigit fuel x more small = (
  refl,
  digits-one hexdigit fuel x more,
  rw (all_digits-one hexdigit x more) refl,
  rw (all_digits-one hexdigit (magnitude x) (ground arith)) refl,
)
