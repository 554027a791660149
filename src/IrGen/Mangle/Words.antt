-- ===== src/IrGen/Mangle/Words.antt =====
-- How numbers, indexes and identifiers read that lib/IRGen/Mangle.cpp mangles.
use b1c3995fdcf53d46308da.Base.{
  ℕ, zero, suc, ◌+◌, ◌-◌, ◌*◌, ◌==◌, ◌≡◌, ◌≢◌, refl, ap, ◌∙◌, true, false, some, [], ◌∷◌, ◌++◌,
  Bytes, length, arith, Returns,
}
use mathlib.Core.List.{append_assoc}
use b1c3995fdcf53d46308da.Parse.Chars.{
  is_digit, is_alpha, is_operator_char, is_valid_start_of_identifier,
}
use b1c3995fdcf53d46308da.Runtime.Printing.Digits.{number}
use b1c3995fdcf53d46308da.IrGen.Mangle.{is_operator, mangle_index, mangle_identifier}
use b1c3995fdcf53d46308da.IrGen.Mangle.Reader.{read_digits, read_index, split_at, read_identifier}

abbrev pub digit_value : ℕ → ℕ
digit_value c = c - b'0'

abbrev pub AllDigits : Bytes → Type 0
AllDigits [] = Unit {0}
AllDigits (c ∷ s) = (is_digit c ≡ true) × AllDigits s

-- How a stream prints numbers: in decimal digits, at least one.
abbrev pub IsDecimal : (ℕ → Bytes) → Type 0
IsDecimal decimal =
    (n : ℕ) → AllDigits (decimal n) × (decimal n ≢ []) × (number digit_value 10 0 (decimal n) ≡ n)

-- A text that does not go on with a digit.
abbrev pub EndsNumber : Bytes → Type 0
EndsNumber [] = Unit {0}
EndsNumber (c ∷ s) = is_digit c ≡ false

read_digits-number :
    (n : ℕ) (ds rest : Bytes)
    → AllDigits ds
    → EndsNumber rest
    → read_digits n (ds ++ rest) ≡ (number digit_value 10 n ds, rest)
unfolding read_digits
read_digits-number n [] [] all ends = refl
read_digits-number n [] (c ∷ s) all ends = rw (ends, read_digits) refl
read_digits-number n (d ∷ ds) rest (is, all) ends =
    rw (is, read_digits) (read_digits-number (n * 10 + digit_value d) ds rest all ends)

-- An identifier that is no operator.
abbrev pub IsName : Bytes → Type 0
IsName [] = ⊥
IsName (c ∷ s) = is_valid_start_of_identifier c ≡ true

start-no_digit : (c : ℕ) → is_valid_start_of_identifier c ≡ true → is_digit c ≡ false
unfolding is_valid_start_of_identifier is_alpha is_digit
start-no_digit c is = ground arith

start-no_operator : (c : ℕ) → is_valid_start_of_identifier c ≡ true → is_operator_char c ≡ false
unfolding is_valid_start_of_identifier is_alpha is_operator_char
start-no_operator c is = ground arith

split_at-length : (s rest : Bytes) → split_at (length s) (s ++ rest) ≡ some (s, rest)
unfolding split_at
split_at-length [] rest = refl
split_at-length (c ∷ s) rest = rw (split_at-length s rest) refl

no_underscore : (c : ℕ) → is_digit c ≡ true → (c == b'_') ≡ false
unfolding is_digit
no_underscore c is = ground arith

abbrev pub StartsWithDigit : Bytes → Type 0
StartsWithDigit [] = ⊥
StartsWithDigit (c ∷ s) = is_digit c ≡ true

pub StartsWithDigit-append : (ds s : Bytes) → AllDigits ds → ds ≢ [] → StartsWithDigit (ds ++ s)
StartsWithDigit-append [] s all some_digit = absurd (some_digit refl)
StartsWithDigit-append (c ∷ ds) s (is, all) some_digit = is

pub underscore-no_digit : is_digit b'_' ≡ false
unfolding is_digit
underscore-no_digit = refl

read_index-digits :
    (ds rest : Bytes)
    → AllDigits ds
    → ds ≢ []
    → read_index ((ds ++ b'_' ∷ []) ++ rest) ≡ some (suc (number digit_value 10 0 ds), rest)
unfolding read_index
read_index-digits [] rest all some_digit = absurd (some_digit refl)
read_index-digits (d ∷ ds) rest (is, all) some_digit =
    let behind : (ds ++ b'_' ∷ []) ++ rest ≡ ds ++ b'_' ∷ rest = append_assoc ds (b'_' ∷ []) rest in
    rw (no_underscore d is) (
      rw behind
        (rw (read_digits-number 0 (d ∷ ds) (b'_' ∷ rest) (is, all) underscore-no_digit) refl))

module _ (decimal : ℕ → Bytes) (printed : IsDecimal decimal) where
  pub read_digits-decimal :
      (n : ℕ) (rest : Bytes) → EndsNumber rest → read_digits 0 (decimal n ++ rest) ≡ (n, rest)
  read_digits-decimal n rest ends =
      read_digits-number 0 (decimal n) rest (printed n).0 ends ∙ ap (λ k. (k, rest)) (printed n).2

  pub read_index-mangle_index :
      (i : ℕ) (rest : Bytes) → read_index (mangle_index decimal i ++ rest) ≡ some (i, rest)
  unfolding read_index
  read_index-mangle_index zero rest = refl
  read_index-mangle_index (suc n) rest =
      read_index-digits (decimal n) rest (printed n).0 (printed n).1
      ∙ ap (λ k. some (suc k, rest)) (printed n).2

  -- An identifier reads as itself.
  pub mangle_identifier-reads :
      (name : Bytes)
      → IsName name
      → Returns (mangle_identifier decimal name) (λ id.
        StartsWithDigit id × ((rest : Bytes) → read_identifier (id ++ rest) ≡ some (name, rest)))
  unfolding mangle_identifier read_identifier is_operator
  mangle_identifier-reads [] is = absurd is
  mangle_identifier-reads (c ∷ name) is = rw (start-no_operator c is) (
    StartsWithDigit-append (decimal (length (c ∷ name))) (c ∷ name) (printed (length (c ∷ name))).0
        (printed (length (c ∷ name))).1,
    (λ rest. rw (append_assoc (decimal (length (c ∷ name))) (c ∷ name) rest) (
        rw (read_digits-decimal (length (c ∷ name)) (c ∷ name ++ rest) (start-no_digit c is))
          (split_at-length (c ∷ name) rest))),
  )
