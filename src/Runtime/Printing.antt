-- ===== src/Runtime/Printing.antt =====
-- The conversion of numbers to text (print_int and print_uint of runtime/Stubs.cpp). A 128-bit
-- integer is its bits as a number; `hexdigit` stands for LLVM's function of that name.
pub mod Digits
use b1c3995fdcf53d46308da.Base.{
  ℕ, zero, suc, ◌+◌, ◌-◌, ◌/◌, ◌%◌, ◌^◌, ◌==◌, ltb, leb, ◌&&◌, not, Bool, true, false,
  if◌then◌else◌, Option, none, some, ◌>>=◌, [], ◌∷◌, ◌++◌, Bytes,
}

-- `std::reverse`, in front of the bytes that are reversed already.
abbrev pub reverse_onto : Bytes → Bytes → Bytes
reverse_onto [] done = done
reverse_onto (d ∷ ds) done = reverse_onto ds (d ∷ done)

-- "Invalid radix for string conversion"
abbrev pub valid_radix : ℕ → Bool
valid_radix radix = not (radix == 0) && leb radix 36

-- `X < 0`, and `WasNeg ? -X : X` in 128 bits.
abbrev pub was_neg : ℕ → Bool
was_neg x = leb (2 ^ 127) x

abbrev pub magnitude : ℕ → ℕ
magnitude x = if was_neg x then (2 ^ 128 - x) % 2 ^ 128 else x

abbrev pub with_sign : Bool → Bytes → Bytes
with_sign true ds = ds ++ b'-' ∷ []
with_sign false ds = ds

module _ (hexdigit : ℕ → ℕ) where
  -- One character, in either loop.
  abbrev pub digit_char : ℕ → ℕ → ℕ
  digit_char radix d = if radix == 10 then b'0' + d else hexdigit d

  -- The loops, the last digit first. `none` is a division by 0, or a loop that goes on.
  unfoldable pub digits : ℕ → ℕ → ℕ → Option Bytes
  digits zero radix y = if y == 0 then some [] else none
  digits (suc fuel) radix y = elim (y == 0) [
    | true ↦ some []
    | false ↦ elim (radix == 0) [
      | true ↦ none
      | false ↦ (digits fuel radix (y / radix) >>= λ ds. some (digit_char radix (y % radix) ∷ ds))
    ]
  ]

  -- The digits of `Y`, with the special case of 0; its bits are at most 128.
  unfoldable pub all_digits : ℕ → ℕ → Option Bytes
  unfolding digits
  all_digits radix y = if y == 0 then some (b'0' ∷ []) else digits 128 radix y

  -- What is written into the buffer.
  unfoldable pub print_uint : ℕ → ℕ → Option Bytes
  unfolding all_digits
  print_uint y radix =
      if valid_radix radix then (all_digits radix y >>= λ ds. some (reverse_onto ds [])) else none

  unfoldable pub print_int : ℕ → ℕ → Option Bytes
  unfolding all_digits
  print_int x radix =
      if valid_radix radix
      then (all_digits radix (magnitude x) >>= λ ds.
          some (reverse_onto (with_sign (was_neg x) ds) []))
      else none
