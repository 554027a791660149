-- ===== src/Parse/Utf8/Bits.antt =====
-- The bit operations of the UTF-8 helpers as arithmetic: the bit width against powers of two, the
-- leading ones of a byte, and the masks.
use Prim.Native.Nat.{bit_and, bit_or, digits, min, max, bit_and-bitwise, bit_or-bitwise}
use native.Mathlib.Nat.{pow-suc}
use b1c3995fdcf53d46308da.Base.{
  ◌-◌, ◌∙◌, ap, ℕ, zero, suc, ◌+◌, ◌*◌, ◌/◌, ◌%◌, ◌^◌, ◌≤◌, ◌<◌, true, ◌==◌, leb, ltb,
  if◌then◌else◌, ◌≡◌, refl, ◌↔◌, arith, all_below, all_below_lem, ==_iff,
}
use b1c3995fdcf53d46308da.Parse.Utf8.{bit_width, num_bits, clo8, accumulate}

pow_pos : (k : ℕ) → 0 < 2 ^ k
pow_pos zero = omega arith
pow_pos (suc k) = omega (arith, pow-suc 2 k, pow_pos k)

-- A value has at most `k` binary digits exactly if it is below 2 ^ k.
bit_width-le : (fuel k v : ℕ) → v < 2 ^ fuel → (bit_width fuel v ≤ k) ↔ (v < 2 ^ k)
unfolding bit_width
bit_width-le zero k v h = (λ _. ground (arith, pow_pos k), λ _. omega arith)
bit_width-le (suc fuel) zero v h = ground arith
bit_width-le (suc fuel) (suc k) v h = ground (
  arith,
  bit_width-le fuel k (v / 2) (omega (arith, pow-suc 2 fuel)),
  pow-suc 2 fuel,
  pow-suc 2 k,
  pow_pos k,
)

-- The tests on `NumBits` are bounds on the value.
pub num_bits-leb : (k v : ℕ) → v < 2 ^ 32 → leb (num_bits v) k ≡ ltb v (2 ^ k)
unfolding num_bits
num_bits-leb k v h = ground (arith, bit_width-le 32 32 v h, bit_width-le 32 k v h)

-- Low bits of the digit recursion of `bit_and` and `bit_or`.
abbrev leading_ones : ℕ → ℕ
leading_ones c =
    if ltb c 0x80
    then 0
    else if ltb c 0xC0
    then 1
    else if ltb c 0xE0
    then 2
    else if ltb c 0xF0
    then 3
    else if ltb c 0xF8
    then 4
    else 5

leading_ones_table :
    all_below 256 (λ c. (if ltb 4 (clo8 c) then 5 else clo8 c) == leading_ones c) ≡ true
unfolding all_below bit_width clo8
leading_ones_table = refl

-- `CLO8` by ranges of the byte; all that is asked of a larger count is that it is above four.
pub clo8_lem : (c : ℕ) → c < 256 → (if ltb 4 (clo8 c) then 5 else clo8 c) ≡ leading_ones c
clo8_lem c h = (==_iff _ _).0 (all_below_lem 256 c _ h leading_ones_table)

module _ (z : ℕ → ℕ) (f : ℕ → ℕ → ℕ) where
  -- Once the fuel covers the first operand, one more does not matter.
  one_more : (a b fuel : ℕ) → a ≤ fuel → digits z f (suc fuel) a b ≡ digits z f fuel a b
  one_more (suc a) b zero covered = absurd (omega arith)
  one_more (suc a) b (suc fuel) covered =
      let half = one_more (suc a / 2) (b / 2) fuel (omega arith) in omega arith
  one_more zero b zero covered = refl
  one_more zero b (suc fuel) covered = refl

  spare :
      (a b fuel more total : ℕ)
      → a ≤ fuel
      → total ≡ more + fuel
      → digits z f total a b ≡ digits z f fuel a b
  spare a b fuel zero total covered sum =
      let same : total ≡ fuel = omega arith in ap (λ n. digits z f n a b) same
  spare a b fuel (suc more) total covered sum =
      let last : total ≡ suc (more + fuel) = omega arith in
      ap (λ n. digits z f n a b) last
      ∙ one_more a b (more + fuel) (omega arith)
      ∙ spare a b fuel more (more + fuel) covered refl

  -- The fuel that half of a number needs is there when the number less one is given.
  halved : (a b : ℕ) → digits z f a (suc a / 2) b ≡ digits z f (suc a / 2) (suc a / 2) b
  halved a b = spare (suc a / 2) b (suc a / 2) (a - suc a / 2) a (omega arith) (omega arith)

-- The lowest digit of a conjunction and of a disjunction.
bit_and-suc :
    (a b : ℕ) → bit_and (suc a) b ≡ bit_and (suc a / 2) (b / 2) * 2 + min (suc a % 2) (b % 2)
bit_and-suc a b =
    let rest = halved (λ _. zero) min a (b / 2) in
    omega (arith, bit_and-bitwise (suc a / 2) (b / 2), rest, bit_and-bitwise (suc a) b)

bit_or-suc : (a b : ℕ) → bit_or (suc a) b ≡ bit_or (suc a / 2) (b / 2) * 2 + max (suc a % 2) (b % 2)
bit_or-suc a b =
    let rest = halved (λ b. b) max a (b / 2) in
    omega (arith, bit_or-bitwise (suc a / 2) (b / 2), rest, bit_or-bitwise (suc a) b)

zero-bit_or : (b : ℕ) → bit_or 0 b ≡ b
zero-bit_or b = bit_or-bitwise 0 b

zero-bit_and : (b : ℕ) → bit_and 0 b ≡ 0
zero-bit_and b = bit_and-bitwise 0 b

pub mask_63 : (b : ℕ) → bit_and 0x3F b ≡ b % 64
mask_63 b = omega (
  arith,
  bit_and-suc 62 b,
  bit_and-suc 30 (b / 2),
  bit_and-suc 14 (b / 2 / 2),
  bit_and-suc 6 (b / 2 / 2 / 2),
  bit_and-suc 2 (b / 2 / 2 / 2 / 2),
  bit_and-suc 0 (b / 2 / 2 / 2 / 2 / 2),
  zero-bit_and (b / 2 / 2 / 2 / 2 / 2 / 2),
)

bit_or_step : (a b : ℕ) → bit_or a b ≡ bit_or (a / 2) (b / 2) * 2 + max (a % 2) (b % 2)
bit_or_step zero b = omega (arith, zero-bit_or b, zero-bit_or (b / 2))
bit_or_step (suc a) b = bit_or-suc a b

bit_or-zero_below : (n a : ℕ) → a ≤ n → bit_or a 0 ≡ a
bit_or-zero_below zero a h = let e : a ≡ 0 = omega arith in rw e (zero-bit_or 0)
bit_or-zero_below (suc n) a h =
    omega (arith, bit_or_step a 0, bit_or-zero_below n (a / 2) (omega arith))

bit_or-zero : (a : ℕ) → bit_or a 0 ≡ a
bit_or-zero a = bit_or-zero_below a a (omega arith)

-- Six low bits are put beside the others.
bit_or_low_six : (a b : ℕ) → b < 64 → bit_or (a * 64) b ≡ a * 64 + b
bit_or_low_six a b h =
    let e₁ : a * 64 / 2 / 2 / 2 / 2 / 2 / 2 ≡ a = omega arith in
    let e₂ : b / 2 / 2 / 2 / 2 / 2 / 2 ≡ 0 = omega arith in
    let top : bit_or (a * 64 / 2 / 2 / 2 / 2 / 2 / 2) (b / 2 / 2 / 2 / 2 / 2 / 2) ≡ a =
      rw (e₁, e₂) (bit_or-zero a) in
    omega (
      arith,
      top,
      bit_or_step (a * 64) b,
      bit_or_step (a * 64 / 2) (b / 2),
      bit_or_step (a * 64 / 2 / 2) (b / 2 / 2),
      bit_or_step (a * 64 / 2 / 2 / 2) (b / 2 / 2 / 2),
      bit_or_step (a * 64 / 2 / 2 / 2 / 2) (b / 2 / 2 / 2 / 2),
      bit_or_step (a * 64 / 2 / 2 / 2 / 2 / 2) (b / 2 / 2 / 2 / 2 / 2),
    )

low_six_table : all_below 256 (λ c. bit_and c 0x3F == c % 64) ≡ true
unfolding all_below
low_six_table = refl

-- One continuation byte adds six bits, while the value fits.
pub accumulate_lem : (v c : ℕ) → v < 2 ^ 26 → c < 256 → accumulate v c ≡ v * 64 + c % 64
unfolding accumulate
accumulate_lem v c hv hc =
    let e : v * 2 ^ 6 % 2 ^ 32 ≡ v * 64 = omega arith in
    rw (e, (==_iff _ _).0 (all_below_lem 256 c _ hc low_six_table))
      (bit_or_low_six v (c % 64) (omega arith))

table_80 : all_below 64 (λ x. bit_or 0x80 x % 256 == 0x80 + x) ≡ true
unfolding all_below
table_80 = refl

table_c0 : all_below 32 (λ x. bit_or 0xC0 x % 256 == 0xC0 + x) ≡ true
unfolding all_below
table_c0 = refl

table_e0 : all_below 16 (λ x. bit_or 0xE0 x % 256 == 0xE0 + x) ≡ true
unfolding all_below
table_e0 = refl

table_f0 : all_below 8 (λ x. bit_or 0xF0 x % 256 == 0xF0 + x) ≡ true
unfolding all_below
table_f0 = refl

pub mark_80 : (x : ℕ) → x < 64 → bit_or 0x80 x % 256 ≡ 0x80 + x
mark_80 x h = (==_iff _ _).0 (all_below_lem 64 x _ h table_80)

pub mark_c0 : (x : ℕ) → x < 32 → bit_or 0xC0 x % 256 ≡ 0xC0 + x
mark_c0 x h = (==_iff _ _).0 (all_below_lem 32 x _ h table_c0)

pub mark_e0 : (x : ℕ) → x < 16 → bit_or 0xE0 x % 256 ≡ 0xE0 + x
mark_e0 x h = (==_iff _ _).0 (all_below_lem 16 x _ h table_e0)

pub mark_f0 : (x : ℕ) → x < 8 → bit_or 0xF0 x % 256 ≡ 0xF0 + x
mark_f0 x h = (==_iff _ _).0 (all_below_lem 8 x _ h table_f0)
