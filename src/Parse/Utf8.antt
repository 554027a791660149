-- ===== src/Parse/Utf8.antt =====
-- The UTF-8 helpers of lib/Parse/Lexer.cpp. A `const char *` is the list of the bytes from it to
-- the end of the readable memory, and `none` is a read outside that memory.
pub mod Bits
pub mod Decode
pub mod RoundTrip
use Prim.Native.Nat.{bit_and, bit_or}
use b1c3995fdcf53d46308da.Base.{
  asserting, ℕ, zero, suc, ◌+◌, ◌-◌, ◌*◌, ◌/◌, ◌%◌, ◌^◌, Bool, true, false, ◌&&◌, ◌||◌, ◌==◌, leb,
  ltb, within, if◌then◌else◌, Option, none, some, List, [], ◌∷◌, ◌++◌, Bytes, ◌>>=◌,
}

-- The number of binary digits of a value below 2 ^ fuel.
unfoldable pub bit_width : ℕ → ℕ → ℕ
bit_width zero v = 0
bit_width (suc fuel) v = if v == 0 then 0 else suc (bit_width fuel (v / 2))

-- `llvm::CountLeadingZeros_32`: the zero bits above the highest one of a 32-bit word.
unfoldable pub count_leading_zeros_32 : ℕ → ℕ
count_leading_zeros_32 v = 32 - bit_width 32 v

-- `llvm::CountLeadingOnes_32`: the leading zeros of the complement.
unfoldable pub count_leading_ones_32 : ℕ → ℕ
unfolding count_leading_zeros_32
count_leading_ones_32 v = count_leading_zeros_32 (2 ^ 32 - 1 - v)

-- `NumBits`, the number of bits in the value, ignoring leading zeros.
unfoldable pub num_bits : ℕ → ℕ
unfolding count_leading_zeros_32
num_bits v = 32 - count_leading_zeros_32 v

-- `while (NumTrailingBytes--) Result.push_back(char(0x80 | (0x3F & (CharValue >> ...))))`
unfoldable pub trailing_bytes : ℕ → ℕ → Bytes → Bytes
trailing_bytes zero v result = result
trailing_bytes (suc n) v result =
    trailing_bytes n v (result ++ bit_or 0x80 (bit_and 0x3F (v / 2 ^ (n * 6))) % 256 ∷ [])

-- What follows the assertion of `EncodeToUTF8`: whether the code point is erroneous, and the
-- result with the bytes pushed.
unfoldable pub encode_bytes : ℕ → Bytes → Bool × Bytes
unfolding trailing_bytes
encode_bytes v result =
    if leb (num_bits v) (5 + 6)
    then (false, trailing_bytes 1 v (result ++ bit_or 0xC0 (v / 2 ^ 6) % 256 ∷ []))
    else if leb (num_bits v) (4 + 6 + 6)
    then (let pushed = result ++ bit_or 0xE0 (v / 2 ^ (6 + 6)) % 256 ∷ [] in
        if within 0xD800 0xDFFF v then (true, pushed) else (false, trailing_bytes 2 v pushed))
    else if leb (num_bits v) (3 + 6 + 6 + 6)
    then (let pushed = result ++ bit_or 0xF0 (v / 2 ^ (6 + 6 + 6)) % 256 ∷ [] in
        if ltb 0x10FFFF v then (true, pushed) else (false, trailing_bytes 3 v pushed))
    else (true, result)

-- `EncodeToUTF8`
unfoldable pub encode_to_utf8 : ℕ → Bytes → Option (Bool × Bytes)
unfolding encode_bytes
encode_to_utf8 v result = asserting (leb 0x80 v) (some (encode_bytes v result))

-- `CLO8`: the number of leading ones of a byte.
unfoldable pub clo8 : ℕ → ℕ
unfolding count_leading_ones_32
clo8 c = count_leading_ones_32 (c * 2 ^ 24)

-- `isStartOfUTF8Character`
unfoldable pub is_start_of_utf8_character : ℕ → Bool
is_start_of_utf8_character c = ltb c 0x80 || leb 0xC0 c

-- `~0U`
abbrev pub invalid : ℕ
invalid = 0xFFFFFFFF

-- `while (!isStartOfUTF8Character(*Ptr)) ++Ptr;`
unfoldable pub skip_to_start : Bytes → Option Bytes
unfolding is_start_of_utf8_character
skip_to_start [] = none
skip_to_start (c ∷ r) = if is_start_of_utf8_character c then some (c ∷ r) else skip_to_start r

-- `CharValue <<= 6; CharValue |= CurByte & 0x3F;`
unfoldable pub accumulate : ℕ → ℕ → ℕ
accumulate v c = bit_or (v * 2 ^ 6 % 2 ^ 32) (bit_and c 0x3F)

-- The checks behind the loop: surrogates, and the length that the value asks for.
unfoldable pub check_value : ℕ → ℕ → ℕ
check_value encoded_bytes v =
    if within 0xD800 0xDFFF v
    then invalid
    else if leb (num_bits v) (5 + 6)
    then if encoded_bytes == 2 then v else invalid
    else if leb (num_bits v) (4 + 6 + 6)
    then if encoded_bytes == 3 then v else invalid
    else if encoded_bytes == 4
    then v
    else invalid

-- The loop over the continuation bytes still to come, and what follows it.
unfoldable pub continuation : ℕ → ℕ → ℕ → Bytes → Option (ℕ × Bytes)
unfolding check_value
continuation zero n v r = some (check_value n v, r)
continuation (suc k) n v [] = none
continuation (suc k) n v (c ∷ r) =
    let rest = continuation k n (accumulate v c) r in
    if ltb c 0x80 || leb 0xC0 c then some (invalid, c ∷ r) else rest

-- `validateUTF8CharacterAndAdvance`: the code point or `~0U`, and the advanced pointer.
unfoldable pub validate_utf8_character_and_advance : Bytes → Option (ℕ × Bytes)
unfolding skip_to_start continuation
validate_utf8_character_and_advance [] = none
validate_utf8_character_and_advance (c ∷ r) =
    let n = clo8 c in
    asserting (leb 0x80 c) (
      if n == 1 || ltb 4 n
      then (skip_to_start r >>= λ p. some (invalid, p))
      else continuation (n - 1) n (c * 2 ^ n % 256 / 2 ^ n) r)
