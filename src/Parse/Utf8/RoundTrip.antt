-- ===== src/Parse/Utf8/RoundTrip.antt =====
-- What EncodeToUTF8 writes, validateUTF8CharacterAndAdvance reads back.
use Prim.Native.Nat.{bit_and, bit_or}
use b1c3995fdcf53d46308da.Base.{
  Returns, leb, true, ℕ, suc, ◌+◌, ◌*◌, ◌/◌, ◌%◌, ◌^◌, ◌≤◌, ◌<◌, false, ltb, if◌then◌else◌, ◌≡◌,
  refl, ◌⊎◌, some, [], ◌∷◌, ◌++◌, ◌∙◌, Bytes, arith,
}
use b1c3995fdcf53d46308da.Parse.Utf8.{
  encode_bytes, encode_to_utf8, clo8, validate_utf8_character_and_advance, continuation, accumulate,
  check_value,
}
use b1c3995fdcf53d46308da.Parse.Utf8.Bits.{
  num_bits-leb, clo8_lem, accumulate_lem, mask_63, mark_80, mark_c0, mark_e0, mark_f0,
}

-- A Unicode scalar value outside ASCII.
abbrev pub IsWideScalar : ℕ → Type 0
IsWideScalar v = (0x80 ≤ v) × (v ≤ 0x10FFFF) × ((v < 0xD800) ⊎ (0xDFFF < v))

-- A continuation byte for the six low bits of `v`.
abbrev pub tail_byte : ℕ → ℕ
tail_byte v = 0x80 + v % 64

-- The UTF-8 encoding, by arithmetic.
abbrev pub utf8 : ℕ → Bytes
utf8 v =
    if ltb v 0x800
    then (0xC0 + v / 64) ∷ tail_byte v ∷ []
    else if ltb v 0x10000
    then (0xE0 + v / 4096) ∷ tail_byte (v / 64) ∷ tail_byte v ∷ []
    else (0xF0 + v / 262144) ∷ tail_byte (v / 4096) ∷ tail_byte (v / 64) ∷ tail_byte v ∷ []

tail_byte_lem : (x : ℕ) → bit_or 0x80 (bit_and 0x3F x) % 256 ≡ tail_byte x
tail_byte_lem x = rw mask_63 (mark_80 (x % 64) (omega arith))

encode_bytes-utf8 : (v : ℕ) → IsWideScalar v → encode_bytes v [] ≡ (false, utf8 v)
unfolding encode_bytes
encode_bytes-utf8 v h =
    simp
      (
        num_bits-leb 11 v (omega arith),
        num_bits-leb 16 v (omega arith),
        num_bits-leb 21 v (omega arith),
        tail_byte_lem,
      )
      (ground (arith, mark_c0 (v / 64), mark_e0 (v / 4096), mark_f0 (v / 262144)))

-- `EncodeToUTF8` writes the standard encoding of every scalar value.
pub encode_to_utf8-utf8 : (v : ℕ) → IsWideScalar v → encode_to_utf8 v [] ≡ some (false, utf8 v)
unfolding encode_to_utf8
encode_to_utf8-utf8 v h =
    let wide : leb 0x80 v ≡ true = ground arith in rw (wide, encode_bytes-utf8 v h) refl

-- The leading byte gives the number of continuation bytes, and the high bits of the value.
lead_two :
    (x : ℕ) (r : Bytes)
    → x < 32
    → validate_utf8_character_and_advance ((0xC0 + x) ∷ r) ≡ continuation 1 2 x r
unfolding validate_utf8_character_and_advance
lead_two x r h =
    let e : clo8 (0xC0 + x) ≡ 2 = ground (arith, clo8_lem (0xC0 + x)) in
    let low : (0xC0 + x) * 4 % 256 / 4 ≡ x = omega arith in
    let start : leb 0x80 (0xC0 + x) ≡ true = ground arith in rw (start, e, low)

lead_three :
    (x : ℕ) (r : Bytes)
    → x < 16
    → validate_utf8_character_and_advance ((0xE0 + x) ∷ r) ≡ continuation 2 3 x r
unfolding validate_utf8_character_and_advance
lead_three x r h =
    let e : clo8 (0xE0 + x) ≡ 3 = ground (arith, clo8_lem (0xE0 + x)) in
    let low : (0xE0 + x) * 8 % 256 / 8 ≡ x = omega arith in
    let start : leb 0x80 (0xE0 + x) ≡ true = ground arith in rw (start, e, low)

lead_four :
    (x : ℕ) (r : Bytes)
    → x < 8
    → validate_utf8_character_and_advance ((0xF0 + x) ∷ r) ≡ continuation 3 4 x r
unfolding validate_utf8_character_and_advance
lead_four x r h =
    let e : clo8 (0xF0 + x) ≡ 4 = ground (arith, clo8_lem (0xF0 + x)) in
    let low : (0xF0 + x) * 16 % 256 / 16 ≡ x = omega arith in
    let start : leb 0x80 (0xF0 + x) ≡ true = ground arith in rw (start, e, low)

-- A continuation byte adds its six bits.
continuation_next :
    (k n x y : ℕ) (r : Bytes)
    → x < 2 ^ 26
    → continuation (suc k) n x (tail_byte y ∷ r) ≡ continuation k n (x * 64 + y % 64) r
unfolding continuation
continuation_next k n x y r h =
    let e : accumulate x (tail_byte y) ≡ x * 64 + y % 64 =
      accumulate_lem x (tail_byte y) h (omega arith) ∙ omega arith in
    rw e (ground arith)

continuation_last : (n v : ℕ) (r : Bytes) → continuation 0 n v r ≡ some (check_value n v, r)
unfolding continuation
continuation_last n v r = refl

check_value_two : (v : ℕ) → v < 0x800 → check_value 2 v ≡ v
unfolding check_value
check_value_two v h = simp (num_bits-leb 11 v (omega arith)) (ground arith)

check_value_three :
    (v : ℕ) → 0x800 ≤ v → v < 0x10000 → (v < 0xD800) ⊎ (0xDFFF < v) → check_value 3 v ≡ v
unfolding check_value
check_value_three v lo hi s =
    simp (num_bits-leb 11 v (omega arith), num_bits-leb 16 v (omega arith)) (ground arith)

check_value_four : (v : ℕ) → 0x10000 ≤ v → v < 0x200000 → check_value 4 v ≡ v
unfolding check_value
check_value_four v lo hi =
    simp (num_bits-leb 11 v (omega arith), num_bits-leb 16 v (omega arith)) (ground arith)

pub validate_two :
    (v : ℕ) (r : Bytes)
    → v < 0x800
    → validate_utf8_character_and_advance ((0xC0 + v / 64) ∷ tail_byte v ∷ r) ≡ some (v, r)
validate_two v r h =
    lead_two (v / 64) _ (omega arith)
    ∙ continuation_next 0 2 (v / 64) v r (omega arith)
    ∙ continuation_last 2 _ r
    ∙ (let e : v / 64 * 64 + v % 64 ≡ v = omega arith in rw (e, check_value_two v h))

validate_three :
    (v : ℕ) (r : Bytes)
    → 0x800 ≤ v
    → v < 0x10000
    → (v < 0xD800) ⊎ (0xDFFF < v)
    → validate_utf8_character_and_advance ((0xE0 + v / 4096) ∷ tail_byte (v / 64) ∷ tail_byte v ∷ r)
      ≡ some (v, r)
validate_three v r lo hi s =
    lead_three (v / 4096) _ (omega arith)
    ∙ continuation_next 1 3 (v / 4096) (v / 64) _ (omega arith)
    ∙ continuation_next 0 3 _ v r (omega arith)
    ∙ continuation_last 3 _ r
    ∙ (let e : (v / 4096 * 64 + v / 64 % 64) * 64 + v % 64 ≡ v = omega arith in
        rw (e, check_value_three v lo hi s))

pub validate_four :
    (v : ℕ) (r : Bytes)
    → 0x10000 ≤ v
    → v < 0x200000
    → validate_utf8_character_and_advance
        ((0xF0 + v / 262144) ∷ tail_byte (v / 4096) ∷ tail_byte (v / 64) ∷ tail_byte v ∷ r)
      ≡ some (v, r)
validate_four v r lo hi =
    lead_four (v / 262144) _ (omega arith)
    ∙ continuation_next 2 4 (v / 262144) (v / 4096) _ (omega arith)
    ∙ continuation_next 1 4 _ (v / 64) _ (omega arith)
    ∙ continuation_next 0 4 _ v r (omega arith)
    ∙ continuation_last 4 _ r
    ∙ (let e : ((v / 262144 * 64 + v / 4096 % 64) * 64 + v / 64 % 64) * 64 + v % 64 ≡ v =
          omega arith in
        rw (e, check_value_four v lo hi))

validate-utf8 :
    (v : ℕ) (r : Bytes)
    → IsWideScalar v
    → validate_utf8_character_and_advance (utf8 v ++ r) ≡ some (v, r)
validate-utf8 v r h = ground (arith, validate_two v r, validate_three v r, validate_four v r)

-- Every scalar value above ASCII is encoded without a failed assertion or an error, and whatever bytes follow its
-- encoding, the validator returns the value and stops exactly behind the encoding.
pub validate-encode_to_utf8 :
    (v : ℕ) (r : Bytes)
    → IsWideScalar v
    → Returns
        (encode_to_utf8 v [])
        (λ o. (o.0 ≡ false) × (validate_utf8_character_and_advance (o.1 ++ r) ≡ some (v, r)))
validate-encode_to_utf8 v r h = rw (encode_to_utf8-utf8 v h) (refl, validate-utf8 v r h)
