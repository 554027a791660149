-- ===== src/Parse/Utf8/Decode.antt =====
-- What validateUTF8CharacterAndAdvance accepts.
use b1c3995fdcf53d46308da.Base.{ℕ, ◌+◌, ◌/◌, ◌<◌, ◌≡◌, ◌≢◌, some, ◌∷◌, Bytes, arith}
use b1c3995fdcf53d46308da.Parse.Utf8.{validate_utf8_character_and_advance, invalid}
use b1c3995fdcf53d46308da.Parse.Utf8.RoundTrip.{validate_two, validate_four, tail_byte}

-- A leading byte of 0xC0 or 0xC1 gives an overlong encoding of an ASCII value, and the validator
-- returns that value instead of the error: it checks only that a value of at most eleven bits
-- takes two bytes.
pub validate_overlong :
    (v : ℕ) (r : Bytes)
    → v < 0x80
    → (validate_utf8_character_and_advance ((0xC0 + v / 64) ∷ tail_byte v ∷ r) ≡ some (v, r))
      × (v ≢ invalid)
      × (0xC0 + v / 64 < 0xC2)
validate_overlong v r h = (validate_two v r (omega arith), omega arith, omega arith)

-- Values above 0x10FFFF, among them all that leading bytes 0xF5 to 0xF7 begin, are no code
-- points, and the validator returns them instead of the error.
pub validate_above_range :
    (v : ℕ) (r : Bytes)
    → 0x10FFFF < v
    → v < 0x200000
    → (validate_utf8_character_and_advance
          ((0xF0 + v / 262144) ∷ tail_byte (v / 4096) ∷ tail_byte (v / 64) ∷ tail_byte v ∷ r)
        ≡ some (v, r))
      × (v ≢ invalid)
validate_above_range v r lo hi = (validate_four v r (omega arith) hi, omega arith)
