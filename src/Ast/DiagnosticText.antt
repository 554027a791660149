-- ===== src/Ast/DiagnosticText.antt =====
-- The formatting of diagnostic texts (lib/AST/DiagnosticEngine.cpp). A `StringRef` is its bytes;
-- an index behind its end is a failed assertion, `none`.
pub mod Options
pub mod Pieces
pub mod Nested
use b1c3995fdcf53d46308da.Base.{
  same_bytes, ℕ, zero, suc, ◌+◌, ◌-◌, ◌*◌, ◌==◌, ltb, ◌&&◌, ◌||◌, not, Bool, true, false,
  if◌then◌else◌, Option, none, some, ◌>>=◌, List, [], ◌∷◌, ◌++◌, Bytes, length, get_elem?,
}
use b1c3995fdcf53d46308da.Parse.Chars.{is_alpha, is_digit}

-- `DiagnosticArgument`: an `int` is its sign and its magnitude, a type the string of it.
pub data DiagnosticArgument : Type 0 where
  string_arg : Bytes → DiagnosticArgument
  integer_arg : Bool → ℕ → DiagnosticArgument
  unsigned_arg : ℕ → DiagnosticArgument
  identifier_arg : Bytes → DiagnosticArgument
  type_arg : Bytes → DiagnosticArgument

-- A byte in front of the part that is cut off.
abbrev pub cons_first : ℕ → Option (Bytes × Bytes) → Option (Bytes × Bytes)
cons_first c none = none
cons_first c (some (result, text)) = some (c ∷ result, text)

-- What the loop of `skipToDelimiter` does at a byte.
pub data Skip : Type 0 where
  deeper shallower found onward : Skip

abbrev pub skip_at : ℕ → ℕ → ℕ → ℕ → Skip
skip_at delim1 delim2 depth c =
    if depth == 0 && c == b'{'
    then deeper
    else if ltb 0 depth && c == b'}'
    then shallower
    else if c == delim1 || c == delim2
    then found
    else onward

abbrev pub skip_step : (ℕ → Option (Bytes × Bytes)) → Skip → ℕ → ℕ → Bytes → Option (Bytes × Bytes)
skip_step go deeper depth c r = cons_first c (go (depth + 1))
skip_step go shallower depth c r = cons_first c (go (depth - 1))
skip_step go found depth c r = if depth == 0 then some ([], r) else none
skip_step go onward depth c r = cons_first c (go depth)

-- The loop of `skipToDelimiter`, from some depth of braces: the text in front of the delimiter and
-- the text behind it.
unfoldable pub skip_from : ℕ → ℕ → ℕ → Bytes → Option (Bytes × Bytes)
skip_from delim1 delim2 depth [] = if depth == 0 then some ([], []) else none
skip_from delim1 delim2 depth (c ∷ r) =
    skip_step (λ depth. skip_from delim1 delim2 depth r) (skip_at delim1 delim2 depth c) depth c r

-- `skipToDelimiter(Text, Delim)`; the second delimiter is 0 by default.
unfoldable pub skip_to_delimiter : ℕ → Bytes → Option (Bytes × Bytes)
unfolding skip_from
skip_to_delimiter delim text = skip_from delim 0 0 text

-- The loop of `formatSelectionArgument`: the text that is selected.
unfoldable pub select_option : ℕ → Bytes → Option Bytes
unfolding skip_to_delimiter
select_option zero text = skip_to_delimiter b'|' text >>= λ t. some t.0
select_option (suc n) text = skip_to_delimiter b'|' text >>= λ t. select_option n t.1

-- "select"
abbrev pub select_modifier : Bytes
select_modifier = b's' ∷ b'e' ∷ b'l' ∷ b'e' ∷ b'c' ∷ b't' ∷ []

-- `InText.find('%')`: the text in front of the first percent sign and, if there is one, the text
-- behind it.
abbrev pub cons_before : ℕ → Bytes × Option Bytes → Bytes × Option Bytes
cons_before c (before, rest) = (c ∷ before, rest)

unfoldable pub find_percent : Bytes → Bytes × Option Bytes
find_percent [] = ([], none)
find_percent (c ∷ r) = elim (c == b'%') [
  | true ↦ ([], some r)
  | false ↦ cons_before c (find_percent r)
]

-- The letters of a modifier; the text must go on behind them.
unfoldable pub span_letters : Bytes → Option (Bytes × Bytes)
span_letters [] = none
span_letters (c ∷ r) = elim (is_alpha c) [
  | true ↦ cons_first c (span_letters r)
  | false ↦ some ([], c ∷ r)
]

-- The digits of an index.
abbrev pub cons_both : ℕ → Bytes × Bytes → Bytes × Bytes
cons_both c (a, b) = (c ∷ a, b)

unfoldable pub span_digits : Bytes → Bytes × Bytes
span_digits [] = ([], [])
span_digits (c ∷ r) = elim (is_digit c) [ true ↦ cons_both c (span_digits r) | false ↦ ([], c ∷ r) ]

-- `getAsInteger(10, ArgIndex)` on digits: nothing for no digits and for 2^32 and above.
unfoldable pub decimal_value : ℕ → Bytes → ℕ
decimal_value n [] = n
decimal_value n (c ∷ r) = decimal_value (n * 10 + (c - b'0')) r

unfoldable pub get_as_unsigned : Bytes → Option ℕ
unfolding decimal_value
get_as_unsigned [] = none
get_as_unsigned (c ∷ r) =
    if ltb (decimal_value 0 (c ∷ r)) 4294967296 then some (decimal_value 0 (c ∷ r)) else none

-- The optional, brace-enclosed argument list of a modifier.
unfoldable pub modifier_arguments : Bytes → Option (Bytes × Bytes)
unfolding skip_to_delimiter
modifier_arguments [] = none
modifier_arguments (c ∷ r) = if c == b'{' then skip_to_delimiter b'}' r else some ([], c ∷ r)

-- `decimal` stands for how the stream prints a number.
module _ (decimal : ℕ → Bytes) where
  abbrev pub signed_decimal : Bool → ℕ → Bytes
  signed_decimal true n = b'-' ∷ decimal n
  signed_decimal false n = decimal n

  abbrev pub quoted : Bytes → Bytes
  quoted s = b'\'' ∷ (s ++ b'\'' ∷ [])

  abbrev pub if_no_modifier : Bytes → Bytes → Option Bytes
  if_no_modifier [] out = some out
  if_no_modifier (c ∷ r) out = none

  -- `formatDiagnosticArgument`; `go` formats a text behind the output so far.
  unfoldable pub format_argument :
      (Bytes → Bytes → Option Bytes) → Bytes → Bytes → DiagnosticArgument → Bytes → Option Bytes
  unfolding select_option
  format_argument go modifier arguments (integer_arg negative n) out =
      if same_bytes modifier select_modifier
      then (if negative then none else (select_option n arguments >>= λ text. go text out))
      else if_no_modifier modifier (out ++ signed_decimal negative n)
  format_argument go modifier arguments (unsigned_arg n) out =
      if same_bytes modifier select_modifier
      then (select_option n arguments >>= λ text. go text out)
      else if_no_modifier modifier (out ++ decimal n)
  format_argument go modifier arguments (string_arg s) out = if_no_modifier modifier (out ++ s)
  format_argument go modifier arguments (identifier_arg s) out =
      if_no_modifier modifier (out ++ quoted s)
  format_argument go modifier arguments (type_arg s) out = if_no_modifier modifier (out ++ quoted s)

  -- What stands behind a percent sign that is not doubled.
  unfoldable pub format_directive :
      (Bytes → Bytes → Option Bytes) → List DiagnosticArgument → Bytes → Bytes → Option Bytes
  unfolding span_letters modifier_arguments span_digits get_as_unsigned format_argument
  format_directive go args text out = do
    (modifier, text1) ← span_letters text
    (arguments, text2) ← modifier_arguments text1
    let digits = span_digits text2
    index ← get_as_unsigned digits.0
    arg ← get_elem? args index
    out' ← format_argument go modifier arguments arg out
    go digits.1 out'

  -- The text behind a percent sign.
  unfoldable pub format_percent :
      (Bytes → Bytes → Option Bytes) → List DiagnosticArgument → Bytes → Bytes → Option Bytes
  unfolding format_directive
  format_percent go args [] out = none
  format_percent go args (c ∷ r) out = elim (c == b'%') [
    | true ↦ go r (out ++ b'%' ∷ [])
    | false ↦ format_directive go args (c ∷ r) out
  ]

  abbrev pub format_found :
      (Bytes → Bytes → Option Bytes)
      → List DiagnosticArgument
      → Bytes × Option Bytes
      → Bytes
      → Option Bytes
  format_found go args (before, none) out = some (out ++ before)
  format_found go args (before, some rest) out = format_percent go args rest (out ++ before)

  -- `formatDiagnosticText`: its loop, and its calls of itself for a selected text. Each takes a
  -- percent sign of the text at least.
  unfoldable pub format_text : ℕ → List DiagnosticArgument → Bytes → Bytes → Option Bytes
  unfolding find_percent format_percent
  format_text zero args text out = none
  format_text (suc fuel) args [] out = some out
  format_text (suc fuel) args (c ∷ r) out =
      format_found (format_text fuel args) args (find_percent (c ∷ r)) out

  unfoldable pub format_diagnostic_text : List DiagnosticArgument → Bytes → Option Bytes
  unfolding format_text
  format_diagnostic_text args text = format_text (length text + 1) args text []
