-- ===== src/Ast/DiagnosticText/Pieces.antt =====
-- What a well-formed diagnostic text is formatted to.
use b1c3995fdcf53d46308da.Base.{
  ℕ, zero, suc, ◌+◌, ◌==◌, ◌≤◌, ◌<◌, ◌≡◌, ◌≢◌, refl, sym, ap, ◌∙◌, subst, true, false, Option, none,
  some, List, [], ◌∷◌, ◌++◌, Bytes, length, length-append, get_elem?, arith,
}
use mathlib.Core.List.{append-nil, append_assoc}
use b1c3995fdcf53d46308da.Parse.Chars.{is_alpha}
use b1c3995fdcf53d46308da.Ast.DiagnosticText.{
  DiagnosticArgument, string_arg, integer_arg, unsigned_arg, identifier_arg, type_arg,
  skip_to_delimiter, select_option, select_modifier, find_percent, cons_before, span_letters,
  modifier_arguments, format_argument, format_directive, format_percent, format_found, format_text,
  format_diagnostic_text,
}
use b1c3995fdcf53d46308da.Ast.DiagnosticText.Options.{
  Formats, empty, char, percent, argument, selection, IsOption, AllOptions, join_options, EndsIndex,
  Selects, shown, skip-join_options, select-join_options, span_letters-digit, span_digits-digit,
  get_as_unsigned-digit, modifier_arguments-digit,
}

module _ (decimal : ℕ → Bytes) (args : List DiagnosticArgument) where
  abbrev Go : Type 0
  Go = Bytes → Bytes → Option Bytes

  shown_argument :
      (go : Go) (a : DiagnosticArgument) (out : Bytes)
      → format_argument decimal go [] [] a out ≡ some (out ++ shown decimal a)
  unfolding format_argument
  shown_argument go (string_arg s) out = refl
  shown_argument go (integer_arg negative n) out = refl
  shown_argument go (unsigned_arg n) out = refl
  shown_argument go (identifier_arg s) out = refl
  shown_argument go (type_arg s) out = refl

  selected_argument :
      (go : Go) (a : DiagnosticArgument) (n : ℕ) (options o out : Bytes)
      → Selects a n
      → select_option n options ≡ some o
      → format_argument decimal go select_modifier options a out ≡ go o out
  unfolding format_argument
  selected_argument go (integer_arg false m) n options o out same e = rw same (rw e refl)
  selected_argument go (unsigned_arg m) n options o out same e = rw same (rw e refl)
  selected_argument go (integer_arg true m) n options o out same e = absurd same
  selected_argument go (string_arg s) n options o out same e = absurd same
  selected_argument go (identifier_arg s) n options o out same e = absurd same
  selected_argument go (type_arg s) n options o out same e = absurd same

  directive-argument :
      (go : Go) (i : ℕ) (a : DiagnosticArgument) (r out : Bytes)
      → i < 10
      → get_elem? args i ≡ some a
      → EndsIndex r
      → format_directive decimal go args ((b'0' + i) ∷ r) out ≡ go r (out ++ shown decimal a)
  unfolding format_directive
  directive-argument go i a r out h at ends = rw (span_letters-digit i r h) (
      rw (modifier_arguments-digit i r h) (
        rw (span_digits-digit i r h ends)
          (rw (get_as_unsigned-digit i h) (rw at (rw (shown_argument go a out) refl)))))

  directive-selection :
      (go : Go) (i n : ℕ) (a : DiagnosticArgument) (o : Bytes) (options : List Bytes)
      (r out out' : Bytes)
      → i < 10
      → get_elem? args i ≡ some a
      → Selects a n
      → AllOptions options
      → get_elem? options n ≡ some o
      → EndsIndex r
      → go o out ≡ some out'
      → format_directive decimal go args
          (select_modifier ++ b'{' ∷ join_options options (b'}' ∷ (b'0' + i) ∷ r))
          out
        ≡ go r out'
  unfolding format_directive
  directive-selection go i n a o options r out out' h at same ok chosen ends inner =
      let letters : span_letters
            (select_modifier ++ b'{' ∷ join_options options (b'}' ∷ (b'0' + i) ∷ r))
          ≡ some (select_modifier, b'{' ∷ join_options options (b'}' ∷ (b'0' + i) ∷ r)) =
        modifier_letters (join_options options (b'}' ∷ (b'0' + i) ∷ r)) in
      rw letters (
        rw (braces (join_options options (b'}' ∷ (b'0' + i) ∷ r))) (
          rw (skip-join_options options ((b'0' + i) ∷ r) ok) (
            rw (span_digits-digit i r h ends) (
              rw (get_as_unsigned-digit i h) (
                rw at (
                  rw
                    (selected_argument go a n (join_options options []) o out same
                      (select-join_options n options o ok chosen))
                    (rw inner refl)))))))
    where
      modifier_letters :
          (x : Bytes)
          → span_letters (select_modifier ++ b'{' ∷ x) ≡ some (select_modifier, b'{' ∷ x)
      modifier_letters x = unfold span_letters is_alpha in refl

      braces : (x : Bytes) → modifier_arguments (b'{' ∷ x) ≡ skip_to_delimiter b'}' x
      braces x = unfold modifier_arguments in refl

  found-cons :
      (go : Go) (c : ℕ) (p : Bytes × Option Bytes) (out : Bytes)
      → format_found decimal go args (cons_before c p) out
        ≡ format_found decimal go args p (out ++ c ∷ [])
  found-cons go c (before, none) out = ap some (sym (append_assoc out (c ∷ []) before))
  found-cons go c (before, some rest) out =
      ap (format_percent decimal go args rest) (sym (append_assoc out (c ∷ []) before))

  -- A text with some fuel is split at its first percent sign, the empty one too.
  text-found :
      (fuel : ℕ) (text out : Bytes)
      → format_text decimal (suc fuel) args text out
        ≡ format_found decimal (format_text decimal fuel args) args (find_percent text) out
  unfolding format_text find_percent
  text-found fuel [] out = ap some (sym (append-nil out))
  text-found fuel (c ∷ r) out = refl

  found-char :
      (go : Go) (c : ℕ) (r out : Bytes)
      → c ≢ b'%'
      → format_found decimal go args (find_percent (c ∷ r)) out
        ≡ format_found decimal go args (find_percent r) (out ++ c ∷ [])
  unfolding find_percent
  found-char go c r out ne =
      let e : (c == b'%') ≡ false = ground arith in
      rw (e, find_percent) (found-cons go c (find_percent r) out)

  option-found :
      (go : Go) (o out : Bytes)
      → IsOption o
      → format_found decimal go args (find_percent o) out ≡ some (out ++ o)
  unfolding find_percent
  option-found go [] out ok = refl
  option-found go (c ∷ o) out (a, b, d, e, f, ok) =
      found-char go c o out e
      ∙ option-found go o (out ++ c ∷ []) ok
      ∙ ap some (append_assoc out (c ∷ []) o)

  abbrev FoundAt : Bytes → Bytes → Type 0
  FoundAt text s =
      (fuel : ℕ) (out : Bytes)
      → length text ≤ fuel
      → format_found decimal (format_text decimal fuel args) args (find_percent text) out
        ≡ some (out ++ s)

  found-next :
      (fuel : ℕ) (text s out : Bytes)
      → length text < fuel
      → FoundAt text s
      → format_text decimal fuel args text out ≡ some (out ++ s)
  found-next zero text s out enough ready = absurd (omega arith)
  found-next (suc fuel) text s out enough ready =
      text-found fuel text out ∙ ready fuel out (omega arith)

  option-text :
      (fuel : ℕ) (o out : Bytes)
      → 0 < fuel
      → IsOption o
      → format_text decimal fuel args o out ≡ some (out ++ o)
  option-text zero o out enough ok = absurd (omega arith)
  option-text (suc fuel) o out enough ok = text-found fuel o out ∙ option-found _ o out ok

  -- A percent sign that is not doubled starts a directive.
  found-directive :
      (go : Go) (c : ℕ) (r out : Bytes)
      → c ≢ b'%'
      → format_found decimal go args (find_percent (b'%' ∷ c ∷ r)) out
        ≡ format_directive decimal go args (c ∷ r) out
  unfolding find_percent format_percent
  found-directive go c r out ne =
      let e : (c == b'%') ≡ false = ground arith in
      rw (append-nil out) (rw (e, format_percent) refl)

  found-percent :
      (go : Go) (r out : Bytes)
      → format_found decimal go args (find_percent (b'%' ∷ b'%' ∷ r)) out ≡ go r (out ++ b'%' ∷ [])
  unfolding find_percent format_percent
  found-percent go r out = ap (λ o. go r (o ++ b'%' ∷ [])) (append-nil out)

  Formats-found : (text s : Bytes) → Formats decimal args text s → FoundAt text s
  Formats-found text whole empty fuel out enough = unfold find_percent in refl
  Formats-found text whole (char {r} {s} c ne h) fuel out enough =
      found-char (format_text decimal fuel args) c r out ne
      ∙ Formats-found r s h fuel (out ++ c ∷ []) (omega arith)
      ∙ ap some (append_assoc out (c ∷ []) s)
  Formats-found text whole (percent {r} {s} h) fuel out enough =
      found-percent (format_text decimal fuel args) r out
      ∙ found-next fuel r s (out ++ b'%' ∷ []) (omega arith) (Formats-found r s h)
      ∙ ap some (append_assoc out (b'%' ∷ []) s)
  Formats-found text whole (argument {r} {s} i a digit at ends h) fuel out enough =
      found-directive (format_text decimal fuel args) (b'0' + i) r out (omega arith)
      ∙ directive-argument (format_text decimal fuel args) i a r out digit at ends
      ∙ found-next fuel r s (out ++ shown decimal a) (omega arith) (Formats-found r s h)
      ∙ ap some (append_assoc out (shown decimal a) s)
  Formats-found text whole (selection {r} {s} i n a o options digit at same ok chosen ends h) fuel
        out enough =
      let o_ok : IsOption o = chosen_option n options o ok chosen in
      found-directive (format_text decimal fuel args) b's'
        ((b'e' ∷ b'l' ∷ b'e' ∷ b'c' ∷ b't' ∷ [])
          ++ b'{' ∷ join_options options (b'}' ∷ (b'0' + i) ∷ r))
        out (omega arith)
      ∙ directive-selection (format_text decimal fuel args) i n a o options r out (out ++ o) digit
          at same ok chosen ends (option-text fuel o out (omega arith) o_ok)
      ∙ found-next fuel r s (out ++ o)
          (omega (arith, join-length options ((b'}') ∷ (b'0' + i) ∷ r))) (Formats-found r s h)
      ∙ ap some (append_assoc out o s)
    where
      chosen_option :
          (n : ℕ) (options : List Bytes) (o : Bytes)
          → AllOptions options
          → get_elem? options n ≡ some o
          → IsOption o
      chosen_option n [] o ok e = absurd (cc)
      chosen_option zero (p ∷ options) o ok e = let same : p ≡ o = cc in subst IsOption same ok.0
      chosen_option (suc n) (p ∷ options) o ok e = chosen_option n options o ok.1 e

      join-length : (options : List Bytes) (x : Bytes) → length x ≤ length (join_options options x)
      join-length [] x = omega arith
      join-length (p ∷ []) x = omega (arith, length-append p x)
      join-length (p ∷ q ∷ options) x = omega (
        arith,
        length-append p (b'|' ∷ join_options (q ∷ options) x),
        join-length (q ∷ options) x,
      )

  -- A text of characters, doubled percent signs, arguments and selections among plain options is
  -- formatted: the formatting returns, no assertion fails, and each piece gives what it stands for.
  pub format_diagnostic_text-Formats :
      (text s : Bytes)
      → Formats decimal args text s
      → format_diagnostic_text decimal args text ≡ some s
  unfolding format_diagnostic_text
  format_diagnostic_text-Formats text s h =
      found-next (length text + 1) text s [] (omega arith) (Formats-found text s h)
