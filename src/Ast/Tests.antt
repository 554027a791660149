-- ===== src/Ast/Tests.antt =====
-- Instances of the theorems on diagnostics.
use b1c3995fdcf53d46308da.Base.{
  ℕ, zero, suc, ◌+◌, ◌≡◌, refl, false, none, some, List, [], ◌∷◌, ◌++◌, Bytes, arith,
}
use b1c3995fdcf53d46308da.Parse.Chars.{is_alpha, is_digit}
use b1c3995fdcf53d46308da.Ast.DiagnosticText.{
  DiagnosticArgument, string_arg, integer_arg, select_option, select_modifier,
  format_diagnostic_text,
}
use b1c3995fdcf53d46308da.Ast.DiagnosticText.Nested.{select_option-nested}
use b1c3995fdcf53d46308da.Ast.DiagnosticText.Options.{
  Formats, empty, char, argument, selection, join_options, IsOption,
}
use b1c3995fdcf53d46308da.Ast.DiagnosticText.Pieces.{format_diagnostic_text-Formats}
use b1c3995fdcf53d46308da.Ast.DiagnosticEngine.{DiagnosticKind, error, warning, Engine}
use b1c3995fdcf53d46308da.Ast.DiagnosticEngine.Reports.{
  Report, report_all, after_reports, report_all-after_reports,
}

-- The text `%select{a|%select{b|c}1}0` from its first brace on.
select_option-nested_example :
    select_option 0 ((b'a' ∷ []) ++ b'{' ∷ ((b'b' ∷ []) ++ b'|' ∷ (b'c' ∷ b'}' ∷ b'1' ∷ []))) ≡ none
select_option-nested_example =
    select_option-nested 0 (b'a' ∷ []) (b'b' ∷ []) (b'c' ∷ b'}' ∷ b'1' ∷ [])
      (omega arith, omega arith, omega arith, tt) (omega arith, omega arith, omega arith, tt)

-- Numbers below ten.
abbrev digit : ℕ → Bytes
digit n = (b'0' + n) ∷ []

abbrev arguments : List DiagnosticArgument
arguments = string_arg (b'x' ∷ b'y' ∷ []) ∷ integer_arg false 1 ∷ []

IsOption-b : IsOption (b'b' ∷ [])
IsOption-b = (omega arith, omega arith, omega arith, omega arith, omega arith, tt)

IsOption-c : IsOption (b'c' ∷ [])
IsOption-c = (omega arith, omega arith, omega arith, omega arith, omega arith, tt)

-- `a%0%select{b|c}1`
abbrev sample_text : Bytes
sample_text =
    b'a'
    ∷ b'%'
    ∷ b'0'
    ∷ b'%'
    ∷ (select_modifier ++ b'{' ∷ join_options ((b'b' ∷ []) ∷ (b'c' ∷ []) ∷ []) (b'}' ∷ b'1' ∷ []))

format_diagnostic_text-Formats_example :
    format_diagnostic_text digit arguments sample_text ≡ some (b'a' ∷ b'x' ∷ b'y' ∷ b'c' ∷ [])
unfolding is_digit
format_diagnostic_text-Formats_example =
    format_diagnostic_text-Formats digit arguments sample_text (b'a' ∷ b'x' ∷ b'y' ∷ b'c' ∷ [])
      formats
  where
    formats : Formats digit arguments sample_text (b'a' ∷ b'x' ∷ b'y' ∷ b'c' ∷ [])
    formats = char b'a' (omega arith) (
        argument 0 (string_arg (b'x' ∷ b'y' ∷ [])) (omega arith) refl refl (
          selection 1 1 (integer_arg false 1) (b'c' ∷ []) ((b'b' ∷ []) ∷ (b'c' ∷ []) ∷ [])
            (omega arith) refl refl (IsOption-b, (IsOption-c, tt)) refl tt empty))

abbrev kind : ℕ → DiagnosticKind
kind zero = error
kind (suc n) = warning

abbrev text : ℕ → Bytes
text n = b'e' ∷ b'%' ∷ b'0' ∷ []

abbrev reports : List Report
reports =
    (record { loc = 4; id = 1; args = arguments; ranges = 8 ∷ 9 ∷ []; moves = 0 ∷ 0 ∷ [] })
    ∷ (record { loc = 6; id = 0; args = string_arg [] ∷ []; ranges = []; moves = [] })
    ∷ []

abbrev engine : Engine
engine = record { had_any_error = false; active_diagnostic = none; handled = [] }

formatted_as : format_diagnostic_text digit arguments (text 1) ≡ some (b'e' ∷ b'x' ∷ b'y' ∷ [])
unfolding format_diagnostic_text is_alpha is_digit
formatted_as = refl

formatted_empty : format_diagnostic_text digit (string_arg [] ∷ []) (text 0) ≡ some (b'e' ∷ [])
unfolding format_diagnostic_text is_alpha is_digit
formatted_empty = refl

report_all-after_reports_example :
    report_all digit kind text reports engine
    ≡ some (
        after_reports digit kind text reports ((b'e' ∷ b'x' ∷ b'y' ∷ []) ∷ (b'e' ∷ []) ∷ []) engine)
report_all-after_reports_example =
    report_all-after_reports digit kind text reports ((b'e' ∷ b'x' ∷ b'y' ∷ []) ∷ (b'e' ∷ []) ∷ [])
      engine refl (formatted_as, (formatted_empty, tt))
