-- ===== src/Ast/DiagnosticEngine/Reports.antt =====
-- What a report through an in-flight diagnostic comes to.
use b1c3995fdcf53d46308da.Base.{
  ℕ, ◌≡◌, refl, sym, ap, ◌∙◌, Bool, true, false, ◌||◌, Option, none, some, ◌>>=◌, List, [], ◌∷◌,
  ◌++◌, Bytes,
}
use mathlib.Core.List.{append_assoc, append-nil}
use b1c3995fdcf53d46308da.Ast.DiagnosticText.{DiagnosticArgument, format_diagnostic_text}
use b1c3995fdcf53d46308da.Ast.DiagnosticEngine.{
  DiagnosticKind, error, warning, note, is_error, ActiveDiagnostic, Handled, Engine, InFlight,
  diagnose, add_range, move, flush_active_diagnostic, flush, destroy,
}

-- A report as a client writes it: the diagnostic, the ranges that are streamed into it, and
-- how often it is moved on before it is destroyed.
pub record Report : Type 0 where
  pub loc : ℕ
  pub id : ℕ
  pub args : List DiagnosticArgument
  pub ranges : List ℕ
  pub moves : List ℕ

abbrev pub add_ranges : List ℕ → InFlight × Engine → Option (InFlight × Engine)
add_ranges [] t = some t
add_ranges (r ∷ ranges) t = add_range r t >>= add_ranges ranges

module _ (decimal : ℕ → Bytes) (kind_of : ℕ → DiagnosticKind) (text_of : ℕ → Bytes) where
  -- Each move destroys the object that it leaves behind.
  abbrev pub move_on : List ℕ → InFlight × Engine → Option (InFlight × Engine)
  move_on [] t = some t
  move_on (n ∷ moves) (d, e) =
      destroy decimal kind_of text_of ((move d).1, e) >>= λ e'. move_on moves ((move d).0, e')

  abbrev pub report : Report → Engine → Option Engine
  report r e = do
    t ← diagnose r.loc r.id r.args e
    t' ← add_ranges r.ranges t
    t'' ← move_on r.moves t'
    destroy decimal kind_of text_of t''

  abbrev pub report_all : List Report → Engine → Option Engine
  report_all [] e = some e
  report_all (r ∷ reports) e = report r e >>= report_all reports

  -- What the consumer is to be called with.
  abbrev pub handled_as : Report → Bytes → Handled
  handled_as r text = record { loc = r.loc; kind = kind_of r.id; text = text; ranges = r.ranges }

  -- The texts of the reports are formatted to these.
  abbrev pub AllFormatted : List Report → List Bytes → Type 0
  AllFormatted [] [] = Unit {0}
  AllFormatted [] (t ∷ texts) = ⊥
  AllFormatted (r ∷ reports) [] = ⊥
  AllFormatted (r ∷ reports) (t ∷ texts) =
      (format_diagnostic_text decimal r.args (text_of r.id) ≡ some t) × AllFormatted reports texts

  abbrev pub all_handled : List Report → List Bytes → List Handled
  all_handled [] texts = []
  all_handled (r ∷ reports) [] = []
  all_handled (r ∷ reports) (t ∷ texts) = handled_as r t ∷ all_handled reports texts

  -- Whether one of the reports is of a diagnostic that is declared as an error, not as a warning
  -- or as a note.
  abbrev pub declares_error : DiagnosticKind → Bool
  declares_error kind = elim kind [ error ↦ true | warning ↦ false | note ↦ false ]

  abbrev pub any_error : List Report → Bool
  any_error [] = false
  any_error (r ∷ reports) = declares_error (kind_of r.id) || any_error reports

  is_error-declares_error : (kind : DiagnosticKind) → is_error kind ≡ declares_error kind
  is_error-declares_error error = refl
  is_error-declares_error warning = refl
  is_error-declares_error note = refl

  abbrev with_active : ActiveDiagnostic → Engine → Engine
  with_active a e = record e { active_diagnostic = some a }

  abbrev in_flight : InFlight
  in_flight = record { attached = true; is_active = true }

  add_ranges-active :
      (ranges : List ℕ) (a : ActiveDiagnostic) (e : Engine)
      → add_ranges ranges (in_flight, with_active a e)
        ≡ some (in_flight, with_active (record a { ranges = a.ranges ++ ranges }) e)
  unfolding add_range
  add_ranges-active [] a e =
      ap (λ l. some (in_flight, with_active (record a { ranges = l }) e))
        (sym (append-nil a.ranges))
  add_ranges-active (r ∷ ranges) a e =
      add_ranges-active ranges (record a { ranges = a.ranges ++ r ∷ [] }) e
      ∙ ap (λ l. some (in_flight, with_active (record a { ranges = l }) e))
          (append_assoc a.ranges (r ∷ []) ranges)

  move_on-same : (moves : List ℕ) (e : Engine) → move_on moves (in_flight, e) ≡ some (in_flight, e)
  unfolding move destroy
  move_on-same [] e = refl
  move_on-same (n ∷ moves) e = move_on-same moves e

  report-handled :
      (r : Report) (text : Bytes) (e : Engine)
      → e.active_diagnostic ≡ none
      → format_diagnostic_text decimal r.args (text_of r.id) ≡ some text
      → report r e
        ≡ some (record {
          had_any_error = e.had_any_error || is_error (kind_of r.id);
          active_diagnostic = none;
          handled = e.handled ++ handled_as r text ∷ [];
        })
  unfolding diagnose destroy flush flush_active_diagnostic
  report-handled r text e idle formatted =
      rw (idle, diagnose) rw
        (add_ranges-active r.ranges (record { loc = r.loc; id = r.id; args = r.args; ranges = [] })
          e)
        rw
        (move_on-same r.moves
          (with_active (record { loc = r.loc; id = r.id; args = r.args; ranges = r.ranges }) e))
        rw formatted refl

  abbrev pub after_reports : List Report → List Bytes → Engine → Engine
  after_reports reports texts e = record {
    had_any_error = e.had_any_error || any_error reports;
    active_diagnostic = none;
    handled = e.handled ++ all_handled reports texts;
  }

  abbrev idle_engine : Bool → List Handled → Engine
  idle_engine b handled = record { had_any_error = b; active_diagnostic = none; handled = handled }

  same_engine :
      {b b' : Bool} {handled handled' : List Handled}
      → b ≡ b'
      → handled ≡ handled'
      → idle_engine b handled ≡ idle_engine b' handled'
  same_engine p q = cc

  or_false : (a : Bool) → a ≡ (a || false)
  or_false true = refl
  or_false false = refl

  or_assoc : (a b c : Bool) → ((a || (b || false)) || c) ≡ (a || (b || c))
  or_assoc true b c = refl
  or_assoc false true c = refl
  or_assoc false false c = refl

  no_reports : (e : Engine) → e.active_diagnostic ≡ none → e ≡ after_reports [] [] e
  no_reports e idle =
      ap (λ a. record e { active_diagnostic = a }) idle
      ∙ same_engine (or_false e.had_any_error) (sym (append-nil e.handled))

  after_reports-∷ :
      (r : Report) (reports : List Report) (text : Bytes) (texts : List Bytes) (e : Engine)
      → after_reports reports texts (after_reports (r ∷ []) (text ∷ []) e)
        ≡ after_reports (r ∷ reports) (text ∷ texts) e
  after_reports-∷ r reports text texts e =
      same_engine (or_assoc e.had_any_error (declares_error (kind_of r.id)) (any_error reports))
        (append_assoc e.handled (handled_as r text ∷ []) (all_handled reports texts))

  report-after_reports :
      (r : Report) (text : Bytes) (e : Engine)
      → e.active_diagnostic ≡ none
      → format_diagnostic_text decimal r.args (text_of r.id) ≡ some text
      → report r e ≡ some (after_reports (r ∷ []) (text ∷ []) e)
  report-after_reports r text e idle formatted =
      report-handled r text e idle formatted
      ∙ ap some (
          same_engine
            (ap (λ b. e.had_any_error || b)
              (is_error-declares_error (kind_of r.id) ∙ or_false (declares_error (kind_of r.id))))
            refl)

  -- Reports are made one after the other through diagnostics that are streamed ranges into, moved
  -- and destroyed. From an engine without an active diagnostic, when each text can be formatted,
  -- the consumer is called once for each report, in their order, with its location, its kind, its
  -- formatted text and all its ranges, the engine has had an error if it had one or one of the
  -- reports is an error, and no diagnostic is active.
  pub report_all-after_reports :
      (reports : List Report) (texts : List Bytes) (e : Engine)
      → e.active_diagnostic ≡ none
      → AllFormatted reports texts
      → report_all reports e ≡ some (after_reports reports texts e)
  report_all-after_reports [] [] e idle formatted = ap some (no_reports e idle)
  report_all-after_reports [] (t ∷ texts) e idle formatted = elim formatted [ ]
  report_all-after_reports (r ∷ reports) [] e idle formatted = elim formatted [ ]
  report_all-after_reports (r ∷ reports) (t ∷ texts) e idle (formatted, rest) =
      ap (λ o. o >>= report_all reports) (report-after_reports r t e idle formatted)
      ∙ (report_all-after_reports reports texts (after_reports (r ∷ []) (t ∷ []) e) refl rest
          ∙ ap some (after_reports-∷ r reports t texts e))
