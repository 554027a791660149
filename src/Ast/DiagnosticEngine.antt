-- ===== src/Ast/DiagnosticEngine.antt =====
-- The diagnostic engine and its in-flight diagnostics (include/swift/AST/DiagnosticEngine.h,
-- lib/AST/DiagnosticEngine.cpp). The table of the diagnostics is built from a list that is not
-- modelled: `kind_of` and `text_of` stand for it. Locations and ranges are numbers.
pub mod Reports
use b1c3995fdcf53d46308da.Base.{
  ℕ, Bool, true, false, not, ◌||◌, if◌then◌else◌, Option, none, some, ◌>>=◌, List, [], ◌∷◌, ◌++◌,
  Bytes,
}
use b1c3995fdcf53d46308da.Ast.DiagnosticText.{DiagnosticArgument, format_diagnostic_text}

pub data DiagnosticKind : Type 0 where
  error warning note : DiagnosticKind

abbrev pub is_error : DiagnosticKind → Bool
is_error error = true
is_error warning = false
is_error note = false

-- A `Diagnostic` and the engine's `ActiveDiagnosticLoc`.
pub record ActiveDiagnostic : Type 0 where
  pub loc : ℕ
  pub id : ℕ
  pub args : List DiagnosticArgument
  pub ranges : List ℕ

-- What the consumer is called with.
pub record Handled : Type 0 where
  pub loc : ℕ
  pub kind : DiagnosticKind
  pub text : Bytes
  pub ranges : List ℕ

-- `DiagnosticEngine`, with the calls of its consumer.
pub record Engine : Type 0 where
  pub had_any_error : Bool
  pub active_diagnostic : Option ActiveDiagnostic
  pub handled : List Handled

-- `InFlightDiagnostic`: whether it has an engine, and whether it is active.
pub record InFlight : Type 0 where
  pub attached : Bool
  pub is_active : Bool

-- `DiagnosticEngine::diagnose`
unfoldable pub diagnose : ℕ → ℕ → List DiagnosticArgument → Engine → Option (InFlight × Engine)
diagnose loc id args e = elim e.active_diagnostic [
  | some active ↦ none
  | none ↦ some (
    record { attached = true; is_active = true },
    record e { active_diagnostic = some (record { loc = loc; id = id; args = args; ranges = [] }) },
  )
]

-- `InFlightDiagnostic::operator<<`
unfoldable pub add_range : ℕ → InFlight × Engine → Option (InFlight × Engine)
add_range range (d, e) =
    if not d.is_active
    then none
    else if not d.attached
    then some (d, e)
    else (e.active_diagnostic >>= λ active. some (
      d,
      record e {
        active_diagnostic = some (record active { ranges = active.ranges ++ range ∷ [] });
      },
    ))

-- The move constructor: the new diagnostic, and the one that it takes over.
unfoldable pub move : InFlight → InFlight × InFlight
move other = (other, record other { is_active = false })

module _ (decimal : ℕ → Bytes) (kind_of : ℕ → DiagnosticKind) (text_of : ℕ → Bytes) where
  -- `flushActiveDiagnostic`
  unfoldable pub flush_active_diagnostic : Engine → Option Engine
  flush_active_diagnostic e = do
    active ← e.active_diagnostic
    text ← format_diagnostic_text decimal active.args (text_of active.id)
    some (record {
      had_any_error = e.had_any_error || is_error (kind_of active.id);
      active_diagnostic = none;
      handled =
          e.handled
          ++ (record {
            loc = active.loc;
            kind = kind_of active.id;
            text = text;
            ranges = active.ranges;
          })
            ∷ [];
    })

  -- `InFlightDiagnostic::flush`
  unfoldable pub flush : InFlight × Engine → Option (InFlight × Engine)
  unfolding flush_active_diagnostic
  flush (d, e) =
      if not d.is_active
      then some (d, e)
      else if d.attached
      then (flush_active_diagnostic e >>= λ e'. some (record d { is_active = false }, e'))
      else some (record d { is_active = false }, e)

  -- The destructor of `InFlightDiagnostic`.
  unfoldable pub destroy : InFlight × Engine → Option Engine
  unfolding flush
  destroy (d, e) = if d.is_active then (flush (d, e) >>= λ t. some t.1) else some e
