-- ===== src/Sema/Functions.antt =====
-- The matching of function types (matchFunctionTypes of lib/Sema/TypeCheckConstraints.cpp). `T`
-- stands for the types, `S` for the state of the constraint system and the flag `trivial`, and
-- `match_types` for the recursive call of matchTypes with the sub-flags.
use b1c3995fdcf53d46308da.Base.{Bool, true, false}
use b1c3995fdcf53d46308da.Sema.Tuples.{
  MatchKind, bind_type, same_type, same_type_rvalue, trivial_subtype, subtype, conversion,
  construction, SolutionKind, trivially_solved, solved, unsolved, failed,
}

-- `FunctionType`
pub record Function (T : Type 0) : Type 0 where
  pub input : T
  pub result : T
  pub is_auto_closure : Bool

-- `kind < TypeMatchKind::TrivialSubtype`
abbrev pub below_trivial_subtype : MatchKind → Bool
below_trivial_subtype bind_type = true
below_trivial_subtype same_type = true
below_trivial_subtype same_type_rvalue = true
below_trivial_subtype _ = false

-- The kind for the input and the result.
abbrev pub sub_kind : MatchKind → MatchKind
sub_kind bind_type = bind_type
sub_kind same_type = same_type
sub_kind same_type_rvalue = same_type_rvalue
sub_kind trivial_subtype = trivial_subtype
sub_kind subtype = trivial_subtype
sub_kind conversion = subtype
sub_kind construction = conversion

-- The test of the `auto_closure` attributes: an error or not.
abbrev pub auto_closure_error : MatchKind → Bool → Bool → Bool
auto_closure_error kind true true = false
auto_closure_error kind false false = false
auto_closure_error kind false true = true
auto_closure_error kind true false = below_trivial_subtype kind

-- What follows the matching of the inputs.
abbrev pub after_inputs :
    {S : Type 0} → SolutionKind × S → (SolutionKind → S → SolutionKind × S) → SolutionKind × S
after_inputs (failed, s) go = (failed, s)
after_inputs (trivially_solved, s) go = go trivially_solved s
after_inputs (solved, s) go = go solved s
after_inputs (unsolved, s) go = go unsolved s

-- The result, with that of the matching of the results.
abbrev pub with_results : {S : Type 0} → SolutionKind → SolutionKind × S → SolutionKind × S
with_results result (failed, s) = (failed, s)
with_results result (trivially_solved, s) = (result, s)
with_results result (solved, s) = (solved, s)
with_results result (unsolved, s) = (unsolved, s)

module _ {T S : Type 0} (match_types : T → T → MatchKind → S → SolutionKind × S) where
  -- The part behind the test of the attributes: the inputs, the other way round, then the results.
  abbrev pub match_parts : Function T → Function T → MatchKind → S → SolutionKind × S
  match_parts func1 func2 kind s =
      after_inputs (match_types func2.input func1.input kind s)
        (λ r s'. with_results r (match_types func1.result func2.result kind s'))

  -- `matchFunctionTypes`
  unfoldable pub match_function_types : Function T → Function T → MatchKind → S → SolutionKind × S
  match_function_types func1 func2 kind s =
      elim (auto_closure_error kind func1.is_auto_closure func2.is_auto_closure) [
        | true ↦ (failed, s)
        | false ↦ match_parts func1 func2 (sub_kind kind) s
      ]
