-- ===== src/Sema/Tuples.antt =====
-- The matching of tuple types (matchTupleTypes of lib/Sema/TypeCheckConstraints.cpp). `T` stands for
-- the types, `S` for the state of the constraint system and the flag `trivial`, and `match_types`
-- for the recursive call of matchTypes with the sub-flags. A name is a number, 0 the empty one.
pub mod Shuffle
pub mod Matching
pub mod Positional
use b1c3995fdcf53d46308da.Base.{
  ℕ, zero, suc, ◌+◌, ◌==◌, ◌&&◌, ◌||◌, not, Bool, true, false, if◌then◌else◌, Option, none, some,
  ◌>>=◌, List, [], ◌∷◌, map, length, get_elem?,
}

-- `TypeMatchKind`
pub data MatchKind : Type 0 where
  bind_type same_type same_type_rvalue trivial_subtype subtype conversion construction : MatchKind

-- `kind < TypeMatchKind::Conversion`
abbrev pub below_conversion : MatchKind → Bool
below_conversion conversion = false
below_conversion construction = false
below_conversion _ = true

abbrev pub is_same_type : MatchKind → Bool
is_same_type same_type = true
is_same_type _ = false

-- `SolutionKind`
pub data SolutionKind : Type 0 where
  trivially_solved solved unsolved failed : SolutionKind

-- `TupleTypeElt`
pub record Field (T : Type 0) : Type 0 where
  pub name : ℕ
  pub type : T
  pub vararg_base_ty : Option T
  pub has_init : Bool

-- What `elementSources` holds for an element.
pub data Source : Type 0 where
  unassigned default_value variadic : Source
  input : ℕ → Source

-- `consumed[k] = true`
abbrev pub consume : (ℕ → Bool) → ℕ → ℕ → Bool
consume consumed k n = n == k || consumed n

-- The sources, the consumed inputs and the variadic arguments.
pub record Sources (T : Type 0) : Type 0 where
  pub elements : List (Field T × Source)
  pub consumed : ℕ → Bool
  pub variadic_arguments : List ℕ

abbrev pub is_vararg : {T : Type 0} → Option T → Bool
is_vararg none = false
is_vararg (some base) = true

-- The source of an element, by the named input that was found for it.
abbrev pub source_of : Option ℕ → Source
source_of none = unassigned
source_of (some k) = input k

abbrev pub consume_found : Option ℕ → (ℕ → Bool) → ℕ → Bool
consume_found none consumed = consumed
consume_found (some k) consumed = consume consumed k

abbrev pub push_argument : ℕ → List ℕ × (ℕ → Bool) → List ℕ × (ℕ → Bool)
push_argument n (arguments, consumed) = (n ∷ arguments, consumed)

-- The loop over the rest of the elements, at the next input: the position, with the fields from
-- there on.
abbrev pub Resolve : Type 0 → Type 0
Resolve T = ℕ × List (Field T) → (ℕ → Bool) → Option (Sources T)

-- No input is left unused.
unfoldable pub all_consumed : (ℕ → Bool) → ℕ → Bool
all_consumed consumed zero = true
all_consumed consumed (suc n) = consumed n && all_consumed consumed n

abbrev pub this_or_later : Bool → ℕ → Option ℕ → Option ℕ
this_or_later true n later = some n
this_or_later false n later = later

module _ {T : Type 0} where
  -- `getNamedElementId`, from the position `n` on.
  unfoldable pub named_element_id : ℕ → ℕ → List (Field T) → Option ℕ
  named_element_id name n [] = none
  named_element_id name n (f ∷ fields) =
      this_or_later (f.name == name) n (named_element_id name (n + 1) fields)

  -- The named input for an element.
  abbrev pub find_named : List (Field T) → Field T → Option ℕ
  find_named fields1 e = if e.name == 0 then none else named_element_id e.name 0 fields1

  -- The loop that matches up the named elements.
  unfoldable pub match_named :
      List (Field T) → List (Field T) → (ℕ → Bool) → List (Field T × Source) × (ℕ → Bool)
  unfolding named_element_id
  match_named fields1 [] consumed = ([], consumed)
  match_named fields1 (e ∷ fields2) consumed =
      let found = find_named fields1 e in
      let rest = match_named fields1 fields2 (consume_found found consumed) in
      ((e, source_of found) ∷ rest.0, rest.1)

  -- `skipToNextUnnamedInput`, from the position `n` with the fields from there on.
  unfoldable pub skip_to_next_unnamed : (ℕ → Bool) → ℕ → List (Field T) → ℕ × List (Field T)
  skip_to_next_unnamed consumed n [] = (n, [])
  skip_to_next_unnamed consumed n (f ∷ fields) = elim (consumed n || not (f.name == 0)) [
    | true ↦ skip_to_next_unnamed consumed (n + 1) fields
    | false ↦ (n, f ∷ fields)
  ]

  -- The loop that collects the remaining unnamed inputs, with what it skips.
  unfoldable pub collect : (ℕ → Bool) → ℕ → List (Field T) → List ℕ × (ℕ → Bool)
  collect consumed n [] = ([], consumed)
  collect consumed n (f ∷ fields) = elim (consumed n || not (f.name == 0)) [
    | true ↦ collect consumed (n + 1) fields
    | false ↦ push_argument n (collect (consume consumed n) (n + 1) fields)
  ]

  abbrev pub cons_source : Field T → Source → Option (Sources T) → Option (Sources T)
  cons_source e source none = none
  cons_source e source (some r) = some (record r { elements = (e, source) ∷ r.elements })

  -- A variadic element takes the rest, and the loop ends.
  abbrev pub variadic_sources :
      Field T → List (Field T × Source) → List ℕ × (ℕ → Bool) → Option (Sources T)
  variadic_sources e elements (arguments, consumed) = some (record {
    elements = (e, variadic) ∷ elements;
    consumed = consumed;
    variadic_arguments = arguments;
  })

  abbrev pub default_or_error : Bool → Option (Sources T) → Option (Sources T)
  default_or_error true r = r
  default_or_error false r = none

  -- An element without a source that is not variadic.
  abbrev pub resolve_plain : Resolve T → Field T → Resolve T
  resolve_plain go e (n, []) consumed =
      default_or_error e.has_init (cons_source e default_value (go (n, []) consumed))
  resolve_plain go e (n, f ∷ fields) consumed =
      cons_source e (input n)
        (go (skip_to_next_unnamed (consume consumed n) n (f ∷ fields)) (consume consumed n))

  abbrev pub resolve_vararg : Resolve T → Field T → List (Field T × Source) → Option T → Resolve T
  resolve_vararg go e elements (some base) (n, fields) consumed =
      variadic_sources e elements (collect consumed n fields)
  resolve_vararg go e elements none next consumed = resolve_plain go e next consumed

  abbrev pub resolve_step : Resolve T → Field T → List (Field T × Source) → Source → Resolve T
  resolve_step go e elements unassigned next consumed =
      resolve_vararg go e elements e.vararg_base_ty next consumed
  resolve_step go e elements source next consumed = cons_source e source (go next consumed)

  -- The loop that resolves the unmatched elements; nothing for an error.
  unfoldable pub resolve : List (Field T × Source) → Resolve T
  unfolding skip_to_next_unnamed collect
  resolve [] next consumed =
      some (record { elements = []; consumed = consumed; variadic_arguments = [] })
  resolve ((e, source) ∷ elements) next consumed =
      resolve_step (resolve elements) e elements source next consumed

  abbrev pub check_consumed : ℕ → Option (Sources T) → Option (Sources T)
  check_consumed n none = none
  check_consumed n (some r) = if all_consumed r.consumed n then some r else none

  -- The shuffle of a conversion; nothing for an error.
  unfoldable pub element_sources : List (Field T) → List (Field T) → Option (Sources T)
  unfolding match_named skip_to_next_unnamed resolve all_consumed
  element_sources fields1 fields2 =
      let named = match_named fields1 fields2 (λ n. false) in
      check_consumed (length fields1)
        (resolve named.0 (skip_to_next_unnamed named.1 0 fields1) named.1)

-- What follows the result of a comparison: an error at once, or `go` with the result so far.
abbrev pub after_match :
    {S : Type 0}
    → SolutionKind
    → SolutionKind × S
    → (SolutionKind → S → Option (SolutionKind × S))
    → Option (SolutionKind × S)
after_match result (failed, s) go = some (failed, s)
after_match result (trivially_solved, s) go = go result s
after_match result (solved, s) go = go solved s
after_match result (unsolved, s) go = go unsolved s

module _ {T S : Type 0} (match_types : T → T → MatchKind → S → SolutionKind × S) where
  -- The test for names that may conflict.
  unfoldable pub name_conflict : MatchKind → List (Field T) → Field T → Field T → Bool
  unfolding named_element_id
  name_conflict kind fields1 e1 e2 =
      not (e1.name == e2.name)
      && (is_same_type kind
          || (not (e2.name == 0)
              && (elim (named_element_id e2.name 0 fields1) [ none ↦ false | some k ↦ true ])))

  abbrev pub vararg_conflict : Field T → Field T → Bool
  vararg_conflict e1 e2 =
      let v1 = is_vararg e1.vararg_base_ty in
      let v2 = is_vararg e2.vararg_base_ty in (v1 && not v2) || (not v1 && v2)

  abbrev pub match_equal_step :
      (SolutionKind → S → Option (SolutionKind × S))
      → MatchKind
      → List (Field T)
      → Field T
      → Field T
      → SolutionKind
      → S
      → Option (SolutionKind × S)
  match_equal_step go kind fields1 e1 e2 result s =
      elim (name_conflict kind fields1 e1 e2 || vararg_conflict e1 e2) [
        | true ↦ some (failed, s)
        | false ↦ after_match result (match_types e1.type e2.type kind s) go
      ]

  -- The loop over both tuples of equality and subtyping; `none` where the sizes differ.
  unfoldable pub match_equal :
      MatchKind
      → List (Field T)
      → List (Field T)
      → List (Field T)
      → SolutionKind
      → S
      → Option (SolutionKind × S)
  unfolding name_conflict
  match_equal kind fields1 [] [] result s = some (result, s)
  match_equal kind fields1 [] (e2 ∷ rest2) result s = none
  match_equal kind fields1 (e1 ∷ rest1) [] result s = none
  match_equal kind fields1 (e1 ∷ rest1) (e2 ∷ rest2) result s =
      match_equal_step (match_equal kind fields1 rest1 rest2) kind fields1 e1 e2 result s

  -- The loop over the variadic arguments, and `go` behind it.
  unfoldable pub match_variadic :
      MatchKind
      → List (Field T)
      → T
      → List ℕ
      → SolutionKind
      → S
      → (SolutionKind → S → Option (SolutionKind × S))
      → Option (SolutionKind × S)
  match_variadic kind fields1 base [] result s go = go result s
  match_variadic kind fields1 base (k ∷ arguments) result s go = get_elem? fields1 k >>= λ e1.
      after_match result (match_types e1.type base kind s)
        (λ result' s'. match_variadic kind fields1 base arguments result' s' go)

  -- One element, with the assertions on its source.
  unfoldable pub match_element_step :
      (SolutionKind → S → Option (SolutionKind × S))
      → MatchKind
      → List (Field T)
      → List ℕ
      → Field T
      → Source
      → SolutionKind
      → S
      → Option (SolutionKind × S)
  unfolding match_variadic
  match_element_step go kind fields1 arguments e2 unassigned result s = none
  match_element_step go kind fields1 arguments e2 default_value result s =
      if e2.has_init then go result s else none
  match_element_step go kind fields1 arguments e2 variadic result s =
      e2.vararg_base_ty >>= λ base. match_variadic kind fields1 base arguments result s go
  match_element_step go kind fields1 arguments e2 (input k) result s =
      get_elem? fields1 k >>= λ e1. after_match result (match_types e1.type e2.type conversion s) go

  -- The loop over the elements of a conversion.
  unfoldable pub match_elements :
      MatchKind
      → List (Field T)
      → List ℕ
      → List (Field T × Source)
      → SolutionKind
      → S
      → Option (SolutionKind × S)
  unfolding match_element_step
  match_elements kind fields1 arguments [] result s = some (result, s)
  match_elements kind fields1 arguments ((e2, source) ∷ elements) result s =
      match_element_step (match_elements kind fields1 arguments elements) kind fields1 arguments e2
        source result s

  unfoldable pub match_sources :
      MatchKind → List (Field T) → Option (Sources T) → S → Option (SolutionKind × S)
  unfolding match_elements
  match_sources kind fields1 none s = some (failed, s)
  match_sources kind fields1 (some r) s =
      match_elements kind fields1 r.variadic_arguments r.elements trivially_solved s

  -- `matchTupleTypes`; `none` is a failed assertion.
  unfoldable pub match_tuple_types :
      List (Field T) → List (Field T) → MatchKind → S → Option (SolutionKind × S)
  unfolding match_equal element_sources match_sources
  match_tuple_types fields1 fields2 kind s =
      if below_conversion kind
      then (if not (length fields1 == length fields2)
          then some (failed, s)
          else match_equal kind fields1 fields1 fields2 trivially_solved s)
      else match_sources kind fields1 (element_sources fields1 fields2) s
