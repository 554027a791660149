-- ===== src/Sema/Tests.antt =====
-- Instances of the theorems on operator sequences, type variables and the ranking of solutions.
use b1c3995fdcf53d46308da.Base.{
  Bool, List, none, ℕ, zero, suc, ◌+◌, ◌==◌, ltb, ◌≡◌, ◌≢◌, refl, inl, true, false, if◌then◌else◌,
  some, [], ◌∷◌, Returns, arith,
}
use b1c3995fdcf53d46308da.Sema.Folding.{
  Associativity, left_assoc, right_assoc, non_assoc, infix_data, Expr, decl_ref, other_expr,
  visit_sequence_expr, get_infix_data,
}
use b1c3995fdcf53d46308da.Sema.Folding.Precedence.{
  Tree, expr_of, in_order, IsProper, visit_sequence_expr-in_order, visit_sequence_expr-IsProper,
}
use b1c3995fdcf53d46308da.Sema.TypeVariables.{
  parent, Store, Bindings, get_representative, merge_equivalence_classes, assign_fixed_type,
  get_fixed_type,
}
use b1c3995fdcf53d46308da.Sema.TypeVariables.Roots.{
  RootOf, at, up, IsOrdered, SameClasses, get_representative-RootOf,
}
use b1c3995fdcf53d46308da.Sema.TypeVariables.Classes.{
  Merged, Assigned, merge_equivalence_classes-Merged, assign_fixed_type-Assigned,
}
use b1c3995fdcf53d46308da.Sema.TypeVariables.Types.{HasType, SameTypes, get_fixed_type-HasType}
use b1c3995fdcf53d46308da.Sema.Ranking.{
  CompareResult, better, worse, incomparable, find_best_solution,
}
use b1c3995fdcf53d46308da.Sema.Ranking.Best.{IsIn, Beats, find_best_solution-Beats}
use b1c3995fdcf53d46308da.Sema.Tuples.{
  MatchKind, conversion, SolutionKind, trivially_solved, failed, Field, element_sources,
  match_tuple_types,
}
use b1c3995fdcf53d46308da.Sema.Tuples.Shuffle.{
  IfSome, Shuffle, AllAssigned, element_sources-Shuffle,
}
use b1c3995fdcf53d46308da.Sema.Tuples.Matching.{FailedOr, Matches, match_tuple_types-Matches}
use b1c3995fdcf53d46308da.Sema.Tuples.Positional.{positional, element_sources-positional}

abbrev plus : Expr
plus = decl_ref (some (infix_data 140 left_assoc)) 1

abbrev times : Expr
times = decl_ref (some (infix_data 150 left_assoc)) 2

abbrev assigns : Expr
assigns = decl_ref (some (infix_data 90 right_assoc)) 3

abbrev compares : Expr
compares = decl_ref (some (infix_data 130 non_assoc)) 4

abbrev a : ℕ → Expr
a n = other_expr n

-- Two operators that do not associate, side by side.
visit_sequence_expr-in_order_example :
    Returns (visit_sequence_expr (a 0 ∷ compares ∷ a 1 ∷ compares ∷ a 2 ∷ [])) (λ r.
      (t : Tree) × (r.0 ≡ expr_of t) × (in_order t [] ≡ a 0 ∷ compares ∷ a 1 ∷ compares ∷ a 2 ∷ []))
visit_sequence_expr-in_order_example =
    visit_sequence_expr-in_order (a 0) compares (a 1) (compares ∷ a 2 ∷ []) refl

-- Only the operators of precedence 90 associate to the right.
abbrev side_of : ℕ → Associativity
side_of p = if p == 90 then right_assoc else left_assoc

left_right : (left_assoc ≢ non_assoc) × (right_assoc ≢ non_assoc)
left_right = ((λ e. cc), (λ e. cc))

visit_sequence_expr-IsProper_example :
    Returns (visit_sequence_expr (a 0 ∷ assigns ∷ a 1 ∷ plus ∷ a 2 ∷ times ∷ a 3 ∷ [])) (λ r.
      (r.1 ≡ [])
      × ((t : Tree) × (r.0 ≡ expr_of t)
          × (in_order t [] ≡ a 0 ∷ assigns ∷ a 1 ∷ plus ∷ a 2 ∷ times ∷ a 3 ∷ [])
          × IsProper side_of ⊥ t))
unfolding get_infix_data
visit_sequence_expr-IsProper_example =
    visit_sequence_expr-IsProper side_of (a 0) assigns (a 1) (plus ∷ a 2 ∷ times ∷ a 3 ∷ []) (
      inl (refl, left_right.1, refl),
      (inl (refl, left_right.0, refl), (inl (refl, left_right.0, refl), tt)),
    )

-- The variables 1 and 2 lead to 0; all others are free.
abbrev links : Store ℕ
links zero = parent 0
links (suc zero) = parent 0
links (suc (suc zero)) = parent 1
links (suc (suc (suc n))) = parent (suc (suc (suc n)))

abbrev bindings : Bindings ℕ
bindings = record { store = links; saved = [] }

links-IsOrdered : IsOrdered links
links-IsOrdered zero p e = let q : 0 ≡ p = cc in omega arith
links-IsOrdered (suc zero) p e = let q : 0 ≡ p = cc in omega arith
links-IsOrdered (suc (suc zero)) p e = let q : 1 ≡ p = cc in omega arith
links-IsOrdered (suc (suc (suc n))) p e = let q : suc (suc (suc n)) ≡ p = cc in omega arith

links-RootOf : RootOf links 2 0
links-RootOf = up 1 refl (omega arith) (up 0 refl (omega arith) (at refl refl))

get_representative-RootOf_example :
    Returns (get_representative 2 bindings) (λ r. RootOf links 2 r.0 × SameClasses bindings r.1)
get_representative-RootOf_example = get_representative-RootOf 2 bindings links-IsOrdered

merge_equivalence_classes-Merged_example :
    Returns (merge_equivalence_classes 3 0 bindings) (Merged bindings 0 3)
merge_equivalence_classes-Merged_example =
    merge_equivalence_classes-Merged 3 0 bindings links-IsOrdered (omega arith) refl refl

assign_fixed_type-Assigned_example :
    Returns (assign_fixed_type (λ s t. s == t) 2 7 bindings) (Assigned bindings 0 7)
assign_fixed_type-Assigned_example =
    assign_fixed_type-Assigned (λ s t. s == t) 2 0 7 bindings links-IsOrdered links-RootOf refl

get_fixed_type-HasType_example :
    Returns (get_fixed_type 2 bindings) (λ r. HasType links 2 r.0 × SameTypes bindings r.1)
get_fixed_type-HasType_example = get_fixed_type-HasType 2 bindings links-IsOrdered

-- The greater number is the better solution, from 2 on.
abbrev by_number : ℕ → ℕ → CompareResult
by_number x y = if ltb y x then better else if ltb x y then worse else incomparable

best_of : find_best_solution by_number (3 ∷ 5 ∷ 4 ∷ []) ≡ some 5
unfolding find_best_solution
best_of = refl

find_best_solution-Beats_example : IsIn 5 (3 ∷ 5 ∷ 4 ∷ []) × Beats by_number 5 (3 ∷ 5 ∷ 4 ∷ [])
find_best_solution-Beats_example = find_best_solution-Beats by_number (3 ∷ 5 ∷ 4 ∷ []) 5 best_of

-- The type of a field is a number; two are matched if they are the same.
abbrev field : ℕ → ℕ → Bool → Field ℕ
field name type has_init = record {
  name = name;
  type = type;
  vararg_base_ty = none;
  has_init = has_init;
}

abbrev variadic_field : ℕ → Field ℕ
variadic_field base = record { name = 0; type = base; vararg_base_ty = some base; has_init = false }

abbrev match_numbers : ℕ → ℕ → MatchKind → ℕ → SolutionKind × ℕ
match_numbers t1 t2 kind s = (if t1 == t2 then trivially_solved else failed, s + 1)

-- `(x: 8, 7, 9, 9)` for `(7, x: 8, 9...)`
abbrev given : List (Field ℕ)
given = field 5 8 false ∷ field 0 7 false ∷ field 0 9 false ∷ field 0 9 false ∷ []

abbrev wanted : List (Field ℕ)
wanted = field 0 7 false ∷ field 5 8 false ∷ variadic_field 9 ∷ []

element_sources-Shuffle_example :
    IfSome (element_sources given wanted) (λ r. Shuffle given wanted r × AllAssigned r.elements)
element_sources-Shuffle_example = element_sources-Shuffle given wanted (refl, (refl, tt))

match_tuple_types-Matches_example :
    Returns
      (match_tuple_types match_numbers given wanted conversion 0)
      (FailedOr (Matches match_numbers conversion given wanted))
match_tuple_types-Matches_example =
    match_tuple_types-Matches match_numbers given wanted conversion 0 (refl, (refl, tt))

-- `(7, 8)` for `(7, 8, 9 = default)`
element_sources-positional_example :
    Returns
      (element_sources
        (field 0 7 false ∷ field 0 8 false ∷ [])
        (field 0 7 false ∷ field 0 8 true ∷ field 0 9 true ∷ []))
      (λ r.
        (r.elements
          ≡ positional 0
              (field 0 7 false ∷ field 0 8 false ∷ [])
              (field 0 7 false ∷ field 0 8 true ∷ field 0 9 true ∷ []))
        × (r.variadic_arguments ≡ []))
element_sources-positional_example =
    element_sources-positional (field 0 7 false ∷ field 0 8 false ∷ [])
      (field 0 7 false ∷ field 0 8 true ∷ field 0 9 true ∷ [])
      (refl, refl, refl, (refl, refl, refl, (refl, refl, refl, tt)))
