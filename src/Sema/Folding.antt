-- ===== src/Sema/Folding.antt =====
-- The folding of a sequence of operands and infix operators into binary expressions
-- (lib/Sema/TypeCheckExpr.cpp, with InfixData of include/swift/AST/Attr.h), where the trees are not
-- type-checked on the way (`TypeCheckAST` is false).
pub mod Precedence
use b1c3995fdcf53d46308da.Base.{
  asserting, leb, ℕ, zero, suc, ◌+◌, ◌%◌, Bool, true, false, not, ◌&&◌, ◌||◌, ◌==◌, ltb,
  if◌then◌else◌, Option, none, some, ◌>>=◌, List, [], ◌∷◌, ◌++◌, length,
}

pub data Associativity : Type 0 where
  non_assoc left_assoc right_assoc : Associativity

-- `Associativity` as the enumeration's values.
abbrev pub assoc_code : Associativity → ℕ
assoc_code non_assoc = 0
assoc_code left_assoc = 1
assoc_code right_assoc = 2

-- A valid `InfixData`; its precedence has 8 bits.
pub record InfixData : Type 0 where
  pub precedence : ℕ
  pub associativity : Associativity

-- `InfixData(prec, assoc)`
abbrev pub infix_data : ℕ → Associativity → InfixData
infix_data prec assoc = record { precedence = prec % 256; associativity = assoc }

-- `operator==` of `InfixData`
abbrev pub same_infix : InfixData → InfixData → Bool
same_infix l r =
    l.precedence == r.precedence && assoc_code l.associativity == assoc_code r.associativity

abbrev pub is_left_associative : InfixData → Bool
is_left_associative i = assoc_code i.associativity == 1

abbrev pub is_right_associative : InfixData → Bool
is_right_associative i = assoc_code i.associativity == 2

abbrev pub is_non_associative : InfixData → Bool
is_non_associative i = assoc_code i.associativity == 0

-- The expressions that the folding tells apart: a reference to a declaration, which may have
-- infix data, one to a set of overloads, a binary expression, and all others.
pub data Expr : Type 0 where
  decl_ref : Option InfixData → ℕ → Expr
  overloaded_decl_ref : List (Option InfixData) → ℕ → Expr
  other_expr : ℕ → Expr
  binary_expr : Expr → Expr → Expr → Expr

pub data FoldDiag : Type 0 where
  binop_not_infix binop_mismatched_infix binop_not_overloaded unknown_binop : Expr → FoldDiag
  non_assoc_adjacent incompatible_assoc : Expr → FoldDiag

-- The loop over an overload set: the infix data found so far, and whether two of them differ.
unfoldable pub overload_infix : Option InfixData → List (Option InfixData) → Option InfixData × Bool
overload_infix found [] = (found, false)
overload_infix found (none ∷ decls) = overload_infix found decls
overload_infix none (some i ∷ decls) = overload_infix (some i) decls
overload_infix (some found) (some i ∷ decls) = elim (same_infix found i) [
  | true ↦ overload_infix (some i) decls
  | false ↦ (some found, true)
]

-- The recovery with a left-associative operator of precedence ~0U.
abbrev recovered : InfixData
recovered = infix_data 4294967295 left_assoc

-- What `getInfixData` makes of an overload set.
abbrev pub overload_result : Expr → Option InfixData × Bool → InfixData × List FoldDiag
overload_result e (some found, true) = (found, binop_mismatched_infix e ∷ [])
overload_result e (some found, false) = (found, [])
overload_result e (none, mismatch) = (recovered, binop_not_overloaded e ∷ [])

-- `getInfixData`
unfoldable pub get_infix_data : Expr → InfixData × List FoldDiag
unfolding overload_infix
get_infix_data (decl_ref (some i) n) = (i, [])
get_infix_data (decl_ref none n) = (recovered, binop_not_infix (decl_ref none n) ∷ [])
get_infix_data (overloaded_decl_ref decls n) =
    overload_result (overloaded_decl_ref decls n) (overload_infix none decls)
get_infix_data (other_expr n) = (recovered, unknown_binop (other_expr n) ∷ [])
get_infix_data (binary_expr op l r) = (recovered, unknown_binop (binary_expr op l r) ∷ [])

abbrev pub infix_of : Expr → InfixData
infix_of op = (get_infix_data op).0

abbrev pub precedence_of : Expr → ℕ
precedence_of op = (infix_of op).precedence

-- What the loop of `foldSequence` does at a second operator.
pub data Choice : Type 0 where
  stop fold_left fold_tighter fold_right : Choice
  conflict : FoldDiag → Choice

-- The diagnostic for two operators that cannot stand side by side.
abbrev pub conflict_of : Expr → Expr → FoldDiag
conflict_of op1 op2 =
    if is_non_associative (infix_of op1)
    then non_assoc_adjacent op1
    else if is_non_associative (infix_of op2)
    then non_assoc_adjacent op2
    else incompatible_assoc op1

-- The assertions in front of the diagnostic.
abbrev pub mismatched : Expr → Expr → Bool
mismatched op1 op2 =
    precedence_of op1 == precedence_of op2
    && (not (assoc_code (infix_of op1).associativity == assoc_code (infix_of op2).associativity)
        || is_non_associative (infix_of op1))

-- The tests of the loop, in their order.
unfoldable pub choose : Expr → Expr → ℕ → Choice
choose op1 op2 min_precedence =
    let i1 = infix_of op1 in
    let i2 = infix_of op2 in
    if ltb i2.precedence min_precedence
    then stop
    else if ltb i2.precedence i1.precedence || (same_infix i1 i2 && is_left_associative i1)
    then fold_left
    else if ltb i1.precedence i2.precedence
    then fold_tighter
    else if same_infix i1 i2 && is_right_associative i1
    then fold_right
    else conflict (conflict_of op1 op2)

-- The folded expression, what is left of the sequence, and what was reported.
pub record Folded : Type 0 where
  pub expr : Expr
  pub rest : List Expr
  pub log : List FoldDiag

abbrev pub folded : Expr → List Expr → List FoldDiag → Folded
folded e s log = record { expr = e; rest = s; log = log }

-- `foldSequence(LHS, S, MinPrecedence)`
abbrev pub Fold : Type 0
Fold = Expr → List Expr → ℕ → List FoldDiag → Option Folded

-- The loop of `foldSequence` at the current `LHS`, `Op1` and `RHS`.
abbrev pub FoldLoop : Type 0
FoldLoop = Expr → Expr → Expr → List Expr → ℕ → List FoldDiag → Option Folded

-- The part of `foldSequence` in front of its loop; the Boolean tells whether the first operator's
-- precedence is too low.
abbrev pub fold_step :
    FoldLoop → Bool → Expr → Expr → Expr → List Expr → ℕ → List FoldDiag → Option Folded
fold_step loop true lhs op1 rhs s min_precedence log = some (folded lhs (op1 ∷ rhs ∷ s) log)
fold_step loop false lhs op1 rhs s min_precedence log = loop lhs op1 rhs s min_precedence log

-- After the right-associative case: done, or all over with the new left side.
abbrev pub fold_again : Fold → Fold
fold_again fold lhs [] min_precedence log = some (folded lhs [] log)
fold_again fold lhs (op ∷ s) min_precedence log = fold lhs (op ∷ s) min_precedence log

-- One round of the loop, at the second operator `op2` and its right side.
abbrev pub loop_step :
    Fold
    → FoldLoop
    → Choice
    → Expr
    → Expr
    → Expr
    → Expr
    → Expr
    → List Expr
    → ℕ
    → List FoldDiag
    → Option Folded
loop_step fold loop stop lhs op1 rhs op2 rhs2 s min_precedence log =
    some (folded (binary_expr op1 lhs rhs) (op2 ∷ rhs2 ∷ s) log)
loop_step fold loop fold_left lhs op1 rhs op2 rhs2 s min_precedence log =
    loop (binary_expr op1 lhs rhs) op2 rhs2 s min_precedence log
loop_step fold loop fold_tighter lhs op1 rhs op2 rhs2 s min_precedence log =
    fold rhs (op2 ∷ rhs2 ∷ s) (precedence_of op1 + 1) log >>= λ f.
    loop lhs op1 f.expr f.rest min_precedence f.log
loop_step fold loop fold_right lhs op1 rhs op2 rhs2 s min_precedence log =
    fold rhs (op2 ∷ rhs2 ∷ s) (precedence_of op1) log >>= λ f.
    fold_again fold (binary_expr op1 lhs f.expr) f.rest min_precedence f.log
loop_step fold loop (conflict d) lhs op1 rhs op2 rhs2 s min_precedence log =
    asserting (mismatched op1 op2)
      (fold (binary_expr op1 lhs rhs) (op2 ∷ rhs2 ∷ s) min_precedence (log ++ d ∷ []))

-- `foldSequence` and its loop. `none` is a failed assertion.
unfoldable mutual
  unfolding choose get_infix_data

  pub fold_sequence : ℕ → Fold
  fold_sequence zero lhs s min_precedence log = none
  fold_sequence (suc fuel) lhs [] min_precedence log = none
  fold_sequence (suc fuel) lhs (op1 ∷ []) min_precedence log = none
  fold_sequence (suc fuel) lhs (op1 ∷ rhs ∷ s) min_precedence log =
      asserting (length (op1 ∷ rhs ∷ s) % 2 == 0) (
        fold_step (fold_loop fuel) (ltb (precedence_of op1) min_precedence) lhs op1 rhs s
          min_precedence (log ++ (get_infix_data op1).1))

  pub fold_loop : ℕ → FoldLoop
  fold_loop zero lhs op1 rhs s min_precedence log = none
  fold_loop (suc fuel) lhs op1 rhs [] min_precedence log =
      some (folded (binary_expr op1 lhs rhs) [] log)
  fold_loop (suc fuel) lhs op1 rhs (op2 ∷ []) min_precedence log = none
  fold_loop (suc fuel) lhs op1 rhs (op2 ∷ rhs2 ∷ s) min_precedence log =
      asserting (length (op2 ∷ rhs2 ∷ s) % 2 == 0 && leb min_precedence (precedence_of op1)) (
        loop_step (fold_sequence fuel) (fold_loop fuel) (choose op1 op2 min_precedence) lhs op1 rhs
          op2 rhs2 s min_precedence (log ++ (get_infix_data op2).1))

-- `visitSequenceExpr`; a sequence of one element or of an even number fails an assertion.
unfoldable pub visit_sequence_expr : List Expr → Option (Expr × List FoldDiag)
unfolding fold_sequence fold_loop
visit_sequence_expr [] = none
visit_sequence_expr (lhs ∷ elements) =
    if length elements == 0 || not (length elements % 2 == 0)
    then none
    else (fold_sequence (length elements) lhs elements 0 [] >>= λ f.
        if length f.rest == 0 then some (f.expr, f.log) else none)
