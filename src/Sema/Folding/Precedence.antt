-- ===== src/Sema/Folding/Precedence.antt =====
-- What the folding of operator sequences gives: the same expressions and operators in the same
-- order, grouped by precedence and associativity.
use b1c3995fdcf53d46308da.Base.{
  Returns-if, leb, not, ℕ, zero, suc, ◌+◌, ◌%◌, ◌≤◌, ◌<◌, ◌≡◌, ◌≢◌, refl, sym, ap, ◌∙◌, subst, Bool,
  true, false, ◌&&◌, ◌||◌, ◌==◌, ltb, if◌then◌else◌, Option, none, some, List, [], ◌∷◌, ◌++◌,
  length, arith, ◌⊎◌, inl, inr, Returns, Returns->>=, Returns-weaken, Bool-cases,
}
use mathlib.Core.List.{append-nil}
use b1c3995fdcf53d46308da.Sema.Folding.{
  mismatched, Associativity, non_assoc, left_assoc, right_assoc, assoc_code, Expr, binary_expr,
  FoldDiag, get_infix_data, infix_of, precedence_of, conflict_of, Choice, stop, fold_left,
  fold_tighter, fold_right, conflict, choose, Folded, fold_sequence, fold_loop, fold_again,
  fold_step, loop_step, visit_sequence_expr,
}

abbrev pub associativity_of : Expr → Associativity
associativity_of op = (infix_of op).associativity

-- A grouping of operands by operators.
pub data Tree : Type 0 where
  leaf : Expr → Tree
  node : Expr → Tree → Tree → Tree

-- The expression of a grouping.
abbrev pub expr_of : Tree → Expr
expr_of (leaf e) = e
expr_of (node op l r) = binary_expr op (expr_of l) (expr_of r)

-- The operands and operators of a grouping from left to right, in front of others.
abbrev pub in_order : Tree → List Expr → List Expr
in_order (leaf e) s = e ∷ s
in_order (node op l r) s = in_order l (op ∷ in_order r s)

-- The tests of `choose` on the values that they read.
choose_by : ℕ → Associativity → ℕ → Associativity → ℕ → FoldDiag → Choice
choose_by p1 a1 p2 a2 m d =
    if ltb p2 m
    then stop
    else if ltb p2 p1 || ((p1 == p2 && assoc_code a1 == assoc_code a2) && assoc_code a1 == 1)
    then fold_left
    else if ltb p1 p2
    then fold_tighter
    else if (p1 == p2 && assoc_code a1 == assoc_code a2) && assoc_code a1 == 2
    then fold_right
    else conflict d

-- The meaning of each choice.
abbrev MeaningBy : ℕ → Associativity → ℕ → Associativity → ℕ → Choice → Type 0
MeaningBy p1 a1 p2 a2 m stop = p2 < m
MeaningBy p1 a1 p2 a2 m fold_left = (m ≤ p2) × ((p2 < p1) ⊎ ((p2 ≡ p1) × (a1 ≡ left_assoc)))
MeaningBy p1 a1 p2 a2 m fold_tighter = (m ≤ p2) × (p1 < p2)
MeaningBy p1 a1 p2 a2 m fold_right = (m ≤ p2) × (p1 ≡ p2) × (a1 ≡ right_assoc)
MeaningBy p1 a1 p2 a2 m (conflict d) = (p1 ≡ p2) × ((a1 ≢ a2) ⊎ (a1 ≡ non_assoc))

choose_by-means :
    (p1 : ℕ) (a1 : Associativity) (p2 : ℕ) (a2 : Associativity) (m : ℕ) (d : FoldDiag)
    → MeaningBy p1 a1 p2 a2 m (choose_by p1 a1 p2 a2 m d)
unfolding choose_by
choose_by-means p1 left_assoc p2 left_assoc m d = ground arith
choose_by-means p1 left_assoc p2 right_assoc m d = ground arith
choose_by-means p1 left_assoc p2 non_assoc m d = ground arith
choose_by-means p1 right_assoc p2 left_assoc m d = ground arith
choose_by-means p1 right_assoc p2 right_assoc m d = ground arith
choose_by-means p1 right_assoc p2 non_assoc m d = ground arith
choose_by-means p1 non_assoc p2 left_assoc m d = ground arith
choose_by-means p1 non_assoc p2 right_assoc m d = ground arith
choose_by-means p1 non_assoc p2 non_assoc m d = ground arith

abbrev Meaning : Expr → Expr → ℕ → Choice → Type 0
Meaning op1 op2 m =
    MeaningBy (precedence_of op1) (associativity_of op1) (precedence_of op2) (associativity_of op2)
      m

choose-means : (op1 op2 : Expr) (m : ℕ) → Meaning op1 op2 m (choose op1 op2 m)
unfolding choose choose_by
choose-means op1 op2 m =
    choose_by-means (precedence_of op1) (associativity_of op1) (precedence_of op2)
      (associativity_of op2) m (conflict_of op1 op2)

codes_differ :
    (a1 a2 : Associativity)
    → (a1 ≢ a2) ⊎ (a1 ≡ non_assoc)
    → (not (assoc_code a1 == assoc_code a2) || assoc_code a1 == 0) ≡ true
codes_differ non_assoc a2 h = ground arith
codes_differ left_assoc left_assoc (inl ne) = absurd (ne refl)
codes_differ left_assoc left_assoc (inr e) = absurd (cc)
codes_differ left_assoc right_assoc h = refl
codes_differ left_assoc non_assoc h = refl
codes_differ right_assoc right_assoc (inl ne) = absurd (ne refl)
codes_differ right_assoc right_assoc (inr e) = absurd (cc)
codes_differ right_assoc left_assoc h = refl
codes_differ right_assoc non_assoc h = refl

-- The assertions in front of the diagnostic hold.
mismatched-conflict :
    (op1 op2 : Expr) (m : ℕ) (d : FoldDiag)
    → Meaning op1 op2 m (conflict d)
    → mismatched op1 op2 ≡ true
mismatched-conflict op1 op2 m d (same, differ) =
    let equal : (precedence_of op1 == precedence_of op2) ≡ true = ground arith in
    rw equal (codes_differ (associativity_of op1) (associativity_of op2) differ)

-- The sequences that the statements are about: each operator's associativity is the one that
-- `side` gives its precedence, a left or right one, and is found without a report; or else `K`.
module _ (side : ℕ → Associativity) (K : Type 0) where
  abbrev pub Agrees : Expr → Type 0
  Agrees op =
      ((associativity_of op ≡ side (precedence_of op))
        × (side (precedence_of op) ≢ non_assoc)
        × ((get_infix_data op).1 ≡ []))
      ⊎ K

  -- Operators and operands by turns.
  abbrev pub IsTail : List Expr → Type 0
  IsTail [] = Unit {0}
  IsTail (op ∷ []) = ⊥
  IsTail (op ∷ e ∷ s) = Agrees op × IsTail s

  -- A grouping can stand on the left, or on the right, of an operator.
  abbrev pub LeftOk : Tree → Expr → Type 0
  LeftOk (leaf e) op = Unit {0}
  LeftOk (node o l r) op =
      ((precedence_of op < precedence_of o)
        ⊎ ((precedence_of op ≡ precedence_of o) × (side (precedence_of op) ≡ left_assoc)))
      ⊎ K

  abbrev pub RightOk : Tree → Expr → Type 0
  RightOk (leaf e) op = Unit {0}
  RightOk (node o l r) op =
      ((precedence_of op < precedence_of o)
        ⊎ ((precedence_of op ≡ precedence_of o) × (side (precedence_of op) ≡ right_assoc)))
      ⊎ K

  abbrev pub IsProper : Tree → Type 0
  IsProper (leaf e) = Unit {0}
  IsProper (node op l r) = LeftOk l op × RightOk r op × IsProper l × IsProper r

  -- The topmost operator binds at least as tightly as `m`, and the next one less than `m`.
  abbrev RootGe : ℕ → Tree → Type 0
  RootGe m (leaf e) = Unit {0}
  RootGe m (node op l r) = m ≤ precedence_of op

  abbrev HeadLt : ℕ → List Expr → Type 0
  HeadLt m [] = Unit {0}
  HeadLt m (op ∷ s) = precedence_of op < m

  abbrev HeadOk : Tree → List Expr → Type 0
  HeadOk t [] = Unit {0}
  HeadOk t (op ∷ s) = LeftOk t op

  record FoldOk (m bound : ℕ) (before : List Expr) (log : List FoldDiag) (f : Folded) : Type 0 where
    tree : Tree
    expr_eq : f.expr ≡ expr_of tree
    order : in_order tree f.rest ≡ before
    proper : IsProper tree
    root : RootGe m tree
    head : HeadLt m f.rest
    tail : IsTail f.rest
    shorter : length f.rest ≤ bound
    quiet : (f.log ≡ log) ⊎ K

  -- The length after the part of the sequence that must be consumed.
  abbrev after_first : ℕ → List Expr → ℕ
  after_first m [] = 0
  after_first m (op ∷ []) = 0
  after_first m (op ∷ e ∷ s) = if ltb (precedence_of op) m then length s + 2 else length s

  -- What is folded before an operator of a lower precedence can stand on its left.
  HeadLt-HeadOk : (m : ℕ) (t : Tree) (s : List Expr) → RootGe m t → HeadLt m s → HeadOk t s
  HeadLt-HeadOk m t [] root head = tt
  HeadLt-HeadOk m (leaf e) (op ∷ s) root head = tt
  HeadLt-HeadOk m (node o l r) (op ∷ s) root head = inl (inl (omega arith))

  leaf-HeadOk : (e : Expr) (s : List Expr) → HeadOk (leaf e) s
  leaf-HeadOk e [] = tt
  leaf-HeadOk e (op ∷ s) = tt

  RootGe-RightOk : (op : Expr) (t : Tree) → RootGe (precedence_of op + 1) t → RightOk t op
  RootGe-RightOk op (leaf e) root = tt
  RootGe-RightOk op (node o l r) root = inl (inl (omega arith))

  quiet_head :
      (op : Expr) (log : List FoldDiag) → Agrees op → ((log ++ (get_infix_data op).1) ≡ log) ⊎ K
  quiet_head op log (inl (a, b, none_reported)) = inl (rw none_reported (append-nil log))
  quiet_head op log (inr k) = inr k

  both_quiet : {a b c : List FoldDiag} → (a ≡ b) ⊎ K → (b ≡ c) ⊎ K → (a ≡ c) ⊎ K
  both_quiet (inl e) (inl e') = inl (e ∙ e')
  both_quiet (inr k) h = inr k
  both_quiet (inl e) (inr k) = inr k

  -- The three ways for a node to be proper with what follows.
  left_side :
      (op : Expr) (a : Associativity)
      → Agrees op
      → associativity_of op ≡ a
      → (side (precedence_of op) ≡ a) ⊎ K
  left_side op a (inl (e, h, q)) at = inl (sym e ∙ at)
  left_side op a (inr k) at = inr k

  no_conflict :
      (op1 op2 : Expr)
      → Agrees op1
      → Agrees op2
      → precedence_of op1 ≡ precedence_of op2
      → (associativity_of op1 ≢ associativity_of op2) ⊎ (associativity_of op1 ≡ non_assoc)
      → K
  no_conflict op1 op2 (inr k) b e h = k
  no_conflict op1 op2 a (inr k) e h = k
  no_conflict op1 op2 (inl (a, b, c)) (inl (a', b', c')) e (inl differ) =
      absurd (differ (a ∙ ap side e ∙ sym a'))
  no_conflict op1 op2 (inl (a, b, c)) (inl g) e (inr none_at) = absurd (b (sym a ∙ none_at))

  left_after :
      (op1 op2 : Expr)
      → Agrees op1
      → (precedence_of op2 < precedence_of op1)
        ⊎ ((precedence_of op2 ≡ precedence_of op1) × (associativity_of op1 ≡ left_assoc))
      → ((precedence_of op2 < precedence_of op1)
          ⊎ ((precedence_of op2 ≡ precedence_of op1) × (side (precedence_of op2) ≡ left_assoc)))
        ⊎ K
  left_after op1 op2 a (inl lower) = inl (inl lower)
  left_after op1 op2 a (inr (same, at)) = elim (left_side op1 left_assoc a at) [
    | inl e ↦ inl (inr (same, ap side same ∙ e))
    | inr k ↦ inr k
  ]

  RootGe-weaken : (m n : ℕ) (t : Tree) → n ≤ m → RootGe m t → RootGe n t
  RootGe-weaken m n (leaf e) le root = tt
  RootGe-weaken m n (node o l r) le root = omega arith

  right_after :
      (op : Expr) (t : Tree)
      → RootGe (precedence_of op) t
      → (side (precedence_of op) ≡ right_assoc) ⊎ K
      → RightOk t op
  right_after op (leaf e) root h = tt
  right_after op (node o l r) root (inr k) = inr k
  right_after op (node o l r) root (inl e) =
      elim (Bool-cases (ltb (precedence_of op) (precedence_of o))) [
        | inl lower ↦ inl (inl (ground arith))
        | inr same ↦ inl (inr (ground arith, e))
      ]

  FoldOk-weaken :
      (m b b' : ℕ) (before before' : List Expr) (log log' : List FoldDiag) (f : Folded)
      → b ≤ b'
      → before ≡ before'
      → (log ≡ log') ⊎ K
      → FoldOk m b before log f
      → FoldOk m b' before' log' f
  FoldOk-weaken m b b' before before' log log' f le same quiet ok = record {
    tree = ok.tree;
    expr_eq = ok.expr_eq;
    order = ok.order ∙ same;
    proper = ok.proper;
    root = ok.root;
    head = ok.head;
    tail = ok.tail;
    shorter = omega (arith, ok.shorter);
    quiet = both_quiet ok.quiet quiet;
  }

  widen :
      (m b b' : ℕ) (before before' : List Expr) (log log' : List FoldDiag) (r : Option Folded)
      → Returns r (FoldOk m b before log)
      → b ≤ b'
      → before ≡ before'
      → (log ≡ log') ⊎ K
      → Returns r (FoldOk m b' before' log')
  widen m b b' before before' log log' r ok le same quiet =
      Returns-weaken (FoldOk m b before log) (FoldOk m b' before' log') r ok
        (λ f h. FoldOk-weaken m b b' before before' log log' f le same quiet h)

  tail_even : (s : List Expr) → IsTail s → length s % 2 ≡ 0
  tail_even [] h = refl
  tail_even (op ∷ []) h = absurd h
  tail_even (op ∷ e ∷ s) h = omega (arith, tail_even s h.1)

  -- What the loop knows of its operators and operands.
  record LoopReady (tl : Tree) (op1 : Expr) (tr : Tree) (s : List Expr) (m : ℕ) : Type 0 where
    agrees : Agrees op1
    tail : IsTail s
    above : m ≤ precedence_of op1
    left_proper : IsProper tl
    left : LeftOk tl op1
    right_proper : IsProper tr
    right : RootGe (precedence_of op1 + 1) tr
    head : HeadOk tr s

  record FoldReady (tl : Tree) (s : List Expr) (m : ℕ) : Type 0 where
    tail : IsTail s
    proper : IsProper tl
    root : RootGe m tl
    head : HeadOk tl s

  joined-IsProper :
      (tl tr : Tree) (op1 : Expr) (s : List Expr) (m : ℕ)
      → LoopReady tl op1 tr s m
      → IsProper (node op1 tl tr)
  joined-IsProper tl tr op1 s m ready =
      (ready.left, RootGe-RightOk op1 tr ready.right, ready.left_proper, ready.right_proper)

  after_left :
      (tl tr : Tree) (op1 op2 rhs2 : Expr) (s : List Expr) (m : ℕ)
      → LoopReady tl op1 tr (op2 ∷ rhs2 ∷ s) m
      → Meaning op1 op2 m fold_left
      → LoopReady (node op1 tl tr) op2 (leaf rhs2) s m
  after_left tl tr op1 op2 rhs2 s m ready (above, order) = record {
    agrees = ready.tail.0;
    tail = ready.tail.1;
    above = above;
    left_proper = joined-IsProper tl tr op1 (op2 ∷ rhs2 ∷ s) m ready;
    left = left_after op1 op2 ready.agrees order;
    right_proper = tt;
    right = tt;
    head = leaf-HeadOk rhs2 s;
  }

  -- What is asked of `foldSequence` and of its loop at some amount of fuel.
  abbrev FoldsAt : ℕ → Type 0
  FoldsAt fuel =
      (tl : Tree) (s : List Expr) (m : ℕ) (log : List FoldDiag)
      → length s ≤ fuel
      → 0 < length s
      → FoldReady tl s m
      → Returns (fold_sequence fuel (expr_of tl) s m log)
          (FoldOk m (after_first m s) (in_order tl s) log)

  abbrev LoopsAt : ℕ → Type 0
  LoopsAt fuel =
      (tl : Tree) (op1 : Expr) (tr : Tree) (s : List Expr) (m : ℕ) (log : List FoldDiag)
      → length s < fuel
      → LoopReady tl op1 tr s m
      → Returns (fold_loop fuel (expr_of tl) op1 (expr_of tr) s m log)
          (FoldOk m (length s) (in_order tl (op1 ∷ in_order tr s)) log)

  fold_step-FoldOk :
      (fuel : ℕ) (too_low : Bool) (tl : Tree) (op rhs : Expr) (s : List Expr) (m : ℕ)
      (log : List FoldDiag)
      → ltb (precedence_of op) m ≡ too_low
      → length s < fuel
      → LoopsAt fuel
      → FoldReady tl (op ∷ rhs ∷ s) m
      → Returns
          (fold_step (fold_loop fuel) too_low (expr_of tl) op rhs s m log)
          (FoldOk m (after_first m (op ∷ rhs ∷ s)) (in_order tl (op ∷ rhs ∷ s)) log)
  fold_step-FoldOk fuel true tl op rhs s m log e enough loops ready = record {
    tree = tl;
    expr_eq = refl;
    order = refl;
    proper = ready.proper;
    root = ready.root;
    head = ground arith;
    tail = ready.tail;
    shorter = rw e (omega arith);
    quiet = inl refl;
  }
  fold_step-FoldOk fuel false tl op rhs s m log e enough loops ready = rw e (
      loops tl op (leaf rhs) s m log enough (record {
        agrees = ready.tail.0;
        tail = ready.tail.1;
        above = ground arith;
        left_proper = ready.proper;
        left = ready.head;
        right_proper = tt;
        right = tt;
        head = leaf-HeadOk rhs s;
      }))

  fold_again-FoldOk :
      (fuel : ℕ) (tl : Tree) (s : List Expr) (m : ℕ) (log : List FoldDiag)
      → length s ≤ fuel
      → FoldsAt fuel
      → FoldReady tl s m
      → Returns
          (fold_again (fold_sequence fuel) (expr_of tl) s m log)
          (FoldOk m (length s) (in_order tl s) log)
  fold_again-FoldOk fuel tl [] m log enough folds ready = record {
    tree = tl;
    expr_eq = refl;
    order = refl;
    proper = ready.proper;
    root = ready.root;
    head = tt;
    tail = tt;
    shorter = omega arith;
    quiet = inl refl;
  }
  fold_again-FoldOk fuel tl (op ∷ []) m log enough folds ready = absurd ready.tail
  fold_again-FoldOk fuel tl (op ∷ e ∷ s) m log enough folds ready =
      widen m (after_first m (op ∷ e ∷ s)) (length (op ∷ e ∷ s)) _ _ log log _
        (folds tl (op ∷ e ∷ s) m log enough (omega arith) ready) (ground arith) refl (inl refl)

  -- After the operators that bind tighter than `op1` are folded into its right side.
  after_tighter :
      (fuel : ℕ) (tl : Tree) (op1 : Expr) (tr : Tree) (s : List Expr) (bound m : ℕ)
      (log : List FoldDiag) (f : Folded)
      → bound + 2 ≤ fuel
      → LoopsAt fuel
      → LoopReady tl op1 tr s m
      → FoldOk (precedence_of op1 + 1) bound (in_order tr s) log f
      → Returns
          (fold_loop fuel (expr_of tl) op1 f.expr f.rest m f.log)
          (FoldOk m (bound + 2) (in_order tl (op1 ∷ in_order tr s)) log)
  after_tighter fuel tl op1 tr s bound m log f enough loops ready ok =
      subst
        (λ e.
          Returns (fold_loop fuel (expr_of tl) op1 e f.rest m f.log)
            (FoldOk m (bound + 2) (in_order tl (op1 ∷ in_order tr s)) log))
        (sym ok.expr_eq)
        (widen m (length f.rest) (bound + 2) _ _ f.log log _
          (loops tl op1 ok.tree f.rest m f.log (omega (arith, ok.shorter)) (record {
            agrees = ready.agrees;
            tail = ok.tail;
            above = ready.above;
            left_proper = ready.left_proper;
            left = ready.left;
            right_proper = ok.proper;
            right = ok.root;
            head = HeadLt-HeadOk (precedence_of op1 + 1) ok.tree f.rest ok.root ok.head;
          }))
          (omega (arith, ok.shorter)) (ap (λ l. in_order tl (op1 ∷ l)) ok.order) ok.quiet)

  -- After the operators that bind as tightly to the right are folded into the right side.
  after_right :
      (fuel : ℕ) (tl : Tree) (op1 : Expr) (tr : Tree) (s : List Expr) (bound m : ℕ)
      (log : List FoldDiag) (f : Folded)
      → bound + 2 ≤ fuel
      → (side (precedence_of op1) ≡ right_assoc) ⊎ K
      → FoldsAt fuel
      → LoopReady tl op1 tr s m
      → FoldOk (precedence_of op1) bound (in_order tr s) log f
      → Returns
          (fold_again (fold_sequence fuel) (binary_expr op1 (expr_of tl) f.expr) f.rest m f.log)
          (FoldOk m (bound + 2) (in_order tl (op1 ∷ in_order tr s)) log)
  after_right fuel tl op1 tr s bound m log f enough right folds ready ok =
      subst
        (λ e.
          Returns (fold_again (fold_sequence fuel) (binary_expr op1 (expr_of tl) e) f.rest m f.log)
            (FoldOk m (bound + 2) (in_order tl (op1 ∷ in_order tr s)) log))
        (sym ok.expr_eq)
        (widen m (length f.rest) (bound + 2) _ _ f.log log _
          (fold_again-FoldOk fuel (node op1 tl ok.tree) f.rest m f.log (omega (arith, ok.shorter))
            folds
            (record {
              tail = ok.tail;
              proper =
                  (ready.left, right_after op1 ok.tree ok.root right, ready.left_proper, ok.proper);
              root = ready.above;
              head =
                  HeadLt-HeadOk (precedence_of op1) (node op1 tl ok.tree) f.rest (omega arith)
                    ok.head;
            }))
          (omega (arith, ok.shorter)) (ap (λ l. in_order tl (op1 ∷ l)) ok.order) ok.quiet)

  loop_step-FoldOk :
      (fuel : ℕ) (c : Choice) (tl : Tree) (op1 : Expr) (tr : Tree) (op2 rhs2 : Expr) (s : List Expr)
      (m : ℕ) (log : List FoldDiag)
      → Meaning op1 op2 m c
      → length s + 2 ≤ fuel
      → FoldsAt fuel
      → LoopsAt fuel
      → LoopReady tl op1 tr (op2 ∷ rhs2 ∷ s) m
      → Returns
          (loop_step
            (fold_sequence fuel)
            (fold_loop fuel)
            c
            (expr_of tl)
            op1
            (expr_of tr)
            op2
            rhs2
            s
            m
            log)
          (FoldOk m (length s + 2) (in_order tl (op1 ∷ in_order tr (op2 ∷ rhs2 ∷ s))) log)
  loop_step-FoldOk fuel stop tl op1 tr op2 rhs2 s m log means enough folds loops ready = record {
    tree = node op1 tl tr;
    expr_eq = refl;
    order = refl;
    proper = joined-IsProper tl tr op1 (op2 ∷ rhs2 ∷ s) m ready;
    root = ready.above;
    head = means;
    tail = ready.tail;
    shorter = omega arith;
    quiet = inl refl;
  }
  loop_step-FoldOk fuel fold_left tl op1 tr op2 rhs2 s m log means enough folds loops ready =
      widen m (length s) (length s + 2) _ _ log log _
        (loops (node op1 tl tr) op2 (leaf rhs2) s m log (omega arith)
          (after_left tl tr op1 op2 rhs2 s m ready means))
        (omega arith) refl (inl refl)
  loop_step-FoldOk fuel fold_tighter tl op1 tr op2 rhs2 s m log means enough folds loops ready =
      let p1 = precedence_of op1 in
      Returns->>= (FoldOk (p1 + 1) (length s) (in_order tr (op2 ∷ rhs2 ∷ s)) log) _ _ _
        (widen (p1 + 1) (after_first (p1 + 1) (op2 ∷ rhs2 ∷ s)) (length s) _ _ log log _
          (folds tr (op2 ∷ rhs2 ∷ s) (p1 + 1) log (omega arith) (omega arith) (record {
            tail = ready.tail;
            proper = ready.right_proper;
            root = ready.right;
            head = ready.head;
          }))
          (ground (arith, means.1)) refl (inl refl))
        (λ f ok.
          after_tighter fuel tl op1 tr (op2 ∷ rhs2 ∷ s) (length s) m log f (omega arith) loops ready
            ok)
  loop_step-FoldOk fuel fold_right tl op1 tr op2 rhs2 s m log means enough folds loops ready =
      let p1 = precedence_of op1 in
      Returns->>= (FoldOk p1 (length s) (in_order tr (op2 ∷ rhs2 ∷ s)) log) _ _ _
        (widen p1 (after_first p1 (op2 ∷ rhs2 ∷ s)) (length s) _ _ log log _
          (folds tr (op2 ∷ rhs2 ∷ s) p1 log (omega arith) (omega arith) (record {
            tail = ready.tail;
            proper = ready.right_proper;
            root = RootGe-weaken (p1 + 1) p1 tr (omega arith) ready.right;
            head = ready.head;
          }))
          (ground (arith, means.2)) refl (inl refl))
        (λ f ok.
          after_right fuel tl op1 tr (op2 ∷ rhs2 ∷ s) (length s) m log f (omega arith)
            (left_side op1 right_assoc ready.agrees means.2) folds ready ok)
  loop_step-FoldOk fuel (conflict d) tl op1 tr op2 rhs2 s m log means enough folds loops ready =
      let k = no_conflict op1 op2 ready.agrees ready.tail.0 means.0 means.1 in
      rw (mismatched-conflict op1 op2 m d means) (
        widen m (after_first m (op2 ∷ rhs2 ∷ s)) (length s + 2) _ _ (log ++ d ∷ []) log _
          (folds (node op1 tl tr) (op2 ∷ rhs2 ∷ s) m (log ++ d ∷ []) (omega arith) (omega arith)
            (record {
              tail = ready.tail;
              proper = joined-IsProper tl tr op1 (op2 ∷ rhs2 ∷ s) m ready;
              root = ready.above;
              head = inr k;
            }))
          (ground arith) refl (inr k))

  mutual
    unfolding fold_sequence

    fold_sequence-FoldOk : (fuel : ℕ) → FoldsAt fuel
    fold_sequence-FoldOk zero tl s m log enough some_left ready = absurd (omega arith)
    fold_sequence-FoldOk (suc fuel) tl [] m log enough some_left ready = absurd (omega arith)
    fold_sequence-FoldOk (suc fuel) tl (op ∷ []) m log enough some_left ready = absurd ready.tail
    fold_sequence-FoldOk (suc fuel) tl (op ∷ rhs ∷ s) m log enough some_left ready =
        let even : (length (op ∷ rhs ∷ s) % 2 == 0) ≡ true =
          ground (arith, tail_even (op ∷ rhs ∷ s) ready.tail) in
        rw even (
          widen m _ _ _ _ (log ++ (get_infix_data op).1) log _
            (fold_step-FoldOk fuel (ltb (precedence_of op) m) tl op rhs s m
              (log ++ (get_infix_data op).1) refl (omega arith) (fold_loop-FoldOk fuel) ready)
            (omega arith) refl (quiet_head op log ready.tail.0))

    fold_loop-FoldOk : (fuel : ℕ) → LoopsAt fuel
    fold_loop-FoldOk zero tl op1 tr s m log enough ready = absurd (omega arith)
    fold_loop-FoldOk (suc fuel) tl op1 tr [] m log enough ready = record {
      tree = node op1 tl tr;
      expr_eq = refl;
      order = refl;
      proper = joined-IsProper tl tr op1 [] m ready;
      root = ready.above;
      head = tt;
      tail = tt;
      shorter = omega arith;
      quiet = inl refl;
    }
    fold_loop-FoldOk (suc fuel) tl op1 tr (op2 ∷ []) m log enough ready = absurd ready.tail
    fold_loop-FoldOk (suc fuel) tl op1 tr (op2 ∷ rhs2 ∷ s) m log enough ready =
        let even : (length (op2 ∷ rhs2 ∷ s) % 2 == 0) ≡ true =
          ground (arith, tail_even (op2 ∷ rhs2 ∷ s) ready.tail) in
        let above : leb m (precedence_of op1) ≡ true = ground (arith, ready.above) in
        rw even (
          rw above (
            widen m (length s + 2) _ _ _ (log ++ (get_infix_data op2).1) log _
              (loop_step-FoldOk fuel (choose op1 op2 m) tl op1 tr op2 rhs2 s m
                (log ++ (get_infix_data op2).1) (choose-means op1 op2 m) (omega arith)
                (fold_sequence-FoldOk fuel) (fold_loop-FoldOk fuel) ready)
              (omega arith) refl (quiet_head op2 log ready.tail.0)))

  -- The grouping of a whole sequence.
  pub record VisitOk (elements : List Expr) (r : Expr × List FoldDiag) : Type 0 where
    pub tree : Tree
    pub expr_eq : r.0 ≡ expr_of tree
    pub order : in_order tree [] ≡ elements
    pub proper : IsProper tree
    pub quiet : (r.1 ≡ []) ⊎ K

  FoldOk-VisitOk :
      (bound : ℕ) (elements : List Expr) (f : Folded)
      → FoldOk 0 bound elements [] f
      → Returns (if length f.rest == 0 then some (f.expr, f.log) else none) (VisitOk elements)
  FoldOk-VisitOk bound elements f ok =
      let e : f.rest ≡ [] = below_zero f.rest ok.head in
      rw e (record {
        tree = ok.tree;
        expr_eq = ok.expr_eq;
        order = subst (λ r. in_order ok.tree r ≡ elements) e ok.order;
        proper = ok.proper;
        quiet = ok.quiet;
      })
    where
      below_zero : (s : List Expr) → HeadLt 0 s → s ≡ []
      below_zero [] h = refl
      below_zero (op ∷ s) h = absurd (omega arith)

  visit-VisitOk :
      (lhs op rhs : Expr) (s : List Expr)
      → IsTail (op ∷ rhs ∷ s)
      → Returns (visit_sequence_expr (lhs ∷ op ∷ rhs ∷ s)) (VisitOk (lhs ∷ op ∷ rhs ∷ s))
  unfolding visit_sequence_expr
  visit-VisitOk lhs op rhs s tail =
      let even = tail_even (op ∷ rhs ∷ s) tail in
      Returns-if (VisitOk (lhs ∷ op ∷ rhs ∷ s))
        (length (op ∷ rhs ∷ s) == 0 || not (length (op ∷ rhs ∷ s) % 2 == 0)) none _
        (λ bad. absurd (ground arith))
        (λ fine.
          Returns->>= (FoldOk 0 (after_first 0 (op ∷ rhs ∷ s)) (lhs ∷ op ∷ rhs ∷ s) []) _ _ _
            (fold_sequence-FoldOk (length (op ∷ rhs ∷ s)) (leaf lhs) (op ∷ rhs ∷ s) 0 []
              (omega arith) (omega arith)
              (record { tail = tail; proper = tt; root = tt; head = tt }))
            (λ f ok. FoldOk-VisitOk (after_first 0 (op ∷ rhs ∷ s)) (lhs ∷ op ∷ rhs ∷ s) f ok))

even-IsTail : (s : List Expr) → length s % 2 ≡ 0 → IsTail (λ p. left_assoc) (Unit {0}) s
even-IsTail [] h = tt
even-IsTail (op ∷ []) h = absurd (omega arith)
even-IsTail (op ∷ e ∷ s) h = (inr tt, even-IsTail s (omega arith))

-- Every sequence of an odd number of elements, three at least, is folded, whatever its operators:
-- no assertion fails and the recursion ends. The result groups the elements into binary
-- expressions, and they stand in it from left to right as in the sequence, each once.
pub visit_sequence_expr-in_order :
    (lhs op rhs : Expr) (s : List Expr)
    → length s % 2 ≡ 0
    → Returns
        (visit_sequence_expr (lhs ∷ op ∷ rhs ∷ s))
        (λ r. (t : Tree) × (r.0 ≡ expr_of t) × (in_order t [] ≡ lhs ∷ op ∷ rhs ∷ s))
visit_sequence_expr-in_order lhs op rhs s even =
    Returns-weaken (VisitOk (λ p. left_assoc) (Unit {0}) (lhs ∷ op ∷ rhs ∷ s)) _ _
      (visit-VisitOk (λ p. left_assoc) (Unit {0}) lhs op rhs s (inr tt, even-IsTail s even))
      (λ r ok. (ok.tree, ok.expr_eq, ok.order))

-- If all operators of one precedence associate to the same side, as `side` says, and each
-- operator's infix data is found without a report, then the folding reports nothing, and in its
-- grouping every operator binds its operands properly: the topmost operator of a left operand
-- has a higher precedence, or the same one where that associates to the left, and of a right
-- operand a higher one, or the same one where that associates to the right.
pub visit_sequence_expr-IsProper :
    (side : ℕ → Associativity) (lhs op rhs : Expr) (s : List Expr)
    → IsTail side ⊥ (op ∷ rhs ∷ s)
    → Returns (visit_sequence_expr (lhs ∷ op ∷ rhs ∷ s)) (λ r.
      (r.1 ≡ [])
      × ((t : Tree) × (r.0 ≡ expr_of t) × (in_order t [] ≡ lhs ∷ op ∷ rhs ∷ s) × IsProper side ⊥ t))
visit_sequence_expr-IsProper side lhs op rhs s tail =
    Returns-weaken (VisitOk side ⊥ (lhs ∷ op ∷ rhs ∷ s)) _ _
      (visit-VisitOk side ⊥ lhs op rhs s tail)
      (λ r ok. (
        elim ok.quiet [ inl e ↦ e | inr k ↦ absurd k ],
        (ok.tree, ok.expr_eq, ok.order, ok.proper),
      ))
