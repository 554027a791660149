-- ===== src/Sema/Tuples/Positional.antt =====
-- Tuples without names (matchTupleTypes of lib/Sema/TypeCheckConstraints.cpp).
use b1c3995fdcf53d46308da.Base.{
  ℕ, zero, suc, ◌+◌, ◌==◌, ◌≤◌, ◌<◌, ◌≡◌, ◌⊎◌, inl, inr, refl, sym, ap, ◌∙◌, subst, ◌||◌, not, Bool,
  true, false, Option, none, some, List, [], ◌∷◌, map, length, arith, Bool-cases, Returns,
}
use b1c3995fdcf53d46308da.Sema.Tuples.{
  Field, Source, unassigned, default_value, input, consume, Sources, find_named, match_named,
  skip_to_next_unnamed, cons_source, Resolve, default_or_error, resolve_plain, resolve_vararg,
  resolve, all_consumed, check_consumed, element_sources,
}

-- Nothing from `n` on is consumed.
abbrev IsFresh : (ℕ → Bool) → ℕ → Type 0
IsFresh consumed n = (j : ℕ) → n ≤ j → consumed j ≡ false

IsFresh-consume :
    (consumed : ℕ → Bool) (n : ℕ) → IsFresh consumed n → IsFresh (consume consumed n) (n + 1)
IsFresh-consume consumed n h =
    λ j le. let old : consumed j ≡ false = h j (omega arith) in ground arith

consume-lt :
    (consumed : ℕ → Bool) (n k : ℕ)
    → k < n + 1
    → ((k : ℕ) → k < n → consumed k ≡ true)
    → consume consumed n k ≡ true
consume-lt consumed n k lt done = elim (Bool-cases (k == n)) [
  | inl same ↦ ground arith
  | inr other ↦ let old : consumed k ≡ true = done k (ground arith) in ground arith
]

all_consumed-true :
    (consumed : ℕ → Bool) (n : ℕ)
    → ((k : ℕ) → k < n → consumed k ≡ true)
    → all_consumed consumed n ≡ true
unfolding all_consumed
all_consumed-true consumed zero h = refl
all_consumed-true consumed (suc n) h =
    rw (h n (omega arith)) (all_consumed-true consumed n (λ k lt. h k (omega arith)))

module _ {T : Type 0} where
  -- No element has a name, no element of the second tuple is variadic, and each of its
  -- elements behind the inputs has a default value.
  abbrev pub IsPositional : List (Field T) → List (Field T) → Type 0
  IsPositional [] [] = Unit {0}
  IsPositional (f ∷ fields1) [] = ⊥
  IsPositional [] (e ∷ fields2) =
      (e.name ≡ 0) × (e.vararg_base_ty ≡ none) × (e.has_init ≡ true) × IsPositional [] fields2
  IsPositional (f ∷ fields1) (e ∷ fields2) =
      (e.name ≡ 0) × (e.vararg_base_ty ≡ none) × (f.name ≡ 0) × IsPositional fields1 fields2

  -- The inputs from `n` on in their order, then default values.
  abbrev pub positional : ℕ → List (Field T) → List (Field T) → List (Field T × Source)
  positional n fields1 [] = []
  positional n [] (e ∷ fields2) = (e, default_value) ∷ positional n [] fields2
  positional n (f ∷ fields1) (e ∷ fields2) = (e, input n) ∷ positional (n + 1) fields1 fields2

  abbrev open_elements : List (Field T) → List (Field T × Source)
  open_elements fields2 = map (λ e. (e, unassigned)) fields2

  match_named-open_elements :
      (all fields1 fields2 : List (Field T)) (consumed : ℕ → Bool)
      → IsPositional fields1 fields2
      → match_named all fields2 consumed ≡ (open_elements fields2, consumed)
  unfolding match_named
  match_named-open_elements all fields1 [] consumed h = refl
  match_named-open_elements all [] (e ∷ fields2) consumed (empty, plain, has, h) =
      let no_name : find_named all e ≡ none = ground arith in
      rw no_name (rw (match_named-open_elements all [] fields2 consumed h) refl)
  match_named-open_elements all (f ∷ fields1) (e ∷ fields2) consumed (empty, plain, unnamed, h) =
      let no_name : find_named all e ≡ none = ground arith in
      rw no_name (rw (match_named-open_elements all fields1 fields2 consumed h) refl)

  skip_fresh :
      (consumed : ℕ → Bool) (n : ℕ) (f : Field T) (fields : List (Field T))
      → IsFresh consumed n
      → f.name ≡ 0
      → skip_to_next_unnamed consumed n (f ∷ fields) ≡ (n, f ∷ fields)
  unfolding skip_to_next_unnamed
  skip_fresh consumed n f fields h unnamed =
      let stops : (consumed n || not (f.name == 0)) ≡ false = ground (arith, h n (omega arith)) in
      rw (stops, skip_to_next_unnamed) refl

  skip_consumed :
      (consumed : ℕ → Bool) (n : ℕ) (f : Field T) (fields : List (Field T))
      → skip_to_next_unnamed (consume consumed n) n (f ∷ fields)
        ≡ skip_to_next_unnamed (consume consumed n) (n + 1) fields
  unfolding skip_to_next_unnamed
  skip_consumed consumed n f fields =
      let skipped : (consume consumed n n || not (f.name == 0)) ≡ true = ground arith in
      rw (skipped, skip_to_next_unnamed) refl

  -- The elements are resolved by position, and the inputs from `n` to `m` are consumed.
  record ByPosition (elements : List (Field T × Source)) (consumed : ℕ → Bool) (m : ℕ)
      (r : Sources T) : Type 0 where
    same : r.elements ≡ elements
    none_left : r.variadic_arguments ≡ []
    taken : (k : ℕ) → (consumed k ≡ true) ⊎ (k < m) → r.consumed k ≡ true

  cons_source-ByPosition :
      (e : Field T) (source : Source) (elements : List (Field T × Source))
      (consumed consumed' : ℕ → Bool) (m m' : ℕ) (o : Option (Sources T))
      → m' ≡ m
      → ((k : ℕ) → consumed k ≡ true → consumed' k ≡ true)
      → Returns o (ByPosition elements consumed' m')
      → Returns (cons_source e source o) (ByPosition ((e, source) ∷ elements) consumed m)
  cons_source-ByPosition e source elements consumed consumed' m m' none same grows h = absurd h
  cons_source-ByPosition e source elements consumed consumed' m m' (some r) same grows h = record {
    same = ap (◌∷◌ (e, source)) h.same;
    none_left = h.none_left;
    taken = λ k reason. elim reason [
      | inl old ↦ h.taken k (inl (grows k old))
      | inr lt ↦ h.taken k (inr (omega arith))
    ];
  }

  by_default :
      (go : Resolve T) (e : Field T) (elements : List (Field T × Source)) (n : ℕ)
      (consumed : ℕ → Bool)
      → e.vararg_base_ty ≡ none
      → e.has_init ≡ true
      → resolve_vararg go e elements e.vararg_base_ty (n, []) consumed
        ≡ cons_source e default_value (go (n, []) consumed)
  by_default go e elements n consumed plain has =
      ap (λ v. resolve_vararg go e elements v (n, []) consumed) plain
      ∙ ap (λ b. default_or_error b (cons_source e default_value (go (n, []) consumed))) has

  by_input :
      (go : Resolve T) (e : Field T) (elements : List (Field T × Source)) (n : ℕ)
      (consumed : ℕ → Bool) (f : Field T) (fields : List (Field T))
      → e.vararg_base_ty ≡ none
      → f.name ≡ 0
      → IsFresh consumed n
      → resolve_vararg go e elements e.vararg_base_ty
          (skip_to_next_unnamed consumed n (f ∷ fields))
          consumed
        ≡ cons_source e
            (input n)
            (go (skip_to_next_unnamed (consume consumed n) (n + 1) fields) (consume consumed n))
  by_input go e elements n consumed f fields plain unnamed fresh =
      ap
        (λ v.
          resolve_vararg go e elements v (skip_to_next_unnamed consumed n (f ∷ fields)) consumed)
        plain
      ∙ ap (λ next. resolve_plain go e next consumed) (skip_fresh consumed n f fields fresh unnamed)
      ∙ ap (λ next. cons_source e (input n) (go next (consume consumed n)))
          (skip_consumed consumed n f fields)

  resolve-ByPosition :
      (fields1 fields2 : List (Field T)) (n : ℕ) (consumed : ℕ → Bool)
      → IsPositional fields1 fields2
      → IsFresh consumed n
      → ((k : ℕ) → k < n → consumed k ≡ true)
      → Returns
          (resolve (open_elements fields2) (skip_to_next_unnamed consumed n fields1) consumed)
          (ByPosition (positional n fields1 fields2) consumed (n + length fields1))
  unfolding resolve
  resolve-ByPosition [] [] n consumed h fresh done = record {
    same = refl;
    none_left = refl;
    taken = λ k e. elim e [ inl old ↦ old | inr lt ↦ done k (omega arith) ];
  }
  resolve-ByPosition (f ∷ fields1) [] n consumed h fresh done = absurd h
  resolve-ByPosition [] (e ∷ fields2) n consumed (empty, plain, has, h) fresh done =
      subst (λ o. Returns o (ByPosition (positional n [] (e ∷ fields2)) consumed (n + 0)))
        (sym (
          by_default (resolve (open_elements fields2)) e (open_elements fields2) n consumed plain
            has))
        (cons_source-ByPosition e default_value (positional n [] fields2) consumed consumed (n + 0)
          (n + 0) (resolve (open_elements fields2) (n, []) consumed) refl (λ k old. old)
          (unfold skip_to_next_unnamed in resolve-ByPosition [] fields2 n consumed h fresh done))
  resolve-ByPosition (f ∷ fields1) (e ∷ fields2) n consumed (empty, plain, unnamed, h) fresh done =
      let taken = consume consumed n in
      subst
        (λ o. Returns o (
          ByPosition (positional n (f ∷ fields1) (e ∷ fields2)) consumed
            (n + suc (length fields1))))
        (sym (
          by_input (resolve (open_elements fields2)) e (open_elements fields2) n consumed f fields1
            plain unnamed fresh))
        (cons_source-ByPosition e (input n) (positional (n + 1) fields1 fields2) consumed taken
          (n + suc (length fields1)) ((n + 1) + length fields1)
          (resolve (open_elements fields2) (skip_to_next_unnamed taken (n + 1) fields1) taken)
          (omega arith) (λ k old. ground arith)
          (resolve-ByPosition fields1 fields2 (n + 1) taken h (IsFresh-consume consumed n fresh)
            (λ k lt. consume-lt consumed n k lt done)))

  check_consumed-ByPosition :
      (elements : List (Field T × Source)) (consumed : ℕ → Bool) (n : ℕ) (o : Option (Sources T))
      → Returns o (ByPosition elements consumed (0 + n))
      → Returns (check_consumed n o) (λ r. (r.elements ≡ elements) × (r.variadic_arguments ≡ []))
  check_consumed-ByPosition elements consumed n none h = absurd h
  check_consumed-ByPosition elements consumed n (some r) h =
      rw (all_consumed-true r.consumed n (λ k lt. h.taken k (inr (omega arith))))
        (h.same, h.none_left)

  -- Tuples without names are converted by position: if no element of the target is variadic and
  -- there are inputs for all its elements, or default values for the last of them, and no more
  -- inputs, then the shuffle takes the inputs in their order, then the default values.
  pub element_sources-positional :
      (fields1 fields2 : List (Field T))
      → IsPositional fields1 fields2
      → Returns
          (element_sources fields1 fields2)
          (λ r. (r.elements ≡ positional 0 fields1 fields2) × (r.variadic_arguments ≡ []))
  unfolding element_sources
  element_sources-positional fields1 fields2 h =
      rw (match_named-open_elements fields1 fields1 fields2 (λ n. false) h) (
        check_consumed-ByPosition (positional 0 fields1 fields2) (λ n. false) (length fields1)
          (resolve (open_elements fields2) (skip_to_next_unnamed (λ n. false) 0 fields1)
            (λ n. false))
          (resolve-ByPosition fields1 fields2 0 (λ n. false) h (λ j le. refl)
            (λ k lt. absurd (omega arith))))
