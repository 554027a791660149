-- ===== src/Sema/Tuples/Matching.antt =====
-- The matching of tuple types as a whole (matchTupleTypes of lib/Sema/TypeCheckConstraints.cpp).
use b1c3995fdcf53d46308da.Base.{
  ℕ, ◌==◌, ◌≡◌, ◌⊎◌, inl, inr, refl, ◌||◌, not, Bool, true, false, Option, none, some, ◌>>=◌, List,
  [], ◌∷◌, length, get_elem?, arith, Returns, Returns-if,
}
use b1c3995fdcf53d46308da.Sema.Tuples.{
  MatchKind, conversion, below_conversion, SolutionKind, trivially_solved, solved, unsolved, failed,
  Field, Source, unassigned, default_value, variadic, input, Sources, element_sources, after_match,
  name_conflict, vararg_conflict, match_equal, match_variadic, match_element_step, match_elements,
  match_sources, match_tuple_types,
}
use b1c3995fdcf53d46308da.Sema.Tuples.Shuffle.{
  IfSome, IsAssigned, AllAssigned, OnlyLastVariadic, Fits, AllFit, AllUnnamed, Shuffle,
  element_sources_shuffled,
}

-- An error, or else `Q`.
abbrev pub FailedOr : {S : Type 0} → Type 0 → SolutionKind × S → Type 0
FailedOr Q r = (r.0 ≡ failed) ⊎ Q

module _ {S : Type 0} (Q : Type 0) where
  after_match-Returns :
      (result : SolutionKind) (m : SolutionKind × S)
      (go : SolutionKind → S → Option (SolutionKind × S))
      → ((r : SolutionKind) (s : S) → Returns (go r s) (FailedOr Q))
      → Returns (after_match result m go) (FailedOr Q)
  after_match-Returns result (failed, s) go h = inl refl
  after_match-Returns result (trivially_solved, s) go h = h result s
  after_match-Returns result (solved, s) go h = h solved s
  after_match-Returns result (unsolved, s) go h = h unsolved s

module _ {T S : Type 0} (match_types : T → T → MatchKind → S → SolutionKind × S) (kind : MatchKind)
    (fields1 : List (Field T)) (Q : Type 0) where
  abbrev Go : Type 0
  Go = SolutionKind → S → Option (SolutionKind × S)

  match_equal-Returns :
      (rest1 rest2 : List (Field T)) (result : SolutionKind) (s : S)
      → length rest1 ≡ length rest2
      → Q
      → Returns (match_equal match_types kind fields1 rest1 rest2 result s) (FailedOr Q)
  unfolding match_equal
  match_equal-Returns [] [] result s same q = inr q
  match_equal-Returns [] (e ∷ rest2) result s same q = absurd (omega arith)
  match_equal-Returns (e ∷ rest1) [] result s same q = absurd (omega arith)
  match_equal-Returns (e1 ∷ rest1) (e2 ∷ rest2) result s same q =
      step (name_conflict match_types kind fields1 e1 e2 || vararg_conflict match_types e1 e2)
        (λ r s'. match_equal-Returns rest1 rest2 r s' (omega arith) q)
    where
      step :
          (b : Bool)
          → ((r : SolutionKind) (s : S)
              → Returns (match_equal match_types kind fields1 rest1 rest2 r s) (FailedOr Q))
          → Returns
              (elim b as (λ b. Option (SolutionKind × S)) [
                | true ↦ some (failed, s)
                | false ↦
                    after_match result
                      (match_types e1.type e2.type kind s)
                      (match_equal match_types kind fields1 rest1 rest2)
              ])
              (FailedOr Q)
      step true h = inl refl
      step false h = after_match-Returns Q result (match_types e1.type e2.type kind s) _ h

  input-Returns :
      (k : ℕ) (f : Field T) (go : Field T → Option (SolutionKind × S))
      → get_elem? fields1 k ≡ some f
      → ((f : Field T) → Returns (go f) (FailedOr Q))
      → Returns (get_elem? fields1 k >>= go) (FailedOr Q)
  input-Returns k f go at h = rw at (h f)

  match_variadic-Returns :
      (base : T) (arguments : List ℕ) (result : SolutionKind) (s : S) (go : Go)
      → AllUnnamed fields1 arguments
      → ((r : SolutionKind) (s : S) → Returns (go r s) (FailedOr Q))
      → Returns (match_variadic match_types kind fields1 base arguments result s go) (FailedOr Q)
  unfolding match_variadic
  match_variadic-Returns base [] result s go all h = h result s
  match_variadic-Returns base (k ∷ arguments) result s go ((f, at, unnamed), all) h =
      input-Returns k f _ at (λ e1.
        after_match-Returns Q result (match_types e1.type base kind s) _
          (λ r s'. match_variadic-Returns base arguments r s' go all h))

  match_element_step-Returns :
      (go : Go) (arguments : List ℕ) (e : Field T) (source : Source) (result : SolutionKind) (s : S)
      → Fits fields1 e source
      → IsAssigned source
      → AllUnnamed fields1 arguments
      → ((r : SolutionKind) (s : S) → Returns (go r s) (FailedOr Q))
      → Returns
          (match_element_step match_types go kind fields1 arguments e source result s)
          (FailedOr Q)
  unfolding match_element_step
  match_element_step-Returns go arguments e unassigned result s fits is all h = absurd is
  match_element_step-Returns go arguments e default_value result s fits is all h =
      rw fits (h result s)
  match_element_step-Returns go arguments e variadic result s (base, at) is all h =
      rw at (match_variadic-Returns base arguments result s go all h)
  match_element_step-Returns go arguments e (input k) result s (f, at, named) is all h =
      input-Returns k f _ at
        (λ e1. after_match-Returns Q result (match_types e1.type e.type conversion s) go h)

  match_elements-Returns :
      (arguments : List ℕ) (elements : List (Field T × Source)) (result : SolutionKind) (s : S)
      → AllFit fields1 elements
      → AllAssigned elements
      → AllUnnamed fields1 arguments
      → Q
      → Returns (match_elements match_types kind fields1 arguments elements result s) (FailedOr Q)
  unfolding match_elements
  match_elements-Returns arguments [] result s fit is all q = inr q
  match_elements-Returns arguments ((e, source) ∷ elements) result s fit is all q =
      match_element_step-Returns (match_elements match_types kind fields1 arguments elements)
        arguments e source result s fit.0 is.0 all
        (λ r s'. match_elements-Returns arguments elements r s' fit.1 is.1 all q)

module _ {T S : Type 0} (match_types : T → T → MatchKind → S → SolutionKind × S) where
  -- What a match that is no error says of the two tuples.
  abbrev pub Matches : MatchKind → List (Field T) → List (Field T) → Type 0
  Matches kind fields1 fields2 =
      ((below_conversion kind ≡ true) × (length fields1 ≡ length fields2))
      ⊎ ((below_conversion kind ≡ false)
          × (r : Sources T) × (element_sources fields1 fields2 ≡ some r)
          × Shuffle fields1 fields2 r)

  match_sources-Returns :
      (kind : MatchKind) (fields1 fields2 : List (Field T)) (m : Option (Sources T)) (s : S)
      → below_conversion kind ≡ false
      → element_sources fields1 fields2 ≡ m
      → OnlyLastVariadic fields2
      → IfSome m (Shuffle fields1 fields2)
      → Returns
          (match_sources match_types kind fields1 m s)
          (FailedOr (Matches kind fields1 fields2))
  unfolding match_sources
  match_sources-Returns kind fields1 fields2 none s above e only h = inl refl
  match_sources-Returns kind fields1 fields2 (some r) s above e only h =
      match_elements-Returns match_types kind fields1 (Matches kind fields1 fields2)
        r.variadic_arguments r.elements trivially_solved s h.fit (h.assigned only) h.unnamed
        (inr (above, r, e, h))

  -- If only the last element of the second tuple may be variadic, `matchTupleTypes` returns,
  -- whatever the elements' types and their comparisons are: no assertion fails. The result
  -- is an error, or else the tuples have the same size, for equality and subtyping, or there is a
  -- shuffle that gives each element of the second tuple a source and uses all inputs, for a
  -- conversion or construction.
  pub match_tuple_types-Matches :
      (fields1 fields2 : List (Field T)) (kind : MatchKind) (s : S)
      → OnlyLastVariadic fields2
      → Returns
          (match_tuple_types match_types fields1 fields2 kind s)
          (FailedOr (Matches kind fields1 fields2))
  unfolding match_tuple_types
  match_tuple_types-Matches fields1 fields2 kind s only =
      Returns-if (FailedOr (Matches kind fields1 fields2)) (below_conversion kind) _ _
        (λ below.
          Returns-if (FailedOr (Matches kind fields1 fields2))
            (not (length fields1 == length fields2)) _ _ (λ differ. inl refl)
            (λ equal.
              let sizes : length fields1 ≡ length fields2 = ground arith in
              match_equal-Returns match_types kind fields1 (Matches kind fields1 fields2) fields1
                fields2 trivially_solved s sizes (inl (below, sizes))))
        (λ above.
          match_sources-Returns kind fields1 fields2 (element_sources fields1 fields2) s above refl
            only (element_sources_shuffled fields1 fields2))
