-- ===== src/Sema/Ranking/Best.antt =====
-- What the choice of the best solution promises.
use b1c3995fdcf53d46308da.Base.{
  ℕ, ◌==◌, ==_iff, ◌≡◌, refl, ◌∙◌, subst, true, some, List, [], ◌∷◌, arith, ◌⊎◌, inl, inr,
  Bool-cases,
}
use b1c3995fdcf53d46308da.Sema.Ranking.{
  CompareResult, incomparable, identical, better, worse, candidate_step, is_beaten, candidate,
  beats_all, find_best_solution,
}

abbrev pub IsIn : ℕ → List ℕ → Type 0
IsIn x [] = ⊥
IsIn x (y ∷ l) = (x ≡ y) ⊎ IsIn x l

-- The solution is at least as good as every other one.
abbrev pub Beats : (ℕ → ℕ → CompareResult) → ℕ → List ℕ → Type 0
Beats compare b [] = Unit {0}
Beats compare b (cs ∷ viable) =
    ((b ≡ cs) ⊎ ((compare b cs ≡ better) ⊎ (compare b cs ≡ identical))) × Beats compare b viable

module _ (compare : ℕ → ℕ → CompareResult) where
  candidate_step-is :
      (cs best : ℕ) (r : CompareResult)
      → (candidate_step cs best r ≡ cs) ⊎ (candidate_step cs best r ≡ best)
  candidate_step-is cs best better = inl refl
  candidate_step-is cs best identical = inr refl
  candidate_step-is cs best incomparable = inr refl
  candidate_step-is cs best worse = inr refl

  candidate-IsIn :
      (best : ℕ) (viable : List ℕ) → IsIn (candidate compare best viable) (best ∷ viable)
  unfolding candidate
  candidate-IsIn best [] = inl refl
  candidate-IsIn best (cs ∷ viable) =
      let next = candidate_step cs best (compare cs best) in
      elim (candidate-IsIn next viable) [
        | inl at ↦ elim (candidate_step-is cs best (compare cs best)) [
          | inl new ↦ inr (inl (at ∙ new))
          | inr old ↦ inl (at ∙ old)
        ]
        | inr later ↦ inr (inr later)
      ]

  is_beaten-Beats : (r : CompareResult) → is_beaten r ≡ true → (r ≡ better) ⊎ (r ≡ identical)
  is_beaten-Beats better h = inl refl
  is_beaten-Beats identical h = inr refl
  is_beaten-Beats incomparable h = absurd (cc)
  is_beaten-Beats worse h = absurd (cc)

  beats_all-Beats :
      (b : ℕ) (viable : List ℕ) → beats_all compare b viable ≡ true → Beats compare b viable
  unfolding beats_all
  beats_all-Beats b [] h = tt
  beats_all-Beats b (cs ∷ viable) h = (
    elim (Bool-cases (b == cs)) [
      | inl same ↦ inl ((==_iff b cs).0 same)
      | inr other ↦ inr (is_beaten-Beats (compare b cs) (ground arith))
    ],
    beats_all-Beats b viable (ground arith),
  )

  -- What `findBestSolution` returns is one of the solutions, and it is at least as good as
  -- every other one.
  pub find_best_solution-Beats :
      (viable : List ℕ) (b : ℕ)
      → find_best_solution compare viable ≡ some b
      → IsIn b viable × Beats compare b viable
  unfolding find_best_solution
  find_best_solution-Beats [] b e = absurd (cc)
  find_best_solution-Beats (cs ∷ []) b e = let same : b ≡ cs = cc in (inl same, (inl same, tt))
  find_best_solution-Beats (cs ∷ cs2 ∷ viable) b e =
      elim (Bool-cases
        (beats_all compare (candidate compare cs (cs2 ∷ viable)) (cs ∷ cs2 ∷ viable))) [
          | inl wins ↦
              let same : candidate compare cs (cs2 ∷ viable) ≡ b = ground arith in
              subst (λ b. IsIn b (cs ∷ cs2 ∷ viable) × Beats compare b (cs ∷ cs2 ∷ viable)) same
                (
                  candidate-IsIn cs (cs2 ∷ viable),
                  beats_all-Beats (candidate compare cs (cs2 ∷ viable)) (cs ∷ cs2 ∷ viable) wins,
                )
          | inr loses ↦ absurd (ground arith)
        ]
