-- ===== src/Sema/Ranking.antt =====
-- The choice of the best solution of the constraint solver (lib/Sema/TypeCheckConstraints.cpp). A
-- constraint system is its address; `compare` stands for `compareSolutions`, which is not modelled.
pub mod Best
use b1c3995fdcf53d46308da.Base.{
  ℕ, ◌==◌, ◌&&◌, ◌||◌, not, Bool, true, false, if◌then◌else◌, Option, none, some, List, [], ◌∷◌,
}

-- `SolutionCompareResult`
pub data CompareResult : Type 0 where
  incomparable identical better worse : CompareResult

-- The first loop of `findBestSolution` at a system, by its comparison with the best so far.
abbrev pub candidate_step : ℕ → ℕ → CompareResult → ℕ
candidate_step cs best better = cs
candidate_step cs best identical = best
candidate_step cs best incomparable = best
candidate_step cs best worse = best

-- The test of the second loop.
abbrev pub is_beaten : CompareResult → Bool
is_beaten identical = true
is_beaten better = true
is_beaten incomparable = false
is_beaten worse = false

module _ (compare : ℕ → ℕ → CompareResult) where
  -- The first loop, from the best so far.
  unfoldable pub candidate : ℕ → List ℕ → ℕ
  candidate best [] = best
  candidate best (cs ∷ viable) = candidate (candidate_step cs best (compare cs best)) viable

  -- The second loop: the candidate is better than all others.
  unfoldable pub beats_all : ℕ → List ℕ → Bool
  beats_all best [] = true
  beats_all best (cs ∷ viable) =
      (best == cs || is_beaten (compare best cs)) && beats_all best viable

  -- `findBestSolution`; nothing for the null pointer.
  unfoldable pub find_best_solution : List ℕ → Option ℕ
  unfolding candidate beats_all
  find_best_solution [] = none
  find_best_solution (cs ∷ []) = some cs
  find_best_solution (cs ∷ cs2 ∷ viable) =
      let best = candidate cs (cs2 ∷ viable) in
      if beats_all best (cs ∷ cs2 ∷ viable) then some best else none
