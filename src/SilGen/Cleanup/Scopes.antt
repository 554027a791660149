-- ===== src/SilGen/Cleanup/Scopes.antt =====
-- What a scope's cleanups do when the scope ends or a branch leaves it.
use b1c3995fdcf53d46308da.Base.{
  Bool, ℕ, zero, suc, ◌+◌, ◌-◌, ◌<◌, ◌≤◌, ◌≡◌, refl, ap, ◌∙◌, true, false, leb, ◌==◌, if◌then◌else◌,
  none, some, ◌>>=◌, List, [], ◌∷◌, ◌++◌, length, length-append, take, arith, iterate,
  iterate-again, iterate-done, again, Returns, Bool-cases, inl, inr,
}
use b1c3995fdcf53d46308da.SilGen.Cleanup.{
  Cleanup, CleanupManager, CleanupState, dormant, active, dead, has_any_active_cleanups, emit_all,
  end_scope, end_scope_round, pop_and_emit_top_cleanup, enter_scope, pop_scope, kill_top,
  emit_branch_and_cleanups,
}

take-append : {A : Type 0} (xs ys : List A) → take (length (xs ++ ys) - length ys) (xs ++ ys) ≡ xs
take-append xs ys =
    let e : length (xs ++ ys) - length ys ≡ length xs = omega (arith, length-append xs ys) in
    rw e (take-length xs ys)
  where
    take-length : {A : Type 0} (xs ys : List A) → take (length xs) (xs ++ ys) ≡ xs
    take-length [] ys = refl
    take-length (x ∷ xs) ys = ap (◌∷◌ x) (take-length xs ys)

-- Whether one of the cleanups is active, neither dormant nor dead.
abbrev pub is_one_active : List Cleanup → Bool
is_one_active [] = false
is_one_active (c ∷ range) = elim c.state [
  | active ↦ true
  | dormant ↦ is_one_active range
  | dead ↦ is_one_active range
]

has_any_active_cleanups-is_one_active :
    (range : List Cleanup) → has_any_active_cleanups range ≡ is_one_active range
has_any_active_cleanups-is_one_active [] = refl
has_any_active_cleanups-is_one_active (c ∷ range) =
    by_state c.state (has_any_active_cleanups-is_one_active range)
  where
    by_state :
        (s : CleanupState)
        → has_any_active_cleanups range ≡ is_one_active range
        → has_any_active_cleanups ((record { state = s; code = c.code }) ∷ range)
          ≡ is_one_active ((record { state = s; code = c.code }) ∷ range)
    by_state active same = refl
    by_state dormant same = same
    by_state dead same = same

module _ {G : Type 0} (emit : ℕ → G → G) (create_branch : ℕ → G → G) where
  -- What the end of a scope comes to: its cleanups run from the innermost one, if one is active.
  abbrev pub ended : List Cleanup → List Cleanup → CleanupManager G → CleanupManager G
  ended range below m =
      if is_one_active range
      then (record m { stack = below; gen = emit_all emit create_branch range m.gen })
      else m

  end_scope_round-push :
      (c : Cleanup) (range below : List Cleanup) (m : CleanupManager G)
      → end_scope_round emit create_branch (length below) (record m { stack = c ∷ range ++ below })
        ≡ some (again (record m { stack = range ++ below; gen = emit c.code m.gen }))
  unfolding end_scope_round pop_and_emit_top_cleanup
  end_scope_round-push c range below m =
      let more : (suc (length (range ++ below)) == length below) ≡ false =
        ground (arith, length-append range below) in
      rw more (ap (λ o. o >>= λ m'. some (again m')) (popped c.state))
    where
      popped :
          (s : CleanupState)
          → pop_and_emit_top_cleanup emit create_branch (record m {
            stack =
                kill_top emit create_branch
                  ((record { state = s; code = c.code }) ∷ range ++ below);
          })
            ≡ some (record m { stack = range ++ below; gen = emit c.code m.gen })
      popped dormant = refl
      popped active = refl
      popped dead = refl

  end_scope_loop :
      (fuel : ℕ) (range below : List Cleanup) (m : CleanupManager G)
      → length range < fuel
      → iterate fuel
          (end_scope_round emit create_branch (length below))
          (record m { stack = range ++ below })
        ≡ some (record m { stack = below; gen = emit_all emit create_branch range m.gen })
  unfolding end_scope_round
  end_scope_loop zero range below m enough = absurd (omega arith)
  end_scope_loop (suc fuel) [] below m enough =
      let same : (length below == length below) ≡ true = ground arith in
      iterate-done fuel _ (record m { stack = below }) (record m { stack = below }) (rw same refl)
  end_scope_loop (suc fuel) (c ∷ range) below m enough =
      iterate-again fuel _ (record m { stack = c ∷ range ++ below })
        (record m { stack = range ++ below; gen = emit c.code m.gen })
        (end_scope_round-push c range below m)
      ∙ end_scope_loop fuel range below (record m { gen = emit c.code m.gen }) (omega arith)

  end_scope-ended :
      (range below : List Cleanup) (m : CleanupManager G)
      → end_scope emit create_branch (length below) (record m { stack = range ++ below })
        ≡ some (ended range below (record m { stack = range ++ below }))
  unfolding end_scope
  end_scope-ended range below m =
      let inside : leb (length below) (length (range ++ below)) ≡ true =
        ground (arith, length-append range below) in
      let loop =
        end_scope_loop (length (range ++ below) + 1) range below m
          (omega (arith, length-append range below)) in
      rw inside (
        rw (take-append range below) (
          rw (has_any_active_cleanups-is_one_active range)
            (elim (Bool-cases (is_one_active range)) [
              | inl some_active ↦ rw some_active loop
              | inr idle ↦ rw idle refl
            ])))

  -- A scope that is entered and popped with cleanups pushed in between, of any states: if one of
  -- them is active, all of them run, the innermost one first, and the stack is as it was; if none
  -- is, none runs, and they stay on the stack. The innermost scope is the one around it again, and
  -- the scope counts as popped.
  pub pop_scope-enter_scope :
      (m : CleanupManager G) (range : List Cleanup) (g : G)
      → m.innermost_scope ≤ length m.stack
      → pop_scope emit create_branch
          (enter_scope emit create_branch m).0
          (record (enter_scope emit create_branch m).1 { stack = range ++ m.stack; gen = g })
        ≡ some (
          record { depth = none; saved_innermost_scope = m.innermost_scope },
          ended range m.stack (record m { stack = range ++ m.stack; gen = g }),
        )
  unfolding pop_scope enter_scope
  pop_scope-enter_scope m range g inside =
      let same : (length m.stack == length m.stack) ≡ true = ground arith in
      let n : CleanupManager G = record m { gen = g } in
      rw same (
        rw (end_scope-ended range m.stack n) (elim (Bool-cases (is_one_active range)) [
          | inl some_active ↦
              let ok : leb m.innermost_scope (length m.stack) ≡ true = ground arith in
              rw some_active (rw ok refl)
          | inr idle ↦
              let ok : leb m.innermost_scope (length (range ++ m.stack)) ≡ true =
                ground (arith, length-append range m.stack) in
              rw idle (rw ok refl)
        ]))

  -- A branch out of the scope runs the cleanups that the scope's end runs when one is active, in the
  -- same order, then the branch is made, and the stack stays as it is.
  pub emit_branch_and_cleanups-end_scope :
      (block : ℕ) (range below : List Cleanup) (m : CleanupManager G)
      → is_one_active range ≡ true
      → Returns
          (end_scope emit create_branch (length below) (record m { stack = range ++ below }))
          (λ e.
            (e.stack ≡ below)
            × (emit_branch_and_cleanups emit create_branch block
                  (length below)
                  (record m { stack = range ++ below })
                ≡ some (record m { stack = range ++ below; gen = create_branch block e.gen })))
  unfolding emit_branch_and_cleanups
  emit_branch_and_cleanups-end_scope block range below m some_active =
      let inside : leb (length below) (length (range ++ below)) ≡ true =
        ground (arith, length-append range below) in
      rw (end_scope-ended range below m)
        (rw some_active (refl, rw inside (rw (take-append range below) refl)))
