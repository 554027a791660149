-- ===== src/SilGen/Tests.antt =====
-- Instances of the theorems on cleanups.
use b1c3995fdcf53d46308da.Base.{ℕ, ◌≡◌, refl, none, some, List, [], ◌∷◌, ◌++◌, Returns, arith}
use b1c3995fdcf53d46308da.SilGen.Cleanup.{
  Cleanup, CleanupManager, dormant, active, enter_scope, pop_scope, end_scope,
  emit_branch_and_cleanups,
}
use b1c3995fdcf53d46308da.SilGen.Cleanup.Scopes.{
  ended, pop_scope-enter_scope, emit_branch_and_cleanups-end_scope,
}

-- The generator is the list of what was emitted, the last one first.
abbrev emit : ℕ → List ℕ → List ℕ
emit code g = code ∷ g

abbrev manager : CleanupManager (List ℕ)
manager = record {
  stack = (record { state = active; code = 1 }) ∷ [];
  innermost_scope = 0;
  gen = [];
}

abbrev range : List Cleanup
range = (record { state = dormant; code = 3 }) ∷ (record { state = active; code = 2 }) ∷ []

pop_scope-enter_scope_example :
    pop_scope emit emit
      (enter_scope emit emit manager).0
      (record (enter_scope emit emit manager).1 { stack = range ++ manager.stack; gen = 7 ∷ [] })
    ≡ some (
      record { depth = none; saved_innermost_scope = 0 },
      ended emit emit range manager.stack
          (record manager { stack = range ++ manager.stack; gen = 7 ∷ [] }),
    )
pop_scope-enter_scope_example = pop_scope-enter_scope emit emit manager range (7 ∷ []) (omega arith)

emit_branch_and_cleanups-end_scope_example :
    Returns (end_scope emit emit 1 (record manager { stack = range ++ manager.stack })) (λ e.
      (e.stack ≡ manager.stack)
      × (emit_branch_and_cleanups emit emit 5 1 (record manager { stack = range ++ manager.stack })
          ≡ some (record manager { stack = range ++ manager.stack; gen = emit 5 e.gen })))
emit_branch_and_cleanups-end_scope_example =
    emit_branch_and_cleanups-end_scope emit emit 5 range manager.stack manager refl
