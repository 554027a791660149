-- ===== src/SilGen/Cleanup.antt =====
-- lib/SIL/SILGen/Cleanup.cpp and Cleanup.h: the stack of cleanups. A cleanup is its state and a
-- number that tells what it emits; a depth is the height of the stack below. `emit` and
-- `create_branch` stand for the virtual `Cleanup::emit` and the builder's `createBranch`.
pub mod Scopes
use b1c3995fdcf53d46308da.Base.{
  ℕ, ◌-◌, Bool, true, false, not, leb, ◌==◌, ◌||◌, if◌then◌else◌, Option, none, some, ◌>>=◌, List,
  [], ◌∷◌, length, take, Step, again, done, iterate, ◌+◌,
}

pub data CleanupState : Type 0 where
  dormant active dead : CleanupState

pub record Cleanup : Type 0 where
  pub state : CleanupState
  pub code : ℕ

-- `isActive` and `isDead`
abbrev pub is_active : Cleanup → Bool
is_active c = elim c.state [ active ↦ true | _ ↦ false ]

abbrev pub is_dead : Cleanup → Bool
is_dead c = elim c.state [ dead ↦ true | _ ↦ false ]

-- `setCleanupState`
abbrev pub set_cleanup_state : CleanupState → Cleanup → Cleanup
set_cleanup_state state c = record c { state = state }

-- `hasAnyActiveCleanups`, on the cleanups of the range.
abbrev pub has_any_active_cleanups : List Cleanup → Bool
has_any_active_cleanups [] = false
has_any_active_cleanups (c ∷ range) = is_active c || has_any_active_cleanups range

-- The manager: the stack from its top, the innermost scope's depth, and the code generator.
pub record CleanupManager (G : Type 0) : Type 0 where
  pub stack : List Cleanup
  pub innermost_scope : ℕ
  pub gen : G

-- `Scope`: its depth, nothing once it is popped, and the scope around it.
pub record Scope : Type 0 where
  pub depth : Option ℕ
  pub saved_innermost_scope : ℕ

module _ {G : Type 0} (emit : ℕ → G → G) (create_branch : ℕ → G → G) where
  -- `pushCleanupInState`, whose assertion refuses a dead cleanup.
  unfoldable pub push_cleanup_in_state :
      CleanupState → ℕ → CleanupManager G → Option (CleanupManager G)
  push_cleanup_in_state dead code m = none
  push_cleanup_in_state state code m =
      some (record m { stack = (record { state = state; code = code }) ∷ m.stack })

  -- `popAndEmitTopCleanup`, with its assertion.
  unfoldable pub pop_and_emit_top_cleanup : CleanupManager G → Option (CleanupManager G)
  pop_and_emit_top_cleanup m = elim m.stack [
    | [] ↦ none
    | c ∷ stack ↦
        if is_dead c then some (record m { stack = stack; gen = emit c.code m.gen }) else none
  ]

  -- The top cleanup, marked dead unless it is.
  abbrev pub kill_top : List Cleanup → List Cleanup
  kill_top [] = []
  kill_top (c ∷ stack) = (if is_dead c then c else set_cleanup_state dead c) ∷ stack

  -- One round of the loop of `endScope`.
  unfoldable pub end_scope_round :
      ℕ → CleanupManager G → Option (Step (CleanupManager G) (CleanupManager G))
  unfolding pop_and_emit_top_cleanup
  end_scope_round depth m =
      if length m.stack == depth
      then some (done m)
      else (pop_and_emit_top_cleanup (record m { stack = kill_top m.stack }) >>= λ m'.
          some (again m'))

  -- `endScope`; a depth above the stack fails the check of the iterator.
  unfoldable pub end_scope : ℕ → CleanupManager G → Option (CleanupManager G)
  unfolding end_scope_round iterate
  end_scope depth m =
      if not (leb depth (length m.stack))
      then none
      else if not (has_any_active_cleanups (take (length m.stack - depth) m.stack))
      then some m
      else iterate (length m.stack + 1) (end_scope_round depth) m

  -- The loop of `emitBranchAndCleanups` over a range.
  abbrev pub emit_all : List Cleanup → G → G
  emit_all [] g = g
  emit_all (c ∷ range) g = emit_all range (emit c.code g)

  -- `emitBranchAndCleanups`, to the block of a destination and its depth, where the builder has
  -- an insertion point.
  unfoldable pub emit_branch_and_cleanups : ℕ → ℕ → CleanupManager G → Option (CleanupManager G)
  emit_branch_and_cleanups block depth m =
      if not (leb depth (length m.stack))
      then none
      else some (record m {
        gen = create_branch block (emit_all (take (length m.stack - depth) m.stack) m.gen);
      })

  -- The constructor of `Scope`.
  unfoldable pub enter_scope : CleanupManager G → Scope × CleanupManager G
  enter_scope m = (
    record { depth = some (length m.stack); saved_innermost_scope = m.innermost_scope },
    record m { innermost_scope = length m.stack },
  )

  -- `Scope::pop`, with the assertions on a second pop and on the order.
  unfoldable pub pop_scope : Scope → CleanupManager G → Option (Scope × CleanupManager G)
  unfolding end_scope
  pop_scope scope m = do
    depth ← scope.depth
    let inner : CleanupManager G = record m { innermost_scope = scope.saved_innermost_scope }
    if m.innermost_scope == depth
        then (end_scope depth inner >>= λ m'.
            if leb m'.innermost_scope (length m'.stack)
            then some (record scope { depth = none }, m')
            else none)
        else none
