-- ===== src/Sema/TypeVariables.antt =====
-- The type variables of the constraint solver (lib/Sema/TypeCheckConstraints.cpp): equivalence
-- classes with path compression, fixed types, and the record that undoes every change. A type
-- variable is its ID; `T` stands for the types.
pub mod Roots
pub mod Classes
pub mod Types
use b1c3995fdcf53d46308da.Base.{
  ℕ, zero, suc, ◌+◌, ◌==◌, ltb, ◌&&◌, ◌||◌, not, Bool, true, false, if◌then◌else◌, Option, none,
  some, ◌>>=◌, List, [], ◌∷◌,
}

-- `ParentOrFixed`
pub data Link (T : Type 0) : Type 0 where
  parent : ℕ → Link T
  fixed : T → Link T

abbrev pub Store : Type 0 → Type 0
Store T = ℕ → Link T

-- `SavedTypeVariableBinding`
abbrev pub Saved : Type 0 → Type 0
Saved T = ℕ × Link T

-- The state of all type variables, and `SavedBindings`, the newest first.
pub record Bindings (T : Type 0) : Type 0 where
  pub store : Store T
  pub saved : List (Saved T)

module _ {T : Type 0} where
  abbrev pub assign : Store T → ℕ → Link T → Store T
  assign store v link = λ w. if w == v then link else store w

  -- A saved binding is pushed, and the link changed.
  abbrev pub change : Bindings T → ℕ → Link T → Bindings T
  change b v link = record { store = assign b.store v link; saved = (v, b.store v) ∷ b.saved }

  -- `restoreTypeVariableBindings`, with `SavedTypeVariableBinding::restore`: the newest first.
  unfoldable pub restore_all : List (Saved T) → Store T → Store T
  restore_all [] store = store
  restore_all ((v, link) ∷ saved) store = restore_all saved (assign store v link)

  abbrev pub restore : Bindings T → Bindings T
  unfolding restore_all
  restore b = record { store = restore_all b.saved b.store; saved = [] }

  -- One round of the first loop of `getRepresentative`, at the link of `v`.
  abbrev pub find_step : (ℕ → Option ℕ) → ℕ → Link T → Option ℕ
  find_step go v (fixed t) = some v
  find_step go v (parent p) = elim (p == v) [ true ↦ some v | false ↦ go p ]

  unfoldable pub find : ℕ → Store T → ℕ → Option ℕ
  find zero store v = none
  find (suc fuel) store v = find_step (find fuel store) v (store v)

  -- One round of the path compression towards `rep`.
  abbrev pub compress_step :
      (Bindings T → ℕ → Option (Bindings T)) → ℕ → Bindings T → ℕ → Link T → Option (Bindings T)
  compress_step go rep b v (fixed t) = some b
  compress_step go rep b v (parent p) = elim (p == rep) [
    | true ↦ some b
    | false ↦ go (change b v (parent rep)) p
  ]

  unfoldable pub compress : ℕ → ℕ → Bindings T → ℕ → Option (Bindings T)
  compress zero rep b v = none
  compress (suc fuel) rep b v = compress_step (compress fuel rep) rep b v (b.store v)

  -- `getRepresentative`, with a record.
  unfoldable pub get_representative : ℕ → Bindings T → Option (ℕ × Bindings T)
  unfolding find compress
  get_representative v b = find (v + 1) b.store v >>= λ rep.
      if rep == v then some (v, b) else (compress (v + 1) rep b v >>= λ b'. some (rep, b'))

  -- `mergeEquivalenceClasses`, with the assertions of the constraint system.
  unfoldable pub merge_equivalence_classes : ℕ → ℕ → Bindings T → Option (Bindings T)
  unfolding get_representative
  merge_equivalence_classes v1 v2 b = do
    (r1, b1) ← get_representative v1 b
    (r2, b2) ← get_representative v2 b1
    if not (v1 == r1 && v2 == r2) || v1 == v2
        then none
        else if ltb v1 v2
        then (get_representative v2 b2 >>= λ r. some (change r.1 r.0 (parent v1)))
        else (get_representative v1 b2 >>= λ r. some (change r.1 r.0 (parent v2)))

  -- One round of the first loop of `getFixedType`.
  abbrev pub fixed_step : (ℕ → Option (Option T)) → ℕ → Link T → Option (Option T)
  fixed_step go v (fixed t) = some (some t)
  fixed_step go v (parent p) = elim (p == v) [ true ↦ some none | false ↦ go p ]

  unfoldable pub find_fixed : ℕ → Store T → ℕ → Option (Option T)
  find_fixed zero store v = none
  find_fixed (suc fuel) store v = fixed_step (find_fixed fuel store) v (store v)

  -- One round of the path compression towards a fixed type.
  abbrev pub compress_fixed_step :
      (Bindings T → ℕ → Option (Bindings T)) → T → Bindings T → ℕ → Link T → Option (Bindings T)
  compress_fixed_step go type b v (fixed t) = some b
  compress_fixed_step go type b v (parent p) = elim (p == v) [
    | true ↦ some b
    | false ↦ go (change b v (fixed type)) p
  ]

  unfoldable pub compress_fixed : ℕ → T → Bindings T → ℕ → Option (Bindings T)
  compress_fixed zero type b v = none
  compress_fixed (suc fuel) type b v =
      compress_fixed_step (compress_fixed fuel type) type b v (b.store v)

  -- The end of `getFixedType`, at the type that was found.
  unfoldable pub compress_found : ℕ → Bindings T → Option T → Option (Option T × Bindings T)
  unfolding compress_fixed
  compress_found v b none = some (none, b)
  compress_found v b (some t) = compress_fixed (v + 1) t b v >>= λ b'. some (some t, b')

  -- `getFixedType`, with a record.
  unfoldable pub get_fixed_type : ℕ → Bindings T → Option (Option T × Bindings T)
  unfolding find_fixed compress_found
  get_fixed_type v b = find_fixed (v + 1) b.store v >>= λ found. compress_found v b found

  -- `assignFixedType`. The assertion compares the types that there are: `same_type` stands for
  -- `isEqual`.
  unfoldable pub assign_fixed_type : (T → T → Bool) → ℕ → T → Bindings T → Option (Bindings T)
  unfolding get_representative find_fixed
  assign_fixed_type same_type v type b = do
    found ← find_fixed (v + 1) b.store v
    (rep, b') ← get_representative v b
    if (elim found [ none ↦ true | some t ↦ same_type t type ])
        then some (change b' rep (fixed type))
        else none
