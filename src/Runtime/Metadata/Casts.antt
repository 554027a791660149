-- ===== src/Runtime/Metadata/Casts.antt =====
-- The dynamic cast (swift_dynamicCast of runtime/Metadata.cpp).
use b1c3995fdcf53d46308da.Base.{
  ℕ, zero, suc, ◌<◌, ◌==◌, ◌≡◌, ◌≢◌, refl, inl, inr, Bool, true, false, if◌then◌else◌, some, List,
  [], ◌∷◌, length, arith, Bool-cases,
}
use b1c3995fdcf53d46308da.Runtime.Metadata.{cast_to, null_superclass, cast_class, dynamic_cast}

-- A class with its superclasses, up to the null pointer behind the last one.
abbrev pub IsChain : (ℕ → ℕ) → ℕ → List ℕ → Type 0
IsChain super_class isa [] = isa ≡ 0
IsChain super_class isa (c ∷ chain) =
    (isa ≡ c) × (c ≢ 0) × IsChain super_class (super_class c) chain

abbrev pub is_among : ℕ → List ℕ → Bool
is_among target [] = false
is_among target (c ∷ chain) = if c == target then true else is_among target chain

-- A cast to a class among the superclasses gives the object. For any other target but null the answer is
-- never the null pointer: the loop goes on behind the last superclass, and reads the superclass of
-- the null pointer.
pub dynamic_cast-IsChain :
    (super_class : ℕ → ℕ) (object isa target : ℕ) (chain : List ℕ) (fuel : ℕ)
    → IsChain super_class isa chain
    → target ≢ 0
    → length chain < fuel
    → dynamic_cast fuel super_class object isa target
      ≡ some (if is_among target chain then cast_to object else null_superclass)
unfolding dynamic_cast cast_class
dynamic_cast-IsChain super_class object isa target chain zero h real enough = absurd (omega arith)
dynamic_cast-IsChain super_class object isa target [] (suc fuel) h real enough =
    let other : (isa == target) ≡ false = ground arith in
    let null : (isa == 0) ≡ true = ground arith in rw (other, cast_class) (rw null refl)
dynamic_cast-IsChain super_class object isa target (c ∷ chain) (suc fuel) (here, some_class, h) real
      enough =
    elim (Bool-cases (c == target)) [
      | inl same ↦
          let hit : (isa == target) ≡ true = ground arith in rw same (rw (hit, cast_class) refl)
      | inr differ ↦
          let other : (isa == target) ≡ false = ground arith in
          let not_null : (isa == 0) ≡ false = ground arith in
          let goes_on : (target == 0) ≡ false = ground arith in
          rw differ (
            rw (other, cast_class)
              (rw not_null (
                rw goes_on (
                  rw here (
                    dynamic_cast-IsChain super_class object (super_class c) target chain fuel h real
                      (omega arith))))))
    ]
