-- ===== src/Runtime/Metadata/Layout.antt =====
-- The layout of tuples by the runtime (swift_getTupleTypeMetadata of runtime/Metadata.cpp) and by
-- the compiler (StructLayout of lib/IRGen/StructLayout.cpp).
use b1c3995fdcf53d46308da.Base.{ℕ, ◌+◌, ◌%◌, ◌≤◌, ◌<◌, ◌≡◌, Bool, false, List, [], ◌∷◌, ◌++◌}
use b1c3995fdcf53d46308da.IrGen.StructLayout.{TypeInfo, State, ElementLayout}
use b1c3995fdcf53d46308da.IrGen.StructLayout.Placement.{IsLayoutReady}
use b1c3995fdcf53d46308da.Runtime.Metadata.{ValueWitnessTable, std_max, TupleLayout}

-- LLVM's rounding of a size to an alignment, where it stays in 64 bits.
abbrev pub Rounds : (ℕ → ℕ → ℕ) → Type 0
Rounds round_up =
    (n a : ℕ)
    → 0 < a
    → n + a < 18446744073709551616
    → (n ≤ round_up n a) × (round_up n a < n + a) × (round_up n a % a ≡ 0)

module _ (round_up : ℕ → ℕ → ℕ) (rounds : Rounds round_up) where
  module _ (witnesses_of : ℕ → ValueWitnessTable) (info : ℕ → TypeInfo)
      (same_size : (t : ℕ) → (witnesses_of t).size ≡ (info t).storage_size)
      (same_alignment : (t : ℕ) → (witnesses_of t).alignment ≡ (info t).storage_alignment) where
    abbrev pub AllStored : List ℕ → Type 0
    AllStored [] = Unit {0}
    AllStored (t ∷ types) = (0 < (info t).storage_size) × IsLayoutReady (info t) × AllStored types

    -- The compiler's offsets are the runtime's, rounded up to the alignments.
    abbrev pub AreRounded : List (ℕ × ℕ) → List ElementLayout → Type 0
    AreRounded [] [] = Unit {0}
    AreRounded [] (e ∷ elements) = ⊥
    AreRounded ((t, offset) ∷ recorded) [] = ⊥
    AreRounded ((t, offset) ∷ recorded) (e ∷ elements) =
        (e.type ≡ info t)
        × (e.byte_offset ≡ round_up offset (witnesses_of t).alignment)
        × AreRounded recorded elements

    abbrev still_empty : List ℕ → Bool → Bool
    still_empty [] b = b
    still_empty (t ∷ types) b = false

    -- The states after the same types agree.
    record Agrees (types : List ℕ) (s : State) (l : TupleLayout) (s' : State) : Type 0 where
      new : List ElementLayout
      elements_eq : s'.elements ≡ s.elements ++ new
      size_eq : s'.storage_size ≡ l.size
      align_eq : s'.storage_align ≡ l.alignment
      rounded : AreRounded l.elements new
      empty_eq : s'.is_empty ≡ still_empty types s.is_empty

    -- One more type.
    record Placed (t : ℕ) (s s' : State) : Type 0 where
      element : ElementLayout
      elements_eq : s'.elements ≡ s.elements ++ element ∷ []
      type_eq : element.type ≡ info t
      offset_eq : element.byte_offset ≡ round_up s.storage_size (witnesses_of t).alignment
      size_eq :
          s'.storage_size
          ≡ (round_up s.storage_size (witnesses_of t).alignment + (witnesses_of t).size)
            % 18446744073709551616
      align_eq : s'.storage_align ≡ std_max s.storage_align (witnesses_of t).alignment
      bounded :
          s'.storage_size ≤ s.storage_size + (info t).storage_alignment + (info t).storage_size
      empty_eq : s'.is_empty ≡ false
