-- ===== src/IrGen/Tests.antt =====
-- Instances of the theorems on structure layout and on mangling.
use b1c3995fdcf53d46308da.Base.{
  ℕ, zero, suc, ◌+◌, ◌/◌, ◌%◌, ◌==◌, ◌≡◌, ◌≢◌, refl, true, false, none, some, List, [], ◌∷◌, Bytes,
  Returns, arith,
}
use b1c3995fdcf53d46308da.Parse.Chars.{is_operator_char}
use b1c3995fdcf53d46308da.IrGen.Mangle.{
  class_decl, struct_decl, protocol_decl, Context, top_module, nominal_decl, swift_name, Mangler,
  Mangled, is_operator, mangle_identifier, mangle_field_name, mangle_decl_context,
  try_mangle_standard_substitution, try_mangle_substitution, add_substitution, with_name, module_in,
  mangle_protocol_name, mangle_type, SwiftType, tuple, nominal, function, array, no_field,
  plain_field,
}
use b1c3995fdcf53d46308da.IrGen.Mangle.Ambiguity.{
  pair_first, composition_first, mangle_type_ambiguous,
}
use b1c3995fdcf53d46308da.IrGen.StructLayout.{TypeInfo, Target, struct_layout, heap_object, optimal}
use b1c3995fdcf53d46308da.IrGen.StructLayout.Placement.{
  AllReady, header_size, header_alignment, IsLaidOut, struct_layout-IsLaidOut,
}

abbrev target : Target
target = record { pointer_size = 8; pointer_alignment = 8 }

-- A byte, an empty type and a word of eight bytes.
abbrev fields : List TypeInfo
fields =
    (record { storage_size = 1; storage_alignment = 1; abi_alignment = 1; storage_type = 0 })
    ∷ (record { storage_size = 0; storage_alignment = 1; abi_alignment = 1; storage_type = 1 })
    ∷ (record { storage_size = 8; storage_alignment = 8; abi_alignment = 4; storage_type = 2 })
    ∷ []

fields-AllReady : AllReady fields
fields-AllReady = ground arith

struct_layout-IsLaidOut_example :
    Returns
      (struct_layout target heap_object optimal fields)
      (IsLaidOut (header_size target heap_object) (header_alignment target heap_object) fields)
struct_layout-IsLaidOut_example =
    struct_layout-IsLaidOut target heap_object optimal fields fields-AllReady (omega arith)

-- A printer of numbers in decimal digits.
unfoldable decimal_onto : ℕ → ℕ → Bytes → Bytes
decimal_onto zero n done = done
decimal_onto (suc fuel) n done = elim (n / 10 == 0) [
  | true ↦ (b'0' + n % 10) ∷ done
  | false ↦ decimal_onto fuel (n / 10) ((b'0' + n % 10) ∷ done)
]

unfoldable decimal : ℕ → Bytes
unfolding decimal_onto
decimal n = decimal_onto (suc n) n []

abbrev IsNonempty : Bytes → Type 0
IsNonempty [] = ⊥
IsNonempty (c ∷ s) = Unit {0}

abbrev no_local : ℕ → Mangler → Mangled
no_local i m = none

abbrev swift : Context
swift = top_module swift_name

abbrev foo : Context
foo = top_module (b'f' ∷ b'o' ∷ b'o' ∷ [])

abbrev int64 : SwiftType
int64 = nominal struct_decl swift (b'I' ∷ b'n' ∷ b't' ∷ b'6' ∷ b'4' ∷ [])

abbrev class_b : SwiftType
class_b = nominal class_decl foo (b'B' ∷ [])

-- `Int64 -> (x : foo.B, Int64[3])` and `Int64 -> (foo.B, x : Int64)`.
abbrev first_type : SwiftType
first_type =
    function int64
      (tuple (plain_field (b'x' ∷ []) class_b (plain_field [] (array 3 int64) no_field))) false

abbrev second_type : SwiftType
second_type =
    function int64 (tuple (plain_field [] class_b (plain_field (b'x' ∷ []) int64 no_field))) false

abbrev new_mangler : Mangler
new_mangler = record { substitutions = []; archetypes = []; archetypes_depth = 0 }

abbrev protocol_named : ℕ → Context × Bytes
protocol_named c = (foo, c ∷ [])

-- A mangler that has met the module and protocol B.
abbrev knows_b : Mangler
knows_b = record {
  substitutions = foo ∷ nominal_decl protocol_decl foo (b'B' ∷ []) ∷ [];
  archetypes = [];
  archetypes_depth = 0;
}

abbrev knows_a : Mangler
knows_a = record {
  substitutions =
      foo
      ∷ nominal_decl protocol_decl foo (b'B' ∷ [])
      ∷ nominal_decl protocol_decl foo (b'A' ∷ [])
      ∷ [];
  archetypes = [];
  archetypes_depth = 0;
}

abbrev knows_c : Mangler
knows_c = record {
  substitutions =
      foo
      ∷ nominal_decl protocol_decl foo (b'B' ∷ [])
      ∷ nominal_decl protocol_decl foo (b'A' ∷ [])
      ∷ nominal_decl protocol_decl foo (b'C' ∷ [])
      ∷ [];
  archetypes = [];
  archetypes_depth = 0;
}

mangle_type_ambiguous_example :
    (pair_first decimal no_local
        (protocol_named b'A')
        (protocol_named b'B')
        (protocol_named b'C')
        (b'x' ∷ [])
      ≢ composition_first decimal no_local
          (protocol_named b'A')
          (protocol_named b'B')
          (protocol_named b'C')
          (b'x' ∷ []))
    × Returns
        (mangle_type decimal no_local
          (pair_first decimal no_local
            (protocol_named b'A')
            (protocol_named b'B')
            (protocol_named b'C')
            (b'x' ∷ []))
          0
          knows_b)
        (λ o.
          mangle_type decimal no_local
            (composition_first decimal no_local
              (protocol_named b'A')
              (protocol_named b'B')
              (protocol_named b'C')
              (b'x' ∷ []))
            0
            knows_b
          ≡ some o)
unfolding decimal mangle_field_name mangle_identifier is_operator is_operator_char
    try_mangle_standard_substitution try_mangle_substitution mangle_protocol_name
    mangle_decl_context module_in with_name add_substitution
mangle_type_ambiguous_example =
    mangle_type_ambiguous decimal no_local (protocol_named b'A') (protocol_named b'B')
      (protocol_named b'C') (b'x' ∷ []) (b'1' ∷ b'x' ∷ []) (b'S' ∷ b'_' ∷ b'1' ∷ b'A' ∷ [])
      (b'S' ∷ b'0' ∷ b'_' ∷ []) (b'S' ∷ b'_' ∷ b'1' ∷ b'C' ∷ []) (b'S' ∷ b'0' ∷ b'_' ∷ []) knows_b
      knows_a knows_c 0 refl refl refl refl refl refl refl refl refl refl
