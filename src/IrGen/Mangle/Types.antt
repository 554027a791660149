-- ===== src/IrGen/Mangle/Types.antt =====
-- How types read that lib/IRGen/Mangle.cpp mangles, and that no two of them are mangled alike.
use b1c3995fdcf53d46308da.Base.{
  none, some, subst, true, false, ℕ, zero, suc, ◌-◌, ◌≤◌, refl, sym, some, [], ◌∷◌, ◌++◌, Bytes,
  arith, Returns, Returns->>=, Returns-weaken,
}
use mathlib.Core.List.{append_assoc}
use b1c3995fdcf53d46308da.IrGen.Mangle.{
  nominal_decl, Mangler, Mangled, mangle_identifier, mangle_field_name, mangle_nominal_type,
  mangle_type, mangle_fields, SwiftType, error_type, unresolved_type, module_type, builtin_float,
  builtin_integer, builtin_raw_pointer, builtin_object_pointer, builtin_objc_pointer, sugared,
  meta_type, l_value, tuple, nominal, bound_generic, polymorphic_function, archetype, function,
  array, protocol_composition, Fields, no_field, field, no_vararg, vararg_of, plain_field,
}
use b1c3995fdcf53d46308da.IrGen.Mangle.Reader.{lead_of, type_step, read_type, with_width}
use b1c3995fdcf53d46308da.IrGen.Mangle.Words.{
  IsDecimal, read_digits-decimal, mangle_identifier-reads, underscore-no_digit,
}
use b1c3995fdcf53d46308da.IrGen.Mangle.Contexts.{NominalReads, mangle_nominal_type-reads}
use b1c3995fdcf53d46308da.IrGen.Mangle.Parts.{
  IsFieldName, IsPlainType, ArePlainFields, type_size, fields_size, LeadsType-EndsNumber, TypeReads,
  FieldsRead, nominal-TypeReads, meta-TypeReads, l_value-TypeReads, tuple-TypeReads,
  generic-TypeReads, function-TypeReads, named_field-FieldsRead, unnamed_field-FieldsRead,
  end-FieldsRead, no_fuel, float-TypeReads, pointers-TypeReads,
}

module _ (decimal : ℕ → Bytes) (printed : IsDecimal decimal) where
  integer-TypeReads :
      (fuel width : ℕ) (m : Mangler)
      → TypeReads (suc fuel) m (builtin_integer width) (b'B' ∷ b'i' ∷ decimal width ++ b'_' ∷ [], m)
  unfolding read_type type_step lead_of with_width
  integer-TypeReads fuel width m = (
    tt,
    λ rest.
        rw (append_assoc (decimal width) (b'_' ∷ []) rest)
          (rw (read_digits-decimal decimal printed width (b'_' ∷ rest) underscore-no_digit) refl),
  )

  array-TypeReads :
      (fuel size : ℕ) (t : SwiftType) (m : Mangler) (o : Bytes × Mangler)
      → TypeReads fuel m t o
      → TypeReads (suc fuel) m (array size t) (b'A' ∷ decimal size ++ o.0, o.1)
  unfolding read_type type_step lead_of
  array-TypeReads fuel size t m o h = (
    tt,
    λ rest. rw (append_assoc (decimal size) o.0 rest) (
        rw
          (read_digits-decimal decimal printed size (o.0 ++ rest)
            (LeadsType-EndsNumber o.0 rest h.0))
          (rw (h.1 rest) refl)),
  )

  -- How the name of a field, or none, makes the field read.
  abbrev NameReads : ℕ → Bytes → SwiftType → Fields → Mangler → Bytes → Type 0
  NameReads fuel name type fields m id =
      (o p : Bytes × Mangler)
      → TypeReads fuel m type o
      → FieldsRead fuel o.1 fields p
      → FieldsRead (suc fuel) m (plain_field name type fields) (id ++ o.0 ++ p.0, p.1)

  mangle_field_name-NameReads :
      (fuel : ℕ) (name : Bytes) (type : SwiftType) (fields : Fields) (m : Mangler)
      → IsFieldName name
      → Returns (mangle_field_name decimal name) (NameReads fuel name type fields m)
  unfolding mangle_field_name
  mangle_field_name-NameReads fuel [] type fields m named =
      λ o p h k. unnamed_field-FieldsRead fuel type fields m o p h k
  mangle_field_name-NameReads fuel (c ∷ name) type fields m named =
      Returns-weaken _ _ (mangle_identifier decimal (c ∷ name))
        (mangle_identifier-reads decimal printed (c ∷ name) named)
        (λ id reads o p h k.
          named_field-FieldsRead fuel (c ∷ name) id type fields m o p reads.0 reads.1 h k)

  module _ (mangle_local : ℕ → Mangler → Mangled) where
    mutual
      unfolding mangle_type mangle_fields IsPlainType type_size

      -- A plain type is mangled, and reads as itself.
      pub mangle_type-reads :
          (t : SwiftType) (level : ℕ) (m : Mangler) (fuel : ℕ)
          → IsPlainType t
          → type_size t ≤ fuel
          → Returns (mangle_type decimal mangle_local t level m) (TypeReads fuel m t)
      mangle_type-reads t level m zero plain enough = absurd (no_fuel t enough)
      mangle_type-reads error_type level m (suc fuel) plain enough = absurd plain
      mangle_type-reads (builtin_float kind) level m (suc fuel) plain enough =
          float-TypeReads fuel kind m plain
      mangle_type-reads (builtin_integer width) level m (suc fuel) plain enough =
          integer-TypeReads fuel width m
      mangle_type-reads builtin_raw_pointer level m (suc fuel) plain enough =
          (pointers-TypeReads fuel m).0
      mangle_type-reads builtin_object_pointer level m (suc fuel) plain enough =
          (pointers-TypeReads fuel m).1
      mangle_type-reads builtin_objc_pointer level m (suc fuel) plain enough =
          (pointers-TypeReads fuel m).2
      mangle_type-reads (meta_type t) level m (suc fuel) plain enough =
          Returns->>= (TypeReads fuel m t) _ (mangle_type decimal mangle_local t 0 m) _
            (mangle_type-reads t 0 m fuel plain (omega arith)) (λ o h. meta-TypeReads fuel t m o h)
      mangle_type-reads (l_value quals t) level m (suc fuel) (is, plain) enough =
          Returns->>= (TypeReads fuel m t) _ (mangle_type decimal mangle_local t 0 m) _
            (mangle_type-reads t 0 m fuel plain (omega arith))
            (λ o h.
              subst (λ q. TypeReads (suc fuel) m (l_value q t) (b'R' ∷ o.0, o.1)) (sym is)
                (l_value-TypeReads fuel t m o h))
      mangle_type-reads (tuple fields) level m (suc fuel) plain enough =
          Returns->>= (FieldsRead fuel m fields) _ (mangle_fields decimal mangle_local fields m) _
            (mangle_fields-read fields m fuel plain (omega arith))
            (λ o h. tuple-TypeReads fuel fields m o h)
      mangle_type-reads (nominal kind parent name) level m (suc fuel) plain enough =
          Returns-weaken (NominalReads fuel m (nominal_decl kind parent name)) _
            (mangle_nominal_type decimal mangle_local kind parent name m)
            (mangle_nominal_type-reads decimal printed mangle_local kind parent name m fuel plain
              (omega arith))
            (λ o h. nominal-TypeReads fuel kind parent name m o h)
      mangle_type-reads (bound_generic kind parent name arguments) level m (suc fuel)
            (plain, plains) enough =
          Returns->>= (NominalReads fuel m (nominal_decl kind parent name)) _
            (mangle_nominal_type decimal mangle_local kind parent name m) _
            (mangle_nominal_type-reads decimal printed mangle_local kind parent name m fuel plain
              (omega arith))
            (λ o h.
              Returns->>= (FieldsRead fuel o.1 arguments) _
                (mangle_fields decimal mangle_local arguments o.1) _
                (mangle_fields-read arguments o.1 fuel plains (omega arith))
                (λ p k. generic-TypeReads fuel kind parent name arguments m o p h k))
      mangle_type-reads (function input result true) level m (suc fuel) plain enough = absurd plain
      mangle_type-reads (function input result false) level m (suc fuel) (plain, plain') enough =
          Returns->>= (TypeReads fuel m input) _ (mangle_type decimal mangle_local input 0 m) _
            (mangle_type-reads input 0 m fuel plain (omega arith))
            (λ o h.
              Returns->>= (TypeReads fuel o.1 result) _
                (mangle_type decimal mangle_local result (level - 1) o.1) _
                (mangle_type-reads result (level - 1) o.1 fuel plain' (omega arith))
                (λ p k. function-TypeReads fuel level input result m o p h k))
      mangle_type-reads (array size base) level m (suc fuel) plain enough =
          Returns->>= (TypeReads fuel m base) _ (mangle_type decimal mangle_local base 0 m) _
            (mangle_type-reads base 0 m fuel plain (omega arith))
            (λ o h. array-TypeReads fuel size base m o h)
      mangle_type-reads unresolved_type level m (suc fuel) plain enough = absurd plain
      mangle_type-reads module_type level m (suc fuel) plain enough = absurd plain
      mangle_type-reads (sugared t) level m (suc fuel) plain enough = absurd plain
      mangle_type-reads (polymorphic_function lists input result) level m (suc fuel) plain enough =
          absurd plain
      mangle_type-reads (archetype a) level m (suc fuel) plain enough = absurd plain
      mangle_type-reads (protocol_composition protocols) level m (suc fuel) plain enough =
          absurd plain

      mangle_fields-read :
          (fields : Fields) (m : Mangler) (fuel : ℕ)
          → ArePlainFields fields
          → fields_size fields ≤ fuel
          → Returns (mangle_fields decimal mangle_local fields m) (FieldsRead fuel m fields)
      mangle_fields-read no_field m zero plain enough = absurd (omega arith)
      mangle_fields-read no_field m (suc fuel) plain enough = end-FieldsRead fuel m
      mangle_fields-read (field name type init vararg_base fields) m zero plain enough =
          absurd (omega arith)
      mangle_fields-read (field name type (some init) vararg_base fields) m (suc fuel) plain
            enough =
          absurd plain
      mangle_fields-read (field name type none (vararg_of base) fields) m (suc fuel) plain enough =
          absurd plain
      mangle_fields-read (field name type none no_vararg fields) m (suc fuel) (named, plain, plains)
            enough =
          Returns->>= (NameReads fuel name type fields m) _ (mangle_field_name decimal name) _
            (mangle_field_name-NameReads fuel name type fields m named)
            (λ id reads.
              Returns->>= (TypeReads fuel m type) _ (mangle_type decimal mangle_local type 0 m) _
                (mangle_type-reads type 0 m fuel plain (omega arith))
                (λ o h.
                  Returns->>= (FieldsRead fuel o.1 fields) _
                    (mangle_fields decimal mangle_local fields o.1) _
                    (mangle_fields-read fields o.1 fuel plains (omega arith))
                    (λ p k. reads o p h k)))
