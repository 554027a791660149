-- ===== src/IrGen/Mangle/Parts.antt =====
-- How the texts of the parts of a type make the text of the whole read (lib/IRGen/Mangle.cpp).
use b1c3995fdcf53d46308da.Base.{
  none, some, true, false, ℕ, suc, ◌+◌, ltb, ◌≤◌, ◌≡◌, refl, ap, ◌∙◌, subst, false, some, [], ◌∷◌,
  ◌++◌, ◌>>=◌, Bytes, arith, Returns, inl, inr, Bool-cases,
}
use mathlib.Core.List.{append_assoc}
use b1c3995fdcf53d46308da.Parse.Chars.{is_digit}
use b1c3995fdcf53d46308da.IrGen.Mangle.{
  NominalKind, Context, nominal_decl, Mangler, FpKind, ieee16, ieee32, ieee64, ieee80, ieee128,
  ppc128, float_width, function_letter, SwiftType, error_type, unresolved_type, module_type,
  builtin_float, builtin_integer, builtin_raw_pointer, builtin_object_pointer, builtin_objc_pointer,
  sugared, meta_type, l_value, tuple, nominal, bound_generic, polymorphic_function, archetype,
  function, array, protocol_composition, Fields, no_field, field, no_vararg, vararg_of, plain_field,
  default_for_type,
}
use b1c3995fdcf53d46308da.IrGen.Mangle.Reader.{
  Read, read_digits, read_identifier, Lead, substitution_lead, digit_lead, builtin_lead, meta_lead,
  value_lead, tuple_lead, generic_lead, function_lead, array_lead, end_lead, no_lead, kind_lead,
  lead_of, as_type, read_context, type_step, field_of, fields_step, read_type, read_fields,
  with_width,
}
use b1c3995fdcf53d46308da.IrGen.Mangle.Words.{IsName, StartsWithDigit, EndsNumber}
use b1c3995fdcf53d46308da.IrGen.Mangle.Contexts.{
  IsPlainContext, context_size, IsNominalLead, NominalReads, lead-digit,
}

-- A field without a name, or with one that is no operator.
abbrev pub IsFieldName : Bytes → Type 0
IsFieldName [] = Unit {0}
IsFieldName (c ∷ name) = IsName (c ∷ name)

-- Types without sugar, generic parameters, protocol compositions, nested modules and extensions.
unfoldable mutual
  pub IsPlainType : SwiftType → Type 0
  IsPlainType error_type = ⊥
  IsPlainType unresolved_type = ⊥
  IsPlainType module_type = ⊥
  IsPlainType (builtin_float kind) = Returns (float_width kind) (λ width. Unit {0})
  IsPlainType (builtin_integer width) = Unit {0}
  IsPlainType builtin_raw_pointer = Unit {0}
  IsPlainType builtin_object_pointer = Unit {0}
  IsPlainType builtin_objc_pointer = Unit {0}
  IsPlainType (sugared t) = ⊥
  IsPlainType (meta_type t) = IsPlainType t
  IsPlainType (l_value quals t) = (quals ≡ default_for_type) × IsPlainType t
  IsPlainType (tuple fields) = ArePlainFields fields
  IsPlainType (nominal kind parent name) = IsPlainContext (nominal_decl kind parent name)
  IsPlainType (bound_generic kind parent name arguments) =
      IsPlainContext (nominal_decl kind parent name) × ArePlainFields arguments
  IsPlainType (polymorphic_function lists input result) = ⊥
  IsPlainType (archetype a) = ⊥
  IsPlainType (function input result false) = IsPlainType input × IsPlainType result
  IsPlainType (function input result true) = ⊥
  IsPlainType (array size base) = IsPlainType base
  IsPlainType (protocol_composition protocols) = ⊥

  pub ArePlainFields : Fields → Type 0
  ArePlainFields no_field = Unit {0}
  ArePlainFields (field name type none no_vararg fields) =
      IsFieldName name × IsPlainType type × ArePlainFields fields
  ArePlainFields (field name type none (vararg_of base) fields) = ⊥
  ArePlainFields (field name type (some init) vararg_base fields) = ⊥

unfoldable mutual
  pub type_size : SwiftType → ℕ
  type_size (meta_type t) = suc (type_size t)
  type_size (l_value quals t) = suc (type_size t)
  type_size (tuple fields) = suc (fields_size fields)
  type_size (nominal kind parent name) = suc (context_size (nominal_decl kind parent name))
  type_size (bound_generic kind parent name arguments) =
      suc (context_size (nominal_decl kind parent name) + fields_size arguments)
  type_size (function input result is_auto_closure) = suc (type_size input + type_size result)
  type_size (array size base) = suc (type_size base)
  type_size t = 1

  pub fields_size : Fields → ℕ
  fields_size no_field = 1
  fields_size (field name type init vararg_base fields) = suc (type_size type + fields_size fields)

-- The characters that a type begins with.
abbrev IsTypeLead : Lead → Type 0
IsTypeLead digit_lead = ⊥
IsTypeLead end_lead = ⊥
IsTypeLead no_lead = ⊥
IsTypeLead lead = Unit {0}

abbrev LeadsType : Bytes → Type 0
LeadsType [] = ⊥
LeadsType (c ∷ s) = IsTypeLead (lead_of c)

nominal-IsTypeLead : (lead : Lead) → IsNominalLead lead → IsTypeLead lead
nominal-IsTypeLead substitution_lead h = tt
nominal-IsTypeLead (kind_lead k) h = tt
nominal-IsTypeLead digit_lead h = absurd h
nominal-IsTypeLead builtin_lead h = absurd h
nominal-IsTypeLead meta_lead h = absurd h
nominal-IsTypeLead value_lead h = absurd h
nominal-IsTypeLead tuple_lead h = absurd h
nominal-IsTypeLead generic_lead h = absurd h
nominal-IsTypeLead function_lead h = absurd h
nominal-IsTypeLead array_lead h = absurd h
nominal-IsTypeLead end_lead h = absurd h
nominal-IsTypeLead no_lead h = absurd h

lead-no_digit : (c : ℕ) → IsTypeLead (lead_of c) → is_digit c ≡ false
lead-no_digit c h = elim (Bool-cases (is_digit c)) [
  | inl digit ↦ absurd (subst IsTypeLead (lead-digit c digit) h)
  | inr other ↦ other
]

pub LeadsType-EndsNumber : (out rest : Bytes) → LeadsType out → EndsNumber (out ++ rest)
LeadsType-EndsNumber [] rest h = absurd h
LeadsType-EndsNumber (c ∷ out) rest h = lead-no_digit c h

abbrev pub TypeReads : ℕ → Mangler → SwiftType → Bytes × Mangler → Type 0
TypeReads fuel m t o =
    LeadsType o.0 × ((rest : Bytes) → read_type fuel m (o.0 ++ rest) ≡ some (t, (o.1, rest)))

abbrev pub FieldsRead : ℕ → Mangler → Fields → Bytes × Mangler → Type 0
FieldsRead fuel m fields o =
    (rest : Bytes) → read_fields fuel m (o.0 ++ rest) ≡ some (fields, (o.1, rest))

-- A character that a nominal type begins with makes the reader read a context.
type_step-nominal :
    (contexts : Mangler → Bytes → Read Context) (types : Mangler → Bytes → Read SwiftType)
    (fields : Mangler → Bytes → Read Fields) (lead : Lead) (m : Mangler) (c : ℕ) (s : Bytes)
    → IsNominalLead lead
    → type_step contexts types fields lead m c s
      ≡ (contexts m (c ∷ s) >>= λ o. as_type o.0 >>= λ t. some (t, o.1))
unfolding type_step
type_step-nominal contexts types fields substitution_lead m c s h = refl
type_step-nominal contexts types fields (kind_lead k) m c s h = refl
type_step-nominal contexts types fields digit_lead m c s h = absurd h
type_step-nominal contexts types fields builtin_lead m c s h = absurd h
type_step-nominal contexts types fields meta_lead m c s h = absurd h
type_step-nominal contexts types fields value_lead m c s h = absurd h
type_step-nominal contexts types fields tuple_lead m c s h = absurd h
type_step-nominal contexts types fields generic_lead m c s h = absurd h
type_step-nominal contexts types fields function_lead m c s h = absurd h
type_step-nominal contexts types fields array_lead m c s h = absurd h
type_step-nominal contexts types fields end_lead m c s h = absurd h
type_step-nominal contexts types fields no_lead m c s h = absurd h

fields_step-type :
    (contexts : Mangler → Bytes → Read Context) (types : Mangler → Bytes → Read SwiftType)
    (fields : Mangler → Bytes → Read Fields) (lead : Lead) (m : Mangler) (c : ℕ) (s : Bytes)
    → IsTypeLead lead
    → fields_step contexts types fields lead m c s ≡ field_of contexts types fields [] m (c ∷ s)
unfolding fields_step
fields_step-type contexts types fields substitution_lead m c s h = refl
fields_step-type contexts types fields (kind_lead k) m c s h = refl
fields_step-type contexts types fields builtin_lead m c s h = refl
fields_step-type contexts types fields meta_lead m c s h = refl
fields_step-type contexts types fields value_lead m c s h = refl
fields_step-type contexts types fields tuple_lead m c s h = refl
fields_step-type contexts types fields generic_lead m c s h = refl
fields_step-type contexts types fields function_lead m c s h = refl
fields_step-type contexts types fields array_lead m c s h = refl
fields_step-type contexts types fields digit_lead m c s h = absurd h
fields_step-type contexts types fields end_lead m c s h = absurd h
fields_step-type contexts types fields no_lead m c s h = absurd h

-- One lemma for each case: how the text of the parts makes the text of the whole read.
pub nominal-TypeReads :
    (fuel : ℕ) (kind : NominalKind) (parent : Context) (name : Bytes) (m : Mangler)
    (o : Bytes × Mangler)
    → NominalReads fuel m (nominal_decl kind parent name) o
    → TypeReads (suc fuel) m (nominal kind parent name) o
unfolding read_type
nominal-TypeReads fuel kind parent name m ([], m1) (leads, reads) = absurd leads
nominal-TypeReads fuel kind parent name m (c ∷ out, m1) (leads, reads) = (
  nominal-IsTypeLead (lead_of c) leads,
  λ rest.
      type_step-nominal (read_context fuel) (read_type fuel) (read_fields fuel) (lead_of c) m c
        (out ++ rest) leads
      ∙ ap (λ r. r >>= λ o. as_type o.0 >>= λ t. some (t, o.1)) (reads rest),
)

pub meta-TypeReads :
    (fuel : ℕ) (t : SwiftType) (m : Mangler) (o : Bytes × Mangler)
    → TypeReads fuel m t o
    → TypeReads (suc fuel) m (meta_type t) (b'M' ∷ o.0, o.1)
unfolding read_type type_step lead_of
meta-TypeReads fuel t m o h = (tt, λ rest. rw (h.1 rest) refl)

pub l_value-TypeReads :
    (fuel : ℕ) (t : SwiftType) (m : Mangler) (o : Bytes × Mangler)
    → TypeReads fuel m t o
    → TypeReads (suc fuel) m (l_value default_for_type t) (b'R' ∷ o.0, o.1)
unfolding read_type type_step lead_of
l_value-TypeReads fuel t m o h = (tt, λ rest. rw (h.1 rest) refl)

pub tuple-TypeReads :
    (fuel : ℕ) (fields : Fields) (m : Mangler) (o : Bytes × Mangler)
    → FieldsRead fuel m fields o
    → TypeReads (suc fuel) m (tuple fields) (b'T' ∷ o.0, o.1)
unfolding read_type type_step lead_of
tuple-TypeReads fuel fields m o h = (tt, λ rest. rw (h rest) refl)

pub generic-TypeReads :
    (fuel : ℕ) (kind : NominalKind) (parent : Context) (name : Bytes) (arguments : Fields)
    (m : Mangler) (o p : Bytes × Mangler)
    → NominalReads fuel m (nominal_decl kind parent name) o
    → FieldsRead fuel o.1 arguments p
    → TypeReads (suc fuel) m (bound_generic kind parent name arguments) (b'G' ∷ o.0 ++ p.0, p.1)
unfolding read_type type_step lead_of
generic-TypeReads fuel kind parent name arguments m o p h k =
    (tt, λ rest. rw (append_assoc o.0 p.0 rest) (rw (h.1 (p.0 ++ rest)) (rw (k rest) refl)))

function_lead-of : (level : ℕ) → lead_of (function_letter level) ≡ function_lead
unfolding lead_of
function_lead-of level = elim (Bool-cases (ltb 0 level)) [
  | inl uncurried ↦ rw uncurried refl
  | inr curried ↦ rw curried refl
]

pub function-TypeReads :
    (fuel level : ℕ) (input result : SwiftType) (m : Mangler) (o p : Bytes × Mangler)
    → TypeReads fuel m input o
    → TypeReads fuel o.1 result p
    → TypeReads (suc fuel) m (function input result false) (function_letter level ∷ o.0 ++ p.0, p.1)
unfolding read_type type_step
function-TypeReads fuel level input result m o p h k = (
  rw (function_lead-of level) tt,
  λ rest.
      rw (function_lead-of level)
        (rw (append_assoc o.0 p.0 rest) (rw (h.1 (p.0 ++ rest)) (rw (k.1 rest) refl))),
)

pub named_field-FieldsRead :
    (fuel : ℕ) (name id : Bytes) (type : SwiftType) (fields : Fields) (m : Mangler)
    (o p : Bytes × Mangler)
    → StartsWithDigit id
    → ((rest : Bytes) → read_identifier (id ++ rest) ≡ some (name, rest))
    → TypeReads fuel m type o
    → FieldsRead fuel o.1 fields p
    → FieldsRead (suc fuel) m (plain_field name type fields) (id ++ o.0 ++ p.0, p.1)
unfolding read_fields fields_step
named_field-FieldsRead fuel name [] type fields m o p starts reads h k = absurd starts
named_field-FieldsRead fuel name (c ∷ id) type fields m o p starts reads h k = λ rest.
    rw (append_assoc (id ++ o.0) p.0 rest) (
      rw (append_assoc id o.0 (p.0 ++ rest)) (
        rw (lead-digit c starts)
          (rw (reads (o.0 ++ (p.0 ++ rest))) (rw (h.1 (p.0 ++ rest)) (rw (k rest) refl)))))

pub unnamed_field-FieldsRead :
    (fuel : ℕ) (type : SwiftType) (fields : Fields) (m : Mangler) (o p : Bytes × Mangler)
    → TypeReads fuel m type o
    → FieldsRead fuel o.1 fields p
    → FieldsRead (suc fuel) m (plain_field [] type fields) (o.0 ++ p.0, p.1)
unfolding read_fields
unnamed_field-FieldsRead fuel type fields m ([], m1) p (leads, reads) k = absurd leads
unnamed_field-FieldsRead fuel type fields m (c ∷ out, m1) p (leads, reads) k = λ rest.
    fields_step-type (read_context fuel) (read_type fuel) (read_fields fuel) (lead_of c) m c
      ((out ++ p.0) ++ rest) leads
    ∙ rw (append_assoc out p.0 rest) (rw (reads (p.0 ++ rest)) (rw (k rest) refl))

pub end-FieldsRead : (fuel : ℕ) (m : Mangler) → FieldsRead (suc fuel) m no_field (b'_' ∷ [], m)
unfolding read_fields fields_step lead_of
end-FieldsRead fuel m rest = refl

some_size : (t : SwiftType) → 1 ≤ type_size t
unfolding type_size
some_size error_type = omega arith
some_size unresolved_type = omega arith
some_size module_type = omega arith
some_size (builtin_float k) = omega arith
some_size (builtin_integer w) = omega arith
some_size builtin_raw_pointer = omega arith
some_size builtin_object_pointer = omega arith
some_size builtin_objc_pointer = omega arith
some_size (sugared t) = omega arith
some_size (meta_type t) = omega arith
some_size (l_value q t) = omega arith
some_size (tuple fields) = omega arith
some_size (nominal k c n) = omega arith
some_size (bound_generic k c n fields) = omega arith
some_size (polymorphic_function lists t u) = omega arith
some_size (archetype a) = omega arith
some_size (function t u b) = omega arith
some_size (array n t) = omega arith
some_size (protocol_composition l) = omega arith

pub no_fuel : (t : SwiftType) → type_size t ≤ 0 → ⊥
no_fuel t h = omega (arith, some_size t)

-- Builtin types.
pub float-TypeReads :
    (fuel : ℕ) (kind : FpKind) (m : Mangler)
    → Returns (float_width kind) (λ width. Unit {0})
    → Returns
        (float_width kind >>= λ width. some (b'B' ∷ b'f' ∷ width ++ b'_' ∷ [], m))
        (TypeReads (suc fuel) m (builtin_float kind))
unfolding read_type type_step lead_of with_width read_digits is_digit
float-TypeReads fuel ieee16 m plain = (tt, λ rest. refl)
float-TypeReads fuel ieee32 m plain = (tt, λ rest. refl)
float-TypeReads fuel ieee64 m plain = (tt, λ rest. refl)
float-TypeReads fuel ieee80 m plain = (tt, λ rest. refl)
float-TypeReads fuel ieee128 m plain = (tt, λ rest. refl)
float-TypeReads fuel ppc128 m plain = absurd plain

pub pointers-TypeReads :
    (fuel : ℕ) (m : Mangler)
    → TypeReads (suc fuel) m builtin_raw_pointer (b'B' ∷ b'p' ∷ [], m)
      × TypeReads (suc fuel) m builtin_object_pointer (b'B' ∷ b'o' ∷ [], m)
      × TypeReads (suc fuel) m builtin_objc_pointer (b'B' ∷ b'O' ∷ [], m)
unfolding read_type type_step lead_of
pointers-TypeReads fuel m = ((tt, λ rest. refl), (tt, λ rest. refl), (tt, λ rest. refl))
