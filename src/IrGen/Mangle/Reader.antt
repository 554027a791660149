-- ===== src/IrGen/Mangle/Reader.antt =====
-- A reader of mangled types (lib/IRGen/Mangle.cpp), for types without generic parameters,
-- protocol compositions and nested modules. What no mangling tells, it takes to be the default.
use b1c3995fdcf53d46308da.Base.{
  ℕ, zero, suc, ◌+◌, ◌-◌, ◌*◌, ◌==◌, ◌||◌, true, false, if◌then◌else◌, Option, none, some, [], ◌∷◌,
  get_elem?, ◌>>=◌, Bytes,
}
use b1c3995fdcf53d46308da.Parse.Chars.{is_digit}
use b1c3995fdcf53d46308da.IrGen.Mangle.{
  NominalKind, protocol_decl, class_decl, oneof_decl, struct_decl, Context, top_module,
  nominal_decl, swift_name, Mangler, add_substitution, FpKind, ieee16, ieee32, ieee64, ieee80,
  ieee128, SwiftType, builtin_float, builtin_integer, builtin_raw_pointer, builtin_object_pointer,
  builtin_objc_pointer, meta_type, l_value, tuple, nominal, bound_generic, function, array, Fields,
  no_field, plain_field, default_for_type,
}

-- A number, and what is behind it.
unfoldable pub read_digits : ℕ → Bytes → ℕ × Bytes
unfolding is_digit
read_digits n [] = (n, [])
read_digits n (c ∷ s) = elim (is_digit c) [
  | true ↦ read_digits (n * 10 + (c - b'0')) s
  | false ↦ (n, c ∷ s)
]

abbrev pub expect : ℕ → Bytes → Option Bytes
expect c [] = none
expect c (d ∷ s) = if d == c then some s else none

unfoldable pub read_index : Bytes → Option (ℕ × Bytes)
unfolding read_digits
read_index [] = none
read_index (c ∷ s) =
    if c == b'_'
    then some (0, s)
    else (expect b'_' (read_digits 0 (c ∷ s)).1 >>= λ rest.
        some (suc (read_digits 0 (c ∷ s)).0, rest))

unfoldable pub split_at : ℕ → Bytes → Option (Bytes × Bytes)
split_at zero s = some ([], s)
split_at (suc n) [] = none
split_at (suc n) (c ∷ s) = split_at n s >>= λ p. some (c ∷ p.0, p.1)

unfoldable pub read_identifier : Bytes → Option (Bytes × Bytes)
unfolding read_digits split_at
read_identifier s = split_at (read_digits 0 s).0 (read_digits 0 s).1

-- What is read, the new state and the rest.
abbrev pub Read : Type 0 → Type 0
Read A = Option (A × (Mangler × Bytes))

-- What a first character leads to.
pub data Lead : Type 0 where
  substitution_lead digit_lead builtin_lead meta_lead value_lead tuple_lead generic_lead : Lead
  function_lead array_lead end_lead no_lead : Lead
  kind_lead : NominalKind → Lead

unfoldable pub lead_of : ℕ → Lead
unfolding is_digit
lead_of c =
    if c == b'S'
    then substitution_lead
    else if c == b'P'
    then kind_lead protocol_decl
    else if c == b'C'
    then kind_lead class_decl
    else if c == b'O'
    then kind_lead oneof_decl
    else if c == b'V'
    then kind_lead struct_decl
    else if c == b'B'
    then builtin_lead
    else if c == b'M'
    then meta_lead
    else if c == b'R'
    then value_lead
    else if c == b'T'
    then tuple_lead
    else if c == b'G'
    then generic_lead
    else if c == b'F' || c == b'f'
    then function_lead
    else if c == b'A'
    then array_lead
    else if c == b'_'
    then end_lead
    else if is_digit c
    then digit_lead
    else no_lead

-- The context that a letter behind `S` stands for.
abbrev pub standard : ℕ → Option Context
standard c =
    if c == b's'
    then some (top_module swift_name)
    else if c == b'i'
    then some
        (nominal_decl struct_decl (top_module swift_name) (b'I' ∷ b'n' ∷ b't' ∷ b'6' ∷ b'4' ∷ []))
    else if c == b'u'
    then some (
        nominal_decl struct_decl (top_module swift_name)
          (b'U' ∷ b'I' ∷ b'n' ∷ b't' ∷ b'6' ∷ b'4' ∷ []))
    else if c == b'b'
    then some (nominal_decl struct_decl (top_module swift_name) (b'B' ∷ b'o' ∷ b'o' ∷ b'l' ∷ []))
    else if c == b'c'
    then some (nominal_decl struct_decl (top_module swift_name) (b'C' ∷ b'h' ∷ b'a' ∷ b'r' ∷ []))
    else if c == b'd'
    then some (
        nominal_decl struct_decl (top_module swift_name)
          (b'D' ∷ b'o' ∷ b'u' ∷ b'b' ∷ b'l' ∷ b'e' ∷ []))
    else if c == b'f'
    then some
        (nominal_decl struct_decl (top_module swift_name) (b'F' ∷ b'l' ∷ b'o' ∷ b'a' ∷ b't' ∷ []))
    else if c == b'S'
    then some (
        nominal_decl struct_decl (top_module swift_name)
          (b'S' ∷ b't' ∷ b'r' ∷ b'i' ∷ b'n' ∷ b'g' ∷ []))
    else none

abbrev pub this_or_index : Option Context → Mangler → Bytes → Bytes → Read Context
this_or_index (some c) m behind s = some (c, (m, behind))
this_or_index none m behind s = do
  (i, rest) ← read_index s
  c ← get_elem? m.substitutions i
  some (c, (m, rest))

abbrev pub read_substitution : Mangler → Bytes → Read Context
read_substitution m [] = none
read_substitution m (c ∷ s) = this_or_index (standard c) m s (c ∷ s)

unfoldable pub read_module : Mangler → Bytes → Read Context
unfolding read_identifier add_substitution
read_module m s = do
  (name, rest) ← read_identifier s
  some (top_module name, (add_substitution (top_module name) m, rest))

-- A name in a context, which is then a substitution.
unfoldable pub read_name : NominalKind → Context → Mangler → Bytes → Read Context
unfolding read_identifier add_substitution
read_name kind parent m s = do
  (name, rest) ← read_identifier s
  some (nominal_decl kind parent name, (add_substitution (nominal_decl kind parent name) m, rest))

abbrev pub context_step :
    (Mangler → Bytes → Read Context) → Lead → Mangler → ℕ → Bytes → Read Context
context_step go substitution_lead m c s = read_substitution m s
context_step go digit_lead m c s = read_module m (c ∷ s)
context_step go (kind_lead kind) m c s = do
  (parent, (m1, rest)) ← go m s
  read_name kind parent m1 rest
context_step go lead m c s = none

unfoldable pub read_context : ℕ → Mangler → Bytes → Read Context
read_context zero m s = none
read_context (suc fuel) m [] = none
read_context (suc fuel) m (c ∷ s) = context_step (read_context fuel) (lead_of c) m c s

abbrev pub as_type : Context → Option SwiftType
as_type (nominal_decl kind parent name) = some (nominal kind parent name)
as_type c = none

abbrev pub with_arguments : Context → Fields → Option SwiftType
with_arguments (nominal_decl kind parent name) fields = some (bound_generic kind parent name fields)
with_arguments c fields = none

abbrev pub fp_kind : ℕ → Option FpKind
fp_kind n =
    if n == 16
    then some ieee16
    else if n == 32
    then some ieee32
    else if n == 64
    then some ieee64
    else if n == 80
    then some ieee80
    else if n == 128
    then some ieee128
    else none

unfoldable pub with_width : (ℕ → Option SwiftType) → Mangler → Bytes → Read SwiftType
unfolding read_digits
with_width make m s = do
  rest ← expect b'_' (read_digits 0 s).1
  t ← make (read_digits 0 s).0
  some (t, (m, rest))

abbrev pub read_builtin : Mangler → Bytes → Read SwiftType
read_builtin m [] = none
read_builtin m (c ∷ s) =
    if c == b'p'
    then some (builtin_raw_pointer, (m, s))
    else if c == b'o'
    then some (builtin_object_pointer, (m, s))
    else if c == b'O'
    then some (builtin_objc_pointer, (m, s))
    else if c == b'i'
    then with_width (λ n. some (builtin_integer n)) m s
    else if c == b'f'
    then with_width (λ n. fp_kind n >>= λ k. some (builtin_float k)) m s
    else none

abbrev pub reading : {A B : Type 0} → (A → B) → Read A → Read B
reading f r = r >>= λ o. some (f o.0, o.1)

module _ (contexts : Mangler → Bytes → Read Context) (types : Mangler → Bytes → Read SwiftType)
    (fields : Mangler → Bytes → Read Fields) where
  unfoldable pub type_step : Lead → Mangler → ℕ → Bytes → Read SwiftType
  unfolding read_digits
  type_step builtin_lead m c s = read_builtin m s
  type_step meta_lead m c s = reading meta_type (types m s)
  type_step value_lead m c s = reading (l_value default_for_type) (types m s)
  type_step tuple_lead m c s = reading tuple (fields m s)
  type_step array_lead m c s = reading (array (read_digits 0 s).0) (types m (read_digits 0 s).1)
  type_step function_lead m c s = do
    (input, (m1, s1)) ← types m s
    (result, (m2, s2)) ← types m1 s1
    some (function input result false, (m2, s2))
  type_step generic_lead m c s = do
    (decl, (m1, s1)) ← contexts m s
    (arguments, (m2, s2)) ← fields m1 s1
    t ← with_arguments decl arguments
    some (t, (m2, s2))
  type_step substitution_lead m c s = contexts m (c ∷ s) >>= λ o. as_type o.0 >>= λ t. some (t, o.1)
  type_step (kind_lead kind) m c s = contexts m (c ∷ s) >>= λ o. as_type o.0 >>= λ t. some (t, o.1)
  type_step lead m c s = none

  abbrev pub field_of : Bytes → Mangler → Bytes → Read Fields
  field_of name m s = do
    (type, (m1, s1)) ← types m s
    (rest, (m2, s2)) ← fields m1 s1
    some (plain_field name type rest, (m2, s2))

  unfoldable pub fields_step : Lead → Mangler → ℕ → Bytes → Read Fields
  unfolding read_identifier
  fields_step end_lead m c s = some (no_field, (m, s))
  fields_step digit_lead m c s = do (name, s1) ← read_identifier (c ∷ s); field_of name m s1
  fields_step lead m c s = field_of [] m (c ∷ s)

unfoldable mutual
  pub read_type : ℕ → Mangler → Bytes → Read SwiftType
  read_type zero m s = none
  read_type (suc fuel) m [] = none
  read_type (suc fuel) m (c ∷ s) =
      type_step (read_context fuel) (read_type fuel) (read_fields fuel) (lead_of c) m c s

  pub read_fields : ℕ → Mangler → Bytes → Read Fields
  read_fields zero m s = none
  read_fields (suc fuel) m [] = none
  read_fields (suc fuel) m (c ∷ s) =
      fields_step (read_context fuel) (read_type fuel) (read_fields fuel) (lead_of c) m c s
