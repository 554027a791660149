-- ===== src/IrGen/Mangle.antt =====
-- The mangling of names and types (lib/IRGen/Mangle.cpp). A routine returns what it appends to the
-- buffer and the new state; `none` is a failed assertion or `llvm_unreachable`. A declaration is
-- its kind, its context and its name, which also stand for the pointer that identifies it. The
-- explosion level, which no routine looks at, is left out.
pub mod Reader
pub mod Words
pub mod Keys
pub mod Contexts
pub mod Parts
pub mod Types
pub mod Ambiguity
use b1c3995fdcf53d46308da.Base.{
  same_bytes, ℕ, zero, suc, ◌+◌, ◌-◌, ◌==◌, ltb, leb, ◌&&◌, ◌||◌, not, Bool, true, false,
  if◌then◌else◌, Option, none, some, List, [], ◌∷◌, ◌++◌, map, length, ◌>>=◌, Bytes,
}
use b1c3995fdcf53d46308da.Parse.Chars.{is_operator_char}

-- `mangleOperatorChar`
abbrev pub mangle_operator_char : ℕ → Option ℕ
mangle_operator_char op =
    if op == b'&'
    then some b'a'
    else if op == b'/'
    then some b'd'
    else if op == b'='
    then some b'e'
    else if op == b'>'
    then some b'g'
    else if op == b'<'
    then some b'l'
    else if op == b'*'
    then some b'm'
    else if op == b'!'
    then some b'n'
    else if op == b'|'
    then some b'o'
    else if op == b'+'
    then some b'p'
    else if op == b'%'
    then some b'r'
    else if op == b'-'
    then some b's'
    else if op == b'^'
    then some b'x'
    else if op == b'~'
    then some b't'
    else if op == b'.'
    then some b'z'
    else none

-- The kinds of nominal declarations.
pub data NominalKind : Type 0 where
  protocol_decl class_decl oneof_decl struct_decl : NominalKind

-- `getSpecifierForNominalType`
abbrev pub get_specifier_for_nominal_type : NominalKind → ℕ
get_specifier_for_nominal_type protocol_decl = b'P'
get_specifier_for_nominal_type class_decl = b'C'
get_specifier_for_nominal_type oneof_decl = b'O'
get_specifier_for_nominal_type struct_decl = b'V'

abbrev pub same_kind : NominalKind → NominalKind → Bool
same_kind k l = get_specifier_for_nominal_type k == get_specifier_for_nominal_type l

-- `DeclContext`. A module has a parent or not; the contexts of closures, constructors and
-- destructors and of top-level code are numbers.
pub data Context : Type 0 where
  builtin_module : Context
  top_module : Bytes → Context
  sub_module : Context → Bytes → Context
  nominal_decl : NominalKind → Context → Bytes → Context
  extension_decl : NominalKind → Context → Bytes → Context
  local_context : ℕ → Context

-- The identity of declarations.
abbrev pub same_context : Context → Context → Bool
same_context builtin_module builtin_module = true
same_context (top_module n) (top_module m) = same_bytes n m
same_context (sub_module c n) (sub_module d m) = same_context c d && same_bytes n m
same_context (nominal_decl k c n) (nominal_decl l d m) =
    same_kind k l && (same_context c d && same_bytes n m)
same_context (extension_decl k c n) (extension_decl l d m) =
    same_kind k l && (same_context c d && same_bytes n m)
same_context (local_context i) (local_context j) = i == j
same_context c d = false

-- "swift"
abbrev pub swift_name : Bytes
swift_name = b's' ∷ b'w' ∷ b'i' ∷ b'f' ∷ b't' ∷ []

-- `isSwiftModule`, of the module that a context is.
abbrev pub is_swift_module : Context → Bool
is_swift_module (top_module name) = same_bytes name swift_name
is_swift_module c = false

-- `ArchetypeInfo`, with the archetype it is recorded for.
pub record ArchetypeInfo : Type 0 where
  pub archetype : ℕ
  pub depth : ℕ
  pub index : ℕ

-- The `Mangler` without its buffer: the substitutions in the order of their numbers.
pub record Mangler : Type 0 where
  pub substitutions : List Context
  pub archetypes : List ArchetypeInfo
  pub archetypes_depth : ℕ

abbrev pub index_of : Context → List Context → Option ℕ
index_of key [] = none
index_of key (c ∷ cs) =
    if same_context key c then some 0 else (index_of key cs >>= λ i. some (suc i))

-- `addSubstitution`: `insert` keeps an entry that is there.
abbrev pub insert_new : Option ℕ → Context → List Context → List Context
insert_new (some i) key cs = cs
insert_new none key cs = cs ++ key ∷ []

unfoldable pub add_substitution : Context → Mangler → Mangler
add_substitution key m = record m {
  substitutions = insert_new (index_of key m.substitutions) key m.substitutions;
}

-- What is appended, with the new state.
abbrev pub Mangled : Type 0
Mangled = Option (Bytes × Mangler)

-- Standard types: the letter behind `S`.
abbrev pub standard_letter : Bytes → Option ℕ
standard_letter name =
    if same_bytes name (b'I' ∷ b'n' ∷ b't' ∷ b'6' ∷ b'4' ∷ [])
    then some b'i'
    else if same_bytes name (b'U' ∷ b'I' ∷ b'n' ∷ b't' ∷ b'6' ∷ b'4' ∷ [])
    then some b'u'
    else if same_bytes name (b'B' ∷ b'o' ∷ b'o' ∷ b'l' ∷ [])
    then some b'b'
    else if same_bytes name (b'C' ∷ b'h' ∷ b'a' ∷ b'r' ∷ [])
    then some b'c'
    else if same_bytes name (b'D' ∷ b'o' ∷ b'u' ∷ b'b' ∷ b'l' ∷ b'e' ∷ [])
    then some b'd'
    else if same_bytes name (b'F' ∷ b'l' ∷ b'o' ∷ b'a' ∷ b't' ∷ [])
    then some b'f'
    else if same_bytes name (b'S' ∷ b't' ∷ b'r' ∷ b'i' ∷ b'n' ∷ b'g' ∷ [])
    then some b'S'
    else none

-- `tryMangleStandardSubstitution`
unfoldable pub try_mangle_standard_substitution : Context → Bytes → Option Bytes
try_mangle_standard_substitution parent name =
    if is_swift_module parent then (standard_letter name >>= λ c. some (b'S' ∷ c ∷ [])) else none

-- What stands for a substitution that was found, or else the rest of the mangling.
abbrev pub found_or_mangle : Option Bytes → Mangler → Mangled → Mangled
found_or_mangle (some out) m rest = some (out, m)
found_or_mangle none m rest = rest

abbrev pub adding : Context → Mangled → Mangled
adding key r = r >>= λ o. some (o.0, add_substitution key o.1)

-- `BuiltinFloatType::FPKind`, and the decimal width of the kinds that can be mangled.
pub data FpKind : Type 0 where
  ieee16 ieee32 ieee64 ieee80 ieee128 ppc128 : FpKind

abbrev pub float_width : FpKind → Option Bytes
float_width ieee16 = some (b'1' ∷ b'6' ∷ [])
float_width ieee32 = some (b'3' ∷ b'2' ∷ [])
float_width ieee64 = some (b'6' ∷ b'4' ∷ [])
float_width ieee80 = some (b'8' ∷ b'0' ∷ [])
float_width ieee128 = some (b'1' ∷ b'2' ∷ b'8' ∷ [])
float_width ppc128 = none

-- `Qual::DefaultForType`, the qualifiers of a [byref] type.
abbrev pub default_for_type : ℕ
default_for_type = 1

-- Types, with all that tells one from another. Sugar is what it stands for, an archetype its
-- number. An l-value has the bits of its qualifiers in front, a function type its auto-closure
-- bit behind.
mutual
  pub data SwiftType : Type 0 where
    error_type unresolved_type module_type : SwiftType
    builtin_float : FpKind → SwiftType
    builtin_integer : ℕ → SwiftType
    builtin_raw_pointer builtin_object_pointer builtin_objc_pointer : SwiftType
    sugared : SwiftType → SwiftType
    meta_type : SwiftType → SwiftType
    l_value : ℕ → SwiftType → SwiftType
    tuple : Fields → SwiftType
    nominal : NominalKind → Context → Bytes → SwiftType
    bound_generic : NominalKind → Context → Bytes → Fields → SwiftType
    polymorphic_function :
        List (List (ℕ × List (Context × Bytes))) → SwiftType → SwiftType → SwiftType
    archetype : ℕ → SwiftType
    function : SwiftType → SwiftType → Bool → SwiftType
    array : ℕ → SwiftType → SwiftType
    protocol_composition : List (Context × Bytes) → SwiftType

  -- The elements of a tuple: the name, empty for none, the type, the address of the default value,
  -- if there is one, and the base type of a variadic element; and the arguments of a generic type.
  pub data Fields : Type 0 where
    no_field : Fields
    field : Bytes → SwiftType → Option ℕ → VarargBase → Fields → Fields

  pub data VarargBase : Type 0 where
    no_vararg : VarargBase
    vararg_of : SwiftType → VarargBase

-- An element that is neither variadic nor has a default value.
abbrev pub plain_field : Bytes → SwiftType → Fields → Fields
plain_field name type fields = field name type none no_vararg fields

-- The depth and the index of an archetype; an entry that is there is kept.
abbrev pub find_archetype : ℕ → List ArchetypeInfo → Option ArchetypeInfo
find_archetype a [] = none
find_archetype a (i ∷ is) = if i.archetype == a then some i else find_archetype a is

abbrev pub add_archetype : ℕ → ℕ → Mangler → Mangler
add_archetype a index m = record m {
  archetypes =
      m.archetypes ++ record { archetype = a; depth = m.archetypes_depth; index = index } ∷ [];
}

-- `Identifier::isOperator`: an operator is told by its first character.
unfoldable pub is_operator : Bytes → Bool
unfolding is_operator_char
is_operator [] = false
is_operator (c ∷ name) = is_operator_char c

abbrev pub mangle_operator_chars : Bytes → Option Bytes
mangle_operator_chars [] = some []
mangle_operator_chars (c ∷ name) = do
  d ← mangle_operator_char c
  rest ← mangle_operator_chars name
  some (d ∷ rest)

abbrev pub function_letter : ℕ → ℕ
function_letter level = if ltb 0 level then b'f' else b'F'

abbrev pub after : Bytes → Mangled → Mangled
after prefix r = r >>= λ o. some (prefix ++ o.0, o.1)

abbrev pub deeper : Mangler → Mangler
deeper m = record m { archetypes_depth = m.archetypes_depth + 1 }

-- `decimal` is how the stream prints a number.
module _ (decimal : ℕ → Bytes) where
  -- `Index`
  abbrev pub mangle_index : ℕ → Bytes
  mangle_index zero = b'_' ∷ []
  mangle_index (suc n) = decimal n ++ b'_' ∷ []

  -- `mangleIdentifier`
  unfoldable pub mangle_identifier : Bytes → Option Bytes
  unfolding is_operator
  mangle_identifier [] = none
  mangle_identifier (c ∷ name) =
      if is_operator (c ∷ name)
      then (mangle_operator_chars (c ∷ name) >>= λ chars.
          some (b'o' ∷ b'p' ∷ decimal (length (c ∷ name)) ++ chars))
      else some (decimal (length (c ∷ name)) ++ c ∷ name)

  -- `tryMangleSubstitution`
  unfoldable pub try_mangle_substitution : Context → Mangler → Option Bytes
  try_mangle_substitution key m =
      index_of key m.substitutions >>= λ index. some (b'S' ∷ mangle_index index)

  -- `mangleDeclName` without a type, behind its context.
  unfoldable pub with_name : Bytes → Mangled → Mangled
  unfolding mangle_identifier
  with_name name context = do (out, m) ← context; id ← mangle_identifier name; some (out ++ id, m)

  -- The standard types, then the substitutions, then the specifier and the name.
  unfoldable pub nominal_in : Mangled → NominalKind → Context → Bytes → Mangler → Mangled
  unfolding try_mangle_standard_substitution try_mangle_substitution with_name add_substitution
  nominal_in in_context kind parent name m =
      found_or_mangle (try_mangle_standard_substitution parent name) m (
        found_or_mangle (try_mangle_substitution (nominal_decl kind parent name) m) m (
          adding (nominal_decl kind parent name)
            (after (get_specifier_for_nominal_type kind ∷ []) (with_name name in_context))))

  unfoldable pub module_in : Mangled → Context → Bytes → Mangler → Mangled
  unfolding try_mangle_substitution with_name add_substitution
  module_in in_parent key name m =
      found_or_mangle (try_mangle_substitution key m) m (adding key (with_name name in_parent))

  -- The case of an archetype.
  unfoldable pub mangle_archetype : ℕ → Mangler → Mangled
  mangle_archetype a m = do
    info ← find_archetype a m.archetypes
    if leb info.depth m.archetypes_depth
        then some (
          b'Q'
                ∷ (if m.archetypes_depth - info.depth == 0
                    then []
                    else b'd' ∷ mangle_index (m.archetypes_depth - info.depth - 1))
              ++ mangle_index info.index,
          m,
        )
        else none

  -- The name of a field, if it has one.
  unfoldable pub mangle_field_name : Bytes → Option Bytes
  unfolding mangle_identifier
  mangle_field_name [] = some []
  mangle_field_name (c ∷ name) = mangle_identifier (c ∷ name)

-- `mangle_local` mangles the contexts that are not modules, types or extensions.
module _ (decimal : ℕ → Bytes) (mangle_local : ℕ → Mangler → Mangled) where
  -- `mangleDeclContext`
  unfoldable pub mangle_decl_context : Context → Mangler → Mangled
  unfolding nominal_in module_in
  mangle_decl_context builtin_module m = none
  mangle_decl_context (top_module name) m =
      if is_swift_module (top_module name)
      then some (b'S' ∷ b's' ∷ [], m)
      else module_in decimal (some ([], m)) (top_module name) name m
  mangle_decl_context (sub_module parent name) m =
      module_in decimal (mangle_decl_context parent m) (sub_module parent name) name m
  mangle_decl_context (nominal_decl kind parent name) m =
      nominal_in decimal (mangle_decl_context parent m) kind parent name m
  mangle_decl_context (extension_decl kind parent name) m =
      nominal_in decimal (mangle_decl_context parent m) kind parent name m
  mangle_decl_context (local_context i) m = mangle_local i m

  -- `mangleNominalType`
  unfoldable pub mangle_nominal_type : NominalKind → Context → Bytes → Mangler → Mangled
  unfolding mangle_decl_context nominal_in
  mangle_nominal_type kind parent name m =
      nominal_in decimal (mangle_decl_context parent m) kind parent name m

  -- `mangleProtocolName`
  unfoldable pub mangle_protocol_name : Context → Bytes → Mangler → Mangled
  unfolding mangle_decl_context try_mangle_substitution with_name add_substitution
  mangle_protocol_name parent name m =
      found_or_mangle (try_mangle_substitution decimal (nominal_decl protocol_decl parent name) m) m
        (adding (nominal_decl protocol_decl parent name)
          (with_name decimal name (mangle_decl_context parent m)))

  -- `mangleProtocolList`
  unfoldable pub mangle_protocol_list : List (Context × Bytes) → Mangler → Mangled
  unfolding mangle_protocol_name
  mangle_protocol_list [] m = some ([], m)
  mangle_protocol_list ((parent, name) ∷ protocols) m = do
    (out, m1) ← mangle_protocol_name parent name m
    (rest, m2) ← mangle_protocol_list protocols m1
    some (out ++ rest, m2)

  -- The archetypes of one list of parameters, from an index on.
  unfoldable pub mangle_archetypes : ℕ → List (ℕ × List (Context × Bytes)) → Mangler → Mangled
  unfolding mangle_protocol_list
  mangle_archetypes index [] m = some ([], m)
  mangle_archetypes index ((a, protocols) ∷ archetypes) m = do
    (out, m1) ← mangle_protocol_list protocols (add_archetype a index m)
    (rest, m2) ← mangle_archetypes (index + 1) archetypes m1
    some (out ++ b'_' ∷ rest, m2)

  -- The lists of parameters, the outermost first.
  unfoldable pub mangle_parameter_lists :
      List (List (ℕ × List (Context × Bytes))) → Mangler → Mangled
  unfolding mangle_archetypes
  mangle_parameter_lists [] m = some (b'_' ∷ [], m)
  mangle_parameter_lists (parameters ∷ lists) m = do
    (out, m1) ← mangle_archetypes 0 parameters (deeper m)
    (rest, m2) ← mangle_parameter_lists lists m1
    some (out ++ rest, m2)

  unfoldable mutual
    unfolding mangle_nominal_type mangle_parameter_lists mangle_archetype mangle_protocol_list
        mangle_field_name

    -- `mangleType`
    pub mangle_type : SwiftType → ℕ → Mangler → Mangled
    mangle_type error_type level m = none
    mangle_type unresolved_type level m = none
    mangle_type module_type level m = none
    mangle_type (builtin_float kind) level m =
        float_width kind >>= λ width. some (b'B' ∷ b'f' ∷ width ++ b'_' ∷ [], m)
    mangle_type (builtin_integer width) level m = some (b'B' ∷ b'i' ∷ decimal width ++ b'_' ∷ [], m)
    mangle_type builtin_raw_pointer level m = some (b'B' ∷ b'p' ∷ [], m)
    mangle_type builtin_object_pointer level m = some (b'B' ∷ b'o' ∷ [], m)
    mangle_type builtin_objc_pointer level m = some (b'B' ∷ b'O' ∷ [], m)
    mangle_type (sugared t) level m = mangle_type t level m
    mangle_type (meta_type t) level m = after (b'M' ∷ []) (mangle_type t 0 m)
    mangle_type (l_value quals t) level m = after (b'R' ∷ []) (mangle_type t 0 m)
    mangle_type (tuple fields) level m = after (b'T' ∷ []) (mangle_fields fields m)
    mangle_type (nominal kind parent name) level m = mangle_nominal_type kind parent name m
    mangle_type (bound_generic kind parent name arguments) level m = do
      (out, m1) ← mangle_nominal_type kind parent name m
      (rest, m2) ← mangle_fields arguments m1
      some (b'G' ∷ out ++ rest, m2)
    mangle_type (polymorphic_function lists input result) level m = do
      (out, m1) ← mangle_parameter_lists lists m
      (out1, m2) ← mangle_type input 0 m1
      (out2, m3) ← mangle_type result (level - 1) m2
      some (
        b'U' ∷ out ++ function_letter level ∷ out1 ++ out2,
        record m3 { archetypes_depth = m.archetypes_depth },
      )
    mangle_type (archetype a) level m = mangle_archetype decimal a m
    mangle_type (function input result is_auto_closure) level m = do
      (out, m1) ← mangle_type input 0 m
      (rest, m2) ← mangle_type result (level - 1) m1
      some (function_letter level ∷ out ++ rest, m2)
    mangle_type (array size base) level m = after (b'A' ∷ decimal size) (mangle_type base 0 m)
    mangle_type (protocol_composition protocols) level m =
        if length protocols == 1
        then none
        else (mangle_protocol_list protocols m >>= λ o. some (b'P' ∷ o.0 ++ b'_' ∷ [], o.1))

    -- The loops over fields and arguments, with the `_` behind them.
    pub mangle_fields : Fields → Mangler → Mangled
    mangle_fields no_field m = some (b'_' ∷ [], m)
    mangle_fields (field name type init vararg_base fields) m = do
      out ← mangle_field_name decimal name
      (out1, m1) ← mangle_type type 0 m
      (rest, m2) ← mangle_fields fields m1
      some (out ++ out1 ++ rest, m2)
