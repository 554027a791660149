-- ===== src/IrGen/StructLayout.antt =====
-- lib/IRGen/StructLayout.cpp: the constructor of `StructLayout`, and the heap header. Sizes and
-- alignments are numbers of bytes, sizes in 64 bits.
pub mod Placement
use b1c3995fdcf53d46308da.Base.{
  asserting, ℕ, ◌+◌, ◌-◌, ◌*◌, ◌%◌, Bool, true, false, not, ◌&&◌, ◌==◌, leb, ltb, if◌then◌else◌,
  Option, none, some, ◌>>=◌, List, [], ◌∷◌, ◌++◌, length,
}

-- `ResilienceScope`, the two that a layout strategy asks for.
pub data ResilienceScope : Type 0 where
  local program : ResilienceScope

pub data LayoutStrategy : Type 0 where
  optimal universal : LayoutStrategy

pub data LayoutKind : Type 0 where
  non_heap_object heap_object : LayoutKind

-- `getResilienceScopeForStrategy`
abbrev pub get_resilience_scope_for_strategy : LayoutStrategy → ResilienceScope
get_resilience_scope_for_strategy optimal = local
get_resilience_scope_for_strategy universal = program

-- `requiresHeapHeader`
abbrev pub requires_heap_header : LayoutKind → Bool
requires_heap_header non_heap_object = false
requires_heap_header heap_object = true

-- What the layout reads of a `TypeInfo`, with the alignment that LLVM's data layout gives the
-- storage type; `storage_type` stands for the LLVM type.
pub record TypeInfo : Type 0 where
  pub storage_size : ℕ
  pub storage_alignment : ℕ
  pub abi_alignment : ℕ
  pub storage_type : ℕ

-- `TypeInfo::isEmpty`, which does not read the scope.
abbrev pub is_empty : ResilienceScope → TypeInfo → Bool
is_empty scope type = type.storage_size == 0

-- The fields of the LLVM struct: the heap header, an array of bytes or a storage type.
pub data StorageType : Type 0 where
  ref_counted_struct : StorageType
  int8_array : ℕ → StorageType
  storage_of : ℕ → StorageType

-- The pointers of the target, `getPointerSize` and `getPointerAlignment`.
pub record Target : Type 0 where
  pub pointer_size : ℕ
  pub pointer_alignment : ℕ

pub record ElementLayout : Type 0 where
  pub byte_offset : ℕ
  pub struct_index : ℕ
  pub type : TypeInfo

-- The local variables of the constructor.
pub record State : Type 0 where
  pub storage_size : ℕ
  pub storage_align : ℕ
  pub storage_types : List StorageType
  pub elements : List ElementLayout
  pub is_empty : Bool

-- The result; the type is the list of its fields, or nothing for the opaque type.
pub record StructLayout : Type 0 where
  pub align : ℕ
  pub total_size : ℕ
  pub ty : Option (List StorageType)
  pub elements : List ElementLayout

-- `getHeapHeaderSize`
abbrev pub get_heap_header_size : Target → ℕ
get_heap_header_size target = target.pointer_size * 2

-- What the constructor starts from.
unfoldable pub start_layout : Target → LayoutKind → State
start_layout target kind =
    if requires_heap_header kind
    then (record {
      storage_size = target.pointer_size * 2;
      storage_align = target.pointer_alignment;
      storage_types = ref_counted_struct ∷ [];
      elements = [];
      is_empty = true;
    })
    else (record {
      storage_size = 0;
      storage_align = 1;
      storage_types = [];
      elements = [];
      is_empty = true;
    })

-- `std::max`
abbrev pub max : ℕ → ℕ → ℕ
max a b = if ltb a b then b else a

-- The padding that brings a size to a multiple of the alignment.
abbrev pub padding_required : ℕ → ℕ → ℕ
padding_required size alignment = if size % alignment == 0 then 0 else alignment - size % alignment

-- The fields of the struct after the padding, and the assertion on the alignments.
abbrev pub pad_types : TypeInfo → State → Option (List StorageType)
pad_types type s =
    if s.storage_size % type.storage_alignment == 0
    then some s.storage_types
    else if leb type.abi_alignment type.storage_alignment
    then some (
        if type.abi_alignment == type.storage_alignment
        then s.storage_types
        else s.storage_types
          ++ int8_array (padding_required s.storage_size type.storage_alignment) ∷ [])
    else none

-- The element of a type known to be empty.
abbrev pub empty_element : TypeInfo → ElementLayout
empty_element type = record { byte_offset = 0; struct_index = 4294967295; type = type }

-- The element at the padded offset, whose storage type comes after these fields.
abbrev pub place : TypeInfo → State → List StorageType → State
place type s types =
    let offset =
      (s.storage_size + padding_required s.storage_size type.storage_alignment)
      % 18446744073709551616 in
    record {
      storage_size = (offset + type.storage_size) % 18446744073709551616;
      storage_align = max s.storage_align type.storage_alignment;
      storage_types = types ++ storage_of type.storage_type ∷ [];
      elements =
          s.elements
          ++ (record { byte_offset = offset; struct_index = length types; type = type }) ∷ [];
      is_empty = false;
    }

-- One round of the loop over the types.
unfoldable pub add_type : ResilienceScope → TypeInfo → State → Option State
add_type resilience type s =
    if is_empty resilience type
    then some (record s { elements = s.elements ++ empty_element type ∷ [] })
    else (pad_types type s >>= λ types. some (place type s types))

unfoldable pub add_types : ResilienceScope → List TypeInfo → State → Option State
unfolding add_type
add_types resilience [] s = some s
add_types resilience (type ∷ types) s =
    add_type resilience type s >>= λ s'. add_types resilience types s'

-- `!storageTypes.empty() == requiresHeapHeader(layoutKind)`
abbrev pub has_header_only : LayoutKind → List StorageType → Bool
has_header_only kind [] = not (requires_heap_header kind)
has_header_only kind (t ∷ types) = requires_heap_header kind

-- The special case that nothing is stored, with its assertion, or the layout.
unfoldable pub finish_layout : LayoutKind → State → Option StructLayout
finish_layout kind s =
    if s.is_empty
    then asserting (has_header_only kind s.storage_types)
        (some (record { align = 1; total_size = 0; ty = none; elements = s.elements }))
    else some (record {
      align = s.storage_align;
      total_size = s.storage_size;
      ty = some s.storage_types;
      elements = s.elements;
    })

-- The constructor without a type to fill. `none` is a failed assertion.
unfoldable pub struct_layout :
    Target → LayoutKind → LayoutStrategy → List TypeInfo → Option StructLayout
unfolding start_layout add_types finish_layout
struct_layout target kind strategy types =
    add_types (get_resilience_scope_for_strategy strategy) types (start_layout target kind) >>= λ s.
    finish_layout kind s
