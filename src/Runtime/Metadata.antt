-- ===== src/Runtime/Metadata.antt =====
-- The runtime's metadata (runtime/Metadata.cpp, runtime/Metadata.h): the caches that make metadata
-- unique, the metadata of functions, metatypes and tuples, and the dynamic cast. A pointer is a
-- number, 0 the null pointer, and the entry of a cache stands for the metadata in it.
pub mod Unique
pub mod Types
pub mod Layout
pub mod Casts
use b1c3995fdcf53d46308da.Base.{
  ℕ, zero, suc, ◌+◌, ◌*◌, ◌%◌, ◌==◌, ltb, leb, ◌&&◌, ◌||◌, not, Bool, true, false, if◌then◌else◌,
  Option, none, some, List, [], ◌∷◌, ◌++◌, length, take, get_elem?, ◌>>=◌,
}

-- `CacheEntry`: its address, its arguments and its payload.
pub record Entry (A : Type 0) : Type 0 where
  pub address : ℕ
  pub arguments : List ℕ
  pub payload : A

-- `memcmp` of the first pointers of two buffers; a buffer that is too short does not match.
abbrev pub same_pointers : ℕ → List ℕ → List ℕ → Bool
same_pointers zero stored arguments = true
same_pointers (suc n) (a ∷ stored) (b ∷ arguments) = a == b && same_pointers n stored arguments
same_pointers (suc n) [] arguments = false
same_pointers (suc n) (a ∷ stored) [] = false

module _ {A : Type 0} where
  -- `HomogeneousCacheEntry::matches`
  abbrev pub matches : Entry A → List ℕ → Bool
  matches entry arguments = same_pointers (length arguments) entry.arguments arguments

  -- `HeterogeneousCacheEntry::matches`, which compares the numbers of arguments first.
  abbrev pub matches_heterogeneous : Entry A → List ℕ → Bool
  matches_heterogeneous entry arguments =
      length entry.arguments == length arguments && matches entry arguments

  abbrev pub this_or_next : Bool → Entry A → Option (Entry A) → Option (Entry A)
  this_or_next true entry next = some entry
  this_or_next false entry next = next

  -- `MetadataCache::find`
  unfoldable pub find : (Entry A → List ℕ → Bool) → List (Entry A) → List ℕ → Option (Entry A)
  find match [] arguments = none
  find match (entry ∷ cache) arguments =
      this_or_next (match entry arguments) entry (find match cache arguments)

  -- `MetadataCache::add`
  abbrev pub add : Entry A → List (Entry A) → Entry A × List (Entry A)
  add entry cache = (entry, entry ∷ cache)

-- `operator new`, on the state of the heap.
abbrev pub OperatorNew : Type 0 → Type 0
OperatorNew H = ℕ → H → ℕ × H

module _ {H A : Type 0} (operator_new : OperatorNew H) where
  -- `CacheEntry::allocate`, with the payload that it is then given: `header_size` is the size of
  -- the entry itself.
  abbrev pub allocate : ℕ → List ℕ → ℕ → A → H → Entry A × H
  allocate header_size arguments payload_size payload heap =
      let block = operator_new (header_size + length arguments * 8 + payload_size) heap in
      (record { address = block.0; arguments = arguments; payload = payload }, block.1)

  -- A new entry, with the cache that it is added to.
  abbrev pub instantiate : ℕ → ℕ → A → List ℕ → List (Entry A) × H → Entry A × (List (Entry A) × H)
  instantiate header_size payload_size payload arguments (cache, heap) =
      let new = allocate header_size arguments payload_size payload heap in
      let added = add new.0 cache in (added.0, (added.1, new.1))

  -- What the entry points share: the entry that is found, or a new one.
  abbrev pub found_or_new :
      ℕ → ℕ → A → List ℕ → Option (Entry A) → List (Entry A) × H → Entry A × (List (Entry A) × H)
  found_or_new header_size payload_size payload arguments (some entry) state = (entry, state)
  found_or_new header_size payload_size payload arguments none state =
      instantiate header_size payload_size payload arguments state

  unfoldable pub find_or_instantiate :
      (Entry A → List ℕ → Bool)
      → ℕ
      → ℕ
      → A
      → List ℕ
      → List (Entry A) × H
      → Entry A × (List (Entry A) × H)
  unfolding find
  find_or_instantiate match header_size payload_size payload arguments (cache, heap) =
      found_or_new header_size payload_size payload arguments (find match cache arguments)
        (cache, heap)

-- `FunctionTypeMetadata`, of 32 bytes.
pub record FunctionTypeMetadata : Type 0 where
  pub argument_type : ℕ
  pub result_type : ℕ

-- `swift_getFunctionTypeMetadata`
unfoldable pub get_function_type_metadata :
    {H : Type 0}
    → OperatorNew H
    → ℕ
    → ℕ
    → List (Entry FunctionTypeMetadata) × H
    → Entry FunctionTypeMetadata × (List (Entry FunctionTypeMetadata) × H)
unfolding find_or_instantiate
get_function_type_metadata operator_new arg result =
    find_or_instantiate operator_new matches 8 32
      (record { argument_type = arg; result_type = result }) (arg ∷ result ∷ [])

-- `GenericMetadata::FillOp`
pub record FillOp : Type 0 where
  pub from_index : ℕ
  pub to_index : ℕ

-- `GenericMetadata`, with its template in words.
pub record GenericMetadata : Type 0 where
  pub num_arguments : ℕ
  pub fill_ops : List FillOp
  pub metadata_size : ℕ
  pub template : List ℕ

-- A word of the metadata; nothing outside of it.
abbrev pub set_word : List ℕ → ℕ → ℕ → Option (List ℕ)
set_word [] i value = none
set_word (w ∷ words) zero value = some (value ∷ words)
set_word (w ∷ words) (suc i) value = set_word words i value >>= λ rest. some (w ∷ rest)

-- The loop over the fill operations.
unfoldable pub fill : List FillOp → List ℕ → List ℕ → Option (List ℕ)
fill [] arguments metadata = some metadata
fill (op ∷ ops) arguments metadata = do
  value ← get_elem? arguments op.from_index
  metadata' ← set_word metadata op.to_index value
  fill ops arguments metadata'

-- `instantiateGenericMetadata`
unfoldable pub instantiate_generic_metadata :
    {H : Type 0}
    → OperatorNew H
    → GenericMetadata
    → List ℕ
    → List (Entry (List ℕ)) × H
    → Option (Entry (List ℕ) × (List (Entry (List ℕ)) × H))
unfolding fill
instantiate_generic_metadata operator_new pattern arguments state =
    fill pattern.fill_ops arguments pattern.template >>= λ metadata. some (
      instantiate operator_new 8 pattern.metadata_size metadata
        (take pattern.num_arguments arguments) state)

unfoldable pub found_generic :
    {H : Type 0}
    → OperatorNew H
    → GenericMetadata
    → List ℕ
    → Option (Entry (List ℕ))
    → List (Entry (List ℕ)) × H
    → Option (Entry (List ℕ) × (List (Entry (List ℕ)) × H))
unfolding instantiate_generic_metadata
found_generic operator_new pattern arguments (some entry) state = some (entry, state)
found_generic operator_new pattern arguments none state =
    instantiate_generic_metadata operator_new pattern arguments state

-- `swift_getGenericMetadata`, on the cache of the pattern.
unfoldable pub get_generic_metadata :
    {H : Type 0}
    → OperatorNew H
    → GenericMetadata
    → List ℕ
    → List (Entry (List ℕ)) × H
    → Option (Entry (List ℕ) × (List (Entry (List ℕ)) × H))
unfolding find found_generic
get_generic_metadata operator_new pattern arguments state =
    found_generic operator_new pattern arguments
      (find matches state.0 (take pattern.num_arguments arguments)) state

-- `MetadataKind`
pub data MetadataKind : Type 0 where
  class_kind struct_kind oneof_kind opaque_kind tuple_kind function_kind poly_function_kind :
      MetadataKind
  existential_kind metatype_kind heap_local_variable heap_array : MetadataKind

-- `Metadata`: its kind and the pointer to its value witnesses.
pub record Metadata : Type 0 where
  pub kind : MetadataKind
  pub value_witnesses : ℕ

-- `isClassType`, and the test for a metatype.
abbrev pub is_class_type : MetadataKind → Bool
is_class_type class_kind = true
is_class_type kind = false

abbrev pub is_metatype : MetadataKind → Bool
is_metatype metatype_kind = true
is_metatype kind = false

-- `getMetatypeValueWitnesses`: those of unmanaged pointers, those of the instance type, or those
-- of the empty tuple.
abbrev pub get_metatype_value_witnesses : ℕ → ℕ → Metadata → ℕ
get_metatype_value_witnesses unmanaged_pointer empty_tuple instance_type =
    if is_class_type instance_type.kind
    then unmanaged_pointer
    else if is_metatype instance_type.kind
    then instance_type.value_witnesses
    else empty_tuple

-- `MetatypeMetadata`, of 24 bytes.
pub record MetatypeMetadata : Type 0 where
  pub value_witnesses : ℕ
  pub instance_type : ℕ

-- `swift_getMetatypeMetadata`; `metadata_at` reads the metadata at an address.
unfoldable pub get_metatype_metadata :
    {H : Type 0}
    → OperatorNew H
    → (ℕ → Metadata)
    → ℕ
    → ℕ
    → ℕ
    → List (Entry MetatypeMetadata) × H
    → Entry MetatypeMetadata × (List (Entry MetatypeMetadata) × H)
unfolding find_or_instantiate
get_metatype_metadata operator_new metadata_at unmanaged_pointer empty_tuple instance_type =
    find_or_instantiate operator_new matches 8 24
      (record {
        value_witnesses =
            get_metatype_value_witnesses unmanaged_pointer empty_tuple (metadata_at instance_type);
        instance_type = instance_type;
      })
      (instance_type ∷ [])

-- `ValueWitnessTable`: the sizes, and one number for its functions.
pub record ValueWitnessTable : Type 0 where
  pub size : ℕ
  pub alignment : ℕ
  pub stride : ℕ
  pub functions : ℕ

-- `isValueInline`: a buffer has three pointers.
abbrev pub is_value_inline : ValueWitnessTable → Bool
is_value_inline table = leb table.size 24 && leb table.alignment 8

-- `TupleTypeData`: the elements are their types and offsets.
pub record TupleTypeData : Type 0 where
  pub witnesses : ValueWitnessTable
  pub labels : ℕ
  pub elements : List (ℕ × ℕ)

-- `std::max`
abbrev pub std_max : ℕ → ℕ → ℕ
std_max a b = if ltb a b then b else a

-- The loop over the elements: what is recorded of them, the size and the alignment. `witnesses_of`
-- reads the value witnesses of a type, `round_up` stands for LLVM's RoundUpToAlignment.
pub record TupleLayout : Type 0 where
  pub elements : List (ℕ × ℕ)
  pub size : ℕ
  pub alignment : ℕ

module _ (round_up : ℕ → ℕ → ℕ) (witnesses_of : ℕ → ValueWitnessTable) where
  unfoldable pub lay_out_tuple : List ℕ → ℕ → ℕ → TupleLayout
  lay_out_tuple [] size alignment = record { elements = []; size = size; alignment = alignment }
  lay_out_tuple (elt ∷ elements) size alignment =
      let table = witnesses_of elt in
      let rest =
        lay_out_tuple elements ((round_up size table.alignment + table.size) % 18446744073709551616)
          (std_max alignment table.alignment) in
      record rest { elements = (elt, size) ∷ rest.elements }

  -- The payload of a new tuple type. `functions` are the proposed ones, or else the standard ones.
  unfoldable pub tuple_type_data : List ℕ → ℕ → ℕ → TupleTypeData
  unfolding lay_out_tuple
  tuple_type_data elements labels functions =
      let layout = lay_out_tuple elements 0 1 in
      record {
        witnesses = record {
          size = layout.size;
          alignment = layout.alignment;
          stride = round_up layout.size layout.alignment;
          functions = functions;
        };
        labels = labels;
        elements = layout.elements;
      }

  abbrev pub found_tuple :
      {H : Type 0}
      → Entry TupleTypeData × (List (Entry TupleTypeData) × H)
      → Option (Entry TupleTypeData) × (List (Entry TupleTypeData) × H)
  found_tuple (entry, state) = (some entry, state)

  -- `swift_getTupleTypeMetadata`; nothing stands for the metadata of the empty tuple.
  unfoldable pub get_tuple_type_metadata :
      {H : Type 0}
      → OperatorNew H
      → List ℕ
      → ℕ
      → ℕ
      → List (Entry TupleTypeData) × H
      → Option (Entry TupleTypeData) × (List (Entry TupleTypeData) × H)
  unfolding find_or_instantiate tuple_type_data
  get_tuple_type_metadata operator_new [] labels functions state = (none, state)
  get_tuple_type_metadata operator_new (elt ∷ elements) labels functions state = found_tuple (
      find_or_instantiate operator_new matches_heterogeneous 16 (152 + 16 * length (elt ∷ elements))
        (tuple_type_data (elt ∷ elements) labels functions) (elt ∷ elements) state)

-- What a dynamic cast comes to: the object, or a read of the superclass of the null pointer.
pub data Cast : Type 0 where
  cast_to : ℕ → Cast
  null_superclass : Cast

-- One round of the loop of `swift_dynamicCast` at a class, `go` for the next one. The loop goes on
-- as long as the target, which does not change, is not null.
abbrev pub next_class : (ℕ → Option Cast) → (ℕ → ℕ) → ℕ → ℕ → Option Cast
next_class go super_class target isa =
    if isa == 0
    then some null_superclass
    else if target == 0
    then some (cast_to 0)
    else go (super_class isa)

unfoldable pub cast_class : ℕ → (ℕ → ℕ) → ℕ → ℕ → ℕ → Option Cast
cast_class zero super_class object target isa = none
cast_class (suc fuel) super_class object target isa = elim (isa == target) [
  | true ↦ some (cast_to object)
  | false ↦ next_class (cast_class fuel super_class object target) super_class target isa
]

-- `swift_dynamicCast`, on an object and its class; `super_class` reads the superclass.
unfoldable pub dynamic_cast : ℕ → (ℕ → ℕ) → ℕ → ℕ → ℕ → Option Cast
unfolding cast_class
dynamic_cast fuel super_class object isa target = cast_class fuel super_class object target isa
