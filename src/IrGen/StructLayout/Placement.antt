-- ===== src/IrGen/StructLayout/Placement.antt =====
-- Where `StructLayout` puts the fields: aligned, in order, without overlap and without a gap
-- beyond the padding.
use b1c3995fdcf53d46308da.Base.{
  ◌*◌, ℕ, ◌+◌, ◌-◌, ◌%◌, ◌<◌, ◌≤◌, ◌≡◌, refl, sym, ap, ◌∙◌, subst, Bool, true, false, ◌&&◌, ◌==◌,
  none, List, [], ◌∷◌, ◌++◌, length, arith, Returns, Returns->>=, Bool-cases, ◌⊎◌, inl, inr,
  Returns-weaken,
}
use mathlib.Core.List.{append-nil, append_assoc}
use native.Mathlib.Nat.{mod-add-mod, mod-lt, mod_self}
use b1c3995fdcf53d46308da.IrGen.StructLayout.{
  has_header_only, non_heap_object, heap_object, TypeInfo, StorageType, ElementLayout, State,
  StructLayout, Target, LayoutKind, LayoutStrategy, padding_required, pad_types, place,
  empty_element, ResilienceScope, get_resilience_scope_for_strategy, add_type, add_types,
  start_layout, struct_layout, finish_layout,
}

-- What the code relies on: a type that is complete, whose LLVM alignment is no larger.
abbrev pub IsLayoutReady : TypeInfo → Type 0
IsLayoutReady t = (0 < t.storage_alignment) × (t.abi_alignment ≤ t.storage_alignment)

abbrev pub AllReady : List TypeInfo → Type 0
AllReady [] = Unit
AllReady (t ∷ types) = IsLayoutReady t × AllReady types

-- An upper bound of the bytes that the types take.
abbrev pub room : List TypeInfo → ℕ
room [] = 0
room (t ∷ types) = t.storage_alignment + t.storage_size + room types

-- The element of a type that is laid out from the offset `from`, the next one from `next`.
abbrev pub IsPlacedAt : ℕ → TypeInfo → ElementLayout → ℕ → Type 0
IsPlacedAt from t e next =
    ((t.storage_size ≡ 0) × (e.byte_offset ≡ 0) × (next ≡ from))
    ⊎ ((0 < t.storage_size)
        × (from ≤ e.byte_offset)
        × (e.byte_offset < from + t.storage_alignment)
        × (e.byte_offset % t.storage_alignment ≡ 0)
        × (next ≡ e.byte_offset + t.storage_size))

-- The elements of the types, laid out one after the other from `from` to `end`, none aligned more
-- than `align`.
abbrev pub ArePlaced : ℕ → List TypeInfo → List ElementLayout → ℕ → ℕ → Type 0
ArePlaced from [] [] end align = from ≡ end
ArePlaced from [] (e ∷ elements) end align = ⊥
ArePlaced from (t ∷ types) [] end align = ⊥
ArePlaced from (t ∷ types) (e ∷ elements) end align =
    (e.type ≡ t)
    × ((t.storage_size ≡ 0) ⊎ (t.storage_alignment ≤ align))
    × ((next : ℕ) × IsPlacedAt from t e next × ArePlaced next types elements end align)

-- Every type is known to be empty.
abbrev pub all_empty : List TypeInfo → Bool
all_empty [] = true
all_empty (t ∷ types) = t.storage_size == 0 && all_empty types

-- Adding the padding gives a multiple.
pub padded :
    (size alignment : ℕ) → 0 < alignment → (size + padding_required size alignment) % alignment ≡ 0
padded size alignment h = elim (Bool-cases (size % alignment == 0)) [
  | inl even ↦ rw even (ground (arith))
  | inr odd ↦ rw odd (
      sym (mod-add-mod size alignment (alignment - size % alignment))
      ∙ subst (λ n. n % alignment ≡ 0) (omega (arith, mod-lt size h)) (mod_self alignment))
]

pub padding_lt : (size alignment : ℕ) → 0 < alignment → padding_required size alignment < alignment
padding_lt size alignment h = ground arith

-- One more type: its element and the state after it.
record Added (t : TypeInfo) (s s' : State) : Type 0 where
  element : ElementLayout
  elements_eq : s'.elements ≡ s.elements ++ element ∷ []
  type_eq : element.type ≡ t
  placed : IsPlacedAt s.storage_size t element s'.storage_size
  bounded : s'.storage_size ≤ s.storage_size + t.storage_alignment + t.storage_size
  aligned : (t.storage_size ≡ 0) ⊎ (t.storage_alignment ≤ s'.storage_align)
  grows : s.storage_align ≤ s'.storage_align
  kept : (s'.is_empty ≡ false) ⊎ (s'.storage_types ≡ s.storage_types)
  empty_eq : s'.is_empty ≡ (s.is_empty && t.storage_size == 0)

pub pad_types-Returns :
    (t : TypeInfo) (s : State) → IsLayoutReady t → Returns (pad_types t s) (λ types. Unit)
pad_types-Returns t s ready = ground (arith, ready.1)

pub no_wrap : (n : ℕ) → n < 18446744073709551616 → n % 18446744073709551616 ≡ n
no_wrap n h = omega arith

place-Added :
    (t : TypeInfo) (s : State) (types : List StorageType)
    → IsLayoutReady t
    → (t.storage_size == 0) ≡ false
    → s.storage_size + t.storage_alignment + t.storage_size < 18446744073709551616
    → Added t s (place t s types)
place-Added t s types ready stored small =
    let padding = padding_lt s.storage_size t.storage_alignment ready.0 in
    let multiple = padded s.storage_size t.storage_alignment ready.0 in
    let pad : ℕ = padding_required s.storage_size t.storage_alignment in
    let start : (s.storage_size + pad) % 18446744073709551616 ≡ s.storage_size + pad =
      no_wrap (s.storage_size + pad) (ground (arith, padding)) in
    let stop : ((s.storage_size + pad) % 18446744073709551616 + t.storage_size)
          % 18446744073709551616
        ≡ s.storage_size + pad + t.storage_size =
      rw start (no_wrap (s.storage_size + pad + t.storage_size) (ground (arith, padding))) in
    record {
      element = (record {
        byte_offset = (s.storage_size + pad) % 18446744073709551616;
        struct_index = length types;
        type = t;
      });
      elements_eq = refl;
      type_eq = refl;
      placed = inr (
        ground arith,
        subst (λ n. s.storage_size ≤ n) (sym start) (omega arith),
        subst (λ n. n < s.storage_size + t.storage_alignment) (sym start) (ground (arith, padding)),
        subst (λ n. n % t.storage_alignment ≡ 0) (sym start) multiple,
        stop ∙ ap (λ n. n + t.storage_size) (sym start),
      );
      bounded =
          subst (λ n. n ≤ s.storage_size + t.storage_alignment + t.storage_size) (sym stop)
            (ground (arith, padding));
      aligned = inr (ground arith);
      grows = ground arith;
      kept = inl refl;
      empty_eq = ground arith;
    }

add_type-Added :
    (r : ResilienceScope) (t : TypeInfo) (s : State)
    → IsLayoutReady t
    → s.storage_size + t.storage_alignment + t.storage_size < 18446744073709551616
    → Returns (add_type r t s) (Added t s)
unfolding add_type
add_type-Added r t s ready small = elim (Bool-cases (t.storage_size == 0)) [
  | inl empty ↦ rw empty (record {
    element = empty_element t;
    elements_eq = refl;
    type_eq = refl;
    placed = inl (ground arith, refl, refl);
    bounded = omega arith;
    aligned = inl (ground arith);
    grows = omega arith;
    kept = inr refl;
    empty_eq = ground arith;
  })
  | inr stored ↦ rw stored (
      Returns->>= (λ types. Unit) (Added t s) (pad_types t s) _ (pad_types-Returns t s ready)
        (λ types ok. place-Added t s types ready stored small))
]

-- What the loop adds to a state.
record AddedAll (types : List TypeInfo) (s s' : State) : Type 0 where
  new : List ElementLayout
  elements_eq : s'.elements ≡ s.elements ++ new
  placed : ArePlaced s.storage_size types new s'.storage_size s'.storage_align
  grows : s.storage_align ≤ s'.storage_align
  kept : (s'.is_empty ≡ false) ⊎ (s'.storage_types ≡ s.storage_types)
  empty_eq : s'.is_empty ≡ (s.is_empty && all_empty types)

AddedAll-cons :
    (t : TypeInfo) (types : List TypeInfo) (s s' s'' : State)
    → Added t s s'
    → AddedAll types s' s''
    → AddedAll (t ∷ types) s s''
AddedAll-cons t types s s' s'' one rest = record {
  new = one.element ∷ rest.new;
  elements_eq =
      rest.elements_eq
      ∙ ap (λ l. l ++ rest.new) one.elements_eq
      ∙ append_assoc s.elements (one.element ∷ []) rest.new;
  placed = (
    one.type_eq,
    elim one.aligned [ inl empty ↦ inl empty | inr fits ↦ inr (omega (arith, rest.grows)) ],
    (s'.storage_size, one.placed, rest.placed),
  );
  grows = omega (arith, one.grows, rest.grows);
  kept = elim one.kept [
    | inl stored ↦ inl (rest.empty_eq ∙ ap (λ b. b && all_empty types) stored)
    | inr same ↦ elim rest.kept [ inl stored ↦ inl stored | inr same' ↦ inr (same' ∙ same) ]
  ];
  empty_eq = rest.empty_eq ∙ ap (λ b. b && all_empty types) one.empty_eq ∙ ground arith;
}

add_types-AddedAll :
    (r : ResilienceScope) (types : List TypeInfo) (s : State)
    → AllReady types
    → s.storage_size + room types < 18446744073709551616
    → Returns (add_types r types s) (AddedAll types s)
unfolding add_types
add_types-AddedAll r [] s ready small = record {
  new = [];
  elements_eq = sym (append-nil s.elements);
  placed = refl;
  grows = omega arith;
  kept = inr refl;
  empty_eq = ground arith;
}
add_types-AddedAll r (t ∷ types) s ready small =
    Returns->>= (Added t s) (AddedAll (t ∷ types) s) (add_type r t s) _
      (add_type-Added r t s ready.0 (omega arith))
      (λ s' one.
        Returns-weaken (AddedAll types s') (AddedAll (t ∷ types) s) (add_types r types s')
          (add_types-AddedAll r types s' ready.1 (omega (arith, one.bounded)))
          (λ s'' rest. AddedAll-cons t types s s' s'' one rest))

-- The bytes that the header takes, two pointers in front of the fields of a heap object, and its
-- alignment.
abbrev pub header_size : Target → LayoutKind → ℕ
header_size target non_heap_object = 0
header_size target heap_object = 2 * target.pointer_size

abbrev pub header_alignment : Target → LayoutKind → ℕ
header_alignment target non_heap_object = 1
header_alignment target heap_object = target.pointer_alignment

-- If every type is empty, the layout has size 0 and alignment 1, also with a heap header;
-- otherwise the fields are laid out behind the header up to the total size, and the header is
-- aligned.
abbrev pub IsLaidOut : ℕ → ℕ → List TypeInfo → StructLayout → Type 0
IsLaidOut header alignment types l =
    ((all_empty types ≡ true) × (l.total_size ≡ 0) × (l.align ≡ 1) × (l.ty ≡ none))
    ⊎ ((all_empty types ≡ false)
        × (alignment ≤ l.align)
        × ArePlaced header types l.elements l.total_size l.align)

-- The state before the first field.
record Started (target : Target) (kind : LayoutKind) (s : State) : Type 0 where
  size_eq : s.storage_size ≡ header_size target kind
  align_eq : s.storage_align ≡ header_alignment target kind
  header_only : has_header_only kind s.storage_types ≡ true
  no_elements : s.elements ≡ []
  still_empty : s.is_empty ≡ true

start_layout-Started :
    (target : Target) (kind : LayoutKind) → Started target kind (start_layout target kind)
unfolding start_layout
start_layout-Started target non_heap_object = record {
  size_eq = refl;
  align_eq = refl;
  header_only = refl;
  no_elements = refl;
  still_empty = refl;
}
start_layout-Started target heap_object = record {
  size_eq = omega arith;
  align_eq = refl;
  header_only = refl;
  no_elements = refl;
  still_empty = refl;
}

finish_layout-IsLaidOut :
    (target : Target) (kind : LayoutKind) (types : List TypeInfo) (s s' : State)
    → Started target kind s
    → AddedAll types s s'
    → Returns
        (finish_layout kind s')
        (IsLaidOut (header_size target kind) (header_alignment target kind) types)
unfolding finish_layout
finish_layout-IsLaidOut target kind types s s' start all = elim (Bool-cases (all_empty types)) [
  | inl empty ↦
      let is : s'.is_empty ≡ true = same ∙ empty in
      let asserted : has_header_only kind s'.storage_types ≡ true = elim all.kept [
        | inl stored ↦ let clash : true ≡ false = sym is ∙ stored in absurd (cc)
        | inr kept ↦ ap (has_header_only kind) kept ∙ start.header_only
      ] in
      rw is (rw asserted (inl (empty, refl, refl, refl)))
  | inr stored ↦ rw (same ∙ stored) (
      inr (
        stored,
        subst (λ a. a ≤ s'.storage_align) start.align_eq all.grows,
        subst (λ h. ArePlaced h types s'.elements s'.storage_size s'.storage_align) start.size_eq
            (subst (λ l. ArePlaced s.storage_size types l s'.storage_size s'.storage_align)
              (sym (all.elements_eq ∙ ap (λ l. l ++ all.new) start.no_elements)) all.placed),
      ))
]
  where
    same : s'.is_empty ≡ all_empty types
    same = all.empty_eq ∙ ap (λ b. b && all_empty types) start.still_empty

-- For complete types whose LLVM alignment is no larger than their own, and whose sizes and
-- alignments add up, with the header of a heap object, to less than 2^64 bytes, the constructor
-- meets no failed assertion. Its elements follow the types in order: each field that is not empty
-- lies at the next multiple of its alignment behind the fields before it and, in a heap object,
-- behind a header of two pointers, the total size is the end of the last one, and no alignment of a
-- field, nor that of a pointer in a heap object, exceeds the structure's. If all types are empty,
-- the size is 0 and the alignment 1 whatever the kind.
pub struct_layout-IsLaidOut :
    (target : Target) (kind : LayoutKind) (strategy : LayoutStrategy) (types : List TypeInfo)
    → AllReady types
    → header_size target kind + room types < 18446744073709551616
    → Returns
        (struct_layout target kind strategy types)
        (IsLaidOut (header_size target kind) (header_alignment target kind) types)
unfolding struct_layout
struct_layout-IsLaidOut target kind strategy types ready small =
    let start = start_layout-Started target kind in
    Returns->>= (AddedAll types (start_layout target kind)) _ _ _
      (add_types-AddedAll (get_resilience_scope_for_strategy strategy) types
        (start_layout target kind) ready
        (subst (λ h. h + room types < 18446744073709551616) (sym start.size_eq) small))
      (λ s all. finish_layout-IsLaidOut target kind types (start_layout target kind) s start all)
