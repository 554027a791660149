-- ===== src/Runtime/Tests.antt =====
-- Instances of the theorems on the allocator, the reference counts, the printing of numbers and the
-- metadata.
use b1c3995fdcf53d46308da.Base.{
  ◌>>=◌, ℕ, zero, suc, ltb, get_elem?, ◌≤◌, ◌-◌, ◌*◌, ◌/◌, ◌↔◌, ◌≡◌, ◌<◌, ◌⊎◌, inl, inr, refl, true,
  false, if◌then◌else◌, none, some, List, [], ◌∷◌, Returns, arith, ◌==◌, ◌+◌, Bool-cases,
}
use b1c3995fdcf53d46308da.Runtime.Classes.{
  fixup_size, dealloc_index, Fits, dealloc_index-fixup_size,
}
use b1c3995fdcf53d46308da.Runtime.Alloc.{Library, Flags, Heap, alloc, dealloc, slow_dealloc}
use b1c3995fdcf53d46308da.Runtime.FreeLists.{
  FreeBlocks, IsInUse, Holds, with_kind, of_kind, dealloc-Holds, alloc-slow_dealloc,
}
use b1c3995fdcf53d46308da.Runtime.Counts.{
  Counts, CountsTo, Use, retained, released, run, owners, alloc_object, destroyed_after, run-owners,
}
use b1c3995fdcf53d46308da.Runtime.Printing.{print_int, print_uint, valid_radix, digits}
use b1c3995fdcf53d46308da.Runtime.Printing.Digits.{digits_radix_one}
use b1c3995fdcf53d46308da.Runtime.Metadata.{
  Entry, FunctionTypeMetadata, get_function_type_metadata, find_or_instantiate, find,
  ValueWitnessTable, dynamic_cast, cast_to, null_superclass,
}
use b1c3995fdcf53d46308da.Runtime.Metadata.Unique.{request_all}
use b1c3995fdcf53d46308da.Runtime.Metadata.Types.{function_type, function_types_unique}
use b1c3995fdcf53d46308da.Runtime.Metadata.Casts.{is_among, dynamic_cast-IsChain}
use b1c3995fdcf53d46308da.IrGen.StructLayout.{TypeInfo, Target}

abbrev freed : ℕ
freed = 100

dealloc_index-fixup_size_example :
    ((dealloc_index true freed ≡ none) × ((freed ≡ 0) ⊎ (4096 < freed)))
    ⊎ Returns (dealloc_index true freed) (Fits true freed)
dealloc_index-fixup_size_example = dealloc_index-fixup_size true freed

-- A library that hands out the next 4096 addresses, and never frees.
abbrev bump : Library ℕ
bump = record {
  malloc = λ bytes m. (m, m + 4096);
  calloc = λ bytes m. (m, m + 4096);
  free = λ ptr m. m;
}

-- Block 8192 is free in bucket 2, block 12288 is in use.
abbrev heap : Heap ℕ
heap = record {
  cache = λ i. if i == 2 then 8192 else 0;
  raw_cache = λ i. 0;
  next = λ p. 0;
  memory = 16384;
}

abbrev free_blocks : FreeBlocks
free_blocks = record { zeroed = λ i. if i == 2 then 8192 ∷ [] else []; raw = λ i. [] }

heap-Holds : Holds heap free_blocks
heap-Holds = record {
  zeroed = λ i. elim (Bool-cases (i == 2)) [
    | inl second ↦ rw second (refl, omega arith, refl)
    | inr other ↦ rw other refl
  ];
  raw = λ i. refl;
}

block-IsInUse : IsInUse 12288 free_blocks
block-IsInUse = (
  λ i. elim (Bool-cases (i == 2)) [
    | inl second ↦ rw second (omega arith, tt)
    | inr other ↦ rw other tt
  ],
  λ i. tt,
)

dealloc-Holds_example :
    Holds
      (dealloc bump true false 12288 2 heap)
      (with_kind false free_blocks 2 (12288 ∷ of_kind false free_blocks 2))
dealloc-Holds_example =
    dealloc-Holds bump true false 12288 2 heap free_blocks (omega arith) block-IsInUse heap-Holds

abbrev plain : Flags
plain = record { try = false; raw = false }

-- A block of 9 bytes is handed out for the class of 16.
alloc-slow_dealloc_example :
    Returns
      (slow_dealloc bump true false 12288 9 heap >>= alloc bump true 1 plain 1)
      (λ t. (t.0 ≡ 12288) × (9 < 16))
unfolding dealloc_index fixup_size
alloc-slow_dealloc_example =
    alloc-slow_dealloc bump true 1 plain 12288 9 1 16 heap (omega arith) refl refl (omega arith)

abbrev counts : Counts
counts = alloc_object 64 (record { ref_count = λ o. 0; destroyed = [] })

abbrev uses : List Use
uses = retained ∷ released ∷ released ∷ []

run-owners_example :
    CountsTo 64 (run 64 uses counts) 0
    × ((run 64 uses counts).destroyed ≡ destroyed_after 64 0 counts.destroyed)
unfolding owners
run-owners_example = run-owners 64 0 0 uses counts (omega arith) (refl, omega arith) refl

-- Hexadecimal digits.
abbrev hex : ℕ → ℕ
hex d = if ltb d 10 then b'0' + d else 55 + d

abbrev read_hex : ℕ → ℕ
read_hex c = if ltb c 58 then c - b'0' else c - 55

digits_radix_one_example :
    (valid_radix 1 ≡ true)
    × (digits hex 3 1 5 ≡ none)
    × (print_uint hex 5 1 ≡ none)
    × (print_int hex 5 1 ≡ none)
digits_radix_one_example = digits_radix_one hex 3 5 (omega arith) (omega arith)

-- The heap as the highest address so far.
abbrev next_address : ℕ → ℕ → ℕ × ℕ
next_address n h = (h + 1, h + 1)

abbrev InUse : ℕ → ℕ → Type 0
InUse h a = a ≤ h

fresh_address : (n h : ℕ) → InUse h (next_address n h).0 → ⊥
fresh_address n h le = omega arith

new_address : (n h : ℕ) → InUse (next_address n h).1 (next_address n h).0
new_address n h = omega arith

kept_address : (n h a : ℕ) → InUse h a → InUse (next_address n h).1 a
kept_address n h a le = omega arith

abbrev requests : List (ℕ × ℕ)
requests = (1, 2) ∷ (2, 1) ∷ (1, 2) ∷ []

abbrev third : Entry FunctionTypeMetadata
third = record {
  address = 8;
  arguments = 1 ∷ 2 ∷ [];
  payload = record { argument_type = 1; result_type = 2 };
}

first_request :
    get_elem?
      (request_all
        (function_type next_address InUse fresh_address new_address kept_address)
        requests
        ([], 7)).0
      0
    ≡ some third
unfolding get_function_type_metadata find_or_instantiate find
first_request = refl

third_request :
    get_elem?
      (request_all
        (function_type next_address InUse fresh_address new_address kept_address)
        requests
        ([], 7)).0
      2
    ≡ some third
unfolding get_function_type_metadata find_or_instantiate find
third_request = refl

function_types_unique_example : (◌≡◌ {A = ℕ × ℕ} (1, 2) (1, 2)) ↔ (◌≡◌ {A = ℕ} 8 8)
function_types_unique_example =
    function_types_unique next_address InUse fresh_address new_address kept_address requests ([], 7)
      tt 0 2 (1, 2) (1, 2) third third refl refl first_request third_request

abbrev sizes : ℕ → ValueWitnessTable
sizes t = record { size = t; alignment = t; stride = t; functions = 0 }

abbrev round_to : ℕ → ℕ → ℕ
round_to n a = (n + a - 1) / a * a

abbrev super_class_of : ℕ → ℕ
super_class_of zero = 0
super_class_of (suc c) = c

dynamic_cast-IsChain_example :
    dynamic_cast 3 super_class_of 100 2 5
    ≡ some (if is_among 5 (2 ∷ 1 ∷ []) then cast_to 100 else null_superclass)
dynamic_cast-IsChain_example =
    dynamic_cast-IsChain super_class_of 100 2 5 (2 ∷ 1 ∷ []) 3
      (refl, omega arith, (refl, omega arith, refl)) (omega arith) (omega arith)

abbrev scalar : ℕ → TypeInfo
scalar t = record { storage_size = t; storage_alignment = t; abi_alignment = t; storage_type = 0 }

abbrev target : Target
target = record { pointer_size = 8; pointer_alignment = 8 }
