-- ===== src/Runtime/Classes.antt =====
-- The size classes of runtime/Alloc.cpp: the block size of an index, and the index of a freed
-- block. `lp64` tells which side of `#ifdef __LP64__` is compiled. A shift is a product or a
-- quotient by the power of two.
use b1c3995fdcf53d46308da.Base.{
  ℕ, ◌+◌, ◌-◌, ◌*◌, ◌/◌, ◌<◌, ◌≤◌, ◌≡◌, refl, Bool, true, false, if◌then◌else◌, Option, none, some,
  ltb, leb, ◌==◌, arith, Returns, Bool-cases, ◌&&◌, ==_iff, ap, subst, all_below, all_below_lem,
  ◌⊎◌, inl, inr,
}

-- The size that `_swift_slowAlloc_fixup` asks for; `none` is the trap.
unfoldable pub fixup_size : Bool → ℕ → Option ℕ
fixup_size true i =
    let idx = i + 1 in
    if leb idx 16
    then some (idx * 8)
    else if leb idx 24
    then some ((idx - 8) * 16)
    else if leb idx 32
    then some ((idx - 16) * 32)
    else if leb idx 40
    then some ((idx - 24) * 64)
    else if leb idx 48
    then some ((idx - 32) * 128)
    else if leb idx 56
    then some ((idx - 40) * 256)
    else none
fixup_size false i =
    let idx = i + 1 in
    if leb idx 16
    then some (idx * 4)
    else if leb idx 24
    then some ((idx - 8) * 8)
    else if leb idx 32
    then some ((idx - 16) * 16)
    else if leb idx 40
    then some ((idx - 24) * 32)
    else if leb idx 48
    then some ((idx - 32) * 64)
    else if leb idx 56
    then some ((idx - 40) * 128)
    else if leb idx 64
    then some ((idx - 48) * 256)
    else none

-- The index that `swift_slowDealloc` and `swift_slowRawDealloc` compute; `none` means that the
-- block goes back to `free`.
unfoldable pub dealloc_index : Bool → ℕ → Option ℕ
dealloc_index true size =
    let bytes = size - 1 in
    if size == 0
    then none
    else if ltb bytes 0x80
    then some (bytes / 8)
    else if ltb bytes 0x100
    then some (bytes / 16 + 0x8)
    else if ltb bytes 0x200
    then some (bytes / 32 + 0x10)
    else if ltb bytes 0x400
    then some (bytes / 64 + 0x18)
    else if ltb bytes 0x800
    then some (bytes / 128 + 0x20)
    else if ltb bytes 0x1000
    then some (bytes / 256 + 0x28)
    else none
dealloc_index false size =
    let bytes = size - 1 in
    if size == 0
    then none
    else if ltb bytes 0x40
    then some (bytes / 4)
    else if ltb bytes 0x80
    then some (bytes / 8 + 0x8)
    else if ltb bytes 0x100
    then some (bytes / 16 + 0x10)
    else if ltb bytes 0x200
    then some (bytes / 32 + 0x18)
    else if ltb bytes 0x400
    then some (bytes / 64 + 0x20)
    else if ltb bytes 0x800
    then some (bytes / 128 + 0x28)
    else if ltb bytes 0x1000
    then some (bytes / 256 + 0x30)
    else none

-- The size of the class with the next smaller index; no class is smaller than the first.
abbrev pub smaller_class : Bool → ℕ → ℕ
smaller_class w i = if i == 0 then 0 else (elim (fixup_size w (i - 1)) [ none ↦ 0 | some n ↦ n ])

-- The tests for the first of the two theorems, and what they mean.
abbrev class_fits : Bool → ℕ → ℕ → Option ℕ → Bool
class_fits w bytes i none = false
class_fits w bytes i (some n) = ltb i 64 && leb bytes n && ltb (smaller_class w i) bytes

abbrev fits : Bool → ℕ → Option ℕ → Bool
fits w bytes none = bytes == 0
fits w bytes (some i) = class_fits w bytes i (fixup_size w i)

abbrev pub Fits : Bool → ℕ → ℕ → Type 0
Fits w bytes i =
    (i < 64) × Returns (fixup_size w i) (λ n. (bytes ≤ n) × (smaller_class w i < bytes))

class_fits-true :
    (w : Bool) (bytes i : ℕ) (o : Option ℕ)
    → class_fits w bytes i o ≡ true
    → (i < 64) × Returns o (λ n. (bytes ≤ n) × (smaller_class w i < bytes))
class_fits-true w bytes i none h = absurd (cc)
class_fits-true w bytes i (some n) h = ground arith

fits-true :
    (w : Bool) (bytes : ℕ) (o : Option ℕ)
    → fits w bytes o ≡ true
    → ((o ≡ none) × ((bytes ≡ 0) ⊎ (4096 < bytes))) ⊎ Returns o (Fits w bytes)
fits-true w bytes none h = inl (refl, inl (ground arith))
fits-true w bytes (some i) h = inr (class_fits-true w bytes i (fixup_size w i) h)

-- The test for the second.
abbrev comes_back : ℕ → Option ℕ → Bool
comes_back i none = false
comes_back i (some j) = j == i

abbrev leads_back : Bool → ℕ → Option ℕ → Bool
leads_back w i none = true
leads_back w i (some n) = comes_back i (dealloc_index w n)

comes_back-true : (i : ℕ) (o : Option ℕ) → comes_back i o ≡ true → o ≡ some i
comes_back-true i none h = absurd (cc)
comes_back-true i (some j) h = ap some ((==_iff j i).0 h)

small_fits : (w : Bool) → all_below 4097 (λ b. fits w b (dealloc_index w b)) ≡ true
unfolding dealloc_index fixup_size all_below
small_fits true = refl
small_fits false = refl

large_freed : (w : Bool) (bytes : ℕ) → 4096 < bytes → dealloc_index w bytes ≡ none
unfolding dealloc_index
large_freed true bytes h = ground arith
large_freed false bytes h = ground arith

classes_lead_back : (w : Bool) → all_below 64 (λ j. leads_back w j (fixup_size w j)) ≡ true
unfolding dealloc_index fixup_size all_below
classes_lead_back true = refl
classes_lead_back false = refl

no_class : (w : Bool) (i : ℕ) → 64 ≤ i → fixup_size w i ≡ none
unfolding fixup_size
no_class true i h = ground arith
no_class false i h = ground arith

-- A freed block of 1 to 4096 bytes goes to the smallest class whose blocks have its size: that
-- index is one of the 64 buckets, its size is no less than the block's, and the size
-- of the index before is less. A block of no bytes or of more than 4096 goes back to `free`.
pub dealloc_index-fixup_size :
    (w : Bool) (bytes : ℕ)
    → ((dealloc_index w bytes ≡ none) × ((bytes ≡ 0) ⊎ (4096 < bytes)))
      ⊎ Returns (dealloc_index w bytes) (Fits w bytes)
dealloc_index-fixup_size w bytes = elim (Bool-cases (ltb bytes 4097)) [
  | inl small ↦
      fits-true w bytes (dealloc_index w bytes)
        (all_below_lem 4097 bytes (λ b. fits w b (dealloc_index w b)) (ground arith) (small_fits w))
  | inr large ↦ inl (large_freed w bytes (ground arith), inr (ground arith))
]

-- The classes are the multiples that they stand for: a block of a class's own size goes back to
-- that class.
pub fixup_size-dealloc_index :
    (w : Bool) (i n : ℕ) → fixup_size w i ≡ some n → dealloc_index w n ≡ some i
fixup_size-dealloc_index w i n h = elim (Bool-cases (ltb i 64)) [
  | inl small ↦ comes_back-true i (dealloc_index w n) (
      subst (λ o. leads_back w i o ≡ true) h
        (all_below_lem 64 i (λ j. leads_back w j (fixup_size w j)) (ground arith)
          (classes_lead_back w)))
  | inr large ↦ (let no : fixup_size w i ≡ none = no_class w i (ground arith) in absurd (cc))
]
