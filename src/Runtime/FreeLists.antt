-- ===== src/Runtime/FreeLists.antt =====
-- The caches as lists of free blocks: what the threaded blocks of runtime/Alloc.cpp stand for.
use b1c3995fdcf53d46308da.Base.{
  ltb, ℕ, ◌≤◌, ◌<◌, ◌==◌, ◌≡◌, ◌≢◌, refl, subst, Bool, true, false, if◌then◌else◌, some, ◌>>=◌,
  List, [], ◌∷◌, arith, Returns, Bool-cases, inl, inr,
}
use b1c3995fdcf53d46308da.Runtime.Classes.{
  fixup_size, dealloc_index, dealloc_index-fixup_size, Fits, smaller_class,
}
use b1c3995fdcf53d46308da.Runtime.Alloc.{
  alloc_cache_buckets, Library, Flags, Heap, set, alloc, dealloc, slow_dealloc, slow_alloc_fixup,
}

-- The blocks from `head` on, along `next`, are `blocks`.
abbrev pub IsChain : (ℕ → ℕ) → ℕ → List ℕ → Type 0
IsChain next head [] = head ≡ 0
IsChain next head (x ∷ blocks) = (head ≡ x) × (x ≢ 0) × IsChain next (next x) blocks

abbrev pub IsAbsent : ℕ → List ℕ → Type 0
IsAbsent ptr [] = Unit
IsAbsent ptr (x ∷ blocks) = (x ≢ ptr) × IsAbsent ptr blocks

-- The free blocks of each bucket, of the zeroing and of the raw caches.
pub record FreeBlocks : Type 0 where
  pub zeroed : ℕ → List ℕ
  pub raw : ℕ → List ℕ

abbrev pub of_kind : Bool → FreeBlocks → ℕ → List ℕ
of_kind raw f = if raw then f.raw else f.zeroed

abbrev pub with_kind : Bool → FreeBlocks → ℕ → List ℕ → FreeBlocks
with_kind is_raw f i blocks =
    if is_raw
    then (record f { raw = set f.raw i blocks })
    else (record f { zeroed = set f.zeroed i blocks })

-- No cache holds the block.
abbrev pub IsInUse : ℕ → FreeBlocks → Type 0
IsInUse ptr f = ((i : ℕ) → IsAbsent ptr (f.zeroed i)) × ((i : ℕ) → IsAbsent ptr (f.raw i))

module _ {M : Type 0} where
  -- The heap's caches hold these free blocks.
  pub record Holds (h : Heap M) (f : FreeBlocks) : Type 0 where
    pub zeroed : (i : ℕ) → IsChain h.next (h.cache i) (f.zeroed i)
    pub raw : (i : ℕ) → IsChain h.next (h.raw_cache i) (f.raw i)

-- A write to the `next` of a block in use changes no chain.
IsChain-set :
    (next : ℕ → ℕ) (ptr v head : ℕ) (blocks : List ℕ)
    → IsAbsent ptr blocks
    → IsChain next head blocks
    → IsChain (set next ptr v) head blocks
IsChain-set next ptr v head [] out h = h
IsChain-set next ptr v head (x ∷ blocks) out h = (
  h.0,
  h.1,
  subst (λ n. IsChain (set next ptr v) n blocks) (ground arith)
      (IsChain-set next ptr v (next x) blocks out.1 h.2),
)

-- The chains of a bucket array in which one bucket changes.
IsChain-set_bucket :
    (next heads : ℕ → ℕ) (lists : ℕ → List ℕ) (idx head : ℕ) (blocks : List ℕ)
    → ((i : ℕ) → IsChain next (heads i) (lists i))
    → IsChain next head blocks
    → (i : ℕ) → IsChain next (set heads idx head i) (set lists idx blocks i)
IsChain-set_bucket next heads lists idx head blocks h new i = elim (Bool-cases (i == idx)) [
  | inl same ↦ rw same new
  | inr other ↦ rw other (h i)
]

-- A block in use goes in front of a bucket.
IsChain-push :
    (next heads : ℕ → ℕ) (lists : ℕ → List ℕ) (ptr idx : ℕ)
    → ptr ≢ 0
    → ((i : ℕ) → IsAbsent ptr (lists i))
    → ((i : ℕ) → IsChain next (heads i) (lists i))
    → (i : ℕ)
    → IsChain (set next ptr (heads idx)) (set heads idx ptr i) (set lists idx (ptr ∷ lists idx) i)
IsChain-push next heads lists ptr idx nonzero out h =
    IsChain-set_bucket (set next ptr (heads idx)) heads lists idx ptr (ptr ∷ lists idx)
      (λ i. IsChain-set next ptr (heads idx) (heads i) (lists i) (out i) (h i))
      (
        refl,
        nonzero,
        subst (λ n. IsChain (set next ptr (heads idx)) n (lists idx)) (ground arith)
            (IsChain-set next ptr (heads idx) (heads idx) (lists idx) (out idx) (h idx)),
      )

-- A class's blocks are no smaller than a block that is freed into it.
undersized :
    (w : Bool) (bytes idx n : ℕ)
    → dealloc_index w bytes ≡ some idx
    → fixup_size w idx ≡ some n
    → bytes ≢ n
    → bytes < n
undersized w bytes idx n e size other = elim (dealloc_index-fixup_size w bytes) [
  | inl (freed, _) ↦ absurd (cc)
  | inr fit ↦
      let (_, covers) = subst (λ o. Returns o (Fits w bytes)) e fit in
      let (most, _) =
        subst (λ o. Returns o (λ n. (bytes ≤ n) × (smaller_class w idx < bytes))) size covers in
      omega arith
]

-- The class of a freed block is one of the buckets.
is_bucket :
    (w : Bool) (bytes idx : ℕ)
    → dealloc_index w bytes ≡ some idx
    → ltb idx alloc_cache_buckets ≡ true
is_bucket w bytes idx e = elim (dealloc_index-fixup_size w bytes) [
  | inl (freed, _) ↦ absurd (cc)
  | inr fit ↦ let (within, _) = subst (λ o. Returns o (Fits w bytes)) e fit in ground arith
]

module _ {M : Type 0} (library : Library M) (lp64 : Bool) where
  -- Freeing a block puts it in front of the free blocks of its bucket and leaves the other
  -- buckets alone, if the block is not free yet.
  pub dealloc-Holds :
      (raw : Bool) (ptr idx : ℕ) (h : Heap M) (f : FreeBlocks)
      → ptr ≢ 0
      → IsInUse ptr f
      → Holds h f
      → Holds (dealloc library lp64 raw ptr idx h) (with_kind raw f idx (ptr ∷ of_kind raw f idx))
  unfolding dealloc
  dealloc-Holds true ptr idx h f nonzero (out, out_raw) holds = record {
    zeroed = λ i. IsChain-set h.next ptr _ (h.cache i) (f.zeroed i) (out i) (holds.zeroed i);
    raw = IsChain-push h.next h.raw_cache f.raw ptr idx nonzero out_raw holds.raw;
  }
  dealloc-Holds false ptr idx h f nonzero (out, out_raw) holds = record {
    zeroed = IsChain-push h.next h.cache f.zeroed ptr idx nonzero out holds.zeroed;
    raw = λ i. IsChain-set h.next ptr _ (h.raw_cache i) (f.raw i) (out_raw i) (holds.raw i);
  }

  -- What an allocation does when these are the free blocks of its bucket.
  abbrev pub AllocOk : ℕ → Flags → ℕ → Heap M → FreeBlocks → List ℕ → Type 0
  AllocOk fuel flags idx h f [] = alloc library lp64 fuel flags idx h ≡ (
      slow_alloc_fixup library lp64 fuel idx flags h.memory >>= λ t.
      some (t.0, record h { memory = t.1 }))
  AllocOk fuel flags idx h f (x ∷ blocks) =
      Returns (alloc library lp64 fuel flags idx h)
        (λ t. (t.0 ≡ x) × Holds t.1 (with_kind flags.raw f idx blocks))

  slow_dealloc-dealloc :
      (raw : Bool) (ptr bytes idx : ℕ) (h : Heap M)
      → dealloc_index lp64 bytes ≡ some idx
      → slow_dealloc library lp64 raw ptr bytes h ≡ some (dealloc library lp64 raw ptr idx h)
  unfolding slow_dealloc
  slow_dealloc-dealloc raw ptr bytes idx h e =
      rw (e, slow_dealloc) (rw (is_bucket lp64 bytes idx e) refl)

  -- A block, not the null pointer, that is freed by a size other than its class's goes to one of the
  -- buckets, and is handed out again to the next allocation from that class, whose blocks have more
  -- bytes.
  pub alloc-slow_dealloc :
      (fuel : ℕ) (flags : Flags) (ptr bytes idx n : ℕ) (h : Heap M)
      → ptr ≢ 0
      → dealloc_index lp64 bytes ≡ some idx
      → fixup_size lp64 idx ≡ some n
      → bytes ≢ n
      → Returns
          (slow_dealloc library lp64 flags.raw ptr bytes h >>= alloc library lp64 fuel flags idx)
          (λ t. (t.0 ≡ ptr) × (bytes < n))
  unfolding alloc dealloc
  alloc-slow_dealloc fuel flags ptr bytes idx n h nonzero e size other =
      let same : (idx == idx) ≡ true = ground arith in
      let some_block : (ptr == 0) ≡ false = ground arith in
      let shorter : bytes < n = undersized lp64 bytes idx n e size other in
      elim (Bool-cases flags.raw) [
        | inl raw ↦ rw raw (
            rw (slow_dealloc-dealloc true ptr bytes idx h e)
              (rw same (rw some_block (refl, shorter))))
        | inr zeroed ↦ rw zeroed (
            rw (slow_dealloc-dealloc false ptr bytes idx h e)
              (rw same (rw some_block (refl, shorter))))
      ]
