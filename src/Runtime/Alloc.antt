-- ===== src/Runtime/Alloc.antt =====
-- The allocator of runtime/Alloc.cpp: the caches of freed blocks, threaded through the blocks
-- themselves, in front of the C library's allocator. A pointer is a number, 0 the null pointer.
-- One thread runs.
use b1c3995fdcf53d46308da.Base.{
  ltb, ℕ, zero, suc, Bool, true, false, not, ◌&&◌, ◌==◌, if◌then◌else◌, Option, none, some, ◌>>=◌,
}
use b1c3995fdcf53d46308da.Runtime.Classes.{fixup_size, dealloc_index}

-- `malloc`, `calloc(1, n)` and `free`, on a state of their own.
pub record Library (M : Type 0) : Type 0 where
  pub malloc : ℕ → M → ℕ × M
  pub calloc : ℕ → M → ℕ × M
  pub free : ℕ → M → M

-- `SWIFT_TRYALLOC` and `SWIFT_RAWALLOC`
pub record Flags : Type 0 where
  pub try : Bool
  pub raw : Bool

-- The heads `tsd->cache` and `tsd->rawCache`, of which the program uses those below
-- `ALLOC_CACHE_BUCKETS`, and the `next` field at each address.
pub record Heap (M : Type 0) : Type 0 where
  pub cache : ℕ → ℕ
  pub raw_cache : ℕ → ℕ
  pub next : ℕ → ℕ
  pub memory : M

-- `ALLOC_CACHE_BUCKETS`
abbrev pub alloc_cache_buckets : ℕ
alloc_cache_buckets = 64

-- `f` with the value at `i` replaced.
abbrev pub set : {A : Type 0} → (ℕ → A) → ℕ → A → ℕ → A
set f i v = λ j. if j == i then v else f j

module _ {M : Type 0} (library : Library M) (lp64 : Bool) where
  -- The loop of `swift_slowAlloc`, at most `fuel` times.
  unfoldable pub slow_alloc : ℕ → ℕ → Flags → M → Option (ℕ × M)
  slow_alloc zero bytes flags m = none
  slow_alloc (suc fuel) bytes flags m =
      let (r, m') : ℕ × M = if flags.raw then library.malloc bytes m else library.calloc bytes m in
      elim (r == 0 && not flags.try) [
        | true ↦ slow_alloc fuel bytes flags m'
        | false ↦ some (r, m')
      ]

  -- `_swift_slowAlloc_fixup`
  unfoldable pub slow_alloc_fixup : ℕ → ℕ → Flags → M → Option (ℕ × M)
  unfolding slow_alloc fixup_size
  slow_alloc_fixup fuel idx flags m = fixup_size lp64 idx >>= λ sz. slow_alloc fuel sz flags m

  -- `swift_alloc`, `swift_rawAlloc`, `swift_tryAlloc` and `swift_tryRawAlloc`, by their flags.
  unfoldable pub alloc : ℕ → Flags → ℕ → Heap M → Option (ℕ × Heap M)
  unfolding slow_alloc_fixup
  alloc fuel flags idx h =
      let r = (if flags.raw then h.raw_cache else h.cache) idx in
      if not (r == 0)
      then some (
        r,
        (if flags.raw
            then (record h { raw_cache = set h.raw_cache idx (h.next r) })
            else (record h { cache = set h.cache idx (h.next r) })),
      )
      else (slow_alloc_fixup fuel idx flags h.memory >>= λ t. some (t.0, record h { memory = t.1 }))

  -- `swift_dealloc` and `swift_rawDealloc`
  unfoldable pub dealloc : Bool → ℕ → ℕ → Heap M → Heap M
  dealloc raw ptr idx h =
      if raw
      then (record h {
        next = set h.next ptr (h.raw_cache idx);
        raw_cache = set h.raw_cache idx ptr;
      })
      else (record h { next = set h.next ptr (h.cache idx); cache = set h.cache idx ptr })

  -- `swift_slowDealloc` and `swift_slowRawDealloc`; `none` is a write behind the cache's buckets.
  unfoldable pub slow_dealloc : Bool → ℕ → ℕ → Heap M → Option (Heap M)
  unfolding dealloc dealloc_index
  slow_dealloc raw ptr bytes h = elim (dealloc_index lp64 bytes) [
    | none ↦ some (record h { memory = library.free ptr h.memory })
    | some idx ↦ if ltb idx alloc_cache_buckets then some (dealloc raw ptr idx h) else none
  ]

  -- `_swift_refillThreadAllocCache`
  unfoldable pub refill_thread_alloc_cache : ℕ → ℕ → Flags → Heap M → Option (Heap M)
  unfolding slow_alloc_fixup dealloc
  refill_thread_alloc_cache fuel idx flags h = slow_alloc_fixup fuel idx flags h.memory >>= λ t.
      some (
        if t.0 == 0
        then (record h { memory = t.1 })
        else dealloc flags.raw t.0 idx (record h { memory = t.1 }))
