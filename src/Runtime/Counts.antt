-- ===== src/Runtime/Counts.antt =====
-- Reference counting (runtime/Alloc.cpp, `_swift_retain` of runtime/Alloc.h). The count of an
-- object is a 32-bit word that steps by `RC_INTERVAL`; bit 0 is kept for a flag.
use b1c3995fdcf53d46308da.Base.{
  ℕ, zero, suc, ◌+◌, ◌-◌, ◌*◌, ◌%◌, ◌<◌, ◌==◌, ◌≡◌, ◌≢◌, refl, ap, ◌∙◌, subst, true, false,
  if◌then◌else◌, Option, none, some, arith, List, [], ◌∷◌,
}

-- `RC_INTERVAL`
abbrev pub rc_interval : ℕ
rc_interval = 2

-- The counts at each address and, in reverse order, the objects that were destroyed.
pub record Counts : Type 0 where
  pub ref_count : ℕ → ℕ
  pub destroyed : List ℕ

abbrev pub set_count : Counts → ℕ → ℕ → Counts
set_count s object n = record s { ref_count = λ o. if o == object then n else s.ref_count o }

-- The count of a new object in `swift_allocObject`.
abbrev pub alloc_object : ℕ → Counts → Counts
alloc_object object s = set_count s object rc_interval

-- `swift_retain`: `_swift_retain`, which leaves a null pointer alone.
unfoldable pub retain : ℕ → Counts → Counts
retain object s =
    if object == 0 then s else set_count s object ((s.ref_count object + rc_interval) % 4294967296)

-- `_swift_release_slow`, up to the metadata's `destroy` and `free`.
abbrev pub release_slow : ℕ → Counts → Counts
release_slow object s = record s { destroyed = object ∷ s.destroyed }

-- `swift_release`
unfoldable pub release : ℕ → Counts → Counts
release object s =
    if object == 0
    then s
    else (let n = (s.ref_count object + 4294967296 - rc_interval) % 4294967296 in
        let t : Counts = set_count s object n in if n == 0 then release_slow object t else t)

-- A step that a program takes with an object.
pub data Use : Type 0 where
  retained released : Use

unfoldable pub run : ℕ → List Use → Counts → Counts
unfolding retain release
run object [] s = s
run object (retained ∷ uses) s = run object uses (retain object s)
run object (released ∷ uses) s = run object uses (release object s)

-- The references that are left after the steps, from `owned` on; nothing if they are used up
-- before the steps end, or if there are too many for the word.
unfoldable pub owners : ℕ → List Use → Option ℕ
owners owned [] = some owned
owners zero (step ∷ uses) = none
owners (suc owned) (retained ∷ uses) =
    if owned == 2147483646 then none else owners (suc (suc owned)) uses
owners (suc owned) (released ∷ uses) = owners owned uses

-- The count stands for this many references.
abbrev pub CountsTo : ℕ → Counts → ℕ → Type 0
CountsTo object s n = (s.ref_count object ≡ 2 * n) × (n < 2147483648)

retain-CountsTo :
    (object n : ℕ) (s : Counts)
    → object ≢ 0
    → n < 2147483647
    → CountsTo object s n
    → CountsTo object (retain object s) (suc n) × ((retain object s).destroyed ≡ s.destroyed)
unfolding retain
retain-CountsTo object n s nonzero room (h, small) =
    let some_object : (object == 0) ≡ false = ground arith in
    let same : (object == object) ≡ true = ground arith in
    rw some_object (rw same (rw h ((omega arith, omega arith), refl)))

-- What a release leaves in the list of destroyed objects.
abbrev pub destroyed_after : ℕ → ℕ → List ℕ → List ℕ
destroyed_after object zero objects = object ∷ objects
destroyed_after object (suc n) objects = objects

release-CountsTo :
    (object n : ℕ) (s : Counts)
    → object ≢ 0
    → CountsTo object s (suc n)
    → CountsTo object (release object s) n
      × ((release object s).destroyed ≡ destroyed_after object n s.destroyed)
unfolding release
release-CountsTo object zero s nonzero (h, small) =
    let some_object : (object == 0) ≡ false = ground arith in
    let same : (object == object) ≡ true = ground arith in
    rw some_object (rw h (rw same ((refl, omega arith), refl)))
release-CountsTo object (suc n) s nonzero (h, small) =
    let some_object : (object == 0) ≡ false = ground arith in
    let same : (object == object) ≡ true = ground arith in
    let lower : (s.ref_count object + 4294967296 - 2) % 4294967296 ≡ 2 * suc n = omega arith in
    let left : (2 * suc n == 0) ≡ false = ground arith in
    rw some_object (rw lower (rw left (rw same ((refl, omega arith), refl))))

-- A live object is destroyed by the release of its last reference, once, and not before: along
-- steps that start from `owned` references, at least one, and never use the object after its last
-- release, its count stands for the references that are left, and the object joins the destroyed
-- ones exactly if none is left.
pub run-owners :
    (object owned n : ℕ) (uses : List Use) (s : Counts)
    → object ≢ 0
    → CountsTo object s (suc owned)
    → owners (suc owned) uses ≡ some n
    → CountsTo object (run object uses s) n
      × ((run object uses s).destroyed ≡ destroyed_after object n s.destroyed)
unfolding run owners
run-owners object owned n [] s nonzero h e =
    let same : suc owned ≡ n = cc in
    subst (λ n. CountsTo object s n × (s.destroyed ≡ destroyed_after object n s.destroyed)) same
      (h, refl)
run-owners object owned n (retained ∷ uses) s nonzero h e =
    let room : owned < 2147483646 = ground (arith, h.1) in
    let more : owners (suc (suc owned)) uses ≡ some n = ground arith in
    let (counts, kept) = retain-CountsTo object (suc owned) s nonzero (omega arith) h in
    let (end, lost) = run-owners object (suc owned) n uses (retain object s) nonzero counts more in
    (end, lost ∙ ap (destroyed_after object n) kept)
run-owners object zero n (released ∷ []) s nonzero h e =
    let same : 0 ≡ n = cc in
    subst
      (λ n.
        CountsTo object (release object s) n
        × ((release object s).destroyed ≡ destroyed_after object n s.destroyed))
      same (release-CountsTo object 0 s nonzero h)
run-owners object zero n (released ∷ step ∷ uses) s nonzero h e = absurd (cc)
run-owners object (suc owned) n (released ∷ uses) s nonzero h e =
    let (counts, kept) = release-CountsTo object (suc owned) s nonzero h in
    let (end, lost) = run-owners object owned n uses (release object s) nonzero counts e in
    (end, lost ∙ ap (destroyed_after object n) kept)
