-- ===== src/Base/Lists.antt =====
-- Lists measured and indexed by native numbers, and suffixes of a list.
use Prim.Native.Nat.{ℕ, zero, suc, ◌+◌, ◌-◌, ◌≤◌}
use mathlib.Core.Path.{◌≡◌, refl, ap, sym, subst}
use mathlib.Core.Logic.{◌⊎◌, inl, inr}
use mathlib.Core.List.{List, [], ◌∷◌, ◌++◌}
use mathlib.Core.Option.{Option, none, some}
use native.Mathlib.Omega.{arith}
use mathlib.Core.Bool.{Bool, true, false, ◌&&◌}
use b1c3995fdcf53d46308da.Base.Numbers.{◌==◌}

abbrev pub Bytes : Type 0
Bytes = List ℕ

-- Whether two texts are the same.
abbrev pub same_bytes : Bytes → Bytes → Bool
same_bytes [] [] = true
same_bytes [] (d ∷ s) = false
same_bytes (c ∷ r) [] = false
same_bytes (c ∷ r) (d ∷ s) = c == d && same_bytes r s

module _ {ℓ} {A : Type ℓ} where
  abbrev pub length : List A → ℕ
  length [] = 0
  length (x ∷ xs) = suc (length xs)

  abbrev pub get_elem? : List A → ℕ → Option A
  get_elem? [] i = none
  get_elem? (x ∷ xs) zero = some x
  get_elem? (x ∷ xs) (suc i) = get_elem? xs i

  abbrev pub take : ℕ → List A → List A
  take zero xs = []
  take (suc n) [] = []
  take (suc n) (x ∷ xs) = x ∷ take n xs

  abbrev pub drop : ℕ → List A → List A
  drop zero xs = xs
  drop (suc n) [] = []
  drop (suc n) (x ∷ xs) = drop n xs

  pub length-append : (xs ys : List A) → length (xs ++ ys) ≡ length xs + length ys
  length-append [] ys = omega arith
  length-append (x ∷ xs) ys = omega (arith, length-append xs ys)

-- `IsSuffix s r`: the list `s` is what is left of `r` after some of its first elements.
pub data IsSuffix {ℓ} {A : Type ℓ} (s : List A) : List A → Type ℓ where
  here : IsSuffix s s
  there : {x : A} {r : List A} → IsSuffix s r → IsSuffix s (x ∷ r)

module _ {ℓ} {A : Type ℓ} where
  pub IsSuffix-trans : {s t r : List A} → IsSuffix s t → IsSuffix t r → IsSuffix s r
  IsSuffix-trans h here = h
  IsSuffix-trans h (there k) = there (IsSuffix-trans h k)

  pub IsSuffix-length : {s r : List A} → IsSuffix s r → length s ≤ length r
  IsSuffix-length here = omega arith
  IsSuffix-length (there k) = omega (arith, IsSuffix-length k)

  -- A suffix is found behind the bytes that it leaves out.
  pub IsSuffix-take : {s r : List A} → IsSuffix s r → take (length r - length s) r ++ s ≡ r
  IsSuffix-take {s} here = let e : length s - length s ≡ 0 = omega arith in rw e refl
  IsSuffix-take {s} (there {x} {r} k) =
      let e : suc (length r) - length s ≡ suc (length r - length s) =
        omega (arith, IsSuffix-length k) in
      rw e (ap (◌∷◌ x) (IsSuffix-take k))

  pub IsSuffix-nil : (r : List A) → IsSuffix [] r
  IsSuffix-nil [] = here
  IsSuffix-nil (x ∷ r) = there (IsSuffix-nil r)

  IsSuffix-cases :
      {s r : List A}
      → IsSuffix s r
      → (s ≡ r) ⊎ ((x : A) × (t : List A) × (r ≡ x ∷ t) × IsSuffix s t)
  IsSuffix-cases here = inl refl
  IsSuffix-cases (there {x} {r} h) = inr (x, r, refl, h)

  pub cons-eq_tail : {x y : A} {r s : List A} → x ∷ r ≡ y ∷ s → r ≡ s
  cons-eq_tail e = cc

  -- A suffix of a list with a first element is the list, or a suffix of its tail.
  pub IsSuffix-cons :
      {s : List A} (x : A) (r : List A) → IsSuffix s (x ∷ r) → (s ≡ x ∷ r) ⊎ IsSuffix s r
  IsSuffix-cons {s} x r h = elim (IsSuffix-cases h) [
    | inl e ↦ inl e
    | inr (y, t, e, k) ↦ inr (subst (IsSuffix s) (sym (cons-eq_tail e)) k)
  ]

  -- Of two suffixes of a list the shorter one is a suffix of the other.
  pub IsSuffix-of_length :
      {s t r : List A} → IsSuffix s r → IsSuffix t r → length s ≤ length t → IsSuffix s t
  IsSuffix-of_length h here le = h
  IsSuffix-of_length {s} {t} h (there {x} {r} k) le = elim (IsSuffix-cons x r h) [
    | inl e ↦ absurd (omega (arith, ap length e, IsSuffix-length k))
    | inr h' ↦ IsSuffix-of_length h' k le
  ]

  pub length-drop : (n : ℕ) (xs : List A) → length (drop n xs) ≡ length xs - n
  length-drop zero xs = omega arith
  length-drop (suc n) [] = omega arith
  length-drop (suc n) (x ∷ xs) = omega (arith, length-drop n xs)

  pub drop-IsSuffix : (n : ℕ) (xs : List A) → IsSuffix (drop n xs) xs
  drop-IsSuffix zero xs = here
  drop-IsSuffix (suc n) [] = here
  drop-IsSuffix (suc n) (x ∷ xs) = there (drop-IsSuffix n xs)

  -- A suffix that is as long as the list is the list.
  pub IsSuffix-eq : {s r : List A} → IsSuffix s r → length s ≡ length r → s ≡ r
  IsSuffix-eq here e = refl
  IsSuffix-eq (there k) e = absurd (omega (arith, IsSuffix-length k))

  -- Going forward by the difference of the lengths leads to the suffix.
  pub IsSuffix-drop : {s r : List A} → IsSuffix s r → drop (length r - length s) r ≡ s
  IsSuffix-drop {s} here = let e : length s - length s ≡ 0 = omega arith in rw e refl
  IsSuffix-drop {s} (there {x} {r} k) =
      let e : suc (length r) - length s ≡ suc (length r - length s) =
        omega (arith, IsSuffix-length k) in
      rw e (IsSuffix-drop k)
