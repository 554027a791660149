-- ===== src/Sema/TypeVariables/Classes.antt =====
-- The merge of two classes, and the type of a class (mergeEquivalenceClasses and assignFixedType of
-- lib/Sema/TypeCheckConstraints.cpp).
use b1c3995fdcf53d46308da.Base.{
  ℕ, zero, suc, ◌+◌, ◌<◌, ◌==◌, ==_iff, ◌≡◌, ◌≢◌, refl, sym, ap, ◌∙◌, subst, ltb, ◌&&◌, ◌||◌, not,
  Bool, true, false, if◌then◌else◌, none, some, arith, inl, inr, Returns, Returns->>=, Bool-cases,
}
use b1c3995fdcf53d46308da.Sema.TypeVariables.{
  Link, parent, fixed, Store, Bindings, assign, change, restore, find_step, find,
  get_representative, merge_equivalence_classes, assign_fixed_type, find_fixed, fixed_step,
}
use b1c3995fdcf53d46308da.Sema.TypeVariables.Roots.{
  at, up, RootOf, IsOrdered, parent-injective, RootOf-unique, assign_same, assign_other,
  IsOrdered-assign, SameClasses, change-undone, get_representative-RootOf,
}

-- The root of a class after the merge of `hi` into `lo`.
abbrev pub merged_root : ℕ → ℕ → ℕ → ℕ
merged_root lo hi q = if q == hi then lo else q

module _ {T : Type 0} where
  -- A free root is its own representative, and the search changes nothing.
  find-top :
      (fuel : ℕ) (store : Store T) (v : ℕ)
      → 0 < fuel
      → store v ≡ parent v
      → find fuel store v ≡ some v
  unfolding find
  find-top zero store v enough free = absurd (omega arith)
  find-top (suc fuel) store v enough free =
      let same : (v == v) ≡ true = ground arith in rw free (rw (same, find_step) refl)

  get_representative-top :
      (v : ℕ) (b : Bindings T) → b.store v ≡ parent v → get_representative v b ≡ some (v, b)
  unfolding get_representative
  get_representative-top v b free =
      let same : (v == v) ≡ true = ground arith in
      rw (find-top (v + 1) b.store v (omega arith) free) (rw same refl)

  RootOf-merged :
      (store : Store T) (lo hi : ℕ)
      → lo ≢ hi
      → store lo ≡ parent lo
      → store hi ≡ parent hi
      → (w q : ℕ) → RootOf store w q
      → RootOf (assign store hi (parent lo)) w (merged_root lo hi q)
  RootOf-merged store lo hi ne lo_free hi_free w q (at e top) = elim (Bool-cases (w == hi)) [
    | inl same ↦
        let w_at : w ≡ hi = (==_iff w hi).0 same in
        let q_at : (q == hi) ≡ true = ground arith in
        rw q_at (
          up lo (rw w_at (assign_same store hi (parent lo))) (λ p. ne (p ∙ w_at))
            (at refl (rw (assign_other store hi lo (parent lo) ne ∙ lo_free) refl)))
    | inr other ↦
        let q_at : (q == hi) ≡ false = ground arith in
        rw q_at (at e (rw (assign_other store hi w (parent lo) (ground arith)) top))
  ]
  RootOf-merged store lo hi ne lo_free hi_free w q (up p s ne' rest) = elim (Bool-cases (w == hi)) [
    | inl same ↦
        let w_at : w ≡ hi = (==_iff w hi).0 same in
        let p_at : p ≡ hi = parent-injective (sym s ∙ ap store w_at ∙ hi_free) in
        absurd (ne' (p_at ∙ sym w_at))
    | inr other ↦
        up p (assign_other store hi w (parent lo) (ground arith) ∙ s) ne'
          (RootOf-merged store lo hi ne lo_free hi_free p q rest)
  ]

  -- The classes of the two variables are one, whose root is `lo`; the others are as they were.
  pub record Merged (b : Bindings T) (lo hi : ℕ) (b' : Bindings T) : Type 0 where
    pub ordered : IsOrdered b'.store
    pub leads : (w q : ℕ) → RootOf b.store w q → RootOf b'.store w (merged_root lo hi q)
    pub undone : (restore b').store ≡ (restore b).store

  change-Merged :
      (b : Bindings T) (lo hi : ℕ)
      → IsOrdered b.store
      → lo < hi
      → b.store lo ≡ parent lo
      → b.store hi ≡ parent hi
      → Merged b lo hi (change b hi (parent lo))
  change-Merged b lo hi ordered lt lo_free hi_free = record {
    ordered = IsOrdered-assign b.store hi lo (omega arith) ordered;
    leads = RootOf-merged b.store lo hi (omega arith) lo_free hi_free;
    undone = change-undone b hi (parent lo);
  }

  -- For two different free roots, `mergeEquivalenceClasses` returns: no assertion fails, and
  -- the loops end. The newer root is linked to the older one, so every variable of either class
  -- leads to the older root, every other variable leads where it led, links still lead to no newer
  -- variable, and undoing the saved bindings gives the links from before.
  pub merge_equivalence_classes-Merged :
      (v1 v2 : ℕ) (b : Bindings T)
      → IsOrdered b.store
      → v1 ≢ v2
      → b.store v1 ≡ parent v1
      → b.store v2 ≡ parent v2
      → Returns
          (merge_equivalence_classes v1 v2 b)
          (Merged b (if ltb v1 v2 then v1 else v2) (if ltb v1 v2 then v2 else v1))
  unfolding merge_equivalence_classes
  merge_equivalence_classes-Merged v1 v2 b ordered ne free1 free2 =
      let ok : (not ((v1 == v1) && (v2 == v2)) || (v1 == v2)) ≡ false = ground arith in
      rw (get_representative-top v1 b free1) (
        rw (get_representative-top v2 b free2) (
          rw ok (elim (Bool-cases (ltb v1 v2)) [
            | inl older ↦ rw older (
                rw (get_representative-top v2 b free2)
                  (change-Merged b v1 v2 ordered (ground arith) free1 free2))
            | inr newer ↦ rw newer (
                rw (get_representative-top v1 b free1)
                  (change-Merged b v2 v1 ordered (ground arith) free2 free1))
          ])))

  -- A type for a free root.
  RootOf-fixed :
      (store : Store T) (r : ℕ) (t : T)
      → store r ≡ parent r
      → (w q : ℕ) → RootOf store w q
      → RootOf (assign store r (fixed t)) w q
  RootOf-fixed store r t free w q (at e top) = elim (Bool-cases (w == r)) [
    | inl same ↦ let w_at : w ≡ r = (==_iff w r).0 same in at e (rw same tt)
    | inr other ↦ at e (rw (assign_other store r w (fixed t) (ground arith)) top)
  ]
  RootOf-fixed store r t free w q (up p s ne rest) = elim (Bool-cases (w == r)) [
    | inl same ↦
        let w_at : w ≡ r = (==_iff w r).0 same in
        let p_at : p ≡ r = parent-injective (sym s ∙ ap store w_at ∙ free) in
        absurd (ne (p_at ∙ sym w_at))
    | inr other ↦
        up p (assign_other store r w (fixed t) (ground arith) ∙ s) ne
          (RootOf-fixed store r t free p q rest)
  ]

  find_fixed-none :
      (fuel : ℕ) (store : Store T) (v r : ℕ)
      → v < fuel
      → IsOrdered store
      → RootOf store v r
      → store r ≡ parent r
      → find_fixed fuel store v ≡ some none
  unfolding find_fixed
  find_fixed-none zero store v r enough ordered leads free = absurd (omega arith)
  find_fixed-none (suc fuel) store v r enough ordered (at e top) free =
      let v_free : store v ≡ parent v = subst (λ w. store w ≡ parent w) (sym e) free in
      let same : (v == v) ≡ true = ground arith in rw v_free (rw (same, fixed_step) refl)
  find_fixed-none (suc fuel) store v r enough ordered (up p s ne rest) free =
      let other : (p == v) ≡ false = ground arith in
      rw s (
        rw (other, fixed_step)
          (find_fixed-none fuel store p r (omega (arith, ordered v p s)) ordered rest free))

  -- The class of `r` has the type, and every variable leads where it led.
  pub record Assigned (b : Bindings T) (r : ℕ) (t : T) (b' : Bindings T) : Type 0 where
    pub ordered : IsOrdered b'.store
    pub leads : (w q : ℕ) → RootOf b.store w q → RootOf b'.store w q
    pub has_type : b'.store r ≡ fixed t
    pub undone : (restore b').store ≡ (restore b).store

  pub IsOrdered-fixed :
      (store : Store T) (r : ℕ) (t : T) → IsOrdered store → IsOrdered (assign store r (fixed t))
  IsOrdered-fixed store r t ordered w p e = elim (Bool-cases (w == r)) [
    | inl same ↦
        let w_at : w ≡ r = (==_iff w r).0 same in
        let clash : ◌≡◌ {A = Link T} (fixed t) (parent p) =
          sym (assign_same store r (fixed t)) ∙ ap (assign store r (fixed t)) (sym w_at) ∙ e in
        absurd (cc)
    | inr other ↦ ordered w p (sym (assign_other store r w (fixed t) (ground arith)) ∙ e)
  ]

  -- For a variable whose class has no type yet, `assignFixedType` returns: the assertion holds,
  -- whatever types are equal, and the loops end. The root of the class gets the type, every
  -- variable leads where it led, and undoing the saved bindings gives the links from before.
  pub assign_fixed_type-Assigned :
      (same_type : T → T → Bool) (v r : ℕ) (t : T) (b : Bindings T)
      → IsOrdered b.store
      → RootOf b.store v r
      → b.store r ≡ parent r
      → Returns (assign_fixed_type same_type v t b) (Assigned b r t)
  unfolding assign_fixed_type
  assign_fixed_type-Assigned same_type v r t b ordered leads free =
      rw (find_fixed-none (v + 1) b.store v r (omega arith) ordered leads free) (
        Returns->>= (λ f. RootOf b.store v f.0 × SameClasses b f.1) (Assigned b r t)
          (get_representative v b) _ (get_representative-RootOf v b ordered)
          (λ f h.
            subst (λ q. Assigned b r t (change f.1 q (fixed t))) (RootOf-unique leads h.0)
              (assigned f.1 h.1)))
    where
      still_free : (b' : Bindings T) → SameClasses b b' → b'.store r ≡ parent r
      still_free b' h = h.tops r (rw free refl) ∙ free

      assigned : (b' : Bindings T) → SameClasses b b' → Assigned b r t (change b' r (fixed t))
      assigned b' h = record {
        ordered = IsOrdered-fixed b'.store r t h.ordered;
        leads = λ w q k. RootOf-fixed b'.store r t (still_free b' h) w q (h.leads w q k);
        has_type = assign_same b'.store r (fixed t);
        undone = change-undone b' r (fixed t) ∙ h.undone;
      }
