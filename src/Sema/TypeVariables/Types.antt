-- ===== src/Sema/TypeVariables/Types.antt =====
-- The types that the variables have (getFixedType of lib/Sema/TypeCheckConstraints.cpp).
use b1c3995fdcf53d46308da.Base.{
  ℕ, zero, suc, ◌+◌, ◌<◌, ◌==◌, ==_iff, ◌≡◌, ◌≢◌, refl, sym, ap, ◌∙◌, subst, Bool, true, false,
  Option, none, some, arith, inl, inr, Returns, Returns->>=, Returns-weaken, Bool-cases,
}
use b1c3995fdcf53d46308da.Sema.TypeVariables.{
  Link, parent, fixed, Store, Bindings, assign, change, restore, find_fixed, fixed_step,
  compress_fixed_step, compress_fixed, compress_found, get_fixed_type,
}
use b1c3995fdcf53d46308da.Sema.TypeVariables.Roots.{
  IsOrdered, assign_same, assign_other, parent-injective, change-undone,
}
use b1c3995fdcf53d46308da.Sema.TypeVariables.Classes.{IsOrdered-fixed}

module _ {T : Type 0} where
  -- The links lead from a variable to a type, or to a free root.
  pub data HasType (store : Store T) : ℕ → Option T → Type 0 where
    bound : {v : ℕ} {o : Option T} (t : T) → store v ≡ fixed t → o ≡ some t → HasType store v o
    free : {v : ℕ} {o : Option T} → store v ≡ parent v → o ≡ none → HasType store v o
    on :
        {v : ℕ} {o : Option T} (p : ℕ)
        → store v ≡ parent p
        → p ≢ v
        → HasType store p o
        → HasType store v o

  fixed-injective : {s t : T} → ◌≡◌ {A = Link T} (fixed s) (fixed t) → s ≡ t
  fixed-injective e = cc

  fixed-parent : {A : Type 0} {t : T} {p : ℕ} {link : Link T} → link ≡ fixed t → link ≡ parent p → A
  fixed-parent {A} {t} {p} {link} e e' =
      let clash : ◌≡◌ {A = Link T} (fixed t) (parent p) = sym e ∙ e' in absurd (cc)

  HasType-unique :
      {store : Store T} {v : ℕ} {o o' : Option T} → HasType store v o → HasType store v o' → o ≡ o'
  HasType-unique (bound t e is) (bound t' e' is') =
      is ∙ ap some (fixed-injective (sym e ∙ e')) ∙ sym is'
  HasType-unique (bound t e is) (free e' is') = fixed-parent e e'
  HasType-unique (bound t e is) (on p e' ne rest) = fixed-parent e e'
  HasType-unique (free e is) (bound t e' is') = fixed-parent e' e
  HasType-unique (free e is) (free e' is') = is ∙ sym is'
  HasType-unique (free e is) (on p e' ne rest) = absurd (ne (parent-injective (sym e' ∙ e)))
  HasType-unique (on p e ne rest) (bound t e' is') = fixed-parent e' e
  HasType-unique (on p e ne rest) (free e' is') = absurd (ne (parent-injective (sym e ∙ e')))
  HasType-unique {store} {v} {o} {o'} (on p e ne rest) (on p' e' ne' rest') =
      HasType-unique rest (subst (λ w. HasType store w o') (parent-injective (sym e' ∙ e)) rest')

  HasType-next :
      {store : Store T} {v : ℕ} {o : Option T} (p : ℕ)
      → store v ≡ parent p
      → p ≢ v
      → HasType store v o
      → HasType store p o
  HasType-next p e ne (bound t e' is) = fixed-parent e' e
  HasType-next p e ne (free e' is) = absurd (ne (parent-injective (sym e ∙ e')))
  HasType-next {store} {v} {o} p e ne (on p' e' ne' rest) =
      subst (λ w. HasType store w o) (parent-injective (sym e' ∙ e)) rest

  -- A variable that is given its type directly, and any other one.
  assigned_type :
      (store : Store T) (v : ℕ) (t : T)
      → HasType store v (some t)
      → (w : ℕ) (o : Option T) → HasType store w o
      → (assign store v (fixed t) w ≡ store w → HasType (assign store v (fixed t)) w o)
      → HasType (assign store v (fixed t)) w o
  assigned_type store v t has w o h elsewhere = elim (Bool-cases (w == v)) [
    | inl same ↦
        let here : w ≡ v = (==_iff w v).0 same in
        bound t (ap (assign store v (fixed t)) here ∙ assign_same store v (fixed t))
          (HasType-unique (subst (λ u. HasType store u o) here h) has)
    | inr other ↦ elsewhere (assign_other store v w (fixed t) (ground arith))
  ]

  -- Giving a variable its type directly leaves all types.
  HasType-fixed :
      (store : Store T) (v : ℕ) (t : T)
      → HasType store v (some t)
      → (w : ℕ) (o : Option T) → HasType store w o
      → HasType (assign store v (fixed t)) w o
  HasType-fixed store v t has w o (bound t' e is) =
      assigned_type store v t has w o (bound t' e is) (λ kept. bound t' (kept ∙ e) is)
  HasType-fixed store v t has w o (free e is) =
      assigned_type store v t has w o (free e is) (λ kept. free (kept ∙ e) is)
  HasType-fixed store v t has w o (on p e ne rest) =
      assigned_type store v t has w o (on p e ne rest)
        (λ kept. on p (kept ∙ e) ne (HasType-fixed store v t has p o rest))

  -- The first loop finds the type, or that there is none.
  fixed_step-HasType :
      (go : ℕ → Option (Option T)) (store : Store T) (v : ℕ) (link : Link T)
      → store v ≡ link
      → ((p : ℕ) → link ≡ parent p → p ≢ v → Returns (go p) (HasType store p))
      → Returns (fixed_step go v link) (HasType store v)
  fixed_step-HasType go store v (fixed t) e next = bound t e refl
  fixed_step-HasType go store v (parent p) e next = by_test (p == v) refl
    where
      by_test :
          (b : Bool)
          → (p == v) ≡ b
          → Returns
              (elim b as (λ b. Option (Option T)) [ true ↦ some none | false ↦ go p ])
              (HasType store v)
      by_test true same = free (e ∙ ap parent ((==_iff p v).0 same)) refl
      by_test false other =
          let ne : p ≢ v = ground arith in
          Returns-weaken (HasType store p) (HasType store v) (go p) (next p refl ne)
            (λ o h. on p e ne h)

  find_fixed-HasType :
      (fuel : ℕ) (store : Store T) (v : ℕ)
      → IsOrdered store
      → v < fuel
      → Returns (find_fixed fuel store v) (HasType store v)
  unfolding find_fixed
  find_fixed-HasType zero store v ordered enough = absurd (omega arith)
  find_fixed-HasType (suc fuel) store v ordered enough =
      fixed_step-HasType (find_fixed fuel store) store v (store v) refl
        (λ p e ne. find_fixed-HasType fuel store p ordered (omega (arith, ordered v p e)))

  -- A change of the bindings that leaves every variable its type, keeps links ordered, and can be
  -- undone.
  pub record SameTypes (b b' : Bindings T) : Type 0 where
    pub ordered : IsOrdered b'.store
    pub types : (w : ℕ) (o : Option T) → HasType b.store w o → HasType b'.store w o
    pub undone : (restore b').store ≡ (restore b).store

  SameTypes-refl : (b : Bindings T) → IsOrdered b.store → SameTypes b b
  SameTypes-refl b ordered = record { ordered = ordered; types = λ w o h. h; undone = refl }

  SameTypes-trans : {a b c : Bindings T} → SameTypes a b → SameTypes b c → SameTypes a c
  SameTypes-trans h k = record {
    ordered = k.ordered;
    types = λ w o has. k.types w o (h.types w o has);
    undone = k.undone ∙ h.undone;
  }

  SameTypes-fixed :
      (b : Bindings T) (v : ℕ) (t : T)
      → IsOrdered b.store
      → HasType b.store v (some t)
      → SameTypes b (change b v (fixed t))
  SameTypes-fixed b v t ordered has = record {
    ordered = IsOrdered-fixed b.store v t ordered;
    types = HasType-fixed b.store v t has;
    undone = change-undone b v (fixed t);
  }

  compress_fixed_step-SameTypes :
      (go : Bindings T → ℕ → Option (Bindings T)) (t : T) (b : Bindings T) (v : ℕ) (link : Link T)
      → b.store v ≡ link
      → IsOrdered b.store
      → HasType b.store v (some t)
      → ((b' : Bindings T) (p : ℕ)
          → p < v
          → IsOrdered b'.store
          → HasType b'.store p (some t)
          → Returns (go b' p) (SameTypes b'))
      → Returns (compress_fixed_step go t b v link) (SameTypes b)
  compress_fixed_step-SameTypes go t b v (fixed t') e ordered has next = SameTypes-refl b ordered
  compress_fixed_step-SameTypes go t b v (parent p) e ordered has next = by_test (p == v) refl
    where
      by_test :
          (done : Bool)
          → (p == v) ≡ done
          → Returns
              (elim done as (λ b. Option (Bindings T)) [
                | true ↦ some b
                | false ↦ go (change b v (fixed t)) p
              ])
              (SameTypes b)
      by_test true same = SameTypes-refl b ordered
      by_test false other =
          let ne : p ≢ v = ground arith in
          let step = SameTypes-fixed b v t ordered has in
          Returns-weaken (SameTypes (change b v (fixed t))) (SameTypes b) _
            (next (change b v (fixed t)) p (omega (arith, ordered v p e)) step.ordered
              (step.types p (some t) (HasType-next p e ne has)))
            (λ b' h. SameTypes-trans step h)

  compress_fixed-SameTypes :
      (fuel : ℕ) (t : T) (b : Bindings T) (v : ℕ)
      → v < fuel
      → IsOrdered b.store
      → HasType b.store v (some t)
      → Returns (compress_fixed fuel t b v) (SameTypes b)
  unfolding compress_fixed
  compress_fixed-SameTypes zero t b v enough ordered has = absurd (omega arith)
  compress_fixed-SameTypes (suc fuel) t b v enough ordered has =
      compress_fixed_step-SameTypes (compress_fixed fuel t) t b v (b.store v) refl ordered has
        (λ b' p smaller. compress_fixed-SameTypes fuel t b' p (omega arith))

  compress_found-SameTypes :
      (v : ℕ) (b : Bindings T) (found : Option T)
      → IsOrdered b.store
      → HasType b.store v found
      → Returns (compress_found v b found) (λ r. HasType b.store v r.0 × SameTypes b r.1)
  unfolding compress_found
  compress_found-SameTypes v b none ordered has = (has, SameTypes-refl b ordered)
  compress_found-SameTypes v b (some t) ordered has =
      Returns->>= (SameTypes b) _ (compress_fixed (v + 1) t b v) _
        (compress_fixed-SameTypes (v + 1) t b v (omega arith) ordered has) (λ b' h. (has, h))

  -- `getFixedType` returns: its loops end. The result is the type that the links lead to, or
  -- none if they lead to a free root, and the path compression leaves every variable its type and
  -- is undone by the saved bindings.
  pub get_fixed_type-HasType :
      (v : ℕ) (b : Bindings T)
      → IsOrdered b.store
      → Returns (get_fixed_type v b) (λ r. HasType b.store v r.0 × SameTypes b r.1)
  unfolding get_fixed_type
  get_fixed_type-HasType v b ordered =
      Returns->>= (HasType b.store v) _ (find_fixed (v + 1) b.store v) _
        (find_fixed-HasType (v + 1) b.store v ordered (omega arith))
        (λ found has. compress_found-SameTypes v b found ordered has)
