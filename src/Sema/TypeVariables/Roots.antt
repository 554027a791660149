-- ===== src/Sema/TypeVariables/Roots.antt =====
-- The roots that the links of the type variables lead to (getRepresentative of
-- lib/Sema/TypeCheckConstraints.cpp).
use b1c3995fdcf53d46308da.Base.{
  ℕ, zero, suc, ◌+◌, ◌≤◌, ◌<◌, ◌==◌, ==_iff, ◌≡◌, ◌≢◌, refl, sym, ap, ◌∙◌, subst, fun_ext, Bool,
  true, false, Option, some, arith, inl, inr, Returns, Returns->>=, Returns-weaken, Bool-cases,
}
use b1c3995fdcf53d46308da.Sema.TypeVariables.{
  Link, parent, fixed, Store, Bindings, assign, change, restore_all, restore, find_step, find,
  compress_step, compress, get_representative,
}

module _ {T : Type 0} where
  -- A variable that no link leads away from.
  abbrev pub IsTop : ℕ → Link T → Type 0
  IsTop v (fixed t) = Unit {0}
  IsTop v (parent p) = p ≡ v

  -- The links lead from `v` to `r`.
  pub data RootOf (store : Store T) : ℕ → ℕ → Type 0 where
    at : {v r : ℕ} → v ≡ r → IsTop v (store v) → RootOf store v r
    up : {v r : ℕ} (p : ℕ) → store v ≡ parent p → p ≢ v → RootOf store p r → RootOf store v r

  -- Links lead to variables that are no newer.
  abbrev pub IsOrdered : Store T → Type 0
  IsOrdered store = (v p : ℕ) → store v ≡ parent p → p ≤ v

  RootOf-IsTop : {store : Store T} {v r : ℕ} → RootOf store v r → IsTop r (store r)
  RootOf-IsTop {store} (at e top) = subst (λ w. IsTop w (store w)) e top
  RootOf-IsTop (up p e ne rest) = RootOf-IsTop rest

  not_top : {link : Link T} {v p : ℕ} → link ≡ parent p → p ≢ v → IsTop v link → ⊥
  not_top {link} {v} e ne top = ne (subst (IsTop v) e top)

  pub parent-injective : {p q : ℕ} → ◌≡◌ {A = Link T} (parent p) (parent q) → p ≡ q
  parent-injective e = cc

  pub RootOf-unique : {store : Store T} {v r q : ℕ} → RootOf store v r → RootOf store v q → r ≡ q
  RootOf-unique (at e top) (at e' top') = sym e ∙ e'
  RootOf-unique (at e top) (up p s ne rest) = absurd (not_top s ne top)
  RootOf-unique (up p s ne rest) (at e top) = absurd (not_top s ne top)
  RootOf-unique {store} {v} {r} {q} (up p s ne rest) (up p' s' ne' rest') =
      RootOf-unique rest (subst (λ w. RootOf store w q) (parent-injective (sym s' ∙ s)) rest')

  RootOf-le : {store : Store T} {v r : ℕ} → IsOrdered store → RootOf store v r → r ≤ v
  RootOf-le ordered (at e top) = omega arith
  RootOf-le {store} {v} ordered (up p s ne rest) =
      omega (arith, RootOf-le ordered rest, ordered v p s)

  pub assign_same : (store : Store T) (v : ℕ) (link : Link T) → assign store v link v ≡ link
  assign_same store v link = let e : (v == v) ≡ true = ground arith in rw e refl

  pub assign_other :
      (store : Store T) (v w : ℕ) (link : Link T) → w ≢ v → assign store v link w ≡ store w
  assign_other store v w link ne = let e : (w == v) ≡ false = ground arith in rw e refl

  -- A shortened link still leads to the root.
  shortened :
      (store : Store T) (v r w q : ℕ)
      → v ≢ r
      → RootOf store v r
      → w ≡ v
      → RootOf store w q
      → RootOf (assign store v (parent r)) w q
  shortened store v r w q ne leads e h =
      let r_at : r ≡ q = RootOf-unique leads (subst (λ u. RootOf store u q) e h) in
      let differ : r ≢ v = λ p. ne (sym p) in
      up r (rw e (assign_same store v (parent r))) (λ p. ne (sym (p ∙ e)))
        (at r_at (rw (assign_other store v r (parent r) differ) (RootOf-IsTop leads)))

  -- Linking a variable to its root leads every variable where it led before.
  RootOf-shortcut :
      (store : Store T) (v r : ℕ)
      → v ≢ r
      → RootOf store v r
      → (w q : ℕ) → RootOf store w q
      → RootOf (assign store v (parent r)) w q
  RootOf-shortcut store v r ne leads w q (at e top) = elim (Bool-cases (w == v)) [
    | inl same ↦ shortened store v r w q ne leads ((==_iff w v).0 same) (at e top)
    | inr other ↦ at e (rw (assign_other store v w (parent r) (ground arith)) top)
  ]
  RootOf-shortcut store v r ne leads w q (up p s ne' rest) = elim (Bool-cases (w == v)) [
    | inl same ↦ shortened store v r w q ne leads ((==_iff w v).0 same) (up p s ne' rest)
    | inr other ↦
        up p (assign_other store v w (parent r) (ground arith) ∙ s) ne'
          (RootOf-shortcut store v r ne leads p q rest)
  ]

  pub IsOrdered-assign :
      (store : Store T) (v r : ℕ) → r ≤ v → IsOrdered store → IsOrdered (assign store v (parent r))
  IsOrdered-assign store v r le ordered w p e = elim (Bool-cases (w == v)) [
    | inl same ↦
        let at_v : w ≡ v = (==_iff w v).0 same in
        let linked : r ≡ p =
          parent-injective (
            sym (assign_same store v (parent r)) ∙ ap (assign store v (parent r)) (sym at_v) ∙ e) in
        omega arith
    | inr other ↦ ordered w p (sym (assign_other store v w (parent r) (ground arith)) ∙ e)
  ]

  -- The first loop finds the root.
  find_step-RootOf :
      (go : ℕ → Option ℕ) (store : Store T) (v : ℕ) (link : Link T)
      → store v ≡ link
      → ((p : ℕ) → link ≡ parent p → p ≢ v → Returns (go p) (RootOf store p))
      → Returns (find_step go v link) (RootOf store v)
  find_step-RootOf go store v (fixed t) e next = at refl (rw e tt)
  find_step-RootOf go store v (parent p) e next = by_test (p == v) refl
    where
      by_test :
          (b : Bool)
          → (p == v) ≡ b
          → Returns (elim b as (λ b. Option ℕ) [ true ↦ some v | false ↦ go p ]) (RootOf store v)
      by_test true same = at refl (rw e (ground arith))
      by_test false other =
          let ne : p ≢ v = ground arith in
          Returns-weaken (RootOf store p) (RootOf store v) (go p) (next p refl ne)
            (λ r h. up p e ne h)

  find-RootOf :
      (fuel : ℕ) (store : Store T) (v : ℕ)
      → IsOrdered store
      → v < fuel
      → Returns (find fuel store v) (RootOf store v)
  unfolding find
  find-RootOf zero store v ordered enough = absurd (omega arith)
  find-RootOf (suc fuel) store v ordered enough =
      find_step-RootOf (find fuel store) store v (store v) refl
        (λ p e ne. find-RootOf fuel store p ordered (omega (arith, ordered v p e)))

  -- What a change of the bindings may do: links stay ordered, every variable leads where it led,
  -- roots keep their links, and undoing the saved changes gives what it gave before.
  pub record SameClasses (b b' : Bindings T) : Type 0 where
    pub ordered : IsOrdered b'.store
    pub leads : (w q : ℕ) → RootOf b.store w q → RootOf b'.store w q
    pub tops : (w : ℕ) → IsTop w (b.store w) → b'.store w ≡ b.store w
    pub undone : (restore b').store ≡ (restore b).store

  -- A saved change is undone first.
  pub change-undone :
      (b : Bindings T) (v : ℕ) (link : Link T)
      → (restore (change b v link)).store ≡ (restore b).store
  unfolding restore_all
  change-undone b v link = ap (restore_all b.saved) (fun_ext put_back)
    where
      put_back : (w : ℕ) → assign (assign b.store v link) v (b.store v) w ≡ b.store w
      put_back w = elim (Bool-cases (w == v)) [
        | inl same ↦ rw same (ap b.store (sym ((==_iff w v).0 same)))
        | inr other ↦ rw other refl
      ]

  SameClasses-refl : (b : Bindings T) → IsOrdered b.store → SameClasses b b
  SameClasses-refl b ordered = record {
    ordered = ordered;
    leads = λ w q h. h;
    tops = λ w h. refl;
    undone = refl;
  }

  SameClasses-trans : {a b c : Bindings T} → SameClasses a b → SameClasses b c → SameClasses a c
  SameClasses-trans {a} {b} {c} h k = record {
    ordered = k.ordered;
    tops = λ w top. k.tops w (rw (h.tops w top) top) ∙ h.tops w top;
    leads = λ w q leads. k.leads w q (h.leads w q leads);
    undone = k.undone ∙ h.undone;
  }

  SameClasses-shortcut :
      (b : Bindings T) (v r : ℕ)
      → IsOrdered b.store
      → v ≢ r
      → RootOf b.store v r
      → SameClasses b (change b v (parent r))
  SameClasses-shortcut b v r ordered ne leads = record {
    ordered = IsOrdered-assign b.store v r (RootOf-le ordered leads) ordered;
    leads = RootOf-shortcut b.store v r ne leads;
    tops = λ w top.
        assign_other b.store v w (parent r)
          (λ same. ne (RootOf-unique (at refl (subst (λ u. IsTop u (b.store u)) same top)) leads));
    undone = change-undone b v (parent r);
  }

  -- The root of a variable that is linked on to `p` is that of `p`.
  RootOf-next :
      (store : Store T) (v p r : ℕ)
      → store v ≡ parent p
      → p ≢ r
      → RootOf store v r
      → (v ≢ r) × RootOf store p r
  RootOf-next store v p r e ne (at same top) =
      let p_at : p ≡ v = subst (IsTop v) e top in absurd (ne (p_at ∙ same))
  RootOf-next store v p r e ne (up p' s ne' rest) =
      let linked : p' ≡ p = parent-injective (sym s ∙ e) in
      (
        λ same. ne' (subst (IsTop v) s (rw same (RootOf-IsTop rest))),
        subst (λ w. RootOf store w r) linked rest,
      )

  compress_step-SameClasses :
      (go : Bindings T → ℕ → Option (Bindings T)) (rep : ℕ) (b : Bindings T) (v : ℕ) (link : Link T)
      → b.store v ≡ link
      → IsOrdered b.store
      → RootOf b.store v rep
      → ((b' : Bindings T) (p : ℕ)
          → p < v
          → IsOrdered b'.store
          → RootOf b'.store p rep
          → Returns (go b' p) (SameClasses b'))
      → Returns (compress_step go rep b v link) (SameClasses b)
  compress_step-SameClasses go rep b v (fixed t) e ordered leads next = SameClasses-refl b ordered
  compress_step-SameClasses go rep b v (parent p) e ordered leads next = by_test (p == rep) refl
    where
      by_test :
          (done : Bool)
          → (p == rep) ≡ done
          → Returns
              (elim done as (λ b. Option (Bindings T)) [
                | true ↦ some b
                | false ↦ go (change b v (parent rep)) p
              ])
              (SameClasses b)
      by_test true same = SameClasses-refl b ordered
      by_test false other =
          let on = RootOf-next b.store v p rep e (ground arith) leads in
          let step = SameClasses-shortcut b v rep ordered on.0 leads in
          let smaller : p < v = omega (
            arith,
            ordered v p e,
            λ (same : p ≡ v). on.0 (RootOf-unique (at refl (subst (IsTop v) (sym e) same)) leads),
          ) in
          Returns-weaken (SameClasses (change b v (parent rep))) (SameClasses b) _
            (next (change b v (parent rep)) p smaller step.ordered (step.leads p rep on.1))
            (λ b' h. SameClasses-trans step h)

  compress-SameClasses :
      (fuel rep : ℕ) (b : Bindings T) (v : ℕ)
      → v < fuel
      → IsOrdered b.store
      → RootOf b.store v rep
      → Returns (compress fuel rep b v) (SameClasses b)
  unfolding compress
  compress-SameClasses zero rep b v enough ordered leads = absurd (omega arith)
  compress-SameClasses (suc fuel) rep b v enough ordered leads =
      compress_step-SameClasses (compress fuel rep) rep b v (b.store v) refl ordered leads
        (λ b' p smaller. compress-SameClasses fuel rep b' p (omega arith))

  -- `getRepresentative` returns the root, and its path compression changes no class.
  pub get_representative-RootOf :
      (v : ℕ) (b : Bindings T)
      → IsOrdered b.store
      → Returns (get_representative v b) (λ r. RootOf b.store v r.0 × SameClasses b r.1)
  unfolding get_representative
  get_representative-RootOf v b ordered =
      Returns->>= (RootOf b.store v) _ (find (v + 1) b.store v) _
        (find-RootOf (v + 1) b.store v ordered (omega arith))
        (λ rep leads. elim (Bool-cases (rep == v)) [
          | inl same ↦
              rw same
                (subst (RootOf b.store v) ((==_iff rep v).0 same) leads, SameClasses-refl b ordered)
          | inr other ↦ rw other (
              Returns->>= (SameClasses b) _ (compress (v + 1) rep b v) _
                (compress-SameClasses (v + 1) rep b v (omega arith) ordered leads)
                (λ b' h. (leads, h)))
        ])
