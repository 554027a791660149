-- ===== src/Sema/Tuples/Shuffle.antt =====
-- The shuffle of a tuple conversion (matchTupleTypes of lib/Sema/TypeCheckConstraints.cpp).
use b1c3995fdcf53d46308da.Base.{
  ℕ, zero, suc, ◌+◌, ◌==◌, ◌<◌, ◌≡◌, ◌⊎◌, inl, inr, refl, sym, ap, ◌∙◌, subst, ◌||◌, not, Bool,
  true, false, if◌then◌else◌, Option, none, some, List, [], ◌∷◌, map, length, get_elem?, arith,
  Bool-cases, ==_iff,
}
use b1c3995fdcf53d46308da.Sema.Tuples.{
  Field, Source, unassigned, default_value, variadic, input, consume, Sources, source_of,
  consume_found, named_element_id, find_named, match_named, skip_to_next_unnamed, collect,
  cons_source, variadic_sources, Resolve, default_or_error, this_or_later, resolve_plain,
  resolve_vararg, resolve, all_consumed, check_consumed, element_sources,
}

-- Either there is nothing, or what there is satisfies `P`.
abbrev pub IfSome : {A : Type 0} → Option A → (A → Type 0) → Type 0
IfSome none P = Unit {0}
IfSome (some a) P = P a

abbrev pub IsArgument : ℕ → List ℕ → Type 0
IsArgument k [] = ⊥
IsArgument k (n ∷ arguments) = (k ≡ n) ⊎ IsArgument k arguments

abbrev pub IsAssigned : Source → Type 0
IsAssigned unassigned = ⊥
IsAssigned _ = Unit {0}

consume-true :
    (consumed : ℕ → Bool) (j k : ℕ) → consume consumed j k ≡ true → (consumed k ≡ true) ⊎ (k ≡ j)
consume-true consumed j k e = elim (Bool-cases (k == j)) [
  | inl same ↦ inr ((==_iff k j).0 same)
  | inr other ↦ let later : consumed k ≡ true = ground arith in inl later
]

module _ {T : Type 0} where
  -- Some element takes the input `k`.
  abbrev pub HasInput : ℕ → List (Field T × Source) → Type 0
  HasInput k [] = ⊥
  HasInput k ((e, source) ∷ elements) = (source ≡ input k) ⊎ HasInput k elements

  abbrev pub AllAssigned : List (Field T × Source) → Type 0
  AllAssigned [] = Unit {0}
  AllAssigned ((e, source) ∷ elements) = IsAssigned source × AllAssigned elements

  -- Only the last element may be variadic.
  abbrev pub OnlyLastVariadic : List (Field T) → Type 0
  OnlyLastVariadic [] = Unit {0}
  OnlyLastVariadic (e ∷ []) = Unit {0}
  OnlyLastVariadic (e ∷ e' ∷ fields) = (e.vararg_base_ty ≡ none) × OnlyLastVariadic (e' ∷ fields)

  abbrev pub fields_of : List (Field T × Source) → List (Field T)
  fields_of elements = map (λ p. p.0) elements

  module _ (fields1 : List (Field T)) where
    -- A source that an element may have: an input of its name or without one, its default value,
    -- or the arguments of a variadic one.
    abbrev pub Fits : Field T → Source → Type 0
    Fits e unassigned = Unit {0}
    Fits e default_value = e.has_init ≡ true
    Fits e variadic = (base : T) × (e.vararg_base_ty ≡ some base)
    Fits e (input k) =
        (f : Field T) × (get_elem? fields1 k ≡ some f) × ((f.name ≡ e.name) ⊎ (f.name ≡ 0))

    abbrev pub AllFit : List (Field T × Source) → Type 0
    AllFit [] = Unit {0}
    AllFit ((e, source) ∷ elements) = Fits e source × AllFit elements

    -- The arguments of a variadic element are inputs without a name.
    abbrev pub AllUnnamed : List ℕ → Type 0
    AllUnnamed [] = Unit {0}
    AllUnnamed (k ∷ arguments) =
        ((f : Field T) × (get_elem? fields1 k ≡ some f) × (f.name ≡ 0)) × AllUnnamed arguments

    -- The fields from a position on.
    abbrev At : ℕ → List (Field T) → Type 0
    At n fields = (k : ℕ) → get_elem? fields k ≡ get_elem? fields1 (n + k)

    At-tail :
        (n : ℕ) (f : Field T) (fields : List (Field T)) → At n (f ∷ fields) → At (n + 1) fields
    At-tail n f fields h = λ k.
        let e : n + suc k ≡ (n + 1) + k = omega arith in
        subst (λ m. get_elem? fields k ≡ get_elem? fields1 m) e (h (suc k))

    At-start : At 0 fields1
    At-start = λ k. let e : k ≡ 0 + k = omega arith in ap (get_elem? fields1) e

    At-head :
        (n : ℕ) (f : Field T) (fields : List (Field T))
        → At n (f ∷ fields)
        → get_elem? fields1 n ≡ some f
    At-head n f fields h =
        let e : n + 0 ≡ n = omega arith in sym (subst (λ m. some f ≡ get_elem? fields1 m) e (h 0))

    abbrev Unnamed : List (Field T) → Type 0
    Unnamed [] = Unit {0}
    Unnamed (f ∷ fields) = f.name ≡ 0

    -- The next input: its position is right, and it has no name.
    abbrev IsNext : ℕ × List (Field T) → Type 0
    IsNext next = At next.0 next.1 × Unnamed next.1

    skip_to_next_unnamed-IsNext :
        (consumed : ℕ → Bool) (n : ℕ) (fields : List (Field T))
        → At n fields
        → IsNext (skip_to_next_unnamed consumed n fields)
    unfolding skip_to_next_unnamed
    skip_to_next_unnamed-IsNext consumed n [] h = (h, tt)
    skip_to_next_unnamed-IsNext consumed n (f ∷ fields) h =
        elim (Bool-cases (consumed n || not (f.name == 0))) [
          | inl skipped ↦
              rw (skipped, skip_to_next_unnamed)
                (skip_to_next_unnamed-IsNext consumed (n + 1) fields (At-tail n f fields h))
          | inr stops ↦
              let unnamed : f.name ≡ 0 = ground arith in
              rw (stops, skip_to_next_unnamed) (h, unnamed)
        ]

    -- What the collected arguments are.
    abbrev CollectOk : (ℕ → Bool) → List ℕ × (ℕ → Bool) → Type 0
    CollectOk consumed r =
        AllUnnamed r.0 × ((k : ℕ) → r.1 k ≡ true → (consumed k ≡ true) ⊎ IsArgument k r.0)

    collect-CollectOk :
        (consumed : ℕ → Bool) (n : ℕ) (fields : List (Field T))
        → At n fields
        → CollectOk consumed (collect consumed n fields)
    unfolding collect
    collect-CollectOk consumed n [] h = (tt, λ k e. inl e)
    collect-CollectOk consumed n (f ∷ fields) h =
        elim (Bool-cases (consumed n || not (f.name == 0))) [
          | inl skipped ↦
              rw (skipped, collect)
                (collect-CollectOk consumed (n + 1) fields (At-tail n f fields h))
          | inr stops ↦
              let unnamed : f.name ≡ 0 = ground arith in
              let rest =
                collect-CollectOk (consume consumed n) (n + 1) fields (At-tail n f fields h) in
              rw (stops, collect)
                (
                  ((f, At-head n f fields h, unnamed), rest.0),
                  λ k e. elim (rest.1 k e) [
                    | inl before ↦ elim (consume-true consumed n k before) [
                      | inl old ↦ inl old
                      | inr here ↦ inr (inl here)
                    ]
                    | inr later ↦ inr (inr later)
                  ],
                )
        ]

    -- What the second loop makes of the elements.
    record Resolved (consumed : ℕ → Bool) (elements : List (Field T × Source)) (r : Sources T)
        : Type 0 where
      same_fields : fields_of r.elements ≡ fields_of elements
      fit : AllFit r.elements
      unnamed : AllUnnamed r.variadic_arguments
      kept : (k : ℕ) → HasInput k elements → HasInput k r.elements
      used :
          (k : ℕ)
          → r.consumed k ≡ true
          → (consumed k ≡ true) ⊎ (HasInput k r.elements ⊎ IsArgument k r.variadic_arguments)
      assigned : OnlyLastVariadic (fields_of elements) → AllAssigned r.elements

    OnlyLastVariadic-tail :
        (e : Field T) (fields : List (Field T))
        → OnlyLastVariadic (e ∷ fields)
        → OnlyLastVariadic fields
    OnlyLastVariadic-tail e [] h = tt
    OnlyLastVariadic-tail e (e' ∷ fields) h = h.1

    cons_source-Resolved :
        (consumed consumed' : ℕ → Bool) (e : Field T) (old source : Source)
        (elements : List (Field T × Source)) (m : Option (Sources T))
        → Fits e source
        → IsAssigned source
        → ((k : ℕ) → old ≡ input k → source ≡ input k)
        → ((k : ℕ) → consumed' k ≡ true → (consumed k ≡ true) ⊎ (source ≡ input k))
        → IfSome m (Resolved consumed' elements)
        → IfSome (cons_source e source m) (Resolved consumed ((e, old) ∷ elements))
    cons_source-Resolved consumed consumed' e old source elements none fits is keep taking h = tt
    cons_source-Resolved consumed consumed' e old source elements (some r) fits is keep taking h =
        record {
          same_fields = ap (◌∷◌ e) h.same_fields;
          fit = (fits, h.fit);
          unnamed = h.unnamed;
          kept =
              λ k has. elim has [ inl here ↦ inl (keep k here) | inr later ↦ inr (h.kept k later) ];
          used = λ k taken. elim (h.used k taken) [
            | inl before ↦ elim (taking k before) [
              | inl o ↦ inl o
              | inr here ↦ inr (inl (inl here))
            ]
            | inr (inl later) ↦ inr (inl (inr later))
            | inr (inr argument) ↦ inr (inr argument)
          ];
          assigned = λ only. (is, h.assigned (OnlyLastVariadic-tail e (fields_of elements) only));
        }

    no_variadic_before :
        (e : Field T) (base : T) (elements : List (Field T × Source))
        → e.vararg_base_ty ≡ some base
        → OnlyLastVariadic (e ∷ fields_of elements)
        → elements ≡ []
    no_variadic_before e base [] h only = refl
    no_variadic_before e base (p ∷ elements) h only =
        let clash : ◌≡◌ {A = Option T} none (some base) = sym only.0 ∙ h in absurd (cc)

    variadic_sources-Resolved :
        (consumed : ℕ → Bool) (e : Field T) (base : T) (elements : List (Field T × Source))
        (r : List ℕ × (ℕ → Bool))
        → e.vararg_base_ty ≡ some base
        → AllFit elements
        → CollectOk consumed r
        → IfSome (variadic_sources e elements r) (Resolved consumed ((e, unassigned) ∷ elements))
    variadic_sources-Resolved consumed e base elements (arguments, consumed') is fit ok = record {
      same_fields = refl;
      fit = ((base, is), fit);
      unnamed = ok.0;
      kept = λ k has. elim has [ inl here ↦ absurd (not_input k here) | inr later ↦ inr later ];
      used = λ k taken. elim (ok.1 k taken) [ inl o ↦ inl o | inr a ↦ inr (inr a) ];
      assigned =
          λ only. (tt, subst AllAssigned (sym (no_variadic_before e base elements is only)) tt);
    }
      where
        not_input : (k : ℕ) → unassigned ≡ input k → ⊥
        not_input k e = cc

    unassigned-input : {A : Type 0} (k : ℕ) → unassigned ≡ input k → A
    unassigned-input k e = absurd (cc)

    default-IfSome :
        (b : Bool) (m : Option (Sources T)) (P : Sources T → Type 0)
        → (b ≡ true → IfSome m P)
        → IfSome (default_or_error b m) P
    default-IfSome true m P h = h refl
    default-IfSome false m P h = tt

    resolve_plain-Resolved :
        (go : Resolve T) (e : Field T) (elements : List (Field T × Source))
        (next : ℕ × List (Field T)) (consumed : ℕ → Bool)
        → IsNext next
        → ((next : ℕ × List (Field T)) (consumed : ℕ → Bool)
            → IsNext next
            → IfSome (go next consumed) (Resolved consumed elements))
        → IfSome (resolve_plain go e next consumed) (Resolved consumed ((e, unassigned) ∷ elements))
    resolve_plain-Resolved go e elements (n, []) consumed is ok =
        default-IfSome e.has_init _ _ (λ has.
          cons_source-Resolved consumed consumed e unassigned default_value elements
            (go (n, []) consumed) has tt (λ k h. unassigned-input k h) (λ k h. inl h)
            (ok (n, []) consumed is))
    resolve_plain-Resolved go e elements (n, f ∷ fields) consumed is ok =
        let taken = consume consumed n in
        let rest = skip_to_next_unnamed taken n (f ∷ fields) in
        cons_source-Resolved consumed taken e unassigned (input n) elements (go rest taken)
          (f, At-head n f fields is.0, inr is.1) tt (λ k h. unassigned-input k h)
          (λ k h. elim (consume-true consumed n k h) [
            | inl o ↦ inl o
            | inr here ↦ inr (ap input (sym here))
          ])
          (ok rest taken (skip_to_next_unnamed-IsNext taken n (f ∷ fields) is.0))

    resolve_vararg-Resolved :
        (go : Resolve T) (e : Field T) (elements : List (Field T × Source)) (vararg : Option T)
        (next : ℕ × List (Field T)) (consumed : ℕ → Bool)
        → e.vararg_base_ty ≡ vararg
        → AllFit elements
        → IsNext next
        → ((next : ℕ × List (Field T)) (consumed : ℕ → Bool)
            → IsNext next
            → IfSome (go next consumed) (Resolved consumed elements))
        → IfSome
            (resolve_vararg go e elements vararg next consumed)
            (Resolved consumed ((e, unassigned) ∷ elements))
    resolve_vararg-Resolved go e elements (some base) next consumed h fit is ok =
        variadic_sources-Resolved consumed e base elements (collect consumed next.0 next.1) h fit
          (collect-CollectOk consumed next.0 next.1 is.0)
    resolve_vararg-Resolved go e elements none next consumed h fit is ok =
        resolve_plain-Resolved go e elements next consumed is ok

    resolve-Resolved :
        (elements : List (Field T × Source)) (next : ℕ × List (Field T)) (consumed : ℕ → Bool)
        → AllFit elements
        → IsNext next
        → IfSome (resolve elements next consumed) (Resolved consumed elements)
    unfolding resolve
    resolve-Resolved [] next consumed fit is = record {
      same_fields = refl;
      fit = tt;
      unnamed = tt;
      kept = λ k has. has;
      used = λ k taken. inl taken;
      assigned = λ only. tt;
    }
    resolve-Resolved ((e, unassigned) ∷ elements) next consumed fit is =
        resolve_vararg-Resolved (resolve elements) e elements e.vararg_base_ty next consumed refl
          fit.1 is (λ next' consumed' is'. resolve-Resolved elements next' consumed' fit.1 is')
    resolve-Resolved ((e, default_value) ∷ elements) next consumed fit is =
        cons_source-Resolved consumed consumed e default_value default_value elements
          (resolve elements next consumed) fit.0 tt (λ k h. h) (λ k h. inl h)
          (resolve-Resolved elements next consumed fit.1 is)
    resolve-Resolved ((e, variadic) ∷ elements) next consumed fit is =
        cons_source-Resolved consumed consumed e variadic variadic elements
          (resolve elements next consumed) fit.0 tt (λ k h. h) (λ k h. inl h)
          (resolve-Resolved elements next consumed fit.1 is)
    resolve-Resolved ((e, input j) ∷ elements) next consumed fit is =
        cons_source-Resolved consumed consumed e (input j) (input j) elements
          (resolve elements next consumed) fit.0 tt (λ k h. h) (λ k h. inl h)
          (resolve-Resolved elements next consumed fit.1 is)

    -- The first loop: a named input has the name of its element, and is consumed only if it is the
    -- source of an element.
    named_element_id-Fits :
        (e : Field T) (n : ℕ) (fields : List (Field T)) (k : ℕ)
        → At n fields
        → named_element_id e.name n fields ≡ some k
        → Fits e (input k)
    unfolding named_element_id
    named_element_id-Fits e n [] k h found =
        let clash : ◌≡◌ {A = Option ℕ} none (some k) = found in absurd (cc)
    named_element_id-Fits e n (f ∷ fields) k h found =
        this_case (f.name == e.name) (named_element_id e.name (n + 1) fields) refl found
          (named_element_id-Fits e (n + 1) fields k (At-tail n f fields h))
      where
        this_case :
            (b : Bool) (later : Option ℕ)
            → (f.name == e.name) ≡ b
            → this_or_later b n later ≡ some k
            → (later ≡ some k → Fits e (input k))
            → Fits e (input k)
        this_case true later same found next =
            let here : n ≡ k = cc in
            (
              f,
              subst (λ k. get_elem? fields1 k ≡ some f) here (At-head n f fields h),
              inl ((==_iff f.name e.name).0 same),
            )
        this_case false later other found next = next found

    found-Fits :
        (e : Field T) (found : Option ℕ) → find_named fields1 e ≡ found → Fits e (source_of found)
    found-Fits e none is = tt
    found-Fits e (some k) is =
        named_element_id-Fits e 0 fields1 k At-start (named_one (Bool-cases (e.name == 0)))
      where
        named_one :
            ((e.name == 0) ≡ true) ⊎ ((e.name == 0) ≡ false)
            → named_element_id e.name 0 fields1 ≡ some k
        named_one (inl empty) = absurd (ground arith)
        named_one (inr named) = ground arith

    record Named (consumed : ℕ → Bool) (fields : List (Field T))
        (r : List (Field T × Source) × (ℕ → Bool)) : Type 0 where
      same_fields : fields_of r.0 ≡ fields
      fit : AllFit r.0
      used : (k : ℕ) → r.1 k ≡ true → (consumed k ≡ true) ⊎ HasInput k r.0

    consume_found-true :
        (found : Option ℕ) (consumed : ℕ → Bool) (k : ℕ)
        → consume_found found consumed k ≡ true
        → (consumed k ≡ true) ⊎ (source_of found ≡ input k)
    consume_found-true none consumed k h = inl h
    consume_found-true (some j) consumed k h = elim (consume-true consumed j k h) [
      | inl o ↦ inl o
      | inr here ↦ inr (ap input (sym here))
    ]

    Named-∷ :
        (e : Field T) (found : Option ℕ) (fields : List (Field T)) (consumed : ℕ → Bool)
        (r : List (Field T × Source) × (ℕ → Bool))
        → Fits e (source_of found)
        → Named (consume_found found consumed) fields r
        → Named consumed (e ∷ fields) ((e, source_of found) ∷ r.0, r.1)
    Named-∷ e found fields consumed r fits h = record {
      same_fields = ap (◌∷◌ e) h.same_fields;
      fit = (fits, h.fit);
      used = λ k taken. elim (h.used k taken) [
        | inl before ↦ elim (consume_found-true found consumed k before) [
          | inl o ↦ inl o
          | inr here ↦ inr (inl here)
        ]
        | inr later ↦ inr (inr later)
      ];
    }

    match_named-Named :
        (fields2 : List (Field T)) (consumed : ℕ → Bool)
        → Named consumed fields2 (match_named fields1 fields2 consumed)
    unfolding match_named
    match_named-Named [] consumed = record { same_fields = refl; fit = tt; used = λ k h. inl h }
    match_named-Named (e ∷ fields2) consumed =
        Named-∷ e (find_named fields1 e) fields2 consumed
          (match_named fields1 fields2 (consume_found (find_named fields1 e) consumed))
          (found-Fits e (find_named fields1 e) refl)
          (match_named-Named fields2 (consume_found (find_named fields1 e) consumed))

    -- What a conversion's shuffle is.
    pub record Shuffle (fields2 : List (Field T)) (r : Sources T) : Type 0 where
      pub same_fields : fields_of r.elements ≡ fields2
      pub fit : AllFit r.elements
      pub unnamed : AllUnnamed r.variadic_arguments
      pub used :
          (k : ℕ) → k < length fields1 → HasInput k r.elements ⊎ IsArgument k r.variadic_arguments
      pub assigned : OnlyLastVariadic fields2 → AllAssigned r.elements

    all_consumed-lt :
        (consumed : ℕ → Bool) (n k : ℕ) → all_consumed consumed n ≡ true → k < n → consumed k ≡ true
    unfolding all_consumed
    all_consumed-lt consumed zero k h lt = absurd (omega arith)
    all_consumed-lt consumed (suc n) k h lt = elim (Bool-cases (k == n)) [
      | inl same ↦
          let here : k ≡ n = (==_iff k n).0 same in
          subst (λ m. consumed m ≡ true) (sym here) (ground arith)
      | inr other ↦ all_consumed-lt consumed n k (ground arith) (ground arith)
    ]

    check_consumed-Shuffle :
        (fields2 : List (Field T)) (named : List (Field T × Source) × (ℕ → Bool))
        (m : Option (Sources T))
        → Named (λ n. false) fields2 named
        → IfSome m (Resolved named.1 named.0)
        → IfSome (check_consumed (length fields1) m) (Shuffle fields2)
    check_consumed-Shuffle fields2 named none first second = tt
    check_consumed-Shuffle fields2 named (some r) first second =
        checked (all_consumed r.consumed (length fields1)) refl
      where
        input_of :
            (k : ℕ)
            → r.consumed k ≡ true
            → HasInput k r.elements ⊎ IsArgument k r.variadic_arguments
        input_of k taken = elim (second.used k taken) [
          | inl before ↦ elim (first.used k before) [
            | inl never ↦ absurd (cc)
            | inr has ↦ inl (second.kept k has)
          ]
          | inr by_second ↦ by_second
        ]

        checked :
            (b : Bool)
            → all_consumed r.consumed (length fields1) ≡ b
            → IfSome (if b then some r else none) (Shuffle fields2)
        checked false h = tt
        checked true h = record {
          same_fields = second.same_fields ∙ first.same_fields;
          fit = second.fit;
          unnamed = second.unnamed;
          used = λ k lt. input_of k (all_consumed-lt r.consumed (length fields1) k h lt);
          assigned = λ only. second.assigned (subst OnlyLastVariadic (sym first.same_fields) only);
        }

    pub element_sources_shuffled :
        (fields2 : List (Field T)) → IfSome (element_sources fields1 fields2) (Shuffle fields2)
    unfolding element_sources
    element_sources_shuffled fields2 =
        let named = match_named fields1 fields2 (λ n. false) in
        let first = match_named-Named fields2 (λ n. false) in
        check_consumed-Shuffle fields2 named
          (resolve named.0 (skip_to_next_unnamed named.1 0 fields1) named.1) first
          (resolve-Resolved named.0 (skip_to_next_unnamed named.1 0 fields1) named.1 first.fit
            (skip_to_next_unnamed-IsNext named.1 0 fields1 At-start))

    -- If only the last element of the target tuple may be variadic, and the elements of a tuple can
    -- be converted to the target's, then each element of the target is assigned a source, and it
    -- fits: an input with its name or without one, its default value, or, if it is variadic, the
    -- arguments, which are inputs without names; and every input is the source of an element or an
    -- argument.
    pub element_sources-Shuffle :
        (fields2 : List (Field T))
        → OnlyLastVariadic fields2
        → IfSome (element_sources fields1 fields2) (λ r. Shuffle fields2 r × AllAssigned r.elements)
    element_sources-Shuffle fields2 only =
        with_assigned (element_sources fields1 fields2) (element_sources_shuffled fields2)
      where
        with_assigned :
            (m : Option (Sources T))
            → IfSome m (Shuffle fields2)
            → IfSome m (λ r. Shuffle fields2 r × AllAssigned r.elements)
        with_assigned none h = tt
        with_assigned (some r) h = (h, h.assigned only)
