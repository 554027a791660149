-- ===== src/Runtime/Metadata/Unique.antt =====
-- The metadata of a type is unique (the caches of runtime/Metadata.cpp).
use b1c3995fdcf53d46308da.Base.{
  ℕ, zero, suc, ◌+◌, ◌*◌, ◌==◌, ◌≡◌, ◌≢◌, ◌↔◌, refl, sym, ap, ◌∙◌, subst, inl, inr, ◌⊎◌, Bool, true,
  false, Option, none, some, List, [], ◌∷◌, length, get_elem?, arith,
}
use b1c3995fdcf53d46308da.Runtime.Metadata.{
  Entry, same_pointers, matches, matches_heterogeneous, find, OperatorNew, this_or_next,
  found_or_new, find_or_instantiate,
}

same_pointers-eq :
    (stored arguments : List ℕ)
    → length stored ≡ length arguments
    → same_pointers (length arguments) stored arguments ≡ true
    → stored ≡ arguments
same_pointers-eq [] [] same h = refl
same_pointers-eq [] (b ∷ arguments) same h = absurd (omega arith)
same_pointers-eq (a ∷ stored) [] same h = absurd (omega arith)
same_pointers-eq (a ∷ stored) (b ∷ arguments) same h =
    let first : a ≡ b = ground arith in
    let rest = same_pointers-eq stored arguments (omega arith) (ground arith) in cc

same_pointers_refl :
    (arguments : List ℕ) → same_pointers (length arguments) arguments arguments ≡ true
same_pointers_refl [] = refl
same_pointers_refl (a ∷ arguments) =
    let same : (a == a) ≡ true = ground arith in rw same (same_pointers_refl arguments)

-- Requests one after the other.
abbrev pub request_all :
    {A H R : Type 0}
    → (R → List (Entry A) × H → Entry A × (List (Entry A) × H))
    → List R
    → List (Entry A) × H
    → List (Entry A) × (List (Entry A) × H)
request_all request [] s = ([], s)
request_all request (r ∷ requests) s =
    let first = request r s in
    let rest = request_all request requests first.1 in (first.0 ∷ rest.0, rest.1)

module _ {A : Type 0} where
  -- On keys of one length the entries match exactly the arguments that they hold.
  pub matches_iff :
      (entry : Entry A) (arguments : List ℕ)
      → length entry.arguments ≡ length arguments
      → (matches entry arguments ≡ true) ↔ (entry.arguments ≡ arguments)
  matches_iff entry arguments same = (
    λ h. same_pointers-eq entry.arguments arguments same h,
    λ e. rw e (same_pointers_refl arguments),
  )

  pub matches_heterogeneous_iff :
      (entry : Entry A) (arguments : List ℕ)
      → (matches_heterogeneous entry arguments ≡ true) ↔ (entry.arguments ≡ arguments)
  matches_heterogeneous_iff entry arguments = (
    λ h.
        let same : length entry.arguments ≡ length arguments = ground arith in
        same_pointers-eq entry.arguments arguments same (ground arith),
    λ e.
        let same : (length arguments == length arguments) ≡ true = ground arith in
        rw e (rw same (same_pointers_refl arguments)),
  )

  abbrev pub IsIn : Entry A → List (Entry A) → Type 0
  IsIn e [] = ⊥
  IsIn e (x ∷ cache) = (e ≡ x) ⊎ IsIn e cache

  -- The entry differs from all those of the cache in its key and its address.
  abbrev Differs : Entry A → List (Entry A) → Type 0
  Differs e cache =
      (x : Entry A) → IsIn x cache → (x.arguments ≢ e.arguments) × (x.address ≢ e.address)

  -- All entries have keys and addresses of their own, the addresses satisfy `Live`.
  abbrev pub AreUnique : (List ℕ → Type 0) → (ℕ → Type 0) → List (Entry A) → Type 0
  AreUnique IsKey Live [] = Unit {0}
  AreUnique IsKey Live (e ∷ cache) =
      IsKey e.arguments × Live e.address × Differs e cache × AreUnique IsKey Live cache

  -- The keys are told apart by `match`.
  module _ (match : Entry A → List ℕ → Bool) (IsKey : List ℕ → Type 0)
      (exact : (entry : Entry A) (arguments : List ℕ)
        → IsKey entry.arguments
        → IsKey arguments
        → (match entry arguments ≡ true) ↔ (entry.arguments ≡ arguments)) where
    find-IsIn :
        (Live : ℕ → Type 0) (cache : List (Entry A)) (arguments : List ℕ) (e : Entry A)
        → AreUnique IsKey Live cache
        → IsKey arguments
        → find match cache arguments ≡ some e
        → IsIn e cache × (e.arguments ≡ arguments)
    unfolding find
    find-IsIn Live [] arguments e unique key h =
        let clash : ◌≡◌ {A = Option (Entry A)} none (some e) = h in absurd (cc)
    find-IsIn Live (x ∷ cache) arguments e unique key h =
        this_case (match x arguments) (find match cache arguments) refl
          (find-IsIn Live cache arguments e unique.3 key) h
      where
        this_case :
            (b : Bool) (next : Option (Entry A))
            → match x arguments ≡ b
            → (next ≡ some e → IsIn e cache × (e.arguments ≡ arguments))
            → this_or_next b x next ≡ some e
            → IsIn e (x ∷ cache) × (e.arguments ≡ arguments)
        this_case true next m later h =
            let here : x ≡ e = cc in
            (
              inl (sym here),
              subst (λ e. e.arguments ≡ arguments) here ((exact x arguments unique.0 key).0 m),
            )
        this_case false next m later h = let found = later h in (inr found.0, found.1)

    -- What is not found has a key of its own.
    find-none :
        (Live : ℕ → Type 0) (cache : List (Entry A)) (arguments : List ℕ)
        → AreUnique IsKey Live cache
        → IsKey arguments
        → find match cache arguments ≡ none
        → (x : Entry A) → IsIn x cache
        → x.arguments ≢ arguments
    unfolding find
    find-none Live [] arguments unique key h x within = absurd within
    find-none Live (y ∷ cache) arguments unique key h x within =
        this_case (match y arguments) (find match cache arguments) refl
          (find-none Live cache arguments unique.3 key) h within
      where
        this_case :
            (b : Bool) (next : Option (Entry A))
            → match y arguments ≡ b
            → (next ≡ none → (x : Entry A) → IsIn x cache → x.arguments ≢ arguments)
            → this_or_next b y next ≡ none
            → IsIn x (y ∷ cache)
            → x.arguments ≢ arguments
        this_case true next m later h within =
            let clash : ◌≡◌ {A = Option (Entry A)} (some y) none = h in absurd (cc)
        this_case false next m later h (inl here) = λ same.
            let hit : match y arguments ≡ true =
              (exact y arguments unique.0 key).1 (subst (λ x. x.arguments ≡ arguments) here same) in
            let clash : true ≡ false = sym hit ∙ m in absurd (cc)
        this_case false next m later h (inr rest) = later h x rest

    -- Entries of one cache with the same key, or the same address, are the same.
    same_key :
        (Live : ℕ → Type 0) (cache : List (Entry A)) (x y : Entry A)
        → AreUnique IsKey Live cache
        → IsIn x cache
        → IsIn y cache
        → (x.arguments ≡ y.arguments) ⊎ (x.address ≡ y.address)
        → x ≡ y
    same_key Live [] x y unique within within' same = absurd within
    same_key Live (z ∷ cache) x y unique (inl e) (inl e') same = e ∙ sym e'
    same_key Live (z ∷ cache) x y unique (inl e) (inr later) same =
        absurd (differs (unique.2 y later))
      where
        differs : (y.arguments ≢ z.arguments) × (y.address ≢ z.address) → ⊥
        differs (keys, addresses) = elim same [
          | inl k ↦ keys (sym k ∙ ap (λ e. e.arguments) e)
          | inr a ↦ addresses (sym a ∙ ap (λ e. e.address) e)
        ]
    same_key Live (z ∷ cache) x y unique (inr later) (inl e) same =
        absurd (differs (unique.2 x later))
      where
        differs : (x.arguments ≢ z.arguments) × (x.address ≢ z.address) → ⊥
        differs (keys, addresses) = elim same [
          | inl k ↦ keys (k ∙ ap (λ e. e.arguments) e)
          | inr a ↦ addresses (a ∙ ap (λ e. e.address) e)
        ]
    same_key Live (z ∷ cache) x y unique (inr later) (inr later') same =
        same_key Live cache x y unique.3 later later' same

    live_in :
        (Live : ℕ → Type 0) (cache : List (Entry A)) (x : Entry A)
        → AreUnique IsKey Live cache
        → IsIn x cache
        → Live x.address
    live_in Live [] x unique within = absurd within
    live_in Live (z ∷ cache) x unique (inl e) = subst (λ x. Live x.address) (sym e) unique.1
    live_in Live (z ∷ cache) x unique (inr later) = live_in Live cache x unique.3 later

    still_unique :
        (Live Live' : ℕ → Type 0) (cache : List (Entry A))
        → ((a : ℕ) → Live a → Live' a)
        → AreUnique IsKey Live cache
        → AreUnique IsKey Live' cache
    still_unique Live Live' [] grows unique = tt
    still_unique Live Live' (z ∷ cache) grows unique =
        (unique.0, grows z.address unique.1, unique.2, still_unique Live Live' cache grows unique.3)

    -- An allocator: what it gives is in use from then on, and was not before.
    module _ {H : Type 0} (operator_new : OperatorNew H) (Live : H → ℕ → Type 0)
        (fresh : (n : ℕ) (h : H) → Live h (operator_new n h).0 → ⊥)
        (live : (n : ℕ) (h : H) → Live (operator_new n h).1 (operator_new n h).0)
        (kept : (n : ℕ) (h : H) (a : ℕ) → Live h a → Live (operator_new n h).1 a) where
      -- The outcome of a request for the arguments.
      pub record Fetched (arguments : List ℕ) (s : List (Entry A) × H)
          (r : Entry A × (List (Entry A) × H)) : Type 0 where
        pub unique : AreUnique IsKey (Live r.1.1) r.1.0
        pub within : IsIn r.0 r.1.0
        pub key : r.0.arguments ≡ arguments
        pub stays : (x : Entry A) → IsIn x s.0 → IsIn x r.1.0

      found_or_new-Fetched :
          (header_size payload_size : ℕ) (payload : A) (arguments : List ℕ)
          (found : Option (Entry A)) (cache : List (Entry A)) (heap : H)
          → find match cache arguments ≡ found
          → IsKey arguments
          → AreUnique IsKey (Live heap) cache
          → Fetched arguments
              (cache, heap)
              (found_or_new operator_new header_size payload_size payload arguments found
                (cache, heap))
      found_or_new-Fetched header_size payload_size payload arguments (some e) cache heap h key
            unique =
          let is = find-IsIn (Live heap) cache arguments e unique key h in
          record { unique = unique; within = is.0; key = is.1; stays = λ x within. within }
      found_or_new-Fetched header_size payload_size payload arguments none cache heap h key unique =
          let size = header_size + length arguments * 8 + payload_size in
          record {
            unique = (
              key,
              live size heap,
              λ x within. (
                find-none (Live heap) cache arguments unique key h x within,
                λ same.
                    fresh size heap
                      (subst (Live heap) same (live_in (Live heap) cache x unique within)),
              ),
              still_unique (Live heap) (Live (operator_new size heap).1) cache (kept size heap)
                  unique,
            );
            within = inl refl;
            key = refl;
            stays = λ x within. inr within;
          }

      pub find_or_instantiate-Fetched :
          (header_size payload_size : ℕ) (payload : A) (arguments : List ℕ) (cache : List (Entry A))
          (heap : H)
          → IsKey arguments
          → AreUnique IsKey (Live heap) cache
          → Fetched arguments
              (cache, heap)
              (find_or_instantiate operator_new match header_size payload_size payload arguments
                (cache, heap))
      unfolding find_or_instantiate
      find_or_instantiate-Fetched header_size payload_size payload arguments cache heap key unique =
          found_or_new-Fetched header_size payload_size payload arguments
            (find match cache arguments) cache heap refl key unique

      -- Requests one after the other.
      module _ {R : Type 0} (arguments_of : R → List ℕ)
          (request : R → List (Entry A) × H → Entry A × (List (Entry A) × H))
          (fetches : (r : R) (s : List (Entry A) × H)
            → AreUnique IsKey (Live s.1) s.0
            → Fetched (arguments_of r) s (request r s)) where
        -- All results are in the cache at the end, each with the key that was asked for.
        record AllFetched (requests : List R) (s : List (Entry A) × H)
            (r : List (Entry A) × (List (Entry A) × H)) : Type 0 where
          unique : AreUnique IsKey (Live r.1.1) r.1.0
          stays : (x : Entry A) → IsIn x s.0 → IsIn x r.1.0
          results :
              (i : ℕ) (q : R) (x : Entry A)
              → get_elem? requests i ≡ some q
              → get_elem? r.0 i ≡ some x
              → IsIn x r.1.0 × (x.arguments ≡ arguments_of q)

        first_result :
            (q : R) (requests : List R) (s : List (Entry A) × H)
            (first : Entry A × (List (Entry A) × H)) (rest : List (Entry A) × (List (Entry A) × H))
            → Fetched (arguments_of q) s first
            → AllFetched requests first.1 rest
            → (i : ℕ) (p : R) (x : Entry A) → get_elem? (q ∷ requests) i ≡ some p
            → get_elem? (first.0 ∷ rest.0) i ≡ some x
            → IsIn x rest.1.0 × (x.arguments ≡ arguments_of p)
        first_result q requests s first rest h k zero p x at at' =
            let here : first.0 ≡ x = cc in
            let asked : q ≡ p = cc in
            (
              subst (λ x. IsIn x rest.1.0) here (k.stays first.0 h.within),
              ap (λ e. e.arguments) (sym here) ∙ h.key ∙ ap arguments_of asked,
            )
        first_result q requests s first rest h k (suc i) p x at at' = k.results i p x at at'

        request_all-AllFetched :
            (requests : List R) (s : List (Entry A) × H)
            → AreUnique IsKey (Live s.1) s.0
            → AllFetched requests s (request_all request requests s)
        request_all-AllFetched [] s unique = record {
          unique = unique;
          stays = λ x within. within;
          results =
              λ i q x at at'. let clash : ◌≡◌ {A = Option R} none (some q) = at in absurd (cc);
        }
        request_all-AllFetched (q ∷ requests) s unique =
            let h = fetches q s unique in
            let k = request_all-AllFetched requests (request q s).1 h.unique in
            record {
              unique = k.unique;
              stays = λ x within. k.stays x (h.stays x within);
              results =
                  first_result q requests s (request q s)
                    (request_all request requests (request q s).1) h k;
            }

        pub request_all_unique :
            (requests : List R) (s : List (Entry A) × H)
            → AreUnique IsKey (Live s.1) s.0
            → (i j : ℕ) (q p : R) (x y : Entry A) → get_elem? requests i ≡ some q
            → get_elem? requests j ≡ some p
            → get_elem? (request_all request requests s).0 i ≡ some x
            → get_elem? (request_all request requests s).0 j ≡ some y
            → (arguments_of q ≡ arguments_of p) ↔ (x.address ≡ y.address)
        request_all_unique requests s unique i j q p x y at_q at_p at_x at_y =
            let all = request_all-AllFetched requests s unique in
            let first = all.results i q x at_q at_x in
            let second = all.results j p y at_p at_y in
            let final = request_all request requests s in
            (
              λ same.
                  ap (λ e. e.address)
                    (same_key (Live final.1.1) final.1.0 x y all.unique first.0 second.0
                      (inl (first.1 ∙ same ∙ sym second.1))),
              λ same.
                  sym first.1
                  ∙ ap (λ e. e.arguments)
                      (same_key (Live final.1.1) final.1.0 x y all.unique first.0 second.0
                        (inr same))
                  ∙ second.1,
            )
