-- ===== src/Runtime/Metadata/Types.antt =====
-- The metadata of function types and tuple types (runtime/Metadata.cpp).
use b1c3995fdcf53d46308da.Base.{
  ℕ, ◌+◌, ◌*◌, ◌≡◌, ◌↔◌, refl, sym, ap, ◌∙◌, Bool, true, Option, none, some, List, [], ◌∷◌, length,
  get_elem?,
}
use b1c3995fdcf53d46308da.Runtime.Metadata.{
  Entry, matches, matches_heterogeneous, find, OperatorNew, find_or_instantiate, found_or_new,
  instantiate, FunctionTypeMetadata, get_function_type_metadata, ValueWitnessTable, TupleTypeData,
  tuple_type_data, get_tuple_type_metadata, found_tuple,
}
use b1c3995fdcf53d46308da.Runtime.Metadata.Unique.{
  matches_iff, matches_heterogeneous_iff, AreUnique, Fetched, find_or_instantiate-Fetched,
  request_all, request_all_unique,
}

-- The keys of function types: two pointers.
abbrev pub IsPair : List ℕ → Type 0
IsPair arguments = length arguments ≡ 2

pair_arguments : (q p : ℕ × ℕ) → q.0 ∷ q.1 ∷ [] ≡ p.0 ∷ p.1 ∷ [] → q ≡ p
pair_arguments (a, b) (c, d) e = let first : a ≡ c = cc in let second : b ≡ d = cc in cc

exact_pairs :
    {A : Type 0} (entry : Entry A) (arguments : List ℕ)
    → IsPair entry.arguments
    → IsPair arguments
    → (matches entry arguments ≡ true) ↔ (entry.arguments ≡ arguments)
exact_pairs entry arguments h k = matches_iff entry arguments (h ∙ sym k)

module _ {H : Type 0} (operator_new : OperatorNew H) (Live : H → ℕ → Type 0)
    (fresh : (n : ℕ) (h : H) → Live h (operator_new n h).0 → ⊥)
    (live : (n : ℕ) (h : H) → Live (operator_new n h).1 (operator_new n h).0)
    (kept : (n : ℕ) (h : H) (a : ℕ) → Live h a → Live (operator_new n h).1 a) where
  abbrev pub function_type :
      ℕ × ℕ
      → List (Entry FunctionTypeMetadata) × H
      → Entry FunctionTypeMetadata × (List (Entry FunctionTypeMetadata) × H)
  function_type q s = get_function_type_metadata operator_new q.0 q.1 s

  function_type-Fetched :
      (q : ℕ × ℕ) (s : List (Entry FunctionTypeMetadata) × H)
      → AreUnique IsPair (Live s.1) s.0
      → Fetched matches IsPair exact_pairs operator_new Live fresh live kept
          (q.0 ∷ q.1 ∷ [])
          s
          (function_type q s)
  unfolding get_function_type_metadata
  function_type-Fetched q s unique =
      find_or_instantiate-Fetched matches IsPair exact_pairs operator_new Live fresh live kept 8 32
        _ (q.0 ∷ q.1 ∷ []) s.0 s.1 refl unique

  -- The metadata of a function type is unique: of any requests, two get the same metadata exactly
  -- if they ask for the same argument type and the same result type.
  pub function_types_unique :
      (requests : List (ℕ × ℕ)) (s : List (Entry FunctionTypeMetadata) × H)
      → AreUnique IsPair (Live s.1) s.0
      → (i j : ℕ) (q p : ℕ × ℕ) (x y : Entry FunctionTypeMetadata) → get_elem? requests i ≡ some q
      → get_elem? requests j ≡ some p
      → get_elem? (request_all function_type requests s).0 i ≡ some x
      → get_elem? (request_all function_type requests s).0 j ≡ some y
      → (q ≡ p) ↔ (x.address ≡ y.address)
  function_types_unique requests s unique i j q p x y at_q at_p at_x at_y =
      let iff =
        request_all_unique matches IsPair exact_pairs operator_new Live fresh live kept
          (λ q. q.0 ∷ q.1 ∷ []) function_type function_type-Fetched requests s unique i j q p x y
          at_q at_p at_x at_y in
      (λ same. iff.0 (ap (λ q. q.0 ∷ q.1 ∷ []) same), λ same. pair_arguments q p (iff.1 same))

-- A key that matches itself is found again, whatever the payload would be now.
find_or_instantiate_again :
    {H A : Type 0} (operator_new : OperatorNew H) (match : Entry A → List ℕ → Bool)
    (header payload_size payload_size' : ℕ) (payload payload' : A) (arguments : List ℕ)
    (s : List (Entry A) × H)
    → ((e : Entry A) → e.arguments ≡ arguments → match e arguments ≡ true)
    → find_or_instantiate operator_new match header payload_size' payload' arguments
        (find_or_instantiate operator_new match header payload_size payload arguments s).1
      ≡ find_or_instantiate operator_new match header payload_size payload arguments s
unfolding find_or_instantiate find
find_or_instantiate_again {A = A} operator_new match header payload_size payload_size' payload
      payload' arguments s hit =
    by_found (find match s.0 arguments) refl
  where
    by_found :
        (found : Option (Entry A))
        → find match s.0 arguments ≡ found
        → find_or_instantiate operator_new match header payload_size' payload' arguments
            (found_or_new operator_new header payload_size payload arguments found s).1
          ≡ found_or_new operator_new header payload_size payload arguments found s
    by_found (some e) h = rw h refl
    by_found none h =
        let new = instantiate operator_new header payload_size payload arguments s in
        rw (hit new.0 refl) refl

-- The labels of a tuple are no part of its key: once the metadata of some element types has been
-- asked for, it is given again for the same element types whatever the labels and the proposed
-- witnesses are, and nothing changes.
pub get_tuple_type_metadata_again :
    {H : Type 0} (operator_new : OperatorNew H) (round_up : ℕ → ℕ → ℕ)
    (witnesses_of : ℕ → ValueWitnessTable) (elements : List ℕ)
    (labels labels' functions functions' : ℕ) (s : List (Entry TupleTypeData) × H)
    → get_tuple_type_metadata round_up witnesses_of operator_new elements labels' functions'
        (get_tuple_type_metadata round_up witnesses_of operator_new elements labels functions s).1
      ≡ get_tuple_type_metadata round_up witnesses_of operator_new elements labels functions s
unfolding get_tuple_type_metadata
get_tuple_type_metadata_again operator_new round_up witnesses_of [] labels labels' functions
      functions' s =
    refl
get_tuple_type_metadata_again operator_new round_up witnesses_of (elt ∷ elements) labels labels'
      functions functions' s =
    ap (found_tuple round_up witnesses_of) (
      find_or_instantiate_again operator_new matches_heterogeneous 16
        (152 + 16 * length (elt ∷ elements)) (152 + 16 * length (elt ∷ elements))
        (tuple_type_data round_up witnesses_of (elt ∷ elements) labels functions)
        (tuple_type_data round_up witnesses_of (elt ∷ elements) labels' functions') (elt ∷ elements)
        s (λ e same. (matches_heterogeneous_iff e (elt ∷ elements)).1 same))
