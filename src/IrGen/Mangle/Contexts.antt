-- ===== src/IrGen/Mangle/Contexts.antt =====
-- How contexts and nominal types read that lib/IRGen/Mangle.cpp mangles.
use b1c3995fdcf53d46308da.Base.{
  ℕ, zero, suc, ◌≤◌, ◌≡◌, refl, sym, ap, subst, true, if◌then◌else◌, Option, none, some, [], ◌∷◌,
  ◌++◌, get_elem?, ◌>>=◌, Bytes, arith, Returns, Returns-weaken, inl, inr, Bool-cases,
}
use mathlib.Core.List.{append_assoc}
use b1c3995fdcf53d46308da.Parse.Chars.{is_digit}
use b1c3995fdcf53d46308da.IrGen.Mangle.{
  NominalKind, protocol_decl, class_decl, oneof_decl, struct_decl, get_specifier_for_nominal_type,
  Context, builtin_module, top_module, sub_module, nominal_decl, extension_decl, local_context,
  swift_name, is_swift_module, Mangler, Mangled, index_of, add_substitution, standard_letter,
  try_mangle_standard_substitution, adding, after, mangle_index, mangle_identifier,
  try_mangle_substitution, with_name, nominal_in, module_in, mangle_decl_context,
  mangle_nominal_type,
}
use b1c3995fdcf53d46308da.IrGen.Mangle.Reader.{
  read_index, read_identifier, standard, Lead, substitution_lead, digit_lead, kind_lead, lead_of,
  read_substitution, read_module, read_name, read_context,
}
use b1c3995fdcf53d46308da.IrGen.Mangle.Words.{
  IsDecimal, IsName, StartsWithDigit, StartsWithDigit-append, read_index-mangle_index,
  mangle_identifier-reads,
}
use b1c3995fdcf53d46308da.IrGen.Mangle.Keys.{
  same_bytes-≡, IsAt, index_of-IsAt, StandsFor, standard_letter-StandsFor, Each,
  found_or_mangle-Returns,
}

-- Contexts that the reader gives back. The types that the mangling takes for standard ones are
-- structures in the standard library.
abbrev pub IsPlainNominal : NominalKind → Context → Bytes → Type 0
IsPlainNominal kind parent name =
    IsName name × Each (λ out. kind ≡ struct_decl) (try_mangle_standard_substitution parent name)

abbrev pub IsPlainContext : Context → Type 0
IsPlainContext builtin_module = ⊥
IsPlainContext (top_module name) = IsName name
IsPlainContext (sub_module parent name) = ⊥
IsPlainContext (nominal_decl kind parent name) =
    IsPlainNominal kind parent name × IsPlainContext parent
IsPlainContext (extension_decl kind parent name) = ⊥
IsPlainContext (local_context i) = ⊥

abbrev pub context_size : Context → ℕ
context_size builtin_module = 1
context_size (top_module name) = 1
context_size (sub_module parent name) = suc (context_size parent)
context_size (nominal_decl kind parent name) = suc (context_size parent)
context_size (extension_decl kind parent name) = suc (context_size parent)
context_size (local_context i) = 1

-- The characters that a nominal type begins with.
abbrev pub IsNominalLead : Lead → Type 0
IsNominalLead substitution_lead = Unit {0}
IsNominalLead (kind_lead kind) = Unit {0}
IsNominalLead lead = ⊥

abbrev pub LeadsNominal : Bytes → Type 0
LeadsNominal [] = ⊥
LeadsNominal (c ∷ s) = IsNominalLead (lead_of c)

abbrev pub Reads : ℕ → Mangler → Context → Bytes × Mangler → Type 0
Reads fuel m c (out, m') = (rest : Bytes) → read_context fuel m (out ++ rest) ≡ some (c, (m', rest))

abbrev pub NominalReads : ℕ → Mangler → Context → Bytes × Mangler → Type 0
NominalReads fuel m c o = LeadsNominal o.0 × Reads fuel m c o

S_leads : LeadsNominal (b'S' ∷ [])
unfolding lead_of
S_leads = tt

swift_is : (c : Context) → is_swift_module c ≡ true → c ≡ top_module swift_name
swift_is builtin_module is = absurd (ground arith)
swift_is (top_module name) is = ap top_module (same_bytes-≡ name swift_name is)
swift_is (sub_module c n) is = absurd (ground arith)
swift_is (nominal_decl k c n) is = absurd (ground arith)
swift_is (extension_decl k c n) is = absurd (ground arith)
swift_is (local_context i) is = absurd (ground arith)

-- A standard type reads as what it stands for.
read_letter :
    (fuel : ℕ) (m : Mangler) (name : Bytes) (o : Option ℕ)
    → StandsFor name o
    → Each
        (λ out.
          NominalReads
            (suc fuel)
            m
            (nominal_decl struct_decl (top_module swift_name) name)
            (out, m))
        (o >>= λ c. some (b'S' ∷ c ∷ []))
unfolding read_context lead_of
read_letter fuel m name none stands = tt
read_letter fuel m name (some c) stands = (tt, λ rest. rw stands refl)

standard-reads :
    (fuel : ℕ) (m : Mangler) (kind : NominalKind) (parent : Context) (name : Bytes)
    → Each (λ out. kind ≡ struct_decl) (try_mangle_standard_substitution parent name)
    → Each
        (λ out. NominalReads (suc fuel) m (nominal_decl kind parent name) (out, m))
        (try_mangle_standard_substitution parent name)
unfolding try_mangle_standard_substitution
standard-reads fuel m kind parent name fits = elim (Bool-cases (is_swift_module parent)) [
  | inl is ↦
      let read = read_letter fuel m name (standard_letter name) (standard_letter-StandsFor name) in
      rw is (
        of_kind (standard_letter name)
          (subst
            (λ b.
              Each (λ out. kind ≡ struct_decl)
                (if b then (standard_letter name >>= λ c. some (b'S' ∷ c ∷ [])) else none))
            is fits)
          (subst
            (λ c.
              Each (λ out. NominalReads (suc fuel) m (nominal_decl struct_decl c name) (out, m))
                (standard_letter name >>= λ c. some (b'S' ∷ c ∷ [])))
            (sym (swift_is parent is)) read))
  | inr other ↦ rw other tt
]
  where
    of_kind :
        (o : Option ℕ)
        → Each (λ out. kind ≡ struct_decl) (o >>= λ c. some (b'S' ∷ c ∷ []))
        → Each
            (λ out. NominalReads (suc fuel) m (nominal_decl struct_decl parent name) (out, m))
            (o >>= λ c. some (b'S' ∷ c ∷ []))
        → Each
            (λ out. NominalReads (suc fuel) m (nominal_decl kind parent name) (out, m))
            (o >>= λ c. some (b'S' ∷ c ∷ []))
    of_kind none kinds read = tt
    of_kind (some c) kinds read =
        subst (λ k. NominalReads (suc fuel) m (nominal_decl k parent name) (b'S' ∷ c ∷ [], m))
          (sym kinds) read

-- A substitution is told from a standard type by its first character.
abbrev StartsIndex : Bytes → Type 0
StartsIndex [] = ⊥
StartsIndex (c ∷ s) = standard c ≡ none

digit-standard : (c : ℕ) → is_digit c ≡ true → standard c ≡ none
unfolding is_digit
digit-standard c is = ground arith

StartsWithDigit-StartsIndex : (s : Bytes) → StartsWithDigit s → StartsIndex s
StartsWithDigit-StartsIndex [] starts = absurd starts
StartsWithDigit-StartsIndex (c ∷ s) starts = digit-standard c starts

read_substitution-index :
    (m : Mangler) (s rest : Bytes) (i : ℕ) (c : Context)
    → StartsIndex s
    → read_index s ≡ some (i, rest)
    → get_elem? m.substitutions i ≡ some c
    → read_substitution m s ≡ some (c, (m, rest))
read_substitution-index m [] rest i c starts index at = absurd starts
read_substitution-index m (d ∷ s) rest i c starts index at = rw starts (rw index (rw at refl))

lead-specifier :
    (kind : NominalKind) → lead_of (get_specifier_for_nominal_type kind) ≡ kind_lead kind
unfolding lead_of
lead-specifier protocol_decl = refl
lead-specifier class_decl = refl
lead-specifier oneof_decl = refl
lead-specifier struct_decl = refl

specifier-leads :
    (kind : NominalKind) → IsNominalLead (lead_of (get_specifier_for_nominal_type kind))
specifier-leads kind = rw (lead-specifier kind) tt

StartsWithDigit-prefix : (s rest : Bytes) → StartsWithDigit s → StartsWithDigit (s ++ rest)
StartsWithDigit-prefix [] rest starts = absurd starts
StartsWithDigit-prefix (c ∷ s) rest starts = starts

pub lead-digit : (c : ℕ) → is_digit c ≡ true → lead_of c ≡ digit_lead
unfolding lead_of is_digit
lead-digit c is = ground arith

read_context-module :
    (fuel : ℕ) (m : Mangler) (name s rest : Bytes)
    → StartsWithDigit s
    → read_identifier s ≡ some (name, rest)
    → read_context (suc fuel) m s
      ≡ some (top_module name, (add_substitution (top_module name) m, rest))
unfolding read_context read_module
read_context-module fuel m name [] rest starts reads = absurd starts
read_context-module fuel m name (c ∷ s) rest starts reads = rw (lead-digit c starts) (rw reads refl)

read_swift :
    (fuel : ℕ) (m : Mangler) → Reads (suc fuel) m (top_module swift_name) (b'S' ∷ b's' ∷ [], m)
unfolding read_context lead_of
read_swift fuel m rest = refl

module _ (decimal : ℕ → Bytes) (printed : IsDecimal decimal) where
  mangle_index-StartsIndex : (i : ℕ) (rest : Bytes) → StartsIndex (mangle_index decimal i ++ rest)
  mangle_index-StartsIndex zero rest = refl
  mangle_index-StartsIndex (suc n) rest =
      StartsWithDigit-StartsIndex ((decimal n ++ b'_' ∷ []) ++ rest) (
        StartsWithDigit-prefix (decimal n ++ b'_' ∷ []) rest
          (StartsWithDigit-append (decimal n) (b'_' ∷ []) (printed n).0 (printed n).1))

  -- A substitution reads as its context.
  substitution-reads :
      (fuel : ℕ) (m : Mangler) (key : Context)
      → Each (λ out. NominalReads (suc fuel) m key (out, m)) (try_mangle_substitution decimal key m)
  unfolding try_mangle_substitution read_context lead_of
  substitution-reads fuel m key =
      of_index (index_of key m.substitutions) (index_of-IsAt key m.substitutions)
    where
      of_index :
          (o : Option ℕ)
          → IsAt key m.substitutions o
          → Each
              (λ out. NominalReads (suc fuel) m key (out, m))
              (o >>= λ index. some (b'S' ∷ mangle_index decimal index))
      of_index none at = tt
      of_index (some i) at = (
        tt,
        λ rest.
            read_substitution-index m (mangle_index decimal i ++ rest) rest i key
              (mangle_index-StartsIndex i rest) (read_index-mangle_index decimal printed i rest) at,
      )

  -- A name behind its context, with the specifier in front, reads as the declaration.
  new_nominal-Reads :
      (fuel : ℕ) (m m1 : Mangler) (kind : NominalKind) (parent : Context) (name out id : Bytes)
      → Reads fuel m parent (out, m1)
      → ((rest : Bytes) → read_identifier (id ++ rest) ≡ some (name, rest))
      → Reads (suc fuel) m (nominal_decl kind parent name) (
        get_specifier_for_nominal_type kind ∷ out ++ id,
        add_substitution (nominal_decl kind parent name) m1,
      )
  unfolding read_context read_name
  new_nominal-Reads fuel m m1 kind parent name out id reads_parent reads_name rest =
      rw (lead-specifier kind)
        (rw (append_assoc out id rest) (rw (reads_parent (id ++ rest)) (rw (reads_name rest) refl)))

  nominal_in-Reads :
      (fuel : ℕ) (in_context : Mangled) (kind : NominalKind) (parent : Context) (name : Bytes)
      (m : Mangler)
      → IsPlainNominal kind parent name
      → Returns in_context (Reads fuel m parent)
      → Returns
          (nominal_in decimal in_context kind parent name m)
          (NominalReads (suc fuel) m (nominal_decl kind parent name))
  unfolding nominal_in with_name
  nominal_in-Reads fuel in_context kind parent name m (named, fits) reads =
      found_or_mangle-Returns (NominalReads (suc fuel) m (nominal_decl kind parent name)) _ m _
        (standard-reads fuel m kind parent name fits)
        (found_or_mangle-Returns (NominalReads (suc fuel) m (nominal_decl kind parent name)) _ m _
          (substitution-reads fuel m (nominal_decl kind parent name)) (new in_context reads))
    where
      new :
          (r : Mangled)
          → Returns r (Reads fuel m parent)
          → Returns
              (adding
                (nominal_decl kind parent name)
                (after (get_specifier_for_nominal_type kind ∷ []) (with_name decimal name r)))
              (NominalReads (suc fuel) m (nominal_decl kind parent name))
      new none h = absurd h
      new (some (out, m1)) h =
          named_by (mangle_identifier decimal name)
            (mangle_identifier-reads decimal printed name named)
        where
          named_by :
              (id : Option Bytes)
              → Returns id (λ id.
                StartsWithDigit id
                × ((rest : Bytes) → read_identifier (id ++ rest) ≡ some (name, rest)))
              → Returns
                  (adding (nominal_decl kind parent name) (
                    after
                      (get_specifier_for_nominal_type kind ∷ [])
                      (◌>>=◌ {A = Bytes} {B = Bytes × Mangler} id (λ id. some (out ++ id, m1)))))
                  (NominalReads (suc fuel) m (nominal_decl kind parent name))
          named_by none k = absurd k
          named_by (some id) k =
              (specifier-leads kind, new_nominal-Reads fuel m m1 kind parent name out id h k.1)

  module_in-Reads :
      (fuel : ℕ) (name : Bytes) (m : Mangler)
      → IsName name
      → Returns
          (module_in decimal (some ([], m)) (top_module name) name m)
          (Reads (suc fuel) m (top_module name))
  unfolding module_in with_name
  module_in-Reads fuel name m named =
      found_or_mangle-Returns (Reads (suc fuel) m (top_module name)) _ m _
        (weaken (try_mangle_substitution decimal (top_module name) m)
          (substitution-reads fuel m (top_module name)))
        (named_by (mangle_identifier decimal name)
          (mangle_identifier-reads decimal printed name named))
    where
      weaken :
          (o : Option Bytes)
          → Each (λ out. NominalReads (suc fuel) m (top_module name) (out, m)) o
          → Each (λ out. Reads (suc fuel) m (top_module name) (out, m)) o
      weaken none h = tt
      weaken (some out) h = h.1

      named_by :
          (id : Option Bytes)
          → Returns id (λ id.
            StartsWithDigit id
            × ((rest : Bytes) → read_identifier (id ++ rest) ≡ some (name, rest)))
          → Returns
              (adding (top_module name) (id >>= λ id. some ([] ++ id, m)))
              (Reads (suc fuel) m (top_module name))
      named_by none k = absurd k
      named_by (some id) k = λ rest.
          read_context-module fuel m name (id ++ rest) rest (StartsWithDigit-prefix id rest k.0)
            (k.1 rest)

  module _ (mangle_local : ℕ → Mangler → Mangled) where
    -- A context reads as itself.
    pub mangle_decl_context-Reads :
        (c : Context) (m : Mangler) (fuel : ℕ)
        → IsPlainContext c
        → context_size c ≤ fuel
        → Returns (mangle_decl_context decimal mangle_local c m) (Reads fuel m c)
    unfolding mangle_decl_context
    mangle_decl_context-Reads (top_module name) m zero plain enough = absurd (omega arith)
    mangle_decl_context-Reads (top_module name) m (suc fuel) plain enough =
        elim (Bool-cases (is_swift_module (top_module name))) [
          | inl swift ↦ rw swift (
              subst (λ n. Reads (suc fuel) m (top_module n) (b'S' ∷ b's' ∷ [], m))
                (sym (same_bytes-≡ name swift_name swift)) (read_swift fuel m))
          | inr other ↦ rw other (module_in-Reads fuel name m plain)
        ]
    mangle_decl_context-Reads (nominal_decl kind parent name) m zero plain enough =
        absurd (omega arith)
    mangle_decl_context-Reads (nominal_decl kind parent name) m (suc fuel) (here, plain) enough =
        Returns-weaken (NominalReads (suc fuel) m (nominal_decl kind parent name)) _ _
          (nominal_in-Reads fuel (mangle_decl_context decimal mangle_local parent m) kind parent
            name m here (mangle_decl_context-Reads parent m fuel plain (omega arith)))
          (λ o h. h.1)
    mangle_decl_context-Reads builtin_module m fuel plain enough = absurd plain
    mangle_decl_context-Reads (sub_module parent name) m fuel plain enough = absurd plain
    mangle_decl_context-Reads (extension_decl kind parent name) m fuel plain enough = absurd plain
    mangle_decl_context-Reads (local_context i) m fuel plain enough = absurd plain

    -- So does a nominal type.
    pub mangle_nominal_type-reads :
        (kind : NominalKind) (parent : Context) (name : Bytes) (m : Mangler) (fuel : ℕ)
        → IsPlainContext (nominal_decl kind parent name)
        → context_size (nominal_decl kind parent name) ≤ fuel
        → Returns
            (mangle_nominal_type decimal mangle_local kind parent name m)
            (NominalReads fuel m (nominal_decl kind parent name))
    unfolding mangle_nominal_type
    mangle_nominal_type-reads kind parent name m zero plain enough = absurd (omega arith)
    mangle_nominal_type-reads kind parent name m (suc fuel) (here, plain) enough =
        nominal_in-Reads fuel (mangle_decl_context decimal mangle_local parent m) kind parent name m
          here (mangle_decl_context-Reads parent m fuel plain (omega arith))
