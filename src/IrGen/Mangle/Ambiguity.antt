-- ===== src/IrGen/Mangle/Ambiguity.antt =====
-- Types that lib/IRGen/Mangle.cpp mangles alike.
use b1c3995fdcf53d46308da.Base.{
  ℕ, ◌≡◌, ◌≢◌, refl, sym, ap, subst, none, some, [], ◌∷◌, ◌>>=◌, Bytes, Returns,
}
use mathlib.Core.List.{append_assoc, append-nil}
use b1c3995fdcf53d46308da.IrGen.Mangle.{
  protocol_decl, Context, nominal_decl, Mangler, Mangled, after, adding, found_or_mangle,
  try_mangle_standard_substitution, try_mangle_substitution, nominal_in, with_name,
  mangle_decl_context, mangle_field_name, mangle_nominal_type, mangle_protocol_name,
  mangle_protocol_list, mangle_type, mangle_fields, SwiftType, tuple, nominal, protocol_composition,
  no_field, field, plain_field,
}

in_front :
    (key : Context) (out : Bytes) (m : Mangler) (r : Mangled)
    → adding key r ≡ some (out, m)
    → adding key (after (b'P' ∷ []) r) ≡ some (b'P' ∷ out, m)
in_front key out m none e = cc
in_front key out m (some o) e = ap (λ q. q >>= λ p. some (b'P' ∷ p.0, p.1)) e

module _ (decimal : ℕ → Bytes) (mangle_local : ℕ → Mangler → Mangled) where
  -- The type of a protocol that is new is the letter `P` and the name that stands in compositions.
  new_protocol-mangle_nominal_type :
      (parent : Context) (name out : Bytes) (m m' : Mangler)
      → try_mangle_standard_substitution parent name ≡ none
      → try_mangle_substitution decimal (nominal_decl protocol_decl parent name) m ≡ none
      → mangle_protocol_name decimal mangle_local parent name m ≡ some (out, m')
      → mangle_nominal_type decimal mangle_local protocol_decl parent name m ≡ some (b'P' ∷ out, m')
  unfolding mangle_nominal_type nominal_in mangle_protocol_name
  new_protocol-mangle_nominal_type parent name out m m' standard new named =
      let spelled =
        subst
          (λ o.
            found_or_mangle o m (
              adding (nominal_decl protocol_decl parent name)
                (with_name decimal name (mangle_decl_context decimal mangle_local parent m)))
            ≡ some (out, m'))
          new named in
      rw standard (
        rw new (
          in_front (nominal_decl protocol_decl parent name) out m'
            (with_name decimal name (mangle_decl_context decimal mangle_local parent m)) spelled))

  -- That of a known one is its substitution, as in compositions.
  known_protocol-mangle_nominal_type :
      (parent : Context) (name out : Bytes) (m : Mangler)
      → try_mangle_standard_substitution parent name ≡ none
      → try_mangle_substitution decimal (nominal_decl protocol_decl parent name) m ≡ some out
      → mangle_nominal_type decimal mangle_local protocol_decl parent name m ≡ some (out, m)
  unfolding mangle_nominal_type nominal_in
  known_protocol-mangle_nominal_type parent name out m standard known = rw standard (rw known refl)

  known_protocol-mangle_protocol_name :
      (parent : Context) (name out : Bytes) (m : Mangler)
      → try_mangle_substitution decimal (nominal_decl protocol_decl parent name) m ≡ some out
      → mangle_protocol_name decimal mangle_local parent name m ≡ some (out, m)
  unfolding mangle_protocol_name
  known_protocol-mangle_protocol_name parent name out m known = rw known refl

  module _ (a b c : Context × Bytes) (x : Bytes) where
    abbrev protocol_type : Context × Bytes → SwiftType
    protocol_type (parent, name) = nominal protocol_decl parent name

    -- `(x : (A, B), protocol<C, B>)`
    abbrev pub pair_first : SwiftType
    pair_first = tuple (
        plain_field x
          (tuple (plain_field [] (protocol_type a) (plain_field [] (protocol_type b) no_field)))
          (plain_field [] (protocol_composition (c ∷ b ∷ [])) no_field))

    -- `(x : (protocol<A, B>, C, B))`
    abbrev pub composition_first : SwiftType
    composition_first = tuple (
        plain_field x
          (tuple (
            plain_field [] (protocol_composition (a ∷ b ∷ []))
              (plain_field [] (protocol_type c) (plain_field [] (protocol_type b) no_field))))
          no_field)

    -- The mangling of a protocol type does not end where that of a composition does: wherever
    -- protocols A and C are new and B is a substitution, none of them a standard type, the types
    -- (x : (A, B), protocol<C, B>) and (x : (protocol<A, B>, C, B)) are mangled alike.
    pub mangle_type_ambiguous :
        (id out_a out_b out_c out_b' : Bytes) (m m1 m2 : Mangler) (level : ℕ)
        → mangle_field_name decimal x ≡ some id
        → try_mangle_standard_substitution a.0 a.1 ≡ none
        → try_mangle_standard_substitution b.0 b.1 ≡ none
        → try_mangle_standard_substitution c.0 c.1 ≡ none
        → try_mangle_substitution decimal (nominal_decl protocol_decl a.0 a.1) m ≡ none
        → mangle_protocol_name decimal mangle_local a.0 a.1 m ≡ some (out_a, m1)
        → try_mangle_substitution decimal (nominal_decl protocol_decl b.0 b.1) m1 ≡ some out_b
        → try_mangle_substitution decimal (nominal_decl protocol_decl c.0 c.1) m1 ≡ none
        → mangle_protocol_name decimal mangle_local c.0 c.1 m1 ≡ some (out_c, m2)
        → try_mangle_substitution decimal (nominal_decl protocol_decl b.0 b.1) m2 ≡ some out_b'
        → (pair_first ≢ composition_first)
          × Returns
              (mangle_type decimal mangle_local pair_first level m)
              (λ o. mangle_type decimal mangle_local composition_first level m ≡ some o)
    unfolding mangle_type mangle_fields mangle_field_name mangle_protocol_list
    mangle_type_ambiguous id out_a out_b out_c out_b' m m1 m2 level named sa sb sc new_a spelled_a
          known_b new_c spelled_c known_b' =
        let type_a = new_protocol-mangle_nominal_type a.0 a.1 out_a m m1 sa new_a spelled_a in
        let type_c = new_protocol-mangle_nominal_type c.0 c.1 out_c m1 m2 sc new_c spelled_c in
        let type_b = known_protocol-mangle_nominal_type b.0 b.1 out_b m1 sb known_b in
        let type_b' = known_protocol-mangle_nominal_type b.0 b.1 out_b' m2 sb known_b' in
        let name_b = known_protocol-mangle_protocol_name b.0 b.1 out_b m1 known_b in
        let name_b' = known_protocol-mangle_protocol_name b.0 b.1 out_b' m2 known_b' in
        (
          differ,
          rw named (
              rw type_a (
                rw type_b (
                  rw spelled_a (
                    rw name_b (
                      rw type_c (
                        rw spelled_c
                          (rw name_b' (rw type_b' (simp (append_assoc, append-nil)))))))))),
        )
      where
        is_one : SwiftType → Type 0
        is_one (tuple (field y t i v no_field)) = Unit {0}
        is_one t = ⊥

        differ : pair_first ≢ composition_first
        differ e = subst is_one (sym e) tt
