-- ===== src/IrGen/Mangle/Keys.antt =====
-- The identity of declarations, the numbers of substitutions and the letters of standard types
-- (lib/IRGen/Mangle.cpp).
use b1c3995fdcf53d46308da.Base.{
  same_bytes, ℕ, suc, ==_iff, ◌&&◌, ◌≡◌, refl, sym, ap, subst, Bool, true, if◌then◌else◌, Option,
  none, some, List, [], ◌∷◌, get_elem?, ◌>>=◌, Bytes, arith, Returns, inl, inr, Bool-cases,
}
use b1c3995fdcf53d46308da.IrGen.Mangle.{
  NominalKind, protocol_decl, class_decl, oneof_decl, struct_decl, same_kind, Context,
  builtin_module, top_module, sub_module, nominal_decl, extension_decl, local_context, same_context,
  swift_name, Mangler, Mangled, index_of, standard_letter, found_or_mangle,
}
use b1c3995fdcf53d46308da.IrGen.Mangle.Reader.{standard}

-- Declarations that the mangler takes for one are one.
pub same_bytes-≡ : (s t : Bytes) → same_bytes s t ≡ true → s ≡ t
same_bytes-≡ [] [] same = refl
same_bytes-≡ [] (d ∷ t) same = absurd (ground arith)
same_bytes-≡ (c ∷ s) [] same = absurd (ground arith)
same_bytes-≡ (c ∷ s) (d ∷ t) same =
    let first : c ≡ d = ground arith in
    let rest = same_bytes-≡ s t (ground arith) in rw first (ap (λ u. d ∷ u) rest)

same_kind-≡ : (k l : NominalKind) → same_kind k l ≡ true → k ≡ l
same_kind-≡ protocol_decl protocol_decl same = refl
same_kind-≡ protocol_decl class_decl same = absurd (ground arith)
same_kind-≡ protocol_decl oneof_decl same = absurd (ground arith)
same_kind-≡ protocol_decl struct_decl same = absurd (ground arith)
same_kind-≡ class_decl protocol_decl same = absurd (ground arith)
same_kind-≡ class_decl class_decl same = refl
same_kind-≡ class_decl oneof_decl same = absurd (ground arith)
same_kind-≡ class_decl struct_decl same = absurd (ground arith)
same_kind-≡ oneof_decl protocol_decl same = absurd (ground arith)
same_kind-≡ oneof_decl class_decl same = absurd (ground arith)
same_kind-≡ oneof_decl oneof_decl same = refl
same_kind-≡ oneof_decl struct_decl same = absurd (ground arith)
same_kind-≡ struct_decl protocol_decl same = absurd (ground arith)
same_kind-≡ struct_decl class_decl same = absurd (ground arith)
same_kind-≡ struct_decl oneof_decl same = absurd (ground arith)
same_kind-≡ struct_decl struct_decl same = refl

and_both : (a b : Bool) → (a && b) ≡ true → (a ≡ true) × (b ≡ true)
and_both a b both = (ground arith, ground arith)

same_context-≡ : (c d : Context) → same_context c d ≡ true → c ≡ d
same_context-≡ builtin_module builtin_module same = refl
same_context-≡ (top_module n) (top_module m) same = ap top_module (same_bytes-≡ n m same)
same_context-≡ (sub_module c n) (sub_module d m) same =
    let both = and_both (same_context c d) (same_bytes n m) same in
    let parents = same_context-≡ c d both.0 in
    let names = same_bytes-≡ n m both.1 in rw parents (ap (sub_module d) names)
same_context-≡ (nominal_decl k c n) (nominal_decl l d m) same =
    let kinds = and_both (same_kind k l) (same_context c d && same_bytes n m) same in
    let both = and_both (same_context c d) (same_bytes n m) kinds.1 in
    let parents = same_context-≡ c d both.0 in
    let names = same_bytes-≡ n m both.1 in
    rw (same_kind-≡ k l kinds.0) (rw parents (ap (nominal_decl l d) names))
same_context-≡ (extension_decl k c n) (extension_decl l d m) same =
    let kinds = and_both (same_kind k l) (same_context c d && same_bytes n m) same in
    let both = and_both (same_context c d) (same_bytes n m) kinds.1 in
    let parents = same_context-≡ c d both.0 in
    let names = same_bytes-≡ n m both.1 in
    rw (same_kind-≡ k l kinds.0) (rw parents (ap (extension_decl l d) names))
same_context-≡ (local_context i) (local_context j) same = ap local_context ((==_iff i j).0 same)
same_context-≡ builtin_module (top_module m) same = absurd (ground arith)
same_context-≡ builtin_module (sub_module d m) same = absurd (ground arith)
same_context-≡ builtin_module (nominal_decl l d m) same = absurd (ground arith)
same_context-≡ builtin_module (extension_decl l d m) same = absurd (ground arith)
same_context-≡ builtin_module (local_context j) same = absurd (ground arith)
same_context-≡ (top_module n) builtin_module same = absurd (ground arith)
same_context-≡ (top_module n) (sub_module d m) same = absurd (ground arith)
same_context-≡ (top_module n) (nominal_decl l d m) same = absurd (ground arith)
same_context-≡ (top_module n) (extension_decl l d m) same = absurd (ground arith)
same_context-≡ (top_module n) (local_context j) same = absurd (ground arith)
same_context-≡ (sub_module c n) builtin_module same = absurd (ground arith)
same_context-≡ (sub_module c n) (top_module m) same = absurd (ground arith)
same_context-≡ (sub_module c n) (nominal_decl l d m) same = absurd (ground arith)
same_context-≡ (sub_module c n) (extension_decl l d m) same = absurd (ground arith)
same_context-≡ (sub_module c n) (local_context j) same = absurd (ground arith)
same_context-≡ (nominal_decl k c n) builtin_module same = absurd (ground arith)
same_context-≡ (nominal_decl k c n) (top_module m) same = absurd (ground arith)
same_context-≡ (nominal_decl k c n) (sub_module d m) same = absurd (ground arith)
same_context-≡ (nominal_decl k c n) (extension_decl l d m) same = absurd (ground arith)
same_context-≡ (nominal_decl k c n) (local_context j) same = absurd (ground arith)
same_context-≡ (extension_decl k c n) builtin_module same = absurd (ground arith)
same_context-≡ (extension_decl k c n) (top_module m) same = absurd (ground arith)
same_context-≡ (extension_decl k c n) (sub_module d m) same = absurd (ground arith)
same_context-≡ (extension_decl k c n) (nominal_decl l d m) same = absurd (ground arith)
same_context-≡ (extension_decl k c n) (local_context j) same = absurd (ground arith)
same_context-≡ (local_context i) builtin_module same = absurd (ground arith)
same_context-≡ (local_context i) (top_module m) same = absurd (ground arith)
same_context-≡ (local_context i) (sub_module d m) same = absurd (ground arith)
same_context-≡ (local_context i) (nominal_decl l d m) same = absurd (ground arith)
same_context-≡ (local_context i) (extension_decl l d m) same = absurd (ground arith)

-- The number of a substitution leads back to it.
abbrev pub IsAt : Context → List Context → Option ℕ → Type 0
IsAt key cs none = Unit {0}
IsAt key cs (some i) = get_elem? cs i ≡ some key

IsAt-suc :
    (key c : Context) (cs : List Context) (o : Option ℕ)
    → IsAt key cs o
    → IsAt key (c ∷ cs) (o >>= λ i. some (suc i))
IsAt-suc key c cs none at = tt
IsAt-suc key c cs (some i) at = at

pub index_of-IsAt : (key : Context) (cs : List Context) → IsAt key cs (index_of key cs)
index_of-IsAt key [] = tt
index_of-IsAt key (c ∷ cs) = elim (Bool-cases (same_context key c)) [
  | inl same ↦ rw same (ap some (sym (same_context-≡ key c same)))
  | inr other ↦ rw other (IsAt-suc key c cs (index_of key cs) (index_of-IsAt key cs))
]

-- The letter of a standard type stands for it.
abbrev pub StandsFor : Bytes → Option ℕ → Type 0
StandsFor name none = Unit {0}
StandsFor name (some c) = standard c ≡ some (nominal_decl struct_decl (top_module swift_name) name)

StandsFor-if :
    (name literal : Bytes) (c : ℕ) (rest : Option ℕ)
    → StandsFor literal (some c)
    → StandsFor name rest
    → StandsFor name (if same_bytes name literal then some c else rest)
StandsFor-if name literal c rest known others = elim (Bool-cases (same_bytes name literal)) [
  | inl same ↦
      rw same (subst (λ s. StandsFor s (some c)) (sym (same_bytes-≡ name literal same)) known)
  | inr other ↦ rw other others
]

pub standard_letter-StandsFor : (name : Bytes) → StandsFor name (standard_letter name)
standard_letter-StandsFor name = StandsFor-if name _ b'i' _ refl (
    StandsFor-if name _ b'u' _ refl (
      StandsFor-if name _ b'b' _ refl (
        StandsFor-if name _ b'c' _ refl (
          StandsFor-if name _ b'd' _ refl
            (StandsFor-if name _ b'f' _ refl (StandsFor-if name _ b'S' _ refl tt))))))

-- Whether an optional value has a property.
abbrev pub Each : {A : Type 0} → (A → Type 0) → Option A → Type 0
Each P none = Unit {0}
Each P (some a) = P a

pub found_or_mangle-Returns :
    (P : Bytes × Mangler → Type 0) (o : Option Bytes) (m : Mangler) (rest : Mangled)
    → Each (λ out. P (out, m)) o
    → Returns rest P
    → Returns (found_or_mangle o m rest) P
found_or_mangle-Returns P none m rest found new = new
found_or_mangle-Returns P (some out) m rest found new = found
