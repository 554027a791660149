-- ===== src/Ast/DiagnosticText/Nested.antt =====
-- A selection inside another one (skipToDelimiter of lib/AST/DiagnosticEngine.cpp).
use b1c3995fdcf53d46308da.Base.{ℕ, zero, suc, ◌≡◌, ◌≢◌, refl, none, [], ◌∷◌, ◌++◌, Bytes, arith}
use b1c3995fdcf53d46308da.Ast.DiagnosticText.{
  skip_from, skip_at, onward, skip_to_delimiter, select_option,
}

-- Bytes in front of a brace, and bytes between braces, without the delimiters of a selection.
abbrev pub IsOutside : Bytes → Type 0
IsOutside [] = Unit {0}
IsOutside (c ∷ r) = (c ≢ b'{') × (c ≢ b'|') × (c ≢ 0) × IsOutside r

abbrev pub IsInside : Bytes → Type 0
IsInside [] = Unit {0}
IsInside (c ∷ r) = (c ≢ b'}') × (c ≢ b'|') × (c ≢ 0) × IsInside r

inside_fails : (b rest : Bytes) → IsInside b → skip_from b'|' 0 1 (b ++ b'|' ∷ rest) ≡ none
unfolding skip_from
inside_fails [] rest h = refl
inside_fails (c ∷ b) rest (ne1, ne2, ne3, h) =
    let e : skip_at b'|' 0 1 c ≡ onward = ground arith in rw e (rw (inside_fails b rest h) refl)

outside_fails :
    (a b rest : Bytes)
    → IsOutside a
    → IsInside b
    → skip_from b'|' 0 0 (a ++ b'{' ∷ (b ++ b'|' ∷ rest)) ≡ none
unfolding skip_from
outside_fails [] b rest ha hb = rw (inside_fails b rest hb) refl
outside_fails (c ∷ a) b rest (ne1, ne2, ne3, ha) hb =
    let e : skip_at b'|' 0 0 c ≡ onward = ground arith in
    rw e (rw (outside_fails a b rest ha hb) refl)

-- If the options of a selection hold a vertical bar inside braces, as those of a selection inside
-- it do, no option from there on can be selected: the bar between the braces is taken for the end
-- of the option, and the assertion that the braces are balanced fails.
pub select_option-nested :
    (n : ℕ) (a b rest : Bytes)
    → IsOutside a
    → IsInside b
    → select_option n (a ++ b'{' ∷ (b ++ b'|' ∷ rest)) ≡ none
unfolding select_option skip_to_delimiter
select_option-nested zero a b rest ha hb = rw (outside_fails a b rest ha hb) refl
select_option-nested (suc n) a b rest ha hb = rw (outside_fails a b rest ha hb) refl
