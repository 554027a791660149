-- ===== src/Parse/Lexer/Nesting.antt =====
-- Block comments nest (skipSlashStarComment of lib/Parse/Lexer.cpp).
use b1c3995fdcf53d46308da.Base.{
  true, ℕ, zero, suc, ◌+◌, ◌-◌, ◌%◌, ◌^◌, ◌<◌, ◌≡◌, ◌≢◌, refl, ◌∙◌, Option, some, [], ◌∷◌, ◌++◌,
  Bytes, length, length-append, arith, Step, again, iterate,
}
use mathlib.Core.List.{append_assoc}
use b1c3995fdcf53d46308da.Parse.Lexer.State.{Lexer, Log}
use b1c3995fdcf53d46308da.Parse.Lexer.Comments.{
  behind_slash, Nesting, slash_star_round, skip_slash_star_comment,
}

abbrev pub open_comment : Bytes
open_comment = b'/' ∷ b'*' ∷ []

abbrev pub close_comment : Bytes
close_comment = b'*' ∷ b'/' ∷ []

-- The text of a comment: ASCII characters other than NUL, stars and slashes, and whole comments.
pub data IsText : Bytes → Type 0 where
  empty : IsText []
  char : {r : Bytes} (c : ℕ) → c < 0x80 → c ≢ 0 → c ≢ b'*' → c ≢ b'/' → IsText r → IsText (c ∷ r)
  comment : {b r : Bytes} → IsText b → IsText r → IsText (b'/' ∷ b'*' ∷ (b ++ (b'*' ∷ b'/' ∷ r)))

module _ (l : Lexer) (start_ptr : Bytes) where
  abbrev round : Nesting → Option (Step Nesting (Bytes × Log))
  round s = slash_star_round l start_ptr s s.cur

  -- The loop goes from `s` to `t`, with enough fuel left at `t`.
  abbrev Leads : Nesting → Nesting → Type 0
  Leads s t =
      (fuel : ℕ)
      → length s.cur < fuel
      → (fuel' : ℕ) × (length t.cur < fuel') × (iterate fuel round s ≡ iterate fuel' round t)

  Leads-refl : (s : Nesting) → Leads s s
  Leads-refl s fuel h = (fuel, h, refl)

  Leads-trans : (s t u : Nesting) → Leads s t → Leads t u → Leads s u
  Leads-trans s t u a b fuel h =
      let (fuel', h', e) = a fuel h in let (fuel'', h'', e') = b fuel' h' in (fuel'', h'', e ∙ e')

  Leads-round : (s t : Nesting) → round s ≡ some (again t) → length t.cur < length s.cur → Leads s t
  unfolding iterate
  Leads-round s t e lt zero h = absurd (omega arith)
  Leads-round s t e lt (suc fuel) h = (fuel, omega arith, rw e refl)

  abbrev at_depth : Log → ℕ → Bytes → Nesting
  at_depth log d p = record { cur = p; depth = d; log = log }

  opens :
      (log : Log) (d : ℕ) (p : Bytes)
      → d + 1 < 2 ^ 32
      → round (at_depth log d (b'/' ∷ b'*' ∷ p)) ≡ some (again (at_depth log (d + 1) p))
  unfolding slash_star_round
  opens log d p h = let e : (d + 1) % 2 ^ 32 ≡ d + 1 = omega arith in rw e refl

  closes :
      (log : Log) (d : ℕ) (p : Bytes)
      → 0 < d
      → d < 2 ^ 32
      → round (at_depth log (d + 1) (b'*' ∷ b'/' ∷ p)) ≡ some (again (at_depth log d p))
  unfolding slash_star_round
  closes log d p pos h =
      let e : (d + 1 + 2 ^ 32 - 1) % 2 ^ 32 ≡ d = omega arith in rw e (ground arith)

  -- A text inside `d` comments is skipped.
  text-Leads :
      {b : Bytes} (log : Log) (d : ℕ) (rest : Bytes)
      → IsText b
      → 0 < d
      → d + length b < 2 ^ 32
      → Leads (at_depth log d (b ++ rest)) (at_depth log d rest)
  text-Leads log d rest empty pos h = Leads-refl (at_depth log d rest)
  text-Leads log d rest (char {r} c ascii nul star slash t) pos h =
      Leads-trans (at_depth log d (c ∷ (r ++ rest))) (at_depth log d (r ++ rest))
        (at_depth log d rest)
        (Leads-round (at_depth log d (c ∷ (r ++ rest))) (at_depth log d (r ++ rest))
          (unfold slash_star_round in ground arith) (omega arith))
        (text-Leads log d rest t pos (omega arith))
  text-Leads log d rest (comment {b} {r} t u) pos h =
      let inner = b ++ (b'*' ∷ b'/' ∷ (r ++ rest)) in
      let bound : d + 1 + length b + length r < 2 ^ 32 =
        omega (arith, length-append b (b'*' ∷ b'/' ∷ r)) in
      rw append_assoc (
        Leads-trans (at_depth log d (b'/' ∷ b'*' ∷ inner)) (at_depth log (d + 1) inner)
          (at_depth log d rest)
          (Leads-round (at_depth log d (b'/' ∷ b'*' ∷ inner)) (at_depth log (d + 1) inner)
            (opens log d inner (omega arith)) (omega arith))
          (Leads-trans (at_depth log (d + 1) inner)
            (at_depth log (d + 1) (b'*' ∷ b'/' ∷ (r ++ rest))) (at_depth log d rest)
            (text-Leads log (d + 1) (b'*' ∷ b'/' ∷ (r ++ rest)) t (omega arith) (omega arith))
            (Leads-trans (at_depth log (d + 1) (b'*' ∷ b'/' ∷ (r ++ rest)))
              (at_depth log d (r ++ rest)) (at_depth log d rest)
              (Leads-round (at_depth log (d + 1) (b'*' ∷ b'/' ∷ (r ++ rest)))
                (at_depth log d (r ++ rest)) (closes log d (r ++ rest) pos (omega arith))
                (omega arith))
              (text-Leads log d rest u pos (omega arith)))))

  -- The closing delimiter of the outermost comment ends the loop.
  ends :
      (fuel : ℕ) (log : Log) (rest : Bytes)
      → length (b'*' ∷ b'/' ∷ rest) < fuel
      → iterate fuel round (at_depth log 1 (b'*' ∷ b'/' ∷ rest)) ≡ some (rest, log)
  unfolding iterate slash_star_round
  ends zero log rest h = absurd (omega arith)
  ends (suc fuel) log rest h = refl

  -- From behind the slash that opens a comment whose text is made of ASCII characters other than
  -- NUL, stars and slashes, and of whole comments of such texts, and is shorter than 2 ^ 32 - 1
  -- bytes, the lexer goes on exactly behind the closing delimiter that belongs to it, and
  -- reports nothing.
  pub skip_slash_star_comment-matching :
      (b rest : Bytes)
      → IsText b
      → length b + 1 < 2 ^ 32
      → start_ptr ≡ b'/' ∷ l.cur_ptr
      → l.cur_ptr ≡ b'*' ∷ (b ++ (b'*' ∷ b'/' ∷ rest))
      → skip_slash_star_comment start_ptr l ≡ some (record l { cur_ptr = rest })
  unfolding skip_slash_star_comment
  skip_slash_star_comment-matching b rest t h slash at =
      let body = b ++ (b'*' ∷ b'/' ∷ rest) in
      let (fuel, lt, e) =
        text-Leads l.log 1 (b'*' ∷ b'/' ∷ rest) t (omega arith) (omega arith) (length body + 1)
          (omega arith) in
      let run : iterate (length body + 1) round (at_depth l.log 1 body) ≡ some (rest, l.log) =
        e ∙ ends fuel l.log rest lt in
      let slashes : behind_slash b'*' start_ptr l.cur_ptr ≡ true = rw slash (rw at refl) in
      rw slashes (ground (arith, at, run))
