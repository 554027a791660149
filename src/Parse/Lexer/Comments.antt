-- ===== src/Parse/Lexer/Comments.antt =====
-- skipSlashSlashComment and skipSlashStarComment (lib/Parse/Lexer.cpp).
use b1c3995fdcf53d46308da.Base.{
  asserting, ◌&&◌, Bool, ℕ, ◌+◌, ◌-◌, ◌%◌, ◌^◌, ◌||◌, ◌==◌, leb, if◌then◌else◌, Option, none, some,
  [], ◌∷◌, Bytes, length, Step, again, done, iterate, ◌>>=◌,
}
use b1c3995fdcf53d46308da.Parse.Lexer.State.{
  first_is, Log, diagnose, Lexer, load, same_ptr, dec_ptr, validate_high, lex_nul_character,
  lex_unterminated_block_comment, lex_comment_start,
}

-- One round of the loop of `skipSlashSlashComment`.
unfoldable pub slash_slash_round : Bytes → Bytes × Log → Option (Step (Bytes × Log) (Bytes × Log))
slash_slash_round buffer_end ([], log) = none
slash_slash_round buffer_end (c ∷ r, log) =
    if c == b'\n' || c == b'\r'
    then some (done (r, log))
    else if c == 0
    then (if same_ptr (c ∷ r) buffer_end
        then some (done (c ∷ r, log))
        else some (again (r, diagnose log (c ∷ r) lex_nul_character)))
    else if leb 0x80 c
    then (validate_high (c ∷ r) log >>= λ s. some (again s))
    else some (again (r, log))

-- `CurPtr[-1] == '/' && CurPtr[0] == c`, where `start_ptr` is `CurPtr - 1`.
abbrev pub behind_slash : ℕ → Bytes → Bytes → Bool
behind_slash c start_ptr cur = first_is (λ d. d == b'/') start_ptr && first_is (λ d. d == c) cur

-- `skipSlashSlashComment`: skip to the end of the line. `start_ptr` is `CurPtr - 1`.
unfoldable pub skip_slash_slash_comment : Bytes → Lexer → Option Lexer
unfolding iterate slash_slash_round
skip_slash_slash_comment start_ptr l = asserting (behind_slash b'/' start_ptr l.cur_ptr) (do
  (p, log) ← iterate (length l.cur_ptr + 1) (slash_slash_round l.buffer_end) (l.cur_ptr, l.log)
  some (record l { cur_ptr = p; log = log }))

-- The variables of `skipSlashStarComment`: `CurPtr`, `Depth` and the diagnostics.
pub record Nesting : Type 0 where
  pub cur : Bytes
  pub depth : ℕ
  pub log : Log

-- `case '*'`, on the pointer behind the star: `--Depth` is a decrement of an unsigned.
unfoldable pub after_star : Nesting → Bytes → Option (Step Nesting (Bytes × Log))
after_star s [] = none
after_star s (c ∷ r) =
    if c == b'/'
    then (let depth = (s.depth + 2 ^ 32 - 1) % 2 ^ 32 in
        if depth == 0
        then some (done (r, s.log))
        else some (again (record s { cur = r; depth = depth })))
    else some (again (record s { cur = c ∷ r }))

-- `case '/'`, on the pointer behind the slash.
unfoldable pub after_slash : Nesting → Bytes → Option (Step Nesting (Bytes × Log))
after_slash s [] = none
after_slash s (c ∷ r) =
    if c == b'*'
    then some (again (record s { cur = r; depth = (s.depth + 1) % 2 ^ 32 }))
    else some (again (record s { cur = c ∷ r }))

-- `case 0` at the end of the buffer: the comment is unterminated. The location steps back over a
-- line feed in front of the end.
unfoldable pub unterminated : Lexer → Bytes → Nesting → Option (Step Nesting (Bytes × Log))
unfolding dec_ptr
unterminated l start_ptr s = do
  before ← load (dec_ptr l.buffer_start s.cur)
  let loc = if before == b'\n' then dec_ptr l.buffer_start s.cur else s.cur
  let log = diagnose s.log loc lex_unterminated_block_comment
  some (done (s.cur, diagnose log start_ptr lex_comment_start))

-- One round of the loop of `skipSlashStarComment`, on what `CurPtr` points to.
unfoldable pub slash_star_round :
    Lexer → Bytes → Nesting → Bytes → Option (Step Nesting (Bytes × Log))
unfolding after_star after_slash unterminated
slash_star_round l start_ptr s [] = none
slash_star_round l start_ptr s (c ∷ r) =
    if c == b'*'
    then after_star s r
    else if c == b'/'
    then after_slash s r
    else if c == 0
    then (if same_ptr (c ∷ r) l.buffer_end
        then unterminated l start_ptr s
        else some (again (record s { cur = r; log = diagnose s.log (c ∷ r) lex_nul_character })))
    else if leb 0x80 c
    then (validate_high (c ∷ r) s.log >>= λ t. some (again (record s { cur = t.0; log = t.1 })))
    else some (again (record s { cur = r }))

-- `++CurPtr`
abbrev pub advance : Bytes → Option Bytes
advance [] = none
advance (c ∷ r) = some r

-- `skipSlashStarComment`: block comments nest. `start_ptr` is `CurPtr - 1`, at the slash.
unfoldable pub skip_slash_star_comment : Bytes → Lexer → Option Lexer
unfolding iterate slash_star_round
skip_slash_star_comment start_ptr l = asserting (behind_slash b'*' start_ptr l.cur_ptr) (do
  body ← advance l.cur_ptr
  (p, log) ←
      iterate (length body + 1) (λ s. slash_star_round l start_ptr s s.cur)
        (record { cur = body; depth = 1; log = l.log })
  some (record l { cur_ptr = p; log = log }))
