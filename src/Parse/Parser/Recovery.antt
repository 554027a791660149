-- ===== src/Parse/Parser/Recovery.antt =====
-- The recovery loops of the parser end, and where they end.
use b1c3995fdcf53d46308da.Base.{
  ℕ, ◌+◌, ◌<◌, ◌≡◌, ◌⊎◌, inl, inr, refl, ◌∙◌, Bool, true, false, ◌||◌, if◌then◌else◌, some, ◌>>=◌,
  Bytes, length, arith, Returns, Returns->>=, Returns-weaken, Bool-cases, IsSuffix-length,
  IsSuffix-trans, StepOk, iterate-Returns,
}
use b1c3995fdcf53d46308da.Parse.Token.{Token, is, eof, r_brace}
use b1c3995fdcf53d46308da.Parse.Lexer.State.{Lexer}
use b1c3995fdcf53d46308da.Parse.Lexer.Main.{lex, lex_impl}
use b1c3995fdcf53d46308da.Parse.Lexer.Bounds.Main.{IsReady, Lexed, lex_impl-Lexed}
use b1c3995fdcf53d46308da.Parse.Parser.{
  Parser, consume_token, skip_round, skip_to, is_start_of_decl, peek_token, skip_until_decl_r_brace,
}

-- The parser's lexer has read up to the end of the file, or can go on inside its buffer.
abbrev pub IsFed : Bytes → Parser → Type 0
IsFed beyond p = (is p.lexer.next_token eof ≡ true) ⊎ IsReady beyond p.lexer

-- A bound on the tokens still to come, the current one included.
abbrev tokens_left : Parser → ℕ
tokens_left p =
    if is p.tok eof then 0 else if is p.lexer.next_token eof then 1 else length p.lexer.cur_ptr + 2

Lexed-IsFed :
    (beyond : Bytes) (l l' : Lexer)
    → IsReady beyond l
    → Lexed beyond l l'
    → (is l'.next_token eof ≡ true) ⊎ (IsReady beyond l' × (length l'.cur_ptr < length l.cur_ptr))
Lexed-IsFed beyond l l' ready t = elim t.inside [
  | inl (at_end, _, _) ↦ inl (rw at_end refl)
  | inr (inside, moved, shorter) ↦ inr (
    record {
      ends = t.same_end ∙ ready.ends;
      last_line = rw t.same_start ready.last_line;
      inside = inside;
      in_buffer = rw t.same_start (IsSuffix-trans moved (IsSuffix-trans t.skipped ready.in_buffer));
    },
    omega (arith, IsSuffix-length t.skipped),
  )
]

module _ (beyond : Bytes) where
  abbrev Fewer : Parser → Bytes × Parser → Type 0
  Fewer p t = IsFed beyond t.1 × (tokens_left t.1 < tokens_left p)

  lex-IsFed :
      (p : Parser) (loc : Bytes)
      → IsFed beyond p
      → is p.tok eof ≡ false
      → Returns (lex p.lexer >>= λ t. some (loc, record { lexer = t.1; tok = t.0 })) (Fewer p)
  unfolding lex
  lex-IsFed p loc fed more = elim (Bool-cases (is p.lexer.next_token eof)) [
    | inl last ↦ rw last (inl last, ground (arith, last, more))
    | inr next ↦
        let ready = still_ready next in
        rw next (
          Returns->>= (λ t. Fewer p (loc, record { lexer = t.1; tok = t.0 })) (Fewer p)
            (lex_impl p.lexer >>= λ l'. some (p.lexer.next_token, l')) _
            (Returns->>= (Lexed beyond p.lexer) _ (lex_impl p.lexer) _
              (lex_impl-Lexed beyond p.lexer ready)
              (λ l' t. fewer next l' (Lexed-IsFed beyond p.lexer l' ready t)))
            (λ t h. h))
  ]
    where
      still_ready : is p.lexer.next_token eof ≡ false → IsReady beyond p.lexer
      still_ready next = elim fed [ inl last ↦ absurd (cc) | inr ready ↦ ready ]

      fewer :
          is p.lexer.next_token eof ≡ false
          → (l' : Lexer)
          → (is l'.next_token eof ≡ true)
            ⊎ (IsReady beyond l' × (length l'.cur_ptr < length p.lexer.cur_ptr))
          → Fewer p (loc, record { lexer = l'; tok = p.lexer.next_token })
      fewer next l' (inl last) = (inl last, ground (arith, last, more, next))
      fewer next l' (inr (ready, shorter)) = (inr ready, ground (arith, shorter, more, next))

  -- Consuming a token other than `eof` leaves fewer tokens.
  consume_token-IsFed :
      (p : Parser) → IsFed beyond p → is p.tok eof ≡ false → Returns (consume_token p) (Fewer p)
  unfolding consume_token
  consume_token-IsFed p fed more = rw more (lex-IsFed p p.tok.text.start fed more)

  -- A loop of `consumeToken` that stops at `eof` ends, and ends where it means to stop.
  skip_to-stops :
      (stop : Parser → Bool) (p : Parser)
      → ((q : Parser) → stop q ≡ false → is q.tok eof ≡ false)
      → IsFed beyond p
      → Returns (skip_to stop p) (λ q. IsFed beyond q × (stop q ≡ true))
  unfolding skip_to
  skip_to-stops stop p at_eof fed =
      iterate-Returns (IsFed beyond) (λ q. IsFed beyond q × (stop q ≡ true)) tokens_left
        (skip_round stop) round (length p.lexer.cur_ptr + 3) p (ground arith) fed
    where
      round :
          (q : Parser)
          → IsFed beyond q
          → Returns (skip_round stop q) (
              StepOk
                (IsFed beyond)
                (λ q. IsFed beyond q × (stop q ≡ true))
                tokens_left
                (tokens_left q))
      round q h = elim (Bool-cases (stop q)) [
        | inl stops ↦ rw stops (h, stops)
        | inr goes ↦ rw goes (
            Returns->>= (Fewer q) _ (consume_token q) _ (consume_token-IsFed q h (at_eof q goes))
              (λ t f. f))
      ]

not_at_r_brace : (t t2 : Token) → (is t eof || is_start_of_decl t t2) ≡ true → is t r_brace ≡ false
unfolding is_start_of_decl
not_at_r_brace t t2 h = ground arith

-- From any parser on a buffer that ends with a line break, `skipUntilDeclRBrace` returns, and it
-- stops only at the end of the file or at the start of a declaration, so not at a right brace.
pub skip_until_decl_r_brace-stops :
    (beyond : Bytes) (p : Parser)
    → IsFed beyond p
    → Returns (skip_until_decl_r_brace p) (λ q.
      IsFed beyond q
      × ((is q.tok eof || is_start_of_decl q.tok (peek_token q)) ≡ true)
      × (is q.tok r_brace ≡ false))
unfolding skip_until_decl_r_brace
skip_until_decl_r_brace-stops beyond p fed =
    Returns-weaken
      (λ q. IsFed beyond q × ((is q.tok eof || is_start_of_decl q.tok (peek_token q)) ≡ true)) _
      (skip_to (λ p. is p.tok eof || is_start_of_decl p.tok (peek_token p)) p)
      (skip_to-stops beyond (λ p. is p.tok eof || is_start_of_decl p.tok (peek_token p)) p
        (λ q h. ground arith) fed)
      (λ q h. (h.0, h.1, not_at_r_brace q.tok (peek_token q) h.1))
