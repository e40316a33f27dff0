-- ===== src/Lexer/Tokens.antt =====
-- Each scanner of lexer.rs but that of integers takes a state between two tokens to another, with its token pushed.
use snap_surf_lang.Prelude.{
  ℕ, ◌+◌, ◌<◌, Bytes, text, true, ◌&&◌, [], ◌∷◌, ◌≡◌, ◌≢◌, refl, sym, ◌∙◌, inl, inr, none,
  Option-cases, ◌==◌, is_byte, if◌then◌else◌, if_both, length, get_elem?, some, Run, done, ◌>>=◌,
  loop, Post, Post-bind, arith,
}
use snap_surf_lang.Diagnostic.{Pos}
use snap_surf_lang.Source.{SourceFile}
use snap_surf_lang.Source.Lossy.{from_utf8_lossy, from_utf8_lossy-ascii}
use snap_surf_lang.Token.{TokenKind, newline, ident, byte_lit, comment, error, keyword_kind}
use snap_surf_lang.Token.Keywords.{spelling, is_word, keyword_kind_iff}
use snap_surf_lang.Lexer.Cursor.{
  Lexer, pos, peek_next, advance, advance_over, fuel, push, lexeme_from, skip_while,
}
use snap_surf_lang.Lexer.Scan.{
  lex_newline, lex_ident, is_ident_rest, unwrap_or, lex_string, string_round, string_end, StringEnd,
  returned, broke, lex_byte_lit, in_byte_lit, is_at, lex_line_comment, in_line, lex_block_comment,
  single, double, invalid_char, unterminated,
}
use snap_surf_lang.Lexer.Positions.{
  advance-eq, advance_over-plain, is_byte-lt, slice_one, slice_two,
}
use snap_surf_lang.Lexer.Tiles.{
  Ready, Pushed, Scanning, lexeme_of, begin-Scanning, advance-Scanning, push-Pushed,
}
use snap_surf_lang.Lexer.Loops.{
  peek-Post, advance-bind-Post, advance-in-Post, advance_two-Post, IsPlain, skip_while-Post,
}
use snap_surf_lang.Lexer.Quoted.{
  EndsInHexCrLf, Ended, string_loop-Post, comment_loop-Post, unterminated-Pushed,
}

-- A kind of one spelling, whose lexeme is its slice.
abbrev pub IsSymbol : TokenKind → Bytes → Type 0
IsSymbol k w =
    (spelling k ≡ some w) × ((x : Bytes) → lexeme_of k x ≡ from_utf8_lossy x) × (k ≢ error)

lexeme_of-word :
    (k : TokenKind) (x : Bytes) → is_word (spelling k) ≡ true → lexeme_of k x ≡ from_utf8_lossy x
lexeme_of-word newline x h = cc
lexeme_of-word _ x h = refl

word-ne-error : (k : TokenKind) → is_word (spelling k) ≡ true → k ≢ error
word-ne-error error h = cc
word-ne-error _ h = λ e. cc

module _ (src : SourceFile) where
  abbrev pub X : Type 0
  X = EndsInHexCrLf src.bytes

  abbrev pub Lexes : ℕ → Run Lexer → Type 0
  Lexes i = Post X (Pushed src i)

  newline_over :
      (s : Lexer) (b : ℕ)
      → (b == b'\r' && is_byte (peek_next src s) b'\n') ≡ true
      → advance_over src b s ≡ record s { index = s.index + 2; line = s.line + 1; column = 1 }
  unfolding advance_over
  newline_over s b h = ground arith

  pub lex_newline-Pushed :
      (s : Lexer) → s.index < length src.bytes → Ready src s → Lexes s.index (lex_newline src s)
  unfolding lex_newline
  lex_newline-Pushed s lt r = peek-Post src _ _ s _ lt λ b e.
      if_both (λ m. Lexes s.index (m >>= λ s'. done (push src newline (text "\n") (pos s) s')))
        (b == b'\r' && is_byte (peek_next src s) b'\n')
        (λ h. over _ (rw (newline_over s b h) at (begin-Scanning src b e r)))
        (λ _.
          advance-bind-Post src _ (Pushed src s.index) s _ lt
            λ c f. over _ (begin-Scanning src c f r))
    where
      over :
          (s' : Lexer)
          → Scanning src (pos s) s'
          → Pushed src s.index (push src newline (text "\n") (pos s) s')
      over s' h = push-Pushed src newline (text "\n") h refl (λ w q. cc) (λ q. cc)

  ident-Pushed :
      (from : Pos) (s : Lexer)
      → Scanning src from s
      → let t = lexeme_from src from s in
        Pushed src from.byte (push src (unwrap_or ident (keyword_kind t)) t from s)
  ident-Pushed from s h =
      let t = lexeme_from src from s in
      elim (Option-cases (keyword_kind t)) [
        | inl e ↦ rw e (push-Pushed src ident t h refl (λ w q. cc) (λ q. cc))
        | inr (k, e) ↦
            let (word, spelled) = (keyword_kind_iff t k).0 e in
            rw e (
              push-Pushed src k t h (sym (lexeme_of-word k _ word)) (λ w q. cc (spelled, q))
                (λ q. absurd (word-ne-error k word q)))
      ]

  pub lex_ident-Pushed :
      (s : Lexer) → s.index < length src.bytes → Ready src s → Lexes s.index (lex_ident src s)
  unfolding lex_ident
  lex_ident-Pushed s lt r = advance-bind-Post src _ (Pushed src s.index) s _ lt λ c f.
      Post-bind X (Scanning src (pos s)) (Pushed src s.index)
        (skip_while src is_ident_rest (advance_over src c s))
        (λ x.
          let t = lexeme_from src (pos s) x in
          done (push src (unwrap_or ident (keyword_kind t)) t (pos s) x))
        (skip_while-Post src X (pos s) is_ident_rest _ (begin-Scanning src c f r))
        λ s₂ h. ident-Pushed (pos s) s₂ h

  begin_two :
      {s : Lexer} (b c : ℕ)
      → get_elem? src.bytes s.index ≡ some b
      → IsPlain b
      → get_elem? src.bytes (s.index + 1) ≡ some c
      → Ready src s
      → Scanning src (pos s) (advance_over src c (advance_over src b s))
  begin_two {s} b c e (p, q) f r =
      advance-Scanning src c (rw (advance_over-plain src b s p q) f) (begin-Scanning src b e r)

  -- Pushing a token of a kind that has no fixed spelling, with its slice.
  pub push_free :
      (k : TokenKind) (from : Pos) (s : Lexer)
      → (spelling k ≡ none) × ((x : Bytes) → lexeme_of k x ≡ from_utf8_lossy x) × (k ≢ error)
      → Scanning src from s
      → Pushed src from.byte (push src k (lexeme_from src from s) from s)
  push_free k from s (n, l, ne) h =
      push-Pushed src k _ h (sym (l _)) (λ w q. cc (n, q)) (λ q. absurd (ne q))

  pub lex_line_comment-Pushed :
      (s : Lexer) (b : ℕ)
      → get_elem? src.bytes s.index ≡ some b
      → IsPlain b
      → s.index + 1 < length src.bytes
      → Ready src s
      → Lexes s.index (lex_line_comment src s)
  unfolding lex_line_comment
  lex_line_comment-Pushed s b e p lt r =
      advance_two-Post src X (Pushed src s.index) s _ b e p lt λ c f.
        Post-bind X (Scanning src (pos s)) (Pushed src s.index)
          (skip_while src in_line (advance_over src c (advance_over src b s)))
          (λ x. done (push src comment (lexeme_from src (pos s) x) (pos s) x))
          (skip_while-Post src X (pos s) in_line _ (begin_two b c e p f r))
          λ s₃ h. push_free comment (pos s) s₃ (refl, (λ x. refl), λ q. cc) h

  pub lex_block_comment-Pushed :
      (s : Lexer) (b : ℕ)
      → get_elem? src.bytes s.index ≡ some b
      → IsPlain b
      → s.index + 1 < length src.bytes
      → Ready src s
      → Lexes s.index (lex_block_comment src s)
  unfolding lex_block_comment
  lex_block_comment-Pushed s b e p lt r =
      advance_two-Post src X (Pushed src s.index) s _ b e p lt
        λ c f. comment_loop-Post src (pos s) _ (begin_two b c e p f r)

  string_end-Pushed :
      (from : Pos) (e : StringEnd) → Ended src from e → Pushed src from.byte (string_end src from e)
  unfolding string_end
  string_end-Pushed from (returned s) h = h
  string_end-Pushed from (broke s) h = unterminated-Pushed src from _ _ s h

  pub lex_string-Pushed :
      (s : Lexer) → s.index < length src.bytes → Ready src s → Lexes s.index (lex_string src s)
  unfolding lex_string
  lex_string-Pushed s lt r = advance-bind-Post src X (Pushed src s.index) s _ lt λ c f.
      Post-bind X (Ended src (pos s)) (Pushed src s.index)
        (loop (fuel src) (string_round src (pos s)) (advance_over src c s))
        (λ e. done (string_end src (pos s) e))
        (string_loop-Post src (pos s) _ (begin-Scanning src c f r)) (string_end-Pushed (pos s))

  byte_lit_end :
      (from : Pos) (s : Lexer)
      → Scanning src from s
      → Lexes from.byte (
          if is_at src b'\'' s
          then (advance src s >>= λ s₃. done (push src byte_lit (lexeme_from src from s₃) from s₃))
          else done (unterminated src (text "E1002") (text "unterminated byte literal") from s))
  byte_lit_end from s h =
      if_both (Lexes from.byte) (is_at src b'\'' s)
        (λ q.
          advance-in-Post src X from (Pushed src from.byte) s _
            (is_byte-lt src.bytes s.index b'\'' q) h
            λ s' h' m. push_free byte_lit from s' (refl, (λ x. refl), λ q. cc) h')
        (λ _. unterminated-Pushed src from _ _ s h)

  pub lex_byte_lit-Pushed :
      (s : Lexer) → s.index < length src.bytes → Ready src s → Lexes s.index (lex_byte_lit src s)
  unfolding lex_byte_lit
  lex_byte_lit-Pushed s lt r = advance-bind-Post src X (Pushed src s.index) s _ lt λ c f.
      Post-bind X (Scanning src (pos s)) (Pushed src s.index)
        (skip_while src in_byte_lit (advance_over src c s)) _
        (skip_while-Post src X (pos s) in_byte_lit _ (begin-Scanning src c f r))
        (byte_lit_end (pos s))

  pub invalid_char-Pushed :
      (message : Bytes) (s : Lexer)
      → s.index < length src.bytes
      → Ready src s
      → Lexes s.index (invalid_char src message s)
  unfolding invalid_char
  invalid_char-Pushed message s lt r =
      advance-bind-Post src X (Pushed src s.index) s _ lt
        λ c f. unterminated-Pushed src (pos s) _ message _ (begin-Scanning src c f r)

  pub single-Pushed :
      (k : TokenKind) (s : Lexer) (b : ℕ)
      → get_elem? src.bytes s.index ≡ some b
      → IsPlain b
      → b < 0x80
      → IsSymbol k (b ∷ [])
      → Ready src s
      → Lexes s.index (single src k s)
  unfolding single
  single-Pushed k s b e p small (spelled, l, ne) r = rw (advance-eq src b s e) (
      push-Pushed src k _ (begin-Scanning src b e r) (sym (l _)) (λ w q. text_is ∙ cc (spelled, q))
        (λ q. absurd (ne q)))
    where
      text_is : lexeme_from src (pos s) (advance_over src b s) ≡ b ∷ []
      text_is =
          rw (advance_over-plain src b s p.0 p.1, slice_one src.bytes s.index e)
            (from_utf8_lossy-ascii (b ∷ []) (small, tt))

  pub double-Pushed :
      (k : TokenKind) (s : Lexer) (b c : ℕ)
      → get_elem? src.bytes s.index ≡ some b
      → get_elem? src.bytes (s.index + 1) ≡ some c
      → IsPlain b
      → IsPlain c
      → (b < 0x80) × (c < 0x80)
      → IsSymbol k (b ∷ c ∷ [])
      → Ready src s
      → Lexes s.index (double src k s)
  unfolding double
  double-Pushed k s b c e f p q small (spelled, l, ne) r =
      rw (advance-eq src b s e, advance-eq src c (advance_over src b s) f')
        (push-Pushed src k _ (begin_two b c e p f r) (sym (l _)) (λ w q. text_is ∙ cc (spelled, q))
          (λ q. absurd (ne q)))
    where
      i₁ : (advance_over src b s).index ≡ s.index + 1
      i₁ = advance_over-plain src b s p.0 p.1

      f' : get_elem? src.bytes (advance_over src b s).index ≡ some c
      f' = rw i₁ f

      text_is : lexeme_from src (pos s) (advance_over src c (advance_over src b s)) ≡ b ∷ c ∷ []
      text_is =
          rw
            (
              advance_over-plain src c (advance_over src b s) q.0 q.1,
              i₁,
              slice_two src.bytes s.index e f,
            )
            (from_utf8_lossy-ascii (b ∷ c ∷ []) (small.0, (small.1, tt)))
