-- ===== src/Lexer/Quoted.antt =====
-- The loops of lexer.rs over strings and block comments. A string is where the lexer can panic.
use mathlib.Core.Bool.{and-eq-true_iff}
use snap_surf_lang.Prelude.{
  ℕ, ◌+◌, ◌<◌, ◌≤◌, Bytes, not, ◌&&◌, ◌||◌, ◌≡◌, refl, sym, ap, ◌∙◌, inl, inr, Option-cases, leb,
  leb→lt, ◌==◌, is_byte, if◌then◌else◌, if_both, length, get_elem?, get_elem?-none, get_elem?-lt,
  some, Run, done, ◌>>=◌, Flow, next, loop, Post, Round, loop-Post, arith,
}
use snap_surf_lang.Diagnostic.{Pos}
use snap_surf_lang.Source.{SourceFile}
use snap_surf_lang.Token.{error, str_lit, comment}
use snap_surf_lang.Lexer.Cursor.{Lexer, peek, peek_next, advance, advance_over, fuel}
use snap_surf_lang.Lexer.Scan.{
  StringEnd, returned, broke, is_hex, escape_error, hex_escape, is_simple_escape, string_escape,
  string_round, comment_round, unterminated,
}
use snap_surf_lang.Lexer.Positions.{
  advance_over-lt, advance_over-plain, advance_over-wide, is_byte-lt,
}
use snap_surf_lang.Lexer.Tiles.{
  Pushed, Scanning, advance-Scanning, report-Scanning, push-Pushed, HasSpan-report,
}
use snap_surf_lang.Lexer.Loops.{
  left, left-lt-fuel, peek-Post, advance-bind-Post, eof-Post, advance-in-Post, advance_two-Post,
  advance_two-Scanning,
}

-- The file ends in `\x`, a carriage return and a line feed.
abbrev pub EndsInHexCrLf : Bytes → Type 0
EndsInHexCrLf bs =
    (i : ℕ) × (length bs ≡ i + 4)
    × (get_elem? bs i ≡ some b'\\')
    × (get_elem? bs (i + 1) ≡ some b'x')
    × (get_elem? bs (i + 2) ≡ some b'\r')
    × (get_elem? bs (i + 3) ≡ some b'\n')

module _ (src : SourceFile) (from : Pos) where
  abbrev pub X : Type 0
  X = EndsInHexCrLf src.bytes

  -- The string is closed and its token pushed, or its bytes so far are inside the token.
  abbrev pub Ended : StringEnd → Type 0
  Ended (returned s) = Pushed src from.byte s
  Ended (broke s) = Scanning src from s

  abbrev InString : ℕ → Run (Flow Lexer StringEnd) → Type 0
  InString n = Post X (Round (Scanning src from) Ended (left src) n)

  -- The one read that is not guarded is out of bounds only where the file ends so.
  hex_digits-Post :
      (i n : ℕ) (s : Lexer)
      → s.index ≡ i + 2
      → get_elem? src.bytes i ≡ some b'\\'
      → get_elem? src.bytes (i + 1) ≡ some b'x'
      → s.index + 1 < length src.bytes
      → left src s < n
      → Scanning src from s
      → InString n (
          peek src s >>= λ a. advance src s >>= λ s₂. peek src s₂ >>= λ b. advance src s₂ >>= λ s₃.
          done (next (if not (is_hex a) || not (is_hex b) then escape_error src from s₃ else s₃)))
  hex_digits-Post i n s at back x lt m h = peek-Post src X _ s _ (omega arith) λ a e.
      advance-bind-Post src X _ s _ (omega arith) λ c f.
        let s₂ = advance_over src c s in
        elim (Option-cases (get_elem? src.bytes s₂.index)) [
          | inl out ↦ rw out (
              let past = get_elem?-none src.bytes s₂.index out in
              let wide = advance_over-wide src c s (omega arith) in
              (
                i,
                omega arith,
                back,
                x,
                rw (← at) (f ∙ ap some wide.0),
                (let j : i + 3 ≡ s.index + 1 = omega arith in rw j wide.1),
              ))
          | inr (b, g) ↦ rw g (
              advance-in-Post src X from _ s₂ _ (get_elem?-lt src.bytes s₂.index g)
                (advance-Scanning src c f h)
                λ s₃ h₃ m₃.
                  if_both (λ u. Scanning src from u × (left src u < n))
                    (not (is_hex a) || not (is_hex b))
                    (λ _. (report-Scanning src _ _ from h₃, omega (arith, advance_over-lt src c s)))
                    (λ _. (h₃, omega (arith, advance_over-lt src c s))))
        ]

  hex_escape-Post :
      (i n : ℕ) (s : Lexer)
      → s.index ≡ i + 1
      → get_elem? src.bytes i ≡ some b'\\'
      → get_elem? src.bytes s.index ≡ some b'x'
      → left src s ≤ n
      → Scanning src from s
      → InString n (hex_escape src from s)
  unfolding hex_escape
  hex_escape-Post i n s at back x m h =
      advance-bind-Post src X _ s _ (get_elem?-lt src.bytes s.index x) λ c f.
        let s₁ = advance_over src c s in
        let h₁ = advance-Scanning src c f h in
        let at₁ : s₁.index ≡ i + 2 = ground (arith, advance_over-plain src c s) in
        if_both (InString n) (leb (length src.bytes) (s₁.index + 1))
          (λ _. report-Scanning src _ _ from h₁)
          (λ e.
            hex_digits-Post i n s₁ at₁ back (rw at at x) (leb→lt _ _ e)
              (omega (arith, advance_over-lt src c s, get_elem?-lt src.bytes s.index f)) h₁)

  -- Behind a backslash at `i`.
  string_escape-Post :
      (i n : ℕ) (s : Lexer)
      → s.index ≡ i + 1
      → get_elem? src.bytes i ≡ some b'\\'
      → left src s ≤ n
      → Scanning src from s
      → InString n (string_escape src from s)
  unfolding string_escape
  string_escape-Post i n s at back m h =
      let u = escape_error src from s in
      eof-Post src X _ s _ _ h λ lt. peek-Post src X _ s _ lt λ b e.
        if_both (InString n) (b == b'x') (λ x. hex_escape-Post i n s at back (ground arith) m h)
          (λ _.
            if_both (InString n) (is_simple_escape b)
              (λ _. advance-in-Post src X from _ s _ lt h λ s' h' m'. (h', omega arith))
              (λ _.
                advance-in-Post src X from _ u _ lt (report-Scanning src _ _ from h)
                  λ s' h' m'. (h', omega arith)))

  string_round-Post :
      (s : Lexer) → Scanning src from s → InString (left src s) (string_round src from s)
  unfolding string_round
  string_round-Post s h =
      let i = s.index in
      eof-Post src X _ s _ _ h λ lt. peek-Post src X _ s _ lt λ b e.
        if_both (InString (left src s)) (b == b'"')
          (λ _.
            advance-in-Post src X from _ s _ lt h
              λ s' h' m. push-Pushed src str_lit _ h' refl (λ w q. cc) (λ q. cc))
          (λ _.
            if_both (InString (left src s)) (b == b'\\')
              (λ q. advance-bind-Post src X _ s _ lt λ c f.
                let back : get_elem? src.bytes i ≡ some b'\\' = e ∙ ap some (ground arith) in
                string_escape-Post i (left src s) (advance_over src c s)
                  (plain c (ap_some (sym f ∙ back))) back (omega (arith, advance_over-lt src c s))
                  (advance-Scanning src c f h))
              (λ _.
                if_both (InString (left src s)) (b == b'\n' || b == b'\r') (λ _. h)
                  (λ _. advance-in-Post src X from _ s _ lt h λ s' h' m. (h', omega arith))))
    where
      ap_some : {a b : ℕ} → some a ≡ some b → a ≡ b
      ap_some q = cc

      plain : (c : ℕ) → c ≡ b'\\' → (advance_over src c s).index ≡ s.index + 1
      plain c q = ground (arith, advance_over-plain src c s)

  pub string_loop-Post :
      (s : Lexer) → Scanning src from s → Post X Ended (loop (fuel src) (string_round src from) s)
  string_loop-Post s h =
      loop-Post X (Scanning src from) Ended (left src) (string_round src from) string_round-Post
        (fuel src) s (left-lt-fuel src s) h

  -- A scanner that met no end pushes an `Error` token, and reports it.
  pub unterminated-Pushed :
      (code message : Bytes) (s : Lexer)
      → Scanning src from s
      → Pushed src from.byte (unterminated src code message from s)
  unterminated-Pushed code message s h =
      push-Pushed src error _ (report-Scanning src code message from h) refl (λ w q. cc)
        λ _. HasSpan-report src code message from s

  comment_round-Post :
      (s : Lexer)
      → Scanning src from s
      → Post X
          (Round (Scanning src from) (Pushed src from.byte) (left src) (left src s))
          (comment_round src from s)
  unfolding comment_round
  comment_round-Post s h = eof-Post src X _ s _ _ (unterminated-Pushed _ _ s h) λ lt.
      peek-Post src X _ s _ lt λ b e.
        if_both (Post X _) (b == b'*' && is_byte (peek_next src s) b'/')
          (λ q.
            advance_two-Post src X _ s _ b e (ground arith)
              (is_byte-lt src.bytes (s.index + 1) b'/' ((and-eq-true_iff _ _).0 q).1)
              λ c f.
                push-Pushed src comment _ (advance_two-Scanning src from s b c e (ground arith) f h)
                  refl (λ w r. cc) (λ r. cc))
          (λ _. advance-in-Post src X from _ s _ lt h λ s' h' m. (h', omega arith))

  pub comment_loop-Post :
      (s : Lexer)
      → Scanning src from s
      → Post X (Pushed src from.byte) (loop (fuel src) (comment_round src from) s)
  comment_loop-Post s h =
      loop-Post X (Scanning src from) (Pushed src from.byte) (left src) (comment_round src from)
        comment_round-Post (fuel src) s (left-lt-fuel src s) h
