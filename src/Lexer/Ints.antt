-- ===== src/Lexer/Ints.antt =====
-- The scanner of integers in lexer.rs pushes its token.
use mathlib.Core.Bool.{false≢true}
use native.Mathlib.Numerals.{add-one}
use snap_surf_lang.Prelude.{
  ℕ, ◌+◌, ◌<◌, text, true, false, not, ◌||◌, ◌≡◌, refl, sym, ◌∙◌, inl, inr, Option, none,
  Option-cases, ◌==◌, if◌then◌else◌, if_both, Bool-cases, within, loop-next, next, length,
  get_elem?, get_elem?-lt, some, done, ◌>>=◌, loop, Post-bind, arith,
}
use snap_surf_lang.Diagnostic.{Pos}
use snap_surf_lang.Source.{SourceFile}
use snap_surf_lang.Token.{int_lit}
use snap_surf_lang.Lexer.Cursor.{
  Lexer, pos, is_eof, peek_next, advance_over, fuel, push, lexeme_from,
}
use snap_surf_lang.Lexer.Scan.{
  lex_int, int_base, int_round, int_start, is_below, digit_value, emit_int_error, IntScan,
}
use snap_surf_lang.Lexer.Positions.{advance-eq, advance_over-plain, advance_over-lt}
use snap_surf_lang.Lexer.Tiles.{
  Ready, Pushed, Scanning, begin-Scanning, advance-Scanning, report-Scanning,
}
use snap_surf_lang.Lexer.Loops.{
  advance-bind-Post, IsPlain, int_loop-Post, InInt, left, left-lt-fuel,
}
use snap_surf_lang.Lexer.Tokens.{X, Lexes, push_free}

decimal_digit : (b : ℕ) → within b'0' b'9' b ≡ true → is_below 10 (digit_value b) ≡ true
unfolding digit_value
decimal_digit b d = ground arith

int_base-decimal : (b : ℕ) (n : Option ℕ) → (int_base b n).1 ≡ false → (int_base b n).0 ≡ 10
unfolding int_base
int_base-decimal b n h = ground arith

int_base-none : (b : ℕ) → (int_base b none).1 ≡ false
unfolding int_base
int_base-none b = ground arith

module _ (src : SourceFile) where
  -- The check behind the digits.
  abbrev checked : Pos → Lexer → IntScan → Lexer
  checked from s₁ t =
      if not t.saw_digit || t.prev_was_underscore || s₁.index == t.lexer.index
      then emit_int_error src (text "invalid integer literal") from t.lexer
      else t.lexer

  int_end :
      (base n : ℕ) (from : Pos) (s₁ : Lexer) (t₁ : IntScan)
      → left src t₁.lexer < n
      → InInt src (X src) from t₁
      → Lexes src from.byte (
          loop n (int_round src base from) t₁ >>= λ t.
          done
            (push src int_lit (lexeme_from src from (checked from s₁ t)) from (checked from s₁ t)))
  int_end base n from s₁ t₁ m h =
      Post-bind (X src) (InInt src (X src) from) (Pushed src from.byte)
        (loop n (int_round src base from) t₁) _ (int_loop-Post src (X src) from base n t₁ m h)
        λ t k.
          push_free src int_lit from (checked from s₁ t) (refl, (λ x. refl), λ q. cc)
            (if_both (Scanning src from)
              (not t.saw_digit || t.prev_was_underscore || s₁.index == t.lexer.index)
              (λ _. report-Scanning src _ _ from k) (λ _. k))

  abbrev after_digit : Lexer → IntScan
  after_digit s = record {
    lexer = s;
    prev_was_digit = true;
    prev_was_underscore = false;
    saw_digit = true;
  }

  -- A decimal literal: the loop reads its first digit.
  first_digit :
      (s : Lexer) (b : ℕ)
      → get_elem? src.bytes s.index ≡ some b
      → within b'0' b'9' b ≡ true
      → int_round src 10 (pos s) (int_start s) ≡ done (next (after_digit (advance_over src b s)))
  unfolding int_round
  first_digit s b e d =
      let lt = get_elem?-lt src.bytes s.index e in
      rw (in_file lt, e, decimal_digit b d, advance-eq src b s e)
    where
      in_file : s.index < length src.bytes → is_eof src s ≡ false
      in_file lt = ground arith

  pub lex_int-Pushed :
      (s : Lexer) (b : ℕ)
      → get_elem? src.bytes s.index ≡ some b
      → IsPlain b
      → within b'0' b'9' b ≡ true
      → Ready src s
      → Lexes src s.index (lex_int src s)
  unfolding lex_int
  lex_int-Pushed s b e p d r =
      let n = peek_next src s in
      rw e (elim (Bool-cases (int_base b n).1) [
        | inl prefixed ↦
            rw (prefixed, advance-eq src b s e)
              (advance-bind-Post src (X src) (Pushed src s.index) (advance_over src b s) _
                (second prefixed)
                λ c f.
                  let s₂ = advance_over src c (advance_over src b s) in
                  int_end (int_base b n).0 (fuel src) (pos s) s₂ (int_start s₂)
                    (left-lt-fuel src s₂) (advance-Scanning src c f (begin-Scanning src b e r)))
        | inr decimal ↦
            rw
              (
                decimal,
                int_base-decimal b n decimal,
                add-one,
                loop-next (length src.bytes) (int_round src 10 (pos s)) (int_start s) _
                    (first_digit s b e d),
              )
              (int_end 10 (length src.bytes) (pos s) s (after_digit (advance_over src b s))
                (omega (arith, advance_over-lt src b s, get_elem?-lt src.bytes s.index e))
                (begin-Scanning src b e r))
      ])
    where
      second :
          (int_base b (peek_next src s)).1 ≡ true → (advance_over src b s).index < length src.bytes
      second q = elim (Option-cases (peek_next src s)) [
        | inl none_is ↦ absurd (false≢true (sym (int_base-none b) ∙ rw none_is at q))
        | inr (c, f) ↦
            omega
              (arith, advance_over-plain src b s p.0 p.1, get_elem?-lt src.bytes (s.index + 1) f)
      ]
