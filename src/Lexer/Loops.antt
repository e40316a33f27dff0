-- ===== src/Lexer/Loops.antt =====
-- The loops of lexer.rs stay inside the token and end: `skip_while`, and the digits of an integer.
use snap_surf_lang.Prelude.{
  ℕ, ◌+◌, ◌-◌, ◌<◌, text, Bool, true, false, ◌≡◌, refl, leb→lt, ◌==◌, if◌then◌else◌, if_both,
  length, get_elem?, some, get_elem?-some, Run, ◌>>=◌, Post, Round, loop, loop-Post, arith,
}
use snap_surf_lang.Diagnostic.{Pos}
use snap_surf_lang.Source.{SourceFile}
use snap_surf_lang.Lexer.Cursor.{
  Lexer, is_eof, peek, advance, advance_over, skip_round, skip_while, fuel,
}
use snap_surf_lang.Lexer.Scan.{
  IntScan, int_round, is_below, digit_value, is_alphanumeric, emit_int_error,
}
use snap_surf_lang.Lexer.Positions.{advance-eq, advance_over-plain, advance_over-lt}
use snap_surf_lang.Lexer.Tiles.{Scanning, advance-Scanning, report-Scanning}

-- The bytes that are left.
abbrev pub left : SourceFile → Lexer → ℕ
left src s = length src.bytes - s.index

pub left-lt-fuel : (src : SourceFile) (s : Lexer) → left src s < fuel src
left-lt-fuel src s = omega arith

abbrev pub IsPlain : ℕ → Type 0
IsPlain b = ((b == b'\n') ≡ false) × ((b == b'\r') ≡ false)

pub advance_two-Scanning :
    (src : SourceFile) (from : Pos) (s : Lexer) (b c : ℕ)
    → get_elem? src.bytes s.index ≡ some b
    → IsPlain b
    → get_elem? src.bytes (s.index + 1) ≡ some c
    → Scanning src from s
    → Scanning src from (advance_over src c (advance_over src b s))
advance_two-Scanning src from s b c e (p, q) f h =
    advance-Scanning src c (rw (advance_over-plain src b s p q) f) (advance-Scanning src b e h)

module _ (src : SourceFile) (X : Type 0) where
  -- Reading on where the file goes on: the byte is known to what follows.
  pub peek-Post {ℓ} :
      {A : Type ℓ} (Q : A → Type 0) (s : Lexer) (k : ℕ → Run A)
      → s.index < length src.bytes
      → ((b : ℕ) → get_elem? src.bytes s.index ≡ some b → Post X Q (k b))
      → Post X Q (peek src s >>= k)
  peek-Post Q s k h f = let (b, e) = get_elem?-some src.bytes s.index h in rw e (f b e)

  pub advance-bind-Post {ℓ} :
      {A : Type ℓ} (Q : A → Type 0) (s : Lexer) (k : Lexer → Run A)
      → s.index < length src.bytes
      → ((b : ℕ) → get_elem? src.bytes s.index ≡ some b → Post X Q (k (advance_over src b s)))
      → Post X Q (advance src s >>= k)
  unfolding advance
  advance-bind-Post Q s k h f = let (b, e) = get_elem?-some src.bytes s.index h in rw e (f b e)

  -- Two bytes, the first of them no line end.
  pub advance_two-Post {ℓ} :
      {A : Type ℓ} (Q : A → Type 0) (s : Lexer) (k : Lexer → Run A) (b : ℕ)
      → get_elem? src.bytes s.index ≡ some b
      → IsPlain b
      → s.index + 1 < length src.bytes
      → ((c : ℕ)
          → get_elem? src.bytes (s.index + 1) ≡ some c
          → Post X Q (k (advance_over src c (advance_over src b s))))
      → Post X Q (advance src s >>= λ s₁. advance src s₁ >>= k)
  advance_two-Post Q s k b e (p, q) lt f =
      let s₁ = advance_over src b s in
      let (c, g) = get_elem?-some src.bytes (s.index + 1) lt in
      rw (advance-eq src b s e)
        (rw (advance-eq src c s₁ (rw (advance_over-plain src b s p q) g)) (f c g))

  -- The two ways of a loop's test `!self.is_eof()`.
  pub eof-Post {ℓ} :
      {A : Type ℓ} (Q : A → Type 0) (s : Lexer) (x y : Run A)
      → Post X Q x
      → (s.index < length src.bytes → Post X Q y)
      → Post X Q (if is_eof src s then x else y)
  eof-Post Q s x y hx hy = if_both (Post X Q) (is_eof src s) (λ _. hx) (λ e. hy (leb→lt _ _ e))

  module _ (from : Pos) where
    -- `advance` inside the token.
    pub advance-in-Post {ℓ} :
        {A : Type ℓ} (Q : A → Type 0) (s : Lexer) (k : Lexer → Run A)
        → s.index < length src.bytes
        → Scanning src from s
        → ((s' : Lexer) → Scanning src from s' → s.index < s'.index → Post X Q (k s'))
        → Post X Q (advance src s >>= k)
    advance-in-Post Q s k lt h f =
        advance-bind-Post Q s k lt
          λ b e. f (advance_over src b s) (advance-Scanning src b e h) (advance_over-lt src b s)

    skip_round-Post :
        (test : ℕ → Bool) (s : Lexer)
        → Scanning src from s
        → Post X
            (Round (Scanning src from) (Scanning src from) (left src) (left src s))
            (skip_round src test s)
    unfolding skip_round
    skip_round-Post test s h = eof-Post _ s _ _ h λ lt. peek-Post _ s _ lt λ b e.
        if_both (Post X _) (test b) (λ _. advance-in-Post _ s _ lt h λ s' h' m. (h', omega arith))
          (λ _. h)

    pub skip_while-Post :
        (test : ℕ → Bool) (s : Lexer)
        → Scanning src from s
        → Post X (Scanning src from) (skip_while src test s)
    unfolding skip_while
    skip_while-Post test s h =
        loop-Post X (Scanning src from) (Scanning src from) (left src) (skip_round src test)
          (skip_round-Post test) (fuel src) s (left-lt-fuel src s) h

    abbrev pub InInt : IntScan → Type 0
    InInt t = Scanning src from t.lexer

    -- A digit, a misplaced separator or a bad digit: each is read, the last two with a report.
    int_round-Post :
        (base : ℕ) (t : IntScan)
        → InInt t
        → Post X
            (Round InInt InInt (λ u. left src u.lexer) (left src t.lexer))
            (int_round src base from t)
    unfolding int_round
    int_round-Post base t h =
        let s = t.lexer in
        let u =
          if t.prev_was_digit
          then s
          else emit_int_error src (text "invalid integer separator") from s in
        let v = emit_int_error src (text "invalid digit for integer base") from s in
        eof-Post _ s _ _ h λ lt. peek-Post _ s _ lt λ b e.
          if_both (Post X _) (is_below base (digit_value b))
            (λ _. advance-in-Post _ s _ lt h λ s' h' m. (h', omega arith))
            (λ _.
              if_both (Post X _) (b == b'_')
                (λ _.
                  advance-in-Post _ u _ (omega (arith, same_index t.prev_was_digit))
                    (if_both (Scanning src from) t.prev_was_digit (λ _. h)
                      (λ _. report-Scanning src _ _ from h))
                    λ s' h' m. (h', omega (arith, same_index t.prev_was_digit)))
                (λ _.
                  if_both (Post X _) (is_alphanumeric b)
                    (λ _.
                      advance-in-Post _ v _ lt (report-Scanning src _ _ from h)
                        λ s' h' m. (h', omega arith))
                    (λ _. h)))
      where
        same_index :
            (c : Bool)
            → (if c
                then t.lexer
                else emit_int_error src (text "invalid integer separator") from t.lexer).index
              ≡ t.lexer.index
        same_index true = refl
        same_index false = refl

    pub int_loop-Post :
        (base fuel : ℕ) (t : IntScan)
        → left src t.lexer < fuel
        → InInt t
        → Post X InInt (loop fuel (int_round src base from) t)
    int_loop-Post base fuel t m h =
        loop-Post X InInt InInt (λ u. left src u.lexer) (int_round src base from)
          (int_round-Post base) fuel t m h
