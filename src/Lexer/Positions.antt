-- ===== src/Lexer/Positions.antt =====
-- Where a byte offset of the file lies: its line and column, counted from the bytes before it, and
-- that `advance` of lexer.rs keeps count.
use native.Mathlib.Numerals.{add-one}
use mathlib.Core.Bool.{false≢true}
use snap_surf_lang.Prelude.{
  ℕ, zero, suc, ◌+◌, ◌-◌, ◌<◌, ◌≤◌, Bytes, Bool, true, false, not, ◌&&◌, ◌||◌, [], ◌∷◌, Option,
  none, some, ◌≡◌, ap, ◌∙◌, inl, inr, Option-cases, ◌==◌, is_byte, if◌then◌else◌, length, get_elem?,
  get_elem?-lt, slice, take, drop, done, arith,
}
use snap_surf_lang.Diagnostic.{Pos}
use snap_surf_lang.Source.{SourceFile}
use snap_surf_lang.Lexer.Cursor.{Lexer, pos, advance_over, advance}

-- The byte at `i` ends a line: a line feed, or a carriage return with no line feed behind it.
unfoldable pub ends_line : Bytes → ℕ → Bool
ends_line bs i =
    is_byte (get_elem? bs i) b'\n'
    || (is_byte (get_elem? bs i) b'\r' && not (is_byte (get_elem? bs (i + 1)) b'\n'))

-- One more than the line ends before the offset.
unfoldable pub line_at : Bytes → ℕ → ℕ
line_at bs zero = 1
line_at bs (suc i) = (if ends_line bs i then 1 else 0) + line_at bs i

-- One more than the bytes behind the last line end before the offset.
unfoldable pub column_at : Bytes → ℕ → ℕ
column_at bs zero = 1
column_at bs (suc i) = let c = column_at bs i in if ends_line bs i then 1 else c + 1

abbrev pub pos_at : Bytes → ℕ → Pos
pos_at bs i = record { byte = i; line = line_at bs i; column = column_at bs i }

line_at-add :
    (bs : Bytes) (i : ℕ) → line_at bs (i + 1) ≡ (if ends_line bs i then 1 else 0) + line_at bs i
unfolding line_at
line_at-add bs i = rw add-one

column_at-add :
    (bs : Bytes) (i : ℕ) → column_at bs (i + 1) ≡ (if ends_line bs i then 1 else column_at bs i + 1)
unfolding column_at
column_at-add bs i = rw add-one

pub is_byte-lt : (bs : Bytes) (i b : ℕ) → is_byte (get_elem? bs i) b ≡ true → i < length bs
is_byte-lt bs i b h = elim (Option-cases (get_elem? bs i)) [
  | inl e ↦ absurd (false≢true (rw e at h))
  | inr (c, e) ↦ get_elem?-lt bs i e
]

pub is_byte-eq : (o : Option ℕ) (b : ℕ) → is_byte o b ≡ true → o ≡ some b
is_byte-eq none b h = cc
is_byte-eq (some c) b h = ground arith

module _ (src : SourceFile) where
  -- The cursor stands in the file, and its line and column are those of its offset.
  pub record IsCursor (s : Lexer) : Type 0 where
    pub in_file : s.index ≤ length src.bytes
    pub line_is : s.line ≡ line_at src.bytes s.index
    pub column_is : s.column ≡ column_at src.bytes s.index

  pub pos-IsCursor : {s : Lexer} → IsCursor s → pos s ≡ pos_at src.bytes s.index
  pos-IsCursor c = ground arith

  pub advance_over-lt : (b : ℕ) (s : Lexer) → s.index < (advance_over src b s).index
  unfolding advance_over
  advance_over-lt b s = ground arith

  -- Over any byte but a line end the cursor moves by one.
  pub advance_over-plain :
      (b : ℕ) (s : Lexer)
      → (b == b'\n') ≡ false
      → (b == b'\r') ≡ false
      → (advance_over src b s).index ≡ s.index + 1
  unfolding advance_over
  advance_over-plain b s h k = ground arith

  -- A move by more than one byte is over a carriage return and a line feed.
  pub advance_over-wide :
      (b : ℕ) (s : Lexer)
      → s.index + 1 < (advance_over src b s).index
      → (b ≡ b'\r')
        × (get_elem? src.bytes (s.index + 1) ≡ some b'\n')
        × ((advance_over src b s).index ≡ s.index + 2)
  unfolding advance_over
  advance_over-wide b s h = ground (arith, is_byte-eq (get_elem? src.bytes (s.index + 1)) b'\n')

  pub advance_over-IsCursor :
      {s : Lexer} (b : ℕ)
      → get_elem? src.bytes s.index ≡ some b
      → IsCursor s
      → IsCursor (advance_over src b s)
  unfolding advance_over ends_line
  advance_over-IsCursor {s} b e c =
      let i = s.index in
      ground (
        arith,
        line_at-add src.bytes i,
        line_at-add src.bytes (i + 1),
        column_at-add src.bytes i,
        column_at-add src.bytes (i + 1),
        get_elem?-lt src.bytes i e,
        is_byte-lt src.bytes (i + 1) b'\n',
      )

  -- Both fields of the state are left alone.
  pub advance_over-tokens : (b : ℕ) (s : Lexer) → (advance_over src b s).tokens ≡ s.tokens
  unfolding advance_over
  advance_over-tokens b s = ground arith

  pub advance_over-diagnostics :
      (b : ℕ) (s : Lexer) → (advance_over src b s).diagnostics ≡ s.diagnostics
  unfolding advance_over
  advance_over-diagnostics b s = ground arith

  pub advance-eq :
      (b : ℕ) (s : Lexer)
      → get_elem? src.bytes s.index ≡ some b
      → advance src s ≡ done (advance_over src b s)
  unfolding advance
  advance-eq b s e = rw e

take-drop :
    (n : ℕ) (bs : Bytes) (i : ℕ) {b : ℕ}
    → get_elem? bs i ≡ some b
    → take (suc n) (drop i bs) ≡ b ∷ take n (drop (suc i) bs)
take-drop n [] i e = ground arith
take-drop n (x ∷ bs) zero e = ground arith
take-drop n (x ∷ bs) (suc i) e = take-drop n bs i e

pub slice_one : (bs : Bytes) (i : ℕ) {b : ℕ} → get_elem? bs i ≡ some b → slice i (i + 1) bs ≡ b ∷ []
slice_one bs i e = let n : i + 1 - i ≡ 1 = omega arith in rw n (take-drop 0 bs i e)

pub slice_two :
    (bs : Bytes) (i : ℕ) {b c : ℕ}
    → get_elem? bs i ≡ some b
    → get_elem? bs (i + 1) ≡ some c
    → slice i (i + 1 + 1) bs ≡ b ∷ c ∷ []
slice_two bs i {b} e f =
    let n : i + 1 + 1 - i ≡ 2 = omega arith in
    rw n (take-drop 1 bs i e ∙ ap (λ r. b ∷ r) (take-drop 0 bs (suc i) (rw add-one at f)))
