-- ===== src/Lexer/Cursor.antt =====
-- The lexer's state and the operations that read and move it (`Lexer::advance` to `span_from`).
-- The two borrowed fields `source` and `bytes` never change: they are the parameter `src`.
use snap_surf_lang.Prelude.{
  ℕ, ◌+◌, Bytes, Bool, List, [], ◌∷◌, ◌++◌, Option, leb, ◌==◌, is_byte, if◌then◌else◌, length,
  get_elem?, slice, Run, done, ◌>>=◌, or_panic, Flow, next, exit, loop,
}
use snap_surf_lang.Diagnostic.{Pos, Span, Diagnostic, error_at}
use snap_surf_lang.Source.{SourceFile}
use snap_surf_lang.Source.Lossy.{from_utf8_lossy}
use snap_surf_lang.Token.{TokenKind, Token}

pub record Lexer : Type 0 where
  pub index : ℕ
  pub line : ℕ
  pub column : ℕ
  pub tokens : List Token
  pub diagnostics : List Diagnostic

abbrev pub initial : Lexer
initial = record { index = 0; line = 1; column = 1; tokens = []; diagnostics = [] }

abbrev pub pos : Lexer → Pos
pos s = record { byte = s.index; line = s.line; column = s.column }

module _ (src : SourceFile) where
  abbrev pub span_from : Pos → Lexer → Span
  span_from start s = record { source_file_id = src.id; start = start; end = pos s }

  abbrev pub empty_span : Lexer → Span
  empty_span s = span_from (pos s) s

  abbrev pub is_eof : Lexer → Bool
  is_eof s = leb (length src.bytes) s.index

  abbrev pub peek : Lexer → Run ℕ
  peek s = or_panic (get_elem? src.bytes s.index)

  abbrev pub peek_next : Lexer → Option ℕ
  peek_next s = get_elem? src.bytes (s.index + 1)

  -- The state after reading the byte `b`.
  unfoldable pub advance_over : ℕ → Lexer → Lexer
  advance_over b s =
      let i = s.index + 1 in
      if b == b'\n'
      then record s { index = i; line = s.line + 1; column = 1 }
      else if b == b'\r'
      then record s {
        index = if is_byte (get_elem? src.bytes i) b'\n' then i + 1 else i;
        line = s.line + 1;
        column = 1;
      }
      else record s { index = i; column = s.column + 1 }

  -- Its result, the byte, is read by no caller, and is left out.
  unfoldable pub advance : Lexer → Run Lexer
  advance s = do b ← peek s; done (advance_over b s)

  -- The text of the bytes from `start` up to the cursor.
  abbrev pub lexeme_from : Pos → Lexer → Bytes
  lexeme_from start s = from_utf8_lossy (slice start.byte s.index src.bytes)

  abbrev pub push : TokenKind → Bytes → Pos → Lexer → Lexer
  push k t start s = record s {
    tokens = s.tokens ++ record { kind = k; lexeme = t; span = span_from start s } ∷ [];
  }

  abbrev pub report : Bytes → Bytes → Pos → Lexer → Lexer
  report code message start s = record s {
    diagnostics = s.diagnostics ++ error_at code message src.path src.id (span_from start s) ∷ [];
  }

  -- `while !self.is_eof() && test(self.peek()) { self.advance(); }`
  unfoldable pub skip_round : (ℕ → Bool) → Lexer → Run (Flow Lexer Lexer)
  skip_round test s =
      if is_eof s
      then done (exit s)
      else (do b ← peek s; if test b then (do s' ← advance s; done (next s')) else done (exit s))

  -- The fuel of every loop: more than the bytes that are left.
  abbrev pub fuel : ℕ
  fuel = length src.bytes + 1

  unfoldable pub skip_while : (ℕ → Bool) → Lexer → Run Lexer
  skip_while test s = loop fuel (skip_round test) s
