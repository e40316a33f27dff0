-- ===== src/Lexer/Tiles.antt =====
-- What the tokens of a file are, for lexer.rs: they cover its bytes in order, with blanks between
-- them, and each `Error` token has a diagnostic. The states between tokens and inside one.
use snap_surf_lang.Prelude.{
  ℕ, ◌+◌, ◌<◌, ◌≤◌, Bytes, text, List, [], ◌∷◌, ◌++◌, some, ◌≡◌, ◌⊎◌, inl, inr, refl, ◌==◌, ◌||◌,
  true, length, get_elem?, slice, All, All-concat, arith,
}
use snap_surf_lang.Diagnostic.{Pos, Span, Diagnostic}
use snap_surf_lang.Source.{SourceFile}
use snap_surf_lang.Source.Lossy.{from_utf8_lossy}
use snap_surf_lang.Token.{TokenKind, newline, error, Token}
use snap_surf_lang.Token.Keywords.{spelling}
use snap_surf_lang.Lexer.Cursor.{Lexer, initial, pos, span_from, advance_over, push, report}
use snap_surf_lang.Lexer.Positions.{
  line_at, column_at, pos_at, IsCursor, pos-IsCursor, advance_over-lt, advance_over-IsCursor,
  advance_over-plain, advance_over-tokens, advance_over-diagnostics,
}

-- A line end is written as a line feed whatever its bytes are; any other lexeme is its slice.
abbrev pub lexeme_of : TokenKind → Bytes → Bytes
lexeme_of newline bs = text "\n"
lexeme_of _ bs = from_utf8_lossy bs

-- One of the diagnostics has the span.
abbrev pub HasSpan : Span → List Diagnostic → Type 0
HasSpan sp [] = ⊥
HasSpan sp (d ∷ ds) = (d.span ≡ sp) ⊎ HasSpan sp ds

abbrev pub IsReported : List Diagnostic → Token → Type 0
IsReported ds t = t.kind ≡ error → HasSpan t.span ds

abbrev pub ErrorsReported : List Token → List Diagnostic → Type 0
ErrorsReported ts ds = All (IsReported ds) ts

HasSpan-concat :
    (sp : Span) (ds : List Diagnostic) (d : Diagnostic) → HasSpan sp ds → HasSpan sp (ds ++ d ∷ [])
HasSpan-concat sp (e ∷ ds) d (inl h) = inl h
HasSpan-concat sp (e ∷ ds) d (inr h) = inr (HasSpan-concat sp ds d h)
HasSpan-concat sp [] d h = absurd h

HasSpan-last :
    (sp : Span) (ds : List Diagnostic) (d : Diagnostic) → d.span ≡ sp → HasSpan sp (ds ++ d ∷ [])
HasSpan-last sp [] d e = inl e
HasSpan-last sp (x ∷ ds) d e = inr (HasSpan-last sp ds d e)

ErrorsReported-report :
    (ts : List Token) (ds : List Diagnostic) (d : Diagnostic)
    → ErrorsReported ts ds
    → ErrorsReported ts (ds ++ d ∷ [])
ErrorsReported-report [] ds d h = tt
ErrorsReported-report (t ∷ ts) ds d (h, r) =
    ((λ e. HasSpan-concat t.span ds d (h e)), ErrorsReported-report ts ds d r)

module _ (src : SourceFile) where
  -- The token lies in the file where its span says, is not empty, and its lexeme is its slice,
  -- which for a kind with one spelling is that spelling.
  pub record Fits (t : Token) : Type 0 where
    pub file_is : t.span.source_file_id ≡ src.id
    pub start_is : t.span.start ≡ pos_at src.bytes t.span.start.byte
    pub end_is : t.span.end ≡ pos_at src.bytes t.span.end.byte
    pub nonempty : t.span.start.byte < t.span.end.byte
    pub in_file : t.span.end.byte ≤ length src.bytes
    pub lexeme_is : t.lexeme ≡ lexeme_of t.kind (slice t.span.start.byte t.span.end.byte src.bytes)
    pub spelled : (w : Bytes) → spelling t.kind ≡ some w → t.lexeme ≡ w

  abbrev pub IsBlank : ℕ → Type 0
  IsBlank i = (get_elem? src.bytes i ≡ some b' ') ⊎ (get_elem? src.bytes i ≡ some b'\t')

  -- The tokens cover the first `i` bytes, in order and apart from blanks.
  pub data Tiles : List Token → ℕ → Type 0 where
    start : Tiles [] 0
    blank : {ts : List Token} {i j : ℕ} → Tiles ts i → IsBlank i → j ≡ i + 1 → Tiles ts j
    token :
        {ts us : List Token} {i : ℕ} (t : Token)
        → Tiles ts t.span.start.byte
        → Fits t
        → us ≡ ts ++ t ∷ []
        → i ≡ t.span.end.byte
        → Tiles us i

  -- Between two tokens.
  pub record Ready (s : Lexer) : Type 0 where
    pub cursor : IsCursor src s
    pub tiles : Tiles s.tokens s.index
    pub errors : ErrorsReported s.tokens s.diagnostics

  -- Inside a token that begins at `from`, of which a byte is read.
  pub record Scanning (from : Pos) (s : Lexer) : Type 0 where
    pub cursor : IsCursor src s
    pub from_is : from ≡ pos_at src.bytes from.byte
    pub begun : from.byte < s.index
    pub tiles : Tiles s.tokens from.byte
    pub errors : ErrorsReported s.tokens s.diagnostics

  -- Between two tokens, past the offset `i`.
  pub record Pushed (i : ℕ) (s : Lexer) : Type 0 where
    pub ready : Ready s
    pub moved : i < s.index

  pub initial-Ready : Ready initial
  unfolding line_at column_at
  initial-Ready = record {
    cursor = record { in_file = omega arith; line_is = refl; column_is = refl };
    tiles = start;
    errors = tt;
  }

  pub begin-Scanning :
      {s : Lexer} (b : ℕ)
      → get_elem? src.bytes s.index ≡ some b
      → Ready s
      → Scanning (pos s) (advance_over src b s)
  begin-Scanning {s} b e r = record {
    cursor = advance_over-IsCursor src b e r.cursor;
    from_is = pos-IsCursor src r.cursor;
    begun = advance_over-lt src b s;
    tiles = rw (advance_over-tokens src b s) r.tiles;
    errors = rw (advance_over-tokens src b s, advance_over-diagnostics src b s) r.errors;
  }

  pub blank-Pushed :
      {s : Lexer} (b : ℕ)
      → get_elem? src.bytes s.index ≡ some b
      → (b == b' ' || b == b'\t') ≡ true
      → Ready s
      → Pushed s.index (advance_over src b s)
  blank-Pushed {s} b e h r = record {
    ready = record {
      cursor = advance_over-IsCursor src b e r.cursor;
      tiles =
          rw (advance_over-tokens src b s)
            (blank r.tiles (ground arith) (ground (arith, advance_over-plain src b s)));
      errors = rw (advance_over-tokens src b s, advance_over-diagnostics src b s) r.errors;
    };
    moved = advance_over-lt src b s;
  }

  pub advance-Scanning :
      {from : Pos} {s : Lexer} (b : ℕ)
      → get_elem? src.bytes s.index ≡ some b
      → Scanning from s
      → Scanning from (advance_over src b s)
  advance-Scanning {from} {s} b e r = record {
    cursor = advance_over-IsCursor src b e r.cursor;
    from_is = r.from_is;
    begun = omega (arith, advance_over-lt src b s);
    tiles = rw (advance_over-tokens src b s) r.tiles;
    errors = rw (advance_over-tokens src b s, advance_over-diagnostics src b s) r.errors;
  }

  pub report-Scanning :
      {from : Pos} {s : Lexer} (code message : Bytes) (at : Pos)
      → Scanning from s
      → Scanning from (report src code message at s)
  report-Scanning {from} {s} code message at r = record {
    cursor = record {
      in_file = r.cursor.in_file;
      line_is = r.cursor.line_is;
      column_is = r.cursor.column_is;
    };
    from_is = r.from_is;
    begun = r.begun;
    tiles = r.tiles;
    errors = ErrorsReported-report s.tokens s.diagnostics _ r.errors;
  }

  -- A token of a kind other than `Error` may be pushed with its slice and spelling.
  pub push-Pushed :
      {from : Pos} {s : Lexer} (k : TokenKind) (t : Bytes)
      → Scanning from s
      → t ≡ lexeme_of k (slice from.byte s.index src.bytes)
      → ((w : Bytes) → spelling k ≡ some w → t ≡ w)
      → (k ≡ error → HasSpan (span_from src from s) s.diagnostics)
      → Pushed from.byte (push src k t from s)
  push-Pushed {from} {s} k t r l sp e = record {
    ready = record {
      cursor = record {
        in_file = r.cursor.in_file;
        line_is = r.cursor.line_is;
        column_is = r.cursor.column_is;
      };
      tiles =
          token _ r.tiles
            (record {
              file_is = refl;
              start_is = r.from_is;
              end_is = pos-IsCursor src r.cursor;
              nonempty = r.begun;
              in_file = r.cursor.in_file;
              lexeme_is = l;
              spelled = sp;
            })
            refl refl;
      errors = All-concat (IsReported s.diagnostics) s.tokens _ r.errors e;
    };
    moved = r.begun;
  }

  -- The last thing reported has the span from the start of the token.
  pub HasSpan-report :
      (code message : Bytes) (from : Pos) (s : Lexer)
      → HasSpan (span_from src from s) (report src code message from s).diagnostics
  HasSpan-report code message from s = HasSpan-last _ s.diagnostics _ refl
