-- ===== src/Lexer/Scan.antt =====
-- The scanners of lexer.rs, one for each kind of token. `start` is the position of the token.
use snap_surf_lang.Prelude.{
  ℕ, ◌+◌, ◌-◌, Bytes, text, Bool, true, false, not, ◌&&◌, ◌||◌, Option, none, some, leb, ltb, ◌==◌,
  within, is_byte, if◌then◌else◌, length, get_elem?, Run, done, ◌>>=◌, Flow, next, exit, loop,
}
use snap_surf_lang.Diagnostic.{Pos}
use snap_surf_lang.Source.{SourceFile}
use snap_surf_lang.Token.{
  TokenKind, newline, ident, int_lit, str_lit, byte_lit, comment, error, keyword_kind,
}
use snap_surf_lang.Lexer.Cursor.{
  Lexer, pos, is_eof, peek, peek_next, advance, lexeme_from, push, report, fuel, skip_while,
}

-- `u8::is_ascii_alphanumeric`
abbrev pub is_alphanumeric : ℕ → Bool
is_alphanumeric b = within b'0' b'9' b || within b'a' b'z' b || within b'A' b'Z' b

unfoldable pub is_ident_rest : ℕ → Bool
is_ident_rest b = is_alphanumeric b || b == b'_'

unfoldable pub digit_value : ℕ → Option ℕ
digit_value b =
    if within b'0' b'9' b
    then some (b - b'0')
    else if within b'a' b'f' b
    then some (b - b'a' + 10)
    else if within b'A' b'F' b
    then some (b - b'A' + 10)
    else none

-- `digit_value(b).is_some_and(|v| v < base)`
abbrev pub is_below : ℕ → Option ℕ → Bool
is_below base none = false
is_below base (some v) = ltb v base

unfoldable pub is_hex : ℕ → Bool
is_hex b = is_below 16 (digit_value b)

abbrev pub unwrap_or {ℓ} : {A : Type ℓ} → A → Option A → A
unwrap_or d none = d
unwrap_or d (some a) = a

-- The base, and whether two bytes of prefix stand before the digits.
unfoldable pub int_base : ℕ → Option ℕ → ℕ × Bool
int_base b n =
    if b == b'0'
    then (if is_byte n b'x' || is_byte n b'X'
        then (16, true)
        else if is_byte n b'b' || is_byte n b'B'
        then (2, true)
        else if is_byte n b'o' || is_byte n b'O'
        then (8, true)
        else (10, false))
    else (10, false)

-- The variables of the loop over the digits.
pub record IntScan : Type 0 where
  pub lexer : Lexer
  pub prev_was_digit : Bool
  pub prev_was_underscore : Bool
  pub saw_digit : Bool

abbrev pub int_start : Lexer → IntScan
int_start s = record {
  lexer = s;
  prev_was_digit = false;
  prev_was_underscore = false;
  saw_digit = false;
}

-- How the loop of `lex_string` ends: by `return`, with the token pushed, or by `break`.
pub data StringEnd : Type 0 where
  returned : Lexer → StringEnd
  broke : Lexer → StringEnd

abbrev pub is_simple_escape : ℕ → Bool
is_simple_escape e =
    e == b'n' || e == b't' || e == b'r' || e == b'\\' || e == b'"' || e == b'\'' || e == b'0'

unfoldable pub in_byte_lit : ℕ → Bool
in_byte_lit b = not (b == b'\'') && not (b == b'\n') && not (b == b'\r')

unfoldable pub in_line : ℕ → Bool
in_line b = not (b == b'\n') && not (b == b'\r')

module _ (src : SourceFile) where
  unfoldable pub lex_newline : Lexer → Run Lexer
  lex_newline s = do
    b ← peek src s
    s' ←
        (if b == b'\r' && is_byte (peek_next src s) b'\n'
          then done (record s { index = s.index + 2; line = s.line + 1; column = 1 })
          else advance src s)
    done (push src newline (text "\n") (pos s) s')

  unfoldable pub lex_ident : Lexer → Run Lexer
  lex_ident s = do
    s₁ ← advance src s
    s₂ ← skip_while src is_ident_rest s₁
    let t = lexeme_from src (pos s) s₂
    done (push src (unwrap_or ident (keyword_kind t)) t (pos s) s₂)

  -- `emit_int_error`
  abbrev pub emit_int_error : Bytes → Pos → Lexer → Lexer
  emit_int_error message start s = report src (text "E1003") message start s

  unfoldable pub int_round : ℕ → Pos → IntScan → Run (Flow IntScan IntScan)
  int_round base start t = if is_eof src t.lexer then done (exit t) else (do
    b ← peek src t.lexer
    if is_below base (digit_value b)
        then (do
          s ← advance src t.lexer
          done (
              next (record t {
                lexer = s;
                prev_was_digit = true;
                prev_was_underscore = false;
                saw_digit = true;
              })))
        else if b == b'_'
        then (do
          s ← advance src (
              if t.prev_was_digit
              then t.lexer
              else emit_int_error (text "invalid integer separator") start t.lexer)
          done (next (record t { lexer = s; prev_was_digit = false; prev_was_underscore = true })))
        else if is_alphanumeric b
        then (do
          s ← advance src (emit_int_error (text "invalid digit for integer base") start t.lexer)
          done (next (record t { lexer = s })))
        else done (exit t))

  unfoldable pub lex_int : Lexer → Run Lexer
  lex_int s = do
    b ← peek src s
    let base = int_base b (peek_next src s)
    s₁ ← (if base.1 then (do s' ← advance src s; advance src s') else done s)
    t ← loop (fuel src) (int_round base.0 (pos s)) (int_start s₁)
    let s₂ = t.lexer
    let s₃ =
        if not t.saw_digit || t.prev_was_underscore || s₁.index == s₂.index
        then emit_int_error (text "invalid integer literal") (pos s) s₂
        else s₂
    done (push src int_lit (lexeme_from src (pos s) s₃) (pos s) s₃)

  abbrev pub escape_error : Pos → Lexer → Lexer
  escape_error start s = report src (text "E1001") (text "invalid escape sequence") start s

  -- Behind `\x`: two hexadecimal digits. The second `peek` is not guarded.
  unfoldable pub hex_escape : Pos → Lexer → Run (Flow Lexer StringEnd)
  hex_escape start s = do
    s₁ ← advance src s
    if leb (length src.bytes) (s₁.index + 1)
        then done (exit (broke (escape_error start s₁)))
        else (do
          a ← peek src s₁
          s₂ ← advance src s₁
          b ← peek src s₂
          s₃ ← advance src s₂
          done (next (if not (is_hex a) || not (is_hex b) then escape_error start s₃ else s₃)))

  -- Behind a backslash.
  unfoldable pub string_escape : Pos → Lexer → Run (Flow Lexer StringEnd)
  string_escape start s = if is_eof src s then done (exit (broke s)) else (do
    e ← peek src s
    if e == b'x'
        then hex_escape start s
        else if is_simple_escape e
        then (do s' ← advance src s; done (next s'))
        else (do s' ← advance src (escape_error start s); done (next s')))

  unfoldable pub string_round : Pos → Lexer → Run (Flow Lexer StringEnd)
  string_round start s = if is_eof src s then done (exit (broke s)) else (do
    b ← peek src s
    if b == b'"'
        then (do
          s' ← advance src s
          done (exit (returned (push src str_lit (lexeme_from src start s') start s'))))
        else if b == b'\\'
        then (do s' ← advance src s; string_escape start s')
        else if b == b'\n' || b == b'\r'
        then done (exit (broke s))
        else (do s' ← advance src s; done (next s')))

  -- The token of a scanner that met no end: reported, then pushed.
  abbrev pub unterminated : Bytes → Bytes → Pos → Lexer → Lexer
  unterminated code message start s =
      push src error (lexeme_from src start s) start (report src code message start s)

  unfoldable pub string_end : Pos → StringEnd → Lexer
  string_end start (returned s) = s
  string_end start (broke s) =
      unterminated (text "E1002") (text "unterminated string literal") start s

  unfoldable pub lex_string : Lexer → Run Lexer
  lex_string s = do
    s₁ ← advance src s
    e ← loop (fuel src) (string_round (pos s)) s₁
    done (string_end (pos s) e)

  -- `peek() == Some(b)` where the position may be the end.
  abbrev pub is_at : ℕ → Lexer → Bool
  is_at b s = is_byte (get_elem? src.bytes s.index) b

  unfoldable pub lex_byte_lit : Lexer → Run Lexer
  lex_byte_lit s = do
    s₁ ← advance src s
    s₂ ← skip_while src in_byte_lit s₁
    if is_at b'\'' s₂
        then (do
          s₃ ← advance src s₂
          done (push src byte_lit (lexeme_from src (pos s) s₃) (pos s) s₃))
        else done (unterminated (text "E1002") (text "unterminated byte literal") (pos s) s₂)

  unfoldable pub lex_line_comment : Lexer → Run Lexer
  lex_line_comment s = do
    s₁ ← advance src s
    s₂ ← advance src s₁
    s₃ ← skip_while src in_line s₂
    done (push src comment (lexeme_from src (pos s) s₃) (pos s) s₃)

  unfoldable pub comment_round : Pos → Lexer → Run (Flow Lexer Lexer)
  comment_round start s =
      if is_eof src s
      then done (exit (unterminated (text "E0101") (text "unterminated block comment") start s))
      else (do
        b ← peek src s
        if b == b'*' && is_byte (peek_next src s) b'/'
            then (do
              s₁ ← advance src s
              s₂ ← advance src s₁
              done (exit (push src comment (lexeme_from src start s₂) start s₂)))
            else (do s' ← advance src s; done (next s')))

  unfoldable pub lex_block_comment : Lexer → Run Lexer
  lex_block_comment s = do
    s₁ ← advance src s
    s₂ ← advance src s₁
    loop (fuel src) (comment_round (pos s)) s₂

  unfoldable pub single : TokenKind → Lexer → Run Lexer
  single k s = do s₁ ← advance src s; done (push src k (lexeme_from src (pos s) s₁) (pos s) s₁)

  unfoldable pub double : TokenKind → Lexer → Run Lexer
  double k s = do
    s₁ ← advance src s
    s₂ ← advance src s₁
    done (push src k (lexeme_from src (pos s) s₂) (pos s) s₂)

  unfoldable pub invalid_char : Bytes → Lexer → Run Lexer
  invalid_char message s = do
    s₁ ← advance src s
    done (unterminated (text "E0102") message (pos s) s₁)
