-- ===== src/Lexer/Main.antt =====
-- `Lexer::lex`: one token, comment or blank for each round, then the `Eof` token.
use snap_surf_lang.Prelude.{
  ℕ, text, Bool, ◌||◌, List, [], ◌∷◌, ◌++◌, ◌==◌, within, is_byte, if◌then◌else◌, Run, done, ◌>>=◌,
  Flow, next, exit, loop,
}
use snap_surf_lang.Diagnostic.{Diagnostic}
use snap_surf_lang.Source.{SourceFile}
use snap_surf_lang.Token.{
  Token, plus, minus, star, slash, percent, eq, eq_eq, bang_eq, lt, lt_eq, gt, gt_eq, arrow,
  l_paren, r_paren, l_bracket, r_bracket, comma, dot, colon, eof,
}
use snap_surf_lang.Lexer.Cursor.{Lexer, initial, is_eof, peek, peek_next, advance, empty_span, fuel}
use snap_surf_lang.Lexer.Scan.{
  lex_newline, lex_ident, lex_int, lex_string, lex_byte_lit, lex_line_comment, lex_block_comment,
  single, double, invalid_char,
}

abbrev pub is_ident_start : ℕ → Bool
is_ident_start b = within b'A' b'Z' b || within b'a' b'z' b || b == b'_'

module _ (src : SourceFile) where
  -- The arms of the `match`, in its order.
  unfoldable pub dispatch : ℕ → Lexer → Run Lexer
  dispatch b s =
      let n = peek_next src s in
      if b == b' ' || b == b'\t'
      then advance src s
      else if b == b'\r'
      then lex_newline src s
      else if b == b'\n'
      then lex_newline src s
      else if is_ident_start b
      then lex_ident src s
      else if within b'0' b'9' b
      then lex_int src s
      else if b == b'"'
      then lex_string src s
      else if b == b'\''
      then lex_byte_lit src s
      else if b == b'/'
      then (if is_byte n b'/'
          then lex_line_comment src s
          else if is_byte n b'*'
          then lex_block_comment src s
          else single src slash s)
      else if b == b'+'
      then single src plus s
      else if b == b'-'
      then (if is_byte n b'>' then double src arrow s else single src minus s)
      else if b == b'*'
      then single src star s
      else if b == b'%'
      then single src percent s
      else if b == b'='
      then (if is_byte n b'=' then double src eq_eq s else single src eq s)
      else if b == b'!'
      then (if is_byte n b'='
          then double src bang_eq s
          else invalid_char src (text "invalid character") s)
      else if b == b'<'
      then (if is_byte n b'=' then double src lt_eq s else single src lt s)
      else if b == b'>'
      then (if is_byte n b'=' then double src gt_eq s else single src gt s)
      else if b == b'('
      then single src l_paren s
      else if b == b')'
      then single src r_paren s
      else if b == b'['
      then single src l_bracket s
      else if b == b']'
      then single src r_bracket s
      else if b == b','
      then single src comma s
      else if b == b'.'
      then single src dot s
      else if b == b':'
      then single src colon s
      else if b == 0
      then invalid_char src (text "NUL byte is not allowed outside a literal") s
      else invalid_char src (text "invalid character") s

  unfoldable pub lex_round : Lexer → Run (Flow Lexer Lexer)
  lex_round s =
      if is_eof src s then done (exit s) else (do b ← peek src s; s' ← dispatch b s; done (next s'))

  abbrev pub eof_token : Lexer → Token
  eof_token s = record { kind = eof; lexeme = text ""; span = empty_span src s }

  unfoldable pub lex : Run (List Token × List Diagnostic)
  lex = do s ← loop (fuel src) lex_round initial; done (s.tokens ++ eof_token s ∷ [], s.diagnostics)
