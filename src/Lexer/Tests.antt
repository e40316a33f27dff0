-- ===== src/Lexer/Tests.antt =====
-- Runs of the lexer, those of the unit tests of lexer.rs among them.
use snap_surf_lang.Prelude.{
  ℕ, ◌+◌, text, text_eq, Bytes, ◌≡◌, refl, [], ◌∷◌, List, map, Run, done, panic, ◌>>=◌, loop, Post,
}
use snap_surf_lang.Diagnostic.{Pos, Span, Diagnostic}
use snap_surf_lang.Source.{SourceFile}
use snap_surf_lang.Source.Lossy.{from_utf8_lossy}
use snap_surf_lang.Token.{TokenKind, Token, keyword_kind, fn_kw, ident, arrow, newline, end_kw, eof}
use snap_surf_lang.Lexer.Cursor.{advance, advance_over, skip_round, skip_while}
use snap_surf_lang.Lexer.Scan.{
  is_ident_rest, digit_value, is_hex, int_base, int_round, lex_newline, lex_ident, lex_int,
  hex_escape, string_escape, string_round, string_end, lex_string, in_byte_lit, lex_byte_lit,
  in_line, lex_line_comment, comment_round, lex_block_comment, single, double, invalid_char,
}
use snap_surf_lang.Lexer.Main.{dispatch, lex_round, lex}
use snap_surf_lang.Lexer.Quoted.{EndsInHexCrLf}
use snap_surf_lang.Lexer.Sound.{IsLexed, lex-IsLexed}

abbrev file : Bytes → SourceFile
file b = record { id = 0; path = text "test.snapsurf"; bytes = b; text = b }

-- The lexer, with all that it calls open.
run : SourceFile → Run (List Token × List Diagnostic)
unfolding lex lex_round loop dispatch advance advance_over skip_round skip_while is_ident_rest
    digit_value is_hex int_base int_round lex_newline lex_ident lex_int hex_escape string_escape
    string_round string_end lex_string in_byte_lit lex_byte_lit in_line lex_line_comment
    comment_round lex_block_comment single double invalid_char keyword_kind text_eq from_utf8_lossy
run f = lex f

kinds : SourceFile → Run (List TokenKind)
unfolding run
kinds f = do r ← run f; done (map (λ t. t.kind) r.0)

codes : SourceFile → Run (List Bytes)
unfolding run
codes f = do r ← run f; done (map (λ d. d.code) r.1)

lexes_keywords_and_eof :
    kinds (file (text "fn main -> i32\nend"))
    ≡ done (fn_kw ∷ ident ∷ arrow ∷ ident ∷ newline ∷ end_kw ∷ eof ∷ [])
unfolding kinds
lexes_keywords_and_eof = refl

rejects_bad_separator : codes (file (text "let x i32 = 1__0")) ≡ done (text "E1003" ∷ [])
unfolding codes
rejects_bad_separator = refl

reports_invalid_escape_and_unterminated_block :
    codes (file (text "\"\\q\" /* bad")) ≡ done (text "E1001" ∷ text "E0101" ∷ [])
unfolding codes
reports_invalid_escape_and_unterminated_block = refl

-- Two bytes behind `\x` that are a line end at the end of the file: the second `peek` is out of
-- bounds.
panics : kinds (file (text "\"\\x\r\n")) ≡ panic
unfolding kinds
panics = refl

abbrev small_file : SourceFile
small_file = file (text "fn f -> u8\n  ret 0x_F\nend")

lex-IsLexed_example : Post (EndsInHexCrLf small_file.bytes) (IsLexed small_file) (lex small_file)
lex-IsLexed_example = lex-IsLexed small_file

abbrev one_name : SourceFile
one_name = file (text "x")

abbrev column : ℕ → Pos
column c = record { byte = c; line = 1; column = c + 1 }

abbrev span : ℕ → ℕ → Span
span a b = record { source_file_id = 0; start = column a; end = column b }

abbrev name_and_end : List Token
name_and_end =
    record { kind = ident; lexeme = text "x"; span = span 0 1 }
    ∷ record { kind = eof; lexeme = text ""; span = span 1 1 }
    ∷ []

lexes_one_name : lex one_name ≡ done (name_and_end, [])
unfolding run
lexes_one_name = refl
