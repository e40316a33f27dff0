-- ===== src/Lexer/Sound.antt =====
-- The whole lexer of lexer.rs: it ends on every file, its tokens cover the file, and it panics on
-- one ending only.
use snap_surf_lang.Prelude.{
  text, List, [], ◌∷◌, ◌++◌, ◌≡◌, refl, if_both, length, done, loop, loop-Post, next, Round, Post,
  Post-bind, tests, leb→le, leb→lt,
}
use snap_surf_lang.Diagnostic.{Diagnostic}
use snap_surf_lang.Source.{SourceFile}
use snap_surf_lang.Token.{Token, eof}
use snap_surf_lang.Lexer.Cursor.{Lexer, initial, is_eof, fuel}
use snap_surf_lang.Lexer.Main.{dispatch, lex_round, lex, eof_token}
use snap_surf_lang.Lexer.Positions.{pos_at, pos-IsCursor}
use snap_surf_lang.Lexer.Tiles.{Ready, Pushed, Tiles, ErrorsReported, initial-Ready, Tiles}
use snap_surf_lang.Lexer.Loops.{peek-Post, left, left-lt-fuel}
use snap_surf_lang.Lexer.Dispatch.{dispatch-Pushed}
use snap_surf_lang.Lexer.Quoted.{EndsInHexCrLf}

module _ (src : SourceFile) where
  -- What `lex` returns: tokens that cover the whole file, an `Eof` token at its end, and a
  -- diagnostic for each `Error` token.
  pub record IsLexed (r : List Token × List Diagnostic) : Type 0 where
    pub body : List Token
    pub last : Token
    pub splits : r.0 ≡ body ++ last ∷ []
    pub last_is : (last.kind ≡ eof) × (last.lexeme ≡ text "")
    pub last_at :
        (last.span.start ≡ pos_at src.bytes (length src.bytes))
        × (last.span.end ≡ pos_at src.bytes (length src.bytes))
    pub covers : Tiles src body (length src.bytes)
    pub reported : ErrorsReported body r.1

  abbrev AtEnd : Lexer → Type 0
  AtEnd s = Ready src s × (s.index ≡ length src.bytes)

  lex_round-Post :
      (s : Lexer)
      → Ready src s
      → Post
          (EndsInHexCrLf src.bytes)
          (Round (Ready src) AtEnd (left src) (left src s))
          (lex_round src s)
  unfolding lex_round
  lex_round-Post s r =
      if_both (Post _ _) (is_eof src s) (λ q. (r, omega (tests, r.cursor.in_file, leb→le _ _ q)))
        (λ q. peek-Post src _ _ s _ (leb→lt _ _ q) λ b e.
          Post-bind (EndsInHexCrLf src.bytes) (Pushed src s.index)
            (Round (Ready src) AtEnd (left src) (left src s)) (dispatch src b s)
            (λ s'. done (next s')) (dispatch-Pushed src s b e r)
            λ s' p. (p.ready, omega (tests, p.moved, p.ready.cursor.in_file, leb→lt _ _ q)))

  -- On every file the lexer ends. Where it returns, its tokens cover the file in order and apart
  -- from blanks, each with the slice, the line and the column that its span says and with the
  -- spelling of its kind, the last one is `Eof` at the end of the file, and each `Error` token has
  -- a diagnostic with its span. It panics only on a file that ends in `\x`, a carriage return and
  -- a line feed.
  pub lex-IsLexed : Post (EndsInHexCrLf src.bytes) IsLexed (lex src)
  unfolding lex
  lex-IsLexed =
      Post-bind (EndsInHexCrLf src.bytes) AtEnd IsLexed (loop (fuel src) (lex_round src) initial) _
        (loop-Post (EndsInHexCrLf src.bytes) (Ready src) AtEnd (left src) (lex_round src)
          lex_round-Post (fuel src) initial (left-lt-fuel src initial) (initial-Ready src))
        λ s (r, at). record {
          body = s.tokens;
          last = eof_token src s;
          splits = refl;
          last_is = (refl, refl);
          last_at = rw (← at) (pos-IsCursor src r.cursor, pos-IsCursor src r.cursor);
          covers = rw (← at) r.tiles;
          reported = r.errors;
        }
