-- ===== src/Lexer/Dispatch.antt =====
-- The arms of the loop of `lex` (lexer.rs) by the next byte.
use snap_surf_lang.Prelude.{
  ℕ, ◌+◌, ◌<◌, true, ◌||◌, [], ◌∷◌, ◌≡◌, refl, ◌==◌, within, is_byte, if◌then◌else◌, if_both,
  get_elem?, get_elem?-lt, some, arith,
}
use snap_surf_lang.Source.{SourceFile}
use snap_surf_lang.Token.{
  TokenKind, plus, minus, star, slash, percent, eq, eq_eq, bang_eq, lt_eq, gt, gt_eq, arrow,
  l_paren, r_paren, l_bracket, r_bracket, comma, dot, colon,
}
use snap_surf_lang.Lexer.Cursor.{Lexer, peek_next, advance}
use snap_surf_lang.Lexer.Scan.{single, double, lex_line_comment, lex_block_comment}
use snap_surf_lang.Lexer.Main.{dispatch, is_ident_start}
use snap_surf_lang.Lexer.Positions.{is_byte-lt, is_byte-eq, advance-eq}
use snap_surf_lang.Lexer.Tiles.{Ready, blank-Pushed}
use snap_surf_lang.Lexer.Loops.{IsPlain}
use snap_surf_lang.Lexer.Ints.{lex_int-Pushed}
use snap_surf_lang.Lexer.Tokens.{
  Lexes, IsSymbol, lex_newline-Pushed, lex_ident-Pushed, lex_string-Pushed, lex_byte_lit-Pushed,
  lex_line_comment-Pushed, lex_block_comment-Pushed, single-Pushed, double-Pushed,
  invalid_char-Pushed,
}

module _ (src : SourceFile) where
  -- The arms for one byte, at a state whose next byte is known.
  module _ (s : Lexer) (b : ℕ) (e : get_elem? src.bytes s.index ≡ some b) (r : Ready src s) where
    arm_single :
        (k : TokenKind) (c : ℕ)
        → IsPlain c
        → c < 0x80
        → IsSymbol k (c ∷ [])
        → (b == c) ≡ true
        → Lexes src s.index (single src k s)
    arm_single k c p small sym_is q =
        let same : b ≡ c = ground arith in single-Pushed src k s c (rw (← same) e) p small sym_is r

    arm_double :
        (k : TokenKind) (c d : ℕ)
        → IsPlain c
        → IsPlain d
        → (c < 0x80) × (d < 0x80)
        → IsSymbol k (c ∷ d ∷ [])
        → (b == c) ≡ true
        → is_byte (peek_next src s) d ≡ true
        → Lexes src s.index (double src k s)
    arm_double k c d p p' small sym_is q q' =
        let same : b ≡ c = ground arith in
        double-Pushed src k s c d (rw (← same) e) (is_byte-eq (peek_next src s) d q') p p' small
          sym_is r

    digit-IsPlain : within b'0' b'9' b ≡ true → IsPlain b
    digit-IsPlain d = (ground arith, ground arith)

    blanks : (b == b' ' || b == b'\t') ≡ true → Lexes src s.index (advance src s)
    blanks q = rw (advance-eq src b s e) (blank-Pushed src b e q r)

    slashes :
        (b == b'/') ≡ true
        → Lexes src s.index (
            if is_byte (peek_next src s) b'/'
            then lex_line_comment src s
            else if is_byte (peek_next src s) b'*'
            then lex_block_comment src s
            else single src slash s)
    slashes q =
        let n = peek_next src s in
        if_both (Lexes src s.index) (is_byte n b'/')
          (λ h.
            lex_line_comment-Pushed src s b e (ground arith)
              (is_byte-lt src.bytes (s.index + 1) b'/' h) r)
          (λ _.
            if_both (Lexes src s.index) (is_byte n b'*')
              (λ h.
                lex_block_comment-Pushed src s b e (ground arith)
                  (is_byte-lt src.bytes (s.index + 1) b'*' h) r)
              (λ _.
                arm_single slash b'/' (refl, refl) (omega arith) (refl, (λ x. refl), λ q. cc) q))

    pub dispatch-Pushed : Lexes src s.index (dispatch src b s)
    unfolding dispatch
    dispatch-Pushed =
        let n = peek_next src s in
        let lt = get_elem?-lt src.bytes s.index e in
        if_both (Lexes src s.index) (b == b' ' || b == b'\t') blanks (λ _.
          if_both (Lexes src s.index) (b == b'\r') (λ _. lex_newline-Pushed src s lt r)
            (λ _.
              if_both (Lexes src s.index) (b == b'\n') (λ _. lex_newline-Pushed src s lt r)
                (λ _.
                  if_both (Lexes src s.index) (is_ident_start b) (λ _. lex_ident-Pushed src s lt r)
                    (λ _.
                      if_both (Lexes src s.index) (within b'0' b'9' b)
                        (λ d. lex_int-Pushed src s b e (digit-IsPlain d) d r)
                        (λ _.
                          if_both (Lexes src s.index) (b == b'"')
                            (λ _. lex_string-Pushed src s lt r)
                            (λ _.
                              if_both (Lexes src s.index) (b == b'\'')
                                (λ _. lex_byte_lit-Pushed src s lt r)
                                (λ _. if_both (Lexes src s.index) (b == b'/') slashes (λ _.
                                  if_both (Lexes src s.index) (b == b'+')
                                    (arm_single plus b'+' (refl, refl) (omega arith)
                                      (refl, (λ x. refl), λ q. cc))
                                    (λ _.
                                      if_both (Lexes src s.index) (b == b'-')
                                        (λ q.
                                          if_both (Lexes src s.index) (is_byte n b'>')
                                            (arm_double arrow b'-' b'>' (refl, refl) (refl, refl)
                                              (omega arith, omega arith)
                                              (refl, (λ x. refl), λ q. cc) q)
                                            (λ _.
                                              arm_single minus b'-' (refl, refl) (omega arith)
                                                (refl, (λ x. refl), λ q. cc) q))
                                        (λ _.
                                          if_both (Lexes src s.index) (b == b'*')
                                            (arm_single star b'*' (refl, refl) (omega arith)
                                              (refl, (λ x. refl), λ q. cc))
                                            (λ _.
                                              if_both (Lexes src s.index) (b == b'%')
                                                (arm_single percent b'%' (refl, refl) (omega arith)
                                                  (refl, (λ x. refl), λ q. cc))
                                                (λ _.
                                                  if_both (Lexes src s.index) (b == b'=')
                                                    (λ q.
                                                      if_both (Lexes src s.index) (is_byte n b'=')
                                                        (arm_double eq_eq b'=' b'=' (refl, refl)
                                                          (refl, refl) (omega arith, omega arith)
                                                          (refl, (λ x. refl), λ q. cc) q)
                                                        (λ _.
                                                          arm_single eq b'=' (refl, refl)
                                                            (omega arith)
                                                            (refl, (λ x. refl), λ q. cc) q))
                                                    (λ _.
                                                      if_both (Lexes src s.index) (b == b'!')
                                                        (λ q.
                                                          if_both (Lexes src s.index)
                                                            (is_byte n b'=')
                                                            (arm_double bang_eq b'!' b'='
                                                            (refl, refl) (refl, refl)
                                                            (omega arith, omega arith)
                                                            (refl, (λ x. refl), λ q. cc) q)
                                                            (λ _. invalid_char-Pushed src _ s lt r))
                                                        (λ _.
                                                          if_both (Lexes src s.index) (b == b'<')
                                                            (λ q.
                                                            if_both (Lexes src s.index)
                                                            (is_byte n b'=')
                                                            (arm_double lt_eq b'<' b'=' (refl, refl)
                                                            (refl, refl) (omega arith, omega arith)
                                                            (refl, (λ x. refl), λ q. cc) q)
                                                            (λ _.
                                                            arm_single TokenKind.lt b'<'
                                                            (refl, refl) (omega arith)
                                                            (refl, (λ x. refl), λ q. cc) q))
                                                            (λ _.
                                                            if_both (Lexes src s.index) (b == b'>')
                                                            (λ q.
                                                            if_both (Lexes src s.index)
                                                            (is_byte n b'=')
                                                            (arm_double gt_eq b'>' b'=' (refl, refl)
                                                            (refl, refl) (omega arith, omega arith)
                                                            (refl, (λ x. refl), λ q. cc) q)
                                                            (λ _.
                                                            arm_single gt b'>' (refl, refl)
                                                            (omega arith)
                                                            (refl, (λ x. refl), λ q. cc) q))
                                                            (λ _.
                                                            if_both (Lexes src s.index) (b == b'(')
                                                            (arm_single l_paren b'(' (refl, refl)
                                                            (omega arith)
                                                            (refl, (λ x. refl), λ q. cc))
                                                            (λ _.
                                                            if_both (Lexes src s.index) (b == b')')
                                                            (arm_single r_paren b')' (refl, refl)
                                                            (omega arith)
                                                            (refl, (λ x. refl), λ q. cc))
                                                            (λ _.
                                                            if_both (Lexes src s.index) (b == b'[')
                                                            (arm_single l_bracket b'[' (refl, refl)
                                                            (omega arith)
                                                            (refl, (λ x. refl), λ q. cc))
                                                            (λ _.
                                                            if_both (Lexes src s.index) (b == b']')
                                                            (arm_single r_bracket b']' (refl, refl)
                                                            (omega arith)
                                                            (refl, (λ x. refl), λ q. cc))
                                                            (λ _.
                                                            if_both (Lexes src s.index) (b == b',')
                                                            (arm_single comma b',' (refl, refl)
                                                            (omega arith)
                                                            (refl, (λ x. refl), λ q. cc))
                                                            (λ _.
                                                            if_both (Lexes src s.index) (b == b'.')
                                                            (arm_single dot b'.' (refl, refl)
                                                            (omega arith)
                                                            (refl, (λ x. refl), λ q. cc))
                                                            (λ _.
                                                            if_both (Lexes src s.index) (b == b':')
                                                            (arm_single colon b':' (refl, refl)
                                                            (omega arith)
                                                            (refl, (λ x. refl), λ q. cc))
                                                            (λ _.
                                                            if_both (Lexes src s.index) (b == 0)
                                                            (λ _. invalid_char-Pushed src _ s lt r)
                                                            (λ _.
                                                            invalid_char-Pushed src _ s lt
                                                            r))))))))))))))))))))))))
