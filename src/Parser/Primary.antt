-- ===== src/Parser/Primary.antt =====
-- Paths and primary expressions of parser.rs are parsed to their end.
use snap_surf_lang.Prelude.{
  ℕ, suc, zero, ◌-◌, ◌<◌, Bytes, text, List, [], ◌∷◌, ◌++◌, none, some, ◌≡◌, ◌≢◌, refl, sym, ◌∙◌,
  inl, inr, length, get_elem?, Run, done, panic, out_of_fuel, Post, Post-weaken, arith, Bool-cases,
  Option-cases,
}
use snap_surf_lang.Diagnostic.{Span}
use snap_surf_lang.Token.{TokenKind, Token, eof, ident, true_kw, false_kw, l_paren, r_paren}
use snap_surf_lang.Ast.{PathSep, Expr}
use snap_surf_lang.Parser.Cursor.{Parser, Parse, lift, and_then, bump, error, expect}
use snap_surf_lang.Parser.Literals.{decode_string}
use snap_surf_lang.Parser.Exprs.{sep_of, is_mixed, path_segments, parse_path, parse_primary}
use snap_surf_lang.Parser.Strings.{Ends, decode_string-Ends}
use snap_surf_lang.Parser.Moves.{
  EndsInEof, InTokens, Went, Took, StandsAt, and_then-Post, token_at, stands_at, current-eq,
  kind-eq, bump-Took, error-Went, expect-Went, is_kind_refl,
}

sep_of-ne : {k : TokenKind} → sep_of k ≢ none → k ≢ eof
unfolding sep_of
sep_of-ne h e = h (rw e refl)

module _ (tokens : List Token) (file_path : Bytes) (source_file_id : ℕ)
    (ends : EndsInEof tokens) where
  -- A string token whose text `decode_string` cannot decode.
  abbrev pub HasBadString : Type 0
  HasBadString =
      (t : Token) × (i : ℕ) × (get_elem? tokens i ≡ some t)
      × (t.kind ≡ TokenKind.str_lit)
      × (decode_string t.lexeme ≡ panic)

  abbrev pub In : Parser → Type 0
  In = InTokens tokens file_path source_file_id

  abbrev pub On : Parser → Parser → Type 0
  On = Went tokens file_path source_file_id

  abbrev pub At : TokenKind → Parser → Type 0
  At = StandsAt tokens file_path source_file_id

  abbrev pub left : Parser → ℕ
  left s = length tokens - s.index

  bump-Post :
      (s : Parser) (k : TokenKind)
      → In s
      → At k s
      → Post HasBadString
          (λ r.
            Took tokens file_path source_file_id k s r.1 × (get_elem? tokens s.index ≡ some r.0))
          (bump tokens file_path source_file_id s)
  bump-Post s k i h = bump-Took tokens file_path source_file_id HasBadString s k ends i h

  -- `parse_path` at a name gives a path.
  pub path_segments-Post :
      (fuel : ℕ) (first : Span) (segments : List Bytes) (sep : PathSep) (end : Span) (s : Parser)
      → In s
      → left s < fuel
      → Post HasBadString
          (λ r. On s r.1 × (r.0 ≢ none))
          (path_segments tokens file_path source_file_id fuel first segments sep end s)
  unfolding path_segments
  path_segments-Post zero first segments sep end s i m = elim m [ ]
  path_segments-Post (suc fuel) first segments sep end s i m =
      let (k, h) = stands_at tokens file_path source_file_id s i in
      rw (kind-eq tokens file_path source_file_id s k h) (elim (Option-cases (sep_of k)) [
        | inl q ↦ rw (q, Post) ((i, omega arith), λ n. cc)
        | inr (next, q) ↦ elim (Bool-cases (is_mixed sep next)) [
          | inl x ↦
              rw (q, x, Post)
                (let (t, c) = token_at tokens file_path source_file_id s i in
                  rw (current-eq tokens file_path source_file_id s t c) (
                    and_then-Post HasBadString (λ r. On s r.1) _
                      (error tokens file_path source_file_id _ _ t.span s) _
                      (error-Went tokens file_path source_file_id HasBadString _ _ t.span s i)
                      λ u s' w. (w, λ n. cc)))
          | inr x ↦
              rw (q, x, Post)
                (and_then-Post HasBadString
                  (λ r.
                    Took tokens file_path source_file_id k s r.1
                    × (get_elem? tokens s.index ≡ some r.0))
                  _ (bump tokens file_path source_file_id s) _ (bump-Post s k i h)
                  λ t s' ((w, moved), c).
                    let (k', h') = stands_at tokens file_path source_file_id s' w.0 in
                    let further : s.index < s'.index = moved (sep_of-ne (λ n. cc)) in
                    and_then-Post HasBadString (λ r. On s' r.1) _
                      (expect tokens file_path source_file_id ident s') _
                      (Post-weaken HasBadString _ (λ r. On s' r.1) _ (λ r e. e.0)
                        (expect-Went tokens file_path source_file_id HasBadString s' k' ident ends
                          w.0 h'))
                      λ seg s'' v. elim (Option-cases seg) [
                        | inl q ↦ rw (q, Post) ((v.0, omega (arith, further, v.1)), λ n. cc)
                        | inr (tok, q) ↦ rw q (
                            Post-weaken HasBadString (λ r. On s'' r.1 × (r.0 ≢ none)) _ _
                              (λ r e. ((e.0.0, omega (arith, further, v.1, e.0.1)), e.1))
                              (path_segments-Post fuel first (segments ++ tok.lexeme ∷ []) next
                                tok.span s'' v.0 (omega (arith, m, further, v.1, v.0, i))))
                      ])
        ]
      ])

  parse_path-Post :
      (s : Parser)
      → In s
      → At ident s
      → Post HasBadString
          (λ r. (On s r.1 × (s.index < r.1.index)) × (r.0 ≢ none))
          (parse_path tokens file_path source_file_id s)
  unfolding parse_path
  parse_path-Post s i h =
      and_then-Post HasBadString (λ r. On s r.1 × ((s.index < r.1.index) × (r.0 ≢ none))) _
        (expect tokens file_path source_file_id ident s) _
        (Post-weaken HasBadString _ (λ r. On s r.1 × ((s.index < r.1.index) × (r.0 ≢ none))) _
          (λ r e. (e.0, ((e.1 (is_kind_refl ident)).0 (λ q. cc), (e.1 (is_kind_refl ident)).1)))
          (expect-Went tokens file_path source_file_id HasBadString s ident ident ends i h))
        λ o s' (w, (lt, n)). elim (Option-cases o) [
          | inl q ↦ absurd (n q)
          | inr (tok, q) ↦ rw q (
              Post-weaken HasBadString (λ r. On s' r.1 × (r.0 ≢ none)) _ _
                (λ r e. (((e.0.0, omega (arith, lt, e.0.1)), omega (arith, lt, e.0.1)), e.1))
                (path_segments-Post (suc (length tokens)) tok.span (tok.lexeme ∷ []) PathSep.single
                  tok.span s' w.0 (omega arith)))
        ]

  -- A token is taken and the rest follows.
  pub taking {ℓ} :
      {B : Type ℓ} (Q : B × Parser → Type 0) (s : Parser) (k : TokenKind) (f : Token → Parse B)
      → In s
      → At k s
      → ((t : Token) (s' : Parser)
          → Took tokens file_path source_file_id k s s'
          → get_elem? tokens s.index ≡ some t
          → Post HasBadString Q (f t s'))
      → Post HasBadString Q (and_then (bump tokens file_path source_file_id s) f)
  taking Q s k f i h rest =
      and_then-Post HasBadString
        (λ r. Took tokens file_path source_file_id k s r.1 × (get_elem? tokens s.index ≡ some r.0))
        Q (bump tokens file_path source_file_id s) f (bump-Post s k i h)
        λ t s' (w, c). rest t s' w c

  abbrev pub TookFrom : TokenKind → Parser → Expr × Parser → Type 0
  TookFrom k s r = Took tokens file_path source_file_id k s r.1

  -- The kind of the token that is read.
  At-kind :
      (s : Parser) (k : TokenKind) (t : Token)
      → At k s
      → get_elem? tokens s.index ≡ some t
      → t.kind ≡ k
  At-kind s k t (u, p, q) c = let e : some u ≡ some t = sym p ∙ c in cc

  -- A string is decoded, or its token is one that cannot be.
  decoded :
      (Q : Expr × Parser → Type 0) (t : Token) (i : ℕ) (s : Parser) (f : Bytes → Parse Expr)
      → get_elem? tokens i ≡ some t
      → t.kind ≡ TokenKind.str_lit
      → ((bs : Bytes) → Post HasBadString Q (f bs s))
      → Post HasBadString Q (and_then (lift (decode_string t.lexeme) s) f)
  decoded Q t i s f c is k = go (decode_string t.lexeme) refl (decode_string-Ends t.lexeme)
    where
      go :
          (m : Run Bytes)
          → decode_string t.lexeme ≡ m
          → Ends m
          → Post HasBadString Q (and_then (lift m s) f)
      go (done bs) e u = k bs
      go panic e u = (t, i, c, is, e)
      go out_of_fuel e u = absurd u

  -- Any other token is an error, and is taken.
  invalid-Post :
      (s : Parser) (k : TokenKind)
      → In s
      → At k s
      → Post HasBadString (TookFrom k s) (
          and_then (bump tokens file_path source_file_id s) λ tok s'.
            and_then
              (error tokens file_path source_file_id
                (text "E0206")
                (text "invalid expression")
                tok.span
                s')
              λ u s''. done (Expr.error tok.span, s''))
  invalid-Post s k i h = taking _ s k _ i h λ t s' w c.
      and_then-Post HasBadString (λ r. On s' r.1) (TookFrom k s)
        (error tokens file_path source_file_id _ _ t.span s') _
        (error-Went tokens file_path source_file_id HasBadString _ _ t.span s' w.0.0)
        λ u s'' v. ((v.0, omega (arith, w.0.1, v.1)), λ n. let m = w.1 n in omega (arith, m, v.1))

  pub expect-Post :
      (s : Parser) (j : TokenKind)
      → In s
      → Post HasBadString (λ r. On s r.1) (expect tokens file_path source_file_id j s)
  expect-Post s j i =
      let (k, h) = stands_at tokens file_path source_file_id s i in
      Post-weaken HasBadString _ (λ r. On s r.1) _ (λ r e. e.0)
        (expect-Went tokens file_path source_file_id HasBadString s k j ends i h)

  module _ (nested : Parse Expr) (s : Parser)
      (inner : (s' : Parser)
        → In s'
        → s.index < s'.index
        → Post HasBadString (λ r. On s' r.1) (nested s')) where
    pub parse_primary-Post :
        (k : TokenKind)
        → In s
        → At k s
        → Post HasBadString
            (TookFrom k s)
            (parse_primary tokens file_path source_file_id nested k s)
    unfolding parse_primary
    parse_primary-Post TokenKind.int_lit i h = taking _ s _ _ i h λ t s' w c. w
    parse_primary-Post true_kw i h = taking _ s _ _ i h λ t s' w c. w
    parse_primary-Post false_kw i h = taking _ s _ _ i h λ t s' w c. w
    parse_primary-Post TokenKind.str_lit i h =
        taking _ s _ _ i h λ t s' w c. decoded _ t s.index s' _ c (At-kind s _ t h c) λ bs. w
    parse_primary-Post ident i h =
        and_then-Post HasBadString (λ r. (On s r.1 × (s.index < r.1.index)) × (r.0 ≢ none))
          (TookFrom ident s) (parse_path tokens file_path source_file_id s) _
          (parse_path-Post s i h)
          λ o s' ((w, lt), n). elim (Option-cases o) [
            | inl q ↦ absurd (n q)
            | inr (p, q) ↦ rw (q, Post) (w, λ m. lt)
          ]
    parse_primary-Post l_paren i h = taking _ s _ _ i h λ t s' w c.
        and_then-Post HasBadString (λ r. On s' r.1) (TookFrom l_paren s) (nested s') _
          (inner s' w.0.0 (w.1 (λ q. cc)))
          λ e s'' v.
            and_then-Post HasBadString (λ r. On s'' r.1) (TookFrom l_paren s)
              (expect tokens file_path source_file_id r_paren s'') _ (expect-Post s'' r_paren v.0)
              λ u s3 x.
                let m = w.1 (λ q. cc) in
                ((x.0, omega (arith, m, v.1, x.1)), λ n. omega (arith, m, v.1, x.1))
    parse_primary-Post _ i h = invalid-Post s _ i h

  pub weaken :
      (k : TokenKind) (s : Parser) (m : Run (Expr × Parser))
      → Post HasBadString (TookFrom k s) m
      → Post HasBadString (λ r. On s r.1) m
  weaken k s m h = Post-weaken HasBadString (TookFrom k s) (λ r. On s r.1) m (λ r w. w.0) h
