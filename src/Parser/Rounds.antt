-- ===== src/Parser/Rounds.antt =====
-- A round of the loop of `parse` in parser.rs takes a token, unless it is stuck.
use snap_surf_lang.Prelude.{
  ℕ, ◌<◌, Bytes, text, Bool, true, false, List, Option, none, some, ◌≡◌, ◌≢◌, refl, length, Post,
  Post-weaken, arith, done,
}
use snap_surf_lang.Diagnostic.{Span}
use snap_surf_lang.Token.{TokenKind, Token, eof, unsafe_kw, fn_kw, use_kw, ident, end_kw, else_kw}
use snap_surf_lang.Parser.Cursor.{
  Parser, Parse, ◌>>=◌, and_then, pure, bump, peek_kind, expect, is_kind, consume_statement_end,
}
use snap_surf_lang.Parser.Items.{
  parse_use, fn_start, fn_rest, stop_item, parse_fn_item, stray, item_at, item_round,
}
use snap_surf_lang.Parser.Moves.{
  EndsInEof, and_then-Post, token_at, current-eq, at-eq, bump-Took, expect-Went, is_kind_refl,
}
use snap_surf_lang.Parser.Primary.{HasBadString, In, On, At}
use snap_surf_lang.Parser.Steps.{
  Steps, pure-Steps, bind-Steps, try-Steps, option-Steps, after-Steps, expect-Steps, error-Steps,
  parse_path-Steps,
}
use snap_surf_lang.Parser.Blocks.{skip-Steps}
use snap_surf_lang.Parser.Params.{stop_item-Steps, fn_rest-Steps}
use snap_surf_lang.Parser.Stuck.{is_kind-ne}

module _ (tokens : List Token) (file_path : Bytes) (source_file_id : ℕ)
    (ends : EndsInEof tokens) where
  abbrev Sts {ℓ} : {A : Type ℓ} → Parse A → Type 0
  Sts = Steps tokens file_path source_file_id ends (length tokens)

  abbrev Bad : Type 0
  Bad = HasBadString tokens file_path source_file_id ends

  abbrev bind {ℓ κ} :
      {A : Type ℓ} {B : Type κ} (m : Parse A) (f : A → Parse B)
      → Sts m
      → ((a : A) → Sts (f a))
      → Sts (λ s. and_then (m s) f)
  bind m f h k = bind-Steps tokens file_path source_file_id ends (length tokens) m f h k

  -- The step took at least one token.
  abbrev pub Moved {ℓ} : {A : Type ℓ} → Parser → A × Parser → Type 0
  Moved s r = On tokens file_path source_file_id ends s r.1 × (s.index < r.1.index)

  unfoldable pub Advances {ℓ} : {A : Type ℓ} → Parser → Parse A → Type 0
  Advances s m = Post Bad (Moved s) (m s)

  then-Moved {ℓ κ} :
      {A : Type ℓ} {B : Type κ} (m : Parse A) (f : A → Parse B) (s : Parser)
      → Advances s m
      → ((a : A) → Sts (f a))
      → Advances s (m >>= f)
  unfolding Advances
  then-Moved m f s h k = and_then-Post Bad (Moved s) (Moved s) (m s) f h λ a s' (w, lt).
      Post-weaken Bad (λ r. On tokens file_path source_file_id ends s' r.1) (Moved s) (f a s')
        (λ r v. ((v.0, omega (arith, w.1, v.1)), omega (arith, lt, v.1)))
        (after-Steps tokens file_path source_file_id ends (length tokens) (f a) s' s' (k a)
          (w.0, omega arith) (omega arith))

  bump-Moved :
      (s : Parser) (k : TokenKind)
      → In tokens file_path source_file_id ends s
      → At tokens file_path source_file_id ends k s
      → k ≢ eof
      → Advances s (bump tokens file_path source_file_id)
  unfolding Advances
  bump-Moved s k i h ne =
      Post-weaken Bad _ (Moved s) _ (λ r w. (w.0.0, w.0.1 ne))
        (bump-Took tokens file_path source_file_id Bad s k ends i h)

  found-Moved :
      (s : Parser) (k : TokenKind)
      → In tokens file_path source_file_id ends s
      → At tokens file_path source_file_id ends k s
      → k ≢ eof
      → Advances s (expect tokens file_path source_file_id k)
  unfolding Advances
  found-Moved s k i h ne =
      Post-weaken Bad _ (Moved s) _ (λ r e. (e.0, (e.1 (is_kind_refl k)).0 ne))
        (expect-Went tokens file_path source_file_id Bad s k k ends i h)

  parse_use-Moved :
      (s : Parser)
      → In tokens file_path source_file_id ends s
      → At tokens file_path source_file_id ends use_kw s
      → Advances s (parse_use tokens file_path source_file_id)
  unfolding parse_use
  parse_use-Moved s i h = then-Moved _ _ s (found-Moved s use_kw i h λ q. cc) λ o.
      option-Steps tokens file_path source_file_id ends (length tokens) o _ _
        (pure-Steps tokens file_path source_file_id ends (length tokens) none)
        λ start.
          try-Steps tokens file_path source_file_id ends (length tokens) _ _
            (parse_path-Steps tokens file_path source_file_id ends (length tokens))
            λ p.
              bind _ _ (skip-Steps tokens file_path source_file_id ends (length tokens))
                λ u. pure-Steps tokens file_path source_file_id ends (length tokens) _

  -- What follows `fn`.
  behind_fn-Steps :
      (start : Span × Bool) (o : Option Token)
      → Sts (elim o [
        | none ↦ pure none
        | some t ↦ λ s. and_then (expect tokens file_path source_file_id ident s) λ name.
            elim name [
              | none ↦
                  stop_item tokens file_path source_file_id
                    (text "E0201")
                    (text "missing function name")
              | some tok ↦ fn_rest tokens file_path source_file_id start tok.lexeme
            ]
      ])
  behind_fn-Steps start o =
      option-Steps tokens file_path source_file_id ends (length tokens) o _ _
        (pure-Steps tokens file_path source_file_id ends (length tokens) none)
        λ t.
          bind _ _ (expect-Steps tokens file_path source_file_id ends (length tokens) ident) λ name.
            option-Steps tokens file_path source_file_id ends (length tokens) name _ _
              (stop_item-Steps tokens file_path source_file_id ends (length tokens) _ _)
              λ tok.
                fn_rest-Steps tokens file_path source_file_id ends (length tokens) start tok.lexeme

  fn_start-eq :
      (s : Parser)
      → In tokens file_path source_file_id ends s
      → At tokens file_path source_file_id ends fn_kw s
      → (start : Span × Bool) × (fn_start tokens file_path source_file_id s ≡ done (start, s))
  unfolding fn_start peek_kind
  fn_start-eq s i h =
      let (t, c) = token_at tokens file_path source_file_id s i in
      (
        (t.span, false),
        rw
            (
              at-eq tokens file_path source_file_id s fn_kw unsafe_kw h,
              and_then,
              is_kind-ne fn_kw unsafe_kw (λ q. cc),
              current-eq tokens file_path source_file_id s t c,
            )
            refl,
      )

  fn_item-Moved :
      (s : Parser) (start : Span × Bool)
      → In tokens file_path source_file_id ends s
      → At tokens file_path source_file_id ends fn_kw s
      → fn_start tokens file_path source_file_id s ≡ done (start, s)
      → Advances s (parse_fn_item tokens file_path source_file_id)
  unfolding parse_fn_item Advances
  fn_item-Moved s start i h e =
      rw (e, and_then)
        (then-Moved (expect tokens file_path source_file_id fn_kw) _ s
          (found-Moved s fn_kw i h λ q. cc) (behind_fn-Steps start))

  -- `unsafe`, and `fn` is the next kind.
  unsafe_start-Moved :
      (s : Parser) (j : TokenKind)
      → In tokens file_path source_file_id ends s
      → At tokens file_path source_file_id ends unsafe_kw s
      → peek_kind tokens file_path source_file_id 1 s ≡ done (j, s)
      → is_kind j fn_kw ≡ true
      → Advances s (fn_start tokens file_path source_file_id)
  unfolding fn_start Advances
  unsafe_start-Moved s j i h p q =
      rw
        (
          at-eq tokens file_path source_file_id s unsafe_kw unsafe_kw h,
          and_then,
          is_kind_refl unsafe_kw,
          p,
          and_then,
          q,
        )
        (then-Moved (bump tokens file_path source_file_id) (λ t. pure (t.span, true)) s
          (bump-Moved s unsafe_kw i h λ z. cc)
          λ t. pure-Steps tokens file_path source_file_id ends (length tokens) _)

  unsafe_item-Moved :
      (s : Parser)
      → Advances s (fn_start tokens file_path source_file_id)
      → Advances s (parse_fn_item tokens file_path source_file_id)
  unfolding parse_fn_item
  unsafe_item-Moved s h = then-Moved _ _ s h λ start.
      bind _ _ (expect-Steps tokens file_path source_file_id ends (length tokens) fn_kw)
        (behind_fn-Steps start)

  stray-Moved :
      (s : Parser) (k : TokenKind) (code message : Bytes)
      → In tokens file_path source_file_id ends s
      → At tokens file_path source_file_id ends k s
      → k ≢ eof
      → Advances s (stray tokens file_path source_file_id code message)
  unfolding stray
  stray-Moved s k code message i h ne = then-Moved _ _ s (bump-Moved s k i h ne) λ t.
      bind _ _
        (error-Steps tokens file_path source_file_id ends (length tokens) code message t.span)
        λ u. pure-Steps tokens file_path source_file_id ends (length tokens) none

  -- An `unsafe` that is followed by `fn`, or another kind.
  abbrev pub Free : TokenKind → Parser → Type 0
  Free k s =
      k ≡ unsafe_kw
      → (j : TokenKind) × (peek_kind tokens file_path source_file_id 1 s ≡ done (j, s))
        × (is_kind j fn_kw ≡ true)

  item_at-Moved :
      (s : Parser) (k : TokenKind)
      → In tokens file_path source_file_id ends s
      → At tokens file_path source_file_id ends k s
      → k ≢ eof
      → Free k s
      → Advances s (item_at tokens file_path source_file_id k)
  unfolding item_at
  item_at-Moved s use_kw i h ne f = parse_use-Moved s i h
  item_at-Moved s fn_kw i h ne f = let (start, e) = fn_start-eq s i h in fn_item-Moved s start i h e
  item_at-Moved s unsafe_kw i h ne f =
      let (j, p, q) = f refl in unsafe_item-Moved s (unsafe_start-Moved s j i h p q)
  item_at-Moved s end_kw i h ne f = stray-Moved s end_kw _ _ i h ne
  item_at-Moved s else_kw i h ne f = stray-Moved s else_kw _ _ i h ne
  item_at-Moved s _ i h ne f = stray-Moved s _ _ _ i h ne

  pub item_round-Moved :
      (s : Parser) (k : TokenKind)
      → In tokens file_path source_file_id ends s
      → At tokens file_path source_file_id ends k s
      → k ≢ eof
      → Free k s
      → Post Bad (Moved s) (item_round tokens file_path source_file_id k s)
  unfolding item_round Advances
  item_round-Moved s k i h ne f =
      then-Moved (item_at tokens file_path source_file_id k) _ s (item_at-Moved s k i h ne f) λ o.
        bind (consume_statement_end tokens file_path source_file_id) (λ u. pure o)
          (skip-Steps tokens file_path source_file_id ends (length tokens))
          λ u. pure-Steps tokens file_path source_file_id ends (length tokens) o
