-- ===== src/Parser/Stuck.antt =====
-- The tokens on which the loop of `parse` in parser.rs goes nowhere: `unsafe` in front of
-- something that is not `fn` is not taken.
use snap_surf_lang.Prelude.{
  ℕ, suc, zero, ◌+◌, Bytes, text, Bool, false, List, Option, none, some, ◌≡◌, ◌≢◌, refl, inl, inr,
  ◌==◌, length, get_elem?, Bool-cases, Option-cases, done, out_of_fuel, loop-exit, ltb, ◌++◌, exit,
}
use native.Mathlib.Numerals.{unary_clauses}
use snap_surf_lang.Diagnostic.{Span}
use snap_surf_lang.Token.Debug.{debug}
use snap_surf_lang.Token.{TokenKind, Token, eof, unsafe_kw, fn_kw}
use snap_surf_lang.Ast.{Item}
use snap_surf_lang.Parser.Cursor.{
  Parser, and_then, error, at, peek_kind, expect, is_kind, is_skipped, bump_round, bump_while,
  consume_statement_end,
}
use snap_surf_lang.Parser.Items.{fn_start, parse_fn_item, item_at, item_round, parse_items}
use snap_surf_lang.Parser.Moves.{StandsAt, current-eq, kind-eq, at-eq, is_kind_refl}
use snap_surf_lang.Parser.Params.{is_kind-true}

pub is_kind-ne : (a b : TokenKind) → a ≢ b → is_kind a b ≡ false
is_kind-ne a b n = elim (Bool-cases (is_kind a b)) [
  | inl q ↦ absurd (n (is_kind-true a b q))
  | inr q ↦ q
]

module _ (tokens : List Token) (file_path : Bytes) (source_file_id : ℕ) where
  abbrev pub StandsOn : TokenKind → Parser → Type 0
  StandsOn = StandsAt tokens file_path source_file_id

  -- `unsafe`, and a next token that is not `fn`.
  abbrev pub Stuck : Parser → Type 0
  Stuck s =
      StandsOn unsafe_kw s
      × ((t : Token) → get_elem? tokens (s.index + 1) ≡ some t → t.kind ≢ fn_kw)

  -- Rounds of the loop of `parse` lead from a state to another.
  pub data Rounds : Parser → Parser → Type 0 where
    here : (s : Parser) → Rounds s s
    round :
        (s s' t : Parser) (k : TokenKind) (o : Option Item)
        → StandsOn k s
        → k ≢ eof
        → item_round tokens file_path source_file_id k s ≡ done (o, s')
        → Rounds s' t
        → Rounds s t

  -- What `peek_kind(1)` gives.
  pub peek_kind-eq :
      (s : Parser)
      → (j : TokenKind) × (peek_kind tokens file_path source_file_id 1 s ≡ done (j, s))
        × (j ≢ fn_kw → (t : Token) → get_elem? tokens (s.index + 1) ≡ some t → t.kind ≢ fn_kw)
        × (((t : Token) → get_elem? tokens (s.index + 1) ≡ some t → t.kind ≢ fn_kw) → j ≢ fn_kw)
  unfolding peek_kind
  peek_kind-eq s = elim (Option-cases (get_elem? tokens (s.index + 1))) [
    | inl q ↦ (eof, rw q refl, λ n t z. cc, λ n e. cc)
    | inr (t, q) ↦ (t.kind, rw q refl, λ n t' z. same t t' q z n, λ n. n t q)
  ]
    where
      same :
          (t t' : Token)
          → get_elem? tokens (s.index + 1) ≡ some t
          → get_elem? tokens (s.index + 1) ≡ some t'
          → t.kind ≢ fn_kw
          → t'.kind ≢ fn_kw
      same t t' q z n e = let t_t' : some t ≡ some t' = cc in let u : t ≡ t' = cc in n (rw u e)

  bump_round-exit :
      (s : Parser) (k : TokenKind)
      → StandsOn k s
      → is_skipped k ≡ false
      → bump_round tokens file_path source_file_id is_skipped s ≡ done (exit (tt, s))
  unfolding bump_round
  bump_round-exit s k h e = rw (bump_round, kind-eq tokens file_path source_file_id s k h, e) refl

  error-eq :
      (code message : Bytes) (sp : Span) (s : Parser)
      → (s' : Parser) × (error tokens file_path source_file_id code message sp s ≡ done (tt, s'))
        × (s'.index ≡ s.index)
  unfolding error
  error-eq code message sp s = (
    _,
    refl,
    elim (Bool-cases (ltb (length s.diagnostics) 100)) [
      | inl q ↦ rw q refl
      | inr q ↦ elim (Bool-cases (length s.diagnostics == 100)) [
        | inl r ↦ rw (q, r) refl
        | inr r ↦ rw (q, r) refl
      ]
    ],
  )

  -- A state at a token that is not skipped stays where it is.
  skip-eq :
      (s : Parser) (k : TokenKind)
      → StandsOn k s
      → is_skipped k ≡ false
      → consume_statement_end tokens file_path source_file_id s ≡ done (tt, s)
  unfolding bump_while
  skip-eq s k h e = simp unary_clauses (
      loop-exit (length tokens) (bump_round tokens file_path source_file_id is_skipped) s (tt, s)
        (bump_round-exit s k h e))

  -- `expect` of a kind that is not there gives an error.
  expect-eq :
      (s : Parser) (k j : TokenKind)
      → StandsOn k s
      → is_kind k j ≡ false
      → (s' : Parser) × (expect tokens file_path source_file_id j s ≡ done (none, s'))
        × (s'.index ≡ s.index)
  unfolding expect
  expect-eq s k j (t, q, e) n =
      let (s', p, i) = error-eq (text "E0206") (text "expected " ++ debug j) t.span s in
      (
        s',
        rw
            (
              at-eq tokens file_path source_file_id s k j (t, q, e),
              n,
              current-eq tokens file_path source_file_id s t q,
              p,
            )
            refl,
        i,
      )

  fn_start-eq :
      (s : Parser)
      → Stuck s
      → (start : Span × Bool) × (fn_start tokens file_path source_file_id s ≡ done (start, s))
  unfolding fn_start
  fn_start-eq s (h, n) =
      let (t, q, e) = h in
      let (j, p, f, g) = peek_kind-eq s in
      (
        (t.span, false),
        rw
            (
              at-eq tokens file_path source_file_id s unsafe_kw unsafe_kw h,
              is_kind_refl unsafe_kw,
              p,
              and_then,
              is_kind-ne j fn_kw (g n),
              current-eq tokens file_path source_file_id s t q,
            )
            refl,
      )

  parse_fn_item-eq :
      (s : Parser)
      → Stuck s
      → (s' : Parser) × (parse_fn_item tokens file_path source_file_id s ≡ done (none, s'))
        × (s'.index ≡ s.index)
  unfolding parse_fn_item
  parse_fn_item-eq s (h, n) =
      let (start, p) = fn_start-eq s (h, n) in
      let (s', x, i) = expect-eq s unsafe_kw fn_kw h (is_kind-ne unsafe_kw fn_kw λ z. cc) in
      (s', rw (p, x) refl, i)

  moved_on : (s s' : Parser) → s'.index ≡ s.index → Stuck s → Stuck s'
  moved_on s s' i ((t, q, e), n) = ((t, rw i q, e), rw i n)

  -- A round at such a state ends, without having moved.
  pub item_round-Stuck :
      (s : Parser)
      → Stuck s
      → (s' : Parser) × (item_round tokens file_path source_file_id unsafe_kw s ≡ done (none, s'))
        × Stuck s'
  unfolding item_round item_at is_skipped
  item_round-Stuck s h =
      let (s', x, i) = parse_fn_item-eq s h in
      let h' = moved_on s s' i h in (s', rw (x, skip-eq s' unsafe_kw h'.0 refl) refl, h')

  pub parse_items-Stuck :
      (fuel : ℕ) (s : Parser)
      → Stuck s
      → parse_items tokens file_path source_file_id fuel s ≡ out_of_fuel
  unfolding parse_items
  parse_items-Stuck zero s h = refl
  parse_items-Stuck (suc fuel) s h =
      let (s', x, h') = item_round-Stuck s h in
      rw
        (
          kind-eq tokens file_path source_file_id s unsafe_kw h.0,
          and_then,
          is_kind-ne unsafe_kw eof (λ z. cc),
          x,
          parse_items-Stuck fuel s' h',
        )
        refl

  pub parse_items-Rounds :
      (fuel : ℕ) (s t : Parser)
      → Rounds s t
      → Stuck t
      → parse_items tokens file_path source_file_id fuel s ≡ out_of_fuel
  unfolding parse_items
  parse_items-Rounds fuel _ _ (here s) h = parse_items-Stuck fuel s h
  parse_items-Rounds zero _ _ (round s s' t k o at ne e r) h = refl
  parse_items-Rounds (suc fuel) _ _ (round s s' t k o at ne e r) h =
      rw
        (
          kind-eq tokens file_path source_file_id s k at,
          and_then,
          is_kind-ne k eof ne,
          e,
          parse_items-Rounds fuel s' t r h,
        )
        refl
