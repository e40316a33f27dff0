-- ===== src/Parser/Params.antt =====
-- The parts of a function's signature are parsed to their end (`parse_fn_item` in parser.rs).
use snap_surf_lang.Prelude.{
  ℕ, suc, zero, ◌+◌, ◌<◌, Bytes, text, Bool, true, false, not, List, [], ◌∷◌, none, some, ◌≡◌, ◌≢◌,
  refl, inl, inr, length, Post, arith, Bool-cases, Option-cases,
}
use snap_surf_lang.Diagnostic.{Span}
use snap_surf_lang.Token.{TokenKind, TokenKind-discrete, Token, eof, ident, arrow}
use snap_surf_lang.Ast.{Param, TypeRef}
use snap_surf_lang.Parser.Cursor.{
  Parser, Parse, and_then, pure, error, expect, is_kind, is_item_start, is_statement_start,
}
use snap_surf_lang.Parser.Exprs.{parse_type_ref}
use snap_surf_lang.Parser.Items.{
  ends_params, param, report_here, stop_params, parse_params, stop_item, fn_body, fn_rest,
}
use snap_surf_lang.Parser.Moves.{
  EndsInEof, and_then-Post, stands_at, token_at, current-eq, kind-eq, at-eq, error-Went,
}
use snap_surf_lang.Parser.Primary.{HasBadString, In, On, left, taking}
use snap_surf_lang.Parser.Steps.{
  Steps, pure-Steps, bind-Steps, option-Steps, current-Steps, expect-Steps, error-Steps,
  after-Steps, previous_span-Steps, bump_while-Steps, parse_type_ref-Steps,
}
use snap_surf_lang.Parser.Blocks.{skip-Steps, expect_end-Steps}
use snap_surf_lang.Parser.Closed.{parse_block-Steps}

pub is_kind-true : (a b : TokenKind) → is_kind a b ≡ true → a ≡ b
unfolding is_kind
is_kind-true a b = go (TokenKind-discrete a b)
  where
    go : (d : Dec (a ≡ b)) → elim d [ yes _ ↦ true | no _ ↦ false ] ≡ true → a ≡ b
    go (yes p) h = p
    go (no n) h = cc

starts_at_eof : (not (is_statement_start eof) ≡ false) × (not (is_item_start eof) ≡ false)
unfolding is_statement_start is_item_start
starts_at_eof = (refl, refl)

module _ (tokens : List Token) (file_path : Bytes) (source_file_id : ℕ)
    (ends : EndsInEof tokens) where
  abbrev Sts {ℓ} : {A : Type ℓ} → ℕ → Parse A → Type 0
  Sts = Steps tokens file_path source_file_id ends

  abbrev Bad : Type 0
  Bad = HasBadString tokens file_path source_file_id ends

  abbrev bind {ℓ κ} :
      {A : Type ℓ} {B : Type κ} (n : ℕ) (m : Parse A) (f : A → Parse B)
      → Sts n m
      → ((a : A) → Sts n (f a))
      → Sts n (λ s. and_then (m s) f)
  bind n m f h k = bind-Steps tokens file_path source_file_id ends n m f h k

  -- A token that was expected and found is taken.
  pub expect-Moved :
      (s : Parser) (j : TokenKind)
      → In tokens file_path source_file_id ends s
      → j ≢ eof
      → Post Bad
          (λ r. On tokens file_path source_file_id ends s r.1 × (r.0 ≢ none → s.index < r.1.index))
          (expect tokens file_path source_file_id j s)
  unfolding expect
  expect-Moved s j i ne =
      let (k, h) = stands_at tokens file_path source_file_id s i in
      rw (at-eq tokens file_path source_file_id s k j h, Post)
        (elim (Bool-cases (is_kind k j)) [
          | inl q ↦
              rw (q, Post)
                (taking tokens file_path source_file_id ends
                  (λ r.
                    On tokens file_path source_file_id ends s r.1
                    × (r.0 ≢ none → s.index < r.1.index))
                  s k _ i h
                  λ t s' w c.
                    let e = is_kind-true k j q in let m = w.1 (λ z. ne (cc)) in (w.0, λ z. m))
          | inr q ↦
              rw (q, Post)
                (let (t, c) = token_at tokens file_path source_file_id s i in
                  rw (current-eq tokens file_path source_file_id s t c) (
                    and_then-Post Bad (λ r. On tokens file_path source_file_id ends s r.1) _
                      (error tokens file_path source_file_id _ _ t.span s) _
                      (error-Went tokens file_path source_file_id Bad _ _ t.span s i)
                      λ u s' w. (w, λ z. absurd (z refl))))
        ])

  report_here-Steps :
      (n : ℕ) (code message : Bytes)
      → Sts n (report_here tokens file_path source_file_id code message)
  unfolding report_here
  report_here-Steps n code message =
      bind n _ _ (current-Steps tokens file_path source_file_id ends n)
        λ t. error-Steps tokens file_path source_file_id ends n _ _ t.span

  stop_params-Steps :
      (n : ℕ) (message : Bytes) → Sts n (stop_params tokens file_path source_file_id message)
  unfolding stop_params
  stop_params-Steps n message = bind n _ _ (report_here-Steps n _ message) λ u.
      bind n _ _ (bump_while-Steps tokens file_path source_file_id ends n _ starts_at_eof.0)
        λ v. pure-Steps tokens file_path source_file_id ends n []

  pub stop_item-Steps :
      (n : ℕ) (code message : Bytes)
      → Sts n (stop_item tokens file_path source_file_id code message)
  unfolding stop_item
  stop_item-Steps n code message = bind n _ _ (report_here-Steps n code message) λ u.
      bind n _ _ (bump_while-Steps tokens file_path source_file_id ends n _ starts_at_eof.1)
        λ v. pure-Steps tokens file_path source_file_id ends n none

  fn_body-Steps :
      (n : ℕ) (start : Span × Bool) (name : Bytes) (params : List Param) (ret : TypeRef)
      → Sts n (fn_body tokens file_path source_file_id start name params ret)
  unfolding fn_body
  fn_body-Steps n start name params ret =
      bind n _ _ (skip-Steps tokens file_path source_file_id ends n) λ u.
        bind n _ _ (current-Steps tokens file_path source_file_id ends n) λ body_start.
          bind n _ _ (parse_block-Steps tokens file_path source_file_id ends n) λ body.
            bind n _ _ (expect_end-Steps tokens file_path source_file_id ends n body_start.span)
              λ v. bind n _ _ (previous_span-Steps tokens file_path source_file_id ends n) λ end.
                bind n _ _ (skip-Steps tokens file_path source_file_id ends n)
                  λ w. pure-Steps tokens file_path source_file_id ends n _

  -- A parameter's type, and what follows it.
  param_rest-Steps :
      (n fuel : ℕ) (name : Token)
      → Sts n (parse_params tokens file_path source_file_id fuel)
      → Sts n (λ s. and_then (parse_type_ref tokens file_path source_file_id s) λ p. elim p [
        | none ↦ stop_params tokens file_path source_file_id (text "invalid parameter type")
        | some ty ↦ λ s.
            and_then
              (parse_params tokens file_path source_file_id fuel s)
              λ rest. pure (param name ty ∷ rest)
      ])
  param_rest-Steps n fuel name h =
      bind n _ _ (parse_type_ref-Steps tokens file_path source_file_id ends n) λ p.
        option-Steps tokens file_path source_file_id ends n p _ _ (stop_params-Steps n _)
          λ ty. bind n _ _ h λ rest. pure-Steps tokens file_path source_file_id ends n _

  parse_params-Steps :
      (n fuel : ℕ) → n < fuel → Sts n (parse_params tokens file_path source_file_id fuel)
  unfolding Steps parse_params
  parse_params-Steps n zero lt s i b = elim lt [ ]
  parse_params-Steps n (suc fuel) lt s i b =
      let (k, h) = stands_at tokens file_path source_file_id s i in
      rw (kind-eq tokens file_path source_file_id s k h) (elim (Bool-cases (ends_params k)) [
        | inl q ↦ rw (q, Post) (i, omega arith)
        | inr q ↦
            rw (q, Post)
              (and_then-Post Bad
                (λ r.
                  On tokens file_path source_file_id ends s r.1
                  × (r.0 ≢ none → s.index < r.1.index))
                (λ r. On tokens file_path source_file_id ends s r.1)
                (expect tokens file_path source_file_id ident s) _ (expect-Moved s ident i λ z. cc)
                λ o s' (w, m). elim (Option-cases o) [
                  | inl z ↦
                      rw (z, Post)
                        (after-Steps tokens file_path source_file_id ends (length tokens) _ s s'
                          (stop_params-Steps (length tokens) _) w (omega arith))
                  | inr (name, z) ↦
                      rw (z, Post)
                        (let further = m (λ y. cc) in
                          after-Steps tokens file_path source_file_id ends
                            (left tokens file_path source_file_id ends s') _ s s'
                            (param_rest-Steps _ fuel name (
                              parse_params-Steps (left tokens file_path source_file_id ends s') fuel
                                (omega (arith, further, b, lt, w.0))))
                            w (omega arith))
                ])
      ])

  any_params-Steps :
      (n : ℕ) → Sts n (parse_params tokens file_path source_file_id (length tokens + 1))
  unfolding Steps
  any_params-Steps n s i b =
      after-Steps tokens file_path source_file_id ends (length tokens) _ s s
        (parse_params-Steps (length tokens) (length tokens + 1) (omega arith)) (i, omega arith)
        (omega arith)

  pub fn_rest-Steps :
      (n : ℕ) (start : Span × Bool) (name : Bytes)
      → Sts n (fn_rest tokens file_path source_file_id start name)
  unfolding fn_rest
  fn_rest-Steps n start name = bind n _ _ (any_params-Steps n) λ params.
      bind n _ _ (expect-Steps tokens file_path source_file_id ends n arrow) λ o.
        option-Steps tokens file_path source_file_id ends n o _ _ (stop_item-Steps n _ _) λ t.
          bind n _ _ (parse_type_ref-Steps tokens file_path source_file_id ends n) λ r.
            option-Steps tokens file_path source_file_id ends n r _ _ (stop_item-Steps n _ _)
              λ ret. fn_body-Steps n start name params ret
