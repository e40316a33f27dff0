-- ===== src/Parser/Items.antt =====
-- Items and files of parser.rs. The loop of `parse` takes fuel as an argument, since there are
-- tokens on which it does not end.
use snap_surf_lang.Prelude.{
  ℕ, suc, zero, ◌+◌, Bytes, text, Bool, true, false, List, [], ◌∷◌, Option, none, some, Run, done,
  panic, out_of_fuel, length,
}
use snap_surf_lang.Diagnostic.{Span, Diagnostic, join}
use snap_surf_lang.Token.{
  TokenKind, Token, fn_kw, use_kw, unsafe_kw, else_kw, end_kw, ident, arrow, newline, eof,
}
use snap_surf_lang.Ast.{TypeRef, Param, Item, use_item, fn_item, SourceAst}
use snap_surf_lang.Parser.Cursor.{
  Parser, Parse, pure, ◌>>=◌, ◌>>◌, try, is_kind, current, kind, bump, at, error, expect,
  previous_span, peek_kind, consume_statement_end, synchronize_statement, synchronize_item,
}
use snap_surf_lang.Parser.Exprs.{parse_path, parse_type_ref}
use snap_surf_lang.Parser.Stmts.{parse_block, expect_end}

-- The kinds that end the parameters.
unfoldable pub ends_params : TokenKind → Bool
ends_params arrow = true
ends_params eof = true
ends_params newline = true
ends_params _ = false

abbrev pub and_item : Option Item → List Item → List Item
and_item none is = is
and_item (some i) is = i ∷ is

abbrev pub finish : Run (SourceAst × Parser) → Run (SourceAst × List Diagnostic)
finish (done (ast, s)) = done (ast, s.diagnostics)
finish panic = panic
finish out_of_fuel = out_of_fuel

abbrev pub param : Token → TypeRef → Param
param name ty = record { name = name.lexeme; ty = ty; span = join name.span ty.span }

module _ (tokens : List Token) (file_path : Bytes) (source_file_id : ℕ) where
  abbrev expects : TokenKind → Parse (Option Token)
  expects k = expect tokens file_path source_file_id k

  abbrev reports : Bytes → Bytes → Span → Parse (Unit {0})
  reports = error tokens file_path source_file_id

  abbrev take : Parse Token
  take = bump tokens file_path source_file_id

  abbrev skip : Parse (Unit {0})
  skip = consume_statement_end tokens file_path source_file_id

  -- An error at the current token.
  unfoldable pub report_here : Bytes → Bytes → Parse (Unit {0})
  report_here code message = do
    t ← current tokens file_path source_file_id
    reports code message t.span

  unfoldable pub parse_use : Parse (Option Item)
  parse_use = try (expects use_kw) λ start.
      try (parse_path tokens file_path source_file_id)
        λ p. do skip; pure (some (use_item (record { path = p; span = join start.span p.span })))

  -- An error in the parameters, which ends them.
  unfoldable pub stop_params : Bytes → Parse (List Param)
  stop_params message = do
    report_here (text "E0206") message
    synchronize_statement tokens file_path source_file_id
    pure []

  -- The loop over the parameters.
  unfoldable pub parse_params : ℕ → Parse (List Param)
  parse_params zero = λ s. out_of_fuel
  parse_params (suc fuel) = kind tokens file_path source_file_id >>= λ k. elim (ends_params k) [
    | true ↦ pure []
    | false ↦ expects ident >>= λ o. elim o [
      | none ↦ stop_params (text "invalid parameter list")
      | some name ↦ parse_type_ref tokens file_path source_file_id >>= λ p. elim p [
        | none ↦ stop_params (text "invalid parameter type")
        | some ty ↦ do rest ← parse_params fuel; pure (param name ty ∷ rest)
      ]
    ]
  ]

  -- An error that ends the item.
  unfoldable pub stop_item : Bytes → Bytes → Parse (Option Item)
  stop_item code message = do
    report_here code message
    synchronize_item tokens file_path source_file_id
    pure none

  -- The span at which a function starts, and whether `unsafe` was taken.
  unfoldable pub fn_start : Parse (Span × Bool)
  fn_start = at tokens file_path source_file_id unsafe_kw >>= λ u.
      peek_kind tokens file_path source_file_id 1 >>= λ next. elim u [
        | true ↦ elim (is_kind next fn_kw) [
          | true ↦ do t ← take; pure (t.span, true)
          | false ↦ do t ← current tokens file_path source_file_id; pure (t.span, false)
        ]
        | false ↦ do t ← current tokens file_path source_file_id; pure (t.span, false)
      ]

  -- The body of a function and its end.
  unfoldable pub fn_body : Span × Bool → Bytes → List Param → TypeRef → Parse (Option Item)
  fn_body start name params ret = do
    skip
    body_start ← current tokens file_path source_file_id
    body ← parse_block tokens file_path source_file_id
    expect_end tokens file_path source_file_id body_start.span
    end ← previous_span tokens file_path source_file_id
    skip
    pure (
        some (
          fn_item (record {
            name = name;
            params = params;
            ret = ret;
            body = body;
            span = join start.0 end;
            is_unsafe = start.1;
          })))

  -- The signature of a function behind its name.
  unfoldable pub fn_rest : Span × Bool → Bytes → Parse (Option Item)
  fn_rest start name = do
    params ← parse_params (length tokens + 1)
    arrow_tok ← expects arrow
    elim arrow_tok [
      | none ↦ stop_item (text "E0202") (text "missing return type")
      | some t ↦ parse_type_ref tokens file_path source_file_id >>= λ r. elim r [
        | none ↦ stop_item (text "E0202") (text "missing return type")
        | some ret ↦ fn_body start name params ret
      ]
    ]

  unfoldable pub parse_fn_item : Parse (Option Item)
  parse_fn_item = do
    start ← fn_start
    try (expects fn_kw) λ fn_tok. expects ident >>= λ name. elim name [
      | none ↦ stop_item (text "E0201") (text "missing function name")
      | some tok ↦ fn_rest start tok.lexeme
    ]

  -- A token that starts no item.
  unfoldable pub stray : Bytes → Bytes → Parse (Option Item)
  stray code message = do t ← take; reports code message t.span; pure none

  -- The arms of the loop of `parse`, on the kind of the current token.
  unfoldable pub item_at : TokenKind → Parse (Option Item)
  item_at use_kw = parse_use
  item_at unsafe_kw = parse_fn_item
  item_at fn_kw = parse_fn_item
  item_at end_kw = stray (text "E0204") (text "unexpected end")
  item_at else_kw = stray (text "E0205") (text "else without matching if")
  item_at _ = stray (text "E0206") (text "expected item")

  -- A round of the loop of `parse`.
  unfoldable pub item_round : TokenKind → Parse (Option Item)
  item_round k = do o ← item_at k; skip; pure o

  -- The loop of `parse`.
  unfoldable pub parse_items : ℕ → Parse (List Item)
  parse_items zero = λ s. out_of_fuel
  parse_items (suc fuel) = kind tokens file_path source_file_id >>= λ k. elim (is_kind k eof) [
    | true ↦ pure []
    | false ↦ do o ← item_round k; rest ← parse_items fuel; pure (and_item o rest)
  ]

  -- The state in which the loop of `parse` starts, and the span of the first token.
  unfoldable pub begin : Parse Span
  begin = do skip; t ← current tokens file_path source_file_id; pure t.span

  -- `Parser::new`, then `Parser::parse`.
  unfoldable pub parse : ℕ → Run (SourceAst × List Diagnostic)
  parse fuel = finish (
      (do
        start ← begin
        items ← parse_items fuel
        end ← current tokens file_path source_file_id
        pure (record { items = items; span = join start end.span }))
        (record { index = 0; diagnostics = [] }))
