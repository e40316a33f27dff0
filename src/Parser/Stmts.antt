-- ===== src/Parser/Stmts.antt =====
-- Statements and blocks of parser.rs. A statement takes what parses a block inside it; only the
-- loop over the statements of a block takes fuel, one unit for each statement.
use snap_surf_lang.Prelude.{
  ℕ, suc, zero, ◌*◌, Bytes, text, Bool, true, false, List, Option, none, some, ◌==◌, out_of_fuel,
  length, done,
}
use snap_surf_lang.Diagnostic.{Span, join}
use snap_surf_lang.Token.{
  TokenKind, Token, let_kw, mut_kw, ret_kw, if_kw, loop_kw, while_kw, break_kw, continue_kw,
  unsafe_kw, else_kw, end_kw, ident, arrow, eof,
}
use snap_surf_lang.Ast.{
  TypeRef, Expr, expr_span, Stmt, Stmts, Block, ElseBlock, let_stmt, mut_stmt, assign_stmt,
  ret_stmt, if_stmt, loop_stmt, while_stmt, break_stmt, continue_stmt, unsafe_stmt, expr_stmt,
  error_stmt, block, no_stmts, more_stmts, no_else, else_block, stmt_span,
}
use snap_surf_lang.Parser.Cursor.{
  Parse, pure, ◌>>=◌, ◌>>◌, try, is_kind, current, kind, bump, at, error, expect, previous_span,
  peek_kind, is_statement_boundary, consume_statement_end,
}
use snap_surf_lang.Parser.Exprs.{parse_type_ref, parse_expr}

-- The kinds that end a block.
unfoldable pub ends_block : TokenKind → Bool
ends_block eof = true
ends_block end_kw = true
ends_block else_kw = true
ends_block _ = false

-- `statements.last().map(Stmt::span).unwrap_or(start)`
unfoldable pub last_span : Span → Stmts → Span
last_span start no_stmts = start
last_span start (more_stmts s ss) = last_span (stmt_span s) ss

abbrev pub and_more : Option Stmt → Stmts → Stmts
and_more none ss = ss
and_more (some s) ss = more_stmts s ss

-- `Stmt::Mut` or `Stmt::Let`.
abbrev pub declaration : Bool → Bytes → TypeRef → Expr → Span → Stmt
declaration true name ty e sp = mut_stmt name ty e sp
declaration false name ty e sp = let_stmt name ty e sp

-- The span of a `ret`.
abbrev pub ret_span : Span → Option Expr → Span
ret_span start none = start
ret_span start (some e) = join start (expr_span e)

module _ (tokens : List Token) (file_path : Bytes) (source_file_id : ℕ) where
  abbrev expects : TokenKind → Parse (Option Token)
  expects k = expect tokens file_path source_file_id k

  abbrev reports : Bytes → Bytes → Span → Parse (Unit {0})
  reports = error tokens file_path source_file_id

  abbrev take : Parse Token
  take = bump tokens file_path source_file_id

  abbrev skip : Parse (Unit {0})
  skip = consume_statement_end tokens file_path source_file_id

  -- `parse_expr(0)`, with fuel that is enough from every token.
  abbrev pub whole_expr : Parse Expr
  whole_expr = parse_expr tokens file_path source_file_id (5 * length tokens) 0

  abbrev pub index : Parse ℕ
  index s = done (s.index, s)

  unfoldable pub parse_var : Bool → Parse (Option Stmt)
  parse_var mutable = do
    start ← take
    try (expects ident) λ name. try (parse_type_ref tokens file_path source_file_id) λ ty.
        try (expects TokenKind.eq) λ eq_tok. do
          e ← whole_expr
          skip
          pure (some (declaration mutable name.lexeme ty e (join start.span (expr_span e))))

  unfoldable pub parse_assign : Parse (Option Stmt)
  parse_assign = do
    name ← take
    eq_tok ← expects TokenKind.eq
    e ← whole_expr
    skip
    pure (some (assign_stmt name.lexeme e (join name.span (expr_span e))))

  -- What `ret` returns.
  unfoldable pub ret_value : Parse (Option Expr)
  ret_value = is_statement_boundary tokens file_path source_file_id >>= λ b. elim b [
    | true ↦ pure none
    | false ↦ do e ← whole_expr; pure (some e)
  ]

  unfoldable pub parse_ret : Parse (Option Stmt)
  parse_ret = do start ← take; e ← ret_value; skip; pure (some (ret_stmt e (ret_span start.span e)))

  -- `if self.expect(TokenKind::End).is_none() { self.error("E0203", ...) }`
  unfoldable pub expect_end : Span → Parse (Unit {0})
  expect_end sp = expects end_kw >>= λ o. elim o [
    | none ↦ reports (text "E0203") (text "expected end") sp
    | some t ↦ pure tt
  ]

  -- The arrow, and the end of its line.
  abbrev open_body : Parse (Unit {0})
  open_body = do arrow_tok ← expects arrow; skip

  -- The end of a statement with a block: its span, and the end of its line.
  unfoldable pub close_body : Span → Span → Parse Span
  close_body start body = do
    expect_end body
    end ← previous_span tokens file_path source_file_id
    skip
    pure (join start end)

  abbrev block_span : Block → Span
  block_span (block ss sp) = sp

  -- The `else` branch.
  unfoldable pub parse_else : Parse Block → Parse ElseBlock
  parse_else nested = at tokens file_path source_file_id else_kw >>= λ b. elim b [
    | true ↦ do else_tok ← take; open_body; body ← nested; pure (else_block body)
    | false ↦ pure no_else
  ]

  unfoldable pub parse_if : Parse Block → Parse (Option Stmt)
  parse_if nested = do
    start ← take
    cond ← whole_expr
    open_body
    then_block ← nested
    else_branch ← parse_else nested
    sp ← close_body start.span (block_span then_block)
    pure (some (if_stmt cond then_block else_branch sp))

  unfoldable pub parse_loop : Parse Block → Parse (Option Stmt)
  parse_loop nested = do
    start ← take
    open_body
    body ← nested
    sp ← close_body start.span (block_span body)
    pure (some (loop_stmt body sp))

  unfoldable pub parse_while : Parse Block → Parse (Option Stmt)
  parse_while nested = do
    start ← take
    cond ← whole_expr
    open_body
    body ← nested
    sp ← close_body start.span (block_span body)
    pure (some (while_stmt cond body sp))

  unfoldable pub parse_unsafe_block : Parse Block → Parse (Option Stmt)
  parse_unsafe_block nested = do
    start ← take
    open_body
    body ← nested
    sp ← close_body start.span (block_span body)
    pure (some (unsafe_stmt body sp))

  unfoldable pub parse_expr_stmt : Parse (Option Stmt)
  parse_expr_stmt = do e ← whole_expr; skip; pure (some (expr_stmt e (expr_span e)))

  -- An arm that is one token.
  unfoldable pub parse_word : (Span → Stmt) → Parse (Option Stmt)
  parse_word stmt = do t ← take; skip; pure (some (stmt t.span))

  -- An arm that looks one token ahead, and is an expression where the next kind is another.
  unfoldable pub guarded : TokenKind → Parse (Option Stmt) → Parse (Option Stmt)
  guarded k stmt = peek_kind tokens file_path source_file_id 1 >>= λ j. elim (is_kind j k) [
    | true ↦ stmt
    | false ↦ parse_expr_stmt
  ]

  -- The arms of `parse_statement`, on the kind of the current token.
  unfoldable pub statement_at : Parse Block → TokenKind → Parse (Option Stmt)
  statement_at nested let_kw = parse_var false
  statement_at nested mut_kw = parse_var true
  statement_at nested ret_kw = parse_ret
  statement_at nested if_kw = parse_if nested
  statement_at nested loop_kw = parse_loop nested
  statement_at nested while_kw = parse_while nested
  statement_at nested break_kw = parse_word break_stmt
  statement_at nested continue_kw = parse_word continue_stmt
  statement_at nested unsafe_kw = guarded arrow (parse_unsafe_block nested)
  statement_at nested else_kw = do
    t ← take
    reports (text "E0205") (text "else without matching if") t.span
    pure (some (error_stmt t.span))
  statement_at nested ident = guarded TokenKind.eq parse_assign
  statement_at nested eof = pure none
  statement_at nested end_kw = pure none
  statement_at nested _ = parse_expr_stmt

  unfoldable pub parse_statement : Parse Block → Parse (Option Stmt)
  parse_statement nested = do skip; k ← kind tokens file_path source_file_id; statement_at nested k

  -- A statement that took no token is passed over.
  unfoldable pub check_progress : ℕ → Parse (Unit {0})
  check_progress before = index >>= λ i. elim (i == before) [
    | true ↦ do t ← take; reports (text "E0207") (text "parser made no progress") t.span
    | false ↦ pure tt
  ]

  -- `parse_block`, with its loop.
  unfoldable pub block_of : Parse Stmts → Parse Block
  block_of statements = do
    skip
    start ← current tokens file_path source_file_id
    ss ← statements
    pure (block ss (join start.span (last_span start.span ss)))

  -- The loop of `parse_block`.
  unfoldable pub parse_statements : ℕ → Parse Stmts
  parse_statements zero = λ s. out_of_fuel
  parse_statements (suc fuel) = kind tokens file_path source_file_id >>= λ k. elim (ends_block k) [
    | true ↦ pure no_stmts
    | false ↦ do
      before ← index
      o ← parse_statement (block_of (parse_statements fuel))
      check_progress before
      skip
      rest ← parse_statements fuel
      pure (and_more o rest)
  ]

  abbrev pub parse_block : Parse Block
  parse_block = block_of (parse_statements (length tokens))
