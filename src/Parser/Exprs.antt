-- ===== src/Parser/Exprs.antt =====
-- Paths, types and expressions of parser.rs, by precedence. The functions that call each other take
-- fuel, one unit for each call.
use snap_surf_lang.Prelude.{
  ℕ, suc, zero, Bytes, text, Bool, true, false, List, [], ◌∷◌, ◌++◌, Option, none, some, ltb,
  out_of_fuel, or_panic, length,
}
use snap_surf_lang.Diagnostic.{Span, join}
use snap_surf_lang.Token.{
  TokenKind, Token, true_kw, false_kw, not_kw, and_kw, or_kw, ident, star, percent, plus, minus,
  eq_eq, bang_eq, l_paren, r_paren,
}
use snap_surf_lang.Ast.{
  BinaryOp, add, sub, mul, div, rem, not_eq, and, or, UnaryOp, neg, TypeRef, PathSep, single,
  AstPath, Expr, Exprs, bool_lit, path, binary, unary, call, no_exprs, more_exprs, expr_span,
}
use snap_surf_lang.Lexer.Scan.{unwrap_or}
use snap_surf_lang.Parser.Cursor.{
  Parse, pure, lift, ◌>>=◌, ◌>>◌, try, current, kind, bump, at, error, expect, starts_arg,
}
use snap_surf_lang.Parser.Literals.{parse_int_value, decode_string}

-- `current_binop`, on the kind: the operation and its binding powers.
unfoldable pub binop : TokenKind → Option (BinaryOp × ℕ × ℕ)
binop star = some (mul, 7, 8)
binop TokenKind.slash = some (div, 7, 8)
binop percent = some (rem, 7, 8)
binop plus = some (add, 6, 7)
binop minus = some (sub, 6, 7)
binop TokenKind.lt = some (BinaryOp.lt, 5, 6)
binop TokenKind.lt_eq = some (BinaryOp.lt_eq, 5, 6)
binop TokenKind.gt = some (BinaryOp.gt, 5, 6)
binop TokenKind.gt_eq = some (BinaryOp.gt_eq, 5, 6)
binop eq_eq = some (BinaryOp.eq, 4, 5)
binop bang_eq = some (not_eq, 4, 5)
binop and_kw = some (and, 3, 4)
binop or_kw = some (or, 2, 3)
binop _ = none

unfoldable pub prefix_op : TokenKind → Option UnaryOp
prefix_op not_kw = some UnaryOp.not
prefix_op minus = some neg
prefix_op _ = none

-- What can be called.
unfoldable pub callee_of : Expr → Option AstPath
callee_of (Expr.ident name sp) = some (record { segments = name ∷ []; sep = single; span = sp })
callee_of (path p sp) = some p
callee_of _ = none

unfoldable pub sep_of : TokenKind → Option PathSep
sep_of TokenKind.dot = some PathSep.dot
sep_of TokenKind.slash = some PathSep.slash
sep_of _ = none

-- `sep != PathSep::Single && sep != next_sep`
unfoldable pub is_mixed : PathSep → PathSep → Bool
is_mixed single s = false
is_mixed PathSep.dot PathSep.dot = false
is_mixed PathSep.dot _ = true
is_mixed PathSep.slash PathSep.slash = false
is_mixed PathSep.slash _ = true

-- An expression of a path: a name when it has one segment.
unfoldable pub path_expr : AstPath → Expr
path_expr p = of_segments p.segments
  where
    of_segments : List Bytes → Expr
    of_segments (name ∷ []) = Expr.ident name p.span
    of_segments _ = path p p.span

module _ (tokens : List Token) (file_path : Bytes) (source_file_id : ℕ) where
  abbrev expects : TokenKind → Parse (Option Token)
  expects k = expect tokens file_path source_file_id k

  abbrev reports : Bytes → Bytes → Span → Parse (Unit {0})
  reports = error tokens file_path source_file_id

  abbrev path_of : Span → List Bytes → PathSep → Span → Parse (Option AstPath)
  path_of first segments sep end =
      pure (some (record { segments = segments; sep = sep; span = join first end }))

  -- The loop of `parse_path`.
  unfoldable pub path_segments : ℕ → Span → List Bytes → PathSep → Span → Parse (Option AstPath)
  path_segments zero first segments sep end = λ s. out_of_fuel
  path_segments (suc fuel) first segments sep end = kind tokens file_path source_file_id >>= λ k.
      elim (sep_of k) [
        | none ↦ path_of first segments sep end
        | some next_sep ↦ elim (is_mixed sep next_sep) [
          | true ↦ do
            t ← current tokens file_path source_file_id
            reports (text "E0206") (text "mixed path separators are forbidden") t.span
            path_of first segments sep end
          | false ↦ do
            sep_tok ← bump tokens file_path source_file_id
            seg ← expects ident
            elim seg [
              | none ↦ path_of first segments next_sep end
              | some tok ↦ path_segments fuel first (segments ++ tok.lexeme ∷ []) next_sep tok.span
            ]
        ]
      ]

  unfoldable pub parse_path : Parse (Option AstPath)
  parse_path =
      try (expects ident) λ first.
        path_segments (suc (length tokens)) first.span (first.lexeme ∷ []) single first.span

  unfoldable pub parse_type_ref : Parse (Option TypeRef)
  parse_type_ref = do
    start ← current tokens file_path source_file_id
    is_pointer ← at tokens file_path source_file_id star
    elim is_pointer [
      | true ↦ do
        star_tok ← bump tokens file_path source_file_id
        try (expects ident) λ name.
            pure
              (some (record { name = text "*" ++ name.lexeme; span = join start.span name.span }))
      | false ↦
          try (expects ident) λ tok. pure (some (record { name = tok.lexeme; span = tok.span }))
    ]

  -- `parse_primary`, on the kind of the current token and what parses an expression in parentheses.
  unfoldable pub parse_primary : Parse Expr → TokenKind → Parse Expr
  parse_primary nested TokenKind.int_lit = do
    tok ← bump tokens file_path source_file_id
    pure (Expr.int_lit tok.lexeme (unwrap_or 0 (parse_int_value tok.lexeme)) tok.span)
  parse_primary nested TokenKind.str_lit = do
    tok ← bump tokens file_path source_file_id
    bytes ← lift (decode_string tok.lexeme)
    pure (Expr.str_lit tok.lexeme bytes tok.span)
  parse_primary nested true_kw = do
    tok ← bump tokens file_path source_file_id
    pure (bool_lit true tok.span)
  parse_primary nested false_kw = do
    tok ← bump tokens file_path source_file_id
    pure (bool_lit false tok.span)
  parse_primary nested TokenKind.ident = do
    o ← parse_path
    p ← lift (or_panic o)
    pure (path_expr p)
  parse_primary nested l_paren = do
    paren ← bump tokens file_path source_file_id
    e ← nested
    closed ← expects r_paren
    pure e
  parse_primary nested _ = do
    tok ← bump tokens file_path source_file_id
    reports (text "E0206") (text "invalid expression") tok.span
    pure (Expr.error tok.span)

  unfoldable mutual
    pub parse_expr : ℕ → ℕ → Parse Expr
    parse_expr zero min_bp = λ s. out_of_fuel
    parse_expr (suc fuel) min_bp = do
      lhs ← parse_prefix fuel
      lhs ← finish_call fuel lhs
      binary_rest fuel min_bp lhs

    -- The loop of `parse_expr`.
    pub binary_rest : ℕ → ℕ → Expr → Parse Expr
    binary_rest zero min_bp lhs = λ s. out_of_fuel
    binary_rest (suc fuel) min_bp lhs = kind tokens file_path source_file_id >>= λ k.
        elim (binop k) [
          | none ↦ pure lhs
          | some (op, left_bp, right_bp) ↦ elim (ltb left_bp min_bp) [
            | true ↦ pure lhs
            | false ↦ do
              op_tok ← bump tokens file_path source_file_id
              rhs ← parse_expr fuel right_bp
              binary_rest fuel min_bp (binary op lhs rhs (join (expr_span lhs) (expr_span rhs)))
          ]
        ]

    pub parse_prefix : ℕ → Parse Expr
    parse_prefix zero = λ s. out_of_fuel
    parse_prefix (suc fuel) = kind tokens file_path source_file_id >>= λ k. elim (prefix_op k) [
      | some op ↦ do
        start ← bump tokens file_path source_file_id
        e ← parse_expr fuel 8
        pure (unary op e (join start.span (expr_span e)))
      | none ↦ parse_primary (parse_expr fuel 0) k
    ]

    pub finish_call : ℕ → Expr → Parse Expr
    finish_call zero lhs = λ s. out_of_fuel
    finish_call (suc fuel) lhs = elim (callee_of lhs) [
      | none ↦ pure lhs
      | some callee ↦ starts_arg tokens file_path source_file_id >>= λ b. elim b [
        | false ↦ pure lhs
        | true ↦ do
          r ← call_args fuel (expr_span lhs)
          pure (call callee r.0 (join (expr_span lhs) r.1))
      ]
    ]

    -- The loop of `finish_call`: the arguments, and the span of the last one.
    pub call_args : ℕ → Span → Parse (Exprs × Span)
    call_args zero end = λ s. out_of_fuel
    call_args (suc fuel) end = starts_arg tokens file_path source_file_id >>= λ b. elim b [
      | false ↦ pure (no_exprs, end)
      | true ↦ do
        arg ← parse_prefix fuel
        r ← call_args fuel (expr_span arg)
        pure (more_exprs arg r.0, r.1)
    ]
