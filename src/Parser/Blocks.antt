-- ===== src/Parser/Blocks.antt =====
-- The statements and blocks of parser.rs are parsed to their end.
use snap_surf_lang.Prelude.{ℕ, suc, Bytes, Bool, true, false, List, Option, none, ◌≡◌, ◌≢◌, refl}
use snap_surf_lang.Diagnostic.{Span}
use snap_surf_lang.Token.{
  TokenKind, Token, let_kw, mut_kw, ret_kw, if_kw, loop_kw, while_kw, break_kw, continue_kw,
  unsafe_kw, else_kw, end_kw, ident, arrow, eof,
}
use snap_surf_lang.Ast.{Stmt, Block, break_stmt, continue_stmt}
use snap_surf_lang.Parser.Cursor.{
  Parse, is_kind, is_skipped, consume_statement_end, kind, and_then, pure, expect,
}
use snap_surf_lang.Parser.Stmts.{
  ends_block, parse_var, parse_assign, ret_value, parse_ret, expect_end, close_body, parse_else,
  parse_if, parse_loop, parse_while, parse_unsafe_block, parse_expr_stmt, parse_word, guarded,
  statement_at, parse_statement,
}
use snap_surf_lang.Parser.Moves.{EndsInEof, stands_at, kind-eq}
use snap_surf_lang.Parser.Steps.{
  Steps, StepsAt, pure-Steps, bind-Steps, try-Steps, branch-Steps, option-Steps, peek_kind-StepsAt,
  at-Steps, error-Steps, expect-Steps, bump-Steps, is_statement_boundary-Steps, previous_span-Steps,
  expr-Steps, bump_while-Steps, parse_type_ref-Steps, any-StepsAt, take-StepsAt,
}

pub ends_block-ne : {k : TokenKind} → ends_block k ≡ false → k ≢ eof
unfolding ends_block
ends_block-ne h e = cc

is_skipped_eof : is_skipped eof ≡ false
unfolding is_skipped
is_skipped_eof = refl

module _ (tokens : List Token) (file_path : Bytes) (source_file_id : ℕ)
    (ends : EndsInEof tokens) where
  abbrev Sts {ℓ} : {A : Type ℓ} → ℕ → Parse A → Type 0
  Sts = Steps tokens file_path source_file_id ends

  abbrev StsAt {ℓ} : {A : Type ℓ} → ℕ → TokenKind → Parse A → Type 0
  StsAt = StepsAt tokens file_path source_file_id ends

  abbrev bind {ℓ κ} :
      {A : Type ℓ} {B : Type κ} (n : ℕ) (m : Parse A) (f : A → Parse B)
      → Sts n m
      → ((a : A) → Sts n (f a))
      → Sts n (λ s. and_then (m s) f)
  bind n m f h k = bind-Steps tokens file_path source_file_id ends n m f h k

  pub skip-Steps : (n : ℕ) → Sts n (consume_statement_end tokens file_path source_file_id)
  skip-Steps n = bump_while-Steps tokens file_path source_file_id ends n is_skipped is_skipped_eof

  -- The end of a statement, and what it gives.
  finish-Steps {ℓ} :
      {A : Type ℓ} (n : ℕ) (a : A)
      → Sts n (λ s. and_then (consume_statement_end tokens file_path source_file_id s) λ _. pure a)
  finish-Steps n a =
      bind n _ _ (skip-Steps n) λ u. pure-Steps tokens file_path source_file_id ends n a

  parse_var-StepsAt :
      (n : ℕ) (k : TokenKind) (mutable : Bool)
      → k ≢ eof
      → StsAt n k (parse_var tokens file_path source_file_id mutable)
  unfolding parse_var
  parse_var-StepsAt n k mutable ne = take-StepsAt tokens file_path source_file_id ends n k _ ne λ t.
      try-Steps tokens file_path source_file_id ends n _ _
        (expect-Steps tokens file_path source_file_id ends n ident)
        λ name.
          try-Steps tokens file_path source_file_id ends n _ _
            (parse_type_ref-Steps tokens file_path source_file_id ends n)
            λ ty.
              try-Steps tokens file_path source_file_id ends n _ _
                (expect-Steps tokens file_path source_file_id ends n TokenKind.eq)
                λ eq_tok.
                  bind n _ _ (expr-Steps tokens file_path source_file_id ends n)
                    λ e. finish-Steps n _

  parse_assign-StepsAt :
      (n : ℕ) (k : TokenKind) → k ≢ eof → StsAt n k (parse_assign tokens file_path source_file_id)
  unfolding parse_assign
  parse_assign-StepsAt n k ne = take-StepsAt tokens file_path source_file_id ends n k _ ne λ t.
      bind n _ _ (expect-Steps tokens file_path source_file_id ends n TokenKind.eq) λ eq_tok.
        bind n _ _ (expr-Steps tokens file_path source_file_id ends n) λ e. finish-Steps n _

  ret_value-Steps : (n : ℕ) → Sts n (ret_value tokens file_path source_file_id)
  unfolding ret_value
  ret_value-Steps n =
      bind n _ _ (is_statement_boundary-Steps tokens file_path source_file_id ends n) λ b.
        branch-Steps tokens file_path source_file_id ends n b _ _
          (pure-Steps tokens file_path source_file_id ends n _)
          (bind n _ _ (expr-Steps tokens file_path source_file_id ends n)
            λ e. pure-Steps tokens file_path source_file_id ends n _)

  parse_ret-StepsAt :
      (n : ℕ) (k : TokenKind) → k ≢ eof → StsAt n k (parse_ret tokens file_path source_file_id)
  unfolding parse_ret
  parse_ret-StepsAt n k ne =
      take-StepsAt tokens file_path source_file_id ends n k _ ne
        λ t. bind n _ _ (ret_value-Steps n) λ e. finish-Steps n _

  pub expect_end-Steps : (n : ℕ) (sp : Span) → Sts n (expect_end tokens file_path source_file_id sp)
  unfolding expect_end
  expect_end-Steps n sp =
      bind n _ _ (expect-Steps tokens file_path source_file_id ends n end_kw) λ o.
        option-Steps tokens file_path source_file_id ends n o _ _
          (error-Steps tokens file_path source_file_id ends n _ _ sp)
          λ t. pure-Steps tokens file_path source_file_id ends n tt

  close_body-Steps : (n : ℕ) (a b : Span) → Sts n (close_body tokens file_path source_file_id a b)
  unfolding close_body
  close_body-Steps n a b = bind n _ _ (expect_end-Steps n b) λ u.
      bind n _ _ (previous_span-Steps tokens file_path source_file_id ends n)
        λ end. finish-Steps n _

  open_body-Steps :
      (n : ℕ)
      → Sts n (λ s.
        and_then
          (expect tokens file_path source_file_id arrow s)
          λ o. consume_statement_end tokens file_path source_file_id)
  open_body-Steps n =
      bind n _ _ (expect-Steps tokens file_path source_file_id ends n arrow) λ o. skip-Steps n

  parse_expr_stmt-Steps : (n : ℕ) → Sts n (parse_expr_stmt tokens file_path source_file_id)
  unfolding parse_expr_stmt
  parse_expr_stmt-Steps n =
      bind n _ _ (expr-Steps tokens file_path source_file_id ends n) λ e. finish-Steps n _

  parse_word-StepsAt :
      (n : ℕ) (k : TokenKind) (stmt : Span → Stmt)
      → k ≢ eof
      → StsAt n k (parse_word tokens file_path source_file_id stmt)
  unfolding parse_word
  parse_word-StepsAt n k stmt ne =
      take-StepsAt tokens file_path source_file_id ends n k _ ne λ t. finish-Steps n _

  guarded-StepsAt :
      (n : ℕ) (k j : TokenKind) (m : Parse (Option Stmt))
      → StsAt n k m
      → StsAt n k (guarded tokens file_path source_file_id j m)
  unfolding guarded
  guarded-StepsAt n k j m h =
      peek_kind-StepsAt tokens file_path source_file_id ends n k 1 (λ next. is_kind next j) m _ h
        (any-StepsAt tokens file_path source_file_id ends n k _ (parse_expr_stmt-Steps (suc n)))

  -- The statements with blocks, where the block takes at most so many tokens.
  module _ (n : ℕ) (nested : Parse Block) (inner : Sts n nested) where
    parse_else-Steps : Sts n (parse_else tokens file_path source_file_id nested)
    unfolding parse_else
    parse_else-Steps = bind n _ _ (at-Steps tokens file_path source_file_id ends n else_kw) λ b.
        branch-Steps tokens file_path source_file_id ends n b _ _
          (bind n _ _ (bump-Steps tokens file_path source_file_id ends n) λ t.
            bind n _ _ (open_body-Steps n)
              λ u. bind n _ _ inner λ body. pure-Steps tokens file_path source_file_id ends n _)
          (pure-Steps tokens file_path source_file_id ends n _)

    parse_if-StepsAt :
        (k : TokenKind) → k ≢ eof → StsAt n k (parse_if tokens file_path source_file_id nested)
    unfolding parse_if
    parse_if-StepsAt k ne = take-StepsAt tokens file_path source_file_id ends n k _ ne λ t.
        bind n _ _ (expr-Steps tokens file_path source_file_id ends n) λ e.
          bind n _ _ (open_body-Steps n) λ u. bind n _ _ inner λ body.
            bind n _ _ parse_else-Steps λ branch.
              bind n _ _ (close_body-Steps n _ _)
                λ sp. pure-Steps tokens file_path source_file_id ends n _

    parse_loop-StepsAt :
        (k : TokenKind) → k ≢ eof → StsAt n k (parse_loop tokens file_path source_file_id nested)
    unfolding parse_loop
    parse_loop-StepsAt k ne = take-StepsAt tokens file_path source_file_id ends n k _ ne λ t.
        bind n _ _ (open_body-Steps n) λ u. bind n _ _ inner λ body.
          bind n _ _ (close_body-Steps n _ _)
            λ sp. pure-Steps tokens file_path source_file_id ends n _

    parse_while-StepsAt :
        (k : TokenKind) → k ≢ eof → StsAt n k (parse_while tokens file_path source_file_id nested)
    unfolding parse_while
    parse_while-StepsAt k ne = take-StepsAt tokens file_path source_file_id ends n k _ ne λ t.
        bind n _ _ (expr-Steps tokens file_path source_file_id ends n) λ e.
          bind n _ _ (open_body-Steps n) λ u. bind n _ _ inner λ body.
            bind n _ _ (close_body-Steps n _ _)
              λ sp. pure-Steps tokens file_path source_file_id ends n _

    parse_unsafe_block-StepsAt :
        (k : TokenKind)
        → k ≢ eof
        → StsAt n k (parse_unsafe_block tokens file_path source_file_id nested)
    unfolding parse_unsafe_block
    parse_unsafe_block-StepsAt k ne =
        take-StepsAt tokens file_path source_file_id ends n k _ ne λ t.
          bind n _ _ (open_body-Steps n) λ u. bind n _ _ inner λ body.
            bind n _ _ (close_body-Steps n _ _)
              λ sp. pure-Steps tokens file_path source_file_id ends n _

    else_arm-StepsAt : StsAt n else_kw (statement_at tokens file_path source_file_id nested else_kw)
    unfolding statement_at
    else_arm-StepsAt =
        take-StepsAt tokens file_path source_file_id ends n else_kw _ (λ q. cc)
          λ t.
            bind n _ _ (error-Steps tokens file_path source_file_id ends n _ _ t.span)
              λ u. pure-Steps tokens file_path source_file_id ends n _

    expr_arm-StepsAt : (k : TokenKind) → StsAt n k (parse_expr_stmt tokens file_path source_file_id)
    expr_arm-StepsAt k =
        any-StepsAt tokens file_path source_file_id ends n k _ (parse_expr_stmt-Steps (suc n))

    none_arm-StepsAt : (k : TokenKind) → StsAt {A = Option Stmt} n k (pure none)
    none_arm-StepsAt k =
        any-StepsAt tokens file_path source_file_id ends n k _
          (pure-Steps tokens file_path source_file_id ends (suc n) _)

    statement_at-StepsAt :
        (k : TokenKind) → StsAt n k (statement_at tokens file_path source_file_id nested k)
    unfolding statement_at
    statement_at-StepsAt let_kw = parse_var-StepsAt n let_kw false λ q. cc
    statement_at-StepsAt mut_kw = parse_var-StepsAt n mut_kw true λ q. cc
    statement_at-StepsAt ret_kw = parse_ret-StepsAt n ret_kw λ q. cc
    statement_at-StepsAt if_kw = parse_if-StepsAt if_kw λ q. cc
    statement_at-StepsAt loop_kw = parse_loop-StepsAt loop_kw λ q. cc
    statement_at-StepsAt while_kw = parse_while-StepsAt while_kw λ q. cc
    statement_at-StepsAt break_kw = parse_word-StepsAt n break_kw break_stmt λ q. cc
    statement_at-StepsAt continue_kw = parse_word-StepsAt n continue_kw continue_stmt λ q. cc
    statement_at-StepsAt unsafe_kw =
        guarded-StepsAt n unsafe_kw arrow _ (parse_unsafe_block-StepsAt unsafe_kw λ q. cc)
    statement_at-StepsAt else_kw = else_arm-StepsAt
    statement_at-StepsAt ident =
        guarded-StepsAt n ident TokenKind.eq _ (parse_assign-StepsAt n ident λ q. cc)
    statement_at-StepsAt eof = none_arm-StepsAt eof
    statement_at-StepsAt end_kw = none_arm-StepsAt end_kw
    statement_at-StepsAt _ = expr_arm-StepsAt _

    kind_then-Steps : Sts (suc n) (λ s.
        and_then
          (kind tokens file_path source_file_id s)
          (statement_at tokens file_path source_file_id nested))
    unfolding Steps StepsAt
    kind_then-Steps s i b =
        let (k, h) = stands_at tokens file_path source_file_id s i in
        rw (kind-eq tokens file_path source_file_id s k h) (statement_at-StepsAt k s i h b)

    pub parse_statement-Steps : Sts (suc n) (parse_statement tokens file_path source_file_id nested)
    unfolding parse_statement
    parse_statement-Steps = bind (suc n) _ _ (skip-Steps (suc n)) λ u. kind_then-Steps
