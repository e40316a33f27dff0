-- ===== src/Sema/Flow.antt =====
-- The control flow of statements, for sema.rs: every way in which a statement can end when
-- conditions may come out either way.
use snap_surf_lang.Prelude.{Bytes, Option, ◌≢◌}
use snap_surf_lang.Diagnostic.{Span}
use snap_surf_lang.Ast.{
  TypeRef, Expr, Stmt, Block, Stmts, ElseBlock, let_stmt, mut_stmt, assign_stmt, ret_stmt, if_stmt,
  loop_stmt, while_stmt, break_stmt, continue_stmt, unsafe_stmt, expr_stmt, error_stmt, block,
  no_stmts, more_stmts, no_else, else_block,
}

pub data Outcome : Type 0 where
  falls returns breaks continues : Outcome

-- A round of a loop that is followed by another.
abbrev pub GoesOn : Outcome → Type 0
GoesOn falls = Unit
GoesOn continues = Unit
GoesOn returns = ⊥
GoesOn breaks = ⊥

mutual
  pub data Exec : Stmt → Outcome → Type 0 where
    let_var : {n : Bytes} {ty : TypeRef} {e : Expr} {sp : Span} → Exec (let_stmt n ty e sp) falls
    mut_var : {n : Bytes} {ty : TypeRef} {e : Expr} {sp : Span} → Exec (mut_stmt n ty e sp) falls
    assign : {n : Bytes} {e : Expr} {sp : Span} → Exec (assign_stmt n e sp) falls
    ret : {e : Option Expr} {sp : Span} → Exec (ret_stmt e sp) returns
    if_true :
        {c : Expr} {t : Block} {e : ElseBlock} {sp : Span} {o : Outcome}
        → ExecBlock t o
        → Exec (if_stmt c t e sp) o
    if_false :
        {c : Expr} {t : Block} {e : ElseBlock} {sp : Span} {o : Outcome}
        → ExecElse e o
        → Exec (if_stmt c t e sp) o
    loop_break : {b : Block} {sp : Span} → ExecBlock b breaks → Exec (loop_stmt b sp) falls
    loop_return : {b : Block} {sp : Span} → ExecBlock b returns → Exec (loop_stmt b sp) returns
    loop_again :
        {b : Block} {sp : Span} {o u : Outcome}
        → ExecBlock b u
        → GoesOn u
        → Exec (loop_stmt b sp) o
        → Exec (loop_stmt b sp) o
    while_end : {c : Expr} {b : Block} {sp : Span} → Exec (while_stmt c b sp) falls
    while_break :
        {c : Expr} {b : Block} {sp : Span} → ExecBlock b breaks → Exec (while_stmt c b sp) falls
    while_return :
        {c : Expr} {b : Block} {sp : Span} → ExecBlock b returns → Exec (while_stmt c b sp) returns
    while_again :
        {c : Expr} {b : Block} {sp : Span} {o u : Outcome}
        → ExecBlock b u
        → GoesOn u
        → Exec (while_stmt c b sp) o
        → Exec (while_stmt c b sp) o
    break_out : {sp : Span} → Exec (break_stmt sp) breaks
    continue_on : {sp : Span} → Exec (continue_stmt sp) continues
    unsafe_in : {b : Block} {sp : Span} {o : Outcome} → ExecBlock b o → Exec (unsafe_stmt b sp) o
    expr_in : {e : Expr} {sp : Span} → Exec (expr_stmt e sp) falls
    error_in : {sp : Span} → Exec (error_stmt sp) falls

  pub data ExecBlock : Block → Outcome → Type 0 where
    in_block : {ss : Stmts} {sp : Span} {o : Outcome} → ExecStmts ss o → ExecBlock (block ss sp) o

  pub data ExecStmts : Stmts → Outcome → Type 0 where
    at_end : ExecStmts no_stmts falls
    after :
        {s : Stmt} {ss : Stmts} {o : Outcome}
        → Exec s falls
        → ExecStmts ss o
        → ExecStmts (more_stmts s ss) o
    leave :
        {s : Stmt} {ss : Stmts} {o : Outcome} → Exec s o → o ≢ falls → ExecStmts (more_stmts s ss) o

  pub data ExecElse : ElseBlock → Outcome → Type 0 where
    no_branch : ExecElse no_else falls
    branch : {b : Block} {o : Outcome} → ExecBlock b o → ExecElse (else_block b) o
