-- ===== src/Sema/WellFormed/Accepts.antt =====
-- The checker of sema.rs accepts each well-formed statement, and leaves the variables that the
-- rules say.
use snap_surf_lang.Prelude.{
  ℕ, ◌+◌, ◌-◌, Bytes, text, text_eq_refl, text_eq_of_ne, Bool, true, false, [], none, ◌≡◌, refl,
  arith,
}
use snap_surf_lang.Prelude.Maps.{get}
use snap_surf_lang.Diagnostic.{Span}
use snap_surf_lang.Ast.{TypeRef, Expr, Stmt, Block, Stmts, ElseBlock, expr_span}
use snap_surf_lang.Sema.Types.{FnCtx, Ty, named}
use snap_surf_lang.Sema.Emit.{pure}
use snap_surf_lang.Sema.Exprs.{Checker}
use snap_surf_lang.Sema.Stmts.{
  check_stmt, check_block, check_stmts, check_else, declare_var, assign, check_ret, condition,
  enter_loop, enter_unsafe, leave_loop, leave_unsafe,
}
use snap_surf_lang.Sema.Typing.{HasTy, Agrees}
use snap_surf_lang.Sema.Typing.Operators.{Agrees-require_type, is_bool-bool}
use snap_surf_lang.Sema.Typing.Complete.{HasTy-expr_type, ne_zero}
use snap_surf_lang.Sema.WellFormed.{
  Vars, with_vars, with_var, WfStmt, let_ok, mut_ok, assign_ok, ret_void, ret_value, if_ok, loop_ok,
  while_ok, break_ok, continue_ok, unsafe_ok, expr_ok, WfBlock, block_ok, WfStmts, end_ok, then_ok,
  WfElse, no_else_ok, else_ok,
}

back : (n : ℕ) → n + 1 - 1 ≡ n
back n = omega arith

module _ (self : Checker) where
  loop_left :
      (ctx : FnCtx) (vs : Vars)
      → leave_loop self (with_vars (enter_loop self ctx) vs) ≡ with_vars ctx vs
  loop_left ctx vs = rw (back ctx.loop_depth) refl

  unsafe_left :
      (ctx : FnCtx) (vs : Vars)
      → leave_unsafe self (with_vars (enter_unsafe self ctx) vs) ≡ with_vars ctx vs
  unsafe_left ctx vs = rw (back ctx.unsafe_depth) refl

  HasTy-condition :
      (ctx : FnCtx) (e : Expr) (message : Bytes)
      → HasTy self ctx e (named (text "bool"))
      → condition self ctx e message ≡ pure tt
  unfolding condition
  HasTy-condition ctx e message h = rw (HasTy-expr_type self ctx h, is_bool-bool) refl

  declare_var-accepts :
      (ctx : FnCtx) (n : Bytes) (ty : TypeRef) (e : Expr) (m : Bool) (sp : Span) {t : Ty}
      → get n ctx.vars ≡ none
      → HasTy self ctx e t
      → Agrees ty.name t
      → declare_var self ctx n ty e m sp ≡ ([], with_vars ctx (with_var n ty m ctx.vars))
  unfolding declare_var
  declare_var-accepts ctx n ty e m sp q h a =
      rw (q, HasTy-expr_type self ctx h, Agrees-require_type self (expr_span e) a) refl

  mutual
    unfolding check_stmt check_block check_stmts check_else assign check_ret

    WfStmt-check_stmt :
        {s : Stmt} {ctx : FnCtx} {vs : Vars}
        → WfStmt self ctx s vs
        → check_stmt self s ctx ≡ ([], with_vars ctx vs)
    WfStmt-check_stmt (let_ok q h a) = declare_var-accepts _ _ _ _ false _ q h a
    WfStmt-check_stmt (mut_ok q h a) = declare_var-accepts _ _ _ _ true _ q h a
    WfStmt-check_stmt (assign_ok {ctx = ctx} {e = e} q m h a) =
        rw (assign, q, m, HasTy-expr_type self ctx h, Agrees-require_type self (expr_span e) a) refl
    WfStmt-check_stmt (ret_void q) = rw (q, text_eq_refl) refl
    WfStmt-check_stmt (ret_value {ctx = ctx} {e = e} q h a) =
        rw
          (
            text_eq_of_ne _ _ q,
            HasTy-expr_type self ctx h,
            Agrees-require_type self (expr_span e) a,
          )
          refl
    WfStmt-check_stmt (if_ok {ctx = ctx} {c = c} h b e) =
        rw (HasTy-condition ctx c _ h, WfBlock-check_block b, WfElse-check_else e) refl
    WfStmt-check_stmt (loop_ok {ctx = ctx} {vs = vs} b) =
        rw (WfBlock-check_block b, loop_left ctx vs) refl
    WfStmt-check_stmt (while_ok {ctx = ctx} {c = c} {vs = vs} h b) =
        rw (HasTy-condition ctx c _ h, WfBlock-check_block b, loop_left ctx vs) refl
    WfStmt-check_stmt (break_ok {ctx = ctx} n) = rw (ne_zero ctx.loop_depth n) refl
    WfStmt-check_stmt (continue_ok {ctx = ctx} n) = rw (ne_zero ctx.loop_depth n) refl
    WfStmt-check_stmt (unsafe_ok {ctx = ctx} {vs = vs} c b) =
        rw (c, WfBlock-check_block b, unsafe_left ctx vs) refl
    WfStmt-check_stmt (expr_ok {ctx = ctx} h) = rw (HasTy-expr_type self ctx h) refl

    pub WfBlock-check_block :
        {b : Block} {ctx : FnCtx} {vs : Vars}
        → WfBlock self ctx b vs
        → check_block self b ctx ≡ ([], with_vars ctx vs)
    WfBlock-check_block (block_ok ss) = WfStmts-check_stmts ss

    WfStmts-check_stmts :
        {ss : Stmts} {ctx : FnCtx} {vs : Vars}
        → WfStmts self ctx ss vs
        → check_stmts self ss ctx ≡ ([], with_vars ctx vs)
    WfStmts-check_stmts end_ok = refl
    WfStmts-check_stmts (then_ok s ss) = rw (WfStmt-check_stmt s, WfStmts-check_stmts ss) refl

    WfElse-check_else :
        {e : ElseBlock} {ctx : FnCtx} {vs : Vars}
        → WfElse self ctx e vs
        → check_else self e ctx ≡ ([], with_vars ctx vs)
    WfElse-check_else no_else_ok = refl
    WfElse-check_else (else_ok b) = WfBlock-check_block b
