-- ===== src/Sema/WellFormed/Statements.antt =====
-- The checker of sema.rs accepts a statement exactly when it is well formed.
use snap_surf_lang.Prelude.{
  ne_of_text_eq, ℕ, Bytes, text, text_eq, text_eq_iff, Bool, true, false, not, [], Option, none,
  some, ◌≡◌, ◌≢◌, refl, inl, inr, ◌==◌, Bool-cases, Option-cases, arith,
}
use snap_surf_lang.Prelude.Maps.{get}
use snap_surf_lang.Diagnostic.{Span}
use snap_surf_lang.Ast.{
  TypeRef, Expr, Stmt, Block, Stmts, ElseBlock, let_stmt, mut_stmt, assign_stmt, expr_span,
  ret_stmt, if_stmt, loop_stmt, while_stmt, break_stmt, continue_stmt, unsafe_stmt, expr_stmt,
  error_stmt, block, no_stmts, more_stmts, no_else, else_block,
}
use snap_surf_lang.Sema.Types.{FnCtx, named}
use snap_surf_lang.Sema.Emit.{append-eq-nil, when-silent, when}
use snap_surf_lang.Sema.Exprs.{Checker, expr_type, require_type, requires}
use snap_surf_lang.Sema.Scope.{Extends, check_stmt-Extends, check_block-Extends}
use snap_surf_lang.Sema.Stmts.{
  check_stmt, check_block, check_stmts, check_else, declare_var, assign, check_ret, condition,
  enter_loop, enter_unsafe,
}
use snap_surf_lang.Sema.Typing.{HasTy, Agrees}
use snap_surf_lang.Sema.Typing.Operators.{not-false, cons-ne-nil, is_bool-eq, require_type-Agrees}
use snap_surf_lang.Sema.Typing.Sound.{expr_type-HasTy}
use snap_surf_lang.Sema.WellFormed.{
  with_vars, with_var, WfStmt, let_ok, mut_ok, assign_ok, ret_void, ret_value, if_ok, loop_ok,
  while_ok, break_ok, continue_ok, unsafe_ok, expr_ok, WfBlock, block_ok, WfStmts, end_ok, then_ok,
  WfElse, no_else_ok, else_ok,
}

nonzero : {d : ℕ} → (d == 0) ≡ false → d ≢ 0
nonzero h = λ z. ground arith

restored : {c d : FnCtx} → Extends c d → d ≡ with_vars c d.vars
restored x = cc

module _ (self : Checker) where
  typed_as :
      (ctx : FnCtx) (p : Bytes) (e : Expr) (sp : Span)
      → (expr_type self ctx e).0 ≡ []
      → (require_type self p (expr_type self ctx e).1 sp).0 ≡ []
      → HasTy self ctx e (expr_type self ctx e).1 × Agrees p (expr_type self ctx e).1
  typed_as ctx p e sp h r = (expr_type-HasTy self ctx e h, require_type-Agrees self p _ sp r)

  condition-HasTy :
      (ctx : FnCtx) (e : Expr) (message : Bytes)
      → (condition self ctx e message).0 ≡ []
      → HasTy self ctx e (named (text "bool"))
  unfolding condition
  condition-HasTy ctx e message h =
      let (x, y) = append-eq-nil (expr_type self ctx e).0 _ h in
      rw (← is_bool-eq _ (not-false (when-silent _ _ _ _ _ y))) (expr_type-HasTy self ctx e x)

  declared_ok :
      (ctx : FnCtx) (n : Bytes) (ty : TypeRef) (e : Expr) (m : Bool) (sp : Span)
      → (declare_var self ctx n ty e m sp).0 ≡ []
      → (get n ctx.vars ≡ none)
        × HasTy self ctx e (expr_type self ctx e).1
        × Agrees ty.name (expr_type self ctx e).1
        × ((declare_var self ctx n ty e m sp).1.vars ≡ with_var n ty m ctx.vars)
  unfolding declare_var
  declared_ok ctx n ty e m sp h = elim (Option-cases (get n ctx.vars)) [
    | inl q ↦
        let (x, r) = append-eq-nil (expr_type self ctx e).0 _ (rw q at h) in
        let (t, a) = typed_as ctx ty.name e (expr_span e) x (append-eq-nil _ [] r).0 in
        (q, t, a, rw q refl)
    | inr (v, q) ↦ absurd (cons-ne-nil (rw q at h))
  ]

  assigned_ok :
      (ctx : FnCtx) (n : Bytes) (e : Expr) (sp : Span)
      → (assign self ctx n e sp).0 ≡ []
      → WfStmt self ctx (assign_stmt n e sp) ctx.vars
  unfolding assign
  assigned_ok ctx n e sp h = elim (Option-cases (get n ctx.vars)) [
    | inl q ↦ absurd (cons-ne-nil (rw (q, assign) at h))
    | inr (info, q) ↦
        let (m, r) = append-eq-nil (when (not info.mutable) _).0 _ (rw (q, assign) at h) in
        let (x, r) = append-eq-nil (expr_type self ctx e).0 _ r in
        let (t, a) = typed_as ctx info.ty e (expr_span e) x r in
        assign_ok q (not-false (when-silent _ _ _ _ _ m)) t a
  ]

  returned_ok :
      (ctx : FnCtx) (e : Option Expr) (sp : Span)
      → (check_ret self ctx e sp).0 ≡ []
      → WfStmt self ctx (ret_stmt e sp) ctx.vars
  unfolding check_ret
  returned_ok ctx none sp h = ret_void ((text_eq_iff _ _).0 (not-false (when-silent _ _ _ _ _ h)))
  returned_ok ctx (some e) sp h = elim (Bool-cases (text_eq ctx.return_type (text "void"))) [
    | inl q ↦ absurd (cons-ne-nil (rw q at h))
    | inr q ↦
        let (x, r) = append-eq-nil (expr_type self ctx e).0 _ (rw q at h) in
        let (t, a) = typed_as ctx ctx.return_type e (expr_span e) x r in
        ret_value (ne_of_text_eq q) t a
  ]

  mutual
    unfolding check_stmt check_block check_stmts check_else

    check_stmt-WfStmt :
        (s : Stmt) (ctx : FnCtx)
        → (check_stmt self s ctx).0 ≡ []
        → WfStmt self ctx s (check_stmt self s ctx).1.vars
    check_stmt-WfStmt (let_stmt n ty e sp) ctx h =
        let (q, t, a, v) = declared_ok ctx n ty e false sp h in rw v (let_ok q t a)
    check_stmt-WfStmt (mut_stmt n ty e sp) ctx h =
        let (q, t, a, v) = declared_ok ctx n ty e true sp h in rw v (mut_ok q t a)
    check_stmt-WfStmt (assign_stmt n e sp) ctx h = assigned_ok ctx n e sp (append-eq-nil _ _ h).0
    check_stmt-WfStmt (ret_stmt e sp) ctx h = returned_ok ctx e sp (append-eq-nil _ _ h).0
    check_stmt-WfStmt (if_stmt c t e sp) ctx h =
        let (x, h) = append-eq-nil (condition self ctx c _).0 _ h in
        let (y, z) = append-eq-nil (check_block self t ctx).0 _ h in
        if_ok (condition-HasTy ctx c _ x) (check_block-WfBlock t ctx y) (
          rw (← restored (check_block-Extends self t ctx))
            (check_else-WfElse e (check_block self t ctx).1 z))
    check_stmt-WfStmt (loop_stmt b sp) ctx h =
        loop_ok (check_block-WfBlock b (enter_loop self ctx) (append-eq-nil _ _ h).0)
    check_stmt-WfStmt (while_stmt c b sp) ctx h =
        let (x, h) = append-eq-nil (condition self ctx c _).0 _ h in
        while_ok (condition-HasTy ctx c _ x)
          (check_block-WfBlock b (enter_loop self ctx) (append-eq-nil _ _ h).0)
    check_stmt-WfStmt (break_stmt sp) ctx h =
        break_ok (nonzero (when-silent (ctx.loop_depth == 0) _ _ _ _ (append-eq-nil _ _ h).0))
    check_stmt-WfStmt (continue_stmt sp) ctx h =
        continue_ok (nonzero (when-silent (ctx.loop_depth == 0) _ _ _ _ (append-eq-nil _ _ h).0))
    check_stmt-WfStmt (unsafe_stmt b sp) ctx h =
        let (x, h) = append-eq-nil (when (not (requires self (text "unsafe"))) _).0 _ h in
        unsafe_ok (not-false (when-silent _ _ _ _ _ x))
          (check_block-WfBlock b (enter_unsafe self ctx) (append-eq-nil _ _ h).0)
    check_stmt-WfStmt (expr_stmt e sp) ctx h =
        expr_ok (expr_type-HasTy self ctx e (append-eq-nil _ _ h).0)
    check_stmt-WfStmt (error_stmt sp) ctx h = absurd (cons-ne-nil h)

    pub check_block-WfBlock :
        (b : Block) (ctx : FnCtx)
        → (check_block self b ctx).0 ≡ []
        → WfBlock self ctx b (check_block self b ctx).1.vars
    check_block-WfBlock (block ss sp) ctx h = block_ok (check_stmts-WfStmts ss ctx h)

    check_stmts-WfStmts :
        (ss : Stmts) (ctx : FnCtx)
        → (check_stmts self ss ctx).0 ≡ []
        → WfStmts self ctx ss (check_stmts self ss ctx).1.vars
    check_stmts-WfStmts no_stmts ctx h = end_ok
    check_stmts-WfStmts (more_stmts s ss) ctx h =
        let (x, y) = append-eq-nil (check_stmt self s ctx).0 _ h in
        then_ok (check_stmt-WfStmt s ctx x) (
          rw (← restored (check_stmt-Extends self s ctx))
            (check_stmts-WfStmts ss (check_stmt self s ctx).1 y))

    check_else-WfElse :
        (e : ElseBlock) (ctx : FnCtx)
        → (check_else self e ctx).0 ≡ []
        → WfElse self ctx e (check_else self e ctx).1.vars
    check_else-WfElse no_else ctx h = no_else_ok
    check_else-WfElse (else_block b) ctx h = else_ok (check_block-WfBlock b ctx h)
