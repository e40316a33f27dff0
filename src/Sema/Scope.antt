-- ===== src/Sema/Scope.antt =====
-- What the checker of sema.rs keeps from one statement to the next.
use snap_surf_lang.Prelude.{
  Bytes, Bool, List, true, false, none, some, ◌≡◌, inl, inr, refl, text_eq, text_eq_iff, Bool-cases,
  Option-cases, arith,
}
use snap_surf_lang.Prelude.Maps.{get, get-insert}
use snap_surf_lang.Diagnostic.{Span}
use snap_surf_lang.Ast.{
  TypeRef, Expr, Stmt, Block, Stmts, ElseBlock, let_stmt, mut_stmt, assign_stmt, ret_stmt, if_stmt,
  loop_stmt, while_stmt, break_stmt, continue_stmt, unsafe_stmt, expr_stmt, error_stmt, block,
  no_stmts, more_stmts, no_else, else_block,
}
use snap_surf_lang.Sema.Types.{FnCtx, VarInfo}
use snap_surf_lang.Sema.Exprs.{Checker}
use snap_surf_lang.Sema.Stmts.{
  check_stmt, check_block, check_stmts, check_else, declare_var, declared, enter_loop, leave_loop,
  enter_unsafe, leave_unsafe,
}

-- The second context keeps the first one's variables with their types and mutability, its return
-- type and its depths.
pub record Extends (c d : FnCtx) : Type 0 where
  pub kept : (n : Bytes) (v : VarInfo) → get n c.vars ≡ some v → get n d.vars ≡ some v
  pub same_return : d.return_type ≡ c.return_type
  pub same_loop : d.loop_depth ≡ c.loop_depth
  pub same_unsafe : d.unsafe_depth ≡ c.unsafe_depth

same : (c : FnCtx) → Extends c c
same c = record { kept = λ n v h. h; same_return = refl; same_loop = refl; same_unsafe = refl }

both : {c d e : FnCtx} → Extends c d → Extends d e → Extends c e
both x y = record {
  kept = λ n v h. y.kept n v (x.kept n v h);
  same_return = cc;
  same_loop = cc;
  same_unsafe = cc;
}

module _ (self : Checker) where
  declared-Extends :
      (ctx : FnCtx) (name : Bytes) (ty : TypeRef) (m : Bool)
      → get name ctx.vars ≡ none
      → Extends ctx (declared self ctx name ty m)
  declared-Extends ctx name ty m q = record {
    kept = λ n v h. rw get-insert (elim (Bool-cases (text_eq name n)) [
      | inl e ↦ absurd (clash ctx.vars ((text_eq_iff name n).0 e) q h)
      | inr e ↦ rw e h
    ]);
    same_return = refl;
    same_loop = refl;
    same_unsafe = refl;
  }
    where
      clash :
          (vars : List (Bytes × VarInfo)) {a b : Bytes} {v : VarInfo}
          → a ≡ b
          → get a vars ≡ none
          → get b vars ≡ some v
          → ⊥
      clash vars e q h = cc

  declare_var-Extends :
      (ctx : FnCtx) (name : Bytes) (ty : TypeRef) (e : Expr) (m : Bool) (sp : Span)
      → Extends ctx (declare_var self ctx name ty e m sp).1
  unfolding declare_var
  declare_var-Extends ctx name ty e m sp = elim (Option-cases (get name ctx.vars)) [
    | inl q ↦ rw q (declared-Extends ctx name ty m q)
    | inr (v, q) ↦ rw q (same ctx)
  ]

  leave_loop-Extends : {c d : FnCtx} → Extends (enter_loop self c) d → Extends c (leave_loop self d)
  leave_loop-Extends x = record {
    kept = x.kept;
    same_return = x.same_return;
    same_loop = omega (arith, x.same_loop);
    same_unsafe = x.same_unsafe;
  }

  leave_unsafe-Extends :
      {c d : FnCtx} → Extends (enter_unsafe self c) d → Extends c (leave_unsafe self d)
  leave_unsafe-Extends x = record {
    kept = x.kept;
    same_return = x.same_return;
    same_loop = x.same_loop;
    same_unsafe = omega (arith, x.same_unsafe);
  }

  mutual
    unfolding check_stmt check_block check_stmts check_else

    stmt-Extends : (s : Stmt) (ctx : FnCtx) → Extends ctx (check_stmt self s ctx).1
    stmt-Extends (let_stmt n ty e sp) ctx = declare_var-Extends ctx n ty e false sp
    stmt-Extends (mut_stmt n ty e sp) ctx = declare_var-Extends ctx n ty e true sp
    stmt-Extends (assign_stmt n e sp) ctx = same ctx
    stmt-Extends (ret_stmt e sp) ctx = same ctx
    stmt-Extends (if_stmt c t e sp) ctx =
        both (check_block-Extends t ctx) (check_else-Extends e (check_block self t ctx).1)
    stmt-Extends (loop_stmt b sp) ctx =
        leave_loop-Extends (check_block-Extends b (enter_loop self ctx))
    stmt-Extends (while_stmt c b sp) ctx =
        leave_loop-Extends (check_block-Extends b (enter_loop self ctx))
    stmt-Extends (break_stmt sp) ctx = same ctx
    stmt-Extends (continue_stmt sp) ctx = same ctx
    stmt-Extends (unsafe_stmt b sp) ctx =
        leave_unsafe-Extends (check_block-Extends b (enter_unsafe self ctx))
    stmt-Extends (expr_stmt e sp) ctx = same ctx
    stmt-Extends (error_stmt sp) ctx = same ctx

    pub check_block-Extends : (b : Block) (ctx : FnCtx) → Extends ctx (check_block self b ctx).1
    check_block-Extends (block ss sp) ctx = check_stmts-Extends ss ctx

    check_stmts-Extends : (ss : Stmts) (ctx : FnCtx) → Extends ctx (check_stmts self ss ctx).1
    check_stmts-Extends no_stmts ctx = same ctx
    check_stmts-Extends (more_stmts s ss) ctx =
        both (stmt-Extends s ctx) (check_stmts-Extends ss (check_stmt self s ctx).1)

    check_else-Extends : (e : ElseBlock) (ctx : FnCtx) → Extends ctx (check_else self e ctx).1
    check_else-Extends no_else ctx = same ctx
    check_else-Extends (else_block b) ctx = check_block-Extends b ctx

  -- Checking a statement, accepted or not, never loses or retypes a variable: each variable in
  -- scope before it is in scope behind it, with the same type and mutability, and the return type
  -- and the depths of loops and of unsafe scopes are what they were.
  pub check_stmt-Extends : (s : Stmt) (ctx : FnCtx) → Extends ctx (check_stmt self s ctx).1
  check_stmt-Extends s ctx = stmt-Extends s ctx
