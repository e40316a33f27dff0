-- ===== src/Sema/Returns.antt =====
-- A function that sema.rs accepts returns: `block_returns` against the control flow, and `break`
-- and `continue` against the depth of loops.
use mathlib.Core.Bool.{and-eq-true_iff}
use snap_surf_lang.Prelude.{
  ℕ, text, text_eq_of_ne, Bool, true, false, not, ◌&&◌, [], ◌≡◌, ◌≢◌, inl, inr, refl, ◌==◌, ◌∙◌,
  Bool-cases, arith,
}
use snap_surf_lang.Ast.{Stmt, Block, Stmts, ElseBlock, no_else, else_block, FnDecl}
use snap_surf_lang.Sema.Types.{FnCtx}
use snap_surf_lang.Sema.Emit.{append-eq-nil, when-silent}
use snap_surf_lang.Sema.Exprs.{Checker}
use snap_surf_lang.Sema.Stmts.{
  stmt_returns, block_returns, stmts_return, check_stmt, check_block, check_stmts, check_else,
  check_fn, declare_params, start_ctx, enter_unsafe,
}
use snap_surf_lang.Sema.Scope.{check_stmt-Extends, check_block-Extends}
use snap_surf_lang.Sema.Flow.{
  Outcome, falls, returns, breaks, continues, Exec, ExecBlock, ExecStmts, ExecElse, let_var,
  mut_var, assign, ret, if_true, if_false, loop_break, loop_return, loop_again, while_end,
  while_break, while_return, while_again, break_out, continue_on, unsafe_in, expr_in, error_in,
  in_block, at_end, after, leave, no_branch, branch,
}

-- A list of statements of which one always returns never ends by falling through.
mutual
  unfolding stmt_returns block_returns stmts_return

  stmt-ne-falls : {s : Stmt} {o : Outcome} → Exec s o → stmt_returns s ≡ true → o ≢ falls
  stmt-ne-falls let_var h = cc
  stmt-ne-falls mut_var h = cc
  stmt-ne-falls assign h = cc
  stmt-ne-falls ret h = λ q. cc
  stmt-ne-falls (if_true {e = no_else} x) h = cc
  stmt-ne-falls (if_true {e = else_block b} x) h = block-ne-falls x ((and-eq-true_iff _ _).0 h).0
  stmt-ne-falls (if_false no_branch) h = cc
  stmt-ne-falls (if_false (branch x)) h = block-ne-falls x ((and-eq-true_iff _ _).0 h).1
  stmt-ne-falls (loop_break x) h = cc
  stmt-ne-falls (loop_return x) h = cc
  stmt-ne-falls (loop_again x g y) h = cc
  stmt-ne-falls while_end h = cc
  stmt-ne-falls (while_break x) h = cc
  stmt-ne-falls (while_return x) h = cc
  stmt-ne-falls (while_again x g y) h = cc
  stmt-ne-falls break_out h = cc
  stmt-ne-falls continue_on h = cc
  stmt-ne-falls (unsafe_in x) h = cc
  stmt-ne-falls expr_in h = cc
  stmt-ne-falls error_in h = cc

  block-ne-falls : {b : Block} {o : Outcome} → ExecBlock b o → block_returns b ≡ true → o ≢ falls
  block-ne-falls (in_block x) h = stmts-ne-falls x h

  stmts-ne-falls : {ss : Stmts} {o : Outcome} → ExecStmts ss o → stmts_return ss ≡ true → o ≢ falls
  stmts-ne-falls at_end h = cc
  stmts-ne-falls (after {s = s} x y) h = elim (Bool-cases (stmt_returns s)) [
    | inl e ↦ absurd (stmt-ne-falls x e refl)
    | inr e ↦ stmts-ne-falls y (rw e at h)
  ]
  stmts-ne-falls (leave x n) h = n

-- Not out of a loop.
abbrev pub Stays : Outcome → Type 0
Stays falls = Unit
Stays returns = Unit
Stays breaks = ⊥
Stays continues = ⊥

module _ (self : Checker) where
  outside : (d : ℕ) → (d == 0) ≡ false → d ≡ 0 → ⊥
  outside d h z = ground arith

  -- Outside every loop an accepted statement ends by falling through or by returning.
  mutual
    unfolding check_stmt check_block check_stmts check_else

    stmt-Stays :
        {s : Stmt} {o : Outcome} (ctx : FnCtx)
        → Exec s o
        → (check_stmt self s ctx).0 ≡ []
        → ctx.loop_depth ≡ 0
        → Stays o
    stmt-Stays ctx let_var h z = tt
    stmt-Stays ctx mut_var h z = tt
    stmt-Stays ctx assign h z = tt
    stmt-Stays ctx ret h z = tt
    stmt-Stays ctx (if_true {t = t} x) h z =
        block-Stays ctx x (append-eq-nil _ _ (append-eq-nil _ _ h).1).0 z
    stmt-Stays ctx (if_false {t = t} x) h z =
        else-Stays (check_block self t ctx).1 x (append-eq-nil _ _ (append-eq-nil _ _ h).1).1
          ((check_block-Extends self t ctx).same_loop ∙ z)
    stmt-Stays ctx (loop_break x) h z = tt
    stmt-Stays ctx (loop_return x) h z = tt
    stmt-Stays ctx (loop_again x g y) h z = stmt-Stays ctx y h z
    stmt-Stays ctx while_end h z = tt
    stmt-Stays ctx (while_break x) h z = tt
    stmt-Stays ctx (while_return x) h z = tt
    stmt-Stays ctx (while_again x g y) h z = stmt-Stays ctx y h z
    stmt-Stays ctx break_out h z =
        outside ctx.loop_depth (when-silent (ctx.loop_depth == 0) _ _ _ _ (append-eq-nil _ _ h).0) z
    stmt-Stays ctx continue_on h z =
        outside ctx.loop_depth (when-silent (ctx.loop_depth == 0) _ _ _ _ (append-eq-nil _ _ h).0) z
    stmt-Stays ctx (unsafe_in x) h z =
        block-Stays (enter_unsafe self ctx) x (append-eq-nil _ _ (append-eq-nil _ _ h).1).0 z
    stmt-Stays ctx expr_in h z = tt
    stmt-Stays ctx error_in h z = tt

    block-Stays :
        {b : Block} {o : Outcome} (ctx : FnCtx)
        → ExecBlock b o
        → (check_block self b ctx).0 ≡ []
        → ctx.loop_depth ≡ 0
        → Stays o
    block-Stays ctx (in_block x) h z = stmts-Stays ctx x h z

    stmts-Stays :
        {ss : Stmts} {o : Outcome} (ctx : FnCtx)
        → ExecStmts ss o
        → (check_stmts self ss ctx).0 ≡ []
        → ctx.loop_depth ≡ 0
        → Stays o
    stmts-Stays ctx at_end h z = tt
    stmts-Stays ctx (after {s = s} x y) h z =
        stmts-Stays (check_stmt self s ctx).1 y (append-eq-nil _ _ h).1
          ((check_stmt-Extends self s ctx).same_loop ∙ z)
    stmts-Stays ctx (leave x n) h z = stmt-Stays ctx x (append-eq-nil _ _ h).0 z

    else-Stays :
        {e : ElseBlock} {o : Outcome} (ctx : FnCtx)
        → ExecElse e o
        → (check_else self e ctx).0 ≡ []
        → ctx.loop_depth ≡ 0
        → Stays o
    else-Stays ctx no_branch h z = tt
    else-Stays ctx (branch x) h z = block-Stays ctx x h z

  -- The body of an accepted function that returns a value never falls off its end: whichever way
  -- its conditions come out, a run of it that ends does so by `ret`.
  pub check_fn-returns :
      (f : FnDecl) (o : Outcome)
      → (check_fn self f).0 ≡ []
      → f.ret.name ≢ text "void"
      → ExecBlock f.body o
      → o ≡ returns
  unfolding check_fn
  check_fn-returns f o h ne x =
      let vars = (declare_params self f.params []).1 in
      let inner = (append-eq-nil _ _ h).1 in
      let stays = block-Stays (start_ctx self f vars) x (append-eq-nil _ _ inner).0 refl in
      let returning : block_returns f.body ≡ true =
        both_false (text_eq_of_ne f.ret.name (text "void") ne)
          (when-silent _ _ _ _ _ (append-eq-nil _ _ inner).1) in
      only o stays (block-ne-falls x returning)
    where
      both_false : {a b : Bool} → a ≡ false → (not a && not b) ≡ false → b ≡ true
      both_false p q = ground arith

      only : (o : Outcome) → Stays o → o ≢ falls → o ≡ returns
      only falls s n = absurd (n refl)
      only returns s n = refl
      only breaks s n = absurd s
      only continues s n = absurd s
