-- ===== src/Codegen/Preserves.antt =====
-- The code of a statement does what a run of the statement does (`emit_stmt`, `emit_block`,
-- `emit` in codegen.rs).
use snap_surf_lang.Prelude.{ℕ, Bytes, List, [], ◌∷◌, Option, ◌≡◌, ◌≢◌, refl}
use snap_surf_lang.Ast.{Expr, Stmt, Stmts, Block}
use snap_surf_lang.Codegen.Asm.{Label, Line}
use snap_surf_lang.Codegen.Stmts.{
  Names, FnEnv, Emits, ◌then◌, in_loop, expr_lines, emit_stmt, emit_block, emit_stmts, emit_else,
}
use snap_surf_lang.Codegen.Machine.{Calls, Cpu, Machine}
use snap_surf_lang.Codegen.BigStep.{
  Ending, falls, breaks, continues, returns, Gives, RunsStmt, RunsBlock, RunsStmts, let_runs,
  mut_runs, assign_runs, ret_void, ret_runs, if_true, if_false, loop_again, loop_breaks,
  loop_returns, while_done, while_again, while_breaks, while_returns, break_runs, continue_runs,
  unsafe_runs, expr_runs, block_runs, end_runs, next_runs, stops_runs, no_else_runs, else_runs,
}
use snap_surf_lang.Codegen.Routes.{Way, on, to, Goes, then-Goes, weaken-Goes, leave-Goes}
use snap_surf_lang.Codegen.Leaps.{emits-Goes}
use snap_surf_lang.Codegen.Correct.{
  LeavesLoop, Leads, Ended, nothing_runs, Does, expr_lines-Goes, emit_assign-Does, emit_value-Does,
  emit_void-Does, jump_last-Goes,
}
use snap_surf_lang.Codegen.Ifs.{if_true-Does, if_false-Does, if_else-Does}
use snap_surf_lang.Codegen.Loops.{loop_again-Does, loop_breaks-Does, loop_returns-Does}
use snap_surf_lang.Codegen.Whiles.{
  while_done-Does, while_again-Does, while_breaks-Does, while_returns-Does,
}

not_on : (ls : List Label) → LeavesLoop ls on → ⊥
not_on [] g = g
not_on (l ∷ ls) g = cc

module _ (cpu : Cpu) (callee : Bytes → Machine → Option Machine) (code : List Line)
    (functions : List Bytes) (fn : Bytes → List ℕ → Option ℕ) (calls : Calls callee fn) where
  -- Statements behind one that ends otherwise than at its end are left out.
  stops-Goes :
      (m k : Emits) (env : FnEnv) (end : Ending) (n : Names) (w : Way) (M : Machine)
      (Q : Machine → Type 0)
      → end ≢ falls
      → Leads env end w
      → Goes cpu callee code m n M w Q
      → Goes cpu callee code (m then k) n M w Q
  stops-Goes m k env end n (to l) M Q h g f = leave-Goes cpu callee code m k n M Q l f
  stops-Goes m k env falls n on M Q h g f = absurd (h refl)
  stops-Goes m k env (returns v) n on M Q h g f = cc
  stops-Goes m k env breaks n on M Q h g f = absurd (not_on env.break_labels g)
  stops-Goes m k env continues n on M Q h g f = absurd (not_on env.continue_labels g)

  expr-Does :
      (env : FnEnv) (e : Expr) (v : ℕ) (frame : ℕ → ℕ)
      → Gives cpu functions env.locals fn frame e v
      → Does cpu callee code functions fn calls (expr_lines functions env e) env frame falls frame
  expr-Does env e v frame h n w M stack l at = rw l (
      weaken-Goes cpu callee code (expr_lines functions env e) n M on
        (Ended (returns v) frame stack) _
        (λ M' x. record { frame_ok = x.frame_ok; stack_ok = x.stack_ok; returned = tt })
        (expr_lines-Goes cpu callee code functions fn calls env e v frame stack n M h at))

  module _ (locals : List (Bytes × ℕ)) where
    given :
        (env : FnEnv)
        → env.locals ≡ locals
        → (frame : ℕ → ℕ) (e : Expr) (v : ℕ) → Gives cpu functions locals fn frame e v
        → Gives cpu functions env.locals fn frame e v
    given env same frame e v h = rw same h

    mutual
      unfolding emit_stmt emit_block emit_stmts emit_else

      pub emit_stmt-Does :
          (env : FnEnv) (same : env.locals ≡ locals) {frame frame' : ℕ → ℕ} {s : Stmt}
          {end : Ending}
          → RunsStmt cpu functions locals fn frame s end frame'
          → Does cpu callee code functions fn calls (emit_stmt functions env s) env frame end frame'
      emit_stmt-Does env same (let_runs {frame} {name} {e = e} offset v g h) =
          emit_assign-Does cpu callee code functions fn calls env name e offset v frame (rw same g)
            (given env same _ _ _ h)
      emit_stmt-Does env same (mut_runs {frame} {name} {e = e} offset v g h) =
          emit_assign-Does cpu callee code functions fn calls env name e offset v frame (rw same g)
            (given env same _ _ _ h)
      emit_stmt-Does env same (assign_runs {frame} {name} {e} offset v g h) =
          emit_assign-Does cpu callee code functions fn calls env name e offset v frame (rw same g)
            (given env same _ _ _ h)
      emit_stmt-Does env same (ret_void {frame}) =
          emit_void-Does cpu callee code functions fn calls env frame
      emit_stmt-Does env same (ret_runs {frame} {e} {v = v} h) =
          emit_value-Does cpu callee code functions fn calls env e v frame (given env same _ _ _ h)
      emit_stmt-Does env same (if_true {frame} {frame'} {c} {t} {e} {sp} {end} v h z r) =
          if_true-Does cpu callee code functions fn calls env c t e sp v frame frame' end
            (given env same _ _ _ h) z (emit_block-Does env same r)
      emit_stmt-Does env same (if_false {frame} {c = c} {t} {sp = sp} h no_else_runs) =
          if_false-Does cpu callee code functions fn calls env c t sp frame (given env same _ _ _ h)
      emit_stmt-Does env same
            (if_false {frame} {frame'} {c} {t} {sp = sp} {end} h (else_runs {b = b} r)) =
          if_else-Does cpu callee code functions fn calls env c t b sp frame frame' end
            (given env same _ _ _ h) (emit_block-Does env same r)
      emit_stmt-Does env same (loop_again {frame} {frame₁} {frame'} {b} {sp} {end₁} {end} r g s) =
          loop_again-Does cpu callee code functions fn calls env b sp frame frame₁ frame' end₁ end
            (λ start end. emit_block-Does (in_loop env start end) same r) g
            (emit_stmt-Does env same s)
      emit_stmt-Does env same (loop_breaks {frame} {frame'} {b} {sp} r) =
          loop_breaks-Does cpu callee code functions fn calls env b sp frame frame'
            λ start end. emit_block-Does (in_loop env start end) same r
      emit_stmt-Does env same (loop_returns {frame} {frame'} {b} {sp} {v} r) =
          loop_returns-Does cpu callee code functions fn calls env b sp v frame frame'
            λ start end. emit_block-Does (in_loop env start end) same r
      emit_stmt-Does env same (while_done {frame} {c} {b} {sp} h) =
          while_done-Does cpu callee code functions fn calls env c b sp frame
            (given env same _ _ _ h)
      emit_stmt-Does env same
            (while_again {frame} {frame₁} {frame'} {c} {b} {sp} {end₁} {end} v h z r g s) =
          while_again-Does cpu callee code functions fn calls env c b sp v frame frame₁ frame' end₁
            end (given env same _ _ _ h) z
            (λ start end. emit_block-Does (in_loop env start end) same r) g
            (emit_stmt-Does env same s)
      emit_stmt-Does env same (while_breaks {frame} {frame'} {c} {b} {sp} v h z r) =
          while_breaks-Does cpu callee code functions fn calls env c b sp v frame frame'
            (given env same _ _ _ h) z λ start end. emit_block-Does (in_loop env start end) same r
      emit_stmt-Does env same (while_returns {frame} {frame'} {c} {b} {sp} {r = k} v h z r) =
          while_returns-Does cpu callee code functions fn calls env c b sp v k frame frame'
            (given env same _ _ _ h) z λ start end. emit_block-Does (in_loop env start end) same r
      emit_stmt-Does env same break_runs = λ n w M stack l at.
          jump_last-Goes cpu callee code functions fn calls env.break_labels n w M _ l
            (record { frame_ok = at.frame_ok; stack_ok = at.stack_ok; returned = tt })
      emit_stmt-Does env same continue_runs = λ n w M stack l at.
          jump_last-Goes cpu callee code functions fn calls env.continue_labels n w M _ l
            (record { frame_ok = at.frame_ok; stack_ok = at.stack_ok; returned = tt })
      emit_stmt-Does env same (unsafe_runs r) = emit_block-Does env same r
      emit_stmt-Does env same (expr_runs {frame} {e} v h) =
          expr-Does env e v frame (given env same _ _ _ h)

      pub emit_block-Does :
          (env : FnEnv) (same : env.locals ≡ locals) {frame frame' : ℕ → ℕ} {b : Block}
          {end : Ending}
          → RunsBlock cpu functions locals fn frame b end frame'
          → Does cpu callee code functions fn calls
              (emit_block functions env b)
              env
              frame
              end
              frame'
      emit_block-Does env same (block_runs r) = emit_stmts-Does env same r

      emit_stmts-Does :
          (env : FnEnv) (same : env.locals ≡ locals) {frame frame' : ℕ → ℕ} {ss : Stmts}
          {end : Ending}
          → RunsStmts cpu functions locals fn frame ss end frame'
          → Does cpu callee code functions fn calls
              (emit_stmts functions env ss)
              env
              frame
              end
              frame'
      emit_stmts-Does env same end_runs = λ n w M stack l at.
          rw l (emits-Goes cpu callee code [] n M M _ (nothing_runs cpu callee M) at)
      emit_stmts-Does env same (next_runs {frame₁ = frame₁} {s = s} {ss} r q) = λ n w M stack l at.
          then-Goes cpu callee code (emit_stmt functions env s) (emit_stmts functions env ss) n M
            (Ended falls frame₁ stack) _ w (emit_stmt-Does env same r n on M stack refl at)
            λ n₁ M₁ x. emit_stmts-Does env same q n₁ w M₁ stack l x
      emit_stmts-Does env same (stops_runs {s = s} {ss} {end} h r) = λ n w M stack l at.
          stops-Goes (emit_stmt functions env s) (emit_stmts functions env ss) env end n w M _ h l
            (emit_stmt-Does env same r n w M stack l at)
