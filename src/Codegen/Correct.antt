-- ===== src/Codegen/Correct.antt =====
-- The code of statements does what the statements do (`emit_stmt`, `emit_block` in codegen.rs).
use snap_surf_lang.Prelude.{ℕ, Bytes, List, [], ◌∷◌, Option, none, some, ◌≡◌, refl, ◌∙◌}
use snap_surf_lang.Prelude.Maps.{get}
use snap_surf_lang.Ast.{Expr}
use snap_surf_lang.Codegen.Asm.{Label, Line, jmp, store_rax, xor_eax}
use snap_surf_lang.Codegen.Exprs.{emit_expr}
use snap_surf_lang.Codegen.Stmts.{
  Names, FnEnv, Emits, emits, jump_last, expr_lines, emit_assign, emit_ret,
}
use snap_surf_lang.Codegen.Machine.{Calls, Cpu, Machine, put, exec, run}
use snap_surf_lang.Codegen.Values.{emit_expr-Leaves}
use snap_surf_lang.Codegen.BigStep.{Ending, falls, breaks, continues, returns, Gives}
use snap_surf_lang.Codegen.Routes.{Way, on, to, Goes, then-Goes}
use snap_surf_lang.Codegen.Leaps.{emits-Goes, of_expr-Goes, jmp-Goes}

-- The way out of the innermost of some loops.
abbrev pub LeavesLoop : List Label → Way → Type 0
LeavesLoop [] w = ⊥
LeavesLoop (l ∷ ls) w = w ≡ to l

-- The way that the code takes where a statement ends.
abbrev pub Leads : FnEnv → Ending → Way → Type 0
Leads env falls w = w ≡ on
Leads env breaks w = LeavesLoop env.break_labels w
Leads env continues w = LeavesLoop env.continue_labels w
Leads env (returns v) w = w ≡ to env.end_label

abbrev pub Returned : Ending → Machine → Type 0
Returned (returns v) M = M.rax_word ≡ v
Returned _ M = Unit {0}

-- The state behind a statement: the frame and the stack, and the word that the function returns.
pub record Ended (end : Ending) (frame : ℕ → ℕ) (stack : List ℕ) (M : Machine) : Type 0 where
  pub frame_ok : M.frame ≡ frame
  pub stack_ok : M.stack ≡ stack
  pub returned : Returned end M

pub nothing_runs :
    (cpu : Cpu) (callee : Bytes → Machine → Option Machine) (M : Machine)
    → run cpu callee [] M ≡ some M
unfolding run
nothing_runs cpu callee M = refl

module _ (cpu : Cpu) (callee : Bytes → Machine → Option Machine) (code : List Line)
    (functions : List Bytes) (fn : Bytes → List ℕ → Option ℕ) (calls : Calls callee fn) where
  -- From a frame, the code ends as a statement does, with the frame behind the statement.
  abbrev pub Does : Emits → FnEnv → (ℕ → ℕ) → Ending → (ℕ → ℕ) → Type 0
  Does m env frame end frame' =
      (n : Names) (w : Way) (M : Machine) (stack : List ℕ)
      → Leads env end w
      → Ended falls frame stack M
      → Goes cpu callee code m n M w (Ended end frame' stack)

  pub expr_lines-Goes :
      (env : FnEnv) (e : Expr) (v : ℕ) (frame : ℕ → ℕ) (stack : List ℕ) (n : Names) (M : Machine)
      → Gives cpu functions env.locals fn frame e v
      → Ended falls frame stack M
      → Goes cpu callee code (expr_lines functions env e) n M on (Ended (returns v) frame stack)
  expr_lines-Goes env e v frame stack n M h at =
      let (M', r, x, s, f) =
        emit_expr-Leaves cpu callee functions env.locals fn calls e v n.strings M
          (rw at.frame_ok h) in
      of_expr-Goes cpu callee code (emit_expr functions env.locals e) n M M' _ r
        (record { frame_ok = f ∙ at.frame_ok; stack_ok = s ∙ at.stack_ok; returned = x })

  stored :
      (offset : ℕ) (M : Machine)
      → run cpu callee (store_rax offset ∷ []) M
        ≡ some (record M { frame = put offset M.rax_word M.frame })
  unfolding run exec
  stored offset M = refl

  pub emit_assign-Does :
      (env : FnEnv) (name : Bytes) (e : Expr) (offset v : ℕ) (frame : ℕ → ℕ)
      → get name env.locals ≡ some offset
      → Gives cpu functions env.locals fn frame e v
      → Does (emit_assign functions env name e) env frame falls (put offset v frame)
  unfolding emit_assign
  emit_assign-Does env name e offset v frame g h n w M stack l at =
      rw (l, g)
        (then-Goes cpu callee code (expr_lines functions env e) (emits (store_rax offset ∷ [])) n M
          _ _ on (expr_lines-Goes env e v frame stack n M h at)
          λ n₁ M₁ x.
            emits-Goes cpu callee code (store_rax offset ∷ []) n₁ M₁ _ _ (stored offset M₁)
              (record {
                frame_ok = rw (x.returned, x.frame_ok) refl;
                stack_ok = x.stack_ok;
                returned = tt;
              }))

  pub emit_value-Does :
      (env : FnEnv) (e : Expr) (v : ℕ) (frame : ℕ → ℕ)
      → Gives cpu functions env.locals fn frame e v
      → Does (emit_ret functions env (some e)) env frame (returns v) frame
  unfolding emit_ret
  emit_value-Does env e v frame h n w M stack l at = rw l (
      then-Goes cpu callee code (expr_lines functions env e) (emits (jmp env.end_label ∷ [])) n M _
        _ (to env.end_label) (expr_lines-Goes env e v frame stack n M h at)
        λ n₁ M₁ x.
          jmp-Goes cpu callee code [] env.end_label [] n₁ M₁ M₁ _ (nothing_runs cpu callee M₁) x)

  pub emit_void-Does :
      (env : FnEnv) (frame : ℕ → ℕ) → Does (emit_ret functions env none) env frame (returns 0) frame
  unfolding emit_ret run exec
  emit_void-Does env frame n w M stack l at = rw l (
      jmp-Goes cpu callee code (xor_eax ∷ []) env.end_label [] n M (record M { rax_word = 0 }) _
        refl (record { frame_ok = at.frame_ok; stack_ok = at.stack_ok; returned = refl }))

  pub jump_last-Goes :
      (ls : List Label) (n : Names) (w : Way) (M : Machine) (Q : Machine → Type 0)
      → LeavesLoop ls w
      → Q M
      → Goes cpu callee code (emits (jump_last ls)) n M w Q
  jump_last-Goes [] n w M Q l q = absurd l
  jump_last-Goes (k ∷ ls) n w M Q l q =
      rw l (jmp-Goes cpu callee code [] k [] n M M Q (nothing_runs cpu callee M) q)
