-- ===== src/Codegen/Ifs.antt =====
-- The code of `if` (`emit_stmt` in codegen.rs).
use snap_surf_lang.Prelude.{ℕ, ◌+◌, Bytes, List, [], ◌∷◌, Option, ◌≢◌}
use snap_surf_lang.Diagnostic.{Span}
use snap_surf_lang.Ast.{if_stmt, Expr, Block, ElseBlock, no_else, else_block}
use snap_surf_lang.Codegen.Asm.{
  if_else, if_end, Label, local_label, Line, define, jmp, je, cmp_rax_0,
}
use snap_surf_lang.Codegen.Stmts.{
  Names, FnEnv, Emits, emits, ◌then◌, else_target, expr_lines, emit_stmt, emit_block, emit_else,
}
use snap_surf_lang.Codegen.Machine.{Calls, Cpu, Machine}
use snap_surf_lang.Codegen.BigStep.{Ending, falls, Gives}
use snap_surf_lang.Codegen.Routes.{on, skip-Lands}
use snap_surf_lang.Codegen.Leaps.{
  define-Goes, define-Lands, enter-Lands, after-Goes, after-Lands, with_labels-Goes,
}
use snap_surf_lang.Codegen.Correct.{Does}
use snap_surf_lang.Codegen.Rounds.{condition_true, condition_false, over_else}

-- The code of `if`, from its two labels.
module _ (functions : List Bytes) (env : FnEnv) where
  abbrev if_code : Expr → Block → ElseBlock → Label → Label → Emits
  if_code c t e else_label end_label =
      expr_lines functions env c
      then emits (cmp_rax_0 ∷ je (else_target e else_label end_label) ∷ [])
      then emit_block functions env t
      then emits (jmp end_label ∷ [])
      then emit_else functions env else_label e
      then emits (define end_label ∷ [])

module _ (cpu : Cpu) (callee : Bytes → Machine → Option Machine) (code : List Line)
    (functions : List Bytes) (fn : Bytes → List ℕ → Option ℕ) (calls : Calls callee fn) where
  module _ (env : FnEnv) where
    pub if_true-Does :
        (c : Expr) (t : Block) (e : ElseBlock) (sp : Span) (v : ℕ) (frame frame' : ℕ → ℕ)
        (end : Ending)
        → Gives cpu functions env.locals fn frame c v
        → v ≢ 0
        → Does cpu callee code functions fn calls (emit_block functions env t) env frame end frame'
        → Does cpu callee code functions fn calls
            (emit_stmt functions env (if_stmt c t e sp))
            env
            frame
            end
            frame'
    unfolding emit_stmt emit_else
    if_true-Does c t e sp v frame frame' end h z d = λ n w M stack l at.
        let en = n.label_id + 1 in
        let n₂ : Names = record n { label_id = en + 1 } in
        (with_labels-Goes cpu callee code if_else if_end (if_code functions env c t e) n M w _ (
          condition_true cpu callee code functions fn calls env c _ frame stack n₂ w M _
            (else_target e (local_label if_else n.label_id) (local_label if_end en)) v h z at
            λ n₁ M₁ at₁.
              after-Goes cpu callee code (emit_block functions env t) _ n₁ M₁ _ w
                (d n₁ w M₁ stack l at₁)
                λ n₃ M₃ x.
                  over_else cpu callee code functions fn calls
                    (emit_else functions env (local_label if_else n.label_id) e) if_end en n₃ M₃ _
                    x))

    pub if_false-Does :
        (c : Expr) (t : Block) (sp : Span) (frame : ℕ → ℕ)
        → Gives cpu functions env.locals fn frame c 0
        → Does cpu callee code functions fn calls
            (emit_stmt functions env (if_stmt c t no_else sp))
            env
            frame
            falls
            frame
    unfolding emit_stmt emit_else
    if_false-Does c t sp frame h = λ n w M stack l at.
        let en = n.label_id + 1 in
        rw l (
          (with_labels-Goes cpu callee code if_else if_end (if_code functions env c t no_else) n M
            on _
            (condition_false cpu callee code functions fn calls env c _ frame stack _ on M _ if_end
              en h at
              λ n₁ M₁ at₁.
                skip-Lands cpu callee code (emit_block functions env t) _ n₁ M₁ _ if_end en on λ n₂.
                  skip-Lands cpu callee code (emits (jmp (local_label if_end en) ∷ [])) _ n₂ M₁ _
                    if_end en on
                    λ n₃.
                      skip-Lands cpu callee code (emits []) _ n₃ M₁ _ if_end en on
                        λ n₄. define-Lands cpu callee code [] if_end en n₄ M₁ _ at₁)))

    pub if_else-Does :
        (c : Expr) (t b : Block) (sp : Span) (frame frame' : ℕ → ℕ) (end : Ending)
        → Gives cpu functions env.locals fn frame c 0
        → Does cpu callee code functions fn calls (emit_block functions env b) env frame end frame'
        → Does cpu callee code functions fn calls
            (emit_stmt functions env (if_stmt c t (else_block b) sp))
            env
            frame
            end
            frame'
    unfolding emit_stmt emit_else
    if_else-Does c t b sp frame frame' end h d = λ n w M stack l at.
        let el = n.label_id in
        let en = n.label_id + 1 in
        (with_labels-Goes cpu callee code if_else if_end (if_code functions env c t (else_block b))
          n M w _
          (condition_false cpu callee code functions fn calls env c _ frame stack _ w M _ if_else el
            h at
            λ n₁ M₁ at₁.
              skip-Lands cpu callee code (emit_block functions env t) _ n₁ M₁ _ if_else el w λ n₂.
                skip-Lands cpu callee code (emits (jmp (local_label if_end en) ∷ [])) _ n₂ M₁ _
                  if_else el w
                  λ n₃.
                    after-Lands cpu callee code
                      (emits (define (local_label if_else el) ∷ []) then emit_block functions env b)
                      _ n₃ M₁ _ if_else el w
                      (enter-Lands cpu callee code (emit_block functions env b) if_else el n₃ M₁ w _
                        λ n₄. d n₄ w M₁ stack l at₁)
                      λ n₄ M₄ x. define-Goes cpu callee code (local_label if_end en) n₄ M₄ _ x))
