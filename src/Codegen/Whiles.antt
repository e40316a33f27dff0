-- ===== src/Codegen/Whiles.antt =====
-- The code of `while` (`emit_stmt` in codegen.rs).
use snap_surf_lang.Prelude.{ℕ, ◌+◌, Bytes, List, [], ◌∷◌, Option, ◌≢◌}
use snap_surf_lang.Diagnostic.{Span}
use snap_surf_lang.Ast.{while_stmt, Expr, Block}
use snap_surf_lang.Codegen.Asm.{
  while_start, while_end, Label, local_label, Line, define, jmp, je, cmp_rax_0,
}
use snap_surf_lang.Codegen.Stmts.{
  FnEnv, Emits, emits, ◌then◌, in_loop, expr_lines, emit_stmt, emit_block,
}
use snap_surf_lang.Codegen.Machine.{Calls, Cpu, Machine}
use snap_surf_lang.Codegen.BigStep.{GoesOn, Ending, falls, breaks, returns, Gives}
use snap_surf_lang.Codegen.Routes.{on, to, skip-Lands}
use snap_surf_lang.Codegen.Leaps.{
  define-Lands, again-Goes, with_labels-Goes, labelled-Goes, pass-Goes,
}
use snap_surf_lang.Codegen.Correct.{Ended, Does}
use snap_surf_lang.Codegen.Rounds.{
  condition_true, condition_false, round_again, round_breaks, round_returns,
}

-- The code of `while`, from its two labels.
module _ (functions : List Bytes) (env : FnEnv) where
  abbrev while_code : Expr → Block → Label → Label → Emits
  while_code c b start end =
      emits (define start ∷ [])
      then expr_lines functions (in_loop env start end) c
      then emits (cmp_rax_0 ∷ je end ∷ [])
      then emit_block functions (in_loop env start end) b
      then emits (jmp start ∷ define end ∷ [])

module _ (cpu : Cpu) (callee : Bytes → Machine → Option Machine) (code : List Line)
    (functions : List Bytes) (fn : Bytes → List ℕ → Option ℕ) (calls : Calls callee fn) where
  module _ (env : FnEnv) where
    pub while_done-Does :
        (c : Expr) (b : Block) (sp : Span) (frame : ℕ → ℕ)
        → Gives cpu functions env.locals fn frame c 0
        → Does cpu callee code functions fn calls
            (emit_stmt functions env (while_stmt c b sp))
            env
            frame
            falls
            frame
    unfolding emit_stmt
    while_done-Does c b sp frame h = λ n w M stack l at.
        let start = local_label while_start n.label_id in
        let en = n.label_id + 1 in
        let env' = in_loop env start (local_label while_end en) in
        rw l (
          with_labels-Goes cpu callee code while_start while_end (while_code functions env c b) n M
            on _
            (pass-Goes cpu callee code start _ _ M on _ λ n₁.
              condition_false cpu callee code functions fn calls env' c _ frame stack n₁ on M _
                while_end en h at
                λ n₂ M₂ x.
                  skip-Lands cpu callee code (emit_block functions env' b) _ n₂ M₂ _ while_end en on
                    λ n₃. define-Lands cpu callee code (jmp start ∷ []) while_end en n₃ M₂ _ x))

    pub while_again-Does :
        (c : Expr) (b : Block) (sp : Span) (v : ℕ) (frame frame₁ frame' : ℕ → ℕ) (end₁ end : Ending)
        → Gives cpu functions env.locals fn frame c v
        → v ≢ 0
        → ((start end : Label)
            → Does cpu callee code functions fn calls
                (emit_block functions (in_loop env start end) b)
                (in_loop env start end)
                frame
                end₁
                frame₁)
        → GoesOn end₁
        → Does cpu callee code functions fn calls
            (emit_stmt functions env (while_stmt c b sp))
            env
            frame₁
            end
            frame'
        → Does cpu callee code functions fn calls
            (emit_stmt functions env (while_stmt c b sp))
            env
            frame
            end
            frame'
    unfolding emit_stmt
    while_again-Does c b sp v frame frame₁ frame' end₁ end h z d g s = λ n w M stack l at.
        let start = local_label while_start n.label_id in
        let end = local_label while_end (n.label_id + 1) in
        let env' = in_loop env start end in
        with_labels-Goes cpu callee code while_start while_end (while_code functions env c b) n M w
          _
          (again-Goes cpu callee code _ while_start n.label_id _ M w (Ended falls frame₁ stack) _
            (pass-Goes cpu callee code start _ _ M (to start) _ λ n₁.
              condition_true cpu callee code functions fn calls env' c _ frame stack n₁ (to start) M
                _ end v h z at
                λ n₂ M₂ x.
                  round_again cpu callee code functions fn calls env (emit_block functions env' b)
                    start while_end (n.label_id + 1) frame frame₁ end₁ stack n₂ M₂ g
                    (d start (local_label while_end (n.label_id + 1))) x)
            λ M₁ x.
              labelled-Goes cpu callee code while_start while_end (while_code functions env c b) n
                M₁ w _ (s n w M₁ stack l x))

    pub while_breaks-Does :
        (c : Expr) (b : Block) (sp : Span) (v : ℕ) (frame frame' : ℕ → ℕ)
        → Gives cpu functions env.locals fn frame c v
        → v ≢ 0
        → ((start end : Label)
            → Does cpu callee code functions fn calls
                (emit_block functions (in_loop env start end) b)
                (in_loop env start end)
                frame
                breaks
                frame')
        → Does cpu callee code functions fn calls
            (emit_stmt functions env (while_stmt c b sp))
            env
            frame
            falls
            frame'
    unfolding emit_stmt
    while_breaks-Does c b sp v frame frame' h z d = λ n w M stack l at.
        let start = local_label while_start n.label_id in
        let end = local_label while_end (n.label_id + 1) in
        let env' = in_loop env start end in
        rw l (
          with_labels-Goes cpu callee code while_start while_end (while_code functions env c b) n M
            on _
            (pass-Goes cpu callee code start _ _ M on _ λ n₁.
              condition_true cpu callee code functions fn calls env' c _ frame stack n₁ on M _ end v
                h z at
                λ n₂ M₂ x.
                  round_breaks cpu callee code functions fn calls env (emit_block functions env' b)
                    start while_end (n.label_id + 1) frame frame' stack n₂ M₂
                    (d start (local_label while_end (n.label_id + 1))) x))

    pub while_returns-Does :
        (c : Expr) (b : Block) (sp : Span) (v k : ℕ) (frame frame' : ℕ → ℕ)
        → Gives cpu functions env.locals fn frame c v
        → v ≢ 0
        → ((start end : Label)
            → Does cpu callee code functions fn calls
                (emit_block functions (in_loop env start end) b)
                (in_loop env start end)
                frame
                (returns k)
                frame')
        → Does cpu callee code functions fn calls
            (emit_stmt functions env (while_stmt c b sp))
            env
            frame
            (returns k)
            frame'
    unfolding emit_stmt
    while_returns-Does c b sp v k frame frame' h z d = λ n w M stack l at.
        let start = local_label while_start n.label_id in
        let end = local_label while_end (n.label_id + 1) in
        let env' = in_loop env start end in
        rw l (
          with_labels-Goes cpu callee code while_start while_end (while_code functions env c b) n M
            (to env.end_label) _
            (pass-Goes cpu callee code start _ _ M (to env.end_label) _ λ n₁.
              condition_true cpu callee code functions fn calls env' c _ frame stack n₁
                (to env.end_label) M _ end v h z at
                λ n₂ M₂ x.
                  round_returns cpu callee code functions fn calls env (emit_block functions env' b)
                    start while_end (n.label_id + 1) frame frame' k stack n₂ M₂
                    (d start (local_label while_end (n.label_id + 1))) x))
