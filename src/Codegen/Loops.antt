-- ===== src/Codegen/Loops.antt =====
-- The code of `loop` (`emit_stmt` in codegen.rs).
use snap_surf_lang.Prelude.{ℕ, ◌+◌, Bytes, List, [], ◌∷◌, Option}
use snap_surf_lang.Diagnostic.{Span}
use snap_surf_lang.Ast.{loop_stmt, Block}
use snap_surf_lang.Codegen.Asm.{loop_start, loop_end, Label, local_label, Line, define, jmp}
use snap_surf_lang.Codegen.Stmts.{FnEnv, Emits, emits, ◌then◌, in_loop, emit_stmt, emit_block}
use snap_surf_lang.Codegen.Machine.{Calls, Cpu, Machine}
use snap_surf_lang.Codegen.BigStep.{GoesOn, Ending, falls, breaks, returns}
use snap_surf_lang.Codegen.Routes.{on, to}
use snap_surf_lang.Codegen.Leaps.{again-Goes, with_labels-Goes, labelled-Goes, pass-Goes}
use snap_surf_lang.Codegen.Correct.{Ended, Does}
use snap_surf_lang.Codegen.Rounds.{round_again, round_breaks, round_returns}

-- The code of `loop`, from its two labels.
module _ (functions : List Bytes) (env : FnEnv) where
  abbrev loop_code : Block → Label → Label → Emits
  loop_code b start end =
      emits (define start ∷ [])
      then emit_block functions (in_loop env start end) b
      then emits (jmp start ∷ define end ∷ [])

module _ (cpu : Cpu) (callee : Bytes → Machine → Option Machine) (code : List Line)
    (functions : List Bytes) (fn : Bytes → List ℕ → Option ℕ) (calls : Calls callee fn) where
  module _ (env : FnEnv) where
    pub loop_again-Does :
        (b : Block) (sp : Span) (frame frame₁ frame' : ℕ → ℕ) (end₁ end : Ending)
        → ((start end : Label)
            → Does cpu callee code functions fn calls
                (emit_block functions (in_loop env start end) b)
                (in_loop env start end)
                frame
                end₁
                frame₁)
        → GoesOn end₁
        → Does cpu callee code functions fn calls
            (emit_stmt functions env (loop_stmt b sp))
            env
            frame₁
            end
            frame'
        → Does cpu callee code functions fn calls
            (emit_stmt functions env (loop_stmt b sp))
            env
            frame
            end
            frame'
    unfolding emit_stmt
    loop_again-Does b sp frame frame₁ frame' end₁ end d g s = λ n w M stack l at.
        let start = local_label loop_start n.label_id in
        let env' = in_loop env start (local_label loop_end (n.label_id + 1)) in
        with_labels-Goes cpu callee code loop_start loop_end (loop_code functions env b) n M w _ (
          again-Goes cpu callee code _ loop_start n.label_id _ M w (Ended falls frame₁ stack) _
            (pass-Goes cpu callee code start _ _ M (to start) _ λ n₁.
              round_again cpu callee code functions fn calls env (emit_block functions env' b) start
                loop_end (n.label_id + 1) frame frame₁ end₁ stack n₁ M g
                (d start (local_label loop_end (n.label_id + 1))) at)
            λ M₁ x.
              labelled-Goes cpu callee code loop_start loop_end (loop_code functions env b) n M₁ w _
                (s n w M₁ stack l x))

    pub loop_breaks-Does :
        (b : Block) (sp : Span) (frame frame' : ℕ → ℕ)
        → ((start end : Label)
            → Does cpu callee code functions fn calls
                (emit_block functions (in_loop env start end) b)
                (in_loop env start end)
                frame
                breaks
                frame')
        → Does cpu callee code functions fn calls
            (emit_stmt functions env (loop_stmt b sp))
            env
            frame
            falls
            frame'
    unfolding emit_stmt
    loop_breaks-Does b sp frame frame' d = λ n w M stack l at.
        let start = local_label loop_start n.label_id in
        let env' = in_loop env start (local_label loop_end (n.label_id + 1)) in
        rw l (
          with_labels-Goes cpu callee code loop_start loop_end (loop_code functions env b) n M on _
            (pass-Goes cpu callee code start _ _ M on _ λ n₁.
              round_breaks cpu callee code functions fn calls env (emit_block functions env' b)
                start loop_end (n.label_id + 1) frame frame' stack n₁ M
                (d start (local_label loop_end (n.label_id + 1))) at))

    pub loop_returns-Does :
        (b : Block) (sp : Span) (v : ℕ) (frame frame' : ℕ → ℕ)
        → ((start end : Label)
            → Does cpu callee code functions fn calls
                (emit_block functions (in_loop env start end) b)
                (in_loop env start end)
                frame
                (returns v)
                frame')
        → Does cpu callee code functions fn calls
            (emit_stmt functions env (loop_stmt b sp))
            env
            frame
            (returns v)
            frame'
    unfolding emit_stmt
    loop_returns-Does b sp v frame frame' d = λ n w M stack l at.
        let start = local_label loop_start n.label_id in
        let env' = in_loop env start (local_label loop_end (n.label_id + 1)) in
        rw l (
          with_labels-Goes cpu callee code loop_start loop_end (loop_code functions env b) n M
            (to env.end_label) _
            (pass-Goes cpu callee code start _ _ M (to env.end_label) _ λ n₁.
              round_returns cpu callee code functions fn calls env (emit_block functions env' b)
                start loop_end (n.label_id + 1) frame frame' v stack n₁ M
                (d start (local_label loop_end (n.label_id + 1))) at))
