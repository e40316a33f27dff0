-- ===== src/Codegen/Rounds.antt =====
-- The code behind a condition, and the rounds of a loop (`emit_stmt` in codegen.rs).
use snap_surf_lang.Prelude.{ℕ, Bytes, List, [], ◌∷◌, Option, ◌≢◌, refl, sym, ◌∙◌, inl, inr}
use snap_surf_lang.Ast.{Expr}
use snap_surf_lang.Codegen.Asm.{Prefix, Label, local_label, Line, define, jmp, je, cmp_rax_0}
use snap_surf_lang.Codegen.Stmts.{Names, FnEnv, Emits, emits, ◌then◌, expr_lines, in_loop}
use snap_surf_lang.Codegen.Machine.{Calls, Cpu, Machine}
use snap_surf_lang.Codegen.BigStep.{Ending, falls, breaks, continues, returns, GoesOn, Gives}
use snap_surf_lang.Codegen.Routes.{
  Way, on, to, Goes, Lands, then-Goes, weaken-Goes, leave-Goes, land-Goes, skip-Lands,
}
use snap_surf_lang.Codegen.Leaps.{jmp-Goes, test_zero-Goes, test_other-Goes, define-Lands}
use snap_surf_lang.Codegen.Correct.{Ended, nothing_runs, Does, expr_lines-Goes}

module _ (cpu : Cpu) (callee : Bytes → Machine → Option Machine) (code : List Line)
    (functions : List Bytes) (fn : Bytes → List ℕ → Option ℕ) (calls : Calls callee fn) where
  module _ (env : FnEnv) (c : Expr) (k : Emits) (frame : ℕ → ℕ) (stack : List ℕ) (n : Names)
      (w : Way) (M : Machine) (Q : Machine → Type 0) where
    -- A condition that holds: on behind the test.
    pub condition_true :
        (l : Label) (v : ℕ)
        → Gives cpu functions env.locals fn frame c v
        → v ≢ 0
        → Ended falls frame stack M
        → ((n₁ : Names) (M₁ : Machine)
            → Ended falls frame stack M₁
            → Goes cpu callee code k n₁ M₁ w Q)
        → Goes cpu callee code
            (expr_lines functions env c then emits (cmp_rax_0 ∷ je l ∷ []) then k)
            n
            M
            w
            Q
    condition_true l v h z at g =
        then-Goes cpu callee code (expr_lines functions env c) _ n M _ Q w
          (expr_lines-Goes cpu callee code functions fn calls env c v frame stack n M h at)
          λ n₁ M₁ x.
            then-Goes cpu callee code (emits (cmp_rax_0 ∷ je l ∷ [])) k n₁ M₁
              (Ended falls frame stack) Q w
              (test_other-Goes cpu callee code l n₁ M₁ _ (λ e. z (sym x.returned ∙ e))
                (record { frame_ok = x.frame_ok; stack_ok = x.stack_ok; returned = tt }))
              g

    -- A condition that does not hold: a jump to a label of what follows.
    pub condition_false :
        (p : Prefix) (i : ℕ)
        → Gives cpu functions env.locals fn frame c 0
        → Ended falls frame stack M
        → ((n₁ : Names) (M₁ : Machine)
            → Ended falls frame stack M₁
            → Lands cpu callee code p i k n₁ M₁ w Q)
        → Goes cpu callee code
            (expr_lines functions env c then emits (cmp_rax_0 ∷ je (local_label p i) ∷ []) then k)
            n
            M
            w
            Q
    condition_false p i h at g =
        then-Goes cpu callee code (expr_lines functions env c) _ n M _ Q w
          (expr_lines-Goes cpu callee code functions fn calls env c 0 frame stack n M h at)
          λ n₁ M₁ x.
            land-Goes cpu callee code (emits (cmp_rax_0 ∷ je (local_label p i) ∷ [])) k n₁ M₁
              (Ended falls frame stack) Q p i w
              (test_zero-Goes cpu callee code (local_label p i) n₁ M₁ _ x.returned
                (record { frame_ok = x.frame_ok; stack_ok = x.stack_ok; returned = tt }))
              g

  -- The end of the code of `if`: a jump over the code of `else`.
  pub over_else :
      (e : Emits) (p : Prefix) (i : ℕ) (n : Names) (M : Machine) (Q : Machine → Type 0)
      → Q M
      → Goes cpu callee code
          (emits (jmp (local_label p i) ∷ []) then e then emits (define (local_label p i) ∷ []))
          n
          M
          on
          Q
  over_else e p i n M Q q =
      land-Goes cpu callee code (emits (jmp (local_label p i) ∷ [])) _ n M Q Q p i on
        (jmp-Goes cpu callee code [] (local_label p i) [] n M M Q (nothing_runs cpu callee M) q)
        λ n₁ M₁ x.
          skip-Lands cpu callee code e _ n₁ M₁ Q p i on
            λ n₂. define-Lands cpu callee code [] p i n₂ M₁ Q x

  module _ (env : FnEnv) (b : Emits) (start : Label) (p : Prefix) (i : ℕ) where
    abbrev pub inner : FnEnv
    inner = in_loop env start (local_label p i)

    -- The body of a loop, and the jump back with the label behind the loop.
    abbrev pub round : Emits
    round = b then emits (jmp start ∷ define (local_label p i) ∷ [])

    pub round_again :
        (frame frame₁ : ℕ → ℕ) (end : Ending) (stack : List ℕ) (n : Names) (M : Machine)
        → GoesOn end
        → Does cpu callee code functions fn calls b inner frame end frame₁
        → Ended falls frame stack M
        → Goes cpu callee code round n M (to start) (Ended falls frame₁ stack)
    round_again frame frame₁ falls stack n M g d at =
        then-Goes cpu callee code b _ n M (Ended falls frame₁ stack) _ (to start)
          (d n on M stack refl at)
          λ n₁ M₁ x.
            jmp-Goes cpu callee code [] start (define (local_label p i) ∷ []) n₁ M₁ M₁ _
              (nothing_runs cpu callee M₁) x
    round_again frame frame₁ continues stack n M g d at =
        leave-Goes cpu callee code b _ n M _ start (
          weaken-Goes cpu callee code b n M (to start) (Ended continues frame₁ stack) _
            (λ M' x. record { frame_ok = x.frame_ok; stack_ok = x.stack_ok; returned = tt })
            (d n (to start) M stack refl at))
    round_again frame frame₁ breaks stack n M (inl e) d at = cc
    round_again frame frame₁ breaks stack n M (inr e) d at = cc
    round_again frame frame₁ (returns v) stack n M (inl e) d at = cc
    round_again frame frame₁ (returns v) stack n M (inr e) d at = cc

    pub round_breaks :
        (frame frame₁ : ℕ → ℕ) (stack : List ℕ) (n : Names) (M : Machine)
        → Does cpu callee code functions fn calls b inner frame breaks frame₁
        → Ended falls frame stack M
        → Goes cpu callee code round n M on (Ended falls frame₁ stack)
    round_breaks frame frame₁ stack n M d at =
        land-Goes cpu callee code b _ n M (Ended breaks frame₁ stack) _ p i on
          (d n _ M stack refl at)
          λ n₁ M₁ x.
            define-Lands cpu callee code (jmp start ∷ []) p i n₁ M₁ _
              (record { frame_ok = x.frame_ok; stack_ok = x.stack_ok; returned = tt })

    pub round_returns :
        (frame frame₁ : ℕ → ℕ) (v : ℕ) (stack : List ℕ) (n : Names) (M : Machine)
        → Does cpu callee code functions fn calls b inner frame (returns v) frame₁
        → Ended falls frame stack M
        → Goes cpu callee code round n M (to env.end_label) (Ended (returns v) frame₁ stack)
    round_returns frame frame₁ v stack n M d at =
        leave-Goes cpu callee code b _ n M _ env.end_label (d n _ M stack refl at)
