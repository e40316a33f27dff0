-- ===== src/Codegen/BodyTests.antt =====
-- A run of the body of a function, in the language and on the processor.
use snap_surf_lang.Prelude.{ℕ, text_eq, ◌++◌, refl}
use mathlib.Core.List.{Memᴰ}
use snap_surf_lang.Prelude.Maps.{get, insert}
use snap_surf_lang.Codegen.Asm.{fn_end, local_label}
use snap_surf_lang.Codegen.Stmts.{
  next_offset, add_local, collect_stmt, collect_locals, collect_stmts,
}
use snap_surf_lang.Codegen.Fns.{param_locals, fn_locals, epilogue, function_names}
use snap_surf_lang.Codegen.Machine.{Machine, put, ident_value, value}
use snap_surf_lang.Codegen.Points.{here, Reaches}
use snap_surf_lang.Codegen.BigStep.{
  returns, RunsBlock, mut_runs, assign_runs, ret_runs, loop_breaks, break_runs, block_runs,
  next_runs, stops_runs,
}
use snap_surf_lang.Codegen.Correct.{Ended}
use snap_surf_lang.Codegen.Bodies.{BodyIn}
use snap_surf_lang.Codegen.Arrivals.{exit_lines, emit-Arrives}
use snap_surf_lang.Codegen.Tests.{
  pkg, main_fn, program, program_emitted, program_lines, cpu, seven, returns_seven, seven-calls,
  empty,
}

-- The frame behind `x = 1` and `x = 2`.
abbrev assigned : ℕ → ℕ
assigned = put 8 2 (put 8 1 empty.frame)

main_runs :
    RunsBlock cpu
      (function_names program.items)
      (fn_locals main_fn)
      returns_seven
      empty.frame
      main_fn.body
      (returns 2)
      assigned
unfolding function_names fn_locals param_locals collect_locals collect_stmts collect_stmt add_local
    next_offset get insert text_eq value ident_value
main_runs = block_runs (
    next_runs (mut_runs 8 1 refl refl) (
      next_runs
        (loop_breaks
          (block_runs (next_runs (assign_runs 8 2 refl refl) (stops_runs (λ e. cc) break_runs))))
        (stops_runs (λ e. cc) (ret_runs refl))))

emit-Arrives_example :
    (b : BodyIn (function_names program.items) main_fn program_lines) × (M' : Machine) × Reaches cpu
      seven program_lines
      (here (b.body ++ (epilogue main_fn (local_label fn_end b.id) ++ b.after)))
      empty
      (here (exit_lines main_fn (local_label fn_end b.id) (returns 2) ++ b.after))
      M'
    × Ended (returns 2) assigned empty.stack M'
emit-Arrives_example =
    emit-Arrives cpu seven returns_seven seven-calls program pkg main_fn program_lines empty
      (returns 2) assigned program_emitted.1 (Memᴰ.head refl) main_runs tt
