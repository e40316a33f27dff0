-- ===== src/Codegen/Stmts.antt =====
-- The code of statements (`emit_block`, `emit_stmt`), and the table of the variables
-- (`collect_locals`).
use snap_surf_lang.Prelude.{
  ℕ, ◌+◌, ◌*◌, ◌%◌, ◌^◌, Bytes, List, [], ◌∷◌, ◌++◌, Option, none, some, if◌then◌else◌, length, Run,
  done, panic, out_of_fuel,
}
use snap_surf_lang.Prelude.Maps.{get, insert, is_present}
use snap_surf_lang.Ast.{
  Expr, Stmt, Stmts, Block, ElseBlock, let_stmt, mut_stmt, assign_stmt, ret_stmt, if_stmt,
  loop_stmt, while_stmt, break_stmt, continue_stmt, unsafe_stmt, expr_stmt, error_stmt, block,
  no_stmts, more_stmts, no_else, else_block,
}
use snap_surf_lang.Codegen.Asm.{
  Prefix, if_else, if_end, loop_start, loop_end, while_start, while_end, Label, local_label, Line,
  define, jmp, je, store_rax, xor_eax, cmp_rax_0,
}
use snap_surf_lang.Codegen.Exprs.{Strings, Emit, emit_expr}

-- `label_id` and `strings`.
pub record Names : Type 0 where
  pub label_id : ℕ
  pub strings : Strings

-- The labels of the loops around a statement, with the innermost one first.
pub record FnEnv : Type 0 where
  pub locals : List (Bytes × ℕ)
  pub end_label : Label
  pub break_labels : List Label
  pub continue_labels : List Label

-- The lines of an operation that may index `locals` with a name that is not there.
abbrev pub Emits : Type 0
Emits = Names → Run (List Line × Names)

abbrev pub emits : List Line → Emits
emits ls = λ s. done (ls, s)

abbrev pub append_to : List Line → Run (List Line × Names) → Run (List Line × Names)
append_to ls (done (ls', s)) = done (ls ++ ls', s)
append_to ls panic = panic
append_to ls out_of_fuel = out_of_fuel

abbrev pub continue_with : Run (List Line × Names) → Emits → Run (List Line × Names)
continue_with (done (ls, s)) k = append_to ls (k s)
continue_with panic k = panic
continue_with out_of_fuel k = out_of_fuel

infixr 4 ◌then◌
abbrev pub ◌then◌ : Emits → Emits → Emits
m then k = λ s. continue_with (m s) k

abbrev pub of_expr : Emit → Emits
of_expr m s = let (ls, strings) = m s.strings in done (ls, record s { strings = strings })

-- `Codegen::label`
abbrev pub with_label : Prefix → (Label → Emits) → Emits
with_label p k s = k (local_label p s.label_id) (record s { label_id = s.label_id + 1 })

abbrev pub store : Option ℕ → Emits
store none = λ s. panic
store (some offset) = emits (store_rax offset ∷ [])

abbrev pub jump_last : List Label → List Line
jump_last [] = []
jump_last (l ∷ ls) = jmp l ∷ []

abbrev pub in_loop : FnEnv → Label → Label → FnEnv
in_loop env start end = record env {
  break_labels = end ∷ env.break_labels;
  continue_labels = start ∷ env.continue_labels;
}

-- The label that a false condition of `if` goes to.
abbrev pub else_target : ElseBlock → Label → Label → Label
else_target no_else l end = end
else_target (else_block b) l end = l

module _ (functions : List Bytes) where
  abbrev pub expr_lines : FnEnv → Expr → Emits
  expr_lines env e = of_expr (emit_expr functions env.locals e)

  unfoldable pub emit_assign : FnEnv → Bytes → Expr → Emits
  emit_assign env name e = expr_lines env e then store (get name env.locals)

  unfoldable pub emit_ret : FnEnv → Option Expr → Emits
  emit_ret env none = emits (xor_eax ∷ jmp env.end_label ∷ [])
  emit_ret env (some e) = expr_lines env e then emits (jmp env.end_label ∷ [])

  unfoldable mutual
    pub emit_stmt : FnEnv → Stmt → Emits
    emit_stmt env (let_stmt name ty e sp) = emit_assign env name e
    emit_stmt env (mut_stmt name ty e sp) = emit_assign env name e
    emit_stmt env (assign_stmt name e sp) = emit_assign env name e
    emit_stmt env (ret_stmt e sp) = emit_ret env e
    emit_stmt env (if_stmt c t e sp) = with_label if_else λ else_label.
        with_label if_end λ end_label.
          expr_lines env c
          then emits (cmp_rax_0 ∷ je (else_target e else_label end_label) ∷ [])
          then emit_block env t
          then emits (jmp end_label ∷ [])
          then emit_else env else_label e
          then emits (define end_label ∷ [])
    emit_stmt env (loop_stmt b sp) = with_label loop_start λ start. with_label loop_end λ end.
        emits (define start ∷ [])
        then emit_block (in_loop env start end) b
        then emits (jmp start ∷ define end ∷ [])
    emit_stmt env (while_stmt c b sp) = with_label while_start λ start. with_label while_end λ end.
        emits (define start ∷ [])
        then expr_lines (in_loop env start end) c
        then emits (cmp_rax_0 ∷ je end ∷ [])
        then emit_block (in_loop env start end) b
        then emits (jmp start ∷ define end ∷ [])
    emit_stmt env (break_stmt sp) = emits (jump_last env.break_labels)
    emit_stmt env (continue_stmt sp) = emits (jump_last env.continue_labels)
    emit_stmt env (unsafe_stmt b sp) = emit_block env b
    emit_stmt env (expr_stmt e sp) = expr_lines env e
    emit_stmt env (error_stmt sp) = emits []

    pub emit_block : FnEnv → Block → Emits
    emit_block env (block ss sp) = emit_stmts env ss

    -- The loop of `emit_block`.
    pub emit_stmts : FnEnv → Stmts → Emits
    emit_stmts env no_stmts = emits []
    emit_stmts env (more_stmts s ss) = emit_stmt env s then emit_stmts env ss

    -- The `else` branch.
    pub emit_else : FnEnv → Label → ElseBlock → Emits
    emit_else env l no_else = emits []
    emit_else env l (else_block b) = emits (define l ∷ []) then emit_block env b

-- `((locals.len() + 1) * 8) as i32`
unfoldable pub next_offset : List (Bytes × ℕ) → ℕ
next_offset locals = ((length locals + 1) * 8) % 2 ^ 32

-- A variable gets an offset where its name has none.
unfoldable pub add_local : Bytes → List (Bytes × ℕ) → List (Bytes × ℕ)
add_local name locals =
    if is_present (get name locals) then locals else insert name (next_offset locals) locals

unfoldable mutual
  pub collect_stmt : Stmt → List (Bytes × ℕ) → List (Bytes × ℕ)
  collect_stmt (let_stmt name ty e sp) locals = add_local name locals
  collect_stmt (mut_stmt name ty e sp) locals = add_local name locals
  collect_stmt (if_stmt c t e sp) locals = collect_else e (collect_locals t locals)
  collect_stmt (loop_stmt b sp) locals = collect_locals b locals
  collect_stmt (while_stmt c b sp) locals = collect_locals b locals
  collect_stmt (unsafe_stmt b sp) locals = collect_locals b locals
  collect_stmt _ locals = locals

  pub collect_locals : Block → List (Bytes × ℕ) → List (Bytes × ℕ)
  collect_locals (block ss sp) locals = collect_stmts ss locals

  pub collect_stmts : Stmts → List (Bytes × ℕ) → List (Bytes × ℕ)
  collect_stmts no_stmts locals = locals
  collect_stmts (more_stmts s ss) locals = collect_stmts ss (collect_stmt s locals)

  pub collect_else : ElseBlock → List (Bytes × ℕ) → List (Bytes × ℕ)
  collect_else no_else locals = locals
  collect_else (else_block b) locals = collect_locals b locals
