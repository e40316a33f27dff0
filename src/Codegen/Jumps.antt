-- ===== src/Codegen/Jumps.antt =====
-- The jumps of the code of statements and functions (`emit_stmt`, `emit_fn` in codegen.rs).
use snap_surf_lang.Prelude.{ℕ, Bytes, List, [], ◌∷◌, ◌++◌, Option, none, some, ◌≡◌, refl}
use snap_surf_lang.Prelude.Maps.{get}
use snap_surf_lang.Ast.{
  Expr, Stmt, Stmts, Block, let_stmt, mut_stmt, assign_stmt, ret_stmt, if_stmt, loop_stmt,
  while_stmt, break_stmt, continue_stmt, unsafe_stmt, expr_stmt, error_stmt, block, no_stmts,
  more_stmts, no_else, else_block,
}
use snap_surf_lang.Codegen.Asm.{
  Label, Line, define, jmp, je, store_rax, xor_eax, cmp_rax_0, if_else, if_end, loop_start,
  loop_end, while_start, while_end,
}
use snap_surf_lang.Codegen.Exprs.{emit_expr}
use snap_surf_lang.Codegen.Stmts.{
  FnEnv, Emits, emits, ◌then◌, store, jump_last, in_loop, expr_lines, emit_assign, emit_ret,
  emit_stmt, emit_block, emit_stmts, emit_else,
}
use snap_surf_lang.Codegen.Labels.{target_of, label_of, count, Refers, Labels, Every}
use snap_surf_lang.Codegen.Targets.{emit_expr-Plain}
use snap_surf_lang.Codegen.Tidy.{
  times, Tidy, then-Tidy, weaken-Tidy, with_label-Tidy, no_label-Tidy, of_expr-Tidy, emits-Tidy,
  panic-Tidy,
}

module _ (S T : Label → Type 0) where
  -- The labels that are around a statement have the property.
  abbrev pub Outer : FnEnv → Type 0
  Outer env = T env.end_label × Every T env.break_labels × Every T env.continue_labels

  pub line-Tidy :
      (K : Type 0) (l : Line)
      → target_of l ≡ none
      → label_of l ≡ none
      → Tidy S T K [] (emits (l ∷ []))
  unfolding count times Every Refers
  line-Tidy K l p q = emits-Tidy S T K [] (l ∷ []) (λ n. rw q refl) (λ h. tt) λ k h. rw p (tt, tt)

  pub define-Tidy : (K : Type 0) (l : Label) → Tidy S T K (l ∷ []) (emits (define l ∷ []))
  unfolding count times Every Refers Labels
  define-Tidy K l = emits-Tidy S T K (l ∷ []) (define l ∷ []) (λ n. refl) (λ h. h) λ k h. (tt, tt)

  pub jmp-Tidy : (K : Type 0) (l : Label) → (K → T l) → Tidy S T K [] (emits (jmp l ∷ []))
  unfolding count times Every Refers
  jmp-Tidy K l f = emits-Tidy S T K [] (jmp l ∷ []) (λ n. refl) (λ h. tt) λ k h. (f k, tt)

  je-Tidy : (K : Type 0) (l : Label) → (K → T l) → Tidy S T K [] (emits (je l ∷ []))
  unfolding count times Every Refers
  je-Tidy K l f = emits-Tidy S T K [] (je l ∷ []) (λ n. refl) (λ h. tt) λ k h. (f k, tt)

  pub none-Tidy : (K : Type 0) → Tidy S T K [] (emits [])
  unfolding count times Every Refers
  none-Tidy K = emits-Tidy S T K [] [] (λ n. refl) (λ h. tt) λ k h. tt

  test-Tidy : (K : Type 0) (l : Label) → (K → T l) → Tidy S T K [] (emits (cmp_rax_0 ∷ je l ∷ []))
  test-Tidy K l f =
      then-Tidy S T K [] [] (emits (cmp_rax_0 ∷ [])) (emits (je l ∷ []))
        (line-Tidy K cmp_rax_0 refl refl) (je-Tidy K l f)

  loop_end-Tidy :
      (K : Type 0) (start end : Label)
      → (K → T start)
      → Tidy S T K (end ∷ []) (emits (jmp start ∷ define end ∷ []))
  loop_end-Tidy K start end f =
      then-Tidy S T K [] (end ∷ []) (emits (jmp start ∷ [])) (emits (define end ∷ []))
        (jmp-Tidy K start f) (define-Tidy K end)

  -- The parts of an `if`, where the lines of its `else` define what they are owed.
  if_parts-Tidy :
      (K : Type 0) (o : List Label) (cond body branch : Emits) (target end : Label)
      → (K → T target)
      → (K → T end)
      → Tidy S T K [] cond
      → Tidy S T K [] body
      → Tidy S T K o branch
      → Tidy S T K (o ++ end ∷ []) (
          cond
          then emits (cmp_rax_0 ∷ je target ∷ [])
          then body
          then emits (jmp end ∷ [])
          then branch
          then emits (define end ∷ []))
  if_parts-Tidy K o cond body branch target end f g c b e =
      then-Tidy S T K [] (o ++ end ∷ []) _ _ c (
        then-Tidy S T K [] (o ++ end ∷ []) _ _ (test-Tidy K target f) (
          then-Tidy S T K [] (o ++ end ∷ []) _ _ b (
            then-Tidy S T K [] (o ++ end ∷ []) _ _ (jmp-Tidy K end g)
              (then-Tidy S T K o (end ∷ []) _ _ e (define-Tidy K end)))))

  jump_last-Tidy :
      (K : Type 0) (ls : List Label) → (K → Every T ls) → Tidy S T K [] (emits (jump_last ls))
  unfolding Every
  jump_last-Tidy K [] f = none-Tidy K
  jump_last-Tidy K (l ∷ ls) f = jmp-Tidy K l λ k. (f k).0

  module _ (functions : List Bytes) where
    expr_lines-Tidy :
        (K : Type 0) (env : FnEnv) (e : Expr) → Tidy S T K [] (expr_lines functions env e)
    expr_lines-Tidy K env e =
        of_expr-Tidy S T K (emit_expr functions env.locals e)
          (emit_expr-Plain S T functions env.locals e)

    store-Tidy : (K : Type 0) (o : Option ℕ) → Tidy S T K [] (store o)
    store-Tidy K none = panic-Tidy S T K []
    store-Tidy K (some offset) = line-Tidy K (store_rax offset) refl refl

    emit_assign-Tidy :
        (K : Type 0) (env : FnEnv) (name : Bytes) (e : Expr)
        → Tidy S T K [] (emit_assign functions env name e)
    unfolding emit_assign
    emit_assign-Tidy K env name e =
        then-Tidy S T K [] [] _ _ (expr_lines-Tidy K env e) (store-Tidy K (get name env.locals))

    emit_ret-Tidy :
        (env : FnEnv) (e : Option Expr) → Tidy S T (Outer env) [] (emit_ret functions env e)
    unfolding emit_ret
    emit_ret-Tidy env none =
        then-Tidy S T (Outer env) [] [] (emits (xor_eax ∷ [])) (emits (jmp env.end_label ∷ []))
          (line-Tidy (Outer env) xor_eax refl refl) (jmp-Tidy (Outer env) env.end_label λ k. k.0)
    emit_ret-Tidy env (some e) =
        then-Tidy S T (Outer env) [] [] _ _ (expr_lines-Tidy (Outer env) env e)
          (jmp-Tidy (Outer env) env.end_label λ k. k.0)

    -- What is known inside a loop.
    abbrev Inside : FnEnv → Label → Label → Type 0
    Inside env start end = T end × (T start × Outer env)

    inner : (env : FnEnv) (start end : Label) → Inside env start end → Outer (in_loop env start end)
    unfolding Every
    inner env start end (e, (s, k)) = (k.0, (e, k.1), (s, k.2))

    mutual
      unfolding emit_stmt emit_block emit_stmts emit_else

      emit_stmt-Tidy :
          (env : FnEnv) (s : Stmt) → Tidy S T (Outer env) [] (emit_stmt functions env s)
      emit_stmt-Tidy env (let_stmt name ty e sp) = emit_assign-Tidy (Outer env) env name e
      emit_stmt-Tidy env (mut_stmt name ty e sp) = emit_assign-Tidy (Outer env) env name e
      emit_stmt-Tidy env (assign_stmt name e sp) = emit_assign-Tidy (Outer env) env name e
      emit_stmt-Tidy env (ret_stmt e sp) = emit_ret-Tidy env e
      emit_stmt-Tidy env (if_stmt c t no_else sp) =
          no_label-Tidy S T (Outer env) [] if_else _ λ else_label.
            with_label-Tidy S T (Outer env) [] if_end _ λ end.
              if_parts-Tidy (T end × Outer env) [] _ _ (emits []) end end (λ k. k.0) (λ k. k.0)
                (expr_lines-Tidy (T end × Outer env) env c)
                (weaken-Tidy S T (Outer env) (T end × Outer env) [] _ (λ k. k.1)
                  (emit_block-Tidy env t))
                (none-Tidy (T end × Outer env))
      emit_stmt-Tidy env (if_stmt c t (else_block b) sp) =
          with_label-Tidy S T (Outer env) [] if_else _ λ else_label.
            with_label-Tidy S T (T else_label × Outer env) (else_label ∷ []) if_end _ λ end.
              let body : Tidy S T (T end × (T else_label × Outer env)) []
                  (emit_block functions env t) =
                weaken-Tidy S T (Outer env) (T end × (T else_label × Outer env)) [] _
                  (λ (x, (y, k)). k) (emit_block-Tidy env t) in
              let branch : Tidy S T (T end × (T else_label × Outer env)) []
                  (emit_block functions env b) =
                weaken-Tidy S T (Outer env) (T end × (T else_label × Outer env)) [] _
                  (λ (x, (y, k)). k) (emit_block-Tidy env b) in
              if_parts-Tidy (T end × (T else_label × Outer env)) (else_label ∷ []) _ _ _ else_label
                end (λ (x, (y, k)). y) (λ (x, (y, k)). x)
                (expr_lines-Tidy (T end × (T else_label × Outer env)) env c) body
                (then-Tidy S T (T end × (T else_label × Outer env)) (else_label ∷ []) [] _ _
                  (define-Tidy (T end × (T else_label × Outer env)) else_label) branch)
      emit_stmt-Tidy env (loop_stmt b sp) = with_label-Tidy S T (Outer env) [] loop_start _ λ start.
          with_label-Tidy S T (T start × Outer env) (start ∷ []) loop_end _ λ end.
            then-Tidy S T (Inside env start end) (start ∷ []) (end ∷ []) _ _
              (define-Tidy (Inside env start end) start)
              (then-Tidy S T (Inside env start end) [] (end ∷ []) _ _
                (weaken-Tidy S T _ (Inside env start end) [] _ (inner env start end)
                  (emit_block-Tidy (in_loop env start end) b))
                (loop_end-Tidy (Inside env start end) start end λ k. k.1.0))
      emit_stmt-Tidy env (while_stmt c b sp) =
          with_label-Tidy S T (Outer env) [] while_start _ λ start.
            with_label-Tidy S T (T start × Outer env) (start ∷ []) while_end _ λ end.
              then-Tidy S T (Inside env start end) (start ∷ []) (end ∷ []) _ _
                (define-Tidy (Inside env start end) start)
                (then-Tidy S T (Inside env start end) [] (end ∷ []) _ _
                  (expr_lines-Tidy (Inside env start end) (in_loop env start end) c)
                  (then-Tidy S T (Inside env start end) [] (end ∷ []) _ _
                    (test-Tidy (Inside env start end) end λ k. k.0)
                    (then-Tidy S T (Inside env start end) [] (end ∷ []) _ _
                      (weaken-Tidy S T _ (Inside env start end) [] _ (inner env start end)
                        (emit_block-Tidy (in_loop env start end) b))
                      (loop_end-Tidy (Inside env start end) start end λ k. k.1.0))))
      emit_stmt-Tidy env (break_stmt sp) = jump_last-Tidy (Outer env) env.break_labels λ k. k.1
      emit_stmt-Tidy env (continue_stmt sp) =
          jump_last-Tidy (Outer env) env.continue_labels λ k. k.2
      emit_stmt-Tidy env (unsafe_stmt b sp) = emit_block-Tidy env b
      emit_stmt-Tidy env (expr_stmt e sp) = expr_lines-Tidy (Outer env) env e
      emit_stmt-Tidy env (error_stmt sp) = none-Tidy (Outer env)

      pub emit_block-Tidy :
          (env : FnEnv) (b : Block) → Tidy S T (Outer env) [] (emit_block functions env b)
      emit_block-Tidy env (block ss sp) = emit_stmts-Tidy env ss

      emit_stmts-Tidy :
          (env : FnEnv) (ss : Stmts) → Tidy S T (Outer env) [] (emit_stmts functions env ss)
      emit_stmts-Tidy env no_stmts = none-Tidy (Outer env)
      emit_stmts-Tidy env (more_stmts s ss) =
          then-Tidy S T (Outer env) [] [] _ _ (emit_stmt-Tidy env s) (emit_stmts-Tidy env ss)
