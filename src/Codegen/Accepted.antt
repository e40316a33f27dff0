-- ===== src/Codegen/Accepted.antt =====
-- What sema.rs accepts, codegen.rs compiles: `env.locals[name]` is there for every name.
use snap_surf_lang.Prelude.{
  ℕ, Bytes, text, text_eq, text_eq_refl, List, [], ◌∷◌, Option, none, some, ◌≡◌, ◌≢◌, refl, Run,
  done, panic, out_of_fuel, Post, if◌then◌else◌, All,
}
use snap_surf_lang.Prelude.Maps.{get, insert, get-insert}
use snap_surf_lang.Package.{Package}
use snap_surf_lang.Ast.{
  Expr, Stmt, Stmts, Block, ElseBlock, Param, FnDecl, Item, use_item, fn_item, SourceAst,
}
use snap_surf_lang.Sema.Types.{FnSig, VarInfo, FnCtx}
use snap_surf_lang.Sema.Exprs.{Checker}
use snap_surf_lang.Sema.Stmts.{start_ctx, checker, check_program}
use snap_surf_lang.Sema.WellFormed.{
  Vars, WfStmt, WfBlock, WfStmts, WfElse, WfParams, WfFn, WfItem, let_ok, mut_ok, assign_ok,
  ret_void, ret_value, if_ok, loop_ok, while_ok, break_ok, continue_ok, unsafe_ok, expr_ok,
  block_ok, end_ok, then_ok, no_else_ok, else_ok, params_end, param_ok, fn_ok,
}
use snap_surf_lang.Sema.WellFormed.Programs.{check_program_iff}
use snap_surf_lang.Codegen.Asm.{
  Prefix, fn_end, if_else, if_end, loop_start, loop_end, while_start, while_end, Label, local_label,
  Line, define, jmp, je, cmp_rax_0,
}
use snap_surf_lang.Codegen.Exprs.{Emit}
use snap_surf_lang.Codegen.Stmts.{
  Names, FnEnv, Emits, emits, continue_with, append_to, ◌then◌, with_label, of_expr, store, in_loop,
  else_target, expr_lines, emit_assign, emit_ret, emit_stmt, emit_block, emit_stmts, emit_else,
}
use snap_surf_lang.Codegen.Fns.{
  param_locals, fn_locals, prologue, epilogue, env_of, emit_fn, emit_items, function_names,
  header_lines, with_data, emit,
}
use snap_surf_lang.Codegen.Locals.{
  IsIn, insert-IsIn, nothing-IsIn, grows_stmts, grows_else, collects_block,
}

-- An operation that does not index a table with a name that is not there.
unfoldable Finishes : Emits → Type 0
Finishes m = (s : Names) → Post ⊥ (λ r. Unit {0}) (m s)

then-Finishes : (m k : Emits) → Finishes m → Finishes k → Finishes (m then k)
unfolding Finishes
then-Finishes m k h g s = go (m s) (h s)
  where
    ended :
        (ls : List Line) (r : Run (List Line × Names))
        → Post ⊥ (λ r. Unit {0}) r
        → Post ⊥ (λ r. Unit {0}) (append_to ls r)
    ended ls (done r) x = tt
    ended ls panic x = x
    ended ls out_of_fuel x = x

    go :
        (r : Run (List Line × Names))
        → Post ⊥ (λ r. Unit {0}) r
        → Post ⊥ (λ r. Unit {0}) (continue_with r k)
    go (done (ls, s')) x = ended ls (k s') (g s')
    go panic x = x
    go out_of_fuel x = x

with_label-Finishes :
    (p : Prefix) (k : Label → Emits) → ((l : Label) → Finishes (k l)) → Finishes (with_label p k)
unfolding Finishes
with_label-Finishes p k h s = h (local_label p s.label_id) _

emits-Finishes : (ls : List Line) → Finishes (emits ls)
unfolding Finishes
emits-Finishes ls s = tt

of_expr-Finishes : (m : Emit) → Finishes (of_expr m)
unfolding Finishes
of_expr-Finishes m s = tt

store-Finishes : (o : Option ℕ) → o ≢ none → Finishes (store o)
store-Finishes none h = absurd (h refl)
store-Finishes (some offset) h = emits-Finishes _

module _ (self : Checker) (functions : List Bytes) where
  emit_assign-Finishes :
      (env : FnEnv) (name : Bytes) (e : Expr)
      → get name env.locals ≢ none
      → Finishes (emit_assign functions env name e)
  unfolding emit_assign
  emit_assign-Finishes env name e h = then-Finishes _ _ (of_expr-Finishes _) (store-Finishes _ h)

  inserted :
      (n : Bytes) (v : VarInfo) (vs : Vars) (locals : List (Bytes × ℕ))
      → IsIn (insert n v vs) locals
      → get n locals ≢ none
  inserted n v vs locals i e =
      let x : some v ≡ none = rw (get-insert n n v vs, text_eq_refl) at (i n e) in cc

  mutual
    unfolding emit_stmt emit_block emit_stmts emit_else emit_ret

    emit_stmt-Finishes :
        {ctx : FnCtx} {s : Stmt} {vs : Vars}
        → WfStmt self ctx s vs
        → (env : FnEnv) → IsIn vs env.locals
        → Finishes (emit_stmt functions env s)
    emit_stmt-Finishes (let_ok p h a) env i =
        emit_assign-Finishes env _ _ (inserted _ _ _ env.locals i)
    emit_stmt-Finishes (mut_ok p h a) env i =
        emit_assign-Finishes env _ _ (inserted _ _ _ env.locals i)
    emit_stmt-Finishes (assign_ok p q h a) env i =
        emit_assign-Finishes env _ _ λ e. let x = i _ e in cc
    emit_stmt-Finishes (ret_void p) env i = emits-Finishes _
    emit_stmt-Finishes (ret_value {e} p h a) env i =
        then-Finishes (expr_lines functions env e) (emits (jmp env.end_label ∷ []))
          (of_expr-Finishes _) (emits-Finishes _)
    emit_stmt-Finishes (if_ok {c} {t} {e} h w z) env i = with_label-Finishes if_else _ λ else_label.
        with_label-Finishes if_end _ λ end.
          then-Finishes (expr_lines functions env c) _ (of_expr-Finishes _) (
            then-Finishes (emits (cmp_rax_0 ∷ je (else_target e else_label end) ∷ [])) _
              (emits-Finishes _)
              (then-Finishes _ _ (emit_block-Finishes w env λ k y. grows_else self z k (i k y)) (
                then-Finishes (emits (jmp end ∷ [])) _ (emits-Finishes _) (
                  then-Finishes _ (emits (define end ∷ [])) (emit_else-Finishes z env else_label i)
                    (emits-Finishes _)))))
    emit_stmt-Finishes (loop_ok b) env i = with_label-Finishes loop_start _ λ start.
        with_label-Finishes loop_end _ λ end.
          then-Finishes (emits (define start ∷ [])) _ (emits-Finishes _) (
            then-Finishes _ (emits (jmp start ∷ define end ∷ []))
              (emit_block-Finishes b (in_loop env start end) i) (emits-Finishes _))
    emit_stmt-Finishes (while_ok {c} h b) env i = with_label-Finishes while_start _ λ start.
        with_label-Finishes while_end _ λ end.
          then-Finishes (emits (define start ∷ [])) _ (emits-Finishes _) (
            then-Finishes (expr_lines functions (in_loop env start end) c) _ (of_expr-Finishes _) (
              then-Finishes (emits (cmp_rax_0 ∷ je end ∷ [])) _ (emits-Finishes _) (
                then-Finishes _ (emits (jmp start ∷ define end ∷ []))
                  (emit_block-Finishes b (in_loop env start end) i) (emits-Finishes _))))
    emit_stmt-Finishes (break_ok p) env i = emits-Finishes _
    emit_stmt-Finishes (continue_ok p) env i = emits-Finishes _
    emit_stmt-Finishes (unsafe_ok p b) env i = emit_block-Finishes b env i
    emit_stmt-Finishes (expr_ok h) env i = of_expr-Finishes _

    emit_block-Finishes :
        {ctx : FnCtx} {b : Block} {vs : Vars}
        → WfBlock self ctx b vs
        → (env : FnEnv) → IsIn vs env.locals
        → Finishes (emit_block functions env b)
    emit_block-Finishes (block_ok ss) env i = emit_stmts-Finishes ss env i

    emit_stmts-Finishes :
        {ctx : FnCtx} {ss : Stmts} {vs : Vars}
        → WfStmts self ctx ss vs
        → (env : FnEnv) → IsIn vs env.locals
        → Finishes (emit_stmts functions env ss)
    emit_stmts-Finishes end_ok env i = emits-Finishes _
    emit_stmts-Finishes (then_ok s ss) env i =
        then-Finishes _ _ (emit_stmt-Finishes s env λ k z. grows_stmts self ss k (i k z))
          (emit_stmts-Finishes ss env i)

    emit_else-Finishes :
        {ctx : FnCtx} {b : ElseBlock} {vs : Vars}
        → WfElse self ctx b vs
        → (env : FnEnv) (l : Label) → IsIn vs env.locals
        → Finishes (emit_else functions env l b)
    emit_else-Finishes no_else_ok env l i = emits-Finishes _
    emit_else-Finishes (else_ok b) env l i =
        then-Finishes (emits (define l ∷ [])) _ (emits-Finishes _) (emit_block-Finishes b env i)

  params-IsIn :
      {ps : List Param} {vs ws : Vars}
      → WfParams self ps vs ws
      → (locals : List (Bytes × ℕ)) → IsIn vs locals
      → IsIn ws (param_locals ps locals)
  unfolding param_locals
  params-IsIn params_end locals i = i
  params-IsIn (param_ok p ps) locals i = params-IsIn ps _ (insert-IsIn _ _ _ _ _ i)

  fn_locals-IsIn :
      (f : FnDecl) {vs ws : Vars}
      → WfParams self f.params [] vs
      → WfBlock self (start_ctx self f vs) f.body ws
      → IsIn ws (fn_locals f)
  unfolding fn_locals
  fn_locals-IsIn f ps b = collects_block self b _ (params-IsIn ps [] nothing-IsIn)

  emit_fn-Finishes : (f : FnDecl) → WfFn self f → Finishes (emit_fn functions f)
  unfolding emit_fn
  emit_fn-Finishes f (fn_ok ps b r) = with_label-Finishes fn_end _ λ end.
      then-Finishes (emits (prologue f)) _ (emits-Finishes _) (
        then-Finishes _ (emits (epilogue f end))
          (emit_block-Finishes b (env_of f end) (fn_locals-IsIn f ps b)) (emits-Finishes _))

emit_items-Finishes :
    (pkg : Package) (file_path : Bytes) (fs : List (Bytes × FnSig)) (functions : List Bytes)
    (is : List Item)
    → All (WfItem pkg file_path fs) is
    → Finishes (emit_items functions is)
unfolding emit_items
emit_items-Finishes pkg file_path fs functions [] h = emits-Finishes []
emit_items-Finishes pkg file_path fs functions (use_item u ∷ is) (g, h) =
    emit_items-Finishes pkg file_path fs functions is h
emit_items-Finishes pkg file_path fs functions (fn_item f ∷ is) (g, h) =
    then-Finishes (emit_fn functions f) _
      (emit_fn-Finishes (checker pkg file_path fs) functions f g)
      (emit_items-Finishes pkg file_path fs functions is h)

finished :
    (m : Run (List Line × Names))
    → Post ⊥ (λ r. Unit {0}) m
    → (ls : List Line) × (with_data m ≡ done ls)
finished (done (ls, s)) h = (_, refl)
finished panic h = absurd h
finished out_of_fuel h = absurd h

-- A program on which the checker reports nothing is compiled: the code generator finds an offset
-- for every name that is assigned, and ends with the lines of the file.
pub emit-Accepted :
    (pkg : Package) (file_path : Bytes) (ast : SourceAst)
    → check_program pkg file_path ast ≡ []
    → (ls : List Line) × (emit ast pkg ≡ done ls)
unfolding emit Finishes
emit-Accepted pkg file_path ast h =
    let w = (check_program_iff pkg file_path ast).0 h in
    finished _ (
      then-Finishes (emits (header_lines (text_eq pkg.runtime (text "tiny"))))
        (emit_items (function_names ast.items) ast.items)
        (emits-Finishes (header_lines (text_eq pkg.runtime (text "tiny"))))
        (emit_items-Finishes pkg file_path w.functions (function_names ast.items) ast.items
          w.items_ok)
        (record { label_id = 0; strings = [] }))
