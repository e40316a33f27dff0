-- ===== src/Sema/Stmts.antt =====
-- Statements, functions and programs in sema.rs. The context that a statement changes is handed
-- from one to the next.
use snap_surf_lang.Prelude.{
  ◌+◌, ◌-◌, Bytes, text, text_eq, Bool, true, false, not, ◌&&◌, ◌||◌, List, [], ◌∷◌, ◌++◌, Option,
  none, some, map, ◌==◌, if◌then◌else◌, length,
}
use snap_surf_lang.Prelude.Maps.{get, insert, is_present}
use snap_surf_lang.Diagnostic.{Span, Diagnostic}
use snap_surf_lang.Package.{Package, is_executable}
use snap_surf_lang.Ast.{
  TypeRef, Expr, expr_span, Stmt, Block, Stmts, ElseBlock, let_stmt, mut_stmt, assign_stmt,
  ret_stmt, if_stmt, loop_stmt, while_stmt, break_stmt, continue_stmt, unsafe_stmt, expr_stmt,
  error_stmt, block, no_stmts, more_stmts, no_else, else_block, Param, FnDecl, Item, use_item,
  fn_item, SourceAst,
}
use snap_surf_lang.Sema.Types.{FnSig, VarInfo, FnCtx, is_bool}
use snap_surf_lang.Sema.Emit.{Emit, pure, ◌>>=◌, ◌>>◌, when}
use snap_surf_lang.Sema.Exprs.{Checker, report, requires, quoted, require_type, expr_type}

-- `block_returns` and `stmt_returns`.
unfoldable mutual
  pub stmt_returns : Stmt → Bool
  stmt_returns (ret_stmt e sp) = true
  stmt_returns (if_stmt c t (else_block e) sp) = block_returns t && block_returns e
  stmt_returns (if_stmt c t no_else sp) = false
  stmt_returns (let_stmt n ty e sp) = false
  stmt_returns (mut_stmt n ty e sp) = false
  stmt_returns (assign_stmt n e sp) = false
  stmt_returns (loop_stmt b sp) = false
  stmt_returns (while_stmt c b sp) = false
  stmt_returns (break_stmt sp) = false
  stmt_returns (continue_stmt sp) = false
  stmt_returns (unsafe_stmt b sp) = false
  stmt_returns (expr_stmt e sp) = false
  stmt_returns (error_stmt sp) = false

  pub block_returns : Block → Bool
  block_returns (block ss sp) = stmts_return ss

  pub stmts_return : Stmts → Bool
  stmts_return no_stmts = false
  stmts_return (more_stmts s ss) = stmt_returns s || stmts_return ss

module _ (self : Checker) where
  abbrev pub declared : FnCtx → Bytes → TypeRef → Bool → FnCtx
  declared ctx name ty m = record ctx {
    vars = insert name (record { ty = ty.name; mutable = m }) ctx.vars;
  }

  unfoldable pub declare_var : FnCtx → Bytes → TypeRef → Expr → Bool → Span → Emit FnCtx
  declare_var ctx name ty e m sp =
      if is_present (get name ctx.vars)
      then (do
        report self (text "E4202") (text "variable shadowing is forbidden in foundation") sp
        pure ctx)
      else (do
        t ← expr_type self ctx e
        require_type self ty.name t (expr_span e)
        pure (declared ctx name ty m))

  unfoldable pub assign : FnCtx → Bytes → Expr → Span → Emit (Unit {0})
  assign ctx name e sp = elim (get name ctx.vars) [
    | none ↦ report self (text "E0401") (quoted (text "undeclared variable ") name (text "")) sp
    | some info ↦ do
      when (not info.mutable) (
          report self (text "E4201")
            (quoted (text "cannot assign to immutable variable ") name (text "")) sp)
      t ← expr_type self ctx e
      require_type self info.ty t (expr_span e)
  ]

  unfoldable pub check_ret : FnCtx → Option Expr → Span → Emit (Unit {0})
  check_ret ctx none sp =
      when (not (text_eq ctx.return_type (text "void")))
        (report self (text "E0402") (text "return requires " ++ ctx.return_type) sp)
  check_ret ctx (some e) sp =
      if text_eq ctx.return_type (text "void")
      then report self (text "E0402") (text "void function cannot return a value") sp
      else (do t ← expr_type self ctx e; require_type self ctx.return_type t (expr_span e))

  unfoldable pub condition : FnCtx → Expr → Bytes → Emit (Unit {0})
  condition ctx e message = do
    t ← expr_type self ctx e
    when (not (is_bool t)) (report self (text "E4301") message (expr_span e))

  abbrev pub enter_loop : FnCtx → FnCtx
  enter_loop ctx = record ctx { loop_depth = ctx.loop_depth + 1 }

  abbrev pub leave_loop : FnCtx → FnCtx
  leave_loop ctx = record ctx { loop_depth = ctx.loop_depth - 1 }

  abbrev pub enter_unsafe : FnCtx → FnCtx
  enter_unsafe ctx = record ctx { unsafe_depth = ctx.unsafe_depth + 1 }

  abbrev pub leave_unsafe : FnCtx → FnCtx
  leave_unsafe ctx = record ctx { unsafe_depth = ctx.unsafe_depth - 1 }

  unfoldable mutual
    pub check_stmt : Stmt → FnCtx → Emit FnCtx
    check_stmt (let_stmt name ty e sp) ctx = declare_var ctx name ty e false sp
    check_stmt (mut_stmt name ty e sp) ctx = declare_var ctx name ty e true sp
    check_stmt (assign_stmt name e sp) ctx = do assign ctx name e sp; pure ctx
    check_stmt (ret_stmt e sp) ctx = do check_ret ctx e sp; pure ctx
    check_stmt (if_stmt c t e sp) ctx = do
      condition ctx c (text "if condition must be bool")
      ctx₁ ← check_block t ctx
      check_else e ctx₁
    check_stmt (loop_stmt b sp) ctx = do
      ctx₁ ← check_block b (enter_loop ctx)
      pure (leave_loop ctx₁)
    check_stmt (while_stmt c b sp) ctx = do
      condition ctx c (text "while condition must be bool")
      ctx₁ ← check_block b (enter_loop ctx)
      pure (leave_loop ctx₁)
    check_stmt (break_stmt sp) ctx = do
      when (ctx.loop_depth == 0) (report self (text "E0501") (text "break outside loop") sp)
      pure ctx
    check_stmt (continue_stmt sp) ctx = do
      when (ctx.loop_depth == 0) (report self (text "E0502") (text "continue outside loop") sp)
      pure ctx
    check_stmt (unsafe_stmt b sp) ctx = do
      when (not (requires self (text "unsafe")))
          (report self (text "E0801") (text "unsafe block requires package capability unsafe") sp)
      ctx₁ ← check_block b (enter_unsafe ctx)
      pure (leave_unsafe ctx₁)
    check_stmt (expr_stmt e sp) ctx = do t ← expr_type self ctx e; pure ctx
    check_stmt (error_stmt sp) ctx = do
      report self (text "E0301") (text "error node reached validation boundary") sp
      pure ctx

    pub check_block : Block → FnCtx → Emit FnCtx
    check_block (block ss sp) ctx = check_stmts ss ctx

    pub check_stmts : Stmts → FnCtx → Emit FnCtx
    check_stmts no_stmts ctx = pure ctx
    check_stmts (more_stmts s ss) ctx = do ctx₁ ← check_stmt s ctx; check_stmts ss ctx₁

    pub check_else : ElseBlock → FnCtx → Emit FnCtx
    check_else no_else ctx = pure ctx
    check_else (else_block b) ctx = check_block b ctx

  -- The loop over the parameters.
  unfoldable pub declare_params :
      List Param → List (Bytes × VarInfo) → Emit (List (Bytes × VarInfo))
  declare_params [] vars = pure vars
  declare_params (p ∷ ps) vars = do
    when (is_present (get p.name vars))
        (report self (text "E4202") (text "variable shadowing is forbidden in foundation") p.span)
    declare_params ps (
        if is_present (get p.name vars)
        then vars
        else insert p.name (record { ty = p.ty.name; mutable = false }) vars)

  abbrev pub start_ctx : FnDecl → List (Bytes × VarInfo) → FnCtx
  start_ctx f vars = record {
    vars = vars;
    return_type = f.ret.name;
    loop_depth = 0;
    unsafe_depth = if f.is_unsafe then 1 else 0;
  }

  unfoldable pub check_fn : FnDecl → Emit (Unit {0})
  check_fn f = do
    vars ← declare_params f.params []
    ctx ← check_block f.body (start_ctx f vars)
    when (not (text_eq f.ret.name (text "void")) && not (block_returns f.body))
        (report self (text "E4101") (text "not all control paths return " ++ f.ret.name) f.span)

  -- The second loop over the items.
  unfoldable pub check_items : List Item → Emit (Unit {0})
  check_items [] = pure tt
  check_items (use_item u ∷ is) = check_items is
  check_items (fn_item f ∷ is) = do check_fn f; check_items is

module _ (pkg : Package) (file_path : Bytes) where
  abbrev pub checker : List (Bytes × FnSig) → Checker
  checker functions = record { pkg = pkg; file_path = file_path; functions = functions }

  abbrev pub signature : FnDecl → FnSig
  signature f = record {
    params = map (λ p. p.ty.name) f.params;
    ret = f.ret.name;
    is_unsafe = f.is_unsafe;
  }

  -- The first loop over the items: the table of functions.
  unfoldable pub collect : List Item → List (Bytes × FnSig) → Emit (List (Bytes × FnSig))
  collect [] functions = pure functions
  collect (use_item u ∷ is) functions = collect is functions
  collect (fn_item f ∷ is) functions =
      let self = checker functions in
      let rest = collect is functions in
      let added = collect is (insert f.name (signature f) functions) in
      if is_present (get f.name functions)
      then (do
        report self (text "E4202") (text "function redeclaration is forbidden in foundation") f.span
        rest)
      else (do
        when (f.is_unsafe && not (requires self (text "unsafe"))) (
            report self (text "E0801") (text "unsafe function requires package capability unsafe")
              f.span)
        added)

  abbrev pub is_main_signature : FnSig → Bool
  is_main_signature sig =
      length sig.params == 0 && text_eq sig.ret (text "i32") && not sig.is_unsafe

  unfoldable pub check_main : List (Bytes × FnSig) → Span → Emit (Unit {0})
  check_main functions sp =
      when (is_executable pkg.package_type) (elim (get (text "main") functions) [
        | some sig ↦ when (not (is_main_signature sig)) (
            report (checker functions) (text "E0902")
              (text "foundation executable main signature must be exactly fn main -> i32") sp)
        | none ↦
            report (checker functions) (text "E0902")
              (text "executable package requires fn main -> i32") sp
      ])

  unfoldable pub check_program : SourceAst → List Diagnostic
  check_program ast =
      let r = do
        functions ← collect ast.items []
        check_main functions ast.span
        check_items (checker functions) ast.items
      in r.0
