-- ===== src/Sema/WellFormed.antt =====
-- The rules that sema.rs checks statements, functions and programs against, without its
-- diagnostics.
pub mod Returning
pub mod Statements
pub mod Accepts
pub mod Programs
use snap_surf_lang.Prelude.{
  Bytes, text, Bool, true, false, List, [], ◌∷◌, ◌++◌, Option, none, some, ◌≡◌, ◌≢◌, ◌⊎◌, map, All,
  ◌+◌, if◌then◌else◌,
}
use snap_surf_lang.Prelude.Maps.{get, insert, contains}
use snap_surf_lang.Diagnostic.{Span}
use snap_surf_lang.Package.{Package, executable}
use snap_surf_lang.Ast.{
  TypeRef, Expr, Stmt, Block, Stmts, ElseBlock, let_stmt, mut_stmt, assign_stmt, ret_stmt, if_stmt,
  loop_stmt, while_stmt, break_stmt, continue_stmt, unsafe_stmt, expr_stmt, block, no_stmts,
  more_stmts, no_else, else_block, Param, FnDecl, UseDecl, Item, use_item, fn_item, SourceAst,
}
use snap_surf_lang.Sema.Types.{FnSig, VarInfo, FnCtx, Ty, named}
use snap_surf_lang.Sema.Exprs.{Checker}
use snap_surf_lang.Sema.Typing.{HasTy, Agrees}

abbrev pub Vars : Type 0
Vars = List (Bytes × VarInfo)

abbrev pub with_vars : FnCtx → Vars → FnCtx
with_vars ctx vs = record ctx { vars = vs }

-- The variables with one more.
abbrev pub with_var : Bytes → TypeRef → Bool → Vars → Vars
with_var n ty m vs = insert n (record { ty = ty.name; mutable = m }) vs

-- Whichever way its conditions come out, the statement does not let the run go on behind it: it is
-- a `ret`, or an `if` both of whose branches are so.
mutual
  pub data AlwaysReturns : Stmt → Type 0 where
    by_ret : {e : Option Expr} {sp : Span} → AlwaysReturns (ret_stmt e sp)
    by_branches :
        {c : Expr} {t e : Block} {sp : Span}
        → BlockReturns t
        → BlockReturns e
        → AlwaysReturns (if_stmt c t (else_block e) sp)

  pub data BlockReturns : Block → Type 0 where
    by_stmts : {ss : Stmts} {sp : Span} → SomeReturns ss → BlockReturns (block ss sp)

  pub data SomeReturns : Stmts → Type 0 where
    now : {s : Stmt} {ss : Stmts} → AlwaysReturns s → SomeReturns (more_stmts s ss)
    later : {s : Stmt} {ss : Stmts} → SomeReturns ss → SomeReturns (more_stmts s ss)

-- What a function is to its callers.
abbrev heading : FnDecl → FnSig
heading f = record {
  params = map (λ p. p.ty.name) f.params;
  ret = f.ret.name;
  is_unsafe = f.is_unsafe;
}

-- One loop more, and one scope more that is unsafe.
abbrev inside_loop : FnCtx → FnCtx
inside_loop ctx = record ctx { loop_depth = ctx.loop_depth + 1 }

abbrev inside_unsafe : FnCtx → FnCtx
inside_unsafe ctx = record ctx { unsafe_depth = ctx.unsafe_depth + 1 }

-- The body of a function stands in no loop, and in an unsafe scope if the function is unsafe.
abbrev inside_body : FnDecl → Vars → FnCtx
inside_body f vs = record {
  vars = vs;
  return_type = f.ret.name;
  loop_depth = 0;
  unsafe_depth = if f.is_unsafe then 1 else 0;
}

module _ (self : Checker) where
  -- The statement is well formed in the scope and leaves the variables. Every variable is seen up
  -- to the end of the function.
  mutual
    pub data WfStmt : FnCtx → Stmt → Vars → Type 0 where
      let_ok :
          {ctx : FnCtx} {n : Bytes} {ty : TypeRef} {e : Expr} {sp : Span} {t : Ty}
          → get n ctx.vars ≡ none
          → HasTy self ctx e t
          → Agrees ty.name t
          → WfStmt ctx (let_stmt n ty e sp) (with_var n ty false ctx.vars)
      mut_ok :
          {ctx : FnCtx} {n : Bytes} {ty : TypeRef} {e : Expr} {sp : Span} {t : Ty}
          → get n ctx.vars ≡ none
          → HasTy self ctx e t
          → Agrees ty.name t
          → WfStmt ctx (mut_stmt n ty e sp) (with_var n ty true ctx.vars)
      assign_ok :
          {ctx : FnCtx} {n : Bytes} {e : Expr} {sp : Span} {t : Ty} {info : VarInfo}
          → get n ctx.vars ≡ some info
          → info.mutable ≡ true
          → HasTy self ctx e t
          → Agrees info.ty t
          → WfStmt ctx (assign_stmt n e sp) ctx.vars
      ret_void :
          {ctx : FnCtx} {sp : Span}
          → ctx.return_type ≡ text "void"
          → WfStmt ctx (ret_stmt none sp) ctx.vars
      ret_value :
          {ctx : FnCtx} {e : Expr} {sp : Span} {t : Ty}
          → ctx.return_type ≢ text "void"
          → HasTy self ctx e t
          → Agrees ctx.return_type t
          → WfStmt ctx (ret_stmt (some e) sp) ctx.vars
      if_ok :
          {ctx : FnCtx} {c : Expr} {t : Block} {e : ElseBlock} {sp : Span} {vs ws : Vars}
          → HasTy self ctx c (named (text "bool"))
          → WfBlock ctx t vs
          → WfElse (with_vars ctx vs) e ws
          → WfStmt ctx (if_stmt c t e sp) ws
      loop_ok :
          {ctx : FnCtx} {b : Block} {sp : Span} {vs : Vars}
          → WfBlock (inside_loop ctx) b vs
          → WfStmt ctx (loop_stmt b sp) vs
      while_ok :
          {ctx : FnCtx} {c : Expr} {b : Block} {sp : Span} {vs : Vars}
          → HasTy self ctx c (named (text "bool"))
          → WfBlock (inside_loop ctx) b vs
          → WfStmt ctx (while_stmt c b sp) vs
      break_ok :
          {ctx : FnCtx} {sp : Span} → ctx.loop_depth ≢ 0 → WfStmt ctx (break_stmt sp) ctx.vars
      continue_ok :
          {ctx : FnCtx} {sp : Span} → ctx.loop_depth ≢ 0 → WfStmt ctx (continue_stmt sp) ctx.vars
      unsafe_ok :
          {ctx : FnCtx} {b : Block} {sp : Span} {vs : Vars}
          → contains (text "unsafe") self.pkg.requires ≡ true
          → WfBlock (inside_unsafe ctx) b vs
          → WfStmt ctx (unsafe_stmt b sp) vs
      expr_ok :
          {ctx : FnCtx} {e : Expr} {sp : Span} {t : Ty}
          → HasTy self ctx e t
          → WfStmt ctx (expr_stmt e sp) ctx.vars

    pub data WfBlock : FnCtx → Block → Vars → Type 0 where
      block_ok :
          {ctx : FnCtx} {ss : Stmts} {sp : Span} {vs : Vars}
          → WfStmts ctx ss vs
          → WfBlock ctx (block ss sp) vs

    pub data WfStmts : FnCtx → Stmts → Vars → Type 0 where
      end_ok : {ctx : FnCtx} → WfStmts ctx no_stmts ctx.vars
      then_ok :
          {ctx : FnCtx} {s : Stmt} {ss : Stmts} {vs ws : Vars}
          → WfStmt ctx s vs
          → WfStmts (with_vars ctx vs) ss ws
          → WfStmts ctx (more_stmts s ss) ws

    pub data WfElse : FnCtx → ElseBlock → Vars → Type 0 where
      no_else_ok : {ctx : FnCtx} → WfElse ctx no_else ctx.vars
      else_ok :
          {ctx : FnCtx} {b : Block} {vs : Vars} → WfBlock ctx b vs → WfElse ctx (else_block b) vs

  -- The parameters have different names, and leave the variables.
  pub data WfParams : List Param → Vars → Vars → Type 0 where
    params_end : {vs : Vars} → WfParams [] vs vs
    param_ok :
        {p : Param} {ps : List Param} {vs ws : Vars}
        → get p.name vs ≡ none
        → WfParams ps (with_var p.name p.ty false vs) ws
        → WfParams (p ∷ ps) vs ws

  pub data WfFn (f : FnDecl) : Type 0 where
    fn_ok :
        {vs ws : Vars}
        → WfParams f.params [] vs
        → WfBlock (inside_body f vs) f.body ws
        → (f.ret.name ≡ text "void") ⊎ BlockReturns f.body
        → WfFn f

module _ (pkg : Package) (file_path : Bytes) where
  -- The functions of the items have different names, those that are unsafe need the capability,
  -- and leave the table.
  pub data WfTable : List Item → List (Bytes × FnSig) → List (Bytes × FnSig) → Type 0 where
    table_end : {fs : List (Bytes × FnSig)} → WfTable [] fs fs
    table_use :
        {u : UseDecl} {is : List Item} {fs gs : List (Bytes × FnSig)}
        → WfTable is fs gs
        → WfTable (use_item u ∷ is) fs gs
    table_fn :
        {f : FnDecl} {is : List Item} {fs gs : List (Bytes × FnSig)}
        → get f.name fs ≡ none
        → (f.is_unsafe ≡ true → contains (text "unsafe") pkg.requires ≡ true)
        → WfTable is (insert f.name (heading f) fs) gs
        → WfTable (fn_item f ∷ is) fs gs

  -- An executable has `fn main -> i32`.
  abbrev pub WfMain : List (Bytes × FnSig) → Type 0
  WfMain fs =
      pkg.package_type ≡ executable
      → (sig : FnSig) × (get (text "main") fs ≡ some sig)
        × (sig.params ≡ [])
        × (sig.ret ≡ text "i32")
        × (sig.is_unsafe ≡ false)

  abbrev pub WfItem : List (Bytes × FnSig) → Item → Type 0
  WfItem fs (use_item u) = Unit
  WfItem fs (fn_item f) = WfFn (record { pkg = pkg; file_path = file_path; functions = fs }) f

  pub record WfProgram (ast : SourceAst) : Type 0 where
    pub functions : List (Bytes × FnSig)
    pub table : WfTable ast.items [] functions
    pub main_ok : WfMain functions
    pub items_ok : All (WfItem functions) ast.items
