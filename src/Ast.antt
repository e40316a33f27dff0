-- ===== src/Ast.antt =====
-- prototypes/rust_stage0/src/ast.rs: the syntax tree. A `Vec` of expressions or of statements
-- inside the tree is a type of its own (`Exprs`, `Stmts`), and so is `Option<Block>`.
use snap_surf_lang.Prelude.{ℕ, Bytes, text, Bool, List, [], ◌∷◌, ◌++◌, Option}
use snap_surf_lang.Diagnostic.{Span}

-- `rem` is `Mod`, a reserved word here.
pub data BinaryOp : Type 0 where
  add sub mul div rem eq not_eq lt lt_eq gt gt_eq and or : BinaryOp

pub data UnaryOp : Type 0 where
  neg not : UnaryOp

pub record TypeRef : Type 0 where
  pub name : Bytes
  pub span : Span

pub data PathSep : Type 0 where
  dot slash single : PathSep

-- `Path` of the source.
pub record AstPath : Type 0 where
  pub segments : List Bytes
  pub sep : PathSep
  pub span : Span

unfoldable pub sep_text : PathSep → Bytes
sep_text dot = text "."
sep_text slash = text "/"
sep_text single = text ""

-- `join` of the standard library
unfoldable pub join_texts : Bytes → List Bytes → Bytes
join_texts sep [] = []
join_texts sep (t ∷ []) = t
join_texts sep (t ∷ (u ∷ us)) = t ++ (sep ++ join_texts sep (u ∷ us))

-- `Path::display`
unfoldable pub display : AstPath → Bytes
unfolding sep_text join_texts
display p = join_texts (sep_text p.sep) p.segments

mutual
  pub data Expr : Type 0 where
    int_lit : Bytes → ℕ → Span → Expr
    str_lit : Bytes → Bytes → Span → Expr
    bool_lit : Bool → Span → Expr
    ident : Bytes → Span → Expr
    path : AstPath → Span → Expr
    binary : BinaryOp → Expr → Expr → Span → Expr
    unary : UnaryOp → Expr → Span → Expr
    call : AstPath → Exprs → Span → Expr
    error : Span → Expr

  pub data Exprs : Type 0 where
    no_exprs : Exprs
    more_exprs : Expr → Exprs → Exprs

-- `Expr::span`
unfoldable pub expr_span : Expr → Span
expr_span (int_lit raw value sp) = sp
expr_span (str_lit raw bytes sp) = sp
expr_span (bool_lit value sp) = sp
expr_span (ident name sp) = sp
expr_span (path p sp) = sp
expr_span (binary op l r sp) = sp
expr_span (unary op e sp) = sp
expr_span (call callee args sp) = sp
expr_span (error sp) = sp

mutual
  pub data Stmt : Type 0 where
    let_stmt : Bytes → TypeRef → Expr → Span → Stmt
    mut_stmt : Bytes → TypeRef → Expr → Span → Stmt
    assign_stmt : Bytes → Expr → Span → Stmt
    ret_stmt : Option Expr → Span → Stmt
    if_stmt : Expr → Block → ElseBlock → Span → Stmt
    loop_stmt : Block → Span → Stmt
    while_stmt : Expr → Block → Span → Stmt
    break_stmt : Span → Stmt
    continue_stmt : Span → Stmt
    unsafe_stmt : Block → Span → Stmt
    expr_stmt : Expr → Span → Stmt
    error_stmt : Span → Stmt

  pub data Block : Type 0 where
    block : Stmts → Span → Block

  pub data Stmts : Type 0 where
    no_stmts : Stmts
    more_stmts : Stmt → Stmts → Stmts

  pub data ElseBlock : Type 0 where
    no_else : ElseBlock
    else_block : Block → ElseBlock

-- `Stmt::span`
unfoldable pub stmt_span : Stmt → Span
stmt_span (let_stmt name ty e sp) = sp
stmt_span (mut_stmt name ty e sp) = sp
stmt_span (assign_stmt name e sp) = sp
stmt_span (ret_stmt e sp) = sp
stmt_span (if_stmt c t e sp) = sp
stmt_span (loop_stmt b sp) = sp
stmt_span (while_stmt c b sp) = sp
stmt_span (break_stmt sp) = sp
stmt_span (continue_stmt sp) = sp
stmt_span (unsafe_stmt b sp) = sp
stmt_span (expr_stmt e sp) = sp
stmt_span (error_stmt sp) = sp

pub record Param : Type 0 where
  pub name : Bytes
  pub ty : TypeRef
  pub span : Span

pub record FnDecl : Type 0 where
  pub name : Bytes
  pub params : List Param
  pub ret : TypeRef
  pub body : Block
  pub span : Span
  pub is_unsafe : Bool

pub record UseDecl : Type 0 where
  pub path : AstPath
  pub span : Span

pub data Item : Type 0 where
  use_item : UseDecl → Item
  fn_item : FnDecl → Item

pub record SourceAst : Type 0 where
  pub items : List Item
  pub span : Span
