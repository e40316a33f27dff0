-- ===== src/Codegen/BigStep.antt =====
-- What the statements of the language do, apart from the code for them: a run of a statement from
-- a frame ends in some way with another frame. A statement that does not end has no run, and so
-- has one with an expression that has no value.
use snap_surf_lang.Prelude.{ℕ, Bytes, List, Option, none, some, ◌≡◌, ◌≢◌, ◌⊎◌}
use snap_surf_lang.Prelude.Maps.{get}
use snap_surf_lang.Diagnostic.{Span}
use snap_surf_lang.Ast.{
  Expr, TypeRef, Stmt, Stmts, Block, ElseBlock, let_stmt, mut_stmt, assign_stmt, ret_stmt, if_stmt,
  loop_stmt, while_stmt, break_stmt, continue_stmt, unsafe_stmt, expr_stmt, block, no_stmts,
  more_stmts, no_else, else_block,
}
use snap_surf_lang.Codegen.Machine.{Cpu, put, value}

-- How a statement ends: its successor is next, the innermost loop is left or goes on with its next
-- round, or the function returns a word.
pub data Ending : Type 0 where
  falls breaks continues : Ending
  returns : ℕ → Ending

-- A loop goes on with its next round.
abbrev pub GoesOn : Ending → Type 0
GoesOn e = (e ≡ falls) ⊎ (e ≡ continues)

module _ (cpu : Cpu) (functions : List Bytes) (locals : List (Bytes × ℕ))
    (fn : Bytes → List ℕ → Option ℕ) where
  abbrev pub Gives : (ℕ → ℕ) → Expr → ℕ → Type 0
  Gives frame e v = value cpu functions locals fn frame e ≡ some v

  mutual
    pub data RunsStmt : (ℕ → ℕ) → Stmt → Ending → (ℕ → ℕ) → Type 0 where
      let_runs :
          {frame : ℕ → ℕ} {name : Bytes} {ty : TypeRef} {e : Expr} {sp : Span} (offset v : ℕ)
          → get name locals ≡ some offset
          → Gives frame e v
          → RunsStmt frame (let_stmt name ty e sp) falls (put offset v frame)
      mut_runs :
          {frame : ℕ → ℕ} {name : Bytes} {ty : TypeRef} {e : Expr} {sp : Span} (offset v : ℕ)
          → get name locals ≡ some offset
          → Gives frame e v
          → RunsStmt frame (mut_stmt name ty e sp) falls (put offset v frame)
      assign_runs :
          {frame : ℕ → ℕ} {name : Bytes} {e : Expr} {sp : Span} (offset v : ℕ)
          → get name locals ≡ some offset
          → Gives frame e v
          → RunsStmt frame (assign_stmt name e sp) falls (put offset v frame)
      ret_void : {frame : ℕ → ℕ} {sp : Span} → RunsStmt frame (ret_stmt none sp) (returns 0) frame
      ret_runs :
          {frame : ℕ → ℕ} {e : Expr} {sp : Span} {v : ℕ}
          → Gives frame e v
          → RunsStmt frame (ret_stmt (some e) sp) (returns v) frame
      if_true :
          {frame frame' : ℕ → ℕ} {c : Expr} {t : Block} {e : ElseBlock} {sp : Span} {end : Ending}
          (v : ℕ)
          → Gives frame c v
          → v ≢ 0
          → RunsBlock frame t end frame'
          → RunsStmt frame (if_stmt c t e sp) end frame'
      if_false :
          {frame frame' : ℕ → ℕ} {c : Expr} {t : Block} {e : ElseBlock} {sp : Span} {end : Ending}
          → Gives frame c 0
          → RunsElse frame e end frame'
          → RunsStmt frame (if_stmt c t e sp) end frame'
      loop_again :
          {frame frame₁ frame' : ℕ → ℕ} {b : Block} {sp : Span} {end₁ end : Ending}
          → RunsBlock frame b end₁ frame₁
          → GoesOn end₁
          → RunsStmt frame₁ (loop_stmt b sp) end frame'
          → RunsStmt frame (loop_stmt b sp) end frame'
      loop_breaks :
          {frame frame' : ℕ → ℕ} {b : Block} {sp : Span}
          → RunsBlock frame b breaks frame'
          → RunsStmt frame (loop_stmt b sp) falls frame'
      loop_returns :
          {frame frame' : ℕ → ℕ} {b : Block} {sp : Span} {v : ℕ}
          → RunsBlock frame b (returns v) frame'
          → RunsStmt frame (loop_stmt b sp) (returns v) frame'
      while_done :
          {frame : ℕ → ℕ} {c : Expr} {b : Block} {sp : Span}
          → Gives frame c 0
          → RunsStmt frame (while_stmt c b sp) falls frame
      while_again :
          {frame frame₁ frame' : ℕ → ℕ} {c : Expr} {b : Block} {sp : Span} {end₁ end : Ending}
          (v : ℕ)
          → Gives frame c v
          → v ≢ 0
          → RunsBlock frame b end₁ frame₁
          → GoesOn end₁
          → RunsStmt frame₁ (while_stmt c b sp) end frame'
          → RunsStmt frame (while_stmt c b sp) end frame'
      while_breaks :
          {frame frame' : ℕ → ℕ} {c : Expr} {b : Block} {sp : Span} (v : ℕ)
          → Gives frame c v
          → v ≢ 0
          → RunsBlock frame b breaks frame'
          → RunsStmt frame (while_stmt c b sp) falls frame'
      while_returns :
          {frame frame' : ℕ → ℕ} {c : Expr} {b : Block} {sp : Span} {r : ℕ} (v : ℕ)
          → Gives frame c v
          → v ≢ 0
          → RunsBlock frame b (returns r) frame'
          → RunsStmt frame (while_stmt c b sp) (returns r) frame'
      break_runs : {frame : ℕ → ℕ} {sp : Span} → RunsStmt frame (break_stmt sp) breaks frame
      continue_runs :
          {frame : ℕ → ℕ} {sp : Span} → RunsStmt frame (continue_stmt sp) continues frame
      unsafe_runs :
          {frame frame' : ℕ → ℕ} {b : Block} {sp : Span} {end : Ending}
          → RunsBlock frame b end frame'
          → RunsStmt frame (unsafe_stmt b sp) end frame'
      expr_runs :
          {frame : ℕ → ℕ} {e : Expr} {sp : Span} (v : ℕ)
          → Gives frame e v
          → RunsStmt frame (expr_stmt e sp) falls frame

    pub data RunsBlock : (ℕ → ℕ) → Block → Ending → (ℕ → ℕ) → Type 0 where
      block_runs :
          {frame frame' : ℕ → ℕ} {ss : Stmts} {sp : Span} {end : Ending}
          → RunsStmts frame ss end frame'
          → RunsBlock frame (block ss sp) end frame'

    pub data RunsStmts : (ℕ → ℕ) → Stmts → Ending → (ℕ → ℕ) → Type 0 where
      end_runs : {frame : ℕ → ℕ} → RunsStmts frame no_stmts falls frame
      next_runs :
          {frame frame₁ frame' : ℕ → ℕ} {s : Stmt} {ss : Stmts} {end : Ending}
          → RunsStmt frame s falls frame₁
          → RunsStmts frame₁ ss end frame'
          → RunsStmts frame (more_stmts s ss) end frame'
      stops_runs :
          {frame frame' : ℕ → ℕ} {s : Stmt} {ss : Stmts} {end : Ending}
          → end ≢ falls
          → RunsStmt frame s end frame'
          → RunsStmts frame (more_stmts s ss) end frame'

    pub data RunsElse : (ℕ → ℕ) → ElseBlock → Ending → (ℕ → ℕ) → Type 0 where
      no_else_runs : {frame : ℕ → ℕ} → RunsElse frame no_else falls frame
      else_runs :
          {frame frame' : ℕ → ℕ} {b : Block} {end : Ending}
          → RunsBlock frame b end frame'
          → RunsElse frame (else_block b) end frame'
