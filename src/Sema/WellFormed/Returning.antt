-- ===== src/Sema/WellFormed/Returning.antt =====
-- `block_returns` and `stmt_returns` of sema.rs find exactly the blocks that always return.
use mathlib.Core.Bool.{and-eq-true_iff}
use snap_surf_lang.Prelude.{true, ◌≡◌, refl, inl, inr, Bool-cases}
use snap_surf_lang.Ast.{
  Stmt, Block, Stmts, if_stmt, ret_stmt, else_block, block, no_stmts, more_stmts,
}
use snap_surf_lang.Sema.Stmts.{stmt_returns, block_returns, stmts_return}
use snap_surf_lang.Sema.WellFormed.{
  AlwaysReturns, BlockReturns, SomeReturns, by_ret, by_branches, by_stmts, now, later,
}

mutual
  unfolding stmt_returns block_returns stmts_return

  stmt_returns-AlwaysReturns : (s : Stmt) → stmt_returns s ≡ true → AlwaysReturns s
  stmt_returns-AlwaysReturns (ret_stmt e sp) h = by_ret
  stmt_returns-AlwaysReturns (if_stmt c t (else_block e) sp) h =
      let (x, y) = (and-eq-true_iff (block_returns t) (block_returns e)).0 h in
      by_branches (block_returns-BlockReturns t x) (block_returns-BlockReturns e y)
  stmt_returns-AlwaysReturns _ h = cc

  pub block_returns-BlockReturns : (b : Block) → block_returns b ≡ true → BlockReturns b
  block_returns-BlockReturns (block ss sp) h = by_stmts (stmts_return-SomeReturns ss h)

  stmts_return-SomeReturns : (ss : Stmts) → stmts_return ss ≡ true → SomeReturns ss
  stmts_return-SomeReturns no_stmts h = cc
  stmts_return-SomeReturns (more_stmts s ss) h = elim (Bool-cases (stmt_returns s)) [
    | inl e ↦ now (stmt_returns-AlwaysReturns s e)
    | inr e ↦ later (stmts_return-SomeReturns ss (rw e at h))
  ]

mutual
  unfolding stmt_returns block_returns stmts_return

  AlwaysReturns-stmt_returns : {s : Stmt} → AlwaysReturns s → stmt_returns s ≡ true
  AlwaysReturns-stmt_returns by_ret = refl
  AlwaysReturns-stmt_returns (by_branches x y) =
      (and-eq-true_iff _ _).1 (BlockReturns-block_returns x, BlockReturns-block_returns y)

  pub BlockReturns-block_returns : {b : Block} → BlockReturns b → block_returns b ≡ true
  BlockReturns-block_returns (by_stmts x) = SomeReturns-stmts_return x

  SomeReturns-stmts_return : {ss : Stmts} → SomeReturns ss → stmts_return ss ≡ true
  SomeReturns-stmts_return (now x) = rw (AlwaysReturns-stmt_returns x) refl
  SomeReturns-stmts_return (later {s = s} {ss = ss} x) = elim (Bool-cases (stmt_returns s)) [
    | inl e ↦ rw e refl
    | inr e ↦ rw e (SomeReturns-stmts_return x)
  ]
