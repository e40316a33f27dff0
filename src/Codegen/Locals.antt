-- ===== src/Codegen/Locals.antt =====
-- The names that sema.rs declares have offsets (`collect_locals` in codegen.rs).
use snap_surf_lang.Prelude.{
  ℕ, Bytes, text_eq, text_eq_iff, List, [], none, some, ◌≡◌, refl, inl, inr, Bool-cases,
  Option-cases,
}
use snap_surf_lang.Prelude.Maps.{get, insert, get-insert}
use snap_surf_lang.Ast.{Stmt, Stmts, Block, ElseBlock}
use snap_surf_lang.Sema.Types.{VarInfo, FnCtx}
use snap_surf_lang.Sema.Exprs.{Checker}
use snap_surf_lang.Sema.WellFormed.{
  Vars, WfStmt, WfBlock, WfStmts, WfElse, let_ok, mut_ok, assign_ok, ret_void, ret_value, if_ok,
  loop_ok, while_ok, break_ok, continue_ok, unsafe_ok, expr_ok, block_ok, end_ok, then_ok,
  no_else_ok, else_ok,
}
use snap_surf_lang.Codegen.Stmts.{
  next_offset, add_local, collect_stmt, collect_locals, collect_stmts, collect_else,
}

-- Every name of the first table is in the second one.
abbrev pub IsIn {ℓ κ} :
    {V : Type ℓ} {W : Type κ} → List (Bytes × V) → List (Bytes × W) → Type (ℓ ⊔ κ)
IsIn vs ws = (k : Bytes) → get k ws ≡ none → get k vs ≡ none

pub insert-IsIn {ℓ κ} :
    {V : Type ℓ} {W : Type κ} (n : Bytes) (v : V) (w : W) (vs : List (Bytes × V))
    (ws : List (Bytes × W))
    → IsIn vs ws
    → IsIn (insert n v vs) (insert n w ws)
insert-IsIn n v w vs ws h k e = elim (Bool-cases (text_eq n k)) [
  | inl q ↦ let x : some w ≡ none = rw (get-insert n k w ws, q) at e in cc
  | inr q ↦
      let x : get k ws ≡ none = rw (get-insert n k w ws, q) at e in
      rw (get-insert n k v vs, q) (h k x)
]

add_local-IsIn :
    (n : Bytes) (v : VarInfo) (vs : Vars) (locals : List (Bytes × ℕ))
    → IsIn vs locals
    → IsIn (insert n v vs) (add_local n locals)
unfolding add_local
add_local-IsIn n v vs locals h = elim (Option-cases (get n locals)) [
  | inl q ↦ rw q (insert-IsIn n v (next_offset locals) vs locals h)
  | inr (a, q) ↦ rw q λ k e. elim (Bool-cases (text_eq n k)) [
    | inl z ↦ let p : n ≡ k = (text_eq_iff n k).0 z in let x : get n locals ≡ none = rw p e in cc
    | inr z ↦ rw (get-insert n k v vs, z) (h k e)
  ]
]

grown-IsIn : (n : Bytes) (v : VarInfo) (vs : Vars) → IsIn vs (insert n v vs)
grown-IsIn n v vs k e = elim (Bool-cases (text_eq n k)) [
  | inl q ↦ let x : some v ≡ none = rw (get-insert n k v vs, q) at e in cc
  | inr q ↦ rw (get-insert n k v vs, q) at e
]

pub nothing-IsIn : IsIn {V = VarInfo} {W = ℕ} [] []
unfolding get
nothing-IsIn k e = refl

module _ (self : Checker) where
  mutual
    grows_stmt : {ctx : FnCtx} {s : Stmt} {vs : Vars} → WfStmt self ctx s vs → IsIn ctx.vars vs
    grows_stmt (let_ok p h a) = grown-IsIn _ _ _
    grows_stmt (mut_ok p h a) = grown-IsIn _ _ _
    grows_stmt (assign_ok p q h a) = λ k e. e
    grows_stmt (ret_void p) = λ k e. e
    grows_stmt (ret_value p h a) = λ k e. e
    grows_stmt (if_ok c t e) = λ k z. grows_block t k (grows_else e k z)
    grows_stmt (loop_ok b) = grows_block b
    grows_stmt (while_ok c b) = grows_block b
    grows_stmt (break_ok p) = λ k e. e
    grows_stmt (continue_ok p) = λ k e. e
    grows_stmt (unsafe_ok p b) = grows_block b
    grows_stmt (expr_ok h) = λ k e. e

    grows_block : {ctx : FnCtx} {b : Block} {vs : Vars} → WfBlock self ctx b vs → IsIn ctx.vars vs
    grows_block (block_ok ss) = grows_stmts ss

    pub grows_stmts :
        {ctx : FnCtx} {ss : Stmts} {vs : Vars} → WfStmts self ctx ss vs → IsIn ctx.vars vs
    grows_stmts end_ok = λ k e. e
    grows_stmts (then_ok s ss) = λ k e. grows_stmt s k (grows_stmts ss k e)

    pub grows_else :
        {ctx : FnCtx} {b : ElseBlock} {vs : Vars} → WfElse self ctx b vs → IsIn ctx.vars vs
    grows_else no_else_ok = λ k e. e
    grows_else (else_ok b) = grows_block b

  mutual
    unfolding collect_stmt collect_locals collect_stmts collect_else

    collects_stmt :
        {ctx : FnCtx} {s : Stmt} {vs : Vars}
        → WfStmt self ctx s vs
        → (locals : List (Bytes × ℕ)) → IsIn ctx.vars locals
        → IsIn vs (collect_stmt s locals)
    collects_stmt (let_ok p h a) locals i = add_local-IsIn _ _ _ locals i
    collects_stmt (mut_ok p h a) locals i = add_local-IsIn _ _ _ locals i
    collects_stmt (assign_ok p q h a) locals i = i
    collects_stmt (ret_void p) locals i = i
    collects_stmt (ret_value p h a) locals i = i
    collects_stmt (if_ok c t e) locals i = collects_else e _ (collects_block t locals i)
    collects_stmt (loop_ok b) locals i = collects_block b locals i
    collects_stmt (while_ok c b) locals i = collects_block b locals i
    collects_stmt (break_ok p) locals i = i
    collects_stmt (continue_ok p) locals i = i
    collects_stmt (unsafe_ok p b) locals i = collects_block b locals i
    collects_stmt (expr_ok h) locals i = i

    pub collects_block :
        {ctx : FnCtx} {b : Block} {vs : Vars}
        → WfBlock self ctx b vs
        → (locals : List (Bytes × ℕ)) → IsIn ctx.vars locals
        → IsIn vs (collect_locals b locals)
    collects_block (block_ok ss) locals i = collects_stmts ss locals i

    collects_stmts :
        {ctx : FnCtx} {ss : Stmts} {vs : Vars}
        → WfStmts self ctx ss vs
        → (locals : List (Bytes × ℕ)) → IsIn ctx.vars locals
        → IsIn vs (collect_stmts ss locals)
    collects_stmts end_ok locals i = i
    collects_stmts (then_ok s ss) locals i = collects_stmts ss _ (collects_stmt s locals i)

    collects_else :
        {ctx : FnCtx} {b : ElseBlock} {vs : Vars}
        → WfElse self ctx b vs
        → (locals : List (Bytes × ℕ)) → IsIn ctx.vars locals
        → IsIn vs (collect_else b locals)
    collects_else no_else_ok locals i = i
    collects_else (else_ok b) locals i = collects_block b locals i
