-- ===== src/Sema/Typing/Sound.antt =====
-- The expressions that sema.rs accepts are those that follow the typing rules.
use snap_surf_lang.Ast.{
  Expr, Exprs, int_lit, str_lit, bool_lit, ident, path, binary, unary, call, no_exprs, more_exprs,
}
use snap_surf_lang.Sema.Types.{FnCtx}
use snap_surf_lang.Sema.Emit.{append-eq-nil}
use snap_surf_lang.Sema.Exprs.{Checker, expr_type, missing_target}
use snap_surf_lang.Sema.Typing.{integer, string, boolean_lit, unary_of, binary_of, reported}
use snap_surf_lang.Sema.Typing.Operators.{cons-ne-nil, unary_type-UnaryType, binary_type-BinaryType}
use snap_surf_lang.Sema.Typing.Calls.{IsSound, AreSound, ident_type-HasTy, call_type-HasTy}

module _ (self : Checker) (ctx : FnCtx) where
  mutual
    unfolding expr_type missing_target

    pub expr_type-HasTy : (e : Expr) → IsSound self ctx e
    expr_type-HasTy (int_lit raw v sp) h = integer
    expr_type-HasTy (str_lit raw bs sp) h = string
    expr_type-HasTy (bool_lit b sp) h = boolean_lit
    expr_type-HasTy (ident n sp) h = ident_type-HasTy self ctx n sp h
    expr_type-HasTy (path p sp) h = absurd (cons-ne-nil h)
    expr_type-HasTy (unary op e sp) h =
        let (x, y) = append-eq-nil (expr_type self ctx e).0 _ h in
        unary_of (expr_type-HasTy e x) (unary_type-UnaryType self op _ sp y)
    expr_type-HasTy (binary op l r sp) h =
        let (x, h) = append-eq-nil (expr_type self ctx l).0 _ h in
        let (y, z) = append-eq-nil (expr_type self ctx r).0 _ h in
        binary_of (expr_type-HasTy l x) (expr_type-HasTy r y)
          (binary_type-BinaryType self op _ _ sp z)
    expr_type-HasTy (call p args sp) h = call_type-HasTy self ctx p args sp (all_sound args) h
    expr_type-HasTy (Expr.error sp) h = reported

    all_sound : (es : Exprs) → AreSound self ctx es
    all_sound no_exprs = tt
    all_sound (more_exprs e es) = (expr_type-HasTy e, all_sound es)
