-- ===== src/Sema/Typing/Complete.antt =====
-- The checker of sema.rs accepts what follows the typing rules, and with that type.
use snap_surf_lang.Prelude.{
  Bytes, text, text_eq, text_eq_refl, ℕ, text_eq_of_ne, Bool, true, false, List, [], ◌≡◌, ◌≢◌, ◌↔◌,
  refl, inl, inr, ◌&&◌, ◌==◌, ==_iff, length, arith,
}
use snap_surf_lang.Ast.{Expr, Exprs, expr_span}
use snap_surf_lang.Sema.Types.{FnCtx, FnSig, Ty}
use snap_surf_lang.Sema.Emit.{pure}
use snap_surf_lang.Sema.Exprs.{
  Checker, expr_type, arg_types, check_args, count_exprs, ident_type, write_args, write_type,
  alloc_type, function_type, segments_type, is_io_write, call_type,
}
use snap_surf_lang.Sema.Typing.{
  HasTy, integer, string, boolean_lit, variable, constant, unary_of, binary_of, write, alloc, apply,
  reported, Matches, no_args, one_more, IsSafe, IsWrite,
}
use snap_surf_lang.Sema.Typing.Operators.{
  UnaryType-unary_type, BinaryType-binary_type, Agrees-require_type, IsInteger-is_numeric,
  is_str-str,
}
use snap_surf_lang.Sema.Typing.Sound.{expr_type-HasTy}

pub ne_zero : (d : ℕ) → d ≢ 0 → (d == 0) ≡ false
ne_zero d h = ground arith

IsSafe-silent :
    (ctx : FnCtx) (sig : FnSig) → IsSafe ctx sig → (sig.is_unsafe && ctx.unsafe_depth == 0) ≡ false
IsSafe-silent ctx sig h = go sig.is_unsafe ctx.unsafe_depth h
  where
    go : (b : Bool) (d : ℕ) → (b ≡ true → d ≢ 0) → (b && d == 0) ≡ false
    go true d h = ne_zero d (h refl)
    go false d h = refl

module _ (self : Checker) (ctx : FnCtx) where
  IsWrite-is_io_write : {n : Bytes} → IsWrite n → is_io_write self n ≡ true
  unfolding text_eq
  IsWrite-is_io_write (inl e) = rw e refl
  IsWrite-is_io_write (inr e) = rw e refl

  not_write : {n : Bytes} → (IsWrite n → ⊥) → is_io_write self n ≡ false
  not_write {n} h =
      rw
        (
          text_eq_of_ne n (text "io.write") (λ e. h (inl e)),
          text_eq_of_ne n (text "core/io.write") (λ e. h (inr e)),
        )
        refl

  mem_alloc-not_write : is_io_write self (text "mem.alloc") ≡ false
  unfolding text_eq
  mem_alloc-not_write = refl

  Matches-length :
      {es : Exprs} {ps : List Bytes} → Matches self ctx es ps → length ps ≡ count_exprs es
  unfolding count_exprs
  Matches-length no_args = refl
  Matches-length (one_more x a m) = let l = Matches-length m in omega arith

  mutual
    unfolding expr_type arg_types check_args count_exprs ident_type write_args write_type alloc_type
        function_type segments_type call_type

    pub HasTy-expr_type : {e : Expr} {t : Ty} → HasTy self ctx e t → expr_type self ctx e ≡ ([], t)
    HasTy-expr_type integer = refl
    HasTy-expr_type string = refl
    HasTy-expr_type boolean_lit = refl
    HasTy-expr_type (variable q) = rw (q, ident_type) refl
    HasTy-expr_type (constant {sig = sig} q r p s) =
        rw (ident_type, q, r, p, IsSafe-silent ctx sig s) refl
    HasTy-expr_type (unary_of x u) = rw (HasTy-expr_type x, UnaryType-unary_type self _ u) refl
    HasTy-expr_type (binary_of {op = op} x y b) =
        rw (HasTy-expr_type x, HasTy-expr_type y, BinaryType-binary_type self op _ b) refl
    HasTy-expr_type (write w c f i m l j) =
        rw
          (
            IsWrite-is_io_write w,
            c,
            HasTy-expr_type f,
            HasTy-expr_type m,
            HasTy-expr_type l,
            IsInteger-is_numeric i,
            IsInteger-is_numeric j,
            is_str-str,
          )
          refl
    HasTy-expr_type (alloc q c d) = rw (q, mem_alloc-not_write, text_eq_refl, c, ne_zero _ d) refl
    HasTy-expr_type (apply {sig = sig} q w m r s a) =
        rw
          (
            not_write w,
            text_eq_of_ne _ _ m,
            q,
            segments_type,
            function_type,
            r,
            IsSafe-silent ctx sig s,
            (==_iff _ _).1 (Matches-length a),
            Matches-check_args a,
          )
          refl
    HasTy-expr_type reported = refl

    Matches-check_args :
        {es : Exprs} {ps : List Bytes}
        → Matches self ctx es ps
        → check_args self ctx es ps ≡ pure tt
    Matches-check_args no_args = refl
    Matches-check_args (one_more {e = e} x a m) =
        rw (HasTy-expr_type x, Agrees-require_type self (expr_span e) a, Matches-check_args m) refl

  -- The checker gives an expression a type without a diagnostic exactly when the expression has
  -- that type by the typing rules.
  pub expr_type_iff : (e : Expr) (t : Ty) → (expr_type self ctx e ≡ ([], t)) ↔ HasTy self ctx e t
  expr_type_iff e t = (λ q. rw q at (expr_type-HasTy self ctx e (rw q refl)), HasTy-expr_type)
