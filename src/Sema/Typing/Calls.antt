-- ===== src/Sema/Typing/Calls.antt =====
-- The names and the calls that sema.rs accepts follow the typing rules.
use snap_surf_lang.Prelude.{
  ne_of_text_eq, ℕ, Bytes, text, text_eq, text_eq_iff, Bool, true, false, not, ◌&&◌, ◌||◌, List, [],
  ◌∷◌, ◌≡◌, ◌≢◌, refl, inl, inr, Bool-cases, Option-cases, arith, ◌==◌, ==_iff, length,
}
use snap_surf_lang.Prelude.Maps.{get}
use snap_surf_lang.Diagnostic.{Span}
use snap_surf_lang.Ast.{AstPath, Expr, Exprs, ident, call, no_exprs, more_exprs, display}
use snap_surf_lang.Sema.Types.{Ty, named, FnSig, FnCtx}
use snap_surf_lang.Sema.Emit.{Emit, when, append-eq-nil, when-silent}
use snap_surf_lang.Sema.Exprs.{
  Checker, count_exprs, requires, ident_type, write_args, write_type, alloc_type, missing_target,
  function_type, segments_type, is_io_write, call_type, expr_type, arg_types, check_args,
}
use snap_surf_lang.Sema.Typing.{
  HasTy, variable, constant, write, alloc, apply, Matches, no_args, one_more, IsSafe, IsWrite,
}
use snap_surf_lang.Sema.Typing.Operators.{
  not-false, cons-ne-nil, is_str-eq, is_numeric-IsInteger, require_type-Agrees,
}

silent-IsSafe :
    (ctx : FnCtx) (sig : FnSig) → (sig.is_unsafe && ctx.unsafe_depth == 0) ≡ false → IsSafe ctx sig
silent-IsSafe ctx sig h u z = ground arith

pub no_params {ℓ} : {A : Type ℓ} (xs : List A) → (length xs == 0) ≡ true → xs ≡ []
no_params [] h = refl
no_params (x ∷ xs) h = ground arith

module _ (self : Checker) (ctx : FnCtx) where
  -- An expression without a diagnostic has the type that the checker gives it.
  abbrev pub IsSound : Expr → Type 0
  IsSound e = (expr_type self ctx e).0 ≡ [] → HasTy self ctx e (expr_type self ctx e).1

  abbrev pub AreSound : Exprs → Type 0
  AreSound no_exprs = Unit
  AreSound (more_exprs e es) = IsSound e × AreSound es

  pub ident_type-HasTy :
      (n : Bytes) (sp : Span)
      → (ident_type self ctx n sp).0 ≡ []
      → HasTy self ctx (ident n sp) (ident_type self ctx n sp).1
  unfolding ident_type
  ident_type-HasTy n sp h = elim (Option-cases (get n ctx.vars)) [
    | inr (v, q) ↦ rw (q, ident_type) (variable q)
    | inl q ↦ elim (Option-cases (get n self.functions)) [
      | inl r ↦ absurd (cons-ne-nil (rw (q, r, ident_type) at h))
      | inr (sig, r) ↦
          let (args, safe) = append-eq-nil _ _ (rw (q, r, ident_type) at h) in
          rw (q, r, ident_type)
            (constant q r (no_params _ (not-false (when-silent _ _ _ _ _ args)))
              (silent-IsSafe ctx sig (when-silent _ _ _ _ _ (append-eq-nil _ _ safe).0)))
    ]
  ]

  check_args-Matches :
      (args : Exprs) (ps : List Bytes)
      → AreSound args
      → length ps ≡ count_exprs args
      → (check_args self ctx args ps).0 ≡ []
      → Matches self ctx args ps
  unfolding check_args count_exprs
  check_args-Matches no_exprs [] a l h = no_args
  check_args-Matches no_exprs (p ∷ ps) a l h = absurd (ground arith)
  check_args-Matches (more_exprs e es) [] a l h = absurd (ground arith)
  check_args-Matches (more_exprs e es) (p ∷ ps) (s, a) l h =
      let (x, y) = append-eq-nil _ _ h in
      let (r, z) = append-eq-nil _ _ y in
      one_more (s x) (require_type-Agrees self p _ _ r) (check_args-Matches es ps a (omega arith) z)

  write_type-silent :
      (n : ℕ) (types : Emit (List Ty)) (sp : Span)
      → (write_type self n types sp).0 ≡ []
      → (requires self (text "syscall") ≡ true)
        × ((n == 3) ≡ true)
        × (types.0 ≡ [])
        × ((write_args self types.1 sp).0 ≡ [])
        × ((write_type self n types sp).1 ≡ named (text "void"))
  unfolding write_type
  write_type-silent n types sp h =
      let (c, r) = append-eq-nil (when (not (requires self (text "syscall"))) _).0 _ h in
      elim (Bool-cases (n == 3)) [
        | inl e ↦
            let (t, a) = append-eq-nil types.0 _ (rw e at r) in
            (not-false (when-silent _ _ _ _ _ c), e, t, (append-eq-nil _ _ a).0, rw e refl)
        | inr e ↦ absurd (cons-ne-nil (rw e at r))
      ]

  write_three-HasTy :
      (p : AstPath) (fd msg len : Expr) (sp : Span)
      → IsSound fd
      → IsSound msg
      → IsSound len
      → IsWrite (display p)
      → requires self (text "syscall") ≡ true
      → (arg_types self ctx (more_exprs fd (more_exprs msg (more_exprs len no_exprs)))).0 ≡ []
      → (write_args self
          (arg_types self ctx (more_exprs fd (more_exprs msg (more_exprs len no_exprs)))).1
          sp).0
        ≡ []
      → HasTy self ctx
          (call p (more_exprs fd (more_exprs msg (more_exprs len no_exprs))) sp)
          (named (text "void"))
  unfolding arg_types write_args
  write_three-HasTy p fd msg len sp s t u w c types args =
      let (f, r) = append-eq-nil (expr_type self ctx fd).0 _ types in
      let (m, r) = append-eq-nil (expr_type self ctx msg).0 _ (append-eq-nil _ [] r).0 in
      let (l, r) = append-eq-nil (expr_type self ctx len).0 _ (append-eq-nil _ [] r).0 in
      let (nums, str) = three (when-silent _ _ _ _ _ args) in
      write w c (s f) (is_numeric-IsInteger _ nums.0) (rw (← is_str-eq _ str) (t m)) (u l)
        (is_numeric-IsInteger _ nums.1)
    where
      three :
          {a b c : Bool}
          → (not a || not b || not c) ≡ false
          → ((a ≡ true) × (b ≡ true)) × (c ≡ true)
      three h = ground arith

  write_type-HasTy :
      (p : AstPath) (args : Exprs) (sp : Span)
      → AreSound args
      → IsWrite (display p)
      → (write_type self (count_exprs args) (arg_types self ctx args) sp).0 ≡ []
      → HasTy self ctx
          (call p args sp)
          (write_type self (count_exprs args) (arg_types self ctx args) sp).1
  unfolding count_exprs
  write_type-HasTy p args sp a w h =
      let (c, e, t, r, v) = write_type-silent (count_exprs args) (arg_types self ctx args) sp h in
      rw v (go args a e t r c)
    where
      go :
          (args : Exprs)
          → AreSound args
          → (count_exprs args == 3) ≡ true
          → (arg_types self ctx args).0 ≡ []
          → (write_args self (arg_types self ctx args).1 sp).0 ≡ []
          → requires self (text "syscall") ≡ true
          → HasTy self ctx (call p args sp) (named (text "void"))
      go (more_exprs fd (more_exprs msg (more_exprs len no_exprs))) (s, (m, (l, z))) e t r c =
          write_three-HasTy p fd msg len sp s m l w c t r
      go _ a e t r c = absurd (ground arith)

  alloc_type-HasTy :
      (p : AstPath) (args : Exprs) (sp : Span)
      → display p ≡ text "mem.alloc"
      → (alloc_type self ctx (count_exprs args) sp).0 ≡ []
      → HasTy self ctx (call p args sp) (alloc_type self ctx (count_exprs args) sp).1
  unfolding alloc_type count_exprs
  alloc_type-HasTy p args sp q h =
      let (c, r) = append-eq-nil (when (not (requires self (text "heap"))) _).0 _ h in
      let (d, r) = append-eq-nil (when (ctx.unsafe_depth == 0) _).0 _ r in
      go args (not-false (when-silent _ _ _ _ _ c)) (when-silent (ctx.unsafe_depth == 0) _ _ _ _ d)
        (not-false (when-silent (not (count_exprs args == 1)) _ _ _ _ (append-eq-nil _ _ r).0))
    where
      go :
          (args : Exprs)
          → requires self (text "heap") ≡ true
          → (ctx.unsafe_depth == 0) ≡ false
          → (count_exprs args == 1) ≡ true
          → HasTy self ctx (call p args sp) (named (text "*u8"))
      go (more_exprs e no_exprs) c d n = alloc q c (λ z. ground arith)
      go _ c d n = absurd (ground arith)

  missing_target-HasTy :
      {A : Type 0} (name : Bytes) (sp : Span) → (missing_target self name sp).0 ≡ [] → A
  unfolding missing_target
  missing_target-HasTy name sp h = absurd (cons-ne-nil h)

  function_type-HasTy :
      (p : AstPath) (f : Bytes) (args : Exprs) (sp : Span)
      → AreSound args
      → p.segments ≡ f ∷ []
      → (IsWrite (display p) → ⊥)
      → display p ≢ text "mem.alloc"
      → (function_type self ctx f (count_exprs args) (check_args self ctx args) sp).0 ≡ []
      → HasTy self ctx
          (call p args sp)
          (function_type self ctx f (count_exprs args) (check_args self ctx args) sp).1
  unfolding function_type
  function_type-HasTy p f args sp a q w m h = elim (Option-cases (get f self.functions)) [
    | inl r ↦ missing_target-HasTy f sp (rw (r, function_type) at h)
    | inr (sig, r) ↦
        let (d, h) =
          append-eq-nil (when (sig.is_unsafe && ctx.unsafe_depth == 0) _).0 _
            (rw (r, function_type) at h) in
        let safe =
          silent-IsSafe ctx sig (when-silent (sig.is_unsafe && ctx.unsafe_depth == 0) _ _ _ _ d) in
        elim (Bool-cases (length sig.params == count_exprs args)) [
          | inl e ↦
              rw (r, function_type)
                (apply q w m r safe (
                  check_args-Matches args sig.params a ((==_iff _ _).0 e)
                    (append-eq-nil _ _ (rw e at h)).0))
          | inr e ↦ absurd (cons-ne-nil (rw e at h))
        ]
  ]

  is_io_write-IsWrite : {n : Bytes} → is_io_write self n ≡ true → IsWrite n
  is_io_write-IsWrite {n} h = elim (Bool-cases (text_eq n (text "io.write"))) [
    | inl e ↦ inl ((text_eq_iff _ _).0 e)
    | inr e ↦ inr ((text_eq_iff _ _).0 (rw e at h))
  ]

  IsWrite-is_io_write : (n : Bytes) → is_io_write self n ≡ false → IsWrite n → ⊥
  unfolding text_eq
  IsWrite-is_io_write n h (inl e) = cc
  IsWrite-is_io_write n h (inr e) = cc

  segments_type-HasTy :
      (p : AstPath) (args : Exprs) (sp : Span) (ss : List Bytes)
      → AreSound args
      → p.segments ≡ ss
      → (IsWrite (display p) → ⊥)
      → display p ≢ text "mem.alloc"
      → (segments_type self ctx ss (display p) (count_exprs args) (check_args self ctx args) sp).0
        ≡ []
      → HasTy self ctx
          (call p args sp)
          (segments_type self ctx ss (display p) (count_exprs args) (check_args self ctx args) sp).1
  unfolding segments_type
  segments_type-HasTy p args sp (f ∷ []) a q w m h = function_type-HasTy p f args sp a q w m h
  segments_type-HasTy p args sp [] a q w m h = missing_target-HasTy _ sp h
  segments_type-HasTy p args sp (f ∷ (g ∷ gs)) a q w m h = missing_target-HasTy _ sp h

  pub call_type-HasTy :
      (p : AstPath) (args : Exprs) (sp : Span)
      → AreSound args
      → (expr_type self ctx (call p args sp)).0 ≡ []
      → HasTy self ctx (call p args sp) (expr_type self ctx (call p args sp)).1
  unfolding expr_type call_type
  call_type-HasTy p args sp a h = elim (Bool-cases (is_io_write self (display p))) [
    | inl e ↦ rw e (write_type-HasTy p args sp a (is_io_write-IsWrite e) (rw e at h))
    | inr e ↦ elim (Bool-cases (text_eq (display p) (text "mem.alloc"))) [
      | inl f ↦ rw (e, f) (alloc_type-HasTy p args sp ((text_eq_iff _ _).0 f) (rw (e, f) at h))
      | inr f ↦
          rw (e, f)
            (segments_type-HasTy p args sp p.segments a refl (IsWrite-is_io_write _ e)
              (ne_of_text_eq f) (rw (e, f) at h))
    ]
  ]
