-- ===== src/Codegen/Targets.antt =====
-- The labels of the code of expressions and statements (codegen.rs).
use snap_surf_lang.Prelude.{
  ℕ, zero, suc, Bytes, Bool, true, false, List, [], ◌∷◌, Option, none, some, ◌≡◌, refl, inl, inr,
  if◌then◌else◌, arith, get_elem?, Option-cases, Bool-cases,
}
use snap_surf_lang.Prelude.Maps.{get, contains}
use snap_surf_lang.Diagnostic.{Span}
use snap_surf_lang.Ast.{Expr, Exprs, no_exprs, more_exprs, BinaryOp, UnaryOp, display}
use snap_surf_lang.Codegen.Asm.{
  regs, Label, Line, call, load_rax, xor_eax, push_rax, pop_rax, mov_rbx_rax,
}
use snap_surf_lang.Codegen.Exprs.{
  Strings, Emit, write_lines, lines, ◌then_emit◌, binary_lines, unary_lines, pop_args, string_label,
  is_write, call_lines, num_args, ident_line, emit_expr, emit_args,
}
use snap_surf_lang.Codegen.Labels.{
  Kind, target_of, label_of, count, count-append, Refers, InTable, Refers-append, InTable-append,
}

module _ (S T : Label → Type 0) where
  -- Lines without a label of the function, which refer to labels of strings only.
  abbrev pub IsPlain : Strings → List Line × Strings → Type 0
  IsPlain strings r =
      (InTable S r.1 → InTable S strings)
      × (InTable S r.1 → Refers S T r.0)
      × ((n : Kind) → count n r.0 ≡ 0)

  -- An operation that emits such lines.
  unfoldable pub Plain : Emit → Type 0
  Plain m = (strings : Strings) → IsPlain strings (m strings)

  then_emit-Plain : (m k : Emit) → Plain m → Plain k → Plain (m then_emit k)
  unfolding Plain
  then_emit-Plain m k f g strings =
      let (a, b, c) = f strings in
      let (a', b', c') = g (m strings).1 in
      (
        λ h. a (a' h),
        λ h. Refers-append S T _ _ (b (a' h)) (b' h),
        λ n. omega (arith, count-append n (m strings).0 (k (m strings).1).0, c n, c' n),
      )

  no_lines-Plain : Plain (lines [])
  unfolding Plain Refers count
  no_lines-Plain strings = (λ h. h, λ h. tt, λ n. refl)

  -- One line without a label.
  line-Plain : (l : Line) → target_of l ≡ none → label_of l ≡ none → Plain (lines (l ∷ []))
  unfolding Plain Refers count
  line-Plain l p q strings = (λ h. h, λ h. rw p (tt, tt), λ n. rw q refl)

  binary_lines-Plain : (op : BinaryOp) → Plain (lines (binary_lines op))
  unfolding binary_lines Plain Refers count
  binary_lines-Plain BinaryOp.add strings = (λ h. h, λ h. (tt, tt), λ n. refl)
  binary_lines-Plain BinaryOp.sub strings = (λ h. h, λ h. (tt, tt), λ n. refl)
  binary_lines-Plain BinaryOp.mul strings = (λ h. h, λ h. (tt, tt), λ n. refl)
  binary_lines-Plain BinaryOp.div strings = (λ h. h, λ h. (tt, (tt, tt)), λ n. refl)
  binary_lines-Plain BinaryOp.rem strings = (λ h. h, λ h. (tt, (tt, (tt, tt))), λ n. refl)
  binary_lines-Plain BinaryOp.and strings = (λ h. h, λ h. (tt, tt), λ n. refl)
  binary_lines-Plain BinaryOp.or strings = (λ h. h, λ h. (tt, tt), λ n. refl)
  binary_lines-Plain _ strings = (λ h. h, λ h. (tt, (tt, (tt, tt))), λ n. refl)

  unary_lines-Plain : (op : UnaryOp) → Plain (lines (unary_lines op))
  unfolding unary_lines Plain Refers count
  unary_lines-Plain UnaryOp.neg strings = (λ h. h, λ h. (tt, tt), λ n. refl)
  unary_lines-Plain UnaryOp.not strings = (λ h. h, λ h. (tt, (tt, (tt, tt))), λ n. refl)

  pop_args-Plain : (n : ℕ) → Plain (lines (pop_args n))
  unfolding pop_args Plain Refers count
  pop_args-Plain zero strings = (λ h. h, λ h. tt, λ n. refl)
  pop_args-Plain (suc idx) strings =
      let (a, b, c) = pop_args-Plain idx strings in
      elim (Option-cases (get_elem? regs idx)) [
        | inl q ↦ rw q (a, b, c)
        | inr (r, q) ↦ rw q (a, λ h. (tt, b h), λ n. omega (arith, c n))
      ]

  write-Plain : Plain (lines write_lines)
  unfolding Plain Refers count
  write-Plain strings = (λ h. h, λ h. (tt, (tt, (tt, (tt, (tt, (tt, tt)))))), λ n. refl)

  call_lines-Plain : (name : Bytes) (n : ℕ) → Plain (lines (call_lines name n))
  unfolding call_lines
  call_lines-Plain name n = elim (Bool-cases (is_write name)) [
    | inl q ↦ rw q write-Plain
    | inr q ↦ rw q (
        then_emit-Plain (lines (pop_args n)) (lines (call name ∷ [])) (pop_args-Plain n)
          (line-Plain (call name) refl refl))
  ]

  str_lit-Plain :
      (raw bytes : List ℕ) (sp : Span) (functions : List Bytes) (locals : List (Bytes × ℕ))
      → Plain (emit_expr functions locals (Expr.str_lit raw bytes sp))
  unfolding emit_expr string_label Plain Refers count InTable
  str_lit-Plain raw bytes sp functions locals strings = (
    λ h. (InTable-append S strings _ h).0,
    λ h. ((InTable-append S strings _ h).1.0, tt),
    λ n. refl,
  )

  module _ (functions : List Bytes) (locals : List (Bytes × ℕ)) where
    ident_line-Plain : (name : Bytes) → Plain (lines (ident_line functions locals name ∷ []))
    unfolding ident_line
    ident_line-Plain name = go (get name locals) (contains name functions)
      where
        go :
            (o : Option ℕ) (b : Bool)
            → Plain (
                lines (
                  elim o [ some offset ↦ load_rax offset | none ↦ if b then call name else xor_eax ]
                  ∷ []))
        go (some offset) b = line-Plain _ refl refl
        go none true = line-Plain _ refl refl
        go none false = line-Plain _ refl refl

    binary_end-Plain : (op : BinaryOp) → Plain (lines (mov_rbx_rax ∷ pop_rax ∷ binary_lines op))
    binary_end-Plain op =
        then_emit-Plain (lines (mov_rbx_rax ∷ [])) (lines (pop_rax ∷ binary_lines op))
          (line-Plain mov_rbx_rax refl refl)
          (then_emit-Plain (lines (pop_rax ∷ [])) (lines (binary_lines op))
            (line-Plain pop_rax refl refl) (binary_lines-Plain op))

    mutual
      unfolding emit_expr emit_args

      pub emit_expr-Plain : (e : Expr) → Plain (emit_expr functions locals e)
      emit_expr-Plain (Expr.int_lit raw value sp) = line-Plain _ refl refl
      emit_expr-Plain (Expr.bool_lit value sp) = line-Plain _ refl refl
      emit_expr-Plain (Expr.str_lit raw bytes sp) = str_lit-Plain raw bytes sp functions locals
      emit_expr-Plain (Expr.ident name sp) = ident_line-Plain name
      emit_expr-Plain (Expr.path p sp) = line-Plain _ refl refl
      emit_expr-Plain (Expr.unary op e sp) =
          then_emit-Plain _ _ (emit_expr-Plain e) (unary_lines-Plain op)
      emit_expr-Plain (Expr.binary op l r sp) = then_emit-Plain _ _ (emit_expr-Plain l) (
          then_emit-Plain _ _ (line-Plain push_rax refl refl)
            (then_emit-Plain _ _ (emit_expr-Plain r) (binary_end-Plain op)))
      emit_expr-Plain (Expr.call callee args sp) =
          then_emit-Plain _ _ (emit_args-Plain args)
            (call_lines-Plain (display callee) (num_args args))
      emit_expr-Plain (Expr.error sp) = line-Plain _ refl refl

      emit_args-Plain : (es : Exprs) → Plain (emit_args functions locals es)
      emit_args-Plain no_exprs = no_lines-Plain
      emit_args-Plain (more_exprs e es) =
          then_emit-Plain _ _ (emit_expr-Plain e)
            (then_emit-Plain _ _ (line-Plain push_rax refl refl) (emit_args-Plain es))
