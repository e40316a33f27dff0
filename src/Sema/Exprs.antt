-- ===== src/Sema/Exprs.antt =====
-- The types of expressions in sema.rs: `expr_type`, `call_type` and `require_type`.
use snap_surf_lang.Prelude.{
  ℕ, suc, Bytes, text, text_eq, Bool, not, ◌&&◌, ◌||◌, List, [], ◌∷◌, ◌++◌, none, some, ◌==◌,
  if◌then◌else◌, length,
}
use snap_surf_lang.Prelude.Maps.{get, contains}
use snap_surf_lang.Diagnostic.{Span}
use snap_surf_lang.Package.{Package}
use snap_surf_lang.Ast.{
  BinaryOp, add, sub, mul, div, rem, eq, not_eq, lt, lt_eq, gt, gt_eq, and, or, UnaryOp, neg,
  AstPath, Expr, Exprs, int_lit, str_lit, bool_lit, ident, path, binary, unary, call, no_exprs,
  more_exprs, expr_span, display,
}
use snap_surf_lang.Sema.Types.{
  FnSig, FnCtx, Ty, named, int_literal, ty_eq, is_bool, is_str, is_integer_type,
  is_numeric_or_literal, display_ty, merge_numeric, compatible_loose, literal_fits,
}
use snap_surf_lang.Sema.Emit.{Emit, pure, ◌>>=◌, ◌>>◌, error, when}

-- The checker without its diagnostics: what an expression is checked against.
pub record Checker : Type 0 where
  pub pkg : Package
  pub file_path : Bytes
  pub functions : List (Bytes × FnSig)

abbrev pub quoted : Bytes → Bytes → Bytes → Bytes
quoted before name after = before ++ (text "`" ++ (name ++ (text "`" ++ after)))

-- `slice::len` of the arguments
unfoldable pub count_exprs : Exprs → ℕ
count_exprs no_exprs = 0
count_exprs (more_exprs e es) = suc (count_exprs es)

module _ (self : Checker) where
  abbrev pub report : Bytes → Bytes → Span → Emit (Unit {0})
  report = error self.file_path

  abbrev pub requires : Bytes → Bool
  requires c = contains c self.pkg.requires

  unfoldable pub require_type : Bytes → Ty → Span → Emit (Unit {0})
  require_type expected Ty.error sp = pure tt
  require_type expected (int_literal v) sp =
      if is_integer_type expected
      then when (not (literal_fits v expected))
          (report (text "E4001") (text "integer literal does not fit in " ++ expected) sp)
      else report (text "E0402")
          (text "type mismatch: expected "
            ++ (expected ++ (text ", got " ++ display_ty (int_literal v))))
          sp
  require_type expected (named t) sp = when (not (ty_eq (named t) (named expected))) (
      report (text "E0402")
        (text "type mismatch: expected " ++ (expected ++ (text ", got " ++ display_ty (named t))))
        sp)

  -- The arm of `Expr::Ident`.
  unfoldable pub ident_type : FnCtx → Bytes → Span → Emit Ty
  ident_type ctx name sp = elim (get name ctx.vars) [
    | some var ↦ pure (named var.ty)
    | none ↦ elim (get name self.functions) [
      | some sig ↦ do
        when (not (length sig.params == 0))
            (report (text "E0404") (quoted (text "function ") name (text " expects arguments")) sp)
        when (sig.is_unsafe && ctx.unsafe_depth == 0)
            (report (text "E0701") (text "unsafe function call requires unsafe scope") sp)
        pure (named sig.ret)
      | none ↦ do
        report (text "E0401") (quoted (text "undeclared variable ") name (text "")) sp
        pure Ty.error
    ]
  ]

  -- The arm of `Expr::Unary`, on the type of the operand.
  unfoldable pub unary_type : UnaryOp → Ty → Span → Emit Ty
  unary_type UnaryOp.not t sp = do
    when (not (is_bool t)) (report (text "E0402") (text "not requires bool") sp)
    pure (named (text "bool"))
  unary_type neg t sp = do
    when (not (is_numeric_or_literal t))
        (report (text "E0402") (text "unary minus requires integer") sp)
    pure t

  unfoldable pub arithmetic_type : Ty → Ty → Span → Emit Ty
  arithmetic_type l r sp =
      if is_str l || is_str r
      then (do
        report (text "E3001") (text "string concatenation requires explicit allocation") sp
        pure Ty.error)
      else if not (is_numeric_or_literal l) || not (is_numeric_or_literal r)
      then (do
        report (text "E0402") (text "arithmetic operands must be integers") sp
        pure Ty.error)
      else pure (merge_numeric l r)

  unfoldable pub comparison_type : Ty → Ty → Span → Emit Ty
  comparison_type l r sp = do
    when (not (compatible_loose l r))
        (report (text "E0402") (text "comparison operands have incompatible types") sp)
    pure (named (text "bool"))

  unfoldable pub boolean_type : Ty → Ty → Span → Emit Ty
  boolean_type l r sp = do
    when (not (is_bool l) || not (is_bool r))
        (report (text "E0402") (text "boolean operators require bool operands") sp)
    pure (named (text "bool"))

  -- The arm of `Expr::Binary`, on the types of the operands.
  unfoldable pub binary_type : BinaryOp → Ty → Ty → Span → Emit Ty
  binary_type add l r sp = arithmetic_type l r sp
  binary_type sub l r sp = arithmetic_type l r sp
  binary_type mul l r sp = arithmetic_type l r sp
  binary_type div l r sp = arithmetic_type l r sp
  binary_type rem l r sp = arithmetic_type l r sp
  binary_type eq l r sp = comparison_type l r sp
  binary_type not_eq l r sp = comparison_type l r sp
  binary_type lt l r sp = comparison_type l r sp
  binary_type lt_eq l r sp = comparison_type l r sp
  binary_type gt l r sp = comparison_type l r sp
  binary_type gt_eq l r sp = comparison_type l r sp
  binary_type and l r sp = boolean_type l r sp
  binary_type or l r sp = boolean_type l r sp

  -- `io.write` with three arguments, on their types.
  unfoldable pub write_args : List Ty → Span → Emit (Unit {0})
  write_args (fd ∷ (msg ∷ (len ∷ rest))) sp =
      when (not (is_numeric_or_literal fd) || not (is_numeric_or_literal len) || not (is_str msg))
        (report (text "E0402") (text "io.write expects integer, string literal, integer") sp)
  write_args _ sp = pure tt

  unfoldable pub write_type : ℕ → Emit (List Ty) → Span → Emit Ty
  write_type n types sp = do
    when (not (requires (text "syscall"))) (
        report (text "E2001")
          (text "package declares insufficient capability for core/io syscall use") sp)
    if not (n == 3)
        then (do
          report (text "E0404") (text "io.write expects 3 arguments") sp
          pure (named (text "void")))
        else (do ts ← types; write_args ts sp; pure (named (text "void")))

  unfoldable pub alloc_type : FnCtx → ℕ → Span → Emit Ty
  alloc_type ctx n sp = do
    when (not (requires (text "heap")))
        (report (text "E0801") (text "mem.alloc requires package capability heap") sp)
    when (ctx.unsafe_depth == 0)
        (report (text "E0701") (text "mem.alloc requires unsafe scope in foundation") sp)
    when (not (n == 1)) (report (text "E0404") (text "mem.alloc expects 1 argument") sp)
    pure (named (text "*u8"))

  unfoldable pub missing_target : Bytes → Span → Emit Ty
  missing_target name sp = do
    report (text "E0403") (quoted (text "function call target ") name (text " does not exist")) sp
    pure Ty.error

  -- A call of one segment: the functions of the program.
  unfoldable pub function_type : FnCtx → Bytes → ℕ → (List Bytes → Emit (Unit {0})) → Span → Emit Ty
  function_type ctx func n check sp = elim (get func self.functions) [
    | some sig ↦ do
      when (sig.is_unsafe && ctx.unsafe_depth == 0)
          (report (text "E0701") (text "unsafe function call requires unsafe scope") sp)
      (if not (length sig.params == n)
          then report (text "E0404")
              (quoted (text "function ") func (text " argument count mismatch")) sp
          else check sig.params)
      pure (named sig.ret)
    | none ↦ missing_target func sp
  ]

  unfoldable pub segments_type :
      FnCtx → List Bytes → Bytes → ℕ → (List Bytes → Emit (Unit {0})) → Span → Emit Ty
  segments_type ctx (func ∷ []) name n check sp = function_type ctx func n check sp
  segments_type ctx [] name n check sp = missing_target name sp
  segments_type ctx (a ∷ (b ∷ c)) name n check sp = missing_target name sp

  abbrev pub is_io_write : Bytes → Bool
  is_io_write name = text_eq name (text "io.write") || text_eq name (text "core/io.write")

  -- `call_type`, on the number of arguments, what typing them gives, and what checking them
  -- against parameters does.
  unfoldable pub call_type :
      FnCtx → AstPath → ℕ → Emit (List Ty) → (List Bytes → Emit (Unit {0})) → Span → Emit Ty
  call_type ctx callee n types check sp =
      let name = display callee in
      if is_io_write name
      then write_type n types sp
      else if text_eq name (text "mem.alloc")
      then alloc_type ctx n sp
      else segments_type ctx callee.segments name n check sp

  unfoldable mutual
    pub expr_type : FnCtx → Expr → Emit Ty
    expr_type ctx (int_lit raw value sp) = pure (int_literal value)
    expr_type ctx (str_lit raw bytes sp) = pure (named (text "str_static"))
    expr_type ctx (bool_lit value sp) = pure (named (text "bool"))
    expr_type ctx (ident name sp) = ident_type ctx name sp
    expr_type ctx (path p sp) = missing_target (display p) sp
    expr_type ctx (unary op e sp) = do t ← expr_type ctx e; unary_type op t sp
    expr_type ctx (binary op l r sp) = do
      t ← expr_type ctx l
      u ← expr_type ctx r
      binary_type op t u sp
    expr_type ctx (call callee args sp) =
        call_type ctx callee (count_exprs args) (arg_types ctx args) (check_args ctx args) sp
    expr_type ctx (Expr.error sp) = pure Ty.error

    -- The types of all arguments, in order.
    pub arg_types : FnCtx → Exprs → Emit (List Ty)
    arg_types ctx no_exprs = pure []
    arg_types ctx (more_exprs e es) = do t ← expr_type ctx e; ts ← arg_types ctx es; pure (t ∷ ts)

    -- The arguments against the parameters, pairwise.
    pub check_args : FnCtx → Exprs → List Bytes → Emit (Unit {0})
    check_args ctx no_exprs ps = pure tt
    check_args ctx (more_exprs e es) [] = pure tt
    check_args ctx (more_exprs e es) (p ∷ ps) = do
      t ← expr_type ctx e
      require_type p t (expr_span e)
      check_args ctx es ps
