-- ===== src/Codegen/Exprs.antt =====
-- The code of expressions (`emit_expr`, `emit_call`, `emit_cmp`, `string_label`). What an
-- operation appends to `asm` is its result; of the generator's state, expressions change the
-- table of strings only.
use snap_surf_lang.Prelude.{
  ℕ, zero, suc, Bytes, text, text_eq, Bool, List, [], ◌∷◌, ◌++◌, none, some, if◌then◌else◌, length,
  get_elem?,
}
use snap_surf_lang.Prelude.Maps.{get, contains}
use snap_surf_lang.Ast.{Expr, Exprs, no_exprs, more_exprs, BinaryOp, UnaryOp, display}
use snap_surf_lang.Codegen.Asm.{
  rdi, rsi, rdx, regs, Setcc, sete, setne, setl, setle, setg, setge, Label, str_label, Line, call,
  mov_rax, lea_rax, load_rax, pop_reg, push_rax, pop_rax, mov_rbx_rax, xor_eax, neg_rax, add_rax,
  sub_rax, imul_rax, and_rax, or_rax, cqo, idiv_rbx, mov_rax_rdx, cmp_rax_rbx, cmp_rax_0, movzx_rax,
  set_al, mov_rax_1, syscall,
}

-- `strings`, where the label of a string is kept as its number.
abbrev pub Strings : Type 0
Strings = List (ℕ × List ℕ)

-- The lines of an operation, and the strings behind it.
abbrev pub Emit : Type 0
Emit = Strings → List Line × Strings

abbrev pub lines : List Line → Emit
lines ls strings = (ls, strings)

infixr 4 ◌then_emit◌
abbrev pub ◌then_emit◌ : Emit → Emit → Emit
(m then_emit k) strings =
    let (ls, strings) = m strings in let (ls', strings) = k strings in (ls ++ ls', strings)

abbrev pub emit_cmp : Setcc → List Line
emit_cmp cc = cmp_rax_rbx ∷ set_al cc ∷ movzx_rax ∷ []

-- The lines of an operator behind its operands.
unfoldable pub binary_lines : BinaryOp → List Line
binary_lines BinaryOp.add = add_rax ∷ []
binary_lines BinaryOp.sub = sub_rax ∷ []
binary_lines BinaryOp.mul = imul_rax ∷ []
binary_lines BinaryOp.div = cqo ∷ idiv_rbx ∷ []
binary_lines BinaryOp.rem = cqo ∷ idiv_rbx ∷ mov_rax_rdx ∷ []
binary_lines BinaryOp.eq = emit_cmp sete
binary_lines BinaryOp.not_eq = emit_cmp setne
binary_lines BinaryOp.lt = emit_cmp setl
binary_lines BinaryOp.lt_eq = emit_cmp setle
binary_lines BinaryOp.gt = emit_cmp setg
binary_lines BinaryOp.gt_eq = emit_cmp setge
binary_lines BinaryOp.and = and_rax ∷ []
binary_lines BinaryOp.or = or_rax ∷ []

unfoldable pub unary_lines : UnaryOp → List Line
unary_lines UnaryOp.neg = neg_rax ∷ []
unary_lines UnaryOp.not = cmp_rax_0 ∷ set_al sete ∷ movzx_rax ∷ []

-- `for idx in (0..n).rev() { if idx < regs.len() { ... } }`
unfoldable pub pop_args : ℕ → List Line
pop_args zero = []
pop_args (suc idx) = elim (get_elem? regs idx) [
  | none ↦ pop_args idx
  | some r ↦ pop_reg r ∷ pop_args idx
]

unfoldable pub string_label : List ℕ → Strings → Label × Strings
string_label bytes strings = (str_label (length strings), strings ++ (length strings, bytes) ∷ [])

-- `name == "io.write"`
abbrev pub is_write : Bytes → Bool
is_write name = text_eq name (text "io.write")

abbrev pub write_lines : List Line
write_lines = pop_reg rdx ∷ pop_reg rsi ∷ pop_reg rdi ∷ mov_rax_1 ∷ syscall ∷ xor_eax ∷ []

unfoldable pub num_args : Exprs → ℕ
num_args no_exprs = 0
num_args (more_exprs e es) = suc (num_args es)

-- What a call does with the arguments on the stack.
unfoldable pub call_lines : Bytes → ℕ → List Line
call_lines name n = if is_write name then write_lines else pop_args n ++ call name ∷ []

module _ (functions : List Bytes) (locals : List (Bytes × ℕ)) where
  -- A name: a variable, a call without arguments, or zero.
  unfoldable pub ident_line : Bytes → Line
  ident_line name = elim (get name locals) [
    | some offset ↦ load_rax offset
    | none ↦ if contains name functions then call name else xor_eax
  ]

  unfoldable mutual
    pub emit_expr : Expr → Emit
    emit_expr (Expr.int_lit raw value sp) = lines (mov_rax value ∷ [])
    emit_expr (Expr.bool_lit value sp) = lines (mov_rax (if value then 1 else 0) ∷ [])
    emit_expr (Expr.str_lit raw bytes sp) = λ strings.
        let (label, strings) = string_label bytes strings in (lea_rax label ∷ [], strings)
    emit_expr (Expr.ident name sp) = lines (ident_line name ∷ [])
    emit_expr (Expr.path p sp) = lines (xor_eax ∷ [])
    emit_expr (Expr.unary op e sp) = emit_expr e then_emit lines (unary_lines op)
    emit_expr (Expr.binary op l r sp) =
        emit_expr l
        then_emit lines (push_rax ∷ [])
        then_emit emit_expr r
        then_emit lines (mov_rbx_rax ∷ pop_rax ∷ binary_lines op)
    emit_expr (Expr.call callee args sp) =
        emit_args args then_emit lines (call_lines (display callee) (num_args args))
    emit_expr (Expr.error sp) = lines (xor_eax ∷ [])

    -- The loop over the arguments.
    pub emit_args : Exprs → Emit
    emit_args no_exprs = lines []
    emit_args (more_exprs e es) = emit_expr e then_emit lines (push_rax ∷ []) then_emit emit_args es
