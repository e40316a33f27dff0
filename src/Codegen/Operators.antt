-- ===== src/Codegen/Operators.antt =====
-- The lines of an operator behind its operands (`emit_expr` in codegen.rs) compute its value.
use snap_surf_lang.Prelude.{
  ℕ, ◌+◌, ◌*◌, ◌/◌, ◌%◌, Bytes, Bool, true, false, List, ◌++◌, Option, none, some, ◌≡◌, refl, ◌∙◌,
  inl, inr, ◌==◌, arith, Option-cases,
}
use snap_surf_lang.Ast.{BinaryOp, UnaryOp}
use snap_surf_lang.Codegen.Asm.{sete, setne, setl, setle, setg, setge, Line, Setcc}
use snap_surf_lang.Codegen.Exprs.{emit_cmp, binary_lines, unary_lines}
use snap_surf_lang.Codegen.Machine.{
  Cpu, Machine, bit, holds, exec, run, run-append, binary_value, unary_value,
}

low_bit : (x : ℕ) (b : Bool) → (x / 256 * 256 + bit b) % 256 ≡ bit b
low_bit x true = omega arith
low_bit x false = omega arith

pub some-eq {ℓ} : {A : Type ℓ} {a b : A} → some a ≡ some b → a ≡ b
some-eq h = cc

module _ (cpu : Cpu) (callee : Bytes → Machine → Option Machine) where
  -- The lines end with a word in `rax`, with this stack and this frame.
  abbrev pub Leaves : List Line → Machine → ℕ → List ℕ → (ℕ → ℕ) → Type 0
  Leaves ls m v stack frame =
      (m' : Machine) × (run cpu callee ls m ≡ some m')
      × (m'.rax_word ≡ v)
      × (m'.stack ≡ stack)
      × (m'.frame ≡ frame)

  pub then-Leaves :
      (a b : List Line) (m m' : Machine) (v : ℕ) (stack : List ℕ) (frame : ℕ → ℕ)
      → run cpu callee a m ≡ some m'
      → Leaves b m' v stack frame
      → Leaves (a ++ b) m v stack frame
  then-Leaves a b m m' v stack frame e (m'', f, g, h, i) =
      (m'', run-append cpu callee a b m m' e ∙ f, g, h, i)

  cmp-Leaves :
      (cc : Setcc) (m : Machine)
      → Leaves (emit_cmp cc) m (bit (holds cpu cc (m.rax_word, m.rbx_word))) m.stack m.frame
  unfolding run exec
  cmp-Leaves cc m =
      (_, refl, low_bit m.rax_word (holds cpu cc (m.rax_word, m.rbx_word)), refl, refl)

  compared :
      (cc : Setcc) (m : Machine) (v : ℕ)
      → some (bit (holds cpu cc (m.rax_word, m.rbx_word))) ≡ some v
      → Leaves (emit_cmp cc) m v m.stack m.frame
  compared cc m v e = let p = some-eq e in rw p at (cmp-Leaves cc m)

  pub unary_lines-Leaves :
      (op : UnaryOp) (m : Machine)
      → Leaves (unary_lines op) m (unary_value cpu op m.rax_word) m.stack m.frame
  unfolding unary_lines unary_value run exec
  unary_lines-Leaves UnaryOp.neg m = (_, refl, refl, refl, refl)
  unary_lines-Leaves UnaryOp.not m = (_, refl, low_bit m.rax_word (m.rax_word == 0), refl, refl)

  pub binary_lines-Leaves :
      (op : BinaryOp) (m : Machine) (v : ℕ)
      → binary_value cpu op m.rax_word m.rbx_word ≡ some v
      → Leaves (binary_lines op) m v m.stack m.frame
  unfolding binary_lines binary_value run exec
  binary_lines-Leaves BinaryOp.add m v e = (_, refl, some-eq e, refl, refl)
  binary_lines-Leaves BinaryOp.sub m v e = (_, refl, some-eq e, refl, refl)
  binary_lines-Leaves BinaryOp.mul m v e = (_, refl, some-eq e, refl, refl)
  binary_lines-Leaves BinaryOp.div m v e =
      elim (Option-cases (cpu.divide (cpu.sign m.rax_word) m.rax_word m.rbx_word)) [
        | inl z ↦ let x : none ≡ some v = rw (binary_value, z) at e in cc
        | inr ((q, r), z) ↦
            let x : some q ≡ some v = rw (binary_value, z) at e in
            (record m { rax_word = q; rdx_word = r }, rw (run, exec, z) refl, some-eq x, refl, refl)
      ]
  binary_lines-Leaves BinaryOp.rem m v e =
      elim (Option-cases (cpu.divide (cpu.sign m.rax_word) m.rax_word m.rbx_word)) [
        | inl z ↦ let x : none ≡ some v = rw (binary_value, z) at e in cc
        | inr ((q, r), z) ↦
            let x : some r ≡ some v = rw (binary_value, z) at e in
            (record m { rax_word = r; rdx_word = r }, rw (run, exec, z) refl, some-eq x, refl, refl)
      ]
  binary_lines-Leaves BinaryOp.eq m v e = compared sete m v e
  binary_lines-Leaves BinaryOp.not_eq m v e = compared setne m v e
  binary_lines-Leaves BinaryOp.lt m v e = compared setl m v e
  binary_lines-Leaves BinaryOp.lt_eq m v e = compared setle m v e
  binary_lines-Leaves BinaryOp.gt m v e = compared setg m v e
  binary_lines-Leaves BinaryOp.gt_eq m v e = compared setge m v e
  binary_lines-Leaves BinaryOp.and m v e = (_, refl, some-eq e, refl, refl)
  binary_lines-Leaves BinaryOp.or m v e = (_, refl, some-eq e, refl, refl)
