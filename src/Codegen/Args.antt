-- ===== src/Codegen/Args.antt =====
-- The code of calls and of names (`emit_call` in codegen.rs).
use snap_surf_lang.Prelude.{
  ℕ, ◌≤◌, Bytes, false, List, [], ◌∷◌, Option, none, some, ◌≡◌, refl, sym, ◌∙◌, inl, inr, ltb,
  length, arith, Bool-cases, Option-cases,
}
use snap_surf_lang.Prelude.Maps.{get, contains}
use snap_surf_lang.Codegen.Asm.{regs, call}
use snap_surf_lang.Codegen.Exprs.{pop_args, is_write, call_lines, ident_line}
use snap_surf_lang.Codegen.Machine.{Calls, Cpu, Machine, Holds, exec, run, ident_value, call_value}
use snap_surf_lang.Codegen.Operators.{some-eq, Leaves, then-Leaves}

ltb→ge : (a b : ℕ) → ltb a b ≡ false → b ≤ a
ltb→ge a b h = ground arith

-- The stack behind the arguments, with the last one on top.
abbrev pub pushed : List ℕ → List ℕ → List ℕ
pushed [] stack = stack
pushed (v ∷ vs) stack = pushed vs (v ∷ stack)

module _ (cpu : Cpu) (callee : Bytes → Machine → Option Machine) where
  -- The arguments are taken from the stack to their registers.
  abbrev Takes : List ℕ → List ℕ → Machine → Type 0
  Takes vs stack m =
      (m' : Machine) × (run cpu callee (pop_args (length vs)) m ≡ some m')
      × (m'.stack ≡ stack)
      × (m'.frame ≡ m.frame)
      × Holds vs regs m'

  pop_args-Stacked :
      (vs stack : List ℕ) (m : Machine)
      → length vs ≤ 6
      → Takes vs stack (record m { stack = pushed vs stack })
  unfolding pop_args run exec
  pop_args-Stacked [] stack m h = (_, refl, refl, refl, tt)
  pop_args-Stacked (a ∷ []) stack m h = (_, refl, refl, refl, (refl, tt))
  pop_args-Stacked (a ∷ b ∷ []) stack m h = (_, refl, refl, refl, (refl, (refl, tt)))
  pop_args-Stacked (a ∷ b ∷ c ∷ []) stack m h = (_, refl, refl, refl, (refl, (refl, (refl, tt))))
  pop_args-Stacked (a ∷ b ∷ c ∷ d ∷ []) stack m h =
      (_, refl, refl, refl, (refl, (refl, (refl, (refl, tt)))))
  pop_args-Stacked (a ∷ b ∷ c ∷ d ∷ e ∷ []) stack m h =
      (_, refl, refl, refl, (refl, (refl, (refl, (refl, (refl, tt))))))
  pop_args-Stacked (a ∷ b ∷ c ∷ d ∷ e ∷ f ∷ []) stack m h =
      (_, refl, refl, refl, (refl, (refl, (refl, (refl, (refl, (refl, tt)))))))
  pop_args-Stacked (a ∷ b ∷ c ∷ d ∷ e ∷ f ∷ g ∷ vs) stack m h = absurd (omega (arith, h))

  pop_args-Takes :
      (vs stack : List ℕ) (m : Machine)
      → length vs ≤ 6
      → m.stack ≡ pushed vs stack
      → Takes vs stack m
  pop_args-Takes vs stack m h e = rw (sym e) at (pop_args-Stacked vs stack m h)

  module _ (functions : List Bytes) (locals : List (Bytes × ℕ)) (fn : Bytes → List ℕ → Option ℕ)
      (calls : Calls callee fn) where
    called-eq :
        (name : Bytes) (m m' : Machine)
        → callee name m ≡ some m'
        → run cpu callee (call name ∷ []) m ≡ some m'
    unfolding run exec
    called-eq name m m' q = rw (run, exec, q) refl

    pub call_lines-Leaves :
        (name : Bytes) (vs stack : List ℕ) (v : ℕ) (m : Machine)
        → call_value cpu functions locals fn name vs ≡ some v
        → m.stack ≡ pushed vs stack
        → Leaves cpu callee (call_lines name (length vs)) m v stack m.frame
    unfolding call_value call_lines
    call_lines-Leaves name vs stack v m e p = elim (Bool-cases (is_write name)) [
      | inl q ↦ let x : none ≡ some v = rw q at e in cc
      | inr q ↦ elim (Bool-cases (ltb 6 (length vs))) [
        | inl z ↦ let x : none ≡ some v = rw (q, z) at e in cc
        | inr z ↦
            let x : fn name vs ≡ some v = rw (q, z) at e in
            let (m₁, r, s, f, h) = pop_args-Takes vs stack m (ltb→ge 6 _ z) p in
            let (m₂, r', w, s', f') = calls name vs v m₁ x h in
            rw q (
              then-Leaves cpu callee (pop_args (length vs)) (call name ∷ []) m m₁ v stack m.frame r
                (m₂, called-eq name m₁ m₂ r', w, s' ∙ s, f' ∙ f))
      ]
    ]

    pub ident_line-Leaves :
        (name : Bytes) (v : ℕ) (m : Machine)
        → ident_value cpu functions locals fn m.frame name ≡ some v
        → Leaves cpu callee (ident_line functions locals name ∷ []) m v m.stack m.frame
    unfolding ident_value ident_line run exec
    ident_line-Leaves name v m e = elim (Option-cases (get name locals)) [
      | inr (offset, q) ↦
          let x : some (m.frame offset) ≡ some v = rw (ident_value, q) at e in
          rw (run, exec, ident_line, q) (_, refl, some-eq x, refl, refl)
      | inl q ↦ elim (Bool-cases (contains name functions)) [
        | inl z ↦
            let x : fn name [] ≡ some v = rw (ident_value, q, z) at e in
            let (m', r, w, s, f) = calls name [] v m x tt in
            rw (run, exec, ident_line, q, z) (m', rw r refl, w, s, f)
        | inr z ↦
            let x : some 0 ≡ some v = rw (ident_value, q, z) at e in
            rw (run, exec, ident_line, q, z) (_, refl, some-eq x, refl, refl)
      ]
    ]
