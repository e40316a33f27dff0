-- ===== src/Codegen/Machine.antt =====
-- A processor for the lines of expressions in codegen.rs, and the values that the language gives
-- to expressions. What the processor computes with words is a parameter.
use snap_surf_lang.Prelude.{
  ℕ, ◌+◌, ◌-◌, ◌*◌, ◌/◌, ◌%◌, ◌^◌, Bytes, Bool, not, List, [], ◌∷◌, ◌++◌, Option, none, some, ◌≡◌,
  refl, ◌==◌, if◌then◌else◌, ltb, length, inl, inr, Option-cases,
}
use snap_surf_lang.Prelude.Maps.{get, contains}
use snap_surf_lang.Ast.{Expr, Exprs, no_exprs, more_exprs, BinaryOp, UnaryOp, display}
use snap_surf_lang.Codegen.Asm.{
  Reg, regs, rdi, rsi, rdx, rcx, r8, r9, Setcc, sete, setne, setl, setle, setg, setge, Line, call,
  mov_rax, load_rax, store_rax, pop_reg, push_rax, pop_rax, mov_rbx_rax, xor_eax, neg_rax, add_rax,
  sub_rax, imul_rax, and_rax, or_rax, cqo, idiv_rbx, mov_rax_rdx, cmp_rax_rbx, cmp_rax_0, movzx_rax,
  set_al,
}
use snap_surf_lang.Codegen.Exprs.{is_write}

-- Bitwise operations on words, the sign of a word, the signed quotient and remainder of a double
-- word by a word, where they exist, and the signed order.
pub record Cpu : Type 0 where
  pub and_word : ℕ → ℕ → ℕ
  pub or_word : ℕ → ℕ → ℕ
  pub sign : ℕ → ℕ
  pub divide : ℕ → ℕ → ℕ → Option (ℕ × ℕ)
  pub less : ℕ → ℕ → Bool

-- The registers of the arguments, `rax` and `rbx`, what was compared last, the stack with its top
-- first, and the words of the frame by their offsets.
pub record Machine : Type 0 where
  pub rax_word : ℕ
  pub rbx_word : ℕ
  pub rdi_word : ℕ
  pub rsi_word : ℕ
  pub rdx_word : ℕ
  pub rcx_word : ℕ
  pub r8_word : ℕ
  pub r9_word : ℕ
  pub compared : ℕ × ℕ
  pub stack : List ℕ
  pub frame : ℕ → ℕ

abbrev pub set_reg : Reg → ℕ → Machine → Machine
set_reg rdi v m = record m { rdi_word = v }
set_reg rsi v m = record m { rsi_word = v }
set_reg rdx v m = record m { rdx_word = v }
set_reg rcx v m = record m { rcx_word = v }
set_reg r8 v m = record m { r8_word = v }
set_reg r9 v m = record m { r9_word = v }

abbrev pub reg_word : Reg → Machine → ℕ
reg_word rdi m = m.rdi_word
reg_word rsi m = m.rsi_word
reg_word rdx m = m.rdx_word
reg_word rcx m = m.rcx_word
reg_word r8 m = m.r8_word
reg_word r9 m = m.r9_word

abbrev pub word : ℕ → ℕ
word n = n % 2 ^ 64

abbrev pub bit : Bool → ℕ
bit b = if b then 1 else 0

abbrev pub popped : (ℕ → Machine → Machine) → List ℕ → Machine → Option Machine
popped set [] m = none
popped set (v ∷ vs) m = some (set v (record m { stack = vs }))

-- A frame with another word at an offset.
abbrev pub put : ℕ → ℕ → (ℕ → ℕ) → ℕ → ℕ
put offset v frame o = if o == offset then v else frame o

-- The arguments are in their registers.
abbrev pub Holds : List ℕ → List Reg → Machine → Type 0
Holds [] rs m = Unit {0}
Holds (v ∷ vs) [] m = ⊥
Holds (v ∷ vs) (r ∷ rs) m = (reg_word r m ≡ v) × Holds vs rs m

-- The functions return what the language says for the arguments in their registers, and restore the
-- stack and the frame.
abbrev pub Calls : (Bytes → Machine → Option Machine) → (Bytes → List ℕ → Option ℕ) → Type 0
Calls callee fn =
    (name : Bytes) (vs : List ℕ) (v : ℕ) (m : Machine)
    → fn name vs ≡ some v
    → Holds vs regs m
    → (m' : Machine) × (callee name m ≡ some m')
      × (m'.rax_word ≡ v)
      × (m'.stack ≡ m.stack)
      × (m'.frame ≡ m.frame)

infixl 5 ◌>>=◌
abbrev pub ◌>>=◌ {ℓ κ} : {A : Type ℓ} {B : Type κ} → Option A → (A → Option B) → Option B
none >>= f = none
some a >>= f = f a

module _ (cpu : Cpu) where
  abbrev pub holds : Setcc → ℕ × ℕ → Bool
  holds sete (a, b) = a == b
  holds setne (a, b) = not (a == b)
  holds setl (a, b) = cpu.less a b
  holds setle (a, b) = not (cpu.less b a)
  holds setg (a, b) = cpu.less b a
  holds setge (a, b) = not (cpu.less a b)

  abbrev pub divided : Option (ℕ × ℕ) → Machine → Option Machine
  divided none m = none
  divided (some (q, r)) m = some (record m { rax_word = q; rdx_word = r })

  module _ (callee : Bytes → Machine → Option Machine) where
    -- What a line does, where it is one of an expression or stores a variable; `none` is a fault
    -- or a line that is not of this kind.
    unfoldable pub exec : Line → Machine → Option Machine
    exec (mov_rax v) m = some (record m { rax_word = word v })
    exec (load_rax offset) m = some (record m { rax_word = m.frame offset })
    exec (store_rax offset) m = some (record m { frame = put offset m.rax_word m.frame })
    exec (call name) m = callee name m
    exec (pop_reg r) m = popped (set_reg r) m.stack m
    exec push_rax m = some (record m { stack = m.rax_word ∷ m.stack })
    exec pop_rax m = popped (λ v m. record m { rax_word = v }) m.stack m
    exec mov_rbx_rax m = some (record m { rbx_word = m.rax_word })
    exec xor_eax m = some (record m { rax_word = 0 })
    exec neg_rax m = some (record m { rax_word = word (2 ^ 64 - m.rax_word) })
    exec add_rax m = some (record m { rax_word = word (m.rax_word + m.rbx_word) })
    exec sub_rax m = some (record m { rax_word = word (m.rax_word + (2 ^ 64 - m.rbx_word)) })
    exec imul_rax m = some (record m { rax_word = word (m.rax_word * m.rbx_word) })
    exec and_rax m = some (record m { rax_word = cpu.and_word m.rax_word m.rbx_word })
    exec or_rax m = some (record m { rax_word = cpu.or_word m.rax_word m.rbx_word })
    exec cqo m = some (record m { rdx_word = cpu.sign m.rax_word })
    exec idiv_rbx m = divided (cpu.divide m.rdx_word m.rax_word m.rbx_word) m
    exec mov_rax_rdx m = some (record m { rax_word = m.rdx_word })
    exec cmp_rax_rbx m = some (record m { compared = (m.rax_word, m.rbx_word) })
    exec cmp_rax_0 m = some (record m { compared = (m.rax_word, 0) })
    exec (set_al cc) m =
        some (record m { rax_word = m.rax_word / 256 * 256 + bit (holds cc m.compared) })
    exec movzx_rax m = some (record m { rax_word = m.rax_word % 256 })
    exec _ m = none

    unfoldable pub run : List Line → Machine → Option Machine
    run [] m = some m
    run (l ∷ ls) m = elim (exec l m) [ none ↦ none | some m' ↦ run ls m' ]

    pub run-append :
        (a b : List Line) (m m' : Machine) → run a m ≡ some m' → run (a ++ b) m ≡ run b m'
    unfolding run
    run-append [] b m m' e = let p : m ≡ m' = cc in rw p refl
    run-append (l ∷ ls) b m m' e = elim (Option-cases (exec l m)) [
      | inl q ↦ let x : none ≡ some m' = rw (run, q) at e in cc
      | inr (m₁, q) ↦
          let x : run ls m₁ ≡ some m' = rw (run, q) at e in rw (run, q) (run-append ls b m₁ m' x)
    ]

  -- The value of an operator, where its division does not fault.
  unfoldable pub binary_value : BinaryOp → ℕ → ℕ → Option ℕ
  binary_value BinaryOp.add a b = some (word (a + b))
  binary_value BinaryOp.sub a b = some (word (a + (2 ^ 64 - b)))
  binary_value BinaryOp.mul a b = some (word (a * b))
  binary_value BinaryOp.div a b = elim (cpu.divide (cpu.sign a) a b) [
    | none ↦ none
    | some d ↦ some d.0
  ]
  binary_value BinaryOp.rem a b = elim (cpu.divide (cpu.sign a) a b) [
    | none ↦ none
    | some d ↦ some d.1
  ]
  binary_value BinaryOp.eq a b = some (bit (a == b))
  binary_value BinaryOp.not_eq a b = some (bit (not (a == b)))
  binary_value BinaryOp.lt a b = some (bit (cpu.less a b))
  binary_value BinaryOp.lt_eq a b = some (bit (not (cpu.less b a)))
  binary_value BinaryOp.gt a b = some (bit (cpu.less b a))
  binary_value BinaryOp.gt_eq a b = some (bit (not (cpu.less a b)))
  binary_value BinaryOp.and a b = some (cpu.and_word a b)
  binary_value BinaryOp.or a b = some (cpu.or_word a b)

  unfoldable pub unary_value : UnaryOp → ℕ → ℕ
  unary_value UnaryOp.neg a = word (2 ^ 64 - a)
  unary_value UnaryOp.not a = bit (a == 0)

  -- The value of an expression, from the variables and what functions return: `none` for a text,
  -- for `io.write`, for a division that faults and for more than six arguments.
  module _ (functions : List Bytes) (locals : List (Bytes × ℕ))
      (fn : Bytes → List ℕ → Option ℕ) where
    unfoldable pub ident_value : (ℕ → ℕ) → Bytes → Option ℕ
    ident_value frame name = elim (get name locals) [
      | some offset ↦ some (frame offset)
      | none ↦ if contains name functions then fn name [] else some 0
    ]

    unfoldable pub call_value : Bytes → List ℕ → Option ℕ
    call_value name vs =
        if is_write name then none else if ltb 6 (length vs) then none else fn name vs

    unfoldable mutual
      pub value : (ℕ → ℕ) → Expr → Option ℕ
      value frame (Expr.int_lit raw v sp) = some (word v)
      value frame (Expr.bool_lit b sp) = some (bit b)
      value frame (Expr.str_lit raw bytes sp) = none
      value frame (Expr.ident name sp) = ident_value frame name
      value frame (Expr.path p sp) = some 0
      value frame (Expr.unary op e sp) = do a ← value frame e; some (unary_value op a)
      value frame (Expr.binary op l r sp) = do
        a ← value frame l
        b ← value frame r
        binary_value op a b
      value frame (Expr.call callee args sp) = do
        vs ← values frame args
        call_value (display callee) vs
      value frame (Expr.error sp) = some 0

      pub values : (ℕ → ℕ) → Exprs → Option (List ℕ)
      values frame no_exprs = some []
      values frame (more_exprs e es) = do v ← value frame e; vs ← values frame es; some (v ∷ vs)
