-- ===== src/Codegen/Values.antt =====
-- The code of an expression computes its value (`emit_expr` in codegen.rs).
use snap_surf_lang.Prelude.{
  ℕ, Bytes, true, false, List, [], ◌∷◌, ◌++◌, Option, none, some, ◌≡◌, refl, sym, ◌∙◌, length,
}
use snap_surf_lang.Ast.{Expr, Exprs, no_exprs, more_exprs, BinaryOp, UnaryOp, display}
use snap_surf_lang.Codegen.Asm.{Line, mov_rax, push_rax, pop_rax, mov_rbx_rax, xor_eax}
use snap_surf_lang.Codegen.Exprs.{
  Strings, binary_lines, unary_lines, num_args, emit_expr, emit_args,
}
use snap_surf_lang.Codegen.Machine.{
  Calls, Cpu, Machine, word, exec, run, run-append, binary_value, unary_value, ◌>>=◌, call_value,
  value, values,
}
use snap_surf_lang.Codegen.Args.{pushed, call_lines-Leaves, ident_line-Leaves}
use snap_surf_lang.Codegen.Operators.{
  some-eq, Leaves, then-Leaves, unary_lines-Leaves, binary_lines-Leaves,
}

pub bind-some {ℓ κ} :
    {A : Type ℓ} {B : Type κ} (o : Option A) (f : A → Option B) (b : B)
    → (o >>= f) ≡ some b
    → (a : A) × (o ≡ some a) × (f a ≡ some b)
bind-some none f b e = cc
bind-some (some a) f b e = (a, refl, e)

module _ (cpu : Cpu) (callee : Bytes → Machine → Option Machine) (functions : List Bytes)
    (locals : List (Bytes × ℕ)) (fn : Bytes → List ℕ → Option ℕ) (calls : Calls callee fn) where
  abbrev val : (ℕ → ℕ) → Expr → Option ℕ
  val = value cpu functions locals fn

  abbrev vals : (ℕ → ℕ) → Exprs → Option (List ℕ)
  vals = values cpu functions locals fn

  num_args-eq :
      (frame : ℕ → ℕ) (es : Exprs) (vs : List ℕ)
      → values cpu functions locals fn frame es ≡ some vs
      → num_args es ≡ length vs
  unfolding values num_args
  num_args-eq frame no_exprs vs e = let p : [] ≡ vs = some-eq e in rw (sym p) refl
  num_args-eq frame (more_exprs x es) vs e =
      let (v, p, q) = bind-some (val frame x) (λ v. vals frame es >>= λ vs. some (v ∷ vs)) vs e in
      let (ws, r, s) = bind-some (vals frame es) (λ vs. some (v ∷ vs)) vs q in
      let t : v ∷ ws ≡ vs = some-eq s in rw (sym t, num_args-eq frame es ws r) refl

  -- Lines that push the words.
  abbrev Pushes : List Line → Machine → List ℕ → Type 0
  Pushes ls m vs =
      (m' : Machine) × (run cpu callee ls m ≡ some m')
      × (m'.stack ≡ pushed vs m.stack)
      × (m'.frame ≡ m.frame)

  zero-Leaves :
      (v : ℕ) (m : Machine) → some 0 ≡ some v → Leaves cpu callee (xor_eax ∷ []) m v m.stack m.frame
  unfolding run exec
  zero-Leaves v m e = (_, refl, some-eq e, refl, refl)

  mov-Leaves :
      (n v : ℕ) (m : Machine)
      → some (word n) ≡ some v
      → Leaves cpu callee (mov_rax n ∷ []) m v m.stack m.frame
  unfolding run exec
  mov-Leaves n v m e = (_, refl, some-eq e, refl, refl)

  unary-Leaves :
      (op : UnaryOp) (ls : List Line) (a v : ℕ) (m : Machine)
      → Leaves cpu callee ls m a m.stack m.frame
      → unary_value cpu op a ≡ v
      → Leaves cpu callee (ls ++ unary_lines op) m v m.stack m.frame
  unary-Leaves op ls a v m (m₁, r, w, s, f) q =
      let (m₂, r', w', s', f') = unary_lines-Leaves cpu callee op m₁ in
      let u : unary_value cpu op m₁.rax_word ≡ v = rw w q in
      then-Leaves cpu callee ls (unary_lines op) m m₁ v m.stack m.frame r
        (m₂, r', w' ∙ u, s' ∙ s, f' ∙ f)

  nil-eq : (m : Machine) → run cpu callee [] m ≡ some m
  unfolding run
  nil-eq m = refl

  push-eq :
      (m : Machine)
      → run cpu callee (push_rax ∷ []) m ≡ some (record m { stack = m.rax_word ∷ m.stack })
  unfolding run exec
  push-eq m = refl

  operands-Leaves :
      (op : BinaryOp) (x : ℕ) (stack : List ℕ) (v : ℕ) (m : Machine)
      → binary_value cpu op x m.rax_word ≡ some v
      → Leaves cpu callee
          (mov_rbx_rax ∷ pop_rax ∷ binary_lines op)
          (record m { stack = x ∷ stack })
          v
          stack
          m.frame
  unfolding run exec
  operands-Leaves op x stack v m q =
      binary_lines-Leaves cpu callee op
        (record m { stack = stack; rax_word = x; rbx_word = m.rax_word }) v q

  binary_end-Leaves :
      (op : BinaryOp) (x : ℕ) (stack : List ℕ) (v : ℕ) (m : Machine)
      → m.stack ≡ x ∷ stack
      → binary_value cpu op x m.rax_word ≡ some v
      → Leaves cpu callee (mov_rbx_rax ∷ pop_rax ∷ binary_lines op) m v stack m.frame
  binary_end-Leaves op x stack v m e q = rw (sym e) at (operands-Leaves op x stack v m q)

  -- Both operands, the first one on the stack.
  binary-Leaves :
      (op : BinaryOp) (ls ls' : List Line) (a b v : ℕ) (m : Machine)
      → Leaves cpu callee ls m a m.stack m.frame
      → ((m' : Machine) → m'.frame ≡ m.frame → Leaves cpu callee ls' m' b m'.stack m'.frame)
      → binary_value cpu op a b ≡ some v
      → Leaves cpu callee
          (ls ++ (push_rax ∷ (ls' ++ (mov_rbx_rax ∷ pop_rax ∷ binary_lines op))))
          m
          v
          m.stack
          m.frame
  binary-Leaves op ls ls' a b v m (m₁, r, w, s, f) k q =
      let m₂ : Machine = record m₁ { stack = m₁.rax_word ∷ m₁.stack } in
      let (m₃, r', w', s', f') = k m₂ f in
      let x : binary_value cpu op m₁.rax_word m₃.rax_word ≡ some v = rw (w', w) q in
      let (m₄, r'', w'', s'', f'') = binary_end-Leaves op m₁.rax_word m₁.stack v m₃ s' x in
      then-Leaves cpu callee ls _ m m₁ v m.stack m.frame r (
        then-Leaves cpu callee (push_rax ∷ []) _ m₁ m₂ v m.stack m.frame (push-eq m₁) (
          then-Leaves cpu callee ls' _ m₂ m₃ v m.stack m.frame r'
            (m₄, r'', w'', s'' ∙ s, f'' ∙ (f' ∙ f))))

  mutual
    unfolding emit_expr emit_args value values

    emit_expr-Runs :
        (e : Expr) (v : ℕ) (strings : Strings) (m : Machine)
        → val m.frame e ≡ some v
        → Leaves cpu callee (emit_expr functions locals e strings).0 m v m.stack m.frame
    emit_expr-Runs (Expr.int_lit raw n sp) v strings m e = mov-Leaves n v m e
    emit_expr-Runs (Expr.bool_lit true sp) v strings m e = mov-Leaves 1 v m e
    emit_expr-Runs (Expr.bool_lit false sp) v strings m e = mov-Leaves 0 v m e
    emit_expr-Runs (Expr.str_lit raw bytes sp) v strings m e = cc
    emit_expr-Runs (Expr.ident name sp) v strings m e =
        ident_line-Leaves cpu callee functions locals fn calls name v m e
    emit_expr-Runs (Expr.path p sp) v strings m e = zero-Leaves v m e
    emit_expr-Runs (Expr.unary op x sp) v strings m e =
        let (a, p, q) = bind-some (val m.frame x) (λ a. some (unary_value cpu op a)) v e in
        unary-Leaves op (emit_expr functions locals x strings).0 a v m
          (emit_expr-Runs x a strings m p) (some-eq q)
    emit_expr-Runs (Expr.binary op l r sp) v strings m e =
        let (a, p, q) =
          bind-some (val m.frame l) (λ a. val m.frame r >>= λ b. binary_value cpu op a b) v e in
        let (b, p', q') = bind-some (val m.frame r) (λ b. binary_value cpu op a b) v q in
        binary-Leaves op (emit_expr functions locals l strings).0
          (emit_expr functions locals r (emit_expr functions locals l strings).1).0 a b v m
          (emit_expr-Runs l a strings m p) (λ m' f. emit_expr-Runs r b _ m' (rw f p')) q'
    emit_expr-Runs (Expr.call c args sp) v strings m e =
        let (vs, p, q) =
          bind-some (vals m.frame args) (λ vs. call_value cpu functions locals fn (display c) vs) v
            e in
        let (m₁, r, s, f) = emit_args-Runs args vs strings m p in
        let (m₂, r', w, s', f') =
          call_lines-Leaves cpu callee functions locals fn calls (display c) vs m.stack v m₁ q s in
        rw (num_args-eq m.frame args vs p) (
          then-Leaves cpu callee (emit_args functions locals args strings).0 _ m m₁ v m.stack
            m.frame r (m₂, r', w, s', f' ∙ f))
    emit_expr-Runs (Expr.error sp) v strings m e = zero-Leaves v m e

    emit_args-Runs :
        (es : Exprs) (vs : List ℕ) (strings : Strings) (m : Machine)
        → vals m.frame es ≡ some vs
        → Pushes (emit_args functions locals es strings).0 m vs
    emit_args-Runs no_exprs vs strings m e =
        let p : [] ≡ vs = some-eq e in (m, nil-eq m, rw (sym p) refl, refl)
    emit_args-Runs (more_exprs x es) vs strings m e =
        let (v, p, q) =
          bind-some (val m.frame x) (λ v. vals m.frame es >>= λ vs. some (v ∷ vs)) vs e in
        let (ws, r, t) = bind-some (vals m.frame es) (λ vs. some (v ∷ vs)) vs q in
        let u : v ∷ ws ≡ vs = some-eq t in
        let (m₁, r₁, w₁, s₁, f₁) = emit_expr-Runs x v strings m p in
        let m₂ : Machine = record m₁ { stack = m₁.rax_word ∷ m₁.stack } in
        let (m₃, r₃, s₃, f₃) =
          emit_args-Runs es ws (emit_expr functions locals x strings).1 m₂ (rw f₁ r) in
        (
          m₃,
          run-append cpu callee (emit_expr functions locals x strings).0 _ m m₁ r₁
              ∙ (run-append cpu callee (push_rax ∷ []) _ m₁ m₂ (push-eq m₁) ∙ r₃),
          s₃ ∙ rw (w₁, s₁, sym u) refl,
          f₃ ∙ f₁,
        )

  -- The code of an expression that has a value runs to its end, from any state of the processor: it
  -- leaves the value in `rax`, and the stack and the frame as they were.
  pub emit_expr-Leaves :
      (e : Expr) (v : ℕ) (strings : Strings) (m : Machine)
      → value cpu functions locals fn m.frame e ≡ some v
      → Leaves cpu callee (emit_expr functions locals e strings).0 m v m.stack m.frame
  emit_expr-Leaves e v strings m h = emit_expr-Runs e v strings m h
