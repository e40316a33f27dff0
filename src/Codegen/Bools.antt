-- ===== src/Codegen/Bools.antt =====
-- The words of expressions of type bool (`emit_expr` in codegen.rs, `expr_type` in sema.rs).
use snap_surf_lang.Prelude.{
  ℕ, ◌≤◌, Bytes, text, text_eq, text_eq_iff, Bool, true, false, List, [], ◌∷◌, Option, none, some,
  ◌≡◌, refl, sym, ap, inl, inr, ltb, ◌==◌, length, arith, Bool-cases,
}
use snap_surf_lang.Prelude.Maps.{get, contains}
use snap_surf_lang.Ast.{AstPath, Expr, BinaryOp, display, join_texts}
use snap_surf_lang.Sema.Types.{FnSig, VarInfo, FnCtx, Ty, named, int_literal, is_integer_type}
use snap_surf_lang.Sema.Bounds.{HasBits-is_integer}
use snap_surf_lang.Sema.Exprs.{Checker, expr_type}
use snap_surf_lang.Sema.Typing.{
  kind_of, IsInteger, literal, typed, Merges, first, second, neither, BinaryType, arith_on, bool_on,
  not_on, neg_on, HasTy, integer, string, boolean_lit, variable, constant, unary_of, binary_of,
  write, alloc, apply, reported,
}
use snap_surf_lang.Sema.Typing.Complete.{expr_type_iff}
use snap_surf_lang.Codegen.Exprs.{Strings, is_write, emit_expr}
use snap_surf_lang.Codegen.Machine.{
  Cpu, Machine, Calls, bit, ◌>>=◌, binary_value, unary_value, ident_value, call_value, value,
  values,
}
use snap_surf_lang.Codegen.Operators.{Leaves, some-eq}
use snap_surf_lang.Codegen.Values.{emit_expr-Leaves, bind-some}

bit_le : (b : Bool) (v : ℕ) → some (bit b) ≡ some v → v ≤ 1
bit_le true v e = let p = some-eq e in omega (arith, p)
bit_le false v e = let p = some-eq e in omega (arith, p)

type_name : Ty → Bytes
type_name (named t) = t
type_name (int_literal v) = []
type_name Ty.error = []

-- A type with another name is not bool.
not_bool : (t : Bytes) → text_eq t (text "bool") ≡ false → named t ≡ named (text "bool") → ⊥
unfolding type_name
not_bool t h e =
    let p : t ≡ text "bool" = ap type_name e in
    let q : text_eq t (text "bool") ≡ true = (text_eq_iff t (text "bool")).1 p in cc

display_one : (p : AstPath) (f : Bytes) → p.segments ≡ f ∷ [] → display p ≡ f
unfolding display join_texts
display_one p f e = rw (display, e) refl

void_name : text_eq (text "void") (text "bool") ≡ false
unfolding text_eq
void_name = refl

pointer_name : text_eq (text "*u8") (text "bool") ≡ false
unfolding text_eq
pointer_name = refl

integer_not_bool : (t : Ty) → IsInteger t → t ≡ named (text "bool") → ⊥
unfolding is_integer_type text_eq type_name
integer_not_bool (int_literal n) literal e = cc
integer_not_bool Ty.error h e = elim h [ ]
integer_not_bool (named t) (typed h) e =
    let p : t ≡ text "bool" = ap type_name e in
    let q : is_integer_type (text "bool") ≡ true = rw p at (HasBits-is_integer h) in cc

merged_not_bool :
    (t u m : Ty) → IsInteger t → IsInteger u → Merges t u m → m ≡ named (text "bool") → ⊥
merged_not_bool (named t) u m i j first e = integer_not_bool m i e
merged_not_bool (int_literal n) (named u) m i j second e = integer_not_bool m j e
merged_not_bool (int_literal n) (int_literal k) m i j neither e = cc
merged_not_bool (int_literal n) Ty.error m i j g e = elim j [ ]
merged_not_bool Ty.error u m i j g e = elim i [ ]

-- What holds of the processor, the variables and the functions where words of type bool are bits.
module _ (self : Checker) (ctx : FnCtx) (cpu : Cpu) (functions : List Bytes)
    (locals : List (Bytes × ℕ)) (fn : Bytes → List ℕ → Option ℕ) (frame : ℕ → ℕ) where
  pub record KeepsBits : Type 0 where
    pub and_bit : (a b : ℕ) → a ≤ 1 → b ≤ 1 → cpu.and_word a b ≤ 1
    pub or_bit : (a b : ℕ) → a ≤ 1 → b ≤ 1 → cpu.or_word a b ≤ 1
    pub variable_bit :
        (n : Bytes) (var : VarInfo)
        → get n ctx.vars ≡ some var
        → var.ty ≡ text "bool"
        → (o : ℕ) × (get n locals ≡ some o) × (frame o ≤ 1)
    -- No variable of the function has the name of a function that is used as a constant.
    pub unshadowed :
        (n : Bytes) (sig : FnSig)
        → get n ctx.vars ≡ none
        → get n self.functions ≡ some sig
        → get n locals ≡ none
    pub function_bit :
        (n : Bytes) (sig : FnSig) (vs : List ℕ) (v : ℕ)
        → get n self.functions ≡ some sig
        → sig.ret ≡ text "bool"
        → fn n vs ≡ some v
        → v ≤ 1

  module _ (keeps : KeepsBits) where
    ident-Bit :
        (n : Bytes) (o v : ℕ)
        → get n locals ≡ some o
        → frame o ≤ 1
        → ident_value cpu functions locals fn frame n ≡ some v
        → v ≤ 1
    unfolding ident_value
    ident-Bit n o v p b e =
        let x : some (frame o) ≡ some v = rw (ident_value, p) at e in omega (arith, some-eq x)

    constant-Bit :
        (n : Bytes) (sig : FnSig) (v : ℕ)
        → get n locals ≡ none
        → get n self.functions ≡ some sig
        → sig.ret ≡ text "bool"
        → ident_value cpu functions locals fn frame n ≡ some v
        → v ≤ 1
    unfolding ident_value
    constant-Bit n sig v p q r e = elim (Bool-cases (contains n functions)) [
      | inl z ↦
          let x : fn n [] ≡ some v = rw (ident_value, p, z) at e in
          keeps.function_bit n sig [] v q r x
      | inr z ↦ let x : some 0 ≡ some v = rw (ident_value, p, z) at e in omega (arith, some-eq x)
    ]

    call-Bit :
        (n : Bytes) (sig : FnSig) (vs : List ℕ) (v : ℕ)
        → get n self.functions ≡ some sig
        → sig.ret ≡ text "bool"
        → call_value cpu functions locals fn n vs ≡ some v
        → v ≤ 1
    unfolding call_value
    call-Bit n sig vs v q r e = elim (Bool-cases (is_write n)) [
      | inl z ↦ let x : none ≡ some v = rw z at e in cc
      | inr z ↦ elim (Bool-cases (ltb 6 (length vs))) [
        | inl y ↦ let x : none ≡ some v = rw (z, y) at e in cc
        | inr y ↦ let x : fn n vs ≡ some v = rw (z, y) at e in keeps.function_bit n sig vs v q r x
      ]
    ]

    binary-Bit :
        (op : BinaryOp) {t u m : Ty} (a b v : ℕ)
        → BinaryType (kind_of op) t u m
        → m ≡ named (text "bool")
        → (t ≡ named (text "bool") → a ≤ 1)
        → (u ≡ named (text "bool") → b ≤ 1)
        → binary_value cpu op a b ≡ some v
        → v ≤ 1
    unfolding binary_value
    binary-Bit BinaryOp.add a b v (arith_on i j g) q x y e = absurd (merged_not_bool _ _ _ i j g q)
    binary-Bit BinaryOp.sub a b v (arith_on i j g) q x y e = absurd (merged_not_bool _ _ _ i j g q)
    binary-Bit BinaryOp.mul a b v (arith_on i j g) q x y e = absurd (merged_not_bool _ _ _ i j g q)
    binary-Bit BinaryOp.div a b v (arith_on i j g) q x y e = absurd (merged_not_bool _ _ _ i j g q)
    binary-Bit BinaryOp.rem a b v (arith_on i j g) q x y e = absurd (merged_not_bool _ _ _ i j g q)
    binary-Bit BinaryOp.eq a b v h q x y e = bit_le _ v e
    binary-Bit BinaryOp.not_eq a b v h q x y e = bit_le _ v e
    binary-Bit BinaryOp.lt a b v h q x y e = bit_le _ v e
    binary-Bit BinaryOp.lt_eq a b v h q x y e = bit_le _ v e
    binary-Bit BinaryOp.gt a b v h q x y e = bit_le _ v e
    binary-Bit BinaryOp.gt_eq a b v h q x y e = bit_le _ v e
    binary-Bit BinaryOp.and a b v bool_on q x y e =
        omega (arith, keeps.and_bit a b (x refl) (y refl), some-eq e)
    binary-Bit BinaryOp.or a b v bool_on q x y e =
        omega (arith, keeps.or_bit a b (x refl) (y refl), some-eq e)

    abbrev val : Expr → Option ℕ
    val e = value cpu functions locals fn frame e

    HasTy-Bit :
        {e : Expr} {t : Ty} (h : HasTy self ctx e t) (v : ℕ)
        → t ≡ named (text "bool")
        → val e ≡ some v
        → v ≤ 1
    unfolding value unary_value type_name
    HasTy-Bit integer v q e = cc
    HasTy-Bit string v q e = cc
    HasTy-Bit (boolean_lit {b = b}) v q e = bit_le b v e
    HasTy-Bit (variable {n = n} {v = var} p) v q e =
        let (o, r, b) = keeps.variable_bit n var p (ap type_name q) in ident-Bit n o v r b e
    HasTy-Bit (constant {n = n} {sig = sig} p r s u) v q e =
        constant-Bit n sig v (keeps.unshadowed n sig p r) r (ap type_name q) e
    HasTy-Bit (unary_of {e = x} h not_on) v q e =
        let (a, p, r) = bind-some (val x) (λ a. some (bit (a == 0))) v e in bit_le (a == 0) v r
    HasTy-Bit (unary_of h (neg_on {t = t} i)) v q e = absurd (integer_not_bool t i q)
    HasTy-Bit (binary_of {op = op} {l = l} {r = r} h k g) v q e =
        let (a, p, z) = bind-some (val l) (λ a. val r >>= λ b. binary_value cpu op a b) v e in
        let (b, p', z') = bind-some (val r) (λ b. binary_value cpu op a b) v z in
        binary-Bit op a b v g q (λ x. HasTy-Bit h a x p) (λ x. HasTy-Bit k b x p') z'
    HasTy-Bit (write _ _ _ _ _ _ _) v q e = absurd (not_bool (text "void") void_name q)
    HasTy-Bit (alloc _ _ _) v q e = absurd (not_bool (text "*u8") pointer_name q)
    HasTy-Bit (apply {p = p} {f = f} {args = args} {sig = sig} s w a g u m) v q e =
        let (vs, z, z') =
          bind-some (values cpu functions locals fn frame args)
            (λ vs. call_value cpu functions locals fn (display p) vs) v e in
        call-Bit f sig vs v g (ap type_name q) (rw (sym (display_one p f s)) z')
    HasTy-Bit reported v q e = cc

    -- A word of an expression that the checker gives the type bool is 0 or 1.
    value-Bit :
        (e : Expr) (v : ℕ)
        → expr_type self ctx e ≡ ([], named (text "bool"))
        → val e ≡ some v
        → v ≤ 1
    value-Bit e v h p = HasTy-Bit ((expr_type_iff self ctx e (named (text "bool"))).0 h) v refl p

module _ (self : Checker) (ctx : FnCtx) (cpu : Cpu) (callee : Bytes → Machine → Option Machine)
    (functions : List Bytes) (locals : List (Bytes × ℕ)) (fn : Bytes → List ℕ → Option ℕ)
    (m : Machine) (calls : Calls callee fn)
    (keeps : KeepsBits self ctx cpu functions locals fn m.frame) where
  -- If the checker gives an expression the type bool, without a diagnostic, and the expression has a
  -- value, its code runs to its end and leaves 0 or 1 in `rax`: the value, with the stack and the
  -- frame as they were. The processor's `and` and `or` of two words that are 0 or 1 are 0 or 1;
  -- variables of type bool are in the frame and hold 0 or 1; functions that return bool return 0 or
  -- 1; no variable of the function has the name of a function, unless it is in scope there; and
  -- functions do as `Calls` says.
  pub emit_expr-LeavesBit :
      (e : Expr) (v : ℕ) (strings : Strings)
      → expr_type self ctx e ≡ ([], named (text "bool"))
      → value cpu functions locals fn m.frame e ≡ some v
      → Leaves cpu callee (emit_expr functions locals e strings).0 m v m.stack m.frame × (v ≤ 1)
  emit_expr-LeavesBit e v strings h p = (
    emit_expr-Leaves cpu callee functions locals fn calls e v strings m p,
    value-Bit self ctx cpu functions locals fn m.frame keeps e v h p,
  )
