-- ===== src/Codegen/BoolTests.antt =====
-- An expression of type bool.
use snap_surf_lang.Prelude.{
  ℕ, ◌≤◌, Bytes, ◌==◌, Bool-cases, inl, inr, false, text, text_eq, [], ◌∷◌, none, some, ◌≡◌, refl,
  arith,
}
use snap_surf_lang.Prelude.Maps.{get}
use snap_surf_lang.Ast.{Expr, BinaryOp}
use snap_surf_lang.Sema.Types.{
  VarInfo, FnCtx, named, ty_eq, is_bool, is_numeric_or_literal, is_integer_type, merge_numeric,
  compatible_loose,
}
use snap_surf_lang.Sema.Exprs.{
  Checker, expr_type, ident_type, binary_type, boolean_type, comparison_type,
}
use snap_surf_lang.Codegen.Exprs.{emit_expr}
use snap_surf_lang.Codegen.Machine.{Machine, value, ident_value, binary_value}
use snap_surf_lang.Codegen.Operators.{Leaves}
use snap_surf_lang.Codegen.Bools.{KeepsBits, emit_expr-LeavesBit}
use snap_surf_lang.Codegen.Tests.{sp, pkg, number, cpu, seven, returns_seven, seven-calls, empty}

abbrev self : Checker
self = record { pkg = pkg; file_path = text "main.snapsurf"; functions = [] }

-- Behind `let done bool = true`.
abbrev scope : FnCtx
scope = record {
  vars = (text "done", record { ty = text "bool"; mutable = false }) ∷ [];
  return_type = text "i32";
  loop_depth = 0;
  unsafe_depth = 0;
}

abbrev set : Machine
set = record empty { frame = λ offset. 1 }

-- done and 1 < 2
abbrev test : Expr
test =
    Expr.binary BinaryOp.and (Expr.ident (text "done") sp)
      (Expr.binary BinaryOp.lt (number (text "1") 1) (number (text "2") 2) sp) sp

test-type : expr_type self scope test ≡ ([], named (text "bool"))
unfolding expr_type ident_type binary_type boolean_type comparison_type is_bool ty_eq
    is_numeric_or_literal is_integer_type merge_numeric compatible_loose get text_eq
test-type = refl

test-value : value cpu [] ((text "done", 8) ∷ []) returns_seven set.frame test ≡ some 1
unfolding value ident_value binary_value get text_eq
test-value = refl

and_keeps : (a b : ℕ) → a ≤ 1 → b ≤ 1 → cpu.and_word a b ≤ 1
and_keeps a b h k = elim (Bool-cases (a == 0)) [
  | inl z ↦ rw z (omega arith)
  | inr z ↦ rw z (omega arith)
]

or_keeps : (a b : ℕ) → a ≤ 1 → b ≤ 1 → cpu.or_word a b ≤ 1
or_keeps a b h k = elim (Bool-cases (a == 0)) [
  | inl z ↦ rw z (omega arith)
  | inr z ↦ rw z (omega arith)
]

-- The only variable has an offset.
in_frame :
    (n : Bytes) (var : VarInfo)
    → get n scope.vars ≡ some var
    → (o : ℕ) × (get n ((text "done", 8) ∷ []) ≡ some o) × (set.frame o ≤ 1)
unfolding get
in_frame n var p = elim (Bool-cases (text_eq (text "done") n)) [
  | inl z ↦ (8, rw (get, z) refl, omega arith)
  | inr z ↦ let q : none ≡ some var = rw z at p in cc
]

keeps : KeepsBits self scope cpu [] ((text "done", 8) ∷ []) returns_seven set.frame
unfolding get
keeps = record {
  and_bit = and_keeps;
  or_bit = or_keeps;
  variable_bit = λ n var p q. in_frame n var p;
  unshadowed = λ n sig p q. cc;
  function_bit = λ n sig vs v p q r. cc;
}

emit_expr-LeavesBit_example :
    Leaves cpu seven (emit_expr [] ((text "done", 8) ∷ []) test []).0 set 1 set.stack set.frame
    × (1 ≤ 1)
emit_expr-LeavesBit_example =
    emit_expr-LeavesBit self scope cpu seven [] ((text "done", 8) ∷ []) returns_seven set
      seven-calls keeps test 1 [] test-type test-value
