-- ===== src/Codegen/SlotTests.antt =====
-- The slots of two variables.
use snap_surf_lang.Prelude.{
  ◌^◌, ◌<◌, length, false, true, ◌≢◌, text, text_eq, text_eq_iff, [], ◌∷◌, some, ◌≡◌, refl, arith,
}
use mathlib.Core.List.{Memᴰ}
use snap_surf_lang.Prelude.Maps.{get, insert, contains}
use snap_surf_lang.Ast.{
  Expr, block, no_stmts, more_stmts, let_stmt, ret_stmt, FnDecl, fn_item, SourceAst, display,
  sep_text, join_texts, expr_span,
}
use snap_surf_lang.Sema.Types.{
  ty_eq, is_bool, is_str, is_integer_type, is_numeric_or_literal, display_ty, merge_numeric,
  compatible_loose, literal_fits,
}
use snap_surf_lang.Sema.Exprs.{
  require_type, expr_type, ident_type, unary_type, arithmetic_type, comparison_type, boolean_type,
  binary_type, write_args, write_type, alloc_type, missing_target, function_type, segments_type,
  call_type, count_exprs,
}
use snap_surf_lang.Sema.Stmts.{
  check_stmt, check_fn, check_program, collect, check_main, check_items, declare_params,
  check_block, check_ret, condition, assign, declare_var, block_returns,
}
use snap_surf_lang.Codegen.Stmts.{
  next_offset, add_local, collect_stmt, collect_locals, collect_stmts,
}
use snap_surf_lang.Codegen.Fns.{param_locals, fn_locals}
use snap_surf_lang.Codegen.Asm.{Line}
use snap_surf_lang.Codegen.Exprs.{ident_line}
use snap_surf_lang.Codegen.Slots.{Within, Apart, fn_locals-Apart}
use snap_surf_lang.Codegen.Tests.{sp, pkg, number}

-- let x i32 = 1 / let y i32 = 2 / ret y
abbrev pair_fn : FnDecl
pair_fn = record {
  name = text "main";
  params = [];
  ret = record { name = text "i32"; span = sp };
  body =
      block
        (more_stmts
          (let_stmt (text "x") (record { name = text "i32"; span = sp }) (number (text "1") 1) sp)
          (more_stmts
            (let_stmt (text "y") (record { name = text "i32"; span = sp }) (number (text "2") 2) sp)
            (more_stmts (ret_stmt (some (Expr.ident (text "y") sp)) sp) no_stmts)))
        sp;
  span = sp;
  is_unsafe = false;
}

abbrev pair : SourceAst
pair = record { items = fn_item pair_fn ∷ []; span = sp }

accepts_pair : check_program pkg (text "main.snapsurf") pair ≡ []
unfolding check_program collect check_main check_items check_fn declare_params check_stmt
    check_block check_ret condition assign declare_var block_returns require_type expr_type
    ident_type unary_type arithmetic_type comparison_type boolean_type binary_type write_args
    write_type alloc_type missing_target function_type segments_type call_type count_exprs expr_span
    display join_texts sep_text ty_eq is_bool is_str is_integer_type is_numeric_or_literal
    display_ty merge_numeric compatible_loose literal_fits get insert contains text_eq
accepts_pair = refl

slot_of_x : get (text "x") (fn_locals pair_fn) ≡ some 8
unfolding fn_locals param_locals collect_locals collect_stmts collect_stmt add_local next_offset get
    insert text_eq
slot_of_x = refl

slot_of_y : get (text "y") (fn_locals pair_fn) ≡ some 16
unfolding fn_locals param_locals collect_locals collect_stmts collect_stmt add_local next_offset get
    insert text_eq
slot_of_y = refl

few : length (fn_locals pair_fn) < 2 ^ 28
unfolding fn_locals param_locals collect_locals collect_stmts collect_stmt add_local next_offset get
    insert text_eq
few = omega arith

names_differ : text "x" ≢ text "y"
unfolding text_eq
names_differ e =
    let p : text_eq (text "x") (text "y") ≡ true = (text_eq_iff (text "x") (text "y")).1 e in cc

fn_locals-Apart_example : Within 8 pair_fn × (Within 16 pair_fn × Apart 8 16)
fn_locals-Apart_example =
    fn_locals-Apart pkg (text "main.snapsurf") pair pair_fn (text "x") (text "y") 8 16 accepts_pair
      (Memᴰ.head refl) few names_differ slot_of_x slot_of_y

-- fn f -> i32 / ret 7
abbrev seven_fn : FnDecl
seven_fn = record {
  name = text "f";
  params = [];
  ret = record { name = text "i32"; span = sp };
  body = block (more_stmts (ret_stmt (some (number (text "7") 7)) sp) no_stmts) sp;
  span = sp;
  is_unsafe = false;
}

-- let x i32 = f / let f i32 = 1 / ret x
abbrev hiding_fn : FnDecl
hiding_fn = record {
  name = text "main";
  params = [];
  ret = record { name = text "i32"; span = sp };
  body =
      block
        (more_stmts
          (let_stmt (text "x") (record { name = text "i32"; span = sp }) (Expr.ident (text "f") sp)
            sp)
          (more_stmts
            (let_stmt (text "f") (record { name = text "i32"; span = sp }) (number (text "1") 1) sp)
            (more_stmts (ret_stmt (some (Expr.ident (text "x") sp)) sp) no_stmts)))
        sp;
  span = sp;
  is_unsafe = false;
}

abbrev hiding : SourceAst
hiding = record { items = fn_item seven_fn ∷ fn_item hiding_fn ∷ []; span = sp }

accepts_hiding : check_program pkg (text "main.snapsurf") hiding ≡ []
unfolding check_program collect check_main check_items check_fn declare_params check_stmt
    check_block check_ret condition assign declare_var block_returns require_type expr_type
    ident_type unary_type arithmetic_type comparison_type boolean_type binary_type write_args
    write_type alloc_type missing_target function_type segments_type call_type count_exprs expr_span
    display join_texts sep_text ty_eq is_bool is_str is_integer_type is_numeric_or_literal
    display_ty merge_numeric compatible_loose literal_fits get insert contains text_eq
accepts_hiding = refl

-- The function `f` is not called.
reads_hidden_slot :
    ident_line (text "f" ∷ text "main" ∷ []) (fn_locals hiding_fn) (text "f") ≡ Line.load_rax 16
unfolding ident_line fn_locals param_locals collect_locals collect_stmts collect_stmt add_local
    next_offset get insert text_eq
reads_hidden_slot = refl
