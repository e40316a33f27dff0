-- ===== src/Sema/Tests.antt =====
-- Runs of the checker of sema.rs.
use snap_surf_lang.Prelude.{
  text, Bytes, ◌≡◌, refl, [], ◌∷◌, List, map, some, none, true, false, ◌↔◌, text_eq,
}
use snap_surf_lang.Prelude.Maps.{get, insert, contains}
use snap_surf_lang.Diagnostic.{Pos, Span}
use snap_surf_lang.Package.{Package, executable}
use snap_surf_lang.Ast.{
  SourceAst, Expr, Stmt, while_stmt, TypeRef, Block, FnDecl, fn_item, int_lit, bool_lit, block,
  no_stmts, more_stmts, ret_stmt, if_stmt, let_stmt, expr_span, display, join_texts, sep_text,
  else_block, unary, neg, binary, add,
}
use snap_surf_lang.Sema.Types.{
  FnCtx, int_literal, ty_eq, is_bool, is_str, is_integer_type, is_numeric_or_literal, display_ty,
  merge_numeric, compatible_loose, literal_fits,
}
use snap_surf_lang.Sema.Bounds.{Fits, literal_fits_iff}
use snap_surf_lang.Sema.Exprs.{
  Checker, require_type, expr_type, ident_type, unary_type, arithmetic_type, comparison_type,
  boolean_type, binary_type, write_args, write_type, alloc_type, missing_target, function_type,
  segments_type, call_type, count_exprs,
}
use snap_surf_lang.Sema.Stmts.{
  start_ctx, check_stmt, check_fn, check_program, collect, check_main, check_items, declare_params,
  check_block, check_ret, condition, assign, declare_var, block_returns,
}
use snap_surf_lang.Sema.Typing.{HasTy}
use snap_surf_lang.Sema.Typing.Complete.{expr_type_iff}
use snap_surf_lang.Sema.Scope.{Extends, check_stmt-Extends}
use snap_surf_lang.Sema.WellFormed.{WfProgram}
use snap_surf_lang.Sema.WellFormed.Programs.{check_program_iff}
use snap_surf_lang.Sema.Flow.{returns, if_true, in_block, leave, ret}
use snap_surf_lang.Sema.Returns.{check_fn-returns}

abbrev origin : Pos
origin = record { byte = 0; line = 1; column = 1 }

abbrev sp : Span
sp = record { source_file_id = 0; start = origin; end = origin }

abbrev type_ref : Bytes → TypeRef
type_ref name = record { name = name; span = sp }

abbrev pkg : Package
pkg = record {
  name = text "demo";
  version = text "0.1.0";
  package_type = executable;
  target = text "linux";
  runtime = text "none";
  entry = none;
  requires = [];
  deps = [];
  root = text ".";
  path = text "snapsurf.package";
}

abbrev self : Checker
self = record { pkg = pkg; file_path = text "main.snapsurf"; functions = [] }

-- if true / ret 7 / else / ret 300 / end
abbrev both_ways : Block
both_ways =
    block
      (more_stmts
        (if_stmt (bool_lit true sp)
          (block (more_stmts (ret_stmt (some (int_lit (text "7") 7 sp)) sp) no_stmts) sp)
          (else_block
            (block (more_stmts (ret_stmt (some (int_lit (text "300") 300 sp)) sp) no_stmts) sp))
          sp)
        no_stmts)
      sp

abbrev main_fn : Block → FnDecl
main_fn b = record {
  name = text "main";
  params = [];
  ret = type_ref (text "i32");
  body = b;
  span = sp;
  is_unsafe = false;
}

abbrev program : Block → SourceAst
program b = record { items = fn_item (main_fn b) ∷ []; span = sp }

-- The codes of a program of one function, with all that the checker calls open.
codes : Block → List Bytes
unfolding check_program collect check_main check_items check_fn declare_params check_block check_ret
    condition assign declare_var block_returns require_type expr_type ident_type unary_type
    arithmetic_type comparison_type boolean_type binary_type write_args write_type alloc_type
    missing_target function_type segments_type call_type count_exprs expr_span display join_texts
    sep_text ty_eq is_bool is_str is_integer_type is_numeric_or_literal display_ty merge_numeric
    compatible_loose literal_fits get insert contains text_eq
codes b =
    map (λ d. d.code)
      (check_program pkg (text "main.snapsurf")
        (record { items = fn_item (main_fn b) ∷ []; span = sp }))

accepts_both_ways : codes both_ways ≡ []
unfolding codes
accepts_both_ways = refl

both_ways_silent : (check_fn self (main_fn both_ways)).0 ≡ []
unfolding codes
both_ways_silent = refl

check_fn-returns_example : returns ≡ returns
check_fn-returns_example =
    check_fn-returns self (main_fn both_ways) returns both_ways_silent (λ e. cc)
      (in_block (leave (if_true (in_block (leave ret (λ e. cc)))) (λ e. cc)))

literal_fits_iff_example : (literal_fits 300 (text "i16") ≡ true) ↔ Fits 300 (text "i16")
literal_fits_iff_example = literal_fits_iff 300 (text "i16")

-- let x u8 = -5
accepts_negative_unsigned :
    codes (
      block
        (more_stmts
          (let_stmt (text "x") (type_ref (text "u8")) (unary neg (int_lit (text "5") 5 sp) sp) sp)
          (more_stmts (ret_stmt (some (int_lit (text "0") 0 sp)) sp) no_stmts))
        sp)
    ≡ []
unfolding codes
accepts_negative_unsigned = refl

-- let x u8 = 200 + 200
accepts_literal_sum :
    codes (
      block
        (more_stmts
          (let_stmt
            (text "x")
            (type_ref (text "u8"))
            (binary add (int_lit (text "200") 200 sp) (int_lit (text "200") 200 sp) sp)
            sp)
          (more_stmts (ret_stmt (some (int_lit (text "0") 0 sp)) sp) no_stmts))
        sp)
    ≡ []
unfolding codes
accepts_literal_sum = refl

rejects_big_literal :
    codes (
      block
        (more_stmts
          (let_stmt (text "x") (type_ref (text "u8")) (int_lit (text "400") 400 sp) sp)
          (more_stmts (ret_stmt (some (int_lit (text "0") 0 sp)) sp) no_stmts))
        sp)
    ≡ text "E4001" ∷ []
unfolding codes
rejects_big_literal = refl

check_program_iff_example :
    (check_program pkg (text "main.snapsurf") (program both_ways) ≡ [])
    ↔ WfProgram pkg (text "main.snapsurf") (program both_ways)
check_program_iff_example = check_program_iff pkg (text "main.snapsurf") (program both_ways)

-- -5
abbrev minus_five : Expr
minus_five = unary neg (int_lit (text "5") 5 sp) sp

abbrev start : FnCtx
start = start_ctx self (main_fn both_ways) []

expr_type_iff_example :
    (expr_type self start minus_five ≡ ([], int_literal 5))
    ↔ HasTy self start minus_five (int_literal 5)
expr_type_iff_example = expr_type_iff self start minus_five (int_literal 5)

-- while true / let x i32 = 1 / end
abbrev loop_with_let : Stmt
loop_with_let =
    while_stmt (bool_lit true sp)
      (block
        (more_stmts (let_stmt (text "x") (type_ref (text "i32")) (int_lit (text "1") 1 sp) sp)
          no_stmts)
        sp)
      sp

check_stmt-Extends_example : Extends start (check_stmt self loop_with_let start).1
check_stmt-Extends_example = check_stmt-Extends self loop_with_let start

-- let x i8 = -128
rejects_least_signed :
    codes (
      block
        (more_stmts
          (let_stmt
            (text "x")
            (type_ref (text "i8"))
            (unary neg (int_lit (text "128") 128 sp) sp)
            sp)
          (more_stmts (ret_stmt (some (int_lit (text "0") 0 sp)) sp) no_stmts))
        sp)
    ≡ text "E4001" ∷ []
unfolding codes
rejects_least_signed = refl
