-- ===== src/Codegen/Tests.antt =====
-- Runs of the code generator, and of the processor on its lines.
use snap_surf_lang.Prelude.{
  ℕ, Bytes, text, text_eq, decimal, false, List, [], ◌∷◌, ◌++◌, Option, none, some, ◌≡◌, refl, ◌/◌,
  ◌%◌, Run, done, ltb, ◌==◌, if◌then◌else◌,
}
use snap_surf_lang.Prelude.Maps.{get, insert, contains}
use snap_surf_lang.Diagnostic.{Pos, Span}
use snap_surf_lang.Package.{Package, executable}
use snap_surf_lang.Ast.{
  Expr, no_exprs, more_exprs, BinaryOp, PathSep, Stmt, Block, block, no_stmts, more_stmts, ret_stmt,
  loop_stmt, break_stmt, mut_stmt, FnDecl, fn_item, SourceAst, display, sep_text, join_texts,
  expr_span,
}
use snap_surf_lang.Sema.Types.{
  ty_eq, is_bool, is_str, is_integer_type, is_numeric_or_literal, display_ty, merge_numeric,
  compatible_loose, literal_fits,
}
use snap_surf_lang.Sema.Exprs.{
  require_type, expr_type, ident_type, unary_type, arithmetic_type, comparison_type, boolean_type,
  binary_type, write_args, write_type, alloc_type, missing_target, function_type, segments_type,
  call_type, count_exprs,
}
use snap_surf_lang.Sema.Stmts.{
  check_stmt, check_fn, check_program, collect, check_main, check_items, declare_params,
  check_block, check_ret, condition, assign, declare_var, block_returns,
}
use snap_surf_lang.Codegen.Asm.{Line, asm_text, line_text, label_text, i32_text, regs}
use snap_surf_lang.Codegen.Exprs.{emit_expr, ident_line}
use snap_surf_lang.Codegen.Stmts.{
  emit_assign, emit_stmt, emit_block, emit_stmts, emit_ret, next_offset, add_local, collect_stmt,
  collect_locals, collect_stmts,
}
use snap_surf_lang.Codegen.Fns.{
  align16, param_locals, store_params, fn_locals, prologue, epilogue, emit_fn, emit_items,
  function_names, data_lines, emit, emit_nasm,
}
use snap_surf_lang.Codegen.Links.{Linked, emit-Linked}
use snap_surf_lang.Codegen.Accepted.{emit-Accepted}
use snap_surf_lang.Codegen.Machine.{Cpu, Machine, value, values, call_value, binary_value, Holds}
use snap_surf_lang.Codegen.Operators.{Leaves}
use snap_surf_lang.Codegen.Values.{emit_expr-Leaves}

abbrev pub origin : Pos
origin = record { byte = 0; line = 1; column = 1 }

abbrev pub sp : Span
sp = record { source_file_id = 0; start = origin; end = origin }

abbrev pub pkg : Package
pkg = record {
  name = text "demo";
  version = text "0.1.0";
  package_type = executable;
  target = text "host";
  runtime = text "tiny";
  entry = none;
  requires = [];
  deps = [];
  root = text ".";
  path = text "surf.pkg";
}

abbrev pub number : Bytes → ℕ → Expr
number raw n = Expr.int_lit raw n sp

-- mut x i32 = 1 / loop / x = 2 / break / end / ret x
abbrev pub body : Block
body =
    block
      (more_stmts
        (mut_stmt (text "x") (record { name = text "i32"; span = sp }) (number (text "1") 1) sp)
        (more_stmts
          (loop_stmt
            (block
              (more_stmts (Stmt.assign_stmt (text "x") (number (text "2") 2) sp)
                (more_stmts (break_stmt sp) no_stmts))
              sp)
            sp)
          (more_stmts (ret_stmt (some (Expr.ident (text "x") sp)) sp) no_stmts)))
      sp

abbrev pub main_fn : FnDecl
main_fn = record {
  name = text "main";
  params = [];
  ret = record { name = text "i32"; span = sp };
  body = body;
  span = sp;
  is_unsafe = false;
}

abbrev pub program : SourceAst
program = record { items = fn_item main_fn ∷ []; span = sp }

-- What is emitted, with all that the generator calls open.
emitted : Run Bytes
unfolding emit_nasm emit emit_items emit_fn prologue epilogue fn_locals param_locals store_params
    collect_locals collect_stmts collect_stmt add_local next_offset align16 emit_block emit_stmts
    emit_stmt emit_ret emit_assign emit_expr ident_line function_names data_lines get insert
    contains text_eq asm_text line_text label_text i32_text
emitted = emit_nasm program pkg

emits_program :
    emitted
    ≡ done (
        text "default rel\nglobal _start\nsection .text\n_start:\n    call main\n    mov edi, eax\n"
        ++ (text
              "    mov eax, 60\n    syscall\n\nmain:\n    push rbp\n    mov rbp, rsp\n    sub rsp, 16\n"
            ++ (text
                  "    mov rax, 1\n    mov [rbp-8], rax\n.L_loop_start_1:\n    mov rax, 2\n    mov [rbp-8], rax\n"
                ++ (text
                      "    jmp .L_loop_end_2\n    jmp .L_loop_start_1\n.L_loop_end_2:\n    mov rax, [rbp-8]\n"
                    ++ text
                        "    jmp .L_fn_end_0\n.L_fn_end_0:\n    mov rsp, rbp\n    pop rbp\n    ret\n\n"))))
unfolding emitted decimal
emits_program = refl

accepts_program : check_program pkg (text "main.snapsurf") program ≡ []
unfolding check_program collect check_main check_items check_fn declare_params check_stmt
    check_block check_ret condition assign declare_var block_returns require_type expr_type
    ident_type unary_type arithmetic_type comparison_type boolean_type binary_type write_args
    write_type alloc_type missing_target function_type segments_type call_type count_exprs expr_span
    display join_texts sep_text ty_eq is_bool is_str is_integer_type is_numeric_or_literal
    display_ty merge_numeric compatible_loose literal_fits get insert contains text_eq
accepts_program = refl

emit-Accepted_example : (ls : List Line) × (emit program pkg ≡ done ls)
emit-Accepted_example = emit-Accepted pkg (text "main.snapsurf") program accepts_program

pub program_emitted : (ls : List Line) × (emit program pkg ≡ done ls)
program_emitted = emit-Accepted pkg (text "main.snapsurf") program accepts_program

-- The lines that are emitted.
abbrev pub program_lines : List Line
program_lines = program_emitted.0

emit-Linked_example : Linked program_lines
emit-Linked_example = emit-Linked program pkg program_lines program_emitted.1

-- A processor that knows small words only.
abbrev pub cpu : Cpu
cpu = record {
  and_word = λ a b. if a == 0 then 0 else b;
  or_word = λ a b. if a == 0 then b else 1;
  sign = λ a. 0;
  divide = λ high low d. if d == 0 then none else some (low / d, low % d);
  less = ltb;
}

-- Functions that return 7.
abbrev pub seven : Bytes → Machine → Option Machine
seven name m = some (record m { rax_word = 7 })

abbrev pub returns_seven : Bytes → List ℕ → Option ℕ
returns_seven name vs = some 7

pub seven-calls :
    (name : Bytes) (vs : List ℕ) (v : ℕ) (m : Machine)
    → returns_seven name vs ≡ some v
    → Holds vs regs m
    → (m' : Machine) × (seven name m ≡ some m')
      × (m'.rax_word ≡ v)
      × (m'.stack ≡ m.stack)
      × (m'.frame ≡ m.frame)
seven-calls name vs v m e h = let p : 7 ≡ v = cc in (record m { rax_word = 7 }, refl, p, refl, refl)

-- 20 - f 1 2
abbrev difference : Expr
difference =
    Expr.binary BinaryOp.sub (number (text "20") 20)
      (Expr.call (record { segments = text "f" ∷ []; sep = PathSep.single; span = sp })
        (more_exprs (number (text "1") 1) (more_exprs (number (text "2") 2) no_exprs)) sp)
      sp

abbrev pub empty : Machine
empty = record {
  rax_word = 0;
  rbx_word = 0;
  rdi_word = 0;
  rsi_word = 0;
  rdx_word = 0;
  rcx_word = 0;
  r8_word = 0;
  r9_word = 0;
  compared = (0, 0);
  stack = 5 ∷ [];
  frame = λ offset. 0;
}

difference-value : value cpu [] [] returns_seven empty.frame difference ≡ some 13
unfolding value values call_value binary_value display join_texts sep_text text_eq
difference-value = refl

emit_expr-Leaves_example :
    Leaves cpu seven (emit_expr [] [] difference []).0 empty 13 empty.stack empty.frame
emit_expr-Leaves_example =
    emit_expr-Leaves cpu seven [] [] returns_seven seven-calls difference 13 [] empty
      difference-value
