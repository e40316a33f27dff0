-- ===== src/Driver/Tests.antt =====
-- A package that goes through all stages.
use snap_surf_lang.Ast.{
  Block, FnDecl, Expr, block, display, expr_span, fn_item, join_texts, more_stmts, no_stmts,
  ret_stmt, sep_text, stmt_span,
}
use snap_surf_lang.Codegen.Asm.{Line, asm_text}
use snap_surf_lang.Codegen.Links.{Linked}
use snap_surf_lang.Diagnostic.{Pos, Span}
use snap_surf_lang.Driver.{Compilation, compilation, compile_package, emit_asm}
use snap_surf_lang.Driver.Stages.{compile_package-emit_asm}
use snap_surf_lang.Lexer.Cursor.{advance, advance_over, skip_round, skip_while}
use snap_surf_lang.Lexer.Main.{dispatch, lex, lex_round}
use snap_surf_lang.Lexer.Scan.{
  comment_round, digit_value, double, hex_escape, in_byte_lit, in_line, int_base, int_round,
  invalid_char, is_hex, is_ident_rest, lex_block_comment, lex_byte_lit, lex_ident, lex_int,
  lex_line_comment, lex_newline, lex_string, single, string_end, string_escape, string_round,
}
use snap_surf_lang.Package.{Package, executable}
use snap_surf_lang.Package.Fields.{
  add_dep, add_requires, read_field, read_lines, read_trimmed, set_type, set_version, type_of,
  unknown,
}
use snap_surf_lang.Package.Load.{
  FileSystem, all_diagnostics, check_package, entry_source, join_path, load, ok, package_of,
  parse_package_text,
}
use snap_surf_lang.Package.Words.{
  all_digits, drop_last_white, drop_white, is_number, lines_from, split_from, split_words, strip_cr,
  three_numbers, trim, valid_semver, white_len,
}
use snap_surf_lang.Parser.Cursor.{
  at, bump, bump_round, bump_while, current, expect, is_arg_start, is_boundary, is_kind, is_skipped,
  is_statement_boundary, kind, peek_kind, previous_span, starts_arg,
}
use snap_surf_lang.Parser.Exprs.{
  binop, callee_of, parse_expr, parse_primary, parse_type_ref, prefix_op,
}
use snap_surf_lang.Parser.Items.{
  begin, ends_params, fn_body, fn_rest, fn_start, item_at, item_round, parse, parse_fn_item,
  parse_items, parse_params,
}
use snap_surf_lang.Parser.Literals.{
  base_of, digits_value, from_str_radix, parse_int_value, without_underscores,
}
use snap_surf_lang.Parser.Stmts.{
  block_of, check_progress, ends_block, expect_end, last_span, parse_ret, parse_statement,
  parse_statements, ret_value, statement_at,
}
use snap_surf_lang.Prelude.{
  ℕ, false, Bytes, List, [], done, if◌then◌else◌, loop, none, refl, some, text, text_eq, true, ◌++◌,
  ◌∷◌, ◌≡◌,
}
use snap_surf_lang.Prelude.Maps.{contains, get, insert}
use snap_surf_lang.Sema.Exprs.{
  alloc_type, arithmetic_type, binary_type, boolean_type, call_type, comparison_type, count_exprs,
  expr_type, function_type, ident_type, missing_target, require_type, segments_type, unary_type,
  write_args, write_type,
}
use snap_surf_lang.Sema.Stmts.{
  assign, block_returns, check_block, check_fn, check_items, check_main, check_program, check_ret,
  check_stmt, collect, condition, declare_params, declare_var,
}
use snap_surf_lang.Sema.Types.{
  compatible_loose, display_ty, is_bool, is_integer_type, is_numeric_or_literal, is_str,
  literal_fits, merge_numeric, ty_eq,
}
use snap_surf_lang.Source.Load.{
  char_len, extension, file_name, load_snapsurf, split_last, valid_up_to,
}
use snap_surf_lang.Source.Lossy.{from_utf8_lossy}
use snap_surf_lang.Token.{TokenKind-discrete, keyword_kind}

abbrev manifest : Bytes
manifest =
    text "package demo\nversion 0.1.0\ntype executable\ntarget host\n" ++ text "runtime tiny\nend\n"

abbrev source : Bytes
source = text "fn main -> i32\n  ret 7\nend\n"

-- A file system with a package of one function.
abbrev pub demo : FileSystem
demo = record {
  exists = λ p. true;
  is_dir = λ p. true;
  read_to_string = λ p. if text_eq p (text "/demo/surf.pkg") then ok manifest else ok source;
}

abbrev demo_package : Package
demo_package = record {
  name = text "demo";
  version = text "0.1.0";
  package_type = executable;
  target = text "host";
  runtime = text "tiny";
  entry = none;
  requires = [];
  deps = [];
  root = text "/demo";
  path = text "/demo/surf.pkg";
}

abbrev pos : ℕ → ℕ → ℕ → Pos
pos byte line column = record { byte = byte; line = line; column = column }

abbrev span : Pos → Pos → Span
span start end = record { source_file_id = 1; start = start; end = end }

abbrev seven : Block
seven =
    let stmt = span (pos 17 2 3) (pos 22 2 8) in
    block
      (more_stmts
        (ret_stmt (some (Expr.int_lit (text "7") 7 (span (pos 21 2 7) (pos 22 2 8)))) stmt)
        no_stmts)
      stmt

abbrev main_fn : FnDecl
main_fn = record {
  name = text "main";
  params = [];
  ret = record { name = text "i32"; span = span (pos 11 1 12) (pos 14 1 15) };
  body = seven;
  span = span (pos 0 1 1) (pos 26 3 4);
  is_unsafe = false;
}

abbrev pub compiled : Compilation
compiled =
    compilation demo_package
      (record { items = fn_item main_fn ∷ []; span = span (pos 0 1 1) (pos 27 4 1) })

pub compiles_demo : compile_package demo (text "/demo") ≡ done (ok compiled)
unfolding TokenKind-discrete add_dep add_requires advance advance_over all_diagnostics all_digits
    alloc_type arithmetic_type assign at base_of begin binary_type binop block_of block_returns
    boolean_type bump bump_round bump_while call_type callee_of char_len check_block check_fn
    check_items check_main check_package check_program check_progress check_ret check_stmt collect
    comment_round comparison_type compatible_loose compile_package condition contains count_exprs
    current declare_params declare_var digit_value digits_value dispatch display display_ty double
    drop_last_white drop_white ends_block ends_params entry_source expect expect_end expr_span
    expr_type extension file_name fn_body fn_rest fn_start from_str_radix from_utf8_lossy
    function_type get hex_escape ident_type in_byte_lit in_line insert int_base int_round
    invalid_char is_arg_start is_bool is_boundary is_hex is_ident_rest is_integer_type is_kind
    is_number is_numeric_or_literal is_skipped is_statement_boundary is_str item_at item_round
    join_path join_texts keyword_kind kind last_span lex lex_block_comment lex_byte_lit lex_ident
    lex_int lex_line_comment lex_newline lex_round lex_string lines_from literal_fits load
    load_snapsurf loop merge_numeric missing_target package_of parse parse_expr parse_fn_item
    parse_int_value parse_items parse_package_text parse_params parse_primary parse_ret
    parse_statement parse_statements parse_type_ref peek_kind prefix_op previous_span read_field
    read_lines read_trimmed require_type ret_value segments_type sep_text set_type set_version
    single skip_round skip_while split_from split_last split_words starts_arg statement_at stmt_span
    string_end string_escape string_round strip_cr text_eq three_numbers trim ty_eq type_of
    unary_type unknown valid_semver valid_up_to white_len without_underscores write_args write_type
compiles_demo = refl

compile_package-emit_asm_example :
    (ls : List Line) × (emit_asm demo (text "/demo") ≡ done (ok (asm_text ls))) × Linked ls
compile_package-emit_asm_example =
    compile_package-emit_asm demo (text "/demo") compiled compiles_demo
