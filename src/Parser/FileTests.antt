-- ===== src/Parser/FileTests.antt =====
-- Runs of the parser of files and blocks.
use snap_surf_lang.Prelude.{
  Bytes, text, false, List, [], ◌∷◌, some, ◌≡◌, ◌≢◌, refl, get_elem?, done, out_of_fuel, Post, loop,
  arith,
}
use snap_surf_lang.Diagnostic.{Pos, Span}
use snap_surf_lang.Token.{
  TokenKind, TokenKind-discrete, Token, fn_kw, ret_kw, end_kw, unsafe_kw, ident, arrow, int_lit,
  newline, eof,
}
use snap_surf_lang.Ast.{
  Block, Expr, stmt_span, expr_span, fn_item, block, more_stmts, no_stmts, ret_stmt,
}
use snap_surf_lang.Parser.Cursor.{
  Parser, kind, current, bump, at, expect, peek_kind, previous_span, bump_while, bump_round,
  is_kind, is_skipped, is_boundary, is_statement_boundary, starts_arg, is_arg_start,
}
use snap_surf_lang.Parser.Literals.{
  parse_int_value, from_str_radix, digits_value, without_underscores, base_of,
}
use snap_surf_lang.Lexer.Scan.{digit_value}
use snap_surf_lang.Parser.Exprs.{
  binop, prefix_op, callee_of, parse_expr, parse_primary, parse_type_ref,
}
use snap_surf_lang.Parser.Stmts.{
  ends_block, last_span, ret_value, parse_ret, expect_end, statement_at, parse_statement,
  check_progress, block_of, parse_statements, parse_block,
}
use snap_surf_lang.Parser.Items.{
  ends_params, parse_params, fn_start, fn_body, fn_rest, parse_fn_item, item_at, item_round,
  parse_items, begin, parse,
}
use snap_surf_lang.Parser.Moves.{EndsInEof}
use snap_surf_lang.Parser.Primary.{HasBadString, On}
use snap_surf_lang.Parser.Closed.{Closes, parse_block-Post}
use snap_surf_lang.Parser.Stuck.{here}
use snap_surf_lang.Parser.Files.{
  new, GetsStuck, Outcome, HasFewItems, parse-GetsStuck, parse-Outcome,
}

abbrev origin : Pos
origin = record { byte = 0; line = 1; column = 1 }

abbrev sp : Span
sp = record { source_file_id = 0; start = origin; end = origin }

abbrev token : TokenKind → Bytes → Token
token k t = record { kind = k; lexeme = t; span = sp }

abbrev path : Bytes
path = text "test.snapsurf"

-- fn main -> i32
-- ret 7
-- end
abbrev seven : List Token
seven =
    token fn_kw (text "fn")
    ∷ token ident (text "main")
    ∷ token arrow (text "->")
    ∷ token ident (text "i32")
    ∷ token newline (text "\n")
    ∷ token ret_kw (text "ret")
    ∷ token int_lit (text "7")
    ∷ token newline (text "\n")
    ∷ token end_kw (text "end")
    ∷ token eof (text "")
    ∷ []

abbrev seven_body : Block
seven_body = block (more_stmts (ret_stmt (some (Expr.int_lit (text "7") 7 sp)) sp) no_stmts) sp

reads_function :
    parse seven path 0 11
    ≡ done (
      record {
        items =
            fn_item (record {
              name = text "main";
              params = [];
              ret = record { name = text "i32"; span = sp };
              body = seven_body;
              span = sp;
              is_unsafe = false;
            })
            ∷ [];
        span = sp;
      },
      [],
    )
unfolding parse begin parse_items item_round item_at parse_fn_item fn_start fn_rest fn_body
    parse_params ends_params block_of parse_statements parse_statement statement_at parse_ret
    ret_value expect_end check_progress ends_block last_span stmt_span is_statement_boundary
    is_boundary previous_span peek_kind bump_while bump_round loop is_skipped at expect is_kind
    TokenKind-discrete parse_type_ref parse_expr binop prefix_op callee_of parse_primary current
    kind bump starts_arg is_arg_start parse_int_value from_str_radix digits_value
    without_underscores base_of digit_value expr_span
reads_function = refl

seven-EndsInEof : EndsInEof seven
seven-EndsInEof = (9, token eof (text ""), refl, refl, refl)

parse-Outcome_example :
    Outcome
      (HasBadString seven path 0 seven-EndsInEof)
      (GetsStuck seven path 0)
      (λ r. HasFewItems seven path 0 seven-EndsInEof r.0)
      (parse seven path 0 11)
parse-Outcome_example = parse-Outcome seven path 0 seven-EndsInEof 11 (omega arith)

abbrev in_body : Parser
in_body = record { index = 5; diagnostics = [] }

parse_block-Post_example :
    Post
      (HasBadString seven path 0 seven-EndsInEof)
      (λ r. On seven path 0 seven-EndsInEof in_body r.1 × Closes seven path 0 seven-EndsInEof r.1)
      (parse_block seven path 0 in_body)
parse_block-Post_example = parse_block-Post seven path 0 seven-EndsInEof in_body (omega arith)

-- unsafe
abbrev lone_unsafe : List Token
lone_unsafe = token unsafe_kw (text "unsafe") ∷ token eof (text "") ∷ []

lone_unsafe-begin :
    begin lone_unsafe path 0 (new lone_unsafe path 0) ≡ done (sp, new lone_unsafe path 0)
unfolding begin bump_while bump_round loop kind current is_skipped
lone_unsafe-begin = refl

eof-ne-fn : (t : Token) → get_elem? lone_unsafe 1 ≡ some t → t.kind ≢ fn_kw
eof-ne-fn t q e = cc

lone_unsafe-GetsStuck : GetsStuck lone_unsafe path 0
lone_unsafe-GetsStuck = (
  sp,
  new lone_unsafe path 0,
  lone_unsafe-begin,
  (
    new lone_unsafe path 0,
    here (new lone_unsafe path 0),
    ((token unsafe_kw (text "unsafe"), refl, refl), eof-ne-fn),
  ),
)

parse-GetsStuck_example : parse lone_unsafe path 0 1000 ≡ out_of_fuel
parse-GetsStuck_example = parse-GetsStuck lone_unsafe path 0 lone_unsafe-GetsStuck 1000
