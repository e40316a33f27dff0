-- ===== src/Parser/Tests.antt =====
-- Runs of the expression parser and of the values of literals.
use snap_surf_lang.Prelude.{ℕ, text, Bytes, ◌≡◌, refl, [], ◌∷◌, List, done, none, Post, arith}
use snap_surf_lang.Diagnostic.{Pos, Span}
use snap_surf_lang.Token.{TokenKind, Token, int_lit, plus, star, eof}
use snap_surf_lang.Lexer.Scan.{digit_value}
use snap_surf_lang.Ast.{Expr, add, mul, binary, expr_span}
use snap_surf_lang.Parser.Cursor.{Parser, current, kind, bump, starts_arg, is_arg_start}
use snap_surf_lang.Parser.Literals.{
  parse_int_value, from_str_radix, digits_value, without_underscores, base_of,
}
use snap_surf_lang.Parser.Exprs.{binop, prefix_op, callee_of, parse_expr, parse_primary}
use snap_surf_lang.Parser.Moves.{EndsInEof, Took}
use snap_surf_lang.Parser.Primary.{HasBadString}
use snap_surf_lang.Parser.Total.{parse_expr-Post}

abbrev origin : Pos
origin = record { byte = 0; line = 1; column = 1 }

abbrev sp : Span
sp = record { source_file_id = 0; start = origin; end = origin }

abbrev token : TokenKind → Bytes → Token
token k t = record { kind = k; lexeme = t; span = sp }

-- 1 + 2 * 3
abbrev sum : List Token
sum =
    token int_lit (text "1")
    ∷ token plus (text "+")
    ∷ token int_lit (text "2")
    ∷ token star (text "*")
    ∷ token int_lit (text "3")
    ∷ token eof (text "")
    ∷ []

abbrev begin : Parser
begin = record { index = 0; diagnostics = [] }

abbrev number : Bytes → ℕ → Expr
number t v = Expr.int_lit t v sp

binds_products_first :
    parse_expr sum (text "test.snapsurf") 0 30 0 begin
    ≡ done (
      binary add
          (number (text "1") 1)
          (binary mul (number (text "2") 2) (number (text "3") 3) sp)
          sp,
      record begin { index = 5 },
    )
unfolding parse_expr binop prefix_op callee_of parse_primary current kind bump starts_arg
    is_arg_start parse_int_value from_str_radix digits_value without_underscores base_of digit_value
    expr_span
binds_products_first = refl

-- 2 ^ 128
drops_big_literal : parse_int_value (text "340282366920938463463374607431768211456") ≡ none
unfolding parse_int_value from_str_radix digits_value without_underscores base_of digit_value
drops_big_literal = refl

sum-EndsInEof : EndsInEof sum
sum-EndsInEof = (5, token eof (text ""), refl, refl, refl)

parse_expr-Post_example :
    Post
      (HasBadString sum (text "test.snapsurf") 0 sum-EndsInEof)
      (λ r. Took sum (text "test.snapsurf") 0 int_lit begin r.1)
      (parse_expr sum (text "test.snapsurf") 0 30 0 begin)
parse_expr-Post_example =
    parse_expr-Post sum (text "test.snapsurf") 0 sum-EndsInEof 30 0 begin int_lit (omega arith)
      (token int_lit (text "1"), refl, refl) (omega arith)
