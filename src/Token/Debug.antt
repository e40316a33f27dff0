-- ===== src/Token/Debug.antt =====
-- The variants of `TokenKind` as the derived `Debug` prints them.
use snap_surf_lang.Prelude.{Bytes, text}
use snap_surf_lang.Token.{
  TokenKind, fn_kw, let_kw, mut_kw, const_kw, static_kw, ret_kw, if_kw, else_kw, loop_kw, while_kw,
  break_kw, continue_kw, use_kw, module_kw, package_kw, version_kw, type_kw, target_kw, runtime_kw,
  entry_kw, requires_kw, dep_kw, end_kw, unsafe_kw, extern_kw, asm_kw, true_kw, false_kw, and_kw,
  or_kw, not_kw, ident, int_lit, str_lit, byte_lit, plus, minus, star, slash, percent, eq, eq_eq,
  bang_eq, lt, lt_eq, gt, gt_eq, arrow, l_paren, r_paren, l_bracket, r_bracket, comma, dot, colon,
  newline, eof, error, comment,
}

unfoldable pub debug : TokenKind → Bytes
debug fn_kw = text "Fn"
debug let_kw = text "Let"
debug mut_kw = text "Mut"
debug const_kw = text "Const"
debug static_kw = text "Static"
debug ret_kw = text "Ret"
debug if_kw = text "If"
debug else_kw = text "Else"
debug loop_kw = text "Loop"
debug while_kw = text "While"
debug break_kw = text "Break"
debug continue_kw = text "Continue"
debug use_kw = text "Use"
debug module_kw = text "Module"
debug package_kw = text "Package"
debug version_kw = text "Version"
debug type_kw = text "Type"
debug target_kw = text "Target"
debug runtime_kw = text "Runtime"
debug entry_kw = text "Entry"
debug requires_kw = text "Requires"
debug dep_kw = text "Dep"
debug end_kw = text "End"
debug unsafe_kw = text "Unsafe"
debug extern_kw = text "Extern"
debug asm_kw = text "Asm"
debug true_kw = text "True"
debug false_kw = text "False"
debug and_kw = text "And"
debug or_kw = text "Or"
debug not_kw = text "Not"
debug ident = text "Ident"
debug int_lit = text "IntLit"
debug str_lit = text "StrLit"
debug byte_lit = text "ByteLit"
debug plus = text "Plus"
debug minus = text "Minus"
debug star = text "Star"
debug slash = text "Slash"
debug percent = text "Percent"
debug eq = text "Eq"
debug eq_eq = text "EqEq"
debug bang_eq = text "BangEq"
debug lt = text "Lt"
debug lt_eq = text "LtEq"
debug gt = text "Gt"
debug gt_eq = text "GtEq"
debug arrow = text "Arrow"
debug l_paren = text "LParen"
debug r_paren = text "RParen"
debug l_bracket = text "LBracket"
debug r_bracket = text "RBracket"
debug comma = text "Comma"
debug dot = text "Dot"
debug colon = text "Colon"
debug newline = text "Newline"
debug eof = text "Eof"
debug error = text "Error"
debug comment = text "Comment"
