-- ===== src/Token.antt =====
-- prototypes/rust_stage0/src/token.rs: the kinds of tokens, tokens, and the keywords.
pub mod Keywords
pub mod Debug
mod Tests
use snap_surf_lang.Prelude.{Bytes, text, text_eq, Option, none, some, if◌then◌else◌}
use snap_surf_lang.Diagnostic.{Span}

-- The keywords' constructors end in `_kw`, since several are reserved words here.
pub data TokenKind : Type 0 where
  fn_kw let_kw mut_kw const_kw static_kw ret_kw if_kw else_kw loop_kw while_kw : TokenKind
  break_kw continue_kw use_kw module_kw package_kw version_kw type_kw target_kw : TokenKind
  runtime_kw entry_kw requires_kw dep_kw end_kw unsafe_kw extern_kw asm_kw : TokenKind
  true_kw false_kw and_kw or_kw not_kw : TokenKind
  ident int_lit str_lit byte_lit : TokenKind
  plus minus star slash percent eq eq_eq bang_eq lt lt_eq gt gt_eq arrow : TokenKind
  l_paren r_paren l_bracket r_bracket comma dot colon : TokenKind
  newline eof error comment : TokenKind

unfoldable pub TokenKind-discrete : Discrete TokenKind
TokenKind-discrete = hlevel

pub record Token : Type 0 where
  pub kind : TokenKind
  pub lexeme : Bytes
  pub span : Span

unfoldable pub keyword_kind : Bytes → Option TokenKind
keyword_kind t =
    if text_eq t (text "fn")
    then some fn_kw
    else if text_eq t (text "let")
    then some let_kw
    else if text_eq t (text "mut")
    then some mut_kw
    else if text_eq t (text "const")
    then some const_kw
    else if text_eq t (text "static")
    then some static_kw
    else if text_eq t (text "ret")
    then some ret_kw
    else if text_eq t (text "if")
    then some if_kw
    else if text_eq t (text "else")
    then some else_kw
    else if text_eq t (text "loop")
    then some loop_kw
    else if text_eq t (text "while")
    then some while_kw
    else if text_eq t (text "break")
    then some break_kw
    else if text_eq t (text "continue")
    then some continue_kw
    else if text_eq t (text "use")
    then some use_kw
    else if text_eq t (text "module")
    then some module_kw
    else if text_eq t (text "package")
    then some package_kw
    else if text_eq t (text "version")
    then some version_kw
    else if text_eq t (text "type")
    then some type_kw
    else if text_eq t (text "target")
    then some target_kw
    else if text_eq t (text "runtime")
    then some runtime_kw
    else if text_eq t (text "entry")
    then some entry_kw
    else if text_eq t (text "requires")
    then some requires_kw
    else if text_eq t (text "dep")
    then some dep_kw
    else if text_eq t (text "end")
    then some end_kw
    else if text_eq t (text "unsafe")
    then some unsafe_kw
    else if text_eq t (text "extern")
    then some extern_kw
    else if text_eq t (text "asm")
    then some asm_kw
    else if text_eq t (text "true")
    then some true_kw
    else if text_eq t (text "false")
    then some false_kw
    else if text_eq t (text "and")
    then some and_kw
    else if text_eq t (text "or")
    then some or_kw
    else if text_eq t (text "not")
    then some not_kw
    else none
