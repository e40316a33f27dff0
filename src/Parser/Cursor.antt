-- ===== src/Parser/Cursor.antt =====
-- The parser's state and the operations that read and move it (`Parser::current` to
-- `Parser::error`). The tokens, the path and the number of the file never change: they are
-- parameters.
use snap_surf_lang.Prelude.{
  ℕ, ◌+◌, ◌-◌, Bytes, text, Bool, true, false, not, List, [], ◌∷◌, ◌++◌, Option, none, some, ltb,
  ◌==◌, if◌then◌else◌, length, get_elem?, Run, done, panic, out_of_fuel, Flow, next, exit, loop,
}
use snap_surf_lang.Diagnostic.{Span, Diagnostic, error_at}
use snap_surf_lang.Token.Debug.{debug}
use snap_surf_lang.Token.{
  TokenKind, TokenKind-discrete, Token, fn_kw, let_kw, mut_kw, ret_kw, if_kw, else_kw, loop_kw,
  while_kw, use_kw, end_kw, true_kw, false_kw, not_kw, ident, int_lit, str_lit, minus, l_paren,
  newline, eof, comment,
}

pub record Parser : Type 0 where
  pub index : ℕ
  pub diagnostics : List Diagnostic

-- A step of the parser: it reads and moves the state, and may index past the tokens.
abbrev pub Parse {ℓ} : Type ℓ → Type ℓ
Parse A = Parser → Run (A × Parser)

abbrev pub pure {ℓ} : {A : Type ℓ} → A → Parse A
pure a = λ s. done (a, s)

abbrev pub and_then {ℓ κ} :
    {A : Type ℓ} {B : Type κ} → Run (A × Parser) → (A → Parse B) → Run (B × Parser)
and_then (done (a, s)) f = f a s
and_then panic f = panic
and_then out_of_fuel f = out_of_fuel

infixl 5 ◌>>=◌ ◌>>◌
abbrev pub ◌>>=◌ {ℓ κ} : {A : Type ℓ} {B : Type κ} → Parse A → (A → Parse B) → Parse B
m >>= f = λ s. and_then (m s) f

abbrev pub ◌>>◌ {ℓ κ} : {A : Type ℓ} {B : Type κ} → Parse A → Parse B → Parse B
m >> k = m >>= λ _. k

-- What does not read the state.
abbrev pub lift {ℓ} : {A : Type ℓ} → Run A → Parse A
lift (done a) = pure a
lift panic = λ s. panic
lift out_of_fuel = λ s. out_of_fuel

-- The operator `?`.
abbrev pub try {ℓ κ} :
    {A : Type ℓ} {B : Type κ} → Parse (Option A) → (A → Parse (Option B)) → Parse (Option B)
try m f = m >>= λ o. elim o [ none ↦ pure none | some a ↦ f a ]

-- `==` of the derived `PartialEq`
unfoldable pub is_kind : TokenKind → TokenKind → Bool
is_kind a b = elim (TokenKind-discrete a b) [ yes _ ↦ true | no _ ↦ false ]

-- The kinds at which an argument starts.
unfoldable pub is_arg_start : TokenKind → Bool
is_arg_start int_lit = true
is_arg_start str_lit = true
is_arg_start true_kw = true
is_arg_start false_kw = true
is_arg_start ident = true
is_arg_start l_paren = true
is_arg_start not_kw = true
is_arg_start minus = true
is_arg_start _ = false

unfoldable pub is_boundary : TokenKind → Bool
is_boundary newline = true
is_boundary end_kw = true
is_boundary else_kw = true
is_boundary eof = true
is_boundary _ = false

-- The kinds at which `synchronize_statement` stops.
unfoldable pub is_statement_start : TokenKind → Bool
is_statement_start newline = true
is_statement_start end_kw = true
is_statement_start else_kw = true
is_statement_start fn_kw = true
is_statement_start let_kw = true
is_statement_start mut_kw = true
is_statement_start if_kw = true
is_statement_start loop_kw = true
is_statement_start while_kw = true
is_statement_start ret_kw = true
is_statement_start eof = true
is_statement_start _ = false

-- The kinds at which `synchronize_item` stops.
unfoldable pub is_item_start : TokenKind → Bool
is_item_start fn_kw = true
is_item_start use_kw = true
is_item_start eof = true
is_item_start _ = false

unfoldable pub is_skipped : TokenKind → Bool
is_skipped comment = true
is_skipped newline = true
is_skipped _ = false

-- A round that took a token is followed by another.
abbrev pub moved : Run (Token × Parser) → Run (Flow Parser (Unit {0} × Parser))
moved (done (t, s)) = done (next s)
moved panic = panic
moved out_of_fuel = out_of_fuel

module _ (tokens : List Token) (file_path : Bytes) (source_file_id : ℕ) where
  unfoldable pub current : Parse Token
  current s = or_run (get_elem? tokens s.index) s
    where
      or_run : Option Token → Parse Token
      or_run none s = panic
      or_run (some t) s = done (t, s)

  -- `self.current().kind`
  unfoldable pub kind : Parse TokenKind
  kind = do t ← current; pure t.kind

  unfoldable pub previous_span : Parse Span
  previous_span s =
      if s.index == 0
      then and_then (current s) (λ t. pure t.span)
      else and_then (current (record s { index = s.index - 1 })) (λ t _. done (t.span, s))

  unfoldable pub bump : Parse Token
  bump s = and_then (current s) λ t s.
      done (t, if ltb (s.index + 1) (length tokens) then record s { index = s.index + 1 } else s)

  unfoldable pub at : TokenKind → Parse Bool
  at k = do c ← kind; pure (is_kind c k)

  unfoldable pub peek_kind : ℕ → Parse TokenKind
  peek_kind offset s = done (kind_or_eof (get_elem? tokens (s.index + offset)), s)
    where
      kind_or_eof : Option Token → TokenKind
      kind_or_eof none = eof
      kind_or_eof (some t) = t.kind

  -- After a hundred errors one more says so, and no others are kept.
  unfoldable pub error : Bytes → Bytes → Span → Parse (Unit {0})
  error code message sp s =
      let add : Bytes → Bytes → Parser = λ c m. record s {
        diagnostics = s.diagnostics ++ error_at c m file_path source_file_id sp ∷ [];
      } in
      done (
        tt,
        if ltb (length s.diagnostics) 100
            then add code message
            else if length s.diagnostics == 100
            then add (text "E9999") (text "too many errors, stopping")
            else s,
      )

  unfoldable pub expect : TokenKind → Parse (Option Token)
  expect k = do
    b ← at k
    if b
        then (do t ← bump; pure (some t))
        else (do t ← current; error (text "E0206") (text "expected " ++ debug k) t.span; pure none)

  unfoldable pub is_statement_boundary : Parse Bool
  is_statement_boundary = do k ← kind; pure (is_boundary k)

  unfoldable pub starts_arg : Parse Bool
  starts_arg = do k ← kind; pure (is_arg_start k)

  unfoldable pub bump_round : (TokenKind → Bool) → Parser → Run (Flow Parser (Unit {0} × Parser))
  bump_round test s = elim (kind s) [
    | done (k, s') ↦ if test k then moved (bump s') else done (exit (tt, s'))
    | panic ↦ panic
    | out_of_fuel ↦ out_of_fuel
  ]

  -- `while test(self.current().kind) { self.bump(); }`: each round but the last one moves the
  -- index.
  unfoldable pub bump_while : (TokenKind → Bool) → Parse (Unit {0})
  bump_while test s = loop (length tokens + 1) (bump_round test) s

  abbrev pub consume_statement_end : Parse (Unit {0})
  consume_statement_end = bump_while is_skipped

  abbrev pub synchronize_statement : Parse (Unit {0})
  synchronize_statement = bump_while (λ k. not (is_statement_start k))

  abbrev pub synchronize_item : Parse (Unit {0})
  synchronize_item = bump_while (λ k. not (is_item_start k))
