-- ===== src/Token/Keywords.antt =====
-- What `keyword_kind` of token.rs recognises: exactly the words that are written out here, each
-- as its own kind.
use snap_surf_lang.Prelude.{
  Bytes, text, text_eq, text_eq_iff, Option, none, some, ◌≡◌, refl, true, Bool, within, [], ◌∷◌,
  ◌↔◌, false, if◌then◌else◌, if_both, arith,
}
use snap_surf_lang.Token.{
  TokenKind, fn_kw, let_kw, mut_kw, const_kw, static_kw, ret_kw, if_kw, else_kw, loop_kw, while_kw,
  break_kw, continue_kw, use_kw, module_kw, package_kw, version_kw, type_kw, target_kw, runtime_kw,
  entry_kw, requires_kw, dep_kw, end_kw, unsafe_kw, extern_kw, asm_kw, true_kw, false_kw, and_kw,
  or_kw, not_kw, plus, minus, star, slash, percent, eq, eq_eq, bang_eq, lt, lt_eq, gt, gt_eq, arrow,
  l_paren, r_paren, l_bracket, r_bracket, comma, dot, colon, newline, eof, keyword_kind,
}

-- The one text of a kind that is written in one way only.
abbrev pub spelling : TokenKind → Option Bytes
spelling fn_kw = some (text "fn")
spelling let_kw = some (text "let")
spelling mut_kw = some (text "mut")
spelling const_kw = some (text "const")
spelling static_kw = some (text "static")
spelling ret_kw = some (text "ret")
spelling if_kw = some (text "if")
spelling else_kw = some (text "else")
spelling loop_kw = some (text "loop")
spelling while_kw = some (text "while")
spelling break_kw = some (text "break")
spelling continue_kw = some (text "continue")
spelling use_kw = some (text "use")
spelling module_kw = some (text "module")
spelling package_kw = some (text "package")
spelling version_kw = some (text "version")
spelling type_kw = some (text "type")
spelling target_kw = some (text "target")
spelling runtime_kw = some (text "runtime")
spelling entry_kw = some (text "entry")
spelling requires_kw = some (text "requires")
spelling dep_kw = some (text "dep")
spelling end_kw = some (text "end")
spelling unsafe_kw = some (text "unsafe")
spelling extern_kw = some (text "extern")
spelling asm_kw = some (text "asm")
spelling true_kw = some (text "true")
spelling false_kw = some (text "false")
spelling and_kw = some (text "and")
spelling or_kw = some (text "or")
spelling not_kw = some (text "not")
spelling plus = some (text "+")
spelling minus = some (text "-")
spelling star = some (text "*")
spelling slash = some (text "/")
spelling percent = some (text "%")
spelling eq = some (text "=")
spelling eq_eq = some (text "==")
spelling bang_eq = some (text "!=")
spelling lt = some (text "<")
spelling lt_eq = some (text "<=")
spelling gt = some (text ">")
spelling gt_eq = some (text ">=")
spelling arrow = some (text "->")
spelling l_paren = some (text "(")
spelling r_paren = some (text ")")
spelling l_bracket = some (text "[")
spelling r_bracket = some (text "]")
spelling comma = some (text ",")
spelling dot = some (text ".")
spelling colon = some (text ":")
spelling newline = some (text "\n")
spelling eof = some (text "")
spelling _ = none

-- A keyword is a kind that is spelled with a letter first.
abbrev pub is_word : Option Bytes → Bool
is_word none = false
is_word (some []) = false
is_word (some (c ∷ _)) = within b'a' b'z' c

abbrev Spells : Bytes → Option TokenKind → Type 0
Spells t none = Unit
Spells t (some k) = (is_word (spelling k) ≡ true) × (spelling k ≡ some t)

-- One test of the ladder in `keyword_kind`.
Spells-if :
    (t w : Bytes) (k : TokenKind) (rest : Option TokenKind)
    → Spells w (some k)
    → Spells t rest
    → Spells t (if text_eq t w then some k else rest)
Spells-if t w k rest h r =
    if_both (Spells t) (text_eq t w) (λ e. rw ((text_eq_iff t w).0 e) h) (λ _. r)

keyword_kind-Spells : (t : Bytes) → Spells t (keyword_kind t)
unfolding keyword_kind
keyword_kind-Spells t =
    Spells-if _ _ _ _ (refl, refl)
      (Spells-if _ _ _ _ (refl, refl)
        (Spells-if _ _ _ _ (refl, refl)
          (Spells-if _ _ _ _ (refl, refl)
            (Spells-if _ _ _ _ (refl, refl)
              (Spells-if _ _ _ _ (refl, refl)
                (Spells-if _ _ _ _ (refl, refl)
                  (Spells-if _ _ _ _ (refl, refl)
                    (Spells-if _ _ _ _ (refl, refl)
                      (Spells-if _ _ _ _ (refl, refl)
                        (Spells-if _ _ _ _ (refl, refl)
                          (Spells-if _ _ _ _ (refl, refl)
                            (Spells-if _ _ _ _ (refl, refl)
                              (Spells-if _ _ _ _ (refl, refl)
                                (Spells-if _ _ _ _ (refl, refl)
                                  (Spells-if _ _ _ _ (refl, refl)
                                    (Spells-if _ _ _ _ (refl, refl)
                                      (Spells-if _ _ _ _ (refl, refl)
                                        (Spells-if _ _ _ _ (refl, refl)
                                          (Spells-if _ _ _ _ (refl, refl)
                                            (Spells-if _ _ _ _ (refl, refl)
                                              (Spells-if _ _ _ _ (refl, refl)
                                                (Spells-if _ _ _ _ (refl, refl)
                                                  (Spells-if _ _ _ _ (refl, refl)
                                                    (Spells-if _ _ _ _ (refl, refl)
                                                      (Spells-if _ _ _ _ (refl, refl)
                                                        (Spells-if _ _ _ _ (refl, refl)
                                                          (Spells-if _ _ _ _ (refl, refl)
                                                            (Spells-if _ _ _ _ (refl, refl)
                                                            (Spells-if _ _ _ _ (refl, refl)
                                                            (Spells-if _ _ _ _ (refl, refl)
                                                            tt))))))))))))))))))))))))))))))

abbrev keyword_of : Option Bytes → Option TokenKind
keyword_of none = none
keyword_of (some t) = keyword_kind t

keyword_of-spelling :
    (k : TokenKind) → is_word (spelling k) ≡ true → keyword_of (spelling k) ≡ some k
unfolding keyword_kind text_eq
keyword_of-spelling fn_kw h = refl
keyword_of-spelling _ h = ground arith

-- A text is recognised as the kind `k` exactly when `k` is a keyword and the text is how it is
-- written.
pub keyword_kind_iff :
    (t : Bytes) (k : TokenKind)
    → (keyword_kind t ≡ some k) ↔ ((is_word (spelling k) ≡ true) × (spelling k ≡ some t))
keyword_kind_iff t k =
    (λ e. rw e at (keyword_kind-Spells t), λ h. rw h.1 at (keyword_of-spelling k h.0))
