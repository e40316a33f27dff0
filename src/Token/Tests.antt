-- ===== src/Token/Tests.antt =====
-- Runs of `keyword_kind` of token.rs.
use snap_surf_lang.Prelude.{text, some, true, ◌≡◌, ◌↔◌}
use snap_surf_lang.Token.{while_kw, keyword_kind}
use snap_surf_lang.Token.Keywords.{spelling, is_word, keyword_kind_iff}

keyword_kind_iff_example :
    (keyword_kind (text "while") ≡ some while_kw)
    ↔ ((is_word (spelling while_kw) ≡ true) × (spelling while_kw ≡ some (text "while")))
keyword_kind_iff_example = keyword_kind_iff (text "while") while_kw
