-- ===== src/Parser/Closed.antt =====
-- The loop of `parse_block` in parser.rs ends: fuel of one round for each token is enough.
use snap_surf_lang.Prelude.{
  ℕ, suc, zero, ◌<◌, ◌≤◌, Bytes, true, false, List, Option, ◌≡◌, ◌≢◌, inl, inr, ◌==◌, length, Post,
  Post-weaken, arith, Bool-cases, done,
}
use snap_surf_lang.Token.{TokenKind, Token, eof}
use snap_surf_lang.Ast.{Stmt, Stmts}
use snap_surf_lang.Parser.Cursor.{Parser, Parse, and_then, error, consume_statement_end}
use snap_surf_lang.Parser.Stmts.{
  and_more, ends_block, check_progress, block_of, parse_statements, parse_block,
}
use snap_surf_lang.Parser.Moves.{EndsInEof, and_then-Post, stands_at, kind-eq, error-Went}
use snap_surf_lang.Parser.Primary.{HasBadString, In, On, At, left, taking}
use snap_surf_lang.Parser.Steps.{Steps, current-Steps}
use snap_surf_lang.Parser.Blocks.{ends_block-ne, skip-Steps, parse_statement-Steps}

eq-of-== : (a b : ℕ) → (a == b) ≡ true → a ≡ b
eq-of-== a b h = ground arith

ne-of-== : (a b : ℕ) → (a == b) ≡ false → a ≢ b
ne-of-== a b h = ground arith

module _ (tokens : List Token) (file_path : Bytes) (source_file_id : ℕ)
    (ends : EndsInEof tokens) where
  abbrev Goes {ℓ} : {A : Type ℓ} → Parser → (Parser → Type 0) → A × Parser → Type 0
  Goes s P r = On tokens file_path source_file_id ends s r.1 × P r.1

  abbrev Bad : Type 0
  Bad = HasBadString tokens file_path source_file_id ends

  -- A state at a kind that ends a block.
  abbrev pub Closes : Parser → Type 0
  Closes s = (k : TokenKind) × At tokens file_path source_file_id ends k s × (ends_block k ≡ true)

  stands_still :
      (k : TokenKind) (s s' : Parser)
      → At tokens file_path source_file_id ends k s
      → s'.index ≡ s.index
      → At tokens file_path source_file_id ends k s'
  stands_still k s s' (t, q, e) p = (t, rw p q, e)

  check_progress-Post :
      (k : TokenKind) (s s' : Parser)
      → At tokens file_path source_file_id ends k s
      → k ≢ eof
      → On tokens file_path source_file_id ends s s'
      → Post Bad
          (λ r. On tokens file_path source_file_id ends s' r.1 × (s.index < r.1.index))
          (check_progress tokens file_path source_file_id s.index s')
  unfolding check_progress
  check_progress-Post k s s' h ne (i, le) = elim (Bool-cases (s'.index == s.index)) [
    | inr q ↦ let n = ne-of-== _ _ q in rw (q, Post) ((i, omega arith), omega (arith, le, n))
    | inl q ↦
        let e = eq-of-== _ _ q in
        rw (q, Post)
          (taking tokens file_path source_file_id ends
            (λ r. On tokens file_path source_file_id ends s' r.1 × (s.index < r.1.index)) s' k _ i
            (stands_still k s s' h e)
            λ t s'' w c.
              let m = w.1 ne in
              Post-weaken Bad (λ r. On tokens file_path source_file_id ends s'' r.1)
                (λ r. On tokens file_path source_file_id ends s' r.1 × (s.index < r.1.index))
                (error tokens file_path source_file_id _ _ t.span s'')
                (λ r v. ((v.0, omega (arith, m, v.1)), omega (arith, m, v.1, e)))
                (error-Went tokens file_path source_file_id Bad _ _ t.span s'' w.0.0))
  ]

  -- What follows a step, from the state it ends in.
  then-Goes {ℓ κ} :
      {A : Type ℓ} {B : Type κ} (P : Parser → Type 0) (n : ℕ) (m : Parse A) (f : A → Parse B)
      (s : Parser)
      → Steps tokens file_path source_file_id ends n m
      → In tokens file_path source_file_id ends s
      → left tokens file_path source_file_id ends s ≤ n
      → ((a : A) (s' : Parser)
          → On tokens file_path source_file_id ends s s'
          → Post Bad (Goes s' P) (f a s'))
      → Post Bad (Goes s P) (and_then (m s) f)
  unfolding Steps
  then-Goes P n m f s h i b k =
      and_then-Post Bad (λ r. On tokens file_path source_file_id ends s r.1) (Goes s P) (m s) f
        (h s i b)
        λ a s' w.
          Post-weaken Bad (Goes s' P) (Goes s P) (f a s')
            (λ r v. ((v.0.0, omega (arith, w.1, v.0.1)), v.1)) (k a s' w)

  abbrev pub Closing {ℓ} : {A : Type ℓ} → ℕ → Parse A → Type 0
  Closing n m =
      (s : Parser)
      → In tokens file_path source_file_id ends s
      → left tokens file_path source_file_id ends s ≤ n
      → Post Bad (Goes s Closes) (m s)

  block_of-Closing :
      (n : ℕ) (m : Parse Stmts)
      → Closing n m
      → Closing n (block_of tokens file_path source_file_id m)
  unfolding block_of
  block_of-Closing n m h s i b =
      then-Goes Closes n _ _ s (skip-Steps tokens file_path source_file_id ends n) i b λ u s' w.
        then-Goes Closes n _ _ s' (current-Steps tokens file_path source_file_id ends n) w.0
          (omega (arith, b, w.1))
          λ t s'' v.
            and_then-Post Bad (Goes s'' Closes) (Goes s'' Closes) (m s'') _
              (h s'' v.0 (omega (arith, b, w.1, v.1))) λ ss s3 x. x

  Closing-Steps {ℓ} :
      {A : Type ℓ} (n : ℕ) (m : Parse A)
      → Closing n m
      → Steps tokens file_path source_file_id ends n m
  unfolding Steps
  Closing-Steps n m h s i b = Post-weaken Bad (Goes s Closes) _ (m s) (λ r w. w.0) (h s i b)

  -- The rest of a round behind its statement.
  round_rest-Goes :
      (n : ℕ) (k : TokenKind) (s s' : Parser) (o : Option Stmt)
      → Closing n (parse_statements tokens file_path source_file_id n)
      → At tokens file_path source_file_id ends k s
      → k ≢ eof
      → left tokens file_path source_file_id ends s ≤ suc n
      → On tokens file_path source_file_id ends s s'
      → Post Bad (Goes s' Closes) (
          and_then (check_progress tokens file_path source_file_id s.index s') λ u s''.
            and_then (consume_statement_end tokens file_path source_file_id s'') λ v s3.
              and_then
                (parse_statements tokens file_path source_file_id n s3)
                λ rest s4. done (and_more o rest, s4))
  round_rest-Goes n k s s' o h at ne b w =
      and_then-Post Bad
        (λ r. On tokens file_path source_file_id ends s' r.1 × (s.index < r.1.index))
        (Goes s' Closes) (check_progress tokens file_path source_file_id s.index s') _
        (check_progress-Post k s s' at ne w)
        λ u s'' (x, lt).
          Post-weaken Bad (Goes s'' Closes) (Goes s' Closes) _
            (λ r v. ((v.0.0, omega (arith, x.1, v.0.1)), v.1))
            (then-Goes Closes n _ _ s'' (skip-Steps tokens file_path source_file_id ends n) x.0
              (omega (arith, b, lt))
              λ v s3 y.
                and_then-Post Bad (Goes s3 Closes) (Goes s3 Closes)
                  (parse_statements tokens file_path source_file_id n s3) _
                  (h s3 y.0 (omega (arith, b, lt, y.1))) λ rest s4 z. z)

  parse_statements-Closing :
      (n : ℕ) → Closing n (parse_statements tokens file_path source_file_id n)
  unfolding parse_statements
  parse_statements-Closing zero s i b = absurd (omega (arith, i, b))
  parse_statements-Closing (suc n) s i b =
      let (k, h) = stands_at tokens file_path source_file_id s i in
      rw (kind-eq tokens file_path source_file_id s k h) (elim (Bool-cases (ends_block k)) [
        | inl q ↦ rw (q, Post) ((i, omega arith), (k, h, q))
        | inr q ↦
            rw (q, Post)
              (then-Goes Closes (suc n) _ _ s
                (parse_statement-Steps tokens file_path source_file_id ends n _
                  (Closing-Steps n _ (block_of-Closing n _ (parse_statements-Closing n))))
                i b
                λ o s' w.
                  round_rest-Goes n k s s' o (parse_statements-Closing n) h (ends_block-ne q) b w)
      ])

  -- Parsing a block ends: on tokens that end in `Eof`, from any token, it never goes back or past
  -- the end, and stops at `Eof`, `end` or `else`. It panics only if one of the string tokens has a
  -- text that `decode_string` cannot decode.
  pub parse_block-Post :
      (s : Parser)
      → In tokens file_path source_file_id ends s
      → Post Bad (Goes s Closes) (parse_block tokens file_path source_file_id s)
  parse_block-Post s i =
      block_of-Closing (length tokens) _ (parse_statements-Closing (length tokens)) s i
        (omega arith)

  pub parse_block-Steps :
      (n : ℕ)
      → Steps tokens file_path source_file_id ends n (parse_block tokens file_path source_file_id)
  unfolding Steps
  parse_block-Steps n s i b =
      Post-weaken Bad (Goes s Closes) _ _ (λ r w. w.0) (parse_block-Post s i)
