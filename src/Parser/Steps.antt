-- ===== src/Parser/Steps.antt =====
-- Steps of parser.rs that end and never go back: what they are, and that they compose.
use snap_surf_lang.Prelude.{
  ℕ, suc, ◌+◌, ◌-◌, ◌*◌, ◌<◌, ◌≤◌, Bytes, Bool, true, false, List, [], ◌∷◌, Option, none, some, ◌≡◌,
  ◌≢◌, inl, inr, ◌==◌, length, Run, done, panic, out_of_fuel, Flow, Post, Post-weaken, Round,
  loop-Post, arith, Bool-cases,
}
use snap_surf_lang.Diagnostic.{Span}
use snap_surf_lang.Token.{TokenKind, Token, eof, ident, star}
use snap_surf_lang.Ast.{PathSep}
use snap_surf_lang.Parser.Cursor.{
  Parser, Parse, moved, pure, ◌>>=◌, and_then, try, current, bump, at, peek_kind, previous_span,
  error, expect, bump_round, bump_while, is_statement_boundary,
}
use snap_surf_lang.Parser.Exprs.{parse_path, parse_type_ref, parse_expr}
use snap_surf_lang.Parser.Moves.{
  EndsInEof, and_then-Post, token_at, stands_at, current-eq, kind-eq, at-eq, error-Went, bump-Took,
}
use snap_surf_lang.Parser.Primary.{
  HasBadString, In, On, At, left, taking, weaken, expect-Post, path_segments-Post,
}
use snap_surf_lang.Parser.Total.{parse_expr-Post}

module _ (tokens : List Token) (file_path : Bytes) (source_file_id : ℕ)
    (ends : EndsInEof tokens) where
  abbrev X : Type 0
  X = HasBadString tokens file_path source_file_id ends

  abbrev I : Parser → Type 0
  I = In tokens file_path source_file_id ends

  abbrev O : Parser → Parser → Type 0
  O = On tokens file_path source_file_id ends

  abbrev L : Parser → ℕ
  L = left tokens file_path source_file_id ends

  -- From a state with at most so many tokens left, the step ends at a token that is not in front.
  unfoldable pub Steps {ℓ} : {A : Type ℓ} → ℕ → Parse A → Type 0
  Steps n m = (s : Parser) → I s → L s ≤ n → Post X (λ r. O s r.1) (m s)

  pub pure-Steps {ℓ} : {A : Type ℓ} (n : ℕ) (a : A) → Steps n (pure a)
  unfolding Steps
  pure-Steps n a s i b = (i, omega arith)

  pub bind-Steps {ℓ κ} :
      {A : Type ℓ} {B : Type κ} (n : ℕ) (m : Parse A) (f : A → Parse B)
      → Steps n m
      → ((a : A) → Steps n (f a))
      → Steps n (m >>= f)
  unfolding Steps
  bind-Steps n m f h k s i b =
      and_then-Post X (λ r. O s r.1) (λ r. O s r.1) (m s) f (h s i b)
        λ a s' w.
          Post-weaken X (λ r. O s' r.1) (λ r. O s r.1) (f a s')
            (λ r v. (v.0, omega (arith, w.1, v.1))) (k a s' w.0 (omega (arith, b, w.1)))

  -- A step from a later state.
  pub after-Steps {ℓ} :
      {A : Type ℓ} (n : ℕ) (m : Parse A) (s s' : Parser)
      → Steps n m
      → O s s'
      → L s' ≤ n
      → Post X (λ r. O s r.1) (m s')
  unfolding Steps
  after-Steps n m s s' h w b =
      Post-weaken X (λ r. O s' r.1) (λ r. O s r.1) (m s') (λ r v. (v.0, omega (arith, w.1, v.1)))
        (h s' w.0 b)

  pub try-Steps {ℓ κ} :
      {A : Type ℓ} {B : Type κ} (n : ℕ) (m : Parse (Option A)) (f : A → Parse (Option B))
      → Steps n m
      → ((a : A) → Steps n (f a))
      → Steps n (try m f)
  try-Steps {B} n m f h k = bind-Steps n m _ h λ o.
      elim o as (λ o. Steps n (elim o [ none ↦ pure none | some a ↦ f a ])) [
        | none ↦ pure-Steps {A = Option B} n none
        | some a ↦ k a
      ]

  pub current-Steps : (n : ℕ) → Steps n (current tokens file_path source_file_id)
  unfolding Steps
  current-Steps n s i b =
      let (t, q) = token_at tokens file_path source_file_id s i in
      rw (current-eq tokens file_path source_file_id s t q) (i, omega arith)

  pub at-Steps : (n : ℕ) (k : TokenKind) → Steps n (at tokens file_path source_file_id k)
  unfolding Steps
  at-Steps n k s i b =
      let (j, h) = stands_at tokens file_path source_file_id s i in
      rw (at-eq tokens file_path source_file_id s j k h) (i, omega arith)

  pub peek_kind-Steps : (n k : ℕ) → Steps n (peek_kind tokens file_path source_file_id k)
  unfolding peek_kind Steps
  peek_kind-Steps n k s i b = (i, omega arith)

  pub error-Steps :
      (n : ℕ) (code message : Bytes) (sp : Span)
      → Steps n (error tokens file_path source_file_id code message sp)
  unfolding Steps
  error-Steps n code message sp s i b =
      error-Went tokens file_path source_file_id X code message sp s i

  pub expect-Steps : (n : ℕ) (k : TokenKind) → Steps n (expect tokens file_path source_file_id k)
  unfolding Steps
  expect-Steps n k s i b = expect-Post tokens file_path source_file_id ends s k i

  pub bump-Steps : (n : ℕ) → Steps n (bump tokens file_path source_file_id)
  unfolding Steps
  bump-Steps n s i b =
      let (k, h) = stands_at tokens file_path source_file_id s i in
      Post-weaken X _ (λ r. O s r.1) _ (λ r w. w.0.0)
        (bump-Took tokens file_path source_file_id X s k ends i h)

  pub is_statement_boundary-Steps :
      (n : ℕ) → Steps n (is_statement_boundary tokens file_path source_file_id)
  unfolding is_statement_boundary Steps
  is_statement_boundary-Steps n s i b =
      let (k, h) = stands_at tokens file_path source_file_id s i in
      rw (kind-eq tokens file_path source_file_id s k h) (i, omega arith)

  pub previous_span-Steps : (n : ℕ) → Steps n (previous_span tokens file_path source_file_id)
  unfolding previous_span Steps
  previous_span-Steps n s i b = elim (Bool-cases (s.index == 0)) [
    | inl q ↦
        let (t, c) = token_at tokens file_path source_file_id s i in
        rw (q, current-eq tokens file_path source_file_id s t c) (i, omega arith)
    | inr q ↦
        let before : Parser = record s { index = s.index - 1 } in
        let (t, c) = token_at tokens file_path source_file_id before (omega (arith, i)) in
        rw (q, current-eq tokens file_path source_file_id before t c) (i, omega arith)
  ]

  pub expr-Steps :
      (n : ℕ) → Steps n (parse_expr tokens file_path source_file_id (5 * length tokens) 0)
  unfolding Steps
  expr-Steps n s i b =
      let (k, h) = stands_at tokens file_path source_file_id s i in
      weaken tokens file_path source_file_id ends k s _ (
        parse_expr-Post tokens file_path source_file_id ends (5 * length tokens) 0 s k i h
          (omega arith))

  -- A token other than `Eof` is taken first, and the rest has one token less.
  pub taking-Steps {ℓ} :
      {B : Type ℓ} (n : ℕ) (s : Parser) (k : TokenKind) (f : Token → Parse B)
      → I s
      → At tokens file_path source_file_id ends k s
      → k ≢ eof
      → L s ≤ suc n
      → ((t : Token) → Steps n (f t))
      → Post X (λ r. O s r.1) (and_then (bump tokens file_path source_file_id s) f)
  unfolding Steps
  taking-Steps n s k f i h ne b rest =
      taking tokens file_path source_file_id ends (λ r. O s r.1) s k f i h
        λ t s' w c.
          let m = w.1 ne in
          Post-weaken X (λ r. O s' r.1) (λ r. O s r.1) (f t s')
            (λ r v. (v.0, omega (arith, m, v.1))) (rest t s' w.0.0 (omega (arith, b, m)))

  -- What a loop that skips tokens keeps.
  abbrev Skips : Parser → Parser → Type 0
  Skips s₀ s = I s × (s₀.index ≤ s.index)

  abbrev SkipRound : Parser → Parser → Flow Parser (Unit {0} × Parser) → Type 0
  SkipRound s₀ s = Round (Skips s₀) (λ r. O s₀ r.1) L (L s)

  moved-Post :
      (s s₀ : Parser) (m : Run (Token × Parser))
      → s₀.index ≤ s.index
      → I s
      → Post X (λ r. O s r.1 × (s.index < r.1.index)) m
      → Post X (SkipRound s₀ s) (moved m)
  moved-Post s s₀ (done (t, s')) b i (w, lt) =
      ((w.0, omega (arith, b, lt)), omega (arith, i, lt, w.0))
  moved-Post s s₀ panic b i h = h
  moved-Post s s₀ out_of_fuel b i h = h

  -- Such a loop ends at the latest at `Eof`.
  bump_round-Post :
      (test : TokenKind → Bool) (s₀ : Parser)
      → test eof ≡ false
      → (s : Parser) → Skips s₀ s
      → Post X (SkipRound s₀ s) (bump_round tokens file_path source_file_id test s)
  unfolding bump_round
  bump_round-Post test s₀ e s (i, b) =
      let (k, h) = stands_at tokens file_path source_file_id s i in
      rw (kind-eq tokens file_path source_file_id s k h, Post)
        (elim (Bool-cases (test k)) [
          | inl q ↦
              rw (q, Post)
                (moved-Post s s₀ (bump tokens file_path source_file_id s) b i (
                  Post-weaken X _ (λ r. O s r.1 × (s.index < r.1.index)) _
                    (λ r w. (w.0.0, w.0.1 (λ z. clash (rw z at q))))
                    (bump-Took tokens file_path source_file_id X s k ends i h)))
          | inr q ↦ rw (q, Post) (i, b)
        ])
    where
      clash : test eof ≡ true → ⊥
      clash q = cc

  pub bump_while-Steps :
      (n : ℕ) (test : TokenKind → Bool)
      → test eof ≡ false
      → Steps n (bump_while tokens file_path source_file_id test)
  unfolding bump_while Steps
  bump_while-Steps n test e s i b =
      loop-Post X (Skips s) (λ r. O s r.1) L (bump_round tokens file_path source_file_id test)
        (bump_round-Post test s e) (length tokens + 1) s (omega arith) (i, omega arith)

  pub parse_path-Steps : (n : ℕ) → Steps n (parse_path tokens file_path source_file_id)
  unfolding parse_path Steps
  parse_path-Steps n = try-Steps n _ _ (expect-Steps n ident) λ t s i b.
      Post-weaken X _ (λ r. O s r.1) _ (λ r e. e.0)
        (path_segments-Post tokens file_path source_file_id ends (suc (length tokens)) t.span
          (t.lexeme ∷ []) PathSep.single t.span s i (omega arith))

  pub branch-Steps {ℓ} :
      {A : Type ℓ} (n : ℕ) (b : Bool) (m m' : Parse A)
      → Steps n m
      → Steps n m'
      → Steps n (elim b [ true ↦ m | false ↦ m' ])
  branch-Steps n true m m' h h' = h
  branch-Steps n false m m' h h' = h'

  pub option-Steps {ℓ κ} :
      {A : Type ℓ} {B : Type κ} (n : ℕ) (o : Option A) (m : Parse B) (f : A → Parse B)
      → Steps n m
      → ((a : A) → Steps n (f a))
      → Steps n (elim o [ none ↦ m | some a ↦ f a ])
  option-Steps n none m f h k = h
  option-Steps n (some a) m f h k = k a

  pub parse_type_ref-Steps : (n : ℕ) → Steps n (parse_type_ref tokens file_path source_file_id)
  unfolding parse_type_ref
  parse_type_ref-Steps n = bind-Steps n _ _ (current-Steps n) λ start.
      bind-Steps n _ _ (at-Steps n star) λ b.
        branch-Steps n b _ _
          (bind-Steps n _ _ (bump-Steps n)
            λ t. try-Steps n _ _ (expect-Steps n ident) λ name. pure-Steps n _)
          (try-Steps n _ _ (expect-Steps n ident) λ name. pure-Steps n _)

  -- The same at a token of a given kind, with one token more.
  unfoldable pub StepsAt {ℓ} : {A : Type ℓ} → ℕ → TokenKind → Parse A → Type 0
  StepsAt n k m =
      (s : Parser)
      → I s
      → At tokens file_path source_file_id ends k s
      → L s ≤ suc n
      → Post X (λ r. O s r.1) (m s)

  pub any-StepsAt {ℓ} :
      {A : Type ℓ} (n : ℕ) (k : TokenKind) (m : Parse A) → Steps (suc n) m → StepsAt n k m
  unfolding Steps StepsAt
  any-StepsAt n k m h s i at b = h s i b

  pub take-StepsAt {ℓ} :
      {B : Type ℓ} (n : ℕ) (k : TokenKind) (f : Token → Parse B)
      → k ≢ eof
      → ((t : Token) → Steps n (f t))
      → StepsAt n k (bump tokens file_path source_file_id >>= f)
  unfolding StepsAt
  take-StepsAt n k f ne rest s i h b = taking-Steps n s k f i h ne b rest

  branch-StepsAt {ℓ} :
      {A : Type ℓ} (n : ℕ) (k : TokenKind) (b : Bool) (m m' : Parse A)
      → StepsAt n k m
      → StepsAt n k m'
      → StepsAt n k (elim b [ true ↦ m | false ↦ m' ])
  branch-StepsAt n k true m m' h h' = h
  branch-StepsAt n k false m m' h h' = h'

  -- Looking ahead moves nothing.
  pub peek_kind-StepsAt {ℓ} :
      {A : Type ℓ} (n : ℕ) (k : TokenKind) (offset : ℕ) (test : TokenKind → Bool) (m m' : Parse A)
      → StepsAt n k m
      → StepsAt n k m'
      → StepsAt n k (
          peek_kind tokens file_path source_file_id offset >>= λ j. elim (test j) [
            | true ↦ m
            | false ↦ m'
          ])
  unfolding peek_kind StepsAt
  peek_kind-StepsAt n k offset test m m' h h' s i at b = branch-StepsAt n k _ m m' h h' s i at b
