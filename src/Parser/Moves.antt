-- ===== src/Parser/Moves.antt =====
-- How the operations of parser.rs move through tokens that end in `Eof`.
use snap_surf_lang.Prelude.{
  ℕ, ◌+◌, ◌<◌, ◌≤◌, Bytes, text, Bool, true, false, List, [], ◌∷◌, ◌++◌, none, some, ◌≡◌, ◌≢◌, refl,
  inl, inr, ltb, ◌==◌, if◌then◌else◌, length, get_elem?, get_elem?-some, Run, done, panic,
  out_of_fuel, Post, arith, Bool-cases,
}
use snap_surf_lang.Diagnostic.{Span, error_at}
use snap_surf_lang.Token.{TokenKind, TokenKind-discrete, Token, eof}
use snap_surf_lang.Parser.Cursor.{
  Parser, Parse, and_then, current, kind, bump, at, error, expect, starts_arg, is_arg_start,
  is_kind,
}

-- The last token is `Eof`.
abbrev pub EndsInEof : List Token → Type 0
EndsInEof tokens =
    (n : ℕ) × (t : Token) × (length tokens ≡ n + 1) × (get_elem? tokens n ≡ some t) × (t.kind ≡ eof)

false-ne-true : false ≡ true → ⊥
false-ne-true h = cc

ltb→lt : (a b : ℕ) → ltb a b ≡ true → a < b
ltb→lt a b h = ground arith

ltb→ge : (a b : ℕ) → ltb a b ≡ false → b ≤ a
ltb→ge a b h = ground arith

pub and_then-Post {ℓ κ} :
    {A : Type ℓ} {B : Type κ} (X : Type 0) (P : A × Parser → Type 0) (Q : B × Parser → Type 0)
    (r : Run (A × Parser)) (f : A → Parse B)
    → Post X P r
    → ((a : A) (s : Parser) → P (a, s) → Post X Q (f a s))
    → Post X Q (and_then r f)
and_then-Post X P Q (done (a, s)) f h k = k a s h
and_then-Post X P Q panic f h k = h
and_then-Post X P Q out_of_fuel f h k = absurd h

module _ (tokens : List Token) (file_path : Bytes) (source_file_id : ℕ) where
  -- The state stands at a token.
  abbrev pub InTokens : Parser → Type 0
  InTokens s = s.index < length tokens

  -- The second state stands at a token, not in front of the first one.
  abbrev pub Went : Parser → Parser → Type 0
  Went s s' = InTokens s' × (s.index ≤ s'.index)

  -- It went on, and by at least one token where that was not `Eof`.
  abbrev pub Took : TokenKind → Parser → Parser → Type 0
  Took k s s' = Went s s' × (k ≢ eof → s.index < s'.index)

  -- The kind of the current token.
  abbrev pub StandsAt : TokenKind → Parser → Type 0
  StandsAt k s = (t : Token) × (get_elem? tokens s.index ≡ some t) × (t.kind ≡ k)

  pub token_at : (s : Parser) → InTokens s → (t : Token) × (get_elem? tokens s.index ≡ some t)
  token_at s i = get_elem?-some tokens s.index i

  pub current-eq :
      (s : Parser) (t : Token)
      → get_elem? tokens s.index ≡ some t
      → current tokens file_path source_file_id s ≡ done (t, s)
  unfolding current
  current-eq s t q = rw q refl

  pub kind-eq :
      (s : Parser) (k : TokenKind)
      → StandsAt k s
      → kind tokens file_path source_file_id s ≡ done (k, s)
  unfolding kind
  kind-eq s k (t, q, e) = rw (current-eq s t q, e) refl

  pub stands_at : (s : Parser) → InTokens s → (k : TokenKind) × StandsAt k s
  stands_at s i = let (t, q) = token_at s i in (t.kind, (t, q, refl))

  last_kind :
      EndsInEof tokens
      → (s : Parser) (k : TokenKind) → StandsAt k s
      → s.index + 1 ≡ length tokens
      → k ≡ eof
  last_kind (n, u, len, at_n, is_eof) s k (t, q, e) l = ends_so (omega (arith, len, l)) q
    where
      ends_so : s.index ≡ n → get_elem? tokens s.index ≡ some t → k ≡ eof
      ends_so m q = let same : some u ≡ some t = cc in let u_t : u ≡ t = cc in cc

  pub bump-Took :
      (X : Type 0) (s : Parser) (k : TokenKind)
      → EndsInEof tokens
      → InTokens s
      → StandsAt k s
      → Post X
          (λ r. Took k s r.1 × (get_elem? tokens s.index ≡ some r.0))
          (bump tokens file_path source_file_id s)
  unfolding bump
  bump-Took X s k ends i (t, q, e) =
      rw (current-eq s t q) (elim (Bool-cases (ltb (s.index + 1) (length tokens))) [
        | inl lt ↦ rw lt (((ltb→lt _ _ lt, omega arith), λ ne. omega arith), q)
        | inr ge ↦ rw ge (
          (
            (i, omega arith),
            λ ne. absurd (ne (last_kind ends s k (t, q, e) (omega (arith, ltb→ge _ _ ge, i)))),
          ),
          q,
        )
      ])

  pub error-Went :
      (X : Type 0) (code message : Bytes) (sp : Span) (s : Parser)
      → InTokens s
      → Post X (λ r. Went s r.1) (error tokens file_path source_file_id code message sp s)
  unfolding error
  error-Went X code message sp s i =
      go (ltb (length s.diagnostics) 100) (length s.diagnostics == 100)
    where
      go :
          (a b : Bool)
          → Went s (
              if a
              then record s {
                diagnostics =
                    s.diagnostics ++ error_at code message file_path source_file_id sp ∷ [];
              }
              else if b
              then record s {
                diagnostics =
                    s.diagnostics
                    ++ error_at
                        (text "E9999")
                        (text "too many errors, stopping")
                        file_path
                        source_file_id
                        sp
                      ∷ [];
              }
              else s)
      go true b = (i, omega arith)
      go false true = (i, omega arith)
      go false false = (i, omega arith)

  pub starts_arg-eq :
      (s : Parser) (k : TokenKind)
      → StandsAt k s
      → starts_arg tokens file_path source_file_id s ≡ done (is_arg_start k, s)
  unfolding starts_arg
  starts_arg-eq s k h = rw (kind-eq s k h) refl

  pub at-eq :
      (s : Parser) (k j : TokenKind)
      → StandsAt k s
      → at tokens file_path source_file_id j s ≡ done (is_kind k j, s)
  unfolding at
  at-eq s k j h = rw (kind-eq s k h) refl

  -- What `expect` gives: a token where the kind is there.
  pub expect-Went :
      (X : Type 0) (s : Parser) (k j : TokenKind)
      → EndsInEof tokens
      → InTokens s
      → StandsAt k s
      → Post X
          (λ r. Went s r.1 × (is_kind k j ≡ true → (k ≢ eof → s.index < r.1.index) × (r.0 ≢ none)))
          (expect tokens file_path source_file_id j s)
  unfolding expect
  expect-Went X s k j ends i h = rw (at-eq s k j h) (elim (Bool-cases (is_kind k j)) [
    | inl q ↦ rw q (
        and_then-Post X (λ r. Took k s r.1 × (get_elem? tokens s.index ≡ some r.0)) _
          (bump tokens file_path source_file_id s) _ (bump-Took X s k ends i h)
          λ t s' ((w, m), c). (w, λ z. (m, λ n. cc)))
    | inr q ↦ rw q (
        let (t, c) = token_at s i in
        rw (current-eq s t c) (
          and_then-Post X (λ r. Went s r.1) _ (error tokens file_path source_file_id _ _ t.span s) _
            (error-Went X _ _ t.span s i) λ u s' w. (w, λ z. absurd (false-ne-true z))))
  ])

pub is_kind_refl : (k : TokenKind) → is_kind k k ≡ true
unfolding is_kind
is_kind_refl k = go (TokenKind-discrete k k)
  where
    go : (d : Dec (k ≡ k)) → elim d [ yes _ ↦ true | no _ ↦ false ] ≡ true
    go (yes p) = refl
    go (no n) = absurd (n refl)
