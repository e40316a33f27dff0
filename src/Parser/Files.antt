-- ===== src/Parser/Files.antt =====
-- `parse` of parser.rs: it ends, or it reaches an `unsafe` at which its loop stays.
use snap_surf_lang.Prelude.{
  ℕ, suc, zero, ◌+◌, ◌<◌, ◌≤◌, Bytes, false, List, [], Option, none, some, ◌≡◌, ◌≢◌, refl, inl, inr,
  ◌⊎◌, length, Run, done, panic, out_of_fuel, Post, arith, Bool-cases,
}
use snap_surf_lang.Diagnostic.{Span, Diagnostic}
use snap_surf_lang.Token.{TokenKind, Token, eof, unsafe_kw, fn_kw}
use snap_surf_lang.Ast.{Item, SourceAst}
use snap_surf_lang.Parser.Cursor.{Parser, Parse, and_then, is_kind}
use snap_surf_lang.Parser.Items.{and_item, item_round, parse_items, begin, finish, parse}
use snap_surf_lang.Parser.Moves.{EndsInEof, stands_at, token_at, current-eq, kind-eq, is_kind_refl}
use snap_surf_lang.Parser.Primary.{HasBadString, In, On, At, left}
use snap_surf_lang.Parser.Steps.{Steps, bind-Steps, pure-Steps, current-Steps}
use snap_surf_lang.Parser.Blocks.{skip-Steps}
use snap_surf_lang.Parser.Params.{is_kind-true}
use snap_surf_lang.Parser.Stuck.{
  Stuck, Rounds, here, round, peek_kind-eq, parse_items-Stuck, parse_items-Rounds,
}
use snap_surf_lang.Parser.Rounds.{Moved, Free, item_round-Moved}

-- What holds of a result, of a panic and of a run that does not end.
abbrev pub Outcome {ℓ} : {A : Type ℓ} → Type 0 → Type 0 → (A → Type 0) → Run A → Type 0
Outcome X H P (done a) = P a
Outcome X H P panic = X
Outcome X H P out_of_fuel = H

post-Outcome {ℓ κ} :
    {A : Type ℓ} {B : Type κ} (X H : Type 0) (P : A × Parser → Type 0) (Q : B × Parser → Type 0)
    (m : Run (A × Parser)) (f : A → Parse B)
    → Post X P m
    → ((a : A) (s : Parser) → m ≡ done (a, s) → P (a, s) → Outcome X H Q (f a s))
    → Outcome X H Q (and_then m f)
post-Outcome X H P Q (done (a, s)) f h k = k a s refl h
post-Outcome X H P Q panic f h k = h
post-Outcome X H P Q out_of_fuel f h k = absurd h

then-Outcome {ℓ κ} :
    {A : Type ℓ} {B : Type κ} (X G H : Type 0) (P : A × Parser → Type 0) (Q : B × Parser → Type 0)
    (m : Run (A × Parser)) (f : A → Parse B)
    → Outcome X G P m
    → (G → H)
    → ((a : A) (s : Parser) → P (a, s) → Outcome X H Q (f a s))
    → Outcome X H Q (and_then m f)
then-Outcome X G H P Q (done (a, s)) f h g k = k a s h
then-Outcome X G H P Q panic f h g k = h
then-Outcome X G H P Q out_of_fuel f h g k = g h

is_kind-false : (a b : TokenKind) → is_kind a b ≡ false → a ≢ b
is_kind-false a b q e = let r = is_kind_refl b in let w : is_kind b b ≡ false = rw e at q in cc

length-and_item : (o : Option Item) (is : List Item) → length (and_item o is) ≤ length is + 1
length-and_item none is = omega arith
length-and_item (some i) is = omega arith

finish-Outcome :
    (X H : Type 0) (P : SourceAst × List Diagnostic → Type 0) (m : Run (SourceAst × Parser))
    → Outcome X H (λ r. P (r.0, r.1.diagnostics)) m
    → Outcome X H P (finish m)
finish-Outcome X H P (done (ast, s)) h = h
finish-Outcome X H P panic h = h
finish-Outcome X H P out_of_fuel h = h

module _ (tokens : List Token) (file_path : Bytes) (source_file_id : ℕ) where
  -- The state in which the loop of `parse` starts, and those it is stuck in.
  abbrev pub new : Parser
  new = record { index = 0; diagnostics = [] }

  abbrev pub StuckFrom : Parser → Type 0
  StuckFrom s =
      (t : Parser) × Rounds tokens file_path source_file_id s t
      × Stuck tokens file_path source_file_id t

  -- From its start the loop of `parse` reaches an `unsafe` that is not followed by `fn`.
  abbrev pub GetsStuck : Type 0
  GetsStuck =
      (start : Span) × (s : Parser) × (begin tokens file_path source_file_id new ≡ done (start, s))
      × StuckFrom s

  -- A file on which the parser gets stuck is never parsed: whatever the number of rounds, the
  -- loop of `parse` is not at its end.
  pub parse-GetsStuck :
      GetsStuck → (fuel : ℕ) → parse tokens file_path source_file_id fuel ≡ out_of_fuel
  unfolding parse
  parse-GetsStuck (start, s, e, (t, r, h)) fuel =
      rw (e, parse_items-Rounds tokens file_path source_file_id fuel s t r h) refl

  module _ (ends : EndsInEof tokens) where
    abbrev Bad : Type 0
    Bad = HasBadString tokens file_path source_file_id ends

    -- The loop stopped at `Eof`, with at most one item for each token.
    abbrev Read : Parser → List Item × Parser → Type 0
    Read s r = On tokens file_path source_file_id ends s r.1 × (length r.0 + s.index ≤ r.1.index)

    round_cases :
        (s : Parser) (k : TokenKind)
        → At tokens file_path source_file_id ends k s
        → Stuck tokens file_path source_file_id s ⊎ Free tokens file_path source_file_id ends k s
    round_cases s k h =
        let (j, p, f, g) = peek_kind-eq tokens file_path source_file_id s in
        elim (Bool-cases (is_kind j fn_kw)) [
          | inl q ↦ inr λ e. (j, p, q)
          | inr q ↦ elim (Bool-cases (is_kind k unsafe_kw)) [
            | inl e ↦ inl (unsafe_at (is_kind-true k unsafe_kw e), f (is_kind-false j fn_kw q))
            | inr n ↦ inr λ e. absurd (is_kind-false k unsafe_kw n e)
          ]
        ]
      where
        unsafe_at : k ≡ unsafe_kw → At tokens file_path source_file_id ends unsafe_kw s
        unsafe_at e = let (t, q, u) = h in (t, q, cc)

    round-Outcome :
        (fuel : ℕ) (s : Parser) (k : TokenKind)
        → In tokens file_path source_file_id ends s
        → At tokens file_path source_file_id ends k s
        → is_kind k eof ≡ false
        → Free tokens file_path source_file_id ends k s
        → ((s' : Parser)
            → In tokens file_path source_file_id ends s'
            → s.index < s'.index
            → Outcome Bad
                (StuckFrom s')
                (Read s')
                (parse_items tokens file_path source_file_id fuel s'))
        → Outcome Bad (StuckFrom s) (Read s) (
            and_then (item_round tokens file_path source_file_id k s) λ o s'.
              and_then
                (parse_items tokens file_path source_file_id fuel s')
                λ rest t. done (and_item o rest, t))
    round-Outcome fuel s k i h q f rec =
        let ne = is_kind-false k eof q in
        post-Outcome Bad (StuckFrom s) (Moved tokens file_path source_file_id ends s) (Read s)
          (item_round tokens file_path source_file_id k s) _
          (item_round-Moved tokens file_path source_file_id ends s k i h ne f)
          λ o s' e (w, lt).
            then-Outcome Bad (StuckFrom s') (StuckFrom s) (Read s') (Read s)
              (parse_items tokens file_path source_file_id fuel s') _ (rec s' w.0 lt)
              (λ (t, r, st). (t, round s s' t k o h ne e r, st))
              λ rest t (v, m). (
                (v.0, omega (arith, lt, v.1)),
                let c = length-and_item o rest in omega (arith, c, m, lt),
              )

    -- A round that is not stuck, and those that follow.
    moving_items-Outcome :
        (fuel : ℕ) (s : Parser) (k : TokenKind)
        → In tokens file_path source_file_id ends s
        → At tokens file_path source_file_id ends k s
        → Free tokens file_path source_file_id ends k s
        → ((s' : Parser)
            → In tokens file_path source_file_id ends s'
            → s.index < s'.index
            → Outcome Bad
                (StuckFrom s')
                (Read s')
                (parse_items tokens file_path source_file_id fuel s'))
        → Outcome Bad
            (StuckFrom s)
            (Read s)
            (parse_items tokens file_path source_file_id (suc fuel) s)
    unfolding parse_items
    moving_items-Outcome fuel s k i h f rec =
        rw (kind-eq tokens file_path source_file_id s k h, Outcome, and_then)
          (elim (Bool-cases (is_kind k eof)) [
            | inl q ↦ rw (q, Outcome) ((i, omega arith), omega arith)
            | inr q ↦ rw (q, Outcome) (round-Outcome fuel s k i h q f rec)
          ])

    parse_items-Outcome :
        (fuel : ℕ) (s : Parser)
        → In tokens file_path source_file_id ends s
        → left tokens file_path source_file_id ends s < fuel
        → Outcome Bad (StuckFrom s) (Read s) (parse_items tokens file_path source_file_id fuel s)
    parse_items-Outcome zero s i lt = elim lt [ ]
    parse_items-Outcome (suc fuel) s i lt =
        let (k, h) = stands_at tokens file_path source_file_id s i in
        elim (round_cases s k h) [
          | inl st ↦
              rw (parse_items-Stuck tokens file_path source_file_id (suc fuel) s st) (s, here s, st)
          | inr f ↦
              moving_items-Outcome fuel s k i h f
                λ s' i' m. parse_items-Outcome fuel s' i' (omega (arith, lt, m, i))
        ]

    begin-Steps :
        Steps tokens file_path source_file_id ends
          (length tokens)
          (begin tokens file_path source_file_id)
    unfolding begin
    begin-Steps =
        bind-Steps tokens file_path source_file_id ends (length tokens) _ _
          (skip-Steps tokens file_path source_file_id ends (length tokens))
          λ u.
            bind-Steps tokens file_path source_file_id ends (length tokens) _ _
              (current-Steps tokens file_path source_file_id ends (length tokens))
              λ t. pure-Steps tokens file_path source_file_id ends (length tokens) _

    begin-Post :
        Post Bad
          (λ r. On tokens file_path source_file_id ends new r.1)
          (begin tokens file_path source_file_id new)
    unfolding Steps
    begin-Post = begin-Steps new (omega (arith, ends.2)) (omega arith)

    -- No more items than tokens other than `Eof`.
    abbrev pub HasFewItems : SourceAst → Type 0
    HasFewItems ast = length ast.items < length tokens

    -- Parsing a file of tokens that end in `Eof` has one of three outcomes, with as many rounds as
    -- there are tokens and one more: a syntax tree, with no more items than tokens; a panic, and a
    -- string token has a text that `decode_string` cannot decode; or the loop has reached an `unsafe`
    -- that is not followed by `fn`.
    pub parse-Outcome :
        (fuel : ℕ)
        → length tokens < fuel
        → Outcome Bad GetsStuck (λ r. HasFewItems r.0) (parse tokens file_path source_file_id fuel)
    unfolding parse
    parse-Outcome fuel lt =
        finish-Outcome Bad GetsStuck (λ r. HasFewItems r.0) _
          (post-Outcome {B = SourceAst} Bad GetsStuck
            (λ r. On tokens file_path source_file_id ends new r.1) (λ r. HasFewItems r.0)
            (begin tokens file_path source_file_id new) _ begin-Post
            λ start s e w.
              then-Outcome {B = SourceAst} Bad (StuckFrom s) GetsStuck (Read s)
                (λ r. HasFewItems r.0) (parse_items tokens file_path source_file_id fuel s) _
                (parse_items-Outcome fuel s w.0 (omega (arith, lt, w.0))) (λ st. (start, s, e, st))
                λ items s' (v, m).
                  let (t, c) = token_at tokens file_path source_file_id s' v.0 in
                  rw (current-eq tokens file_path source_file_id s' t c) (omega (arith, m, v.0)))
