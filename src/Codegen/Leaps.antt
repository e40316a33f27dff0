-- ===== src/Codegen/Leaps.antt =====
-- The routes of the lines that codegen.rs emits for jumps, tests and labels.
use snap_surf_lang.Prelude.{
  ℕ, ◌+◌, Bytes, false, List, [], ◌∷◌, ◌++◌, append_assoc, Option, some, ◌≡◌, ◌≢◌, refl, ◌==◌,
  ==_iff, inl, inr, Bool-cases, Run, done,
}
use snap_surf_lang.Codegen.Asm.{Prefix, Label, local_label, Line, define, jmp, je, cmp_rax_0}
use snap_surf_lang.Codegen.Exprs.{Emit}
use snap_surf_lang.Codegen.Stmts.{Names, Emits, emits, ◌then◌, of_expr, with_label}
use snap_surf_lang.Codegen.Machine.{Cpu, Machine, exec, run}
use snap_surf_lang.Codegen.Points.{step, stays, goes, Reaches-trans, run-Reaches, jump-Reaches}
use snap_surf_lang.Codegen.Routes.{
  Way, on, to, continue_with-split, Goes, Lands, then-Goes, leave-Goes, then-Lands, leave-Lands,
}

emitted :
    (a b : List Line) (n n' : Names)
    → ◌≡◌ {A = Run (List Line × Names)} (done (a, n)) (done (b, n'))
    → b ≡ a
emitted a b n n' e = cc

-- The flags of `cmp rax, 0`.
abbrev pub tested : Machine → Machine
tested M = record M { compared = (M.rax_word, 0) }

differ : (a b : ℕ) → a ≢ b → (a == b) ≡ false
differ a b h = elim (Bool-cases (a == b)) [ inl q ↦ absurd (h ((==_iff a b).0 q)) | inr q ↦ q ]

module _ (cpu : Cpu) (callee : Bytes → Machine → Option Machine) (code : List Line) where
  pub emits-Goes :
      (ls : List Line) (n : Names) (M M' : Machine) (Q : Machine → Type 0)
      → run cpu callee ls M ≡ some M'
      → Q M'
      → Goes cpu callee code (emits ls) n M on Q
  unfolding Goes
  emits-Goes ls n M M' Q r q ls' n' e post h =
      rw (emitted ls ls' n n' e) (M', run-Reaches cpu callee code ls post M M' r, q)

  pub of_expr-Goes :
      (m : Emit) (n : Names) (M M' : Machine) (Q : Machine → Type 0)
      → run cpu callee (m n.strings).0 M ≡ some M'
      → Q M'
      → Goes cpu callee code (of_expr m) n M on Q
  unfolding Goes
  of_expr-Goes m n M M' Q r q ls' n' e post h =
      rw (emitted (m n.strings).0 ls' _ n' e)
        (M', run-Reaches cpu callee code (m n.strings).0 post M M' r, q)

  -- Some lines and then a jump, whatever stands behind it.
  pub jmp-Goes :
      (a : List Line) (l : Label) (ls : List Line) (n : Names) (M M' : Machine)
      (Q : Machine → Type 0)
      → run cpu callee a M ≡ some M'
      → Q M'
      → Goes cpu callee code (emits (a ++ (jmp l ∷ ls))) n M (to l) Q
  unfolding Goes step exec
  jmp-Goes a l ls n M M' Q r q ls' n' e post h =
      rw (emitted (a ++ (jmp l ∷ ls)) ls' n n' e, append_assoc a (jmp l ∷ ls) post)
        (
          M',
          Reaches-trans cpu callee code
              (run-Reaches cpu callee code a (jmp l ∷ (ls ++ post)) M M' r) (goes _ M' refl stays),
          q,
        )

  pub define-Goes :
      (l : Label) (n : Names) (M : Machine) (Q : Machine → Type 0)
      → Q M
      → Goes cpu callee code (emits (define l ∷ [])) n M on Q
  unfolding Goes step exec
  define-Goes l n M Q q ls' n' e post h =
      rw (emitted (define l ∷ []) ls' n n' e) (M, goes _ M refl stays, q)

  pub test_zero-Goes :
      (l : Label) (n : Names) (M : Machine) (Q : Machine → Type 0)
      → M.rax_word ≡ 0
      → Q (tested M)
      → Goes cpu callee code (emits (cmp_rax_0 ∷ je l ∷ [])) n M (to l) Q
  unfolding Goes step exec
  test_zero-Goes l n M Q z q ls' n' e post h = rw (emitted (cmp_rax_0 ∷ je l ∷ []) ls' n n' e) (
    tested M,
    goes _ (tested M) refl
        (goes _ (tested M) (rw (step, exec, (==_iff M.rax_word 0).1 z) refl) stays),
    q,
  )

  pub test_other-Goes :
      (l : Label) (n : Names) (M : Machine) (Q : Machine → Type 0)
      → M.rax_word ≢ 0
      → Q (tested M)
      → Goes cpu callee code (emits (cmp_rax_0 ∷ je l ∷ [])) n M on Q
  unfolding Goes step exec
  test_other-Goes l n M Q z q ls' n' e post h = rw (emitted (cmp_rax_0 ∷ je l ∷ []) ls' n n' e) (
    tested M,
    goes _ (tested M) refl (goes _ (tested M) (rw (step, exec, differ M.rax_word 0 z) refl) stays),
    q,
  )

  -- A label behind some lines.
  pub define-Lands :
      (a : List Line) (p : Prefix) (i : ℕ) (n : Names) (M : Machine) (Q : Machine → Type 0)
      → Q M
      → Lands cpu callee code p i (emits (a ++ (define (local_label p i) ∷ []))) n M on Q
  unfolding Lands step exec
  define-Lands a p i n M Q q ls' n' e post h = (
    a,
    [],
    emitted (a ++ (define (local_label p i) ∷ [])) ls' n n' e,
    (M, goes _ M refl stays, q),
  )

  module _ (m k : Emits) (n : Names) (M : Machine) (Q : Machine → Type 0) where
    -- An operation, and the next one where it is reached, which changes nothing.
    pub after-Goes :
        (w : Way)
        → Goes cpu callee code m n M w Q
        → ((n₁ : Names) (M₁ : Machine) → Q M₁ → Goes cpu callee code k n₁ M₁ on Q)
        → Goes cpu callee code (m then k) n M w Q
    after-Goes on f g = then-Goes cpu callee code m k n M Q Q on f g
    after-Goes (to l) f g = leave-Goes cpu callee code m k n M Q l f

    pub after-Lands :
        (p : Prefix) (i : ℕ) (w : Way)
        → Lands cpu callee code p i m n M w Q
        → ((n₁ : Names) (M₁ : Machine) → Q M₁ → Goes cpu callee code k n₁ M₁ on Q)
        → Lands cpu callee code p i (m then k) n M w Q
    after-Lands p i on f g = then-Lands cpu callee code m k n M Q Q p i on f g
    after-Lands p i (to l) f g = leave-Lands cpu callee code m k n M Q p i l f

  module _ (k : Emits) (p : Prefix) (i : ℕ) (n : Names) (M : Machine) (w : Way) where
    -- From a label on into the next operation.
    pub enter-Lands :
        (Q : Machine → Type 0)
        → ((n₁ : Names) → Goes cpu callee code k n₁ M w Q)
        → Lands cpu callee code p i (emits (define (local_label p i) ∷ []) then k) n M w Q
    enter-Lands Q g =
        then-Lands cpu callee code (emits (define (local_label p i) ∷ [])) k n M (λ M₁. M₁ ≡ M) Q p
          i w (define-Lands [] p i n M (λ M₁. M₁ ≡ M) refl) λ n₁ M₁ e. rw e (g n₁)

    begins :
        (ls : List Line) (n' : Names)
        → (emits (define (local_label p i) ∷ []) then k) n ≡ done (ls, n')
        → (b : List Line) × (ls ≡ define (local_label p i) ∷ b)
    begins =
        continue_with-split (λ ls. (b : List Line) × (ls ≡ define (local_label p i) ∷ b))
          (done (define (local_label p i) ∷ [], n)) k
          λ ls₁ n₁ ls₂ n₂ e e'. (ls₂, rw (emitted (define (local_label p i) ∷ []) ls₁ n n₁ e) refl)

    -- A jump to the label in front of an operation begins it anew.
    pub again-Goes :
        (Q R : Machine → Type 0)
        → Goes cpu callee code
            (emits (define (local_label p i) ∷ []) then k)
            n
            M
            (to (local_label p i))
            Q
        → ((M₁ : Machine)
            → Q M₁
            → Goes cpu callee code (emits (define (local_label p i) ∷ []) then k) n M₁ w R)
        → Goes cpu callee code (emits (define (local_label p i) ∷ []) then k) n M w R
    unfolding Goes
    again-Goes Q R f g ls n' e post h =
        let (b, q) = begins ls n' e in
        let (M₁, r, x) = f ls n' e post h in
        let (M₂, r', x') = g M₁ x ls n' e post h in
        (
          M₂,
          Reaches-trans cpu callee code r (
              Reaches-trans cpu callee code
                (jump-Reaches cpu callee code p i [] b post M₁ (rw q at h)) (rw q at r')),
          x',
        )

  module _ (p q : Prefix) (k : Label → Label → Emits) (n : Names) (M : Machine) (w : Way)
      (Q : Machine → Type 0) where
    -- The two labels of a statement are made.
    pub with_labels-Goes :
        Goes cpu callee code
          (k (local_label p n.label_id) (local_label q (n.label_id + 1)))
          (record n { label_id = n.label_id + 1 + 1 })
          M
          w
          Q
        → Goes cpu callee code (with_label p λ start. with_label q λ end. k start end) n M w Q
    unfolding Goes
    with_labels-Goes f = f

    pub labelled-Goes :
        Goes cpu callee code (with_label p λ start. with_label q λ end. k start end) n M w Q
        → Goes cpu callee code
            (k (local_label p n.label_id) (local_label q (n.label_id + 1)))
            (record n { label_id = n.label_id + 1 + 1 })
            M
            w
            Q
    unfolding Goes
    labelled-Goes f = f

  -- A label is passed.
  pub pass-Goes :
      (l : Label) (k : Emits) (n : Names) (M : Machine) (w : Way) (Q : Machine → Type 0)
      → ((n₁ : Names) → Goes cpu callee code k n₁ M w Q)
      → Goes cpu callee code (emits (define l ∷ []) then k) n M w Q
  pass-Goes l k n M w Q g =
      then-Goes cpu callee code (emits (define l ∷ [])) k n M (λ M₁. M₁ ≡ M) Q w
        (define-Goes l n M (λ M₁. M₁ ≡ M) refl) λ n₁ M₁ e. rw e (g n₁)
