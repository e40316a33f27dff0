-- ===== src/Codegen/Routes.antt =====
-- Where the lines of an operation of codegen.rs lead the processor: to the lines behind them, or to
-- a label. How the routes of operations compose.
use snap_surf_lang.Prelude.{
  ℕ, Bytes, List, ◌∷◌, ◌++◌, append_assoc, Option, ◌≡◌, refl, sym, Run, done, panic, out_of_fuel,
}
use mathlib.Core.Path.{subst}
use snap_surf_lang.Codegen.Asm.{Prefix, Label, local_label, Line, define}
use snap_surf_lang.Codegen.Stmts.{Names, Emits, append_to, continue_with, ◌then◌}
use snap_surf_lang.Codegen.Machine.{Cpu, Machine}
use snap_surf_lang.Codegen.Points.{
  Point, here, jump, Reaches, Reaches-trans, Placed, Placed-left, Placed-right, jump-Reaches,
}

-- On with the next lines, or to a label.
pub data Way : Type 0 where
  on : Way
  to : Label → Way

abbrev pub goal : Way → List Line → Point
goal on post = here post
goal (to l) post = jump l

append_to-split :
    (P : List Line → Type 0) (ls : List Line) (m : Run (List Line × Names))
    → ((ls₂ : List Line) (n' : Names) → m ≡ done (ls₂, n') → P (ls ++ ls₂))
    → (r : List Line) (n' : Names) → append_to ls m ≡ done (r, n')
    → P r
append_to-split P ls (done (ls₂, n₂)) h r n' e =
    let p : ls ++ ls₂ ≡ r = cc in subst P p (h ls₂ n₂ refl)
append_to-split P ls panic h r n' e = cc
append_to-split P ls out_of_fuel h r n' e = cc

pub continue_with-split :
    (P : List Line → Type 0) (m : Run (List Line × Names)) (k : Emits)
    → ((ls₁ : List Line) (n₁ : Names) (ls₂ : List Line) (n₂ : Names)
        → m ≡ done (ls₁, n₁)
        → k n₁ ≡ done (ls₂, n₂)
        → P (ls₁ ++ ls₂))
    → (ls : List Line) (n' : Names) → continue_with m k ≡ done (ls, n')
    → P ls
continue_with-split P (done (ls₁, n₁)) k h ls n' e =
    append_to-split P ls₁ (k n₁) (λ ls₂ n₂ q. h ls₁ n₁ ls₂ n₂ refl q) ls n' e
continue_with-split P panic k h ls n' e = cc
continue_with-split P out_of_fuel k h ls n' e = cc

module _ (cpu : Cpu) (callee : Bytes → Machine → Option Machine) (code : List Line) where
  -- Some steps lead to a point, with a state that has the property.
  abbrev pub Gets : Point → Machine → Point → (Machine → Type 0) → Type 0
  Gets p M q Q = (M' : Machine) × Reaches cpu callee code p M q M' × Q M'

  -- The lines that `m` emits at `n` lead that way from their first one on, wherever they are placed.
  unfoldable pub Goes : Emits → Names → Machine → Way → (Machine → Type 0) → Type 0
  Goes m n M w Q =
      (ls : List Line) (n' : Names)
      → m n ≡ done (ls, n')
      → (post : List Line) → Placed code ls post
      → Gets (here (ls ++ post)) M (goal w post) Q

  -- The property is weakened.
  pub weaken-Goes :
      (m : Emits) (n : Names) (M : Machine) (w : Way) (Q R : Machine → Type 0)
      → ((M' : Machine) → Q M' → R M')
      → Goes m n M w Q
      → Goes m n M w R
  unfolding Goes
  weaken-Goes m n M w Q R g f ls n' e post h = let (M', r, q) = f ls n' e post h in (M', r, g M' q)

  -- A line defines the label, and the lines from it on lead that way.
  abbrev LandsIn : Prefix → ℕ → Machine → Way → (Machine → Type 0) → List Line → List Line → Type 0
  LandsIn p i M w Q ls post =
      (a : List Line) × (b : List Line) × (ls ≡ a ++ (define (local_label p i) ∷ b))
      × Gets (here (define (local_label p i) ∷ (b ++ post))) M (goal w post) Q

  -- The lines that `m` emits at `n` do so.
  unfoldable pub Lands : Prefix → ℕ → Emits → Names → Machine → Way → (Machine → Type 0) → Type 0
  Lands p i m n M w Q =
      (ls : List Line) (n' : Names)
      → m n ≡ done (ls, n')
      → (post : List Line) → Placed code ls post
      → LandsIn p i M w Q ls post

  abbrev GoesIn : Machine → Way → (Machine → Type 0) → List Line → Type 0
  GoesIn M w Q ls =
      (post : List Line) → Placed code ls post → Gets (here (ls ++ post)) M (goal w post) Q

  module _ (m k : Emits) (n : Names) (M : Machine) (Q R : Machine → Type 0) where
    -- A route through an operation and then through the next one.
    pub then-Goes :
        (w : Way)
        → Goes m n M on Q
        → ((n₁ : Names) (M₁ : Machine) → Q M₁ → Goes k n₁ M₁ w R)
        → Goes (m then k) n M w R
    unfolding Goes
    then-Goes w f g = continue_with-split (GoesIn M w R) (m n) k λ ls₁ n₁ ls₂ n₂ e e' post h.
        let (M₁, r, q) = f ls₁ n₁ e (ls₂ ++ post) (Placed-left code ls₁ ls₂ post h) in
        let (M₂, r', q') = g n₁ M₁ q ls₂ n₂ e' post (Placed-right code ls₁ ls₂ post h) in
        (M₂, rw (append_assoc ls₁ ls₂ post) (Reaches-trans cpu callee code r r'), q')

    -- A jump out of an operation to a label of the next one.
    pub land-Goes :
        (p : Prefix) (i : ℕ) (w : Way)
        → Goes m n M (to (local_label p i)) Q
        → ((n₁ : Names) (M₁ : Machine) → Q M₁ → Lands p i k n₁ M₁ w R)
        → Goes (m then k) n M w R
    unfolding Goes Lands
    land-Goes p i w f g = continue_with-split (GoesIn M w R) (m n) k λ ls₁ n₁ ls₂ n₂ e e' post h.
        let right = Placed-right code ls₁ ls₂ post h in
        let (M₁, r, q) = f ls₁ n₁ e (ls₂ ++ post) (Placed-left code ls₁ ls₂ post h) in
        let (a, b, s, (M₂, r', q')) = g n₁ M₁ q ls₂ n₂ e' post right in
        (
          M₂,
          rw (append_assoc ls₁ ls₂ post) (
              Reaches-trans cpu callee code r (
                Reaches-trans cpu callee code
                  (jump-Reaches cpu callee code p i a b post M₁ (rw s at right)) r')),
          q',
        )

    -- The label is in an operation, and the route goes on through the next one.
    pub then-Lands :
        (p : Prefix) (i : ℕ) (w : Way)
        → Lands p i m n M on Q
        → ((n₁ : Names) (M₁ : Machine) → Q M₁ → Goes k n₁ M₁ w R)
        → Lands p i (m then k) n M w R
    unfolding Lands Goes
    then-Lands p i w f g =
        continue_with-split
          (λ ls. (post : List Line) → Placed code ls post → LandsIn p i M w R ls post) (m n) k
          λ ls₁ n₁ ls₂ n₂ e e' post h.
            let (a, b, s, (M₁, r, q)) =
              f ls₁ n₁ e (ls₂ ++ post) (Placed-left code ls₁ ls₂ post h) in
            let (M₂, r', q') = g n₁ M₁ q ls₂ n₂ e' post (Placed-right code ls₁ ls₂ post h) in
            (
              a,
              b ++ ls₂,
              rw s (append_assoc a _ ls₂),
              (M₂, rw (append_assoc b ls₂ post) (Reaches-trans cpu callee code r r'), q'),
            )

  module _ (m k : Emits) (n : Names) (M : Machine) (Q : Machine → Type 0) where
    -- A jump out of an operation leaves the next one out.
    pub leave-Goes : (l : Label) → Goes m n M (to l) Q → Goes (m then k) n M (to l) Q
    unfolding Goes
    leave-Goes l f = continue_with-split (GoesIn M (to l) Q) (m n) k λ ls₁ n₁ ls₂ n₂ e e' post h.
        let (M₁, r, q) = f ls₁ n₁ e (ls₂ ++ post) (Placed-left code ls₁ ls₂ post h) in
        (M₁, rw (append_assoc ls₁ ls₂ post) r, q)

    -- The label is behind an operation.
    pub skip-Lands :
        (p : Prefix) (i : ℕ) (w : Way)
        → ((n₁ : Names) → Lands p i k n₁ M w Q)
        → Lands p i (m then k) n M w Q
    unfolding Lands
    skip-Lands p i w g =
        continue_with-split
          (λ ls. (post : List Line) → Placed code ls post → LandsIn p i M w Q ls post) (m n) k
          λ ls₁ n₁ ls₂ n₂ e e' post h.
            let (a, b, s, got) = g n₁ ls₂ n₂ e' post (Placed-right code ls₁ ls₂ post h) in
            (ls₁ ++ a, b, rw s (sym (append_assoc ls₁ a _)), got)

    -- A jump out of the operation with the label.
    pub leave-Lands :
        (p : Prefix) (i : ℕ) (l : Label)
        → Lands p i m n M (to l) Q
        → Lands p i (m then k) n M (to l) Q
    unfolding Lands
    leave-Lands p i l f =
        continue_with-split
          (λ ls. (post : List Line) → Placed code ls post → LandsIn p i M (to l) Q ls post) (m n) k
          λ ls₁ n₁ ls₂ n₂ e e' post h.
            let (a, b, s, (M₁, r, q)) =
              f ls₁ n₁ e (ls₂ ++ post) (Placed-left code ls₁ ls₂ post h) in
            (a, b ++ ls₂, rw s (append_assoc a _ ls₂), (M₁, rw (append_assoc b ls₂ post) r, q))
