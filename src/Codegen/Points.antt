-- ===== src/Codegen/Points.antt =====
-- A processor that follows the jumps of the lines (codegen.rs): where it is in the code, and what
-- it reaches.
use snap_surf_lang.Prelude.{
  ℕ, Bytes, Bool, true, false, List, [], ◌∷◌, ◌++◌, append_assoc, Option, none, some, ◌≡◌, refl,
  sym, ap, ◌∙◌, ◌==◌, if◌then◌else◌, inl, inr, Option-cases,
}
use native.Mathlib.Decide.{ℕ_discrete}
use snap_surf_lang.Codegen.Asm.{Prefix, Label, local_label, Line, define, jmp, je}
use snap_surf_lang.Codegen.Labels.{label_of}
use snap_surf_lang.Codegen.Machine.{Cpu, Machine, exec, run}

-- At some lines, or on the way to a label.
pub data Point : Type 0 where
  here : List Line → Point
  jump : Label → Point

unfoldable pub Label-discrete : Discrete Label
Label-discrete = hlevel ℕ_discrete

abbrev pub is_label : Label → Option Label → Bool
is_label l none = false
is_label l (some k) = elim (Label-discrete l k) [ yes p ↦ true | no p ↦ false ]

-- The lines from the one on that defines the label.
unfoldable pub find : Label → List Line → Option (List Line)
find l [] = none
find l (x ∷ ls) = if is_label l (label_of x) then some (x ∷ ls) else find l ls

-- What a line does to the point, where it is a label or a jump.
abbrev pub control : Line → List Line → Machine → Option (Point × Machine)
control (define l) ls m = some (here ls, m)
control (jmp l) ls m = some (jump l, m)
control (je l) ls m = some (if m.compared.0 == m.compared.1 then jump l else here ls, m)
control _ ls m = none

module _ (code : List Line) where
  -- The lines stand in the code with the rest behind them, so far as their labels tell.
  unfoldable pub Placed : List Line → List Line → Type 0
  Placed ls post =
      (p : Prefix) (n : ℕ) (a b : List Line)
      → ls ≡ a ++ (define (local_label p n) ∷ b)
      → find (local_label p n) code ≡ some (define (local_label p n) ∷ (b ++ post))

  pub Placed-left : (x y post : List Line) → Placed (x ++ y) post → Placed x (y ++ post)
  unfolding Placed
  Placed-left x y post h p n a b e =
      h p n a (b ++ y) (rw e (append_assoc a _ y))
      ∙ ap (λ r. some (define (local_label p n) ∷ r)) (append_assoc b y post)

  pub Placed-right : (x y post : List Line) → Placed (x ++ y) post → Placed y post
  unfolding Placed
  Placed-right x y post h p n a b e = h p n (x ++ a) b (rw e (sym (append_assoc x a _)))

module _ (cpu : Cpu) (callee : Bytes → Machine → Option Machine) (code : List Line) where
  unfoldable pub step : Point → Machine → Option (Point × Machine)
  step (here []) m = none
  step (here (l ∷ ls)) m = elim (exec cpu callee l m) [
    | some m' ↦ some (here ls, m')
    | none ↦ control l ls m
  ]
  step (jump l) m = elim (find l code) [ none ↦ none | some ls ↦ some (here ls, m) ]

  -- The second point and state come after the first ones by some steps.
  pub data Reaches : Point → Machine → Point → Machine → Type 0 where
    stays : {p : Point} {m : Machine} → Reaches p m p m
    goes :
        {p q : Point} {m m' : Machine} (p₁ : Point) (m₁ : Machine)
        → step p m ≡ some (p₁, m₁)
        → Reaches p₁ m₁ q m'
        → Reaches p m q m'

  pub Reaches-trans :
      {p q r : Point} {m m' m'' : Machine}
      → Reaches p m q m'
      → Reaches q m' r m''
      → Reaches p m r m''
  Reaches-trans stays k = k
  Reaches-trans (goes p₁ m₁ e h) k = goes p₁ m₁ e (Reaches-trans h k)

  pub run-Reaches :
      (ls post : List Line) (m m' : Machine)
      → run cpu callee ls m ≡ some m'
      → Reaches (here (ls ++ post)) m (here post) m'
  unfolding run step
  run-Reaches [] post m m' e = let p : m ≡ m' = cc in rw p stays
  run-Reaches (l ∷ ls) post m m' e = elim (Option-cases (exec cpu callee l m)) [
    | inl q ↦ let x : none ≡ some m' = rw (run, q) at e in cc
    | inr (m₁, q) ↦
        let x : run cpu callee ls m₁ ≡ some m' = rw (run, q) at e in
        goes (here (ls ++ post)) m₁ (rw (step, q) refl) (run-Reaches ls post m₁ m' x)
  ]

  pub jump-Reaches :
      (p : Prefix) (n : ℕ) (a b post : List Line) (m : Machine)
      → Placed code (a ++ (define (local_label p n) ∷ b)) post
      → Reaches (jump (local_label p n)) m (here (define (local_label p n) ∷ (b ++ post))) m
  unfolding step Placed
  jump-Reaches p n a b post m h = goes _ m (rw (step, h p n a b refl) refl) stays
