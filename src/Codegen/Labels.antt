-- ===== src/Codegen/Labels.antt =====
-- The labels of emitted lines: those that are defined, and those that are jumped to or read.
use snap_surf_lang.Prelude.{
  ℕ, ◌+◌, List, [], ◌∷◌, ◌++◌, Option, none, some, ◌≡◌, refl, ◌⊎◌, inl, inr, ◌==◌, if◌then◌else◌,
  arith,
}
use snap_surf_lang.Codegen.Asm.{
  Label, fn_label, local_label, str_label, Line, define, jmp, je, lea_rax,
}
use snap_surf_lang.Codegen.Exprs.{Strings}

-- What a line refers to: a label that it jumps to, or one that it takes the address of.
pub data Target : Type 0 where
  jumps_to reads_from : Label → Target

abbrev pub target_of : Line → Option Target
target_of (jmp l) = some (jumps_to l)
target_of (je l) = some (jumps_to l)
target_of (lea_rax l) = some (reads_from l)
target_of _ = none

-- The label that a line defines.
abbrev pub label_of : Line → Option Label
label_of (define l) = some l
label_of _ = none

-- The labels of `Codegen::label` by their numbers, and all other labels.
pub data Kind : Type 0 where
  numbered : ℕ → Kind
  other : Kind

abbrev pub is_other : Kind → ℕ
is_other (numbered n) = 0
is_other other = 1

-- 1 for a label of the kind.
abbrev pub is_of : Label → Kind → ℕ
is_of (local_label p id) (numbered n) = if id == n then 1 else 0
is_of (local_label p id) other = 0
is_of (fn_label name) k = is_other k
is_of (str_label id) k = is_other k

abbrev pub of_kind : Kind → Option Label → ℕ
of_kind k none = 0
of_kind k (some l) = is_of l k

-- How many of the lines define a label of the kind.
unfoldable pub count : Kind → List Line → ℕ
count k [] = 0
count k (l ∷ ls) = of_kind k (label_of l) + count k ls

pub count-append : (n : Kind) (a b : List Line) → count n (a ++ b) ≡ count n a + count n b
unfolding count
count-append n [] b = omega arith
count-append n (l ∷ ls) b = omega (arith, count-append n ls b)

-- One of the lines defines the label.
unfoldable pub Defines : Label → List Line → Type 0
Defines l [] = ⊥
Defines l (x ∷ xs) = (label_of x ≡ some l) ⊎ Defines l xs

module _ (T : Label → Type 0) where
  abbrev pub Given : Option Label → Type 0
  Given none = Unit {0}
  Given (some l) = T l

  -- All labels that the lines define have the property.
  unfoldable pub Labels : List Line → Type 0
  Labels [] = Unit {0}
  Labels (l ∷ ls) = Given (label_of l) × Labels ls

  -- All labels of a list have the property.
  unfoldable pub Every : List Label → Type 0
  Every [] = Unit {0}
  Every (l ∷ ls) = T l × Every ls

  pub Labels-append : (a b : List Line) → Labels (a ++ b) → Labels a × Labels b
  unfolding Labels
  Labels-append [] b h = (tt, h)
  Labels-append (l ∷ ls) b (g, h) = let (x, y) = Labels-append ls b h in ((g, x), y)

module _ (S : Label → Type 0) where
  -- All labels of the table of strings have the property.
  unfoldable pub InTable : Strings → Type 0
  InTable [] = Unit {0}
  InTable ((n, bytes) ∷ strings) = S (str_label n) × InTable strings

  pub InTable-append : (a b : Strings) → InTable (a ++ b) → InTable a × InTable b
  unfolding InTable
  InTable-append [] b h = (tt, h)
  InTable-append ((n, bytes) ∷ strings) b (g, h) =
      let (x, y) = InTable-append strings b h in ((g, x), y)

-- `S` for the labels whose address is taken, and `T` for those that are jumped to.
module _ (S T : Label → Type 0) where
  abbrev pub Meets : Option Target → Type 0
  Meets none = Unit {0}
  Meets (some (jumps_to l)) = T l
  Meets (some (reads_from l)) = S l

  -- All labels that the lines refer to have their property.
  unfoldable pub Refers : List Line → Type 0
  Refers [] = Unit {0}
  Refers (l ∷ ls) = Meets (target_of l) × Refers ls

  pub Refers-append : (a b : List Line) → Refers a → Refers b → Refers (a ++ b)
  unfolding Refers
  Refers-append [] b h k = k
  Refers-append (l ∷ ls) b (g, h) k = (g, Refers-append ls b h k)

-- What is defined is defined by one of the lines.
pub Labels-self : (xs : List Line) → Labels (λ l. Defines l xs) xs
unfolding Labels Defines
Labels-self [] = tt
Labels-self (x ∷ xs) = (first (label_of x) refl, lift_labels xs (Labels-self xs))
  where
    first :
        (o : Option Label) → label_of x ≡ o → Given (λ l. (label_of x ≡ some l) ⊎ Defines l xs) o
    first none e = tt
    first (some l) e = inl e

    lift_given :
        (o : Option Label)
        → Given (λ l. Defines l xs) o
        → Given (λ l. (label_of x ≡ some l) ⊎ Defines l xs) o
    lift_given none h = tt
    lift_given (some l) h = inr h

    lift_labels :
        (ys : List Line)
        → Labels (λ l. Defines l xs) ys
        → Labels (λ l. (label_of x ≡ some l) ⊎ Defines l xs) ys
    lift_labels [] h = tt
    lift_labels (y ∷ ys) (g, h) = (lift_given (label_of y) g, lift_labels ys h)
