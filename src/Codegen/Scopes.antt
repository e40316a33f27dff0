-- ===== src/Codegen/Scopes.antt =====
-- The scopes of labels in the text of `Codegen::emit`. To nasm a label that starts with a dot, as all
-- those of `Codegen::label` and `Codegen::string_label` do, belongs to the label without a dot in
-- front of it, which is that of a function here: the same name in two functions is two labels.
use snap_surf_lang.Prelude.{
  ℕ, Bytes, List, [], ◌∷◌, ◌++◌, Option, none, some, ◌≡◌, refl, ◌⊎◌, inl, inr, arith,
}
use snap_surf_lang.Codegen.Asm.{Label, fn_label, local_label, str_label, Line}
use snap_surf_lang.Codegen.Labels.{
  target_of, label_of, other, of_kind, count, Defines, Meets, Refers,
}

-- The function whose label a line is behind, from the one that is in front of it.
abbrev pub enters : Bytes → Option Label → Bytes
enters g (some (fn_label name)) = name
enters g (some (local_label p id)) = g
enters g (some (str_label id)) = g
enters g none = g

-- The function that is behind all the lines.
unfoldable pub last_scope : Bytes → List Line → Bytes
last_scope g [] = g
last_scope g (x ∷ xs) = last_scope (enters g (label_of x)) xs

-- A name with a dot is looked up in its function.
abbrev pub Visible : Label → Bytes → Bytes → Type 0
Visible (fn_label name) g h = Unit {0}
Visible (local_label p id) g h = g ≡ h
Visible (str_label id) g h = g ≡ h

-- A label, written in the function `g`, is defined by one of the lines, which start behind the label
-- of the function `h`.
unfoldable pub Found : Bytes → Label → Bytes → List Line → Type 0
Found g l h [] = ⊥
Found g l h (x ∷ xs) =
    ((label_of x ≡ some l) × Visible l g h) ⊎ Found g l (enters h (label_of x)) xs

-- `R` for each label whose address is taken, and `J` for each that is jumped to, with the function
-- that it is written in.
unfoldable pub Resolves :
    (Bytes → Label → Type 0) → (Bytes → Label → Type 0) → Bytes → List Line → Type 0
Resolves R J h [] = Unit {0}
Resolves R J h (x ∷ xs) = Meets (R h) (J h) (target_of x) × Resolves R J (enters h (label_of x)) xs

pub last_scope-append :
    (h : Bytes) (a b : List Line) → last_scope h (a ++ b) ≡ last_scope (last_scope h a) b
unfolding last_scope
last_scope-append h [] b = refl
last_scope-append h (x ∷ xs) b = last_scope-append (enters h (label_of x)) xs b

pub Found-left :
    (g : Bytes) (l : Label) (h : Bytes) (a b : List Line) → Found g l h a → Found g l h (a ++ b)
unfolding Found
Found-left g l h [] b f = absurd f
Found-left g l h (x ∷ xs) b (inl e) = inl e
Found-left g l h (x ∷ xs) b (inr f) = inr (Found-left g l _ xs b f)

pub Found-right :
    (g : Bytes) (l : Label) (h : Bytes) (a b : List Line)
    → Found g l (last_scope h a) b
    → Found g l h (a ++ b)
unfolding Found last_scope
Found-right g l h [] b f = f
Found-right g l h (x ∷ xs) b f = inr (Found-right g l _ xs b f)

pub Found-split :
    (g : Bytes) (l : Label) (h : Bytes) (a b : List Line)
    → Found g l h (a ++ b)
    → Found g l h a ⊎ Found g l (last_scope h a) b
unfolding Found last_scope
Found-split g l h [] b f = inr f
Found-split g l h (x ∷ xs) b (inl e) = inl (inl e)
Found-split g l h (x ∷ xs) b (inr f) = elim (Found-split g l _ xs b f) [
  | inl y ↦ inl (inr y)
  | inr y ↦ inr y
]

pub Resolves-append :
    (R J : Bytes → Label → Type 0) (h : Bytes) (a b : List Line)
    → Resolves R J h a
    → Resolves R J (last_scope h a) b
    → Resolves R J h (a ++ b)
unfolding Resolves last_scope
Resolves-append R J h [] b r s = s
Resolves-append R J h (x ∷ xs) b (m, r) s = (m, Resolves-append R J _ xs b r s)

-- A line that defines no label but those of `Codegen::label` stays in its function.
stays : (h : Bytes) (o : Option Label) → of_kind other o ≡ 0 → enters h o ≡ h
stays h none e = refl
stays h (some (local_label p id)) e = refl
stays h (some (fn_label name)) e = absurd (omega (arith, e))
stays h (some (str_label id)) e = absurd (omega (arith, e))

-- Such lines do so, and define no string.
pub within_fn : (h : Bytes) (xs : List Line) → count other xs ≡ 0 → last_scope h xs ≡ h
unfolding last_scope count
within_fn h [] e = refl
within_fn h (x ∷ xs) e =
    rw (stays h (label_of x) (omega (arith, e))) (within_fn h xs (omega (arith, e)))

pub no_strings :
    (g h : Bytes) (n : ℕ) (xs : List Line) → count other xs ≡ 0 → Found g (str_label n) h xs → ⊥
unfolding Found count
no_strings g h n [] e f = f
no_strings g h n (x ∷ xs) e (inl (p, v)) = let z = rw p at e in omega (arith, z)
no_strings g h n (x ∷ xs) e (inr f) = no_strings g _ n xs (omega (arith, e)) f

-- A label that one of them defines is found in their function.
pub Defines-Found :
    (h : Bytes) (l : Label) (xs : List Line) → count other xs ≡ 0 → Defines l xs → Found h l h xs
unfolding Found count Defines
Defines-Found h l [] e d = d
Defines-Found h l (x ∷ xs) e (inl p) = inl (p, visible l)
  where
    visible : (l : Label) → Visible l h h
    visible (fn_label name) = tt
    visible (local_label p id) = refl
    visible (str_label id) = refl
Defines-Found h l (x ∷ xs) e (inr d) =
    inr (rw (stays h (label_of x) (omega (arith, e))) (Defines-Found h l xs (omega (arith, e)) d))

pub Refers-Resolves :
    (R J : Bytes → Label → Type 0) (h : Bytes) (xs : List Line)
    → count other xs ≡ 0
    → Refers (R h) (J h) xs
    → Resolves R J h xs
unfolding Resolves count Refers
Refers-Resolves R J h [] e r = tt
Refers-Resolves R J h (x ∷ xs) e (m, r) = (
  m,
  rw (stays h (label_of x) (omega (arith, e))) (Refers-Resolves R J h xs (omega (arith, e)) r),
)
