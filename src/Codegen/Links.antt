-- ===== src/Codegen/Links.antt =====
-- The labels of an emitted file (`Codegen::emit`).
use snap_surf_lang.Prelude.{
  ℕ, ◌≤◌, Bytes, text, text_eq, Bool, true, false, List, [], ◌∷◌, ◌++◌, some, ◌≡◌, ◌≢◌, ◌↔◌, refl,
  sym, ◌∙◌, inl, inr, arith, Run, done, panic, out_of_fuel,
}
use mathlib.Core.Path.{subst}
use snap_surf_lang.Package.{Package}
use snap_surf_lang.Ast.{SourceAst}
use snap_surf_lang.Codegen.Asm.{Label, str_label, Line}
use snap_surf_lang.Codegen.Exprs.{Strings}
use snap_surf_lang.Codegen.Stmts.{Names, Emits, emits, ◌then◌}
use snap_surf_lang.Codegen.Fns.{
  emit_items, function_names, header_lines, string_lines, data_lines, with_data, emit,
}
use snap_surf_lang.Codegen.Labels.{label_of, numbered, count, count-append, InTable}
use snap_surf_lang.Codegen.Tidy.{in_range-le}
use snap_surf_lang.Codegen.Scopes.{
  enters, no_strings, last_scope, Found, Resolves, last_scope-append, Found-left, Found-right,
  Found-split, Resolves-append,
}
use snap_surf_lang.Codegen.Items.{Fine, append-Fine, emit_items-Fine, done-eq, then-split}

-- The lines of the strings stand behind the same function, and find their labels there only.
module _ (h : Bytes) where
  string_lines-scope : (ss : Strings) → last_scope h (string_lines ss) ≡ h
  unfolding last_scope string_lines
  string_lines-scope [] = refl
  string_lines-scope ((n, bytes) ∷ ss) = string_lines-scope ss

  data_lines-scope : (ss : Strings) → last_scope h (data_lines ss) ≡ h
  unfolding last_scope data_lines
  data_lines-scope [] = refl
  data_lines-scope (s ∷ ss) = string_lines-scope (s ∷ ss)

  string_lines-Found :
      (g : Bytes) (n : ℕ) (ss : Strings) → Found g (str_label n) h (string_lines ss) → g ≡ h
  unfolding Found string_lines
  string_lines-Found g n [] f = absurd f
  string_lines-Found g n ((i, bytes) ∷ ss) (inl (p, v)) = v
  string_lines-Found g n ((i, bytes) ∷ ss) (inr (inl (p, v))) = v
  string_lines-Found g n ((i, bytes) ∷ ss) (inr (inr f)) = string_lines-Found g n ss f

  data_lines-Found :
      (g : Bytes) (n : ℕ) (ss : Strings) → Found g (str_label n) h (data_lines ss) → g ≡ h
  unfolding Found data_lines
  data_lines-Found g n [] f = absurd f
  data_lines-Found g n (s ∷ ss) (inl (p, v)) = v
  data_lines-Found g n (s ∷ ss) (inr f) = string_lines-Found g n (s ∷ ss) f

  -- Each string of the table has its label there.
  string_lines-Table :
      (P : Label → Type 0) (ss : Strings)
      → ((n : ℕ) → Found h (str_label n) h (string_lines ss) → P (str_label n))
      → InTable P ss
  unfolding Found string_lines InTable
  string_lines-Table P [] f = tt
  string_lines-Table P ((n, bytes) ∷ ss) f =
      (f n (inl (refl, refl)), string_lines-Table P ss λ k x. f k (inr (inr x)))

  data_lines-Table :
      (P : Label → Type 0) (ss : Strings)
      → ((n : ℕ) → Found h (str_label n) h (data_lines ss) → P (str_label n))
      → InTable P ss
  unfolding Found data_lines InTable
  data_lines-Table P [] f = tt
  data_lines-Table P (s ∷ ss) f = string_lines-Table P (s ∷ ss) λ k x. f k (inr x)

  string_lines-Resolves :
      (R J : Bytes → Label → Type 0) (ss : Strings) → Resolves R J h (string_lines ss)
  unfolding Resolves string_lines
  string_lines-Resolves R J [] = tt
  string_lines-Resolves R J ((n, bytes) ∷ ss) = (tt, (tt, string_lines-Resolves R J ss))

  data_lines-Resolves :
      (R J : Bytes → Label → Type 0) (ss : Strings) → Resolves R J h (data_lines ss)
  unfolding Resolves data_lines
  data_lines-Resolves R J [] = tt
  data_lines-Resolves R J (s ∷ ss) = (tt, string_lines-Resolves R J (s ∷ ss))

string_lines-count : (n : ℕ) (ss : Strings) → count (numbered n) (string_lines ss) ≡ 0
unfolding count string_lines
string_lines-count n [] = refl
string_lines-count n ((i, bytes) ∷ ss) = let e = string_lines-count n ss in omega (arith, e)

data_lines-count : (n : ℕ) (ss : Strings) → count (numbered n) (data_lines ss) ≡ 0
unfolding count data_lines
data_lines-count n [] = refl
data_lines-count n (s ∷ ss) = let e = string_lines-count n (s ∷ ss) in omega (arith, e)

-- A line that is not the label of a string.
past :
    (g h : Bytes) (n : ℕ) (x : Line) (xs : List Line)
    → label_of x ≢ some (str_label n)
    → (Found g (str_label n) (enters h (label_of x)) xs → ⊥)
    → Found g (str_label n) h (x ∷ xs)
    → ⊥
unfolding Found
past g h n x xs k f (inl (p, v)) = k p
past g h n x xs k f (inr y) = f y

header_lines-strings :
    (g h : Bytes) (n : ℕ) (is_tiny : Bool) → Found g (str_label n) h (header_lines is_tiny) → ⊥
unfolding count
header_lines-strings g h n true =
    past g h n _ _ (λ p. cc)
      (past g h n _ _ (λ p. cc)
        (past g h n _ _ (λ p. cc)
          (past g h n _ _ (λ p. cc) (no_strings g (text "_start") n _ refl))))
header_lines-strings g h n false = no_strings g h n _ refl

-- The lines in front of the functions.
header_lines-Fine :
    (R J : Bytes → Label → Type 0) (s : Names) (h : Bytes) (is_tiny : Bool)
    → Fine R J s h (header_lines is_tiny) s
unfolding count Found Resolves
header_lines-Fine R J s h true = record {
  ids = omega arith;
  once = λ n. omega arith;
  table = λ g t. t;
  strings_behind = λ g n f. header_lines-strings g h n true f;
  resolved = λ j t. (tt, (tt, (tt, (tt, (tt, (tt, (tt, (tt, (tt, tt)))))))));
}
header_lines-Fine R J s h false = record {
  ids = omega arith;
  once = λ n. omega arith;
  table = λ g t. t;
  strings_behind = λ g n f. header_lines-strings g h n false f;
  resolved = λ j t. (tt, (tt, (tt, tt)));
}

-- With the names that nasm gives to labels: each label that is jumped to is defined, in the function
-- that jumps to it; the label of a string that is read is defined if the function that reads it is
-- the last one of the file, and only then; and no number of a label is defined twice.
abbrev pub Linked : List Line → Type 0
Linked ls =
    Resolves (λ g l. Found g l [] ls ↔ (g ≡ last_scope [] ls)) (λ g l. Found g l [] ls) [] ls
    × ((n : ℕ) → count (numbered n) ls ≤ 1)

module _ (front : List Line) (s s' : Names) where
  abbrev Reads : Bytes → Label → Type 0
  Reads g l =
      Found g l [] (front ++ data_lines s'.strings)
      ↔ (g ≡ last_scope [] (front ++ data_lines s'.strings))

  abbrev Jumps : Bytes → Label → Type 0
  Jumps g l = Found g l [] (front ++ data_lines s'.strings)

  file-Linked : Fine Reads Jumps s [] front s' → Linked (front ++ data_lines s'.strings)
  file-Linked f =
      let last : last_scope [] (front ++ data_lines s'.strings) ≡ last_scope [] front =
        last_scope-append [] front _ ∙ data_lines-scope (last_scope [] front) s'.strings in
      (
        Resolves-append Reads Jumps [] front _
            (f.resolved (λ g l x. Found-left g l [] front _ x)
              λ g. data_lines-Table (last_scope [] front) (Reads g) s'.strings λ n x. (
                λ y. elim (Found-split g (str_label n) [] front _ y) [
                  | inl z ↦ absurd (f.strings_behind g n z)
                  | inr z ↦ data_lines-Found (last_scope [] front) g n s'.strings z ∙ sym last
                ],
                λ e. Found-right g (str_label n) [] front _ (
                    subst (λ g. Found g (str_label n) (last_scope [] front) (data_lines s'.strings))
                      (sym (e ∙ last)) x),
              ))
            (data_lines-Resolves (last_scope [] front) Reads Jumps s'.strings),
        λ n. omega (
          arith,
          count-append (numbered n) front (data_lines s'.strings),
          data_lines-count n s'.strings,
          f.once n,
          in_range-le s.label_id s'.label_id (numbered n),
        ),
      )

-- In the code of a file, where a name with a dot belongs to the function it is behind: each label
-- that is jumped to is defined in the function that jumps to it; a string that is read has a label
-- there if the function that reads it is the last one of the file, and only then; and
-- `Codegen::label` and its users define no number of a label twice.
pub emit-Linked :
    (ast : SourceAst) (pkg : Package) (ls : List Line) → emit ast pkg ≡ done ls → Linked ls
unfolding emit
emit-Linked ast pkg ls e = by_data _ refl e
  where
    start : Names
    start = record { label_id = 0; strings = [] }

    header : List Line
    header = header_lines (text_eq pkg.runtime (text "tiny"))

    body : Emits
    body = emits header then emit_items (function_names ast.items) ast.items

    by_data : (m : Run (List Line × Names)) → body start ≡ m → with_data m ≡ done ls → Linked ls
    by_data (done (front, s')) p e =
        let (a, s₁, b, q, r, w) =
          then-split (emits header) (emit_items (function_names ast.items) ast.items) start s' front
            p in
        let z : (header, start) ≡ (a, s₁) = done-eq q in
        let R = Reads front start s' in
        let J = Jumps front start s' in
        let first : Fine R J start [] a s₁ =
          subst (λ r. Fine R J start [] r.0 r.1) z
            (header_lines-Fine R J start [] (text_eq pkg.runtime (text "tiny"))) in
        let rest =
          emit_items-Fine R J (function_names ast.items) ast.items s₁ s' b (last_scope [] a) r in
        let all : Fine R J start [] front s' =
          subst (λ ls. Fine R J start [] ls s') (sym w)
            (append-Fine R J start s₁ s' [] a b first rest) in
        subst Linked (done-eq e) (file-Linked front start s' all)
    by_data panic p e = cc
    by_data out_of_fuel p e = cc
