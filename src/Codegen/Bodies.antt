-- ===== src/Codegen/Bodies.antt =====
-- The body of a function in the code of a file (`Codegen::emit`, `emit_fn`).
use snap_surf_lang.Prelude.{
  ℕ, ◌+◌, ◌≤◌, Bytes, text, text_eq, true, false, List, [], ◌∷◌, ◌++◌, append_assoc, append-nil,
  Option, none, some, ◌≡◌, refl, sym, ap, ◌∙◌, ◌==◌, ==_iff, arith, Run, done, panic, out_of_fuel,
}
use mathlib.Core.Path.{subst}
use mathlib.Core.List.{Memᴰ}
use snap_surf_lang.Package.{Package}
use snap_surf_lang.Ast.{FnDecl, Item, use_item, fn_item, SourceAst}
use snap_surf_lang.Codegen.Asm.{fn_end, Prefix, Label, local_label, Line, define}
use snap_surf_lang.Codegen.Stmts.{Names, emits, emit_block}
use snap_surf_lang.Codegen.Fns.{
  prologue, epilogue, env_of, emit_fn, emit_items, function_names, header_lines, data_lines,
  with_data, emit,
}
use snap_surf_lang.Codegen.Labels.{label_of, numbered, of_kind, count}
use snap_surf_lang.Codegen.Points.{Label-discrete, is_label, find, Placed}
use snap_surf_lang.Codegen.Routes.{continue_with-split}

own_number : (p : Prefix) (i : ℕ) → of_kind (numbered i) (some (local_label p i)) ≡ 1
own_number p i = let q : (i == i) ≡ true = (==_iff i i).1 refl in rw q refl

other_label :
    (p : Prefix) (i : ℕ) (o : Option Label)
    → of_kind (numbered i) o ≡ 0
    → is_label (local_label p i) o ≡ false
other_label p i none h = refl
other_label p i (some k) h =
    elim (Label-discrete (local_label p i) k)
      as (λ d. elim d [ yes q ↦ true | no q ↦ false ] ≡ false) [
        | yes q ↦
            let zero : of_kind (numbered i) (some (local_label p i)) ≡ 0 =
              subst (λ t. of_kind (numbered i) (some t) ≡ 0) (sym q) h in
            absurd (omega (arith, own_number p i, zero))
        | no q ↦ refl
      ]

own_label : (p : Prefix) (i : ℕ) → is_label (local_label p i) (some (local_label p i)) ≡ true
own_label p i =
    elim (Label-discrete (local_label p i) (local_label p i))
      as (λ d. elim d [ yes q ↦ true | no q ↦ false ] ≡ true) [
        | yes q ↦ refl
        | no q ↦ absurd (q refl)
      ]

count-define :
    (p : Prefix) (i : ℕ) (x y : List Line)
    → 1 ≤ count (numbered i) (x ++ (define (local_label p i) ∷ y))
unfolding count
count-define p i [] y = omega (arith, own_number p i)
count-define p i (l ∷ x) y = omega (arith, count-define p i x y)

find-once :
    (p : Prefix) (i : ℕ) (x y : List Line)
    → count (numbered i) (x ++ (define (local_label p i) ∷ y)) ≤ 1
    → find (local_label p i) (x ++ (define (local_label p i) ∷ y))
      ≡ some (define (local_label p i) ∷ y)
unfolding find count
find-once p i [] y h = rw (own_label p i) refl
find-once p i (l ∷ x) y h =
    let zero : of_kind (numbered i) (label_of l) ≡ 0 = omega (arith, count-define p i x y) in
    rw (other_label p i (label_of l) zero) (find-once p i x y (omega arith))

-- Lines of a code that defines each number of a label at most once are placed in it.
pub once-Placed :
    (code before ls post : List Line)
    → ((n : ℕ) → count (numbered n) code ≤ 1)
    → code ≡ before ++ (ls ++ post)
    → Placed code ls post
unfolding Placed
once-Placed code before ls post h e p n a b q =
    let r : code ≡ (before ++ a) ++ (define (local_label p n) ∷ (b ++ post)) =
      e
      ∙ (ap (λ t. before ++ (t ++ post)) q
          ∙ (ap (λ t. before ++ t) (append_assoc a _ post) ∙ sym (append_assoc before a _))) in
    rw r (find-once p n (before ++ a) (b ++ post) (rw r at (h n)))

-- The lines of the body of a function, in a code.
pub record BodyIn (functions : List Bytes) (f : FnDecl) (code : List Line) : Type 0 where
  pub before : List Line
  pub body : List Line
  pub after : List Line
  pub id : ℕ
  pub names : Names
  pub names' : Names
  pub emitted :
      emit_block functions (env_of f (local_label fn_end id)) f.body names ≡ done (body, names')
  pub placed : code ≡ before ++ (body ++ (epilogue f (local_label fn_end id) ++ after))

module _ (functions : List Bytes) (f : FnDecl) where
  behind-BodyIn : (x ls : List Line) → BodyIn functions f ls → BodyIn functions f (x ++ ls)
  behind-BodyIn x ls b = record {
    before = x ++ b.before;
    body = b.body;
    after = b.after;
    id = b.id;
    names = b.names;
    names' = b.names';
    emitted = b.emitted;
    placed = ap (λ t. x ++ t) b.placed ∙ sym (append_assoc x b.before _);
  }

  before-BodyIn : (ls x : List Line) → BodyIn functions f ls → BodyIn functions f (ls ++ x)
  before-BodyIn ls x b = record {
    before = b.before;
    body = b.body;
    after = b.after ++ x;
    id = b.id;
    names = b.names;
    names' = b.names';
    emitted = b.emitted;
    placed =
        ap (λ t. t ++ x) b.placed
        ∙ (append_assoc b.before _ x
            ∙ ap (λ t. b.before ++ t)
                (append_assoc b.body _ x
                  ∙ ap (λ t. b.body ++ t)
                      (append_assoc (epilogue f (local_label fn_end b.id)) b.after x)));
  }

  lines-eq : (ls ls' : List Line) (n n' : Names) → emits ls n ≡ done (ls', n') → ls' ≡ ls
  lines-eq ls ls' n n' e = cc

  emit_fn-BodyIn :
      (n : Names) (ls : List Line) (n' : Names)
      → emit_fn functions f n ≡ done (ls, n')
      → BodyIn functions f ls
  unfolding emit_fn
  emit_fn-BodyIn n ls n' e =
      let end = local_label fn_end n.label_id in
      continue_with-split (BodyIn functions f)
        (done (prologue f, record n { label_id = n.label_id + 1 })) _
        (λ ls₁ n₁ ls₂ n₂ p q. behind-BodyIn ls₁ ls₂ (
          continue_with-split (BodyIn functions f) (emit_block functions (env_of f end) f.body n₁)
            (emits (epilogue f end))
            (λ body n₃ ls₃ n₄ x y. record {
              before = [];
              body = body;
              after = [];
              id = n.label_id;
              names = n₁;
              names' = n₃;
              emitted = x;
              placed = rw (lines-eq (epilogue f end) ls₃ n₃ n₄ y, append-nil (epilogue f end)) refl;
            })
            ls₂ n₂ q))
        ls n' e

  emit_items-BodyIn :
      (is : List Item)
      → Memᴰ (fn_item f) is
      → (n : Names) (ls : List Line) (n' : Names) → emit_items functions is n ≡ done (ls, n')
      → BodyIn functions f ls
  unfolding emit_items
  emit_items-BodyIn [] m n ls n' e = elim m [ ]
  emit_items-BodyIn (use_item u ∷ is) (Memᴰ.head q) n ls n' e = cc
  emit_items-BodyIn (use_item u ∷ is) (Memᴰ.tail m) n ls n' e = emit_items-BodyIn is m n ls n' e
  emit_items-BodyIn (fn_item g ∷ is) (Memᴰ.head q) n ls n' e =
      let p : f ≡ g = cc in
      continue_with-split (BodyIn functions f) (emit_fn functions g n) (emit_items functions is)
        (λ ls₁ n₁ ls₂ n₂ x y. before-BodyIn ls₁ ls₂ (emit_fn-BodyIn n ls₁ n₁ (rw p x))) ls n' e
  emit_items-BodyIn (fn_item g ∷ is) (Memᴰ.tail m) n ls n' e =
      continue_with-split (BodyIn functions f) (emit_fn functions g n) (emit_items functions is)
        (λ ls₁ n₁ ls₂ n₂ x y. behind-BodyIn ls₁ ls₂ (emit_items-BodyIn is m n₁ ls₂ n₂ y)) ls n' e

  file-BodyIn :
      (r : Run (List Line × Names)) (code : List Line)
      → ((ls : List Line) (n' : Names) → r ≡ done (ls, n') → BodyIn functions f ls)
      → with_data r ≡ done code
      → BodyIn functions f code
  file-BodyIn (done (ls, n')) code g e =
      let p : ls ++ data_lines n'.strings ≡ code = cc in
      subst (BodyIn functions f) p (before-BodyIn ls (data_lines n'.strings) (g ls n' refl))
  file-BodyIn panic code g e = cc
  file-BodyIn out_of_fuel code g e = cc

pub emit-BodyIn :
    (ast : SourceAst) (pkg : Package) (f : FnDecl) (code : List Line)
    → Memᴰ (fn_item f) ast.items
    → emit ast pkg ≡ done code
    → BodyIn (function_names ast.items) f code
unfolding emit
emit-BodyIn ast pkg f code m e =
    let functions = function_names ast.items in
    let start : Names = record { label_id = 0; strings = [] } in
    file-BodyIn functions f _ code
      (continue_with-split (BodyIn functions f)
        (done (header_lines (text_eq pkg.runtime (text "tiny")), start))
        (emit_items functions ast.items)
        λ ls₁ n₁ ls₂ n₂ x y.
          behind-BodyIn functions f ls₁ ls₂ (emit_items-BodyIn functions f ast.items m n₁ ls₂ n₂ y))
      e
