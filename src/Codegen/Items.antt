-- ===== src/Codegen/Items.antt =====
-- The labels of the code of functions, one behind the other (`Codegen::emit`).
use snap_surf_lang.Prelude.{
  ◌∙◌, ◌+◌, inr, inl, ap, ℕ, ◌≤◌, Bytes, List, [], ◌∷◌, ◌++◌, Option, none, some, ◌≡◌, refl, sym,
  arith, Run, done, panic, out_of_fuel, Post, if◌then◌else◌,
}
use snap_surf_lang.Ast.{FnDecl, Item, use_item, fn_item}
use snap_surf_lang.Codegen.Asm.{local_label, str_label, Label, fn_label, Line, define, fn_end}
use snap_surf_lang.Codegen.Stmts.{emit_block, Emits, Names, emits, ◌then◌}
use snap_surf_lang.Codegen.Fns.{prologue, epilogue, env_of, emit_fn, emit_items}
use snap_surf_lang.Codegen.Labels.{
  other, numbered, Given, label_of, count, count-append, Defines, Refers, Labels, InTable,
  Labels-self,
}
use snap_surf_lang.Codegen.Tidy.{in_range-join, in_range, times, Good, Tidy}
use mathlib.Core.Path.{subst}
use snap_surf_lang.Codegen.Scopes.{
  Visible, last_scope, Found, Resolves, Found-left, Found-right, Found-split, Resolves-append,
  no_strings, Defines-Found, Refers-Resolves,
}
use snap_surf_lang.Codegen.FnLabels.{emit_fn-Tidy}

pub done-eq {ℓ} : {A : Type ℓ} {a b : A} → done a ≡ done b → a ≡ b
done-eq h = cc

-- What two operations emit is what each of them does.
pub then-split :
    (m k : Emits) (s s' : Names) (ls : List Line)
    → (m then k) s ≡ done (ls, s')
    → (a : List Line) × (s₁ : Names) × (b : List Line) × (m s ≡ done (a, s₁))
      × (k s₁ ≡ done (b, s'))
      × (ls ≡ a ++ b)
then-split m k s s' ls e = first (m s) refl
  where
    first :
        (r : Run (List Line × Names))
        → m s ≡ r
        → (a : List Line) × (s₁ : Names) × (b : List Line) × (m s ≡ done (a, s₁))
          × (k s₁ ≡ done (b, s'))
          × (ls ≡ a ++ b)
    first (done (a, s₁)) p = second (k s₁) refl
      where
        second :
            (r : Run (List Line × Names))
            → k s₁ ≡ r
            → (a : List Line) × (s₁ : Names) × (b : List Line) × (m s ≡ done (a, s₁))
              × (k s₁ ≡ done (b, s'))
              × (ls ≡ a ++ b)
        second (done (b, s₂)) q =
            let z : done (a ++ b, s₂) ≡ done (ls, s') = rw (p, q) at e in
            let w : (a ++ b, s₂) ≡ (ls, s') = done-eq z in
            (a, s₁, b, p, rw (ap (λ r. r.1) w) at q, sym (ap (λ r. r.0) w))
        second panic q = let z : panic ≡ done (ls, s') = rw (p, q) at e in cc
        second out_of_fuel q = let z : out_of_fuel ≡ done (ls, s') = rw (p, q) at e in cc
    first panic p = let z : panic ≡ done (ls, s') = rw p at e in cc
    first out_of_fuel p = let z : out_of_fuel ≡ done (ls, s') = rw p at e in cc

some-eq : {A : Type 0} {a b : A} → some a ≡ some b → a ≡ b
some-eq e = cc

emit_fn-Good :
    (S T : Label → Type 0) (functions : List Bytes) (f : FnDecl) (s s₁ : Names) (ls : List Line)
    → emit_fn functions f s ≡ done (ls, s₁)
    → Good S T (Unit {0}) (fn_label f.name ∷ []) s (ls, s₁)
unfolding Tidy
emit_fn-Good S T functions f s s₁ ls e =
    subst (λ m. Post (Unit {0}) (Good S T (Unit {0}) (fn_label f.name ∷ []) s) m) e
      (emit_fn-Tidy S T functions f s)

-- The code of a function starts with its label.
emit_fn-head :
    (functions : List Bytes) (f : FnDecl) (s s₁ : Names) (ls : List Line)
    → emit_fn functions f s ≡ done (ls, s₁)
    → (tail : List Line) × (ls ≡ define (fn_label f.name) ∷ tail)
unfolding emit_fn prologue
emit_fn-head functions f s s₁ ls e =
    let end = local_label fn_end s.label_id in
    let (a, s₂, b, p, q, w) =
      then-split (emits (prologue f))
        (emit_block functions (env_of f end) f.body then emits (epilogue f end))
        (record s { label_id = s.label_id + 1 }) s₁ ls e in
    let v : (prologue f, _) ≡ (a, s₂) = done-eq p in
    (_, w ∙ ap (λ a. a ++ b) (sym (ap (λ r. r.0) v)))

Labels-weaken :
    (P Q : Label → Type 0) (xs : List Line) → ((l : Label) → P l → Q l) → Labels P xs → Labels Q xs
unfolding Labels
Labels-weaken P Q [] f h = tt
Labels-weaken P Q (x ∷ xs) f (g, h) = (one (label_of x) g, Labels-weaken P Q xs f h)
  where
    one : (o : Option Label) → Given P o → Given Q o
    one none g = tt
    one (some l) g = f l g

module _ (R J : Bytes → Label → Type 0) where
  -- Lines behind the label of `h` that define each number once, and no string, and whose references
  -- hold where `J` holds of the labels that are found in them, and `R` of the strings.
  pub record Fine (s : Names) (h : Bytes) (ls : List Line) (s' : Names) : Type 0 where
    pub ids : s.label_id ≤ s'.label_id
    pub once : (n : ℕ) → count (numbered n) ls ≤ in_range s.label_id s'.label_id (numbered n)
    pub table : (g : Bytes) → InTable (R g) s'.strings → InTable (R g) s.strings
    pub strings_behind : (g : Bytes) (n : ℕ) → Found g (str_label n) h ls → ⊥
    pub resolved :
        ((g : Bytes) (l : Label) → Found g l h ls → J g l)
        → ((g : Bytes) → InTable (R g) s'.strings)
        → Resolves R J h ls

  pub append-Fine :
      (s s₁ s' : Names) (h : Bytes) (a b : List Line)
      → Fine s h a s₁
      → Fine s₁ (last_scope h a) b s'
      → Fine s h (a ++ b) s'
  append-Fine s s₁ s' h a b f g = record {
    ids = omega (arith, f.ids, g.ids);
    once = λ n. omega (
      arith,
      count-append (numbered n) a b,
      f.once n,
      g.once n,
      in_range-join s.label_id s₁.label_id s'.label_id (numbered n) f.ids g.ids,
    );
    table = λ k t. f.table k (g.table k t);
    strings_behind = λ k n x. elim (Found-split k (str_label n) h a b x) [
      | inl y ↦ f.strings_behind k n y
      | inr y ↦ g.strings_behind k n y
    ];
    resolved = λ j t.
        Resolves-append R J h a b
          (f.resolved (λ k l x. j k l (Found-left k l h a b x)) (λ k. g.table k (t k)))
          (g.resolved (λ k l x. j k l (Found-right k l h a b x)) t);
  }

  -- The code of a function.
  module _ (name h : Bytes) (s s₁ : Names) (tail : List Line)
      (good : (S T : Label → Type 0)
        → Good S T (Unit {0}) (fn_label name ∷ []) s (define (fn_label name) ∷ tail, s₁)) where
    tail_stays : count other tail ≡ 0
    unfolding count times in_range
    tail_stays =
        let (_, b, _, _, _) = good (λ l. Unit) (λ l. Unit) in let z = b other in omega (arith, z)

    fn-Found :
        (l : Label)
        → Defines l (define (fn_label name) ∷ tail)
        → Found name l h (define (fn_label name) ∷ tail)
    unfolding Defines Found
    fn-Found l (inl p) = inl (p, subst (λ l. Visible l name h) (some-eq p) tt)
    fn-Found l (inr d) = inr (Defines-Found name l tail tail_stays d)

    no_string : (g : Bytes) (n : ℕ) → Found g (str_label n) h (define (fn_label name) ∷ tail) → ⊥
    unfolding Found
    no_string g n (inl (p, v)) = cc
    no_string g n (inr f) = no_strings g name n tail tail_stays f

    fn-Resolves :
        ((g : Bytes) (l : Label) → Found g l h (define (fn_label name) ∷ tail) → J g l)
        → ((g : Bytes) → InTable (R g) s₁.strings)
        → Resolves R J h (define (fn_label name) ∷ tail)
    unfolding Resolves Refers
    fn-Resolves j t =
        let (_, _, _, _, e) = good (R name) (J name) in
        let all = Labels-weaken _ (J name) _ (λ l d. j name l (fn-Found l d)) (Labels-self _) in
        (tt, Refers-Resolves R J name tail tail_stays (e tt (t name) all).1)

    fn-Fine : Fine s h (define (fn_label name) ∷ tail) s₁
    unfolding times
    fn-Fine = record {
      ids = let (a, _, _, _, _) = good (λ l. Unit) (λ l. Unit) in a;
      once = λ n.
          let (_, b, _, _, _) = good (λ l. Unit) (λ l. Unit) in
          let z = b (numbered n) in omega (arith, z);
      table = λ g. let (_, _, c, _, _) = good (R g) (λ l. Unit) in c;
      strings_behind = no_string;
      resolved = fn-Resolves;
    }

  -- Nothing is emitted.
  none-Fine : (s : Names) (h : Bytes) → Fine s h [] s
  unfolding count Found Resolves
  none-Fine s h = record {
    ids = omega arith;
    once = λ n. omega arith;
    table = λ g t. t;
    strings_behind = λ g n f. f;
    resolved = λ j t. tt;
  }

  module _ (functions : List Bytes) where
    emit_fn-Fine :
        (f : FnDecl) (s s₁ : Names) (ls : List Line) (h : Bytes)
        → emit_fn functions f s ≡ done (ls, s₁)
        → Fine s h ls s₁
    emit_fn-Fine f s s₁ ls h e =
        let (tail, p) = emit_fn-head functions f s s₁ ls e in
        subst (λ ls. Fine s h ls s₁) (sym p)
          (fn-Fine f.name h s s₁ tail λ S T.
            subst (λ ls. Good S T (Unit {0}) (fn_label f.name ∷ []) s (ls, s₁)) p
              (emit_fn-Good S T functions f s s₁ ls e))

    pub emit_items-Fine :
        (is : List Item) (s s' : Names) (ls : List Line) (h : Bytes)
        → emit_items functions is s ≡ done (ls, s')
        → Fine s h ls s'
    unfolding emit_items
    emit_items-Fine [] s s' ls h e =
        let w : ([], s) ≡ (ls, s') = done-eq e in subst (λ r. Fine s h r.0 r.1) w (none-Fine s h)
    emit_items-Fine (use_item u ∷ is) s s' ls h e = emit_items-Fine is s s' ls h e
    emit_items-Fine (fn_item f ∷ is) s s' ls h e =
        let (a, s₁, b, p, q, w) =
          then-split (emit_fn functions f) (emit_items functions is) s s' ls e in
        subst (λ ls. Fine s h ls s') (sym w)
          (append-Fine s s₁ s' h a b (emit_fn-Fine f s s₁ a h p)
            (emit_items-Fine is s₁ s' b (last_scope h a) q))
