-- ===== src/Codegen/FnLabels.antt =====
-- The labels of the code of a function (`emit_fn`).
use snap_surf_lang.Prelude.{
  ℕ, suc, Bytes, text, text_eq, Bool, true, false, List, [], ◌∷◌, ◌++◌, Option, none, some, ◌≡◌,
  refl, arith, if◌then◌else◌,
}
use snap_surf_lang.Ast.{Param, FnDecl}
use snap_surf_lang.Codegen.Asm.{Reg, Label, fn_label, Line, define, fixed, sub_rsp, xor_eax, fn_end}
use snap_surf_lang.Codegen.Stmts.{emits, ◌then◌}
use snap_surf_lang.Codegen.Fns.{
  store_param, store_params, fn_locals, prologue, epilogue, env_of, emit_fn,
}
use snap_surf_lang.Codegen.Labels.{
  Kind, target_of, label_of, count, count-append, Refers, Labels, Every, Refers-append,
}
use snap_surf_lang.Codegen.Tidy.{times, Tidy, then-Tidy, weaken-Tidy, with_label-Tidy, emits-Tidy}
use snap_surf_lang.Codegen.Jumps.{emit_block-Tidy}

module _ (S T : Label → Type 0) where
  -- Lines without a label of `Codegen::label`, which refer to none.
  abbrev Quiet : List Line → Type 0
  Quiet ls = ((n : Kind) → count n ls ≡ 0) × Refers S T ls

  append-Quiet : (a b : List Line) → Quiet a → Quiet b → Quiet (a ++ b)
  append-Quiet a b (c, r) (c', r') =
      (λ n. omega (arith, count-append n a b, c n, c' n), Refers-append S T a b r r')

  Quiet-Tidy : (ls : List Line) → Quiet ls → Tidy S T (Unit {0}) [] (emits ls)
  unfolding times Every
  Quiet-Tidy ls (c, r) = emits-Tidy S T (Unit {0}) [] ls c (λ h. tt) λ k h. r

  store_param-Quiet : (o : Option ℕ) (r : Option Reg) → Quiet (store_param o r)
  unfolding store_param count Refers
  store_param-Quiet none r = (λ n. refl, tt)
  store_param-Quiet (some offset) none = (λ n. refl, tt)
  store_param-Quiet (some offset) (some r) = (λ n. refl, (tt, tt))

  store_params-Quiet :
      (locals : List (Bytes × ℕ)) (idx : ℕ) (ps : List Param) → Quiet (store_params locals idx ps)
  unfolding store_params count Refers
  store_params-Quiet locals idx [] = (λ n. refl, tt)
  store_params-Quiet locals idx (p ∷ ps) =
      append-Quiet _ _ (store_param-Quiet _ _) (store_params-Quiet locals (suc idx) ps)

  when-Quiet :
      (b : Bool) (l : Line)
      → target_of l ≡ none
      → label_of l ≡ none
      → Quiet (if b then l ∷ [] else [])
  unfolding count Refers
  when-Quiet true l p q = (λ n. rw q refl, rw p (tt, tt))
  when-Quiet false l p q = (λ n. refl, tt)

  -- The label of a function, and lines without one.
  head-Tidy :
      (K : Type 0) (l : Label) (ls : List Line)
      → Quiet ls
      → Tidy S T K (l ∷ []) (emits (define l ∷ ls))
  unfolding times Every Refers Labels count
  head-Tidy K l ls (c, r) =
      emits-Tidy S T K (l ∷ []) (define l ∷ ls) (λ k. omega (arith, c k)) (λ h. (h.0, tt))
        λ k h. (tt, r)

  prologue-Tidy : (K : Type 0) (f : FnDecl) → Tidy S T K (fn_label f.name ∷ []) (emits (prologue f))
  unfolding prologue count Refers
  prologue-Tidy K f = head-Tidy K (fn_label f.name) _ (
      append-Quiet (fixed (text "    push rbp") ∷ fixed (text "    mov rbp, rsp") ∷ []) _
        (λ n. refl, (tt, (tt, tt)))
        (append-Quiet _ _ (when-Quiet _ (sub_rsp _) refl refl)
          (store_params-Quiet (fn_locals f) 0 f.params)))

  epilogue-Tidy :
      (K : Type 0) (f : FnDecl) (end : Label) → Tidy S T K (end ∷ []) (emits (epilogue f end))
  unfolding epilogue count times Refers Labels Every
  epilogue-Tidy K f end =
      let void = when-Quiet (text_eq f.ret.name (text "void")) xor_eax refl refl in
      then-Tidy S T K [] (end ∷ [])
        (emits (if text_eq f.ret.name (text "void") then xor_eax ∷ [] else [])) _
        (weaken-Tidy S T (Unit {0}) K [] _ (λ k. tt) (Quiet-Tidy _ void))
        (emits-Tidy S T K (end ∷ [])
          (define end
            ∷ fixed (text "    mov rsp, rbp")
            ∷ fixed (text "    pop rbp")
            ∷ fixed (text "    ret")
            ∷ fixed []
            ∷ [])
          (λ n. refl) (λ h. (h.0, tt)) λ k h. (tt, (tt, (tt, (tt, (tt, tt))))))

  pub emit_fn-Tidy :
      (functions : List Bytes) (f : FnDecl)
      → Tidy S T (Unit {0}) (fn_label f.name ∷ []) (emit_fn functions f)
  unfolding emit_fn Every
  emit_fn-Tidy functions f = with_label-Tidy S T (Unit {0}) (fn_label f.name ∷ []) fn_end _ λ end.
      then-Tidy S T (T end × Unit {0}) (fn_label f.name ∷ []) (end ∷ []) _ _
        (prologue-Tidy (T end × Unit {0}) f)
        (then-Tidy S T (T end × Unit {0}) [] (end ∷ []) _ _
          (weaken-Tidy S T _ (T end × Unit {0}) [] _ (λ k. (k.0, tt, tt))
            (emit_block-Tidy S T functions (env_of f end) f.body))
          (epilogue-Tidy (T end × Unit {0}) f end))
