-- ===== src/Sema/WellFormed/Programs.antt =====
-- The checker of sema.rs accepts exactly the well-formed functions and programs.
use mathlib.Core.Bool.{and-eq-true_iff}
use snap_surf_lang.Prelude.{
  Bytes, text, text_eq_iff, text_eq_refl, Bool, true, false, not, ◌&&◌, List, [], ◌∷◌, Option, none,
  some, ◌≡◌, ◌↔◌, ◌⊎◌, refl, inl, inr, Option-cases, arith, All,
}
use snap_surf_lang.Prelude.Maps.{get, is_present}
use snap_surf_lang.Package.{Package, PackageType, executable, library, build_script}
use snap_surf_lang.Ast.{Param, FnDecl, Item, use_item, fn_item, SourceAst}
use snap_surf_lang.Sema.Types.{FnSig}
use snap_surf_lang.Sema.Emit.{pure, append-eq-nil, when-silent, when}
use snap_surf_lang.Sema.Exprs.{Checker, requires}
use snap_surf_lang.Sema.Stmts.{
  block_returns, check_block, declare_params, start_ctx, check_fn, check_items, checker, collect,
  is_main_signature, check_main, check_program,
}
use snap_surf_lang.Sema.Typing.Operators.{not-false, cons-ne-nil}
use snap_surf_lang.Sema.Typing.Calls.{no_params}
use snap_surf_lang.Sema.WellFormed.{
  Vars, WfParams, params_end, param_ok, WfFn, fn_ok, WfTable, table_end, table_use, table_fn,
  WfMain, WfItem, WfProgram,
}
use snap_surf_lang.Sema.WellFormed.Returning.{
  block_returns-BlockReturns, BlockReturns-block_returns,
}
use snap_surf_lang.Sema.WellFormed.Statements.{check_block-WfBlock}
use snap_surf_lang.Sema.WellFormed.Accepts.{WfBlock-check_block}

and_false : (b : Bool) → (b && false) ≡ false
and_false true = refl
and_false false = refl

absent : {V : Type 0} (o : Option V) → is_present o ≡ false → o ≡ none
absent none h = refl
absent (some v) h = cc

module _ (self : Checker) where
  declare_params-WfParams :
      (ps : List Param) (vs : Vars)
      → (declare_params self ps vs).0 ≡ []
      → WfParams self ps vs (declare_params self ps vs).1
  unfolding declare_params
  declare_params-WfParams [] vs h = params_end
  declare_params-WfParams (p ∷ ps) vs h =
      let (x, y) = append-eq-nil (when (is_present (get p.name vs)) _).0 _ h in
      let q = absent _ (when-silent _ _ _ _ _ x) in
      rw q (param_ok q (declare_params-WfParams ps _ (rw q at y)))

  WfParams-declare_params :
      {ps : List Param} {vs ws : Vars}
      → WfParams self ps vs ws
      → declare_params self ps vs ≡ ([], ws)
  unfolding declare_params
  WfParams-declare_params params_end = refl
  WfParams-declare_params (param_ok q m) = rw (q, WfParams-declare_params m) refl

  returned : (v r : Bool) → (not v && not r) ≡ false → (v ≡ true) ⊎ (r ≡ true)
  returned true r h = inl refl
  returned false true h = inr refl
  returned false false h = cc

  check_fn-WfFn : (f : FnDecl) → (check_fn self f).0 ≡ [] → WfFn self f
  unfolding check_fn
  check_fn-WfFn f h =
      let (x, h) = append-eq-nil (declare_params self f.params []).0 _ h in
      let ctx = start_ctx self f (declare_params self f.params []).1 in
      let (y, z) = append-eq-nil (check_block self f.body ctx).0 _ h in
      fn_ok (declare_params-WfParams f.params [] x) (check_block-WfBlock self f.body ctx y)
        (elim (returned _ (block_returns f.body) (when-silent _ _ _ _ _ z)) [
          | inl e ↦ inl ((text_eq_iff _ _).0 e)
          | inr e ↦ inr (block_returns-BlockReturns f.body e)
        ])

  WfFn-check_fn : {f : FnDecl} → WfFn self f → check_fn self f ≡ pure tt
  unfolding check_fn
  WfFn-check_fn (fn_ok ps b (inl e)) =
      rw (WfParams-declare_params ps, WfBlock-check_block self b, e, text_eq_refl) refl
  WfFn-check_fn (fn_ok ps b (inr r)) =
      let e = BlockReturns-block_returns r in
      rw (WfParams-declare_params ps, WfBlock-check_block self b, e, and_false) refl

module _ (pkg : Package) (file_path : Bytes) where
  collect-WfTable :
      (is : List Item) (fs : List (Bytes × FnSig))
      → (collect pkg file_path is fs).0 ≡ []
      → WfTable pkg file_path is fs (collect pkg file_path is fs).1
  unfolding collect
  collect-WfTable [] fs h = table_end
  collect-WfTable (use_item u ∷ is) fs h = table_use (collect-WfTable is fs h)
  collect-WfTable (fn_item f ∷ is) fs h = elim (Option-cases (get f.name fs)) [
    | inl q ↦
        let (x, y) =
          append-eq-nil
            (when (f.is_unsafe && not (requires (checker pkg file_path fs) (text "unsafe"))) _).0 _
            (rw q at h) in
        rw q (
          table_fn q
            (capable (
              when-silent (f.is_unsafe && not (requires (checker pkg file_path fs) (text "unsafe")))
                _ _ _ _ x))
            (collect-WfTable is _ y))
    | inr (sig, q) ↦ absurd (cons-ne-nil (rw q at h))
  ]
    where
      capable : {u c : Bool} → (u && not c) ≡ false → u ≡ true → c ≡ true
      capable h e = ground arith

  WfTable-collect :
      {is : List Item} {fs gs : List (Bytes × FnSig)}
      → WfTable pkg file_path is fs gs
      → collect pkg file_path is fs ≡ ([], gs)
  unfolding collect
  WfTable-collect table_end = refl
  WfTable-collect (table_use t) = WfTable-collect t
  WfTable-collect (table_fn {f = f} q c t) = rw (q, WfTable-collect t, capable f.is_unsafe c) refl
    where
      capable : (u : Bool) {c : Bool} → (u ≡ true → c ≡ true) → (u && not c) ≡ false
      capable true h = rw (h refl) refl
      capable false h = refl

  check_main-WfMain :
      (fs : List (Bytes × FnSig)) (ast : SourceAst)
      → (check_main pkg file_path fs ast.span).0 ≡ []
      → WfMain pkg file_path fs
  unfolding check_main
  check_main-WfMain fs ast h e = elim (Option-cases (get (text "main") fs)) [
    | inl q ↦ absurd (cons-ne-nil (rw (e, q, check_main) at h))
    | inr (sig, q) ↦
        let (a, u) = (and-eq-true_iff _ _).0 (
          not-false (
            when-silent (not (is_main_signature pkg file_path sig)) _ _ _ _
              (rw (e, q, check_main) at h))) in
        let (p, r) = (and-eq-true_iff _ _).0 a in
        (sig, q, no_params _ p, (text_eq_iff _ _).0 r, not-true u)
  ]
    where
      not-true : {b : Bool} → not b ≡ true → b ≡ false
      not-true h = ground arith

  check_items-All :
      (fs : List (Bytes × FnSig)) (is : List Item)
      → (check_items (checker pkg file_path fs) is).0 ≡ []
      → All (WfItem pkg file_path fs) is
  unfolding check_items
  check_items-All fs [] h = tt
  check_items-All fs (use_item u ∷ is) h = (tt, check_items-All fs is h)
  check_items-All fs (fn_item f ∷ is) h =
      let (x, y) = append-eq-nil (check_fn (checker pkg file_path fs) f).0 _ h in
      (check_fn-WfFn (checker pkg file_path fs) f x, check_items-All fs is y)

  All-check_items :
      (fs : List (Bytes × FnSig)) (is : List Item)
      → All (WfItem pkg file_path fs) is
      → check_items (checker pkg file_path fs) is ≡ pure tt
  unfolding check_items
  All-check_items fs [] a = refl
  All-check_items fs (use_item u ∷ is) (w, a) = All-check_items fs is a
  All-check_items fs (fn_item f ∷ is) (w, a) =
      rw (WfFn-check_fn (checker pkg file_path fs) w, All-check_items fs is a) refl

  WfMain-check_main :
      (fs : List (Bytes × FnSig)) (ast : SourceAst)
      → WfMain pkg file_path fs
      → check_main pkg file_path fs ast.span ≡ pure tt
  unfolding check_main
  WfMain-check_main fs ast w = go pkg.package_type refl
    where
      go : (t : PackageType) → pkg.package_type ≡ t → check_main pkg file_path fs ast.span ≡ pure tt
      go executable e =
          let (sig, q, p, r, u) = w e in rw (e, check_main, q, p, r, u, text_eq_refl) refl
      go library e = rw e refl
      go build_script e = rw e refl

  -- The checker reports nothing on a program exactly when the program is well formed: functions with
  -- different names, `fn main -> i32` in an executable, the capabilities that unsafe functions and
  -- blocks, `io.write` and `mem.alloc` need, and functions whose parameters have different names,
  -- whose statements follow the typing rules and declare each name once, and that return where
  -- they have a return type.
  pub check_program_iff :
      (ast : SourceAst) → (check_program pkg file_path ast ≡ []) ↔ WfProgram pkg file_path ast
  unfolding check_program
  check_program_iff ast = (sound, complete)
    where
      sound : check_program pkg file_path ast ≡ [] → WfProgram pkg file_path ast
      sound h =
          let (x, h) = append-eq-nil (collect pkg file_path ast.items []).0 _ h in
          let (y, z) =
            append-eq-nil
              (check_main pkg file_path (collect pkg file_path ast.items []).1 ast.span).0 _ h in
          record {
            functions = (collect pkg file_path ast.items []).1;
            table = collect-WfTable ast.items [] x;
            main_ok = check_main-WfMain _ ast y;
            items_ok = check_items-All _ ast.items z;
          }

      complete : WfProgram pkg file_path ast → check_program pkg file_path ast ≡ []
      complete w =
          rw
            (
              WfTable-collect w.table,
              WfMain-check_main w.functions ast w.main_ok,
              All-check_items w.functions ast.items w.items_ok,
            )
            refl
