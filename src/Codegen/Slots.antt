-- ===== src/Codegen/Slots.antt =====
-- The slots of the variables of a function (`collect_locals`, `emit_fn` in codegen.rs).
use snap_surf_lang.Prelude.{
  ℕ, ◌+◌, ◌*◌, ◌%◌, ◌^◌, ◌≤◌, ◌<◌, Bytes, text_eq, text_eq_iff, List, [], ◌∷◌, none, some, ◌≡◌, ◌≢◌,
  refl, sym, ◌∙◌, inl, inr, ◌⊎◌, All, length, ltb, arith, Bool-cases, Option-cases,
}
use snap_surf_lang.Prelude.Maps.{get, insert, get-insert}
use mathlib.Core.Path.{subst}
use mathlib.Core.List.{Memᴰ}
use snap_surf_lang.Package.{Package}
use snap_surf_lang.Ast.{
  Stmt, Stmts, Block, ElseBlock, let_stmt, mut_stmt, assign_stmt, ret_stmt, if_stmt, loop_stmt,
  while_stmt, break_stmt, continue_stmt, unsafe_stmt, expr_stmt, error_stmt, block, no_stmts,
  more_stmts, no_else, else_block, Param, FnDecl, Item, use_item, fn_item, SourceAst,
}
use snap_surf_lang.Sema.Types.{FnSig, VarInfo}
use snap_surf_lang.Sema.Exprs.{Checker}
use snap_surf_lang.Sema.Stmts.{checker, check_program}
use snap_surf_lang.Sema.WellFormed.{Vars, WfParams, WfFn, WfItem, params_end, param_ok, fn_ok}
use snap_surf_lang.Sema.WellFormed.Programs.{check_program_iff}
use snap_surf_lang.Codegen.Stmts.{
  next_offset, add_local, collect_stmt, collect_locals, collect_stmts, collect_else,
}
use snap_surf_lang.Codegen.Fns.{align16, param_locals, fn_locals}
use snap_surf_lang.Codegen.Locals.{IsIn, insert-IsIn}

module _ {V : Type 0} where
  length-insert :
      (k : Bytes) (v : V) (m : List (Bytes × V))
      → get k m ≡ none
      → length (insert k v m) ≡ length m + 1
  unfolding get insert
  length-insert k v [] e = refl
  length-insert k v ((j, w) ∷ m) e = elim (Bool-cases (text_eq j k)) [
    | inl q ↦ let x : some w ≡ none = rw q at e in cc
    | inr q ↦ let x : get k m ≡ none = rw q at e in rw q (omega (arith, length-insert k v m x))
  ]

-- The offsets are multiples of eight from 8 to the size of the slots, and no two names share one.
pub record Laid (locals : List (Bytes × ℕ)) : Type 0 where
  pub low : (k : Bytes) (o : ℕ) → get k locals ≡ some o → 8 ≤ o
  pub high : (k : Bytes) (o : ℕ) → get k locals ≡ some o → o ≤ length locals * 8
  pub aligned : (k : Bytes) (o : ℕ) → get k locals ≡ some o → o % 8 ≡ 0
  pub distinct : (k j : Bytes) (o : ℕ) → get k locals ≡ some o → get j locals ≡ some o → k ≡ j

-- They are, while the offsets are positive numbers of an `i32`.
unfoldable pub Fits : List (Bytes × ℕ) → Type 0
Fits locals = length locals * 8 < 2 ^ 31 → Laid locals

pub no_slots-Fits : Fits []
unfolding Fits get
no_slots-Fits h = record {
  low = λ k o e. cc;
  high = λ k o e. cc;
  aligned = λ k o e. cc;
  distinct = λ k j o e e'. cc;
}

module _ (n : Bytes) (locals : List (Bytes × ℕ)) (fresh : get n locals ≡ none) where
  offset : ℕ
  offset = (length locals + 1) * 8

  -- A name of the new table has the new offset or one of the old table.
  new_or_old :
      (k : Bytes) (o : ℕ)
      → get k (insert n offset locals) ≡ some o
      → ((n ≡ k) × (o ≡ offset)) ⊎ (get k locals ≡ some o)
  new_or_old k o e = elim (Bool-cases (text_eq n k)) [
    | inl q ↦
        let x : some offset ≡ some o = rw (get-insert n k offset locals, q) at e in
        inl ((text_eq_iff n k).0 q, cc)
    | inr q ↦ inr (rw (get-insert n k offset locals, q) at e)
  ]

  insert-Laid : Laid locals → Laid (insert n offset locals)
  unfolding offset
  insert-Laid h = record {
    low = λ k o e. elim (new_or_old k o e) [ inl (p, q) ↦ omega (arith, q) | inr q ↦ h.low k o q ];
    high = λ k o e. elim (new_or_old k o e) [
      | inl (p, q) ↦ omega (arith, q, length-insert n offset locals fresh)
      | inr q ↦ omega (arith, h.high k o q, length-insert n offset locals fresh)
    ];
    aligned = λ k o e. elim (new_or_old k o e) [
      | inl (p, q) ↦ omega (arith, q)
      | inr q ↦ h.aligned k o q
    ];
    distinct = λ k j o e e'. elim (new_or_old k o e) [
      | inl (p, q) ↦ elim (new_or_old j o e') [
        | inl (p', q') ↦ sym p ∙ p'
        | inr q' ↦ absurd (omega (arith, q, h.high j o q'))
      ]
      | inr q ↦ elim (new_or_old j o e') [
        | inl (p', q') ↦ absurd (omega (arith, q', h.high k o q))
        | inr q' ↦ h.distinct k j o q q'
      ]
    ];
  }

  pub insert-Fits : Fits locals → Fits (insert n (next_offset locals) locals)
  unfolding Fits next_offset offset
  insert-Fits h b =
      let bound : (length locals + 1) * 8 < 2 ^ 31 =
        omega (arith, length-insert n (next_offset locals) locals fresh) in
      let eq : next_offset locals ≡ offset = omega arith in rw eq (insert-Laid (h (omega arith)))

pub add_local-Fits :
    (n : Bytes) (locals : List (Bytes × ℕ)) → Fits locals → Fits (add_local n locals)
unfolding add_local
add_local-Fits n locals h = elim (Option-cases (get n locals)) [
  | inl q ↦ rw (add_local, q) (insert-Fits n locals q h)
  | inr (o, q) ↦ rw (add_local, q) h
]

mutual
  unfolding collect_stmt collect_locals collect_stmts collect_else

  collect_stmt-Fits :
      (s : Stmt) (locals : List (Bytes × ℕ)) → Fits locals → Fits (collect_stmt s locals)
  collect_stmt-Fits (let_stmt name ty e sp) locals h = add_local-Fits name locals h
  collect_stmt-Fits (mut_stmt name ty e sp) locals h = add_local-Fits name locals h
  collect_stmt-Fits (assign_stmt name e sp) locals h = h
  collect_stmt-Fits (ret_stmt e sp) locals h = h
  collect_stmt-Fits (if_stmt c t e sp) locals h =
      collect_else-Fits e _ (collect_locals-Fits t locals h)
  collect_stmt-Fits (loop_stmt b sp) locals h = collect_locals-Fits b locals h
  collect_stmt-Fits (while_stmt c b sp) locals h = collect_locals-Fits b locals h
  collect_stmt-Fits (break_stmt sp) locals h = h
  collect_stmt-Fits (continue_stmt sp) locals h = h
  collect_stmt-Fits (unsafe_stmt b sp) locals h = collect_locals-Fits b locals h
  collect_stmt-Fits (expr_stmt e sp) locals h = h
  collect_stmt-Fits (error_stmt sp) locals h = h

  pub collect_locals-Fits :
      (b : Block) (locals : List (Bytes × ℕ)) → Fits locals → Fits (collect_locals b locals)
  collect_locals-Fits (block ss sp) locals h = collect_stmts-Fits ss locals h

  collect_stmts-Fits :
      (ss : Stmts) (locals : List (Bytes × ℕ)) → Fits locals → Fits (collect_stmts ss locals)
  collect_stmts-Fits no_stmts locals h = h
  collect_stmts-Fits (more_stmts s ss) locals h =
      collect_stmts-Fits ss _ (collect_stmt-Fits s locals h)

  collect_else-Fits :
      (e : ElseBlock) (locals : List (Bytes × ℕ)) → Fits locals → Fits (collect_else e locals)
  collect_else-Fits no_else locals h = h
  collect_else-Fits (else_block b) locals h = collect_locals-Fits b locals h

empty-IsIn : IsIn {V = ℕ} {W = VarInfo} [] []
unfolding get
empty-IsIn k e = refl

module _ (self : Checker) where
  param_locals-Fits :
      {ps : List Param} {vs ws : Vars}
      → WfParams self ps vs ws
      → (locals : List (Bytes × ℕ)) → IsIn locals vs
      → Fits locals
      → Fits (param_locals ps locals)
  unfolding param_locals
  param_locals-Fits params_end locals i h = h
  param_locals-Fits (param_ok p ps) locals i h =
      param_locals-Fits ps _ (insert-IsIn _ _ _ _ _ i) (insert-Fits _ locals (i _ p) h)

  fn_locals-Fits : (f : FnDecl) → WfFn self f → Fits (fn_locals f)
  unfolding fn_locals
  fn_locals-Fits f (fn_ok ps b r) =
      collect_locals-Fits f.body _ (param_locals-Fits ps [] empty-IsIn no_slots-Fits)

-- The offset lies in the space that the prologue reserves, which is a multiple of sixteen.
abbrev pub Within : ℕ → FnDecl → Type 0
Within o f = (8 ≤ o) × (o % 8 ≡ 0) × (o ≤ align16 (length (fn_locals f) * 8))

align16_bounds : (n : ℕ) → (n ≤ align16 n) × (align16 n % 16 ≡ 0)
unfolding align16
align16_bounds n = omega arith

wf_fn :
    (pkg : Package) (path : Bytes) (fs : List (Bytes × FnSig)) (is : List Item) (f : FnDecl)
    → Memᴰ (fn_item f) is
    → All (WfItem pkg path fs) is
    → WfFn (checker pkg path fs) f
wf_fn pkg path fs (fn_item g ∷ is) f (Memᴰ.head q) (w, ws) =
    let p : g ≡ f = cc in subst (WfFn (checker pkg path fs)) p w
wf_fn pkg path fs (use_item u ∷ is) f (Memᴰ.head q) (w, ws) = cc
wf_fn pkg path fs (i ∷ is) f (Memᴰ.tail m) (w, ws) = wf_fn pkg path fs is f m ws
wf_fn pkg path fs [] f m h = elim m [ ]

-- The two slots of eight bytes do not overlap.
abbrev pub Apart : ℕ → ℕ → Type 0
Apart o o' = (o + 8 ≤ o') ⊎ (o' + 8 ≤ o)

apart : (o o' : ℕ) → o % 8 ≡ 0 → o' % 8 ≡ 0 → o ≢ o' → Apart o o'
apart o o' a a' d = elim (Bool-cases (ltb o o')) [
  | inl q ↦ inl (ground (arith, d))
  | inr q ↦ inr (ground (arith, d))
]

slot-Within :
    (f : FnDecl)
    → Laid (fn_locals f)
    → (k : Bytes) (o : ℕ) → get k (fn_locals f) ≡ some o
    → Within o f
slot-Within f h k o e = (
  h.low k o e,
  h.aligned k o e,
  omega (arith, h.high k o e, align16_bounds (length (fn_locals f) * 8)),
)

-- In a program on which the checker reports nothing, two variables of a function have slots of
-- eight bytes that do not overlap, aligned to eight bytes and inside the space that the prologue
-- reserves, where the function has less than 2^28 variables.
pub fn_locals-Apart :
    (pkg : Package) (path : Bytes) (ast : SourceAst) (f : FnDecl) (k j : Bytes) (o o' : ℕ)
    → check_program pkg path ast ≡ []
    → Memᴰ (fn_item f) ast.items
    → length (fn_locals f) < 2 ^ 28
    → k ≢ j
    → get k (fn_locals f) ≡ some o
    → get j (fn_locals f) ≡ some o'
    → Within o f × (Within o' f × Apart o o')
unfolding Fits
fn_locals-Apart pkg path ast f k j o o' h m b d e e' =
    let w = (check_program_iff pkg path ast).0 h in
    let wf = wf_fn pkg path w.functions ast.items f m w.items_ok in
    let laid = fn_locals-Fits (checker pkg path w.functions) f wf (omega arith) in
    (
      slot-Within f laid k o e,
      (
        slot-Within f laid j o' e',
        apart o o' (laid.aligned k o e) (laid.aligned j o' e')
            λ q. d (laid.distinct k j o e (rw q e')),
      ),
    )
