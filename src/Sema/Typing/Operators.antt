-- ===== src/Sema/Typing/Operators.antt =====
-- The operators of sema.rs against their typing rules.
use mathlib.Core.Bool.{and-eq-true_iff}
use snap_surf_lang.Prelude.{
  Bytes, text, text_eq, text_eq_iff, text_eq_refl, Bool, true, false, not, ◌||◌, [], ◌≡◌, refl, inl,
  inr, Bool-cases, arith, ℕ, List, ◌∷◌, ==_iff,
}
use snap_surf_lang.Diagnostic.{Span}
use snap_surf_lang.Ast.{
  BinaryOp, add, sub, mul, div, rem, eq, not_eq, lt, lt_eq, gt, gt_eq, and, or, UnaryOp, neg,
}
use snap_surf_lang.Sema.Types.{
  Ty, named, int_literal, ty_eq, is_bool, is_str, is_integer_type, is_numeric_or_literal,
  merge_numeric, compatible_loose,
}
use snap_surf_lang.Sema.Emit.{append-eq-nil, when-silent}
use snap_surf_lang.Sema.Bounds.{
  HasBits, i8, is_integer-HasBits, HasBits-is_integer, literal_fits_iff,
}
use snap_surf_lang.Sema.Exprs.{
  Checker, require_type, unary_type, arithmetic_type, comparison_type, boolean_type, binary_type,
}
use snap_surf_lang.Sema.Typing.{
  IsInteger, literal, typed, Agrees, same_type, fits, reported, Merges, first, second, neither,
  kind_of, arithmetic, comparison, boolean, BinaryType, arith_on, same_on, compare_on, bool_on,
  UnaryType, not_on, neg_on,
}

ty_eq_refl : (t : Ty) → ty_eq t t ≡ true
unfolding ty_eq
ty_eq_refl (named a) = text_eq_refl a
ty_eq_refl (int_literal v) = (==_iff v v).1 refl
ty_eq_refl Ty.error = refl

ty_eq-eq : (t u : Ty) → ty_eq t u ≡ true → t ≡ u
unfolding ty_eq
ty_eq-eq (named a) (named b) h = rw ((text_eq_iff a b).0 h) refl
ty_eq-eq (int_literal v) (int_literal w) h = rw ((==_iff v w).0 h) refl
ty_eq-eq Ty.error Ty.error h = refl
ty_eq-eq _ _ h = cc

pub is_bool-eq : (t : Ty) → is_bool t ≡ true → t ≡ named (text "bool")
unfolding is_bool
is_bool-eq t h = ty_eq-eq t _ h

pub is_bool-bool : is_bool (named (text "bool")) ≡ true
unfolding is_bool
is_bool-bool = ty_eq_refl _

pub is_str-eq : (t : Ty) → is_str t ≡ true → t ≡ named (text "str_static")
unfolding is_str
is_str-eq t h = ty_eq-eq t _ h

pub is_str-str : is_str (named (text "str_static")) ≡ true
unfolding is_str
is_str-str = ty_eq_refl _

pub is_numeric-IsInteger : (t : Ty) → is_numeric_or_literal t ≡ true → IsInteger t
unfolding is_numeric_or_literal
is_numeric-IsInteger (int_literal v) h = literal
is_numeric-IsInteger (named t) h = typed (is_integer-HasBits t h).1
is_numeric-IsInteger Ty.error h = cc

pub IsInteger-is_numeric : {t : Ty} → IsInteger t → is_numeric_or_literal t ≡ true
unfolding is_numeric_or_literal
IsInteger-is_numeric literal = refl
IsInteger-is_numeric (typed b) = HasBits-is_integer b

HasBits-str : {t : Bytes} {k : ℕ} → HasBits t k → text_eq t (text "str_static") ≡ false
unfolding text_eq
HasBits-str i8 = refl
HasBits-str _ = ground arith

-- No integer is a text.
pub IsInteger-is_str : {t : Ty} → IsInteger t → is_str t ≡ false
unfolding is_str ty_eq text_eq
IsInteger-is_str literal = refl
IsInteger-is_str (typed b) = HasBits-str b

merge_numeric-Merges : {t u : Ty} → IsInteger t → IsInteger u → Merges t u (merge_numeric t u)
unfolding merge_numeric
merge_numeric-Merges literal literal = neither
merge_numeric-Merges literal (typed b) = rw (HasBits-is_integer b) second
merge_numeric-Merges (typed b) literal = rw (HasBits-is_integer b) first
merge_numeric-Merges (typed b) (typed c) = rw (HasBits-is_integer b) first

Merges-merge_numeric :
    {t u m : Ty} → IsInteger t → IsInteger u → Merges t u m → merge_numeric t u ≡ m
unfolding merge_numeric
Merges-merge_numeric literal literal neither = refl
Merges-merge_numeric literal (typed b) second = rw (HasBits-is_integer b) refl
Merges-merge_numeric (typed b) literal first = rw (HasBits-is_integer b) refl
Merges-merge_numeric (typed b) (typed c) first = rw (HasBits-is_integer b) refl

pub not-false : {b : Bool} → not b ≡ false → b ≡ true
not-false h = ground arith

pub neither_not : {a b : Bool} → (not a || not b) ≡ false → (a ≡ true) × (b ≡ true)
neither_not h = ground arith

pub cons-ne-nil {ℓ} : {A : Type ℓ} {x : A} {xs : List A} → x ∷ xs ≡ [] → ⊥
cons-ne-nil h = cc

module _ (self : Checker) where
  pub require_type-Agrees :
      (p : Bytes) (t : Ty) (sp : Span) → (require_type self p t sp).0 ≡ [] → Agrees p t
  unfolding require_type
  require_type-Agrees p Ty.error sp h = reported
  require_type-Agrees p (named t) sp h =
      rw (ty_eq-eq _ _ (not-false (when-silent _ _ _ _ _ h))) same_type
  require_type-Agrees p (int_literal v) sp h = elim (Bool-cases (is_integer_type p)) [
    | inl e ↦ fits ((literal_fits_iff v p).0 (not-false (when-silent _ _ _ _ _ (rw e at h))))
    | inr e ↦ absurd (cons-ne-nil (rw e at h))
  ]

  pub Agrees-require_type :
      {p : Bytes} {t : Ty} (sp : Span) → Agrees p t → require_type self p t sp ≡ ([], tt)
  unfolding require_type
  Agrees-require_type sp reported = refl
  Agrees-require_type sp (same_type {t = t}) = rw (ty_eq_refl (named t)) refl
  Agrees-require_type sp (fits {t = t} {v = v} (k, h, small)) =
      rw (HasBits-is_integer h) (rw ((literal_fits_iff v t).1 (k, h, small)) refl)

  pub unary_type-UnaryType :
      (op : UnaryOp) (t : Ty) (sp : Span)
      → (unary_type self op t sp).0 ≡ []
      → UnaryType op t (unary_type self op t sp).1
  unfolding unary_type
  unary_type-UnaryType UnaryOp.not t sp h =
      rw (is_bool-eq t (not-false (when-silent _ _ _ _ _ (append-eq-nil _ _ h).0))) not_on
  unary_type-UnaryType neg t sp h =
      neg_on (is_numeric-IsInteger t (not-false (when-silent _ _ _ _ _ (append-eq-nil _ _ h).0)))

  pub UnaryType-unary_type :
      {op : UnaryOp} {t u : Ty} (sp : Span) → UnaryType op t u → unary_type self op t sp ≡ ([], u)
  unfolding unary_type
  UnaryType-unary_type sp not_on = rw is_bool-bool refl
  UnaryType-unary_type sp (neg_on i) = rw (IsInteger-is_numeric i) refl

  arithmetic_type-BinaryType :
      (t u : Ty) (sp : Span)
      → (arithmetic_type self t u sp).0 ≡ []
      → BinaryType arithmetic t u (arithmetic_type self t u sp).1
  unfolding arithmetic_type
  arithmetic_type-BinaryType t u sp h = elim (Bool-cases (is_str t || is_str u)) [
    | inl e ↦ absurd (cons-ne-nil (rw e at h))
    | inr e ↦ elim (Bool-cases (not (is_numeric_or_literal t) || not (is_numeric_or_literal u))) [
      | inl f ↦ absurd (cons-ne-nil (rw (e, f) at h))
      | inr f ↦
          let (nt, nu) = neither_not f in
          let i = is_numeric-IsInteger t nt in
          let j = is_numeric-IsInteger u nu in rw (e, f) (arith_on i j (merge_numeric-Merges i j))
    ]
  ]

  comparison_type-BinaryType :
      (t u : Ty) (sp : Span)
      → (comparison_type self t u sp).0 ≡ []
      → BinaryType comparison t u (comparison_type self t u sp).1
  unfolding comparison_type compatible_loose
  comparison_type-BinaryType t u sp h =
      let ok : compatible_loose t u ≡ true =
        not-false (when-silent _ _ _ _ _ (append-eq-nil _ _ h).0) in
      elim (Bool-cases (ty_eq t u)) [
        | inl e ↦ rw (ty_eq-eq t u e) same_on
        | inr e ↦
            let (nt, nu) = (and-eq-true_iff _ _).0 (rw e at ok) in
            compare_on (is_numeric-IsInteger t nt) (is_numeric-IsInteger u nu)
      ]

  boolean_type-BinaryType :
      (t u : Ty) (sp : Span)
      → (boolean_type self t u sp).0 ≡ []
      → BinaryType boolean t u (boolean_type self t u sp).1
  unfolding boolean_type
  boolean_type-BinaryType t u sp h =
      let (bt, bu) = neither_not (when-silent _ _ _ _ _ (append-eq-nil _ _ h).0) in
      rw (is_bool-eq t bt, is_bool-eq u bu) bool_on

  pub binary_type-BinaryType :
      (op : BinaryOp) (t u : Ty) (sp : Span)
      → (binary_type self op t u sp).0 ≡ []
      → BinaryType (kind_of op) t u (binary_type self op t u sp).1
  unfolding binary_type
  binary_type-BinaryType add t u sp h = arithmetic_type-BinaryType t u sp h
  binary_type-BinaryType sub t u sp h = arithmetic_type-BinaryType t u sp h
  binary_type-BinaryType mul t u sp h = arithmetic_type-BinaryType t u sp h
  binary_type-BinaryType div t u sp h = arithmetic_type-BinaryType t u sp h
  binary_type-BinaryType rem t u sp h = arithmetic_type-BinaryType t u sp h
  binary_type-BinaryType eq t u sp h = comparison_type-BinaryType t u sp h
  binary_type-BinaryType not_eq t u sp h = comparison_type-BinaryType t u sp h
  binary_type-BinaryType lt t u sp h = comparison_type-BinaryType t u sp h
  binary_type-BinaryType lt_eq t u sp h = comparison_type-BinaryType t u sp h
  binary_type-BinaryType gt t u sp h = comparison_type-BinaryType t u sp h
  binary_type-BinaryType gt_eq t u sp h = comparison_type-BinaryType t u sp h
  binary_type-BinaryType and t u sp h = boolean_type-BinaryType t u sp h
  binary_type-BinaryType or t u sp h = boolean_type-BinaryType t u sp h

  BinaryType-arithmetic_type :
      {t u m : Ty} (sp : Span) → BinaryType arithmetic t u m → arithmetic_type self t u sp ≡ ([], m)
  unfolding arithmetic_type
  BinaryType-arithmetic_type sp (arith_on i j g) =
      rw
        (
          IsInteger-is_str i,
          IsInteger-is_str j,
          IsInteger-is_numeric i,
          IsInteger-is_numeric j,
          Merges-merge_numeric i j g,
        )
        refl

  BinaryType-comparison_type :
      {t u m : Ty} (sp : Span) → BinaryType comparison t u m → comparison_type self t u sp ≡ ([], m)
  unfolding comparison_type compatible_loose
  BinaryType-comparison_type sp (same_on {t = t}) = rw (ty_eq_refl t) refl
  BinaryType-comparison_type sp (compare_on {t = t} {u = u} i j) =
      let ok : compatible_loose t u ≡ true =
        rw (IsInteger-is_numeric i, IsInteger-is_numeric j) (or_true (ty_eq t u)) in
      rw ok refl
    where
      or_true : (b : Bool) → (b || true) ≡ true
      or_true b = ground arith

  BinaryType-boolean_type :
      {t u m : Ty} (sp : Span) → BinaryType boolean t u m → boolean_type self t u sp ≡ ([], m)
  unfolding boolean_type
  BinaryType-boolean_type sp bool_on = rw is_bool-bool refl

  pub BinaryType-binary_type :
      (op : BinaryOp) {t u m : Ty} (sp : Span)
      → BinaryType (kind_of op) t u m
      → binary_type self op t u sp ≡ ([], m)
  unfolding binary_type
  BinaryType-binary_type add sp b = BinaryType-arithmetic_type sp b
  BinaryType-binary_type sub sp b = BinaryType-arithmetic_type sp b
  BinaryType-binary_type mul sp b = BinaryType-arithmetic_type sp b
  BinaryType-binary_type div sp b = BinaryType-arithmetic_type sp b
  BinaryType-binary_type rem sp b = BinaryType-arithmetic_type sp b
  BinaryType-binary_type eq sp b = BinaryType-comparison_type sp b
  BinaryType-binary_type not_eq sp b = BinaryType-comparison_type sp b
  BinaryType-binary_type lt sp b = BinaryType-comparison_type sp b
  BinaryType-binary_type lt_eq sp b = BinaryType-comparison_type sp b
  BinaryType-binary_type gt sp b = BinaryType-comparison_type sp b
  BinaryType-binary_type gt_eq sp b = BinaryType-comparison_type sp b
  BinaryType-binary_type and sp b = BinaryType-boolean_type sp b
  BinaryType-binary_type or sp b = BinaryType-boolean_type sp b
