-- ===== src/Sema/Typing.antt =====
-- The typing rules that sema.rs checks expressions against, without its diagnostics.
pub mod Operators
pub mod Calls
pub mod Sound
pub mod Complete
use snap_surf_lang.Prelude.{ℕ, Bytes, text, Bool, true, List, [], ◌∷◌, none, some, ◌≡◌, ◌≢◌, ◌⊎◌}
use snap_surf_lang.Prelude.Maps.{get, contains}
use snap_surf_lang.Diagnostic.{Span}
use snap_surf_lang.Ast.{
  BinaryOp, add, sub, mul, div, rem, eq, not_eq, lt, lt_eq, gt, gt_eq, and, or, UnaryOp, neg,
  AstPath, Expr, Exprs, int_lit, str_lit, bool_lit, ident, binary, unary, call, no_exprs,
  more_exprs, display,
}
use snap_surf_lang.Sema.Types.{FnSig, VarInfo, FnCtx, Ty, named, int_literal}
use snap_surf_lang.Sema.Bounds.{HasBits, Fits}
use snap_surf_lang.Sema.Exprs.{Checker}

pub data IsInteger : Ty → Type 0 where
  literal : {v : ℕ} → IsInteger (int_literal v)
  typed : {t : Bytes} {k : ℕ} → HasBits t k → IsInteger (named t)

-- An expression of the type can stand where the named type is expected. An expression that the
-- parser already reported stands anywhere.
pub data Agrees : Bytes → Ty → Type 0 where
  same_type : {t : Bytes} → Agrees t (named t)
  fits : {t : Bytes} {v : ℕ} → Fits v t → Agrees t (int_literal v)
  reported : {t : Bytes} → Agrees t Ty.error

-- The type of an arithmetic operation on two integers: the first operand that has a type decides,
-- and two literals give a literal of value 0.
pub data Merges : Ty → Ty → Ty → Type 0 where
  first : {t : Bytes} {u : Ty} → Merges (named t) u (named t)
  second : {v : ℕ} {t : Bytes} → Merges (int_literal v) (named t) (named t)
  neither : {v w : ℕ} → Merges (int_literal v) (int_literal w) (int_literal 0)

pub data OpKind : Type 0 where
  arithmetic comparison boolean : OpKind

abbrev pub kind_of : BinaryOp → OpKind
kind_of add = arithmetic
kind_of sub = arithmetic
kind_of mul = arithmetic
kind_of div = arithmetic
kind_of rem = arithmetic
kind_of eq = comparison
kind_of not_eq = comparison
kind_of lt = comparison
kind_of lt_eq = comparison
kind_of gt = comparison
kind_of gt_eq = comparison
kind_of and = boolean
kind_of or = boolean

-- The type of a binary operation on operands of two types.
pub data BinaryType : OpKind → Ty → Ty → Ty → Type 0 where
  arith_on : {t u m : Ty} → IsInteger t → IsInteger u → Merges t u m → BinaryType arithmetic t u m
  same_on : {t : Ty} → BinaryType comparison t t (named (text "bool"))
  compare_on :
      {t u : Ty} → IsInteger t → IsInteger u → BinaryType comparison t u (named (text "bool"))
  bool_on : BinaryType boolean (named (text "bool")) (named (text "bool")) (named (text "bool"))

pub data UnaryType : UnaryOp → Ty → Ty → Type 0 where
  not_on : UnaryType UnaryOp.not (named (text "bool")) (named (text "bool"))
  neg_on : {t : Ty} → IsInteger t → UnaryType neg t t

abbrev pub IsWrite : Bytes → Type 0
IsWrite n = (n ≡ text "io.write") ⊎ (n ≡ text "core/io.write")

-- A function of the program can be called in the scope.
abbrev pub IsSafe : FnCtx → FnSig → Type 0
IsSafe ctx sig = sig.is_unsafe ≡ true → ctx.unsafe_depth ≢ 0

module _ (self : Checker) (ctx : FnCtx) where
  mutual
    pub data HasTy : Expr → Ty → Type 0 where
      integer : {raw : Bytes} {v : ℕ} {sp : Span} → HasTy (int_lit raw v sp) (int_literal v)
      string : {raw bs : Bytes} {sp : Span} → HasTy (str_lit raw bs sp) (named (text "str_static"))
      boolean_lit : {b : Bool} {sp : Span} → HasTy (bool_lit b sp) (named (text "bool"))
      variable :
          {n : Bytes} {sp : Span} {v : VarInfo}
          → get n ctx.vars ≡ some v
          → HasTy (ident n sp) (named v.ty)
      constant :
          {n : Bytes} {sp : Span} {sig : FnSig}
          → get n ctx.vars ≡ none
          → get n self.functions ≡ some sig
          → sig.params ≡ []
          → IsSafe ctx sig
          → HasTy (ident n sp) (named sig.ret)
      unary_of :
          {op : UnaryOp} {e : Expr} {sp : Span} {t u : Ty}
          → HasTy e t
          → UnaryType op t u
          → HasTy (unary op e sp) u
      binary_of :
          {op : BinaryOp} {l r : Expr} {sp : Span} {t u m : Ty}
          → HasTy l t
          → HasTy r u
          → BinaryType (kind_of op) t u m
          → HasTy (binary op l r sp) m
      write :
          {p : AstPath} {fd msg len : Expr} {sp : Span} {t u : Ty}
          → IsWrite (display p)
          → contains (text "syscall") self.pkg.requires ≡ true
          → HasTy fd t
          → IsInteger t
          → HasTy msg (named (text "str_static"))
          → HasTy len u
          → IsInteger u
          → HasTy
              (call p (more_exprs fd (more_exprs msg (more_exprs len no_exprs))) sp)
              (named (text "void"))
      -- The argument is not looked at.
      alloc :
          {p : AstPath} {e : Expr} {sp : Span}
          → display p ≡ text "mem.alloc"
          → contains (text "heap") self.pkg.requires ≡ true
          → ctx.unsafe_depth ≢ 0
          → HasTy (call p (more_exprs e no_exprs) sp) (named (text "*u8"))
      apply :
          {p : AstPath} {f : Bytes} {args : Exprs} {sp : Span} {sig : FnSig}
          → p.segments ≡ f ∷ []
          → (IsWrite (display p) → ⊥)
          → display p ≢ text "mem.alloc"
          → get f self.functions ≡ some sig
          → IsSafe ctx sig
          → Matches args sig.params
          → HasTy (call p args sp) (named sig.ret)
      reported : {sp : Span} → HasTy (Expr.error sp) Ty.error

    -- One argument for each parameter, of a type that agrees with it.
    pub data Matches : Exprs → List Bytes → Type 0 where
      no_args : Matches no_exprs []
      one_more :
          {e : Expr} {es : Exprs} {p : Bytes} {ps : List Bytes} {t : Ty}
          → HasTy e t
          → Agrees p t
          → Matches es ps
          → Matches (more_exprs e es) (p ∷ ps)
