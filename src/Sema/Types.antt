-- ===== src/Sema/Types.antt =====
-- The types of sema.rs: what an expression has, integers and literals, and the checker's tables.
use snap_surf_lang.Prelude.{
  ℕ, ◌-◌, ◌^◌, Bytes, text, text_eq, Bool, true, false, ◌&&◌, ◌||◌, List, leb, ◌==◌, if◌then◌else◌,
}

pub record FnSig : Type 0 where
  pub params : List Bytes
  pub ret : Bytes
  pub is_unsafe : Bool

pub record VarInfo : Type 0 where
  pub ty : Bytes
  pub mutable : Bool

pub record FnCtx : Type 0 where
  pub vars : List (Bytes × VarInfo)
  pub return_type : Bytes
  pub loop_depth : ℕ
  pub unsafe_depth : ℕ

pub data Ty : Type 0 where
  named : Bytes → Ty
  int_literal : ℕ → Ty
  error : Ty

-- `==` of the derived `PartialEq`
unfoldable pub ty_eq : Ty → Ty → Bool
ty_eq (named a) (named b) = text_eq a b
ty_eq (named a) (int_literal w) = false
ty_eq (named a) error = false
ty_eq (int_literal v) (named b) = false
ty_eq (int_literal v) (int_literal w) = v == w
ty_eq (int_literal v) error = false
ty_eq error (named b) = false
ty_eq error (int_literal w) = false
ty_eq error error = true

unfoldable pub is_bool : Ty → Bool
is_bool t = ty_eq t (named (text "bool"))

unfoldable pub is_str : Ty → Bool
is_str t = ty_eq t (named (text "str_static"))

unfoldable pub is_integer_type : Bytes → Bool
is_integer_type t =
    text_eq t (text "i8")
    || text_eq t (text "i16")
    || text_eq t (text "i32")
    || text_eq t (text "i64")
    || text_eq t (text "u8")
    || text_eq t (text "u16")
    || text_eq t (text "u32")
    || text_eq t (text "u64")
    || text_eq t (text "byte")

unfoldable pub is_numeric_or_literal : Ty → Bool
is_numeric_or_literal (int_literal v) = true
is_numeric_or_literal (named t) = is_integer_type t
is_numeric_or_literal error = false

unfoldable pub display_ty : Ty → Bytes
display_ty (named t) = t
display_ty (int_literal v) = text "integer literal"
display_ty error = text "error"

-- The arms of the `match`, in its order.
unfoldable pub merge_numeric : Ty → Ty → Ty
merge_numeric (named a) (named b) =
    if is_integer_type a then named a else if is_integer_type b then named b else error
merge_numeric (named a) (int_literal w) = if is_integer_type a then named a else error
merge_numeric (named a) error = if is_integer_type a then named a else error
merge_numeric (int_literal v) (named b) = if is_integer_type b then named b else error
merge_numeric error (named b) = if is_integer_type b then named b else error
merge_numeric (int_literal v) (int_literal w) = int_literal 0
merge_numeric (int_literal v) error = error
merge_numeric error (int_literal w) = error
merge_numeric error error = error

unfoldable pub compatible_loose : Ty → Ty → Bool
compatible_loose l r = ty_eq l r || (is_numeric_or_literal l && is_numeric_or_literal r)

-- `value <= T::MAX as u128`
unfoldable pub literal_fits : ℕ → Bytes → Bool
literal_fits v t =
    if text_eq t (text "i8")
    then leb v (2 ^ 7 - 1)
    else if text_eq t (text "i16")
    then leb v (2 ^ 15 - 1)
    else if text_eq t (text "i32")
    then leb v (2 ^ 31 - 1)
    else if text_eq t (text "i64")
    then leb v (2 ^ 63 - 1)
    else if text_eq t (text "u8") || text_eq t (text "byte")
    then leb v (2 ^ 8 - 1)
    else if text_eq t (text "u16")
    then leb v (2 ^ 16 - 1)
    else if text_eq t (text "u32")
    then leb v (2 ^ 32 - 1)
    else if text_eq t (text "u64")
    then leb v (2 ^ 64 - 1)
    else false
