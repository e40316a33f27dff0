-- ===== src/Sema/Bounds.antt =====
-- The integer types of sema.rs, described by the number of bits of their largest value, and what
-- `is_integer_type` and `literal_fits` say of them.
use snap_surf_lang.Prelude.{
  ℕ, ◌-◌, ◌^◌, ◌<◌, Bytes, text, text_eq, text_eq_iff, Bool, true, false, ◌≡◌, ◌↔◌, refl, inl, inr,
  Bool-cases, leb, if◌then◌else◌, arith, ◌||◌, ◌≤◌, tests,
}
use snap_surf_lang.Sema.Types.{is_integer_type, literal_fits}

-- A value of the type is below two to the given power, or is negative.
pub data HasBits : Bytes → ℕ → Type 0 where
  i8 : HasBits (text "i8") 7
  i16 : HasBits (text "i16") 15
  i32 : HasBits (text "i32") 31
  i64 : HasBits (text "i64") 63
  u8 : HasBits (text "u8") 8
  u16 : HasBits (text "u16") 16
  u32 : HasBits (text "u32") 32
  u64 : HasBits (text "u64") 64
  byte : HasBits (text "byte") 8

abbrev pub Fits : ℕ → Bytes → Type 0
Fits v t = (k : ℕ) × HasBits t k × (v < 2 ^ k)

pub HasBits-is_integer : {t : Bytes} {k : ℕ} → HasBits t k → is_integer_type t ≡ true
unfolding is_integer_type text_eq
HasBits-is_integer i8 = refl
HasBits-is_integer i16 = refl
HasBits-is_integer i32 = refl
HasBits-is_integer i64 = refl
HasBits-is_integer u8 = refl
HasBits-is_integer u16 = refl
HasBits-is_integer u32 = refl
HasBits-is_integer u64 = refl
HasBits-is_integer byte = refl

-- One disjunct of `is_integer_type`.
disjunct :
    (t w : Bytes) (k : ℕ) (b : Bool)
    → HasBits w k
    → (b ≡ true → (j : ℕ) × HasBits t j)
    → (b || text_eq t w) ≡ true
    → (j : ℕ) × HasBits t j
disjunct t w k true h rest q = rest refl
disjunct t w k false h rest q = (k, rw ((text_eq_iff t w).0 q) h)

pub is_integer-HasBits : (t : Bytes) → is_integer_type t ≡ true → (k : ℕ) × HasBits t k
unfolding is_integer_type
is_integer-HasBits t q =
    disjunct t _ 8 _ byte
      (disjunct t _ 64 _ u64 (
        disjunct t _ 32 _ u32 (
          disjunct t _ 16 _ u16 (
            disjunct t _ 8 _ u8 (
              disjunct t _ 63 _ i64 (
                disjunct t _ 31 _ i32
                  (disjunct t _ 15 _ i16 (λ e. (7, rw ((text_eq_iff t (text "i8")).0 e) i8)))))))))
      q

below : (v m : ℕ) → 1 ≤ m → leb v (m - 1) ≡ true → v < m
below v m p h = grind tests

-- One arm of `literal_fits`.
arm :
    (v : ℕ) (t w : Bytes) (k : ℕ) (b : Bool)
    → HasBits w k
    → 1 ≤ 2 ^ k
    → (b ≡ true → Fits v t)
    → (if text_eq t w then leb v (2 ^ k - 1) else b) ≡ true
    → Fits v t
arm v t w k b h small rest q = elim (Bool-cases (text_eq t w)) [
  | inl e ↦ (k, rw ((text_eq_iff t w).0 e) h, below v (2 ^ k) small (rw e at q))
  | inr e ↦ rest (rw e at q)
]

HasBits-literal_fits :
    (v : ℕ) {t : Bytes} {k : ℕ} → HasBits t k → v < 2 ^ k → literal_fits v t ≡ true
unfolding literal_fits text_eq
HasBits-literal_fits v i8 h = ground arith
HasBits-literal_fits v _ h = ground arith

-- The arm of two names.
two_names :
    (v : ℕ) (t w x : Bytes) (k : ℕ) (b : Bool)
    → HasBits w k
    → HasBits x k
    → 1 ≤ 2 ^ k
    → (b ≡ true → Fits v t)
    → (if text_eq t w || text_eq t x then leb v (2 ^ k - 1) else b) ≡ true
    → Fits v t
two_names v t w x k b h i small rest q = elim (Bool-cases (text_eq t w)) [
  | inl e ↦ (k, rw ((text_eq_iff t w).0 e) h, below v (2 ^ k) small (rw e at q))
  | inr e ↦ arm v t x k b i small rest (rw e at q)
]

literal_fits-Fits : (v : ℕ) (t : Bytes) → literal_fits v t ≡ true → Fits v t
unfolding literal_fits
literal_fits-Fits v t q =
    arm v t _ 7 _ i8 (ground arith)
      (arm v t _ 15 _ i16 (ground arith) (
        arm v t _ 31 _ i32 (ground arith) (
          arm v t _ 63 _ i64 (ground arith) (
            two_names v t _ _ 8 _ u8 byte (ground arith) (
              arm v t _ 16 _ u16 (ground arith) (
                arm v t _ 32 _ u32 (ground arith)
                  (arm v t _ 64 _ u64 (ground arith) (λ e. cc))))))))
      q

-- `literal_fits` accepts a value for a type name exactly when the name is one of the nine integer
-- types and the value is below two to the number of value bits of that type: 7, 15, 31 and 63 for
-- i8 to i64, and 8, 16, 32, 64 and 8 for u8 to u64 and byte.
pub literal_fits_iff : (v : ℕ) (t : Bytes) → (literal_fits v t ≡ true) ↔ Fits v t
literal_fits_iff v t = (literal_fits-Fits v t, λ (k, h, lt). HasBits-literal_fits v h lt)
