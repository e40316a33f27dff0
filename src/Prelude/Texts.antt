-- ===== src/Prelude/Texts.antt =====
-- Texts. A `String` or `&str` of the source is the list of its UTF-8 bytes, and so is a path.
use Prim.Native.Char.{code}
use Prim.Native.Nat.{ℕ, zero, suc, ◌+◌, ◌/◌, ◌%◌}
use Prim.Native.String.{String}
use mathlib.Core.Bool.{Bool, true, false}
use mathlib.Core.List.{List, [], ◌∷◌, ◌++◌}
use mathlib.Core.Logic.{◌↔◌, ◌≢◌}
use mathlib.Core.Path.{◌≡◌, refl}
use native.Mathlib.Omega.{arith}
use snap_surf_lang.Prelude.Tests.{ltb, ◌==◌, if◌then◌else◌}

abbrev pub Bytes : Type 0
Bytes = List ℕ

-- The bytes of an ASCII literal.
abbrev pub text : String → Bytes
text String.[] = []
text (String.◌∷◌ c s) = code c ∷ text s

-- `==` on texts.
unfoldable pub text_eq : Bytes → Bytes → Bool
text_eq [] [] = true
text_eq [] (y ∷ ys) = false
text_eq (x ∷ xs) [] = false
text_eq (x ∷ xs) (y ∷ ys) = elim (x == y) [ true ↦ text_eq xs ys | false ↦ false ]

pub text_eq_iff : (a b : Bytes) → (text_eq a b ≡ true) ↔ (a ≡ b)
unfolding text_eq
text_eq_iff [] [] = ground arith
text_eq_iff [] (y ∷ ys) = ground arith
text_eq_iff (x ∷ xs) [] = ground arith
text_eq_iff (x ∷ xs) (y ∷ ys) = ground (arith, text_eq_iff xs ys)

pub text_eq_refl : (a : Bytes) → text_eq a a ≡ true
text_eq_refl a = (text_eq_iff a a).1 refl

pub text_eq_of_ne : (a b : Bytes) → a ≢ b → text_eq a b ≡ false
text_eq_of_ne a b h = ground (arith, text_eq_iff a b)

pub ne_of_text_eq : {a b : Bytes} → text_eq a b ≡ false → a ≢ b
ne_of_text_eq {a} {b} h e = clash h ((text_eq_iff a b).1 e)
  where
    clash : {b : Bool} → b ≡ false → b ≡ true → ⊥
    clash h e = cc

-- `{n}` in a format string: the decimal digits. The fuel of `decimal` is above the number of digits.
decimal_digits : ℕ → ℕ → Bytes
decimal_digits zero n = []
decimal_digits (suc fuel) n =
    let front = decimal_digits fuel (n / 10) in
    if ltb n 10 then (b'0' + n) ∷ [] else front ++ (b'0' + n % 10) ∷ []

unfoldable pub decimal : ℕ → Bytes
unfolding decimal_digits
decimal n = decimal_digits (suc n) n

decimal_test : decimal 1_204 ≡ text "1204"
unfolding decimal
decimal_test = refl
