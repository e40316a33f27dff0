-- ===== src/Parser/Numerals.antt =====
-- The values of integer literals (`parse_int_value` of parser.rs).
use snap_surf_lang.Prelude.{
  ℕ, zero, suc, ◌+◌, ◌-◌, ◌*◌, ◌/◌, ◌%◌, ◌^◌, ◌≤◌, ◌<◌, Bytes, text, true, false, ◌&&◌, [], ◌∷◌,
  ◌++◌, Option, none, some, ltb, ◌==◌, if◌then◌else◌, All, All-concat, append-eq-nil, ◌≢◌, ◌⊎◌, ◌≡◌,
  refl, sym, ap, ◌∙◌, inl, inr, Bool-cases, Option-cases, arith,
}
use snap_surf_lang.Lexer.Scan.{digit_value}
use snap_surf_lang.Parser.Literals.{
  digits_value, from_str_radix, without_underscores, base_of, parse_int_value,
}

-- The bases in which a number can be written.
pub data Base : Type 0 where
  binary octal decimal hexadecimal : Base

unfoldable pub radix : Base → ℕ
radix Base.binary = 2
radix octal = 8
radix decimal = 10
radix hexadecimal = 16

unfoldable pub prefix : Base → Bytes
prefix Base.binary = text "0b"
prefix octal = text "0o"
prefix decimal = []
prefix hexadecimal = text "0x"

unfoldable pub digit : ℕ → ℕ
digit d = if ltb d 10 then b'0' + d else b'a' + (d - 10)

-- The digits of a number, with fuel above the number of them.
unfoldable pub digits : ℕ → Base → ℕ → Bytes
digits zero b n = []
digits (suc fuel) b n =
    let front = digits fuel b (n / radix b) in
    if ltb n (radix b) then digit n ∷ [] else front ++ digit (n % radix b) ∷ []

unfoldable pub numeral : Base → ℕ → Bytes
numeral b n = digits (suc n) b n

pub digit_value-digit : (d : ℕ) → d < 16 → digit_value (digit d) ≡ some d
unfolding digit digit_value
digit_value-digit d h = ground arith

parts :
    (b : Base) (n : ℕ)
    → ((n / radix b) * radix b + n % radix b ≡ n)
      × (n % radix b < radix b)
      × (radix b ≤ 16)
      × (n / radix b ≤ n)
      × (radix b ≤ n → n / radix b < n)
unfolding radix
parts Base.binary n = (omega arith, omega arith, omega arith, omega arith, λ h. omega arith)
parts octal n = (omega arith, omega arith, omega arith, omega arith, λ h. omega arith)
parts decimal n = (omega arith, omega arith, omega arith, omega arith, λ h. omega arith)
parts hexadecimal n = (omega arith, omega arith, omega arith, omega arith, λ h. omega arith)

module _ (bound : ℕ) where
  -- A number below the bound.
  abbrev bounded : ℕ → Option ℕ
  bounded n = if ltb n bound then some n else none

  abbrev next_digit : ℕ → ℕ → Option ℕ → Option ℕ
  next_digit base d none = none
  next_digit base d (some a) =
      if ltb d base && ltb (a * base + d) bound then some (a * base + d) else none

  digits_value-append :
      (base acc : ℕ) (xs : Bytes) (c d : ℕ)
      → digit_value c ≡ some d
      → digits_value bound base acc (xs ++ c ∷ [])
        ≡ next_digit base d (digits_value bound base acc xs)
  unfolding digits_value
  digits_value-append base acc [] c d e = rw (digits_value, e) refl
  digits_value-append base acc (x ∷ xs) c d e = elim (Option-cases (digit_value x)) [
    | inl p ↦ rw (digits_value, p) refl
    | inr (k, p) ↦ elim (Bool-cases (ltb k base && ltb (acc * base + k) bound)) [
      | inl q ↦ rw (digits_value, p, q) (digits_value-append base (acc * base + k) xs c d e)
      | inr q ↦ rw (digits_value, p, q) refl
    ]
  ]

  one_digit :
      (base d : ℕ) → d < 16 → d < base → digits_value bound base 0 (digit d ∷ []) ≡ bounded d
  unfolding digits_value
  one_digit base d h k =
      let p : ltb d base ≡ true = ground arith in
      let z : 0 * base + d ≡ d = omega arith in rw (digits_value, digit_value-digit d h, p, z) refl

  -- A digit behind a number: the bound is passed then, if it was not passed before.
  next_digit-bounded :
      (b : Base) (n : ℕ) → next_digit (radix b) (n % radix b) (bounded (n / radix b)) ≡ bounded n
  next_digit-bounded b n =
      let (e, h, _, i, _) = parts b n in
      let p : ltb (n % radix b) (radix b) ≡ true = ground arith in
      elim (Bool-cases (ltb (n / radix b) bound)) [
        | inl q ↦ rw (q, p, e) refl
        | inr q ↦ let r : ltb n bound ≡ false = ground arith in rw (q, r) refl
      ]

  digits_value-digits :
      (fuel : ℕ) (b : Base) (n : ℕ)
      → n < fuel
      → digits_value bound (radix b) 0 (digits fuel b n) ≡ bounded n
  unfolding digits
  digits_value-digits zero b n h = let z : ⊥ = omega (arith, h) in absurd z
  digits_value-digits (suc fuel) b n h =
      let (_, r, w, _, s) = parts b n in
      elim (Bool-cases (ltb n (radix b))) [
        | inl q ↦
            let k : n < radix b = ground arith in
            rw q (one_digit (radix b) n (omega (arith, k, w)) k)
        | inr q ↦
            let k : n / radix b < n = s (ground arith) in
            rw q (
              digits_value-append (radix b) 0 (digits fuel b (n / radix b)) (digit (n % radix b))
                (n % radix b) (digit_value-digit (n % radix b) (omega (arith, r, w)))
              ∙ ap (next_digit (radix b) (n % radix b))
                  (digits_value-digits fuel b (n / radix b) (omega (arith, k, h)))
              ∙ next_digit-bounded b n)
      ]

-- The bytes that stand for digits.
abbrev IsDigit : ℕ → ℕ → Type 0
IsDigit base c = (d : ℕ) × (d < base) × (c ≡ digit d)

digits-IsDigit : (fuel : ℕ) (b : Base) (n : ℕ) → All (IsDigit (radix b)) (digits fuel b n)
unfolding digits
digits-IsDigit zero b n = tt
digits-IsDigit (suc fuel) b n =
    let (_, r, _, _, _) = parts b n in
    elim (Bool-cases (ltb n (radix b))) [
      | inl q ↦ rw q ((n, ground arith, refl), tt)
      | inr q ↦ rw q (
          All-concat (IsDigit (radix b)) _ _ (digits-IsDigit fuel b (n / radix b))
            (n % radix b, r, refl))
    ]

digits-Nonempty : (fuel : ℕ) (b : Base) (n : ℕ) → digits (suc fuel) b n ≢ []
unfolding digits
digits-Nonempty fuel b n e = elim (Bool-cases (ltb n (radix b))) [
  | inl q ↦ let z : digit n ∷ [] ≡ [] = rw q at e in cc
  | inr q ↦
      let z : digits fuel b (n / radix b) ++ digit (n % radix b) ∷ [] ≡ [] = rw q at e in
      let w : digit (n % radix b) ∷ [] ≡ [] = (append-eq-nil _ _ z).1 in cc
]

digit_no_sign : (d : ℕ) → d < 16 → (digit d == b'+') ≡ false
unfolding digit
digit_no_sign d h = ground arith

from_str_radix-digits :
    (bound : ℕ) (b : Base) (s : Bytes)
    → s ≢ []
    → All (IsDigit (radix b)) s
    → from_str_radix bound (radix b) s ≡ digits_value bound (radix b) 0 s
unfolding from_str_radix
from_str_radix-digits bound b [] n h = absurd (n refl)
from_str_radix-digits bound b (x ∷ []) n h = refl
from_str_radix-digits bound b (x ∷ y ∷ ys) n ((d, k, e), h) =
    let (_, _, w, _, _) = parts b 0 in
    let p : (x == b'+') ≡ false = rw e (digit_no_sign d (omega (arith, k, w))) in
    rw (from_str_radix, p) refl

from_str_radix-numeral :
    (bound : ℕ) (b : Base) (n : ℕ) → from_str_radix bound (radix b) (numeral b n) ≡ bounded bound n
unfolding numeral
from_str_radix-numeral bound b n =
    from_str_radix-digits bound b (numeral b n) (digits-Nonempty n b n) (digits-IsDigit (suc n) b n)
    ∙ digits_value-digits bound (suc n) b n (omega arith)

-- The digits that are left when the underscores are taken out were there.
underscored :
    (s : Bytes) → All (IsDigit 10) (without_underscores s) → All (λ c. IsDigit 10 c ⊎ (c ≡ b'_')) s
unfolding without_underscores
underscored [] h = tt
underscored (c ∷ cs) h = elim (Bool-cases (c == b'_')) [
  | inl q ↦ (inr (ground arith), underscored cs (rw q at h))
  | inr q ↦
      let (x, y) : All (IsDigit 10) (c ∷ without_underscores cs) = rw q at h in
      (inl x, underscored cs y)
]

digit_no_letter : (a c : ℕ) → IsDigit 10 c ⊎ (c ≡ b'_') → base_of a c ≡ none
unfolding base_of digit
digit_no_letter a c (inl (d, h, e)) = ground arith
digit_no_letter a c (inr e) = ground arith

decimal-base :
    (a c : ℕ) (s : Bytes) (n : ℕ)
    → without_underscores (a ∷ c ∷ s) ≡ numeral decimal n
    → base_of a c ≡ none
unfolding numeral radix
decimal-base a c s n e =
    let (_, (x, _)) = underscored (a ∷ c ∷ s) (rw e (digits-IsDigit (suc n) decimal n)) in
    digit_no_letter a c x

-- The value of a literal, with the prefix of its base and with underscores anywhere behind it, is the
-- number whose digits it has if that is below 2 ^ 128, and there is none otherwise.
pub parse_int_value-numeral :
    (b : Base) (n : ℕ) (s : Bytes)
    → without_underscores s ≡ numeral b n
    → parse_int_value (prefix b ++ s) ≡ (if ltb n (2 ^ 128) then some n else none)
unfolding prefix parse_int_value base_of radix numeral without_underscores
parse_int_value-numeral Base.binary n s e = rw e (from_str_radix-numeral (2 ^ 128) Base.binary n)
parse_int_value-numeral octal n s e = rw e (from_str_radix-numeral (2 ^ 128) octal n)
parse_int_value-numeral hexadecimal n s e = rw e (from_str_radix-numeral (2 ^ 128) hexadecimal n)
parse_int_value-numeral decimal n [] e = absurd (digits-Nonempty n decimal n (sym e))
parse_int_value-numeral decimal n (a ∷ []) e = rw e (from_str_radix-numeral (2 ^ 128) decimal n)
parse_int_value-numeral decimal n (a ∷ c ∷ s) e =
    rw (parse_int_value, decimal-base a c s n e, e) (from_str_radix-numeral (2 ^ 128) decimal n)
