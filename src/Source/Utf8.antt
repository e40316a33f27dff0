-- ===== src/Source/Utf8.antt =====
-- The sequences of bytes that `String::from_utf8` takes (source.rs).
use snap_surf_lang.Prelude.{
  ℕ, zero, suc, ◌+◌, ◌-◌, ◌*◌, ◌/◌, ◌%◌, ◌<◌, ◌≤◌, Bytes, Bool, true, false, ◌&&◌, [], ◌∷◌, ◌++◌,
  none, some, if_both, within, ltb, length, ◌≡◌, ◌⊎◌, refl, sym, ap, ◌∙◌, arith,
}
use mathlib.Core.Path.{subst}
use snap_surf_lang.Source.Load.{three_bytes, four_bytes, char_len, valid_up_to}

-- The bytes of one character, from its number: it is none of the surrogates.
pub data IsChar : Bytes → Type 0 where
  one : {a : ℕ} → a < 0x80 → IsChar (a ∷ [])
  two :
      {a b : ℕ} (p : ℕ)
      → 0x80 ≤ p
      → p < 0x800
      → a ≡ 0xC0 + p / 64
      → b ≡ 0x80 + p % 64
      → IsChar (a ∷ b ∷ [])
  three :
      {a b c : ℕ} (p : ℕ)
      → 0x800 ≤ p
      → p < 0x10000
      → (p < 0xD800) ⊎ (0xE000 ≤ p)
      → a ≡ 0xE0 + p / 4096
      → b ≡ 0x80 + p / 64 % 64
      → c ≡ 0x80 + p % 64
      → IsChar (a ∷ b ∷ c ∷ [])
  four :
      {a b c d : ℕ} (p : ℕ)
      → 0x10000 ≤ p
      → p < 0x110000
      → a ≡ 0xF0 + p / 262144
      → b ≡ 0x80 + p / 4096 % 64
      → c ≡ 0x80 + p / 64 % 64
      → d ≡ 0x80 + p % 64
      → IsChar (a ∷ b ∷ c ∷ d ∷ [])

-- A sequence of characters.
pub data IsUtf8 : Bytes → Type 0 where
  empty : IsUtf8 []
  char : {c r : Bytes} → IsChar c → IsUtf8 r → IsUtf8 (c ++ r)

abbrev Starts : Bytes → ℕ → Type 0
Starts s zero = Unit
Starts s (suc k) = (c : Bytes) × (r : Bytes) × (s ≡ c ++ r) × (length c ≡ suc k) × IsChar c

one-Starts : (a : ℕ) (r : Bytes) → ltb a 0x80 ≡ true → Starts (a ∷ r) 1
one-Starts a r q = (a ∷ [], r, refl, refl, one (ground arith))

two-Starts :
    (a b : ℕ) (r : Bytes) → (within 0xC2 0xDF a && within 0x80 0xBF b) ≡ true → Starts (a ∷ b ∷ r) 2
two-Starts a b r q =
    let (h, i, j, k) : (0xC2 ≤ a) × (a ≤ 0xDF) × (0x80 ≤ b) × (b ≤ 0xBF) =
      (ground arith, ground arith, ground arith, ground arith) in
    (
      a ∷ b ∷ [],
      r,
      refl,
      refl,
      two ((a - 0xC0) * 64 + (b - 0x80)) (omega arith) (omega arith) (omega arith) (omega arith),
    )

-- The bytes that the tests of two bytes let through.
in_three :
    (a b : ℕ)
    → three_bytes a b ≡ true
    → (0xE0 ≤ a)
      × (a ≤ 0xEF)
      × (0x80 ≤ b)
      × (b ≤ 0xBF)
      × ((a ≡ 0xE0) → 0xA0 ≤ b)
      × ((a ≡ 0xED) → b ≤ 0x9F)
unfolding three_bytes
in_three a b q =
    (ground arith, ground arith, ground arith, ground arith, λ e. ground arith, λ e. ground arith)

in_four :
    (a b : ℕ)
    → four_bytes a b ≡ true
    → (0xF0 ≤ a)
      × (a ≤ 0xF4)
      × (0x80 ≤ b)
      × (b ≤ 0xBF)
      × ((a ≡ 0xF0) → 0x90 ≤ b)
      × ((a ≡ 0xF4) → b ≤ 0x8F)
unfolding four_bytes
in_four a b q =
    (ground arith, ground arith, ground arith, ground arith, λ e. ground arith, λ e. ground arith)

in_tail : (b : ℕ) → within 0x80 0xBF b ≡ true → (0x80 ≤ b) × (b ≤ 0xBF)
in_tail b q = (ground arith, ground arith)

and_both : (x y : Bool) → (x && y) ≡ true → (x ≡ true) × (y ≡ true)
and_both true y q = (refl, q)
and_both false y q = cc

three-Starts :
    (a b c : ℕ) (r : Bytes)
    → (three_bytes a b && within 0x80 0xBF c) ≡ true
    → Starts (a ∷ b ∷ c ∷ r) 3
three-Starts a b c r q =
    let (t, u) = and_both (three_bytes a b) (within 0x80 0xBF c) q in
    let (h, i, j, k, l, m) = in_three a b t in
    let (v, w) = in_tail c u in
    let lower : 0x800 ≤ (a - 0xE0) * 4096 + (b - 0x80) * 64 + (c - 0x80) = ground arith in
    let apart : ((a - 0xE0) * 4096 + (b - 0x80) * 64 + (c - 0x80) < 0xD800)
        ⊎ (0xE000 ≤ (a - 0xE0) * 4096 + (b - 0x80) * 64 + (c - 0x80)) =
      ground arith in
    (
      a ∷ b ∷ c ∷ [],
      r,
      refl,
      refl,
      three ((a - 0xE0) * 4096 + (b - 0x80) * 64 + (c - 0x80)) lower (omega arith) apart
          (omega arith) (omega arith) (omega arith),
    )

four-Starts :
    (a b c d : ℕ) (r : Bytes)
    → (four_bytes a b && (within 0x80 0xBF c && within 0x80 0xBF d)) ≡ true
    → Starts (a ∷ b ∷ c ∷ d ∷ r) 4
four-Starts a b c d r q =
    let (t, u) = and_both (four_bytes a b) (within 0x80 0xBF c && within 0x80 0xBF d) q in
    let (s, s') = and_both (within 0x80 0xBF c) (within 0x80 0xBF d) u in
    let (h, i, j, k, l, m) = in_four a b t in
    let (v, w) = in_tail c s in
    let (v', w') = in_tail d s' in
    let p : ℕ = (a - 0xF0) * 262144 + (b - 0x80) * 4096 + (c - 0x80) * 64 + (d - 0x80) in
    let lower : 0x10000 ≤ p = ground arith in
    let upper : p < 0x110000 = ground arith in
    (
      a ∷ b ∷ c ∷ d ∷ [],
      r,
      refl,
      refl,
      four p lower upper (omega arith) (omega arith) (omega arith) (omega arith),
    )

char_len-Starts : (s : Bytes) → Starts s (char_len s)
unfolding char_len
char_len-Starts [] = tt
char_len-Starts (a ∷ []) = if_both (Starts (a ∷ [])) (ltb a 0x80) (one-Starts a []) (λ _. tt)
char_len-Starts (a ∷ b ∷ []) =
    if_both (Starts (a ∷ b ∷ [])) (ltb a 0x80) (one-Starts a (b ∷ [])) λ _.
      if_both (Starts (a ∷ b ∷ [])) (within 0xC2 0xDF a && within 0x80 0xBF b) (two-Starts a b [])
        (λ _. tt)
char_len-Starts (a ∷ b ∷ c ∷ []) =
    if_both (Starts (a ∷ b ∷ c ∷ [])) (ltb a 0x80) (one-Starts a (b ∷ c ∷ [])) λ _.
      if_both (Starts (a ∷ b ∷ c ∷ [])) (within 0xC2 0xDF a && within 0x80 0xBF b)
        (two-Starts a b (c ∷ []))
        λ _.
          if_both (Starts (a ∷ b ∷ c ∷ [])) (three_bytes a b && within 0x80 0xBF c)
            (three-Starts a b c []) (λ _. tt)
char_len-Starts (a ∷ b ∷ c ∷ d ∷ s) =
    if_both (Starts (a ∷ b ∷ c ∷ d ∷ s)) (ltb a 0x80) (one-Starts a (b ∷ c ∷ d ∷ s)) λ _.
      if_both (Starts (a ∷ b ∷ c ∷ d ∷ s)) (within 0xC2 0xDF a && within 0x80 0xBF b)
        (two-Starts a b (c ∷ d ∷ s))
        λ _.
          if_both (Starts (a ∷ b ∷ c ∷ d ∷ s)) (three_bytes a b && within 0x80 0xBF c)
            (three-Starts a b c (d ∷ s))
            λ _.
              if_both (Starts (a ∷ b ∷ c ∷ d ∷ s))
                (four_bytes a b && (within 0x80 0xBF c && within 0x80 0xBF d))
                (four-Starts a b c d s) (λ _. tt)

-- The bytes that are left out.
valid_up_to-skip :
    (c r : Bytes) (n : ℕ) → valid_up_to (length c) n (c ++ r) ≡ valid_up_to 0 (n + length c) r
unfolding valid_up_to
valid_up_to-skip [] r n = let e : n ≡ n + 0 = omega arith in ap (λ k. valid_up_to 0 k r) e
valid_up_to-skip (a ∷ c) r n =
    let e : n + 1 + length c ≡ n + suc (length c) = omega arith in
    valid_up_to-skip c r (n + 1) ∙ ap (λ k. valid_up_to 0 k r) e

pub valid_up_to-char :
    (c r : Bytes) (k n : ℕ)
    → char_len (c ++ r) ≡ suc k
    → length c ≡ suc k
    → valid_up_to 0 n (c ++ r) ≡ valid_up_to 0 (n + length c) r
unfolding valid_up_to
valid_up_to-char [] r k n e l = absurd (omega (arith, l))
valid_up_to-char (a ∷ c) r k n e l =
    let q : k ≡ length c = omega (arith, l) in
    let z : n + 1 + length c ≡ n + suc (length c) = omega arith in
    rw (valid_up_to, e, q) (valid_up_to-skip c r (n + 1) ∙ ap (λ k. valid_up_to 0 k r) z)

length-append : (c r : Bytes) → length (c ++ r) ≡ length c + length r
length-append [] r = omega arith
length-append (a ∷ c) r = let e = length-append c r in omega (arith, e)

ill_formed :
    (x : ℕ) (xs : Bytes) (n : ℕ) → char_len (x ∷ xs) ≡ 0 → valid_up_to 0 n (x ∷ xs) ≡ some n
unfolding valid_up_to
ill_formed x xs n e = rw (valid_up_to, e) refl

pub valid_up_to-IsUtf8 :
    (fuel : ℕ) (s : Bytes) (n : ℕ) → length s ≤ fuel → valid_up_to 0 n s ≡ none → IsUtf8 s
valid_up_to-IsUtf8 fuel [] n b e = empty
valid_up_to-IsUtf8 zero (x ∷ xs) n b e = absurd (omega (arith, b))
valid_up_to-IsUtf8 (suc fuel) (x ∷ xs) n b e =
    by_length (λ r m. valid_up_to-IsUtf8 fuel r m) (char_len (x ∷ xs)) refl
      (char_len-Starts (x ∷ xs))
  where
    by_length :
        ((r : Bytes) (m : ℕ) → length r ≤ fuel → valid_up_to 0 m r ≡ none → IsUtf8 r)
        → (k : ℕ) → char_len (x ∷ xs) ≡ k
        → Starts (x ∷ xs) k
        → IsUtf8 (x ∷ xs)
    by_length again zero q h = let z : some n ≡ none = sym (ill_formed x xs n q) ∙ e in cc
    by_length again (suc k) q (c, r, p, l, i) =
        let w : valid_up_to 0 n (c ++ r) ≡ none = subst (λ s. valid_up_to 0 n s ≡ none) p e in
        let v : char_len (c ++ r) ≡ suc k = subst (λ s. char_len s ≡ suc k) p q in
        let u : length (c ++ r) ≤ suc fuel = subst (λ s. length s ≤ suc fuel) p b in
        let rest =
          again r (n + length c) (omega (arith, length-append c r, u, l))
            (sym (valid_up_to-char c r k n v l) ∙ w) in
        subst IsUtf8 (sym p) (char i rest)
