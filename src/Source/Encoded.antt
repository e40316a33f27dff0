-- ===== src/Source/Encoded.antt =====
-- Well-formed UTF-8 is taken (`String::from_utf8` in source.rs).
use snap_surf_lang.Prelude.{
  ℕ, suc, ◌+◌, ◌/◌, ◌%◌, ◌<◌, ◌≤◌, Bytes, true, false, ◌&&◌, [], ◌∷◌, ◌++◌, none, within, ltb,
  length, ◌≡◌, ◌⊎◌, refl, ◌∙◌, inl, inr, arith,
}
use snap_surf_lang.Source.Load.{three_bytes, four_bytes, char_len, valid_up_to}
use snap_surf_lang.Source.Utf8.{
  IsChar, one, two, three, four, IsUtf8, empty, char, valid_up_to-char,
}

char_len-one : (a : ℕ) (r : Bytes) → ltb a 0x80 ≡ true → char_len (a ∷ r) ≡ 1
unfolding char_len
char_len-one a [] q = rw (char_len, q) refl
char_len-one a (x ∷ []) q = rw (char_len, q) refl
char_len-one a (x ∷ y ∷ []) q = rw (char_len, q) refl
char_len-one a (x ∷ y ∷ z ∷ r) q = rw (char_len, q) refl

char_len-two :
    (a b : ℕ) (r : Bytes)
    → ltb a 0x80 ≡ false
    → (within 0xC2 0xDF a && within 0x80 0xBF b) ≡ true
    → char_len (a ∷ b ∷ r) ≡ 2
unfolding char_len
char_len-two a b [] q h = rw (char_len, q, h) refl
char_len-two a b (x ∷ []) q h = rw (char_len, q, h) refl
char_len-two a b (x ∷ y ∷ r) q h = rw (char_len, q, h) refl

char_len-three :
    (a b c : ℕ) (r : Bytes)
    → ltb a 0x80 ≡ false
    → (within 0xC2 0xDF a && within 0x80 0xBF b) ≡ false
    → (three_bytes a b && within 0x80 0xBF c) ≡ true
    → char_len (a ∷ b ∷ c ∷ r) ≡ 3
unfolding char_len
char_len-three a b c [] q h i = rw (char_len, q, h, i) refl
char_len-three a b c (x ∷ r) q h i = rw (char_len, q, h, i) refl

char_len-four :
    (a b c d : ℕ) (r : Bytes)
    → ltb a 0x80 ≡ false
    → (within 0xC2 0xDF a && within 0x80 0xBF b) ≡ false
    → (three_bytes a b && within 0x80 0xBF c) ≡ false
    → (four_bytes a b && (within 0x80 0xBF c && within 0x80 0xBF d)) ≡ true
    → char_len (a ∷ b ∷ c ∷ d ∷ r) ≡ 4
unfolding char_len
char_len-four a b c d r q h i j = rw (char_len, q, h, i, j) refl

three_bytes-in :
    (a b : ℕ)
    → (0xE0 ≤ a)
      × (a ≤ 0xEF)
      × (0x80 ≤ b)
      × (b ≤ 0xBF)
      × ((a ≡ 0xE0) → 0xA0 ≤ b)
      × ((a ≡ 0xED) → b ≤ 0x9F)
    → three_bytes a b ≡ true
unfolding three_bytes
three_bytes-in a b (h, i, j, k, l, m) = ground arith

four_bytes-in :
    (a b : ℕ)
    → (0xF0 ≤ a)
      × (a ≤ 0xF4)
      × (0x80 ≤ b)
      × (b ≤ 0xBF)
      × ((a ≡ 0xF0) → 0x90 ≤ b)
      × ((a ≡ 0xF4) → b ≤ 0x8F)
    → four_bytes a b ≡ true
unfolding four_bytes
four_bytes-in a b (h, i, j, k, l, m) = ground arith

not_three : (a b : ℕ) → 0xF0 ≤ a → three_bytes a b ≡ false
unfolding three_bytes
not_three a b h = ground arith

tail_in : (b q : ℕ) → b ≡ 0x80 + q % 64 → within 0x80 0xBF b ≡ true
tail_in b q e = let h : 0x80 ≤ b = omega arith in let k : b ≤ 0xBF = omega arith in ground arith

not_surrogate :
    (a b p : ℕ)
    → (p < 0xD800) ⊎ (0xE000 ≤ p)
    → a ≡ 0xE0 + p / 4096
    → b ≡ 0x80 + p / 64 % 64
    → a ≡ 0xED
    → b ≤ 0x9F
not_surrogate a b p (inl h) e f g = omega arith
not_surrogate a b p (inr h) e f g = omega arith

char_len-IsChar : {c : Bytes} → IsChar c → (r : Bytes) → char_len (c ++ r) ≡ length c
char_len-IsChar (one {a = a} h) r = char_len-one a r (ground arith)
char_len-IsChar (two {a = a} {b = b} p h k e₁ e₂) r =
    let x : 0xC2 ≤ a = omega arith in
    let y : a ≤ 0xDF = omega arith in
    let t : within 0xC2 0xDF a ≡ true = ground arith in
    char_len-two a b r (ground arith) (rw (t, tail_in b p e₂) refl)
char_len-IsChar (three {a = a} {b = b} {c = c} p h k i e₁ e₂ e₃) r =
    let x : 0xE0 ≤ a = omega arith in
    let t : within 0xC2 0xDF a ≡ false = ground arith in
    let l : a ≡ 0xE0 → 0xA0 ≤ b = λ t. omega arith in
    let u =
      three_bytes-in a b
        (x, omega arith, omega arith, omega arith, l, not_surrogate a b p i e₁ e₂) in
    char_len-three a b c r (ground arith) (rw t refl) (rw (u, tail_in c p e₃) refl)
char_len-IsChar (four {a = a} {b = b} {c = c} {d = d} p h k e₁ e₂ e₃ e₄) r =
    let x : 0xF0 ≤ a = omega arith in
    let t : within 0xC2 0xDF a ≡ false = ground arith in
    let l : a ≡ 0xF0 → 0x90 ≤ b = λ t. omega arith in
    let m : a ≡ 0xF4 → b ≤ 0x8F = λ t. omega arith in
    let u = four_bytes-in a b (x, omega arith, omega arith, omega arith, l, m) in
    char_len-four a b c d r (ground arith) (rw t refl) (rw (not_three a b x) refl)
      (rw (u, tail_in c (p / 64) e₃, tail_in d p e₄) refl)

IsChar-length : {c : Bytes} → IsChar c → (k : ℕ) × (length c ≡ suc k)
IsChar-length (one h) = (0, refl)
IsChar-length (two p h k e₁ e₂) = (1, refl)
IsChar-length (three p h k i e₁ e₂ e₃) = (2, refl)
IsChar-length (four p h k e₁ e₂ e₃ e₄) = (3, refl)

pub IsUtf8-valid_up_to : {s : Bytes} → IsUtf8 s → (n : ℕ) → valid_up_to 0 n s ≡ none
unfolding valid_up_to
IsUtf8-valid_up_to empty n = refl
IsUtf8-valid_up_to (char {c = c} {r = r} h t) n =
    let (k, e) = IsChar-length h in
    valid_up_to-char c r k n (char_len-IsChar h r ∙ e) e ∙ IsUtf8-valid_up_to t (n + length c)
