-- ===== src/Parser/Quotes.antt =====
-- The bytes of string literals (`decode_string` of parser.rs).
use snap_surf_lang.Prelude.{
  ℕ, ◌+◌, ◌*◌, ◌<◌, Bytes, true, false, ◌||◌, [], ◌∷◌, ◌++◌, some, ltb, ◌==◌, if◌then◌else◌, ◌≡◌,
  ◌≢◌, refl, ap, ◌∙◌, inl, inr, All, ◌/◌, ◌%◌, Bool-cases, arith, done, within,
}
use mathlib.Core.Path.{subst}
use snap_surf_lang.Lexer.Scan.{digit_value}
use snap_surf_lang.Parser.Numerals.{digit, digit_value-digit}
use snap_surf_lang.Parser.Literals.{
  digits_value, from_str_radix, escaped, before, is_inside, hex_byte, decode, unsnoc, unquoted,
  decode_string,
}

-- The byte behind a backslash, and what the two of them stand for.
pub data Escape : ℕ → ℕ → Type 0 where
  new_line : Escape b'n' b'\n'
  tab : Escape b't' b'\t'
  carriage_return : Escape b'r' b'\r'
  nul : Escape b'0' 0
  itself : {c : ℕ} → c ≢ b'n' → c ≢ b't' → c ≢ b'r' → c ≢ b'0' → c ≢ b'x' → Escape c c

-- The text between the quotes, and the bytes that it spells. A byte that is given by its number is
-- not in front of the rest of a character of several bytes.
pub data Spells : Bytes → Bytes → Type 0 where
  nothing : Spells [] []
  plain : {c : ℕ} {t s : Bytes} → c ≢ b'\\' → Spells t s → Spells (c ∷ t) (c ∷ s)
  escape : {e c : ℕ} {t s : Bytes} → Escape e c → Spells t s → Spells (b'\\' ∷ e ∷ t) (c ∷ s)
  numbered :
      {h l x y : ℕ} {t s : Bytes}
      → digit_value h ≡ some x
      → digit_value l ≡ some y
      → is_inside t ≡ false
      → Spells t s
      → Spells (b'\\' ∷ b'x' ∷ h ∷ l ∷ t) ((x * 16 + y) ∷ s)

digit_value_bound : (c x : ℕ) → digit_value c ≡ some x → x < 16
unfolding digit_value
digit_value_bound c x e = ground arith

digit_value-inside : (c x : ℕ) → digit_value c ≡ some x → is_inside (c ∷ []) ≡ false
unfolding digit_value is_inside
digit_value-inside c x e = ground arith

digit_value-sign : (c x : ℕ) → digit_value c ≡ some x → (c == b'+') ≡ false
unfolding digit_value
digit_value-sign c x e = ground arith

two_digits :
    (h l x y : ℕ)
    → digit_value h ≡ some x
    → digit_value l ≡ some y
    → from_str_radix 256 16 (h ∷ (l ∷ [])) ≡ some (x * 16 + y)
unfolding from_str_radix digits_value
two_digits h l x y p q =
    let i = digit_value_bound h x p in
    let j = digit_value_bound l y q in
    let a : ltb x 16 ≡ true = ground arith in
    let b : ltb y 16 ≡ true = ground arith in
    let z : 0 * 16 + x ≡ x = omega arith in
    let c : ltb x 256 ≡ true = ground arith in
    let d : ltb (x * 16 + y) 256 ≡ true = ground arith in
    rw (from_str_radix, digit_value-sign h x p, digits_value, p, q, a, b, z, c, d) refl

decode-plain : (c : ℕ) (t : Bytes) → (c == b'\\') ≡ false → decode (c ∷ t) ≡ before c (decode t)
unfolding decode
decode-plain c [] q = rw (decode, q) refl
decode-plain c (d ∷ []) q = rw (decode, q) refl
decode-plain c (d ∷ (e ∷ [])) q = rw (decode, q) refl
decode-plain c (d ∷ (e ∷ (f ∷ t))) q = rw (decode, q) refl

decode-escape :
    (e : ℕ) (t : Bytes)
    → (e == b'x') ≡ false
    → decode (b'\\' ∷ (e ∷ t)) ≡ before (escaped e) (decode t)
unfolding decode
decode-escape e [] q = refl
decode-escape e (d ∷ []) q = refl
decode-escape e (d ∷ (f ∷ t)) q = rw (decode, q) refl

decode-numbered :
    (h l x y : ℕ) (t : Bytes)
    → digit_value h ≡ some x
    → digit_value l ≡ some y
    → is_inside t ≡ false
    → decode (b'\\' ∷ b'x' ∷ h ∷ l ∷ t) ≡ before (x * 16 + y) (decode t)
unfolding decode hex_byte
decode-numbered h l x y t p q i =
    rw (hex_byte, i, digit_value-inside h x p, two_digits h l x y p q) refl

Escape-escaped : {e c : ℕ} → Escape e c → ((e == b'x') ≡ false) × (escaped e ≡ c)
unfolding escaped
Escape-escaped new_line = (refl, refl)
Escape-escaped tab = (refl, refl)
Escape-escaped carriage_return = (refl, refl)
Escape-escaped nul = (refl, refl)
Escape-escaped (itself n t r z x) = (ground arith, ground arith)

decode-Spells : {t s : Bytes} → Spells t s → decode t ≡ done s
unfolding decode
decode-Spells nothing = refl
decode-Spells (plain {c = c} {t = t} n k) =
    let q : (c == b'\\') ≡ false = ground arith in
    decode-plain c t q ∙ ap (before c) (decode-Spells k)
decode-Spells (escape {e = e} {t = t} {s = s} x k) =
    let (q, r) = Escape-escaped x in
    decode-escape e t q ∙ ap (before (escaped e)) (decode-Spells k) ∙ ap (λ c. done (c ∷ s)) r
decode-Spells (numbered {h = h} {l = l} {x = x} {y = y} {t = t} p q i k) =
    decode-numbered h l x y t p q i ∙ ap (before (x * 16 + y)) (decode-Spells k)

unsnoc-snoc : (t : Bytes) (c : ℕ) → unsnoc (t ++ c ∷ []) ≡ some (t, c)
unfolding unsnoc
unsnoc-snoc [] c = refl
unsnoc-snoc (b ∷ t) c = rw (unsnoc-snoc t c) refl

unquoted-quoted : (t : Bytes) → unquoted (b'"' ∷ (t ++ b'"' ∷ [])) ≡ t
unfolding unquoted
unquoted-quoted t = rw (unsnoc-snoc t b'"') refl

-- A text between quotes that spells some bytes is decoded to them, without a panic.
pub decode_string-Spells :
    (t s : Bytes) → Spells t s → decode_string (b'"' ∷ (t ++ b'"' ∷ [])) ≡ done s
unfolding decode_string
decode_string-Spells t s h = ap decode (unquoted-quoted t) ∙ decode-Spells h

-- A text of printable bytes for each byte.
unfoldable pub quote_byte : ℕ → Bytes
quote_byte c =
    if c == b'"' || c == b'\\'
    then b'\\' ∷ c ∷ []
    else if within 0x20 0x7E c
    then c ∷ []
    else b'\\' ∷ b'x' ∷ digit (c / 16) ∷ digit (c % 16) ∷ []

unfoldable pub quote_bytes : Bytes → Bytes
quote_bytes [] = []
quote_bytes (c ∷ s) = quote_byte c ++ quote_bytes s

unfoldable pub quote : Bytes → Bytes
quote s = b'"' ∷ (quote_bytes s ++ b'"' ∷ [])

quote_byte-inside : (c : ℕ) (t : Bytes) → is_inside (quote_byte c ++ t) ≡ false
unfolding quote_byte is_inside
quote_byte-inside c t = ground arith

quote_bytes-inside : (s : Bytes) → is_inside (quote_bytes s) ≡ false
unfolding quote_bytes is_inside
quote_bytes-inside [] = refl
quote_bytes-inside (c ∷ s) = quote_byte-inside c (quote_bytes s)

quote_byte-Spells :
    (c : ℕ) (t s : Bytes)
    → c < 256
    → is_inside t ≡ false
    → Spells t s
    → Spells (quote_byte c ++ t) (c ∷ s)
unfolding quote_byte
quote_byte-Spells c t s h i k = elim (Bool-cases (c == b'"' || c == b'\\')) [
  | inl p ↦ rw p (
      Spells.escape
        (itself (ground arith) (ground arith) (ground arith) (ground arith) (ground arith)) k)
  | inr p ↦ elim (Bool-cases (within 0x20 0x7E c)) [
    | inl q ↦ rw (p, q) (plain (ground arith) k)
    | inr q ↦
        let e : c / 16 * 16 + c % 16 ≡ c = omega arith in
        rw (p, q)
          (subst (λ v. Spells (b'\\' ∷ b'x' ∷ digit (c / 16) ∷ digit (c % 16) ∷ t) (v ∷ s)) e
            (numbered (digit_value-digit (c / 16) (omega arith))
              (digit_value-digit (c % 16) (omega arith)) i k))
  ]
]

quote_bytes-Spells : (s : Bytes) → All (λ c. c < 256) s → Spells (quote_bytes s) s
unfolding quote_bytes
quote_bytes-Spells [] h = nothing
quote_bytes-Spells (c ∷ s) (x, h) =
    quote_byte-Spells c (quote_bytes s) s x (quote_bytes-inside s) (quote_bytes-Spells s h)

-- All bytes can be written as a string literal: their quotation is decoded to them.
pub decode_string-quote : (s : Bytes) → All (λ c. c < 256) s → decode_string (quote s) ≡ done s
unfolding quote
decode_string-quote s h = decode_string-Spells (quote_bytes s) s (quote_bytes-Spells s h)
