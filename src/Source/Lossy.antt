-- ===== src/Source/Lossy.antt =====
-- `String::from_utf8_lossy` of the standard library, which the lexer applies to every slice that
-- becomes a lexeme: well-formed UTF-8 stays, and each maximal ill-formed run becomes U+FFFD.
use snap_surf_lang.Prelude.{
  ℕ, ◌-◌, ◌<◌, Bytes, [], ◌∷◌, ◌++◌, ◌≡◌, refl, ltb, ◌==◌, within, if◌then◌else◌, All, arith,
}

-- Between characters, or inside one: the continuation bytes still due, the range of the next
-- one, and the bytes so far.
pub data Progress : Type 0 where
  between : Progress
  inside : ℕ → ℕ → ℕ → Bytes → Progress

replacement : Bytes
replacement = 0xEF ∷ 0xBF ∷ 0xBD ∷ []

lead : ℕ → Progress × Bytes
unfolding replacement
lead b =
    if ltb b 0x80
    then (between, b ∷ [])
    else if within 0xC2 0xDF b
    then (inside 1 0x80 0xBF (b ∷ []), [])
    else if b == 0xE0
    then (inside 2 0xA0 0xBF (b ∷ []), [])
    else if b == 0xED
    then (inside 2 0x80 0x9F (b ∷ []), [])
    else if within 0xE1 0xEF b
    then (inside 2 0x80 0xBF (b ∷ []), [])
    else if b == 0xF0
    then (inside 3 0x90 0xBF (b ∷ []), [])
    else if within 0xF1 0xF3 b
    then (inside 3 0x80 0xBF (b ∷ []), [])
    else if b == 0xF4
    then (inside 3 0x80 0x8F (b ∷ []), [])
    else (between, replacement)

-- The next state, and the bytes that are decided.
read_byte : Progress → ℕ → Progress × Bytes
unfolding lead replacement
read_byte between b = lead b
read_byte (inside due lo hi seen) b =
    if within lo hi b
    then (if due == 1
        then (between, seen ++ b ∷ [])
        else (inside (due - 1) 0x80 0xBF (seen ++ b ∷ []), []))
    else (let (p, out) = lead b in (p, replacement ++ out))

decode : Progress → Bytes → Bytes
unfolding read_byte
decode between [] = []
decode (inside due lo hi seen) [] = replacement
decode p (b ∷ bs) = let (p', out) = read_byte p b in out ++ decode p' bs

unfoldable pub from_utf8_lossy : Bytes → Bytes
unfolding decode
from_utf8_lossy = decode between

-- ASCII is kept.
pub from_utf8_lossy-ascii : (bs : Bytes) → All (λ b. b < 0x80) bs → from_utf8_lossy bs ≡ bs
unfolding from_utf8_lossy
from_utf8_lossy-ascii [] h = refl
from_utf8_lossy-ascii (b ∷ bs) h = ground (arith, from_utf8_lossy-ascii bs)
