-- ===== src/Parser/Strings.antt =====
-- `decode_string` of parser.rs ends: it gives the bytes or it panics.
use snap_surf_lang.Prelude.{
  ℕ, Bytes, ◌||◌, [], ◌∷◌, Option, none, some, ◌==◌, if◌then◌else◌, Bool-cases, Run, done, Post,
  Post-bind, inl, inr,
}
use snap_surf_lang.Parser.Literals.{
  escaped, before, is_inside, hex_byte, from_str_radix, decode, unquoted, decode_string,
}

abbrev pub Ends : Run Bytes → Type 0
Ends m = Post Unit (λ _. Unit) m

before-Ends : (b : ℕ) (rest : Run Bytes) → Ends rest → Ends (before b rest)
before-Ends b rest h =
    Post-bind Unit (λ _. Unit) (λ _. Unit) rest (λ bs. done (b ∷ bs)) h (λ bs u. tt)

hex_byte-Ends :
    (h l : ℕ) (behind : Bytes) (rest : Run Bytes) → Ends rest → Ends (hex_byte h l behind rest)
unfolding hex_byte
hex_byte-Ends h l behind rest e = elim (Bool-cases (is_inside behind || is_inside (h ∷ []))) [
  | inl q ↦ rw q tt
  | inr q ↦ rw q (go (from_str_radix 256 16 (h ∷ (l ∷ []))))
]
  where
    go : (o : Option ℕ) → Ends (elim o [ some v ↦ before v rest | none ↦ rest ])
    go (some v) = before-Ends v rest e
    go none = e

-- The test for a backslash, with what is decoded on either branch.
escape-Ends :
    (b : ℕ) (x y : Run Bytes) → Ends x → Ends y → Ends (if b == b'\\' then x else before b y)
escape-Ends b x y hx hy = elim (Bool-cases (b == b'\\')) [
  | inl q ↦ rw q hx
  | inr q ↦ rw q (before-Ends b y hy)
]

hex-Ends : (e : ℕ) (x y : Run Bytes) → Ends x → Ends y → Ends (if e == b'x' then x else y)
hex-Ends e x y hx hy = elim (Bool-cases (e == b'x')) [ inl q ↦ rw q hx | inr q ↦ rw q hy ]

decode-Ends : (bs : Bytes) → Ends (decode bs)
unfolding decode
decode-Ends [] = tt
decode-Ends (b ∷ []) = escape-Ends b (done []) (done []) tt tt
decode-Ends (b ∷ (e ∷ [])) =
    escape-Ends b (done (escaped e ∷ [])) (decode (e ∷ [])) tt (decode-Ends (e ∷ []))
decode-Ends (b ∷ (e ∷ (h ∷ []))) =
    escape-Ends b (before (escaped e) (decode (h ∷ []))) (decode (e ∷ (h ∷ [])))
      (before-Ends (escaped e) _ (decode-Ends (h ∷ []))) (decode-Ends (e ∷ (h ∷ [])))
decode-Ends (b ∷ (e ∷ (h ∷ (l ∷ bs)))) =
    escape-Ends b _ (decode (e ∷ (h ∷ (l ∷ bs))))
      (hex-Ends e (hex_byte h l bs (decode bs)) (before (escaped e) (decode (h ∷ (l ∷ bs))))
        (hex_byte-Ends h l bs _ (decode-Ends bs))
        (before-Ends (escaped e) _ (decode-Ends (h ∷ (l ∷ bs)))))
      (decode-Ends (e ∷ (h ∷ (l ∷ bs))))

pub decode_string-Ends : (raw : Bytes) → Ends (decode_string raw)
unfolding decode_string
decode_string-Ends raw = decode-Ends (unquoted raw)
