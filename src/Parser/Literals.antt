-- ===== src/Parser/Literals.antt =====
-- The values of literals (`parse_int_value` and `decode_string` of parser.rs).
use snap_surf_lang.Prelude.{
  ℕ, ◌+◌, ◌*◌, ◌^◌, Bytes, Bool, false, ◌&&◌, ◌||◌, [], ◌∷◌, Option, none, some, ltb, ◌==◌,
  if◌then◌else◌, within, Run, done, panic, ◌>>=◌,
}
use snap_surf_lang.Lexer.Scan.{digit_value}

-- `from_str_radix` of the standard library behind a sign: the digits, up to a bound.
unfoldable pub digits_value : ℕ → ℕ → ℕ → Bytes → Option ℕ
digits_value bound base acc [] = some acc
digits_value bound base acc (b ∷ bs) = elim (digit_value b) [
  | none ↦ none
  | some d ↦
      let rest = digits_value bound base (acc * base + d) bs in
      if ltb d base && ltb (acc * base + d) bound then rest else none
]

-- `from_str_radix`: an empty text has no value, and a plus sign may stand first.
unfoldable pub from_str_radix : ℕ → ℕ → Bytes → Option ℕ
from_str_radix bound base [] = none
from_str_radix bound base (b ∷ []) = digits_value bound base 0 (b ∷ [])
from_str_radix bound base (b ∷ (c ∷ cs)) =
    if b == b'+'
    then digits_value bound base 0 (c ∷ cs)
    else digits_value bound base 0 (b ∷ (c ∷ cs))

-- `replace('_', "")`
unfoldable pub without_underscores : Bytes → Bytes
without_underscores [] = []
without_underscores (b ∷ bs) =
    if b == b'_' then without_underscores bs else b ∷ without_underscores bs

-- The base that the first two bytes say, if they say one.
unfoldable pub base_of : ℕ → ℕ → Option ℕ
base_of a b =
    if a == b'0'
    then if b == b'x' || b == b'X'
      then some 16
      else if b == b'b' || b == b'B'
      then some 2
      else if b == b'o' || b == b'O'
      then some 8
      else none
    else none

unfoldable pub parse_int_value : Bytes → Option ℕ
parse_int_value (a ∷ (b ∷ bs)) = in_base (base_of a b)
  where
    in_base : Option ℕ → Option ℕ
    in_base (some base) = from_str_radix (2 ^ 128) base (without_underscores bs)
    in_base none = from_str_radix (2 ^ 128) 10 (without_underscores (a ∷ (b ∷ bs)))
parse_int_value (a ∷ []) = from_str_radix (2 ^ 128) 10 (without_underscores (a ∷ []))
parse_int_value [] = from_str_radix (2 ^ 128) 10 []

-- The byte that an escape other than `\x` stands for.
unfoldable pub escaped : ℕ → ℕ
escaped e =
    if e == b'n'
    then b'\n'
    else if e == b't'
    then b'\t'
    else if e == b'r'
    then b'\r'
    else if e == b'0'
    then 0
    else e

-- A byte in front of what is decoded behind it.
abbrev pub before : ℕ → Run Bytes → Run Bytes
before b rest = do bs ← rest; done (b ∷ bs)

-- No character of the text starts at the byte: a slice that ends before it panics.
unfoldable pub is_inside : Bytes → Bool
is_inside [] = false
is_inside (b ∷ bs) = within 0x80 0xBF b

-- `\x` and two bytes: the byte they stand for, if they are a number, which the rest follows.
unfoldable pub hex_byte : ℕ → ℕ → Bytes → Run Bytes → Run Bytes
hex_byte h l behind rest =
    if is_inside behind || is_inside (h ∷ [])
    then panic
    else elim (from_str_radix 256 16 (h ∷ (l ∷ []))) [ some v ↦ before v rest | none ↦ rest ]

-- The loop of `decode_string` on the bytes between the quotes.
unfoldable pub decode : Bytes → Run Bytes
decode [] = done []
decode (b ∷ []) = if b == b'\\' then done [] else done (b ∷ [])
decode (b ∷ (e ∷ [])) =
    let rest = decode (e ∷ []) in if b == b'\\' then done (escaped e ∷ []) else before b rest
decode (b ∷ (e ∷ (h ∷ []))) =
    let rest = decode (e ∷ (h ∷ [])) in
    let behind = decode (h ∷ []) in if b == b'\\' then before (escaped e) behind else before b rest
decode (b ∷ (e ∷ (h ∷ (l ∷ bs)))) =
    let rest = decode (e ∷ (h ∷ (l ∷ bs))) in
    let behind = decode (h ∷ (l ∷ bs)) in
    let last = decode bs in
    if b == b'\\'
    then if e == b'x' then hex_byte h l bs last else before (escaped e) behind
    else before b rest

-- All but the last element, and the last one, if there is one.
unfoldable pub unsnoc : Bytes → Option (Bytes × ℕ)
unsnoc [] = none
unsnoc (b ∷ bs) = elim (unsnoc bs) [ none ↦ some ([], b) | some r ↦ some (b ∷ r.0, r.1) ]

-- The text between its quotes, or all of it if it has none.
unfoldable pub unquoted : Bytes → Bytes
unquoted [] = []
unquoted (b ∷ bs) =
    if b == b'"'
    then elim (unsnoc bs) [ none ↦ b ∷ bs | some r ↦ if r.1 == b'"' then r.0 else b ∷ bs ]
    else b ∷ bs

unfoldable pub decode_string : Bytes → Run Bytes
decode_string raw = decode (unquoted raw)
