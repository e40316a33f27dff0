-- ===== src/Package/Words.antt =====
-- The operations of `str` that package.rs uses, on the UTF-8 bytes of a text, and `valid_semver`.
use snap_surf_lang.Prelude.{
  ℕ, zero, suc, Bytes, Bool, true, false, ◌&&◌, ◌||◌, List, [], ◌∷◌, ◌++◌, ◌==◌, if◌then◌else◌,
  within,
}

-- The number of bytes of the whitespace character in front, 0 where there is none.
white_of_three : ℕ → ℕ → ℕ → Bool
white_of_three c d e =
    (c == 0xE1 && (d == 0x9A && e == 0x80))
    || ((c == 0xE2 && (d == 0x80 && (within 0x80 0x8A e || (within 0xA8 0xA9 e || e == 0xAF))))
        || ((c == 0xE2 && (d == 0x81 && e == 0x9F)) || (c == 0xE3 && (d == 0x80 && e == 0x80))))

unfoldable pub white_len : Bytes → ℕ
unfolding white_of_three
white_len [] = 0
white_len (c ∷ []) = if within 9 13 c || c == b' ' then 1 else 0
white_len (c ∷ d ∷ []) =
    if within 9 13 c || c == b' ' then 1 else if c == 0xC2 && (d == 0x85 || d == 0xA0) then 2 else 0
white_len (c ∷ d ∷ e ∷ cs) =
    if within 9 13 c || c == b' '
    then 1
    else if c == 0xC2 && (d == 0x85 || d == 0xA0)
    then 2
    else if white_of_three c d e
    then 3
    else 0

-- `trim_start`, where the first bytes of a number are left out.
unfoldable pub drop_white : ℕ → Bytes → Bytes
drop_white skip [] = []
drop_white (suc n) (c ∷ cs) = drop_white n cs
drop_white zero (c ∷ cs) = elim (white_len (c ∷ cs)) [ zero ↦ c ∷ cs | suc n ↦ drop_white n cs ]

-- `trim_end`: what is followed by whitespace only is left out.
unfoldable pub drop_last_white : Bytes → Bytes
drop_last_white [] = []
drop_last_white (c ∷ cs) = elim (drop_white 0 (c ∷ cs)) [
  | [] ↦ []
  | d ∷ ds ↦ c ∷ drop_last_white cs
]

unfoldable pub trim : Bytes → Bytes
trim s = drop_last_white (drop_white 0 s)

abbrev pub and_word : Bytes → List Bytes → List Bytes
and_word [] ws = ws
and_word (c ∷ cs) ws = (c ∷ cs) ∷ ws

-- The loop of `split_whitespace`: bytes to leave out, and the word so far.
unfoldable pub split_words : ℕ → Bytes → Bytes → List Bytes
split_words skip w [] = and_word w []
split_words (suc n) w (c ∷ cs) = split_words n w cs
split_words zero w (c ∷ cs) = elim (white_len (c ∷ cs)) [
  | zero ↦ split_words 0 (w ++ c ∷ []) cs
  | suc n ↦ and_word w (split_words n [] cs)
]

abbrev pub split_whitespace : Bytes → List Bytes
split_whitespace s = split_words 0 [] s

-- A line without the `\r` in front of its `\n`.
unfoldable pub strip_cr : Bytes → Bytes
strip_cr [] = []
strip_cr (c ∷ []) = if c == 13 then [] else c ∷ []
strip_cr (c ∷ d ∷ cs) = c ∷ strip_cr (d ∷ cs)

-- `lines`, with the line so far.
unfoldable pub lines_from : Bytes → Bytes → List Bytes
lines_from w [] = and_word w []
lines_from w (c ∷ cs) =
    if c == b'\n' then strip_cr w ∷ lines_from [] cs else lines_from (w ++ c ∷ []) cs

abbrev pub lines : Bytes → List Bytes
lines s = lines_from [] s

-- `split(sep)`, with the part so far.
unfoldable pub split_from : ℕ → Bytes → Bytes → List Bytes
split_from sep w [] = w ∷ []
split_from sep w (c ∷ cs) =
    if c == sep then w ∷ split_from sep [] cs else split_from sep (w ++ c ∷ []) cs

-- `starts_with("//")`
abbrev pub is_comment : Bytes → Bool
is_comment (c ∷ d ∷ cs) = c == b'/' && d == b'/'
is_comment _ = false

unfoldable pub all_digits : Bytes → Bool
all_digits [] = true
all_digits (c ∷ cs) = within b'0' b'9' c && all_digits cs

unfoldable pub is_number : Bytes → Bool
is_number [] = false
is_number (c ∷ cs) = all_digits (c ∷ cs)

unfoldable pub three_numbers : List Bytes → Bool
three_numbers (a ∷ b ∷ c ∷ []) = is_number a && (is_number b && is_number c)
three_numbers _ = false

unfoldable pub valid_semver : Bytes → Bool
valid_semver s = three_numbers (split_from b'.' [] s)
