-- ===== src/Source/Load.antt =====
-- `SourceFile::load_snapsurf` of source.rs. A path is the bytes of the path; reading a file is a
-- parameter.
use snap_surf_lang.Prelude.{
  ℕ, zero, suc, ◌+◌, Bytes, text, text_eq, Bool, false, ◌&&◌, List, [], ◌∷◌, ◌++◌, Option, none,
  some, ◌==◌, if◌then◌else◌, within, ltb,
}
use snap_surf_lang.Diagnostic.{Span, Diagnostic, error_at}
use snap_surf_lang.Source.{SourceFile}
use snap_surf_lang.Package.Load.{Outcome, ok, err}

-- What follows the last `sep` of a text, and what stands in front of it.
unfoldable pub split_last : ℕ → Bytes → Option (Bytes × Bytes)
split_last sep [] = none
split_last sep (c ∷ cs) = elim (split_last sep cs) [
  | some (a, b) ↦ some (c ∷ a, b)
  | none ↦ if c == sep then some ([], cs) else none
]

-- `Path::file_name` of a path that ends in a name.
unfoldable pub file_name : Bytes → Bytes
file_name path = elim (split_last b'/' path) [ none ↦ path | some (a, b) ↦ b ]

-- `Path::extension`: none where nothing stands in front of the dot.
unfoldable pub extension : Bytes → Option Bytes
extension path = elim (split_last b'.' (file_name path)) [
  | none ↦ none
  | some (a, b) ↦ elim a [ [] ↦ none | c ∷ cs ↦ some b ]
]

-- The ranges of the second byte, behind the leads of three and of four bytes.
unfoldable pub three_bytes : ℕ → ℕ → Bool
three_bytes a b =
    if a == 0xE0
    then within 0xA0 0xBF b
    else if a == 0xED
    then within 0x80 0x9F b
    else within 0xE1 0xEF a && within 0x80 0xBF b

unfoldable pub four_bytes : ℕ → ℕ → Bool
four_bytes a b =
    if a == 0xF0
    then within 0x90 0xBF b
    else if a == 0xF4
    then within 0x80 0x8F b
    else within 0xF1 0xF3 a && within 0x80 0xBF b

-- The number of bytes of the well-formed UTF-8 character in front, 0 where there is none.
unfoldable pub char_len : Bytes → ℕ
unfolding three_bytes four_bytes
char_len [] = 0
char_len (a ∷ []) = if ltb a 0x80 then 1 else 0
char_len (a ∷ b ∷ []) =
    if ltb a 0x80 then 1 else if within 0xC2 0xDF a && within 0x80 0xBF b then 2 else 0
char_len (a ∷ b ∷ c ∷ []) =
    if ltb a 0x80
    then 1
    else if within 0xC2 0xDF a && within 0x80 0xBF b
    then 2
    else if three_bytes a b && within 0x80 0xBF c
    then 3
    else 0
char_len (a ∷ b ∷ c ∷ d ∷ cs) =
    if ltb a 0x80
    then 1
    else if within 0xC2 0xDF a && within 0x80 0xBF b
    then 2
    else if three_bytes a b && within 0x80 0xBF c
    then 3
    else if four_bytes a b && (within 0x80 0xBF c && within 0x80 0xBF d)
    then 4
    else 0

-- `Utf8Error::valid_up_to`, or none where all is well-formed: bytes to leave out, and those read.
unfoldable pub valid_up_to : ℕ → ℕ → Bytes → Option ℕ
valid_up_to skip n [] = none
valid_up_to (suc k) n (c ∷ cs) = valid_up_to k (n + 1) cs
valid_up_to zero n (c ∷ cs) = elim (char_len (c ∷ cs)) [
  | zero ↦ some n
  | suc k ↦ valid_up_to k (n + 1) cs
]

abbrev pub span_at : ℕ → ℕ → ℕ → Span
span_at id from to = record {
  source_file_id = id;
  start = record { byte = from; line = 1; column = from + 1 };
  end = record { byte = to; line = 1; column = to + 1 };
}

-- A span whose ends are the start of the file.
abbrev pub display_span : ℕ → Span
display_span id = span_at id 0 0

abbrev pub fail : {A : Type 0} → Bytes → Bytes → Bytes → ℕ → Span → Outcome (List Diagnostic) A
fail code message path id sp = err (error_at code message path id sp ∷ [])

abbrev pub has_bom : Bytes → Bool
has_bom (a ∷ b ∷ c ∷ cs) = a == 0xEF && (b == 0xBB && c == 0xBF)
has_bom _ = false

abbrev pub is_snapsurf : Option Bytes → Bool
is_snapsurf none = false
is_snapsurf (some e) = text_eq e (text "snapsurf")

unfoldable pub load_snapsurf :
    (Bytes → Outcome Bytes Bytes) → Bytes → ℕ → Outcome (List Diagnostic) SourceFile
load_snapsurf read path id =
    if is_snapsurf (extension path)
    then elim (valid_up_to 0 0 path) [
      | some n ↦
          fail (text "E0004") (text "source path is not valid UTF-8") path id (display_span id)
      | none ↦ elim (read path) [
        | err e ↦
            fail (text "E9000") (text "failed to read source file: " ++ e) path id (display_span id)
        | ok bytes ↦
            if has_bom bytes
            then fail (text "E0001") (text "UTF-8 BOM is not allowed") path id (display_span id)
            else elim (valid_up_to 0 0 bytes) [
              | some n ↦
                  fail (text "E0002") (text "invalid UTF-8 sequence") path id (span_at id n (n + 1))
              | none ↦ ok (record { id = id; path = path; bytes = bytes; text = bytes })
            ]
      ]
    ]
    else fail (text "E0003") (text "SnapSurf source file must use .snapsurf extension") path id
        (display_span id)
