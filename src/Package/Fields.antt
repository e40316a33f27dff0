-- ===== src/Package/Fields.antt =====
-- The lines of surf.pkg (`parse_package_text` in package.rs).
use snap_surf_lang.Prelude.{
  ℕ, ◌+◌, Bytes, text, text_eq, Bool, true, false, ◌||◌, List, [], ◌∷◌, ◌++◌, Option, none, some,
  if◌then◌else◌,
}
use snap_surf_lang.Prelude.Maps.{contains}
use snap_surf_lang.Diagnostic.{Span, Diagnostic, error_at}
use snap_surf_lang.Package.{PackageType, executable, library, build_script, Dependency}
use snap_surf_lang.Package.Words.{trim, split_whitespace, is_comment, lines, valid_semver}

-- The variables of the loop. `requires` is a set.
pub record Fields : Type 0 where
  pub diagnostics : List Diagnostic
  pub name : Option Bytes
  pub version : Option Bytes
  pub package_type : Option PackageType
  pub target : Option Bytes
  pub runtime : Option Bytes
  pub entry : Option Bytes
  pub requires : List Bytes
  pub deps : List Dependency
  pub saw_end : Bool

abbrev pub no_fields : Fields
no_fields = record {
  diagnostics = [];
  name = none;
  version = none;
  package_type = none;
  target = none;
  runtime = none;
  entry = none;
  requires = [];
  deps = [];
  saw_end = false;
}

abbrev pub line_span : ℕ → Span
line_span line = record {
  source_file_id = 0;
  start = record { byte = 0; line = line; column = 1 };
  end = record { byte = 0; line = line; column = 1 };
}

abbrev pub diag : Bytes → Bytes → Bytes → Span → Diagnostic
diag path code message sp = error_at code message path 0 sp

unfoldable pub insert_text : Bytes → List Bytes → List Bytes
insert_text t ts = if contains t ts then ts else t ∷ ts

unfoldable pub insert_all : List Bytes → List Bytes → List Bytes
insert_all [] ts = ts
insert_all (c ∷ cs) ts = insert_all cs (insert_text c ts)

-- `executable`, `library` or `build-script`.
unfoldable pub type_of : Bytes → Option PackageType
type_of t =
    if text_eq t (text "executable")
    then some executable
    else if text_eq t (text "library")
    then some library
    else if text_eq t (text "build-script")
    then some build_script
    else none

module _ (path : Bytes) where
  abbrev pub push : Bytes → Bytes → Span → Fields → Fields
  push code message sp f = record f {
    diagnostics = f.diagnostics ++ diag path code message sp ∷ [];
  }

  unfoldable pub unknown : Bytes → Span → Fields → Fields
  unknown bad sp f = push (text "E0902") (text "unknown surf.pkg field `" ++ (bad ++ text "`")) sp f

  -- An arm that wants one word behind the keyword.
  abbrev pub with_word : List Bytes → (Bytes → Fields) → Fields → Fields
  with_word (v ∷ []) arm other = arm v
  with_word _ arm other = other

  unfoldable pub set_version : Bytes → Span → Fields → Fields
  set_version v sp f =
      if valid_semver v
      then record f { version = some v }
      else push (text "E0902") (text "version must be MAJOR.MINOR.PATCH") sp f

  unfoldable pub set_type : Option PackageType → Span → Fields → Fields
  set_type none sp f = push (text "E0902") (text "unsupported package type") sp f
  set_type (some t) sp f = record f { package_type = some t }

  unfoldable pub add_requires : List Bytes → Fields → Fields
  add_requires (t ∷ []) f =
      if text_eq t (text "none")
      then record f { requires = [] }
      else record f { requires = insert_text t f.requires }
  add_requires ts f = record f { requires = insert_all ts f.requires }

  abbrev pub bad_dep : Span → Fields → Fields
  bad_dep sp f = push (text "E0902") (text "dep requires name and exact semver") sp f

  unfoldable pub add_dep : List Bytes → Span → Fields → Fields
  add_dep (n ∷ v ∷ []) sp f =
      if valid_semver v
      then record f { deps = f.deps ++ record { name = n; version = v } ∷ [] }
      else bad_dep sp f
  add_dep _ sp f = bad_dep sp f

  -- The arms of the match, on the first word and those behind it.
  unfoldable pub read_field : Bytes → List Bytes → Span → Fields → Fields
  read_field k args sp f =
      if text_eq k (text "package")
      then with_word args (λ v. record f { name = some v }) (unknown k sp f)
      else if text_eq k (text "version")
      then with_word args (λ v. set_version v sp f) (unknown k sp f)
      else if text_eq k (text "type")
      then with_word args (λ v. set_type (type_of v) sp f) (unknown k sp f)
      else if text_eq k (text "target")
      then with_word args (λ v. record f { target = some v }) (unknown k sp f)
      else if text_eq k (text "runtime")
      then with_word args (λ v. record f { runtime = some v }) (unknown k sp f)
      else if text_eq k (text "entry")
      then with_word args (λ v. record f { entry = some v }) (unknown k sp f)
      else if text_eq k (text "requires")
      then add_requires args f
      else if text_eq k (text "dep")
      then add_dep args sp f
      else if text_eq k (text "panic") || (text_eq k (text "budget") || text_eq k (text "link"))
      then f
      else if text_eq k (text "end")
      then elim args [ [] ↦ record f { saw_end = true } | a ∷ rest ↦ unknown k sp f ]
      else unknown k sp f

  abbrev pub read_words : List Bytes → Span → Fields → Fields
  read_words [] sp f = f
  read_words (k ∷ args) sp f = read_field k args sp f

  -- The rest of a round, on the trimmed line.
  unfoldable pub read_trimmed : ℕ → Bytes → Fields → Fields
  read_trimmed line_no [] f = f
  read_trimmed line_no (c ∷ cs) f =
      if is_comment (c ∷ cs)
      then f
      else read_words (split_whitespace (c ∷ cs)) (line_span line_no) f

  -- A round of the loop.
  abbrev pub read_line : ℕ → Bytes → Fields → Fields
  read_line line_no raw_line f = read_trimmed line_no (trim raw_line) f

  unfoldable pub read_lines : ℕ → List Bytes → Fields → Fields
  read_lines line_no [] f = f
  read_lines line_no (l ∷ ls) f = read_lines (line_no + 1) ls (read_line line_no l f)

  abbrev pub read_text : Bytes → Fields
  read_text s = read_lines 1 (lines s) no_fields
