-- ===== src/Package/Versions.antt =====
-- The loop over the lines of surf.pkg keeps exact versions only (package.rs).
use snap_surf_lang.Prelude.{
  ℕ, ◌+◌, Bytes, text, text_eq, true, ◌||◌, List, [], ◌∷◌, Option, none, some, ◌≡◌, refl, if_both,
  All, All-concat,
}
use snap_surf_lang.Diagnostic.{Span}
use snap_surf_lang.Package.{PackageType, Dependency}
use snap_surf_lang.Package.Words.{valid_semver, lines, trim, split_whitespace, is_comment}
use snap_surf_lang.Package.Fields.{
  Fields, no_fields, line_span, type_of, unknown, with_word, set_version, set_type, add_requires,
  add_dep, read_field, read_words, read_trimmed, read_lines, read_text,
}

abbrev pub DepOk : Dependency → Type 0
DepOk d = valid_semver d.version ≡ true

abbrev pub VersionOk : Option Bytes → Type 0
VersionOk none = Unit {0}
VersionOk (some v) = valid_semver v ≡ true

-- The versions that were read so far are MAJOR.MINOR.PATCH.
unfoldable pub FieldsOk : Fields → Type 0
FieldsOk f = VersionOk f.version × All DepOk f.deps

kept : (f g : Fields) → g.version ≡ f.version → g.deps ≡ f.deps → FieldsOk f → FieldsOk g
unfolding FieldsOk
kept f g p q h = rw (p, q) h

no_fields-FieldsOk : FieldsOk no_fields
unfolding FieldsOk
no_fields-FieldsOk = (tt, tt)

module _ (path : Bytes) where
  unknown-FieldsOk :
      (k : Bytes) (sp : Span) (f : Fields) → FieldsOk f → FieldsOk (unknown path k sp f)
  unfolding unknown FieldsOk
  unknown-FieldsOk k sp f h = h

  with_word-FieldsOk :
      (args : List Bytes) (arm : Bytes → Fields) (other : Fields)
      → ((v : Bytes) → FieldsOk (arm v))
      → FieldsOk other
      → FieldsOk (with_word path args arm other)
  with_word-FieldsOk [] arm other h g = g
  with_word-FieldsOk (v ∷ []) arm other h g = h v
  with_word-FieldsOk (v ∷ w ∷ ws) arm other h g = g

  set_version-FieldsOk :
      (v : Bytes) (sp : Span) (f : Fields) → FieldsOk f → FieldsOk (set_version path v sp f)
  unfolding set_version FieldsOk
  set_version-FieldsOk v sp f h = if_both FieldsOk (valid_semver v) (λ q. (q, h.1)) λ q. h

  set_type-FieldsOk :
      (t : Option PackageType) (sp : Span) (f : Fields)
      → FieldsOk f
      → FieldsOk (set_type path t sp f)
  unfolding set_type FieldsOk
  set_type-FieldsOk none sp f h = h
  set_type-FieldsOk (some t) sp f h = h

  add_requires-FieldsOk :
      (ts : List Bytes) (f : Fields) → FieldsOk f → FieldsOk (add_requires path ts f)
  unfolding add_requires FieldsOk
  add_requires-FieldsOk [] f h = h
  add_requires-FieldsOk (t ∷ []) f h = if_both FieldsOk (text_eq t (text "none")) (λ q. h) λ q. h
  add_requires-FieldsOk (t ∷ u ∷ us) f h = h

  add_dep-FieldsOk :
      (ts : List Bytes) (sp : Span) (f : Fields) → FieldsOk f → FieldsOk (add_dep path ts sp f)
  unfolding add_dep FieldsOk
  add_dep-FieldsOk (n ∷ v ∷ []) sp f h =
      if_both FieldsOk (valid_semver v) (λ q. (h.0, All-concat DepOk f.deps _ h.1 q)) λ q. h
  add_dep-FieldsOk [] sp f h = h
  add_dep-FieldsOk (n ∷ []) sp f h = h
  add_dep-FieldsOk (n ∷ v ∷ w ∷ ws) sp f h = h

  read_field-FieldsOk :
      (k : Bytes) (args : List Bytes) (sp : Span) (f : Fields)
      → FieldsOk f
      → FieldsOk (read_field path k args sp f)
  unfolding read_field
  read_field-FieldsOk k args sp f h =
      let other = unknown-FieldsOk k sp f h in
      if_both FieldsOk (text_eq k (text "package"))
        (λ q.
          with_word-FieldsOk args _ _ (λ v. kept f (record f { name = some v }) refl refl h) other)
        λ q.
          if_both FieldsOk (text_eq k (text "version"))
            (λ q. with_word-FieldsOk args _ _ (λ v. set_version-FieldsOk v sp f h) other)
            λ q.
              if_both FieldsOk (text_eq k (text "type"))
                (λ q. with_word-FieldsOk args _ _ (λ v. set_type-FieldsOk (type_of v) sp f h) other)
                λ q.
                  if_both FieldsOk (text_eq k (text "target"))
                    (λ q.
                      with_word-FieldsOk args _ _
                        (λ v. kept f (record f { target = some v }) refl refl h) other)
                    λ q.
                      if_both FieldsOk (text_eq k (text "runtime"))
                        (λ q.
                          with_word-FieldsOk args _ _
                            (λ v. kept f (record f { runtime = some v }) refl refl h) other)
                        λ q.
                          if_both FieldsOk (text_eq k (text "entry"))
                            (λ q.
                              with_word-FieldsOk args _ _
                                (λ v. kept f (record f { entry = some v }) refl refl h) other)
                            λ q.
                              if_both FieldsOk (text_eq k (text "requires"))
                                (λ q. add_requires-FieldsOk args f h)
                                λ q.
                                  if_both FieldsOk (text_eq k (text "dep"))
                                    (λ q. add_dep-FieldsOk args sp f h)
                                    λ q.
                                      if_both FieldsOk
                                        (text_eq k (text "panic")
                                          || (text_eq k (text "budget") || text_eq k (text "link")))
                                        (λ q. h)
                                        λ q.
                                          if_both FieldsOk (text_eq k (text "end"))
                                            (λ q. ended args) λ q. other
    where
      ended :
          (args : List Bytes)
          → FieldsOk
              (elim args [ [] ↦ record f { saw_end = true } | a ∷ rest ↦ unknown path k sp f ])
      ended [] = kept f (record f { saw_end = true }) refl refl h
      ended (a ∷ rest) = unknown-FieldsOk k sp f h

  read_trimmed-FieldsOk :
      (n : ℕ) (line : Bytes) (f : Fields) → FieldsOk f → FieldsOk (read_trimmed path n line f)
  unfolding read_trimmed
  read_trimmed-FieldsOk n [] f h = h
  read_trimmed-FieldsOk n (c ∷ cs) f h =
      if_both FieldsOk (is_comment (c ∷ cs)) (λ q. h) λ q. go (split_whitespace (c ∷ cs))
    where
      go : (ws : List Bytes) → FieldsOk (read_words path ws (line_span n) f)
      go [] = h
      go (k ∷ args) = read_field-FieldsOk k args (line_span n) f h

  read_lines-FieldsOk :
      (n : ℕ) (ls : List Bytes) (f : Fields) → FieldsOk f → FieldsOk (read_lines path n ls f)
  unfolding read_lines
  read_lines-FieldsOk n [] f h = h
  read_lines-FieldsOk n (l ∷ ls) f h =
      read_lines-FieldsOk (n + 1) ls _ (read_trimmed-FieldsOk n (trim l) f h)

  pub read_text-FieldsOk : (s : Bytes) → FieldsOk (read_text path s)
  read_text-FieldsOk s = read_lines-FieldsOk 1 (lines s) no_fields no_fields-FieldsOk
