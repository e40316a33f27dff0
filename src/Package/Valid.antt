-- ===== src/Package/Valid.antt =====
-- What the loader of surf.pkg promises of a package (package.rs).
use snap_surf_lang.Prelude.{
  Bytes, text, text_eq, text_eq_iff, Bool, true, false, not, ◌&&◌, List, [], ◌∷◌, Option, none,
  some, ◌≡◌, ◌≢◌, refl, ◌⊎◌, inl, inr, if◌then◌else◌, if_both, All, append-eq-nil, done, or_panic,
  Post, ◌>>=◌,
}
use snap_surf_lang.Diagnostic.{Diagnostic}
use snap_surf_lang.Package.{PackageType, Package}
use snap_surf_lang.Package.Words.{valid_semver}
use snap_surf_lang.Package.Fields.{Fields, line_span, diag, read_text}
use snap_surf_lang.Package.Load.{
  Outcome, ok, err, FileSystem, join_path, entry_source, is_build_script, missing, all_diagnostics,
  check_package, package_of, parse_package_text,
}
use snap_surf_lang.Package.Versions.{DepOk, VersionOk, FieldsOk, read_text-FieldsOk}

either : (a b : Bool) → (not a && not b) ≡ false → (a ≡ true) ⊎ (b ≡ true)
either true b h = inl refl
either false true h = inr refl
either false false h = cc

module _ (path : Bytes) (fs : FileSystem) (root : Bytes) where
  -- A package with exact versions, a target and a runtime that are supported, and its files.
  pub record IsValid (pkg : Package) : Type 0 where
    pub version_ok : valid_semver pkg.version ≡ true
    pub deps_ok : All DepOk pkg.deps
    pub target_ok : (pkg.target ≡ text "linux-x86_64") ⊎ (pkg.target ≡ text "host")
    pub runtime_ok : (pkg.runtime ≡ text "tiny") ⊎ (pkg.runtime ≡ text "none")
    pub src_ok :
        is_build_script pkg.package_type ≡ false → fs.is_dir (join_path root (text "src")) ≡ true
    pub entry_ok : fs.exists (entry_source pkg) ≡ true

  -- The loader gives a valid package, or some diagnostics.
  abbrev pub Loaded : Outcome (List Diagnostic) Package → Type 0
  Loaded (ok pkg) = IsValid pkg
  Loaded (err ds) = ds ≢ []

  check_package-Loaded :
      (pkg : Package)
      → valid_semver pkg.version ≡ true
      → All DepOk pkg.deps
      → Loaded (check_package path fs root pkg)
  unfolding check_package
  check_package-Loaded pkg v d =
      if_both Loaded
        (not (text_eq pkg.target (text "linux-x86_64")) && not (text_eq pkg.target (text "host")))
        (λ q e. cc)
        λ t.
          if_both Loaded
            (not (text_eq pkg.runtime (text "tiny")) && not (text_eq pkg.runtime (text "none")))
            (λ q e. cc)
            λ r.
              if_both Loaded
                (not (fs.is_dir (join_path root (text "src")))
                  && not (is_build_script pkg.package_type))
                (λ q e. cc)
                λ s.
                  if_both Loaded (not (fs.exists (entry_source pkg))) (λ q e. cc)
                    λ x. record {
                      version_ok = v;
                      deps_ok = d;
                      target_ok = named _ _ _ (either _ _ t);
                      runtime_ok = named _ _ _ (either _ _ r);
                      src_ok = λ b. is_there _ _ (either _ _ s) b;
                      entry_ok = not_false _ x;
                    }
    where
      named : (a b c : Bytes) → (text_eq a b ≡ true) ⊎ (text_eq a c ≡ true) → (a ≡ b) ⊎ (a ≡ c)
      named a b c (inl h) = inl ((text_eq_iff a b).0 h)
      named a b c (inr h) = inr ((text_eq_iff a c).0 h)

      is_there : (a b : Bool) → (a ≡ true) ⊎ (b ≡ true) → b ≡ false → a ≡ true
      is_there a b (inl h) e = h
      is_there a b (inr h) e = cc

      not_false : (a : Bool) → not a ≡ false → a ≡ true
      not_false true h = refl
      not_false false h = cc

  unwrapped :
      (f : Fields) (n v : Option Bytes) (ty : Option PackageType) (t r : Option Bytes)
      → n ≢ none
      → v ≢ none
      → ty ≢ none
      → t ≢ none
      → r ≢ none
      → VersionOk v
      → All DepOk f.deps
      → Post ⊥ Loaded (
          or_panic (package_of path fs root f n v ty t r) >>= λ pkg.
          done (check_package path fs root pkg))
  unfolding package_of
  unwrapped f none v ty t r a b c d e x y = absurd (a refl)
  unwrapped f (some n) none ty t r a b c d e x y = absurd (b refl)
  unwrapped f (some n) (some v) none t r a b c d e x y = absurd (c refl)
  unwrapped f (some n) (some v) (some ty) none r a b c d e x y = absurd (d refl)
  unwrapped f (some n) (some v) (some ty) (some t) none a b c d e x y = absurd (e refl)
  unwrapped f (some n) (some v) (some ty) (some t) (some r) a b c d e x y =
      check_package-Loaded _ x y

  missing-some {ℓ} :
      {A : Type ℓ} (message : Bytes) (o : Option A) → missing path o message ≡ [] → o ≢ none
  missing-some message none h e = cc
  missing-some message (some a) h e = cc

  parsed :
      (f : Fields) (ds : List Diagnostic)
      → all_diagnostics path f ≡ ds
      → FieldsOk f
      → Post ⊥ Loaded (elim ds [
        | d ∷ ds ↦ done (err (d ∷ ds))
        | [] ↦
            or_panic (package_of path fs root f f.name f.version f.package_type f.target f.runtime)
            >>= λ pkg. done (check_package path fs root pkg)
      ])
  unfolding all_diagnostics FieldsOk
  parsed f (d ∷ ds) e h = λ z. cc
  parsed f [] e h =
      let (x, e₁) = append-eq-nil f.diagnostics _ e in
      let (x, e₂) =
        append-eq-nil
          (if f.saw_end
            then []
            else diag path (text "E0902") (text "surf.pkg must end with end") (line_span 1) ∷ [])
          _ e₁ in
      let (n, e₃) = append-eq-nil (missing path f.name (text "missing package field")) _ e₂ in
      let (v, e₄) = append-eq-nil (missing path f.version (text "missing version field")) _ e₃ in
      let (t, e₅) = append-eq-nil (missing path f.package_type (text "missing type field")) _ e₄ in
      let (g, r) = append-eq-nil (missing path f.target (text "missing target field")) _ e₅ in
      unwrapped f f.name f.version f.package_type f.target f.runtime (missing-some _ _ n)
        (missing-some _ _ v) (missing-some _ _ t) (missing-some _ _ g) (missing-some _ _ r) h.0 h.1

  -- The text of surf.pkg is read without a panic, and gives a valid package or some diagnostics.
  pub parse_package_text-Loaded : (s : Bytes) → Post ⊥ Loaded (parse_package_text path fs root s)
  unfolding parse_package_text
  parse_package_text-Loaded s =
      parsed (read_text path s) (all_diagnostics path (read_text path s)) refl
        (read_text-FieldsOk path s)
