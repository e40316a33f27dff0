-- ===== src/Package/Load.antt =====
-- `Package::load` and the checks of `parse_package_text` in package.rs. The file system is a
-- parameter.
use snap_surf_lang.Prelude.{
  Bytes, text, text_eq, Bool, true, false, not, ◌&&◌, List, [], ◌∷◌, ◌++◌, Option, none, some, ◌==◌,
  Run, done, or_panic, ◌>>=◌, if◌then◌else◌,
}
use snap_surf_lang.Diagnostic.{Diagnostic, dummy_span}
use snap_surf_lang.Package.{PackageType, executable, library, build_script, Package}
use snap_surf_lang.Package.Fields.{Fields, line_span, diag, read_text}

-- `Result<T, E>`
pub data Outcome (E T : Type 0) : Type 0 where
  ok : T → Outcome E T
  err : E → Outcome E T

-- What the loader asks the file system.
pub record FileSystem : Type 0 where
  pub exists : Bytes → Bool
  pub is_dir : Bytes → Bool
  pub read_to_string : Bytes → Outcome Bytes Bytes

-- `Path::join` with a relative path.
unfoldable pub join_path : Bytes → Bytes → Bytes
join_path [] p = p
join_path (c ∷ []) p = if c == b'/' then c ∷ p else c ∷ (b'/' ∷ p)
join_path (c ∷ d ∷ cs) p = c ∷ join_path (d ∷ cs) p

-- `Package::entry_source`
unfoldable pub entry_source : Package → Bytes
entry_source pkg = elim pkg.package_type [
  | executable ↦ join_path pkg.root (text "src/main.snapsurf")
  | library ↦ join_path pkg.root (text "src/lib.snapsurf")
  | build_script ↦ join_path pkg.root (text "build.snapsurf")
]

abbrev pub is_build_script : PackageType → Bool
is_build_script build_script = true
is_build_script _ = false

-- `if o.is_none() { diagnostics.push(...) }`
abbrev pub missing {ℓ} : {A : Type ℓ} → Bytes → Option A → Bytes → List Diagnostic
missing path (some a) message = []
missing path none message = diag path (text "E0902") message (line_span 1) ∷ []

module _ (path : Bytes) where
  -- The diagnostics behind the loop.
  unfoldable pub all_diagnostics : Fields → List Diagnostic
  all_diagnostics f =
      f.diagnostics
      ++ ((if f.saw_end
            then []
            else diag path (text "E0902") (text "surf.pkg must end with end") (line_span 1) ∷ [])
          ++ (missing path f.name (text "missing package field")
              ++ (missing path f.version (text "missing version field")
                  ++ (missing path f.package_type (text "missing type field")
                      ++ (missing path f.target (text "missing target field")
                          ++ missing path f.runtime (text "missing runtime field"))))))

  abbrev pub fail : Bytes → Bytes → Outcome (List Diagnostic) Package
  fail code message = err (diag path code message (line_span 1) ∷ [])

  module _ (fs : FileSystem) (root : Bytes) where
    -- The checks of a package that has all its fields.
    unfoldable pub check_package : Package → Outcome (List Diagnostic) Package
    check_package pkg =
        if not (text_eq pkg.target (text "linux-x86_64")) && not (text_eq pkg.target (text "host"))
        then fail (text "E0904") (text "foundation supports only linux-x86_64 or host target")
        else if not (text_eq pkg.runtime (text "tiny")) && not (text_eq pkg.runtime (text "none"))
        then fail (text "E0904") (text "foundation supports only tiny or none runtime")
        else if not (fs.is_dir (join_path root (text "src")))
            && not (is_build_script pkg.package_type)
        then fail (text "E0903") (text "missing src/ directory")
        else if not (fs.exists (entry_source pkg))
        then fail (text "E0903") (text "missing package source entry " ++ entry_source pkg)
        else ok pkg

    -- `unwrap` of the five fields, which the diagnostics have shown to be there.
    unfoldable pub package_of :
        Fields
        → Option Bytes
        → Option Bytes
        → Option PackageType
        → Option Bytes
        → Option Bytes
        → Option Package
    package_of f (some name) (some version) (some package_type) (some target) (some runtime) =
        some (record {
          name = name;
          version = version;
          package_type = package_type;
          target = target;
          runtime = runtime;
          entry = f.entry;
          requires = f.requires;
          deps = f.deps;
          root = root;
          path = path;
        })
    package_of f _ _ _ _ _ = none

    unfoldable pub parse_package_text : Bytes → Run (Outcome (List Diagnostic) Package)
    parse_package_text s =
        let f = read_text path s in
        elim (all_diagnostics f) [
          | d ∷ ds ↦ done (err (d ∷ ds))
          | [] ↦
              or_panic (package_of f f.name f.version f.package_type f.target f.runtime) >>= λ pkg.
              done (check_package pkg)
        ]

unfoldable pub load : FileSystem → Bytes → Run (Outcome (List Diagnostic) Package)
load fs root =
    let path = join_path root (text "surf.pkg") in
    if fs.exists path
    then elim (fs.read_to_string path) [
      | ok s ↦ parse_package_text path fs root s
      | err e ↦
          done
            (err (diag path (text "E0902") (text "failed to read surf.pkg: " ++ e) dummy_span ∷ []))
    ]
    else done (err (diag path (text "E0901") (text "missing surf.pkg") dummy_span ∷ []))
