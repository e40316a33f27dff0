-- ===== src/Driver/Build.antt =====
-- `init`, `run_build`, `run_executable` and `clean` of driver.rs. What they do outside the program
-- is a log of effects, the last one first; what the system answers may depend on the whole log and
-- is a parameter.
use snap_surf_lang.Prelude.{
  Bytes, text, Bool, List, [], ◌∷◌, ◌++◌, ◌==◌, Run, done, ◌>>=◌, if◌then◌else◌,
}
use snap_surf_lang.Diagnostic.{Diagnostic, error_at, dummy_span}
use snap_surf_lang.Source.Lossy.{from_utf8_lossy}
use snap_surf_lang.Package.Load.{Outcome, ok, err, FileSystem, join_path}
use snap_surf_lang.Codegen.Fns.{emit_nasm}
use snap_surf_lang.Driver.{Result, compile_package}

pub data Effect : Type 0 where
  create_dir_all remove_dir_all : Bytes → Effect
  write : Bytes → Bytes → Effect
  output : Bytes → List Bytes → Effect
  status : Bytes → Effect

abbrev pub Log : Type 0
Log = List Effect

-- How a command ended: `success()`, the bytes of its error output, and how its status is shown.
pub record Exit : Type 0 where
  pub success : Bool
  pub stderr : Bytes
  pub shown : Bytes

-- The system behind `std::fs` and `std::process`. An error is the text it is shown as.
pub record Host : Type 0 where
  pub files : Log → FileSystem
  pub fs : Log → Effect → Outcome Bytes Unit
  pub process : Log → Effect → Outcome Bytes Exit

-- A function of the driver that has effects.
abbrev pub Driven : Type 0 → Type 0
Driven T = Run (Log × Result T)

abbrev pub fatal : Bytes → Bytes → Diagnostic
fatal path message = error_at (text "E9000") message path 0 dummy_span

-- `map_err(|e| vec![fatal(..)])?`
unfoldable pub attempt :
    {A T : Type 0} → Outcome Bytes A → Bytes → Bytes → Log → (A → Driven T) → Driven T
attempt (err e) path message h k = done (h, err (fatal path (message ++ e) ∷ []))
attempt (ok a) path message h k = k a

-- `if !status.success() { return Err(..) }`
unfoldable pub unless_failed : {T : Type 0} → Exit → Bytes → Bytes → Log → Driven T → Driven T
unless_failed exit path message h k =
    if exit.success then k else done (h, err (fatal path message ∷ []))

abbrev pub try_at : {S T : Type 0} → Log → Result S → (S → Driven T) → Driven T
try_at h (err ds) k = done (h, err ds)
try_at h (ok a) k = k a

-- `Path::join` with the name of a package, which may be an absolute path.
abbrev pub join_name : Bytes → Bytes → Bytes
join_name dir [] = join_path dir []
join_name dir (c ∷ cs) = if c == b'/' then c ∷ cs else join_path dir (c ∷ cs)

abbrev pub build_dir : Bytes → Bytes
build_dir root = join_path root (text "build")

abbrev pub asm_path : Bytes → Bytes → Bytes
asm_path root name = join_name (build_dir root) (name ++ text ".asm")

abbrev pub obj_path : Bytes → Bytes → Bytes
obj_path root name = join_name (build_dir root) (name ++ text ".o")

abbrev pub bin_path : Bytes → Bytes → Bytes
bin_path root name = join_name (build_dir root) name

abbrev pub nasm : Bytes → Bytes → Effect
nasm root name =
    output (text "nasm")
      (text "-f" ∷ text "elf64" ∷ asm_path root name ∷ text "-o" ∷ obj_path root name ∷ [])

abbrev pub ld : Bytes → Bytes → Effect
ld root name = output (text "ld") (text "-o" ∷ bin_path root name ∷ obj_path root name ∷ [])

abbrev pub hello_package : Bytes
hello_package =
    text "package hello\nversion 0.1.0\ntype executable\ntarget linux-x86_64\nruntime tiny\n"
    ++ text "entry main\n\nrequires syscall\n\ndep core/io 0.1.0\nend\n"

abbrev pub hello_main : Bytes
hello_main =
    text "use core/io\n\nfn main -> i32\n    io.write 1 \"Hello SnapSurf\\n\" 15\n    ret 0\n"
    ++ text "end\n"

module _ (host : Host) (root : Bytes) where
  unfoldable pub link : Bytes → Log → Driven Bytes
  link name h =
      attempt (host.process h (ld root name)) root (text "failed to run ld: ") (ld root name ∷ h)
        λ exit.
          unless_failed exit (obj_path root name)
            (text "ld failed: " ++ from_utf8_lossy exit.stderr) (ld root name ∷ h)
            (done (ld root name ∷ h, ok (bin_path root name)))

  unfoldable pub assemble : Bytes → Log → Driven Bytes
  assemble name h =
      attempt (host.process h (nasm root name)) root (text "failed to run nasm: ")
        (nasm root name ∷ h)
        λ exit.
          unless_failed exit (asm_path root name)
            (text "nasm failed: " ++ from_utf8_lossy exit.stderr) (nasm root name ∷ h)
            (link name (nasm root name ∷ h))

  unfoldable pub write_asm : Bytes → Bytes → Log → Driven Bytes
  write_asm name asm h =
      let e = write (asm_path root name) asm in
      attempt (host.fs h e) (asm_path root name) (text "failed to write assembly: ") (e ∷ h)
        λ u. assemble name (e ∷ h)

  unfoldable pub build : Bytes → Bytes → Log → Driven Bytes
  build name asm h =
      let e = create_dir_all (build_dir root) in
      attempt (host.fs h e) (build_dir root) (text "failed to create build directory: ") (e ∷ h)
        λ u. write_asm name asm (e ∷ h)

  unfoldable pub run_build : Log → Driven Bytes
  run_build h = compile_package (host.files h) root >>= λ compiled.
      try_at h compiled λ c. emit_nasm c.ast c.pkg >>= λ asm. build c.pkg.name asm h

  -- The executable is run, and its exit status is looked at.
  abbrev pub execute : Bytes → Log → Driven Unit
  execute bin h =
      attempt (host.process h (status bin)) bin (text "failed to run executable: ") (status bin ∷ h)
        λ exit.
          unless_failed exit bin (text "executable exited with status " ++ exit.shown)
            (status bin ∷ h) (done (status bin ∷ h, ok tt))

  unfoldable pub run_executable : Log → Driven Unit
  run_executable h = run_build h >>= λ (built, r). try_at built r λ bin. execute bin built

  unfoldable pub clean : Log → Driven Unit
  clean h =
      let e = remove_dir_all (build_dir root) in
      if (host.files h).exists (build_dir root)
      then (attempt (host.fs h e) (build_dir root) (text "failed to remove build directory: ")
          (e ∷ h) λ u. done (e ∷ h, ok tt))
      else done (h, ok tt)

  -- A file is written where it is not there.
  abbrev pub write_new : Bytes → Bytes → Bytes → Log → (Log → Driven Unit) → Driven Unit
  write_new path contents message h k =
      if (host.files h).exists path
      then k h
      else attempt (host.fs h (write path contents)) path message (write path contents ∷ h)
          λ u. k (write path contents ∷ h)

  unfoldable pub init : Log → Driven Unit
  init h =
      let src = join_path root (text "src") in
      let e = create_dir_all src in
      attempt (host.fs h e) root (text "failed to create src directory: ") (e ∷ h) λ u.
        write_new (join_path root (text "surf.pkg")) hello_package
          (text "failed to write surf.pkg: ") (e ∷ h)
          λ g.
            write_new (join_path src (text "main.snapsurf")) hello_main
              (text "failed to write src/main.snapsurf: ") g λ k. done (k, ok tt)
