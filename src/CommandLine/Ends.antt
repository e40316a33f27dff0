-- ===== src/CommandLine/Ends.antt =====
-- How a run of main.rs ends, by its arguments and by what the operation of driver.rs gives.
use snap_surf_lang.Prelude.{Bytes, text, List, [], ◌∷◌, ◌++◌, ◌≡◌, ◌≢◌, done, All}
use snap_surf_lang.Diagnostic.{Diagnostic, render}
use snap_surf_lang.Source.Lossy.{from_utf8_lossy}
use snap_surf_lang.Package.Load.{Outcome, ok, err}
use snap_surf_lang.Driver.{Compilation, Result, run_check, emit_asm}
use snap_surf_lang.Driver.Build.{Log, Host, init, run_build, run_executable, clean}
use snap_surf_lang.CommandLine.{Printed}

-- Each diagnostic on a line of its own.
abbrev pub listing : List Diagnostic → Bytes
listing [] = []
listing (d ∷ ds) = (render d ++ text "\n") ++ listing ds

-- An operation that succeeds prints its result and the exit code is 0; one that fails prints its
-- diagnostics to the other output, and the exit code is 1.
abbrev pub shown : {T : Type 0} → (T → Bytes) → Result T → Printed
shown show (ok t) = record { out = show t; err = []; code = 0 }
shown show (err ds) = record { out = []; err = listing ds; code = 1 }

-- A wrong use: the exit code is 2.
abbrev pub misuse : Bytes → Printed
misuse message = record { out = []; err = message; code = 2 }

abbrev pub usage : Bytes
usage = text "usage: surf <init|check|build|run|clean|emit asm|version> [package-root]\n"

-- The root of the package: the argument, or the current directory if there is none.
pub data Root (cwd : Bytes) : List Bytes → Bytes → Type 0 where
  given : {root : Bytes} {args : List Bytes} → Root cwd (root ∷ args) root
  by_default : Root cwd [] cwd

abbrev pub nothing : {T : Type 0} → T → Bytes
nothing t = []

abbrev commands : List Bytes
commands =
    text "version"
    ∷ text "--version"
    ∷ text "-V"
    ∷ text "init"
    ∷ text "check"
    ∷ text "emit"
    ∷ text "build"
    ∷ text "run"
    ∷ text "clean"
    ∷ []

-- The three words for the version.
pub data IsVersion : Bytes → Type 0 where
  word : IsVersion (text "version")
  long : IsVersion (text "--version")
  short : IsVersion (text "-V")

module _ (host : Host) (h : Log) where
  -- How a command ends in a directory.
  pub data Ran (cwd : Bytes) : Bytes → List Bytes → Log × Printed → Type 0 where
    version :
        {cmd : Bytes} {args : List Bytes}
        → IsVersion cmd
        → Ran cwd cmd args
            (h, record { out = text "surf 0.1.0-foundation-bootstrap\n"; err = []; code = 0 })
    init_ran :
        {args : List Bytes} {g : Log} {res : Result Unit}
        → init host cwd h ≡ done (g, res)
        → Ran cwd (text "init") args (g, shown nothing res)
    check_ran :
        {args : List Bytes} {root : Bytes} {res : Result Compilation}
        → Root cwd args root
        → run_check (host.files h) root ≡ done res
        → Ran cwd (text "check") args (h, shown nothing res)
    emit_ran :
        {args : List Bytes} {root : Bytes} {res : Result Bytes}
        → Root cwd args root
        → emit_asm (host.files h) root ≡ done res
        → Ran cwd (text "emit") (text "asm" ∷ args) (h, shown (λ asm. asm) res)
    emit_what :
        Ran cwd (text "emit") [] (h, misuse (text "E9000 expected: surf emit asm [package-root]\n"))
    emit_other :
        {a : Bytes} {args : List Bytes}
        → a ≢ text "asm"
        → Ran cwd
            (text "emit")
            (a ∷ args)
            (h, misuse (text "E9000 expected: surf emit asm [package-root]\n"))
    build_ran :
        {args : List Bytes} {root : Bytes} {g : Log} {res : Result Bytes}
        → Root cwd args root
        → run_build host root h ≡ done (g, res)
        → Ran cwd (text "build") args (g, shown (λ bin. from_utf8_lossy bin ++ text "\n") res)
    run_ran :
        {args : List Bytes} {root : Bytes} {g : Log} {res : Result Unit}
        → Root cwd args root
        → run_executable host root h ≡ done (g, res)
        → Ran cwd (text "run") args (g, shown nothing res)
    clean_ran :
        {args : List Bytes} {root : Bytes} {g : Log} {res : Result Unit}
        → Root cwd args root
        → clean host root h ≡ done (g, res)
        → Ran cwd (text "clean") args (g, shown nothing res)
    no_such_command :
        {cmd : Bytes} {args : List Bytes}
        → All (λ c. cmd ≢ c) commands
        → Ran cwd cmd args (h, misuse usage)

  -- How the program ends.
  pub data Ended : Outcome Bytes Bytes → List Bytes → Log × Printed → Type 0 where
    no_command : {cwd : Outcome Bytes Bytes} → Ended cwd [] (h, misuse usage)
    nowhere :
        {e cmd : Bytes} {args : List Bytes}
        → Ended (err e) (cmd ∷ args) (
          h,
          record {
            out = [];
            err = text "E9000 failed to read current directory: " ++ (e ++ text "\n");
            code = 1;
          },
        )
    ran :
        {cwd cmd : Bytes} {args : List Bytes} {r : Log × Printed}
        → Ran cwd cmd args r
        → Ended (ok cwd) (cmd ∷ args) r
