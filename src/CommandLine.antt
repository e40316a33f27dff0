-- ===== src/CommandLine.antt =====
-- prototypes/rust_stage0/src/main.rs: the commands, what they print, and the exit code.
pub mod Ends
pub mod Exits
mod Tests
use snap_surf_lang.Prelude.{
  ℕ, Bytes, text, text_eq, Bool, true, false, ◌||◌, List, [], ◌∷◌, ◌++◌, ◌≡◌, refl, ◌⊎◌, inl, inr,
  if◌then◌else◌, if_both, Run, done, panic, out_of_fuel, ◌>>=◌,
}
use snap_surf_lang.Diagnostic.{Diagnostic, render}
use snap_surf_lang.Source.Lossy.{from_utf8_lossy}
use snap_surf_lang.Package.Load.{Outcome, ok, err}
use snap_surf_lang.Driver.{Compilation, Result, run_check, emit_asm}
use snap_surf_lang.Driver.Build.{Log, Host, Driven, init, run_build, run_executable, clean}

-- What is printed to the two outputs, and the exit code.
pub record Printed : Type 0 where
  pub out : Bytes
  pub err : Bytes
  pub code : ℕ

abbrev pub prints : Bytes → Printed
prints s = record { out = s; err = []; code = 0 }

abbrev pub fails : ℕ → Bytes → Printed
fails code s = record { out = []; err = s; code = code }

abbrev pub print_usage : Printed
print_usage =
    fails 2 (text "usage: surf <init|check|build|run|clean|emit asm|version> [package-root]\n")

abbrev pub rendered : List Diagnostic → Bytes
rendered [] = []
rendered (d ∷ ds) = render d ++ (text "\n" ++ rendered ds)

abbrev pub print_diags : List Diagnostic → Printed
print_diags ds = fails 1 (rendered ds)

-- `.map(..).map_err(print_diags)`
abbrev pub report : {T : Type 0} → (T → Bytes) → Log × Result T → Log × Printed
report show (h, ok t) = (h, prints (show t))
report show (h, err ds) = (h, print_diags ds)

-- `args.first().map(PathBuf::from).unwrap_or(cwd)`
abbrev pub root_of : List Bytes → Bytes → Bytes
root_of [] cwd = cwd
root_of (a ∷ args) cwd = a

abbrev pub driven : {T : Type 0} → (T → Bytes) → Driven T → Run (Log × Printed)
driven show m = m >>= λ r. done (report show r)

-- A command that only reads.
abbrev pub reads : {T : Type 0} → (T → Bytes) → Log → Run (Result T) → Run (Log × Printed)
reads show h m = m >>= λ r. done (report show (h, r))

module _ (host : Host) where
  unfoldable pub emit_command : List Bytes → Bytes → Log → Run (Log × Printed)
  emit_command [] cwd h = done (h, fails 2 (text "E9000 expected: surf emit asm [package-root]\n"))
  emit_command (a ∷ args) cwd h =
      if text_eq a (text "asm")
      then reads (λ s. s) h (emit_asm (host.files h) (root_of args cwd))
      else done (h, fails 2 (text "E9000 expected: surf emit asm [package-root]\n"))

  unfoldable pub command : Bytes → List Bytes → Bytes → Log → Run (Log × Printed)
  command cmd args cwd h =
      if text_eq cmd (text "version") || (text_eq cmd (text "--version") || text_eq cmd (text "-V"))
      then done (h, prints (text "surf 0.1.0-foundation-bootstrap\n"))
      else if text_eq cmd (text "init")
      then driven (λ u. []) (init host cwd h)
      else if text_eq cmd (text "check")
      then reads (λ c. []) h (run_check (host.files h) (root_of args cwd))
      else if text_eq cmd (text "emit")
      then emit_command args cwd h
      else if text_eq cmd (text "build")
      then driven (λ bin. from_utf8_lossy bin ++ text "\n") (run_build host (root_of args cwd) h)
      else if text_eq cmd (text "run")
      then driven (λ u. []) (run_executable host (root_of args cwd) h)
      else if text_eq cmd (text "clean")
      then driven (λ u. []) (clean host (root_of args cwd) h)
      else done (h, print_usage)

  -- The arguments are those behind the name of the program.
  unfoldable pub real_main : Outcome Bytes Bytes → List Bytes → Log → Run (Log × Printed)
  real_main cwd [] h = done (h, print_usage)
  real_main (err e) (cmd ∷ args) h =
      done (h, fails 1 (text "E9000 failed to read current directory: " ++ (e ++ text "\n")))
  real_main (ok cwd) (cmd ∷ args) h = command cmd args cwd h
