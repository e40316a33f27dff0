-- ===== src/Driver.antt =====
-- prototypes/rust_stage0/src/driver.rs: the order of the stages.
mod Tests
pub mod BuildTests
pub mod Stages
pub mod Build
pub mod Built
use snap_surf_lang.Prelude.{
  ℕ, ◌+◌, Bytes, text, List, [], ◌∷◌, Option, length, Run, done, panic, out_of_fuel, ◌>>=◌,
}
use snap_surf_lang.Diagnostic.{Diagnostic}
use snap_surf_lang.Token.{Token}
use snap_surf_lang.Source.{SourceFile}
use snap_surf_lang.Source.Load.{load_snapsurf}
use snap_surf_lang.Lexer.Main.{lex}
use snap_surf_lang.Package.{Package}
use snap_surf_lang.Package.Load.{Outcome, ok, err, FileSystem, entry_source, load}
use snap_surf_lang.Ast.{SourceAst}
use snap_surf_lang.Parser.Items.{parse}
use snap_surf_lang.Sema.Stmts.{check_program}
use snap_surf_lang.Codegen.Fns.{emit_nasm}

pub record Compilation : Type 0 where
  pub pkg : Package
  pub ast : SourceAst
  pub source_path : Bytes

-- `Result<T, Vec<Diagnostic>>`
abbrev pub Result : Type 0 → Type 0
Result T = Outcome (List Diagnostic) T

-- A stage that returns its diagnostics where it has some.
abbrev pub unless : {T : Type 0} → List Diagnostic → Run (Result T) → Run (Result T)
unless [] m = m
unless (d ∷ ds) m = done (err (d ∷ ds))

-- The operator `?`.
abbrev pub try : {S T : Type 0} → Result S → (S → Run (Result T)) → Run (Result T)
try (err ds) f = done (err ds)
try (ok a) f = f a

abbrev pub compilation : Package → SourceAst → Compilation
compilation pkg ast = record { pkg = pkg; ast = ast; source_path = entry_source pkg }

abbrev pub checked : Package → SourceFile → SourceAst × List Diagnostic → Run (Result Compilation)
checked pkg source (ast, parse_diags) =
    unless parse_diags
      (unless (check_program pkg source.path ast) (done (ok (compilation pkg ast))))

-- The parser's fuel is enough where its loop ends.
abbrev pub parsed : Package → SourceFile → List Token × List Diagnostic → Run (Result Compilation)
parsed pkg source (tokens, lex_diags) =
    unless lex_diags (parse tokens source.path source.id (length tokens + 1) >>= checked pkg source)

abbrev pub lexed : Package → SourceFile → Run (Result Compilation)
lexed pkg source = lex source >>= parsed pkg source

unfoldable pub compile_package : FileSystem → Bytes → Run (Result Compilation)
compile_package fs root = load fs root >>= λ loaded.
    try loaded λ pkg. try (load_snapsurf fs.read_to_string (entry_source pkg) 1) (lexed pkg)

unfoldable pub emit_asm : FileSystem → Bytes → Run (Result Bytes)
emit_asm fs root = compile_package fs root >>= λ compiled.
    try compiled λ c. emit_nasm c.ast c.pkg >>= λ asm. done (ok asm)

abbrev pub run_check : FileSystem → Bytes → Run (Result Compilation)
run_check = compile_package
