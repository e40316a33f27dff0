-- ===== src/Driver/Stages.antt =====
-- What the stages of driver.rs hand to each other.
use snap_surf_lang.Prelude.{
  ◌+◌, Bytes, List, [], ◌∷◌, ◌≡◌, refl, sym, length, Run, done, panic, out_of_fuel, ◌>>=◌,
}
use snap_surf_lang.Diagnostic.{Diagnostic}
use snap_surf_lang.Source.Load.{load_snapsurf}
use snap_surf_lang.Lexer.Main.{lex}
use snap_surf_lang.Package.{Package}
use snap_surf_lang.Package.Load.{ok, err, FileSystem, entry_source, load}
use snap_surf_lang.Ast.{SourceAst}
use snap_surf_lang.Parser.Items.{parse}
use snap_surf_lang.Sema.Stmts.{check_program}
use snap_surf_lang.Codegen.Asm.{Line, asm_text}
use snap_surf_lang.Codegen.Fns.{emit, emit_nasm}
use snap_surf_lang.Codegen.Accepted.{emit-Accepted}
use snap_surf_lang.Codegen.Links.{Linked, emit-Linked}
use snap_surf_lang.Driver.{
  Compilation, Result, unless, try, compilation, checked, parsed, lexed, compile_package, emit_asm,
}

bind-done {ℓ κ} :
    {A : Type ℓ} {B : Type κ} (m : Run A) (f : A → Run B) (b : B)
    → (m >>= f) ≡ done b
    → (a : A) × (m ≡ done a) × (f a ≡ done b)
bind-done (done a) f b e = (a, refl, e)
bind-done panic f b e = cc
bind-done out_of_fuel f b e = cc

-- The compilation is one of a program on which the checker reports nothing.
abbrev pub IsChecked : Compilation → Type 0
IsChecked c = (path : Bytes) × (check_program c.pkg path c.ast ≡ [])

unless-ok :
    {T : Type 0} (ds : List Diagnostic) (m : Run (Result T)) (t : T)
    → unless ds m ≡ done (ok t)
    → (ds ≡ []) × (m ≡ done (ok t))
unless-ok [] m t e = (refl, e)
unless-ok (d ∷ ds) m t e = cc

try-ok :
    {S T : Type 0} (r : Result S) (f : S → Run (Result T)) (t : T)
    → try r f ≡ done (ok t)
    → (a : S) × (r ≡ ok a) × (f a ≡ done (ok t))
try-ok (err ds) f t e = cc
try-ok (ok a) f t e = (a, refl, e)

ok-eq : {T : Type 0} (a b : T) (m : Run (Result T)) → m ≡ done (ok a) → m ≡ done (ok b) → a ≡ b
ok-eq a b m h g = cc

pub compile_package-IsChecked :
    (fs : FileSystem) (root : Bytes) (c : Compilation)
    → compile_package fs root ≡ done (ok c)
    → IsChecked c
unfolding compile_package
compile_package-IsChecked fs root c e =
    let (loaded, p, e₁) = bind-done (load fs root) _ (ok c) e in
    let (pkg, q, e₂) = try-ok loaded _ c e₁ in
    let (source, r, e₃) =
      try-ok (load_snapsurf fs.read_to_string (entry_source pkg) 1) (lexed pkg) c e₂ in
    let (tokens, s, e₄) = bind-done (lex source) (parsed pkg source) (ok c) e₃ in
    let (t, e₅) = unless-ok tokens.1 _ c e₄ in
    let (ast, u, e₆) =
      bind-done (parse tokens.0 source.path source.id (length tokens.0 + 1)) (checked pkg source)
        (ok c) e₅ in
    let (v, e₇) = unless-ok ast.1 _ c e₆ in
    let (w, e₈) = unless-ok (check_program pkg source.path ast.0) _ c e₇ in
    let x = ok-eq (compilation pkg ast.0) c (done (ok (compilation pkg ast.0))) refl e₈ in
    (source.path, rw (sym x) w)

pub emit_nasm-eq :
    (ast : SourceAst) (pkg : Package) (ls : List Line)
    → emit ast pkg ≡ done ls
    → emit_nasm ast pkg ≡ done (asm_text ls)
unfolding emit_nasm
emit_nasm-eq ast pkg ls e = rw e refl

-- Where the front end compiles a package, the back end gives it a text of assembly, without a panic.
-- In its lines each label that is jumped to is defined in the function that jumps to it, a string
-- that is read has a label there if the function that reads it is the last one of the file, and only
-- then, and no number of a label is defined twice.
pub compile_package-emit_asm :
    (fs : FileSystem) (root : Bytes) (c : Compilation)
    → compile_package fs root ≡ done (ok c)
    → (ls : List Line) × (emit_asm fs root ≡ done (ok (asm_text ls))) × Linked ls
unfolding emit_asm
compile_package-emit_asm fs root c e =
    let (path, h) = compile_package-IsChecked fs root c e in
    let (ls, p) = emit-Accepted c.pkg path c.ast h in
    (ls, rw (e, emit_nasm-eq c.ast c.pkg ls p) refl, emit-Linked c.ast c.pkg ls p)
