-- ===== src/Driver/Built.antt =====
-- What a build that succeeds has done (driver.rs).
use snap_surf_lang.Prelude.{
  Bytes, Bool, true, false, List, [], ◌∷◌, ◌≡◌, ◌↔◌, sym, ◌∙◌, refl, done, if◌then◌else◌,
}
use snap_surf_lang.Diagnostic.{Diagnostic}
use snap_surf_lang.Package.Load.{Outcome, ok, err, FileSystem}
use snap_surf_lang.Codegen.Fns.{emit_nasm}
use snap_surf_lang.Driver.{Compilation, compile_package, emit_asm}
use snap_surf_lang.Codegen.Asm.{asm_text}
use snap_surf_lang.Codegen.Accepted.{emit-Accepted}
use snap_surf_lang.Driver.Stages.{emit_nasm-eq, compile_package-IsChecked}
use snap_surf_lang.Driver.Build.{
  Log, Exit, Host, Driven, create_dir_all, write, attempt, unless_failed, build_dir, asm_path,
  bin_path, nasm, ld, link, assemble, write_asm, build, run_build,
}

attempt-ok :
    {A T : Type 0} (r : Outcome Bytes A) (path message : Bytes) (h : Log) (k : A → Driven T)
    (g : Log) (t : T)
    → attempt r path message h k ≡ done (g, ok t)
    → (a : A) × (r ≡ ok a) × (k a ≡ done (g, ok t))
unfolding attempt
attempt-ok (err x) path message h k g t e = cc
attempt-ok (ok a) path message h k g t e = (a, refl, e)

by_success :
    {T : Type 0} (b : Bool) (k : Driven T) (h g : Log) (ds : List Diagnostic) (t : T)
    → (if b then k else done (h, err ds)) ≡ done (g, ok t)
    → (b ≡ true) × (k ≡ done (g, ok t))
by_success true k h g ds t e = (refl, e)
by_success false k h g ds t e = cc

unless_failed-ok :
    {T : Type 0} (exit : Exit) (path message : Bytes) (h : Log) (k : Driven T) (g : Log) (t : T)
    → unless_failed exit path message h k ≡ done (g, ok t)
    → (exit.success ≡ true) × (k ≡ done (g, ok t))
unfolding unless_failed
unless_failed-ok exit path message h k g t e = by_success exit.success k _ g _ t e

emit_asm-eq :
    (fs : FileSystem) (root : Bytes) (c : Compilation) (asm : Bytes)
    → compile_package fs root ≡ done (ok c)
    → emit_nasm c.ast c.pkg ≡ done asm
    → emit_asm fs root ≡ done (ok asm)
unfolding emit_asm
emit_asm-eq fs root c asm p q = rw (p, q) refl

succeeds : Log → Bytes → Driven Bytes
succeeds h bin = done (h, ok bin)

succeeds-inj : (a b : Log) (x y : Bytes) → succeeds a x ≡ done (b, ok y) → (y ≡ x) × (b ≡ a)
unfolding succeeds
succeeds-inj a b x y e = (cc, cc)

module _ (host : Host) where
  -- The file system has done what it was asked to.
  abbrev pub Done : Log → Type 0
  Done [] = Unit
  Done (e ∷ h) = host.fs h e ≡ ok tt

  -- The command has run and has not failed.
  abbrev pub Succeeded : Log → Type 0
  Succeeded [] = Unit
  Succeeded (e ∷ h) = (exit : Exit) × (host.process h e ≡ ok exit) × (exit.success ≡ true)

  module _ (root : Bytes) where
    abbrev pub made : Log → Log
    made h = create_dir_all (build_dir root) ∷ h

    abbrev pub written : Bytes → Bytes → Log → Log
    written name asm h = write (asm_path root name) asm ∷ made h

    abbrev pub assembled : Bytes → Bytes → Log → Log
    assembled name asm h = nasm root name ∷ written name asm h

    abbrev pub linked : Bytes → Bytes → Log → Log
    linked name asm h = ld root name ∷ assembled name asm h

    -- The text is written and assembled and linked, in this order.
    pub record Built (name asm : Bytes) (h g : Log) : Type 0 where
      pub log : g ≡ linked name asm h
      pub made_ok : Done (made h)
      pub written_ok : Done (written name asm h)
      pub assembled_ok : Succeeded (assembled name asm h)
      pub linked_ok : Succeeded (linked name asm h)

    link-ok :
        (name : Bytes) (h g : Log) (bin : Bytes)
        → link host root name h ≡ done (g, ok bin)
        → (bin ≡ bin_path root name) × ((g ≡ ld root name ∷ h) × Succeeded (ld root name ∷ h))
    unfolding link succeeds
    link-ok name h g bin e =
        let (exit, p, q) = attempt-ok _ _ _ _ _ _ _ e in
        let (s, r) = unless_failed-ok exit _ _ _ _ _ _ q in
        let (b, l) = succeeds-inj _ g _ bin r in (b, (l, (exit, p, s)))

    assemble-ok :
        (name : Bytes) (h g : Log) (bin : Bytes)
        → assemble host root name h ≡ done (g, ok bin)
        → Succeeded (nasm root name ∷ h)
          × (link host root name (nasm root name ∷ h) ≡ done (g, ok bin))
    unfolding assemble
    assemble-ok name h g bin e =
        let (exit, p, q) = attempt-ok _ _ _ _ _ _ _ e in
        let (s, r) = unless_failed-ok exit _ _ _ _ _ _ q in ((exit, p, s), r)

    build-ok :
        (name asm : Bytes) (h g : Log) (bin : Bytes)
        → build host root name asm h ≡ done (g, ok bin)
        → (bin ≡ bin_path root name) × Built name asm h g
    unfolding build write_asm
    build-ok name asm h g bin e =
        let (u, p, e₁) = attempt-ok _ _ _ _ _ _ _ e in
        let (v, q, e₂) = attempt-ok _ _ _ _ _ _ _ e₁ in
        let (s, e₃) = assemble-ok name (written name asm h) g bin e₂ in
        let (b, (l, t)) = link-ok name (assembled name asm h) g bin e₃ in
        (b, record { log = l; made_ok = p; written_ok = q; assembled_ok = s; linked_ok = t })

    builds :
        (name asm : Bytes) (h g : Log) (bin : Bytes)
        → bin ≡ bin_path root name
        → Built name asm h g
        → build host root name asm h ≡ done (g, ok bin)
    unfolding build write_asm assemble link attempt unless_failed
    builds name asm h g bin b d =
        let (x, p, s) = d.assembled_ok in
        let (y, q, t) = d.linked_ok in rw (b, d.log, d.made_ok, d.written_ok, p, s, q, t) refl

    run_build-build :
        (c : Compilation) (asm : Bytes) (h : Log)
        → compile_package (host.files h) root ≡ done (ok c)
        → emit_nasm c.ast c.pkg ≡ done asm
        → run_build host root h ≡ build host root c.pkg.name asm h
    unfolding run_build
    run_build-build c asm h p q = rw (p, q) refl

    -- On a package that the front end compiles, the build gives a path exactly when the path is that
    -- of the program in the build directory, and the driver has made the directory, written the
    -- text of `emit_asm` there, assembled it and linked it, in this order and with nothing else,
    -- and none of the four has failed.
    pub run_build_iff :
        (c : Compilation) (h g : Log) (bin : Bytes)
        → compile_package (host.files h) root ≡ done (ok c)
        → (asm : Bytes) × ((emit_asm (host.files h) root ≡ done (ok asm))
            × ((run_build host root h ≡ done (g, ok bin))
                ↔ ((bin ≡ bin_path root c.pkg.name) × Built c.pkg.name asm h g)))
    run_build_iff c h g bin e =
        let (path, w) = compile_package-IsChecked (host.files h) root c e in
        let (ls, p) = emit-Accepted c.pkg path c.ast w in
        let q = emit_nasm-eq c.ast c.pkg ls p in
        let r = run_build-build c (asm_text ls) h e q in
        (
          asm_text ls,
          (
            emit_asm-eq (host.files h) root c (asm_text ls) e q,
            (
              λ x. build-ok c.pkg.name (asm_text ls) h g bin (sym r ∙ x),
              λ (b, d). r ∙ builds c.pkg.name (asm_text ls) h g bin b d,
            ),
          ),
        )
