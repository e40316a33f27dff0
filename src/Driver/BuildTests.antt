-- ===== src/Driver/BuildTests.antt =====
-- Runs of the parts of driver.rs that have effects.
use snap_surf_lang.Prelude.{Bytes, text, true, false, [], ◌∷◌, ◌≡◌, ◌↔◌, refl, done}
use snap_surf_lang.Package.Load.{ok, err, join_path}
use snap_surf_lang.Codegen.Asm.{asm_text}
use snap_surf_lang.Driver.{emit_asm}
use snap_surf_lang.Driver.Build.{
  Effect, create_dir_all, remove_dir_all, write, Log, Host, fatal, attempt, bin_path, hello_package,
  hello_main, run_build, clean, init,
}
use snap_surf_lang.Driver.Built.{Built, linked, run_build_iff}
use snap_surf_lang.Driver.Stages.{compile_package-emit_asm}
use snap_surf_lang.Driver.Tests.{demo, compiled, compiles_demo}

-- A system on which everything goes well.
abbrev pub willing : Host
willing = record {
  files = λ h. demo;
  fs = λ h e. ok tt;
  process = λ h e. ok (record { success = true; stderr = []; shown = text "exit status: 0" });
}

-- A system with no files, which takes no new directory.
abbrev pub bare : Host
bare = record {
  files = λ h. record {
    exists = λ p. false;
    is_dir = λ p. false;
    read_to_string = λ p. err (text "not found");
  };
  fs = λ h e. elim e [
    | create_dir_all p ↦ err (text "denied")
    | remove_dir_all p ↦ ok tt
    | write p s ↦ ok tt
    | Effect.output c args ↦ ok tt
    | Effect.status b ↦ ok tt
  ];
  process = λ h e. err (text "not found");
}

cleans : clean willing (text "/demo") [] ≡ done (remove_dir_all (text "/demo/build") ∷ [], ok tt)
unfolding clean attempt join_path
cleans = refl

cleans_nothing : clean bare (text "/demo") [] ≡ done ([], ok tt)
unfolding clean attempt join_path
cleans_nothing = refl

inits_nothing :
    init bare (text "/demo") []
    ≡ done (
      create_dir_all (text "/demo/src") ∷ [],
      err (fatal (text "/demo") (text "failed to create src directory: denied") ∷ []),
    )
unfolding init attempt join_path
inits_nothing = refl

-- Every file of the demonstration is there, so that none is written.
inits_demo : init willing (text "/demo") [] ≡ done (create_dir_all (text "/demo/src") ∷ [], ok tt)
unfolding init attempt join_path
inits_demo = refl

-- A system that takes everything and has no files yet.
abbrev fresh : Host
fresh = record willing { files = bare.files }

inits_fresh :
    init fresh (text "/demo") []
    ≡ done (
      write (text "/demo/src/main.snapsurf") hello_main
          ∷ write (text "/demo/surf.pkg") hello_package
          ∷ create_dir_all (text "/demo/src")
          ∷ [],
      ok tt,
    )
unfolding init attempt join_path
inits_fresh = refl

abbrev demo_asm : Bytes
demo_asm = asm_text (compile_package-emit_asm demo (text "/demo") compiled compiles_demo).0

abbrev effects : Log
effects = linked willing (text "/demo") (text "demo") demo_asm []

run_build_iff_example :
    (asm : Bytes) × ((emit_asm demo (text "/demo") ≡ done (ok asm))
      × ((run_build willing (text "/demo") [] ≡ done (effects, ok (text "/demo/build/demo"))) ↔ (
          (text "/demo/build/demo" ≡ bin_path (text "/demo") (text "demo"))
          × Built willing (text "/demo") (text "demo") asm [] effects)))
run_build_iff_example =
    run_build_iff willing (text "/demo") compiled [] effects (text "/demo/build/demo") compiles_demo
