-- ===== src/CommandLine/Tests.antt =====
-- Runs of the command line.
use snap_surf_lang.Prelude.{text, text_eq, [], ◌∷◌, ◌≡◌, ◌↔◌, refl, done}
use snap_surf_lang.Package.Load.{ok, join_path}
use snap_surf_lang.Driver.Build.{create_dir_all, remove_dir_all, fatal, attempt, init, clean}
use snap_surf_lang.Driver.BuildTests.{bare, willing}
use snap_surf_lang.CommandLine.{prints, print_diags, emit_command, command, real_main}
use snap_surf_lang.CommandLine.Ends.{Ended}
use snap_surf_lang.CommandLine.Exits.{real_main_iff}

cleans_root :
    real_main willing (ok (text "/")) (text "clean" ∷ text "/demo" ∷ []) []
    ≡ done (remove_dir_all (text "/demo/build") ∷ [], prints [])
unfolding real_main command clean attempt join_path text_eq
cleans_root = refl

emits_only_asm :
    (real_main bare (ok (text "/")) (text "emit" ∷ text "c" ∷ []) [])
    ≡ done (
      [],
      record { out = []; err = text "E9000 expected: surf emit asm [package-root]\n"; code = 2 },
    )
unfolding real_main command emit_command text_eq
emits_only_asm = refl

denied :
    real_main bare (ok (text "/demo")) (text "init" ∷ []) []
    ≡ done (
      create_dir_all (text "/demo/src") ∷ [],
      print_diags (fatal (text "/demo") (text "failed to create src directory: denied") ∷ []),
    )
unfolding real_main command init attempt join_path text_eq
denied = refl

real_main_iff_example :
    (real_main bare (ok (text "/demo")) (text "init" ∷ []) []
      ≡ done (
        create_dir_all (text "/demo/src") ∷ [],
        print_diags (fatal (text "/demo") (text "failed to create src directory: denied") ∷ []),
      ))
    ↔ Ended bare [] (ok (text "/demo")) (text "init" ∷ []) (
      create_dir_all (text "/demo/src") ∷ [],
      print_diags (fatal (text "/demo") (text "failed to create src directory: denied") ∷ []),
    )
real_main_iff_example = real_main_iff bare [] (ok (text "/demo")) (text "init" ∷ []) (
  create_dir_all (text "/demo/src") ∷ [],
  print_diags (fatal (text "/demo") (text "failed to create src directory: denied") ∷ []),
)
