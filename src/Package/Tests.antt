-- ===== src/Package/Tests.antt =====
-- Runs of the loader of surf.pkg.
use snap_surf_lang.Prelude.{
  Bytes, text, text_eq, true, [], ◌∷◌, ◌++◌, none, ◌≡◌, ◌↔◌, refl, done, Post,
}
use snap_surf_lang.Package.{library}
use snap_surf_lang.Package.Words.{
  white_len, drop_white, drop_last_white, trim, split_words, strip_cr, lines_from, split_from,
  all_digits, is_number, three_numbers, valid_semver,
}
use snap_surf_lang.Package.Fields.{
  type_of, unknown, set_version, set_type, add_requires, add_dep, read_field, read_trimmed,
  read_lines,
}
use snap_surf_lang.Package.Load.{
  ok, FileSystem, join_path, entry_source, all_diagnostics, check_package, package_of,
  parse_package_text, load,
}
use snap_surf_lang.Package.Valid.{Loaded, parse_package_text-Loaded}
use snap_surf_lang.Package.Semver.{IsSemver, valid_semver_iff}

abbrev manifest : Bytes
manifest =
    text "// demo\npackage demo\nversion 0.1.0\r\n  type library\ntarget host\n"
    ++ text "runtime none\nrequires none\ndep core 1.0.2\nend\n"

-- A file system with everything in it.
abbrev full : FileSystem
full = record { exists = λ p. true; is_dir = λ p. true; read_to_string = λ p. ok manifest }

loads_manifest :
    load full (text "/demo")
    ≡ done (
        ok (record {
          name = text "demo";
          version = text "0.1.0";
          package_type = library;
          target = text "host";
          runtime = text "none";
          entry = none;
          requires = [];
          deps = record { name = text "core"; version = text "1.0.2" } ∷ [];
          root = text "/demo";
          path = text "/demo/surf.pkg";
        }))
unfolding load join_path parse_package_text all_diagnostics package_of check_package entry_source
    read_lines read_trimmed read_field set_version set_type type_of add_requires add_dep unknown
    trim drop_white drop_last_white white_len split_words strip_cr lines_from split_from all_digits
    is_number three_numbers valid_semver text_eq
loads_manifest = refl

parse_package_text-Loaded_example :
    Post ⊥
      (Loaded (text "/demo/surf.pkg") full (text "/demo"))
      (parse_package_text (text "/demo/surf.pkg") full (text "/demo") manifest)
parse_package_text-Loaded_example =
    parse_package_text-Loaded (text "/demo/surf.pkg") full (text "/demo") manifest

valid_semver_iff_example : (valid_semver (text "0.10.2") ≡ true) ↔ IsSemver (text "0.10.2")
valid_semver_iff_example = valid_semver_iff (text "0.10.2")
