-- ===== src/Source/Tests.antt =====
-- Source files.
use snap_surf_lang.Prelude.{Bytes, text, text_eq, ◌≡◌, ◌↔◌, refl}
use snap_surf_lang.Source.{SourceFile}
use snap_surf_lang.Package.Load.{Outcome, ok}
use snap_surf_lang.Source.Load.{
  split_last, file_name, extension, char_len, valid_up_to, load_snapsurf, three_bytes, four_bytes,
}
use snap_surf_lang.Source.Loaded.{IsLoaded, load_snapsurf_iff}

-- Every path has the same contents.
abbrev same_text : Bytes → Outcome Bytes Bytes
same_text path = ok (text "fn main -> i32\n\tret 0\nend")

abbrev file : SourceFile
file = record {
  id = 0;
  path = text "src/main.snapsurf";
  bytes = text "fn main -> i32\n\tret 0\nend";
  text = text "fn main -> i32\n\tret 0\nend";
}

loads : load_snapsurf same_text (text "src/main.snapsurf") 0 ≡ ok file
unfolding load_snapsurf extension file_name split_last valid_up_to char_len three_bytes four_bytes
    text_eq
loads = refl

load_snapsurf_iff_example :
    (load_snapsurf same_text (text "src/main.snapsurf") 0 ≡ ok file)
    ↔ IsLoaded same_text (text "src/main.snapsurf") 0 file
load_snapsurf_iff_example = load_snapsurf_iff same_text (text "src/main.snapsurf") 0 file
