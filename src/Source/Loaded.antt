-- ===== src/Source/Loaded.antt =====
-- What `load_snapsurf` of source.rs gives.
use snap_surf_lang.Prelude.{
  ℕ, Bytes, text, text_eq_iff, true, false, Option, none, some, length, ◌≡◌, ◌↔◌, ◌⊎◌, refl, sym,
  ap, inl, inr, Bool-cases, Option-cases, arith,
}
use mathlib.Core.Path.{subst}
use snap_surf_lang.Source.{SourceFile}
use snap_surf_lang.Package.Load.{Outcome, ok, err}
use snap_surf_lang.Source.Load.{extension, valid_up_to, has_bom, is_snapsurf, load_snapsurf}
use snap_surf_lang.Source.Utf8.{IsUtf8, valid_up_to-IsUtf8}
use snap_surf_lang.Source.Encoded.{IsUtf8-valid_up_to}

-- A file with the right extension and path, and its contents.
pub record IsLoaded (read : Bytes → Outcome Bytes Bytes) (path : Bytes) (id : ℕ) (f : SourceFile)
    : Type 0 where
  pub is_source : extension path ≡ some (text "snapsurf")
  pub named : IsUtf8 path
  pub was_read : read path ≡ ok f.bytes
  pub no_bom : has_bom f.bytes ≡ false
  pub is_text : IsUtf8 f.bytes
  pub is_file : f ≡ record { id = id; path = path; bytes = f.bytes; text = f.bytes }

valid-IsUtf8 : (s : Bytes) → valid_up_to 0 0 s ≡ none → IsUtf8 s
valid-IsUtf8 s e = valid_up_to-IsUtf8 (length s) s 0 (omega arith) e

some-eq : {A : Type 0} {a b : A} → some a ≡ some b → a ≡ b
some-eq e = cc

ok-eq : {E T : Type 0} {a b : T} → Path (Outcome E T) (ok a) (ok b) → a ≡ b
ok-eq e = cc

is_snapsurf_iff : (o : Option Bytes) → (is_snapsurf o ≡ true) ↔ (o ≡ some (text "snapsurf"))
is_snapsurf_iff none = (λ h. cc, λ h. cc)
is_snapsurf_iff (some e) = (
  λ h. ap some ((text_eq_iff e (text "snapsurf")).0 h),
  λ h. (text_eq_iff e (text "snapsurf")).1 (some-eq h),
)

Outcome-cases : {E T : Type 0} (o : Outcome E T) → ((t : T) × (o ≡ ok t)) ⊎ ((e : E) × (o ≡ err e))
Outcome-cases (ok t) = inl (t, refl)
Outcome-cases (err e) = inr (e, refl)

module _ (read : Bytes → Outcome Bytes Bytes) (path : Bytes) (id : ℕ) where
  loaded :
      (bytes : Bytes)
      → is_snapsurf (extension path) ≡ true
      → valid_up_to 0 0 path ≡ none
      → read path ≡ ok bytes
      → has_bom bytes ≡ false
      → valid_up_to 0 0 bytes ≡ none
      → IsLoaded read path id (record { id = id; path = path; bytes = bytes; text = bytes })
  loaded bytes q p r b v = record {
    is_source = (is_snapsurf_iff (extension path)).0 q;
    named = valid-IsUtf8 path p;
    was_read = r;
    no_bom = b;
    is_text = valid-IsUtf8 bytes v;
    is_file = refl;
  }

  load_snapsurf-IsLoaded :
      (f : SourceFile) → load_snapsurf read path id ≡ ok f → IsLoaded read path id f
  unfolding load_snapsurf
  load_snapsurf-IsLoaded f h = elim (Bool-cases (is_snapsurf (extension path))) [
    | inr q ↦ let z = rw (load_snapsurf, q) at h in cc
    | inl q ↦ elim (Option-cases (valid_up_to 0 0 path)) [
      | inr (n, p) ↦ let z = rw (load_snapsurf, q, p) at h in cc
      | inl p ↦ elim (Outcome-cases (read path)) [
        | inr (e, r) ↦ let z = rw (load_snapsurf, q, p, r) at h in cc
        | inl (bytes, r) ↦ elim (Bool-cases (has_bom bytes)) [
          | inl b ↦ let z = rw (load_snapsurf, q, p, r, b) at h in cc
          | inr b ↦ elim (Option-cases (valid_up_to 0 0 bytes)) [
            | inr (n, v) ↦ let z = rw (load_snapsurf, q, p, r, b, v) at h in cc
            | inl v ↦
                let z = ok-eq (rw (load_snapsurf, q, p, r, b, v) at h) in
                subst (IsLoaded read path id) z (loaded bytes q p r b v)
          ]
        ]
      ]
    ]
  ]

  IsLoaded-load_snapsurf :
      (f : SourceFile) → IsLoaded read path id f → load_snapsurf read path id ≡ ok f
  unfolding load_snapsurf
  IsLoaded-load_snapsurf f h =
      rw
        (
          load_snapsurf,
          (is_snapsurf_iff (extension path)).1 h.is_source,
          IsUtf8-valid_up_to h.named 0,
          h.was_read,
          h.no_bom,
          IsUtf8-valid_up_to h.is_text 0,
        )
        (ap ok (sym h.is_file))

  -- Loading a source file gives the file exactly when the path ends in `.snapsurf` and is UTF-8, and
  -- what is read there starts with no byte order mark and is UTF-8: a sequence of characters, each in
  -- the bytes that its number has. The file has the path, the number and the bytes that are read.
  pub load_snapsurf_iff :
      (f : SourceFile) → (load_snapsurf read path id ≡ ok f) ↔ IsLoaded read path id f
  load_snapsurf_iff f = (load_snapsurf-IsLoaded f, IsLoaded-load_snapsurf f)
