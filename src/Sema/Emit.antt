-- ===== src/Sema/Emit.antt =====
-- `self.diagnostics` of the checker in sema.rs: a list that is only pushed to, so that a step is
-- its result with the diagnostics that it adds.
pub use snap_surf_lang.Prelude.{append-eq-nil}
use snap_surf_lang.Prelude.{Bytes, Bool, true, false, List, [], ◌∷◌, ◌++◌, ◌≡◌, refl}
use snap_surf_lang.Diagnostic.{Span, Diagnostic, error_at}

abbrev pub Emit : Type 0 → Type 0
Emit A = List Diagnostic × A

abbrev pub pure : {A : Type 0} → A → Emit A
pure a = ([], a)

infixl 5 ◌>>=◌ ◌>>◌
abbrev pub ◌>>=◌ : {A B : Type 0} → Emit A → (A → Emit B) → Emit B
m >>= f = (m.0 ++ (f m.1).0, (f m.1).1)

abbrev pub ◌>>◌ : {B : Type 0} → Emit (Unit {0}) → Emit B → Emit B
m >> k = m >>= λ _. k

-- `Checker::error`
abbrev pub error : Bytes → Bytes → Bytes → Span → Emit (Unit {0})
error file_path code message sp = (error_at code message file_path sp.source_file_id sp ∷ [], tt)

abbrev pub when : Bool → Emit (Unit {0}) → Emit (Unit {0})
when true m = m
when false m = pure tt

-- A step sequence is silent exactly when both steps are.
pub bind-silent :
    {A B : Type 0} (m : Emit A) (f : A → Emit B) → (m >>= f).0 ≡ [] → (m.0 ≡ []) × ((f m.1).0 ≡ [])
bind-silent m f h = append-eq-nil m.0 (f m.1).0 h

pub when-silent :
    (b : Bool) (file_path code message : Bytes) (sp : Span)
    → (when b (error file_path code message sp)).0 ≡ []
    → b ≡ false
when-silent true file_path code message sp h = cc
when-silent false file_path code message sp h = refl
