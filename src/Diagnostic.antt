-- ===== src/Diagnostic.antt =====
-- prototypes/rust_stage0/src/diagnostic.rs: positions, spans, and the diagnostics that every
-- stage pushes onto its own list.
use snap_surf_lang.Prelude.{ℕ, Bytes, text, decimal, Option, none, some, ◌++◌}

pub data Severity : Type 0 where
  error warning : Severity

pub record Pos : Type 0 where
  pub byte : ℕ
  pub line : ℕ
  pub column : ℕ

pub record Span : Type 0 where
  pub source_file_id : ℕ
  pub start : Pos
  pub end : Pos

-- `Span::join`
abbrev pub join : Span → Span → Span
join a b = record { source_file_id = a.source_file_id; start = a.start; end = b.end }

pub record Diagnostic : Type 0 where
  pub code : Bytes
  pub severity : Severity
  pub message : Bytes
  pub file_path : Bytes
  pub source_file_id : ℕ
  pub span : Span
  pub note : Option Bytes
  pub help : Option Bytes

-- `Diagnostic::error`
abbrev pub error_at : Bytes → Bytes → Bytes → ℕ → Span → Diagnostic
error_at c m p id sp = record {
  code = c;
  severity = error;
  message = m;
  file_path = p;
  source_file_id = id;
  span = sp;
  note = none;
  help = none;
}

pub with_help : Diagnostic → Bytes → Diagnostic
with_help d h = record d { help = some h }

-- "\n" ++ a label, where the field is present
labelled : Bytes → Option Bytes → Bytes
labelled label none = text ""
labelled label (some t) = text "\n" ++ (label ++ t)

unfoldable pub render : Diagnostic → Bytes
unfolding labelled
render d =
    d.file_path
    ++ (text ":"
        ++ (decimal d.span.start.line
            ++ (text ":"
                ++ (decimal d.span.start.column
                    ++ (text " "
                        ++ (d.code
                            ++ (text "\n"
                                ++ (d.message
                                    ++ (labelled (text "note: ") d.note
                                        ++ labelled (text "help: ") d.help)))))))))

abbrev pub dummy_span : Span
dummy_span = record {
  source_file_id = 0;
  start = record { byte = 0; line = 1; column = 1 };
  end = record { byte = 0; line = 1; column = 1 };
}
