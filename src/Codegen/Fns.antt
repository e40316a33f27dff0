-- ===== src/Codegen/Fns.antt =====
-- The code of functions and of a file (`emit_fn`, `Codegen::emit`, `emit_nasm`).
use snap_surf_lang.Prelude.{
  ℕ, suc, ◌+◌, ◌*◌, ◌/◌, Bytes, text, text_eq, Bool, ltb, List, [], ◌∷◌, ◌++◌, Option, none, some,
  if◌then◌else◌, length, get_elem?, Run, done, panic, out_of_fuel,
}
use snap_surf_lang.Prelude.Maps.{get, insert}
use snap_surf_lang.Package.{Package}
use snap_surf_lang.Ast.{Param, FnDecl, Item, use_item, fn_item, SourceAst}
use snap_surf_lang.Codegen.Asm.{
  Reg, regs, fn_end, Label, fn_label, str_label, Line, fixed, define, call, store_reg, sub_rsp,
  xor_eax, db, asm_text,
}
use snap_surf_lang.Codegen.Exprs.{Strings}
use snap_surf_lang.Codegen.Stmts.{
  Names, FnEnv, Emits, emits, ◌then◌, with_label, emit_block, next_offset, collect_locals,
}

-- `align16`
unfoldable pub align16 : ℕ → ℕ
align16 n = (n + 15) / 16 * 16

-- The loop over the parameters that fills `locals`.
unfoldable pub param_locals : List Param → List (Bytes × ℕ) → List (Bytes × ℕ)
param_locals [] locals = locals
param_locals (p ∷ ps) locals = param_locals ps (insert p.name (next_offset locals) locals)

unfoldable pub store_param : Option ℕ → Option Reg → List Line
store_param none r = []
store_param (some offset) none = []
store_param (some offset) (some r) = store_reg offset r ∷ []

-- The loop over the parameters that stores the registers, from the parameter with a number.
unfoldable pub store_params : List (Bytes × ℕ) → ℕ → List Param → List Line
store_params locals idx [] = []
store_params locals idx (p ∷ ps) =
    store_param (get p.name locals) (get_elem? regs idx) ++ store_params locals (suc idx) ps

unfoldable pub fn_locals : FnDecl → List (Bytes × ℕ)
fn_locals f = collect_locals f.body (param_locals f.params [])

unfoldable pub prologue : FnDecl → List Line
prologue f =
    let size = align16 (length (fn_locals f) * 8) in
    define (fn_label f.name)
    ∷ fixed (text "    push rbp")
    ∷ fixed (text "    mov rbp, rsp")
    ∷ ((if ltb 0 size then sub_rsp size ∷ [] else []) ++ store_params (fn_locals f) 0 f.params)

unfoldable pub epilogue : FnDecl → Label → List Line
epilogue f end_label =
    (if text_eq f.ret.name (text "void") then xor_eax ∷ [] else [])
    ++ define end_label
      ∷ fixed (text "    mov rsp, rbp")
      ∷ fixed (text "    pop rbp")
      ∷ fixed (text "    ret")
      ∷ fixed []
      ∷ []

abbrev pub env_of : FnDecl → Label → FnEnv
env_of f end_label = record {
  locals = fn_locals f;
  end_label = end_label;
  break_labels = [];
  continue_labels = [];
}

module _ (functions : List Bytes) where
  unfoldable pub emit_fn : FnDecl → Emits
  emit_fn f = with_label fn_end λ end_label.
      emits (prologue f)
      then emit_block functions (env_of f end_label) f.body
      then emits (epilogue f end_label)

  -- The loop over the items that emits the functions.
  unfoldable pub emit_items : List Item → Emits
  emit_items [] = emits []
  emit_items (use_item u ∷ is) = emit_items is
  emit_items (fn_item f ∷ is) = emit_fn f then emit_items is

-- The loop over the items that fills `functions`.
unfoldable pub function_names : List Item → List Bytes
function_names [] = []
function_names (use_item u ∷ is) = function_names is
function_names (fn_item f ∷ is) = f.name ∷ function_names is

abbrev pub header_lines : Bool → List Line
header_lines is_tiny =
    fixed (text "default rel")
    ∷ fixed (text "global _start")
    ∷ fixed (text "section .text")
    ∷ (if is_tiny
        then define (fn_label (text "_start"))
          ∷ call (text "main")
          ∷ fixed (text "    mov edi, eax")
          ∷ fixed (text "    mov eax, 60")
          ∷ fixed (text "    syscall")
          ∷ fixed []
          ∷ []
        else [])

unfoldable pub string_lines : Strings → List Line
string_lines [] = []
string_lines ((n, bytes) ∷ strings) = define (str_label n) ∷ db bytes ∷ string_lines strings

unfoldable pub data_lines : Strings → List Line
data_lines [] = []
data_lines (s ∷ ss) = fixed (text "section .rodata") ∷ string_lines (s ∷ ss)

abbrev pub with_data : Run (List Line × Names) → Run (List Line)
with_data (done (ls, s)) = done (ls ++ data_lines s.strings)
with_data panic = panic
with_data out_of_fuel = out_of_fuel

-- `Codegen::emit`, from the state that `emit_nasm` makes.
unfoldable pub emit : SourceAst → Package → Run (List Line)
emit ast pkg = with_data (
    (emits (header_lines (text_eq pkg.runtime (text "tiny")))
        then emit_items (function_names ast.items) ast.items)
      (record { label_id = 0; strings = [] }))

abbrev print : Run (List Line) → Run Bytes
print (done ls) = done (asm_text ls)
print panic = panic
print out_of_fuel = out_of_fuel

unfoldable pub emit_nasm : SourceAst → Package → Run Bytes
emit_nasm ast pkg = print (emit ast pkg)
