-- ===== src/Codegen/Asm.antt =====
-- The lines of NASM text that codegen.rs emits, and their text. A line is a constructor here, and
-- its text is what the source passes to `Codegen::line`.
use snap_surf_lang.Prelude.{
  ℕ, ◌-◌, ◌^◌, Bytes, text, decimal, List, [], ◌∷◌, ◌++◌, map, ltb, if◌then◌else◌,
}
use snap_surf_lang.Ast.{join_texts}

-- The registers of the arguments, in their order.
pub data Reg : Type 0 where
  rdi rsi rdx rcx r8 r9 : Reg

abbrev pub reg_text : Reg → Bytes
reg_text rdi = text "rdi"
reg_text rsi = text "rsi"
reg_text rdx = text "rdx"
reg_text rcx = text "rcx"
reg_text r8 = text "r8"
reg_text r9 = text "r9"

-- `let regs = [...]`
abbrev pub regs : List Reg
regs = rdi ∷ rsi ∷ rdx ∷ rcx ∷ r8 ∷ r9 ∷ []

-- The instructions that `emit_cmp` is called with.
pub data Setcc : Type 0 where
  sete setne setl setle setg setge : Setcc

abbrev pub setcc_text : Setcc → Bytes
setcc_text sete = text "sete"
setcc_text setne = text "setne"
setcc_text setl = text "setl"
setcc_text setle = text "setle"
setcc_text setg = text "setg"
setcc_text setge = text "setge"

-- The prefixes that `Codegen::label` is called with.
pub data Prefix : Type 0 where
  fn_end if_else if_end loop_start loop_end while_start while_end : Prefix

abbrev pub prefix_text : Prefix → Bytes
prefix_text fn_end = text "fn_end"
prefix_text if_else = text "if_else"
prefix_text if_end = text "if_end"
prefix_text loop_start = text "loop_start"
prefix_text loop_end = text "loop_end"
prefix_text while_start = text "while_start"
prefix_text while_end = text "while_end"

-- A label: of a function, of `Codegen::label` or of `Codegen::string_label`.
pub data Label : Type 0 where
  fn_label : Bytes → Label
  local_label : Prefix → ℕ → Label
  str_label : ℕ → Label

unfoldable pub label_text : Label → Bytes
label_text (fn_label name) = name
label_text (local_label p id) = text ".L_" ++ (prefix_text p ++ (text "_" ++ decimal id))
label_text (str_label n) = text ".Lstr" ++ decimal n

pub data Line : Type 0 where
  -- A line without a value in it.
  fixed : Bytes → Line
  define : Label → Line
  jmp je : Label → Line
  call : Bytes → Line
  mov_rax : ℕ → Line
  lea_rax : Label → Line
  load_rax store_rax : ℕ → Line
  store_reg : ℕ → Reg → Line
  pop_reg : Reg → Line
  push_rax pop_rax mov_rbx_rax xor_eax neg_rax : Line
  add_rax sub_rax imul_rax and_rax or_rax cqo idiv_rbx mov_rax_rdx : Line
  cmp_rax_rbx cmp_rax_0 movzx_rax : Line
  set_al : Setcc → Line
  mov_rax_1 syscall : Line
  sub_rsp : ℕ → Line
  db : List ℕ → Line

-- `{offset}` of an `i32`, whose bits are a number below `2 ^ 32`.
unfoldable pub i32_text : ℕ → Bytes
i32_text n = if ltb n (2 ^ 31) then decimal n else text "-" ++ decimal (2 ^ 32 - n)

unfoldable pub format_bytes : List ℕ → Bytes
format_bytes [] = text "0"
format_bytes (b ∷ bs) = join_texts (text ", ") (map decimal (b ∷ bs))

unfoldable pub line_text : Line → Bytes
line_text (fixed t) = t
line_text (define l) = label_text l ++ text ":"
line_text (jmp l) = text "    jmp " ++ label_text l
line_text (je l) = text "    je " ++ label_text l
line_text (call name) = text "    call " ++ name
line_text (mov_rax value) = text "    mov rax, " ++ decimal value
line_text (lea_rax l) = text "    lea rax, [rel " ++ (label_text l ++ text "]")
line_text (load_rax offset) = text "    mov rax, [rbp-" ++ (i32_text offset ++ text "]")
line_text (store_rax offset) = text "    mov [rbp-" ++ (i32_text offset ++ text "], rax")
line_text (store_reg offset r) =
    text "    mov [rbp-" ++ (i32_text offset ++ (text "], " ++ reg_text r))
line_text (pop_reg r) = text "    pop " ++ reg_text r
line_text push_rax = text "    push rax"
line_text pop_rax = text "    pop rax"
line_text mov_rbx_rax = text "    mov rbx, rax"
line_text xor_eax = text "    xor eax, eax"
line_text neg_rax = text "    neg rax"
line_text add_rax = text "    add rax, rbx"
line_text sub_rax = text "    sub rax, rbx"
line_text imul_rax = text "    imul rax, rbx"
line_text and_rax = text "    and rax, rbx"
line_text or_rax = text "    or rax, rbx"
line_text cqo = text "    cqo"
line_text idiv_rbx = text "    idiv rbx"
line_text mov_rax_rdx = text "    mov rax, rdx"
line_text cmp_rax_rbx = text "    cmp rax, rbx"
line_text cmp_rax_0 = text "    cmp rax, 0"
line_text movzx_rax = text "    movzx rax, al"
line_text (set_al cc) = text "    " ++ (setcc_text cc ++ text " al")
line_text mov_rax_1 = text "    mov rax, 1"
line_text syscall = text "    syscall"
line_text (sub_rsp size) = text "    sub rsp, " ++ decimal size
line_text (db bytes) = text "    db " ++ format_bytes bytes

-- What `Codegen::line` makes of the lines.
unfoldable pub asm_text : List Line → Bytes
asm_text [] = []
asm_text (l ∷ ls) = line_text l ++ (text "\n" ++ asm_text ls)
