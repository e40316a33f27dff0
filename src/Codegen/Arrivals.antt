-- ===== src/Codegen/Arrivals.antt =====
-- The body of a function runs to its epilogue (`emit`, `emit_fn` in codegen.rs).
use snap_surf_lang.Prelude.{
  ℕ, ◌≤◌, Bytes, text, text_eq, List, [], ◌∷◌, ◌++◌, append_assoc, Option, ◌≡◌, refl, sym, ap, ◌∙◌,
  if◌then◌else◌, done,
}
use mathlib.Core.List.{Memᴰ}
use snap_surf_lang.Package.{Package}
use snap_surf_lang.Ast.{FnDecl, fn_item, SourceAst}
use snap_surf_lang.Codegen.Asm.{fn_end, Label, local_label, Line, define, fixed, xor_eax}
use snap_surf_lang.Codegen.Stmts.{◌then◌}
use snap_surf_lang.Codegen.Fns.{fn_locals, epilogue, env_of, function_names, emit}
use snap_surf_lang.Codegen.Labels.{numbered, count}
use snap_surf_lang.Codegen.Links.{emit-Linked}
use snap_surf_lang.Codegen.Machine.{Calls, Cpu, Machine}
use snap_surf_lang.Codegen.Points.{here, jump, Reaches, Reaches-trans, jump-Reaches}
use snap_surf_lang.Codegen.BigStep.{Ending, falls, breaks, continues, returns, RunsBlock}
use snap_surf_lang.Codegen.Routes.{Way, on, to, goal, Goes}
use snap_surf_lang.Codegen.Correct.{Leads, Ended}
use snap_surf_lang.Codegen.Preserves.{emit_block-Does}
use snap_surf_lang.Codegen.Bodies.{once-Placed, BodyIn, emit-BodyIn}

-- The lines at the end of the code of a function, from its label on.
abbrev pub return_lines : Label → List Line
return_lines end =
    define end
    ∷ fixed (text "    mov rsp, rbp")
    ∷ fixed (text "    pop rbp")
    ∷ fixed (text "    ret")
    ∷ fixed []
    ∷ []

-- Where the code of a body leads: the epilogue, or the label in it.
abbrev pub exit_lines : FnDecl → Label → Ending → List Line
exit_lines f end (returns v) = return_lines end
exit_lines f end _ = epilogue f end

-- A body is not left to a loop around it.
abbrev pub Exits : Ending → Type 0
Exits falls = Unit
Exits (returns v) = Unit
Exits _ = ⊥

module _ (cpu : Cpu) (callee : Bytes → Machine → Option Machine) (fn : Bytes → List ℕ → Option ℕ)
    (calls : Calls callee fn) (functions : List Bytes) (f : FnDecl) (code : List Line)
    (once : (n : ℕ) → count (numbered n) code ≤ 1) (b : BodyIn functions f code) where
  abbrev body_end : Label
  body_end = local_label fn_end b.id

  abbrev Arrives : Machine → Ending → (ℕ → ℕ) → Type 0
  Arrives M end frame' =
      (M' : Machine) × Reaches cpu callee code (here (b.body ++ (epilogue f body_end ++ b.after))) M
        (here (exit_lines f body_end end ++ b.after)) M'
      × Ended end frame' M.stack M'

  body-Goes :
      (M : Machine) (end : Ending) (frame' : ℕ → ℕ) (w : Way)
      → RunsBlock cpu functions (fn_locals f) fn M.frame f.body end frame'
      → Leads (env_of f body_end) end w
      → (M' : Machine) × Reaches cpu callee code
          (here (b.body ++ (epilogue f body_end ++ b.after)))
          M
          (goal w (epilogue f body_end ++ b.after))
          M'
        × Ended end frame' M.stack M'
  unfolding Goes
  body-Goes M end frame' w r l =
      emit_block-Does cpu callee code functions fn calls (fn_locals f) (env_of f body_end) refl r
        b.names w M M.stack l (record { frame_ok = refl; stack_ok = refl; returned = tt }) b.body
        b.names' b.emitted (epilogue f body_end ++ b.after)
        (once-Placed code b.before b.body (epilogue f body_end ++ b.after) once b.placed)

  void_lines : List Line
  void_lines = if text_eq f.ret.name (text "void") then xor_eax ∷ [] else []

  end_placed : code ≡ b.before ++ (((b.body ++ void_lines) ++ return_lines body_end) ++ b.after)
  unfolding epilogue void_lines
  end_placed =
      b.placed
      ∙ ap (λ t. b.before ++ t)
          (sym (append_assoc b.body (void_lines ++ return_lines body_end) b.after)
            ∙ ap (λ t. t ++ b.after) (sym (append_assoc b.body void_lines (return_lines body_end))))

  jump_end :
      (M : Machine)
      → Reaches cpu callee code (jump body_end) M (here (return_lines body_end ++ b.after)) M
  jump_end M = jump-Reaches cpu callee code fn_end b.id (b.body ++ void_lines) _ b.after M (
      once-Placed code b.before ((b.body ++ void_lines) ++ return_lines body_end) b.after once
        end_placed)

  body-Arrives :
      (M : Machine) (end : Ending) (frame' : ℕ → ℕ)
      → RunsBlock cpu functions (fn_locals f) fn M.frame f.body end frame'
      → Exits end
      → Arrives M end frame'
  body-Arrives M falls frame' r x = body-Goes M falls frame' on r refl
  body-Arrives M breaks frame' r x = absurd x
  body-Arrives M continues frame' r x = absurd x
  body-Arrives M (returns v) frame' r x =
      let (M', h, d) = body-Goes M (returns v) frame' (to body_end) r refl in
      (M', Reaches-trans cpu callee code h (jump_end M'), d)

-- In the code of a file, the body of a function does what a run of the body does. From its first
-- line, with any stack, the processor comes to the epilogue where the body ends by itself, and to
-- the label in it with the word in `rax` where the body returns one; the frame is the one behind
-- the run, and the stack is as it was. Functions are taken to return what the language says for the
-- arguments in their registers, and to restore the stack and the frame.
pub emit-Arrives :
    (cpu : Cpu) (callee : Bytes → Machine → Option Machine) (fn : Bytes → List ℕ → Option ℕ)
    → Calls callee fn
    → (ast : SourceAst) (pkg : Package) (f : FnDecl) (code : List Line) (M : Machine) (end : Ending)
      (frame' : ℕ → ℕ)
    → emit ast pkg ≡ done code
    → Memᴰ (fn_item f) ast.items
    → RunsBlock cpu (function_names ast.items) (fn_locals f) fn M.frame f.body end frame'
    → Exits end
    → (b : BodyIn (function_names ast.items) f code) × (M' : Machine) × Reaches cpu callee code
        (here (b.body ++ (epilogue f (local_label fn_end b.id) ++ b.after)))
        M
        (here (exit_lines f (local_label fn_end b.id) end ++ b.after))
        M'
      × Ended end frame' M.stack M'
emit-Arrives cpu callee fn calls ast pkg f code M end frame' e m r x =
    let b = emit-BodyIn ast pkg f code m e in
    let (M', h, d) =
      body-Arrives cpu callee fn calls (function_names ast.items) f code
        (emit-Linked ast pkg code e).1 b M end frame' r x in
    (b, M', h, d)
