-- ===== src/CommandLine/Exits.antt =====
-- A run of main.rs ends as its arguments and the operations of driver.rs say.
use snap_surf_lang.Prelude.{
  arith, Bytes, text, text_eq, text_eq_iff, text_eq_of_ne, ne_of_text_eq, Bool, true, false, ◌||◌,
  List, [], ◌∷◌, ◌++◌, ◌≡◌, ◌↔◌, refl, sym, ap, ◌∙◌, inl, inr, append_assoc, Bool-cases, Run, done,
  panic, out_of_fuel, if_both,
}
use mathlib.Core.Path.{subst}
use snap_surf_lang.Diagnostic.{Diagnostic, render}
use snap_surf_lang.Package.Load.{Outcome, ok, err}
use snap_surf_lang.Driver.{Result, run_check, emit_asm}
use snap_surf_lang.Driver.Build.{Log, Host, Driven, init, run_build, run_executable, clean}
use snap_surf_lang.CommandLine.{
  Printed, rendered, report, driven, reads, root_of, emit_command, command, real_main,
}
use snap_surf_lang.CommandLine.Ends.{
  listing, shown, Root, given, by_default, nothing, IsVersion, word, long, short, Ran, version,
  init_ran, check_ran, emit_ran, emit_what, emit_other, build_ran, run_ran, clean_ran,
  no_such_command, Ended, no_command, nowhere, ran,
}

rendered-listing : (ds : List Diagnostic) → rendered ds ≡ listing ds
rendered-listing [] = refl
rendered-listing (d ∷ ds) =
    ap (λ t. render d ++ (text "\n" ++ t)) (rendered-listing ds)
    ∙ sym (append_assoc (render d) (text "\n") (listing ds))

report-shown :
    {T : Type 0} (show : T → Bytes) (g : Log) (res : Result T)
    → report show (g, res) ≡ (g, shown show res)
report-shown show g (ok t) = refl
report-shown show g (err ds) =
    ap (λ e. (g, record { out = []; err = e; code = 1 })) (rendered-listing ds)

done-eq {ℓ} : {A : Type ℓ} {a b : A} → done a ≡ done b → a ≡ b
done-eq e = cc

or_false : {a b : Bool} → (a || b) ≡ false → (a ≡ false) × (b ≡ false)
or_false h = (ground arith, ground arith)

-- What a run of an operation leaves.
driven-shown :
    {T : Type 0} (show : T → Bytes) (m : Driven T) (r : Log × Printed)
    → driven show m ≡ done r
    → (g : Log) × (res : Result T) × (m ≡ done (g, res)) × ((g, shown show res) ≡ r)
driven-shown show (done (g, res)) r e = (g, res, refl, sym (report-shown show g res) ∙ done-eq e)
driven-shown show panic r e = cc
driven-shown show out_of_fuel r e = cc

reads-shown :
    {T : Type 0} (show : T → Bytes) (h : Log) (m : Run (Result T)) (r : Log × Printed)
    → reads show h m ≡ done r
    → (res : Result T) × (m ≡ done res) × ((h, shown show res) ≡ r)
reads-shown show h (done res) r e = (res, refl, sym (report-shown show h res) ∙ done-eq e)
reads-shown show h panic r e = cc
reads-shown show h out_of_fuel r e = cc

root_of-Root : (args : List Bytes) (cwd : Bytes) → Root cwd args (root_of args cwd)
root_of-Root [] cwd = by_default
root_of-Root (a ∷ args) cwd = given

Root-root_of : {args : List Bytes} {cwd root : Bytes} → Root cwd args root → root_of args cwd ≡ root
Root-root_of given = refl
Root-root_of by_default = refl

module _ (host : Host) (h : Log) where
  module _ (cwd : Bytes) (cmd : Bytes) (args : List Bytes) where
    -- Where the run returns, it ends as the rules say.
    abbrev Follows : Run (Log × Printed) → Type 0
    Follows m = (r : Log × Printed) → m ≡ done r → Ran host h cwd cmd args r

    at_word :
        (c : Bytes) (r : Log × Printed)
        → text_eq cmd c ≡ true
        → Ran host h cwd c args r
        → Ran host h cwd cmd args r
    at_word c r q w = subst (λ c. Ran host h cwd c args r) (sym ((text_eq_iff cmd c).0 q)) w

    version-Follows :
        (text_eq cmd (text "version")
            || (text_eq cmd (text "--version") || text_eq cmd (text "-V")))
          ≡ true
        → Follows (
            done (h, record { out = text "surf 0.1.0-foundation-bootstrap\n"; err = []; code = 0 }))
    version-Follows q r e = subst (λ r. Ran host h cwd cmd args r) (done-eq e) (version (by_word q))
      where
        by_word :
            (text_eq cmd (text "version")
                || (text_eq cmd (text "--version") || text_eq cmd (text "-V")))
              ≡ true
            → IsVersion cmd
        by_word q = elim (Bool-cases (text_eq cmd (text "version"))) [
          | inl x ↦ subst IsVersion (sym ((text_eq_iff cmd (text "version")).0 x)) word
          | inr x ↦ elim (Bool-cases (text_eq cmd (text "--version"))) [
            | inl y ↦ subst IsVersion (sym ((text_eq_iff cmd (text "--version")).0 y)) long
            | inr y ↦
                let z : text_eq cmd (text "-V") ≡ true = rw (x, y) at q in
                subst IsVersion (sym ((text_eq_iff cmd (text "-V")).0 z)) short
          ]
        ]

    driven-Follows :
        {T : Type 0} (show : T → Bytes) (m : Driven T)
        → ((g : Log) (res : Result T)
            → m ≡ done (g, res)
            → Ran host h cwd cmd args (g, shown show res))
        → Follows (driven show m)
    driven-Follows show m f r e =
        let (g, res, p, s) = driven-shown show m r e in
        subst (λ r. Ran host h cwd cmd args r) s (f g res p)

    reads-Follows :
        {T : Type 0} (show : T → Bytes) (m : Run (Result T))
        → ((res : Result T) → m ≡ done res → Ran host h cwd cmd args (h, shown show res))
        → Follows (reads show h m)
    reads-Follows show m f r e =
        let (res, p, s) = reads-shown show h m r e in
        subst (λ r. Ran host h cwd cmd args r) s (f res p)

  emit-Follows :
      (cwd : Bytes) (args : List Bytes)
      → Follows cwd (text "emit") args (emit_command host args cwd h)
  unfolding emit_command
  emit-Follows cwd [] = λ r e. subst (λ r. Ran host h cwd (text "emit") [] r) (done-eq e) emit_what
  emit-Follows cwd (a ∷ args) =
      if_both (Follows cwd (text "emit") (a ∷ args)) (text_eq a (text "asm"))
        (λ q.
          reads-Follows cwd (text "emit") (a ∷ args) (λ s. s)
            (emit_asm (host.files h) (root_of args cwd))
            λ res p.
              subst (λ a. Ran host h cwd (text "emit") (a ∷ args) (h, shown (λ asm. asm) res))
                (sym ((text_eq_iff a (text "asm")).0 q)) (emit_ran (root_of-Root args cwd) p))
        λ q r e.
          subst (λ r. Ran host h cwd (text "emit") (a ∷ args) r) (done-eq e)
            (emit_other (ne_of_text_eq q))

  command-Follows :
      (cwd cmd : Bytes) (args : List Bytes) → Follows cwd cmd args (command host cmd args cwd h)
  unfolding command
  command-Follows cwd cmd args =
      let P = Follows cwd cmd args in
      let word = at_word cwd cmd args in
      if_both P
        (text_eq cmd (text "version")
          || (text_eq cmd (text "--version") || text_eq cmd (text "-V")))
        (version-Follows cwd cmd args)
        λ v.
          if_both P (text_eq cmd (text "init"))
            (λ q.
              driven-Follows cwd cmd args nothing (init host cwd h)
                λ g res p. word (text "init") _ q (init_ran p))
            λ n₁.
              if_both P (text_eq cmd (text "check"))
                (λ q.
                  reads-Follows cwd cmd args nothing (run_check (host.files h) (root_of args cwd))
                    λ res p. word (text "check") _ q (check_ran (root_of-Root args cwd) p))
                λ n₂.
                  if_both P (text_eq cmd (text "emit"))
                    (λ q r e. word (text "emit") r q (emit-Follows cwd args r e))
                    λ n₃.
                      if_both P (text_eq cmd (text "build"))
                        (λ q.
                          driven-Follows cwd cmd args _ (run_build host (root_of args cwd) h)
                            λ g res p.
                              word (text "build") _ q (build_ran (root_of-Root args cwd) p))
                        λ n₄.
                          if_both P (text_eq cmd (text "run"))
                            (λ q.
                              driven-Follows cwd cmd args nothing
                                (run_executable host (root_of args cwd) h)
                                λ g res p.
                                  word (text "run") _ q (run_ran (root_of-Root args cwd) p))
                            λ n₅.
                              if_both P (text_eq cmd (text "clean"))
                                (λ q.
                                  driven-Follows cwd cmd args nothing
                                    (clean host (root_of args cwd) h)
                                    λ g res p.
                                      word (text "clean") _ q (clean_ran (root_of-Root args cwd) p))
                                λ n₆ r e.
                                  let (v₁, v₂) = or_false v in
                                  let (v₂, v₃) = or_false v₂ in
                                  subst (λ r. Ran host h cwd cmd args r) (done-eq e)
                                    (no_such_command (
                                      ne_of_text_eq v₁,
                                      (
                                        ne_of_text_eq v₂,
                                        (
                                          ne_of_text_eq v₃,
                                          (
                                            ne_of_text_eq n₁,
                                            (
                                              ne_of_text_eq n₂,
                                              (
                                                ne_of_text_eq n₃,
                                                (
                                                  ne_of_text_eq n₄,
                                                  (ne_of_text_eq n₅, (ne_of_text_eq n₆, tt)),
                                                ),
                                              ),
                                            ),
                                          ),
                                        ),
                                      ),
                                    ))

  Ran-command :
      {cwd cmd : Bytes} {args : List Bytes} {r : Log × Printed}
      → Ran host h cwd cmd args r
      → command host cmd args cwd h ≡ done r
  unfolding command emit_command text_eq
  Ran-command (version word) = refl
  Ran-command (version long) = refl
  Ran-command (version short) = refl
  Ran-command (init_ran {res = res} p) = rw p (ap done (report-shown nothing _ res))
  Ran-command (check_ran {res = res} w p) =
      rw (Root-root_of w, p) (ap done (report-shown nothing h res))
  Ran-command (emit_ran {res = res} w p) =
      rw (Root-root_of w, p) (ap done (report-shown (λ asm. asm) h res))
  Ran-command emit_what = refl
  Ran-command (emit_other {a = a} n) = rw (text_eq_of_ne a (text "asm") n) refl
  Ran-command (build_ran {res = res} w p) = rw (Root-root_of w, p) (ap done (report-shown _ _ res))
  Ran-command (run_ran {res = res} w p) =
      rw (Root-root_of w, p) (ap done (report-shown nothing _ res))
  Ran-command (clean_ran {res = res} w p) =
      rw (Root-root_of w, p) (ap done (report-shown nothing _ res))
  Ran-command (no_such_command {cmd = cmd} (a, (b, (c, (d, (e, (f, (g, (i, (j, u)))))))))) =
      rw
        (
          command,
          text_eq_of_ne cmd _ a,
          text_eq_of_ne cmd _ b,
          text_eq_of_ne cmd _ c,
          text_eq_of_ne cmd _ d,
          text_eq_of_ne cmd _ e,
          text_eq_of_ne cmd _ f,
          text_eq_of_ne cmd _ g,
          text_eq_of_ne cmd _ i,
          text_eq_of_ne cmd _ j,
        )
        refl

  real_main-Ended :
      (cwd : Outcome Bytes Bytes) (args : List Bytes) (r : Log × Printed)
      → real_main host cwd args h ≡ done r
      → Ended host h cwd args r
  unfolding real_main
  real_main-Ended cwd [] r e = subst (λ r. Ended host h cwd [] r) (done-eq e) no_command
  real_main-Ended (err e) (cmd ∷ args) r p =
      subst (λ r. Ended host h (err e) (cmd ∷ args) r) (done-eq p) nowhere
  real_main-Ended (ok cwd) (cmd ∷ args) r e = ran (command-Follows cwd cmd args r e)

  Ended-real_main :
      {cwd : Outcome Bytes Bytes} {args : List Bytes} {r : Log × Printed}
      → Ended host h cwd args r
      → real_main host cwd args h ≡ done r
  unfolding real_main
  Ended-real_main no_command = refl
  Ended-real_main nowhere = refl
  Ended-real_main (ran w) = Ran-command w

  -- The program returns exactly what the rules say: without a command, or with one that is none of
  -- the nine words, it prints how it is used and its exit code is 2, with no effect on files and no
  -- command run, as with `emit` of anything but `asm`; without a current directory it prints that
  -- and its exit code is 1; and otherwise it does what the driver's operation for the command does,
  -- in the directory that is given or else the current one, and where the operation succeeds its
  -- exit code is 0 and it prints the result, where it fails 1 and it prints each diagnostic on a line
  -- of the error output and nothing else.
  pub real_main_iff :
      (cwd : Outcome Bytes Bytes) (args : List Bytes) (r : Log × Printed)
      → (real_main host cwd args h ≡ done r) ↔ Ended host h cwd args r
  real_main_iff cwd args r = (real_main-Ended cwd args r, Ended-real_main)
