-- ===== src/Parser/Total.antt =====
-- The expressions of parser.rs are parsed to their end: fuel of five calls for each token that is
-- left is enough.
use snap_surf_lang.Prelude.{
  ℕ, suc, zero, ◌+◌, ◌*◌, ◌≤◌, Bytes, true, List, none, ◌≡◌, ◌≢◌, refl, inl, inr, ltb, Post,
  Post-weaken, arith, Bool-cases, Option-cases,
}
use snap_surf_lang.Diagnostic.{Span}
use snap_surf_lang.Token.{TokenKind, Token, eof}
use snap_surf_lang.Ast.{Expr, expr_span}
use snap_surf_lang.Parser.Cursor.{Parser, is_arg_start}
use snap_surf_lang.Parser.Exprs.{
  binop, prefix_op, callee_of, parse_expr, binary_rest, parse_prefix, finish_call, call_args,
}
use snap_surf_lang.Parser.Moves.{EndsInEof, and_then-Post, stands_at, kind-eq, starts_arg-eq}
use snap_surf_lang.Parser.Primary.{
  HasBadString, In, On, At, left, TookFrom, taking, weaken, parse_primary-Post,
}

binop-ne : {k : TokenKind} → binop k ≢ none → k ≢ eof
unfolding binop
binop-ne h e = h (rw e refl)

prefix_op-ne : {k : TokenKind} → prefix_op k ≢ none → k ≢ eof
unfolding prefix_op
prefix_op-ne h e = h (rw e refl)

is_arg_start-ne : {k : TokenKind} → is_arg_start k ≡ true → k ≢ eof
unfolding is_arg_start
is_arg_start-ne h e = cc

module _ (tokens : List Token) (file_path : Bytes) (source_file_id : ℕ)
    (ends : EndsInEof tokens) where
  mutual
    unfolding parse_expr binary_rest parse_prefix finish_call call_args

    parse_expr-Took :
        (n min_bp : ℕ) (s : Parser) (k : TokenKind)
        → In tokens file_path source_file_id ends s
        → At tokens file_path source_file_id ends k s
        → 5 * left tokens file_path source_file_id ends s ≤ n
        → Post
            (HasBadString tokens file_path source_file_id ends)
            (TookFrom tokens file_path source_file_id ends k s)
            (parse_expr tokens file_path source_file_id n min_bp s)
    parse_expr-Took zero min_bp s k i h b = absurd (omega (arith, i, b))
    parse_expr-Took (suc n) min_bp s k i h b =
        and_then-Post (HasBadString tokens file_path source_file_id ends)
          (TookFrom tokens file_path source_file_id ends k s)
          (TookFrom tokens file_path source_file_id ends k s)
          (parse_prefix tokens file_path source_file_id n s) _
          (parse_prefix-Took n s k i h (omega (arith, b)))
          λ lhs s' (w, m).
            and_then-Post (HasBadString tokens file_path source_file_id ends)
              (λ r. On tokens file_path source_file_id ends s' r.1)
              (TookFrom tokens file_path source_file_id ends k s)
              (finish_call tokens file_path source_file_id n lhs s') _
              (finish_call-Went n lhs s' w.0 (omega (arith, b, w.1)))
              λ lhs s'' v.
                Post-weaken (HasBadString tokens file_path source_file_id ends)
                  (λ r. On tokens file_path source_file_id ends s'' r.1)
                  (TookFrom tokens file_path source_file_id ends k s)
                  (binary_rest tokens file_path source_file_id n min_bp lhs s'')
                  (λ r x. (
                    (x.0, omega (arith, w.1, v.1, x.1)),
                    λ ne. let l = m ne in omega (arith, l, v.1, x.1),
                  ))
                  (binary_rest-Went n min_bp lhs s'' v.0 (omega (arith, b, w.1, v.1)))

    binary_rest-Went :
        (n min_bp : ℕ) (lhs : Expr) (s : Parser)
        → In tokens file_path source_file_id ends s
        → 5 * left tokens file_path source_file_id ends s ≤ n + 4
        → Post
            (HasBadString tokens file_path source_file_id ends)
            (λ r. On tokens file_path source_file_id ends s r.1)
            (binary_rest tokens file_path source_file_id n min_bp lhs s)
    binary_rest-Went zero min_bp lhs s i b = absurd (omega (arith, i, b))
    binary_rest-Went (suc n) min_bp lhs s i b =
        let (k, h) = stands_at tokens file_path source_file_id s i in
        rw (kind-eq tokens file_path source_file_id s k h) (elim (Option-cases (binop k)) [
          | inl q ↦ rw (q, Post) (i, omega arith)
          | inr ((op, left_bp, right_bp), q) ↦ elim (Bool-cases (ltb left_bp min_bp)) [
            | inl x ↦ rw (q, x, Post) (i, omega arith)
            | inr x ↦
                rw (q, x, Post)
                  (taking tokens file_path source_file_id ends
                    (λ r. On tokens file_path source_file_id ends s r.1) s k _ i h
                    λ t s' w c.
                      let m = w.1 (binop-ne (λ z. cc)) in
                      let (k', h') = stands_at tokens file_path source_file_id s' w.0.0 in
                      and_then-Post (HasBadString tokens file_path source_file_id ends)
                        (λ r. On tokens file_path source_file_id ends s' r.1)
                        (λ r. On tokens file_path source_file_id ends s r.1)
                        (parse_expr tokens file_path source_file_id n right_bp s') _
                        (weaken tokens file_path source_file_id ends k' s' _
                          (parse_expr-Took n right_bp s' k' w.0.0 h' (omega (arith, b, m))))
                        λ rhs s'' v.
                          Post-weaken (HasBadString tokens file_path source_file_id ends)
                            (λ r. On tokens file_path source_file_id ends s'' r.1)
                            (λ r. On tokens file_path source_file_id ends s r.1) _
                            (λ r x. (x.0, omega (arith, m, v.1, x.1)))
                            (binary_rest-Went n min_bp _ s'' v.0 (omega (arith, b, m, v.1))))
          ]
        ])

    parse_prefix-Took :
        (n : ℕ) (s : Parser) (k : TokenKind)
        → In tokens file_path source_file_id ends s
        → At tokens file_path source_file_id ends k s
        → 5 * left tokens file_path source_file_id ends s ≤ n + 3
        → Post
            (HasBadString tokens file_path source_file_id ends)
            (TookFrom tokens file_path source_file_id ends k s)
            (parse_prefix tokens file_path source_file_id n s)
    parse_prefix-Took zero s k i h b = absurd (omega (arith, i, b))
    parse_prefix-Took (suc n) s k i h b =
        rw (kind-eq tokens file_path source_file_id s k h) (elim (Option-cases (prefix_op k)) [
          | inl q ↦
              rw (q, Post)
                (parse_primary-Post tokens file_path source_file_id ends
                  (parse_expr tokens file_path source_file_id n 0) s
                  (λ s' i' m.
                    let (k', h') = stands_at tokens file_path source_file_id s' i' in
                    weaken tokens file_path source_file_id ends k' s' _
                      (parse_expr-Took n 0 s' k' i' h' (omega (arith, b, m))))
                  k i h)
          | inr (op, q) ↦
              rw (q, Post)
                (taking tokens file_path source_file_id ends
                  (TookFrom tokens file_path source_file_id ends k s) s k _ i h
                  λ t s' w c.
                    let m = w.1 (prefix_op-ne (λ z. cc)) in
                    let (k', h') = stands_at tokens file_path source_file_id s' w.0.0 in
                    and_then-Post (HasBadString tokens file_path source_file_id ends)
                      (λ r. On tokens file_path source_file_id ends s' r.1)
                      (TookFrom tokens file_path source_file_id ends k s)
                      (parse_expr tokens file_path source_file_id n 8 s') _
                      (weaken tokens file_path source_file_id ends k' s' _
                        (parse_expr-Took n 8 s' k' w.0.0 h' (omega (arith, b, m))))
                      λ e s'' v. ((v.0, omega (arith, m, v.1)), λ ne. omega (arith, m, v.1)))
        ])

    finish_call-Went :
        (n : ℕ) (lhs : Expr) (s : Parser)
        → In tokens file_path source_file_id ends s
        → 5 * left tokens file_path source_file_id ends s ≤ n + 1
        → Post
            (HasBadString tokens file_path source_file_id ends)
            (λ r. On tokens file_path source_file_id ends s r.1)
            (finish_call tokens file_path source_file_id n lhs s)
    finish_call-Went zero lhs s i b = absurd (omega (arith, i, b))
    finish_call-Went (suc n) lhs s i b = elim (Option-cases (callee_of lhs)) [
      | inl q ↦ rw (q, Post) (i, omega arith)
      | inr (callee, q) ↦
          let (k, h) = stands_at tokens file_path source_file_id s i in
          elim (Bool-cases (is_arg_start k)) [
            | inr x ↦
                rw (q, starts_arg-eq tokens file_path source_file_id s k h, x, Post)
                  (i, omega arith)
            | inl x ↦
                rw (q, starts_arg-eq tokens file_path source_file_id s k h, x, Post)
                  (and_then-Post (HasBadString tokens file_path source_file_id ends)
                    (λ r. On tokens file_path source_file_id ends s r.1)
                    (λ r. On tokens file_path source_file_id ends s r.1)
                    (call_args tokens file_path source_file_id n (expr_span lhs) s) _
                    (call_args-Went n (expr_span lhs) s i (omega (arith, b))) λ r s' w. w)
          ]
    ]

    call_args-Went :
        (n : ℕ) (end : Span) (s : Parser)
        → In tokens file_path source_file_id ends s
        → 5 * left tokens file_path source_file_id ends s ≤ n + 2
        → Post
            (HasBadString tokens file_path source_file_id ends)
            (λ r. On tokens file_path source_file_id ends s r.1)
            (call_args tokens file_path source_file_id n end s)
    call_args-Went zero end s i b = absurd (omega (arith, i, b))
    call_args-Went (suc n) end s i b =
        let (k, h) = stands_at tokens file_path source_file_id s i in
        rw (starts_arg-eq tokens file_path source_file_id s k h)
          (elim (Bool-cases (is_arg_start k)) [
            | inr x ↦ rw (x, Post) (i, omega arith)
            | inl x ↦
                rw (x, Post)
                  (and_then-Post (HasBadString tokens file_path source_file_id ends)
                    (TookFrom tokens file_path source_file_id ends k s)
                    (λ r. On tokens file_path source_file_id ends s r.1)
                    (parse_prefix tokens file_path source_file_id n s) _
                    (parse_prefix-Took n s k i h (omega (arith, b)))
                    λ arg s' (w, m).
                      let l = m (is_arg_start-ne x) in
                      and_then-Post (HasBadString tokens file_path source_file_id ends)
                        (λ r. On tokens file_path source_file_id ends s' r.1)
                        (λ r. On tokens file_path source_file_id ends s r.1)
                        (call_args tokens file_path source_file_id n (expr_span arg) s') _
                        (call_args-Went n (expr_span arg) s' w.0 (omega (arith, b, l)))
                        λ r s'' v. (v.0, omega (arith, l, v.1)))
          ])

  -- Parsing an expression ends, with fuel of five calls for each token that is left: on tokens that
  -- end in `Eof`, from any token but that one, it takes at least one token, and never goes past the
  -- end. It panics only if one of the string tokens has a text that `decode_string`
  -- cannot decode.
  pub parse_expr-Post :
      (n min_bp : ℕ) (s : Parser) (k : TokenKind)
      → In tokens file_path source_file_id ends s
      → At tokens file_path source_file_id ends k s
      → 5 * left tokens file_path source_file_id ends s ≤ n
      → Post
          (HasBadString tokens file_path source_file_id ends)
          (TookFrom tokens file_path source_file_id ends k s)
          (parse_expr tokens file_path source_file_id n min_bp s)
  parse_expr-Post n min_bp s k i h b = parse_expr-Took n min_bp s k i h b
