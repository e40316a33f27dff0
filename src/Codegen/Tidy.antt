-- ===== src/Codegen/Tidy.antt =====
-- Operations of codegen.rs that define the labels they make once each, and refer to labels that
-- are defined: what they are, and that they compose.
use snap_surf_lang.Prelude.{
  ℕ, ◌+◌, ◌≤◌, List, [], ◌∷◌, ◌++◌, ◌≡◌, ltb, if◌then◌else◌, arith, Run, done, panic, out_of_fuel,
  Post,
}
use snap_surf_lang.Codegen.Asm.{Prefix, Label, local_label, Line}
use snap_surf_lang.Codegen.Exprs.{Emit}
use snap_surf_lang.Codegen.Stmts.{
  Names, Emits, emits, continue_with, append_to, ◌then◌, of_expr, with_label,
}
use snap_surf_lang.Codegen.Labels.{
  Kind, numbered, other, is_of, count, count-append, Refers, Labels, InTable, Every, Refers-append,
  Labels-append,
}
use snap_surf_lang.Codegen.Targets.{Plain}

-- 1 for the numbers from `a` to `b`, without `b`.
unfoldable pub in_range : ℕ → ℕ → Kind → ℕ
in_range a b (numbered n) = if ltb n a then 0 else if ltb n b then 1 else 0
in_range a b other = 0

pub in_range-join :
    (a b c : ℕ) (k : Kind) → a ≤ b → b ≤ c → in_range a b k + in_range b c k ≤ in_range a c k
unfolding in_range
in_range-join a b c (numbered n) h k = ground arith
in_range-join a b c other h k = omega arith

in_range-cons :
    (p : Prefix) (a b : ℕ) (k : Kind)
    → a + 1 ≤ b
    → is_of (local_label p a) k + in_range (a + 1) b k ≤ in_range a b k
unfolding in_range
in_range-cons p a b (numbered n) h = ground arith
in_range-cons p a b other h = omega arith

in_range-skip : (a b : ℕ) (k : Kind) → a + 1 ≤ b → in_range (a + 1) b k ≤ in_range a b k
unfolding in_range
in_range-skip a b (numbered n) h = ground arith
in_range-skip a b other h = omega arith

pub in_range-le : (a b : ℕ) (k : Kind) → in_range a b k ≤ 1
unfolding in_range
in_range-le a b (numbered n) = ground arith
in_range-le a b other = omega arith

-- How many of the labels are of the kind.
unfoldable pub times : Kind → List Label → ℕ
times k [] = 0
times k (l ∷ ls) = is_of l k + times k ls

times-append : (k : Kind) (a b : List Label) → times k (a ++ b) ≡ times k a + times k b
unfolding times
times-append k [] b = omega arith
times-append k (l ∷ ls) b = omega (arith, times-append k ls b)

module _ (S T : Label → Type 0) where
  Every-append : (a b : List Label) → Every T a → Every T b → Every T (a ++ b)
  unfolding Every
  Every-append [] b h k = k
  Every-append (l ∷ ls) b (g, h) k = (g, Every-append ls b h k)

  Every-last : (a : List Label) (l : Label) → Every T (a ++ l ∷ []) → Every T a × T l
  unfolding Every
  Every-last [] l (h, u) = (tt, h)
  Every-last (x ∷ xs) l (g, h) = let (y, z) = Every-last xs l h in ((g, y), z)

  -- Of the labels with a number, the lines define those that are owed and those that are made, at
  -- most once each. Where what is known holds, they refer to labels with the property.
  abbrev pub Good : Type 0 → List Label → Names → List Line × Names → Type 0
  Good K owed s r =
      (s.label_id ≤ r.1.label_id)
      × ((n : Kind) → count n r.0 ≤ times n owed + in_range s.label_id r.1.label_id n)
      × (InTable S r.1.strings → InTable S s.strings)
      × (Labels T r.0 → Every T owed)
      × (K → InTable S r.1.strings → Labels T r.0 → Refers S T r.0)

  unfoldable pub Tidy : Type 0 → List Label → Emits → Type 0
  Tidy K owed m = (s : Names) → Post (Unit {0}) (Good K owed s) (m s)

  append_to-Good :
      (K : Type 0) (o o' : List Label) (s s' : Names) (ls : List Line) (m : Run (List Line × Names))
      → Good K o s (ls, s')
      → Post (Unit {0}) (Good K o' s') m
      → Post (Unit {0}) (Good K (o ++ o') s) (append_to ls m)
  append_to-Good K o o' s s' ls panic g h = tt
  append_to-Good K o o' s s' ls out_of_fuel g h = absurd h
  append_to-Good K o o' s s' ls (done (ls', s'')) (a, b, c, d, e) (a', b', c', d', e') = (
    omega arith,
    λ n. omega (
      arith,
      count-append n ls ls',
      times-append n o o',
      b n,
      b' n,
      in_range-join s.label_id s'.label_id s''.label_id n a a',
    ),
    λ h. c (c' h),
    λ h. let (x, y) = Labels-append T ls ls' h in Every-append o o' (d x) (d' y),
    λ k t h.
        let (x, y) = Labels-append T ls ls' h in Refers-append S T ls ls' (e k (c' t) x) (e' k t y),
  )

  pub then-Tidy :
      (K : Type 0) (o o' : List Label) (m k : Emits)
      → Tidy K o m
      → Tidy K o' k
      → Tidy K (o ++ o') (m then k)
  unfolding Tidy
  then-Tidy K o o' m k h g s = go (m s) (h s)
    where
      go :
          (r : Run (List Line × Names))
          → Post (Unit {0}) (Good K o s) r
          → Post (Unit {0}) (Good K (o ++ o') s) (continue_with r k)
      go (done (ls, s')) x = append_to-Good K o o' s s' ls (k s') x (g s')
      go panic x = tt
      go out_of_fuel x = absurd x

  pub weaken-Tidy :
      (K K' : Type 0) (o : List Label) (m : Emits) → (K' → K) → Tidy K o m → Tidy K' o m
  unfolding Tidy
  weaken-Tidy K K' o m f h s = go (m s) (h s)
    where
      go :
          (r : Run (List Line × Names))
          → Post (Unit {0}) (Good K o s) r
          → Post (Unit {0}) (Good K' o s) r
      go (done r) (a, b, c, d, e) = (a, b, c, d, λ k. e (f k))
      go panic x = tt
      go out_of_fuel x = absurd x

  -- A label that is made, is known to what follows, and is defined there.
  pub with_label-Tidy :
      (K : Type 0) (o : List Label) (p : Prefix) (k : Label → Emits)
      → ((l : Label) → Tidy (T l × K) (o ++ l ∷ []) (k l))
      → Tidy K o (with_label p k)
  unfolding Tidy times
  with_label-Tidy K o p k h s =
      go _ (h (local_label p s.label_id) (record s { label_id = s.label_id + 1 }))
    where
      go :
          (r : Run (List Line × Names))
          → Post
              (Unit {0})
              (Good
                (T (local_label p s.label_id) × K)
                (o ++ local_label p s.label_id ∷ [])
                (record s { label_id = s.label_id + 1 }))
              r
          → Post (Unit {0}) (Good K o s) r
      go (done (ls, s')) (a, b, c, d, e) = (
        omega (arith, a),
        λ n. omega (
          arith,
          b n,
          times-append n o (local_label p s.label_id ∷ []),
          in_range-cons p s.label_id s'.label_id n a,
        ),
        c,
        λ h. (Every-last o (local_label p s.label_id) (d h)).0,
        λ x t h. e ((Every-last o (local_label p s.label_id) (d h)).1, x) t h,
      )
      go panic x = tt
      go out_of_fuel x = absurd x

  -- A label that is made and not used.
  pub no_label-Tidy :
      (K : Type 0) (o : List Label) (p : Prefix) (k : Label → Emits)
      → ((l : Label) → Tidy K o (k l))
      → Tidy K o (with_label p k)
  unfolding Tidy
  no_label-Tidy K o p k h s =
      go _ (h (local_label p s.label_id) (record s { label_id = s.label_id + 1 }))
    where
      go :
          (r : Run (List Line × Names))
          → Post (Unit {0}) (Good K o (record s { label_id = s.label_id + 1 })) r
          → Post (Unit {0}) (Good K o s) r
      go (done (ls, s')) (a, b, c, d, e) = (
        omega (arith, a),
        λ n. omega (arith, b n, in_range-skip s.label_id s'.label_id n a),
        c,
        d,
        e,
      )
      go panic x = tt
      go out_of_fuel x = absurd x

  pub of_expr-Tidy : (K : Type 0) (m : Emit) → Plain S T m → Tidy K [] (of_expr m)
  unfolding Tidy Plain times Every
  of_expr-Tidy K m h s =
      let (a, b, c) = h s.strings in
      (omega arith, λ n. omega (arith, c n), a, λ u. tt, λ k t u. b t)

  -- Lines that define what is owed.
  pub emits-Tidy :
      (K : Type 0) (o : List Label) (ls : List Line)
      → ((n : Kind) → count n ls ≡ times n o)
      → (Labels T ls → Every T o)
      → (K → Labels T ls → Refers S T ls)
      → Tidy K o (emits ls)
  unfolding Tidy
  emits-Tidy K o ls a b c s = (omega arith, λ n. omega (arith, a n), λ h. h, b, λ k t h. c k h)

  pub panic-Tidy : (K : Type 0) (o : List Label) → Tidy K o (λ s. panic)
  unfolding Tidy
  panic-Tidy K o s = tt
