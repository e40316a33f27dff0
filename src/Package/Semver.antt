-- ===== src/Package/Semver.antt =====
-- What `valid_semver` of package.rs accepts.
use snap_surf_lang.Prelude.{
  ℕ, ◌≤◌, Bytes, Bool, true, false, ◌&&◌, List, [], ◌∷◌, ◌++◌, append-nil, append_assoc, ◌==◌,
  within, ◌≡◌, ◌≢◌, ◌↔◌, refl, sym, ap, ◌∙◌, inl, inr, All, Bool-cases, arith, ==_iff,
}
use snap_surf_lang.Package.Words.{split_from, all_digits, is_number, three_numbers, valid_semver}

-- A text of decimal digits that is not empty.
abbrev pub IsNumber : Bytes → Type 0
IsNumber s = (s ≢ []) × All (λ c. (b'0' ≤ c) × (c ≤ b'9')) s

-- The parts with dots between them.
unfoldable join_dots : List Bytes → Bytes
join_dots [] = []
join_dots (p ∷ []) = p
join_dots (p ∷ q ∷ ps) = p ++ b'.' ∷ join_dots (q ∷ ps)

within_digits : (c : ℕ) → (within b'0' b'9' c ≡ true) ↔ ((b'0' ≤ c) × (c ≤ b'9'))
within_digits c = ground arith

and-true : (a b : Bool) → ((a && b) ≡ true) ↔ ((a ≡ true) × (b ≡ true))
and-true true b = (λ h. (refl, h), λ h. h.1)
and-true false b = (λ h. cc, λ h. cc)

all_digits_iff : (s : Bytes) → (all_digits s ≡ true) ↔ All (λ c. (b'0' ≤ c) × (c ≤ b'9')) s
unfolding all_digits
all_digits_iff [] = (λ h. tt, λ h. refl)
all_digits_iff (c ∷ cs) = (
  λ h. let (x, y) = (and-true _ _).0 h in ((within_digits c).0 x, (all_digits_iff cs).0 y),
  λ (x, y). (and-true _ _).1 ((within_digits c).1 x, (all_digits_iff cs).1 y),
)

is_number_iff : (s : Bytes) → (is_number s ≡ true) ↔ IsNumber s
unfolding is_number
is_number_iff [] = (λ h. cc, λ h. absurd (h.0 refl))
is_number_iff (c ∷ cs) =
    (λ h. (λ e. cc, (all_digits_iff (c ∷ cs)).0 h), λ h. (all_digits_iff (c ∷ cs)).1 h.1)

split_from-cons : (w s : Bytes) → (p : Bytes) × (ps : List Bytes) × (split_from b'.' w s ≡ p ∷ ps)
unfolding split_from
split_from-cons w [] = (w, [], refl)
split_from-cons w (c ∷ cs) = elim (Bool-cases (c == b'.')) [
  | inl q ↦ (w, split_from b'.' [] cs, rw q refl)
  | inr q ↦ let (p, ps, e) = split_from-cons (w ++ c ∷ []) cs in (p, ps, rw q e)
]

join_dots-split :
    (w s : Bytes)
    → join_dots (w ∷ split_from b'.' [] s) ≡ w ++ b'.' ∷ join_dots (split_from b'.' [] s)
unfolding join_dots
join_dots-split w s = let (p, ps, e) = split_from-cons [] s in rw e refl

-- The parts are what stands between the dots.
join-split : (w s : Bytes) → join_dots (split_from b'.' w s) ≡ w ++ s
unfolding split_from join_dots
join-split w [] = sym (append-nil w)
join-split w (c ∷ cs) = elim (Bool-cases (c == b'.')) [
  | inl q ↦
      rw (q, (==_iff c b'.').0 q)
        (join_dots-split w cs ∙ ap (λ r. w ++ b'.' ∷ r) (join-split [] cs))
  | inr q ↦ rw q (join-split (w ++ c ∷ []) cs ∙ append_assoc w (c ∷ []) cs)
]

differs : (c : ℕ) → c ≢ b'.' → (c == b'.') ≡ false
differs c n = elim (Bool-cases (c == b'.')) [ inl q ↦ absurd (n ((==_iff c b'.').0 q)) | inr q ↦ q ]

split_from-last : (w s : Bytes) → All (λ c. c ≢ b'.') s → split_from b'.' w s ≡ (w ++ s) ∷ []
unfolding split_from
split_from-last w [] h = rw (append-nil w) refl
split_from-last w (c ∷ cs) (n, h) =
    rw (differs c n)
      (split_from-last (w ++ c ∷ []) cs h ∙ ap (λ r. r ∷ []) (append_assoc w (c ∷ []) cs))

split_from-dot :
    (w s t : Bytes)
    → All (λ c. c ≢ b'.') s
    → split_from b'.' w (s ++ b'.' ∷ t) ≡ (w ++ s) ∷ split_from b'.' [] t
unfolding split_from
split_from-dot w [] t h = rw (append-nil w) refl
split_from-dot w (c ∷ cs) t (n, h) = rw (differs c n) (
    split_from-dot (w ++ c ∷ []) cs t h
    ∙ ap (λ r. r ∷ split_from b'.' [] t) (append_assoc w (c ∷ []) cs))

number-no_dot : (s : Bytes) → All (λ c. (b'0' ≤ c) × (c ≤ b'9')) s → All (λ c. c ≢ b'.') s
number-no_dot [] h = tt
number-no_dot (c ∷ cs) ((l, u), h) = (λ e. omega arith, number-no_dot cs h)

three_numbers_iff :
    (ps : List Bytes)
    → three_numbers ps ≡ true
    → (a : Bytes) × (b : Bytes) × (c : Bytes) × ((ps ≡ a ∷ b ∷ c ∷ [])
        × (IsNumber a × (IsNumber b × IsNumber c)))
unfolding three_numbers
three_numbers_iff (a ∷ b ∷ c ∷ []) h =
    let (x, yz) = (and-true _ _).0 h in
    let (y, z) = (and-true _ _).0 yz in
    (a, b, c, (refl, ((is_number_iff a).0 x, ((is_number_iff b).0 y, (is_number_iff c).0 z))))
three_numbers_iff [] h = cc
three_numbers_iff (a ∷ []) h = cc
three_numbers_iff (a ∷ b ∷ []) h = cc
three_numbers_iff (a ∷ b ∷ c ∷ d ∷ ps) h = cc

-- Three numbers with a dot between each two.
abbrev pub IsSemver : Bytes → Type 0
IsSemver s =
    (a : Bytes) × (b : Bytes) × (c : Bytes) × ((s ≡ a ++ b'.' ∷ (b ++ b'.' ∷ c))
      × (IsNumber a × (IsNumber b × IsNumber c)))

valid_semver_reads : (s : Bytes) → valid_semver s ≡ true → IsSemver s
unfolding valid_semver join_dots
valid_semver_reads s h =
    let (a, b, c, (e, ns)) = three_numbers_iff _ h in
    (a, b, c, (sym (join-split [] s) ∙ ap join_dots e, ns))

split-three :
    (a b c : Bytes)
    → All (λ x. x ≢ b'.') a
    → All (λ x. x ≢ b'.') b
    → All (λ x. x ≢ b'.') c
    → split_from b'.' [] (a ++ b'.' ∷ (b ++ b'.' ∷ c)) ≡ a ∷ b ∷ c ∷ []
split-three a b c x y z =
    split_from-dot [] a (b ++ b'.' ∷ c) x
    ∙ ap (λ r. a ∷ r) (split_from-dot [] b c y ∙ ap (λ r. b ∷ r) (split_from-last [] c z))

valid_semver_accepts : (s : Bytes) → IsSemver s → valid_semver s ≡ true
unfolding valid_semver three_numbers
valid_semver_accepts s (a, b, c, (e, (x, (y, z)))) =
    rw (e, split-three a b c (number-no_dot a x.1) (number-no_dot b y.1) (number-no_dot c z.1))
      ((and-true _ _).1
        ((is_number_iff a).1 x, (and-true _ _).1 ((is_number_iff b).1 y, (is_number_iff c).1 z)))

-- A version is valid exactly when it is three texts of decimal digits, none of them empty, with a
-- dot between each two.
pub valid_semver_iff : (s : Bytes) → (valid_semver s ≡ true) ↔ IsSemver s
valid_semver_iff s = (valid_semver_reads s, valid_semver_accepts s)
