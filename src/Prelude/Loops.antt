-- ===== src/Prelude/Loops.antt =====
-- Runs of code that may panic, and `while` loops on fuel. `out_of_fuel` is no outcome of the code:
-- every theorem about a run excludes it.
use Prim.Native.Nat.{ℕ, zero, suc, ◌<◌}
use mathlib.Core.Option.{Option, none, some}
use mathlib.Core.Path.{◌≡◌}
use native.Mathlib.Omega.{arith}

pub data Run {ℓ} (A : Type ℓ) : Type ℓ where
  done : A → Run A
  panic : Run A
  out_of_fuel : Run A

infixl 5 ◌>>=◌
abbrev pub ◌>>=◌ {ℓ κ} : {A : Type ℓ} {B : Type κ} → Run A → (A → Run B) → Run B
done a >>= f = f a
panic >>= f = panic
out_of_fuel >>= f = out_of_fuel

-- An index out of bounds, or `unwrap` of `None`.
abbrev pub or_panic {ℓ} : {A : Type ℓ} → Option A → Run A
or_panic none = panic
or_panic (some a) = done a

-- One round of a loop goes on with a new state, or leaves the loop with a result.
pub data Flow {ℓ κ} (S : Type ℓ) (R : Type κ) : Type (ℓ ⊔ κ) where
  next : S → Flow S R
  exit : R → Flow S R

unfoldable pub loop {ℓ κ} : {S : Type ℓ} {R : Type κ} → ℕ → (S → Run (Flow S R)) → S → Run R
loop zero body s = out_of_fuel
loop (suc fuel) body s = body s >>= λ w. elim w [ next s' ↦ loop fuel body s' | exit r ↦ done r ]

pub loop-exit {ℓ κ} :
    {S : Type ℓ} {R : Type κ} (fuel : ℕ) (body : S → Run (Flow S R)) (s : S) (r : R)
    → body s ≡ done (exit r)
    → loop (suc fuel) body s ≡ done r
unfolding loop
loop-exit fuel body s r e = rw e

pub loop-next {ℓ κ} :
    {S : Type ℓ} {R : Type κ} (fuel : ℕ) (body : S → Run (Flow S R)) (s s' : S)
    → body s ≡ done (next s')
    → loop (suc fuel) body s ≡ loop fuel body s'
unfolding loop
loop-next fuel body s s' e = rw e

-- The run ends with a value in `Q`, or it panics and `X` holds.
abbrev pub Post {ℓ} : {A : Type ℓ} → Type 0 → (A → Type 0) → Run A → Type 0
Post X Q (done a) = Q a
Post X Q panic = X
Post X Q out_of_fuel = ⊥

pub Post-bind {ℓ κ} :
    {A : Type ℓ} {B : Type κ} (X : Type 0) (P : A → Type 0) (Q : B → Type 0) (m : Run A)
    (f : A → Run B)
    → Post X P m
    → ((a : A) → P a → Post X Q (f a))
    → Post X Q (m >>= f)
Post-bind X P Q (done a) f h k = k a h
Post-bind X P Q panic f h k = h
Post-bind X P Q out_of_fuel f h k = absurd h

pub Post-weaken {ℓ} :
    {A : Type ℓ} (X : Type 0) (P Q : A → Type 0) (m : Run A)
    → ((a : A) → P a → Q a)
    → Post X P m
    → Post X Q m
Post-weaken X P Q (done a) k h = k a h
Post-weaken X P Q panic k h = h
Post-weaken X P Q out_of_fuel k h = absurd h

-- A round keeps `P` and lowers the measure, or leaves with a result in `Q`.
abbrev pub Round {ℓ κ} :
    {S : Type ℓ} {R : Type κ} → (S → Type 0) → (R → Type 0) → (S → ℕ) → ℕ → Flow S R → Type 0
Round P Q measure n (next s) = P s × (measure s < n)
Round P Q measure n (exit r) = Q r

module _ {ℓ κ} {S : Type ℓ} {R : Type κ} (X : Type 0) (P : S → Type 0) (Q : R → Type 0)
    (measure : S → ℕ) where
  Post-Round :
      (k : S → Run R) (n : ℕ) (w : Flow S R)
      → Round P Q measure n w
      → ((s : S) → P s → measure s < n → Post X Q (k s))
      → Post X Q (elim w [ next s' ↦ k s' | exit r ↦ done r ])
  Post-Round k n (next s) (h, m) rest = rest s h m
  Post-Round k n (exit r) h rest = h

  -- The rule for `while`: the invariant `P` leads to `Q`, and the fuel is enough.
  pub loop-Post :
      (body : S → Run (Flow S R))
      → ((s : S) → P s → Post X (Round P Q measure (measure s)) (body s))
      → (fuel : ℕ) (s : S) → measure s < fuel
      → P s
      → Post X Q (loop fuel body s)
  unfolding loop
  loop-Post body keep zero s m h = elim m [ ]
  loop-Post body keep (suc fuel) s m h =
      Post-bind X (Round P Q measure (measure s)) Q (body s) _ (keep s h) λ w r.
        Post-Round (loop fuel body) (measure s) w r
          λ s' h' m'. loop-Post body keep fuel s' (omega arith) h'
