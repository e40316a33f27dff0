-- ===== src/Prelude/Maps.antt =====
-- A `BTreeMap<String, V>` of which the program only reads and writes single keys, and a
-- `BTreeSet<String>`: association lists. The order of the keys is never observed.
use snap_surf_lang.Prelude.{
  Bytes, text_eq, text_eq_iff, ◌≡◌, refl, Bool, true, false, ◌||◌, List, [], ◌∷◌, Option, none,
  some, if◌then◌else◌, arith,
}

module _ {ℓ} {V : Type ℓ} where
  unfoldable pub get : Bytes → List (Bytes × V) → Option V
  get k [] = none
  get k ((j, v) ∷ m) = if text_eq j k then some v else get k m

  unfoldable pub insert : Bytes → V → List (Bytes × V) → List (Bytes × V)
  insert k v [] = (k, v) ∷ []
  insert k v ((j, w) ∷ m) = if text_eq j k then (k, v) ∷ m else (j, w) ∷ insert k v m

  abbrev pub is_present : Option V → Bool
  is_present none = false
  is_present (some v) = true

  pub get-insert :
      (k j : Bytes) (v : V) (m : List (Bytes × V))
      → get j (insert k v m) ≡ (if text_eq k j then some v else get j m)
  unfolding get insert
  get-insert k j v [] = refl
  get-insert k j v ((i, w) ∷ m) =
      ground (arith, text_eq_iff k j, text_eq_iff i k, text_eq_iff i j, get-insert k j v m)

unfoldable pub contains : Bytes → List Bytes → Bool
contains k [] = false
contains k (j ∷ s) = text_eq j k || contains k s
