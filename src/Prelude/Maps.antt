-- ===== src/Prelude/Maps.antt =====
-- Maps keyed by numbers as association lists, sets of numbers as lists, and one slot of an array
-- after a write.
use Prim.Native.Nat.{ℕ, ◌<◌}
use mathlib.Core.Path.{◌≡◌, refl}
use mathlib.Core.Logic.{inl, inr}
use mathlib.Core.Bool.{Bool, false, ◌||◌}
use mathlib.Core.Option.{Option, none, some}
use mathlib.Core.List.{List, [], ◌∷◌}
use native.Mathlib.Omega.{arith}
use jam_client_prototype.Prelude.Tests.{◌==◌, if◌then◌else◌, ==_iff, Bool-cases}
use jam_client_prototype.Prelude.Lists.{length, get_or, set, get_or-set_self, get_or-set_ne}

-- Assignment through `[]`, `find` and `erase` of a map.
module _ {ℓ} {V : Type ℓ} where
  unfoldable pub assign : ℕ → V → List (ℕ × V) → List (ℕ × V)
  assign k v [] = (k, v) ∷ []
  assign k v ((j, w) ∷ m) = if j == k then (k, v) ∷ m else (j, w) ∷ assign k v m

  unfoldable pub find : ℕ → List (ℕ × V) → Option V
  find k [] = none
  find k ((j, w) ∷ m) = if j == k then some w else find k m

  unfoldable pub erase : ℕ → List (ℕ × V) → List (ℕ × V)
  erase k [] = []
  erase k ((j, w) ∷ m) = if j == k then erase k m else (j, w) ∷ erase k m

module _ {ℓ} {V : Type ℓ} where
  pub find-erase :
      (k j : ℕ) (m : List (ℕ × V)) → find j (erase k m) ≡ (if k == j then none else find j m)
  unfolding find erase
  find-erase k j [] = ground arith
  find-erase k j ((i, w) ∷ m) = ground (arith, find-erase k j m)

  pub find-assign :
      (k j : ℕ) (v : V) (m : List (ℕ × V))
      → find j (assign k v m) ≡ (if k == j then some v else find j m)
  unfolding find assign
  find-assign k j v [] = refl
  find-assign k j v ((i, w) ∷ m) = ground (arith, find-assign k j v m)

-- `find(x) != end()` on a set.
unfoldable pub member : ℕ → List ℕ → Bool
member x [] = false
member x (y ∷ ys) = y == x || member x ys

-- What each slot holds after a write in range.
pub get_or-set {ℓ} :
    {A : Type ℓ} (xs : List A) (i j : ℕ) (v d : A)
    → i < length xs
    → get_or (set xs i v) j d ≡ (if i == j then v else get_or xs j d)
get_or-set xs i j v d h = elim (Bool-cases (i == j)) [
  | inl e ↦ let same : i ≡ j = (==_iff i j).0 e in rw (e, ← same) (get_or-set_self xs i v d h)
  | inr n ↦ rw n (get_or-set_ne xs i j v d (ground arith))
]
