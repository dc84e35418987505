-- ===== src/TypeCast/Index.antt =====
-- `TypeAt` and `IndexOf` of ClientNetworkCore/TypeCast.h as inverses.
use mathlib.Core.Path.{subst}
use jam_client_prototype.Prelude.{
  ℕ, zero, suc, ◌<◌, ◌≡◌, refl, ap, ◌↔◌, inl, inr, true, false, none, some, [], ◌∷◌, arith, ◌==◌,
  if◌then◌else◌, ==_iff, Bool-cases, Option-cases, length,
}
use jam_client_prototype.TypeCast.{TypeList, type_at, index_of, one_more}

-- Each type stands once in the list.
unfoldable pub IsDistinct : TypeList → Type 0
IsDistinct [] = Unit
IsDistinct (t ∷ types) = (index_of types t ≡ none) × IsDistinct types

pub type_at-length : (types : TypeList) (i t : ℕ) → type_at types i ≡ some t → i < length types
unfolding type_at
type_at-length [] i t e = absurd (ground arith)
type_at-length (x ∷ types) zero t e = omega arith
type_at-length (x ∷ types) (suc i) t e = omega (arith, type_at-length types i t e)

index_of-tail :
    (x t i : ℕ) (types : TypeList)
    → (x == t) ≡ false
    → index_of types t ≡ some i
    → index_of (x ∷ types) t ≡ some (suc i)
unfolding index_of one_more
index_of-tail x t i types e f = rw (e, f) (ap some (omega arith))

index_of-here : (x t : ℕ) (types : TypeList) → (x == t) ≡ true → index_of (x ∷ types) t ≡ some 0
unfolding index_of
index_of-here x t types e = rw e refl

-- A hit behind the head is a hit of the tail, one earlier.
index_of-later :
    (x t i : ℕ) (types : TypeList)
    → (x == t) ≡ false
    → index_of (x ∷ types) t ≡ some i
    → (j : ℕ) × (i ≡ suc j) × (index_of types t ≡ some j)
unfolding index_of one_more
index_of-later x t i types f e =
    let tail : one_more (index_of types t) ≡ some i =
      subst (λ b. (if b then some 0 else one_more (index_of types t)) ≡ some i) f e in
    elim (Option-cases (index_of types t)) [
      | inl g ↦ absurd (ground (arith, tail, g))
      | inr (j, g) ↦ (j, ground (arith, tail, g), g)
    ]

pub type_at-index_of :
    (types : TypeList) (i t : ℕ) → index_of types t ≡ some i → type_at types i ≡ some t
unfolding type_at index_of
type_at-index_of [] i t e = absurd (ground arith)
type_at-index_of (x ∷ types) i t e = elim (Bool-cases (x == t)) [
  | inl f ↦
      let first : i ≡ 0 = ground (arith, index_of-here x t types f) in
      let same : x ≡ t = (==_iff x t).0 f in rw (first, same) refl
  | inr f ↦
      let (j, later, g) = index_of-later x t i types f e in rw later (type_at-index_of types j t g)
]

index_of-type_at :
    (types : TypeList) (i t : ℕ)
    → IsDistinct types
    → type_at types i ≡ some t
    → index_of types t ≡ some i
unfolding type_at IsDistinct
index_of-type_at [] i t d e = absurd (ground arith)
index_of-type_at (x ∷ types) zero t (fresh, d) e = index_of-here x t types (ground arith)
index_of-type_at (x ∷ types) (suc i) t (fresh, d) e =
    let tail = index_of-type_at types i t d e in
    elim (Bool-cases (x == t)) [
      | inl f ↦ let same : x ≡ t = (==_iff x t).0 f in absurd (ground (arith, same, fresh, tail))
      | inr f ↦ index_of-tail x t i types f tail
    ]

-- In a list of distinct types `TypeAt` and `IndexOf` are inverse: the index of a type is the place
-- at which it stands.
pub index_of_iff :
    (types : TypeList) (i t : ℕ)
    → IsDistinct types
    → (index_of types t ≡ some i) ↔ (type_at types i ≡ some t)
index_of_iff types i t d = (type_at-index_of types i t, index_of-type_at types i t d)
