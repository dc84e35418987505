-- ===== src/TypeCast/Cast.antt =====
-- `TypeCast` and `CanCast` of ClientNetworkCore/TypeCast.h.
use jam_client_prototype.Prelude.{
  ℕ, ◌<◌, ◌≡◌, refl, ap, ◌∙◌, ◌⊎◌, inl, inr, Bool, true, false, Option, none, some, [], arith, ltb,
  if◌then◌else◌, lt→ltb, Bool-cases, Option-cases, length, get_or,
}
use jam_client_prototype.TypeCast.{
  Grid, TypeList, type_at, index_of, init_tl, read_entry, entry, exists, exists_at, can_convert,
  type_cast, can_cast, cast_when,
}
use jam_client_prototype.TypeCast.Table.{instances-IsTable, IsTable, IsGrid, IsFilled, wanted}
use jam_client_prototype.TypeCast.Index.{type_at-length, type_at-index_of}

module _ (is_implicit : ℕ → ℕ → Bool) where
  exists_lem : (a b : ℕ) → exists is_implicit a b ≡ is_implicit a b
  unfolding exists
  exists_lem a b = elim (Bool-cases (is_implicit a b)) [ inl e ↦ rw e refl | inr e ↦ rw e refl ]

  read_entry-IsTable :
      (types : TypeList) (r : Option Grid) (t : Grid) (i j a b : ℕ)
      → r ≡ some t
      → IsGrid (length types) t
      → IsFilled (length types) (wanted is_implicit types) (length types) 0 t
      → type_at types i ≡ some a
      → type_at types j ≡ some b
      → read_entry t i j ≡ some (is_implicit a b)
  unfolding read_entry IsGrid IsFilled exists_at
  read_entry-IsTable types r t i j a b e (l, rows) filled f g =
      let h : i < length types = type_at-length types i a f in
      let k : j < length types = type_at-length types j b g in
      let in_rows : ltb i (length t) ≡ true = lt→ltb i (length t) (omega (arith, l)) in
      let in_row : ltb j (length (get_or t i [])) ≡ true =
        lt→ltb j (length (get_or t i [])) (omega (arith, rows i h)) in
      let value : entry t i j ≡ wanted is_implicit types i j = filled i j h k (inl h) in
      rw (in_rows, in_row) (ap some (value ∙ rw (f, g) (exists_lem a b)))

  -- The table answers for each two types of the list as the compiler does.
  pub can_convert_lem :
      (types : TypeList) (i j a b : ℕ)
      → type_at types i ≡ some a
      → type_at types j ≡ some b
      → can_convert is_implicit types (some i) (some j) ≡ some (is_implicit a b)
  unfolding can_convert IsTable
  can_convert_lem types i j a b f g =
      let (t, e, shape, filled) = instances-IsTable is_implicit types in
      rw (can_convert, e) (read_entry-IsTable types (some t) t i j a b refl shape filled f g)

  type_cast-answer :
      (types : TypeList) (from : Option ℕ) (to : ℕ) (b : Bool)
      → can_convert is_implicit types from (index_of types to) ≡ some b
      → type_cast is_implicit types to (some record { type_id = from })
        ≡ some (if b then some record { type_id = from } else none)
  unfolding type_cast cast_when
  type_cast-answer types from to true e = rw (type_cast, e) refl
  type_cast-answer types from to false e = rw (type_cast, e) refl

  -- An object that `INIT_TL` marked with a class of the list, cast to a class of the list, stays
  -- what it is when the compiler converts the one pointer to the other and is null otherwise, and
  -- `CanCast` foretells it; null stays null.
  pub type_cast_lem :
      (types : TypeList) (i j class to : ℕ)
      → index_of types class ≡ some i
      → index_of types to ≡ some j
      → let o = init_tl types class in
        (type_cast is_implicit types to (some o)
          ≡ some (if is_implicit class to then some o else none))
        × (can_cast is_implicit types to (some o) ≡ some (is_implicit class to))
        × (type_cast is_implicit types to none ≡ some none)
        × (can_cast is_implicit types to none ≡ some false)
  unfolding type_cast can_cast cast_when init_tl
  type_cast_lem types i j class to e f =
      let answer : can_convert is_implicit types (index_of types class) (index_of types to)
          ≡ some (is_implicit class to) =
        rw (e, f)
          (can_convert_lem types i j class to (type_at-index_of types i class e)
            (type_at-index_of types j to f)) in
      (
        type_cast-answer types (index_of types class) to (is_implicit class to) answer,
        answer,
        refl,
        refl,
      )

  -- A class that is not in the list indexes the table with -1, for the object as for the target.
  pub type_cast-outside :
      (types : TypeList) (class to : ℕ)
      → (index_of types class ≡ none) ⊎ (index_of types to ≡ none)
      → type_cast is_implicit types to (some (init_tl types class)) ≡ none
  unfolding type_cast can_convert init_tl
  type_cast-outside types class to (inl e) = rw e refl
  type_cast-outside types class to (inr e) = elim (Option-cases (index_of types class)) [
    | inl f ↦ rw f refl
    | inr (i, f) ↦ rw (f, type_cast, e) refl
  ]
