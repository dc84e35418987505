-- ===== src/TypeCast/Tests.antt =====
-- A base class 10 with two classes, 11 and 12, that derive from it.
use jam_client_prototype.Prelude.{
  ℕ, ◌≡◌, refl, ◌↔◌, Bool, true, false, ◌||◌, none, some, [], ◌∷◌, ◌==◌,
}
use jam_client_prototype.TypeCast.{
  exists, exists_at, one_more, write_entry, TypeList, type_at, index_of, init_tl, type_cast,
  can_cast, make_table, instances, zeros, exists,
}
use jam_client_prototype.TypeCast.Index.{index_of_iff, IsDistinct}
use jam_client_prototype.TypeCast.Cast.{type_cast_lem}

abbrev creatures : TypeList
creatures = 10 ∷ (11 ∷ (12 ∷ []))

abbrev derives : ℕ → ℕ → Bool
derives from to = from == to || to == 10

whole-table :
    make_table derives (instances creatures) creatures 0 0 (zeros creatures)
    ≡ some (
        (true ∷ (false ∷ (false ∷ [])))
        ∷ ((true ∷ (true ∷ (false ∷ []))) ∷ ((true ∷ (false ∷ (true ∷ []))) ∷ [])))
unfolding make_table instances write_entry zeros exists_at type_at exists
whole-table = refl

type_cast_lem_example :
    let o = init_tl creatures 12 in
    (type_cast derives creatures 11 (some o) ≡ some none)
    × (can_cast derives creatures 11 (some o) ≡ some false)
    × (type_cast derives creatures 11 none ≡ some none)
    × (can_cast derives creatures 11 none ≡ some false)
unfolding index_of one_more
type_cast_lem_example = type_cast_lem derives creatures 2 1 12 11 refl refl

third : (index_of creatures 12 ≡ some 2) ↔ (type_at creatures 2 ≡ some 12)
unfolding index_of one_more IsDistinct
third = index_of_iff creatures 2 12 (refl, (refl, (refl, tt)))
